-- ===== src/Synth/Grid.antt =====
-- The times of the samples that a series reply holds.
use native.Mathlib.Nat.{suc-mul, div-mul-le_self, lt-div-mul-add, lt_of_mul-lt-mul_right}
use cs370_term_project.Prelude.{
  ℕ, zero, suc, ◌+◌, ◌-◌, ◌*◌, ◌/◌, ◌%◌, ◌^◌, ◌≤◌, ◌<◌, ◌≡◌, true, false, List, [], ◌∷◌, arith,
  refl, ap, ◌∙◌, map, le→leb, lt→leb,
}
use cs370_term_project.Synth.{Floats, Out}
use cs370_term_project.Synth.Series.{
  max_window_s, max_samples, sample_line, sample_lines, step_of, first_time,
}
use cs370_term_project.Synth.Lines.{put_lines}
use cs370_term_project.Synth.Answers.{sample_list, sample_lines-same}

-- `count` times, `step` apart.
abbrev pub times : ℕ → ℕ → ℕ → List ℕ
times step t zero = []
times step t (suc count) = t ∷ times step (t + step) count

sample_list-more :
    (fl : Floats) (k step to fuel t : ℕ)
    → t ≤ to
    → sample_list fl k step to (suc fuel) t
      ≡ sample_line fl k t ∷ sample_list fl k step to fuel ((t + step) % 2 ^ 64)
sample_list-more fl k step to fuel t h =
    ap
      (λ b. elim b [
        | false ↦ []
        | true ↦ sample_line fl k t ∷ sample_list fl k step to fuel ((t + step) % 2 ^ 64)
      ])
      (le→leb t to h)

sample_list-end :
    (fl : Floats) (k step to fuel t : ℕ) → to < t → sample_list fl k step to fuel t ≡ []
sample_list-end fl k step to zero t h = refl
sample_list-end fl k step to (suc fuel) t h =
    ap
      (λ b. elim b [
        | false ↦ []
        | true ↦ sample_line fl k t ∷ sample_list fl k step to fuel ((t + step) % 2 ^ 64)
      ])
      (lt→leb t to h)

-- The loop ends before its fuel does, and takes each time up to the last.
sample_list-times :
    (fl : Floats) (k step to fuel count t : ℕ)
    → to + step < 2 ^ 64
    → to < t + count * step
    → t + count * step ≤ to + step
    → count ≤ fuel
    → sample_list fl k step to fuel t ≡ map (sample_line fl k) (times step t count)
sample_list-times fl k step to fuel zero t w l u f =
    sample_list-end fl k step to fuel t (omega arith)
sample_list-times fl k step to zero (suc c) t w l u f = absurd (omega arith)
sample_list-times fl k step to (suc fuel) (suc c) t w l u f =
    let here : t ≤ to = omega (arith, u, suc-mul c step) in
    sample_list-more fl k step to fuel t here
    ∙ ap (◌∷◌ (sample_line fl k t)) (
        ap (sample_list fl k step to fuel) {y = t + step} (omega (arith, here, w))
        ∙ sample_list-times fl k step to fuel c (t + step) w (omega (arith, l, suc-mul c step))
            (omega (arith, u, suc-mul c step)) (omega arith))

-- The times from the first multiple of `step` on, in a window.
pub record IsGrid (from to step first count : ℕ) : Type 0 where
  pub starts : (from ≤ first * step) × (first * step < from + step)
  pub ends : (to < first * step + count * step) × (first * step + count * step ≤ to + step)
  pub few : count ≤ max_samples

window-step : (from to : ℕ) → to - from < max_samples * step_of from to
window-step from to = omega arith

rounded-IsGrid :
    (from to step : ℕ)
    → 0 < step
    → step ≤ to - from + 1
    → from < to
    → to - from < max_samples * step
    → IsGrid from to step
        ((from + step - 1) / step)
        (suc ((to - (from + step - 1) / step * step) / step))
rounded-IsGrid from to step p s h w = record {
  starts = (omega (arith, above), omega (arith, below));
  ends = (
    omega (arith, last_above, suc-mul q step, below),
    omega (arith, last_below, suc-mul q step, below),
  );
  few = lt_of_mul-lt-mul_right step (omega (arith, last_below, above, w));
}
  where
    t0 : ℕ
    t0 = (from + step - 1) / step * step

    q : ℕ
    q = (to - t0) / step

    below : t0 ≤ from + step - 1
    below = div-mul-le_self (from + step - 1) step

    above : from + step - 1 < t0 + step
    above = lt-div-mul-add p

    last_below : q * step ≤ to - t0
    last_below = div-mul-le_self (to - t0) step

    last_above : to - t0 < q * step + step
    last_above = lt-div-mul-add p

-- A window of 1 to 3600 seconds, well below 2^64, and any number of rounds from 300 on: the loop
-- writes one sample for each multiple of `step` in the window, in order, and these are at most 300.
pub sample_lines-IsGrid :
    (fl : Floats) (cap k from to fuel : ℕ) (o : Out)
    → from < to
    → to - from ≤ max_window_s
    → to + max_window_s < 2 ^ 64
    → max_samples ≤ fuel
    → (first count : ℕ) × IsGrid from to (step_of from to) first count
      × (sample_lines fl cap k (step_of from to) to fuel (first_time from (step_of from to)) o
          ≡ put_lines cap
              (map (sample_line fl k) (times (step_of from to) (first * step_of from to) count))
              o)
sample_lines-IsGrid fl cap k from to fuel o h l w f = (
  first,
  count,
  grid,
  (sample_lines-same fl cap k step to fuel (first_time from step) o
      ∙ ap (λ t. put_lines cap (sample_list fl k step to fuel t) o) same
      ∙ ap (λ ls. put_lines cap ls o)
          (sample_list-times fl k step to fuel count (first * step) (omega arith) grid.ends.0
            grid.ends.1 (omega (arith, grid.few)))),
)
  where
    step : ℕ
    step = step_of from to

    first : ℕ
    first = (from + step - 1) / step

    count : ℕ
    count = suc ((to - first * step) / step)

    grid : IsGrid from to step first count
    grid = rounded-IsGrid from to step (omega arith) (omega arith) h (window-step from to)

    no_wrap : (from + step - 1) % 2 ^ 64 ≡ from + step - 1
    no_wrap = omega arith

    same : first_time from step ≡ first * step
    same = ap (λ x. x / step * step % 2 ^ 64) no_wrap ∙ omega (arith, grid.starts)
