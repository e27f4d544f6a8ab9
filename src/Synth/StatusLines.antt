-- ===== src/Synth/StatusLines.antt =====
-- The lines of the status reply are records.
use cs370_term_project.Prelude.{
  ℕ, ◌+◌, ◌*◌, ◌/◌, ◌%◌, ◌^◌, ◌<◌, Bool, true, false, List, [], ◌∷◌, ltb, if◌then◌else◌, arith,
  refl, length,
}
use cs370_term_project.Prelude.Bytes.{Bytes}
use cs370_term_project.Text.{codes, equal}
use cs370_term_project.Kv.{Field, is_name, all_ident, has_key}
use cs370_term_project.Kv.Wire.{IsQuotable, IsNumber}
use cs370_term_project.Kv.Decimal.{print_number-IsNumber, length-print_number}
use cs370_term_project.Synth.{Floats, Synth, decimal, Proc, proc_line, up_since, uptime, mix}
use cs370_term_project.Json.{
  is_number, skip_minus, skip_int, skip_digits, skip_fraction, skip_exponent,
}
use cs370_term_project.Synth.{ring_line, link_line, srcmix_line}
use cs370_term_project.Synth.Records.{
  IsRecord, record_line-IsRecord, quoted, number, constant-IsNumber, IsFloats,
}

zero_text-IsNumber : IsNumber (codes "0")
unfolding is_number skip_minus skip_int skip_fraction skip_exponent
zero_text-IsNumber = constant-IsNumber (codes "0") (omega arith) refl (omega arith)

one_text-IsNumber : IsNumber (codes "1")
unfolding is_number skip_minus skip_int skip_digits skip_fraction skip_exponent
one_text-IsNumber = constant-IsNumber (codes "1") (omega arith) refl (omega arith)

slots_text-IsNumber : IsNumber (codes "4096")
unfolding is_number skip_minus skip_int skip_digits skip_fraction skip_exponent
slots_text-IsNumber = constant-IsNumber (codes "4096") (omega arith) refl (omega arith)

abbrev proc_fields : Floats → Synth → ℕ → Proc → List Field
proc_fields fl s i p =
    quoted (codes "name") p.name
    ∷ quoted (codes "state") (codes "up")
    ∷ number (codes "pid") (decimal p.pid)
    ∷ number (codes "uptime_s") (decimal (uptime s p))
    ∷ number (codes "restarts") (decimal p.restarts)
    ∷ number (codes "rss_kb") (decimal (p.rss_kb + mix ((s.now_s / 10 + i) % 2 ^ 64) % 64))
    ∷ number (codes "cpu_pct") (fl.cpu_text (mix ((s.now_s / 5 + 7 * i) % 2 ^ 64) % 40))
    ∷ number (codes "events") (decimal (uptime s p * p.events_per_s % 2 ^ 64))
    ∷ number (codes "drops") (codes "0")
    ∷ quoted (codes "src") (codes "synth")
    ∷ []

pub record IsProc (p : Proc) : Type 0 where
  pub name_ok : IsQuotable p.name
  pub name_short : length p.name < 24
  pub small : (p.pid < 2 ^ 32) × (p.rss_kb < 2 ^ 31) × (p.restarts < 2 ^ 32)

up_since-lt : (extra : ℕ) (s : Synth) → up_since extra s < 2 ^ 64
up_since-lt extra s = omega arith

uptime-lt : (s : Synth) (p : Proc) → uptime s p < 2 ^ 64
uptime-lt s p = go (ltb 0 p.restarts)
  where
    go : (b : Bool) → (if b then up_since 900 s else up_since 3600 s) < 2 ^ 64
    go true = up_since-lt 900 s
    go false = up_since-lt 3600 s

pub proc_line-IsRecord :
    (fl : Floats) (s : Synth) (i : ℕ) (p : Proc)
    → IsFloats fl
    → IsProc p
    → IsRecord (proc_line fl s i p)
unfolding is_name all_ident has_key equal
proc_line-IsRecord fl s i p hf hp =
    record_line-IsRecord (codes "proc") (proc_fields fl s i p) refl refl refl
      (
        (refl, (hp.name_ok, omega (arith, hp.name_short))),
        refl,
        (
          (refl, omega arith),
          refl,
          (
            (refl, print_number-IsNumber p.pid (omega (arith, hp.small))),
            refl,
            (
              (refl, print_number-IsNumber (uptime s p) (uptime-lt s p)),
              refl,
              (
                (refl, print_number-IsNumber p.restarts (omega (arith, hp.small))),
                refl,
                (
                  (refl, print_number-IsNumber (p.rss_kb + m) (omega (arith, hp.small))),
                  refl,
                  (
                    (refl, hf.cpu_ok k (omega arith)),
                    refl,
                    (
                      (refl, print_number-IsNumber e (omega arith)),
                      refl,
                      ((refl, zero_text-IsNumber), refl, ((refl, omega arith), refl, tt)),
                    ),
                  ),
                ),
              ),
            ),
          ),
        ),
      )
      (omega arith)
      (omega (
        arith,
        hp.name_short,
        length-print_number p.pid,
        length-print_number (uptime s p),
        length-print_number p.restarts,
        length-print_number (p.rss_kb + m),
        (hf.cpu_ok k (omega arith)).short,
        length-print_number e,
      ))
  where
    m : ℕ
    m = mix ((s.now_s / 10 + i) % 2 ^ 64) % 64

    k : ℕ
    k = mix ((s.now_s / 5 + 7 * i) % 2 ^ 64) % 40

    e : ℕ
    e = uptime s p * p.events_per_s % 2 ^ 64

abbrev ring_fields : Bytes → ℕ → List Field
ring_fields name depth =
    quoted (codes "name") name
    ∷ number (codes "depth") (decimal depth)
    ∷ number (codes "capacity") (codes "4096")
    ∷ number (codes "overruns") (codes "0")
    ∷ quoted (codes "src") (codes "synth")
    ∷ []

pub ring_line-IsRecord :
    (name : Bytes) (depth : ℕ)
    → IsQuotable name
    → length name < 24
    → depth < 2 ^ 64
    → IsRecord (ring_line name depth)
unfolding is_name all_ident has_key equal
ring_line-IsRecord name depth q l d =
    record_line-IsRecord (codes "ring") (ring_fields name depth) refl refl refl
      (
        (refl, (q, omega (arith, l))),
        refl,
        (
          (refl, print_number-IsNumber depth d),
          refl,
          (
            (refl, slots_text-IsNumber),
            refl,
            ((refl, zero_text-IsNumber), refl, ((refl, omega arith), refl, tt)),
          ),
        ),
      )
      (omega arith) (omega (arith, l, length-print_number depth))

abbrev link_fields : List Field
link_fields =
    quoted (codes "dongle") (codes "up")
    ∷ quoted (codes "probe") (codes "present")
    ∷ quoted (codes "light") (codes "green")
    ∷ number (codes "time_trusted") (codes "1")
    ∷ quoted (codes "src") (codes "synth")
    ∷ []

pub link_line-IsRecord : IsRecord link_line
unfolding is_name all_ident has_key equal
link_line-IsRecord =
    record_line-IsRecord (codes "link") link_fields refl refl refl
      (
        (refl, omega arith),
        refl,
        (
          (refl, omega arith),
          refl,
          (
            (refl, omega arith),
            refl,
            ((refl, one_text-IsNumber), refl, ((refl, omega arith), refl, tt)),
          ),
        ),
      )
      (omega arith) (omega arith)

abbrev srcmix_fields : Synth → List Field
srcmix_fields s =
    number (codes "live") (codes "0")
    ∷ number (codes "replay") (codes "0")
    ∷ number (codes "synth") (decimal (up_since 3600 s * 16 % 2 ^ 64))
    ∷ quoted (codes "src") (codes "synth")
    ∷ []

pub srcmix_line-IsRecord : (s : Synth) → IsRecord (srcmix_line s)
unfolding is_name all_ident has_key equal
srcmix_line-IsRecord s =
    let n : ℕ = up_since 3600 s * 16 % 2 ^ 64 in
    record_line-IsRecord (codes "srcmix") (srcmix_fields s) refl refl refl
      (
        (refl, zero_text-IsNumber),
        refl,
        (
          (refl, zero_text-IsNumber),
          refl,
          ((refl, print_number-IsNumber n (omega arith)), refl, ((refl, omega arith), refl, tt)),
        ),
      )
      (omega arith) (omega (arith, length-print_number n))
