-- ===== src/Store/Taken.antt =====
-- The slots that a source has taken and not released yet, and the records that carry them.
use cs370_term_project.Prelude.{
  ℕ, zero, suc, ap, ap₂, ◌∙◌, ◌+◌, ◌≡◌, Bool, true, false, ◌&&◌, some, List, [], ◌∷◌, ◌++◌, leb,
  arith, refl, sym, subst, length, append-nil, inl, inr,
}
use cs370_term_project.Ring.{Slot, Ring, peek}
use cs370_term_project.Wal.Scan.Log.{Entry}
use cs370_term_project.Wal.Batch.{Wal}
use cs370_term_project.Store.{Source, Round, Drained, sample_item, drain}
use cs370_term_project.Store.Drain.{Carries, AreSeen, AreSamples, AreRounds, Holding, drain-Moves}
use cs370_term_project.Store.Steady.{SameSegment, same, drain-IsSteady}
use cs370_term_project.Store.Loop.{drain_source}

-- `n` of the unread slots of a ring, from the `i`-th on.
abbrev pub slots_from : (ℕ → Slot) → ℕ → ℕ → List Slot
slots_from q i zero = []
slots_from q i (suc n) = q i ∷ slots_from q (i + 1) n

-- A ring whose unread slots are the first of `q`: as long as none is released, pushes only add to
-- them.
abbrev pub Shows : (ℕ → Slot) → Ring → Type 0
Shows q r = (i : ℕ) (s : Slot) → peek r i ≡ some s → s ≡ q i

abbrev pub AllShow : (ℕ → Slot) → List Round → Type 0
AllShow q [] = Unit
AllShow q (r ∷ rs) = Shows q r.ring × AllShow q rs

-- Slots in their order: each was durable before a restart, or has a record of its own, which carries
-- its sample; the records stand in the same order.
pub data AreCovered (skip : Bool) (skip_seq : ℕ) : List Slot → List Entry → Type 0 where
  no_slots : (es : List Entry) → AreCovered skip skip_seq [] es
  was_durable :
      (x : Slot) (xs : List Slot) (es : List Entry)
      → (skip && leb x.seq skip_seq) ≡ true
      → AreCovered skip skip_seq xs es
      → AreCovered skip skip_seq (x ∷ xs) es
  carried :
      (x : Slot) (xs : List Slot) (e : Entry) (es : List Entry) (r : Round)
      → Carries e (sample_item r x)
      → AreCovered skip skip_seq xs es
      → AreCovered skip skip_seq (x ∷ xs) (e ∷ es)
  passed_over :
      (xs : List Slot) (e : Entry) (es : List Entry)
      → AreCovered skip skip_seq xs es
      → AreCovered skip skip_seq xs (e ∷ es)

-- The slots taken from a ring since it was last released are its first unread ones.
pub record Taken (q : ℕ → Slot) (s : Source) (records : List Entry) : Type 0 where
  pub covered : AreCovered s.skip s.skip_seq (slots_from q 0 s.taken) records

pub taken_none :
    (q : ℕ → Slot) (s : Source) (records : List Entry) → s.taken ≡ 0 → Taken q s records
taken_none q s records e = record {
  covered =
      subst (λ n. AreCovered s.skip s.skip_seq (slots_from q 0 n) records) (sym e)
        (no_slots records);
}

AreCovered-behind :
    {skip : Bool} {n : ℕ} {xs : List Slot} (es fs : List Entry)
    → AreCovered skip n xs fs
    → AreCovered skip n xs (es ++ fs)
AreCovered-behind [] fs c = c
AreCovered-behind (e ∷ es) fs c = passed_over _ e (es ++ fs) (AreCovered-behind es fs c)

AreCovered-append :
    {skip : Bool} {n : ℕ} {xs ys : List Slot} {es fs : List Entry}
    → AreCovered skip n xs es
    → AreCovered skip n ys fs
    → AreCovered skip n (xs ++ ys) (es ++ fs)
AreCovered-append (no_slots es) d = AreCovered-behind es _ d
AreCovered-append (was_durable x xs es h c) d = was_durable x _ _ h (AreCovered-append c d)
AreCovered-append (carried x xs e es r h c) d = carried x _ e _ r h (AreCovered-append c d)
AreCovered-append (passed_over xs e es c) d = passed_over _ e _ (AreCovered-append c d)

-- More records do not uncover a slot.
pub AreCovered-more :
    {skip : Bool} {n : ℕ} {xs : List Slot} {es : List Entry} (fs : List Entry)
    → AreCovered skip n xs es
    → AreCovered skip n xs (es ++ fs)
AreCovered-more {skip} {n} {xs} {es} fs c =
    subst (λ vs. AreCovered skip n vs (es ++ fs)) (append-nil xs)
      (AreCovered-append c (no_slots fs))

pub Taken-append :
    {q : ℕ → Slot} {s : Source} (xs ys : List Entry) → Taken q s xs → Taken q s (xs ++ ys)
Taken-append xs ys t = record { covered = AreCovered-more ys t.covered }

slots_from-append :
    (q : ℕ → Slot) (i m n : ℕ) → slots_from q i m ++ slots_from q (i + m) n ≡ slots_from q i (m + n)
slots_from-append q i zero n =
    ap (λ k. slots_from q k n) {x = i + 0} {y = i} (omega arith)
    ∙ ap (slots_from q i) {y = 0 + n} (omega arith)
slots_from-append q i (suc m) n =
    ap (λ k. q i ∷ (slots_from q (i + 1) m ++ slots_from q k n)) {y = i + 1 + m} (omega arith)
    ∙ ap (◌∷◌ (q i)) (slots_from-append q (i + 1) m n)
    ∙ ap (slots_from q i) {x = suc (m + n)} (omega arith)

-- What the calls of `ring_peek` saw is what is unread.
seen_slots :
    (q : ℕ → Slot) (rs : List Round) (i : ℕ) (xs : List Slot)
    → AllShow q rs
    → AreSeen rs i xs
    → xs ≡ slots_from q i (length xs)
seen_slots q rs i [] a h = refl
seen_slots q [] i (x ∷ xs) a h = absurd h
seen_slots q (r ∷ rs) i (x ∷ xs) (f, a) (e, h) = ap₂ ◌∷◌ (f i x e) (seen_slots q rs (i + 1) xs a h)

-- What one call moved.
samples-AreCovered :
    (s : Source) (rs : List Round) (xs : List Slot) (es : List Entry)
    → AreSamples s rs xs es
    → AreCovered s.skip s.skip_seq xs es
samples-AreCovered s rs [] es h = no_slots es
samples-AreCovered s [] (x ∷ xs) es h = absurd h
samples-AreCovered s (r ∷ rs) (x ∷ xs) es (inl (d, h)) =
    was_durable x xs es d (samples-AreCovered s rs xs es h)
samples-AreCovered s (r ∷ rs) (x ∷ xs) es (inr (d, e, rest, p, c, h)) =
    subst (AreCovered s.skip s.skip_seq (x ∷ xs)) (sym p)
      (carried x xs e rest r c (samples-AreCovered s rs xs rest h))

-- The source and the log after a call of `drain`, or without one where there is no ring.
pub record IsDrained (q : ℕ → Slot) (w : Wal) (s : Source) (records : List Entry) (d : Drained)
    : Type 0 where
  pub more : List Entry
  pub holds : Holding d.log (records ++ more)
  pub taken : Taken q d.source (records ++ more)
  pub segment : SameSegment w d.log
  pub skip : d.source.skip ≡ s.skip
  pub skip_seq : d.source.skip_seq ≡ s.skip_seq

-- What covers the slots by the skip that `drain` found covers them by the same one from before.
pub AreCovered-skip :
    {a b : Bool} {m n : ℕ} {xs : List Slot} {records : List Entry}
    → a ≡ b
    → m ≡ n
    → AreCovered a m xs records
    → AreCovered b n xs records
AreCovered-skip {a} {b} {m} {n} {xs} {records} p q h =
    subst (λ x. AreCovered b x xs records) q (subst (λ x. AreCovered x m xs records) p h)

drain-IsDrained :
    (q : ℕ → Slot) (rs : List Round) (w : Wal) (s : Source) (records : List Entry)
    → AreRounds rs
    → AllShow q rs
    → Holding w records
    → Taken q s records
    → IsDrained q w s records (drain rs w s)
drain-IsDrained q rs w s records v a h t =
    let m = drain-Moves rs w s records v h in
    let k = drain-IsSteady rs w s in
    let all : slots_from q 0 s.taken ++ m.slots ≡ slots_from q 0 (drain rs w s).source.taken =
      ap (◌++◌ (slots_from q 0 s.taken)) (seen_slots q rs s.taken m.slots a m.seen)
      ∙ ap (λ i. slots_from q 0 s.taken ++ slots_from q i (length m.slots)) {y = 0 + s.taken}
          (omega arith)
      ∙ slots_from-append q 0 s.taken (length m.slots)
      ∙ ap (slots_from q 0) (sym m.taken) in
    record {
      more = m.moved;
      holds = m.holds;
      taken = record {
        covered = AreCovered-skip (sym k.skip) (sym k.skip_seq) (
            subst (λ vs. AreCovered s.skip s.skip_seq vs (records ++ m.moved)) all
              (AreCovered-append t.covered (samples-AreCovered s rs m.slots m.moved m.samples)));
      };
      segment = k.segment;
      skip = k.skip;
      skip_seq = k.skip_seq;
    }

pub drain_source-IsDrained :
    (q : ℕ → Slot) (has : Bool) (rs : List Round) (w : Wal) (s : Source) (records : List Entry)
    → AreRounds rs
    → AllShow q rs
    → Holding w records
    → Taken q s records
    → IsDrained q w s records (drain_source has rs w s)
drain_source-IsDrained q true rs w s records v a h t = drain-IsDrained q rs w s records v a h t
drain_source-IsDrained q false rs w s records v a h t = record {
  more = [];
  holds = subst (Holding w) (sym (append-nil records)) h;
  taken = Taken-append records [] t;
  segment = same w;
  skip = refl;
  skip_seq = refl;
}
