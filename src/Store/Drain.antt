-- ===== src/Store/Drain.antt =====
-- What `drain` moves: the slots that its calls of `ring_peek` see at consecutive places, one record
-- each, in order, but for those that were durable before a restart.
use cs370_term_project.Prelude.{
  ℕ, ◌+◌, ◌%◌, ◌^◌, ◌≤◌, ◌<◌, ◌≡◌, Bool, true, false, ◌&&◌, Option, none, some, List, [], ◌∷◌, ◌++◌,
  ltb, leb, ◌==◌, if◌then◌else◌, arith, refl, sym, subst, length, length-append, length-take, take,
  replicate, append-nil, append_assoc, ◌⊎◌, inl, inr,
}
use cs370_term_project.Prelude.Bytes.{
  Bytes, le, AreBytes, AreBytes-le, AreBytes-append, AreBytes-take,
}
use cs370_term_project.Prelude.Words.{IsU64, add64}
use cs370_term_project.Record.{rec_begin, rec_commit}
use cs370_term_project.Ring.{Slot, capacity, peek}
use cs370_term_project.Ring.Bounds.{IsValid, peek-lt}
use cs370_term_project.Wal.Scan.Log.{Entry}
use cs370_term_project.Wal.Batch.{Wal, Item, Clock, batch_limit, wal_add}
use cs370_term_project.Wal.Batch.Open.{
  IsItem, IsClock, IsOpen, IsIdle, Keeps, First, starts, leaves_nothing, leaves_begin, entry_of,
  begin_of, wal_add-open, wal_add-First,
}
use cs370_term_project.Store.{
  Source, Round, Drained, raw_max, raw_len, sample_item, take_slot, on_added, on_slot, drain_loop,
  drain,
}

-- The batch in the buffer, open or not yet, holds these records.
abbrev pub Holding : Wal → List Entry → Type 0
Holding w records = IsIdle w × (records ≡ []) ⊎ (begin : Entry) × IsOpen w begin records

-- A record with the contents of an item.
pub record Carries (e : Entry) (i : Item) : Type 0 where
  pub kind : e.hdr.kind ≡ i.kind
  pub src : e.hdr.src ≡ i.src
  pub mono_ns : e.hdr.mono_ns ≡ i.mono_ns
  pub wall_ns : e.hdr.wall_ns ≡ i.wall_ns
  pub body : e.body ≡ i.body

entry_of-Carries : (w : Wal) (i : Item) → Carries (entry_of w i) i
entry_of-Carries w i = record {
  kind = refl;
  src = refl;
  mono_ns = refl;
  wall_ns = refl;
  body = refl;
}

-- `wal_add` puts one record that carries the item behind the others, or adds none.
pub data Addition (records : List Entry) (i : Item) : Bool × Wal → Type 0 where
  adds :
      (v : Wal) (e : Entry)
      → Carries e i
      → Holding v (records ++ e ∷ [])
      → Addition records i (true, v)
  adds_none : (v : Wal) → Holding v records → Addition records i (false, v)

pub wal_add-Addition :
    {w : Wal} {records : List Entry} (now : Clock) (i : Item)
    → IsClock now
    → IsItem i
    → (i.kind == rec_begin) ≡ false
    → (i.kind == rec_commit) ≡ false
    → Holding w records
    → Addition records i (wal_add now w i)
wal_add-Addition {w} {records} now i c v nb nc (inr (begin, o)) =
    go (wal_add now w i) (wal_add-open w now i v nb nc o)
  where
    go :
        (p : Bool × Wal)
        → (p.0 ≡ true) × IsOpen p.1 begin (records ++ entry_of w i ∷ []) × Keeps w p.1
          ⊎ (p ≡ (false, w))
        → Addition records i p
    go (true, x) (inl (t, p, k)) = adds x (entry_of w i) (entry_of-Carries w i) (inr (begin, p))
    go (true, x) (inr e) = absurd (cc e)
    go (false, x) (inl (t, p, k)) = absurd (cc t)
    go (false, x) (inr e) =
        subst (λ (q : Bool × Wal). Addition records i (false, q.1)) (sym e)
          (adds_none w (inr (begin, o)))
wal_add-Addition {w} {records} now i c v nb nc (inl (idle, e)) =
    go (wal_add now w i) (wal_add-First w now i v nb nc c idle)
  where
    go : (p : Bool × Wal) → First w now i v nb nc p → Addition records i p
    go _ (starts x w' o k) = adds x (entry_of w' i) (entry_of-Carries w' i) (
        inr (
          begin_of now w,
          subst (λ l. IsOpen x (begin_of now w) (l ++ entry_of w' i ∷ [])) (sym e) o,
        ))
    go _ (leaves_nothing x y) = adds_none x (inl (y, e))
    go _ (leaves_begin x o) =
        adds_none x (inr (begin_of now w, subst (IsOpen x (begin_of now w)) (sym e) o))

-- A slot whose numbers fit their fields.
pub record IsSlot (s : Slot) : Type 0 where
  pub src_in : s.src < 2 ^ 8
  pub mono_in : IsU64 s.mono_ns
  pub bytes : AreBytes s.payload

pub record IsRound (r : Round) : Type 0 where
  pub now_in : IsClock r.now
  pub slots : (i : ℕ) (s : Slot) → peek r.ring i ≡ some s → IsSlot s

abbrev pub AreRounds : List Round → Type 0
AreRounds [] = Unit
AreRounds (r ∷ rs) = IsRound r × AreRounds rs

sample_item-IsItem : (r : Round) {s : Slot} → IsSlot s → IsItem (sample_item r s)
sample_item-IsItem r {s} v = record {
  kind_in = omega arith;
  src_in = v.src_in;
  mono_in = v.mono_in;
  wall_in = omega arith;
  len_in = omega arith;
  holds = omega (
    arith,
    length-append (take raw_max padded) (le 4 s.value),
    length-take raw_max padded,
    length-append (take (raw_len s) s.payload) (replicate raw_max 0),
  );
  bytes = (
    omega arith,
    (
      omega arith,
      (
        omega arith,
        AreBytes-append (take raw_max padded) (le 4 s.value)
            (AreBytes-take raw_max padded (
              AreBytes-append (take (raw_len s) s.payload) (replicate raw_max 0)
                (AreBytes-take (raw_len s) s.payload v.bytes) (omega arith)))
            (AreBytes-le 4 s.value),
      ),
    ),
  );
}
  where
    padded : Bytes
    padded = take (raw_len s) s.payload ++ replicate raw_max 0

-- A slot that was durable before a restart.
abbrev pub is_durable : Source → Slot → Bool
is_durable s slot = s.skip && leb slot.seq s.skip_seq

-- What the rounds see at consecutive places, from `i` on.
abbrev pub AreSeen : List Round → ℕ → List Slot → Type 0
AreSeen rs i [] = Unit
AreSeen [] i (x ∷ xs) = ⊥
AreSeen (r ∷ rs) i (x ∷ xs) = (peek r.ring i ≡ some x) × AreSeen rs (i + 1) xs

-- The records carry the samples of the slots that were not durable, in order.
abbrev pub AreSamples : Source → List Round → List Slot → List Entry → Type 0
AreSamples s rs [] es = es ≡ []
AreSamples s [] (x ∷ xs) es = ⊥
AreSamples s (r ∷ rs) (x ∷ xs) es =
    (is_durable s x ≡ true) × AreSamples s rs xs es
    ⊎ (is_durable s x ≡ false)
      × (e : Entry) × (rest : List Entry) × (es ≡ e ∷ rest)
      × Carries e (sample_item r x)
      × AreSamples s rs xs rest

-- What a call moves, from the state `d`, with `records` in the buffer, to `d'`.
pub record Moves (rs : List Round) (d : Drained) (records : List Entry) (d' : Drained)
    : Type 0 where
  pub slots : List Slot
  pub moved : List Entry
  pub seen : AreSeen rs d.source.taken slots
  pub samples : AreSamples d.source rs slots moved
  pub holds : Holding d'.log (records ++ moved)
  pub taken : d'.source.taken ≡ d.source.taken + length slots
  pub count : IsU64 d.count → d'.count ≡ (d.count + length moved) % 2 ^ 64

-- A round that ends the loop.
Moves-nothing :
    (rs : List Round) (d d' : Drained) (records : List Entry)
    → Holding d'.log records
    → d'.source.taken ≡ d.source.taken
    → d'.count ≡ d.count
    → Moves rs d records d'
Moves-nothing rs d d' records h t c = record {
  slots = [];
  moved = [];
  seen = tt;
  samples = refl;
  holds = subst (Holding d'.log) (sym (append-nil records)) h;
  taken = omega arith;
  count = λ u. omega arith;
}

drain_loop-Moves :
    (rs : List Round) (d : Drained) (records : List Entry)
    → AreRounds rs
    → Holding d.log records
    → Moves rs d records (drain_loop rs d)
unfolding drain_loop on_slot on_added
drain_loop-Moves [] d records v h = Moves-nothing [] d d records h refl refl
drain_loop-Moves (r ∷ rs) d records v h =
    room (ltb d.log.batch_samples batch_limit) (drain_loop-Moves rs)
  where
    Rest : Type 0
    Rest =
        (d : Drained) (records : List Entry)
        → AreRounds rs
        → Holding d.log records
        → Moves rs d records (drain_loop rs d)

    add :
        (x : Slot) (p : Bool × Wal)
        → Rest
        → peek r.ring d.source.taken ≡ some x
        → is_durable d.source x ≡ false
        → Addition records (sample_item r x) p
        → Moves (r ∷ rs) d records (on_added (drain_loop rs) d x p)
    add x _ ih e n (adds w y c o) =
        let next : Drained = record {
          log = w;
          source = record (take_slot d.source x) { added = true };
          count = add64 d.count 1;
        } in
        let m = ih next (records ++ y ∷ []) v.1 o in
        record {
          slots = x ∷ m.slots;
          moved = y ∷ m.moved;
          seen = (e, m.seen);
          samples = inr (n, y, m.moved, refl, c, m.samples);
          holds = subst (Holding _) (append_assoc records (y ∷ []) m.moved) m.holds;
          taken = omega (arith, m.taken);
          count = λ u. omega (arith, m.count (omega arith));
        }
    add x _ ih e n (adds_none w o) = Moves-nothing (r ∷ rs) d _ records o refl refl

    slot :
        (x : Slot) (durable : Bool)
        → Rest
        → peek r.ring d.source.taken ≡ some x
        → is_durable d.source x ≡ durable
        → Moves (r ∷ rs) d records (
            if durable
            then drain_loop rs (record d { source = take_slot d.source x })
            else on_added (drain_loop rs) d x (wal_add r.now d.log (sample_item r x)))
    slot x true ih e s =
        let m = ih (record d { source = take_slot d.source x }) records v.1 h in
        record {
          slots = x ∷ m.slots;
          moved = m.moved;
          seen = (e, m.seen);
          samples = inl (s, m.samples);
          holds = m.holds;
          taken = omega (arith, m.taken);
          count = m.count;
        }
    slot x false ih e s = add x _ ih e s (
        wal_add-Addition r.now (sample_item r x) v.0.now_in
          (sample_item-IsItem r (v.0.slots d.source.taken x e)) refl refl h)

    seen :
        (o : Option Slot)
        → Rest
        → peek r.ring d.source.taken ≡ o
        → Moves (r ∷ rs) d records (on_slot (drain_loop rs) r d o)
    seen none ih e = Moves-nothing (r ∷ rs) d d records h refl refl
    seen (some x) ih e = slot x (is_durable d.source x) ih e refl

    room :
        (more : Bool)
        → Rest
        → Moves (r ∷ rs) d records (elim more [
          | false ↦ d
          | true ↦ on_slot (drain_loop rs) r d (peek r.ring d.source.taken)
        ])
    room false ih = Moves-nothing (r ∷ rs) d d records h refl refl
    room true ih = seen (peek r.ring d.source.taken) ih refl

pub drain-Moves :
    (rs : List Round) (w : Wal) (s : Source) (records : List Entry)
    → AreRounds rs
    → Holding w records
    → Moves rs (record { log = w; source = s; count = 0 }) records (drain rs w s)
unfolding drain
drain-Moves rs w s records v h =
    drain_loop-Moves rs (record { log = w; source = s; count = 0 }) records v h

abbrev pub AreValid : List Round → Type 0
AreValid [] = Unit
AreValid (r ∷ rs) = IsValid r.ring × AreValid rs

drain_loop_ends :
    (rs more : List Round) (d : Drained)
    → AreValid rs
    → capacity < d.source.taken + length rs
    → d.source.taken ≤ capacity
    → drain_loop (rs ++ more) d ≡ drain_loop rs d
unfolding drain_loop on_slot on_added
drain_loop_ends [] more d v h l = absurd (omega arith)
drain_loop_ends (r ∷ rs) more d v h l =
    room (ltb d.log.batch_samples batch_limit) (λ d'. drain_loop_ends rs more d' v.1)
  where
    Rest : Type 0
    Rest =
        (d' : Drained)
        → capacity < d'.source.taken + length rs
        → d'.source.taken ≤ capacity
        → drain_loop (rs ++ more) d' ≡ drain_loop rs d'

    add :
        (x : Slot) (p : Bool × Wal)
        → Rest
        → d.source.taken < capacity
        → on_added (drain_loop (rs ++ more)) d x p ≡ on_added (drain_loop rs) d x p
    add x (true, w) ih lt = ih _ (omega arith) (omega arith)
    add x (false, w) ih lt = refl

    slot :
        (x : Slot) (durable : Bool)
        → Rest
        → d.source.taken < capacity
        → (if durable
            then drain_loop (rs ++ more) (record d { source = take_slot d.source x })
            else on_added (drain_loop (rs ++ more)) d x (wal_add r.now d.log (sample_item r x)))
          ≡ (if durable
              then drain_loop rs (record d { source = take_slot d.source x })
              else on_added (drain_loop rs) d x (wal_add r.now d.log (sample_item r x)))
    slot x true ih lt = ih _ (omega arith) (omega arith)
    slot x false ih lt = add x (wal_add r.now d.log (sample_item r x)) ih lt

    seen :
        (o : Option Slot)
        → Rest
        → peek r.ring d.source.taken ≡ o
        → on_slot (drain_loop (rs ++ more)) r d o ≡ on_slot (drain_loop rs) r d o
    seen none ih e = refl
    seen (some x) ih e = slot x (is_durable d.source x) ih (peek-lt v.0 e)

    room :
        (more_room : Bool)
        → Rest
        → elim more_room as (λ b. Drained) [
          | false ↦ d
          | true ↦ on_slot (drain_loop (rs ++ more)) r d (peek r.ring d.source.taken)
        ]
          ≡ elim more_room as (λ b. Drained) [
            | false ↦ d
            | true ↦ on_slot (drain_loop rs) r d (peek r.ring d.source.taken)
          ]
    room false ih = refl
    room true ih = seen (peek r.ring d.source.taken) ih refl

-- The loop ends by itself: when no round sees more than the ring can hold, 4097 rounds (fewer by
-- those already taken) are enough, and further ones change nothing.
pub drain_ends :
    (rs more : List Round) (w : Wal) (s : Source)
    → AreValid rs
    → capacity < s.taken + length rs
    → s.taken ≤ capacity
    → drain (rs ++ more) w s ≡ drain rs w s
unfolding drain
drain_ends rs more w s v h l =
    drain_loop_ends rs more (record { log = w; source = s; count = 0 }) v h l
