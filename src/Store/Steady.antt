-- ===== src/Store/Steady.antt =====
-- What draining and noting leave alone: the segment, and what a source skips.
use cs370_term_project.Prelude.{
  ℕ, zero, suc, ◌≡◌, Bool, true, false, ◌&&◌, Option, none, some, List, [], ◌∷◌, ltb, leb, ◌==◌,
  if◌then◌else◌, refl, ◌∙◌, length, ◌+◌,
}
use cs370_term_project.Prelude.Bytes.{Bytes}
use cs370_term_project.Prelude.Words.{add32, add64}
use cs370_term_project.Record.{rec_sample, hdr_size, crc_size}
use cs370_term_project.Ring.{Slot, peek}
use cs370_term_project.Wal.Batch.{
  Wal, Item, Clock, buf_bytes, batch_limit, commit_size, append, appended, begin_item, begun,
  open_with_begin, count_sample, add_record, add_after_begin, wal_add,
}
use cs370_term_project.Store.{
  Source, Round, Drained, sample_item, take_slot, on_added, on_slot, drain_loop, drain,
}

-- The same segment, as far as the log knows.
pub record SameSegment (w v : Wal) : Type 0 where
  pub fd : v.fd ≡ w.fd
  pub seg_bytes : v.seg_bytes ≡ w.seg_bytes

pub same : (w : Wal) → SameSegment w w
same w = record { fd = refl; seg_bytes = refl }

pub SameSegment-trans : {u v w : Wal} → SameSegment u v → SameSegment v w → SameSegment u w
SameSegment-trans a b = record { fd = b.fd ∙ a.fd; seg_bytes = b.seg_bytes ∙ a.seg_bytes }

-- An append that was tried: the log is as it was, or the result's.
abbrev after : Wal → Option Wal → Wal
after w none = w
after w (some v) = v

appended-SameSegment : (w : Wal) (r : ℕ × Bytes) → SameSegment w (after w (appended w r))
unfolding appended
appended-SameSegment w (zero, out) = same w
appended-SameSegment w (suc n, out) = record { fd = refl; seg_bytes = refl }

append-SameSegment : (w : Wal) (e : Item) → SameSegment w (after w (append w e))
unfolding append
append-SameSegment w e = appended-SameSegment w _

count_sample-SameSegment : (kind : ℕ) (w : Wal) → SameSegment w (count_sample kind w)
count_sample-SameSegment kind w = go (kind == rec_sample)
  where
    go :
        (b : Bool)
        → SameSegment w (if b then record w { batch_samples = add32 w.batch_samples 1 } else w)
    go true = record { fd = refl; seg_bytes = refl }
    go false = same w

add_record-SameSegment : (w : Wal) (e : Item) → SameSegment w (add_record w e).1
unfolding add_record
add_record-SameSegment w e = go (append w e) (append-SameSegment w e)
  where
    go :
        (o : Option Wal)
        → SameSegment w (after w o)
        → SameSegment w
            (elim o as (λ x. Bool × Wal) [
              | none ↦ (false, w)
              | some v ↦ (true, count_sample e.kind v)
            ]).1
    go none h = same w
    go (some v) h = SameSegment-trans h (count_sample-SameSegment e.kind v)

open_with_begin-SameSegment : (now : Clock) (w : Wal) → SameSegment w (open_with_begin now w).1
unfolding open_with_begin
open_with_begin-SameSegment now w =
    go (append w' (begin_item now w)) (append-SameSegment w' (begin_item now w))
  where
    w' : Wal
    w' = record w { batch_seq0 = w.next_seq }

    go :
        (o : Option Wal)
        → SameSegment w' (after w' o)
        → SameSegment w
            (elim o as (λ x. Bool × Wal) [ none ↦ (false, w') | some v ↦ (true, begun now v) ]).1
    go none h = record { fd = refl; seg_bytes = refl }
    go (some v) h = record { fd = h.fd; seg_bytes = h.seg_bytes }

add_after_begin-SameSegment :
    (e : Item) (w : Wal) (p : Bool × Wal)
    → SameSegment w p.1
    → SameSegment w (add_after_begin e p).1
unfolding add_after_begin
add_after_begin-SameSegment e w (false, v) h = h
add_after_begin-SameSegment e w (true, v) h = SameSegment-trans h (add_record-SameSegment v e)

pub wal_add-SameSegment : (now : Clock) (w : Wal) (e : Item) → SameSegment w (wal_add now w e).1
unfolding wal_add
wal_add-SameSegment now w e =
    go
      (ltb buf_bytes
        (length w.buf + hdr_size + e.body_len + crc_size + hdr_size + commit_size + crc_size))
      w.open_batch
  where
    go :
        (full open_ : Bool)
        → SameSegment w
            (if full
              then (false, w)
              else if open_
              then add_record w e
              else add_after_begin e (open_with_begin now w)).1
    go true b = same w
    go false true = add_record-SameSegment w e
    go false false =
        add_after_begin-SameSegment e w (open_with_begin now w) (open_with_begin-SameSegment now w)

-- What `drain` leaves alone.
pub record IsSteady (d d' : Drained) : Type 0 where
  pub segment : SameSegment d.log d'.log
  pub skip : d'.source.skip ≡ d.source.skip
  pub skip_seq : d'.source.skip_seq ≡ d.source.skip_seq

drain_loop-IsSteady : (rs : List Round) (d : Drained) → IsSteady d (drain_loop rs d)
unfolding drain_loop on_slot on_added
drain_loop-IsSteady [] d = record { segment = same d.log; skip = refl; skip_seq = refl }
drain_loop-IsSteady (r ∷ rs) d = room (ltb d.log.batch_samples batch_limit) (drain_loop-IsSteady rs)
  where
    Rest : Type 0
    Rest = (d : Drained) → IsSteady d (drain_loop rs d)

    nothing : IsSteady d d
    nothing = record { segment = same d.log; skip = refl; skip_seq = refl }

    add :
        (x : Slot) (p : Bool × Wal)
        → Rest
        → SameSegment d.log p.1
        → IsSteady d (on_added (drain_loop rs) d x p)
    add x (true, w) ih h =
        let i = ih (record {
          log = w;
          source = record (take_slot d.source x) { added = true };
          count = add64 d.count 1;
        }) in
        record { segment = SameSegment-trans h i.segment; skip = i.skip; skip_seq = i.skip_seq }
    add x (false, w) ih h = record { segment = h; skip = refl; skip_seq = refl }

    slot :
        (x : Slot) (durable : Bool)
        → Rest
        → IsSteady d (
            if durable
            then drain_loop rs (record d { source = take_slot d.source x })
            else on_added (drain_loop rs) d x (wal_add r.now d.log (sample_item r x)))
    slot x true ih =
        let i = ih (record d { source = take_slot d.source x }) in
        record { segment = i.segment; skip = i.skip; skip_seq = i.skip_seq }
    slot x false ih = add x _ ih (wal_add-SameSegment r.now d.log (sample_item r x))

    seen : (o : Option Slot) → Rest → IsSteady d (on_slot (drain_loop rs) r d o)
    seen none ih = nothing
    seen (some x) ih = slot x (d.source.skip && leb x.seq d.source.skip_seq) ih

    room :
        (more : Bool)
        → Rest
        → IsSteady d (elim more as (λ b. Drained) [
          | false ↦ d
          | true ↦ on_slot (drain_loop rs) r d (peek r.ring d.source.taken)
        ])
    room false ih = nothing
    room true ih = seen (peek r.ring d.source.taken) ih

pub drain-IsSteady :
    (rs : List Round) (w : Wal) (s : Source)
    → IsSteady (record { log = w; source = s; count = 0 }) (drain rs w s)
unfolding drain
drain-IsSteady rs w s = drain_loop-IsSteady rs (record { log = w; source = s; count = 0 })
