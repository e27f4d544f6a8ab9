-- ===== src/Store.antt =====
-- src/store/main.c: storaged, which drains the rings into the log.
-- What `ring_peek` sees and what the clock says are arguments: the producer may push at any time.
pub mod Drain
pub mod Loop
pub mod Run
pub mod Steady
pub mod Notes
pub mod Taken
pub mod Release
mod Tests
use cs370_term_project.Prelude.{
  ℕ, zero, suc, ◌+◌, ◌-◌, Bool, true, false, not, ◌&&◌, ◌||◌, Option, none, some, List, [], ◌∷◌,
  ◌++◌, ltb, leb, ◌==◌, if◌then◌else◌, length, take, replicate,
}
use cs370_term_project.Prelude.Bytes.{Bytes, le}
use cs370_term_project.Prelude.Words.{add64, sub64}
use cs370_term_project.Text.{print_number}
use cs370_term_project.Record.{rec_sample, rec_event}
use cs370_term_project.Ring.{Slot, Ring, capacity, peek}
use cs370_term_project.Wal.Scan.{ev_ring_gen, ev_ring_seq, gen_name, seq_name}
use cs370_term_project.Wal.Batch.{Wal, Item, Clock, batch_limit, wal_add}

abbrev pub raw_max : ℕ
raw_max = 5

-- source_t without its name; the ring is what each call sees of it.
pub record Source : Type 0 where
  pub taken : ℕ
  pub added : Bool
  pub last_seq : ℕ
  pub skip : Bool
  pub skip_seq : ℕ

-- snprintf("ns=%u <name>=%" PRIx64)
abbrev pub note_text : Bytes → ℕ → ℕ → Bytes
note_text name ns v =
    b'n' ∷ b's' ∷ b'=' ∷ (print_number 10 ns ++ (b' ' ∷ (name ++ print_number 16 v)))

abbrev pub note_item : ℕ → Bytes → ℕ → ℕ → Wal → Item
note_item code text mono wall w = record {
  kind = rec_event;
  src = w.src;
  mono_ns = mono;
  wall_ns = wall;
  body = le 2 code ++ (le 2 (length text) ++ text);
  body_len = 4 + length text;
}

unfoldable pub note_generation : Clock → ℕ → ℕ → Wal → ℕ → ℕ → Bool × Wal
note_generation now mono wall w ns generation =
    wal_add now w (note_item ev_ring_gen (note_text gen_name ns generation) mono wall w)

unfoldable pub note_ring_seq : Clock → ℕ → ℕ → Wal → ℕ → ℕ → Bool × Wal
note_ring_seq now mono wall w ns seq =
    wal_add now w (note_item ev_ring_seq (note_text seq_name ns seq) mono wall w)

-- What one round of `drain` sees: the ring, and the clock, for the sample and for a BEGIN.
pub record Round : Type 0 where
  pub ring : Ring
  pub mono : ℕ
  pub wall : ℕ
  pub now : Clock

abbrev pub raw_len : Slot → ℕ
raw_len s = if ltb s.len raw_max then s.len else raw_max

-- rec_sample_t of a slot, with the wall time of its capture
abbrev pub sample_item : Round → Slot → Item
sample_item r s = record {
  kind = rec_sample;
  src = s.src;
  mono_ns = s.mono_ns;
  wall_ns = sub64 r.wall (if ltb s.mono_ns r.mono then r.mono - s.mono_ns else 0);
  body =
      le 1 s.mode
      ++ (le 1 s.pid
          ++ (le 1 (raw_len s)
              ++ (take raw_max (take (raw_len s) s.payload ++ replicate raw_max 0)
                  ++ le 4 s.value)));
  body_len = 12;
}

-- The state that `drain` changes, with its count.
pub record Drained : Type 0 where
  pub log : Wal
  pub source : Source
  pub count : ℕ

abbrev pub take_slot : Source → Slot → Source
take_slot s slot = record s { taken = s.taken + 1; last_seq = slot.seq }

-- The rest of a round behind `wal_add`; `next` is the rest of the loop.
unfoldable pub on_added : (Drained → Drained) → Drained → Slot → Bool × Wal → Drained
on_added next d slot (true, w) = next (record {
  log = w;
  source = record (take_slot d.source slot) { added = true };
  count = add64 d.count 1;
})
on_added next d slot (false, w) = record d {
  log = w;
  source = record d.source { last_seq = sub64 slot.seq 1 };
}

unfoldable pub on_slot : (Drained → Drained) → Round → Drained → Option Slot → Drained
on_slot next r d none = d
on_slot next r d (some slot) =
    if d.source.skip && leb slot.seq d.source.skip_seq
    then next (record d { source = take_slot d.source slot })
    else on_added next d slot (wal_add r.now d.log (sample_item r slot))

-- The loop; `rounds` is what its rounds see, at most as many as there are.
unfoldable pub drain_loop : List Round → Drained → Drained
drain_loop [] d = d
drain_loop (r ∷ rs) d = elim (ltb d.log.batch_samples batch_limit) [
  | false ↦ d
  | true ↦ on_slot (drain_loop rs) r d (peek r.ring d.source.taken)
]

unfoldable pub drain : List Round → Wal → Source → Drained
drain rounds w s = drain_loop rounds (record { log = w; source = s; count = 0 })
