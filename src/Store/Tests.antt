-- ===== src/Store/Tests.antt =====
-- `drain` and the loop at a ring with one slot in it.
use cs370_term_project.Prelude.{
  ℕ, ◌≡◌, true, false, none, some, [], ◌∷◌, arith, refl, replicate, length-replicate,
}
use cs370_term_project.Ring.{Slot, Ring, zero_slot, peek}
use cs370_term_project.Ring.Bounds.{IsValid}
use cs370_term_project.Wal.Scan.{empty_scan}
use cs370_term_project.Wal.Batch.{Wal}
use cs370_term_project.Text.{codes, equal}
use cs370_term_project.Wal.Commit.{wrote, call_ok, made}
use cs370_term_project.Store.{Source, Round, drain}
use cs370_term_project.Store.Loop.{Main, Pass, NoteTime, parse_src}
use cs370_term_project.Store.Run.{parse_args}
use cs370_term_project.Store.Drain.{drain_ends}

abbrev speed : Slot
speed = record {
  seq = 0;
  mono_ns = 5;
  mode = 1;
  pid = 13;
  len = 1;
  src = 3;
  value = 0x4248_0000;
  payload = 50 ∷ replicate 15 0;
}

-- The head is at the end of the slot, or at the tail.
abbrev ring_to : ℕ → Ring
ring_to head = record {
  magic = 0;
  version = 0;
  slot_size = 0;
  cap = 0;
  generation = 7;
  head = head;
  tail = 0;
  overruns = 0;
  rejected = 0;
  slot = speed ∷ replicate 4095 zero_slot;
}

abbrev round_to : ℕ → Round
round_to head = record {
  ring = ring_to head;
  mono = 9;
  wall = 109;
  now = record { mono = 9; wall = 109; after = 9 };
}

abbrev idle_log : Wal
idle_log = record {
  fd = true;
  seg_bytes = 0;
  next_seq = 4;
  next_txn = 2;
  boot_id = 1;
  src = 1;
  flags = 0;
  recovered = empty_scan;
  prev_end = 2;
  truncated = 0;
  open_batch = false;
  batch_seq0 = 0;
  batch_mono = 0;
  batch_samples = 0;
  buf = [];
}

abbrev source : Source
source = record { taken = 0; added = false; last_seq = 0; skip = false; skip_seq = 0 }

-- A source that has taken all that fits.
abbrev full_source : Source
full_source = record source { taken = 4096 }

ring_to-IsValid : IsValid (ring_to 1)
ring_to-IsValid = record {
  slots = omega (arith, length-replicate 4095 zero_slot);
  head_in = omega arith;
  tail_in = omega arith;
  fits = omega arith;
}

drain_ends_example :
    drain (round_to 1 ∷ round_to 1 ∷ []) idle_log full_source
    ≡ drain (round_to 1 ∷ []) idle_log full_source
drain_ends_example =
    drain_ends (round_to 1 ∷ []) (round_to 1 ∷ []) idle_log full_source (ring_to-IsValid, tt)
      (omega arith) (omega arith)

-- The loop with that ring, the probe's absent, and an empty segment.
abbrev idle_main : Main
idle_main = record {
  log = idle_log;
  file = [];
  obd = source;
  probe = source;
  has_probe = false;
  samples = 0;
}

abbrev note_time : NoteTime
note_time = record { now = record { mono = 9; wall = 109; after = 9 }; mono = 9; wall = 109 }

abbrev one_pass : ℕ → Pass
one_pass due = record {
  obd = round_to 1 ∷ round_to 1 ∷ [];
  probe = [];
  due = due;
  note_obd = note_time;
  note_probe = note_time;
  kernel = record {
    mono = 9;
    wall = 109;
    writes = wrote 1000 ∷ [];
    fsync = call_ok;
    ftruncate = call_ok;
    create = made;
    kept = 0;
  };
}

-- Unread slots: what is unread in the ring of the rounds, and none of the probe.
abbrev speeds : ℕ → Slot
speeds i = elim (peek (ring_to 1) i) [ none ↦ zero_slot | some s ↦ s ]

abbrev silence : ℕ → Slot
silence i = zero_slot

args-replay :
    parse_args (codes "--src" ∷ codes "replay" ∷ codes "--dir" ∷ codes "/tmp" ∷ []) (codes "/var") 1
    ≡ some (codes "/tmp", 2)
unfolding parse_args parse_src equal
args-replay = refl

args-unknown : parse_args (codes "--src" ∷ codes "demo" ∷ []) (codes "/var") 1 ≡ none
unfolding parse_args parse_src equal
args-unknown = refl
