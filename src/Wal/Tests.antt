-- ===== src/Wal/Tests.antt =====
-- Batches built, committed, closed and recovered, on small inputs.
use cs370_term_project.Prelude.{
  ◌<◌, ◌≡◌, true, false, some, [], ◌∷◌, ◌++◌, arith, refl, length, take, length-append, inr, ◌⊎◌,
}
use cs370_term_project.Prelude.Bytes.{le}
use cs370_term_project.Record.{rec_sample, kind_ok, body_len_ok, frame}
use cs370_term_project.Record.RoundTrip.{length-frame}
use cs370_term_project.Wal.Scan.{empty_scan}
use cs370_term_project.Wal.Scan.Log.{Entry, IsEntry, frames, Batch, IsBatch, batch_bytes}
use cs370_term_project.Wal.Scan.Recovery.{log_bytes}
use cs370_term_project.Wal.Batch.{Wal, Item, Clock, wal_add}
use cs370_term_project.Wal.Batch.Open.{
  IsItem, IsClock, IsIdle, IsOpen, Keeps, First, begin_of, entry_of, wal_add-open, wal_add-First,
}
use cs370_term_project.Wal.Commit.{
  Kernel, call_ok, call_lost, made, wrote, interrupted, all_written, write_all, wal_commit,
}
use cs370_term_project.Wal.Commit.Atomic.{
  IsKernel, IsReady, batch, batch-IsBatch, wal_commit-Outcome, Outcome,
}
use cs370_term_project.Wal.Commit.Crash.{
  on_disk, IsOldOrNew, Leaves, wal_commit-IsOldOrNew, write_all_ends,
}
use cs370_term_project.Wal.Open.{Shut, wal_close}
use cs370_term_project.Wal.Open.Clean.{
  IsShut, WhereSucceeds, RecoversClean, wal_close-recover_segment,
}
use cs370_term_project.Wal.Segments.{recover_segment}
use cs370_term_project.Wal.Segments.Recovered.{Resumes, recover_segment_torn}

abbrev fresh : Wal
fresh = record {
  fd = true;
  seg_bytes = 0;
  next_seq = 0;
  next_txn = 1;
  boot_id = 1;
  src = 1;
  flags = 0;
  recovered = empty_scan;
  prev_end = 2;
  truncated = 0;
  open_batch = false;
  batch_seq0 = 0;
  batch_mono = 0;
  batch_samples = 0;
  buf = [];
}

abbrev now : Clock
now = record { mono = 10; wall = 20; after = 11 }

abbrev item : Item
item = record {
  kind = rec_sample;
  src = 1;
  mono_ns = 9;
  wall_ns = 19;
  body = le 4 0x2_0c01 ++ (le 4 0 ++ le 4 0x3f80_0000);
  body_len = 12;
}

fresh-IsIdle : IsIdle fresh
fresh-IsIdle = record {
  log = record {
    seq_in = omega arith;
    txn_in = omega arith;
    boot_in = omega arith;
    flags_in = omega arith;
    src_in = omega arith;
    labelled = refl;
  };
  is_closed = refl;
  empty = refl;
}

fresh-IsReady : IsReady fresh (log_bytes [])
fresh-IsReady = record { open_fd = refl; ends = refl; small = omega arith }

item-IsItem : IsItem item
item-IsItem = omega arith

now-IsClock : IsClock now
now-IsClock = omega arith

wal_add-First_example : First fresh now item item-IsItem refl refl (wal_add now fresh item)
wal_add-First_example = wal_add-First fresh now item item-IsItem refl refl now-IsClock fresh-IsIdle

-- The buffer after that: BEGIN and the sample.
abbrev begin : Entry
begin = begin_of now fresh

abbrev one : Entry
one = entry_of (record fresh { next_seq = 1 }) item

abbrev filled : Wal
filled = record fresh {
  next_seq = 2;
  open_batch = true;
  batch_mono = 11;
  batch_samples = 1;
  buf = frames (begin ∷ one ∷ []);
}

begin-IsEntry : IsEntry begin
unfolding kind_ok body_len_ok
begin-IsEntry = record {
  fields = omega arith;
  kind_fits = refl;
  labelled = refl;
  event_fits = refl;
  holds = omega arith;
  bytes = omega arith;
}

one-IsEntry : IsEntry one
unfolding kind_ok body_len_ok
one-IsEntry = record {
  fields = omega arith;
  kind_fits = refl;
  labelled = refl;
  event_fits = refl;
  holds = omega arith;
  bytes = omega arith;
}

filled-IsOpen : IsOpen filled begin (one ∷ [])
filled-IsOpen = record {
  log = record {
    seq_in = omega arith;
    txn_in = omega arith;
    boot_in = omega arith;
    flags_in = omega arith;
    src_in = omega arith;
    labelled = refl;
  };
  is_open = refl;
  holds = refl;
  begin_entry = begin-IsEntry;
  begin_kind = refl;
  begin_txn = refl;
  first = refl;
  inner = (record { entry = one-IsEntry; not_begin = refl; not_commit = refl }, tt);
  room = omega (
    arith,
    length-append (frame begin.hdr begin.body) (frames (one ∷ [])),
    length-append (frame one.hdr one.body) [],
    length-frame begin.hdr begin.body (omega arith),
    length-frame one.hdr one.body (omega arith),
  );
}

filled-IsReady : IsReady filled (log_bytes [])
filled-IsReady = record { open_fd = refl; ends = refl; small = omega arith }

-- `write` takes 100 bytes, is interrupted, and takes the rest; then all is well.
abbrev kernel : Kernel
kernel = record {
  mono = 30;
  wall = 40;
  writes = wrote 100 ∷ interrupted ∷ wrote 800 ∷ [];
  fsync = call_ok;
  ftruncate = call_ok;
  create = made;
  kept = 0;
}

kernel-IsKernel : IsKernel kernel
kernel-IsKernel = omega arith

wal_add-open_example :
    ((wal_add now filled item).0 ≡ true)
      × IsOpen (wal_add now filled item).1 begin (one ∷ entry_of filled item ∷ [])
      × Keeps filled (wal_add now filled item).1
    ⊎ (wal_add now filled item ≡ (false, filled))
wal_add-open_example = wal_add-open filled now item item-IsItem refl refl filled-IsOpen

wal_commit-Outcome_example :
    Outcome kernel filled [] (batch kernel filled filled-IsOpen) (wal_commit kernel filled [])
wal_commit-Outcome_example = wal_commit-Outcome kernel-IsKernel filled-IsOpen filled-IsReady

-- Power fails in fsync, and 60 of the bytes are on disk.
abbrev lossy : Kernel
lossy = record kernel { fsync = call_lost; kept = 60 }

wal_commit-IsOldOrNew_example :
    IsBatch (batch lossy filled filled-IsOpen)
    × IsOldOrNew [] (batch lossy filled filled-IsOpen) (on_disk (wal_commit lossy filled []))
    × Leaves [] (batch lossy filled filled-IsOpen) lossy (wal_commit lossy filled [])
wal_commit-IsOldOrNew_example =
    wal_commit-IsOldOrNew [] lossy filled tt (omega arith) filled-IsReady filled-IsOpen

write_all_ends_example :
    write_all (wrote 2 ∷ wrote 9 ∷ wrote 1 ∷ []) (7 ∷ []) (1 ∷ 2 ∷ 3 ∷ [])
    ≡ all_written (7 ∷ 1 ∷ 2 ∷ 3 ∷ [])
write_all_ends_example =
    write_all_ends (wrote 2 ∷ wrote 9 ∷ wrote 1 ∷ []) (7 ∷ []) (1 ∷ 2 ∷ 3 ∷ [])
      (omega arith, (omega arith, (omega arith, tt))) (omega arith)

abbrev shut : Shut
shut = record {
  first = kernel;
  now = now;
  mono = 50;
  wall = 60;
  last = record kernel { writes = wrote 800 ∷ [] };
  closes = true;
}

shut-IsShut : IsShut shut
shut-IsShut = omega arith

wal_close-recover_segment_example :
    WhereSucceeds (RecoversClean true fresh) (wal_close shut 2 filled (log_bytes []))
wal_close-recover_segment_example =
    wal_close-recover_segment shut 2 shut-IsShut true fresh [] filled tt filled-IsReady
      (inr (begin, one ∷ [], filled-IsOpen))

-- Two batches of which the second is torn behind its tenth byte.
abbrev whole : Batch
whole = batch kernel filled filled-IsOpen

whole-IsBatch : IsBatch whole
whole-IsBatch = batch-IsBatch kernel filled filled-IsOpen kernel-IsKernel

ten_bytes : 10 < length (batch_bytes whole)
ten_bytes = omega (
  arith,
  length-append (frame begin.hdr begin.body) (frames (one ∷ whole.commit ∷ [])),
  length-frame begin.hdr begin.body (omega arith),
)

recover_segment_torn_example :
    (v : Wal) × (recover_segment true fresh
        (some (log_bytes (whole ∷ []) ++ take 10 (batch_bytes whole)))
      ≡ some (v, log_bytes (whole ∷ [])))
    × Resumes 0 whole v
recover_segment_torn_example =
    recover_segment_torn fresh 0 [] whole whole 10 tt whole-IsBatch whole-IsBatch ten_bytes
