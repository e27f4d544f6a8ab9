-- ===== src/Wal/Commit.antt =====
-- `wal_commit` on one segment: the COMMIT, the writes, the fsync, and the undo by truncation.
-- What the kernel answers is an argument: the results of the calls of `write` in order, and those of
-- `fsync`, `ftruncate` and the creation of the next segment. Power can fail in each of them; in the
-- writes it does where the list of results ends. What was written since the last fsync is then on
-- disk up to some byte.
pub mod Atomic
pub mod Crash
use cs370_term_project.Prelude.{
  ℕ, ◌+◌, ◌-◌, ◌&&◌, replicate, Bool, true, false, Option, none, some, List, [], ◌∷◌, ◌++◌, leb,
  if◌then◌else◌, length, take, drop,
}
use cs370_term_project.Prelude.Bytes.{Bytes, le}
use cs370_term_project.Prelude.Words.{add64}
use cs370_term_project.Record.{rec_commit}
use cs370_term_project.Wal.Batch.{Wal, Item, segment_bytes, commit_size, append, drop_batch}

-- A result of `write`: EINTR, another error, or the number of bytes taken.
pub data Write : Type 0 where
  interrupted failed : Write
  wrote : ℕ → Write

-- What becomes of a call: it returns 0, or -1, or power fails before it returns.
pub data Call : Type 0 where
  call_ok call_failed call_lost : Call

-- What becomes of `create_segment`. Where only the directory's fsync fails, the new file exists; where
-- power fails, it exists or not.
pub data Create : Type 0 where
  not_made not_synced made : Create
  create_lost : Bool → Create

pub record Kernel : Type 0 where
  pub mono : ℕ
  pub wall : ℕ
  pub writes : List Write
  pub fsync : Call
  pub ftruncate : Call
  pub create : Create
  pub kept : ℕ

-- A file, and how many of its bytes are on disk whatever happens. The others may be lost with power.
pub record Disk : Type 0 where
  pub bytes : Bytes
  pub synced : ℕ

-- The segment that the descriptor refers to at the call, with how many of its bytes are on disk for
-- good, and the segments that the call made.
pub record Files : Type 0 where
  pub segment : Bytes
  pub synced : ℕ
  pub newer : List ℕ

-- The segment that the next commit writes to.
abbrev pub current : Files → Bytes
current files = elim files.newer [ [] ↦ files.segment | s ∷ ss ↦ [] ]

-- The loop of writes, with the bytes of the file and those still to be written.
pub data Written : Type 0 where
  all_written : Bytes → Written
  write_failed : Bytes → Written
  stopped_writing : Bytes → Written

unfoldable pub write_all : List Write → Bytes → Bytes → Written
write_all results file [] = all_written file
write_all [] file (b ∷ bs) = stopped_writing file
write_all (interrupted ∷ results) file (b ∷ bs) = write_all results file (b ∷ bs)
write_all (failed ∷ results) file (b ∷ bs) = write_failed file
write_all (wrote n ∷ results) file (b ∷ bs) =
    write_all results (file ++ take n (b ∷ bs)) (drop n (b ∷ bs))

-- Without a descriptor every call of `write` fails with EBADF.
unfoldable pub write_out : Bool → List Write → Bytes → Bytes → Written
write_out true results file buf = write_all results file buf
write_out false results file [] = all_written file
write_out false results file (b ∷ bs) = write_failed file

-- What the caller gets, or what a stop leaves on disk.
pub data Ended : Type 0 where
  returned : Bool → Wal → Files → Ended
  stopped : Files → Ended

abbrev pub commit_item : Kernel → Wal → Item
commit_item k w = record {
  kind = rec_commit;
  src = w.src;
  mono_ns = k.mono;
  wall_ns = k.wall;
  body = le 8 w.next_txn ++ (le 4 w.batch_samples ++ le 4 0);
  body_len = commit_size;
}

abbrev pub close_fd : Wal → Wal
close_fd w = record w { fd = false }

abbrev pub with_newer : Disk → List ℕ → Files
with_newer d newer = record { segment = d.bytes; synced = d.synced; newer = newer }

-- The log's file, written to or not: an earlier commit has synced it up to `seg_bytes`.
abbrev pub since_commit : Wal → Bytes → Disk
since_commit w file = record { bytes = file; synced = w.seg_bytes }

-- Where power fails, `kept` bytes of those that are not synced are on disk as well.
abbrev pub survivors : ℕ → Disk → Disk
survivors kept d = record d {
  bytes = take (d.synced + kept) d.bytes;
  synced = length (take (d.synced + kept) d.bytes);
}

-- `close`, `w->fd = -1`, and `create_segment(w, w->next_seq)`.
unfoldable pub rotate : ℕ → Create → Wal → Disk → Ended
rotate kept not_made w d = returned false (close_fd w) (with_newer d [])
rotate kept not_synced w d = returned false (close_fd w) (with_newer d (w.next_seq ∷ []))
rotate kept made w d =
    returned true (record w { fd = true; seg_bytes = 0 }) (with_newer d (w.next_seq ∷ []))
rotate kept (create_lost there) w d =
    stopped (with_newer (survivors kept d) (if there then w.next_seq ∷ [] else []))

abbrev pub committed : Wal → Wal
committed w = record w {
  seg_bytes = add64 w.seg_bytes (length w.buf);
  buf = [];
  open_batch = false;
  batch_samples = 0;
  next_txn = add64 w.next_txn 1;
}

unfoldable pub finish : Kernel → Wal → Disk → Ended
finish k w d =
    if leb segment_bytes w.seg_bytes
    then rotate k.kept k.create w d
    else returned true w (with_newer d [])

-- ftruncate, which can also make a file longer, with zeros.
abbrev pub truncate_to : ℕ → Bytes → Bytes
truncate_to n file = take n file ++ replicate (n - length file) 0

-- The label `undo`. Without a descriptor `ftruncate` fails.
unfoldable pub undo : Kernel → Wal → Disk → Ended
undo k w d = elim k.ftruncate [
  | call_ok ↦ returned false (drop_batch w) (
      with_newer (record d { bytes = if w.fd then truncate_to w.seg_bytes d.bytes else d.bytes })
        [])
  | call_failed ↦ returned false (drop_batch w) (with_newer d [])
  | call_lost ↦ stopped (with_newer (survivors k.kept d) [])
]

-- `fsync`: where it returns 0, all that was written is on disk.
abbrev pub sync : Call → Disk → Disk
sync call_ok d = record d { synced = length d.bytes }
sync call_failed d = d
sync call_lost d = d

unfoldable pub on_fsync : Kernel → Wal → Call → Disk → Ended
on_fsync k w call_ok d = finish k (committed w) d
on_fsync k w call_failed d = undo k w d
on_fsync k w call_lost d = stopped (with_newer (survivors k.kept d) [])

unfoldable pub after_writes : Kernel → Wal → Written → Ended
after_writes k w (all_written file) = on_fsync k w k.fsync (sync k.fsync (since_commit w file))
after_writes k w (write_failed file) = undo k w (since_commit w file)
after_writes k w (stopped_writing file) =
    stopped (with_newer (survivors k.kept (since_commit w file)) [])

-- With the COMMIT in the buffer, or without one that `append` would take.
unfoldable pub write_batch : Kernel → Wal → Bytes → Option Wal → Ended
write_batch k w file none = returned false (drop_batch w) (with_newer (since_commit w file) [])
write_batch k w file (some v) = after_writes k v (write_out v.fd k.writes file v.buf)

unfoldable pub wal_commit : Kernel → Wal → Bytes → Ended
wal_commit k w file =
    if w.open_batch
    then write_batch k w file (append w (commit_item k w))
    else returned true w (with_newer (since_commit w file) [])
