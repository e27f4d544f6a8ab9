-- ===== src/Wal/Open.antt =====
-- `wal_open` and `wal_close`. What the system's calls return is an argument, as in `wal_commit`.
pub mod Clean
use cs370_term_project.Prelude.{
  ℕ, ◌+◌, ◌-◌, ◌^◌, Bool, true, false, not, Option, none, some, List, [], ◌∷◌, ◌++◌, ltb, leb,
  if◌then◌else◌, length, min, replicate,
}
use cs370_term_project.Prelude.Bytes.{Bytes, le}
use cs370_term_project.Record.{rec_boot, rec_shutdown}
use cs370_term_project.Wal.Scan.{empty_scan}
use cs370_term_project.Wal.Batch.{Wal, Item, Clock, wal_add}
use cs370_term_project.Wal.Segments.{prev_first, newest_segment, recover_segment, resume}
use cs370_term_project.Wal.Commit.{
  Create, not_made, not_synced, made, create_lost, Kernel, Files, with_newer, since_commit, Ended,
  returned, stopped, current, close_fd, wal_commit,
}

-- What `wal_open` meets: the directory's name, whether `mkdir` makes it or finds it, its entries
-- (`none` where `opendir` fails), the bytes of the newest segment (`none` where it cannot be read),
-- whether it can be cut, what becomes of a first segment, the clock, and the first commit.
pub record Boot : Type 0 where
  pub dir : Bytes
  pub mkdir : Bool
  pub names : Option (List Bytes)
  pub content : Option Bytes
  pub cuts : Bool
  pub create : Create
  pub now : Clock
  pub mono : ℕ
  pub wall : ℕ
  pub commit : Kernel

-- `refused` is a -1, or a loss of power, before the boot batch; `booted` is how the boot batch ends.
pub data Opened : Type 0 where
  refused : Opened
  booted : Ended → Opened

abbrev pub dir_bytes : ℕ
dir_bytes = 200

abbrev pub blank : ℕ → ℕ → Wal
blank src flags = record {
  fd = false;
  seg_bytes = 0;
  next_seq = 0;
  next_txn = 0;
  boot_id = 0;
  src = src;
  flags = flags;
  recovered = empty_scan;
  prev_end = 0;
  truncated = 0;
  open_batch = false;
  batch_seq0 = 0;
  batch_mono = 0;
  batch_samples = 0;
  buf = [];
}

-- A first segment, of an empty directory.
unfoldable pub first_segment : Create → Wal → Option (Wal × Bytes)
first_segment made w = some (
  record w {
    fd = true;
    seg_bytes = 0;
    prev_end = prev_first;
    next_seq = 0;
    next_txn = 1;
    boot_id = 1;
  },
  [],
)
first_segment not_made w = none
first_segment not_synced w = none
first_segment (create_lost there) w = none

unfoldable pub resume_at : ℕ → Option (Wal × Bytes) → Option (Wal × Bytes)
resume_at first none = none
resume_at first (some (w, file)) = some (resume first w, file)

unfoldable pub open_segment : Boot → Wal → Option ℕ → Option (Wal × Bytes)
open_segment b w none = first_segment b.create w
open_segment b w (some first) = resume_at first (recover_segment b.cuts w b.content)

-- rec_boot_t
abbrev pub boot_item : Boot → Wal → Item
boot_item b w = record {
  kind = rec_boot;
  src = w.src;
  mono_ns = b.mono;
  wall_ns = b.wall;
  body =
      le 1 w.prev_end
      ++ (replicate 3 0 ++ (le 4 (min w.truncated (2 ^ 32 - 1)) ++ le 4 w.recovered.records_lost));
  body_len = 12;
}

-- A commit that fails at open closes the descriptor.
unfoldable pub or_close : Ended → Ended
or_close (returned true w files) = returned true w files
or_close (returned false w files) = returned false (close_fd w) files
or_close (stopped files) = stopped files

-- `wal_add(…) != 0 || wal_commit(w) != 0`, with the result of `wal_add`.
unfoldable pub commit_added : Kernel → Bytes → Bool × Wal → Ended
commit_added k file (false, w) = returned false w (with_newer (since_commit w file) [])
commit_added k file (true, w) = wal_commit k w file

unfoldable pub boot_batch : Boot → Option (Wal × Bytes) → Opened
boot_batch b none = refused
boot_batch b (some (w, file)) =
    booted (or_close (commit_added b.commit file (wal_add b.now w (boot_item b w))))

unfoldable pub scan_directory : Boot → Wal → Option (List Bytes) → Opened
scan_directory b w none = refused
scan_directory b w (some names) = boot_batch b (open_segment b w (newest_segment names))

unfoldable pub wal_open : Boot → ℕ → ℕ → Opened
wal_open b src flags =
    if leb dir_bytes (length b.dir)
    then refused
    else if not b.mkdir
    then refused
    else scan_directory b (blank src flags) b.names

-- What `wal_close` meets: the commit of the open batch, then the clock, the commit of the SHUTDOWN,
-- and whether `close` succeeds.
pub record Shut : Type 0 where
  pub first : Kernel
  pub now : Clock
  pub mono : ℕ
  pub wall : ℕ
  pub last : Kernel
  pub closes : Bool

abbrev pub shutdown_item : Shut → ℕ → Wal → Item
shutdown_item s reason w = record {
  kind = rec_shutdown;
  src = w.src;
  mono_ns = s.mono;
  wall_ns = s.wall;
  body = le 1 reason ++ replicate 7 0;
  body_len = 8;
}

unfoldable pub shut_down : Shut → ℕ → Ended → Ended
shut_down s reason (stopped files) = stopped files
shut_down s reason (returned false w files) = returned false w files
shut_down s reason (returned true w files) =
    commit_added s.last (current files) (wal_add s.now w (shutdown_item s reason w))

-- `close` on the descriptor if there is one; where it fails, the result is -1.
unfoldable pub close_segment : Bool → Ended → Ended
close_segment closes (stopped files) = stopped files
close_segment closes (returned ok w files) =
    returned (if w.fd then if closes then ok else false else ok) (close_fd w) files

-- The files are those of the last commit that was made: where the first one went on to a new
-- segment, the SHUTDOWN stands in that one.
unfoldable pub wal_close : Shut → ℕ → Wal → Bytes → Ended
wal_close s reason w file = close_segment s.closes (shut_down s reason (wal_commit s.first w file))
