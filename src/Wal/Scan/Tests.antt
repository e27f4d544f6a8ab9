-- ===== src/Wal/Scan/Tests.antt =====
-- The scan and its theorems at a segment of one batch: BEGIN, one sample of the box, COMMIT.
use cs370_term_project.Prelude.{
  ◌≡◌, ℕ, ◌+◌, [], ◌∷◌, ◌++◌, arith, refl, length, take, length-append,
}
use cs370_term_project.Prelude.Bytes.{Bytes}
use cs370_term_project.Record.{rec_sample, rec_begin, rec_commit, body_len_ok, kind_ok}
use cs370_term_project.Record.RoundTrip.{length-frame}
use cs370_term_project.Wal.Scan.{wal_scan}
use cs370_term_project.Wal.Scan.Log.{
  Entry, IsEntry, Batch, IsBatch, frames, entry_bytes, batch_bytes,
}
use cs370_term_project.Wal.Scan.Recovery.{log_bytes, Reports, scan_torn_tail, scan_last_batch}
use cs370_term_project.Wal.Scan.Idempotent.{scan_kept}

abbrev entry : ℕ → ℕ → ℕ → Bytes → Entry
entry kind len seq body = record {
  hdr = record {
    magic = 0;
    kind = kind;
    body_len = len;
    seq = seq;
    mono_ns = 1000;
    wall_ns = 0;
    src = 1;
    flags = 0;
    reserved = 0;
    boot_id = 3;
  };
  body = body;
}

abbrev begin : Entry
begin = entry rec_begin 8 5 (4 ∷ 0 ∷ 0 ∷ 0 ∷ 0 ∷ 0 ∷ 0 ∷ 0 ∷ [])

abbrev one_sample : Entry
one_sample = entry rec_sample 12 6 (0 ∷ 12 ∷ 2 ∷ 0 ∷ 0 ∷ 0 ∷ 128 ∷ 63 ∷ 26 ∷ 248 ∷ 0 ∷ 0 ∷ [])

abbrev commit : Entry
commit = entry rec_commit 16 7 (4 ∷ 0 ∷ 0 ∷ 0 ∷ 0 ∷ 0 ∷ 0 ∷ 0 ∷ 3 ∷ 0 ∷ 0 ∷ 0 ∷ 0 ∷ 0 ∷ 0 ∷ 0 ∷ [])

begin-IsEntry : IsEntry begin
unfolding kind_ok body_len_ok
begin-IsEntry = record {
  fields = omega arith;
  kind_fits = refl;
  labelled = refl;
  event_fits = refl;
  holds = omega arith;
  bytes = omega arith;
}

one_sample-IsEntry : IsEntry one_sample
unfolding kind_ok body_len_ok
one_sample-IsEntry = record {
  fields = omega arith;
  kind_fits = refl;
  labelled = refl;
  event_fits = refl;
  holds = omega arith;
  bytes = omega arith;
}

commit-IsEntry : IsEntry commit
unfolding kind_ok body_len_ok
commit-IsEntry = record {
  fields = omega arith;
  kind_fits = refl;
  labelled = refl;
  event_fits = refl;
  holds = omega arith;
  bytes = omega arith;
}

abbrev batch : Batch
batch = record { begin = begin; records = one_sample ∷ []; commit = commit }

batch-IsBatch : IsBatch batch
batch-IsBatch = record {
  begin_entry = begin-IsEntry;
  begin_kind = refl;
  inner = (record { entry = one_sample-IsEntry; not_begin = refl; not_commit = refl }, tt);
  commit_entry = commit-IsEntry;
  commit_kind = refl;
  same_txn = refl;
}

length-batch : length (batch_bytes batch) ≡ 168
length-batch = omega (
  arith,
  length-append (entry_bytes begin) (frames (one_sample ∷ commit ∷ [])),
  length-append (entry_bytes one_sample) (frames (commit ∷ [])),
  length-append (entry_bytes commit) [],
  length-frame begin.hdr begin.body (omega arith),
  length-frame one_sample.hdr one_sample.body (omega arith),
  length-frame commit.hdr commit.body (omega arith),
)

scan_torn_tail_example :
    record (wal_scan (log_bytes (batch ∷ []) ++ take 100 (batch_bytes batch))) { records_lost = 0 }
    ≡ wal_scan (log_bytes (batch ∷ []))
scan_torn_tail_example =
    scan_torn_tail (batch ∷ []) batch 100 (batch-IsBatch, tt) batch-IsBatch
      (omega (arith, length-batch))

scan_last_batch_example :
    Reports (wal_scan (log_bytes (batch ∷ []) ++ batch_bytes batch)) batch
    × ((wal_scan (log_bytes (batch ∷ []) ++ batch_bytes batch)).committed_len
        ≡ length (log_bytes (batch ∷ [])) + length (batch_bytes batch))
scan_last_batch_example = scan_last_batch (batch ∷ []) batch (batch-IsBatch, tt) batch-IsBatch

scan_kept_example :
    wal_scan (take (wal_scan (batch_bytes batch)).committed_len (batch_bytes batch))
    ≡ record (wal_scan (batch_bytes batch)) { records_lost = 0 }
scan_kept_example = scan_kept (batch_bytes batch)
