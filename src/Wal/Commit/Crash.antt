-- ===== src/Wal/Commit/Crash.antt =====
-- What recovery finds after a commit, whether it returned or power failed inside it.
use cs370_term_project.Prelude.{
  ℕ, ◌≤◌, ◌<◌, ◌≡◌, true, false, List, [], ◌∷◌, ◌++◌, arith, sym, ap, ◌∙◌, subst, length, take,
  drop, length-drop, append-nil, append_assoc, ◌⊎◌, inl, inr, take-length, take-append-drop,
  Bool-cases, ltb, ltb→lt,
}
use cs370_term_project.Prelude.Bytes.{Bytes}
use cs370_term_project.Wal.Scan.{wal_scan}
use cs370_term_project.Wal.Scan.Log.{Entry, Batch, IsBatch, batch_bytes}
use cs370_term_project.Wal.Scan.Recovery.{
  AreBatches, log_bytes, log_bytes-append, committed_len-log, scan_torn_tail,
}
use cs370_term_project.Wal.Batch.{Wal}
use cs370_term_project.Wal.Batch.Open.{IsOpen}
use cs370_term_project.Wal.Commit.{
  Write, interrupted, failed, wrote, Kernel, call_failed, all_written, write_all, Ended, returned,
  stopped, wal_commit,
}
use cs370_term_project.Wal.Commit.Atomic.{
  IsKernel, IsReady, Outcome, durable, durable_without_next, undone, not_undone, power_failed,
  power_failed_later, batch, batch-IsBatch, wal_commit-Outcome,
}

-- What is on disk in the end, and whether the caller got a 0.
abbrev pub on_disk : Ended → Bytes
on_disk (returned ok v files) = files.segment
on_disk (stopped files) = files.segment

-- The scan of a file is that of the committed batches, but for the samples that were lost, or the
-- file holds the new batch as well.
abbrev pub IsOldOrNew : List Batch → Batch → Bytes → Type 0
IsOldOrNew bs b file =
    (record (wal_scan file) { records_lost = 0 } ≡ wal_scan (log_bytes bs))
    ⊎ (file ≡ log_bytes (bs ++ b ∷ []))

-- What a commit of `b` behind the batches `bs` leaves: with 0, the whole batch, all of it synced; with
-- -1, the old log to the byte, unless `ftruncate` failed or the log's descriptor is closed.
abbrev pub Leaves : List Batch → Batch → Kernel → Ended → Type 0
Leaves bs b k (returned true v files) =
    (files.segment ≡ log_bytes (bs ++ b ∷ [])) × (files.synced ≡ length files.segment)
Leaves bs b k (returned false v files) =
    (files.segment ≡ log_bytes bs) ⊎ (k.ftruncate ≡ call_failed) ⊎ (v.fd ≡ false)
Leaves bs b k (stopped files) = Unit

-- Whole batches lose nothing.
scan-log_bytes :
    (bs : List Batch)
    → AreBatches bs
    → record (wal_scan (log_bytes bs)) { records_lost = 0 } ≡ wal_scan (log_bytes bs)
scan-log_bytes bs v =
    λ i. record (wal_scan (log_bytes bs)) { records_lost = sym (committed_len-log bs v).1 i }

module _ (bs : List Batch) (b : Batch) (vs : AreBatches bs) (vb : IsBatch b) where
  -- A part of the batch behind the others is old, the whole of it is new.
  part-IsOldOrNew :
      (n : ℕ)
      → n ≤ length (batch_bytes b)
      → IsOldOrNew bs b (log_bytes bs ++ take n (batch_bytes b))
  part-IsOldOrNew n le = elim (Bool-cases (ltb n (length (batch_bytes b)))) [
    | inl strict ↦ inl (scan_torn_tail bs b n vs vb (ltb→lt n (length (batch_bytes b)) strict))
    | inr whole ↦ inr (
        ap (◌++◌ (log_bytes bs)) (take-length n (batch_bytes b) (ground (arith, whole)))
        ∙ sym (log_bytes-append bs b))
  ]

  Outcome-Leaves :
      {k : Kernel} {w : Wal} {e : Ended}
      → Outcome k w (log_bytes bs) b e
      → IsOldOrNew bs b (on_disk e) × Leaves bs b k e
  Outcome-Leaves (durable v files e y i r t) =
      let new = e ∙ sym (log_bytes-append bs b) in (inr new, (new, y))
  Outcome-Leaves (durable_without_next v files e y i f) =
      (inr (e ∙ sym (log_bytes-append bs b)), inr (inr f))
  Outcome-Leaves (undone v files e i r s t c) =
      (subst (IsOldOrNew bs b) (sym e) (inl (scan-log_bytes bs vs)), inl e)
  Outcome-Leaves (not_undone v files n e le i c) =
      (subst (IsOldOrNew bs b) (sym e) (part-IsOldOrNew n le), inr (inl c))
  Outcome-Leaves (power_failed files n e lt) =
      (subst (IsOldOrNew bs b) (sym e) (part-IsOldOrNew n (omega arith)), tt)
  Outcome-Leaves (power_failed_later files n e le p) =
      (subst (IsOldOrNew bs b) (sym e) (part-IsOldOrNew n le), tt)

-- A commit of an open batch behind committed ones, whatever `write`, `fsync`, `ftruncate` and the
-- creation of the next segment return, wherever power fails among them, and however much of what was
-- not synced is then lost: what recovery scans is the old log, but for the count of lost samples, or
-- the file is the old log with the whole batch behind it, its BEGIN and its records those of the
-- buffer. Whenever 0 is returned it is the latter, all of it synced; whenever -1 is returned with the
-- segment still open, and `ftruncate` succeeded, the file is the old log to the byte.
pub wal_commit-IsOldOrNew :
    (bs : List Batch) (k : Kernel) (w : Wal) {begin : Entry} {records : List Entry}
    → AreBatches bs
    → IsKernel k
    → IsReady w (log_bytes bs)
    → (o : IsOpen w begin records)
    → IsBatch (batch k w o)
      × IsOldOrNew bs (batch k w o) (on_disk (wal_commit k w (log_bytes bs)))
      × Leaves bs (batch k w o) k (wal_commit k w (log_bytes bs))
wal_commit-IsOldOrNew bs k w vs t r o =
    let vb = batch-IsBatch k w o t in
    let (scanned, left) = Outcome-Leaves bs (batch k w o) vs vb (wal_commit-Outcome t o r) in
    (vb, scanned, left)

-- Every result of `write` takes at least one byte.
abbrev pub Progresses : List Write → Type 0
Progresses [] = Unit
Progresses (wrote n ∷ rs) = (0 < n) × Progresses rs
Progresses (r ∷ rs) = ⊥

-- The loop of writes ends with the whole buffer in the file, however few bytes `write` takes at a
-- time, when every call takes some and there are as many as there are bytes.
pub write_all_ends :
    (results : List Write) (file buf : Bytes)
    → Progresses results
    → length buf ≤ length results
    → write_all results file buf ≡ all_written (file ++ buf)
unfolding write_all
write_all_ends [] file [] p l = ap all_written (sym (append-nil file))
write_all_ends (r ∷ rs) file [] p l = ap all_written (sym (append-nil file))
write_all_ends [] file (b ∷ bs) p l = absurd (omega arith)
write_all_ends (wrote n ∷ rs) file (b ∷ bs) p l =
    write_all_ends rs (file ++ take n (b ∷ bs)) (drop n (b ∷ bs)) p.1
      (omega (arith, length-drop n (b ∷ bs)))
    ∙ ap all_written (
        append_assoc file (take n (b ∷ bs)) (drop n (b ∷ bs))
        ∙ ap (◌++◌ file) (take-append-drop n (b ∷ bs)))
write_all_ends (interrupted ∷ rs) file (b ∷ bs) p l = elim p [ ]
write_all_ends (failed ∷ rs) file (b ∷ bs) p l = elim p [ ]
