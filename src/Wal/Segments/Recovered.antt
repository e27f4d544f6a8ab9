-- ===== src/Wal/Segments/Recovered.antt =====
-- What recovery makes of a segment: the state that the next batch starts from.
use cs370_term_project.Prelude.{
  ℕ, ◌+◌, ◌<◌, ◌≡◌, true, false, not, ◌&&◌, none, some, List, [], ◌∷◌, ◌++◌, ltb, if◌then◌else◌,
  arith, sym, ap, ◌∙◌, subst, length, take, take-append, take-length, ◌↔◌,
}
use cs370_term_project.Prelude.Bytes.{Bytes, field}
use cs370_term_project.Prelude.Words.{add32, add64}
use cs370_term_project.Wal.Scan.{Scan, wal_scan}
use cs370_term_project.Wal.Scan.Log.{given, Batch, IsBatch, batch_bytes}
use cs370_term_project.Wal.Scan.Recovery.{
  AreBatches, AreBatches-append, log_bytes, log_bytes-append, Reports, committed_len-log,
  scan_torn_tail, scan_last_batch,
}
use cs370_term_project.Wal.Batch.{Wal}
use cs370_term_project.Wal.Segments.{
  prev_clean, recovered_state, recover_with, recover_segment, resume,
}

-- What a recovery that succeeds leaves of the bytes `buf`.
pub record IsRecovered (buf : Bytes) (v : Wal) (file : Bytes) : Type 0 where
  pub open_fd : v.fd ≡ true
  pub ends : v.seg_bytes ≡ length file
  pub prefix : file ≡ take v.seg_bytes buf
  pub again : wal_scan file ≡ record v.recovered { records_lost = 0 }
  pub counted : v.truncated + v.seg_bytes ≡ length buf
  pub clean : (v.prev_end ≡ prev_clean) ↔ ((v.recovered.ended_clean ≡ true) × (v.truncated ≡ 0))

-- How the next session goes on after one whose last batch on disk is `b`.
pub record Resumes (first : ℕ) (b : Batch) (v : Wal) : Type 0 where
  pub seq : (resume first v).next_seq ≡ add64 b.commit.hdr.seq 1
  pub txn : (resume first v).next_txn ≡ add64 (field 0 8 (given b.begin)) 1
  pub boot_id : (resume first v).boot_id ≡ add32 b.commit.hdr.boot_id 1

Reports-Resumes : {b : Batch} (first : ℕ) (v : Wal) → Reports v.recovered b → Resumes first b v
unfolding resume
Reports-Resumes first v r = record {
  seq =
      ap (λ d. if d then add64 v.recovered.last_seq 1 else first) r.any ∙ ap (λ n. add64 n 1) r.seq;
  txn = ap (λ n. add64 n 1) r.txn;
  boot_id = ap (λ n. add32 n 1) r.boot_id;
}

Reports-lost :
    {b : Batch} (s t : Scan) → record s { records_lost = 0 } ≡ t → Reports t b → Reports s b
Reports-lost s t e r = record {
  any = ap (λ (x : Scan). x.any_committed) e ∙ r.any;
  seq = ap (λ (x : Scan). x.last_seq) e ∙ r.seq;
  txn = ap (λ (x : Scan). x.last_txn) e ∙ r.txn;
  boot_id = ap (λ (x : Scan). x.last_boot_id) e ∙ r.boot_id;
  clean = ap (λ (x : Scan). x.ended_clean) e ∙ r.clean;
}

-- A session that stopped at any byte of a batch `c`, behind whole batches of which `b` is the last,
-- is recovered, if the system's calls succeed: the file is cut back to the whole batches, and the
-- next session's records, transactions and boot id go on from those of `b`.
pub recover_segment_torn :
    (w : Wal) (first : ℕ) (bs : List Batch) (b c : Batch) (n : ℕ)
    → AreBatches bs
    → IsBatch b
    → IsBatch c
    → n < length (batch_bytes c)
    → let old = log_bytes (bs ++ b ∷ []) in
      (v : Wal) × (recover_segment true w (some (old ++ take n (batch_bytes c))) ≡ some (v, old))
      × Resumes first b v
unfolding recover_segment recover_with
recover_segment_torn w first bs b c n vs vb vc lt = (
  recovered_state w buf s,
  ap (λ d. if d then none else some (recovered_state w buf s, take s.committed_len buf))
        {x = ltb s.committed_len (length buf) && not true} {y = false} (ground arith)
      ∙ ap (λ l. some (recovered_state w buf s, l))
          (take-append s.committed_len old (take n (batch_bytes c)) (omega (arith, kept))
            ∙ take-length s.committed_len old kept),
  Reports-Resumes first (recovered_state w buf s) (
      Reports-lost s (wal_scan old) same
        (subst (λ l. Reports (wal_scan l) b) (sym (log_bytes-append bs b)) last)),
)
  where
    old : Bytes
    old = log_bytes (bs ++ b ∷ [])

    buf : Bytes
    buf = old ++ take n (batch_bytes c)

    s : Scan
    s = wal_scan buf

    whole : AreBatches (bs ++ b ∷ [])
    whole = AreBatches-append bs b vs vb

    same : record s { records_lost = 0 } ≡ wal_scan old
    same = scan_torn_tail (bs ++ b ∷ []) c n whole vc lt

    last : Reports (wal_scan (log_bytes bs ++ batch_bytes b)) b
    last = (scan_last_batch bs b vs vb).0

    kept : s.committed_len ≡ length old
    kept = ap (λ (x : Scan). x.committed_len) same ∙ (committed_len-log (bs ++ b ∷ []) whole).0
