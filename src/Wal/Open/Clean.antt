-- ===== src/Wal/Open/Clean.antt =====
-- A session that `wal_close` ended is one that recovery calls clean.
use cs370_term_project.Prelude.{
  ℕ, ◌≡◌, Bool, true, false, not, ◌&&◌, none, some, List, [], ◌∷◌, ◌++◌, ltb, ◌==◌, if◌then◌else◌,
  arith, refl, sym, ap, ◌∙◌, subst, length, take, ◌⊎◌, inl, inr, take-length,
}
use cs370_term_project.Prelude.Bytes.{Bytes, le}
use cs370_term_project.Prelude.Words.{IsU64}
use cs370_term_project.Record.{rec_begin, rec_shutdown}
use cs370_term_project.Wal.Scan.{Scan, wal_scan}
use cs370_term_project.Wal.Scan.Log.{Entry, Batch, IsBatch}
use cs370_term_project.Wal.Scan.Recovery.{
  AreBatches, AreBatches-append, last_kind, log_bytes, log_bytes-append, committed_len-log,
  scan_last_batch,
}
use cs370_term_project.Wal.Segments.{prev_clean, recovered_state, recover_segment, recover_with}
use cs370_term_project.Wal.Batch.{Wal, wal_add}
use cs370_term_project.Wal.Batch.Open.{
  IsItem, IsClock, IsOpen, IsIdle, First, starts, leaves_nothing, leaves_begin, wal_add-First,
}
use cs370_term_project.Wal.Commit.{Kernel, Ended, returned, stopped, current}
use cs370_term_project.Wal.Commit.Atomic.{
  IsKernel, IsReady, Outcome, durable, durable_without_next, undone, not_undone, power_failed,
  power_failed_later, batch, batch-IsBatch, wal_commit-Outcome, wal_commit-idle,
}
use cs370_term_project.Wal.Open.{
  Shut, shutdown_item, commit_added, shut_down, close_segment, wal_close,
}

pub record IsShut (s : Shut) : Type 0 where
  pub first_in : IsKernel s.first
  pub now_in : IsClock s.now
  pub mono_in : IsU64 s.mono
  pub wall_in : IsU64 s.wall
  pub last_in : IsKernel s.last

-- The bytes of a segment whose last batch is one record, a SHUTDOWN.
pub record EndsClean (file : Bytes) : Type 0 where
  pub before : List Batch
  pub last : Batch
  pub are_batches : AreBatches before
  pub is_batch : IsBatch last
  pub holds : file ≡ log_bytes (before ++ last ∷ [])
  pub shutdown : Entry
  pub alone : last.records ≡ shutdown ∷ []
  pub kind : shutdown.hdr.kind ≡ rec_shutdown

-- The segment is recovered as one whose session ended cleanly, and nothing is cut off.
abbrev pub RecoversClean : Bool → Wal → Bytes → Type 0
RecoversClean cuts w file =
    (v : Wal) × (recover_segment cuts w (some file) ≡ some (v, file))
    × (v.prev_end ≡ prev_clean)
    × (v.truncated ≡ 0)

-- Such a segment is recovered as one whose session ended cleanly, and nothing is cut off.
pub recover_segment-EndsClean :
    {file : Bytes} (cuts : Bool) (w : Wal) → EndsClean file → RecoversClean cuts w file
unfolding recover_segment recover_with last_kind
recover_segment-EndsClean {file} cuts w c = (
  recovered_state w file s,
  ap (λ d. if d then none else some (recovered_state w file s, take s.committed_len file))
        {x = ltb s.committed_len (length file) && not cuts} {y = false} (ground (arith, kept))
      ∙ ap (λ l. some (recovered_state w file s, l)) (take-length s.committed_len file kept),
  ground (arith, kept, clean),
  omega (arith, kept),
)
  where
    s : Scan
    s = wal_scan file

    kept : s.committed_len ≡ length file
    kept =
        subst (λ l. (wal_scan l).committed_len ≡ length l) (sym c.holds)
          (committed_len-log (c.before ++ c.last ∷ [])
            (AreBatches-append c.before c.last c.are_batches c.is_batch)).0

    clean : s.ended_clean ≡ true
    clean =
        ap (λ l. (wal_scan l).ended_clean) (c.holds ∙ log_bytes-append c.before c.last)
        ∙ (scan_last_batch c.before c.last c.are_batches c.is_batch).0.clean
        ∙ ap (λ es. last_kind rec_begin es == rec_shutdown) c.alone
        ∙ ap (λ n. n == rec_shutdown) c.kind

shutdown_item-IsItem :
    {s : Shut} {w : Wal} (reason : ℕ) → IsShut s → IsIdle w → IsItem (shutdown_item s reason w)
shutdown_item-IsItem reason v i = record {
  kind_in = omega arith;
  src_in = i.log.src_in;
  mono_in = v.mono_in;
  wall_in = v.wall_in;
  len_in = omega arith;
  holds = omega arith;
  bytes = omega arith;
}

-- Where a result is 0, what `P` says of the segment holds.
abbrev pub WhereSucceeds : (Bytes → Type 0) → Ended → Type 0
WhereSucceeds P (returned true w files) = P files.segment
WhereSucceeds P (returned false w files) = Unit
WhereSucceeds P (stopped files) = Unit

-- A commit behind whole batches that succeeds, of a batch with one record, a SHUTDOWN.
Outcome-EndsClean :
    {k : Kernel} {w : Wal} (bs : List Batch) (b : Batch) (shutdown : Entry) (e : Ended)
    → AreBatches bs
    → IsBatch b
    → b.records ≡ shutdown ∷ []
    → shutdown.hdr.kind ≡ rec_shutdown
    → Outcome k w (log_bytes bs) b e
    → WhereSucceeds EndsClean e
Outcome-EndsClean bs b shutdown _ vs vb one k (durable v files e y i r t) = record {
  before = bs;
  last = b;
  are_batches = vs;
  is_batch = vb;
  holds = e ∙ sym (log_bytes-append bs b);
  shutdown = shutdown;
  alone = one;
  kind = k;
}
Outcome-EndsClean bs b shutdown _ vs vb one k (durable_without_next v files e y i f) = tt
Outcome-EndsClean bs b shutdown _ vs vb one k (undone v files e i r s t c) = tt
Outcome-EndsClean bs b shutdown _ vs vb one k (not_undone v files n e le i c) = tt
Outcome-EndsClean bs b shutdown _ vs vb one k (power_failed files n e lt) = tt
Outcome-EndsClean bs b shutdown _ vs vb one k (power_failed_later files n e lt p) = tt

module _ (s : Shut) (reason : ℕ) (t : IsShut s) where
  -- The SHUTDOWN as the one record of a batch behind others.
  shutdown-EndsClean :
      (bs : List Batch) (w : Wal)
      → AreBatches bs
      → IsIdle w
      → IsReady w (log_bytes bs)
      → WhereSucceeds EndsClean
          (commit_added s.last (log_bytes bs) (wal_add s.now w (shutdown_item s reason w)))
  unfolding commit_added
  shutdown-EndsClean bs w vs i r = added (wal_add s.now w (shutdown_item s reason w)) (
      wal_add-First w s.now (shutdown_item s reason w) (shutdown_item-IsItem reason t i) refl refl
        t.now_in i)
    where
      added :
          (p : Bool × Wal)
          → First w s.now (shutdown_item s reason w) (shutdown_item-IsItem reason t i) refl refl p
          → WhereSucceeds EndsClean (commit_added s.last (log_bytes bs) p)
      added _ (starts v w' o k) =
          Outcome-EndsClean bs (batch s.last v o) _ _ vs (batch-IsBatch s.last v o t.last_in) refl
            refl
            (wal_commit-Outcome t.last_in o (record {
              open_fd = k.fd ∙ r.open_fd;
              ends = k.seg_bytes ∙ r.ends;
              small = omega (arith, k.seg_bytes, r.small);
            }))
      added _ (leaves_nothing v x) = tt
      added _ (leaves_begin v x) = tt

  after_commit :
      {k : Kernel} {w : Wal} (bs : List Batch) (b : Batch) (e : Ended)
      → AreBatches bs
      → IsBatch b
      → Outcome k w (log_bytes bs) b e
      → WhereSucceeds EndsClean (shut_down s reason e)
  unfolding shut_down
  after_commit bs b _ vs vb (durable v files e y i r k) = current_case files.newer refl
    where
      goal : Bytes → Type 0
      goal l =
          WhereSucceeds EndsClean
            (commit_added s.last l (wal_add s.now v (shutdown_item s reason v)))

      at_log :
          (cs : List Batch) → AreBatches cs → current files ≡ log_bytes cs → goal (current files)
      at_log cs us path =
          subst goal (sym path) (shutdown-EndsClean cs v us i (subst (IsReady v) path r))

      current_case : (ns : List ℕ) → files.newer ≡ ns → goal (current files)
      current_case [] n = at_log (bs ++ b ∷ []) (AreBatches-append bs b vs vb) (
          ap (λ l. elim l [ [] ↦ files.segment | s ∷ ss ↦ [] ]) n ∙ e ∙ sym (log_bytes-append bs b))
      current_case (x ∷ xs) n =
          at_log [] tt (ap (λ l. elim l [ [] ↦ files.segment | s ∷ ss ↦ [] ]) n)
  after_commit bs b _ vs vb (durable_without_next v files e y i f) = tt
  after_commit bs b _ vs vb (undone v files e i r s' k c) = tt
  after_commit bs b _ vs vb (not_undone v files n e le i c) = tt
  after_commit bs b _ vs vb (power_failed files n e lt) = tt
  after_commit bs b _ vs vb (power_failed_later files n e lt p) = tt

  close-WhereSucceeds :
      (P : Bytes → Type 0) (closes : Bool) (e : Ended)
      → WhereSucceeds P e
      → WhereSucceeds P (close_segment closes e)
  unfolding close_segment
  close-WhereSucceeds P closes (stopped files) h = tt
  close-WhereSucceeds P closes (returned false w files) h = pick w.fd closes
    where
      pick :
          (has closed : Bool)
          → WhereSucceeds P (
              returned
                (if has then if closed then false else false else false)
                (record w { fd = false })
                files)
      pick true true = tt
      pick true false = tt
      pick false closed = tt
  close-WhereSucceeds P closes (returned true w files) h =
      pick (if w.fd then if closes then true else false else true)
    where
      pick : (ok : Bool) → WhereSucceeds P (returned ok (record w { fd = false }) files)
      pick true = h
      pick false = tt

  -- The segment of the last commit ends with a batch that is one SHUTDOWN.
  pub wal_close-EndsClean :
      (bs : List Batch) (w : Wal)
      → AreBatches bs
      → IsReady w (log_bytes bs)
      → IsIdle w ⊎ (begin : Entry) × (records : List Entry) × IsOpen w begin records
      → WhereSucceeds EndsClean (wal_close s reason w (log_bytes bs))
  unfolding wal_close shut_down
  wal_close-EndsClean bs w vs r (inr (begin, records, o)) =
      close-WhereSucceeds EndsClean s.closes _ (
        after_commit bs (batch s.first w o) _ vs (batch-IsBatch s.first w o t.first_in)
          (wal_commit-Outcome t.first_in o r))
  wal_close-EndsClean bs w vs r (inl i) = close-WhereSucceeds EndsClean s.closes _ (
      subst (λ e. WhereSucceeds EndsClean (shut_down s reason e))
        (sym (wal_commit-idle s.first w i)) (shutdown-EndsClean bs w vs i r))

WhereSucceeds-map :
    (P Q : Bytes → Type 0) (e : Ended)
    → ((file : Bytes) → P file → Q file)
    → WhereSucceeds P e
    → WhereSucceeds Q e
WhereSucceeds-map P Q (returned true w files) f h = f files.segment h
WhereSucceeds-map P Q (returned false w files) f h = tt
WhereSucceeds-map P Q (stopped files) f h = tt

-- From a segment of whole batches, with no batch open or one open in the buffer, where `wal_close`
-- returns 0, whatever the system's calls return: recovering the segment of its last commit succeeds,
-- says that the session ended cleanly, and cuts nothing off.
pub wal_close-recover_segment :
    (s : Shut) (reason : ℕ)
    → IsShut s
    → (cuts : Bool) (u : Wal) (bs : List Batch) (w : Wal) → AreBatches bs
    → IsReady w (log_bytes bs)
    → IsIdle w ⊎ (begin : Entry) × (records : List Entry) × IsOpen w begin records
    → WhereSucceeds (RecoversClean cuts u) (wal_close s reason w (log_bytes bs))
wal_close-recover_segment s reason t cuts u bs w vs r o =
    WhereSucceeds-map EndsClean (RecoversClean cuts u) (wal_close s reason w (log_bytes bs))
      (λ file c. recover_segment-EndsClean cuts u c) (wal_close-EndsClean s reason t bs w vs r o)
