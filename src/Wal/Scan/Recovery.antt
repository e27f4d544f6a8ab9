-- ===== src/Wal/Scan/Recovery.antt =====
-- Crash consistency of the scan: committed batches are kept whole, and a torn tail counts for
-- nothing.
use cs370_term_project.Prelude.{
  ℕ, ◌+◌, ◌-◌, ◌≤◌, ◌<◌, ◌≡◌, true, false, Option, none, some, List, [], ◌∷◌, ◌++◌, ltb, ◌==◌,
  arith, refl, sym, ap, ◌∙◌, length, take, length-append, take-append_ge, take-append, append_assoc,
  append-nil, Bool-cases, inl, inr,
}
use cs370_term_project.Prelude.Bytes.{Bytes, field}
use cs370_term_project.Record.{Hdr, rec_begin, rec_commit, rec_shutdown, total_size}
use cs370_term_project.Record.RoundTrip.{stamped, length-frame}
use cs370_term_project.Wal.Scan.{
  Scan, Walk, start_walk, visit, visit_begin, visit_commit, visit_sample, advance, on_visit, lost,
  scan_loop, wal_scan,
}
use cs370_term_project.Wal.Scan.Steps.{scan_from}
use cs370_term_project.Wal.Scan.Log.{
  Entry, IsEntry, given, entry_bytes, frames, frames-append, AreInner, Batch, IsBatch, batch_bytes,
  scan_from_frame, scan_from_torn, scan_from_batch, walk_batch, walk_record, walk_records,
  walk_records-off, walk_records-Inside, opened, visit_event-Still,
}

-- Only a COMMIT changes the result.
pub visit-out :
    (w : Walk) (h : Hdr) (body : Bytes) (size : ℕ) {w' : Walk}
    → (h.kind == rec_commit) ≡ false
    → visit w h body size ≡ some w'
    → w'.out ≡ w.out
unfolding visit visit_begin visit_sample
visit-out w h body size nc e = ground (arith, nc, (visit_event-Still w h body).out)

abbrev NotCommit : List Entry → Type 0
NotCommit [] = Unit
NotCommit (e ∷ es) = (IsEntry e × ((e.hdr.kind == rec_commit) ≡ false)) × NotCommit es

-- A buffer that ends inside a run of records whose COMMIT could only be the last commits nothing.
torn_entries :
    (es : List Entry) (last : Entry) (k : ℕ) (w : Walk)
    → NotCommit es
    → IsEntry last
    → k < length (frames (es ++ last ∷ []))
    → (scan_from (take k (frames (es ++ last ∷ []))) w).out ≡ w.out
torn_entries [] last k w ne le lt =
    ap (λ l. (scan_from (take k l) w).out) (append-nil (entry_bytes last))
    ∙ ap (λ (r : Walk). r.out)
        (scan_from_torn k w le (omega (arith, ap length (append-nil (entry_bytes last)))))
torn_entries (e ∷ es) last k w ne le lt = elim (Bool-cases (ltb k (length (entry_bytes e)))) [
  | inl inside ↦
      ap (λ l. (scan_from l w).out)
        (take-append k (entry_bytes e) (frames (es ++ last ∷ [])) (ground arith))
      ∙ ap (λ (r : Walk). r.out) (scan_from_torn k w ne.0.0 (ground arith))
  | inr behind ↦
      ap (λ l. (scan_from l w).out)
        (take-append_ge k (entry_bytes e) (frames (es ++ last ∷ [])) (ground arith))
      ∙ ap (λ (r : Walk). r.out) (scan_from_frame rest w ne.0.0)
      ∙ go (visit w h (given e) (total_size e.hdr)) refl (λ w'.
        torn_entries es last (k - length (entry_bytes e)) w' ne.1 le
          (omega (arith, length-append (entry_bytes e) (frames (es ++ last ∷ [])), gap behind)))
]
  where
    rest : Bytes
    rest = take (k - length (entry_bytes e)) (frames (es ++ last ∷ []))

    h : Hdr
    h = stamped e.hdr

    gap : ltb k (length (entry_bytes e)) ≡ false → length (entry_bytes e) ≤ k
    gap b = ground arith

    go :
        (o : Option Walk)
        → visit w h (given e) (total_size e.hdr) ≡ o
        → ((w' : Walk) → (scan_from rest w').out ≡ w'.out)
        → (on_visit scan_from rest h (total_size e.hdr) w o).out ≡ w.out
    go none d ih = unfold on_visit in refl
    go (some w') d ih =
        unfold on_visit in
        (ih (advance w' h (total_size e.hdr)) ∙ visit-out w h (given e) (total_size e.hdr) ne.0.1 d)

NotCommit-inner : (es : List Entry) → AreInner es → NotCommit es
NotCommit-inner [] v = tt
NotCommit-inner (e ∷ es) v = ((v.0.entry, v.0.not_commit), NotCommit-inner es v.1)

torn_batch :
    {b : Batch} (k : ℕ) (w : Walk)
    → IsBatch b
    → k < length (batch_bytes b)
    → (scan_from (take k (batch_bytes b)) w).out ≡ w.out
torn_batch {b} k w v lt =
    torn_entries (b.begin ∷ b.records) b.commit k w
      ((v.begin_entry, rw v.begin_kind), NotCommit-inner b.records v.inner) v.commit_entry lt

abbrev pub AreBatches : List Batch → Type 0
AreBatches [] = Unit
AreBatches (b ∷ bs) = IsBatch b × AreBatches bs

abbrev pub log_bytes : List Batch → Bytes
log_bytes [] = []
log_bytes (b ∷ bs) = batch_bytes b ++ log_bytes bs

unfoldable pub walk_log : Walk → List Batch → Walk
walk_log w [] = w
walk_log w (b ∷ bs) = walk_log (walk_batch w b) bs

-- A walk that stands behind `n` more bytes of committed batches.
record Committed (w : Walk) (n : ℕ) (w' : Walk) : Type 0 where
  closed : w'.in_batch ≡ false
  off : w'.off ≡ w.off + n
  ends : w'.out.committed_len ≡ w'.off
  no_loss : w'.out.records_lost ≡ w.out.records_lost

walk_batch-Committed :
    {b : Batch} (w : Walk) → IsBatch b → Committed w (length (batch_bytes b)) (walk_batch w b)
unfolding walk_batch visit_commit visit_begin
walk_batch-Committed {b} w v = record {
  closed = refl;
  off = omega (
    arith,
    walk_records-off (opened b w) b.records v.inner,
    length-append (entry_bytes b.begin) (frames (b.records ++ b.commit ∷ [])),
    ap length (frames-append b.records (b.commit ∷ [])),
    length-append (frames b.records) (entry_bytes b.commit ++ []),
    ap length (append-nil (entry_bytes b.commit)),
    length-frame b.begin.hdr b.begin.body v.begin_entry.holds,
    length-frame b.commit.hdr b.commit.body v.commit_entry.holds,
  );
  ends = refl;
  no_loss = ap (λ (o : Scan). o.records_lost) (walk_records-Inside (opened b w) b.records).out;
}

walk_log-Committed :
    (bs : List Batch) (w : Walk)
    → AreBatches bs
    → w.in_batch ≡ false
    → w.out.committed_len ≡ w.off
    → Committed w (length (log_bytes bs)) (walk_log w bs)
unfolding walk_log
walk_log-Committed [] w v c e = record { closed = c; off = omega arith; ends = e; no_loss = refl }
walk_log-Committed (b ∷ bs) w v c e =
    let one = walk_batch-Committed w v.0 in
    let more = walk_log-Committed bs (walk_batch w b) v.1 one.closed one.ends in
    record {
      closed = more.closed;
      off = omega (arith, more.off, one.off, length-append (batch_bytes b) (log_bytes bs));
      ends = more.ends;
      no_loss = more.no_loss ∙ one.no_loss;
    }

scan_from_log :
    (bs : List Batch) (rest : Bytes) (w : Walk)
    → AreBatches bs
    → w.in_batch ≡ false
    → w.out.committed_len ≡ w.off
    → scan_from (log_bytes bs ++ rest) w ≡ scan_from rest (walk_log w bs)
unfolding walk_log
scan_from_log [] rest w v c e = refl
scan_from_log (b ∷ bs) rest w v c e =
    ap (λ l. scan_from l w) (append_assoc (batch_bytes b) (log_bytes bs) rest)
    ∙ scan_from_batch b w (log_bytes bs ++ rest) v.0 c
    ∙ scan_from_log bs rest (walk_batch w b) v.1 (walk_batch-Committed w v.0).closed
        (walk_batch-Committed w v.0).ends

pub wal_scan-lost : (buf : Bytes) → wal_scan buf ≡ lost (scan_from buf start_walk)
unfolding wal_scan scan_from
wal_scan-lost buf = refl

pub scan_from-nil : (w : Walk) → scan_from [] w ≡ w
unfolding scan_from scan_loop
scan_from-nil w = refl

pub lost_closed : (w : Walk) → w.in_batch ≡ false → lost w ≡ w.out
lost_closed w e = rw e

abbrev pub no_lost : Scan → Scan
no_lost s = record s { records_lost = 0 }

pub no_lost-lost : (w : Walk) → no_lost (lost w) ≡ no_lost w.out
no_lost-lost w = elim (Bool-cases w.in_batch) [ inl e ↦ rw e | inr e ↦ rw e ]

scan_log :
    (bs : List Batch) → AreBatches bs → wal_scan (log_bytes bs) ≡ (walk_log start_walk bs).out
scan_log bs v =
    let c = walk_log-Committed bs start_walk v refl refl in
    wal_scan-lost (log_bytes bs)
    ∙ ap (λ l. lost (scan_from l start_walk)) (sym (append-nil (log_bytes bs)))
    ∙ ap lost (scan_from_log bs [] start_walk v refl refl ∙ scan_from-nil (walk_log start_walk bs))
    ∙ lost_closed (walk_log start_walk bs) c.closed

-- A segment that holds nothing but committed batches is kept to its last byte, and nothing is lost.
pub committed_len-log :
    (bs : List Batch)
    → AreBatches bs
    → ((wal_scan (log_bytes bs)).committed_len ≡ length (log_bytes bs))
      × ((wal_scan (log_bytes bs)).records_lost ≡ 0)
committed_len-log bs v =
    let c = walk_log-Committed bs start_walk v refl refl in
    rw scan_log (omega (arith, c.off, c.ends, c.no_loss))

-- Power may fail at any byte of a batch: whatever strict prefix of it is on disk behind the
-- committed batches, the scan's result is that of the committed batches alone, but for the count
-- of the samples that were lost.
pub scan_torn_tail :
    (bs : List Batch) (b : Batch) (k : ℕ)
    → AreBatches bs
    → IsBatch b
    → k < length (batch_bytes b)
    → record (wal_scan (log_bytes bs ++ take k (batch_bytes b))) { records_lost = 0 }
      ≡ wal_scan (log_bytes bs)
scan_torn_tail bs b k v vb lt =
    let c = walk_log-Committed bs start_walk v refl refl in
    let w = walk_log start_walk bs in
    ap no_lost (wal_scan-lost (log_bytes bs ++ take k (batch_bytes b)))
    ∙ no_lost-lost (scan_from (log_bytes bs ++ take k (batch_bytes b)) start_walk)
    ∙ ap (λ (r : Walk). no_lost r.out)
        (scan_from_log bs (take k (batch_bytes b)) start_walk v refl refl)
    ∙ ap no_lost (torn_batch k w vb lt)
    ∙ (λ i. record w.out { records_lost = sym c.no_loss i })
    ∙ sym (scan_log bs v)

-- What the scan reports of a log whose last batch is `b`: the numbers of its COMMIT, and a clean
-- end exactly when its last record is a SHUTDOWN.
unfoldable pub last_kind : ℕ → List Entry → ℕ
last_kind k [] = k
last_kind k (e ∷ es) = last_kind e.hdr.kind es

walk_records-last_kind :
    (w : Walk) (es : List Entry) → (walk_records w es).last_kind ≡ last_kind w.last_kind es
unfolding walk_records walk_record last_kind
walk_records-last_kind w [] = refl
walk_records-last_kind w (e ∷ es) = walk_records-last_kind (walk_record w e) es

pub log_bytes-append :
    (bs : List Batch) (b : Batch) → log_bytes (bs ++ b ∷ []) ≡ log_bytes bs ++ batch_bytes b
log_bytes-append [] b = append-nil (batch_bytes b)
log_bytes-append (c ∷ bs) b =
    ap (◌++◌ (batch_bytes c)) (log_bytes-append bs b)
    ∙ sym (append_assoc (batch_bytes c) (log_bytes bs) (batch_bytes b))

walk_log-append :
    (w : Walk) (bs : List Batch) (b : Batch)
    → walk_log w (bs ++ b ∷ []) ≡ walk_batch (walk_log w bs) b
unfolding walk_log
walk_log-append w [] b = refl
walk_log-append w (c ∷ bs) b = walk_log-append (walk_batch w c) bs b

pub AreBatches-append :
    (bs : List Batch) (b : Batch) → AreBatches bs → IsBatch b → AreBatches (bs ++ b ∷ [])
AreBatches-append [] b v vb = (vb, tt)
AreBatches-append (c ∷ bs) b v vb = (v.0, AreBatches-append bs b v.1 vb)

pub record Reports (s : Scan) (b : Batch) : Type 0 where
  pub any : s.any_committed ≡ true
  pub seq : s.last_seq ≡ b.commit.hdr.seq
  pub txn : s.last_txn ≡ field 0 8 (given b.begin)
  pub boot_id : s.last_boot_id ≡ b.commit.hdr.boot_id
  pub clean : s.ended_clean ≡ (last_kind rec_begin b.records == rec_shutdown)

-- Once the whole of a batch is on disk, the scan reports its COMMIT's sequence number, its
-- transaction and boot ids, and a clean end exactly when its last record is a SHUTDOWN; it keeps
-- every byte of it.
pub scan_last_batch :
    (bs : List Batch) (b : Batch)
    → AreBatches bs
    → IsBatch b
    → let s = wal_scan (log_bytes bs ++ batch_bytes b) in
      Reports s b × (s.committed_len ≡ length (log_bytes bs) + length (batch_bytes b))
unfolding walk_batch visit_commit visit_begin
scan_last_batch bs b v vb =
    let w = walk_log start_walk bs in
    let inside = walk_records-Inside (opened b w) b.records in
    let all : wal_scan (log_bytes bs ++ batch_bytes b) ≡ (walk_batch w b).out =
      ap wal_scan (sym (log_bytes-append bs b))
      ∙ scan_log (bs ++ b ∷ []) (AreBatches-append bs b v vb)
      ∙ ap (λ (r : Walk). r.out) (walk_log-append start_walk bs b) in
    rw all (
      record {
        any = refl;
        seq = refl;
        txn = inside.txn;
        boot_id = refl;
        clean =
            ap (λ k. k == rec_shutdown)
              (walk_records-last_kind (opened b w) b.records
                ∙ ap (λ k. last_kind k b.records) vb.begin_kind);
      },
      omega (
        arith,
        (walk_batch-Committed w vb).ends,
        (walk_batch-Committed w vb).off,
        (walk_log-Committed bs start_walk v refl refl).off,
      ),
    )
