-- ===== src/Wal/Commit/Atomic.antt =====
-- A commit adds the whole batch to the segment, or leaves it as it was; where power fails, a
-- strict prefix of the batch stands behind the committed ones.
use cs370_term_project.Prelude.{
  ℕ, ◌+◌, ◌-◌, ◌≤◌, ◌<◌, ◌≡◌, ◌⊎◌, inl, inr, min, take-append_ge, take-take-min, take_all, Bool,
  true, false, some, List, [], ◌∷◌, ◌++◌, leb, if◌then◌else◌, arith, refl, sym, ap, ap₂, ◌∙◌, subst,
  length, take, drop, replicate, length-append, length-drop, take-append, take-length,
  take-append-take, take-append-drop, append_assoc, append-nil,
}
use cs370_term_project.Prelude.Bytes.{Bytes, le, unle-le}
use cs370_term_project.Prelude.Words.{IsU64, add64}
use cs370_term_project.Record.{frame, kind_ok, body_len_ok}
use cs370_term_project.Record.RoundTrip.{encode-frame, length-frame}
use cs370_term_project.Wal.Scan.Log.{
  Entry, IsEntry, frames, frames-append, Batch, IsBatch, batch_bytes,
}
use cs370_term_project.Wal.Batch.{Wal, buf_bytes, segment_bytes, append, appended, drop_batch}
use cs370_term_project.Wal.Batch.Open.{IsLog, IsOpen, IsIdle, entry_of}
use cs370_term_project.Wal.Commit.{
  Write, interrupted, failed, wrote, Create, not_made, not_synced, made, Kernel, Files, Written,
  all_written, write_failed, stopped_writing, write_all, write_out, Ended, returned, stopped, Call,
  call_ok, call_failed, call_lost, create_lost, Disk, with_newer, since_commit, survivors, sync,
  on_fsync, commit_item, current, rotate, committed, finish, truncate_to, undo, after_writes,
  write_batch, wal_commit,
}

-- What the loop of writes leaves in the file, whatever `write` returns.
abbrev Progress : Bytes → Bytes → Written → Type 0
Progress file buf (all_written f) = f ≡ file ++ buf
Progress file buf (write_failed f) = (n : ℕ) × (n < length buf) × (f ≡ file ++ take n buf)
Progress file buf (stopped_writing f) = (n : ℕ) × (n < length buf) × (f ≡ file ++ take n buf)

-- A write of `n` bytes goes on where the loop then stands.
Progress-wrote :
    (file buf : Bytes) (n : ℕ) (r : Written)
    → Progress (file ++ take n buf) (drop n buf) r
    → Progress file buf r
Progress-wrote file buf n (all_written f) e =
    e ∙ append_assoc file (take n buf) (drop n buf) ∙ ap (◌++◌ file) (take-append-drop n buf)
Progress-wrote file buf n (write_failed f) (k, lt, e) = (
  n + k,
  omega (arith, length-drop n buf),
  e
      ∙ append_assoc file (take n buf) (take k (drop n buf))
      ∙ ap (◌++◌ file) (take-append-take n k buf),
)
Progress-wrote file buf n (stopped_writing f) (k, lt, e) = (
  n + k,
  omega (arith, length-drop n buf),
  e
      ∙ append_assoc file (take n buf) (take k (drop n buf))
      ∙ ap (◌++◌ file) (take-append-take n k buf),
)

write_all-Progress :
    (results : List Write) (file buf : Bytes) → Progress file buf (write_all results file buf)
unfolding write_all
write_all-Progress [] file [] = sym (append-nil file)
write_all-Progress (r ∷ results) file [] = sym (append-nil file)
write_all-Progress [] file (b ∷ bs) = (0, omega arith, sym (append-nil file))
write_all-Progress (interrupted ∷ results) file (b ∷ bs) = write_all-Progress results file (b ∷ bs)
write_all-Progress (failed ∷ results) file (b ∷ bs) = (0, omega arith, sym (append-nil file))
write_all-Progress (wrote n ∷ results) file (b ∷ bs) =
    Progress-wrote file (b ∷ bs) n _
      (write_all-Progress results (file ++ take n (b ∷ bs)) (drop n (b ∷ bs)))

-- The segment is open, and ends where the log says.
pub record IsReady (w : Wal) (file : Bytes) : Type 0 where
  pub open_fd : w.fd ≡ true
  pub ends : w.seg_bytes ≡ length file
  pub small : w.seg_bytes < segment_bytes

pub record IsKernel (k : Kernel) : Type 0 where
  pub mono_in : IsU64 k.mono
  pub wall_in : IsU64 k.wall

-- A commit of nothing.
pub wal_commit-idle :
    (k : Kernel) (w : Wal) {file : Bytes}
    → IsIdle w
    → wal_commit k w file ≡ returned true w (with_newer (since_commit w file) [])
unfolding wal_commit
wal_commit-idle k w {file} i =
    ap
      (λ d.
        if d
        then write_batch k w file (append w (commit_item k w))
        else returned true w (with_newer (since_commit w file) []))
      i.is_closed

module _ (k : Kernel) (w : Wal) where
  abbrev pub commit_of : Entry
  commit_of = entry_of w (commit_item k w)

  -- The record that closes a batch is accepted.
  commit-IsEntry : IsKernel k → IsLog w → IsEntry commit_of
  unfolding kind_ok body_len_ok
  commit-IsEntry t l = record {
    fields = record {
      magic_in = omega arith;
      kind_in = omega arith;
      body_len_in = omega arith;
      seq_in = l.seq_in;
      mono_in = t.mono_in;
      wall_in = t.wall_in;
      src_in = l.src_in;
      flags_in = l.flags_in;
      reserved_in = omega arith;
      boot_id_in = l.boot_in;
    };
    kind_fits = refl;
    labelled = l.labelled;
    event_fits = refl;
    holds = omega arith;
    bytes = omega arith;
  }

  -- The buffer with the COMMIT.
  abbrev pub closed : Wal
  closed = record w {
    buf = w.buf ++ frame commit_of.hdr commit_of.body;
    next_seq = add64 w.next_seq 1;
  }

  append-commit :
      {begin : Entry} {records : List Entry}
      → IsKernel k
      → IsOpen w begin records
      → append w (commit_item k w) ≡ some closed
  unfolding append appended
  append-commit t o =
      ap (appended w)
        (encode-frame (buf_bytes - length w.buf) (commit-IsEntry t o.log) (omega (arith, o.room)))

  module _ {begin : Entry} {records : List Entry} (o : IsOpen w begin records) where
    abbrev pub batch : Batch
    batch = record { begin = begin; records = records; commit = commit_of }

    pub batch-IsBatch : IsKernel k → IsBatch batch
    batch-IsBatch t = record {
      begin_entry = o.begin_entry;
      begin_kind = o.begin_kind;
      inner = o.inner;
      commit_entry = commit-IsEntry t o.log;
      commit_kind = refl;
      same_txn = unle-le 8 w.next_txn o.log.txn_in ∙ sym o.begin_txn;
    }

    batch_bytes-closed : closed.buf ≡ batch_bytes batch
    batch_bytes-closed =
        ap (λ l. l ++ frame commit_of.hdr commit_of.body) o.holds
        ∙ ap (λ l. frames (begin ∷ records) ++ l)
            (sym (append-nil (frame commit_of.hdr commit_of.body)))
        ∙ sym (frames-append (begin ∷ records) (commit_of ∷ []))

-- Power fails in a call behind the writes.
abbrev pub LosesPower : Kernel → Type 0
LosesPower k =
    (k.fsync ≡ call_lost)
    ⊎ (k.ftruncate ≡ call_lost)
    ⊎ (there : Bool) × (k.create ≡ create_lost there)

-- What `wal_commit` can come to on the file `file`, for the batch `b` in the buffer of `w`.
pub data Outcome (k : Kernel) (w : Wal) (file : Bytes) (b : Batch) : Ended → Type 0 where
  durable :
      (v : Wal) (files : Files)
      → files.segment ≡ file ++ batch_bytes b
      → files.synced ≡ length files.segment
      → IsIdle v
      → IsReady v (current files)
      → v.next_txn ≡ add64 w.next_txn 1
      → Outcome k w file b (returned true v files)
  durable_without_next :
      (v : Wal) (files : Files)
      → files.segment ≡ file ++ batch_bytes b
      → files.synced ≡ length files.segment
      → IsIdle v
      → v.fd ≡ false
      → Outcome k w file b (returned false v files)
  undone :
      (v : Wal) (files : Files)
      → files.segment ≡ file
      → IsIdle v
      → IsReady v files.segment
      → v.next_seq ≡ b.begin.hdr.seq
      → v.next_txn ≡ w.next_txn
      → k.ftruncate ≡ call_ok
      → Outcome k w file b (returned false v files)
  not_undone :
      (v : Wal) (files : Files) (n : ℕ)
      → files.segment ≡ file ++ take n (batch_bytes b)
      → n ≤ length (batch_bytes b)
      → IsIdle v
      → k.ftruncate ≡ call_failed
      → Outcome k w file b (returned false v files)
  power_failed :
      (files : Files) (n : ℕ)
      → files.segment ≡ file ++ take n (batch_bytes b)
      → n < length (batch_bytes b)
      → Outcome k w file b (stopped files)
  power_failed_later :
      (files : Files) (n : ℕ)
      → files.segment ≡ file ++ take n (batch_bytes b)
      → n ≤ length (batch_bytes b)
      → LosesPower k
      → Outcome k w file b (stopped files)

-- What is left of a file and a part of the batch behind it where power fails.
survivors-part :
    (kept n : ℕ) (d : Disk) (file buf : Bytes)
    → length file ≤ d.synced
    → d.bytes ≡ file ++ take n buf
    → n ≤ length buf
    → (m : ℕ) × (m ≤ n) × ((survivors kept d).bytes ≡ file ++ take m buf)
survivors-part kept n d file buf l e h = (
  min (d.synced + kept - length file) n,
  omega arith,
  ap (take (d.synced + kept)) e
      ∙ take-append_ge (d.synced + kept) file (take n buf) (omega arith)
      ∙ ap (◌++◌ file) (take-take-min (d.synced + kept - length file) n buf),
)

-- Cutting a file back to where it ended before something was added.
truncate_to-append :
    (n : ℕ) (file more : Bytes) → n ≡ length file → truncate_to n (file ++ more) ≡ file
truncate_to-append n file more e =
    ap₂ ◌++◌ (take-append n file more (omega arith) ∙ take-length n file e) (
      ap (λ m. replicate m 0) {x = n - length (file ++ more)} {y = 0}
        (omega (arith, length-append file more)))
    ∙ append-nil file

module _ {k : Kernel} {w : Wal} {begin : Entry} {records : List Entry} {file : Bytes}
    (t : IsKernel k) (o : IsOpen w begin records) (r : IsReady w file) where
  abbrev b : Batch
  b = batch k w o

  abbrev v : Wal
  v = closed k w

  same : v.buf ≡ batch_bytes b
  same = batch_bytes-closed k w o

  small_batch : length v.buf ≤ buf_bytes
  small_batch = omega (
    arith,
    length-append w.buf (frame (commit_of k w).hdr (commit_of k w).body),
    length-frame (commit_of k w).hdr (commit_of k w).body (omega arith),
    o.room,
  )

  IsIdle-committed : (fd : Bool) (n : ℕ) → IsIdle (record (committed v) { fd = fd; seg_bytes = n })
  IsIdle-committed fd n = record {
    log = record {
      seq_in = omega arith;
      txn_in = omega arith;
      boot_in = o.log.boot_in;
      flags_in = o.log.flags_in;
      src_in = o.log.src_in;
      labelled = o.log.labelled;
    };
    is_closed = refl;
    empty = refl;
  }

  finish-Outcome :
      (d : Disk)
      → d.bytes ≡ file ++ v.buf
      → d.synced ≡ length d.bytes
      → Outcome k w file b (finish k (committed v) d)
  unfolding finish rotate
  finish-Outcome d e y = pick (leb segment_bytes (committed v).seg_bytes) refl k.create refl
    where
      whole : d.bytes ≡ file ++ batch_bytes b
      whole = e ∙ ap (◌++◌ file) same

      pick :
          (full : Bool)
          → leb segment_bytes (committed v).seg_bytes ≡ full
          → (c : Create) → k.create ≡ c
          → Outcome k w file b (
              if full
              then rotate k.kept c (committed v) d
              else returned true (committed v) (with_newer d []))
      pick false q c x =
          durable _ _ whole y (IsIdle-committed v.fd (committed v).seg_bytes)
            (record {
              open_fd = r.open_fd;
              ends =
                  omega
                    (arith, r.ends, r.small, small_batch, length-append file v.buf, ap length e);
              small = ground (arith, q);
            })
            refl
      pick true q not_made x =
          durable_without_next _ _ whole y (IsIdle-committed false (committed v).seg_bytes) refl
      pick true q not_synced x =
          durable_without_next _ _ whole y (IsIdle-committed false (committed v).seg_bytes) refl
      pick true q made x =
          durable _ _ whole y (IsIdle-committed true 0)
            (record { open_fd = refl; ends = refl; small = omega arith }) refl
      pick true q (create_lost there) x =
          power_failed_later _ (length (batch_bytes b))
            (take_all (d.synced + k.kept) d.bytes (omega (arith, y))
              ∙ whole
              ∙ ap (◌++◌ file) (sym (take-length (length (batch_bytes b)) (batch_bytes b) refl)))
            (omega arith) (inr (inr (there, x)))

  IsIdle-dropped : IsIdle (drop_batch v)
  unfolding drop_batch
  IsIdle-dropped = record {
    log = record {
      seq_in = omega (arith, o.first, o.begin_entry.fields.seq_in);
      txn_in = o.log.txn_in;
      boot_in = o.log.boot_in;
      flags_in = o.log.flags_in;
      src_in = o.log.src_in;
      labelled = o.log.labelled;
    };
    is_closed = refl;
    empty = refl;
  }

  -- A loss of power behind the writes.
  lost-Outcome :
      (d : Disk) (n : ℕ)
      → length file ≤ d.synced
      → d.bytes ≡ file ++ take n v.buf
      → n ≤ length v.buf
      → LosesPower k
      → Outcome k w file b (stopped (with_newer (survivors k.kept d) []))
  lost-Outcome d n l e h p =
      let (m, lt, q) = survivors-part k.kept n d file v.buf l e h in
      power_failed_later _ m (q ∙ ap (λ t. file ++ take m t) same)
        (omega (arith, lt, ap length same)) p

  undo-Outcome :
      (d : Disk) (n : ℕ)
      → length file ≤ d.synced
      → d.bytes ≡ file ++ take n v.buf
      → n ≤ length v.buf
      → Outcome k w file b (undo k v d)
  unfolding undo drop_batch
  undo-Outcome d n l e h = pick k.ftruncate refl
    where
      back : (if w.fd then truncate_to w.seg_bytes d.bytes else d.bytes) ≡ file
      back =
          ap (λ o. if o then truncate_to w.seg_bytes d.bytes else d.bytes) r.open_fd
          ∙ ap (truncate_to w.seg_bytes) e
          ∙ truncate_to-append w.seg_bytes file (take n v.buf) r.ends

      pick :
          (c : Call)
          → k.ftruncate ≡ c
          → Outcome k w file b (elim c [
            | call_ok ↦ returned false (drop_batch v) (
                with_newer
                  (record d { bytes = if v.fd then truncate_to v.seg_bytes d.bytes else d.bytes })
                  [])
            | call_failed ↦ returned false (drop_batch v) (with_newer d [])
            | call_lost ↦ stopped (with_newer (survivors k.kept d) [])
          ])
      pick call_ok c =
          undone _ _ back IsIdle-dropped
            (record { open_fd = r.open_fd; ends = r.ends ∙ sym (ap length back); small = r.small })
            (sym o.first) refl c
      pick call_failed c =
          not_undone _ _ n (e ∙ ap (λ t. file ++ take n t) same) (omega (arith, h, ap length same))
            IsIdle-dropped c
      pick call_lost c = lost-Outcome d n l e h (inr (inl c))

  fsync-Outcome :
      (c : Call) (f : Bytes)
      → k.fsync ≡ c
      → f ≡ file ++ v.buf
      → Outcome k w file b (on_fsync k v c (sync c (since_commit v f)))
  unfolding on_fsync
  fsync-Outcome call_ok f c e = finish-Outcome (record { bytes = f; synced = length f }) e refl
  fsync-Outcome call_failed f c e =
      undo-Outcome (since_commit v f) (length v.buf) (omega (arith, r.ends))
        (e ∙ ap (◌++◌ file) (sym (take-length (length v.buf) v.buf refl))) (omega arith)
  fsync-Outcome call_lost f c e =
      lost-Outcome (since_commit v f) (length v.buf) (omega (arith, r.ends))
        (e ∙ ap (◌++◌ file) (sym (take-length (length v.buf) v.buf refl))) (omega arith) (inl c)

  writes-Outcome :
      (res : Written) → Progress file v.buf res → Outcome k w file b (after_writes k v res)
  unfolding after_writes
  writes-Outcome (all_written f) e = fsync-Outcome k.fsync f refl e
  writes-Outcome (write_failed f) (n, lt, e) =
      undo-Outcome (since_commit v f) n (omega (arith, r.ends)) e (omega arith)
  writes-Outcome (stopped_writing f) (n, lt, e) =
      let (m, le, q) =
        survivors-part k.kept n (since_commit v f) file v.buf (omega (arith, r.ends)) e
          (omega arith) in
      power_failed _ m (q ∙ ap (λ t. file ++ take m t) same) (omega (arith, le, ap length same))

  -- Whatever the kernel answers, a commit of an open batch, in a segment that ends where the log says,
  -- adds the whole batch to the file, on disk for good, and returns 0 (or -1 if the next segment cannot
  -- be made); or it returns -1, drops the batch, and leaves the file as it was, or with a part of the
  -- batch behind it if `ftruncate` fails; or power fails in the writes, with a strict prefix of the
  -- batch behind it, or in a later call, with a prefix.
  pub wal_commit-Outcome : Outcome k w file b (wal_commit k w file)
  unfolding wal_commit write_batch write_out
  wal_commit-Outcome =
      subst (Outcome k w file b) (sym path)
        (writes-Outcome (write_all k.writes file v.buf) (write_all-Progress k.writes file v.buf))
    where
      path : wal_commit k w file ≡ after_writes k v (write_all k.writes file v.buf)
      path =
          ap
            (λ d.
              if d
              then write_batch k w file (append w (commit_item k w))
              else returned true w (with_newer (since_commit w file) []))
            o.is_open
          ∙ ap (write_batch k w file) (append-commit k w t o)
          ∙ ap (λ d. after_writes k v (write_out d k.writes file v.buf)) r.open_fd
