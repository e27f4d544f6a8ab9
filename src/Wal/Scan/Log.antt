-- ===== src/Wal/Scan/Log.antt =====
-- A segment as the batches that were committed to it, and what the scan makes of each.
use cs370_term_project.Prelude.{
  ℕ, ◌+◌, ◌<◌, ◌≡◌, Bool, true, false, Option, none, some, List, [], ◌∷◌, ◌++◌, ◌==◌, if◌then◌else◌,
  arith, refl, sym, ap, ap₂, ◌∙◌, length, take, length-append, length-take, drop-append,
  drop-length, append_assoc, append-nil, Bool-cases, ==_iff, inl, inr,
}
use cs370_term_project.Prelude.Bytes.{Bytes, field}
use cs370_term_project.Record.{Hdr, rec_sample, rec_begin, rec_commit, rec_event, frame, total_size}
use cs370_term_project.Record.RoundTrip.{IsRecord, stamped, length-frame, decode-frame, decode_torn}
use cs370_term_project.Wal.Scan.{
  Walk, ev_ring_gen, ev_ring_seq, gen_name, seq_name, scan_ns, event_text, note_gen, note_seq,
  visit, visit_begin, visit_commit, visit_sample, visit_event, advance, on_visit,
}
use cs370_term_project.Wal.Scan.Steps.{
  scan_from, scan_from_decoded, scan_from_refused, visit-append,
}

-- A record as it was handed to `rec_encode`.
pub record Entry : Type 0 where
  pub hdr : Hdr
  pub body : Bytes

abbrev pub IsEntry : Entry → Type 0
IsEntry e = IsRecord e.hdr e.body

-- The bytes of its body that are written, its own bytes, and those of several in a row.
abbrev pub given : Entry → Bytes
given e = take e.hdr.body_len e.body

abbrev pub entry_bytes : Entry → Bytes
entry_bytes e = frame e.hdr e.body

abbrev pub frames : List Entry → Bytes
frames [] = []
frames (e ∷ es) = entry_bytes e ++ frames es

pub frames-append : (xs ys : List Entry) → frames (xs ++ ys) ≡ frames xs ++ frames ys
frames-append [] ys = refl
frames-append (x ∷ xs) ys =
    ap (◌++◌ (entry_bytes x)) (frames-append xs ys)
    ∙ sym (append_assoc (entry_bytes x) (frames xs) (frames ys))

abbrev is_kind : ℕ → Entry → Bool
is_kind k e = e.hdr.kind == k

-- A record that stands between BEGIN and COMMIT.
pub record IsInner (e : Entry) : Type 0 where
  pub entry : IsEntry e
  pub not_begin : is_kind rec_begin e ≡ false
  pub not_commit : is_kind rec_commit e ≡ false

abbrev pub AreInner : List Entry → Type 0
AreInner [] = Unit
AreInner (e ∷ es) = IsInner e × AreInner es

pub record Batch : Type 0 where
  pub begin : Entry
  pub records : List Entry
  pub commit : Entry

pub record IsBatch (b : Batch) : Type 0 where
  pub begin_entry : IsEntry b.begin
  pub begin_kind : b.begin.hdr.kind ≡ rec_begin
  pub inner : AreInner b.records
  pub commit_entry : IsEntry b.commit
  pub commit_kind : b.commit.hdr.kind ≡ rec_commit
  pub same_txn : field 0 8 (given b.commit) ≡ field 0 8 (given b.begin)

abbrev pub batch_bytes : Batch → Bytes
batch_bytes b = frames (b.begin ∷ (b.records ++ b.commit ∷ []))

-- A whole record in front of a rest is visited.
pub scan_from_frame :
    {e : Entry} (rest : Bytes) (w : Walk)
    → IsEntry e
    → scan_from (entry_bytes e ++ rest) w
      ≡ on_visit scan_from rest
          (stamped e.hdr)
          (total_size e.hdr)
          w
          (visit w (stamped e.hdr) (given e) (total_size e.hdr))
scan_from_frame {e} rest w v =
    scan_from_decoded (entry_bytes e ++ rest) w (decode-frame v rest)
    ∙ ap₂ (λ l o. on_visit scan_from l (stamped e.hdr) (total_size e.hdr) w o)
        (drop-append (total_size e.hdr) (entry_bytes e) rest (omega (arith, size))
          ∙ ap (λ l. l ++ rest)
              (drop-length (total_size e.hdr) (entry_bytes e) (omega (arith, size))))
        (visit-append w (stamped e.hdr) (given e) _ (total_size e.hdr) v.kind_fits
          (omega (arith, length-take e.hdr.body_len e.body, v.holds)))
  where
    size : length (entry_bytes e) ≡ total_size e.hdr
    size = length-frame e.hdr e.body v.holds

-- A torn one is not.
pub scan_from_torn :
    {e : Entry} (k : ℕ) (w : Walk)
    → IsEntry e
    → k < length (entry_bytes e)
    → scan_from (take k (entry_bytes e)) w ≡ w
scan_from_torn {e} k w v h =
    scan_from_refused (take k (entry_bytes e)) w
      (decode_torn v k (omega (arith, length-frame e.hdr e.body v.holds)))

-- What a record between BEGIN and COMMIT adds to the walk.
unfoldable pub visit_inner : Walk → Hdr → Bytes → Walk
visit_inner w h body =
    if h.kind == rec_sample
    then visit_sample w h body
    else if h.kind == rec_event
    then visit_event w h body
    else w

unfoldable pub walk_record : Walk → Entry → Walk
walk_record w e =
    advance (visit_inner w (stamped e.hdr) (given e)) (stamped e.hdr) (total_size e.hdr)

unfoldable pub walk_records : Walk → List Entry → Walk
walk_records w [] = w
walk_records w (e ∷ es) = walk_records (walk_record w e) es

unfoldable pub walk_batch : Walk → Batch → Walk
walk_batch w b =
    let opened =
      advance (visit_begin w (given b.begin)) (stamped b.begin.hdr) (total_size b.begin.hdr) in
    let filled = walk_records opened b.records in
    let h = stamped b.commit.hdr in advance (visit_commit filled h (total_size h)) h (total_size h)

visit_inner_lem :
    (w : Walk) (h : Hdr) (body : Bytes) (size : ℕ)
    → w.in_batch ≡ true
    → (h.kind == rec_begin) ≡ false
    → (h.kind == rec_commit) ≡ false
    → visit w h body size ≡ some (visit_inner w h body)
unfolding visit visit_inner
visit_inner_lem w h body size o nb nc =
    rw (nb, o, nc)
      (elim (Bool-cases (h.kind == rec_sample)) [
        | inl sample ↦ rw sample
        | inr other ↦ rw other (elim (Bool-cases (h.kind == rec_event)) [
          | inl event ↦ rw event
          | inr plain ↦ rw plain
        ])
      ])

visit_begin_lem :
    (w : Walk) (h : Hdr) (body : Bytes) (size : ℕ)
    → w.in_batch ≡ false
    → h.kind ≡ rec_begin
    → visit w h body size ≡ some (visit_begin w body)
unfolding visit
visit_begin_lem w h body size o k = rw (k, o)

visit_commit_lem :
    (w : Walk) (h : Hdr) (body : Bytes) (size : ℕ)
    → w.in_batch ≡ true
    → h.kind ≡ rec_commit
    → field 0 8 body ≡ w.txn
    → visit w h body size ≡ some (visit_commit w h size)
unfolding visit
visit_commit_lem w h body size o k t = rw (k, o, (==_iff (field 0 8 body) w.txn).1 t)

scan_from_inner :
    {e : Entry} (rest : Bytes) (w : Walk)
    → IsInner e
    → w.in_batch ≡ true
    → scan_from (entry_bytes e ++ rest) w ≡ scan_from rest (walk_record w e)
unfolding walk_record on_visit
scan_from_inner {e} rest w v open_batch =
    scan_from_frame rest w v.entry
    ∙ ap (on_visit scan_from rest (stamped e.hdr) (total_size e.hdr) w) (
        visit_inner_lem w (stamped e.hdr) (given e) (total_size e.hdr) open_batch v.not_begin
          v.not_commit)

-- What such a record leaves alone.
pub record Inside (w w' : Walk) : Type 0 where
  pub in_batch : w'.in_batch ≡ w.in_batch
  pub txn : w'.txn ≡ w.txn
  pub out : w'.out ≡ w.out

pub record Still (w w' : Walk) : Type 0 where
  pub in_batch : w'.in_batch ≡ w.in_batch
  pub txn : w'.txn ≡ w.txn
  pub out : w'.out ≡ w.out
  pub off : w'.off ≡ w.off

note_gen-Still : (w : Walk) (o : Option (ℕ × ℕ)) → Still w (note_gen w o)
unfolding note_gen
note_gen-Still w none = record { in_batch = refl; txn = refl; out = refl; off = refl }
note_gen-Still w (some (ns, g)) = ground arith

note_seq-Still : (w : Walk) (o : Option (ℕ × ℕ)) → Still w (note_seq w o)
unfolding note_seq
note_seq-Still w none = record { in_batch = refl; txn = refl; out = refl; off = refl }
note_seq-Still w (some (ns, g)) = ground arith

pub visit_event-Still : (w : Walk) (h : Hdr) (body : Bytes) → Still w (visit_event w h body)
unfolding visit_event
visit_event-Still w h body = elim (Bool-cases (field 0 2 body == ev_ring_gen)) [
  | inl generation ↦ rw generation (note_gen-Still w (scan_ns gen_name (event_text h body)))
  | inr other ↦ rw other (elim (Bool-cases (field 0 2 body == ev_ring_seq)) [
    | inl sequence ↦ rw sequence (note_seq-Still w (scan_ns seq_name (event_text h body)))
    | inr plain ↦ rw plain (record { in_batch = refl; txn = refl; out = refl; off = refl })
  ])
]

visit_inner-Still : (w : Walk) (h : Hdr) (body : Bytes) → Still w (visit_inner w h body)
unfolding visit_inner visit_sample
visit_inner-Still w h body = ground (arith, visit_event-Still w h body)

walk_record-Inside : (w : Walk) (e : Entry) → Inside w (walk_record w e)
unfolding walk_record
walk_record-Inside w e =
    let i = visit_inner-Still w (stamped e.hdr) (given e) in
    record { in_batch = i.in_batch; txn = i.txn; out = i.out }

walk_record-off : (w : Walk) (e : Entry) → (walk_record w e).off ≡ w.off + total_size e.hdr
unfolding walk_record
walk_record-off w e = omega (arith, (visit_inner-Still w (stamped e.hdr) (given e)).off)

pub walk_records-off :
    (w : Walk) (es : List Entry)
    → AreInner es
    → (walk_records w es).off ≡ w.off + length (frames es)
unfolding walk_records
walk_records-off w [] v = omega arith
walk_records-off w (e ∷ es) v = omega (
  arith,
  walk_records-off (walk_record w e) es v.1,
  walk_record-off w e,
  length-append (entry_bytes e) (frames es),
  length-frame e.hdr e.body v.0.entry.holds,
)

pub walk_records-Inside : (w : Walk) (es : List Entry) → Inside w (walk_records w es)
unfolding walk_records
walk_records-Inside w [] = record { in_batch = refl; txn = refl; out = refl }
walk_records-Inside w (e ∷ es) =
    let i = walk_record-Inside w e in
    let j = walk_records-Inside (walk_record w e) es in
    record { in_batch = j.in_batch ∙ i.in_batch; txn = j.txn ∙ i.txn; out = j.out ∙ i.out }

scan_from_records :
    (es : List Entry) (rest : Bytes) (w : Walk)
    → AreInner es
    → w.in_batch ≡ true
    → scan_from (frames es ++ rest) w ≡ scan_from rest (walk_records w es)
unfolding walk_records
scan_from_records [] rest w v o = refl
scan_from_records (e ∷ es) rest w v o =
    ap (λ l. scan_from l w) (append_assoc (entry_bytes e) (frames es) rest)
    ∙ scan_from_inner (frames es ++ rest) w v.0 o
    ∙ scan_from_records es rest (walk_record w e) v.1 ((walk_record-Inside w e).in_batch ∙ o)

module _ (b : Batch) (w : Walk) where
  abbrev pub opened : Walk
  opened = advance (visit_begin w (given b.begin)) (stamped b.begin.hdr) (total_size b.begin.hdr)

  abbrev pub filled : Walk
  filled = walk_records opened b.records

  -- A committed batch in front of a rest is taken in whole.
  pub scan_from_batch :
      (rest : Bytes)
      → IsBatch b
      → w.in_batch ≡ false
      → scan_from (batch_bytes b ++ rest) w ≡ scan_from rest (walk_batch w b)
  unfolding walk_batch visit_begin on_visit
  scan_from_batch rest v closed =
      ap (λ l. scan_from l w) (append_assoc (entry_bytes b.begin) _ rest)
      ∙ scan_from_frame _ w v.begin_entry
      ∙ ap (on_visit scan_from _ (stamped b.begin.hdr) (total_size b.begin.hdr) w) (
          visit_begin_lem w (stamped b.begin.hdr) (given b.begin) (total_size b.begin.hdr) closed
            v.begin_kind)
      ∙ ap (λ l. scan_from (l ++ rest) opened) (frames-append b.records (b.commit ∷ []))
      ∙ ap (λ l. scan_from l opened) (append_assoc (frames b.records) (frames (b.commit ∷ [])) rest)
      ∙ scan_from_records b.records _ opened v.inner refl
      ∙ ap (λ l. scan_from (l ++ rest) filled) (append-nil (entry_bytes b.commit))
      ∙ scan_from_frame rest filled v.commit_entry
      ∙ ap (on_visit scan_from rest (stamped b.commit.hdr) (total_size b.commit.hdr) filled) (
          visit_commit_lem filled (stamped b.commit.hdr) (given b.commit) (total_size b.commit.hdr)
            inside.in_batch v.commit_kind (v.same_txn ∙ sym inside.txn))
    where
      inside : Inside opened filled
      inside = walk_records-Inside opened b.records
