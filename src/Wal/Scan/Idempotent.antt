-- ===== src/Wal/Scan/Idempotent.antt =====
-- The scan of any bytes whatever: its result stays inside them, and a segment that was cut back to
-- its last COMMIT is scanned like the one before the cut.
use cs370_term_project.Prelude.{
  ℕ, zero, suc, ◌+◌, ◌≤◌, ◌<◌, ◌≡◌, true, false, Option, none, some, [], ◌∷◌, ◌++◌, ◌==◌, arith,
  refl, sym, ap, ap₂, ◌∙◌, length, take, drop, length-take, length-drop, take-append-drop,
  take-append-take, drop-append, drop-length, append-nil, Bool-cases, inl, inr,
}
use cs370_term_project.Prelude.Bytes.{Bytes}
use cs370_term_project.Record.{Hdr, hdr_size, rec_commit, Decoded, decoded, refused, rec_decode}
use cs370_term_project.Record.Bounds.{
  Holds, decode_bounds, decode-Holds, decode-append, decode_prefix,
}
use cs370_term_project.Wal.Scan.{
  Scan, Walk, start_walk, visit, visit_begin, visit_commit, visit_sample, advance, on_visit, lost,
  wal_scan,
}
use cs370_term_project.Wal.Scan.Steps.{
  scan_from, scan_from_decoded, scan_from_refused, visit-append,
}
use cs370_term_project.Wal.Scan.Log.{visit_event-Still}
use cs370_term_project.Wal.Scan.Recovery.{
  visit-out, wal_scan-lost, scan_from-nil, no_lost, no_lost-lost, lost_closed,
}

-- Either no COMMIT was reached from `w`, or the last one ends `m` bytes into the buffer, and the
-- scan of those bytes alone gives the same result.
data Outcome (buf : Bytes) (w : Walk) : Type 0 where
  nothing : (scan_from buf w).out ≡ w.out → Outcome buf w
  commits :
      (m : ℕ)
      → m ≤ length buf
      → (scan_from buf w).out.committed_len ≡ w.off + m
      → (scan_from (take m buf) w).in_batch ≡ false
      → (scan_from (take m buf) w).out ≡ (scan_from buf w).out
      → (scan_from buf w).out.records_lost ≡ w.out.records_lost
      → Outcome buf w

-- A commit closes the batch at the end of its record; no visit moves the offset.
visit-commit :
    (w : Walk) (h : Hdr) (body : Bytes) (size : ℕ) {w' : Walk}
    → (h.kind == rec_commit) ≡ true
    → visit w h body size ≡ some w'
    → (w'.in_batch ≡ false) × (w'.out.committed_len ≡ w.off + size)
unfolding visit visit_commit
visit-commit w h body size c e = ground (arith, c)

visit-off :
    (w : Walk) (h : Hdr) (body : Bytes) (size : ℕ) {w' : Walk}
    → visit w h body size ≡ some w'
    → w'.off ≡ w.off
unfolding visit visit_begin visit_commit visit_sample
visit-off w h body size e = ground (arith, (visit_event-Still w h body).off)

visit-records_lost :
    (w : Walk) (h : Hdr) (body : Bytes) (size : ℕ) {w' : Walk}
    → visit w h body size ≡ some w'
    → w'.out.records_lost ≡ w.out.records_lost
unfolding visit visit_begin visit_commit visit_sample
visit-records_lost w h body size e =
    ground (arith, ap (λ (o : Scan). o.records_lost) (visit_event-Still w h body).out)

-- The first record of a buffer is visited alike whatever stands behind it.
scan_from_cut :
    (buf tail : Bytes) (w : Walk) {h : Hdr} {body : Bytes} {size : ℕ}
    → rec_decode buf ≡ decoded h body size
    → scan_from (take size buf ++ tail) w ≡ on_visit scan_from tail h size w (visit w h body size)
scan_from_cut buf tail w {h} {body} {size} d =
    scan_from_decoded (head ++ tail) w (decode-append head tail d')
    ∙ ap₂ (λ l o. on_visit scan_from l h size w o)
        (drop-append size head tail (omega (arith, size_head))
          ∙ ap (λ l. l ++ tail) (drop-length size head (omega (arith, size_head))))
        (visit-append w h body' tail size v.kind_fits room
          ∙ sym (visit-append w h body' (drop size buf) size v.kind_fits room)
          ∙ ap (λ l. visit w h l size) back)
  where
    v : Holds buf h body size
    v = decode-Holds buf d

    bounds : (48 ≤ size) × (size ≤ 248) × (size ≤ length buf) × (h.body_len ≤ length body)
    bounds = decode_bounds buf d

    head : Bytes
    head = take size buf

    body' : Bytes
    body' = drop hdr_size head

    size_head : length head ≡ size
    size_head = omega (arith, length-take size buf, bounds)

    d' : rec_decode head ≡ decoded h body' size
    d' =
        decode_prefix head (drop size buf) (omega (arith, size_head))
          (ap rec_decode (take-append-drop size buf) ∙ d)

    room : h.body_len ≤ length body'
    room = omega (arith, v.size_is, size_head, length-drop hdr_size head)

    back : body' ++ drop size buf ≡ body
    back =
        sym (drop-append hdr_size head (drop size buf) (omega (arith, size_head, bounds)))
        ∙ ap (drop hdr_size) (take-append-drop size buf)
        ∙ sym v.body_at

module _ (buf : Bytes) (w : Walk) {h : Hdr} {body : Bytes} {size : ℕ} {w' : Walk}
    (d : rec_decode buf ≡ decoded h body size) (e : visit w h body size ≡ some w') where
  abbrev moved_on : Walk
  moved_on = advance w' h size

  goes_on : scan_from buf w ≡ scan_from (drop size buf) moved_on
  unfolding on_visit
  goes_on = scan_from_decoded buf w d ∙ ap (on_visit scan_from (drop size buf) h size w) e

  cut_goes_on : (tail : Bytes) → scan_from (take size buf ++ tail) w ≡ scan_from tail moved_on
  unfolding on_visit
  cut_goes_on tail = scan_from_cut buf tail w d ∙ ap (on_visit scan_from tail h size w) e

  take_goes_on :
      (m : ℕ) → scan_from (take (size + m) buf) w ≡ scan_from (take m (drop size buf)) moved_on
  take_goes_on m =
      ap (λ l. scan_from l w) (sym (take-append-take size m buf))
      ∙ cut_goes_on (take m (drop size buf))

  Outcome-step : Outcome (drop size buf) moved_on → Outcome buf w
  Outcome-step (commits m le ends closed same none_lost) =
      commits (size + m) (omega (arith, decode_bounds buf d, length-drop size buf))
        (ap (λ (r : Walk). r.out.committed_len) goes_on
          ∙ ends
          ∙ omega (arith, visit-off w h body size e))
        (ap (λ (r : Walk). r.in_batch) (take_goes_on m) ∙ closed)
        (ap (λ (r : Walk). r.out) (take_goes_on m) ∙ same ∙ sym (ap (λ (r : Walk). r.out) goes_on))
        (ap (λ (r : Walk). r.out.records_lost) goes_on
          ∙ none_lost
          ∙ visit-records_lost w h body size e)
  Outcome-step (nothing same) = elim (Bool-cases (h.kind == rec_commit)) [
    | inr other ↦
        nothing (ap (λ (r : Walk). r.out) goes_on ∙ same ∙ visit-out w h body size other e)
    | inl commit ↦
        let here =
          ap (λ l. scan_from l w) (sym (append-nil (take size buf)))
          ∙ cut_goes_on []
          ∙ scan_from-nil moved_on in
        commits size (decode_bounds buf d).2
          (ap (λ (r : Walk). r.out.committed_len) goes_on
            ∙ ap (λ (o : Scan). o.committed_len) same
            ∙ (visit-commit w h body size commit e).1)
          (ap (λ (r : Walk). r.in_batch) here ∙ (visit-commit w h body size commit e).0)
          (ap (λ (r : Walk). r.out) here ∙ sym same ∙ sym (ap (λ (r : Walk). r.out) goes_on))
          (ap (λ (r : Walk). r.out.records_lost) goes_on
            ∙ ap (λ (o : Scan). o.records_lost) same
            ∙ visit-records_lost w h body size e)
  ]

outcome : (fuel : ℕ) (buf : Bytes) (w : Walk) → length buf ≤ fuel → Outcome buf w
unfolding on_visit
outcome zero [] w small = nothing (ap (λ (r : Walk). r.out) (scan_from-nil w))
outcome zero (b ∷ bs) w small = absurd (omega arith)
outcome (suc fuel) buf w small =
    decode_case (rec_decode buf) refl (λ rest w' less. outcome fuel rest w' (omega arith))
  where
    visit_case :
        (h : Hdr) (body : Bytes) (size : ℕ)
        → rec_decode buf ≡ decoded h body size
        → (o : Option Walk) → visit w h body size ≡ o
        → ((w' : Walk) → Outcome (drop size buf) w')
        → Outcome buf w
    visit_case h body size d none e ih = nothing (
        ap (λ (r : Walk). r.out)
          (scan_from_decoded buf w d ∙ ap (on_visit scan_from (drop size buf) h size w) e))
    visit_case h body size d (some w') e ih = Outcome-step buf w d e (ih (advance w' h size))

    decode_case :
        (d : Decoded)
        → rec_decode buf ≡ d
        → ((rest : Bytes) (w' : Walk) → length rest < length buf → Outcome rest w')
        → Outcome buf w
    decode_case (refused st) e ih = nothing (ap (λ (r : Walk). r.out) (scan_from_refused buf w e))
    decode_case (decoded h body size) e ih =
        visit_case h body size e (visit w h body size) refl
          (λ w'. ih (drop size buf) w' (omega (arith, decode_bounds buf e, length-drop size buf)))

lost-committed_len : (w : Walk) → (lost w).committed_len ≡ w.out.committed_len
lost-committed_len w = ap (λ (s : Scan). s.committed_len) (no_lost-lost w)

-- Whatever the bytes of a segment, the part that is kept lies inside it.
pub committed_len-le : (buf : Bytes) → (wal_scan buf).committed_len ≤ length buf
committed_len-le buf = rw wal_scan-lost (go (outcome (length buf) buf start_walk (omega arith)))
  where
    end : Walk
    end = scan_from buf start_walk

    go : Outcome buf start_walk → (lost end).committed_len ≤ length buf
    go (nothing same) =
        omega (arith, lost-committed_len end, ap (λ (o : Scan). o.committed_len) same)
    go (commits m le ends closed same none_lost) = omega (arith, lost-committed_len end)

no_lost_zero : (s : Scan) → s.records_lost ≡ 0 → no_lost s ≡ s
no_lost_zero s e = λ i. record s { records_lost = sym e i }

-- Whatever the bytes of a segment, a scan of the part that is kept reports the same, but that no
-- sample is lost: recovering a segment that was recovered before changes nothing.
pub scan_kept :
    (buf : Bytes)
    → wal_scan (take (wal_scan buf).committed_len buf) ≡ record (wal_scan buf) { records_lost = 0 }
scan_kept buf = go (outcome (length buf) buf start_walk (omega arith))
  where
    end : Walk
    end = scan_from buf start_walk

    kept : ℕ
    kept = (wal_scan buf).committed_len

    kept_lem : kept ≡ end.out.committed_len
    kept_lem = ap (λ (s : Scan). s.committed_len) (wal_scan-lost buf) ∙ lost-committed_len end

    right : end.out.records_lost ≡ 0 → no_lost (wal_scan buf) ≡ end.out
    right e = ap no_lost (wal_scan-lost buf) ∙ no_lost-lost end ∙ no_lost_zero end.out e

    go : Outcome buf start_walk → wal_scan (take kept buf) ≡ no_lost (wal_scan buf)
    go (nothing same) =
        ap (λ n. wal_scan (take n buf)) (kept_lem ∙ ap (λ (o : Scan). o.committed_len) same)
        ∙ wal_scan-lost []
        ∙ ap lost (scan_from-nil start_walk)
        ∙ sym (right (ap (λ (o : Scan). o.records_lost) same) ∙ same)
    go (commits m le ends closed same none_lost) =
        ap (λ n. wal_scan (take n buf)) (kept_lem ∙ ends ∙ omega arith)
        ∙ wal_scan-lost (take m buf)
        ∙ lost_closed (scan_from (take m buf) start_walk) closed
        ∙ same
        ∙ sym (right none_lost)
