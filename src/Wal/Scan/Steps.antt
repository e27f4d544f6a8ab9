-- ===== src/Wal/Scan/Steps.antt =====
-- The loop of `wal_scan`, one record at a time: a whole record, a torn one, and enough fuel.
use cs370_term_project.Prelude.{
  ℕ, zero, suc, ◌≤◌, ◌≡◌, true, ◌&&◌, Option, none, some, [], ◌∷◌, ◌++◌, ◌==◌, if◌then◌else◌, arith,
  refl, ap, ap₂, ◌∙◌, length, take, drop, length-drop, take-append, Bool-cases, inl, inr,
}
use cs370_term_project.Prelude.Bytes.{Bytes, field-append}
use cs370_term_project.Prelude.Words.{add32}
use cs370_term_project.Record.{
  Hdr, rec_event, kind_ok, body_len_ok, Status, Decoded, decoded, refused, rec_decode,
}
use cs370_term_project.Record.Header.{body_len_bounds}
use cs370_term_project.Record.Bounds.{decode_bounds}
use cs370_term_project.Wal.Scan.{
  Walk, set_ns, mode_box, ev_ring_gen, ev_ring_seq, gen_name, seq_name, scan_ns, note_gen, note_seq,
  visit, visit_begin, visit_commit, visit_sample, visit_event, advance, on_visit, on_decode,
  scan_loop,
}

-- The loop from a buffer and a walk, with the fuel that `wal_scan` gives it.
unfoldable pub scan_from : Bytes → Walk → Walk
scan_from buf w = scan_loop (length buf) buf w

-- More fuel than bytes changes nothing.
scan_loop_fuel :
    (f g : ℕ) (buf : Bytes) (w : Walk)
    → length buf ≤ f
    → length buf ≤ g
    → scan_loop f buf w ≡ scan_loop g buf w
unfolding scan_loop
scan_loop_fuel zero zero buf w p q = refl
scan_loop_fuel zero (suc g) [] w p q = refl
scan_loop_fuel zero (suc g) (b ∷ bs) w p q = absurd (omega arith)
scan_loop_fuel (suc f) zero [] w p q = refl
scan_loop_fuel (suc f) zero (b ∷ bs) w p q = absurd (omega arith)
scan_loop_fuel (suc f) (suc g) [] w p q = refl
scan_loop_fuel (suc f) (suc g) (b ∷ bs) w p q =
    decode_case (rec_decode (b ∷ bs)) refl
      (λ rest w' small. scan_loop_fuel f g rest w' (omega arith) (omega arith))
  where
    visit_case :
        (rest : Bytes) (h : Hdr) (size : ℕ) (o : Option Walk)
        → ((w' : Walk) → scan_loop f rest w' ≡ scan_loop g rest w')
        → on_visit (scan_loop f) rest h size w o ≡ on_visit (scan_loop g) rest h size w o
    visit_case rest h size none ih = refl
    visit_case rest h size (some w') ih = ih (advance w' h size)

    decode_case :
        (d : Decoded)
        → rec_decode (b ∷ bs) ≡ d
        → ((rest : Bytes) (w' : Walk)
            → length rest ≤ length bs
            → scan_loop f rest w' ≡ scan_loop g rest w')
        → on_decode (scan_loop f) (b ∷ bs) w d ≡ on_decode (scan_loop g) (b ∷ bs) w d
    decode_case (refused st) e ih = refl
    decode_case (decoded h body size) e ih =
        visit_case (drop size (b ∷ bs)) h size (visit w h body size) (λ w'.
          ih (drop size (b ∷ bs)) w'
            (omega (arith, decode_bounds (b ∷ bs) e, length-drop size (b ∷ bs))))

-- A buffer that does not decode ends the loop.
pub scan_from_refused :
    (buf : Bytes) (w : Walk) {st : Status} → rec_decode buf ≡ refused st → scan_from buf w ≡ w
unfolding scan_from scan_loop
scan_from_refused [] w e = refl
scan_from_refused (b ∷ bs) w e = ap (on_decode (scan_loop (length bs)) (b ∷ bs) w) e

-- One that does is visited, and the loop goes on behind the record.
pub scan_from_decoded :
    (buf : Bytes) (w : Walk) {h : Hdr} {body : Bytes} {size : ℕ}
    → rec_decode buf ≡ decoded h body size
    → scan_from buf w ≡ on_visit scan_from (drop size buf) h size w (visit w h body size)
unfolding scan_from scan_loop
scan_from_decoded [] w e = absurd (omega (arith, decode_bounds [] e))
scan_from_decoded (b ∷ bs) w {h} {body} {size} e =
    ap (on_decode (scan_loop (length bs)) (b ∷ bs) w) e ∙ visit_case (visit w h body size)
  where
    rest : Bytes
    rest = drop size (b ∷ bs)

    visit_case :
        (o : Option Walk)
        → on_visit (scan_loop (length bs)) rest h size w o ≡ on_visit scan_from rest h size w o
    visit_case none = refl
    visit_case (some w') =
        scan_loop_fuel (length bs) (length rest) rest (advance w' h size)
          (omega (arith, decode_bounds (b ∷ bs) e, length-drop size (b ∷ bs))) (omega arith)

visit_begin-append :
    (w : Walk) (body junk : Bytes)
    → 8 ≤ length body
    → visit_begin w (body ++ junk) ≡ visit_begin w body
unfolding visit_begin
visit_begin-append w body junk l =
    λ i. record (visit_begin w body) { txn = field-append 0 8 body junk l i }

visit_sample-append :
    (w : Walk) (h : Hdr) (body junk : Bytes)
    → 8 ≤ length body
    → visit_sample w h (body ++ junk) ≡ visit_sample w h body
unfolding visit_sample
visit_sample-append w h body junk l =
    ap (λ m. record w { samples = add32 w.samples 1; mono = set_ns w.mono m h.mono_ns })
      (ap (λ m. if m == mode_box then 1 else 0) (field-append 0 1 body junk (omega (arith, l))))

visit_event-append :
    (w : Walk) (h : Hdr) (body junk : Bytes)
    → 4 ≤ length body
    → h.body_len ≤ length body
    → visit_event w h (body ++ junk) ≡ visit_event w h body
unfolding visit_event
visit_event-append w h body junk l e =
    ap₂
      (λ code text.
        if code == ev_ring_gen
        then note_gen w (scan_ns gen_name text)
        else if code == ev_ring_seq
        then note_seq w (scan_ns seq_name text)
        else w)
      (field-append 0 2 body junk (omega (arith, l)))
      (ap₂ (λ (n : ℕ) (t : Bytes). take n (drop 4 t)) (field-append 2 2 body junk l)
        (take-append h.body_len body junk e))

-- A visit reads no more of the body than the header announces.
pub visit-append :
    (w : Walk) (h : Hdr) (body junk : Bytes) (size : ℕ)
    → kind_ok h.kind && body_len_ok h.kind h.body_len ≡ true
    → h.body_len ≤ length body
    → visit w h (body ++ junk) size ≡ visit w h body size
unfolding visit visit_commit
visit-append w h body junk size k l = elim (Bool-cases (h.kind == rec_event)) [
  | inr other ↦ ground (
    arith,
    other,
    visit_begin-append w body junk,
    visit_sample-append w h body junk,
    field-append 0 8 body junk,
    (body_len_bounds h.kind h.body_len k).2 other,
  )
  | inl event ↦
      ground
        (arith, event, visit_event-append w h body junk, (body_len_bounds h.kind h.body_len k).0)
]
