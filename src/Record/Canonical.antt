-- ===== src/Record/Canonical.antt =====
-- Encoding what was decoded gives back the same bytes.
use cs370_term_project.Prelude.{
  ℕ, ◌+◌, ◌≤◌, ◌≡◌, some, ◌++◌, arith, refl, sym, ap, ap₂, ◌∙◌, length, take, drop, take-append,
  take-append-take, take-length,
}
use cs370_term_project.Prelude.Bytes.{
  Bytes, AreBytes, le, le-field, le-unle, field-lt, length-field, AreBytes-take, AreBytes-drop,
}
use cs370_term_project.Crc.{crc32}
use cs370_term_project.Record.{
  Hdr, hdr_size, crc_size, hdr_bytes, read_hdr, frame, decoded, rec_decode, rec_encode,
}
use cs370_term_project.Record.Header.{IsHdr, length-hdr_bytes}
use cs370_term_project.Record.RoundTrip.{IsRecord, stamped, encode-frame}
use cs370_term_project.Record.Bounds.{decode-Holds, decode_bounds}

-- The header that was read is written back in front of what followed it.
hdr_bytes-read_hdr :
    (buf : Bytes)
    → AreBytes buf
    → hdr_size ≤ length buf
    → hdr_bytes (read_hdr buf) ++ drop hdr_size buf ≡ buf
unfolding hdr_bytes read_hdr
hdr_bytes-read_hdr buf b l = le-field 0 4 buf _ b (omega arith) (
    le-field 4 2 buf _ b (omega arith) (
      le-field 6 2 buf _ b (omega arith) (
        le-field 8 8 buf _ b (omega arith) (
          le-field 16 8 buf _ b (omega arith) (
            le-field 24 8 buf _ b (omega arith) (
              le-field 32 1 buf _ b (omega arith) (
                le-field 33 1 buf _ b (omega arith) (
                  le-field 34 2 buf _ b (omega arith)
                    (le-field 36 4 buf _ b (omega arith) refl)))))))))

read_hdr-IsHdr : (buf : Bytes) → AreBytes buf → IsHdr (read_hdr buf)
unfolding read_hdr
read_hdr-IsHdr buf b = record {
  magic_in = field-lt 0 4 buf b;
  kind_in = field-lt 4 2 buf b;
  body_len_in = field-lt 6 2 buf b;
  seq_in = field-lt 8 8 buf b;
  mono_in = field-lt 16 8 buf b;
  wall_in = field-lt 24 8 buf b;
  src_in = field-lt 32 1 buf b;
  flags_in = field-lt 33 1 buf b;
  reserved_in = field-lt 34 2 buf b;
  boot_id_in = field-lt 36 4 buf b;
}

-- A decoded record passes the checks of `rec_encode`.
decode-IsRecord :
    (buf : Bytes) {h : Hdr} {body : Bytes} {size : ℕ}
    → AreBytes buf
    → rec_decode buf ≡ decoded h body size
    → IsRecord h body
decode-IsRecord buf {h} {body} b d =
    let v = decode-Holds buf d in
    record {
      fields = rw v.header (read_hdr-IsHdr buf b);
      kind_fits = v.kind_fits;
      labelled = v.labelled;
      event_fits = rw v.body_at v.event_fits;
      holds = (decode_bounds buf d).3;
      bytes = rw v.body_at (AreBytes-drop hdr_size buf b);
    }

hdr_bytes-take :
    (buf : Bytes)
    → AreBytes buf
    → hdr_size ≤ length buf
    → hdr_bytes (read_hdr buf) ≡ take hdr_size buf
hdr_bytes-take buf b l =
    sym (take-length hdr_size (hdr_bytes (read_hdr buf)) (sym (length-hdr_bytes (read_hdr buf))))
    ∙ sym (
        take-append hdr_size (hdr_bytes (read_hdr buf)) (drop hdr_size buf)
          (omega (arith, length-hdr_bytes (read_hdr buf))))
    ∙ ap (take hdr_size) (hdr_bytes-read_hdr buf b l)

module _ (buf : Bytes) {h : Hdr} {body : Bytes} {size : ℕ} (b : AreBytes buf)
    (d : rec_decode buf ≡ decoded h body size) (zero : h.reserved ≡ 0) where
  stamped_lem : stamped h ≡ h
  stamped_lem = λ i. record h { magic = sym (decode-Holds buf d).magic i; reserved = sym zero i }

  covered-take : hdr_bytes (stamped h) ++ take h.body_len body ≡ take (hdr_size + h.body_len) buf
  covered-take =
      let v = decode-Holds buf d in
      ap₂ ◌++◌
        (ap hdr_bytes (stamped_lem ∙ v.header)
          ∙ hdr_bytes-take buf b (omega (arith, v.inside, v.size_is)))
        (ap (take h.body_len) v.body_at)
      ∙ take-append-take hdr_size h.body_len buf

  frame-take : frame h body ≡ take size buf
  unfolding frame
  frame-take =
      let v = decode-Holds buf d in
      let end : hdr_size + h.body_len + crc_size ≤ length buf =
        omega (arith, v.inside, v.size_is) in
      ap (λ c. c ++ le crc_size (crc32 c)) covered-take
      ∙ ap (λ l. take (hdr_size + h.body_len) buf ++ l)
          (ap (le crc_size) v.checksum
            ∙ le-unle crc_size (take crc_size (drop (hdr_size + h.body_len) buf))
                (sym (length-field (hdr_size + h.body_len) crc_size buf end))
                (AreBytes-take crc_size _ (AreBytes-drop (hdr_size + h.body_len) buf b)))
      ∙ take-append-take (hdr_size + h.body_len) crc_size buf
      ∙ ap (λ k. take k buf) (sym v.size_is)

  -- The bytes of a decoded record, if its reserved field is zero, are the only ones that encode to
  -- its header and body: encoding them again gives those bytes.
  pub encode-decode :
      (cap : ℕ) → size ≤ cap → rec_encode (some cap) (some h) (some body) ≡ (size, take size buf)
  encode-decode cap fits =
      let v = decode-Holds buf d in
      encode-frame cap (decode-IsRecord buf b d) (omega (arith, v.size_is))
      ∙ ap₂ (λ (n : ℕ) (l : Bytes). let r : ℕ × Bytes = (n, l) in r) (sym v.size_is) frame-take
