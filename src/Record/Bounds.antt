-- ===== src/Record/Bounds.antt =====
-- What a successful `rec_decode` says of the buffer, and that it reads nothing behind the record.
use cs370_term_project.Prelude.{
  ℕ, ◌+◌, ◌≤◌, ◌≡◌, true, false, not, ◌&&◌, ◌++◌, leb, ◌==◌, arith, refl, sym, ap, ◌∙◌, length,
  take, drop, length-append, length-drop, take-append, drop-append, le→ltb,
}
use cs370_term_project.Prelude.Bytes.{Bytes, field, field-append}
use cs370_term_project.Label.{src_is_valid}
use cs370_term_project.Crc.{crc32}
use cs370_term_project.Record.{
  Hdr, rec_magic, hdr_size, crc_size, rec_event, event_text_max, read_hdr, body_len_ok, kind_ok,
  event_ok, total_size, decoded, decode_at, rec_decode,
}
use cs370_term_project.Record.Header.{body_len_bounds}
use cs370_term_project.Record.RoundTrip.{decode_at_ok}

-- The buffer starts with a whole record: header `h`, then `body`, `size` bytes in all.
pub record Holds (buf : Bytes) (h : Hdr) (body : Bytes) (size : ℕ) : Type 0 where
  pub header : h ≡ read_hdr buf
  pub body_at : body ≡ drop hdr_size buf
  pub size_is : size ≡ total_size h
  pub inside : size ≤ length buf
  pub magic : h.magic ≡ rec_magic
  pub kind_fits : kind_ok h.kind && body_len_ok h.kind h.body_len ≡ true
  pub labelled : src_is_valid h.src ≡ true
  pub event_fits : h.kind == rec_event && not (event_ok (drop hdr_size buf) h.body_len) ≡ false
  pub checksum :
      crc32 (take (hdr_size + h.body_len) buf) ≡ field (hdr_size + h.body_len) crc_size buf

decode_at_inv :
    (buf : Bytes) (h' h : Hdr) (body : Bytes) (size : ℕ)
    → h' ≡ read_hdr buf
    → decode_at buf h' ≡ decoded h body size
    → Holds buf h body size
unfolding decode_at
decode_at_inv buf h' h body size e d = ground arith

-- Whatever is decoded is a whole record inside the buffer: magic, kind, length, checksum, label
-- and event text all hold, and the size returned does not pass the end of the buffer.
pub decode-Holds :
    (buf : Bytes) {h : Hdr} {body : Bytes} {size : ℕ}
    → rec_decode buf ≡ decoded h body size
    → Holds buf h body size
unfolding rec_decode
decode-Holds buf {h} {body} {size} d =
    decode_at_inv buf (read_hdr buf) h body size refl (ground arith)

-- A record has 48 to 248 bytes, so a scan that steps over records always moves on.
pub decode_bounds :
    (buf : Bytes) {h : Hdr} {body : Bytes} {size : ℕ}
    → rec_decode buf ≡ decoded h body size
    → (48 ≤ size) × (size ≤ 248) × (size ≤ length buf) × (h.body_len ≤ length body)
decode_bounds buf {h} d =
    let v = decode-Holds buf d in
    omega (
      arith,
      v.size_is,
      v.inside,
      ap length v.body_at,
      length-drop hdr_size buf,
      body_len_bounds h.kind h.body_len v.kind_fits,
    )

read_hdr-append : (buf rest : Bytes) → hdr_size ≤ length buf → read_hdr (buf ++ rest) ≡ read_hdr buf
unfolding read_hdr
read_hdr-append buf rest l = λ i. record {
  magic = field-append 0 4 buf rest (omega (arith, l)) i;
  kind = field-append 4 2 buf rest (omega (arith, l)) i;
  body_len = field-append 6 2 buf rest (omega (arith, l)) i;
  seq = field-append 8 8 buf rest (omega (arith, l)) i;
  mono_ns = field-append 16 8 buf rest (omega (arith, l)) i;
  wall_ns = field-append 24 8 buf rest (omega (arith, l)) i;
  src = field-append 32 1 buf rest (omega (arith, l)) i;
  flags = field-append 33 1 buf rest (omega (arith, l)) i;
  reserved = field-append 34 2 buf rest (omega (arith, l)) i;
  boot_id = field-append 36 4 buf rest (omega (arith, l)) i;
}

event_ok-append : (xs ys : Bytes) (l : ℕ) → 4 ≤ length xs → event_ok (xs ++ ys) l ≡ event_ok xs l
unfolding event_ok
event_ok-append xs ys l h =
    ap (λ (n : ℕ). leb n event_text_max && n + 4 == l) (field-append 2 2 xs ys h)

-- What follows a whole record does not change how it is decoded: nothing behind it is read.
pub decode-append :
    (buf rest : Bytes) {h : Hdr} {body : Bytes} {size : ℕ}
    → rec_decode buf ≡ decoded h body size
    → rec_decode (buf ++ rest) ≡ decoded h (body ++ rest) size
unfolding rec_decode
decode-append buf rest {h} {body} {size} d = rw (le→ltb (length (buf ++ rest)) hdr_size long) (
    ap (decode_at (buf ++ rest)) (read_hdr-append buf rest (omega (arith, bounds)) ∙ sym v.header)
    ∙ decode_at_ok (buf ++ rest) h v.magic v.kind_fits v.labelled
        (rw moved (rw (event_ok-append (drop hdr_size buf) rest h.body_len four) v.event_fits))
        (omega (arith, v.inside, v.size_is, length-append buf rest))
        (ap crc32
            (take-append (hdr_size + h.body_len) buf rest (omega (arith, v.inside, v.size_is)))
          ∙ v.checksum
          ∙ sym (
              field-append (hdr_size + h.body_len) crc_size buf rest
                (omega (arith, v.inside, v.size_is))))
    ∙ cc (moved, v.body_at, v.size_is))
  where
    v : Holds buf h body size
    v = decode-Holds buf d

    bounds : (48 ≤ size) × (size ≤ 248) × (size ≤ length buf) × (h.body_len ≤ length body)
    bounds = decode_bounds buf d

    long : hdr_size ≤ length (buf ++ rest)
    long = omega (arith, bounds, length-append buf rest)

    moved : drop hdr_size (buf ++ rest) ≡ drop hdr_size buf ++ rest
    moved = drop-append hdr_size buf rest (omega (arith, bounds))

    four : 4 ≤ length (drop hdr_size buf)
    four = omega (arith, bounds, length-drop hdr_size buf)

-- A cut that leaves the whole record is decoded like the buffer.
pub decode_prefix :
    (buf rest : Bytes) {h : Hdr} {body : Bytes} {size : ℕ}
    → size ≤ length buf
    → rec_decode (buf ++ rest) ≡ decoded h body size
    → rec_decode buf ≡ decoded h (drop hdr_size buf) size
unfolding rec_decode
decode_prefix buf rest {h} {body} {size} long d =
    rw (le→ltb (length buf) hdr_size (omega (arith, bounds, long))) (
      ap (decode_at buf)
        (sym (read_hdr-append buf rest (omega (arith, bounds, long))) ∙ sym v.header)
      ∙ decode_at_ok buf h v.magic v.kind_fits v.labelled (rw moved at v.event_fits)
          (omega (arith, v.size_is, long))
          (ap crc32
              (sym (take-append (hdr_size + h.body_len) buf rest (omega (arith, v.size_is, long))))
            ∙ v.checksum
            ∙ field-append (hdr_size + h.body_len) crc_size buf rest
                (omega (arith, v.size_is, long)))
      ∙ ap (decoded h (drop hdr_size buf)) (sym v.size_is))
  where
    v : Holds (buf ++ rest) h body size
    v = decode-Holds (buf ++ rest) d

    bounds : (48 ≤ size) × (size ≤ 248) × (size ≤ length (buf ++ rest)) × (h.body_len ≤ length body)
    bounds = decode_bounds (buf ++ rest) d

    moved :
        event_ok (drop hdr_size (buf ++ rest)) h.body_len ≡ event_ok (drop hdr_size buf) h.body_len
    moved =
        ap (λ l. event_ok l h.body_len)
          (drop-append hdr_size buf rest (omega (arith, bounds, long)))
        ∙ event_ok-append (drop hdr_size buf) rest h.body_len
            (omega (arith, bounds, long, length-drop hdr_size buf))
