-- ===== src/Record/RoundTrip.antt =====
-- What `rec_encode` accepts, `rec_decode` reads back, and a torn record is never taken for a whole.
use cs370_term_project.Prelude.{
  ℕ, suc, ◌+◌, ◌-◌, ◌≤◌, ◌<◌, ◌≡◌, ◌≢◌, true, false, not, ◌&&◌, some, [], ◌∷◌, ◌++◌, ltb, ◌==◌,
  arith, refl, sym, ap, ◌∙◌, length, take, drop, length-append, length-take, take-append,
  take-length, drop-append, drop-length, drop-append_ge, take-append_ge, append_assoc, append-nil,
  min, Bool-cases, inl, inr, le→ltb,
}
use cs370_term_project.Prelude.Bytes.{
  Bytes, le, unle, field, AreBytes, length-le, unle-take-le, AreBytes-append, AreBytes-take,
}
use cs370_term_project.Label.{src_is_valid}
use cs370_term_project.Crc.{crc32}
use cs370_term_project.Crc.Bitwise.{crc32-lt}
use cs370_term_project.Record.{
  Hdr, rec_magic, hdr_size, crc_size, rec_event, hdr_bytes, read_hdr, body_len_ok, kind_ok,
  event_ok, frame, total_size, rec_encode, short, decoded, refused, decode_at, rec_decode,
}
use cs370_term_project.Record.Header.{IsHdr, length-hdr_bytes, read_hdr-hdr_bytes}

-- A header and a body that pass the checks of `rec_encode`: the body holds the bytes that the
-- header announces.
pub record IsRecord (hdr : Hdr) (body : Bytes) : Type 0 where
  pub fields : IsHdr hdr
  pub kind_fits : kind_ok hdr.kind && body_len_ok hdr.kind hdr.body_len ≡ true
  pub labelled : src_is_valid hdr.src ≡ true
  pub event_fits : hdr.kind == rec_event && not (event_ok body hdr.body_len) ≡ false
  pub holds : hdr.body_len ≤ length body
  pub bytes : AreBytes body

-- The header as it is written.
abbrev pub stamped : Hdr → Hdr
stamped hdr = record hdr { magic = rec_magic; reserved = 0 }

pub stamped-IsHdr : {hdr : Hdr} → IsHdr hdr → IsHdr (stamped hdr)
stamped-IsHdr v = omega arith

pub AreBytes-hdr_bytes : (h : Hdr) → AreBytes (hdr_bytes h)
unfolding hdr_bytes
AreBytes-hdr_bytes h = omega arith

module _ (hdr : Hdr) (body : Bytes) where
  abbrev covered : Bytes
  covered = hdr_bytes (stamped hdr) ++ take hdr.body_len body

  abbrev sum : Bytes
  sum = le crc_size (crc32 covered)

  length-covered : hdr.body_len ≤ length body → length covered ≡ hdr_size + hdr.body_len
  length-covered h = omega (
    arith,
    length-append (hdr_bytes (stamped hdr)) (take hdr.body_len body),
    length-hdr_bytes (stamped hdr),
    length-take hdr.body_len body,
  )

  pub length-frame : hdr.body_len ≤ length body → length (frame hdr body) ≡ total_size hdr
  unfolding frame
  length-frame h =
      omega (arith, length-append covered sum, length-covered h, length-le crc_size (crc32 covered))

  -- A frame is the header and a rest.
  frame-hdr_bytes :
      (rest : Bytes)
      → frame hdr body ++ rest
        ≡ hdr_bytes (stamped hdr) ++ (take hdr.body_len body ++ (sum ++ rest))
  unfolding frame
  frame-hdr_bytes rest =
      append_assoc covered sum rest
      ∙ append_assoc (hdr_bytes (stamped hdr)) (take hdr.body_len body) (sum ++ rest)

-- The text length of an event stands in the first four bytes.
event_ok-take :
    (n : ℕ) (body rest : Bytes) (l : ℕ)
    → 4 ≤ n
    → n ≤ length body
    → event_ok (take n body ++ rest) l ≡ event_ok body l
unfolding event_ok
event_ok-take (suc (suc (suc (suc n)))) (a ∷ b ∷ c ∷ d ∷ body) rest l h le = refl
event_ok-take n body rest l h le = absurd (omega arith)

-- Every kind's body but that of an event is checked by its size alone; an event's has four bytes.
event-four :
    (hdr : Hdr)
    → kind_ok hdr.kind && body_len_ok hdr.kind hdr.body_len ≡ true
    → hdr.kind == rec_event ≡ true
    → 4 ≤ hdr.body_len
unfolding kind_ok body_len_ok
event-four hdr h e = ground arith

-- The checks behind the header, when all of them pass.
pub decode_at_ok :
    (buf : Bytes) (h : Hdr)
    → h.magic ≡ rec_magic
    → kind_ok h.kind && body_len_ok h.kind h.body_len ≡ true
    → src_is_valid h.src ≡ true
    → h.kind == rec_event && not (event_ok (drop hdr_size buf) h.body_len) ≡ false
    → total_size h ≤ length buf
    → crc32 (take (hdr_size + h.body_len) buf) ≡ field (hdr_size + h.body_len) crc_size buf
    → decode_at buf h ≡ decoded h (drop hdr_size buf) (total_size h)
unfolding decode_at
decode_at_ok buf h m k s e l c = ground arith

-- A torn buffer that holds the whole header of a record of a known kind.
decode_at_short :
    (buf : Bytes) (h : Hdr)
    → h.magic ≡ rec_magic
    → kind_ok h.kind && body_len_ok h.kind h.body_len ≡ true
    → length buf < total_size h
    → decode_at buf h ≡ refused short
unfolding decode_at
decode_at_short buf h m k l = ground arith

module _ {hdr : Hdr} {body : Bytes} (v : IsRecord hdr body) where
  open v use {fields, holds}

  abbrev tail : Bytes → Bytes
  tail rest = take hdr.body_len body ++ (sum hdr body ++ rest)

  AreBytes-covered : AreBytes (covered hdr body)
  AreBytes-covered =
      AreBytes-append (hdr_bytes (stamped hdr)) (take hdr.body_len body)
        (AreBytes-hdr_bytes (stamped hdr)) (AreBytes-take hdr.body_len body v.bytes)

  length-body : length (take hdr.body_len body) ≡ hdr.body_len
  length-body = omega (arith, length-take hdr.body_len body, holds)

  drop-frame : (rest : Bytes) → drop hdr_size (frame hdr body ++ rest) ≡ tail rest
  drop-frame rest =
      ap (drop hdr_size) (frame-hdr_bytes hdr body rest)
      ∙ drop-append hdr_size (hdr_bytes (stamped hdr)) (tail rest)
          (omega (arith, length-hdr_bytes (stamped hdr)))
      ∙ ap (λ l. l ++ tail rest)
          (drop-length hdr_size (hdr_bytes (stamped hdr))
            (omega (arith, length-hdr_bytes (stamped hdr))))

  take-frame :
      (rest : Bytes) → take (hdr_size + hdr.body_len) (frame hdr body ++ rest) ≡ covered hdr body
  unfolding frame
  take-frame rest =
      ap (take (hdr_size + hdr.body_len)) (append_assoc (covered hdr body) (sum hdr body) rest)
      ∙ take-append (hdr_size + hdr.body_len) (covered hdr body) (sum hdr body ++ rest)
          (omega (arith, length-covered hdr body holds))
      ∙ take-length (hdr_size + hdr.body_len) (covered hdr body)
          (omega (arith, length-covered hdr body holds))

  field-frame :
      (rest : Bytes)
      → field (hdr_size + hdr.body_len) crc_size (frame hdr body ++ rest) ≡ crc32 (covered hdr body)
  unfolding frame
  field-frame rest =
      ap (field (hdr_size + hdr.body_len) crc_size)
        (append_assoc (covered hdr body) (sum hdr body) rest)
      ∙ ap (λ l. unle (take crc_size l))
          (drop-append_ge (hdr_size + hdr.body_len) (covered hdr body) (sum hdr body ++ rest)
              (omega (arith, length-covered hdr body holds))
            ∙ ap (λ k. drop k (sum hdr body ++ rest)) {y = 0}
                (omega (arith, length-covered hdr body holds)))
      ∙ unle-take-le crc_size (crc32 (covered hdr body)) rest
          (crc32-lt (covered hdr body) AreBytes-covered)

  read-frame : (rest : Bytes) → read_hdr (frame hdr body ++ rest) ≡ stamped hdr
  read-frame rest =
      ap read_hdr (frame-hdr_bytes hdr body rest)
      ∙ read_hdr-hdr_bytes (tail rest) (stamped-IsHdr fields)

  event-frame :
      (rest : Bytes)
      → hdr.kind == rec_event
          && not (event_ok (drop hdr_size (frame hdr body ++ rest)) hdr.body_len)
        ≡ false
  event-frame rest = rw drop-frame (elim (Bool-cases (hdr.kind == rec_event)) [
    | inr other ↦ rw other
    | inl event ↦
        rw
          (event_ok-take hdr.body_len body (sum hdr body ++ rest) hdr.body_len
            (event-four hdr v.kind_fits event) holds)
          v.event_fits
  ])

  -- The record in front of any rest is decoded, with the header as it was stamped and the rest
  -- behind the body and its checksum.
  pub decode-frame :
      (rest : Bytes)
      → rec_decode (frame hdr body ++ rest) ≡ decoded (stamped hdr) (tail rest) (total_size hdr)
  unfolding rec_decode
  decode-frame rest = rw (le→ltb (length (frame hdr body ++ rest)) hdr_size long) (
      ap (decode_at (frame hdr body ++ rest)) (read-frame rest)
      ∙ decode_at_ok (frame hdr body ++ rest) (stamped hdr) refl v.kind_fits v.labelled
          (event-frame rest) long' (ap crc32 (take-frame rest) ∙ sym (field-frame rest))
      ∙ ap (λ b. decoded (stamped hdr) b (total_size hdr)) (drop-frame rest))
    where
      long' : total_size hdr ≤ length (frame hdr body ++ rest)
      long' = omega (arith, length-append (frame hdr body) rest, length-frame hdr body holds)

      long : hdr_size ≤ length (frame hdr body ++ rest)
      long = omega (arith, long')

  -- Any shorter prefix is reported as short.
  pub decode_torn :
      (k : ℕ) → k < total_size hdr → rec_decode (take k (frame hdr body)) ≡ refused short
  unfolding rec_decode
  decode_torn k h = elim (Bool-cases (ltb (length cut) hdr_size)) [
    | inl tiny ↦ rw tiny
    | inr torn ↦ rw torn (
        ap (decode_at cut) (read-torn (omega (arith, torn_long torn)))
        ∙ decode_at_short cut (stamped hdr) refl v.kind_fits (omega (arith, length-cut)))
  ]
    where
      cut : Bytes
      cut = take k (frame hdr body)

      length-cut : length cut ≡ min k (total_size hdr)
      length-cut = omega (arith, length-take k (frame hdr body), length-frame hdr body holds)

      torn_long : ltb (length cut) hdr_size ≡ false → hdr_size ≤ k
      torn_long e = ground (arith, length-cut)

      read-torn : hdr_size ≤ k → read_hdr cut ≡ stamped hdr
      read-torn e =
          ap (λ l. read_hdr (take k l))
            (sym (append-nil (frame hdr body)) ∙ frame-hdr_bytes hdr body [])
          ∙ ap read_hdr (
              take-append_ge k (hdr_bytes (stamped hdr)) (tail [])
                (omega (arith, length-hdr_bytes (stamped hdr))))
          ∙ read_hdr-hdr_bytes (take (k - length (hdr_bytes (stamped hdr))) (tail []))
              (stamped-IsHdr fields)

-- `rec_encode` writes the frame of a record that passes its checks and fits.
pub encode-frame :
    {hdr : Hdr} {body : Bytes} (cap : ℕ)
    → IsRecord hdr body
    → total_size hdr ≤ cap
    → rec_encode (some cap) (some hdr) (some body) ≡ (total_size hdr, frame hdr body)
unfolding rec_encode
encode-frame {hdr} {body} cap v h = ground (arith, v.kind_fits, v.labelled, v.event_fits)

-- What `rec_encode` accepts: a result that is not 0 means that every check passed, the record
-- fits in `cap`, and exactly the returned number of bytes was written.
pub encode_accepts :
    (cap : ℕ) (hdr : Hdr) (body : Bytes)
    → IsHdr hdr
    → hdr.body_len ≤ length body
    → AreBytes body
    → (rec_encode (some cap) (some hdr) (some body)).0 ≢ 0
    → IsRecord hdr body
      × (total_size hdr ≤ cap)
      × (rec_encode (some cap) (some hdr) (some body) ≡ (total_size hdr, frame hdr body))
unfolding rec_encode
encode_accepts cap hdr body f l b ne = ground arith

-- Decoding what was encoded, with anything behind it, gives back the header with its magic number
-- and a zero reserved field, a body that starts with the bytes given, and the size returned.
pub decode-encode :
    (cap : ℕ) (hdr : Hdr) (body rest : Bytes)
    → IsHdr hdr
    → hdr.body_len ≤ length body
    → AreBytes body
    → (rec_encode (some cap) (some hdr) (some body)).0 ≢ 0
    → let (n, out) = rec_encode (some cap) (some hdr) (some body) in
      (b : Bytes) × (rec_decode (out ++ rest)
        ≡ decoded (stamped hdr) (take hdr.body_len body ++ b) n)
      × (length out ≡ n)
      × (n ≤ cap)
decode-encode cap hdr body rest f l b ne =
    let (v, fits, e) = encode_accepts cap hdr body f l b ne in
    (sum hdr body ++ rest, rw e (decode-frame v rest), rw e (length-frame hdr body l), rw e fits)

-- No strict prefix of an encoded record decodes: each is reported as short, which is how recovery
-- finds a torn tail.
pub decode-take-encode :
    (cap : ℕ) (hdr : Hdr) (body : Bytes) (k : ℕ)
    → IsHdr hdr
    → hdr.body_len ≤ length body
    → AreBytes body
    → (rec_encode (some cap) (some hdr) (some body)).0 ≢ 0
    → k < (rec_encode (some cap) (some hdr) (some body)).0
    → rec_decode (take k (rec_encode (some cap) (some hdr) (some body)).1) ≡ refused short
decode-take-encode cap hdr body k f l b ne lt =
    let (v, fits, e) = encode_accepts cap hdr body f l b ne in rw e (decode_torn v k (rw e at lt))
