-- ===== src/Record/Tests.antt =====
-- The record format and its theorems at one SAMPLE record.
use cs370_term_project.Prelude.{◌≤◌, ◌≡◌, ◌≢◌, some, [], ◌∷◌, ◌++◌, arith, refl, length, take}
use cs370_term_project.Prelude.Bytes.{Bytes, le, AreBytes}
use cs370_term_project.Record.{
  Hdr, rec_sample, kind_ok, body_len_ok, crc_size, hdr_bytes, frame, refused, short, decoded,
  rec_encode, rec_decode,
}
use cs370_term_project.Crc.{crc32}
use cs370_term_project.Record.Header.{IsHdr}
use cs370_term_project.Record.RoundTrip.{
  IsRecord, stamped, decode-frame, decode-encode, decode-take-encode,
}
use cs370_term_project.Record.Bounds.{Holds, decode-Holds}
use cs370_term_project.Record.Canonical.{encode-decode}

abbrev hdr : Hdr
hdr = record {
  magic = 0;
  kind = rec_sample;
  body_len = 12;
  seq = 7;
  mono_ns = 1000;
  wall_ns = 0;
  src = 1;
  flags = 0;
  reserved = 0;
  boot_id = 3;
}

-- mode 1, pid 12, len 2, reserved 0, the float 1.0 and four payload bytes
abbrev body : Bytes
body = 1 ∷ 12 ∷ 2 ∷ 0 ∷ 0 ∷ 0 ∷ 128 ∷ 63 ∷ 26 ∷ 248 ∷ 0 ∷ 0 ∷ []

abbrev encoded : Bytes
encoded = (rec_encode (some 64) (some hdr) (some body)).1

hdr-IsHdr : IsHdr hdr
hdr-IsHdr = omega arith

body-AreBytes : AreBytes body
body-AreBytes = omega arith

accepted : (rec_encode (some 64) (some hdr) (some body)).0 ≡ 56
unfolding rec_encode kind_ok body_len_ok
accepted = refl

not_refused : (rec_encode (some 64) (some hdr) (some body)).0 ≢ 0
not_refused e = omega (arith, accepted, e)

-- A record that does not fit is refused.
rec_encode_small : rec_encode (some 55) (some hdr) (some body) ≡ (0, [])
unfolding rec_encode kind_ok body_len_ok
rec_encode_small = refl

decode-encode_example :
    (b : Bytes) × (rec_decode (encoded ++ 9 ∷ [])
      ≡ decoded (stamped hdr) (take 12 body ++ b) (rec_encode (some 64) (some hdr) (some body)).0)
    × (length encoded ≡ (rec_encode (some 64) (some hdr) (some body)).0)
    × ((rec_encode (some 64) (some hdr) (some body)).0 ≤ 64)
decode-encode_example =
    decode-encode 64 hdr body (9 ∷ []) hdr-IsHdr (omega arith) body-AreBytes not_refused

decode-take-encode_example : rec_decode (take 50 encoded) ≡ refused short
decode-take-encode_example =
    decode-take-encode 64 hdr body 50 hdr-IsHdr (omega arith) body-AreBytes not_refused
      (omega (arith, accepted))

-- The record on disk with a byte of the next behind it, and what its decoder sees.
abbrev on_disk : Bytes
on_disk = frame hdr body ++ 9 ∷ []

abbrev seen : Hdr
seen = stamped hdr

abbrev behind : Bytes
behind = body ++ (le crc_size (crc32 (hdr_bytes seen ++ body)) ++ 9 ∷ [])

hdr-IsRecord : IsRecord hdr body
unfolding kind_ok body_len_ok
hdr-IsRecord = record {
  fields = hdr-IsHdr;
  kind_fits = refl;
  labelled = refl;
  event_fits = refl;
  holds = omega arith;
  bytes = body-AreBytes;
}

decoded_lem : rec_decode on_disk ≡ decoded seen behind 56
decoded_lem = decode-frame hdr-IsRecord (9 ∷ [])

on_disk-AreBytes : AreBytes on_disk
unfolding frame
on_disk-AreBytes = omega arith

decode-Holds_example : Holds on_disk seen behind 56
decode-Holds_example = decode-Holds on_disk decoded_lem

encode-decode_example : rec_encode (some 64) (some seen) (some behind) ≡ (56, take 56 on_disk)
encode-decode_example = encode-decode on_disk on_disk-AreBytes decoded_lem refl 64 (omega arith)
