-- ===== src/Record.antt =====
-- src/store/record.c and include/store/record.h: the on-disk record format.
-- A buffer of `len` bytes is a list of that length.
pub mod Header
pub mod Bounds
pub mod RoundTrip
pub mod Canonical
mod Tests
use Prim.Native.String.{String}
use cs370_term_project.Prelude.{
  ℕ, ◌+◌, Bool, true, false, not, ◌&&◌, Option, none, some, List, [], ◌∷◌, ◌++◌, ltb, leb, ◌==◌,
  if◌then◌else◌, length, take, drop,
}
use cs370_term_project.Prelude.Bytes.{Bytes, le, field}
use cs370_term_project.Label.{src_is_valid}
use cs370_term_project.Crc.{crc32}

abbrev pub rec_magic : ℕ
rec_magic = 0x3152_5743

abbrev pub hdr_size : ℕ
hdr_size = 40

abbrev pub crc_size : ℕ
crc_size = 4

abbrev pub event_text_max : ℕ
event_text_max = 200

abbrev pub max_body : ℕ
max_body = 4 + event_text_max

-- rec_kind_t, a 16-bit field of the header
abbrev pub rec_sample : ℕ
rec_sample = 1

abbrev pub rec_begin : ℕ
rec_begin = 2

abbrev pub rec_commit : ℕ
rec_commit = 3

abbrev pub rec_boot : ℕ
rec_boot = 4

abbrev pub rec_shutdown : ℕ
rec_shutdown = 5

abbrev pub rec_event : ℕ
rec_event = 6

-- rec_hdr_t
pub record Hdr : Type 0 where
  pub magic : ℕ
  pub kind : ℕ
  pub body_len : ℕ
  pub seq : ℕ
  pub mono_ns : ℕ
  pub wall_ns : ℕ
  pub src : ℕ
  pub flags : ℕ
  pub reserved : ℕ
  pub boot_id : ℕ

-- The layout that the static assertions pin down.
pub hdr_bytes : Hdr → Bytes
hdr_bytes h =
    le 4 h.magic
    ++ (le 2 h.kind
        ++ (le 2 h.body_len
            ++ (le 8 h.seq
                ++ (le 8 h.mono_ns
                    ++ (le 8 h.wall_ns
                        ++ (le 1 h.src
                            ++ (le 1 h.flags ++ (le 2 h.reserved ++ le 4 h.boot_id))))))))

-- `memcpy(&h, buf, REC_HDR_SIZE)`
pub read_hdr : Bytes → Hdr
read_hdr buf = record {
  magic = field 0 4 buf;
  kind = field 4 2 buf;
  body_len = field 6 2 buf;
  seq = field 8 8 buf;
  mono_ns = field 16 8 buf;
  wall_ns = field 24 8 buf;
  src = field 32 1 buf;
  flags = field 33 1 buf;
  reserved = field 34 2 buf;
  boot_id = field 36 4 buf;
}

-- The sizes are those of the body structs.
unfoldable pub body_len_ok : ℕ → ℕ → Bool
body_len_ok kind body_len =
    if kind == rec_sample
    then body_len == 12
    else if kind == rec_begin
    then body_len == 8
    else if kind == rec_commit
    then body_len == 16
    else if kind == rec_boot
    then body_len == 12
    else if kind == rec_shutdown
    then body_len == 8
    else if kind == rec_event
    then leb 4 body_len && leb body_len max_body
    else false

unfoldable pub kind_ok : ℕ → Bool
kind_ok kind = leb rec_sample kind && leb kind rec_event

unfoldable pub event_ok : Bytes → ℕ → Bool
event_ok body body_len =
    let text_len = field 2 2 body in leb text_len event_text_max && text_len + 4 == body_len

-- The header, the body and the CRC of both.
pub frame : Hdr → Bytes → Bytes
unfolding hdr_bytes
frame hdr body =
    let h = record hdr { magic = rec_magic; reserved = 0 } in
    let covered = hdr_bytes h ++ take hdr.body_len body in covered ++ le crc_size (crc32 covered)

abbrev pub total_size : Hdr → ℕ
total_size hdr = hdr_size + hdr.body_len + crc_size

encode_at : ℕ → Hdr → Bytes → ℕ × Bytes
encode_at cap hdr body =
    if not (kind_ok hdr.kind && body_len_ok hdr.kind hdr.body_len)
    then (0, [])
    else if not (src_is_valid hdr.src)
    then (0, [])
    else if hdr.kind == rec_event && not (event_ok body hdr.body_len)
    then (0, [])
    else if ltb cap (total_size hdr)
    then (0, [])
    else (total_size hdr, frame hdr body)

-- The result, and the bytes written to `out`, none where the function returns 0. `out` is the
-- capacity behind a pointer that is not NULL.
pub rec_encode : Option ℕ → Option Hdr → Option Bytes → ℕ × Bytes
unfolding encode_at
rec_encode (some cap) (some hdr) (some body) = encode_at cap hdr body
rec_encode _ _ _ = (0, [])

-- rec_status_t without REC_OK, which comes with the outputs.
pub data Status : Type 0 where
  short bad_magic bad_kind bad_len bad_crc bad_src : Status

-- `decoded h body size`: `*body` points into the buffer, so it is all that follows the header.
pub data Decoded : Type 0 where
  decoded : Hdr → Bytes → ℕ → Decoded
  refused : Status → Decoded

-- The checks behind the header, `h`.
pub decode_at : Bytes → Hdr → Decoded
decode_at buf h =
    if not (h.magic == rec_magic)
    then refused bad_magic
    else if not (kind_ok h.kind)
    then refused bad_kind
    else if not (body_len_ok h.kind h.body_len)
    then refused bad_len
    else if ltb (length buf) (total_size h)
    then refused short
    else if not
        (crc32 (take (hdr_size + h.body_len) buf) == field (hdr_size + h.body_len) crc_size buf)
    then refused bad_crc
    else if not (src_is_valid h.src)
    then refused bad_src
    else if h.kind == rec_event && not (event_ok (drop hdr_size buf) h.body_len)
    then refused bad_len
    else decoded h (drop hdr_size buf) (total_size h)

-- The output pointers are not NULL, as in every caller that reads the outputs.
pub rec_decode : Bytes → Decoded
unfolding decode_at
rec_decode buf = if ltb (length buf) hdr_size then refused short else decode_at buf (read_hdr buf)

pub rec_status_name : Decoded → String
rec_status_name (decoded h body size) = "ok"
rec_status_name (refused short) = "short"
rec_status_name (refused bad_magic) = "bad_magic"
rec_status_name (refused bad_kind) = "bad_kind"
rec_status_name (refused bad_len) = "bad_len"
rec_status_name (refused bad_crc) = "bad_crc"
rec_status_name (refused bad_src) = "bad_src"
