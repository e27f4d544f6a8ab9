-- ===== src/Record/Header.antt =====
-- The header's bytes and their reading are inverse to one another.
use cs370_term_project.Prelude.{
  ℕ, ◌^◌, ◌≤◌, ◌<◌, ◌≡◌, true, false, ◌&&◌, ◌++◌, ◌==◌, arith, refl, length,
}
use cs370_term_project.Prelude.Bytes.{Bytes, unle-le}
use cs370_term_project.Record.{
  Hdr, max_body, rec_event, kind_ok, body_len_ok, hdr_size, hdr_bytes, read_hdr,
}

-- Each field fits its width.
pub record IsHdr (h : Hdr) : Type 0 where
  pub magic_in : h.magic < 2 ^ 32
  pub kind_in : h.kind < 2 ^ 16
  pub body_len_in : h.body_len < 2 ^ 16
  pub seq_in : h.seq < 2 ^ 64
  pub mono_in : h.mono_ns < 2 ^ 64
  pub wall_in : h.wall_ns < 2 ^ 64
  pub src_in : h.src < 2 ^ 8
  pub flags_in : h.flags < 2 ^ 8
  pub reserved_in : h.reserved < 2 ^ 16
  pub boot_id_in : h.boot_id < 2 ^ 32

pub length-hdr_bytes : (h : Hdr) → length (hdr_bytes h) ≡ hdr_size
unfolding hdr_bytes
length-hdr_bytes h = refl

pub read_hdr-hdr_bytes : {h : Hdr} (rest : Bytes) → IsHdr h → read_hdr (hdr_bytes h ++ rest) ≡ h
unfolding hdr_bytes read_hdr
read_hdr-hdr_bytes {h} rest v = λ i. record {
  magic = unle-le 4 h.magic v.magic_in i;
  kind = unle-le 2 h.kind v.kind_in i;
  body_len = unle-le 2 h.body_len v.body_len_in i;
  seq = unle-le 8 h.seq v.seq_in i;
  mono_ns = unle-le 8 h.mono_ns v.mono_in i;
  wall_ns = unle-le 8 h.wall_ns v.wall_in i;
  src = unle-le 1 h.src v.src_in i;
  flags = unle-le 1 h.flags v.flags_in i;
  reserved = unle-le 2 h.reserved v.reserved_in i;
  boot_id = unle-le 4 h.boot_id v.boot_id_in i;
}

-- The least size of a body that its kind allows.
pub body_len_bounds :
    (kind body_len : ℕ)
    → kind_ok kind && body_len_ok kind body_len ≡ true
    → (4 ≤ body_len) × (body_len ≤ max_body) × ((kind == rec_event) ≡ false → 8 ≤ body_len)
unfolding kind_ok body_len_ok
body_len_bounds kind body_len h = ground arith
