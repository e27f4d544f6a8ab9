-- ===== src/Wal/Batch.antt =====
-- `append`, `wal_add`, `wal_due` and `drop_batch`: the batch that is open in the buffer.
-- `buf` is the part of the buffer in use, so `len` is its length; `fd` says whether a segment is
-- open. The clock's readings are arguments.
pub mod Open
use cs370_term_project.Prelude.{
  ℕ, zero, suc, ◌+◌, ◌-◌, ◌*◌, ◌≡◌, Bool, true, false, not, ◌&&◌, ◌||◌, Option, none, some, List,
  [], ◌∷◌, ◌++◌, ltb, leb, ◌==◌, if◌then◌else◌, length,
}
use cs370_term_project.Prelude.Bytes.{Bytes, le}
use cs370_term_project.Prelude.Words.{add32, add64, sub64}
use cs370_term_project.Record.{Hdr, hdr_size, crc_size, max_body, rec_sample, rec_begin, rec_encode}
use cs370_term_project.Wal.Scan.{Scan}

abbrev pub segment_bytes : ℕ
segment_bytes = 16 * 1024 * 1024

abbrev pub batch_limit : ℕ
batch_limit = 64

abbrev pub batch_ns : ℕ
batch_ns = 1_000_000_000

abbrev pub buf_bytes : ℕ
buf_bytes = batch_limit * 56 + 32 * (hdr_size + max_body + crc_size)

abbrev pub commit_size : ℕ
commit_size = 16

-- wal_t, without the directory's name
pub record Wal : Type 0 where
  pub fd : Bool
  pub seg_bytes : ℕ
  pub next_seq : ℕ
  pub next_txn : ℕ
  pub boot_id : ℕ
  pub src : ℕ
  pub flags : ℕ
  pub recovered : Scan
  pub prev_end : ℕ
  pub truncated : ℕ
  pub open_batch : Bool
  pub batch_seq0 : ℕ
  pub batch_mono : ℕ
  pub batch_samples : ℕ
  pub buf : Bytes

-- What a caller hands to `wal_add`, and `append` to `rec_encode`.
pub record Item : Type 0 where
  pub kind : ℕ
  pub src : ℕ
  pub mono_ns : ℕ
  pub wall_ns : ℕ
  pub body : Bytes
  pub body_len : ℕ

-- The three readings of the clock that open a batch.
pub record Clock : Type 0 where
  pub mono : ℕ
  pub wall : ℕ
  pub after : ℕ

abbrev pub header : Wal → Item → Hdr
header w e = record {
  magic = 0;
  kind = e.kind;
  body_len = e.body_len;
  seq = w.next_seq;
  mono_ns = e.mono_ns;
  wall_ns = e.wall_ns;
  src = e.src;
  flags = w.flags;
  reserved = 0;
  boot_id = w.boot_id;
}

-- What is made of the result of `rec_encode` and the bytes that it wrote.
unfoldable pub appended : Wal → ℕ × Bytes → Option Wal
appended w (zero, out) = none
appended w (suc n, out) = some (record w { buf = w.buf ++ out; next_seq = add64 w.next_seq 1 })

-- `none` where the function returns -1, and changes nothing.
unfoldable pub append : Wal → Item → Option Wal
append w e =
    appended w (rec_encode (some (buf_bytes - length w.buf)) (some (header w e)) (some e.body))

abbrev pub begin_item : Clock → Wal → Item
begin_item now w = record {
  kind = rec_begin;
  src = w.src;
  mono_ns = now.mono;
  wall_ns = now.wall;
  body = le 8 w.next_txn;
  body_len = 8;
}

abbrev pub begun : Clock → Wal → Wal
begun now w = record w { open_batch = true; batch_mono = now.after; batch_samples = 0 }

-- The part of `wal_add` under `if (!w->open_batch)`, with whether it goes on.
unfoldable pub open_with_begin : Clock → Wal → Bool × Wal
open_with_begin now w =
    let w' = record w { batch_seq0 = w.next_seq } in
    elim (append w' (begin_item now w)) [ none ↦ (false, w') | some v ↦ (true, begun now v) ]

abbrev pub count_sample : ℕ → Wal → Wal
count_sample kind w =
    if kind == rec_sample then record w { batch_samples = add32 w.batch_samples 1 } else w

unfoldable pub add_record : Wal → Item → Bool × Wal
add_record w e = elim (append w e) [ none ↦ (false, w) | some v ↦ (true, count_sample e.kind v) ]

-- The record behind a BEGIN that was to be added first.
unfoldable pub add_after_begin : Item → Bool × Wal → Bool × Wal
add_after_begin e (false, w) = (false, w)
add_after_begin e (true, w) = add_record w e

-- Room is kept for the COMMIT that closes the batch.
unfoldable pub wal_add : Clock → Wal → Item → Bool × Wal
wal_add now w e =
    if ltb buf_bytes
      (length w.buf + hdr_size + e.body_len + crc_size + hdr_size + commit_size + crc_size)
    then (false, w)
    else if w.open_batch
    then add_record w e
    else add_after_begin e (open_with_begin now w)

unfoldable pub wal_due : Wal → ℕ → Bool
wal_due w now =
    w.open_batch && (leb batch_limit w.batch_samples || leb batch_ns (sub64 now w.batch_mono))

unfoldable pub drop_batch : Wal → Wal
drop_batch w = record w { buf = []; open_batch = false; batch_samples = 0; next_seq = w.batch_seq0 }
