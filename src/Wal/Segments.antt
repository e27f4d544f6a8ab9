-- ===== src/Wal/Segments.antt =====
-- `newest_segment`, `seg_path` and `recover_segment`: the files of the log's directory.
-- What a call of the system returns is an argument.
pub mod Recovered
use cs370_term_project.Prelude.{
  ℕ, zero, suc, ◌+◌, ◌-◌, ◌≡◌, Bool, true, false, not, ◌&&◌, ◌||◌, Option, none, some, List, [],
  ◌∷◌, ◌++◌, ltb, ◌==◌, if◌then◌else◌, length, take, drop,
}
use cs370_term_project.Prelude.Bytes.{Bytes}
use cs370_term_project.Prelude.Words.{add32, add64}
use cs370_term_project.Text.{
  equal, scan_literal, scan_number, scan_word, skip_space, print_number, pad_zeros,
}
use cs370_term_project.Wal.Scan.{Scan, wal_scan}
use cs370_term_project.Wal.Batch.{Wal}

-- rec_prev_end_t
abbrev pub prev_clean : ℕ
prev_clean = 0

abbrev pub prev_recovered : ℕ
prev_recovered = 1

abbrev pub prev_first : ℕ
prev_first = 2

abbrev log_prefix : Bytes
log_prefix = b'l' ∷ b'o' ∷ b'g' ∷ b'-' ∷ []

abbrev suffix : Bytes
suffix = b'c' ∷ b'w' ∷ b'r' ∷ []

-- sscanf(name, "log-%16" SCNx64 ".%7s", &s, tail) == 2 && strcmp(tail, "cwr") == 0
unfoldable pub segment_of_name : Bytes → Option ℕ
segment_of_name name = elim (scan_literal log_prefix name) [
  | none ↦ none
  | some digits ↦ elim (scan_number 16 16 digits) [
    | none ↦ none
    | some (s, dot) ↦ elim (scan_literal (b'.' ∷ []) dot) [
      | none ↦ none
      | some word ↦ if equal (scan_word 7 (skip_space word)) suffix then some s else none
    ]
  ]
]

-- The name in the path that `seg_path` prints.
unfoldable pub segment_name : ℕ → Bytes
segment_name first = log_prefix ++ (pad_zeros 16 (print_number 16 first) ++ (b'.' ∷ suffix))

-- One entry of the directory, with the newest segment so far.
unfoldable pub newer_segment : Option ℕ → Option ℕ → Option ℕ
newer_segment found none = found
newer_segment none (some s) = some s
newer_segment (some first) (some s) = if ltb first s then some s else some first

unfoldable pub newest_from : Option ℕ → List Bytes → Option ℕ
newest_from found [] = found
newest_from found (name ∷ names) = newest_from (newer_segment found (segment_of_name name)) names

unfoldable pub newest_segment : List Bytes → Option ℕ
newest_segment names = newest_from none names

abbrev pub recovered_state : Wal → Bytes → Scan → Wal
recovered_state w buf s = record w {
  recovered = s;
  prev_end = if s.ended_clean && s.committed_len == length buf then prev_clean else prev_recovered;
  truncated = length buf - s.committed_len;
  fd = true;
  seg_bytes = s.committed_len;
}

-- What recovery makes of the bytes once they are read: the new state and the file, or -1. `cuts`
-- says whether `ftruncate` and `fsync` succeed.
unfoldable pub recover_with : Bool → Wal → Bytes → Scan → Option (Wal × Bytes)
recover_with cuts w buf s =
    if ltb s.committed_len (length buf) && not cuts
    then none
    else some (recovered_state w buf s, take s.committed_len buf)

-- `content` is `none` where opening, measuring, allocating for or reading the file fails.
unfoldable pub recover_segment : Bool → Wal → Option Bytes → Option (Wal × Bytes)
recover_segment cuts w none = none
recover_segment cuts w (some buf) = recover_with cuts w buf (wal_scan buf)

-- The numbers that `wal_open` goes on from.
unfoldable pub resume : ℕ → Wal → Wal
resume first w = record w {
  next_seq = if w.recovered.any_committed then add64 w.recovered.last_seq 1 else first;
  next_txn = add64 w.recovered.last_txn 1;
  boot_id = add32 w.recovered.last_boot_id 1;
}
