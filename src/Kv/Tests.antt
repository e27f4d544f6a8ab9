-- ===== src/Kv/Tests.antt =====
-- A reply of one record and `ok`, and the theorems at it.
use cs370_term_project.Prelude.{◌≡◌, some, arith, [], ◌∷◌, ◌++◌, refl}
use cs370_term_project.Prelude.Bytes.{Bytes}
use cs370_term_project.Text.{equal, place, find_byte}
use cs370_term_project.Json.{
  is_number, skip_minus, skip_int, skip_digits, skip_fraction, skip_exponent,
}
use cs370_term_project.Kv.{
  Line, num, record_line, ok_line, bad, all_ident, is_name, token_len, has_key, bare_value,
  value_of, put_field, add_field, on_field, parse_fields, is_printable, parse_record, parse_head,
  kv_parse_line, kv_reply_check, get_from, kv_get,
}
use cs370_term_project.Kv.Sizes.{IsParsed, kv_parse_line-IsParsed}
use cs370_term_project.Kv.Reply.{AreInLine, text_of, Ends, kv_reply_check-text_of}
use cs370_term_project.Kv.RoundTrip.{line_text, IsWireLine, kv_parse_line-line_text}

-- proc up=1
abbrev proc_line : Bytes
proc_line = b'p' ∷ b'r' ∷ b'o' ∷ b'c' ∷ b' ' ∷ b'u' ∷ b'p' ∷ b'=' ∷ b'1' ∷ []

abbrev ok_bytes : Bytes
ok_bytes = b'o' ∷ b'k' ∷ []

abbrev proc : Line
proc = record {
  tag = b'p' ∷ b'r' ∷ b'o' ∷ b'c' ∷ [];
  f = record { key = b'u' ∷ b'p' ∷ []; val = b'1' ∷ []; type = num } ∷ [];
  err_code = [];
  err_reason = [];
}

kv_parse_line-proc : kv_parse_line proc_line ≡ record_line proc
unfolding kv_parse_line is_printable parse_head parse_record find_byte place is_name all_ident
    parse_fields token_len on_field add_field has_key value_of bare_value put_field is_number
    skip_minus skip_int skip_digits skip_fraction skip_exponent equal
kv_parse_line-proc = refl

kv_parse_line-ok : kv_parse_line ok_bytes ≡ ok_line
unfolding kv_parse_line is_printable equal
kv_parse_line-ok = refl

kv_get-proc : kv_get proc (b'u' ∷ b'p' ∷ []) ≡ some (b'1' ∷ [])
unfolding kv_get get_from equal
kv_get-proc = refl

kv_parse_line-IsParsed_example : IsParsed (kv_parse_line proc_line)
kv_parse_line-IsParsed_example = kv_parse_line-IsParsed proc_line

proc_line-AreInLine : AreInLine proc_line
proc_line-AreInLine = (
  refl,
  refl,
  (
    refl,
    refl,
    (
      refl,
      refl,
      (refl, refl, (refl, refl, (refl, refl, (refl, refl, (refl, refl, (refl, refl, tt)))))),
    ),
  ),
)

ok-Ends : Ends (kv_parse_line ok_bytes)
unfolding kv_parse_line is_printable equal
ok-Ends = tt

kv_reply_check-text_of_example :
    (kv_reply_check (text_of (proc_line ∷ []) ++ (ok_bytes ++ b'\n' ∷ []))
      ≡ some (kv_parse_line ok_bytes))
    × (kv_reply_check (text_of (proc_line ∷ []) ++ (ok_bytes ++ b'\n' ∷ b'x' ∷ [])) ≡ some bad)
kv_reply_check-text_of_example =
    kv_reply_check-text_of (proc_line ∷ []) ok_bytes b'x' []
      (proc_line-AreInLine, (proc, kv_parse_line-proc), tt) (refl, refl, (refl, refl, tt)) ok-Ends

proc-IsWireLine : IsWireLine proc
unfolding is_name all_ident equal has_key is_number skip_minus skip_int skip_digits skip_fraction
    skip_exponent
proc-IsWireLine = record {
  tag = refl;
  not_ok = refl;
  not_err = refl;
  fields = ((refl, record { bare = omega arith; number = refl; short = omega arith }), refl, tt);
  few = omega arith;
  short = omega arith;
  no_code = refl;
  no_reason = refl;
}

kv_parse_line-line_text_example : kv_parse_line (line_text proc) ≡ record_line proc
kv_parse_line-line_text_example = kv_parse_line-line_text proc proc-IsWireLine
