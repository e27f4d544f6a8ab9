-- ===== src/Json/Tests.antt =====
-- A small document, an escape, a failure, and the theorems at them.
use cs370_term_project.Prelude.{◌≡◌, true, false, none, some, List, [], ◌∷◌, arith, refl}
use cs370_term_project.Json.{
  Json, put, put_char, next_item, begin_at, begin_value, end_value, when_begun, put_scalar, escape,
  put_escaped, put_quoted, json_init, open_level, begin_container, close_level, end_container,
  key_at, json_key, json_bool, json_finish, is_number, skip_int, skip_minus, skip_digits,
  skip_some_digits, skip_fraction, skip_sign, skip_exponent,
}
use cs370_term_project.Json.Calls.{
  Call, begins, ends, key, bool, call, calls, IsBounded, calls-IsBounded, calls-failed,
}

abbrev document : List Call
document = begins true ∷ key (some (b'o' ∷ b'k' ∷ [])) ∷ bool true ∷ ends true ∷ []

-- {"ok":true} takes eleven bytes and a NUL.
calls-document : json_finish (calls (json_init 12) document) ≡ some 11
unfolding calls call json_init json_finish begin_container begin_value begin_at when_begun
    open_level put_char put json_key key_at next_item put_quoted put_escaped escape json_bool
    put_scalar end_value end_container close_level
calls-document = refl

calls-document_small : json_finish (calls (json_init 11) document) ≡ none
unfolding calls call json_init json_finish begin_container begin_value begin_at when_begun
    open_level put_char put json_key key_at next_item put_quoted put_escaped escape json_bool
    put_scalar end_value end_container close_level
calls-document_small = refl

is_number-digits : is_number (b'-' ∷ b'1' ∷ b'2' ∷ b'.' ∷ b'5' ∷ b'e' ∷ b'+' ∷ b'3' ∷ []) ≡ true
unfolding is_number skip_int skip_minus skip_digits skip_some_digits skip_fraction skip_sign
    skip_exponent
is_number-digits = refl

is_number-leading_zero : is_number (b'0' ∷ b'1' ∷ []) ≡ false
unfolding is_number skip_int skip_minus skip_fraction skip_exponent
is_number-leading_zero = refl

calls-IsBounded_example :
    IsBounded (calls (json_init 12) document) × ((calls (json_init 12) document).cap ≡ 12)
calls-IsBounded_example = calls-IsBounded 12 document (omega arith)

abbrev broken : Json
broken = record (json_init 4) { failed = true }

calls-failed_example :
    ((calls broken document).buf ≡ broken.buf) × (json_finish (calls broken document) ≡ none)
calls-failed_example = calls-failed broken document refl
