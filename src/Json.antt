-- ===== src/Json.antt =====
-- src/interface/json.c and include/interface/json.h: statusd's JSON writer.
-- `buf` is the text written so far, without its NUL, so `len` is its length; the open containers are
-- a list with the innermost first, so `depth` is its length. A NULL string is `none`.
pub mod Calls
mod Tests
use cs370_term_project.Prelude.{
  ℕ, zero, suc, ◌+◌, ◌-◌, ◌/◌, ◌%◌, Bool, true, false, not, ◌&&◌, ◌||◌, Option, none, some, List,
  [], ◌∷◌, ◌++◌, ltb, leb, ◌==◌, if◌then◌else◌, length,
}
use cs370_term_project.Prelude.Bytes.{Bytes}
use cs370_term_project.Prelude.Words.{sub64}
use cs370_term_project.Text.{is_digit, digit_char, print_number}

abbrev pub max_depth : ℕ
max_depth = 8

-- is_object[i] and has_item[i] of an open container
pub record Level : Type 0 where
  pub is_object : Bool
  pub has_item : Bool

-- json_t
pub record Json : Type 0 where
  pub cap : ℕ
  pub buf : Bytes
  pub levels : List Level
  pub after_key : Bool
  pub done : Bool
  pub failed : Bool

abbrev pub fail : Json → Json
fail j = record j { failed = true }

unfoldable pub put : Json → Bytes → Json
put j text =
    if j.failed
    then j
    else if leb (sub64 j.cap (length j.buf)) (length text)
    then fail j
    else record j { buf = j.buf ++ text }

unfoldable pub put_char : Json → ℕ → Json
put_char j c = put j (c ∷ [])

-- The comma in front of an item that is not the first, and the mark that there is one.
unfoldable pub next_item : Json → Level → List Level → Json
next_item j top rest =
    let k = if top.has_item then put_char j b',' else j in
    record k { levels = record top { has_item = true } ∷ rest }

-- Whether a value may go here, with the writer.
unfoldable pub begin_at : Json → List Level → Bool × Json
begin_at j [] = if j.done then (false, fail j) else (true, j)
begin_at j (top ∷ rest) =
    if top.is_object
    then if not j.after_key then (false, fail j) else (true, record j { after_key = false })
    else let k = next_item j top rest in (not k.failed, k)

unfoldable pub begin_value : Json → Bool × Json
begin_value j = if j.failed then (false, j) else begin_at j j.levels

unfoldable pub end_value : Json → Json
end_value j = if length j.levels == 0 then record j { done = true } else j

-- The body of a call behind `if (!begin_value(j)) return;`.
unfoldable pub when_begun : (Json → Json) → Bool × Json → Json
when_begun body (false, j) = j
when_begun body (true, j) = body j

unfoldable pub put_scalar : Json → Bytes → Json
put_scalar j text = when_begun (λ k. end_value (put k text)) (begin_value j)

-- `\u%04x` of a byte
abbrev pub unicode_escape : ℕ → Bytes
unicode_escape c = b'\\' ∷ b'u' ∷ b'0' ∷ b'0' ∷ digit_char (c / 16) ∷ digit_char (c % 16) ∷ []

-- How a byte below 0x80 is written.
unfoldable pub escape : ℕ → Bytes
escape c =
    if c == b'"'
    then b'\\' ∷ b'"' ∷ []
    else if c == b'\\'
    then b'\\' ∷ b'\\' ∷ []
    else if c == 8
    then b'\\' ∷ b'b' ∷ []
    else if c == 12
    then b'\\' ∷ b'f' ∷ []
    else if c == b'\n'
    then b'\\' ∷ b'n' ∷ []
    else if c == b'\r'
    then b'\\' ∷ b'r' ∷ []
    else if c == b'\t'
    then b'\\' ∷ b't' ∷ []
    else if ltb c 0x20 || c == 0x7f
    then unicode_escape c
    else c ∷ []

-- The loop over the string, up to its NUL, and the closing quote.
unfoldable pub put_escaped : Json → Bytes → Json
put_escaped j [] = put_char j b'"'
put_escaped j (c ∷ cs) =
    let rest = put_escaped (put j (escape c)) cs in
    if j.failed then put_char j b'"' else if leb 0x80 c then fail j else rest

unfoldable pub put_quoted : Json → Option Bytes → Json
put_quoted j none = fail j
put_quoted j (some s) = put_escaped (put_char j b'"') s

-- json_init; a first NUL is written where there is room for it.
unfoldable pub json_init : ℕ → Json
json_init cap = record {
  cap = cap;
  buf = [];
  levels = [];
  after_key = false;
  done = false;
  failed = cap == 0;
}

abbrev pub opening : Bool → ℕ
opening object = if object then b'{' else b'['

abbrev pub closing : Bool → ℕ
closing object = if object then b'}' else b']'

unfoldable pub open_level : Bool → Json → Json
open_level object j =
    if leb max_depth (length j.levels)
    then fail j
    else put_char (record j { levels = record { is_object = object; has_item = false } ∷ j.levels })
        (opening object)

unfoldable pub begin_container : Json → Bool → Json
begin_container j object = when_begun (open_level object) (begin_value j)

abbrev pub same_bool : Bool → Bool → Bool
same_bool a b = if a then b else not b

unfoldable pub close_level : Json → Bool → List Level → Json
close_level j object [] = fail j
close_level j object (top ∷ rest) =
    if not (same_bool top.is_object object) || j.after_key
    then fail j
    else end_value (put_char (record j { levels = rest }) (closing object))

unfoldable pub end_container : Json → Bool → Json
end_container j object = if j.failed then j else close_level j object j.levels

unfoldable pub key_at : Json → Option Bytes → List Level → Json
key_at j none levels = fail j
key_at j (some key) [] = fail j
key_at j (some key) (top ∷ rest) =
    if not top.is_object || j.after_key
    then fail j
    else record (put_char (put_quoted (next_item j top rest) (some key)) b':') { after_key = true }

unfoldable pub json_key : Json → Option Bytes → Json
json_key j key = if j.failed then j else key_at j key j.levels

unfoldable pub json_string : Json → Option Bytes → Json
json_string j s = when_begun (λ k. end_value (put_quoted k s)) (begin_value j)

unfoldable pub json_uint : Json → ℕ → Json
json_uint j v = put_scalar j (print_number 10 v)

-- A negative long long is given by its magnitude.
unfoldable pub json_int : Json → Bool → ℕ → Json
json_int j negative v =
    put_scalar j (if negative then b'-' ∷ print_number 10 v else print_number 10 v)

-- The text that `snprintf` makes of the double, `none` where it is not finite.
unfoldable pub json_double : Json → Option Bytes → Json
json_double j none = fail j
json_double j (some text) = put_scalar j text

unfoldable pub json_bool : Json → Bool → Json
json_bool j true = put_scalar j (b't' ∷ b'r' ∷ b'u' ∷ b'e' ∷ [])
json_bool j false = put_scalar j (b'f' ∷ b'a' ∷ b'l' ∷ b's' ∷ b'e' ∷ [])

unfoldable pub json_null : Json → Json
json_null j = put_scalar j (b'n' ∷ b'u' ∷ b'l' ∷ b'l' ∷ [])

-- json_is_number, one part at a time: each skips what it reads, `none` is `return false`.
unfoldable pub skip_digits : Bytes → Bytes
skip_digits [] = []
skip_digits (c ∷ cs) = elim (is_digit c) [ true ↦ skip_digits cs | false ↦ c ∷ cs ]

unfoldable pub skip_minus : Bytes → Bytes
skip_minus [] = []
skip_minus (c ∷ cs) = if c == b'-' then cs else c ∷ cs

unfoldable pub skip_int : Bytes → Option Bytes
skip_int [] = none
skip_int (c ∷ cs) =
    if c == b'0' then some cs else if is_digit c then some (skip_digits cs) else none

-- At least one digit.
unfoldable pub skip_some_digits : Bytes → Option Bytes
skip_some_digits [] = none
skip_some_digits (c ∷ cs) = if is_digit c then some (skip_digits cs) else none

unfoldable pub skip_fraction : Bytes → Option Bytes
skip_fraction [] = some []
skip_fraction (c ∷ cs) = if c == b'.' then skip_some_digits cs else some (c ∷ cs)

unfoldable pub skip_sign : Bytes → Bytes
skip_sign [] = []
skip_sign (c ∷ cs) = if c == b'+' || c == b'-' then cs else c ∷ cs

unfoldable pub skip_exponent : Bytes → Option Bytes
skip_exponent [] = some []
skip_exponent (c ∷ cs) =
    if c == b'e' || c == b'E' then skip_some_digits (skip_sign cs) else some (c ∷ cs)

abbrev pub at_end : Option Bytes → Bool
at_end (some []) = true
at_end (some (c ∷ cs)) = false
at_end none = false

unfoldable pub is_number : Bytes → Bool
is_number text = at_end (elim (skip_int (skip_minus text)) [
  | none ↦ none
  | some p ↦ elim (skip_fraction p) [ none ↦ none | some q ↦ skip_exponent q ]
])

unfoldable pub json_is_number : Option Bytes → Bool
json_is_number none = false
json_is_number (some text) = is_number text

unfoldable pub json_number : Json → Option Bytes → Json
json_number j none = fail j
json_number j (some text) = if not (is_number text) then fail j else put_scalar j text

-- `none` is -1.
unfoldable pub json_finish : Json → Option ℕ
json_finish j =
    if j.failed || not (length j.levels == 0) || not j.done then none else some (length j.buf)
