-- ===== src/Kv.antt =====
-- src/interface/kv.c and include/interface/kv.h: the reply lines of the control socket.
-- The line is cleared first, so a field that is not set is empty; text in a fixed-size array is the
-- list of its bytes in front of the NUL.
pub mod Sizes
pub mod Reply
pub mod Wire
pub mod Fields
pub mod RoundTrip
pub mod Decimal
mod Tests
use cs370_term_project.Prelude.{
  ℕ, zero, suc, ◌+◌, ◌-◌, Bool, true, false, not, ◌&&◌, ◌||◌, Option, none, some, List, [], ◌∷◌,
  ◌++◌, ltb, leb, ◌==◌, if◌then◌else◌, length, take, drop, get_or,
}
use cs370_term_project.Prelude.Bytes.{Bytes}
use cs370_term_project.Text.{equal, find_byte, is_digit}
use cs370_term_project.Json.{is_number}

abbrev pub max_line : ℕ
max_line = 512

abbrev pub max_fields : ℕ
max_fields = 16

abbrev pub max_name : ℕ
max_name = 24

abbrev pub max_value : ℕ
max_value = 96

-- kv_type_t
pub data ValueType : Type 0 where
  str num null : ValueType

-- kv_field_t
pub record Field : Type 0 where
  pub key : Bytes
  pub val : Bytes
  pub type : ValueType

-- kv_line_t
pub record Line : Type 0 where
  pub tag : Bytes
  pub f : List Field
  pub err_code : Bytes
  pub err_reason : Bytes

-- kv_kind_t, with the line where it has a meaning; KV_INCOMPLETE is `none` of `kv_reply_next`.
pub data Parsed : Type 0 where
  record_line : Line → Parsed
  ok_line : Parsed
  err_line : Line → Parsed
  bad : Parsed

abbrev pub empty_line : Line
empty_line = record { tag = []; f = []; err_code = []; err_reason = [] }

abbrev pub is_ident : ℕ → Bool
is_ident c = leb b'a' c && leb c b'z' || is_digit c || c == b'_'

unfoldable pub all_ident : Bytes → Bool
all_ident [] = true
all_ident (c ∷ cs) = is_ident c && all_ident cs

unfoldable pub is_name : Bytes → ℕ → Bool
is_name s max = if length s == 0 || leb max (length s) then false else all_ident s

-- The reason, behind a code that is a name.
unfoldable pub with_reason : Bytes → Bytes → Parsed
with_reason code reason =
    if length reason == 0 || leb max_value (length reason)
    then bad
    else if get_or reason 0 0 == b' ' || get_or reason (length reason - 1) 0 == b' '
    then bad
    else err_line (record empty_line { err_code = code; err_reason = reason })

-- The text behind `err `, with the place of its first space.
unfoldable pub parse_err : Bytes → Option ℕ → Parsed
parse_err rest none =
    if not (is_name rest max_name) then bad else err_line (record empty_line { err_code = rest })
parse_err rest (some n) =
    if not (is_name (take n rest) max_name)
    then bad
    else with_reason (take n rest) (drop (n + 1) rest)

unfoldable pub token_len : Bool → Bytes → ℕ
token_len quoted [] = 0
token_len quoted (c ∷ cs) =
    let more = token_len (if c == b'"' then not quoted else quoted) cs in
    if quoted || not (c == b' ') then suc more else 0

unfoldable pub has_key : Bytes → List Field → Bool
has_key key [] = false
has_key key (f ∷ fs) = equal f.key key || has_key key fs

abbrev pub has_byte : ℕ → Bytes → Bool
has_byte c s = elim (find_byte c s) [ none ↦ false | some n ↦ true ]

unfoldable pub bare_value : Bytes → Option (ValueType × Bytes)
bare_value val =
    if leb max_value (length val)
    then none
    else if equal val (b'n' ∷ b'u' ∷ b'l' ∷ b'l' ∷ [])
    then some (null, val)
    else if not (is_number val)
    then none
    else some (num, val)

-- A value that starts with a double quote: what stands between it and the last byte.
unfoldable pub quoted_value : Bytes → Option (ValueType × Bytes)
quoted_value val =
    let inner = take (length val - 2) (drop 1 val) in
    if ltb (length val) 2 || not (get_or val (length val - 1) 0 == b'"')
    then none
    else if leb max_value (length inner) || has_byte b'"' inner || has_byte b'\\' inner
    then none
    else some (str, inner)

unfoldable pub value_of : Bytes → Option (ValueType × Bytes)
value_of [] = bare_value []
value_of (c ∷ cs) = if c == b'"' then quoted_value (c ∷ cs) else bare_value (c ∷ cs)

unfoldable pub put_field : Bytes → Line → Option (ValueType × Bytes) → Option Line
put_field key line none = none
put_field key line (some (type, val)) =
    some (record line { f = line.f ++ record { key = key; val = val; type = type } ∷ [] })

-- A token with the place of its `=`; `none` is false.
unfoldable pub add_field : Bytes → Option ℕ → Line → Option Line
add_field t none line = none
add_field t (some eq) line =
    if leb max_fields (length line.f)
    then none
    else if not (is_name (take eq t) max_name)
    then none
    else if has_key (take eq t) line.f
    then none
    else put_field (take eq t) line (value_of (drop (eq + 1) t))

-- The loop over the fields, from a separating space on; `fuel` bounds the rounds.
unfoldable pub on_field : (Bytes → Line → Parsed) → Bytes → Option Line → Parsed
on_field next rest none = bad
on_field next rest (some line) = next rest line

unfoldable pub parse_fields : ℕ → Bytes → Line → Parsed
parse_fields fuel [] line = record_line line
parse_fields zero (space ∷ t) line = bad
parse_fields (suc fuel) (space ∷ t) line =
    let n = token_len false t in
    let rest =
      on_field (parse_fields fuel) (drop n t)
        (add_field (take n t) (find_byte b'=' (take n t)) line) in
    if n == 0 then bad else rest

unfoldable pub is_printable : Bytes → Bool
is_printable [] = true
is_printable (c ∷ cs) = leb 0x20 c && ltb c 0x7f && is_printable cs

abbrev pub ok_text : Bytes
ok_text = b'o' ∷ b'k' ∷ []

abbrev pub err_text : Bytes
err_text = b'e' ∷ b'r' ∷ b'r' ∷ []

-- A line that is neither `ok` nor starts with `err`, with the length of its head.
unfoldable pub parse_record : Bytes → ℕ → Parsed
parse_record s head =
    if not (is_name (take head s) max_name) || equal (take head s) ok_text
    then bad
    else parse_fields (length s) (drop head s) (record empty_line { tag = take head s })

-- A line that is not `ok`, with its first space; its head goes up to it, or to the end.
unfoldable pub parse_head : Bytes → Option ℕ → Parsed
parse_head s none = if equal s err_text then bad else parse_record s (length s)
parse_head s (some n) =
    if equal (take n s) err_text
    then parse_err (drop (n + 1) s) (find_byte b' ' (drop (n + 1) s))
    else parse_record s n

unfoldable pub kv_parse_line : Bytes → Parsed
kv_parse_line s =
    if length s == 0 || ltb max_line (length s)
    then bad
    else if not (is_printable s)
    then bad
    else if equal s ok_text
    then ok_line
    else parse_head s (find_byte b' ' s)

-- The line in front of a newline, without a carriage return at its end.
abbrev pub strip_cr : Bytes → Bytes
strip_cr line =
    if ltb 0 (length line) && get_or line (length line - 1) 0 == b'\r'
    then take (length line - 1) line
    else line

unfoldable pub next_at : Bytes → Option ℕ → Option (Parsed × Bytes)
next_at text none = none
next_at text (some n) = some (kv_parse_line (strip_cr (take n text)), drop (n + 1) text)

-- What is left behind the line, beside what it is; `none` is KV_INCOMPLETE.
unfoldable pub kv_reply_next : Bytes → Option (Parsed × Bytes)
kv_reply_next text = next_at text (find_byte b'\n' text)

abbrev pub at_end : Parsed → Bytes → Option Parsed
at_end p [] = some p
at_end p (c ∷ cs) = some bad

-- The loop over a reply's lines; `none` is KV_INCOMPLETE.
unfoldable pub on_line : (Bytes → Option Parsed) → Option (Parsed × Bytes) → Option Parsed
on_line next none = none
on_line next (some (record_line line, rest)) = next rest
on_line next (some (ok_line, rest)) = at_end ok_line rest
on_line next (some (err_line line, rest)) = at_end (err_line line) rest
on_line next (some (bad, rest)) = some bad

unfoldable pub check_lines : ℕ → Bytes → Option Parsed
check_lines zero text = none
check_lines (suc fuel) text = on_line (check_lines fuel) (kv_reply_next text)

-- Every line takes at least its newline, so a round for each byte, and one for the end, is enough.
unfoldable pub kv_reply_check : Bytes → Option Parsed
kv_reply_check text = check_lines (suc (length text)) text

unfoldable pub get_from : Bytes → List Field → Option Bytes
get_from key [] = none
get_from key (f ∷ fs) = if equal f.key key then some f.val else get_from key fs

unfoldable pub kv_get : Line → Bytes → Option Bytes
kv_get line key = get_from key line.f
