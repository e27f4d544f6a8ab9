-- ===== src/Http.antt =====
-- src/interface/http.c: percent-decoding, the check of a decoded path, and the
-- values of a query.
-- What is decoded is the bytes in front of the NUL, so the result's length is the one returned.
pub mod Decode
pub mod Request
pub mod Head
mod Tests
use cs370_term_project.Prelude.{
  ℕ, zero, suc, ◌+◌, ◌-◌, ◌*◌, Bool, true, false, not, ◌&&◌, ◌||◌, Option, none, some, List, [],
  ◌∷◌, ◌++◌, ltb, leb, ◌==◌, if◌then◌else◌, length, take, drop,
}
use cs370_term_project.Prelude.Bytes.{Bytes}
use cs370_term_project.Text.{equal, is_digit}

abbrev pub path_max : ℕ
path_max = 128

unfoldable pub hexval : ℕ → Option ℕ
hexval c =
    if is_digit c
    then some (c - b'0')
    else if leb b'a' c && leb c b'f'
    then some (c - b'a' + 10)
    else if leb b'A' c && leb c b'F'
    then some (c - b'A' + 10)
    else none

-- The byte of two hexadecimal digits, unless it is NUL.
unfoldable pub unescape : Option ℕ → Option ℕ → Option ℕ
unescape none lo = none
unescape (some hi) none = none
unescape (some hi) (some lo) = if hi * 16 + lo == 0 then none else some (hi * 16 + lo)

-- One byte more, if there is room for it and the NUL; `next` is the rest of the loop.
unfoldable pub put_byte : (Bytes → Option Bytes) → ℕ → Bytes → Option ℕ → Option Bytes
put_byte next cap out none = none
put_byte next cap out (some c) = if leb cap (length out + 1) then none else next (out ++ c ∷ [])

abbrev pub plain : Bool → ℕ → ℕ
plain plus_is_space c = if c == b'+' && plus_is_space then b' ' else c

-- The loop, with the bytes that it has written.
unfoldable pub decode_loop : Bool → ℕ → Bytes → Bytes → Option Bytes
decode_loop plus cap [] out = some out
decode_loop plus cap (c ∷ []) out = elim (c == b'%') [
  | true ↦ none
  | false ↦ put_byte some cap out (some (plain plus c))
]
decode_loop plus cap (c ∷ h ∷ []) out = elim (c == b'%') [
  | true ↦ none
  | false ↦ put_byte (decode_loop plus cap (h ∷ [])) cap out (some (plain plus c))
]
decode_loop plus cap (c ∷ h ∷ l ∷ rest) out = elim (c == b'%') [
  | true ↦ put_byte (decode_loop plus cap rest) cap out (unescape (hexval h) (hexval l))
  | false ↦ put_byte (decode_loop plus cap (h ∷ l ∷ rest)) cap out (some (plain plus c))
]

unfoldable pub decode : Bytes → ℕ → Bool → Option Bytes
decode input cap plus_is_space = if cap == 0 then none else decode_loop plus_is_space cap input []

abbrev pub bad_path_byte : ℕ → Bool
bad_path_byte c = ltb c 0x20 || c == 0x7f || c == b'\\'

abbrev pub dot_dot : Bytes
dot_dot = b'.' ∷ b'.' ∷ []

-- The loop over the decoded path, with the segment read so far.
unfoldable pub unsafe_from : Bytes → Bytes → Bool
unsafe_from seg [] = equal seg dot_dot
unsafe_from seg (c ∷ cs) =
    if bad_path_byte c
    then true
    else if c == b'/'
    then equal seg dot_dot || unsafe_from [] cs
    else unsafe_from (seg ++ c ∷ []) cs

unfoldable pub unsafe_decoded : Option Bytes → Bool
unsafe_decoded none = true
unsafe_decoded (some dec) = unsafe_from [] dec

unfoldable pub path_is_unsafe : Bytes → Bool
path_is_unsafe path = unsafe_decoded (decode path path_max false)

abbrev pub first_of : Option Bytes → Option Bytes → Option Bytes
first_of none later = later
first_of (some v) later = some v

-- The value of one pair if its name is the key, with the name read so far.
unfoldable pub pair_value : Bytes → Bytes → Bytes → Option Bytes
pair_value key name [] = if equal name key then some [] else none
pair_value key name (c ∷ cs) =
    if c == b'='
    then if equal name key then some cs else none
    else pair_value key (name ++ c ∷ []) cs

-- The loop over the pairs, with the pair read so far; a query that ends in & has no pair after it.
unfoldable pub find_value : Bytes → Bytes → Bytes → Option Bytes
find_value key [] [] = none
find_value key (b ∷ bs) [] = pair_value key [] (b ∷ bs)
find_value key pair (c ∷ cs) =
    if c == b'&'
    then first_of (pair_value key [] pair) (find_value key [] cs)
    else find_value key (pair ++ c ∷ []) cs

unfoldable pub decode_found : Option Bytes → ℕ → Option Bytes
decode_found none n = none
decode_found (some val) n = decode val n true

unfoldable pub http_query_get : Bytes → Bytes → ℕ → Option Bytes
http_query_get query key n = decode_found (find_value key [] query) n
