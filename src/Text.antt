-- ===== src/Text.antt =====
-- What the program uses of the C library's text functions, on bytes: the conversions of `sscanf`
-- and `snprintf` for unsigned integers, and searches such as `memchr` and `strcspn`.
pub mod Print
pub mod Search
use cs370_term_project.Prelude.{
  ℕ, zero, suc, ◌+◌, ◌-◌, ◌*◌, ◌/◌, ◌%◌, ◌^◌, Bool, true, false, ◌&&◌, ◌||◌, Option, none, some,
  List, [], ◌∷◌, ◌++◌, ltb, leb, ◌==◌, if◌then◌else◌, length, take, drop, replicate, min,
}
use cs370_term_project.Prelude.Bytes.{Bytes}
use Prim.Native.Char.{code}
use Prim.Native.String.{String}

abbrev pub is_digit : ℕ → Bool
is_digit c = leb b'0' c && leb c b'9'

-- isspace in the C locale
abbrev pub is_space : ℕ → Bool
is_space c = c == b' ' || leb b'\t' c && leb c b'\r'

-- memcmp(xs, ys, n) == 0 on ranges of the same length, and strcmp(xs, ys) == 0
unfoldable pub equal : Bytes → Bytes → Bool
equal [] [] = true
equal (x ∷ xs) (y ∷ ys) = x == y && equal xs ys
equal _ _ = false

-- The place of a first byte: here, or one behind where it is in the rest.
unfoldable pub place : Bool → Option ℕ → Option ℕ
place true o = some 0
place false none = none
place false (some n) = some (n + 1)

-- The place of the first byte `c`, if there is one (memchr).
unfoldable pub find_byte : ℕ → Bytes → Option ℕ
find_byte c [] = none
find_byte c (x ∷ xs) = place (x == c) (find_byte c xs)

-- The value of a digit in bases up to 16.
unfoldable pub digit_value : ℕ → Option ℕ
digit_value c =
    if is_digit c
    then some (c - b'0')
    else if leb b'a' c && leb c b'f'
    then some (c - b'a' + 10)
    else if leb b'A' c && leb c b'F'
    then some (c - b'A' + 10)
    else none

-- A digit of the given base.
unfoldable pub digit_in : ℕ → ℕ → Option ℕ
unfolding digit_value
digit_in base c = elim (digit_value c) [
  | none ↦ none
  | some d ↦ if ltb d base then some d else none
]

abbrev pub ulong_max : ℕ
ulong_max = 2 ^ 64 - 1

-- strtoul's loop over the digits: how many there are, their value, which stays at 2^64 where it is out
-- of range, and the rest.
unfoldable pub read_digits : ℕ → ℕ → Bytes → ℕ → ℕ × ℕ × Bytes
read_digits base acc [] count = (count, acc, [])
read_digits base acc (c ∷ cs) count = elim (digit_in base c) [
  | none ↦ (count, acc, c ∷ cs)
  | some d ↦ read_digits base (min (acc * base + d) (2 ^ 64)) cs (count + 1)
]

pub skip_space : Bytes → Bytes
skip_space [] = []
skip_space (c ∷ cs) = elim (is_space c) [ true ↦ skip_space cs | false ↦ c ∷ cs ]

-- An optional sign: whether it is a minus, and the rest.
abbrev pub read_sign : Bytes → Bool × Bytes
read_sign [] = (false, [])
read_sign (c ∷ cs) =
    if c == b'-' then (true, cs) else if c == b'+' then (false, cs) else (false, c ∷ cs)

-- An optional `0x` in base 16.
abbrev pub skip_prefix : ℕ → Bytes → Bytes
skip_prefix base (z ∷ x ∷ cs) =
    if base == 16 && (z == b'0' && (x == b'x' || x == b'X')) then cs else z ∷ x ∷ cs
skip_prefix base cs = cs

-- The value with its sign; one that is out of range is ULONG_MAX, whatever its sign.
abbrev pub signed : Bool → ℕ → ℕ
signed negative v =
    if ltb ulong_max v then ulong_max else if negative then (2 ^ 64 - v) % 2 ^ 64 else v

-- At least one digit, or the conversion fails.
finish_number : Bool → ℕ × ℕ × Bytes → Option (ℕ × Bytes)
finish_number negative (zero, v, rest) = none
finish_number negative (suc n, v, rest) = some (signed negative v, rest)

-- `%lu` or `%lx`: white space, then a number of at most `width` characters.
pub scan_number : ℕ → ℕ → Bytes → Option (ℕ × Bytes)
unfolding finish_number read_digits digit_in skip_space
scan_number base width input =
    let text = skip_space input in
    let (negative, digits) = read_sign (take width text) in
    elim (finish_number negative (read_digits base 0 (skip_prefix base digits) 0)) [
      | none ↦ none
      | some (v, rest) ↦ some (v, rest ++ drop width text)
    ]

-- A literal of a format: white space in it stands for any amount of white space.
pub scan_literal : Bytes → Bytes → Option Bytes
unfolding skip_space
scan_literal [] input = some input
scan_literal (f ∷ fs) input = elim (is_space f) [
  | true ↦ scan_literal fs (skip_space input)
  | false ↦ elim input [
    | [] ↦ none
    | c ∷ cs ↦ elim (c == f) [ true ↦ scan_literal fs cs | false ↦ none ]
  ]
]

-- `%s`: the characters up to white space or a NUL, at most `width` and at least one.
pub scan_word : ℕ → Bytes → Bytes
scan_word zero input = []
scan_word (suc n) [] = []
scan_word (suc n) (c ∷ cs) = if is_space c || c == 0 then [] else c ∷ scan_word n cs

-- The character of a digit below 16, as `%x` prints it.
abbrev pub digit_char : ℕ → ℕ
digit_char d = if ltb d 10 then b'0' + d else b'a' + (d - 10)

-- The digits of `v` in front of `rest`, with fuel for as many digits as there are.
unfoldable pub print_digits : ℕ → ℕ → ℕ → Bytes → Bytes
print_digits zero base v rest = rest
print_digits (suc fuel) base v rest =
    let here : Bytes = digit_char (v % base) ∷ rest in
    let more = print_digits fuel base (v / base) here in if v / base == 0 then here else more

-- `%lu` and `%lx` of a 64-bit value: 20 digits are enough for either.
abbrev pub print_number : ℕ → ℕ → Bytes
print_number base v = print_digits 20 base v []

-- `%016lx`
abbrev pub pad_zeros : ℕ → Bytes → Bytes
pad_zeros width text = replicate (width - length text) b'0' ++ text

-- The bytes of a string constant of the source.
abbrev pub codes : String → Bytes
codes String.[] = []
codes (String.◌∷◌ c s) = code c ∷ codes s

-- Whether a loop over all bytes finds none that fails its test.
unfoldable pub all_bytes : (ℕ → Bool) → Bytes → Bool
all_bytes ok [] = true
all_bytes ok (c ∷ cs) = ok c && all_bytes ok cs

unfoldable pub starts_with : Bytes → Bytes → Bool
starts_with [] cs = true
starts_with (p ∷ ps) [] = false
starts_with (p ∷ ps) (c ∷ cs) = p == c && starts_with ps cs

-- The place of the first copy of a text that is not empty (memmem).
unfoldable pub find_text : Bytes → Bytes → Option ℕ
find_text p [] = none
find_text p (c ∷ cs) = place (starts_with p (c ∷ cs)) (find_text p cs)

-- Pieces of text behind one another, as a format puts them.
abbrev pub join : List Bytes → Bytes
join [] = []
join (t ∷ ts) = t ++ join ts
