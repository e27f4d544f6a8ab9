-- ===== src/Kv/Wire.antt =====
-- The text of a line in the reply format, and of its tokens.
use cs370_term_project.Prelude.{
  ℕ, suc, ◌+◌, ◌-◌, ◌≤◌, ◌<◌, ◌≡◌, ◌≢◌, Bool, true, false, none, some, List, [], ◌∷◌, ◌++◌, arith,
  refl, sym, subst, ap, ap₂, ◌∙◌, length, take, drop, get_or, length-append, append_assoc,
}
use cs370_term_project.Prelude.Bytes.{Bytes}
use cs370_term_project.Text.{codes, equal}
use cs370_term_project.Text.Search.{Without, find_byte-none, take_first}
use cs370_term_project.Json.{
  is_number, skip_minus, skip_int, skip_digits, skip_fraction, skip_exponent,
}
use cs370_term_project.Kv.{
  ValueType, str, num, null, Field, is_name, all_ident, token_len, has_key, has_byte, bare_value,
  quoted_value, value_of, max_name, max_value,
}

-- What may stand between double quotes.
abbrev pub IsQuotable : Bytes → Type 0
IsQuotable [] = Unit
IsQuotable (c ∷ cs) = (0x20 ≤ c) × (c < 0x7f) × (c ≢ b'"') × (c ≢ b'\\') × IsQuotable cs

-- What may stand without.
abbrev pub IsBare : Bytes → Type 0
IsBare [] = Unit
IsBare (c ∷ cs) = (0x20 < c) × (c < 0x7f) × (c ≢ b'"') × IsBare cs

-- A number, in less than the size of a value.
pub record IsNumber (v : Bytes) : Type 0 where
  pub bare : IsBare v
  pub number : is_number v ≡ true
  pub short : length v < max_value

abbrev pub null_text : Bytes
null_text = codes "null"

abbrev pub IsWireValue : ValueType → Bytes → Type 0
IsWireValue str v = IsQuotable v × (length v < max_value)
IsWireValue num v = IsNumber v
IsWireValue null v = v ≡ null_text

abbrev pub IsWireField : Field → Type 0
IsWireField f = (is_name f.key max_name ≡ true) × IsWireValue f.type f.val

-- Fields behind others, no key twice.
abbrev pub AreWireFields : List Field → List Field → Type 0
AreWireFields before [] = Unit
AreWireFields before (f ∷ fs) =
    IsWireField f × (has_key f.key before ≡ false) × AreWireFields (before ++ f ∷ []) fs

abbrev pub value_text : ValueType → Bytes → Bytes
value_text str v = b'"' ∷ (v ++ b'"' ∷ [])
value_text num v = v
value_text null v = v

abbrev pub field_body : Field → Bytes
field_body f = f.key ++ b'=' ∷ value_text f.type f.val

abbrev pub fields_text : List Field → Bytes
fields_text [] = []
fields_text (f ∷ fs) = b' ' ∷ (field_body f ++ fields_text fs)

-- The end of a token: the end of the line or a space.
abbrev pub AtSpace : Bytes → Type 0
AtSpace [] = Unit
AtSpace (c ∷ cs) = c ≡ b' '

pub fields_text-AtSpace : (fs : List Field) → AtSpace (fields_text fs)
fields_text-AtSpace [] = tt
fields_text-AtSpace (f ∷ fs) = refl

pub all_ident-IsBare : (s : Bytes) → all_ident s ≡ true → IsBare s
unfolding all_ident
all_ident-IsBare [] h = tt
all_ident-IsBare (c ∷ cs) h =
    (ground arith, ground arith, ground arith, all_ident-IsBare cs (ground arith))

pub IsBare-Without : (s : Bytes) → IsBare s → Without b' ' s
IsBare-Without [] h = tt
IsBare-Without (c ∷ cs) (a, b, d, h) = (omega arith, IsBare-Without cs h)

token_len-space : (r : Bytes) → AtSpace r → token_len false r ≡ 0
unfolding token_len
token_len-space [] h = refl
token_len-space (c ∷ cs) h = ground arith

token_len-bare : (s r : Bytes) → IsBare s → token_len false (s ++ r) ≡ length s + token_len false r
unfolding token_len
token_len-bare [] r h = omega arith
token_len-bare (c ∷ cs) r (a, b, d, h) = ground (arith, token_len-bare cs r h)

token_len-quotable :
    (s r : Bytes) → IsQuotable s → token_len true (s ++ r) ≡ length s + token_len true r
unfolding token_len
token_len-quotable [] r h = omega arith
token_len-quotable (c ∷ cs) r (a, b, d, e, h) = ground (arith, token_len-quotable cs r h)

token_len-quoted :
    (s r : Bytes)
    → IsQuotable s
    → AtSpace r
    → token_len false (b'"' ∷ (s ++ b'"' ∷ r)) ≡ 2 + length s
unfolding token_len
token_len-quoted s r h e = omega (arith, token_len-quotable s (b'"' ∷ r) h, token_len-space r e)

null-IsBare : IsBare null_text
null-IsBare = omega arith

token_len-value :
    (type : ValueType) (v r : Bytes)
    → IsWireValue type v
    → AtSpace r
    → token_len false (value_text type v ++ r) ≡ length (value_text type v)
token_len-value str v r (h, l) e =
    ap (λ (t : Bytes). token_len false (b'"' ∷ t)) (append_assoc v (b'"' ∷ []) r)
    ∙ token_len-quoted v r h e
    ∙ omega (arith, length-append v (b'"' ∷ []))
token_len-value num v r h e = omega (arith, token_len-bare v r h.bare, token_len-space r e)
token_len-value null v r h e =
    omega (arith, token_len-bare v r (subst IsBare (sym h) null-IsBare), token_len-space r e)

pub is_name-ident : (s : Bytes) (max : ℕ) → is_name s max ≡ true → all_ident s ≡ true
unfolding is_name
is_name-ident s max h = ground arith

-- A field is one token.
pub token_len-field :
    (f : Field) (r : Bytes)
    → IsWireField f
    → AtSpace r
    → token_len false (field_body f ++ r) ≡ length (field_body f)
token_len-field f r (n, h) e =
    ap (token_len false) (append_assoc f.key (b'=' ∷ value_text f.type f.val) r)
    ∙ token_len-bare f.key (b'=' ∷ (value_text f.type f.val ++ r))
        (all_ident-IsBare f.key (is_name-ident f.key max_name n))
    ∙ omega (
      arith,
      token_len-bare (b'=' ∷ []) (value_text f.type f.val ++ r) (omega arith),
      token_len-value f.type f.val r h e,
      length-append f.key (b'=' ∷ value_text f.type f.val),
    )

IsQuotable-Without : (s : Bytes) → IsQuotable s → Without b'"' s × Without b'\\' s
IsQuotable-Without [] h = (tt, tt)
IsQuotable-Without (c ∷ cs) (a, b, d, e, h) =
    ((d, (IsQuotable-Without cs h).0), (e, (IsQuotable-Without cs h).1))

last-append : (s : Bytes) (c : ℕ) → get_or (s ++ c ∷ []) (length s) 0 ≡ c
last-append [] c = refl
last-append (x ∷ xs) c = last-append xs c

has_byte-none : (c : ℕ) (s : Bytes) → Without c s → has_byte c s ≡ false
has_byte-none c s w = ap (λ o. elim o [ none ↦ false | some n ↦ true ]) (find_byte-none c s w)

-- A text between double quotes that does not have what a value may not have.
quoted_value-inner :
    (val : Bytes)
    → 2 ≤ length val
    → get_or val (length val - 1) 0 ≡ b'"'
    → length (take (length val - 2) (drop 1 val)) < max_value
    → has_byte b'"' (take (length val - 2) (drop 1 val)) ≡ false
    → has_byte b'\\' (take (length val - 2) (drop 1 val)) ≡ false
    → quoted_value val ≡ some (str, take (length val - 2) (drop 1 val))
unfolding quoted_value
quoted_value-inner val p e l q b = ground (arith, p, e, l, q, b)

value_of-str :
    (v : Bytes)
    → IsQuotable v
    → length v < max_value
    → value_of (b'"' ∷ (v ++ b'"' ∷ [])) ≡ some (str, v)
unfolding value_of
value_of-str v h l =
    quoted_value-inner val (omega (arith, len))
      (ap (λ n. get_or val n 0) {y = suc (length v)} (omega (arith, len)) ∙ last-append v b'"')
      (omega (arith, ap length inner))
      (ap (has_byte b'"') inner ∙ has_byte-none b'"' v (IsQuotable-Without v h).0)
      (ap (has_byte b'\\') inner ∙ has_byte-none b'\\' v (IsQuotable-Without v h).1)
    ∙ ap (λ (t : Bytes). some (str, t)) inner
  where
    val : Bytes
    val = b'"' ∷ (v ++ b'"' ∷ [])

    len : length val ≡ length v + 2
    len = omega (arith, length-append v (b'"' ∷ []))

    inner : take (length val - 2) (drop 1 val) ≡ v
    inner = ap (λ n. take n (v ++ b'"' ∷ [])) (omega (arith, len)) ∙ take_first v (b'"' ∷ [])

bare-value_of : (v : Bytes) → IsBare v → value_of v ≡ bare_value v
unfolding value_of
bare-value_of [] h = refl
bare-value_of (c ∷ cs) (a, b, d, h) = ground arith

equal_sound : (xs ys : Bytes) → equal xs ys ≡ true → xs ≡ ys
unfolding equal
equal_sound [] [] h = refl
equal_sound [] (y ∷ ys) h = absurd (cc h)
equal_sound (x ∷ xs) [] h = absurd (cc h)
equal_sound (x ∷ xs) (y ∷ ys) h = ap₂ ◌∷◌ (ground arith) (equal_sound xs ys (ground arith))

null-number : is_number null_text ≡ false
unfolding is_number skip_minus skip_int skip_digits skip_fraction skip_exponent
null-number = refl

bare_value-null : bare_value null_text ≡ some (null, null_text)
unfolding bare_value equal
bare_value-null = refl

bare_value-num : (v : Bytes) → IsNumber v → bare_value v ≡ some (num, v)
unfolding bare_value
bare_value-num v h = go (equal v null_text) refl
  where
    go : (b : Bool) → equal v null_text ≡ b → bare_value v ≡ some (num, v)
    go true e = absurd (cc (null-number, h.number, ap is_number (equal_sound v null_text e)))
    go false e = ground (arith, h.number, h.short)

-- The value is read back with its type.
pub value_of-text :
    (type : ValueType) (v : Bytes)
    → IsWireValue type v
    → value_of (value_text type v) ≡ some (type, v)
value_of-text str v (h, l) = value_of-str v h l
value_of-text num v h = bare-value_of v h.bare ∙ bare_value-num v h
value_of-text null v h =
    subst (λ (t : Bytes). value_of t ≡ some (null, t)) (sym h)
      (bare-value_of null_text null-IsBare ∙ bare_value-null)
