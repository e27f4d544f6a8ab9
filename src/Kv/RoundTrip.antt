-- ===== src/Kv/RoundTrip.antt =====
-- A line that is printed in the reply format is read back as it was.
use cs370_term_project.Prelude.{
  ℕ, ◌≤◌, ◌<◌, ◌≡◌, Bool, true, false, ◌&&◌, none, some, List, [], ◌∷◌, ◌++◌, ◌==◌, arith, refl,
  sym, ap, ap₂, ◌∙◌, length, take, drop, length-append, append-nil,
}
use cs370_term_project.Prelude.Bytes.{Bytes}
use cs370_term_project.Text.{equal, find_byte}
use cs370_term_project.Text.Search.{Without, find_byte-none, find_byte-here, take_first, drop_first}
use cs370_term_project.Kv.{
  ValueType, str, num, null, Field, Line, record_line, ok_text, err_text, empty_line, max_name,
  max_fields, max_line, is_name, all_ident, parse_fields, is_printable, parse_record, parse_head,
  kv_parse_line,
}
use cs370_term_project.Kv.Wire.{
  AtSpace, IsBare-Without, IsQuotable, IsBare, IsWireValue, AreWireFields, value_text, field_body,
  fields_text, fields_text-AtSpace, all_ident-IsBare, is_name-ident,
}
use cs370_term_project.Kv.Fields.{parse_fields-text}

-- A line of a record: its tag, and its fields with a space in front of each.
abbrev pub line_text : Line → Bytes
line_text line = line.tag ++ fields_text line.f

-- A record that the format can carry.
pub record IsWireLine (line : Line) : Type 0 where
  pub tag : is_name line.tag max_name ≡ true
  pub not_ok : equal line.tag ok_text ≡ false
  pub not_err : equal line.tag err_text ≡ false
  pub fields : AreWireFields [] line.f
  pub few : length line.f ≤ max_fields
  pub short : length (line_text line) ≤ max_line
  pub no_code : line.err_code ≡ []
  pub no_reason : line.err_reason ≡ []

is_name-positive : (s : Bytes) (max : ℕ) → is_name s max ≡ true → 0 < length s
unfolding is_name
is_name-positive [] max h = absurd (cc h)
is_name-positive (c ∷ cs) max h = omega arith

-- A word that differs from a tag differs from what starts with the tag.
equal-space :
    (s r word : Bytes)
    → AtSpace r
    → all_ident word ≡ true
    → equal s word ≡ false
    → equal (s ++ r) word ≡ false
unfolding equal all_ident
equal-space [] r [] a i h = absurd (cc h)
equal-space [] [] (y ∷ ys) a i h = refl
equal-space [] (c ∷ cs) (y ∷ ys) a i h = ground (arith, a, i)
equal-space (x ∷ xs) r [] a i h = refl
equal-space (x ∷ xs) r (y ∷ ys) a i h = go (x == y) (equal-space xs r ys a (ground (arith, i))) h
  where
    go :
        (b : Bool)
        → (equal xs ys ≡ false → equal (xs ++ r) ys ≡ false)
        → (b && equal xs ys) ≡ false
        → (b && equal (xs ++ r) ys) ≡ false
    go true rest e = rest e
    go false rest e = refl

is_printable-append :
    (xs ys : Bytes)
    → is_printable xs ≡ true
    → is_printable ys ≡ true
    → is_printable (xs ++ ys) ≡ true
unfolding is_printable
is_printable-append [] ys a b = b
is_printable-append (x ∷ xs) ys a b = ground (arith, a, is_printable-append xs ys (ground arith) b)

IsBare-is_printable : (s : Bytes) → IsBare s → is_printable s ≡ true
unfolding is_printable
IsBare-is_printable [] h = refl
IsBare-is_printable (c ∷ cs) (a, b, d, h) = ground (arith, IsBare-is_printable cs h)

IsQuotable-is_printable : (s : Bytes) → IsQuotable s → is_printable s ≡ true
unfolding is_printable
IsQuotable-is_printable [] h = refl
IsQuotable-is_printable (c ∷ cs) (a, b, d, e, h) = ground (arith, IsQuotable-is_printable cs h)

value_text-is_printable :
    (type : ValueType) (v : Bytes) → IsWireValue type v → is_printable (value_text type v) ≡ true
unfolding is_printable
value_text-is_printable str v (h, l) =
    is_printable-append v (b'"' ∷ []) (IsQuotable-is_printable v h) refl
value_text-is_printable num v h = IsBare-is_printable v h.bare
value_text-is_printable null v h = ap is_printable h

name-is_printable : (s : Bytes) → is_name s max_name ≡ true → is_printable s ≡ true
name-is_printable s h = IsBare-is_printable s (all_ident-IsBare s (is_name-ident s max_name h))

fields_text-is_printable :
    (before fs : List Field) → AreWireFields before fs → is_printable (fields_text fs) ≡ true
unfolding is_printable
fields_text-is_printable before [] h = refl
fields_text-is_printable before (f ∷ fs) ((n, v), k, h) =
    is_printable-append (field_body f) (fields_text fs)
      (is_printable-append f.key (b'=' ∷ value_text f.type f.val) (name-is_printable f.key n)
        (value_text-is_printable f.type f.val v))
      (fields_text-is_printable (before ++ f ∷ []) fs h)

-- The head and what follows it, for a text that is cut where the head ends.
parse_record-at :
    (s : Bytes) (n : ℕ)
    → is_name (take n s) max_name ≡ true
    → equal (take n s) ok_text ≡ false
    → parse_record s n ≡ parse_fields (length s) (drop n s) (record empty_line { tag = take n s })
unfolding parse_record
parse_record-at s n h k = ground (arith, h, k)

parse_record-line :
    (line : Line)
    → IsWireLine line
    → parse_record (line_text line) (length line.tag) ≡ record_line line
parse_record-line line w =
    let s : Bytes = line_text line in
    let rest : Bytes = fields_text line.f in
    let front : take (length line.tag) s ≡ line.tag = take_first line.tag rest in
    parse_record-at s (length line.tag) (ap (λ t. is_name t max_name) front ∙ w.tag)
      (ap (λ t. equal t ok_text) front ∙ w.not_ok)
    ∙ ap₂ (λ t d. parse_fields (length s) d (record empty_line { tag = t })) front
        (drop_first line.tag rest)
    ∙ parse_fields-text line.f (length s) (record empty_line { tag = line.tag })
        (omega (arith, length-append line.tag rest)) w.fields (omega (arith, w.few))
    ∙ ap₂ (λ c r. record_line (record line { err_code = c; err_reason = r })) (sym w.no_code)
        (sym w.no_reason)

parse_head-some :
    (s : Bytes) (n : ℕ)
    → equal (take n s) err_text ≡ false
    → parse_head s (some n) ≡ parse_record s n
unfolding parse_head
parse_head-some s n h = ground (arith, h)

parse_head-none :
    (s : Bytes) → equal s err_text ≡ false → parse_head s none ≡ parse_record s (length s)
unfolding parse_head
parse_head-none s h = ground (arith, h)

tag-Without : (line : Line) → IsWireLine line → Without b' ' line.tag
tag-Without line w =
    IsBare-Without line.tag (all_ident-IsBare line.tag (is_name-ident line.tag max_name w.tag))

parse_head-line :
    (line : Line) (fs : List Field)
    → IsWireLine line
    → fs ≡ line.f
    → parse_head (line.tag ++ fields_text fs) (find_byte b' ' (line.tag ++ fields_text fs))
      ≡ parse_record (line.tag ++ fields_text fs) (length line.tag)
unfolding all_ident
parse_head-line line [] w e =
    ap (parse_head (line.tag ++ [])) (
      ap (find_byte b' ') (append-nil line.tag) ∙ find_byte-none b' ' line.tag (tag-Without line w))
    ∙ parse_head-none (line.tag ++ []) (equal-space line.tag [] err_text tt refl w.not_err)
    ∙ ap (parse_record (line.tag ++ [])) (ap length (append-nil line.tag))
parse_head-line line (f ∷ fs) w e =
    let rest : Bytes = field_body f ++ fields_text fs in
    ap (parse_head (line.tag ++ b' ' ∷ rest))
      (find_byte-here b' ' line.tag rest (tag-Without line w))
    ∙ parse_head-some (line.tag ++ b' ' ∷ rest) (length line.tag)
        (ap (λ t. equal t err_text) (take_first line.tag (b' ' ∷ rest)) ∙ w.not_err)

kv_parse_line-record :
    (s : Bytes)
    → 0 < length s
    → length s ≤ max_line
    → is_printable s ≡ true
    → equal s ok_text ≡ false
    → kv_parse_line s ≡ parse_head s (find_byte b' ' s)
unfolding kv_parse_line
kv_parse_line-record s p l h k = ground (arith, p, l, h, k)

pub line_text-is_printable : (line : Line) → IsWireLine line → is_printable (line_text line) ≡ true
line_text-is_printable line w =
    is_printable-append line.tag (fields_text line.f) (name-is_printable line.tag w.tag)
      (fields_text-is_printable [] line.f w.fields)

-- A record that the format can carry is read back from its line: its tag is a name other than `ok`
-- and `err`, it has at most 16 fields, each with a name and a value of its type, no name twice, and
-- the line has at most 512 bytes.
pub kv_parse_line-line_text :
    (line : Line) → IsWireLine line → kv_parse_line (line_text line) ≡ record_line line
unfolding all_ident
kv_parse_line-line_text line w =
    kv_parse_line-record (line_text line)
      (omega (
        arith,
        length-append line.tag (fields_text line.f),
        is_name-positive line.tag max_name w.tag,
      ))
      w.short (line_text-is_printable line w)
      (equal-space line.tag (fields_text line.f) ok_text (fields_text-AtSpace line.f) refl w.not_ok)
    ∙ parse_head-line line line.f w refl
    ∙ parse_record-line line w
