-- ===== src/Synth/Records.antt =====
-- Each line of a reply is the text of a record that the reply format can carry.
use cs370_term_project.Prelude.{
  ℕ, ◌+◌, ◌≤◌, ◌<◌, ◌≡◌, true, false, List, [], ◌∷◌, ◌++◌, arith, refl, sym, ap, ◌∙◌, length,
  length-append, append_assoc,
}
use cs370_term_project.Prelude.Bytes.{Bytes}
use cs370_term_project.Text.{equal}
use cs370_term_project.Json.{is_number}
use cs370_term_project.Kv.{
  ValueType, str, num, null, Field, Line, record_line, is_name, kv_parse_line, is_printable,
  max_line, max_value, ok_text, err_text, max_name,
}
use cs370_term_project.Kv.Reply.{AreInLine}
use cs370_term_project.Kv.Wire.{
  IsBare, IsNumber, AreWireFields, fields_text, value_text, field_body,
}
use cs370_term_project.Kv.RoundTrip.{IsWireLine, line_text-is_printable, kv_parse_line-line_text}
use cs370_term_project.Synth.{Floats, newline}

-- The fields in front of the end of a line.
abbrev pub value_then : ValueType → Bytes → Bytes → Bytes
value_then str v r = b'"' ∷ (v ++ b'"' ∷ r)
value_then num v r = v ++ r
value_then null v r = v ++ r

abbrev pub fields_then : List Field → Bytes → Bytes
fields_then [] r = r
fields_then (f ∷ fs) r = b' ' ∷ (f.key ++ b'=' ∷ value_then f.type f.val (fields_then fs r))

value_then-append :
    (type : ValueType) (v r s : Bytes) → value_then type v (r ++ s) ≡ value_text type v ++ (r ++ s)
value_then-append str v r s = ap (◌∷◌ b'"') (sym (append_assoc v (b'"' ∷ []) (r ++ s)))
value_then-append num v r s = refl
value_then-append null v r s = refl

fields_then-append : (fs : List Field) (r : Bytes) → fields_then fs r ≡ fields_text fs ++ r
fields_then-append [] r = refl
fields_then-append (f ∷ fs) r =
    let text : Bytes = value_text f.type f.val in
    ap (λ t. b' ' ∷ (f.key ++ b'=' ∷ value_then f.type f.val t)) (fields_then-append fs r)
    ∙ ap (λ t. b' ' ∷ (f.key ++ b'=' ∷ t)) (value_then-append f.type f.val (fields_text fs) r)
    ∙ ap (◌∷◌ b' ') (
        ap (λ t. f.key ++ b'=' ∷ t) (sym (append_assoc text (fields_text fs) r))
        ∙ sym (append_assoc f.key (b'=' ∷ (text ++ fields_text fs)) r)
        ∙ ap (λ t. t ++ r) (sym (append_assoc f.key (b'=' ∷ text) (fields_text fs))))

-- How long the fields are.
abbrev pub value_size : ValueType → ℕ → ℕ
value_size str n = 2 + n
value_size num n = n
value_size null n = n

abbrev pub fields_size : List Field → ℕ
fields_size [] = 0
fields_size (f ∷ fs) = 2 + length f.key + value_size f.type (length f.val) + fields_size fs

length-value_text :
    (type : ValueType) (v : Bytes) → length (value_text type v) ≡ value_size type (length v)
length-value_text str v = omega (arith, length-append v (b'"' ∷ []))
length-value_text num v = refl
length-value_text null v = refl

length-fields_text : (fs : List Field) → length (fields_text fs) ≡ fields_size fs
length-fields_text [] = refl
length-fields_text (f ∷ fs) = omega (
  arith,
  length-append (field_body f) (fields_text fs),
  length-append f.key (b'=' ∷ value_text f.type f.val),
  length-value_text f.type f.val,
  length-fields_text fs,
)

-- A line with its newline, which the client reads as a record.
pub record IsRecord (text : Bytes) : Type 0 where
  pub line : Bytes
  pub ended : text ≡ line ++ newline
  pub in_line : AreInLine line
  pub parsed : (l : Line) × (kv_parse_line line ≡ record_line l)

abbrev plain : Bytes → List Field → Line
plain tag fs = record { tag = tag; f = fs; err_code = []; err_reason = [] }

pub is_printable-AreInLine : (s : Bytes) → is_printable s ≡ true → AreInLine s
unfolding is_printable
is_printable-AreInLine [] h = tt
is_printable-AreInLine (c ∷ cs) h =
    (ground arith, ground arith, is_printable-AreInLine cs (ground arith))

-- What a line's record needs, for a tag and a number of fields that are known.
pub record_line-IsRecord :
    (tag : Bytes) (fs : List Field)
    → is_name tag max_name ≡ true
    → equal tag ok_text ≡ false
    → equal tag err_text ≡ false
    → AreWireFields [] fs
    → length fs ≤ 16
    → length tag + fields_size fs ≤ max_line
    → IsRecord (tag ++ fields_then fs newline)
record_line-IsRecord tag fs n o e w l s = record {
  line = tag ++ fields_text fs;
  ended =
      ap (◌++◌ tag) (fields_then-append fs newline)
      ∙ sym (append_assoc tag (fields_text fs) newline);
  in_line =
      is_printable-AreInLine (tag ++ fields_text fs) (line_text-is_printable (plain tag fs) wire);
  parsed = (plain tag fs, kv_parse_line-line_text (plain tag fs) wire);
}
  where
    wire : IsWireLine (plain tag fs)
    wire = record {
      tag = n;
      not_ok = o;
      not_err = e;
      fields = w;
      few = l;
      short = omega (arith, length-append tag (fields_text fs), length-fields_text fs);
      no_code = refl;
      no_reason = refl;
    }

abbrev pub quoted : Bytes → Bytes → Field
quoted k v = record { key = k; val = v; type = str }

abbrev pub number : Bytes → Bytes → Field
number k v = record { key = k; val = v; type = num }

pub constant-IsNumber :
    (v : Bytes) → IsBare v → is_number v ≡ true → length v < max_value → IsNumber v
constant-IsNumber v b n s = record { bare = b; number = n; short = s }

pub record IsFloats (fl : Floats) : Type 0 where
  pub cpu_ok : (k : ℕ) → k < 40 → IsNumber (fl.cpu_text k)
  pub value_ok : (k t : ℕ) → IsNumber (fl.value_text k t)
