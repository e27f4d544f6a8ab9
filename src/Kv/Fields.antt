-- ===== src/Kv/Fields.antt =====
-- The loop over the fields of a line reads back the fields that were printed.
use cs370_term_project.Prelude.{
  ℕ, zero, suc, ◌+◌, ◌≤◌, ◌<◌, ◌≡◌, true, false, some, List, [], ◌∷◌, ◌++◌, ◌==◌, if◌then◌else◌,
  arith, refl, sym, ap, ap₂, ◌∙◌, length, take, drop, length-append, append_assoc, append-nil,
}
use cs370_term_project.Prelude.Bytes.{Bytes}
use cs370_term_project.Text.{find_byte}
use cs370_term_project.Text.Search.{Without, find_byte-here, take_first, drop-suc, drop_first}
use cs370_term_project.Kv.{
  Field, Line, Parsed, record_line, bad, max_name, max_fields, is_name, all_ident, token_len,
  has_key, value_of, put_field, add_field, on_field, parse_fields,
}
use cs370_term_project.Kv.Wire.{
  IsWireField, AreWireFields, value_text, field_body, fields_text, fields_text-AtSpace,
  is_name-ident, token_len-field, value_of-text,
}

ident-Without : (c : ℕ) (s : Bytes) → all_ident s ≡ true → (c ≡ b'=') → Without c s
unfolding all_ident
ident-Without c [] h e = tt
ident-Without c (x ∷ xs) h e = (ground arith, ident-Without c xs (ground arith) e)

abbrev pub with_field : Line → Field → Line
with_field line f = record line { f = line.f ++ f ∷ [] }

-- One token is one field more.
add_field-at :
    (f : Field) (line : Line) (body : Bytes) (eq : ℕ)
    → length line.f < max_fields
    → is_name (take eq body) max_name ≡ true
    → has_key (take eq body) line.f ≡ false
    → take eq body ≡ f.key
    → value_of (drop (eq + 1) body) ≡ some (f.type, f.val)
    → add_field body (some eq) line ≡ some (with_field line f)
unfolding add_field put_field
add_field-at f line body eq l n k t v =
    let put : put_field (take eq body) line (value_of (drop (eq + 1) body))
        ≡ some (with_field line f) =
      ap₂ (λ key o. put_field key line o) t v in
    ground (arith, l, n, k, put)

add_field-body :
    (f : Field) (line : Line)
    → IsWireField f
    → has_key f.key line.f ≡ false
    → length line.f < max_fields
    → add_field (field_body f) (find_byte b'=' (field_body f)) line ≡ some (with_field line f)
add_field-body f line (n, v) k l =
    let text : Bytes = value_text f.type f.val in
    let front : take (length f.key) (f.key ++ b'=' ∷ text) ≡ f.key =
      take_first f.key (b'=' ∷ text) in
    ap (λ o. add_field (field_body f) o line)
      (find_byte-here b'=' f.key text
        (ident-Without b'=' f.key (is_name-ident f.key max_name n) refl))
    ∙ add_field-at f line (field_body f) (length f.key) l (ap (λ t. is_name t max_name) front ∙ n)
        (ap (λ t. has_key t line.f) front ∙ k) front
        (ap value_of (
            ap (λ i. drop i (field_body f)) {y = suc (length f.key)} (omega arith)
            ∙ drop-suc f.key text b'=')
          ∙ value_of-text f.type f.val v)

-- A round on a token of `n` bytes.
abbrev round : (Bytes → Line → Parsed) → Bytes → Line → ℕ → Parsed
round next s line n =
    if n == 0
    then bad
    else on_field next (drop n s) (add_field (take n s) (find_byte b'=' (take n s)) line)

round-positive :
    (next : Bytes → Line → Parsed) (s : Bytes) (line : Line) (n : ℕ)
    → 0 < n
    → round next s line n
      ≡ on_field next (drop n s) (add_field (take n s) (find_byte b'=' (take n s)) line)
round-positive next s line n p = ground arith

-- A round of the loop takes one field.
parse_fields-step :
    (f : Field) (r : Bytes) (fuel : ℕ) (line : Line)
    → IsWireField f
    → has_key f.key line.f ≡ false
    → length line.f < max_fields
    → token_len false (field_body f ++ r) ≡ length (field_body f)
    → parse_fields (suc fuel) (b' ' ∷ (field_body f ++ r)) line
      ≡ parse_fields fuel r (with_field line f)
unfolding parse_fields on_field
parse_fields-step f r fuel line w k l e =
    let body : Bytes = field_body f in
    ap (round (parse_fields fuel) (body ++ r) line) e
    ∙ round-positive (parse_fields fuel) (body ++ r) line (length body)
        (omega (arith, length-append f.key (b'=' ∷ value_text f.type f.val)))
    ∙ ap₂ (λ t d. on_field (parse_fields fuel) d (add_field t (find_byte b'=' t) line))
        (take_first body r) (drop_first body r)
    ∙ ap (on_field (parse_fields fuel) r) (add_field-body f line w k l)

pub parse_fields-text :
    (fs : List Field) (fuel : ℕ) (line : Line)
    → length (fields_text fs) ≤ fuel
    → AreWireFields line.f fs
    → length line.f + length fs ≤ max_fields
    → parse_fields fuel (fields_text fs) line ≡ record_line (record line { f = line.f ++ fs })
unfolding parse_fields
parse_fields-text [] fuel line p w l =
    ap (λ gs. record_line (record line { f = gs })) (sym (append-nil line.f))
parse_fields-text (f ∷ fs) zero line p w l = absurd (omega arith)
parse_fields-text (f ∷ fs) (suc fuel) line p (h, k, w) l =
    parse_fields-step f (fields_text fs) fuel line h k (omega arith)
      (token_len-field f (fields_text fs) h (fields_text-AtSpace fs))
    ∙ parse_fields-text fs fuel (with_field line f)
        (omega (arith, length-append (field_body f) (fields_text fs))) w
        (omega (arith, length-append line.f (f ∷ [])))
    ∙ ap (λ gs. record_line (record line { f = gs })) (append_assoc line.f (f ∷ []) fs)
