-- ===== src/Kv/Sizes.antt =====
-- What a parsed line copies fits the arrays that it is copied to, with the NUL.
use cs370_term_project.Prelude.{
  ℕ, zero, suc, ◌+◌, ◌-◌, ◌≤◌, ◌<◌, ◌≡◌, Bool, true, false, not, ◌||◌, Option, none, some, List, [],
  ◌∷◌, ◌++◌, ltb, leb, ◌==◌, if◌then◌else◌, arith, refl, length, take, drop, get_or, length-append,
}
use cs370_term_project.Prelude.Bytes.{Bytes}
use cs370_term_project.Text.{equal, find_byte}
use cs370_term_project.Json.{is_number}
use cs370_term_project.Kv.{
  max_line, max_fields, max_name, max_value, ValueType, Field, Line, Parsed, record_line, ok_line,
  err_line, bad, empty_line, is_name, with_reason, parse_err, token_len, has_key, has_byte,
  bare_value, quoted_value, value_of, put_field, add_field, on_field, parse_fields, is_printable,
  parse_record, parse_head, kv_parse_line, ok_text, err_text, str, num, null,
}

pub record IsField (f : Field) : Type 0 where
  pub key : length f.key < max_name
  pub val : length f.val < max_value

abbrev pub AreFields : List Field → Type 0
AreFields [] = Unit
AreFields (f ∷ fs) = IsField f × AreFields fs

pub record IsLine (line : Line) : Type 0 where
  pub tag : length line.tag < max_name
  pub count : length line.f ≤ max_fields
  pub fields : AreFields line.f
  pub code : length line.err_code < max_name
  pub reason : length line.err_reason < max_value

abbrev pub IsParsed : Parsed → Type 0
IsParsed (record_line line) = IsLine line
IsParsed ok_line = Unit
IsParsed (err_line line) = IsLine line
IsParsed bad = Unit

is_name-lt : (s : Bytes) (max : ℕ) → is_name s max ≡ true → length s < max
unfolding is_name
is_name-lt s max e = ground (arith, e)

with_reason-IsParsed :
    (code reason : Bytes) → length code < max_name → IsParsed (with_reason code reason)
unfolding with_reason
with_reason-IsParsed code reason l =
    first (length reason == 0 || leb max_value (length reason)) refl
  where
    second :
        (spaced : Bool)
        → length reason < max_value
        → IsParsed (
            if spaced
            then bad
            else err_line (record empty_line { err_code = code; err_reason = reason }))
    second true r = tt
    second false r = record {
      tag = omega arith;
      count = omega arith;
      fields = tt;
      code = l;
      reason = r;
    }

    first :
        (wrong : Bool)
        → (length reason == 0 || leb max_value (length reason)) ≡ wrong
        → IsParsed (
            if wrong
            then bad
            else if get_or reason 0 0 == b' ' || get_or reason (length reason - 1) 0 == b' '
            then bad
            else err_line (record empty_line { err_code = code; err_reason = reason }))
    first true e = tt
    first false e = second _ (ground (arith, e))

parse_err-IsParsed : (rest : Bytes) (o : Option ℕ) → IsParsed (parse_err rest o)
unfolding parse_err
parse_err-IsParsed rest none = go (is_name rest max_name) refl
  where
    go :
        (ok : Bool)
        → is_name rest max_name ≡ ok
        → IsParsed (if not ok then bad else err_line (record empty_line { err_code = rest }))
    go false e = tt
    go true e = record {
      tag = omega arith;
      count = omega arith;
      fields = tt;
      code = is_name-lt rest max_name e;
      reason = omega arith;
    }
parse_err-IsParsed rest (some n) = go (is_name (take n rest) max_name) refl
  where
    go :
        (ok : Bool)
        → is_name (take n rest) max_name ≡ ok
        → IsParsed (if not ok then bad else with_reason (take n rest) (drop (n + 1) rest))
    go false e = tt
    go true e =
        with_reason-IsParsed (take n rest) (drop (n + 1) rest) (is_name-lt (take n rest) max_name e)

-- A value that is taken fits.
IsValue : Option (ValueType × Bytes) → Type 0
IsValue none = Unit
IsValue (some (type, val)) = length val < max_value

bare_value-IsValue : (val : Bytes) → IsValue (bare_value val)
unfolding bare_value IsValue
bare_value-IsValue val = first (leb max_value (length val)) refl
  where
    second :
        (is_null is_num : Bool)
        → length val < max_value
        → IsValue
            (if is_null then some (null, val) else if not is_num then none else some (num, val))
    second true is_num l = l
    second false true l = l
    second false false l = tt

    first :
        (long : Bool)
        → leb max_value (length val) ≡ long
        → IsValue (
            if long
            then none
            else if equal val (b'n' ∷ b'u' ∷ b'l' ∷ b'l' ∷ [])
            then some (null, val)
            else if not (is_number val)
            then none
            else some (num, val))
    first true e = tt
    first false e = second _ (is_number val) (ground (arith, e))

quoted_value-IsValue : (val : Bytes) → IsValue (quoted_value val)
unfolding quoted_value IsValue
quoted_value-IsValue val = first (ltb (length val) 2 || not (get_or val (length val - 1) 0 == b'"'))
  where
    inner : Bytes
    inner = take (length val - 2) (drop 1 val)

    second :
        (long quote slash : Bool)
        → leb max_value (length inner) ≡ long
        → IsValue (if long || quote || slash then none else some (str, inner))
    second true quote slash e = tt
    second false true slash e = tt
    second false false true e = tt
    second false false false e = ground (arith, e)

    first :
        (wrong : Bool)
        → IsValue (
            if wrong
            then none
            else if leb max_value (length inner) || has_byte b'"' inner || has_byte b'\\' inner
            then none
            else some (str, inner))
    first true = tt
    first false =
        second (leb max_value (length inner)) (has_byte b'"' inner) (has_byte b'\\' inner) refl

value_of-IsValue : (val : Bytes) → IsValue (value_of val)
unfolding value_of
value_of-IsValue [] = bare_value-IsValue []
value_of-IsValue (c ∷ cs) = go (c == b'"')
  where
    go : (q : Bool) → IsValue (if q then quoted_value (c ∷ cs) else bare_value (c ∷ cs))
    go true = quoted_value-IsValue (c ∷ cs)
    go false = bare_value-IsValue (c ∷ cs)

AreFields-append :
    (fs : List Field) (f : Field) → AreFields fs → IsField f → AreFields (fs ++ f ∷ [])
AreFields-append [] f v i = (i, tt)
AreFields-append (x ∷ fs) f v i = (v.0, AreFields-append fs f v.1 i)

IsAdded : Option Line → Type 0
IsAdded none = Unit
IsAdded (some line) = IsLine line

put_field-IsAdded :
    (key : Bytes) (line : Line) (o : Option (ValueType × Bytes))
    → IsLine line
    → length line.f < max_fields
    → length key < max_name
    → IsValue o
    → IsAdded (put_field key line o)
unfolding put_field IsValue IsAdded
put_field-IsAdded key line none v n k i = tt
put_field-IsAdded key line (some (type, val)) v n k i = record {
  tag = v.tag;
  count = omega (arith, length-append line.f (record { key = key; val = val; type = type } ∷ []));
  fields =
      AreFields-append line.f (record { key = key; val = val; type = type }) v.fields
        (record { key = k; val = i });
  code = v.code;
  reason = v.reason;
}

add_field-IsAdded :
    (t : Bytes) (o : Option ℕ) (line : Line) → IsLine line → IsAdded (add_field t o line)
unfolding add_field IsAdded
add_field-IsAdded t none line v = tt
add_field-IsAdded t (some eq) line v =
    go (leb max_fields (length line.f)) (is_name (take eq t) max_name) (has_key (take eq t) line.f)
      refl refl
  where
    go :
        (full named twice : Bool)
        → leb max_fields (length line.f) ≡ full
        → is_name (take eq t) max_name ≡ named
        → IsAdded (
            if full
            then none
            else if not named
            then none
            else if twice
            then none
            else put_field (take eq t) line (value_of (drop (eq + 1) t)))
    go true named twice f n = tt
    go false false twice f n = tt
    go false true true f n = tt
    go false true false f n =
        put_field-IsAdded (take eq t) line (value_of (drop (eq + 1) t)) v (ground (arith, f))
          (is_name-lt (take eq t) max_name n) (value_of-IsValue (drop (eq + 1) t))

parse_fields-IsParsed :
    (fuel : ℕ) (rest : Bytes) (line : Line) → IsLine line → IsParsed (parse_fields fuel rest line)
unfolding parse_fields on_field IsAdded
parse_fields-IsParsed zero [] line v = v
parse_fields-IsParsed (suc fuel) [] line v = v
parse_fields-IsParsed zero (space ∷ t) line v = tt
parse_fields-IsParsed (suc fuel) (space ∷ t) line v = go _ (n == 0) (
    added (add_field (take n t) (find_byte b'=' (take n t)) line)
      (add_field-IsAdded (take n t) (find_byte b'=' (take n t)) line v)
      (λ l w. parse_fields-IsParsed fuel (drop n t) l w))
  where
    n : ℕ
    n = token_len false t

    added :
        (o : Option Line)
        → IsAdded o
        → ((l : Line) → IsLine l → IsParsed (parse_fields fuel (drop n t) l))
        → IsParsed (on_field (parse_fields fuel) (drop n t) o)
    added none i ih = tt
    added (some l) i ih = ih l i

    go : (p : Parsed) (nothing : Bool) → IsParsed p → IsParsed (if nothing then bad else p)
    go p true h = tt
    go p false h = h

parse_record-IsParsed : (s : Bytes) (head : ℕ) → IsParsed (parse_record s head)
unfolding parse_record
parse_record-IsParsed s head =
    go (is_name (take head s) max_name) (equal (take head s) ok_text) refl
  where
    go :
        (named is_ok : Bool)
        → is_name (take head s) max_name ≡ named
        → IsParsed (
            if not named || is_ok
            then bad
            else parse_fields (length s) (drop head s) (record empty_line { tag = take head s }))
    go false is_ok e = tt
    go true true e = tt
    go true false e =
        parse_fields-IsParsed (length s) (drop head s) (record empty_line { tag = take head s })
          (record {
            tag = is_name-lt (take head s) max_name e;
            count = omega arith;
            fields = tt;
            code = omega arith;
            reason = omega arith;
          })

parse_head-IsParsed : (s : Bytes) (space : Option ℕ) → IsParsed (parse_head s space)
unfolding parse_head
parse_head-IsParsed s none = go (equal s err_text)
  where
    go : (is_err : Bool) → IsParsed (if is_err then bad else parse_record s (length s))
    go true = tt
    go false = parse_record-IsParsed s (length s)
parse_head-IsParsed s (some n) = go (equal (take n s) err_text)
  where
    go :
        (is_err : Bool)
        → IsParsed (
            if is_err
            then parse_err (drop (n + 1) s) (find_byte b' ' (drop (n + 1) s))
            else parse_record s n)
    go true = parse_err-IsParsed (drop (n + 1) s) (find_byte b' ' (drop (n + 1) s))
    go false = parse_record-IsParsed s n

-- Whatever the bytes of a line, what is copied out of it fits: a tag, a key and a code in 24 bytes
-- with their NUL, a value and a reason in 96, and at most 16 fields.
pub kv_parse_line-IsParsed : (s : Bytes) → IsParsed (kv_parse_line s)
unfolding kv_parse_line
kv_parse_line-IsParsed s =
    go (length s == 0 || ltb max_line (length s)) (is_printable s) (equal s ok_text)
  where
    go :
        (wrong printable is_ok : Bool)
        → IsParsed (
            if wrong
            then bad
            else if not printable
            then bad
            else if is_ok
            then ok_line
            else parse_head s (find_byte b' ' s))
    go true printable is_ok = tt
    go false false is_ok = tt
    go false true true = tt
    go false true false = parse_head-IsParsed s (find_byte b' ' s)
