-- ===== src/Route/RequestLine.antt =====
-- What a line to the source looks like, whatever the URL was.
use cs370_term_project.Prelude.{
  ℕ, zero, suc, ◌-◌, ◌≤◌, ◌<◌, ◌≡◌, ◌≢◌, ◌⊎◌, inl, inr, Bool, true, false, not, ◌&&◌, ◌||◌, Option,
  none, some, List, [], ◌∷◌, ◌++◌, ltb, leb, ◌==◌, if◌then◌else◌, arith, refl, sym, subst, length,
  get_or, get_elem?, drop, length-append,
}
use cs370_term_project.Prelude.Bytes.{Bytes}
use cs370_term_project.Text.{codes, equal, is_digit, all_bytes}
use cs370_term_project.Http.{http_query_get}
use cs370_term_project.Http.Request.{query_max}
use cs370_term_project.Route.Url.{
  value_max, line_max, series_keys, safe_byte, safe_value, Checked, refuses, keys_seen, check_keys,
  Built, why, line, field_text, add_text, add_value, add_keys, on_checked, build_series,
}
use cs370_term_project.Route.{api, find_verb, request_line}

-- One token: no blank, no control byte, no quote, no backslash, and nothing that ends a field.
abbrev pub IsToken : Bytes → Type 0
IsToken [] = Unit
IsToken (c ∷ cs) = (0x20 < c) × (c < 0x7f) × (c ≢ b'"') × (c ≢ b'\\') × (c ≢ b'=') × IsToken cs

abbrev pub AreDigits : Bytes → Type 0
AreDigits [] = Unit
AreDigits (c ∷ cs) = (b'0' ≤ c) × (c ≤ b'9') × AreDigits cs

-- `series` and fields for keys of a series below the `k`-th, in order and once each at most: the
-- value is a token of 1 to 24 bytes, and bare only if it is all digits.
pub data IsSeries : ℕ → Bytes → Type 0 where
  no_field : (text : Bytes) → text ≡ codes "series" → IsSeries 0 text
  leaves_out : (k : ℕ) (text : Bytes) → IsSeries k text → IsSeries (suc k) text
  adds_field :
      (k : ℕ) (text name v longer : Bytes) (bare : Bool)
      → IsSeries k text
      → get_elem? series_keys k ≡ some name
      → IsToken v
      → 0 < length v
      → length v ≤ value_max
      → (bare ≡ true → AreDigits v)
      → longer ≡ text ++ field_text bare name v
      → IsSeries (suc k) longer

-- No control byte, so a single line.
abbrev pub IsOneLine : Bytes → Type 0
IsOneLine [] = Unit
IsOneLine (c ∷ cs) = (0x20 ≤ c) × (c < 0x7f) × IsOneLine cs

IsOneLine-append : (xs ys : Bytes) → IsOneLine xs → IsOneLine ys → IsOneLine (xs ++ ys)
IsOneLine-append [] ys a b = b
IsOneLine-append (x ∷ xs) ys (p, q, a) b = (p, q, IsOneLine-append xs ys a b)

IsToken-IsOneLine : (v : Bytes) → IsToken v → IsOneLine v
IsToken-IsOneLine [] h = tt
IsToken-IsOneLine (c ∷ cs) (a, b, d, e, f, h) = (omega arith, omega arith, IsToken-IsOneLine cs h)

key-IsOneLine : (k : ℕ) (name : Bytes) → get_elem? series_keys k ≡ some name → IsOneLine name
key-IsOneLine zero name e = subst IsOneLine {x = codes "pid"} (cc e) (omega arith)
key-IsOneLine (suc zero) name e = subst IsOneLine {x = codes "from"} (cc e) (omega arith)
key-IsOneLine (suc (suc zero)) name e = subst IsOneLine {x = codes "to"} (cc e) (omega arith)
key-IsOneLine (suc (suc (suc k))) name e = absurd (cc e)

field_text-IsOneLine :
    (bare : Bool) (name v : Bytes)
    → IsOneLine name
    → IsOneLine v
    → IsOneLine (field_text bare name v)
field_text-IsOneLine true name v a b =
    (omega arith, omega arith, IsOneLine-append name (b'=' ∷ v) a (omega arith, omega arith, b))
field_text-IsOneLine false name v a b = (
  omega arith,
  omega arith,
  IsOneLine-append name (b'=' ∷ b'"' ∷ (v ++ b'"' ∷ [])) a (
    omega arith,
    omega arith,
    (omega arith, omega arith, IsOneLine-append v (b'"' ∷ []) b (omega arith)),
  ),
)

IsSeries-IsOneLine : {k : ℕ} {text : Bytes} → IsSeries k text → IsOneLine text
IsSeries-IsOneLine (no_field text e) = subst IsOneLine (sym e) (omega arith)
IsSeries-IsOneLine (leaves_out k text s) = IsSeries-IsOneLine s
IsSeries-IsOneLine (adds_field k text name v longer bare s e t p q d r) = subst IsOneLine (sym r) (
    IsOneLine-append text (field_text bare name v) (IsSeries-IsOneLine s)
      (field_text-IsOneLine bare name v (key-IsOneLine k name e) (IsToken-IsOneLine v t)))

all_bytes-IsToken : (v : Bytes) → all_bytes safe_byte v ≡ true → IsToken v
unfolding all_bytes
all_bytes-IsToken [] h = tt
all_bytes-IsToken (c ∷ cs) h = (
  ground arith,
  ground arith,
  ground arith,
  ground arith,
  ground arith,
  all_bytes-IsToken cs (ground arith),
)

all_bytes-AreDigits : (v : Bytes) → all_bytes is_digit v ≡ true → AreDigits v
unfolding all_bytes
all_bytes-AreDigits [] h = tt
all_bytes-AreDigits (c ∷ cs) h = (ground arith, ground arith, all_bytes-AreDigits cs (ground arith))

safe_value-IsToken :
    (v : Bytes) → safe_value v ≡ true → (IsToken v) × (0 < length v) × (length v ≤ value_max)
unfolding safe_value
safe_value-IsToken v h = go (length v == 0 || ltb value_max (length v)) refl h
  where
    go :
        (b : Bool)
        → (length v == 0 || ltb value_max (length v)) ≡ b
        → (if b then false else all_bytes safe_byte v) ≡ true
        → (IsToken v) × (0 < length v) × (length v ≤ value_max)
    go true e h = absurd (cc h)
    go false e h = (all_bytes-IsToken v h, ground (arith, e), ground (arith, e))

drop-cons {ℓ} :
    {A : Type ℓ} (xs ys : List A) (y : A) (k : ℕ)
    → drop k xs ≡ y ∷ ys
    → (get_elem? xs k ≡ some y) × (drop (suc k) xs ≡ ys)
drop-cons [] ys y zero e = absurd (cc e)
drop-cons [] ys y (suc k) e = absurd (cc e)
drop-cons (x ∷ xs) ys y zero e = (cc e, cc e)
drop-cons (x ∷ xs) ys y (suc k) e = drop-cons xs ys y k e

if_why :
    {r : Bytes} (b : Bool) (w : Bytes) (x : Built)
    → (if b then why w else x) ≡ line r
    → (b ≡ false) × (x ≡ line r)
if_why true w x h = absurd (cc h)
if_why false w x h = (refl, h)

-- What the loop over the keys gives, if it gives a line.
record IsLine (r : Bytes) : Type 0 where
  keys : ℕ
  series : IsSeries keys r
  short : length r < line_max

line-IsLine :
    (k : ℕ) (text r : Bytes)
    → IsSeries k text
    → length text < line_max
    → line text ≡ line r
    → IsLine r
line-IsLine k text r s l e =
    let q : text ≡ r = cc e in subst IsLine q (record { keys = k; series = s; short = l })

eq_true_of_not : (b : Bool) → not b ≡ false → b ≡ true
eq_true_of_not true h = refl
eq_true_of_not false h = absurd (cc h)

add_keys-IsLine :
    (query : Bytes) (seen : List Bool) (k : ℕ) (names : List Bytes) (text r : Bytes)
    → drop k series_keys ≡ names
    → IsSeries k text
    → length text < line_max
    → add_keys query seen k names line_max text ≡ line r
    → IsLine r
unfolding add_keys add_value add_text
add_keys-IsLine query seen k [] text r e s l h = line-IsLine k text r s l h
add_keys-IsLine query seen k (name ∷ names) text r e s l h =
    go (get_or seen k false) (http_query_get query name query_max)
      (λ t. add_keys-IsLine query seen (suc k) names t r (drop-cons series_keys names name k e).1) h
  where
    Rest : Type 0
    Rest =
        (t : Bytes)
        → IsSeries (suc k) t
        → length t < line_max
        → add_keys query seen (suc k) names line_max t ≡ line r
        → IsLine r

    value :
        (v : Bytes)
        → Rest
        → (if not (safe_value v)
            then why (codes "unsafe query value")
            else if leb
                (line_max - length text)
                (length (field_text (not (k == 0) && all_bytes is_digit v) name v))
            then why (codes "query too long")
            else add_keys query seen
                (suc k)
                names
                line_max
                (text ++ field_text (not (k == 0) && all_bytes is_digit v) name v))
          ≡ line r
        → IsLine r
    value v rest h =
        let bare = not (k == 0) && all_bytes is_digit v in
        let (safe, h) = if_why (not (safe_value v)) _ _ h in
        let (fits, h) =
          if_why (leb (line_max - length text) (length (field_text bare name v))) _ _ h in
        let (t, p, q) = safe_value-IsToken v (eq_true_of_not (safe_value v) safe) in
        rest (text ++ field_text bare name v)
          (adds_field k text name v _ bare s (drop-cons series_keys names name k e).0 t p q
            (λ b. all_bytes-AreDigits v (ground (arith, b))) refl)
          (ground (arith, fits, length-append text (field_text bare name v))) h

    go :
        (b : Bool) (o : Option Bytes)
        → Rest
        → elim b as (λ x. Built) [
          | false ↦ add_keys query seen (suc k) names line_max text
          | true ↦ add_value (add_keys query seen (suc k) names line_max) line_max k name text o
        ]
          ≡ line r
        → IsLine r
    go false o rest h = rest text (leaves_out k text s) l h
    go true none rest h = absurd (cc h)
    go true (some v) rest h = value v rest h

build_series-IsLine : (query r : Bytes) → build_series query line_max ≡ line r → IsLine r
unfolding build_series on_checked
build_series-IsLine query r h = go (check_keys query) h
  where
    go : (c : Checked) → on_checked query line_max c ≡ line r → IsLine r
    go (refuses reason) h = absurd (cc h)
    go (keys_seen seen) h =
        add_keys-IsLine query seen 0 series_keys (codes "series") r refl (no_field _ refl)
          (omega arith) h

-- One of the verbs of a table.
abbrev IsVerb : Bytes → List (Bytes × Bytes) → Type 0
IsVerb verb [] = ⊥
IsVerb verb ((p, v) ∷ rest) = (v ≡ verb) ⊎ IsVerb verb rest

find_verb-IsVerb :
    (path verb : Bytes) (rs : List (Bytes × Bytes)) → find_verb path rs ≡ some verb → IsVerb verb rs
unfolding find_verb
find_verb-IsVerb path verb [] h = absurd (cc h)
find_verb-IsVerb path verb ((p, v) ∷ rest) h =
    go (find_verb path rest) (find_verb-IsVerb path verb rest) (equal path p) h
  where
    go :
        (o : Option Bytes)
        → (o ≡ some verb → IsVerb verb rest)
        → (b : Bool)
        → elim o as (λ x. Option Bytes) [ some w ↦ some w | none ↦ if b then some v else none ]
          ≡ some verb
        → (v ≡ verb) ⊎ IsVerb verb rest
    go (some w) ih b h = inr (ih h)
    go none ih true h = inl (cc h)
    go none ih false h = absurd (cc h)

-- What the source is asked: a verb alone, or a series with its fields; one short line either way.
pub record IsSourceLine (l : Bytes) : Type 0 where
  pub one_line : IsOneLine l
  pub short : length l < line_max
  pub shape :
      ((l ≡ codes "status") ⊎ (l ≡ codes "verdicts") ⊎ (l ≡ codes "faults"))
      ⊎ (k : ℕ) × IsSeries k l

series_line : (query l : Bytes) → build_series query line_max ≡ line l → IsSourceLine l
series_line query l h =
    let i = build_series-IsLine query l h in
    record {
      one_line = IsSeries-IsOneLine i.series;
      short = i.short;
      shape = inr (i.keys, i.series);
    }

verb_line :
    (verb query l : Bytes)
    → (if not (length query == 0) then why (codes "this route takes no query") else line verb)
      ≡ line l
    → verb ≡ l
verb_line verb query l h = let (b, q) = if_why (not (length query == 0)) _ _ h in cc q

-- Whatever path and query a request has, a line that is made for the source has no control byte and
-- less than 160 bytes; it is `status`, `verdicts` or `faults`, or `series` with fields for `pid`,
-- `from` and `to`, in this order and once each at most. A field's value is a token of 1 to 24 bytes
-- with no blank, quote, backslash or '=', and stands in quotes unless it is all digits.
pub request_line-IsSourceLine :
    (path query verb l : Bytes)
    → find_verb path api ≡ some verb
    → request_line verb query ≡ line l
    → IsSourceLine l
unfolding request_line equal
request_line-IsSourceLine path query verb l f h = go (find_verb-IsVerb path verb api f)
  where
    at : Bytes → Type 0
    at v =
        (if equal v (codes "series")
          then build_series query line_max
          else if not (length query == 0)
          then why (codes "this route takes no query")
          else line v)
        ≡ line l

    to : (v : Bytes) → v ≡ verb → at v
    to v e = subst at (sym e) h

    plain :
        (v : Bytes)
        → v ≡ l
        → IsOneLine v
        → length v < line_max
        → (l ≡ codes "status") ⊎ (l ≡ codes "verdicts") ⊎ (l ≡ codes "faults")
        → IsSourceLine l
    plain v e o s w = record {
      one_line = subst IsOneLine e o;
      short = subst (λ t. length t < line_max) e s;
      shape = inl w;
    }

    go : IsVerb verb api → IsSourceLine l
    go (inl e) =
        let q = verb_line (codes "status") query l (to (codes "status") e) in
        plain (codes "status") q (omega arith) (omega arith) (inl (sym q))
    go (inr (inl e)) =
        let q = verb_line (codes "verdicts") query l (to (codes "verdicts") e) in
        plain (codes "verdicts") q (omega arith) (omega arith) (inr (inl (sym q)))
    go (inr (inr (inl e))) =
        let q = verb_line (codes "faults") query l (to (codes "faults") e) in
        plain (codes "faults") q (omega arith) (omega arith) (inr (inr (sym q)))
    go (inr (inr (inr (inl e)))) = series_line query l (to (codes "series") e)
    go (inr (inr (inr (inr e)))) = absurd e
