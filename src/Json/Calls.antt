-- ===== src/Json/Calls.antt =====
-- Any sequence of calls on one writer: a failure stays, and the text never reaches the capacity.
use cs370_term_project.Prelude.{
  ℕ, zero, suc, ◌≤◌, ◌<◌, ◌≡◌, Bool, true, false, not, ◌||◌, ◌⊎◌, Option, none, some, List, [], ◌∷◌,
  ◌++◌, leb, ◌==◌, if◌then◌else◌, arith, refl, ap, ◌∙◌, length, length-append, inl, inr,
}
use cs370_term_project.Prelude.Bytes.{Bytes}
use cs370_term_project.Prelude.Words.{IsU64, sub64}
use cs370_term_project.Json.{
  Level, Json, fail, put, put_char, next_item, begin_at, begin_value, end_value, when_begun,
  put_scalar, escape, put_escaped, put_quoted, json_init, open_level, begin_container, close_level,
  end_container, key_at, json_key, json_string, json_uint, json_int, json_double, json_bool,
  json_null, json_number, json_finish, is_number, opening, closing, same_bool,
}

pub data Call : Type 0 where
  begins ends : Bool → Call
  key string number double : Option Bytes → Call
  uint : ℕ → Call
  int : Bool → ℕ → Call
  bool : Bool → Call
  null : Call

unfoldable pub call : Json → Call → Json
call j (begins object) = begin_container j object
call j (ends object) = end_container j object
call j (key k) = json_key j k
call j (string s) = json_string j s
call j (number t) = json_number j t
call j (double t) = json_double j t
call j (uint v) = json_uint j v
call j (int negative v) = json_int j negative v
call j (bool v) = json_bool j v
call j null = json_null j

unfoldable pub calls : Json → List Call → Json
calls j [] = j
calls j (c ∷ cs) = calls (call j c) cs

-- There is room for the text and its NUL, or nothing has been written.
pub record IsBounded (j : Json) : Type 0 where
  pub size : IsU64 j.cap
  pub room : (length j.buf < j.cap) ⊎ (j.failed ≡ true) × (j.buf ≡ [])
  pub depth : length j.levels ≤ 8

-- From `j` to `k`: the bounds are kept, and a failure stays.
pub record Goes (j k : Json) : Type 0 where
  pub bounded : IsBounded j → IsBounded k
  pub sticky : j.failed ≡ true → (k.failed ≡ true) × (k.buf ≡ j.buf)
  pub same_cap : k.cap ≡ j.cap

Goes-refl : (j : Json) → Goes j j
Goes-refl j = record { bounded = λ b. b; sticky = λ f. (f, refl); same_cap = refl }

Goes-trans : {i j k : Json} → Goes i j → Goes j k → Goes i k
Goes-trans a b = record {
  bounded = λ x. b.bounded (a.bounded x);
  sticky = λ f. ((b.sticky (a.sticky f).0).0, (b.sticky (a.sticky f).0).1 ∙ (a.sticky f).1);
  same_cap = b.same_cap ∙ a.same_cap;
}

-- A change of anything but the capacity, the text, the levels and the failure.
module _ (j : Json) (levels : List Level) (after_key done failed : Bool) where
  abbrev changed : Json
  changed = record j { levels = levels; after_key = after_key; done = done; failed = failed }

  changed-Goes :
      (j.failed ≡ true → failed ≡ true) → (length j.levels ≤ 8 → length levels ≤ 8) → Goes j changed
  changed-Goes keeps deep = record {
    bounded = λ b. record {
      size = b.size;
      room = elim b.room [ inl lt ↦ inl lt | inr (f, e) ↦ inr (keeps f, e) ];
      depth = deep b.depth;
    };
    sticky = λ f. (keeps f, refl);
    same_cap = refl;
  }

fail-Goes : (j : Json) → Goes j (fail j)
fail-Goes j = changed-Goes j j.levels j.after_key j.done true (λ f. refl) (λ d. d)

put-Goes : (j : Json) (text : Bytes) → Goes j (put j text)
unfolding put
put-Goes j text = pick j.failed refl (leb (sub64 j.cap (length j.buf)) (length text)) refl
  where
    pick :
        (f : Bool)
        → j.failed ≡ f
        → (full : Bool) → leb (sub64 j.cap (length j.buf)) (length text) ≡ full
        → Goes j (if f then j else if full then fail j else record j { buf = j.buf ++ text })
    pick true e full l = Goes-refl j
    pick false e true l = fail-Goes j
    pick false e false l = record {
      bounded = λ b. record {
        size = b.size;
        room = elim b.room [
          | inl lt ↦ inl (ground (arith, l, lt, b.size, length-append j.buf text))
          | inr (f, n) ↦ absurd (cc (f, e))
        ];
        depth = b.depth;
      };
      sticky = λ f. absurd (cc (f, e));
      same_cap = refl;
    }

put-levels : (j : Json) (text : Bytes) → (put j text).levels ≡ j.levels
unfolding put
put-levels j text = pick j.failed (leb (sub64 j.cap (length j.buf)) (length text))
  where
    pick :
        (f full : Bool)
        → (if f then j else if full then fail j else record j { buf = j.buf ++ text }).levels
          ≡ j.levels
    pick true full = refl
    pick false true = refl
    pick false false = refl

next_item-Goes :
    (j : Json) (top : Level) (rest : List Level)
    → j.levels ≡ top ∷ rest
    → Goes j (next_item j top rest)
unfolding next_item put_char
next_item-Goes j top rest e = pick top.has_item
  where
    marked :
        (k : Json)
        → k.levels ≡ j.levels
        → Goes k (record k { levels = record top { has_item = true } ∷ rest })
    marked k same =
        changed-Goes k (record top { has_item = true } ∷ rest) k.after_key k.done k.failed (λ f. f)
          (λ d. omega (arith, ap length same, ap length e))

    pick :
        (comma : Bool)
        → let k = if comma then put j (b',' ∷ []) else j in
          Goes j (record k { levels = record top { has_item = true } ∷ rest })
    pick true =
        Goes-trans (put-Goes j (b',' ∷ [])) (marked (put j (b',' ∷ [])) (put-levels j (b',' ∷ [])))
    pick false = marked j refl

abbrev writer : Bool × Json → Json
writer p = p.1

begin_value-Goes : (j : Json) → Goes j (begin_value j).1
unfolding begin_value begin_at
begin_value-Goes j = pick j.failed
  where
    object_case :
        (after : Bool)
        → Goes j
            (writer (if not after then (false, fail j) else (true, record j { after_key = false })))
    object_case true = changed-Goes j j.levels false j.done j.failed (λ f. f) (λ d. d)
    object_case false = fail-Goes j

    top_case : (done : Bool) → Goes j (writer (if done then (false, fail j) else (true, j)))
    top_case true = fail-Goes j
    top_case false = Goes-refl j

    inside :
        (object : Bool) (top : Level) (rest : List Level)
        → j.levels ≡ top ∷ rest
        → Goes j (
            writer (
              if object
              then if not j.after_key
                then (false, fail j)
                else (true, record j { after_key = false })
              else (not (next_item j top rest).failed, next_item j top rest)))
    inside true top rest e = object_case j.after_key
    inside false top rest e = next_item-Goes j top rest e

    at : (levels : List Level) → j.levels ≡ levels → Goes j (begin_at j levels).1
    at [] e = top_case j.done
    at (top ∷ rest) e = inside top.is_object top rest e

    pick : (f : Bool) → Goes j (writer (if f then (false, j) else begin_at j j.levels))
    pick true = Goes-refl j
    pick false = at j.levels refl

end_value-Goes : (j : Json) → Goes j (end_value j)
unfolding end_value
end_value-Goes j = pick (length j.levels == 0)
  where
    pick : (top : Bool) → Goes j (if top then record j { done = true } else j)
    pick true = changed-Goes j j.levels j.after_key true j.failed (λ f. f) (λ d. d)
    pick false = Goes-refl j

when_begun-Goes :
    (j : Json) (body : Json → Json)
    → ((k : Json) → Goes k (body k))
    → (p : Bool × Json) → Goes j p.1
    → Goes j (when_begun body p)
unfolding when_begun
when_begun-Goes j body h (false, k) g = g
when_begun-Goes j body h (true, k) g = Goes-trans g (h k)

put_escaped-Goes : (j : Json) (s : Bytes) → Goes j (put_escaped j s)
unfolding put_escaped put_char
put_escaped-Goes j [] = put-Goes j (b'"' ∷ [])
put_escaped-Goes j (c ∷ cs) = pick j.failed (leb 0x80 c) (put_escaped-Goes (put j (escape c)) cs)
  where
    pick :
        (f wide : Bool)
        → Goes (put j (escape c)) (put_escaped (put j (escape c)) cs)
        → Goes j (
            if f
            then put j (b'"' ∷ [])
            else if wide
            then fail j
            else put_escaped (put j (escape c)) cs)
    pick true wide g = put-Goes j (b'"' ∷ [])
    pick false true g = fail-Goes j
    pick false false g = Goes-trans (put-Goes j (escape c)) g

put_quoted-Goes : (j : Json) (s : Option Bytes) → Goes j (put_quoted j s)
unfolding put_quoted put_char
put_quoted-Goes j none = fail-Goes j
put_quoted-Goes j (some s) =
    Goes-trans (put-Goes j (b'"' ∷ [])) (put_escaped-Goes (put j (b'"' ∷ [])) s)

put_scalar-Goes : (j : Json) (text : Bytes) → Goes j (put_scalar j text)
unfolding put_scalar
put_scalar-Goes j text =
    when_begun-Goes j _ (λ k. Goes-trans (put-Goes k text) (end_value-Goes (put k text)))
      (begin_value j) (begin_value-Goes j)

open_level-Goes : (object : Bool) (j : Json) → Goes j (open_level object j)
unfolding open_level put_char
open_level-Goes object j = pick (leb 8 (length j.levels)) refl
  where
    deeper : Json
    deeper = record j { levels = record { is_object = object; has_item = false } ∷ j.levels }

    pick :
        (deep : Bool)
        → leb 8 (length j.levels) ≡ deep
        → Goes j (if deep then fail j else put deeper (opening object ∷ []))
    pick true e = fail-Goes j
    pick false e =
        Goes-trans
          (changed-Goes j deeper.levels j.after_key j.done j.failed (λ f. f)
            (λ d. ground (arith, e)))
          (put-Goes deeper (opening object ∷ []))

end_container-Goes : (j : Json) (object : Bool) → Goes j (end_container j object)
unfolding end_container close_level put_char
end_container-Goes j object = pick j.failed
  where
    inside :
        (wrong : Bool) (top : Level) (rest : List Level)
        → j.levels ≡ top ∷ rest
        → Goes j (
            if wrong
            then fail j
            else end_value (put (record j { levels = rest }) (closing object ∷ [])))
    inside true top rest e = fail-Goes j
    inside false top rest e =
        Goes-trans
          (changed-Goes j rest j.after_key j.done j.failed (λ f. f)
            (λ d. omega (arith, ap length e)))
          (Goes-trans (put-Goes (record j { levels = rest }) (closing object ∷ []))
            (end_value-Goes _))

    at : (levels : List Level) → j.levels ≡ levels → Goes j (close_level j object levels)
    at [] e = fail-Goes j
    at (top ∷ rest) e = inside (not (same_bool top.is_object object) || j.after_key) top rest e

    pick : (f : Bool) → Goes j (if f then j else close_level j object j.levels)
    pick true = Goes-refl j
    pick false = at j.levels refl

json_key-Goes : (j : Json) (k : Option Bytes) → Goes j (json_key j k)
unfolding json_key key_at put_char
json_key-Goes j k = pick j.failed
  where
    inside :
        (name : Bytes) (wrong : Bool) (top : Level) (rest : List Level)
        → j.levels ≡ top ∷ rest
        → Goes j (
            if wrong
            then fail j
            else record (put (put_quoted (next_item j top rest) (some name)) (b':' ∷ [])) {
              after_key = true;
            })
    inside name true top rest e = fail-Goes j
    inside name false top rest e =
        let quoted = put_quoted (next_item j top rest) (some name) in
        let last = put quoted (b':' ∷ []) in
        Goes-trans (next_item-Goes j top rest e) (
          Goes-trans (put_quoted-Goes (next_item j top rest) (some name)) (
            Goes-trans (put-Goes quoted (b':' ∷ []))
              (changed-Goes last last.levels true last.done last.failed (λ f. f) (λ d. d))))

    at : (k : Option Bytes) (levels : List Level) → j.levels ≡ levels → Goes j (key_at j k levels)
    at none levels e = fail-Goes j
    at (some name) [] e = fail-Goes j
    at (some name) (top ∷ rest) e = inside name (not top.is_object || j.after_key) top rest e

    pick : (f : Bool) → Goes j (if f then j else key_at j k j.levels)
    pick true = Goes-refl j
    pick false = at k j.levels refl

call-Goes : (j : Json) (c : Call) → Goes j (call j c)
unfolding call begin_container json_string json_uint json_int json_double json_bool json_null
    json_number
call-Goes j (begins object) =
    when_begun-Goes j (open_level object) (open_level-Goes object) (begin_value j)
      (begin_value-Goes j)
call-Goes j (ends object) = end_container-Goes j object
call-Goes j (key k) = json_key-Goes j k
call-Goes j (string s) =
    when_begun-Goes j _ (λ k. Goes-trans (put_quoted-Goes k s) (end_value-Goes (put_quoted k s)))
      (begin_value j) (begin_value-Goes j)
call-Goes j (number none) = fail-Goes j
call-Goes j (number (some t)) = pick (is_number t)
  where
    pick : (ok : Bool) → Goes j (if not ok then fail j else put_scalar j t)
    pick true = put_scalar-Goes j t
    pick false = fail-Goes j
call-Goes j (double none) = fail-Goes j
call-Goes j (double (some t)) = put_scalar-Goes j t
call-Goes j (uint v) = put_scalar-Goes j _
call-Goes j (int negative v) = put_scalar-Goes j _
call-Goes j (bool true) = put_scalar-Goes j _
call-Goes j (bool false) = put_scalar-Goes j _
call-Goes j null = put_scalar-Goes j _

calls-Goes : (j : Json) (cs : List Call) → Goes j (calls j cs)
unfolding calls
calls-Goes j [] = Goes-refl j
calls-Goes j (c ∷ cs) = Goes-trans (call-Goes j c) (calls-Goes (call j c) cs)

start_room : (cap : ℕ) → (0 < cap) ⊎ ((cap == 0) ≡ true) × ((◌≡◌ {A = Bytes}) [] [])
start_room zero = inr (refl, refl)
start_room (suc n) = inl (omega arith)

-- Whatever calls are made on a new writer, in whatever order: the text and its NUL stay inside the
-- buffer's `cap` bytes, and there are never more than eight open containers.
pub calls-IsBounded :
    (cap : ℕ) (cs : List Call)
    → IsU64 cap
    → IsBounded (calls (json_init cap) cs) × ((calls (json_init cap) cs).cap ≡ cap)
unfolding json_init
calls-IsBounded cap cs u =
    let g = calls-Goes (json_init cap) cs in
    (g.bounded (record { size = u; room = start_room cap; depth = omega arith }), g.same_cap)

-- Once a call has failed, no later one writes anything, and json_finish gives -1.
pub calls-failed :
    (j : Json) (cs : List Call)
    → j.failed ≡ true
    → ((calls j cs).buf ≡ j.buf) × (json_finish (calls j cs) ≡ none)
unfolding json_finish
calls-failed j cs f =
    let (still, same) = (calls-Goes j cs).sticky f in
    (
      same,
      ap
          (λ d.
            if d || not (length (calls j cs).levels == 0) || not (calls j cs).done
            then none
            else some (length (calls j cs).buf))
          still,
    )
