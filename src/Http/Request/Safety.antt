-- ===== src/Http/Request/Safety.antt =====
-- What an accepted request promises to the routes.
use cs370_term_project.Prelude.{
  ℕ, zero, suc, ◌+◌, ◌≤◌, ◌<◌, ◌≡◌, ◌≢◌, Bool, true, false, not, ◌||◌, Option, none, some, List, [],
  ◌∷◌, ◌++◌, ltb, leb, ◌==◌, if◌then◌else◌, arith, refl, sym, subst, length, take, drop, Bool-cases,
  inl, inr,
}
use cs370_term_project.Prelude.Bytes.{Bytes}
use cs370_term_project.Text.{equal, find_byte, find_text, all_bytes}
use cs370_term_project.Http.{
  path_max, bad_path_byte, dot_dot, decode, unsafe_from, unsafe_decoded, path_is_unsafe,
}
use cs370_term_project.Http.Request.{
  Request, Parse, bad, bad_method, too_large, ok, max_request, query_max, is_version, get_method,
  line_byte_ok, head_byte_ok, target_byte_ok, starts_with_slash, crlf, end_of_head, accept,
  split_target, check_target, parse_target, parse_method, parse_line, parse_request_head,
  parse_from, http_parse_request,
}

-- The parts of a path between its slashes, the first one with `seg` in front of it.
unfoldable pub segments : Bytes → Bytes → List Bytes
segments seg [] = seg ∷ []
segments seg (c ∷ cs) = if c == b'/' then seg ∷ segments [] cs else segments (seg ++ c ∷ []) cs

abbrev pub NoneIs : Bytes → List Bytes → Type 0
NoneIs x [] = Unit
NoneIs x (y ∷ ys) = (y ≢ x) × NoneIs x ys

-- No control byte, and no backslash.
abbrev pub AreClean : Bytes → Type 0
AreClean [] = Unit
AreClean (c ∷ cs) = (0x20 ≤ c) × (c ≢ 0x7f) × (c ≢ b'\\') × AreClean cs

-- Visible ASCII, and no backslash.
abbrev pub AreVisible : Bytes → Type 0
AreVisible [] = Unit
AreVisible (c ∷ cs) = (0x20 < c) × (c < 0x7f) × (c ≢ b'\\') × AreVisible cs

equal_refl : (xs : Bytes) → equal xs xs ≡ true
unfolding equal
equal_refl [] = refl
equal_refl (x ∷ xs) = ground (arith, equal_refl xs)

ne_of_equal : (xs ys : Bytes) → equal xs ys ≡ false → xs ≢ ys
ne_of_equal xs ys h e = cc (subst (λ y. equal xs y ≡ false) (sym e) h, equal_refl xs)

unsafe_from-segments : (seg d : Bytes) → unsafe_from seg d ≡ false → NoneIs dot_dot (segments seg d)
unfolding unsafe_from segments
unsafe_from-segments seg [] h = (ne_of_equal seg dot_dot h, tt)
unsafe_from-segments seg (c ∷ cs) h =
    go (bad_path_byte c) (c == b'/') h (unsafe_from-segments [] cs)
      (unsafe_from-segments (seg ++ c ∷ []) cs)
  where
    slash :
        (e : Bool)
        → (e || unsafe_from [] cs) ≡ false
        → equal seg dot_dot ≡ e
        → (unsafe_from [] cs ≡ false → NoneIs dot_dot (segments [] cs))
        → NoneIs dot_dot (seg ∷ segments [] cs)
    slash true h q a = absurd (cc h)
    slash false h q a = (ne_of_equal seg dot_dot q, a h)

    go :
        (b s : Bool)
        → (if b
            then true
            else if s
            then equal seg dot_dot || unsafe_from [] cs
            else unsafe_from (seg ++ c ∷ []) cs)
          ≡ false
        → (unsafe_from [] cs ≡ false → NoneIs dot_dot (segments [] cs))
        → (unsafe_from (seg ++ c ∷ []) cs ≡ false → NoneIs dot_dot (segments (seg ++ c ∷ []) cs))
        → NoneIs dot_dot (if s then seg ∷ segments [] cs else segments (seg ++ c ∷ []) cs)
    go true s h a z = absurd (cc h)
    go false true h a z = slash (equal seg dot_dot) h refl a
    go false false h a z = z h

unsafe_from-AreClean : (seg d : Bytes) → unsafe_from seg d ≡ false → AreClean d
unfolding unsafe_from
unsafe_from-AreClean seg [] h = tt
unsafe_from-AreClean seg (c ∷ cs) h =
    go (bad_path_byte c) (c == b'/') (equal seg dot_dot) refl h (unsafe_from-AreClean [] cs)
      (unsafe_from-AreClean (seg ++ c ∷ []) cs)
  where
    go :
        (b s q : Bool)
        → bad_path_byte c ≡ b
        → (if b then true else if s then q || unsafe_from [] cs else unsafe_from (seg ++ c ∷ []) cs)
          ≡ false
        → (unsafe_from [] cs ≡ false → AreClean cs)
        → (unsafe_from (seg ++ c ∷ []) cs ≡ false → AreClean cs)
        → AreClean (c ∷ cs)
    go true s q e h a z = absurd (cc h)
    go false true true e h a z = absurd (cc h)
    go false true false e h a z = (ground (arith, e), ground (arith, e), ground (arith, e), a h)
    go false false q e h a z = (ground (arith, e), ground (arith, e), ground (arith, e), z h)

all_bytes-AreVisible : (xs : Bytes) → all_bytes target_byte_ok xs ≡ true → AreVisible xs
unfolding all_bytes
all_bytes-AreVisible [] h = tt
all_bytes-AreVisible (c ∷ cs) h =
    (ground arith, ground arith, ground arith, all_bytes-AreVisible cs (ground arith))

AreVisible-take : (n : ℕ) (xs : Bytes) → AreVisible xs → AreVisible (take n xs)
AreVisible-take zero xs h = tt
AreVisible-take (suc n) [] h = tt
AreVisible-take (suc n) (x ∷ xs) (a, b, c, h) = (a, b, c, AreVisible-take n xs h)

AreVisible-drop : (n : ℕ) (xs : Bytes) → AreVisible xs → AreVisible (drop n xs)
AreVisible-drop zero xs h = h
AreVisible-drop (suc n) [] h = tt
AreVisible-drop (suc n) (x ∷ xs) (a, b, c, h) = AreVisible-drop n xs h

-- What the routes may rely on.
pub record IsSafe (r : Request) : Type 0 where
  pub path_fits : length r.path < path_max
  pub query_fits : length r.query < query_max
  pub path_visible : AreVisible r.path
  pub query_visible : AreVisible r.query
  pub decoded : Bytes
  pub decodes : decode r.path path_max false ≡ some decoded
  pub clean : AreClean decoded
  pub no_dot_dot : NoneIs dot_dot (segments [] decoded)

unsafe_decoded-none :
    (o : Option Bytes)
    → unsafe_decoded o ≡ false
    → (d : Bytes) × (o ≡ some d) × (unsafe_from [] d ≡ false)
unfolding unsafe_decoded
unsafe_decoded-none none h = absurd (cc h)
unsafe_decoded-none (some d) h = (d, refl, h)

if_bad :
    {r : Request} (b : Bool) (p q : Parse)
    → (if b then p else q) ≡ ok r
    → p ≢ ok r
    → (b ≡ false) × (q ≡ ok r)
if_bad true p q h n = absurd (n h)
if_bad false p q h n = (refl, h)

accept-IsSafe :
    (path query : Bytes) (r : Request)
    → AreVisible path
    → AreVisible query
    → accept path query ≡ ok r
    → IsSafe r
unfolding accept path_is_unsafe
accept-IsSafe path query r vp vq h =
    let (short, h) =
      if_bad (leb path_max (length path) || leb query_max (length query)) bad _ h (λ e. cc e) in
    let (safe, h) = if_bad (path_is_unsafe path) bad _ h (λ e. cc e) in
    let (d, e, u) = unsafe_decoded-none (decode path path_max false) safe in
    let same : ◌≡◌ {A = Request} (record { path = path; query = query }) r = cc h in
    subst IsSafe same (record {
      path_fits = ground (arith, short);
      query_fits = ground (arith, short);
      path_visible = vp;
      query_visible = vq;
      decoded = d;
      decodes = e;
      clean = unsafe_from-AreClean [] d u;
      no_dot_dot = unsafe_from-segments [] d u;
    })

split_target-IsSafe :
    (t : Bytes) (q : Option ℕ) (r : Request) → AreVisible t → split_target t q ≡ ok r → IsSafe r
unfolding split_target
split_target-IsSafe t none r v h = accept-IsSafe t [] r v tt h
split_target-IsSafe t (some q) r v h =
    accept-IsSafe (take q t) (drop (q + 1) t) r (AreVisible-take q t v)
      (AreVisible-drop (q + 1) t v) h

check_target-IsSafe : (t : Bytes) (r : Request) → check_target t ≡ ok r → IsSafe r
unfolding check_target
check_target-IsSafe t r h =
    let (slash, h) = if_bad (not (starts_with_slash t)) bad _ h (λ e. cc e) in
    let (visible, h) = if_bad (not (all_bytes target_byte_ok t)) bad _ h (λ e. cc e) in
    split_target-IsSafe t (find_byte b'?' t) r (all_bytes-AreVisible t (ground (arith, visible))) h

parse_target-IsSafe :
    (rest : Bytes) (o : Option ℕ) (r : Request) → parse_target rest o ≡ ok r → IsSafe r
unfolding parse_target
parse_target-IsSafe rest none r h = absurd (cc h)
parse_target-IsSafe rest (some n) r h =
    check_target-IsSafe (take n rest) r
      (if_bad (not (is_version (drop (n + 1) rest))) bad _ h (λ e. cc e)).1

parse_method-IsSafe :
    (line : Bytes) (o : Option ℕ) (r : Request) → parse_method line o ≡ ok r → IsSafe r
unfolding parse_method
parse_method-IsSafe line none r h = absurd (cc h)
parse_method-IsSafe line (some n) r h =
    parse_target-IsSafe (drop (n + 1) line) (find_byte b' ' (drop (n + 1) line)) r
      (if_bad (not (equal (take n line) get_method)) bad_method _ h (λ e. cc e)).1

parse_line-IsSafe :
    (head : Bytes) (o : Option ℕ) (r : Request) → parse_line head o ≡ ok r → IsSafe r
unfolding parse_line
parse_line-IsSafe head none r h = absurd (cc h)
parse_line-IsSafe head (some n) r h =
    parse_method-IsSafe (take n head) (find_byte b' ' (take n head)) r
      (if_bad (not (all_bytes line_byte_ok (take n head))) bad _ h (λ e. cc e)).1

parse_request_head-IsSafe : (head : Bytes) (r : Request) → parse_request_head head ≡ ok r → IsSafe r
unfolding parse_request_head
parse_request_head-IsSafe head r h =
    let (small, h) = if_bad (ltb max_request (length head)) too_large _ h (λ e. cc e) in
    parse_line-IsSafe head (find_text crlf head) r
      (if_bad (not (all_bytes head_byte_ok head)) bad _ h (λ e. cc e)).1

parse_from-IsSafe : (buf : Bytes) (o : Option ℕ) (r : Request) → parse_from buf o ≡ ok r → IsSafe r
unfolding parse_from
parse_from-IsSafe buf none r h =
    absurd
      (elim (Bool-cases (leb max_request (length buf))) [ inl e ↦ cc (h, e) | inr e ↦ cc (h, e) ])
parse_from-IsSafe buf (some n) r h = parse_request_head-IsSafe (take (n + 4) buf) r h

-- Whatever bytes a client sends, a request that is accepted has a path below 128 bytes and a query
-- below 256, all of them visible ASCII and no backslash; and its path decodes, to text with no
-- control byte, no DEL and no backslash, of which no part between slashes is "..".
pub http_parse_request-IsSafe :
    (buf : Bytes) (r : Request) → http_parse_request buf ≡ ok r → IsSafe r
unfolding http_parse_request
http_parse_request-IsSafe buf r h = parse_from-IsSafe buf (find_text end_of_head buf) r h
