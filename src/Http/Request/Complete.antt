-- ===== src/Http/Request/Complete.antt =====
-- Which requests are accepted, and as what.
use cs370_term_project.Prelude.{
  ℕ, suc, ◌+◌, ◌≤◌, ◌<◌, ◌≡◌, Bool, true, false, Option, none, some, [], ◌∷◌, ◌++◌, arith, le→ltb,
  refl, sym, ap, ◌∙◌, length, take, drop, length-append, append_assoc,
}
use cs370_term_project.Prelude.Bytes.{Bytes}
use cs370_term_project.Text.Search.{
  Without, Without-append, find_byte-here, find_byte-none, take_first, drop-suc,
}
use cs370_term_project.Text.{codes, equal, find_byte, find_text, place, starts_with, all_bytes}
use cs370_term_project.Http.{path_max, path_is_unsafe}
use cs370_term_project.Http.Request.{
  ok, max_request, query_max, is_version, get_method, line_byte_ok, head_byte_ok, target_byte_ok,
  starts_with_slash, crlf, end_of_head, accept, split_target, check_target, parse_target,
  parse_method, parse_line, parse_request_head, parse_from, http_parse_request,
}
use cs370_term_project.Http.Request.Safety.{AreVisible}

pub data Version : Type 0 where
  http10 http11 : Version

abbrev pub version_text : Version → Bytes
version_text http10 = codes "HTTP/1.0"
version_text http11 = codes "HTTP/1.1"

-- A path, and a query behind a '?' if there is one.
abbrev pub target_of : Bytes → Option Bytes → Bytes
target_of path none = path
target_of path (some query) = path ++ b'?' ∷ query

abbrev pub query_of : Option Bytes → Bytes
query_of none = []
query_of (some query) = query

abbrev pub line_of : Bytes → Version → Bytes
line_of target v = b'G' ∷ b'E' ∷ b'T' ∷ b' ' ∷ (target ++ b' ' ∷ version_text v)

AreVisible-Without : (c : ℕ) (xs : Bytes) → AreVisible xs → c ≤ 0x20 → Without c xs
AreVisible-Without c [] v h = tt
AreVisible-Without c (x ∷ xs) (a, b, d, v) h = (omega arith, AreVisible-Without c xs v h)

-- A text that starts with a byte that is not in front of it.
find_text-skip :
    (c : ℕ) (p xs ys : Bytes) (n : ℕ)
    → Without c xs
    → find_text (c ∷ p) ys ≡ some n
    → find_text (c ∷ p) (xs ++ ys) ≡ some (length xs + n)
unfolding find_text place starts_with
find_text-skip c p [] ys n w h = ground (arith, h)
find_text-skip c p (x ∷ xs) ys n (d, w) h = ground (arith, find_text-skip c p xs ys n w h)

drop_first : (xs ys : Bytes) (c : ℕ) → drop (length xs + 1) (xs ++ c ∷ ys) ≡ ys
drop_first xs ys c =
    ap (λ k. drop k (xs ++ c ∷ ys)) {y = suc (length xs)} (omega arith) ∙ drop-suc xs ys c

all_bytes-append :
    (good : ℕ → Bool) (xs ys : Bytes)
    → all_bytes good xs ≡ true
    → all_bytes good ys ≡ true
    → all_bytes good (xs ++ ys) ≡ true
unfolding all_bytes
all_bytes-append good [] ys a b = b
all_bytes-append good (x ∷ xs) ys a b = ground (arith, all_bytes-append good xs ys)

AreVisible-ok :
    (xs : Bytes)
    → AreVisible xs
    → (all_bytes target_byte_ok xs ≡ true)
      × (all_bytes line_byte_ok xs ≡ true)
      × (all_bytes head_byte_ok xs ≡ true)
unfolding all_bytes
AreVisible-ok [] v = (refl, refl, refl)
AreVisible-ok (x ∷ xs) (a, b, c, v) =
    let (t, l, h) = AreVisible-ok xs v in (ground arith, ground arith, ground arith)

version-ok : (v : Version) → is_version (version_text v) ≡ true
unfolding equal
version-ok http10 = refl
version-ok http11 = refl

version-line :
    (v : Version)
    → (all_bytes line_byte_ok (version_text v) ≡ true)
      × (all_bytes head_byte_ok (version_text v) ≡ true)
      × Without b'\r' (version_text v)
unfolding all_bytes
version-line http10 = (refl, refl, omega arith)
version-line http11 = (refl, refl, omega arith)

-- A target that is well formed and short, and that stays inside the tree.
pub record IsTarget (path : Bytes) (query : Option Bytes) : Type 0 where
  pub slash : starts_with_slash path ≡ true
  pub no_mark : Without b'?' path
  pub path_fits : length path < path_max
  pub query_fits : length (query_of query) < query_max
  pub visible : AreVisible (target_of path query)
  pub stays_inside : path_is_unsafe path ≡ false

accepted :
    {path : Bytes} {query : Option Bytes}
    → IsTarget path query
    → accept path (query_of query) ≡ ok (record { path = path; query = query_of query })
unfolding accept
accepted t = ground (arith, t.path_fits, t.query_fits, t.stays_inside)

split :
    (path : Bytes) (query : Option Bytes)
    → IsTarget path query
    → split_target (target_of path query) (find_byte b'?' (target_of path query))
      ≡ ok (record { path = path; query = query_of query })
unfolding split_target
split path none t = rw (find_byte-none b'?' path t.no_mark) (accepted t)
split path (some query) t =
    rw (find_byte-here b'?' path query t.no_mark)
      (rw (take_first path (b'?' ∷ query), drop_first path query b'?') (accepted t))

slash_first :
    (path : Bytes) (query : Option Bytes)
    → starts_with_slash path ≡ true
    → starts_with_slash (target_of path query) ≡ true
slash_first [] none h = h
slash_first [] (some q) h = absurd (cc h)
slash_first (c ∷ cs) none h = h
slash_first (c ∷ cs) (some q) h = h

target :
    (path : Bytes) (query : Option Bytes)
    → IsTarget path query
    → check_target (target_of path query) ≡ ok (record { path = path; query = query_of query })
unfolding check_target
target path query t =
    rw (slash_first path query t.slash, (AreVisible-ok (target_of path query) t.visible).0)
      (split path query t)

get_ok : equal (b'G' ∷ b'E' ∷ b'T' ∷ []) get_method ≡ true
unfolding equal
get_ok = refl

behind_method :
    (path : Bytes) (query : Option Bytes) (v : Version)
    → IsTarget path query
    → parse_target
        (target_of path query ++ b' ' ∷ version_text v)
        (find_byte b' ' (target_of path query ++ b' ' ∷ version_text v))
      ≡ ok (record { path = path; query = query_of query })
unfolding parse_target
behind_method path query v t =
    rw
      (find_byte-here b' ' (target_of path query) (version_text v)
        (AreVisible-Without b' ' (target_of path query) t.visible (omega arith)))
      (rw
        (
          take_first (target_of path query) (b' ' ∷ version_text v),
          drop_first (target_of path query) (version_text v) b' ',
          version-ok v,
        )
        (target path query t))

line :
    (path : Bytes) (query : Option Bytes) (v : Version)
    → IsTarget path query
    → parse_method
        (line_of (target_of path query) v)
        (find_byte b' ' (line_of (target_of path query) v))
      ≡ ok (record { path = path; query = query_of query })
unfolding parse_method
line path query v t =
    rw
      (find_byte-here b' ' (b'G' ∷ b'E' ∷ b'T' ∷ []) (target_of path query ++ b' ' ∷ version_text v)
        (omega arith))
      (rw get_ok (behind_method path query v t))

-- The request line followed by header lines, the blank line and anything else.
module _ (path : Bytes) (query : Option Bytes) (v : Version) (headers more : Bytes)
    (t : IsTarget path query) where
  first : Bytes
  first = line_of (target_of path query) v

  ends : Bytes
  ends = first ++ (crlf ++ (headers ++ crlf))

  line_ok :
      (all_bytes line_byte_ok first ≡ true)
      × (all_bytes head_byte_ok first ≡ true)
      × Without b'\r' first
  unfolding first all_bytes
  line_ok =
      let (a, b, c) = AreVisible-ok (target_of path query) t.visible in
      let (d, e, f) = version-line v in
      (
        all_bytes-append line_byte_ok (target_of path query) (b' ' ∷ version_text v) b d,
        all_bytes-append head_byte_ok (target_of path query) (b' ' ∷ version_text v) c e,
        (
          omega arith,
          (
            omega arith,
            (
              omega arith,
              (
                omega arith,
                Without-append b'\r' (target_of path query) (b' ' ∷ version_text v)
                    (AreVisible-Without b'\r' (target_of path query) t.visible (omega arith))
                    (omega arith, f),
              ),
            ),
          ),
        ),
      )

  ends_ok : all_bytes head_byte_ok headers ≡ true → all_bytes head_byte_ok ends ≡ true
  unfolding ends
  ends_ok h =
      all_bytes-append head_byte_ok first (crlf ++ (headers ++ crlf)) line_ok.1
        (unfold all_bytes in all_bytes-append head_byte_ok headers crlf h refl)

  first_cut : take (length first + 0) ends ≡ first
  unfolding ends
  first_cut = ap (λ k. take k ends) (omega arith) ∙ take_first first (crlf ++ (headers ++ crlf))

  first_line :
      parse_line ends (find_text crlf ends) ≡ ok (record { path = path; query = query_of query })
  unfolding parse_line ends
  first_line =
      rw
        (find_text-skip b'\r' (b'\n' ∷ []) first (crlf ++ (headers ++ crlf)) 0 line_ok.2
          (unfold find_text starts_with place in refl))
        (rw first_cut (rw line_ok.0 (unfold first in line path query v t)))

  length-ends : length ends ≡ length first + length headers + 4
  unfolding ends
  length-ends =
      omega (arith, length-append first (crlf ++ (headers ++ crlf)), length-append headers crlf)

  ends-append : first ++ (crlf ++ (headers ++ (crlf ++ more))) ≡ ends ++ more
  unfolding ends
  ends-append = simp append_assoc

  head_cut :
      take (length first + length headers + 4) (first ++ (crlf ++ (headers ++ (crlf ++ more))))
      ≡ ends
  head_cut =
      ap (take (length first + length headers + 4)) ends-append
      ∙ (ap (λ k. take k (ends ++ more)) (sym length-ends) ∙ take_first ends more)

  -- A GET of a well-formed target of the allowed length, with either version, any header lines
  -- without stray control bytes, and a blank line that is the first one, is accepted if it has at
  -- most 4096 bytes, as exactly its path and its query; what follows the blank line is not read.
  pub http_parse_request-ok :
      find_text end_of_head (crlf ++ (headers ++ (crlf ++ more))) ≡ some (length headers)
      → all_bytes head_byte_ok headers ≡ true
      → length (line_of (target_of path query) v) + length headers + 4 ≤ max_request
      → http_parse_request
          (line_of (target_of path query) v ++ (crlf ++ (headers ++ (crlf ++ more))))
        ≡ ok (record { path = path; query = query_of query })
  unfolding http_parse_request parse_from parse_request_head first
  http_parse_request-ok h good fits =
      rw
        (find_text-skip b'\r' (b'\n' ∷ b'\r' ∷ b'\n' ∷ []) first
          (crlf ++ (headers ++ (crlf ++ more))) (length headers) line_ok.2 h)
        (rw
          (
            head_cut,
            le→ltb max_request (length ends) (omega (arith, length-ends, fits)),
            ends_ok good,
          )
          first_line)
