-- ===== src/Route/Replies.antt =====
-- Every reply of the handler is one that the server sends as it is.
use cs370_term_project.Prelude.{
  ℕ, suc, ◌≤◌, ◌<◌, ◌≡◌, ◌⊎◌, inl, inr, Bool, true, false, not, ◌||◌, Option, none, some, List, [],
  ◌++◌, ltb, ◌==◌, if◌then◌else◌, arith, refl, ap, ◌∙◌, subst, length, take, drop, length-append,
  take-append, take-length,
}
use cs370_term_project.Prelude.Bytes.{Bytes}
use cs370_term_project.Prelude.Words.{IsU64}
use cs370_term_project.Text.{codes, equal, all_bytes, starts_with}
use cs370_term_project.Text.Print.{length-print_digits}
use cs370_term_project.Json.{Json, json_init, json_finish}
use cs370_term_project.Json.Calls.{Call, calls, calls-IsBounded}
use cs370_term_project.Kv.{Parsed, record_line, ok_line, err_line, bad, kv_reply_check}
use cs370_term_project.Http.Request.{Request}
use cs370_term_project.Http.Head.{status_text, allow, head_text}
use cs370_term_project.Server.{Conn, head_max, body_max}
use cs370_term_project.Server.Write.{ctype_ok, checked}
use cs370_term_project.Server.Handlers.{
  IsRefused, no_status, bad_type, too_long, no_room, Answer, as_asked, as_500, checked-Answer,
}
use cs370_term_project.Route.Url.{Built, why, line}
use cs370_term_project.Route.Show.{
  Reply, empty_500, set_text, set_json, error_calls, set_error, status_for_code, records_around,
  Shown, shown, not_shown, show_json, show_records, reply_calls, records_to_json,
}
use cs370_term_project.Route.{
  api, find_verb, request_line, on_shown, on_reply, on_answer, on_built, on_verb, route,
  route_handle,
}

-- A status that the server can write, a type that it accepts, and a body that fits.
pub record IsReply (cap : ℕ) (r : Reply) : Type 0 where
  pub text : Bytes
  pub known : status_text r.status ≡ some text
  pub text_short : length text ≤ 31
  pub type_ok : ctype_ok (some r.ctype) ≡ true
  pub type_short : length r.ctype ≤ 24
  pub fits : length r.text ≤ cap

-- A status with its text.
record IsKnown (status : ℕ) : Type 0 where
  words : Bytes
  known : status_text status ≡ some words
  short : length words ≤ 31

IsKnown-200 : IsKnown 200
unfolding status_text
IsKnown-200 = record { words = codes "OK"; known = refl; short = omega arith }

IsKnown-400 : IsKnown 400
unfolding status_text
IsKnown-400 = record { words = codes "Bad Request"; known = refl; short = omega arith }

IsKnown-404 : IsKnown 404
unfolding status_text
IsKnown-404 = record { words = codes "Not Found"; known = refl; short = omega arith }

IsKnown-500 : IsKnown 500
unfolding status_text
IsKnown-500 = record { words = codes "Internal Server Error"; known = refl; short = omega arith }

IsKnown-503 : IsKnown 503
unfolding status_text
IsKnown-503 = record { words = codes "Service Unavailable"; known = refl; short = omega arith }

IsReply-with :
    {cap status : ℕ} (ctype text : Bytes)
    → IsKnown status
    → ctype_ok (some ctype) ≡ true
    → length ctype ≤ 24
    → length text ≤ cap
    → IsReply cap (record { status = status; ctype = ctype; text = text })
IsReply-with ctype text k o s f = record {
  text = k.words;
  known = k.known;
  text_short = k.short;
  type_ok = o;
  type_short = s;
  fits = f;
}

empty_500-IsReply : (cap : ℕ) → IsReply cap empty_500
unfolding ctype_ok all_bytes
empty_500-IsReply cap =
    IsReply-with (codes "text/plain") [] IsKnown-500 refl (omega arith) (omega arith)

set_text-IsReply :
    (cap status : ℕ) (ctype text : Bytes)
    → IsKnown status
    → ctype_ok (some ctype) ≡ true
    → length ctype ≤ 24
    → IsReply cap (set_text cap status ctype text)
unfolding set_text
set_text-IsReply cap status ctype text k o s = go (ltb cap (length text)) refl
  where
    go :
        (b : Bool)
        → ltb cap (length text) ≡ b
        → IsReply cap
            (if b then empty_500 else record { status = status; ctype = ctype; text = text })
    go true e = empty_500-IsReply cap
    go false e = IsReply-with ctype text k o s (ground (arith, e))

set_json-IsReply :
    (cap status : ℕ) (text : Bytes) (o : Option ℕ)
    → IsKnown status
    → length text ≤ cap
    → IsReply cap (set_json status text o)
unfolding set_json ctype_ok all_bytes
set_json-IsReply cap status text none k f = empty_500-IsReply cap
set_json-IsReply cap status text (some n) k f =
    IsReply-with (codes "application/json") text k refl (omega arith) f

-- What the writer has written fits its buffer, whatever calls were made.
written-le : (cap : ℕ) (cs : List Call) → IsU64 cap → length (calls (json_init cap) cs).buf ≤ cap
written-le cap cs u = let (b, same) = calls-IsBounded cap cs u in go b.room same
  where
    j : Json
    j = calls (json_init cap) cs

    go :
        (length j.buf < j.cap) ⊎ (j.failed ≡ true) × (j.buf ≡ []) → j.cap ≡ cap → length j.buf ≤ cap
    go (inl l) e = omega arith
    go (inr (f, n)) e = omega (arith, ap length n)

module _ (cap : ℕ) (u : IsU64 cap) where
  set_error-IsReply :
      (status : ℕ) (code reason : Bytes)
      → IsKnown status
      → IsReply cap (set_error cap status code reason)
  unfolding set_error
  set_error-IsReply status code reason k =
      set_json-IsReply cap status (calls (json_init cap) (error_calls code reason)).buf _ k
        (written-le cap (error_calls code reason) u)

  status_for_code-IsKnown : (code : Bytes) → IsKnown (status_for_code code)
  unfolding status_for_code
  status_for_code-IsKnown code =
      go (equal code (codes "usage"))
        (equal code (codes "unknown_pid") || equal code (codes "unknown_verb"))
        (equal code (codes "unavailable"))
    where
      go : (a b c : Bool) → IsKnown (if a then 400 else if b then 404 else if c then 503 else 500)
      go true b c = IsKnown-400
      go false true c = IsKnown-404
      go false false true = IsKnown-503
      go false false false = IsKnown-500

  AreShown : Shown → Type 0
  AreShown (shown r) = IsReply cap r
  AreShown (not_shown reason) = Unit {0}

  show_records-AreShown : (o : Option (List Call)) → AreShown (show_records cap o)
  unfolding show_records show_json AreShown
  show_records-AreShown none = tt
  show_records-AreShown (some records) = go (json_finish j)
    where
      j : Json
      j = calls (json_init cap) (records_around records)

      go : (o : Option ℕ) → AreShown (show_json j o)
      go none = tt
      go (some n) =
          set_json-IsReply cap 200 j.buf (some n) IsKnown-200
            (written-le cap (records_around records) u)

  on_shown-IsReply : (s : Shown) → AreShown s → IsReply cap (on_shown cap s)
  unfolding on_shown AreShown
  on_shown-IsReply (shown r) h = h
  on_shown-IsReply (not_shown reason) h =
      set_error-IsReply 500 (codes "internal") reason IsKnown-500

  on_reply-IsReply : (text : Bytes) (o : Option Parsed) → IsReply cap (on_reply cap text o)
  unfolding on_reply records_to_json
  on_reply-IsReply text (some ok_line) =
      on_shown-IsReply _ (show_records-AreShown (reply_calls (suc (length text)) text))
  on_reply-IsReply text (some (err_line e)) =
      set_error-IsReply _ e.err_code e.err_reason (status_for_code-IsKnown e.err_code)
  on_reply-IsReply text (some (record_line l)) =
      set_error-IsReply 500 (codes "internal") (codes "malformed source reply") IsKnown-500
  on_reply-IsReply text (some bad) =
      set_error-IsReply 500 (codes "internal") (codes "malformed source reply") IsKnown-500
  on_reply-IsReply text none =
      set_error-IsReply 500 (codes "internal") (codes "malformed source reply") IsKnown-500

  module _ (page : Bytes) (source : Bytes → Option Bytes) where
    on_answer-IsReply : (o : Option Bytes) → IsReply cap (on_answer cap o)
    unfolding on_answer
    on_answer-IsReply none =
        set_error-IsReply 500 (codes "internal") (codes "reply did not fit") IsKnown-500
    on_answer-IsReply (some text) = on_reply-IsReply text (kv_reply_check text)

    on_built-IsReply : (b : Built) → IsReply cap (on_built source cap b)
    unfolding on_built
    on_built-IsReply (why reason) = set_error-IsReply 400 (codes "usage") reason IsKnown-400
    on_built-IsReply (line text) = on_answer-IsReply (source text)

    on_verb-IsReply : (query : Bytes) (o : Option Bytes) → IsReply cap (on_verb source cap query o)
    unfolding on_verb
    on_verb-IsReply query none =
        set_error-IsReply 404 (codes "not_found") (codes "no such route") IsKnown-404
    on_verb-IsReply query (some verb) = on_built-IsReply (request_line verb query)

    route-IsReply : (req : Request) → IsReply cap (route page source cap req)
    unfolding route ctype_ok all_bytes
    route-IsReply req =
        go (equal req.path (codes "/")) (not (length req.query == 0))
          (not (starts_with (codes "/api/") req.path))
      where
        go :
            (a b c : Bool)
            → IsReply cap (
                if a
                then if b
                  then set_text cap 400 (codes "text/plain") (codes "bad request\n")
                  else set_text cap 200 (codes "text/html; charset=utf-8") page
                else if c
                then set_text cap 404 (codes "text/plain") (codes "not found\n")
                else on_verb source cap req.query (find_verb req.path api))
        go true true c =
            set_text-IsReply cap 400 (codes "text/plain") _ IsKnown-400 refl (omega arith)
        go true false c =
            set_text-IsReply cap 200 (codes "text/html; charset=utf-8") _ IsKnown-200 refl
              (omega arith)
        go false b true =
            set_text-IsReply cap 404 (codes "text/plain") _ IsKnown-404 refl (omega arith)
        go false b false = on_verb-IsReply req.query (find_verb req.path api)

length-allow : (status : ℕ) → length (allow status) ≤ 12
length-allow status = go (status == 405)
  where
    go : (b : Bool) → length (if b then codes "Allow: GET\r\n" else []) ≤ 12
    go true = omega arith
    go false = omega arith

length-head_text :
    (status n : ℕ) (text ctype : Bytes)
    → length text ≤ 31
    → length ctype ≤ 24
    → length (head_text status text ctype n) < head_max
unfolding head_text
length-head_text status n text ctype a b = omega (
  arith,
  length-append {0},
  length-print_digits 20 10 status [],
  length-print_digits 20 10 n [],
  length-allow status,
)

-- Every request is answered, whatever the source replies and whatever the page is: the server sends
-- what the handler left, unchanged, with a status that it can write, a type that it accepts and a
-- body that fits; it never has to put the fixed 500 in its place.
pub route_handle-sent :
    (c : Conn) (page : Bytes) (source : Bytes → Option Bytes) (held : Bytes) (req : Request)
    → length held ≡ body_max
    → let r = route page source (length held) req in
      (text : Bytes) × (status_text r.status ≡ some text)
      × ((checked c (route_handle page source held req)).unsent
          ≡ head_text r.status text r.ctype (length r.text) ++ r.text)
unfolding route_handle
route_handle-sent c page source held req l =
    go (checked-Answer c (route_handle page source held req))
  where
    r : Reply
    r = route page source (length held) req

    i : IsReply (length held) r
    i = route-IsReply (length held) (omega (arith, l)) page source req

    body : take (length r.text) (r.text ++ drop (length r.text) held) ≡ r.text
    body =
        take-append (length r.text) r.text _ (omega arith) ∙ take-length (length r.text) r.text refl

    sendable : IsRefused (route_handle page source held req) → ⊥
    sendable (no_status e) = cc (e, i.known)
    sendable (bad_type e) = cc (e, i.type_ok)
    sendable (too_long n) = omega (arith, i.fits, l)
    sendable (no_room text t s e n) =
        let et : r.ctype ≡ t = cc e in
        let es : i.text ≡ text = cc (s, i.known) in
        let short =
          length-head_text r.status (length r.text) text t
            (subst (λ x. length x ≤ 31) es i.text_short)
            (subst (λ x. length x ≤ 24) et i.type_short) in
        omega (arith, n, short)

    go :
        {sent : Bytes}
        → Answer (route_handle page source held req) sent
        → (text : Bytes) × (status_text r.status ≡ some text)
          × (sent ≡ head_text r.status text r.ctype (length r.text) ++ r.text)
    go (as_asked sent text t s e h n q) =
        let et : t ≡ r.ctype = cc e in
        (
          text,
          s,
          q
              ∙ ap
                  (λ x.
                    head_text r.status text x (length r.text)
                    ++ take (length r.text) (r.text ++ drop (length r.text) held))
                  et
              ∙ ap (◌++◌ (head_text r.status text r.ctype (length r.text))) body,
        )
    go (as_500 sent w q) = absurd (sendable w)
