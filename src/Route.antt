-- ===== src/Route.antt =====
-- src/interface/route.c: the handler that maps a URL to a request line for the source, and the
-- source's reply to JSON. The source and the page's text are arguments; a source that answers -1
-- gives `none`.
pub mod Url
pub mod Show
pub mod RequestLine
pub mod Replies
mod Tests
use cs370_term_project.Prelude.{
  ℕ, Bool, true, false, not, Option, none, some, List, [], ◌∷◌, ◌++◌, ◌==◌, if◌then◌else◌, length,
  drop,
}
use cs370_term_project.Prelude.Bytes.{Bytes}
use cs370_term_project.Text.{codes, equal, starts_with}
use cs370_term_project.Kv.{Parsed, record_line, ok_line, err_line, bad, kv_reply_check}
use cs370_term_project.Http.Request.{Request}
use cs370_term_project.Server.Write.{Response}
use cs370_term_project.Route.Url.{Built, why, line, line_max, build_series}
use cs370_term_project.Route.Show.{
  Reply, Shown, shown, not_shown, set_text, set_error, status_for_code, records_to_json,
}

-- The paths under /api/ with their verbs.
abbrev pub api : List (Bytes × Bytes)
api =
    (codes "/api/status", codes "status")
    ∷ (codes "/api/verdicts", codes "verdicts")
    ∷ (codes "/api/faults", codes "faults")
    ∷ (codes "/api/series", codes "series")
    ∷ []

-- The verb of a path: the last that fits.
unfoldable pub find_verb : Bytes → List (Bytes × Bytes) → Option Bytes
find_verb path [] = none
find_verb path ((p, verb) ∷ rest) = elim (find_verb path rest) [
  | some v ↦ some v
  | none ↦ if equal path p then some verb else none
]

unfoldable pub request_line : Bytes → Bytes → Built
request_line verb query =
    if equal verb (codes "series")
    then build_series query line_max
    else if not (length query == 0)
    then why (codes "this route takes no query")
    else line verb

unfoldable pub on_shown : ℕ → Shown → Reply
on_shown cap (shown r) = r
on_shown cap (not_shown reason) = set_error cap 500 (codes "internal") reason

unfoldable pub on_reply : ℕ → Bytes → Option Parsed → Reply
on_reply cap text (some ok_line) = on_shown cap (records_to_json cap text)
on_reply cap text (some (err_line e)) =
    set_error cap (status_for_code e.err_code) e.err_code e.err_reason
on_reply cap text (some (record_line l)) =
    set_error cap 500 (codes "internal") (codes "malformed source reply")
on_reply cap text (some bad) = set_error cap 500 (codes "internal") (codes "malformed source reply")
on_reply cap text none = set_error cap 500 (codes "internal") (codes "malformed source reply")

unfoldable pub on_answer : ℕ → Option Bytes → Reply
on_answer cap none = set_error cap 500 (codes "internal") (codes "reply did not fit")
on_answer cap (some text) = on_reply cap text (kv_reply_check text)

unfoldable pub on_built : (Bytes → Option Bytes) → ℕ → Built → Reply
on_built source cap (why reason) = set_error cap 400 (codes "usage") reason
on_built source cap (line text) = on_answer cap (source text)

unfoldable pub on_verb : (Bytes → Option Bytes) → ℕ → Bytes → Option Bytes → Reply
on_verb source cap query none = set_error cap 404 (codes "not_found") (codes "no such route")
on_verb source cap query (some verb) = on_built source cap (request_line verb query)

unfoldable pub route : Bytes → (Bytes → Option Bytes) → ℕ → Request → Reply
route page source cap req =
    if equal req.path (codes "/")
    then if not (length req.query == 0)
      then set_text cap 400 (codes "text/plain") (codes "bad request\n")
      else set_text cap 200 (codes "text/html; charset=utf-8") page
    else if not (starts_with (codes "/api/") req.path)
    then set_text cap 404 (codes "text/plain") (codes "not found\n")
    else on_verb source cap req.query (find_verb req.path api)

-- What it leaves in the response, where the buffer held `held`.
unfoldable pub route_handle : Bytes → (Bytes → Option Bytes) → Bytes → Request → Response
route_handle page source held req =
    let r = route page source (length held) req in
    record {
      status = r.status;
      ctype = some r.ctype;
      body = r.text ++ drop (length r.text) held;
      body_len = length r.text;
    }
