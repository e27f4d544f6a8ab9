-- ===== src/Http/Request/Room.antt =====
-- A request that is not complete yet leaves room for more of it.
use cs370_term_project.Prelude.{
  ℕ, ◌+◌, ◌<◌, ◌≡◌, ◌≢◌, Bool, true, false, not, ◌||◌, Option, none, some, leb, ltb, if◌then◌else◌,
  arith, length, take, drop,
}
use cs370_term_project.Prelude.Bytes.{Bytes}
use cs370_term_project.Text.{equal, find_byte, find_text, all_bytes}
use cs370_term_project.Http.{path_max, path_is_unsafe}
use cs370_term_project.Http.Request.{
  Parse, incomplete, bad, bad_method, too_large, max_request, query_max, is_version, get_method,
  line_byte_ok, head_byte_ok, target_byte_ok, starts_with_slash, crlf, end_of_head, accept,
  split_target, check_target, parse_target, parse_method, parse_line, parse_request_head,
  parse_from, http_parse_request,
}

if-ne :
    (b : Bool) (p q : Parse) → p ≢ incomplete → q ≢ incomplete → (if b then p else q) ≢ incomplete
if-ne true p q hp hq = hp
if-ne false p q hp hq = hq

accept-ne : (path query : Bytes) → accept path query ≢ incomplete
unfolding accept
accept-ne path query =
    if-ne (leb path_max (length path) || leb query_max (length query)) bad _ (λ e. cc e)
      (if-ne (path_is_unsafe path) bad _ (λ e. cc e) (λ e. cc e))

split_target-ne : (t : Bytes) (q : Option ℕ) → split_target t q ≢ incomplete
unfolding split_target
split_target-ne t none = accept-ne t _
split_target-ne t (some q) = accept-ne (take q t) (drop (q + 1) t)

check_target-ne : (t : Bytes) → check_target t ≢ incomplete
unfolding check_target
check_target-ne t =
    if-ne (not (starts_with_slash t)) bad _ (λ e. cc e)
      (if-ne (not (all_bytes target_byte_ok t)) bad _ (λ e. cc e)
        (split_target-ne t (find_byte b'?' t)))

parse_target-ne : (rest : Bytes) (o : Option ℕ) → parse_target rest o ≢ incomplete
unfolding parse_target
parse_target-ne rest none = λ e. cc e
parse_target-ne rest (some n) =
    if-ne (not (is_version (drop (n + 1) rest))) bad _ (λ e. cc e) (check_target-ne (take n rest))

parse_method-ne : (line : Bytes) (o : Option ℕ) → parse_method line o ≢ incomplete
unfolding parse_method
parse_method-ne line none = λ e. cc e
parse_method-ne line (some n) =
    if-ne (not (equal (take n line) get_method)) bad_method _ (λ e. cc e)
      (parse_target-ne (drop (n + 1) line) (find_byte b' ' (drop (n + 1) line)))

parse_line-ne : (head : Bytes) (o : Option ℕ) → parse_line head o ≢ incomplete
unfolding parse_line
parse_line-ne head none = λ e. cc e
parse_line-ne head (some n) =
    if-ne (not (all_bytes line_byte_ok (take n head))) bad _ (λ e. cc e)
      (parse_method-ne (take n head) (find_byte b' ' (take n head)))

parse_request_head-ne : (head : Bytes) → parse_request_head head ≢ incomplete
unfolding parse_request_head
parse_request_head-ne head =
    if-ne (ltb max_request (length head)) too_large _ (λ e. cc e)
      (if-ne (not (all_bytes head_byte_ok head)) bad _ (λ e. cc e)
        (parse_line-ne head (find_text crlf head)))

parse_from-lt :
    (buf : Bytes) (o : Option ℕ) → parse_from buf o ≡ incomplete → length buf < max_request
unfolding parse_from
parse_from-lt buf none h = ground arith
parse_from-lt buf (some n) h = absurd (parse_request_head-ne (take (n + 4) buf) h)

pub incomplete-lt : (buf : Bytes) → http_parse_request buf ≡ incomplete → length buf < max_request
unfolding http_parse_request
incomplete-lt buf h = parse_from-lt buf (find_text end_of_head buf) h
