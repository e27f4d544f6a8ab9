-- ===== src/Http/Request.antt =====
-- `http_parse_request` of src/interface/http.c: the bytes read so far, and what they are.
pub mod Safety
pub mod Room
pub mod Complete
use cs370_term_project.Prelude.{
  ℕ, ◌+◌, ◌-◌, Bool, true, false, not, ◌&&◌, ◌||◌, Option, none, some, [], ◌∷◌, ltb, leb, ◌==◌,
  if◌then◌else◌, length, take, drop,
}
use cs370_term_project.Prelude.Bytes.{Bytes}
use cs370_term_project.Text.{codes, equal, find_byte, find_text, all_bytes}
use cs370_term_project.Http.{path_max, path_is_unsafe}

abbrev pub max_request : ℕ
max_request = 4096

abbrev pub query_max : ℕ
query_max = 256

-- http_request_t, without the NULs
pub record Request : Type 0 where
  pub path : Bytes
  pub query : Bytes

-- http_parse_t; a request that is not HTTP_OK is not filled in.
pub data Parse : Type 0 where
  incomplete bad bad_method too_large : Parse
  ok : Request → Parse

abbrev pub crlf : Bytes
crlf = b'\r' ∷ b'\n' ∷ []

abbrev pub end_of_head : Bytes
end_of_head = b'\r' ∷ b'\n' ∷ b'\r' ∷ b'\n' ∷ []

abbrev pub get_method : Bytes
get_method = codes "GET"

abbrev pub is_version : Bytes → Bool
is_version v = equal v (codes "HTTP/1.1") || equal v (codes "HTTP/1.0")

abbrev pub head_byte_ok : ℕ → Bool
head_byte_ok c =
    not (ltb c 0x20 && not (c == b'\r') && not (c == b'\n') && not (c == b'\t') || c == 0x7f)

abbrev pub target_byte_ok : ℕ → Bool
target_byte_ok c = not (leb c 0x20 || leb 0x7f c || c == b'\\')

abbrev pub starts_with_slash : Bytes → Bool
starts_with_slash [] = false
starts_with_slash (c ∷ cs) = c == b'/'

-- The last tests, on the two parts of the target.
unfoldable pub accept : Bytes → Bytes → Parse
accept path query =
    if leb path_max (length path) || leb query_max (length query)
    then bad
    else if path_is_unsafe path
    then bad
    else ok (record { path = path; query = query })

-- Where the '?' stands, if there is one.
unfoldable pub split_target : Bytes → Option ℕ → Parse
split_target target none = accept target []
split_target target (some q) = accept (take q target) (drop (q + 1) target)

unfoldable pub check_target : Bytes → Parse
check_target target =
    if not (starts_with_slash target)
    then bad
    else if not (all_bytes target_byte_ok target)
    then bad
    else split_target target (find_byte b'?' target)

-- What is behind the first blank of the line, and where the second one stands in it.
unfoldable pub parse_target : Bytes → Option ℕ → Parse
parse_target rest none = bad
parse_target rest (some n) =
    if not (is_version (drop (n + 1) rest)) then bad else check_target (take n rest)

unfoldable pub parse_method : Bytes → Option ℕ → Parse
parse_method line none = bad
parse_method line (some n) =
    if not (equal (take n line) get_method)
    then bad_method
    else parse_target (drop (n + 1) line) (find_byte b' ' (drop (n + 1) line))

abbrev pub line_byte_ok : ℕ → Bool
line_byte_ok c = not (c == b'\n') && not (c == b'\r')

-- The request line, cut at the first CR LF of the head.
unfoldable pub parse_line : Bytes → Option ℕ → Parse
parse_line head none = bad
parse_line head (some n) =
    if not (all_bytes line_byte_ok (take n head))
    then bad
    else parse_method (take n head) (find_byte b' ' (take n head))

unfoldable pub parse_request_head : Bytes → Parse
parse_request_head head =
    if ltb max_request (length head)
    then too_large
    else if not (all_bytes head_byte_ok head)
    then bad
    else parse_line head (find_text crlf head)

-- Where the head ends, if it does.
unfoldable pub parse_from : Bytes → Option ℕ → Parse
parse_from buf none = if leb max_request (length buf) then too_large else incomplete
parse_from buf (some n) = parse_request_head (take (n + 4) buf)

unfoldable pub http_parse_request : Bytes → Parse
http_parse_request buf = parse_from buf (find_text end_of_head buf)
