-- ===== src/Http/Tests.antt =====
-- A path that hides its dots, and a value with a space in it.
use cs370_term_project.Prelude.{◌<◌, ◌≡◌, true, some, [], ◌∷◌, ◌++◌, arith, refl, length}
use cs370_term_project.Prelude.Bytes.{Bytes}
use cs370_term_project.Text.{
  codes, find_byte, find_text, place, starts_with, all_bytes, equal, print_digits,
}
use cs370_term_project.Http.{
  hexval, unescape, put_byte, decode_loop, decode, unsafe_from, unsafe_decoded, path_is_unsafe,
  pair_value, find_value, decode_found, http_query_get,
}
use cs370_term_project.Http.Decode.{decode-lt}
use cs370_term_project.Http.Request.{
  Request, ok, incomplete, bad, bad_method, crlf, accept, split_target, check_target, parse_target,
  parse_method, parse_line, parse_request_head, parse_from, http_parse_request, head_byte_ok,
}
use cs370_term_project.Http.Request.Safety.{IsSafe, http_parse_request-IsSafe}
use cs370_term_project.Http.Request.Complete.{http11, line_of, IsTarget, http_parse_request-ok}
use cs370_term_project.Http.Head.{http_write_head, head_text, write_head, status_text}

-- /%2e%2e
path_is_unsafe-dots : path_is_unsafe (b'/' ∷ b'%' ∷ b'2' ∷ b'e' ∷ b'%' ∷ b'2' ∷ b'e' ∷ []) ≡ true
unfolding path_is_unsafe unsafe_decoded unsafe_from decode decode_loop put_byte unescape hexval
    equal
path_is_unsafe-dots = refl

decode-space : decode (b'a' ∷ b'+' ∷ b'b' ∷ []) 4 true ≡ some (b'a' ∷ b' ' ∷ b'b' ∷ [])
unfolding decode decode_loop put_byte
decode-space = refl

abbrev decoded_text : Bytes
decoded_text = b'a' ∷ b' ' ∷ b'b' ∷ []

decode-lt_example : length decoded_text < 4
decode-lt_example = decode-lt (b'a' ∷ b'+' ∷ b'b' ∷ []) 4 true decode-space

-- a=1&b=x+y
http_query_get-second :
    http_query_get (b'a' ∷ b'=' ∷ b'1' ∷ b'&' ∷ b'b' ∷ b'=' ∷ b'x' ∷ b'+' ∷ b'y' ∷ []) (b'b' ∷ []) 8
    ≡ some (b'x' ∷ b' ' ∷ b'y' ∷ [])
unfolding http_query_get decode_found find_value pair_value decode decode_loop put_byte equal
http_query_get-second = refl

abbrev series : Request
series = record { path = codes "/api/series"; query = codes "pid=0C" }

abbrev series_text : Bytes
series_text = codes "GET /api/series?pid=0C HTTP/1.1\r\nHost: car\r\n\r\n"

parse-series : http_parse_request series_text ≡ ok series
unfolding http_parse_request parse_from parse_request_head parse_line parse_method parse_target
    check_target split_target accept path_is_unsafe unsafe_decoded unsafe_from decode decode_loop
    put_byte equal find_byte find_text place starts_with all_bytes
parse-series = refl

parse-post : http_parse_request (codes "POST / HTTP/1.1\r\n\r\n") ≡ bad_method
unfolding http_parse_request parse_from parse_request_head parse_line parse_method equal find_byte
    find_text place starts_with all_bytes
parse-post = refl

parse-part : http_parse_request (codes "GET / HTTP/1.1\r\n") ≡ incomplete
unfolding http_parse_request parse_from find_text place starts_with
parse-part = refl

parse-dots : http_parse_request (codes "GET /a/%2e%2e/b HTTP/1.0\r\n\r\n") ≡ bad
unfolding http_parse_request parse_from parse_request_head parse_line parse_method parse_target
    check_target split_target accept path_is_unsafe unsafe_decoded unsafe_from decode decode_loop
    put_byte unescape hexval equal find_byte find_text place starts_with all_bytes
parse-dots = refl

http_parse_request-IsSafe_example : IsSafe series
http_parse_request-IsSafe_example = http_parse_request-IsSafe series_text series parse-series

series-IsTarget : IsTarget (codes "/api/series") (some (codes "pid=0C"))
unfolding path_is_unsafe unsafe_decoded unsafe_from decode decode_loop put_byte equal
series-IsTarget = record {
  slash = refl;
  no_mark = omega arith;
  path_fits = omega arith;
  query_fits = omega arith;
  visible = omega arith;
  stays_inside = refl;
}

headers_end :
    find_text (codes "\r\n\r\n") (crlf ++ (codes "Host: car\r\n" ++ (crlf ++ codes "GET")))
    ≡ some 11
unfolding find_text place starts_with
headers_end = refl

headers_ok : all_bytes head_byte_ok (codes "Host: car\r\n") ≡ true
unfolding all_bytes
headers_ok = refl

http_parse_request-ok_example :
    http_parse_request (
      line_of (codes "/api/series?pid=0C") http11
      ++ (crlf ++ (codes "Host: car\r\n" ++ (crlf ++ codes "GET"))))
    ≡ ok series
http_parse_request-ok_example =
    http_parse_request-ok (codes "/api/series") (some (codes "pid=0C")) http11
      (codes "Host: car\r\n") (codes "GET") series-IsTarget headers_end headers_ok (omega arith)

write_head-not_found :
    http_write_head 256 404 (some (codes "text/plain")) 10
    ≡ some (
        codes
          "HTTP/1.1 404 Not Found\r\nContent-Type: text/plain\r\nContent-Length: 10\r\nConnection: close\r\nCache-Control: no-store\r\nX-Content-Type-Options: nosniff\r\n\r\n")
unfolding http_write_head write_head status_text head_text print_digits
write_head-not_found = refl
