-- ===== src/Route/Tests.antt =====
-- A series that is asked for with all its keys, and the records of a status.
use cs370_term_project.Prelude.{
  ℕ, ◌≡◌, Option, some, [], ◌++◌, refl, length, length-replicate, replicate,
}
use cs370_term_project.Prelude.Bytes.{Bytes}
use cs370_term_project.Text.{codes, equal, find_byte, place, print_digits, all_bytes, starts_with}
use cs370_term_project.Http.{
  decode, decode_loop, put_byte, pair_value, find_value, decode_found, http_query_get,
}
use cs370_term_project.Http.Request.{Request}
use cs370_term_project.Http.Head.{status_text, head_text}
use cs370_term_project.Server.{free_conn, body_max}
use cs370_term_project.Server.Write.{checked}
use cs370_term_project.Route.Url.{
  why, line, safe_value, key_index, name_of, mark_key, behind_pair, check_pairs, check_keys,
  add_text, add_value, add_keys, on_checked, build_series,
}
use cs370_term_project.Route.Show.{
  set_text, set_json, set_error, status_for_code, field_calls, on_record, reply_calls, show_json,
  show_records, records_to_json,
}
use cs370_term_project.Kv.{
  all_ident, is_name, with_reason, parse_err, token_len, has_key, bare_value, quoted_value,
  value_of, put_field, add_field, on_field, parse_fields, is_printable, parse_record, parse_head,
  kv_parse_line, next_at, kv_reply_next, on_line, check_lines, kv_reply_check, get_from, kv_get,
}
use cs370_term_project.Json.{
  put, put_char, next_item, begin_at, begin_value, end_value, when_begun, put_scalar, escape,
  put_escaped, put_quoted, json_init, open_level, begin_container, close_level, end_container,
  key_at, json_key, json_string, json_bool, json_null, skip_digits, skip_minus, skip_int,
  skip_some_digits, skip_fraction, skip_sign, skip_exponent, is_number, json_is_number, json_number,
  json_finish,
}
use cs370_term_project.Json.Calls.{call, calls}
use cs370_term_project.Route.{
  find_verb, request_line, on_shown, on_reply, on_answer, on_built, on_verb, route, route_handle,
  api,
}
use cs370_term_project.Route.RequestLine.{IsSourceLine, request_line-IsSourceLine}
use cs370_term_project.Route.Replies.{route_handle-sent}

abbrev series_query : Bytes
series_query = codes "from=-5m&pid=0C&to=1800000000"

abbrev series_line : Bytes
series_line = codes "series pid=\"0C\" from=\"-5m\" to=1800000000"

series_verb : find_verb (codes "/api/series") api ≡ some (codes "series")
unfolding find_verb equal
series_verb = refl

series_built : request_line (codes "series") series_query ≡ line series_line
unfolding request_line build_series on_checked check_keys check_pairs behind_pair mark_key key_index
    name_of add_keys add_value add_text safe_value http_query_get decode_found find_value pair_value
    decode decode_loop put_byte equal all_bytes
series_built = refl

-- An `&` at the end.
series_refused : request_line (codes "series") (codes "pid=0C&") ≡ why (codes "empty query pair")
unfolding request_line build_series on_checked check_keys check_pairs behind_pair mark_key key_index
    name_of equal
series_refused = refl

request_line-IsSourceLine_example : IsSourceLine series_line
request_line-IsSourceLine_example =
    request_line-IsSourceLine (codes "/api/series") series_query (codes "series") series_line
      series_verb series_built

abbrev status_request : Request
status_request = record { path = codes "/api/status"; query = [] }

abbrev one_process : Bytes → Option Bytes
one_process asked = some (codes "proc name=\"obdd\" pid=102\nok\n")

abbrev status_json : Bytes
status_json = codes "{\"ok\":true,\"records\":[{\"tag\":\"proc\",\"name\":\"obdd\",\"pid\":102}]}"

abbrev held : Bytes
held = replicate body_max 0

route_handle-sent_example :
    let r = route (codes "page") one_process (length held) status_request in
    (text : Bytes) × (status_text r.status ≡ some text)
    × ((checked free_conn (route_handle (codes "page") one_process held status_request)).unsent
        ≡ head_text r.status text r.ctype (length r.text) ++ r.text)
route_handle-sent_example =
    route_handle-sent free_conn (codes "page") one_process held status_request
      (length-replicate {A = ℕ} body_max 0)

route-status : (route (codes "page") one_process 1000 status_request).text ≡ status_json
unfolding find_verb request_line on_shown on_reply on_answer on_built on_verb route set_text
    set_json set_error status_for_code field_calls on_record reply_calls show_json show_records
    records_to_json all_ident is_name with_reason parse_err token_len has_key bare_value
    quoted_value value_of put_field add_field on_field parse_fields is_printable parse_record
    parse_head kv_parse_line next_at kv_reply_next on_line check_lines kv_reply_check get_from
    kv_get put put_char next_item begin_at begin_value end_value when_begun put_scalar escape
    put_escaped put_quoted json_init open_level begin_container close_level end_container key_at
    json_key json_string json_bool json_null skip_digits skip_minus skip_int skip_some_digits
    skip_fraction skip_sign skip_exponent is_number json_is_number json_number json_finish equal
    find_byte place starts_with print_digits call calls
route-status = refl
