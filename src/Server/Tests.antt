-- ===== src/Server/Tests.antt =====
-- A server with one client that asks for a page, and one that is too slow.
use cs370_term_project.Prelude.{
  ℕ, ◌-◌, ◌≡◌, true, none, some, [], ◌∷◌, ◌++◌, arith, refl, length-append, length-replicate,
  replicate,
}
use cs370_term_project.Text.{
  codes, find_byte, find_text, place, starts_with, all_bytes, equal, print_digits,
}
use cs370_term_project.Http.{
  decode, decode_loop, put_byte, unsafe_from, unsafe_decoded, path_is_unsafe,
}
use cs370_term_project.Http.Request.{
  Request, accept, split_target, check_target, parse_target, parse_method, parse_line,
  parse_request_head, parse_from, http_parse_request,
}
use cs370_term_project.Http.Head.{http_write_head, write_head, status_text, head_text}
use cs370_term_project.Server.{Conn, Server, reading, free_conn, body_max, close_conn}
use cs370_term_project.Server.Write.{
  received, sent, Response, Io, text_plain, lay_out, finish, send_all, on_sent, conn_write,
  begin_write, ctype_ok, checked, dispatch,
}
use cs370_term_project.Server.Read.{on_parse, on_recv, conn_read}
use cs370_term_project.Server.Step.{
  Turn, ready, acceptable, accepted, count_served, free_slot, admit, accept_loop, accept_new,
  reap_conns, reap, visit_conn, visit_conns, visit_all, on_listener, on_poll, server_step,
}
use cs370_term_project.Server.Conns.{IsConn}
use cs370_term_project.Server.Answers.{FillsBuffer}
use cs370_term_project.Server.Slots.{Slotwise, SlotStep}
use cs370_term_project.Server.Rounds.{
  IsServer, FillRound, server_step-IsServer, server_step-SlotStep,
}
use cs370_term_project.Server.Handlers.{Answer, checked-Answer}

abbrev hello : Request → Response
hello r = record {
  status = 200;
  ctype = some text_plain;
  body = codes "hello" ++ replicate (body_max - 5) 0;
  body_len = 5;
}

hello-FillsBuffer : FillsBuffer hello
hello-FillsBuffer r = omega (
  arith,
  length-append (codes "hello") (replicate (body_max - 5) 0),
  length-replicate {A = ℕ} (body_max - 5) 0,
)

-- A client that sends a whole request at once, and takes some of the answer.
abbrev quick : Io
quick = record {
  recv = received b'G' (codes "ET / HTTP/1.1\r\n\r\n");
  handler = hello;
  sends = sent 100 ∷ [];
}

-- One that was accepted at the time 0 and has sent nothing.
abbrev slow : Conn
slow = record {
  fd = some 7;
  state = reading;
  deadline_ms = 5000;
  out_pos = 0;
  out_end = 0;
  req = [];
  unsent = [];
}

abbrev busy : Server
busy = record {
  listens = true;
  port = 8080;
  accept_resume_ms = 0;
  last_busy_log_ms = 0;
  served = 0;
  drops = 0;
  timeouts = 0;
  conns = slow ∷ free_conn ∷ free_conn ∷ free_conn ∷ [];
}

abbrev round : ℕ → Turn
round now = record {
  before = now;
  after = now;
  poll = ready;
  listener = acceptable;
  accepts = accepted 8 quick ∷ [];
  events = λ i. none;
}

round-FillRound : (now : ℕ) → FillRound (round now)
round-FillRound now = record { accepts = (hello-FillsBuffer, tt); events = λ i io e. absurd (cc e) }

free-IsConn : IsConn free_conn
free-IsConn = record {
  fd_when = refl;
  free_empty = λ e. refl;
  reading_room = λ e. absurd (cc e);
  writing_more = λ e. absurd (cc e);
  writing_ends = λ e. absurd (cc e);
  writing_fits = λ e. absurd (cc e);
}

slow-IsConn : IsConn slow
slow-IsConn = record {
  fd_when = refl;
  free_empty = λ e. refl;
  reading_room = λ e. omega arith;
  writing_more = λ e. absurd (cc e);
  writing_ends = λ e. absurd (cc e);
  writing_fits = λ e. absurd (cc e);
}

busy-IsServer : IsServer busy
busy-IsServer = record {
  count = refl;
  conns = (slow-IsConn, (free-IsConn, (free-IsConn, (free-IsConn, tt))));
}

-- At 5000 the slow client has timed out, and the quick one gets its slot; it is to be sent more.
round_counts : (server_step (round 5000) busy).0 ≡ some 1
unfolding server_step on_poll on_listener visit_all visit_conns visit_conn accept_new accept_loop
    admit free_slot reap reap_conns count_served close_conn conn_read on_recv on_parse
    http_parse_request parse_from parse_request_head parse_line parse_method parse_target
    check_target split_target accept path_is_unsafe unsafe_decoded unsafe_from decode decode_loop
    put_byte equal find_byte find_text place starts_with all_bytes dispatch checked ctype_ok finish
    lay_out http_write_head write_head status_text head_text print_digits begin_write conn_write
    send_all on_sent
round_counts = refl

round_times_out : (server_step (round 5000) busy).1.timeouts ≡ 1
unfolding server_step on_poll on_listener visit_all visit_conns visit_conn accept_new accept_loop
    admit free_slot reap reap_conns count_served close_conn conn_read on_recv on_parse
    http_parse_request parse_from parse_request_head parse_line parse_method parse_target
    check_target split_target accept path_is_unsafe unsafe_decoded unsafe_from decode decode_loop
    put_byte equal find_byte find_text place starts_with all_bytes dispatch checked ctype_ok finish
    lay_out http_write_head write_head status_text head_text print_digits begin_write conn_write
    send_all on_sent
round_times_out = refl

server_step-IsServer_example : IsServer (server_step (round 5000) busy).1
server_step-IsServer_example =
    server_step-IsServer (round 5000) busy (round-FillRound 5000) busy-IsServer

server_step-SlotStep_example :
    Slotwise (SlotStep 5000) busy.conns (server_step (round 5000) busy).1.conns
server_step-SlotStep_example =
    server_step-SlotStep (round 5000) busy 1 (round-FillRound 5000) busy-IsServer refl round_counts

checked-Answer_example :
    Answer
      (hello (record { path = b'/' ∷ []; query = [] }))
      (checked slow (hello (record { path = b'/' ∷ []; query = [] }))).unsent
checked-Answer_example = checked-Answer slow (hello (record { path = b'/' ∷ []; query = [] }))
