-- ===== src/Server/Write.antt =====
-- Answers: laying a response out, checking what a handler returned, and sending.
use cs370_term_project.Prelude.{
  ℕ, zero, suc, ◌+◌, ◌-◌, ◌^◌, Bool, true, false, not, ◌||◌, Option, none, some, List, [], ◌∷◌,
  ◌++◌, ltb, ◌==◌, if◌then◌else◌, length, take, drop, min,
}
use cs370_term_project.Prelude.Bytes.{Bytes}
use cs370_term_project.Prelude.Words.{add64}
use cs370_term_project.Text.{codes, all_bytes}
use cs370_term_project.Http.Request.{Request, Parse, incomplete, bad, bad_method, too_large, ok}
use cs370_term_project.Http.Head.{http_write_head}
use cs370_term_project.Server.{
  Conn, writing, head_max, body_max, allowance_ms, drain_max, close_conn,
}

-- A result of `send`: EINTR, another error, or the number of bytes taken, which is at most what was
-- offered. A list of results that ends early stands for EAGAIN.
pub data Send : Type 0 where
  interrupted failed : Send
  sent : ℕ → Send

-- A result of `recv`: EAGAIN or EINTR, another error, the end of the stream, or some bytes.
pub data Recv : Type 0 where
  again broken ended : Recv
  received : ℕ → Bytes → Recv

-- server_response_t: what a handler made of it. The body's buffer has SERVER_BODY_MAX bytes, which
-- are those of `body`; a NULL type is `none`.
pub record Response : Type 0 where
  pub status : ℕ
  pub ctype : Option Bytes
  pub body : Bytes
  pub body_len : ℕ

-- What one call for a connection meets: its `recv`, the handler if it is called, its `send`s.
pub record Io : Type 0 where
  pub recv : Recv
  pub handler : Request → Response
  pub sends : List Send

-- What becomes of a response that `http_write_head` has a head for, or not.
unfoldable pub lay_out : Conn → ℕ → Bytes → Option Bytes → Option Conn
lay_out c body_len body none = none
lay_out c body_len body (some head) = some (record c {
  out_pos = head_max - length head;
  out_end = head_max + body_len;
  unsent = head ++ take body_len body;
})

unfoldable pub finish : Conn → ℕ → Option Bytes → ℕ → Bytes → Option Conn
finish c status ctype body_len body =
    lay_out c body_len body (http_write_head head_max status ctype body_len)

-- The loop of `send`, with `out_pos` and what is left to send.
pub data Sent : Type 0 where
  all_sent send_failed : Sent
  would_block : ℕ → Bytes → Sent

unfoldable pub send_all : List Send → ℕ → Bytes → Sent
send_all results pos [] = all_sent
send_all [] pos (b ∷ bs) = would_block pos (b ∷ bs)
send_all (interrupted ∷ results) pos (b ∷ bs) = send_all results pos (b ∷ bs)
send_all (failed ∷ results) pos (b ∷ bs) = send_failed
send_all (sent zero ∷ results) pos (b ∷ bs) = send_failed
send_all (sent (suc n) ∷ results) pos (b ∷ bs) =
    send_all results (pos + min (suc n) (length (b ∷ bs))) (drop n bs)

-- How much unread input is thrown away: until `recv` gives nothing, or there is too much.
unfoldable pub drain : List ℕ → ℕ → ℕ
drain [] total = total
drain (zero ∷ chunks) total = total
drain (suc r ∷ chunks) total = if ltb total drain_max then drain chunks (total + suc r) else total

-- Whether the response has been served, and the connection; draining and the shutdown change
-- neither.
unfoldable pub on_sent : Conn → Sent → Bool × Conn
on_sent c all_sent = (true, close_conn c)
on_sent c send_failed = (false, close_conn c)
on_sent c (would_block pos rest) = (false, record c { out_pos = pos; unsent = rest })

unfoldable pub conn_write : List Send → Conn → Bool × Conn
conn_write sends c = on_sent c (send_all sends c.out_pos c.unsent)

unfoldable pub begin_write : ℕ → List Send → Conn → Bool × Conn
begin_write now sends c =
    conn_write sends (record c { state = writing; deadline_ms = add64 now allowance_ms })

abbrev pub internal_error_body : Bytes
internal_error_body = codes "internal error\n"

abbrev pub text_plain : Bytes
text_plain = codes "text/plain"

abbrev pub or_same : Conn → Option Conn → Conn
or_same c none = c
or_same c (some d) = d

unfoldable pub fail_500 : Conn → Conn
fail_500 c =
    or_same c (finish c 500 (some text_plain) (length internal_error_body) internal_error_body)

abbrev pub or_500 : Conn → Option Conn → Conn
or_500 c none = fail_500 c
or_500 c (some d) = d

unfoldable pub refusal_text : Parse → Bytes
refusal_text bad_method = codes "method not allowed\n"
refusal_text too_large = codes "request headers too large\n"
refusal_text bad = codes "bad request\n"
refusal_text incomplete = codes "bad request\n"
refusal_text (ok r) = codes "bad request\n"

-- A refusal is its status; the other two values, 0 and -1, are no status.
unfoldable pub refusal_status : Parse → ℕ
refusal_status bad = 400
refusal_status bad_method = 405
refusal_status too_large = 431
refusal_status (ok r) = 0
refusal_status incomplete = 2 ^ 32 - 1

unfoldable pub refusal : Conn → Parse → Conn
refusal c p =
    or_500 c
      (finish c (refusal_status p) (some text_plain) (length (refusal_text p)) (refusal_text p))

unfoldable pub respond_error : ℕ → List Send → Conn → Parse → Bool × Conn
respond_error now sends c p = begin_write now sends (refusal c p)

abbrev pub ctype_byte_ok : ℕ → Bool
ctype_byte_ok c = not (ltb c 0x20 || c == 0x7f)

unfoldable pub ctype_ok : Option Bytes → Bool
ctype_ok none = false
ctype_ok (some t) = all_bytes ctype_byte_ok t

-- The response of a handler, if it is one.
unfoldable pub checked : Conn → Response → Conn
checked c r =
    if ltb body_max r.body_len || not (ctype_ok r.ctype)
    then fail_500 c
    else or_500 c (finish c r.status r.ctype r.body_len r.body)

unfoldable pub dispatch : ℕ → Io → Conn → Request → Bool × Conn
dispatch now io c req = begin_write now io.sends (checked c (io.handler req))
