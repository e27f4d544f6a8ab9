-- ===== src/Server/Read.antt =====
-- Requests: what is read of one, and what it leads to.
use cs370_term_project.Prelude.{ℕ, ◌-◌, Bool, false, ◌∷◌, ◌++◌, ◌==◌, if◌then◌else◌, length, take}
use cs370_term_project.Http.Request.{
  Parse, incomplete, bad, bad_method, too_large, ok, max_request, http_parse_request,
}
use cs370_term_project.Server.{Conn, close_conn}
use cs370_term_project.Server.Write.{
  Recv, again, broken, ended, received, Io, respond_error, dispatch,
}

unfoldable pub on_parse : ℕ → Io → Conn → Parse → Bool × Conn
on_parse now io c incomplete = (false, c)
on_parse now io c (ok req) = dispatch now io c req
on_parse now io c bad = respond_error now io.sends c bad
on_parse now io c bad_method = respond_error now io.sends c bad_method
on_parse now io c too_large = respond_error now io.sends c too_large

abbrev pub room : Conn → ℕ
room c = max_request - length c.req

-- `recv` takes no more than there is room for.
unfoldable pub on_recv : ℕ → Io → Conn → Recv → Bool × Conn
on_recv now io c again = (false, c)
on_recv now io c broken = (false, close_conn c)
on_recv now io c ended = (false, close_conn c)
on_recv now io c (received b bs) =
    let req = c.req ++ take (room c) (b ∷ bs) in
    on_parse now io (record c { req = req }) (http_parse_request req)

unfoldable pub conn_read : ℕ → Io → Conn → Bool × Conn
conn_read now io c =
    if room c == 0 then respond_error now io.sends c too_large else on_recv now io c io.recv
