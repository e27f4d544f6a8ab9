-- ===== src/Server.antt =====
-- src/interface/server.c and include/interface/server.h: statusd's connections.
-- A descriptor is its number, or `none` for -1. Of a connection's buffers only the parts in use are
-- kept: `req` is req[0, req_len), and `unsent` is buf[out_pos, out_end). The handler and the clock
-- are not stored: what each call of them gives is an argument of the operation that makes it.
pub mod Write
pub mod Read
pub mod Step
pub mod Conns
pub mod Answers
pub mod Slots
pub mod Accepting
pub mod Rounds
pub mod Handlers
mod Tests
use cs370_term_project.Prelude.{
  ℕ, Bool, true, false, not, ◌&&◌, Option, none, some, List, [], ◌∷◌, if◌then◌else◌, replicate,
}
use cs370_term_project.Prelude.Bytes.{Bytes}

abbrev pub max_conns : ℕ
max_conns = 4

abbrev pub head_max : ℕ
head_max = 256

abbrev pub body_max : ℕ
body_max = 49152

abbrev pub allowance_ms : ℕ
allowance_ms = 5000

abbrev pub accept_pause_ms : ℕ
accept_pause_ms = 100

abbrev pub accepts_per_step : ℕ
accepts_per_step = 16

abbrev pub drain_max : ℕ
drain_max = 65536

abbrev pub busy_log_every_ms : ℕ
busy_log_every_ms = 1000

-- server_conn_state_t
pub data ConnState : Type 0 where
  free reading writing : ConnState

-- server_conn_t
pub record Conn : Type 0 where
  pub fd : Option ℕ
  pub state : ConnState
  pub deadline_ms : ℕ
  pub out_pos : ℕ
  pub out_end : ℕ
  pub req : Bytes
  pub unsent : Bytes

-- server_t
pub record Server : Type 0 where
  pub listens : Bool
  pub port : ℕ
  pub accept_resume_ms : ℕ
  pub last_busy_log_ms : ℕ
  pub served : ℕ
  pub drops : ℕ
  pub timeouts : ℕ
  pub conns : List Conn

abbrev pub is_free : ConnState → Bool
is_free free = true
is_free reading = false
is_free writing = false

abbrev pub free_conn : Conn
free_conn = record {
  fd = none;
  state = free;
  deadline_ms = 0;
  out_pos = 0;
  out_end = 0;
  req = [];
  unsent = [];
}

-- What the system calls of `server_open` give; the address is its bytes.
pub record Listen : Type 0 where
  pub is_ipv4 : Bool
  pub socket : Bool
  pub reuse : Bool
  pub bind : Bool
  pub listen : Bool
  pub name : Option ℕ

abbrev pub closed_server : Server
closed_server = record {
  listens = false;
  port = 0;
  accept_resume_ms = 0;
  last_busy_log_ms = 0;
  served = 0;
  drops = 0;
  timeouts = 0;
  conns = replicate max_conns free_conn;
}

-- The last call, `getsockname`, gives the port; a failure closes the listener again.
unfoldable pub with_port : Option ℕ → Bool × Server
with_port none = (false, closed_server)
with_port (some port) = (true, record closed_server { listens = true; port = port })

unfoldable pub server_open : Listen → Bool × Server
server_open k =
    if k.is_ipv4 && k.socket && k.reuse && k.bind && k.listen
    then with_port k.name
    else (false, closed_server)

unfoldable pub close_conn : Conn → Conn
close_conn c = record c { fd = none; state = free; req = [] }

unfoldable pub close_busy : List Conn → List Conn
close_busy [] = []
close_busy (c ∷ cs) = (if is_free c.state then c else close_conn c) ∷ close_busy cs

unfoldable pub server_close : Server → Server
server_close s = record s { listens = false; conns = close_busy s.conns }
