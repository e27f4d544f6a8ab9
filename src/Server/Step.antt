-- ===== src/Server/Step.antt =====
-- `server_step`: one round of the loop over the listener and the connections.
use cs370_term_project.Prelude.{
  ℕ, suc, ◌+◌, ◌-◌, Bool, true, false, not, ◌||◌, Option, none, some, List, [], ◌∷◌, ltb, leb, ◌==◌,
  if◌then◌else◌, get_or, set, take, min,
}
use cs370_term_project.Prelude.Words.{add64}
use cs370_term_project.Server.{
  Conn, Server, ConnState, free, reading, writing, is_free, free_conn, allowance_ms,
  accept_pause_ms, accepts_per_step, busy_log_every_ms, close_conn,
}
use cs370_term_project.Server.Write.{Io, conn_write}
use cs370_term_project.Server.Read.{conn_read}

-- A result of `accept4`: EINTR or ECONNABORTED, another error, or a descriptor with what its first
-- read meets. A list of results that ends early stands for EAGAIN.
pub data Accept : Type 0 where
  aborted exhausted : Accept
  accepted : ℕ → Io → Accept

-- What `poll` returns, and what it says of the listener.
pub data Polled : Type 0 where
  interrupted failed ready : Polled

pub data Revents : Type 0 where
  quiet broken acceptable : Revents

-- What one round meets: the clock before and after the wait, `poll`, and the connection in each
-- slot that has an event.
pub record Turn : Type 0 where
  pub before : ℕ
  pub after : ℕ
  pub poll : Polled
  pub listener : Revents
  pub accepts : List Accept
  pub events : ℕ → Option Io

unfoldable pub count_served : Bool → Server → Server
count_served done s = if done then record s { served = add64 s.served 1 } else s

unfoldable pub free_slot : List Conn → Option ℕ
free_slot [] = none
free_slot (c ∷ cs) =
    if is_free c.state then some 0 else elim (free_slot cs) [ none ↦ none | some i ↦ some (suc i) ]

unfoldable pub drop_conn : ℕ → Server → Server
drop_conn now s =
    let drops = add64 s.drops 1 in
    if drops == 1 || leb (add64 s.last_busy_log_ms busy_log_every_ms) now
    then record s { drops = drops; last_busy_log_ms = now }
    else record s { drops = drops }

abbrev pub new_conn : ℕ → ℕ → Conn → Conn
new_conn now fd c = record c {
  fd = some fd;
  state = reading;
  deadline_ms = add64 now allowance_ms;
  req = [];
}

abbrev pub put_conn : ℕ → Server → Bool × Conn → Server
put_conn i s (done, c) = count_served done (record s { conns = set s.conns i c })

unfoldable pub admit : ℕ → ℕ → Io → Server → Option ℕ → Server
admit now fd io s none = drop_conn now s
admit now fd io s (some i) =
    put_conn i s (conn_read now io (new_conn now fd (get_or s.conns i free_conn)))

unfoldable pub accept_loop : ℕ → List Accept → Server → Server
accept_loop now [] s = s
accept_loop now (aborted ∷ accepts) s = accept_loop now accepts s
accept_loop now (exhausted ∷ accepts) s = record s { accept_resume_ms = add64 now accept_pause_ms }
accept_loop now (accepted fd io ∷ accepts) s =
    accept_loop now accepts (admit now fd io s (free_slot s.conns))

unfoldable pub accept_new : ℕ → List Accept → Server → Server
accept_new now accepts s = accept_loop now (take accepts_per_step accepts) s

abbrev pub is_expired : ℕ → Conn → Bool
is_expired now c = not (is_free c.state || ltb now c.deadline_ms)

-- The loop of `reap`, with the count of timeouts.
unfoldable pub reap_conns : ℕ → ℕ → List Conn → ℕ × List Conn
reap_conns now timeouts [] = (timeouts, [])
reap_conns now timeouts (c ∷ cs) =
    let (count, rest) =
      reap_conns now (if is_expired now c then add64 timeouts 1 else timeouts) cs in
    (count, (if is_expired now c then close_conn c else c) ∷ rest)

unfoldable pub reap : ℕ → Server → Server
reap now s =
    let (timeouts, conns) = reap_conns now s.timeouts s.conns in
    record s { timeouts = timeouts; conns = conns }

-- The wait that is handed to `poll`: less if a deadline or the end of a pause is nearer.
unfoldable pub nearest : ℕ → ℕ → List Conn → ℕ
nearest now wait [] = wait
nearest now wait (c ∷ cs) =
    nearest now (if is_free c.state then wait else min (c.deadline_ms - now) wait) cs

unfoldable pub poll_wait : ℕ → ℕ → Server → ℕ
poll_wait max_wait now s =
    nearest now
      (if leb s.accept_resume_ms now then max_wait else min (s.accept_resume_ms - now) max_wait)
      s.conns

-- What an event does to a connection: whether it counts, whether a response is served, and the
-- connection. One that was reaped just now does not count.
unfoldable pub on_ready : ℕ → Io → ConnState → Conn → Bool × Bool × Conn
on_ready now io free c = (false, false, c)
on_ready now io reading c = let (done, d) = conn_read now io c in (true, done, d)
on_ready now io writing c = let (done, d) = conn_write io.sends c in (true, done, d)

-- An event of a slot that was polled, since its connection was busy before the wait.
unfoldable pub visit_conn : ℕ → ConnState → Option Io → Conn → Bool × Bool × Conn
visit_conn now was none c = (false, false, c)
visit_conn now was (some io) c =
    if is_free was then (false, false, c) else on_ready now io c.state c

-- The loop over the slots, from the one at `i`, with the connections as they were before the wait.
unfoldable pub visit_conns : ℕ → (ℕ → Option Io) → ℕ → List Conn → List Conn → ℕ × ℕ × List Conn
visit_conns now events i old [] = (0, 0, [])
visit_conns now events i [] (c ∷ cs) = (0, 0, c ∷ cs)
visit_conns now events i (o ∷ old) (c ∷ cs) =
    let (counts, done, d) = visit_conn now o.state (events i) c in
    let (handled, served, rest) = visit_conns now events (suc i) old cs in
    ((if counts then handled + 1 else handled), (if done then served + 1 else served), d ∷ rest)

-- The connections' part of the loop; `handled` events came before.
unfoldable pub visit_all : Turn → List Conn → ℕ → Server → Option ℕ × Server
visit_all e old handled s =
    let (more, served, conns) = visit_conns e.after e.events 0 old s.conns in
    (some (handled + more), record s { conns = conns; served = add64 s.served served })

unfoldable pub on_listener : Turn → List Conn → Revents → Server → Option ℕ × Server
on_listener e old quiet s = visit_all e old 0 s
on_listener e old broken s = (none, s)
on_listener e old acceptable s = visit_all e old 1 (accept_new e.after e.accepts s)

-- While accepting is paused the listener is not polled.
unfoldable pub on_poll : Turn → Polled → Server → Option ℕ × Server
on_poll e interrupted s = (some 0, s)
on_poll e failed s = (none, s)
on_poll e ready s =
    on_listener e s.conns (if leb s.accept_resume_ms e.before then e.listener else quiet)
      (reap e.after s)

-- The number of events, or `none` for -1.
unfoldable pub server_step : Turn → Server → Option ℕ × Server
server_step e s = if s.listens then on_poll e e.poll s else (none, s)
