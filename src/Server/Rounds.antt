-- ===== src/Server/Rounds.antt =====
-- What one round of the server keeps, and what it does to each slot.
use cs370_term_project.Prelude.{
  ℕ, suc, ◌≡◌, Bool, true, false, ◌&&◌, Option, none, some, List, [], ◌∷◌, leb, if◌then◌else◌, refl,
  sym, ap, ◌∙◌, subst, length,
}
use cs370_term_project.Server.{
  Conn, Server, free_conn, max_conns, Listen, closed_server, with_port, server_open,
}
use cs370_term_project.Server.Step.{
  Polled, interrupted, failed, ready, Revents, quiet, broken, acceptable, Turn, reap, visit_all,
  on_listener, on_poll, server_step,
}
use cs370_term_project.Server.Conns.{IsConn}
use cs370_term_project.Server.Slots.{AreConns, Slotwise, SlotStep, Held}
use cs370_term_project.Server.Accepting.{
  Accepting, FillAccepts, FillEvents, accept_new-Accepting, reap-Accepting, visit_conns-SlotStep,
}

-- The server between two rounds.
pub record IsServer (s : Server) : Type 0 where
  pub count : length s.conns ≡ max_conns
  pub conns : AreConns s.conns

-- Every handler that a round calls is given the buffer that it is told of.
pub record FillRound (e : Turn) : Type 0 where
  pub accepts : FillAccepts e.accepts
  pub events : FillEvents e.events

length-Slotwise :
    (R : Conn → Conn → Type 0) (cs ds : List Conn) → Slotwise R cs ds → length ds ≡ length cs
length-Slotwise R [] [] h = refl
length-Slotwise R [] (d ∷ ds) h = absurd h
length-Slotwise R (c ∷ cs) [] h = absurd h
length-Slotwise R (c ∷ cs) (d ∷ ds) h = ap suc (length-Slotwise R cs ds h.1)

-- What a round comes to: the slots make a step each, and are well formed; or the wait or the listener
-- failed, and they are well formed.
data Outcome (now : ℕ) (s : Server) : Option ℕ × Server → Type 0 where
  steps :
      (n : ℕ) (t : Server)
      → Slotwise (SlotStep now) s.conns t.conns
      → AreConns t.conns
      → Outcome now s (some n, t)
  fails :
      (t : Server) → length t.conns ≡ length s.conns → AreConns t.conns → Outcome now s (none, t)

visit_all-Outcome :
    (e : Turn) (s t : Server) (handled : ℕ)
    → FillRound e
    → Accepting e.after s.conns t
    → Outcome e.after s (visit_all e s.conns handled t)
unfolding visit_all
visit_all-Outcome e s t handled f a =
    let h = visit_conns-SlotStep e.after e.events 0 s.conns t.conns f.events a.held a.conns in
    steps _ _ h.0 h.1

on_listener-Outcome :
    (e : Turn) (r : Revents) (s t : Server)
    → FillRound e
    → Accepting e.after s.conns t
    → Outcome e.after s (on_listener e s.conns r t)
unfolding on_listener
on_listener-Outcome e quiet s t f a = visit_all-Outcome e s t 0 f a
on_listener-Outcome e broken s t f a =
    fails t (length-Slotwise (Held e.after) s.conns t.conns a.held) a.conns
on_listener-Outcome e acceptable s t f a =
    visit_all-Outcome e s _ 1 f (accept_new-Accepting e.after e.accepts s.conns t f.accepts a)

polled-Outcome :
    (e : Turn) (s : Server) → FillRound e → AreConns s.conns → Outcome e.after s (on_poll e ready s)
unfolding on_poll
polled-Outcome e s f v =
    on_listener-Outcome e (if leb s.accept_resume_ms e.before then e.listener else quiet) s
      (reap e.after s) f (reap-Accepting e.after s v)

Outcome-IsServer :
    {now : ℕ} {s : Server} {p : Option ℕ × Server} → IsServer s → Outcome now s p → IsServer p.1
Outcome-IsServer {now} {s} v (steps n t h c) = record {
  count = length-Slotwise (SlotStep now) s.conns t.conns h ∙ v.count;
  conns = c;
}
Outcome-IsServer v (fails t l c) = record { count = l ∙ v.count; conns = c }

-- Whatever the kernel gives, whatever clients send and whatever the handler makes of it, a round
-- keeps every slot well formed: a slot has a descriptor exactly when it is not free, a free one has
-- no request in it, one that is read has room for more of the request, and one that is written has
-- some of its response left, the rest of buf[out_pos, out_end), which stays inside the buffer.
pub server_step-IsServer :
    (e : Turn) (s : Server) → FillRound e → IsServer s → IsServer (server_step e s).1
unfolding server_step
server_step-IsServer e s f v = go s.listens e.poll
  where
    poll : (p : Polled) → IsServer (on_poll e p s).1
    poll interrupted = unfold on_poll in v
    poll failed = unfold on_poll in v
    poll ready = Outcome-IsServer v (polled-Outcome e s f v.conns)

    go : (b : Bool) (p : Polled) → IsServer (if b then on_poll e p s else (none, s)).1
    go true p = poll p
    go false p = v

closed_conns : AreConns closed_server.conns
closed_conns = (one, (one, (one, (one, tt))))
  where
    one : IsConn free_conn
    one = record {
      fd_when = refl;
      free_empty = λ e. refl;
      reading_room = λ e. absurd (cc e);
      writing_more = λ e. absurd (cc e);
      writing_ends = λ e. absurd (cc e);
      writing_fits = λ e. absurd (cc e);
    }

-- A new server is one between two rounds, whether or not it listens.
pub server_open-IsServer : (k : Listen) → IsServer (server_open k).1
unfolding server_open with_port
server_open-IsServer k = go (k.is_ipv4 && k.socket && k.reuse && k.bind && k.listen) k.name
  where
    closed : IsServer closed_server
    closed = record { count = refl; conns = closed_conns }

    go : (b : Bool) (o : Option ℕ) → IsServer (if b then with_port o else (false, closed_server)).1
    go true none = closed
    go true (some n) = record { count = refl; conns = closed_conns }
    go false o = closed

steps_only :
    {now n : ℕ} {s : Server} {p : Option ℕ × Server}
    → Outcome now s p
    → p.0 ≡ some n
    → Slotwise (SlotStep now) s.conns p.1.conns
steps_only (steps m t h c) e = h
steps_only (fails t l c) e = absurd (cc e)

-- A round whose wait ends and that returns a count takes each slot through one step of its life: a
-- connection keeps its deadline, which has not passed, however many bytes it trickles; or it is
-- answered, in time, and gets the second and last allowance; or its slot is freed; or there is a new
-- connection with a whole allowance, where there was none or one past its deadline.
pub server_step-SlotStep :
    (e : Turn) (s : Server) (n : ℕ)
    → FillRound e
    → IsServer s
    → e.poll ≡ ready
    → (server_step e s).0 ≡ some n
    → Slotwise (SlotStep e.after) s.conns (server_step e s).1.conns
unfolding server_step
server_step-SlotStep e s n f v r h =
    go s.listens (subst (λ p. (if s.listens then on_poll e p s else (none, s)).0 ≡ some n) r h)
  where
    go :
        (b : Bool)
        → (if b then on_poll e ready s else (none, s)).0 ≡ some n
        → Slotwise (SlotStep e.after) s.conns (if b then on_poll e e.poll s else (none, s)).1.conns
    go true h =
        subst (λ p. Slotwise (SlotStep e.after) s.conns (on_poll e p s).1.conns) (sym r)
          (steps_only (polled-Outcome e s f v.conns) h)
    go false h = absurd (cc h)
