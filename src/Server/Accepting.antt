-- ===== src/Server/Accepting.antt =====
-- What accepting and the events of a round do to the slots.
use cs370_term_project.Prelude.{
  ℕ, zero, suc, ◌≡◌, inl, Bool, true, false, Option, none, some, List, [], ◌∷◌, if◌then◌else◌,
  arith, refl, sym, ap, ◌∙◌, subst, take, get_or, set,
}
use cs370_term_project.Server.{
  Conn, Server, ConnState, free, reading, writing, is_free, free_conn, accepts_per_step,
}
use cs370_term_project.Server.Write.{Io}
use cs370_term_project.Server.Read.{conn_read}
use cs370_term_project.Server.Step.{
  Accept, aborted, exhausted, accepted, count_served, free_slot, drop_conn, new_conn, put_conn,
  admit, accept_loop, accept_new, reap, on_ready, visit_conn, visit_conns,
}
use cs370_term_project.Server.Conns.{IsConn, Moves, stays, frees, answers}
use cs370_term_project.Server.Answers.{FillsBuffer, Kept, conn_read-Kept, conn_write-Kept}
use cs370_term_project.Server.Slots.{
  AreConns, Slotwise, IsGone, Held, same, gone, fresh, SlotStep, Held-Moves, reap_conns-Held,
}

-- Accepting.
Slotwise-set :
    (R : Conn → Conn → Type 0) (cs ds : List Conn) (i : ℕ) (d dflt : Conn)
    → ((c : Conn) → R c (get_or ds i dflt) → R c d)
    → Slotwise R cs ds
    → Slotwise R cs (set ds i d)
Slotwise-set R [] [] i d dflt f h = tt
Slotwise-set R [] (x ∷ ds) i d dflt f h = absurd h
Slotwise-set R (c ∷ cs) [] i d dflt f h = absurd h
Slotwise-set R (c ∷ cs) (x ∷ ds) zero d dflt f h = (f c h.0, h.1)
Slotwise-set R (c ∷ cs) (x ∷ ds) (suc i) d dflt f h = (h.0, Slotwise-set R cs ds i d dflt f h.1)

AreConns-set : (ds : List Conn) (i : ℕ) (d : Conn) → IsConn d → AreConns ds → AreConns (set ds i d)
AreConns-set [] i d v h = tt
AreConns-set (x ∷ ds) zero d v h = (v, h.1)
AreConns-set (x ∷ ds) (suc i) d v h = (h.0, AreConns-set ds i d v h.1)

free_slot-free :
    (cs : List Conn) (i : ℕ) → free_slot cs ≡ some i → (get_or cs i free_conn).state ≡ free
unfolding free_slot
free_slot-free [] i h = absurd (cc h)
free_slot-free (c ∷ cs) i h = go c.state refl (free_slot cs) (free_slot-free cs) h
  where
    go :
        (s : ConnState)
        → c.state ≡ s
        → (o : Option ℕ) → ((j : ℕ) → o ≡ some j → (get_or cs j free_conn).state ≡ free)
        → (if is_free s
            then some 0
            else elim o as (λ x. Option ℕ) [ none ↦ none | some k ↦ some (suc k) ])
          ≡ some i
        → (get_or (c ∷ cs) i free_conn).state ≡ free
    go free e o ih h = subst (λ k. (get_or (c ∷ cs) k free_conn).state ≡ free) {x = 0} (cc h) e
    go reading e none ih h = absurd (cc h)
    go reading e (some k) ih h =
        subst (λ k. (get_or (c ∷ cs) k free_conn).state ≡ free) {x = suc k} (cc h) (ih k refl)
    go writing e none ih h = absurd (cc h)
    go writing e (some k) ih h =
        subst (λ k. (get_or (c ∷ cs) k free_conn).state ≡ free) {x = suc k} (cc h) (ih k refl)

-- What `accept_new` keeps, of the slots as they were before the round.
pub record Accepting (now : ℕ) (old : List Conn) (s : Server) : Type 0 where
  pub held : Slotwise (Held now) old s.conns
  pub conns : AreConns s.conns

count_served-conns : (b : Bool) (s : Server) → (count_served b s).conns ≡ s.conns
unfolding count_served
count_served-conns true s = refl
count_served-conns false s = refl

-- A connection that has just been put into a free slot, and read.
fresh-Held :
    {now : ℕ} {c f x : Conn} (fd : ℕ)
    → f.state ≡ free
    → Moves now (new_conn now fd f) x
    → Held now c f
    → Held now c x
fresh-Held {now} {c} {f} {x} fd e m h = place m (left e h)
  where
    left : {f : Conn} → f.state ≡ free → Held now c f → IsGone now c
    left e (same f q t) = inl (ap (λ (y : Conn). y.state) q ∙ e)
    left e (gone f q g) = g
    left e (fresh f b l g) = g

    place : {x : Conn} → Moves now (new_conn now fd f) x → IsGone now c → Held now c x
    place (stays x s q m) g = fresh x (ap is_free s) m g
    place (frees x s) g = gone x s g
    place (answers x r s q m) g = fresh x (ap is_free s) m g

new_conn-IsConn : (now fd : ℕ) (c : Conn) → IsConn (new_conn now fd c)
new_conn-IsConn now fd c = record {
  fd_when = refl;
  free_empty = λ e. absurd (cc e);
  reading_room = λ e. omega arith;
  writing_more = λ e. absurd (cc e);
  writing_ends = λ e. absurd (cc e);
  writing_fits = λ e. absurd (cc e);
}

put_conn-conns : (i : ℕ) (s : Server) (p : Bool × Conn) → (put_conn i s p).conns ≡ set s.conns i p.1
put_conn-conns i s (done, d) = count_served-conns done (record s { conns = set s.conns i d })

drop_conn-conns : (now : ℕ) (s : Server) → (drop_conn now s).conns ≡ s.conns
unfolding drop_conn
drop_conn-conns now s = ground arith

admit-Accepting :
    (now fd : ℕ) (io : Io) (old : List Conn) (s : Server) (o : Option ℕ)
    → FillsBuffer io.handler
    → free_slot s.conns ≡ o
    → Accepting now old s
    → Accepting now old (admit now fd io s o)
unfolding admit
admit-Accepting now fd io old s none fills e a = record {
  held = subst (Slotwise (Held now) old) (sym (drop_conn-conns now s)) a.held;
  conns = subst AreConns (sym (drop_conn-conns now s)) a.conns;
}
admit-Accepting now fd io old s (some i) fills e a =
    let f = get_or s.conns i free_conn in
    let c = new_conn now fd f in
    let k = conn_read-Kept now io c fills (new_conn-IsConn now fd f) refl in
    let q = put_conn-conns i s (conn_read now io c) in
    record {
      held = subst (Slotwise (Held now) old) (sym q) (
          Slotwise-set (Held now) old s.conns i (conn_read now io c).1 free_conn
            (λ o. fresh-Held fd (free_slot-free s.conns i e) k.moves) a.held);
      conns = subst AreConns (sym q) (AreConns-set s.conns i _ k.is_conn a.conns);
    }

-- The handlers of all accepted connections get the buffer that they are told of.
abbrev pub FillAccepts : List Accept → Type 0
FillAccepts [] = Unit
FillAccepts (aborted ∷ accepts) = FillAccepts accepts
FillAccepts (exhausted ∷ accepts) = FillAccepts accepts
FillAccepts (accepted fd io ∷ accepts) = FillsBuffer io.handler × FillAccepts accepts

FillAccepts-take :
    (n : ℕ) (accepts : List Accept) → FillAccepts accepts → FillAccepts (take n accepts)
FillAccepts-take zero accepts h = tt
FillAccepts-take (suc n) [] h = tt
FillAccepts-take (suc n) (aborted ∷ accepts) h = FillAccepts-take n accepts h
FillAccepts-take (suc n) (exhausted ∷ accepts) h = FillAccepts-take n accepts h
FillAccepts-take (suc n) (accepted fd io ∷ accepts) h = (h.0, FillAccepts-take n accepts h.1)

accept_loop-Accepting :
    (now : ℕ) (accepts : List Accept) (old : List Conn) (s : Server)
    → FillAccepts accepts
    → Accepting now old s
    → Accepting now old (accept_loop now accepts s)
unfolding accept_loop
accept_loop-Accepting now [] old s f a = a
accept_loop-Accepting now (aborted ∷ accepts) old s f a =
    accept_loop-Accepting now accepts old s f a
accept_loop-Accepting now (exhausted ∷ accepts) old s f a = record {
  held = a.held;
  conns = a.conns;
}
accept_loop-Accepting now (accepted fd io ∷ accepts) old s f a =
    accept_loop-Accepting now accepts old (admit now fd io s (free_slot s.conns)) f.1
      (admit-Accepting now fd io old s (free_slot s.conns) f.0 refl a)

pub accept_new-Accepting :
    (now : ℕ) (accepts : List Accept) (old : List Conn) (s : Server)
    → FillAccepts accepts
    → Accepting now old s
    → Accepting now old (accept_new now accepts s)
unfolding accept_new
accept_new-Accepting now accepts old s f a =
    accept_loop-Accepting now (take accepts_per_step accepts) old s
      (FillAccepts-take accepts_per_step accepts f) a

pub reap-Accepting : (now : ℕ) (s : Server) → AreConns s.conns → Accepting now s.conns (reap now s)
unfolding reap
reap-Accepting now s v =
    let h = reap_conns-Held now s.timeouts s.conns v in record { held = h.0; conns = h.1 }

-- Events.
on_ready-Kept :
    (now : ℕ) (io : Io) (s : ConnState) (c : Conn)
    → FillsBuffer io.handler
    → IsConn c
    → c.state ≡ s
    → Kept now c (on_ready now io s c).2
unfolding on_ready
on_ready-Kept now io free c f v e = record { is_conn = v; moves = stays c refl refl refl }
on_ready-Kept now io reading c f v e = conn_read-Kept now io c f v e
on_ready-Kept now io writing c f v e = conn_write-Kept now io c v e

abbrev pub FillEvents : (ℕ → Option Io) → Type 0
FillEvents events = (i : ℕ) (io : Io) → events i ≡ some io → FillsBuffer io.handler

visit_conn-Kept :
    (now : ℕ) (was : ConnState) (o : Option Io) (c : Conn)
    → ((io : Io) → o ≡ some io → FillsBuffer io.handler)
    → IsConn c
    → Kept now c (visit_conn now was o c).2
unfolding visit_conn
visit_conn-Kept now was none c f v = record { is_conn = v; moves = stays c refl refl refl }
visit_conn-Kept now was (some io) c f v = go (is_free was)
  where
    go : (b : Bool) → Kept now c (if b then (false, false, c) else on_ready now io c.state c).2
    go true = record { is_conn = v; moves = stays c refl refl refl }
    go false = on_ready-Kept now io c.state c (f io refl) v refl

pub visit_conns-SlotStep :
    (now : ℕ) (events : ℕ → Option Io) (i : ℕ) (old cs : List Conn)
    → FillEvents events
    → Slotwise (Held now) old cs
    → AreConns cs
    → Slotwise (SlotStep now) old (visit_conns now events i old cs).2
      × AreConns (visit_conns now events i old cs).2
unfolding visit_conns
visit_conns-SlotStep now events i [] [] f h v = (tt, tt)
visit_conns-SlotStep now events i [] (c ∷ cs) f h v = absurd h
visit_conns-SlotStep now events i (o ∷ old) [] f h v = absurd h
visit_conns-SlotStep now events i (o ∷ old) (c ∷ cs) f h v =
    let k = visit_conn-Kept now o.state (events i) c (f i) v.0 in
    let ih = visit_conns-SlotStep now events (suc i) old cs f h.1 v.1 in
    ((Held-Moves h.0 k.moves, ih.0), (k.is_conn, ih.1))
