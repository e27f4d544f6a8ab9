-- ===== src/Server/Slots.antt =====
-- What one round does to each slot.
use cs370_term_project.Prelude.{
  ℕ, ◌≤◌, ◌<◌, ◌≡◌, ◌≢◌, ◌⊎◌, inl, inr, Bool, true, false, not, ◌||◌, List, [], ◌∷◌, ltb,
  if◌then◌else◌, arith, refl, sym, ap, ◌∙◌, subst,
}
use cs370_term_project.Prelude.Words.{add64}
use cs370_term_project.Server.{
  Conn, ConnState, free, reading, writing, is_free, allowance_ms, close_conn,
}
use cs370_term_project.Server.Step.{is_expired, reap_conns}
use cs370_term_project.Server.Conns.{IsConn, Moves, stays, frees, answers, close_conn-IsConn}

abbrev pub AreConns : List Conn → Type 0
AreConns [] = Unit
AreConns (c ∷ cs) = IsConn c × AreConns cs

-- Slot by slot.
abbrev pub Slotwise : (Conn → Conn → Type 0) → List Conn → List Conn → Type 0
Slotwise R [] [] = Unit
Slotwise R [] (d ∷ ds) = ⊥
Slotwise R (c ∷ cs) [] = ⊥
Slotwise R (c ∷ cs) (d ∷ ds) = R c d × Slotwise R cs ds

-- A slot that was free, or whose connection is past its deadline.
abbrev pub IsGone : ℕ → Conn → Type 0
IsGone now c = (c.state ≡ free) ⊎ (c.deadline_ms ≤ now)

abbrev pub IsInTime : ℕ → Conn → Type 0
IsInTime now c = (c.state ≡ free) ⊎ (now < c.deadline_ms)

-- A slot after the reaping and the accepting.
pub data Held (now : ℕ) (c : Conn) : Conn → Type 0 where
  same : (d : Conn) → c ≡ d → IsInTime now c → Held now c d
  gone : (d : Conn) → d.state ≡ free → IsGone now c → Held now c d
  fresh :
      (d : Conn)
      → is_free d.state ≡ false
      → d.deadline_ms ≡ add64 now allowance_ms
      → IsGone now c
      → Held now c d

-- A slot before and after a round at the time `now`: the same connection with the same deadline, not
-- yet passed; or a free slot; or the same connection, in time, answered and with a new deadline; or
-- another connection, with a new deadline, where there was none or one that was too slow.
pub data SlotStep (now : ℕ) (c : Conn) : Conn → Type 0 where
  keeps :
      (d : Conn)
      → d.state ≡ c.state
      → d.fd ≡ c.fd
      → d.deadline_ms ≡ c.deadline_ms
      → IsInTime now c
      → SlotStep now c d
  is_freed : (d : Conn) → d.state ≡ free → SlotStep now c d
  is_answered :
      (d : Conn)
      → c.state ≡ reading
      → now < c.deadline_ms
      → d.state ≡ writing
      → d.fd ≡ c.fd
      → d.deadline_ms ≡ add64 now allowance_ms
      → SlotStep now c d
  is_renewed :
      (d : Conn)
      → is_free d.state ≡ false
      → d.deadline_ms ≡ add64 now allowance_ms
      → IsGone now c
      → SlotStep now c d

not_free : (s : ConnState) → is_free s ≡ false → s ≢ free
not_free s h e = cc (h, ap is_free e)

in_time : {now : ℕ} (c : Conn) → IsInTime now c → c.state ≡ reading → now < c.deadline_ms
in_time c (inl f) r = absurd (cc (f, r))
in_time c (inr l) r = l

pub Held-Moves : {now : ℕ} {c d x : Conn} → Held now c d → Moves now d x → SlotStep now c x
Held-Moves {now} {c} {d} {x} (same _ e t) m = go (subst (λ y. Moves now y x) (sym e) m)
  where
    go : {x : Conn} → Moves now c x → SlotStep now c x
    go (stays x s f m) = keeps x s f m t
    go (frees x s) = is_freed x s
    go (answers x r s f m) = is_answered x r (in_time c t r) s f m
Held-Moves (gone d e g) (stays x s f m) = is_freed x (s ∙ e)
Held-Moves (gone d e g) (frees x s) = is_freed x s
Held-Moves (gone d e g) (answers x r s f m) = absurd (cc (e, r))
Held-Moves (fresh d b l g) (stays x s f m) = is_renewed x (ap is_free s ∙ b) (m ∙ l) g
Held-Moves (fresh d b l g) (frees x s) = is_freed x s
Held-Moves (fresh d b l g) (answers x r s f m) = is_renewed x (ap is_free s) m g

-- Reaping.
reap_conn-Held : (now : ℕ) (c : Conn) → Held now c (if is_expired now c then close_conn c else c)
unfolding close_conn
reap_conn-Held now c = go c.state refl (ltb now c.deadline_ms) refl
  where
    go :
        (s : ConnState)
        → c.state ≡ s
        → (b : Bool) → ltb now c.deadline_ms ≡ b
        → Held now c (if not (is_free s || b) then close_conn c else c)
    go free e b q = same c refl (inl e)
    go reading e true q = same c refl (inr (ground (arith, q)))
    go reading e false q = gone _ refl (inr (ground (arith, q)))
    go writing e true q = same c refl (inr (ground (arith, q)))
    go writing e false q = gone _ refl (inr (ground (arith, q)))

reap_conn-IsConn : (b : Bool) (c : Conn) → IsConn c → IsConn (if b then close_conn c else c)
reap_conn-IsConn true c v = close_conn-IsConn c
reap_conn-IsConn false c v = v

pub reap_conns-Held :
    (now t : ℕ) (cs : List Conn)
    → AreConns cs
    → Slotwise (Held now) cs (reap_conns now t cs).1 × AreConns (reap_conns now t cs).1
unfolding reap_conns
reap_conns-Held now t [] v = (tt, tt)
reap_conns-Held now t (c ∷ cs) v =
    let ih = reap_conns-Held now (if is_expired now c then add64 t 1 else t) cs v.1 in
    ((reap_conn-Held now c, ih.0), (reap_conn-IsConn (is_expired now c) c v.0, ih.1))
