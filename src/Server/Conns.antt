-- ===== src/Server/Conns.antt =====
-- What one connection goes through: the invariant of a slot, and the moves between its states.
use cs370_term_project.Prelude.{
  ℕ, zero, suc, ◌+◌, ◌≤◌, ◌<◌, ◌≡◌, Bool, true, false, Option, none, some, List, [], ◌∷◌, arith,
  refl, sym, ap, ◌∙◌, length, drop, min, length-drop,
}
use cs370_term_project.Prelude.Bytes.{Bytes}
use cs370_term_project.Prelude.Words.{add64}
use cs370_term_project.Http.Request.{max_request}
use cs370_term_project.Server.{
  Conn, free, reading, writing, is_free, head_max, body_max, allowance_ms, close_conn,
}
use cs370_term_project.Server.Write.{
  Send, interrupted, failed, sent, Sent, all_sent, send_failed, would_block, send_all, on_sent,
  conn_write, begin_write,
}

abbrev pub is_none {ℓ} : {A : Type ℓ} → Option A → Bool
is_none none = true
is_none (some a) = false

-- A slot between two operations.
pub record IsConn (c : Conn) : Type 0 where
  pub fd_when : is_none c.fd ≡ is_free c.state
  pub free_empty : c.state ≡ free → c.req ≡ []
  pub reading_room : c.state ≡ reading → length c.req < max_request
  pub writing_more : c.state ≡ writing → 0 < length c.unsent
  pub writing_ends : c.state ≡ writing → c.out_pos + length c.unsent ≡ c.out_end
  pub writing_fits : c.state ≡ writing → c.out_end ≤ head_max + body_max

-- A response in the buffer of a connection that is open.
pub record IsLaidOut (c : Conn) : Type 0 where
  pub has_fd : is_none c.fd ≡ false
  pub ends : c.out_pos + length c.unsent ≡ c.out_end
  pub fits : c.out_end ≤ head_max + body_max

-- The moves: a connection stays as it is with the deadline that it had, or its slot is freed, or,
-- once only, it goes from reading to writing with a new deadline.
pub data Moves (now : ℕ) (c : Conn) : Conn → Type 0 where
  stays :
      (d : Conn) → d.state ≡ c.state → d.fd ≡ c.fd → d.deadline_ms ≡ c.deadline_ms → Moves now c d
  frees : (d : Conn) → d.state ≡ free → Moves now c d
  answers :
      (d : Conn)
      → c.state ≡ reading
      → d.state ≡ writing
      → d.fd ≡ c.fd
      → d.deadline_ms ≡ add64 now allowance_ms
      → Moves now c d

pub close_conn-IsConn : (c : Conn) → IsConn (close_conn c)
unfolding close_conn
close_conn-IsConn c = record {
  fd_when = refl;
  free_empty = λ e. refl;
  reading_room = λ e. absurd (cc e);
  writing_more = λ e. absurd (cc e);
  writing_ends = λ e. absurd (cc e);
  writing_fits = λ e. absurd (cc e);
}

-- What is left of a response, if the loop stops in it.
abbrev IsRest : ℕ → Bytes → Sent → Type 0
IsRest pos buf all_sent = Unit
IsRest pos buf send_failed = Unit
IsRest pos buf (would_block p rest) = (0 < length rest) × (p + length rest ≡ pos + length buf)

IsRest-drop :
    (n pos : ℕ) (b : ℕ) (bs : Bytes) (s : Sent)
    → IsRest (pos + min (suc n) (length (b ∷ bs))) (drop n bs) s
    → IsRest pos (b ∷ bs) s
IsRest-drop n pos b bs all_sent h = tt
IsRest-drop n pos b bs send_failed h = tt
IsRest-drop n pos b bs (would_block p rest) (m, e) = (m, omega (arith, e, length-drop n bs))

send_all-IsRest :
    (results : List Send) (pos : ℕ) (buf : Bytes) → IsRest pos buf (send_all results pos buf)
unfolding send_all
send_all-IsRest [] pos [] = tt
send_all-IsRest (r ∷ rs) pos [] = tt
send_all-IsRest [] pos (b ∷ bs) = (omega arith, refl)
send_all-IsRest (interrupted ∷ rs) pos (b ∷ bs) = send_all-IsRest rs pos (b ∷ bs)
send_all-IsRest (failed ∷ rs) pos (b ∷ bs) = tt
send_all-IsRest (sent zero ∷ rs) pos (b ∷ bs) = tt
send_all-IsRest (sent (suc n) ∷ rs) pos (b ∷ bs) =
    IsRest-drop n pos b bs _ (send_all-IsRest rs (pos + min (suc n) (length (b ∷ bs))) (drop n bs))

on_sent-IsConn :
    (c : Conn) (s : Sent)
    → c.state ≡ writing
    → IsLaidOut c
    → IsRest c.out_pos c.unsent s
    → IsConn (on_sent c s).1
unfolding on_sent
on_sent-IsConn c all_sent w l r = close_conn-IsConn c
on_sent-IsConn c send_failed w l r = close_conn-IsConn c
on_sent-IsConn c (would_block p rest) w l (m, e) = record {
  fd_when = l.has_fd ∙ ap is_free (sym w);
  free_empty = λ f. absurd (cc (f, w));
  reading_room = λ f. absurd (cc (f, w));
  writing_more = λ f. m;
  writing_ends = λ f. e ∙ l.ends;
  writing_fits = λ f. l.fits;
}

on_sent-Moves : (now : ℕ) (c : Conn) (s : Sent) → Moves now c (on_sent c s).1
unfolding on_sent close_conn
on_sent-Moves now c all_sent = frees _ refl
on_sent-Moves now c send_failed = frees _ refl
on_sent-Moves now c (would_block p rest) = stays _ refl refl refl

pub conn_write-IsConn :
    (sends : List Send) (c : Conn) → c.state ≡ writing → IsLaidOut c → IsConn (conn_write sends c).1
unfolding conn_write
conn_write-IsConn sends c w l = on_sent-IsConn c _ w l (send_all-IsRest sends c.out_pos c.unsent)

pub conn_write-Moves : (now : ℕ) (sends : List Send) (c : Conn) → Moves now c (conn_write sends c).1
unfolding conn_write
conn_write-Moves now sends c = on_sent-Moves now c (send_all sends c.out_pos c.unsent)

-- A response that is begun from a connection `c` that was being read.
pub begin_write-IsConn :
    (now : ℕ) (sends : List Send) (c : Conn) → IsLaidOut c → IsConn (begin_write now sends c).1
unfolding begin_write
begin_write-IsConn now sends c l =
    conn_write-IsConn sends (record c { state = writing; deadline_ms = add64 now allowance_ms })
      refl (record { has_fd = l.has_fd; ends = l.ends; fits = l.fits })

pub begin_write-Moves :
    (now : ℕ) (sends : List Send) (c d : Conn)
    → c.state ≡ reading
    → d.fd ≡ c.fd
    → Moves now c (begin_write now sends d).1
unfolding begin_write
begin_write-Moves now sends c d r e = go (
    conn_write-Moves now sends (record d { state = writing; deadline_ms = add64 now allowance_ms }))
  where
    go :
        {x : Conn}
        → Moves now (record d { state = writing; deadline_ms = add64 now allowance_ms }) x
        → Moves now c x
    go (stays x s f m) = answers x r s (f ∙ e) m
    go (frees x s) = frees x s
    go (answers x s t f m) = absurd (cc s)
