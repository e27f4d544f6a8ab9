-- ===== src/Server/Answers.antt =====
-- Every answer is a response that fits its buffer, and every read keeps the slot well formed.
use cs370_term_project.Prelude.{
  ℕ, ◌+◌, ◌-◌, ◌≤◌, ◌<◌, ◌≡◌, Bool, true, false, not, ◌||◌, Option, none, some, ◌∷◌, ◌++◌, ltb, leb,
  ◌==◌, if◌then◌else◌, arith, refl, sym, ap, ◌∙◌, subst, length, take, length-append, length-take,
}
use cs370_term_project.Prelude.Bytes.{Bytes}
use cs370_term_project.Text.{print_digits}
use cs370_term_project.Http.Request.{
  Request, Parse, incomplete, bad, bad_method, too_large, ok, max_request, http_parse_request,
}
use cs370_term_project.Http.Request.Room.{incomplete-lt}
use cs370_term_project.Http.Head.{http_write_head, write_head, status_text, head_text, fit}
use cs370_term_project.Server.{Conn, reading, writing, is_free, head_max, body_max, close_conn}
use cs370_term_project.Server.Write.{
  Recv, again, broken, ended, received, Response, Io, lay_out, finish, begin_write,
  internal_error_body, text_plain, fail_500, or_500, refusal_text, refusal_status, refusal,
  respond_error, conn_write, ctype_ok, checked, dispatch,
}
use cs370_term_project.Server.Read.{on_parse, room, on_recv, conn_read}
use cs370_term_project.Server.Conns.{
  is_none, IsConn, IsLaidOut, Moves, stays, frees, close_conn-IsConn, begin_write-IsConn,
  begin_write-Moves, conn_write-IsConn, conn_write-Moves,
}

-- The buffer that the handler is given is of the size that it is told.
abbrev pub FillsBuffer : (Request → Response) → Type 0
FillsBuffer handler = (r : Request) → length (handler r).body ≡ body_max

-- What a `finish` that succeeds makes of a connection.
pub record Finished (c d : Conn) : Type 0 where
  pub laid_out : IsLaidOut d
  pub same_fd : d.fd ≡ c.fd
  pub same_state : d.state ≡ c.state
  pub same_req : d.req ≡ c.req

fit-lt : (cap : ℕ) (text : Bytes) {head : Bytes} → fit cap text ≡ some head → length head < cap
fit-lt cap text h = go (leb cap (length text)) refl h
  where
    go :
        (b : Bool) {head : Bytes}
        → leb cap (length text) ≡ b
        → (if b then none else some text) ≡ some head
        → length head < cap
    go true e h = absurd (cc h)
    go false {head} e h =
        let q : text ≡ head = cc h in subst (λ t. length t < cap) q (ground (arith, e))

write_head-lt :
    (cap status body_len : ℕ) (text ctype : Option Bytes) {head : Bytes}
    → write_head cap status text ctype body_len ≡ some head
    → length head < cap
unfolding write_head
write_head-lt cap status n none ctype h = absurd (cc h)
write_head-lt cap status n (some t) none h = absurd (cc h)
write_head-lt cap status n (some t) (some c) h = fit-lt cap (head_text status t c n) h

lay_out-Finished :
    (c d : Conn) (n : ℕ) (body : Bytes) (o : Option Bytes)
    → is_none c.fd ≡ false
    → n ≤ body_max
    → n ≤ length body
    → ((head : Bytes) → o ≡ some head → length head < head_max)
    → lay_out c n body o ≡ some d
    → Finished c d
unfolding lay_out
lay_out-Finished c d n body none f m l s h = absurd (cc h)
lay_out-Finished c d n body (some head) f m l s h =
    let e : ◌≡◌ {A = Conn}
        (record c {
          out_pos = head_max - length head;
          out_end = head_max + n;
          unsent = head ++ take n body;
        })
        d =
      cc h in
    subst (Finished c) e (record {
      laid_out = record {
        has_fd = f;
        ends = omega (arith, s head refl, length-append head (take n body), length-take n body);
        fits = omega arith;
      };
      same_fd = refl;
      same_state = refl;
      same_req = refl;
    })

finish-Finished :
    (c d : Conn) (status n : ℕ) (ctype : Option Bytes) (body : Bytes)
    → is_none c.fd ≡ false
    → n ≤ body_max
    → n ≤ length body
    → finish c status ctype n body ≡ some d
    → Finished c d
unfolding finish http_write_head
finish-Finished c d status n ctype body f m l h =
    lay_out-Finished c d n body _ f m l
      (λ head e. write_head-lt head_max status n (status_text status) ctype e) h

-- The head of the fixed 500 always fits.
pub fail_500-some :
    (c : Conn)
    → (d : Conn) × (finish c 500 (some text_plain) (length internal_error_body) internal_error_body
        ≡ some d)
unfolding finish lay_out http_write_head status_text write_head head_text print_digits
fail_500-some c = (_, refl)

fail_500-Finished : (c : Conn) → is_none c.fd ≡ false → Finished c (fail_500 c)
unfolding fail_500
fail_500-Finished c f =
    let (d, e) = fail_500-some c in
    rw e (
      finish-Finished c d 500 (length internal_error_body) (some text_plain) internal_error_body f
        (omega arith) (omega arith) e)

or_500-Finished :
    (c : Conn) (o : Option Conn)
    → is_none c.fd ≡ false
    → ((d : Conn) → o ≡ some d → Finished c d)
    → Finished c (or_500 c o)
or_500-Finished c none f h = fail_500-Finished c f
or_500-Finished c (some d) f h = h d refl

refusal_text-le : (p : Parse) → length (refusal_text p) ≤ body_max
unfolding refusal_text
refusal_text-le bad = omega arith
refusal_text-le bad_method = omega arith
refusal_text-le too_large = omega arith
refusal_text-le incomplete = omega arith
refusal_text-le (ok r) = omega arith

pub refusal-Finished : (c : Conn) (p : Parse) → is_none c.fd ≡ false → Finished c (refusal c p)
unfolding refusal
refusal-Finished c p f = or_500-Finished c _ f (λ d e.
    finish-Finished c d (refusal_status p) (length (refusal_text p)) (some text_plain)
      (refusal_text p) f (refusal_text-le p) (omega arith) e)

pub checked-Finished :
    (c : Conn) (r : Response)
    → is_none c.fd ≡ false
    → length r.body ≡ body_max
    → Finished c (checked c r)
unfolding checked
checked-Finished c r f l = go (ltb body_max r.body_len || not (ctype_ok r.ctype)) refl
  where
    go :
        (b : Bool)
        → (ltb body_max r.body_len || not (ctype_ok r.ctype)) ≡ b
        → Finished c
            (if b then fail_500 c else or_500 c (finish c r.status r.ctype r.body_len r.body))
    go true e = fail_500-Finished c f
    go false e = or_500-Finished c _ f (λ d q.
        finish-Finished c d r.status r.body_len r.ctype r.body f (ground (arith, e))
          (ground (arith, e, l)) q)

-- What an operation on a connection that is being read gives.
pub record Kept (now : ℕ) (c d : Conn) : Type 0 where
  pub is_conn : IsConn d
  pub moves : Moves now c d

answer-Kept :
    (now : ℕ) (io : Io) (c d x : Conn)
    → c.state ≡ reading
    → d.fd ≡ c.fd
    → Finished d x
    → Kept now c (begin_write now io.sends x).1
answer-Kept now io c d x r e f = record {
  is_conn = begin_write-IsConn now io.sends x f.laid_out;
  moves = begin_write-Moves now io.sends c x r (f.same_fd ∙ e);
}

on_parse-Kept :
    (now : ℕ) (io : Io) (c d : Conn) (p : Parse)
    → FillsBuffer io.handler
    → c.state ≡ reading
    → is_none c.fd ≡ false
    → d.state ≡ c.state
    → d.fd ≡ c.fd
    → d.deadline_ms ≡ c.deadline_ms
    → (p ≡ incomplete → length d.req < max_request)
    → Kept now c (on_parse now io d p).1
unfolding on_parse respond_error dispatch
on_parse-Kept now io c d incomplete fills r f s e m l = record {
  is_conn = record {
    fd_when = ap is_none e ∙ f ∙ ap is_free (sym (s ∙ r));
    free_empty = λ q. absurd (cc (q, s, r));
    reading_room = λ q. l refl;
    writing_more = λ q. absurd (cc (q, s, r));
    writing_ends = λ q. absurd (cc (q, s, r));
    writing_fits = λ q. absurd (cc (q, s, r));
  };
  moves = stays d s e m;
}
on_parse-Kept now io c d (ok req) fills r f s e m l =
    answer-Kept now io c d _ r e
      (checked-Finished d (io.handler req) (ap is_none e ∙ f) (fills req))
on_parse-Kept now io c d bad fills r f s e m l =
    answer-Kept now io c d _ r e (refusal-Finished d bad (ap is_none e ∙ f))
on_parse-Kept now io c d bad_method fills r f s e m l =
    answer-Kept now io c d _ r e (refusal-Finished d bad_method (ap is_none e ∙ f))
on_parse-Kept now io c d too_large fills r f s e m l =
    answer-Kept now io c d _ r e (refusal-Finished d too_large (ap is_none e ∙ f))

same-Kept : (now : ℕ) (c : Conn) → IsConn c → Kept now c c
same-Kept now c v = record { is_conn = v; moves = stays c refl refl refl }

close-Kept : (now : ℕ) (c : Conn) → Kept now c (close_conn c)
unfolding close_conn
close-Kept now c = record { is_conn = close_conn-IsConn c; moves = frees _ refl }

on_recv-Kept :
    (now : ℕ) (io : Io) (c : Conn) (r : Recv)
    → FillsBuffer io.handler
    → IsConn c
    → c.state ≡ reading
    → is_none c.fd ≡ false
    → Kept now c (on_recv now io c r).1
unfolding on_recv
on_recv-Kept now io c again fills v s f = same-Kept now c v
on_recv-Kept now io c broken fills v s f = close-Kept now c
on_recv-Kept now io c ended fills v s f = close-Kept now c
on_recv-Kept now io c (received b bs) fills v s f =
    let req = c.req ++ take (room c) (b ∷ bs) in
    on_parse-Kept now io c (record c { req = req }) (http_parse_request req) fills s f refl refl
      refl (incomplete-lt req)

-- A read of a connection whose request is not complete, whatever `recv` gives and whatever the
-- handler makes of the request.
pub conn_read-Kept :
    (now : ℕ) (io : Io) (c : Conn)
    → FillsBuffer io.handler
    → IsConn c
    → c.state ≡ reading
    → Kept now c (conn_read now io c).1
unfolding conn_read respond_error
conn_read-Kept now io c fills v s = go (room c == 0)
  where
    has_fd : is_none c.fd ≡ false
    has_fd = v.fd_when ∙ ap is_free s

    go :
        (b : Bool)
        → Kept now c
            (if b
              then begin_write now io.sends (refusal c too_large)
              else on_recv now io c io.recv).1
    go true = answer-Kept now io c c _ s refl (refusal-Finished c too_large has_fd)
    go false = on_recv-Kept now io c io.recv fills v s has_fd

pub conn_write-Kept :
    (now : ℕ) (io : Io) (c : Conn)
    → IsConn c
    → c.state ≡ writing
    → Kept now c (conn_write io.sends c).1
conn_write-Kept now io c v s = record {
  is_conn = conn_write-IsConn io.sends c s (record {
    has_fd = v.fd_when ∙ ap is_free s;
    ends = v.writing_ends s;
    fits = v.writing_fits s;
  });
  moves = conn_write-Moves now io.sends c;
}
