-- ===== src/Server/Handlers.antt =====
-- What a client is sent, whatever the handler returns.
use cs370_term_project.Prelude.{
  ◌≤◌, ◌<◌, ◌≡◌, ◌≢◌, Bool, true, false, not, ◌||◌, Option, none, some, [], ◌∷◌, ◌++◌, ltb, leb,
  if◌then◌else◌, arith, refl, length, take,
}
use cs370_term_project.Prelude.Bytes.{Bytes}
use cs370_term_project.Text.{codes, all_bytes, print_digits}
use cs370_term_project.Http.Head.{http_write_head, write_head, status_text, head_text}
use cs370_term_project.Server.{Conn, head_max, body_max}
use cs370_term_project.Server.Write.{
  Response, lay_out, finish, internal_error_body, text_plain, or_500, fail_500, ctype_byte_ok,
  ctype_ok, checked,
}

-- No control byte: neither CR nor LF, so the head cannot be split.
abbrev pub IsHeaderText : Bytes → Type 0
IsHeaderText [] = Unit
IsHeaderText (c ∷ cs) = (0x20 ≤ c) × (c ≢ 0x7f) × IsHeaderText cs

abbrev pub internal_error : Bytes
internal_error = head_text 500 (codes "Internal Server Error") text_plain 15 ++ internal_error_body

-- Why a response cannot be sent.
pub data IsRefused (r : Response) : Type 0 where
  no_status : status_text r.status ≡ none → IsRefused r
  bad_type : ctype_ok r.ctype ≡ false → IsRefused r
  too_long : body_max < r.body_len → IsRefused r
  no_room :
      (text t : Bytes)
      → status_text r.status ≡ some text
      → r.ctype ≡ some t
      → head_max ≤ length (head_text r.status text t r.body_len)
      → IsRefused r

-- Either the response that the handler asked for, or the fixed 500.
pub data Answer (r : Response) : Bytes → Type 0 where
  as_asked :
      (sent text t : Bytes)
      → status_text r.status ≡ some text
      → r.ctype ≡ some t
      → IsHeaderText t
      → r.body_len ≤ body_max
      → sent ≡ head_text r.status text t r.body_len ++ take r.body_len r.body
      → Answer r sent
  as_500 : (sent : Bytes) → IsRefused r → sent ≡ internal_error → Answer r sent

all_bytes-IsHeaderText : (t : Bytes) → all_bytes ctype_byte_ok t ≡ true → IsHeaderText t
unfolding all_bytes
all_bytes-IsHeaderText [] h = tt
all_bytes-IsHeaderText (c ∷ cs) h =
    (ground arith, ground arith, all_bytes-IsHeaderText cs (ground arith))

fail_500-unsent : (c : Conn) → (fail_500 c).unsent ≡ internal_error
unfolding fail_500 finish lay_out http_write_head status_text write_head head_text print_digits
fail_500-unsent c = refl

module _ (c : Conn) (r : Response) where
  internal_Answer : IsRefused r → Answer r (fail_500 c).unsent
  internal_Answer w = as_500 _ w (fail_500-unsent c)

  fitted :
      (text t : Bytes)
      → status_text r.status ≡ some text
      → r.ctype ≡ some t
      → IsHeaderText t
      → r.body_len ≤ body_max
      → (b : Bool) → leb head_max (length (head_text r.status text t r.body_len)) ≡ b
      → Answer r
          (or_500 c (
            lay_out c r.body_len r.body
              (if b then none else some (head_text r.status text t r.body_len)))).unsent
  unfolding lay_out
  fitted text t s e h l true q = internal_Answer (no_room text t s e (ground (arith, q)))
  fitted text t s e h l false q = as_asked _ text t s e h l refl

  finished :
      (text ctype : Option Bytes)
      → status_text r.status ≡ text
      → r.ctype ≡ ctype
      → ctype_ok ctype ≡ true
      → r.body_len ≤ body_max
      → Answer r
          (or_500 c (
            lay_out c r.body_len r.body
              (write_head head_max r.status text ctype r.body_len))).unsent
  unfolding write_head lay_out ctype_ok
  finished none ctype s e h l = internal_Answer (no_status s)
  finished (some text) none s e h l = absurd (cc h)
  finished (some text) (some t) s e h l =
      fitted text t s e (all_bytes-IsHeaderText t h) l
        (leb head_max (length (head_text r.status text t r.body_len))) refl

  -- Whatever status, type, length and bytes a handler leaves, the client is sent what it asked for, and
  -- then the status has a text, the type has no control byte and the length is within the buffer; or
  -- exactly the fixed 500, and then the status has no text, the type is none or has a control byte, the
  -- length is beyond the buffer, or the head does not fit its room.
  pub checked-Answer : Answer r (checked c r).unsent
  unfolding checked finish http_write_head
  checked-Answer = go (ltb body_max r.body_len) refl (ctype_ok r.ctype) refl
    where
      go :
          (a : Bool)
          → ltb body_max r.body_len ≡ a
          → (b : Bool) → ctype_ok r.ctype ≡ b
          → Answer r
              (if a || not b
                then fail_500 c
                else or_500 c (
                    lay_out c r.body_len r.body (
                      write_head head_max r.status
                        (status_text r.status)
                        r.ctype
                        r.body_len))).unsent
      go true e b q = internal_Answer (too_long (ground (arith, e)))
      go false e false q = internal_Answer (bad_type q)
      go false e true q = finished (status_text r.status) r.ctype refl refl q (ground (arith, e))
