-- ===== src/Http/Decode.antt =====
-- The bounds of the percent-decoder of src/interface/http.c.
use cs370_term_project.Prelude.{
  ℕ, ◌+◌, ◌<◌, ◌≡◌, Bool, true, false, Option, none, some, [], ◌∷◌, ◌++◌, leb, ◌==◌, if◌then◌else◌,
  arith, refl, subst, length, length-append,
}
use cs370_term_project.Prelude.Bytes.{Bytes}
use cs370_term_project.Http.{hexval, unescape, put_byte, plain, decode_loop, decode}

abbrev Fits : ℕ → Option Bytes → Type 0
Fits cap none = Unit
Fits cap (some d) = length d < cap

put_byte-Fits :
    (next : Bytes → Option Bytes) (cap : ℕ) (out : Bytes) (c : Option ℕ)
    → ((d : Bytes) → length d < cap → Fits cap (next d))
    → Fits cap (put_byte next cap out c)
unfolding put_byte
put_byte-Fits next cap out none h = tt
put_byte-Fits next cap out (some c) h = go (leb cap (length out + 1)) refl
  where
    go :
        (full : Bool)
        → leb cap (length out + 1) ≡ full
        → Fits cap (if full then none else next (out ++ c ∷ []))
    go true e = tt
    go false e = h (out ++ c ∷ []) (ground (arith, e, length-append out (c ∷ [])))

decode_loop-Fits :
    (plus : Bool) (cap : ℕ) (input out : Bytes)
    → length out < cap
    → Fits cap (decode_loop plus cap input out)
unfolding decode_loop
decode_loop-Fits plus cap [] out l = l
decode_loop-Fits plus cap (c ∷ []) out l = go (c == b'%')
  where
    go :
        (escape : Bool)
        → Fits cap
            (elim escape [ true ↦ none | false ↦ put_byte some cap out (some (plain plus c)) ])
    go true = tt
    go false = put_byte-Fits some cap out (some (plain plus c)) (λ d k. k)
decode_loop-Fits plus cap (c ∷ h ∷ []) out l = go (c == b'%') (decode_loop-Fits plus cap (h ∷ []))
  where
    go :
        (escape : Bool)
        → ((d : Bytes) → length d < cap → Fits cap (decode_loop plus cap (h ∷ []) d))
        → Fits cap (elim escape [
          | true ↦ none
          | false ↦ put_byte (decode_loop plus cap (h ∷ [])) cap out (some (plain plus c))
        ])
    go true ih = tt
    go false ih = put_byte-Fits (decode_loop plus cap (h ∷ [])) cap out (some (plain plus c)) ih
decode_loop-Fits plus cap (c ∷ h ∷ x ∷ rest) out l =
    go (c == b'%') (decode_loop-Fits plus cap rest) (decode_loop-Fits plus cap (h ∷ x ∷ rest))
  where
    go :
        (escape : Bool)
        → ((d : Bytes) → length d < cap → Fits cap (decode_loop plus cap rest d))
        → ((d : Bytes) → length d < cap → Fits cap (decode_loop plus cap (h ∷ x ∷ rest) d))
        → Fits cap (elim escape [
          | true ↦ put_byte (decode_loop plus cap rest) cap out (unescape (hexval h) (hexval x))
          | false ↦ put_byte (decode_loop plus cap (h ∷ x ∷ rest)) cap out (some (plain plus c))
        ])
    go true a b =
        put_byte-Fits (decode_loop plus cap rest) cap out (unescape (hexval h) (hexval x)) a
    go false a b =
        put_byte-Fits (decode_loop plus cap (h ∷ x ∷ rest)) cap out (some (plain plus c)) b

-- Whatever is decoded, the bytes written and their NUL stay inside the `cap` bytes of the buffer.
pub decode-lt :
    (input : Bytes) (cap : ℕ) (plus : Bool) {d : Bytes}
    → decode input cap plus ≡ some d
    → length d < cap
unfolding decode
decode-lt input cap plus {d} e = go (cap == 0) refl e
  where
    go :
        (empty : Bool)
        → (cap == 0) ≡ empty
        → (if empty then none else decode_loop plus cap input []) ≡ some d
        → length d < cap
    go true z e = absurd (cc e)
    go false z e = subst (Fits cap) e (decode_loop-Fits plus cap input [] (ground (arith, z)))
