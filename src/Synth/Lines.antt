-- ===== src/Synth/Lines.antt =====
-- The lines of a reply in their buffer: all of them, or a reply that does not fit.
use cs370_term_project.Prelude.{
  ℕ, zero, suc, ◌≡◌, ◌-◌, ◌≤◌, ◌<◌, Bool, true, false, Option, none, some, List, [], ◌∷◌, ◌++◌,
  refl, sym, ap, ◌∙◌, arith, le→leb, leb, ltb, if◌then◌else◌, length, length-append, append_assoc,
  append-nil,
}
use cs370_term_project.Prelude.Bytes.{Bytes}
use cs370_term_project.Text.{join}
use cs370_term_project.Synth.{Out, outf}
use cs370_term_project.Synth.Series.{whole}

abbrev pub put_lines : ℕ → List Bytes → Out → Out
put_lines cap [] o = o
put_lines cap (l ∷ ls) o = put_lines cap ls (outf cap o l)

pub put_lines-append :
    (cap : ℕ) (ks ls : List Bytes) (o : Out)
    → put_lines cap (ks ++ ls) o ≡ put_lines cap ls (put_lines cap ks o)
put_lines-append cap [] ls o = refl
put_lines-append cap (k ∷ ks) ls o = put_lines-append cap ks ls (outf cap o k)

full :
    (cap : ℕ) (ls : List Bytes) (text : Bytes)
    → whole (put_lines cap ls (record { text = text; over = true })) ≡ none
unfolding outf whole
full cap [] text = refl
full cap (l ∷ ls) text = full cap ls text

-- The text with what a line leaves of it, or nothing.
unfoldable pub fits : ℕ → Bytes → Option Bytes
fits cap text = if ltb (length text) cap then some text else none

fits-short : (cap : ℕ) (text : Bytes) → length text < cap → some text ≡ fits cap text
unfolding fits
fits-short cap text h = ground arith

fits-long : (cap : ℕ) (text : Bytes) → cap ≤ length text → none ≡ fits cap text
unfolding fits
fits-long cap text h = ground arith

-- What is written so far, and the lines to come, behind one another.
fitted :
    (cap : ℕ) (ls : List Bytes) (text : Bytes)
    → length text < cap
    → whole (put_lines cap ls (record { text = text; over = false })) ≡ fits cap (text ++ join ls)
unfolding outf whole
fitted cap [] text h = fits-short cap text h ∙ ap (fits cap) (sym (append-nil text))
fitted cap (l ∷ ls) text h =
    go (fitted cap ls (text ++ l)) (leb (cap - length text) (length l)) refl
  where
    go :
        (length (text ++ l) < cap
          → whole (put_lines cap ls (record { text = text ++ l; over = false }))
            ≡ fits cap ((text ++ l) ++ join ls))
        → (b : Bool) → leb (cap - length text) (length l) ≡ b
        → whole (
            put_lines cap ls (
              if b
              then record { text = text; over = true }
              else record { text = text ++ l; over = false }))
          ≡ fits cap (text ++ (l ++ join ls))
    go rest true e =
        full cap ls text
        ∙ fits-long cap (text ++ (l ++ join ls))
            (ground (arith, length-append text (l ++ join ls), length-append l (join ls)))
    go rest false e =
        rest (ground (arith, length-append text l)) ∙ ap (fits cap) (append_assoc text l (join ls))

-- A reply of some lines is all of them, or -1.
pub put_lines-whole :
    (cap : ℕ) (ls : List Bytes)
    → 0 < length ls
    → whole (put_lines cap ls (record { text = []; over = false })) ≡ fits cap (join ls)
unfolding outf
put_lines-whole zero [] p = absurd (omega arith)
put_lines-whole zero (l ∷ ls) p =
    ap
      (λ b. whole (
        put_lines zero ls
          (if b then record { text = []; over = true } else record { text = l; over = false })))
      (le→leb 0 (length l) (omega arith))
    ∙ full zero ls []
    ∙ fits-long zero (l ++ join ls) (omega arith)
put_lines-whole (suc n) ls p = fitted (suc n) ls [] (omega arith)
