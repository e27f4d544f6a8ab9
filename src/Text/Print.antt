-- ===== src/Text/Print.antt =====
-- The bytes of a printed number, and how many there are.
use cs370_term_project.Prelude.{
  ℕ, zero, suc, ◌+◌, ◌/◌, ◌%◌, ◌≤◌, ◌<◌, Bool, true, false, ◌∷◌, ◌==◌, if◌then◌else◌, arith, length,
}
use cs370_term_project.Prelude.Bytes.{Bytes, AreBytes}
use cs370_term_project.Text.{digit_char, print_digits}

pub print_digits-AreBytes :
    (fuel base v : ℕ) (rest : Bytes)
    → 0 < base
    → base ≤ 16
    → AreBytes rest
    → AreBytes (print_digits fuel base v rest)
unfolding print_digits
print_digits-AreBytes zero base v rest p l h = h
print_digits-AreBytes (suc n) base v rest p l h =
    go (v / base == 0)
      (print_digits-AreBytes n base (v / base) (digit_char (v % base) ∷ rest) p l (small, h))
  where
    lt : v % base < 16
    lt = grind arith

    small : digit_char (v % base) < 256
    small = ground (arith, lt)

    go :
        (b : Bool)
        → AreBytes (print_digits n base (v / base) (digit_char (v % base) ∷ rest))
        → AreBytes (
            if b
            then digit_char (v % base) ∷ rest
            else print_digits n base (v / base) (digit_char (v % base) ∷ rest))
    go true ih = (small, h)
    go false ih = ih

pub length-print_digits :
    (fuel base v : ℕ) (rest : Bytes) → length (print_digits fuel base v rest) ≤ fuel + length rest
unfolding print_digits
length-print_digits zero base v rest = omega arith
length-print_digits (suc n) base v rest =
    ground (arith, length-print_digits n base (v / base) (digit_char (v % base) ∷ rest))
