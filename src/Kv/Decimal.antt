-- ===== src/Kv/Decimal.antt =====
-- A number that `%llu` prints is one that the reply format and JSON accept.
use cs370_term_project.Prelude.{
  ℕ, zero, suc, ◌/◌, ◌%◌, ◌^◌, ◌≤◌, ◌<◌, ◌≡◌, Bool, true, false, [], ◌∷◌, ◌==◌, if◌then◌else◌,
  arith, refl, length,
}
use native.Mathlib.Nat.{pow-suc}
use cs370_term_project.Prelude.Bytes.{Bytes}
use cs370_term_project.Text.{digit_char, print_digits, print_number}
use cs370_term_project.Text.Print.{length-print_digits}
use cs370_term_project.Json.{
  is_number, skip_minus, skip_int, skip_digits, skip_fraction, skip_exponent,
}
use cs370_term_project.Kv.Wire.{IsBare, IsNumber}

abbrev AreDigits : Bytes → Type 0
AreDigits [] = Unit
AreDigits (c ∷ cs) = (b'0' ≤ c) × (c ≤ b'9') × AreDigits cs

-- Digits of which the first is not zero.
abbrev IsLead : Bytes → Type 0
IsLead [] = ⊥
IsLead (c ∷ cs) = (b'0' < c) × (c ≤ b'9') × AreDigits cs

digit-lower : (v : ℕ) → b'0' ≤ digit_char (v % 10)
digit-lower v = ground arith

digit-upper : (v : ℕ) → digit_char (v % 10) ≤ b'9'
digit-upper v = let lt : v % 10 < 10 = omega arith in ground (arith, lt)

print_digits-IsLead :
    (fuel v : ℕ) (rest : Bytes)
    → 0 < v
    → v < 10 ^ fuel
    → AreDigits rest
    → IsLead (print_digits fuel 10 v rest)
unfolding print_digits
print_digits-IsLead zero v rest p l d = absurd (omega arith)
print_digits-IsLead (suc n) v rest p l d = go (v / 10 == 0) refl (λ q.
    print_digits-IsLead n (v / 10) here q (omega (arith, l, pow-suc 10 n))
      (digit-lower v, digit-upper v, d))
  where
    here : Bytes
    here = digit_char (v % 10) ∷ rest

    go :
        (b : Bool)
        → (v / 10 == 0) ≡ b
        → (0 < v / 10 → IsLead (print_digits n 10 (v / 10) here))
        → IsLead (if b then here else print_digits n 10 (v / 10) here)
    go true e ih = (ground (arith, e, p), digit-upper v, d)
    go false e ih = ih (ground (arith, e))

AreDigits-IsBare : (s : Bytes) → AreDigits s → IsBare s
AreDigits-IsBare [] h = tt
AreDigits-IsBare (c ∷ cs) (a, b, h) = (omega arith, omega arith, omega arith, AreDigits-IsBare cs h)

skip_digits-all : (s : Bytes) → AreDigits s → skip_digits s ≡ []
unfolding skip_digits
skip_digits-all [] h = refl
skip_digits-all (c ∷ cs) (a, b, h) = ground (arith, a, b, skip_digits-all cs h)

IsLead-is_number : (s : Bytes) → IsLead s → is_number s ≡ true
unfolding is_number skip_minus skip_int skip_fraction skip_exponent
IsLead-is_number [] h = elim h [ ]
IsLead-is_number (c ∷ cs) (a, b, h) = ground (arith, a, b, skip_digits-all cs h)

IsLead-IsBare : (s : Bytes) → IsLead s → IsBare s
IsLead-IsBare [] h = elim h [ ]
IsLead-IsBare (c ∷ cs) (a, b, h) = AreDigits-IsBare (c ∷ cs) (omega arith, b, h)

zero-IsNumber : IsNumber (print_number 10 0)
unfolding print_digits is_number skip_minus skip_int skip_fraction skip_exponent
zero-IsNumber = record { bare = omega arith; number = refl; short = omega arith }

pub print_number-IsNumber : (v : ℕ) → v < 2 ^ 64 → IsNumber (print_number 10 v)
print_number-IsNumber zero h = zero-IsNumber
print_number-IsNumber (suc n) h =
    let lead = print_digits-IsLead 20 (suc n) [] (omega arith) (omega arith) tt in
    record {
      bare = IsLead-IsBare (print_number 10 (suc n)) lead;
      number = IsLead-is_number (print_number 10 (suc n)) lead;
      short = omega (arith, length-print_digits 20 10 (suc n) []);
    }

pub length-print_number : (v : ℕ) → length (print_number 10 v) ≤ 20
length-print_number v = omega (arith, length-print_digits 20 10 v [])
