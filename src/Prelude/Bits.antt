-- ===== src/Prelude/Bits.antt =====
-- Laws of `bit_and` and `bit_xor` at variables, from the digit recursion that they stand for.
use Prim.Native.Nat.{
  ℕ, zero, suc, ◌+◌, ◌-◌, ◌*◌, ◌/◌, ◌%◌, ◌^◌, ◌≤◌, ◌<◌, min, bit_and, bit_xor, digits, differ,
  bit_and-bitwise, bit_xor-bitwise,
}
use mathlib.Core.Path.{◌≡◌, refl, sym, ap, ap₂, ◌∙◌}
use native.Mathlib.Omega.{arith}
use native.Mathlib.Nat.{pow-suc, div-div-eq-div-mul, mod-eq-sub-div-mul, div-mul-le_self}

-- A first number of zero ends the recursion, whatever the fuel.
digits_end : (z : ℕ → ℕ) (f : ℕ → ℕ → ℕ) (n b : ℕ) → digits z f n 0 b ≡ z b
digits_end z f zero b = refl
digits_end z f (suc n) b = refl

-- Fuel beyond the first number is never used.
digits_spare :
    (z : ℕ → ℕ) (f : ℕ → ℕ → ℕ) (k n a b : ℕ) → a ≤ n → digits z f (k + n) a b ≡ digits z f n a b
digits_spare z f k n zero b h = digits_end z f (k + n) b ∙ sym (digits_end z f n b)
digits_spare z f k zero (suc a) b h = absurd (omega arith)
digits_spare z f k (suc n) (suc a) b h =
    ap (λ m. digits z f m (suc a) b) {x = k + suc n} {y = suc (k + n)} (omega arith)
    ∙ omega (arith, digits_spare z f k n (suc a / 2) (b / 2) (omega arith))

-- In the case of `suc a`, what is left of the fuel can be cut to half of it.
digits_half :
    (z : ℕ → ℕ) (f : ℕ → ℕ → ℕ) (a b : ℕ)
    → digits z f a (suc a / 2) b ≡ digits z f (suc a / 2) (suc a / 2) b
digits_half z f a b =
    ap (λ m. digits z f m (suc a / 2) b) {x = a} {y = a - suc a / 2 + suc a / 2} (omega arith)
    ∙ digits_spare z f (a - suc a / 2) (suc a / 2) (suc a / 2) b (omega arith)

differ_digits : (x y : ℕ) → x < 2 → y < 2 → differ x y ≡ (x + y) % 2
differ_digits zero y p q = omega arith
differ_digits (suc zero) zero p q = refl
differ_digits (suc zero) (suc zero) p q = refl
differ_digits (suc zero) (suc (suc y)) p q = absurd (omega arith)
differ_digits (suc (suc x)) y p q = absurd (omega arith)

pub bit_xor_step : (a b : ℕ) → bit_xor a b ≡ bit_xor (a / 2) (b / 2) * 2 + (a % 2 + b % 2) % 2
bit_xor_step zero b = omega (arith, bit_xor-bitwise 0 b, bit_xor-bitwise 0 (b / 2))
bit_xor_step (suc a) b = omega (
  arith,
  bit_xor-bitwise (suc a) b,
  bit_xor-bitwise (suc a / 2) (b / 2),
  differ_digits (suc a % 2) (b % 2) (omega arith) (omega arith),
  digits_half (λ y. y) differ a (b / 2),
)

pub bit_and_step : (a b : ℕ) → bit_and a b ≡ bit_and (a / 2) (b / 2) * 2 + min (a % 2) (b % 2)
bit_and_step zero b = omega (arith, bit_and-bitwise 0 b, bit_and-bitwise 0 (b / 2))
bit_and_step (suc a) b = omega (
  arith,
  bit_and-bitwise (suc a) b,
  bit_and-bitwise (suc a / 2) (b / 2),
  digits_half (λ y. 0) min a (b / 2),
)

pub zero-bit_xor : (b : ℕ) → bit_xor 0 b ≡ b
zero-bit_xor b = bit_xor-bitwise 0 b

xor-zero_below : (n a : ℕ) → a ≤ n → bit_xor a 0 ≡ a
xor-zero_below n zero h = refl
xor-zero_below zero (suc a) h = absurd (omega arith)
xor-zero_below (suc n) (suc a) h =
    omega (arith, bit_xor_step (suc a) 0, xor-zero_below n (suc a / 2) (omega arith))

pub bit_xor-zero : (a : ℕ) → bit_xor a 0 ≡ a
bit_xor-zero a = xor-zero_below a a (omega arith)

xor-self_below : (n a : ℕ) → a ≤ n → bit_xor a a ≡ 0
xor-self_below n zero h = refl
xor-self_below zero (suc a) h = absurd (omega arith)
xor-self_below (suc n) (suc a) h =
    omega (arith, bit_xor_step (suc a) (suc a), xor-self_below n (suc a / 2) (omega arith))

pub bit_xor_self : (a : ℕ) → bit_xor a a ≡ 0
bit_xor_self a = xor-self_below a a (omega arith)

xor-comm_below : (n a b : ℕ) → a ≤ n → bit_xor a b ≡ bit_xor b a
xor-comm_below n zero b h = zero-bit_xor b ∙ sym (bit_xor-zero b)
xor-comm_below zero (suc a) b h = absurd (omega arith)
xor-comm_below (suc n) (suc a) b h = omega (
  arith,
  bit_xor_step (suc a) b,
  bit_xor_step b (suc a),
  xor-comm_below n (suc a / 2) (b / 2) (omega arith),
)

pub bit_xor_comm : (a b : ℕ) → bit_xor a b ≡ bit_xor b a
bit_xor_comm a b = xor-comm_below a a b (omega arith)

-- The two parts of an exclusive or.
pub bit_xor-half : (a b : ℕ) → bit_xor a b / 2 ≡ bit_xor (a / 2) (b / 2)
bit_xor-half a b = omega (arith, bit_xor_step a b)

pub bit_xor_parity : (a b : ℕ) → bit_xor a b % 2 ≡ (a % 2 + b % 2) % 2
bit_xor_parity a b = omega (arith, bit_xor_step a b)

xor-assoc_below : (n a b c : ℕ) → a ≤ n → bit_xor (bit_xor a b) c ≡ bit_xor a (bit_xor b c)
xor-assoc_below n zero b c h =
    ap (λ k. bit_xor k c) (zero-bit_xor b) ∙ sym (zero-bit_xor (bit_xor b c))
xor-assoc_below zero (suc a) b c h = absurd (omega arith)
xor-assoc_below (suc n) (suc a) b c h = omega (
  arith,
  bit_xor_step (bit_xor (suc a) b) c,
  bit_xor_step (suc a) (bit_xor b c),
  ap (λ k. bit_xor k (c / 2)) (bit_xor-half (suc a) b),
  ap (bit_xor (suc a / 2)) (bit_xor-half b c),
  bit_xor_parity (suc a) b,
  bit_xor_parity b c,
  xor-assoc_below n (suc a / 2) (b / 2) (c / 2) (omega arith),
)

pub bit_xor_assoc : (a b c : ℕ) → bit_xor (bit_xor a b) c ≡ bit_xor a (bit_xor b c)
bit_xor_assoc a b c = xor-assoc_below a a b c (omega arith)

-- Two numbers of `k` bits make one of `k` bits.
pub bit_xor-lt : (k a b : ℕ) → a < 2 ^ k → b < 2 ^ k → bit_xor a b < 2 ^ k
bit_xor-lt zero zero zero p q = omega arith
bit_xor-lt zero zero (suc b) p q = absurd (omega arith)
bit_xor-lt zero (suc a) b p q = absurd (omega arith)
bit_xor-lt (suc k) a b p q = omega (
  arith,
  pow-suc 2 k,
  bit_xor_step a b,
  bit_xor-lt k (a / 2) (b / 2) (omega (arith, pow-suc 2 k)) (omega (arith, pow-suc 2 k)),
)

div-pow-suc : (k a : ℕ) → a / 2 ^ suc k ≡ a / 2 / 2 ^ k
div-pow-suc k a =
    ap (λ t. a / t) (omega (arith, pow-suc 2 k)) ∙ sym (div-div-eq-div-mul a 2 (2 ^ k))

mul-pow-suc : (q k : ℕ) → q * 2 ^ suc k ≡ 2 * (q * 2 ^ k)
mul-pow-suc q k = omega (arith, ap (λ (t : ℕ). q * t) (pow-suc 2 k))

-- Shifting right goes into an exclusive or.
pub bit_xor-shift : (k a b : ℕ) → bit_xor a b / 2 ^ k ≡ bit_xor (a / 2 ^ k) (b / 2 ^ k)
bit_xor-shift zero a b = omega (
  arith,
  ap (λ t. bit_xor t (b / 1)) {x = a / 1} {y = a} (omega arith),
  ap (λ t. bit_xor a t) {x = b / 1} {y = b} (omega arith),
)
bit_xor-shift (suc k) a b =
    div-pow-suc k (bit_xor a b)
    ∙ ap (λ t. t / 2 ^ k) (bit_xor-half a b)
    ∙ bit_xor-shift k (a / 2) (b / 2)
    ∙ sym (ap₂ bit_xor (div-pow-suc k a) (div-pow-suc k b))

-- Fields that do not overlap add up.
pub bit_xor_fields : (k q r : ℕ) → r < 2 ^ k → bit_xor r (q * 2 ^ k) ≡ r + q * 2 ^ k
bit_xor_fields zero q zero h = omega (arith, zero-bit_xor (q * 2 ^ 0))
bit_xor_fields zero q (suc r) h = absurd (omega arith)
bit_xor_fields (suc k) q r h = ground (
  arith,
  bit_xor_step r (q * 2 ^ suc k),
  mul-pow-suc q k,
  pow-suc 2 k,
  bit_xor_fields k q (r / 2) (omega (arith, pow-suc 2 k)),
)

and-zero_below : (n a : ℕ) → a ≤ n → bit_and a 0 ≡ 0
and-zero_below n zero h = refl
and-zero_below zero (suc a) h = absurd (omega arith)
and-zero_below (suc n) (suc a) h =
    omega (arith, bit_and_step (suc a) 0, and-zero_below n (suc a / 2) (omega arith))

-- A mask of ones keeps the low bits. The mask is given by one more than itself.
pub bit_and_mask : (k a m : ℕ) → m + 1 ≡ 2 ^ k → bit_and a m ≡ a % 2 ^ k
bit_and_mask zero a zero h = and-zero_below a a (omega arith) ∙ omega arith
bit_and_mask zero a (suc m) h = absurd (omega arith)
bit_and_mask (suc k) a m h = omega (
  arith,
  bit_and_step a m,
  pow-suc 2 k,
  bit_and_mask k (a / 2) (m / 2) (omega (arith, pow-suc 2 k)),
  mod-eq-sub-div-mul a (2 ^ suc k),
  mod-eq-sub-div-mul (a / 2) (2 ^ k),
  div-mul-le_self (a / 2) (2 ^ k),
  div-pow-suc k a,
  mul-pow-suc (a / 2 / 2 ^ k) k,
  ap (λ (t : ℕ). t * 2 ^ suc k) (div-pow-suc k a),
)
