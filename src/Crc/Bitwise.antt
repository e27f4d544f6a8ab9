-- ===== src/Crc/Bitwise.antt =====
-- The table-driven CRC against the bit-by-bit definition of CRC-32 (IEEE 802.3, reflected).
use Prim.Native.Nat.{bit_xor}
use cs370_term_project.Prelude.{
  ℕ, zero, suc, ◌*◌, ◌/◌, ◌%◌, ◌^◌, ◌<◌, ◌≡◌, Bool, true, ◌&&◌, [], ◌∷◌, ◌==◌, if◌then◌else◌,
  get_or, arith, refl, sym, ap, ap₂, ◌∙◌,
}
use cs370_term_project.Prelude.Bytes.{Bytes, AreBytes}
use cs370_term_project.Prelude.Bits.{
  bit_xor_assoc, bit_xor_comm, bit_xor_self, bit_xor-zero, zero-bit_xor, bit_xor-half,
  bit_xor_parity, bit_xor-lt, bit_xor-shift, bit_xor_fields, bit_and_mask,
}
use native.Mathlib.Nat.{pow-suc}
use cs370_term_project.Crc.{k_table, round, rounds, crc32}

abbrev pub polynomial : ℕ
polynomial = 0xedb8_8320

-- One step of the shift register.
unfoldable pub shift_bit : ℕ → ℕ
shift_bit c = if c % 2 == 1 then bit_xor (c / 2) polynomial else c / 2

unfoldable pub shift_bits : ℕ → ℕ → ℕ
shift_bits zero c = c
shift_bits (suc n) c = shift_bits n (shift_bit c)

unfoldable pub bitwise_rounds : ℕ → Bytes → ℕ
unfolding shift_bits shift_bit
bitwise_rounds c [] = c
bitwise_rounds c (b ∷ bs) = bitwise_rounds (shift_bits 8 (bit_xor c b)) bs

unfoldable pub bitwise_crc32 : Bytes → ℕ
unfolding bitwise_rounds
bitwise_crc32 bs = bit_xor (bitwise_rounds 0xffff_ffff bs) 0xffff_ffff

-- (x ^ p) ^ (y ^ p) is x ^ y
xor_cancel : (x y p : ℕ) → bit_xor (bit_xor x p) (bit_xor y p) ≡ bit_xor x y
xor_cancel x y p =
    ap (bit_xor (bit_xor x p)) (bit_xor_comm y p)
    ∙ bit_xor_assoc x p (bit_xor p y)
    ∙ ap (bit_xor x)
        (sym (bit_xor_assoc p p y) ∙ ap (λ k. bit_xor k y) (bit_xor_self p) ∙ zero-bit_xor y)

-- (x ^ p) ^ y is (x ^ y) ^ p
xor_swap : (x y p : ℕ) → bit_xor (bit_xor x p) y ≡ bit_xor (bit_xor x y) p
xor_swap x y p = bit_xor_assoc x p y ∙ ap (bit_xor x) (bit_xor_comm p y) ∙ sym (bit_xor_assoc x y p)

-- The register is linear.
shift_bit-xor : (a b : ℕ) → shift_bit (bit_xor a b) ≡ bit_xor (shift_bit a) (shift_bit b)
unfolding shift_bit
shift_bit-xor a b = ground (
  arith,
  bit_xor_parity a b,
  bit_xor-half a b,
  xor_cancel (a / 2) (b / 2) polynomial,
  xor_swap (a / 2) (b / 2) polynomial,
  bit_xor_assoc (a / 2) (b / 2) polynomial,
)

shift_bits-xor :
    (n a b : ℕ) → shift_bits n (bit_xor a b) ≡ bit_xor (shift_bits n a) (shift_bits n b)
unfolding shift_bits
shift_bits-xor zero a b = refl
shift_bits-xor (suc n) a b =
    ap (shift_bits n) (shift_bit-xor a b) ∙ shift_bits-xor n (shift_bit a) (shift_bit b)

shift_bit_even : (m : ℕ) → shift_bit (m * 2) ≡ m
unfolding shift_bit
shift_bit_even m = ground arith

-- Zero bits at the end are shifted out.
shift_bits_high : (n m : ℕ) → shift_bits n (m * 2 ^ n) ≡ m
unfolding shift_bits
shift_bits_high zero m = omega arith
shift_bits_high (suc n) m =
    ap (λ k. shift_bits n (shift_bit k)) {y = m * 2 ^ n * 2}
      (omega (arith, ap (λ (t : ℕ). m * t) (pow-suc 2 n)))
    ∙ ap (shift_bits n) (shift_bit_even (m * 2 ^ n))
    ∙ shift_bits_high n m

-- Whether two functions agree on the numbers below `n`.
agree : ℕ → (ℕ → ℕ) → (ℕ → ℕ) → Bool
agree zero f g = true
agree (suc n) f g = agree n f g && f n == g n

agree_sound : (n i : ℕ) (f g : ℕ → ℕ) → i < n → agree n f g ≡ true → f i ≡ g i
unfolding agree
agree_sound zero i f g lt e = absurd (omega arith)
agree_sound (suc n) i f g lt e = ground (arith, agree_sound n i f g)

table_check : agree 256 (λ i. get_or k_table i 0) (shift_bits 8) ≡ true
unfolding agree k_table shift_bits shift_bit
table_check = refl

-- Every entry of the table is what the register makes of its index.
pub k_table_lem : (i : ℕ) → i < 256 → get_or k_table i 0 ≡ shift_bits 8 i
k_table_lem i h = agree_sound 256 i (λ j. get_or k_table j 0) (shift_bits 8) h table_check

-- A round of the table is eight steps of the register.
round-shift_bits : (c b : ℕ) → b < 256 → round c b ≡ shift_bits 8 (bit_xor c b)
unfolding round
round-shift_bits c b h =
    ap₂ bit_xor
      (ap (λ k. get_or k_table k 0) (bit_and_mask 8 x 0xff refl)
        ∙ k_table_lem (x % 256) (omega arith))
      (sym (bit_xor-zero (c / 256))
        ∙ ap (bit_xor (c / 256)) {y = b / 256} (omega arith)
        ∙ sym (bit_xor-shift 8 c b)
        ∙ sym (shift_bits_high 8 (x / 256)))
    ∙ sym (shift_bits-xor 8 (x % 256) (x / 256 * 2 ^ 8))
    ∙ ap (shift_bits 8) (bit_xor_fields 8 (x / 256) (x % 256) (omega arith) ∙ omega arith)
  where
    x : ℕ
    x = bit_xor c b

pub rounds-bitwise : (c : ℕ) (bs : Bytes) → AreBytes bs → rounds c bs ≡ bitwise_rounds c bs
unfolding rounds bitwise_rounds
rounds-bitwise c [] h = refl
rounds-bitwise c (b ∷ bs) h =
    ap (λ k. rounds k bs) (round-shift_bits c b h.0)
    ∙ rounds-bitwise (shift_bits 8 (bit_xor c b)) bs h.1

shift_bit-lt : (c : ℕ) → c < 2 ^ 32 → shift_bit c < 2 ^ 32
unfolding shift_bit
shift_bit-lt c h = ground (arith, bit_xor-lt 32 (c / 2) polynomial)

shift_bits-lt : (n c : ℕ) → c < 2 ^ 32 → shift_bits n c < 2 ^ 32
unfolding shift_bits
shift_bits-lt zero c h = h
shift_bits-lt (suc n) c h = shift_bits-lt n (shift_bit c) (shift_bit-lt c h)

rounds-lt : (c : ℕ) (bs : Bytes) → c < 2 ^ 32 → AreBytes bs → rounds c bs < 2 ^ 32
unfolding rounds
rounds-lt c [] h bytes = h
rounds-lt c (b ∷ bs) h bytes =
    rounds-lt (round c b) bs
      (rw (round-shift_bits c b bytes.0)
        (shift_bits-lt 8 (bit_xor c b) (bit_xor-lt 32 c b h (omega (arith, bytes.0)))))
      bytes.1

-- The checksum of bytes fits the four bytes that hold it.
pub crc32-lt : (bs : Bytes) → AreBytes bs → crc32 bs < 2 ^ 32
unfolding crc32
crc32-lt bs bytes =
    bit_xor-lt 32 (rounds 0xffff_ffff bs) 0xffff_ffff (rounds-lt 0xffff_ffff bs (omega arith) bytes)
      (omega arith)

-- Over bytes, the table-driven checksum is the bitwise one.
pub crc32-bitwise : (bs : Bytes) → AreBytes bs → crc32 bs ≡ bitwise_crc32 bs
unfolding crc32 bitwise_crc32
crc32-bitwise bs h = ap (λ k. bit_xor k 0xffff_ffff) (rounds-bitwise 0xffff_ffff bs h)
