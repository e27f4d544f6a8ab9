-- ===== src/Ring/Bounds.antt =====
-- The representation invariant of the ring and that every operation keeps it, also where the
-- 64-bit counters wrap.
use Prim.Native.Nat.{bit_and}
use cs370_term_project.Prelude.{
  ℕ, ◌+◌, ◌%◌, ◌≤◌, ◌<◌, ◌≡◌, Bool, true, false, none, some, leb, if◌then◌else◌, arith, refl,
  length, length-set, length-replicate, get_or,
}
use cs370_term_project.Prelude.Bits.{bit_and_mask}
use cs370_term_project.Prelude.Words.{IsU64, sub64, add64}
use cs370_term_project.Ring.{
  Slot, Ring, capacity, mask, zero_slot, init, layout_ok, push, peek, release, pop, depth,
}

pub record IsValid (r : Ring) : Type 0 where
  pub slots : length r.slot ≡ capacity
  pub head_in : IsU64 r.head
  pub tail_in : IsU64 r.tail
  pub fits : sub64 r.head r.tail ≤ capacity

-- `x & MASK` is the remainder by the capacity.
pub bit_and-mask : (x : ℕ) → bit_and x mask ≡ x % capacity
bit_and-mask x = bit_and_mask 12 x mask refl

-- A fresh ring is valid, and its header passes the check of `ring_attach`.
pub init-IsValid : (r : Ring) → IsValid (init r) × (layout_ok (init r) ≡ true)
unfolding init layout_ok
init-IsValid r = (
  record {
    slots = length-replicate capacity zero_slot;
    head_in = omega arith;
    tail_in = omega arith;
    fits = omega arith;
  },
  refl,
)

pub push-IsValid : {r : Ring} (s : Slot) → IsValid r → IsValid (push r s).1
unfolding push
push-IsValid {r} s v =
    ground (arith, length-set r.slot (bit_and r.head mask) (record s { seq = r.head }))

pub release-IsValid : {r : Ring} (n : ℕ) → IsValid r → IsU64 n → IsValid (release r n).1
unfolding release
release-IsValid n v h = ground arith

pub pop-IsValid : {r : Ring} → IsValid r → IsValid (pop r).1
unfolding pop peek
pop-IsValid {r} v = ground (arith, release-IsValid 1 v)

pub depth-le-capacity : {r : Ring} → IsValid r → depth r ≤ capacity
unfolding depth
depth-le-capacity v = omega arith

-- Every index that a push writes or a peek reads lies inside the slot array.
pub index_in_bounds : {r : Ring} (i : ℕ) → IsValid r → bit_and (r.tail + i) mask < length r.slot
index_in_bounds {r} i v = omega (arith, bit_and-mask (r.tail + i))

-- A slot can be seen only at a place below the capacity.
pub peek-lt : {r : Ring} {i : ℕ} {x : Slot} → IsValid r → peek r i ≡ some x → i < capacity
unfolding peek
peek-lt {r} {i} v e = go _ (leb (sub64 r.head r.tail) i) refl e
  where
    go :
        {x : Slot} (y : Slot) (empty : Bool)
        → leb (sub64 r.head r.tail) i ≡ empty
        → (if empty then none else some y) ≡ some x
        → i < capacity
    go y true l e = absurd (cc e)
    go y false l e = ground (arith, l, v.fits)

-- What a peek copies out stands in the slot array.
pub peek-slot :
    (r : Ring) (i : ℕ) {x : Slot}
    → peek r i ≡ some x
    → get_or r.slot (bit_and (add64 r.tail i) mask) zero_slot ≡ x
unfolding peek
peek-slot r i e = go (leb (sub64 r.head r.tail) i) e
  where
    go : {x y : Slot} (empty : Bool) → (if empty then none else some y) ≡ some x → y ≡ x
    go true e = absurd (cc e)
    go false e = cc e
