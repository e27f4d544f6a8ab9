-- ===== src/Ring/Refine.antt =====
-- A valid ring behaves as the queue of the slots that it holds.
use Prim.Native.Nat.{bit_and}
use cs370_term_project.Prelude.{
  ℕ, zero, suc, ◌+◌, ◌-◌, ◌%◌, ◌^◌, ◌≤◌, ◌<◌, ◌≡◌, Bool, some, List, [], ◌∷◌, ◌++◌, arith, refl,
  sym, ap, ap₂, ◌∙◌, length, get_elem?, get_or, set, drop, get_or-set_self, get_or-set_ne,
  Bool-cases, inl, inr, not, ◌&&◌, leb, ltb, get_elem?-none, drop-length,
}
use cs370_term_project.Prelude.Words.{IsU64, sub64}
use cs370_term_project.Ring.{Slot, Ring, capacity, mask, zero_slot, push, peek, release, pop, depth}
use cs370_term_project.Label.{src_is_valid}
use cs370_term_project.Ring.Queue
use cs370_term_project.Ring.Queue.{Op, Reply, AreSizes, enqueue, dequeue, run, run_ring}
use cs370_term_project.Ring.Bounds.{
  IsValid, bit_and-mask, push-IsValid, release-IsValid, pop-IsValid,
}

-- The slot that position `t` of the stream occupies.
abbrev pub at : List Slot → ℕ → Slot
at slots t = get_or slots (t % capacity) zero_slot

-- The `n` slots from position `t` on.
abbrev pub window : List Slot → ℕ → ℕ → List Slot
window slots t zero = []
window slots t (suc n) = at slots t ∷ window slots (t + 1) n

unfoldable pub contents : Ring → List Slot
contents r = window r.slot r.tail (depth r)

unfoldable pub view : Ring → Queue.Queue
view r = record { slots = contents r; next = r.head }

module _ (slots : List Slot) where
  pub length-window : (t n : ℕ) → length (window slots t n) ≡ n
  length-window t zero = refl
  length-window t (suc n) = ap suc (length-window (t + 1) n)

  pub get_elem?-window :
      (t n i : ℕ) → i < n → get_elem? (window slots t n) i ≡ some (at slots (t + i))
  get_elem?-window t zero i h = absurd (omega arith)
  get_elem?-window t (suc n) zero h = ap (λ k. some (at slots k)) (omega arith)
  get_elem?-window t (suc n) (suc i) h =
      get_elem?-window (t + 1) n i (omega arith) ∙ ap (λ k. some (at slots k)) (omega arith)

  pub drop-window : (t n k : ℕ) → k ≤ n → drop k (window slots t n) ≡ window slots (t + k) (n - k)
  drop-window t n zero h = ap₂ (window slots) (omega arith) (omega arith)
  drop-window t zero (suc k) h = absurd (omega arith)
  drop-window t (suc n) (suc k) h =
      drop-window (t + 1) n k (omega arith) ∙ ap₂ (window slots) (omega arith) (omega arith)

  -- Only the remainder of a position matters.
  window-mod : (t u n : ℕ) → t % capacity ≡ u % capacity → window slots t n ≡ window slots u n
  window-mod t u zero h = refl
  window-mod t u (suc n) h =
      ap₂ ◌∷◌ (ap (λ k. get_or slots k zero_slot) h) (window-mod (t + 1) (u + 1) n (omega arith))

-- Writing just past a window that does not fill the array extends it by that slot.
window-set :
    (slots : List Slot) (t n h : ℕ) (x : Slot)
    → length slots ≡ capacity
    → n < capacity
    → (t + n) % capacity ≡ h % capacity
    → window (set slots (h % capacity) x) t (suc n) ≡ window slots t n ++ x ∷ []
window-set slots t zero h x full lt e =
    ap (λ y. y ∷ [])
      (ap (λ k. get_or (set slots (h % capacity) x) k zero_slot) (omega arith)
        ∙ get_or-set_self slots (h % capacity) x zero_slot (omega arith))
window-set slots t (suc n) h x full lt e =
    ap₂ ◌∷◌ (get_or-set_ne slots (h % capacity) (t % capacity) x zero_slot (omega arith))
      (window-set slots (t + 1) n h x full (omega arith) (omega arith))

pub length-contents : (r : Ring) → length (contents r) ≡ depth r
unfolding contents
length-contents r = length-window r.slot r.tail (depth r)

-- The slots after a push that succeeds.
contents-write :
    (r : Ring) (x : Slot)
    → IsValid r
    → sub64 r.head r.tail < capacity
    → contents
        (record r { slot = set r.slot (bit_and r.head mask) x; head = (r.head + 1) % 2 ^ 64 })
      ≡ contents r ++ x ∷ []
unfolding contents depth
contents-write r x v lt =
    ap (window (set r.slot (bit_and r.head mask) x) r.tail) {y = suc (sub64 r.head r.tail)}
      (omega arith)
    ∙ ap (λ k. window (set r.slot k x) r.tail (suc (sub64 r.head r.tail))) (bit_and-mask r.head)
    ∙ (window-set r.slot r.tail (sub64 r.head r.tail) r.head x v.slots lt (omega arith))

-- `ring_push` answers and leaves the ring as the queue's `enqueue` does.
pub push_refines :
    {r : Ring} (s : Slot) → IsValid r → let (b, r') = push r s in (b, view r') ≡ enqueue (view r) s
unfolding push enqueue view depth contents
push_refines {r} s v = elim (Bool-cases (src_is_valid s.src)) [
  | inr bad ↦ rw (bad, ◌&&◌)
  | inl good ↦ elim (Bool-cases (leb capacity (sub64 r.head r.tail))) [
    | inl full ↦ rw (good, full, room full)
    | inr free ↦
        rw (good, free, room free, contents-write r (record s { seq = r.head }) v (ground arith))
  ]
]
  where
    room :
        {b : Bool}
        → leb capacity (sub64 r.head r.tail) ≡ b
        → ltb (length (contents r)) capacity ≡ not b
    room e = rw length-contents (ground arith)

-- `ring_peek` sees the i-th slot of the queue.
pub peek_refines : {r : Ring} (i : ℕ) → IsValid r → IsU64 i → peek r i ≡ get_elem? (contents r) i
unfolding peek contents depth
peek_refines {r} i v h = ground (
  arith,
  bit_and-mask ((r.tail + i) % 2 ^ 64),
  length-window r.slot r.tail (sub64 r.head r.tail),
  get_elem?-none (window r.slot r.tail (sub64 r.head r.tail)) i,
  get_elem?-window r.slot r.tail (sub64 r.head r.tail) i,
)

-- The slots after a release that succeeds.
pub contents-release :
    (r : Ring) (n : ℕ)
    → IsValid r
    → n ≤ sub64 r.head r.tail
    → contents (record r { tail = (r.tail + n) % 2 ^ 64 }) ≡ drop n (contents r)
unfolding contents depth
contents-release r n v le =
    ap (window r.slot ((r.tail + n) % 2 ^ 64)) (omega arith)
    ∙ window-mod r.slot ((r.tail + n) % 2 ^ 64) (r.tail + n) (sub64 r.head r.tail - n) (omega arith)
    ∙ sym (drop-window r.slot r.tail (sub64 r.head r.tail) n le)

-- `ring_release` drops the oldest slots, or none.
pub release_refines :
    {r : Ring} (n : ℕ)
    → IsValid r
    → IsU64 n
    → let (b, r') = release r n in (b, view r') ≡ dequeue (view r) n
unfolding release dequeue view depth
release_refines {r} n v h = ground (arith, length-contents r, contents-release r n v)

pub pop_refines : {r : Ring} → IsValid r → let (s, r') = pop r in (s, view r') ≡ Queue.pop (view r)
unfolding pop peek Queue.pop release view
pop_refines {r} v =
    ground (
      arith,
      peek_refines 0 v,
      contents-release r 1 v,
      length-contents r,
      drop-length 1 (contents r),
    )

-- No sequence of calls tells a valid ring from the bounded queue of its contents.
pub run_refines :
    (ops : List Op) {r : Ring} → IsValid r → AreSizes ops → run_ring r ops ≡ run (view r) ops
unfolding run run_ring view
run_refines [] v h = refl
run_refines (Queue.push s ∷ ops) v h = rw (run_refines ops (push-IsValid s v) h, ← push_refines s v)
run_refines (Queue.peek i ∷ ops) v h = rw (run_refines ops v h.1, peek_refines i v h.0, view)
run_refines (Queue.release n ∷ ops) v h =
    rw (run_refines ops (release-IsValid n v h.0) h.1, ← release_refines n v h.0)
run_refines (Queue.pop_one ∷ ops) v h = rw (run_refines ops (pop-IsValid v) h, ← pop_refines v)
