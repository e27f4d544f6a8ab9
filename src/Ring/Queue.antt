-- ===== src/Ring/Queue.antt =====
-- What the ring promises: a first-in first-out queue of at most `capacity` labelled slots, each
-- numbered as it goes in.
use cs370_term_project.Prelude.{
  ℕ, Bool, true, false, ◌&&◌, Option, List, [], ◌∷◌, ◌++◌, ltb, leb, if◌then◌else◌, length,
  get_elem?, drop,
}
use cs370_term_project.Prelude.Words.{add64, IsU64}
use cs370_term_project.Label.{src_is_valid}
use cs370_term_project.Ring as Buffer
use cs370_term_project.Ring.{Slot, Ring, capacity}

-- The slots in the queue, oldest first, and the number that the next one gets.
pub record Queue : Type 0 where
  pub slots : List Slot
  pub next : ℕ

-- A push goes to the back, if the slot is labelled and there is room for it.
unfoldable pub enqueue : Queue → Slot → Bool × Queue
enqueue q s =
    if src_is_valid s.src && ltb (length q.slots) capacity
    then (true, record { slots = q.slots ++ record s { seq = q.next } ∷ []; next = add64 q.next 1 })
    else (false, q)

-- All or nothing, from the front.
unfoldable pub dequeue : Queue → ℕ → Bool × Queue
dequeue q n =
    if leb n (length q.slots) then (true, record q { slots = drop n q.slots }) else (false, q)

unfoldable pub pop : Queue → Option Slot × Queue
pop q = (get_elem? q.slots 0, record q { slots = drop 1 q.slots })

-- The calls of a client and what it sees of them.
pub data Op : Type 0 where
  push : Slot → Op
  peek : ℕ → Op
  release : ℕ → Op
  pop_one : Op

pub data Reply : Type 0 where
  done : Bool → Reply
  seen : Option Slot → Reply

-- An index or a count is a size_t.
abbrev pub AreSizes : List Op → Type 0
AreSizes [] = Unit
AreSizes (push s ∷ ops) = AreSizes ops
AreSizes (peek i ∷ ops) = IsU64 i × AreSizes ops
AreSizes (release n ∷ ops) = IsU64 n × AreSizes ops
AreSizes (pop_one ∷ ops) = AreSizes ops

unfoldable pub run : Queue → List Op → List Reply
run q [] = []
run q (push s ∷ ops) = let (b, q') = enqueue q s in done b ∷ run q' ops
run q (peek i ∷ ops) = seen (get_elem? q.slots i) ∷ run q ops
run q (release n ∷ ops) = let (b, q') = dequeue q n in done b ∷ run q' ops
run q (pop_one ∷ ops) = let (s, q') = pop q in seen s ∷ run q' ops

-- The same calls on the ring.
unfoldable pub run_ring : Ring → List Op → List Reply
run_ring r [] = []
run_ring r (push s ∷ ops) = let (b, r') = Buffer.push r s in done b ∷ run_ring r' ops
run_ring r (peek i ∷ ops) = seen (Buffer.peek r i) ∷ run_ring r ops
run_ring r (release n ∷ ops) = let (b, r') = Buffer.release r n in done b ∷ run_ring r' ops
run_ring r (pop_one ∷ ops) = let (s, r') = Buffer.pop r in seen s ∷ run_ring r' ops
