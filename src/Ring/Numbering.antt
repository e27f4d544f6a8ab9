-- ===== src/Ring/Numbering.antt =====
-- The ring numbers its own slots: the unread ones carry consecutive positions from the tail on, so
-- a gap that the consumer sees is a real loss.
use cs370_term_project.Prelude.{
  ap, ℕ, zero, suc, ◌+◌, ◌%◌, ◌^◌, ◌≡◌, List, [], ◌∷◌, ◌++◌, arith, length, drop, Bool-cases, inl,
  inr, leb, ltb, ◌&&◌,
}
use cs370_term_project.Prelude.Words.{IsU64, sub64, add64}
use cs370_term_project.Label.{src_is_valid}
use cs370_term_project.Ring.{Slot, Ring, capacity, push, release, depth}
use cs370_term_project.Ring.Queue.{enqueue}
use cs370_term_project.Ring.Bounds.{IsValid}
use cs370_term_project.Ring.Refine.{contents, view, length-contents, push_refines, contents-release}

-- The slots carry the numbers `t`, `t + 1`, … of 64 bits.
abbrev pub Consecutive : ℕ → List Slot → Type 0
Consecutive t [] = Unit
Consecutive t (s ∷ ss) = (s.seq ≡ t % 2 ^ 64) × Consecutive (t + 1) ss

abbrev pub IsNumbered : Ring → Type 0
IsNumbered r = Consecutive r.tail (contents r)

Consecutive-append :
    (t : ℕ) (ss : List Slot) (s : Slot)
    → Consecutive t ss
    → s.seq ≡ (t + length ss) % 2 ^ 64
    → Consecutive t (ss ++ s ∷ [])
Consecutive-append t [] s h e = (omega arith, tt)
Consecutive-append t (x ∷ ss) s h e = (h.0, Consecutive-append (t + 1) ss s h.1 (omega arith))

Consecutive-mod :
    (t u : ℕ) (ss : List Slot) → t % 2 ^ 64 ≡ u % 2 ^ 64 → Consecutive t ss → Consecutive u ss
Consecutive-mod t u [] e h = tt
Consecutive-mod t u (s ∷ ss) e h =
    (omega (arith, h.0), Consecutive-mod (t + 1) (u + 1) ss (omega arith) h.1)

Consecutive-drop : (t n : ℕ) (ss : List Slot) → Consecutive t ss → Consecutive (t + n) (drop n ss)
Consecutive-drop t zero ss h = Consecutive-mod t (t + 0) ss (omega arith) h
Consecutive-drop t (suc n) [] h = tt
Consecutive-drop t (suc n) (s ∷ ss) h =
    Consecutive-mod (t + 1 + n) (t + suc n) (drop n ss) (omega arith)
      (Consecutive-drop (t + 1) n ss h.1)

tail-push : (r : Ring) (s : Slot) → (push r s).1.tail ≡ r.tail
unfolding push
tail-push r s = ground arith

-- A push, whether it is taken or refused, keeps the numbering.
pub push-IsNumbered : {r : Ring} (s : Slot) → IsValid r → IsNumbered r → IsNumbered (push r s).1
unfolding enqueue view
push-IsNumbered {r} s v h =
    rw (tail-push, ap (λ p. p.1.slots) (push_refines s v))
      (elim (Bool-cases (src_is_valid s.src && ltb (length (contents r)) capacity)) [
        | inr refused ↦ rw refused h
        | inl taken ↦ rw taken (
            Consecutive-append r.tail (contents r) (record s { seq = r.head }) h
              (rw length-contents (unfold depth in omega (arith, v))))
      ])

-- A release keeps it too.
pub release-IsNumbered :
    {r : Ring} (n : ℕ) → IsValid r → IsU64 n → IsNumbered r → IsNumbered (release r n).1
unfolding release
release-IsNumbered {r} n v small h = elim (Bool-cases (leb n (sub64 r.head r.tail))) [
  | inr short ↦ rw short h
  | inl enough ↦
      rw (enough, contents-release r n v (ground arith))
        (Consecutive-mod (r.tail + n) (add64 r.tail n) (drop n (contents r)) (omega arith)
          (Consecutive-drop r.tail n (contents r) h))
]
