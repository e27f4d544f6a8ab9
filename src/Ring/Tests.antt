-- ===== src/Ring/Tests.antt =====
-- Runs of the ring on small inputs, and its theorems at concrete ones.
use Prim.Native.Nat.{bit_and}
use cs370_term_project.Prelude.{
  ◌≡◌, ◌≢◌, true, false, some, List, [], ◌∷◌, ◌++◌, arith, refl, get_elem?, get_or, set,
}
use cs370_term_project.Ring.{Slot, Ring, zero_slot, mask, init, layout_ok, push, peek, release, pop}
use cs370_term_project.Ring.Queue.{Op, done, seen, run, run_ring}
use cs370_term_project.Ring.Bounds.{IsValid, init-IsValid, push-IsValid, release-IsValid}
use cs370_term_project.Ring.Refine.{contents, view, run_refines}
use cs370_term_project.Ring.Threads.{
  copied, has_tail, peek_head, State, Reach, here, next, push_load_head, push_load_tail, push_copy,
  push_number, push_publish, peek_load_tail, peek_load_head, start,
}
use cs370_term_project.Ring.Threads.Safety.{no_loss, peek_sees_published, no_race, numbers}

abbrev blank : Ring
blank = record {
  magic = 0;
  version = 0;
  slot_size = 0;
  cap = 0;
  generation = 7;
  head = 0;
  tail = 0;
  overruns = 0;
  rejected = 0;
  slot = [];
}

abbrev sample : Slot
sample = record {
  seq = 99;
  mono_ns = 5;
  mode = 1;
  pid = 12;
  len = 2;
  src = 1;
  value = 0;
  payload = 1 ∷ 2 ∷ [];
}

abbrev unlabelled : Slot
unlabelled = record sample { src = 0 }

fresh-IsValid : IsValid (init blank)
fresh-IsValid = (init-IsValid blank).0

abbrev script : List Op
script =
    Op.push unlabelled
    ∷ Op.push sample
    ∷ Op.push sample
    ∷ Op.peek 1
    ∷ Op.release 3
    ∷ Op.pop_one
    ∷ []

-- The second push gets number 1, and a release of more than is there does nothing.
run_ring-script :
    run_ring (init blank) script
    ≡ done false
      ∷ done true
      ∷ done true
      ∷ seen (some (record sample { seq = 1 }))
      ∷ done false
      ∷ seen (some (record sample { seq = 0 }))
      ∷ []
unfolding run_ring init push peek release pop
run_ring-script = refl

run_refines_example : run_ring (init blank) script ≡ run (view (init blank)) script
run_refines_example = run_refines script fresh-IsValid (omega arith)

push-IsValid_example : IsValid (push (init blank) sample).1
push-IsValid_example = push-IsValid sample fresh-IsValid

release-IsValid_example : IsValid (release (init blank) 1).1
release-IsValid_example = release-IsValid 1 fresh-IsValid (omega arith)

init-IsValid_example : IsValid (init blank) × (layout_ok (init blank) ≡ true)
init-IsValid_example = init-IsValid blank

-- One push runs to its end; then the consumer starts a peek while the next push has loaded both
-- indices.
abbrev after_load : State
after_load = record (start (init blank)) { producer = has_tail sample 0 0 }

abbrev stored : List Slot
stored = set (init blank).slot (bit_and 0 mask) sample

abbrev number : List Slot
number = set stored (bit_and 0 mask) (record (get_or stored (bit_and 0 mask) zero_slot) { seq = 0 })

abbrev published : State
published = record (start (init blank)) {
  ring = record (init blank) { slot = number; head = 1 };
  pushed = record sample { seq = 0 } ∷ [];
}

abbrev meeting : State
meeting = record published { producer = has_tail sample 1 0; consumer = peek_head 0 0 1 }

Reach-published : Reach (start (init blank)) published
unfolding init
Reach-published =
    next
      (next
        (next (next (next here (push_load_head sample refl refl)) (push_load_tail sample 0 refl))
          (push_copy sample 0 0 refl (omega arith)))
        (push_number sample 0 refl))
      (push_publish sample 0 refl)

Reach-meeting : Reach (start (init blank)) meeting
unfolding init
Reach-meeting =
    next
      (next
        (next (next Reach-published (push_load_head sample refl refl))
          (push_load_tail sample 1 refl))
        (peek_load_tail 0 refl (omega arith)))
      (peek_load_head 0 0 refl)

no_loss_example : meeting.pushed ≡ meeting.taken ++ contents meeting.ring
no_loss_example = no_loss blank {st = meeting} Reach-meeting

peek_sees_published_example :
    get_elem? meeting.pushed 0 ≡ some (get_or meeting.ring.slot (bit_and 0 mask) zero_slot)
peek_sees_published_example =
    peek_sees_published blank {st = meeting} 0 0 1 Reach-meeting refl (omega arith)

-- The second push has copied its slot, while the consumer is about to copy the first.
abbrev copying : State
copying = record meeting {
  ring = record meeting.ring { slot = set meeting.ring.slot (bit_and 1 mask) sample };
  producer = copied sample 1;
}

abbrev numbered_slots : List Slot
numbered_slots =
    set copying.ring.slot (bit_and 1 mask)
      (record (get_or copying.ring.slot (bit_and 1 mask) zero_slot) { seq = 1 })

no_race_example :
    (bit_and 1 mask ≢ bit_and 0 mask)
    × (get_or numbered_slots (bit_and 0 mask) zero_slot
        ≡ get_or copying.ring.slot (bit_and 0 mask) zero_slot)
no_race_example =
    no_race blank {st = copying} 0 0 1 (bit_and 1 mask)
      (next Reach-meeting (push_copy sample 1 0 refl (omega arith))) refl (omega arith)
      (numbers sample 1 refl) (push_number sample 1 refl)
