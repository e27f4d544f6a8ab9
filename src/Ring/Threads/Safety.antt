-- ===== src/Ring/Threads/Safety.antt =====
-- What holds in every state that the two threads can reach from a fresh ring.
use Prim.Native.Nat.{bit_and}
use cs370_term_project.Prelude.{
  get_or-set_ne, ℕ, zero, suc, ◌+◌, ◌-◌, ◌%◌, ◌^◌, ◌≤◌, ◌<◌, ◌≡◌, ◌≢◌, some, List, [], ◌∷◌, ◌++◌,
  arith, refl, sym, ap, ap₂, ◌∙◌, subst, length, get_elem?, get_or, set, take, drop, length-set,
  get_or-set_self, get_or-set_ne, append_assoc, take-append-drop,
}
use cs370_term_project.Prelude.Words.{IsU64, sub64, add64}
use cs370_term_project.Ring.{Slot, Ring, capacity, mask, zero_slot, init, depth}
use cs370_term_project.Ring.Bounds.{IsValid, bit_and-mask, init-IsValid}
use cs370_term_project.Ring.Refine.{at, window, contents, get_elem?-window, contents-release}
use cs370_term_project.Ring.Threads.{
  Producer, idle, has_head, has_tail, copied, numbered, Consumer, resting, peek_tail, peek_head,
  release_tail, release_head, State, Step, push_reject, push_load_head, push_load_tail, push_full,
  push_copy, push_number, push_publish, peek_load_tail, peek_load_head, peek_empty, peek_copy,
  release_load_tail, release_load_head, release_short, release_store, Reach, here, next, start,
}

-- What the locals of each thread say of the ring. A loaded index of the other side may be stale,
-- and is then on the safe side.
abbrev ProducerInv : List Slot → ℕ → ℕ → Producer → Type 0
ProducerInv slots head tail idle = Unit
ProducerInv slots head tail (has_head s h) = h ≡ head
ProducerInv slots head tail (has_tail s h t) = (h ≡ head) × (sub64 head tail ≤ sub64 h t)
ProducerInv slots head tail (copied s h) =
    (h ≡ head) × (sub64 head tail < capacity) × (at slots head ≡ s)
ProducerInv slots head tail (numbered s h) =
    (h ≡ head) × (sub64 head tail < capacity) × (at slots head ≡ record s { seq = h })

abbrev ConsumerInv : ℕ → ℕ → Consumer → Type 0
ConsumerInv head tail resting = Unit
ConsumerInv head tail (peek_tail i t) = (t ≡ tail) × IsU64 i
ConsumerInv head tail (peek_head i t h) = (t ≡ tail) × IsU64 i × (sub64 h t ≤ sub64 head tail)
ConsumerInv head tail (release_tail n t) = (t ≡ tail) × IsU64 n
ConsumerInv head tail (release_head n t h) = (t ≡ tail) × IsU64 n × (sub64 h t ≤ sub64 head tail)

record Inv (st : State) : Type 0 where
  valid : IsValid st.ring
  produces : ProducerInv st.ring.slot st.ring.head st.ring.tail st.producer
  consumes : ConsumerInv st.ring.head st.ring.tail st.consumer
  history : st.pushed ≡ st.taken ++ contents st.ring

-- A push of the other thread leaves what the consumer knows true.
ConsumerInv-push :
    (head tail : ℕ) (c : Consumer)
    → head < 2 ^ 64
    → tail < 2 ^ 64
    → sub64 head tail < capacity
    → ConsumerInv head tail c
    → ConsumerInv (add64 head 1) tail c
ConsumerInv-push head tail resting hh ht lt i = tt
ConsumerInv-push head tail (peek_tail j t) hh ht lt i = i
ConsumerInv-push head tail (peek_head j t h) hh ht lt i = omega arith
ConsumerInv-push head tail (release_tail n t) hh ht lt i = i
ConsumerInv-push head tail (release_head n t h) hh ht lt i = omega arith

-- So does a release for the producer.
ProducerInv-release :
    (slots : List Slot) (head tail n : ℕ) (p : Producer)
    → head < 2 ^ 64
    → tail < 2 ^ 64
    → sub64 head tail ≤ capacity
    → n ≤ sub64 head tail
    → ProducerInv slots head tail p
    → ProducerInv slots head (add64 tail n) p
ProducerInv-release slots head tail n idle hh ht f le i = tt
ProducerInv-release slots head tail n (has_head s h) hh ht f le i = i
ProducerInv-release slots head tail n (has_tail s h t) hh ht f le i = (i.0, omega arith)
ProducerInv-release slots head tail n (copied s h) hh ht f le i = (i.0, omega arith, i.2)
ProducerInv-release slots head tail n (numbered s h) hh ht f le i = (i.0, omega arith, i.2)

-- A write to the next free place leaves the unread slots alone.
window-set_ne :
    (slots : List Slot) (t n m h : ℕ) (x : Slot)
    → n ≤ m
    → m < capacity
    → (t + m) % capacity ≡ h % capacity
    → window (set slots (h % capacity) x) t n ≡ window slots t n
window-set_ne slots t zero m h x le lt e = refl
window-set_ne slots t (suc n) m h x le lt e =
    ap₂ ◌∷◌ (get_or-set_ne slots (h % capacity) (t % capacity) x zero_slot (omega arith))
      (window-set_ne slots (t + 1) n (m - 1) h x (omega arith) (omega arith) (omega arith))

contents-set :
    (r : Ring) (x : Slot)
    → IsValid r
    → sub64 r.head r.tail < capacity
    → contents (record r { slot = set r.slot (bit_and r.head mask) x }) ≡ contents r
unfolding contents depth
contents-set r x v lt =
    ap (λ k. window (set r.slot k x) r.tail (sub64 r.head r.tail)) (bit_and-mask r.head)
    ∙ window-set_ne r.slot r.tail (sub64 r.head r.tail) (sub64 r.head r.tail) r.head x (omega arith)
        lt (omega (arith, v.fits))

-- The slot that was written is there to be read.
at-set : (r : Ring) (x : Slot) → IsValid r → at (set r.slot (bit_and r.head mask) x) r.head ≡ x
at-set r x v =
    rw bit_and-mask
      (get_or-set_self r.slot (r.head % capacity) x zero_slot (omega (arith, v.slots)))

window_snoc :
    (slots : List Slot) (t n : ℕ)
    → window slots t (suc n) ≡ window slots t n ++ at slots (t + n) ∷ []
window_snoc slots t zero = ap (λ k. at slots k ∷ []) (omega arith)
window_snoc slots t (suc n) = ap (◌∷◌ (at slots t)) (
    window_snoc slots (t + 1) n ∙ ap (λ k. window slots (t + 1) n ++ at slots k ∷ []) (omega arith))

contents-publish :
    (r : Ring)
    → IsValid r
    → sub64 r.head r.tail < capacity
    → contents (record r { head = add64 r.head 1 }) ≡ contents r ++ at r.slot r.head ∷ []
unfolding contents depth
contents-publish r v lt =
    ap (window r.slot r.tail) {y = suc (sub64 r.head r.tail)} (omega arith)
    ∙ window_snoc r.slot r.tail (sub64 r.head r.tail)
    ∙ ap (λ k. contents r ++ get_or r.slot k zero_slot ∷ []) (omega arith)

module _ {st : State} (i : Inv st) where
  open st use {ring, producer, consumer}

  -- what the invariant says of a thread whose place is known
  knows_producer : {p : Producer} → producer ≡ p → ProducerInv ring.slot ring.head ring.tail p
  knows_producer e = subst (ProducerInv ring.slot ring.head ring.tail) e i.produces

  knows_consumer : {c : Consumer} → consumer ≡ c → ConsumerInv ring.head ring.tail c
  knows_consumer e = subst (ConsumerInv ring.head ring.tail) e i.consumes

  -- Any write to the next free place keeps what does not depend on the producer.
  write-Inv :
      (x : Slot) (p : Producer) (h : ℕ)
      → h ≡ ring.head
      → sub64 ring.head ring.tail < capacity
      → (at (set ring.slot (bit_and h mask) x) ring.head ≡ x
          → ProducerInv (set ring.slot (bit_and h mask) x) ring.head ring.tail p)
      → Inv (record st {
        ring = record ring { slot = set ring.slot (bit_and h mask) x };
        producer = p;
      })
  write-Inv x p h e lt know = record {
    valid = record {
      slots = length-set ring.slot (bit_and h mask) x ∙ i.valid.slots;
      head_in = i.valid.head_in;
      tail_in = i.valid.tail_in;
      fits = i.valid.fits;
    };
    produces =
        know (ap (λ k. at (set ring.slot (bit_and k mask) x) ring.head) e ∙ at-set ring x i.valid);
    consumes = i.consumes;
    history =
        i.history
        ∙ ap (◌++◌ st.taken) (
            sym (
              ap (λ k. contents (record ring { slot = set ring.slot (bit_and k mask) x })) e
              ∙ contents-set ring x i.valid lt));
  }

  publish-Inv :
      (s : Slot) (h : ℕ)
      → producer ≡ numbered s h
      → Inv (record st {
        ring = record ring { head = add64 h 1 };
        producer = idle;
        pushed = st.pushed ++ record s { seq = h } ∷ [];
      })
  publish-Inv s h e =
      let (eh, lt, there) = knows_producer e in
      record {
        valid = record {
          slots = i.valid.slots;
          head_in = omega arith;
          tail_in = i.valid.tail_in;
          fits = omega (arith, i.valid.fits, i.valid.head_in, i.valid.tail_in);
        };
        produces = tt;
        consumes =
            subst (λ k. ConsumerInv (add64 k 1) ring.tail consumer) (sym eh)
              (ConsumerInv-push ring.head ring.tail consumer i.valid.head_in i.valid.tail_in lt
                i.consumes);
        history =
            ap (λ l. l ++ record s { seq = h } ∷ []) i.history
            ∙ append_assoc st.taken (contents ring) (record s { seq = h } ∷ [])
            ∙ ap (◌++◌ st.taken) (
                sym (
                  ap (λ k. contents (record ring { head = add64 k 1 })) eh
                  ∙ contents-publish ring i.valid lt
                  ∙ ap (λ x. contents ring ++ x ∷ []) there));
      }

  store-Inv :
      (n t h : ℕ)
      → consumer ≡ release_head n t h
      → n ≤ sub64 h t
      → Inv (record st {
        ring = record ring { tail = add64 t n };
        consumer = resting;
        taken = st.taken ++ take n (contents ring);
      })
  store-Inv n t h e le =
      let (et, small, bound) = knows_consumer e in
      let enough : n ≤ sub64 ring.head ring.tail = omega arith in
      record {
        valid = record {
          slots = i.valid.slots;
          head_in = i.valid.head_in;
          tail_in = omega arith;
          fits = omega (arith, i.valid.fits, i.valid.head_in, i.valid.tail_in);
        };
        produces =
            subst (λ k. ProducerInv ring.slot ring.head (add64 k n) producer) (sym et)
              (ProducerInv-release ring.slot ring.head ring.tail n producer i.valid.head_in
                i.valid.tail_in i.valid.fits enough i.produces);
        consumes = tt;
        history =
            i.history
            ∙ ap (◌++◌ st.taken) (sym (take-append-drop n (contents ring)))
            ∙ sym (append_assoc st.taken (take n (contents ring)) (drop n (contents ring)))
            ∙ ap (◌++◌ (st.taken ++ take n (contents ring))) (
                sym (
                  ap (λ k. contents (record ring { tail = add64 k n })) et
                  ∙ contents-release ring n i.valid enough));
      }

  -- A step that changes no index and no slot keeps the histories and the bounds.
  local-Inv :
      (over rej : ℕ) (p : Producer) (c : Consumer) (out : Slot)
      → ProducerInv ring.slot ring.head ring.tail p
      → ConsumerInv ring.head ring.tail c
      → Inv (record st {
        ring = record ring { overruns = over; rejected = rej };
        producer = p;
        consumer = c;
        out = out;
      })
  unfolding contents depth
  local-Inv over rej p c out ip ic = record {
    valid = record {
      slots = i.valid.slots;
      head_in = i.valid.head_in;
      tail_in = i.valid.tail_in;
      fits = i.valid.fits;
    };
    produces = ip;
    consumes = ic;
    history = i.history;
  }

  -- The local steps: `keep` is for the thread that stands still.
  producer-Inv :
      (p : Producer)
      → ProducerInv ring.slot ring.head ring.tail p
      → Inv (record st { producer = p })
  producer-Inv p ip = local-Inv ring.overruns ring.rejected p consumer st.out ip i.consumes

  consumer-Inv :
      (c : Consumer) (out : Slot)
      → ConsumerInv ring.head ring.tail c
      → Inv (record st { consumer = c; out = out })
  consumer-Inv c out ic = local-Inv ring.overruns ring.rejected producer c out i.produces ic

Step-Inv : {st st' : State} → Step st st' → Inv st → Inv st'
Step-Inv {st} (push_reject s e b) i =
    local-Inv i st.ring.overruns (add64 st.ring.rejected 1) st.producer st.consumer st.out
      i.produces i.consumes
Step-Inv (push_load_head s e b) i = producer-Inv i (has_head s _) refl
Step-Inv (push_load_tail s h e) i =
    producer-Inv i (has_tail s h _) (knows_producer i e, omega (arith, knows_producer i e))
Step-Inv {st} (push_full s h t e le) i =
    local-Inv i (add64 st.ring.overruns 1) st.ring.rejected idle st.consumer st.out tt i.consumes
Step-Inv (push_copy s h t e lt) i =
    let (eh, bound) = knows_producer i e in
    let free : _ < capacity = omega arith in
    write-Inv i s (copied s h) h eh free (λ there. (eh, free, there))
Step-Inv {st} (push_number s h e) i =
    let (eh, lt, there) = knows_producer i e in
    let slots = st.ring.slot in
    let place : bit_and h mask ≡ st.ring.head % capacity =
      bit_and-mask h ∙ ap (λ k. k % capacity) eh in
    let was : get_or slots (bit_and h mask) zero_slot ≡ s =
      ap (λ k. get_or slots k zero_slot) place ∙ there in
    write-Inv i (record (get_or slots (bit_and h mask) zero_slot) { seq = h }) (numbered s h) h eh
      lt (λ now. (eh, lt, now ∙ ap (λ (x : Slot). record x { seq = h }) was))
Step-Inv (push_publish s h e) i = publish-Inv i s h e
Step-Inv {st} (peek_load_tail j e b) i = consumer-Inv i (peek_tail j _) st.out (refl, b)
Step-Inv {st} (peek_load_head j t e) i =
    let (et, small) = knows_consumer i e in
    consumer-Inv i (peek_head j t _) st.out (et, small, omega arith)
Step-Inv {st} (peek_empty j t h e le) i = consumer-Inv i resting st.out tt
Step-Inv (peek_copy j t h e lt) i = consumer-Inv i resting _ tt
Step-Inv {st} (release_load_tail n e b) i = consumer-Inv i (release_tail n _) st.out (refl, b)
Step-Inv {st} (release_load_head n t e) i =
    let (et, small) = knows_consumer i e in
    consumer-Inv i (release_head n t _) st.out (et, small, omega arith)
Step-Inv {st} (release_short n t h e lt) i = consumer-Inv i resting st.out tt
Step-Inv (release_store n t h e le) i = store-Inv i n t h e le

start-Inv : (r : Ring) → Inv (start (init r))
unfolding contents depth init
start-Inv r = record { valid = (init-IsValid r).0; produces = tt; consumes = tt; history = refl }

Reach-Inv : {st st' : State} → Inv st → Reach st st' → Inv st'
Reach-Inv i here = i
Reach-Inv i (next r step) = Step-Inv step (Reach-Inv i r)

-- Whatever the interleaving, the slots that pushes have published, in order, are those that
-- releases have freed followed by those that are unread in the ring: none is lost, doubled,
-- reordered or changed.
pub no_loss :
    (r : Ring) {st : State} → Reach (start (init r)) st → st.pushed ≡ st.taken ++ contents st.ring
no_loss r reach = (Reach-Inv (start-Inv r) reach).history

get_elem?-append {ℓ} :
    {A : Type ℓ} (xs ys : List A) (i : ℕ) → get_elem? (xs ++ ys) (length xs + i) ≡ get_elem? ys i
get_elem?-append [] ys i = ap (get_elem? ys) (omega arith)
get_elem?-append (x ∷ xs) ys i =
    ap (get_elem? (x ∷ (xs ++ ys))) {y = suc (length xs + i)} (omega arith)
    ∙ get_elem?-append xs ys i

-- A peek at index `i` that finds it unread copies the i-th of the published slots that no release
-- has freed, whole and numbered, while the producer may be anywhere in a push.
pub peek_sees_published :
    (r : Ring) {st : State} (i t h : ℕ)
    → Reach (start (init r)) st
    → st.consumer ≡ peek_head i t h
    → i < sub64 h t
    → get_elem? st.pushed (length st.taken + i)
      ≡ some (get_or st.ring.slot (bit_and (add64 t i) mask) zero_slot)
unfolding contents depth
peek_sees_published r {st} i t h reach e lt =
    let inv = Reach-Inv (start-Inv r) reach in
    let (et, small, bound) = knows_consumer inv e in
    let ring = st.ring in
    ap (λ l. get_elem? l (length st.taken + i)) inv.history
    ∙ get_elem?-append st.taken (contents ring) i
    ∙ get_elem?-window ring.slot ring.tail (sub64 ring.head ring.tail) i (omega arith)
    ∙ ap (λ k. some (get_or ring.slot k zero_slot)) (omega (arith, bit_and-mask (add64 t i)))

-- The places that the producer's next step writes to: for the copy, and for the number.
pub data Writes (st : State) : ℕ → Type 0 where
  copies :
      (s : Slot) (h t : ℕ)
      → st.producer ≡ has_tail s h t
      → sub64 h t < capacity
      → Writes st (bit_and h mask)
  numbers : (s : Slot) (h : ℕ) → st.producer ≡ copied s h → Writes st (bit_and h mask)

-- A step changes no slot but those that the producer writes to.
Step-get_or :
    {st st' : State} (k : ℕ)
    → ((j : ℕ) → Writes st j → j ≢ k)
    → Step st st'
    → get_or st'.ring.slot k zero_slot ≡ get_or st.ring.slot k zero_slot
Step-get_or k n (push_reject s e v) = refl
Step-get_or k n (push_load_head s e v) = refl
Step-get_or k n (push_load_tail s h e) = refl
Step-get_or k n (push_full s h t e l) = refl
Step-get_or {st} k n (push_copy s h t e l) =
    get_or-set_ne st.ring.slot (bit_and h mask) k s zero_slot (n _ (copies s h t e l))
Step-get_or {st} k n (push_number s h e) =
    get_or-set_ne st.ring.slot (bit_and h mask) k
      (record (get_or st.ring.slot (bit_and h mask) zero_slot) { seq = h }) zero_slot
      (n _ (numbers s h e))
Step-get_or k n (push_publish s h e) = refl
Step-get_or k n (peek_load_tail i e l) = refl
Step-get_or k n (peek_load_head i t e) = refl
Step-get_or k n (peek_empty i t h e l) = refl
Step-get_or k n (peek_copy i t h e l) = refl
Step-get_or k n (release_load_tail m e l) = refl
Step-get_or k n (release_load_head m t e) = refl
Step-get_or k n (release_short m t h e l) = refl
Step-get_or k n (release_store m t h e l) = refl

-- The next free place is not one that is unread.
place_ne :
    {st : State} (h i : ℕ)
    → Inv st
    → h ≡ st.ring.head
    → sub64 st.ring.head st.ring.tail < capacity
    → i < sub64 st.ring.head st.ring.tail
    → bit_and h mask ≢ bit_and (add64 st.ring.tail i) mask
place_ne {st} h i inv e free unread same = omega (
  arith,
  same,
  bit_and-mask h,
  bit_and-mask (add64 st.ring.tail i),
  inv.valid.head_in,
  inv.valid.tail_in,
  inv.valid.fits,
)

Writes-ne :
    {st : State} (i j : ℕ)
    → Inv st
    → i < sub64 st.ring.head st.ring.tail
    → Writes st j
    → j ≢ bit_and (add64 st.ring.tail i) mask
Writes-ne i j inv unread (copies s h t p free) =
    let (e, stale) = knows_producer inv p in place_ne h i inv e (omega arith) unread
Writes-ne i j inv unread (numbers s h p) =
    let (e, free, there) = knows_producer inv p in place_ne h i inv e free unread

-- While the consumer is about to copy an unread slot and the producer to write to one, be it the copy
-- of a new slot or its number, these are different places, and the next step, of either thread, leaves
-- the slot that is to be copied as it is.
pub no_race :
    (r : Ring) {st st' : State} (i t h j : ℕ)
    → Reach (start (init r)) st
    → st.consumer ≡ peek_head i t h
    → i < sub64 h t
    → Writes st j
    → Step st st'
    → (j ≢ bit_and (add64 t i) mask)
      × (get_or st'.ring.slot (bit_and (add64 t i) mask) zero_slot
          ≡ get_or st.ring.slot (bit_and (add64 t i) mask) zero_slot)
no_race r {st} i t h j reach c unread w step =
    let inv = Reach-Inv (start-Inv r) reach in
    let (et, small, bound) = knows_consumer inv c in
    let ne : (k : ℕ) → Writes st k → k ≢ bit_and (add64 t i) mask = λ k x.
      subst (λ u. k ≢ bit_and (add64 u i) mask) (sym et) (Writes-ne i k inv (omega arith) x) in
    (ne j w, Step-get_or (bit_and (add64 t i) mask) ne step)
