-- ===== src/Ring/Threads.antt =====
-- One producer in `ring_push` and one consumer in `ring_peek` and `ring_release`, interleaved at
-- each access to shared memory. The accesses of one thread keep their order, and each is seen by
-- the other at once: the acquire and release orderings of the source make the plain slot accesses
-- visible in that order, and the model takes that as given.
pub mod Safety
use Prim.Native.Nat.{bit_and}
use cs370_term_project.Prelude.{
  ℕ, ◌+◌, ◌%◌, ◌^◌, ◌≤◌, ◌<◌, ◌≡◌, true, false, List, [], ◌∷◌, ◌++◌, get_or, set, take,
}
use cs370_term_project.Prelude.Words.{add64, sub64, IsU64}
use cs370_term_project.Label.{src_is_valid}
use cs370_term_project.Ring.{Slot, Ring, capacity, mask, zero_slot}
use cs370_term_project.Ring.Refine.{contents}

-- Where the producer stands, with what its local variables `head` and `tail` hold.
pub data Producer : Type 0 where
  idle : Producer
  has_head : Slot → ℕ → Producer
  has_tail : Slot → ℕ → ℕ → Producer
  copied : Slot → ℕ → Producer
  numbered : Slot → ℕ → Producer

-- Where the consumer stands: in `ring_peek` at index `i`, or in `ring_release` of `n` slots.
pub data Consumer : Type 0 where
  resting : Consumer
  peek_tail : ℕ → ℕ → Consumer
  peek_head : ℕ → ℕ → ℕ → Consumer
  release_tail : ℕ → ℕ → Consumer
  release_head : ℕ → ℕ → ℕ → Consumer

-- `pushed` and `taken` are histories that no code reads: the slots that a push has published, and
-- those that a release has freed, each in order; `out` is what the last peek copied.
pub record State : Type 0 where
  pub ring : Ring
  pub producer : Producer
  pub consumer : Consumer
  pub out : Slot
  pub pushed : List Slot
  pub taken : List Slot

pub data Step (st : State) : State → Type 0 where
  push_reject :
      (s : Slot)
      → st.producer ≡ idle
      → src_is_valid s.src ≡ false
      → Step st (record st { ring = record st.ring { rejected = add64 st.ring.rejected 1 } })
  push_load_head :
      (s : Slot)
      → st.producer ≡ idle
      → src_is_valid s.src ≡ true
      → Step st (record st { producer = has_head s st.ring.head })
  push_load_tail :
      (s : Slot) (h : ℕ)
      → st.producer ≡ has_head s h
      → Step st (record st { producer = has_tail s h st.ring.tail })
  push_full :
      (s : Slot) (h t : ℕ)
      → st.producer ≡ has_tail s h t
      → capacity ≤ sub64 h t
      → Step st (record st {
        ring = record st.ring { overruns = add64 st.ring.overruns 1 };
        producer = idle;
      })
  push_copy :
      (s : Slot) (h t : ℕ)
      → st.producer ≡ has_tail s h t
      → sub64 h t < capacity
      → Step st (record st {
        ring = record st.ring { slot = set st.ring.slot (bit_and h mask) s };
        producer = copied s h;
      })
  push_number :
      (s : Slot) (h : ℕ)
      → st.producer ≡ copied s h
      → Step st (record st {
        ring = record st.ring {
          slot =
              set st.ring.slot
                (bit_and h mask)
                (record (get_or st.ring.slot (bit_and h mask) zero_slot) { seq = h });
        };
        producer = numbered s h;
      })
  push_publish :
      (s : Slot) (h : ℕ)
      → st.producer ≡ numbered s h
      → Step st (record st {
        ring = record st.ring { head = add64 h 1 };
        producer = idle;
        pushed = st.pushed ++ record s { seq = h } ∷ [];
      })
  peek_load_tail :
      (i : ℕ)
      → st.consumer ≡ resting
      → IsU64 i
      → Step st (record st { consumer = peek_tail i st.ring.tail })
  peek_load_head :
      (i t : ℕ)
      → st.consumer ≡ peek_tail i t
      → Step st (record st { consumer = peek_head i t st.ring.head })
  peek_empty :
      (i t h : ℕ)
      → st.consumer ≡ peek_head i t h
      → sub64 h t ≤ i
      → Step st (record st { consumer = resting })
  peek_copy :
      (i t h : ℕ)
      → st.consumer ≡ peek_head i t h
      → i < sub64 h t
      → Step st (record st {
        consumer = resting;
        out = get_or st.ring.slot (bit_and (add64 t i) mask) zero_slot;
      })
  release_load_tail :
      (n : ℕ)
      → st.consumer ≡ resting
      → IsU64 n
      → Step st (record st { consumer = release_tail n st.ring.tail })
  release_load_head :
      (n t : ℕ)
      → st.consumer ≡ release_tail n t
      → Step st (record st { consumer = release_head n t st.ring.head })
  release_short :
      (n t h : ℕ)
      → st.consumer ≡ release_head n t h
      → sub64 h t < n
      → Step st (record st { consumer = resting })
  release_store :
      (n t h : ℕ)
      → st.consumer ≡ release_head n t h
      → n ≤ sub64 h t
      → Step st (record st {
        ring = record st.ring { tail = add64 t n };
        consumer = resting;
        taken = st.taken ++ take n (contents st.ring);
      })

pub data Reach (s : State) : State → Type 0 where
  here : Reach s s
  next : {t u : State} → Reach s t → Step t u → Reach s u

abbrev pub start : Ring → State
start r = record {
  ring = r;
  producer = idle;
  consumer = resting;
  out = zero_slot;
  pushed = [];
  taken = [];
}
