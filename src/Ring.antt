-- ===== src/Ring.antt =====
-- src/ipc/ring.c and include/ipc/ring.h: the ring between capture and storage.
-- A function that changes `*r` returns the new ring beside its result; an atomic is its value.
pub mod Queue
pub mod Bounds
pub mod Refine
pub mod Numbering
pub mod Threads
mod Tests
use Prim.Native.Nat.{bit_and}
use cs370_term_project.Prelude.{
  ℕ, ◌+◌, ◌-◌, ◌%◌, ◌^◌, Bool, true, false, not, ◌&&◌, Option, none, some, List, [], ◌∷◌, leb, ◌==◌,
  if◌then◌else◌, get_or, set, replicate,
}
use cs370_term_project.Prelude.Words.{add64, sub64}
use cs370_term_project.Label.{src_is_valid}

-- ring_slot_t. The float is only copied here, so it is its bit pattern.
pub record Slot : Type 0 where
  pub seq : ℕ
  pub mono_ns : ℕ
  pub mode : ℕ
  pub pid : ℕ
  pub len : ℕ
  pub src : ℕ
  pub value : ℕ
  pub payload : List ℕ

-- RING_CAPACITY, MASK, RING_PAYLOAD, RING_MAGIC, RING_VERSION and sizeof(ring_slot_t)
abbrev pub capacity : ℕ
capacity = 4096

abbrev pub mask : ℕ
mask = capacity - 1

abbrev pub payload_bytes : ℕ
payload_bytes = 16

abbrev pub ring_magic : ℕ
ring_magic = 0x474e_5243

abbrev pub ring_version : ℕ
ring_version = 3

abbrev pub slot_bytes : ℕ
slot_bytes = 40

-- ring_t
pub record Ring : Type 0 where
  pub magic : ℕ
  pub version : ℕ
  pub slot_size : ℕ
  pub cap : ℕ
  pub generation : ℕ
  pub head : ℕ
  pub tail : ℕ
  pub overruns : ℕ
  pub rejected : ℕ
  pub slot : List Slot

abbrev pub zero_slot : Slot
zero_slot = record {
  seq = 0;
  mono_ns = 0;
  mode = 0;
  pid = 0;
  len = 0;
  src = 0;
  value = 0;
  payload = replicate payload_bytes 0;
}

-- The generation is left as it was: `ring_create` sets it.
pub init : Ring → Ring
init r = record {
  magic = ring_magic;
  version = ring_version;
  slot_size = slot_bytes;
  cap = capacity;
  generation = r.generation;
  head = 0;
  tail = 0;
  overruns = 0;
  rejected = 0;
  slot = replicate capacity zero_slot;
}

pub layout_ok : Ring → Bool
layout_ok r =
    r.magic == ring_magic
    && r.version == ring_version
    && r.slot_size == slot_bytes
    && r.cap == capacity

-- `r->slot[head & MASK] = *in; r->slot[head & MASK].seq = head`
abbrev pub write_slot : List Slot → ℕ → Slot → List Slot
write_slot slots head s = set slots (bit_and head mask) (record s { seq = head })

pub push : Ring → Slot → Bool × Ring
push r s =
    if not (src_is_valid s.src)
    then (false, record r { rejected = add64 r.rejected 1 })
    else if leb capacity (sub64 r.head r.tail)
    then (false, record r { overruns = add64 r.overruns 1 })
    else (true, record r { slot = write_slot r.slot r.head s; head = add64 r.head 1 })

-- What goes through `out`, or `none` where the function returns false.
pub peek : Ring → ℕ → Option Slot
peek r i =
    if leb (sub64 r.head r.tail) i
    then none
    else some (get_or r.slot (bit_and (add64 r.tail i) mask) zero_slot)

pub release : Ring → ℕ → Bool × Ring
release r n =
    if not (leb n (sub64 r.head r.tail))
    then (false, r)
    else (true, record r { tail = add64 r.tail n })

-- `ring_peek(r, 0, out) && ring_release(r, 1)`
pub pop : Ring → Option Slot × Ring
pop r = elim (peek r 0) [
  | none ↦ (none, r)
  | some s ↦ let (released, r') = release r 1 in if released then (some s, r') else (none, r')
]

pub depth : Ring → ℕ
depth r = sub64 r.head r.tail

pub overruns : Ring → ℕ
overruns r = r.overruns

pub rejected : Ring → ℕ
rejected r = r.rejected
