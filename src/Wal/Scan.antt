-- ===== src/Wal/Scan.antt =====
-- `wal_scan`: what recovery reads from the bytes of one segment.
pub mod Steps
pub mod Log
pub mod Recovery
pub mod Idempotent
mod Tests
use cs370_term_project.Prelude.{
  ℕ, zero, suc, ◌+◌, ◌%◌, ◌^◌, Bool, true, false, not, ◌&&◌, Option, none, some, List, [], ◌∷◌, ltb,
  ◌==◌, if◌then◌else◌, length, take, drop,
}
use cs370_term_project.Prelude.Bytes.{Bytes, field}
use cs370_term_project.Prelude.Words.{add32}
use cs370_term_project.Text.{scan_literal, scan_number}
use cs370_term_project.Record.{
  Hdr, rec_sample, rec_begin, rec_commit, rec_shutdown, rec_event, Decoded, decoded, refused,
  rec_decode,
}

abbrev pub namespaces : ℕ
namespaces = 2

abbrev pub ev_ring_gen : ℕ
ev_ring_gen = 0x0501

abbrev pub ev_ring_seq : ℕ
ev_ring_seq = 0x0502

-- REC_MODE_BOX
abbrev pub mode_box : ℕ
mode_box = 0

-- An array with one entry for each namespace: 0 the car, 1 the box.
pub record PerNs {ℓ} (A : Type ℓ) : Type ℓ where
  pub car : A
  pub box : A

module _ {ℓ} {A : Type ℓ} where
  abbrev pub at_ns : PerNs A → ℕ → A
  at_ns p ns = if ns == 0 then p.car else p.box

  abbrev pub set_ns : PerNs A → ℕ → A → PerNs A
  set_ns p ns v = if ns == 0 then record p { car = v } else record p { box = v }

  abbrev pub both : A → PerNs A
  both v = record { car = v; box = v }

-- wal_scan_t
pub record Scan : Type 0 where
  pub committed_len : ℕ
  pub any_committed : Bool
  pub ended_clean : Bool
  pub last_seq : ℕ
  pub last_txn : ℕ
  pub last_boot_id : ℕ
  pub samples_committed : ℕ
  pub records_lost : ℕ
  pub last_mono : PerNs ℕ
  pub ring_gen : PerNs ℕ
  pub has_ring_seq : PerNs Bool
  pub ring_seq : PerNs ℕ

-- What the loop carries: the result so far and the locals.
pub record Walk : Type 0 where
  pub out : Scan
  pub in_batch : Bool
  pub txn : ℕ
  pub samples : ℕ
  pub mono : PerNs ℕ
  pub gen : PerNs ℕ
  pub batch_ring_seq : PerNs ℕ
  pub batch_has_ring_seq : PerNs Bool
  pub last_kind : ℕ
  pub off : ℕ

abbrev pub empty_scan : Scan
empty_scan = record {
  committed_len = 0;
  any_committed = false;
  ended_clean = false;
  last_seq = 0;
  last_txn = 0;
  last_boot_id = 0;
  samples_committed = 0;
  records_lost = 0;
  last_mono = both 0;
  ring_gen = both 0;
  has_ring_seq = both false;
  ring_seq = both 0;
}

abbrev pub start_walk : Walk
start_walk = record {
  out = empty_scan;
  in_batch = false;
  txn = 0;
  samples = 0;
  mono = both 0;
  gen = both 0;
  batch_ring_seq = both 0;
  batch_has_ring_seq = both false;
  last_kind = 0;
  off = 0;
}

-- ns_of, of the sample's mode byte
pub ns_of : Bytes → ℕ
ns_of body = if field 0 1 body == mode_box then 1 else 0

-- sscanf(text, "ns=%u <name>=%" SCNx64, &ns, &g) == 2
pub scan_ns : Bytes → Bytes → Option (ℕ × ℕ)
scan_ns name text = elim (scan_literal (b'n' ∷ b's' ∷ b'=' ∷ []) text) [
  | none ↦ none
  | some digits ↦ elim (scan_number 10 (length digits) digits) [
    | none ↦ none
    | some (ns, gap) ↦ elim (scan_literal (b' ' ∷ name) gap) [
      | none ↦ none
      | some hex ↦ elim (scan_number 16 (length hex) hex) [
        | none ↦ none
        | some (g, rest) ↦ some (ns % 2 ^ 32, g)
      ]
    ]
  ]
]

abbrev pub gen_name : Bytes
gen_name = b'g' ∷ b'e' ∷ b'n' ∷ b'=' ∷ []

abbrev pub seq_name : Bytes
seq_name = b's' ∷ b'e' ∷ b'q' ∷ b'=' ∷ []

-- The text of an event: `e.len` bytes behind its code and length.
abbrev pub event_text : Hdr → Bytes → Bytes
event_text h body = take (field 2 2 body) (drop 4 (take h.body_len body))

pub note_gen : Walk → Option (ℕ × ℕ) → Walk
note_gen w none = w
note_gen w (some (ns, g)) = if ltb ns namespaces then record w { gen = set_ns w.gen ns g } else w

pub note_seq : Walk → Option (ℕ × ℕ) → Walk
note_seq w none = w
note_seq w (some (ns, g)) =
    if ltb ns namespaces
    then record w {
      batch_ring_seq = set_ns w.batch_ring_seq ns g;
      batch_has_ring_seq = set_ns w.batch_has_ring_seq ns true;
    }
    else w

-- The branch of an event: its code is one of the two or neither.
pub visit_event : Walk → Hdr → Bytes → Walk
unfolding note_gen note_seq
visit_event w h body =
    let text = event_text h body in
    if field 0 2 body == ev_ring_gen
    then note_gen w (scan_ns gen_name text)
    else if field 0 2 body == ev_ring_seq
    then note_seq w (scan_ns seq_name text)
    else w

pub visit_begin : Walk → Bytes → Walk
visit_begin w body = record w {
  in_batch = true;
  txn = field 0 8 body;
  samples = 0;
  mono = w.out.last_mono;
  gen = w.out.ring_gen;
  batch_ring_seq = w.out.ring_seq;
  batch_has_ring_seq = w.out.has_ring_seq;
}

pub visit_commit : Walk → Hdr → ℕ → Walk
visit_commit w h size = record w {
  in_batch = false;
  samples = 0;
  out = record w.out {
    committed_len = w.off + size;
    any_committed = true;
    ended_clean = w.last_kind == rec_shutdown;
    last_seq = h.seq;
    last_txn = w.txn;
    last_boot_id = h.boot_id;
    samples_committed = add32 w.out.samples_committed w.samples;
    last_mono = w.mono;
    ring_gen = w.gen;
    ring_seq = w.batch_ring_seq;
    has_ring_seq = w.batch_has_ring_seq;
  };
}

pub visit_sample : Walk → Hdr → Bytes → Walk
unfolding ns_of
visit_sample w h body = record w {
  samples = add32 w.samples 1;
  mono = set_ns w.mono (ns_of body) h.mono_ns;
}

-- The body of the loop on a decoded record, up to `last_kind = h.kind`; `none` is a `break`.
pub visit : Walk → Hdr → Bytes → ℕ → Option Walk
visit w h body size =
    if h.kind == rec_begin
    then if w.in_batch then none else some (visit_begin w body)
    else if not w.in_batch
    then none
    else if h.kind == rec_commit
    then if not (field 0 8 body == w.txn) then none else some (visit_commit w h size)
    else if h.kind == rec_sample
    then some (visit_sample w h body)
    else if h.kind == rec_event
    then some (visit_event w h body)
    else some w

abbrev pub advance : Walk → Hdr → ℕ → Walk
advance w h size = record w { last_kind = h.kind; off = w.off + size }

-- The rest of a round, behind the visit and behind the decoding; `next` is the rest of the loop.
pub on_visit : (Bytes → Walk → Walk) → Bytes → Hdr → ℕ → Walk → Option Walk → Walk
on_visit next rest h size w none = w
on_visit next rest h size w (some w') = next rest (advance w' h size)

pub on_decode : (Bytes → Walk → Walk) → Bytes → Walk → Decoded → Walk
unfolding on_visit
on_decode next buf w (refused st) = w
on_decode next buf w (decoded h body size) =
    on_visit next (drop size buf) h size w (visit w h body size)

-- The loop over what is left of the buffer. `fuel` bounds the rounds.
pub scan_loop : ℕ → Bytes → Walk → Walk
unfolding on_decode
scan_loop zero buf w = w
scan_loop (suc fuel) [] w = w
scan_loop (suc fuel) (b ∷ bs) w = on_decode (scan_loop fuel) (b ∷ bs) w (rec_decode (b ∷ bs))

abbrev pub lost : Walk → Scan
lost w = if w.in_batch then record w.out { records_lost = w.samples } else w.out

-- Every round takes a record of at least 48 bytes, so `length buf` rounds are enough.
pub wal_scan : Bytes → Scan
unfolding scan_loop
wal_scan buf = lost (scan_loop (length buf) buf start_walk)
