-- ===== src/Wal/Batch/Open.antt =====
-- What the buffer holds between two commits: nothing, or the BEGIN of the next transaction and
-- records that follow it.
use cs370_term_project.Prelude.{
  ℕ, zero, suc, ◌+◌, ◌-◌, ◌^◌, ◌≤◌, ◌<◌, ◌≡◌, ◌≢◌, Bool, true, false, Option, none, some, List, [],
  ◌∷◌, ◌++◌, ltb, ◌==◌, if◌then◌else◌, arith, refl, sym, ap, ◌∙◌, subst, length, length-append,
  append-nil, Bool-cases, ◌⊎◌, inl, inr,
}
use cs370_term_project.Prelude.Bytes.{Bytes, le, field, AreBytes, AreBytes-le, length-le, unle-le}
use cs370_term_project.Prelude.Words.{IsU64, add64}
use cs370_term_project.Label.{src_is_valid}
use cs370_term_project.Record.{
  hdr_size, crc_size, max_body, rec_sample, rec_begin, rec_commit, frame, total_size, rec_encode,
}
use cs370_term_project.Record.Header.{IsHdr, body_len_bounds}
use cs370_term_project.Record.RoundTrip.{IsRecord, encode_accepts, length-frame}
use cs370_term_project.Wal.Scan.Log.{
  Entry, IsEntry, given, frames, frames-append, AreInner, IsInner,
}
use cs370_term_project.Wal.Batch.{
  Wal, Item, Clock, buf_bytes, commit_size, header, append, appended, begin_item, begun,
  open_with_begin, count_sample, add_record, add_after_begin, wal_add,
}

-- An item whose numbers fit their fields, and whose body has the bytes that it announces.
pub record IsItem (e : Item) : Type 0 where
  pub kind_in : e.kind < 2 ^ 16
  pub src_in : e.src < 2 ^ 8
  pub mono_in : IsU64 e.mono_ns
  pub wall_in : IsU64 e.wall_ns
  pub len_in : e.body_len < 2 ^ 16
  pub holds : e.body_len ≤ length e.body
  pub bytes : AreBytes e.body

-- The numbers of the log fit their fields, and its own records have a label.
pub record IsLog (w : Wal) : Type 0 where
  pub seq_in : IsU64 w.next_seq
  pub txn_in : IsU64 w.next_txn
  pub boot_in : w.boot_id < 2 ^ 32
  pub flags_in : w.flags < 2 ^ 8
  pub src_in : w.src < 2 ^ 8
  pub labelled : src_is_valid w.src ≡ true

-- The buffer holds `begin` and `records`, and has room for a COMMIT.
pub record IsOpen (w : Wal) (begin : Entry) (records : List Entry) : Type 0 where
  pub log : IsLog w
  pub is_open : w.open_batch ≡ true
  pub holds : w.buf ≡ frames (begin ∷ records)
  pub begin_entry : IsEntry begin
  pub begin_kind : begin.hdr.kind ≡ rec_begin
  pub begin_txn : field 0 8 (given begin) ≡ w.next_txn
  pub first : begin.hdr.seq ≡ w.batch_seq0
  pub inner : AreInner records
  pub room : length w.buf + (hdr_size + commit_size + crc_size) ≤ buf_bytes

pub record IsIdle (w : Wal) : Type 0 where
  pub log : IsLog w
  pub is_closed : w.open_batch ≡ false
  pub empty : w.buf ≡ []

-- An append that succeeds puts one whole record behind the buffer and takes one number.
pub record Appended (w : Wal) (e : Item) (v : Wal) : Type 0 where
  pub entry : IsRecord (header w e) e.body
  pub fits : total_size (header w e) ≤ buf_bytes - length w.buf
  pub result :
      v ≡ record w { buf = w.buf ++ frame (header w e) e.body; next_seq = add64 w.next_seq 1 }

header-IsHdr : {w : Wal} {e : Item} → IsLog w → IsItem e → IsHdr (header w e)
header-IsHdr l i = omega arith

appended_inv :
    (w : Wal) {v : Wal} (r : ℕ × Bytes)
    → appended w r ≡ some v
    → (r.0 ≢ 0) × (v ≡ record w { buf = w.buf ++ r.1; next_seq = add64 w.next_seq 1 })
unfolding appended
appended_inv w (zero, out) d = absurd (cc d)
appended_inv w (suc n, out) d = (omega arith, cc d)

pub append-Appended :
    {w : Wal} {e : Item} {v : Wal} → IsLog w → IsItem e → append w e ≡ some v → Appended w e v
unfolding append
append-Appended {w} {e} {v} l i d =
    let cap = buf_bytes - length w.buf in
    let (accepts, same) =
      appended_inv w (rec_encode (some cap) (some (header w e)) (some e.body)) d in
    let (entry, fits, out) =
      encode_accepts cap (header w e) e.body (header-IsHdr l i) i.holds i.bytes accepts in
    record {
      entry = entry;
      fits = fits;
      result =
          same
          ∙ ap (λ (r : ℕ × Bytes). record w { buf = w.buf ++ r.1; next_seq = add64 w.next_seq 1 })
              out;
    }

-- The entry that an item becomes.
abbrev pub entry_of : Wal → Item → Entry
entry_of w e = record { hdr = header w e; body = e.body }

-- Room for one record more and a COMMIT. No kind of record has a longer body.
abbrev pub HasRoom : Wal → Item → Type 0
HasRoom w e =
    e.body_len ≤ max_body
    → length w.buf + hdr_size + e.body_len + crc_size + hdr_size + commit_size + crc_size
      ≤ buf_bytes

AreInner-append : (es : List Entry) (e : Entry) → AreInner es → IsInner e → AreInner (es ++ e ∷ [])
AreInner-append [] e v i = (i, tt)
AreInner-append (x ∷ es) e v i = (v.0, AreInner-append es e v.1 i)

IsLog-next :
    {w : Wal} {buf : Bytes}
    → IsLog w
    → IsLog (record w { buf = buf; next_seq = add64 w.next_seq 1 })
IsLog-next l = record {
  seq_in = omega arith;
  txn_in = l.txn_in;
  boot_in = l.boot_in;
  flags_in = l.flags_in;
  src_in = l.src_in;
  labelled = l.labelled;
}

-- What an addition leaves alone.
pub record Keeps (w v : Wal) : Type 0 where
  pub txn : v.next_txn ≡ w.next_txn
  pub fd : v.fd ≡ w.fd
  pub seg_bytes : v.seg_bytes ≡ w.seg_bytes

Keeps-trans : {u v w : Wal} → Keeps u v → Keeps v w → Keeps u w
Keeps-trans a b = record {
  txn = b.txn ∙ a.txn;
  fd = b.fd ∙ a.fd;
  seg_bytes = b.seg_bytes ∙ a.seg_bytes;
}

count_sample-Keeps : {w v : Wal} (kind : ℕ) → Keeps w v → Keeps w (count_sample kind v)
count_sample-Keeps kind k = elim (Bool-cases (kind == rec_sample)) [
  | inl sample ↦ rw sample (record { txn = k.txn; fd = k.fd; seg_bytes = k.seg_bytes })
  | inr other ↦ rw other k
]

-- The number of samples is no part of it.
count_sample-IsOpen :
    {v : Wal} {begin : Entry} {records : List Entry} (kind : ℕ)
    → IsOpen v begin records
    → IsOpen (count_sample kind v) begin records
count_sample-IsOpen kind o = elim (Bool-cases (kind == rec_sample)) [
  | inr other ↦ rw other o
  | inl sample ↦ rw sample (record {
    log = record {
      seq_in = o.log.seq_in;
      txn_in = o.log.txn_in;
      boot_in = o.log.boot_in;
      flags_in = o.log.flags_in;
      src_in = o.log.src_in;
      labelled = o.log.labelled;
    };
    is_open = o.is_open;
    holds = o.holds;
    begin_entry = o.begin_entry;
    begin_kind = o.begin_kind;
    begin_txn = o.begin_txn;
    first = o.first;
    inner = o.inner;
    room = o.room;
  })
]

pub length-appended :
    (w : Wal) {e : Item}
    → IsItem e
    → length (w.buf ++ frame (header w e) e.body) ≡ length w.buf + total_size (header w e)
length-appended w {e} i = omega (
  arith,
  length-append w.buf (frame (header w e) e.body),
  length-frame (header w e) e.body i.holds,
)

-- One record more behind those of an open batch.
module _ (w : Wal) (e : Item) {begin : Entry} {records : List Entry} (i : IsItem e)
    (room : HasRoom w e) (nb : (e.kind == rec_begin) ≡ false)
    (nc : (e.kind == rec_commit) ≡ false) where
  longer-IsOpen :
      IsOpen w begin records
      → IsRecord (header w e) e.body
      → IsOpen
          (record w { buf = w.buf ++ frame (header w e) e.body; next_seq = add64 w.next_seq 1 })
          begin
          (records ++ entry_of w e ∷ [])
  longer-IsOpen o r = record {
    log = IsLog-next o.log;
    is_open = o.is_open;
    holds =
        ap (λ l. l ++ frame (header w e) e.body) o.holds
        ∙ ap (λ l. frames (begin ∷ records) ++ l) (sym (append-nil (frame (header w e) e.body)))
        ∙ sym (frames-append (begin ∷ records) (entry_of w e ∷ []));
    begin_entry = o.begin_entry;
    begin_kind = o.begin_kind;
    begin_txn = o.begin_txn;
    first = o.first;
    inner =
        AreInner-append records (entry_of w e) o.inner
          (record { entry = r; not_begin = nb; not_commit = nc });
    room =
        omega (arith, room (body_len_bounds e.kind e.body_len r.kind_fits).1, length-appended w i);
  }

  -- What `wal_add` makes of an open batch: it adds the record, or refuses it and changes nothing.
  pub add_record-IsOpen :
      IsOpen w begin records
      → ((add_record w e).0 ≡ true)
          × IsOpen (add_record w e).1 begin (records ++ entry_of w e ∷ [])
          × Keeps w (add_record w e).1
        ⊎ ((add_record w e) ≡ (false, w))
  unfolding add_record
  add_record-IsOpen o = go (append w e) refl
    where
      go :
          (r : Option Wal)
          → append w e ≡ r
          → let p : Bool × Wal = elim r [
            | none ↦ (false, w)
            | some v ↦ (true, count_sample e.kind v)
          ] in
            (p.0 ≡ true) × IsOpen p.1 begin (records ++ entry_of w e ∷ []) × Keeps w p.1
            ⊎ (p ≡ (false, w))
      go none d = inr refl
      go (some v) d =
          let a = append-Appended o.log i d in
          inl (
            refl,
            count_sample-IsOpen e.kind (rw a.result (longer-IsOpen o a.entry)),
            count_sample-Keeps e.kind (
                subst (Keeps w) (sym a.result)
                  (record { txn = refl; fd = refl; seg_bytes = refl })),
          )

pub record IsClock (now : Clock) : Type 0 where
  pub mono_in : IsU64 now.mono
  pub wall_in : IsU64 now.wall

begin_item-IsItem : {now : Clock} {w : Wal} → IsClock now → IsLog w → IsItem (begin_item now w)
begin_item-IsItem {now} {w} c l = record {
  kind_in = omega arith;
  src_in = l.src_in;
  mono_in = c.mono_in;
  wall_in = c.wall_in;
  len_in = omega arith;
  holds = omega (arith, length-le 8 w.next_txn);
  bytes = AreBytes-le 8 w.next_txn;
}

-- The BEGIN that opens a batch.
abbrev pub begin_of : Clock → Wal → Entry
begin_of now w = entry_of w (begin_item now w)

IsLog-begun :
    (now : Clock) {w : Wal} {buf : Bytes}
    → IsLog w
    → IsLog
        (begun now (record w { batch_seq0 = w.next_seq; buf = buf; next_seq = add64 w.next_seq 1 }))
IsLog-begun now l = record {
  seq_in = omega arith;
  txn_in = l.txn_in;
  boot_in = l.boot_in;
  flags_in = l.flags_in;
  src_in = l.src_in;
  labelled = l.labelled;
}

IsLog-seq0 : {w : Wal} → IsLog w → IsLog (record w { batch_seq0 = w.next_seq })
IsLog-seq0 l = record {
  seq_in = l.seq_in;
  txn_in = l.txn_in;
  boot_in = l.boot_in;
  flags_in = l.flags_in;
  src_in = l.src_in;
  labelled = l.labelled;
}

begun-IsOpen :
    {now : Clock} {w : Wal}
    → IsClock now
    → IsIdle w
    → IsRecord (header w (begin_item now w)) (le 8 w.next_txn)
    → IsOpen
        (begun now (record w {
          batch_seq0 = w.next_seq;
          buf = w.buf ++ frame (header w (begin_item now w)) (le 8 w.next_txn);
          next_seq = add64 w.next_seq 1;
        }))
        (begin_of now w)
        []
begun-IsOpen {now} {w} c idle r = record {
  log = IsLog-begun now idle.log;
  is_open = refl;
  holds =
      ap (λ l. l ++ frame (header w (begin_item now w)) (le 8 w.next_txn)) idle.empty
      ∙ sym (append-nil (frame (header w (begin_item now w)) (le 8 w.next_txn)));
  begin_entry = r;
  begin_kind = refl;
  begin_txn = unle-le 8 w.next_txn idle.log.txn_in;
  first = refl;
  inner = tt;
  room = omega (
    arith,
    length-appended w {e = begin_item now w} (begin_item-IsItem c idle.log),
    ap length idle.empty,
  );
}

-- Opening a batch leaves the buffer as it was, or puts the BEGIN of the next transaction there.
pub open_with_begin_lem :
    {now : Clock} {w : Wal}
    → IsClock now
    → IsIdle w
    → ((open_with_begin now w).0 ≡ true)
        × IsOpen (open_with_begin now w).1 (begin_of now w) []
        × Keeps w (open_with_begin now w).1
      ⊎ ((open_with_begin now w) ≡ (false, record w { batch_seq0 = w.next_seq }))
unfolding open_with_begin
open_with_begin_lem {now} {w} c idle = go (append w' (begin_item now w)) refl
  where
    w' : Wal
    w' = record w { batch_seq0 = w.next_seq }

    go :
        (r : Option Wal)
        → append w' (begin_item now w) ≡ r
        → let p : Bool × Wal = elim r [ none ↦ (false, w') | some v ↦ (true, begun now v) ] in
          (p.0 ≡ true) × IsOpen p.1 (begin_of now w) [] × Keeps w p.1 ⊎ (p ≡ (false, w'))
    go none d = inr refl
    go (some v) d =
        let a = append-Appended {w = w'} (IsLog-seq0 idle.log) (begin_item-IsItem c idle.log) d in
        inl (
          refl,
          rw a.result (begun-IsOpen c idle a.entry),
          subst (λ (x : Wal). Keeps w (begun now x)) (sym a.result)
              (record { txn = refl; fd = refl; seg_bytes = refl }),
        )

module _ (w : Wal) (now : Clock) (e : Item) (i : IsItem e) (nb : (e.kind == rec_begin) ≡ false)
    (nc : (e.kind == rec_commit) ≡ false) where
  abbrev no_room : Bool
  no_room =
      ltb buf_bytes
        (length w.buf + hdr_size + e.body_len + crc_size + hdr_size + commit_size + crc_size)

  wal_add_full : no_room ≡ true → wal_add now w e ≡ (false, w)
  unfolding wal_add
  wal_add_full full = rw full

  wal_add_more : no_room ≡ false → w.open_batch ≡ true → wal_add now w e ≡ add_record w e
  unfolding wal_add
  wal_add_more room o =
      ap (λ b. if b then (false, w) else wal_add_tail w.open_batch) room ∙ ap wal_add_tail o
    where
      wal_add_tail : Bool → Bool × Wal
      wal_add_tail b = if b then add_record w e else add_after_begin e (open_with_begin now w)

  wal_add_first :
      no_room ≡ false
      → w.open_batch ≡ false
      → wal_add now w e ≡ add_after_begin e (open_with_begin now w)
  unfolding wal_add
  wal_add_first room o =
      ap (λ b. if b then (false, w) else wal_add_tail w.open_batch) room ∙ ap wal_add_tail o
    where
      wal_add_tail : Bool → Bool × Wal
      wal_add_tail b = if b then add_record w e else add_after_begin e (open_with_begin now w)

  -- In an open batch, `wal_add` of a well-formed item that is no BEGIN and no COMMIT puts the record
  -- behind the others and keeps room for the COMMIT,
  -- or it refuses the record and changes nothing.
  pub wal_add-open :
      {begin : Entry} {records : List Entry}
      → IsOpen w begin records
      → ((wal_add now w e).0 ≡ true)
          × IsOpen (wal_add now w e).1 begin (records ++ entry_of w e ∷ [])
          × Keeps w (wal_add now w e).1
        ⊎ (wal_add now w e ≡ (false, w))
  wal_add-open {begin} {records} o = elim (Bool-cases no_room) [
    | inl full ↦ inr (wal_add_full full)
    | inr room ↦
        rw (wal_add_more room o.is_open)
          (add_record-IsOpen w e i (λ _. ground (arith, room)) nb nc o)
  ]

  -- What `wal_add` leaves where no batch was open: a batch for the next transaction with the
  -- record in it; or, where it refuses, nothing or the BEGIN alone.
  pub data First : Bool × Wal → Type 0 where
    starts :
        (v w' : Wal) → IsOpen v (begin_of now w) (entry_of w' e ∷ []) → Keeps w v → First (true, v)
    leaves_nothing : (v : Wal) → IsIdle v → First (false, v)
    leaves_begin : (v : Wal) → IsOpen v (begin_of now w) [] → First (false, v)

  room_behind_begin :
      {v : Wal} → IsClock now → IsIdle w → IsOpen v (begin_of now w) [] → HasRoom v e
  room_behind_begin {v} c idle o small =
      let begin = begin_item now w in
      omega (
        arith,
        ap length o.holds,
        length-append (frame (header w begin) begin.body) [],
        length-frame (header w begin) begin.body (omega (arith, length-le 8 w.next_txn)),
      )

  record-First :
      {v : Wal} (q : Bool × Wal)
      → IsOpen v (begin_of now w) []
      → Keeps w v
      → (q.0 ≡ true) × IsOpen q.1 (begin_of now w) (entry_of v e ∷ []) × Keeps v q.1
        ⊎ (q ≡ (false, v))
      → First q
  record-First {v} (true, x) o txn (inl (t, p, same)) = starts x v p (Keeps-trans txn same)
  record-First (true, x) o txn (inr r) = absurd (cc r)
  record-First (false, x) o txn (inl (t, p, n)) = absurd (cc t)
  record-First {v} (false, x) o txn (inr r) = subst First (sym r) (leaves_begin v o)

  -- Where no batch is open, `wal_add` of a well-formed item that is no BEGIN and no COMMIT returns 0
  -- with the BEGIN of the next transaction and the record in the buffer; or it returns -1, and leaves
  -- the buffer empty with no batch open, or a batch with the BEGIN alone.
  pub wal_add-First : IsClock now → IsIdle w → First (wal_add now w e)
  unfolding add_after_begin
  wal_add-First c idle = elim (Bool-cases no_room) [
    | inl full ↦ subst First (sym (wal_add_full full)) (leaves_nothing w idle)
    | inr room ↦
        subst First (sym (wal_add_first room idle.is_closed))
          (go (open_with_begin now w) (open_with_begin_lem c idle))
  ]
    where
      go :
          (p : Bool × Wal)
          → (p.0 ≡ true) × IsOpen p.1 (begin_of now w) [] × Keeps w p.1
            ⊎ (p ≡ (false, record w { batch_seq0 = w.next_seq }))
          → First (add_after_begin e p)
      go (true, v) (inl (t, o, txn)) =
          record-First (add_record v e) o txn
            (add_record-IsOpen v e i (room_behind_begin c idle o) nb nc o)
      go (true, v) (inr q) = absurd (cc q)
      go (false, v) (inl (t, o, n)) = absurd (cc t)
      go (false, v) (inr q) =
          subst (λ (x : Bool × Wal). First (false, x.1)) (sym q)
            (leaves_nothing (record w { batch_seq0 = w.next_seq })
              (record {
                log = IsLog-seq0 idle.log;
                is_closed = idle.is_closed;
                empty = idle.empty;
              }))
