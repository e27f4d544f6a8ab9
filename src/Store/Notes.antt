-- ===== src/Store/Notes.antt =====
-- The notes of the newest slots are records like any other.
use cs370_term_project.Prelude.{
  ℕ, ◌≤◌, Bool, true, false, List, [], ◌∷◌, ◌++◌, if◌then◌else◌, arith, refl, sym, subst, length,
  length-append, append-nil, inl, inr,
}
use cs370_term_project.Prelude.Bytes.{le, AreBytes, AreBytes-le, AreBytes-append}
use cs370_term_project.Prelude.Words.{IsU64}
use cs370_term_project.Text.{print_number}
use cs370_term_project.Text.Print.{print_digits-AreBytes, length-print_digits}
use cs370_term_project.Wal.Scan.{ev_ring_seq, seq_name}
use cs370_term_project.Wal.Scan.Log.{Entry}
use cs370_term_project.Wal.Batch.{Wal, Item, wal_add}
use cs370_term_project.Wal.Batch.Open.{IsItem, IsClock, IsLog}
use cs370_term_project.Store.{Source, note_text, note_item, note_ring_seq}
use cs370_term_project.Store.Drain.{Holding, Addition, adds, adds_none, wal_add-Addition}
use cs370_term_project.Store.Steady.{SameSegment, same, wal_add-SameSegment}
use cs370_term_project.Store.Loop.{NoteTime, note_source}

-- The text of a note: its bytes, and its length.
note_text-AreBytes : (ns v : ℕ) → AreBytes (note_text seq_name ns v)
note_text-AreBytes ns v = (
  omega arith,
  (
    omega arith,
    (
      omega arith,
      AreBytes-append (print_number 10 ns) _
          (print_digits-AreBytes 20 10 ns [] (omega arith) (omega arith) tt)
          (
            omega arith,
            AreBytes-append seq_name (print_number 16 v) (omega arith)
                (print_digits-AreBytes 20 16 v [] (omega arith) (omega arith) tt),
          ),
    ),
  ),
)

length-note_text : (ns v : ℕ) → length (note_text seq_name ns v) ≤ 60
length-note_text ns v = omega (
  arith,
  length-append (print_number 10 ns) (b' ' ∷ (seq_name ++ print_number 16 v)),
  length-append seq_name (print_number 16 v),
  length-print_digits 20 10 ns [],
  length-print_digits 20 16 v [],
)

Holding-IsLog : {w : Wal} {records : List Entry} → Holding w records → IsLog w
Holding-IsLog (inl (i, e)) = i.log
Holding-IsLog (inr (b, o)) = o.log

pub record IsNoteTime (t : NoteTime) : Type 0 where
  pub now_in : IsClock t.now
  pub mono_in : IsU64 t.mono
  pub wall_in : IsU64 t.wall

note-IsItem :
    (t : NoteTime) (w : Wal) (ns v : ℕ)
    → IsNoteTime t
    → IsLog w
    → IsItem (note_item ev_ring_seq (note_text seq_name ns v) t.mono t.wall w)
note-IsItem t w ns v h l = record {
  kind_in = omega arith;
  src_in = l.src_in;
  mono_in = h.mono_in;
  wall_in = h.wall_in;
  len_in = omega (arith, length-note_text ns v);
  holds = omega (
    arith,
    length-append (le 2 ev_ring_seq)
        (le 2 (length (note_text seq_name ns v)) ++ note_text seq_name ns v),
    length-append (le 2 (length (note_text seq_name ns v))) (note_text seq_name ns v),
  );
  bytes =
      AreBytes-append (le 2 ev_ring_seq)
        (le 2 (length (note_text seq_name ns v)) ++ note_text seq_name ns v)
        (AreBytes-le 2 ev_ring_seq)
        (AreBytes-append (le 2 (length (note_text seq_name ns v))) (note_text seq_name ns v)
          (AreBytes-le 2 (length (note_text seq_name ns v))) (note_text-AreBytes ns v));
}

-- The buffer holds what it held, and perhaps more behind it, for the same segment.
pub record Noted (w : Wal) (records : List Entry) (v : Wal) : Type 0 where
  pub more : List Entry
  pub holds : Holding v (records ++ more)
  pub segment : SameSegment w v

pub note_source-Noted :
    (t : NoteTime) (ns : ℕ) (s : Source) (w : Wal) (records : List Entry)
    → IsNoteTime t
    → Holding w records
    → Noted w records (note_source t ns s w).1
unfolding note_source note_ring_seq
note_source-Noted t ns s w records h o =
    go s.added
      (wal_add-Addition t.now item h.now_in (note-IsItem t w ns s.last_seq h (Holding-IsLog o)) refl
        refl o)
      (wal_add-SameSegment t.now w item)
  where
    item : Item
    item = note_item ev_ring_seq (note_text seq_name ns s.last_seq) t.mono t.wall w

    from : {p : Bool × Wal} → Addition records item p → SameSegment w p.1 → Noted w records p.1
    from (adds v e c q) g = record { more = e ∷ []; holds = q; segment = g }
    from (adds_none v q) g = record {
      more = [];
      holds = subst (Holding v) (sym (append-nil records)) q;
      segment = g;
    }

    go :
        (b : Bool)
        → Addition records item (wal_add t.now w item)
        → SameSegment w (wal_add t.now w item).1
        → Noted w records (if b then wal_add t.now w item else (true, w)).1
    go true a g = from a g
    go false a g = record {
      more = [];
      holds = subst (Holding w) (sym (append-nil records)) o;
      segment = same w;
    }
