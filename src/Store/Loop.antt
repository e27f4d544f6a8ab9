-- ===== src/Store/Loop.antt =====
-- The loop of storaged's `main`, src/store/main.c: one pass from draining the rings to releasing
-- their slots. The ring of the probe may be absent; that of OBD is not. What a pass meets is an
-- argument, and so is what its commit meets.
use cs370_term_project.Prelude.{
  ℕ, Bool, true, false, not, ◌&&◌, ◌||◌, Option, none, some, List, [], ltb, ◌==◌, if◌then◌else◌,
}
use cs370_term_project.Prelude.Bytes.{Bytes}
use cs370_term_project.Prelude.Words.{add64}
use cs370_term_project.Text.{codes, equal}
use cs370_term_project.Label.{src_live, src_replay, src_synth}
use cs370_term_project.Wal.Scan.{Scan, at_ns}
use cs370_term_project.Wal.Batch.{Wal, Clock, wal_due}
use cs370_term_project.Wal.Commit.{
  Kernel, Files, with_newer, since_commit, current, Ended, returned, stopped, wal_commit,
}
use cs370_term_project.Store.{Source, Round, Drained, note_ring_seq, drain}

unfoldable pub parse_src : Bytes → Option ℕ
parse_src s =
    if equal s (codes "live")
    then some src_live
    else if equal s (codes "replay")
    then some src_replay
    else if equal s (codes "synth")
    then some src_synth
    else none

-- A source at the start of a run: slots are skipped if recovery found this generation of the ring,
-- with the newest slot that is in the log.
unfoldable pub start_source : ℕ → Scan → ℕ → Source
start_source generation r ns =
    let known = at_ns r.ring_gen ns == generation && at_ns r.has_ring_seq ns in
    record {
      taken = 0;
      added = false;
      last_seq = 0;
      skip = known;
      skip_seq = if known then at_ns r.ring_seq ns else 0;
    }

-- The loop's variables, and the open segment.
pub record Main : Type 0 where
  pub log : Wal
  pub file : Bytes
  pub obd : Source
  pub probe : Source
  pub has_probe : Bool
  pub samples : ℕ

-- When a RING_SEQ is noted.
pub record NoteTime : Type 0 where
  pub now : Clock
  pub mono : ℕ
  pub wall : ℕ

pub record Pass : Type 0 where
  pub obd : List Round
  pub probe : List Round
  pub due : ℕ
  pub note_obd : NoteTime
  pub note_probe : NoteTime
  pub kernel : Kernel

-- What a pass comes to: the loop goes on, with the files and how many slots of each ring were
-- released; or power fails.
pub data Passed : Type 0 where
  goes_on : Main → Files → ℕ → ℕ → Passed
  stops : Files → Passed

abbrev pub drain_source : Bool → List Round → Wal → Source → Drained
drain_source true rounds w s = drain rounds w s
drain_source false rounds w s = record { log = w; source = s; count = 0 }

abbrev pub any_taken : Main → Bool
any_taken m = ltb 0 m.obd.taken || ltb 0 m.probe.taken

abbrev pub must_commit : ℕ → Main → Bool
must_commit now m = wal_due m.log now || any_taken m && not m.log.open_batch

unfoldable pub note_source : NoteTime → ℕ → Source → Wal → Bool × Wal
note_source t ns s w =
    if s.added then note_ring_seq t.now t.mono t.wall w ns s.last_seq else (true, w)

abbrev pub let_go : Source → Source
let_go s = record s { taken = 0; added = false }

abbrev pub no_files : Main → Files
no_files m = with_newer (since_commit m.log m.file) []

-- The batch is not in the log: start again.
abbrev pub restart : Wal → Bytes → Main → Main
restart w file m = record m { log = w; file = file; obd = let_go m.obd; probe = let_go m.probe }

-- `ring_release` of what was taken, where there is a ring.
abbrev pub release_probe : Main → ℕ
release_probe m = if m.has_probe then m.probe.taken else 0

unfoldable pub on_commit : Main → ℕ → Ended → Passed
on_commit m added (stopped files) = stops files
on_commit m added (returned false w files) = goes_on (restart w files.segment m) files 0 0
on_commit m added (returned true w files) =
    goes_on (record (restart w (current files) m) { samples = add64 m.samples added }) files
      m.obd.taken (release_probe m)

-- Both notes are tried; the commit only if both succeed.
unfoldable pub on_notes : Kernel → Main → ℕ → Bool → Bool × Wal → Passed
on_notes k m added true (true, w) = on_commit m added (wal_commit k w m.file)
on_notes k m added true (false, w) = goes_on (restart w m.file m) (no_files m) 0 0
on_notes k m added false (noted, w) = goes_on (restart w m.file m) (no_files m) 0 0

unfoldable pub commit_pass : Pass → Main → ℕ → Passed
commit_pass p m added =
    let (noted, w) = note_source p.note_obd 0 m.obd m.log in
    on_notes p.kernel m added noted (note_source p.note_probe 1 m.probe w)

unfoldable pub after_drain : Pass → Main → ℕ → Passed
after_drain p m added =
    if must_commit p.due m
    then commit_pass p m added
    else goes_on (record m { samples = add64 m.samples added }) (no_files m) 0 0

unfoldable pub pass : Pass → Main → Passed
pass p m =
    let a = drain p.obd m.log m.obd in
    let b = drain_source m.has_probe p.probe a.log m.probe in
    after_drain p (record m { log = b.log; obd = a.source; probe = b.source })
      (add64 a.count b.count)
