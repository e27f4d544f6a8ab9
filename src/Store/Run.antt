-- ===== src/Store/Run.antt =====
-- storaged's arguments, the state that its loop starts from, and its clean stop, src/store/main.c.
use cs370_term_project.Prelude.{ℕ, Bool, true, false, Option, none, some, List, [], ◌∷◌}
use cs370_term_project.Prelude.Bytes.{Bytes}
use cs370_term_project.Text.{codes, equal}
use cs370_term_project.Wal.Commit.{Kernel, Files, current, Ended, returned, stopped, wal_commit}
use cs370_term_project.Wal.Open.{Shut, wal_close}
use cs370_term_project.Store.Loop.{Main, NoteTime, parse_src, note_source, release_probe}

-- The directory and the label, or `none` for the usage message.
unfoldable pub parse_args : List Bytes → Bytes → ℕ → Option (Bytes × ℕ)
parse_args [] dir src = some (dir, src)
parse_args (a ∷ []) dir src = none
parse_args (a ∷ v ∷ rest) dir src = elim (equal a (codes "--dir")) [
  | true ↦ parse_args rest v src
  | false ↦ elim (equal a (codes "--src")) [
    | true ↦ elim (parse_src v) [ none ↦ none | some s ↦ parse_args rest dir s ]
    | false ↦ none
  ]
]

-- What the clean stop meets.
pub record Stop : Type 0 where
  pub note_obd : NoteTime
  pub note_probe : NoteTime
  pub kernel : Kernel
  pub shut : Shut

-- It ends with whether the exit status is 0, the files of the last commit, and how many slots of
-- each ring were released; or power fails.
pub data Finished : Type 0 where
  exits : Bool → Files → ℕ → ℕ → Finished
  dies : Files → Finished

abbrev pub shut_signal : ℕ
shut_signal = 2

unfoldable pub on_close : ℕ → ℕ → Ended → Finished
on_close obd probe (stopped files) = dies files
on_close obd probe (returned ok w files) = exits ok files obd probe

unfoldable pub on_last_commit : Stop → Main → Ended → Finished
on_last_commit s m (stopped files) = dies files
on_last_commit s m (returned false w files) =
    on_close 0 0 (wal_close s.shut shut_signal w files.segment)
on_last_commit s m (returned true w files) =
    on_close m.obd.taken (release_probe m) (wal_close s.shut shut_signal w (current files))

-- A note that fails is only reported.
unfoldable pub clean_stop : Stop → Main → Finished
clean_stop s m =
    let v = (note_source s.note_obd 0 m.obd m.log).1 in
    let w = (note_source s.note_probe 1 m.probe v).1 in
    on_last_commit s m (wal_commit s.kernel w m.file)
