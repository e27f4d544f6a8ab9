-- ===== src/Store/Release.antt =====
-- A pass of the loop releases slots only when their samples are in the log for good.
use cs370_term_project.Prelude.{ℕ, ◌≤◌, ◌≡◌, ◌⊎◌, List, [], ◌++◌, length, take}
use cs370_term_project.Prelude.Bytes.{Bytes}
use cs370_term_project.Wal.Scan.Log.{Entry, Batch, IsBatch, batch_bytes}
use cs370_term_project.Wal.Batch.{Wal}
use cs370_term_project.Wal.Batch.Open.{IsIdle}
use cs370_term_project.Wal.Commit.{Files, current}
use cs370_term_project.Wal.Commit.Atomic.{IsReady, IsKernel, commit_of}
use cs370_term_project.Wal.Commit.Atomic
use cs370_term_project.Ring.{Slot}
use cs370_term_project.Store.Drain.{AreRounds, Holding}
use cs370_term_project.Store.Notes.{IsNoteTime}
use cs370_term_project.Store.Taken.{slots_from, AllShow, AreCovered, Taken}
use cs370_term_project.Store.Loop.{Main, Pass, Passed, goes_on, stops}

-- The loop between two passes, with the records of the open batch: they carry all that was taken and
-- not released. `q` and `q'` are the unread slots of the two rings.
pub record IsMain (q q' : ℕ → Slot) (m : Main) (records : List Entry) : Type 0 where
  pub holds : Holding m.log records
  pub ready : IsReady m.log m.file
  pub obd : Taken q m.obd records
  pub probe : Taken q' m.probe records

-- What a pass meets, with rings whose unread slots are the first of `q` and `q'`.
pub record IsPass (q q' : ℕ → Slot) (p : Pass) : Type 0 where
  pub obd_rounds : AreRounds p.obd
  pub probe_rounds : AreRounds p.probe
  pub obd_shows : AllShow q p.obd
  pub probe_shows : AllShow q' p.probe
  pub obd_note : IsNoteTime p.note_obd
  pub probe_note : IsNoteTime p.note_probe
  pub kernel_in : IsKernel p.kernel

-- The records are committed behind what the file held, or there are none; all is synced.
pub record AreLogged (file : Bytes) (records : List Entry) (files : Files) : Type 0 where
  pub holds :
      (records ≡ []) × (files.segment ≡ file)
      ⊎ (b : Batch) × IsBatch b × (b.records ≡ records) × (files.segment ≡ file ++ batch_bytes b)
  pub synced : files.synced ≡ length files.segment

-- What a pass can come to, from `m`.
pub data Outcome (q q' : ℕ → Slot) (m : Main) : Passed → Type 0 where
  releases :
      (m' : Main) (files : Files) (records : List Entry) (obd probe : ℕ)
      → AreCovered m.obd.skip m.obd.skip_seq (slots_from q 0 obd) records
      → AreCovered m.probe.skip m.probe.skip_seq (slots_from q' 0 probe) records
      → AreLogged m.file records files
      → m'.file ≡ current files
      → ((u u' : ℕ → Slot) → IsMain u u' m' [])
      → Outcome q q' m (goes_on m' files obd probe)
  keeps :
      (m' : Main) (files : Files) (records : List Entry)
      → files.segment ≡ m.file
      → IsMain q q' m' records
      → Outcome q q' m (goes_on m' files 0 0)
  takes_again :
      (m' : Main) (files : Files) (records : List Entry)
      → files.segment ≡ m.file
      → m'.obd.taken ≡ 0
      → m'.probe.taken ≡ 0
      → IsMain q q' m' records
      → Outcome q q' m (goes_on m' files 0 0)
  loses_log :
      (m' : Main) (files : Files) (b : Batch) (n : ℕ)
      → files.segment ≡ m.file ++ take n (batch_bytes b)
      → m'.obd.taken ≡ 0
      → m'.probe.taken ≡ 0
      → IsIdle m'.log
      → Outcome q q' m (goes_on m' files 0 0)
  loses_power :
      (files : Files) (b : Batch) (n : ℕ)
      → IsBatch b
      → files.segment ≡ m.file ++ take n (batch_bytes b)
      → n ≤ length (batch_bytes b)
      → Outcome q q' m (stops files)

module _ (q q' : ℕ → Slot) where
  -- The slots of a pass and its records, from the drains on; `m` is the loop before them, `d` behind.
  record IsFilled (m d : Main) (records : List Entry) : Type 0 where
    main : IsMain q q' d records
    same_file : d.file ≡ m.file
    obd_covered : AreCovered m.obd.skip m.obd.skip_seq (slots_from q 0 d.obd.taken) records
    probe_covered : AreCovered m.probe.skip m.probe.skip_seq (slots_from q' 0 d.probe.taken) records
