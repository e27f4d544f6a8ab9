-- ===== src/Synth/Answers.antt =====
-- The replies without arguments, and the samples, as lines of records.
use cs370_term_project.Prelude.{
  ℕ, zero, suc, ◌+◌, ◌%◌, ◌^◌, ◌<◌, ◌≡◌, Bool, true, false, List, [], ◌∷◌, ◌++◌, leb, if◌then◌else◌,
  arith, refl, sym, ap, ◌∙◌, length,
}
use cs370_term_project.Prelude.Bytes.{Bytes}
use cs370_term_project.Text.{codes}
use cs370_term_project.Kv.Wire.{IsQuotable}
use cs370_term_project.Synth.{
  Synth, Floats, Out, outf, reply_err, reply_status, reply_verdicts, reply_faults, ok_line, mix,
  Proc, procs, proc_line, proc_lines, ring_line, link_line, srcmix_line, active_verdict,
  ended_verdict, Fault, faults, fault_line, fault_lines,
}
use cs370_term_project.Synth.Series.{sample_line, sample_lines}
use cs370_term_project.Synth.Lines.{put_lines, put_lines-append}
use cs370_term_project.Synth.Records.{IsRecord, IsFloats}
use cs370_term_project.Synth.StatusLines.{
  IsProc, proc_line-IsRecord, ring_line-IsRecord, link_line-IsRecord, srcmix_line-IsRecord,
}
use cs370_term_project.Synth.EventLines.{
  IsShortText, IsFault, fault_line-IsRecord, active_verdict-IsRecord, ended_verdict-IsRecord,
  sample_line-IsRecord,
}
use cs370_term_project.Synth.Reply.{IsReply, ends_ok, ends_err, adds, err_text, IsError}

-- The lines that a handler writes, whatever the buffer holds already.
pub record Answers (handler : ℕ → Out → Out) : Type 0 where
  pub lines : List Bytes
  pub is_reply : IsReply lines
  pub same : (cap : ℕ) (o : Out) → handler cap o ≡ put_lines cap lines o

pub err-Answers :
    (code reason : Bytes) → IsError code reason → Answers (λ cap. reply_err cap code reason)
unfolding reply_err
err-Answers code reason h = record {
  lines = err_text code reason ∷ [];
  is_reply = ends_err code reason h;
  same = λ cap o. refl;
}

-- One line more in front.
abbrev pub AreRecords : List Bytes → Type 0
AreRecords [] = Unit
AreRecords (l ∷ ls) = IsRecord l × AreRecords ls

pub append-IsReply : (ks ls : List Bytes) → AreRecords ks → IsReply ls → IsReply (ks ++ ls)
append-IsReply [] ls h r = r
append-IsReply (k ∷ ks) ls (h, hs) r = adds k (ks ++ ls) h (append-IsReply ks ls hs r)

abbrev proc_list : Floats → Synth → ℕ → List Proc → List Bytes
proc_list fl s i [] = []
proc_list fl s i (p ∷ ps) = proc_line fl s i p ∷ proc_list fl s (i + 1) ps

proc_lines-same :
    (fl : Floats) (s : Synth) (cap i : ℕ) (ps : List Proc) (o : Out)
    → proc_lines fl s cap i ps o ≡ put_lines cap (proc_list fl s i ps) o
unfolding proc_lines
proc_lines-same fl s cap i [] o = refl
proc_lines-same fl s cap i (p ∷ ps) o =
    proc_lines-same fl s cap (i + 1) ps (outf cap o (proc_line fl s i p))

abbrev AreProcs : List Proc → Type 0
AreProcs [] = Unit
AreProcs (p ∷ ps) = IsProc p × AreProcs ps

proc_list-AreRecords :
    (fl : Floats) (s : Synth) (i : ℕ) (ps : List Proc)
    → IsFloats fl
    → AreProcs ps
    → AreRecords (proc_list fl s i ps)
proc_list-AreRecords fl s i [] hf h = tt
proc_list-AreRecords fl s i (p ∷ ps) hf (h, hs) =
    (proc_line-IsRecord fl s i p hf h, proc_list-AreRecords fl s (i + 1) ps hf hs)

is_proc :
    (p : Proc)
    → IsQuotable p.name
    → length p.name < 24
    → (p.pid < 2 ^ 32) × (p.rss_kb < 2 ^ 31) × (p.restarts < 2 ^ 32)
    → IsProc p
is_proc p q l h = record { name_ok = q; name_short = l; small = h }

procs-AreProcs : AreProcs procs
procs-AreProcs = (
  is_proc _ (omega arith) (omega arith) (omega arith),
  (
    is_proc _ (omega arith) (omega arith) (omega arith),
    (
      is_proc _ (omega arith) (omega arith) (omega arith),
      (
        is_proc _ (omega arith) (omega arith) (omega arith),
        (
          is_proc _ (omega arith) (omega arith) (omega arith),
          (is_proc _ (omega arith) (omega arith) (omega arith), tt),
        ),
      ),
    ),
  ),
)

abbrev status_rest : Synth → List Bytes
status_rest s =
    ring_line (codes "obd") (mix ((s.now_s + 1) % 2 ^ 64) % 40)
    ∷ ring_line (codes "ambient") (mix ((s.now_s + 2) % 2 ^ 64) % 3)
    ∷ link_line
    ∷ srcmix_line s
    ∷ ok_line
    ∷ []

pub status-Answers :
    (fl : Floats) (s : Synth) → IsFloats fl → Answers (λ cap. reply_status fl s cap)
unfolding reply_status
status-Answers fl s hf = record {
  lines = proc_list fl s 0 procs ++ status_rest s;
  is_reply =
      append-IsReply (proc_list fl s 0 procs) (status_rest s)
        (proc_list-AreRecords fl s 0 procs hf procs-AreProcs)
        (adds _ _
          (ring_line-IsRecord (codes "obd") (mix ((s.now_s + 1) % 2 ^ 64) % 40) (omega arith)
            (omega arith) (omega arith))
          (adds _ _
            (ring_line-IsRecord (codes "ambient") (mix ((s.now_s + 2) % 2 ^ 64) % 3) (omega arith)
              (omega arith) (omega arith))
            (adds _ _ link_line-IsRecord (adds _ _ (srcmix_line-IsRecord s) ends_ok))));
  same = λ cap o.
      ap (put_lines cap (status_rest s)) (proc_lines-same fl s cap 0 procs o)
      ∙ sym (put_lines-append cap (proc_list fl s 0 procs) (status_rest s) o);
}

pub verdicts-Answers : (s : Synth) → s.now_s < 2 ^ 64 → Answers (λ cap. reply_verdicts s cap)
unfolding reply_verdicts
verdicts-Answers s h = record {
  lines = active_verdict s ∷ ended_verdict s ∷ ok_line ∷ [];
  is_reply = adds _ _ (active_verdict-IsRecord s h) (adds _ _ (ended_verdict-IsRecord s h) ends_ok);
  same = λ cap o. refl;
}

abbrev fault_list : Synth → List Fault → List Bytes
fault_list s [] = []
fault_list s (f ∷ fs) = fault_line s f ∷ fault_list s fs

fault_lines-same :
    (s : Synth) (cap : ℕ) (fs : List Fault) (o : Out)
    → fault_lines s cap fs o ≡ put_lines cap (fault_list s fs) o
unfolding fault_lines
fault_lines-same s cap [] o = refl
fault_lines-same s cap (f ∷ fs) o = fault_lines-same s cap fs (outf cap o (fault_line s f))

abbrev AreFaults : List Fault → Type 0
AreFaults [] = Unit
AreFaults (f ∷ fs) = IsFault f × AreFaults fs

fault_list-AreRecords :
    (s : Synth) (fs : List Fault) → s.now_s < 2 ^ 64 → AreFaults fs → AreRecords (fault_list s fs)
fault_list-AreRecords s [] h w = tt
fault_list-AreRecords s (f ∷ fs) h (w, ws) =
    (fault_line-IsRecord s f h w, fault_list-AreRecords s fs h ws)

is_fault :
    (f : Fault)
    → IsShortText f.kind
    → IsShortText f.source
    → IsShortText f.code
    → IsShortText f.detail
    → IsFault f
is_fault f k s c d = record { kind_ok = k; source_ok = s; code_ok = c; detail_ok = d }

faults-AreFaults : AreFaults faults
faults-AreFaults = (
  is_fault _ (omega arith) (omega arith) (omega arith) (omega arith),
  (
    is_fault _ (omega arith) (omega arith) (omega arith) (omega arith),
    (
      is_fault _ (omega arith) (omega arith) (omega arith) (omega arith),
      (is_fault _ (omega arith) (omega arith) (omega arith) (omega arith), tt),
    ),
  ),
)

pub faults-Answers : (s : Synth) → s.now_s < 2 ^ 64 → Answers (λ cap. reply_faults s cap)
unfolding reply_faults
faults-Answers s h = record {
  lines = fault_list s faults ++ ok_line ∷ [];
  is_reply =
      append-IsReply (fault_list s faults) (ok_line ∷ [])
        (fault_list-AreRecords s faults h faults-AreFaults) ends_ok;
  same = λ cap o.
      ap (put_lines cap (ok_line ∷ [])) (fault_lines-same s cap faults o)
      ∙ sym (put_lines-append cap (fault_list s faults) (ok_line ∷ []) o);
}

-- The samples of the loop, whatever its rounds.
abbrev pub sample_list : Floats → ℕ → ℕ → ℕ → ℕ → ℕ → List Bytes
sample_list fl k step to zero t = []
sample_list fl k step to (suc fuel) t = elim (leb t to) [
  | false ↦ []
  | true ↦ sample_line fl k t ∷ sample_list fl k step to fuel ((t + step) % 2 ^ 64)
]

pub sample_lines-same :
    (fl : Floats) (cap k step to fuel t : ℕ) (o : Out)
    → sample_lines fl cap k step to fuel t o ≡ put_lines cap (sample_list fl k step to fuel t) o
unfolding sample_lines
sample_lines-same fl cap k step to zero t o = refl
sample_lines-same fl cap k step to (suc fuel) t o = go (leb t to) (
    sample_lines-same fl cap k step to fuel ((t + step) % 2 ^ 64) (outf cap o (sample_line fl k t)))
  where
    next : ℕ
    next = (t + step) % 2 ^ 64

    here : Out
    here = outf cap o (sample_line fl k t)

    go :
        (b : Bool)
        → sample_lines fl cap k step to fuel next here
          ≡ put_lines cap (sample_list fl k step to fuel next) here
        → elim b [ false ↦ o | true ↦ sample_lines fl cap k step to fuel next here ]
          ≡ put_lines cap
              (elim b [
                | false ↦ []
                | true ↦ sample_line fl k t ∷ sample_list fl k step to fuel next
              ])
              o
    go true ih = ih
    go false ih = refl

pub sample_list-AreRecords :
    (fl : Floats) (k step to fuel t : ℕ)
    → IsFloats fl
    → t < 2 ^ 64
    → AreRecords (sample_list fl k step to fuel t)
sample_list-AreRecords fl k step to zero t hf h = tt
sample_list-AreRecords fl k step to (suc fuel) t hf h = go (leb t to) (
  sample_line-IsRecord fl k t hf h,
  sample_list-AreRecords fl k step to fuel ((t + step) % 2 ^ 64) hf (omega arith),
)
  where
    more : List Bytes
    more = sample_line fl k t ∷ sample_list fl k step to fuel ((t + step) % 2 ^ 64)

    go : (b : Bool) → AreRecords more → AreRecords (elim b [ false ↦ [] | true ↦ more ])
    go true h = h
    go false h = tt

pub if-Answers :
    (b : Bool) {f g : ℕ → Out → Out}
    → Answers f
    → Answers g
    → Answers (λ cap o. if b then f cap o else g cap o)
if-Answers true f g = record { lines = f.lines; is_reply = f.is_reply; same = f.same }
if-Answers false f g = record { lines = g.lines; is_reply = g.is_reply; same = g.same }
