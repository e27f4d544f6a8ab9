-- ===== src/Synth.antt =====
-- src/interface/synth_source.c: the source of made-up numbers, what the phone page shows until the
-- daemons answer. This file has the reply's buffer and the replies without arguments; Synth/Series
-- has the series and the query. The floating-point texts are parameters.
pub mod Series
pub mod Lines
pub mod Records
pub mod StatusLines
pub mod EventLines
pub mod Reply
pub mod Answers
pub mod Contract
pub mod Grid
mod Tests
use Prim.Native.Nat.{bit_xor}
use cs370_term_project.Prelude.{
  ℕ, zero, suc, ◌+◌, ◌-◌, ◌*◌, ◌/◌, ◌%◌, ◌^◌, Bool, true, false, List, [], ◌∷◌, ◌++◌, ltb, leb,
  if◌then◌else◌, length,
}
use cs370_term_project.Prelude.Bytes.{Bytes}
use cs370_term_project.Text.{codes, join, print_number}

-- synth_t
pub record Synth : Type 0 where
  pub t0 : ℕ
  pub now_s : ℕ

-- What `%.1f` prints: a processor share of 0.2 and some tenths, and the value of a signal at a time.
pub record Floats : Type 0 where
  pub cpu_text : ℕ → Bytes
  pub value_text : ℕ → ℕ → Bytes

-- out_t; `len` is the length of the text.
pub record Out : Type 0 where
  pub text : Bytes
  pub over : Bool

-- outf of a formatted line, in a buffer of `cap` bytes. What a line that does not fit leaves behind
-- the text is not part of it.
unfoldable pub outf : ℕ → Out → Bytes → Out
outf cap o line =
    if o.over
    then o
    else if leb (cap - length o.text) (length line)
    then record o { over = true }
    else record o { text = o.text ++ line }

abbrev pub newline : Bytes
newline = b'\n' ∷ []

unfoldable pub reply_err : ℕ → Bytes → Bytes → Out → Out
reply_err cap code reason o =
    outf cap o (join (codes "err " ∷ code ∷ codes " " ∷ reason ∷ newline ∷ []))

-- `x ^= x >> 33`
abbrev pub fold : ℕ → ℕ
fold x = bit_xor x (x / 2 ^ 33)

unfoldable pub mix : ℕ → ℕ
mix x =
    let a = fold x * 0xff51_afd7_ed55_8ccd % 2 ^ 64 in
    let b = fold a * 0xc4ce_b9fe_1a85_ec53 % 2 ^ 64 in fold b % 2 ^ 32

abbrev pub ago : ℕ → ℕ → ℕ
ago now secs = if leb secs now then now - secs else 0

-- A number as `%llu` and `%u` print it.
abbrev pub decimal : ℕ → Bytes
decimal v = print_number 10 v

-- How long ago `since` was, on 64 bits, and `extra` seconds more.
abbrev pub up_since : ℕ → Synth → ℕ
up_since extra s = ((s.now_s + 2 ^ 64 - s.t0) % 2 ^ 64 + extra) % 2 ^ 64

pub record Proc : Type 0 where
  pub name : Bytes
  pub pid : ℕ
  pub rss_kb : ℕ
  pub restarts : ℕ
  pub events_per_s : ℕ

abbrev pub proc : Bytes → ℕ → ℕ → ℕ → ℕ → Proc
proc n p r t e = record { name = n; pid = p; rss_kb = r; restarts = t; events_per_s = e }

abbrev pub procs : List Proc
procs =
    proc (codes "supervisor") 101 1400 0 1
    ∷ proc (codes "obdd") 102 2100 0 15
    ∷ proc (codes "ambientd") 103 1500 0 1
    ∷ proc (codes "storaged") 104 3200 0 16
    ∷ proc (codes "analyzed") 105 4800 2 16
    ∷ proc (codes "statusd") 106 2600 0 1
    ∷ []

-- The uptime of a process: one that was restarted came up later.
abbrev pub uptime : Synth → Proc → ℕ
uptime s p = if ltb 0 p.restarts then up_since 900 s else up_since 3600 s

abbrev pub synth_end : Bytes
synth_end = codes " src=\"synth\"\n"

abbrev pub proc_line : Floats → Synth → ℕ → Proc → Bytes
proc_line fl s i p = join (
    codes "proc name=\""
    ∷ p.name
    ∷ codes "\" state=\"up\" pid="
    ∷ decimal p.pid
    ∷ codes " uptime_s="
    ∷ decimal (uptime s p)
    ∷ codes " restarts="
    ∷ decimal p.restarts
    ∷ codes " rss_kb="
    ∷ decimal (p.rss_kb + mix ((s.now_s / 10 + i) % 2 ^ 64) % 64)
    ∷ codes " cpu_pct="
    ∷ fl.cpu_text (mix ((s.now_s / 5 + 7 * i) % 2 ^ 64) % 40)
    ∷ codes " events="
    ∷ decimal (uptime s p * p.events_per_s % 2 ^ 64)
    ∷ codes " drops=0"
    ∷ synth_end
    ∷ [])

-- The loop of reply_status, with its index.
unfoldable pub proc_lines : Floats → Synth → ℕ → ℕ → List Proc → Out → Out
proc_lines fl s cap i [] o = o
proc_lines fl s cap i (p ∷ ps) o = proc_lines fl s cap (i + 1) ps (outf cap o (proc_line fl s i p))

abbrev pub ring_line : Bytes → ℕ → Bytes
ring_line name depth = join (
    codes "ring name=\""
    ∷ name
    ∷ codes "\" depth="
    ∷ decimal depth
    ∷ codes " capacity=4096 overruns=0"
    ∷ synth_end
    ∷ [])

abbrev pub link_line : Bytes
link_line = codes "link dongle=\"up\" probe=\"present\" light=\"green\" time_trusted=1" ++ synth_end

abbrev pub srcmix_line : Synth → Bytes
srcmix_line s = join (
    codes "srcmix live=0 replay=0 synth="
    ∷ decimal (up_since 3600 s * 16 % 2 ^ 64)
    ∷ synth_end
    ∷ [])

abbrev pub ok_line : Bytes
ok_line = codes "ok\n"

unfoldable pub reply_status : Floats → Synth → ℕ → Out → Out
reply_status fl s cap o =
    let a = proc_lines fl s cap 0 procs o in
    let b = outf cap a (ring_line (codes "obd") (mix ((s.now_s + 1) % 2 ^ 64) % 40)) in
    let c = outf cap b (ring_line (codes "ambient") (mix ((s.now_s + 2) % 2 ^ 64) % 3)) in
    outf cap (outf cap (outf cap c link_line) (srcmix_line s)) ok_line

abbrev pub active_verdict : Synth → Bytes
active_verdict s = join (
    codes "verdict id=1 area=\"cooling\" sensors=\"coolant,intake\" residual=3.4 "
    ∷ codes "state=\"active\" start_s="
    ∷ decimal (ago s.now_s 420)
    ∷ codes " end_s=null"
    ∷ synth_end
    ∷ [])

abbrev pub ended_verdict : Synth → Bytes
ended_verdict s = join (
    codes "verdict id=2 area=\"air_fuel\" sensors=\"ltft,maf\" residual=2.6 "
    ∷ codes "state=\"ended\" start_s="
    ∷ decimal (ago s.now_s 5400)
    ∷ codes " end_s="
    ∷ decimal (ago s.now_s 4200)
    ∷ synth_end
    ∷ [])

unfoldable pub reply_verdicts : Synth → ℕ → Out → Out
reply_verdicts s cap o =
    outf cap (outf cap (outf cap o (active_verdict s)) (ended_verdict s)) ok_line

pub record Fault : Type 0 where
  pub secs_ago : ℕ
  pub kind : Bytes
  pub source : Bytes
  pub code : Bytes
  pub detail : Bytes

abbrev pub fault : ℕ → Bytes → Bytes → Bytes → Bytes → Fault
fault t k s c d = record { secs_ago = t; kind = k; source = s; code = c; detail = d }

abbrev pub faults : List Fault
faults =
    fault 3000 (codes "detection") (codes "ambientd") (codes "sensor_absent")
      (codes "probe not answering")
    ∷ fault 2990 (codes "degradation") (codes "ambientd") (codes "capture_continues")
        (codes "engine capture unaffected")
    ∷ fault 2400 (codes "recovery") (codes "ambientd") (codes "sensor_present")
        (codes "probe answering again")
    ∷ fault 420 (codes "detection") (codes "analyzed") (codes "verdict_surfaced")
        (codes "cooling residual above trip level")
    ∷ []

abbrev pub fault_line : Synth → Fault → Bytes
fault_line s f = join (
    codes "fault t_s="
    ∷ decimal (ago s.now_s f.secs_ago)
    ∷ codes " kind=\""
    ∷ f.kind
    ∷ codes "\" source=\""
    ∷ f.source
    ∷ codes "\" code=\""
    ∷ f.code
    ∷ codes "\" detail=\""
    ∷ f.detail
    ∷ codes "\""
    ∷ synth_end
    ∷ [])

-- The loop of reply_faults.
unfoldable pub fault_lines : Synth → ℕ → List Fault → Out → Out
fault_lines s cap [] o = o
fault_lines s cap (f ∷ fs) o = fault_lines s cap fs (outf cap o (fault_line s f))

unfoldable pub reply_faults : Synth → ℕ → Out → Out
reply_faults s cap o = outf cap (fault_lines s cap faults o) ok_line

unfoldable pub synth_init : ℕ → Synth
synth_init now = record { t0 = now; now_s = now }

unfoldable pub synth_set_time : Synth → ℕ → Synth
synth_set_time s now = record s { now_s = now }
