-- ===== src/Synth/Series.antt =====
-- src/interface/synth_source.c: the series reply and synth_query.
use cs370_term_project.Prelude.{
  ℕ, zero, suc, ◌+◌, ◌-◌, ◌*◌, ◌/◌, ◌%◌, ◌^◌, true, false, not, ◌&&◌, ◌||◌, Option, none, some,
  List, [], ◌∷◌, ltb, leb, ◌==◌, if◌then◌else◌, length, drop, get_or,
}
use cs370_term_project.Prelude.Bytes.{Bytes}
use cs370_term_project.Text.{codes, join, equal, is_digit, read_digits, signed}
use cs370_term_project.Kv.{
  ValueType, str, num, null, Field, Line, Parsed, record_line, bad, kv_parse_line, max_line,
}
use cs370_term_project.Kv
use cs370_term_project.Synth.{
  Synth, Floats, Out, outf, reply_err, reply_status, reply_verdicts, reply_faults, ok_line, decimal,
  synth_end,
}

abbrev pub max_window_s : ℕ
max_window_s = 3600

abbrev pub max_samples : ℕ
max_samples = 300

-- The signals, without the numbers of their curves, which only the parameter for values uses.
abbrev pub signals : List Bytes
signals =
    codes "0C" ∷ codes "0D" ∷ codes "05" ∷ codes "04" ∷ codes "06" ∷ codes "07" ∷ codes "probe" ∷ []

abbrev pub probe : ℕ
probe = length signals - 1

unfoldable pub find : List Field → Bytes → Option Field
find [] key = none
find (f ∷ fs) key = if equal f.key key then some f else find fs key

-- strspn(text, "0123456789")
unfoldable pub span_digits : Bytes → ℕ
span_digits [] = 0
span_digits (c ∷ cs) = if is_digit c then suc (span_digits cs) else 0

-- strtoull(text, NULL, 10) of a text that starts with a digit
unfoldable pub number_at : Bytes → ℕ
number_at text = signed false (read_digits 10 0 text 0).1

abbrev pub unit_secs : ℕ → ℕ
unit_secs unit = if unit == b's' then 1 else if unit == b'm' then 60 else 3600

-- What stands behind the minus sign, `d` digits and a unit.
unfoldable pub before_now : Bytes → ℕ → ℕ → Option ℕ
before_now text d now =
    let unit = get_or text (1 + d) 0 in
    let secs = number_at (drop 1 text) * unit_secs unit % 2 ^ 64 in
    if ltb d 1 || ltb 5 d
    then none
    else if not (unit == b's' || (unit == b'm' || unit == b'h')) || ltb (2 + d) (length text)
    then none
    else if ltb now secs
    then none
    else some (now - secs)

unfoldable pub when_text : Bytes → ℕ → Option ℕ
when_text text now =
    if equal text (codes "now")
    then some now
    else before_now text (if get_or text 0 0 == b'-' then span_digits (drop 1 text) else 0) now

unfoldable pub when_field : Bytes → ℕ → Option Field → Option ℕ
when_field dflt now none = when_text dflt now
when_field dflt now (some f) = elim f.type [
  | str ↦ when_text f.val now
  | num ↦
      if ltb 12 (length f.val) || not (span_digits f.val == length f.val)
      then none
      else some (number_at f.val)
  | null ↦ none
]

unfoldable pub parse_when : Line → Bytes → Bytes → ℕ → Option ℕ
parse_when req key dflt now = when_field dflt now (find req.f key)

-- The place of a signal: the loop over the table ends at its length if it has none.
unfoldable pub signal_at : Bytes → List Bytes → ℕ
signal_at pid [] = 0
signal_at pid (s ∷ ss) = if equal s pid then 0 else suc (signal_at pid ss)

-- A sample's line. The probe drops out for a minute.
abbrev pub sample_line : Floats → ℕ → ℕ → Bytes
sample_line fl k t = join (
    codes "sample pid=\""
    ∷ get_or signals k []
    ∷ codes "\" t_s="
    ∷ decimal t
    ∷ codes " value="
    ∷ (if k == probe && ltb (t % 900) 60 then codes "null" else fl.value_text k t)
    ∷ synth_end
    ∷ [])

-- The loop over the times; `fuel` bounds its rounds.
unfoldable pub sample_lines : Floats → ℕ → ℕ → ℕ → ℕ → ℕ → ℕ → Out → Out
sample_lines fl cap k step to zero t o = o
sample_lines fl cap k step to (suc fuel) t o = elim (leb t to) [
  | false ↦ o
  | true ↦
      sample_lines fl cap k step to fuel ((t + step) % 2 ^ 64) (outf cap o (sample_line fl k t))
]

abbrev pub step_of : ℕ → ℕ → ℕ
step_of from to = (to - from) / max_samples + 1

abbrev pub first_time : ℕ → ℕ → ℕ
first_time from step = (from + step - 1) % 2 ^ 64 / step * step % 2 ^ 64

-- Every sample takes a round, and the end of the loop one more.
abbrev pub sample_rounds : ℕ
sample_rounds = max_samples + 1

unfoldable pub reply_window : Floats → ℕ → ℕ → ℕ → ℕ → Out → Out
reply_window fl cap k from to o =
    let step = step_of from to in
    if leb to from || ltb max_window_s (to - from)
    then reply_err cap (codes "usage") (codes "window must be 1 to 3600 seconds") o
    else outf cap (sample_lines fl cap k step to sample_rounds (first_time from step) o) ok_line

unfoldable pub on_times : Floats → ℕ → ℕ → Out → Option ℕ → Option ℕ → Out
on_times fl cap k o none to = reply_err cap (codes "usage") (codes "bad from or to") o
on_times fl cap k o (some from) none = reply_err cap (codes "usage") (codes "bad from or to") o
on_times fl cap k o (some from) (some to) = reply_window fl cap k from to o

unfoldable pub on_signal : Floats → Synth → ℕ → Line → Out → ℕ → Out
on_signal fl s cap req o k =
    if k == length signals
    then reply_err cap (codes "unknown_pid") (codes "no such pid") o
    else on_times fl cap k o (parse_when req (codes "from") (codes "-5m") s.now_s)
        (parse_when req (codes "to") (codes "now") s.now_s)

unfoldable pub on_pid : Floats → Synth → ℕ → Line → Out → Option Field → Out
on_pid fl s cap req o none = reply_err cap (codes "usage") (codes "series needs a pid") o
on_pid fl s cap req o (some f) = elim f.type [
  | str ↦ on_signal fl s cap req o (signal_at f.val signals)
  | num ↦ reply_err cap (codes "usage") (codes "series needs a pid") o
  | null ↦ reply_err cap (codes "usage") (codes "series needs a pid") o
]

unfoldable pub reply_series : Floats → Synth → ℕ → Line → Out → Out
reply_series fl s cap req o = on_pid fl s cap req o (find req.f (codes "pid"))

unfoldable pub reply_verb : Floats → Synth → ℕ → Line → Out → Out
reply_verb fl s cap req o =
    if equal req.tag (codes "status")
    then reply_status fl s cap o
    else if equal req.tag (codes "verdicts")
    then reply_verdicts s cap o
    else if equal req.tag (codes "faults")
    then reply_faults s cap o
    else if equal req.tag (codes "series")
    then reply_series fl s cap req o
    else if equal req.tag (codes "baseline")
    then reply_err cap (codes "unavailable") (codes "baseline is not served yet") o
    else reply_err cap (codes "unknown_verb") (codes "no such verb") o

unfoldable pub reply_parsed : Floats → Synth → ℕ → Parsed → Out → Out
reply_parsed fl s cap (record_line req) o = reply_verb fl s cap req o
reply_parsed fl s cap Kv.ok_line o = reply_err cap (codes "usage") (codes "malformed request") o
reply_parsed fl s cap (Kv.err_line l) o =
    reply_err cap (codes "usage") (codes "malformed request") o
reply_parsed fl s cap bad o = reply_err cap (codes "usage") (codes "malformed request") o

-- `none` is -1.
unfoldable pub whole : Out → Option Bytes
whole o = if o.over then none else some o.text

unfoldable pub synth_query : Floats → Synth → Bytes → ℕ → Option Bytes
synth_query fl s request cap =
    whole (reply_parsed fl s cap (kv_parse_line request) (record { text = []; over = false }))
