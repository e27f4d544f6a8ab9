-- ===== src/Synth/Contract.antt =====
-- Every request to the synthetic source has a whole reply that the client accepts.
use cs370_term_project.Prelude.{
  ℕ, ◌-◌, ◌^◌, ◌<◌, ◌≡◌, false, ◌||◌, Option, none, some, List, [], ◌∷◌, ◌++◌, ltb, leb, ◌==◌,
  arith, refl, sym, ap, ◌∙◌, length,
}
use cs370_term_project.Prelude.Bytes.{Bytes}
use cs370_term_project.Text.{codes, equal, find_byte, place, join}
use cs370_term_project.Kv.{
  ValueType, Field, Line, Parsed, record_line, bad, str, num, null, kv_parse_line, is_printable,
  parse_head, parse_err, with_reason, is_name, all_ident,
}
use cs370_term_project.Kv
use cs370_term_project.Synth.{Synth, Floats, Out, outf, reply_err, ok_line}
use cs370_term_project.Synth.Series.{
  find, parse_when, signals, signal_at, sample_lines, sample_rounds, step_of, first_time,
  max_window_s, reply_window, on_times, on_signal, on_pid, reply_series, reply_verb, reply_parsed,
  whole, synth_query,
}
use cs370_term_project.Synth.Lines.{put_lines, put_lines-append, put_lines-whole, fits}
use cs370_term_project.Synth.Records.{IsFloats}
use cs370_term_project.Synth.Reply.{ends_ok, IsReply-positive, IsChecked, IsReply-IsChecked}
use cs370_term_project.Synth.Answers.{
  Answers, err-Answers, append-IsReply, status-Answers, verdicts-Answers, faults-Answers,
  sample_list, sample_lines-same, sample_list-AreRecords, if-Answers,
}

abbrev err : Bytes → Bytes → ℕ → Out → Out
err code reason cap o = reply_err cap code reason o

malformed-Answers : Answers (err (codes "usage") (codes "malformed request"))
unfolding is_printable kv_parse_line parse_head parse_err with_reason is_name all_ident find_byte
    place equal
malformed-Answers = err-Answers _ _ (record { printable = refl; ends = tt })

no_pid-Answers : Answers (err (codes "usage") (codes "series needs a pid"))
unfolding is_printable kv_parse_line parse_head parse_err with_reason is_name all_ident find_byte
    place equal
no_pid-Answers = err-Answers _ _ (record { printable = refl; ends = tt })

unknown_pid-Answers : Answers (err (codes "unknown_pid") (codes "no such pid"))
unfolding is_printable kv_parse_line parse_head parse_err with_reason is_name all_ident find_byte
    place equal
unknown_pid-Answers = err-Answers _ _ (record { printable = refl; ends = tt })

bad_times-Answers : Answers (err (codes "usage") (codes "bad from or to"))
unfolding is_printable kv_parse_line parse_head parse_err with_reason is_name all_ident find_byte
    place equal
bad_times-Answers = err-Answers _ _ (record { printable = refl; ends = tt })

bad_window-Answers : Answers (err (codes "usage") (codes "window must be 1 to 3600 seconds"))
unfolding is_printable kv_parse_line parse_head parse_err with_reason is_name all_ident find_byte
    place equal
bad_window-Answers = err-Answers _ _ (record { printable = refl; ends = tt })

unavailable-Answers : Answers (err (codes "unavailable") (codes "baseline is not served yet"))
unfolding is_printable kv_parse_line parse_head parse_err with_reason is_name all_ident find_byte
    place equal
unavailable-Answers = err-Answers _ _ (record { printable = refl; ends = tt })

unknown_verb-Answers : Answers (err (codes "unknown_verb") (codes "no such verb"))
unfolding is_printable kv_parse_line parse_head parse_err with_reason is_name all_ident find_byte
    place equal
unknown_verb-Answers = err-Answers _ _ (record { printable = refl; ends = tt })

samples-Answers :
    (fl : Floats) (k from to : ℕ)
    → IsFloats fl
    → Answers (λ cap o.
      outf cap
        (sample_lines fl cap k
          (step_of from to)
          to
          sample_rounds
          (first_time from (step_of from to))
          o)
        ok_line)
samples-Answers fl k from to hf =
    let step : ℕ = step_of from to in
    let first : ℕ = first_time from step in
    let samples : List Bytes = sample_list fl k step to sample_rounds first in
    record {
      lines = samples ++ ok_line ∷ [];
      is_reply =
          append-IsReply samples (ok_line ∷ [])
            (sample_list-AreRecords fl k step to sample_rounds first hf (omega arith)) ends_ok;
      same = λ cap o.
          ap (put_lines cap (ok_line ∷ []))
            (sample_lines-same fl cap k step to sample_rounds first o)
          ∙ sym (put_lines-append cap samples (ok_line ∷ []) o);
    }

window-Answers :
    (fl : Floats) (k from to : ℕ) → IsFloats fl → Answers (λ cap. reply_window fl cap k from to)
unfolding reply_window
window-Answers fl k from to hf =
    if-Answers (leb to from || ltb max_window_s (to - from)) bad_window-Answers
      (samples-Answers fl k from to hf)

times-Answers :
    (fl : Floats) (k : ℕ) (from to : Option ℕ)
    → IsFloats fl
    → Answers (λ cap o. on_times fl cap k o from to)
unfolding on_times
times-Answers fl k none to hf = bad_times-Answers
times-Answers fl k (some from) none hf = bad_times-Answers
times-Answers fl k (some from) (some to) hf = window-Answers fl k from to hf

signal-Answers :
    (fl : Floats) (s : Synth) (req : Line) (k : ℕ)
    → IsFloats fl
    → Answers (λ cap o. on_signal fl s cap req o k)
unfolding on_signal
signal-Answers fl s req k hf = if-Answers (k == length signals) unknown_pid-Answers (
    times-Answers fl k (parse_when req (codes "from") (codes "-5m") s.now_s)
      (parse_when req (codes "to") (codes "now") s.now_s) hf)

pid-Answers :
    (fl : Floats) (s : Synth) (req : Line) (f : Option Field)
    → IsFloats fl
    → Answers (λ cap o. on_pid fl s cap req o f)
unfolding on_pid
pid-Answers fl s req none hf = no_pid-Answers
pid-Answers fl s req (some f) hf = go f.type
  where
    go :
        (type : ValueType)
        → Answers (λ cap o. elim type [
          | str ↦ on_signal fl s cap req o (signal_at f.val signals)
          | num ↦ reply_err cap (codes "usage") (codes "series needs a pid") o
          | null ↦ reply_err cap (codes "usage") (codes "series needs a pid") o
        ])
    go str = signal-Answers fl s req (signal_at f.val signals) hf
    go num = no_pid-Answers
    go null = no_pid-Answers

verb-Answers :
    (fl : Floats) (s : Synth) (req : Line)
    → IsFloats fl
    → s.now_s < 2 ^ 64
    → Answers (λ cap. reply_verb fl s cap req)
unfolding reply_verb reply_series
verb-Answers fl s req hf h = if-Answers (equal req.tag (codes "status")) (status-Answers fl s hf) (
    if-Answers (equal req.tag (codes "verdicts")) (verdicts-Answers s h) (
      if-Answers (equal req.tag (codes "faults")) (faults-Answers s h) (
        if-Answers (equal req.tag (codes "series"))
          (pid-Answers fl s req (find req.f (codes "pid")) hf)
          (if-Answers (equal req.tag (codes "baseline")) unavailable-Answers
            unknown_verb-Answers))))

parsed-Answers :
    (fl : Floats) (s : Synth) (p : Parsed)
    → IsFloats fl
    → s.now_s < 2 ^ 64
    → Answers (λ cap. reply_parsed fl s cap p)
unfolding reply_parsed
parsed-Answers fl s (record_line req) hf h = verb-Answers fl s req hf h
parsed-Answers fl s Kv.ok_line hf h = malformed-Answers
parsed-Answers fl s (Kv.err_line l) hf h = malformed-Answers
parsed-Answers fl s bad hf h = malformed-Answers

-- The contract of a source: one text for a request, which the client's check accepts up to its `ok`
-- or `err` line, and a buffer that it does not fit in gets -1.
pub record IsSource (answer : ℕ → Option Bytes) : Type 0 where
  pub text : Bytes
  pub checked : IsChecked text
  pub all_or_none : (cap : ℕ) → answer cap ≡ fits cap text

-- Whatever the request is, there is one text that the client's check accepts as a reply that ends in
-- `ok` or an `err` line: the source gives it to every buffer that is longer than the text, and -1 to
-- all others. The clock is below 2^64, and the floating-point texts are numbers of the format.
pub synth_query-IsSource :
    (fl : Floats) (s : Synth) (request : Bytes)
    → IsFloats fl
    → s.now_s < 2 ^ 64
    → IsSource (synth_query fl s request)
unfolding synth_query
synth_query-IsSource fl s request hf h =
    let a = parsed-Answers fl s (kv_parse_line request) hf h in
    record {
      text = join a.lines;
      checked = IsReply-IsChecked a.is_reply;
      all_or_none = λ cap.
          ap whole (a.same cap (record { text = []; over = false }))
          ∙ put_lines-whole cap a.lines (IsReply-positive a.is_reply);
    }
