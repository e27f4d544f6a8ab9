-- ===== src/Synth/Tests.antt =====
-- A series of the cabin probe, a refused request, and the theorems at them.
use cs370_term_project.Prelude.{ℕ, false, ◌*◌, ◌≡◌, none, some, [], ◌++◌, refl, arith, map}
use cs370_term_project.Prelude.Bytes.{Bytes}
use cs370_term_project.Text.{
  codes, equal, find_byte, place, print_digits, read_digits, digit_in, digit_value,
}
use cs370_term_project.Json.{
  is_number, skip_minus, skip_int, skip_digits, skip_fraction, skip_some_digits, skip_exponent,
}
use cs370_term_project.Kv.{
  all_ident, is_name, parse_fields, is_printable, parse_record, parse_head, kv_parse_line,
}
use cs370_term_project.Synth.{Synth, Floats, Out, outf, reply_err, synth_init, synth_set_time}
use cs370_term_project.Synth.Series.{
  span_digits, number_at, before_now, when_text, sample_line, sample_lines, reply_verb,
  reply_parsed, whole, synth_query, step_of, first_time,
}
use cs370_term_project.Synth.Lines.{put_lines}
use cs370_term_project.Synth.Records.{constant-IsNumber, IsFloats}
use cs370_term_project.Synth.Contract.{IsSource, synth_query-IsSource}
use cs370_term_project.Synth.Grid.{times, IsGrid, sample_lines-IsGrid}

abbrev some_floats : Floats
some_floats = record { cpu_text = λ k. codes "0.2"; value_text = λ k t. codes "-21.5" }

abbrev clock : Synth
clock = record { t0 = 1_000_000; now_s = 1_800_000_070 }

clock-synth_set_time : synth_set_time (synth_init 1_000_000) 1_800_000_070 ≡ clock
unfolding synth_set_time synth_init
clock-synth_set_time = refl

-- A signed time, a bad unit, and a time before the clock starts.
five_minutes : when_text (codes "-5m") 1000 ≡ some 700
unfolding when_text before_now span_digits number_at read_digits digit_in digit_value equal
five_minutes = refl

bad_unit : when_text (codes "-5d") 1000 ≡ none
unfolding when_text before_now span_digits number_at read_digits digit_in digit_value equal
bad_unit = refl

too_early : when_text (codes "-1h") 1000 ≡ none
unfolding when_text before_now span_digits number_at read_digits digit_in digit_value equal
too_early = refl

abbrev blank : Out
blank = record { text = []; over = false }

-- The probe comes back a minute after the quarter of an hour.
abbrev probe_samples : Bytes
probe_samples =
    codes "sample pid=\"probe\" t_s=1800000059 value=null src=\"synth\"\n"
    ++ codes "sample pid=\"probe\" t_s=1800000060 value=-21.5 src=\"synth\"\n"

probe_window :
    whole (sample_lines some_floats 4096 6 1 1_800_000_060 3 1_800_000_059 blank)
    ≡ some probe_samples
unfolding sample_lines outf whole print_digits
probe_window = refl

abbrev baseline_reply : Bytes
baseline_reply = codes "err unavailable baseline is not served yet\n"

baseline_query : synth_query some_floats clock (codes "baseline") 4096 ≡ some baseline_reply
unfolding synth_query reply_parsed reply_verb reply_err outf whole kv_parse_line parse_head
    parse_record is_printable is_name all_ident parse_fields equal find_byte place
baseline_query = refl

-- One byte too few for the reply and its NUL.
baseline_cut : synth_query some_floats clock (codes "baseline") 43 ≡ none
unfolding synth_query reply_parsed reply_verb reply_err outf whole kv_parse_line parse_head
    parse_record is_printable is_name all_ident parse_fields equal find_byte place
baseline_cut = refl

some_floats-IsFloats : IsFloats some_floats
unfolding is_number skip_minus skip_int skip_digits skip_fraction skip_some_digits skip_exponent
some_floats-IsFloats = record {
  cpu_ok = λ k h. constant-IsNumber (codes "0.2") (omega arith) refl (omega arith);
  value_ok = λ k t. constant-IsNumber (codes "-21.5") (omega arith) refl (omega arith);
}

abbrev series_request : Bytes
series_request = codes "series pid=\"0C\" from=\"-5m\" to=\"now\""

synth_query-IsSource_example : IsSource (synth_query some_floats clock series_request)
synth_query-IsSource_example =
    synth_query-IsSource some_floats clock series_request some_floats-IsFloats (omega arith)

sample_lines-IsGrid_example :
    (first count : ℕ) × IsGrid 1_799_996_470 1_800_000_070
      (step_of 1_799_996_470 1_800_000_070)
      first
      count
    × (sample_lines some_floats 65536 0
          (step_of 1_799_996_470 1_800_000_070)
          1_800_000_070
          301
          (first_time 1_799_996_470 (step_of 1_799_996_470 1_800_000_070))
          blank
        ≡ put_lines 65536
            (map (sample_line some_floats 0) (
              times
                (step_of 1_799_996_470 1_800_000_070)
                (first * step_of 1_799_996_470 1_800_000_070)
                count))
            blank)
sample_lines-IsGrid_example =
    sample_lines-IsGrid some_floats 65536 0 1_799_996_470 1_800_000_070 301 blank (omega arith)
      (omega arith) (omega arith) (omega arith)
