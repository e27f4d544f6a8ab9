-- ===== src/Synth/EventLines.antt =====
-- The lines of verdicts, faults and samples are records.
use cs370_term_project.Prelude.{
  ℕ, zero, suc, ◌%◌, ◌^◌, ◌<◌, Bool, true, false, List, [], ◌∷◌, ltb, ◌==◌, if◌then◌else◌, arith,
  refl, length, ◌&&◌, get_or,
}
use cs370_term_project.Prelude.Bytes.{Bytes}
use cs370_term_project.Text.{codes, equal, join}
use cs370_term_project.Kv.{ValueType, num, null, Field, is_name, all_ident, has_key}
use cs370_term_project.Kv.Wire.{IsQuotable, IsNumber, null_text}
use cs370_term_project.Kv.Decimal.{print_number-IsNumber, length-print_number}
use cs370_term_project.Synth.{Floats, Synth, synth_end, decimal}
use cs370_term_project.Json.{
  is_number, skip_minus, skip_int, skip_digits, skip_fraction, skip_some_digits, skip_exponent,
}
use cs370_term_project.Synth.{active_verdict, ended_verdict, Fault, fault_line, ago}
use cs370_term_project.Synth.Series.{signals, probe, sample_line}
use cs370_term_project.Synth.Records.{
  IsRecord, record_line-IsRecord, quoted, number, constant-IsNumber, IsFloats,
}

residual-IsNumber : IsNumber (codes "3.4") × IsNumber (codes "2.6")
unfolding is_number skip_minus skip_int skip_digits skip_fraction skip_some_digits skip_exponent
residual-IsNumber = (
  constant-IsNumber (codes "3.4") (omega arith) refl (omega arith),
  constant-IsNumber (codes "2.6") (omega arith) refl (omega arith),
)

id-IsNumber : IsNumber (codes "1") × IsNumber (codes "2")
unfolding is_number skip_minus skip_int skip_digits skip_fraction skip_exponent
id-IsNumber = (
  constant-IsNumber (codes "1") (omega arith) refl (omega arith),
  constant-IsNumber (codes "2") (omega arith) refl (omega arith),
)

ago-lt : (now secs : ℕ) → now < 2 ^ 64 → ago now secs < 2 ^ 64
ago-lt now secs h = ground (arith, h)

abbrev active_fields : Synth → List Field
active_fields s =
    number (codes "id") (codes "1")
    ∷ quoted (codes "area") (codes "cooling")
    ∷ quoted (codes "sensors") (codes "coolant,intake")
    ∷ number (codes "residual") (codes "3.4")
    ∷ quoted (codes "state") (codes "active")
    ∷ number (codes "start_s") (decimal (ago s.now_s 420))
    ∷ record { key = codes "end_s"; val = null_text; type = null }
    ∷ quoted (codes "src") (codes "synth")
    ∷ []

pub active_verdict-IsRecord : (s : Synth) → s.now_s < 2 ^ 64 → IsRecord (active_verdict s)
unfolding is_name all_ident has_key equal
active_verdict-IsRecord s h =
    let t : ℕ = ago s.now_s 420 in
    record_line-IsRecord (codes "verdict") (active_fields s) refl refl refl
      (
        (refl, id-IsNumber.0),
        refl,
        (
          (refl, omega arith),
          refl,
          (
            (refl, omega arith),
            refl,
            (
              (refl, residual-IsNumber.0),
              refl,
              (
                (refl, omega arith),
                refl,
                (
                  (refl, print_number-IsNumber t (ago-lt s.now_s 420 h)),
                  refl,
                  ((refl, refl), refl, ((refl, omega arith), refl, tt)),
                ),
              ),
            ),
          ),
        ),
      )
      (omega arith) (omega (arith, length-print_number t))

abbrev ended_fields : Synth → List Field
ended_fields s =
    number (codes "id") (codes "2")
    ∷ quoted (codes "area") (codes "air_fuel")
    ∷ quoted (codes "sensors") (codes "ltft,maf")
    ∷ number (codes "residual") (codes "2.6")
    ∷ quoted (codes "state") (codes "ended")
    ∷ number (codes "start_s") (decimal (ago s.now_s 5400))
    ∷ number (codes "end_s") (decimal (ago s.now_s 4200))
    ∷ quoted (codes "src") (codes "synth")
    ∷ []

pub ended_verdict-IsRecord : (s : Synth) → s.now_s < 2 ^ 64 → IsRecord (ended_verdict s)
unfolding is_name all_ident has_key equal
ended_verdict-IsRecord s h =
    let t : ℕ = ago s.now_s 5400 in
    let e : ℕ = ago s.now_s 4200 in
    record_line-IsRecord (codes "verdict") (ended_fields s) refl refl refl
      (
        (refl, id-IsNumber.1),
        refl,
        (
          (refl, omega arith),
          refl,
          (
            (refl, omega arith),
            refl,
            (
              (refl, residual-IsNumber.1),
              refl,
              (
                (refl, omega arith),
                refl,
                (
                  (refl, print_number-IsNumber t (ago-lt s.now_s 5400 h)),
                  refl,
                  (
                    (refl, print_number-IsNumber e (ago-lt s.now_s 4200 h)),
                    refl,
                    ((refl, omega arith), refl, tt),
                  ),
                ),
              ),
            ),
          ),
        ),
      )
      (omega arith) (omega (arith, length-print_number t, length-print_number e))

abbrev fault_fields : Synth → Fault → List Field
fault_fields s f =
    number (codes "t_s") (decimal (ago s.now_s f.secs_ago))
    ∷ quoted (codes "kind") f.kind
    ∷ quoted (codes "source") f.source
    ∷ quoted (codes "code") f.code
    ∷ quoted (codes "detail") f.detail
    ∷ quoted (codes "src") (codes "synth")
    ∷ []

abbrev pub IsShortText : Bytes → Type 0
IsShortText t = IsQuotable t × (length t < 64)

pub record IsFault (f : Fault) : Type 0 where
  pub kind_ok : IsShortText f.kind
  pub source_ok : IsShortText f.source
  pub code_ok : IsShortText f.code
  pub detail_ok : IsShortText f.detail

pub fault_line-IsRecord :
    (s : Synth) (f : Fault) → s.now_s < 2 ^ 64 → IsFault f → IsRecord (fault_line s f)
unfolding is_name all_ident has_key equal
fault_line-IsRecord s f h w =
    let t : ℕ = ago s.now_s f.secs_ago in
    record_line-IsRecord (codes "fault") (fault_fields s f) refl refl refl
      (
        (refl, print_number-IsNumber t (ago-lt s.now_s f.secs_ago h)),
        refl,
        (
          (refl, (w.kind_ok.0, omega (arith, w.kind_ok.1))),
          refl,
          (
            (refl, (w.source_ok.0, omega (arith, w.source_ok.1))),
            refl,
            (
              (refl, (w.code_ok.0, omega (arith, w.code_ok.1))),
              refl,
              (
                (refl, (w.detail_ok.0, omega (arith, w.detail_ok.1))),
                refl,
                ((refl, omega arith), refl, tt),
              ),
            ),
          ),
        ),
      )
      (omega arith)
      (omega (arith, w.kind_ok.1, w.source_ok.1, w.code_ok.1, w.detail_ok.1, length-print_number t))

signal-IsShortText : (k : ℕ) → IsShortText (get_or signals k [])
signal-IsShortText zero = omega arith
signal-IsShortText (suc zero) = omega arith
signal-IsShortText (suc (suc zero)) = omega arith
signal-IsShortText (suc (suc (suc zero))) = omega arith
signal-IsShortText (suc (suc (suc (suc zero)))) = omega arith
signal-IsShortText (suc (suc (suc (suc (suc zero))))) = omega arith
signal-IsShortText (suc (suc (suc (suc (suc (suc zero)))))) = omega arith
signal-IsShortText (suc (suc (suc (suc (suc (suc (suc k))))))) = omega arith

abbrev sample_fields : ValueType → Bytes → ℕ → ℕ → List Field
sample_fields type v k t =
    quoted (codes "pid") (get_or signals k [])
    ∷ number (codes "t_s") (decimal t)
    ∷ record { key = codes "value"; val = v; type = type }
    ∷ quoted (codes "src") (codes "synth")
    ∷ []

pub sample_line-IsRecord :
    (fl : Floats) (k t : ℕ) → IsFloats fl → t < 2 ^ 64 → IsRecord (sample_line fl k t)
unfolding is_name all_ident has_key equal
sample_line-IsRecord fl k t hf h = go (k == probe && ltb (t % 900) 60)
  where
    tag : Bytes
    tag = codes "sample"

    go :
        (b : Bool)
        → IsRecord (
            join (
              codes "sample pid=\""
              ∷ get_or signals k []
              ∷ codes "\" t_s="
              ∷ decimal t
              ∷ codes " value="
              ∷ (if b then codes "null" else fl.value_text k t)
              ∷ synth_end
              ∷ []))
    go true =
        record_line-IsRecord tag (sample_fields null null_text k t) refl refl refl
          (
            (refl, ((signal-IsShortText k).0, omega (arith, (signal-IsShortText k).1))),
            refl,
            (
              (refl, print_number-IsNumber t h),
              refl,
              ((refl, refl), refl, ((refl, omega arith), refl, tt)),
            ),
          )
          (omega arith) (omega (arith, (signal-IsShortText k).1, length-print_number t))
    go false =
        record_line-IsRecord tag (sample_fields num (fl.value_text k t) k t) refl refl refl
          (
            (refl, ((signal-IsShortText k).0, omega (arith, (signal-IsShortText k).1))),
            refl,
            (
              (refl, print_number-IsNumber t h),
              refl,
              ((refl, hf.value_ok k t), refl, ((refl, omega arith), refl, tt)),
            ),
          )
          (omega arith)
          (omega (arith, (signal-IsShortText k).1, length-print_number t, (hf.value_ok k t).short))
