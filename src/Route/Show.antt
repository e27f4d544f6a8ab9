-- ===== src/Route/Show.antt =====
-- What a handler leaves in its response, and the JSON of errors and of a source's records:
-- `set_text`, `set_error` and `records_to_json` of src/interface/route.c. A `Reply` is the status,
-- the type and the bytes of the body, whose count is the length that is set.
use cs370_term_project.Prelude.{
  ℕ, zero, suc, true, false, ◌||◌, Option, none, some, List, [], ◌∷◌, ◌++◌, ltb, if◌then◌else◌,
  length,
}
use cs370_term_project.Prelude.Bytes.{Bytes}
use cs370_term_project.Text.{codes, equal}
use cs370_term_project.Json.{Json, json_init, json_finish}
use cs370_term_project.Json.Calls.{Call, begins, ends, key, string, number, bool, null, calls}
use cs370_term_project.Kv.{
  Field, Line, Parsed, ValueType, str, num, record_line, ok_line, err_line, bad, kv_reply_next,
  kv_get,
}
use cs370_term_project.Kv

pub record Reply : Type 0 where
  pub status : ℕ
  pub ctype : Bytes
  pub text : Bytes

abbrev pub empty_500 : Reply
empty_500 = record { status = 500; ctype = codes "text/plain"; text = [] }

unfoldable pub set_text : ℕ → ℕ → Bytes → Bytes → Reply
set_text cap status ctype text =
    if ltb cap (length text)
    then empty_500
    else record { status = status; ctype = ctype; text = text }

-- A finished JSON text, or nothing where the writer failed.
unfoldable pub set_json : ℕ → Bytes → Option ℕ → Reply
set_json status text none = empty_500
set_json status text (some n) = record {
  status = status;
  ctype = codes "application/json";
  text = text;
}

abbrev pub error_calls : Bytes → Bytes → List Call
error_calls code reason =
    begins true
    ∷ key (some (codes "ok"))
    ∷ bool false
    ∷ key (some (codes "code"))
    ∷ string (some code)
    ∷ key (some (codes "reason"))
    ∷ string (some reason)
    ∷ ends true
    ∷ []

unfoldable pub set_error : ℕ → ℕ → Bytes → Bytes → Reply
set_error cap status code reason =
    let j = calls (json_init cap) (error_calls code reason) in set_json status j.buf (json_finish j)

unfoldable pub status_for_code : Bytes → ℕ
status_for_code code =
    if equal code (codes "usage")
    then 400
    else if equal code (codes "unknown_pid") || equal code (codes "unknown_verb")
    then 404
    else if equal code (codes "unavailable")
    then 503
    else 500

abbrev pub value_call : ValueType → Bytes → Call
value_call str val = string (some val)
value_call num val = number (some val)
value_call Kv.null val = null

unfoldable pub field_calls : List Field → List Call
field_calls [] = []
field_calls (f ∷ fs) = key (some f.key) ∷ value_call f.type f.val ∷ field_calls fs

abbrev pub record_calls : Line → List Call
record_calls line =
    begins true
    ∷ key (some (codes "tag"))
    ∷ string (some line.tag)
    ∷ (field_calls line.f ++ ends true ∷ [])

abbrev pub before : List Call → Option (List Call) → Option (List Call)
before cs none = none
before cs (some ds) = some (cs ++ ds)

-- A line of the reply; `none` where a field is called tag, `next` is the rest of the loop.
unfoldable pub on_record :
    (Bytes → Option (List Call)) → Option (Parsed × Bytes) → Option (List Call)
on_record next none = some []
on_record next (some (record_line line, rest)) = elim (kv_get line (codes "tag")) [
  | some v ↦ none
  | none ↦ before (record_calls line) (next rest)
]
on_record next (some (ok_line, rest)) = some []
on_record next (some (err_line line, rest)) = some []
on_record next (some (bad, rest)) = some []

-- The calls that the loop over the records makes on the writer.
unfoldable pub reply_calls : ℕ → Bytes → Option (List Call)
reply_calls zero text = some []
reply_calls (suc fuel) text = on_record (reply_calls fuel) (kv_reply_next text)

abbrev pub records_around : List Call → List Call
records_around records =
    begins true
    ∷ key (some (codes "ok"))
    ∷ bool true
    ∷ key (some (codes "records"))
    ∷ begins false
    ∷ (records ++ ends false ∷ ends true ∷ [])

-- The reply, or why it cannot be shown.
pub data Shown : Type 0 where
  shown : Reply → Shown
  not_shown : Bytes → Shown

unfoldable pub show_json : Json → Option ℕ → Shown
show_json j none = not_shown (codes "response did not fit")
show_json j (some n) = shown (set_json 200 j.buf (some n))

unfoldable pub show_records : ℕ → Option (List Call) → Shown
show_records cap none = not_shown (codes "source sent a field named tag")
show_records cap (some records) =
    let j = calls (json_init cap) (records_around records) in show_json j (json_finish j)

-- Every line takes at least its newline, so a round for each byte, and one for the end, is enough.
unfoldable pub records_to_json : ℕ → Bytes → Shown
records_to_json cap text = show_records cap (reply_calls (suc (length text)) text)
