-- ===== src/Route/Url.antt =====
-- From a URL's query to a line for the source: `check_keys`, `safe_value` and `build_series` of
-- src/interface/route.c.
use cs370_term_project.Prelude.{
  ℕ, suc, ◌-◌, Bool, true, false, not, ◌&&◌, ◌||◌, Option, none, some, List, [], ◌∷◌, ◌++◌, ltb,
  leb, ◌==◌, if◌then◌else◌, length, replicate, get_or, set,
}
use cs370_term_project.Prelude.Bytes.{Bytes}
use cs370_term_project.Text.{codes, equal, is_digit, all_bytes}
use cs370_term_project.Http.{http_query_get}
use cs370_term_project.Http.Request.{query_max}

abbrev pub value_max : ℕ
value_max = 24

abbrev pub line_max : ℕ
line_max = 160

abbrev pub series_keys : List Bytes
series_keys = codes "pid" ∷ codes "from" ∷ codes "to" ∷ []

-- strchr(":+.,_/-", c) != NULL; a value has no NUL in it.
abbrev pub is_mark : ℕ → Bool
is_mark c = c == b':' || c == b'+' || c == b'.' || c == b',' || c == b'_' || c == b'/' || c == b'-'

abbrev pub safe_byte : ℕ → Bool
safe_byte c = leb b'a' c && leb c b'z' || leb b'A' c && leb c b'Z' || is_digit c || is_mark c

unfoldable pub safe_value : Bytes → Bool
safe_value v = if length v == 0 || ltb value_max (length v) then false else all_bytes safe_byte v

-- The index of a key among those of a series, from `k` on.
unfoldable pub key_index : Bytes → List Bytes → ℕ → Option ℕ
key_index name [] k = none
key_index name (x ∷ xs) k = if equal x name then some k else key_index name xs (suc k)

-- The part of a pair in front of its first '='.
unfoldable pub name_of : Bytes → Bytes
name_of [] = []
name_of (c ∷ cs) = if c == b'=' then [] else c ∷ name_of cs

-- Bit i of `seen` is its i-th element.
pub data Checked : Type 0 where
  refuses : Bytes → Checked
  keys_seen : List Bool → Checked

unfoldable pub mark_key : List Bool → Option ℕ → Checked
mark_key seen none = refuses (codes "unknown query key")
mark_key seen (some k) =
    if get_or seen k false
    then refuses (codes "repeated query key")
    else keys_seen (set seen k true)

-- Behind a pair and its '&'; `next` is the rest of the loop.
unfoldable pub behind_pair : (List Bool → Checked) → Bytes → Checked → Checked
behind_pair next rest (refuses why) = refuses why
behind_pair next [] (keys_seen seen) = refuses (codes "empty query pair")
behind_pair next (c ∷ cs) (keys_seen seen) = next seen

-- The loop over the pairs, with the part of the pair that has been read.
unfoldable pub check_pairs : List Bool → Bytes → Bytes → Checked
check_pairs seen [] [] = keys_seen seen
check_pairs seen (p ∷ ps) [] = mark_key seen (key_index (name_of (p ∷ ps)) series_keys 0)
check_pairs seen pair (c ∷ cs) = elim (c == b'&') [
  | true ↦
      behind_pair (λ s. check_pairs s [] cs) cs
        (mark_key seen (key_index (name_of pair) series_keys 0))
  | false ↦ check_pairs seen (pair ++ c ∷ []) cs
]

unfoldable pub check_keys : Bytes → Checked
check_keys query = check_pairs (replicate 3 false) [] query

-- A line for the source, or the reason to refuse the URL.
pub data Built : Type 0 where
  why : Bytes → Built
  line : Bytes → Built

abbrev pub field_text : Bool → Bytes → Bytes → Bytes
field_text bare name v =
    if bare then b' ' ∷ (name ++ b'=' ∷ v) else b' ' ∷ (name ++ b'=' ∷ b'"' ∷ (v ++ b'"' ∷ []))

-- The next field, if it fits behind `text`; `next` is the rest of the loop.
unfoldable pub add_text : (Bytes → Built) → ℕ → Bytes → Bytes → Built
add_text next cap text more =
    if leb (cap - length text) (length more)
    then why (codes "query too long")
    else next (text ++ more)

unfoldable pub add_value : (Bytes → Built) → ℕ → ℕ → Bytes → Bytes → Option Bytes → Built
add_value next cap k name text none = why (codes "bad query value")
add_value next cap k name text (some v) =
    if not (safe_value v)
    then why (codes "unsafe query value")
    else add_text next cap text (field_text (not (k == 0) && all_bytes is_digit v) name v)

-- The loop over the keys from the `k`-th on.
unfoldable pub add_keys : Bytes → List Bool → ℕ → List Bytes → ℕ → Bytes → Built
add_keys query seen k [] cap text = line text
add_keys query seen k (name ∷ names) cap text = elim (get_or seen k false) [
  | false ↦ add_keys query seen (suc k) names cap text
  | true ↦
      add_value (add_keys query seen (suc k) names cap) cap k name text
        (http_query_get query name query_max)
]

unfoldable pub on_checked : Bytes → ℕ → Checked → Built
on_checked query cap (refuses reason) = why reason
on_checked query cap (keys_seen seen) = add_keys query seen 0 series_keys cap (codes "series")

unfoldable pub build_series : Bytes → ℕ → Built
build_series query cap = on_checked query cap (check_keys query)
