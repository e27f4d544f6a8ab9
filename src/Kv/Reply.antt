-- ===== src/Kv/Reply.antt =====
-- The loop over the lines of a reply ends, and says how the reply ended.
use cs370_term_project.Prelude.{
  ℕ, zero, suc, ◌+◌, ◌-◌, ◌<◌, ◌≡◌, Bool, true, false, Option, none, some, List, [], ◌∷◌, ◌++◌,
  arith, refl, ap, ap₂, ◌∙◌, length, take, drop, length-drop, get_or, ◌==◌, ◌&&◌, if◌then◌else◌,
  ltb, take-append, take-length, append_assoc, length-append, drop-append_ge,
}
use cs370_term_project.Prelude.Bytes.{Bytes}
use cs370_term_project.Text.{place, find_byte}
use cs370_term_project.Kv.{
  Line, Parsed, record_line, ok_line, err_line, bad, kv_parse_line, next_at, strip_cr,
  kv_reply_next, at_end, on_line, check_lines, kv_reply_check,
}

-- A line takes at least its newline.
kv_reply_next-lt :
    (text : Bytes) {p : Parsed} {rest : Bytes}
    → kv_reply_next text ≡ some (p, rest)
    → length rest < length text
unfolding kv_reply_next next_at find_byte
kv_reply_next-lt [] e = absurd (cc e)
kv_reply_next-lt (c ∷ cs) e = go (find_byte b'\n' (c ∷ cs)) e
  where
    go :
        {p : Parsed} {rest : Bytes} (o : Option ℕ)
        → next_at (c ∷ cs) o ≡ some (p, rest)
        → length rest < length (c ∷ cs)
    go none e = absurd (cc e)
    go {p} {rest} (some n) e =
        let same : drop (n + 1) (c ∷ cs) ≡ rest = cc e in
        omega (arith, ap length same, length-drop (n + 1) (c ∷ cs))

-- More rounds than bytes change nothing: `kv_reply_check` never stops for want of rounds.
pub check_lines_fuel :
    (f g : ℕ) (text : Bytes)
    → length text < f
    → length text < g
    → check_lines f text ≡ check_lines g text
unfolding check_lines on_line
check_lines_fuel zero g text p q = absurd (omega arith)
check_lines_fuel (suc f) zero text p q = absurd (omega arith)
check_lines_fuel (suc f) (suc g) text p q =
    go (kv_reply_next text) refl (λ rest l. check_lines_fuel f g rest (omega arith) (omega arith))
  where
    go :
        (o : Option (Parsed × Bytes))
        → kv_reply_next text ≡ o
        → ((rest : Bytes) → length rest < length text → check_lines f rest ≡ check_lines g rest)
        → on_line (check_lines f) o ≡ on_line (check_lines g) o
    go none e ih = refl
    go (some (record_line line, rest)) e ih = ih rest (kv_reply_next-lt text e)
    go (some (ok_line, rest)) e ih = refl
    go (some (err_line line, rest)) e ih = refl
    go (some (bad, rest)) e ih = refl

-- The bytes of a line: neither a newline nor a carriage return.
abbrev pub AreInLine : Bytes → Type 0
AreInLine [] = Unit
AreInLine (c ∷ cs) = ((c == b'\n') ≡ false) × ((c == b'\r') ≡ false) × AreInLine cs

find_byte-line :
    (l rest : Bytes) → AreInLine l → find_byte b'\n' (l ++ b'\n' ∷ rest) ≡ some (length l)
unfolding find_byte place
find_byte-line [] rest v = refl
find_byte-line (c ∷ cs) rest v = ap₂ place v.0 (find_byte-line cs rest v.2) ∙ ap some (omega arith)

last_in_line : (l : Bytes) (i : ℕ) → AreInLine l → (get_or l i 0 == b'\r') ≡ false
last_in_line [] i v = refl
last_in_line (c ∷ cs) zero v = v.1
last_in_line (c ∷ cs) (suc i) v = last_in_line cs i v.2

strip_cr_lem : (l : Bytes) → AreInLine l → strip_cr l ≡ l
strip_cr_lem l v = go (ltb 0 (length l)) _ (last_in_line l (length l - 1) v)
  where
    go :
        (some_byte cr : Bool)
        → cr ≡ false
        → (if some_byte && cr then take (length l - 1) l else l) ≡ l
    go true true e = absurd (cc e)
    go true false e = refl
    go false cr e = refl

kv_reply_next-line :
    (l rest : Bytes)
    → AreInLine l
    → kv_reply_next (l ++ b'\n' ∷ rest) ≡ some (kv_parse_line l, rest)
unfolding kv_reply_next next_at
kv_reply_next-line l rest v =
    ap (next_at (l ++ b'\n' ∷ rest)) (find_byte-line l rest v)
    ∙ ap₂ (λ (a b : Bytes). some (kv_parse_line (strip_cr a), b))
        (take-append (length l) l (b'\n' ∷ rest) (omega arith) ∙ take-length (length l) l refl)
        (drop-append_ge (length l + 1) l (b'\n' ∷ rest) (omega arith)
          ∙ ap (λ n. drop n (b'\n' ∷ rest)) {y = 1} (omega arith))
    ∙ ap (λ a. some (kv_parse_line a, rest)) (strip_cr_lem l v)

-- Lines, each with its newline.
abbrev pub text_of : List Bytes → Bytes
text_of [] = []
text_of (l ∷ ls) = l ++ b'\n' ∷ text_of ls

-- Lines that are records.
abbrev pub AreRecords : List Bytes → Type 0
AreRecords [] = Unit
AreRecords (l ∷ ls) =
    AreInLine l × ((line : Line) × (kv_parse_line l ≡ record_line line)) × AreRecords ls

append-text_of :
    (l : Bytes) (ls : List Bytes) (rest : Bytes)
    → text_of (l ∷ ls) ++ rest ≡ l ++ b'\n' ∷ (text_of ls ++ rest)
append-text_of l ls rest = append_assoc l (b'\n' ∷ text_of ls) rest

check_lines-record :
    (l rest : Bytes) (f : ℕ) {line : Line}
    → AreInLine l
    → kv_parse_line l ≡ record_line line
    → check_lines (suc f) (l ++ b'\n' ∷ rest) ≡ check_lines f rest
unfolding check_lines on_line
check_lines-record l rest f v e =
    ap (on_line (check_lines f)) (kv_reply_next-line l rest v ∙ ap (λ p. some (p, rest)) e)

records_lem :
    (ls : List Bytes) (rest : Bytes) (f : ℕ)
    → AreRecords ls
    → length (text_of ls ++ rest) < f
    → check_lines f (text_of ls ++ rest) ≡ check_lines (suc (length rest)) rest
records_lem [] rest f v l = check_lines_fuel f (suc (length rest)) rest l (omega arith)
records_lem (x ∷ ls) rest zero v l = absurd (omega arith)
records_lem (x ∷ ls) rest (suc f) v l =
    ap (check_lines (suc f)) (append-text_of x ls rest)
    ∙ check_lines-record x (text_of ls ++ rest) f v.0 v.1.1
    ∙ records_lem ls rest f v.2 (
        omega (
          arith,
          ap length (append-text_of x ls rest),
          length-append x (b'\n' ∷ (text_of ls ++ rest)),
        ))

-- The lines that end a reply.
abbrev pub Ends : Parsed → Type 0
Ends (record_line line) = ⊥
Ends ok_line = Unit
Ends (err_line line) = Unit
Ends bad = ⊥

check_lines-end :
    (t more : Bytes) (f : ℕ) (p : Parsed)
    → AreInLine t
    → kv_parse_line t ≡ p
    → Ends p
    → check_lines (suc f) (t ++ b'\n' ∷ more) ≡ at_end p more
unfolding check_lines on_line
check_lines-end t more f (record_line line) v e h = elim h [ ]
check_lines-end t more f ok_line v e h =
    ap (on_line (check_lines f)) (kv_reply_next-line t more v ∙ ap (λ p. some (p, more)) e)
check_lines-end t more f (err_line line) v e h =
    ap (on_line (check_lines f)) (kv_reply_next-line t more v ∙ ap (λ p. some (p, more)) e)
check_lines-end t more f bad v e h = elim h [ ]

-- Any number of record lines and then an `ok` or `err` line, each with its newline, are a whole reply,
-- which is that last line; with any byte behind it, they are a bad one.
pub kv_reply_check-text_of :
    (ls : List Bytes) (t : Bytes) (c : ℕ) (more : Bytes)
    → AreRecords ls
    → AreInLine t
    → Ends (kv_parse_line t)
    → (kv_reply_check (text_of ls ++ (t ++ b'\n' ∷ [])) ≡ some (kv_parse_line t))
      × (kv_reply_check (text_of ls ++ (t ++ b'\n' ∷ c ∷ more)) ≡ some bad)
unfolding kv_reply_check
kv_reply_check-text_of ls t c more v w h = (checked [], checked (c ∷ more))
  where
    checked :
        (behind : Bytes)
        → check_lines
            (suc (length (text_of ls ++ (t ++ b'\n' ∷ behind))))
            (text_of ls ++ (t ++ b'\n' ∷ behind))
          ≡ at_end (kv_parse_line t) behind
    checked behind =
        let rest = t ++ b'\n' ∷ behind in
        records_lem ls rest (suc (length (text_of ls ++ rest))) v (omega arith)
        ∙ check_lines-end t behind (length rest) (kv_parse_line t) w refl h
