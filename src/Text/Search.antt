-- ===== src/Text/Search.antt =====
-- The place of a byte in a text whose front does not have it.
use cs370_term_project.Prelude.{
  ℕ, suc, ◌≡◌, ◌≢◌, none, some, [], ◌∷◌, ◌++◌, arith, refl, ◌∙◌, length, take, drop, take-append,
  take-length,
}
use cs370_term_project.Prelude.Bytes.{Bytes}
use cs370_term_project.Text.{find_byte, place}

abbrev pub Without : ℕ → Bytes → Type 0
Without c [] = Unit
Without c (x ∷ xs) = (x ≢ c) × Without c xs

pub Without-append : (c : ℕ) (xs ys : Bytes) → Without c xs → Without c ys → Without c (xs ++ ys)
Without-append c [] ys a b = b
Without-append c (x ∷ xs) ys (n, a) b = (n, Without-append c xs ys a b)

pub find_byte-here :
    (c : ℕ) (xs ys : Bytes) → Without c xs → find_byte c (xs ++ c ∷ ys) ≡ some (length xs)
unfolding find_byte place
find_byte-here c [] ys w = ground arith
find_byte-here c (x ∷ xs) ys (n, w) = ground (arith, find_byte-here c xs ys w)

pub find_byte-none : (c : ℕ) (xs : Bytes) → Without c xs → find_byte c xs ≡ none
unfolding find_byte place
find_byte-none c [] w = refl
find_byte-none c (x ∷ xs) (n, w) = ground (arith, find_byte-none c xs w)

pub take_first : (xs ys : Bytes) → take (length xs) (xs ++ ys) ≡ xs
take_first xs ys = take-append (length xs) xs ys (omega arith) ∙ take-length (length xs) xs refl

pub drop-suc : (xs ys : Bytes) (c : ℕ) → drop (suc (length xs)) (xs ++ c ∷ ys) ≡ ys
drop-suc [] ys c = refl
drop-suc (x ∷ xs) ys c = drop-suc xs ys c

pub drop_first : (xs ys : Bytes) → drop (length xs) (xs ++ ys) ≡ ys
drop_first [] ys = refl
drop_first (x ∷ xs) ys = drop_first xs ys
