-- ===== src/Prelude/Bytes.antt =====
-- Little-endian integers in a list of bytes, as `memcpy` lays them out and reads them back.
use Prim.Native.Nat.{ℕ, zero, suc, ◌+◌, ◌*◌, ◌/◌, ◌%◌, ◌^◌, ◌≤◌, ◌<◌}
use mathlib.Core.Path.{◌≡◌, refl, sym, ap, ap₂, ◌∙◌}
use mathlib.Core.List.{List, [], ◌∷◌, ◌++◌}
use native.Mathlib.Omega.{arith}
use native.Mathlib.Nat.{pow-suc}
use package.cs370_term_project.Prelude.Lists.{
  length, take, drop, length-take, length-drop, take-append, drop-append, drop-drop,
  take-append-drop,
}

-- A byte is a number; whether it is below 256 is stated where it matters.
abbrev pub Bytes : Type 0
Bytes = List ℕ

-- The `k` bytes of `v`, lowest first; what does not fit is cut off.
abbrev pub le : ℕ → ℕ → Bytes
le zero v = []
le (suc k) v = v % 256 ∷ le k (v / 256)

abbrev pub unle : Bytes → ℕ
unle [] = 0
unle (b ∷ bs) = b + 256 * unle bs

-- The `k`-byte integer at an offset.
abbrev pub field : ℕ → ℕ → Bytes → ℕ
field off k buf = unle (take k (drop off buf))

pub length-le : (k v : ℕ) → length (le k v) ≡ k
length-le zero v = refl
length-le (suc k) v = ap suc (length-le k (v / 256))

pub unle-le : (k v : ℕ) → v < 256 ^ k → unle (le k v) ≡ v
unle-le zero v h = omega arith
unle-le (suc k) v h =
    omega (arith, pow-suc 256 k, unle-le k (v / 256) (omega (arith, pow-suc 256 k)))

-- An integer that stands in front of a rest is read back.
pub unle-take-le : (k v : ℕ) (rest : Bytes) → v < 256 ^ k → unle (take k (le k v ++ rest)) ≡ v
unle-take-le zero v rest h = omega arith
unle-take-le (suc k) v rest h =
    omega (arith, pow-suc 256 k, unle-take-le k (v / 256) rest (omega (arith, pow-suc 256 k)))

abbrev pub AreBytes : Bytes → Type 0
AreBytes [] = Unit
AreBytes (b ∷ bs) = (b < 256) × AreBytes bs

pub AreBytes-le : (k v : ℕ) → AreBytes (le k v)
AreBytes-le zero v = tt
AreBytes-le (suc k) v = (omega arith, AreBytes-le k (v / 256))

pub AreBytes-append : (xs ys : Bytes) → AreBytes xs → AreBytes ys → AreBytes (xs ++ ys)
AreBytes-append [] ys hx hy = hy
AreBytes-append (x ∷ xs) ys hx hy = (hx.0, AreBytes-append xs ys hx.1 hy)

pub AreBytes-take : (n : ℕ) (xs : Bytes) → AreBytes xs → AreBytes (take n xs)
AreBytes-take zero xs h = tt
AreBytes-take (suc n) [] h = tt
AreBytes-take (suc n) (x ∷ xs) h = (h.0, AreBytes-take n xs h.1)

pub AreBytes-drop : (n : ℕ) (xs : Bytes) → AreBytes xs → AreBytes (drop n xs)
AreBytes-drop zero xs h = h
AreBytes-drop (suc n) [] h = tt
AreBytes-drop (suc n) (x ∷ xs) h = AreBytes-drop n xs h.1

-- Bytes that were read as an integer are written back the same.
pub le-unle : (k : ℕ) (bs : Bytes) → k ≡ length bs → AreBytes bs → le k (unle bs) ≡ bs
le-unle zero [] e h = refl
le-unle zero (b ∷ bs) e h = absurd (omega arith)
le-unle (suc k) [] e h = absurd (omega arith)
le-unle (suc k) (b ∷ bs) e h =
    ap₂ ◌∷◌ (omega (arith, h.0)) (ap (le k) (omega (arith, h.0)) ∙ le-unle k bs (omega arith) h.1)

-- A field that lies inside a buffer is not changed by what follows it.
pub field-append :
    (off k : ℕ) (xs ys : Bytes) → off + k ≤ length xs → field off k (xs ++ ys) ≡ field off k xs
field-append off k xs ys h = ap unle (
    ap (take k) (drop-append off xs ys (omega arith))
    ∙ take-append k (drop off xs) ys (omega (arith, length-drop off xs)))

pub length-field :
    (off k : ℕ) (xs : Bytes) → off + k ≤ length xs → length (take k (drop off xs)) ≡ k
length-field off k xs h = omega (arith, length-take k (drop off xs), length-drop off xs)

-- A field that is written back in front of what followed it restores the buffer.
pub le-field :
    (off k : ℕ) (xs rest : Bytes)
    → AreBytes xs
    → off + k ≤ length xs
    → rest ≡ drop (off + k) xs
    → le k (field off k xs) ++ rest ≡ drop off xs
le-field off k xs rest b h e =
    ap₂ ◌++◌
      (le-unle k (take k (drop off xs)) (omega (arith, length-field off k xs h))
        (AreBytes-take k (drop off xs) (AreBytes-drop off xs b)))
      (e ∙ sym (drop-drop k off xs))
    ∙ take-append-drop k (drop off xs)

pub unle-lt : (k : ℕ) (bs : Bytes) → length bs ≤ k → AreBytes bs → unle bs < 256 ^ k
unle-lt zero [] l b = omega arith
unle-lt zero (x ∷ bs) l b = absurd (omega arith)
unle-lt (suc k) [] l b = omega (arith, pow-suc 256 k, unle-lt k [] (omega arith) tt)
unle-lt (suc k) (x ∷ bs) l b = omega (arith, pow-suc 256 k, b.0, unle-lt k bs (omega arith) b.1)

-- The field of `k` bytes is a number of `k` bytes.
pub field-lt : (off k : ℕ) (xs : Bytes) → AreBytes xs → field off k xs < 256 ^ k
field-lt off k xs b =
    unle-lt k (take k (drop off xs)) (omega (arith, length-take k (drop off xs)))
      (AreBytes-take k (drop off xs) (AreBytes-drop off xs b))
