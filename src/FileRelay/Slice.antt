-- ===== src/FileRelay/Slice.antt =====
-- The slices of a file of a fixed size, which chunks are to the specification.
use native.Mathlib.Nat.{add-zero}
use decentis.Prelude.{
  ℕ, zero, suc, ◌+◌, ◌-◌, ◌*◌, ◌≤◌, ◌<◌, min, List, [], ◌∷◌, ◌++◌, length, take, drop, get_or, ◌≡◌,
  refl, sym, ◌∙◌, arith, length-take, length-drop, take-append-drop, drop-drop, drop-ge,
  get_or-take, get_or-drop,
}

-- Slice `i` of the bytes, in slices of `c` bytes; the last one may be shorter.
unfoldable pub slice : ℕ → List ℕ → ℕ → List ℕ
slice c content i = take c (drop (i * c) content)

pub length-slice :
    (c i : ℕ) (content : List ℕ) → length (slice c content i) ≡ min c (length content - i * c)
unfolding slice
length-slice c i content =
    omega (arith, length-take c (drop (i * c) content), length-drop (i * c) content)

-- The slices from `i` on, as many as `n`.
unfoldable pub slices : ℕ → List ℕ → ℕ → ℕ → List ℕ
slices c content i zero = []
slices c content i (suc n) = slice c content i ++ slices c content (suc i) n

pub slices_cover :
    (c : ℕ) (content : List ℕ) (i n : ℕ)
    → length content ≤ (i + n) * c
    → slices c content i n ≡ drop (i * c) content
unfolding slices slice
slices_cover c content i zero h = sym (drop-ge (i * c) content (rw (add-zero) at h))
slices_cover c content i (suc n) h =
    rw
      (
        slices_cover c content (suc i) n (rw (shift) at h),
        ← drop-drop (i * c) c (suc i * c) content (omega arith),
      )
      (take-append-drop c (drop (i * c) content))
  where
    shift : i + suc n ≡ suc i + n
    shift = omega arith

pub take_upto_length : (n c : ℕ) (xs : List ℕ) → n ≡ min c (length xs) → take n xs ≡ take c xs
take_upto_length zero zero xs e = refl
take_upto_length zero (suc c) [] e = refl
take_upto_length zero (suc c) (x ∷ xs) e = absurd (omega arith)
take_upto_length (suc n) zero xs e = absurd (omega arith)
take_upto_length (suc n) (suc c) [] e = absurd (omega arith)
take_upto_length (suc n) (suc c) (x ∷ xs) e = rw (take_upto_length n c xs (omega arith))

-- Chunk bytes at their place in the file.
pub get_or-slice :
    (c i j : ℕ) (source : List ℕ)
    → j < c
    → get_or (slice c source i) j 0 ≡ get_or source (i * c + j) 0
unfolding slice
get_or-slice c i j source h =
    get_or-take c j 0 (drop (i * c) source) h ∙ get_or-drop (i * c) j 0 source
