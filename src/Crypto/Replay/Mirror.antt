-- ===== src/Crypto/Replay/Mirror.antt =====
-- The bits of the bitmap against the history of accepted numbers.
use decentis.Prelude.{
  ℕ, zero, suc, ◌+◌, ◌-◌, ◌*◌, ◌%◌, ◌^◌, ◌≤◌, ◌<◌, bit_and, bit_or, Bool, true, false, List, [],
  ◌∷◌, ltb, ◌==◌, not, ◌≡◌, arith, Bool-cases, inl, inr, bit, bit-bit_or, bit-two_pow_eq,
  bit-two_pow_ne, bit_and-two_pow, bit-le-one, bit-shift_low, bit-shift_high, bit-mod_two_pow,
  bit-one,
}
use native.Mathlib.Nat.{one-le-pow}
use decentis.Crypto.Replay.{window_size, shift_and_set}
use decentis.Crypto.Replay.Window.{highest, contains, contains-le-highest}

abbrev pub bool_bit : Bool → ℕ
bool_bit true = 1
bool_bit false = 0

-- Bit `d` of the bitmap says whether the number `d` below the highest was accepted.
abbrev pub Mirrors : ℕ → ℕ → List ℕ → Type 0
Mirrors bitmap top h =
    (seq d : ℕ) → seq + d ≡ top → d < window_size → bit bitmap d ≡ bool_bit (contains h seq)

module _ (bitmap shift : ℕ) where
  bit-shift_and_set_zero : bit (shift_and_set bitmap shift) 0 ≡ 1
  unfolding shift_and_set
  bit-shift_and_set_zero = rw (bit-bit_or 0 (bitmap * 2 ^ shift % 2 ^ 128) 1) (omega arith)

  bit-shift_and_set :
      (k : ℕ) → 0 < k → k < 128 → bit (shift_and_set bitmap shift) k ≡ bit (bitmap * 2 ^ shift) k
  unfolding shift_and_set
  bit-shift_and_set k pos lt = omega (
    arith,
    bit-bit_or k (bitmap * 2 ^ shift % 2 ^ 128) 1,
    bit-mod_two_pow k 128 (bitmap * 2 ^ shift) lt,
    bit-one k pos,
  )

not_above : (h : List ℕ) (seq : ℕ) → highest h < seq → contains h seq ≡ false
not_above h seq lt = elim (Bool-cases (contains h seq)) [
  | inl e ↦ absurd (omega (arith, contains-le-highest h seq e))
  | inr e ↦ e
]

module _ (bitmap top : ℕ) (h : List ℕ) (is_top : top ≡ highest h) (m : Mirrors bitmap top h) where
  pub wipe-Mirrors : (seq : ℕ) → top + window_size ≤ seq → Mirrors 1 seq (seq ∷ h)
  wipe-Mirrors seq far q zero e lt = ground arith
  wipe-Mirrors seq far q (suc d) e lt =
      ground (arith, bit-one (suc d) (omega arith), not_above h q (omega arith))

  pub shift-Mirrors :
      (seq shift : ℕ)
      → top + shift ≡ seq
      → 0 < shift
      → Mirrors (shift_and_set bitmap shift) seq (seq ∷ h)
  shift-Mirrors seq shift up pos q zero e lt = ground (arith, bit-shift_and_set_zero bitmap shift)
  shift-Mirrors seq shift up pos q (suc d) e lt = elim (Bool-cases (ltb (suc d) shift)) [
    | inl low ↦ ground (
      arith,
      bit-shift_and_set bitmap shift (suc d) (omega arith) lt,
      bit-shift_low shift (suc d) bitmap (ground arith),
      not_above h q (ground arith),
    )
    | inr high ↦ shifted (suc d - shift) (ground arith)
  ]
    where
      shifted :
          (j : ℕ)
          → shift + j ≡ suc d
          → bit (shift_and_set bitmap shift) (suc d) ≡ bool_bit (contains (seq ∷ h) q)
      shifted j at = ground (
        arith,
        bit-shift_and_set bitmap shift (suc d) (omega arith) lt,
        (rw at at (bit-shift_high shift j bitmap)),
        m q j (omega arith) (omega arith),
      )

-- A fresh number below the highest sets its bit.
pub mark-Mirrors :
    (bitmap top seq delta : ℕ) (h : List ℕ)
    → seq + delta ≡ top
    → Mirrors bitmap top h
    → Mirrors (bit_or bitmap (2 ^ delta)) top (seq ∷ h)
mark-Mirrors bitmap top seq delta h at m q d e lt = elim (Bool-cases (d == delta)) [
  | inl same ↦ ground (
    arith,
    bit-bit_or d bitmap (2 ^ delta),
    bit-two_pow_eq delta d (ground arith),
    bit-le-one bitmap d,
  )
  | inr other ↦ ground (
    arith,
    bit-bit_or d bitmap (2 ^ delta),
    bit-two_pow_ne delta d (ground arith),
    bit-le-one bitmap d,
    m q d e lt,
  )
]

-- The test on the bitmap is the test on the history.
pub seen-iff-contains :
    (bitmap top seq delta : ℕ) (h : List ℕ)
    → seq + delta ≡ top
    → delta < window_size
    → Mirrors bitmap top h
    → (bit_and bitmap (2 ^ delta) == 0) ≡ not (contains h seq)
seen-iff-contains bitmap top seq delta h at lt m =
    rw (bit_and-two_pow delta bitmap, m seq delta at lt) (by_case (contains h seq))
  where
    by_case : (c : Bool) → (bool_bit c * 2 ^ delta == 0) ≡ not c
    by_case true = ground (arith, one-le-pow delta 2 (omega arith))
    by_case false = ground arith

pub bit-one-Mirrors : (seq : ℕ) → Mirrors 1 seq (seq ∷ [])
bit-one-Mirrors seq q zero e lt = ground arith
bit-one-Mirrors seq q (suc d) e lt = ground (arith, bit-one (suc d) (omega arith))
