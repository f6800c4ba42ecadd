-- ===== src/Prelude/Xor.antt =====
-- `^` at variables: it undoes itself, and stays within a power of two.
use Prim.Native.Nat.{ℕ, zero, suc, ◌+◌, ◌*◌, ◌/◌, ◌%◌, ◌^◌, ◌<◌, differ, bit_xor, bit_xor-bitwise}
use mathlib.Core.Path.{◌≡◌, refl}
use native.Mathlib.Nat.{two-pow-succ}
use native.Mathlib.Omega.{arith}
use decentis.Prelude.Bits.{lowest_digit}

bit_xor-digit : (a b : ℕ) → bit_xor a b ≡ bit_xor (a / 2) (b / 2) * 2 + differ (a % 2) (b % 2)
bit_xor-digit zero b = simp bit_xor-bitwise (omega arith)
bit_xor-digit (suc a) b = simp bit_xor-bitwise (lowest_digit (λ y. y) differ a b)

differ_digit : (a b : ℕ) → a < 2 → b < 2 → (differ a b < 2) × (differ (differ a b) b ≡ a)
differ_digit zero zero ha hb = omega arith
differ_digit zero (suc zero) ha hb = omega arith
differ_digit zero (suc (suc b)) ha hb = absurd (omega arith)
differ_digit (suc zero) zero ha hb = omega arith
differ_digit (suc zero) (suc zero) ha hb = omega arith
differ_digit (suc zero) (suc (suc b)) ha hb = absurd (omega arith)
differ_digit (suc (suc a)) b ha hb = absurd (omega arith)

pub bit_xor-lt : (w a b : ℕ) → a < 2 ^ w → b < 2 ^ w → bit_xor a b < 2 ^ w
bit_xor-lt zero zero zero ha hb = omega arith
bit_xor-lt zero zero (suc b) ha hb = absurd (omega arith)
bit_xor-lt zero (suc a) b ha hb = absurd (omega arith)
bit_xor-lt (suc w) a b ha hb = omega (
  arith,
  bit_xor-digit a b,
  differ_digit (a % 2) (b % 2) (omega arith) (omega arith),
  two-pow-succ w,
  bit_xor-lt w (a / 2) (b / 2) (omega (arith, two-pow-succ w)) (omega (arith, two-pow-succ w)),
)

-- The mask is undone by the same mask, at every width.
pub bit_xor_undo : (w a b : ℕ) → a < 2 ^ w → b < 2 ^ w → bit_xor (bit_xor a b) b ≡ a
bit_xor_undo zero zero zero ha hb = refl
bit_xor_undo zero zero (suc b) ha hb = absurd (omega arith)
bit_xor_undo zero (suc a) b ha hb = absurd (omega arith)
bit_xor_undo (suc w) a b ha hb =
    let digits = differ_digit (a % 2) (b % 2) (omega arith) (omega arith) in
    let half : bit_xor a b / 2 ≡ bit_xor (a / 2) (b / 2) =
      omega (arith, bit_xor-digit a b, digits.0) in
    let last : bit_xor a b % 2 ≡ differ (a % 2) (b % 2) =
      omega (arith, bit_xor-digit a b, digits.0) in
    rw (bit_xor-digit (bit_xor a b) b, half, last, digits.1)
      (omega (
        arith,
        bit_xor_undo w (a / 2) (b / 2) (omega (arith, two-pow-succ w))
            (omega (arith, two-pow-succ w)),
      ))
