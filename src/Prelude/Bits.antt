-- ===== src/Prelude/Bits.antt =====
-- Single bits of a number, and what `|`, `&`, `^` and `<<` do to them at variables.
use Prim.Native.Nat.{
  ℕ, zero, suc, ◌+◌, ◌-◌, ◌*◌, ◌/◌, ◌%◌, ◌^◌, ◌≤◌, ◌<◌, min, max, digits, bitwise, bit_and, bit_or,
  bit_and-bitwise, bit_or-bitwise,
}
use mathlib.Core.Path.{◌≡◌, refl, sym}
use mathlib.Core.Logic.{◌≢◌}
use native.Mathlib.Nat.{two-pow-succ, one-le-pow}
use native.Mathlib.Omega.{arith}

-- Bit `k` of `n`, 0 or 1.
abbrev pub bit : ℕ → ℕ → ℕ
bit n zero = n % 2
bit n (suc k) = bit (n / 2) k

-- The three operations are one recursion on digits, with fuel that is always enough.
module _ (rest : ℕ → ℕ) (op : ℕ → ℕ → ℕ) where
  digits_fuel_irrelevant :
      (m n a b : ℕ) → a ≤ m → a ≤ n → digits rest op m a b ≡ digits rest op n a b
  digits_fuel_irrelevant zero zero a b hm hn = refl
  digits_fuel_irrelevant zero (suc n) zero b hm hn = refl
  digits_fuel_irrelevant zero (suc n) (suc a) b hm hn = absurd (omega arith)
  digits_fuel_irrelevant (suc m) zero zero b hm hn = refl
  digits_fuel_irrelevant (suc m) zero (suc a) b hm hn = absurd (omega arith)
  digits_fuel_irrelevant (suc m) (suc n) zero b hm hn = refl
  digits_fuel_irrelevant (suc m) (suc n) (suc a) b hm hn =
      rw (digits_fuel_irrelevant m n (suc a / 2) (b / 2) (omega arith) (omega arith))

  pub lowest_digit :
      (a b : ℕ)
      → bitwise rest op (suc a) b ≡ bitwise rest op (suc a / 2) (b / 2) * 2 + op (suc a % 2) (b % 2)
  lowest_digit a b =
      rw (digits_fuel_irrelevant a (suc a / 2) (suc a / 2) (b / 2) (omega arith) (omega arith))

bit_or-digit : (a b : ℕ) → bit_or a b ≡ bit_or (a / 2) (b / 2) * 2 + max (a % 2) (b % 2)
bit_or-digit zero b = simp bit_or-bitwise (omega arith)
bit_or-digit (suc a) b = simp bit_or-bitwise (lowest_digit (λ y. y) max a b)

bit_and-digit : (a b : ℕ) → bit_and a b ≡ bit_and (a / 2) (b / 2) * 2 + min (a % 2) (b % 2)
bit_and-digit zero b = simp bit_and-bitwise (omega arith)
bit_and-digit (suc a) b = simp bit_and-bitwise (lowest_digit (λ y. 0) min a b)

pub bit-le-one : (n k : ℕ) → bit n k ≤ 1
bit-le-one n zero = omega arith
bit-le-one n (suc k) = bit-le-one (n / 2) k

pub bit-bit_or : (k a b : ℕ) → bit (bit_or a b) k ≡ max (bit a k) (bit b k)
bit-bit_or zero a b = omega (arith, bit_or-digit a b)
bit-bit_or (suc k) a b =
    let half : bit_or a b / 2 ≡ bit_or (a / 2) (b / 2) = omega (arith, bit_or-digit a b) in
    rw half (bit-bit_or k (a / 2) (b / 2))

bit-zero : (k : ℕ) → bit 0 k ≡ 0
bit-zero zero = refl
bit-zero (suc k) = bit-zero k

bit-two_pow_self : (k : ℕ) → bit (2 ^ k) k ≡ 1
bit-two_pow_self zero = refl
bit-two_pow_self (suc k) =
    let half : 2 ^ suc k / 2 ≡ 2 ^ k = omega (arith, two-pow-succ k) in rw half (bit-two_pow_self k)

pub bit-two_pow_ne : (j k : ℕ) → j ≢ k → bit (2 ^ j) k ≡ 0
bit-two_pow_ne zero zero ne = absurd (ne refl)
bit-two_pow_ne zero (suc k) ne = bit-zero k
bit-two_pow_ne (suc j) zero ne = omega (arith, two-pow-succ j)
bit-two_pow_ne (suc j) (suc k) ne =
    let half : 2 ^ suc j / 2 ≡ 2 ^ j = omega (arith, two-pow-succ j) in
    rw half (bit-two_pow_ne j k (λ e. ne (omega arith)))

pub bit_and-zero : (n : ℕ) → bit_and n 0 ≡ 0
bit_and-zero n = by_fuel n n (omega arith)
  where
    by_fuel : (fuel n : ℕ) → n ≤ fuel → bit_and n 0 ≡ 0
    by_fuel zero zero h = refl
    by_fuel zero (suc n) h = absurd (omega arith)
    by_fuel (suc fuel) zero h = refl
    by_fuel (suc fuel) (suc n) h =
        omega (arith, bit_and-digit (suc n) 0, by_fuel fuel (suc n / 2) (omega arith))

-- A mask with the one bit `k` leaves that bit.
pub bit_and-two_pow : (k a : ℕ) → bit_and a (2 ^ k) ≡ bit a k * 2 ^ k
bit_and-two_pow zero a = omega (arith, bit_and-digit a 1, bit_and-zero (a / 2))
bit_and-two_pow (suc k) a =
    let half : 2 ^ suc k / 2 ≡ 2 ^ k = omega (arith, two-pow-succ k) in
    let even : 2 ^ suc k % 2 ≡ 0 = omega (arith, two-pow-succ k) in
    let step : bit_and a (2 ^ suc k) ≡ bit_and (a / 2) (2 ^ k) * 2 =
      rw (bit_and-digit a (2 ^ suc k), half, even) (omega arith) in
    rw (step, bit_and-two_pow k (a / 2), two-pow-succ k) (omega arith)

-- Bits above a power of two do not matter below it.
bit-add_mul_two_pow : (k w n q : ℕ) → k < w → bit (n + q * 2 ^ w) k ≡ bit n k
bit-add_mul_two_pow k zero n q h = absurd (omega arith)
bit-add_mul_two_pow zero (suc w) n q h = rw two-pow-succ (omega arith)
bit-add_mul_two_pow (suc k) (suc w) n q h =
    let half : (n + q * 2 ^ suc w) / 2 ≡ n / 2 + q * 2 ^ w = rw two-pow-succ (omega arith) in
    rw half (bit-add_mul_two_pow k w (n / 2) q (omega arith))

pub bit-shift_low : (s k n : ℕ) → k < s → bit (n * 2 ^ s) k ≡ 0
bit-shift_low s k n h =
    let e : n * 2 ^ s ≡ 0 + n * 2 ^ s = omega arith in
    rw e (rw (bit-add_mul_two_pow k s 0 n h) (bit-zero k))

pub bit-shift_high : (s k n : ℕ) → bit (n * 2 ^ s) (s + k) ≡ bit n k
bit-shift_high zero k n =
    let e : n * 2 ^ 0 ≡ n = omega arith in let e' : 0 + k ≡ k = omega arith in rw (e, e')
bit-shift_high (suc s) k n =
    let e : suc s + k ≡ suc (s + k) = omega arith in
    let half : n * 2 ^ suc s / 2 ≡ n * 2 ^ s = rw two-pow-succ (omega arith) in
    let halved : bit (n * 2 ^ suc s / 2) (s + k) ≡ bit n k = rw half (bit-shift_high s k n) in
    rw e halved

pub bit-mod_two_pow : (k w n : ℕ) → k < w → bit (n % 2 ^ w) k ≡ bit n k
bit-mod_two_pow k w n h =
    let split : n % 2 ^ w + n / 2 ^ w * 2 ^ w ≡ n = grind (arith, one-le-pow w 2) in
    rw split at (sym (bit-add_mul_two_pow k w (n % 2 ^ w) (n / 2 ^ w) h))

pub bit-one : (k : ℕ) → 0 < k → bit 1 k ≡ 0
bit-one k h = bit-two_pow_ne 0 k (omega arith)

pub bit-two_pow_eq : (j k : ℕ) → j ≡ k → bit (2 ^ j) k ≡ 1
bit-two_pow_eq j k e = rw e (bit-two_pow_self k)

-- The lowest `k` bits.
pub bit_and-low : (k n : ℕ) → n < 2 ^ k → bit_and n (2 ^ k - 1) ≡ n
bit_and-low zero n h = rw (bit_and-zero n) (omega arith)
bit_and-low (suc k) n h =
    let half : (2 ^ suc k - 1) / 2 ≡ 2 ^ k - 1 = omega (arith, two-pow-succ k) in
    let odd : (2 ^ suc k - 1) % 2 ≡ 1 = omega (arith, two-pow-succ k) in
    rw (bit_and-digit n (2 ^ suc k - 1), half, odd)
      (omega (arith, bit_and-low k (n / 2) (omega (arith, two-pow-succ k))))
