-- ===== src/FileRelay/Manifest/Count.antt =====
-- The count of chunks covers the file, up to the largest count that a `u32` holds.
use decentis.Prelude.{
  ℕ, zero, suc, ◌+◌, ◌-◌, ◌*◌, ◌^◌, ◌≤◌, ◌<◌, ltb, ◌≡◌, arith, ◌↔◌, ap, Bool-cases, inl, inr,
}
use native.Mathlib.Nat.{div-add-mod, two-pow-succ, one-le-pow}
use decentis.FileRelay.Manifest.{chunk_size, f64_step, round_half_even, u64_as_f64, count_chunks}

abbrev pub max_chunks : ℕ
max_chunks = 2 ^ 32 - 1

-- The largest file that `total_chunks` can count.
abbrev pub max_file_size : ℕ
max_file_size = max_chunks * chunk_size

f64_step-pos : (fuel step n : ℕ) → 0 < step → 0 < f64_step fuel step n
unfolding f64_step
f64_step-pos zero step n h = h
f64_step-pos (suc fuel) step n h = ground (arith, f64_step-pos fuel (2 * step) n (omega arith))

-- Below 2 ^ 53 the conversion is exact.
u64_as_f64-exact : (n : ℕ) → n < 2 ^ 53 → u64_as_f64 n ≡ n
unfolding u64_as_f64
u64_as_f64-exact n h = ground arith

-- Up to the largest file the count is the number of chunks that the bytes fill, the last one in
-- part: one chunk less would not hold them.
pub count_chunks_exact :
    (n : ℕ)
    → n ≤ max_file_size
    → (n ≤ count_chunks n * chunk_size) × (count_chunks n * chunk_size < n + chunk_size)
unfolding count_chunks
count_chunks_exact n h = omega (arith, u64_as_f64-exact n (omega arith))

f64_step-le : (fuel step n : ℕ) → f64_step fuel step n ≤ 2 ^ fuel * step
unfolding f64_step
f64_step-le zero step n = omega arith
f64_step-le (suc fuel) step n = ground (
  arith,
  f64_step-le fuel (2 * step) n,
  ap (λ (t : ℕ). t * step) (two-pow-succ fuel),
  le_mul_pow fuel,
)
  where
    le_mul_pow : (k : ℕ) → step ≤ 2 ^ suc k * step
    le_mul_pow k = grind (arith, one-le-pow (suc k) 2)

-- Rounding moves a number by less than one step.
round_half_even-gt : (n step : ℕ) → 0 < step → n < round_half_even n step + step
unfolding round_half_even
round_half_even-gt n step h = grind (arith, div-add-mod n step)

u64_as_f64-ge : (n : ℕ) → 2 ^ 53 ≤ n → n < u64_as_f64 n + 2048
unfolding u64_as_f64
u64_as_f64-ge n h = ground (
  arith,
  round_half_even-gt n (f64_step 11 1 n) (f64_step-pos 11 1 n (omega arith)),
  f64_step-le 11 1 n,
)

-- A larger file gets the largest count.
count_chunks-saturates : (n : ℕ) → max_file_size < n → count_chunks n ≡ max_chunks
unfolding count_chunks
count_chunks-saturates n h = elim (Bool-cases (ltb n (2 ^ 53))) [
  | inl small ↦ omega (arith, u64_as_f64-exact n (ground arith))
  | inr large ↦ omega (arith, u64_as_f64-ge n (ground arith))
]

-- The chunks of a manifest hold the whole file exactly if it has at most 2 ^ 48 - 65536 bytes:
-- the rounding of `f64` loses none, and the cast to `u32` cuts off larger counts.
pub count_chunks-covers_iff : (n : ℕ) → (n ≤ count_chunks n * chunk_size) ↔ (n ≤ max_file_size)
count_chunks-covers_iff n = (covered_small, λ small. (count_chunks_exact n small).0)
  where
    covered_small : n ≤ count_chunks n * chunk_size → n ≤ max_file_size
    covered_small covered = elim (Bool-cases (ltb max_file_size n)) [
      | inl large ↦ omega (arith, count_chunks-saturates n (ground arith))
      | inr small ↦ ground arith
    ]
