-- ===== src/Prelude/Counting.antt =====
-- How many different numbers there are below a bound.
use Prim.Native.Nat.{ℕ, zero, suc, ◌+◌, ◌≤◌, ◌<◌}
use mathlib.Core.Path.{◌≡◌, refl}
use mathlib.Core.Logic.{◌≢◌}
use mathlib.Core.List.{List, [], ◌∷◌}
use native.Mathlib.Omega.{arith}
use decentis.Prelude.Lists.{length}
use decentis.Prelude.Tests.{ltb, ◌==◌, if◌then◌else◌}

abbrev pub AllBelow : ℕ → List ℕ → Type 0
AllBelow n [] = Unit {0}
AllBelow n (x ∷ xs) = (x < n) × AllBelow n xs

abbrev pub IsAbsent : ℕ → List ℕ → Type 0
IsAbsent n [] = Unit {0}
IsAbsent n (x ∷ xs) = (x ≢ n) × IsAbsent n xs

-- No number occurs twice.
abbrev pub AllDiffer : List ℕ → Type 0
AllDiffer [] = Unit {0}
AllDiffer (x ∷ xs) = IsAbsent x xs × AllDiffer xs

abbrev count_below : ℕ → List ℕ → ℕ
count_below n [] = 0
count_below n (x ∷ xs) = let rest = count_below n xs in if ltb x n then suc rest else rest

abbrev occurrences : ℕ → List ℕ → ℕ
occurrences n [] = 0
occurrences n (x ∷ xs) = let rest = occurrences n xs in if x == n then suc rest else rest

count_below-suc :
    (n : ℕ) (xs : List ℕ) → count_below (suc n) xs ≡ count_below n xs + occurrences n xs
count_below-suc n [] = refl
count_below-suc n (x ∷ xs) = ground (arith, count_below-suc n xs)

count_below-zero : (xs : List ℕ) → count_below 0 xs ≡ 0
count_below-zero [] = refl
count_below-zero (x ∷ xs) = ground (arith, count_below-zero xs)

count_below-AllBelow : (n : ℕ) (xs : List ℕ) → AllBelow n xs → count_below n xs ≡ length xs
count_below-AllBelow n [] below = refl
count_below-AllBelow n (x ∷ xs) below = ground (arith, below.0, count_below-AllBelow n xs below.1)

occurrences-IsAbsent : (n : ℕ) (xs : List ℕ) → IsAbsent n xs → occurrences n xs ≡ 0
occurrences-IsAbsent n [] absent = refl
occurrences-IsAbsent n (x ∷ xs) absent =
    ground (arith, absent.0, occurrences-IsAbsent n xs absent.1)

occurrences-AllDiffer : (n : ℕ) (xs : List ℕ) → AllDiffer xs → occurrences n xs ≤ 1
occurrences-AllDiffer n [] differ = omega arith
occurrences-AllDiffer n (x ∷ xs) differ =
    ground (arith, occurrences-IsAbsent x xs differ.0, occurrences-AllDiffer n xs differ.1)

count_below-le : (n : ℕ) (xs : List ℕ) → AllDiffer xs → count_below n xs ≤ n
count_below-le zero xs differ = omega (arith, count_below-zero xs)
count_below-le (suc n) xs differ =
    omega
      (arith, count_below-suc n xs, count_below-le n xs differ, occurrences-AllDiffer n xs differ)

-- There are no more than `n` different numbers below `n`.
pub length-AllDiffer : (n : ℕ) (xs : List ℕ) → AllBelow n xs → AllDiffer xs → length xs ≤ n
length-AllDiffer n xs below differ =
    omega (arith, count_below-AllBelow n xs below, count_below-le n xs differ)
