-- ===== src/Crypto/Replay/Window.antt =====
-- What the replay filter promises, without bitmap or shifts: a function of the numbers that were
-- accepted so far, newest first.
use decentis.Prelude.{
  ℕ, ◌-◌, ◌≤◌, max, Bool, true, false, not, ◌&&◌, ◌||◌, List, [], ◌∷◌, ltb, ◌==◌, if◌then◌else◌,
  ◌≡◌, refl, arith,
}
use decentis.Crypto.Replay.{window_size}

abbrev pub highest : List ℕ → ℕ
highest [] = 0
highest (x ∷ h) = max x (highest h)

abbrev pub contains : List ℕ → ℕ → Bool
contains [] seq = false
contains (x ∷ h) seq = x == seq || contains h seq

-- The first number is welcome. After that a number is welcome if it is above all accepted ones,
-- or less than 128 below the highest and not accepted yet.
abbrev pub admits : List ℕ → ℕ → Bool
admits [] seq = true
admits (x ∷ h) seq =
    ltb (highest (x ∷ h)) seq
    || ltb (highest (x ∷ h) - seq) window_size && not (contains (x ∷ h) seq)

abbrev pub record_accepted : List ℕ → ℕ → List ℕ
record_accepted h seq = if admits h seq then seq ∷ h else h

unfoldable pub run : List ℕ → List ℕ → List Bool
run h [] = []
run h (seq ∷ rest) = admits h seq ∷ run (record_accepted h seq) rest

-- The numbers with the answer `true`.
unfoldable pub accepted : List ℕ → List Bool → List ℕ
accepted (seq ∷ rest) (true ∷ answers) = seq ∷ accepted rest answers
accepted (seq ∷ rest) (false ∷ answers) = accepted rest answers
accepted _ _ = []

pub contains-le-highest : (h : List ℕ) (seq : ℕ) → contains h seq ≡ true → seq ≤ highest h
contains-le-highest [] seq c = ground arith
contains-le-highest (x ∷ h) seq c = ground (arith, contains-le-highest h seq)

-- A number that is in the history is never welcome again.
pub admits-contains : (h : List ℕ) (seq : ℕ) → contains h seq ≡ true → admits h seq ≡ false
admits-contains [] seq c = ground arith
admits-contains (x ∷ h) seq c = ground (arith, contains-le-highest (x ∷ h) seq c)

-- No number of the list occurs twice, and none of them is in `h`.
abbrev pub AllNew : List ℕ → List ℕ → Type 0
AllNew h [] = Unit {0}
AllNew h (seq ∷ rest) = (contains h seq ≡ false) × AllNew (seq ∷ h) rest

pub accepted-run-AllNew : (h seqs : List ℕ) → AllNew h (accepted seqs (run h seqs))
unfolding run accepted
accepted-run-AllNew h [] = tt
accepted-run-AllNew h (seq ∷ rest) =
    split (admits h seq) refl (accepted-run-AllNew (seq ∷ h) rest) (accepted-run-AllNew h rest)
  where
    fresh : (c : Bool) → contains h seq ≡ c → admits h seq ≡ true → contains h seq ≡ false
    fresh true e a = ground (arith, admits-contains h seq e)
    fresh false e a = e

    split :
        (b : Bool)
        → admits h seq ≡ b
        → AllNew (seq ∷ h) (accepted rest (run (seq ∷ h) rest))
        → AllNew h (accepted rest (run h rest))
        → AllNew h (accepted (seq ∷ rest) (b ∷ run (if b then seq ∷ h else h) rest))
    split true e new old = (fresh (contains h seq) refl e, new)
    split false e new old = old
