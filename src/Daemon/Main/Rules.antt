-- ===== src/Daemon/Main/Rules.antt =====
-- Reasoning about the steps of `main`: what holds after a step that goes on, and what holds where
-- it fails.
use decentis.Prelude.{Bool, true, false, Option, some, none, ◌≡◌, refl}
use decentis.Daemon.Main.{World, Failure, Step, go, exit, M, ◌>>=◌, guard, or_exit}

abbrev pub Ends : {A : Type 0} → (A → World → Type 0) → (Failure → World → Type 0) → Step A → Type 0
Ends Q E (go a w) = Q a w
Ends Q E (exit e w) = E e w

module _ {A : Type 0} (E : Failure → World → Type 0) where
  pub bind-Ends :
      {B : Type 0} (Q : B → World → Type 0) (m : M A) (k : A → M B) (w : World)
      → Ends (λ a w1. Ends Q E (k a w1)) E (m w)
      → Ends Q E ((m >>= k) w)
  bind-Ends Q m k w h = by_step (m w) h
    where
      by_step :
          (s : Step A)
          → Ends (λ a w1. Ends Q E (k a w1)) E s
          → Ends Q E (elim s [ go a w' ↦ k a w' | exit e w' ↦ exit e w' ])
      by_step (go a w1) h = h
      by_step (exit e w1) h = h

  pub or_exit-Ends :
      (Q : A → World → Type 0) (e : Failure) (o : Option A) (w : World)
      → ((a : A) → o ≡ some a → Q a w)
      → E e w
      → Ends Q E (or_exit e o w)
  or_exit-Ends Q e none w goes fails = fails
  or_exit-Ends Q e (some a) w goes fails = goes a refl

pub guard-Ends :
    (E : Failure → World → Type 0) (Q : Unit {0} → World → Type 0) (b : Bool) (e : Failure)
    (w : World)
    → (b ≡ true → Q tt w)
    → (b ≡ false → E e w)
    → Ends Q E (guard b e w)
guard-Ends E Q true e w goes fails = goes refl
guard-Ends E Q false e w goes fails = fails refl

-- A step may do no more than promised.
Ends-weaken :
    {A : Type 0} (E : Failure → World → Type 0) (P Q : A → World → Type 0) (s : Step A)
    → ((a : A) (w : World) → P a w → Q a w)
    → Ends P E s
    → Ends Q E s
Ends-weaken E P Q (go a w) sub h = sub a w h
Ends-weaken E P Q (exit e w) sub h = h
