-- ===== src/Base/Result.antt =====
-- The outcome of a call: a value, a failed assertion (`BUG_ON` of linux/bug.h is `assert`, which
-- ends the program), or a loop that ran through the fuel of the model.
use mathlib.Core.Bool.{Bool, true, false}

pub data Outcome {ℓ} (A : Type ℓ) : Type ℓ where
  ok : A → Outcome A
  abort : Outcome A
  no_fuel : Outcome A

infixl 5 ◌>>=◌ ◌>>◌
abbrev pub ◌>>=◌ {ℓ κ} : {A : Type ℓ} {B : Type κ} → Outcome A → (A → Outcome B) → Outcome B
ok a >>= f = f a
abort >>= f = abort
no_fuel >>= f = no_fuel

abbrev pub ◌>>◌ {ℓ} : {B : Type ℓ} → Outcome (Unit {0}) → Outcome B → Outcome B
m >> k = m >>= λ _. k

abbrev pub assert : Bool → Outcome (Unit {0})
assert true = ok tt
assert false = abort

-- The value satisfies `P`, if there is one.
abbrev pub Ensures {ℓ} : {A : Type ℓ} → (A → Type 0) → Outcome A → Type 0
Ensures P (ok a) = P a
Ensures P abort = Unit
Ensures P no_fuel = Unit

-- There is a value, and it satisfies `P`.
abbrev pub Returns {ℓ} : {A : Type ℓ} → (A → Type 0) → Outcome A → Type 0
Returns P (ok a) = P a
Returns P abort = ⊥
Returns P no_fuel = ⊥

module _ {ℓ κ} {A : Type ℓ} {B : Type κ} (P : A → Type 0) (Q : B → Type 0) where
  pub bind-Ensures :
      (m : Outcome A) (f : A → Outcome B)
      → Ensures P m
      → ((a : A) → P a → Ensures Q (f a))
      → Ensures Q (m >>= f)
  bind-Ensures (ok a) f h k = k a h
  bind-Ensures abort f h k = tt
  bind-Ensures no_fuel f h k = tt

  pub bind-Returns :
      (m : Outcome A) (f : A → Outcome B)
      → Returns P m
      → ((a : A) → P a → Returns Q (f a))
      → Returns Q (m >>= f)
  bind-Returns (ok a) f h k = k a h
  bind-Returns abort f h k = absurd h
  bind-Returns no_fuel f h k = absurd h

module _ {ℓ κ} {A : Type ℓ} {B : Type κ} (Q : B → Type 0) where
  -- Where nothing is known of the first value.
  pub any-Ensures :
      (m : Outcome A) (f : A → Outcome B) → ((a : A) → Ensures Q (f a)) → Ensures Q (m >>= f)
  any-Ensures (ok a) f k = k a
  any-Ensures abort f k = tt
  any-Ensures no_fuel f k = tt

pub Ensures-mono {ℓ} :
    {A : Type ℓ} (P Q : A → Type 0) (m : Outcome A)
    → Ensures P m
    → ((a : A) → P a → Q a)
    → Ensures Q m
Ensures-mono P Q (ok a) h k = k a h
Ensures-mono P Q abort h k = tt
Ensures-mono P Q no_fuel h k = tt

pub Returns-mono {ℓ} :
    {A : Type ℓ} (P Q : A → Type 0) (m : Outcome A)
    → Returns P m
    → ((a : A) → P a → Q a)
    → Returns Q m
Returns-mono P Q (ok a) h k = k a h
Returns-mono P Q abort h k = absurd h
Returns-mono P Q no_fuel h k = absurd h

-- What is known of a value that there is.
pub both-Returns {ℓ} :
    {A : Type ℓ} (P Q : A → Type 0) (m : Outcome A)
    → Returns P m
    → Ensures Q m
    → Returns (λ a. P a × Q a) m
both-Returns P Q (ok a) h k = (h, k)
both-Returns P Q abort h k = absurd h
both-Returns P Q no_fuel h k = absurd h

pub Returns-Ensures {ℓ} : {A : Type ℓ} (P : A → Type 0) (m : Outcome A) → Returns P m → Ensures P m
Returns-Ensures P (ok a) h = h
Returns-Ensures P abort h = tt
Returns-Ensures P no_fuel h = tt
