-- ===== src/Base/Lists.antt =====
-- Lists of pointers: the sequences that a circular `list_head` list or an in-order walk stands for.
use Prim.Native.Nat.{ℕ, suc, ◌+◌}
use mathlib.Core.Path.{◌≡◌, refl}
use mathlib.Core.Bool.{Bool, true, false, ◌||◌}
use mathlib.Core.Option.{Option, none, some}
use mathlib.Core.List.{List, [], ◌∷◌, ◌++◌, reverse, reverse_aux}
use native.Mathlib.Omega.{arith}
use cma_pool_log.Base.Tests.{◌==◌, if◌then◌else◌}

module _ {ℓ} {A : Type ℓ} where
  abbrev pub length : List A → ℕ
  length [] = 0
  length (x ∷ xs) = suc (length xs)

  abbrev pub head? : List A → Option A
  head? [] = none
  head? (x ∷ xs) = some x

  abbrev pub get_or : Option A → A → A
  get_or none d = d
  get_or (some a) d = a

  pub length-append : (xs ys : List A) → length (xs ++ ys) ≡ length xs + length ys
  length-append [] ys = omega arith
  length-append (x ∷ xs) ys = omega (arith, length-append xs ys)

abbrev pub has : ℕ → List ℕ → Bool
has a [] = false
has a (x ∷ xs) = (a == x) || has a xs

-- `list_del` of the entry `a`.
abbrev pub remove : ℕ → List ℕ → List ℕ
remove a [] = []
remove a (x ∷ xs) = if a == x then xs else x ∷ remove a xs

-- `list_add(a, p)`: the entry `a` goes in just behind `p`.
abbrev pub insert_after : ℕ → ℕ → List ℕ → List ℕ
insert_after p a [] = []
insert_after p a (x ∷ xs) = if p == x then x ∷ a ∷ xs else x ∷ insert_after p a xs

-- `list_replace(old, new)`.
abbrev pub replace : ℕ → ℕ → List ℕ → List ℕ
replace old new [] = []
replace old new (x ∷ xs) = if old == x then new ∷ xs else x ∷ replace old new xs

abbrev pub tail {ℓ} : {A : Type ℓ} → List A → List A
tail [] = []
tail (x ∷ xs) = xs

-- The entry just behind `p`, if there is one.
abbrev pub after : ℕ → List ℕ → Option ℕ
after p [] = none
after p (x ∷ xs) = if p == x then head? xs else after p xs

-- The entry just before `a` in the list `q ∷ xs`.
abbrev pub before_from : ℕ → ℕ → List ℕ → Option ℕ
before_from a q [] = none
before_from a q (x ∷ xs) = if a == x then some q else before_from a x xs

abbrev pub before : ℕ → List ℕ → Option ℕ
before a [] = none
before a (x ∷ xs) = before_from a x xs

-- No entry stands twice.
abbrev pub Distinct : List ℕ → Type 0
Distinct [] = Unit
Distinct (x ∷ xs) = (has x xs ≡ false) × Distinct xs

pub has-append : (a : ℕ) (xs ys : List ℕ) → has a (xs ++ ys) ≡ (has a xs || has a ys)
has-append a [] ys = refl
has-append a (x ∷ xs) ys = ground (arith, has-append a xs ys)

pub has-remove_self : (a : ℕ) (xs : List ℕ) → Distinct xs → has a (remove a xs) ≡ false
has-remove_self a [] d = refl
has-remove_self a (x ∷ xs) d = ground (arith, has-remove_self a xs d.1)

pub has-remove :
    (a b : ℕ) (xs : List ℕ)
    → Distinct xs
    → has b (remove a xs) ≡ (if a == b then false else has b xs)
has-remove a b [] d = ground arith
has-remove a b (x ∷ xs) d = ground (arith, has-remove a b xs d.1)

pub remove-Distinct : (a : ℕ) (xs : List ℕ) → Distinct xs → Distinct (remove a xs)
remove-Distinct a [] d = tt
remove-Distinct a (x ∷ xs) d = ground (arith, remove-Distinct a xs d.1, has-remove a x xs d.1)

pub remove_absent : (a : ℕ) (xs : List ℕ) → has a xs ≡ false → remove a xs ≡ xs
remove_absent a [] h = refl
remove_absent a (x ∷ xs) h = ground (arith, remove_absent a xs)

-- What was put in behind `p` is taken out again.
pub remove-insert_after :
    (p a : ℕ) (xs : List ℕ) → has a xs ≡ false → remove a (insert_after p a xs) ≡ xs
remove-insert_after p a [] h = refl
remove-insert_after p a (x ∷ xs) h = ground (arith, remove-insert_after p a xs)

pub has-before_from :
    (a q p : ℕ) (xs : List ℕ) → before_from a q xs ≡ some p → has p (q ∷ xs) ≡ true
has-before_from a q p [] h = cc
has-before_from a q p (x ∷ xs) h = ground (arith, has-before_from a x p xs)

pub has_of_before_from : (a q p : ℕ) (xs : List ℕ) → before_from a q xs ≡ some p → has a xs ≡ true
has_of_before_from a q p [] h = cc
has_of_before_from a q p (x ∷ xs) h = ground (arith, has_of_before_from a x p xs)

pub remove-append :
    (a : ℕ) (xs ys : List ℕ)
    → remove a (xs ++ ys) ≡ (if has a xs then remove a xs ++ ys else xs ++ remove a ys)
remove-append a [] ys = refl
remove-append a (x ∷ xs) ys = ground (arith, remove-append a xs ys)

pub has-reverse_aux : (a : ℕ) (xs ys : List ℕ) → has a (reverse_aux xs ys) ≡ (has a xs || has a ys)
has-reverse_aux a [] ys = refl
has-reverse_aux a (x ∷ xs) ys = ground (arith, has-reverse_aux a xs (x ∷ ys))

pub has-reverse : (a : ℕ) (xs : List ℕ) → has a (reverse xs) ≡ has a xs
has-reverse a xs = ground (arith, has-reverse_aux a xs [])

Distinct-reverse_aux :
    (xs ys : List ℕ)
    → Distinct xs
    → Distinct ys
    → ((q : ℕ) → has q xs ≡ true → has q ys ≡ false)
    → Distinct (reverse_aux xs ys)
Distinct-reverse_aux [] ys dx dy apart = dy
Distinct-reverse_aux (x ∷ xs) ys dx dy apart =
    Distinct-reverse_aux xs (x ∷ ys) dx.1 (apart x (ground arith), dy)
      λ q h. ground (arith, apart q)

pub Distinct-reverse : (xs : List ℕ) → Distinct xs → Distinct (reverse xs)
Distinct-reverse xs d = Distinct-reverse_aux xs [] d tt (λ q h. refl)
