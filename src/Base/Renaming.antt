-- ===== src/Base/Renaming.antt =====
-- `list_replace` of linux/list.h: one entry of a list without repetitions takes the place of another.
use Prim.Native.Nat.{ℕ}
use mathlib.Core.Path.{◌≡◌, refl}
use mathlib.Core.Bool.{false}
use mathlib.Core.Option.{Option, none, some}
use mathlib.Core.List.{List, [], ◌∷◌, ◌++◌}
use native.Mathlib.Omega.{arith}
use cma_pool_log.Base.Tests.{◌==◌, if◌then◌else◌}
use cma_pool_log.Base.Lists.{has, replace, after, head?, Distinct}

-- The entry that stands where `n` stood.
abbrev pub renamed : ℕ → ℕ → ℕ → ℕ
renamed old new n = if n == old then new else n

abbrev pub renamed? : ℕ → ℕ → Option ℕ → Option ℕ
renamed? old new none = none
renamed? old new (some n) = some (renamed old new n)

module _ (old new : ℕ) where
  pub has-replace :
      (q : ℕ) (xs : List ℕ)
      → Distinct xs
      → has new xs ≡ false
      → has q (replace old new xs)
        ≡ (if q == new then has old xs else if q == old then false else has q xs)
  has-replace q [] d h = ground arith
  has-replace q (x ∷ xs) d h = ground (arith, has-replace q xs, d, h)

  pub replace-Distinct :
      (xs : List ℕ) → Distinct xs → has new xs ≡ false → Distinct (replace old new xs)
  replace-Distinct [] d h = tt
  replace-Distinct (x ∷ xs) d h = ground (arith, has-replace x xs, replace-Distinct xs, d, h)

  pub replace_absent : (xs : List ℕ) → has old xs ≡ false → replace old new xs ≡ xs
  replace_absent [] h = refl
  replace_absent (x ∷ xs) h = ground (arith, replace_absent xs, h)

  pub head?-replace : (xs : List ℕ) → head? (replace old new xs) ≡ renamed? old new (head? xs)
  head?-replace [] = refl
  head?-replace (x ∷ xs) = ground arith

  pub replace-append :
      (xs ys : List ℕ)
      → replace old new (xs ++ ys)
        ≡ (if has old xs then replace old new xs ++ ys else xs ++ replace old new ys)
  replace-append [] ys = refl
  replace-append (x ∷ xs) ys = ground (arith, replace-append xs ys)

  -- What stood behind an entry stands there still, the new entry for the old one.
  pub after-replace :
      (n : ℕ) (xs : List ℕ)
      → Distinct xs
      → has new xs ≡ false
      → (n == new) ≡ false
      → after (renamed old new n) (replace old new xs) ≡ renamed? old new (after n xs)
  after-replace n [] d h a = refl
  after-replace n (x ∷ xs) d h a =
      ground (arith, after-replace n xs, head?-replace xs, replace_absent xs, d, h, a)
