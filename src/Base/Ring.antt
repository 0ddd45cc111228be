-- ===== src/Base/Ring.antt =====
-- Neighbours in a list without repetitions.
use Prim.Native.Nat.{ℕ}
use mathlib.Core.Path.{◌≡◌}
use mathlib.Core.Logic.{inl, inr}
use mathlib.Core.Bool.{true, false, ◌||◌}
use mathlib.Core.Option.{some}
use mathlib.Core.List.{List, [], ◌∷◌}
use native.Mathlib.Omega.{arith}
use cma_pool_log.Base.Tests.{◌==◌, Bool-cases, Option-cases, if◌then◌else◌}
use cma_pool_log.Base.Lists.{
  get_or, has, remove, insert_after, after, before_from, Distinct, has-before_from,
  has_of_before_from,
}

-- Every entry behind the first has one before it.
pub before_from-total :
    (a q : ℕ) (xs : List ℕ) → has a xs ≡ true → (p : ℕ) × (before_from a q xs ≡ some p)
before_from-total a q [] h = cc
before_from-total a q (x ∷ xs) h = elim (Bool-cases (a == x)) [
  | inl here ↦ (q, rw here)
  | inr there ↦ let (p, e) = before_from-total a x xs (ground arith) in (p, rw there e)
]

pub after-before_from :
    (a q p : ℕ) (xs : List ℕ)
    → before_from a q xs ≡ some p
    → Distinct (q ∷ xs)
    → after p (q ∷ xs) ≡ some a
after-before_from a q p [] h d = cc
after-before_from a q p (x ∷ xs) h d =
    ground (arith, after-before_from a x p xs, has-before_from a x p xs)

-- With an entry gone, the one before it is followed by the one behind it.
pub after-remove_before :
    (a q p : ℕ) (xs : List ℕ)
    → before_from a q xs ≡ some p
    → Distinct (q ∷ xs)
    → after p (q ∷ remove a xs) ≡ after a (q ∷ xs)
after-remove_before a q p [] h d = cc
after-remove_before a q p (x ∷ xs) h d = ground (
  arith,
  after-remove_before a x p xs,
  has-before_from a x p xs,
  has_of_before_from a q p (x ∷ xs),
)

pub before_from-ne :
    (a q p : ℕ) (xs : List ℕ) → before_from a q xs ≡ some p → Distinct (q ∷ xs) → (p == a) ≡ false
before_from-ne a q p [] h d = cc
before_from-ne a q p (x ∷ xs) h d =
    ground (arith, before_from-ne a x p xs, has_of_before_from a q p (x ∷ xs))

-- What was taken out from behind its predecessor is put back there.
pub insert_after-remove :
    (a q p : ℕ) (xs : List ℕ)
    → before_from a q xs ≡ some p
    → Distinct (q ∷ xs)
    → insert_after p a (q ∷ remove a xs) ≡ q ∷ xs
insert_after-remove a q p [] h d = cc
insert_after-remove a q p (x ∷ xs) h d = ground (
  arith,
  insert_after-remove a x p xs,
  has-before_from a x p xs,
  has_of_before_from a q p (x ∷ xs),
)

pub has-insert_after :
    (p a b : ℕ) (xs : List ℕ)
    → has p xs ≡ true
    → has b (insert_after p a xs) ≡ ((b == a) || has b xs)
has-insert_after p a b [] h = cc
has-insert_after p a b (x ∷ xs) h = ground (arith, has-insert_after p a b xs)

pub insert_after-Distinct :
    (p a : ℕ) (xs : List ℕ)
    → has p xs ≡ true
    → has a xs ≡ false
    → Distinct xs
    → Distinct (insert_after p a xs)
insert_after-Distinct p a [] h g d = cc
insert_after-Distinct p a (x ∷ xs) h g d = elim (Bool-cases (p == x)) [
  | inl e ↦ rw e (ground arith, (ground arith, d.1))
  | inr e ↦ rw e (
    ground (arith, has-insert_after p a x xs, d.0),
    insert_after-Distinct p a xs (ground arith) (ground arith) d.1,
  )
]

-- The entry that was put in stands between its two neighbours.
pub after-insert_after :
    (p a b : ℕ) (xs : List ℕ)
    → has p xs ≡ true
    → has a xs ≡ false
    → Distinct xs
    → after b (insert_after p a xs)
      ≡ (if b == p then some a else if b == a then after p xs else after b xs)
after-insert_after p a b [] h g d = cc
after-insert_after p a b (x ∷ []) h g d = ground arith
after-insert_after p a b (x ∷ y ∷ xs) h g d = ground (arith, after-insert_after p a b (y ∷ xs))

-- With an entry gone, every other one is followed as before, but for the one that stood before it.
pub after-remove :
    (a q p b : ℕ) (xs : List ℕ)
    → before_from a q xs ≡ some p
    → Distinct (q ∷ xs)
    → (b == a) ≡ false
    → after b (q ∷ remove a xs) ≡ (if b == p then after a (q ∷ xs) else after b (q ∷ xs))
after-remove a q p b [] h d n = cc
after-remove a q p b (x ∷ xs) h d n =
    ground
      (arith, after-remove a x p b xs, has-before_from a x p xs, has_of_before_from a q p (x ∷ xs))

pub has-get_after :
    (p d : ℕ) (xs : List ℕ) → has d xs ≡ true → has (get_or (after p xs) d) xs ≡ true
has-get_after p d xs h = elim (Option-cases (after p xs)) [
  | inl e ↦ rw e h
  | inr (a, e) ↦ rw e (has_of_after p a xs e)
]
  where
    has_of_after : (p a : ℕ) (xs : List ℕ) → after p xs ≡ some a → has a xs ≡ true
    has_of_after p a [] e = cc
    has_of_after p a (x ∷ []) e = ground arith
    has_of_after p a (x ∷ y ∷ xs) e = ground (arith, has_of_after p a (y ∷ xs))
