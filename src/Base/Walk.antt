-- ===== src/Base/Walk.antt =====
-- Walks through lists without repetitions, and their lengths.
use Prim.Native.Nat.{ℕ, suc, ◌+◌, ◌≤◌}
use mathlib.Core.Path.{◌≡◌}
use mathlib.Core.Logic.{inl, inr}
use mathlib.Core.Bool.{true}
use mathlib.Core.Option.{Option}
use mathlib.Core.List.{List, [], ◌∷◌, reverse, reverse_aux}
use native.Mathlib.Omega.{arith}
use cma_pool_log.Base.Tests.{◌==◌, Bool-cases}
use cma_pool_log.Base.Lists.{
  has, remove, length, head?, after, Distinct, has-remove, remove-Distinct,
}

-- The step leads from each entry to the one behind it, and from the last one to none.
abbrev pub Walks : (ℕ → Option ℕ) → List ℕ → Type 0
Walks next [] = Unit
Walks next (x ∷ xs) = (next x ≡ head? xs) × Walks next xs

pub Walks-after :
    (next : ℕ → Option ℕ) (xs : List ℕ)
    → Distinct xs
    → ((q : ℕ) → has q xs ≡ true → next q ≡ after q xs)
    → Walks next xs
Walks-after next [] d h = tt
Walks-after next (x ∷ xs) d h =
    (ground (arith, h x), Walks-after next xs d.1 λ q g. ground (arith, h q, d.0))

-- The rest of the walk from one of its entries.
pub record From (next : ℕ → Option ℕ) (x : ℕ) (xs : List ℕ) : Type 0 where
  pub rest : List ℕ
  pub walks : Walks next (x ∷ rest)
  pub short : length (x ∷ rest) ≤ length xs
  pub within : (q : ℕ) → has q (x ∷ rest) ≡ true → has q xs ≡ true

pub Walks-From :
    (next : ℕ → Option ℕ) (x : ℕ) (xs : List ℕ) → has x xs ≡ true → Walks next xs → From next x xs
Walks-From next x [] h w = cc
Walks-From next x (y ∷ ys) h w = elim (Bool-cases (x == y)) [
  | inl e ↦
      let same : x ≡ y = ground (arith, e) in
      record {
        rest = ys;
        walks = rw same w;
        short = omega arith;
        within = λ q g. ground (arith, g, same);
      }
  | inr e ↦
      let f = Walks-From next x ys (ground (arith, h, e)) w.1 in
      record {
        rest = f.rest;
        walks = f.walks;
        short = omega (arith, f.short);
        within = λ q g. ground (arith, f.within q);
      }
]

length-remove : (x : ℕ) (ys : List ℕ) → has x ys ≡ true → length ys ≡ suc (length (remove x ys))
length-remove x [] h = cc
length-remove x (y ∷ ys) h = ground (arith, length-remove x ys)

pub length-le :
    (xs ys : List ℕ)
    → Distinct xs
    → Distinct ys
    → ((q : ℕ) → has q xs ≡ true → has q ys ≡ true)
    → length xs ≤ length ys
length-le [] ys dx dy h = omega arith
length-le (x ∷ xs) ys dx dy h =
    let shorter =
      length-le xs (remove x ys) dx.1 (remove-Distinct x ys dy)
        λ q g. ground (arith, h q, has-remove x q ys dy, dx.0) in
    let there : has x ys ≡ true = h x (ground arith) in
    omega (arith, shorter, length-remove x ys there)

length-reverse_aux : (xs ys : List ℕ) → length (reverse_aux xs ys) ≡ length xs + length ys
length-reverse_aux [] ys = omega arith
length-reverse_aux (x ∷ xs) ys = omega (arith, length-reverse_aux xs (x ∷ ys))

pub length-reverse : (xs : List ℕ) → length (reverse xs) ≡ length xs
length-reverse xs = omega (arith, length-reverse_aux xs [])
