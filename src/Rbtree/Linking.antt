-- ===== src/Rbtree/Linking.antt =====
-- The entries of a tree into which one more was linked.
use cma_pool_log.Base.{
  ℕ, ◌≡◌, refl, inl, inr, Bool, true, false, List, [], ◌∷◌, ◌++◌, arith, ◌==◌, ◌||◌, has, Distinct,
  has-append, Bool-cases, if◌then◌else◌,
}
use cma_pool_log.Rbtree.{Colour, Tree, leaf, fork, in_order, link}

pub Distinct-append :
    (xs ys : List ℕ)
    → Distinct (xs ++ ys)
    → Distinct xs × Distinct ys × ((q : ℕ) → has q xs ≡ true → has q ys ≡ false)
Distinct-append [] ys d = (tt, d, λ q h. cc)
Distinct-append (x ∷ xs) ys d =
    let (dx, dy, apart) = Distinct-append xs ys d.1 in
    (
      (ground (arith, has-append x xs ys, d.0), dx),
      dy,
      λ q h. ground (arith, apart q, has-append x xs ys, d.0),
    )

append-Distinct :
    (xs ys : List ℕ)
    → Distinct xs
    → Distinct ys
    → ((q : ℕ) → has q xs ≡ true → has q ys ≡ false)
    → Distinct (xs ++ ys)
append-Distinct [] ys dx dy apart = dy
append-Distinct (x ∷ xs) ys dx dy apart = (
  ground (arith, has-append x xs ys, apart x, dx.0),
  append-Distinct xs ys dx.1 dy λ q h. ground (arith, apart q),
)

pub link-fork :
    (goes_left : ℕ → Bool) (n : ℕ) (c : Colour) (l : Tree) (x : ℕ) (r : Tree)
    → in_order (link goes_left n (fork c l x r)) ≡ (
        if goes_left x
        then in_order (link goes_left n l) ++ x ∷ in_order r
        else in_order l ++ x ∷ in_order (link goes_left n r))
unfolding link
link-fork goes_left n c l x r =
    elim (goes_left x)
      as (λ b.
        in_order (elim b as (λ _. Tree) [
          | true ↦ fork c (link goes_left n l) x r
          | false ↦ fork c l x (link goes_left n r)
        ])
        ≡ (if b
            then in_order (link goes_left n l) ++ x ∷ in_order r
            else in_order l ++ x ∷ in_order (link goes_left n r))) [ true ↦ refl | false ↦ refl ]

pub has-link :
    (goes_left : ℕ → Bool) (n q : ℕ) (t : Tree)
    → has q (in_order (link goes_left n t)) ≡ ((q == n) || has q (in_order t))
unfolding link
has-link goes_left n q leaf = ground arith
has-link goes_left n q (fork c l x r) =
    rw (link-fork goes_left n c l x r) (elim (Bool-cases (goes_left x)) [
      | inl e ↦ rw e (
          ground (
            arith,
            has-append q (in_order (link goes_left n l)) (x ∷ in_order r),
            has-append q (in_order l) (x ∷ in_order r),
            has-link goes_left n q l,
          ))
      | inr e ↦ rw e (
          ground (
            arith,
            has-append q (in_order l) (x ∷ in_order (link goes_left n r)),
            has-append q (in_order l) (x ∷ in_order r),
            has-link goes_left n q r,
          ))
    ])

pub link-Distinct :
    (goes_left : ℕ → Bool) (n : ℕ) (t : Tree)
    → has n (in_order t) ≡ false
    → Distinct (in_order t)
    → Distinct (in_order (link goes_left n t))
unfolding link
link-Distinct goes_left n leaf h d = (refl, tt)
link-Distinct goes_left n (fork c l x r) h d =
    let (dl, dr, apart) = Distinct-append (in_order l) (x ∷ in_order r) d in
    rw (link-fork goes_left n c l x r) (elim (Bool-cases (goes_left x)) [
      | inl e ↦ rw e (
          append-Distinct (in_order (link goes_left n l)) (x ∷ in_order r)
            (link-Distinct goes_left n l
              (ground (arith, has-append n (in_order l) (x ∷ in_order r))) dl)
            dr
            λ q g. ground (
              arith,
              has-link goes_left n q l,
              apart q,
              has-append q (in_order l) (x ∷ in_order r),
            ))
      | inr e ↦ rw e (
          append-Distinct (in_order l) (x ∷ in_order (link goes_left n r)) dl
            (
              ground (
                arith,
                has-link goes_left n x r,
                has-append n (in_order l) (x ∷ in_order r),
                dr.0,
              ),
              link-Distinct goes_left n r
                  (ground (arith, has-append n (in_order l) (x ∷ in_order r))) dr.1,
            )
            λ q g. ground (
              arith,
              has-link goes_left n q r,
              apart q,
              has-append q (in_order l) (x ∷ in_order r),
            ))
    ])
