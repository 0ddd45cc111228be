-- ===== src/Rbtree/Order.antt =====
-- The entries of a search tree in order: `rb_link_node` at the end of a walk down keeps it.
use mathlib.Core.List.{reverse_aux}
use cma_pool_log.Base.{
  ℕ, ◌≡◌, refl, inl, inr, Bool, true, false, List, [], ◌∷◌, ◌++◌, arith, ◌==◌, has, remove, head?,
  Option, none, some, ◌≢◌, reverse, Distinct, has-append, has-remove, Bool-cases, if◌then◌else◌,
  ==_refl, subst,
}
use cma_pool_log.Rbtree.{Tree, leaf, fork, in_order, link, links_first}
use cma_pool_log.Rbtree.Linking.{has-link, link-fork}

module _ (R : ℕ → ℕ → Type 0) where
  -- Each entry stands in the relation to all behind it.
  abbrev pub Ordered : List ℕ → Type 0
  Ordered [] = Unit
  Ordered (x ∷ xs) = ((q : ℕ) → has q xs ≡ true → R x q) × Ordered xs

  -- Every entry of the one list to every one of the other.
  abbrev pub Crossing : List ℕ → List ℕ → Type 0
  Crossing xs ys = (p q : ℕ) → has p xs ≡ true → has q ys ≡ true → R p q

  pub append-Ordered :
      (xs ys : List ℕ) → Ordered xs → Ordered ys → Crossing xs ys → Ordered (xs ++ ys)
  append-Ordered [] ys ox oy c = oy
  append-Ordered (x ∷ xs) ys ox oy c = (
    λ q h. elim (Bool-cases (has q xs)) [
      | inl e ↦ ox.0 q e
      | inr e ↦ c x q (ground arith) (ground (arith, h, e, has-append q xs ys))
    ],
    append-Ordered xs ys ox.1 oy λ p q h g. c p q (ground (arith, h)) g,
  )

  pub Ordered-append :
      (xs ys : List ℕ) → Ordered (xs ++ ys) → Ordered xs × Ordered ys × Crossing xs ys
  Ordered-append [] ys o = (tt, o, λ p q h g. cc)
  Ordered-append (x ∷ xs) ys o =
      let (ox, oy, c) = Ordered-append xs ys o.1 in
      (
        (λ q h. o.0 q (ground (arith, h, has-append q xs ys)), ox),
        oy,
        λ p q h g. elim (Bool-cases (p == x)) [
          | inl e ↦
              let same : x ≡ p = ground (arith, e) in
              subst (λ t. R t q) same (o.0 q (ground (arith, g, has-append q xs ys)))
          | inr e ↦ c p q (ground (arith, h, e)) g
        ],
      )

  pub remove-Ordered : (a : ℕ) (xs : List ℕ) → Distinct xs → Ordered xs → Ordered (remove a xs)
  remove-Ordered a [] d o = tt
  remove-Ordered a (x ∷ xs) d o = elim (Bool-cases (a == x)) [
    | inl e ↦ rw e o.1
    | inr e ↦
        rw e (λ q h. o.0 q (ground (arith, h, has-remove a q xs d.1)), remove-Ordered a xs d.1 o.1)
  ]

  module _ (trans : (a b c : ℕ) → R a b → R b c → R a c) where
    pub link-Ordered :
        (goes_left : ℕ → Bool) (n : ℕ) (t : Tree)
        → ((q : ℕ) → has q (in_order t) ≡ true → goes_left q ≡ true → R n q)
        → ((q : ℕ) → has q (in_order t) ≡ true → goes_left q ≡ false → R q n)
        → Ordered (in_order t)
        → Ordered (in_order (link goes_left n t))
    unfolding link
    link-Ordered goes_left n leaf up down o = (λ q h. cc, tt)
    link-Ordered goes_left n (fork c l x r) up down o =
        let (ol, orr, cross) = Ordered-append (in_order l) (x ∷ in_order r) o in
        let split = λ (q : ℕ). has-append q (in_order l) (x ∷ in_order r) in
        rw (link-fork goes_left n c l x r) (elim (Bool-cases (goes_left x)) [
          | inl e ↦
              let above : R n x = up x (ground (arith, split x, ==_refl x)) e in
              rw e (
                append-Ordered (in_order (link goes_left n l)) (x ∷ in_order r)
                  (link-Ordered goes_left n l (λ q h. up q (ground (arith, split q, h)))
                    (λ q h. down q (ground (arith, split q, h))) ol)
                  orr
                  λ p q h g. elim (Bool-cases (has p (in_order l))) [
                    | inl i ↦ cross p q i g
                    | inr i ↦
                        let same : n ≡ p = ground (arith, h, i, has-link goes_left n p l) in
                        subst (λ k. R k q) same
                          (elim (Bool-cases (q == x)) [
                            | inl j ↦ let here : x ≡ q = ground (arith, j) in subst (R n) here above
                            | inr j ↦ trans n x q above (orr.0 q (ground (arith, g, j)))
                          ])
                  ])
          | inr e ↦
              let below : R x n = down x (ground (arith, split x, ==_refl x)) e in
              rw e (
                append-Ordered (in_order l) (x ∷ in_order (link goes_left n r)) ol
                  (
                    λ q h. elim (Bool-cases (has q (in_order r))) [
                      | inl i ↦ orr.0 q i
                      | inr i ↦
                          let same : n ≡ q = ground (arith, h, i, has-link goes_left n q r) in
                          subst (R x) same below
                    ],
                    link-Ordered goes_left n r (λ q h. up q (ground (arith, split q, h)))
                        (λ q h. down q (ground (arith, split q, h))) orr.1,
                  )
                  λ p q h g. elim (Bool-cases (has q (x ∷ in_order r))) [
                    | inl i ↦ cross p q h i
                    | inr i ↦
                        let same : n ≡ q = ground (arith, g, i, has-link goes_left n q r) in
                        subst (R p) same
                          (trans p x n (cross p x h (ground (arith, ==_refl x))) below)
                  ])
        ])

head?-append :
    (xs ys : List ℕ)
    → head? (xs ++ ys) ≡ elim (head? xs) as (λ _. Option ℕ) [ none ↦ head? ys | some x ↦ some x ]
head?-append [] ys = refl
head?-append (x ∷ xs) ys = refl

-- A tree without entries has no walk that turns right.
links_first-none :
    (goes_left : ℕ → Bool) (t : Tree) → links_first goes_left t ≡ false → head? (in_order t) ≢ none
unfolding links_first
links_first-none goes_left leaf h = cc
links_first-none goes_left (fork c l x r) h =
    ground (arith, head?-append (in_order l) (x ∷ in_order r))

-- The first entry, by the walk that links another one.
pub head?-link :
    (goes_left : ℕ → Bool) (n : ℕ) (t : Tree)
    → head? (in_order (link goes_left n t))
      ≡ (if links_first goes_left t then some n else head? (in_order t))
unfolding link links_first
head?-link goes_left n leaf = refl
head?-link goes_left n (fork c l x r) =
    rw (link-fork goes_left n c l x r) (elim (Bool-cases (goes_left x)) [
      | inl e ↦ rw e (
          ground (
            arith,
            head?-append (in_order (link goes_left n l)) (x ∷ in_order r),
            head?-append (in_order l) (x ∷ in_order r),
            head?-link goes_left n l,
            links_first-none goes_left l,
          ))
      | inr e ↦ rw e (
          ground (
            arith,
            head?-append (in_order l) (x ∷ in_order (link goes_left n r)),
            head?-append (in_order l) (x ∷ in_order r),
          ))
    ])

-- Another relation that holds wherever the one does.
pub Ordered-mono :
    (R S : ℕ → ℕ → Type 0) (xs : List ℕ)
    → ((p q : ℕ) → has p xs ≡ true → has q xs ≡ true → R p q → S p q)
    → Ordered R xs
    → Ordered S xs
Ordered-mono R S [] f o = tt
Ordered-mono R S (x ∷ xs) f o = (
  λ q h. f x q (ground (arith, ==_refl x)) (ground (arith, h)) (o.0 q h),
  Ordered-mono R S xs (λ p q h g. f p q (ground (arith, h)) (ground (arith, g))) o.1,
)

-- A relation of any two.
pub any-Ordered : (R : ℕ → ℕ → Type 0) (xs : List ℕ) → ((p q : ℕ) → R p q) → Ordered R xs
any-Ordered R [] f = tt
any-Ordered R (x ∷ xs) f = (λ q h. f x q, any-Ordered R xs f)

reverse_aux-Ordered :
    (R : ℕ → ℕ → Type 0) (xs ys : List ℕ)
    → Ordered R xs
    → Ordered (λ p q. R q p) ys
    → Crossing (λ p q. R q p) xs ys
    → Ordered (λ p q. R q p) (reverse_aux xs ys)
reverse_aux-Ordered R [] ys ox oy c = oy
reverse_aux-Ordered R (x ∷ xs) ys ox oy c =
    reverse_aux-Ordered R xs (x ∷ ys) ox.1 (λ q h. c x q (ground (arith, ==_refl x)) h, oy)
      λ p q h g. elim (Bool-cases (q == x)) [
        | inl e ↦ let same : x ≡ q = ground (arith, e) in subst (λ t. R t p) same (ox.0 p h)
        | inr e ↦ c p q (ground (arith, h)) (ground (arith, g, e))
      ]

pub reverse-Ordered :
    (R : ℕ → ℕ → Type 0) (xs : List ℕ) → Ordered R xs → Ordered (λ p q. R q p) (reverse xs)
reverse-Ordered R xs o = reverse_aux-Ordered R xs [] o tt (λ p q h g. cc)
