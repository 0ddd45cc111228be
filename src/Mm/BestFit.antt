-- ===== src/Mm/BestFit.antt =====
-- test-drm-mm/drm_mm.c: `best_hole` finds the smallest hole that is large enough.
use mathlib.Core.List.{append_assoc}
use cma_pool_log.Base.{
  ℕ, ◌≤◌, ◌<◌, ◌≡◌, ◌⊎◌, refl, sym, ap, ◌∙◌, inl, inr, true, Option, none, some, List, ◌∷◌, ◌++◌,
  arith, has, has-append, leb, subst, Bool-cases, ==_refl,
}
use cma_pool_log.Rbtree.{Tree, leaf, fork, in_order}
use cma_pool_log.Rbtree.Order.{Ordered, Ordered-append}
use cma_pool_log.Mm.{Mm, hole_follows}
use cma_pool_log.Mm.FindHole.{best_from, best_hole}
use cma_pool_log.Mm.Index.{Indexed}
use cma_pool_log.Mm.Sorting.{NotSmaller}

-- The entries before and behind one of them.
pub record Cut (l : List ℕ) (h : ℕ) : Type 0 where
  pub front : List ℕ
  pub back : List ℕ
  pub split : l ≡ front ++ h ∷ back

pub Cut-has : (l : List ℕ) (h : ℕ) (c : Cut l h) → has h l ≡ true
Cut-has l h c = ap (has h) c.split ∙ ground (arith, has-append h c.front (h ∷ c.back), ==_refl h)

module _ (key : ℕ → ℕ) (size : ℕ) where
  abbrev Falling : ℕ → ℕ → Type 0
  Falling p q = key q ≤ key p

  -- The last entry that is large enough.
  pub record LastEnough (l : List ℕ) (h : ℕ) : Type 0 where
    pub cut : Cut l h
    pub enough : size ≤ key h
    pub beyond : (q : ℕ) → has q cut.back ≡ true → key q < size

  abbrev NoneEnough : List ℕ → Type 0
  NoneEnough l = (q : ℕ) → has q l ≡ true → key q < size

  best_from-LastEnough :
      (found : Option ℕ) (t : Tree)
      → Ordered Falling (in_order t)
      → ((best_from key size found t ≡ found) × NoneEnough (in_order t))
        ⊎ ((h : ℕ) × (best_from key size found t ≡ some h) × LastEnough (in_order t) h)
  unfolding best_from
  best_from-LastEnough found leaf o = inl (refl, λ q h. cc)
  best_from-LastEnough found (fork c l x r) o =
      let (ol, orr, cross) = Ordered-append Falling (in_order l) (x ∷ in_order r) o in
      elim (Bool-cases (leb size (key x))) [
        | inl e ↦
            rw (e, best_from)
              (elim (best_from-LastEnough (some x) r orr.1) [
                | inl (same, small) ↦ inr (
                  x,
                  same,
                  record {
                    cut = record { front = in_order l; back = in_order r; split = refl };
                    enough = ground (arith, e);
                    beyond = small;
                  },
                )
                | inr (h, same, k) ↦ inr (
                  h,
                  same,
                  record {
                    cut = record {
                      front = in_order l ++ x ∷ k.cut.front;
                      back = k.cut.back;
                      split =
                          ap (λ t. in_order l ++ x ∷ t) k.cut.split
                          ∙ sym (append_assoc (in_order l) (x ∷ k.cut.front) (h ∷ k.cut.back));
                    };
                    enough = k.enough;
                    beyond = k.beyond;
                  },
                )
              ])
        | inr e ↦
            rw (e, best_from)
              (elim (best_from-LastEnough found l ol) [
                | inl (same, small) ↦ inl (
                  same,
                  λ q h. elim (Bool-cases (has q (in_order l))) [
                    | inl i ↦ small q i
                    | inr i ↦
                        ground (arith, h, i, e, orr.0 q, has-append q (in_order l) (x ∷ in_order r))
                  ],
                )
                | inr (h, same, k) ↦ inr (
                  h,
                  same,
                  record {
                    cut = record {
                      front = k.cut.front;
                      back = k.cut.back ++ x ∷ in_order r;
                      split =
                          ap (λ t. t ++ x ∷ in_order r) k.cut.split
                          ∙ append_assoc k.cut.front (h ∷ k.cut.back) (x ∷ in_order r);
                    };
                    enough = k.enough;
                    beyond = λ q g. elim (Bool-cases (has q k.cut.back)) [
                      | inl i ↦ k.beyond q i
                      | inr i ↦
                          ground (arith, g, i, e, orr.0 q, has-append q k.cut.back (x ∷ in_order r))
                    ];
                  },
                )
              ])
      ]

-- What `best_hole` is for: a hole that is large enough, and none that is large enough is smaller; or
-- none is large enough.
abbrev pub Best : Mm → ℕ → Option ℕ → Type 0
Best m size none = (n : ℕ) → hole_follows m n ≡ true → (m.node n).hole_size < size
Best m size (some h) =
    (hole_follows m h ≡ true)
    × (size ≤ (m.node h).hole_size)
    × ((n : ℕ)
        → hole_follows m n ≡ true
        → size ≤ (m.node n).hole_size
        → (m.node h).hole_size ≤ (m.node n).hole_size)

abbrev pub LastHole : Mm → ℕ → ℕ → Type 0
LastHole m size h = LastEnough (λ n. (m.node n).hole_size) size (in_order (m.holes_size).root) h

pub best_hole-LastHole :
    (m : Mm) (size : ℕ)
    → Indexed m
    → ((best_hole m size ≡ none)
        × ((q : ℕ) → has q (in_order (m.holes_size).root) ≡ true → (m.node q).hole_size < size))
      ⊎ ((h : ℕ) × (best_hole m size ≡ some h) × LastHole m size h)
unfolding best_hole
best_hole-LastHole m size v =
    best_from-LastEnough (λ n. (m.node n).hole_size) size none (m.holes_size).root v.sorted.by_size

LastHole-Best : (m : Mm) (size h : ℕ) → Indexed m → LastHole m size h → Best m size (some h)
LastHole-Best m size h v k =
    let (of, ob, cross) =
      Ordered-append (NotSmaller m) k.cut.front (h ∷ k.cut.back)
        (subst (Ordered (NotSmaller m)) k.cut.split v.sorted.by_size) in
    (
      sym (v.in_size h) ∙ Cut-has _ h k.cut,
      k.enough,
      λ n f e.
          let there : has n (k.cut.front ++ h ∷ k.cut.back) ≡ true =
            sym (ap (has n) k.cut.split) ∙ v.in_size n ∙ f in
          elim (Bool-cases (has n k.cut.front)) [
            | inl i ↦ cross n h i (ground (arith, ==_refl h))
            | inr i ↦
                ground (arith, i, e, there, k.beyond n, has-append n k.cut.front (h ∷ k.cut.back))
          ],
    )

-- In an allocator whose stack and trees of holes agree, `best_hole` answers the smallest of the holes
-- that are large enough, and answers none only if no hole is.
pub best_hole-Best : (m : Mm) (size : ℕ) → Indexed m → Best m size (best_hole m size)
best_hole-Best m size v = elim (best_hole-LastHole m size v) [
  | inl (e, small) ↦ subst (Best m size) (sym e) λ n f. small n (v.in_size n ∙ f)
  | inr (h, e, k) ↦ subst (Best m size) (sym e) (LastHole-Best m size h v k)
]
