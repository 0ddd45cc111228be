-- ===== src/Mm/Around.antt =====
-- test-drm-mm/drm_mm.c: `find_hole` finds the hole around an address, or the one next to it.
use mathlib.Core.List.{append_assoc}
use cma_pool_log.Base.{
  ℕ, ◌≤◌, ◌<◌, ◌≡◌, ◌⊎◌, refl, sym, ap, ◌∙◌, inl, inr, true, false, Option, none, some, List, [],
  ◌∷◌, ◌++◌, arith, ◌==◌, has, has-append, ltb, add64, subst, Bool-cases, ==_refl, Distinct,
}
use cma_pool_log.Rbtree.{Tree, leaf, fork, in_order}
use cma_pool_log.Rbtree.Order.{Ordered, Ordered-append}
use cma_pool_log.Mm.{Mm, ring, hole_follows, hole_node_start, hole_node_end, next_node}
use cma_pool_log.Mm.FindHole.{find_from, find_hole}
use cma_pool_log.Mm.Layout.{Tidy}
use cma_pool_log.Mm.Laid.{Tidy-Laid}
use cma_pool_log.Mm.Gaps.{gaps_apart}
use cma_pool_log.Mm.Sorting.{NotAbove}
use cma_pool_log.Mm.BestFit.{Cut, Cut-has}

-- The end of a hole as `find_hole` and the search loop compute it.
abbrev pub hole_end : Mm → ℕ → ℕ
hole_end m n = add64 (hole_node_start m n) (m.node n).hole_size

-- The one hole ends before the other begins, and neither wraps.
abbrev pub EndsBefore : Mm → ℕ → ℕ → Type 0
EndsBefore m p q =
    (hole_node_start m p ≤ hole_end m p)
    × (hole_end m p < hole_node_start m q)
    × (hole_node_start m q ≤ hole_end m q)

-- All holes on the left end below the address, and all on the right begin above it.
pub record Nearest (m : Mm) (addr : ℕ) (l : List ℕ) (h : ℕ) : Type 0 where
  pub cut : Cut l h
  pub under : (q : ℕ) → has q cut.front ≡ true → hole_end m q < addr
  pub over : (q : ℕ) → has q cut.back ≡ true → addr < hole_node_start m q

module _ (m : Mm) (addr : ℕ) where
  alone :
      (h : ℕ) (front back : List ℕ)
      → ((q : ℕ) → has q front ≡ true → hole_end m q < addr)
      → ((q : ℕ) → has q back ≡ true → addr < hole_node_start m q)
      → Nearest m addr (front ++ h ∷ back) h
  alone h front back f b = record {
    cut = record { front = front; back = back; split = refl };
    under = f;
    over = b;
  }

  on_left :
      (l k : List ℕ) (x h : ℕ)
      → Nearest m addr l h
      → ((q : ℕ) → has q (x ∷ k) ≡ true → addr < hole_node_start m q)
      → Nearest m addr (l ++ x ∷ k) h
  on_left l k x h n f = record {
    cut = record {
      front = n.cut.front;
      back = n.cut.back ++ x ∷ k;
      split = ap (λ t. t ++ x ∷ k) n.cut.split ∙ append_assoc n.cut.front (h ∷ n.cut.back) (x ∷ k);
    };
    under = n.under;
    over = λ q g. elim (Bool-cases (has q n.cut.back)) [
      | inl i ↦ n.over q i
      | inr i ↦ f q (ground (arith, g, i, has-append q n.cut.back (x ∷ k)))
    ];
  }

  on_right :
      (l k : List ℕ) (x h : ℕ)
      → Nearest m addr k h
      → ((q : ℕ) → has q (l ++ x ∷ []) ≡ true → hole_end m q < addr)
      → Nearest m addr (l ++ x ∷ k) h
  on_right l k x h n f = record {
    cut = record {
      front = l ++ x ∷ n.cut.front;
      back = n.cut.back;
      split =
          ap (λ t. l ++ x ∷ t) n.cut.split
          ∙ sym (append_assoc l (x ∷ n.cut.front) (h ∷ n.cut.back));
    };
    under = λ q g. elim (Bool-cases (has q n.cut.front)) [
      | inl i ↦ n.under q i
      | inr i ↦
          f q (ground (arith, g, i, has-append q l (x ∷ n.cut.front), has-append q l (x ∷ [])))
    ];
    over = n.over;
  }

  find_from-Nearest :
      (found : Option ℕ) (t : Tree)
      → Ordered (EndsBefore m) (in_order t)
      → ((q : ℕ) → has q (in_order t) ≡ true → hole_node_start m q ≤ hole_end m q)
      → ((find_from m addr found t ≡ found) × (in_order t ≡ []))
        ⊎ ((h : ℕ) × (find_from m addr found t ≡ some h) × Nearest m addr (in_order t) h)
  unfolding find_from
  find_from-Nearest found leaf o w = inl (refl, refl)
  find_from-Nearest found (fork c l x r) o w =
      let (ol, orr, cross) = Ordered-append (EndsBefore m) (in_order l) (x ∷ in_order r) o in
      let split = λ (q : ℕ). has-append q (in_order l) (x ∷ in_order r) in
      let here : hole_node_start m x ≤ hole_end m x = w x (ground (arith, split x, ==_refl x)) in
      let left =
        λ (q : ℕ) (h : has q (in_order l) ≡ true). cross q x h (ground (arith, ==_refl x)) in
      elim (Bool-cases (ltb addr (hole_node_start m x))) [
        | inl e ↦
            let above : (q : ℕ) → has q (x ∷ in_order r) ≡ true → addr < hole_node_start m q =
              λ q h. ground (arith, e, h, here, orr.0 q) in
            rw (e, find_from)
              (elim (find_from-Nearest (some x) l ol (λ q h. w q (ground (arith, h, split q)))) [
                | inl (same, no_left) ↦ inr (
                  x,
                  same,
                  alone x (in_order l) (in_order r) (λ q h. ground (arith, h, no_left))
                      (λ q h. above q (ground (arith, h))),
                )
                | inr (h, same, n) ↦ inr (h, same, on_left (in_order l) (in_order r) x h n above)
              ])
        | inr e ↦ elim (Bool-cases (ltb (hole_end m x) addr)) [
          | inl f ↦
              let below : (q : ℕ) → has q (in_order l ++ x ∷ []) ≡ true → hole_end m q < addr =
                λ q h. ground (arith, f, h, here, left q, has-append q (in_order l) (x ∷ [])) in
              rw (e, f, find_from)
                (elim (find_from-Nearest (some x) r orr.1
                  (λ q h. w q (ground (arith, h, split q)))) [
                    | inl (same, no_right) ↦ inr (
                      x,
                      same,
                      alone x (in_order l) (in_order r)
                          (λ q h. below q (ground (arith, h, has-append q (in_order l) (x ∷ []))))
                          (λ q h. ground (arith, h, no_right)),
                    )
                    | inr (h, same, n) ↦
                        inr (h, same, on_right (in_order l) (in_order r) x h n below)
                  ])
          | inr f ↦
              rw (e, f, find_from)
                (inr (
                  x,
                  refl,
                  alone x (in_order l) (in_order r) (λ q h. ground (arith, e, f, left q))
                      (λ q h. ground (arith, e, f, orr.0 q)),
                ))
        ]
      ]

-- The hole that is kept for a node of the list is the gap behind it.
pub hole_end-gap :
    (m : Mm) (n : ℕ)
    → Tidy m
    → has n (ring m) ≡ true
    → (hole_end m n ≡ hole_node_end m n) × (hole_node_start m n ≤ hole_end m n)
hole_end-gap m n t h = ground (arith, h, t.holes n, t.gaps n h, t.starts (next_node m n))

pub follows-ring : (m : Mm) (n : ℕ) → Tidy m → hole_follows m n ≡ true → has n (ring m) ≡ true
unfolding hole_follows
follows-ring m n t f = ground (arith, t.holes n, f)

-- A relation of the holes in memory that holds of different ones.
disjoint_Ordered :
    (m : Mm) (xs : List ℕ)
    → Tidy m
    → Distinct xs
    → ((q : ℕ) → has q xs ≡ true → hole_follows m q ≡ true)
    → Ordered (NotAbove m) xs
    → Ordered (EndsBefore m) xs
disjoint_Ordered m [] t d f o = tt
disjoint_Ordered m (x ∷ xs) t d f o = (
  λ q h.
      let rx = follows-ring m x t (f x (ground (arith, ==_refl x))) in
      let rq = follows-ring m q t (f q (ground (arith, h))) in
      let gx = hole_end-gap m x t rx in
      let gq = hole_end-gap m q t rq in
      let up = o.0 q h in
      elim (gaps_apart m (Tidy-Laid m t) x q rx rq (ground (arith, h, d.0))) [
        | inl b ↦ ground (arith, b, gx, gq)
        | inr b ↦ ground (arith, b, gx, gq, up)
      ],
  disjoint_Ordered m xs t d.1 (λ q h. f q (ground (arith, h))) o.1,
)

pub holes_addr-Ordered : (m : Mm) → Tidy m → Ordered (EndsBefore m) (in_order m.holes_addr)
holes_addr-Ordered m t =
    disjoint_Ordered m (in_order m.holes_addr) t t.indexed.addr
      (λ q h. sym (t.indexed.in_addr q) ∙ h) t.indexed.sorted.by_addr

pub find_hole-Nearest :
    (m : Mm) (addr : ℕ)
    → Tidy m
    → ((find_hole m addr ≡ none) × (in_order m.holes_addr ≡ []))
      ⊎ ((h : ℕ) × (find_hole m addr ≡ some h) × Nearest m addr (in_order m.holes_addr) h)
unfolding find_hole
find_hole-Nearest m addr t =
    find_from-Nearest m addr none m.holes_addr (holes_addr-Ordered m t)
      λ q h. (hole_end-gap m q t (follows-ring m q t (sym (t.indexed.in_addr q) ∙ h))).1

-- What `find_hole` is for: where there is a hole, one with all others wholly on one side of the address.
abbrev pub Located : Mm → ℕ → Option ℕ → Type 0
Located m addr none = (n : ℕ) → hole_follows m n ≡ false
Located m addr (some h) =
    (hole_follows m h ≡ true)
    × ((n : ℕ)
        → hole_follows m n ≡ true
        → (n == h) ≡ false
        → (hole_end m n < addr) ⊎ (addr < hole_node_start m n))

-- In an allocator that is in order, `find_hole` answers none only if there is no hole; and every hole
-- but the one that it answers ends below the address or begins above it. So a hole with the address in
-- it or at its end is the one that is found.
pub find_hole-Located : (m : Mm) (addr : ℕ) → Tidy m → Located m addr (find_hole m addr)
find_hole-Located m addr t = elim (find_hole-Nearest m addr t) [
  | inl (e, empty) ↦ subst (Located m addr) (sym e) λ n. ground (arith, t.indexed.in_addr n, empty)
  | inr (h, e, k) ↦ subst (Located m addr) (sym e) (
    sym (t.indexed.in_addr h) ∙ Cut-has (in_order m.holes_addr) h k.cut,
    λ n f d.
        let there : has n (k.cut.front ++ h ∷ k.cut.back) ≡ true =
          sym (ap (has n) k.cut.split) ∙ t.indexed.in_addr n ∙ f in
        elim (Bool-cases (has n k.cut.front)) [
          | inl i ↦ inl (k.under n i)
          | inr i ↦
              inr
                (k.over n (ground (arith, there, i, d, has-append n k.cut.front (h ∷ k.cut.back))))
        ],
  )
]
