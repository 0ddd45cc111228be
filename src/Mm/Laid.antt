-- ===== src/Mm/Laid.antt =====
-- test-drm-mm/drm_mm.c: the blocks on the list lie one behind the other, also while a scan has taken
-- some of them off.
use cma_pool_log.Base.{
  ℕ, ◌+◌, ◌≤◌, ◌<◌, ◌≡◌, ◌⊎◌, inl, inr, subst, sym, ap, ◌∙◌, refl, true, false, List, [], ◌∷◌,
  arith, ◌==◌, u64_mod, has, remove, after, get_or, Distinct, Bool-cases, ==_refl, has-remove,
}
use cma_pool_log.Base.Ring.{after-remove, has-get_after}
use cma_pool_log.Base.Walk.{Walks, Walks-after}
use cma_pool_log.Mm.{Mm, head_node, ring, next_node, hole_node_start, hole_node_end}
use cma_pool_log.Mm.Rollback.{Unlinked, Listed}
use cma_pool_log.Mm.Scanning.{Unlinked-Listed}
use cma_pool_log.Mm.Layout.{Tidy}
use cma_pool_log.Mm.Apart.{Ladder, Ladder-over, Ladder-under, ladder}

pub record Laid (m : Mm) : Type 0 where
  pub distinct : Distinct (ring m)
  pub sizes :
      (n : ℕ)
      → has n m.node_list ≡ true
      → (0 < (m.node n).size) × ((m.node n).start + (m.node n).size < u64_mod)
  pub ladder : Ladder m head_node m.node_list

pub Tidy-Laid : (m : Mm) → Tidy m → Laid m
Tidy-Laid m t = record { distinct = t.distinct; sizes = t.sizes; ladder = ladder m t }

-- No block is moved or changed in size.
pub Unlinked-places :
    (x h n : ℕ) (m w : Mm)
    → Unlinked x h m w
    → ((w.node n).start ≡ (m.node n).start) × ((w.node n).size ≡ (m.node n).size)
Unlinked-places x h n m w u = elim (Bool-cases (n == x)) [
  | inl e ↦ ground (arith, e, u.fields)
  | inr e ↦ ground (arith, u.others n)
]

abbrev SamePlaces : Mm → Mm → Type 0
SamePlaces m w =
    (n : ℕ) → ((w.node n).start ≡ (m.node n).start) × ((w.node n).size ≡ (m.node n).size)

remove-Ladder :
    (m w : Mm) (x p : ℕ) (xs : List ℕ)
    → SamePlaces m w
    → ((n : ℕ) → has n xs ≡ true → (m.node n).start + (m.node n).size < u64_mod)
    → Ladder m p xs
    → Ladder w p (remove x xs)
remove-Ladder m w x p [] s k l = ground (arith, s p, s head_node, l)
remove-Ladder m w x p (y ∷ ys) s k l =
    let tail = remove-Ladder m w x y ys s (λ n h. k n (ground (arith, h))) l.1 in
    elim (Bool-cases (x == y)) [
      | inr e ↦ rw e (ground (arith, s p, s y, l.0), tail)
      | inl e ↦ rw e (skip ys l.1 (λ n h. k n (ground (arith, h))))
    ]
  where
    skip :
        (zs : List ℕ)
        → Ladder m y zs
        → ((n : ℕ) → has n zs ≡ true → (m.node n).start + (m.node n).size < u64_mod)
        → Ladder w p zs
    skip [] r f = ground (arith, s p, s head_node, l.0, r, k y (ground (arith, ==_refl y)))
    skip (z ∷ zs) r f =
        (ground (arith, s p, s z, l.0, r.0, k y (ground (arith, ==_refl y))), same z zs r.1)
      where
        same : (z : ℕ) (zs : List ℕ) → Ladder m z zs → Ladder w z zs
        same z [] r = ground (arith, s z, s head_node, r)
        same z (a ∷ zs) r = (ground (arith, s z, s a, r.0), same a zs r.1)

pub Unlinked-Laid : (x h : ℕ) (m w : Mm) → Listed m → Unlinked x h m w → Laid m → Laid w
Unlinked-Laid x h m w l u d = record {
  distinct = (Unlinked-Listed x h m w l u).distinct;
  sizes = λ n g. ground (
    arith,
    g,
    u.node_list,
    has-remove x n m.node_list l.distinct.1,
    Unlinked-places x h n m w u,
    d.sizes n,
  );
  ladder = subst (Ladder w head_node) (sym u.node_list) (
      remove-Ladder m w x head_node m.node_list (λ n. Unlinked-places x h n m w u)
        (λ n g. (d.sizes n g).1) d.ladder);
}

-- Only the gap in front of the block that goes is a different one.
pub Unlinked-end :
    (x h n : ℕ) (m w : Mm)
    → Listed m
    → Unlinked x h m w
    → (n == x) ≡ false
    → (n == h) ≡ false
    → hole_node_end w n ≡ hole_node_end m n
Unlinked-end x h n m w l u d e =
    (Unlinked-places x h (next_node w n) m w u).0
    ∙ ap (λ k. (m.node (get_or (after n (head_node ∷ k)) head_node)).start) u.node_list
    ∙ ap (λ o. (m.node (get_or o head_node)).start)
        (after-remove x head_node h n m.node_list u.behind l.distinct d)
    ∙ ground arith

module _ (m : Mm) where
  -- The block lies wholly before the gap behind `h`, or behind it.
  abbrev Clear : ℕ → ℕ → Type 0
  Clear h q =
      ((m.node q).start + (m.node q).size ≤ hole_node_start m h)
      ⊎ (hole_node_end m h ≤ (m.node q).start)

  module _ (d : Laid m) where
    Clear-from :
        (p h q : ℕ) (xs : List ℕ)
        → Walks (λ n. after n (ring m)) (p ∷ xs)
        → Ladder m p xs
        → ((n : ℕ) → has n xs ≡ true → has n m.node_list ≡ true)
        → has h (p ∷ xs) ≡ true
        → has q xs ≡ true
        → Clear h q
    Clear-from p h q [] w l k f g = cc
    Clear-from p h q (x ∷ xs) w l k f g =
        let next : hole_node_end m p ≡ (m.node x).start =
          ap (λ o. (m.node (get_or o head_node)).start) w.0 in
        let sizes = λ (n : ℕ) (i : has n (x ∷ xs) ≡ true). d.sizes n (k n i) in
        let over = λ (n : ℕ) (i : has n xs ≡ true).
          Ladder-over m x n xs l.1 (λ j r. (sizes j (ground (arith, r))).1) i in
        let here = sizes x (ground (arith, ==_refl x)) in
        elim (Bool-cases (h == p)) [
          | inl e ↦
              let same : p ≡ h = ground (arith, e) in
              inr (
                subst (λ j. hole_node_end m j ≤ (m.node q).start) same
                  (elim (Bool-cases (q == x)) [
                    | inl i ↦ ground (arith, i, next)
                    | inr i ↦ ground (arith, next, here, over q (ground (arith, g, i)))
                  ]))
          | inr e ↦ elim (Bool-cases (q == x)) [
            | inl i ↦ inl (elim (Bool-cases (h == x)) [
              | inl j ↦ ground (arith, i, j, here)
              | inr j ↦
                  let behind : has h xs ≡ true = ground (arith, f, e, j) in
                  ground (arith, i, here, over h behind, sizes h (ground (arith, behind)))
            ])
            | inr i ↦
                Clear-from x h q xs w.1 l.1 (λ n r. k n (ground (arith, r))) (ground (arith, f, e))
                  (ground (arith, g, i))
          ]
        ]

    pub gap-Clear : (h q : ℕ) → has h (ring m) ≡ true → has q m.node_list ≡ true → Clear h q
    gap-Clear h q =
        Clear-from head_node h q m.node_list
          (Walks-after (λ n. after n (ring m)) (ring m) d.distinct λ n g. refl) d.ladder λ n g. g

    -- Every gap lies within the range that is managed.
    pub gap_begins :
        (n : ℕ) → has n (ring m) ≡ true → hole_node_start m head_node ≤ hole_node_start m n
    gap_begins n g = elim (Bool-cases (n == head_node)) [
      | inl e ↦ ground (arith, e)
      | inr e ↦
          let there : has n m.node_list ≡ true = ground (arith, g, e) in
          ground (
            arith,
            d.sizes n there,
            Ladder-over m head_node n m.node_list d.ladder (λ q h. (d.sizes q h).1) there,
          )
    ]

    pub gap_ends : (n : ℕ) → hole_node_end m n ≤ (m.node head_node).start
    gap_ends n =
        let next : has (next_node m n) (ring m) ≡ true =
          has-get_after n head_node (ring m) (ground arith) in
        elim (Bool-cases (next_node m n == head_node)) [
          | inl e ↦
              let same : next_node m n ≡ head_node = ground (arith, e) in
              subst (λ k. (m.node k).start ≤ (m.node head_node).start) (sym same) (omega arith)
          | inr e ↦
              let there : has (next_node m n) m.node_list ≡ true = ground (arith, next, e) in
              omega (
                arith,
                Ladder-under m head_node (next_node m n) m.node_list d.ladder
                    (λ q h. (d.sizes q h).1) there,
              )
        ]
