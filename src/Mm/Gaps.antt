-- ===== src/Mm/Gaps.antt =====
-- test-drm-mm/drm_mm.c: the gaps between the blocks of an allocator that is in order.
use cma_pool_log.Base.{
  ℕ, ◌+◌, ◌≤◌, ◌<◌, ◌≡◌, ◌⊎◌, subst, sym, ap, refl, inl, inr, true, false, List, [], ◌∷◌, arith,
  ◌==◌, has, after, get_or, Bool-cases, ==_refl,
}
use cma_pool_log.Base.Walk.{Walks, Walks-after}
use cma_pool_log.Mm.{Mm, head_node, ring, hole_node_start, hole_node_end}
use cma_pool_log.Mm.Laid.{Laid}
use cma_pool_log.Mm.Apart.{Ladder, Ladder-over}

module _ (m : Mm) where
  -- The gap behind the one ends before that behind the other begins.
  abbrev pub Between : ℕ → ℕ → Type 0
  Between a b = hole_node_end m a < hole_node_start m b

  module _ (t : Laid m) where
    holes_apart :
        (p a b : ℕ) (xs : List ℕ)
        → Walks (λ n. after n (ring m)) (p ∷ xs)
        → Ladder m p xs
        → ((n : ℕ) → has n xs ≡ true → has n m.node_list ≡ true)
        → has a (p ∷ xs) ≡ true
        → has b (p ∷ xs) ≡ true
        → (a == b) ≡ false
        → Between a b ⊎ Between b a
    holes_apart p a b [] w l k h g n = ground arith
    holes_apart p a b (x ∷ xs) w l k h g n =
        let next : hole_node_end m p ≡ (m.node x).start =
          ap (λ o. (m.node (get_or o head_node)).start) w.0 in
        let sizes = λ (q : ℕ) (i : has q (x ∷ xs) ≡ true). t.sizes q (k q i) in
        let past : (q : ℕ) → has q (x ∷ xs) ≡ true → hole_node_end m p < hole_node_start m q =
          λ q i. elim (Bool-cases (q == x)) [
            | inl e ↦ ground (arith, e, next, sizes q i)
            | inr e ↦
                let over =
                  Ladder-over m x q xs l.1 (λ j r. (sizes j (ground (arith, r))).1)
                    (ground (arith, i, e)) in
                ground (arith, next, over, sizes q i, sizes x (ground (arith, ==_refl x)))
          ] in
        elim (Bool-cases (a == p)) [
          | inl e ↦
              let same : p ≡ a = ground (arith, e) in
              inl (subst (λ j. Between j b) same (past b (ground (arith, g, n, e))))
          | inr e ↦ elim (Bool-cases (b == p)) [
            | inl f ↦
                let same : p ≡ b = ground (arith, f) in
                inr (subst (λ j. Between j a) same (past a (ground (arith, h, e))))
            | inr f ↦
                holes_apart x a b xs w.1 l.1 (λ q i. k q (ground (arith, i))) (ground (arith, h, e))
                  (ground (arith, g, f)) n
          ]
        ]

    -- Of two gaps of an allocator that is in order, one ends before the block behind which the other
    -- begins.
    pub gaps_apart :
        (a b : ℕ)
        → has a (ring m) ≡ true
        → has b (ring m) ≡ true
        → (a == b) ≡ false
        → Between a b ⊎ Between b a
    gaps_apart a b =
        holes_apart head_node a b m.node_list
          (Walks-after (λ n. after n (ring m)) (ring m) t.distinct λ q h. refl) t.ladder λ n h. h

    -- Addresses that no block of the list lies on are in the gap behind one of the nodes.
    pub record InGap (a size n : ℕ) : Type 0 where
      pub listed : has n (ring m) ≡ true
      pub from : hole_node_start m n ≤ a
      pub to : a + size ≤ hole_node_end m n

    gap_from :
        (a size p : ℕ) (xs : List ℕ)
        → Walks (λ n. after n (ring m)) (p ∷ xs)
        → ((n : ℕ) → has n (p ∷ xs) ≡ true → has n (ring m) ≡ true)
        → ((n : ℕ) → has n xs ≡ true → has n m.node_list ≡ true)
        → a + size ≤ (m.node head_node).start
        → ((n : ℕ)
            → has n xs ≡ true
            → (a + size ≤ (m.node n).start) ⊎ ((m.node n).start + (m.node n).size ≤ a))
        → hole_node_start m p ≤ a
        → (n : ℕ) × InGap a size n
    gap_from a size p [] w k l top f h = (
      p,
      record {
        listed = k p (ground (arith, ==_refl p));
        from = h;
        to = subst (λ o. a + size ≤ (m.node (get_or o head_node)).start) (sym w.0) top;
      },
    )
    gap_from a size p (x ∷ xs) w k l top f h =
        let here : has x (x ∷ xs) ≡ true = ground (arith, ==_refl x) in
        elim (f x here) [
          | inl before ↦ (
            p,
            record {
              listed = k p (ground (arith, ==_refl p));
              from = h;
              to = subst (λ o. a + size ≤ (m.node (get_or o head_node)).start) (sym w.0) before;
            },
          )
          | inr behind ↦
              gap_from a size x xs w.1 (λ n g. k n (ground (arith, g)))
                (λ n g. l n (ground (arith, g))) top (λ n g. f n (ground (arith, g)))
                (ground (arith, behind, t.sizes x (l x here)))
        ]

    pub gap_around :
        (a size : ℕ)
        → hole_node_start m head_node ≤ a
        → a + size ≤ (m.node head_node).start
        → ((n : ℕ)
            → has n m.node_list ≡ true
            → (a + size ≤ (m.node n).start) ⊎ ((m.node n).start + (m.node n).size ≤ a))
        → (n : ℕ) × InGap a size n
    gap_around a size from to f =
        gap_from a size head_node m.node_list
          (Walks-after (λ n. after n (ring m)) (ring m) t.distinct λ q h. refl) (λ n h. h)
          (λ n h. h) to f from
