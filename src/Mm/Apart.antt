-- ===== src/Mm/Apart.antt =====
-- test-drm-mm/drm_mm.c: in an allocator that is in order no two blocks overlap.
use cma_pool_log.Base.{
  ℕ, ◌+◌, ◌≤◌, ◌<◌, ◌≡◌, ◌⊎◌, subst, refl, inl, inr, true, false, List, [], ◌∷◌, arith, ◌==◌,
  u64_mod, has, after, get_or, Bool-cases, ==_refl,
}
use cma_pool_log.Base.Walk.{Walks, Walks-after}
use cma_pool_log.Mm.{Mm, head_node, ring, hole_node_start, hole_node_end}
use cma_pool_log.Mm.Layout.{Tidy}

module _ (m : Mm) where
  -- Behind `p` the blocks go up.
  abbrev pub Ladder : ℕ → List ℕ → Type 0
  Ladder p [] = hole_node_start m p ≤ (m.node head_node).start
  Ladder p (x ∷ xs) = (hole_node_start m p ≤ (m.node x).start) × Ladder x xs

  gaps-Ladder :
      (p : ℕ) (xs : List ℕ)
      → Walks (λ n. after n (ring m)) (p ∷ xs)
      → ((n : ℕ) → has n (p ∷ xs) ≡ true → hole_node_start m n ≤ hole_node_end m n)
      → Ladder p xs
  gaps-Ladder p [] w g =
      subst (λ o. hole_node_start m p ≤ (m.node (get_or o head_node)).start) w.0
        (g p (ground (arith, ==_refl p)))
  gaps-Ladder p (x ∷ xs) w g = (
    subst (λ o. hole_node_start m p ≤ (m.node (get_or o head_node)).start) w.0
        (g p (ground (arith, ==_refl p))),
    gaps-Ladder x xs w.1 λ n h. g n (ground (arith, h)),
  )

  -- No sum of an address and a size wraps.
  abbrev pub Sized : List ℕ → Type 0
  Sized xs = (n : ℕ) → has n xs ≡ true → (m.node n).start + (m.node n).size < u64_mod

  pub Ladder-over :
      (p q : ℕ) (xs : List ℕ)
      → Ladder p xs
      → Sized xs
      → has q xs ≡ true
      → hole_node_start m p ≤ (m.node q).start
  Ladder-over p q [] l s h = cc
  Ladder-over p q (x ∷ xs) l s h =
      let upper : (has q xs ≡ true → hole_node_start m x ≤ (m.node q).start) =
        λ g. Ladder-over x q xs l.1 (λ n k. s n (ground (arith, k))) g in
      ground (arith, l.0, s x, h, upper)

  Ladder-top :
      (p : ℕ) (xs : List ℕ)
      → Ladder p xs
      → Sized xs
      → hole_node_start m p ≤ (m.node head_node).start
  Ladder-top p [] l s = l
  Ladder-top p (x ∷ xs) l s =
      let rest = Ladder-top x xs l.1 λ n k. s n (ground (arith, k)) in
      let whole = s x (ground (arith, ==_refl x)) in ground (arith, l.0, whole, rest)

  pub Ladder-under :
      (p q : ℕ) (xs : List ℕ)
      → Ladder p xs
      → Sized xs
      → has q xs ≡ true
      → (m.node q).start + (m.node q).size ≤ (m.node head_node).start
  Ladder-under p q [] l s h = cc
  Ladder-under p q (x ∷ xs) l s h = elim (Bool-cases (q == x)) [
    | inr e ↦ Ladder-under x q xs l.1 (λ n k. s n (ground (arith, k))) (ground (arith, h, e))
    | inl e ↦
        let rest = Ladder-top x xs l.1 λ n k. s n (ground (arith, k)) in
        let whole = s x (ground (arith, ==_refl x)) in ground (arith, e, rest, whole)
  ]

  -- One of the two lies wholly before the other.
  abbrev pub Disjoint : ℕ → ℕ → Type 0
  Disjoint p q =
      ((m.node p).start + (m.node p).size ≤ (m.node q).start)
      ⊎ ((m.node q).start + (m.node q).size ≤ (m.node p).start)

  Ladder-Disjoint :
      (p a b : ℕ) (xs : List ℕ)
      → Ladder p xs
      → Sized xs
      → has a xs ≡ true
      → has b xs ≡ true
      → (a == b) ≡ false
      → Disjoint a b
  Ladder-Disjoint p a b [] l s h g n = cc
  Ladder-Disjoint p a b (x ∷ xs) l s h g n =
      let s' : Sized xs = λ k i. s k (ground (arith, i)) in
      let whole = s x (ground (arith, ==_refl x)) in
      elim (Bool-cases (a == x)) [
        | inl e ↦
            let up = Ladder-over x b xs l.1 s' (ground (arith, e, g, n)) in
            inl (ground (arith, e, up, whole))
        | inr e ↦ elim (Bool-cases (b == x)) [
          | inl f ↦
              let up = Ladder-over x a xs l.1 s' (ground (arith, e, h)) in
              inr (ground (arith, f, up, whole))
          | inr f ↦ Ladder-Disjoint x a b xs l.1 s' (ground (arith, e, h)) (ground (arith, f, g)) n
        ]
      ]

  module _ (t : Tidy m) where
    pub ladder : Ladder head_node m.node_list
    ladder =
        gaps-Ladder head_node m.node_list
          (Walks-after (λ n. after n (ring m)) (ring m) t.distinct λ q h. refl) t.gaps

    -- Two different blocks of an allocator that is in order do not overlap.
    pub blocks-Disjoint :
        (a b : ℕ)
        → has a m.node_list ≡ true
        → has b m.node_list ≡ true
        → (a == b) ≡ false
        → Disjoint a b
    blocks-Disjoint a b = Ladder-Disjoint head_node a b m.node_list ladder λ n h. (t.sizes n h).1

    pub block_ends :
        (a : ℕ)
        → has a m.node_list ≡ true
        → (m.node a).start + (m.node a).size ≤ (m.node head_node).start
    block_ends a = Ladder-under head_node a m.node_list ladder λ n h. (t.sizes n h).1

    pub block_begins :
        (a : ℕ) → has a m.node_list ≡ true → hole_node_start m head_node ≤ (m.node a).start
    block_begins a = Ladder-over head_node a m.node_list ladder λ n h. (t.sizes n h).1
