-- ===== src/Mm/Complete.antt =====
-- test-drm-mm/drm_mm.c: a search without the bit DRM_MM_INSERT_ONCE overlooks no hole, in any mode.
use mathlib.Core.List.{append_assoc, reverse-append, reverse-cons}
use cma_pool_log.Base.{
  ℕ, zero, suc, ◌≤◌, ◌<◌, ◌≡◌, refl, sym, ap, ◌∙◌, inl, inr, true, false, Option, none, some, List,
  [], ◌∷◌, ◌++◌, arith, ◌==◌, has, has-append, has-reverse, reverse, head?, u64_mod, add64, subst,
  Bool-cases, Option-cases, Returns, Returns-mono, both-Returns, Ensures, Ensures-mono,
}
use cma_pool_log.Base.Walk.{Walks}
use cma_pool_log.Rbtree.{in_order}
use cma_pool_log.Rbtree.Order.{Ordered, Ordered-append, Ordered-mono, any-Ordered, reverse-Ordered}
use cma_pool_log.Mm.{Mm, Search, best, low, high, evict, hole_follows, hole_node_start}
use cma_pool_log.Mm.FindHole.{first_hole, next_hole}
use cma_pool_log.Mm.Insert.{
  Request, mask_of, place_in, hole_bounds, hole_loop, hole_fuel, past_range,
}
use cma_pool_log.Mm.Place.{Fits, place-Fits, place-none}
use cma_pool_log.Mm.Seek.{order, order-Walks, has-order, Sought, search-Sought}
use cma_pool_log.Mm.Layout.{Tidy}
use cma_pool_log.Mm.BestFit.{Cut, best_hole-LastHole}
use cma_pool_log.Mm.Around.{holes_addr-Ordered, find_hole-Nearest, EndsBefore}

abbrev pub seeking : (size alignment color : ℕ) → ℕ × ℕ → Search → Request
seeking size alignment color range search = record {
  size = size;
  alignment = alignment;
  mask = mask_of alignment;
  color = color;
  range = range;
  mode = record { search = search; once = false };
}

Walks-append : (next : ℕ → Option ℕ) (xs ys : List ℕ) → Walks next (xs ++ ys) → Walks next ys
Walks-append next [] ys w = w
Walks-append next (x ∷ xs) ys w = Walks-append next xs ys w.1

abbrev reverse_cut : (l : List ℕ) (h : ℕ) → Cut l h → Cut (reverse l) h
reverse_cut l h c = record {
  front = reverse c.back;
  back = reverse c.front;
  split =
      ap reverse c.split
      ∙ reverse-append c.front (h ∷ c.back)
      ∙ ap (λ t. t ++ reverse c.front) (reverse-cons h c.back)
      ∙ append_assoc (reverse c.back) (h ∷ []) (reverse c.front);
}

module _ (m : Mm) (size alignment rs re : ℕ) where
  -- No block of the size goes into the hole.
  abbrev pub NoFit : ℕ → Type 0
  NoFit n = (t : ℕ) → ¬ Fits size alignment (rs, re) (hole_bounds m n) t

  -- Where the search breaks off, this hole and those behind have no place.
  abbrev Breaks : Search → ℕ → ℕ → Type 0
  Breaks s x n = past_range s (rs, re) (hole_bounds m x) ≡ true → NoFit n

  abbrev NoneFits : List ℕ → Type 0
  NoneFits l = (n : ℕ) → has n l ≡ true → NoFit n

  -- Where the search begins: the holes before are out of the question.
  abbrev Begins : List ℕ → Option ℕ → Type 0
  Begins l none = NoneFits l
  Begins l (some h) = (c : Cut l h) × NoneFits c.front

  module _ (pos : 0 < size) (t : Tidy m) where
    small_NoFit : (n : ℕ) → (m.node n).hole_size < size → NoFit n
    small_NoFit n h a f = ground (arith, h, f.above_hole, f.below_hole)

    under_NoFit : (n : ℕ) → (hole_bounds m n).1 ≤ rs → NoFit n
    under_NoFit n h a f = ground (arith, h, pos, f.above_range, f.below_hole)

    over_NoFit : (n : ℕ) → re ≤ hole_node_start m n → NoFit n
    over_NoFit n h a f = ground (arith, h, pos, f.above_hole, f.below_range)

    first_hole-Begins : (s : Search) → Begins (order m s) (first_hole m rs re size s)
    unfolding first_hole
    first_hole-Begins best = elim (best_hole-LastHole m size t.indexed) [
      | inl (e, small) ↦
          rw e (λ n h.
            small_NoFit n (small n (sym (has-reverse n (in_order (m.holes_size).root)) ∙ h)))
      | inr (h, e, k) ↦ rw e (
        reverse_cut _ h k.cut,
        λ n i. small_NoFit n (k.beyond n (sym (has-reverse n k.cut.back) ∙ i)),
      )
    ]
    first_hole-Begins low = elim (find_hole-Nearest m rs t) [
      | inl (e, empty) ↦ rw e (λ n h. ground (arith, h, empty))
      | inr (h, e, k) ↦ rw e (k.cut, λ n i. under_NoFit n (omega (arith, k.under n i)))
    ]
    first_hole-Begins high = elim (find_hole-Nearest m re t) [
      | inl (e, empty) ↦
          rw e (λ n h. ground (arith, h, empty, has-reverse n (in_order m.holes_addr)))
      | inr (h, e, k) ↦ rw e (
        reverse_cut _ h k.cut,
        λ n i. over_NoFit n (omega (arith, k.over n (sym (has-reverse n k.cut.back) ∙ i))),
      )
    ]
    first_hole-Begins evict = elim m.hole_stack as (λ l. Begins l (head? l)) [
      | [] ↦ λ n h. cc
      | n ∷ ns ↦ (record { front = []; back = ns; split = refl }, λ q h. cc)
    ]

    order-Breaks : (s : Search) → Ordered (Breaks s) (order m s)
    order-Breaks best = any-Ordered (Breaks best) (order m best) λ p q h. cc
    order-Breaks evict = any-Ordered (Breaks evict) (order m evict) λ p q h. cc
    order-Breaks low =
        Ordered-mono (EndsBefore m) (Breaks low) (in_order m.holes_addr)
          (λ p q h g b past. over_NoFit q (ground (arith, past, b))) (holes_addr-Ordered m t)
    order-Breaks high =
        Ordered-mono (λ p q. EndsBefore m q p) (Breaks high) (reverse (in_order m.holes_addr))
          (λ p q h g b past. under_NoFit q (ground (arith, past, b)))
          (reverse-Ordered (EndsBefore m) (in_order m.holes_addr) (holes_addr-Ordered m t))

    pub broken_NoFit :
        (s : Search) (n : ℕ) → past_range s (rs, re) (hole_bounds m n) ≡ true → NoFit n
    broken_NoFit best n h = cc
    broken_NoFit low n h = over_NoFit n (ground (arith, h))
    broken_NoFit high n h = under_NoFit n (ground (arith, h))
    broken_NoFit evict n h = cc

    -- A search that found nothing has tried all from `l` on, or broken off rightly.
    hole_loop-NoneFits :
        (color : ℕ) (s : Search) (l : List ℕ) (fuel : ℕ)
        → re < u64_mod
        → alignment < u64_mod
        → Walks (λ n. next_hole m n s) l
        → Ordered (Breaks s) l
        → Ensures
            (λ r. r ≡ none → NoneFits l)
            (hole_loop fuel m (seeking size alignment color (rs, re) s) (head? l))
    unfolding hole_loop
    hole_loop-NoneFits color s l zero word small w o = tt
    hole_loop-NoneFits color s [] (suc fuel) word small w o = λ e n h. cc
    hole_loop-NoneFits color s (x ∷ xs) (suc fuel) word small w o =
        let q = seeking size alignment color (rs, re) s in
        elim (Bool-cases (past_range s (rs, re) (hole_bounds m x))) [
          | inl past ↦ rw past (λ e n h. elim (Bool-cases (n == x)) [
            | inl same ↦
                let here : x ≡ n = ground (arith, same) in subst NoFit here (broken_NoFit s x past)
            | inr other ↦ o.0 n (ground (arith, h, other)) past
          ])
          | inr within ↦ elim (Option-cases (place_in m q x)) [
            | inr (a, e) ↦ rw (within, e) (λ f n h. cc)
            | inl e ↦
                rw (within, e)
                  (subst (λ r. Ensures (λ r. r ≡ none → NoneFits (x ∷ xs)) (hole_loop fuel m q r))
                    (sym w.0)
                    (Ensures-mono (λ r. r ≡ none → NoneFits xs) (λ r. r ≡ none → NoneFits (x ∷ xs))
                      _ (hole_loop-NoneFits color s xs fuel word small w.1 o.1)
                      λ r k f n h. elim (Bool-cases (n == x)) [
                        | inr other ↦ k f n (ground (arith, h, other))
                        | inl same ↦
                            let here : x ≡ n = ground (arith, same) in
                            subst NoFit here λ a.
                              place-none size alignment rs re (hole_node_start m x)
                                (add64 (hole_node_start m x) (m.node x).hole_size) (ground arith)
                                word small s a pos (rw t.color_adjust at e)
                      ]))
          ]
        ]

    begun-NoneFits :
        (color : ℕ) (s : Search) (fuel : ℕ)
        → re < u64_mod
        → alignment < u64_mod
        → (o : Option ℕ) → Begins (order m s) o
        → Ensures
            (λ r. r ≡ none → NoneFits (order m s))
            (hole_loop fuel m (seeking size alignment color (rs, re) s) o)
    begun-NoneFits color s fuel word small none b =
        Ensures-mono (λ r. r ≡ none → NoneFits []) (λ r. r ≡ none → NoneFits (order m s)) _
          (hole_loop-NoneFits color s [] fuel word small tt tt) λ r k f. b
    begun-NoneFits color s fuel word small (some h) (c, front) =
        let walks =
          Walks-append (λ n. next_hole m n s) c.front (h ∷ c.back)
            (subst (Walks (λ n. next_hole m n s)) c.split (order-Walks m s t.indexed)) in
        let (of, ob, cross) =
          Ordered-append (Breaks s) c.front (h ∷ c.back)
            (subst (Ordered (Breaks s)) c.split (order-Breaks s)) in
        Ensures-mono (λ r. r ≡ none → NoneFits (h ∷ c.back)) (λ r. r ≡ none → NoneFits (order m s))
          _ (hole_loop-NoneFits color s (h ∷ c.back) fuel word small walks ob)
          λ r k f n there. elim (Bool-cases (has n c.front)) [
            | inl i ↦ front n i
            | inr i ↦
                let behind : has n (c.front ++ h ∷ c.back) ≡ true =
                  sym (ap (has n) c.split) ∙ there in
                k f n (ground (arith, i, behind, has-append n c.front (h ∷ c.back)))
          ]

  -- What a search is for.
  abbrev pub Answers : Option (ℕ × ℕ) → Type 0
  Answers none = (n : ℕ) → hole_follows m n ≡ true → NoFit n
  Answers (some (hole, start)) =
      (hole_follows m hole ≡ true) × Fits size alignment (rs, re) (hole_bounds m hole) start

  -- In an allocator that is in order, the search for a size that is not 0, in a range of addresses below
  -- 2^64 and in any mode without the bit ONCE, comes to an end with the right answer: a hole and an
  -- address in it at which the block fits, in the range and aligned; or none, and then no hole has such
  -- an address.
  pub search-Answers :
      (color : ℕ) (s : Search)
      → Tidy m
      → 0 < size
      → re < u64_mod
      → alignment < u64_mod
      → Returns Answers (
          hole_loop
            (hole_fuel m)
            m
            (seeking size alignment color (rs, re) s)
            (first_hole m rs re size s))
  search-Answers color s t pos word small =
      let q = seeking size alignment color (rs, re) s in
      Returns-mono (λ r. Sought m q r × (r ≡ none → NoneFits (order m s))) Answers _
        (both-Returns (Sought m q) (λ r. r ≡ none → NoneFits (order m s)) _
          (search-Sought m q rs re size t.indexed)
          (begun-NoneFits pos t color s (hole_fuel m) word small (first_hole m rs re size s)
            (first_hole-Begins pos t s)))
        go
    where
      go :
          (r : Option (ℕ × ℕ))
          → Sought m (seeking size alignment color (rs, re) s) r × (r ≡ none → NoneFits (order m s))
          → Answers r
      go none (k, f) = λ n h. f refl n (has-order m s n t.indexed ∙ h)
      go (some (hole, start)) ((follows, put), f) = (
        follows,
        place-Fits size alignment rs re (hole_node_start m hole)
            (add64 (hole_node_start m hole) (m.node hole).hole_size) (ground arith) word small s
            start (rw t.color_adjust at put),
      )
