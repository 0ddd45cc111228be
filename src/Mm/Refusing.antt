-- ===== src/Mm/Refusing.antt =====
-- test-drm-mm/drm_mm.c: where drm_mm_insert_node_in_range refuses, in every mode and with the bit
-- DRM_MM_INSERT_ONCE or without it.
use cma_pool_log.Base.{
  ℕ, zero, suc, ◌-◌, ◌≤◌, ◌<◌, ◌≡◌, refl, subst, ◌∙◌, inl, inr, Bool, true, false, Option, none,
  some, List, [], ◌∷◌, arith, ◌==◌, ◌||◌, has, head?, add64, u64_mod, leb, ltb, Bool-cases,
  Option-cases, Outcome, ok, abort, no_fuel, Returns, Ensures, Ensures-mono, Returns-mono,
  bind-Ensures, Returns-Ensures, any-Ensures, both-Returns,
}
use cma_pool_log.Rbtree.{Balancing, in_order}
use cma_pool_log.Rbtree.Order.{Ordered}
use cma_pool_log.Mm.{Mm, Search, InsertMode, hole_follows, hole_node_start}
use cma_pool_log.Mm.FindHole.{first_hole}
use cma_pool_log.Mm.Insert.{
  largest_hole, normal_alignment, place_in, past_range, hole_bounds, hole_loop, hole_fuel, occupy,
  insert_node_in_range,
}
use cma_pool_log.Mm.Layout.{Tidy}
use cma_pool_log.Mm.Sorting.{NotSmaller}
use cma_pool_log.Mm.Place.{place-none}
use cma_pool_log.Mm.Allocating.{
  Spare, Landed, Inserted, asked, filled, settled, insert_node_in_range-Inserted,
}
use cma_pool_log.Mm.Complete.{NoFit, Answers, search-Answers, broken_NoFit}

-- The largest hole is at hand.
largest_hole-largest :
    (m : Mm) (n : ℕ) → Tidy m → hole_follows m n ≡ true → (m.node n).hole_size ≤ largest_hole m
largest_hole-largest m n t follows =
    go (in_order (m.holes_size).root) t.indexed.sorted.by_size t.indexed.sorted.largest
      (t.indexed.in_size n ∙ follows)
  where
    go :
        (l : List ℕ)
        → Ordered (NotSmaller m) l
        → (m.holes_size).leftmost ≡ head? l
        → has n l ≡ true
        → (m.node n).hole_size ≤ largest_hole m
    go [] o e h = cc
    go (x ∷ xs) o e h = elim (Bool-cases (n == x)) [
      | inl s ↦ ground (arith, e, s)
      | inr d ↦ ground (arith, e, o.0 n (ground (arith, h, d)))
    ]

-- No hole that the mode lets the search try has room: without the bit ONCE none at all, and with it
-- the one that the search tries first.
abbrev pub NoneTried : Mm → (size alignment rs re : ℕ) → InsertMode → Type 0
NoneTried m size alignment rs re mode =
    (n : ℕ)
    → hole_follows m n ≡ true
    → (mode.once ≡ true → first_hole m rs re size mode.search ≡ some n)
    → NoFit m size alignment rs re n

always-Ensures {ℓ} : {A : Type ℓ} (P : A → Type 0) (r : Outcome A) → ((a : A) → P a) → Ensures P r
always-Ensures P (ok a) f = f a
always-Ensures P abort f = tt
always-Ensures P no_fuel f = tt

when-Ensures {ℓ} :
    {A : Type ℓ} (C : Type 0) (P : A → Type 0) (r : Outcome A)
    → (C → Ensures P r)
    → Ensures (λ a. C → P a) r
when-Ensures C P (ok a) f = f
when-Ensures C P abort f = tt
when-Ensures C P no_fuel f = tt

module _ (m : Mm) (size alignment rs re : ℕ) (pos : 0 < size) (t : Tidy m) (word : re < u64_mod)
    (small : normal_alignment alignment < u64_mod) where
  -- With the bit ONCE.
  once_NoFit :
      (color : ℕ) (s : Search) (fuel : ℕ) (o : Option ℕ)
      → Ensures
          (λ r. r ≡ none → (n : ℕ) → o ≡ some n → NoFit m size (normal_alignment alignment) rs re n)
          (hole_loop fuel m
            (asked size alignment color rs re (record { search = s; once = true }))
            o)
  unfolding hole_loop
  once_NoFit color s zero o = tt
  once_NoFit color s (suc fuel) none = λ e n h. cc
  once_NoFit color s (suc fuel) (some x) =
      let q = asked size alignment color rs re (record { search = s; once = true }) in
      let NoFit_x = NoFit m size (normal_alignment alignment) rs re in
      elim (Bool-cases (past_range s (rs, re) (hole_bounds m x))) [
        | inl past ↦ rw past (λ e n h.
            let same : x ≡ n = ground (arith, h) in
            subst NoFit_x same
              (broken_NoFit m size (normal_alignment alignment) rs re pos t s x past))
        | inr within ↦ elim (Option-cases (place_in m q x)) [
          | inr (a, e) ↦ rw (within, e) (λ f n h. cc)
          | inl e ↦
              rw (within, e)
                (always-Ensures _ (hole_loop fuel m q none) λ r f n h.
                  let same : x ≡ n = ground (arith, h) in
                  subst NoFit_x same λ a.
                    place-none size (normal_alignment alignment) rs re (hole_node_start m x)
                      (add64 (hole_node_start m x) (m.node x).hole_size) (ground arith) word small s
                      a pos (rw t.color_adjust at e))
        ]
      ]

  search_NoneTried :
      (color : ℕ) (s : Search) (once : Bool)
      → let mode : InsertMode = record { search = s; once = once } in
        Ensures
          (λ r. r ≡ none → NoneTried m size (normal_alignment alignment) rs re mode)
          (hole_loop
            (hole_fuel m)
            m
            (asked size alignment color rs re mode)
            (first_hole m rs re size s))
  search_NoneTried color s true =
      let q = asked size alignment color rs re (record { search = s; once = true }) in
      let o = first_hole m rs re size s in
      Ensures-mono
        (λ r. r ≡ none → (n : ℕ) → o ≡ some n → NoFit m size (normal_alignment alignment) rs re n)
        (λ r. r ≡ none → NoneTried m size (normal_alignment alignment) rs re q.mode)
        (hole_loop (hole_fuel m) m q o) (once_NoFit color s (hole_fuel m) o)
        λ r f e n follows first. f e n (first refl)
  search_NoneTried color s false =
      let q = asked size alignment color rs re (record { search = s; once = false }) in
      Ensures-mono (Answers m size (normal_alignment alignment) rs re)
        (λ r. r ≡ none → NoneTried m size (normal_alignment alignment) rs re q.mode)
        (hole_loop (hole_fuel m) m q (first_hole m rs re size s))
        (Returns-Ensures (Answers m size (normal_alignment alignment) rs re) _
          (search-Answers m size (normal_alignment alignment) rs re color s t pos word small))
        λ r k e n follows first.
          (subst (Answers m size (normal_alignment alignment) rs re) e k) n follows

-- A refusal changes nothing, and is right; a success lands the node.
abbrev pub Inserts : (x size alignment rs re : ℕ) → InsertMode → Mm → Bool × Mm → Type 0
Inserts x size alignment rs re mode m (false, w) =
    (w ≡ m) × (0 < size → NoneTried m size (normal_alignment alignment) rs re mode)
Inserts x size alignment rs re mode m (true, w) = Landed x size alignment rs re m w

module _ (rb : Balancing) where
  -- A refusal means that no hole that the mode allows has room.
  abbrev Refused : (size alignment rs re : ℕ) → InsertMode → Mm → Bool × Mm → Type 0
  Refused size alignment rs re mode m r =
      r.0 ≡ false → NoneTried m size (normal_alignment alignment) rs re mode

  insert_node_in_range-Refused :
      (m : Mm) (x size alignment color rs re : ℕ) (mode : InsertMode)
      → Tidy m
      → 0 < size
      → rs ≤ re
      → re < u64_mod
      → alignment < u64_mod
      → Ensures
          (Refused size alignment rs re mode m)
          (insert_node_in_range rb m x size alignment color rs re mode)
  unfolding insert_node_in_range
  insert_node_in_range-Refused m x size alignment color rs re mode t pos le word small =
      let in_order : leb rs re ≡ true = ground (arith, le) in
      let q = asked size alignment color rs re mode in
      let Tried = λ (r : Option (ℕ × ℕ)).
        r ≡ none → NoneTried m size (normal_alignment alignment) rs re mode in
      rw in_order
        (elim (Bool-cases ((size == 0) || ltb (re - rs) size || ltb (largest_hole m) size)) [
          | inl e ↦ rw e (λ r n follows first a f. ground (
            arith,
            e,
            pos,
            f.above_range,
            f.below_range,
            f.above_hole,
            f.below_hole,
            largest_hole-largest m n t follows,
          ))
          | inr e ↦ rw e (
              bind-Ensures Tried (Refused size alignment rs re mode m)
                (hole_loop (hole_fuel m) m q (first_hole m rs re size mode.search))
                (settled rb x size color m)
                (search_NoneTried m size alignment rs re pos t word (ground (arith, small)) color
                  mode.search mode.once)
                go)
        ])
    where
      go :
          (r : Option (ℕ × ℕ))
          → (r ≡ none → NoneTried m size (normal_alignment alignment) rs re mode)
          → Ensures (Refused size alignment rs re mode m) (settled rb x size color m r)
      go none k = λ e. k refl
      go (some (hole, start)) k =
          any-Ensures (Refused size alignment rs re mode m)
            (occupy rb hole x (filled x start size color m)) (λ w. ok (true, w)) λ w e. cc

  -- In an allocator that is in order and without color_adjust, for a node that is not part of it and a
  -- range of addresses below 2^64, an insertion of any size and in any mode comes to an end without a
  -- failed assertion. Either the node is on the list with the size that was asked for, in the range
  -- and aligned, the other blocks are where they were, and the allocator is in order; or nothing has
  -- changed, and then, if the size is not 0, the block fits at no address of the range, aligned as
  -- asked, into a hole that the mode allows: with the bit ONCE the hole that the search tries first,
  -- and without it any hole.
  pub insert_node_in_range-Inserts :
      (m : Mm) (x size alignment color rs re : ℕ) (mode : InsertMode)
      → Tidy m
      → Spare x m
      → rs ≤ re
      → re < u64_mod
      → alignment < u64_mod
      → Returns
          (Inserts x size alignment rs re mode m)
          (insert_node_in_range rb m x size alignment color rs re mode)
  insert_node_in_range-Inserts m x size alignment color rs re mode t p le word small =
      Returns-mono
        (λ r.
          Inserted x size alignment rs re m r × (0 < size → Refused size alignment rs re mode m r))
        (Inserts x size alignment rs re mode m) _
        (both-Returns (Inserted x size alignment rs re m)
          (λ r. 0 < size → Refused size alignment rs re mode m r) _
          (insert_node_in_range-Inserted rb m x size alignment color rs re mode t p le word small)
          (when-Ensures (0 < size) (Refused size alignment rs re mode m) _ λ pos.
            insert_node_in_range-Refused m x size alignment color rs re mode t pos le word small))
        go
    where
      go :
          (r : Bool × Mm)
          → Inserted x size alignment rs re m r × (0 < size → Refused size alignment rs re mode m r)
          → Inserts x size alignment rs re mode m r
      go (true, w) (l, f) = l
      go (false, w) (same, f) = (same, λ pos. f pos refl)
