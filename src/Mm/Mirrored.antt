-- ===== src/Mm/Mirrored.antt =====
-- test-drm-mm/drm_mm.c: the interval tree holds the blocks after each operation.
use cma_pool_log.Base.{
  ℕ, ◌-◌, ◌≤◌, ◌<◌, ◌≡◌, refl, ap, ◌∙◌, sym, subst, inl, inr, Bool, true, false, Option, none, some,
  arith, u64_mod, ◌==◌, ◌||◌, has, remove, tail, insert_after, Distinct, if◌then◌else◌, Bool-cases,
  head?, ltb, leb, add64, ok, assert, ◌>>◌, Ensures, any-Ensures, after, not, bind-Ensures, Returns,
  Returns-mono, both-Returns, Returns-Ensures,
}
use cma_pool_log.Rbtree.{Balancing, in_order, rb_next}
use cma_pool_log.Mm.{Mm, InsertMode, ring, hole_node_start, hole_follows, write, prev_node}
use cma_pool_log.Mm.Holes.{add_hole, rm_hole}
use cma_pool_log.Mm.Interval.{interval_tree_add_node, interval_tree_remove}
use cma_pool_log.Mm.FindHole.{first_hole}
use cma_pool_log.Mm.Insert.{largest_hole, occupy, insert_node_in_range, hole_loop, hole_fuel}
use cma_pool_log.Mm.Remove.{rm_hole_after, remove_node}
use cma_pool_log.Mm.Layout.{Tidy}
use cma_pool_log.Mm.Occupying.{Goes, entered}
use cma_pool_log.Mm.Sorting.{leftmost-remove}
use cma_pool_log.Mm.Seek.{Sought, search-Sought}
use cma_pool_log.Mm.Allocating.{
  Spare, Inserted, filled, asked, settled, found-Goes, insert_node_in_range-Inserted,
}
use cma_pool_log.Mm.Removing.{Removed, remove_node-Removed}
use cma_pool_log.Mm.Mirroring.{Mirrors, interval_tree_add_node-Mirrors}

-- The list and the tree are the same.
abbrev SameTree : Mm → Mm → Type 0
SameTree m w = (w.node_list ≡ m.node_list) × (w.interval_tree ≡ m.interval_tree)

SameTree-Mirrors : (m w : Mm) → SameTree m w → Mirrors m → Mirrors w
SameTree-Mirrors m w (a, b) s = record {
  entries = ap (λ t. in_order t.root) b ∙ s.entries ∙ sym a;
  leftmost = ap (λ t. t.leftmost) b ∙ s.leftmost ∙ ap head? (sym a);
}

asserted : (P : Mm → Type 0) (b : Bool) (w : Mm) → P w → Ensures P (assert b >> ok w)
asserted P true w h = h
asserted P false w h = tt

-- What an insertion leaves, whether or not it placed the node.
abbrev pub GoodInsertion : Bool × Mm → Type 0
GoodInsertion (placed, w) = Tidy w × Mirrors w

module _ (rb : Balancing) where
  add_hole-Mirrors : (n : ℕ) (m : Mm) → Mirrors m → Ensures Mirrors (add_hole rb n m)
  unfolding add_hole
  add_hole-Mirrors n m s = asserted Mirrors _ _ (SameTree-Mirrors m _ (refl, refl) s)

  rm_hole-Mirrors : (n : ℕ) (m : Mm) → Mirrors m → Ensures Mirrors (rm_hole rb n m)
  unfolding rm_hole
  rm_hole-Mirrors n m s = asserted Mirrors _ _ (SameTree-Mirrors m _ (refl, refl) s)

  rm_hole_after-Same : (n : ℕ) (m : Mm) → Ensures (SameTree m) (rm_hole_after rb n m)
  unfolding rm_hole_after rm_hole
  rm_hole_after-Same n m = go (hole_follows m n)
    where
      go : (b : Bool) → Ensures (SameTree m) (if b then rm_hole rb n m else ok m)
      go true = asserted (SameTree m) _ _ (refl, refl)
      go false = (refl, refl)

  when_Mirrors :
      (b : Bool) (n : ℕ) (m : Mm)
      → Mirrors m
      → Ensures Mirrors (if b then add_hole rb n m else ok m)
  when_Mirrors true n m s = add_hole-Mirrors n m s
  when_Mirrors false n m s = s

  occupy-Mirrors :
      (hole x : ℕ) (m : Mm) → Goes hole x m → Mirrors m → Ensures Mirrors (occupy rb hole x m)
  unfolding occupy
  occupy-Mirrors hole x m g s =
      let linked =
        interval_tree_add_node rb hole x
          (record m { node_list = tail (insert_after hole x (ring m)) }) in
      bind-Ensures Mirrors Mirrors (rm_hole rb hole (entered rb hole x m)) _
        (rm_hole-Mirrors hole (entered rb hole x m) (
          SameTree-Mirrors linked (entered rb hole x m) (refl, refl)
            (interval_tree_add_node-Mirrors hole x m g s rb)))
        λ taken t.
          bind-Ensures Mirrors Mirrors
            (if ltb (hole_node_start m hole) (m.node x).start
              then add_hole rb hole taken
              else ok taken)
            _ (when_Mirrors (ltb (hole_node_start m hole) (m.node x).start) hole taken t)
            λ before b.
              when_Mirrors
                (ltb (add64 (m.node x).start (m.node x).size)
                  (add64 (hole_node_start m hole) (m.node hole).hole_size))
                x before b

  found_Mirrors :
      (m : Mm) (x size alignment color rs re : ℕ) (mode : InsertMode)
      → Tidy m
      → Spare x m
      → 0 < size
      → re < u64_mod
      → alignment < u64_mod
      → Mirrors m
      → (found : Option (ℕ × ℕ)) → Sought m (asked size alignment color rs re mode) found
      → Ensures (λ r. Mirrors r.1) (settled rb x size color m found)
  found_Mirrors m x size alignment color rs re mode v p pos word small s none k = s
  found_Mirrors m x size alignment color rs re mode v p pos word small s (some (hole, start)) k =
      let (g, _) = found-Goes m x size alignment color rs re mode hole start v p pos word small k in
      let filled_m = filled x start size color m in
      bind-Ensures Mirrors (λ r. Mirrors r.1) (occupy rb hole x filled_m) (λ w. ok (true, w))
        (occupy-Mirrors hole x filled_m g (SameTree-Mirrors m filled_m (refl, refl) s)) λ w h. h

  insert_node_in_range-tree :
      (m : Mm) (x size alignment color rs re : ℕ) (mode : InsertMode)
      → Tidy m
      → Spare x m
      → rs ≤ re
      → re < u64_mod
      → alignment < u64_mod
      → Mirrors m
      → Ensures (λ r. Mirrors r.1) (insert_node_in_range rb m x size alignment color rs re mode)
  unfolding insert_node_in_range
  insert_node_in_range-tree m x size alignment color rs re mode v p le word small s =
      let q = asked size alignment color rs re mode in
      let in_order : leb rs re ≡ true = ground (arith, le) in
      rw in_order
        (elim (Bool-cases ((size == 0) || ltb (re - rs) size || ltb (largest_hole m) size)) [
          | inl e ↦ rw e s
          | inr e ↦ rw e (
              bind-Ensures (Sought m q) (λ r. Mirrors r.1)
                (hole_loop (hole_fuel m) m q (first_hole m rs re size mode.search)) _
                (Returns-Ensures (Sought m q) _ (search-Sought m q rs re size v.indexed))
                (λ o k.
                  found_Mirrors m x size alignment color rs re mode v p (ground (arith, e)) word
                    small s o k))
        ])

  Inserted-Tidy :
      (x size alignment rs re : ℕ) (m : Mm) (r : Bool × Mm)
      → Tidy m
      → Inserted x size alignment rs re m r
      → Tidy r.1
  Inserted-Tidy x size alignment rs re m (true, w) t l = l.tidy
  Inserted-Tidy x size alignment rs re m (false, w) t e = subst Tidy (sym e) t

  -- In an allocator that is in order and whose interval tree holds the blocks of the list in the
  -- list's order, for a node that was not part of it and a range of addresses below 2^64, an
  -- insertion in any mode returns, and leaves the allocator in order and its tree and its list alike.
  pub insert_node_in_range-Mirrors :
      (m : Mm) (x size alignment color rs re : ℕ) (mode : InsertMode)
      → Tidy m
      → Mirrors m
      → Spare x m
      → rs ≤ re
      → re < u64_mod
      → alignment < u64_mod
      → Returns GoodInsertion (insert_node_in_range rb m x size alignment color rs re mode)
  insert_node_in_range-Mirrors m x size alignment color rs re mode v s p le word small =
      Returns-mono (λ r. Inserted x size alignment rs re m r × Mirrors r.1) GoodInsertion _
        (both-Returns (Inserted x size alignment rs re m) (λ r. Mirrors r.1) _
          (insert_node_in_range-Inserted rb m x size alignment color rs re mode v p le word small)
          (insert_node_in_range-tree m x size alignment color rs re mode v p le word small s))
        λ r (l, h). (Inserted-Tidy x size alignment rs re m r v l, h)

  -- The state between the two holes' removal.
  abbrev taken_off : ℕ → Mm → Mm
  taken_off x m =
      let m' = interval_tree_remove rb x m in
      write (record m' { node_list = remove x m'.node_list }) x
        (record (m'.node x) { allocated = false })

  taken_off-Mirrors : (x : ℕ) (m : Mm) → Distinct m.node_list → Mirrors m → Mirrors (taken_off x m)
  unfolding interval_tree_remove rb_next
  taken_off-Mirrors x m d s = record {
    entries =
        rb.in_order-erase_augmented _ x (m.interval_tree).root m.subtree_last
        ∙ ap (remove x) s.entries;
    leftmost = rw s.leftmost (
        subst
          (λ l.
            elim (head? m.node_list) as (λ _. Option ℕ) [
              | none ↦ none
              | some y ↦ if y == x then after x l else some y
            ]
            ≡ head? (remove x m.node_list))
          (sym s.entries) (leftmost-remove x m.node_list d));
  }

  remove_node-tree : (m : Mm) (x : ℕ) → Tidy m → Mirrors m → Ensures Mirrors (remove_node rb x m)
  unfolding remove_node
  remove_node-tree m x t s = any-Ensures Mirrors (assert (m.node x).allocated) _ λ _.
      any-Ensures Mirrors (assert (not (m.node x).scanned_block)) _ λ _.
        bind-Ensures (SameTree m) Mirrors (rm_hole_after rb x m) _ (rm_hole_after-Same x m) λ v e.
          let w = taken_off x v in
          let off : Mirrors w =
            taken_off-Mirrors x v (subst Distinct (sym e.0) t.distinct.1)
              (SameTree-Mirrors m v e s) in
          bind-Ensures (SameTree w) Mirrors (rm_hole_after rb (prev_node m x) w) _
            (rm_hole_after-Same (prev_node m x) w)
            λ u f. add_hole-Mirrors (prev_node m x) u (SameTree-Mirrors w u f off)

  -- In an allocator that is in order and whose interval tree holds the blocks of the list in the
  -- list's order, the removal of one of its blocks returns, and leaves the allocator in order and its
  -- tree and its list alike.
  pub remove_node-Mirrors :
      (m : Mm) (x : ℕ)
      → Tidy m
      → Mirrors m
      → has x m.node_list ≡ true
      → Returns (λ w. Tidy w × Mirrors w) (remove_node rb x m)
  remove_node-Mirrors m x t s h =
      Returns-mono (λ w. Removed rb x m w × Mirrors w) (λ w. Tidy w × Mirrors w) _
        (both-Returns (Removed rb x m) Mirrors _ (remove_node-Removed rb x m t h)
          (remove_node-tree m x t s))
        λ w (r, k). (r.tidy, k)
