-- ===== src/Mm/Allocating.antt =====
-- test-drm-mm/drm_mm.c: drm_mm_insert_node_in_range from beginning to end.
use cma_pool_log.Base.{
  ℕ, ◌+◌, ◌-◌, ◌≤◌, ◌<◌, ◌%◌, ◌≡◌, refl, inl, inr, Bool, true, false, Option, none, some, arith,
  ◌==◌, ◌||◌, u64_mod, has, ltb, leb, add64, Outcome, ok, ◌>>=◌, Returns, bind-Returns, Bool-cases,
  ==_refl,
}
use cma_pool_log.Base.Ring.{has-get_after}
use cma_pool_log.Rbtree.{Balancing}
use cma_pool_log.Mm.{
  Mm, Node, InsertMode, head_node, ring, next_node, hole_node_start, hole_node_end, hole_follows,
  write,
}
use cma_pool_log.Mm.FindHole.{first_hole}
use cma_pool_log.Mm.Insert.{
  Request, hole_bounds, normal_alignment, mask_of, hole_loop, hole_fuel, largest_hole, occupy,
  insert_node_in_range,
}
use cma_pool_log.Mm.Sorting.{Sorted-same}
use cma_pool_log.Mm.Place.{Fits, place-Fits}
use cma_pool_log.Mm.Seek.{Sought, search-Sought}
use cma_pool_log.Mm.Layout.{Tidy}
use cma_pool_log.Mm.Occupying.{Goes, Stage-fixed, before_size, behind_size}
use cma_pool_log.Mm.Inserting.{Placed, occupy-Placed, Stage-has}

-- The node is not part of the allocator.
pub record Spare (x : ℕ) (m : Mm) : Type 0 where
  pub other : (x == head_node) ≡ false
  pub free : has x m.node_list ≡ false

-- Where the node went, and what else is as it was.
pub record Landed (x size alignment range_start range_end : ℕ) (m w : Mm) : Type 0 where
  pub tidy : Tidy w
  pub listed : (n : ℕ) → has n w.node_list ≡ ((n == x) || has n m.node_list)
  pub others :
      (n : ℕ)
      → (n == x) ≡ false
      → ((w.node n).start ≡ (m.node n).start) × ((w.node n).size ≡ (m.node n).size)
  pub sized : (w.node x).size ≡ size
  pub above : range_start ≤ (w.node x).start
  pub below : (w.node x).start + size ≤ range_end
  pub aligned : 1 < alignment → (w.node x).start % alignment ≡ 0

abbrev pub Inserted : (x size alignment range_start range_end : ℕ) → Mm → Bool × Mm → Type 0
Inserted x size alignment rs re m (false, w) = w ≡ m
Inserted x size alignment rs re m (true, w) = Landed x size alignment rs re m w

-- A node that is not on the list may be written to.
written-end :
    (x n : ℕ) (v : Node) (m : Mm) → Spare x m → hole_node_end (write m x v) n ≡ hole_node_end m n
written-end x n v m p =
    let there : has (next_node m n) (ring m) ≡ true =
      has-get_after n head_node (ring m) (ground arith) in
    ground (arith, there, p.other, p.free)

pub written-Tidy :
    (x : ℕ) (b : Node) (m : Mm)
    → Spare x m
    → b.start < u64_mod
    → b.hole_size ≡ 0
    → b.allocated ≡ false
    → b.scanned_block ≡ false
    → Tidy m
    → Tidy (write m x b)
unfolding hole_follows
written-Tidy x b m p small empty idle fresh v =
    let no_hole : (m.node x).hole_size ≡ 0 = ground (arith, v.holes x, p.other, p.free) in
    record {
      indexed = record {
        stack = v.indexed.stack;
        size = v.indexed.size;
        addr = v.indexed.addr;
        in_stack = λ n. ground (arith, v.indexed.in_stack n, no_hole);
        in_size = λ n. ground (arith, v.indexed.in_size n, no_hole);
        in_addr = λ n. ground (arith, v.indexed.in_addr n, no_hole);
        sorted =
            Sorted-same m (write m x b) refl refl
              (λ q h. ground (arith, h, v.indexed.in_size q, no_hole))
              (λ q h. ground (arith, h, v.indexed.in_addr q, no_hole)) v.indexed.sorted;
      };
      color_adjust = v.color_adjust;
      scan_active = v.scan_active;
      distinct = v.distinct;
      starts = λ n. ground (arith, v.starts n);
      head_free = ground (arith, v.head_free, p.other);
      owned = λ n e. ground (arith, v.owned n, p.free);
      allocated = λ n e. ground (arith, v.allocated n, p.free, idle);
      unscanned = λ n. ground (arith, v.unscanned n);
      sizes = λ n h. ground (arith, v.sizes n, p.free);
      gaps = λ n h. ground (arith, v.gaps n, written-end x n b m p, p.other, p.free);
      holes = λ n. ground (arith, v.holes n, no_hole, written-end x n b m p, p.other, p.free);
    }

-- The caller's writes to a node that is not on the list.
abbrev pub filled : ℕ → ℕ → ℕ → ℕ → Mm → Mm
filled x start size color m =
    write m x (record (m.node x) { size = size; start = start; color = color; hole_size = 0 })

filled-Tidy :
    (x start size color : ℕ) (m : Mm)
    → Spare x m
    → start < u64_mod
    → Tidy m
    → Tidy (filled x start size color m)
filled-Tidy x start size color m p small v =
    written-Tidy x _ m p small refl (ground (arith, v.allocated x, p.free, p.other)) (v.unscanned x)
      v

filled-Goes :
    (hole x start size color : ℕ) (m : Mm)
    → Tidy m
    → Spare x m
    → hole_follows m hole ≡ true
    → 0 < size
    → hole_node_start m hole ≤ start
    → start + size ≤ add64 (hole_node_start m hole) (m.node hole).hole_size
    → Goes hole x (filled x start size color m)
unfolding hole_follows
filled-Goes hole x start size color m v p follows pos above below =
    let there : has hole (ring m) ≡ true = ground (arith, v.holes hole, follows) in
    let apart : (hole == x) ≡ false = ground (arith, there, p.other, p.free) in
    let ends : add64 (hole_node_start m hole) (m.node hole).hole_size ≡ hole_node_end m hole =
      ground (arith, there, v.holes hole, v.gaps hole there, v.starts (next_node m hole)) in
    record {
      tidy = filled-Tidy x start size color m p (ground (arith, below, pos)) v;
      other = p.other;
      free = p.free;
      room = ground (arith, follows, apart);
      some_size = ground (arith, pos, ==_refl x);
      above = ground (arith, above, apart, ==_refl x);
      below = ground (
        arith,
        below,
        ends,
        ==_refl x,
        written-end x hole
            (record (m.node x) { size = size; start = start; color = color; hole_size = 0 }) m p,
      );
    }

Placed-Landed :
    (hole x start size color alignment rs re : ℕ) (m w : Mm)
    → Goes hole x (filled x start size color m)
    → Placed hole x (filled x start size color m) w
    → Fits size (normal_alignment alignment) (rs, re) (hole_bounds m hole) start
    → Landed x size alignment rs re m w
Placed-Landed hole x start size color alignment rs re m w g p f =
    let v = filled x start size color m in
    let fixed =
      λ (n : ℕ). Stage-fixed hole x n v (before_size hole x v) (behind_size hole x v) w p.stage in
    let there =
      λ (n : ℕ). Stage-has hole x n v (before_size hole x v) (behind_size hole x v) w g p.stage in
    let at_start : (w.node x).start ≡ start = ground (arith, fixed x, ==_refl x) in
    record {
      tidy = p.tidy;
      listed = λ n. ground (arith, there n, p.tidy.distinct, g.tidy.distinct, g.other);
      others = λ n e. ground (arith, fixed n, e);
      sized = ground (arith, fixed x, ==_refl x);
      above = ground (arith, at_start, f.above_range);
      below = ground (arith, at_start, f.below_range);
      aligned = λ big. rw at_start (ground (arith, f.aligned, big));
    }

abbrev pub asked : (size alignment color range_start range_end : ℕ) → InsertMode → Request
asked size alignment color rs re mode = record {
  size = size;
  alignment = normal_alignment alignment;
  mask = mask_of (normal_alignment alignment);
  color = color;
  range = (rs, re);
  mode = mode;
}

-- What the search finds, the node can go into.
pub found-Goes :
    (m : Mm) (x size alignment color rs re : ℕ) (mode : InsertMode) (hole start : ℕ)
    → Tidy m
    → Spare x m
    → 0 < size
    → re < u64_mod
    → alignment < u64_mod
    → Sought m (asked size alignment color rs re mode) (some (hole, start))
    → Goes hole x (filled x start size color m)
      × Fits size (normal_alignment alignment) (rs, re) (hole_bounds m hole) start
found-Goes m x size alignment color rs re mode hole start v p pos word small (follows, put) =
    let e = rw v.color_adjust at put in
    let f : Fits size (normal_alignment alignment) (rs, re) (hole_bounds m hole) start =
      place-Fits size (normal_alignment alignment) rs re (hole_node_start m hole)
        (add64 (hole_node_start m hole) (m.node hole).hole_size) (ground arith) word
        (ground (arith, small)) mode.search start e in
    (filled-Goes hole x start size color m v p follows pos f.above_hole f.below_hole, f)

module _ (rb : Balancing) where
  -- What follows the search loop.
  abbrev pub settled : (x size color : ℕ) → Mm → Option (ℕ × ℕ) → Outcome (Bool × Mm)
  settled x size color m none = ok (false, m)
  settled x size color m (some (hole, start)) =
      occupy rb hole x (filled x start size color m) >>= λ w. ok (true, w)

  found_Inserted :
      (m : Mm) (x size alignment color rs re : ℕ) (mode : InsertMode)
      → Tidy m
      → Spare x m
      → 0 < size
      → re < u64_mod
      → alignment < u64_mod
      → (found : Option (ℕ × ℕ)) → Sought m (asked size alignment color rs re mode) found
      → Returns (Inserted x size alignment rs re m) (settled x size color m found)
  found_Inserted m x size alignment color rs re mode v p pos word small none k = refl
  found_Inserted m x size alignment color rs re mode v p pos word small (some (hole, start)) k =
      let (g, f) = found-Goes m x size alignment color rs re mode hole start v p pos word small k in
      bind-Returns (Placed hole x (filled x start size color m)) (Inserted x size alignment rs re m)
        (occupy rb hole x (filled x start size color m)) _
        (occupy-Placed rb hole x (filled x start size color m) g)
        λ w pl. Placed-Landed hole x start size color alignment rs re m w g pl f

  -- In an allocator that is in order, and for a node that is not part of it, the insertion into a
  -- range of addresses below 2^64 comes to an end without a failed assertion, whatever the size and
  -- the mode. Either it changes nothing, or the node is on the list with the size that was asked for,
  -- in the range and aligned, the other blocks are where they were, and the allocator is in order.
  pub insert_node_in_range-Inserted :
      (m : Mm) (x size alignment color rs re : ℕ) (mode : InsertMode)
      → Tidy m
      → Spare x m
      → rs ≤ re
      → re < u64_mod
      → alignment < u64_mod
      → Returns
          (Inserted x size alignment rs re m)
          (insert_node_in_range rb m x size alignment color rs re mode)
  unfolding insert_node_in_range
  insert_node_in_range-Inserted m x size alignment color rs re mode v p le word small =
      let q = asked size alignment color rs re mode in
      let in_order : leb rs re ≡ true = ground (arith, le) in
      rw in_order
        (elim (Bool-cases ((size == 0) || ltb (re - rs) size || ltb (largest_hole m) size)) [
          | inl e ↦ rw e refl
          | inr e ↦ rw e (
              bind-Returns (Sought m q) (Inserted x size alignment rs re m)
                (hole_loop (hole_fuel m) m q (first_hole m rs re size mode.search)) _
                (search-Sought m q rs re size v.indexed)
                (λ o k.
                  found_Inserted m x size alignment color rs re mode v p (ground (arith, e)) word
                    small o k))
        ])
