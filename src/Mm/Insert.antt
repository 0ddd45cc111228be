-- ===== src/Mm/Insert.antt =====
-- drm_mm_reserve_node and drm_mm_insert_node_in_range of test-drm-mm/drm_mm.c, and the short forms
-- of the latter in drm/drm_mm.h. The result's Boolean says whether the call returned 0; where it is
-- false the call returned -ENOSPC.
use Prim.Native.Nat.{bit_and}
use cma_pool_log.Base.{
  ℕ, zero, suc, ◌+◌, ◌-◌, ◌%◌, Bool, true, false, not, ◌&&◌, ◌||◌, Option, none, some, ltb, leb,
  ◌==◌, if◌then◌else◌, max, min, u64_max, add64, sub64, insert_after, tail, length, Outcome, ok,
  no_fuel, ◌>>=◌, ◌>>◌, assert,
}
use cma_pool_log.Rbtree.{Balancing}
use cma_pool_log.Mm.{Mm, Search, low, high, InsertMode, insert_best, ring, hole_node_start, write}
use cma_pool_log.Mm.Interval.{interval_tree_add_node}
use cma_pool_log.Mm.Holes.{add_hole, rm_hole}
use cma_pool_log.Mm.FindHole.{find_hole, first_hole, next_hole}

abbrev pub is_high : Search → Bool
is_high high = true
is_high _ = false

abbrev pub is_low : Search → Bool
is_low low = true
is_low _ = false

-- `is_power_of_2` of linux/kernel.h.
abbrev pub is_power_of_two : ℕ → Bool
is_power_of_two n = not (n == 0) && (bit_and n (n - 1) == 0)

abbrev pub normal_alignment : ℕ → ℕ
normal_alignment alignment = if leb alignment 1 then 0 else alignment

abbrev pub mask_of : ℕ → ℕ
mask_of alignment = if is_power_of_two alignment then alignment - 1 else 0

-- The address moved to the alignment, with what is left over.
abbrev pub left_over : ℕ → ℕ → ℕ → ℕ
left_over alignment mask start = if mask == 0 then start % alignment else bit_and start mask

abbrev pub shifted : Search → ℕ → ℕ → ℕ → ℕ
shifted search alignment rem start =
    if is_high search then sub64 start rem else add64 (sub64 start rem) alignment

-- The tests of the body, from `lo` and `hi`, the bounds of the hole within the range; `none` where
-- the loop says `continue`.
abbrev pub settle : (lo hi size alignment start rem moved : ℕ) → Option ℕ
settle lo hi size alignment start rem moved =
    if leb hi lo || ltb (hi - lo) size
    then none
    else if (alignment == 0) || (rem == 0)
    then some start
    else if ltb moved lo || ltb (sub64 hi moved) size
    then none
    else if leb hi moved || ltb (hi - moved) size
    then none
    else some moved

abbrev pub first_start : Search → ℕ → ℕ → ℕ → ℕ
first_start search lo hi size = if is_high search then hi - size else lo

-- The body of the search loop between the color adjustment and the writes, which
-- drm_mm_scan_add_block repeats: the address at which a block of the size goes into the hole, or
-- `none` where it says `continue` (there: returns false).
unfoldable pub place : Search → ℕ → ℕ → ℕ → ℕ × ℕ → ℕ × ℕ → Option ℕ
place search size alignment mask (range_start, range_end) (col_start, col_end) =
    let lo = max col_start range_start in
    let hi = min col_end range_end in
    let start = first_start search lo hi size in
    let rem = left_over alignment mask start in
    settle lo hi size alignment start rem (shifted search alignment rem start)

-- `mm->color_adjust`, where the driver set it.
abbrev pub color_adjusted : Mm → ℕ → ℕ → ℕ × ℕ → ℕ × ℕ
color_adjusted m hole color bounds = elim m.color_adjust [
  | none ↦ bounds
  | some f ↦ f hole color bounds
]

abbrev pub hole_bounds : Mm → ℕ → ℕ × ℕ
hole_bounds m hole =
    (hole_node_start m hole, add64 (hole_node_start m hole) (m.node hole).hole_size)

-- What the search loop goes by: the fixed arguments of drm_mm_insert_node_in_range.
pub record Request : Type 0 where
  pub size : ℕ
  pub alignment : ℕ
  pub mask : ℕ
  pub color : ℕ
  pub range : ℕ × ℕ
  pub mode : InsertMode

-- The two tests for `break`.
abbrev pub past_range : Search → ℕ × ℕ → ℕ × ℕ → Bool
past_range search (range_start, range_end) (hole_start, hole_end) =
    (is_low search && leb range_end hole_start) || (is_high search && leb hole_end range_start)

abbrev pub place_in : Mm → Request → ℕ → Option ℕ
place_in m q hole =
    place q.mode.search q.size q.alignment q.mask q.range
      (color_adjusted m hole q.color (hole_bounds m hole))

-- The search loop: the hole and the address in it, or none. The code changes nothing before it has
-- found one.
unfoldable pub hole_loop : ℕ → Mm → Request → Option ℕ → Outcome (Option (ℕ × ℕ))
unfolding next_hole
hole_loop zero m q hole = no_fuel
hole_loop (suc fuel) m q none = ok none
hole_loop (suc fuel) m q (some hole) =
    let rest = hole_loop fuel m q (if q.mode.once then none else next_hole m hole q.mode.search) in
    if past_range q.mode.search q.range (hole_bounds m hole)
    then ok none
    else elim (place_in m q hole) [ none ↦ rest | some start ↦ ok (some (hole, start)) ]

-- `rb_to_hole_size_or_zero(rb_first_cached(&mm->holes_size))`.
abbrev pub largest_hole : Mm → ℕ
largest_hole m = elim (m.holes_size).leftmost [ none ↦ 0 | some n ↦ (m.node n).hole_size ]

-- Each hole is looked at once, and one more round sees that there are no more.
abbrev pub hole_fuel : Mm → ℕ
hole_fuel m = length m.hole_stack + 2

module _ (rb : Balancing) where
  -- The writes that put the node, its address and size set, into the hole.
  unfoldable pub occupy : ℕ → ℕ → Mm → Outcome Mm
  unfolding add_hole rm_hole interval_tree_add_node
  occupy hole x m = do
    let (hole_start, hole_end) = hole_bounds m hole
    let listed = record m { node_list = tail (insert_after hole x (ring m)) }
    let linked = interval_tree_add_node rb hole x listed
    let allocated =
        write linked x (record (linked.node x) { mm = true; allocated = true; hole_size = 0 })
    taken ← rm_hole rb hole allocated
    before ← (if ltb hole_start (m.node x).start then add_hole rb hole taken else ok taken)
    if ltb (add64 (m.node x).start (m.node x).size) hole_end
        then add_hole rb x before
        else ok before

  -- `node`'s start, size and color are set by the caller, and its other fields are 0.
  unfoldable pub reserve_node : Mm → ℕ → Outcome (Bool × Mm)
  unfolding find_hole occupy
  reserve_node m x =
      let start = (m.node x).start in
      let end = add64 start (m.node x).size in
      if leb end start then ok (false, m) else elim (find_hole m start) [
        | none ↦ ok (false, m)
        | some hole ↦
            let (adj_start, adj_end) =
              color_adjusted m hole (m.node x).color (hole_bounds m hole) in
            if ltb start adj_start || ltb adj_end end
            then ok (false, m)
            else (do m' ← occupy hole x m; ok (true, m'))
      ]

  unfoldable pub insert_node_in_range :
      Mm → ℕ → ℕ → ℕ → ℕ → ℕ → ℕ → InsertMode → Outcome (Bool × Mm)
  unfolding first_hole hole_loop occupy place
  insert_node_in_range m x size alignment color range_start range_end mode = do
    assert (leb range_start range_end)
    if (size == 0) || ltb (range_end - range_start) size || ltb (largest_hole m) size
        then ok (false, m)
        else (do
          let q : Request = record {
            size = size;
            alignment = normal_alignment alignment;
            mask = mask_of (normal_alignment alignment);
            color = color;
            range = (range_start, range_end);
            mode = mode;
          }
          found ← hole_loop (hole_fuel m) m q (first_hole m range_start range_end size mode.search)
          elim found [
            | none ↦ ok (false, m)
            | some (hole, start) ↦ (do
              m' ← occupy hole x (
                  write m x (record (m.node x) {
                    size = size;
                    start = start;
                    color = color;
                    hole_size = 0;
                  }))
              ok (true, m'))
          ])

  -- `drm_mm_insert_node_generic` and `drm_mm_insert_node`.
  unfoldable pub insert_node_generic : Mm → ℕ → ℕ → ℕ → ℕ → InsertMode → Outcome (Bool × Mm)
  unfolding insert_node_in_range
  insert_node_generic m x size alignment color mode =
      insert_node_in_range m x size alignment color 0 u64_max mode

  unfoldable pub insert_node : Mm → ℕ → ℕ → Outcome (Bool × Mm)
  unfolding insert_node_generic
  insert_node m x size = insert_node_generic m x size 0 0 insert_best
