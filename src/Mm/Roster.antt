-- ===== src/Mm/Roster.antt =====
-- The eviction scan of test-drm-mm/drm_mm.c: drm_mm_scan_init_with_range, drm_mm_scan_add_block,
-- drm_mm_scan_remove_block and drm_mm_scan_color_evict, and drm_mm_scan_init of drm/drm_mm.h.
use cma_pool_log.Base.{
  ℕ, ◌+◌, ◌-◌, Bool, true, false, not, ◌&&◌, ◌||◌, Option, none, some, List, [], ◌∷◌, ltb, leb,
  ◌==◌, if◌then◌else◌, u64_max, add64, update, remove, insert_after, tail, Outcome, ok, abort, ◌>>◌,
  assert,
}
use cma_pool_log.Mm.{
  Mm, Scan, Search, low, high, InsertMode, ring, next_node, prev_node, hole_node_start,
  hole_node_end,
}
use cma_pool_log.Mm.Insert.{normal_alignment, mask_of, is_high, place, color_adjusted}

unfoldable pub scan_init_with_range : Mm → ℕ → ℕ → ℕ → ℕ → ℕ → InsertMode → Outcome Scan
scan_init_with_range m size alignment color start end mode = do
  assert (ltb start end)
  assert (not ((size == 0) || ltb (end - start) size))
  assert (m.scan_active == 0)
  ok (record {
    size = size;
    alignment = normal_alignment alignment;
    remainder_mask = mask_of (normal_alignment alignment);
    range_start = start;
    range_end = end;
    hit_start = u64_max;
    hit_end = 0;
    color = color;
    mode = mode;
  })

unfoldable pub scan_init : Mm → ℕ → ℕ → ℕ → InsertMode → Outcome Scan
unfolding scan_init_with_range
scan_init m size alignment color mode = scan_init_with_range m size alignment color 0 u64_max mode

-- The list without the node, whose own links stay in place.
abbrev pub unlink : ℕ → ℕ → Mm → Mm
unlink hole x m = record m {
  node_list = remove x m.node_list;
  node =
      update m.node x
        (record (m.node x) { scanned_block = true; prev = hole; next = next_node m x });
  scan_active = m.scan_active + 1;
}

-- The scan compares the whole mode with DRM_MM_INSERT_HIGH: with the bit ONCE it is another one.
abbrev pub scan_search : InsertMode → Search
scan_search mode = if is_high mode.search && not mode.once then high else low

-- The end of drm_mm_scan_add_block, with the block off the list: the hole that it leaves is tried.
unfoldable pub scan_hit : Scan → Mm → ℕ → Outcome (Bool × Scan × Mm)
unfolding place
scan_hit scan m hole =
    let hole_start = hole_node_start m hole in
    let hole_end = hole_node_end m hole in
    elim (place (scan_search scan.mode) scan.size scan.alignment scan.remainder_mask
      (scan.range_start, scan.range_end)
      (color_adjusted m hole scan.color (hole_start, hole_end))) [
        | none ↦ ok (false, scan, m)
        | some start ↦ (do
          let hit_end = add64 start scan.size
          assert (ltb start hit_end)
          assert (leb hole_start start)
          assert (leb hit_end hole_end)
          ok (true, record scan { hit_start = start; hit_end = hit_end }, m))
      ]

-- The Boolean says whether a hole has been found.
unfoldable pub scan_add_block : Scan → Mm → ℕ → Outcome (Bool × Scan × Mm)
unfolding scan_hit
scan_add_block scan m x = do
  assert (m.node x).mm
  assert (m.node x).allocated
  assert (not (m.node x).scanned_block)
  let hole = prev_node m x
  assert (next_node m hole == x)
  scan_hit scan (unlink hole x m) hole

-- The list with the node put back behind the one that its link names.
abbrev pub relink : ℕ → Mm → Mm
relink x m = record m {
  node_list = tail (insert_after (m.node x).prev x (ring m));
  node = update m.node x (record (m.node x) { scanned_block = false });
  scan_active = m.scan_active - 1;
}

-- The forward link of a node, on the list or taken off it.
abbrev pub link_next : Mm → ℕ → ℕ
link_next m n = if (m.node n).scanned_block then (m.node n).next else next_node m n

-- The Boolean says whether the block should be evicted.
unfoldable pub scan_remove_block : Scan → Mm → ℕ → Outcome (Bool × Mm)
scan_remove_block scan m x = do
  assert (m.node x).mm
  assert (m.node x).scanned_block
  assert (not (m.scan_active == 0))
  assert (link_next m (m.node x).prev == (m.node x).next)
  ok (
    ltb scan.hit_start (add64 (m.node x).start (m.node x).size)
        && ltb (m.node x).start scan.hit_end,
    relink x m,
  )

-- The loop over `hole_stack` for the hole around the hit.
unfoldable pub hit_hole : Scan → Mm → List ℕ → Option ℕ
hit_hole scan m [] = none
hit_hole scan m (n ∷ ns) =
    if leb (hole_node_start m n) scan.hit_start
      && leb scan.hit_end (add64 (hole_node_start m n) (m.node n).hole_size)
    then some n
    else hit_hole scan m ns

unfoldable pub scan_color_evict : Scan → Mm → Outcome (Option ℕ)
unfolding hit_hole
scan_color_evict scan m = do
  assert (elim m.hole_stack [ [] ↦ false | _ ↦ true ])
  elim m.color_adjust [
    | none ↦ ok none
    | some adjust ↦ elim (hit_hole scan m m.hole_stack) [
      | none ↦ abort
      | some n ↦
          let (hole_start, hole_end) =
            adjust n scan.color
              (hole_node_start m n, add64 (hole_node_start m n) (m.node n).hole_size) in
          ok (
            if ltb scan.hit_start hole_start
            then some n
            else if ltb hole_end scan.hit_end
            then some (next_node m n)
            else none)
    ]
  ]
