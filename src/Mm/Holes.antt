-- ===== src/Mm/Holes.antt =====
-- add_hole and rm_hole of test-drm-mm/drm_mm.c, and drm_mm_init.
use cma_pool_log.Base.{
  ℕ, Bool, true, none, [], ◌∷◌, ltb, add64, sub64, update, remove, Outcome, ok, ◌>>◌, assert,
}
use cma_pool_log.Rbtree.{
  Tree, leaf, Cached, empty_cached, Balancing, link, links_first, insert_color_cached, erase_cached,
}
use cma_pool_log.Mm.{Mm, cleared, head_node, hole_follows, hole_node_start, hole_node_end, write}

-- The tests of the walks down: larger holes to the left, and lower addresses to the left.
abbrev pub larger : Mm → ℕ → ℕ → Bool
larger m n p = ltb (m.node p).hole_size (m.node n).hole_size

abbrev pub lower : Mm → ℕ → ℕ → Bool
lower m n p = ltb (hole_node_start m n) (hole_node_start m p)

module _ (rb : Balancing) where
  unfoldable pub insert_hole_size : Mm → ℕ → Cached
  unfolding link links_first insert_color_cached
  insert_hole_size m n =
      let root = (m.holes_size).root in
      insert_color_cached rb n (record m.holes_size { root = link (larger m n) n root })
        (links_first (larger m n) root)

  -- `RB_INSERT(mm->holes_addr, rb_hole_addr, HOLE_ADDR)`.
  unfoldable pub insert_hole_addr : Mm → ℕ → Tree
  unfolding link
  insert_hole_addr m n = rb.insert_color n (link (lower m n) n m.holes_addr)

  unfoldable pub add_hole : ℕ → Mm → Outcome Mm
  unfolding hole_follows insert_hole_size insert_hole_addr
  add_hole n m = do
    let m' =
        write m n
          (record (m.node n) { hole_size = sub64 (hole_node_end m n) (hole_node_start m n) })
    assert (hole_follows m' n)
    ok (record m' {
      holes_size = insert_hole_size m' n;
      holes_addr = insert_hole_addr m' n;
      hole_stack = n ∷ m.hole_stack;
    })

  unfoldable pub rm_hole : ℕ → Mm → Outcome Mm
  unfolding hole_follows erase_cached
  rm_hole n m = do
    assert (hole_follows m n)
    ok (record m {
      hole_stack = remove n m.hole_stack;
      holes_size = erase_cached rb n m.holes_size;
      holes_addr = rb.erase n m.holes_addr;
      node = update m.node n (record (m.node n) { hole_size = 0 });
    })

  -- `drm_mm_init`, of a structure cleared to 0.
  unfoldable pub init : ℕ → ℕ → Outcome Mm
  unfolding add_hole
  init start size = do
    assert (ltb start (add64 start size))
    add_hole head_node (record {
      color_adjust = none;
      node =
          update (λ _. cleared) head_node
            (record cleared { mm = true; start = add64 start size; size = sub64 0 size });
      node_list = [];
      hole_stack = [];
      interval_tree = empty_cached;
      subtree_last = λ _. 0;
      holes_size = empty_cached;
      holes_addr = leaf;
      scan_active = 0;
    })
