-- ===== src/Mm/Remove.antt =====
-- drm_mm_remove_node, drm_mm_replace_node and drm_mm_takedown of test-drm-mm/drm_mm.c.
use cma_pool_log.Base.{
  ℕ, Bool, true, false, not, none, some, if◌then◌else◌, ◌==◌, update, remove, replace, Outcome, ok,
  ◌>>=◌, ◌>>◌, assert,
}
use cma_pool_log.Rbtree.{Tree, leaf, fork, Cached, Balancing}
use cma_pool_log.Mm.{Mm, hole_follows, prev_node, clean, write}
use cma_pool_log.Mm.Interval.{interval_tree_remove}
use cma_pool_log.Mm.Holes.{add_hole, rm_hole}

-- `rb_replace_node`: the new entry stands where the old one stood.
abbrev pub rb_replace : ℕ → ℕ → Tree → Tree
rb_replace old new leaf = leaf
rb_replace old new (fork c l x r) =
    fork c (rb_replace old new l) (if x == old then new else x) (rb_replace old new r)

-- `rb_replace_node_cached`.
abbrev pub rb_replace_cached : ℕ → ℕ → Cached → Cached
rb_replace_cached old new t = record {
  root = rb_replace old new t.root;
  leftmost = elim t.leftmost [ none ↦ none | some y ↦ if y == old then some new else some y ];
}

module _ (rb : Balancing) where
  -- `if (drm_mm_hole_follows(node)) rm_hole(node);`
  unfoldable pub rm_hole_after : ℕ → Mm → Outcome Mm
  unfolding hole_follows rm_hole
  rm_hole_after n m = if hole_follows m n then rm_hole rb n m else ok m

  unfoldable pub remove_node : ℕ → Mm → Outcome Mm
  unfolding rm_hole_after add_hole interval_tree_remove
  remove_node x m = do
    assert (m.node x).allocated
    assert (not (m.node x).scanned_block)
    let p = prev_node m x
    m₁ ← rm_hole_after x m
    let m₂ = interval_tree_remove rb x m₁
    let m₃ =
        write (record m₂ { node_list = remove x m₂.node_list }) x
          (record (m₂.node x) { allocated = false })
    m₄ ← rm_hole_after p m₃
    add_hole rb p m₄

  -- `old` hands its place over to `new`, whose fields become those of `old`.
  unfoldable pub replace_node : ℕ → ℕ → Mm → Outcome Mm
  unfolding hole_follows
  replace_node old new m = do
    assert (m.node old).allocated
    let listed = record m {
      node_list = replace old new m.node_list;
      interval_tree = rb_replace_cached old new m.interval_tree;
      subtree_last = update m.subtree_last new (m.subtree_last old);
    }
    let handed =
        if hole_follows m old
        then record listed {
          hole_stack = replace old new m.hole_stack;
          holes_size = rb_replace_cached old new m.holes_size;
          holes_addr = rb_replace old new m.holes_addr;
        }
        else listed
    ok (record handed {
      node =
          update (update m.node old (record (m.node old) { allocated = false })) new
            (record (m.node old) { allocated = true });
    })

-- The Boolean says whether the warning is printed; no leaks are shown, as stack depots are not
-- configured.
unfoldable pub takedown : Mm → Bool
unfolding clean
takedown m = not (clean m)
