-- ===== src/Mm/Range.antt =====
-- __drm_mm_interval_first of test-drm-mm/drm_mm.c, and drm_mm_for_each_node_in_range of
-- test-drm-mm/drm/drm_mm.h.
use cma_pool_log.Base.{
  ℕ, zero, suc, Option, none, some, List, [], ◌∷◌, ltb, leb, ◌&&◌, sub64, get_or, length,
  if◌then◌else◌, Outcome, ok, no_fuel, ◌>>=◌, ◌+◌, ◌≡◌,
}
use cma_pool_log.Rbtree.{in_order}
use cma_pool_log.Mm.{Mm, head_node, next_node}
use cma_pool_log.Mm.Interval.{last_of}

-- The first of the entries whose first address is at most `last`, and whose last one at least `start`.
abbrev pub first_meeting : Mm → ℕ → ℕ → List ℕ → Option ℕ
first_meeting m start last [] = none
first_meeting m start last (x ∷ xs) =
    if leb (m.node x).start last && leb start (last_of m x)
    then some x
    else first_meeting m start last xs

-- Each block once, and the head.
abbrev pub range_fuel : Mm → ℕ
range_fuel m = length m.node_list + 2

-- `drm_mm_interval_tree_iter_first`, which INTERVAL_TREE_DEFINE gives.
module _ (iter_first : Mm → ℕ → ℕ → Option ℕ) where
  -- What is documented of it: it finds the first interval of the tree that meets the one given.
  abbrev pub Finds : Mm → Type 0
  Finds m =
      (start last : ℕ)
      → iter_first m start last ≡ first_meeting m start last (in_order (m.interval_tree).root)

  unfoldable pub interval_first : Mm → ℕ → ℕ → ℕ
  interval_first m start last = get_or (iter_first m start last) head_node

  -- The nodes for which the body of the loop is run, from `n` on.
  unfoldable pub range_loop : ℕ → Mm → ℕ → ℕ → Outcome (List ℕ)
  range_loop zero m end n = no_fuel
  range_loop (suc fuel) m end n =
      if ltb (m.node n).start end
      then range_loop fuel m end (next_node m n) >>= (λ rest. ok (n ∷ rest))
      else ok []

  unfoldable pub nodes_in_range : Mm → ℕ → ℕ → Outcome (List ℕ)
  unfolding interval_first range_loop
  nodes_in_range m start end =
      range_loop (range_fuel m) m end (interval_first m start (sub64 end 1))
