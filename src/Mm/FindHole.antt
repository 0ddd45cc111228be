-- ===== src/Mm/FindHole.antt =====
-- The searches of test-drm-mm/drm_mm.c for a hole: best_hole, find_hole, first_hole and next_hole.
-- A hole goes by the node in front of it.
use cma_pool_log.Base.{ℕ, true, false, Option, none, some, ltb, leb, add64, after, head?}
use cma_pool_log.Rbtree.{Tree, leaf, fork, rb_next, rb_prev}
use cma_pool_log.Mm.{Mm, Search, best, low, high, evict, hole_node_start}

-- The loop of `best_hole`, with the best hole so far. (The C loop looks at the root before it tests
-- it, and is called only where there is a hole.)
unfoldable pub best_from : (ℕ → ℕ) → ℕ → Option ℕ → Tree → Option ℕ
best_from key size found leaf = found
best_from key size found (fork c l x r) = elim (leb size (key x)) [
  | true ↦ best_from key size (some x) r
  | false ↦ best_from key size found l
]

unfoldable pub best_hole : Mm → ℕ → Option ℕ
unfolding best_from
best_hole m size = best_from (λ n. (m.node n).hole_size) size none (m.holes_size).root

-- The loop of `find_hole`: the hole at the address, or the last one that was looked at.
unfoldable pub find_from : Mm → ℕ → Option ℕ → Tree → Option ℕ
find_from m addr found leaf = found
find_from m addr found (fork c l x r) = elim (ltb addr (hole_node_start m x)) [
  | true ↦ find_from m addr (some x) l
  | false ↦ elim (ltb (add64 (hole_node_start m x) (m.node x).hole_size) addr) [
    | true ↦ find_from m addr (some x) r
    | false ↦ some x
  ]
]

unfoldable pub find_hole : Mm → ℕ → Option ℕ
unfolding find_from
find_hole m addr = find_from m addr none m.holes_addr

unfoldable pub first_hole : Mm → ℕ → ℕ → ℕ → Search → Option ℕ
unfolding best_hole find_hole
first_hole m start end size best = best_hole m size
first_hole m start end size low = find_hole m start
first_hole m start end size high = find_hole m end
first_hole m start end size evict = head? m.hole_stack

unfoldable pub next_hole : Mm → ℕ → Search → Option ℕ
unfolding rb_next rb_prev
next_hole m n best = rb_prev (m.holes_size).root n
next_hole m n low = rb_next m.holes_addr n
next_hole m n high = rb_prev m.holes_addr n
next_hole m n evict = after n m.hole_stack
