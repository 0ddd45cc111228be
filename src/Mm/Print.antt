-- ===== src/Mm/Print.antt =====
-- drm_mm_print of test-drm-mm/drm_mm.c: the lines that it prints, with the values that the formats
-- show, and the sums that it keeps.
use cma_pool_log.Base.{ℕ, List, [], ◌∷◌, ◌++◌, ◌==◌, if◌then◌else◌, add64}
use cma_pool_log.Mm.{Mm, head_node, hole_node_start}

-- A line on a hole or a block, from its start to its end, and the last line.
pub data Line : Type 0 where
  free_line : (start end size : ℕ) → Line
  used_line : (start end size : ℕ) → Line
  total_line : (total used free : ℕ) → Line

-- `drm_mm_dump_hole`: what it prints.
unfoldable pub dump_hole : Mm → ℕ → List Line
dump_hole m n =
    let size = (m.node n).hole_size in
    if size == 0
    then []
    else free_line (hole_node_start m n) (add64 (hole_node_start m n) size) size ∷ []

-- The loop of `drm_mm_print`, with the sums so far.
unfoldable pub print_each : Mm → List ℕ → (total_used total_free : ℕ) → List Line × ℕ × ℕ
unfolding dump_hole
print_each m [] total_used total_free = ([], total_used, total_free)
print_each m (n ∷ ns) total_used total_free =
    let (lines, used, free) =
      print_each m ns (add64 total_used (m.node n).size) (add64 total_free (m.node n).hole_size) in
    (
      used_line (m.node n).start (add64 (m.node n).start (m.node n).size) (m.node n).size
            ∷ dump_hole m n
          ++ lines,
      used,
      free,
    )

unfoldable pub print : Mm → List Line
unfolding print_each
print m =
    let (lines, used, free) = print_each m m.node_list 0 (add64 0 (m.node head_node).hole_size) in
    dump_hole m head_node ++ lines ++ total_line (add64 free used) used free ∷ []
