-- ===== src/Mm/Layout.antt =====
-- test-drm-mm/drm_mm.c: how the blocks lie in the range that the allocator manages.
use cma_pool_log.Base.{
  ℕ, ◌+◌, ◌-◌, ◌≤◌, ◌<◌, ◌≡◌, true, false, none, ◌==◌, u64_mod, has, Distinct, if◌then◌else◌,
}
use cma_pool_log.Mm.{Mm, head_node, ring, hole_node_start, hole_node_end}
use cma_pool_log.Mm.Index.{Indexed}

-- Between two operations, with no scan under way and no color_adjust: each block lies behind the one before it, the
-- head before and behind all; what is between two of them is the hole that is kept for the first; and
-- a node that is not on the list has no hole and is not allocated.
pub record Tidy (m : Mm) : Type 0 where
  pub indexed : Indexed m
  pub color_adjust : m.color_adjust ≡ none
  pub scan_active : m.scan_active ≡ 0
  pub distinct : Distinct (ring m)
  pub starts : (n : ℕ) → (m.node n).start < u64_mod
  pub owned : (n : ℕ) → has n m.node_list ≡ true → (m.node n).mm ≡ true
  pub head_free : (m.node head_node).allocated ≡ false
  pub allocated : (n : ℕ) → (n == head_node) ≡ false → (m.node n).allocated ≡ has n m.node_list
  pub unscanned : (n : ℕ) → (m.node n).scanned_block ≡ false
  pub sizes :
      (n : ℕ)
      → has n m.node_list ≡ true
      → (0 < (m.node n).size) × ((m.node n).start + (m.node n).size < u64_mod)
  pub gaps : (n : ℕ) → has n (ring m) ≡ true → hole_node_start m n ≤ hole_node_end m n
  pub holes :
      (n : ℕ)
      → (m.node n).hole_size
        ≡ (if has n (ring m) then hole_node_end m n - hole_node_start m n else 0)
