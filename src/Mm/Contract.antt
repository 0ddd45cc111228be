-- ===== src/Mm/Contract.antt =====
-- test-drm-mm/drm_mm.c: what the allocator promises, without its lists, trees and holes: which
-- addresses belong to which block. A call is a step from one such view to another.
use cma_pool_log.Base.{
  ℕ, ◌+◌, ◌≤◌, ◌<◌, ◌%◌, ◌≡◌, ◌⊎◌, inl, inr, Bool, true, false, Option, none, some, arith, ◌==◌,
  has, if◌then◌else◌, Bool-cases,
}
use cma_pool_log.Mm.{Mm, head_node, ring, hole_follows, hole_node_start, hole_node_end}
use cma_pool_log.Mm.Insert.{hole_bounds, normal_alignment}
use cma_pool_log.Mm.Place.{Fits}
use cma_pool_log.Mm.Layout.{Tidy}
use cma_pool_log.Mm.Laid.{Laid, Tidy-Laid, gap-Clear, gap_begins, gap_ends}
use cma_pool_log.Mm.Gaps.{gap_around}
use cma_pool_log.Mm.Around.{hole_end-gap}
use cma_pool_log.Mm.Allocating.{Landed}

-- The addresses that are managed, and the blocks by their pointers: the start and the size of each.
pub record Space : Type 0 where
  pub bottom : ℕ
  pub top : ℕ
  pub block : ℕ → Option (ℕ × ℕ)

abbrev pub block_of : Mm → ℕ → Option (ℕ × ℕ)
block_of m n = if has n m.node_list then some ((m.node n).start, (m.node n).size) else none

-- The view of an allocator.
abbrev pub space : Mm → Space
space m = record {
  bottom = hole_node_start m head_node;
  top = (m.node head_node).start;
  block = block_of m;
}

-- No block lies on the addresses.
pub record Free (s : Space) (a size : ℕ) : Type 0 where
  pub from : s.bottom ≤ a
  pub to : a + size ≤ s.top
  pub apart : (n b z : ℕ) → s.block n ≡ some (b, z) → (a + size ≤ b) ⊎ (b + z ≤ a)

-- The addresses are what is asked for.
pub record Asked (size alignment range_start range_end a : ℕ) : Type 0 where
  pub above : range_start ≤ a
  pub below : a + size ≤ range_end
  pub aligned : 1 < alignment → a % alignment ≡ 0

abbrev pub given : ℕ → ℕ → ℕ → Space → Space
given x a size s = record s { block = λ n. if n == x then some (a, size) else s.block n }

abbrev pub given_back : ℕ → Space → Space
given_back x s = record s { block = λ n. if n == x then none else s.block n }

-- A call for an allocation: some addresses that are free and as asked for are given to the block; or
-- there are none, and nothing changes.
pub data Allocates (x size alignment range_start range_end : ℕ) (s : Space)
    : Bool → Space → Type 0 where
  gives :
      (a : ℕ)
      → Free s a size
      → Asked size alignment range_start range_end a
      → Allocates x size alignment range_start range_end s true (given x a size s)
  refuses :
      ((a : ℕ) → Asked size alignment range_start range_end a → ¬ Free s a size)
      → Allocates x size alignment range_start range_end s false s

-- Free addresses are in a hole.
pub Free-Fits :
    (m : Mm) (size alignment rs re a : ℕ)
    → Tidy m
    → 0 < size
    → Free (space m) a size
    → Asked size alignment rs re a
    → (n : ℕ) × (hole_follows m n ≡ true)
      × Fits size (normal_alignment alignment) (rs, re) (hole_bounds m n) a
unfolding hole_follows
Free-Fits m size alignment rs re a t pos f q =
    let (n, g) =
      gap_around m (Tidy-Laid m t) a size f.from f.to
        (λ k h. f.apart k (m.node k).start (m.node k).size (ground (arith, h))) in
    let end = hole_end-gap m n t g.listed in
    (
      n,
      ground (arith, t.holes n, g.listed, g.from, g.to, pos),
      record {
        above_hole = g.from;
        above_range = q.above;
        below_hole = ground (arith, end, g.to);
        below_range = q.below;
        aligned = λ h. ground (arith, q.aligned, h);
      },
    )

pub block_of-Landed :
    (x n size alignment rs re : ℕ) (m w : Mm)
    → Landed x size alignment rs re m w
    → block_of w n ≡ (if n == x then some ((w.node x).start, size) else block_of m n)
block_of-Landed x n size alignment rs re m w l = elim (Bool-cases (n == x)) [
  | inl e ↦ let same : n ≡ x = ground (arith, e) in ground (arith, e, same, l.listed n, l.sized)
  | inr e ↦ ground (arith, e, l.listed n, l.others n e)
]

-- The gap behind a node of the list is free.
pub gap_Free :
    (m : Mm) (n a size : ℕ)
    → Laid m
    → has n (ring m) ≡ true
    → hole_node_start m n ≤ a
    → a + size ≤ hole_node_end m n
    → Free (space m) a size
gap_Free m n a size d g from to = record {
  from = omega (arith, gap_begins m d n g, from);
  to = omega (arith, gap_ends m d n, to);
  apart = λ q b z e.
      let there : has q m.node_list ≡ true = ground (arith, e) in
      let is_b : (m.node q).start ≡ b = ground (arith, e) in
      let is_z : (m.node q).size ≡ z = ground (arith, e) in
      elim (gap-Clear m d n q g there) [
        | inl c ↦ inr (ground (arith, c, from, is_b, is_z))
        | inr c ↦ inl (ground (arith, c, to, is_b))
      ];
}
