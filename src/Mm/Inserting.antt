-- ===== src/Mm/Inserting.antt =====
-- test-drm-mm/drm_mm.c: an insertion keeps the layout of the blocks.
use cma_pool_log.Base.{
  ℕ, ◌+◌, ◌<◌, ◌≡◌, sym, ap, subst, ◌∙◌, inl, inr, arith, ◌==◌, ◌||◌, u64_mod, has, Distinct,
  if◌then◌else◌, ltb, add64, ok, Returns, Returns-mono, bind-Returns, Bool-cases,
}
use cma_pool_log.Base.Ring.{has-insert_after, insert_after-Distinct}
use cma_pool_log.Rbtree.{Balancing}
use cma_pool_log.Mm.{Mm, head_node, ring, next_node, hole_node_start, hole_node_end}
use cma_pool_log.Mm.Holes.{add_hole, rm_hole}
use cma_pool_log.Mm.Insert.{occupy}
use cma_pool_log.Mm.Layout.{Tidy}
use cma_pool_log.Mm.Occupying.{
  Goes, Stage, Stage-next, Stage-fixed, hole-ring, hole-ne, before_size, behind_size, entered,
  entered-Stage, rm_hole-Stage, add_before-Stage, add_behind-Stage,
}

pub Stage-has :
    (hole x n : ℕ) (m : Mm) (before behind : ℕ) (w : Mm)
    → Goes hole x m
    → Stage hole x m before behind w
    → has n (ring w) ≡ ((n == x) || has n (ring m))
Stage-has hole x n m before behind w g s =
    ap (has n) s.listed ∙ has-insert_after hole x n (ring m) (hole-ring hole x m g)

Stage-end :
    (hole x n : ℕ) (m : Mm) (before behind : ℕ) (w : Mm)
    → Goes hole x m
    → Stage hole x m before behind w
    → hole_node_end w n ≡ (
        if n == hole
        then (m.node x).start
        else if n == x
        then hole_node_end m hole
        else hole_node_end m n)
Stage-end hole x n m before behind w g s =
    (Stage-fixed hole x (next_node w n) m before behind w s).0
    ∙ ap (λ t. (m.node t).start) (Stage-next hole x n m before behind w g s)
    ∙ ground arith

Stage-from :
    (hole x n : ℕ) (m : Mm) (before behind : ℕ) (w : Mm)
    → Stage hole x m before behind w
    → hole_node_start w n ≡ hole_node_start m n
Stage-from hole x n m before behind w s = ground (arith, Stage-fixed hole x n m before behind w s)

Stage-Tidy :
    (hole x : ℕ) (m w : Mm)
    → Goes hole x m
    → Stage hole x m (before_size hole x m) (behind_size hole x m) w
    → Tidy w
Stage-Tidy hole x m w g s =
    let v = g.tidy in
    let fixed =
      λ (n : ℕ). Stage-fixed hole x n m (before_size hole x m) (behind_size hole x m) w s in
    let there =
      λ (n : ℕ). Stage-has hole x n m (before_size hole x m) (behind_size hole x m) w g s in
    let end = λ (n : ℕ). Stage-end hole x n m (before_size hole x m) (behind_size hole x m) w g s in
    let from = λ (n : ℕ). Stage-from hole x n m (before_size hole x m) (behind_size hole x m) w s in
    let apart : Distinct (ring w) = subst Distinct (sym s.listed) (
      insert_after-Distinct hole x (ring m) (hole-ring hole x m g) (ground (arith, g.other, g.free))
        v.distinct) in
    let word : hole_node_end m hole < u64_mod = v.starts (next_node m hole) in
    let no_wrap : hole_node_start m x ≡ (m.node x).start + (m.node x).size =
      ground (arith, word, g.below) in
    record {
      indexed = s.indexed;
      color_adjust = s.color_adjust ∙ v.color_adjust;
      scan_active = s.scan_active ∙ v.scan_active;
      distinct = apart;
      starts = λ n. ground (arith, fixed n, v.starts n);
      head_free = ground (arith, fixed head_node, v.head_free, g.other);
      owned = λ n e. ground (arith, e, fixed n, v.owned n, there n);
      allocated = λ n e. ground (arith, e, fixed n, v.allocated n, there n);
      unscanned = λ n. ground (arith, fixed n, v.unscanned n);
      sizes = λ n h. elim (Bool-cases (n == x)) [
        | inl e ↦ ground (arith, fixed n, e, word, g.below, g.some_size)
        | inr e ↦ ground (arith, fixed n, e, h, there n, apart.0, v.sizes n)
      ];
      gaps = λ n h. elim (Bool-cases (n == hole)) [
        | inl e ↦ ground (arith, e, end n, from n, g.above)
        | inr f ↦ elim (Bool-cases (n == x)) [
          | inl e ↦ ground (arith, e, f, end n, from n, no_wrap, g.below)
          | inr e ↦ ground (arith, e, f, end n, from n, there n, h, v.gaps n)
        ]
      ];
      holes = λ n. elim (Bool-cases (n == hole)) [
        | inl e ↦
            ground
              (arith, e, fixed n, end n, from n, there n, hole-ring hole x m g, hole-ne hole x m g)
        | inr f ↦ elim (Bool-cases (n == x)) [
          | inl e ↦ ground (arith, e, f, fixed n, end n, from n, there n, no_wrap)
          | inr e ↦ ground (arith, e, f, fixed n, end n, from n, there n, v.holes n)
        ]
      ];
    }

-- From `m`, where the node waits, to `w`, where it is in its place.
pub record Placed (hole x : ℕ) (m w : Mm) : Type 0 where
  pub tidy : Tidy w
  pub stage : Stage hole x m (before_size hole x m) (behind_size hole x m) w

pub hole_ends :
    (hole x : ℕ) (m : Mm)
    → Goes hole x m
    → add64 (hole_node_start m hole) (m.node hole).hole_size ≡ hole_node_end m hole
hole_ends hole x m g = ground (
  arith,
  g.tidy.holes hole,
  hole-ring hole x m g,
  g.tidy.gaps hole,
  g.tidy.starts (next_node m hole),
)

module _ (rb : Balancing) where
  -- No assertion of the writes into the hole fails, and they leave the layout in order.
  pub occupy-Placed :
      (hole x : ℕ) (m : Mm) → Goes hole x m → Returns (Placed hole x m) (occupy rb hole x m)
  unfolding occupy
  occupy-Placed hole x m g =
      let no_wrap : add64 (m.node x).start (m.node x).size ≡ (m.node x).start + (m.node x).size =
        ground (arith, g.tidy.starts (next_node m hole), g.below) in
      bind-Returns (Stage hole x m 0 0) (Placed hole x m) (rm_hole rb hole (entered rb hole x m)) _
        (rm_hole-Stage rb hole x 0 m _ g (entered-Stage rb hole x m g))
        λ t s.
          bind-Returns (Stage hole x m (before_size hole x m) 0) (Placed hole x m)
            (if ltb (hole_node_start m hole) (m.node x).start then add_hole rb hole t else ok t) _
            (add_before-Stage rb hole x m t g s)
            λ b s'.
              rw (no_wrap, hole_ends hole x m g)
                (Returns-mono (Stage hole x m (before_size hole x m) (behind_size hole x m))
                  (Placed hole x m) _ (add_behind-Stage rb hole x m b g s')
                  λ w s''. record { tidy = Stage-Tidy hole x m w g s''; stage = s'' })
