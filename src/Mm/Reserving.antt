-- ===== src/Mm/Reserving.antt =====
-- test-drm-mm/drm_mm.c: drm_mm_reserve_node takes just the addresses that it is asked for.
use cma_pool_log.Base.{
  ℕ, ◌+◌, ◌<◌, ◌≤◌, ◌≡◌, sym, ap, ◌∙◌, subst, inl, inr, Bool, true, false, Option, none, some,
  arith, ◌==◌, ◌||◌, ltb, leb, add64, u64_mod, Returns, bind-Returns, Bool-cases, Option-cases,
}
use cma_pool_log.Rbtree.{Balancing}
use cma_pool_log.Mm.{Mm, head_node, hole_follows, hole_node_start}
use cma_pool_log.Mm.FindHole.{find_hole}
use cma_pool_log.Mm.Insert.{occupy, reserve_node, color_adjusted, hole_bounds}
use cma_pool_log.Mm.Layout.{Tidy}
use cma_pool_log.Mm.Occupying.{Goes, Stage-fixed, before_size, behind_size}
use cma_pool_log.Mm.Inserting.{Placed, occupy-Placed, Stage-has}
use cma_pool_log.Mm.Allocating.{Spare, Landed}
use cma_pool_log.Mm.Around.{Located, find_hole-Located, hole_end-gap, follows-ring, hole_end}
use cma_pool_log.Mm.Contract.{Space, space, Free, given, Free-Fits}
use cma_pool_log.Mm.Refining.{Landed-given, Landed-Free}

-- A call for certain addresses: they are given to the block, which they were free for; or they are not
-- free, or none, and nothing changes.
pub data Reserves (x a size : ℕ) (s : Space) : Bool → Space → Type 0 where
  takes : 0 < size → Free s a size → Reserves x a size s true (given x a size s)
  denies : (0 < size → ¬ Free s a size) → Reserves x a size s false s

Placed-Landed :
    (hole x : ℕ) (m w : Mm)
    → Goes hole x m
    → Placed hole x m w
    → Landed x (m.node x).size 0 (m.node x).start ((m.node x).start + (m.node x).size) m w
Placed-Landed hole x m w g p =
    let fixed =
      λ (n : ℕ). Stage-fixed hole x n m (before_size hole x m) (behind_size hole x m) w p.stage in
    let there =
      λ (n : ℕ). Stage-has hole x n m (before_size hole x m) (behind_size hole x m) w g p.stage in
    record {
      tidy = p.tidy;
      listed = λ n. ground (arith, there n, p.tidy.distinct, g.tidy.distinct, g.other);
      others = λ n e. ground (arith, fixed n, e);
      sized = ground (arith, fixed x);
      above = ground (arith, fixed x);
      below = ground (arith, fixed x);
      aligned = λ big. absurd (omega arith);
    }

module _ (rb : Balancing) where
  abbrev pub ReservesIn : ℕ → Mm → Bool × Mm → Type 0
  ReservesIn x m (placed, w) =
      Tidy w × Reserves x (m.node x).start (m.node x).size (space m) placed (space w)

  denied :
      (x : ℕ) (m : Mm)
      → Tidy m
      → (0 < (m.node x).size → ¬ Free (space m) (m.node x).start (m.node x).size)
      → ReservesIn x m (false, m)
  denied x m t f = (t, denies f)

  -- The hole that was found is the only one in which the addresses could lie.
  only_hole :
      (x hole : ℕ) (m : Mm)
      → Tidy m
      → Located m (m.node x).start (some hole)
      → 0 < (m.node x).size
      → Free (space m) (m.node x).start (m.node x).size
      → (hole_node_start m hole ≤ (m.node x).start)
        × ((m.node x).start + (m.node x).size ≤ hole_end m hole)
  only_hole x hole m t (follows, others) pos f =
      let (n, there, fits) =
        Free-Fits m (m.node x).size 0 0 ((m.node x).start + (m.node x).size) (m.node x).start t pos
          f
          (record {
            above = omega arith;
            below = omega arith;
            aligned = λ h. absurd (omega arith);
          }) in
      elim (Bool-cases (n == hole)) [
        | inl e ↦ ground (arith, e, fits.above_hole, fits.below_hole)
        | inr e ↦ elim (others n there e) [
          | inl b ↦ absurd (omega (arith, b, fits.below_hole))
          | inr b ↦ absurd (omega (arith, b, fits.above_hole))
        ]
      ]

  -- Without color_adjust the hole is as it is.
  uncolored :
      (x hole : ℕ) (m : Mm)
      → Tidy m
      → color_adjusted m hole (m.node x).color (hole_bounds m hole) ≡ hole_bounds m hole
  uncolored x hole m t =
      ap
        (λ (o : Option (ℕ → ℕ → ℕ × ℕ → ℕ × ℕ)). elim o as (λ _. ℕ × ℕ) [
          | none ↦ hole_bounds m hole
          | some f ↦ f hole (m.node x).color (hole_bounds m hole)
        ])
        t.color_adjust

  goes :
      (x hole : ℕ) (m : Mm)
      → Tidy m
      → Spare x m
      → (m.node x).size < u64_mod
      → hole_follows m hole ≡ true
      → leb (add64 (m.node x).start (m.node x).size) (m.node x).start ≡ false
      → (ltb (m.node x).start (hole_node_start m hole)
          || ltb (hole_end m hole) (add64 (m.node x).start (m.node x).size))
        ≡ false
      → Goes hole x m
  goes x hole m t p small follows e within =
      let gap = hole_end-gap m hole t (follows-ring m hole t follows) in
      record {
        tidy = t;
        other = p.other;
        free = p.free;
        room = follows;
        some_size = ground (arith, e, t.starts x);
        above = ground (arith, within);
        below = ground (arith, within, e, gap, t.starts x, small);
      }

  taken :
      (x hole : ℕ) (m w : Mm)
      → Tidy m
      → Spare x m
      → Goes hole x m
      → Placed hole x m w
      → ReservesIn x m (true, w)
  taken x hole m w t p g pl =
      let size = (m.node x).size in
      let start = (m.node x).start in
      let l = Placed-Landed hole x m w g pl in
      let same : (w.node x).start ≡ start = ground (
        arith,
        l.above,
        l.below,
        Stage-fixed hole x x m (before_size hole x m) (behind_size hole x m) w pl.stage,
      ) in
      (
        l.tidy,
        subst (Reserves x start size (space m) true)
            (sym (
              Landed-given x size 0 start (start + size) m w p l
              ∙ ap (λ a. given x a size (space m)) same))
            (takes g.some_size (
              subst (λ a. Free (space m) a size) same
                (Landed-Free x size 0 start (start + size) m w t p l))),
      )

  -- In an allocator that is in order, for a node that is not part of it with a size below 2^64:
  -- drm_mm_reserve_node gives the node its addresses just if they are free, and none if it has no size;
  -- otherwise nothing changes. The allocator stays in order.
  pub reserve_node-Reserves :
      (m : Mm) (x : ℕ)
      → Tidy m
      → Spare x m
      → (m.node x).size < u64_mod
      → Returns (ReservesIn x m) (reserve_node rb m x)
  unfolding reserve_node
  reserve_node-Reserves m x t p small =
      let start = (m.node x).start in
      let size = (m.node x).size in
      elim (Bool-cases (leb (add64 start size) start)) [
        | inl e ↦ rw e (denied x m t λ pos f. ground (arith, e, pos, f.to, t.starts head_node))
        | inr e ↦ rw e (elim (Option-cases (find_hole m start)) [
          | inl none_found ↦ rw none_found (
              denied x m t λ pos f.
                let (n, there, fits) = Free-Fits m size 0 0 (start + size) start t pos f (record {
                  above = omega arith;
                  below = omega arith;
                  aligned = λ h. absurd (omega arith);
                }) in
                let all = subst (Located m start) none_found (find_hole-Located m start t) in
                ground (arith, all n, there))
          | inr (hole, found) ↦
              let at : Located m start (some hole) =
                subst (Located m start) found (find_hole-Located m start t) in
              let adj = color_adjusted m hole (m.node x).color (hole_bounds m hole) in
              let same : adj ≡ hole_bounds m hole = uncolored x hole m t in
              rw found (elim (Bool-cases (ltb start adj.0 || ltb adj.1 (add64 start size))) [
                | inl out ↦ rw out (
                    denied x m t λ pos f.
                      let inside = only_hole x hole m t at pos f in
                      ground (arith, rw same at out, inside, e, t.starts x, small))
                | inr within ↦ rw within (
                    bind-Returns (Placed hole x m) (ReservesIn x m) (occupy rb hole x m) _
                      (occupy-Placed rb hole x m
                        (goes x hole m t p small at.0 e (rw same at within)))
                      λ w pl.
                        taken x hole m w t p (goes x hole m t p small at.0 e (rw same at within))
                          pl)
              ])
        ])
      ]
