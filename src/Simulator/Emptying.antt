-- ===== src/Simulator/Emptying.antt =====
-- main.c over drm_mm.c: which addresses the scan of `page_out_buffers_for_insertion` can free.
use cma_pool_log.Base.{
  ℕ, ◌≡◌, refl, ap, sym, ◌∙◌, inl, inr, true, false, none, List, [], ◌∷◌, arith, ◌==◌, ◌&&◌,
  if◌then◌else◌, u64_max, has, has-remove, Bool-cases,
}
use cma_pool_log.Rbtree.{Balancing}
use cma_pool_log.Mm.{Mm, Scan, head_node}
use cma_pool_log.Mm.Rollback.{Same, overlaps}
use cma_pool_log.Mm.Laid.{Laid, Tidy-Laid}
use cma_pool_log.Mm.Gaps.{gap_around}
use cma_pool_log.Mm.Contract.{Space, space, Free, Asked, gap_Free}
use cma_pool_log.Pool.{Data, page_size}
use cma_pool_log.Pool.PageIn.{evictable}
use cma_pool_log.Simulator.{drm_mm}
use cma_pool_log.Simulator.Rollback.{Off, Off-node, reaching}
use cma_pool_log.Simulator.Hitting.{HitIn, TriedAll}
use cma_pool_log.Simulator.Linked.{Linked}
use cma_pool_log.Simulator.Room.{asked}
use cma_pool_log.Simulator.Vacating.{Vacated}

-- What is taken off is off, and nothing else.
has-Off :
    (m w : Mm) (ps : List ℕ) (n : ℕ)
    → Off m w ps
    → has n w.node_list ≡ (if has n ps then false else has n m.node_list)
has-Off m w [] n o = ap (has n) o.node_list
has-Off m w (p ∷ ps) n (v, h, o, l, u) =
    ap (has n) u.node_list
    ∙ has-remove p n v.node_list l.distinct.1
    ∙ ground (arith, has-Off m v ps n o)

-- There are no free addresses for a buffer of the size.
abbrev pub Full : Space → ℕ → Type 0
Full s size = (a : ℕ) → Asked size page_size 0 u64_max a → ¬ Free s a size

module _ (rb : Balancing) where
  -- The blocks of the buffers that must stay.
  abbrev pub stay : Data (drm_mm rb) → Space
  stay d = record (space d.mm) {
    block = λ n. if evictable (d.buffer n) then none else (space d.mm).block n;
  }

  has-reaching :
      (scan : Scan) (m : Mm) (ps : List ℕ) (n : ℕ)
      → has n (reaching rb scan m ps) ≡ (has n ps && overlaps scan (m.node n))
  has-reaching scan m [] n = refl
  has-reaching scan m (p ∷ ps) n = elim (Bool-cases (n == p)) [
    | inl e ↦
        let same : n ≡ p = ground (arith, e) in
        elim (Bool-cases (overlaps scan (m.node p))) [
          | inl o ↦ rw (o, same) (ground (arith, o))
          | inr o ↦ rw (o, same) (ground (arith, o, has-reaching scan m ps p))
        ]
    | inr e ↦ elim (Bool-cases (overlaps scan (m.node p))) [
      | inl o ↦ rw (o, e) (has-reaching scan m ps n)
      | inr o ↦ rw (o, e) (has-reaching scan m ps n)
    ]
  ]

  -- Where the walk found a place, it is free once the blocks that reach into it are gone.
  pub hit-Free :
      (scan hit : Scan) (m w v : Mm) (picked : List ℕ) (t : Space)
      → Laid m
      → Laid w
      → Same m v
      → Off m w picked
      → HitIn scan hit w
      → Vacated (reaching rb hit m picked) (space v) t
      → Free t hit.hit_start scan.size
  hit-Free scan hit m w v picked t dm dw same o h c =
      let f =
        gap_Free w h.node hit.hit_start scan.size dw h.listed h.fits.above_hole h.fits.below_hole in
      record {
        from =
            ground
              (arith, f.from, c.bottom, same.nodes head_node, Off-node rb m w picked head_node o);
        to = ground (arith, f.to, c.top, same.nodes head_node, Off-node rb m w picked head_node o);
        apart = λ n b z e.
            let kept : has n (reaching rb hit m picked) ≡ false = ground (arith, c.block n, e) in
            let there : has n m.node_list ≡ true = ground (arith, c.block n, e, same.node_list) in
            let is_b : (m.node n).start ≡ b = ground (arith, c.block n, e, same.nodes n) in
            let is_z : (m.node n).size ≡ z = ground (arith, c.block n, e, same.nodes n) in
            elim (Bool-cases (has n picked)) [
              | inl p ↦
                  let past : overlaps hit (m.node n) ≡ false =
                    ground (arith, has-reaching hit m picked n, kept, p) in
                  ground (arith, past, h.ends, dm.sizes n there, is_b, is_z)
              | inr p ↦ f.apart n b z (
                  ground (
                    arith,
                    has-Off m w picked n o,
                    Off-node rb m w picked n o,
                    p,
                    there,
                    is_b,
                    is_z,
                  ))
            ];
      }

  -- Where the walk found no place, there is none even without all buffers that may go.
  pub miss-Full :
      (size : ℕ) (d : Data (drm_mm rb)) (w : Mm) (picked : List ℕ)
      → Linked rb d
      → Laid w
      → Off d.mm w picked
      → TriedAll (asked rb size) d.mm w
      → ((n : ℕ)
          → has n d.mru_buffers ≡ true
          → evictable (d.buffer n) ≡ true
          → has n w.node_list ≡ false)
      → Full (space d.mm) size
      → Full (stay d) size
  miss-Full size d w picked l dw o tried gone full a q f =
      let places = λ (n : ℕ). Off-node rb d.mm w picked n o in
      let (n, g) =
        gap_around w dw a size (ground (arith, f.from, places head_node))
          (ground (arith, f.to, places head_node))
          λ n i.
            let there : has n (d.mm).node_list ≡ true =
              ground (arith, i, has-Off d.mm w picked n o) in
            let stays : evictable (d.buffer n) ≡ false =
              elim (Bool-cases (evictable (d.buffer n))) [
                | inr e ↦ e
                | inl e ↦ ground (arith, gone n (sym (l.placed n) ∙ there) e, i)
              ] in
            elim (f.apart n ((d.mm).node n).start ((d.mm).node n).size
              (ground (arith, stays, there))) [
                | inl b ↦ inl (ground (arith, b, places n))
                | inr b ↦ inr (ground (arith, b, places n))
              ] in
      elim (tried n g.listed) [
        | inl (end, there) ↦ full a q (
            gap_Free d.mm n a size (Tidy-Laid d.mm l.tidy) there (ground (arith, g.from, places n))
              (omega (arith, g.to, end)))
        | inr none_fits ↦ none_fits a (record {
          above_hole = g.from;
          above_range = omega arith;
          below_hole = g.to;
          below_range = omega (arith, f.to, l.pool_end);
          aligned = λ h. q.aligned (omega arith);
        })
      ]
