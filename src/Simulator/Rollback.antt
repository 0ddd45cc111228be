-- ===== src/Simulator/Rollback.antt =====
-- main.c over drm_mm.c: the loops of `page_out_buffers_for_insertion` take blocks off the allocator's
-- list and put them back.
use cma_pool_log.Base.{
  ℕ, ◌≡◌, refl, ap, inl, inr, Bool, true, false, List, [], ◌∷◌, arith, ◌==◌, if◌then◌else◌, u64_max,
  has, Distinct, has-remove, ok, Returns, bind-Returns, Bool-cases,
}
use cma_pool_log.Rbtree.{Balancing}
use cma_pool_log.Mm.{Mm, Node, Scan}
use cma_pool_log.Mm.Roster.{scan_add_block}
use cma_pool_log.Mm.Rollback.{
  Same, Same-trans, Listed, Unlinked, Unlinked-Same, overlaps, scan_remove_block-Same,
}
use cma_pool_log.Mm.Scanning.{
  Plain, Asks, Added, scan_add_block-Added, Unlinked-Listed, Unlinked-Plain,
}
use cma_pool_log.Pool.{Buffer}
use cma_pool_log.Pool.PageIn.{evictable, scan_buffers, clean_up, keep_hits}
use cma_pool_log.Simulator.{drm_mm}

-- From `m` the blocks were taken off one by one, the last one first in the list; `w` is what is left.
abbrev pub Off : Mm → Mm → List ℕ → Type 0
Off m w [] = Same m w
Off m w (p ∷ ps) = (v : Mm) × (h : ℕ) × Off m v ps × Listed v × Unlinked p h v w

Off-Same : (m v w : Mm) (ps : List ℕ) → Off m v ps → Same v w → Off m w ps
Off-Same m v w [] o s = Same-trans m v w o s
Off-Same m v w (p ∷ ps) (u, h, o, l, k) s = (u, h, o, l, Unlinked-Same p h u v w k s)

-- The blocks of the list that may go are still in the allocator.
abbrev pub Ahead : (ℕ → Buffer) → List ℕ → Mm → Type 0
Ahead buffer ps m =
    (q : ℕ) → has q ps ≡ true → evictable (buffer q) ≡ true → has q m.node_list ≡ true

module _ (rb : Balancing) (buffer : ℕ → Buffer) where
  pub record Scanned (scan : Scan) (m : Mm) (r : Bool × Scan × Mm × List ℕ) : Type 0 where
    pub off : Off m r.2 r.3
    pub miss : r.0 ≡ false → r.1 ≡ scan

  pub Ahead-tail : (p : ℕ) (ps : List ℕ) (m : Mm) → Ahead buffer (p ∷ ps) m → Ahead buffer ps m
  Ahead-tail p ps m a q h e = a q (ground arith) e

  pub Ahead-Unlinked :
      (p h : ℕ) (ps : List ℕ) (m w : Mm)
      → Distinct (p ∷ ps)
      → Listed m
      → Ahead buffer (p ∷ ps) m
      → Unlinked p h m w
      → Ahead buffer ps w
  Ahead-Unlinked p h ps m w d l a u q g e =
      ground (arith, a q, u.node_list, d, has-remove p q m.node_list l.distinct.1)

  -- The walk over buffers that are different from each other, and on the allocator's well-formed list
  -- as far as they may be evicted, fails no assertion. The blocks that it takes off can be put back one
  -- after the other, and where it finds no hole it leaves the scan as it was.
  pub scan_buffers-Scanned :
      (ps : List ℕ) (scan : Scan) (m v : Mm) (picked : List ℕ)
      → Distinct ps
      → Listed v
      → Plain v
      → Asks scan
      → Ahead buffer ps v
      → Off m v picked
      → Returns (Scanned scan m) (scan_buffers (drm_mm rb) buffer ps scan v picked)
  unfolding scan_buffers
  scan_buffers-Scanned [] scan m v picked d l p q a o = record { off = o; miss = λ _. refl }
  scan_buffers-Scanned (x ∷ ps) scan m v picked d l p q a o =
      elim (Bool-cases (evictable (buffer x))) [
        | inl free ↦
            let (h, added) = scan_add_block-Added scan x v l p q (a x (ground arith) free) in
            rw free (
              bind-Returns (Added scan x h v) (Scanned scan m) (scan_add_block scan v x) _ added (
                next h λ w u.
                  scan_buffers-Scanned ps scan m w (x ∷ picked) d.1 (Unlinked-Listed x h v w l u)
                    (Unlinked-Plain x h v w p u) q (Ahead-Unlinked x h ps v w d l a u)
                    (v, h, o, l, u)))
        | inr held ↦
            rw held (scan_buffers-Scanned ps scan m v picked d.1 l p q (Ahead-tail x ps v a) o)
      ]
    where
      next :
          (h : ℕ)
          → ((w : Mm)
              → Unlinked x h v w
              → Returns (Scanned scan m) (scan_buffers (drm_mm rb) buffer ps scan w (x ∷ picked)))
          → (r : Bool × Scan × Mm) → Added scan x h v r
          → Returns (Scanned scan m) (
              if r.0
              then ok (true, r.1, r.2, x ∷ picked)
              else scan_buffers (drm_mm rb) buffer ps r.1 r.2 (x ∷ picked))
      next h rest (true, scan', w) k = record { off = (v, h, o, l, k.unlinked); miss = λ c. cc }
      next h rest (false, scan', w) k = rw ((k.miss refl).0) (rest w k.unlinked)

-- No block reaches into the hit of a scan that found none, which starts at the last address.
abbrev pub NoHit : Scan → Type 0
NoHit scan = scan.hit_start ≡ u64_max

no_overlap : (scan : Scan) (b : Node) → NoHit scan → overlaps scan b ≡ false
no_overlap scan b e = ground (arith, e)

module _ (rb : Balancing) where
  -- Where no hole was found, the clean-up of the blocks that were taken off one after the other puts
  -- every one back, and its assertion does not fail.
  pub clean_up-Same :
      (scan : Scan) (m w : Mm) (ps : List ℕ)
      → NoHit scan
      → Off m w ps
      → Returns (Same m) (clean_up (drm_mm rb) scan ps w)
  unfolding clean_up
  clean_up-Same scan m w [] e o = o
  clean_up-Same scan m w (p ∷ ps) e (v, h, o, l, u) =
      let (v', step, s) = scan_remove_block-Same scan p h v w l u in
      rw (step, no_overlap scan (v.node p) e)
        (clean_up-Same scan m v' ps e (Off-Same m v v' ps o s))

  -- The blocks that reach into the hit.
  abbrev pub reaching : Scan → Mm → List ℕ → List ℕ
  reaching scan m [] = []
  reaching scan m (p ∷ ps) =
      if overlaps scan (m.node p) then p ∷ reaching scan m ps else reaching scan m ps

  pub Off-node :
      (m w : Mm) (ps : List ℕ) (n : ℕ)
      → Off m w ps
      → ((w.node n).start ≡ (m.node n).start) × ((w.node n).size ≡ (m.node n).size)
  Off-node m w [] n o = ground (arith, o.nodes n)
  Off-node m w (p ∷ ps) n (v, h, o, l, u) =
      let ih = Off-node m v ps n o in
      elim (Bool-cases (n == p)) [
        | inl same ↦ ground (arith, u.fields)
        | inr other ↦ ground (arith, u.others n)
      ]

  abbrev pub Kept : Scan → Mm → List ℕ → List ℕ × Mm → Type 0
  Kept scan m ps r = (r.0 ≡ reaching scan m ps) × Same m r.1

  -- Where a hole was found, every block that was taken off is put back too, and the list keeps just
  -- those that reach into the hit.
  pub keep_hits-Kept :
      (scan : Scan) (m w : Mm) (ps : List ℕ)
      → Off m w ps
      → Returns (Kept scan m ps) (keep_hits (drm_mm rb) scan ps w)
  unfolding keep_hits
  keep_hits-Kept scan m w [] o = (refl, o)
  keep_hits-Kept scan m w (p ∷ ps) (v, h, o, l, u) =
      let (v', step, s) = scan_remove_block-Same scan p h v w l u in
      let same = Off-node m v ps p o in
      let reach : overlaps scan (v.node p) ≡ overlaps scan (m.node p) = ground arith in
      rw (step, reach)
        (bind-Returns (Kept scan m ps) (Kept scan m (p ∷ ps)) (keep_hits (drm_mm rb) scan ps v') _
          (keep_hits-Kept scan m v' ps (Off-Same m v v' ps o s))
          λ (hits, x) k. elim (Bool-cases (overlaps scan (m.node p))) [
            | inl e ↦ rw e (ap (◌∷◌ p) k.0, k.1)
            | inr e ↦ rw e k
          ])
