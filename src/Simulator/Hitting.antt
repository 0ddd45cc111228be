-- ===== src/Simulator/Hitting.antt =====
-- main.c over drm_mm.c: what the walk of `page_out_buffers_for_insertion` over the buffers finds out.
use cma_pool_log.Base.{
  ℕ, ◌+◌, ◌≡◌, ◌⊎◌, refl, ap, ◌∙◌, subst, inl, inr, Bool, true, false, List, [], ◌∷◌, arith, ◌==◌,
  if◌then◌else◌, has, Distinct, has-remove, ok, Returns, Returns-mono, bind-Returns, Bool-cases,
  has-before_from, has_of_before_from,
}
use cma_pool_log.Base.Ring.{before_from-ne}
use cma_pool_log.Rbtree.{Balancing}
use cma_pool_log.Mm.{Mm, Scan, head_node, ring, hole_node_start, hole_node_end}
use cma_pool_log.Mm.Roster.{scan_add_block}
use cma_pool_log.Mm.Place.{Fits}
use cma_pool_log.Mm.Rollback.{Listed, Unlinked}
use cma_pool_log.Mm.Scanning.{
  Plain, Asks, Added, NoPlace, scan_add_block-Added, Unlinked-Listed, Unlinked-Plain,
}
use cma_pool_log.Mm.Laid.{Laid, Unlinked-Laid, Unlinked-places, Unlinked-end}
use cma_pool_log.Pool.{Buffer}
use cma_pool_log.Pool.PageIn.{evictable, scan_buffers}
use cma_pool_log.Simulator.{drm_mm}
use cma_pool_log.Simulator.Rollback.{Ahead, Ahead-tail, Ahead-Unlinked}

-- The hit lies in the gap behind a node, and is a place for what is asked for.
pub record HitIn (scan hit : Scan) (w : Mm) : Type 0 where
  pub node : ℕ
  pub listed : has node (ring w) ≡ true
  pub ends : hit.hit_end ≡ hit.hit_start + scan.size
  pub fits :
      Fits scan.size scan.alignment
        (scan.range_start, scan.range_end)
        (hole_node_start w node, hole_node_end w node)
        hit.hit_start

-- Each gap was there from the beginning, or there is no place in it.
abbrev pub TriedAll : Scan → Mm → Mm → Type 0
TriedAll scan m w =
    (n : ℕ)
    → has n (ring w) ≡ true
    → ((hole_node_end w n ≡ hole_node_end m n) × (has n (ring m) ≡ true)) ⊎ NoPlace scan w n

TriedAll-Unlinked :
    (scan : Scan) (x h : ℕ) (m v w : Mm)
    → Listed v
    → Unlinked x h v w
    → NoPlace scan w h
    → TriedAll scan m v
    → TriedAll scan m w
TriedAll-Unlinked scan x h m v w l u none_fits t n g =
    let there : (has n (ring v) ≡ true) × ((n == x) ≡ false) = ground (
      arith,
      g,
      u.node_list,
      has-remove x n v.node_list l.distinct.1,
      l.distinct.0,
      has_of_before_from x head_node h v.node_list u.behind,
    ) in
    elim (Bool-cases (n == h)) [
      | inl e ↦ let same : h ≡ n = ground (arith, e) in inr (subst (NoPlace scan w) same none_fits)
      | inr e ↦
          let end = Unlinked-end x h n v w l u there.1 e in
          elim (t n there.0) [
            | inl (k, i) ↦ inl (end ∙ k, i)
            | inr k ↦ inr λ s f. k s (record {
              above_hole = ground (arith, f.above_hole, Unlinked-places x h n v w u);
              above_range = f.above_range;
              below_hole = ground (arith, f.below_hole, end);
              below_range = f.below_range;
              aligned = f.aligned;
            })
          ]
    ]

module _ (rb : Balancing) (buffer : ℕ → Buffer) where
  -- What is known at the end of the walk from `v` over `ps`, which began at `m`.
  pub record Found (scan : Scan) (m v : Mm) (ps : List ℕ) (r : Bool × Scan × Mm × List ℕ)
      : Type 0 where
    pub laid : Laid r.2
    pub shrinks : (q : ℕ) → has q r.2.node_list ≡ true → has q v.node_list ≡ true
    pub hit : r.0 ≡ true → HitIn scan r.1 r.2
    pub tried : r.0 ≡ false → TriedAll scan m r.2
    pub gone :
        r.0 ≡ false
        → (q : ℕ) → has q ps ≡ true
        → evictable (buffer q) ≡ true
        → has q r.2.node_list ≡ false

  -- The walk over buffers as for `scan_buffers-Scanned`: it ends with a hit, which is a place for
  -- what is asked for; or all buffers that may go are off the list, and no gap that came into being has
  -- such a place.
  pub scan_buffers-Found :
      (ps : List ℕ) (scan : Scan) (m v : Mm) (picked : List ℕ)
      → Distinct ps
      → Listed v
      → Plain v
      → Asks scan
      → Ahead buffer ps v
      → Laid v
      → TriedAll scan m v
      → Returns (Found scan m v ps) (scan_buffers (drm_mm rb) buffer ps scan v picked)
  unfolding scan_buffers
  scan_buffers-Found [] scan m v picked d l p q a i t = record {
    laid = i;
    shrinks = λ n g. g;
    hit = λ c. cc;
    tried = λ c. t;
    gone = λ c n g. cc;
  }
  scan_buffers-Found (x ∷ ps) scan m v picked d l p q a i t =
      elim (Bool-cases (evictable (buffer x))) [
        | inl free ↦
            let (h, added) = scan_add_block-Added scan x v l p q (a x (ground arith) free) in
            rw free (
              bind-Returns (Added scan x h v) (Found scan m v (x ∷ ps)) (scan_add_block scan v x) _
                added
                (next h λ w u none_fits.
                  scan_buffers-Found ps scan m w (x ∷ picked) d.1 (Unlinked-Listed x h v w l u)
                    (Unlinked-Plain x h v w p u) q (Ahead-Unlinked rb buffer x h ps v w d l a u)
                    (Unlinked-Laid x h v w l u i)
                    (TriedAll-Unlinked scan x h m v w l u none_fits t)))
        | inr held ↦ rw held (
            Returns-mono (Found scan m v ps) (Found scan m v (x ∷ ps)) _
              (scan_buffers-Found ps scan m v picked d.1 l p q (Ahead-tail rb buffer x ps v a) i t)
              λ r f. record {
                laid = f.laid;
                shrinks = f.shrinks;
                hit = f.hit;
                tried = f.tried;
                gone = λ c n g e. f.gone c n (ground (arith, g, e, held)) e;
              })
      ]
    where
      left :
          (h : ℕ) (w : Mm) (n : ℕ)
          → Unlinked x h v w
          → has n w.node_list ≡ (if x == n then false else has n v.node_list)
      left h w n u = ap (has n) u.node_list ∙ has-remove x n v.node_list l.distinct.1

      next :
          (h : ℕ)
          → ((w : Mm)
              → Unlinked x h v w
              → NoPlace scan w h
              → Returns
                  (Found scan m w ps)
                  (scan_buffers (drm_mm rb) buffer ps scan w (x ∷ picked)))
          → (r : Bool × Scan × Mm) → Added scan x h v r
          → Returns (Found scan m v (x ∷ ps)) (
              if r.0
              then ok (true, r.1, r.2, x ∷ picked)
              else scan_buffers (drm_mm rb) buffer ps r.1 r.2 (x ∷ picked))
      next h rest (true, scan', w) k =
          let (same, ends, fits) = k.hit refl in
          record {
            laid = Unlinked-Laid x h v w l k.unlinked i;
            shrinks = λ n g. ground (arith, g, left h w n k.unlinked);
            hit = λ c. record {
              node = h;
              listed = ground (
                arith,
                left h w h k.unlinked,
                has-before_from x head_node h v.node_list k.unlinked.behind,
                before_from-ne x head_node h v.node_list k.unlinked.behind l.distinct,
              );
              ends = ends;
              fits = fits;
            };
            tried = λ c. cc;
            gone = λ c. cc;
          }
      next h rest (false, scan', w) k =
          let (same, none_fits) = k.miss refl in
          rw same (
            Returns-mono (Found scan m w ps) (Found scan m v (x ∷ ps)) _
              (rest w k.unlinked none_fits)
              λ r f. record {
                laid = f.laid;
                shrinks = λ n g. ground (arith, f.shrinks n g, left h w n k.unlinked);
                hit = f.hit;
                tried = f.tried;
                gone = λ c n g e. elim (Bool-cases (has n r.2.node_list)) [
                  | inr out ↦ out
                  | inl in' ↦ elim (Bool-cases (n == x)) [
                    | inl j ↦ ground (arith, j, f.shrinks n in', left h w n k.unlinked)
                    | inr j ↦ f.gone c n (ground (arith, g, j)) e
                  ]
                ];
              })
