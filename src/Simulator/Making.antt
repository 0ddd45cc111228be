-- ===== src/Simulator/Making.antt =====
-- main.c over drm_mm.c: `page_out_buffers_for_insertion` makes room just if that can be done.
use cma_pool_log.Base.{
  ℕ, ◌<◌, ◌≤◌, refl, ap, sym, ◌∙◌, subst, inl, inr, Bool, true, false, List, [], arith,
  if◌then◌else◌, u64_max, has, reverse, has-reverse, Distinct-reverse, ok, ◌>>=◌, Returns,
  Returns-Ensures, bind-Returns, both-Returns, Bool-cases,
}
use cma_pool_log.Rbtree.{Balancing}
use cma_pool_log.Mm.{Mm, Scan, head_node}
use cma_pool_log.Mm.Rollback.{Same}
use cma_pool_log.Mm.Laid.{Tidy-Laid}
use cma_pool_log.Mm.Contract.{space, Free, Asked}
use cma_pool_log.Pool.{Data, pool_size, page_size}
use cma_pool_log.Pool.PageIn.{
  evictable, scan_buffers, clean_up, keep_hits, page_out_each, page_out_buffers_for_insertion,
}
use cma_pool_log.Pool.Picking.{KeptIn, keep_hits-KeptIn}
use cma_pool_log.Simulator.{drm_mm}
use cma_pool_log.Simulator.Rollback.{Kept, clean_up-Same, keep_hits-Kept}
use cma_pool_log.Simulator.Hitting.{Found, scan_buffers-Found}
use cma_pool_log.Simulator.Linked.{Linked}
use cma_pool_log.Simulator.Room.{
  asked, asked-Asks, scan_init-asked, Walked, walk-Walked, Linked-Same, Tidy-Listed, Tidy-Plain,
}
use cma_pool_log.Simulator.Vacating.{Vacated, Spares, page_out_each-Vacated}
use cma_pool_log.Simulator.Emptying.{Full, stay, hit-Free, miss-Full}

module _ (rb : Balancing) where
  -- Room was made: there are free addresses now. Or it was not: then, if there were none before, there
  -- are none even without the buffers that may go.
  abbrev pub Makes : ℕ → Data (drm_mm rb) → Bool × Data (drm_mm rb) → Type 0
  Makes size d (true, e) =
      Spares (λ n. evictable (d.buffer n)) (space d.mm) (space e.mm)
      × ((a : ℕ) × Asked size page_size 0 u64_max a × Free (space e.mm) a size)
  Makes size d (false, e) = Full (space d.mm) size → Full (stay rb d) size

  Surveyed : ℕ → Data (drm_mm rb) → Bool × Scan × Mm × List ℕ → Type 0
  Surveyed size d r =
      Walked rb size d r × Found rb d.buffer (asked rb size) d.mm d.mm (reverse d.mru_buffers) r

  walk-Surveyed :
      (size : ℕ) (d : Data (drm_mm rb))
      → Linked rb d
      → 0 < size
      → Returns
          (Surveyed size d)
          (scan_buffers (drm_mm rb) d.buffer (reverse d.mru_buffers) (asked rb size) d.mm [])
  unfolding Surveyed
  walk-Surveyed size d l pos =
      let found = Found rb d.buffer (asked rb size) d.mm d.mm (reverse d.mru_buffers) in
      both-Returns (Walked rb size d) found _ (walk-Walked rb size d l pos) (
        Returns-Ensures found _ (
          scan_buffers-Found rb d.buffer (reverse d.mru_buffers) (asked rb size) d.mm d.mm []
            (Distinct-reverse d.mru_buffers l.inv.distinct_mru) (Tidy-Listed d.mm l.tidy)
            (Tidy-Plain d.mm l.tidy) (asked-Asks rb size pos)
            (λ q h e. l.placed q ∙ sym (has-reverse q d.mru_buffers) ∙ h) (Tidy-Laid d.mm l.tidy)
            λ n g. inl (refl, g)))

  -- From linked data, for a size that is not 0 and not larger than the pool,
  -- `page_out_buffers_for_insertion` makes room just if the buffers that must stay leave any: where it
  -- says that it did, there are free addresses at the beginning of a page; where it says that it did
  -- not, and there were no such addresses before, the buffers that are in use or unmoveable alone leave
  -- none.
  pub page_out_buffers-Makes :
      (size : ℕ) (d : Data (drm_mm rb))
      → Linked rb d
      → 0 < size
      → size ≤ pool_size
      → Returns (Makes size d) (page_out_buffers_for_insertion size d)
  unfolding page_out_buffers_for_insertion Surveyed
  page_out_buffers-Makes size d l pos small =
      rw (scan_init-asked rb size d.mm pos small l.tidy.scan_active) (
        bind-Returns (Surveyed size d) (Makes size d)
          (scan_buffers (drm_mm rb) d.buffer (reverse d.mru_buffers) (asked rb size) d.mm []) _
          (walk-Surveyed size d l pos) go)
    where
      go :
          (r : Bool × Scan × Mm × List ℕ)
          → Surveyed size d r
          → Returns (Makes size d) (
              if r.0
              then (do
                (hits, mm') ← keep_hits (drm_mm rb) r.1 r.3 r.2
                d' ← page_out_each hits (record d { mm = mm' })
                ok (true, d'))
              else (do mm' ← clean_up (drm_mm rb) r.1 r.3 r.2; ok (false, record d { mm = mm' })))
      go (true, scan, mm, picked) ((s, k), f) =
          bind-Returns (λ h. Kept rb scan d.mm picked h × KeptIn (drm_mm rb) picked h)
            (Makes size d) (keep_hits (drm_mm rb) scan picked mm) _
            (both-Returns (Kept rb scan d.mm picked) (KeptIn (drm_mm rb) picked) _
              (keep_hits-Kept rb scan d.mm mm picked s.off)
              (keep_hits-KeptIn (drm_mm rb) scan picked mm k.distinct))
            λ (hits, mm') (a, b).
              bind-Returns (λ (e : Data (drm_mm rb)). Vacated hits (space mm') (space e.mm))
                (Makes size d) (page_out_each hits (record d { mm = mm' })) _
                (page_out_each-Vacated rb hits (record d { mm = mm' }) (Linked-Same rb d mm' l a.1)
                  (record {
                    distinct = b.distinct;
                    in_pool = λ q h.
                        ground (arith, b.among q, k.from_source q, has-reverse q d.mru_buffers);
                  }))
                λ e v.
                  let h = f.hit refl in
                  (
                    record {
                      bottom = ground (arith, v.bottom, a.1.nodes head_node);
                      top = ground (arith, v.top, a.1.nodes head_node);
                      block = λ n. elim (Bool-cases (has n hits)) [
                        | inl i ↦ inr (k.free n (b.among n i))
                        | inr i ↦ inl (ground (arith, v.block n, i, a.1.nodes n, a.1.node_list))
                      ];
                    },
                    (
                      scan.hit_start,
                      record {
                        above = omega arith;
                        below = omega (arith, h.fits.below_range);
                        aligned = λ big. h.fits.aligned (omega arith);
                      },
                      hit-Free rb (asked rb size) scan d.mm mm mm' picked (space e.mm)
                          (Tidy-Laid d.mm l.tidy) f.laid a.1 s.off h
                          (subst (λ ps. Vacated ps (space mm') (space e.mm)) a.0 v),
                    ),
                  )
      go (false, scan, mm, picked) ((s, k), f) =
          bind-Returns (Same d.mm) (Makes size d) (clean_up (drm_mm rb) scan picked mm) _
            (clean_up-Same rb scan d.mm mm picked (ap (λ t. t.hit_start) (s.miss refl)) s.off)
            λ mm' same full.
              miss-Full rb size d mm picked l f.laid s.off (f.tried refl)
                (λ n h e. f.gone refl n (has-reverse n d.mru_buffers ∙ h) e) full
