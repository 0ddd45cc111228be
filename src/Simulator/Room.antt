-- ===== src/Simulator/Room.antt =====
-- test-drm-mm/main.c over test-drm-mm/drm_mm.c: making room in the pool fails no assertion.
use cma_pool_log.Base.{
  ℕ, ◌<◌, ◌≤◌, ◌≡◌, refl, ap, sym, ◌∙◌, inl, inr, Bool, true, false, not, List, [], ◌∷◌, arith,
  ◌==◌, ◌||◌, ltb, u64_max, get_or, after, has, reverse, has-reverse, Distinct-reverse,
  if◌then◌else◌, ok, ◌>>=◌, Returns, bind-Returns, both-Returns, Bool-cases,
}
use cma_pool_log.Rbtree.{Balancing}
use cma_pool_log.Mm.{Mm, Scan, insert_best, head_node, next_node, hole_follows, hole_node_end}
use cma_pool_log.Mm.Roster.{scan_init_with_range}
use cma_pool_log.Mm.Sorting.{Sorted-same}
use cma_pool_log.Mm.Layout.{Tidy}
use cma_pool_log.Mm.Rollback.{Same, Same-refl}
use cma_pool_log.Mm.Rollback as rollback
use cma_pool_log.Mm.Scanning.{Plain, Asks}
use cma_pool_log.Pool.{Data, pool_size, page_size}
use cma_pool_log.Pool.Buffers.{remove_buffer_from_pool}
use cma_pool_log.Pool.PageIn.{
  purgeable, scan_buffers, clean_up, keep_hits, page_out_each, purge_each,
  page_out_buffers_for_insertion, userspace_cache_purge,
}
use cma_pool_log.Pool.Eviction.{Listed, Listed-tail, Removed-Listed, record-mm-Inv}
use cma_pool_log.Pool.Picking.{Picked, EndsPicked, scan_buffers-Picked, KeptIn, keep_hits-KeptIn}
use cma_pool_log.Simulator.{drm_mm}
use cma_pool_log.Simulator.Rollback.{
  Scanned, Kept, scan_buffers-Scanned, clean_up-Same, keep_hits-Kept,
}
use cma_pool_log.Simulator.Linked.{Linked, WithoutIt, remove_buffer-WithoutIt}

pub Tidy-Listed : (m : Mm) → Tidy m → rollback.Listed m
Tidy-Listed m t = record {
  distinct = t.distinct;
  owned = t.owned;
  allocated = λ n h. ground (arith, h, t.distinct, t.allocated n);
  unscanned = λ n h. t.unscanned n;
}

pub Tidy-Plain : (m : Mm) → Tidy m → Plain m
Tidy-Plain m t = record { color_adjust = t.color_adjust; starts = t.starts }

Same-end : (m w : Mm) (n : ℕ) → Same m w → hole_node_end w n ≡ hole_node_end m n
Same-end m w n s =
    (s.nodes (next_node w n)).1
    ∙ ap (λ l. (m.node (get_or (after n (head_node ∷ l)) head_node)).start) s.node_list

Same-Tidy : (m w : Mm) → Same m w → Tidy m → Tidy w
unfolding hole_follows
Same-Tidy m w s t = record {
  indexed = record {
    stack = rw s.hole_stack t.indexed.stack;
    size = rw s.holes_size t.indexed.size;
    addr = rw s.holes_addr t.indexed.addr;
    in_stack = λ n. rw s.hole_stack (ground (arith, t.indexed.in_stack n, s.nodes n));
    in_size = λ n. rw s.holes_size (ground (arith, t.indexed.in_size n, s.nodes n));
    in_addr = λ n. rw s.holes_addr (ground (arith, t.indexed.in_addr n, s.nodes n));
    sorted =
        Sorted-same m w s.holes_size s.holes_addr (λ q h. ground (arith, s.nodes q))
          (λ q h. ground (arith, s.nodes q)) t.indexed.sorted;
  };
  color_adjust = s.color_adjust ∙ t.color_adjust;
  scan_active = s.scan_active ∙ t.scan_active;
  distinct = rw s.node_list t.distinct;
  starts = λ n. ground (arith, s.nodes n, t.starts n);
  head_free = ground (arith, s.nodes head_node, t.head_free);
  owned = λ n e. ground (arith, s.nodes n, s.node_list, t.owned n, e);
  allocated = λ n e. ground (arith, s.nodes n, s.node_list, t.allocated n e);
  unscanned = λ n. ground (arith, s.nodes n, t.unscanned n);
  sizes = λ n h. ground (arith, h, s.nodes n, s.node_list, t.sizes n);
  gaps = λ n h. ground (arith, h, s.nodes n, s.node_list, Same-end m w n s, t.gaps n);
  holes = λ n. ground (arith, s.nodes n, s.node_list, Same-end m w n s, t.holes n);
}

module _ (rb : Balancing) where
  pub Linked-Same :
      (d : Data (drm_mm rb)) (w : Mm) → Linked rb d → Same d.mm w → Linked rb (record d { mm = w })
  Linked-Same d w l s = record {
    inv = record-mm-Inv d w l.inv;
    tidy = Same-Tidy d.mm w s l.tidy;
    placed = λ p. ap (has p) s.node_list ∙ l.placed p;
    blocks = λ q h. ground (arith, h, l.blocks q, s.nodes q);
    pool_end = (s.nodes head_node).1 ∙ l.pool_end;
    some_pointer = l.some_pointer;
    not_null = l.not_null;
    sizes = l.sizes;
  }

  purge_each-Linked :
      (ps : List ℕ) (d : Data (drm_mm rb))
      → Linked rb d
      → Listed ps d
      → Returns (Linked rb) (purge_each ps d)
  unfolding purge_each
  purge_each-Linked [] d l t = l
  purge_each-Linked (p ∷ ps) d l t = elim (Bool-cases (purgeable (d.buffer p))) [
    | inl goes ↦ rw goes (
        bind-Returns (WithoutIt rb p d) (Linked rb) (remove_buffer_from_pool p d) _
          (remove_buffer-WithoutIt rb p d l (t.in_pool p (ground arith)))
          λ e (k, r). purge_each-Linked ps e k (Removed-Listed p ps d e l.inv t r))
    | inr stays ↦ rw stays (purge_each-Linked ps d l (Listed-tail p ps d t))
  ]

  -- From linked data the purge of the userspace cache fails no assertion, and keeps the link.
  pub userspace_cache_purge-Linked :
      (d : Data (drm_mm rb)) → Linked rb d → Returns (Linked rb) (userspace_cache_purge d)
  unfolding userspace_cache_purge
  userspace_cache_purge-Linked d l =
      purge_each-Linked d.mru_buffers d l
        (record { distinct = l.inv.distinct_mru; in_pool = λ q h. h })

  pub page_out_each-Linked :
      (ps : List ℕ) (d : Data (drm_mm rb))
      → Linked rb d
      → Listed ps d
      → Returns (Linked rb) (page_out_each ps d)
  unfolding page_out_each
  page_out_each-Linked [] d l t = l
  page_out_each-Linked (p ∷ ps) d l t =
      bind-Returns (WithoutIt rb p d) (Linked rb) (remove_buffer_from_pool p d) _
        (remove_buffer-WithoutIt rb p d l (t.in_pool p (ground arith)))
        λ e (k, r). page_out_each-Linked ps e k (Removed-Listed p ps d e l.inv t r)

  abbrev pub asked : ℕ → Scan
  asked size = record {
    size = size;
    alignment = page_size;
    remainder_mask = 4095;
    range_start = 0;
    range_end = pool_size;
    hit_start = u64_max;
    hit_end = 0;
    color = 0;
    mode = insert_best;
  }

  pub scan_init-asked :
      (size : ℕ) (m : Mm)
      → 0 < size
      → size ≤ pool_size
      → m.scan_active ≡ 0
      → scan_init_with_range m size page_size 0 0 pool_size insert_best ≡ ok (asked size)
  unfolding scan_init_with_range
  scan_init-asked size m pos small idle =
      let fine : not ((size == 0) || ltb pool_size size) ≡ true = ground (arith, pos, small) in
      rw (fine, idle) refl

  pub asked-Asks : (size : ℕ) → 0 < size → Asks (asked size)
  asked-Asks size pos = record {
    some_size = pos;
    alignment = omega arith;
    mask = refl;
    range_end = omega arith;
  }

  nothing-Picked :
      (d : Data (drm_mm rb))
      → Linked rb d
      → Picked (drm_mm rb) d.buffer (reverse d.mru_buffers) (reverse d.mru_buffers) []
  nothing-Picked d l = record {
    rest_distinct = Distinct-reverse d.mru_buffers l.inv.distinct_mru;
    distinct = tt;
    apart = λ q h. refl;
    ahead = λ q h. h;
    from_source = λ q h. cc;
    free = λ q h. cc;
  }

  abbrev pub MadeRoom : Bool × Data (drm_mm rb) → Type 0
  MadeRoom r = Linked rb r.1

  -- What the walk over the buffers leaves.
  abbrev pub Walked : ℕ → Data (drm_mm rb) → Bool × Scan × Mm × List ℕ → Type 0
  Walked size d r =
      Scanned rb d.buffer (asked size) d.mm r
      × EndsPicked (drm_mm rb) d.buffer (reverse d.mru_buffers) r

  pub walk-Walked :
      (size : ℕ) (d : Data (drm_mm rb))
      → Linked rb d
      → 0 < size
      → Returns
          (Walked size d)
          (scan_buffers (drm_mm rb) d.buffer (reverse d.mru_buffers) (asked size) d.mm [])
  walk-Walked size d l pos =
      both-Returns (Scanned rb d.buffer (asked size) d.mm)
        (EndsPicked (drm_mm rb) d.buffer (reverse d.mru_buffers)) _
        (scan_buffers-Scanned rb d.buffer (reverse d.mru_buffers) (asked size) d.mm d.mm []
          (Distinct-reverse d.mru_buffers l.inv.distinct_mru) (Tidy-Listed d.mm l.tidy)
          (Tidy-Plain d.mm l.tidy) (asked-Asks size pos)
          (λ q h e. l.placed q ∙ sym (has-reverse q d.mru_buffers) ∙ h) (Same-refl d.mm))
        (scan_buffers-Picked (drm_mm rb) d.buffer (reverse d.mru_buffers) (reverse d.mru_buffers)
          (asked size) d.mm [] (nothing-Picked d l))

  -- From linked data room is looked for without a failed assertion, for a size that is not 0 and not
  -- larger than the pool, and the data stays linked.
  pub page_out_buffers-MadeRoom :
      (size : ℕ) (d : Data (drm_mm rb))
      → Linked rb d
      → 0 < size
      → size ≤ pool_size
      → Returns MadeRoom (page_out_buffers_for_insertion size d)
  unfolding page_out_buffers_for_insertion
  page_out_buffers-MadeRoom size d l pos small =
      rw (scan_init-asked size d.mm pos small l.tidy.scan_active) (
        bind-Returns (Walked size d) MadeRoom
          (scan_buffers (drm_mm rb) d.buffer (reverse d.mru_buffers) (asked size) d.mm []) _
          (walk-Walked size d l pos) go)
    where
      go :
          (r : Bool × Scan × Mm × List ℕ)
          → Walked size d r
          → Returns MadeRoom (
              if r.0
              then (do
                (hits, mm') ← keep_hits (drm_mm rb) r.1 r.3 r.2
                d' ← page_out_each hits (record d { mm = mm' })
                ok (true, d'))
              else (do mm' ← clean_up (drm_mm rb) r.1 r.3 r.2; ok (false, record d { mm = mm' })))
      go (true, scan, mm, picked) (s, k) =
          bind-Returns (λ h. Kept rb scan d.mm picked h × KeptIn (drm_mm rb) picked h) MadeRoom
            (keep_hits (drm_mm rb) scan picked mm) _
            (both-Returns (Kept rb scan d.mm picked) (KeptIn (drm_mm rb) picked) _
              (keep_hits-Kept rb scan d.mm mm picked s.off)
              (keep_hits-KeptIn (drm_mm rb) scan picked mm k.distinct))
            λ (hits, mm') (a, b).
              bind-Returns (Linked rb) MadeRoom (page_out_each hits (record d { mm = mm' })) _
                (page_out_each-Linked hits (record d { mm = mm' }) (Linked-Same d mm' l a.1)
                  (record {
                    distinct = b.distinct;
                    in_pool = λ q h.
                        ground (arith, b.among q, k.from_source q, has-reverse q d.mru_buffers);
                  }))
                λ e f. f
      go (false, scan, mm, picked) (s, k) =
          bind-Returns (Same d.mm) MadeRoom (clean_up (drm_mm rb) scan picked mm) _
            (clean_up-Same rb scan d.mm mm picked (ap (λ t. t.hit_start) (s.miss refl)) s.off)
            λ mm' same. Linked-Same d mm' l same
