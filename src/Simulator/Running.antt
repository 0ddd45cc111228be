-- ===== src/Simulator/Running.antt =====
-- test-drm-mm/main.c over test-drm-mm/drm_mm.c: `page_in_buffer` fails no assertion.
use cma_pool_log.Base.{
  ℕ, sym, subst, Bool, true, false, if◌then◌else◌, ok, ◌>>=◌, Returns, bind-Returns, both-Returns,
}
use cma_pool_log.Rbtree.{Balancing}
use cma_pool_log.Mm.{insert_best, insert_evict}
use cma_pool_log.Pool.{Data, Message, no_insertion_point, report}
use cma_pool_log.Pool.Buffers.{insert_buffer_in_cma_pool}
use cma_pool_log.Pool.PageIn.{
  page_out_buffers_for_insertion, userspace_cache_purge, evict_and_insert, page_in_buffer,
}
use cma_pool_log.Pool.Invariant.{report-Inv}
use cma_pool_log.Pool.Eviction.{Evicted, userspace_cache_purge-Evicted}
use cma_pool_log.Pool.Picking.{AfterEviction, page_out_buffers-Evicted}
use cma_pool_log.Pool.Entering.{Waiting, Waiting-Evicted}
use cma_pool_log.Simulator.{drm_mm}
use cma_pool_log.Simulator.Linked.{Linked, Tried, insert_buffer-Tried}
use cma_pool_log.Simulator.Room.{MadeRoom, page_out_buffers-MadeRoom, userspace_cache_purge-Linked}

module _ (rb : Balancing) where
  pub report-Linked : (e : Message) (d : Data (drm_mm rb)) → Linked rb d → Linked rb (report e d)
  report-Linked e d l = record {
    inv = report-Inv e d l.inv;
    tidy = l.tidy;
    placed = l.placed;
    blocks = l.blocks;
    pool_end = l.pool_end;
    some_pointer = l.some_pointer;
    not_null = l.not_null;
    sizes = l.sizes;
  }

  evict_and_insert-MadeRoom :
      (p : ℕ) (d : Data (drm_mm rb))
      → Linked rb d
      → Waiting p d
      → Returns (MadeRoom rb) (evict_and_insert p d)
  unfolding evict_and_insert
  evict_and_insert-MadeRoom p d l w =
      let (pos, small) = l.sizes p w.known in
      bind-Returns (λ r. MadeRoom rb r × AfterEviction d r) (MadeRoom rb)
        (page_out_buffers_for_insertion (d.buffer p).size d) _
        (both-Returns (MadeRoom rb) (AfterEviction d) _
          (page_out_buffers-MadeRoom rb (d.buffer p).size d l pos small)
          (page_out_buffers-Evicted (d.buffer p).size d l.inv))
        go
    where
      last :
          (e : Data (drm_mm rb))
          → Linked rb e
          → (r : Bool × Data (drm_mm rb)) → Tried rb p e r
          → Returns (MadeRoom rb) (
              ok (
                if r.0
                then (true, r.1)
                else (false, report (no_insertion_point (r.1.buffer p).size) r.1)))
      last e k (true, f) t = t
      last e k (false, f) t = rw t (report-Linked _ e k)

      go :
          (r : Bool × Data (drm_mm rb))
          → MadeRoom rb r × AfterEviction d r
          → Returns (MadeRoom rb) (do
            (placed, d₂) ←
                (if r.0 then insert_buffer_in_cma_pool p insert_evict r.1 else ok (false, r.1))
            ok (
                if placed
                then (true, d₂)
                else (false, report (no_insertion_point (d₂.buffer p).size) d₂)))
      go (true, e) (k, s) =
          let w' = Waiting-Evicted p d e w s in
          bind-Returns (Tried rb p e) (MadeRoom rb) (insert_buffer_in_cma_pool p insert_evict e) _
            (insert_buffer-Tried rb p insert_evict e k w'.known w'.absent) (last e k)
      go (false, e) (k, s) = report-Linked _ e k

  -- A buffer that is not in the pool is paged in, or refused, without a failed assertion, and the data
  -- stays linked.
  pub page_in_buffer-MadeRoom :
      (p : ℕ) (d : Data (drm_mm rb))
      → Linked rb d
      → Waiting p d
      → Returns (MadeRoom rb) (page_in_buffer p d)
  unfolding page_in_buffer
  page_in_buffer-MadeRoom p d l w =
      bind-Returns (Tried rb p d) (MadeRoom rb) (insert_buffer_in_cma_pool p insert_best d) _
        (insert_buffer-Tried rb p insert_best d l w.known w.absent) first
    where
      second :
          (e : Data (drm_mm rb))
          → Linked rb e
          → Waiting p e
          → (r : Bool × Data (drm_mm rb)) → Tried rb p e r
          → Returns (MadeRoom rb) (if r.0 then ok (true, r.1) else evict_and_insert p r.1)
      second e k u (true, f) t = t
      second e k u (false, f) t =
          subst (λ g. Returns (MadeRoom rb) (evict_and_insert p g)) (sym t)
            (evict_and_insert-MadeRoom p e k u)

      retry :
          (e : Data (drm_mm rb))
          → Linked rb e × Evicted d e
          → Returns (MadeRoom rb) (do
            (placed', d₃) ← insert_buffer_in_cma_pool p insert_best e
            if placed' then ok (true, d₃) else evict_and_insert p d₃)
      retry e (k, s) =
          let u = Waiting-Evicted p d e w s in
          bind-Returns (Tried rb p e) (MadeRoom rb) (insert_buffer_in_cma_pool p insert_best e) _
            (insert_buffer-Tried rb p insert_best e k u.known u.absent) (second e k u)

      first :
          (r : Bool × Data (drm_mm rb))
          → Tried rb p d r
          → Returns (MadeRoom rb) (
              if r.0 then ok (true, r.1) else (do
                d₂ ← userspace_cache_purge r.1
                (placed', d₃) ← insert_buffer_in_cma_pool p insert_best d₂
                if placed' then ok (true, d₃) else evict_and_insert p d₃))
      first (true, e) t = t
      first (false, e) t =
          subst
            (λ g. Returns (MadeRoom rb) (do
              d₂ ← userspace_cache_purge g
              (placed', d₃) ← insert_buffer_in_cma_pool p insert_best d₂
              if placed' then ok (true, d₃) else evict_and_insert p d₃))
            (sym t)
            (bind-Returns (λ f. Linked rb f × Evicted d f) (MadeRoom rb) (userspace_cache_purge d) _
              (both-Returns (Linked rb) (Evicted d) _ (userspace_cache_purge-Linked rb d l)
                (userspace_cache_purge-Evicted d l.inv))
              retry)
