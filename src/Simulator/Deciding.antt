-- ===== src/Simulator/Deciding.antt =====
-- main.c over drm_mm.c: `page_in_buffer` finds a place for a buffer just if there is one.
use cma_pool_log.Base.{
  ℕ, ◌≡◌, refl, sym, subst, inl, Bool, true, false, arith, if◌then◌else◌, ok, ◌>>=◌, Returns,
  Returns-Ensures, Returns-mono, bind-Returns, both-Returns,
}
use cma_pool_log.Rbtree.{Balancing}
use cma_pool_log.Mm.{Search, insert_best, insert_evict}
use cma_pool_log.Mm.Contract.{space}
use cma_pool_log.Pool.{Data, no_insertion_point, report}
use cma_pool_log.Pool.Buffers.{insert_buffer_in_cma_pool}
use cma_pool_log.Pool.PageIn.{
  page_out_buffers_for_insertion, userspace_cache_purge, evict_and_insert, page_in_buffer,
}
use cma_pool_log.Pool.Eviction.{Evicted, userspace_cache_purge-Evicted}
use cma_pool_log.Pool.Picking.{AfterEviction, page_out_buffers-Evicted}
use cma_pool_log.Pool.Entering.{Waiting, Waiting-Evicted}
use cma_pool_log.Simulator.{drm_mm}
use cma_pool_log.Simulator.Linked.{Linked, Tried, insert_buffer-Tried}
use cma_pool_log.Simulator.Room.{MadeRoom, page_out_buffers-MadeRoom, userspace_cache_purge-Linked}
use cma_pool_log.Simulator.Vacating.{Stays, userspace_cache_purge-Stays}
use cma_pool_log.Simulator.Emptying.{Full, stay}
use cma_pool_log.Simulator.Making.{Makes, page_out_buffers-Makes}
use cma_pool_log.Simulator.Answering.{
  Place, Decides, Answered, Spares-Free, Decides-Stays, insert_buffer-Answered,
}

module _ (rb : Balancing) where
  abbrev Room : ℕ → Data (drm_mm rb) → Bool × Data (drm_mm rb) → Type 0
  Room size d r = (MadeRoom rb r × AfterEviction d r) × Makes rb size d r

  -- Where no insertion succeeded before: the last resort.
  evict_and_insert-Decides :
      (p : ℕ) (d : Data (drm_mm rb))
      → Linked rb d
      → Waiting p d
      → Full (space d.mm) (d.buffer p).size
      → Returns (Decides rb (d.buffer p).size d) (evict_and_insert p d)
  unfolding evict_and_insert
  evict_and_insert-Decides p d l w full =
      let size = (d.buffer p).size in
      let (pos, small) = l.sizes p w.known in
      bind-Returns (Room size d) (Decides rb size d) (page_out_buffers_for_insertion size d) _
        (both-Returns (λ r. MadeRoom rb r × AfterEviction d r) (Makes rb size d) _
          (both-Returns (MadeRoom rb) (AfterEviction d) _
            (page_out_buffers-MadeRoom rb size d l pos small)
            (page_out_buffers-Evicted size d l.inv))
          (Returns-Ensures (Makes rb size d) _ (page_out_buffers-Makes rb size d l pos small)))
        go
    where
      last :
          (e : Data (drm_mm rb))
          → Place (space e.mm) (e.buffer p).size
          → Place (stay rb d) (d.buffer p).size
          → (r : Bool × Data (drm_mm rb)) → Answered rb (e.buffer p).size e r
          → Returns (Decides rb (d.buffer p).size d) (
              ok (
                if r.0
                then (true, r.1)
                else (false, report (no_insertion_point (r.1.buffer p).size) r.1)))
      last e here place (true, f) t = place
      last e (a, q, g) place (false, f) t = absurd (t a q g)

      go :
          (r : Bool × Data (drm_mm rb))
          → Room (d.buffer p).size d r
          → Returns (Decides rb (d.buffer p).size d) (do
            (placed, d₂) ←
                (if r.0 then insert_buffer_in_cma_pool p insert_evict r.1 else ok (false, r.1))
            ok (
                if placed
                then (true, d₂)
                else (false, report (no_insertion_point (d₂.buffer p).size) d₂)))
      go (true, e) ((k, s), (sp, place)) =
          let w' = Waiting-Evicted p d e w s in
          let same : (d.buffer p).size ≡ (e.buffer p).size = ground (arith, s.buffers p) in
          let (a, q, f) = place in
          bind-Returns (Answered rb (e.buffer p).size e) (Decides rb (d.buffer p).size d)
            (insert_buffer_in_cma_pool p insert_evict e) _
            (insert_buffer-Answered rb p Search.evict e k w'.known w'.absent)
            (last e (subst (Place (space e.mm)) same place)
              (a, q, Spares-Free rb d (space e.mm) a (d.buffer p).size sp f))
      go (false, e) ((k, s), makes) = makes full

  -- From linked data, for a buffer that is not in the pool, `page_in_buffer` returns true just if the
  -- buffers that are in use or unmoveable leave free addresses for it at the beginning of a page: it
  -- returns, and where it answers true there are such addresses, and where it answers false there are
  -- none.
  pub page_in_buffer-Decides :
      (p : ℕ) (d : Data (drm_mm rb))
      → Linked rb d
      → Waiting p d
      → Returns (Decides rb (d.buffer p).size d) (page_in_buffer p d)
  unfolding page_in_buffer
  page_in_buffer-Decides p d l w =
      bind-Returns (Once d) (Decides rb (d.buffer p).size d)
        (insert_buffer_in_cma_pool p insert_best d) _ (once d l w) first
    where
      Once : Data (drm_mm rb) → Bool × Data (drm_mm rb) → Type 0
      Once e r = Tried rb p e r × Answered rb (e.buffer p).size e r

      once :
          (e : Data (drm_mm rb))
          → Linked rb e
          → Waiting p e
          → Returns (Once e) (insert_buffer_in_cma_pool p insert_best e)
      once e k u =
          both-Returns (Tried rb p e) (Answered rb (e.buffer p).size e) _
            (insert_buffer-Tried rb p insert_best e k u.known u.absent)
            (Returns-Ensures (Answered rb (e.buffer p).size e) _
              (insert_buffer-Answered rb p Search.best e k u.known u.absent))

      second :
          (e : Data (drm_mm rb))
          → Linked rb e
          → Waiting p e
          → (r : Bool × Data (drm_mm rb)) → Once e r
          → Returns
              (Decides rb (e.buffer p).size e)
              (if r.0 then ok (true, r.1) else evict_and_insert p r.1)
      second e k u (true, f) (t, (a, q, g)) = (
        a,
        q,
        Spares-Free rb e (space e.mm) a (e.buffer p).size
            (record { bottom = refl; top = refl; block = λ n. inl refl }) g,
      )
      second e k u (false, f) (t, full) =
          subst (λ g. Returns (Decides rb (e.buffer p).size e) (evict_and_insert p g)) (sym t)
            (evict_and_insert-Decides p e k u full)

      retry :
          (e : Data (drm_mm rb))
          → (Linked rb e × Evicted d e) × Stays rb d e
          → Returns (Decides rb (d.buffer p).size d) (do
            (placed', d₃) ← insert_buffer_in_cma_pool p insert_best e
            if placed' then ok (true, d₃) else evict_and_insert p d₃)
      retry e ((k, s), st) =
          let u = Waiting-Evicted p d e w s in
          let same : (e.buffer p).size ≡ (d.buffer p).size = ground (arith, s.buffers p) in
          bind-Returns (Once e) (Decides rb (d.buffer p).size d)
            (insert_buffer_in_cma_pool p insert_best e) _ (once e k u)
            λ r t.
              Returns-mono (Decides rb (e.buffer p).size e) (Decides rb (d.buffer p).size d) _
                (second e k u r t)
                λ v g.
                  Decides-Stays rb (d.buffer p).size d e v st (subst (λ n. Decides rb n e v) same g)

      first :
          (r : Bool × Data (drm_mm rb))
          → Once d r
          → Returns (Decides rb (d.buffer p).size d) (
              if r.0 then ok (true, r.1) else (do
                d₂ ← userspace_cache_purge r.1
                (placed', d₃) ← insert_buffer_in_cma_pool p insert_best d₂
                if placed' then ok (true, d₃) else evict_and_insert p d₃))
      first (true, e) t = second d l w (true, e) t
      first (false, e) (t, full) =
          subst
            (λ g. Returns (Decides rb (d.buffer p).size d) (do
              d₂ ← userspace_cache_purge g
              (placed', d₃) ← insert_buffer_in_cma_pool p insert_best d₂
              if placed' then ok (true, d₃) else evict_and_insert p d₃))
            (sym t)
            (bind-Returns (λ f. (Linked rb f × Evicted d f) × Stays rb d f)
              (Decides rb (d.buffer p).size d) (userspace_cache_purge d) _
              (both-Returns (λ f. Linked rb f × Evicted d f) (Stays rb d) _
                (both-Returns (Linked rb) (Evicted d) _ (userspace_cache_purge-Linked rb d l)
                  (userspace_cache_purge-Evicted d l.inv))
                (Returns-Ensures (Stays rb d) _ (userspace_cache_purge-Stays rb d l)))
              retry)
