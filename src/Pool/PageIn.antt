-- ===== src/Pool/PageIn.antt =====
-- test-drm-mm/main.c: making room in the pool, and `page_in_buffer`.
use cma_pool_log.Base.{
  ℕ, Bool, true, false, not, ◌&&◌, ◌||◌, List, [], ◌∷◌, reverse, if◌then◌else◌, Outcome, ok, ◌>>=◌,
  ◌>>◌, assert,
}
use cma_pool_log.Mm.{insert_best, insert_evict}
use cma_pool_log.Pool.{
  Allocator, Buffer, Madv, willneed, dontneed, Data, no_insertion_point, report, pool_size,
  page_size,
}
use cma_pool_log.Pool.Buffers.{remove_buffer_from_pool, insert_buffer_in_cma_pool}

-- Whether the buffer may be paged out to make room.
abbrev pub evictable : Buffer → Bool
evictable b = not (b.in_use || b.unmoveable)

abbrev pub is_dontneed : Madv → Bool
is_dontneed dontneed = true
is_dontneed willneed = false

-- Whether the userspace cache may lose it.
abbrev pub purgeable : Buffer → Bool
purgeable b = is_dontneed b.madv && not b.in_use && not b.unmoveable

module _ (A : Allocator) where
  -- The walk that picks what to evict, least recently used first; true is the jump to `found`.
  unfoldable pub scan_buffers :
      (ℕ → Buffer) → List ℕ → A.Scan → A.State → List ℕ → Outcome (Bool × A.Scan × A.State × List ℕ)
  scan_buffers buffer [] scan mm evicted = ok (false, scan, mm, evicted)
  scan_buffers buffer (p ∷ ps) scan mm evicted =
      let skip = scan_buffers buffer ps scan mm evicted in
      if evictable (buffer p)
      then (do
        (hit, scan', mm') ← A.add_block scan mm p
        if hit
            then ok (true, scan', mm', p ∷ evicted)
            else scan_buffers buffer ps scan' mm' (p ∷ evicted))
      else skip

  -- The clean-up where no hole was found.
  unfoldable pub clean_up : A.Scan → List ℕ → A.State → Outcome A.State
  clean_up scan [] mm = ok mm
  clean_up scan (p ∷ ps) mm = do
    (evict, mm') ← A.remove_block scan mm p
    assert (not evict)
    clean_up scan ps mm'

  -- The walk that takes off the eviction list what is not in the way of the hole.
  unfoldable pub keep_hits : A.Scan → List ℕ → A.State → Outcome (List ℕ × A.State)
  keep_hits scan [] mm = ok ([], mm)
  keep_hits scan (p ∷ ps) mm = do
    (evict, mm') ← A.remove_block scan mm p
    (hits, mm'') ← keep_hits scan ps mm'
    ok (if evict then (p ∷ hits, mm'') else (hits, mm''))

module _ {A : Allocator} where
  unfoldable pub page_out_each : List ℕ → Data A → Outcome (Data A)
  unfolding remove_buffer_from_pool
  page_out_each [] d = ok d
  page_out_each (p ∷ ps) d = do d' ← remove_buffer_from_pool p d; page_out_each ps d'

  unfoldable pub page_out_buffers_for_insertion : ℕ → Data A → Outcome (Bool × Data A)
  unfolding scan_buffers clean_up keep_hits page_out_each
  page_out_buffers_for_insertion size d = do
    scan ← A.scan_init d.mm size page_size 0 0 pool_size insert_best
    (found, scan', mm, evicted) ← scan_buffers A d.buffer (reverse d.mru_buffers) scan d.mm []
    if found
        then (do
          (hits, mm') ← keep_hits A scan' evicted mm
          d' ← page_out_each hits (record d { mm = mm' })
          ok (true, d'))
        else (do mm' ← clean_up A scan' evicted mm; ok (false, record d { mm = mm' }))

  -- The loop keeps the next entry before it removes one.
  unfoldable pub purge_each : List ℕ → Data A → Outcome (Data A)
  unfolding remove_buffer_from_pool
  purge_each [] d = ok d
  purge_each (p ∷ ps) d = do
    d' ← (if purgeable (d.buffer p) then remove_buffer_from_pool p d else ok d)
    purge_each ps d'

  unfoldable pub userspace_cache_purge : Data A → Outcome (Data A)
  unfolding purge_each
  userspace_cache_purge d = purge_each d.mru_buffers d

  -- The last resort of `page_in_buffer`.
  unfoldable pub evict_and_insert : ℕ → Data A → Outcome (Bool × Data A)
  unfolding page_out_buffers_for_insertion insert_buffer_in_cma_pool
  evict_and_insert p d = do
    (room, d₁) ← page_out_buffers_for_insertion (d.buffer p).size d
    (placed, d₂) ← (if room then insert_buffer_in_cma_pool p insert_evict d₁ else ok (false, d₁))
    ok (if placed then (true, d₂) else (false, report (no_insertion_point (d₂.buffer p).size) d₂))

  unfoldable pub page_in_buffer : ℕ → Data A → Outcome (Bool × Data A)
  unfolding evict_and_insert insert_buffer_in_cma_pool userspace_cache_purge
  page_in_buffer p d = do
    (placed, d₁) ← insert_buffer_in_cma_pool p insert_best d
    if placed then ok (true, d₁) else (do
      d₂ ← userspace_cache_purge d₁
      (placed', d₃) ← insert_buffer_in_cma_pool p insert_best d₂
      if placed' then ok (true, d₃) else evict_and_insert p d₃)
