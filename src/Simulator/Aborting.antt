-- ===== src/Simulator/Aborting.antt =====
-- main.c over drm_mm.c: a buffer of a size that no pool could take ends the program.
use cma_pool_log.Base.{
  ℕ, ◌<◌, ◌≤◌, ◌≡◌, ◌⊎◌, refl, ap, inl, inr, true, false, not, none, some, arith, ◌==◌, ◌-◌,
  u64_max, ◌||◌, ltb, ok, abort, ◌>>=◌, Option-cases,
}
use cma_pool_log.Rbtree.{Balancing}
use cma_pool_log.Text.{Bytes, scan_size, all_spaces}
use cma_pool_log.Mm.{Mm, cleared, InsertMode, head_node, insert_best}
use cma_pool_log.Mm.Insert.{largest_hole, insert_node_generic, insert_node_in_range}
use cma_pool_log.Mm.Roster.{scan_init_with_range}
use cma_pool_log.Mm.Layout.{Tidy}
use cma_pool_log.Mm.Laid.{Tidy-Laid, gap_ends}
use cma_pool_log.Pool.{Data, pool_size, page_size}
use cma_pool_log.Pool.Buffers.{find_buffer, insert_buffer_in_cma_pool}
use cma_pool_log.Pool.PageIn.{
  page_in_buffer, page_out_buffers_for_insertion, userspace_cache_purge, evict_and_insert,
}
use cma_pool_log.Pool.Commands.{created, buf_create}
use cma_pool_log.Pool.Lines.{perform, create}
use cma_pool_log.Pool.Handlers.{AllNeeded}
use cma_pool_log.Pool.Session.{purge_each-needed}
use cma_pool_log.Simulator.{drm_mm}
use cma_pool_log.Simulator.Linked.{Linked}
use cma_pool_log.Mm.Allocating.{Spare, written-Tidy}

-- A size that cannot go into the pool.
abbrev pub BadSize : ℕ → Type 0
BadSize size = (size ≡ 0) ⊎ (pool_size < size)

-- No hole is larger than the pool.
largest_hole-le :
    (m : Mm) → Tidy m → (m.node head_node).start ≡ pool_size → largest_hole m ≤ pool_size
largest_hole-le m t top = elim (Option-cases (m.holes_size).leftmost) [
  | inl e ↦ rw e (omega arith)
  | inr (n, e) ↦ rw e (ground (arith, t.holes n, gap_ends m (Tidy-Laid m t) n, top))
]

module _ (rb : Balancing) where
  insert_node-refused :
      (m : Mm) (x size alignment color : ℕ) (mode : InsertMode)
      → Tidy m
      → (m.node head_node).start ≡ pool_size
      → BadSize size
      → insert_node_generic rb m x size alignment color mode ≡ ok (false, m)
  unfolding insert_node_generic insert_node_in_range
  insert_node-refused m x size alignment color mode t top bad =
      let out : ((size == 0) || ltb (u64_max - 0) size || ltb (largest_hole m) size) ≡ true =
        ground (arith, bad, largest_hole-le m t top) in
      rw out refl

  page_in_buffer-abort :
      (p : ℕ) (d : Data (drm_mm rb))
      → Tidy d.mm
      → ((d.mm).node head_node).start ≡ pool_size
      → AllNeeded d
      → BadSize (d.buffer p).size
      → page_in_buffer p d ≡ abort
  unfolding page_in_buffer insert_buffer_in_cma_pool userspace_cache_purge evict_and_insert
      page_out_buffers_for_insertion scan_init_with_range insert_node_generic
  page_in_buffer-abort p d t top needed bad =
      let refused =
        insert_node-refused d.mm p (d.buffer p).size page_size 0 insert_best t top bad in
      let out : not (((d.buffer p).size == 0) || ltb pool_size (d.buffer p).size) ≡ false =
        ground (arith, bad) in
      rw (refused, purge_each-needed d.mru_buffers d needed, refused, out) refl

  -- From linked data in which no buffer is marked as not needed: a command `create` with a new name, and
  -- with a size that is 0 or larger than the pool, ends the program in a failed assertion.
  pub create-abort :
      (name : ℕ) (args rest : Bytes) (size : ℕ) (d : Data (drm_mm rb))
      → Linked rb d
      → AllNeeded d
      → find_buffer d name ≡ none
      → scan_size args ≡ some (size, rest)
      → BadSize size
      → perform create name args d ≡ abort
  unfolding perform buf_create
  create-abort name args rest size d l needed fresh good bad =
      let u = not (all_spaces rest) in
      let spare : Spare d.next_pointer d.mm = record {
        other = ground (arith, l.some_pointer);
        free = ground (
          arith,
          l.placed d.next_pointer,
          l.inv.in_pool d.next_pointer,
          l.inv.allocated d.next_pointer,
        );
      } in
      rw (fresh, good, buf_create)
        (ap (λ o. o >>= λ r. ok r.1)
          (page_in_buffer-abort d.next_pointer (created name size u d)
            (written-Tidy d.next_pointer cleared d.mm spare (omega arith) refl refl refl l.tidy)
            (ground (arith, l.pool_end, l.some_pointer)) (λ q. ground (arith, needed q))
            (ground (arith, bad))))
