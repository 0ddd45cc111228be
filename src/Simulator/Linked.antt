-- ===== src/Simulator/Linked.antt =====
-- test-drm-mm/main.c over test-drm-mm/drm_mm.c: the pool's lists and the allocator's agree.
use cma_pool_log.Base.{
  ℕ, ◌%◌, ◌==◌, Bool-cases, inl, inr, ◌<◌, ◌≤◌, ◌≡◌, refl, ap, ◌∙◌, Bool, true, false, arith,
  u64_max, has, has-remove, if◌then◌else◌, ok, Returns, bind-Returns,
}
use cma_pool_log.Rbtree.{Balancing}
use cma_pool_log.Mm.{Mm, InsertMode, head_node}
use cma_pool_log.Mm.Insert.{insert_node_generic}
use cma_pool_log.Mm.Remove.{remove_node}
use cma_pool_log.Mm.Layout.{Tidy}
use cma_pool_log.Mm.Allocating.{Spare, Inserted, insert_node_in_range-Inserted}
use cma_pool_log.Mm.Removing as removing
use cma_pool_log.Pool.{Data, pool_size, page_size}
use cma_pool_log.Pool.Buffers.{insert_buffer_in_cma_pool, remove_buffer_from_pool, paged, paged_out}
use cma_pool_log.Pool.Invariant.{Inv, paged-Inv, paged_out-Inv}
use cma_pool_log.Pool.Eviction.{record-mm-Inv}
use cma_pool_log.Simulator.{drm_mm}

module _ (rb : Balancing) where
  -- The allocator is in order and its range ends where the pool does; its blocks are just the buffers
  -- in the pool, as large as those and at the beginning of pages; and every buffer could go into an
  -- empty pool.
  pub record Linked (d : Data (drm_mm rb)) : Type 0 where
    pub inv : Inv d
    pub tidy : Tidy d.mm
    pub placed : (p : ℕ) → has p (d.mm).node_list ≡ has p d.mru_buffers
    pub blocks :
        (p : ℕ)
        → has p d.mru_buffers ≡ true
        → (((d.mm).node p).size ≡ (d.buffer p).size) × (((d.mm).node p).start % page_size ≡ 0)
    pub pool_end : ((d.mm).node head_node).start ≡ pool_size
    pub some_pointer : 0 < d.next_pointer
    pub not_null : has head_node d.all_buffers ≡ false
    pub sizes :
        (p : ℕ)
        → has p d.all_buffers ≡ true
        → (0 < (d.buffer p).size) × ((d.buffer p).size ≤ pool_size)

  -- The two outcomes of an insertion.
  abbrev pub Tried : ℕ → Data (drm_mm rb) → Bool × Data (drm_mm rb) → Type 0
  Tried p d (true, e) = Linked e
  Tried p d (false, e) = e ≡ d

  pub insert_buffer-Tried :
      (p : ℕ) (mode : InsertMode) (d : Data (drm_mm rb))
      → Linked d
      → has p d.all_buffers ≡ true
      → has p d.mru_buffers ≡ false
      → Returns (Tried p d) (insert_buffer_in_cma_pool p mode d)
  unfolding insert_buffer_in_cma_pool insert_node_generic
  insert_buffer-Tried p mode d l known absent =
      let spare : Spare p d.mm = record {
        other = ground (arith, l.not_null, known);
        free = l.placed p ∙ absent;
      } in
      bind-Returns (Inserted p (d.buffer p).size page_size 0 u64_max d.mm) (Tried p d)
        (insert_node_generic rb d.mm p (d.buffer p).size page_size 0 mode) _
        (insert_node_in_range-Inserted rb d.mm p (d.buffer p).size page_size 0 0 u64_max mode l.tidy
          spare (omega arith) (omega arith) (omega arith))
        go
    where
      go :
          (r : Bool × Mm)
          → Inserted p (d.buffer p).size page_size 0 u64_max d.mm r
          → Returns (Tried p d) (
              ok (
                if r.0
                then (true, paged p (record d { mm = r.1 }))
                else (false, record d { mm = r.1 })))
      go (false, mm) same = ap (λ t. record d { mm = t }) same
      go (true, mm) g = record {
        inv = paged-Inv p (record d { mm = mm }) known absent (record-mm-Inv d mm l.inv);
        tidy = g.tidy;
        placed = λ q. ground (arith, g.listed q, l.placed q);
        blocks = λ q h. elim (Bool-cases (q == p)) [
          | inl e ↦ ground (arith, e, g.sized, g.aligned (omega arith))
          | inr e ↦ ground (arith, e, h, g.others q e, l.blocks q)
        ];
        pool_end = (g.others head_node (ground (arith, l.not_null, known))).0 ∙ l.pool_end;
        some_pointer = l.some_pointer;
        not_null = l.not_null;
        sizes = λ q h. ground (arith, l.sizes q h);
      }

  abbrev pub WithoutIt : ℕ → Data (drm_mm rb) → Data (drm_mm rb) → Type 0
  WithoutIt p d e = Linked e × ((mm : Mm) × (e ≡ paged_out p (record d { mm = mm })))

  pub remove_buffer-WithoutIt :
      (p : ℕ) (d : Data (drm_mm rb))
      → Linked d
      → has p d.mru_buffers ≡ true
      → Returns (WithoutIt p d) (remove_buffer_from_pool p d)
  unfolding remove_buffer_from_pool
  remove_buffer-WithoutIt p d l there =
      bind-Returns (removing.Removed rb p d.mm) (WithoutIt p d) (remove_node rb p d.mm) _
        (removing.remove_node-Removed rb p d.mm l.tidy (l.placed p ∙ there))
        λ mm r. (
          record {
            inv = paged_out-Inv p (record d { mm = mm }) there (record-mm-Inv d mm l.inv);
            tidy = r.tidy;
            placed = λ q.
                ap (has q) r.node_list
                ∙ has-remove p q (d.mm).node_list (l.tidy.distinct.1)
                ∙ ground (arith, l.placed q, has-remove p q d.mru_buffers l.inv.distinct_mru);
            blocks = λ q h.
                ground (
                  arith,
                  h,
                  r.places q,
                  l.blocks q,
                  has-remove p q d.mru_buffers l.inv.distinct_mru,
                );
            pool_end = (r.places head_node).0 ∙ l.pool_end;
            some_pointer = l.some_pointer;
            not_null = l.not_null;
            sizes = λ q h. ground (arith, l.sizes q h);
          },
          (mm, refl),
        )
