-- ===== src/Simulator/Arranged.antt =====
-- test-drm-mm: where the buffers lie in the pool while a log is played.
use cma_pool_log.Base.{
  ℕ, ◌+◌, ◌%◌, ◌≤◌, ◌≡◌, ◌⊎◌, ◌∙◌, true, false, List, arith, ◌==◌, has, ◌>>=◌, Returns,
  Returns-mono, bind-Returns,
}
use cma_pool_log.Rbtree.{Balancing}
use cma_pool_log.Text.{Bytes}
use cma_pool_log.Mm.Holes.{init}
use cma_pool_log.Mm.Starting.{Started, init-Tidy}
use cma_pool_log.Mm.Apart.{blocks-Disjoint, block_ends}
use cma_pool_log.Pool.{Data, pool_size, page_size}
use cma_pool_log.Pool.Lines.{process_lines, initial}
use cma_pool_log.Simulator.{drm_mm}
use cma_pool_log.Simulator.Linked.{Linked}
use cma_pool_log.Simulator.Whole.{lines_fit, initial-Linked, process_lines-Linked}

module _ (rb : Balancing) where
  -- The offset that `dump_data` prints for the buffer.
  abbrev pub offset : Data (drm_mm rb) → ℕ → ℕ
  offset d p = (drm_mm rb).start_of d.mm p

  -- The buffers in the pool lie within it, at the beginning of pages, and do not overlap.
  pub record Arranged (d : Data (drm_mm rb)) : Type 0 where
    pub inside : (p : ℕ) → has p d.mru_buffers ≡ true → offset d p + (d.buffer p).size ≤ pool_size
    pub aligned : (p : ℕ) → has p d.mru_buffers ≡ true → offset d p % page_size ≡ 0
    pub apart :
        (p q : ℕ)
        → has p d.mru_buffers ≡ true
        → has q d.mru_buffers ≡ true
        → (p == q) ≡ false
        → (offset d p + (d.buffer p).size ≤ offset d q)
          ⊎ (offset d q + (d.buffer q).size ≤ offset d p)

  pub Linked-Arranged : (d : Data (drm_mm rb)) → Linked rb d → Arranged d
  Linked-Arranged d l = record {
    inside =
        λ p h. ground (arith, h, l.blocks p, l.pool_end, block_ends d.mm l.tidy p (l.placed p ∙ h));
    aligned = λ p h. (l.blocks p h).1;
    apart = λ p q h g n. ground (
      arith,
      h,
      g,
      l.blocks p,
      l.blocks q,
      blocks-Disjoint d.mm l.tidy p q (l.placed p ∙ h) (l.placed q ∙ g) n,
    );
  }

  -- After any lines that give no size for a new buffer but one that is neither 0 nor larger than the
  -- pool, the program goes on, and the buffers in the pool lie within it, at the beginning of pages,
  -- and do not overlap.
  pub process_lines-Arranged :
      (lines : List Bytes)
      → lines_fit lines ≡ true
      → Returns Arranged
          (init rb 0 pool_size >>= λ mm. process_lines lines (initial {A = drm_mm rb} mm))
  process_lines-Arranged lines fits =
      bind-Returns (Started rb pool_size) Arranged (init rb 0 pool_size)
        (λ mm. process_lines lines (initial {A = drm_mm rb} mm))
        (init-Tidy rb 0 pool_size (omega arith) (omega arith))
        λ mm (t, none_yet, ends).
          Returns-mono (Linked rb) Arranged (process_lines lines (initial {A = drm_mm rb} mm))
            (process_lines-Linked rb lines (initial {A = drm_mm rb} mm) fits
              (initial-Linked rb mm t none_yet ends))
            Linked-Arranged
