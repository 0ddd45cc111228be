-- ===== src/Simulator/Answering.antt =====
-- main.c over drm_mm.c: one insertion into the pool finds a place for a buffer just if there is one.
use cma_pool_log.Base.{
  ℕ, ◌≡◌, ◌∙◌, inl, inr, Bool, true, false, arith, if◌then◌else◌, u64_max, has, ok, Returns,
  bind-Returns,
}
use cma_pool_log.Rbtree.{Balancing}
use cma_pool_log.Mm.{Mm, Search}
use cma_pool_log.Mm.Insert.{insert_node_generic}
use cma_pool_log.Mm.Allocating.{Spare}
use cma_pool_log.Mm.Contract.{Space, space, Free, Asked, Allocates, gives, refuses}
use cma_pool_log.Mm.Refining.{Refines, insert_node_in_range-Refines}
use cma_pool_log.Pool.{Data, page_size}
use cma_pool_log.Pool.Buffers.{insert_buffer_in_cma_pool, paged}
use cma_pool_log.Pool.PageIn.{evictable}
use cma_pool_log.Simulator.{drm_mm}
use cma_pool_log.Simulator.Linked.{Linked}
use cma_pool_log.Simulator.Vacating.{Spares, Stays}
use cma_pool_log.Simulator.Emptying.{Full, stay}

-- A place for a buffer of the size.
abbrev pub Place : Space → ℕ → Type 0
Place s size = (a : ℕ) × Asked size page_size 0 u64_max a × Free s a size

module _ (rb : Balancing) where
  -- What is free where only some blocks that may go are gone is free where all of them are, and what
  -- is free there is still free there.
  pub Spares-Free :
      (d : Data (drm_mm rb)) (t : Space) (a size : ℕ)
      → Spares (λ n. evictable (d.buffer n)) (space d.mm) t
      → Free t a size
      → Free (stay rb d) a size
  Spares-Free d t a size s f = record {
    from = ground (arith, f.from, s.bottom);
    to = ground (arith, f.to, s.top);
    apart = λ n b z e. elim (s.block n) [
      | inl h ↦ f.apart n b z (ground (arith, e, h))
      | inr h ↦ ground (arith, e, h)
    ];
  }

  Stays-Free :
      (d e : Data (drm_mm rb)) (a size : ℕ)
      → Stays rb d e
      → Free (stay rb d) a size
      → Free (stay rb e) a size
  Stays-Free d e a size s f = record {
    from = ground (arith, f.from, s.spares.bottom);
    to = ground (arith, f.to, s.spares.top);
    apart = λ n b z g. elim (s.spares.block n) [
      | inl h ↦ f.apart n b z (ground (arith, g, h, s.buffer n))
      | inr h ↦ ground (arith, g, h, s.buffer n)
    ];
  }

  -- The answer to the question whether a buffer of the size finds a place beside those that must stay.
  abbrev pub Decides : ℕ → Data (drm_mm rb) → Bool × Data (drm_mm rb) → Type 0
  Decides size d (true, e) = Place (stay rb d) size
  Decides size d (false, e) = Full (stay rb d) size

  -- The answer of one insertion, about the pool as it is.
  abbrev pub Answered : ℕ → Data (drm_mm rb) → Bool × Data (drm_mm rb) → Type 0
  Answered size d (true, e) = Place (space d.mm) size
  Answered size d (false, e) = Full (space d.mm) size

  pub insert_buffer-Answered :
      (p : ℕ) (mode : Search) (d : Data (drm_mm rb))
      → Linked rb d
      → has p d.all_buffers ≡ true
      → has p d.mru_buffers ≡ false
      → Returns
          (Answered (d.buffer p).size d)
          (insert_buffer_in_cma_pool p (record { search = mode; once = false }) d)
  unfolding insert_buffer_in_cma_pool insert_node_generic
  insert_buffer-Answered p mode d l known absent =
      let spare : Spare p d.mm = record {
        other = ground (arith, l.not_null, known);
        free = l.placed p ∙ absent;
      } in
      bind-Returns (Refines rb p (d.buffer p).size page_size 0 u64_max d.mm)
        (Answered (d.buffer p).size d)
        (insert_node_generic rb d.mm p (d.buffer p).size page_size 0
          (record { search = mode; once = false }))
        _
        (insert_node_in_range-Refines rb d.mm p (d.buffer p).size page_size 0 0 u64_max mode l.tidy
          spare (l.sizes p known).0 (omega arith) (omega arith) (omega arith))
        go
    where
      answer :
          (b : Bool) (w : Mm) (t : Space)
          → Allocates p (d.buffer p).size page_size 0 u64_max (space d.mm) b t
          → Returns (Answered (d.buffer p).size d) (
              ok
                (if b then (true, paged p (record d { mm = w })) else (false, record d { mm = w })))
      answer true w t (gives a f q) = (a, q, f)
      answer false w t (refuses none_free) = none_free

      go :
          (r : Bool × Mm)
          → Refines rb p (d.buffer p).size page_size 0 u64_max d.mm r
          → Returns (Answered (d.buffer p).size d) (
              ok (
                if r.0
                then (true, paged p (record d { mm = r.1 }))
                else (false, record d { mm = r.1 })))
      go (b, w) (t, s) = answer b w (space w) s

  Free-Stays :
      (d e : Data (drm_mm rb)) (a size : ℕ)
      → Stays rb d e
      → Free (stay rb e) a size
      → Free (stay rb d) a size
  Free-Stays d e a size s f = record {
    from = ground (arith, f.from, s.spares.bottom);
    to = ground (arith, f.to, s.spares.top);
    apart = λ n b z g. elim (s.spares.block n) [
      | inl h ↦ f.apart n b z (ground (arith, g, h, s.buffer n))
      | inr h ↦ ground (arith, g, h)
    ];
  }

  pub Decides-Stays :
      (size : ℕ) (d e : Data (drm_mm rb)) (r : Bool × Data (drm_mm rb))
      → Stays rb d e
      → Decides size e r
      → Decides size d r
  Decides-Stays size d e (true, f) s (a, q, g) = (a, q, Free-Stays d e a size s g)
  Decides-Stays size d e (false, f) s full = λ a q g. full a q (Stays-Free d e a size s g)
