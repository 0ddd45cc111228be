-- ===== src/Simulator/Serving.antt =====
-- test-drm-mm/main.c over test-drm-mm/drm_mm.c: the commands fail no assertion.
use cma_pool_log.Base.{
  ℕ, ◌<◌, ◌≤◌, ◌≡◌, refl, ap, ◌∙◌, inl, inr, Bool, true, false, not, ◌&&◌, Option, none, some, [],
  ◌∷◌, arith, ltb, leb, has, has-remove, has-remove_self, Outcome, Returns, bind-Returns,
  Bool-cases, Option-cases,
}
use cma_pool_log.Rbtree.{Balancing}
use cma_pool_log.Text.{Bytes, bytes, all_spaces, scan_size, same_bytes, first_word}
use cma_pool_log.Text.Bounds.{scan_size-lt}
use cma_pool_log.Mm.{cleared, head_node}
use cma_pool_log.Mm.Allocating.{Spare, written-Tidy}
use cma_pool_log.Pool.{Buffer, Data, report, put, pool_size}
use cma_pool_log.Pool.Buffers.{find_buffer, remove_buffer_from_pool, free_buffer, forgotten}
use cma_pool_log.Pool.PageIn.{page_in_buffer}
use cma_pool_log.Pool.Commands.{
  check_no_args, with_buffer, created, touch, buf_destroy, buf_add_usecnt, buf_remove_usecnt,
  buf_create, buf_use, buf_madv, madv_loop,
}
use cma_pool_log.Pool.Lines.{
  Command, destroy, add_usecnt, remove_usecnt, create, use_buffer, madv, perform,
}
use cma_pool_log.Pool.Invariant.{Inv, put-Inv, forgotten-Inv}
use cma_pool_log.Pool.Handlers.{find_buffer-some, find_or_error-none, find_or_error-some}
use cma_pool_log.Pool.Perform.{created-Waiting, moved-Performed}
use cma_pool_log.Simulator.{drm_mm}
use cma_pool_log.Simulator.Linked.{Linked, WithoutIt, remove_buffer-WithoutIt}
use cma_pool_log.Simulator.Room.{MadeRoom}
use cma_pool_log.Simulator.Running.{report-Linked, page_in_buffer-MadeRoom}

-- A size to create a buffer of must be neither 0 nor larger than the pool.
abbrev pub size_fits : Option (ℕ × Bytes) → Bool
size_fits none = true
size_fits (some (size, rest)) = ltb 0 size && leb size pool_size

abbrev pub args_fit : Command → Bytes → Bool
args_fit create args = size_fits (scan_size args)
args_fit _ args = true

module _ (rb : Balancing) where
  with_buffer-Linked :
      (name : ℕ) (args : Bytes) (handle : ℕ → Data (drm_mm rb) → Outcome (Data (drm_mm rb)))
      (d : Data (drm_mm rb))
      → Linked rb d
      → ((p : ℕ) → has p d.all_buffers ≡ true → Returns (Linked rb) (handle p d))
      → Returns (Linked rb) (with_buffer name args handle d)
  unfolding check_no_args
  with_buffer-Linked name (c ∷ s) handle d l found = report-Linked rb _ d l
  with_buffer-Linked name [] handle d l found = elim (Option-cases (find_buffer d name)) [
    | inl e ↦ rw (find_or_error-none d name e) (report-Linked rb _ d l)
    | inr (p, e) ↦ rw (find_or_error-some d name p e) (found p (find_buffer-some d name p e).0)
  ]

  put-Linked :
      (p : ℕ) (b : Buffer) (d : Data (drm_mm rb))
      → b.paged_in ≡ (d.buffer p).paged_in
      → b.size ≡ (d.buffer p).size
      → b.name ≡ (d.buffer p).name
      → Linked rb d
      → Linked rb (put p b d)
  put-Linked p b d same_paged same_size same_name l = record {
    inv = put-Inv p b d same_paged same_size same_name l.inv;
    tidy = l.tidy;
    placed = l.placed;
    blocks = λ q h. ground (arith, h, l.blocks q, same_size);
    pool_end = l.pool_end;
    some_pointer = l.some_pointer;
    not_null = l.not_null;
    sizes = λ q h. ground (arith, l.sizes q h, same_size);
  }

  forgotten-Linked :
      (p : ℕ) (d : Data (drm_mm rb))
      → has p d.all_buffers ≡ true
      → has p d.mru_buffers ≡ false
      → Linked rb d
      → Linked rb (forgotten p d)
  forgotten-Linked p d known absent l = record {
    inv = forgotten-Inv p d known absent l.inv;
    tidy = l.tidy;
    placed = l.placed;
    blocks = l.blocks;
    pool_end = l.pool_end;
    some_pointer = l.some_pointer;
    not_null = ground (arith, l.not_null, has-remove p head_node d.all_buffers l.inv.distinct_all);
    sizes = λ q h. ground (arith, h, l.sizes q, has-remove p q d.all_buffers l.inv.distinct_all);
  }

  pub free_buffer-Linked :
      (p : ℕ) (d : Data (drm_mm rb))
      → has p d.all_buffers ≡ true
      → Linked rb d
      → Returns (Linked rb) (free_buffer p d)
  unfolding free_buffer
  free_buffer-Linked p d known l = elim (Bool-cases (d.buffer p).paged_in) [
    | inl there ↦ rw there (
        bind-Returns (WithoutIt rb p d) (Linked rb) (remove_buffer_from_pool p d) _
          (remove_buffer-WithoutIt rb p d l (ground (arith, l.inv.in_pool p, known, there)))
          λ e (k, (mm, same)).
            forgotten-Linked p e (ground (arith, known, same))
              (ap (λ t. has p t.mru_buffers) same
                ∙ has-remove_self p d.mru_buffers l.inv.distinct_mru)
              k)
    | inr gone ↦ rw gone (forgotten-Linked p d known (ground (arith, l.inv.in_pool p, gone)) l)
  ]

  touch-Linked :
      (p : ℕ) (d : Data (drm_mm rb))
      → has p d.all_buffers ≡ true
      → Linked rb d
      → Returns (Linked rb) (touch p d)
  touch-Linked p d known l = elim (Bool-cases (d.buffer p).paged_in) [
    | inl there ↦ rw there (record {
      inv =
          (moved-Performed (d.buffer p).name p d refl
            (ground (arith, l.inv.in_pool p, known, there)) l.inv).inv;
      tidy = l.tidy;
      placed = λ q. ground (
        arith,
        l.placed q,
        l.placed p,
        l.inv.in_pool p,
        known,
        there,
        has-remove p q d.mru_buffers l.inv.distinct_mru,
      );
      blocks = λ q h. l.blocks q (
          ground (
            arith,
            h,
            l.inv.in_pool p,
            known,
            there,
            has-remove p q d.mru_buffers l.inv.distinct_mru,
          ));
      pool_end = l.pool_end;
      some_pointer = l.some_pointer;
      not_null = l.not_null;
      sizes = l.sizes;
    })
    | inr gone ↦ rw gone (
        bind-Returns (MadeRoom rb) (Linked rb) (page_in_buffer p d) _
          (page_in_buffer-MadeRoom rb p d l
            (record { inv = l.inv; known = known; absent = ground (arith, l.inv.in_pool p, gone) }))
          λ r k. k)
  ]

  pub created-Linked :
      (name size : ℕ) (unmoveable : Bool) (d : Data (drm_mm rb))
      → Inv (created name size unmoveable d)
      → 0 < size
      → size ≤ pool_size
      → Linked rb d
      → Linked rb (created name size unmoveable d)
  created-Linked name size unmoveable d v pos small l =
      let spare : Spare d.next_pointer d.mm = record {
        other = ground (arith, l.some_pointer);
        free = ground (
          arith,
          l.placed d.next_pointer,
          l.inv.in_pool d.next_pointer,
          l.inv.allocated d.next_pointer,
        );
      } in
      record {
        inv = v;
        tidy = written-Tidy d.next_pointer cleared d.mm spare (omega arith) refl refl refl l.tidy;
        placed = l.placed;
        blocks = λ q h. ground (arith, h, l.blocks q, l.inv.in_pool q, l.inv.allocated q);
        pool_end = ground (arith, l.pool_end, l.some_pointer);
        some_pointer = omega arith;
        not_null = ground (arith, l.not_null, l.some_pointer);
        sizes = λ q h. ground (arith, h, pos, small, l.sizes q, l.inv.allocated q);
      }

  buf_create-Linked :
      (name : ℕ) (args : Bytes) (d : Data (drm_mm rb))
      → size_fits (scan_size args) ≡ true
      → Linked rb d
      → Returns (Linked rb) (buf_create name args d)
  unfolding buf_create
  buf_create-Linked name args d fits l = elim (Option-cases (find_buffer d name)) [
    | inr (p, e) ↦ rw (e, buf_create) (report-Linked rb _ d l)
    | inl e ↦
        rw (e, buf_create)
          (elim (Option-cases (scan_size args)) [
            | inl bad ↦ rw bad (report-Linked rb _ d l)
            | inr ((size, rest), good) ↦
                let bounds : (0 < size) × (size ≤ pool_size) = ground (arith, rw good at fits) in
                let u = not (all_spaces rest) in
                let w = created-Waiting name size u d e (scan_size-lt args rest size good) l.inv in
                rw good (
                  bind-Returns (MadeRoom rb) (Linked rb)
                    (page_in_buffer d.next_pointer (created name size u d)) _
                    (page_in_buffer-MadeRoom rb d.next_pointer (created name size u d)
                      (created-Linked name size u d w.inv bounds.0 bounds.1 l) w)
                    λ r k. k)
          ])
  ]

  buf_madv-Linked :
      (name : ℕ) (args : Bytes) (d : Data (drm_mm rb))
      → Linked rb d
      → Returns (Linked rb) (buf_madv name args d)
  unfolding buf_madv madv_loop
  buf_madv-Linked name args d l = elim (Option-cases (find_buffer d name)) [
    | inl e ↦ rw (find_or_error-none d name e) (report-Linked rb _ d l)
    | inr (p, e) ↦
        rw (find_or_error-some d name p e)
          (elim (Bool-cases (same_bytes (bytes "willneed") (first_word args))) [
            | inl hit ↦ rw hit (put-Linked p _ d refl refl refl l)
            | inr miss ↦ rw miss l
          ])
  ]

  -- From linked data a command fails no assertion, and the data stays linked, if a size that it gives
  -- for a new buffer is neither 0 nor larger than the pool.
  pub perform-Linked :
      (c : Command) (name : ℕ) (args : Bytes) (d : Data (drm_mm rb))
      → args_fit c args ≡ true
      → Linked rb d
      → Returns (Linked rb) (perform c name args d)
  unfolding perform buf_destroy buf_add_usecnt buf_remove_usecnt buf_use
  perform-Linked destroy name args d fits l =
      with_buffer-Linked name args free_buffer d l λ p known. free_buffer-Linked p d known l
  perform-Linked add_usecnt name args d fits l = with_buffer-Linked name args _ d l λ p known.
      elim (Bool-cases (d.buffer p).in_use) [
        | inl used ↦ rw used (put-Linked p _ (report _ d) refl refl refl (report-Linked rb _ d l))
        | inr free ↦ rw free (put-Linked p _ d refl refl refl l)
      ]
  perform-Linked remove_usecnt name args d fits l = with_buffer-Linked name args _ d l λ p known.
      elim (Bool-cases (d.buffer p).in_use) [
        | inl used ↦ rw used (put-Linked p _ d refl refl refl l)
        | inr free ↦ rw free (put-Linked p _ (report _ d) refl refl refl (report-Linked rb _ d l))
      ]
  perform-Linked create name args d fits l = buf_create-Linked name args d fits l
  perform-Linked use_buffer name args d fits l =
      with_buffer-Linked name args touch d l λ p known. touch-Linked p d known l
  perform-Linked madv name args d fits l = buf_madv-Linked name args d l
