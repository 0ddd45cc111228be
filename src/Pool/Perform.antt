-- ===== src/Pool/Perform.antt =====
-- test-drm-mm/main.c: what each command does to the buffers of other names.
use cma_pool_log.Base.{
  ℕ, ◌<◌, ◌≡◌, refl, ◌⊎◌, inl, inr, Bool, true, false, not, none, ◌∷◌, arith, u64_mod, has, remove,
  Ensures, bind-Ensures, Ensures-mono, Bool-cases, Option-cases, has-remove_self, remove-Distinct,
  has-remove,
}
use cma_pool_log.Text.{Bytes, bytes, same_bytes, scan_size, all_spaces, first_word}
use cma_pool_log.Text.Bounds.{scan_size-lt}
use cma_pool_log.Pool.{
  Allocator, calloced, willneed, Data, already_in_use, not_in_use, Message, report, put,
}
use cma_pool_log.Pool.Buffers.{find_buffer, free_buffer}
use cma_pool_log.Pool.PageIn.{page_in_buffer}
use cma_pool_log.Pool.Commands.{
  created, touch, buf_destroy, buf_add_usecnt, buf_remove_usecnt, buf_create, buf_use, madv_loop,
  buf_madv,
}
use cma_pool_log.Pool.Lines.{
  Command, destroy, add_usecnt, remove_usecnt, create, use_buffer, madv, perform,
}
use cma_pool_log.Pool.Invariant.{Inv, outside_absent}
use cma_pool_log.Pool.Entering.{Waiting, Entered, page_in_buffer-Entered}
use cma_pool_log.Pool.Handlers.{
  find_in-none, find_or_error-none, find_or_error-some, find_buffer-some, with_buffer-Ensures,
  Performed, Performed-refl, report-Performed, put-Performed, Freed, free_buffer-Freed,
}

module _ {A : Allocator} where
  pub created-Waiting :
      (name size : ℕ) (unmoveable : Bool) (d : Data A)
      → find_buffer d name ≡ none
      → size < u64_mod
      → Inv d
      → Waiting d.next_pointer (created name size unmoveable d)
  unfolding find_buffer
  created-Waiting name size unmoveable d free small v = record {
    inv = record {
      distinct_all = (ground (arith, v.allocated d.next_pointer), v.distinct_all);
      distinct_mru = v.distinct_mru;
      allocated = λ q h. ground (arith, v.allocated q);
      in_pool = λ q. ground (arith, v.in_pool q, v.allocated q);
      named = λ q r f g same. ground (
        arith,
        v.named q r,
        find_in-none d.buffer name q d.all_buffers,
        find_in-none d.buffer name r d.all_buffers,
      );
      sized = λ q. ground (arith, v.sized q);
      accounted = ground (
        arith,
        v.accounted,
        v.allocated d.next_pointer,
        outside_absent d.buffer d.next_pointer
            (record calloced { name = name; size = size; madv = willneed; unmoveable = unmoveable })
            d.all_buffers,
      );
    };
    known = ground arith;
    absent = ground (arith, v.in_pool d.next_pointer, v.allocated d.next_pointer);
  }

  Entered-Performed :
      (name p : ℕ) (d : Data A) (r : Bool × Data A)
      → (d.buffer p).name ≡ name
      → Entered p d r
      → Performed name d r.1
  Entered-Performed name p d r own e = record {
    inv = e.inv;
    line_num = e.line_num;
    output = e.output;
    kept = λ q h n. ground (arith, e.all_buffers);
    buffers = λ q h n. e.buffers q;
    held = λ q h n f. e.protected q (λ same. n (ground arith)) f;
    advice = λ all q. ground (arith, e.buffers q, all q);
  }

  created-Performed :
      (name size : ℕ) (unmoveable : Bool) (d : Data A) (r : Bool × Data A)
      → Inv d
      → Entered d.next_pointer (created name size unmoveable d) r
      → Performed name d r.1
  created-Performed name size unmoveable d r v e = record {
    inv = e.inv;
    line_num = e.line_num;
    output = e.output;
    kept = λ q h n. ground (arith, e.all_buffers);
    buffers = λ q h n. ground (arith, e.buffers q, v.allocated q);
    held = λ q h n f. ground (arith, v.allocated q, e.protected q);
    advice = λ all q. ground (arith, e.buffers q, all q);
  }

  pub moved-Performed :
      (name p : ℕ) (d : Data A)
      → (d.buffer p).name ≡ name
      → has p d.mru_buffers ≡ true
      → Inv d
      → Performed name d (record d { mru_buffers = p ∷ remove p d.mru_buffers })
  moved-Performed name p d own there v = record {
    inv = record {
      distinct_all = v.distinct_all;
      distinct_mru = (
        has-remove_self p d.mru_buffers v.distinct_mru,
        remove-Distinct p d.mru_buffers v.distinct_mru,
      );
      allocated = v.allocated;
      in_pool = λ q.
          ground (arith, v.in_pool q, v.in_pool p, has-remove p q d.mru_buffers v.distinct_mru);
      named = v.named;
      sized = v.sized;
      accounted = v.accounted;
    };
    line_num = refl;
    output = refl;
    kept = λ q h n. h;
    buffers = λ q h n. (refl, refl, refl, refl, refl);
    held = λ q h n f. ground (arith, has-remove p q d.mru_buffers v.distinct_mru);
    advice = λ all q. all q;
  }

  touch-Performed :
      (name p : ℕ) (d : Data A)
      → has p d.all_buffers ≡ true
      → (d.buffer p).name ≡ name
      → Inv d
      → Ensures (Performed name d) (touch p d)
  touch-Performed name p d h own v = elim (Bool-cases (d.buffer p).paged_in) [
    | inl there ↦ rw there (moved-Performed name p d own (ground (arith, v.in_pool p)) v)
    | inr gone ↦ rw gone (
        bind-Ensures (Entered p d) (Performed name d) (page_in_buffer p d) _
          (page_in_buffer-Entered p d
            (record { inv = v; known = h; absent = ground (arith, v.in_pool p) }))
          λ r e. Entered-Performed name p d r own e)
  ]

  buf_create-Performed :
      (name : ℕ) (args : Bytes) (d : Data A)
      → Inv d
      → Ensures (Performed name d) (buf_create name args d)
  unfolding buf_create
  buf_create-Performed name args d v = elim (Option-cases (find_buffer d name)) [
    | inr (p, e) ↦ rw (e, buf_create) (report-Performed name _ d v)
    | inl e ↦
        rw (e, buf_create)
          (elim (Option-cases (scan_size args)) [
            | inl bad ↦ rw bad (report-Performed name _ d v)
            | inr ((size, rest), good) ↦
                let u = not (all_spaces rest) in
                rw good (
                  bind-Ensures (Entered d.next_pointer (created name size u d)) (Performed name d)
                    (page_in_buffer d.next_pointer (created name size u d)) _
                    (page_in_buffer-Entered d.next_pointer (created name size u d)
                      (created-Waiting name size u d e (scan_size-lt args rest size good) v))
                    λ r s. created-Performed name size u d r v s)
          ])
  ]

  -- The one entry of `madv_map` that the loop comes to says `willneed`.
  buf_madv-Performed :
      (name : ℕ) (args : Bytes) (d : Data A)
      → Inv d
      → Ensures (Performed name d) (buf_madv name args d)
  unfolding buf_madv madv_loop
  buf_madv-Performed name args d v = elim (Option-cases (find_buffer d name)) [
    | inl e ↦ rw (find_or_error-none d name e) (report-Performed name _ d v)
    | inr (p, e) ↦
        rw (find_or_error-some d name p e)
          (elim (Bool-cases (same_bytes (bytes "willneed") (first_word args))) [
            | inl hit ↦ rw hit (
                put-Performed name p _ d d (find_buffer-some d name p e).1 refl refl refl (inl refl)
                  (inl refl) v)
            | inr miss ↦ rw miss (Performed-refl name d v)
          ])
  ]

  usecnt-Performed :
      (name p : ℕ) (used : Bool) (d e : Data A)
      → (d.buffer p).name ≡ name
      → (e ≡ d) ⊎ ((m : Message) × (e ≡ report m d))
      → Inv d
      → Performed name d (put p (record (d.buffer p) { in_use = used }) e)
  usecnt-Performed name p used d e own (inl same) v =
      put-Performed name p _ d e own (rw same) (rw same) (rw same) (inr (rw same)) (inl same) v
  usecnt-Performed name p used d e own (inr (m, same)) v =
      put-Performed name p _ d e own (rw same) (rw same) (rw same) (inr (rw same)) (inr (m, same)) v

  -- Every command that no assertion cuts off keeps the invariant, and leaves the buffers of other
  -- names as they are, those in use or unmoveable also where they are.
  pub perform-Performed :
      (c : Command) (name : ℕ) (args : Bytes) (d : Data A)
      → Inv d
      → Ensures (Performed name d) (perform c name args d)
  unfolding perform buf_destroy buf_add_usecnt buf_remove_usecnt buf_use
  perform-Performed destroy name args d v =
      with_buffer-Ensures (Performed name d) name args free_buffer d (report-Performed name _ d v)
        (λ e. report-Performed name _ d v)
        λ p h own.
          Ensures-mono (Freed p d) (Performed name d) (free_buffer p d) (free_buffer-Freed p d h v)
            λ e f. rw own at f.0
  perform-Performed add_usecnt name args d v =
      with_buffer-Ensures (Performed name d) name args _ d (report-Performed name _ d v)
        (λ e. report-Performed name _ d v)
        λ p h own. elim (Bool-cases (d.buffer p).in_use) [
          | inl used ↦
              rw used (
                usecnt-Performed name p true d _ own (inr (already_in_use d.line_num name, refl)) v)
          | inr free ↦ rw free (usecnt-Performed name p true d d own (inl refl) v)
        ]
  perform-Performed remove_usecnt name args d v =
      with_buffer-Ensures (Performed name d) name args _ d (report-Performed name _ d v)
        (λ e. report-Performed name _ d v)
        λ p h own. elim (Bool-cases (d.buffer p).in_use) [
          | inl used ↦ rw used (usecnt-Performed name p false d d own (inl refl) v)
          | inr free ↦
              rw free
                (usecnt-Performed name p false d _ own (inr (not_in_use d.line_num name, refl)) v)
        ]
  perform-Performed create name args d v = buf_create-Performed name args d v
  perform-Performed use_buffer name args d v =
      with_buffer-Ensures (Performed name d) name args touch d (report-Performed name _ d v)
        (λ e. report-Performed name _ d v) λ p h own. touch-Performed name p d h own v
  perform-Performed madv name args d v = buf_madv-Performed name args d v
