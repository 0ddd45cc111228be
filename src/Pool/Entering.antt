-- ===== src/Pool/Entering.antt =====
-- test-drm-mm/main.c: `page_in_buffer`, whatever the allocator answers.
use cma_pool_log.Base.{
  ℕ, ◌≡◌, ◌≢◌, refl, Bool, true, false, some, [], ◌∷◌, ◌++◌, arith, if◌then◌else◌, has, head?,
  Outcome, ok, ◌>>=◌, Ensures, bind-Ensures, any-Ensures,
}
use cma_pool_log.Mm.{InsertMode, insert_best, insert_evict}
use cma_pool_log.Pool.{Allocator, Data, no_insertion_point, report, page_size}
use cma_pool_log.Pool.Buffers.{paged, insert_buffer_in_cma_pool}
use cma_pool_log.Pool.PageIn.{
  userspace_cache_purge, page_out_buffers_for_insertion, evict_and_insert, page_in_buffer,
}
use cma_pool_log.Pool.Invariant.{Inv, IsHeld, paged-Inv, report-Inv}
use cma_pool_log.Pool.Eviction.{
  SameBuffer, Evicted, Evicted-refl, Evicted-trans, record-mm-Evicted,
  userspace_cache_purge-Evicted,
}
use cma_pool_log.Pool.Picking.{AfterEviction, page_out_buffers-Evicted}

module _ {A : Allocator} where
  -- The buffer is there, and not in the pool.
  pub record Waiting (p : ℕ) (d : Data A) : Type 0 where
    pub inv : Inv d
    pub known : has p d.all_buffers ≡ true
    pub absent : has p d.mru_buffers ≡ false

  -- From `d` to the result of `page_in_buffer` for the buffer `p`.
  pub record Entered (p : ℕ) (d : Data A) (r : Bool × Data A) : Type 0 where
    pub inv : Inv r.1
    pub all_buffers : r.1.all_buffers ≡ d.all_buffers
    pub next_pointer : r.1.next_pointer ≡ d.next_pointer
    pub line_num : r.1.line_num ≡ d.line_num
    pub output : r.1.output ≡ d.output
    pub buffers : (q : ℕ) → SameBuffer (d.buffer q) (r.1.buffer q)
    pub newest : r.0 ≡ true → head? r.1.mru_buffers ≡ some p
    pub refused : r.0 ≡ false → has p r.1.mru_buffers ≡ false
    pub errors :
        r.1.errors
        ≡ (if r.0 then d.errors else d.errors ++ no_insertion_point (d.buffer p).size ∷ [])
    pub protected :
        (q : ℕ) → q ≢ p → IsHeld (d.buffer q) → has q r.1.mru_buffers ≡ has q d.mru_buffers

  -- What `insert_buffer_in_cma_pool` writes, whatever the allocator did.
  abbrev Inserted : ℕ → Data A → Bool × Data A → Type 0
  Inserted p d r =
      (mm : A.State) × (r.1
        ≡ (if r.0 then paged p (record d { mm = mm }) else record d { mm = mm }))

  insert-Inserted :
      (p : ℕ) (mode : InsertMode) (d : Data A)
      → Ensures (Inserted p d) (insert_buffer_in_cma_pool p mode d)
  unfolding insert_buffer_in_cma_pool
  insert-Inserted p mode d =
      any-Ensures (Inserted p d) (A.insert d.mm p (d.buffer p).size page_size 0 mode) _
        λ (placed, mm).
          elim placed
            as (λ b. Ensures (Inserted p d) (
              ok (
                if b
                then (true, paged p (record d { mm = mm }))
                else (false, record d { mm = mm })))) [ true ↦ (mm, refl) | false ↦ (mm, refl) ]

  pub Waiting-Evicted : (p : ℕ) (d e : Data A) → Waiting p d → Evicted d e → Waiting p e
  Waiting-Evicted p d e w s = record {
    inv = s.inv;
    known = ground (arith, w.known, s.all_buffers);
    absent = ground (arith, w.absent, s.shrinks p);
  }

  Inserted-false : (p : ℕ) (d e : Data A) → Inv d → Inserted p d (false, e) → Evicted d e
  Inserted-false p d e v (mm, same) = rw same (record-mm-Evicted d mm v)

  Inserted-true :
      (p : ℕ) (d e f : Data A)
      → Waiting p d
      → Evicted d e
      → Inserted p e (true, f)
      → Entered p d (true, f)
  Inserted-true p d e f w s (mm, same) =
      let w' = Waiting-Evicted p d e w s in
      rw same (record {
        inv =
            paged-Inv p (record e { mm = mm }) w'.known w'.absent
              ((record-mm-Evicted e mm s.inv).inv);
        all_buffers = s.all_buffers;
        next_pointer = s.next_pointer;
        line_num = s.line_num;
        output = s.output;
        buffers = λ q. ground (arith, s.buffers q, s.buffers p);
        newest = λ h. refl;
        refused = λ h. cc;
        errors = s.errors;
        protected = λ q n h. ground (arith, s.protected q h);
      })

  refused-Entered :
      (p : ℕ) (d e : Data A)
      → Waiting p d
      → Evicted d e
      → Entered p d (false, report (no_insertion_point (e.buffer p).size) e)
  refused-Entered p d e w s =
      let w' = Waiting-Evicted p d e w s in
      record {
        inv = report-Inv (no_insertion_point (e.buffer p).size) e s.inv;
        all_buffers = s.all_buffers;
        next_pointer = s.next_pointer;
        line_num = s.line_num;
        output = s.output;
        buffers = s.buffers;
        newest = λ h. cc;
        refused = λ h. w'.absent;
        errors = ground (arith, s.errors, s.buffers p);
        protected = λ q n h. s.protected q h;
      }

  -- An attempt to insert, after some buffers may have left: it succeeds, or the next step follows.
  attempt :
      {B : Type 0} (Q : B → Type 0) (p : ℕ) (mode : InsertMode) (d e : Data A)
      (next : Bool × Data A → Outcome B)
      → Waiting p d
      → Evicted d e
      → ((f : Data A) → Entered p d (true, f) → Ensures Q (next (true, f)))
      → ((f : Data A) → Evicted d f → Ensures Q (next (false, f)))
      → Ensures Q (insert_buffer_in_cma_pool p mode e >>= next)
  attempt Q p mode d e next w s placed missed =
      bind-Ensures (Inserted p e) Q (insert_buffer_in_cma_pool p mode e) next
        (insert-Inserted p mode e) (cases next placed missed)
    where
      cases :
          (next : Bool × Data A → Outcome _)
          → ((f : Data A) → Entered p d (true, f) → Ensures Q (next (true, f)))
          → ((f : Data A) → Evicted d f → Ensures Q (next (false, f)))
          → (r : Bool × Data A) → Inserted p e r
          → Ensures Q (next r)
      cases next placed missed (true, f) i = placed f (Inserted-true p d e f w s i)
      cases next placed missed (false, f) i =
          missed f (Evicted-trans d e f s (Inserted-false p e f s.inv i))

  evict_and_insert-Entered :
      (p : ℕ) (d e : Data A)
      → Waiting p d
      → Evicted d e
      → Ensures (Entered p d) (evict_and_insert p e)
  unfolding evict_and_insert
  evict_and_insert-Entered p d e w s =
      bind-Ensures (AfterEviction e) (Entered p d)
        (page_out_buffers_for_insertion (e.buffer p).size e) _
        (page_out_buffers-Evicted (e.buffer p).size e s.inv)
        λ (room, f) t.
          elim room
            as (λ b. Ensures (Entered p d) (do
              (placed, g) ←
                  (if b then insert_buffer_in_cma_pool p insert_evict f else ok (false, f))
              ok (
                  if placed
                  then (true, g)
                  else (false, report (no_insertion_point (g.buffer p).size) g)))) [
                    | true ↦
                        attempt (Entered p d) p insert_evict d f _ w (Evicted-trans d e f s t)
                          (λ g h. h) λ g u. refused-Entered p d g w u
                    | false ↦ refused-Entered p d f w (Evicted-trans d e f s t)
                  ]

  -- Paging a buffer in that is not in the pool, where no assertion cuts it off, keeps the invariant.
  -- It makes the buffer the most recently used one, or fails with one message; and whatever it has to
  -- page out on the way, every other buffer that is in use or unmoveable stays in the pool.
  pub page_in_buffer-Entered :
      (p : ℕ) (d : Data A) → Waiting p d → Ensures (Entered p d) (page_in_buffer p d)
  unfolding page_in_buffer
  page_in_buffer-Entered p d w =
      attempt (Entered p d) p insert_best d d _ w (Evicted-refl d w.inv) (λ e h. h)
        λ e s.
          bind-Ensures (Evicted e) (Entered p d) (userspace_cache_purge e) _
            (userspace_cache_purge-Evicted e s.inv)
            λ f t.
              attempt (Entered p d) p insert_best d f _ w (Evicted-trans d e f s t) (λ g h. h)
                λ g u. evict_and_insert-Entered p d g w u
