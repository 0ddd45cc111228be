-- ===== src/Pool/Eviction.antt =====
-- test-drm-mm/main.c: what taking buffers out of the pool changes, and what it leaves alone.
use cma_pool_log.Base.{
  ℕ, ◌≡◌, refl, inl, inr, true, List, [], ◌∷◌, arith, has, Distinct, has-remove, Ensures,
  bind-Ensures, any-Ensures, Ensures-mono, Bool-cases,
}
use cma_pool_log.Pool.{Allocator, Buffer, Data}
use cma_pool_log.Pool.Buffers.{paged_out, remove_buffer_from_pool}
use cma_pool_log.Pool.PageIn.{
  evictable, purgeable, page_out_each, purge_each, userspace_cache_purge,
}
use cma_pool_log.Pool.Invariant.{Inv, IsHeld, paged_out-Inv}

-- The buffers agree, but perhaps in `paged_in`.
abbrev pub SameBuffer : Buffer → Buffer → Type 0
SameBuffer b c =
    (c.name ≡ b.name)
    × (c.unmoveable ≡ b.unmoveable)
    × (c.in_use ≡ b.in_use)
    × (c.madv ≡ b.madv)
    × (c.size ≡ b.size)

module _ {A : Allocator} where
  -- From `d` to `e` buffers were taken out of the pool: the invariant still holds; no buffer was made,
  -- freed or changed otherwise; nothing was printed; and no buffer that is in use or unmoveable went.
  pub record Evicted (d e : Data A) : Type 0 where
    pub inv : Inv e
    pub all_buffers : e.all_buffers ≡ d.all_buffers
    pub next_pointer : e.next_pointer ≡ d.next_pointer
    pub line_num : e.line_num ≡ d.line_num
    pub errors : e.errors ≡ d.errors
    pub output : e.output ≡ d.output
    pub buffers : (q : ℕ) → SameBuffer (d.buffer q) (e.buffer q)
    pub shrinks : (q : ℕ) → has q e.mru_buffers ≡ true → has q d.mru_buffers ≡ true
    pub protected : (q : ℕ) → IsHeld (d.buffer q) → has q e.mru_buffers ≡ has q d.mru_buffers

  pub Evicted-refl : (d : Data A) → Inv d → Evicted d d
  Evicted-refl d v = record {
    inv = v;
    all_buffers = refl;
    next_pointer = refl;
    line_num = refl;
    errors = refl;
    output = refl;
    buffers = λ q. (refl, refl, refl, refl, refl);
    shrinks = λ q h. h;
    protected = λ q h. refl;
  }

  pub Evicted-trans : (d e f : Data A) → Evicted d e → Evicted e f → Evicted d f
  Evicted-trans d e f s t = record {
    inv = t.inv;
    all_buffers = ground arith;
    next_pointer = ground arith;
    line_num = ground arith;
    errors = ground arith;
    output = ground arith;
    buffers = λ q. ground (arith, s.buffers q, t.buffers q);
    shrinks = λ q h. s.shrinks q (t.shrinks q h);
    protected = λ q h. ground (arith, s.buffers q, s.protected q, t.protected q);
  }

  -- One call of `remove_buffer_from_pool`: what it writes, whatever the allocator did.
  abbrev pub Removed : ℕ → Data A → Data A → Type 0
  Removed p d e = (mm : A.State) × (e ≡ paged_out p (record d { mm = mm }))

  pub remove-Removed : (p : ℕ) (d : Data A) → Ensures (Removed p d) (remove_buffer_from_pool p d)
  unfolding remove_buffer_from_pool
  remove-Removed p d = any-Ensures _ (A.remove_node p d.mm) _ (λ mm. (mm, refl))

  pub record-mm-Inv : (d : Data A) (mm : A.State) → Inv d → Inv (record d { mm = mm })
  record-mm-Inv d mm v = record {
    distinct_all = v.distinct_all;
    distinct_mru = v.distinct_mru;
    allocated = v.allocated;
    in_pool = v.in_pool;
    named = v.named;
    sized = v.sized;
    accounted = v.accounted;
  }

  pub record-mm-Evicted : (d : Data A) (mm : A.State) → Inv d → Evicted d (record d { mm = mm })
  record-mm-Evicted d mm v = record {
    inv = record-mm-Inv d mm v;
    all_buffers = refl;
    next_pointer = refl;
    line_num = refl;
    errors = refl;
    output = refl;
    buffers = λ q. (refl, refl, refl, refl, refl);
    shrinks = λ q h. h;
    protected = λ q h. refl;
  }

  pub Removed-Evicted :
      (p : ℕ) (d e : Data A)
      → Inv d
      → has p d.mru_buffers ≡ true
      → evictable (d.buffer p) ≡ true
      → Removed p d e
      → Evicted d e
  Removed-Evicted p d e v h free (mm, same) = rw same (record {
    inv = paged_out-Inv p (record d { mm = mm }) h (record-mm-Inv d mm v);
    all_buffers = refl;
    next_pointer = refl;
    line_num = refl;
    errors = refl;
    output = refl;
    buffers = λ q. ground arith;
    shrinks = λ q g. ground (arith, has-remove p q d.mru_buffers v.distinct_mru);
    protected = λ q g. ground (arith, has-remove p q d.mru_buffers v.distinct_mru);
  })

  -- The entries of the list are in the pool, and none stands twice.
  pub record Listed (l : List ℕ) (d : Data A) : Type 0 where
    pub distinct : Distinct l
    pub in_pool : (q : ℕ) → has q l ≡ true → has q d.mru_buffers ≡ true

  pub Listed-tail : (p : ℕ) (l : List ℕ) (d : Data A) → Listed (p ∷ l) d → Listed l d
  Listed-tail p l d t = record {
    distinct = t.distinct.1;
    in_pool = λ q h. t.in_pool q (ground arith);
  }

  pub Removed-Listed :
      (p : ℕ) (l : List ℕ) (d e : Data A) → Inv d → Listed (p ∷ l) d → Removed p d e → Listed l e
  Removed-Listed p l d e v t (mm, same) = rw same (record {
    distinct = t.distinct.1;
    in_pool =
        λ q h. ground (arith, t.distinct, t.in_pool q, has-remove p q d.mru_buffers v.distinct_mru);
  })

  abbrev pub AllFree : List ℕ → Data A → Type 0
  AllFree l d = (q : ℕ) → has q l ≡ true → evictable (d.buffer q) ≡ true

  Evicted-AllFree :
      (p : ℕ) (l : List ℕ) (d e : Data A) → Evicted d e → AllFree (p ∷ l) d → AllFree l e
  Evicted-AllFree p l d e s free q h = ground (arith, s.buffers q, free q)

  pub page_out_each-Evicted :
      (l : List ℕ) (d : Data A)
      → Inv d
      → Listed l d
      → AllFree l d
      → Ensures (Evicted d) (page_out_each l d)
  unfolding page_out_each
  page_out_each-Evicted [] d v t free = Evicted-refl d v
  page_out_each-Evicted (p ∷ l) d v t free =
      bind-Ensures (Removed p d) _ (remove_buffer_from_pool p d) _ (remove-Removed p d) λ e r.
        let s = Removed-Evicted p d e v (t.in_pool p (ground arith)) (free p (ground arith)) r in
        Ensures-mono (Evicted e) (Evicted d) _
          (page_out_each-Evicted l e s.inv (Removed-Listed p l d e v t r)
            (Evicted-AllFree p l d e s free))
          λ f. Evicted-trans d e f s

  purge_each-Evicted :
      (l : List ℕ) (d : Data A) → Inv d → Listed l d → Ensures (Evicted d) (purge_each l d)
  unfolding purge_each
  purge_each-Evicted [] d v t = Evicted-refl d v
  purge_each-Evicted (p ∷ l) d v t = elim (Bool-cases (purgeable (d.buffer p))) [
    | inl goes ↦ rw goes (
        bind-Ensures (Removed p d) _ (remove_buffer_from_pool p d) _ (remove-Removed p d) λ e r.
          let s = Removed-Evicted p d e v (t.in_pool p (ground arith)) (ground arith) r in
          Ensures-mono (Evicted e) (Evicted d) _
            (purge_each-Evicted l e s.inv (Removed-Listed p l d e v t r))
            λ f. Evicted-trans d e f s)
    | inr stays ↦ rw stays (purge_each-Evicted l d v (Listed-tail p l d t))
  ]

  pub userspace_cache_purge-Evicted :
      (d : Data A) → Inv d → Ensures (Evicted d) (userspace_cache_purge d)
  unfolding userspace_cache_purge
  userspace_cache_purge-Evicted d v =
      purge_each-Evicted d.mru_buffers d v
        (record { distinct = v.distinct_mru; in_pool = λ q h. h })
