-- ===== src/Pool/Invariant.antt =====
-- test-drm-mm/main.c: what holds of `struct data` between two calls, and the writes that keep it.
use cma_pool_log.Base.{
  ℕ, ◌+◌, ◌%◌, ◌<◌, ◌≡◌, ◌⊎◌, refl, true, false, ◌&&◌, List, [], ◌∷◌, arith, if◌then◌else◌, u64_mod,
  update, has, remove, Distinct, has-remove, remove-Distinct,
}
use cma_pool_log.Pool.{Allocator, Buffer, Data, Message, put, report}
use cma_pool_log.Pool.Buffers.{paged_out, paged, forgotten}

-- What a buffer adds to the overflow: its size, while it is not in the pool.
abbrev pub weight : Buffer → ℕ
weight b = if b.paged_in then 0 else b.size

abbrev pub outside : (ℕ → Buffer) → List ℕ → ℕ
outside buffer [] = 0
outside buffer (p ∷ ps) = weight (buffer p) + outside buffer ps

abbrev pub part : (ℕ → Buffer) → ℕ → List ℕ → ℕ
part buffer p l = if has p l then weight (buffer p) else 0

pub outside_absent :
    (b : ℕ → Buffer) (p : ℕ) (v : Buffer) (l : List ℕ)
    → has p l ≡ false
    → outside (update b p v) l ≡ outside b l
outside_absent b p v [] h = refl
outside_absent b p v (x ∷ l) h = ground (arith, outside_absent b p v l)

pub outside-update :
    (b : ℕ → Buffer) (p : ℕ) (v : Buffer) (l : List ℕ)
    → Distinct l
    → outside (update b p v) l + part b p l ≡ outside b l + (if has p l then weight v else 0)
outside-update b p v [] d = refl
outside-update b p v (x ∷ l) d = ground (arith, outside-update b p v l d.1, outside_absent b p v l)

pub outside-remove :
    (b : ℕ → Buffer) (p : ℕ) (l : List ℕ) → outside b (remove p l) + part b p l ≡ outside b l
outside-remove b p [] = refl
outside-remove b p (x ∷ l) = ground (arith, outside-remove b p l)

-- The buffer must not be moved out of the pool.
abbrev pub IsHeld : Buffer → Type 0
IsHeld b = (b.in_use ≡ true) ⊎ (b.unmoveable ≡ true)

module _ {A : Allocator} where
  -- The lists hold no pointer twice, and no name stands for two buffers; every buffer was allocated; a buffer is in the list of recently
  -- used ones exactly while it is paged in; a size is a `size_t`; and the overflow is the size of the
  -- buffers that are not paged in.
  pub record Inv (d : Data A) : Type 0 where
    pub distinct_all : Distinct d.all_buffers
    pub distinct_mru : Distinct d.mru_buffers
    pub allocated : (p : ℕ) → has p d.all_buffers ≡ true → p < d.next_pointer
    pub in_pool : (p : ℕ) → has p d.mru_buffers ≡ (has p d.all_buffers && (d.buffer p).paged_in)
    pub named :
        (p q : ℕ)
        → has p d.all_buffers ≡ true
        → has q d.all_buffers ≡ true
        → (d.buffer p).name ≡ (d.buffer q).name
        → p ≡ q
    pub sized : (p : ℕ) → (d.buffer p).size < u64_mod
    pub accounted : d.overflow ≡ outside d.buffer d.all_buffers % u64_mod

  pub paged_out-Inv :
      (p : ℕ) (d : Data A) → has p d.mru_buffers ≡ true → Inv d → Inv (paged_out p d)
  paged_out-Inv p d h v = record {
    distinct_all = v.distinct_all;
    distinct_mru = remove-Distinct p d.mru_buffers v.distinct_mru;
    allocated = v.allocated;
    in_pool =
        λ q. ground (arith, v.in_pool q, v.in_pool p, has-remove p q d.mru_buffers v.distinct_mru);
    named = λ q r f g same. ground (arith, v.named q r);
    sized = λ q. ground (arith, v.sized q, v.sized p);
    accounted = ground (
      arith,
      v.accounted,
      v.sized p,
      v.in_pool p,
      outside-update d.buffer p (record (d.buffer p) { paged_in = false }) d.all_buffers
          v.distinct_all,
    );
  }

  pub paged-Inv :
      (p : ℕ) (d : Data A)
      → has p d.all_buffers ≡ true
      → has p d.mru_buffers ≡ false
      → Inv d
      → Inv (paged p d)
  paged-Inv p d h new v = record {
    distinct_all = v.distinct_all;
    distinct_mru = (new, v.distinct_mru);
    allocated = v.allocated;
    in_pool = λ q. ground (arith, v.in_pool q, v.in_pool p);
    named = λ q r f g same. ground (arith, v.named q r);
    sized = λ q. ground (arith, v.sized q, v.sized p);
    accounted = ground (
      arith,
      v.accounted,
      v.sized p,
      v.in_pool p,
      outside-update d.buffer p (record (d.buffer p) { paged_in = true }) d.all_buffers
          v.distinct_all,
    );
  }

  pub forgotten-Inv :
      (p : ℕ) (d : Data A)
      → has p d.all_buffers ≡ true
      → has p d.mru_buffers ≡ false
      → Inv d
      → Inv (forgotten p d)
  forgotten-Inv p d h new v = record {
    distinct_all = remove-Distinct p d.all_buffers v.distinct_all;
    distinct_mru = v.distinct_mru;
    allocated = λ q. ground (arith, v.allocated q, has-remove p q d.all_buffers v.distinct_all);
    in_pool =
        λ q. ground (arith, v.in_pool q, v.in_pool p, has-remove p q d.all_buffers v.distinct_all);
    named = λ q r f g same. ground (
      arith,
      v.named q r,
      has-remove p q d.all_buffers v.distinct_all,
      has-remove p r d.all_buffers v.distinct_all,
    );
    sized = λ q. ground (arith, v.sized q, v.sized p);
    accounted =
        ground
          (arith, v.accounted, v.sized p, v.in_pool p, outside-remove d.buffer p d.all_buffers);
  }

  -- A write to fields that say nothing of the pool.
  pub put-Inv :
      (p : ℕ) (b : Buffer) (d : Data A)
      → b.paged_in ≡ (d.buffer p).paged_in
      → b.size ≡ (d.buffer p).size
      → b.name ≡ (d.buffer p).name
      → Inv d
      → Inv (put p b d)
  put-Inv p b d same_paged same_size same_name v = record {
    distinct_all = v.distinct_all;
    distinct_mru = v.distinct_mru;
    allocated = v.allocated;
    in_pool = λ q. ground (arith, v.in_pool q);
    named = λ q r f g same. ground (arith, v.named q r);
    sized = λ q. ground (arith, v.sized q, v.sized p);
    accounted =
        ground (arith, v.accounted, outside-update d.buffer p b d.all_buffers v.distinct_all);
  }

  pub report-Inv : (e : Message) (d : Data A) → Inv d → Inv (report e d)
  report-Inv e d v = record {
    distinct_all = v.distinct_all;
    distinct_mru = v.distinct_mru;
    allocated = v.allocated;
    in_pool = v.in_pool;
    named = v.named;
    sized = v.sized;
    accounted = v.accounted;
  }
