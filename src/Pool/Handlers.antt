-- ===== src/Pool/Handlers.antt =====
-- test-drm-mm/main.c: every command keeps the invariant of the data.
use cma_pool_log.Base.{
  ℕ, ◌≡◌, ◌≢◌, refl, ◌⊎◌, inl, inr, true, false, none, some, List, [], ◌∷◌, arith, ◌==◌, has,
  remove, Outcome, Ensures, bind-Ensures, Bool-cases, Option-cases, has-remove_self, has-remove,
}
use cma_pool_log.Text.{Bytes}
use cma_pool_log.Pool.{
  Allocator, Buffer, willneed, Data, unexpected_args, unknown_buffer, Message, report, put,
}
use cma_pool_log.Pool.Buffers.{
  find_in, find_buffer, find_buffer_or_error, remove_buffer_from_pool, free_buffer, paged_out,
  forgotten,
}
use cma_pool_log.Pool.Commands.{check_no_args, with_buffer}
use cma_pool_log.Pool.Invariant.{Inv, IsHeld, paged_out-Inv, forgotten-Inv, put-Inv, report-Inv}
use cma_pool_log.Pool.Eviction.{SameBuffer, Removed, remove-Removed, record-mm-Inv}

-- What `find_buffer` finds is on the list and has the name; where it finds nothing, nothing has.
pub find_in-some :
    (b : ℕ → Buffer) (name p : ℕ) (l : List ℕ)
    → find_in b name l ≡ some p
    → (has p l ≡ true) × ((b p).name ≡ name)
unfolding find_in
find_in-some b name p [] h = cc
find_in-some b name p (x ∷ l) h = ground (arith, find_in-some b name p l)

pub find_in-none :
    (b : ℕ → Buffer) (name q : ℕ) (l : List ℕ)
    → find_in b name l ≡ none
    → has q l ≡ true
    → ((b q).name == name) ≡ false
unfolding find_in
find_in-none b name q [] h g = cc
find_in-none b name q (x ∷ l) h g = ground (arith, find_in-none b name q l)

module _ {A : Allocator} where
  abbrev pub AllNeeded : Data A → Type 0
  AllNeeded d = (p : ℕ) → (d.buffer p).madv ≡ willneed

  pub find_buffer-some :
      (d : Data A) (name p : ℕ)
      → find_buffer d name ≡ some p
      → (has p d.all_buffers ≡ true) × ((d.buffer p).name ≡ name)
  unfolding find_buffer
  find_buffer-some d name p e = find_in-some d.buffer name p d.all_buffers e

  pub find_or_error-none :
      (d : Data A) (name : ℕ)
      → find_buffer d name ≡ none
      → find_buffer_or_error d name ≡ (none, report (unknown_buffer d.line_num name) d)
  unfolding find_buffer_or_error
  find_or_error-none d name e = rw (e, find_buffer_or_error)

  pub find_or_error-some :
      (d : Data A) (name p : ℕ)
      → find_buffer d name ≡ some p
      → find_buffer_or_error d name ≡ (some p, d)
  unfolding find_buffer_or_error
  find_or_error-some d name p e = rw (e, find_buffer_or_error)

  -- The three ways through the head of a handler.
  pub with_buffer-Ensures :
      (Q : Data A → Type 0) (name : ℕ) (args : Bytes) (handle : ℕ → Data A → Outcome (Data A))
      (d : Data A)
      → Q (report (unexpected_args d.line_num) d)
      → (find_buffer d name ≡ none → Q (report (unknown_buffer d.line_num name) d))
      → ((p : ℕ) → has p d.all_buffers ≡ true → (d.buffer p).name ≡ name → Ensures Q (handle p d))
      → Ensures Q (with_buffer name args handle d)
  unfolding check_no_args
  with_buffer-Ensures Q name (c ∷ s) handle d bad missing found = bad
  with_buffer-Ensures Q name [] handle d bad missing found =
      elim (Option-cases (find_buffer d name)) [
        | inl e ↦ rw (find_or_error-none d name e) (missing e)
        | inr (p, e) ↦
            let f = find_buffer-some d name p e in
            rw (find_or_error-some d name p e) (found p f.0 f.1)
      ]

  -- What a command for one name may change: the invariant holds on; every buffer of another name is
  -- still there with its fields as they were, and still in the pool if it was there in use or
  -- unmoveable, and not if it was not; and no advice but `willneed` is given.
  pub record Performed (name : ℕ) (d e : Data A) : Type 0 where
    pub inv : Inv e
    pub line_num : e.line_num ≡ d.line_num
    pub output : e.output ≡ d.output
    pub kept :
        (q : ℕ) → has q d.all_buffers ≡ true → (d.buffer q).name ≢ name → has q e.all_buffers ≡ true
    pub buffers :
        (q : ℕ)
        → has q d.all_buffers ≡ true
        → (d.buffer q).name ≢ name
        → SameBuffer (d.buffer q) (e.buffer q)
    pub held :
        (q : ℕ)
        → has q d.all_buffers ≡ true
        → (d.buffer q).name ≢ name
        → IsHeld (d.buffer q)
        → has q e.mru_buffers ≡ has q d.mru_buffers
    pub advice : AllNeeded d → AllNeeded e

  pub Performed-refl : (name : ℕ) (d : Data A) → Inv d → Performed name d d
  Performed-refl name d v = record {
    inv = v;
    line_num = refl;
    output = refl;
    kept = λ q h n. h;
    buffers = λ q h n. (refl, refl, refl, refl, refl);
    held = λ q h n f. refl;
    advice = λ all p. all p;
  }

  pub report-Performed :
      (name : ℕ) (m : Message) (d : Data A) → Inv d → Performed name d (report m d)
  report-Performed name m d v = record {
    inv = report-Inv m d v;
    line_num = refl;
    output = refl;
    kept = λ q h n. h;
    buffers = λ q h n. (refl, refl, refl, refl, refl);
    held = λ q h n f. refl;
    advice = λ all p. all p;
  }

  -- A write to fields of the named buffer that say nothing of the pool.
  pub put-Performed :
      (name p : ℕ) (b : Buffer) (d e : Data A)
      → (d.buffer p).name ≡ name
      → b.paged_in ≡ (e.buffer p).paged_in
      → b.size ≡ (e.buffer p).size
      → b.name ≡ (e.buffer p).name
      → (b.madv ≡ willneed) ⊎ (b.madv ≡ (e.buffer p).madv)
      → (e ≡ d) ⊎ ((m : Message) × (e ≡ report m d))
      → Inv d
      → Performed name d (put p b e)
  put-Performed name p b d e own pg sz nm need (inl same) v = rw same (record {
    inv = put-Inv p b d (rw same at pg) (rw same at sz) (rw same at nm) v;
    line_num = refl;
    output = refl;
    kept = λ q h n. h;
    buffers = λ q h n. ground arith;
    held = λ q h n f. refl;
    advice = λ all q. ground (arith, all q, all p);
  })
  put-Performed name p b d e own pg sz nm need (inr (m, same)) v = rw same (record {
    inv =
        put-Inv p b (report m d) (rw same at pg) (rw same at sz) (rw same at nm) (report-Inv m d v);
    line_num = refl;
    output = refl;
    kept = λ q h n. h;
    buffers = λ q h n. ground arith;
    held = λ q h n f. refl;
    advice = λ all q. ground (arith, all q, all p);
  })

  -- Freeing also shortens the list of all buffers by the one.
  abbrev pub Freed : ℕ → Data A → Data A → Type 0
  Freed p d e = Performed (d.buffer p).name d e × (e.all_buffers ≡ remove p d.all_buffers)

  forgotten-Freed :
      (p : ℕ) (d : Data A)
      → has p d.all_buffers ≡ true
      → has p d.mru_buffers ≡ false
      → Inv d
      → Freed p d (forgotten p d)
  forgotten-Freed p d h out v = (
    record {
      inv = forgotten-Inv p d h out v;
      line_num = refl;
      output = refl;
      kept = λ q g n. ground (arith, has-remove p q d.all_buffers v.distinct_all);
      buffers = λ q g n. (refl, refl, refl, refl, refl);
      held = λ q g n f. refl;
      advice = λ all q. all q;
    },
    refl,
  )

  paged_out-Freed :
      (p : ℕ) (d : Data A) (mm : A.State)
      → has p d.all_buffers ≡ true
      → has p d.mru_buffers ≡ true
      → Inv d
      → Freed p d (forgotten p (paged_out p (record d { mm = mm })))
  paged_out-Freed p d mm h there v =
      let e : Data A = record d { mm = mm } in
      (
        record {
          inv =
              forgotten-Inv p (paged_out p e) h (has-remove_self p d.mru_buffers v.distinct_mru)
                (paged_out-Inv p e there (record-mm-Inv d mm v));
          line_num = refl;
          output = refl;
          kept = λ q g n. ground (arith, has-remove p q d.all_buffers v.distinct_all);
          buffers = λ q g n. ground arith;
          held = λ q g n f. ground (arith, has-remove p q d.mru_buffers v.distinct_mru);
          advice = λ all q. ground (arith, all q, all p);
        },
        refl,
      )

  -- Freeing a buffer takes it off the list, and out of the pool if it is there.
  pub free_buffer-Freed :
      (p : ℕ) (d : Data A)
      → has p d.all_buffers ≡ true
      → Inv d
      → Ensures (Freed p d) (free_buffer p d)
  unfolding free_buffer
  free_buffer-Freed p d h v = elim (Bool-cases (d.buffer p).paged_in) [
    | inl there ↦ rw there (
        bind-Ensures (Removed p d) (Freed p d) (remove_buffer_from_pool p d) _ (remove-Removed p d)
          λ e (mm, same). rw same (paged_out-Freed p d mm h (ground (arith, v.in_pool p)) v))
    | inr gone ↦ rw gone (forgotten-Freed p d h (ground (arith, v.in_pool p)) v)
  ]
