-- ===== src/Pool/Commands.antt =====
-- test-drm-mm/main.c: the handlers of the commands. `args` is the text behind the buffer's name.
use Prim.Native.Nat.{◌+◌}
use cma_pool_log.Base.{
  ℕ, Bool, true, false, not, Option, none, some, List, [], ◌∷◌, if◌then◌else◌, add64, remove,
  update, Outcome, ok, ◌>>=◌,
}
use cma_pool_log.Text.{Bytes, bytes, first_word, same_bytes, all_spaces, scan_size}
use cma_pool_log.Pool.{
  Allocator, calloced, Madv, willneed, dontneed, Data, unexpected_args, already_in_use, not_in_use,
  already_exists, bad_buffer_size, invalid_madv, report, put,
}
use cma_pool_log.Pool.Buffers.{find_buffer, find_buffer_or_error, free_buffer}
use cma_pool_log.Pool.PageIn.{page_in_buffer}

abbrev pub madv_map : List (Bytes × Madv)
madv_map = (bytes "willneed", willneed) ∷ (bytes "dontneed", dontneed) ∷ []

module _ {A : Allocator} where
  -- `check_no_args`: true where there are some.
  unfoldable pub check_no_args : Bytes → Data A → Bool × Data A
  check_no_args [] d = (false, d)
  check_no_args (c ∷ s) d = (true, report (unexpected_args d.line_num) d)

  -- `if (buf == NULL) return;`
  abbrev pub if_found : (ℕ → Data A → Outcome (Data A)) → Option ℕ × Data A → Outcome (Data A)
  if_found handle (none, d) = ok d
  if_found handle (some p, d) = handle p d

  -- How the handlers begin: no arguments, and a buffer of that name.
  abbrev pub with_buffer : ℕ → Bytes → (ℕ → Data A → Outcome (Data A)) → Data A → Outcome (Data A)
  with_buffer name args handle d =
      let (bad, d') = check_no_args args d in
      if bad then ok d' else if_found handle (find_buffer_or_error d' name)

  unfoldable pub buf_destroy : ℕ → Bytes → Data A → Outcome (Data A)
  unfolding check_no_args find_buffer_or_error free_buffer
  buf_destroy name args d = with_buffer name args free_buffer d

  unfoldable pub buf_add_usecnt : ℕ → Bytes → Data A → Outcome (Data A)
  unfolding check_no_args find_buffer_or_error
  buf_add_usecnt name args d =
      with_buffer name args
        (λ p d'. ok (
          put p (record (d'.buffer p) { in_use = true })
            (if (d'.buffer p).in_use then report (already_in_use d'.line_num name) d' else d')))
        d

  unfoldable pub buf_remove_usecnt : ℕ → Bytes → Data A → Outcome (Data A)
  unfolding check_no_args find_buffer_or_error
  buf_remove_usecnt name args d =
      with_buffer name args
        (λ p d'. ok (
          put p (record (d'.buffer p) { in_use = false })
            (if (d'.buffer p).in_use then d' else report (not_in_use d'.line_num name) d')))
        d

  -- The new buffer, at the pointer that `calloc` returned, at the head of the list of all.
  abbrev pub created : ℕ → ℕ → Bool → Data A → Data A
  created name size unmoveable d =
      let p = d.next_pointer in
      record d {
        buffer = update d.buffer p (record calloced {
          name = name;
          size = size;
          madv = willneed;
          unmoveable = unmoveable;
        });
        all_buffers = p ∷ d.all_buffers;
        mm = A.clear p d.mm;
        next_pointer = p + 1;
        overflow = add64 d.overflow size;
      }

  -- Anything but white space behind the size makes the buffer unmoveable.
  unfoldable pub buf_create : ℕ → Bytes → Data A → Outcome (Data A)
  unfolding find_buffer page_in_buffer scan_size
  buf_create name args d = elim (find_buffer d name) [
    | some p ↦ ok (report (already_exists d.line_num name) d)
    | none ↦ elim (scan_size args) [
      | none ↦ ok (report (bad_buffer_size d.line_num) d)
      | some (size, rest) ↦ (do
        (_, d') ← page_in_buffer d.next_pointer (created name size (not (all_spaces rest)) d)
        ok d')
    ]
  ]

  -- The branches of `buf_use`: to the head of the list, or into the pool.
  abbrev pub touch : ℕ → Data A → Outcome (Data A)
  touch p d =
      if (d.buffer p).paged_in
      then ok (record d { mru_buffers = p ∷ remove p d.mru_buffers })
      else (do (_, d') ← page_in_buffer p d; ok d')

  unfoldable pub buf_use : ℕ → Bytes → Data A → Outcome (Data A)
  unfolding check_no_args find_buffer_or_error page_in_buffer
  buf_use name args d = with_buffer name args touch d

  -- The loop over `madv_map`. Its `return` stands outside the `if`, so the first entry ends it.
  unfoldable pub madv_loop : List (Bytes × Madv) → Bytes → ℕ → Data A → Data A
  unfolding same_bytes first_word
  madv_loop [] args p d = report (invalid_madv d.line_num args) d
  madv_loop ((name, value) ∷ rest) args p d =
      if same_bytes name (first_word args)
      then put p (record (d.buffer p) { madv = value }) d
      else d

  unfoldable pub buf_madv : ℕ → Bytes → Data A → Outcome (Data A)
  unfolding find_buffer_or_error madv_loop
  buf_madv name args d =
      if_found (λ p d'. ok (madv_loop madv_map args p d')) (find_buffer_or_error d name)
