-- ===== src/Pool/Buffers.antt =====
-- test-drm-mm/main.c: the buffers and their way into the pool and out of it.
use cma_pool_log.Base.{
  ℕ, Bool, true, false, Option, none, some, List, [], ◌∷◌, ◌==◌, if◌then◌else◌, add64, sub64,
  update, remove, Outcome, ok, ◌>>=◌,
}
use cma_pool_log.Mm.{InsertMode}
use cma_pool_log.Pool.{Allocator, Buffer, Data, unknown_buffer, report, page_size}

-- The loop of `find_buffer` over the list.
unfoldable pub find_in : (ℕ → Buffer) → ℕ → List ℕ → Option ℕ
find_in buffer name [] = none
find_in buffer name (p ∷ ps) = if (buffer p).name == name then some p else find_in buffer name ps

module _ {A : Allocator} where
  unfoldable pub find_buffer : Data A → ℕ → Option ℕ
  unfolding find_in
  find_buffer d name = find_in d.buffer name d.all_buffers

  unfoldable pub find_buffer_or_error : Data A → ℕ → Option ℕ × Data A
  unfolding find_buffer
  find_buffer_or_error d name = elim (find_buffer d name) [
    | none ↦ (none, report (unknown_buffer d.line_num name) d)
    | some p ↦ (some p, d)
  ]

  -- The writes of `remove_buffer_from_pool` beside the allocator's.
  abbrev pub paged_out : ℕ → Data A → Data A
  paged_out p d = record d {
    mru_buffers = remove p d.mru_buffers;
    buffer = update d.buffer p (record (d.buffer p) { paged_in = false });
    overflow = add64 d.overflow (d.buffer p).size;
  }

  unfoldable pub remove_buffer_from_pool : ℕ → Data A → Outcome (Data A)
  remove_buffer_from_pool p d = do
    mm ← A.remove_node p d.mm
    ok (paged_out p (record d { mm = mm }))

  -- Off the list of all buffers; the object is gone.
  abbrev pub forgotten : ℕ → Data A → Data A
  forgotten p d = record d {
    all_buffers = remove p d.all_buffers;
    overflow = sub64 d.overflow (d.buffer p).size;
  }

  unfoldable pub free_buffer : ℕ → Data A → Outcome (Data A)
  unfolding remove_buffer_from_pool
  free_buffer p d = do
    d' ← (if (d.buffer p).paged_in then remove_buffer_from_pool p d else ok d)
    ok (forgotten p d')

  -- The loop keeps the next entry before it frees one, so it goes through the list as it was.
  unfoldable pub free_each : List ℕ → Data A → Outcome (Data A)
  unfolding free_buffer
  free_each [] d = ok d
  free_each (p ∷ ps) d = do d' ← free_buffer p d; free_each ps d'

  unfoldable pub free_buffers : Data A → Outcome (Data A)
  unfolding free_each
  free_buffers d = free_each d.all_buffers d

  -- The writes of `insert_buffer_in_cma_pool` where the node was inserted.
  abbrev pub paged : ℕ → Data A → Data A
  paged p d = record d {
    mru_buffers = p ∷ d.mru_buffers;
    buffer = update d.buffer p (record (d.buffer p) { paged_in = true });
    overflow = sub64 d.overflow (d.buffer p).size;
  }

  unfoldable pub insert_buffer_in_cma_pool : ℕ → InsertMode → Data A → Outcome (Bool × Data A)
  insert_buffer_in_cma_pool p mode d = do
    (placed, mm) ← A.insert d.mm p (d.buffer p).size page_size 0 mode
    let d' = record d { mm = mm }
    ok (if placed then (true, paged p d') else (false, d'))
