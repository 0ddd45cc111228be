-- ===== src/Tests/Runs.antt =====
-- The theorems on the allocator's layout and on whole runs, at concrete inputs.
use cma_pool_log.Base.{
  ◌>>=◌, ◌≡◌, refl, subst, Bool, true, false, arith, Outcome, ok, abort, no_fuel, Returns, u64_max,
}
use cma_pool_log.Rbtree.{plain}
use cma_pool_log.Text.{bytes, scan_size, fgets_all}
use cma_pool_log.Mm.{Mm, InsertMode, low, insert_best}
use cma_pool_log.Mm.Holes.{init}
use cma_pool_log.Mm.FindHole.{first_hole}
use cma_pool_log.Mm.Insert.{Request, hole_loop, hole_fuel, insert_node_in_range}
use cma_pool_log.Mm.Remove.{remove_node}
use cma_pool_log.Mm.Seek.{Sought, search-Sought}
use cma_pool_log.Mm.Allocating.{Spare, Landed, Inserted, insert_node_in_range-Inserted}
use cma_pool_log.Mm.Refusing.{Inserts, insert_node_in_range-Inserts}
use cma_pool_log.Mm.Starting.{Started, init-Tidy}
use cma_pool_log.Mm.Removing.{Removed, remove_node-Removed}
use cma_pool_log.Pool.{pool_size, page_size}
use cma_pool_log.Pool.PageIn.{page_in_buffer, page_out_buffers_for_insertion}
use cma_pool_log.Pool.Lines.{perform, create, stdin, process_lines, initial}
use cma_pool_log.Simulator.{drm_mm, simulate}
use cma_pool_log.Simulator.Linked.{Linked}
use cma_pool_log.Simulator.Room.{MadeRoom, page_out_buffers-MadeRoom}
use cma_pool_log.Simulator.Running.{page_in_buffer-MadeRoom}
use cma_pool_log.Simulator.Serving.{created-Linked, perform-Linked}
use cma_pool_log.Simulator.Arranged.{Arranged, process_lines-Arranged}
use cma_pool_log.Simulator.Whole.{IsOver, lines_fit, input_fits, initial-Linked, simulate-IsOver}
use cma_pool_log.Tests.{
  empty_mm, empty_mm_lem, start_data, waiting_data, waiting_data-Waiting, test_log,
}

pub empty_mm-Started : Started plain pool_size empty_mm
empty_mm-Started =
    subst (Returns (Started plain pool_size)) empty_mm_lem
      (init-Tidy plain 0 pool_size (omega arith) (omega arith))

pub spare : Spare 1 empty_mm
spare = record { other = refl; free = refl }

-- DRM_MM_INSERT_LOWEST, which has the bit ONCE.
abbrev lowest : InsertMode
lowest = record { search = low; once = true }

insert_node_in_range-Inserts_example :
    Returns
      (Inserts 1 8192 page_size 0 u64_max lowest empty_mm)
      (insert_node_in_range plain empty_mm 1 8192 page_size 0 0 u64_max lowest)
insert_node_in_range-Inserts_example =
    insert_node_in_range-Inserts plain empty_mm 1 8192 page_size 0 0 u64_max lowest
      empty_mm-Started.0 spare (omega arith) (omega arith) (omega arith)

abbrev mm_of : Outcome (Bool × Mm) → Mm
mm_of (ok (placed, mm)) = mm
mm_of abort = empty_mm
mm_of no_fuel = empty_mm

-- The allocator with one block of 8 KiB.
abbrev pub used_mm : Mm
used_mm = mm_of (insert_node_in_range plain empty_mm 1 8192 page_size 0 0 u64_max insert_best)

pub used_mm_lem :
    insert_node_in_range plain empty_mm 1 8192 page_size 0 0 u64_max insert_best
    ≡ ok (true, used_mm)
unfolding insert_node_in_range
used_mm_lem = refl

pub used_mm-Landed : Landed 1 8192 page_size 0 u64_max empty_mm used_mm
used_mm-Landed = subst (Returns (Inserted 1 8192 page_size 0 u64_max empty_mm)) used_mm_lem (
    insert_node_in_range-Inserted plain empty_mm 1 8192 page_size 0 0 u64_max insert_best
      empty_mm-Started.0 spare (omega arith) (omega arith) (omega arith))

init-Tidy_example : Returns (Started plain pool_size) (init plain 0 pool_size)
init-Tidy_example = init-Tidy plain 0 pool_size (omega arith) (omega arith)

remove_node-Removed_example : Returns (Removed plain 1 used_mm) (remove_node plain 1 used_mm)
remove_node-Removed_example =
    remove_node-Removed plain 1 used_mm used_mm-Landed.tidy (used_mm-Landed.listed 1)

abbrev request : Request
request = record {
  size = 8192;
  alignment = page_size;
  mask = 4095;
  color = 0;
  range = (0, u64_max);
  mode = insert_best;
}

search-Sought_example : Returns (Sought used_mm request) (
    hole_loop
      (hole_fuel used_mm)
      used_mm
      request
      (first_hole used_mm 0 u64_max 8192 request.mode.search))
search-Sought_example = search-Sought used_mm request 0 u64_max 8192 used_mm-Landed.tidy.indexed

pub start_data-Linked : Linked plain start_data
start_data-Linked = initial-Linked plain empty_mm empty_mm-Started.0 refl refl

pub waiting_data-Linked : Linked plain waiting_data
waiting_data-Linked =
    created-Linked plain 7 8192 false start_data waiting_data-Waiting.inv (omega arith)
      (omega arith) start_data-Linked

page_in_buffer-MadeRoom_example : Returns (MadeRoom plain) (page_in_buffer 1 waiting_data)
page_in_buffer-MadeRoom_example =
    page_in_buffer-MadeRoom plain 1 waiting_data waiting_data-Linked waiting_data-Waiting

page_out_buffers-MadeRoom_example :
    Returns (MadeRoom plain) (page_out_buffers_for_insertion 8192 waiting_data)
page_out_buffers-MadeRoom_example =
    page_out_buffers-MadeRoom plain 8192 waiting_data waiting_data-Linked (omega arith)
      (omega arith)

perform-Linked_example : Returns (Linked plain) (perform create 9 (bytes "4096") waiting_data)
unfolding scan_size
perform-Linked_example =
    perform-Linked plain create 9 (bytes "4096") waiting_data refl waiting_data-Linked

simulate-IsOver_example : Returns (IsOver plain) (simulate plain (stdin test_log))
unfolding input_fits
simulate-IsOver_example = simulate-IsOver plain (stdin test_log) refl

process_lines-Arranged_example : Returns (Arranged plain) (
    init plain 0 pool_size >>= λ mm.
    process_lines (fgets_all test_log) (initial {A = drm_mm plain} mm))
unfolding lines_fit fgets_all
process_lines-Arranged_example = process_lines-Arranged plain (fgets_all test_log) refl
