-- ===== src/Tests/Contracts.antt =====
-- The theorems on what the allocator and the pool promise, at concrete inputs.
use cma_pool_log.Base.{
  ◌≡◌, refl, inl, true, false, some, [], ◌∷◌, arith, abort, ok, ℕ, ◌≤◌, replace, Option, Returns,
  u64_max,
}
use cma_pool_log.Rbtree.{plain, in_order}
use cma_pool_log.Text.{bytes, scan_size}
use cma_pool_log.Mm.{Mm, cleared, write, low, best, insert_best, head_node, hole_node_start}
use cma_pool_log.Mm.FindHole.{best_hole, find_hole, first_hole}
use cma_pool_log.Mm.Print.{print}
use cma_pool_log.Mm.Printed.{Covers, print-Covers}
use cma_pool_log.Mm.Reserving.{ReservesIn, reserve_node-Reserves}
use cma_pool_log.Mm.Allocating.{written-Tidy}
use cma_pool_log.Mm.Insert.{reserve_node, hole_loop, hole_fuel, insert_node_in_range}
use cma_pool_log.Mm.Remove.{remove_node, replace_node}
use cma_pool_log.Mm.Handing.{HandedOver, replace_node-HandedOver}
use cma_pool_log.Mm.Layout.{Tidy}
use cma_pool_log.Mm.BestFit.{Best, best_hole-Best}
use cma_pool_log.Mm.Around.{Located, find_hole-Located}
use cma_pool_log.Mm.Complete.{Answers, seeking, search-Answers}
use cma_pool_log.Mm.Refining.{Refines, insert_node_in_range-Refines}
use cma_pool_log.Mm.Mirroring.{Mirrors}
use cma_pool_log.Mm.Mirrored.{GoodInsertion, insert_node_in_range-Mirrors, remove_node-Mirrors}
use cma_pool_log.Mm.Range.{first_meeting, nodes_in_range}
use cma_pool_log.Mm.Ranging.{meeting, nodes_in_range-meeting}
use cma_pool_log.Mm.Replaced.{replace_node-Mirrors}
use cma_pool_log.Mm.Returning.{TakenBack, insert_remove}
use cma_pool_log.Pool.{page_size, willneed, Dump}
use cma_pool_log.Pool.Buffers.{find_buffer}
use cma_pool_log.Pool.Printing.{dump_text}
use cma_pool_log.Pool.Reading.{read_dump, dump_text-read}
use cma_pool_log.Pool.Lines.{perform, create, stdin}
use cma_pool_log.Simulator.{simulate}
use cma_pool_log.Simulator.Aborting.{create-abort}
use cma_pool_log.Simulator.Whole.{input_fits}
use cma_pool_log.Simulator.Shown.{SoundOutput, simulate-Sound}
use cma_pool_log.Pool.PageIn.{page_in_buffer, page_out_buffers_for_insertion}
use cma_pool_log.Simulator.Making.{Makes, page_out_buffers-Makes}
use cma_pool_log.Simulator.Answering.{Decides}
use cma_pool_log.Simulator.Deciding.{page_in_buffer-Decides}
use cma_pool_log.Tests.{empty_mm, start_data, test_log, waiting_data, waiting_data-Waiting}
use cma_pool_log.Tests.Runs.{
  empty_mm-Started, spare, start_data-Linked, used_mm, used_mm-Landed, waiting_data-Linked,
}

find_hole-Located_example : Located used_mm 12288 (find_hole used_mm 12288)
find_hole-Located_example = find_hole-Located used_mm 12288 used_mm-Landed.tidy

best_hole-Best_example : Best used_mm 4096 (best_hole used_mm 4096)
best_hole-Best_example = best_hole-Best used_mm 4096 used_mm-Landed.tidy.indexed

search-Answers_example : Returns (Answers used_mm 8192 page_size 0 u64_max) (
    hole_loop
      (hole_fuel used_mm)
      used_mm
      (seeking 8192 page_size 0 (0, u64_max) low)
      (first_hole used_mm 0 u64_max 8192 low))
search-Answers_example =
    search-Answers used_mm 8192 page_size 0 u64_max 0 low used_mm-Landed.tidy (omega arith)
      (omega arith) (omega arith)

insert_node_in_range-Refines_example :
    Returns
      (Refines plain 1 8192 page_size 0 u64_max empty_mm)
      (insert_node_in_range plain empty_mm 1 8192 page_size 0 0 u64_max insert_best)
insert_node_in_range-Refines_example =
    insert_node_in_range-Refines plain empty_mm 1 8192 page_size 0 0 u64_max best empty_mm-Started.0
      spare (omega arith) (omega arith) (omega arith) (omega arith)

replace_node-HandedOver_example : Returns (HandedOver 1 2 used_mm) (replace_node plain 1 2 used_mm)
replace_node-HandedOver_example =
    replace_node-HandedOver plain used_mm 1 2 used_mm-Landed.tidy (used_mm-Landed.listed 1)
      (record { other = refl; free = used_mm-Landed.listed 2 })

insert_remove_example :
    Returns
      (TakenBack plain 1 empty_mm)
      (insert_node_in_range plain empty_mm 1 8192 page_size 0 0 u64_max insert_best)
insert_remove_example =
    insert_remove plain empty_mm 1 8192 page_size 0 0 u64_max insert_best empty_mm-Started.0 spare
      (omega arith) (omega arith) (omega arith)

used_mm-Mirrors : Mirrors used_mm
unfolding insert_node_in_range
used_mm-Mirrors = record { entries = refl; leftmost = refl }

insert_node_in_range-Mirrors_example :
    Returns GoodInsertion
      (insert_node_in_range plain used_mm 2 8192 page_size 0 0 u64_max insert_best)
insert_node_in_range-Mirrors_example =
    insert_node_in_range-Mirrors plain used_mm 2 8192 page_size 0 0 u64_max insert_best
      used_mm-Landed.tidy used_mm-Mirrors (record { other = refl; free = used_mm-Landed.listed 2 })
      (omega arith) (omega arith) (omega arith)

replace_node-Mirrors_example :
    Returns
      (λ w. HandedOver 1 2 used_mm w × Mirrors w × (w.node_list ≡ replace 1 2 used_mm.node_list))
      (replace_node plain 1 2 used_mm)
replace_node-Mirrors_example =
    replace_node-Mirrors plain used_mm 1 2 used_mm-Landed.tidy used_mm-Mirrors
      (used_mm-Landed.listed 1) (record { other = refl; free = used_mm-Landed.listed 2 })

remove_node-Mirrors_example : Returns (λ w. Tidy w × Mirrors w) (remove_node plain 1 used_mm)
remove_node-Mirrors_example =
    remove_node-Mirrors plain used_mm 1 used_mm-Landed.tidy used_mm-Mirrors
      (used_mm-Landed.listed 1)

-- A search that looks at each entry.
abbrev walk_first : Mm → ℕ → ℕ → Option ℕ
walk_first m start last = first_meeting m start last (in_order (m.interval_tree).root)

used_mm-top : 12288 ≤ (used_mm.node head_node).start
unfolding insert_node_in_range
used_mm-top = omega arith

nodes_in_range-meeting_example :
    nodes_in_range walk_first used_mm 4096 12288 ≡ ok (meeting used_mm 4096 12288 used_mm.node_list)
nodes_in_range-meeting_example =
    nodes_in_range-meeting walk_first used_mm 4096 12288 (λ start last. refl) used_mm-Landed.tidy
      used_mm-Mirrors (omega arith) used_mm-top

page_out_buffers-Makes_example :
    Returns (Makes plain 8192 waiting_data) (page_out_buffers_for_insertion 8192 waiting_data)
page_out_buffers-Makes_example =
    page_out_buffers-Makes plain 8192 waiting_data waiting_data-Linked (omega arith) (omega arith)

page_in_buffer-Decides_example :
    Returns (Decides plain 8192 waiting_data) (page_in_buffer 1 waiting_data)
page_in_buffer-Decides_example =
    page_in_buffer-Decides plain 1 waiting_data waiting_data-Linked waiting_data-Waiting

-- A node that waits for the second page.
abbrev reserving_mm : Mm
reserving_mm = write empty_mm 1 (record cleared { start = 4096; size = 8192 })

reserve_node-Reserves_example :
    Returns (ReservesIn plain 1 reserving_mm) (reserve_node plain reserving_mm 1)
reserve_node-Reserves_example =
    reserve_node-Reserves plain reserving_mm 1
      (written-Tidy 1 (record cleared { start = 4096; size = 8192 }) empty_mm spare (omega arith)
        refl refl refl empty_mm-Started.0)
      (record { other = refl; free = refl }) (omega arith)

print-Covers_example :
    Covers (hole_node_start used_mm head_node) (used_mm.node head_node).start 0 0 (print used_mm)
print-Covers_example = print-Covers used_mm used_mm-Landed.tidy

create-abort_example : perform create 9 (bytes "0") start_data ≡ abort
unfolding scan_size find_buffer
create-abort_example =
    create-abort plain 9 (bytes "0") [] 0 start_data start_data-Linked (λ p. refl) refl refl
      (inl refl)

abbrev small_dump : Dump
small_dump = record {
  overflow = 4096;
  buffers =
      record {
        name = 7;
        size = 8192;
        unmoveable = false;
        in_use = true;
        madv = willneed;
        offset = 0;
      }
      ∷ [];
}

dump_text-read_example : read_dump 2 (dump_text small_dump []) ≡ some (small_dump, [])
dump_text-read_example = dump_text-read 2 small_dump [] (omega arith)

simulate-Sound_example : Returns (SoundOutput plain) (simulate plain (stdin test_log))
unfolding input_fits
simulate-Sound_example = simulate-Sound plain (stdin test_log) refl
