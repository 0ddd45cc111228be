-- ===== src/Tests.antt =====
-- Runs of the simulator, and the theorems at concrete inputs.
mod Runs
mod Contracts
use cma_pool_log.Base.{
  ℕ, ◌-◌, ◌^◌, ◌≡◌, refl, true, false, none, some, List, [], ◌∷◌, ◌++◌, map, arith, Outcome, ok,
  ◌>>=◌, Ensures, Returns, update, u64_max,
}
use cma_pool_log.Rbtree.{leaf, fork, Colour, plain}
use cma_pool_log.Text.{Bytes, bytes, scan_size, scan_hex}
use cma_pool_log.Mm.{Mm, Node, Scan, cleared, best, high, insert_best}
use cma_pool_log.Mm.Holes.{init}
use cma_pool_log.Mm.Insert.{place}
use cma_pool_log.Mm.Place.{Fits, place-Fits, place-none}
use cma_pool_log.Mm.Roster.{scan_add_block, scan_remove_block, unlink}
use cma_pool_log.Mm.Rollback.{Same, Same-refl, Listed, Unlinked, overlaps, scan_remove_block-Same}
use cma_pool_log.Mm.Extreme.{Outermost, place-Outermost}
use cma_pool_log.Mm.Scanning.{Plain, Asks, Added, scan_add_block-Added, unlink-Unlinked}
use cma_pool_log.Pool.{Buffer, Data, Dump, Message, calloced, pool_size}
use cma_pool_log.Pool.PageIn.{
  page_in_buffer, page_out_buffers_for_insertion, userspace_cache_purge, scan_buffers, clean_up,
  keep_hits,
}
use cma_pool_log.Pool.Buffers.{find_buffer}
use cma_pool_log.Pool.Commands.{created}
use cma_pool_log.Pool.Lines.{
  perform, use_buffer, process_line, process_file, stdin, run_main, initial,
}
use cma_pool_log.Pool.Picking.{AfterEviction, page_out_buffers-Evicted}
use cma_pool_log.Pool.Entering.{Waiting, Entered, page_in_buffer-Entered}
use cma_pool_log.Pool.Handlers.{Performed}
use cma_pool_log.Pool.Perform.{created-Waiting, perform-Performed}
use cma_pool_log.Pool.Session.{
  Good, IsEmpty, initial-Good, process_line-Good, purge_idle, run_main-IsEmpty,
}
use cma_pool_log.Simulator.{drm_mm, simulate}
use cma_pool_log.Simulator.Rollback.{
  Off, Scanned, Kept, scan_buffers-Scanned, clean_up-Same, keep_hits-Kept,
}

-- The lines of test-log.txt, then a request to dump.
abbrev test_log : Bytes
test_log =
    bytes "[    0.999999] @@@ create cccccccc 33554432\n"
    ++ bytes "[    1.999999] @@@ create dddddddd 33554432\n"
    ++ bytes "[    2.999999] @@@ create eeeeeeee 33554432\n"
    ++ bytes "[    3.999999] @@@ destroy dddddddd\n"
    ++ bytes "[    4.999999] @@@ add_usecnt eeeeeeee\n"
    ++ bytes "[    5.999999] @@@ remove_usecnt eeeeeeee\n"
    ++ bytes "[    6.999999] @@@ create ffffffff 33554432\n"
    ++ bytes "[    7.999999] @@@ create 00000000 33554432\n"
    ++ bytes "[    8.999999] @@@ use cccccccc\n"
    ++ bytes "[    9.999999] @@@ create 11111111 16777216\n"
    ++ bytes "[   10.999999] @@@ add_usecnt 11111111\n"
    ++ bytes "dump\n"

-- What the dump shows: the buffers with their offsets, the most recently used one first.
abbrev offsets : Dump → List (ℕ × ℕ)
offsets dump = map (λ e. (e.name, e.offset)) dump.buffers

shown : Outcome (List (List (ℕ × ℕ)) × List Message × ℕ)
unfolding simulate
shown = do d ← simulate plain (stdin test_log); ok (map offsets d.output, d.errors, d.overflow)

-- The buffer eeeeeeee had to make room for 11111111, which took its place.
shown_lem :
    shown
    ≡ ok (
      ((0x11111111, 67108864) ∷ (0xcccccccc, 0) ∷ (0, 100663296) ∷ (0xffffffff, 33554432) ∷ [])
          ∷ [],
      [],
      0,
    )
unfolding shown
shown_lem = refl

-- A number that is too great, behind a minus; and the prefix of a hexadecimal number without digits.
negative_lem : scan_size (bytes "-99999999999999999999 x") ≡ some (u64_max, bytes " x")
unfolding scan_size
negative_lem = refl

prefix_lem : scan_hex (bytes "0x 5") ≡ some (0, bytes " 5")
unfolding scan_hex
prefix_lem = refl

-- The allocator as `main` starts it, and with one block of 8 KiB at its start.
abbrev head : Node
head = record cleared {
  mm = true;
  start = 134217728;
  size = 2 ^ 64 - 134217728;
  hole_size = 134217728;
}

abbrev empty_mm : Mm
empty_mm = record {
  color_adjust = none;
  node = update (update (λ _. cleared) 0 (record head { hole_size = 0 })) 0 head;
  node_list = [];
  hole_stack = 0 ∷ [];
  interval_tree = record { root = leaf; leftmost = none };
  subtree_last = λ _. 0;
  holes_size = record { root = fork Colour.red leaf 0 leaf; leftmost = some 0 };
  holes_addr = fork Colour.red leaf 0 leaf;
  scan_active = 0;
}

empty_mm_lem : init plain 0 pool_size ≡ ok empty_mm
unfolding init
empty_mm_lem = refl

abbrev block : Node
block = record cleared {
  mm = true;
  start = 0;
  size = 8192;
  hole_size = 134209536;
  allocated = true;
}

abbrev one_mm : Mm
one_mm = record empty_mm {
  node = update (update (λ _. cleared) 0 (record head { hole_size = 0 })) 1 block;
  node_list = 1 ∷ [];
}

one_mm-Listed : Listed one_mm
one_mm-Listed = record {
  distinct = (refl, (refl, tt));
  owned = λ n h. ground arith;
  allocated = λ n h. ground arith;
  unscanned = λ n h. ground arith;
}

one_mm-Plain : Plain one_mm
one_mm-Plain = record { color_adjust = refl; starts = λ n. ground arith }

-- A scan for 64 KiB.
abbrev scan : Scan
scan = record {
  size = 65536;
  alignment = 4096;
  remainder_mask = 4095;
  range_start = 0;
  range_end = pool_size;
  hit_start = u64_max;
  hit_end = 0;
  color = 0;
  mode = insert_best;
}

scan-Asks : Asks scan
scan-Asks = record {
  some_size = omega arith;
  alignment = omega arith;
  mask = refl;
  range_end = omega arith;
}

-- One buffer that waits for the pool, and data without any.
abbrev start_data : Data (drm_mm plain)
start_data = initial empty_mm

start_data-Good : Good start_data
start_data-Good = initial-Good empty_mm

abbrev waiting_data : Data (drm_mm plain)
waiting_data = created 7 8192 false start_data

waiting_data-Waiting : Waiting 1 waiting_data
unfolding find_buffer
waiting_data-Waiting = created-Waiting 7 8192 false start_data refl (omega arith) start_data-Good.0

page_in_buffer-Entered_example : Ensures (Entered 1 waiting_data) (page_in_buffer 1 waiting_data)
page_in_buffer-Entered_example = page_in_buffer-Entered 1 waiting_data waiting_data-Waiting

page_out_buffers-Evicted_example :
    Ensures (AfterEviction waiting_data) (page_out_buffers_for_insertion 8192 waiting_data)
page_out_buffers-Evicted_example =
    page_out_buffers-Evicted 8192 waiting_data waiting_data-Waiting.inv

perform-Performed_example :
    Ensures (Performed 7 waiting_data) (perform use_buffer 7 [] waiting_data)
perform-Performed_example = perform-Performed use_buffer 7 [] waiting_data waiting_data-Waiting.inv

process_line-Good_example :
    Ensures Good (process_line (bytes "[ 1.0] @@@ create cccccccc 8192\n") start_data)
process_line-Good_example =
    process_line-Good (bytes "[ 1.0] @@@ create cccccccc 8192\n") start_data start_data-Good

purge_idle_example :
    Ensures
      (λ d. userspace_cache_purge d ≡ ok d)
      (process_file
        (bytes "[ 1.0] @@@ create cccccccc 8192\n[ 2.0] @@@ madv cccccccc dontneed\n")
        start_data)
purge_idle_example =
    purge_idle (drm_mm plain) empty_mm
      (bytes "[ 1.0] @@@ create cccccccc 8192\n[ 2.0] @@@ madv cccccccc dontneed\n")

run_main-IsEmpty_example : Ensures IsEmpty (run_main {A = drm_mm plain} empty_mm (stdin test_log))
run_main-IsEmpty_example = run_main-IsEmpty (drm_mm plain) empty_mm (stdin test_log)

place-Fits_example : Fits 8192 4096 (0, 134217728) (5000, 100000) 8192
unfolding place
place-Fits_example =
    place-Fits 8192 4096 0 134217728 5000 100000 (omega arith) (omega arith) (omega arith) best 8192
      refl

place-Outermost_example : Outermost (high ≡ high) 8192 4096 (0, 134217728) (5000, 100000) 90112
unfolding place
place-Outermost_example =
    place-Outermost 8192 4096 0 134217728 5000 100000 (omega arith) (omega arith) (omega arith) high
      90112 refl

place-none_example : ¬ Fits 8192 4096 (0, 134217728) (5000, 16000) 8000
unfolding place
place-none_example =
    place-none 8192 4096 0 134217728 5000 16000 (omega arith) (omega arith) (omega arith) high 8000
      (omega arith) refl

scan_add_block-Added_example :
    (h : ℕ) × Returns (Added scan 1 h one_mm) (scan_add_block scan one_mm 1)
scan_add_block-Added_example =
    scan_add_block-Added scan 1 one_mm one_mm-Listed one_mm-Plain scan-Asks refl

one_mm-Unlinked : Unlinked 1 0 one_mm (unlink 0 1 one_mm)
one_mm-Unlinked = unlink-Unlinked 1 0 one_mm one_mm-Listed refl

scan_remove_block-Same_example :
    (v : Mm) × (scan_remove_block scan (unlink 0 1 one_mm) 1 ≡ ok (overlaps scan block, v))
    × Same one_mm v
scan_remove_block-Same_example =
    scan_remove_block-Same scan 1 0 one_mm (unlink 0 1 one_mm) one_mm-Listed one_mm-Unlinked

one_mm-Off : Off one_mm (unlink 0 1 one_mm) (1 ∷ [])
one_mm-Off = (one_mm, 0, Same-refl one_mm, one_mm-Listed, one_mm-Unlinked)

abbrev plain_buffers : ℕ → Buffer
plain_buffers _ = calloced

scan_buffers-Scanned_example :
    Returns
      (Scanned plain plain_buffers scan one_mm)
      (scan_buffers (drm_mm plain) plain_buffers (1 ∷ []) scan one_mm [])
scan_buffers-Scanned_example =
    scan_buffers-Scanned plain plain_buffers (1 ∷ []) scan one_mm one_mm [] (refl, tt) one_mm-Listed
      one_mm-Plain scan-Asks (λ q h e. h) (Same-refl one_mm)

clean_up-Same_example :
    Returns (Same one_mm) (clean_up (drm_mm plain) scan (1 ∷ []) (unlink 0 1 one_mm))
clean_up-Same_example = clean_up-Same plain scan one_mm (unlink 0 1 one_mm) (1 ∷ []) refl one_mm-Off

abbrev hit_scan : Scan
hit_scan = record scan { hit_start = 4096; hit_end = 69632 }

keep_hits-Kept_example :
    Returns
      (Kept plain hit_scan one_mm (1 ∷ []))
      (keep_hits (drm_mm plain) hit_scan (1 ∷ []) (unlink 0 1 one_mm))
keep_hits-Kept_example =
    keep_hits-Kept plain hit_scan one_mm (unlink 0 1 one_mm) (1 ∷ []) one_mm-Off
