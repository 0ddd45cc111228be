-- ===== src/Lib.antt =====
-- A model of test-drm-mm, the simulator of a pool of contiguous memory: a program that reads a
-- kernel log of buffer operations, plays them on a pool that drm_mm manages, and prints where the
-- buffers lie.
--
-- The parts and their files
--   test-drm-mm/main.c is under Pool. Pool.antt has `struct data` and `struct buffer`: buffers go by
--   pointers, which are numbers, and both lists of buffers are lists of pointers. Buffers.antt has
--   find_buffer to free_buffers and insert_buffer_in_cma_pool, PageIn.antt has
--   page_out_buffers_for_insertion, userspace_cache_purge and page_in_buffer, Commands.antt the six
--   handlers, Lines.antt process_command, process_line, process_file, dump_data and main, and
--   Printing.antt the text that dump_data prints. The C library's functions that they call are in
--   Text.antt and Text/Printf.antt.
--   test-drm-mm/drm_mm.c and test-drm-mm/drm/drm_mm.h are under Mm: Mm.antt has the structures and
--   inline functions, Holes.antt add_hole, rm_hole and drm_mm_init, FindHole.antt the searches for a
--   hole, Insert.antt drm_mm_reserve_node and drm_mm_insert_node_in_range, Remove.antt removal and
--   replacement, Roster.antt the eviction scan, Print.antt drm_mm_print, Interval.antt the interval
--   tree, and Range.antt the iterator over a range.
--   Rbtree.antt has the shape of the trees. What test-drm-mm/rbtree.c does to balance them is a
--   parameter, the record `Balancing`, of which the order of the entries is known. So is the search of
--   the interval tree, where it is used, with what its documentation says that it finds.
--   The other files of each folder hold proofs and are named for what they prove.
--
-- How the parts meet
--   The code of main.c calls drm_mm through the record `Allocator` of Pool.antt, so what is shown of
--   it by `module _ {A : Allocator}` holds with any allocator. Simulator.antt fills the record with
--   drm_mm, and the files under it are about the program as it is linked: Rollback, Room and Running
--   about paging in and out, Hitting, Vacating, Emptying, Making, Answering and Deciding about
--   whether room is found just if there is some, Serving about the commands, Aborting about sizes
--   that end the program, Whole about a run from beginning to end, Arranged about where the buffers
--   lie, and Shown about the dumps that a run prints.
--   The invariants are `Inv` of Pool/Invariant.antt for main.c, `Tidy` of Mm/Layout.antt for drm_mm.c,
--   and `Linked` of Simulator/Linked.antt for both together.
--   An allocator is called in order if it is `Tidy`, which includes that it has no color_adjust, as in
--   main.c, which sets none.
--   What drm_mm promises is stated in Mm/Contract.antt without its lists and trees, as steps from one
--   set of blocks and addresses to another, and the pool's answers are measured by that.
--
-- State, errors and numbers
--   A function that changes state takes it and returns it. The result type `Outcome` of Base/Result
--   is `ok`, or `abort` where an assertion of the source fails (BUG_ON and DRM_MM_BUG_ON are assert
--   in this build), or `no_fuel`. `Ensures P r` says that P holds of the result if r is one, and
--   `Returns P r` also that r is one.
--   Numbers are unbounded, and the code's u64 and size_t arithmetic is written with its wrap-around,
--   as add64 and sub64; `line_num` of main.c, an int that only messages show, has no bound. A pointer
--   is a number that calloc never returns twice; 0 stands for the head of the allocator's list. There
--   is one allocator, and the pointer `mm` of a node is to it or not.
--   The loops on fuel are `hole_loop`, which looks at each hole once and sees then that there are
--   no more, with the number of holes and two as its fuel, and `range_loop`, which does so with the
--   blocks. All other loops are structural.
--
-- Not modelled
--   The text of the messages to stderr, which are kept as values. NUL bytes in the log. Memory that
--   calloc cannot give. Stack traces, which the configuration leaves out. That the last addresses
--   kept in the interval tree are right, which only the search of that tree needs and the program
--   never does. test-drm-mm/linux and test-drm-mm/asm are copies of kernel headers.
--   cma-pool-log.py is another program.
pub mod Base
pub mod Rbtree
pub mod Mm
pub mod Text
pub mod Pool
pub mod Simulator
pub mod Tests
