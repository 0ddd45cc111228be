-- ===== src/Simulator.antt =====
-- test-drm-mm as it is linked: main.c over drm_mm.c.
pub mod Rollback
pub mod Hitting
pub mod Linked
pub mod Room
pub mod Running
pub mod Vacating
pub mod Emptying
pub mod Making
pub mod Answering
pub mod Deciding
pub mod Aborting
pub mod Serving
pub mod Whole
pub mod Arranged
pub mod Shown
use cma_pool_log.Base.{ℕ, Outcome, ok, abort, no_fuel, ◌>>=◌}
use cma_pool_log.Rbtree.{Balancing}
use cma_pool_log.Text.{Bytes}
use cma_pool_log.Mm.{Mm, Scan, cleared, write, clean}
use cma_pool_log.Mm.Holes.{init}
use cma_pool_log.Mm.Insert.{insert_node_generic}
use cma_pool_log.Mm.Remove.{remove_node}
use cma_pool_log.Mm.Roster.{scan_init_with_range, scan_add_block, scan_remove_block}
use cma_pool_log.Pool.{Allocator, Data, pool_size}
use cma_pool_log.Pool.Lines.{Input, run_main}

abbrev pub drm_mm : Balancing → Allocator
drm_mm rb = record {
  State = Mm;
  Scan = Scan;
  clear = λ p m. write m p cleared;
  start_of = λ m p. (m.node p).start;
  insert = insert_node_generic rb;
  remove_node = remove_node rb;
  scan_init = scan_init_with_range;
  add_block = scan_add_block;
  remove_block = scan_remove_block;
  clean = clean;
}

module _ (rb : Balancing) where
  unfoldable pub simulate : Input → Outcome (Data (drm_mm rb))
  unfolding run_main init insert_node_generic remove_node scan_init_with_range scan_add_block
      scan_remove_block clean
  simulate input = do mm ← init rb 0 pool_size; run_main mm input
