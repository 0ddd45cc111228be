-- ===== src/Mm.antt =====
-- test-drm-mm/drm/drm_mm.h: the allocator's data, and the helpers that the header defines.
pub mod Interval
pub mod Holes
pub mod FindHole
pub mod Insert
pub mod Remove
pub mod Roster
pub mod Sorting
pub mod Index
pub mod BestFit
pub mod Seek
pub mod Layout
pub mod Occupying
pub mod Inserting
pub mod Allocating
pub mod Starting
pub mod Removing
pub mod Apart
pub mod Laid
pub mod Gaps
pub mod Around
pub mod Complete
pub mod Contract
pub mod Refining
pub mod Refusing
pub mod Replaced
pub mod Print
pub mod Printed
pub mod Returning
pub mod Renaming
pub mod Handing
pub mod Mirroring
pub mod Mirrored
pub mod Range
pub mod Ranging
pub mod Reserving
pub mod Place
pub mod Extreme
pub mod Rollback
pub mod Scanning
use cma_pool_log.Base.{
  ℕ, ◌≡◌, Bool, true, false, not, Option, none, some, List, [], ◌∷◌, ◌==◌, if◌then◌else◌, add64,
  update, after, before, head?, get_or,
}
use cma_pool_log.Rbtree.{Tree, Cached, empty_cached}

-- `enum drm_mm_insert_mode`: the way to search, and the bit DRM_MM_INSERT_ONCE.
pub data Search : Type 0 where
  best low high evict : Search

pub record InsertMode : Type 0 where
  pub search : Search
  pub once : Bool

abbrev pub insert_best : InsertMode
insert_best = record { search = best; once = false }

abbrev pub insert_high : InsertMode
insert_high = record { search = high; once = false }

abbrev pub insert_evict : InsertMode
insert_evict = record { search = evict; once = false }

-- `struct drm_mm_node`. The links of a node are kept in the lists and trees of `Mm`, by its pointer;
-- `mm` says whether the pointer of that name is to this allocator, the only one of the model; and
-- `prev` and `next` are the links that drm_mm_scan_add_block leaves in a node taken off the list.
pub record Node : Type 0 where
  pub color : ℕ
  pub start : ℕ
  pub size : ℕ
  pub hole_size : ℕ
  pub mm : Bool
  pub allocated : Bool
  pub scanned_block : Bool
  pub prev : ℕ
  pub next : ℕ

-- A node cleared to 0.
abbrev pub cleared : Node
cleared = record {
  color = 0;
  start = 0;
  size = 0;
  hole_size = 0;
  mm = false;
  allocated = false;
  scanned_block = false;
  prev = 0;
  next = 0;
}

-- `struct drm_mm`. The pointer 0 stands for `&mm->head_node`, which heads `node_list`.
pub record Mm : Type 0 where
  pub color_adjust : Option (ℕ → ℕ → ℕ × ℕ → ℕ × ℕ)
  pub node : ℕ → Node
  pub node_list : List ℕ
  pub hole_stack : List ℕ
  pub interval_tree : Cached
  pub subtree_last : ℕ → ℕ
  pub holes_size : Cached
  pub holes_addr : Tree
  pub scan_active : ℕ

-- `struct drm_mm_scan`.
pub record Scan : Type 0 where
  pub size : ℕ
  pub alignment : ℕ
  pub remainder_mask : ℕ
  pub range_start : ℕ
  pub range_end : ℕ
  pub hit_start : ℕ
  pub hit_end : ℕ
  pub color : ℕ
  pub mode : InsertMode

abbrev pub head_node : ℕ
head_node = 0

-- The list as the code walks it round: the head, then the nodes.
abbrev pub ring : Mm → List ℕ
ring m = head_node ∷ m.node_list

-- `list_next_entry(node, node_list)`: behind the last node the head comes again.
abbrev pub next_node : Mm → ℕ → ℕ
next_node m n = get_or (after n (ring m)) head_node

-- `list_prev_entry(node, node_list)`, of a node on the list.
abbrev pub prev_node : Mm → ℕ → ℕ
prev_node m n = get_or (before n (ring m)) head_node

-- `drm_mm_hole_follows`.
unfoldable pub hole_follows : Mm → ℕ → Bool
hole_follows m n = not ((m.node n).hole_size == 0)

-- `__drm_mm_hole_node_start` and `__drm_mm_hole_node_end`.
abbrev pub hole_node_start : Mm → ℕ → ℕ
hole_node_start m n = add64 (m.node n).start (m.node n).size

abbrev pub hole_node_end : Mm → ℕ → ℕ
hole_node_end m n = (m.node (next_node m n)).start

-- `drm_mm_node_allocated` and `drm_mm_clean`.
unfoldable pub node_allocated : Mm → ℕ → Bool
node_allocated m n = (m.node n).allocated

unfoldable pub clean : Mm → Bool
clean m = elim m.node_list [ [] ↦ true | _ ↦ false ]

-- An assignment to fields of the node at `n`.
abbrev pub write : Mm → ℕ → Node → Mm
write m n v = record m { node = update m.node n v }
