-- ===== src/Pool.antt =====
-- test-drm-mm/main.c: its data, and the allocator calls that it makes.
pub mod Buffers
pub mod PageIn
pub mod Commands
pub mod Lines
pub mod Printing
pub mod Reading
pub mod Invariant
pub mod Eviction
pub mod Picking
pub mod Entering
pub mod Handlers
pub mod Perform
pub mod Shown
pub mod Session
use cma_pool_log.Base.{ℕ, ◌*◌, Bool, true, false, List, [], ◌∷◌, ◌++◌, Option, Outcome, update}
use cma_pool_log.Text.{Bytes}
use cma_pool_log.Mm.{InsertMode}

-- `VC4_CMA_POOL_SIZE` and `PAGE_SIZE`.
abbrev pub pool_size : ℕ
pool_size = 128 * 1024 * 1024

abbrev pub page_size : ℕ
page_size = 4096

pub data Madv : Type 0 where
  willneed dontneed : Madv

-- The calls of drm_mm that the pool makes. A node goes by the pointer of the buffer that it stands
-- in; `clear` is what `calloc` does to it, and `start_of` reads `mm_node.start`.
pub record Allocator : Type 1 where
  pub State : Type 0
  pub Scan : Type 0
  pub clear : ℕ → State → State
  pub start_of : State → ℕ → ℕ
  pub insert : State → ℕ → ℕ → ℕ → ℕ → InsertMode → Outcome (Bool × State)
  pub remove_node : ℕ → State → Outcome State
  pub scan_init : State → ℕ → ℕ → ℕ → ℕ → ℕ → InsertMode → Outcome Scan
  pub add_block : Scan → State → ℕ → Outcome (Bool × Scan × State)
  pub remove_block : Scan → State → ℕ → Outcome (Bool × State)
  pub clean : State → Bool

-- `struct buffer`, without its links and its node.
pub record Buffer : Type 0 where
  pub name : ℕ
  pub paged_in : Bool
  pub unmoveable : Bool
  pub in_use : Bool
  pub madv : Madv
  pub size : ℕ

abbrev pub calloced : Buffer
calloced = record {
  name = 0;
  paged_in = false;
  unmoveable = false;
  in_use = false;
  madv = willneed;
  size = 0;
}

-- What is printed to stderr, with the values that the format shows. A `%*s` shows the whole text
-- from where the word begins, as the number before it is a width and not a precision.
pub data Message : Type 0 where
  unknown_buffer : (line name : ℕ) → Message
  no_insertion_point : (size : ℕ) → Message
  unexpected_args : (line : ℕ) → Message
  already_in_use : (line name : ℕ) → Message
  not_in_use : (line name : ℕ) → Message
  already_exists : (line name : ℕ) → Message
  bad_buffer_size : (line : ℕ) → Message
  invalid_madv : (line : ℕ) → Bytes → Message
  invalid_address : (line : ℕ) → Message
  unknown_command : Bytes → (line : ℕ) → Message
  no_file : (filename : Bytes) → Message
  not_clean : Message

-- One element of the array that `dump_data` prints, and all of it.
pub record Entry : Type 0 where
  pub name : ℕ
  pub size : ℕ
  pub unmoveable : Bool
  pub in_use : Bool
  pub madv : Madv
  pub offset : ℕ

pub record Dump : Type 0 where
  pub overflow : ℕ
  pub buffers : List Entry

-- `struct data`, with the buffers by their pointers, the pointer that `calloc` returns next, and
-- what has been printed, the oldest first.
pub record Data (A : Allocator) : Type 0 where
  pub all_buffers : List ℕ
  pub mru_buffers : List ℕ
  pub buffer : ℕ → Buffer
  pub mm : A.State
  pub line_num : ℕ
  pub overflow : ℕ
  pub next_pointer : ℕ
  pub errors : List Message
  pub output : List Dump

module _ {A : Allocator} where
  abbrev pub report : Message → Data A → Data A
  report e d = record d { errors = d.errors ++ e ∷ [] }

  -- An assignment to fields of the buffer at `p`.
  abbrev pub put : ℕ → Buffer → Data A → Data A
  put p b d = record d { buffer = update d.buffer p b }
