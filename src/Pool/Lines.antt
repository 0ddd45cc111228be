-- ===== src/Pool/Lines.antt =====
-- test-drm-mm/main.c: from the text of the log to the commands, `dump_data`, and `main`.
use cma_pool_log.Base.{
  ℕ, suc, Option, none, some, List, [], ◌∷◌, ◌++◌, map, if◌then◌else◌, Outcome, ok, ◌>>=◌,
}
use cma_pool_log.Text.{
  Bytes, bytes, split_space, scan_hex, skip_spaces, same_bytes, after_marker, strip_prefix,
  all_spaces, fgets_all,
}
use cma_pool_log.Pool.{
  Allocator, calloced, Data, Entry, invalid_address, unknown_command, no_file, not_clean, report,
}
use cma_pool_log.Pool.Buffers.{free_buffers}
use cma_pool_log.Pool.Commands.{
  buf_destroy, buf_add_usecnt, buf_remove_usecnt, buf_create, buf_use, buf_madv,
}

pub data Command : Type 0 where
  destroy add_usecnt remove_usecnt create use_buffer madv : Command

abbrev pub commands : List (Bytes × Command)
commands =
    (bytes "destroy", destroy)
    ∷ (bytes "add_usecnt", add_usecnt)
    ∷ (bytes "remove_usecnt", remove_usecnt)
    ∷ (bytes "create", create)
    ∷ (bytes "use", use_buffer)
    ∷ (bytes "madv", madv)
    ∷ []

unfoldable pub find_command : List (Bytes × Command) → Bytes → Option Command
unfolding same_bytes
find_command [] word = none
find_command ((name, c) ∷ rest) word =
    if same_bytes name word then some c else find_command rest word

-- Where the log comes from: the file that the first argument names, or the standard input.
pub data Input : Type 0 where
  named : (filename : Bytes) (opened : Option Bytes) → Input
  stdin : (file : Bytes) → Input

module _ {A : Allocator} where
  unfoldable pub perform : Command → ℕ → Bytes → Data A → Outcome (Data A)
  unfolding buf_destroy buf_add_usecnt buf_remove_usecnt buf_create buf_use buf_madv
  perform destroy name args d = buf_destroy name args d
  perform add_usecnt name args d = buf_add_usecnt name args d
  perform remove_usecnt name args d = buf_remove_usecnt name args d
  perform create name args d = buf_create name args d
  perform use_buffer name args d = buf_use name args d
  perform madv name args d = buf_madv name args d

  unfoldable pub process_command : Bytes → Data A → Outcome (Data A)
  unfolding perform find_command split_space scan_hex skip_spaces
  process_command text d = elim (split_space text) [
    | none ↦ ok d
    | some (word, args) ↦ elim (scan_hex args) [
      | none ↦ ok (report (invalid_address d.line_num) d)
      | some (name, rest) ↦ elim (find_command commands word) [
        | none ↦ ok (report (unknown_command text d.line_num) d)
        | some c ↦ perform c name (skip_spaces rest) d
      ]
    ]
  ]

  abbrev pub entry_of : Data A → ℕ → Entry
  entry_of d p = record {
    name = (d.buffer p).name;
    size = (d.buffer p).size;
    unmoveable = (d.buffer p).unmoveable;
    in_use = (d.buffer p).in_use;
    madv = (d.buffer p).madv;
    offset = A.start_of d.mm p;
  }

  unfoldable pub dump_data : Data A → Data A
  dump_data d = record d {
    output =
        d.output ++ record { overflow = d.overflow; buffers = map (entry_of d) d.mru_buffers } ∷ [];
  }

  unfoldable pub process_line : Bytes → Data A → Outcome (Data A)
  unfolding process_command dump_data after_marker skip_spaces strip_prefix all_spaces
  process_line line d = elim (after_marker (bytes "] @@@ ") line) [
    | some text ↦ process_command text d
    | none ↦ elim (strip_prefix (bytes "dump") (skip_spaces line)) [
      | none ↦ ok d
      | some rest ↦ ok (if all_spaces rest then dump_data d else d)
    ]
  ]

  unfoldable pub process_lines : List Bytes → Data A → Outcome (Data A)
  unfolding process_line
  process_lines [] d = ok d
  process_lines (line ∷ lines) d = do
    d' ← process_line line d
    process_lines lines (record d' { line_num = suc d'.line_num })

  unfoldable pub process_file : Bytes → Data A → Outcome (Data A)
  unfolding process_lines fgets_all
  process_file file d = process_lines (fgets_all file) (record d { line_num = 1 })

  -- The state that `main` sets up, over a fresh allocator. Pointers begin behind the null pointer.
  abbrev pub initial : A.State → Data A
  initial mm = record {
    all_buffers = [];
    mru_buffers = [];
    buffer = λ _. calloced;
    mm = mm;
    line_num = 0;
    overflow = 0;
    next_pointer = 1;
    errors = [];
    output = [];
  }

  -- What `fopen` makes of the name is given: the text of the file, or nothing where it fails.
  unfoldable pub process_filename : Bytes → Option Bytes → Data A → Outcome (Data A)
  unfolding process_file
  process_filename filename none d = ok (report (no_file filename) d)
  process_filename filename (some file) d = process_file file d

  abbrev pub process_input : Input → Data A → Outcome (Data A)
  process_input (named filename opened) d = process_filename filename opened d
  process_input (stdin file) d = process_file file d

  -- `main`. The warning of drm_mm_takedown goes to stderr as well.
  unfoldable pub run_main : A.State → Input → Outcome (Data A)
  unfolding process_file process_filename free_buffers
  run_main mm input = do
    d ← process_input input (initial mm)
    d' ← free_buffers d
    ok (if A.clean d'.mm then d' else report not_clean d')
