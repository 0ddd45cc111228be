-- ===== src/Simulator/Whole.antt =====
-- test-drm-mm as a whole: a log whose sizes fit is played to its end.
use cma_pool_log.Base.{
  ℕ, suc, ◌≡◌, refl, ap, ◌∙◌, inl, inr, Bool, true, false, ◌&&◌, none, some, List, [], ◌∷◌, arith,
  has, Returns, Returns-mono, bind-Returns, both-Returns, Bool-cases, Option-cases,
}
use cma_pool_log.Rbtree.{Balancing}
use cma_pool_log.Text.{
  Bytes, bytes, split_space, scan_hex, scan_size, skip_spaces, after_marker, strip_prefix,
  all_spaces, fgets_all,
}
use cma_pool_log.Mm.{head_node, Mm, clean}
use cma_pool_log.Mm.Holes.{init}
use cma_pool_log.Mm.Layout.{Tidy}
use cma_pool_log.Mm.Starting.{Started, init-Tidy}
use cma_pool_log.Pool.{Data, Dump, Message, pool_size}
use cma_pool_log.Pool.Buffers.{free_buffer, free_each, free_buffers}
use cma_pool_log.Pool.Lines.{
  commands, find_command, process_command, dump_data, process_line, process_lines, process_file,
  Input, named, stdin, process_filename, process_input, initial, run_main,
}
use cma_pool_log.Pool.Handlers.{Freed, free_buffer-Freed}
use cma_pool_log.Pool.Session.{IsEmpty, initial-Good, run_main-IsEmpty}
use cma_pool_log.Simulator.{drm_mm, simulate}
use cma_pool_log.Simulator.Linked.{Linked}
use cma_pool_log.Simulator.Running.{report-Linked}
use cma_pool_log.Simulator.Serving.{args_fit, free_buffer-Linked, perform-Linked}

-- Whether a line gives no size for a new buffer but one that fits.
unfoldable pub command_fits : Bytes → Bool
unfolding split_space scan_hex skip_spaces find_command scan_size
command_fits text = elim (split_space text) [
  | none ↦ true
  | some (word, args) ↦ elim (scan_hex args) [
    | none ↦ true
    | some (name, rest) ↦ elim (find_command commands word) [
      | none ↦ true
      | some c ↦ args_fit c (skip_spaces rest)
    ]
  ]
]

unfoldable pub line_fits : Bytes → Bool
unfolding after_marker command_fits
line_fits line = elim (after_marker (bytes "] @@@ ") line) [
  | none ↦ true
  | some text ↦ command_fits text
]

unfoldable pub lines_fit : List Bytes → Bool
unfolding line_fits
lines_fit [] = true
lines_fit (line ∷ lines) = line_fits line && lines_fit lines

unfoldable pub input_fits : Input → Bool
unfolding lines_fit fgets_all
input_fits (named filename none) = true
input_fits (named filename (some file)) = lines_fit (fgets_all file)
input_fits (stdin file) = lines_fit (fgets_all file)

pub both_true : (a b : Bool) → (a && b) ≡ true → (a ≡ true) × (b ≡ true)
both_true a b h = ground arith

module _ (rb : Balancing) where
  process_command-Linked :
      (text : Bytes) (d : Data (drm_mm rb))
      → command_fits text ≡ true
      → Linked rb d
      → Returns (Linked rb) (process_command text d)
  unfolding process_command command_fits
  process_command-Linked text d fits l = elim (Option-cases (split_space text)) [
    | inl e ↦ rw (e, process_command) l
    | inr ((word, args), e) ↦
        let fits' = rw (e, command_fits) at fits in
        rw (e, process_command)
          (elim (Option-cases (scan_hex args)) [
            | inl f ↦ rw f (report-Linked rb _ d l)
            | inr ((name, rest), f) ↦
                let fits'' = rw f at fits' in
                rw f (elim (Option-cases (find_command commands word)) [
                  | inl g ↦ rw g (report-Linked rb _ d l)
                  | inr (c, g) ↦
                      rw g (perform-Linked rb c name (skip_spaces rest) d (rw g at fits'') l)
                ])
          ])
  ]

  -- What is printed, and the number of the line, have no part in the link.
  pub noted-Linked :
      (d : Data (drm_mm rb)) (k : ℕ) (errors : List Message) (output : List Dump)
      → Linked rb d
      → Linked rb (record d { line_num = k; errors = errors; output = output })
  noted-Linked d k errors output l = record {
    inv = record {
      distinct_all = l.inv.distinct_all;
      distinct_mru = l.inv.distinct_mru;
      allocated = l.inv.allocated;
      in_pool = l.inv.in_pool;
      named = l.inv.named;
      sized = l.inv.sized;
      accounted = l.inv.accounted;
    };
    tidy = l.tidy;
    placed = l.placed;
    blocks = l.blocks;
    pool_end = l.pool_end;
    some_pointer = l.some_pointer;
    not_null = l.not_null;
    sizes = l.sizes;
  }

  dump-Linked : (d : Data (drm_mm rb)) → Linked rb d → Linked rb (dump_data d)
  unfolding dump_data
  dump-Linked d l = noted-Linked d d.line_num d.errors _ l

  pub process_line-Linked :
      (line : Bytes) (d : Data (drm_mm rb))
      → line_fits line ≡ true
      → Linked rb d
      → Returns (Linked rb) (process_line line d)
  unfolding process_line line_fits
  process_line-Linked line d fits l = elim (Option-cases (after_marker (bytes "] @@@ ") line)) [
    | inr (text, e) ↦
        rw (e, process_line) (process_command-Linked text d (rw (e, line_fits) at fits) l)
    | inl e ↦
        rw (e, process_line)
          (elim (Option-cases (strip_prefix (bytes "dump") (skip_spaces line))) [
            | inl f ↦ rw f l
            | inr (rest, f) ↦ rw f (elim (Bool-cases (all_spaces rest)) [
              | inl g ↦ rw g (dump-Linked d l)
              | inr g ↦ rw g l
            ])
          ])
  ]

  pub process_lines-Linked :
      (lines : List Bytes) (d : Data (drm_mm rb))
      → lines_fit lines ≡ true
      → Linked rb d
      → Returns (Linked rb) (process_lines lines d)
  unfolding process_lines lines_fit
  process_lines-Linked [] d fits l = l
  process_lines-Linked (line ∷ lines) d fits l =
      let (one, rest) = both_true (line_fits line) (lines_fit lines) fits in
      bind-Returns (Linked rb) (Linked rb) (process_line line d) _
        (process_line-Linked line d one l)
        λ e k.
          process_lines-Linked lines _ rest (noted-Linked e (suc e.line_num) e.errors e.output k)

  pub initial-Linked :
      (mm : Mm)
      → Tidy mm
      → mm.node_list ≡ []
      → (mm.node head_node).start ≡ pool_size
      → Linked rb (initial {A = drm_mm rb} mm)
  initial-Linked mm t none_yet ends = record {
    inv = (initial-Good {A = drm_mm rb} mm).0;
    tidy = t;
    placed = λ p. ap (has p) none_yet;
    blocks = λ p h. cc;
    pool_end = ends;
    some_pointer = omega arith;
    not_null = refl;
    sizes = λ p h. cc;
  }

  pub process_input-Linked :
      (input : Input) (d : Data (drm_mm rb))
      → input_fits input ≡ true
      → Linked rb d
      → Returns (Linked rb) (process_input input d)
  unfolding process_filename process_file input_fits
  process_input-Linked (named filename none) d fits l = report-Linked rb _ d l
  process_input-Linked (named filename (some file)) d fits l =
      process_lines-Linked (fgets_all file) _ fits (noted-Linked d 1 d.errors d.output l)
  process_input-Linked (stdin file) d fits l =
      process_lines-Linked (fgets_all file) _ fits (noted-Linked d 1 d.errors d.output l)

  abbrev pub AllFreed : Data (drm_mm rb) → Type 0
  AllFreed e = Linked rb e × (e.all_buffers ≡ [])

  pub free_each-AllFreed :
      (ps : List ℕ) (d : Data (drm_mm rb))
      → d.all_buffers ≡ ps
      → Linked rb d
      → Returns AllFreed (free_each ps d)
  unfolding free_each
  free_each-AllFreed [] d same l = (l, same)
  free_each-AllFreed (p ∷ ps) d same l =
      let known : has p d.all_buffers ≡ true = ground (arith, same) in
      bind-Returns (λ e. Linked rb e × Freed p d e) AllFreed (free_buffer p d) _
        (both-Returns (Linked rb) (Freed p d) _ (free_buffer-Linked rb p d known l)
          (free_buffer-Freed p d known l.inv))
        λ e (k, (f, left)). free_each-AllFreed ps e (ground (arith, left, same)) k

  all_absent : (l : List ℕ) → ((p : ℕ) → has p l ≡ false) → l ≡ []
  all_absent [] h = refl
  all_absent (x ∷ l) h = ground (arith, h x)

  -- The end of a run: no buffer is left, and nothing in the pool.
  abbrev pub IsOver : Data (drm_mm rb) → Type 0
  IsOver e = IsEmpty e × ((e.mm).node_list ≡ [])

  AllFreed-cleared : (e : Data (drm_mm rb)) → AllFreed e → (e.mm).node_list ≡ []
  AllFreed-cleared e (l, left) =
      all_absent (e.mm).node_list
        λ p. l.placed p ∙ l.inv.in_pool p ∙ ap (λ k. has p k && (e.buffer p).paged_in) left

  run_main-cleared :
      (mm : Mm) (input : Input)
      → input_fits input ≡ true
      → Linked rb (initial {A = drm_mm rb} mm)
      → Returns (λ e. (e.mm).node_list ≡ []) (run_main {A = drm_mm rb} mm input)
  unfolding run_main free_buffers clean
  run_main-cleared mm input fits l =
      bind-Returns (Linked rb) (λ e. (e.mm).node_list ≡ [])
        (process_input input (initial {A = drm_mm rb} mm)) _ (process_input-Linked input _ fits l)
        λ d k.
          bind-Returns AllFreed (λ e. (e.mm).node_list ≡ []) (free_each d.all_buffers d) _
            (free_each-AllFreed d.all_buffers d refl k) λ e a. rw (AllFreed-cleared e a) refl

  -- The whole program, on a log that gives no size for a new buffer but one that is neither 0 nor
  -- larger than the pool: it comes to its end, no assertion of main.c or drm_mm.c fails and no loop
  -- goes on for ever. At its end every buffer is freed, the overflow is 0 and the pool is empty.
  pub simulate-IsOver :
      (input : Input) → input_fits input ≡ true → Returns IsOver (simulate rb input)
  unfolding simulate
  simulate-IsOver input fits =
      bind-Returns (Started rb pool_size) IsOver (init rb 0 pool_size)
        (λ mm. run_main {A = drm_mm rb} mm input)
        (init-Tidy rb 0 pool_size (omega arith) (omega arith))
        λ mm (t, none_yet, ends).
          Returns-mono (λ e. ((e.mm).node_list ≡ []) × IsEmpty e) IsOver
            (run_main {A = drm_mm rb} mm input)
            (both-Returns (λ e. (e.mm).node_list ≡ []) IsEmpty (run_main {A = drm_mm rb} mm input)
              (run_main-cleared mm input fits (initial-Linked mm t none_yet ends))
              (run_main-IsEmpty (drm_mm rb) mm input))
            λ e (a, b). (b, a)
