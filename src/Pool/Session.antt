-- ===== src/Pool/Session.antt =====
-- test-drm-mm/main.c: whole logs, from the first line to the end of `main`.
use cma_pool_log.Base.{
  ℕ, suc, ◌≡◌, refl, inl, inr, false, none, some, List, [], ◌∷◌, arith, has, ok, Ensures,
  bind-Ensures, Ensures-mono, Bool-cases, Option-cases,
}
use cma_pool_log.Text.{
  Bytes, bytes, split_space, scan_hex, skip_spaces, after_marker, strip_prefix, all_spaces,
  fgets_all,
}
use cma_pool_log.Pool.{Allocator, Data, no_file, not_clean, report}
use cma_pool_log.Pool.Buffers.{free_buffer, free_each, free_buffers}
use cma_pool_log.Pool.PageIn.{purge_each, userspace_cache_purge}
use cma_pool_log.Pool.Lines.{
  Command, commands, find_command, perform, process_command, dump_data, process_line, process_lines,
  process_file, Input, named, stdin, process_filename, process_input, initial, run_main,
}
use cma_pool_log.Pool.Invariant.{Inv, report-Inv}
use cma_pool_log.Pool.Handlers.{AllNeeded, Performed, Freed, free_buffer-Freed}
use cma_pool_log.Pool.Perform.{perform-Performed}

module _ {A : Allocator} where
  -- What holds between any two lines.
  abbrev pub Good : Data A → Type 0
  Good d = Inv d × AllNeeded d

  perform-Good :
      (c : Command) (name : ℕ) (args : Bytes) (d : Data A)
      → Good d
      → Ensures Good (perform c name args d)
  perform-Good c name args d (v, n) =
      Ensures-mono (Performed name d) Good (perform c name args d)
        (perform-Performed c name args d v) λ e p. (p.inv, p.advice n)

  process_command-Good :
      (text : Bytes) (d : Data A) → Good d → Ensures Good (process_command text d)
  unfolding process_command
  process_command-Good text d v = elim (Option-cases (split_space text)) [
    | inl e ↦ rw (e, process_command) v
    | inr ((word, args), e) ↦
        rw (e, process_command)
          (elim (Option-cases (scan_hex args)) [
            | inl f ↦ rw f (report-Inv _ d v.0, v.1)
            | inr ((name, rest), f) ↦ rw f (elim (Option-cases (find_command commands word)) [
              | inl g ↦ rw g (report-Inv _ d v.0, v.1)
              | inr (c, g) ↦ rw g (perform-Good c name (skip_spaces rest) d v)
            ])
          ])
  ]

  dump-Good : (d : Data A) → Good d → Good (dump_data d)
  unfolding dump_data
  dump-Good d (v, n) = (
    record {
      distinct_all = v.distinct_all;
      distinct_mru = v.distinct_mru;
      allocated = v.allocated;
      in_pool = v.in_pool;
      named = v.named;
      sized = v.sized;
      accounted = v.accounted;
    },
    n,
  )

  -- Every line of the log whose processing no assertion cuts off keeps the invariant, and every
  -- buffer's advice `willneed`, whatever the line says and whatever the allocator answers.
  pub process_line-Good : (line : Bytes) (d : Data A) → Good d → Ensures Good (process_line line d)
  unfolding process_line
  process_line-Good line d v = elim (Option-cases (after_marker (bytes "] @@@ ") line)) [
    | inr (text, e) ↦ rw (e, process_line) (process_command-Good text d v)
    | inl e ↦
        rw (e, process_line)
          (elim (Option-cases (strip_prefix (bytes "dump") (skip_spaces line))) [
            | inl f ↦ rw f v
            | inr (rest, f) ↦ rw f (elim (Bool-cases (all_spaces rest)) [
              | inl g ↦ rw g (dump-Good d v)
              | inr g ↦ rw g v
            ])
          ])
  ]

  numbered-Good : (d : Data A) (k : ℕ) → Good d → Good (record d { line_num = k })
  numbered-Good d k (v, n) = (
    record {
      distinct_all = v.distinct_all;
      distinct_mru = v.distinct_mru;
      allocated = v.allocated;
      in_pool = v.in_pool;
      named = v.named;
      sized = v.sized;
      accounted = v.accounted;
    },
    n,
  )

  process_lines-Good :
      (lines : List Bytes) (d : Data A) → Good d → Ensures Good (process_lines lines d)
  unfolding process_lines
  process_lines-Good [] d v = v
  process_lines-Good (line ∷ lines) d v =
      bind-Ensures Good Good (process_line line d) _ (process_line-Good line d v)
        λ e u. process_lines-Good lines _ (numbered-Good e (suc e.line_num) u)

  pub initial-Good : (mm : A.State) → Good (initial {A = A} mm)
  initial-Good mm = (
    record {
      distinct_all = tt;
      distinct_mru = tt;
      allocated = λ p h. cc;
      in_pool = λ p. refl;
      named = λ p q h. cc;
      sized = λ p. omega arith;
      accounted = refl;
    },
    λ p. refl,
  )

  process_file-Good : (file : Bytes) (d : Data A) → Good d → Ensures Good (process_file file d)
  unfolding process_file
  process_file-Good file d v = process_lines-Good (fgets_all file) _ (numbered-Good d 1 v)

  pub purge_each-needed : (l : List ℕ) (d : Data A) → AllNeeded d → purge_each l d ≡ ok d
  unfolding purge_each
  purge_each-needed [] d n = refl
  purge_each-needed (p ∷ ps) d n = rw (n p, purge_each) (purge_each-needed ps d n)

  free_each-empty :
      (l : List ℕ) (d : Data A)
      → d.all_buffers ≡ l
      → Inv d
      → Ensures (λ e. Inv e × (e.all_buffers ≡ [])) (free_each l d)
  unfolding free_each
  free_each-empty [] d same v = (v, same)
  free_each-empty (p ∷ ps) d same v =
      bind-Ensures (Freed p d) (λ e. Inv e × (e.all_buffers ≡ [])) (free_buffer p d) _
        (free_buffer-Freed p d (ground arith) v)
        λ e (f, left). free_each-empty ps e (ground arith) f.inv

  -- What is left at the end of `main`.
  abbrev pub IsEmpty : Data A → Type 0
  IsEmpty d = (d.all_buffers ≡ []) × (d.overflow ≡ 0) × ((p : ℕ) → has p d.mru_buffers ≡ false)

  Inv-IsEmpty : (d : Data A) → Inv d → d.all_buffers ≡ [] → IsEmpty d
  Inv-IsEmpty d v none_left =
      (none_left, ground (arith, v.accounted), λ p. ground (arith, v.in_pool p))

module _ (A : Allocator) where
  pub log-Good :
      (mm : A.State) (file : Bytes) → Ensures Good (process_file file (initial {A = A} mm))
  log-Good mm file = process_file-Good file (initial mm) (initial-Good mm)

  -- After any log that no assertion cuts off the purge of the userspace cache pages nothing out,
  -- whichever buffers were marked `dontneed`: `buf_madv` returns before it comes to that word.
  pub purge_idle :
      (mm : A.State) (file : Bytes)
      → Ensures (λ d. userspace_cache_purge d ≡ ok d) (process_file file (initial {A = A} mm))
  unfolding userspace_cache_purge
  purge_idle mm file =
      Ensures-mono Good (λ d. userspace_cache_purge d ≡ ok d) _ (log-Good mm file)
        λ d g. purge_each-needed d.mru_buffers d g.1

  input-Good :
      (mm : A.State) (input : Input) → Ensures Good (process_input input (initial {A = A} mm))
  unfolding process_filename
  input-Good mm (named filename none) =
      (report-Inv (no_file filename) (initial mm) (initial-Good mm).0, λ p. refl)
  input-Good mm (named filename (some file)) = log-Good mm file
  input-Good mm (stdin file) = log-Good mm file

  -- Where `main` comes to its end, it has freed every buffer, whatever the log says and whatever the
  -- allocator answers: none is left in the lists, and the overflow is back at 0.
  pub run_main-IsEmpty :
      (mm : A.State) (input : Input) → Ensures IsEmpty (run_main {A = A} mm input)
  unfolding run_main free_buffers
  run_main-IsEmpty mm input =
      bind-Ensures Good IsEmpty (process_input input (initial mm)) _ (input-Good mm input) λ d g.
        bind-Ensures (λ e. Inv e × (e.all_buffers ≡ [])) IsEmpty (free_each d.all_buffers d) _
          (free_each-empty d.all_buffers d refl g.0)
          λ e (v, left). elim (Bool-cases (A.clean e.mm)) [
            | inl tidy ↦ rw tidy (Inv-IsEmpty e v left)
            | inr untidy ↦
                rw untidy (Inv-IsEmpty (report not_clean e) (report-Inv not_clean e v) left)
          ]
