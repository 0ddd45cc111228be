-- ===== src/Pool/Shown.antt =====
-- test-drm-mm/main.c: only `dump` in the log makes the program print to stdout.
use cma_pool_log.Base.{
  ℕ, ◌≡◌, ◌⊎◌, ◌∙◌, refl, inl, inr, List, [], ◌∷◌, Ensures, Ensures-mono, bind-Ensures, Bool-cases,
  Option-cases, arith,
}
use cma_pool_log.Text.{
  Bytes, bytes, split_space, scan_hex, skip_spaces, after_marker, strip_prefix, all_spaces,
}
use cma_pool_log.Pool.{Allocator, Data}
use cma_pool_log.Pool.Buffers.{free_buffer, free_each}
use cma_pool_log.Pool.Invariant.{Inv}
use cma_pool_log.Pool.Handlers.{Performed, Freed, free_buffer-Freed}
use cma_pool_log.Pool.Perform.{perform-Performed}
use cma_pool_log.Pool.Lines.{
  commands, find_command, perform, process_command, dump_data, process_line,
}

module _ {A : Allocator} where
  abbrev pub Silent : Data A → Data A → Type 0
  Silent d e = e.output ≡ d.output

  process_command-Silent :
      (text : Bytes) (d : Data A) → Inv d → Ensures (Silent d) (process_command text d)
  unfolding process_command
  process_command-Silent text d v = elim (Option-cases (split_space text)) [
    | inl e ↦ rw (e, process_command) refl
    | inr ((word, args), e) ↦
        rw (e, process_command)
          (elim (Option-cases (scan_hex args)) [
            | inl f ↦ rw f refl
            | inr ((name, rest), f) ↦ rw f (elim (Option-cases (find_command commands word)) [
              | inl g ↦ rw g refl
              | inr (c, g) ↦ rw g (
                  Ensures-mono (Performed name d) (Silent d) (perform c name (skip_spaces rest) d)
                    (perform-Performed c name (skip_spaces rest) d v) λ e p. p.output)
            ])
          ])
  ]

  -- A line prints nothing, or just the state before it.
  abbrev pub Prints : Data A → Data A → Type 0
  Prints d e = Silent d e ⊎ (e ≡ dump_data d)

  pub process_line-Prints :
      (line : Bytes) (d : Data A) → Inv d → Ensures (Prints d) (process_line line d)
  unfolding process_line
  process_line-Prints line d v = elim (Option-cases (after_marker (bytes "] @@@ ") line)) [
    | inr (text, e) ↦
        rw (e, process_line)
          (Ensures-mono (Silent d) (Prints d) (process_command text d)
            (process_command-Silent text d v) λ f s. inl s)
    | inl e ↦
        rw (e, process_line)
          (elim (Option-cases (strip_prefix (bytes "dump") (skip_spaces line))) [
            | inl f ↦ rw f (inl refl)
            | inr (rest, f) ↦ rw f (elim (Bool-cases (all_spaces rest)) [
              | inl g ↦ rw g (inr refl)
              | inr g ↦ rw g (inl refl)
            ])
          ])
  ]

  pub free_each-Silent :
      (ps : List ℕ) (d : Data A) → d.all_buffers ≡ ps → Inv d → Ensures (Silent d) (free_each ps d)
  unfolding free_each
  free_each-Silent [] d same v = refl
  free_each-Silent (p ∷ ps) d same v =
      bind-Ensures (Freed p d) (Silent d) (free_buffer p d) _
        (free_buffer-Freed p d (ground (arith, same)) v)
        λ e (f, left).
          Ensures-mono (Silent e) (Silent d) (free_each ps e)
            (free_each-Silent ps e (ground (arith, left, same)) f.inv) λ g s. s ∙ f.output
