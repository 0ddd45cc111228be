-- ===== src/Simulator/Shown.antt =====
-- test-drm-mm: every picture of the pool that the program prints is a sound one.
use cma_pool_log.Base.{
  ℕ, suc, ◌+◌, ◌%◌, ◌<◌, ◌≤◌, ◌≡◌, ◌≢◌, ◌⊎◌, refl, sym, subst, inl, inr, true, false, none, some,
  List, [], ◌∷◌, ◌++◌, map, arith, ◌==◌, has, Distinct, u64_mod, Returns, bind-Returns,
  both-Returns, Bool-cases, ==_refl,
}
use cma_pool_log.Rbtree.{Balancing}
use cma_pool_log.Text.{Bytes, fgets_all}
use cma_pool_log.Mm.{clean}
use cma_pool_log.Mm.Holes.{init}
use cma_pool_log.Mm.Starting.{Started, init-Tidy}
use cma_pool_log.Pool.{Data, Entry, Dump, pool_size, page_size}
use cma_pool_log.Pool.Buffers.{free_each, free_buffers}
use cma_pool_log.Pool.Lines.{
  entry_of, dump_data, process_line, process_lines, process_file, process_filename, process_input,
  Input, named, stdin, initial, run_main,
}
use cma_pool_log.Pool.Shown.{Silent, Prints, process_line-Prints, free_each-Silent}
use cma_pool_log.Simulator.{drm_mm, simulate}
use cma_pool_log.Simulator.Linked.{Linked}
use cma_pool_log.Simulator.Running.{report-Linked}
use cma_pool_log.Simulator.Arranged.{Arranged, Linked-Arranged}
use cma_pool_log.Simulator.Whole.{
  AllFreed, free_each-AllFreed, lines_fit, input_fits, both_true, process_line-Linked, noted-Linked,
  initial-Linked,
}

-- The row shows a buffer within the pool, at the beginning of a page.
pub record InPool (e : Entry) : Type 0 where
  pub some_size : 0 < e.size
  pub inside : e.offset + e.size ≤ pool_size
  pub aligned : e.offset % page_size ≡ 0

-- Two rows are about different buffers, which do not overlap.
pub record Beside (e f : Entry) : Type 0 where
  pub names : e.name ≢ f.name
  pub apart : (e.offset + e.size ≤ f.offset) ⊎ (f.offset + f.size ≤ e.offset)

abbrev pub AllBeside : Entry → List Entry → Type 0
AllBeside e [] = Unit
AllBeside e (f ∷ fs) = Beside e f × AllBeside e fs

abbrev pub SoundRows : List Entry → Type 0
SoundRows [] = Unit
SoundRows (e ∷ es) = InPool e × AllBeside e es × SoundRows es

-- All that was printed.
abbrev pub Sound : List Dump → Type 0
Sound [] = Unit
Sound (x ∷ xs) = (x.overflow < u64_mod) × SoundRows x.buffers × Sound xs

Sound-append : (xs ys : List Dump) → Sound xs → Sound ys → Sound (xs ++ ys)
Sound-append [] ys s t = t
Sound-append (x ∷ xs) ys (o, r, s) t = (o, r, Sound-append xs ys s t)

module _ (rb : Balancing) where
  rows-AllBeside :
      (d : Data (drm_mm rb)) (p : ℕ) (ps : List ℕ)
      → Linked rb d
      → Arranged rb d
      → has p d.mru_buffers ≡ true
      → has p ps ≡ false
      → ((q : ℕ) → has q ps ≡ true → has q d.mru_buffers ≡ true)
      → AllBeside (entry_of d p) (map (entry_of d) ps)
  rows-AllBeside d p [] l a h n f = tt
  rows-AllBeside d p (q ∷ ps) l a h n f =
      let g = f q (ground (arith, ==_refl q)) in
      let other : (p == q) ≡ false = ground (arith, n) in
      (
        record {
          names = λ same.
              let one =
                l.inv.named p q (ground (arith, l.inv.in_pool p, h))
                  (ground (arith, l.inv.in_pool q, g)) same in
              ground (arith, one, other);
          apart = a.apart p q h g other;
        },
        rows-AllBeside d p ps l a h (ground (arith, n)) λ r i. f r (ground (arith, i)),
      )

  rows-SoundRows :
      (d : Data (drm_mm rb)) (ps : List ℕ)
      → Linked rb d
      → Arranged rb d
      → Distinct ps
      → ((q : ℕ) → has q ps ≡ true → has q d.mru_buffers ≡ true)
      → SoundRows (map (entry_of d) ps)
  rows-SoundRows d [] l a n f = tt
  rows-SoundRows d (p ∷ ps) l a n f =
      let h = f p (ground (arith, ==_refl p)) in
      (
        record {
          some_size = (l.sizes p (ground (arith, l.inv.in_pool p, h))).0;
          inside = a.inside p h;
          aligned = a.aligned p h;
        },
        rows-AllBeside d p ps l a h n.0 λ q i. f q (ground (arith, i)),
        rows-SoundRows d ps l a n.1 λ q i. f q (ground (arith, i)),
      )

  dump-Sound : (d : Data (drm_mm rb)) → Linked rb d → Sound d.output → Sound (dump_data d).output
  unfolding dump_data
  dump-Sound d l s = Sound-append d.output _ s (
    ground (arith, l.inv.accounted),
    rows-SoundRows d d.mru_buffers l (Linked-Arranged rb d l) l.inv.distinct_mru (λ q h. h),
    tt,
  )

  abbrev Showing : Data (drm_mm rb) → Type 0
  Showing d = Linked rb d × Sound d.output

  process_lines-Showing :
      (lines : List Bytes) (d : Data (drm_mm rb))
      → lines_fit lines ≡ true
      → Showing d
      → Returns Showing (process_lines lines d)
  unfolding process_lines lines_fit
  process_lines-Showing [] d fits s = s
  process_lines-Showing (line ∷ lines) d fits (l, s) =
      let (one, rest) = both_true _ (lines_fit lines) fits in
      bind-Returns (λ e. Linked rb e × Prints d e) Showing (process_line line d) _
        (both-Returns (Linked rb) (Prints d) _ (process_line-Linked rb line d one l)
          (process_line-Prints line d l.inv))
        λ e (k, p).
          let after : Sound e.output = elim p [
            | inl same ↦ subst Sound (sym same) s
            | inr new ↦
                subst (λ (f : Data (drm_mm rb)). Sound f.output) (sym new) (dump-Sound d l s)
          ] in
          process_lines-Showing lines _ rest
            (noted-Linked rb e (suc e.line_num) e.errors e.output k, after)

  process_input-Showing :
      (input : Input) (d : Data (drm_mm rb))
      → input_fits input ≡ true
      → Showing d
      → Returns Showing (process_input input d)
  unfolding process_filename process_file input_fits
  process_input-Showing (named filename none) d fits (l, s) = (report-Linked rb _ d l, s)
  process_input-Showing (named filename (some file)) d fits (l, s) =
      process_lines-Showing (fgets_all file) _ fits (noted-Linked rb d 1 d.errors d.output l, s)
  process_input-Showing (stdin file) d fits (l, s) =
      process_lines-Showing (fgets_all file) _ fits (noted-Linked rb d 1 d.errors d.output l, s)

  abbrev pub SoundOutput : Data (drm_mm rb) → Type 0
  SoundOutput e = Sound e.output

  -- The whole program, on a log that gives no size for a new buffer but one that is neither 0 nor
  -- larger than the pool, comes to its end, and in every dump that it printed the buffers lie within
  -- the pool, at the beginning of pages, with different names and without an overlap, and the overflow
  -- is a 64-bit word.
  pub simulate-Sound :
      (input : Input) → input_fits input ≡ true → Returns SoundOutput (simulate rb input)
  unfolding simulate run_main free_buffers clean
  simulate-Sound input fits =
      bind-Returns (Started rb pool_size) SoundOutput (init rb 0 pool_size)
        (λ mm. run_main {A = drm_mm rb} mm input)
        (init-Tidy rb 0 pool_size (omega arith) (omega arith))
        λ mm (t, none_yet, ends).
          bind-Returns Showing SoundOutput (process_input input (initial {A = drm_mm rb} mm)) _
            (process_input-Showing input _ fits (initial-Linked rb mm t none_yet ends, tt))
            λ d (l, s).
              bind-Returns (λ e. AllFreed rb e × Silent d e) SoundOutput (free_each d.all_buffers d)
                _
                (both-Returns (AllFreed rb) (Silent d) _
                  (free_each-AllFreed rb d.all_buffers d refl l)
                  (free_each-Silent d.all_buffers d refl l.inv))
                λ e (a, same).
                  let after : Sound e.output = subst Sound (sym same) s in
                  elim (Bool-cases (clean e.mm)) [ inl c ↦ rw (c) after | inr c ↦ rw (c) after ]
