-- ===== src/Mm/Extreme.antt =====
-- test-drm-mm/drm_mm.c: at which end of a hole a block goes into it.
use cma_pool_log.Base.{
  ℕ, sym, ap, ◌∙◌, refl, ◌-◌, ◌≤◌, ◌<◌, ◌≡◌, inl, inr, true, false, some, arith, max, min, u64_mod,
  add64, sub64, Bool-cases,
}
use native.Mathlib.Nat.{mod-le}
use cma_pool_log.Base.Align.{align_up-le, align_down-le}
use cma_pool_log.Mm.{Search, best, low, high, evict}
use cma_pool_log.Mm.Insert.{mask_of, left_over, is_high, first_start, shifted, place}
use cma_pool_log.Mm.Place.{left_over-mod, Fits, Settled, settle-Settled}

-- No place is nearer to the end of the hole that is asked for: the high end, if so, or the low one.
abbrev pub Outermost : Type 0 → (size alignment : ℕ) → ℕ × ℕ → ℕ × ℕ → ℕ → Type 0
Outermost IsHigh size alignment range hole s =
    (t : ℕ) → Fits size alignment range hole t → (IsHigh → t ≤ s) × (¬ IsHigh → s ≤ t)

is_high-high : (search : Search) → is_high search ≡ true → search ≡ high
is_high-high high e = refl
is_high-high best e = cc
is_high-high low e = cc
is_high-high evict e = cc

true_ne_false : true ≡ false → ⊥
true_ne_false e = cc

module _ (size a rs re cs ce : ℕ) (hole_end : ce < u64_mod) (range_end : re < u64_mod)
    (word : a < u64_mod) where
  low_least :
      (s t : ℕ)
      → let lo = max cs rs in
        let rem = left_over a (mask_of a) lo in
        Settled lo (min ce re) size a lo rem (add64 (sub64 lo rem) a) s
        → Fits size a (rs, re) (cs, ce) t
        → s ≤ t
  low_least s t (inl (same, _, _, _)) f = ground (arith, same, f.above_hole, f.above_range)
  low_least s t (inr (same, nz, rem, above, below, _)) f =
      let lo = max cs rs in
      let rem' = rw (left_over-mod a lo nz) at rem in
      let same' = rw (left_over-mod a lo nz) at same in
      let above' = rw (left_over-mod a lo nz) at above in
      let up =
        align_up-le lo t a (f.aligned nz) (ground (arith, f.above_hole, f.above_range)) rem' in
      ground (arith, same', above', up, mod-le lo a, f.below_hole, f.below_range)

  high_greatest :
      (s t : ℕ)
      → let start = min ce re - size in
        let rem = left_over a (mask_of a) start in
        Settled (max cs rs) (min ce re) size a start rem (sub64 start rem) s
        → Fits size a (rs, re) (cs, ce) t
        → t ≤ s
  high_greatest s t (inl (same, _, _, _)) f = ground (arith, same, f.below_hole, f.below_range)
  high_greatest s t (inr (same, nz, rem, above, below, _)) f =
      let start = min ce re - size in
      let same' = rw (left_over-mod a start nz) at same in
      let down =
        align_down-le start t a (f.aligned nz) (ground (arith, f.below_hole, f.below_range)) in
      ground (arith, same', down, mod-le start a)

  -- For bounds and an alignment below 2^64, of the aligned addresses at which the block lies in the
  -- hole and the range, none is above the one that is chosen, if the search is for the high end, and
  -- none is below it otherwise.
  pub place-Outermost :
      (search : Search) (s : ℕ)
      → place search size a (mask_of a) (rs, re) (cs, ce) ≡ some s
      → Outermost (search ≡ high) size a (rs, re) (cs, ce) s
  unfolding place
  place-Outermost search s h u f =
      let lo = max cs rs in
      let hi = min ce re in
      let start = first_start search lo hi size in
      let rem = left_over a (mask_of a) start in
      let t = settle-Settled lo hi size a start rem (shifted search a rem start) s h in
      elim (Bool-cases (is_high search)) [
        | inl e ↦
            (λ _. high_greatest s u (rw e at t) f, λ other. absurd (other (is_high-high search e)))
        | inr e ↦ (
          λ same. absurd (true_ne_false (sym (ap is_high same) ∙ e)),
          λ _. low_least s u (rw e at t) f,
        )
      ]
