-- ===== src/Mm/Place.antt =====
-- test-drm-mm/drm_mm.c: the address at which a block goes into a hole.
use cma_pool_log.Base.{
  ℕ, ◌+◌, ◌-◌, ◌%◌, ◌≤◌, ◌<◌, ◌≡◌, ◌≢◌, ap, ◌∙◌, ◌⊎◌, inl, inr, none, some, arith, max, min,
  u64_mod, add64, sub64, Bool-cases,
}
use native.Mathlib.Nat.{mod-le, mod-lt}
use cma_pool_log.Base.Bits.{mask-mod}
use cma_pool_log.Base.Align.{align_down-mod, align_up-mod, align_up-le, align_down-le}
use cma_pool_log.Mm.{Search}
use cma_pool_log.Mm.Insert.{mask_of, left_over, is_high, first_start, shifted, settle, place}

-- The mask is only a quicker way to the remainder.
pub left_over-mod :
    (alignment start : ℕ)
    → alignment ≢ 0
    → left_over alignment (mask_of alignment) start ≡ start % alignment
left_over-mod a start h = ground (arith, mask-mod a start)

-- A block of the size at the address lies in the hole and in the range, and is aligned.
pub record Fits (size alignment : ℕ) (range hole : ℕ × ℕ) (start : ℕ) : Type 0 where
  pub above_hole : hole.0 ≤ start
  pub above_range : range.0 ≤ start
  pub below_hole : start + size ≤ hole.1
  pub below_range : start + size ≤ range.1
  pub aligned : alignment ≢ 0 → start % alignment ≡ 0

-- The outcomes of the tests.
abbrev pub Settled : (lo hi size alignment start rem moved : ℕ) → ℕ → Type 0
Settled lo hi size alignment start rem moved s =
    ((s ≡ start) × ((alignment ≡ 0) ⊎ (rem ≡ 0)) × (lo < hi) × (lo + size ≤ hi))
    ⊎ ((s ≡ moved)
        × (alignment ≢ 0)
        × (rem ≢ 0)
        × (lo ≤ moved)
        × (moved + size ≤ hi)
        × (lo + size ≤ hi))

pub settle-Settled :
    (lo hi size alignment start rem moved s : ℕ)
    → settle lo hi size alignment start rem moved ≡ some s
    → Settled lo hi size alignment start rem moved s
settle-Settled lo hi size alignment start rem moved s h = ground arith

settle-none :
    (lo hi size alignment start rem moved : ℕ)
    → hi < u64_mod
    → settle lo hi size alignment start rem moved ≡ none
    → ((hi ≤ lo) ⊎ (hi < lo + size))
      ⊎ ((alignment ≢ 0) × (rem ≢ 0) × ((moved < lo) ⊎ (hi < moved + size) ⊎ (hi ≤ moved)))
settle-none lo hi size alignment start rem moved small h = ground arith

bounds_Fits :
    (size alignment rs re cs ce s : ℕ)
    → max cs rs ≤ s
    → s + size ≤ min ce re
    → (alignment ≢ 0 → s % alignment ≡ 0)
    → Fits size alignment (rs, re) (cs, ce) s
bounds_Fits size alignment rs re cs ce s below above aligned = record {
  above_hole = ground arith;
  above_range = ground arith;
  below_hole = ground arith;
  below_range = ground arith;
  aligned = aligned;
}

-- Of an address that moved without wrapping round.
shifted_low-mod :
    (a x : ℕ)
    → x < u64_mod
    → a < u64_mod
    → x ≤ add64 (sub64 x (x % a)) a
    → add64 (sub64 x (x % a)) a % a ≡ 0
shifted_low-mod a x small word up =
    ap (λ t. t % a) (omega (arith, mod-le x a, up)) ∙ align_up-mod x a

shifted_high-mod : (a x : ℕ) → x < u64_mod → sub64 x (x % a) % a ≡ 0
shifted_high-mod a x small = ap (λ t. t % a) (omega (arith, mod-le x a)) ∙ align_down-mod x a

-- A start that is taken as it is, or moved.
Settled-aligned :
    (lo hi size a x moved s : ℕ)
    → Settled lo hi size a x (left_over a (mask_of a) x) moved s
    → (a ≢ 0 → lo ≤ moved → moved % a ≡ 0)
    → a ≢ 0
    → s % a ≡ 0
Settled-aligned lo hi size a x moved s (inl (same, free, _, _)) up pos =
    rw same (ground (arith, left_over-mod a x))
Settled-aligned lo hi size a x moved s (inr (same, _, _, above, _, _)) up pos =
    rw same (up pos above)

module _ (size a rs re cs ce : ℕ) (hole_end : ce < u64_mod) (range_end : re < u64_mod)
    (word : a < u64_mod) where
  abbrev lo : ℕ
  lo = max cs rs

  abbrev hi : ℕ
  hi = min ce re

  low-Fits :
      (s : ℕ)
      → lo < u64_mod
      → let rem = left_over a (mask_of a) lo in
        Settled lo hi size a lo rem (add64 (sub64 lo rem) a) s → Fits size a (rs, re) (cs, ce) s
  low-Fits s small t = bounds_Fits size a rs re cs ce s (ground arith) (ground arith) (
      Settled-aligned lo hi size a lo _ s t λ pos up.
        rw (left_over-mod a lo pos)
          (shifted_low-mod a lo small word (rw (left_over-mod a lo pos) at up)))

  high-Fits :
      (s : ℕ)
      → let rem = left_over a (mask_of a) (hi - size) in
        Settled lo hi size a (hi - size) rem (sub64 (hi - size) rem) s
        → Fits size a (rs, re) (cs, ce) s
  high-Fits s t = bounds_Fits size a rs re cs ce s (ground arith) (ground arith) (
      Settled-aligned lo hi size a (hi - size) _ s t λ pos up.
        rw (left_over-mod a (hi - size) pos) (shifted_high-mod a (hi - size) (ground arith)))

  -- The address that is chosen fits, in every mode, for bounds and an alignment below 2^64.
  pub place-Fits :
      (search : Search) (s : ℕ)
      → place search size a (mask_of a) (rs, re) (cs, ce) ≡ some s
      → Fits size a (rs, re) (cs, ce) s
  unfolding place
  place-Fits search s h =
      let t =
        settle-Settled lo hi size a (first_start search lo hi size)
          (left_over a (mask_of a) (first_start search lo hi size))
          (shifted search a (left_over a (mask_of a) (first_start search lo hi size))
            (first_start search lo hi size))
          s h in
      elim (Bool-cases (is_high search)) [
        | inl e ↦ high-Fits s (rw e at t)
        | inr e ↦ low-Fits s (ground arith) (rw e at t)
      ]

  low_none :
      (t : ℕ)
      → 0 < size
      → let rem = left_over a (mask_of a) lo in
        settle lo hi size a lo rem (add64 (sub64 lo rem) a) ≡ none
        → Fits size a (rs, re) (cs, ce) t
        → ⊥
  low_none t pos h f =
      elim (settle-none lo hi size a lo (left_over a (mask_of a) lo) _ (ground arith) h) [
        | inl out ↦ ground (arith, f.above_hole, f.above_range, f.below_hole, f.below_range)
        | inr (nz, rem, out) ↦
            let out' = rw (left_over-mod a lo nz) at out in
            let rem' = rw (left_over-mod a lo nz) at rem in
            let up = align_up-le lo t a (f.aligned nz) (ground arith) rem' in
            ground
              (arith, mod-le lo a, mod-lt lo {m = a} (omega arith), f.below_hole, f.below_range)
      ]

  high_none :
      (t : ℕ)
      → 0 < size
      → let rem = left_over a (mask_of a) (hi - size) in
        settle lo hi size a (hi - size) rem (sub64 (hi - size) rem) ≡ none
        → Fits size a (rs, re) (cs, ce) t
        → ⊥
  high_none t pos h f =
      elim (settle-none lo hi size a (hi - size) (left_over a (mask_of a) (hi - size)) _
        (ground arith) h) [
          | inl out ↦ ground (arith, f.above_hole, f.above_range, f.below_hole, f.below_range)
          | inr (nz, rem, out) ↦
              let out' = rw (left_over-mod a (hi - size) nz) at out in
              let down = align_down-le (hi - size) t a (f.aligned nz) (ground arith) in
              ground (
                arith,
                mod-le (hi - size) a,
                f.above_hole,
                f.above_range,
                f.below_hole,
                f.below_range,
              )
        ]

  -- Where no address is chosen for a size that is not 0, none fits, for bounds and an alignment below
  -- 2^64.
  pub place-none :
      (search : Search) (t : ℕ)
      → 0 < size
      → place search size a (mask_of a) (rs, re) (cs, ce) ≡ none
      → ¬ Fits size a (rs, re) (cs, ce) t
  unfolding place
  place-none search t pos h = elim (Bool-cases (is_high search)) [
    | inl e ↦ high_none t pos (rw e at h)
    | inr e ↦ low_none t pos (rw e at h)
  ]
