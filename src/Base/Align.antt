-- ===== src/Base/Align.antt =====
-- Addresses moved to a multiple of an alignment.
use Prim.Native.Nat.{ℕ, suc, ◌+◌, ◌-◌, ◌*◌, ◌/◌, ◌%◌, ◌≤◌, ◌<◌}
use mathlib.Core.Path.{◌≡◌, ap, ◌∙◌}
use mathlib.Core.Logic.{◌≢◌, ◌⊎◌, inl, inr}
use native.Mathlib.Omega.{arith}
use native.Mathlib.Nat.{mod-lt, div-add-mod, mul-mod_right, mul-le-mul_left, lt_of_mul-lt-mul_left}
use native.Mathlib.Decide.{dec_le, dec_lt}

pub align_down-mod : (x a : ℕ) → (x - x % a) % a ≡ 0
align_down-mod x a = ap (λ t. t % a) (omega (arith, div-add-mod x a)) ∙ mul-mod_right a (x / a)

pub align_up-mod : (x a : ℕ) → (x - x % a + a) % a ≡ 0
align_up-mod x a = ap (λ t. t % a) (omega (arith, div-add-mod x a)) ∙ mul-mod_right a (x / a + 1)

-- Nothing aligned lies between the address and the next multiple, nor between it and the last one.
pub align_up-le : (x t a : ℕ) → t % a ≡ 0 → x ≤ t → x % a ≢ 0 → x - x % a + a ≤ t
align_up-le x t a h le ne =
    let below : a * (x / a) < a * (t / a) = omega (arith, div-add-mod x a, div-add-mod t a) in
    let step = mul-le-mul_left {m = suc (x / a)} a (lt_of_mul-lt-mul_left a below) in
    omega (arith, step, div-add-mod x a, div-add-mod t a)

pub align_down-le : (x t a : ℕ) → t % a ≡ 0 → t ≤ x → t ≤ x - x % a
align_down-le x t a h le = elim (dec_le (t / a) (x / a)) [
  | yes q ↦ omega (arith, mul-le-mul_left a q, div-add-mod x a, div-add-mod t a)
  | no q ↦
      let above : suc (x / a) ≤ t / a = omega arith in
      omega (
        arith,
        mul-le-mul_left {m = suc (x / a)} a above,
        div-add-mod x a,
        div-add-mod t a,
        rem_small,
      )
]
  where
    rem_small : (a ≡ 0) ⊎ (x % a < a)
    rem_small = elim (dec_lt 0 a) [ yes pos ↦ inr (mod-lt x pos) | no z ↦ inl (omega arith) ]
