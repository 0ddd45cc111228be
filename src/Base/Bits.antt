-- ===== src/Base/Bits.antt =====
-- The remainder by a power of two is a mask: `x & (n - 1)`, where `n & (n - 1)` is 0.
use Prim.Native.Nat.{
  ℕ, zero, suc, ◌+◌, ◌-◌, ◌*◌, ◌/◌, ◌%◌, ◌≤◌, min, bit_and, digits, bit_and-bitwise,
}
use mathlib.Core.Path.{◌≡◌, refl, sym, ap, subst, ◌∙◌}
use native.Mathlib.Nat.{mod-lt, mod-eq_of_lt, mul-add-mod_self_left, div-add-mod}
use native.Mathlib.Decide.{dec_lt}
use mathlib.Core.Logic.{◌≢◌}
use native.Mathlib.Omega.{arith}

-- The native operation, on `n` binary digits.
abbrev common : ℕ → ℕ → ℕ → ℕ
common n a b = digits (λ c. zero) min n a b

-- Digits above the number are 0, so it does not matter how many are looked at.
common_enough : (n m a b : ℕ) → a ≤ n → a ≤ m → common n a b ≡ common m a b
common_enough (suc n) (suc m) (suc a) b h k =
    omega (arith, common_enough n m (suc a / 2) (b / 2) (omega arith) (omega arith))
common_enough (suc n) (suc m) zero b h k = refl
common_enough (suc n) zero zero b h k = refl
common_enough (suc n) zero (suc a) b h k = absurd (omega arith)
common_enough zero zero a b h k = refl
common_enough zero (suc m) zero b h k = refl
common_enough zero (suc m) (suc a) b h k = absurd (omega arith)

pub bit_and-step : (a b : ℕ) → bit_and a b ≡ 2 * bit_and (a / 2) (b / 2) + min (a % 2) (b % 2)
bit_and-step zero b = omega (arith, bit_and-bitwise 0 b, bit_and-bitwise 0 (b / 2))
bit_and-step (suc a) b =
    let k = suc a / 2 in
    omega (
      arith,
      bit_and-bitwise (suc a) b,
      bit_and-bitwise k (b / 2),
      common_enough a k k (b / 2) (omega arith) (omega arith),
    )

bit_and_self_below : (n a : ℕ) → a ≤ n → bit_and a a ≡ a
bit_and_self_below n zero h = bit_and-bitwise 0 0
bit_and_self_below zero (suc a) h = absurd (omega arith)
bit_and_self_below (suc n) (suc a) h =
    omega (arith, bit_and-step (suc a) (suc a), bit_and_self_below n (suc a / 2) (omega arith))

bit_and_self : (a : ℕ) → bit_and a a ≡ a
bit_and_self a = bit_and_self_below a a (omega arith)

bit_and_zero_below : (n a : ℕ) → a ≤ n → bit_and a 0 ≡ 0
bit_and_zero_below n zero h = bit_and-bitwise 0 0
bit_and_zero_below zero (suc a) h = absurd (omega arith)
bit_and_zero_below (suc n) (suc a) h =
    omega (arith, bit_and-step (suc a) 0, bit_and_zero_below n (suc a / 2) (omega arith))

bit_and_zero : (a : ℕ) → bit_and a 0 ≡ 0
bit_and_zero a = bit_and_zero_below a a (omega arith)

double_mod : (x m : ℕ) → m ≢ 0 → x % (2 * m) ≡ 2 * (x / 2 % m) + x % 2
double_mod x m h =
    ap (λ t. t % (2 * m)) whole
    ∙ mul-add-mod_self_left (2 * m) (x / 2 / m) rest
    ∙ mod-eq_of_lt (omega (arith, mod-lt (x / 2) {m = m} (omega arith)))
  where
    rest : ℕ
    rest = 2 * (x / 2 % m) + x % 2

    whole : x ≡ 2 * m * (x / 2 / m) + rest
    whole = omega (arith, div-add-mod (x / 2) m)

-- An even number, by its half.
even_mask :
    (k x : ℕ) → k ≢ 0 → bit_and (x / 2) (k - 1) ≡ x / 2 % k → bit_and x (2 * k - 1) ≡ x % (2 * k)
even_mask k x h half =
    let e : (2 * k - 1) / 2 ≡ k - 1 = omega arith in
    let step = rw e at (bit_and-step x (2 * k - 1)) in omega (arith, step, half, double_mod x k h)

even_free : (k : ℕ) → k ≢ 0 → bit_and (2 * k) (2 * k - 1) ≡ 0 → bit_and k (k - 1) ≡ 0
even_free k h free =
    let e : (2 * k - 1) / 2 ≡ k - 1 = omega arith in
    let f : 2 * k / 2 ≡ k = omega arith in
    let step = rw (e, f) at (bit_and-step (2 * k) (2 * k - 1)) in omega (arith, step)

-- An odd one is 1.
odd_free : (k : ℕ) → bit_and (2 * k + 1) (2 * k + 1 - 1) ≡ 0 → k ≡ 0
odd_free k free =
    let e : (2 * k + 1 - 1) / 2 ≡ k = omega arith in
    let f : (2 * k + 1) / 2 ≡ k = omega arith in
    let step = rw (e, f) at (bit_and-step (2 * k + 1) (2 * k + 1 - 1)) in
    omega (arith, step, bit_and_self k)

mask_below : (n m x : ℕ) → m ≤ n → m ≢ 0 → bit_and m (m - 1) ≡ 0 → bit_and x (m - 1) ≡ x % m
mask_below zero m x h pos free = absurd (omega arith)
mask_below (suc n) m x h pos free = elim (dec_lt (m % 2) 1) [
  | yes even ↦
      let e : m ≡ 2 * (m / 2) = omega arith in
      let half_pos : m / 2 ≢ 0 = omega arith in
      let free' = even_free (m / 2) half_pos (subst (λ t. bit_and t (t - 1) ≡ 0) e free) in
      subst (λ t. bit_and x (t - 1) ≡ x % t) (sym e)
        (even_mask (m / 2) x half_pos (mask_below n (m / 2) (x / 2) (omega arith) half_pos free'))
  | no odd ↦
      let e : m ≡ 2 * (m / 2) + 1 = omega arith in
      let none : m / 2 ≡ 0 = odd_free (m / 2) (subst (λ t. bit_and t (t - 1) ≡ 0) e free) in
      let one : 1 ≡ m = omega arith in
      subst (λ t. bit_and x (t - 1) ≡ x % t) one (omega (arith, bit_and_zero x))
]

-- What `is_power_of_2` tests makes the mask a remainder.
pub mask-mod : (m x : ℕ) → m ≢ 0 → bit_and m (m - 1) ≡ 0 → bit_and x (m - 1) ≡ x % m
mask-mod m x = mask_below m m x (omega arith)
