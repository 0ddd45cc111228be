-- ===== src/Text/Digits.antt =====
-- A number that `printf` printed is read back as `sscanf` reads it.
use native.Mathlib.Nat.{div-add-mod, mod-lt}
use cma_pool_log.Base.{
  ℕ, zero, suc, ◌+◌, ◌*◌, ◌/◌, ◌%◌, ◌<◌, ◌≡◌, refl, ap, ◌∙◌, sym, inl, inr, none, some, ◌∷◌, arith,
  ltb, Bool-cases,
}
use cma_pool_log.Text.{Bytes, read_digits, read_number, digit_in}
use cma_pool_log.Text.Printf.{decimal_from, decimal}

read_digits-step :
    (v d : ℕ) (next : Bytes)
    → d < 10
    → read_digits 10 v ((48 + d) ∷ next) ≡ read_digits 10 (v * 10 + d) next
unfolding read_digits
read_digits-step v d next h =
    let digit : digit_in 10 (48 + d) ≡ some d = ground arith in rw (digit, read_digits) refl

read_digits-first :
    (d : ℕ) (next : Bytes) → d < 10 → read_digits 10 0 ((48 + d) ∷ next) ≡ read_digits 10 d next
read_digits-first d next h =
    let same : 0 * 10 + d ≡ d = omega arith in
    read_digits-step 0 d next h ∙ ap (λ v. read_digits 10 v next) same

decimal_from-read :
    (fuel n : ℕ) (next : Bytes)
    → n < fuel
    → read_digits 10 0 (decimal_from fuel n next) ≡ read_digits 10 n next
unfolding decimal_from
decimal_from-read zero n next h = absurd (omega arith)
decimal_from-read (suc fuel) n next h = elim (Bool-cases (ltb n 10)) [
  | inl e ↦ rw (e, decimal_from) (read_digits-first n next (ground (arith, e)))
  | inr e ↦
      let shorter : n / 10 < fuel = ground (arith, e, h) in
      let whole : n / 10 * 10 + n % 10 ≡ n = omega (arith, div-add-mod n 10) in
      rw (e, decimal_from)
        (decimal_from-read fuel (n / 10) ((48 + n % 10) ∷ next) shorter
          ∙ read_digits-step (n / 10) (n % 10) next (omega (arith, mod-lt n {m = 10} (omega arith)))
          ∙ ap (λ v. read_digits 10 v next) whole)
]

-- The text of a number begins with a digit.
decimal_from-digit :
    (fuel n : ℕ) (next : Bytes)
    → n < fuel
    → (d : ℕ) × (s : Bytes) × (d < 10) × (decimal_from fuel n next ≡ (48 + d) ∷ s)
unfolding decimal_from
decimal_from-digit zero n next h = absurd (omega arith)
decimal_from-digit (suc fuel) n next h = elim (Bool-cases (ltb n 10)) [
  | inl e ↦ rw (e, decimal_from) (n, next, ground (arith, e), refl)
  | inr e ↦
      rw (e, decimal_from)
        (decimal_from-digit fuel (n / 10) ((48 + n % 10) ∷ next) (ground (arith, e, h)))
]

-- A number is read back, where no digit follows it.
pub decimal-read :
    (n c : ℕ) (rest : Bytes)
    → digit_in 10 c ≡ none
    → read_number 10 (decimal n (c ∷ rest)) ≡ some (n, c ∷ rest)
unfolding decimal read_number read_digits
decimal-read n c rest h =
    let (d, s, small, e) = decimal_from-digit (suc n) n (c ∷ rest) (omega arith) in
    let digit : digit_in 10 (48 + d) ≡ some d = ground (arith, small) in
    let behind : read_digits 10 n (c ∷ rest) ≡ (n, c ∷ rest) = rw (h, read_digits) refl in
    let value : read_digits 10 d s ≡ (n, c ∷ rest) =
      sym (read_digits-first d s small)
      ∙ ap (read_digits 10 0) (sym e)
      ∙ decimal_from-read (suc n) n (c ∷ rest) (omega arith)
      ∙ behind in
    ap (read_number 10) e ∙ rw (digit, read_number) (ap some value)
