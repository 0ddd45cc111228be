-- ===== src/Text/Printf.antt =====
-- The C library's `printf`, as far as test-drm-mm/main.c prints numbers to stdout. A function answers
-- the text that is printed in front of what is printed next.
use cma_pool_log.Base.{ℕ, zero, suc, ◌+◌, ◌/◌, ◌%◌, true, false, ◌∷◌, ltb}
use cma_pool_log.Text.{Bytes}

-- `%zu`, `%u` and the like: the digits of a number, the last one first.
unfoldable pub decimal_from : ℕ → ℕ → Bytes → Bytes
decimal_from zero n next = next
decimal_from (suc fuel) n next = elim (ltb n 10) [
  | true ↦ (48 + n) ∷ next
  | false ↦ decimal_from fuel (n / 10) ((48 + n % 10) ∷ next)
]

-- A number has fewer digits than its value and one.
unfoldable pub decimal : ℕ → Bytes → Bytes
unfolding decimal_from
decimal n next = decimal_from (suc n) n next
