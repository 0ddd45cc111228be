-- ===== src/Text/Bounds.antt =====
-- Numbers that `sscanf` reads fit their types.
use cma_pool_log.Base.{ℕ, ◌<◌, ◌≡◌, Option, none, some, [], ◌∷◌, arith, u64_mod}
use cma_pool_log.Text.{Bytes, scan_size, scan_hex, skip_spaces, clamped, negated, signed, low_word}

clamped-lt :
    (r : Option (ℕ × Bytes)) (rest : Bytes) (v : ℕ) → clamped r ≡ some (v, rest) → v < u64_mod
clamped-lt none rest v h = cc
clamped-lt (some (w, t)) rest v h = ground arith

negated-lt :
    (r : Option (ℕ × Bytes)) (rest : Bytes) (v : ℕ) → negated r ≡ some (v, rest) → v < u64_mod
negated-lt none rest v h = cc
negated-lt (some (w, t)) rest v h = ground arith

signed-lt :
    (read : Bytes → Option (ℕ × Bytes)) (s rest : Bytes) (v : ℕ)
    → signed read s ≡ some (v, rest)
    → v < u64_mod
signed-lt read [] rest v h = cc
signed-lt read (c ∷ s) rest v h = ground (
  arith,
  negated-lt (read s) rest v,
  clamped-lt (read s) rest v,
  clamped-lt (read (c ∷ s)) rest v,
)

pub scan_size-lt : (s rest : Bytes) (v : ℕ) → scan_size s ≡ some (v, rest) → v < u64_mod
unfolding scan_size
scan_size-lt s rest v h = signed-lt _ (skip_spaces s) rest v h

low_word-lt :
    (r : Option (ℕ × Bytes)) (rest : Bytes) (v : ℕ) → low_word r ≡ some (v, rest) → v < 4294967296
low_word-lt none rest v h = cc
low_word-lt (some (w, t)) rest v h = ground arith

pub scan_hex-lt : (s rest : Bytes) (v : ℕ) → scan_hex s ≡ some (v, rest) → v < 4294967296
unfolding scan_hex
scan_hex-lt s rest v h = low_word-lt _ rest v h
