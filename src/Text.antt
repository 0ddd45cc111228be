-- ===== src/Text.antt =====
-- The C library calls by which test-drm-mm/main.c reads text. A string is its bytes before the
-- closing NUL.
pub mod Printf
pub mod Digits
pub mod Bounds
use Prim.Native.Char.{code}
use Prim.Native.String
use Prim.Native.String.{String}
use cma_pool_log.Base.{
  ℕ, suc, ◌+◌, ◌-◌, ◌*◌, ◌%◌, Bool, true, false, not, ◌&&◌, ◌||◌, Option, none, some, List, [], ◌∷◌,
  ◌++◌, reverse, ltb, leb, ◌==◌, if◌then◌else◌, u64_max, u64_mod, min,
}

abbrev pub Bytes : Type 0
Bytes = List ℕ

-- A literal of the source.
abbrev pub bytes : String → Bytes
bytes String.[] = []
bytes (String.◌∷◌ c s) = code c ∷ bytes s

-- `isspace` in the C locale.
unfoldable pub isspace : ℕ → Bool
isspace c = (c == 32) || (leb 9 c && leb c 13)

unfoldable pub skip_spaces : Bytes → Bytes
unfolding isspace
skip_spaces [] = []
skip_spaces (c ∷ s) = elim (isspace c) [ true ↦ skip_spaces s | false ↦ c ∷ s ]

unfoldable pub all_spaces : Bytes → Bool
unfolding isspace
all_spaces [] = true
all_spaces (c ∷ s) = isspace c && all_spaces s

-- `memcmp` of two pieces of equal length, or `strcmp`.
unfoldable pub same_bytes : Bytes → Bytes → Bool
same_bytes [] [] = true
same_bytes (c ∷ s) (d ∷ t) = (c == d) && same_bytes s t
same_bytes _ _ = false

-- What follows the prefix, if the text begins with it.
unfoldable pub strip_prefix : Bytes → Bytes → Option Bytes
strip_prefix [] t = some t
strip_prefix (c ∷ s) [] = none
strip_prefix (c ∷ s) (d ∷ t) = elim (c == d) [ true ↦ strip_prefix s t | false ↦ none ]

-- `strstr(text, marker)`: what follows the first marker.
unfoldable pub after_marker : Bytes → Bytes → Option Bytes
unfolding strip_prefix
after_marker marker [] = strip_prefix marker []
after_marker marker (c ∷ s) = elim (strip_prefix marker (c ∷ s)) [
  | some rest ↦ some rest
  | none ↦ after_marker marker s
]

-- `strchr(text, ' ')`: what stands before the first space, and behind it.
unfoldable pub split_space : Bytes → Option (Bytes × Bytes)
split_space [] = none
split_space (c ∷ s) = elim (c == 32) [
  | true ↦ some ([], s)
  | false ↦ elim (split_space s) [ none ↦ none | some (word, rest) ↦ some (c ∷ word, rest) ]
]

-- The text up to the first white space.
unfoldable pub first_word : Bytes → Bytes
unfolding isspace
first_word [] = []
first_word (c ∷ s) = elim (isspace c) [ true ↦ [] | false ↦ c ∷ first_word s ]

-- The value of a digit in a base of up to 16.
abbrev digit : ℕ → Option ℕ
digit c =
    if leb 48 c && leb c 57
    then some (c - 48)
    else if leb 97 c && leb c 102
    then some (c - 87)
    else if leb 65 c && leb c 70
    then some (c - 55)
    else none

abbrev pub digit_in : ℕ → ℕ → Option ℕ
digit_in base c = elim (digit c) [ none ↦ none | some v ↦ if ltb v base then some v else none ]

-- The digits that follow, read onto the value so far, and what comes behind them.
unfoldable pub read_digits : ℕ → ℕ → Bytes → ℕ × Bytes
read_digits base v [] = (v, [])
read_digits base v (c ∷ s) = elim (digit_in base c) [
  | none ↦ (v, c ∷ s)
  | some d ↦ read_digits base (v * base + d) s
]

-- At least one digit.
unfoldable pub read_number : ℕ → Bytes → Option (ℕ × Bytes)
unfolding read_digits
read_number base [] = none
read_number base (c ∷ s) = elim (digit_in base c) [
  | none ↦ none
  | some d ↦ some (read_digits base d s)
]

abbrev negated : Option (ℕ × Bytes) → Option (ℕ × Bytes)
negated none = none
negated (some (v, rest)) = some (if ltb u64_max v then u64_max else (u64_mod - v) % u64_mod, rest)

abbrev clamped : Option (ℕ × Bytes) → Option (ℕ × Bytes)
clamped none = none
clamped (some (v, rest)) = some (min v u64_max, rest)

-- An optional sign, then a number that is held at the greatest `unsigned long`, as by `strtoul`; a
-- number that is too great is that one also behind a minus.
abbrev signed : (Bytes → Option (ℕ × Bytes)) → Bytes → Option (ℕ × Bytes)
signed read [] = none
signed read (c ∷ s) =
    if c == b'-'
    then negated (read s)
    else if c == b'+'
    then clamped (read s)
    else clamped (read (c ∷ s))

-- `sscanf(text, "%zu%n", ...)`: the number and what follows it, or a result other than 1.
unfoldable pub scan_size : Bytes → Option (ℕ × Bytes)
unfolding skip_spaces read_number
scan_size s = signed (read_number 10) (skip_spaces s)

-- The prefix `0x` or `0X`.
abbrev strip_0x : Bytes → Option Bytes
strip_0x s = elim (strip_prefix (bytes "0x") s) [
  | none ↦ strip_prefix (bytes "0X") s
  | some rest ↦ some rest
]

-- The prefix is read over; without a digit behind it, glibc takes its 0 for the number.
abbrev hex_number : Bytes → Option (ℕ × Bytes)
hex_number s = elim (strip_0x s) [
  | none ↦ read_number 16 s
  | some rest ↦ some (read_digits 16 0 rest)
]

abbrev low_word : Option (ℕ × Bytes) → Option (ℕ × Bytes)
low_word none = none
low_word (some (v, rest)) = some (v % 4294967296, rest)

-- `sscanf(text, "%" SCNx32 "%n", ...)`: the low 32 bits of the number that was read.
unfoldable pub scan_hex : Bytes → Option (ℕ × Bytes)
unfolding skip_spaces read_number read_digits strip_prefix
scan_hex s = low_word (signed hex_number (skip_spaces s))

-- `fgets` into 1024 bytes, again and again: a piece ends behind a newline or at 1023 bytes.
unfoldable pub pieces_from : ℕ → Bytes → Bytes → List Bytes
pieces_from room [] [] = []
pieces_from room (h ∷ held) [] = reverse (h ∷ held) ∷ []
pieces_from room held (c ∷ s) = elim ((c == 10) || leb room 1) [
  | true ↦ reverse (c ∷ held) ∷ pieces_from 1023 [] s
  | false ↦ pieces_from (room - 1) (c ∷ held) s
]

unfoldable pub fgets_all : Bytes → List Bytes
unfolding pieces_from
fgets_all s = pieces_from 1023 [] s
