-- ===== src/Pool/Reading.antt =====
-- test-drm-mm/main.c: the text that `dump_data` prints says what is in the pool.
use cma_pool_log.Base.{
  ℕ, zero, suc, ◌<◌, ◌≡◌, refl, ap, ◌∙◌, Bool, true, false, Option, none, some, List, [], ◌∷◌, ◌++◌,
  arith, ◌==◌, length, if◌then◌else◌,
}
use cma_pool_log.Text.{Bytes, bytes, strip_prefix, read_number, digit_in}
use cma_pool_log.Text.Printf.{decimal}
use cma_pool_log.Text.Digits.{decimal-read}
use cma_pool_log.Pool.{Madv, willneed, dontneed, Entry, Dump}
use cma_pool_log.Pool.Printing.{bool_str, madv_str, entry_text, entries_text, dump_text}

-- A reader of the text, written against the layout and not from the code that prints it.
infixl 5 ◌>>=◌
abbrev ◌>>=◌ {ℓ κ} : {A : Type ℓ} {B : Type κ} → Option A → (A → Option B) → Option B
none >>= f = none
some a >>= f = f a

abbrev either : Bytes → Bytes → Bytes → Option (Bool × Bytes)
either yes_text no_text s = elim (strip_prefix yes_text s) [
  | some rest ↦ some (true, rest)
  | none ↦ elim (strip_prefix no_text s) [ some rest ↦ some (false, rest) | none ↦ none ]
]

read_bool : Bytes → Option (Bool × Bytes)
read_bool = either (bytes "true") (bytes "false")

read_madv : Bytes → Option (Madv × Bytes)
read_madv s = do
  (needed, rest) ← either (bytes "willneed") (bytes "dontneed") s
  some (if needed then willneed else dontneed, rest)

read_entry : Bytes → Option (Entry × Bytes)
read_entry s = do
  s₁ ← strip_prefix (bytes "\n      { \"name\": ") s
  (name, s₂) ← read_number 10 s₁
  s₃ ← strip_prefix (bytes ", \"size\": ") s₂
  (size, s₄) ← read_number 10 s₃
  s₅ ← strip_prefix (bytes ", \"unmoveable\": ") s₄
  (unmoveable, s₆) ← read_bool s₅
  s₇ ← strip_prefix (bytes ", \"in_use\": ") s₆
  (in_use, s₈) ← read_bool s₇
  s₉ ← strip_prefix (bytes ", \"madv\": \"") s₈
  (madv, t₁) ← read_madv s₉
  t₂ ← strip_prefix (bytes "\", \"offset\": ") t₁
  (offset, t₃) ← read_number 10 t₂
  t₄ ← strip_prefix (bytes " }") t₃
  some (
    record {
      name = name;
      size = size;
      unmoveable = unmoveable;
      in_use = in_use;
      madv = madv;
      offset = offset;
    },
    t₄,
  )

strip_prefix-append : (prefix s : Bytes) → strip_prefix prefix (prefix ++ s) ≡ some s
unfolding strip_prefix
strip_prefix-append [] s = refl
strip_prefix-append (c ∷ prefix) s =
    let same : (c == c) ≡ true = ground arith in
    rw (same, strip_prefix) (strip_prefix-append prefix s)

bool_str-read : (b : Bool) (s : Bytes) → read_bool (bool_str b ++ s) ≡ some (b, s)
unfolding read_bool bool_str strip_prefix
bool_str-read true s = refl
bool_str-read false s = refl

madv_str-read : (m : Madv) (s : Bytes) → read_madv (madv_str m ++ s) ≡ some (m, s)
unfolding read_madv madv_str strip_prefix
madv_str-read willneed s = refl
madv_str-read dontneed s = refl

-- The steps of the reader, each on the text that is printed for it.
module _ {ℓ} {A : Type ℓ} where
  read_text : (text s : Bytes) (f : Bytes → Option A) → (strip_prefix text (text ++ s) >>= f) ≡ f s
  read_text text s f = ap (λ o. o >>= f) (strip_prefix-append text s)

  read_decimal :
      (n c : ℕ) (rest : Bytes) (f : ℕ × Bytes → Option A)
      → digit_in 10 c ≡ none
      → (read_number 10 (decimal n (c ∷ rest)) >>= f) ≡ f (n, c ∷ rest)
  read_decimal n c rest f h = ap (λ o. o >>= f) (decimal-read n c rest h)

  read_bool_str :
      (b : Bool) (s : Bytes) (f : Bool × Bytes → Option A)
      → (read_bool (bool_str b ++ s) >>= f) ≡ f (b, s)
  read_bool_str b s f = ap (λ o. o >>= f) (bool_str-read b s)

  read_madv_str :
      (m : Madv) (s : Bytes) (f : Madv × Bytes → Option A)
      → (read_madv (madv_str m ++ s) >>= f) ≡ f (m, s)
  read_madv_str m s f = ap (λ o. o >>= f) (madv_str-read m s)

entry_text-read : (e : Entry) (next : Bytes) → read_entry (entry_text e next) ≡ some (e, next)
unfolding read_entry entry_text
entry_text-read e next =
    read_text (bytes "\n      { \"name\": ") _ _
    ∙ read_decimal e.name b',' _ _ refl
    ∙ read_text (bytes ", \"size\": ") _ _
    ∙ read_decimal e.size b',' _ _ refl
    ∙ read_text (bytes ", \"unmoveable\": ") _ _
    ∙ read_bool_str e.unmoveable _ _
    ∙ read_text (bytes ", \"in_use\": ") _ _
    ∙ read_bool_str e.in_use _ _
    ∙ read_text (bytes ", \"madv\": \"") _ _
    ∙ read_madv_str e.madv _ _
    ∙ read_text (bytes "\", \"offset\": ") _ _
    ∙ read_decimal e.offset b' ' _ _ refl
    ∙ read_text (bytes " }") _ _

then_read : {A B : Type 0} {o : Option A} {a : A} (f : A → Option B) → o ≡ some a → (o >>= f) ≡ f a
then_read f e = ap (λ o. o >>= f) e

-- The fuel is for the entries: one more than there are is enough.
read_entries : ℕ → Bool → Bytes → Option (List Entry × Bytes)
read_entries zero first s = none
read_entries (suc fuel) first s = elim (strip_prefix (bytes "\n   ]\n}\n") s) [
  | some rest ↦ some ([], rest)
  | none ↦ (do
    s' ← (if first then some s else strip_prefix (bytes ",") s)
    (e, t) ← read_entry s'
    (es, rest) ← read_entries fuel false t
    some (e ∷ es, rest))
]

pub read_dump : ℕ → Bytes → Option (Dump × Bytes)
read_dump fuel s = do
  s₁ ← strip_prefix (bytes "{\n   \"overflow\": ") s
  (overflow, s₂) ← read_number 10 s₁
  s₃ ← strip_prefix (bytes ",\n   \"buffers\": [") s₂
  (es, rest) ← read_entries fuel true s₃
  some (record { overflow = overflow; buffers = es }, rest)

entries_text-read :
    (fuel : ℕ) (first : Bool) (es : List Entry) (next : Bytes)
    → length es < fuel
    → read_entries fuel first (entries_text first es (bytes "\n   ]\n}\n" ++ next))
      ≡ some (es, next)
unfolding read_entries entries_text strip_prefix
entries_text-read zero first es next h = absurd (omega arith)
entries_text-read (suc fuel) first [] next h = refl
entries_text-read (suc fuel) true (e ∷ es) next h =
    then_read _ (entry_text-read e (entries_text false es (bytes "\n   ]\n}\n" ++ next)))
    ∙ then_read _ (entries_text-read fuel false es next (omega (arith, h)))
entries_text-read (suc fuel) false (e ∷ es) next h =
    then_read _ (entry_text-read e (entries_text false es (bytes "\n   ]\n}\n" ++ next)))
    ∙ then_read _ (entries_text-read fuel false es next (omega (arith, h)))

-- The text of a dump, read back, gives the values that are in it, whatever is printed behind it: the
-- overflow and, in the order of the list, each buffer's name, size, marks and offset.
pub dump_text-read :
    (fuel : ℕ) (d : Dump) (next : Bytes)
    → length d.buffers < fuel
    → read_dump fuel (dump_text d next) ≡ some (d, next)
unfolding read_dump dump_text
dump_text-read fuel d next h =
    read_text (bytes "{\n   \"overflow\": ") _ _
    ∙ read_decimal d.overflow b',' _ _ refl
    ∙ read_text (bytes ",\n   \"buffers\": [") _ _
    ∙ then_read _ (entries_text-read fuel true d.buffers next h)
