-- ===== src/Rbtree.antt =====
-- The red-black trees of rbtree.c, as far as drm_mm.c looks into them: the shape of a tree, which
-- its search loops walk, and the order of its entries. Balancing is the library's: it is a
-- parameter here, of which only the effect on the order is used.
pub mod Linking
pub mod Order
use mathlib.Core.List.{append_assoc}
use cma_pool_log.Base.{
  remove-append, ℕ, ◌≡◌, refl, Bool, true, false, Option, none, some, List, [], ◌∷◌, ◌++◌, reverse,
  arith, ◌==◌, if◌then◌else◌, after, remove, has,
}

pub data Colour : Type 0 where
  red black : Colour

-- An entry is the pointer of the object that the `rb_node` stands in.
pub data Tree : Type 0 where
  leaf : Tree
  fork : Colour → Tree → ℕ → Tree → Tree

-- `struct rb_root_cached`.
pub record Cached : Type 0 where
  pub root : Tree
  pub leftmost : Option ℕ

abbrev pub empty_cached : Cached
empty_cached = record { root = leaf; leftmost = none }

-- The entries from left to right.
abbrev pub in_order : Tree → List ℕ
in_order leaf = []
in_order (fork c l x r) = in_order l ++ x ∷ in_order r

-- What `rb_insert_color` does to the tree that holds the newly linked entry, and `rb_erase`.
pub record Balancing : Type 0 where
  pub insert_color : ℕ → Tree → Tree
  pub erase : ℕ → Tree → Tree
  -- The same for the tree whose entries also keep the greatest last address below them: `last` is
  -- that of an entry itself, and the map of the kept ones is changed along.
  pub insert_augmented : (last : ℕ → ℕ) → ℕ → Tree → (ℕ → ℕ) → Tree × (ℕ → ℕ)
  pub erase_augmented : (last : ℕ → ℕ) → ℕ → Tree → (ℕ → ℕ) → Tree × (ℕ → ℕ)
  pub in_order-insert_color : (x : ℕ) (t : Tree) → in_order (insert_color x t) ≡ in_order t
  pub in_order-erase : (x : ℕ) (t : Tree) → in_order (erase x t) ≡ remove x (in_order t)
  pub in_order-insert_augmented :
      (last : ℕ → ℕ) (x : ℕ) (t : Tree) (kept : ℕ → ℕ)
      → in_order (insert_augmented last x t kept).0 ≡ in_order t
  pub in_order-erase_augmented :
      (last : ℕ → ℕ) (x : ℕ) (t : Tree) (kept : ℕ → ℕ)
      → in_order (erase_augmented last x t kept).0 ≡ remove x (in_order t)

-- `rb_next`, `rb_prev` and `rb_first_cached`, by the order of the entries.
unfoldable pub rb_next : Tree → ℕ → Option ℕ
rb_next t x = after x (in_order t)

unfoldable pub rb_prev : Tree → ℕ → Option ℕ
rb_prev t x = after x (reverse (in_order t))

-- `rb_link_node`, at the place where a walk down from the root ends: left where the test says so.
unfoldable pub link : (ℕ → Bool) → ℕ → Tree → Tree
link goes_left n leaf = fork Colour.red leaf n leaf
link goes_left n (fork c l x r) = elim (goes_left x) [
  | true ↦ fork c (link goes_left n l) x r
  | false ↦ fork c l x (link goes_left n r)
]

-- Whether that walk only ever went left.
unfoldable pub links_first : (ℕ → Bool) → Tree → Bool
links_first goes_left leaf = true
links_first goes_left (fork c l x r) = elim (goes_left x) [
  | true ↦ links_first goes_left l
  | false ↦ false
]

module _ (rb : Balancing) where
  -- `rb_insert_color_cached` and `rb_erase_cached` of linux/rbtree.h.
  unfoldable pub insert_color_cached : ℕ → Cached → Bool → Cached
  insert_color_cached x t first = record {
    root = rb.insert_color x t.root;
    leftmost = if first then some x else t.leftmost;
  }

  unfoldable pub erase_cached : ℕ → Cached → Cached
  unfolding rb_next
  erase_cached x t = record {
    root = rb.erase x t.root;
    leftmost = elim t.leftmost [
      | none ↦ none
      | some y ↦ if y == x then rb_next t.root x else some y
    ];
  }

-- A balancing that does none: the tree grows as it is linked, and an entry that goes is replaced by
-- the tree on its left, under which the one on its right hangs.
abbrev hang : Tree → Tree → Tree
hang leaf r = r
hang (fork c l x m) r = fork c l x (hang m r)

in_order-hang : (l r : Tree) → in_order (hang l r) ≡ in_order l ++ in_order r
in_order-hang leaf r = refl
in_order-hang (fork c l x m) r = simp (in_order-hang m r, append_assoc)

abbrev pub plain_erase : ℕ → Tree → Tree
plain_erase x leaf = leaf
plain_erase x (fork c l y r) =
    if has x (in_order l)
    then fork c (plain_erase x l) y r
    else if x == y
    then hang l r
    else fork c l y (plain_erase x r)

pub in_order-plain_erase : (x : ℕ) (t : Tree) → in_order (plain_erase x t) ≡ remove x (in_order t)
in_order-plain_erase x leaf = refl
in_order-plain_erase x (fork c l y r) = ground (
  arith,
  remove-append x (in_order l) (y ∷ in_order r),
  in_order-hang l r,
  in_order-plain_erase x l,
  in_order-plain_erase x r,
)

abbrev pub plain : Balancing
plain = record {
  insert_color = λ x t. t;
  erase = plain_erase;
  insert_augmented = λ last x t kept. (t, kept);
  erase_augmented = λ last x t kept. (plain_erase x t, kept);
  in_order-insert_color = λ x t. refl;
  in_order-erase = in_order-plain_erase;
  in_order-insert_augmented = λ last x t kept. refl;
  in_order-erase_augmented = λ last x t kept. in_order-plain_erase x t;
}
