-- ===== src/Mm/Sorting.antt =====
-- test-drm-mm/drm_mm.c: the orders of the two trees of holes, `holes_size` and `holes_addr`.
use cma_pool_log.Base.{
  ℕ, ◌≤◌, ◌≡◌, refl, sym, true, Option, none, some, List, [], ◌∷◌, arith, ◌==◌, has, remove, head?,
  after, Distinct, subst, if◌then◌else◌,
}
use cma_pool_log.Rbtree.{
  Cached, Balancing, in_order, link, insert_color_cached, erase_cached, rb_next,
}
use cma_pool_log.Rbtree.Order.{Ordered, Ordered-mono, link-Ordered, remove-Ordered, head?-link}
use cma_pool_log.Mm.{Mm, hole_node_start}
use cma_pool_log.Mm.Holes.{insert_hole_size, insert_hole_addr, larger, lower}

-- No hole is smaller than one on its right, or behind it in memory.
abbrev pub NotSmaller : Mm → ℕ → ℕ → Type 0
NotSmaller m p q = (m.node q).hole_size ≤ (m.node p).hole_size

abbrev pub NotAbove : Mm → ℕ → ℕ → Type 0
NotAbove m p q = hole_node_start m p ≤ hole_node_start m q

-- Larger holes to the left, and lower addresses to the left; and the leftmost entry is kept at hand.
pub record Sorted (m : Mm) : Type 0 where
  pub by_size : Ordered (NotSmaller m) (in_order (m.holes_size).root)
  pub by_addr : Ordered (NotAbove m) (in_order m.holes_addr)
  pub largest : (m.holes_size).leftmost ≡ head? (in_order (m.holes_size).root)

-- The node lies where it lay, and has a hole as large.
abbrev pub SameHole : Mm → Mm → ℕ → Type 0
SameHole m w q =
    ((w.node q).start ≡ (m.node q).start)
    × ((w.node q).size ≡ (m.node q).size)
    × ((w.node q).hole_size ≡ (m.node q).hole_size)

-- The same trees, over nodes that lie the same where they stand in them.
pub Sorted-same :
    (m w : Mm)
    → w.holes_size ≡ m.holes_size
    → w.holes_addr ≡ m.holes_addr
    → ((q : ℕ) → has q (in_order (m.holes_size).root) ≡ true → SameHole m w q)
    → ((q : ℕ) → has q (in_order m.holes_addr) ≡ true → SameHole m w q)
    → Sorted m
    → Sorted w
Sorted-same m w same_size same_addr size addr s = record {
  by_size =
      subst (λ t. Ordered (NotSmaller w) (in_order t.root)) (sym same_size)
        (Ordered-mono (NotSmaller m) (NotSmaller w) (in_order (m.holes_size).root)
          (λ p q h g r. ground (arith, size p h, size q g, r)) s.by_size);
  by_addr =
      subst (λ t. Ordered (NotAbove w) (in_order t)) (sym same_addr)
        (Ordered-mono (NotAbove m) (NotAbove w) (in_order m.holes_addr)
          (λ p q h g r. ground (arith, addr p h, addr q g, r)) s.by_addr);
  largest = subst (λ (t : Cached). t.leftmost ≡ head? (in_order t.root)) (sym same_size) s.largest;
}

-- The leftmost entry goes, and the next one takes its place; or another goes.
pub leftmost-remove :
    (n : ℕ) (xs : List ℕ)
    → Distinct xs
    → elim (head? xs) as (λ _. Option ℕ) [
      | none ↦ none
      | some y ↦ if y == n then after n xs else some y
    ]
      ≡ head? (remove n xs)
leftmost-remove n [] d = refl
leftmost-remove n (x ∷ xs) d = ground arith

module _ (rb : Balancing) where
  -- The trees with one more node.
  abbrev pub linked : ℕ → Mm → Mm
  linked n m = record m {
    holes_size = insert_hole_size rb m n;
    holes_addr = insert_hole_addr rb m n;
  }

  pub linked-Sorted : (n : ℕ) (m : Mm) → Sorted m → Sorted (linked n m)
  unfolding insert_hole_size insert_hole_addr insert_color_cached
  linked-Sorted n m s = record {
    by_size = rw (rb.in_order-insert_color n (link (larger m n) n (m.holes_size).root)) (
        link-Ordered (NotSmaller m) (λ a b c f g. ground (arith, f, g)) (larger m n) n
          (m.holes_size).root (λ q h e. ground (arith, e)) (λ q h e. ground (arith, e)) s.by_size);
    by_addr = rw (rb.in_order-insert_color n (link (lower m n) n m.holes_addr)) (
        link-Ordered (NotAbove m) (λ a b c f g. ground (arith, f, g)) (lower m n) n m.holes_addr
          (λ q h e. ground (arith, e)) (λ q h e. ground (arith, e)) s.by_addr);
    largest =
        rw (rb.in_order-insert_color n (link (larger m n) n (m.holes_size).root))
          (ground (arith, s.largest, head?-link (larger m n) n (m.holes_size).root));
  }

  -- The trees without a node.
  abbrev pub unlinked : ℕ → Mm → Mm
  unlinked n m = record m {
    holes_size = erase_cached rb n m.holes_size;
    holes_addr = rb.erase n m.holes_addr;
  }

  pub unlinked-Sorted :
      (n : ℕ) (m : Mm)
      → Distinct (in_order (m.holes_size).root)
      → Distinct (in_order m.holes_addr)
      → Sorted m
      → Sorted (unlinked n m)
  unfolding erase_cached rb_next
  unlinked-Sorted n m d e s = record {
    by_size =
        rw (rb.in_order-erase n (m.holes_size).root)
          (remove-Ordered (NotSmaller m) n (in_order (m.holes_size).root) d s.by_size);
    by_addr =
        rw (rb.in_order-erase n m.holes_addr)
          (remove-Ordered (NotAbove m) n (in_order m.holes_addr) e s.by_addr);
    largest =
        rw (rb.in_order-erase n (m.holes_size).root, s.largest)
          (leftmost-remove n (in_order (m.holes_size).root) d);
  }
