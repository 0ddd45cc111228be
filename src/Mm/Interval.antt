-- ===== src/Mm/Interval.antt =====
-- drm_mm_interval_tree_add_node of test-drm-mm/drm_mm.c, and the removal that
-- INTERVAL_TREE_DEFINE gives. Nothing of the program reads this tree but the iterator over a range.
use cma_pool_log.Base.{
  ℕ, Bool, true, false, none, some, List, [], ◌∷◌, ◌++◌, ltb, leb, ◌==◌, if◌then◌else◌, add64,
  sub64, update, has,
}
use cma_pool_log.Rbtree.{Tree, leaf, fork, Balancing, in_order, link, links_first, rb_next}
use cma_pool_log.Mm.{Mm}

-- `LAST(node)`.
abbrev pub last_of : Mm → ℕ → ℕ
last_of m n = sub64 (add64 (m.node n).start (m.node n).size) 1

-- The entries on the walk up from `n` to the root, `n` first.
abbrev ancestors : ℕ → Tree → List ℕ
ancestors n leaf = []
ancestors n (fork c l x r) =
    if n == x
    then x ∷ []
    else if has n (in_order l)
    then ancestors n l ++ x ∷ []
    else ancestors n r ++ x ∷ []

-- The walk up from the node before the hole, which stops at an entry that is great enough.
abbrev raise : ℕ → List ℕ → (ℕ → ℕ) → ℕ → ℕ
raise last [] kept = kept
raise last (p ∷ ps) kept =
    let rest = raise last ps (update kept p last) in if leb last (kept p) then kept else rest

-- The entries on a walk down.
abbrev walk : (ℕ → Bool) → Tree → List ℕ
walk goes_left leaf = []
walk goes_left (fork c l x r) = elim (goes_left x) [
  | true ↦ x ∷ walk goes_left l
  | false ↦ x ∷ walk goes_left r
]

abbrev raise_all : ℕ → List ℕ → (ℕ → ℕ) → ℕ → ℕ
raise_all last [] kept = kept
raise_all last (p ∷ ps) kept =
    raise_all last ps (if ltb (kept p) last then update kept p last else kept)

-- The subtree on the right of the entry `n`.
abbrev pub right_of : ℕ → Tree → Tree
right_of n leaf = leaf
right_of n (fork c l x r) =
    if n == x then r else if has n (in_order l) then right_of n l else right_of n r

abbrev pub set_right_of : ℕ → Tree → Tree → Tree
set_right_of n t leaf = leaf
set_right_of n t (fork c l x r) =
    if n == x
    then fork c l x t
    else if has n (in_order l)
    then fork c (set_right_of n t l) x r
    else fork c l x (set_right_of n t r)

module _ (rb : Balancing) where
  -- The end of both walks: link the node, and let the library balance.
  abbrev add_linked : Mm → ℕ → (ℕ → ℕ) → Tree → Bool → Mm
  add_linked m n kept t leftmost =
      let (root, kept') = rb.insert_augmented (last_of m) n t kept in
      record m {
        interval_tree = record {
          root = root;
          leftmost = if leftmost then some n else (m.interval_tree).leftmost;
        };
        subtree_last = kept';
      }

  unfoldable pub interval_tree_add_node : ℕ → ℕ → Mm → Mm
  unfolding link links_first
  interval_tree_add_node hole n m =
      let last = last_of m n in
      let root = (m.interval_tree).root in
      let goes_left = λ (p : ℕ). ltb (m.node n).start (m.node p).start in
      let kept = update m.subtree_last n last in
      if (m.node hole).allocated
      then add_linked m n
          (raise_all last (walk goes_left (right_of hole root))
            (raise last (ancestors hole root) kept))
          (set_right_of hole (link goes_left n (right_of hole root)) root) false
      else add_linked m n (raise_all last (walk goes_left root) kept) (link goes_left n root)
          (links_first goes_left root)

  unfoldable pub interval_tree_remove : ℕ → Mm → Mm
  unfolding rb_next
  interval_tree_remove n m =
      let (root, kept) = rb.erase_augmented (last_of m) n (m.interval_tree).root m.subtree_last in
      record m {
        interval_tree = record {
          root = root;
          leftmost = elim (m.interval_tree).leftmost [
            | none ↦ none
            | some y ↦ if y == n then rb_next (m.interval_tree).root n else some y
          ];
        };
        subtree_last = kept;
      }
