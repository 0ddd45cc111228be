-- ===== src/Mm/Mirroring.antt =====
-- drm_mm_interval_tree_add_node of test-drm-mm/drm_mm.c: where the new entry stands in the tree.
use cma_pool_log.Base.{
  ℕ, ◌≤◌, ◌≡◌, refl, ap, ◌∙◌, sym, subst, inl, inr, Bool, true, false, List, [], ◌∷◌, ◌++◌, arith,
  ◌==◌, has, tail, insert_after, Distinct, if◌then◌else◌, Bool-cases, ==_refl, has-append, head?,
  ltb,
}
use cma_pool_log.Rbtree.{Balancing, Tree, leaf, fork, in_order, link, links_first}
use cma_pool_log.Rbtree.Linking.{Distinct-append, link-fork}
use cma_pool_log.Rbtree.Order.{Ordered, Ordered-append}
use cma_pool_log.Mm.{Mm, head_node, ring, hole_node_start, hole_follows}
use cma_pool_log.Mm.Interval.{right_of, set_right_of, interval_tree_add_node}
use cma_pool_log.Mm.Apart.{Ladder, Sized, Ladder-over}
use cma_pool_log.Mm.Laid.{Tidy-Laid, gap-Clear}
use cma_pool_log.Mm.Occupying.{Goes}

-- A walk that only goes left ends at the first place.
link_first :
    (goes_left : ℕ → Bool) (n : ℕ) (t : Tree)
    → ((q : ℕ) → has q (in_order t) ≡ true → goes_left q ≡ true)
    → (in_order (link goes_left n t) ≡ n ∷ in_order t) × (links_first goes_left t ≡ true)
unfolding link links_first
link_first g n leaf f = (refl, refl)
link_first g n (fork c l x r) f =
    let e : g x ≡ true =
      f x (ground (arith, has-append x (in_order l) (x ∷ in_order r), ==_refl x)) in
    let (a, b) =
      link_first g n l
        (λ q h. f q (ground (arith, h, has-append q (in_order l) (x ∷ in_order r)))) in
    (rw (link-fork g n c l x r, e) (ap (λ t. t ++ x ∷ in_order r) a), ground (arith, e, b))

insert_after-append :
    (p n : ℕ) (xs ys : List ℕ)
    → insert_after p n (xs ++ ys)
      ≡ (if has p xs then insert_after p n xs ++ ys else xs ++ insert_after p n ys)
insert_after-append p n [] ys = refl
insert_after-append p n (x ∷ xs) ys = ground (arith, insert_after-append p n xs ys)

-- With a new entry in front of the tree on the right of an entry, it stands just behind that.
right-insert_after :
    (p n : ℕ) (u t : Tree)
    → Distinct (in_order t)
    → has p (in_order t) ≡ true
    → in_order u ≡ n ∷ in_order (right_of p t)
    → in_order (set_right_of p u t) ≡ insert_after p n (in_order t)
right-insert_after p n u leaf d h f = cc
right-insert_after p n u (fork c l x r) d h f =
    let (dl, dr, apart) = Distinct-append (in_order l) (x ∷ in_order r) d in
    ground (
      arith,
      insert_after-append p n (in_order l) (x ∷ in_order r),
      has-append p (in_order l) (x ∷ in_order r),
      right-insert_after p n u l dl,
      right-insert_after p n u r dr.1,
      apart p,
      h,
      f,
    )

right-Ordered :
    (R : ℕ → ℕ → Type 0) (p q : ℕ) (t : Tree)
    → Distinct (in_order t)
    → Ordered R (in_order t)
    → has q (in_order (right_of p t)) ≡ true
    → R p q
right-Ordered R p q leaf d o h = cc
right-Ordered R p q (fork c l x r) d o h =
    let (dl, dr, apart) = Distinct-append (in_order l) (x ∷ in_order r) d in
    let (ol, orr, cross) = Ordered-append R (in_order l) (x ∷ in_order r) o in
    elim (Bool-cases (p == x)) [
      | inl e ↦
          let same : x ≡ p = ground (arith, e) in
          subst (λ k. R k q) same (orr.0 q (ground (arith, h, e)))
      | inr e ↦ elim (Bool-cases (has p (in_order l))) [
        | inl i ↦ right-Ordered R p q l dl ol (ground (arith, h, e, i))
        | inr i ↦ right-Ordered R p q r dr.1 orr.1 (ground (arith, h, e, i))
      ]
    ]

Ladder-Ordered :
    (m : Mm) (p : ℕ) (xs : List ℕ)
    → Ladder m p xs
    → Sized m xs
    → Ordered (λ a b. hole_node_start m a ≤ (m.node b).start) xs
Ladder-Ordered m p [] l s = tt
Ladder-Ordered m p (x ∷ xs) l s =
    let s' : Sized m xs = λ n k. s n (ground (arith, k)) in
    (λ q h. Ladder-over m x q xs l.1 s' h, Ladder-Ordered m x xs l.1 s')

-- The tree holds the blocks in the order in which they lie.
pub record Mirrors (m : Mm) : Type 0 where
  pub entries : in_order (m.interval_tree).root ≡ m.node_list
  pub leftmost : (m.interval_tree).leftmost ≡ head? m.node_list

head?-insert_after : (p n : ℕ) (xs : List ℕ) → head? (insert_after p n xs) ≡ head? xs
head?-insert_after p n [] = refl
head?-insert_after p n (x ∷ xs) = ground arith

has-right_of :
    (p q : ℕ) (t : Tree) → has q (in_order (right_of p t)) ≡ true → has q (in_order t) ≡ true
has-right_of p q leaf h = h
has-right_of p q (fork c l x r) h =
    ground
      (arith, h, has-right_of p q l, has-right_of p q r, has-append q (in_order l) (x ∷ in_order r))

module _ (hole x : ℕ) (m : Mm) (g : Goes hole x m) (s : Mirrors m) where
  abbrev goes_left : ℕ → Bool
  goes_left q = ltb (m.node x).start (m.node q).start

  there : has hole (ring m) ≡ true
  unfolding hole_follows
  there = ground (arith, (g.tidy).holes hole, g.room)

  -- The walk goes left at a block behind the hole.
  behind_left :
      (q : ℕ)
      → has q m.node_list ≡ true
      → hole_node_start m hole ≤ (m.node q).start
      → goes_left q ≡ true
  behind_left q h up = elim (gap-Clear m (Tidy-Laid m g.tidy) hole q there h) [
    | inl c ↦ ground (arith, c, up, (g.tidy).sizes q h)
    | inr c ↦ ground (arith, c, g.below, g.some_size)
  ]

  -- In the first hole it goes left everywhere.
  front_head :
      (hole == head_node) ≡ true
      → (q : ℕ) → has q (in_order (m.interval_tree).root) ≡ true
      → goes_left q ≡ true
  front_head e q h =
      let listed : has q m.node_list ≡ true = sym (ap (has q) s.entries) ∙ h in
      let at_head : head_node ≡ hole = ground (arith, e) in
      behind_left q listed (
        subst (λ k. hole_node_start m k ≤ (m.node q).start) at_head
          (Ladder-over m head_node q m.node_list (Tidy-Laid m g.tidy).ladder
            (λ k i. ((g.tidy).sizes k i).1) listed))

  -- And on the right of the block before the hole.
  front_block :
      (q : ℕ) → has q (in_order (right_of hole (m.interval_tree).root)) ≡ true → goes_left q ≡ true
  front_block q h =
      let R = λ (a b : ℕ). hole_node_start m a ≤ (m.node b).start in
      let root = (m.interval_tree).root in
      behind_left q (sym (ap (has q) s.entries) ∙ has-right_of hole q root h) (
        right-Ordered R hole q root (subst Distinct (sym s.entries) (g.tidy).distinct.1)
          (subst (Ordered R) (sym s.entries) (
            Ladder-Ordered m head_node m.node_list (Tidy-Laid m g.tidy).ladder
              λ k i. ((g.tidy).sizes k i).1))
          h)

  -- The new entry stands in the tree where the list has it.
  pub interval_tree_add_node-Mirrors :
      (rb : Balancing)
      → Mirrors (
          interval_tree_add_node rb hole x
            (record m { node_list = tail (insert_after hole x (ring m)) }))
  unfolding interval_tree_add_node
  interval_tree_add_node-Mirrors rb =
      let t = g.tidy in
      let root = (m.interval_tree).root in
      elim (Bool-cases (hole == head_node)) [
        | inl e ↦
            let free : (m.node hole).allocated ≡ false = ground (arith, e, t.head_free) in
            let (front, only_left) = link_first goes_left x root (front_head e) in
            rw (free, interval_tree_add_node)
              (record {
                entries =
                    rb.in_order-insert_augmented _ x _ _ ∙ front ∙ ground (arith, e, s.entries);
                leftmost = ground (arith, only_left, e);
              })
        | inr e ↦
            let listed : has hole m.node_list ≡ true = ground (arith, there, e) in
            let used : (m.node hole).allocated ≡ true = t.allocated hole e ∙ listed in
            let here : has hole (in_order root) ≡ true = ap (has hole) s.entries ∙ listed in
            let apart : Distinct (in_order root) = subst Distinct (sym s.entries) t.distinct.1 in
            let (front, _) = link_first goes_left x (right_of hole root) front_block in
            rw (used, interval_tree_add_node)
              (record {
                entries =
                    rb.in_order-insert_augmented _ x _ _
                    ∙ right-insert_after hole x (link goes_left x (right_of hole root)) root apart
                        here front
                    ∙ ap (insert_after hole x) s.entries
                    ∙ ground (arith, e);
                leftmost = ground (arith, e, s.leftmost, head?-insert_after hole x m.node_list);
              })
      ]
