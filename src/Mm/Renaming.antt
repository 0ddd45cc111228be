-- ===== src/Mm/Renaming.antt =====
-- test-drm-mm/drm_mm.c: what drm_mm_replace_node does to the lists, the trees and the two nodes.
use cma_pool_log.Base.{
  ℕ, ◌≡◌, refl, ap, ◌∙◌, sym, subst, inl, inr, true, false, List, [], ◌∷◌, arith, ◌==◌, has,
  replace, Distinct, Bool-cases, ==_refl, Returns, head?,
}
use cma_pool_log.Base.Renaming.{renamed, renamed?, replace_absent, head?-replace, replace-append}
use cma_pool_log.Rbtree.{Balancing, Tree, leaf, fork, in_order}
use cma_pool_log.Rbtree.Linking.{Distinct-append}
use cma_pool_log.Rbtree.Order.{Ordered}
use cma_pool_log.Mm.{Mm, head_node, hole_follows, write}
use cma_pool_log.Mm.Remove.{rb_replace, replace_node}
use cma_pool_log.Mm.Layout.{Tidy}
use cma_pool_log.Mm.Allocating.{Spare}

pub in_order-rb_replace :
    (old new : ℕ) (t : Tree)
    → Distinct (in_order t)
    → in_order (rb_replace old new t) ≡ replace old new (in_order t)
in_order-rb_replace old new leaf d = refl
in_order-rb_replace old new (fork c l x r) d =
    let (dl, dr, apart) = Distinct-append (in_order l) (x ∷ in_order r) d in
    rw
      (
        in_order-rb_replace old new l dl,
        in_order-rb_replace old new r dr.1,
        replace-append old new (in_order l) (x ∷ in_order r),
      )
      (ground (
        arith,
        dr.0,
        apart old,
        replace_absent old new (in_order l),
        replace_absent old new (in_order r),
      ))

-- The entry whose place an entry has.
replaced_from :
    (old new q : ℕ) (xs : List ℕ)
    → has q (replace old new xs) ≡ true
    → Distinct xs
    → (p : ℕ) × (has p xs ≡ true) × (renamed old new p ≡ q)
replaced_from old new q [] h d = cc
replaced_from old new q (x ∷ xs) h d = elim (Bool-cases (old == x)) [
  | inl e ↦ elim (Bool-cases (q == new)) [
    | inl i ↦ (x, ground (arith, ==_refl x), ground (arith, e, i))
    | inr i ↦ (q, ground (arith, h, e, i), ground (arith, h, e, i, d.0))
  ]
  | inr e ↦ elim (Bool-cases (q == x)) [
    | inl i ↦ (x, ground (arith, ==_refl x), ground (arith, e, i))
    | inr i ↦
        let (p, there, same) = replaced_from old new q xs (ground (arith, h, e, i)) d.1 in
        (p, ground (arith, there), same)
  ]
]

-- Relations that the entries keep under their new names.
pub replace-Ordered :
    (R S : ℕ → ℕ → Type 0) (old new : ℕ) (xs : List ℕ)
    → Distinct xs
    → ((p q : ℕ)
        → has p xs ≡ true
        → has q xs ≡ true
        → R p q
        → S (renamed old new p) (renamed old new q))
    → Ordered R xs
    → Ordered S (replace old new xs)
replace-Ordered R S old new [] d f o = tt
replace-Ordered R S old new (x ∷ xs) d f o =
    let same : replace old new (x ∷ xs) ≡ renamed old new x ∷ replace old new xs =
      ground (arith, replace_absent old new xs, d.0) in
    subst (Ordered S) (sym same) (
      λ q g.
          let (p, there, e) = replaced_from old new q xs g d.1 in
          subst (S (renamed old new x)) e
            (f x p (ground (arith, ==_refl x)) (ground (arith, there)) (o.0 p there)),
      replace-Ordered R S old new xs d.1 (λ p q h g. f p q (ground (arith, h)) (ground (arith, g)))
          o.1,
    )

-- The node that was replaced keeps its old hole size, which the next insertion of it sets to 0.
abbrev pub forgotten : ℕ → Mm → Mm
forgotten x m = write m x (record (m.node x) { hole_size = 0 })

-- The fields as they are by name.
pub record Moved (old new : ℕ) (m w : Mm) : Type 0 where
  pub color_adjust : w.color_adjust ≡ m.color_adjust
  pub scan_active : w.scan_active ≡ m.scan_active
  pub node_list : w.node_list ≡ replace old new m.node_list
  pub hole_stack : w.hole_stack ≡ replace old new m.hole_stack
  pub by_size : in_order (w.holes_size).root ≡ replace old new (in_order (m.holes_size).root)
  pub leftmost : (w.holes_size).leftmost ≡ renamed? old new (m.holes_size).leftmost
  pub by_addr : in_order w.holes_addr ≡ replace old new (in_order m.holes_addr)
  pub at_new : w.node new ≡ record (m.node old) { allocated = true }
  pub at_old : w.node old ≡ record (m.node old) { allocated = false; hole_size = 0 }
  pub others : (n : ℕ) → (n == old) ≡ false → (n == new) ≡ false → w.node n ≡ m.node n

module _ (rb : Balancing) where
  pub replace_node-Moved :
      (old new : ℕ) (m : Mm)
      → Tidy m
      → has old m.node_list ≡ true
      → Spare new m
      → Returns (λ w. Moved old new m (forgotten old w)) (replace_node rb old new m)
  unfolding replace_node hole_follows
  replace_node-Moved old new m t h p =
      let not_head : (old == head_node) ≡ false = ground (arith, h, t.distinct) in
      let other : (old == new) ≡ false = ground (arith, h, p.free) in
      let allocated : (m.node old).allocated ≡ true = t.allocated old not_head ∙ h in
      rw allocated (elim (Bool-cases (hole_follows m old)) [
        | inl e ↦
            rw (e, hole_follows)
              (record {
                color_adjust = refl;
                scan_active = refl;
                node_list = refl;
                hole_stack = refl;
                by_size = in_order-rb_replace old new (m.holes_size).root t.indexed.size;
                leftmost = ground arith;
                by_addr = in_order-rb_replace old new m.holes_addr t.indexed.addr;
                at_new = ground (arith, other, ==_refl new);
                at_old = ground (arith, other, ==_refl old);
                others = λ n f g. ground (arith, f, g);
              })
        | inr e ↦
            rw (e, hole_follows)
              (record {
                color_adjust = refl;
                scan_active = refl;
                node_list = refl;
                hole_stack = sym (replace_absent old new m.hole_stack (t.indexed.in_stack old ∙ e));
                by_size = sym (
                    replace_absent old new (in_order (m.holes_size).root)
                      (t.indexed.in_size old ∙ e));
                leftmost = rw t.indexed.sorted.largest (
                    sym (
                      ap head? (
                        replace_absent old new (in_order (m.holes_size).root)
                          (t.indexed.in_size old ∙ e)))
                    ∙ head?-replace old new (in_order (m.holes_size).root));
                by_addr =
                    sym
                      (replace_absent old new (in_order m.holes_addr) (t.indexed.in_addr old ∙ e));
                at_new = ground (arith, other, ==_refl new);
                at_old = ground (arith, other, ==_refl old);
                others = λ n f g. ground (arith, f, g);
              })
      ])
