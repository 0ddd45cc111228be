-- ===== src/Mm/Replaced.antt =====
-- test-drm-mm/drm_mm.c: drm_mm_replace_node hands over the place in the interval tree too.
use cma_pool_log.Base.{
  ℕ, ◌≡◌, sym, ap, subst, ◌∙◌, true, arith, has, replace, head?, Distinct, assert, Ensures,
  any-Ensures, Returns, Returns-mono, both-Returns,
}
use cma_pool_log.Base.Renaming.{head?-replace}
use cma_pool_log.Rbtree.{Balancing, in_order}
use cma_pool_log.Mm.{Mm}
use cma_pool_log.Mm.Remove.{rb_replace_cached, replace_node}
use cma_pool_log.Mm.Layout.{Tidy}
use cma_pool_log.Mm.Allocating.{Spare}
use cma_pool_log.Mm.Mirroring.{Mirrors}
use cma_pool_log.Mm.Renaming.{in_order-rb_replace}
use cma_pool_log.Mm.Handing.{HandedOver, replace_node-HandedOver}

-- The same entries, with the new one for the old one.
record Renamed (old new : ℕ) (m w : Mm) : Type 0 where
  node_list : w.node_list ≡ replace old new m.node_list
  interval_tree : w.interval_tree ≡ rb_replace_cached old new m.interval_tree

Renamed-Mirrors : (old new : ℕ) (m w : Mm) → Tidy m → Mirrors m → Renamed old new m w → Mirrors w
Renamed-Mirrors old new m w t s r = record {
  entries =
      ap (λ c. in_order c.root) r.interval_tree
      ∙ in_order-rb_replace old new (m.interval_tree).root
          (subst Distinct (sym s.entries) t.distinct.1)
      ∙ ap (replace old new) s.entries
      ∙ sym r.node_list;
  leftmost =
      ap (λ c. c.leftmost) r.interval_tree
      ∙ ground (arith, s.leftmost, head?-replace old new m.node_list)
      ∙ ap head? (sym r.node_list);
}

module _ (rb : Balancing) where
  replace_node-Renamed :
      (m : Mm) (old new : ℕ) → Ensures (Renamed old new m) (replace_node rb old new m)
  unfolding replace_node
  replace_node-Renamed m old new =
      any-Ensures (Renamed old new m) (assert (m.node old).allocated) _
        λ _. record { node_list = ground arith; interval_tree = ground arith }

  -- In an allocator that is in order and whose interval tree holds the blocks of the list in the
  -- list's order, drm_mm_replace_node of one of its blocks by a node that was not part of it returns,
  -- the addresses are handed over, and the tree and the list are alike again, with the new node at
  -- the old one's place.
  pub replace_node-Mirrors :
      (m : Mm) (old new : ℕ)
      → Tidy m
      → Mirrors m
      → has old m.node_list ≡ true
      → Spare new m
      → Returns
          (λ w. HandedOver old new m w × Mirrors w × (w.node_list ≡ replace old new m.node_list))
          (replace_node rb old new m)
  replace_node-Mirrors m old new t s h p =
      Returns-mono (λ w. HandedOver old new m w × Renamed old new m w)
        (λ w. HandedOver old new m w × Mirrors w × (w.node_list ≡ replace old new m.node_list)) _
        (both-Returns (HandedOver old new m) (Renamed old new m) _
          (replace_node-HandedOver rb m old new t h p) (replace_node-Renamed m old new))
        λ w (g, r). (g, Renamed-Mirrors old new m w t s r, r.node_list)
