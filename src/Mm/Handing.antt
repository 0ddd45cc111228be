-- ===== src/Mm/Handing.antt =====
-- test-drm-mm/drm_mm.c: drm_mm_replace_node hands the addresses of one node over to another.
use cma_pool_log.Base.{
  ℕ, ◌+◌, ◌-◌, ◌≤◌, ◌<◌, ◌≡◌, refl, ap, ◌∙◌, sym, subst, fun_ext, inl, inr, true, false, Option,
  none, some, List, arith, u64_mod, ◌==◌, has, replace, Distinct, if◌then◌else◌, Bool-cases,
  ==_refl, Returns, Returns-mono, head?, after, get_or,
}
use cma_pool_log.Base.Ring.{has-get_after}
use cma_pool_log.Base.Renaming.{
  renamed, renamed?, has-replace, replace-Distinct, head?-replace, after-replace,
}
use cma_pool_log.Rbtree.{Balancing, in_order}
use cma_pool_log.Rbtree.Order.{Ordered}
use cma_pool_log.Mm.{Mm, head_node, ring, next_node, hole_follows, hole_node_start, hole_node_end}
use cma_pool_log.Mm.Remove.{replace_node}
use cma_pool_log.Mm.Sorting.{NotSmaller, NotAbove, Sorted}
use cma_pool_log.Mm.Index.{Indexed}
use cma_pool_log.Mm.Layout.{Tidy}
use cma_pool_log.Mm.Allocating.{Spare}
use cma_pool_log.Mm.Contract.{Space, space}
use cma_pool_log.Mm.Refining.{Space-ext}
use cma_pool_log.Mm.Renaming.{forgotten, replace-Ordered, Moved, replace_node-Moved}

-- Forgetting it changes nothing in the view.
forgotten-space : (x : ℕ) (m : Mm) → space m ≡ space (forgotten x m)
forgotten-space x m =
    Space-ext (space m) (space (forgotten x m)) (ground arith) (ground arith)
      (fun_ext λ n. ground arith)

-- The addresses of the one node belong to the other.
abbrev pub handed_over : ℕ → ℕ → Space → Space
handed_over old new s = record s {
  block = λ n. if n == new then s.block old else if n == old then none else s.block n;
}

abbrev pub HandedOver : ℕ → ℕ → Mm → Mm → Type 0
HandedOver old new m w = Tidy (forgotten old w) × (space w ≡ handed_over old new (space m))

module _ (old new : ℕ) (m w : Mm) (t : Tidy m) (h : has old m.node_list ≡ true) (p : Spare new m)
    (r : Moved old new m w) where
  other : (old == new) ≡ false
  other = ground (arith, h, p.free)

  not_head : (old == head_node) ≡ false
  not_head = ground (arith, h, t.distinct)

  no_hole : hole_follows m new ≡ false
  unfolding hole_follows
  no_hole = ground (arith, t.holes new, p.free, p.other)

  -- A node lies where the one lay whose place it has.
  Moved-fixed :
      (n : ℕ)
      → (n == new) ≡ false
      → let k = renamed old new n in
        ((w.node k).start ≡ (m.node n).start)
        × ((w.node k).size ≡ (m.node n).size)
        × ((w.node k).hole_size ≡ (m.node n).hole_size)
        × ((w.node k).scanned_block ≡ (m.node n).scanned_block)
  Moved-fixed n f = ground (arith, r.at_new, r.others n, f)

  Moved-listed :
      (n : ℕ)
      → has n w.node_list
        ≡ (if n == new then true else if n == old then false else has n m.node_list)
  Moved-listed n =
      ap (has n) r.node_list
      ∙ ground (arith, has-replace old new n m.node_list t.distinct.1 p.free, h)

  -- Every node has the place of another, but the one that was replaced.
  by_place :
      (P : ℕ → Type 0)
      → P old
      → ((k : ℕ) → (k == new) ≡ false → P (renamed old new k))
      → (n : ℕ) → P n
  by_place P left moves n = elim (Bool-cases (n == old)) [
    | inl e ↦ let same : old ≡ n = ground (arith, e) in subst P same left
    | inr e ↦ elim (Bool-cases (n == new)) [
      | inl f ↦
          let same : renamed old new old ≡ n = ground (arith, f, ==_refl old) in
          subst P same (moves old other)
      | inr f ↦ let same : renamed old new n ≡ n = ground (arith, e) in subst P same (moves n f)
    ]
  ]

  Moved-has : (k : ℕ) → (k == new) ≡ false → has (renamed old new k) (ring w) ≡ has k (ring m)
  Moved-has k f = ground (arith, Moved-listed (renamed old new k), p.other, not_head, h, f)

  Moved-ring : ring w ≡ replace old new (ring m)
  Moved-ring = ground (arith, r.node_list, not_head)

  Moved-next :
      (n : ℕ)
      → (n == new) ≡ false
      → next_node w (renamed old new n) ≡ renamed old new (next_node m n)
  Moved-next n f =
      ap (λ l. get_or (after (renamed old new n) l) head_node) Moved-ring
      ∙ ap (λ o. get_or o head_node)
          (after-replace old new n (ring m) t.distinct (ground (arith, p.free, p.other)) f)
      ∙ go (after n (ring m))
    where
      go :
          (o : Option ℕ)
          → get_or (renamed? old new o) head_node ≡ renamed old new (get_or o head_node)
      go none = ground (arith, not_head)
      go (some k) = refl

  Moved-end : (n : ℕ) → (n == new) ≡ false → hole_node_end w (renamed old new n) ≡ hole_node_end m n
  Moved-end n f =
      let there : has (next_node m n) (ring m) ≡ true =
        has-get_after n head_node (ring m) (ground arith) in
      ap (λ k. (w.node k).start) (Moved-next n f)
      ∙ (Moved-fixed (next_node m n) (ground (arith, there, p.free, p.other))).0

  Moved-follows :
      (k : ℕ) → (k == new) ≡ false → hole_follows w (renamed old new k) ≡ hole_follows m k
  unfolding hole_follows
  Moved-follows k f = ground (arith, Moved-fixed k f)

  -- A list of the holes, under the new name.
  Moved-holes :
      (xs : List ℕ)
      → Distinct xs
      → ((n : ℕ) → has n xs ≡ hole_follows m n)
      → Distinct (replace old new xs) × ((n : ℕ) → has n (replace old new xs) ≡ hole_follows w n)
  unfolding hole_follows
  Moved-holes xs d i = (
    replace-Distinct old new xs d (i new ∙ no_hole),
    by_place (λ n. has n (replace old new xs) ≡ hole_follows w n)
        (ground (arith, has-replace old new old xs d, i new ∙ no_hole, r.at_old, other))
        λ k f. ground (
          arith,
          has-replace old new (renamed old new k) xs d (i new ∙ no_hole),
          i k,
          Moved-follows k f,
          other,
        ),
  )

  follows-ne : (n : ℕ) → hole_follows m n ≡ true → (n == new) ≡ false
  unfolding hole_follows
  follows-ne n e = ground (arith, e, no_hole)

  Moved-Sorted : Sorted w
  Moved-Sorted =
      let v = t.indexed in
      let named = λ (n : ℕ) (e : hole_follows m n ≡ true). Moved-fixed n (follows-ne n e) in
      record {
        by_size = subst (Ordered (NotSmaller w)) (sym r.by_size) (
            replace-Ordered (NotSmaller m) (NotSmaller w) old new (in_order (m.holes_size).root)
              v.size
              (λ a b f g o.
                ground (arith, named a (sym (v.in_size a) ∙ f), named b (sym (v.in_size b) ∙ g), o))
              v.sorted.by_size);
        by_addr = subst (Ordered (NotAbove w)) (sym r.by_addr) (
            replace-Ordered (NotAbove m) (NotAbove w) old new (in_order m.holes_addr) v.addr
              (λ a b f g o.
                ground (arith, named a (sym (v.in_addr a) ∙ f), named b (sym (v.in_addr b) ∙ g), o))
              v.sorted.by_addr);
        largest =
            r.leftmost
            ∙ ap (renamed? old new) v.sorted.largest
            ∙ sym (head?-replace old new (in_order (m.holes_size).root))
            ∙ ap head? (sym r.by_size);
      }

  Moved-Indexed : Indexed w
  Moved-Indexed =
      let v = t.indexed in
      let in_stack = Moved-holes m.hole_stack v.stack v.in_stack in
      let in_size = Moved-holes (in_order (m.holes_size).root) v.size v.in_size in
      let in_addr = Moved-holes (in_order m.holes_addr) v.addr v.in_addr in
      record {
        stack = subst Distinct (sym r.hole_stack) in_stack.0;
        size = subst Distinct (sym r.by_size) in_size.0;
        addr = subst Distinct (sym r.by_addr) in_addr.0;
        in_stack = λ q. ap (has q) r.hole_stack ∙ in_stack.1 q;
        in_size = λ q. ap (has q) r.by_size ∙ in_size.1 q;
        in_addr = λ q. ap (has q) r.by_addr ∙ in_addr.1 q;
        sorted = Moved-Sorted;
      }

  Moved-Tidy : Tidy w
  Moved-Tidy = record {
    indexed = Moved-Indexed;
    color_adjust = r.color_adjust ∙ t.color_adjust;
    scan_active = r.scan_active ∙ t.scan_active;
    distinct =
        subst Distinct (sym Moved-ring)
          (replace-Distinct old new (ring m) t.distinct (ground (arith, p.free, p.other)));
    starts =
        by_place (λ n. (w.node n).start < u64_mod) (ground (arith, r.at_old, t.starts old))
          λ k f. ground (arith, Moved-fixed k f, t.starts k);
    head_free = ground (arith, r.others head_node, p.other, not_head, t.head_free);
    owned =
        λ n f. ground (arith, Moved-listed n, f, r.at_new, r.others n, t.owned n, t.owned old h);
    allocated = λ n f.
        ground (arith, Moved-listed n, r.at_old, r.at_new, r.others n, t.allocated n f, f, other);
    unscanned =
        by_place (λ n. (w.node n).scanned_block ≡ false) (ground (arith, r.at_old, t.unscanned old))
          λ k f. ground (arith, Moved-fixed k f, t.unscanned k);
    sizes =
        by_place
          (λ n.
            has n w.node_list ≡ true
            → (0 < (w.node n).size) × ((w.node n).start + (w.node n).size < u64_mod))
          (λ g. ground (arith, Moved-listed old, g, other))
          λ k f g. ground (
            arith,
            Moved-fixed k f,
            Moved-listed (renamed old new k),
            g,
            t.sizes k,
            t.sizes old h,
            f,
            other,
          );
    gaps =
        by_place (λ n. has n (ring w) ≡ true → hole_node_start w n ≤ hole_node_end w n)
          (λ g. ground (arith, Moved-listed old, g, other, not_head))
          λ k f g. ground (arith, Moved-fixed k f, Moved-end k f, Moved-has k f, g, t.gaps k);
    holes =
        by_place
          (λ n.
            (w.node n).hole_size
            ≡ (if has n (ring w) then hole_node_end w n - hole_node_start w n else 0))
          (ground (arith, r.at_old, Moved-listed old, other, not_head))
          λ k f. ground (arith, Moved-fixed k f, Moved-end k f, Moved-has k f, t.holes k);
  }

  Moved-space : space w ≡ handed_over old new (space m)
  Moved-space =
      let head = r.others head_node (ground (arith, not_head)) (ground (arith, p.other)) in
      Space-ext (space w) (handed_over old new (space m)) (ground (arith, head))
        (ground (arith, head))
        (fun_ext λ n. ground (arith, Moved-listed n, r.at_new, r.others n, h, other))

module _ (rb : Balancing) where
  -- In an allocator that is in order, drm_mm_replace_node hands the addresses of one of its blocks
  -- over to a node that was not part of it, and changes no other block's; and the allocator is in
  -- order once the hole size that stays in the replaced node is set to 0.
  pub replace_node-HandedOver :
      (m : Mm) (old new : ℕ)
      → Tidy m
      → has old m.node_list ≡ true
      → Spare new m
      → Returns (HandedOver old new m) (replace_node rb old new m)
  replace_node-HandedOver m old new t h p =
      Returns-mono (λ w. Moved old new m (forgotten old w)) (HandedOver old new m) _
        (replace_node-Moved rb old new m t h p)
        λ w r. (
          Moved-Tidy old new m (forgotten old w) t h p r,
          forgotten-space old w ∙ Moved-space old new m (forgotten old w) t h p r,
        )
