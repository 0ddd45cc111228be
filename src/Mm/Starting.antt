-- ===== src/Mm/Starting.antt =====
-- test-drm-mm/drm_mm.c: drm_mm_init makes an allocator that is in order.
use cma_pool_log.Base.{
  ℕ, ap, ◌∙◌, ◌+◌, ◌<◌, ◌≡◌, refl, inl, inr, true, none, [], arith, ◌==◌, u64_mod, ltb, add64,
  sub64, Returns, Returns-mono, Bool-cases, update,
}
use cma_pool_log.Rbtree.{Balancing, leaf, empty_cached}
use cma_pool_log.Mm.{Node, Mm, cleared, head_node, hole_node_start, hole_node_end, hole_follows}
use cma_pool_log.Mm.Holes.{add_hole, init}
use cma_pool_log.Mm.Index.{Indexed, AddedHole, add_hole-AddedHole}
use cma_pool_log.Mm.Layout.{Tidy}

module _ (rb : Balancing) where
  abbrev fresh : ℕ → ℕ → Mm
  fresh start size = record {
    color_adjust = none;
    node =
        update (λ _. cleared) head_node
          (record cleared { mm = true; start = add64 start size; size = sub64 0 size });
    node_list = [];
    hole_stack = [];
    interval_tree = empty_cached;
    subtree_last = λ _. 0;
    holes_size = empty_cached;
    holes_addr = leaf;
    scan_active = 0;
  }

  -- In order, with no block yet, up to the address.
  abbrev pub Started : ℕ → Mm → Type 0
  Started end m = Tidy m × (m.node_list ≡ []) × ((m.node head_node).start ≡ end)

  -- A range that is not empty and lies below 2^64 makes an allocator that is in order, without a block.
  pub init-Tidy :
      (start size : ℕ)
      → 0 < size
      → start + size < u64_mod
      → Returns (Started (start + size)) (init rb start size)
  unfolding init hole_follows
  init-Tidy start size pos word =
      let m = fresh start size in
      let some_range : ltb start (add64 start size) ≡ true = ground (arith, pos, word) in
      let v : Indexed m = record {
        stack = tt;
        size = tt;
        addr = tt;
        in_stack = λ n. ground arith;
        in_size = λ n. ground arith;
        in_addr = λ n. ground arith;
        sorted = record { by_size = tt; by_addr = tt; largest = refl };
      } in
      let from : hole_node_start m head_node ≡ start = ground (arith, pos, word) in
      let end : hole_node_end m head_node ≡ start + size = ground (arith, word) in
      let room : sub64 (hole_node_end m head_node) (hole_node_start m head_node) ≡ size =
        ground (arith, from, end, word) in
      rw some_range (
        Returns-mono (AddedHole rb head_node m) (Started (start + size)) (add_hole rb head_node m)
          (add_hole-AddedHole rb head_node m v refl (rw room (ground (arith, pos))))
          λ w a. (
            record {
              indexed = a.indexed;
              color_adjust = a.keeps.color_adjust;
              scan_active = a.keeps.scan_active;
              distinct = rw a.keeps.node_list (refl, tt);
              starts = λ n. ground (arith, a.hole, a.keeps.others n);
              head_free = ground (arith, a.hole);
              owned = λ n e. ground (arith, a.keeps.node_list, e);
              allocated = λ n e. rw (a.keeps.node_list, a.keeps.others n e) (ground (arith, e));
              unscanned = λ n. ground (arith, a.hole, a.keeps.others n);
              sizes = λ n h. ground (arith, a.keeps.node_list, h);
              gaps = λ n h.
                  rw a.keeps.node_list (ground (arith, a.keeps.node_list, a.hole, h, from, end));
              holes = λ n. elim (Bool-cases (n == head_node)) [
                | inl e ↦ rw (a.keeps.node_list) (ground (arith, e, a.hole, from, end, room))
                | inr e ↦ rw (a.keeps.node_list, a.keeps.others n e) (ground (arith, e))
              ];
            },
            a.keeps.node_list,
            ap {A = Node} (λ b. b.start) a.hole ∙ end,
          ))
