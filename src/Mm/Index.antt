-- ===== src/Mm/Index.antt =====
-- test-drm-mm/drm_mm.c: the stack and the two trees of holes, which add_hole and rm_hole keep alike.
use cma_pool_log.Base.{
  ℕ, ◌≡◌, refl, ap, ◌∙◌, true, false, ◌∷◌, arith, ◌==◌, sub64, has, Distinct, has-remove, remove,
  update, remove-Distinct, ok, assert, Returns, ==_refl, subst, sym, ◌>>◌,
}
use cma_pool_log.Rbtree.{Balancing, in_order, link, insert_color_cached, erase_cached}
use cma_pool_log.Rbtree.Linking.{has-link, link-Distinct}
use cma_pool_log.Mm.{Mm, hole_follows, hole_node_start, hole_node_end, write}
use cma_pool_log.Mm.Sorting.{Sorted, Sorted-same, linked, unlinked, linked-Sorted, unlinked-Sorted}
use cma_pool_log.Mm.Holes.{add_hole, rm_hole, insert_hole_size, insert_hole_addr, larger, lower}

-- The stack and both trees hold each hole once, and nothing else, and the trees are in order. A hole
-- goes by the node before it.
pub record Indexed (m : Mm) : Type 0 where
  pub stack : Distinct m.hole_stack
  pub size : Distinct (in_order (m.holes_size).root)
  pub addr : Distinct (in_order m.holes_addr)
  pub in_stack : (n : ℕ) → has n m.hole_stack ≡ hole_follows m n
  pub in_size : (n : ℕ) → has n (in_order (m.holes_size).root) ≡ hole_follows m n
  pub in_addr : (n : ℕ) → has n (in_order m.holes_addr) ≡ hole_follows m n
  pub sorted : Sorted m

-- What add_hole and rm_hole leave as it is.
pub record Keeps (n : ℕ) (m w : Mm) : Type 0 where
  pub color_adjust : w.color_adjust ≡ m.color_adjust
  pub node_list : w.node_list ≡ m.node_list
  pub scan_active : w.scan_active ≡ m.scan_active
  pub others : (q : ℕ) → (q == n) ≡ false → w.node q ≡ m.node q

module _ (rb : Balancing) where
  pub record AddedHole (n : ℕ) (m w : Mm) : Type 0 where
    pub keeps : Keeps n m w
    pub indexed : Indexed w
    pub hole :
        w.node n ≡ record (m.node n) { hole_size = sub64 (hole_node_end m n) (hole_node_start m n) }

  abbrev measured : ℕ → Mm → Mm
  measured n m =
      write m n (record (m.node n) { hole_size = sub64 (hole_node_end m n) (hole_node_start m n) })

  abbrev with_hole : ℕ → Mm → Mm
  with_hole n m = record (measured n m) {
    holes_size = insert_hole_size rb (measured n m) n;
    holes_addr = insert_hole_addr rb (measured n m) n;
    hole_stack = n ∷ m.hole_stack;
  }

  add_hole-with_hole :
      (n : ℕ) (m : Mm)
      → (sub64 (hole_node_end m n) (hole_node_start m n) == 0) ≡ false
      → add_hole rb n m ≡ ok (with_hole n m)
  unfolding add_hole hole_follows
  add_hole-with_hole n m room =
      let follows : hole_follows (measured n m) n ≡ true = ground (arith, ==_refl n) in
      ap (λ b. assert b >> ok (with_hole n m)) follows

  with_hole-Indexed :
      (n : ℕ) (m : Mm)
      → Indexed m
      → hole_follows m n ≡ false
      → (sub64 (hole_node_end m n) (hole_node_start m n) == 0) ≡ false
      → Indexed (with_hole n m)
  unfolding hole_follows insert_hole_size insert_hole_addr insert_color_cached
  with_hole-Indexed n m v free room = record {
    stack = (ground (arith, v.in_stack n), v.stack);
    size =
        rw (rb.in_order-insert_color n (link (larger (measured n m) n) n (m.holes_size).root)) (
          link-Distinct (larger (measured n m) n) n (m.holes_size).root (v.in_size n ∙ free)
            v.size);
    addr =
        rw (rb.in_order-insert_color n (link (lower (measured n m) n) n m.holes_addr))
          (link-Distinct (lower (measured n m) n) n m.holes_addr (v.in_addr n ∙ free) v.addr);
    in_stack = λ q. ground (arith, v.in_stack q);
    in_size = λ q.
        rw (rb.in_order-insert_color n (link (larger (measured n m) n) n (m.holes_size).root))
          (ground (arith, has-link (larger (measured n m) n) n q (m.holes_size).root, v.in_size q));
    in_addr = λ q.
        rw (rb.in_order-insert_color n (link (lower (measured n m) n) n m.holes_addr))
          (ground (arith, has-link (lower (measured n m) n) n q m.holes_addr, v.in_addr q));
    sorted =
        Sorted-same (linked rb n (measured n m)) (with_hole n m) refl refl
          (λ q h. (refl, refl, refl)) (λ q h. (refl, refl, refl))
          (linked-Sorted rb n (measured n m) (
            Sorted-same m (measured n m) refl refl (λ q h. ground (arith, h, v.in_size q, free))
              (λ q h. ground (arith, h, v.in_addr q, free)) v.sorted));
  }

  -- A node that no hole follows so far, and room behind it: add_hole asserts nothing that fails.
  pub add_hole-AddedHole :
      (n : ℕ) (m : Mm)
      → Indexed m
      → hole_follows m n ≡ false
      → (sub64 (hole_node_end m n) (hole_node_start m n) == 0) ≡ false
      → Returns (AddedHole n m) (add_hole rb n m)
  add_hole-AddedHole n m v free room =
      subst (Returns (AddedHole n m)) (sym (add_hole-with_hole n m room)) (record {
        keeps = record {
          color_adjust = refl;
          node_list = refl;
          scan_active = refl;
          others = λ q h. ground arith;
        };
        indexed = with_hole-Indexed n m v free room;
        hole = ground (arith, ==_refl n);
      })

  pub record RemovedHole (n : ℕ) (m w : Mm) : Type 0 where
    pub keeps : Keeps n m w
    pub indexed : Indexed w
    pub hole : w.node n ≡ record (m.node n) { hole_size = 0 }

  abbrev without_hole : ℕ → Mm → Mm
  without_hole n m = record m {
    hole_stack = remove n m.hole_stack;
    holes_size = erase_cached rb n m.holes_size;
    holes_addr = rb.erase n m.holes_addr;
    node = update m.node n (record (m.node n) { hole_size = 0 });
  }

  -- A node that a hole follows: rm_hole asserts nothing that fails.
  pub rm_hole-RemovedHole :
      (n : ℕ) (m : Mm)
      → Indexed m
      → hole_follows m n ≡ true
      → Returns (RemovedHole n m) (rm_hole rb n m)
  unfolding rm_hole hole_follows erase_cached
  rm_hole-RemovedHole n m v follows = rw (follows) (record {
    keeps = record {
      color_adjust = refl;
      node_list = refl;
      scan_active = refl;
      others = λ q h. ground arith;
    };
    indexed = record {
      stack = remove-Distinct n m.hole_stack v.stack;
      size =
          rw (rb.in_order-erase n (m.holes_size).root)
            (remove-Distinct n (in_order (m.holes_size).root) v.size);
      addr =
          rw (rb.in_order-erase n m.holes_addr) (remove-Distinct n (in_order m.holes_addr) v.addr);
      in_stack = λ q. ground (arith, has-remove n q m.hole_stack v.stack, v.in_stack q);
      in_size = λ q.
          rw (rb.in_order-erase n (m.holes_size).root)
            (ground (arith, has-remove n q (in_order (m.holes_size).root) v.size, v.in_size q));
      in_addr = λ q.
          rw (rb.in_order-erase n m.holes_addr)
            (ground (arith, has-remove n q (in_order m.holes_addr) v.addr, v.in_addr q));
      sorted =
          Sorted-same (unlinked rb n m) (without_hole n m) refl refl
            (λ q h. ground (
              arith,
              rw (rb.in_order-erase n (m.holes_size).root) at h,
              has-remove n q (in_order (m.holes_size).root) v.size,
            ))
            (λ q h. ground (
              arith,
              rw (rb.in_order-erase n m.holes_addr) at h,
              has-remove n q (in_order m.holes_addr) v.addr,
            ))
            (unlinked-Sorted rb n m v.size v.addr v.sorted);
    };
    hole = ground (arith, ==_refl n);
  })
