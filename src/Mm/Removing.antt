-- ===== src/Mm/Removing.antt =====
-- test-drm-mm/drm_mm.c: drm_mm_remove_node keeps the allocator in order.
use cma_pool_log.Base.{
  ℕ, ◌-◌, ◌<◌, ◌≡◌, refl, sym, ap, subst, ◌∙◌, inl, inr, Bool, true, false, not, some, ◌∷◌, arith,
  ◌==◌, has, Distinct, if◌then◌else◌, after, before_from, remove, get_or, Outcome, ok, assert, ◌>>◌,
  ◌>>=◌, Returns, Returns-mono, bind-Returns, Bool-cases, ==_refl, has-remove, remove-Distinct,
  has_of_before_from, has-before_from,
}
use cma_pool_log.Base.Ring.{after-remove, before_from-total, before_from-ne, after-before_from}
use cma_pool_log.Rbtree.{Balancing}
use cma_pool_log.Mm.{
  Mm, head_node, next_node, prev_node, hole_node_start, hole_node_end, hole_follows, write,
}
use cma_pool_log.Mm.Interval.{interval_tree_remove}
use cma_pool_log.Mm.Sorting.{Sorted-same}
use cma_pool_log.Mm.Holes.{add_hole, rm_hole}
use cma_pool_log.Mm.Remove.{rm_hole_after, remove_node}
use cma_pool_log.Mm.Index.{Indexed, AddedHole, RemovedHole, add_hole-AddedHole, rm_hole-RemovedHole}
use cma_pool_log.Mm.Layout.{Tidy}

module _ (rb : Balancing) where
  rm_hole_after-RemovedHole :
      (n : ℕ) (m : Mm) → Indexed m → Returns (RemovedHole rb n m) (rm_hole_after rb n m)
  unfolding rm_hole_after hole_follows
  rm_hole_after-RemovedHole n m v = go (hole_follows m n) refl
    where
      go :
          (b : Bool)
          → hole_follows m n ≡ b
          → Returns (RemovedHole rb n m) (if b then rm_hole rb n m else ok m)
      go true e = rm_hole-RemovedHole rb n m v e
      go false e = record {
        keeps = record {
          color_adjust = refl;
          node_list = refl;
          scan_active = refl;
          others = λ q h. refl;
        };
        indexed = v;
        hole = ground (arith, e);
      }

  -- What is taken away, and what is as it was.
  pub record Removed (x : ℕ) (m w : Mm) : Type 0 where
    pub tidy : Tidy w
    pub node_list : w.node_list ≡ remove x m.node_list
    pub places :
        (n : ℕ) → ((w.node n).start ≡ (m.node n).start) × ((w.node n).size ≡ (m.node n).size)

  -- The state in which the hole before the node is measured anew.
  record Leaving (x p : ℕ) (m w : Mm) : Type 0 where
    indexed : Indexed w
    color_adjust : w.color_adjust ≡ m.color_adjust
    scan_active : w.scan_active ≡ m.scan_active
    node_list : w.node_list ≡ remove x m.node_list
    at_x : w.node x ≡ record (m.node x) { hole_size = 0; allocated = false }
    at_p : w.node p ≡ record (m.node p) { hole_size = 0 }
    others : (n : ℕ) → (n == x) ≡ false → (n == p) ≡ false → w.node n ≡ m.node n

  abbrev taken_off : ℕ → Mm → Mm
  taken_off x m =
      let m' = interval_tree_remove rb x m in
      write (record m' { node_list = remove x m'.node_list }) x
        (record (m'.node x) { allocated = false })

  taken_off-Leaving :
      (x p : ℕ) (m v : Mm)
      → Tidy m
      → before_from x head_node m.node_list ≡ some p
      → RemovedHole rb x m v
      → Returns (Leaving x p m) (rm_hole_after rb p (taken_off x v))
  unfolding hole_follows interval_tree_remove
  taken_off-Leaving x p m v t e r =
      let apart = before_from-ne x head_node p m.node_list e t.distinct in
      let w = taken_off x v in
      let i : Indexed w = record {
        stack = r.indexed.stack;
        size = r.indexed.size;
        addr = r.indexed.addr;
        in_stack = λ n. ground (arith, r.indexed.in_stack n);
        in_size = λ n. ground (arith, r.indexed.in_size n);
        in_addr = λ n. ground (arith, r.indexed.in_addr n);
        sorted =
            Sorted-same v w refl refl (λ q h. ground arith) (λ q h. ground arith) r.indexed.sorted;
      } in
      Returns-mono (RemovedHole rb p w) (Leaving x p m) (rm_hole_after rb p w)
        (rm_hole_after-RemovedHole p w i)
        λ u s. record {
          indexed = s.indexed;
          color_adjust = s.keeps.color_adjust ∙ r.keeps.color_adjust;
          scan_active = s.keeps.scan_active ∙ r.keeps.scan_active;
          node_list = s.keeps.node_list ∙ ap (remove x) r.keeps.node_list;
          at_x = ground (arith, s.keeps.others x, r.hole, apart, ==_refl x);
          at_p = ground (arith, s.hole, r.keeps.others p, apart);
          others = λ n d f. ground (arith, s.keeps.others n, r.keeps.others n, d, f);
        }

  Leaving-fixed :
      (x p n : ℕ) (m w : Mm)
      → Leaving x p m w
      → (p == x) ≡ false
      → ((w.node n).start ≡ (m.node n).start)
        × ((w.node n).size ≡ (m.node n).size)
        × ((w.node n).scanned_block ≡ (m.node n).scanned_block)
        × ((w.node n).mm ≡ (m.node n).mm)
        × ((w.node n).allocated ≡ (if n == x then false else (m.node n).allocated))
        × ((w.node n).hole_size
            ≡ (if n == x then 0 else if n == p then 0 else (m.node n).hole_size))
  Leaving-fixed x p n m w l apart = elim (Bool-cases (n == x)) [
    | inl e ↦ ground (arith, l.at_x)
    | inr e ↦ elim (Bool-cases (n == p)) [
      | inl f ↦ ground (arith, l.at_p)
      | inr f ↦ ground (arith, l.others n)
    ]
  ]

  remove-end :
      (x p n : ℕ) (m w : Mm)
      → Tidy m
      → before_from x head_node m.node_list ≡ some p
      → w.node_list ≡ remove x m.node_list
      → ((k : ℕ) → (w.node k).start ≡ (m.node k).start)
      → (n == x) ≡ false
      → hole_node_end w n ≡ (if n == p then hole_node_end m x else hole_node_end m n)
  remove-end x p n m w t e left starts other =
      starts (next_node w n)
      ∙ ap (λ k. (m.node (get_or (after n (head_node ∷ k)) head_node)).start) left
      ∙ ap (λ o. (m.node (get_or o head_node)).start)
          (after-remove x head_node p n m.node_list e t.distinct other)
      ∙ ground arith

  Leaving-room :
      (x p : ℕ) (m w : Mm)
      → Tidy m
      → before_from x head_node m.node_list ≡ some p
      → Leaving x p m w
      → (hole_node_start w p ≡ hole_node_start m p)
        × (hole_node_end w p ≡ hole_node_end m x)
        × (hole_node_start m p < hole_node_end m x)
  Leaving-room x p m w t e l =
      let apart = before_from-ne x head_node p m.node_list e t.distinct in
      let there = has_of_before_from x head_node p m.node_list e in
      let before : hole_node_end m p ≡ (m.node x).start =
        ap (λ o. (m.node (get_or o head_node)).start)
          (after-before_from x head_node p m.node_list e t.distinct) in
      (
        ground (arith, Leaving-fixed x p p m w l apart),
        ground (
          arith,
          remove-end x p p m w t e l.node_list (λ k. (Leaving-fixed x p k m w l apart).0) apart,
          ==_refl p,
        ),
        ground (
          arith,
          before,
          t.gaps p (has-before_from x head_node p m.node_list e),
          t.gaps x (ground (arith, there)),
          t.sizes x there,
        ),
      )

  Leaving-Removed :
      (x p : ℕ) (m w u : Mm)
      → Tidy m
      → before_from x head_node m.node_list ≡ some p
      → Leaving x p m w
      → AddedHole rb p w u
      → Removed x m u
  Leaving-Removed x p m w u t e l a =
      let apart = before_from-ne x head_node p m.node_list e t.distinct in
      let there = has_of_before_from x head_node p m.node_list e in
      let (from, end, room) = Leaving-room x p m w t e l in
      let word = t.starts (next_node m x) in
      let not_head : (x == head_node) ≡ false = ground (arith, there, t.distinct) in
      let left : u.node_list ≡ remove x m.node_list = a.keeps.node_list ∙ l.node_list in
      let fixed = λ (n : ℕ). Leaving-fixed x p n m w l apart in
      let same : (n : ℕ) → (n == p) ≡ false → u.node n ≡ w.node n = a.keeps.others in
      let places : (n : ℕ)
          → ((u.node n).start ≡ (m.node n).start) × ((u.node n).size ≡ (m.node n).size) =
        λ n. ground (arith, a.hole, same n, fixed n) in
      let flags : (n : ℕ)
          → ((u.node n).scanned_block ≡ (m.node n).scanned_block)
            × ((u.node n).mm ≡ (m.node n).mm)
            × ((u.node n).allocated ≡ (if n == x then false else (m.node n).allocated)) =
        λ n. ground (arith, a.hole, same n, fixed n) in
      let size : (n : ℕ)
          → (u.node n).hole_size ≡ (
              if n == x
              then 0
              else if n == p
              then hole_node_end m x - hole_node_start m p
              else (m.node n).hole_size) =
        λ n. ground (arith, a.hole, same n, fixed n, from, end, room, word, apart) in
      let listed : (n : ℕ) → has n u.node_list ≡ (if x == n then false else has n m.node_list) =
        λ n. ap (has n) left ∙ has-remove x n m.node_list t.distinct.1 in
      let ends =
        λ (n : ℕ) (d : (n == x) ≡ false). remove-end x p n m u t e left (λ k. (places k).0) d in
      record {
        tidy = record {
          indexed = a.indexed;
          color_adjust = a.keeps.color_adjust ∙ l.color_adjust ∙ t.color_adjust;
          scan_active = a.keeps.scan_active ∙ l.scan_active ∙ t.scan_active;
          distinct =
              subst (λ k. Distinct (head_node ∷ k)) (sym left)
                (
                  ground (arith, has-remove x head_node m.node_list t.distinct.1, t.distinct),
                  remove-Distinct x m.node_list t.distinct.1,
                );
          starts = λ n. ground (arith, places n, t.starts n);
          head_free = ground (arith, flags head_node, t.head_free);
          owned = λ n d. ground (arith, d, flags n, t.owned n, listed n);
          allocated = λ n d. ground (arith, d, flags n, t.allocated n, listed n);
          unscanned = λ n. ground (arith, flags n, t.unscanned n);
          sizes = λ n h. ground (arith, h, places n, listed n, t.sizes n);
          gaps = λ n h. elim (Bool-cases (n == x)) [
            | inl f ↦ ground (arith, f, h, listed n, not_head)
            | inr f ↦ elim (Bool-cases (n == p)) [
              | inl g ↦ ground (arith, f, g, ends n f, places n, room)
              | inr g ↦ ground (arith, f, g, h, ends n f, places n, listed n, t.gaps n)
            ]
          ];
          holes = λ n. elim (Bool-cases (n == x)) [
            | inl f ↦ ground (arith, f, size n, listed n, not_head)
            | inr f ↦ elim (Bool-cases (n == p)) [
              | inl g ↦ ground (
                arith,
                f,
                g,
                size n,
                ends n f,
                places n,
                listed n,
                has-before_from x head_node p m.node_list e,
              )
              | inr g ↦ ground (arith, f, g, size n, ends n f, places n, listed n, t.holes n)
            ]
          ];
        };
        node_list = left;
        places = places;
      }

  -- What follows the assertions.
  abbrev removal : ℕ → ℕ → Mm → Outcome Mm
  removal p x m = do
    v ← rm_hole_after rb x m
    w ← rm_hole_after rb p (taken_off x v)
    add_hole rb p w

  removal-Removed :
      (x p : ℕ) (m : Mm)
      → Tidy m
      → before_from x head_node m.node_list ≡ some p
      → Returns (Removed x m) (removal p x m)
  unfolding hole_follows
  removal-Removed x p m t e =
      bind-Returns (RemovedHole rb x m) (Removed x m) (rm_hole_after rb x m) _
        (rm_hole_after-RemovedHole x m t.indexed)
        λ v r.
          bind-Returns (Leaving x p m) (Removed x m) (rm_hole_after rb p (taken_off x v)) _
            (taken_off-Leaving x p m v t e r)
            λ w l.
              let (from, end, room) = Leaving-room x p m w t e l in
              Returns-mono (AddedHole rb p w) (Removed x m) (add_hole rb p w)
                (add_hole-AddedHole rb p w l.indexed (ground (arith, l.at_p))
                  (ground (arith, from, end, room, t.starts (next_node m x))))
                λ u a. Leaving-Removed x p m w u t e l a

  assert_two :
      (a b : Bool) (k : Outcome Mm) → a ≡ true → b ≡ true → (assert a >> (assert b >> k)) ≡ k
  assert_two a b k p q = rw (p, q) refl

  -- From an allocator that is in order a node on its list is removed without a failed assertion: it
  -- is off the list, no other block moved, and the allocator is in order.
  pub remove_node-Removed :
      (x : ℕ) (m : Mm)
      → Tidy m
      → has x m.node_list ≡ true
      → Returns (Removed x m) (remove_node rb x m)
  unfolding remove_node
  remove_node-Removed x m t there =
      let (p, e) = before_from-total x head_node m.node_list there in
      let alive : (m.node x).allocated ≡ true = ground (arith, there, t.distinct, t.allocated x) in
      subst (Returns (Removed x m))
        (sym (
          assert_two (m.node x).allocated (not (m.node x).scanned_block)
            (removal (prev_node m x) x m) alive (ap not (t.unscanned x))
          ∙ ap (λ o. removal (get_or o head_node) x m) e))
        (removal-Removed x p m t e)
