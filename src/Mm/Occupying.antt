-- ===== src/Mm/Occupying.antt =====
-- test-drm-mm/drm_mm.c: a free node is put into a hole.
use cma_pool_log.Base.{
  ℕ, ◌+◌, ◌-◌, ◌≤◌, ◌<◌, ◌≡◌, refl, sym, ap, subst, ◌∙◌, inl, inr, true, false, ◌∷◌, arith, ◌==◌,
  has, if◌then◌else◌, ltb, sub64, after, insert_after, tail, get_or, ok, Returns, Returns-mono,
  Bool-cases, ==_refl,
}
use cma_pool_log.Base.Ring.{after-insert_after}
use cma_pool_log.Rbtree.{Balancing}
use cma_pool_log.Mm.{
  Mm, Node, head_node, ring, next_node, hole_node_start, hole_node_end, hole_follows, write,
}
use cma_pool_log.Mm.Interval.{interval_tree_add_node}
use cma_pool_log.Mm.Sorting.{Sorted-same}
use cma_pool_log.Mm.Holes.{add_hole, rm_hole}
use cma_pool_log.Mm.Index.{Indexed, AddedHole, RemovedHole, add_hole-AddedHole, rm_hole-RemovedHole}
use cma_pool_log.Mm.Layout.{Tidy}

-- The node waits to be put into the hole: it is not on the list, and its address and size are set.
pub record Goes (hole x : ℕ) (m : Mm) : Type 0 where
  pub tidy : Tidy m
  pub other : (x == head_node) ≡ false
  pub free : has x m.node_list ≡ false
  pub room : hole_follows m hole ≡ true
  pub some_size : 0 < (m.node x).size
  pub above : hole_node_start m hole ≤ (m.node x).start
  pub below : (m.node x).start + (m.node x).size ≤ hole_node_end m hole

-- On the way: the node is on the list behind the hole's, and so large are the holes behind both.
pub record Stage (hole x : ℕ) (m : Mm) (before behind : ℕ) (w : Mm) : Type 0 where
  pub indexed : Indexed w
  pub color_adjust : w.color_adjust ≡ m.color_adjust
  pub scan_active : w.scan_active ≡ m.scan_active
  pub listed : ring w ≡ insert_after hole x (ring m)
  pub at_hole : w.node hole ≡ record (m.node hole) { hole_size = before }
  pub at_x : w.node x ≡ record (m.node x) { mm = true; allocated = true; hole_size = behind }
  pub others : (n : ℕ) → (n == hole) ≡ false → (n == x) ≡ false → w.node n ≡ m.node n

-- What is left of the hole on both sides of the node.
abbrev pub before_size : ℕ → ℕ → Mm → ℕ
before_size hole x m = (m.node x).start - hole_node_start m hole

abbrev pub behind_size : ℕ → ℕ → Mm → ℕ
behind_size hole x m = hole_node_end m hole - ((m.node x).start + (m.node x).size)

pub hole-ring : (hole x : ℕ) (m : Mm) → Goes hole x m → has hole (ring m) ≡ true
unfolding hole_follows
hole-ring hole x m g = ground (arith, g.room, g.tidy.holes hole)

pub hole-ne : (hole x : ℕ) (m : Mm) → Goes hole x m → (hole == x) ≡ false
hole-ne hole x m g = ground (arith, hole-ring hole x m g, g.other, g.free)

pub Stage-next :
    (hole x n : ℕ) (m : Mm) (before behind : ℕ) (w : Mm)
    → Goes hole x m
    → Stage hole x m before behind w
    → next_node w n ≡ (if n == hole then x else if n == x then next_node m hole else next_node m n)
Stage-next hole x n m before behind w g s =
    ap (λ l. get_or (after n l) head_node) s.listed
    ∙ ap (λ o. get_or o head_node)
        (after-insert_after hole x n (ring m) (hole-ring hole x m g)
          (ground (arith, g.other, g.free)) g.tidy.distinct)
    ∙ ground arith

-- No block is moved or changed in size.
pub Stage-fixed :
    (hole x n : ℕ) (m : Mm) (before behind : ℕ) (w : Mm)
    → Stage hole x m before behind w
    → ((w.node n).start ≡ (m.node n).start)
      × ((w.node n).size ≡ (m.node n).size)
      × ((w.node n).scanned_block ≡ (m.node n).scanned_block)
      × ((w.node n).mm ≡ (if n == x then true else (m.node n).mm))
      × ((w.node n).allocated ≡ (if n == x then true else (m.node n).allocated))
      × ((w.node n).hole_size
          ≡ (if n == x then behind else if n == hole then before else (m.node n).hole_size))
Stage-fixed hole x n m before behind w s = elim (Bool-cases (n == x)) [
  | inl e ↦ ground (arith, s.at_x)
  | inr e ↦ elim (Bool-cases (n == hole)) [
    | inl f ↦ ground (arith, s.at_hole)
    | inr f ↦ ground (arith, s.others n)
  ]
]

module _ (rb : Balancing) where
  -- Only the interval tree is changed.
  pub record Threaded (m w : Mm) : Type 0 where
    pub color_adjust : w.color_adjust ≡ m.color_adjust
    pub node : w.node ≡ m.node
    pub node_list : w.node_list ≡ m.node_list
    pub hole_stack : w.hole_stack ≡ m.hole_stack
    pub holes_size : w.holes_size ≡ m.holes_size
    pub holes_addr : w.holes_addr ≡ m.holes_addr
    pub scan_active : w.scan_active ≡ m.scan_active

  add-Threaded : (hole n : ℕ) (m : Mm) → Threaded m (interval_tree_add_node rb hole n m)
  unfolding interval_tree_add_node
  add-Threaded hole n m = elim (Bool-cases (m.node hole).allocated) [
    | inl e ↦ rw e (record {
      color_adjust = refl;
      node = refl;
      node_list = refl;
      hole_stack = refl;
      holes_size = refl;
      holes_addr = refl;
      scan_active = refl;
    })
    | inr e ↦ rw e (record {
      color_adjust = refl;
      node = refl;
      node_list = refl;
      hole_stack = refl;
      holes_size = refl;
      holes_addr = refl;
      scan_active = refl;
    })
  ]

  -- The writes up to the call of rm_hole.
  abbrev pub entered : ℕ → ℕ → Mm → Mm
  entered hole x m =
      let linked =
        interval_tree_add_node rb hole x
          (record m { node_list = tail (insert_after hole x (ring m)) }) in
      write linked x (record (linked.node x) { mm = true; allocated = true; hole_size = 0 })

  pub entered-Stage :
      (hole x : ℕ) (m : Mm)
      → Goes hole x m
      → Stage hole x m (m.node hole).hole_size 0 (entered hole x m)
  unfolding hole_follows
  entered-Stage hole x m g =
      let t = add-Threaded hole x (record m { node_list = tail (insert_after hole x (ring m)) }) in
      let v = g.tidy.indexed in
      let zero_before : (m.node x).hole_size ≡ 0 =
        ground (arith, g.tidy.holes x, g.other, g.free) in
      record {
        indexed = record {
          stack = rw t.hole_stack v.stack;
          size = rw t.holes_size v.size;
          addr = rw t.holes_addr v.addr;
          in_stack = λ n. rw (t.hole_stack, t.node) (ground (arith, v.in_stack n, zero_before));
          in_size = λ n. rw (t.holes_size, t.node) (ground (arith, v.in_size n, zero_before));
          in_addr = λ n. rw (t.holes_addr, t.node) (ground (arith, v.in_addr n, zero_before));
          sorted =
              Sorted-same m (entered hole x m) t.holes_size t.holes_addr
                (λ q h. rw t.node (ground (arith, h, v.in_size q, zero_before)))
                (λ q h. rw t.node (ground (arith, h, v.in_addr q, zero_before))) v.sorted;
        };
        color_adjust = t.color_adjust;
        scan_active = t.scan_active;
        listed = rw t.node_list (ground arith);
        at_hole = rw t.node (ground (arith, hole-ne hole x m g));
        at_x = rw t.node (ground (arith, ==_refl x));
        others = λ n a b. rw t.node (ground arith);
      }

  pub rm_hole-Stage :
      (hole x b : ℕ) (m v : Mm)
      → Goes hole x m
      → Stage hole x m (m.node hole).hole_size b v
      → Returns (Stage hole x m 0 b) (rm_hole rb hole v)
  unfolding hole_follows
  rm_hole-Stage hole x b m v g s =
      Returns-mono (RemovedHole rb hole v) (Stage hole x m 0 b) (rm_hole rb hole v)
        (rm_hole-RemovedHole rb hole v s.indexed (ground (arith, s.at_hole, g.room)))
        λ w r. record {
          indexed = r.indexed;
          color_adjust = r.keeps.color_adjust ∙ s.color_adjust;
          scan_active = r.keeps.scan_active ∙ s.scan_active;
          listed = ap (λ l. head_node ∷ l) r.keeps.node_list ∙ s.listed;
          at_hole = r.hole ∙ ap {A = Node} (λ t. record t { hole_size = 0 }) s.at_hole;
          at_x = r.keeps.others x (ground (arith, hole-ne hole x m g)) ∙ s.at_x;
          others = λ n d e. r.keeps.others n d ∙ s.others n d e;
        }

  pub add_before-Stage :
      (hole x : ℕ) (m v : Mm)
      → Goes hole x m
      → Stage hole x m 0 0 v
      → Returns
          (Stage hole x m (before_size hole x m) 0)
          (if ltb (hole_node_start m hole) (m.node x).start then add_hole rb hole v else ok v)
  unfolding hole_follows
  add_before-Stage hole x m v g s =
      elim (Bool-cases (ltb (hole_node_start m hole) (m.node x).start)) [
        | inr e ↦
            let none_before : before_size hole x m ≡ 0 = ground (arith, e) in
            rw e (subst (λ k. Stage hole x m k 0 v) (sym none_before) s)
        | inl e ↦
            let next : next_node v hole ≡ x =
              Stage-next hole x hole m 0 0 v g s ∙ ground (arith, ==_refl hole) in
            let size : sub64 (hole_node_end v hole) (hole_node_start v hole)
                ≡ before_size hole x m =
              ground (arith, next, s.at_hole, s.at_x, g.tidy.starts x, e) in
            rw e (
              Returns-mono (AddedHole rb hole v) (Stage hole x m (before_size hole x m) 0)
                (add_hole rb hole v)
                (add_hole-AddedHole rb hole v s.indexed (ground (arith, s.at_hole))
                  (rw size (ground (arith, e))))
                λ w r. record {
                  indexed = r.indexed;
                  color_adjust = r.keeps.color_adjust ∙ s.color_adjust;
                  scan_active = r.keeps.scan_active ∙ s.scan_active;
                  listed = ap (λ l. head_node ∷ l) r.keeps.node_list ∙ s.listed;
                  at_hole =
                      rw size at r.hole
                      ∙ ap {A = Node} (λ t. record t { hole_size = before_size hole x m })
                          s.at_hole;
                  at_x = r.keeps.others x (ground (arith, hole-ne hole x m g)) ∙ s.at_x;
                  others = λ n d f. r.keeps.others n d ∙ s.others n d f;
                })
      ]

  pub add_behind-Stage :
      (hole x : ℕ) (m v : Mm)
      → Goes hole x m
      → Stage hole x m (before_size hole x m) 0 v
      → Returns (Stage hole x m (before_size hole x m) (behind_size hole x m)) (
          if ltb ((m.node x).start + (m.node x).size) (hole_node_end m hole)
          then add_hole rb x v
          else ok v)
  unfolding hole_follows
  add_behind-Stage hole x m v g s =
      elim (Bool-cases (ltb ((m.node x).start + (m.node x).size) (hole_node_end m hole))) [
        | inr e ↦
            let none_behind : behind_size hole x m ≡ 0 = ground (arith, e) in
            rw e (subst (λ k. Stage hole x m (before_size hole x m) k v) (sym none_behind) s)
        | inl e ↦
            let next : next_node v x ≡ next_node m hole =
              Stage-next hole x x m (before_size hole x m) 0 v g s
              ∙ ground (arith, ==_refl x, hole-ne hole x m g) in
            let start : hole_node_end v x ≡ hole_node_end m hole =
              ap (λ n. (v.node n).start) next
              ∙ (Stage-fixed hole x (next_node m hole) m (before_size hole x m) 0 v s).0 in
            let size : sub64 (hole_node_end v x) (hole_node_start v x) ≡ behind_size hole x m =
              ground (arith, start, s.at_x, g.tidy.starts (next_node m hole), e, g.below) in
            rw e (
              Returns-mono (AddedHole rb x v)
                (Stage hole x m (before_size hole x m) (behind_size hole x m)) (add_hole rb x v)
                (add_hole-AddedHole rb x v s.indexed (ground (arith, s.at_x))
                  (rw size (ground (arith, e))))
                λ w r. record {
                  indexed = r.indexed;
                  color_adjust = r.keeps.color_adjust ∙ s.color_adjust;
                  scan_active = r.keeps.scan_active ∙ s.scan_active;
                  listed = ap (λ l. head_node ∷ l) r.keeps.node_list ∙ s.listed;
                  at_hole = r.keeps.others hole (hole-ne hole x m g) ∙ s.at_hole;
                  at_x =
                      rw size at r.hole
                      ∙ ap {A = Node} (λ t. record t { hole_size = behind_size hole x m }) s.at_x;
                  others = λ n d f. r.keeps.others n f ∙ s.others n d f;
                })
      ]
