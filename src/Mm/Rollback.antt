-- ===== src/Mm/Rollback.antt =====
-- test-drm-mm/drm_mm.c: blocks that a scan took off the list come back to their places, if they come
-- in the reverse order.
use cma_pool_log.Base.{
  ℕ, ◌+◌, ◌≡◌, refl, sym, ap, ◌∙◌, inl, inr, Bool, true, false, ◌&&◌, some, ◌∷◌, arith, ltb, ◌==◌,
  if◌then◌else◌, add64, has, remove, insert_after, tail, after, before_from, get_or, Distinct,
  has_of_before_from, has-before_from, ok, Bool-cases,
}
use cma_pool_log.Base.Ring.{after-remove_before, before_from-ne, insert_after-remove}
use cma_pool_log.Mm.{Mm, Node, Scan, head_node, ring, next_node}
use cma_pool_log.Mm.Roster.{scan_remove_block, relink, link_next}

-- Nodes that agree but for the stale links of a node on the list.
abbrev pub SameNode : Node → Node → Type 0
SameNode a b =
    (b.color ≡ a.color)
    × (b.start ≡ a.start)
    × (b.size ≡ a.size)
    × (b.hole_size ≡ a.hole_size)
    × (b.mm ≡ a.mm)
    × (b.allocated ≡ a.allocated)
    × (b.scanned_block ≡ a.scanned_block)
    × (a.scanned_block ≡ true → (b.prev ≡ a.prev) × (b.next ≡ a.next))

-- The allocators agree, but for those links.
pub record Same (m w : Mm) : Type 0 where
  pub color_adjust : w.color_adjust ≡ m.color_adjust
  pub nodes : (n : ℕ) → SameNode (m.node n) (w.node n)
  pub node_list : w.node_list ≡ m.node_list
  pub hole_stack : w.hole_stack ≡ m.hole_stack
  pub interval_tree : w.interval_tree ≡ m.interval_tree
  pub subtree_last : w.subtree_last ≡ m.subtree_last
  pub holes_size : w.holes_size ≡ m.holes_size
  pub holes_addr : w.holes_addr ≡ m.holes_addr
  pub scan_active : w.scan_active ≡ m.scan_active

pub Same-refl : (m : Mm) → Same m m
Same-refl m = record {
  color_adjust = refl;
  nodes = λ n. (refl, refl, refl, refl, refl, refl, refl, λ h. (refl, refl));
  node_list = refl;
  hole_stack = refl;
  interval_tree = refl;
  subtree_last = refl;
  holes_size = refl;
  holes_addr = refl;
  scan_active = refl;
}

pub Same-trans : (m v w : Mm) → Same m v → Same v w → Same m w
Same-trans m v w s t = record {
  color_adjust = ground arith;
  nodes = λ n. ground (arith, s.nodes n, t.nodes n);
  node_list = ground arith;
  hole_stack = ground arith;
  interval_tree = ground arith;
  subtree_last = ground arith;
  holes_size = ground arith;
  holes_addr = ground arith;
  scan_active = ground arith;
}

-- The list can be scanned: it goes round once, and its nodes, but not the head, are this allocator's
-- and allocated.
pub record Listed (m : Mm) : Type 0 where
  pub distinct : Distinct (ring m)
  pub owned : (n : ℕ) → has n m.node_list ≡ true → (m.node n).mm ≡ true
  pub allocated : (n : ℕ) → has n m.node_list ≡ true → (m.node n).allocated ≡ true
  pub unscanned : (n : ℕ) → has n (ring m) ≡ true → (m.node n).scanned_block ≡ false

-- From `m` to `w` the node `x` was taken off the list, from behind `h`.
pub record Unlinked (x h : ℕ) (m w : Mm) : Type 0 where
  pub behind : before_from x head_node m.node_list ≡ some h
  pub color_adjust : w.color_adjust ≡ m.color_adjust
  pub others : (n : ℕ) → (n == x) ≡ false → SameNode (m.node n) (w.node n)
  pub fields :
      ((w.node x).color ≡ (m.node x).color)
      × ((w.node x).start ≡ (m.node x).start)
      × ((w.node x).size ≡ (m.node x).size)
      × ((w.node x).hole_size ≡ (m.node x).hole_size)
      × ((w.node x).mm ≡ (m.node x).mm)
      × ((w.node x).allocated ≡ (m.node x).allocated)
  pub scanned : (w.node x).scanned_block ≡ true
  pub prev : (w.node x).prev ≡ h
  pub next : (w.node x).next ≡ next_node m x
  pub node_list : w.node_list ≡ remove x m.node_list
  pub hole_stack : w.hole_stack ≡ m.hole_stack
  pub interval_tree : w.interval_tree ≡ m.interval_tree
  pub subtree_last : w.subtree_last ≡ m.subtree_last
  pub holes_size : w.holes_size ≡ m.holes_size
  pub holes_addr : w.holes_addr ≡ m.holes_addr
  pub scan_active : w.scan_active ≡ m.scan_active + 1

-- Both stand up to a change of stale links.
pub Unlinked-Same : (x h : ℕ) (m v w : Mm) → Unlinked x h m v → Same v w → Unlinked x h m w
Unlinked-Same x h m v w u s = record {
  behind = u.behind;
  color_adjust = ground arith;
  others = λ n e. ground (arith, u.others n, s.nodes n);
  fields = ground (arith, u.fields, s.nodes x);
  scanned = ground (arith, u.scanned, s.nodes x);
  prev = ground (arith, u.scanned, u.prev, s.nodes x);
  next = ground (arith, u.scanned, u.next, s.nodes x);
  node_list = ground arith;
  hole_stack = ground arith;
  interval_tree = ground arith;
  subtree_last = ground arith;
  holes_size = ground arith;
  holes_addr = ground arith;
  scan_active = ground arith;
}

relink-list :
    (x h : ℕ) (m w : Mm) → Listed m → Unlinked x h m w → (relink x w).node_list ≡ m.node_list
relink-list x h m w l u =
    ap (λ t. tail (insert_after t x (ring w))) u.prev
    ∙ ap (λ t. tail (insert_after h x (head_node ∷ t))) u.node_list
    ∙ ap tail (insert_after-remove x head_node h m.node_list u.behind l.distinct)

-- Put back, everything is as it was.
relink-Same : (x h : ℕ) (m w : Mm) → Listed m → Unlinked x h m w → Same m (relink x w)
relink-Same x h m w l u = record {
  color_adjust = u.color_adjust;
  nodes = λ n. elim (Bool-cases (n == x)) [
    | inl same ↦
        ground
          (arith, u.fields, l.unscanned x, has_of_before_from x head_node h m.node_list u.behind)
    | inr other ↦ ground (arith, u.others n)
  ];
  node_list = relink-list x h m w l u;
  hole_stack = u.hole_stack;
  interval_tree = u.interval_tree;
  subtree_last = u.subtree_last;
  holes_size = u.holes_size;
  holes_addr = u.holes_addr;
  scan_active = ground (arith, u.scan_active);
}

-- The neighbours that the links name still name one another.
links_meet :
    (x h : ℕ) (m w : Mm)
    → Listed m
    → Unlinked x h m w
    → link_next w (w.node x).prev ≡ (w.node x).next
links_meet x h m w l u =
    let on_list : (w.node h).scanned_block ≡ false = ground (
      arith,
      u.others h,
      l.unscanned h,
      before_from-ne x head_node h m.node_list u.behind l.distinct,
      has-before_from x head_node h m.node_list u.behind,
    ) in
    ap (link_next w) u.prev
    ∙ ap (λ b. if b then (w.node h).next else next_node w h) on_list
    ∙ ap (λ t. get_or (after h (head_node ∷ t)) head_node) u.node_list
    ∙ ap (λ t. get_or t head_node)
        (after-remove_before x head_node h m.node_list u.behind l.distinct)
    ∙ sym u.next

-- Whether the block reaches into the hit.
abbrev pub overlaps : Scan → Node → Bool
overlaps scan b = ltb scan.hit_start (add64 b.start b.size) && ltb b.start scan.hit_end

-- The last block that was taken off a well-formed list can be put back: no assertion fails, everything
-- is as it was, and the answer is whether the block reaches into the hit.
pub scan_remove_block-Same :
    (scan : Scan) (x h : ℕ) (m w : Mm)
    → Listed m
    → Unlinked x h m w
    → (v : Mm) × (scan_remove_block scan w x ≡ ok (overlaps scan (m.node x), v)) × Same m v
unfolding scan_remove_block
scan_remove_block-Same scan x h m w l u = (
  relink x w,
  ground (
    arith,
    u.scanned,
    u.scan_active,
    links_meet x h m w l u,
    u.fields,
    l.owned x,
    has_of_before_from x head_node h m.node_list u.behind,
  ),
  relink-Same x h m w l u,
)
