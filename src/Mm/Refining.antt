-- ===== src/Mm/Refining.antt =====
-- test-drm-mm/drm_mm.c: the operations of the allocator do what Contract says.
use cma_pool_log.Base.{
  ℕ, ◌≤◌, ◌<◌, ◌≡◌, sym, ap, ◌∙◌, subst, fun_ext, inl, inr, Bool, true, false, arith, ◌==◌, has,
  has-remove, if◌then◌else◌, u64_mod, ==_refl, Returns, Returns-mono,
}
use cma_pool_log.Rbtree.{Balancing}
use cma_pool_log.Mm.{Mm, Search, head_node}
use cma_pool_log.Mm.Insert.{insert_node_in_range}
use cma_pool_log.Mm.Remove.{remove_node}
use cma_pool_log.Mm.Layout.{Tidy}
use cma_pool_log.Mm.Apart.{blocks-Disjoint, block_ends, block_begins}
use cma_pool_log.Mm.Allocating.{Spare, Landed}
use cma_pool_log.Mm.Removing.{Removed, remove_node-Removed}
use cma_pool_log.Mm.Refusing.{Inserts, insert_node_in_range-Inserts}
use cma_pool_log.Mm.Contract.{
  Space, space, Free, given, given_back, Allocates, gives, refuses, Free-Fits, block_of-Landed,
}

pub Space-ext : (s t : Space) → s.bottom ≡ t.bottom → s.top ≡ t.top → s.block ≡ t.block → s ≡ t
Space-ext s t p q r =
    ap (λ b. record s { bottom = b }) p
    ∙ ap (λ e. record t { top = e; block = s.block }) q
    ∙ ap (λ f. record t { block = f }) r

pub Landed-given :
    (x size alignment rs re : ℕ) (m w : Mm)
    → Spare x m
    → Landed x size alignment rs re m w
    → space w ≡ given x (w.node x).start size (space m)
Landed-given x size alignment rs re m w p l =
    let head = l.others head_node (ground (arith, p.other)) in
    Space-ext (space w) (given x (w.node x).start size (space m)) (ground (arith, head)) head.0
      (fun_ext λ n. block_of-Landed x n size alignment rs re m w l)

pub Landed-Free :
    (x size alignment rs re : ℕ) (m w : Mm)
    → Tidy m
    → Spare x m
    → Landed x size alignment rs re m w
    → Free (space m) (w.node x).start size
Landed-Free x size alignment rs re m w t p l =
    let head = l.others head_node (ground (arith, p.other)) in
    let here : has x w.node_list ≡ true = ground (arith, l.listed x, ==_refl x) in
    record {
      from = ground (arith, head, block_begins w l.tidy x here);
      to = ground (arith, head, l.sized, block_ends w l.tidy x here);
      apart = λ n b z e.
          let there : has n m.node_list ≡ true = ground (arith, e) in
          let other : (x == n) ≡ false = ground (arith, there, p.free) in
          let is_b : (m.node n).start ≡ b = ground (arith, e) in
          let is_z : (m.node n).size ≡ z = ground (arith, e) in
          let same = l.others n (ground (arith, other)) in
          elim (blocks-Disjoint w l.tidy x n here (ground (arith, l.listed n, there)) other) [
            | inl d ↦ inl (ground (arith, d, same, is_b, l.sized))
            | inr d ↦ inr (ground (arith, d, same, is_b, is_z))
          ];
    }

module _ (rb : Balancing) where
  -- The allocator after the call is in order, and the call does what is promised.
  abbrev pub Refines : (x size alignment rs re : ℕ) → Mm → Bool × Mm → Type 0
  Refines x size alignment rs re m (placed, w) =
      Tidy w × Allocates x size alignment rs re (space m) placed (space w)

  -- In an allocator that is in order, for a node that is not part of it, a size that is not 0 and a
  -- range of addresses below 2^64, an insertion in any mode without the bit ONCE keeps the promise:
  -- it gives the node addresses that were free, in the range and aligned; or it changes nothing, and
  -- then there are no such addresses.
  pub insert_node_in_range-Refines :
      (m : Mm) (x size alignment color rs re : ℕ) (mode : Search)
      → Tidy m
      → Spare x m
      → 0 < size
      → rs ≤ re
      → re < u64_mod
      → alignment < u64_mod
      → Returns (Refines x size alignment rs re m) (
          insert_node_in_range rb m x size alignment color rs re
            (record { search = mode; once = false }))
  insert_node_in_range-Refines m x size alignment color rs re mode t p pos le word small =
      Returns-mono (Inserts x size alignment rs re (record { search = mode; once = false }) m)
        (Refines x size alignment rs re m) _
        (insert_node_in_range-Inserts rb m x size alignment color rs re
          (record { search = mode; once = false }) t p le word small)
        go
    where
      go :
          (r : Bool × Mm)
          → Inserts x size alignment rs re (record { search = mode; once = false }) m r
          → Refines x size alignment rs re m r
      go (true, w) l = (
        l.tidy,
        subst (Allocates x size alignment rs re (space m) true)
            (sym (Landed-given x size alignment rs re m w p l))
            (gives (w.node x).start (Landed-Free x size alignment rs re m w t p l)
              (record { above = l.above; below = l.below; aligned = l.aligned })),
      )
      go (false, w) (same, f) =
          subst (λ v. Refines x size alignment rs re m (false, v)) (sym same)
            (
              t,
              refuses λ a q fr.
                  let (n, follows, fits) = Free-Fits m size alignment rs re a t pos fr q in
                  f pos n follows (λ e. cc) a fits,
            )

  -- In an allocator that is in order, the removal of one of its blocks gives back that block's
  -- addresses and nothing else, and leaves the allocator in order.
  pub remove_node-given_back :
      (m : Mm) (x : ℕ)
      → Tidy m
      → has x m.node_list ≡ true
      → Returns (λ w. Tidy w × (space w ≡ given_back x (space m))) (remove_node rb x m)
  remove_node-given_back m x t h =
      Returns-mono (Removed rb x m) (λ w. Tidy w × (space w ≡ given_back x (space m))) _
        (remove_node-Removed rb x m t h)
        λ w r. (
          r.tidy,
          Space-ext (space w) (given_back x (space m)) (ground (arith, r.places head_node))
              (r.places head_node).0
              (fun_ext λ n.
                let left : has n w.node_list ≡ (if x == n then false else has n m.node_list) =
                  ap (has n) r.node_list ∙ has-remove x n m.node_list t.distinct.1 in
                ground (arith, left, r.places n)),
        )
