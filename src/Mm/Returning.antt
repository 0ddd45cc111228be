-- ===== src/Mm/Returning.antt =====
-- test-drm-mm/drm_mm.c: drm_mm_remove_node undoes drm_mm_insert_node_in_range.
use cma_pool_log.Base.{
  ℕ, ◌≤◌, ◌<◌, ◌≡◌, refl, ap, ◌∙◌, fun_ext, Bool, true, false, none, arith, u64_mod, Returns,
  Returns-mono, ==_refl,
}
use cma_pool_log.Rbtree.{Balancing}
use cma_pool_log.Mm.{Mm, InsertMode}
use cma_pool_log.Mm.Insert.{insert_node_in_range}
use cma_pool_log.Mm.Remove.{remove_node}
use cma_pool_log.Mm.Layout.{Tidy}
use cma_pool_log.Mm.Allocating.{Spare, Inserted, insert_node_in_range-Inserted}
use cma_pool_log.Mm.Contract.{Space, space, given, given_back}
use cma_pool_log.Mm.Refining.{Space-ext, Landed-given, remove_node-given_back}

given_back-given :
    (x a size : ℕ) (s : Space) → s.block x ≡ none → given_back x (given x a size s) ≡ s
given_back-given x a size s h =
    Space-ext (given_back x (given x a size s)) s refl refl (fun_ext λ n. ground (arith, h))

module _ (rb : Balancing) where
  abbrev Back : Mm → Mm → Type 0
  Back m v = Tidy v × (space v ≡ space m)

  -- Where the insertion placed the node, its removal returns.
  abbrev pub TakenBack : ℕ → Mm → Bool × Mm → Type 0
  TakenBack x m (placed, w) = placed ≡ true → Returns (Back m) (remove_node rb x w)

  -- In an allocator that is in order: where an insertion in any mode places a node that was not part
  -- of it, the removal of the node returns, and the same blocks have the same addresses as before the
  -- insertion.
  pub insert_remove :
      (m : Mm) (x size alignment color rs re : ℕ) (mode : InsertMode)
      → Tidy m
      → Spare x m
      → rs ≤ re
      → re < u64_mod
      → alignment < u64_mod
      → Returns (TakenBack x m) (insert_node_in_range rb m x size alignment color rs re mode)
  insert_remove m x size alignment color rs re mode t p le word small =
      Returns-mono (Inserted x size alignment rs re m) (TakenBack x m) _
        (insert_node_in_range-Inserted rb m x size alignment color rs re mode t p le word small) go
    where
      go : (r : Bool × Mm) → Inserted x size alignment rs re m r → TakenBack x m r
      go (false, w) same = λ e. cc
      go (true, w) l = λ e.
          Returns-mono (λ v. Tidy v × (space v ≡ given_back x (space w))) (Back m)
            (remove_node rb x w)
            (remove_node-given_back rb w x l.tidy (ground (arith, l.listed x, ==_refl x)))
            λ v (tv, g). (
              tv,
              g
                  ∙ ap (given_back x) (Landed-given x size alignment rs re m w p l)
                  ∙ given_back-given x (w.node x).start size (space m) (ground (arith, p.free)),
            )
