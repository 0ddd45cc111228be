-- ===== src/Mm/Printed.antt =====
-- test-drm-mm/drm_mm.c: what drm_mm_print says of an allocator that is in order.
use mathlib.Core.List.{append_assoc}
use cma_pool_log.Base.{
  ℕ, ◌+◌, ◌<◌, ◌≡◌, refl, ap, sym, ◌∙◌, subst, inl, inr, true, List, [], ◌∷◌, ◌++◌, arith, ◌==◌,
  has, after, get_or, u64_mod, add64, Bool-cases, ==_refl,
}
use cma_pool_log.Base.Walk.{Walks, Walks-after}
use cma_pool_log.Mm.{Mm, head_node, ring, hole_node_start, hole_node_end}
use cma_pool_log.Mm.Print.{Line, free_line, used_line, total_line, dump_hole, print_each, print}
use cma_pool_log.Mm.Layout.{Tidy}

-- The lines on holes and blocks follow each other without a gap, from the one address to the other, and
-- the last line has the sums of the sizes.
abbrev pub Covers : ℕ → ℕ → (used free : ℕ) → List Line → Type 0
Covers a b used free [] = ⊥
Covers a b used free (free_line start end size ∷ ls) =
    (start ≡ a) × (0 < size) × (end ≡ start + size) × Covers end b used (free + size) ls
Covers a b used free (used_line start end size ∷ ls) =
    (start ≡ a) × (0 < size) × (end ≡ start + size) × Covers end b (used + size) free ls
Covers a b used free (total_line total u f ∷ ls) =
    (a ≡ b) × (ls ≡ []) × (u ≡ used) × (f ≡ free) × (total ≡ used + free)

module _ (m : Mm) (t : Tidy m) where
  gap_size :
      (n : ℕ)
      → has n (ring m) ≡ true
      → hole_node_start m n + (m.node n).hole_size ≡ hole_node_end m n
  gap_size n h = ground (arith, t.holes n, h, t.gaps n h)

  dump_hole-Covers :
      (n b used free : ℕ) (ls : List Line)
      → has n (ring m) ≡ true
      → Covers (hole_node_end m n) b used (free + (m.node n).hole_size) ls
      → Covers (hole_node_start m n) b used free (dump_hole m n ++ ls)
  unfolding dump_hole
  dump_hole-Covers n b used free ls h c =
      let size = gap_size n h in
      elim (Bool-cases ((m.node n).hole_size == 0)) [
        | inl e ↦
            let same : hole_node_end m n ≡ hole_node_start m n = ground (arith, e, size) in
            let none_free : free + (m.node n).hole_size ≡ free = ground (arith, e) in
            rw (e, dump_hole)
              (subst (λ a. Covers a b used free ls) same
                (subst (λ f. Covers (hole_node_end m n) b used f ls) none_free c))
        | inr e ↦
            let end : add64 (hole_node_start m n) (m.node n).hole_size ≡ hole_node_end m n =
              ground (arith, size, t.starts (get_or (after n (ring m)) head_node)) in
            rw (e, dump_hole)
              (
                refl,
                ground (arith, e),
                end ∙ sym size,
                subst (λ a. Covers a b used (free + (m.node n).hole_size) ls) (sym end) c,
              )
      ]

  -- The rest of what is printed, from the end of the gap behind `p` on.
  abbrev Rest : ℕ → List ℕ → ℕ → ℕ → Type 0
  Rest p xs used free =
      let (ls, u, f) = print_each m xs used free in
      Covers (hole_node_end m p) (m.node head_node).start used free
        (ls ++ total_line (add64 f u) u f ∷ [])

  print_each-Covers :
      (p : ℕ) (xs : List ℕ) (used free : ℕ)
      → Walks (λ n. after n (ring m)) (p ∷ xs)
      → ((n : ℕ) → has n xs ≡ true → has n m.node_list ≡ true)
      → hole_node_start m head_node + used + free ≡ hole_node_end m p
      → Rest p xs used free
  unfolding print_each
  print_each-Covers p [] used free w k sum =
      let last : hole_node_end m p ≡ (m.node head_node).start =
        ap (λ o. (m.node (get_or o head_node)).start) w.0 in
      (last, refl, refl, refl, ground (arith, sum, last, t.starts head_node))
  print_each-Covers p (x ∷ xs) used free w k sum =
      let next : hole_node_end m p ≡ (m.node x).start =
        ap (λ o. (m.node (get_or o head_node)).start) w.0 in
      let here = k x (ground (arith, ==_refl x)) in
      let listed : has x (ring m) ≡ true = ground (arith, here) in
      let (pos, word) = t.sizes x here in
      let size = gap_size x listed in
      let top : hole_node_end m x < u64_mod = t.starts (get_or (after x (ring m)) head_node) in
      let more_used : add64 used (m.node x).size ≡ used + (m.node x).size =
        ground (arith, sum, next, word) in
      let more_free : add64 free (m.node x).hole_size ≡ free + (m.node x).hole_size =
        ground (arith, sum, next, word, size, top) in
      let rest =
        print_each-Covers x xs (used + (m.node x).size) (free + (m.node x).hole_size) w.1
          (λ n h. k n (ground (arith, h))) (ground (arith, sum, next, word, size)) in
      let tail = λ (u f : ℕ).
        let (ls, v, g) = print_each m xs u f in ls ++ total_line (add64 g v) v g ∷ [] in
      let ends = λ (ls : List Line).
        Covers (hole_node_end m x) (m.node head_node).start (used + (m.node x).size)
          (free + (m.node x).hole_size) ls in
      let rest' : ends (tail (add64 used (m.node x).size) (add64 free (m.node x).hole_size)) =
        subst (λ u. ends (tail u (add64 free (m.node x).hole_size))) (sym more_used)
          (subst (λ f. ends (tail (used + (m.node x).size) f)) (sym more_free) rest) in
      (
        sym next,
        pos,
        ground (arith, word),
        subst (Covers (hole_node_start m x) (m.node head_node).start (used + (m.node x).size) free)
            (sym (append_assoc (dump_hole m x) _ _))
            (dump_hole-Covers x (m.node head_node).start (used + (m.node x).size) free _ listed
              rest'),
      )

  -- What drm_mm_print prints of an allocator that is in order goes through the whole range that is
  -- managed, holes and blocks, without a gap and without an overlap; the sums in its last line are
  -- those of the sizes in the lines before it.
  pub print-Covers : Covers (hole_node_start m head_node) (m.node head_node).start 0 0 (print m)
  unfolding print
  print-Covers =
      let size = gap_size head_node (ground arith) in
      let top : hole_node_end m head_node < u64_mod =
        t.starts (get_or (after head_node (ring m)) head_node) in
      let free : add64 0 (m.node head_node).hole_size ≡ (m.node head_node).hole_size =
        ground (arith, size, top) in
      let rest =
        print_each-Covers head_node m.node_list 0 (m.node head_node).hole_size
          (Walks-after (λ n. after n (ring m)) (ring m) t.distinct λ q h. refl) (λ n h. h)
          (ground (arith, size)) in
      let tail = λ (f : ℕ).
        let (ls, v, g) = print_each m m.node_list 0 f in ls ++ total_line (add64 g v) v g ∷ [] in
      let ends = Covers (hole_node_end m head_node) (m.node head_node).start 0 in
      let none_before : 0 + (m.node head_node).hole_size ≡ (m.node head_node).hole_size =
        omega arith in
      subst (Covers (hole_node_start m head_node) (m.node head_node).start 0 0)
        (sym (append_assoc (dump_hole m head_node) _ _))
        (dump_hole-Covers head_node (m.node head_node).start 0 0 _ (ground arith) (
          subst (λ f. ends f (tail (add64 0 (m.node head_node).hole_size))) (sym none_before)
            (subst (λ f. ends (m.node head_node).hole_size (tail f)) (sym free) rest)))
