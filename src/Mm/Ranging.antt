-- ===== src/Mm/Ranging.antt =====
-- test-drm-mm/drm/drm_mm.h: the walk of drm_mm_for_each_node_in_range over the blocks in a range.
use cma_pool_log.Base.{
  ℕ, zero, suc, ◌+◌, ◌-◌, ◌≤◌, ◌<◌, ◌≡◌, refl, ap, ◌∙◌, inl, inr, Bool, true, false, Option, List,
  [], ◌∷◌, arith, u64_mod, ltb, leb, ◌&&◌, has, sub64, get_or, after, length, if◌then◌else◌,
  Bool-cases, ==_refl, ok,
}
use cma_pool_log.Base.Walk.{Walks, Walks-after}
use cma_pool_log.Mm.{Mm, head_node, ring, next_node}
use cma_pool_log.Mm.Interval.{last_of}
use cma_pool_log.Mm.Range.{
  first_meeting, Finds, interval_first, range_loop, range_fuel, nodes_in_range,
}
use cma_pool_log.Mm.Apart.{Ladder, Ladder-over}
use cma_pool_log.Mm.Layout.{Tidy}
use cma_pool_log.Mm.Laid.{Tidy-Laid}
use cma_pool_log.Mm.Mirroring.{Mirrors}

-- The block has an address from `start` up to `end`, and the blocks that have one.
abbrev pub meets : Mm → ℕ → ℕ → ℕ → Bool
meets m start end q = ltb start ((m.node q).start + (m.node q).size) && ltb (m.node q).start end

abbrev pub meeting : Mm → ℕ → ℕ → List ℕ → List ℕ
meeting m start end [] = []
meeting m start end (x ∷ xs) =
    if meets m start end x then x ∷ meeting m start end xs else meeting m start end xs

abbrev behind : Mm → ℕ → Option ℕ
behind m n = after n (ring m)

module _ (iter_first : Mm → ℕ → ℕ → Option ℕ) (m : Mm) (start end : ℕ)
    (top : end ≤ (m.node head_node).start) where
  -- All lie below 2^64 and are not empty.
  abbrev Blocks : List ℕ → Type 0
  Blocks xs =
      (n : ℕ)
      → has n xs ≡ true
      → (0 < (m.node n).size) × ((m.node n).start + (m.node n).size < u64_mod)

  meeting_none :
      (xs : List ℕ)
      → ((q : ℕ) → has q xs ≡ true → end ≤ (m.node q).start)
      → meeting m start end xs ≡ []
  meeting_none [] f = refl
  meeting_none (x ∷ xs) f =
      ground (arith, f x, ==_refl x, meeting_none xs λ q h. f q (ground (arith, h)))

  at_head : (fuel : ℕ) → 0 < fuel → range_loop iter_first fuel m end head_node ≡ ok []
  unfolding range_loop
  at_head zero h = absurd (omega (arith, h))
  at_head (suc fuel) h = ground (arith, top)

  loop-meeting :
      (fuel p : ℕ) (ys : List ℕ)
      → Walks (behind m) (p ∷ ys)
      → Ladder m p ys
      → Blocks (p ∷ ys)
      → start < (m.node p).start + (m.node p).size
      → length ys + 1 < fuel
      → range_loop iter_first fuel m end p ≡ ok (meeting m start end (p ∷ ys))
  unfolding range_loop
  loop-meeting zero p ys w l b s f = absurd (omega (arith, f))
  loop-meeting (suc fuel) p [] w l b s f = elim (Bool-cases (ltb (m.node p).start end)) [
    | inl e ↦
        let back : next_node m p ≡ head_node = ap (λ o. get_or o head_node) w.0 in
        rw (e, range_loop, back, at_head fuel (omega (arith, f))) (ground (arith, s, e))
    | inr e ↦ rw (e, range_loop) (ground (arith, e))
  ]
  loop-meeting (suc fuel) p (y ∷ ys) w l b s f = elim (Bool-cases (ltb (m.node p).start end)) [
    | inl e ↦
        let on : next_node m p ≡ y = ap (λ o. get_or o head_node) w.0 in
        let b' : Blocks (y ∷ ys) = λ n h. b n (ground (arith, h)) in
        let whole = b p (ground (arith, ==_refl p)) in
        let past : start < (m.node y).start + (m.node y).size = ground (arith, s, l.0, whole) in
        let rest = loop-meeting fuel y ys w.1 l.1 b' past (omega (arith, f)) in
        rw (e, range_loop, on, rest) (ground (arith, s, e))
    | inr e ↦
        let whole = b p (ground (arith, ==_refl p)) in
        let above : (q : ℕ) → has q (y ∷ ys) ≡ true → end ≤ (m.node q).start = λ q h.
          ground (
            arith,
            Ladder-over m p q (y ∷ ys) l (λ n k. (b n (ground (arith, k))).1) h,
            whole,
            e,
          ) in
        rw (e, range_loop, meeting_none (y ∷ ys) above) (ground (arith, e))
  ]

  first-meeting :
      (fuel p : ℕ) (xs : List ℕ)
      → Walks (behind m) xs
      → Ladder m p xs
      → Blocks xs
      → 0 < end
      → length xs + 1 < fuel
      → range_loop iter_first fuel m end (get_or (first_meeting m start (end - 1) xs) head_node)
        ≡ ok (meeting m start end xs)
  first-meeting fuel p [] w l b pos f = at_head fuel (omega (arith, f))
  first-meeting fuel p (x ∷ xs) w l b pos f =
      let whole = b x (ground (arith, ==_refl x)) in
      let rest =
        first-meeting fuel x xs w.1 l.1 (λ n h. b n (ground (arith, h))) pos (omega (arith, f)) in
      elim (Bool-cases (leb (m.node x).start (end - 1) && leb start (last_of m x))) [
        | inl e ↦
            rw e (loop-meeting fuel x xs w l.1 b (ground (arith, e, whole)) (omega (arith, f)))
        | inr e ↦
            let misses : meets m start end x ≡ false = ground (arith, e, whole, pos) in
            rw (e, misses) rest
      ]

-- In an allocator that is in order and whose interval tree holds the blocks of the list in the list's
-- order, with a search of the tree that finds what it is documented to, for a range that ends after 0
-- and within the allocator's: the walk over the range comes to its end, and goes in the order of
-- their addresses through the blocks that have an address in the range, and through no others.
pub nodes_in_range-meeting :
    (iter_first : Mm → ℕ → ℕ → Option ℕ) (m : Mm) (start end : ℕ)
    → Finds iter_first m
    → Tidy m
    → Mirrors m
    → 0 < end
    → end ≤ (m.node head_node).start
    → nodes_in_range iter_first m start end ≡ ok (meeting m start end m.node_list)
unfolding nodes_in_range interval_first
nodes_in_range-meeting iter_first m start end finds t s pos top =
    let last : sub64 end 1 ≡ end - 1 = ground (arith, pos, top, t.starts head_node) in
    ap (λ o. range_loop iter_first (range_fuel m) m end (get_or o head_node))
      (finds start (sub64 end 1)
        ∙ ap (first_meeting m start (sub64 end 1)) s.entries
        ∙ ap (λ k. first_meeting m start k m.node_list) last)
    ∙ first-meeting iter_first m start end top (range_fuel m) head_node m.node_list
        (Walks-after (behind m) (ring m) t.distinct λ q h. refl).1 (Tidy-Laid m t).ladder t.sizes
        pos (omega arith)
