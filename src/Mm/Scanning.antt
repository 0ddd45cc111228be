-- ===== src/Mm/Scanning.antt =====
-- test-drm-mm/drm_mm.c: a scan takes blocks off the list without failing an assertion.
use cma_pool_log.Base.{
  ℕ, ◌+◌, ◌<◌, ◌≡◌, refl, sym, ap, subst, ◌∙◌, inl, inr, Bool, true, false, not, none, some, arith,
  ltb, leb, ◌==◌, add64, u64_mod, has, before_from, get_or, has-remove, remove-Distinct,
  has_of_before_from, Outcome, ◌>>◌, assert, Returns, Bool-cases, Option-cases, ==_refl,
}
use cma_pool_log.Base.Ring.{before_from-total, after-before_from}
use cma_pool_log.Mm.{
  Mm, Search, best, low, high, evict, InsertMode, insert_high, Scan, head_node, next_node,
  prev_node, hole_node_start, hole_node_end,
}
use cma_pool_log.Mm.Insert.{mask_of, place, color_adjusted}
use cma_pool_log.Mm.Place.{Fits, place-Fits, place-none}
use cma_pool_log.Mm.Extreme.{Outermost, place-Outermost}
use cma_pool_log.Mm.Roster.{scan_add_block, scan_hit, scan_search, unlink}
use cma_pool_log.Mm.Rollback.{Listed, Unlinked}

-- Addresses are words, and the driver set no color adjustment, as main.c does not.
pub record Plain (m : Mm) : Type 0 where
  pub color_adjust : m.color_adjust ≡ none
  pub starts : (n : ℕ) → (m.node n).start < u64_mod

-- What drm_mm_scan_init_with_range sets up.
pub record Asks (scan : Scan) : Type 0 where
  pub some_size : 0 < scan.size
  pub alignment : scan.alignment < u64_mod
  pub mask : scan.remainder_mask ≡ mask_of scan.alignment
  pub range_end : scan.range_end < u64_mod

pub unlink-Unlinked :
    (x h : ℕ) (m : Mm)
    → Listed m
    → before_from x head_node m.node_list ≡ some h
    → Unlinked x h m (unlink h x m)
unlink-Unlinked x h m l e = record {
  behind = e;
  color_adjust = refl;
  others = λ n ne. ground arith;
  fields = ground arith;
  scanned = ground arith;
  prev = ground arith;
  next = ground arith;
  node_list = refl;
  hole_stack = refl;
  interval_tree = refl;
  subtree_last = refl;
  holes_size = refl;
  holes_addr = refl;
  scan_active = refl;
}

pub Unlinked-Listed : (x h : ℕ) (m w : Mm) → Listed m → Unlinked x h m w → Listed w
Unlinked-Listed x h m w l u =
    let there = has_of_before_from x head_node h m.node_list u.behind in
    record {
      distinct = (
        ground (arith, u.node_list, has-remove x head_node m.node_list l.distinct.1, l.distinct),
        ground (arith, u.node_list, remove-Distinct x m.node_list l.distinct.1),
      );
      owned = λ n g.
          ground
            (arith, u.node_list, has-remove x n m.node_list l.distinct.1, u.others n, l.owned n);
      allocated = λ n g.
          ground (
            arith,
            u.node_list,
            has-remove x n m.node_list l.distinct.1,
            u.others n,
            l.allocated n,
          );
      unscanned = λ n g. ground (
        arith,
        u.node_list,
        has-remove x n m.node_list l.distinct.1,
        l.distinct,
        u.others n,
        l.unscanned n,
      );
    }

pub Unlinked-Plain : (x h : ℕ) (m w : Mm) → Plain m → Unlinked x h m w → Plain w
Unlinked-Plain x h m w p u = record {
  color_adjust = ground (arith, p.color_adjust, u.color_adjust);
  starts = λ n. elim (Bool-cases (n == x)) [
    | inl same ↦ ground (arith, u.fields, p.starts n)
    | inr other ↦ ground (arith, u.others n, p.starts n)
  ];
}

-- The block that is asked for has no place in the gap behind the node.
abbrev pub NoPlace : Scan → Mm → ℕ → Type 0
NoPlace scan w h =
    (s : ℕ)
    → ¬ Fits scan.size scan.alignment (scan.range_start, scan.range_end)
        (hole_node_start w h, hole_node_end w h) s

-- The outcome of taking one block off.
pub record Added (scan : Scan) (x h : ℕ) (m : Mm) (r : Bool × Scan × Mm) : Type 0 where
  pub unlinked : Unlinked x h m r.2
  pub miss : r.0 ≡ false → (r.1 ≡ scan) × NoPlace scan r.2 h
  pub hit :
      r.0 ≡ true
      → (r.1 ≡ record scan { hit_start = r.1.hit_start; hit_end = r.1.hit_end })
        × (r.1.hit_end ≡ r.1.hit_start + scan.size)
        × Fits scan.size scan.alignment
            (scan.range_start, scan.range_end)
            (hole_node_start r.2 h, hole_node_end r.2 h)
            r.1.hit_start
  pub outermost :
      r.0 ≡ true
      → Outermost
          (scan.mode ≡ insert_high)
          scan.size
          scan.alignment
          (scan.range_start, scan.range_end)
          (hole_node_start r.2 h, hole_node_end r.2 h)
          r.1.hit_start

assert_three {ℓ} :
    {B : Type ℓ} (a b c : Bool) (k : Outcome B)
    → a ≡ true
    → b ≡ true
    → c ≡ true
    → (assert a >> (assert b >> (assert c >> k))) ≡ k
assert_three a b c k p q r = rw (p, q, r)

assert_first {ℓ} : {B : Type ℓ} (a : Bool) (k : Outcome B) → a ≡ true → (assert a >> k) ≡ k
assert_first a k p = rw p refl

scan_add_block-hit :
    (scan : Scan) (x h : ℕ) (m : Mm)
    → Listed m
    → before_from x head_node m.node_list ≡ some h
    → scan_add_block scan m x ≡ scan_hit scan (unlink h x m) h
unfolding scan_add_block
scan_add_block-hit scan x h m l e =
    let there = has_of_before_from x head_node h m.node_list e in
    let prev : prev_node m x ≡ h = ap (λ t. get_or t head_node) e in
    let found = after-before_from x head_node h m.node_list e l.distinct in
    assert_first (m.node x).mm
      (assert (m.node x).allocated
        >> (assert (not (m.node x).scanned_block)
            >> (assert (next_node m (prev_node m x) == x)
                >> scan_hit scan (unlink (prev_node m x) x m) (prev_node m x))))
      (l.owned x there)
    ∙ assert_three (m.node x).allocated (not (m.node x).scanned_block)
        (next_node m (prev_node m x) == x)
        (scan_hit scan (unlink (prev_node m x) x m) (prev_node m x)) (l.allocated x there)
        (ap not (l.unscanned x (ground arith)))
        (ap (λ t. next_node m t == x) prev ∙ ap (λ t. get_or t head_node == x) found ∙ ==_refl x)
    ∙ ap (λ t. scan_hit scan (unlink t x m) t) prev

-- The search of the scan is for the high end just if the whole mode is.
scan_search-high :
    (search : Search) (once : Bool)
    → let mode : InsertMode = record { search = search; once = once } in
      scan_search mode ≡ high → mode ≡ insert_high
scan_search-high high false e = refl
scan_search-high high true e = cc
scan_search-high best once e = cc
scan_search-high low once e = cc
scan_search-high evict once e = cc

scan_Outermost :
    (mode : InsertMode) (size alignment s : ℕ) (range hole : ℕ × ℕ)
    → Outermost (scan_search mode ≡ high) size alignment range hole s
    → Outermost (mode ≡ insert_high) size alignment range hole s
scan_Outermost mode size alignment s range hole o t f =
    let (up, down) = o t f in
    (
      λ same. up (ap scan_search same),
      λ other. down λ e. other (scan_search-high mode.search mode.once e),
    )

-- The assertions on the hit hold, since it fits.
scan_hit-Returns :
    (scan : Scan) (w : Mm) (h : ℕ) (P : Bool × Scan × Mm → Type 0)
    → Plain w
    → Asks scan
    → (NoPlace scan w h → P (false, scan, w))
    → ((s : ℕ)
        → Fits scan.size scan.alignment
            (scan.range_start, scan.range_end)
            (hole_node_start w h, hole_node_end w h)
            s
        → Outermost
            (scan.mode ≡ insert_high)
            scan.size
            scan.alignment
            (scan.range_start, scan.range_end)
            (hole_node_start w h, hole_node_end w h)
            s
        → P (true, record scan { hit_start = s; hit_end = s + scan.size }, w))
    → Returns P (scan_hit scan w h)
unfolding scan_hit
scan_hit-Returns scan w h P p q missed found =
    elim (Option-cases (
      place (scan_search scan.mode) scan.size scan.alignment scan.remainder_mask
        (scan.range_start, scan.range_end)
        (color_adjusted w h scan.color (hole_node_start w h, hole_node_end w h)))) [
          | inl e ↦
              let e' = rw (q.mask, p.color_adjust) at e in
              rw (e, scan_hit)
                (missed λ s.
                  place-none scan.size scan.alignment scan.range_start scan.range_end
                    (hole_node_start w h) (hole_node_end w h) (p.starts _) q.range_end q.alignment
                    (scan_search scan.mode) s q.some_size e')
          | inr (s, e) ↦
              let e' = rw (q.mask, p.color_adjust) at e in
              let f =
                place-Fits scan.size scan.alignment scan.range_start scan.range_end
                  (hole_node_start w h) (hole_node_end w h) (p.starts _) q.range_end q.alignment
                  (scan_search scan.mode) s e' in
              let no_wrap : add64 s scan.size ≡ s + scan.size =
                ground (arith, f.below_range, q.range_end) in
              rw (e, scan_hit)
                (rw (no_wrap) (
                  subst (Returns P)
                    (sym (
                      assert_three (ltb s (s + scan.size)) (leb (hole_node_start w h) s)
                        (leb (s + scan.size) (hole_node_end w h)) _ (ground (arith, q.some_size))
                        (ground (arith, f.above_hole)) (ground (arith, f.below_hole))))
                    (found s f (
                      scan_Outermost scan.mode scan.size scan.alignment s
                        (scan.range_start, scan.range_end) (hole_node_start w h, hole_node_end w h)
                        (place-Outermost scan.size scan.alignment scan.range_start scan.range_end
                          (hole_node_start w h) (hole_node_end w h) (p.starts _) q.range_end
                          q.alignment (scan_search scan.mode) s e')))))
        ]

-- A block on a well-formed list, in an allocator without color_adjust, can be added to a scan for a
-- size that is not 0: no assertion fails. The answer is true just if the block that is asked for has a
-- place in the hole which this one leaves together with its neighbours, and then the hit is the
-- highest such place, if the mode is DRM_MM_INSERT_HIGH, and otherwise, also with the bit ONCE, the
-- lowest.
pub scan_add_block-Added :
    (scan : Scan) (x : ℕ) (m : Mm)
    → Listed m
    → Plain m
    → Asks scan
    → has x m.node_list ≡ true
    → (h : ℕ) × Returns (Added scan x h m) (scan_add_block scan m x)
scan_add_block-Added scan x m l p q there =
    let (h, e) = before_from-total x head_node m.node_list there in
    let u = unlink-Unlinked x h m l e in
    (
      h,
      rw (scan_add_block-hit scan x h m l e) (
          scan_hit-Returns scan (unlink h x m) h (Added scan x h m)
            (Unlinked-Plain x h m (unlink h x m) p u) q
            (λ no. record {
              unlinked = u;
              miss = λ _. (refl, no);
              hit = λ c. cc;
              outermost = λ c. cc;
            })
            λ s f o. record {
              unlinked = u;
              miss = λ c. cc;
              hit = λ _. (refl, refl, f);
              outermost = λ _. o;
            }),
    )
