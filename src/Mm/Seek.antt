-- ===== src/Mm/Seek.antt =====
-- test-drm-mm/drm_mm.c: the search loop of drm_mm_insert_node_in_range comes to an end, and only to a
-- hole in which the block has a place.
use cma_pool_log.Base.{
  ℕ, zero, suc, add64, ==_refl, ◌≤◌, ◌<◌, ◌≡◌, refl, sym, ◌∙◌, inl, inr, true, false, Option, none,
  some, List, [], ◌∷◌, arith, reverse, after, has, head?, length, leb, ltb, Distinct, has-append,
  has-reverse, Distinct-reverse, Outcome, ok, Returns, Option-cases, if◌then◌else◌,
}
use cma_pool_log.Base.Walk.{Walks, Walks-after, Walks-From, length-le}
use cma_pool_log.Rbtree.{Tree, leaf, fork, in_order}
use cma_pool_log.Mm.{Mm, Search, best, low, high, evict, hole_follows, hole_node_start}
use cma_pool_log.Mm.FindHole.{best_from, best_hole, find_from, find_hole, first_hole, next_hole}
use cma_pool_log.Mm.Insert.{Request, place_in, hole_loop, hole_fuel, hole_bounds, past_range}
use cma_pool_log.Mm.Index.{Indexed}

-- The holes in the order in which a search of the kind goes through them.
abbrev pub order : Mm → Search → List ℕ
order m best = reverse (in_order (m.holes_size).root)
order m low = in_order m.holes_addr
order m high = reverse (in_order m.holes_addr)
order m evict = m.hole_stack

next_hole-order : (m : Mm) (n : ℕ) (s : Search) → next_hole m n s ≡ after n (order m s)
unfolding next_hole
next_hole-order m n best = refl
next_hole-order m n low = refl
next_hole-order m n high = refl
next_hole-order m n evict = refl

pub has-order : (m : Mm) (s : Search) (n : ℕ) → Indexed m → has n (order m s) ≡ hole_follows m n
has-order m best n v = has-reverse n (in_order (m.holes_size).root) ∙ v.in_size n
has-order m low n v = v.in_addr n
has-order m high n v = has-reverse n (in_order m.holes_addr) ∙ v.in_addr n
has-order m evict n v = v.in_stack n

order-Distinct : (m : Mm) (s : Search) → Indexed m → Distinct (order m s)
order-Distinct m best v = Distinct-reverse (in_order (m.holes_size).root) v.size
order-Distinct m low v = v.addr
order-Distinct m high v = Distinct-reverse (in_order m.holes_addr) v.addr
order-Distinct m evict v = v.stack

pub order-Walks : (m : Mm) (s : Search) → Indexed m → Walks (λ n. next_hole m n s) (order m s)
order-Walks m s v =
    Walks-after (λ n. next_hole m n s) (order m s) (order-Distinct m s v)
      λ q h. next_hole-order m q s

order-length : (m : Mm) (s : Search) → Indexed m → length (order m s) ≤ length m.hole_stack
order-length m s v =
    length-le (order m s) m.hole_stack (order-Distinct m s v) v.stack
      λ q h. v.in_stack q ∙ sym (has-order m s q v) ∙ h

-- The hole, if there is one, is an entry of the tree.
abbrev IsIn : List ℕ → Option ℕ → Type 0
IsIn l none = Unit
IsIn l (some n) = has n l ≡ true

IsIn-mono :
    (l k : List ℕ) (o : Option ℕ)
    → ((q : ℕ) → has q l ≡ true → has q k ≡ true)
    → IsIn l o
    → IsIn k o
IsIn-mono l k none f h = tt
IsIn-mono l k (some n) f h = f n h

best_from-IsIn :
    (key : ℕ → ℕ) (size : ℕ) (found : Option ℕ) (t : Tree) (l : List ℕ)
    → IsIn l found
    → ((q : ℕ) → has q (in_order t) ≡ true → has q l ≡ true)
    → IsIn l (best_from key size found t)
unfolding best_from
best_from-IsIn key size found leaf l h k = h
best_from-IsIn key size found (fork c t x r) l h k =
    elim (leb size (key x))
      as (λ b. IsIn l (elim b as (λ _. Option ℕ) [
        | true ↦ best_from key size (some x) r
        | false ↦ best_from key size found t
      ])) [
        | true ↦
            best_from-IsIn key size (some x) r l
              (k x (ground (arith, has-append x (in_order t) (x ∷ in_order r))))
              λ q g. k q (ground (arith, g, has-append q (in_order t) (x ∷ in_order r)))
        | false ↦
            best_from-IsIn key size found t l h
              λ q g. k q (ground (arith, g, has-append q (in_order t) (x ∷ in_order r)))
      ]

find_from-IsIn :
    (m : Mm) (addr : ℕ) (found : Option ℕ) (t : Tree) (l : List ℕ)
    → IsIn l found
    → ((q : ℕ) → has q (in_order t) ≡ true → has q l ≡ true)
    → IsIn l (find_from m addr found t)
unfolding find_from
find_from-IsIn m addr found leaf l h k = h
find_from-IsIn m addr found (fork c t x r) l h k =
    let here = k x (ground (arith, has-append x (in_order t) (x ∷ in_order r))) in
    elim (ltb addr (hole_node_start m x))
      as (λ b. IsIn l (elim b as (λ _. Option ℕ) [
        | true ↦ find_from m addr (some x) t
        | false ↦ elim (ltb (add64 (hole_node_start m x) (m.node x).hole_size) addr) [
          | true ↦ find_from m addr (some x) r
          | false ↦ some x
        ]
      ])) [
        | true ↦
            find_from-IsIn m addr (some x) t l here
              λ q g. k q (ground (arith, g, has-append q (in_order t) (x ∷ in_order r)))
        | false ↦
            elim (ltb (add64 (hole_node_start m x) (m.node x).hole_size) addr)
              as (λ b. IsIn l (elim b as (λ _. Option ℕ) [
                | true ↦ find_from m addr (some x) r
                | false ↦ some x
              ])) [
                | true ↦
                    find_from-IsIn m addr (some x) r l here
                      λ q g. k q (ground (arith, g, has-append q (in_order t) (x ∷ in_order r)))
                | false ↦ here
              ]
      ]

first_hole-IsIn :
    (m : Mm) (start end size : ℕ) (s : Search) → IsIn (order m s) (first_hole m start end size s)
unfolding first_hole best_hole find_hole
first_hole-IsIn m start end size best =
    best_from-IsIn (λ n. (m.node n).hole_size) size none (m.holes_size).root (order m best) tt
      λ q h. has-reverse q (in_order (m.holes_size).root) ∙ h
first_hole-IsIn m start end size low =
    find_from-IsIn m start none m.holes_addr (order m low) tt λ q h. h
first_hole-IsIn m start end size high =
    find_from-IsIn m end none m.holes_addr (order m high) tt
      λ q h. has-reverse q (in_order m.holes_addr) ∙ h
first_hole-IsIn m start end size evict = elim m.hole_stack as (λ l. IsIn l (head? l)) [
  | [] ↦ tt
  | n ∷ ns ↦ ground (arith, ==_refl n)
]

-- What the search answers: no hole, or one in which the block goes to the address.
abbrev pub Sought : Mm → Request → Option (ℕ × ℕ) → Type 0
Sought m q none = Unit
Sought m q (some (hole, start)) = (hole_follows m hole ≡ true) × (place_in m q hole ≡ some start)

hole_loop-Sought :
    (m : Mm) (q : Request) (l : List ℕ) (fuel : ℕ)
    → length l < fuel
    → Walks (λ n. next_hole m n q.mode.search) l
    → ((n : ℕ) → has n l ≡ true → hole_follows m n ≡ true)
    → Returns (Sought m q) (hole_loop fuel m q (head? l))
unfolding hole_loop
hole_loop-Sought m q l zero h w f = omega (arith, h)
hole_loop-Sought m q [] (suc fuel) h w f = tt
hole_loop-Sought m q (n ∷ ns) (suc fuel) h w f =
    let rest : Returns (Sought m q)
        (hole_loop fuel m q (if q.mode.once then none else next_hole m n q.mode.search)) =
      elim q.mode.once
        as (λ b.
          Returns (Sought m q)
            (hole_loop fuel m q (if b then none else next_hole m n q.mode.search))) [
              | true ↦ hole_loop-Sought m q [] fuel (omega (arith, h)) tt λ p g. cc
              | false ↦ rw w.0 (
                  hole_loop-Sought m q ns fuel (omega (arith, h)) w.1
                    λ p g. f p (ground (arith, g)))
            ] in
    elim (past_range q.mode.search q.range (hole_bounds m n))
      as (λ b. Returns (Sought m q) (
        if b then ok none else elim (place_in m q n) as (λ _. Outcome (Option (ℕ × ℕ))) [
          | none ↦ hole_loop fuel m q (if q.mode.once then none else next_hole m n q.mode.search)
          | some start ↦ ok (some (n, start))
        ])) [
          | true ↦ tt
          | false ↦ elim (Option-cases (place_in m q n)) [
            | inl e ↦ rw e rest
            | inr (s, e) ↦ rw e (f n (ground (arith, ==_refl n)), e)
          ]
        ]

-- In an allocator whose stack and trees of holes agree the search comes to an end, within the fuel
-- that it is given, in every mode. Where it finds a hole, that is one of them, and the block has a
-- place in it.
pub search-Sought :
    (m : Mm) (q : Request) (start end size : ℕ)
    → Indexed m
    → Returns (Sought m q) (hole_loop (hole_fuel m) m q (first_hole m start end size q.mode.search))
search-Sought m q start end size v =
    elim (Option-cases (first_hole m start end size q.mode.search)) [
      | inl e ↦ rw e (hole_loop-Sought m q [] (hole_fuel m) (omega arith) tt λ n g. cc)
      | inr (n, e) ↦
          let there : has n (order m q.mode.search) ≡ true =
            rw e at (first_hole-IsIn m start end size q.mode.search) in
          let from =
            Walks-From (λ p. next_hole m p q.mode.search) n (order m q.mode.search) there
              (order-Walks m q.mode.search v) in
          rw e (
            hole_loop-Sought m q (n ∷ from.rest) (hole_fuel m)
              (omega (arith, from.short, order-length m q.mode.search v)) from.walks
              λ p g. sym (has-order m q.mode.search p v) ∙ from.within p g)
    ]
