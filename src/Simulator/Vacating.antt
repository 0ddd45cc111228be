-- ===== src/Simulator/Vacating.antt =====
-- main.c over drm_mm.c: what paging out leaves of the blocks of the allocator.
use cma_pool_log.Base.{
  ℕ, ◌≡◌, ◌⊎◌, refl, ap, ◌∙◌, subst, sym, inl, inr, Bool, true, none, List, [], ◌∷◌, arith, ◌==◌,
  if◌then◌else◌, has, Returns, Returns-mono, bind-Returns, both-Returns, Returns-Ensures,
  Bool-cases,
}
use cma_pool_log.Rbtree.{Balancing}
use cma_pool_log.Mm.Remove.{remove_node}
use cma_pool_log.Mm.Layout.{Tidy}
use cma_pool_log.Mm.Contract.{Space, space, given_back}
use cma_pool_log.Mm.Refining.{remove_node-given_back}
use cma_pool_log.Pool.{Data}
use cma_pool_log.Pool.Buffers.{remove_buffer_from_pool}
use cma_pool_log.Pool.PageIn.{
  evictable, purgeable, page_out_each, purge_each, userspace_cache_purge,
}
use cma_pool_log.Pool.Eviction.{Listed, Listed-tail, Removed-Listed}
use cma_pool_log.Simulator.{drm_mm}
use cma_pool_log.Simulator.Linked.{Linked, WithoutIt, remove_buffer-WithoutIt}

-- The blocks of the list are gone, and nothing else.
pub record Vacated (ps : List ℕ) (s t : Space) : Type 0 where
  pub bottom : t.bottom ≡ s.bottom
  pub top : t.top ≡ s.top
  pub block : (n : ℕ) → t.block n ≡ (if has n ps then none else s.block n)

-- Only blocks that may go are gone.
pub record Spares (may_go : ℕ → Bool) (s t : Space) : Type 0 where
  pub bottom : t.bottom ≡ s.bottom
  pub top : t.top ≡ s.top
  pub block : (n : ℕ) → (t.block n ≡ s.block n) ⊎ (may_go n ≡ true)

module _ (rb : Balancing) where
  remove_buffer-given_back :
      (p : ℕ) (d : Data (drm_mm rb))
      → Linked rb d
      → has p d.mru_buffers ≡ true
      → Returns (λ e. space e.mm ≡ given_back p (space d.mm)) (remove_buffer_from_pool p d)
  unfolding remove_buffer_from_pool
  remove_buffer-given_back p d l there =
      bind-Returns (λ w. Tidy w × (space w ≡ given_back p (space d.mm)))
        (λ (e : Data (drm_mm rb)). space e.mm ≡ given_back p (space d.mm)) (remove_node rb p d.mm) _
        (remove_node-given_back rb d.mm p l.tidy (l.placed p ∙ there)) λ w (t, g). g

  -- Paging out one buffer, as far as it is known.
  abbrev Gone : ℕ → Data (drm_mm rb) → Data (drm_mm rb) → Type 0
  Gone p d e = WithoutIt rb p d e × (space e.mm ≡ given_back p (space d.mm))

  remove_buffer-Gone :
      (p : ℕ) (d : Data (drm_mm rb))
      → Linked rb d
      → has p d.mru_buffers ≡ true
      → Returns (Gone p d) (remove_buffer_from_pool p d)
  remove_buffer-Gone p d l there =
      both-Returns (WithoutIt rb p d)
        (λ (e : Data (drm_mm rb)). space e.mm ≡ given_back p (space d.mm)) _
        (remove_buffer-WithoutIt rb p d l there)
        (Returns-Ensures (λ (e : Data (drm_mm rb)). space e.mm ≡ given_back p (space d.mm)) _
          (remove_buffer-given_back p d l there))

  pub page_out_each-Vacated :
      (ps : List ℕ) (d : Data (drm_mm rb))
      → Linked rb d
      → Listed ps d
      → Returns (λ e. Vacated ps (space d.mm) (space e.mm)) (page_out_each ps d)
  unfolding page_out_each
  page_out_each-Vacated [] d l t = record { bottom = refl; top = refl; block = λ n. refl }
  page_out_each-Vacated (p ∷ ps) d l t =
      let there = t.in_pool p (ground arith) in
      bind-Returns (Gone p d) (λ (f : Data (drm_mm rb)). Vacated (p ∷ ps) (space d.mm) (space f.mm))
        (remove_buffer_from_pool p d) _ (remove_buffer-Gone p d l there)
        λ e ((k, r), g).
          Returns-mono (λ (f : Data (drm_mm rb)). Vacated ps (space e.mm) (space f.mm))
            (λ (f : Data (drm_mm rb)). Vacated (p ∷ ps) (space d.mm) (space f.mm)) _
            (page_out_each-Vacated ps e k (Removed-Listed p ps d e l.inv t r))
            λ f v. record {
              bottom = v.bottom ∙ ap (λ s. s.bottom) g;
              top = v.top ∙ ap (λ s. s.top) g;
              block =
                  λ n. v.block n ∙ ap (λ s. if has n ps then none else s.block n) g ∙ ground arith;
            }

  -- The purge keeps who may go and who must stay.
  pub record Stays (d e : Data (drm_mm rb)) : Type 0 where
    pub spares : Spares (λ n. evictable (d.buffer n)) (space d.mm) (space e.mm)
    pub buffer : (n : ℕ) → evictable (e.buffer n) ≡ evictable (d.buffer n)

  Stays-refl : (d : Data (drm_mm rb)) → Stays d d
  Stays-refl d = record {
    spares = record { bottom = refl; top = refl; block = λ n. inl refl };
    buffer = λ n. refl;
  }

  Stays-trans : (d e f : Data (drm_mm rb)) → Stays d e → Stays e f → Stays d f
  Stays-trans d e f s t = record {
    spares = record {
      bottom = t.spares.bottom ∙ s.spares.bottom;
      top = t.spares.top ∙ s.spares.top;
      block = λ n. elim (t.spares.block n) [
        | inr g ↦ inr (sym (s.buffer n) ∙ g)
        | inl h ↦ elim (s.spares.block n) [ inr g ↦ inr g | inl k ↦ inl (h ∙ k) ]
      ];
    };
    buffer = λ n. t.buffer n ∙ s.buffer n;
  }

  Gone-Stays :
      (p : ℕ) (d e : Data (drm_mm rb)) → evictable (d.buffer p) ≡ true → Gone p d e → Stays d e
  Gone-Stays p d e may ((k, (mm, r)), g) = record {
    spares = record {
      bottom = ap (λ s. s.bottom) g;
      top = ap (λ s. s.top) g;
      block = λ n. elim (Bool-cases (n == p)) [
        | inl i ↦
            let same : p ≡ n = ground (arith, i) in
            inr (subst (λ j. evictable (d.buffer j) ≡ true) same may)
        | inr i ↦ inl (ap (λ s. s.block n) g ∙ ground (arith, i))
      ];
    };
    buffer = λ n. ap (λ (f : Data (drm_mm rb)). evictable (f.buffer n)) r ∙ ground arith;
  }

  purge_each-Stays :
      (ps : List ℕ) (d : Data (drm_mm rb))
      → Linked rb d
      → Listed ps d
      → Returns (Stays d) (purge_each ps d)
  unfolding purge_each
  purge_each-Stays [] d l t = Stays-refl d
  purge_each-Stays (p ∷ ps) d l t = elim (Bool-cases (purgeable (d.buffer p))) [
    | inl goes ↦ rw goes (
        bind-Returns (Gone p d) (Stays d) (remove_buffer_from_pool p d) _
          (remove_buffer-Gone p d l (t.in_pool p (ground arith)))
          λ e ((k, r), g).
            Returns-mono (Stays e) (Stays d) _
              (purge_each-Stays ps e k (Removed-Listed p ps d e l.inv t r))
              λ f s. Stays-trans d e f (Gone-Stays p d e (ground (arith, goes)) ((k, r), g)) s)
    | inr stays ↦ rw stays (purge_each-Stays ps d l (Listed-tail p ps d t))
  ]

  -- The purge of the userspace cache takes away no block of a buffer that must stay.
  pub userspace_cache_purge-Stays :
      (d : Data (drm_mm rb)) → Linked rb d → Returns (Stays d) (userspace_cache_purge d)
  unfolding userspace_cache_purge
  userspace_cache_purge-Stays d l =
      purge_each-Stays d.mru_buffers d l
        (record { distinct = l.inv.distinct_mru; in_pool = λ q h. h })
