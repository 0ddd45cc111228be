-- ===== src/Pool/Picking.antt =====
-- test-drm-mm/main.c: `page_out_buffers_for_insertion` pages out only buffers that may go.
use cma_pool_log.Base.{
  ℕ, ◌≡◌, refl, inl, inr, Bool, true, false, List, [], ◌∷◌, reverse, arith, if◌then◌else◌, has,
  Distinct, Distinct-reverse, has-reverse, ok, ◌>>=◌, Ensures, bind-Ensures, any-Ensures,
  Ensures-mono, Bool-cases,
}
use cma_pool_log.Mm.{insert_best}
use cma_pool_log.Pool.{Allocator, Buffer, Data, page_size, pool_size}
use cma_pool_log.Pool.PageIn.{
  evictable, scan_buffers, clean_up, keep_hits, page_out_each, page_out_buffers_for_insertion,
}
use cma_pool_log.Pool.Invariant.{Inv}
use cma_pool_log.Pool.Eviction.{Evicted, Evicted-trans, record-mm-Evicted, page_out_each-Evicted}

module _ (A : Allocator) (buffer : ℕ → Buffer) (source : List ℕ) where
  -- The eviction list while the walk has `rest` before it.
  pub record Picked (rest picked : List ℕ) : Type 0 where
    pub rest_distinct : Distinct rest
    pub distinct : Distinct picked
    pub apart : (q : ℕ) → has q rest ≡ true → has q picked ≡ false
    pub ahead : (q : ℕ) → has q rest ≡ true → has q source ≡ true
    pub from_source : (q : ℕ) → has q picked ≡ true → has q source ≡ true
    pub free : (q : ℕ) → has q picked ≡ true → evictable (buffer q) ≡ true

  Picked-skip : (p : ℕ) (rest picked : List ℕ) → Picked (p ∷ rest) picked → Picked rest picked
  Picked-skip p rest picked k = record {
    rest_distinct = k.rest_distinct.1;
    distinct = k.distinct;
    apart = λ q h. k.apart q (ground arith);
    ahead = λ q h. k.ahead q (ground arith);
    from_source = k.from_source;
    free = k.free;
  }

  Picked-take :
      (p : ℕ) (rest picked : List ℕ)
      → evictable (buffer p) ≡ true
      → Picked (p ∷ rest) picked
      → Picked rest (p ∷ picked)
  Picked-take p rest picked h k = record {
    rest_distinct = k.rest_distinct.1;
    distinct = (k.apart p (ground arith), k.distinct);
    apart = λ q g. ground (arith, k.apart q, k.rest_distinct);
    ahead = λ q g. k.ahead q (ground arith);
    from_source = λ q g. ground (arith, k.from_source q, k.ahead q);
    free = λ q g. ground (arith, k.free q);
  }

  abbrev pub EndsPicked : Bool × A.Scan × A.State × List ℕ → Type 0
  EndsPicked r = Picked [] r.3

  pub scan_buffers-Picked :
      (rest : List ℕ) (scan : A.Scan) (mm : A.State) (picked : List ℕ)
      → Picked rest picked
      → Ensures EndsPicked (scan_buffers A buffer rest scan mm picked)
  unfolding scan_buffers
  scan_buffers-Picked [] scan mm picked k = k
  scan_buffers-Picked (p ∷ rest) scan mm picked k = elim (Bool-cases (evictable (buffer p))) [
    | inl free ↦ rw free (
        let k' = Picked-take p rest picked free k in
        any-Ensures EndsPicked (A.add_block scan mm p) _ λ (hit, scan', mm').
          elim hit
            as (λ b. Ensures EndsPicked (
              if b
              then ok (true, scan', mm', p ∷ picked)
              else scan_buffers A buffer rest scan' mm' (p ∷ picked))) [
                | true ↦ done rest (p ∷ picked) k'
                | false ↦ scan_buffers-Picked rest scan' mm' (p ∷ picked) k'
              ])
    | inr held ↦ rw held (scan_buffers-Picked rest scan mm picked (Picked-skip p rest picked k))
  ]
    where
      done : (rest picked : List ℕ) → Picked rest picked → Picked [] picked
      done rest picked k = record {
        rest_distinct = tt;
        distinct = k.distinct;
        apart = λ q h. cc;
        ahead = λ q h. cc;
        from_source = k.from_source;
        free = k.free;
      }

-- The kept ones are among the picked ones.
pub record Kept (picked kept : List ℕ) : Type 0 where
  pub distinct : Distinct kept
  pub among : (q : ℕ) → has q kept ≡ true → has q picked ≡ true

module _ (A : Allocator) where
  abbrev pub KeptIn : List ℕ → List ℕ × A.State → Type 0
  KeptIn l r = Kept l r.0

  pub keep_hits-KeptIn :
      (scan : A.Scan) (l : List ℕ) (mm : A.State)
      → Distinct l
      → Ensures (KeptIn l) (keep_hits A scan l mm)
  unfolding keep_hits
  keep_hits-KeptIn scan [] mm d = record { distinct = tt; among = λ q h. h }
  keep_hits-KeptIn scan (p ∷ ps) mm d =
      any-Ensures (KeptIn (p ∷ ps)) (A.remove_block scan mm p) _ λ (evict, mm').
        bind-Ensures (KeptIn ps) (KeptIn (p ∷ ps)) (keep_hits A scan ps mm') _
          (keep_hits-KeptIn scan ps mm' d.1)
          λ (hits, mm'') k.
            elim evict
              as (λ b.
                Ensures (KeptIn (p ∷ ps)) (ok (if b then (p ∷ hits, mm'') else (hits, mm'')))) [
                  | true ↦ record {
                    distinct = (ground (arith, k.among p), k.distinct);
                    among = λ q h. ground (arith, k.among q);
                  }
                  | false ↦ record {
                    distinct = k.distinct;
                    among = λ q h. ground (arith, k.among q);
                  }
                ]

module _ {A : Allocator} where
  abbrev pub AfterEviction : Data A → Bool × Data A → Type 0
  AfterEviction d r = Evicted d r.1

  -- From data with the invariant, and where no assertion cuts it off, only buffers that are neither
  -- in use nor unmoveable leave the pool, whatever the scan answers.
  pub page_out_buffers-Evicted :
      (size : ℕ) (d : Data A)
      → Inv d
      → Ensures (AfterEviction d) (page_out_buffers_for_insertion size d)
  unfolding page_out_buffers_for_insertion
  page_out_buffers-Evicted size d v =
      any-Ensures (AfterEviction d) (A.scan_init d.mm size page_size 0 0 pool_size insert_best) _
        λ scan.
          bind-Ensures (EndsPicked A d.buffer (reverse d.mru_buffers)) (AfterEviction d)
            (scan_buffers A d.buffer (reverse d.mru_buffers) scan d.mm []) _
            (scan_buffers-Picked A d.buffer (reverse d.mru_buffers) (reverse d.mru_buffers) scan
              d.mm [] start)
            λ (found, scan', mm, picked) k.
              elim found
                as (λ b. Ensures (AfterEviction d) (
                  if b
                  then (do
                    (hits, mm') ← keep_hits A scan' picked mm
                    d' ← page_out_each hits (record d { mm = mm' })
                    ok (true, d'))
                  else (do mm' ← clean_up A scan' picked mm; ok (false, record d { mm = mm' })))) [
                    | true ↦
                        bind-Ensures (KeptIn A picked) (AfterEviction d)
                          (keep_hits A scan' picked mm) _
                          (keep_hits-KeptIn A scan' picked mm k.distinct)
                          λ (hits, mm') kept.
                            bind-Ensures (Evicted d) (AfterEviction d)
                              (page_out_each hits (record d { mm = mm' })) _
                              (go hits mm' picked k kept) λ e s. s
                    | false ↦
                        any-Ensures (AfterEviction d) (clean_up A scan' picked mm) _
                          λ mm'. record-mm-Evicted d mm' v
                  ]
    where
      start : Picked A d.buffer (reverse d.mru_buffers) (reverse d.mru_buffers) []
      start = record {
        rest_distinct = Distinct-reverse d.mru_buffers v.distinct_mru;
        distinct = tt;
        apart = λ q h. refl;
        ahead = λ q h. h;
        from_source = λ q h. cc;
        free = λ q h. cc;
      }

      go :
          (hits : List ℕ) (mm : A.State) (picked : List ℕ)
          → Picked A d.buffer (reverse d.mru_buffers) [] picked
          → Kept picked hits
          → Ensures (Evicted d) (page_out_each hits (record d { mm = mm }))
      go hits mm picked k kept =
          let s = record-mm-Evicted d mm v in
          let e : Data A = record d { mm = mm } in
          Ensures-mono (Evicted e) (Evicted d) _
            (page_out_each-Evicted hits e s.inv
              (record {
                distinct = kept.distinct;
                in_pool = λ q h.
                    ground (arith, kept.among q, k.from_source q, has-reverse q d.mru_buffers);
              })
              (λ q h. k.free q (kept.among q h)))
            λ f. Evicted-trans d e f s
