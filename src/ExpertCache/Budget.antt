-- ===== src/ExpertCache/Budget.antt =====
-- The expert cache of src/swlp/runner/mlx_expert_cache.py stays within its byte budget, its byte
-- counter is the sum over the cached experts, and what it holds and gives out is what the reads
-- gave, converted.
use swlp.Prelude.{
  ℕ, zero, suc, ◌+◌, ◌*◌, ◌≤◌, ◌<◌, ◌≡◌, refl, sym, ap, ap₂, subst, ◌∙◌, Bool, true, false, ◌&&◌,
  Option, none, some, List, [], ◌∷◌, ◌++◌, arith, ==_iff, ltb, if◌then◌else◌, Bool-cases, inl, inr,
  length, Result, ok, err,
}
use swlp.ExpertCache.{
  ExpertSource, own_read, converted, converted_from, Key, ReadError, conversion_error, same_key,
  find, without, rebuild_heap, push, touch, evict_one, second_try, shrink, inserted, materialized,
  materialize,
}
use swlp.ExpertCache.Evict.{Cache, sum_sizes, Faithful, IsExact, second_try-Evicts}

module _ {W : Type 0} (size : W → ℕ) (source : ExpertSource W) where
  pub record IsWithin (c : Cache size source) : Type 0 where
    pub kept : IsExact size source c
    pub within : c.nbytes ≤ c.budget_bytes

  no_bytes : (es : List (Key × W)) → length es ≡ 0 → sum_sizes size source es ≡ 0
  no_bytes [] e = refl
  no_bytes (x ∷ es) e = absurd (omega arith)

  shrink-IsWithin :
      (rounds : ℕ) (c : Cache size source)
      → IsExact size source c
      → length c.cache ≤ rounds
      → IsWithin (shrink size source rounds c)
  unfolding shrink
  shrink-IsWithin zero c h enough = record {
    kept = h;
    within = omega (arith, h.exact, no_bytes c.cache (omega arith));
  }
  shrink-IsWithin (suc rounds) c h enough =
      elim (Bool-cases (ltb c.budget_bytes c.nbytes && ltb 0 (length c.cache))) [
        | inl over ↦
            let pos : 0 < length c.cache = ground arith in
            let (e, done) = second_try-Evicts size source c h pos in
            rw (over, done)
              (shrink-IsWithin rounds (second_try size source (evict_one size source c)).1 e.kept
                (omega (arith, e.fewer done)))
        | inr under ↦ rw under (record { kept = h; within = small under })
      ]
    where
      small :
          (ltb c.budget_bytes c.nbytes && ltb 0 (length c.cache)) ≡ false
          → c.nbytes ≤ c.budget_bytes
      small under = elim (Bool-cases (ltb 0 (length c.cache))) [
        | inl cached ↦ ground arith
        | inr nothing ↦
            let none_left : length c.cache ≡ 0 = ground arith in
            omega (arith, h.exact, no_bytes c.cache none_left)
      ]

  push-IsExact :
      (c : Cache size source) (k : Key)
      → IsExact size source c
      → IsExact size source (push size source c k)
  unfolding push rebuild_heap
  push-IsExact c k h = elim (Bool-cases (ltb (4 * length c.cache + 4096) (suc (length c.heap)))) [
    | inl long ↦ rw long (record { exact = h.exact; faithful = h.faithful })
    | inr short ↦ rw short (record { exact = h.exact; faithful = h.faithful })
  ]

  touch-IsExact :
      (c : Cache size source) (k : Key)
      → IsExact size source c
      → IsExact size source (touch size source c k)
  unfolding touch
  touch-IsExact c k h = push-IsExact _ k (record { exact = h.exact; faithful = h.faithful })

  push_keeps :
      (c : Cache size source) (k : Key)
      → (push size source c k).nbytes ≡ c.nbytes
        × ((push size source c k).budget_bytes ≡ c.budget_bytes)
  unfolding push rebuild_heap
  push_keeps c k = elim (Bool-cases (ltb (4 * length c.cache + 4096) (suc (length c.heap)))) [
    | inl long ↦ rw long (refl, refl)
    | inr short ↦ rw short (refl, refl)
  ]

  pub touch-IsWithin :
      (c : Cache size source) (k : Key) → IsWithin c → IsWithin (touch size source c k)
  unfolding touch
  touch-IsWithin c k h =
      let (n, b) =
        push_keeps (record c { freq = λ j. if same_key k j then c.freq k + 1 else c.freq j }) k in
      record { kept = touch-IsExact c k h.kept; within = omega (arith, n, b, h.within) }

  pub append_cached :
      (es : List (Key × W)) (k : Key) (w : W)
      → own_read source k ≡ some w
      → Faithful size source es
      → Faithful size source (es ++ (k, w) ∷ [])
        × (sum_sizes size source (es ++ (k, w) ∷ []) ≡ sum_sizes size source es + size w)
  append_cached [] k w e h = ((e, h), omega arith)
  append_cached (x ∷ es) k w e h =
      let (f, s) = append_cached es k w e h.1 in ((h.0, f), omega (arith, s))

  pub same_key-eq : (j k : Key) → same_key j k ≡ true → j ≡ k
  same_key-eq j k h =
      let l : j.layer ≡ k.layer = ground (arith, ==_iff j.layer k.layer) in
      let e : j.eid ≡ k.eid = ground (arith, ==_iff j.eid k.eid) in
      ap₂ (λ layer eid. record { layer = layer; eid = eid }) l e

  pub find-Faithful :
      (k : Key) (es : List (Key × W)) (w : W)
      → Faithful size source es
      → find size source k es ≡ some w
      → own_read source k ≡ some w
  find-Faithful k [] w h e = ground arith
  find-Faithful k ((j, v) ∷ es) w h e = elim (Bool-cases (same_key j k)) [
    | inl same ↦
        let found : some v ≡ some w =
          ap (λ b. if b then some v else find size source k es) (sym same) ∙ e in
        subst (λ x. own_read source x ≡ some w) (same_key-eq j k same) (h.0 ∙ found)
    | inr other ↦
        let e' : find size source k es ≡ some w = ground arith in find-Faithful k es w h.1 e'
  ]

  -- What `_materialize` makes of a read: the read's expert, and a cache that is within the budget,
  -- exact and faithful; or the error of a conversion that raises.
  abbrev pub Materializes : Key → source.Raw → Result ReadError (W × Cache size source) → Type 0
  Materializes k raw (ok (w, c)) = IsWithin c × (own_read source k ≡ some w)
  Materializes k raw (err e) = (e ≡ conversion_error) × (converted source k raw ≡ none)

  shrunk-IsWithin :
      (k : Key) (used : Bool) (c : Cache size source)
      → IsExact size source c
      → IsWithin (
          shrink size source
            (length (if used then touch size source c k else push size source c k).cache)
            (if used then touch size source c k else push size source c k))
  shrunk-IsWithin k true c h = shrink-IsWithin _ _ (touch-IsExact c k h) (omega arith)
  shrunk-IsWithin k false c h = shrink-IsWithin _ _ (push-IsExact c k h) (omega arith)

  inserted-Materializes :
      (c : Cache size source) (k : Key) (raw : source.Raw) (used : Bool) (o : Option W)
      → converted source k raw ≡ o
      → own_read source k ≡ o
      → IsExact size source c
      → Materializes k raw (inserted size source c k used o)
  inserted-Materializes c k raw used none e own h = (refl, e)
  inserted-Materializes c k raw used (some w) e own h =
      let (f, s) = append_cached c.cache k w own h.faithful in
      let c1 : Cache size source = record c {
        cache = c.cache ++ (k, w) ∷ [];
        nbytes = c.nbytes + size w;
      } in
      let exact : IsExact size source c1 = record {
        exact = omega (arith, h.exact, s);
        faithful = f;
      } in
      (shrunk-IsWithin k used c1 exact, own)

  pub materialize-Materializes :
      (c : Cache size source) (k : Key) (raw : source.Raw) (used : Bool)
      → source.result k ≡ some raw
      → IsWithin c
      → Materializes k raw (materialize size source c k raw used)
  unfolding materialize
  materialize-Materializes c k raw used e h = from (find size source k c.cache) refl
    where
      c0 : Cache size source
      c0 = record c { inflight = without size source k c.inflight }

      from :
          (o : Option W)
          → find size source k c.cache ≡ o
          → Materializes k raw (materialized size source c0 k raw used o)
      from (some old) at = (
        record {
          kept = record { exact = h.kept.exact; faithful = h.kept.faithful };
          within = h.within;
        },
        find-Faithful k c.cache old h.kept.faithful at,
      )
      from none at =
          inserted-Materializes c0 k raw used (converted source k raw) refl
            (ap (converted_from source k) e)
            (record { exact = h.kept.exact; faithful = h.kept.faithful })
