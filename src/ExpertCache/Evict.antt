-- ===== src/ExpertCache/Evict.antt =====
-- The expert cache of src/swlp/runner/mlx_expert_cache.py evicts by a
-- heap with stale entries: an eviction keeps the byte counter exact, and one try after a rebuild
-- always finds an expert.
use swlp.Prelude.{
  ℕ, zero, suc, ◌+◌, ◌≤◌, ◌<◌, ◌≡◌, refl, sym, ap, ◌∙◌, Bool, true, false, ◌&&◌, some, List, [],
  ◌∷◌, arith, ◌==◌, Bool-cases, inl, inr, length,
}
use swlp.ExpertCache.{
  ExpertSource, own_read, Key, same_key, HeapEntry, MlxExpertCache, find, is_some, erase, size_of,
  before, pop_least, fresh_heap, rebuild_heap, evict_from, evict_one, second_try,
}

module _ {W : Type 0} (size : W → ℕ) (source : ExpertSource W) where
  abbrev pub Cache : Type 0
  Cache = MlxExpertCache size source

  abbrev pub sum_sizes : List (Key × W) → ℕ
  sum_sizes [] = 0
  sum_sizes ((k, w) ∷ es) = size w + sum_sizes es

  -- Every pair is a key with what its read gives.
  abbrev pub Faithful : List (Key × W) → Type 0
  Faithful [] = 0 ≤ 0
  Faithful ((k, w) ∷ es) = (own_read source k ≡ some w) × Faithful es

  pub record IsExact (c : Cache) : Type 0 where
    pub exact : c.nbytes ≡ sum_sizes c.cache
    pub faithful : Faithful c.cache

  pub sum-erase :
      (k : Key) (es : List (Key × W))
      → sum_sizes es
        ≡ size_of size source (find size source k es) + sum_sizes (erase size source k es)
  sum-erase k [] = refl
  sum-erase k ((j, w) ∷ es) = elim (Bool-cases (same_key j k)) [
    | inl here ↦ rw here refl
    | inr there ↦ rw there (omega (arith, sum-erase k es))
  ]

  pub length-erase :
      (k : Key) (es : List (Key × W))
      → is_some size source (find size source k es) ≡ true
      → length es ≡ length (erase size source k es) + 1
  length-erase k [] h = ground arith
  length-erase k ((j, w) ∷ es) h = elim (Bool-cases (same_key j k)) [
    | inl here ↦ rw here (omega arith)
    | inr there ↦
        let h' : is_some size source (find size source k es) ≡ true = ground arith in
        rw there (omega (arith, length-erase k es h'))
  ]

  pub erase-Faithful :
      (k : Key) (es : List (Key × W)) → Faithful es → Faithful (erase size source k es)
  erase-Faithful k [] h = h
  erase-Faithful k ((j, w) ∷ es) h = elim (Bool-cases (same_key j k)) [
    | inl here ↦ rw here h.1
    | inr there ↦ rw there (h.0, erase-Faithful k es h.1)
  ]

  -- What a try to evict does.
  pub record Evicts (c : Cache) (r : Bool × Cache) : Type 0 where
    pub kept : IsExact r.1
    pub budget : r.1.budget_bytes ≡ c.budget_bytes
    pub fewer : r.0 ≡ true → length c.cache ≡ length r.1.cache + 1
    pub same : r.0 ≡ false → r.1.cache ≡ c.cache

  evict_from-Evicts :
      (rounds : ℕ) (c : Cache) (heap : List HeapEntry)
      → IsExact c
      → Evicts c (evict_from size source rounds c heap)
  unfolding evict_from
  evict_from-Evicts zero c heap h = record {
    kept = record { exact = h.exact; faithful = h.faithful };
    budget = refl;
    fewer = λ e. absurd (ground arith);
    same = λ e. refl;
  }
  evict_from-Evicts (suc rounds) c [] h = record {
    kept = record { exact = h.exact; faithful = h.faithful };
    budget = refl;
    fewer = λ e. absurd (ground arith);
    same = λ e. refl;
  }
  evict_from-Evicts (suc rounds) c (g ∷ gs) h =
      let least = (pop_least size source g gs).0 in
      let rest = (pop_least size source g gs).1 in
      elim (Bool-cases (
        is_some size source (find size source least.key c.cache)
        && least.tick == c.last least.key)) [
          | inl valid ↦
              let here : is_some size source (find size source least.key c.cache) ≡ true =
                ground arith in
              rw valid (record {
                kept = record {
                  exact = omega (arith, h.exact, sum-erase least.key c.cache);
                  faithful = erase-Faithful least.key c.cache h.faithful;
                };
                budget = refl;
                fewer = λ e. length-erase least.key c.cache here;
                same = λ e. absurd (ground arith);
              })
          | inr stale ↦ rw stale (evict_from-Evicts rounds c rest h)
        ]

  abbrev Valid : Cache → List HeapEntry → Type 0
  Valid c [] = 0 ≤ 0
  Valid c (g ∷ gs) =
      ((is_some size source (find size source g.key c.cache) && g.tick == c.last g.key) ≡ true)
      × Valid c gs

  pop_least-Valid :
      (c : Cache) (g : HeapEntry) (gs : List HeapEntry)
      → Valid c (g ∷ gs)
      → Valid c ((pop_least size source g gs).0 ∷ (pop_least size source g gs).1)
  pop_least-Valid c g [] h = h
  pop_least-Valid c g (f ∷ fs) h =
      elim (Bool-cases (before size source g (pop_least size source f fs).0)) [
        | inl first ↦ rw first h
        | inr later ↦ let ih = pop_least-Valid c f fs h.1 in rw later (ih.0, (h.0, ih.1))
      ]

  same_key_self : (k : Key) → same_key k k ≡ true
  same_key_self k = ground arith

  fresh_heap-Valid :
      (c : Cache) (es : List (Key × W))
      → ((k : Key)
          → is_some size source (find size source k es) ≡ true
          → is_some size source (find size source k c.cache) ≡ true)
      → Valid c (fresh_heap size source c.freq c.last es)
  fresh_heap-Valid c [] found = omega arith
  fresh_heap-Valid c ((j, w) ∷ es) found =
      let here : is_some size source (find size source j ((j, w) ∷ es)) ≡ true =
        rw (same_key_self j) refl in
      let cached = found j here in
      (
        ground arith,
        fresh_heap-Valid c es (λ k h. elim (Bool-cases (same_key j k)) [
          | inl same ↦ found k (rw same refl)
          | inr other ↦ found k (rw other h)
        ]),
      )

  -- A rebuilt heap has something to evict whenever anything is cached.
  rebuilt_evicts :
      (c : Cache)
      → 0 < length c.cache
      → (evict_one size source (rebuild_heap size source c)).0 ≡ true
  unfolding evict_one rebuild_heap evict_from
  rebuilt_evicts c some_cached =
      first (fresh_heap size source c.freq c.last c.cache) (fresh_heap-Valid c c.cache (λ k h. h))
        (nonempty c.cache some_cached)
    where
      nonempty :
          (es : List (Key × W))
          → 0 < length es
          → 0 < length (fresh_heap size source c.freq c.last es)
      nonempty [] pos = absurd (omega arith)
      nonempty (e ∷ es) pos = omega arith

      first :
          (heap : List HeapEntry)
          → Valid c heap
          → 0 < length heap
          → (evict_from size source (length heap) (record c { heap = heap }) heap).0 ≡ true
      first [] valid pos = absurd (omega arith)
      first (g ∷ gs) valid pos = rw (pop_least-Valid c g gs valid).0 refl

  pub second_try-Evicts :
      (c : Cache)
      → IsExact c
      → 0 < length c.cache
      → Evicts c (second_try size source (evict_one size source c))
        × ((second_try size source (evict_one size source c)).0 ≡ true)
  unfolding evict_one rebuild_heap
  second_try-Evicts c h pos = from (evict_one size source c) tried
    where
      tried : Evicts c (evict_one size source c)
      tried = evict_from-Evicts (length c.heap) c c.heap h

      from :
          (r : Bool × Cache)
          → Evicts c r
          → Evicts c (second_try size source r) × ((second_try size source r).0 ≡ true)
      from (true, c') e = (e, refl)
      from (false, c') e =
          let left : 0 < length c'.cache = omega (arith, ap length (e.same refl), pos) in
          let exact : IsExact (rebuild_heap size source c') = record {
            exact = e.kept.exact;
            faithful = e.kept.faithful;
          } in
          let again =
            evict_from-Evicts (length (rebuild_heap size source c').heap)
              (rebuild_heap size source c') (rebuild_heap size source c').heap exact in
          (
            record {
              kept = again.kept;
              budget = again.budget ∙ e.budget;
              fewer = λ t. ap length (sym (e.same refl)) ∙ again.fewer t;
              same = λ f. again.same f ∙ e.same refl;
            },
            rebuilt_evicts c' left,
          )
