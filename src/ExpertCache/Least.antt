-- ===== src/ExpertCache/Least.antt =====
-- Which expert src/swlp/runner/mlx_expert_cache.py evicts: the order of the lazy heap, and the entries of
-- it that are stale.
use swlp.Prelude.{
  ℕ, zero, suc, ◌≤◌, ◌<◌, ◌≡◌, refl, sym, ap, ap₂, subst, ◌∙◌, ◌⊎◌, inl, inr, Bool, true, false,
  ◌&&◌, List, [], ◌∷◌, arith, ◌==◌, if-all, length,
}
use swlp.ExpertCache.{
  ExpertSource, Key, same_key, HeapEntry, MlxExpertCache, find, is_some, before, pop_least, evicted,
  evict_from, evict_one,
}

-- The order of `heapq` on the pairs of frequency and tick.
abbrev pub NotLater : (f t g u : ℕ) → Type 0
NotLater f t g u = (f < g) ⊎ ((f ≡ g) × (t ≤ u))

abbrev pub Has : HeapEntry → List HeapEntry → Type 0
Has x [] = false ≡ true
Has x (g ∷ gs) = (x ≡ g) ⊎ Has x gs

abbrev pub All : (HeapEntry → Type 0) → List HeapEntry → Type 0
All P [] = Unit
All P (g ∷ gs) = P g × All P gs

pub same_key_eq : (a b : Key) → same_key a b ≡ true → a ≡ b
same_key_eq a b e =
    let l : a.layer ≡ b.layer = ground arith in
    let i : a.eid ≡ b.eid = ground arith in ap₂ (λ (x y : ℕ). record { layer = x; eid = y }) l i

NotLater-trans : (f t g u h v : ℕ) → NotLater f t g u → NotLater g u h v → NotLater f t h v
NotLater-trans f t g u h v p q = ground arith

module _ {W : Type 0} (size : W → ℕ) (source : ExpertSource W) where
  before-true :
      (a b : HeapEntry) → before size source a b ≡ true → NotLater a.freq a.tick b.freq b.tick
  before-true a b h = ground arith

  before-false :
      (a b : HeapEntry) → before size source a b ≡ false → NotLater b.freq b.tick a.freq a.tick
  before-false a b h = ground arith

  -- What `heappop` returns: the least entry and all the others.
  record Popped (heap : List HeapEntry) (least : HeapEntry) (rest : List HeapEntry) : Type 1 where
    one_less : length heap ≡ suc (length rest)
    all : (P : HeapEntry → Type 0) → All P heap → P least × All P rest
    every : (x : HeapEntry) → Has x heap → (x ≡ least) ⊎ Has x rest
    is_least : (x : HeapEntry) → Has x heap → NotLater least.freq least.tick x.freq x.tick

  pop_least-Popped :
      (h : HeapEntry) (hs : List HeapEntry)
      → Popped (h ∷ hs) (pop_least size source h hs).0 (pop_least size source h hs).1
  pop_least-Popped h [] = record {
    one_less = refl;
    all = λ P p. p;
    every = λ x m. m;
    is_least = λ x m. elim m [
      | inl e ↦ subst (λ y. NotLater h.freq h.tick y.freq y.tick) (sym e) (inr (refl, omega arith))
      | inr later ↦ absurd (ground arith)
    ];
  }
  pop_least-Popped h (g ∷ gs) =
      let later = pop_least-Popped g gs in
      let least = (pop_least size source g gs).0 in
      let rest = (pop_least size source g gs).1 in
      if-all (λ (p : HeapEntry × List HeapEntry). Popped (h ∷ g ∷ gs) p.0 p.1)
        (before size source h least) (h, g ∷ gs) (least, h ∷ rest)
        (λ t. record {
          one_less = refl;
          all = λ P p. p;
          every = λ x m. m;
          is_least = λ x m. elim m [
            | inl e ↦
                subst (λ y. NotLater h.freq h.tick y.freq y.tick) (sym e) (inr (refl, omega arith))
            | inr there ↦
                NotLater-trans h.freq h.tick least.freq least.tick x.freq x.tick
                  (before-true h least t) (later.is_least x there)
          ];
        })
        (λ f. record {
          one_less = ap suc later.one_less;
          all = λ P p. let (first, others) = later.all P p.1 in (first, (p.0, others));
          every = λ x m. elim m [
            | inl e ↦ inr (inl e)
            | inr there ↦ elim (later.every x there) [ inl e ↦ inl e | inr kept ↦ inr (inr kept) ]
          ];
          is_least = λ x m. elim m [
            | inl e ↦
                subst (λ y. NotLater least.freq least.tick y.freq y.tick) (sym e)
                  (before-false h least f)
            | inr there ↦ later.is_least x there
          ];
        })

  -- The heap's entry of an expert that was pushed last.
  abbrev pub latest : MlxExpertCache size source → Key → HeapEntry
  latest c k = record { freq = c.freq k; tick = c.last k; key = k }

  abbrev pub is_cached : MlxExpertCache size source → Key → Bool
  is_cached c k = is_some size source (find size source k c.cache)

  abbrev pub Current : MlxExpertCache size source → HeapEntry → Type 0
  Current c h = h.tick ≡ c.last h.key → h.freq ≡ c.freq h.key

  -- Every cached expert has its latest entry in the heap, and an entry with the tick of the latest has
  -- the frequency of now.
  pub record Live (c : MlxExpertCache size source) (heap : List HeapEntry) : Type 0 where
    pub covers : (k : Key) → is_cached c k ≡ true → Has (latest c k) heap
    pub current : All (Current c) heap

  -- The eviction of a cached expert that no cached one precedes in frequency, then in recency.
  pub record EvictsLeast (c : MlxExpertCache size source) (r : Bool × MlxExpertCache size source)
      : Type 0 where
    pub victim : Key
    pub heap : List HeapEntry
    pub evicts : r ≡ (true, evicted size source c victim heap)
    pub was_cached : is_cached c victim ≡ true
    pub least :
        (k : Key)
        → is_cached c k ≡ true
        → NotLater (c.freq victim) (c.last victim) (c.freq k) (c.last k)

  evict_from-EvictsLeast :
      (rounds : ℕ) (c : MlxExpertCache size source) (heap : List HeapEntry) (k0 : Key)
      → length heap ≤ rounds
      → is_cached c k0 ≡ true
      → Live c heap
      → EvictsLeast c (evict_from size source rounds c heap)
  unfolding evict_from
  evict_from-EvictsLeast zero c [] k0 few held live =
      let clash : false ≡ true = live.covers k0 held in absurd (ground arith)
  evict_from-EvictsLeast zero c (h ∷ hs) k0 few held live = absurd (omega arith)
  evict_from-EvictsLeast (suc rounds) c [] k0 few held live =
      let clash : false ≡ true = live.covers k0 held in absurd (ground arith)
  evict_from-EvictsLeast (suc rounds) c (h ∷ hs) k0 few held live =
      let popped = pop_least-Popped h hs in
      let top = (pop_least size source h hs).0 in
      let rest = (pop_least size source h hs).1 in
      let (now, later) = popped.all (Current c) live.current in
      let fewer = popped.one_less in
      if-all (EvictsLeast c) (is_cached c top.key && top.tick == c.last top.key)
        (true, evicted size source c top.key rest) (evict_from size source rounds c rest)
        (λ t.
          let ticks : top.tick ≡ c.last top.key = ground arith in
          let freqs : top.freq ≡ c.freq top.key = now ticks in
          record {
            victim = top.key;
            heap = rest;
            evicts = refl;
            was_cached = ground arith;
            least = λ k cached.
                let p = popped.is_least (latest c k) (live.covers k cached) in
                subst (λ f. NotLater f (c.last top.key) (c.freq k) (c.last k)) freqs
                  (subst (λ u. NotLater top.freq u (c.freq k) (c.last k)) ticks p);
          })
        (λ f. evict_from-EvictsLeast rounds c rest k0 (omega arith) held (record {
          covers = λ k cached. elim (popped.every (latest c k) (live.covers k cached)) [
            | inl e ↦
                let keys : k ≡ top.key = ap (λ x. x.key) e in
                let ticks : c.last k ≡ top.tick = ap (λ x. x.tick) e in
                let cached_top : is_cached c top.key ≡ true =
                  ap (is_cached c) (sym keys) ∙ cached in
                let same_tick : top.tick ≡ c.last top.key = sym ticks ∙ ap c.last keys in
                absurd (ground arith)
            | inr kept ↦ kept
          ];
          current = later;
        }))

  -- If every cached expert has its latest entry in the heap, and an expert is cached: `_evict_one`
  -- evicts a cached expert that is used least, and longest ago among those, whatever stale entries
  -- the heap has.
  pub evict_one-EvictsLeast :
      (c : MlxExpertCache size source) (k0 : Key)
      → is_cached c k0 ≡ true
      → Live c c.heap
      → EvictsLeast c (evict_one size source c)
  unfolding evict_one
  evict_one-EvictsLeast c k0 held live =
      evict_from-EvictsLeast (length c.heap) c c.heap k0 (omega arith) held live
