-- ===== src/ExpertCache/Pushed.antt =====
-- The heap of src/swlp/runner/mlx_expert_cache.py after a push: the entries that become stale, and the
-- rebuild.
use swlp.Prelude.{
  ℕ, ◌+◌, ◌*◌, ◌≤◌, ◌≡◌, refl, sym, ap, ap₂, subst, ◌∙◌, inl, inr, true, false, List, [], ◌∷◌,
  arith, ltb, if◌then◌else◌, if-all, Bool-cases, length,
}
use swlp.ExpertCache.{
  ExpertSource, Key, same_key, HeapEntry, MlxExpertCache, find, is_some, fresh_heap, rebuild_heap,
  push, touch,
}
use swlp.ExpertCache.Least.{Has, All, same_key_eq, latest, is_cached, Current, Live}

All-both :
    (P Q R : HeapEntry → Type 0) (hs : List HeapEntry)
    → ((h : HeapEntry) → P h → Q h → R h)
    → All P hs
    → All Q hs
    → All R hs
All-both P Q R [] f p q = tt
All-both P Q R (h ∷ hs) f (p, ps) (q, qs) = (f h p q, All-both P Q R hs f ps qs)

module _ {W : Type 0} (size : W → ℕ) (source : ExpertSource W) where
  -- No entry and no last use lies in the future.
  pub record Ticking (c : MlxExpertCache size source) : Type 0 where
    pub ticks : All (λ h. h.tick ≤ c.tick) c.heap
    pub lasts : (k : Key) → c.last k ≤ c.tick

  -- As `Live`, but for one key, whose frequency and presence may have changed.
  record LiveBut (c : MlxExpertCache size source) (key : Key) : Type 0 where
    covers :
        (k : Key)
        → same_key key k ≡ false
        → is_cached size source c k ≡ true
        → Has (latest size source c k) c.heap
    current : All (λ h. same_key key h.key ≡ false → Current size source c h) c.heap

  fresh_heap-Has :
      (c : MlxExpertCache size source) (es : List (Key × W)) (k : Key)
      → is_some size source (find size source k es) ≡ true
      → Has (latest size source c k) (fresh_heap size source c.freq c.last es)
  fresh_heap-Has c [] k h = absurd (ground arith)
  fresh_heap-Has c ((j, w) ∷ es) k h = elim (Bool-cases (same_key j k)) [
    | inl same ↦ inl (ap (latest size source c) (sym (same_key_eq j k same)))
    | inr apart ↦
        let h' : is_some size source (find size source k es) ≡ true = ground arith in
        inr (fresh_heap-Has c es k h')
  ]

  fresh_heap-All :
      (c : MlxExpertCache size source) (es : List (Key × W)) (P : HeapEntry → Type 0)
      → ((k : Key) → P (latest size source c k))
      → All P (fresh_heap size source c.freq c.last es)
  fresh_heap-All c [] P p = tt
  fresh_heap-All c ((j, w) ∷ es) P p = (p j, fresh_heap-All c es P p)

  -- A rebuilt heap is live, whatever the old one had.
  pub rebuild_heap-Live :
      (c : MlxExpertCache size source)
      → Live size source (rebuild_heap size source c) (rebuild_heap size source c).heap
  unfolding rebuild_heap
  rebuild_heap-Live c = record {
    covers = λ k held. fresh_heap-Has c c.cache k held;
    current =
        fresh_heap-All c c.cache (λ h. h.tick ≡ c.last h.key → h.freq ≡ c.freq h.key) (λ k e. refl);
  }

  push-Live :
      (c : MlxExpertCache size source) (key : Key)
      → LiveBut c key
      → Ticking c
      → Live size source (push size source c key) (push size source c key).heap
  unfolding push
  push-Live c key live ticking =
      let tick = c.tick + 1 in
      let last = λ (k : Key). if same_key key k then tick else c.last k in
      let entry : HeapEntry = record { freq = c.freq key; tick = tick; key = key } in
      let c' : MlxExpertCache size source = record c {
        tick = tick;
        last = last;
        heap = entry ∷ c.heap;
      } in
      if-all (λ (r : MlxExpertCache size source). Live size source r r.heap)
        (ltb (4 * length c'.cache + 4096) (length c'.heap)) (rebuild_heap size source c') c'
        (λ t. rebuild_heap-Live c')
        (λ f. record {
          covers = λ k held. elim (Bool-cases (same_key key k)) [
            | inl same ↦
                let e : key ≡ k = same_key_eq key k same in
                let now : last k ≡ tick = ap (λ b. if b then tick else c.last k) same in
                inl (
                  ap₂ (λ (x y : ℕ). record { freq = x; tick = y; key = k }) (sym (ap c.freq e)) now
                  ∙ ap (λ q. record { freq = c.freq key; tick = tick; key = q }) (sym e))
            | inr apart ↦
                let old : last k ≡ c.last k = ap (λ b. if b then tick else c.last k) apart in
                inr (
                  subst (λ (y : ℕ). Has (record { freq = c.freq k; tick = y; key = k }) c.heap)
                    (sym old) (live.covers k apart held))
          ];
          current = (
            (λ e. refl),
            All-both (λ h. h.tick ≤ c.tick)
                (λ h. same_key key h.key ≡ false → Current size source c h) (Current size source c')
                c.heap
                (λ h bound now e. elim (Bool-cases (same_key key h.key)) [
                  | inl same ↦
                      let new : last h.key ≡ tick =
                        ap (λ b. if b then tick else c.last h.key) same in
                      absurd (omega arith)
                  | inr apart ↦ now apart (e ∙ ap (λ b. if b then tick else c.last h.key) apart)
                ])
                ticking.ticks live.current,
          );
        })

  -- If every cached expert has its latest entry in the heap, and no tick is in the future, a use of any
  -- expert keeps it so, through a rebuild of the heap as well.
  pub touch-Live :
      (c : MlxExpertCache size source) (key : Key)
      → Live size source c c.heap
      → Ticking c
      → Live size source (touch size source c key) (touch size source c key).heap
  unfolding touch
  touch-Live c key live ticking =
      let freq = λ (k : Key). if same_key key k then c.freq key + 1 else c.freq k in
      push-Live (record c { freq = freq }) key
        (record {
          covers = λ k apart held.
              subst (λ (f : ℕ). Has (record { freq = f; tick = c.last k; key = k }) c.heap)
                (sym (ap (λ b. if b then c.freq key + 1 else c.freq k) apart)) (live.covers k held);
          current =
              All-both (Current size source c) (Current size source c)
                (λ h. same_key key h.key ≡ false → h.tick ≡ c.last h.key → h.freq ≡ freq h.key)
                c.heap
                (λ h now same apart e.
                  now e ∙ sym (ap (λ b. if b then c.freq key + 1 else c.freq h.key) apart))
                live.current live.current;
        })
        (record { ticks = ticking.ticks; lasts = ticking.lasts })
