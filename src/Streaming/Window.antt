-- ===== src/Streaming/Window.antt =====
-- The window of layers that the streaming scheduler of src/swlp/core/streaming.py holds, under
-- prefetches and evictions.
use swlp.Prelude.{
  ℕ, ◌+◌, ◌≤◌, ◌<◌, ◌≡◌, ◌≢◌, Bool, true, false, not, ◌&&◌, ◌||◌, Option, none, some, Result, ok,
  err, leb, ltb, put, put-all, put-all_ne, if-all, arith, sym, subst,
}
use swlp.Scheduling.{PrefetchError}
use swlp.Streaming.{
  pending, Streaming, is_some, Device, StreamConfig, resident_count, submitted, prefetch, ticked,
  evicted, evict,
}

module _ (config : StreamConfig) where
  open config use {n_blocks}

  -- A layer of the model that is streamed and lies in the window.
  abbrev pub Inside : ℕ → ℕ → ℕ → Type 0
  Inside lo hi j = (lo ≤ j) × (j < hi) × (j < n_blocks)

  abbrev pub HeldBlock : ℕ → ℕ → ℕ → Bool → Type 0
  HeldBlock lo hi j false = Unit
  HeldBlock lo hi j true = resident_count config ≤ j → Inside lo hi j

  abbrev pub HeldFuture {ℓ} : {F : Type ℓ} → ℕ → ℕ → ℕ → Option F → Type 0
  HeldFuture lo hi j none = Unit
  HeldFuture lo hi j (some f) = (resident_count config ≤ j) × Inside lo hi j

  pub record Held {W : Type 0} (lo hi : ℕ) (s : Streaming W) : Type 0 where
    pub held_blocks : (j : ℕ) → HeldBlock lo hi j (s.loaded j)
    pub held_futures : (j : ℕ) → HeldFuture lo hi j (s.futures j)

  widen_block :
      (lo hi more j : ℕ) (b : Bool) → hi ≤ more → HeldBlock lo hi j b → HeldBlock lo more j b
  widen_block lo hi more j false le h = tt
  widen_block lo hi more j true le h = λ streamed. let (l, r, m) = h streamed in (l, omega arith, m)

  widen_future {ℓ} :
      {F : Type ℓ} (lo hi more j : ℕ) (f : Option F)
      → hi ≤ more
      → HeldFuture lo hi j f
      → HeldFuture lo more j f
  widen_future lo hi more j none le h = tt
  widen_future lo hi more j (some f) le (streamed, (l, r, m)) = (streamed, (l, omega arith, m))

  next_block : (i hi j : ℕ) (b : Bool) → j ≢ i → HeldBlock i hi j b → HeldBlock (i + 1) hi j b
  next_block i hi j false differ h = tt
  next_block i hi j true differ h =
      λ streamed. let (l, r, m) = h streamed in let far : i + 1 ≤ j = ground arith in (far, r, m)

  next_future {ℓ} :
      {F : Type ℓ} (i hi j : ℕ) (f : Option F)
      → j ≢ i
      → HeldFuture i hi j f
      → HeldFuture (i + 1) hi j f
  next_future i hi j none differ h = tt
  next_future i hi j (some f) differ (streamed, (l, r, m)) =
      let far : i + 1 ≤ j = ground arith in (streamed, (far, r, m))

  resident_block :
      (lo lo' hi j : ℕ) (b : Bool)
      → n_blocks ≤ resident_count config
      → HeldBlock lo hi j b
      → HeldBlock lo' hi j b
  resident_block lo lo' hi j false all h = tt
  resident_block lo lo' hi j true all h =
      λ streamed. let (l, r, m) = h streamed in absurd (omega arith)

  resident_future {ℓ} :
      {F : Type ℓ} (lo lo' hi j : ℕ) (f : Option F)
      → n_blocks ≤ resident_count config
      → HeldFuture lo hi j f
      → HeldFuture lo' hi j f
  resident_future lo lo' hi j none all h = tt
  resident_future lo lo' hi j (some f) all (streamed, (l, r, m)) = absurd (omega arith)

  later_future {ℓ} :
      {F : Type ℓ} (i hi j : ℕ) (f : Option F)
      → i < resident_count config
      → HeldFuture i hi j f
      → HeldFuture (i + 1) hi j f
  later_future i hi j none below h = tt
  later_future i hi j (some f) below (streamed, (l, r, m)) = (streamed, (omega arith, r, m))

module _ {W : Type 0} (config : StreamConfig) where
  open config use {n_blocks}

  abbrev pub HeldState : ℕ → ℕ → Streaming W → Type 0
  HeldState lo hi s = Held config lo hi s

  pub widen :
      (lo hi more : ℕ) (s : Streaming W) → hi ≤ more → HeldState lo hi s → HeldState lo more s
  widen lo hi more s le h = record {
    held_blocks = λ j. widen_block config lo hi more j (s.loaded j) le (h.held_blocks j);
    held_futures = λ j. widen_future config lo hi more j (s.futures j) le (h.held_futures j);
  }

  abbrev pub HeldResult : ℕ → ℕ → Result PrefetchError (Streaming W) → Type 0
  HeldResult lo hi (ok s) = HeldState lo hi s
  HeldResult lo hi (err e) = Unit

  submitted-HeldResult :
      (lo hi i : ℕ) (s : Streaming W) (b : Bool)
      → (resident_count config ≤ i) × Inside config lo hi i
      → HeldState lo hi s
      → HeldResult lo hi (submitted config s i b)
  submitted-HeldResult lo hi i s false inside h = tt
  submitted-HeldResult lo hi i s true inside h = record {
    held_blocks = h.held_blocks;
    held_futures =
        put-all (HeldFuture config lo hi) s.futures i (some pending) inside h.held_futures;
  }

  pub prefetch-HeldResult :
      (lo hi i : ℕ) (s : Streaming W)
      → lo ≤ i
      → i < hi
      → HeldState lo hi s
      → HeldResult lo hi (prefetch config s i)
  unfolding prefetch
  prefetch-HeldResult lo hi i s le lt h =
      if-all (HeldResult lo hi) (not s.prefetch_enabled) (ok s) _ (λ t. h)
        (λ on.
          if-all (HeldResult lo hi) (leb n_blocks i) (ok s) _ (λ t. h)
            (λ small.
              if-all (HeldResult lo hi) (ltb i (resident_count config)) (ok s) _ (λ t. h)
                (λ streamed.
                  if-all (HeldResult lo hi) (s.loaded i || is_some (s.futures i)) (ok s) _ (λ t. h)
                    (λ new.
                      let below : i < n_blocks = ground arith in
                      let from : resident_count config ≤ i = ground arith in
                      submitted-HeldResult lo hi i s s.pool_open (from, (le, lt, below)) h))))

  evicted-Held :
      (dev : Device W) (hi i : ℕ) (s : Streaming W)
      → HeldState i hi s
      → HeldState (i + 1) hi (evicted config dev s i true)
  evicted-Held dev hi i s h = record {
    held_blocks =
        put-all_ne (HeldBlock config (i + 1) hi) s.loaded i false tt
          (λ j differ. next_block config i hi j (s.loaded j) differ (h.held_blocks j));
    held_futures = λ j.
        if-all (λ f. HeldFuture config (i + 1) hi j (f j)) (leb (resident_count config) i)
          (put s.futures i none) s.futures
          (λ streamed.
            put-all_ne (HeldFuture config (i + 1) hi) s.futures i none tt
              (λ k differ. next_future config i hi k (s.futures k) differ (h.held_futures k)) j)
          (λ resident.
            let below : i < resident_count config = ground arith in
            later_future config i hi j (s.futures j) below (h.held_futures j));
  }

  pub evict-Held :
      (dev : Device W)
      → ((t j : ℕ) → dev.to_meta t j ≡ true)
      → (hi i : ℕ) (s : Streaming W) → i < n_blocks
      → s.loaded i ≡ true
      → HeldState i hi s
      → HeldState (i + 1) hi (evict config dev s i)
  unfolding evict
  evict-Held dev moves hi i s lt there h =
      if-all (HeldState (i + 1) hi) (leb n_blocks i) s _ (λ far. absurd (ground arith))
        (λ near.
          if-all (HeldState (i + 1) hi) (not (s.loaded i)) s _ (λ away. absurd (ground arith))
            (λ here.
              if-all (HeldState (i + 1) hi)
                (ltb i (resident_count config) && leb n_blocks (resident_count config)) s _
                (λ full.
                  let all : n_blocks ≤ resident_count config = ground arith in
                  record {
                    held_blocks = λ j.
                        resident_block config i (i + 1) hi j (s.loaded j) all (h.held_blocks j);
                    held_futures = λ j.
                        resident_future config i (i + 1) hi j (s.futures j) all (h.held_futures j);
                  })
                (λ streamed.
                  subst (λ b. HeldState (i + 1) hi (evicted config dev (ticked config dev s) i b))
                    (sym (moves s.attempts i))
                    (evicted-Held dev hi i (ticked config dev s)
                      (record { held_blocks = h.held_blocks; held_futures = h.held_futures })))))
