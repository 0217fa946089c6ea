-- ===== src/Streaming/Exact.antt =====
-- What the streaming scheduler of src/swlp/core/streaming.py has loaded, read or kept for a
-- layer, against that layer's own weights.
use swlp.Prelude.{
  ℕ, zero, suc, ◌+◌, ◌≡◌, subst, Bool, true, false, not, ◌&&◌, ◌||◌, Option, none, some, Result, ok,
  err, leb, ltb, if◌then◌else◌, put, put-all, put-all₂,
}
use swlp.Scheduling.{PrefetchError}
use swlp.Streaming.{
  Future, pending, done, Streaming, is_some, Device, StreamConfig, resident_count, submitted,
  prefetch, disable_prefetch, ticked, evicted, evict, moved, uploaded, read_and_upload, finished,
  worker, kept_resident, resident_loop, load_resident_layers, new_scheduler, cleanup,
}

module _ {W : Type 0} (weights : ℕ → W) where
  abbrev pub Own : ℕ → Option W → Type 0
  Own i none = Unit
  Own i (some w) = w ≡ weights i

  abbrev pub OwnFuture : ℕ → Option (Future W) → Type 0
  OwnFuture i none = Unit
  OwnFuture i (some pending) = Unit
  OwnFuture i (some (done outcome)) = Own i outcome

  abbrev pub OwnBlock : ℕ → Bool → Option W → Type 0
  OwnBlock i false block = Unit
  OwnBlock i true block = block ≡ some (weights i)

  -- What is loaded, read or kept for a layer are its own weights.
  pub record IsExact (s : Streaming W) : Type 0 where
    pub own_blocks : (i : ℕ) → OwnBlock i (s.loaded i) (s.blocks i)
    pub own_futures : (i : ℕ) → OwnFuture i (s.futures i)
    pub own_residents : (i : ℕ) → Own i (s.resident_data i)

module _ {W : Type 0} (weights : ℕ → W) (config : StreamConfig) where
  open config use {n_blocks}

  if-IsExact :
      (b : Bool) (s t : Streaming W)
      → IsExact weights s
      → IsExact weights t
      → IsExact weights (if b then s else t)
  if-IsExact true s t h k = h
  if-IsExact false s t h k = k

  if-own_futures :
      (b : Bool) (s : Streaming W) (layer : ℕ)
      → IsExact weights s
      → (i : ℕ) → OwnFuture weights i ((if b then put s.futures layer none else s.futures) i)
  if-own_futures true s layer h i =
      put-all (OwnFuture weights) s.futures layer none tt h.own_futures i
  if-own_futures false s layer h i = h.own_futures i

  evicted-IsExact :
      (dev : Device W) (s : Streaming W) (i : ℕ) (b : Bool)
      → IsExact weights s
      → IsExact weights (evicted config dev s i b)
  evicted-IsExact dev s i false h = h
  evicted-IsExact dev s i true h = record {
    own_blocks = put-all₂ (OwnBlock weights) s.loaded s.blocks i false none tt h.own_blocks;
    own_futures = if-own_futures (leb (resident_count config) i) s i h;
    own_residents = h.own_residents;
  }

  pub evict-IsExact :
      (dev : Device W) (s : Streaming W) (i : ℕ)
      → IsExact weights s
      → IsExact weights (evict config dev s i)
  unfolding evict
  evict-IsExact dev s i h = if-IsExact (leb n_blocks i) s _ h (
      if-IsExact (not (s.loaded i)) s _ h (
        if-IsExact (ltb i (resident_count config) && leb n_blocks (resident_count config)) s _ h (
          evicted-IsExact dev (ticked config dev s) i (dev.to_meta s.attempts i) (record {
            own_blocks = h.own_blocks;
            own_futures = h.own_futures;
            own_residents = h.own_residents;
          }))))

  pub new_scheduler-IsExact : IsExact weights (new_scheduler config)
  unfolding new_scheduler
  new_scheduler-IsExact = record {
    own_blocks = λ i. tt;
    own_futures = λ i. tt;
    own_residents = λ i. tt;
  }

  pub cleanup-IsExact : (s : Streaming W) → IsExact weights (cleanup config s)
  unfolding cleanup
  cleanup-IsExact s = record {
    own_blocks = λ i. tt;
    own_futures = λ i. tt;
    own_residents = λ i. tt;
  }

  pub disable_prefetch-IsExact :
      (s : Streaming W) → IsExact weights s → IsExact weights (disable_prefetch config s)
  unfolding disable_prefetch
  disable_prefetch-IsExact s h = record {
    own_blocks = h.own_blocks;
    own_futures = h.own_futures;
    own_residents = h.own_residents;
  }

  -- All of a result that is `ok` are exact.
  abbrev AllExact : Result PrefetchError (Streaming W) → Type 0
  AllExact (ok s) = IsExact weights s
  AllExact (err e) = Unit

  submitted-AllExact :
      (s : Streaming W) (i : ℕ) (open? : Bool)
      → IsExact weights s
      → AllExact (submitted config s i open?)
  submitted-AllExact s i false h = tt
  submitted-AllExact s i true h = record {
    own_blocks = h.own_blocks;
    own_futures = put-all (OwnFuture weights) s.futures i (some pending) tt h.own_futures;
    own_residents = h.own_residents;
  }

  if-AllExact :
      (b : Bool) (r t : Result PrefetchError (Streaming W))
      → AllExact r
      → AllExact t
      → AllExact (if b then r else t)
  if-AllExact true r t h k = h
  if-AllExact false r t h k = k

  prefetch-AllExact : (s : Streaming W) (i : ℕ) → IsExact weights s → AllExact (prefetch config s i)
  unfolding prefetch
  prefetch-AllExact s i h = if-AllExact (not s.prefetch_enabled) (ok s) _ h (
      if-AllExact (leb n_blocks i) (ok s) _ h (
        if-AllExact (ltb i (resident_count config)) (ok s) _ h (
          if-AllExact (s.loaded i || is_some (s.futures i)) (ok s) _ h
            (submitted-AllExact s i s.pool_open h))))

  pub prefetch-IsExact :
      (s s' : Streaming W) (i : ℕ)
      → IsExact weights s
      → prefetch config s i ≡ ok s'
      → IsExact weights s'
  prefetch-IsExact s s' i h e = subst AllExact e (prefetch-AllExact s i h)

-- The device never fails to take a state, and what it reads for a layer are that layer's weights.
module _ {W : Type 0} (weights : ℕ → W) (config : StreamConfig) (dev : Device W)
    (reads_own : (t i : ℕ) → Own weights i (dev.read_shard t i))
    (takes : (t i : ℕ) → dev.load_state_dict t i ≡ true) where
  open dev use {read_shard, to_device, load_state_dict}

  moved-Own : (b : Bool) (i : ℕ) (w : W) → w ≡ weights i → Own weights i (moved config dev b w)
  moved-Own true i w e = e
  moved-Own false i w e = tt

  uploaded-Own :
      (t i : ℕ) (o : Option W) → Own weights i o → Own weights i (uploaded config dev t i o)
  uploaded-Own t i none h = tt
  uploaded-Own t i (some w) h = moved-Own (to_device t i) i w h

  pub read_and_upload-Own : (t i : ℕ) → Own weights i (read_and_upload config dev t i)
  unfolding read_and_upload
  read_and_upload-Own t i = uploaded-Own t i (read_shard t i) (reads_own t i)

  finished-IsExact :
      (s : Streaming W) (i : ℕ) (f : Option (Future W))
      → IsExact weights s
      → IsExact weights (finished config dev s i f)
  finished-IsExact s i none h = h
  finished-IsExact s i (some (done outcome)) h = h
  finished-IsExact s i (some pending) h = record {
    own_blocks = h.own_blocks;
    own_futures =
        put-all (OwnFuture weights) s.futures i
          (some (done (read_and_upload config dev s.attempts i))) (read_and_upload-Own s.attempts i)
          h.own_futures;
    own_residents = h.own_residents;
  }

  pub worker-IsExact :
      (i : ℕ) (s : Streaming W) → IsExact weights s → IsExact weights (worker config dev i s)
  unfolding worker
  worker-IsExact i s h = finished-IsExact s i (s.futures i) h

  kept_resident-IsExact :
      (s : Streaming W) (i : ℕ) (o state : Option W)
      → Own weights i state
      → IsExact weights s
      → IsExact weights (kept_resident config dev s i o state)
  kept_resident-IsExact s i (some here) state own h = h
  kept_resident-IsExact s i none none own h = record {
    own_blocks = h.own_blocks;
    own_futures = h.own_futures;
    own_residents = h.own_residents;
  }
  kept_resident-IsExact s i none (some state) own h = record {
    own_blocks = h.own_blocks;
    own_futures = h.own_futures;
    own_residents = put-all (Own weights) s.resident_data i (some state) own h.own_residents;
  }

  resident_loop-IsExact :
      (rounds i : ℕ) (s : Streaming W)
      → IsExact weights s
      → IsExact weights (resident_loop config dev rounds i s)
  unfolding resident_loop
  resident_loop-IsExact zero i s h = h
  resident_loop-IsExact (suc rounds) i s h = resident_loop-IsExact rounds (i + 1) _ (
      kept_resident-IsExact s i (s.resident_data i) (read_shard s.attempts i)
        (reads_own s.attempts i) h)

  pub load_resident_layers-IsExact :
      (s : Streaming W) → IsExact weights s → IsExact weights (load_resident_layers config dev s)
  unfolding load_resident_layers
  load_resident_layers-IsExact s h = resident_loop-IsExact (resident_count config) 0 s h
