-- ===== src/Streaming/Released.antt =====
-- The streaming scheduler of src/swlp/core/streaming.py before and after a sweep of the runner.
use swlp.Prelude.{
  ℕ, ◌≤◌, ◌<◌, ◌≡◌, refl, sym, subst, Bool, true, false, Option, none, some, List, Result, ok, err,
  arith,
}
use swlp.Scheduling.{PrefetchError}
use swlp.Scheduling.Run.{run_blocks}
use swlp.Scheduling.Window.{Windowed, run_blocks-Held}
use swlp.Streaming.{Future, Streaming, Device, StreamConfig, resident_count, ensure}
use swlp.Streaming.Exact.{Own}
use swlp.Streaming.Reliable.{streaming}
use swlp.Streaming.Ensuring.{worker-Held, LoadedIfOk, ensure-After, disable_prefetch-Held}
use swlp.Streaming.Window.{
  HeldBlock, HeldFuture, HeldState, widen, HeldResult, prefetch-HeldResult, evict-Held,
}

module _ (config : StreamConfig) where
  open config use {n_blocks}

  -- No streamed layer is on the device or on its way there.
  pub record IsReleased {W : Type 0} (s : Streaming W) : Type 0 where
    pub no_blocks : (j : ℕ) → resident_count config ≤ j → s.loaded j ≡ false
    pub no_futures : (j : ℕ) → s.futures j ≡ none

  false-HeldBlock :
      (lo hi j : ℕ) (b : Bool)
      → (resident_count config ≤ j → b ≡ false)
      → HeldBlock config lo hi j b
  false-HeldBlock lo hi j false none? = tt
  false-HeldBlock lo hi j true none? = λ streamed. absurd (let e = none? streamed in ground arith)

  HeldBlock-false :
      (hi j : ℕ) (b : Bool)
      → resident_count config ≤ j
      → HeldBlock config n_blocks hi j b
      → b ≡ false
  HeldBlock-false hi j false streamed h = refl
  HeldBlock-false hi j true streamed h = let (l, r, m) = h streamed in absurd (omega arith)

  HeldFuture-none :
      {W : Type 0} (hi j : ℕ) (f : Option (Future W)) → HeldFuture config n_blocks hi j f → f ≡ none
  HeldFuture-none hi j none h = refl
  HeldFuture-none hi j (some f) (streamed, (l, r, m)) = absurd (omega arith)

  released-Held : {W : Type 0} (s : Streaming W) → IsReleased s → HeldState config 0 0 s
  released-Held s h = record {
    held_blocks = λ j. false-HeldBlock 0 0 j (s.loaded j) (h.no_blocks j);
    held_futures = λ j. subst (HeldFuture config 0 0 j) (sym (h.no_futures j)) tt;
  }

  Held-IsReleased :
      {W : Type 0} (hi : ℕ) (s : Streaming W) → HeldState config n_blocks hi s → IsReleased s
  Held-IsReleased hi s h = record {
    no_blocks = λ j streamed. HeldBlock-false hi j (s.loaded j) streamed (h.held_blocks j);
    no_futures = λ j. HeldFuture-none hi j (s.futures j) (h.held_futures j);
  }

module _ {W Ctx : Type 0} (weights : ℕ → W) (config : StreamConfig) (dev : Device W)
    (reads_own : (t i : ℕ) → Own weights i (dev.read_shard t i))
    (takes : (t i : ℕ) → dev.load_state_dict t i ≡ true)
    (copies : (t i : ℕ) → i < resident_count config → dev.to_device t i ≡ true)
    (moves : (t i : ℕ) → dev.to_meta t i ≡ true) (prepare_layer : ℕ → Ctx → Ctx)
    (call_block : W → ℕ → Ctx → Ctx) (compress_layer : ℕ → Ctx → Ctx) where
  open config use {n_blocks}

  is_loaded :
      (i : ℕ) (r : Result PrefetchError (Option W)) (s : Streaming W) (b : Option W)
      → r ≡ ok b
      → LoadedIfOk config dev i r s
      → s.loaded i ≡ true
  is_loaded i (ok b) s b' e h = h
  is_loaded i (err x) s b' e h = absurd (ground arith)

  abbrev windowed : Windowed (streaming weights config dev reads_own takes copies)
  windowed = record {
    Held = HeldState config;
    widen = widen config;
    prefetch-Held = λ lo hi i s s' le lt h e.
        subst (HeldResult config lo hi) e (prefetch-HeldResult config lo hi i s le lt h);
    disable_prefetch-Held = disable_prefetch-Held config dev;
    worker-Held = λ lo hi j s h. worker-Held config dev lo hi j s h;
    ensure-Held =
        λ lo hi i s le lt small h. (ensure-After config dev lo hi i s (le, lt, small) h).0;
    evict-Held = λ hi i s b inside small e h.
        let after = ensure-After config dev i hi i s (omega arith, inside, small) h in
        evict-Held config dev moves hi i (ensure config dev s i).1 small
          (is_loaded i (ensure config dev s i).0 (ensure config dev s i).1 b e after.1) after.0;
  }

  -- A sweep that starts with no streamed layer on the device or on its way there, and returns, ends in
  -- such a state again: every layer that was prefetched or loaded has been evicted. This holds
  -- for every schedule of the background threads, and also when reads fail on the way and when copies
  -- of streamed layers do; a read that succeeds gives the layer's own weights, and loading a state into
  -- a block, copying a resident layer and moving a block to the meta device do not fail.
  pub run_blocks-IsReleased :
      (schedule : ℕ → List ℕ) (ctx ctx' : Ctx) (s s' : Streaming W)
      → IsReleased config s
      → run_blocks
          (streaming weights config dev reads_own takes copies)
          prepare_layer
          call_block
          compress_layer
          schedule
          ctx
          s
        ≡ ok (ctx', s')
      → IsReleased config s'
  run_blocks-IsReleased schedule ctx ctx' s s' h e = Held-IsReleased config _ s' (
      run_blocks-Held (streaming weights config dev reads_own takes copies) prepare_layer call_block
        compress_layer windowed schedule ctx ctx' s s' (released-Held config s h) e)
