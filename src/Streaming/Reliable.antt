-- ===== src/Streaming/Reliable.antt =====
-- `ensure` of src/swlp/core/streaming.py where no read and no copy fails, and the streaming
-- scheduler as an instance of the runner's interface.
use swlp.Prelude.{
  ℕ, ◌<◌, ◌≡◌, refl, sym, ap, subst, ◌∙◌, Bool, true, false, ◌&&◌, ◌||◌, Option, none, some, Result,
  ok, ltb, if◌then◌else◌, put,
}
use swlp.Scheduling.{PrefetchError, Scheduler}
use swlp.Streaming.{
  Future, pending, done, Streaming, Device, StreamConfig, resident_count, prefetch,
  disable_prefetch, evict, ticked, uploaded, read_and_upload, applied, apply_shard, loaded_now,
  read_now, settled, moved, consumed, ensure_streamed, ensure_resident, ensure_from, ensure, worker,
}
use swlp.Streaming.Exact.{
  Own, OwnFuture, OwnBlock, IsExact, disable_prefetch-IsExact, prefetch-IsExact, evict-IsExact,
  worker-IsExact,
}
use swlp.Streaming.Ensured.{ensure-Ensured, if-Own}

module _ {W : Type 0} (weights : ℕ → W) (config : StreamConfig) (dev : Device W)
    (reads_own : (t i : ℕ) → Own weights i (dev.read_shard t i))
    (takes : (t i : ℕ) → dev.load_state_dict t i ≡ true)
    (copies : (t i : ℕ) → i < resident_count config → dev.to_device t i ≡ true) where
  open dev use {read_shard, to_device, load_state_dict}
  open config use {n_blocks}

  -- No read of a layer of the model fails, and no copy.
  abbrev pub AllReads : Type 0
  AllReads =
      ((t i : ℕ) → i < n_blocks → (w : W) × (read_shard t i ≡ some w))
      × ((t i : ℕ) → to_device t i ≡ true)

  abbrev Answers : ℕ → Result PrefetchError (Option W) × Streaming W → Type 0
  Answers i r = r.0 ≡ ok (some (weights i))

  apply_shard-Answers :
      (s : Streaming W) (i : ℕ) (w : W) (device_ready : Bool)
      → device_ready || to_device s.attempts i ≡ true
      → w ≡ weights i
      → Answers i (apply_shard config dev s i w device_ready)
  unfolding apply_shard
  apply_shard-Answers s i w device_ready ready own =
      subst (λ b. Answers i (applied config dev (ticked config dev s) i w b))
        (sym (ap (λ b. b && load_state_dict s.attempts i) ready ∙ takes s.attempts i))
        (ap (λ v. ok (some v)) own)

  read_and_upload-some :
      AllReads → (t i : ℕ) → i < n_blocks → read_and_upload config dev t i ≡ some (weights i)
  unfolding read_and_upload
  read_and_upload-some (reads, moves) t i lt =
      let (w, read) = reads t i lt in
      let own : w ≡ weights i = subst (Own weights i) read (reads_own t i) in
      ap (uploaded config dev t i) (read ∙ ap some own)
      ∙ ap (λ b. moved config dev b (weights i)) (moves t i)

  read_now-Answers :
      AllReads → (s : Streaming W) (i : ℕ) → i < n_blocks → Answers i (read_now config dev s i)
  read_now-Answers all s i lt =
      subst (λ o. Answers i (loaded_now config dev (ticked config dev s) i o))
        (sym (read_and_upload-some all s.attempts i lt))
        (apply_shard-Answers (ticked config dev s) i (weights i) true refl refl)

  settled-Answers :
      AllReads
      → (s : Streaming W) (i : ℕ) (o : Option W) → i < n_blocks
      → Own weights i o
      → Answers i (settled config dev s i o)
  settled-Answers all s i none lt own = read_now-Answers all s i lt
  settled-Answers all s i (some w) lt own = apply_shard-Answers s i w true refl own

  consumed-Answers :
      AllReads
      → (s : Streaming W) (i : ℕ) (f : Option (Future W)) → i < n_blocks
      → OwnFuture weights i f
      → Answers i (consumed config dev s i f)
  consumed-Answers all s i none lt own = read_now-Answers all _ i lt
  consumed-Answers all s i (some pending) lt own =
      settled-Answers all _ i _ lt
        (subst (Own weights i) (sym (read_and_upload-some all s.attempts i lt)) refl)
  consumed-Answers all s i (some (done outcome)) lt own = settled-Answers all _ i outcome lt own

  ensure_streamed-Answers :
      AllReads
      → (s : Streaming W) (i : ℕ) (b : Bool) → i < n_blocks
      → OwnBlock weights i b (s.blocks i)
      → IsExact weights s
      → Answers i (ensure_streamed config dev s i b)
  ensure_streamed-Answers all s i true lt own h = ap ok own
  ensure_streamed-Answers all s i false lt own h =
      consumed-Answers all (record s { futures = put s.futures i none }) i (s.futures i) lt
        (h.own_futures i)

  ensure_resident-Answers :
      AllReads
      → (s : Streaming W) (i : ℕ) (w : W) (b : Bool) → w ≡ weights i
      → OwnBlock weights i b (s.blocks i)
      → Answers i (ensure_resident config dev s i w b)
  ensure_resident-Answers all s i w true e own = ap ok own
  ensure_resident-Answers (reads, moves) s i w false e own =
      apply_shard-Answers s i w false (moves s.attempts i) e

  ensure_from-Answers :
      AllReads
      → (s : Streaming W) (i : ℕ) (o : Option W) → i < n_blocks
      → Own weights i o
      → IsExact weights s
      → Answers i (ensure_from config dev s i o)
  ensure_from-Answers all s i none lt own h =
      ensure_streamed-Answers all s i (s.loaded i) lt (h.own_blocks i) h
  ensure_from-Answers all s i (some w) lt own h =
      ensure_resident-Answers all s i w (s.loaded i) own (h.own_blocks i)

  -- When every read of a layer gives that layer's weights, no read and no copy fails, and every block
  -- takes its state: from an exact state, `ensure` of a layer of the model returns the
  -- block with its own weights, whether the layer is loaded, resident, being read, read, or none of
  -- these, and also after a prefetch that failed.
  pub ensure_answers :
      AllReads
      → (s : Streaming W) (i : ℕ) → i < n_blocks
      → IsExact weights s
      → (ensure config dev s i).0 ≡ ok (some (weights i))
  unfolding ensure
  ensure_answers all s i lt h =
      ensure_from-Answers all s i
        (if ltb i (resident_count config) then s.resident_data i else none) lt
        (if-Own weights config dev reads_own takes (ltb i (resident_count config)) i
          (s.resident_data i) (h.own_residents i))
        h

  abbrev pub streaming : Scheduler W weights n_blocks
  streaming = record {
    State = Streaming W;
    window_size = λ s. config.window_size;
    prefetch_depth = λ s. config.prefetch_depth;
    prefetch = prefetch config;
    disable_prefetch = disable_prefetch config;
    ensure = ensure config dev;
    evict = evict config dev;
    worker = worker config dev;
    IsGood = IsExact weights;
    Reliable = AllReads;
    prefetch-IsGood = prefetch-IsExact weights config;
    disable_prefetch-IsGood = disable_prefetch-IsExact weights config;
    ensure-IsGood = λ s i lt h. (ensure-Ensured weights config dev reads_own takes copies s i h).1;
    evict-IsGood = evict-IsExact weights config dev;
    worker-IsGood = worker-IsExact weights config dev reads_own takes;
    ensure_sound = λ s i lt h. (ensure-Ensured weights config dev reads_own takes copies s i h).0;
    ensure_total = λ s i lt h all. ensure_answers all s i lt h;
  }
