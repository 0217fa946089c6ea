-- ===== src/Streaming/Ensured.antt =====
-- What `ensure` of src/swlp/core/streaming.py answers, when reads may fail.
use swlp.Prelude.{
  ℕ, ◌+◌, ◌<◌, ◌≡◌, refl, sym, ap, subst, ◌∙◌, ◌⊎◌, inl, inr, Bool, true, false, ◌&&◌, ◌||◌, Option,
  none, some, Result, ok, err, ltb, if◌then◌else◌, ltb→lt, put, put-all, put-all₂,
}
use swlp.Scheduling.{PrefetchError, prefetch_error}
use swlp.Streaming.{
  Future, pending, done, Streaming, is_some, Device, StreamConfig, resident_count, ticked,
  read_and_upload, applied, apply_shard, loaded_now, read_now, settled, consumed, ensure_streamed,
  ensure_resident, ensure_from, ensure,
}
use swlp.Streaming.Exact.{Own, OwnFuture, OwnBlock, IsExact, read_and_upload-Own}

-- The device never fails to take a state, and what it reads for a layer are that layer's weights.
module _ {W : Type 0} (weights : ℕ → W) (config : StreamConfig) (dev : Device W)
    (reads_own : (t i : ℕ) → Own weights i (dev.read_shard t i))
    (takes : (t i : ℕ) → dev.load_state_dict t i ≡ true) where
  open dev use {read_shard, to_device, load_state_dict}

  -- What `ensure` may answer for layer `i`.
  abbrev pub Ensured : ℕ → Result PrefetchError (Option W) × Streaming W → Type 0
  Ensured i r = ((r.0 ≡ ok (some (weights i))) ⊎ (r.0 ≡ err prefetch_error)) × IsExact weights r.1

  applied-Ensured :
      (s : Streaming W) (i : ℕ) (w : W)
      → w ≡ weights i
      → IsExact weights s
      → Ensured i (applied config dev s i w true)
  applied-Ensured s i w e h = (
    inl (ap (λ v. ok (some v)) e),
    record {
      own_blocks =
          put-all₂ (OwnBlock weights) s.loaded s.blocks i true (some w) (ap some e) h.own_blocks;
      own_futures = h.own_futures;
      own_residents = h.own_residents;
    },
  )

  ticked-IsExact : (s : Streaming W) → IsExact weights s → IsExact weights (ticked config dev s)
  ticked-IsExact s h = record {
    own_blocks = h.own_blocks;
    own_futures = h.own_futures;
    own_residents = h.own_residents;
  }

  apply_shard-Ensured :
      (s : Streaming W) (i : ℕ) (w : W) (device_ready : Bool)
      → device_ready || to_device s.attempts i ≡ true
      → w ≡ weights i
      → IsExact weights s
      → Ensured i (apply_shard config dev s i w device_ready)
  unfolding apply_shard
  apply_shard-Ensured s i w device_ready ready own h =
      subst (λ b. Ensured i (applied config dev (ticked config dev s) i w b))
        (sym (ap (λ b. b && load_state_dict s.attempts i) ready ∙ takes s.attempts i))
        (applied-Ensured (ticked config dev s) i w own (ticked-IsExact s h))

  loaded_now-Ensured :
      (s : Streaming W) (i : ℕ) (o : Option W)
      → Own weights i o
      → IsExact weights s
      → Ensured i (loaded_now config dev s i o)
  loaded_now-Ensured s i none own h = (inr refl, h)
  loaded_now-Ensured s i (some w) own h = apply_shard-Ensured s i w true refl own h

  read_now-Ensured :
      (s : Streaming W) (i : ℕ) → IsExact weights s → Ensured i (read_now config dev s i)
  read_now-Ensured s i h =
      loaded_now-Ensured (ticked config dev s) i (read_and_upload config dev s.attempts i)
        (read_and_upload-Own weights config dev reads_own takes s.attempts i) (ticked-IsExact s h)

  settled-Ensured :
      (s : Streaming W) (i : ℕ) (o : Option W)
      → Own weights i o
      → IsExact weights s
      → Ensured i (settled config dev s i o)
  settled-Ensured s i none own h = read_now-Ensured s i h
  settled-Ensured s i (some w) own h = apply_shard-Ensured s i w true refl own h

  consumed-Ensured :
      (s : Streaming W) (i : ℕ) (f : Option (Future W))
      → OwnFuture weights i f
      → IsExact weights s
      → Ensured i (consumed config dev s i f)
  consumed-Ensured s i none own h =
      read_now-Ensured (record s { overlap_misses = s.overlap_misses + 1 }) i
        (record {
          own_blocks = h.own_blocks;
          own_futures = h.own_futures;
          own_residents = h.own_residents;
        })
  consumed-Ensured s i (some pending) own h =
      settled-Ensured _ i (read_and_upload config dev s.attempts i)
        (read_and_upload-Own weights config dev reads_own takes s.attempts i)
        (record {
          own_blocks = h.own_blocks;
          own_futures = h.own_futures;
          own_residents = h.own_residents;
        })
  consumed-Ensured s i (some (done outcome)) own h = settled-Ensured _ i outcome own (record {
    own_blocks = h.own_blocks;
    own_futures = h.own_futures;
    own_residents = h.own_residents;
  })

  ensure_streamed-Ensured :
      (s : Streaming W) (i : ℕ) (b : Bool)
      → OwnBlock weights i b (s.blocks i)
      → IsExact weights s
      → Ensured i (ensure_streamed config dev s i b)
  ensure_streamed-Ensured s i true own h = (inl (ap ok own), h)
  ensure_streamed-Ensured s i false own h =
      consumed-Ensured (record s { futures = put s.futures i none }) i (s.futures i)
        (h.own_futures i)
        (record {
          own_blocks = h.own_blocks;
          own_futures = put-all (OwnFuture weights) s.futures i none tt h.own_futures;
          own_residents = h.own_residents;
        })

  ensure_resident-Ensured :
      (s : Streaming W) (i : ℕ) (w : W) (b : Bool)
      → to_device s.attempts i ≡ true
      → w ≡ weights i
      → OwnBlock weights i b (s.blocks i)
      → IsExact weights s
      → Ensured i (ensure_resident config dev s i w b)
  ensure_resident-Ensured s i w true ready e own h = (inl (ap ok own), h)
  ensure_resident-Ensured s i w false ready e own h = apply_shard-Ensured s i w false ready e h

  -- The copy of a resident layer to the device succeeds.
  abbrev pub Copies : Type 0
  Copies = (t i : ℕ) → i < resident_count config → to_device t i ≡ true

  ensure_from-Ensured :
      (s : Streaming W) (i : ℕ) (o : Option W)
      → (is_some o ≡ true → to_device s.attempts i ≡ true)
      → Own weights i o
      → IsExact weights s
      → Ensured i (ensure_from config dev s i o)
  ensure_from-Ensured s i none ready own h =
      ensure_streamed-Ensured s i (s.loaded i) (h.own_blocks i) h
  ensure_from-Ensured s i (some w) ready own h =
      ensure_resident-Ensured s i w (s.loaded i) (ready refl) own (h.own_blocks i) h

  if-is_some : (b : Bool) (o : Option W) → is_some (if b then o else none) ≡ true → b ≡ true
  if-is_some true o e = refl
  if-is_some false o e = e

  pub if-Own :
      (b : Bool) (i : ℕ) (o : Option W) → Own weights i o → Own weights i (if b then o else none)
  if-Own true i o h = h
  if-Own false i o h = tt

  pub ensure-Ensured :
      Copies → (s : Streaming W) (i : ℕ) → IsExact weights s → Ensured i (ensure config dev s i)
  unfolding ensure
  ensure-Ensured copies s i h =
      ensure_from-Ensured s i (if ltb i (resident_count config) then s.resident_data i else none)
        (λ there. copies s.attempts i (
          ltb→lt i (resident_count config)
            (if-is_some (ltb i (resident_count config)) (s.resident_data i) there)))
        (if-Own (ltb i (resident_count config)) i (s.resident_data i) (h.own_residents i)) h
