-- ===== src/Streaming.antt =====
-- `StreamingScheduler` of src/swlp/core/streaming.py: which blocks have their weights on the device,
-- the running prefetches and the counters of `overlap_stats`. The files, the tensor library and the
-- device are parameters that may fail at any attempt; log calls and the profiler are left out.
-- Exact, Ensured and Reliable follow the weights, Window, Ensuring and Released the layers that are held,
-- Errors a block that refuses its state.
pub mod Exact
pub mod Ensured
pub mod Reliable
pub mod Window
pub mod Ensuring
pub mod Released
pub mod Errors
pub mod Buffers
pub mod Owned
pub mod Untouched
pub mod Interleaved
use swlp.Prelude.{
  ℕ, zero, suc, ◌+◌, min, Bool, true, false, not, ◌&&◌, ◌||◌, Option, none, some, Result, ok, err,
  leb, ltb, if◌then◌else◌, put,
}
use swlp.Scheduling.{PrefetchError, prefetch_error}

-- The future of a prefetch; one that ends in an exception has the outcome `none` here, since `ensure`
-- treats both alike.
pub data Future (W : Type 0) : Type 0 where
  pending : Future W
  done : Option W → Future W

-- `blocks i` is `none` while block `i` is on the meta device. `attempts` numbers the calls of the
-- parameters, so that each may have its own outcome.
pub record Streaming (W : Type 0) : Type 0 where
  pub prefetch_enabled : Bool
  pub pool_open : Bool
  pub loaded : ℕ → Bool
  pub futures : ℕ → Option (Future W)
  pub resident_data : ℕ → Option W
  pub blocks : ℕ → Option W
  pub attempts : ℕ
  pub overlap_hits : ℕ
  pub overlap_waits : ℕ
  pub overlap_misses : ℕ

abbrev pub is_some {ℓ} : {A : Type ℓ} → Option A → Bool
is_some none = false
is_some (some a) = true

-- What the scheduler calls: `read_shard t i` is the state that the attempt numbered `t` reads for
-- layer `i`, `to_device` whether the copy to the device succeeds, `load_state_dict` whether the
-- block takes the state, `to_meta` whether the block's move to the meta device succeeds; a move that
-- raises has left the block as it was.
pub record Device (W : Type 0) : Type 0 where
  pub read_shard : ℕ → ℕ → Option W
  pub to_device : ℕ → ℕ → Bool
  pub load_state_dict : ℕ → ℕ → Bool
  pub to_meta : ℕ → ℕ → Bool

pub record StreamConfig : Type 0 where
  pub n_blocks : ℕ
  pub resident_wanted : ℕ
  pub window_size : ℕ
  pub prefetch_depth : ℕ
  pub prefetch_wanted : Bool

-- `resident_count` layers, the first ones, keep their state in main memory.
unfoldable pub resident_count : StreamConfig → ℕ
resident_count config = min config.resident_wanted config.n_blocks

unfoldable pub window_end_index : StreamConfig → ℕ → ℕ
window_end_index config current_index = current_index + config.prefetch_depth

module _ {W : Type 0} (config : StreamConfig) where
  open config use {n_blocks}

  unfoldable pub new_scheduler : Streaming W
  new_scheduler = record {
    prefetch_enabled = config.prefetch_wanted;
    pool_open = true;
    loaded = λ i. false;
    futures = λ i. none;
    resident_data = λ i. none;
    blocks = λ i. none;
    attempts = 0;
    overlap_hits = 0;
    overlap_waits = 0;
    overlap_misses = 0;
  }

  abbrev pub submitted : Streaming W → ℕ → Bool → Result PrefetchError (Streaming W)
  submitted s layer_index true =
      ok (record s { futures = put s.futures layer_index (some pending) })
  submitted s layer_index false = err prefetch_error

  unfoldable pub prefetch : Streaming W → ℕ → Result PrefetchError (Streaming W)
  prefetch s layer_index =
      if not s.prefetch_enabled
      then ok s
      else if leb n_blocks layer_index
      then ok s
      else if ltb layer_index (resident_count config)
      then ok s
      else if s.loaded layer_index || is_some (s.futures layer_index)
      then ok s
      else submitted s layer_index s.pool_open

  unfoldable pub disable_prefetch : Streaming W → Streaming W
  disable_prefetch s = record s { prefetch_enabled = false }

  unfoldable pub cleanup : Streaming W → Streaming W
  cleanup s = record s {
    pool_open = false;
    blocks = λ i. if s.loaded i then none else s.blocks i;
    loaded = λ i. false;
    futures = λ i. none;
    resident_data = λ i. none;
  }

  unfoldable pub overlap_total : Streaming W → ℕ
  overlap_total s = s.overlap_hits + s.overlap_waits + s.overlap_misses

  module _ (dev : Device W) where
    open dev use {read_shard, to_device, load_state_dict, to_meta}

    abbrev pub ticked : Streaming W → Streaming W
    ticked s = record s { attempts = s.attempts + 1 }

    -- After the move to the meta device; one that raises is logged, and the layer stays loaded.
    abbrev pub evicted : Streaming W → ℕ → Bool → Streaming W
    evicted s layer_index false = s
    evicted s layer_index true = record s {
      blocks = put s.blocks layer_index none;
      loaded = put s.loaded layer_index false;
      futures =
          if leb (resident_count config) layer_index
          then put s.futures layer_index none
          else s.futures;
    }

    unfoldable pub evict : Streaming W → ℕ → Streaming W
    evict s layer_index =
        if leb n_blocks layer_index
        then s
        else if not (s.loaded layer_index)
        then s
        else if ltb layer_index (resident_count config) && leb n_blocks (resident_count config)
        then s
        else evicted (ticked s) layer_index (to_meta s.attempts layer_index)

    -- `_to_device_state`, whose copy has the values of its source.
    abbrev pub moved : Bool → W → Option W
    moved true w = some w
    moved false w = none

    -- `_read_and_deserialize`, then `_upload_to_device`.
    abbrev pub uploaded : ℕ → ℕ → Option W → Option W
    uploaded t idx none = none
    uploaded t idx (some cpu_state) = moved (to_device t idx) cpu_state

    unfoldable pub read_and_upload : ℕ → ℕ → Option W
    read_and_upload t idx = uploaded t idx (read_shard t idx)

    -- `_apply_shard`: the layer is marked as loaded whether the load succeeds or not.
    abbrev pub applied : Streaming W → ℕ → W → Bool → Result PrefetchError (Option W) × Streaming W
    applied s idx w true = (
      ok (some w),
      record s { blocks = put s.blocks idx (some w); loaded = put s.loaded idx true },
    )
    applied s idx w false = (err prefetch_error, record s { loaded = put s.loaded idx true })

    unfoldable pub apply_shard :
        Streaming W → ℕ → W → Bool → Result PrefetchError (Option W) × Streaming W
    apply_shard s idx w device_ready =
        applied (ticked s) idx w
          ((device_ready || to_device s.attempts idx) && load_state_dict s.attempts idx)

    abbrev pub loaded_now :
        Streaming W → ℕ → Option W → Result PrefetchError (Option W) × Streaming W
    loaded_now s idx none = (err prefetch_error, s)
    loaded_now s idx (some w) = apply_shard s idx w true

    -- The synchronous read of `ensure`.
    abbrev pub read_now : Streaming W → ℕ → Result PrefetchError (Option W) × Streaming W
    read_now s idx = loaded_now (ticked s) idx (read_and_upload s.attempts idx)

    -- After `future.result()`.
    abbrev pub settled : Streaming W → ℕ → Option W → Result PrefetchError (Option W) × Streaming W
    settled s idx (some w) = apply_shard s idx w true
    settled s idx none = read_now s idx

    -- `future.result()` waits for the pools when the future is pending.
    abbrev pub consumed :
        Streaming W → ℕ → Option (Future W) → Result PrefetchError (Option W) × Streaming W
    consumed s idx none = read_now (record s { overlap_misses = s.overlap_misses + 1 }) idx
    consumed s idx (some pending) =
        settled (ticked (record s { overlap_waits = s.overlap_waits + 1 })) idx
          (read_and_upload s.attempts idx)
    consumed s idx (some (done outcome)) =
        settled (record s { overlap_hits = s.overlap_hits + 1 }) idx outcome

    abbrev pub ensure_streamed :
        Streaming W → ℕ → Bool → Result PrefetchError (Option W) × Streaming W
    ensure_streamed s idx true = (ok (s.blocks idx), s)
    ensure_streamed s idx false =
        consumed (record s { futures = put s.futures idx none }) idx (s.futures idx)

    abbrev pub ensure_resident :
        Streaming W → ℕ → W → Bool → Result PrefetchError (Option W) × Streaming W
    ensure_resident s idx w true = (ok (s.blocks idx), s)
    ensure_resident s idx w false = apply_shard s idx w false

    abbrev pub ensure_from :
        Streaming W → ℕ → Option W → Result PrefetchError (Option W) × Streaming W
    ensure_from s idx (some w) = ensure_resident s idx w (s.loaded idx)
    ensure_from s idx none = ensure_streamed s idx (s.loaded idx)

    unfoldable pub ensure : Streaming W → ℕ → Result PrefetchError (Option W) × Streaming W
    ensure s layer_index =
        ensure_from s layer_index
          (if ltb layer_index (resident_count config) then s.resident_data layer_index else none)

    -- What the two pools do for the layer with the number `idx`, if it waits for them.
    abbrev pub finished : Streaming W → ℕ → Option (Future W) → Streaming W
    finished s idx none = s
    finished s idx (some (done outcome)) = s
    finished s idx (some pending) = record (ticked s) {
      futures = put s.futures idx (some (done (read_and_upload s.attempts idx)));
    }

    unfoldable pub worker : ℕ → Streaming W → Streaming W
    worker idx s = finished s idx (s.futures idx)

    abbrev pub kept_resident : Streaming W → ℕ → Option W → Option W → Streaming W
    kept_resident s idx (some here) state = s
    kept_resident s idx none none = ticked s
    kept_resident s idx none (some state) = record (ticked s) {
      resident_data = put s.resident_data idx (some state);
    }

    -- `for idx in range(self._resident_count)`, from `idx` on.
    unfoldable pub resident_loop : ℕ → ℕ → Streaming W → Streaming W
    resident_loop zero idx s = s
    resident_loop (suc rounds) idx s =
        resident_loop rounds (idx + 1)
          (kept_resident s idx (s.resident_data idx) (read_shard s.attempts idx))

    unfoldable pub load_resident_layers : Streaming W → Streaming W
    load_resident_layers s = resident_loop (resident_count config) 0 s
