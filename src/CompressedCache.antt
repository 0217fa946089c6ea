-- ===== src/CompressedCache.antt =====
-- `CompressedDynamicLayer` and `CompressedDynamicCache` of src/swlp/core/compressed_cache.py: layers whose
-- cold tensors lie in the KV manager. `cat` is what `DynamicLayer.update` of transformers does to a
-- layer's tensors; an empty or uninitialised layer has none. Every layer has a device.
pub mod Restored
pub mod Extended
use swlp.Prelude.{
  ℕ, zero, suc, ◌+◌, min, Bool, true, false, Option, none, some, Result, ok, err, ◌>>=◌, ltb, leb,
  if◌then◌else◌, put,
}
use swlp.KvCache.Backend.{Storage}
use swlp.KvCache.{KvCacheManager}
use swlp.KvCache.Tiers.{KvError}
use swlp.KvCache.Budget.{maybe_evict}
use swlp.KvCache.Access.{SetError, value_error, set_layer, get_layer}

module _ (st : Storage) where
  open st use {Tensors, seq_len}

  pub record CompressedDynamicLayer : Type 0 where
    pub keys : Option Tensors
    pub cold : Bool
    pub cold_seq_len : ℕ

  pub record CompressedDynamicCache : Type 0 where
    pub n_layers : ℕ
    pub layers : ℕ → CompressedDynamicLayer
    pub kv_manager : KvCacheManager st

  abbrev pub new_layer : CompressedDynamicLayer
  new_layer = record { keys = none; cold = false; cold_seq_len = 0 }

  unfoldable pub new_compressed_cache : ℕ → KvCacheManager st → CompressedDynamicCache
  new_compressed_cache n kv_manager = record {
    n_layers = n;
    layers = λ i. new_layer;
    kv_manager = kv_manager;
  }

  -- The length that is recorded under a sliding window of `w`.
  abbrev pub kept_length : ℕ → Tensors → ℕ
  kept_length w t = if ltb 0 w then min (seq_len t) w else seq_len t

  abbrev pub cold_layer : ℕ → Tensors → CompressedDynamicLayer
  cold_layer w t = record { keys = none; cold = true; cold_seq_len = kept_length w t }

  -- What `compress` raises when `set` does, with the cache that it leaves.
  pub data CompressError : Type 0 where
    set_raised : CompressedDynamicCache → CompressError

  -- The layer's length is recorded before the call of `set`, its tensors are freed after it.
  abbrev pub stored_cold :
      CompressedDynamicCache
      → ℕ
      → Tensors
      → Result (SetError st) (KvCacheManager st)
      → Result CompressError CompressedDynamicCache
  stored_cold c i t (ok s) = ok (record c {
    layers = put c.layers i (cold_layer c.kv_manager.kv_window t);
    kv_manager = maybe_evict st s i;
  })
  stored_cold c i t (err (value_error s)) = err (
      set_raised (record c {
        layers =
            put c.layers i
              (record (c.layers i) { cold_seq_len = kept_length c.kv_manager.kv_window t });
        kv_manager = s;
      }))

  -- `compress`, of a layer with the tensors `o`; `on_device` says where they are.
  abbrev pub compressed :
      CompressedDynamicCache
      → ℕ
      → ℕ
      → Bool
      → Bool
      → Option Tensors
      → Result CompressError CompressedDynamicCache
  compressed c now i on_device true o = ok c
  compressed c now i on_device false none = ok c
  compressed c now i on_device false (some t) =
      stored_cold c i t (set_layer st c.kv_manager now i on_device (some t))

  unfoldable pub compress :
      CompressedDynamicCache → ℕ → ℕ → Bool → Result CompressError CompressedDynamicCache
  compress c now i on_device = compressed c now i on_device (c.layers i).cold (c.layers i).keys

  unfoldable pub compress_layer :
      CompressedDynamicCache → ℕ → ℕ → Bool → Result CompressError CompressedDynamicCache
  compress_layer c now i on_device = if ltb i c.n_layers then compress c now i on_device else ok c

  -- `for layer in self.layers`, from `i` on.
  unfoldable pub compress_from :
      ℕ → CompressedDynamicCache → ℕ → ℕ → Bool → Result CompressError CompressedDynamicCache
  compress_from zero c now i on_device = ok c
  compress_from (suc rounds) c now i on_device =
      compress c now i on_device >>= λ c'. compress_from rounds c' now (i + 1) on_device

  unfoldable pub compress_all :
      CompressedDynamicCache → ℕ → Bool → Result CompressError CompressedDynamicCache
  compress_all c now on_device = compress_from c.n_layers c now 0 on_device

  abbrev pub warm_layer : CompressedDynamicLayer → Option Tensors → CompressedDynamicLayer
  warm_layer l o = record l { keys = o; cold = false }

  -- What `decompress` does with the answer of the manager: no answer leaves the keys empty.
  abbrev pub restored :
      CompressedDynamicCache
      → ℕ
      → Result (KvError st) (Option Tensors × KvCacheManager st)
      → Result (KvError st) CompressedDynamicCache
  restored c i (err e) = err e
  restored c i (ok (some t, s)) =
      ok (record c { layers = put c.layers i (warm_layer (c.layers i) (some t)); kv_manager = s })
  restored c i (ok (none, s)) = ok (record c {
    layers = put c.layers i (warm_layer (c.layers i) (c.layers i).keys);
    kv_manager = s;
  })

  abbrev pub decompress_if :
      CompressedDynamicCache → ℕ → ℕ → Bool → Result (KvError st) CompressedDynamicCache
  decompress_if c now i false = ok c
  decompress_if c now i true = restored c i (get_layer st c.kv_manager now i true)

  unfoldable pub decompress :
      CompressedDynamicCache → ℕ → ℕ → Result (KvError st) CompressedDynamicCache
  decompress c now i = decompress_if c now i (c.layers i).cold

  module _ (cat : Option Tensors → Tensors → Tensors) where
    abbrev pub extended :
        ℕ
        → Tensors
        → Result (KvError st) CompressedDynamicCache
        → Result (KvError st) CompressedDynamicCache
    extended i x (err e) = err e
    extended i x (ok c) = ok (record c {
      layers = put c.layers i (record (c.layers i) { keys = some (cat (c.layers i).keys x) });
    })

    unfoldable pub update :
        CompressedDynamicCache → ℕ → ℕ → Tensors → Result (KvError st) CompressedDynamicCache
    update c now i x = extended i x (decompress c now i)

  abbrev pub warm_length : Option Tensors → ℕ
  warm_length none = 0
  warm_length (some t) = seq_len t

  unfoldable pub get_seq_length : CompressedDynamicCache → ℕ → ℕ
  get_seq_length c i =
      if (c.layers i).cold then (c.layers i).cold_seq_len else warm_length (c.layers i).keys
