-- ===== src/KvCache/Access.antt =====
-- `set`, `get` and `clear` of src/swlp/core/kv_cache.py.
use swlp.Prelude.{
  ℕ, ◌+◌, Bool, true, false, not, ◌&&◌, ◌||◌, Option, none, some, List, [], ◌∷◌, Result, ok, err,
  ◌>>=◌, ◌==◌, ltb, if◌then◌else◌,
}
use swlp.KvCache.Backend.{Storage}
use swlp.KvCache.{
  device, host, disk, same_location, KvEntry, KvCacheManager, lookup, insert, add_usage,
  remove_usage, replace, set_file, record_snapshot, at_entry,
}
use swlp.KvCache.Tiers.{load_from_disk, decompress_entry, KvError}
use swlp.KvCache.Budget.{enforce_budget, enforce_device_budget}

module _ (st : Storage) where
  open st use {Tensors, size}

  -- The sliding window: only the last `kv_window` positions are stored.
  abbrev pub windowed : ℕ → Tensors → Tensors
  windowed kv_window t =
      if ltb 0 kv_window && ltb kv_window (st.seq_len t) then st.keep_last kv_window t else t

  abbrev pub quantized_entry : ℕ → Option st.Quantized → Option (KvEntry st)
  quantized_entry now none = none
  quantized_entry now (some q) = some (record {
    tensors = none;
    packed = none;
    uncompressed_bytes = st.quantized_size q;
    compressed_bytes = 0;
    last_access = now;
    location = host;
    has_path = false;
    disk_bytes = 0;
    quantized_tensors = some q;
  })

  -- The entry that `set` makes, if the quantiser does not raise; `on_device` is whether the tensors lie
  -- on an accelerator.
  abbrev pub fresh_entry : Bool → ℕ → ℕ → Bool → Option Tensors → Option (KvEntry st)
  fresh_entry int4 kv_window now on_device none = some (record {
    tensors = none;
    packed = none;
    uncompressed_bytes = 0;
    compressed_bytes = 0;
    last_access = now;
    location = host;
    has_path = false;
    disk_bytes = 0;
    quantized_tensors = none;
  })
  fresh_entry true kv_window now on_device (some t) =
      quantized_entry now (st.quantize (windowed kv_window t))
  fresh_entry false kv_window now on_device (some t) = some (record {
    tensors = some (windowed kv_window t);
    packed = none;
    uncompressed_bytes = size (windowed kv_window t);
    compressed_bytes = 0;
    last_access = now;
    location = if on_device then device else host;
    has_path = false;
    disk_bytes = 0;
    quantized_tensors = none;
  })

  -- The spill file of the previous entry is deleted.
  abbrev pub unlinked : KvCacheManager st → ℕ → KvEntry st → KvCacheManager st
  unlinked s k prev =
      if same_location prev.location disk && prev.has_path then set_file st s k none else s

  -- The previous entry gives its bytes back; it is still the layer's entry.
  abbrev pub released : KvCacheManager st → ℕ → Option (KvEntry st) → KvCacheManager st
  released s k none = s
  released s k (some prev) =
      let s' = unlinked s k prev in record s' { usage = remove_usage st prev s'.usage }

  -- The new entry takes the place of the previous one.
  abbrev pub store : KvCacheManager st → ℕ → KvEntry st → Option (KvEntry st) → KvCacheManager st
  store s k e none = record s { entries = insert st k e s.entries; usage = add_usage st e s.usage }
  store s k e (some prev) = replace st (unlinked s k prev) k prev e

  abbrev pub is_some {ℓ} : {A : Type ℓ} → Option A → Bool
  is_some none = false
  is_some (some a) = true

  -- `ValueError` of `kv_quantize_int4`, with the manager that the call of `set` leaves.
  pub data SetError : Type 0 where
    value_error : KvCacheManager st → SetError

  -- The INT4 branch leaves the device budget alone.
  abbrev pub enforced : Bool → KvCacheManager st → KvCacheManager st
  enforced true s = enforce_budget st s
  enforced false s = enforce_budget st (enforce_device_budget st s)

  abbrev pub set_entry :
      KvCacheManager st → ℕ → Bool → Option (KvEntry st) → Result SetError (KvCacheManager st)
  set_entry s k quantizing none = err (value_error (released s k (lookup st k s.entries)))
  set_entry s k quantizing (some e) =
      ok (enforced quantizing (record_snapshot st (store s k e (lookup st k s.entries))))

  unfoldable pub set_layer :
      KvCacheManager st → ℕ → ℕ → Bool → Option Tensors → Result SetError (KvCacheManager st)
  set_layer s now k on_device o =
      set_entry s k (s.int4 && is_some o) (fresh_entry s.int4 s.kv_window now on_device o)

  -- `entry.last_access = …`
  unfoldable pub touch : KvCacheManager st → ℕ → ℕ → KvEntry st → KvCacheManager st
  touch s now k e = record s { entries = insert st k (record e { last_access = now }) s.entries }

  abbrev pub moved : KvCacheManager st → ℕ → KvEntry st → Option Tensors → KvCacheManager st
  moved s k e none = s
  moved s k e (some t) =
      let s1 = replace st s k e (record e { location = device }) in
      let s2 = record s1 {
        counts = record (s1.counts) { moves_to_device = s1.counts.moves_to_device + 1 };
      } in
      enforce_budget st (enforce_device_budget st (record_snapshot st s2))

  -- The move to the device, after which both budgets are enforced.
  unfoldable pub move_to_device : Bool → KvCacheManager st → ℕ → KvEntry st → KvCacheManager st
  move_to_device desired s k e =
      if desired && not (same_location e.location device) then moved s k e e.tensors else s

  abbrev pub tensors_of : Option (KvEntry st) → Option Tensors
  tensors_of none = none
  tensors_of (some e) = e.tensors

  abbrev pub decompress_at :
      KvCacheManager st → ℕ → Option (KvEntry st) → Result (KvError st) (KvCacheManager st)
  decompress_at s k none = ok s
  decompress_at s k (some e) = decompress_entry st s k e

  -- What `get` does with an entry that is not quantised; `desired` is whether a device is given.
  -- The entry object is the stored one, so that its tensors are read after the budgets are enforced.
  unfoldable pub fetch :
      Bool → KvCacheManager st → ℕ → Result (KvError st) (Option Tensors × KvCacheManager st)
  fetch desired s k =
      let s1 =
        at_entry st (λ s k e. if same_location e.location disk then load_from_disk st s k e else s)
          s k in
      decompress_at s1 k (lookup st k s1.entries) >>= λ s2.
      let s3 = at_entry st (move_to_device desired) s2 k in
      ok (tensors_of (lookup st k s3.entries), s3)

  abbrev pub get_held :
      KvCacheManager st
      → ℕ
      → Bool
      → Option st.Quantized
      → Result (KvError st) (Option Tensors × KvCacheManager st)
  get_held s k target (some q) = ok (some (st.dequantize q), s)
  get_held s k target none = fetch (target || s.has_device) s k

  abbrev pub get_from :
      KvCacheManager st
      → ℕ
      → ℕ
      → Bool
      → Option (KvEntry st)
      → Result (KvError st) (Option Tensors × KvCacheManager st)
  get_from s now k target none = ok (none, s)
  get_from s now k target (some e) = get_held (touch s now k e) k target e.quantized_tensors

  unfoldable pub get_layer :
      KvCacheManager st → ℕ → ℕ → Bool → Result (KvError st) (Option Tensors × KvCacheManager st)
  get_layer s now k target = get_from s now k target (lookup st k s.entries)

  abbrev pub unlink_all : (ℕ → Option st.Bytes) → List (ℕ × KvEntry st) → ℕ → Option st.Bytes
  unlink_all files [] j = files j
  unlink_all files ((k, e) ∷ es) j = if e.has_path && k == j then none else unlink_all files es j

  unfoldable pub clear : KvCacheManager st → KvCacheManager st
  clear s = record s {
    entries = [];
    files = unlink_all s.files s.entries;
    usage = record { on_device = 0; on_host = 0; in_compressed = 0; on_disk = 0 };
    peaks = record { peak_device = 0; peak_host = 0; peak_total = 0 };
    counts = record {
      compressions = 0;
      decompressions = 0;
      offloads = 0;
      moves_to_device = 0;
      disk_spills = 0;
      disk_loads = 0;
      budget_violations = 0;
    };
  }
