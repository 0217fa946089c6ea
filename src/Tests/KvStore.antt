-- ===== src/Tests/KvStore.antt =====
-- The KV manager's theorems on tensors that are numbers, a toy file format and toy compression.
use swlp.Prelude.{
  ℕ, zero, suc, ◌/◌, ◌%◌, ◌*◌, ◌≡◌, refl, true, false, Option, none, some, [], ◌∷◌, ok, arith, inl,
  inr, ◌≤◌, subst, ℕ_discrete, ◌==◌, if◌then◌else◌,
}
use swlp.KvCache.Backend.{Storage}
use swlp.KvCache.{device, host, disk, usage_of, KvEntry, KvCacheManager, lookup}
use swlp.KvCache.Budget.{enforce_budget, enforce_device_budget}
use swlp.KvCache.Access.{set_layer, get_layer}
use swlp.KvCache.Kept.{Refines, Kept, spilled, held}
use swlp.KvCache.Within.{enforce_device_budget_within}
use swlp.KvCache.Maintained.{enforce_budget-Refines}
use swlp.KvCache.Written.{Sets, set_layer-Refines}
use swlp.KvCache.Read.{Answers, get_layer-Answers}
use swlp.KvCache.Exact.{get_layer-exact}

-- A file is a kind (0 for a torch file, 1 for a zlib stream of one) and a content.
abbrev pub toy_load : ℕ × ℕ → Option ℕ
toy_load (zero, t) = some t
toy_load (suc kind, t) = none

abbrev pub unzip : ℕ × ℕ → ℕ × ℕ
unzip (zero, t) = (0, t)
unzip (suc kind, t) = (kind, t)

pub unzip-zip : (b : ℕ × ℕ) → unzip (suc b.0, b.1) ≡ b
unzip-zip b = refl

abbrev pub storage : Storage
storage = record {
  Tensors = ℕ;
  size = λ t. t;
  seq_len = λ t. t;
  keep_last = λ n t. n;
  Bytes = ℕ × ℕ;
  byte_length = λ b. b.1 / 2;
  save = λ t. (0, t);
  load = toy_load;
  compress = λ b. (suc b.0, b.1);
  decompress = unzip;
  Quantized = ℕ;
  quantize = λ t. if t % 2 == 0 then some (t / 4) else none;
  dequantize = λ q. q * 4;
  quantized_size = λ q. q;
  load-save = λ t. refl;
  decompress-compress = λ b. refl;
  load-compress = λ b. refl;
}

abbrev pub empty_manager : KvCacheManager storage
empty_manager = record {
  budget_bytes = 10;
  device_budget_bytes = 10;
  compression = true;
  tiering = true;
  has_device = false;
  has_disk_dir = true;
  kv_window = 0;
  int4 = false;
  entries = [];
  files = λ k. none;
  usage = record { on_device = 0; on_host = 0; in_compressed = 0; on_disk = 0 };
  peaks = record { peak_device = 0; peak_host = 0; peak_total = 0 };
  counts = record {
    compressions = 0;
    decompressions = 0;
    offloads = 0;
    moves_to_device = 0;
    disk_spills = 0;
    disk_loads = 0;
    budget_violations = 0;
  };
}

abbrev nothing_kept : ℕ → Option ℕ
nothing_kept k = none

empty_manager-Refines : Refines storage empty_manager nothing_kept
empty_manager-Refines = record { accounted = refl; kept = λ k. (refl, refl) }

-- Layer 0 lies compressed on disk, layer 1 on the host.
abbrev on_disk_entry : KvEntry storage
on_disk_entry = record {
  tensors = none;
  packed = none;
  uncompressed_bytes = 8;
  compressed_bytes = 0;
  last_access = 1;
  location = disk;
  has_path = true;
  disk_bytes = 4;
  quantized_tensors = none;
}

abbrev host_entry : KvEntry storage
host_entry = record {
  tensors = some 9;
  packed = none;
  uncompressed_bytes = 9;
  compressed_bytes = 0;
  last_access = 2;
  location = host;
  has_path = false;
  disk_bytes = 0;
  quantized_tensors = none;
}

abbrev spill_file : ℕ → Option (ℕ × ℕ)
spill_file k = if 0 == k then some (1, 8) else none

abbrev pub two_layers : KvCacheManager storage
two_layers = record empty_manager {
  entries = (0, on_disk_entry) ∷ (1, host_entry) ∷ [];
  files = spill_file;
  usage = record { on_device = 0; on_host = 9; in_compressed = 0; on_disk = 4 };
}

abbrev pub two_kept : ℕ → Option ℕ
two_kept k = if 0 == k then some 8 else if 1 == k then some 9 else none

pub two_layers-Refines : Refines storage two_layers two_kept
two_layers-Refines = record {
  accounted = refl;
  kept = λ k. elim (ℕ_discrete 0 k) [
    | yes e ↦ subst Here e (spilled 8 (1, 8) refl refl refl refl refl refl (inr refl))
    | no ne ↦ elim (ℕ_discrete 1 k) [
      | yes e ↦ subst Here e (held 9 refl refl refl (inr refl) refl refl)
      | no ne' ↦ other k (ground arith) (ground arith)
    ]
  ];
}
  where
    Here : ℕ → Type 0
    Here k = Kept storage (spill_file k) (lookup storage k two_layers.entries) (two_kept k)

    other : (k : ℕ) → (0 == k) ≡ false → (1 == k) ≡ false → Here k
    other k e e' = rw (e, e') (refl, refl)

set_layer-Refines_example :
    Sets storage two_layers two_kept 0 (some 6) (set_layer storage two_layers 3 0 true (some 6))
set_layer-Refines_example =
    set_layer-Refines storage two_layers two_kept 3 0 true (some 6) two_layers-Refines

enforce_budget-Refines_example : Refines storage (enforce_budget storage two_layers) two_kept
enforce_budget-Refines_example =
    enforce_budget-Refines storage two_layers two_kept two_layers-Refines

get_layer-Answers_example : Answers storage two_kept 0 (get_layer storage two_layers 3 0 true)
get_layer-Answers_example =
    get_layer-Answers storage two_layers two_kept 3 0 true two_layers-Refines

get_layer-exact_example :
    (s' : KvCacheManager storage) × (get_layer storage two_layers 3 0 false ≡ ok (some 8, s'))
get_layer-exact_example = get_layer-exact storage two_layers two_kept 3 0 two_layers-Refines refl

-- A layer of nine bytes on the device, where four fit.
abbrev full_device : KvCacheManager storage
full_device = record empty_manager {
  device_budget_bytes = 4;
  entries = (1, record host_entry { location = device }) ∷ [];
  files = λ k. none;
  usage = record { on_device = 9; on_host = 0; in_compressed = 0; on_disk = 0 };
}

abbrev one_kept : ℕ → Option ℕ
one_kept k = if 1 == k then some 9 else none

full_device-Refines : Refines storage full_device one_kept
full_device-Refines = record {
  accounted = refl;
  kept = λ k. elim (ℕ_discrete 1 k) [
    | yes e ↦ subst Here e (held 9 refl refl refl (inl refl) refl refl)
    | no ne ↦ other k (ground arith)
  ];
}
  where
    Here : ℕ → Type 0
    Here k = Kept storage none (lookup storage k full_device.entries) (one_kept k)

    other : (k : ℕ) → (1 == k) ≡ false → Here k
    other k e = rw e (refl, refl)

enforce_device_budget_within_example :
    ((enforce_device_budget storage full_device).usage.on_device ≤ 4)
    × ((enforce_device_budget storage full_device).usage
        ≡ usage_of storage (enforce_device_budget storage full_device).entries)
enforce_device_budget_within_example =
    enforce_device_budget_within storage full_device one_kept full_device-Refines (refl, tt) refl
