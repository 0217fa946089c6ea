-- ===== src/KvCache.antt =====
-- `KVCacheManager` of src/swlp/core/kv_cache.py: the entries with their four locations, the byte
-- counters, the spill files and the budgets. The clock is an argument (`now`) of the calls that
-- read it; log calls are left out, and disk writes succeed. Tiers has the moves between the
-- locations, Budget the enforcement, Access the calls of clients; Accounting, Kept, Spill, Maintained, Listed,
-- Within, Refinement, Read, Release and Exact have the proofs.
pub mod Backend
pub mod Tiers
pub mod Budget
pub mod Access
pub mod Accounting
pub mod Kept
pub mod Spill
pub mod Maintained
pub mod Listed
pub mod Within
pub mod Read
pub mod Refinement
pub mod Written
pub mod Release
pub mod Exact
use swlp.Prelude.{
  ℕ, zero, suc, ◌+◌, ◌-◌, max, Bool, true, false, not, ◌&&◌, ◌||◌, Option, none, some, List, [],
  ◌∷◌, ◌++◌, map, ◌==◌, leb, ltb, if◌then◌else◌,
}
use swlp.KvCache.Backend.{Storage}

pub data Location : Type 0 where
  device host compressed disk : Location

abbrev pub same_location : Location → Location → Bool
same_location device device = true
same_location host host = true
same_location compressed compressed = true
same_location disk disk = true
same_location _ _ = false

-- The four byte counters.
pub record Usage : Type 0 where
  pub on_device : ℕ
  pub on_host : ℕ
  pub in_compressed : ℕ
  pub on_disk : ℕ

unfoldable pub total : Usage → ℕ
total u = u.on_device + u.on_host + u.in_compressed + u.on_disk

-- The operation counters of `stats`.
pub record Counts : Type 0 where
  pub compressions : ℕ
  pub decompressions : ℕ
  pub offloads : ℕ
  pub moves_to_device : ℕ
  pub disk_spills : ℕ
  pub disk_loads : ℕ
  pub budget_violations : ℕ

pub record Peaks : Type 0 where
  pub peak_device : ℕ
  pub peak_host : ℕ
  pub peak_total : ℕ

module _ (st : Storage) where
  open st use {Tensors, Bytes, Quantized, size, byte_length}

  -- `has_path` is whether `disk_path` is set; the path of a layer's file is fixed by its index.
  pub record KvEntry : Type 0 where
    pub tensors : Option Tensors
    pub packed : Option Bytes
    pub uncompressed_bytes : ℕ
    pub compressed_bytes : ℕ
    pub last_access : ℕ
    pub location : Location
    pub has_path : Bool
    pub disk_bytes : ℕ
    pub quantized_tensors : Option Quantized

  -- What `__init__` fixes; `has_device` and `has_disk_dir` say whether `device` and `disk_dir` are set.
  pub record KvCacheManager : Type 0 where
    pub budget_bytes : ℕ
    pub device_budget_bytes : ℕ
    pub compression : Bool
    pub tiering : Bool
    pub has_device : Bool
    pub has_disk_dir : Bool
    pub kv_window : ℕ
    pub int4 : Bool
    pub entries : List (ℕ × KvEntry)
    pub files : ℕ → Option Bytes
    pub usage : Usage
    pub peaks : Peaks
    pub counts : Counts

  abbrev pub lookup : ℕ → List (ℕ × KvEntry) → Option KvEntry
  lookup k [] = none
  lookup k ((j, e) ∷ es) = if j == k then some e else lookup k es

  -- `d[k] = e`: a key that is there keeps its place.
  abbrev pub insert : ℕ → KvEntry → List (ℕ × KvEntry) → List (ℕ × KvEntry)
  insert k e [] = (k, e) ∷ []
  insert k e ((j, f) ∷ es) = if j == k then (j, e) ∷ es else (j, f) ∷ insert k e es

  -- The bytes that `_update_usage_for_entry` counts for an entry.
  abbrev pub counted : Location → KvEntry → ℕ
  counted device e = e.uncompressed_bytes
  counted host e = e.uncompressed_bytes
  counted compressed e = e.compressed_bytes
  counted disk e = e.disk_bytes

  abbrev pub add_bytes : Location → ℕ → Usage → Usage
  add_bytes device n u = record u { on_device = u.on_device + n }
  add_bytes host n u = record u { on_host = u.on_host + n }
  add_bytes compressed n u = record u { in_compressed = u.in_compressed + n }
  add_bytes disk n u = record u { on_disk = u.on_disk + n }

  -- The source's counters are integers; `-` on ℕ stops at 0, which differs only where an entry's bytes
  -- are not counted.
  abbrev pub remove_bytes : Location → ℕ → Usage → Usage
  remove_bytes device n u = record u { on_device = u.on_device - n }
  remove_bytes host n u = record u { on_host = u.on_host - n }
  remove_bytes compressed n u = record u { in_compressed = u.in_compressed - n }
  remove_bytes disk n u = record u { on_disk = u.on_disk - n }

  abbrev pub add_usage : KvEntry → Usage → Usage
  add_usage e = add_bytes e.location (counted e.location e)

  abbrev pub remove_usage : KvEntry → Usage → Usage
  remove_usage e = remove_bytes e.location (counted e.location e)

  -- `sum` of the counters over the entries.
  abbrev pub usage_of : List (ℕ × KvEntry) → Usage
  usage_of [] = record { on_device = 0; on_host = 0; in_compressed = 0; on_disk = 0 }
  usage_of ((j, e) ∷ es) = add_usage e (usage_of es)

  -- An entry object is changed between the removal of its old and the addition of its new usage.
  pub replace : KvCacheManager → ℕ → KvEntry → KvEntry → KvCacheManager
  replace s k old new = record s {
    entries = insert k new s.entries;
    usage = add_usage new (remove_usage old s.usage);
  }

  abbrev pub set_file : KvCacheManager → ℕ → Option Bytes → KvCacheManager
  set_file s k content = record s { files = λ j. if j == k then content else s.files j }

  -- `_record_snapshot`, without the history that `profile` keeps.
  unfoldable pub record_snapshot : KvCacheManager → KvCacheManager
  record_snapshot s = record s {
    peaks = record {
      peak_device = max s.peaks.peak_device s.usage.on_device;
      peak_host = max s.peaks.peak_host s.usage.on_host;
      peak_total = max s.peaks.peak_total (total s.usage);
    };
  }

  -- A step on the entry of a layer, which does nothing where there is none.
  abbrev pub on_entry :
      (KvCacheManager → ℕ → KvEntry → KvCacheManager)
      → KvCacheManager
      → ℕ
      → Option KvEntry
      → KvCacheManager
  on_entry step s k none = s
  on_entry step s k (some e) = step s k e

  abbrev pub at_entry :
      (KvCacheManager → ℕ → KvEntry → KvCacheManager) → KvCacheManager → ℕ → KvCacheManager
  at_entry step s k = on_entry step s k (lookup k s.entries)
