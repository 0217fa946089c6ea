-- ===== src/KvCache/Tiers.antt =====
-- The moves of an entry between the tiers (src/swlp/core/kv_cache.py: `_offload_to_host`,
-- `_compress_entry`, `_spill_to_disk`, `_load_from_disk` and the decompression in `get`).
use swlp.Prelude.{
  ℕ, ◌+◌, Bool, true, false, ◌&&◌, Option, none, some, Result, ok, err, if◌then◌else◌,
}
use swlp.KvCache.Backend.{Storage}
use swlp.KvCache.{
  device, host, compressed, disk, same_location, KvEntry, KvCacheManager, replace, remove_usage,
  set_file,
}

module _ (st : Storage) where
  open st use {Tensors, Bytes, size, byte_length}

  abbrev pub offloaded :
      KvCacheManager st → ℕ → KvEntry st → Bool → Option Tensors → KvCacheManager st
  offloaded s k e true (some t) = record (replace st s k e (record e { location = host })) {
    counts = record (s.counts) { offloads = s.counts.offloads + 1 };
  }
  offloaded s k e true none = s
  offloaded s k e false o = s

  unfoldable pub offload_to_host : KvCacheManager st → ℕ → KvEntry st → KvCacheManager st
  offload_to_host s k e = offloaded s k e (same_location e.location device) e.tensors

  abbrev pub packed_entry : KvEntry st → Bytes → KvEntry st
  packed_entry e comp = record e {
    tensors = none;
    packed = some comp;
    compressed_bytes = byte_length comp;
    location = compressed;
  }

  abbrev pub compressed_from :
      KvCacheManager st → ℕ → KvEntry st → Option st.Quantized → Option Tensors → KvCacheManager st
  compressed_from s k e (some q) o = s
  compressed_from s k e none none = s
  compressed_from s k e none (some t) =
      record (replace st s k e (packed_entry e (st.compress (st.save t)))) {
        counts = record (s.counts) { compressions = s.counts.compressions + 1 };
      }

  unfoldable pub compress_entry : KvCacheManager st → ℕ → KvEntry st → KvCacheManager st
  compress_entry s k e = compressed_from s k e e.quantized_tensors e.tensors

  -- The file gets `raw`, and the entry changes to `new` with the file's path and size.
  abbrev pub spilled_as :
      KvCacheManager st → ℕ → KvEntry st → KvEntry st → Bytes → KvCacheManager st
  spilled_as s k e new raw =
      record (replace st (set_file st s k (some raw)) k e
        (record new { has_path = true; disk_bytes = byte_length raw; location = disk })) {
          counts = record (s.counts) { disk_spills = s.counts.disk_spills + 1 };
        }

  -- Without tensors the `else` branch raises, and the handler logs it: the entry's usage is already
  -- removed then, and the entry keeps its location.
  abbrev pub spill_tensors : KvCacheManager st → ℕ → KvEntry st → Option Tensors → KvCacheManager st
  spill_tensors s k e none = record s { usage = remove_usage st e s.usage }
  spill_tensors s k e (some t) = spilled_as s k e (record e { tensors = none }) (st.save t)

  abbrev pub spill_from :
      KvCacheManager st → ℕ → KvEntry st → Bool → Option Bytes → KvCacheManager st
  spill_from s k e true (some b) =
      spilled_as s k e (record e { packed = none; compressed_bytes = 0 }) b
  spill_from s k e true none = spill_tensors s k e e.tensors
  spill_from s k e false p = spill_tensors s k e e.tensors

  unfoldable pub spill_to_disk : KvCacheManager st → ℕ → KvEntry st → KvCacheManager st
  spill_to_disk s k e =
      if s.has_disk_dir then spill_from s k e (same_location e.location compressed) e.packed else s

  -- The entry that the file's content gives: tensors if it is a torch file, else compressed bytes.
  abbrev pub restored : KvEntry st → Bytes → Option Tensors → KvEntry st
  restored e raw (some t) = record e {
    has_path = false;
    disk_bytes = 0;
    tensors = some t;
    packed = none;
    compressed_bytes = 0;
    uncompressed_bytes = size t;
    location = host;
  }
  restored e raw none = record e {
    has_path = false;
    disk_bytes = 0;
    packed = some raw;
    compressed_bytes = byte_length raw;
    location = compressed;
  }

  -- A file that is missing cannot be read: the error is logged and nothing changes.
  abbrev pub loaded_from : KvCacheManager st → ℕ → KvEntry st → Option Bytes → KvCacheManager st
  loaded_from s k e none = s
  loaded_from s k e (some raw) =
      record (replace st (set_file st s k none) k e (restored e raw (st.load raw))) {
        counts = record (s.counts) { disk_loads = s.counts.disk_loads + 1 };
      }

  abbrev pub load_when :
      KvCacheManager st → ℕ → KvEntry st → Bool → Option Bytes → KvCacheManager st
  load_when s k e true content = loaded_from s k e content
  load_when s k e false content = s

  unfoldable pub load_from_disk : KvCacheManager st → ℕ → KvEntry st → KvCacheManager st
  load_from_disk s k e = load_when s k e (e.has_path && same_location e.location disk) (s.files k)

  pub data KvError : Type 0 where
    unpickling_error : KvError

  abbrev pub unpacked :
      KvCacheManager st → ℕ → KvEntry st → Option Tensors → Result KvError (KvCacheManager st)
  unpacked s k e none = err unpickling_error
  unpacked s k e (some t) =
      ok
        (record (replace st s k e
          (record e { tensors = some t; packed = none; compressed_bytes = 0; location = host })) {
            counts = record (s.counts) { decompressions = s.counts.decompressions + 1 };
          })

  abbrev pub decompress_from :
      KvCacheManager st → ℕ → KvEntry st → Bool → Option Bytes → Result KvError (KvCacheManager st)
  decompress_from s k e false p = ok s
  decompress_from s k e true none = ok s
  decompress_from s k e true (some b) = unpacked s k e (st.load (st.decompress b))

  -- `get`, "Tier 3 → 2".
  unfoldable pub decompress_entry :
      KvCacheManager st → ℕ → KvEntry st → Result KvError (KvCacheManager st)
  decompress_entry s k e = decompress_from s k e (same_location e.location compressed) e.packed
