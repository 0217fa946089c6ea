-- ===== src/KvCache/Budget.antt =====
-- The budgets of src/swlp/core/kv_cache.py: `_enforce_budget`, `_enforce_device_budget`,
-- `maybe_evict`.
use swlp.Prelude.{
  ℕ, ◌+◌, Bool, false, not, ◌&&◌, ◌||◌, Option, none, some, List, [], ◌∷◌, ltb, leb, if◌then◌else◌,
}
use swlp.KvCache.Backend.{Storage}
use swlp.KvCache.{
  device, compressed, disk, same_location, total, KvEntry, KvCacheManager, at_entry,
  record_snapshot,
}
use swlp.KvCache.Tiers.{offload_to_host, compress_entry, spill_to_disk}

module _ (st : Storage) where
  -- `sorted(…, key=last_access)`, which is stable, and the keys of the result.
  abbrev pub place : ℕ → KvEntry st → List (ℕ × KvEntry st) → List (ℕ × KvEntry st)
  place k e [] = (k, e) ∷ []
  place k e ((j, f) ∷ es) =
      if leb e.last_access f.last_access then (k, e) ∷ (j, f) ∷ es else (j, f) ∷ place k e es

  abbrev pub sorted : List (ℕ × KvEntry st) → List (ℕ × KvEntry st)
  sorted [] = []
  sorted ((k, e) ∷ es) = place k e (sorted es)

  abbrev pub keys : List (ℕ × KvEntry st) → List ℕ
  keys [] = []
  keys ((k, e) ∷ es) = k ∷ keys es

  unfoldable pub offload_if : KvCacheManager st → ℕ → KvEntry st → KvCacheManager st
  offload_if s k e =
      if s.tiering && same_location e.location device then offload_to_host st s k e else s

  unfoldable pub compress_if : KvCacheManager st → ℕ → KvEntry st → KvCacheManager st
  compress_if s k e =
      if s.compression && not (same_location e.location compressed || same_location e.location disk)
      then compress_entry st s k e
      else s

  unfoldable pub spill_if : KvCacheManager st → ℕ → KvEntry st → KvCacheManager st
  spill_if s k e =
      if s.has_disk_dir && same_location e.location compressed then spill_to_disk st s k e else s

  -- The body of the loop of `_enforce_budget`: an entry on disk is skipped.
  unfoldable pub demote : KvCacheManager st → ℕ → KvCacheManager st
  demote s k =
      let s1 = at_entry st offload_if s k in
      let s2 = at_entry st compress_if s1 k in at_entry st spill_if s2 k

  unfoldable pub budget_loop : KvCacheManager st → List ℕ → KvCacheManager st
  budget_loop s [] = s
  budget_loop s (k ∷ ks) =
      let rest = budget_loop (demote s k) ks in
      if leb (total s.usage) s.budget_bytes then s else rest

  unfoldable pub enforce_budget : KvCacheManager st → KvCacheManager st
  enforce_budget s =
      let s' = budget_loop s (keys (sorted s.entries)) in
      let over = ltb s.budget_bytes (total s'.usage) in
      let violations =
        if over then s'.counts.budget_violations + 1 else s'.counts.budget_violations in
      if leb (total s.usage) s.budget_bytes
      then s
      else record_snapshot st
          (record s' { counts = record (s'.counts) { budget_violations = violations } })

  unfoldable pub device_loop : KvCacheManager st → List ℕ → KvCacheManager st
  device_loop s [] = s
  device_loop s (k ∷ ks) =
      let rest = device_loop (at_entry st (offload_to_host st) s k) ks in
      if leb s.usage.on_device s.device_budget_bytes then s else rest

  unfoldable pub enforce_device_budget : KvCacheManager st → KvCacheManager st
  enforce_device_budget s =
      if leb s.usage.on_device s.device_budget_bytes || not s.tiering
      then s
      else record_snapshot st (device_loop s (keys (sorted s.entries)))

  -- `maybe_evict` once the entry is found to hold something.
  unfoldable pub evict_compress : KvCacheManager st → ℕ → KvEntry st → KvCacheManager st
  evict_compress s k e =
      if s.compression && not (same_location e.location compressed)
      then compress_entry st s k e
      else s

  abbrev pub idle : KvEntry st → Option st.Tensors → Bool
  idle e none = not (same_location e.location compressed)
  idle e (some t) = false

  unfoldable pub evict_entry : KvCacheManager st → ℕ → KvEntry st → KvCacheManager st
  evict_entry s k e =
      let s1 = at_entry st offload_if s k in
      let s2 = at_entry st evict_compress s1 k in
      if idle e e.tensors then s else record_snapshot st s2

  unfoldable pub maybe_evict : KvCacheManager st → ℕ → KvCacheManager st
  maybe_evict = at_entry st evict_entry
