-- ===== src/KvCache/Maintained.antt =====
-- Enforcing the budgets and evicting (src/swlp/core/kv_cache.py) keeps every layer's tensors and the
-- counters.
use swlp.Prelude.{ℕ, ◌≡◌, Bool, true, false, ◌&&◌, Option, List, [], ◌∷◌, arith, leb}
use swlp.KvCache.Backend.{Storage}
use swlp.KvCache.{total, KvCacheManager, at_entry, record_snapshot}
use swlp.KvCache.Tiers.{offload_to_host}
use swlp.KvCache.Budget.{
  sorted, keys, offload_if, compress_if, spill_if, demote, budget_loop, enforce_budget, device_loop,
  enforce_device_budget, idle, evict_compress, evict_entry, maybe_evict,
}
use swlp.KvCache.Kept.{
  Refines, KeepsAt, at_entry-Refines, if-Refines, offload_to_host-Refines, compress_entry-Refines,
}
use swlp.KvCache.Spill.{spill_to_disk-Refines}

module _ (st : Storage) where
  open st use {Tensors}

  and_right : (a b : Bool) → a && b ≡ true → b ≡ true
  and_right true b h = h
  and_right false b h = ground arith

  pub record_snapshot-Refines :
      (s : KvCacheManager st) (A : ℕ → Option Tensors)
      → Refines st s A
      → Refines st (record_snapshot st s) A
  unfolding record_snapshot
  record_snapshot-Refines s A h = h

  offload_if-Refines : KeepsAt st (offload_if st)
  unfolding offload_if
  offload_if-Refines s A k e h eq =
      if-Refines st _ _ s A (λ c. offload_to_host-Refines st s A k e h eq) h

  compress_if-Refines : KeepsAt st (compress_if st)
  unfolding compress_if
  compress_if-Refines s A k e h eq =
      if-Refines st _ _ s A (λ c. compress_entry-Refines st s A k e h eq) h

  evict_compress-Refines : KeepsAt st (evict_compress st)
  unfolding evict_compress
  evict_compress-Refines s A k e h eq =
      if-Refines st _ _ s A (λ c. compress_entry-Refines st s A k e h eq) h

  spill_if-Refines : KeepsAt st (spill_if st)
  unfolding spill_if
  spill_if-Refines s A k e h eq =
      if-Refines st _ _ s A
        (λ c. spill_to_disk-Refines st s A k e h eq (and_right s.has_disk_dir _ c)) h

  demote-Refines :
      (s : KvCacheManager st) (A : ℕ → Option Tensors) (k : ℕ)
      → Refines st s A
      → Refines st (demote st s k) A
  unfolding demote
  demote-Refines s A k h = at_entry-Refines st (spill_if st) _ A k spill_if-Refines (
      at_entry-Refines st (compress_if st) _ A k compress_if-Refines
        (at_entry-Refines st (offload_if st) s A k offload_if-Refines h))

  budget_loop-Refines :
      (s : KvCacheManager st) (A : ℕ → Option Tensors) (ks : List ℕ)
      → Refines st s A
      → Refines st (budget_loop st s ks) A
  unfolding budget_loop
  budget_loop-Refines s A [] h = h
  budget_loop-Refines s A (k ∷ ks) h =
      if-Refines st (leb (total s.usage) s.budget_bytes) s _ A (λ c. h)
        (budget_loop-Refines (demote st s k) A ks (demote-Refines s A k h))

  device_loop-Refines :
      (s : KvCacheManager st) (A : ℕ → Option Tensors) (ks : List ℕ)
      → Refines st s A
      → Refines st (device_loop st s ks) A
  unfolding device_loop
  device_loop-Refines s A [] h = h
  device_loop-Refines s A (k ∷ ks) h =
      if-Refines st (leb s.usage.on_device s.device_budget_bytes) s _ A (λ c. h)
        (device_loop-Refines (at_entry st (offload_to_host st) s k) A ks
          (at_entry-Refines st (offload_to_host st) s A k (offload_to_host-Refines st) h))

  pub enforce_device_budget-Refines :
      (s : KvCacheManager st) (A : ℕ → Option Tensors)
      → Refines st s A
      → Refines st (enforce_device_budget st s) A
  unfolding enforce_device_budget
  enforce_device_budget-Refines s A h =
      if-Refines st _ s _ A (λ c. h)
        (record_snapshot-Refines _ A (device_loop-Refines s A (keys st (sorted st s.entries)) h))

  -- In a manager that implements a map, enforcing the budget keeps every layer's tensors, whatever it
  -- compresses and spills, and keeps the byte counters equal to the sums over the entries.
  pub enforce_budget-Refines :
      (s : KvCacheManager st) (A : ℕ → Option Tensors)
      → Refines st s A
      → Refines st (enforce_budget st s) A
  unfolding enforce_budget
  enforce_budget-Refines s A h =
      if-Refines st _ s _ A (λ c. h)
        (record_snapshot-Refines _ A (budget_loop-Refines s A (keys st (sorted st s.entries)) h))

  evict_entry-Refines : KeepsAt st (evict_entry st)
  unfolding evict_entry
  evict_entry-Refines s A k e h eq =
      if-Refines st (idle st e e.tensors) s _ A (λ c. h)
        (record_snapshot-Refines _ A (
          at_entry-Refines st (evict_compress st) _ A k evict_compress-Refines
            (at_entry-Refines st (offload_if st) s A k offload_if-Refines h)))

  -- In a manager that implements a map, evicting a layer keeps the tensors of this and of every other
  -- layer, and the byte counters stay the sums over the entries.
  pub maybe_evict-Refines :
      (s : KvCacheManager st) (A : ℕ → Option Tensors) (k : ℕ)
      → Refines st s A
      → Refines st (maybe_evict st s k) A
  unfolding maybe_evict
  maybe_evict-Refines s A k h = at_entry-Refines st (evict_entry st) s A k evict_entry-Refines h
