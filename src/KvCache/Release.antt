-- ===== src/KvCache/Release.antt =====
-- What src/swlp/core/kv_cache.py gives back: `clear` leaves no entry, no counter and no spill file,
-- and a spill frees nothing of the budget.
use swlp.Prelude.{
  ℕ, ◌≤◌, ◌≡◌, refl, ap, ap₂, ◌∙◌, true, Option, none, some, List, [], ◌∷◌, arith, if◌then◌else◌,
}
use swlp.KvCache.Backend.{Storage}
use swlp.KvCache.{
  compressed, disk, same_location, total, KvEntry, KvCacheManager, lookup, counted, add_bytes,
  remove_bytes, replace,
}
use swlp.KvCache.Tiers.{spill_from, spill_to_disk}
use swlp.KvCache.Access.{unlink_all, clear}
use swlp.KvCache.Kept.{empty, held, packed_in, spilled, quantised, Kept, Refines}

module _ (st : Storage) where
  open st use {Tensors, Bytes, byte_length}

  unlink_all-none :
      (files : ℕ → Option Bytes) (es : List (ℕ × KvEntry st)) (j : ℕ)
      → files j ≡ none
      → unlink_all st files es j ≡ none
  unlink_all-none files [] j h = h
  unlink_all-none files ((k, e) ∷ es) j h = ground (arith, unlink_all-none files es j h)

  unlink_all-has_path :
      (files : ℕ → Option Bytes) (es : List (ℕ × KvEntry st)) (j : ℕ) (e : KvEntry st)
      → lookup st j es ≡ some e
      → e.has_path ≡ true
      → unlink_all st files es j ≡ none
  unlink_all-has_path files [] j e eq path = ground arith
  unlink_all-has_path files ((k, f) ∷ es) j e eq path =
      ground (arith, unlink_all-has_path files es j e)

  all_unlinked :
      (files : ℕ → Option Bytes) (es : List (ℕ × KvEntry st)) (j : ℕ) (v : Option Tensors)
      (o : Option (KvEntry st))
      → lookup st j es ≡ o
      → Kept st (files j) o v
      → unlink_all st files es j ≡ none
  all_unlinked files es j v none eq kept = unlink_all-none files es j kept.1
  all_unlinked files es j v (some e) eq (empty _ _ _ _ _ _ ef) = unlink_all-none files es j ef
  all_unlinked files es j v (some e) eq (held _ _ _ _ _ _ ef) = unlink_all-none files es j ef
  all_unlinked files es j v (some e) eq (packed_in _ _ _ _ _ _ _ ef) = unlink_all-none files es j ef
  all_unlinked files es j v (some e) eq (quantised _ _ _ _ _ _ ef) = unlink_all-none files es j ef
  all_unlinked files es j v (some e) eq (spilled _ _ _ _ _ _ eh _ _) =
      unlink_all-has_path files es j e eq eh

  -- `clear` empties the map of a manager that implements one, and leaves no spill file of any layer.
  pub clear-Refines :
      (s : KvCacheManager st) (A : ℕ → Option Tensors)
      → Refines st s A
      → Refines st (clear st s) (λ k. none) × ((k : ℕ) → (clear st s).files k ≡ none)
  unfolding clear
  clear-Refines s A h = (
    record {
      accounted = refl;
      kept = λ k. (refl, all_unlinked s.files s.entries k (A k) _ refl (h.kept k));
    },
    λ k. all_unlinked s.files s.entries k (A k) _ refl (h.kept k),
  )

  -- Spilling a compressed entry to disk, with its bytes counted, leaves the total of the counters
  -- unchanged: it frees nothing of the budget that it is compared with.
  pub total-spill_to_disk :
      (s : KvCacheManager st) (k : ℕ) (e : KvEntry st) (b : Bytes)
      → s.has_disk_dir ≡ true
      → e.location ≡ compressed
      → e.packed ≡ some b
      → e.compressed_bytes ≡ byte_length b
      → e.compressed_bytes ≤ s.usage.in_compressed
      → total (spill_to_disk st s k e).usage ≡ total s.usage
  unfolding spill_to_disk replace total
  total-spill_to_disk s k e b dir el ep size counted_in =
      ap
        (λ d.
          total
            (if d
              then spill_from st s k e (same_location e.location compressed) e.packed
              else s).usage)
        dir
      ∙ ap₂ (λ c p. total (spill_from st s k e c p).usage) (ap (λ l. same_location l compressed) el)
          ep
      ∙ ap
          (λ l.
            total (add_bytes st disk (byte_length b) (remove_bytes st l (counted st l e) s.usage)))
          el
      ∙ omega arith
