-- ===== src/KvCache/Spill.antt =====
-- The disk tier of src/swlp/core/kv_cache.py keeps what the entries stand for: spilling, loading and
-- decompressing.
use swlp.Prelude.{
  ℕ, ◌≡◌, ◌≢◌, refl, sym, ap, ap₂, subst, ◌∙◌, true, false, ◌&&◌, inl, inr, Option, none, some, ok,
  arith, ◌==◌, if◌then◌else◌,
}
use swlp.KvCache.Backend.{Storage}
use swlp.KvCache.{
  Location, device, host, compressed, disk, same_location, KvEntry, KvCacheManager, lookup, replace,
  set_file,
}
use swlp.KvCache.Tiers.{
  spill_from, spill_to_disk, load_when, restored, load_from_disk, unpacked, decompress_from,
  decompress_entry,
}
use swlp.KvCache.Kept.{
  Holds, empty, held, packed_in, spilled, quantised, Refines, lookup-Holds, change, via₂,
  if-Refines, KeepsAt,
}

module _ (st : Storage) where
  open st use {Tensors, Bytes}

  files_apart :
      (files : ℕ → Option Bytes) (k j : ℕ) (content : Option Bytes)
      → k ≢ j
      → files j ≡ (if j == k then content else files j)
  files_apart files k j content ne = ground arith

  file_here :
      (files : ℕ → Option Bytes) (k : ℕ) (content : Option Bytes)
      → (if k == k then content else files k) ≡ content
  file_here files k content = ground arith

  true-ne-false : {P : Type 0} → false ≡ true → P
  true-ne-false e = ground arith

  pub spill_to_disk-Refines :
      (s : KvCacheManager st) (A : ℕ → Option Tensors) (k : ℕ) (e : KvEntry st)
      → Refines st s A
      → lookup st k s.entries ≡ some e
      → same_location e.location compressed ≡ true
      → Refines st (spill_to_disk st s k e) A
  unfolding spill_to_disk replace
  spill_to_disk-Refines s A k e h eq here =
      if-Refines st s.has_disk_dir _ s A
        (λ dir. elim (lookup-Holds st s A k e h eq) [
          | empty o et ep eq' el eh ef ↦ misplaced host el refl
          | held t o et eq' (inl l) eh ef ↦ misplaced device l refl
          | held t o et eq' (inr l) eh ef ↦ misplaced host l refl
          | packed_in t o et ep eq' el eh ef ↦
              let raw = st.compress (st.save t) in
              via₂ st (spill_from st s k e) A here ep (
                change st s.entries s.usage s.files (set_file st s k (some raw)).files A A k e _ h
                  eq (spilled t raw o et eq' refl refl (file_here s.files k (some raw)) (inr refl))
                  (λ j ne. (files_apart s.files k j (some raw) ne, refl)))
          | spilled t raw o et eq' el eh ef er ↦ misplaced disk el refl
          | quantised q o et eq' el eh ef ↦ misplaced host el refl
        ])
        h
    where
      misplaced :
          {P : Type 0} (l : Location) → e.location ≡ l → same_location l compressed ≡ false → P
      misplaced l el other =
          true-ne-false (sym other ∙ sym (ap (λ l. same_location l compressed) el) ∙ here)

  pub load_from_disk-Refines : KeepsAt st (load_from_disk st)
  unfolding load_from_disk replace
  load_from_disk-Refines s A k e h eq = elim (lookup-Holds st s A k e h eq) [
    | empty o et ep eq' el eh ef ↦ stays eh
    | held t o et eq' l eh ef ↦ stays eh
    | packed_in t o et ep eq' el eh ef ↦ stays eh
    | quantised q o et eq' el eh ef ↦ stays eh
    | spilled t raw o et eq' el eh ef (inl er) ↦
        found raw el eh ef (some t) (ap st.load er ∙ st.load-save t)
          (held t o refl eq' (inr refl) refl (file_here s.files k none))
    | spilled t raw o et eq' el eh ef (inr er) ↦
        found raw el eh ef none (ap st.load er ∙ st.load-compress (st.save t))
          (packed_in t o et (ap some er) eq' refl refl (file_here s.files k none))
  ]
    where
      stays : e.has_path ≡ false → Refines st (load_from_disk st s k e) A
      stays eh =
          via₂ st (load_when st s k e) A (ap (λ b. b && same_location e.location disk) eh) refl h

      found :
          (raw : Bytes)
          → e.location ≡ disk
          → e.has_path ≡ true
          → s.files k ≡ some raw
          → (read : Option Tensors) → st.load raw ≡ read
          → Holds st (if k == k then none else s.files k) (restored st e raw read) (A k)
          → Refines st (load_from_disk st s k e) A
      found raw el eh ef read er holds =
          via₂ st (load_when st s k e) A (ap₂ (λ b l. b && same_location l disk) eh el) ef (
            change st s.entries s.usage s.files (set_file st s k none).files A A k e _ h eq
              (subst
                (λ r. Holds st (if k == k then none else s.files k) (restored st e raw r) (A k))
                (sym er) holds)
              (λ j ne. (files_apart s.files k j none ne, refl)))

  -- Decompressing raises nothing.
  pub decompress_entry-Refines :
      (s : KvCacheManager st) (A : ℕ → Option Tensors) (k : ℕ) (e : KvEntry st)
      → Refines st s A
      → lookup st k s.entries ≡ some e
      → (s' : KvCacheManager st) × (decompress_entry st s k e ≡ ok s') × Refines st s' A
  unfolding decompress_entry replace
  decompress_entry-Refines s A k e h eq = elim (lookup-Holds st s A k e h eq) [
    | empty o et ep eq' el eh ef ↦ stays host el refl
    | held t o et eq' (inl l) eh ef ↦ stays device l refl
    | held t o et eq' (inr l) eh ef ↦ stays host l refl
    | spilled t raw o et eq' el eh ef er ↦ stays disk el refl
    | quantised q o et eq' el eh ef ↦ stays host el refl
    | packed_in t o et ep eq' el eh ef ↦ (
      _,
      ap₂ (decompress_from st s k e) (ap (λ l. same_location l compressed) el) ep
          ∙ ap (unpacked st s k e)
              (ap st.load (st.decompress-compress (st.save t)) ∙ st.load-save t),
      change st s.entries s.usage s.files s.files A A k e _ h eq
          (held t o refl eq' (inr refl) eh ef) (λ j ne. (refl, refl)),
    )
  ]
    where
      stays :
          (l : Location)
          → e.location ≡ l
          → same_location l compressed ≡ false
          → (s' : KvCacheManager st) × (decompress_entry st s k e ≡ ok s') × Refines st s' A
      stays l el other = (
        s,
        ap (λ b. decompress_from st s k e b e.packed)
            (ap (λ l. same_location l compressed) el ∙ other),
        h,
      )
