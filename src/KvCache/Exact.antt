-- ===== src/KvCache/Exact.antt =====
-- `get` of src/swlp/core/kv_cache.py on a manager without a device returns what the layer stands for.
use swlp.Prelude.{
  ℕ, ◌≡◌, refl, sym, ap, ap₂, subst, ◌∙◌, true, false, ◌&&◌, inl, inr, Option, none, some, Result,
  ok, ◌>>=◌, arith, if◌then◌else◌,
}
use swlp.KvCache.Backend.{Storage}
use swlp.KvCache.{
  Location, device, host, compressed, disk, same_location, KvEntry, KvCacheManager, lookup, insert,
  replace, at_entry, on_entry,
}
use swlp.KvCache.Tiers.{
  load_from_disk, load_when, restored, decompress_entry, decompress_from, unpacked, KvError,
}
use swlp.KvCache.Access.{
  touch, move_to_device, tensors_of, decompress_at, fetch, get_held, get_from, get_layer,
}
use swlp.KvCache.Accounting.{lookup-insert_self}
use swlp.KvCache.Kept.{
  empty, held, packed_in, spilled, quantised, Kept, Refines, lookup-Holds, at_entry-Refines,
}
use swlp.KvCache.Read.{quantised_value, touch-Refines, load_step-Refines}

module _ (st : Storage) where
  open st use {Tensors, Bytes}

  clash : {A P : Type 0} {a : A} → none ≡ some a → P
  clash c = ground arith

  flip : {P : Type 0} → false ≡ true → P
  flip e = ground arith

  -- The layer's entry is off the disk and not quantised.
  OffDisk : KvCacheManager st → ℕ → Type 0
  OffDisk s k =
      (e : KvEntry st) × (lookup st k s.entries ≡ some e)
      × (same_location e.location disk ≡ false)
      × (e.quantized_tensors ≡ none)

  load_step : KvCacheManager st → ℕ → KvEntry st → KvCacheManager st
  load_step s k e = if same_location e.location disk then load_from_disk st s k e else s

  load_step-OffDisk :
      (s : KvCacheManager st) (A : ℕ → Option Tensors) (k : ℕ) (e : KvEntry st)
      → Refines st s A
      → lookup st k s.entries ≡ some e
      → e.quantized_tensors ≡ none
      → OffDisk (load_step s k e) k
  unfolding load_step OffDisk load_from_disk replace
  load_step-OffDisk s A k e h eq plain = elim (lookup-Holds st s A k e h eq) [
    | empty o et ep eq' el eh ef ↦ stays host el refl
    | held t o et eq' (inl l) eh ef ↦ stays device l refl
    | held t o et eq' (inr l) eh ef ↦ stays host l refl
    | packed_in t o et ep eq' el eh ef ↦ stays compressed el refl
    | quantised q o et eq' el eh ef ↦ clash (sym plain ∙ eq')
    | spilled t raw o et eq' el eh ef er ↦
        subst (λ b. OffDisk (if b then load_from_disk st s k e else s) k)
          (sym (ap (λ l. same_location l disk) el))
          (subst (λ s'. OffDisk s' k)
            (sym (ap₂ (load_when st s k e) (ap₂ (λ p l. p && same_location l disk) eh el) ef))
            (read raw (st.load raw)))
  ]
    where
      stays :
          (l : Location)
          → e.location ≡ l
          → same_location l disk ≡ false
          → OffDisk (load_step s k e) k
      stays l el other =
          let off : same_location e.location disk ≡ false =
            ap (λ l. same_location l disk) el ∙ other in
          subst (λ b. OffDisk (if b then load_from_disk st s k e else s) k) (sym off)
            (e, eq, off, plain)

      read :
          (raw : Bytes) (r : Option Tensors)
          → OffDisk (record s { entries = insert st k (restored st e raw r) s.entries }) k
      read raw (some t) =
          (restored st e raw (some t), lookup-insert_self st k s.entries _, refl, plain)
      read raw none = (restored st e raw none, lookup-insert_self st k s.entries _, refl, plain)

  -- Decompressing puts the layer's tensors at hand.
  decompress-exact :
      (s : KvCacheManager st) (A : ℕ → Option Tensors) (k : ℕ)
      → Refines st s A
      → OffDisk s k
      → (s' : KvCacheManager st) × (decompress_at st s k (lookup st k s.entries) ≡ ok s')
        × (tensors_of st (lookup st k s'.entries) ≡ A k)
  unfolding OffDisk decompress_entry replace
  decompress-exact s A k h (e, eq, off, plain) = elim (lookup-Holds st s A k e h eq) [
    | empty o et ep eq' el eh ef ↦ stays host el refl (et ∙ sym o)
    | held t o et eq' (inl l) eh ef ↦ stays device l refl (et ∙ sym o)
    | held t o et eq' (inr l) eh ef ↦ stays host l refl (et ∙ sym o)
    | spilled t raw o et eq' el eh ef er ↦ flip (sym off ∙ ap (λ l. same_location l disk) el)
    | quantised q o et eq' el eh ef ↦ clash (sym plain ∙ eq')
    | packed_in t o et ep eq' el eh ef ↦ (
      _,
      ap (decompress_at st s k) eq
          ∙ ap₂ (decompress_from st s k e) (ap (λ l. same_location l compressed) el) ep
          ∙ ap (unpacked st s k e)
              (ap st.load (st.decompress-compress (st.save t)) ∙ st.load-save t),
      ap (tensors_of st) (lookup-insert_self st k s.entries _) ∙ sym o,
    )
  ]
    where
      stays :
          (l : Location)
          → e.location ≡ l
          → same_location l compressed ≡ false
          → e.tensors ≡ A k
          → (s' : KvCacheManager st) × (decompress_at st s k (lookup st k s.entries) ≡ ok s')
            × (tensors_of st (lookup st k s'.entries) ≡ A k)
      stays l el other value = (
        s,
        ap (decompress_at st s k) eq
            ∙ ap (λ b. decompress_from st s k e b e.packed)
                (ap (λ l. same_location l compressed) el ∙ other),
        ap (tensors_of st) eq ∙ value,
      )

  unmoved :
      (s : KvCacheManager st) (k : ℕ) (o : Option (KvEntry st))
      → on_entry st (move_to_device st false) s k o ≡ s
  unfolding move_to_device
  unmoved s k none = refl
  unmoved s k (some e) = refl

  Returns :
      (ℕ → Option Tensors) → ℕ → Result (KvError st) (Option Tensors × KvCacheManager st) → Type 0
  Returns A k r = (s' : KvCacheManager st) × (r ≡ ok (A k, s'))

  fetch-exact :
      (s : KvCacheManager st) (A : ℕ → Option Tensors) (k : ℕ) (e : KvEntry st)
      → Refines st s A
      → lookup st k s.entries ≡ some e
      → e.quantized_tensors ≡ none
      → Returns A k (fetch st false s k)
  unfolding fetch Returns load_step
  fetch-exact s A k e h eq plain =
      let s1 = at_entry st load_step s k in
      let h1 : Refines st s1 A = at_entry-Refines st load_step s A k (load_step-Refines st) h in
      let off : OffDisk s1 k =
        subst (λ o. OffDisk (on_entry st load_step s k o) k) (sym eq)
          (load_step-OffDisk s A k e h eq plain) in
      let (s2, e2, value) = decompress-exact s1 A k h1 off in
      let same = unmoved s2 k (lookup st k s2.entries) in
      (
        at_entry st (move_to_device st false) s2 k,
        ap
              (λ r. r >>= λ s2.
                let s3 = at_entry st (move_to_device st false) s2 k in
                ok (tensors_of st (lookup st k s3.entries), s3))
              e2
            ∙ ap (λ v. ok (v, at_entry st (move_to_device st false) s2 k))
                (ap (λ s3. tensors_of st (lookup st k s3.entries)) same ∙ value),
      )

  held-exact :
      (s : KvCacheManager st) (A : ℕ → Option Tensors) (now k : ℕ) (e : KvEntry st)
      → Refines st s A
      → lookup st k s.entries ≡ some e
      → s.has_device ≡ false
      → (o : Option st.Quantized) → e.quantized_tensors ≡ o
      → Returns A k (get_held st (touch st s now k e) k false o)
  unfolding Returns touch
  held-exact s A now k e h eq cpu (some q) eq' = (
    touch st s now k e,
    ap (λ v. ok (v, touch st s now k e)) (quantised_value st s A k e q h eq eq'),
  )
  held-exact s A now k e h eq cpu none eq' =
      let e' = record e { last_access = now } in
      subst (λ d. Returns A k (fetch st d (touch st s now k e) k)) (sym cpu)
        (fetch-exact (touch st s now k e) A k e' (touch-Refines st now s A k e h eq)
          (lookup-insert_self st k s.entries e') eq')

  -- From a manager that implements the map `A`, where no device is given to the call or to the
  -- manager, `get` returns exactly `A`'s tensors of the layer, from whichever tier they are in.
  pub get_layer-exact :
      (s : KvCacheManager st) (A : ℕ → Option Tensors) (now k : ℕ)
      → Refines st s A
      → s.has_device ≡ false
      → (s' : KvCacheManager st) × (get_layer st s now k false ≡ ok (A k, s'))
  unfolding get_layer Returns
  get_layer-exact s A now k h cpu = from (lookup st k s.entries) refl
    where
      from :
          (o : Option (KvEntry st))
          → lookup st k s.entries ≡ o
          → Returns A k (get_from st s now k false o)
      from none eq =
          (s, ap (λ v. ok (v, s)) (sym (subst (λ o. Kept st (s.files k) o (A k)) eq (h.kept k)).0))
      from (some e) eq = held-exact s A now k e h eq cpu e.quantized_tensors refl
