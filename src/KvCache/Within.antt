-- ===== src/KvCache/Within.antt =====
-- The device budget of src/swlp/core/kv_cache.py: what `_enforce_device_budget` leaves on the device.
use swlp.Prelude.{
  ℕ, ◌≤◌, ◌≡◌, ◌≢◌, refl, sym, ap, subst, ◌∙◌, Bool, true, false, not, ◌||◌, inl, inr, Option, none,
  some, List, [], ◌∷◌, arith, leb, if-all, ℕ_discrete,
}
use swlp.KvCache.Backend.{Storage}
use swlp.KvCache.{
  Location, device, host, compressed, disk, same_location, KvEntry, KvCacheManager, lookup, insert,
  usage_of, replace, record_snapshot, on_entry, at_entry,
}
use swlp.KvCache.Tiers.{offloaded, offload_to_host}
use swlp.KvCache.Budget.{sorted, keys, device_loop, enforce_device_budget}
use swlp.KvCache.Maintained.{enforce_device_budget-Refines}
use swlp.KvCache.Accounting.{lookup-insert_self, lookup-insert_ne}
use swlp.KvCache.Kept.{
  Holds, empty, held, packed_in, spilled, quantised, Refines, lookup-Holds, at_entry-Refines,
  offload_to_host-Refines,
}
use swlp.KvCache.Listed.{
  In, host_device, same_location-true, same_location-false, Distinct, insert-Distinct, sorted-In,
  usage_of_away,
}

module _ (st : Storage) where
  device_tensors :
      (file : Option st.Bytes) (e : KvEntry st) (o : Option st.Tensors)
      → Holds st file e o
      → e.location ≡ device
      → e.tensors ≢ none
  device_tensors file e o (empty a b c d l p f) at_device gone = host_device (sym l ∙ at_device)
  device_tensors file e o (held t a b c l p f) at_device gone =
      let clash : some t ≡ none = sym b ∙ gone in absurd (ground arith)
  device_tensors file e o (packed_in t a b c d l p f) at_device gone =
      let clash : compressed ≡ device = sym l ∙ at_device in absurd (ground arith)
  device_tensors file e o (spilled t raw a b c l p f h) at_device gone =
      let clash : disk ≡ device = sym l ∙ at_device in absurd (ground arith)
  device_tensors file e o (quantised q a b c l p f) at_device gone = host_device (sym l ∙ at_device)

  -- After one round: an entry that is on the device was there before, and is not the one of `k`.
  record Offloaded (s s' : KvCacheManager st) (k : ℕ) : Type 0 where
    distinct : Distinct st s'.entries
    same_budget : s'.device_budget_bytes ≡ s.device_budget_bytes
    remaining :
        (j : ℕ) (e : KvEntry st)
        → lookup st j s'.entries ≡ some e
        → e.location ≡ device
        → (j ≢ k)
          × (old : KvEntry st) × (lookup st j s.entries ≡ some old)
          × (old.location ≡ device)

  unchanged-Offloaded :
      (s : KvCacheManager st) (k : ℕ)
      → Distinct st s.entries
      → ((e : KvEntry st) → lookup st k s.entries ≡ some e → e.location ≢ device)
      → Offloaded s s k
  unchanged-Offloaded s k d away = record {
    distinct = d;
    same_budget = refl;
    remaining = λ j e h at_device. (
      λ same. away e (ap (λ i. lookup st i s.entries) (sym same) ∙ h) at_device,
      e,
      h,
      at_device,
    );
  }

  moved-Offloaded :
      (s : KvCacheManager st) (k : ℕ) (old : KvEntry st) (t : st.Tensors)
      → Distinct st s.entries
      → lookup st k s.entries ≡ some old
      → Offloaded s (offloaded st s k old true (some t)) k
  unfolding replace
  moved-Offloaded s k old t d h =
      let new : KvEntry st = record old { location = host } in
      record {
        distinct = insert-Distinct st k s.entries old new h d;
        same_budget = refl;
        remaining = λ j e found at_device. elim (ℕ_discrete k j) [
          | yes same ↦
              let mine : some new ≡ some e =
                sym (lookup-insert_self st k s.entries new)
                ∙ (ap (λ i. lookup st i (insert st k new s.entries)) same ∙ found) in
              let on_host : host ≡ e.location = ap (location_or_host) mine in
              absurd (host_device (on_host ∙ at_device))
          | no apart ↦ (
            λ e. apart (sym e),
            e,
            sym (lookup-insert_ne st k j s.entries new apart) ∙ found,
            at_device,
          )
        ];
      }
    where
      location_or_host : Option (KvEntry st) → Location
      location_or_host none = host
      location_or_host (some e) = e.location

  offload_case :
      (s : KvCacheManager st) (k : ℕ) (old : KvEntry st) (b : Bool) (o : Option st.Tensors)
      → Distinct st s.entries
      → lookup st k s.entries ≡ some old
      → (b ≡ true → o ≢ none)
      → (b ≡ false → old.location ≢ device)
      → Offloaded s (offloaded st s k old b o) k
  offload_case s k old true (some t) d h there away = moved-Offloaded s k old t d h
  offload_case s k old true none d h there away = absurd (there refl refl)
  offload_case s k old false o d h there away =
      unchanged-Offloaded s k d
        (λ e found at_device. away refl (ap location_or (sym h ∙ found) ∙ at_device))
    where
      location_or : Option (KvEntry st) → Location
      location_or none = device
      location_or (some e) = e.location

  offload-Offloaded :
      (s : KvCacheManager st) (A : ℕ → Option st.Tensors) (k : ℕ) (o : Option (KvEntry st))
      → Refines st s A
      → Distinct st s.entries
      → lookup st k s.entries ≡ o
      → Offloaded s (on_entry st (offload_to_host st) s k o) k
  unfolding offload_to_host
  offload-Offloaded s A k none h d e =
      unchanged-Offloaded s k d
        (λ f found. let clash : none ≡ some f = sym e ∙ found in absurd (ground arith))
  offload-Offloaded s A k (some old) h d e =
      offload_case s k old (same_location old.location device) old.tensors d e
        (λ t.
          device_tensors (s.files k) old (A k) (lookup-Holds st s A k old h e)
            (same_location-true old.location t))
        (λ f. same_location-false old.location f)

  device_loop_away :
      (s : KvCacheManager st) (A : ℕ → Option st.Tensors) (ks : List ℕ)
      → Refines st s A
      → Distinct st s.entries
      → ((j : ℕ) (e : KvEntry st) → lookup st j s.entries ≡ some e → e.location ≡ device → In j ks)
      → (device_loop st s ks).usage.on_device ≤ s.device_budget_bytes
  unfolding device_loop
  device_loop_away s A [] h d left =
      let none_left : s.usage.on_device ≡ 0 =
        ap (λ u. u.on_device) h.accounted
        ∙ usage_of_away st s.entries d (λ j e found at_device.
          let clash : false ≡ true = left j e found at_device in absurd (ground arith)) in
      omega arith
  device_loop_away s A (k ∷ ks) h d left =
      let next = at_entry st (offload_to_host st) s k in
      let round = offload-Offloaded s A k (lookup st k s.entries) h d refl in
      if-all (λ (r : KvCacheManager st). r.usage.on_device ≤ s.device_budget_bytes)
        (leb s.usage.on_device s.device_budget_bytes) s (device_loop st next ks) (λ t. ground arith)
        (λ f.
          subst (λ b. (device_loop st next ks).usage.on_device ≤ b) round.same_budget
            (device_loop_away next A ks
              (at_entry-Refines st (offload_to_host st) s A k (offload_to_host-Refines st) h)
              round.distinct
              (λ j e found at_device.
                let (apart, old, before, was) = round.remaining j e found at_device in
                elim (left j old before was) [
                  | inl here ↦ absurd (apart here)
                  | inr later ↦ later
                ])))

  -- With tiering, in a manager that implements a map and has one entry for each layer: after the
  -- device budget is enforced, the bytes that the manager counts on the device are within the budget,
  -- and they are those of its entries on the device.
  pub enforce_device_budget_within :
      (s : KvCacheManager st) (A : ℕ → Option st.Tensors)
      → Refines st s A
      → Distinct st s.entries
      → s.tiering ≡ true
      → ((enforce_device_budget st s).usage.on_device ≤ s.device_budget_bytes)
        × ((enforce_device_budget st s).usage ≡ usage_of st (enforce_device_budget st s).entries)
  unfolding enforce_device_budget record_snapshot
  enforce_device_budget_within s A h d tiers = (
    if-all (λ (r : KvCacheManager st). r.usage.on_device ≤ s.device_budget_bytes)
        (leb s.usage.on_device s.device_budget_bytes || not s.tiering) s
        (record_snapshot st (device_loop st s (keys st (sorted st s.entries)))) (λ t. ground arith)
        (λ f.
          device_loop_away s A (keys st (sorted st s.entries)) h d
            (λ j e found at_device. sorted-In st s.entries j e found)),
    (enforce_device_budget-Refines st s A h).accounted,
  )
