-- ===== src/KvCache/Read.antt =====
-- `get` of src/swlp/core/kv_cache.py raises nothing, keeps the map of layers, and returns the layer's
-- tensors or, after the move to the device, nothing.
use swlp.Prelude.{
  ℕ, ◌+◌, ◌≡◌, refl, sym, ap, subst, ◌∙◌, Bool, not, ◌&&◌, ◌||◌, ◌⊎◌, inl, inr, Option, none, some,
  Result, ok, ◌>>=◌, arith, if◌then◌else◌,
}
use swlp.KvCache.Backend.{Storage}
use swlp.KvCache.{
  Location, device, host, compressed, disk, same_location, KvEntry, KvCacheManager, lookup, counted,
  add_bytes, replace, at_entry,
}
use swlp.KvCache.Tiers.{load_from_disk, KvError}
use swlp.KvCache.Access.{
  touch, moved, move_to_device, tensors_of, decompress_at, fetch, get_held, get_from, get_layer,
}
use swlp.KvCache.Accounting.{usage_of-insert_same}
use swlp.KvCache.Kept.{
  Holds, empty, held, packed_in, spilled, quantised, Kept, Refines, KeepsAt, lookup-Holds, change,
  at_entry-Refines, if-Refines,
}
use swlp.KvCache.Spill.{load_from_disk-Refines, decompress_entry-Refines}
use swlp.KvCache.Maintained.{
  record_snapshot-Refines, enforce_budget-Refines, enforce_device_budget-Refines,
}

module _ (st : Storage) where
  open st use {Tensors, Bytes}

  touched-Holds :
      (now : ℕ) (file : Option Bytes) (e : KvEntry st) (o : Option Tensors)
      → Holds st file e o
      → Holds st file (record e { last_access = now }) o
  touched-Holds now file e o (empty a b c d l p f) = empty a b c d l p f
  touched-Holds now file e o (held t a b c l p f) = held t a b c l p f
  touched-Holds now file e o (packed_in t a b c d l p f) = packed_in t a b c d l p f
  touched-Holds now file e o (spilled t raw a b c l p f r) = spilled t raw a b c l p f r
  touched-Holds now file e o (quantised q a b c l p f) = quantised q a b c l p f

  touched_counted :
      (now : ℕ) (l : Location) (e : KvEntry st)
      → counted st l (record e { last_access = now }) ≡ counted st l e
  touched_counted now device e = refl
  touched_counted now host e = refl
  touched_counted now compressed e = refl
  touched_counted now disk e = refl

  pub touch-Refines : (now : ℕ) → KeepsAt st (λ s k e. touch st s now k e)
  unfolding touch
  touch-Refines now s A k e h eq =
      let e' = record e { last_access = now } in
      let books =
        change st s.entries s.usage s.files s.files A A k e e' h eq
          (touched-Holds now (s.files k) e (A k) (lookup-Holds st s A k e h eq))
          (λ j ne. (refl, refl)) in
      record {
        accounted =
            h.accounted
            ∙ sym (
                usage_of-insert_same st k s.entries e e' eq
                  (λ w. ap (λ n. add_bytes st e.location n w) (touched_counted now e.location e)));
        kept = books.kept;
      }

  move_to_device-Refines : (desired : Bool) → KeepsAt st (move_to_device st desired)
  unfolding move_to_device replace
  move_to_device-Refines desired s A k e h eq =
      if-Refines st (desired && not (same_location e.location device)) (moved st s k e e.tensors) s
        A (λ c. subst_moved (lookup-Holds st s A k e h eq)) h
    where
      idle : e.tensors ≡ none → Refines st (moved st s k e e.tensors) A
      idle et = subst (λ o. Refines st (moved st s k e o) A) (sym et) h

      subst_moved : Holds st (s.files k) e (A k) → Refines st (moved st s k e e.tensors) A
      subst_moved (empty o et ep eq' el eh ef) = idle et
      subst_moved (packed_in t o et ep eq' el eh ef) = idle et
      subst_moved (spilled t raw o et eq' el eh ef er) = idle et
      subst_moved (quantised q o et eq' el eh ef) = idle et
      subst_moved (held t o et eq' l eh ef) =
          subst (λ o. Refines st (moved st s k e o) A) (sym et)
            (enforce_budget-Refines st _ A (
              enforce_device_budget-Refines st _ A (
                record_snapshot-Refines st
                  (record (replace st s k e (record e { location = device })) {
                    counts = record (s.counts) { moves_to_device = s.counts.moves_to_device + 1 };
                  })
                  A
                  (change st s.entries s.usage s.files s.files A A k e
                    (record e { location = device }) h eq (held t o et eq' (inl refl) eh ef)
                    (λ j ne. (refl, refl))))))

  pub load_step-Refines :
      KeepsAt st (λ s k e. if same_location e.location disk then load_from_disk st s k e else s)
  load_step-Refines s A k e h eq =
      if-Refines st (same_location e.location disk) (load_from_disk st s k e) s A
        (λ c. load_from_disk-Refines st s A k e h eq) h

  decompress_at-Refines :
      (s : KvCacheManager st) (A : ℕ → Option Tensors) (k : ℕ) (o : Option (KvEntry st))
      → Refines st s A
      → lookup st k s.entries ≡ o
      → (s' : KvCacheManager st) × (decompress_at st s k o ≡ ok s') × Refines st s' A
  decompress_at-Refines s A k none h eq = (s, refl, h)
  decompress_at-Refines s A k (some e) h eq = decompress_entry-Refines st s A k e h eq

  -- The tensors at hand are the layer's.
  at_hand :
      (A : ℕ → Option Tensors) (k : ℕ) (file : Option Bytes) (o : Option (KvEntry st))
      → Kept st file o (A k)
      → (tensors_of st o ≡ A k) ⊎ (tensors_of st o ≡ none)
  at_hand A k file none h = inl (sym h.0)
  at_hand A k file (some e) (empty a b _ _ _ _ _) = inr b
  at_hand A k file (some e) (held t a b _ _ _ _) = inl (b ∙ sym a)
  at_hand A k file (some e) (packed_in _ _ b _ _ _ _ _) = inr b
  at_hand A k file (some e) (spilled _ _ _ b _ _ _ _ _) = inr b
  at_hand A k file (some e) (quantised _ _ b _ _ _ _) = inr b

  -- A read returns, implements the same map afterwards, and its answer is the layer's tensors or
  -- nothing.
  abbrev pub Answers :
      (ℕ → Option Tensors) → ℕ → Result (KvError st) (Option Tensors × KvCacheManager st) → Type 0
  Answers A k r =
      (v : Option Tensors) × (s' : KvCacheManager st) × (r ≡ ok (v, s'))
      × Refines st s' A
      × ((v ≡ A k) ⊎ (v ≡ none))

  fetch-Answers :
      (desired : Bool) (s : KvCacheManager st) (A : ℕ → Option Tensors) (k : ℕ)
      → Refines st s A
      → Answers A k (fetch st desired s k)
  unfolding fetch
  fetch-Answers desired s A k h =
      let step = λ (s : KvCacheManager st) (k : ℕ) (e : KvEntry st).
        if same_location e.location disk then load_from_disk st s k e else s in
      let s1 = at_entry st step s k in
      let h1 : Refines st s1 A = at_entry-Refines st step s A k load_step-Refines h in
      let (s2, e2, h2) = decompress_at-Refines s1 A k (lookup st k s1.entries) h1 refl in
      let s3 = at_entry st (move_to_device st desired) s2 k in
      let h3 : Refines st s3 A =
        at_entry-Refines st (move_to_device st desired) s2 A k (move_to_device-Refines desired)
          h2 in
      (
        tensors_of st (lookup st k s3.entries),
        s3,
        ap
            (λ r. r >>= λ s2.
              let s3 = at_entry st (move_to_device st desired) s2 k in
              ok (tensors_of st (lookup st k s3.entries), s3))
            e2,
        h3,
        at_hand A k (s3.files k) (lookup st k s3.entries) (h3.kept k),
      )

  pub quantised_value :
      (s : KvCacheManager st) (A : ℕ → Option Tensors) (k : ℕ) (e : KvEntry st) (q : st.Quantized)
      → Refines st s A
      → lookup st k s.entries ≡ some e
      → e.quantized_tensors ≡ some q
      → some (st.dequantize q) ≡ A k
  quantised_value s A k e q h eq eq' = elim (lookup-Holds st s A k e h eq) [
    | empty _ _ _ c _ _ _ ↦ clash (sym c ∙ eq')
    | held _ _ _ c _ _ _ ↦ clash (sym c ∙ eq')
    | packed_in _ _ _ _ c _ _ _ ↦ clash (sym c ∙ eq')
    | spilled _ _ _ _ c _ _ _ _ ↦ clash (sym c ∙ eq')
    | quantised q' o _ c _ _ _ ↦
        let same : some q' ≡ some q = sym c ∙ eq' in
        sym (ap (λ r. elim r [ none ↦ none | some q ↦ some (st.dequantize q) ]) same) ∙ sym o
  ]
    where
      clash : {P : Type 0} → none ≡ some q → P
      clash c = ground arith

  held-Answers :
      (s : KvCacheManager st) (A : ℕ → Option Tensors) (now k : ℕ) (target : Bool) (e : KvEntry st)
      → Refines st s A
      → lookup st k s.entries ≡ some e
      → (o : Option st.Quantized) → e.quantized_tensors ≡ o
      → Answers A k (get_held st (touch st s now k e) k target o)
  held-Answers s A now k target e h eq (some q) eq' = (
    some (st.dequantize q),
    touch st s now k e,
    refl,
    touch-Refines now s A k e h eq,
    inl (quantised_value s A k e q h eq eq'),
  )
  held-Answers s A now k target e h eq none eq' =
      fetch-Answers (target || (touch st s now k e).has_device) (touch st s now k e) A k
        (touch-Refines now s A k e h eq)

  -- From a manager that implements the map `A`, `get` raises nothing, leaves a manager that
  -- implements `A`, and returns `A`'s tensors of the layer or nothing: never another layer's, an
  -- older or a damaged value.
  pub get_layer-Answers :
      (s : KvCacheManager st) (A : ℕ → Option Tensors) (now k : ℕ) (target : Bool)
      → Refines st s A
      → Answers A k (get_layer st s now k target)
  unfolding get_layer
  get_layer-Answers s A now k target h = from (lookup st k s.entries) refl
    where
      from :
          (o : Option (KvEntry st))
          → lookup st k s.entries ≡ o
          → Answers A k (get_from st s now k target o)
      from none eq =
          (none, s, refl, h, inl (sym (subst (λ o. Kept st (s.files k) o (A k)) eq (h.kept k)).0))
      from (some e) eq = held-Answers s A now k target e h eq e.quantized_tensors refl
