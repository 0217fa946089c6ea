-- ===== src/KvCache/Refinement.antt =====
-- The entry that `set` of src/swlp/core/kv_cache.py makes, and its store in a manager that implements a
-- map from layers to tensors.
use swlp.Prelude.{
  ℕ, ◌≡◌, ◌≢◌, refl, sym, ap, ap₂, subst, ◌∙◌, Bool, true, false, ◌&&◌, ◌⊎◌, inl, inr, Option, none,
  some, List, arith, ◌==◌, if◌then◌else◌, ℕ_discrete,
}
use swlp.KvCache.Backend.{Storage}
use swlp.KvCache.{
  disk, same_location, KvEntry, KvCacheManager, lookup, insert, add_usage, replace, set_file,
}
use swlp.KvCache.Access.{windowed, quantized_entry, fresh_entry, store}
use swlp.KvCache.Accounting.{usage_of-insert_new, lookup-insert_self, lookup-insert_ne}
use swlp.KvCache.Kept.{
  Holds, empty, held, packed_in, spilled, quantised, Kept, Refines, lookup-Holds, change,
}

module _ (st : Storage) where
  open st use {Tensors, Bytes}

  -- What a store of `o` makes of it, and its bytes: the window, and the loss of INT4.
  abbrev pub Stored : Bool → ℕ → Option Tensors → Option Tensors → ℕ → Type 0
  Stored int4 kv_window none v n = (v ≡ none) × (n ≡ 0)
  Stored true kv_window (some t) v n =
      (q : st.Quantized) × (st.quantize (windowed st kv_window t) ≡ some q)
      × (v ≡ some (st.dequantize q))
      × (n ≡ st.quantized_size q)
  Stored false kv_window (some t) v n =
      (v ≡ some (windowed st kv_window t)) × (n ≡ st.size (windowed st kv_window t))

  -- The tensors that INT4 refuses.
  abbrev pub Refuses : Bool → ℕ → Option Tensors → Type 0
  Refuses int4 kv_window o =
      (t : Tensors) × (int4 ≡ true) × (o ≡ some t) × (st.quantize (windowed st kv_window t) ≡ none)

  abbrev pub update : (ℕ → Option Tensors) → ℕ → Option Tensors → ℕ → Option Tensors
  update A k v j = if k == j then v else A j

  pub update_here : (A : ℕ → Option Tensors) (k : ℕ) (v : Option Tensors) → update A k v k ≡ v
  update_here A k v = ground arith

  pub update_apart :
      (A : ℕ → Option Tensors) (k j : ℕ) (v : Option Tensors) → k ≢ j → A j ≡ update A k v j
  update_apart A k j v ne = ground arith

  abbrev pub Fresh : Bool → ℕ → Option Tensors → Option (KvEntry st) → Type 0
  Fresh int4 kv_window o none = Refuses int4 kv_window o
  Fresh int4 kv_window o (some e) =
      (v : Option Tensors) × Stored int4 kv_window o v e.uncompressed_bytes × Holds st none e v

  quantized_entry-Fresh :
      (kv_window now : ℕ) (t : Tensors) (q : Option st.Quantized)
      → st.quantize (windowed st kv_window t) ≡ q
      → Fresh true kv_window (some t) (quantized_entry st now q)
  quantized_entry-Fresh kv_window now t none e = (t, refl, refl, e)
  quantized_entry-Fresh kv_window now t (some q) e =
      (some (st.dequantize q), (q, e, refl, refl), quantised q refl refl refl refl refl refl)

  pub fresh_entry-Fresh :
      (int4 : Bool) (kv_window now : ℕ) (on_device : Bool) (o : Option Tensors)
      → Fresh int4 kv_window o (fresh_entry st int4 kv_window now on_device o)
  fresh_entry-Fresh int4 kv_window now on_device none =
      (none, (refl, refl), empty refl refl refl refl refl refl refl)
  fresh_entry-Fresh true kv_window now on_device (some t) =
      quantized_entry-Fresh kv_window now t (st.quantize (windowed st kv_window t)) refl
  fresh_entry-Fresh false kv_window now true (some t) =
      let u = windowed st kv_window t in
      (some u, (refl, refl), held u refl refl refl (inl refl) refl refl)
  fresh_entry-Fresh false kv_window now false (some t) =
      let u = windowed st kv_window t in
      (some u, (refl, refl), held u refl refl refl (inr refl) refl refl)

  -- A file is there for the entries on disk only.
  no_file :
      (file : Option Bytes) (e : KvEntry st) (o : Option Tensors)
      → Holds st file e o
      → (e.location ≡ disk) × (e.has_path ≡ true) ⊎ (file ≡ none)
  no_file file e o (empty _ _ _ _ _ _ ef) = inr ef
  no_file file e o (held _ _ _ _ _ _ ef) = inr ef
  no_file file e o (packed_in _ _ _ _ _ _ _ ef) = inr ef
  no_file file e o (spilled _ _ _ _ _ el eh _ _) = inl (el, eh)
  no_file file e o (quantised _ _ _ _ _ _ ef) = inr ef

  -- The file of a layer that is overwritten is gone.
  file_cleared :
      (s : KvCacheManager st) (k : ℕ) (b : Bool)
      → (b ≡ true) ⊎ (s.files k ≡ none)
      → (if b then set_file st s k none else s).files k ≡ none
  file_cleared s k true h = ground arith
  file_cleared s k false (inl h) = ground arith
  file_cleared s k false (inr h) = h

  files_elsewhere :
      (s : KvCacheManager st) (k j : ℕ) (b : Bool)
      → k ≢ j
      → s.files j ≡ (if b then set_file st s k none else s).files j
  files_elsewhere s k j true ne = ground arith
  files_elsewhere s k j false ne = refl

  pub store-Refines :
      (s : KvCacheManager st) (A : ℕ → Option Tensors) (k : ℕ) (e : KvEntry st) (v : Option Tensors)
      → Refines st s A
      → Holds st none e v
      → (o : Option (KvEntry st)) → lookup st k s.entries ≡ o
      → Refines st (store st s k e o) (update A k v)
  unfolding replace
  store-Refines s A k e v h holds none eq = record {
    accounted = ap (add_usage st e) h.accounted ∙ sym (usage_of-insert_new st k s.entries e eq);
    kept = λ j. elim (ℕ_discrete k j) [
      | yes same ↦
          subst (λ i. Kept st (s.files i) (lookup st i (insert st k e s.entries)) (update A k v i))
            same
            (subst (λ o. Kept st (s.files k) o (update A k v k))
              (sym (lookup-insert_self st k s.entries e))
              (subst (λ f. Holds st f e (update A k v k)) (sym file)
                (subst (Holds st none e) (sym (update_here A k v)) holds)))
      | no ne ↦
          subst (λ o. Kept st (s.files j) o (update A k v j))
            (sym (lookup-insert_ne st k j s.entries e ne))
            (subst (Kept st (s.files j) (lookup st j s.entries)) (update_apart A k j v ne)
              (h.kept j))
    ];
  }
    where
      file : s.files k ≡ none
      file = (subst (λ o. Kept st (s.files k) o (A k)) eq (h.kept k)).1
  store-Refines s A k e v h holds (some prev) eq = by_test s.entries
    where
      b : Bool
      b = same_location prev.location disk && prev.has_path

      cleared : (if b then set_file st s k none else s).files k ≡ none
      cleared =
          file_cleared s k b
            (elim (no_file (s.files k) prev (A k) (lookup-Holds st s A k prev h eq)) [
              | inl (el, eh) ↦ inl (ap₂ (λ l p. same_location l disk && p) el eh)
              | inr ef ↦ inr ef
            ])

      same_books :
          (c : Bool)
          → Refines st (record (if c then set_file st s k none else s) { files = s.files }) A
      same_books true = h
      same_books false = h

      entries_same : (c : Bool) → (if c then set_file st s k none else s).entries ≡ s.entries
      entries_same true = refl
      entries_same false = refl

      by_test : List (ℕ × KvEntry st) → Refines st (store st s k e (some prev)) (update A k v)
      by_test es =
          let s' = if b then set_file st s k none else s in
          change st s'.entries s'.usage s.files s'.files A (update A k v) k prev e (same_books b)
            (ap (lookup st k) (entries_same b) ∙ eq)
            (subst (λ f. Holds st f e (update A k v k)) (sym cleared)
              (subst (Holds st none e) (sym (update_here A k v)) holds))
            (λ j ne. (files_elsewhere s k j b ne, update_apart A k j v ne))
