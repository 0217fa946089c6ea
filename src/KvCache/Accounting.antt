-- ===== src/KvCache/Accounting.antt =====
-- The byte counters of src/swlp/core/kv_cache.py are the sums over the entries, and what an
-- insertion does to the entries and to the sums.
use swlp.Prelude.{
  ℕ, ◌≡◌, ◌≢◌, refl, sym, ap, ◌∙◌, none, some, List, [], ◌∷◌, arith, ◌==◌, Bool-cases, inl, inr,
}
use swlp.KvCache.Backend.{Storage}
use swlp.KvCache.{
  Location, device, host, compressed, disk, Usage, KvEntry, lookup, insert, add_bytes, remove_bytes,
  add_usage, remove_usage, usage_of,
}

module _ (st : Storage) where
  add_bytes_comm :
      (l l' : Location) (n n' : ℕ) (u : Usage)
      → add_bytes st l n (add_bytes st l' n' u) ≡ add_bytes st l' n' (add_bytes st l n u)
  add_bytes_comm device device n n' u = ap (λ x. record u { on_device = x }) (omega arith)
  add_bytes_comm device host n n' u = refl
  add_bytes_comm device compressed n n' u = refl
  add_bytes_comm device disk n n' u = refl
  add_bytes_comm host device n n' u = refl
  add_bytes_comm host host n n' u = ap (λ x. record u { on_host = x }) (omega arith)
  add_bytes_comm host compressed n n' u = refl
  add_bytes_comm host disk n n' u = refl
  add_bytes_comm compressed device n n' u = refl
  add_bytes_comm compressed host n n' u = refl
  add_bytes_comm compressed compressed n n' u =
      ap (λ x. record u { in_compressed = x }) (omega arith)
  add_bytes_comm compressed disk n n' u = refl
  add_bytes_comm disk device n n' u = refl
  add_bytes_comm disk host n n' u = refl
  add_bytes_comm disk compressed n n' u = refl
  add_bytes_comm disk disk n n' u = ap (λ x. record u { on_disk = x }) (omega arith)

  remove_bytes-add_bytes :
      (l : Location) (n : ℕ) (u : Usage) → remove_bytes st l n (add_bytes st l n u) ≡ u
  remove_bytes-add_bytes device n u = ap (λ x. record u { on_device = x }) (omega arith)
  remove_bytes-add_bytes host n u = ap (λ x. record u { on_host = x }) (omega arith)
  remove_bytes-add_bytes compressed n u = ap (λ x. record u { in_compressed = x }) (omega arith)
  remove_bytes-add_bytes disk n u = ap (λ x. record u { on_disk = x }) (omega arith)

  add_usage_comm :
      (e f : KvEntry st) (u : Usage)
      → add_usage st e (add_usage st f u) ≡ add_usage st f (add_usage st e u)
  add_usage_comm e f u = add_bytes_comm e.location f.location _ _ u

  -- The entries but one: what the counters are without it.
  usage_split :
      (k : ℕ) (es : List (ℕ × KvEntry st)) (old new : KvEntry st)
      → lookup st k es ≡ some old
      → (w : Usage) × (usage_of st es ≡ add_usage st old w)
        × (usage_of st (insert st k new es) ≡ add_usage st new w)
  usage_split k [] old new h = ground arith
  usage_split k ((j, f) ∷ es) old new h = elim (Bool-cases (j == k)) [
    | inl same ↦
        let e : f ≡ old = ground arith in
        (usage_of st es, ap (λ g. add_usage st g (usage_of st es)) e, rw same refl)
    | inr other ↦
        let h' : lookup st k es ≡ some old = ground arith in
        let (w, e, e') = usage_split k es old new h' in
        (
          add_usage st f w,
          ap (add_usage st f) e ∙ add_usage_comm f old w,
          rw other (ap (add_usage st f) e' ∙ add_usage_comm f new w),
        )
  ]

  pub usage_of-insert :
      (k : ℕ) (es : List (ℕ × KvEntry st)) (old new : KvEntry st)
      → lookup st k es ≡ some old
      → add_usage st new (remove_usage st old (usage_of st es)) ≡ usage_of st (insert st k new es)
  usage_of-insert k es old new h =
      let (w, e, e') = usage_split k es old new h in
      ap (λ u. add_usage st new (remove_usage st old u)) e
      ∙ ap (add_usage st new) (remove_bytes-add_bytes old.location _ w)
      ∙ sym e'

  pub usage_of-insert_new :
      (k : ℕ) (es : List (ℕ × KvEntry st)) (new : KvEntry st)
      → lookup st k es ≡ none
      → usage_of st (insert st k new es) ≡ add_usage st new (usage_of st es)
  usage_of-insert_new k [] new h = refl
  usage_of-insert_new k ((j, f) ∷ es) new h = elim (Bool-cases (j == k)) [
    | inl same ↦ ground arith
    | inr other ↦
        let h' : lookup st k es ≡ none = ground arith in
        rw other (
          ap (add_usage st f) (usage_of-insert_new k es new h')
          ∙ add_usage_comm f new (usage_of st es))
  ]

  pub lookup-insert_self :
      (k : ℕ) (es : List (ℕ × KvEntry st)) (e : KvEntry st)
      → lookup st k (insert st k e es) ≡ some e
  lookup-insert_self k [] e = ground arith
  lookup-insert_self k ((j, f) ∷ es) e = ground (arith, lookup-insert_self k es e)

  pub lookup-insert_ne :
      (k j : ℕ) (es : List (ℕ × KvEntry st)) (e : KvEntry st)
      → k ≢ j
      → lookup st j (insert st k e es) ≡ lookup st j es
  lookup-insert_ne k j [] e ne = ground arith
  lookup-insert_ne k j ((i, f) ∷ es) e ne = ground (arith, lookup-insert_ne k j es e ne)

  -- A change that the counters do not see.
  pub usage_of-insert_same :
      (k : ℕ) (es : List (ℕ × KvEntry st)) (old new : KvEntry st)
      → lookup st k es ≡ some old
      → ((w : Usage) → add_usage st new w ≡ add_usage st old w)
      → usage_of st (insert st k new es) ≡ usage_of st es
  usage_of-insert_same k es old new h same =
      let (w, e, e') = usage_split k es old new h in e' ∙ same w ∙ sym e
