-- ===== src/KvCache/Listed.antt =====
-- The layers of src/swlp/core/kv_cache.py as a list of entries: each layer once, the order in which the
-- budgets take them, and the bytes of those on the device.
use swlp.Prelude.{
  ℕ, ◌≡◌, ◌≢◌, refl, sym, ap, ◌∙◌, true, false, ◌⊎◌, inl, inr, none, some, List, [], ◌∷◌, arith,
  ◌==◌, leb, if◌then◌else◌, if-all, ==_iff, ==_false, Bool-cases,
}
use swlp.KvCache.Backend.{Storage}
use swlp.KvCache.{
  Location, device, host, compressed, disk, same_location, Usage, KvEntry, lookup, insert,
  add_bytes, usage_of,
}
use swlp.KvCache.Budget.{place, sorted, keys}
use swlp.KvCache.Accounting.{lookup-insert_ne}

abbrev pub In : ℕ → List ℕ → Type 0
In j [] = false ≡ true
In j (k ∷ ks) = (j ≡ k) ⊎ In j ks

pub host_device : host ≢ device
host_device e = absurd (ground arith)

pub same_location-true : (l : Location) → same_location l device ≡ true → l ≡ device
same_location-true device h = refl
same_location-true host h = absurd (ground arith)
same_location-true compressed h = absurd (ground arith)
same_location-true disk h = absurd (ground arith)

pub same_location-false : (l : Location) → same_location l device ≡ false → l ≢ device
same_location-false l h e =
    let clash : true ≡ false = sym (ap (λ x. same_location x device) e) ∙ h in absurd (ground arith)

module _ (st : Storage) where
  -- No layer has two entries.
  abbrev pub Distinct : List (ℕ × KvEntry st) → Type 0
  Distinct [] = Unit
  Distinct ((j, e) ∷ es) = (lookup st j es ≡ none) × Distinct es

  pub insert-Distinct :
      (k : ℕ) (es : List (ℕ × KvEntry st)) (old new : KvEntry st)
      → lookup st k es ≡ some old
      → Distinct es
      → Distinct (insert st k new es)
  insert-Distinct k [] old new h d = absurd (ground arith)
  insert-Distinct k ((j, f) ∷ es) old new h (alone, d) = elim (Bool-cases (j == k)) [
    | inl same ↦ rw same (alone, d)
    | inr other ↦
        let apart = ==_false j k other in
        let h' : lookup st k es ≡ some old = ground arith in
        rw other (
          lookup-insert_ne st k j es new (λ e. apart (sym e)) ∙ alone,
          insert-Distinct k es old new h' d,
        )
  ]

  -- Every entry is one of the sorted ones.
  place-In :
      (k j : ℕ) (e : KvEntry st) (es : List (ℕ × KvEntry st))
      → (j ≡ k) ⊎ In j (keys st es)
      → In j (keys st (place st k e es))
  place-In k j e [] h = h
  place-In k j e ((i, f) ∷ es) h =
      if-all (λ (q : List (ℕ × KvEntry st)). In j (keys st q)) (leb e.last_access f.last_access)
        ((k, e) ∷ (i, f) ∷ es) ((i, f) ∷ place st k e es) (λ t. h)
        (λ t. elim h [
          | inl here ↦ inr (place-In k j e es (inl here))
          | inr (inl there) ↦ inl there
          | inr (inr later) ↦ inr (place-In k j e es (inr later))
        ])

  pub sorted-In :
      (es : List (ℕ × KvEntry st)) (j : ℕ) (e : KvEntry st)
      → lookup st j es ≡ some e
      → In j (keys st (sorted st es))
  sorted-In [] j e h = absurd (ground arith)
  sorted-In ((k, f) ∷ es) j e h = elim (Bool-cases (k == j)) [
    | inl same ↦ place-In k j f (sorted st es) (inl (sym ((==_iff k j).0 same)))
    | inr other ↦
        let h' : lookup st j es ≡ some e = ground arith in
        place-In k j f (sorted st es) (inr (sorted-In es j e h'))
  ]

  add_bytes_away :
      (l : Location) (n : ℕ) (u : Usage) → l ≢ device → (add_bytes st l n u).on_device ≡ u.on_device
  add_bytes_away device n u away = absurd (away refl)
  add_bytes_away host n u away = refl
  add_bytes_away compressed n u away = refl
  add_bytes_away disk n u away = refl

  lookup_here :
      (j : ℕ) (f : KvEntry st) (es : List (ℕ × KvEntry st)) → lookup st j ((j, f) ∷ es) ≡ some f
  lookup_here j f es = ap (λ b. if b then some f else lookup st j es) ((==_iff j j).1 refl)

  lookup_later :
      (j k : ℕ) (f e : KvEntry st) (es : List (ℕ × KvEntry st))
      → lookup st j es ≡ none
      → lookup st k es ≡ some e
      → lookup st k ((j, f) ∷ es) ≡ some e
  lookup_later j k f e es alone h = elim (Bool-cases (j == k)) [
    | inl same ↦
        let clash : none ≡ some e =
          sym alone ∙ (ap (λ i. lookup st i es) ((==_iff j k).0 same) ∙ h) in
        absurd (ground arith)
    | inr other ↦ ap (λ b. if b then some f else lookup st k es) other ∙ h
  ]

  pub usage_of_away :
      (es : List (ℕ × KvEntry st))
      → Distinct es
      → ((j : ℕ) (e : KvEntry st) → lookup st j es ≡ some e → e.location ≢ device)
      → (usage_of st es).on_device ≡ 0
  usage_of_away [] d away = refl
  usage_of_away ((j, f) ∷ es) (alone, d) away =
      add_bytes_away f.location _ (usage_of st es) (away j f (lookup_here j f es))
      ∙ usage_of_away es d (λ k e h. away k e (lookup_later j k f e es alone h))
