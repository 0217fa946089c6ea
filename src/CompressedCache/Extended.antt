-- ===== src/CompressedCache/Extended.antt =====
-- `update` of src/swlp/core/compressed_cache.py on a warm and on a cold layer.
use swlp.Prelude.{
  ℕ, ◌≡◌, refl, sym, ap, subst, ◌∙◌, ◌⊎◌, inl, inr, Bool, true, false, Option, none, some, Result,
  ok, if◌then◌else◌, put, if-all, arith, ==_iff, ◌==◌,
}
use swlp.KvCache.Backend.{Storage}
use swlp.KvCache.{KvCacheManager}
use swlp.KvCache.Tiers.{KvError}
use swlp.KvCache.Access.{get_layer}
use swlp.KvCache.Refinement.{update_here}
use swlp.KvCache.Read.{Answers, get_layer-Answers}
use swlp.CompressedCache.{
  CompressedDynamicCache, restored, decompress_if, decompress, extended, update,
}
use swlp.CompressedCache.Restored.{
  StandsFor, with_layer, changed-StandsFor, same-StandsFor, restored-Warmed,
}

module _ (st : Storage) (cat : Option st.Tensors → st.Tensors → st.Tensors) where
  open st use {Tensors}

  -- The map after new positions of layer `i`.
  abbrev pub with_new : (ℕ → Option Tensors) → ℕ → Tensors → ℕ → Option Tensors
  with_new B i x = with_layer st B i (some (cat (B i) x))

  extended-StandsFor :
      (c : CompressedDynamicCache st) (B : ℕ → Option Tensors) (i : ℕ) (x : Tensors)
      → (c.layers i).cold ≡ false
      → StandsFor st c B
      → (c' : CompressedDynamicCache st) × (extended st cat i x (ok c) ≡ ok c')
        × StandsFor st c' (with_new B i x)
  extended-StandsFor c B i x warm h =
      let l = record (c.layers i) { keys = some (cat (c.layers i).keys x) } in
      let same : (c.layers i).keys ≡ B i =
        sym (ap (λ b. if b then h.kept i else (c.layers i).keys) warm) ∙ h.stands i in
      (
        record c { layers = put c.layers i l },
        refl,
        changed-StandsFor st c B h.kept i l c.kv_manager (some (cat (B i) x)) h.refines
            (ap (λ b. if b then h.kept i else some (cat (c.layers i).keys x)) warm
              ∙ ap (λ o. some (cat o x)) same
              ∙ sym (update_here st B i (some (cat (B i) x))))
            (λ cold. absurd (let clash : false ≡ true = sym warm ∙ cold in ground arith))
            (λ j differ. h.stands j) h,
      )

  -- The result of an update: the layer is extended, or it is extended after its past is lost, because
  -- the manager has answered with nothing for the cold layer.
  abbrev pub Updates :
      (ℕ → Option Tensors)
      → ℕ
      → ℕ
      → Tensors
      → CompressedDynamicCache st
      → Result (KvError st) (CompressedDynamicCache st)
      → Type 0
  Updates B now i x c r =
      (c' : CompressedDynamicCache st) × (r ≡ ok c')
      × (StandsFor st c' (with_new B i x)
          ⊎ (((c.layers i).cold ≡ true)
              × ((s : KvCacheManager st) × (get_layer st c.kv_manager now i true ≡ ok (none, s)))
              × StandsFor st c' (with_new (with_layer st B i none) i x)))

  update_absorbs :
      (B : ℕ → Option Tensors) (i : ℕ) (v : Option Tensors)
      → v ≡ B i
      → (j : ℕ) → with_layer st B i v j ≡ B j
  update_absorbs B i v same j =
      if-all (λ o. o ≡ B j) (i == j) v (B j) (λ here. same ∙ ap B ((==_iff i j).0 here))
        (λ there. refl)

  answered-Updates :
      (c : CompressedDynamicCache st) (B : ℕ → Option Tensors) (now i : ℕ) (x : Tensors)
      → (c.layers i).cold ≡ true
      → (h : StandsFor st c B) → (r : Result (KvError st) (Option Tensors × KvCacheManager st))
      → get_layer st c.kv_manager now i true ≡ r
      → Answers st h.kept i r
      → Updates B now i x c (extended st cat i x (restored st c i r))
  answered-Updates c B now i x cold h r answer (v, s, e, ref, right) =
      let (c1, done, w) = restored-Warmed st c B h.kept i v s cold ref h.stands h in
      let kept_here : h.kept i ≡ B i =
        sym (ap (λ b. if b then h.kept i else (c.layers i).keys) cold) ∙ h.stands i in
      let same =
        ap (λ q. extended st cat i x (restored st c i q)) e ∙ ap (extended st cat i x) done in
      elim right [
        | inl exact ↦
            let stands1 =
              same-StandsFor st c1 (with_layer st B i v) B
                (update_absorbs B i v (exact ∙ kept_here)) w.stands_for in
            let (c2, ended, final) = extended-StandsFor c1 B i x w.warmed stands1 in
            (c2, same ∙ ended, inl final)
        | inr nothing ↦
            let stands1 = subst (λ o. StandsFor st c1 (with_layer st B i o)) nothing w.stands_for in
            let (c2, ended, final) =
              extended-StandsFor c1 (with_layer st B i none) i x w.warmed stands1 in
            (c2, same ∙ ended, inr (cold, (s, answer ∙ e ∙ ap (λ o. ok (o, s)) nothing), final))
      ]

  update_if-Updates :
      (c : CompressedDynamicCache st) (B : ℕ → Option Tensors) (now i : ℕ) (x : Tensors) (b : Bool)
      → (c.layers i).cold ≡ b
      → StandsFor st c B
      → Updates B now i x c (extended st cat i x (decompress_if st c now i b))
  update_if-Updates c B now i x false warm h =
      let (c', done, final) = extended-StandsFor c B i x warm h in (c', done, inl final)
  update_if-Updates c B now i x true cold h =
      answered-Updates c B now i x cold h (get_layer st c.kv_manager now i true) refl
        (get_layer-Answers st c.kv_manager h.kept now i true h.refines)

  -- Adding positions to a layer never fails. A warm layer is extended. A cold one is restored first,
  -- and is then extended too, or it is extended as if it had held nothing: that happens only where the
  -- manager answers `get` with nothing. The other layers stand for what they did.
  pub update-Updates :
      (c : CompressedDynamicCache st) (B : ℕ → Option Tensors) (now i : ℕ) (x : Tensors)
      → StandsFor st c B
      → Updates B now i x c (update st cat c now i x)
  unfolding update decompress
  update-Updates c B now i x h = update_if-Updates c B now i x (c.layers i).cold refl h
