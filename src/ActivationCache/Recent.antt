-- ===== src/ActivationCache/Recent.antt =====
-- The activation cache of src/swlp/core/decode_cache.py is bounded and gives back what was stored last
-- for the first 64 tokens.
use swlp.Prelude.{
  ℕ, ◌≤◌, ◌<◌, ◌≡◌, refl, sym, ap, ◌∙◌, false, none, some, List, [], ◌∷◌, ◌++◌, arith, ◌==◌, ==_iff,
  ltb, if◌then◌else◌, Bool-cases, inl, inr, length, take,
}
use swlp.ActivationCache.{
  ActivationCache, hash_tokens, entry, removed, move_to_end, found, lookup, trim, store,
}

module _ (V : Type 0) (hash : List ℕ → ℕ) where
  length-trim :
      (max_entries : ℕ) (es : List (ℕ × V)) → length (trim V hash max_entries es) ≤ max_entries
  length-trim max_entries [] = omega arith
  length-trim max_entries (e ∷ es) = ground (arith, length-trim max_entries es)

  -- No entry of the key is left, where keys are unique.
  abbrev pub Unique : List (ℕ × V) → Type 0
  Unique [] = 0 ≤ 0
  Unique ((k, v) ∷ es) = (entry V hash k es ≡ none) × Unique es

  entry-removed :
      (key : ℕ) (es : List (ℕ × V)) → Unique es → entry V hash key (removed V hash key es) ≡ none
  entry-removed key [] u = refl
  entry-removed key ((k, v) ∷ es) u = elim (Bool-cases (k == key)) [
    | inl here ↦
        let same : k ≡ key = (==_iff k key).0 here in
        rw here (ap (λ i. entry V hash i es) (sym same) ∙ u.0)
    | inr other ↦ rw other (
        ap (λ b. if b then some v else entry V hash key (removed V hash key es)) other
        ∙ entry-removed key es u.1)
  ]

  entry-snoc :
      (key : ℕ) (v : V) (es : List (ℕ × V))
      → entry V hash key es ≡ none
      → entry V hash key (es ++ (key, v) ∷ []) ≡ some v
  entry-snoc key v [] h = rw ((==_iff key key).1 refl) refl
  entry-snoc key v ((k, w) ∷ es) h = elim (Bool-cases (k == key)) [
    | inl here ↦ absurd (ground arith)
    | inr other ↦
        let h' : entry V hash key es ≡ none = ground arith in rw other (entry-snoc key v es h')
  ]

  -- Trimming keeps the last entry.
  entry-trim :
      (max_entries key : ℕ) (v : V) (es : List (ℕ × V))
      → 0 < max_entries
      → entry V hash key es ≡ none
      → entry V hash key (trim V hash max_entries (es ++ (key, v) ∷ [])) ≡ some v
  entry-trim max_entries key v [] pos h =
      let one : ltb max_entries 1 ≡ false = ground arith in rw (one, (==_iff key key).1 refl) refl
  entry-trim max_entries key v (e ∷ es) pos h =
      elim (Bool-cases (ltb max_entries (length (e ∷ (es ++ (key, v) ∷ []))))) [
        | inl long ↦
            let h' : entry V hash key es ≡ none = ground arith in
            rw long (entry-trim max_entries key v es pos h')
        | inr short ↦ rw short (entry-snoc key v (e ∷ es) h)
      ]

  -- Where the bound is positive and the keys are unique, a store leaves at most `max_entries` entries,
  -- and a lookup then returns what was stored for every prompt with the same first 64 tokens, also
  -- where the prompts differ after them.
  pub lookup-store :
      (c : ActivationCache V hash) (token_ids others : List ℕ) (v : V)
      → 0 < c.max_entries
      → Unique c.cache
      → take 64 token_ids ≡ take 64 others
      → (length (store V hash c token_ids v).cache ≤ c.max_entries)
        × ((lookup V hash (store V hash c token_ids v) others).0
            ≡ some (hash_tokens V hash others, v))
  unfolding store lookup hash_tokens
  lookup-store c token_ids others v pos u same =
      let key = hash (take 64 token_ids) in
      let kept : entry V hash key (trim V hash c.max_entries (move_to_end V hash key v c.cache))
          ≡ some v =
        entry-trim c.max_entries key v (removed V hash key c.cache) pos
          (entry-removed key c.cache u) in
      (
        length-trim c.max_entries (move_to_end V hash key v c.cache),
        ap
              (λ i.
                (found V hash (store V hash c token_ids v) (hash i)
                  (entry V hash (hash i) (store V hash c token_ids v).cache)).0)
              (sym same)
            ∙ ap (λ o. (found V hash (store V hash c token_ids v) key o).0) kept
            ∙ ap (λ i. some (hash i, v)) same,
      )
