-- ===== src/PrefixCache/Longest.antt =====
-- `lookup` of src/swlp/core/prefix_cache.py finds the longest usable prefix that is stored.
use swlp.Prelude.{
  ℕ, zero, suc, ◌+◌, ◌≤◌, ◌<◌, max, ◌≡◌, refl, sym, ap, ◌∙◌, Bool, true, false, ◌&&◌, Option, none,
  some, List, [], ◌∷◌, arith, ltb, if◌then◌else◌, Bool-cases, inl, inr, length, get_elem?, ◌⊎◌,
  ◌++◌, subst, length-append, append_assoc, append-nil,
}
use swlp.PrefixCache.Tensors.{Layers}
use swlp.PrefixCache.{
  PrefixEntry, PrefixKvCache, usable, better, search_loop, at_least, counted, lookup,
}

module _ (ly : Layers) where
  open ly use {Kv}

  -- The entry at place `i` may be used and none of the entries that may be used is longer.
  pub record IsLongest (tokens : List ℕ) (max_length : Option ℕ) (es : List (PrefixEntry ly))
      (i : ℕ) (best : PrefixEntry ly) : Type 0 where
    pub stored : get_elem? es i ≡ some best
    pub fits : usable ly tokens max_length best ≡ true
    pub longest :
        (j : ℕ) (e : PrefixEntry ly)
        → get_elem? es j ≡ some e
        → usable ly tokens max_length e ≡ true
        → length e.ids ≤ length best.ids

  -- What the loop has found in the entries before.
  abbrev pub Found :
      List ℕ → Option ℕ → List (PrefixEntry ly) → Option (ℕ × PrefixEntry ly) → Type 0
  Found tokens max_length es none =
      (j : ℕ) (e : PrefixEntry ly) → get_elem? es j ≡ some e → usable ly tokens max_length e ≡ false
  Found tokens max_length es (some (i, best)) = IsLongest tokens max_length es i best

  get_elem?-snoc :
      (es : List (PrefixEntry ly)) (e f : PrefixEntry ly) (j : ℕ)
      → get_elem? (es ++ e ∷ []) j ≡ some f
      → (get_elem? es j ≡ some f) ⊎ (e ≡ f)
  get_elem?-snoc [] e f zero h = inr (ground arith)
  get_elem?-snoc [] e f (suc j) h = ground arith
  get_elem?-snoc (x ∷ es) e f zero h = inl h
  get_elem?-snoc (x ∷ es) e f (suc j) h = get_elem?-snoc es e f j h

  get_elem?-snoc_old :
      (es : List (PrefixEntry ly)) (e f : PrefixEntry ly) (j : ℕ)
      → get_elem? es j ≡ some f
      → get_elem? (es ++ e ∷ []) j ≡ some f
  get_elem?-snoc_old [] e f j h = ground arith
  get_elem?-snoc_old (x ∷ es) e f zero h = h
  get_elem?-snoc_old (x ∷ es) e f (suc j) h = get_elem?-snoc_old es e f j h

  get_elem?-snoc_new :
      (es : List (PrefixEntry ly)) (e : PrefixEntry ly)
      → get_elem? (es ++ e ∷ []) (length es) ≡ some e
  get_elem?-snoc_new [] e = refl
  get_elem?-snoc_new (x ∷ es) e = get_elem?-snoc_new es e

  false-ne-true : {P : Type 0} → false ≡ true → P
  false-ne-true h = ground arith

  -- One more entry.
  search_step-Found :
      (tokens : List ℕ) (max_length : Option ℕ) (es : List (PrefixEntry ly)) (e : PrefixEntry ly)
      (best : Option (ℕ × PrefixEntry ly))
      → Found tokens max_length es best
      → (u b : Bool) → usable ly tokens max_length e ≡ u
      → better ly e best ≡ b
      → Found tokens max_length (es ++ e ∷ []) (if u && b then some (length es, e) else best)
  search_step-Found tokens max_length es e none h false b eu eb = λ j f at.
      elim (get_elem?-snoc es e f j at) [
        | inl old ↦ h j f old
        | inr same ↦ ap (usable ly tokens max_length) (sym same) ∙ eu
      ]
  search_step-Found tokens max_length es e none h true false eu eb = false-ne-true (sym eb)
  search_step-Found tokens max_length es e none h true true eu eb = record {
    stored = get_elem?-snoc_new es e;
    fits = eu;
    longest = λ j f at fits. elim (get_elem?-snoc es e f j at) [
      | inl old ↦ false-ne-true (sym (h j f old) ∙ fits)
      | inr same ↦ omega (arith, ap (λ (g : PrefixEntry ly). length g.ids) same)
    ];
  }
  search_step-Found tokens max_length es e (some (i, best)) h false b eu eb = record {
    stored = get_elem?-snoc_old es e best i h.stored;
    fits = h.fits;
    longest = λ j f at fits. elim (get_elem?-snoc es e f j at) [
      | inl old ↦ h.longest j f old fits
      | inr same ↦ false-ne-true (sym eu ∙ ap (usable ly tokens max_length) same ∙ fits)
    ];
  }
  search_step-Found tokens max_length es e (some (i, best)) h true false eu eb =
      let le : length e.ids ≤ length best.ids = ground arith in
      record {
        stored = get_elem?-snoc_old es e best i h.stored;
        fits = h.fits;
        longest = λ j f at fits. elim (get_elem?-snoc es e f j at) [
          | inl old ↦ h.longest j f old fits
          | inr same ↦ omega (arith, le, ap (λ (g : PrefixEntry ly). length g.ids) same)
        ];
      }
  search_step-Found tokens max_length es e (some (i, best)) h true true eu eb =
      let lt : length best.ids < length e.ids = ground arith in
      record {
        stored = get_elem?-snoc_new es e;
        fits = eu;
        longest = λ j f at fits. elim (get_elem?-snoc es e f j at) [
          | inl old ↦ omega (arith, lt, h.longest j f old fits)
          | inr same ↦ omega (arith, ap (λ (g : PrefixEntry ly). length g.ids) same)
        ];
      }

  pub search_loop-Found :
      (tokens : List ℕ) (max_length : Option ℕ) (before es : List (PrefixEntry ly))
      (best : Option (ℕ × PrefixEntry ly))
      → Found tokens max_length before best
      → Found tokens max_length
          (before ++ es)
          (search_loop ly tokens max_length best (length before) es)
  unfolding search_loop
  search_loop-Found tokens max_length before [] best h =
      subst (λ es. Found tokens max_length es best) (sym (append-nil before)) h
  search_loop-Found tokens max_length before (e ∷ es) best h =
      let best' =
        if usable ly tokens max_length e && better ly e best
        then some (length before, e)
        else best in
      let step = search_step-Found tokens max_length before e best h _ _ refl refl in
      let size : length (before ++ e ∷ []) ≡ length before + 1 =
        omega (arith, length-append before (e ∷ [])) in
      let ih = search_loop-Found tokens max_length (before ++ e ∷ []) es best' step in
      subst
        (λ l.
          Found tokens max_length l (search_loop ly tokens max_length best' (length before + 1) es))
        (append_assoc before (e ∷ []) es)
        (subst
          (λ n.
            Found tokens max_length ((before ++ e ∷ []) ++ es)
              (search_loop ly tokens max_length best' n es))
          size ih)

  -- What an answer of `lookup` says.
  abbrev pub LookupAnswers :
      PrefixKvCache ly → ℕ → List ℕ → ℕ → Option ℕ → Option (PrefixEntry ly) → Type 0
  LookupAnswers c now tokens min_length max_length none =
      (j : ℕ) (e : PrefixEntry ly)
      → get_elem? c.entries j ≡ some e
      → usable ly tokens max_length e ≡ true
      → length e.ids < max 1 min_length
  LookupAnswers c now tokens min_length max_length (some hit) =
      (i : ℕ) × (best : PrefixEntry ly) × IsLongest tokens max_length c.entries i best
      × (max 1 min_length ≤ length best.ids)
      × (hit.ids ≡ best.ids)
      × (hit.layer_kv ≡ best.layer_kv)

  pub lookup-LookupAnswers :
      (c : PrefixKvCache ly) (now : ℕ) (tokens : List ℕ) (min_length : ℕ) (max_length : Option ℕ)
      → LookupAnswers c now tokens min_length max_length
          (lookup ly c now tokens min_length max_length).0
  unfolding lookup
  lookup-LookupAnswers c now tokens min_length max_length =
      answer (search_loop ly tokens max_length none 0 c.entries)
        (search_loop-Found tokens max_length [] c.entries none (λ j e at. ground arith))
    where
      answer :
          (o : Option (ℕ × PrefixEntry ly))
          → Found tokens max_length c.entries o
          → LookupAnswers c now tokens min_length max_length
              (counted ly c now (at_least ly min_length o)).0
      answer none h = λ j e at fits. false-ne-true (sym (h j e at) ∙ fits)
      answer (some (i, best)) h = elim (Bool-cases (ltb (length best.ids) (max 1 min_length))) [
        | inl short ↦
            let lt : length best.ids < max 1 min_length = ground arith in
            rw short (λ j e at fits. omega (arith, lt, h.longest j e at fits))
        | inr enough ↦
            let ge : max 1 min_length ≤ length best.ids = ground arith in
            rw enough (i, best, h, ge, refl, refl)
      ]
