-- ===== src/Experts/Dictionary.antt =====
-- The dictionaries of src/swlp/runner/experts.py: what is found after a write and after a deletion.
use swlp.Prelude.{
  ℕ, suc, ◌≡◌, ◌≢◌, refl, sym, ap, subst, ◌∙◌, inl, inr, none, some, List, [], ◌∷◌, ◌==◌,
  if◌then◌else◌, length, false, Bool-cases, ==_iff, ==_false, arith, if-all,
}
use swlp.Experts.{get, assign, pop}

unequal : (k j : ℕ) → k ≢ j → (k == j) ≡ false
unequal k j differ = ground arith

module _ {A : Type 0} where
  abbrev pub Distinct : List (ℕ × A) → Type 0
  Distinct [] = Unit
  Distinct ((k, v) ∷ es) = (get k es ≡ none) × Distinct es

  pub get-head : (k j : ℕ) (v : A) (es : List (ℕ × A)) → k ≡ j → get j ((k, v) ∷ es) ≡ some v
  get-head k j v es e = ap (λ b. if b then some v else get j es) ((==_iff k j).1 e)

  get-tail : (k j : ℕ) (v : A) (es : List (ℕ × A)) → k ≢ j → get j ((k, v) ∷ es) ≡ get j es
  get-tail k j v es e = ap (λ b. if b then some v else get j es) (unequal k j e)

  pub get-assign_self : (key : ℕ) (a : A) (es : List (ℕ × A)) → get key (assign key a es) ≡ some a
  get-assign_self key a [] = get-head key key a [] refl
  get-assign_self key a ((k, v) ∷ es) =
      if-all (λ l. get key l ≡ some a) (k == key) ((k, a) ∷ es) ((k, v) ∷ assign key a es)
        (λ same. get-head k key a es ((==_iff k key).0 same))
        (λ differ. get-tail k key v _ (==_false k key differ) ∙ get-assign_self key a es)

  pub get-assign_ne :
      (key : ℕ) (a : A) (es : List (ℕ × A)) (j : ℕ) → j ≢ key → get j (assign key a es) ≡ get j es
  get-assign_ne key a [] j differ = get-tail key j a [] (λ e. differ (sym e))
  get-assign_ne key a ((k, v) ∷ es) j differ =
      if-all (λ l. get j l ≡ get j ((k, v) ∷ es)) (k == key) ((k, a) ∷ es)
        ((k, v) ∷ assign key a es)
        (λ same.
          let other : k ≢ j = λ e. differ (sym e ∙ (==_iff k key).0 same) in
          get-tail k j a es other ∙ sym (get-tail k j v es other))
        (λ apart. ap (λ r. if k == j then some v else r) (get-assign_ne key a es j differ))

  pub length-assign :
      (key : ℕ) (a : A) (es : List (ℕ × A))
      → get key es ≡ none
      → length (assign key a es) ≡ suc (length es)
  length-assign key a [] e = refl
  length-assign key a ((k, v) ∷ es) e = elim (Bool-cases (k == key)) [
    | inl same ↦
        (let clash : none ≡ some v = sym e ∙ get-head k key v es ((==_iff k key).0 same) in
          absurd (ground arith))
    | inr differ ↦
        ap (λ b. length (if b then (k, a) ∷ es else (k, v) ∷ assign key a es)) differ
        ∙ ap suc (length-assign key a es (sym (get-tail k key v es (==_false k key differ)) ∙ e))
  ]

  pub get-pop_ne : (key : ℕ) (es : List (ℕ × A)) (j : ℕ) → j ≢ key → get j (pop key es) ≡ get j es
  get-pop_ne key [] j differ = refl
  get-pop_ne key ((k, v) ∷ es) j differ =
      if-all (λ l. get j l ≡ get j ((k, v) ∷ es)) (k == key) es ((k, v) ∷ pop key es)
        (λ same. sym (get-tail k j v es (λ e. differ (sym e ∙ (==_iff k key).0 same))))
        (λ apart. ap (λ r. if k == j then some v else r) (get-pop_ne key es j differ))

  pub get-pop_self : (key : ℕ) (es : List (ℕ × A)) → Distinct es → get key (pop key es) ≡ none
  get-pop_self key [] d = refl
  get-pop_self key ((k, v) ∷ es) (new, d) =
      if-all (λ l. get key l ≡ none) (k == key) es ((k, v) ∷ pop key es)
        (λ same. subst (λ j. get j es ≡ none) ((==_iff k key).0 same) new)
        (λ differ. get-tail k key v _ (==_false k key differ) ∙ get-pop_self key es d)

  pub length-pop :
      (key : ℕ) (es : List (ℕ × A)) (a : A)
      → get key es ≡ some a
      → suc (length (pop key es)) ≡ length es
  length-pop key [] a e = absurd (ground arith)
  length-pop key ((k, v) ∷ es) a e =
      if-all (λ l. suc (length l) ≡ suc (length es)) (k == key) es ((k, v) ∷ pop key es)
        (λ same. refl)
        (λ differ.
          ap suc (length-pop key es a (sym (get-tail k key v es (==_false k key differ)) ∙ e)))

  pub Distinct-assign :
      (key : ℕ) (a : A) (es : List (ℕ × A))
      → get key es ≡ none
      → Distinct es
      → Distinct (assign key a es)
  Distinct-assign key a [] e d = (refl, tt)
  Distinct-assign key a ((k, v) ∷ es) e (new, d) =
      if-all Distinct (k == key) ((k, a) ∷ es) ((k, v) ∷ assign key a es) (λ same. (new, d))
        (λ differ.
          let apart = ==_false k key differ in
          (
            get-assign_ne key a es k apart ∙ new,
            Distinct-assign key a es (sym (get-tail k key v es apart) ∙ e) d,
          ))

  pub Distinct-pop : (key : ℕ) (es : List (ℕ × A)) → Distinct es → Distinct (pop key es)
  Distinct-pop key [] d = tt
  Distinct-pop key ((k, v) ∷ es) (new, d) =
      if-all Distinct (k == key) es ((k, v) ∷ pop key es) (λ same. d)
        (λ differ. (get-pop_ne key es k (==_false k key differ) ∙ new, Distinct-pop key es d))
