-- ===== src/Routing/Predicted.antt =====
-- What `predict` of src/swlp/core/moe_policy.py returns.
use swlp.Prelude.{
  ℕ, zero, suc, ◌≤◌, ◌≡◌, refl, sym, ap, subst, ◌∙◌, Bool, true, false, ◌||◌, List, [], ◌∷◌, ◌++◌,
  ◌==◌, ltb, if-all, Bool-cases, inl, inr, length, length-take, take, arith, ==_iff,
}
use swlp.Routing.{
  RoutingHistory, has_id, insert_id, id_set, first_keys, predict_from, predict, ranked, reversed,
  seen_ids, insert_ranked, ranks_before,
}

-- No id stands in the list twice.
abbrev pub NoDup : List ℕ → Type 0
NoDup [] = Unit
NoDup (x ∷ xs) = (has_id x xs ≡ false) × NoDup xs

has_id-take : (x n : ℕ) (xs : List ℕ) → has_id x xs ≡ false → has_id x (take n xs) ≡ false
has_id-take x zero xs e = refl
has_id-take x (suc n) [] e = refl
has_id-take x (suc n) (y ∷ ys) e =
    let here : (y == x) ≡ false = ground arith in
    let rest : has_id x ys ≡ false = ground arith in
    ap (λ b. b || has_id x (take n ys)) here ∙ has_id-take x n ys rest

take-NoDup : (n : ℕ) (xs : List ℕ) → NoDup xs → NoDup (take n xs)
take-NoDup zero xs h = tt
take-NoDup (suc n) [] h = tt
take-NoDup (suc n) (x ∷ xs) (new, rest) = (has_id-take x n xs new, take-NoDup n xs rest)

or_true : (b : Bool) → (b || true) ≡ true
or_true true = refl
or_true false = refl

or_swap : (a b c : Bool) → (a || (b || c)) ≡ (b || (a || c))
or_swap true true c = refl
or_swap true false c = refl
or_swap false b c = refl

or_again : (a c : Bool) → (a || c) ≡ (a || (a || c))
or_again true c = refl
or_again false c = refl

-- What was seen is left out.
has_id-first_keys :
    (x : ℕ) (seen xs : List ℕ) → has_id x seen ≡ true → has_id x (first_keys seen xs) ≡ false
has_id-first_keys x seen [] e = refl
has_id-first_keys x seen (y ∷ ys) e =
    if-all (λ l. has_id x l ≡ false) (has_id y seen) (first_keys seen ys)
      (y ∷ first_keys (y ∷ seen) ys) (λ old. has_id-first_keys x seen ys e)
      (λ new.
        let differ : (y == x) ≡ false = elim (Bool-cases (y == x)) [
          | inl same ↦
              let clash : true ≡ false =
                sym e ∙ subst (λ k. has_id k seen ≡ false) ((==_iff y x).0 same) new in
              absurd (ground arith)
          | inr apart ↦ apart
        ] in
        ap (λ b. b || has_id x (first_keys (y ∷ seen) ys)) differ
        ∙ has_id-first_keys x (y ∷ seen) ys (ap (λ b. (y == x) || b) e ∙ or_true (y == x)))

first_keys-NoDup : (seen xs : List ℕ) → NoDup (first_keys seen xs)
first_keys-NoDup seen [] = tt
first_keys-NoDup seen (x ∷ xs) =
    if-all NoDup (has_id x seen) (first_keys seen xs) (x ∷ first_keys (x ∷ seen) xs)
      (λ old. first_keys-NoDup seen xs)
      (λ new. (
        has_id-first_keys x (x ∷ seen) xs (ap (λ b. b || has_id x seen) ((==_iff x x).1 refl)),
        first_keys-NoDup (x ∷ seen) xs,
      ))

has_id-append : (e : ℕ) (xs ys : List ℕ) → has_id e (xs ++ ys) ≡ (has_id e xs || has_id e ys)
has_id-append e [] ys = refl
has_id-append e (x ∷ xs) ys =
    ap (λ b. (x == e) || b) (has_id-append e xs ys) ∙ or_assoc (x == e) (has_id e xs) (has_id e ys)
  where
    or_assoc : (a b c : Bool) → (a || (b || c)) ≡ ((a || b) || c)
    or_assoc true b c = refl
    or_assoc false b c = refl

has_id-insert_ranked :
    (newest : List (List ℕ)) (e x : ℕ) (xs : List ℕ)
    → has_id e (insert_ranked newest x xs) ≡ ((x == e) || has_id e xs)
has_id-insert_ranked newest e x [] = refl
has_id-insert_ranked newest e x (y ∷ ys) =
    if-all (λ l. has_id e l ≡ ((x == e) || has_id e (y ∷ ys))) (ranks_before newest x y)
      (x ∷ y ∷ ys) (y ∷ insert_ranked newest x ys) (λ t. refl)
      (λ f.
        ap (λ b. (y == e) || b) (has_id-insert_ranked newest e x ys)
        ∙ or_swap (y == e) (x == e) (has_id e ys))

has_id-ranked :
    (newest : List (List ℕ)) (e : ℕ) (xs : List ℕ) → has_id e (ranked newest xs) ≡ has_id e xs
has_id-ranked newest e [] = refl
has_id-ranked newest e (x ∷ xs) =
    has_id-insert_ranked newest e x (ranked newest xs)
    ∙ ap (λ b. (x == e) || b) (has_id-ranked newest e xs)

has_id-insert_id : (e x : ℕ) (xs : List ℕ) → has_id e (insert_id x xs) ≡ ((x == e) || has_id e xs)
has_id-insert_id e x [] = refl
has_id-insert_id e x (y ∷ ys) =
    if-all (λ l. has_id e l ≡ ((x == e) || has_id e (y ∷ ys))) (ltb x y) (x ∷ y ∷ ys) _ (λ t. refl)
      (λ f.
        if-all (λ l. has_id e l ≡ ((x == e) || has_id e (y ∷ ys))) (y == x) (y ∷ ys)
          (y ∷ insert_id x ys)
          (λ same.
            or_again (y == e) (has_id e ys)
            ∙ ap (λ k. (k == e) || ((y == e) || has_id e ys)) ((==_iff y x).0 same))
          (λ apart.
            ap (λ b. (y == e) || b) (has_id-insert_id e x ys)
            ∙ or_swap (y == e) (x == e) (has_id e ys)))

has_id-id_set : (e : ℕ) (xs : List ℕ) → has_id e (id_set xs) ≡ has_id e xs
has_id-id_set e [] = refl
has_id-id_set e (x ∷ xs) =
    has_id-insert_id e x (id_set xs) ∙ ap (λ b. (x == e) || b) (has_id-id_set e xs)

has_id-kept : (e : ℕ) (seen xs : List ℕ) → has_id e (first_keys seen xs) ≡ true → has_id e xs ≡ true
has_id-kept e seen [] h = h
has_id-kept e seen (x ∷ xs) h =
    if-all (λ l. has_id e l ≡ true → ((x == e) || has_id e xs) ≡ true) (has_id x seen)
      (first_keys seen xs) (x ∷ first_keys (x ∷ seen) xs)
      (λ old h'. ap (λ b. (x == e) || b) (has_id-kept e seen xs h') ∙ or_true (x == e))
      (λ new h'. elim (Bool-cases (x == e)) [
        | inl same ↦ ap (λ b. b || has_id e xs) same
        | inr apart ↦
            ap (λ b. (x == e) || b)
              (has_id-kept e (x ∷ seen) xs
                (sym (ap (λ b. b || has_id e (first_keys (x ∷ seen) xs)) apart) ∙ h'))
            ∙ or_true (x == e)
      ])
      h

has_id-of_take : (e n : ℕ) (xs : List ℕ) → has_id e (take n xs) ≡ true → has_id e xs ≡ true
has_id-of_take e zero xs h = absurd (ground arith)
has_id-of_take e (suc n) [] h = h
has_id-of_take e (suc n) (x ∷ xs) h = elim (Bool-cases (x == e)) [
  | inl same ↦ ap (λ b. b || has_id e xs) same
  | inr apart ↦
      ap (λ b. (x == e) || b)
        (has_id-of_take e n xs (sym (ap (λ b. b || has_id e (take n xs)) apart) ∙ h))
      ∙ or_true (x == e)
]

-- What a prediction may hold.
pub record Predicted (h : RoutingHistory) (layer n : ℕ) (ids : List ℕ) : Type 0 where
  pub short : length ids ≤ n
  pub no_dup : NoDup ids
  pub observed :
      (e : ℕ)
      → has_id e ids ≡ true
      → (has_id e (h.last layer) || has_id e (seen_ids (reversed (h.layers layer) []))) ≡ true

predict_from-Predicted :
    (h : RoutingHistory) (layer n : ℕ) (dq : List (List ℕ))
    → h.layers layer ≡ dq
    → Predicted h layer n (predict_from (h.last layer) dq n)
predict_from-Predicted h layer n [] same = record {
  short = omega arith;
  no_dup = tt;
  observed = λ e t. absurd (ground arith);
}
predict_from-Predicted h layer n (ids ∷ older) same =
    let newest = reversed (ids ∷ older) [] in
    let all = h.last layer ++ ranked newest (id_set (seen_ids newest)) in
    record {
      short = omega (arith, length-take n (first_keys [] all));
      no_dup = take-NoDup n (first_keys [] all) (first_keys-NoDup [] all);
      observed = λ e t.
          subst (λ q. (has_id e (h.last layer) || has_id e (seen_ids (reversed q []))) ≡ true)
            (sym same)
            (ap (λ b. has_id e (h.last layer) || b)
                (sym (
                  has_id-ranked newest e (id_set (seen_ids newest))
                  ∙ has_id-id_set e (seen_ids newest)))
              ∙ sym (has_id-append e (h.last layer) (ranked newest (id_set (seen_ids newest))))
              ∙ has_id-kept e [] all (has_id-of_take e n (first_keys [] all) t));
    }

-- A prediction has at most `n` experts, none of them twice, and only experts of the last observation of
-- the layer or of an observation in its window.
pub predict-Predicted : (h : RoutingHistory) (layer n : ℕ) → Predicted h layer n (predict h layer n)
unfolding predict
predict-Predicted h layer n =
    if-all (Predicted h layer n) (n == 0) [] (predict_from (h.last layer) (h.layers layer) n)
      (λ nothing. record {
        short = omega arith;
        no_dup = tt;
        observed = λ e t. absurd (ground arith);
      })
      (λ some_ids. predict_from-Predicted h layer n (h.layers layer) refl)
