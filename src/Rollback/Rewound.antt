-- ===== src/Rollback/Rewound.antt =====
-- The cache after a sweep and the rollback of src/swlp/runner/hybrid_rollback.py.
use swlp.Prelude.{
  ℕ, zero, suc, ◌+◌, ◌-◌, ◌≤◌, ◌<◌, ◌≡◌, refl, sym, ap, ap₂, ◌∙◌, true, false, List, [], ◌∷◌, ◌++◌,
  ok, err, ◌==◌, if◌then◌else◌, if-all, length, length-append, length-drop, take, drop, arith,
  ==_iff,
}
use swlp.Rollback.{
  Layer, attention, linear, Fed, to_attention, to_linear, Recorded, swept, sweep_layers, recorded,
  record_sweep, linear_count, rewound, rollback_hybrid_cache,
}

module _ {A : Type 0} where
  take-drop : (k n : ℕ) (xs : List A) → take k (drop n xs) ≡ drop n (take (n + k) xs)
  take-drop k zero xs = let e : k ≡ 0 + k = omega arith in ap (λ j. take j xs) e
  take-drop zero (suc n) [] =
      let e : suc n + 0 ≡ suc n = omega arith in sym (ap (λ j. drop (suc n) (take j [])) e)
  take-drop (suc k) (suc n) [] =
      let e : suc n + suc k ≡ suc (n + suc k) = omega arith in
      sym (ap (λ j. drop (suc n) (take j [])) e)
  take-drop k (suc n) (x ∷ xs) =
      let e : suc (n + k) ≡ suc n + k = omega arith in
      take-drop k n xs ∙ ap (λ j. drop (suc n) (take j (x ∷ xs))) e

  take-append : (k : ℕ) (xs ys : List A) → take (length xs + k) (xs ++ ys) ≡ xs ++ take k ys
  take-append k [] ys = let e : 0 + k ≡ k = omega arith in ap (λ j. take j ys) e
  take-append k (x ∷ xs) ys =
      let e : suc (length xs) + k ≡ suc (length xs + k) = omega arith in
      ap (λ j. take j (x ∷ (xs ++ ys))) e ∙ ap (◌∷◌ x) (take-append k xs ys)

  -- The columns that the convolution keeps after `keep` of the tokens.
  conv-rewound :
      (conv xs : List A) (keep : ℕ)
      → keep ≤ length xs
      → take (length (drop (length xs) (conv ++ xs))) (drop keep (conv ++ xs))
        ≡ drop keep (conv ++ take keep xs)
  conv-rewound conv xs keep le =
      let size : length (drop (length xs) (conv ++ xs)) ≡ length conv =
        omega (arith, length-drop (length xs) (conv ++ xs), length-append conv xs) in
      let e : keep + length conv ≡ length conv + keep = omega arith in
      ap (λ j. take j (drop keep (conv ++ xs))) size
      ∙ take-drop (length conv) keep (conv ++ xs)
      ∙ ap (λ j. drop keep (take j (conv ++ xs))) e
      ∙ ap (drop keep) (take-append keep conv xs)

  kv-rewound :
      (kv new : List A) (keep fed : ℕ)
      → length new ≡ fed
      → keep ≤ fed
      → take (length (kv ++ new) - (fed - keep)) (kv ++ new) ≡ kv ++ take keep new
  kv-rewound kv new keep fed all le =
      let e : length (kv ++ new) - (fed - keep) ≡ length kv + keep =
        omega (arith, length-append kv new) in
      ap (λ j. take j (kv ++ new)) e ∙ take-append keep kv new

module _ {P X R D : Type 0} (chunk recurrent : R → List D → R) where
  -- A layer after the first `keep` tokens alone, by the kernel of plain decoding.
  abbrev pub decoded : ℕ → Layer P X R → Fed P X D → Layer P X R
  decoded keep (attention kv) (to_attention new) = attention (kv ++ take keep new)
  decoded keep (attention kv) (to_linear xs ds) = attention kv
  decoded keep (linear conv state) (to_attention new) = linear conv state
  decoded keep (linear conv state) (to_linear xs ds) =
      linear (drop keep (conv ++ take keep xs)) (recurrent state (take keep ds))

  abbrev pub decode_layers : ℕ → List (Layer P X R) → List (Fed P X D) → List (Layer P X R)
  decode_layers keep [] inputs = []
  decode_layers keep (l ∷ ls) [] = l ∷ ls
  decode_layers keep (l ∷ ls) (i ∷ inputs) = decoded keep l i ∷ decode_layers keep ls inputs

  -- Every layer is fed `fed` positions of its own kind.
  abbrev pub FitsLayer : ℕ → Layer P X R → Fed P X D → Type 0
  FitsLayer fed (attention kv) (to_attention new) = length new ≡ fed
  FitsLayer fed (attention kv) (to_linear xs ds) = false ≡ true
  FitsLayer fed (linear conv state) (to_attention new) = false ≡ true
  FitsLayer fed (linear conv state) (to_linear xs ds) = length xs ≡ fed

  abbrev pub Fits : ℕ → List (Layer P X R) → List (Fed P X D) → Type 0
  Fits fed [] [] = Unit
  Fits fed [] (i ∷ inputs) = false ≡ true
  Fits fed (l ∷ ls) [] = false ≡ true
  Fits fed (l ∷ ls) (i ∷ inputs) = FitsLayer fed l i × Fits fed ls inputs

  length-record_sweep :
      (fed : ℕ) (ls : List (Layer P X R)) (inputs : List (Fed P X D))
      → Fits fed ls inputs
      → length (record_sweep chunk recurrent ls inputs)
        ≡ linear_count chunk recurrent (sweep_layers chunk recurrent ls inputs)
  length-record_sweep fed [] inputs h = refl
  length-record_sweep fed (l ∷ ls) [] h = absurd (ground arith)
  length-record_sweep fed (attention kv ∷ ls) (to_attention new ∷ inputs) (one, rest) =
      length-record_sweep fed ls inputs rest
  length-record_sweep fed (attention kv ∷ ls) (to_linear xs ds ∷ inputs) (one, rest) =
      absurd (ground arith)
  length-record_sweep fed (linear conv state ∷ ls) (to_attention new ∷ inputs) (one, rest) =
      absurd (ground arith)
  length-record_sweep fed (linear conv state ∷ ls) (to_linear xs ds ∷ inputs) (one, rest) =
      ap suc (length-record_sweep fed ls inputs rest)

  rewound-sweep :
      (keep fed : ℕ) (ls : List (Layer P X R)) (inputs : List (Fed P X D))
      → keep ≤ fed
      → Fits fed ls inputs
      → rewound chunk recurrent keep
          (fed - keep)
          (sweep_layers chunk recurrent ls inputs)
          (record_sweep chunk recurrent ls inputs)
        ≡ decode_layers keep ls inputs
  rewound-sweep keep fed [] inputs le h = refl
  rewound-sweep keep fed (l ∷ ls) [] le h = absurd (ground arith)
  rewound-sweep keep fed (attention kv ∷ ls) (to_attention new ∷ inputs) le (one, rest) =
      ap₂ ◌∷◌ (ap attention (kv-rewound kv new keep fed one le))
        (rewound-sweep keep fed ls inputs le rest)
  rewound-sweep keep fed (attention kv ∷ ls) (to_linear xs ds ∷ inputs) le (one, rest) =
      absurd (ground arith)
  rewound-sweep keep fed (linear conv state ∷ ls) (to_attention new ∷ inputs) le (one, rest) =
      absurd (ground arith)
  rewound-sweep keep fed (linear conv state ∷ ls) (to_linear xs ds ∷ inputs) le (one, rest) =
      ap₂ ◌∷◌
        (ap (λ c. linear c (recurrent state (take keep ds)))
          (conv-rewound conv xs keep (omega arith)))
        (rewound-sweep keep fed ls inputs le rest)

  -- When a recorded sweep fed every layer `fed` positions of its kind, and between 1 and `fed - 1` of
  -- them are kept, the rollback ends without error, and every layer is what it is when only the kept
  -- positions are fed to it by the kernel of plain decoding, whatever the chunked kernel computes.
  pub rollback_hybrid_cache-sweep :
      (keep fed : ℕ) (ls : List (Layer P X R)) (inputs : List (Fed P X D))
      → 0 < keep
      → keep < fed
      → Fits fed ls inputs
      → rollback_hybrid_cache chunk recurrent
          (sweep_layers chunk recurrent ls inputs)
          (record_sweep chunk recurrent ls inputs)
          keep
          fed
        ≡ ok (decode_layers keep ls inputs)
  unfolding rollback_hybrid_cache
  rollback_hybrid_cache-sweep keep fed ls inputs some_kept less h =
      let layers = sweep_layers chunk recurrent ls inputs in
      let records = record_sweep chunk recurrent ls inputs in
      if-all (λ r. r ≡ ok (decode_layers keep ls inputs)) (fed - keep == 0) (ok layers) _
        (λ none_left.
          let z : fed - keep ≡ 0 = (==_iff (fed - keep) 0).0 none_left in absurd (omega arith))
        (λ some_left.
          if-all (λ r. r ≡ ok (decode_layers keep ls inputs)) (keep == 0) _ _
            (λ kept_none. let z : keep ≡ 0 = (==_iff keep 0).0 kept_none in absurd (omega arith))
            (λ kept.
              ap
                (λ b.
                  if b
                  then ok (rewound chunk recurrent keep (fed - keep) layers records)
                  else err swlp.Rollback.not_recorded_whole)
                ((==_iff (length records) (linear_count chunk recurrent layers)).1
                  (length-record_sweep fed ls inputs h))
              ∙ ap ok (rewound-sweep keep fed ls inputs (omega arith) h)))
