-- ===== src/Decode/Lossless.antt =====
-- Speculative decoding returns the tokens of plain greedy decoding, whatever the drafter proposes
-- (src/swlp/runner/speculative.py against src/swlp/runner/swlp.py).
use swlp.Prelude.{
  ℕ, zero, suc, ◌+◌, ◌-◌, ◌≤◌, ◌<◌, ◌≡◌, refl, sym, ap, ◌∙◌, false, List, [], ◌∷◌, ◌++◌, append-nil,
  append_assoc, ok, arith, ltb, if◌then◌else◌, Bool-cases, inl, inr, length, take, drop,
  length-append, length-take, take-append-drop, take_of_length-le,
}
use swlp.Speculative.Verify.{agree, agree-le, verify_greedy-agree}
use swlp.Model.{Model}
use swlp.Decode.{
  GenerationConfig, Drafter, cut_at_eos, greedy_loop, generate_greedy, verify_step,
  speculative_loop, generate_speculative, rolled_back,
}
use swlp.Decode.Sweep.{
  cut, resume, sweep_picks, sweep_lem, target_picks-picks_of, length-picks_of, offset-snoc,
  last_slice-snoc,
}

module _ (m : Model) (cfg : GenerationConfig) where
  open m use {Score, Cache, seq_length, feed, logits, crop}

  length-sweep_picks :
      (h : List ℕ) (t : ℕ) (ds : List ℕ) (c : Cache)
      → length (sweep_picks m cfg h t ds c) ≡ length ds + 1
  length-sweep_picks h t ds c = omega (
    arith,
    length-picks_of m cfg (h ++ t ∷ []) ds (logits (length h) (t ∷ ds) c),
    m.length-logits (length h) (t ∷ ds) c,
  )

  -- The rollback leaves the cache of the accepted prefix.
  rollback_lem :
      (h : List ℕ) (t : ℕ) (ds : List ℕ) (c : Cache) (n : ℕ)
      → seq_length c ≡ length h
      → n ≤ length ds
      → (if ltb (length h + 1 + n) (length h + length (t ∷ ds))
          then crop (length h + 1 + n) (feed (length h) (t ∷ ds) c)
          else feed (length h) (t ∷ ds) c)
        ≡ feed (length h) (t ∷ take n ds) c
  rollback_lem h t ds c n aligned le =
      elim (Bool-cases (ltb (length h + 1 + n) (length h + length (t ∷ ds)))) [
        | inl cropped ↦
            let keep : length h + 1 + n ≡ seq_length c + length (t ∷ take n ds) =
              omega (arith, length-take n ds) in
            let split : t ∷ ds ≡ (t ∷ take n ds) ++ drop n ds =
              ap (◌∷◌ t) (sym (take-append-drop n ds)) in
            rw cropped (
              ap (λ xs. crop (length h + 1 + n) (feed (length h) xs c)) split
              ∙ ap (λ k. crop k (feed (length h) ((t ∷ take n ds) ++ drop n ds) c)) keep
              ∙ m.crop-feed (length h) (t ∷ take n ds) (drop n ds) c)
        | inr whole ↦
            let all : length ds ≤ n = ground arith in
            rw whole (ap (λ xs. feed (length h) (t ∷ xs) c) (sym (take_of_length-le n ds all)))
      ]

  verify_step-snoc :
      (h : List ℕ) (t : ℕ) (ds : List ℕ) (c : Cache)
      → seq_length c ≡ length h
      → let picks = sweep_picks m cfg h t ds c in
        let n = agree ds picks in
        verify_step m cfg (h ++ t ∷ []) c ds
        ≡ ok (take (suc n) picks, n, feed (length h) (t ∷ take n ds) c)
  unfolding verify_step rolled_back
  verify_step-snoc h t ds c aligned =
      rw
        (
          offset-snoc h t,
          last_slice-snoc h t,
          target_picks-picks_of m cfg (h ++ t ∷ []) ds 0 (logits (length h) (t ∷ ds) c),
          append-nil (h ++ t ∷ []),
          verify_greedy-agree ds (sweep_picks m cfg h t ds c) (length-sweep_picks h t ds c),
          rollback_lem h t ds c (agree ds (sweep_picks m cfg h t ds c)) aligned (agree-le ds _),
        )
        refl

  snoc_view : (x : ℕ) (xs : List ℕ) → (h : List ℕ) × (t : ℕ) × (x ∷ xs ≡ h ++ t ∷ [])
  snoc_view x [] = ([], x, refl)
  snoc_view x (y ∷ ys) = let (h, t, e) = snoc_view y ys in (x ∷ h, t, ap (◌∷◌ x) e)

  cons_of_length :
      (xs : List ℕ) (n : ℕ) → length xs ≡ n + 1 → (y : ℕ) × (ys : List ℕ) × (xs ≡ y ∷ ys)
  cons_of_length [] n e = absurd (omega arith)
  cons_of_length (y ∷ ys) n e = (y, ys, refl)

  cut_go_on : (xs : List ℕ) → (cut m cfg xs).1 ≡ false → (cut m cfg xs).0 ≡ xs
  unfolding cut_at_eos
  cut_go_on [] e = refl
  cut_go_on (x ∷ xs) e = ground (arith, cut_go_on xs)

  module _ (d : Drafter) where
    -- After a sweep the loop goes on from the kept tokens, or stops at `eos`.
    abbrev Decodes : ℕ → ℕ → Type 0
    Decodes fuel prompt_len =
        (s : d.State) (h : List ℕ) (t : ℕ) (c : Cache)
        → prompt_len ≤ length h
        → seq_length c ≡ length h
        → cfg.max_new_tokens - (length (h ++ t ∷ []) - prompt_len) < fuel
        → speculative_loop m cfg d fuel prompt_len s (h ++ t ∷ []) c
          ≡ ok (
              greedy_loop m cfg (cfg.max_new_tokens - (length (h ++ t ∷ []) - prompt_len))
                (h ++ t ∷ []) c)

    after_sweep :
        (fuel prompt_len : ℕ) (s : d.State) (g : List ℕ) (x : ℕ) (xs : List ℕ) (c : Cache)
        → Decodes fuel prompt_len
        → prompt_len < length g
        → seq_length c ≡ length g + length xs
        → length (x ∷ xs) ≤ cfg.max_new_tokens - (length g - prompt_len)
        → cfg.max_new_tokens - (length g - prompt_len) < suc fuel
        → (if (cut m cfg (x ∷ xs)).1
            then ok (g ++ (cut m cfg (x ∷ xs)).0)
            else speculative_loop m cfg d fuel prompt_len s (g ++ (cut m cfg (x ∷ xs)).0) c)
          ≡ ok (
              resume m cfg
                (cfg.max_new_tokens - (length g - prompt_len) - length (x ∷ xs))
                g
                (cut m cfg (x ∷ xs))
                c)
    after_sweep fuel prompt_len s g x xs c ih le aligned fits enough =
        elim (Bool-cases (cut m cfg (x ∷ xs)).1) [
          | inl stop ↦ rw stop refl
          | inr go_on ↦
              let (h, t, e) = snoc_view x xs in
              let len : length (x ∷ xs) ≡ length h + 1 =
                omega (arith, ap length e, length-append h (t ∷ [])) in
              let whole : g ++ x ∷ xs ≡ (g ++ h) ++ t ∷ [] =
                ap (λ ys. g ++ ys) e ∙ sym (append_assoc g h (t ∷ [])) in
              let size : length ((g ++ h) ++ t ∷ []) ≡ length g + length h + 1 =
                omega (arith, length-append (g ++ h) (t ∷ []), length-append g h) in
              let left : cfg.max_new_tokens - (length g - prompt_len) - length (x ∷ xs)
                  ≡ cfg.max_new_tokens - (length ((g ++ h) ++ t ∷ []) - prompt_len) =
                omega arith in
              rw (go_on, cut_go_on (x ∷ xs) go_on, left, whole)
                (ih s (g ++ h) t c (omega (arith, length-append g h))
                  (omega (arith, length-append g h)) (omega arith))
        ]

    speculative_loop-greedy : (fuel prompt_len : ℕ) → Decodes fuel prompt_len
    unfolding speculative_loop
    speculative_loop-greedy zero prompt_len s h t c le aligned enough = absurd (omega arith)
    speculative_loop-greedy (suc fuel) prompt_len s h t c le aligned enough =
        elim (Bool-cases (ltb (length (h ++ t ∷ []) - prompt_len) cfg.max_new_tokens)) [
          | inl more ↦
              let ds =
                take (cfg.max_new_tokens - (length (h ++ t ∷ []) - prompt_len) - 1)
                  (d.propose s (h ++ t ∷ [])).0 in
              let picks = sweep_picks m cfg h t ds c in
              let short : length ds < cfg.max_new_tokens - (length (h ++ t ∷ []) - prompt_len) =
                (let room : 0 < cfg.max_new_tokens - (length (h ++ t ∷ []) - prompt_len) =
                    ground arith in
                  omega (
                    arith,
                    length-take (cfg.max_new_tokens - (length (h ++ t ∷ []) - prompt_len) - 1)
                        (d.propose s (h ++ t ∷ [])).0,
                  )) in
              let n = agree ds picks in
              let (x, xs, e) = cons_of_length picks (length ds) (length-sweep_picks h t ds c) in
              let first : take (suc n) picks ≡ x ∷ take n xs = ap (take (suc n)) e in
              let kept : length xs ≡ length ds =
                omega (arith, ap length e, length-sweep_picks h t ds c) in
              rw (more, verify_step-snoc h t ds c aligned, sweep_lem m cfg _ h t ds c short, first)
                (after_sweep fuel prompt_len _ (h ++ t ∷ []) x (take n xs) _
                  (speculative_loop-greedy fuel prompt_len)
                  (omega (arith, length-append h (t ∷ [])))
                  (omega (
                    arith,
                    length-append h (t ∷ []),
                    m.seq_length-feed (length h) (t ∷ take n ds) c,
                    length-take n ds,
                    length-take n xs,
                  ))
                  (omega (arith, length-take n xs)) enough)
          | inr done ↦
              let none_left : cfg.max_new_tokens - (length (h ++ t ∷ []) - prompt_len) ≡ 0 =
                ground arith in
              rw (done, none_left) (unfold greedy_loop in refl)
        ]

    -- From a cache that holds every token but the last, speculative decoding with any drafter ends,
    -- raises nothing and returns exactly the tokens of plain greedy decoding.
    pub speculative-eq-greedy :
        (s : d.State) (h : List ℕ) (t : ℕ) (c : Cache)
        → seq_length c ≡ length h
        → generate_speculative m cfg d s (h ++ t ∷ []) c
          ≡ ok (generate_greedy m cfg (h ++ t ∷ []) c)
    unfolding generate_speculative generate_greedy
    speculative-eq-greedy s h t c aligned =
        let used : length (h ++ t ∷ []) - (length (h ++ t ∷ []) - 1) ≡ 1 =
          omega (arith, length-append h (t ∷ [])) in
        speculative_loop-greedy (cfg.max_new_tokens + 1) (length (h ++ t ∷ []) - 1) s h t c
          (omega (arith, length-append h (t ∷ []))) aligned (omega arith)
        ∙ rw used refl
