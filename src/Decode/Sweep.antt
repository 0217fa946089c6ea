-- ===== src/Decode/Sweep.antt =====
-- One verification sweep of src/swlp/runner/speculative.py against the greedy rounds of
-- src/swlp/runner/swlp.py: the picks of a sweep, consumed token by token, are the greedy picks as
-- long as the draft agrees with them.
use swlp.Prelude.{
  ℕ, zero, suc, ◌+◌, ◌-◌, ◌<◌, ◌≡◌, refl, sym, ap, ◌∙◌, Bool, List, [], ◌∷◌, ◌++◌, append-nil,
  append_assoc, arith, ◌==◌, ==_iff, if◌then◌else◌, Bool-cases, inl, inr, length, get_or, take,
  drop, length-append,
}
use swlp.Speculative.Verify.{agree}
use swlp.Model.{Model}
use swlp.Decode.{
  GenerationConfig, last_slice, is_eos, cut_at_eos, select_next, decode_step, greedy_loop,
  target_picks,
}

drop-append : (h ts : List ℕ) → drop (length h) (h ++ ts) ≡ ts
drop-append [] ts = refl
drop-append (x ∷ h) ts = drop-append h ts

pub offset-snoc : (h : List ℕ) (t : ℕ) → length (h ++ t ∷ []) - 1 ≡ length h
offset-snoc h t = omega (arith, length-append h (t ∷ []))

pub last_slice-snoc : (h : List ℕ) (t : ℕ) → last_slice (h ++ t ∷ []) ≡ t ∷ []
unfolding last_slice
last_slice-snoc h t = rw (offset-snoc h t) (drop-append h (t ∷ []))

module _ (m : Model) (cfg : GenerationConfig) where
  open m use {Score, Cache, seq_length, feed, logits, crop}

  -- The pick after feeding the last token `t` of `h ++ [t]`.
  abbrev pub pick : List ℕ → ℕ → Cache → ℕ
  pick h t c = select_next m cfg (get_or (logits (length h) (t ∷ []) c) 0 []) (h ++ t ∷ [])

  decode_step-snoc :
      (h : List ℕ) (t : ℕ) (c : Cache)
      → decode_step m cfg (h ++ t ∷ []) c ≡ (pick h t c, feed (length h) (t ∷ []) c)
  unfolding decode_step
  decode_step-snoc h t c =
      rw (offset-snoc h t, last_slice-snoc h t)
        (let e : length (logits (length h) (t ∷ []) c) - 1 ≡ 0 =
            omega (arith, m.length-logits (length h) (t ∷ []) c) in
          rw e refl)

  greedy_loop-snoc :
      (k : ℕ) (h : List ℕ) (t : ℕ) (c : Cache)
      → greedy_loop m cfg (suc k) (h ++ t ∷ []) c ≡ (
          if is_eos cfg.eos_token_id (pick h t c)
          then (h ++ t ∷ []) ++ pick h t c ∷ []
          else greedy_loop m cfg k ((h ++ t ∷ []) ++ pick h t c ∷ []) (feed (length h) (t ∷ []) c))
  unfolding greedy_loop
  greedy_loop-snoc k h t c = rw (decode_step-snoc h t c) refl

  -- The picks with the draft consumed token by token.
  pub picks_of : List ℕ → List ℕ → List (List Score) → List ℕ
  picks_of g draft [] = []
  picks_of g [] (scores ∷ rest) = select_next m cfg scores g ∷ picks_of g [] rest
  picks_of g (d ∷ ds) (scores ∷ rest) = select_next m cfg scores g ∷ picks_of (g ++ d ∷ []) ds rest

  take_next :
      (i : ℕ) (xs : List ℕ) (d : ℕ) (ds : List ℕ)
      → drop i xs ≡ d ∷ ds
      → (take (i + 1) xs ≡ take i xs ++ d ∷ []) × (drop (i + 1) xs ≡ ds)
  take_next zero [] d ds e = ground arith
  take_next zero (x ∷ xs) d ds e = ground arith
  take_next (suc i) [] d ds e = ground arith
  take_next (suc i) (x ∷ xs) d ds e =
      let s : suc i + 1 ≡ suc (i + 1) = omega arith in
      let (a, b) = take_next i xs d ds e in rw s (ap (◌∷◌ x) a, b)

  take_past :
      (i : ℕ) (xs : List ℕ)
      → drop i xs ≡ []
      → (take (i + 1) xs ≡ take i xs) × (drop (i + 1) xs ≡ [])
  take_past zero [] e = (refl, refl)
  take_past zero (x ∷ xs) e = ground arith
  take_past (suc i) [] e = let s : suc i + 1 ≡ suc (i + 1) = omega arith in rw s (refl, refl)
  take_past (suc i) (x ∷ xs) e =
      let s : suc i + 1 ≡ suc (i + 1) = omega arith in
      let (a, b) = take_past i xs e in rw s (ap (◌∷◌ x) a, b)

  picks_of_step :
      (g draft : List ℕ) (i : ℕ) (ds : List ℕ) (scores : List Score) (rest : List (List Score))
      → drop i draft ≡ ds
      → picks_of (g ++ take i draft) ds (scores ∷ rest)
        ≡ select_next m cfg scores (g ++ take i draft)
          ∷ picks_of (g ++ take (i + 1) draft) (drop (i + 1) draft) rest
  unfolding picks_of
  picks_of_step g draft i [] scores rest e = let (a, b) = take_past i draft e in rw (a, b) refl
  picks_of_step g draft i (d ∷ ds) scores rest e =
      let (a, b) = take_next i draft d ds e in rw (a, b, append_assoc) refl

  prefix_lem :
      (g draft : List ℕ) (i : ℕ) → (if i == 0 then g else g ++ take i draft) ≡ g ++ take i draft
  prefix_lem g draft zero = sym (append-nil g)
  prefix_lem g draft (suc i) = ground arith

  pub target_picks-picks_of :
      (g draft : List ℕ) (i : ℕ) (ls : List (List Score))
      → target_picks m cfg g draft i ls ≡ picks_of (g ++ take i draft) (drop i draft) ls
  unfolding target_picks picks_of
  target_picks-picks_of g draft i [] = refl
  target_picks-picks_of g draft i (scores ∷ rest) =
      rw (prefix_lem g draft i, target_picks-picks_of g draft (i + 1) rest)
        (sym (picks_of_step g draft i (drop i draft) scores rest refl))

  pub length-picks_of :
      (g draft : List ℕ) (ls : List (List Score)) → length (picks_of g draft ls) ≡ length ls
  unfolding picks_of
  length-picks_of g draft [] = refl
  length-picks_of g [] (scores ∷ rest) = ap suc (length-picks_of g [] rest)
  length-picks_of g (d ∷ ds) (scores ∷ rest) = ap suc (length-picks_of (g ++ d ∷ []) ds rest)

  -- The picks of a sweep over `t` and the draft.
  abbrev pub sweep_picks : List ℕ → ℕ → List ℕ → Cache → List ℕ
  sweep_picks h t ds c = picks_of (h ++ t ∷ []) ds (logits (length h) (t ∷ ds) c)

  -- The first pick is the greedy one, and the others are those of the sweep one token later.
  one_row : (rows : List (List Score)) → length rows ≡ 1 → rows ≡ get_or rows 0 [] ∷ []
  one_row [] e = absurd (omega arith)
  one_row (r ∷ []) e = refl
  one_row (r ∷ r' ∷ rows) e = absurd (omega arith)

  logits_cons :
      (h : List ℕ) (t : ℕ) (ds : List ℕ) (c : Cache)
      → logits (length h) (t ∷ ds) c
        ≡ get_or (logits (length h) (t ∷ []) c) 0 []
          ∷ logits (length (h ++ t ∷ [])) ds (feed (length h) (t ∷ []) c)
  logits_cons h t ds c =
      m.logits-append (length h) (t ∷ []) ds c
      ∙ rw (length-append h (t ∷ [])) (
          ap (λ rows. rows ++ logits (length h + 1) ds (feed (length h) (t ∷ []) c))
            (one_row _ (m.length-logits (length h) (t ∷ []) c)))

  -- What is left to decode after a sweep kept `kept`, `stop` when it ended at `eos`.
  abbrev pub resume : ℕ → List ℕ → List ℕ × Bool → Cache → List ℕ
  resume k g kept c = if kept.1 then g ++ kept.0 else greedy_loop m cfg k (g ++ kept.0) c

  abbrev pub cut : List ℕ → List ℕ × Bool
  cut = cut_at_eos cfg.eos_token_id

  cut_one : (p : ℕ) → cut (p ∷ []) ≡ (p ∷ [], is_eos cfg.eos_token_id p)
  unfolding cut_at_eos
  cut_one p = ground arith

  -- One round of greedy decoding, as the sweep over an empty draft.
  resume_one :
      (k : ℕ) (h : List ℕ) (t : ℕ) (c : Cache)
      → greedy_loop m cfg (suc k) (h ++ t ∷ []) c
        ≡ resume (suc k - 1) (h ++ t ∷ []) (cut (pick h t c ∷ [])) (feed (length h) (t ∷ []) c)
  resume_one k h t c =
      let shift : suc k - 1 ≡ k = omega arith in
      rw shift (greedy_loop-snoc k h t c ∙ rw (cut_one (pick h t c)) refl)

  feed_cons :
      (h : List ℕ) (t : ℕ) (ds : List ℕ) (c : Cache)
      → feed (length h) (t ∷ ds) c ≡ feed (length (h ++ t ∷ [])) ds (feed (length h) (t ∷ []) c)
  feed_cons h t ds c = rw (length-append h (t ∷ [])) (m.feed-append (length h) (t ∷ []) ds c)

  -- A drafted token that is the greedy pick is one round, and the rest of the sweep goes on from it.
  resume_cons :
      (k : ℕ) (h : List ℕ) (t p : ℕ) (ps : List ℕ) (c c' : Cache)
      → pick h t c ≡ p
      → greedy_loop m cfg k ((h ++ t ∷ []) ++ p ∷ []) (feed (length h) (t ∷ []) c)
        ≡ resume (k - length ps) ((h ++ t ∷ []) ++ p ∷ []) (cut ps) c'
      → greedy_loop m cfg (suc k) (h ++ t ∷ []) c
        ≡ resume (suc k - length (p ∷ ps)) (h ++ t ∷ []) (cut (p ∷ ps)) c'
  unfolding cut_at_eos
  resume_cons k h t p ps c c' e ih = elim (Bool-cases (is_eos cfg.eos_token_id p)) [
    | inl stop ↦ rw stop (greedy_loop-snoc k h t c ∙ rw (e, stop) refl)
    | inr go_on ↦
        let shift : suc k - length (p ∷ ps) ≡ k - length ps = omega arith in
        rw (go_on, shift) (greedy_loop-snoc k h t c ∙ rw (e, go_on) (ih ∙ rw append_assoc refl))
  ]

  -- The sweep over `t` and the draft keeps the picks up to the first that differs from the draft,
  -- and they are what greedy decoding finds.
  pub sweep_lem :
      (k : ℕ) (h : List ℕ) (t : ℕ) (ds : List ℕ) (c : Cache)
      → length ds < k
      → let picks = sweep_picks h t ds c in
        let n = agree ds picks in
        greedy_loop m cfg k (h ++ t ∷ []) c
        ≡ resume
            (k - length (take (suc n) picks))
            (h ++ t ∷ [])
            (cut (take (suc n) picks))
            (feed (length h) (t ∷ take n ds) c)
  unfolding picks_of agree
  sweep_lem zero h t ds c lt = absurd (omega arith)
  sweep_lem (suc k) h t [] c lt = rw logits_cons (resume_one k h t c)
  sweep_lem (suc k) h t (d ∷ ds) c lt = rw logits_cons (elim (Bool-cases (pick h t c == d)) [
    | inl same ↦
        let e = (==_iff (pick h t c) d).0 same in
        rw (same, feed_cons h t (d ∷ take (agree ds _) ds) c)
          (resume_cons k h t (pick h t c) _ c _ refl
            (rw e (sweep_lem k (h ++ t ∷ []) d ds _ (omega arith))))
    | inr other ↦ rw other (resume_one k h t c)
  ])
