-- ===== src/Batch/Independent.antt =====
-- Rows of a batch of src/swlp/runner/batch.py, and the same rows alone.
use swlp.Prelude.{
  ℕ, zero, suc, ◌≤◌, ◌≡◌, refl, sym, ap, ap₂, ◌∙◌, true, ◌||◌, List, [], ◌∷◌, map, if◌then◌else◌,
  length, drop, if-all, arith, Bool-cases, length-append, inl, inr,
}
use swlp.Model.{Model}
use swlp.Decode.{GenerationConfig, is_eos, cut_at_eos}
use swlp.Batch.{Row, select_row, advance, advance_all, fed, all_finished, completion, batch_loop}
use swlp.Batch.Cut.{drop-append, cut_at_eos-append, cut_at_eos-last}

module _ (m : Model) {C : Type 0} (cfg : GenerationConfig) (pad_id prompt_len : ℕ) where
  open m use {Score}

  -- A row counts as finished when its new tokens have the end-of-sequence token.
  pub record IsRow (row : Row C) : Type 0 where
    pub long : prompt_len ≤ length row.generated
    pub marked : row.finished ≡ (cut_at_eos cfg.eos_token_id (drop prompt_len row.generated)).1

  advance-IsRow :
      (row : Row C) (a : List Score × C) → IsRow row → IsRow (advance m cfg pad_id prompt_len row a)
  unfolding advance
  advance-IsRow row (scores, cache) h =
      let t = if row.finished then pad_id else select_row m cfg scores row.generated in
      record {
        long = let n = h.long in omega (arith, length-append row.generated (t ∷ []));
        marked =
            ap (λ b. b || is_eos cfg.eos_token_id t) h.marked
            ∙ sym (cut_at_eos-last cfg.eos_token_id (drop prompt_len row.generated) t)
            ∙ sym (
                ap (λ l. (cut_at_eos cfg.eos_token_id l).1)
                  (drop-append prompt_len row.generated (t ∷ []) h.long));
      }

  -- A finished row yields the same after one more token.
  completion-advance :
      (row : Row C) (a : List Score × C)
      → IsRow row
      → row.finished ≡ true
      → completion m cfg pad_id prompt_len (advance m cfg pad_id prompt_len row a)
        ≡ completion m cfg pad_id prompt_len row
  unfolding advance completion
  completion-advance row (scores, cache) h done =
      let t = if row.finished then pad_id else select_row m cfg scores row.generated in
      ap (λ l. (cut_at_eos cfg.eos_token_id l).0)
        (drop-append prompt_len row.generated (t ∷ []) h.long)
      ∙ ap (λ p. p.0)
          (cut_at_eos-append cfg.eos_token_id (drop prompt_len row.generated) (t ∷ [])
            (sym h.marked ∙ done))

  finished-advance :
      (row : Row C) (a : List Score × C)
      → row.finished ≡ true
      → (advance m cfg pad_id prompt_len row a).finished ≡ true
  unfolding advance
  finished-advance row (scores, cache) done =
      ap
        (λ b.
          b
          || is_eos cfg.eos_token_id
              (if row.finished then pad_id else select_row m cfg scores row.generated))
        done

  -- A sweep acts on every row alone.
  module _ (sweep_row : ℕ × C → List Score × C) where
    abbrev alone : Row C → Row C
    alone row = advance m cfg pad_id prompt_len row (sweep_row (fed m cfg pad_id prompt_len row))

    -- One row on its own, which stops at its end.
    abbrev pub row_loop : ℕ → Row C → Row C
    row_loop zero row = row
    row_loop (suc rounds) row =
        let rest = row_loop rounds (alone row) in if row.finished then row else rest

    row_loop-finished : (rounds : ℕ) (row : Row C) → row.finished ≡ true → row_loop rounds row ≡ row
    row_loop-finished zero row done = refl
    row_loop-finished (suc rounds) row done =
        ap (λ b. if b then row else row_loop rounds (alone row)) done

    -- Whether a row stops at its end or is filled up with pad tokens, it yields the same.
    completion-alone :
        (rounds : ℕ) (row : Row C)
        → IsRow row
        → completion m cfg pad_id prompt_len (row_loop rounds (alone row))
          ≡ completion m cfg pad_id prompt_len (row_loop (suc rounds) row)
    completion-alone rounds row h = elim (Bool-cases row.finished) [
      | inl done ↦
          ap (completion m cfg pad_id prompt_len)
            (row_loop-finished rounds (alone row) (finished-advance row _ done))
          ∙ completion-advance row _ h done
          ∙ sym (ap (completion m cfg pad_id prompt_len) (row_loop-finished (suc rounds) row done))
      | inr going ↦ sym (
          ap
            (λ b.
              completion m cfg pad_id prompt_len (if b then row else row_loop rounds (alone row)))
            going)
    ]

    abbrev pub AllRows : List (Row C) → Type 0
    AllRows [] = Unit
    AllRows (row ∷ rows) = IsRow row × AllRows rows

    advance_all-alone :
        (rows : List (Row C))
        → advance_all m cfg pad_id prompt_len rows
            (map sweep_row (map (fed m cfg pad_id prompt_len) rows))
          ≡ map alone rows
    advance_all-alone [] = refl
    advance_all-alone (row ∷ rows) = ap (◌∷◌ (alone row)) (advance_all-alone rows)

    alone-AllRows : (rows : List (Row C)) → AllRows rows → AllRows (map alone rows)
    alone-AllRows [] h = tt
    alone-AllRows (row ∷ rows) (one, rest) = (advance-IsRow row _ one, alone-AllRows rows rest)

    -- What the rows yield on their own.
    abbrev pub each_alone : ℕ → List (Row C) → List (List ℕ)
    each_alone rounds rows =
        map (λ row. completion m cfg pad_id prompt_len (row_loop rounds row)) rows

    each_finished :
        (rounds : ℕ) (rows : List (Row C))
        → all_finished m cfg pad_id prompt_len rows ≡ true
        → map (completion m cfg pad_id prompt_len) rows ≡ each_alone rounds rows
    each_finished rounds [] done = refl
    each_finished rounds (row ∷ rows) done =
        let here : row.finished ≡ true = ground arith in
        let rest : all_finished m cfg pad_id prompt_len rows ≡ true = ground arith in
        ap₂ ◌∷◌ (sym (ap (completion m cfg pad_id prompt_len) (row_loop-finished rounds row here)))
          (each_finished rounds rows rest)

    each-alone :
        (rounds : ℕ) (rows : List (Row C))
        → AllRows rows
        → each_alone rounds (map alone rows) ≡ each_alone (suc rounds) rows
    each-alone rounds [] h = refl
    each-alone rounds (row ∷ rows) (one, rest) =
        ap₂ ◌∷◌ (completion-alone rounds row one) (each-alone rounds rows rest)

  module _ (sweep : List (ℕ × C) → List (List Score × C)) (sweep_row : ℕ × C → List Score × C)
      (rows_alone : (xs : List (ℕ × C)) → sweep xs ≡ map sweep_row xs) where
    -- When a sweep over a batch does to every row what it does to that row alone, the lockstep loop
    -- yields for every row what the row yields on its own: pad tokens of finished rows, and the rounds
    -- that a row waits for the others, do not change it.
    pub batch_loop-alone :
        (rounds : ℕ) (rows : List (Row C))
        → AllRows sweep_row rows
        → map
            (completion m cfg pad_id prompt_len)
            (batch_loop m cfg pad_id prompt_len sweep rounds rows)
          ≡ each_alone sweep_row rounds rows
    unfolding batch_loop
    batch_loop-alone zero rows h = refl
    batch_loop-alone (suc rounds) rows h =
        let fed_rows = map (fed m cfg pad_id prompt_len) rows in
        if-all
          (λ r. map (completion m cfg pad_id prompt_len) r ≡ each_alone sweep_row (suc rounds) rows)
          (all_finished m cfg pad_id prompt_len rows) rows
          (batch_loop m cfg pad_id prompt_len sweep rounds
            (advance_all m cfg pad_id prompt_len rows (sweep fed_rows)))
          (λ done. each_finished sweep_row (suc rounds) rows done)
          (λ going.
            ap
              (λ a.
                map (completion m cfg pad_id prompt_len)
                  (batch_loop m cfg pad_id prompt_len sweep rounds a))
              (ap (advance_all m cfg pad_id prompt_len rows) (rows_alone fed_rows)
                ∙ advance_all-alone sweep_row rows)
            ∙ batch_loop-alone rounds (map (alone sweep_row) rows) (alone-AllRows sweep_row rows h)
            ∙ each-alone sweep_row rounds rows h)
