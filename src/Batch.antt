-- ===== src/Batch.antt =====
-- `run_batch` of src/swlp/runner/batch.py: rows that are decoded in lockstep. The sweep of the streamed
-- blocks over a batch is a parameter; loading, tokenisation and metrics are left out.
pub mod Cut
pub mod Independent
use swlp.Prelude.{
  ℕ, zero, suc, ◌+◌, ◌-◌, Bool, true, false, ◌&&◌, ◌||◌, Option, none, some, List, [], ◌∷◌, ◌++◌,
  map, ◌==◌, if◌then◌else◌, length, get_or, drop,
}
use swlp.Model.{Model}
use swlp.Decode.{GenerationConfig, is_eos, cut_at_eos, apply_repetition_penalty}

-- A row of `generated`, its cache and its entry of `finished`.
pub record Row (C : Type 0) : Type 0 where
  pub generated : List ℕ
  pub cache : C
  pub finished : Bool

abbrev pub is_member : ℕ → List ℕ → Bool
is_member t [] = false
is_member t (u ∷ us) = u == t || is_member t us

-- `set(...)` of the ids of a row; the order does not matter for the penalty of distinct ids.
abbrev pub distinct : List ℕ → List ℕ
distinct [] = []
distinct (t ∷ ts) = let rest = distinct ts in if is_member t ts then rest else t ∷ rest

-- `_select_batch` on one row, with `do_sample` off.
unfoldable pub select_row : (m : Model) → GenerationConfig → List m.Score → List ℕ → ℕ
select_row m cfg scores generated =
    m.argmax
      (if cfg.penalty then apply_repetition_penalty m (distinct generated) scores else scores)

module _ (m : Model) {C : Type 0} (cfg : GenerationConfig) (pad_id prompt_len : ℕ) where
  open m use {Score}

  -- A finished row gets the pad token.
  unfoldable pub advance : Row C → List Score × C → Row C
  advance row (scores, cache) =
      let next_tok = if row.finished then pad_id else select_row m cfg scores row.generated in
      record {
        generated = row.generated ++ next_tok ∷ [];
        cache = cache;
        finished = row.finished || is_eos cfg.eos_token_id next_tok;
      }

  abbrev pub advance_all : List (Row C) → List (List Score × C) → List (Row C)
  advance_all [] answers = []
  advance_all (row ∷ rows) [] = []
  advance_all (row ∷ rows) (answer ∷ answers) = advance row answer ∷ advance_all rows answers

  -- `generated[:, -1:]` of a row, which is not empty.
  abbrev pub fed : Row C → ℕ × C
  fed row = (get_or row.generated (length row.generated - 1) 0, row.cache)

  abbrev pub all_finished : List (Row C) → Bool
  all_finished [] = true
  all_finished (row ∷ rows) = row.finished && all_finished rows

  -- The ids of `_decode_completion`.
  unfoldable pub completion : Row C → List ℕ
  completion row = (cut_at_eos cfg.eos_token_id (drop prompt_len row.generated)).0

  module _ (sweep : List (ℕ × C) → List (List Score × C)) where
    -- `for _ in range(max_new - 1)`, over the rounds left.
    unfoldable pub batch_loop : ℕ → List (Row C) → List (Row C)
    batch_loop zero rows = rows
    batch_loop (suc rounds) rows =
        let rest = batch_loop rounds (advance_all rows (sweep (map fed rows))) in
        if all_finished rows then rows else rest

  -- After the sweep over the prompts, which gives `firsts`.
  unfoldable pub run_batch :
      (List (ℕ × C) → List (List Score × C)) → List (Row C) → List (List Score × C) → List (List ℕ)
  run_batch sweep rows firsts = map completion (
      if cfg.max_new_tokens == 0
      then rows
      else batch_loop sweep (cfg.max_new_tokens - 1) (advance_all rows firsts))
