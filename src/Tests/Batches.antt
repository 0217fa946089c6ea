-- ===== src/Tests/Batches.antt =====
-- A batch of two rows on the toy model; one of them ends before the other.
use swlp.Prelude.{ℕ, ◌≡◌, refl, arith, true, false, some, List, [], ◌∷◌, map}
use swlp.Decode.{GenerationConfig, cut_at_eos, is_eos}
use swlp.Tests.Toy.{toy, row}
use swlp.Batch.{Row, completion, batch_loop}
use swlp.Batch.Independent.{IsRow, each_alone, batch_loop-alone}

abbrev settings : GenerationConfig
settings = record { penalty = true; eos_token_id = some 3; max_new_tokens = 6 }

abbrev toy_sweep : ℕ × List ℕ → List ℕ × List ℕ
toy_sweep (x, c) = (row (x ∷ c), x ∷ c)

abbrev first_row : Row (List ℕ)
first_row = record { generated = 1 ∷ 2 ∷ []; cache = 1 ∷ []; finished = false }

abbrev second_row : Row (List ℕ)
second_row = record { generated = 0 ∷ 3 ∷ []; cache = 0 ∷ []; finished = true }

abbrev two_rows : List (Row (List ℕ))
two_rows = first_row ∷ second_row ∷ []

first_row-IsRow : IsRow toy settings 0 1 first_row
unfolding cut_at_eos is_eos
first_row-IsRow = record { long = omega arith; marked = refl }

second_row-IsRow : IsRow toy settings 0 1 second_row
unfolding cut_at_eos is_eos
second_row-IsRow = record { long = omega arith; marked = refl }

batch_loop-alone_example :
    map (completion toy settings 0 1) (batch_loop toy settings 0 1 (map toy_sweep) 4 two_rows)
    ≡ each_alone toy settings 0 1 toy_sweep 4 two_rows
batch_loop-alone_example =
    batch_loop-alone toy settings 0 1 (map toy_sweep) toy_sweep (λ xs. refl) 4 two_rows
      (first_row-IsRow, (second_row-IsRow, tt))
