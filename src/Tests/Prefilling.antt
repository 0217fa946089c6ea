-- ===== src/Tests/Prefilling.antt =====
-- The prefill's theorems at the toy model, and runs that show what a prefix hit changes.
use swlp.Prelude.{ℕ, ◌≡◌, refl, false, none, List, [], ◌∷◌, ◌++◌, arith}
use swlp.Decode.{
  GenerationConfig, greedy_loop, generate_greedy, select_next, decode_step, last_slice, is_eos,
}
use swlp.Decode.Prefill.{last_row, prefill, run_tokens, run_tokens-chunk, prefill-hit}
use swlp.Tests.Toy.{toy}

abbrev plain_cfg : GenerationConfig
plain_cfg = record { penalty = false; eos_token_id = none; max_new_tokens = 4 }

abbrev head : List ℕ
head = 1 ∷ 2 ∷ []

abbrev tail : List ℕ
tail = 1 ∷ 3 ∷ 2 ∷ []

run_tokens-chunk_example :
    run_tokens toy plain_cfg 2 0 (head ++ tail) [] ≡ run_tokens toy plain_cfg 0 0 (head ++ tail) []
run_tokens-chunk_example = run_tokens-chunk toy plain_cfg 2 0 (head ++ tail) [] (omega arith)

prefill-hit_example :
    ((prefill toy 2 2 tail (toy.feed 0 head [])).1 ≡ (prefill toy 2 0 (head ++ tail) []).1)
    × (last_row toy (prefill toy 2 2 tail (toy.feed 0 head [])).0
        ≡ last_row toy (prefill toy 2 0 (head ++ tail) []).0)
prefill-hit_example = prefill-hit toy 2 head tail [] (omega arith)

-- Without a hit.
plain_run : run_tokens toy plain_cfg 0 0 (head ++ tail) [] ≡ 1 ∷ 2 ∷ 1 ∷ 3 ∷ 2 ∷ 3 ∷ 3 ∷ 0 ∷ 3 ∷ []
unfolding run_tokens prefill generate_greedy greedy_loop select_next decode_step last_slice is_eos
plain_run = refl

-- With the first two tokens seeded: the second generated token differs, since it is fed at a position
-- that does not count the seeded prefix.
hit_run : run_tokens toy plain_cfg 0 2 tail (toy.feed 0 head []) ≡ 1 ∷ 3 ∷ 2 ∷ 3 ∷ 1 ∷ 2 ∷ 1 ∷ []
unfolding run_tokens prefill generate_greedy greedy_loop select_next decode_step last_slice is_eos
hit_run = refl
