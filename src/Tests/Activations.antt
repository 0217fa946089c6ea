-- ===== src/Tests/Activations.antt =====
-- The activation cache's theorem at two long prompts that differ after 64 tokens.
use swlp.Prelude.{ℕ, ◌%◌, ◌≤◌, ◌≡◌, refl, some, List, [], ◌∷◌, ◌++◌, arith, length, replicate}
use swlp.ActivationCache.{ActivationCache, hash_tokens, lookup, store}
use swlp.ActivationCache.Recent.{lookup-store}
use swlp.Tests.Toy.{sum}

abbrev digest : List ℕ → ℕ
digest tokens = sum tokens % 97

abbrev one_prompt : List ℕ
one_prompt = replicate 64 2 ++ 7 ∷ []

abbrev other_prompt : List ℕ
other_prompt = replicate 64 2 ++ 8 ∷ 9 ∷ []

abbrev activations : ActivationCache ℕ digest
activations = record { max_entries = 2; cache = (5, 50) ∷ (6, 60) ∷ []; hits = 0; misses = 0 }

lookup-store_example :
    (length (store ℕ digest activations one_prompt 11).cache ≤ 2)
    × ((lookup ℕ digest (store ℕ digest activations one_prompt 11) other_prompt).0
        ≡ some (hash_tokens ℕ digest other_prompt, 11))
lookup-store_example =
    lookup-store ℕ digest activations one_prompt other_prompt 11 (omega arith)
      (refl, (refl, omega arith)) refl
