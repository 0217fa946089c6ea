-- ===== src/Tests/Prefixes.antt =====
-- The prefix cache's theorems with layers that record the tokens they cover.
use swlp.Prelude.{
  ℕ, zero, suc, ◌≡◌, refl, sym, ap, Option, none, some, List, [], ◌∷◌, arith, length, take,
  get_elem?,
}
use swlp.PrefixCache.Tensors.{Layers}
use swlp.PrefixCache.{PrefixKvCache, new_cache, lookup, store}
use swlp.PrefixCache.Bounded.{IsBounded, store-IsBounded}
use swlp.PrefixCache.Lossless.{HitIsLossless}
use swlp.PrefixCache.History.{Call, look, keep, run, run-IsGood-lossless}

abbrev layers : Layers
layers = record { Kv = List ℕ; seq_len = length; nbytes = length; prefix = take }

-- One layer, which holds the tokens.
abbrev prefilled : List ℕ → List (List ℕ)
prefilled tokens = tokens ∷ []

prefilled-covers :
    (tokens : List ℕ) (i : ℕ) (kv : List ℕ)
    → get_elem? (prefilled tokens) i ≡ some kv
    → length kv ≡ length tokens
prefilled-covers tokens zero kv at =
    let size : Option (List ℕ) → ℕ = λ o. elim o [ none ↦ 0 | some x ↦ length x ] in
    sym (ap size at)
prefilled-covers tokens (suc i) kv at = absurd (ground arith)

abbrev prompt : List ℕ
prompt = 5 ∷ 6 ∷ 7 ∷ 8 ∷ 9 ∷ []

abbrev calls : List Call
calls = keep 1 prompt 4 ∷ look 2 prompt 1 none ∷ keep 3 (5 ∷ 6 ∷ 4 ∷ []) 3 ∷ []

abbrev filled : PrefixKvCache layers
filled = run layers prefilled (new_cache layers 3 2 100) calls

run-IsGood-lossless_example :
    IsBounded layers filled
    × HitIsLossless layers prefilled prompt (lookup layers filled 4 prompt 1 (some 5)).0
run-IsGood-lossless_example =
    run-IsGood-lossless layers prefilled (λ n tokens le. refl) prefilled-covers 3 2 100 calls 4
      prompt 1 (some 5)

empty-IsBounded : IsBounded layers (new_cache layers 3 2 100)
unfolding new_cache
empty-IsBounded = record { exact = refl; few = omega arith; small = omega arith }

store-IsBounded_example :
    IsBounded layers (store layers (new_cache layers 3 2 100) 1 prompt (prompt ∷ []))
store-IsBounded_example =
    store-IsBounded layers (new_cache layers 3 2 100) 1 prompt (prompt ∷ []) empty-IsBounded
