-- ===== src/Tests/Hybrid.antt =====
-- Three tokens are fed to a hybrid cache, two are kept.
use swlp.Prelude.{ℕ, ◌+◌, ◌≡◌, refl, arith, List, [], ◌∷◌, ok}
use swlp.Rollback.{
  Layer, attention, linear, Fed, to_attention, to_linear, sweep_layers, record_sweep,
  rollback_hybrid_cache,
}
use swlp.Rollback.Rewound.{rollback_hybrid_cache-sweep}

abbrev sum_from : ℕ → List ℕ → ℕ
sum_from state [] = state
sum_from state (d ∷ ds) = sum_from (state + d) ds

-- The chunked kernel rounds differently.
abbrev sum_chunk : ℕ → List ℕ → ℕ
sum_chunk state ds = sum_from state ds + 1

abbrev hybrid : List (Layer ℕ ℕ ℕ)
hybrid = attention (1 ∷ 2 ∷ []) ∷ linear (5 ∷ 6 ∷ []) 10 ∷ []

abbrev three_tokens : List (Fed ℕ ℕ ℕ)
three_tokens = to_attention (3 ∷ 4 ∷ 5 ∷ []) ∷ to_linear (7 ∷ 8 ∷ 9 ∷ []) (1 ∷ 2 ∷ 3 ∷ []) ∷ []

rollback_hybrid_cache-sweep_example :
    rollback_hybrid_cache sum_chunk sum_from
      (sweep_layers sum_chunk sum_from hybrid three_tokens)
      (record_sweep sum_chunk sum_from hybrid three_tokens)
      2
      3
    ≡ ok (attention (1 ∷ 2 ∷ 3 ∷ 4 ∷ []) ∷ linear (7 ∷ 8 ∷ []) 13 ∷ [])
rollback_hybrid_cache-sweep_example =
    rollback_hybrid_cache-sweep sum_chunk sum_from 2 3 hybrid three_tokens (omega arith)
      (omega arith) (refl, (refl, tt))
