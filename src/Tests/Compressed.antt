-- ===== src/Tests/Compressed.antt =====
-- The compressed cache over a manager with two layers.
use swlp.Prelude.{ℕ, ◌+◌, ◌≡◌, refl, sym, true, false, Option, none, some, put, put-all_ne, arith}
use swlp.KvCache.Refinement.{update_apart}
use swlp.CompressedCache.{
  CompressedDynamicLayer, CompressedDynamicCache, cold_layer, compress, get_seq_length,
}
use swlp.CompressedCache.Restored.{Stands, StandsFor, with_layer, Compresses, compress-StandsFor}
use swlp.CompressedCache.Extended.{Updates, update-Updates}
use swlp.Tests.KvStore.{storage, two_layers, two_kept, two_layers-Refines}

-- New positions are added to the count of a layer.
abbrev joined_rows : Option ℕ → ℕ → ℕ
joined_rows none x = x
joined_rows (some t) x = t + x

abbrev warm_five : CompressedDynamicLayer storage
warm_five = record { keys = some 5; cold = false; cold_seq_len = 0 }

-- Layer 2 is warm, the others are cold.
abbrev three_layers : CompressedDynamicCache storage
three_layers = record {
  n_layers = 3;
  layers = put (λ i. cold_layer storage 0 8) 2 warm_five;
  kv_manager = two_layers;
}

abbrev three_kept : ℕ → Option ℕ
three_kept = with_layer storage two_kept 2 (some 5)

three_layers-StandsFor : StandsFor storage three_layers three_kept
three_layers-StandsFor = record {
  kept = two_kept;
  refines = two_layers-Refines;
  stands =
      put-all_ne (Stands storage two_kept three_kept) (λ i. cold_layer storage 0 8) 2 warm_five refl
        (λ j differ. update_apart storage two_kept 2 j (some 5) (λ e. differ (sym e)));
  bare =
      put-all_ne (λ j k. k.cold ≡ true → k.keys ≡ none) (λ i. cold_layer storage 0 8) 2 warm_five
        (λ e. absurd (ground arith)) (λ j differ e. refl);
}

compress-StandsFor_example :
    Compresses storage three_layers three_kept 2 5 (compress storage three_layers 4 2 true)
compress-StandsFor_example =
    compress-StandsFor storage three_layers three_kept 4 2 true 5 refl refl three_layers-StandsFor

update-Updates_example :
    Updates storage joined_rows three_kept 5 1 3 three_layers
      (swlp.CompressedCache.update storage joined_rows three_layers 5 1 3)
update-Updates_example =
    update-Updates storage joined_rows three_layers three_kept 5 1 3 three_layers-StandsFor
