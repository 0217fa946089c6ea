-- ===== src/Tests/Quantised.antt =====
-- A position of four numbers.
use swlp.Prelude.{ℕ, ◌*◌, ◌≡◌, refl, List, [], ◌∷◌, length, ok}
use swlp.KvQuant.{ℤ, pos, negsuc, kv_quantize_int4, kv_dequantize_int4}
use swlp.KvQuant.Packed.{Bytes, kv_dequantize_int4-kv_quantize_int4}

abbrev four : List ℤ
four = pos 3 ∷ negsuc 8 ∷ pos 9 ∷ negsuc 0 ∷ []

kv_dequantize_int4-kv_quantize_int4_example :
    (packed : List ℕ) × (kv_quantize_int4 four ≡ ok packed)
    × (length packed * 2 ≡ 4)
    × Bytes packed
    × (kv_dequantize_int4 packed ≡ pos 3 ∷ negsuc 6 ∷ pos 7 ∷ negsuc 0 ∷ [])
kv_dequantize_int4-kv_quantize_int4_example = kv_dequantize_int4-kv_quantize_int4 four refl
