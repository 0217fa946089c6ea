-- ===== src/KvQuant.antt =====
-- The integer part of src/swlp/core/kv_quant.py, on one position of one head: the rounded values of its
-- `head_dim` numbers are clamped, biased and packed, two to a byte. Scales and the rounding itself are
-- floating-point operations and stay outside: `rounded` are the results of `.round()`.
pub mod Packed
use swlp.Prelude.{
  ℕ, zero, suc, ◌+◌, ◌-◌, ◌*◌, ◌/◌, ◌%◌, ◌^◌, min, Bool, true, false, List, [], ◌∷◌, map, Result,
  ok, err, ◌==◌, leb, if◌then◌else◌, length,
}

-- The integers over the native numbers; `negsuc n` is `-(n + 1)`.
pub data ℤ : Type 0 where
  pos negsuc : ℕ → ℤ

pub data QuantError : Type 0 where
  odd_head_dim : QuantError

abbrev pub int4_bound : ℕ
int4_bound = 7

abbrev pub int4_bias : ℕ
int4_bias = 8

-- `.clamp(-_INT4_BOUND, _INT4_BOUND)`
abbrev pub clamp : ℤ → ℤ
clamp (pos n) = pos (min n int4_bound)
clamp (negsuc n) = negsuc (min n (int4_bound - 1))

-- `(q + _INT4_BIAS).to(torch.uint8)`, for `q` of at least `-_INT4_BIAS`.
abbrev pub biased : ℤ → ℕ
biased (pos n) = (n + int4_bias) % 2 ^ 8
biased (negsuc n) = (int4_bias - (n + 1)) % 2 ^ 8

-- `low - _INT4_BIAS`
abbrev pub unbiased : ℕ → ℤ
unbiased u = if leb int4_bias u then pos (u - int4_bias) else negsuc (int4_bias - (u + 1))

-- `(even & 0xF) | ((odd & 0xF) << 4)`: the two nibbles share no bit, so that `|` is a sum.
abbrev pub byte : ℕ → ℕ → ℕ
byte even odd = even % 2 ^ 4 + (odd % 2 ^ 4) * 2 ^ 4

abbrev pub low_nibble : ℕ → ℕ
low_nibble packed = packed % 2 ^ 4

abbrev pub high_nibble : ℕ → ℕ
high_nibble packed = (packed / 2 ^ 4) % 2 ^ 4

-- `q_u[..., 0::2]` and `q_u[..., 1::2]`, taken together.
abbrev pub pack_pairs : List ℕ → List ℕ
pack_pairs [] = []
pack_pairs (even ∷ []) = []
pack_pairs (even ∷ odd ∷ rest) = byte even odd ∷ pack_pairs rest

unfoldable pub kv_quantize_int4 : List ℤ → Result QuantError (List ℕ)
kv_quantize_int4 rounded =
    if length rounded % 2 == 0
    then ok (pack_pairs (map (λ z. biased (clamp z)) rounded))
    else err odd_head_dim

-- The integers that `kv_dequantize_int4` multiplies with the scale.
unfoldable pub kv_dequantize_int4 : List ℕ → List ℤ
kv_dequantize_int4 [] = []
kv_dequantize_int4 (b ∷ packed) =
    unbiased (low_nibble b) ∷ unbiased (high_nibble b) ∷ kv_dequantize_int4 packed

-- `kv_quantized_bytes` of a tensor with `numel` numbers and a last dimension of `head_dim`.
unfoldable pub kv_quantized_bytes : ℕ → ℕ → ℕ
kv_quantized_bytes numel head_dim =
    let batch_heads_seq = numel / head_dim in (head_dim / 2) * batch_heads_seq + batch_heads_seq * 2
