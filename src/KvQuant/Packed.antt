-- ===== src/KvQuant/Packed.antt =====
-- The packing of src/swlp/core/kv_quant.py and its reverse.
use swlp.Prelude.{
  length-map, ◌^◌, ◌↔◌, ℕ, ◌+◌, ◌-◌, ◌*◌, ◌%◌, ◌<◌, ◌≤◌, min, ◌≡◌, refl, ap, ap₂, ◌∙◌, false, List,
  [], ◌∷◌, map, ok, err, ◌==◌, leb, if◌then◌else◌, length, arith, if-all, ==_iff,
}
use swlp.KvQuant.{
  ℤ, pos, negsuc, int4_bound, int4_bias, odd_head_dim, clamp, biased, unbiased, byte, low_nibble,
  high_nibble, pack_pairs, kv_quantize_int4, kv_dequantize_int4,
}

low_nibble-byte : (e o : ℕ) → e < 16 → o < 16 → low_nibble (byte e o) ≡ e
low_nibble-byte e o le lo = omega arith

high_nibble-byte : (e o : ℕ) → e < 16 → o < 16 → high_nibble (byte e o) ≡ o
high_nibble-byte e o le lo = omega arith

biased-clamp : (z : ℤ) → biased (clamp z) < 16
biased-clamp (pos n) = omega arith
biased-clamp (negsuc n) = omega arith

unbiased-biased : (z : ℤ) → unbiased (biased (clamp z)) ≡ clamp z
unbiased-biased (pos n) =
    let u = (min n int4_bound + int4_bias) % 2 ^ 8 in
    let size : u ≡ min n 7 + 8 = omega arith in
    if-all (λ z. z ≡ pos (min n int4_bound)) (leb int4_bias u) (pos (u - int4_bias))
      (negsuc (int4_bias - (u + 1))) (λ big. ap pos (omega arith))
      (λ small. let less : u < 8 = ground arith in absurd (omega arith))
unbiased-biased (negsuc n) =
    let u = (int4_bias - (min n (int4_bound - 1) + 1)) % 2 ^ 8 in
    let size : u ≡ 7 - min n 6 = omega arith in
    if-all (λ z. z ≡ negsuc (min n (int4_bound - 1))) (leb int4_bias u) (pos (u - int4_bias))
      (negsuc (int4_bias - (u + 1)))
      (λ big. let more : 8 ≤ u = ground arith in absurd (omega arith))
      (λ small. ap negsuc (omega arith))

-- A list of even length, as pairs.
kv_dequantize_int4-pack_pairs :
    (zs : List ℤ)
    → length zs % 2 ≡ 0
    → kv_dequantize_int4 (pack_pairs (map (λ z. biased (clamp z)) zs)) ≡ map clamp zs
unfolding kv_dequantize_int4
kv_dequantize_int4-pack_pairs [] even = refl
kv_dequantize_int4-pack_pairs (x ∷ []) even = absurd (omega arith)
kv_dequantize_int4-pack_pairs (x ∷ y ∷ zs) even =
    let bx = biased (clamp x) in
    let by = biased (clamp y) in
    let low : unbiased (low_nibble (byte bx by)) ≡ clamp x =
      ap unbiased (low_nibble-byte bx by (biased-clamp x) (biased-clamp y)) ∙ unbiased-biased x in
    let high : unbiased (high_nibble (byte bx by)) ≡ clamp y =
      ap unbiased (high_nibble-byte bx by (biased-clamp x) (biased-clamp y)) ∙ unbiased-biased y in
    ap₂ ◌∷◌ low (ap₂ ◌∷◌ high (kv_dequantize_int4-pack_pairs zs (omega arith)))

length-pack_pairs : (bs : List ℕ) → length bs % 2 ≡ 0 → length (pack_pairs bs) * 2 ≡ length bs
length-pack_pairs [] even = refl
length-pack_pairs (x ∷ []) even = absurd (omega arith)
length-pack_pairs (x ∷ y ∷ bs) even = let rest = length-pack_pairs bs (omega arith) in omega arith

abbrev pub Bytes : List ℕ → Type 0
Bytes [] = Unit
Bytes (b ∷ bs) = (b < 256) × Bytes bs

pack_pairs-Bytes : (bs : List ℕ) → Bytes (pack_pairs bs)
pack_pairs-Bytes [] = tt
pack_pairs-Bytes (x ∷ []) = tt
pack_pairs-Bytes (x ∷ y ∷ bs) = (omega arith, pack_pairs-Bytes bs)

-- A position of even length is quantised without error, to half as many numbers, each of which fits a
-- byte, and from which `kv_dequantize_int4` gets back exactly the clamped values.
pub kv_dequantize_int4-kv_quantize_int4 :
    (rounded : List ℤ)
    → length rounded % 2 ≡ 0
    → (packed : List ℕ) × (kv_quantize_int4 rounded ≡ ok packed)
      × (length packed * 2 ≡ length rounded)
      × Bytes packed
      × (kv_dequantize_int4 packed ≡ map clamp rounded)
unfolding kv_quantize_int4
kv_dequantize_int4-kv_quantize_int4 rounded even =
    let bs = map (λ z. biased (clamp z)) rounded in
    let same : length bs ≡ length rounded = length-map rounded (λ z. biased (clamp z)) in
    let half = length-pack_pairs bs (omega arith) in
    (
      pack_pairs bs,
      ap (λ b. if b then ok (pack_pairs bs) else err odd_head_dim)
          ((==_iff (length rounded % 2) 0).1 even),
      omega arith,
      pack_pairs-Bytes bs,
      kv_dequantize_int4-pack_pairs rounded even,
    )

-- Quantisation fails exactly on a position of odd length.
pub kv_quantize_int4-err :
    (rounded : List ℤ) → (kv_quantize_int4 rounded ≡ err odd_head_dim) ↔ (length rounded % 2 ≡ 1)
unfolding kv_quantize_int4
kv_quantize_int4-err rounded = (
  if-all (λ r. r ≡ err odd_head_dim → length rounded % 2 ≡ 1) (length rounded % 2 == 0) _ _
      (λ even e. absurd (ground arith)) (λ odd e. ground arith),
  λ odd.
      let off : (length rounded % 2 == 0) ≡ false = ground arith in
      ap
        (λ b. if b then ok (pack_pairs (map (λ z. biased (clamp z)) rounded)) else err odd_head_dim)
        off,
)
