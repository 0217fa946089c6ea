-- ===== src/KvCache/Backend.antt =====
-- What the KV manager uses of torch, zlib and the INT4 quantiser. Tensors are their values: moving
-- them between devices (`.to`, `.detach().cpu()`) changes no value, and where they are is the
-- entry's `location`.
use swlp.Prelude.{ℕ, ◌≡◌, Option, none, some}

pub record Storage : Type 1 where
  -- a `(k, v)` pair, its size in bytes, its number of positions, and its last positions
  pub Tensors : Type 0
  pub size : Tensors → ℕ
  pub seq_len : Tensors → ℕ
  pub keep_last : ℕ → Tensors → Tensors
  -- `torch.save` and `torch.load`, which raises (`none`) on what is not such a file
  pub Bytes : Type 0
  pub byte_length : Bytes → ℕ
  pub save : Tensors → Bytes
  pub load : Bytes → Option Tensors
  -- zlib
  pub compress : Bytes → Bytes
  pub decompress : Bytes → Bytes
  -- the packed INT4 form (src/swlp/core/kv_quant.py); `kv_quantize_int4` raises (`none`) where
  -- `head_dim` is odd
  pub Quantized : Type 0
  pub quantize : Tensors → Option Quantized
  pub dequantize : Quantized → Tensors
  pub quantized_size : Quantized → ℕ
  pub load-save : (t : Tensors) → load (save t) ≡ some t
  pub decompress-compress : (b : Bytes) → decompress (compress b) ≡ b
  -- a zlib stream is not a torch file
  pub load-compress : (b : Bytes) → load (compress b) ≡ none
