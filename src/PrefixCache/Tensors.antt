-- ===== src/PrefixCache/Tensors.antt =====
-- What the prefix cache uses of torch: the key/value tensors of one layer.
use swlp.Prelude.{ℕ}

pub record Layers : Type 1 where
  pub Kv : Type 0
  pub seq_len : Kv → ℕ
  pub nbytes : Kv → ℕ
  -- `k[..., :n, :]`, `v[..., :n, :]`
  pub prefix : ℕ → Kv → Kv
