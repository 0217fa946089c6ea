-- ===== src/Codec/Library.antt =====
-- What the codec uses of zlib, hashlib and zipnn. Bytes are lists of numbers.
use swlp.Prelude.{ℕ, ◌<◌, ◌≡◌, Option, List, length}

pub record Library : Type 0 where
  pub crc32 : List ℕ → ℕ
  pub sha256 : List ℕ → List ℕ
  pub zip : List ℕ → List ℕ
  -- nothing where the decoder raises
  pub unzip : List ℕ → Option (List ℕ)
  pub crc32-lt : (b : List ℕ) → crc32 b < 4294967296
  pub length-sha256 : (b : List ℕ) → length (sha256 b) ≡ 32
