-- ===== src/ActivationCache.antt =====
-- `ActivationCache` of src/swlp/core/decode_cache.py: an ordered dictionary from the hash of a
-- prompt's first 64 tokens to the outputs of the layers, the least recently used first. The hash
-- (BLAKE2b) is a parameter.
pub mod Recent
use swlp.Prelude.{
  ℕ, zero, suc, ◌+◌, Option, none, some, List, [], ◌∷◌, ◌++◌, ◌==◌, ltb, if◌then◌else◌, length,
  take,
}

module _ (V : Type 0) (hash : List ℕ → ℕ) where
  pub record ActivationCache : Type 0 where
    pub max_entries : ℕ
    pub cache : List (ℕ × V)
    pub hits : ℕ
    pub misses : ℕ

  unfoldable pub hash_tokens : List ℕ → ℕ
  hash_tokens token_ids = hash (take 64 token_ids)

  abbrev pub entry : ℕ → List (ℕ × V) → Option V
  entry key [] = none
  entry key ((k, v) ∷ es) = if k == key then some v else entry key es

  abbrev pub removed : ℕ → List (ℕ × V) → List (ℕ × V)
  removed key [] = []
  removed key ((k, v) ∷ es) = if k == key then es else (k, v) ∷ removed key es

  -- `move_to_end` of a key that is there.
  abbrev pub move_to_end : ℕ → V → List (ℕ × V) → List (ℕ × V)
  move_to_end key v es = removed key es ++ (key, v) ∷ []

  abbrev pub found : ActivationCache → ℕ → Option V → Option (ℕ × V) × ActivationCache
  found c key none = (none, record c { misses = c.misses + 1 })
  found c key (some v) =
      (some (key, v), record c { cache = move_to_end key v c.cache; hits = c.hits + 1 })

  unfoldable pub lookup : ActivationCache → List ℕ → Option (ℕ × V) × ActivationCache
  lookup c token_ids = let key = hash_tokens token_ids in found c key (entry key c.cache)

  -- `popitem(last=False)` while the dictionary is too long.
  abbrev pub trim : ℕ → List (ℕ × V) → List (ℕ × V)
  trim max_entries [] = []
  trim max_entries (e ∷ es) =
      let rest = trim max_entries es in if ltb max_entries (length (e ∷ es)) then rest else e ∷ es

  unfoldable pub store : ActivationCache → List ℕ → V → ActivationCache
  store c token_ids layer_outputs = record c {
    cache = trim c.max_entries (move_to_end (hash_tokens token_ids) layer_outputs c.cache);
  }
