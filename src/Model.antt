-- ===== src/Model.antt =====
-- The streamed transformer as the decoding loops use it: torch and transformers are not code of the
-- repository. A sweep (`prepare_step`, the blocks, the final norm and `lm_head`) feeds tokens at a
-- position offset; the laws say that a sweep is causal and appends to the cache, and that `crop`
-- forgets the positions that were fed last.
use swlp.Prelude.{ℕ, ◌+◌, ◌≡◌, Bool, List, ◌++◌, length}

pub record Model : Type 1 where
  pub Score : Type 0
  -- `logits[0, id] < 0`, `*= penalty`, `/= penalty`
  pub negative : Score → Bool
  pub times : Score → Score
  pub divide : Score → Score
  pub argmax : List Score → ℕ
  pub Cache : Type 0
  pub seq_length : Cache → ℕ
  -- the cache and the logits (one row for each fed token) after a sweep
  pub feed : ℕ → List ℕ → Cache → Cache
  pub logits : ℕ → List ℕ → Cache → List (List Score)
  pub crop : ℕ → Cache → Cache
  pub length-logits : (o : ℕ) (xs : List ℕ) (c : Cache) → length (logits o xs c) ≡ length xs
  pub seq_length-feed :
      (o : ℕ) (xs : List ℕ) (c : Cache) → seq_length (feed o xs c) ≡ seq_length c + length xs
  pub feed-append :
      (o : ℕ) (xs ys : List ℕ) (c : Cache)
      → feed o (xs ++ ys) c ≡ feed (o + length xs) ys (feed o xs c)
  pub logits-append :
      (o : ℕ) (xs ys : List ℕ) (c : Cache)
      → logits o (xs ++ ys) c ≡ logits o xs c ++ logits (o + length xs) ys (feed o xs c)
  pub crop-feed :
      (o : ℕ) (xs ys : List ℕ) (c : Cache)
      → crop (seq_length c + length xs) (feed o (xs ++ ys) c) ≡ feed o xs c
