-- ===== src/Speculative.antt =====
-- src/swlp/core/speculative.py: the prompt-lookup drafter and the greedy verifier.
-- Token ids are numbers. `none`-free code: what the source raises is an `err`.
pub mod Verify
pub mod Ngram
use swlp.Prelude.{
  ℕ, zero, suc, ◌+◌, ◌-◌, max, min, Bool, true, false, ◌&&◌, ◌||◌, Option, none, some, List, [],
  ◌∷◌, ◌++◌, Result, ok, err, ◌==◌, leb, if◌then◌else◌, length, get_or, take, drop, slice,
}

pub record SpeculativeConfig : Type 0 where
  pub ngram_size : ℕ
  pub max_draft : ℕ

pub record NgramDrafter : Type 0 where
  pub n : ℕ
  pub k : ℕ

-- `max(0, …)` is the identity on ℕ.
unfoldable pub init : SpeculativeConfig → NgramDrafter
init config = record { n = max 1 config.ngram_size; k = config.max_draft }

-- `==` on lists of token ids.
unfoldable pub same_tokens : List ℕ → List ℕ → Bool
same_tokens [] [] = true
same_tokens [] (y ∷ ys) = false
same_tokens (x ∷ xs) [] = false
same_tokens (x ∷ xs) (y ∷ ys) = x == y && same_tokens xs ys

-- The truth value of a list.
pub not_empty : List ℕ → Bool
not_empty [] = false
not_empty (x ∷ xs) = true

-- The inner loop of `propose`, `start` counting down; the argument is `start + 1`.
pub scan : NgramDrafter → List ℕ → ℕ → ℕ → Option (List ℕ)
scan d tokens n zero = none
scan d tokens n (suc start) =
    let rest = scan d tokens n start in
    let draft = slice (start + n) (start + n + d.k) tokens in
    let hit = same_tokens (slice start (start + n) tokens) (drop (length tokens - n) tokens) in
    if hit && not_empty draft then some draft else rest

-- The outer loop of `propose`, over the sizes n, n - 1, …, 1.
pub back_off : NgramDrafter → List ℕ → ℕ → List ℕ
back_off d tokens zero = []
back_off d tokens (suc n) = elim (scan d tokens (suc n) (length tokens - suc n)) [
  | some draft ↦ draft
  | none ↦ back_off d tokens n
]

unfoldable pub propose : NgramDrafter → List ℕ → List ℕ
unfolding same_tokens not_empty scan back_off
propose d tokens =
    if d.k == 0 || leb (length tokens) 1
    then []
    else back_off d tokens (min d.n (length tokens - 1))

pub data VerifyError : Type 0 where
  value_error : VerifyError

-- The loop of `verify_greedy`: `i` is the index of `enumerate`.
pub verify_loop : List ℕ → List ℕ → ℕ → List ℕ → List ℕ × ℕ
verify_loop target_picks new_tokens i [] = (new_tokens ++ get_or target_picks i 0 ∷ [], i)
verify_loop target_picks new_tokens i (drafted ∷ rest) =
    let predicted = get_or target_picks i 0 in
    let accepted = verify_loop target_picks (new_tokens ++ drafted ∷ []) (i + 1) rest in
    if predicted == drafted then accepted else (new_tokens ++ predicted ∷ [], i)

unfoldable pub verify_greedy : List ℕ → List ℕ → Result VerifyError (List ℕ × ℕ)
unfolding verify_loop
verify_greedy draft_tokens target_picks =
    if length target_picks == length draft_tokens + 1
    then ok (verify_loop target_picks [] 0 draft_tokens)
    else err value_error
