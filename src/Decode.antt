-- ===== src/Decode.antt =====
-- The decoding loops: src/swlp/runner/swlp.py (`_select_next`, `_generate_remaining`),
-- src/swlp/runner/hf.py (`_apply_repetition_penalty`), src/swlp/runner/speculative.py
-- (`_verify_step`, `_generate_remaining`) and `PreallocBuffer` of src/swlp/core/decode_cache.py.
-- The transformer itself (torch and transformers) is the parameter `Model`.
pub mod Sweep
pub mod Lossless
pub mod Prealloc
pub mod Prefill
use swlp.Prelude.{
  ℕ, zero, suc, ◌+◌, ◌-◌, max, min, ◌≡◌, Bool, true, false, Option, none, some, List, [], ◌∷◌, ◌++◌,
  Result, ok, err, ◌>>=◌, ◌==◌, ltb, leb, if◌then◌else◌, length, get_or, get_elem?, set, take, drop,
}
use swlp.Speculative.{VerifyError, verify_greedy}
use swlp.Model.{Model}

-- The settings of `config.generation` that the loops read; `penalty` says whether
-- `repetition_penalty` differs from 1.0.
pub record GenerationConfig : Type 0 where
  pub penalty : Bool
  pub eos_token_id : Option ℕ
  pub max_new_tokens : ℕ

pub data DecodeError : Type 0 where
  verify : VerifyError → DecodeError
  out_of_fuel : DecodeError

-- A drafter: `observe` is told how many tokens were proposed and accepted.
pub record Drafter : Type 1 where
  pub State : Type 0
  pub propose : State → List ℕ → List ℕ × State
  pub observe : State → ℕ → ℕ → State

-- `generated[:, -1:]`
unfoldable pub last_slice : List ℕ → List ℕ
last_slice generated = drop (length generated - 1) generated

unfoldable pub is_eos : Option ℕ → ℕ → Bool
is_eos none next_id = false
is_eos (some eos) next_id = next_id == eos

-- `new_tokens[: new_tokens.index(eos) + 1]`, and whether `eos in new_tokens`.
unfoldable pub cut_at_eos : Option ℕ → List ℕ → List ℕ × Bool
cut_at_eos eos [] = ([], false)
cut_at_eos eos (x ∷ xs) =
    let (kept, stop) = cut_at_eos eos xs in
    if is_eos eos x then (x ∷ [], true) else (x ∷ kept, stop)

module _ (m : Model) where
  open m use {Score, Cache, negative, times, divide, argmax, feed, logits, crop}

  -- The body of the penalty loop for one token id; ids lie inside the vocabulary.
  pub penalise : ℕ → List Score → List Score
  penalise token_id scores = elim (get_elem? scores token_id) [
    | none ↦ scores
    | some s ↦ set scores token_id (if negative s then times s else divide s)
  ]

  pub apply_repetition_penalty : List ℕ → List Score → List Score
  apply_repetition_penalty [] scores = scores
  apply_repetition_penalty (t ∷ ts) scores = apply_repetition_penalty ts (penalise t scores)

  module _ (cfg : GenerationConfig) where
    -- `_select_next` with `do_sample` off.
    unfoldable pub select_next : List Score → List ℕ → ℕ
    select_next scores generated =
        argmax (if cfg.penalty then apply_repetition_penalty generated scores else scores)

    -- One sweep over the last token, and the greedy pick from its logits.
    unfoldable pub decode_step : List ℕ → Cache → ℕ × Cache
    decode_step generated past_state =
        let position_offset = length generated - 1 in
        let fed = last_slice generated in
        let scores = logits position_offset fed past_state in
        (
          select_next (get_or scores (length scores - 1) []) generated,
          feed position_offset fed past_state,
        )

    -- `SWLPRunner._generate_remaining` without a preallocated buffer, over the rounds left.
    unfoldable pub greedy_loop : ℕ → List ℕ → Cache → List ℕ
    greedy_loop zero generated past_state = generated
    greedy_loop (suc rounds) generated past_state =
        let (next_id, past_state') = decode_step generated past_state in
        let generated' = generated ++ next_id ∷ [] in
        let rest = greedy_loop rounds generated' past_state' in
        if is_eos cfg.eos_token_id next_id then generated' else rest

    unfoldable pub generate_greedy : List ℕ → Cache → List ℕ
    generate_greedy = greedy_loop (cfg.max_new_tokens - 1)

    -- The picks of `_verify_step`, from position `i` on.
    pub target_picks : List ℕ → List ℕ → ℕ → List (List Score) → List ℕ
    target_picks generated draft i [] = []
    target_picks generated draft i (scores ∷ rest) =
        let prefix = if i == 0 then generated else generated ++ take i draft in
        select_next scores prefix ∷ target_picks generated draft (i + 1) rest

    -- The end of `_verify_step`: the cache is cropped to the confirmed prefix.
    pub rolled_back :
        ℕ → ℕ → Cache → Result VerifyError (List ℕ × ℕ) → Result DecodeError (List ℕ × ℕ × Cache)
    rolled_back cache_len_before fed swept (err e) = err (verify e)
    rolled_back cache_len_before fed swept (ok (new_tokens, n_accepted)) =
        let keep_len = cache_len_before + 1 + n_accepted in
        let cache_len_after = cache_len_before + fed in
        ok (
          new_tokens,
          n_accepted,
          if ltb keep_len cache_len_after then crop keep_len swept else swept,
        )

    -- `SpeculativeRunner._verify_step` on a cache that can be cropped.
    pub verify_step : List ℕ → Cache → List ℕ → Result DecodeError (List ℕ × ℕ × Cache)
    verify_step generated past_state draft =
        let verify_input = last_slice generated ++ draft in
        let cache_len_before = length generated - 1 in
        let swept = feed cache_len_before verify_input past_state in
        let picks =
          target_picks generated draft 0 (logits cache_len_before verify_input past_state) in
        rolled_back cache_len_before (length verify_input) swept (verify_greedy draft picks)

    module _ (d : Drafter) where
      -- The `while` loop of `SpeculativeRunner._generate_remaining`.
      pub speculative_loop : ℕ → ℕ → d.State → List ℕ → Cache → Result DecodeError (List ℕ)
      speculative_loop zero prompt_len s generated past_state = err out_of_fuel
      speculative_loop (suc fuel) prompt_len s generated past_state =
          let remaining = cfg.max_new_tokens - (length generated - prompt_len) in
          let (proposed, s') = d.propose s generated in
          let draft = take (remaining - 1) proposed in
          let step : Result DecodeError (List ℕ) = verify_step generated past_state draft >>= λ r.
          let (new_tokens, n_accepted, past_state') = r in
          let s'' = d.observe s' (length draft) n_accepted in
          let (kept, stop) = cut_at_eos cfg.eos_token_id new_tokens in
          let rest = speculative_loop fuel prompt_len s'' (generated ++ kept) past_state' in
          if stop then ok (generated ++ kept) else rest in
          if ltb (length generated - prompt_len) cfg.max_new_tokens then step else ok generated

      -- On entry one token has been generated after the prompt. Every sweep emits a token, so the
      -- loop makes fewer than `max_new_tokens` rounds.
      pub generate_speculative : d.State → List ℕ → Cache → Result DecodeError (List ℕ)
      generate_speculative s generated past_state =
          speculative_loop (cfg.max_new_tokens + 1) (length generated - 1) s generated past_state
