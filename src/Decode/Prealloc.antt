-- ===== src/Decode/Prealloc.antt =====
-- `PreallocBuffer` of src/swlp/core/decode_cache.py and the decode loop that uses it
-- (src/swlp/runner/swlp.py): the loop is greedy decoding cut off where the buffer is full.
use swlp.Prelude.{
  ℕ, zero, suc, ◌+◌, ◌-◌, ◌≤◌, ◌<◌, min, ◌≡◌, refl, ap, ◌∙◌, true, false, List, [], ◌∷◌, ◌++◌,
  Result, ok, err, arith, leb, if◌then◌else◌, Bool-cases, inl, inr, length, set, take, drop,
  length-set, length-append, length-drop, dec_lt, take-append_left,
}
use swlp.Model.{Model}
use swlp.Decode.{GenerationConfig, is_eos, decode_step, greedy_loop}

-- The row of `_buf`, and how much of it is filled.
pub record PreallocBuffer : Type 0 where
  pub buf : List ℕ
  pub filled : ℕ

pub data BufferError : Type 0 where
  shape_mismatch : BufferError

pub view : PreallocBuffer → List ℕ
view b = take b.filled b.buf

-- The token is dropped when the buffer is full.
pub append : PreallocBuffer → ℕ → PreallocBuffer
append b token =
    if leb (length b.buf) b.filled
    then b
    else record { buf = set b.buf b.filled token; filled = b.filled + 1 }

-- `_buf[:, :seq_len] = generated`: torch refuses a row longer than the buffer.
pub load : PreallocBuffer → List ℕ → Result BufferError PreallocBuffer
load b generated =
    if leb (length generated) (length b.buf)
    then ok (record { buf = generated ++ drop (length generated) b.buf; filled = length generated })
    else err shape_mismatch

take-set : (xs : List ℕ) (n x : ℕ) → n < length xs → take (n + 1) (set xs n x) ≡ take n xs ++ x ∷ []
take-set [] n x lt = absurd (omega arith)
take-set (y ∷ xs) zero x lt = refl
take-set (y ∷ xs) (suc n) x lt =
    let e : suc n + 1 ≡ suc (n + 1) = omega arith in
    rw e (ap (◌∷◌ y) (take-set xs n x (omega arith)))

module _ (m : Model) (cfg : GenerationConfig) where
  open m use {Cache}

  -- The loop with `prealloc` set: each round reads and extends the buffer's view.
  pub prealloc_loop : ℕ → PreallocBuffer → Cache → List ℕ
  prealloc_loop zero b past_state = view b
  prealloc_loop (suc rounds) b past_state =
      let (next_id, past_state') = decode_step m cfg (view b) past_state in
      let b' = append b next_id in
      let rest = prealloc_loop rounds b' past_state' in
      if is_eos cfg.eos_token_id next_id then view b' else rest

  pub after_load : Cache → Result BufferError PreallocBuffer → Result BufferError (List ℕ)
  after_load past_state (ok b) = ok (prealloc_loop (cfg.max_new_tokens - 1) b past_state)
  after_load past_state (err e) = err e

  pub generate_prealloc : PreallocBuffer → List ℕ → Cache → Result BufferError (List ℕ)
  generate_prealloc b generated past_state = after_load past_state (load b generated)

  -- A full buffer stays as it is, however many rounds are run.
  full_loop :
      (rounds : ℕ) (b : PreallocBuffer) (c : Cache)
      → length b.buf ≤ b.filled
      → prealloc_loop rounds b c ≡ view b
  unfolding prealloc_loop append
  full_loop zero b c full = refl
  full_loop (suc rounds) b c full =
      let e : leb (length b.buf) b.filled ≡ true = ground arith in
      rw e (ground (arith, full_loop rounds b (decode_step m cfg (view b) c).1 full))

  append_room :
      (b : PreallocBuffer) (t : ℕ)
      → b.filled < length b.buf
      → (view (append b t) ≡ view b ++ t ∷ [])
        × (length (append b t).buf ≡ length b.buf)
        × ((append b t).filled ≡ b.filled + 1)
  unfolding append view
  append_room b t lt =
      let e : leb (length b.buf) b.filled ≡ false = ground arith in
      rw e (take-set b.buf b.filled t lt, length-set b.buf b.filled t, refl)

  -- The loop runs for as many rounds as the buffer has room for.
  loop_lem :
      (rounds : ℕ) (b : PreallocBuffer) (g : List ℕ) (c : Cache)
      → view b ≡ g
      → b.filled ≤ length b.buf
      → prealloc_loop rounds b c ≡ greedy_loop m cfg (min rounds (length b.buf - b.filled)) g c
  unfolding greedy_loop prealloc_loop
  loop_lem zero b g c e le =
      let none_left : min 0 (length b.buf - b.filled) ≡ 0 = omega arith in rw none_left e
  loop_lem (suc rounds) b g c e le = elim (dec_lt b.filled (length b.buf)) [
    | no full ↦
        let none_left : min (suc rounds) (length b.buf - b.filled) ≡ 0 = omega arith in
        rw none_left (full_loop (suc rounds) b c (omega arith) ∙ e)
    | yes room ↦
        let t = (decode_step m cfg g c).0 in
        let (seen, size, used) = append_room b t room in
        let left : min (suc rounds) (length b.buf - b.filled)
            ≡ suc (min rounds (length (append b t).buf - (append b t).filled)) =
          omega arith in
        rw left (
          rw
            (
              e,
              loop_lem rounds (append b t) (g ++ t ∷ []) _ (seen ∙ ap (λ v. v ++ t ∷ []) e)
                  (omega arith),
              seen,
              e,
            )
            refl)
  ]

  -- With the buffer the loop returns what greedy decoding returns after as many rounds as fit: the
  -- same tokens if the buffer has room for `max_new_tokens`, a silently shorter text if not, and an
  -- error if the prompt alone does not fit.
  pub generate_prealloc-greedy :
      (b : PreallocBuffer) (g : List ℕ) (c : Cache)
      → generate_prealloc b g c ≡ (
          if leb (length g) (length b.buf)
          then ok (greedy_loop m cfg (min (cfg.max_new_tokens - 1) (length b.buf - length g)) g c)
          else err shape_mismatch)
  unfolding generate_prealloc after_load load
  generate_prealloc-greedy b g c = elim (Bool-cases (leb (length g) (length b.buf))) [
    | inl fits ↦
        let le : length g ≤ length b.buf = ground arith in
        let whole : length (g ++ drop (length g) b.buf) ≡ length b.buf =
          omega (arith, length-append g (drop (length g) b.buf), length-drop (length g) b.buf) in
        let loaded : PreallocBuffer = record {
          buf = g ++ drop (length g) b.buf;
          filled = length g;
        } in
        rw fits (
          ap ok (
            loop_lem (cfg.max_new_tokens - 1) loaded g c
              (unfold view in take-append_left g (drop (length g) b.buf)) (omega arith)
            ∙ rw whole refl))
    | inr long ↦ rw long refl
  ]
