-- ===== src/Decode/Prefill.antt =====
-- The prefill of `SWLPRunner.run` (src/swlp/runner/swlp.py), in one sweep or in chunks, with or without
-- a prefix that the prefix cache seeded.
use swlp.Prelude.{
  ℕ, zero, suc, ◌+◌, ◌-◌, ◌≤◌, ◌<◌, ◌≡◌, refl, sym, ap, ap₂, ◌∙◌, ◌&&◌, List, [], ◌∷◌, ◌++◌, arith,
  ltb, if◌then◌else◌, Bool-cases, inl, inr, dec_le, length, get_or, take, drop, length-append,
  length-drop, take-append-drop, take_of_length-le, last-append,
}
use swlp.Model.{Model}
use swlp.Decode.{GenerationConfig, select_next, generate_greedy}

module _ (m : Model) where
  open m use {Score, Cache, seq_length, feed, logits}

  -- `logits[:, -1, :]`
  abbrev pub last_row : List (List Score) → List Score
  last_row rows = get_or rows (length rows - 1) []

  -- The `for` loop over the chunks; `rows` are the logits of the last sweep. `chunk` is positive, so
  -- that a round for each token is enough.
  pub chunk_loop : ℕ → ℕ → ℕ → List ℕ → List (List Score) → Cache → List (List Score) × Cache
  chunk_loop zero chunk offset input_ids rows past_state = (rows, past_state)
  chunk_loop (suc rounds) chunk offset [] rows past_state = (rows, past_state)
  chunk_loop (suc rounds) chunk offset (t ∷ ts) rows past_state =
      let piece = take chunk (t ∷ ts) in
      chunk_loop rounds chunk (offset + length piece) (drop chunk (t ∷ ts))
        (logits offset piece past_state) (feed offset piece past_state)

  unfoldable pub prefill : ℕ → ℕ → List ℕ → Cache → List (List Score) × Cache
  prefill chunk base_offset input_ids past_state =
      if ltb 0 chunk && ltb chunk (length input_ids)
      then chunk_loop (length input_ids) chunk base_offset input_ids [] past_state
      else (logits base_offset input_ids past_state, feed base_offset input_ids past_state)

  -- `run` from the encoded prompt on: `input_ids` is the prompt without the prefix of `base_offset`
  -- tokens that a hit put into the cache.
  unfoldable pub run_tokens : GenerationConfig → ℕ → ℕ → List ℕ → Cache → List ℕ
  run_tokens cfg chunk base_offset input_ids past_state =
      let (rows, past_state') = prefill chunk base_offset input_ids past_state in
      let next_token = select_next m cfg (last_row rows) input_ids in
      let generated = generate_greedy m cfg (input_ids ++ next_token ∷ []) past_state' in
      if ltb 0 cfg.max_new_tokens then generated else input_ids

  -- The tokens in one sweep, and in two.
  two_sweeps :
      (offset : ℕ) (xs ys : List ℕ) (c : Cache)
      → 0 < length ys
      → (feed offset (xs ++ ys) c ≡ feed (offset + length xs) ys (feed offset xs c))
        × (last_row (logits offset (xs ++ ys) c)
            ≡ last_row (logits (offset + length xs) ys (feed offset xs c)))
  two_sweeps offset xs ys c pos = (
    m.feed-append offset xs ys c,
    ap last_row (m.logits-append offset xs ys c)
        ∙ last-append (logits offset xs c) (logits (offset + length xs) ys (feed offset xs c)) []
            (omega (arith, m.length-logits (offset + length xs) ys (feed offset xs c))),
  )

  chunk_loop-whole :
      (rounds chunk offset : ℕ) (xs : List ℕ) (rows : List (List Score)) (c : Cache)
      → 0 < chunk
      → length xs ≤ rounds
      → 0 < length xs
      → ((chunk_loop rounds chunk offset xs rows c).1 ≡ feed offset xs c)
        × (last_row (chunk_loop rounds chunk offset xs rows c).0 ≡ last_row (logits offset xs c))
  unfolding chunk_loop
  chunk_loop-whole zero chunk offset xs rows c pos enough some_left = absurd (omega arith)
  chunk_loop-whole (suc rounds) chunk offset [] rows c pos enough some_left = absurd (omega arith)
  chunk_loop-whole (suc rounds) chunk offset (t ∷ ts) rows c pos enough some_left =
      elim (dec_le (length (t ∷ ts)) chunk) [
        | yes last ↦
            let all : take chunk (t ∷ ts) ≡ t ∷ ts = take_of_length-le chunk (t ∷ ts) last in
            let (rows_end, caches_end) =
              done rounds (drop chunk (t ∷ ts)) (omega (arith, length-drop chunk (t ∷ ts), last))
                (offset + length (take chunk (t ∷ ts))) (logits offset (take chunk (t ∷ ts)) c)
                (feed offset (take chunk (t ∷ ts)) c) in
            (
              caches_end ∙ ap (λ xs. feed offset xs c) all,
              ap last_row rows_end ∙ ap (λ xs. last_row (logits offset xs c)) all,
            )
        | no more ↦
            let piece = take chunk (t ∷ ts) in
            let rest = drop chunk (t ∷ ts) in
            let left : 0 < length rest = omega (arith, length-drop chunk (t ∷ ts)) in
            let whole : piece ++ rest ≡ t ∷ ts = take-append-drop chunk (t ∷ ts) in
            let (caches, scores) =
              chunk_loop-whole rounds chunk (offset + length piece) rest (logits offset piece c)
                (feed offset piece c) pos (omega (arith, length-drop chunk (t ∷ ts))) left in
            let (caches', scores') = two_sweeps offset piece rest c left in
            (
              caches ∙ sym caches' ∙ ap (λ xs. feed offset xs c) whole,
              scores ∙ sym scores' ∙ ap (λ xs. last_row (logits offset xs c)) whole,
            )
      ]
    where
      done :
          (rounds : ℕ) (xs : List ℕ)
          → length xs ≡ 0
          → (offset' : ℕ) (rows' : List (List Score)) (c' : Cache)
          → ((chunk_loop rounds chunk offset' xs rows' c').0 ≡ rows')
            × ((chunk_loop rounds chunk offset' xs rows' c').1 ≡ c')
      done zero xs e offset' rows' c' = (refl, refl)
      done (suc r) [] e offset' rows' c' = (refl, refl)
      done (suc r) (x ∷ xs) e offset' rows' c' = absurd (omega arith)

  -- The prefill of a nonempty input leaves the same cache and the same last scores whatever the chunk
  -- size, as one sweep over all of it does.
  pub prefill-whole :
      (chunk base_offset : ℕ) (xs : List ℕ) (c : Cache)
      → 0 < length xs
      → ((prefill chunk base_offset xs c).1 ≡ feed base_offset xs c)
        × (last_row (prefill chunk base_offset xs c).0 ≡ last_row (logits base_offset xs c))
  unfolding prefill
  prefill-whole chunk base_offset xs c pos =
      elim (Bool-cases (ltb 0 chunk && ltb chunk (length xs))) [
        | inl chunked ↦
            let large : 0 < chunk = ground arith in
            rw chunked
              (chunk_loop-whole (length xs) chunk base_offset xs [] c large (omega arith) pos)
        | inr whole ↦ rw whole (refl, refl)
      ]

  -- The tokens of a run on a nonempty input do not depend on the chunk size.
  pub run_tokens-chunk :
      (cfg : GenerationConfig) (chunk base_offset : ℕ) (xs : List ℕ) (c : Cache)
      → 0 < length xs
      → run_tokens cfg chunk base_offset xs c ≡ run_tokens cfg 0 base_offset xs c
  unfolding run_tokens prefill
  run_tokens-chunk cfg chunk base_offset xs c pos =
      let (caches, scores) = prefill-whole chunk base_offset xs c pos in
      ap₂
        (λ row c'.
          if ltb 0 cfg.max_new_tokens
          then generate_greedy m cfg (xs ++ select_next m cfg row xs ∷ []) c'
          else xs)
        scores caches

  -- After a hit, feeding the suffix behind the seeded prefix leaves the cache and the last scores of
  -- feeding the whole prompt.
  pub prefill-hit :
      (chunk : ℕ) (xs ys : List ℕ) (c : Cache)
      → 0 < length ys
      → ((prefill chunk (length xs) ys (feed 0 xs c)).1 ≡ (prefill chunk 0 (xs ++ ys) c).1)
        × (last_row (prefill chunk (length xs) ys (feed 0 xs c)).0
            ≡ last_row (prefill chunk 0 (xs ++ ys) c).0)
  prefill-hit chunk xs ys c pos =
      let (caches, scores) = prefill-whole chunk (length xs) ys (feed 0 xs c) pos in
      let (caches', scores') =
        prefill-whole chunk 0 (xs ++ ys) c (omega (arith, length-append xs ys)) in
      let (fed, rows) = two_sweeps 0 xs ys c pos in
      let zero_add : 0 + length xs ≡ length xs = omega arith in
      (
        caches ∙ ap (λ k. feed k ys (feed 0 xs c)) (sym zero_add) ∙ sym fed ∙ sym caches',
        scores
            ∙ ap (λ k. last_row (logits k ys (feed 0 xs c))) (sym zero_add)
            ∙ sym rows
            ∙ sym scores',
      )
