-- ===== src/Scheduling/Ordered.antt =====
-- `_run_blocks` of src/swlp/runner/swlp.py: the order of the blocks and the weights that they are
-- called with, for any behaviour of the background threads.
use swlp.Prelude.{ℕ, zero, suc, ◌+◌, ◌<◌, ◌≡◌, refl, ◌⊎◌, List, [], ◌∷◌, Result, ok, err}
use swlp.Scheduling.{PrefetchError, prefetch_error, Scheduler}
use swlp.Scheduling.Run.{
  RunError, not_ensured, after_prefetch, warmup, prefetch_ahead, run_workers, blocks_loop,
}

module _ {W Ctx : Type 0} {weights : ℕ → W} {n_blocks : ℕ} (sched : Scheduler W weights n_blocks)
    (prepare_layer : ℕ → Ctx → Ctx) (call_block : W → ℕ → Ctx → Ctx)
    (compress_layer : ℕ → Ctx → Ctx) where
  open sched use {State, IsGood}

  -- What one block does to the context, and the blocks from `i` on: no scheduler is involved.
  abbrev pub block_effect : ℕ → Ctx → Ctx
  block_effect i ctx = compress_layer i (call_block (weights i) i (prepare_layer i ctx))

  abbrev pub all_blocks : ℕ → ℕ → Ctx → Ctx
  all_blocks zero i ctx = ctx
  all_blocks (suc rounds) i ctx = all_blocks rounds (i + 1) (block_effect i ctx)

  after_prefetch-IsGood :
      (s : State) (r : Result PrefetchError State) (i : ℕ) (go_on : State → State)
      → sched.prefetch s i ≡ r
      → IsGood s
      → ((s' : State) → IsGood s' → IsGood (go_on s'))
      → IsGood (after_prefetch sched prepare_layer call_block compress_layer s r go_on)
  after_prefetch-IsGood s (ok s') i go_on e h next = next s' (sched.prefetch-IsGood s s' i h e)
  after_prefetch-IsGood s (err x) i go_on e h next = sched.disable_prefetch-IsGood s h

  pub warmup-IsGood :
      (rounds i : ℕ) (s : State)
      → IsGood s
      → IsGood (warmup sched prepare_layer call_block compress_layer rounds i s)
  unfolding warmup
  warmup-IsGood zero i s h = h
  warmup-IsGood (suc rounds) i s h =
      after_prefetch-IsGood s (sched.prefetch s i) i _ refl h
        (λ s' h'. warmup-IsGood rounds (i + 1) s' h')

  pub prefetch_ahead-IsGood :
      (rounds i : ℕ) (s : State)
      → IsGood s
      → IsGood (prefetch_ahead sched prepare_layer call_block compress_layer rounds i s)
  unfolding prefetch_ahead
  prefetch_ahead-IsGood zero i s h = h
  prefetch_ahead-IsGood (suc rounds) i s h =
      after_prefetch-IsGood s (sched.prefetch s i) i _ refl h
        (λ s' h'. prefetch_ahead-IsGood rounds (i + 1) s' h')

  pub run_workers-IsGood :
      (js : List ℕ) (s : State)
      → IsGood s
      → IsGood (run_workers sched prepare_layer call_block compress_layer js s)
  unfolding run_workers
  run_workers-IsGood [] s h = h
  run_workers-IsGood (j ∷ js) s h =
      run_workers-IsGood js (sched.worker j s) (sched.worker-IsGood j s h)

  -- `ensure` raises for block `i`, and raises again when it is called a second time.
  abbrev pub Refused : ℕ → State → Type 0
  Refused i s =
      let first = sched.ensure s i in
      (first.0 ≡ err prefetch_error)
      × ((sched.ensure (sched.disable_prefetch first.1) i).0 ≡ err prefetch_error)

  -- The state in which block `i` is asked for, from the state `s` at the start of its round.
  abbrev pub asked : ℕ → List ℕ → ℕ → State → State
  asked lookahead finished i s =
      run_workers sched prepare_layer call_block compress_layer finished
        (prefetch_ahead sched prepare_layer call_block compress_layer lookahead (i + 1) s)

  -- One block ends in its effect, or in the error of two calls of `ensure`.
  abbrev BlockEnds : Ctx → ℕ → State → Result RunError (Ctx × State) → Type 0
  BlockEnds ctx i s r =
      ((s' : State) × (r ≡ ok (ctx, s')) × IsGood s') ⊎ (Refused i s × (r ≡ err not_ensured))

  module _ (lookahead : ℕ) (schedule : ℕ → List ℕ) where
    abbrev pub sweep : ℕ → ℕ → Ctx → State → Result RunError (Ctx × State)
    sweep rounds i ctx s =
        blocks_loop sched prepare_layer call_block compress_layer lookahead schedule rounds i ctx s

    -- Some of the `rounds` blocks from `i` on are called, and the next one is refused.
    pub record Stopped (rounds i : ℕ) (ctx : Ctx) (s : State) : Type 0 where
      pub called : ℕ
      pub fewer : called < rounds
      pub ctx_then : Ctx
      pub s_then : State
      pub reached : sweep called i ctx s ≡ ok (ctx_then, s_then)
      pub refused :
          Refused (i + called) (asked lookahead (schedule (i + called)) (i + called) s_then)

    -- What a sweep of `rounds` blocks from `i` on may end in.
    abbrev pub Ends : ℕ → ℕ → Ctx → State → Result RunError (Ctx × State) → Type 0
    Ends rounds i ctx s r =
        ((s' : State) × (r ≡ ok (all_blocks rounds i ctx, s')) × IsGood s')
        ⊎ (Stopped rounds i ctx s × (r ≡ err not_ensured))
