-- ===== src/Scheduling/Run.antt =====
-- `SWLPRunner._run_blocks` of src/swlp/runner/swlp.py: one sweep over the blocks. The context and what
-- the experts, the block and the compressed cache do to it are parameters; `schedule` says what the
-- background threads do before each block. The trace and the profiler are left out.
use swlp.Prelude.{ℕ, zero, suc, ◌+◌, max, min, Option, none, some, List, [], ◌∷◌, Result, ok, err}
use swlp.Scheduling.{PrefetchError, Scheduler}

pub data RunError : Type 0 where
  -- `ensure` raised twice
  not_ensured : RunError
  -- a block was called on the meta device
  meta_block : RunError

module _ {W Ctx : Type 0} {weights : ℕ → W} {n_blocks : ℕ} (sched : Scheduler W weights n_blocks)
    (prepare_layer : ℕ → Ctx → Ctx) (call_block : W → ℕ → Ctx → Ctx)
    (compress_layer : ℕ → Ctx → Ctx) where
  open sched use {State}

  -- A failed prefetch ends the loop and turns prefetching off.
  abbrev pub after_prefetch : State → Result PrefetchError State → (State → State) → State
  after_prefetch s (ok s') go_on = go_on s'
  after_prefetch s (err e) go_on = sched.disable_prefetch s

  -- `for warm_idx in range(min(lookahead, len(blocks)))`, from `warm_idx` on.
  unfoldable pub warmup : ℕ → ℕ → State → State
  warmup zero warm_idx s = s
  warmup (suc rounds) warm_idx s =
      after_prefetch s (sched.prefetch s warm_idx) (warmup rounds (warm_idx + 1))

  -- `for ahead in range(1, lookahead + 1)`, from `next` on.
  unfoldable pub prefetch_ahead : ℕ → ℕ → State → State
  prefetch_ahead zero next s = s
  prefetch_ahead (suc rounds) next s =
      after_prefetch s (sched.prefetch s next) (prefetch_ahead rounds (next + 1))

  unfoldable pub run_workers : List ℕ → State → State
  run_workers [] s = s
  run_workers (j ∷ js) s = run_workers js (sched.worker j s)

  -- `ensure`, a second time after a failure.
  abbrev pub ensure_again :
      ℕ → Result PrefetchError (Option W) × State → Result PrefetchError (Option W) × State
  ensure_again i (ok block, s) = (ok block, s)
  ensure_again i (err e, s) = sched.ensure (sched.disable_prefetch s) i

  abbrev pub computed :
      ℕ → Ctx → Result PrefetchError (Option W) × State → Result RunError (Ctx × State)
  computed i ctx (err e, s) = err not_ensured
  computed i ctx (ok none, s) = err meta_block
  computed i ctx (ok (some w), s) = ok (compress_layer i (call_block w i ctx), sched.evict s i)

  -- One round of the loop over the blocks.
  unfoldable pub run_block : ℕ → List ℕ → ℕ → Ctx → State → Result RunError (Ctx × State)
  run_block lookahead done i ctx s =
      let s1 = prefetch_ahead lookahead (i + 1) s in
      let s2 = run_workers done s1 in
      computed i (prepare_layer i ctx) (ensure_again i (sched.ensure s2 i))

  abbrev pub and_then :
      (Ctx → State → Result RunError (Ctx × State))
      → Result RunError (Ctx × State)
      → Result RunError (Ctx × State)
  and_then k (ok (ctx, s)) = k ctx s
  and_then k (err e) = err e

  -- The loop over the blocks, from block `i` on.
  unfoldable pub blocks_loop :
      ℕ → (ℕ → List ℕ) → ℕ → ℕ → Ctx → State → Result RunError (Ctx × State)
  blocks_loop lookahead schedule zero i ctx s = ok (ctx, s)
  blocks_loop lookahead schedule (suc rounds) i ctx s =
      and_then (blocks_loop lookahead schedule rounds (i + 1))
        (run_block lookahead (schedule i) i ctx s)

  unfoldable pub lookahead_of : State → ℕ
  lookahead_of s = max (sched.window_size s) (sched.prefetch_depth s)

  unfoldable pub run_blocks : (ℕ → List ℕ) → Ctx → State → Result RunError (Ctx × State)
  run_blocks schedule ctx s =
      let lookahead = lookahead_of s in
      blocks_loop lookahead schedule n_blocks 0 ctx (warmup (min lookahead n_blocks) 0 s)
