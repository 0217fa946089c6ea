-- ===== src/Scheduling/Total.antt =====
-- `_run_blocks` of src/swlp/runner/swlp.py, on sweeps in which no read and no move fails.
use swlp.Prelude.{ℕ, zero, suc, ◌+◌, ◌≤◌, ◌<◌, min, ◌≡◌, refl, ap, ◌∙◌, List, ok, arith}
use swlp.Scheduling.{Scheduler}
use swlp.Scheduling.Run.{
  prefetch_ahead, run_workers, ensure_again, computed, run_block, and_then, blocks_loop,
  lookahead_of, run_blocks,
}
use swlp.Scheduling.Ordered.{
  block_effect, all_blocks, warmup-IsGood, prefetch_ahead-IsGood, run_workers-IsGood,
}

module _ {W Ctx : Type 0} {weights : ℕ → W} {n_blocks : ℕ} (sched : Scheduler W weights n_blocks)
    (prepare_layer : ℕ → Ctx → Ctx) (call_block : W → ℕ → Ctx → Ctx)
    (compress_layer : ℕ → Ctx → Ctx) where
  open sched use {State, IsGood}

  run_block_total :
      (lookahead : ℕ) (done : List ℕ) (i : ℕ) (ctx : Ctx) (s : State)
      → i < n_blocks
      → IsGood s
      → sched.Reliable
      → (s' : State) × (run_block sched prepare_layer call_block compress_layer lookahead done i ctx
            s
          ≡ ok (block_effect sched prepare_layer call_block compress_layer i ctx, s'))
        × IsGood s'
  unfolding run_block
  run_block_total lookahead done i ctx s lt h reliable =
      let s2 =
        run_workers sched prepare_layer call_block compress_layer done
          (prefetch_ahead sched prepare_layer call_block compress_layer lookahead (i + 1) s) in
      let h2 : IsGood s2 = run_workers-IsGood sched prepare_layer call_block compress_layer done _ (
        prefetch_ahead-IsGood sched prepare_layer call_block compress_layer lookahead (i + 1) s
          h) in
      (
        sched.evict (sched.ensure s2 i).1 i,
        ap
            (λ r. computed sched prepare_layer call_block compress_layer i (prepare_layer i ctx) (
              ensure_again sched prepare_layer call_block compress_layer i
                (r, (sched.ensure s2 i).1)))
            (sched.ensure_total s2 i lt h2 reliable),
        sched.evict-IsGood (sched.ensure s2 i).1 i (sched.ensure-IsGood s2 i lt h2),
      )

  blocks_loop_total :
      (lookahead : ℕ) (schedule : ℕ → List ℕ) (rounds i : ℕ) (ctx : Ctx) (s : State)
      → i + rounds ≤ n_blocks
      → IsGood s
      → sched.Reliable
      → (s' : State) × (blocks_loop sched prepare_layer call_block compress_layer lookahead schedule
            rounds i ctx s
          ≡ ok (all_blocks sched prepare_layer call_block compress_layer rounds i ctx, s'))
        × IsGood s'
  unfolding blocks_loop
  blocks_loop_total lookahead schedule zero i ctx s le h reliable = (s, refl, h)
  blocks_loop_total lookahead schedule (suc rounds) i ctx s le h reliable =
      let (s1, same, h1) =
        run_block_total lookahead (schedule i) i ctx s (omega arith) h reliable in
      let (s2, rest, h2) =
        blocks_loop_total lookahead schedule rounds (i + 1)
          (block_effect sched prepare_layer call_block compress_layer i ctx) s1 (omega arith) h1
          reliable in
      (
        s2,
        ap
              (and_then sched prepare_layer call_block compress_layer (
                blocks_loop sched prepare_layer call_block compress_layer lookahead schedule rounds
                  (i + 1)))
              same
            ∙ rest,
        h2,
      )

  -- When no read and no move fails, a sweep from a good state ends: it has called every block once, in
  -- order, each with its own weights, and leaves a good state, for every schedule of the background
  -- threads and every window and prefetch depth.
  pub run_blocks_total :
      (schedule : ℕ → List ℕ) (ctx : Ctx) (s : State)
      → IsGood s
      → sched.Reliable
      → (s' : State) × (run_blocks sched prepare_layer call_block compress_layer schedule ctx s
          ≡ ok (all_blocks sched prepare_layer call_block compress_layer n_blocks 0 ctx, s'))
        × IsGood s'
  unfolding run_blocks
  run_blocks_total schedule ctx s h reliable =
      blocks_loop_total (lookahead_of sched prepare_layer call_block compress_layer s) schedule
        n_blocks 0 ctx _ (omega arith)
        (warmup-IsGood sched prepare_layer call_block compress_layer
          (min (lookahead_of sched prepare_layer call_block compress_layer s) n_blocks) 0 s h)
        reliable
