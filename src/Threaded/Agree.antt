-- ===== src/Threaded/Agree.antt =====
-- Sweeps of the runner on the two schedulers, src/swlp/core/streaming.py and
-- src/swlp/core/scheduler.py, side by side.
use swlp.Prelude.{ℕ, zero, suc, ◌+◌, refl, sym, ap, ◌∙◌, ◌<◌, ◌≡◌, true, List, ok}
use swlp.Scheduling.Ordered.{all_blocks}
use swlp.Scheduling.{Scheduler}
use swlp.Scheduling.Run.{run_blocks}
use swlp.Scheduling.Total.{run_blocks_total}
use swlp.Streaming.{Device, StreamConfig, resident_count, Streaming}
use swlp.Streaming.Exact.{Own, new_scheduler-IsExact}
use swlp.Streaming.Reliable.{AllReads, streaming}
use swlp.Threaded.{MoveConfig, Threaded, new_scheduler}
use swlp.Threaded.Filled.{AllMoves, threaded, new_scheduler-IsOnDevice}

module _ {W Ctx : Type 0} {weights : ℕ → W} {n m : ℕ} (sched : Scheduler W weights n)
    (other : Scheduler W weights m) (prepare_layer : ℕ → Ctx → Ctx) (call_block : W → ℕ → Ctx → Ctx)
    (compress_layer : ℕ → Ctx → Ctx) where
  -- What a sweep does to the context does not depend on the scheduler.
  all_blocks-same :
      (rounds i : ℕ) (ctx : Ctx)
      → all_blocks sched prepare_layer call_block compress_layer rounds i ctx
        ≡ all_blocks other prepare_layer call_block compress_layer rounds i ctx
  all_blocks-same zero i ctx = refl
  all_blocks-same (suc rounds) i ctx = all_blocks-same rounds (i + 1) _

module _ {W Ctx : Type 0} (moving : MoveConfig W) (config : StreamConfig) (dev : Device W)
    (same_blocks : config.n_blocks ≡ moving.n_blocks)
    (reads_own : (t i : ℕ) → Own moving.masters i (dev.read_shard t i))
    (takes : (t i : ℕ) → dev.load_state_dict t i ≡ true)
    (copies : (t i : ℕ) → i < resident_count config → dev.to_device t i ≡ true)
    (prepare_layer : ℕ → Ctx → Ctx) (call_block : W → ℕ → Ctx → Ctx)
    (compress_layer : ℕ → Ctx → Ctx) where
  -- The context that a sweep over the blocks leaves on either new scheduler.
  pub record Agree (schedule schedule' : ℕ → List ℕ) (ctx : Ctx) : Type 0 where
    pub result : Ctx
    pub streamed : Streaming W
    pub swapped : Threaded W
    pub by_streaming :
        run_blocks
          (streaming moving.masters config dev reads_own takes copies)
          prepare_layer
          call_block
          compress_layer
          schedule
          ctx
          (swlp.Streaming.new_scheduler config)
        ≡ ok (result, streamed)
    pub by_threads :
        run_blocks
          (threaded moving)
          prepare_layer
          call_block
          compress_layer
          schedule'
          ctx
          (new_scheduler moving)
        ≡ ok (result, swapped)

  -- For two models of the same blocks, when every read of a layer gives its weights, and no read, copy,
  -- move or load into a block fails, a sweep on a new streaming
  -- scheduler and one on a new threaded scheduler both end, and with the same context, whatever their
  -- windows, their prefetch depths and the schedules of their background threads.
  pub run_blocks-Agree :
      AllReads moving.masters config dev reads_own takes copies
      → AllMoves moving
      → (schedule schedule' : ℕ → List ℕ) (ctx : Ctx) → Agree schedule schedule' ctx
  run_blocks-Agree reads moves schedule schedule' ctx =
      let (s1, one, h1) =
        run_blocks_total (streaming moving.masters config dev reads_own takes copies) prepare_layer
          call_block compress_layer schedule ctx (swlp.Streaming.new_scheduler config)
          (new_scheduler-IsExact moving.masters config) reads in
      let (s2, two, h2) =
        run_blocks_total (threaded moving) prepare_layer call_block compress_layer schedule' ctx
          (new_scheduler moving) (new_scheduler-IsOnDevice moving) moves in
      let same =
        ap (λ n. all_blocks (threaded moving) prepare_layer call_block compress_layer n 0 ctx)
          (sym same_blocks)
        ∙ all_blocks-same (threaded moving)
            (streaming moving.masters config dev reads_own takes copies) prepare_layer call_block
            compress_layer config.n_blocks 0 ctx in
      record {
        result =
            all_blocks (streaming moving.masters config dev reads_own takes copies) prepare_layer
              call_block compress_layer config.n_blocks 0 ctx;
        streamed = s1;
        swapped = s2;
        by_streaming = one;
        by_threads = two ∙ ap (λ c. ok (c, s2)) same;
      }
