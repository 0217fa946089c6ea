-- ===== src/Tests/Schedulers.antt =====
-- Sweeps of the runner with concrete schedulers.
use swlp.Prelude.{
  ℕ, ◌+◌, ◌%◌, ◌≡◌, refl, arith, Bool, true, false, Option, none, some, List, [], ◌∷◌, ok, err,
  ◌==◌, if◌then◌else◌, not,
}
use swlp.Scheduling.{prefetch_error}
use swlp.Scheduling.Run.{run_blocks}
use swlp.Scheduling.Total.{run_blocks_total}
use swlp.Streaming.{done, Streaming, Device, StreamConfig, disable_prefetch, ensure, new_scheduler}
use swlp.Streaming.Exact.{IsExact, new_scheduler-IsExact}
use swlp.Streaming.Reliable.{AllReads, streaming, ensure_answers}
use swlp.Streaming.Released.{IsReleased, run_blocks-IsReleased}
use swlp.Streaming.Errors.{ensure-ensure}
use swlp.Threaded.{MoveConfig}
use swlp.Threaded.Agree.{Agree, run_blocks-Agree}

abbrev layer_weights : ℕ → ℕ
layer_weights i = 10 + i

abbrev streams : StreamConfig
streams = record {
  n_blocks = 4;
  resident_wanted = 1;
  window_size = 2;
  prefetch_depth = 1;
  prefetch_wanted = true;
}

abbrev ssd : Device ℕ
ssd = record {
  read_shard = λ t i. some (layer_weights i);
  to_device = λ t i. true;
  load_state_dict = λ t i. true;
  to_meta = λ t i. true;
}

-- Every third attempt to read fails.
abbrev every_third : ℕ → Bool
every_third t = t % 3 == 0

abbrev read_or_fail : Bool → ℕ → Option ℕ
read_or_fail true i = none
read_or_fail false i = some (layer_weights i)

abbrev flaky_ssd : Device ℕ
flaky_ssd = record {
  read_shard = λ t i. read_or_fail (every_third t) i;
  to_device = λ t i. true;
  load_state_dict = λ t i. true;
  to_meta = λ t i. true;
}

-- The context is the list of what was called.
abbrev call_block : ℕ → ℕ → List ℕ → List ℕ
call_block w i ctx = w ∷ ctx

abbrev untouched : ℕ → List ℕ → List ℕ
untouched i ctx = ctx

abbrev schedule : ℕ → List ℕ
schedule i = (i + 2) ∷ (i + 1) ∷ []

all_reads : AllReads layer_weights streams ssd (λ t i. refl) (λ t i. refl) (λ t i lt. refl)
all_reads = ((λ t i lt. (layer_weights i, refl)), (λ t i. refl))

run_blocks-total_example :
    (s' : Streaming ℕ) × (run_blocks
        (streaming layer_weights streams ssd (λ t i. refl) (λ t i. refl) (λ t i lt. refl))
        untouched
        call_block
        untouched
        schedule
        []
        (new_scheduler streams)
      ≡ ok (13 ∷ 12 ∷ 11 ∷ 10 ∷ [], s'))
    × IsExact layer_weights s'
run_blocks-total_example =
    run_blocks_total
      (streaming layer_weights streams ssd (λ t i. refl) (λ t i. refl) (λ t i lt. refl)) untouched
      call_block untouched schedule [] (new_scheduler streams)
      (new_scheduler-IsExact layer_weights streams) all_reads

ensure-answers_example : (ensure streams ssd (new_scheduler streams) 2).0 ≡ ok (some 12)
ensure-answers_example =
    ensure_answers layer_weights streams ssd (λ t i. refl) (λ t i. refl) (λ t i lt. refl) all_reads
      (new_scheduler streams) 2 (omega arith) (new_scheduler-IsExact layer_weights streams)

abbrev masters : MoveConfig ℕ
masters = record {
  n_blocks = 4;
  window_size = 1;
  prefetch_depth = 3;
  prefetch_wanted = true;
  masters = layer_weights;
  to_device = λ t i. true;
}

run_blocks-Agree_example :
    Agree masters streams ssd refl
      (λ t i. refl)
      (λ t i. refl)
      (λ t i lt. refl)
      untouched
      call_block
      untouched
      schedule
      (λ i. i ∷ [])
      []
run_blocks-Agree_example =
    run_blocks-Agree masters streams ssd refl (λ t i. refl) (λ t i. refl) (λ t i lt. refl) untouched
      call_block untouched all_reads (λ t i. refl) schedule (λ i. i ∷ []) []

-- Layer 2 was prefetched, and its block refuses every state.
abbrev refusing : Device ℕ
refusing = record {
  read_shard = λ t i. some (layer_weights i);
  to_device = λ t i. true;
  load_state_dict = λ t i. not (i == 2);
  to_meta = λ t i. true;
}

abbrev prefetched : Streaming ℕ
prefetched = record {
  prefetch_enabled = true;
  pool_open = true;
  loaded = λ i. false;
  futures = λ i. if i == 2 then some (done (some 12)) else none;
  resident_data = λ i. none;
  blocks = λ i. none;
  attempts = 0;
  overlap_hits = 0;
  overlap_waits = 0;
  overlap_misses = 0;
}

ensure-ensure_example :
    ((ensure streams refusing prefetched 2).0 ≡ err prefetch_error)
    × ((ensure streams refusing
          (disable_prefetch streams (ensure streams refusing prefetched 2).1)
          2).0
        ≡ ok none)
ensure-ensure_example = ensure-ensure streams refusing prefetched 2 12 refl refl refl refl

new_scheduler-IsReleased : IsReleased streams {W = ℕ} (new_scheduler streams)
unfolding new_scheduler
new_scheduler-IsReleased = record { no_blocks = λ j streamed. refl; no_futures = λ j. refl }

sweep :
    (s' : Streaming ℕ) × (run_blocks
        (streaming layer_weights streams ssd (λ t i. refl) (λ t i. refl) (λ t i lt. refl))
        untouched
        call_block
        untouched
        schedule
        []
        (new_scheduler streams)
      ≡ ok (13 ∷ 12 ∷ 11 ∷ 10 ∷ [], s'))
    × IsExact layer_weights s'
sweep =
    run_blocks_total
      (streaming layer_weights streams ssd (λ t i. refl) (λ t i. refl) (λ t i lt. refl)) untouched
      call_block untouched schedule [] (new_scheduler streams)
      (new_scheduler-IsExact layer_weights streams) all_reads

run_blocks-IsReleased_example : IsReleased streams sweep.0
run_blocks-IsReleased_example =
    run_blocks-IsReleased layer_weights streams ssd (λ t i. refl) (λ t i. refl) (λ t i lt. refl)
      (λ t i. refl) untouched call_block untouched schedule [] (13 ∷ 12 ∷ 11 ∷ 10 ∷ [])
      (new_scheduler streams) sweep.0 new_scheduler-IsReleased sweep.1
