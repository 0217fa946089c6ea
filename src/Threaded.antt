-- ===== src/Threaded.antt =====
-- `ThreadedScheduler` of src/swlp/core/scheduler.py, for a model that is in main memory: which blocks
-- are on the device and which threads move one there. Whether a move succeeds is a parameter; the way
-- back to main memory does not fail. Filled fills the interface of the runner.
pub mod Filled
pub mod Agree
use swlp.Prelude.{
  ℕ, ◌+◌, Bool, true, false, not, ◌||◌, Option, none, some, Result, ok, err, leb, if◌then◌else◌,
  put,
}
use swlp.Scheduling.{PrefetchError, prefetch_error}

-- A thread whose move raised stays in the dictionary.
pub data Thread : Type 0 where
  running dead : Thread

pub record MoveConfig (W : Type 0) : Type 0 where
  pub n_blocks : ℕ
  pub window_size : ℕ
  pub prefetch_depth : ℕ
  pub prefetch_wanted : Bool
  -- the weights in main memory
  pub masters : ℕ → W
  -- whether the move with the number `t` of block `i` to the device succeeds
  pub to_device : ℕ → ℕ → Bool

-- `blocks i` is `none` while block `i` is in main memory; `attempts` numbers the moves.
pub record Threaded (W : Type 0) : Type 0 where
  pub prefetch_enabled : Bool
  pub loaded : ℕ → Bool
  pub threads : ℕ → Option Thread
  pub blocks : ℕ → Option W
  pub attempts : ℕ

module _ {W : Type 0} (config : MoveConfig W) where
  open config use {n_blocks, masters, to_device}

  unfoldable pub new_scheduler : Threaded W
  new_scheduler = record {
    prefetch_enabled = config.prefetch_wanted;
    loaded = λ i. false;
    threads = λ i. none;
    blocks = λ i. none;
    attempts = 0;
  }

  -- `_move_block`, with whether the move succeeds.
  abbrev pub move_block : Threaded W → ℕ → Bool → Threaded W
  move_block s i true = record s {
    blocks = put s.blocks i (some (masters i));
    loaded = put s.loaded i true;
    threads = put s.threads i none;
    attempts = s.attempts + 1;
  }
  move_block s i false = record s { attempts = s.attempts + 1 }

  abbrev pub present : Option Thread → Bool
  present none = false
  present (some t) = true

  unfoldable pub prefetch : Threaded W → ℕ → Result PrefetchError (Threaded W)
  prefetch s layer_index =
      if not s.prefetch_enabled
      then ok s
      else if leb n_blocks layer_index
      then ok s
      else if s.loaded layer_index || present (s.threads layer_index)
      then ok s
      else ok (record s { threads = put s.threads layer_index (some running) })

  unfoldable pub disable_prefetch : Threaded W → Threaded W
  disable_prefetch s = record s { prefetch_enabled = false }

  -- A thread that raises ends as `dead`.
  abbrev pub thread_run : Threaded W → ℕ → Bool → Threaded W
  thread_run s i true = move_block s i true
  thread_run s i false = record (move_block s i false) { threads = put s.threads i (some dead) }

  abbrev pub joined : Threaded W → ℕ → Option Thread → Threaded W
  joined s i none = s
  joined s i (some dead) = s
  joined s i (some running) = thread_run s i (to_device s.attempts i)

  unfoldable pub worker : ℕ → Threaded W → Threaded W
  worker i s = joined s i (s.threads i)

  abbrev pub sync_load : Threaded W → ℕ → Bool → Result PrefetchError (Option W) × Threaded W
  sync_load s i true = let s1 = move_block s i true in (ok (s1.blocks i), s1)
  sync_load s i false = (err prefetch_error, move_block s i false)

  abbrev pub ensure_joined : Threaded W → ℕ → Bool → Result PrefetchError (Option W) × Threaded W
  ensure_joined s i true = (ok (s.blocks i), s)
  ensure_joined s i false = sync_load s i (to_device s.attempts i)

  -- `t.join()` waits for the thread, if there is one.
  unfoldable pub ensure : Threaded W → ℕ → Result PrefetchError (Option W) × Threaded W
  ensure s layer_index =
      let s1 = worker layer_index s in ensure_joined s1 layer_index (s1.loaded layer_index)

  abbrev pub evicted : Threaded W → ℕ → Threaded W
  evicted s i = record s {
    blocks = put s.blocks i none;
    loaded = put s.loaded i false;
    threads = put s.threads i none;
  }

  unfoldable pub evict : Threaded W → ℕ → Threaded W
  evict s layer_index =
      if leb n_blocks layer_index
      then s
      else if not (s.loaded layer_index)
      then s
      else evicted s layer_index
