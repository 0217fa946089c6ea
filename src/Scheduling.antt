-- ===== src/Scheduling.antt =====
-- What `SWLPRunner._run_blocks` (src/swlp/runner/swlp.py) asks of a layer scheduler. The streaming
-- scheduler (src/swlp/core/streaming.py) and the threaded one (src/swlp/core/scheduler.py) fill it.
pub mod Run
pub mod Ordered
pub mod Total
pub mod Window
use swlp.Prelude.{ℕ, ◌<◌, ◌≡◌, ◌⊎◌, Option, some, Result, ok, err}

pub data PrefetchError : Type 0 where
  prefetch_error : PrefetchError

-- `W` are the weights of a block; a block without weights is on the meta device (`none`). A call
-- that raises has changed the state all the same. `worker` is what the background threads do
-- between two calls; its argument says which of them.
pub record Scheduler (W : Type 0) (weights : ℕ → W) (n_blocks : ℕ) : Type 1 where
  pub State : Type 0
  pub window_size : State → ℕ
  pub prefetch_depth : State → ℕ
  pub prefetch : State → ℕ → Result PrefetchError State
  pub disable_prefetch : State → State
  pub ensure : State → ℕ → Result PrefetchError (Option W) × State
  pub evict : State → ℕ → State
  pub worker : ℕ → State → State
  -- the states in which all that is loaded is what it should be
  pub IsGood : State → Type 0
  -- no read and no move fails
  pub Reliable : Type 0
  pub prefetch-IsGood : (s s' : State) (i : ℕ) → IsGood s → prefetch s i ≡ ok s' → IsGood s'
  pub disable_prefetch-IsGood : (s : State) → IsGood s → IsGood (disable_prefetch s)
  pub ensure-IsGood : (s : State) (i : ℕ) → i < n_blocks → IsGood s → IsGood (ensure s i).1
  pub evict-IsGood : (s : State) (i : ℕ) → IsGood s → IsGood (evict s i)
  pub worker-IsGood : (j : ℕ) (s : State) → IsGood s → IsGood (worker j s)
  -- a block that is returned has its weights
  pub ensure_sound :
      (s : State) (i : ℕ)
      → i < n_blocks
      → IsGood s
      → ((ensure s i).0 ≡ ok (some (weights i))) ⊎ ((ensure s i).0 ≡ err prefetch_error)
  pub ensure_total :
      (s : State) (i : ℕ)
      → i < n_blocks
      → IsGood s
      → Reliable
      → (ensure s i).0 ≡ ok (some (weights i))
