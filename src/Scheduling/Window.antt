-- ===== src/Scheduling/Window.antt =====
-- The layers that `_run_blocks` of src/swlp/runner/swlp.py holds at a time.
use swlp.Prelude.{
  ℕ, zero, suc, ◌+◌, ◌≤◌, ◌<◌, min, ◌≡◌, refl, subst, Option, none, some, List, [], ◌∷◌, Result, ok,
  err, arith,
}
use swlp.Scheduling.{PrefetchError, Scheduler}
use swlp.Scheduling.Run.{
  RunError, after_prefetch, warmup, prefetch_ahead, run_workers, ensure_again, computed, run_block,
  and_then, blocks_loop, lookahead_of, run_blocks,
}

-- `Held lo hi s`: the layers that `s` holds or fetches are among `lo`, …, `hi - 1`.
pub record Windowed {W : Type 0} {weights : ℕ → W} {n_blocks : ℕ}
    (sched : Scheduler W weights n_blocks) : Type 1 where
  pub Held : ℕ → ℕ → sched.State → Type 0
  pub widen : (lo hi more : ℕ) (s : sched.State) → hi ≤ more → Held lo hi s → Held lo more s
  pub prefetch-Held :
      (lo hi i : ℕ) (s s' : sched.State)
      → lo ≤ i
      → i < hi
      → Held lo hi s
      → sched.prefetch s i ≡ ok s'
      → Held lo hi s'
  pub disable_prefetch-Held :
      (lo hi : ℕ) (s : sched.State) → Held lo hi s → Held lo hi (sched.disable_prefetch s)
  pub worker-Held : (lo hi j : ℕ) (s : sched.State) → Held lo hi s → Held lo hi (sched.worker j s)
  pub ensure-Held :
      (lo hi i : ℕ) (s : sched.State)
      → lo ≤ i
      → i < hi
      → i < n_blocks
      → Held lo hi s
      → Held lo hi (sched.ensure s i).1
  pub evict-Held :
      (hi i : ℕ) (s : sched.State) (b : Option W)
      → i < hi
      → i < n_blocks
      → (sched.ensure s i).0 ≡ ok b
      → Held i hi s
      → Held (i + 1) hi (sched.evict (sched.ensure s i).1 i)

module _ {W Ctx : Type 0} {weights : ℕ → W} {n_blocks : ℕ} (sched : Scheduler W weights n_blocks)
    (prepare_layer : ℕ → Ctx → Ctx) (call_block : W → ℕ → Ctx → Ctx)
    (compress_layer : ℕ → Ctx → Ctx) (win : Windowed sched) where
  open sched use {State}
  open win use {Held}

  after_prefetch-Held :
      (lo hi i : ℕ) (s : State) (r : Result PrefetchError State) (go_on : State → State)
      → lo ≤ i
      → i < hi
      → sched.prefetch s i ≡ r
      → Held lo hi s
      → ((s' : State) → Held lo hi s' → Held lo hi (go_on s'))
      → Held lo hi (after_prefetch sched prepare_layer call_block compress_layer s r go_on)
  after_prefetch-Held lo hi i s (ok s') go_on le lt e h next =
      next s' (win.prefetch-Held lo hi i s s' le lt h e)
  after_prefetch-Held lo hi i s (err x) go_on le lt e h next = win.disable_prefetch-Held lo hi s h

  warmup-Held :
      (hi rounds i : ℕ) (s : State)
      → i + rounds ≤ hi
      → Held 0 hi s
      → Held 0 hi (warmup sched prepare_layer call_block compress_layer rounds i s)
  unfolding warmup
  warmup-Held hi zero i s le h = h
  warmup-Held hi (suc rounds) i s le h =
      after_prefetch-Held 0 hi i s (sched.prefetch s i) _ (omega arith) (omega arith) refl h
        (λ s' h'. warmup-Held hi rounds (i + 1) s' (omega arith) h')

  prefetch_ahead-Held :
      (lo hi rounds i : ℕ) (s : State)
      → lo ≤ i
      → i + rounds ≤ hi
      → Held lo hi s
      → Held lo hi (prefetch_ahead sched prepare_layer call_block compress_layer rounds i s)
  unfolding prefetch_ahead
  prefetch_ahead-Held lo hi zero i s low le h = h
  prefetch_ahead-Held lo hi (suc rounds) i s low le h =
      after_prefetch-Held lo hi i s (sched.prefetch s i) _ low (omega arith) refl h
        (λ s' h'. prefetch_ahead-Held lo hi rounds (i + 1) s' (omega arith) (omega arith) h')

  run_workers-Held :
      (lo hi : ℕ) (js : List ℕ) (s : State)
      → Held lo hi s
      → Held lo hi (run_workers sched prepare_layer call_block compress_layer js s)
  unfolding run_workers
  run_workers-Held lo hi [] s h = h
  run_workers-Held lo hi (j ∷ js) s h =
      run_workers-Held lo hi js (sched.worker j s) (win.worker-Held lo hi j s h)

  -- A round that ends well has moved the window one layer on.
  abbrev MovedOn : ℕ → ℕ → Result RunError (Ctx × State) → Type 0
  MovedOn lo hi (ok (ctx, s)) = Held lo hi s
  MovedOn lo hi (err e) = Unit

  computed-MovedOn :
      (hi i : ℕ) (ctx : Ctx) (r : Result PrefetchError (Option W)) (s : State)
      → i < hi
      → i < n_blocks
      → (sched.ensure s i).0 ≡ r
      → Held i hi s
      → MovedOn
          (i + 1)
          hi
          (computed sched prepare_layer call_block compress_layer i ctx (r, (sched.ensure s i).1))
  computed-MovedOn hi i ctx (err e) s inside lt same h = tt
  computed-MovedOn hi i ctx (ok none) s inside lt same h = tt
  computed-MovedOn hi i ctx (ok (some w)) s inside lt same h =
      win.evict-Held hi i s (some w) inside lt same h

  ensured-MovedOn :
      (hi i : ℕ) (ctx : Ctx) (r : Result PrefetchError (Option W)) (s : State)
      → i < hi
      → i < n_blocks
      → (sched.ensure s i).0 ≡ r
      → Held i hi s
      → MovedOn (i + 1) hi (
          computed sched prepare_layer call_block compress_layer i ctx (
            ensure_again sched prepare_layer call_block compress_layer i (r, (sched.ensure s i).1)))
  ensured-MovedOn hi i ctx (ok block) s inside lt same h =
      computed-MovedOn hi i ctx (ok block) s inside lt same h
  ensured-MovedOn hi i ctx (err e) s inside lt same h =
      let s1 = sched.disable_prefetch (sched.ensure s i).1 in
      computed-MovedOn hi i ctx (sched.ensure s1 i).0 s1 inside lt refl
        (win.disable_prefetch-Held i hi _ (win.ensure-Held i hi i s (omega arith) inside lt h))

  run_block-MovedOn :
      (lookahead : ℕ) (done : List ℕ) (i : ℕ) (ctx : Ctx) (s : State)
      → i < n_blocks
      → Held i (i + lookahead) s
      → MovedOn
          (i + 1)
          (i + 1 + lookahead)
          (run_block sched prepare_layer call_block compress_layer lookahead done i ctx s)
  unfolding run_block
  run_block-MovedOn lookahead done i ctx s lt h =
      ensured-MovedOn (i + 1 + lookahead) i (prepare_layer i ctx) _
        (run_workers sched prepare_layer call_block compress_layer done
          (prefetch_ahead sched prepare_layer call_block compress_layer lookahead (i + 1) s))
        (omega arith) lt refl
        (run_workers-Held i (i + 1 + lookahead) done _ (
          prefetch_ahead-Held i (i + 1 + lookahead) lookahead (i + 1) s (omega arith) (omega arith)
            (win.widen i (i + lookahead) (i + 1 + lookahead) s (omega arith) h)))

  after-MovedOn :
      (lo hi lo' hi' : ℕ) (go_on : Ctx → State → Result RunError (Ctx × State))
      (r : Result RunError (Ctx × State))
      → MovedOn lo hi r
      → ((ctx : Ctx) (s : State) → Held lo hi s → MovedOn lo' hi' (go_on ctx s))
      → MovedOn lo' hi' (and_then sched prepare_layer call_block compress_layer go_on r)
  after-MovedOn lo hi lo' hi' go_on (err e) h next = tt
  after-MovedOn lo hi lo' hi' go_on (ok (ctx, s)) h next = next ctx s h

  blocks_loop-MovedOn :
      (lookahead : ℕ) (schedule : ℕ → List ℕ) (rounds i : ℕ) (ctx : Ctx) (s : State)
      → i + rounds ≡ n_blocks
      → Held i (i + lookahead) s
      → MovedOn n_blocks (n_blocks + lookahead) (
          blocks_loop sched prepare_layer call_block compress_layer lookahead schedule rounds i ctx
            s)
  unfolding blocks_loop
  blocks_loop-MovedOn lookahead schedule zero i ctx s all h =
      let e : i ≡ n_blocks = omega arith in subst (λ k. Held k (k + lookahead) s) e h
  blocks_loop-MovedOn lookahead schedule (suc rounds) i ctx s all h =
      after-MovedOn (i + 1) (i + 1 + lookahead) n_blocks (n_blocks + lookahead) _ _
        (run_block-MovedOn lookahead (schedule i) i ctx s (omega arith) h)
        (λ ctx' s' h'.
          blocks_loop-MovedOn lookahead schedule rounds (i + 1) ctx' s' (omega arith) h')

  -- A sweep that starts with nothing held, and returns, holds or fetches only layers from the end of the
  -- model on, as many as it looks ahead.
  pub run_blocks-Held :
      (schedule : ℕ → List ℕ) (ctx ctx' : Ctx) (s s' : State)
      → Held 0 0 s
      → run_blocks sched prepare_layer call_block compress_layer schedule ctx s ≡ ok (ctx', s')
      → Held n_blocks (n_blocks + lookahead_of sched prepare_layer call_block compress_layer s) s'
  unfolding run_blocks
  run_blocks-Held schedule ctx ctx' s s' h e =
      let lookahead = lookahead_of sched prepare_layer call_block compress_layer s in
      let rounds : ℕ = min lookahead n_blocks in
      let fits : 0 + rounds ≤ 0 + lookahead = omega arith in
      subst (MovedOn n_blocks (n_blocks + lookahead)) e (
        blocks_loop-MovedOn lookahead schedule n_blocks 0 ctx _ (omega arith) (
          warmup-Held (0 + lookahead) rounds 0 s fits
            (win.widen 0 0 (0 + lookahead) s (omega arith) h)))
