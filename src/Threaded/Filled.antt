-- ===== src/Threaded/Filled.antt =====
-- The threaded scheduler of src/swlp/core/scheduler.py as an instance of the runner's interface.
use swlp.Prelude.{
  ℕ, ◌≡◌, refl, ap, subst, ◌∙◌, ◌⊎◌, inl, inr, Bool, true, false, not, ◌||◌, Option, none, some,
  Result, ok, err, leb, put_self, put-all₂, if-all,
}
use swlp.Scheduling.{PrefetchError, prefetch_error, Scheduler}
use swlp.Streaming.Exact.{OwnBlock}
use swlp.Threaded.{
  Thread, running, dead, MoveConfig, Threaded, move_block, present, prefetch, disable_prefetch,
  thread_run, joined, worker, sync_load, ensure_joined, ensure, evict, new_scheduler,
}

module _ {W : Type 0} (config : MoveConfig W) where
  open config use {n_blocks, masters, to_device}

  -- A block that counts as loaded is on the device.
  pub record IsOnDevice (s : Threaded W) : Type 0 where
    pub on_device : (i : ℕ) → OwnBlock masters i (s.loaded i) (s.blocks i)

  pub new_scheduler-IsOnDevice : IsOnDevice (new_scheduler config)
  unfolding new_scheduler
  new_scheduler-IsOnDevice = record { on_device = λ i. tt }

  move_block-IsOnDevice :
      (s : Threaded W) (i : ℕ) (b : Bool) → IsOnDevice s → IsOnDevice (move_block config s i b)
  move_block-IsOnDevice s i false h = record { on_device = h.on_device }
  move_block-IsOnDevice s i true h = record {
    on_device =
        put-all₂ (OwnBlock masters) s.loaded s.blocks i true (some (masters i)) refl h.on_device;
  }

  thread_run-IsOnDevice :
      (s : Threaded W) (i : ℕ) (b : Bool) → IsOnDevice s → IsOnDevice (thread_run config s i b)
  thread_run-IsOnDevice s i true h = move_block-IsOnDevice s i true h
  thread_run-IsOnDevice s i false h = record { on_device = h.on_device }

  joined-IsOnDevice :
      (s : Threaded W) (i : ℕ) (t : Option Thread) → IsOnDevice s → IsOnDevice (joined config s i t)
  joined-IsOnDevice s i none h = h
  joined-IsOnDevice s i (some dead) h = h
  joined-IsOnDevice s i (some running) h = thread_run-IsOnDevice s i (to_device s.attempts i) h

  pub worker-IsOnDevice : (i : ℕ) (s : Threaded W) → IsOnDevice s → IsOnDevice (worker config i s)
  unfolding worker
  worker-IsOnDevice i s h = joined-IsOnDevice s i (s.threads i) h

  abbrev pub AllOnDevice : Result PrefetchError (Threaded W) → Type 0
  AllOnDevice (ok s) = IsOnDevice s
  AllOnDevice (err e) = Unit

  pub prefetch-AllOnDevice :
      (s : Threaded W) (i : ℕ) → IsOnDevice s → AllOnDevice (prefetch config s i)
  unfolding prefetch
  prefetch-AllOnDevice s i h =
      if-all AllOnDevice (not s.prefetch_enabled) (ok s) _ (λ t. h)
        (λ on.
          if-all AllOnDevice (leb n_blocks i) (ok s) _ (λ t. h)
            (λ small.
              if-all AllOnDevice (s.loaded i || present config (s.threads i)) (ok s) _ (λ t. h)
                (λ new. record { on_device = h.on_device })))

  pub disable_prefetch-IsOnDevice :
      (s : Threaded W) → IsOnDevice s → IsOnDevice (disable_prefetch config s)
  unfolding disable_prefetch
  disable_prefetch-IsOnDevice s h = record { on_device = h.on_device }

  pub evict-IsOnDevice : (s : Threaded W) (i : ℕ) → IsOnDevice s → IsOnDevice (evict config s i)
  unfolding evict
  evict-IsOnDevice s i h =
      if-all IsOnDevice (leb n_blocks i) s _ (λ t. h)
        (λ small.
          if-all IsOnDevice (not (s.loaded i)) s _ (λ t. h)
            (λ here. record {
              on_device = put-all₂ (OwnBlock masters) s.loaded s.blocks i false none tt h.on_device;
            }))

  -- What `ensure` may answer for layer `i`.
  abbrev pub Ensured : ℕ → Result PrefetchError (Option W) × Threaded W → Type 0
  Ensured i r = ((r.0 ≡ ok (some (masters i))) ⊎ (r.0 ≡ err prefetch_error)) × IsOnDevice r.1

  sync_load-Ensured :
      (s : Threaded W) (i : ℕ) (b : Bool) → IsOnDevice s → Ensured i (sync_load config s i b)
  sync_load-Ensured s i true h =
      (inl (ap ok (put_self s.blocks i (some (masters i)))), move_block-IsOnDevice s i true h)
  sync_load-Ensured s i false h = (inr refl, move_block-IsOnDevice s i false h)

  ensure_joined-Ensured :
      (s : Threaded W) (i : ℕ) (b : Bool)
      → OwnBlock masters i b (s.blocks i)
      → IsOnDevice s
      → Ensured i (ensure_joined config s i b)
  ensure_joined-Ensured s i true own h = (inl (ap ok own), h)
  ensure_joined-Ensured s i false own h = sync_load-Ensured s i (to_device s.attempts i) h

  pub ensure-Ensured : (s : Threaded W) (i : ℕ) → IsOnDevice s → Ensured i (ensure config s i)
  unfolding ensure
  ensure-Ensured s i h =
      let h1 = worker-IsOnDevice i s h in
      ensure_joined-Ensured (worker config i s) i ((worker config i s).loaded i) (h1.on_device i) h1

  abbrev pub AllMoves : Type 0
  AllMoves = (t i : ℕ) → to_device t i ≡ true

  ensure_joined_answers :
      AllMoves
      → (s : Threaded W) (i : ℕ) (b : Bool) → OwnBlock masters i b (s.blocks i)
      → (ensure_joined config s i b).0 ≡ ok (some (masters i))
  ensure_joined_answers all s i true own = ap ok own
  ensure_joined_answers all s i false own =
      ap (λ b. (sync_load config s i b).0) (all s.attempts i)
      ∙ ap ok (put_self s.blocks i (some (masters i)))

  pub ensure_total :
      AllMoves
      → (s : Threaded W) (i : ℕ) → IsOnDevice s
      → (ensure config s i).0 ≡ ok (some (masters i))
  unfolding ensure
  ensure_total all s i h =
      ensure_joined_answers all (worker config i s) i ((worker config i s).loaded i)
        ((worker-IsOnDevice i s h).on_device i)

  abbrev pub threaded : Scheduler W masters n_blocks
  threaded = record {
    State = Threaded W;
    window_size = λ s. config.window_size;
    prefetch_depth = λ s. config.prefetch_depth;
    prefetch = prefetch config;
    disable_prefetch = disable_prefetch config;
    ensure = ensure config;
    evict = evict config;
    worker = worker config;
    IsGood = IsOnDevice;
    Reliable = AllMoves;
    prefetch-IsGood = λ s s' i h e. subst AllOnDevice e (prefetch-AllOnDevice s i h);
    disable_prefetch-IsGood = disable_prefetch-IsOnDevice;
    ensure-IsGood = λ s i lt h. (ensure-Ensured s i h).1;
    evict-IsGood = evict-IsOnDevice;
    worker-IsGood = worker-IsOnDevice;
    ensure_sound = λ s i lt h. (ensure-Ensured s i h).0;
    ensure_total = λ s i lt h all. ensure_total all s i h;
  }
