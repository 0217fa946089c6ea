-- ===== src/Streaming/Ensuring.antt =====
-- The window of the streaming scheduler of src/swlp/core/streaming.py under `ensure` and the
-- pools.
use swlp.Prelude.{
  ℕ, ◌+◌, ◌≡◌, refl, subst, Bool, true, false, Option, none, some, Result, ok, err, put, put_self,
  put-all,
}
use swlp.Scheduling.{PrefetchError}
use swlp.Streaming.{
  Future, pending, done, Streaming, Device, StreamConfig, disable_prefetch, ticked, read_and_upload,
  applied, apply_shard, loaded_now, read_now, settled, consumed, ensure_streamed, ensure_resident,
  ensure_from, ensure, finished, worker,
}
use swlp.Streaming.Window.{Inside, HeldBlock, HeldFuture, HeldState}

module _ {W : Type 0} (config : StreamConfig) (dev : Device W) where
  open config use {n_blocks}

  finished-Held :
      (lo hi j : ℕ) (s : Streaming W) (f : Option (Future W))
      → s.futures j ≡ f
      → HeldState config lo hi s
      → HeldState config lo hi (finished config dev s j f)
  finished-Held lo hi j s none e h = h
  finished-Held lo hi j s (some (done outcome)) e h = h
  finished-Held lo hi j s (some pending) e h = record {
    held_blocks = h.held_blocks;
    held_futures =
        put-all (HeldFuture config lo hi) s.futures j
          (some (done (read_and_upload config dev s.attempts j)))
          (subst (HeldFuture config lo hi j) e (h.held_futures j)) h.held_futures;
  }

  pub worker-Held :
      (lo hi j : ℕ) (s : Streaming W)
      → HeldState config lo hi s
      → HeldState config lo hi (worker config dev j s)
  unfolding worker
  worker-Held lo hi j s h = finished-Held lo hi j s (s.futures j) refl h

  abbrev pub LoadedIfOk : ℕ → Result PrefetchError (Option W) → Streaming W → Type 0
  LoadedIfOk i (ok b) s = s.loaded i ≡ true
  LoadedIfOk i (err e) s = Unit

  -- What `ensure` of layer `i` leaves.
  abbrev pub After : ℕ → ℕ → ℕ → Result PrefetchError (Option W) × Streaming W → Type 0
  After lo hi i r = HeldState config lo hi r.1 × LoadedIfOk i r.0 r.1

  applied-After :
      (lo hi i : ℕ) (s : Streaming W) (w : W) (b : Bool)
      → Inside config lo hi i
      → HeldState config lo hi s
      → After lo hi i (applied config dev s i w b)
  applied-After lo hi i s w true inside h = (
    record {
      held_blocks =
          put-all (HeldBlock config lo hi) s.loaded i true (λ streamed. inside) h.held_blocks;
      held_futures = h.held_futures;
    },
    put_self s.loaded i true,
  )
  applied-After lo hi i s w false inside h = (
    record {
      held_blocks =
          put-all (HeldBlock config lo hi) s.loaded i true (λ streamed. inside) h.held_blocks;
      held_futures = h.held_futures;
    },
    tt,
  )

  -- Held depends on the layers and futures only.
  same-Held :
      (lo hi : ℕ) (s t : Streaming W)
      → s.loaded ≡ t.loaded
      → s.futures ≡ t.futures
      → HeldState config lo hi s
      → HeldState config lo hi t
  same-Held lo hi s t l f h = record {
    held_blocks = λ j. subst (λ g. HeldBlock config lo hi j (g j)) l (h.held_blocks j);
    held_futures = λ j. subst (λ g. HeldFuture config lo hi j (g j)) f (h.held_futures j);
  }

  apply_shard-After :
      (lo hi i : ℕ) (s : Streaming W) (w : W) (b : Bool)
      → Inside config lo hi i
      → HeldState config lo hi s
      → After lo hi i (apply_shard config dev s i w b)
  unfolding apply_shard
  apply_shard-After lo hi i s w b inside h =
      applied-After lo hi i (ticked config dev s) w _ inside
        (same-Held lo hi s (ticked config dev s) refl refl h)

  loaded_now-After :
      (lo hi i : ℕ) (s : Streaming W) (o : Option W)
      → Inside config lo hi i
      → HeldState config lo hi s
      → After lo hi i (loaded_now config dev s i o)
  loaded_now-After lo hi i s none inside h = (h, tt)
  loaded_now-After lo hi i s (some w) inside h = apply_shard-After lo hi i s w true inside h

  read_now-After :
      (lo hi i : ℕ) (s : Streaming W)
      → Inside config lo hi i
      → HeldState config lo hi s
      → After lo hi i (read_now config dev s i)
  read_now-After lo hi i s inside h =
      loaded_now-After lo hi i (ticked config dev s) _ inside
        (same-Held lo hi s (ticked config dev s) refl refl h)

  settled-After :
      (lo hi i : ℕ) (s : Streaming W) (o : Option W)
      → Inside config lo hi i
      → HeldState config lo hi s
      → After lo hi i (settled config dev s i o)
  settled-After lo hi i s none inside h = read_now-After lo hi i s inside h
  settled-After lo hi i s (some w) inside h = apply_shard-After lo hi i s w true inside h

  consumed-After :
      (lo hi i : ℕ) (s : Streaming W) (f : Option (Future W))
      → Inside config lo hi i
      → HeldState config lo hi s
      → After lo hi i (consumed config dev s i f)
  consumed-After lo hi i s none inside h =
      let s1 = record s { overlap_misses = s.overlap_misses + 1 } in
      read_now-After lo hi i s1 inside (same-Held lo hi s s1 refl refl h)
  consumed-After lo hi i s (some pending) inside h =
      let s1 = ticked config dev (record s { overlap_waits = s.overlap_waits + 1 }) in
      settled-After lo hi i s1 (read_and_upload config dev s.attempts i) inside
        (same-Held lo hi s s1 refl refl h)
  consumed-After lo hi i s (some (done outcome)) inside h =
      let s1 = record s { overlap_hits = s.overlap_hits + 1 } in
      settled-After lo hi i s1 outcome inside (same-Held lo hi s s1 refl refl h)

  ensure_streamed-After :
      (lo hi i : ℕ) (s : Streaming W) (b : Bool)
      → s.loaded i ≡ b
      → Inside config lo hi i
      → HeldState config lo hi s
      → After lo hi i (ensure_streamed config dev s i b)
  ensure_streamed-After lo hi i s true e inside h = (h, e)
  ensure_streamed-After lo hi i s false e inside h =
      consumed-After lo hi i (record s { futures = put s.futures i none }) (s.futures i) inside
        (record {
          held_blocks = h.held_blocks;
          held_futures = put-all (HeldFuture config lo hi) s.futures i none tt h.held_futures;
        })

  ensure_resident-After :
      (lo hi i : ℕ) (s : Streaming W) (w : W) (b : Bool)
      → s.loaded i ≡ b
      → Inside config lo hi i
      → HeldState config lo hi s
      → After lo hi i (ensure_resident config dev s i w b)
  ensure_resident-After lo hi i s w true e inside h = (h, e)
  ensure_resident-After lo hi i s w false e inside h = apply_shard-After lo hi i s w false inside h

  ensure_from-After :
      (lo hi i : ℕ) (s : Streaming W) (o : Option W)
      → Inside config lo hi i
      → HeldState config lo hi s
      → After lo hi i (ensure_from config dev s i o)
  ensure_from-After lo hi i s none inside h =
      ensure_streamed-After lo hi i s (s.loaded i) refl inside h
  ensure_from-After lo hi i s (some w) inside h =
      ensure_resident-After lo hi i s w (s.loaded i) refl inside h

  pub ensure-After :
      (lo hi i : ℕ) (s : Streaming W)
      → Inside config lo hi i
      → HeldState config lo hi s
      → After lo hi i (ensure config dev s i)
  unfolding ensure
  ensure-After lo hi i s inside h = ensure_from-After lo hi i s _ inside h

  pub disable_prefetch-Held :
      (lo hi : ℕ) (s : Streaming W)
      → HeldState config lo hi s
      → HeldState config lo hi (disable_prefetch config s)
  unfolding disable_prefetch
  disable_prefetch-Held lo hi s h =
      same-Held lo hi s (record s { prefetch_enabled = false }) refl refl h
