-- ===== src/Streaming/Errors.antt =====
-- What `ensure` of src/swlp/core/streaming.py does after a block refused its state.
use swlp.Prelude.{
  ℕ, ◌+◌, ◌≡◌, refl, ap, ◌∙◌, Bool, true, false, Option, none, some, ok, err, ltb, if◌then◌else◌,
  put, put_self,
}
use swlp.Scheduling.{prefetch_error}
use swlp.Streaming.{
  done, Streaming, Device, StreamConfig, resident_count, disable_prefetch, ticked, applied,
  apply_shard, consumed, ensure_streamed, ensure_from, ensure,
}

module _ {W : Type 0} (config : StreamConfig) (dev : Device W) where
  open dev use {load_state_dict}

  if-none : (b : Bool) (o : Option W) → o ≡ none → (if b then o else none) ≡ none
  if-none true o e = e
  if-none false o e = refl

  ensure-streamed :
      (s : Streaming W) (i : ℕ) (b : Bool)
      → s.resident_data i ≡ none
      → s.loaded i ≡ b
      → ensure config dev s i ≡ ensure_streamed config dev s i b
  unfolding ensure
  ensure-streamed s i b bare there =
      ap (ensure_from config dev s i)
        (if-none (ltb i (resident_count config)) (s.resident_data i) bare)
      ∙ ap (ensure_streamed config dev s i) there

  -- The state after `_apply_shard` raised on the outcome of a finished prefetch.
  abbrev refused : Streaming W → ℕ → Streaming W
  refused s i = record s {
    futures = put s.futures i none;
    overlap_hits = s.overlap_hits + 1;
    attempts = s.attempts + 1;
    loaded = put s.loaded i true;
  }

  apply_shard-refused :
      (s : Streaming W) (i : ℕ) (w : W)
      → load_state_dict s.attempts i ≡ false
      → apply_shard config dev s i w true ≡ applied config dev (ticked config dev s) i w false
  unfolding apply_shard
  apply_shard-refused s i w fails = ap (applied config dev (ticked config dev s) i w) fails

  ensure-refused :
      (s : Streaming W) (i : ℕ) (w : W)
      → s.resident_data i ≡ none
      → s.loaded i ≡ false
      → s.futures i ≡ some (done (some w))
      → load_state_dict s.attempts i ≡ false
      → ensure config dev s i ≡ (err prefetch_error, refused s i)
  ensure-refused s i w bare away ready fails =
      let s1 = record s { futures = put s.futures i none } in
      ensure-streamed s i false bare away
      ∙ ap (consumed config dev s1 i) ready
      ∙ apply_shard-refused (record s1 { overlap_hits = s.overlap_hits + 1 }) i w fails

  -- When a streamed layer's prefetch has ended well and the block refuses its state, `ensure` fails,
  -- and the second `ensure` that the runner makes, after it has turned prefetching off, returns the
  -- block as it was before both calls: it is not loaded again.
  pub ensure-ensure :
      (s : Streaming W) (i : ℕ) (w : W)
      → s.resident_data i ≡ none
      → s.loaded i ≡ false
      → s.futures i ≡ some (done (some w))
      → load_state_dict s.attempts i ≡ false
      → ((ensure config dev s i).0 ≡ err prefetch_error)
        × ((ensure config dev (disable_prefetch config (ensure config dev s i).1) i).0
            ≡ ok (s.blocks i))
  unfolding disable_prefetch
  ensure-ensure s i w bare away ready fails =
      let first = ensure-refused s i w bare away ready fails in
      (
        ap (λ r. r.0) first,
        ap (λ r. (ensure config dev (disable_prefetch config r.1) i).0) first
            ∙ ap (λ r. r.0)
                (ensure-streamed (disable_prefetch config (refused s i)) i true bare
                  (put_self s.loaded i true)),
      )
