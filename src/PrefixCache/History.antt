-- ===== src/PrefixCache/History.antt =====
-- The prefix cache of src/swlp/core/prefix_cache.py over any history of lookups, stores and clears.
use swlp.Prelude.{
  ℕ, zero, suc, ◌+◌, ◌≤◌, min, max, ◌≡◌, refl, sym, ap, ◌∙◌, Option, none, some, List, [], ◌∷◌, map,
  arith, ltb, Bool-cases, inl, inr, length, length-set, take, get_elem?, set,
}
use swlp.PrefixCache.Tensors.{Layers}
use swlp.PrefixCache.{
  PrefixEntry, PrefixKvCache, new_cache, sum_bytes, search_loop, at_least, counted, lookup, store,
  clear,
}
use swlp.PrefixCache.Bounded.{IsBounded, store-IsBounded}
use swlp.PrefixCache.Longest.{Found, search_loop-Found}
use swlp.PrefixCache.Lossless.{
  Sound, get_elem?-Sound, store-Sound, HitIsLossless, lookup-HitIsLossless,
}

-- A call, with the clock where the method reads it. A store is given the tokens and how many of them
-- the tensors cover.
pub data Call : Type 0 where
  look : ℕ → List ℕ → ℕ → Option ℕ → Call
  keep : ℕ → List ℕ → ℕ → Call
  wipe : Call

module _ (ly : Layers) (computed : List ℕ → List ly.Kv) where
  open ly use {Kv, seq_len, prefix}

  pub step : PrefixKvCache ly → Call → PrefixKvCache ly
  step c (look now tokens min_length max_length) = (lookup ly c now tokens min_length max_length).1
  step c (keep now tokens m) =
      store ly c now tokens (computed (take (min m (length tokens)) tokens))
  step c wipe = clear ly c

  pub run : PrefixKvCache ly → List Call → PrefixKvCache ly
  run c [] = c
  run c (call ∷ calls) = run (step c call) calls

  set-bytes :
      (es : List (PrefixEntry ly)) (i : ℕ) (e f : PrefixEntry ly)
      → get_elem? es i ≡ some e
      → f.bytes ≡ e.bytes
      → sum_bytes ly (set es i f) ≡ sum_bytes ly es
  set-bytes [] i e f at same = refl
  set-bytes (g ∷ gs) zero e f at same =
      let bytes : g.bytes ≡ e.bytes =
        ap (λ (o : Option (PrefixEntry ly)). elim o [ none ↦ 0 | some x ↦ x.bytes ]) at in
      omega (arith, bytes, same)
  set-bytes (g ∷ gs) (suc i) e f at same = ap (λ n. g.bytes + n) (set-bytes gs i e f at same)

  set-Sound :
      (es : List (PrefixEntry ly)) (i : ℕ) (f : PrefixEntry ly)
      → Sound ly computed es
      → f.layer_kv ≡ computed f.ids
      → Sound ly computed (set es i f)
  set-Sound [] i f h here = h
  set-Sound (g ∷ gs) zero f h here = (here, h.1)
  set-Sound (g ∷ gs) (suc i) f h here = (h.0, set-Sound gs i f h.1 here)

  pub record IsGood (c : PrefixKvCache ly) : Type 0 where
    pub bounded : IsBounded ly c
    pub sound : Sound ly computed c.entries

  lookup-IsGood :
      (c : PrefixKvCache ly) (now : ℕ) (tokens : List ℕ) (min_length : ℕ) (max_length : Option ℕ)
      → IsGood c
      → IsGood (lookup ly c now tokens min_length max_length).1
  unfolding lookup
  lookup-IsGood c now tokens min_length max_length h =
      from (search_loop ly tokens max_length none 0 c.entries)
        (search_loop-Found ly tokens max_length [] c.entries none (λ j e at. ground arith))
    where
      missed : IsGood (record c { misses = c.misses + 1 })
      missed = record {
        bounded = record { exact = h.bounded.exact; few = h.bounded.few; small = h.bounded.small };
        sound = h.sound;
      }

      from :
          (o : Option (ℕ × PrefixEntry ly))
          → Found ly tokens max_length c.entries o
          → IsGood (counted ly c now (at_least ly min_length o)).1
      from none found = missed
      from (some (i, best)) found = elim (Bool-cases (ltb (length best.ids) (max 1 min_length))) [
        | inl short ↦ rw short missed
        | inr enough ↦
            let renewed : PrefixEntry ly = record best { created = now } in
            let sum = set-bytes c.entries i best renewed found.stored refl in
            rw enough (record {
              bounded = record {
                exact = h.bounded.exact ∙ sym sum;
                few = omega (arith, length-set c.entries i renewed, h.bounded.few);
                small = h.bounded.small;
              };
              sound =
                  set-Sound c.entries i renewed h.sound
                    (get_elem?-Sound ly computed c.entries i best h.sound found.stored);
            })
      ]

  module _
      (restrict : (n : ℕ) (tokens : List ℕ)
        → n ≤ length tokens
        → map (prefix n) (computed tokens) ≡ computed (take n tokens))
      (covers : (tokens : List ℕ) (i : ℕ) (kv : Kv)
        → get_elem? (computed tokens) i ≡ some kv
        → seq_len kv ≡ length tokens) where
    step-IsGood : (c : PrefixKvCache ly) (call : Call) → IsGood c → IsGood (step c call)
    unfolding step clear
    step-IsGood c (look now tokens min_length max_length) h =
        lookup-IsGood c now tokens min_length max_length h
    step-IsGood c (keep now tokens m) h = record {
      bounded = store-IsBounded ly c now tokens _ h.bounded;
      sound =
          store-Sound ly computed restrict covers c now tokens (min m (length tokens)) (omega arith)
            h.sound;
    }
    step-IsGood c wipe h = record {
      bounded = record { exact = refl; few = omega arith; small = omega arith };
      sound = omega arith;
    }

    run-IsGood : (c : PrefixKvCache ly) (calls : List Call) → IsGood c → IsGood (run c calls)
    unfolding run
    run-IsGood c [] h = h
    run-IsGood c (call ∷ calls) h = run-IsGood (step c call) calls (step-IsGood c call h)

    -- Let the prefill be causal, with layers that cover all tokens, and let every store be given what
    -- the prefill computed for the tokens it covers. After any history of calls from a new cache,
    -- the cache is within both bounds with an exact byte counter, and the tensors that a lookup
    -- returns are those that the prefill computes for that prefix of the given tokens.
    pub run-IsGood-lossless :
        (max_entries snapshot_every max_bytes : ℕ) (calls : List Call) (now : ℕ) (tokens : List ℕ)
        (min_length : ℕ) (max_length : Option ℕ)
        → let c = run (new_cache ly max_entries snapshot_every max_bytes) calls in
          IsBounded ly c
          × HitIsLossless ly computed tokens (lookup ly c now tokens min_length max_length).0
    unfolding new_cache
    run-IsGood-lossless max_entries snapshot_every max_bytes calls now tokens min_length
          max_length =
        let start : IsGood (new_cache ly max_entries snapshot_every max_bytes) = record {
          bounded = record { exact = refl; few = omega arith; small = omega arith };
          sound = omega arith;
        } in
        let c = run (new_cache ly max_entries snapshot_every max_bytes) calls in
        let good = run-IsGood (new_cache ly max_entries snapshot_every max_bytes) calls start in
        (
          good.bounded,
          lookup-HitIsLossless ly computed c now tokens min_length max_length good.sound,
        )
