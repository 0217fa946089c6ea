-- ===== src/ExpertCache/Absorbed.antt =====
-- `_absorb_finished` of src/swlp/runner/mlx_expert_cache.py: finished reads are cached, and a conversion
-- that raises ends the call.
use swlp.Prelude.{
  ℕ, ◌≡◌, refl, sym, ap, ap₂, subst, Bool, true, false, ◌||◌, ◌&&◌, Option, none, some, List, [],
  ◌∷◌, Result, ok, err, ◌>>=◌, ==_iff,
}
use swlp.ExpertCache.{
  ExpertSource, converted, Key, same_key, ReadError, os_error, conversion_error, is_in, materialize,
  absorb_key, absorb_ready, absorb_loop,
}
use swlp.ExpertCache.Evict.{Cache}
use swlp.ExpertCache.Budget.{IsWithin, Materializes, materialize-Materializes}
use swlp.ExpertCache.Delivery.{In, or_right}

module _ {W : Type 0} (size : W → ℕ) (source : ExpertSource W) where
  -- Why the read of a key raises: itself, or its conversion.
  abbrev pub Fails : ReadError → Key → Type 0
  Fails os_error k = source.result k ≡ none
  Fails conversion_error k =
      (raw : source.Raw) × (source.result k ≡ some raw) × (converted source k raw ≡ none)

  abbrev pub Absorbs : (Key → Type 0) → Result ReadError (Cache size source) → Type 0
  Absorbs P (ok c) = IsWithin size source c
  Absorbs P (err e) = (k : Key) × P k × Fails e k

  absorbed-Absorbs :
      (k : Key) (raw : source.Raw) (r : Result ReadError (W × Cache size source))
      → source.result k ≡ some raw
      → Materializes size source k raw r
      → Absorbs (λ j. j ≡ k) (r >>= λ p. ok p.1)
  absorbed-Absorbs k raw (ok (w, c)) e h = h.0
  absorbed-Absorbs k raw (err x) e (same, failed) =
      (k, refl, subst (λ y. Fails y k) (sym same) (raw, e, failed))

  absorb_key-Absorbs :
      (c : Cache size source) (k : Key) (o : Option source.Raw)
      → source.result k ≡ o
      → IsWithin size source c
      → Absorbs (λ j. j ≡ k) (absorb_key size source c k o)
  absorb_key-Absorbs c k none e h = record {
    kept = record { exact = h.kept.exact; faithful = h.kept.faithful };
    within = h.within;
  }
  absorb_key-Absorbs c k (some raw) e h =
      absorbed-Absorbs k raw (materialize size source c k raw false) e
        (materialize-Materializes size source c k raw false e h)

  absorb_ready-Absorbs :
      (b : Bool) (c : Cache size source) (k : Key)
      → IsWithin size source c
      → Absorbs (λ j. j ≡ k) (absorb_ready size source b c k)
  absorb_ready-Absorbs true c k h = absorb_key-Absorbs c k (source.result k) refl h
  absorb_ready-Absorbs false c k h = h

  pub self_In : (k : Key) (ks : List Key) → In size source (k ∷ ks) k
  self_In k ks =
      ap (λ b. b || is_in size source k ks)
        (let l = (==_iff k.layer k.layer).1 refl in
          let e = (==_iff k.eid k.eid).1 refl in ap₂ ◌&&◌ l e)

  pub absorb_loop-Absorbs :
      (P : Key → Type 0) (ready : Key → Bool) (c : Cache size source) (ks : List Key)
      → ((j : Key) → In size source ks j → P j)
      → IsWithin size source c
      → Absorbs P (absorb_loop size source ready c ks)
  unfolding absorb_loop
  absorb_loop-Absorbs P ready c [] among h = h
  absorb_loop-Absorbs P ready c (k ∷ ks) among h =
      step (absorb_ready size source (ready k) c k) (absorb_ready-Absorbs (ready k) c k h) (λ c' h'.
        absorb_loop-Absorbs P ready c' ks
          (λ j there. among j (or_right (same_key k j) (is_in size source j ks) there)) h')
    where
      step :
          (r : Result ReadError (Cache size source))
          → Absorbs (λ j. j ≡ k) r
          → ((c' : Cache size source)
              → IsWithin size source c'
              → Absorbs P (absorb_loop size source ready c' ks))
          → Absorbs P (r >>= λ c'. absorb_loop size source ready c' ks)
      step (ok c') h' rest = rest c' h'
      step (err e) (j, same, failed) rest = (j, subst P (sym same) (among k (self_In k ks)), failed)
