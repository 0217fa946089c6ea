-- ===== src/ExpertCache/Requests.antt =====
-- The public calls of src/swlp/runner/mlx_expert_cache.py, `get_many` and `prefetch`, over any history.
use swlp.Prelude.{
  ℕ, ◌+◌, ◌≡◌, refl, sym, ap, subst, ◌∙◌, ◌⊎◌, Bool, true, false, ◌||◌, Option, none, some, List,
  [], ◌∷◌, ◌++◌, Result, ok, err, ◌>>=◌, arith, Bool-cases, inl, inr,
}
use swlp.ExpertCache.{
  ExpertSource, own_read, converted_from, Key, same_key, ReadError, os_error, conversion_error,
  find, is_in, materialize, absorb_loop, absorb_finished, request, request_loop, awaited,
  await_loop, get_many,
}
use swlp.ExpertCache.Evict.{Cache, Faithful}
use swlp.ExpertCache.Budget.{
  IsWithin, touch-IsWithin, append_cached, find-Faithful, Materializes, materialize-Materializes,
}
use swlp.ExpertCache.Absorbed.{Fails, Absorbs, self_In, absorb_loop-Absorbs}
use swlp.ExpertCache.Delivery.{
  requested, Has, In, or_right, append-Has, request_loop-Held, request_loop-In,
}

module _ {W : Type 0} (size : W → ℕ) (source : ExpertSource W) where
  -- A state of the first loop of `get_many`.
  abbrev Serving : Cache size source × List Key × List (Key × W) → Type 0
  Serving (c, pending, out) = IsWithin size source c × Faithful size source out

  request-Serving :
      (c : Cache size source) (k : Key) (pending : List Key) (out : List (Key × W)) (o : Option W)
      → find size source k c.cache ≡ o
      → IsWithin size source c
      → Faithful size source out
      → Serving (request size source c k pending out o)
  request-Serving c k pending out (some w) at h f =
      let touched = touch-IsWithin size source c k h in
      (
        record {
          kept = record { exact = touched.kept.exact; faithful = touched.kept.faithful };
          within = touched.within;
        },
        (append_cached size source out k w
            (find-Faithful size source k c.cache w h.kept.faithful at) f).0,
      )
  request-Serving c k pending out none at h f = elim (Bool-cases (is_in size source k c.inflight)) [
    | inl flying ↦ rw flying (counted, f)
    | inr missing ↦ rw missing (submitted, f)
  ]
    where
      counted : IsWithin size source (record c { prefetch_hits = c.prefetch_hits + 1 })
      counted = record {
        kept = record { exact = h.kept.exact; faithful = h.kept.faithful };
        within = h.within;
      }

      submitted :
          IsWithin size source (record c { misses = c.misses + 1; inflight = c.inflight ++ k ∷ [] })
      submitted = record {
        kept = record { exact = h.kept.exact; faithful = h.kept.faithful };
        within = h.within;
      }

  request_loop-Serving :
      (layer : ℕ) (c : Cache size source) (eids : List ℕ) (pending : List Key)
      (out : List (Key × W))
      → IsWithin size source c
      → Faithful size source out
      → Serving (request_loop size source layer c eids pending out)
  unfolding request_loop
  request_loop-Serving layer c [] pending out h f = (h, f)
  request_loop-Serving layer c (eid ∷ eids) pending out h f =
      let k : Key = record { layer = layer; eid = eid } in
      let r = request size source c k pending out (find size source k c.cache) in
      let s = request-Serving c k pending out (find size source k c.cache) refl h f in
      request_loop-Serving layer r.0 eids r.1 r.2 s.0 s.1

  -- What the second loop makes of the keys `ks` and of what is given out already.
  abbrev Awaits :
      (Key → Type 0)
      → List Key
      → List (Key × W)
      → Result ReadError (List (Key × W) × Cache size source)
      → Type 0
  Awaits P ks out (ok (out', c)) =
      Faithful size source out'
      × IsWithin size source c
      × ((j : Key) → Has size source out j ⊎ In size source ks j → Has size source out' j)
  Awaits P ks out (err e) = (k : Key) × P k × Fails size source e k

  await_loop-Awaits :
      (P : Key → Type 0) (c : Cache size source) (ks : List Key) (out : List (Key × W))
      → ((j : Key) → In size source ks j → P j)
      → IsWithin size source c
      → Faithful size source out
      → Awaits P ks out (await_loop size source c ks out)
  unfolding await_loop
  await_loop-Awaits P c [] out among h f =
      (f, h, λ j held. elim held [ inl old ↦ old | inr new ↦ absurd (ground arith) ])
  await_loop-Awaits P c (k ∷ ks) out among h f = start (source.result k) refl (λ c' w within own.
      await_loop-Awaits P c' ks (out ++ (k, w) ∷ [])
        (λ j there. among j (or_right (same_key k j) (is_in size source j ks) there)) within
        (append_cached size source out k w own f).0)
    where
      Rest : Type 0
      Rest =
          (c' : Cache size source) (w : W)
          → IsWithin size source c'
          → own_read source k ≡ some w
          → Awaits P ks (out ++ (k, w) ∷ []) (await_loop size source c' ks (out ++ (k, w) ∷ []))

      next_Awaits :
          (w : W) (r : Result ReadError (List (Key × W) × Cache size source))
          → Awaits P ks (out ++ (k, w) ∷ []) r
          → Awaits P (k ∷ ks) out r
      next_Awaits w (err e) fails = fails
      next_Awaits w (ok (out', c')) (f', h', all) = (
        f',
        h',
        λ j held. elim held [
          | inl old ↦ all j (inl (append-Has size source out k w j (inl old)))
          | inr new ↦ elim (Bool-cases (same_key k j)) [
            | inl here ↦ all j (inl (append-Has size source out k w j (inr here)))
            | inr there ↦ all j (inr (sym (ap (λ b. b || is_in size source j ks) there) ∙ new))
          ]
        ],
      )

      step :
          (raw : source.Raw) (r : Result ReadError (W × Cache size source))
          → source.result k ≡ some raw
          → Materializes size source k raw r
          → Rest
          → Awaits P (k ∷ ks) out (r >>= λ p. await_loop size source p.1 ks (out ++ (k, p.0) ∷ []))
      step raw (ok (w, c')) e (within, own) rest =
          next_Awaits w (await_loop size source c' ks (out ++ (k, w) ∷ [])) (rest c' w within own)
      step raw (err x) e (same, failed) rest = (
        k,
        among k (self_In size source k ks),
        subst (λ y. Fails size source y k) (sym same) (raw, e, failed),
      )

      start :
          (o : Option source.Raw)
          → source.result k ≡ o
          → Rest
          → Awaits P (k ∷ ks) out (
              awaited size source c k o >>= λ p.
              await_loop size source p.1 ks (out ++ (k, p.0) ∷ []))
      start none e rest = (k, among k (self_In size source k ks), e)
      start (some raw) e rest =
          step raw (materialize size source c k raw true) e
            (materialize-Materializes size source c k raw true e h) rest

  -- The answer of `get_many` to the keys `asked` over the keys `flying`, which are being read: all that
  -- is asked for, each expert as its read gives it, and a cache that is within its budget, exact
  -- and faithful; or the error of one of these keys.
  abbrev pub Serves :
      List Key → List Key → Result ReadError (List (Key × W) × Cache size source) → Type 0
  Serves asked flying (ok (out, c)) =
      Faithful size source out
      × IsWithin size source c
      × ((j : Key) → In size source asked j → Has size source out j)
  Serves asked flying (err e) =
      (k : Key) × (In size source asked k ⊎ In size source flying k) × Fails size source e k

  requested-Serves :
      (c : Cache size source) (layer : ℕ) (eids : List ℕ) (flying : List Key)
      → IsWithin size source c
      → let r = request_loop size source layer c eids [] [] in
        Serves (requested layer eids) flying (await_loop size source r.0 r.1 r.2)
  requested-Serves c layer eids flying h =
      let asked = requested layer eids in
      let r = request_loop size source layer c eids [] [] in
      let s = request_loop-Serving layer c eids [] [] h (omega arith) in
      from (await_loop size source r.0 r.1 r.2) (
        await_loop-Awaits (In size source asked) r.0 r.1 r.2
          (request_loop-In size source (In size source asked) layer c eids [] [] (λ j i. i)
            (λ j i. absurd (ground arith)))
          s.0 s.1)
    where
      from :
          (o : Result ReadError (List (Key × W) × Cache size source))
          → Awaits
              (In size source (requested layer eids))
              (request_loop size source layer c eids [] []).1
              (request_loop size source layer c eids [] []).2
              o
          → Serves (requested layer eids) flying o
      from (ok (out, c')) (f, h', all) =
          (f, h', λ j asked. all j (request_loop-Held size source layer c eids [] [] j (inr asked)))
      from (err e) (k, asked, failed) = (k, inl asked, failed)

  pub get_many-Serves :
      (ready : Key → Bool) (c : Cache size source) (layer : ℕ) (eids : List ℕ)
      → IsWithin size source c
      → Serves (requested layer eids) c.inflight (get_many size source ready c layer eids)
  unfolding get_many absorb_finished
  get_many-Serves ready c layer eids h =
      step (absorb_loop size source ready c c.inflight) (
        absorb_loop-Absorbs size source (In size source c.inflight) ready c c.inflight (λ j i. i) h)
    where
      step :
          (r : Result ReadError (Cache size source))
          → Absorbs size source (In size source c.inflight) r
          → Serves (requested layer eids) c.inflight (
              r >>= λ c1.
              let q = request_loop size source layer c1 eids [] [] in
              await_loop size source q.0 q.1 q.2)
      step (ok c1) h1 = requested-Serves c1 layer eids c.inflight h1
      step (err e) (k, flying, failed) = (k, inr flying, failed)

  never_Fails :
      (e : ReadError) (k : Key)
      → (w : W) × (own_read source k ≡ some w)
      → Fails size source e k
      → true ≡ false
  never_Fails os_error k (w, own) failed =
      absurd (
        let clash : none ≡ some w = sym (ap (converted_from source k) failed) ∙ own in ground arith)
  never_Fails conversion_error k (w, own) (raw, read, failed) = absurd (
      let clash : none ≡ some w = sym (ap (converted_from source k) read ∙ failed) ∙ own in
      ground arith)

  -- If every read gives an expert and every conversion of one does, then from a cache within its budget
  -- `get_many` returns: it gives out every expert that it is asked for, each as its read gives it,
  -- converted and quantised if `quant` is set, and leaves the cache within its budget with an exact
  -- byte counter.
  pub get_many-delivers :
      (ready : Key → Bool) (c : Cache size source) (layer : ℕ) (eids : List ℕ)
      → ((k : Key) → (w : W) × (own_read source k ≡ some w))
      → IsWithin size source c
      → (out : List (Key × W)) × (c' : Cache size source) × (get_many size source ready c layer eids
          ≡ ok (out, c'))
        × (Faithful size source out × IsWithin size source c')
        × ((j : Key) → In size source (requested layer eids) j → Has size source out j)
  get_many-delivers ready c layer eids reads h =
      from (get_many size source ready c layer eids) refl (get_many-Serves ready c layer eids h)
    where
      from :
          (r : Result ReadError (List (Key × W) × Cache size source))
          → get_many size source ready c layer eids ≡ r
          → Serves (requested layer eids) c.inflight r
          → (out : List (Key × W)) × (c' : Cache size source) × (get_many size source ready c layer
                eids
              ≡ ok (out, c'))
            × (Faithful size source out × IsWithin size source c')
            × ((j : Key) → In size source (requested layer eids) j → Has size source out j)
      from (ok (out, c')) e (f, within, all) = (out, c', e, (f, within), all)
      from (err x) e (k, which, failed) =
          absurd (let clash = never_Fails x k (reads k) failed in ground arith)
