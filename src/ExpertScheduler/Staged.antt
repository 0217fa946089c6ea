-- ===== src/ExpertScheduler/Staged.antt =====
-- What the slots and the staged reads of src/swlp/runner/expert_scheduler.py hold.
use swlp.Prelude.{
  ℕ, ◌+◌, ◌<◌, ◌≡◌, refl, subst, Option, none, some, List, [], ◌∷◌, ◌++◌, ltb, put, put-all, length,
  if-all,
}
use swlp.Experts.{SwlpCachedExperts}
use swlp.Experts.Slotted.{IsSlotted}
use swlp.ExpertScheduler.{ExpertScheduler, put_key, trimmed, stage, read_done, worker}

module _ {V : Type 0} (zeros : V) (load : ℕ → ℕ → ℕ → Option V) (own : ℕ → ℕ → V) where
  abbrev pub OwnWeights : ℕ → ℕ → Option V → Type 0
  OwnWeights layer eid none = Unit
  OwnWeights layer eid (some v) = v ≡ own layer eid

  abbrev pub GoodModule : ℕ → Option (SwlpCachedExperts V) → Type 0
  GoodModule layer none = Unit
  GoodModule layer (some m) = IsSlotted zeros (own layer) m × (0 < m.capacity)

  -- Every slot in use and every staged read holds the weights of its expert.
  pub record IsGood (s : ExpertScheduler V) : Type 0 where
    pub good_modules : (layer : ℕ) → GoodModule layer (s.modules layer)
    pub good_staging : (layer eid : ℕ) → OwnWeights layer eid (s.staging layer eid)

  pub put_key-all :
      (f : ℕ → ℕ → Option V) (layer eid : ℕ) (o : Option V)
      → OwnWeights layer eid o
      → ((l e : ℕ) → OwnWeights l e (f l e))
      → (l e : ℕ) → OwnWeights l e (put_key f layer eid o l e)
  put_key-all f layer eid o new old =
      put-all (λ l g. (e : ℕ) → OwnWeights l e (g e)) f layer (put (f layer) eid o)
        (put-all (OwnWeights layer) (f layer) eid o new (old layer)) old

  trimmed-good :
      (limit : ℕ) (ks : List (ℕ × ℕ)) (f : ℕ → ℕ → Option V)
      → ((l e : ℕ) → OwnWeights l e (f l e))
      → (l e : ℕ) → OwnWeights l e ((trimmed zeros load limit ks f).1 l e)
  trimmed-good limit [] f good = good
  trimmed-good limit ((lay, eid) ∷ ks) f good =
      if-all (λ r. (l e : ℕ) → OwnWeights l e (r.1 l e)) (ltb limit (length ((lay, eid) ∷ ks)))
        (trimmed zeros load limit ks (put_key f lay eid none)) ((lay, eid) ∷ ks, f)
        (λ long.
          trimmed-good limit ks (put_key f lay eid none) (put_key-all f lay eid none tt good))
        (λ short. good)

  stage-IsGood :
      (s : ExpertScheduler V) (layer eid : ℕ) (v : V)
      → v ≡ own layer eid
      → IsGood s
      → IsGood (stage zeros load s layer eid v)
  unfolding stage
  stage-IsGood s layer eid v mine h = record {
    good_modules = h.good_modules;
    good_staging =
        trimmed-good _ (s.staging_order ++ (layer, eid) ∷ []) (put_key s.staging layer eid (some v))
          (put_key-all s.staging layer eid (some v) mine h.good_staging);
  }

  -- Two states with the same modules and the same staged reads.
  pub same-IsGood :
      (s t : ExpertScheduler V)
      → s.modules ≡ t.modules
      → s.staging ≡ t.staging
      → IsGood s
      → IsGood t
  same-IsGood s t m g h = record {
    good_modules = λ l. subst (λ f. GoodModule l (f l)) m (h.good_modules l);
    good_staging = λ l e. subst (λ f. OwnWeights l e (f l e)) g (h.good_staging l e);
  }

  read_done-IsGood :
      (s : ExpertScheduler V) (layer eid : ℕ) (o : Option V)
      → OwnWeights layer eid o
      → IsGood s
      → IsGood (read_done zeros load s layer eid o)
  read_done-IsGood s layer eid none mine h = same-IsGood s _ refl refl h
  read_done-IsGood s layer eid (some v) mine h = stage-IsGood s layer eid v mine h

  module _ (loads_own : (t layer eid : ℕ) → OwnWeights layer eid (load t layer eid)) where
    pub worker-IsGood :
        (s : ExpertScheduler V) (layer eid : ℕ) → IsGood s → IsGood (worker zeros load s layer eid)
    unfolding worker
    worker-IsGood s layer eid h =
        if-all IsGood (s.inflight layer eid) _ s
          (λ t.
            read_done-IsGood (record s { attempts = s.attempts + 1 }) layer eid
              (load s.attempts layer eid) (loads_own s.attempts layer eid)
              (same-IsGood s _ refl refl h))
          (λ f. h)
