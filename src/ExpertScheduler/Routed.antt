-- ===== src/ExpertScheduler/Routed.antt =====
-- The prediction of src/swlp/runner/expert_scheduler.py: which experts are with_predicted after a layer was
-- routed, and before a layer is called.
use swlp.Prelude.{
  ℕ, ◌+◌, ◌*◌, min, max, refl, Bool, true, false, not, ◌||◌, Option, none, some, List, [], ◌∷◌,
  if◌then◌else◌, if-all, length,
}
use swlp.Experts.{SwlpCachedExperts, get}
use swlp.Routing.{RoutingHistory, predict, record_ids}
use swlp.ExpertScheduler.{ExpertScheduler, is_there, put_key, prefetch_when, prefetch, prepare_set}
use swlp.ExpertScheduler.Staged.{IsGood, same-IsGood}

pub data Mode : Type 0 where
  off lru predictive : Mode

abbrev pub is_off : Mode → Bool
is_off off = true
is_off lru = false
is_off predictive = false

abbrev pub is_predictive : Mode → Bool
is_predictive off = false
is_predictive lru = false
is_predictive predictive = true

-- The scheduler with its mode and its routing history.
pub record Routed (V : Type 0) : Type 0 where
  pub scheduler : ExpertScheduler V
  pub mode : Mode
  pub history : RoutingHistory

unfoldable pub admit : ℕ → ℕ → ℕ
admit workers candidates = max 1 (min (max 1 candidates) (2 * max 1 workers))

module _ {V : Type 0} (zeros : V) (load : ℕ → ℕ → ℕ → Option V) where
  abbrev pub with_predicted : Routed V → ℕ → ℕ → Routed V
  with_predicted r layer candidates = record r {
    scheduler =
        prepare_set zeros load r.scheduler layer
          (predict r.history layer (admit r.scheduler.workers candidates));
  }

  -- The first lines of `record_routing`; the prefetches of the next layer follow.
  unfoldable pub record_routing : Routed V → ℕ → List ℕ → Routed V
  record_routing r layer ids =
      let r1 = record r { history = record_ids r.history layer ids } in
      if is_off r.mode
      then r
      else if not (is_predictive r.mode) || not (is_there (r.scheduler.modules (layer + 1)))
      then r1
      else with_predicted r1 (layer + 1) (length ids)

  unfoldable pub prepare_layer : Routed V → ℕ → Routed V
  prepare_layer r layer =
      if not (is_predictive r.mode) || not (is_there (r.scheduler.modules layer))
      then r
      else with_predicted r layer 1

  module _ (own : ℕ → ℕ → V) where
    prefetch_when-IsGood :
        (s : ExpertScheduler V) (layer eid : ℕ) (o : Option (SwlpCachedExperts V))
        → IsGood zeros load own s
        → IsGood zeros load own (prefetch_when zeros load s layer eid o)
    prefetch_when-IsGood s layer eid none h = h
    prefetch_when-IsGood s layer eid (some m) h =
        let started = record s { inflight = put_key s.inflight layer eid true } in
        if-all (IsGood zeros load own)
          (is_there (get eid m.slot_of) || is_there (s.staging layer eid) || s.inflight layer eid) s
          (if s.pool_open then started else s) (λ known. h)
          (λ new.
            if-all (IsGood zeros load own) s.pool_open started s
              (λ t. same-IsGood zeros load own s started refl refl h) (λ f. h))

    prepare_set-IsGood :
        (s : ExpertScheduler V) (layer : ℕ) (eids : List ℕ)
        → IsGood zeros load own s
        → IsGood zeros load own (prepare_set zeros load s layer eids)
    unfolding prepare_set prefetch
    prepare_set-IsGood s layer [] h = h
    prepare_set-IsGood s layer (eid ∷ eids) h =
        prepare_set-IsGood (prefetch zeros load s layer eid) layer eids
          (prefetch_when-IsGood s layer eid (s.modules layer) h)

    -- The predictions keep all slots and staged reads right.
    record_routing-IsGood :
        (r : Routed V) (layer : ℕ) (ids : List ℕ)
        → IsGood zeros load own r.scheduler
        → IsGood zeros load own (record_routing r layer ids).scheduler
    unfolding record_routing
    record_routing-IsGood r layer ids h =
        if-all (λ (q : Routed V). IsGood zeros load own q.scheduler) (is_off r.mode) r _ (λ t. h)
          (λ on.
            if-all (λ (q : Routed V). IsGood zeros load own q.scheduler)
              (not (is_predictive r.mode) || not (is_there (r.scheduler.modules (layer + 1)))) _ _
              (λ t. h) (λ f. prepare_set-IsGood r.scheduler (layer + 1) _ h))

    prepare_layer-IsGood :
        (r : Routed V) (layer : ℕ)
        → IsGood zeros load own r.scheduler
        → IsGood zeros load own (prepare_layer r layer).scheduler
    unfolding prepare_layer
    prepare_layer-IsGood r layer h =
        if-all (λ (q : Routed V). IsGood zeros load own q.scheduler)
          (not (is_predictive r.mode) || not (is_there (r.scheduler.modules layer))) r _ (λ t. h)
          (λ f. prepare_set-IsGood r.scheduler layer _ h)
