-- ===== src/Tests/ExpertSlots.antt =====
-- Slots of one layer and their scheduler on concrete experts.
use swlp.Prelude.{
  ℕ, ◌+◌, ◌*◌, ◌<◌, ◌≡◌, refl, arith, true, Option, none, some, [], ◌∷◌, err, ◌==◌, if◌then◌else◌,
  if-all, put, put-all, subst, sym,
}
use swlp.Experts.{SwlpCachedExperts, get, free_slots}
use swlp.Experts.Slotted.{IsSlotted}
use swlp.ExpertScheduler.{ExpertScheduler, worker, ensure, read_error}
use swlp.ExpertScheduler.Staged.{OwnWeights, GoodModule, IsGood}
use swlp.ExpertScheduler.Served.{Answers}
use swlp.ExpertScheduler.Ensured.{ensure-Answers, ensure-worker}

abbrev weights_of : ℕ → ℕ → ℕ
weights_of layer eid = 1 + 10 * layer + eid

-- Three slots, of which the middle one holds expert 4.
abbrev one_held : SwlpCachedExperts ℕ
one_held = record {
  slot_of = (4, 1) ∷ [];
  id_of = λ i. if i == 1 then some 4 else none;
  slots = λ i. if i == 1 then weights_of 2 4 else 0;
  capacity = 3;
}

one_slot : (eid slot : ℕ) → get eid one_held.slot_of ≡ some slot → (eid ≡ 4) × (slot ≡ 1)
one_slot eid slot e =
    if-all (λ o. o ≡ some slot → (eid ≡ 4) × (slot ≡ 1)) (4 == eid) (some 1) none
      (λ same e'. (ground arith, ground arith)) (λ differ e'. absurd (ground arith)) e

lies_in :
    (eid slot : ℕ)
    → (eid ≡ 4) × (slot ≡ 1)
    → (slot < 3) × (one_held.id_of slot ≡ some eid) × (one_held.slots slot ≡ weights_of 2 eid)
lies_in eid slot (e, s) =
    subst (λ k. (k < 3) × (one_held.id_of k ≡ some eid) × (one_held.slots k ≡ weights_of 2 eid))
      (sym s)
      (subst (λ k. (1 < 3) × (one_held.id_of 1 ≡ some k) × (one_held.slots 1 ≡ weights_of 2 k))
        (sym e) (omega arith, refl, refl))

one_held-IsSlotted : IsSlotted 0 (weights_of 2) one_held
one_held-IsSlotted = record {
  held = λ eid slot e. lies_in eid slot (one_slot eid slot e);
  distinct = (refl, tt);
  counted = refl;
}

free_two : 0 < free_slots 0 one_held
unfolding free_slots
free_two = omega arith

abbrev always : ℕ → ℕ → ℕ → Option ℕ
always t layer eid = some (weights_of layer eid)

abbrev never : ℕ → ℕ → ℕ → Option ℕ
never t layer eid = none

abbrev layers : ℕ → Option (SwlpCachedExperts ℕ)
layers = put (λ l. none) 2 (some one_held)

-- Expert 7 of layer 2 is in flight, expert 8 is staged.
abbrev scheduler : ExpertScheduler ℕ
scheduler = record {
  modules = layers;
  lru = (2, 4) ∷ [];
  staging = λ l e. if l == 2 then (if e == 8 then some (weights_of l e) else none) else none;
  staging_order = (2, 8) ∷ [];
  inflight = λ l e. e == 7;
  pool_open = true;
  workers = 2;
  attempts = 0;
  hits = 0;
  misses = 0;
  prefetch_hits = 0;
  evictions = 0;
}

scheduler-IsGood : (load : ℕ → ℕ → ℕ → Option ℕ) → IsGood 0 load weights_of scheduler
scheduler-IsGood load = record {
  good_modules =
      put-all (GoodModule 0 load weights_of) (λ l. none) 2 (some one_held)
        (one_held-IsSlotted, omega arith) (λ l. tt);
  good_staging = λ l e.
      if-all (OwnWeights 0 load weights_of l e) (l == 2)
        (if e == 8 then some (weights_of l e) else none) none
        (λ same.
          if-all (OwnWeights 0 load weights_of l e) (e == 8) (some (weights_of l e)) none
            (λ t. refl) (λ f. tt))
        (λ differ. tt);
}

ensure-Answers_example : Answers 0 always weights_of 0 2 7 (ensure 0 always scheduler 2 7 true)
ensure-Answers_example =
    ensure-Answers 0 always weights_of (λ t l e. refl) scheduler 2 7 one_held true refl
      (scheduler-IsGood always)

-- The first read of an expert succeeds and no other.
abbrev once : ℕ → ℕ → ℕ → Option ℕ
once t layer eid = if t == 0 then some (weights_of layer eid) else none

ensure-worker_example :
    ((worker 0 once scheduler 2 7).staging 2 7 ≡ some (weights_of 2 7))
    × ((ensure 0 once (worker 0 once scheduler 2 7) 2 7 true).0 ≡ err read_error)
    × ((ensure 0 once (worker 0 once scheduler 2 7) 2 7 true).1.staging 2 7 ≡ some (weights_of 2 7))
ensure-worker_example =
    ensure-worker 0 once scheduler 2 7 one_held (weights_of 2 7) true refl refl refl (omega arith)
      refl refl
