-- ===== src/ExpertScheduler/Ensured.antt =====
-- `ensure` of src/swlp/runner/expert_scheduler.py: hits, waits for a read in flight, reads and errors.
use swlp.Prelude.{
  ℕ, ◌+◌, ◌*◌, ◌≤◌, ◌<◌, max, ◌≡◌, refl, sym, ap, subst, ◌∙◌, inl, inr, Bool, true, false, Option,
  none, some, List, [], ◌∷◌, ◌++◌, ok, err, if-all, arith, ltb, length, length-append, put,
  put_self, if◌then◌else◌,
}
use swlp.Experts.{SwlpCachedExperts, get}
use swlp.ExpertScheduler.{
  read_error, ExpertScheduler, put_key, trimmed, stage, read_done, worker, loaded, staged,
  take_staged, missed, ensure_slot, ensure_module, ensure,
}
use swlp.ExpertScheduler.Staged.{
  OwnWeights, GoodModule, IsGood, put_key-all, same-IsGood, worker-IsGood,
}
use swlp.ExpertScheduler.Served.{Answers, touch-Served, place-Served}

module _ {V : Type 0} (zeros : V) (load : ℕ → ℕ → ℕ → Option V) (own : ℕ → ℕ → V)
    (loads_own : (t layer eid : ℕ) → OwnWeights zeros load own layer eid (load t layer eid)) where
  read_done_modules :
      (s : ExpertScheduler V) (layer eid : ℕ) (o : Option V)
      → (read_done zeros load s layer eid o).modules ≡ s.modules
  unfolding stage
  read_done_modules s layer eid none = refl
  read_done_modules s layer eid (some v) = refl

  worker_modules :
      (s : ExpertScheduler V) (layer eid : ℕ) → (worker zeros load s layer eid).modules ≡ s.modules
  unfolding worker
  worker_modules s layer eid =
      if-all (λ s'. s'.modules ≡ s.modules) (s.inflight layer eid) _ s
        (λ t.
          read_done_modules (record s { attempts = s.attempts + 1 }) layer eid
            (load s.attempts layer eid))
        (λ f. refl)

  read_done_attempts :
      (s : ExpertScheduler V) (layer eid : ℕ) (o : Option V)
      → (read_done zeros load s layer eid o).attempts ≡ s.attempts
  unfolding stage
  read_done_attempts s layer eid none = refl
  read_done_attempts s layer eid (some v) = refl

  worker_attempts :
      (s : ExpertScheduler V) (layer eid : ℕ)
      → s.attempts ≤ (worker zeros load s layer eid).attempts
  unfolding worker
  worker_attempts s layer eid =
      if-all (λ s'. s.attempts ≤ s'.attempts) (s.inflight layer eid) _ s
        (λ t.
          let same =
            read_done_attempts (record s { attempts = s.attempts + 1 }) layer eid
              (load s.attempts layer eid) in
          omega arith)
        (λ f. omega arith)

  -- `s` is the state before the read.
  loaded-Answers :
      (before : ℕ) (s : ExpertScheduler V) (layer eid : ℕ) (m : SwlpCachedExperts V) (o : Option V)
      → before ≤ s.attempts
      → load s.attempts layer eid ≡ o
      → OwnWeights zeros load own layer eid o
      → s.modules layer ≡ some m
      → get eid m.slot_of ≡ none
      → IsGood zeros load own s
      → Answers zeros load own before layer eid
          (loaded zeros load (record s { attempts = s.attempts + 1 }) layer m eid o)
  loaded-Answers before s layer eid m none le e mine there absent h = inr (record {
    t = s.attempts;
    later = le;
    raised = e;
    last_read = refl;
    ended = refl;
    still_good = same-IsGood zeros load own s _ refl refl h;
  })
  loaded-Answers before s layer eid m (some v) le e mine there absent h = inl (
      place-Served zeros load own (record s { attempts = s.attempts + 1 }) layer eid m v mine there
        absent (same-IsGood zeros load own s _ refl refl h))

  staged-Answers :
      (before : ℕ) (s : ExpertScheduler V) (layer eid : ℕ) (m : SwlpCachedExperts V) (o : Option V)
      → before ≤ s.attempts
      → OwnWeights zeros load own layer eid o
      → s.modules layer ≡ some m
      → get eid m.slot_of ≡ none
      → IsGood zeros load own s
      → Answers zeros load own before layer eid (staged zeros load s layer m eid o)
  staged-Answers before s layer eid m none le mine there absent h =
      loaded-Answers before s layer eid m (load s.attempts layer eid) le refl
        (loads_own s.attempts layer eid) there absent h
  staged-Answers before s layer eid m (some v) le mine there absent h =
      let s1 = record s { prefetch_hits = s.prefetch_hits + 1 } in
      inl (
        place-Served zeros load own s1 layer eid m v mine there absent
          (same-IsGood zeros load own s s1 refl refl h))

  take_staged-Answers :
      (before : ℕ) (s : ExpertScheduler V) (layer eid : ℕ) (m : SwlpCachedExperts V)
      → before ≤ s.attempts
      → s.modules layer ≡ some m
      → get eid m.slot_of ≡ none
      → IsGood zeros load own s
      → Answers zeros load own before layer eid (take_staged zeros load s layer m eid)
  take_staged-Answers before s layer eid m le there absent h =
      staged-Answers before (record s { staging = put_key s.staging layer eid none }) layer eid m
        (s.staging layer eid) le (h.good_staging layer eid) there absent
        (record {
          good_modules = h.good_modules;
          good_staging = put_key-all zeros load own s.staging layer eid none tt h.good_staging;
        })

  missed-Answers :
      (before : ℕ) (s : ExpertScheduler V) (layer eid : ℕ) (m : SwlpCachedExperts V)
      (in_time going : Bool)
      → before ≤ s.attempts
      → s.modules layer ≡ some m
      → get eid m.slot_of ≡ none
      → IsGood zeros load own s
      → Answers zeros load own before layer eid (missed zeros load s layer m eid in_time going)
  missed-Answers before s layer eid m true true le there absent h =
      take_staged-Answers before (worker zeros load s layer eid) layer eid m
        (let more = worker_attempts s layer eid in omega arith)
        (ap (λ f. f layer) (worker_modules s layer eid) ∙ there) absent
        (worker-IsGood zeros load own loads_own s layer eid h)
  missed-Answers before s layer eid m false true le there absent h =
      take_staged-Answers before s layer eid m le there absent h
  missed-Answers before s layer eid m in_time false le there absent h =
      staged-Answers before s layer eid m none le tt there absent h

  ensure_slot-Answers :
      (s : ExpertScheduler V) (layer eid : ℕ) (m : SwlpCachedExperts V) (in_time : Bool)
      (o : Option ℕ)
      → get eid m.slot_of ≡ o
      → s.modules layer ≡ some m
      → IsGood zeros load own s
      → Answers zeros load own s.attempts layer eid (ensure_slot zeros load s layer m eid in_time o)
  ensure_slot-Answers s layer eid m in_time none absent there h =
      let s1 = record s { misses = s.misses + 1 } in
      missed-Answers s.attempts s1 layer eid m in_time (s.inflight layer eid) (omega arith) there
        absent (same-IsGood zeros load own s s1 refl refl h)
  ensure_slot-Answers s layer eid m in_time (some slot) named there h =
      let (slotted, pos) = subst (GoodModule zeros load own layer) there (h.good_modules layer) in
      let s1 = record s { hits = s.hits + 1 } in
      inl (
        touch-Served zeros load own s1 layer eid slot m there named (slotted.held eid slot named)
          (same-IsGood zeros load own s s1 refl refl h) (ok slot) refl)

  -- When all slots and staged reads hold the weights of their experts, and every read that succeeds
  -- gives those, `ensure` of an expert of a registered layer returns a slot of that layer that holds
  -- this expert with its weights, or ends in the error of a read: the last one of the expert, which this
  -- call has made, has raised. It keeps the slots and the staged
  -- reads right in both cases, whether the expert was in a slot, in flight or neither, whether a free
  -- slot is there or another expert is evicted, and whether the wait for a read ends in time or not.
  pub ensure-Answers :
      (s : ExpertScheduler V) (layer eid : ℕ) (m : SwlpCachedExperts V) (in_time : Bool)
      → s.modules layer ≡ some m
      → IsGood zeros load own s
      → Answers zeros load own s.attempts layer eid (ensure zeros load s layer eid in_time)
  unfolding ensure
  ensure-Answers s layer eid m in_time there h =
      subst
        (λ o.
          Answers zeros load own s.attempts layer eid
            (ensure_module zeros load s layer eid in_time o))
        (sym there) (ensure_slot-Answers s layer eid m in_time (get eid m.slot_of) refl there h)

trimmed_short :
    {V : Type 0} (zeros : V) (load : ℕ → ℕ → ℕ → Option V) (limit : ℕ) (order : List (ℕ × ℕ))
    (staging : ℕ → ℕ → Option V)
    → length order ≤ limit
    → trimmed zeros load limit order staging ≡ (order, staging)
trimmed_short zeros load limit [] staging le = refl
trimmed_short zeros load limit ((lay, eid) ∷ ks) staging le =
    if-all (λ r. r ≡ ((lay, eid) ∷ ks, staging)) (ltb limit (length ((lay, eid) ∷ ks)))
      (trimmed zeros load limit ks (put_key staging lay eid none)) ((lay, eid) ∷ ks, staging)
      (λ more. absurd (ground arith)) (λ fits. refl)

-- A prefetched expert that is in no slot, and whose read succeeds while the staging area has room, is
-- staged with its weights when the pool has finished. When `ensure` is called after that, it reads the
-- expert a second time; if this read raises, `ensure` raises, and the weights are still staged.
pub ensure-worker :
    {V : Type 0} (zeros : V) (load : ℕ → ℕ → ℕ → Option V) (s : ExpertScheduler V) (layer eid : ℕ)
    (m : SwlpCachedExperts V) (v : V) (in_time : Bool)
    → s.modules layer ≡ some m
    → get eid m.slot_of ≡ none
    → s.inflight layer eid ≡ true
    → length s.staging_order < 2 * max 1 s.workers
    → load s.attempts layer eid ≡ some v
    → load (s.attempts + 1) layer eid ≡ none
    → let s1 = worker zeros load s layer eid in
      let r = ensure zeros load s1 layer eid in_time in
      (s1.staging layer eid ≡ some v) × (r.0 ≡ err read_error) × (r.1.staging layer eid ≡ some v)
unfolding ensure worker stage
ensure-worker zeros load s layer eid m v in_time there absent going room reads fails =
    let order = s.staging_order ++ (layer, eid) ∷ [] in
    let staging1 = put_key s.staging layer eid (some v) in
    let kept =
      trimmed_short zeros load (2 * max 1 s.workers) order staging1
        (let e = length-append s.staging_order ((layer, eid) ∷ []) in omega arith) in
    let s1 = record s {
      attempts = s.attempts + 1;
      staging_order = order;
      staging = staging1;
      inflight = put_key s.inflight layer eid false;
    } in
    let worked : worker zeros load s layer eid ≡ s1 =
      ap
        (λ b.
          if b
          then read_done zeros load (record s { attempts = s.attempts + 1 }) layer eid
              (load s.attempts layer eid)
          else s)
        going
      ∙ ap (read_done zeros load (record s { attempts = s.attempts + 1 }) layer eid) reads
      ∙ ap
          (λ k. record s {
            attempts = s.attempts + 1;
            staging_order = k.0;
            staging = k.1;
            inflight = put_key s.inflight layer eid false;
          })
          kept in
    let here : staging1 layer eid ≡ some v =
      ap (λ f. f eid) (put_self s.staging layer (put (s.staging layer) eid (some v)))
      ∙ put_self (s.staging layer) eid (some v) in
    let idle : s1.inflight layer eid ≡ false =
      ap (λ f. f eid) (put_self s.inflight layer (put (s.inflight layer) eid false))
      ∙ put_self (s.inflight layer) eid false in
    let s2 = record s1 { misses = s.misses + 1 } in
    let same : ensure zeros load s1 layer eid in_time
        ≡ (err read_error, record s2 { attempts = s1.attempts + 1 }) =
      ap (ensure_module zeros load s1 layer eid in_time) there
      ∙ ap (ensure_slot zeros load s1 layer m eid in_time) absent
      ∙ ap (missed zeros load s2 layer m eid in_time) idle
      ∙ ap (loaded zeros load (record s2 { attempts = s1.attempts + 1 }) layer m eid) fails in
    (
      ap (λ w. w.staging layer eid) worked ∙ here,
      ap (λ w. (ensure zeros load w layer eid in_time).0) worked ∙ ap (λ r. r.0) same,
      ap (λ w. (ensure zeros load w layer eid in_time).1.staging layer eid) worked
          ∙ ap (λ r. r.1.staging layer eid) same
          ∙ here,
    )
