-- ===== src/ExpertScheduler/Served.antt =====
-- The slot that `ensure` of src/swlp/runner/expert_scheduler.py returns for a loaded expert.
use swlp.Prelude.{
  ℕ, ◌+◌, ◌≤◌, ◌<◌, ◌≡◌, ◌≢◌, refl, sym, ap, subst, ◌∙◌, ◌⊎◌, true, ◌&&◌, Option, none, some, List,
  [], ◌∷◌, Result, ok, err, ◌==◌, put, put_self, put-all, if-all, ==_iff, arith, ==_false,
}
use swlp.Experts.{SwlpCachedExperts, get, free_slots, fill, evict, evict_lru_local}
use swlp.Experts.Slotted.{IsSlotted, LiesIn, Filled, fill-Filled}
use swlp.Experts.Evicting.{Evicted, evict-Evicted, evict_lru_local-Evicted}
use swlp.ExpertScheduler.{
  EnsureError, read_error, ExpertScheduler, slot_or_zero, is_there, touch, least_recent,
  evict_chosen, evict_least_recent, room_made, put_in, fill_in, place,
}
use swlp.ExpertScheduler.Staged.{OwnWeights, GoodModule, IsGood, same-IsGood}

module _ {V : Type 0} (zeros : V) (load : ℕ → ℕ → ℕ → Option V) (own : ℕ → ℕ → V) where
  -- What an eviction in a full layer leaves for an expert that is not in a slot.
  record RoomFor (s : ExpertScheduler V) (layer eid : ℕ) : Type 0 where
    pub with_room : SwlpCachedExperts V
    pub is_module : s.modules layer ≡ some with_room
    pub room : 0 < free_slots zeros with_room
    pub absent : get eid with_room.slot_of ≡ none
    pub good : IsGood zeros load own s

  least_recent-there :
      (layer : ℕ) (m : SwlpCachedExperts V) (ks : List (ℕ × ℕ)) (eid : ℕ)
      → least_recent zeros load layer m ks ≡ some eid
      → is_there (get eid m.slot_of) ≡ true
  least_recent-there layer m [] eid e = absurd (ground arith)
  least_recent-there layer m ((lay, k) ∷ ks) eid e =
      if-all (λ o. o ≡ some eid → is_there (get eid m.slot_of) ≡ true)
        (lay == layer && is_there (get k m.slot_of)) (some k) (least_recent zeros load layer m ks)
        (λ found e.
          let there : is_there (get k m.slot_of) ≡ true = ground arith in
          let same : k ≡ eid = ground arith in
          subst (λ j. is_there (get j m.slot_of) ≡ true) same there)
        (λ other e. least_recent-there layer m ks eid e) e

  is_there-some : (o : Option ℕ) → is_there o ≡ true → (slot : ℕ) × (o ≡ some slot)
  is_there-some none e = absurd (ground arith)
  is_there-some (some slot) e = (slot, refl)

  evict-RoomFor :
      (s : ExpertScheduler V) (layer eid : ℕ) (m m' : SwlpCachedExperts V) (s' : ExpertScheduler V)
      → s'.modules ≡ put s.modules layer (some m')
      → s'.staging ≡ s.staging
      → Evicted zeros (own layer) m m'
      → 0 < m.capacity
      → get eid m.slot_of ≡ none
      → IsGood zeros load own s
      → RoomFor s' layer eid
  evict-RoomFor s layer eid m m' s' mods stag ev pos absent h = record {
    with_room = m';
    is_module = ap (λ f. f layer) mods ∙ put_self s.modules layer (some m');
    room = ev.has_room;
    absent = ev.no_new eid absent;
    good = record {
      good_modules = λ l.
          subst (λ f. GoodModule zeros load own l (f l)) (sym mods)
            (put-all (GoodModule zeros load own) s.modules layer (some m')
              (ev.still_slotted, subst (λ c. 0 < c) (sym ev.capacity_kept) pos) h.good_modules l);
      good_staging =
          λ l e. subst (λ f. OwnWeights zeros load own l e (f l e)) (sym stag) (h.good_staging l e);
    };
  }

  chosen-RoomFor :
      (s : ExpertScheduler V) (layer eid : ℕ) (m : SwlpCachedExperts V) (o : Option ℕ)
      → least_recent zeros load layer m s.lru ≡ o
      → free_slots zeros m ≡ 0
      → 0 < m.capacity
      → IsSlotted zeros (own layer) m
      → get eid m.slot_of ≡ none
      → IsGood zeros load own s
      → RoomFor (evict_chosen zeros load s layer m o) layer eid
  chosen-RoomFor s layer eid m none e full pos slotted absent h =
      evict-RoomFor s layer eid m (evict_lru_local zeros m) _ refl refl
        (evict_lru_local-Evicted zeros (own layer) m full pos slotted) pos absent h
  chosen-RoomFor s layer eid m (some old) e full pos slotted absent h =
      let (slot, there) =
        is_there-some (get old m.slot_of) (least_recent-there layer m s.lru old e) in
      evict-RoomFor s layer eid m (evict zeros m old) _ refl refl
        (evict-Evicted zeros (own layer) m old slot there slotted) pos absent h

  evict_least_recent-RoomFor :
      (s : ExpertScheduler V) (layer eid : ℕ) (m : SwlpCachedExperts V)
      → free_slots zeros m ≡ 0
      → 0 < m.capacity
      → IsSlotted zeros (own layer) m
      → get eid m.slot_of ≡ none
      → IsGood zeros load own s
      → RoomFor (evict_least_recent zeros load s layer m) layer eid
  unfolding evict_least_recent
  evict_least_recent-RoomFor s layer eid m full pos slotted absent h =
      chosen-RoomFor s layer eid m (least_recent zeros load layer m s.lru) refl full pos slotted
        absent h

  room_made-RoomFor :
      (s : ExpertScheduler V) (layer eid : ℕ) (m : SwlpCachedExperts V)
      → s.modules layer ≡ some m
      → get eid m.slot_of ≡ none
      → IsGood zeros load own s
      → RoomFor (room_made zeros load s layer m) layer eid
  room_made-RoomFor s layer eid m there absent h =
      let (slotted, pos) = subst (GoodModule zeros load own layer) there (h.good_modules layer) in
      if-all (λ s'. RoomFor s' layer eid) (free_slots zeros m == 0)
        (evict_least_recent zeros load s layer m) s
        (λ full.
          evict_least_recent-RoomFor s layer eid m ((==_iff (free_slots zeros m) 0).0 full) pos
            slotted absent h)
        (λ roomy. record {
          with_room = m;
          is_module = there;
          room =
              let n : free_slots zeros m ≢ 0 = ==_false (free_slots zeros m) 0 roomy in
              ground arith;
          absent = absent;
          good = h;
        })

  -- The answer is a slot of the layer that holds the expert with its weights.
  pub record Served (layer eid : ℕ) (r : Result EnsureError ℕ × ExpertScheduler V) : Type 0 where
    pub slot : ℕ
    pub layer_slots : SwlpCachedExperts V
    pub returned : r.0 ≡ ok slot
    pub is_module : r.1.modules layer ≡ some layer_slots
    pub named : get eid layer_slots.slot_of ≡ some slot
    pub lies : LiesIn zeros (own layer) layer_slots eid slot
    pub good : IsGood zeros load own r.1

  -- The read with the number `t` of this expert, made after the first `before` reads, has raised, and
  -- it is the last one.
  pub record ReadFailed (before layer eid : ℕ) (r : Result EnsureError ℕ × ExpertScheduler V)
      : Type 0 where
    pub t : ℕ
    pub later : before ≤ t
    pub raised : load t layer eid ≡ none
    pub last_read : r.1.attempts ≡ t + 1
    pub ended : r.0 ≡ err read_error
    pub still_good : IsGood zeros load own r.1

  abbrev pub Answers : ℕ → ℕ → ℕ → Result EnsureError ℕ × ExpertScheduler V → Type 0
  Answers before layer eid r = Served layer eid r ⊎ ReadFailed before layer eid r

  pub touch-Served :
      (s : ExpertScheduler V) (layer eid slot : ℕ) (m : SwlpCachedExperts V)
      → s.modules layer ≡ some m
      → get eid m.slot_of ≡ some slot
      → LiesIn zeros (own layer) m eid slot
      → IsGood zeros load own s
      → (answer : Result EnsureError ℕ) → answer ≡ ok slot
      → Served layer eid (answer, touch zeros load s layer eid)
  unfolding touch
  touch-Served s layer eid slot m there named lies h answer e = record {
    slot = slot;
    layer_slots = m;
    returned = e;
    is_module = there;
    named = named;
    lies = lies;
    good = same-IsGood zeros load own s _ refl refl h;
  }

  put_in-Served :
      (s : ExpertScheduler V) (layer eid : ℕ) (m m' : SwlpCachedExperts V)
      → 0 < m.capacity
      → Filled zeros (own layer) m m' eid
      → IsGood zeros load own s
      → Served layer eid (put_in zeros load s layer eid (ok m'))
  put_in-Served s layer eid m m' pos full h =
      let s1 = record s { modules = put s.modules layer (some m') } in
      let good1 : IsGood zeros load own s1 = record {
        good_modules =
            put-all (GoodModule zeros load own) s.modules layer (some m')
              (full.slotted, subst (λ c. 0 < c) (sym full.same_capacity) pos) h.good_modules;
        good_staging = h.good_staging;
      } in
      touch-Served s1 layer eid full.slot m' (put_self s.modules layer (some m')) full.named
        full.lies good1 (ok (slot_or_zero (get eid m'.slot_of)))
        (ap (λ o. ok (slot_or_zero o)) full.named)

  pub place-Served :
      (s : ExpertScheduler V) (layer eid : ℕ) (m : SwlpCachedExperts V) (v : V)
      → v ≡ own layer eid
      → s.modules layer ≡ some m
      → get eid m.slot_of ≡ none
      → IsGood zeros load own s
      → Served layer eid (place zeros load s layer m eid v)
  place-Served s layer eid m v mine there absent h =
      let r = room_made-RoomFor s layer eid m there absent h in
      let s1 = room_made zeros load s layer m in
      let (slotted, pos) =
        subst (GoodModule zeros load own layer) r.is_module (r.good.good_modules layer) in
      let (m', done, full) =
        fill-Filled zeros (own layer) r.with_room eid r.room r.absent slotted in
      subst (Served layer eid)
        (sym (
          ap (fill_in zeros load s1 layer eid v) r.is_module
          ∙ ap (λ w. put_in zeros load s1 layer eid (fill zeros r.with_room eid w)) mine
          ∙ ap (put_in zeros load s1 layer eid) done))
        (put_in-Served s1 layer eid r.with_room m' pos full r.good)
