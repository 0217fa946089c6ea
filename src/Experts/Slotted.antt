-- ===== src/Experts/Slotted.antt =====
-- What the slots of src/swlp/runner/experts.py hold, and the fill of a slot.
use swlp.Prelude.{
  ℕ, zero, suc, ◌<◌, max, ◌≡◌, ◌≢◌, refl, sym, ap, subst, ◌∙◌, inl, inr, none, some, ok, ◌==◌, put,
  put_self, put_ne, length, Bool-cases, ==_iff, ==_false, arith,
}
use swlp.Experts.{SwlpCachedExperts, get, assign, new_experts, free_slots, filled, fill}
use swlp.Experts.Dictionary.{
  Distinct, get-assign_self, get-assign_ne, length-assign, Distinct-assign,
}
use swlp.Experts.Counting.{
  one_if, taken, taken-put, taken_from, next_free_slot-FreeBelow, taken_from_zero,
}

module _ {V : Type 0} (zeros : V) (own : ℕ → V) where
  -- Every expert that the dictionary names lies in its own slot with its own weights, and there are as
  -- many names as taken slots.
  pub record IsSlotted (m : SwlpCachedExperts V) : Type 0 where
    pub held :
        (eid slot : ℕ)
        → get eid m.slot_of ≡ some slot
        → (slot < m.capacity) × (m.id_of slot ≡ some eid) × (m.slots slot ≡ own eid)
    pub distinct : Distinct m.slot_of
    pub counted : taken m.capacity m.id_of ≡ length m.slot_of

  taken_free : (n : ℕ) → taken n (λ i. none) ≡ 0
  taken_free zero = refl
  taken_free (suc n) = let rest = taken_free n in omega arith

  pub new_experts-IsSlotted : (slots : ℕ) → IsSlotted (new_experts zeros slots)
  unfolding new_experts
  new_experts-IsSlotted slots = record {
    held = λ eid slot e. absurd (ground arith);
    distinct = tt;
    counted = taken_free (max 1 slots);
  }

  abbrev stored : SwlpCachedExperts V → ℕ → ℕ → SwlpCachedExperts V
  stored m eid slot = record m {
    slots = put m.slots slot (own eid);
    slot_of = assign eid slot m.slot_of;
    id_of = put m.id_of slot (some eid);
  }

  -- Expert `eid` lies in slot `slot` of `m`.
  abbrev pub LiesIn : SwlpCachedExperts V → ℕ → ℕ → Type 0
  LiesIn m eid slot = (slot < m.capacity) × (m.id_of slot ≡ some eid) × (m.slots slot ≡ own eid)

  stored-held :
      (m : SwlpCachedExperts V) (eid slot : ℕ)
      → slot < m.capacity
      → m.id_of slot ≡ none
      → IsSlotted m
      → (e s : ℕ) → get e (assign eid slot m.slot_of) ≡ some s
      → LiesIn (stored m eid slot) e s
  stored-held m eid slot lt free h e s found = elim (Bool-cases (e == eid)) [
    | inl named ↦
        let same : e ≡ eid = (==_iff e eid).0 named in
        let here : get e (assign eid slot m.slot_of) ≡ some slot =
          ap (λ k. get k (assign eid slot m.slot_of)) same ∙ get-assign_self eid slot m.slot_of in
        let at : slot ≡ s = ground arith in
        subst (LiesIn (stored m eid slot) e) at (
          lt,
          put_self m.id_of slot (some eid) ∙ ap some (sym same),
          put_self m.slots slot (own eid) ∙ ap own (sym same),
        )
    | inr differ ↦
        let (below, named, right) =
          h.held e s (sym (get-assign_ne eid slot m.slot_of e (==_false e eid differ)) ∙ found) in
        let apart : s ≢ slot = λ same.
          (let clash : none ≡ some e = sym free ∙ ap m.id_of (sym same) ∙ named in
            absurd (ground arith)) in
        (
          below,
          put_ne m.id_of slot (some eid) s apart ∙ named,
          put_ne m.slots slot (own eid) s apart ∙ right,
        )
  ]

  stored-IsSlotted :
      (m : SwlpCachedExperts V) (eid slot : ℕ)
      → slot < m.capacity
      → m.id_of slot ≡ none
      → get eid m.slot_of ≡ none
      → IsSlotted m
      → IsSlotted (stored m eid slot)
  stored-IsSlotted m eid slot lt free new h = record {
    held = stored-held m eid slot lt free h;
    distinct = Distinct-assign eid slot m.slot_of new h.distinct;
    counted =
        let traded = taken-put m.capacity slot m.id_of (some eid) lt in
        let was : one_if (m.id_of slot) ≡ 0 = ap one_if free in
        let longer = length-assign eid slot m.slot_of new in let before = h.counted in omega arith;
  }

  pub record Filled (m m' : SwlpCachedExperts V) (eid : ℕ) : Type 0 where
    pub slot : ℕ
    pub named : get eid m'.slot_of ≡ some slot
    pub lies : LiesIn m' eid slot
    pub slotted : IsSlotted m'
    pub same_capacity : m'.capacity ≡ m.capacity
    pub others_stay : (e : ℕ) → e ≢ eid → get e m'.slot_of ≡ get e m.slot_of

  -- While the layer has a free slot and does not hold the expert, a fill ends without error: the expert
  -- lies in a slot with its weights, the other experts stay where they are, and all slots still hold
  -- what the dictionary names.
  pub fill-Filled :
      (m : SwlpCachedExperts V) (eid : ℕ)
      → 0 < free_slots zeros m
      → get eid m.slot_of ≡ none
      → IsSlotted m
      → (m' : SwlpCachedExperts V) × (fill zeros m eid (own eid) ≡ ok m') × Filled m m' eid
  unfolding fill free_slots
  fill-Filled m eid room new h =
      let few : taken_from m.capacity 0 m.id_of < m.capacity =
        (let all = taken_from_zero m.capacity m.id_of in let n = h.counted in omega arith) in
      let (slot, found, below, free) = next_free_slot-FreeBelow m.capacity 0 m.id_of few in
      let lt : slot < m.capacity = omega arith in
      let good = stored-IsSlotted m eid slot lt free new h in
      let named = get-assign_self eid slot m.slot_of in
      (
        stored m eid slot,
        ap (filled zeros m eid (own eid)) found,
        record {
          slot = slot;
          named = named;
          lies = good.held eid slot named;
          slotted = good;
          same_capacity = refl;
          others_stay = get-assign_ne eid slot m.slot_of;
        },
      )
