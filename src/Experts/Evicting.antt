-- ===== src/Experts/Evicting.antt =====
-- Evictions from the slots of src/swlp/runner/experts.py.
use swlp.Prelude.{
  ℕ, ◌-◌, ◌<◌, ◌≡◌, ◌≢◌, refl, sym, ap, subst, ◌∙◌, inl, inr, Option, none, some, List, [], ◌∷◌,
  ◌==◌, put_ne, length, Bool-cases, ==_iff, ==_false, arith,
}
use swlp.Experts.{
  SwlpCachedExperts, get, pop, free_slots, freed, evict, evict_first, evict_lru_local,
}
use swlp.Experts.Dictionary.{get-pop_ne, get-pop_self, length-pop, Distinct-pop, get-head}
use swlp.Experts.Counting.{one_if, taken-put, taken_le}
use swlp.Experts.Slotted.{IsSlotted, LiesIn}

module _ {V : Type 0} (zeros : V) (own : ℕ → V) where
  freed-held :
      (m : SwlpCachedExperts V) (eid slot : ℕ)
      → get eid m.slot_of ≡ some slot
      → IsSlotted zeros own m
      → (e s : ℕ) → get e (pop eid m.slot_of) ≡ some s
      → LiesIn zeros own (freed zeros m eid (some slot)) e s
  freed-held m eid slot there h e s found = elim (Bool-cases (e == eid)) [
    | inl named ↦
        let gone =
          ap (λ k. get k (pop eid m.slot_of)) ((==_iff e eid).0 named)
          ∙ get-pop_self eid m.slot_of h.distinct in
        absurd (ground arith)
    | inr differ ↦
        let other = ==_false e eid differ in
        let (below, named, right) = h.held e s (sym (get-pop_ne eid m.slot_of e other) ∙ found) in
        let (below', named', right') = h.held eid slot there in
        let apart : s ≢ slot = λ same.
          (let clash : some e ≡ some eid = sym named ∙ ap m.id_of same ∙ named' in
            absurd (other (let e1 : e ≡ eid = ground arith in e1))) in
        (below, put_ne m.id_of slot none s apart ∙ named, put_ne m.slots slot zeros s apart ∙ right)
  ]

  freed-IsSlotted :
      (m : SwlpCachedExperts V) (eid : ℕ) (o : Option ℕ)
      → get eid m.slot_of ≡ o
      → IsSlotted zeros own m
      → IsSlotted zeros own (freed zeros m eid o)
  freed-IsSlotted m eid none there h = h
  freed-IsSlotted m eid (some slot) there h = record {
    held = freed-held m eid slot there h;
    distinct = Distinct-pop eid m.slot_of h.distinct;
    counted =
        let (below, named, right) = h.held eid slot there in
        let traded = taken-put m.capacity slot m.id_of none below in
        let was : one_if (m.id_of slot) ≡ 1 = ap one_if named in
        let shorter = length-pop eid m.slot_of slot there in let before = h.counted in omega arith;
  }

  pub evict-IsSlotted :
      (m : SwlpCachedExperts V) (eid : ℕ)
      → IsSlotted zeros own m
      → IsSlotted zeros own (evict zeros m eid)
  unfolding evict
  evict-IsSlotted m eid h = freed-IsSlotted m eid (get eid m.slot_of) refl h

  pub evict-room :
      (m : SwlpCachedExperts V) (eid slot : ℕ)
      → get eid m.slot_of ≡ some slot
      → IsSlotted zeros own m
      → 0 < free_slots zeros (evict zeros m eid)
  unfolding evict free_slots
  evict-room m eid slot there h =
      subst (λ o. 0 < (freed zeros m eid o).capacity - length (freed zeros m eid o).slot_of)
        (sym there)
        (let shorter = length-pop eid m.slot_of slot there in
          let n = h.counted in let le = taken_le m.capacity m.id_of in omega arith)

  freed-absent :
      (m : SwlpCachedExperts V) (eid e : ℕ) (o : Option ℕ)
      → IsSlotted zeros own m
      → get e m.slot_of ≡ none
      → get e (freed zeros m eid o).slot_of ≡ none
  freed-absent m eid e none h absent = absent
  freed-absent m eid e (some slot) h absent = elim (Bool-cases (e == eid)) [
    | inl named ↦
        ap (λ k. get k (pop eid m.slot_of)) ((==_iff e eid).0 named)
        ∙ get-pop_self eid m.slot_of h.distinct
    | inr differ ↦ get-pop_ne eid m.slot_of e (==_false e eid differ) ∙ absent
  ]

  freed_capacity :
      (m : SwlpCachedExperts V) (eid : ℕ) (o : Option ℕ)
      → (freed zeros m eid o).capacity ≡ m.capacity
  freed_capacity m eid none = refl
  freed_capacity m eid (some slot) = refl

  -- What an eviction keeps, and that it makes room.
  pub record Evicted (m m' : SwlpCachedExperts V) : Type 0 where
    pub still_slotted : IsSlotted zeros own m'
    pub has_room : 0 < free_slots zeros m'
    pub no_new : (e : ℕ) → get e m.slot_of ≡ none → get e m'.slot_of ≡ none
    pub capacity_kept : m'.capacity ≡ m.capacity

  pub evict-Evicted :
      (m : SwlpCachedExperts V) (eid slot : ℕ)
      → get eid m.slot_of ≡ some slot
      → IsSlotted zeros own m
      → Evicted m (evict zeros m eid)
  unfolding evict
  evict-Evicted m eid slot there h = record {
    still_slotted = freed-IsSlotted m eid (get eid m.slot_of) refl h;
    has_room = evict-room m eid slot there h;
    no_new = λ e absent. freed-absent m eid e (get eid m.slot_of) h absent;
    capacity_kept = freed_capacity m eid (get eid m.slot_of);
  }

  evict_first-Evicted :
      (m : SwlpCachedExperts V) (es : List (ℕ × ℕ))
      → m.slot_of ≡ es
      → 0 < length es
      → IsSlotted zeros own m
      → Evicted m (evict_first zeros m es)
  evict_first-Evicted m [] same some_key h = absurd (omega arith)
  evict_first-Evicted m ((eid, slot) ∷ es) same some_key h =
      evict-Evicted m eid slot (ap (get eid) same ∙ get-head eid eid slot es refl) h

  pub evict_lru_local-Evicted :
      (m : SwlpCachedExperts V)
      → free_slots zeros m ≡ 0
      → 0 < m.capacity
      → IsSlotted zeros own m
      → Evicted m (evict_lru_local zeros m)
  unfolding evict_lru_local free_slots
  evict_lru_local-Evicted m full pos h =
      evict_first-Evicted m m.slot_of refl
        (let n = h.counted in let le = taken_le m.capacity m.id_of in omega arith) h
