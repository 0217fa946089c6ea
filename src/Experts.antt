-- ===== src/Experts.antt =====
-- `SwlpCachedExperts` of src/swlp/runner/experts.py: the slots of one layer. `slot_of` is the
-- dictionary `_slot_of` in insertion order; `V` are the two tensors of an expert. The forward pass is
-- left out. Slotted has what the slots hold.
pub mod Dictionary
pub mod Counting
pub mod Slotted
pub mod Evicting
use swlp.Prelude.{
  ℕ, zero, suc, ◌+◌, ◌-◌, max, Option, none, some, List, [], ◌∷◌, Result, ok, err, ◌==◌,
  if◌then◌else◌, put, length, Bool, true, false,
}

pub data SlotError : Type 0 where
  no_free_slot : SlotError

pub record SwlpCachedExperts (V : Type 0) : Type 0 where
  pub slot_of : List (ℕ × ℕ)
  pub id_of : ℕ → Option ℕ
  pub slots : ℕ → V
  pub capacity : ℕ

-- Dictionaries with their insertion order.
module _ {A : Type 0} where
  abbrev pub get : ℕ → List (ℕ × A) → Option A
  get key [] = none
  get key ((k, v) ∷ es) = if k == key then some v else get key es

  abbrev pub assign : ℕ → A → List (ℕ × A) → List (ℕ × A)
  assign key a [] = (key, a) ∷ []
  assign key a ((k, v) ∷ es) = if k == key then (k, a) ∷ es else (k, v) ∷ assign key a es

  abbrev pub pop : ℕ → List (ℕ × A) → List (ℕ × A)
  pop key [] = []
  pop key ((k, v) ∷ es) = if k == key then es else (k, v) ∷ pop key es

-- `for slot, eid in enumerate(self._id_of)`, from `slot` on.
abbrev pub free_here : ℕ → Option ℕ → Option ℕ → Option ℕ
free_here slot none rest = some slot
free_here slot (some eid) rest = rest

unfoldable pub next_free_slot : ℕ → ℕ → (ℕ → Option ℕ) → Option ℕ
next_free_slot zero slot id_of = none
next_free_slot (suc rounds) slot id_of =
    free_here slot (id_of slot) (next_free_slot rounds (slot + 1) id_of)

module _ {V : Type 0} (zeros : V) where
  unfoldable pub new_experts : ℕ → SwlpCachedExperts V
  new_experts slots = record {
    slot_of = [];
    id_of = λ i. none;
    slots = λ i. zeros;
    capacity = max 1 slots;
  }

  unfoldable pub free_slots : SwlpCachedExperts V → ℕ
  free_slots m = m.capacity - length m.slot_of

  abbrev pub filled :
      SwlpCachedExperts V → ℕ → V → Option ℕ → Result SlotError (SwlpCachedExperts V)
  filled m eid v none = err no_free_slot
  filled m eid v (some slot) = ok (record m {
    slots = put m.slots slot v;
    slot_of = assign eid slot m.slot_of;
    id_of = put m.id_of slot (some eid);
  })

  unfoldable pub fill : SwlpCachedExperts V → ℕ → V → Result SlotError (SwlpCachedExperts V)
  fill m eid v = filled m eid v (next_free_slot m.capacity 0 m.id_of)

  abbrev pub freed : SwlpCachedExperts V → ℕ → Option ℕ → SwlpCachedExperts V
  freed m eid none = m
  freed m eid (some slot) = record m {
    slot_of = pop eid m.slot_of;
    id_of = put m.id_of slot none;
    slots = put m.slots slot zeros;
  }

  unfoldable pub evict : SwlpCachedExperts V → ℕ → SwlpCachedExperts V
  evict m eid = freed m eid (get eid m.slot_of)

  abbrev pub evict_first : SwlpCachedExperts V → List (ℕ × ℕ) → SwlpCachedExperts V
  evict_first m [] = m
  evict_first m ((eid, slot) ∷ es) = evict m eid

  unfoldable pub evict_lru_local : SwlpCachedExperts V → SwlpCachedExperts V
  evict_lru_local m = evict_first m m.slot_of

  unfoldable pub reset_slots : SwlpCachedExperts V → SwlpCachedExperts V
  reset_slots m = record m { slot_of = []; id_of = λ i. none }
