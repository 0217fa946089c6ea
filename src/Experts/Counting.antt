-- ===== src/Experts/Counting.antt =====
-- The taken slots of src/swlp/runner/experts.py, counted, and the search for a free slot.
use swlp.Prelude.{
  ℕ, zero, suc, ◌+◌, ◌≤◌, ◌<◌, ◌≡◌, refl, ap, ◌∙◌, ◌⊎◌, inl, inr, Option, none, some, put,
  put-cases, arith, Option-cases,
}
use swlp.Experts.{free_here, next_free_slot}

-- How many of the first `n` slots are taken.
abbrev pub one_if : Option ℕ → ℕ
one_if none = 0
one_if (some eid) = 1

abbrev pub taken : ℕ → (ℕ → Option ℕ) → ℕ
taken zero f = 0
taken (suc n) f = one_if (f n) + taken n f

taken_ge : (n i : ℕ) (f : ℕ → Option ℕ) (o : Option ℕ) → n ≤ i → taken n (put f i o) ≡ taken n f
taken_ge zero i f o le = refl
taken_ge (suc n) i f o le = elim (put-cases f i o n) [
  | inl (same, e) ↦ absurd (omega arith)
  | inr (differ, e) ↦
      ap (λ x. one_if x + taken n (put f i o)) e
      ∙ ap (λ k. one_if (f n) + k) (taken_ge n i f o (omega arith))
]

-- A write of one slot trades what it held for what it holds.
pub taken-put :
    (n i : ℕ) (f : ℕ → Option ℕ) (o : Option ℕ)
    → i < n
    → taken n (put f i o) + one_if (f i) ≡ taken n f + one_if o
taken-put zero i f o lt = absurd (omega arith)
taken-put (suc n) i f o lt = elim (put-cases f i o n) [
  | inl (same, e) ↦
      let rest : taken n (put f i o) ≡ taken n f = taken_ge n i f o (omega arith) in
      let now : one_if (put f i o n) ≡ one_if o = ap one_if e in
      let was : one_if (f n) ≡ one_if (f i) = ap (λ k. one_if (f k)) same in omega arith
  | inr (differ, e) ↦
      let below : i < n = ground arith in
      let rest : taken n (put f i o) + one_if (f i) ≡ taken n f + one_if o =
        taken-put n i f o below in
      let now : one_if (put f i o n) ≡ one_if (f n) = ap one_if e in omega arith
]

-- The search finds a free slot exactly when one of the slots that it looks at is free.
free_here-cases :
    (slot : ℕ) (o rest : Option ℕ)
    → ((o ≡ none) × (free_here slot o rest ≡ some slot))
      ⊎ ((eid : ℕ) × (o ≡ some eid) × (free_here slot o rest ≡ rest))
free_here-cases slot none rest = inl (refl, refl)
free_here-cases slot (some eid) rest = inr (eid, refl, refl)

abbrev pub FreeBelow : ℕ → (ℕ → Option ℕ) → Option ℕ → Type 0
FreeBelow n f o = (slot : ℕ) × (o ≡ some slot) × (slot < n) × (f slot ≡ none)

-- The slots from `slot` on that are taken.
abbrev pub taken_from : ℕ → ℕ → (ℕ → Option ℕ) → ℕ
taken_from zero slot f = 0
taken_from (suc rounds) slot f = one_if (f slot) + taken_from rounds (slot + 1) f

pub next_free_slot-FreeBelow :
    (rounds slot : ℕ) (f : ℕ → Option ℕ)
    → taken_from rounds slot f < rounds
    → FreeBelow (slot + rounds) f (next_free_slot rounds slot f)
unfolding next_free_slot
next_free_slot-FreeBelow zero slot f lt = absurd (omega arith)
next_free_slot-FreeBelow (suc rounds) slot f lt =
    elim (free_here-cases slot (f slot) (next_free_slot rounds (slot + 1) f)) [
      | inl (free, e) ↦ (slot, e, omega arith, free)
      | inr (eid, full, e) ↦
          let one : one_if (f slot) ≡ 1 = ap one_if full in
          let (found, same, below, free) =
            next_free_slot-FreeBelow rounds (slot + 1) f (omega arith) in
          (found, e ∙ same, omega arith, free)
    ]

taken_from_end :
    (rounds slot : ℕ) (f : ℕ → Option ℕ)
    → taken_from (suc rounds) slot f ≡ taken_from rounds slot f + one_if (f (slot + rounds))
taken_from_end zero slot f =
    let last : one_if (f (slot + 0)) ≡ one_if (f slot) = ap (λ k. one_if (f k)) (omega arith) in
    omega arith
taken_from_end (suc rounds) slot f =
    let last : one_if (f (slot + 1 + rounds)) ≡ one_if (f (slot + suc rounds)) =
      ap (λ k. one_if (f k)) (omega arith) in
    let rest = taken_from_end rounds (slot + 1) f in omega arith

pub taken_from_zero : (n : ℕ) (f : ℕ → Option ℕ) → taken_from n 0 f ≡ taken n f
taken_from_zero zero f = refl
taken_from_zero (suc n) f =
    let last : one_if (f (0 + n)) ≡ one_if (f n) = ap (λ k. one_if (f k)) (omega arith) in
    let rest = taken_from_zero n f in let all = taken_from_end n 0 f in omega arith

pub taken_le : (n : ℕ) (f : ℕ → Option ℕ) → taken n f ≤ n
taken_le zero f = omega arith
taken_le (suc n) f =
    let rest = taken_le n f in
    elim (Option-cases (f n)) [
      | inl free ↦ let zero_here : one_if (f n) ≡ 0 = ap one_if free in omega arith
      | inr (eid, full) ↦ let one_here : one_if (f n) ≡ 1 = ap one_if full in omega arith
    ]
