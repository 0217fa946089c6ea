-- ===== src/Speculative/Verify.antt =====
-- `verify_greedy` of src/swlp/core/speculative.py keeps exactly the target's picks up to and
-- including the first that differs from the draft.
use swlp.Prelude.{
  ℕ, zero, suc, ◌+◌, ◌≤◌, ◌<◌, ◌≡◌, ◌≢◌, refl, ap, ◌∙◌, inl, inr, List, [], ◌∷◌, ◌++◌, append_assoc,
  ok, arith, ◌==◌, if◌then◌else◌, Bool-cases, length, get_or, take, drop, length-take, ==_iff,
}
use swlp.Speculative.{verify_loop, verify_greedy}

-- How many leading draft tokens the target agrees with.
unfoldable pub agree : List ℕ → List ℕ → ℕ
agree [] ps = 0
agree (d ∷ ds) [] = 0
agree (d ∷ ds) (p ∷ ps) = if p == d then suc (agree ds ps) else 0

drop_uncons :
    (i : ℕ) (xs : List ℕ) {p : ℕ} {ps : List ℕ}
    → drop i xs ≡ p ∷ ps
    → (get_or xs i 0 ≡ p) × (drop (i + 1) xs ≡ ps)
drop_uncons zero [] h = ground arith
drop_uncons zero (x ∷ xs) h = ground arith
drop_uncons (suc i) [] h = ground arith
drop_uncons (suc i) (x ∷ xs) h =
    let e : suc i + 1 ≡ suc (i + 1) = omega arith in
    let (a, b) = drop_uncons i xs h in (a, ap (λ j. drop j (x ∷ xs)) e ∙ b)

verify_loop_lem :
    (picks new : List ℕ) (i : ℕ) (draft rest : List ℕ)
    → drop i picks ≡ rest
    → length rest ≡ length draft + 1
    → verify_loop picks new i draft
      ≡ (new ++ take (suc (agree draft rest)) rest, i + agree draft rest)
unfolding verify_loop agree
verify_loop_lem picks new i draft [] e h = absurd (omega arith)
verify_loop_lem picks new i [] (p ∷ ps) e h =
    let (a, b) = drop_uncons i picks e in rw a (ground arith)
verify_loop_lem picks new i (d ∷ ds) (p ∷ ps) e h = elim (Bool-cases (p == d)) [
  | inl same ↦
      let (a, b) = drop_uncons i picks e in
      let ih = verify_loop_lem picks (new ++ d ∷ []) (i + 1) ds ps b (omega arith) in
      rw (a, same) (ih ∙ ground (arith, append_assoc new (d ∷ []) (take (suc (agree ds ps)) ps)))
  | inr other ↦ let (a, b) = drop_uncons i picks e in rw (a, other) (ground arith)
]

-- The length test is the only way to fail.
pub verify_greedy-agree :
    (draft picks : List ℕ)
    → length picks ≡ length draft + 1
    → verify_greedy draft picks ≡ ok (take (suc (agree draft picks)) picks, agree draft picks)
unfolding verify_greedy
verify_greedy-agree draft picks h =
    rw ((==_iff _ _).1 h) (ap ok (verify_loop_lem picks [] 0 draft picks refl h ∙ ground arith))

pub agree-le : (draft picks : List ℕ) → agree draft picks ≤ length draft
unfolding agree
agree-le [] ps = omega arith
agree-le (d ∷ ds) [] = omega arith
agree-le (d ∷ ds) (p ∷ ps) = ground (arith, agree-le ds ps)

take-agree :
    (draft picks : List ℕ) → take (agree draft picks) draft ≡ take (agree draft picks) picks
unfolding agree
take-agree [] ps = refl
take-agree (d ∷ ds) [] = refl
take-agree (d ∷ ds) (p ∷ ps) = ground (arith, take-agree ds ps)

agree_stops :
    (draft picks : List ℕ)
    → length picks ≡ length draft + 1
    → agree draft picks < length draft
    → get_or picks (agree draft picks) 0 ≢ get_or draft (agree draft picks) 0
unfolding agree
agree_stops [] ps h lt = absurd (omega arith)
agree_stops (d ∷ ds) [] h lt = absurd (omega arith)
agree_stops (d ∷ ds) (p ∷ ps) h lt = elim (Bool-cases (p == d)) [
  | inl same ↦ rw same (agree_stops ds ps (omega arith) (ground arith))
  | inr other ↦ rw other (ground arith)
]

-- What the verifier promises of the tokens it keeps.
pub record IsVerified (draft picks new : List ℕ) (n : ℕ) : Type 0 where
  pub in_draft : n ≤ length draft
  pub target_only : new ≡ take (n + 1) picks
  pub emitted : length new ≡ n + 1
  pub accepted : take n draft ≡ take n picks
  pub maximal : n < length draft → get_or picks n 0 ≢ get_or draft n 0

-- With one pick more than drafts, the verifier returns; every token it returns is the target's own
-- pick, the accepted count is the longest agreement, and exactly one token more is emitted.
pub verify_greedy-IsVerified :
    (draft picks : List ℕ)
    → length picks ≡ length draft + 1
    → (new : List ℕ) × (n : ℕ) × (verify_greedy draft picks ≡ ok (new, n))
      × IsVerified draft picks new n
verify_greedy-IsVerified draft picks h = (
  take (suc n) picks,
  n,
  verify_greedy-agree draft picks h,
  record {
    in_draft = agree-le draft picks;
    target_only = let e : suc n ≡ n + 1 = omega arith in ap (λ k. take k picks) e;
    emitted = omega (arith, length-take (suc n) picks, agree-le draft picks);
    accepted = take-agree draft picks;
    maximal = agree_stops draft picks h;
  },
)
  where
    n : ℕ
    n = agree draft picks
