-- ===== src/Draft/Adaptive.antt =====
-- `AdaptiveDraftLength` of src/swlp/runner/draft.py: the draft length stays within its bounds, and
-- full acceptance brings it back to the maximum by doubling.
use swlp.Prelude.{
  ℕ, zero, suc, ◌*◌, ◌^◌, ◌≤◌, ◌<◌, min, ◌≡◌, refl, ap, ◌∙◌, List, [], ◌∷◌, arith, dec_le,
}
use native.Mathlib.Nat.{pow-suc}
use swlp.Draft.{AdaptiveDraftLength, init, observe}

-- A controller that may draft at all drafts at least one token and at most `max_k`.
pub record IsBounded (a : AdaptiveDraftLength) : Type 0 where
  pub upper : a.k ≤ a.max_k
  pub lower : 0 < a.max_k → 0 < a.k

-- The reports of a run, as pairs of proposed and accepted tokens.
pub run : AdaptiveDraftLength → List (ℕ × ℕ) → AdaptiveDraftLength
run a [] = a
run a ((proposed, accepted) ∷ reports) = run (observe a proposed accepted) reports

observe-IsBounded :
    (a : AdaptiveDraftLength) (proposed accepted : ℕ)
    → IsBounded a
    → IsBounded (observe a proposed accepted)
unfolding observe
observe-IsBounded a proposed accepted h = ground (arith, h.lower)

max_k-observe :
    (a : AdaptiveDraftLength) (proposed accepted : ℕ)
    → (observe a proposed accepted).max_k ≡ a.max_k
unfolding observe
max_k-observe a proposed accepted = ground arith

run_from :
    (a : AdaptiveDraftLength) (reports : List (ℕ × ℕ))
    → IsBounded a
    → IsBounded (run a reports) × ((run a reports).max_k ≡ a.max_k)
unfolding run
run_from a [] h = (h, refl)
run_from a ((proposed, accepted) ∷ reports) h =
    let (bounded, same) =
      run_from (observe a proposed accepted) reports (observe-IsBounded a proposed accepted h) in
    (bounded, same ∙ max_k-observe a proposed accepted)

-- From the initial controller, whatever the sweeps report, the draft length is at most `max_draft`,
-- and at least 1 unless `max_draft` is 0.
pub run-IsBounded :
    (max_draft : ℕ) (reports : List (ℕ × ℕ))
    → ((run (init max_draft) reports).k ≤ max_draft)
      × (0 < max_draft → 0 < (run (init max_draft) reports).k)
unfolding init
run-IsBounded max_draft reports =
    let start : IsBounded (record { max_k = max_draft; k = max_draft }) = record {
      upper = omega arith;
      lower = λ pos. pos;
    } in
    let (bounded, same) = run_from (init max_draft) reports start in
    (omega (arith, bounded.upper, same), λ pos. bounded.lower (omega (arith, same)))

observe_full :
    (a : AdaptiveDraftLength) (n : ℕ)
    → 0 < n
    → IsBounded a
    → ((observe a n n).k ≡ min (a.k * 2) a.max_k) × ((observe a n n).max_k ≡ a.max_k)
unfolding observe
observe_full a n pos h = ground arith

two-pow-pos : (r : ℕ) → 0 < 2 ^ r
two-pow-pos zero = omega arith
two-pow-pos (suc r) = rw pow-suc (omega (arith, two-pow-pos r))

le-mul : (n p : ℕ) → 0 < p → n ≤ n * p
le-mul n p pos = grind arith

min_double : (k p top : ℕ) → 0 < p → min (min (k * 2) top * p) top ≡ min (k * (p * 2)) top
min_double k p top pos = elim (dec_le (k * 2) top) [
  | yes small ↦
      let m : min (k * 2) top ≡ k * 2 = omega arith in rw m (ap (λ n. min n top) (omega arith))
  | no large ↦
      let up : top ≤ top * p = le-mul top p pos in
      let up' : k * 2 ≤ k * 2 * p = le-mul (k * 2) p pos in
      let m : min (k * 2) top ≡ top = omega arith in rw m (omega arith)
]

-- Reports of full acceptance, of `n` tokens each.
abbrev pub accepted_fully : ℕ → ℕ → List (ℕ × ℕ)
accepted_fully zero n = []
accepted_fully (suc r) n = (n, n) ∷ accepted_fully r n

-- `r` sweeps that accept all that was proposed multiply the draft length by 2 ^ r, up to the
-- maximum.
pub run_accepted :
    (r n : ℕ) (a : AdaptiveDraftLength)
    → 0 < n
    → IsBounded a
    → (run a (accepted_fully r n)).k ≡ min (a.k * 2 ^ r) a.max_k
unfolding run
run_accepted zero n a pos h = omega arith
run_accepted (suc r) n a pos h =
    let (full, same) = observe_full a n pos h in
    run_accepted r n (observe a n n) pos (observe-IsBounded a n n h)
    ∙ rw (full, same, pow-suc) (min_double a.k (2 ^ r) a.max_k (two-pow-pos r))
