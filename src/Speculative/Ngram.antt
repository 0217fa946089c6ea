-- ===== src/Speculative/Ngram.antt =====
-- `NgramDrafter.propose` of src/swlp/core/speculative.py: what it drafts is a copy of the tokens
-- after the latest earlier occurrence of the longest trailing pattern that recurs.
use swlp.Prelude.{
  ℕ, zero, suc, ◌+◌, ◌-◌, ◌≤◌, ◌<◌, min, ◌≡◌, refl, true, false, ◌⊎◌, inl, inr, Option, none, some,
  List, [], ◌∷◌, arith, ◌==◌, leb, leb→le, ◌||◌, ==_iff, Bool-cases, subst, ℕ_discrete, length,
  drop, slice, length-take, length-drop, ◌↔◌,
}
use swlp.Speculative.{NgramDrafter, same_tokens, not_empty, scan, back_off, propose}

pub same_tokens_iff : (xs ys : List ℕ) → (same_tokens xs ys ≡ true) ↔ (xs ≡ ys)
unfolding same_tokens
same_tokens_iff [] [] = ground arith
same_tokens_iff [] (y ∷ ys) = ground arith
same_tokens_iff (x ∷ xs) [] = ground arith
same_tokens_iff (x ∷ xs) (y ∷ ys) = ground (arith, same_tokens_iff xs ys, ==_iff x y)

-- The trailing pattern of length `n` occurs at `start`, before its own place.
pub record Recurs (tokens : List ℕ) (n start : ℕ) : Type 0 where
  pub earlier : start + n < length tokens
  pub matches : slice start (start + n) tokens ≡ drop (length tokens - n) tokens

-- A draft copied from behind the occurrence at `start` of the trailing `n` tokens.
pub record Copies (d : NgramDrafter) (tokens draft : List ℕ) (n start : ℕ) : Type 0 where
  pub recurs : Recurs tokens n start
  pub copied : draft ≡ slice (start + n) (start + n + d.k) tokens
  pub latest : (later : ℕ) → start < later → ¬ Recurs tokens n later

not_empty_of_pos : (xs : List ℕ) → 0 < length xs → not_empty xs ≡ true
unfolding not_empty
not_empty_of_pos [] h = absurd (omega arith)
not_empty_of_pos (x ∷ xs) h = refl

below_suc :
    (P : ℕ → Type 0) (b : ℕ) → ¬ P b → ((i : ℕ) → i < b → ¬ P i) → (i : ℕ) → i < suc b → ¬ P i
below_suc P b here below i lt holds = elim (ℕ_discrete i b) [
  | yes e ↦ here (subst P e holds)
  | no ne ↦ below i (omega arith) holds
]

module _ (d : NgramDrafter) (tokens : List ℕ) (pos : 0 < d.k) where
  draft-not_empty : (at : ℕ) → at < length tokens → not_empty (slice at (at + d.k) tokens) ≡ true
  draft-not_empty at lt =
      not_empty_of_pos _
        (omega (arith, length-take (at + d.k - at) (drop at tokens), length-drop at tokens))

  -- Where a place does not match, the scan goes on.
  scan_miss :
      (n b : ℕ)
      → suc b + n ≤ length tokens
      → ¬ Recurs tokens n b
      → scan d tokens n (suc b) ≡ scan d tokens n b
  unfolding scan
  scan_miss n b fit miss =
      elim (Bool-cases (same_tokens (slice b (b + n) tokens) (drop (length tokens - n) tokens))) [
        | inl hit ↦
            absurd (miss (record { earlier = omega arith; matches = (same_tokens_iff _ _).0 hit }))
        | inr other ↦ rw other refl
      ]

  scan_hit :
      (n b : ℕ)
      → Recurs tokens n b
      → scan d tokens n (suc b) ≡ some (slice (b + n) (b + n + d.k) tokens)
  unfolding scan
  scan_hit n b r = rw ((same_tokens_iff _ _).1 r.matches, draft-not_empty (b + n) r.earlier) refl

  dec_recurs : (n b : ℕ) → suc b + n ≤ length tokens → Dec (Recurs tokens n b)
  dec_recurs n b fit =
      elim (Bool-cases (same_tokens (slice b (b + n) tokens) (drop (length tokens - n) tokens))) [
        | inl hit ↦ yes (record { earlier = omega arith; matches = (same_tokens_iff _ _).0 hit })
        | inr other ↦ no (λ r. cc (other, (same_tokens_iff _ _).1 r.matches))
      ]

  scan-zero : (n : ℕ) → scan d tokens n zero ≡ none
  unfolding scan
  scan-zero n = refl

  -- The outcome `o` of the inner loop below `bound`.
  abbrev Scanned : ℕ → ℕ → Option (List ℕ) → Type 0
  Scanned n bound o =
      ((o ≡ none) × ((start : ℕ) → start < bound → ¬ Recurs tokens n start))
      ⊎ ((start : ℕ) × (start < bound)
          × Recurs tokens n start
          × (o ≡ some (slice (start + n) (start + n + d.k) tokens))
          × ((later : ℕ) → start < later → later < bound → ¬ Recurs tokens n later))

  scan_step :
      (n b : ℕ) (o : Option (List ℕ)) → ¬ Recurs tokens n b → Scanned n b o → Scanned n (suc b) o
  scan_step n b o miss (inl (e, none_below)) =
      inl (e, below_suc (Recurs tokens n) b miss none_below)
  scan_step n b o miss (inr (start, lt, r, e, latest)) = inr (
    start,
    omega arith,
    r,
    e,
    λ later gt lt' p.
        below_suc (λ i. (start < i) × Recurs tokens n i) b (λ q. miss q.1)
          (λ i below q. latest i q.0 below q.1) later lt' (gt, p),
  )

  scan_lem : (n bound : ℕ) → bound + n ≤ length tokens → Scanned n bound (scan d tokens n bound)
  scan_lem n zero fit = inl (scan-zero n, λ start lt. absurd (omega arith))
  scan_lem n (suc b) fit = elim (dec_recurs n b fit) [
    | yes r ↦ inr (b, omega arith, r, scan_hit n b r, λ later gt lt. absurd (omega arith))
    | no miss ↦ rw (scan_miss n b fit miss) (scan_step n b _ miss (scan_lem n b (omega arith)))
  ]

  -- A draft of size at most `bound`: the longest trailing pattern that recurs, copied.
  abbrev pub Drafted : ℕ → List ℕ → Type 0
  Drafted bound draft =
      ((draft ≡ []) × ((n start : ℕ) → 0 < n → n ≤ bound → ¬ Recurs tokens n start))
      ⊎ ((n : ℕ) × (start : ℕ) × (0 < n)
          × (n ≤ bound)
          × Copies d tokens draft n start
          × ((longer other : ℕ) → n < longer → longer ≤ bound → ¬ Recurs tokens longer other))

  Scanned-all :
      (n : ℕ)
      → ((i : ℕ) → i < length tokens - n → ¬ Recurs tokens n i)
      → (i : ℕ) → ¬ Recurs tokens n i
  Scanned-all n below i r = below i (omega (arith, r.earlier)) r

  back_off_step :
      (n : ℕ) (o : Option (List ℕ))
      → suc n < length tokens
      → Scanned (suc n) (length tokens - suc n) o
      → Drafted n (back_off d tokens n)
      → Drafted (suc n) (elim o [ some draft ↦ draft | none ↦ back_off d tokens n ])
  back_off_step n o lt (inl (e, never)) (inl (nothing, shorter)) =
      rw e (inl (nothing, λ m start gt le. up_to m start le (λ le'. shorter m start gt le')))
    where
      up_to :
          (m start : ℕ) → m ≤ suc n → (m ≤ n → ¬ Recurs tokens m start) → ¬ Recurs tokens m start
      up_to m start le less r = elim (ℕ_discrete m (suc n)) [
        | yes same ↦ Scanned-all (suc n) never start (subst (λ k. Recurs tokens k start) same r)
        | no other ↦ less (omega arith) r
      ]
  back_off_step n o lt (inl (e, never)) (inr (m, start, pos', le, copies, longest)) = rw e (
      inr (
        m,
        start,
        pos',
        omega arith,
        copies,
        λ longer other gt le' r. elim (ℕ_discrete longer (suc n)) [
          | yes same ↦ Scanned-all (suc n) never other (subst (λ k. Recurs tokens k other) same r)
          | no shorter ↦ longest longer other gt (omega arith) r
        ],
      ))
  back_off_step n o lt (inr (start, below, r, e, latest)) rest = rw e (
      inr (
        suc n,
        start,
        omega arith,
        omega arith,
        record {
          recurs = r;
          copied = refl;
          latest = λ later gt r'. latest later gt (omega (arith, r'.earlier)) r';
        },
        λ longer other gt le r'. absurd (omega arith),
      ))

  -- a trailing pattern that recurs is no longer than the tokens before the last
  Recurs-lt : (n start : ℕ) → Recurs tokens n start → n < length tokens
  Recurs-lt n start r = omega (arith, r.earlier)

  back_off_lem : (n : ℕ) → n < length tokens → Drafted n (back_off d tokens n)
  unfolding back_off
  back_off_lem zero lt = inl (refl, λ n start gt le. absurd (omega arith))
  back_off_lem (suc n) lt =
      back_off_step n _ lt (scan_lem (suc n) (length tokens - suc n) (omega arith))
        (back_off_lem n (omega arith))

  widen :
      (low high : ℕ) (draft : List ℕ)
      → low ≤ high
      → length tokens ≤ low + 1 ⊎ (low ≡ high)
      → Drafted low draft
      → Drafted high draft
  widen low high draft le all (inl (e, never)) =
      inl (e, λ n start gt le' r. never n start gt (omega (arith, r.earlier)) r)
  widen low high draft le all (inr (n, start, gt, le', copies, longest)) = inr (
    n,
    start,
    gt,
    omega arith,
    copies,
    λ longer other gt' le'' r. longest longer other gt' (omega (arith, r.earlier)) r,
  )

  -- With K > 0 the drafter returns the K tokens (fewer at the end) behind the latest earlier
  -- occurrence of the longest trailing pattern of at most `n` tokens that recurs, and returns
  -- nothing exactly when no such pattern recurs.
  pub propose-Drafted : Drafted d.n (propose d tokens)
  unfolding propose
  propose-Drafted = elim (Bool-cases (leb (length tokens) 1)) [
    | inl short ↦
        let e : (d.k == 0 || leb (length tokens) 1) ≡ true = ground arith in
        rw e (
          inl (
            refl,
            λ n start gt le r.
                let le' : length tokens ≤ 1 = leb→le _ _ short in omega (arith, r.earlier),
          ))
    | inr long ↦
        let e : (d.k == 0 || leb (length tokens) 1) ≡ false = ground arith in
        let two : 1 < length tokens = ground arith in
        rw e (
          widen _ d.n _ (omega arith) (omega arith)
            (back_off_lem (min d.n (length tokens - 1)) (omega arith)))
  ]
