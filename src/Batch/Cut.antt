-- ===== src/Batch/Cut.antt =====
-- The ids of a completion in src/swlp/runner/batch.py: tokens that are added at the end.
use swlp.Prelude.{
  ℕ, zero, suc, ◌≤◌, ◌≡◌, refl, sym, ap, ◌∙◌, Bool, true, false, ◌||◌, Option, List, [], ◌∷◌, ◌++◌,
  if◌then◌else◌, length, drop, if-all, arith,
}
use swlp.Decode.{is_eos, cut_at_eos}

pub drop-append : (n : ℕ) (xs ys : List ℕ) → n ≤ length xs → drop n (xs ++ ys) ≡ drop n xs ++ ys
drop-append zero xs ys le = refl
drop-append (suc n) [] ys le = absurd (omega arith)
drop-append (suc n) (x ∷ xs) ys le = drop-append n xs ys (omega arith)

-- One step of `cut_at_eos`.
abbrev cut_cons : Bool → ℕ → List ℕ × Bool → List ℕ × Bool
cut_cons b x p = if b then (x ∷ [], true) else (x ∷ p.0, p.1)

cut_at_eos_cons :
    (eos : Option ℕ) (x : ℕ) (xs : List ℕ)
    → cut_at_eos eos (x ∷ xs) ≡ cut_cons (is_eos eos x) x (cut_at_eos eos xs)
unfolding cut_at_eos
cut_at_eos_cons eos x xs = refl

cut_cons-same :
    (b : Bool) (x : ℕ) (p q : List ℕ × Bool)
    → ((p.1 ≡ true) → q ≡ p)
    → (cut_cons b x p).1 ≡ true
    → cut_cons b x q ≡ cut_cons b x p
cut_cons-same true x p q same e = refl
cut_cons-same false x p q same e = ap (λ r. (x ∷ r.0, r.1)) (same e)

cut_cons-or :
    (b c : Bool) (x : ℕ) (p q : List ℕ × Bool)
    → q.1 ≡ (p.1 || c)
    → (cut_cons b x q).1 ≡ ((cut_cons b x p).1 || c)
cut_cons-or true c x p q e = refl
cut_cons-or false c x p q e = e

-- Once the end-of-sequence token is there, what follows changes nothing.
pub cut_at_eos-append :
    (eos : Option ℕ) (xs ys : List ℕ)
    → (cut_at_eos eos xs).1 ≡ true
    → cut_at_eos eos (xs ++ ys) ≡ cut_at_eos eos xs
unfolding cut_at_eos
cut_at_eos-append eos [] ys e = absurd (ground arith)
cut_at_eos-append eos (x ∷ xs) ys e =
    cut_at_eos_cons eos x (xs ++ ys)
    ∙ cut_cons-same (is_eos eos x) x (cut_at_eos eos xs) (cut_at_eos eos (xs ++ ys))
        (λ there. cut_at_eos-append eos xs ys there)
        (sym (ap (λ p. p.1) (cut_at_eos_cons eos x xs)) ∙ e)
    ∙ sym (cut_at_eos_cons eos x xs)

-- Whether it is there after one more token.
pub cut_at_eos-last :
    (eos : Option ℕ) (xs : List ℕ) (t : ℕ)
    → (cut_at_eos eos (xs ++ t ∷ [])).1 ≡ ((cut_at_eos eos xs).1 || is_eos eos t)
unfolding cut_at_eos
cut_at_eos-last eos [] t =
    if-all (λ (p : List ℕ × Bool). p.1 ≡ is_eos eos t) (is_eos eos t) (t ∷ [], true) (t ∷ [], false)
      (λ e. sym e) (λ e. sym e)
cut_at_eos-last eos (x ∷ xs) t =
    cut_cons-or (is_eos eos x) (is_eos eos t) x (cut_at_eos eos xs) (cut_at_eos eos (xs ++ t ∷ []))
      (cut_at_eos-last eos xs t)
