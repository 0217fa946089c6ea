-- ===== src/Prelude/Maps.antt =====
-- Dictionaries over numbers as functions: the write of one key.
use Prim.Native.Nat.{ℕ}
use mathlib.Core.Path.{◌≡◌, refl, sym, ap, subst}
use mathlib.Core.Logic.{◌≢◌, ◌⊎◌, inl, inr}
use mathlib.Core.Bool.{Bool, true, false}
use native.Mathlib.Omega.{arith}
use swlp.Prelude.Tests.{◌==◌, if◌then◌else◌, ==_iff, Bool-cases}

pub ==_false : (j i : ℕ) → (j == i) ≡ false → j ≢ i
==_false j i differ e = ground arith

module _ {ℓ} {A : Type ℓ} where
  abbrev pub put : (ℕ → A) → ℕ → A → ℕ → A
  put f i v j = if j == i then v else f j

  pub put-cases :
      (f : ℕ → A) (i : ℕ) (v : A) (j : ℕ)
      → ((j ≡ i) × (put f i v j ≡ v)) ⊎ ((j ≢ i) × (put f i v j ≡ f j))
  put-cases f i v j = elim (Bool-cases (j == i)) [
    | inl same ↦ inl ((==_iff j i).0 same, ap (λ b. if b then v else f j) same)
    | inr differ ↦ inr (==_false j i differ, ap (λ b. if b then v else f j) differ)
  ]

  pub put_self : (f : ℕ → A) (i : ℕ) (v : A) → put f i v i ≡ v
  put_self f i v = ap (λ b. if b then v else f i) ((==_iff i i).1 refl)

  pub put_ne : (f : ℕ → A) (i : ℕ) (v : A) (j : ℕ) → j ≢ i → put f i v j ≡ f j
  put_ne f i v j differ = elim (put-cases f i v j) [
    | inl (same, e) ↦ absurd (differ same)
    | inr (apart, e) ↦ e
  ]

  -- What holds of the value written and of all other values before holds of all values after.
  pub put-all_ne {κ} :
      (P : ℕ → A → Type κ) (f : ℕ → A) (i : ℕ) (v : A)
      → P i v
      → ((j : ℕ) → j ≢ i → P j (f j))
      → (j : ℕ) → P j (put f i v j)
  put-all_ne P f i v new old j = elim (put-cases f i v j) [
    | inl (same, e) ↦ subst (P j) (sym e) (subst (λ k. P k v) (sym same) new)
    | inr (differ, e) ↦ subst (P j) (sym e) (old j differ)
  ]

  pub put-all {κ} :
      (P : ℕ → A → Type κ) (f : ℕ → A) (i : ℕ) (v : A)
      → P i v
      → ((j : ℕ) → P j (f j))
      → (j : ℕ) → P j (put f i v j)
  put-all P f i v new old = put-all_ne P f i v new (λ j differ. old j)

pub put-all₂ {ℓ μ κ} :
    {A : Type ℓ} {B : Type μ} (P : ℕ → A → B → Type κ) (f : ℕ → A) (g : ℕ → B) (i : ℕ) (v : A)
    (w : B)
    → P i v w
    → ((j : ℕ) → P j (f j) (g j))
    → (j : ℕ) → P j (put f i v j) (put g i w j)
put-all₂ P f g i v w new old j = elim (Bool-cases (j == i)) [
  | inl same ↦
      subst (λ b. P j (if b then v else f j) (if b then w else g j)) (sym same)
        (subst (λ k. P k v w) (sym ((==_iff j i).0 same)) new)
  | inr differ ↦ subst (λ b. P j (if b then v else f j) (if b then w else g j)) (sym differ) (old j)
]

-- To prove a statement on a conditional on both branches, with the test's value.
pub if-all {ℓ κ} :
    {A : Type ℓ} (P : A → Type κ) (b : Bool) (x y : A)
    → (b ≡ true → P x)
    → (b ≡ false → P y)
    → P (if b then x else y)
if-all P true x y t f = t refl
if-all P false x y t f = f refl

-- Two conditionals with one test and equal branches.
pub if_congr {ℓ} :
    {A : Type ℓ} (b : Bool) {x y u v : A}
    → (b ≡ true → x ≡ u)
    → (b ≡ false → y ≡ v)
    → (if b then x else y) ≡ (if b then u else v)
if_congr true t f = t refl
if_congr false t f = f refl
