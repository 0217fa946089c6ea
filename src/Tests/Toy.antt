-- ===== src/Tests/Toy.antt =====
-- A small language model for the tests: it fills the parameter `Model` with concrete functions.
use swlp.Prelude.{
  ℕ, suc, ◌+◌, ◌%◌, ◌/◌, ◌*◌, ◌≡◌, refl, ap, sym, ◌∙◌, false, List, [], ◌∷◌, ◌++◌, append-nil,
  append_assoc, arith, ltb, if◌then◌else◌, length, set, take, replicate, length-append,
  take-append_left,
}
use swlp.Model.{Model}

-- A cache row mixes a token with its position.
abbrev pub stamp : ℕ → List ℕ → List ℕ
stamp o [] = []
stamp o (x ∷ xs) = (o + x) ∷ stamp (o + 1) xs

abbrev pub sum : List ℕ → ℕ
sum [] = 0
sum (x ∷ xs) = x + sum xs

-- The scores of a vocabulary of four, after the cache `c`.
abbrev pub row : List ℕ → List ℕ
row c = set (replicate 4 2) (sum c % 4) 6

abbrev pub rows : ℕ → List ℕ → List ℕ → List (List ℕ)
rows o [] c = []
rows o (x ∷ xs) c = row (c ++ (o + x) ∷ []) ∷ rows (o + 1) xs (c ++ (o + x) ∷ [])

abbrev pub argmax_from : ℕ → ℕ → ℕ → List ℕ → ℕ
argmax_from i best at [] = at
argmax_from i best at (x ∷ xs) =
    if ltb best x then argmax_from (i + 1) x i xs else argmax_from (i + 1) best at xs

pub stamp-append :
    (o : ℕ) (xs ys : List ℕ) → stamp o (xs ++ ys) ≡ stamp o xs ++ stamp (o + length xs) ys
stamp-append o [] ys = let e : o ≡ o + 0 = omega arith in ap (λ k. stamp k ys) e
stamp-append o (x ∷ xs) ys =
    let e : o + 1 + length xs ≡ o + suc (length xs) = omega arith in
    rw (stamp-append (o + 1) xs ys, e) refl

pub length-stamp : (o : ℕ) (xs : List ℕ) → length (stamp o xs) ≡ length xs
length-stamp o [] = refl
length-stamp o (x ∷ xs) = ap suc (length-stamp (o + 1) xs)

pub length-rows : (o : ℕ) (xs c : List ℕ) → length (rows o xs c) ≡ length xs
length-rows o [] c = refl
length-rows o (x ∷ xs) c = ap suc (length-rows (o + 1) xs (c ++ (o + x) ∷ []))

pub rows-append :
    (o : ℕ) (xs ys c : List ℕ)
    → rows o (xs ++ ys) c ≡ rows o xs c ++ rows (o + length xs) ys (c ++ stamp o xs)
rows-append o [] ys c =
    let e : o ≡ o + 0 = omega arith in rw (append-nil c) (ap (λ k. rows k ys c) e)
rows-append o (x ∷ xs) ys c =
    let e : o + 1 + length xs ≡ o + suc (length xs) = omega arith in
    rw
      (
        rows-append (o + 1) xs ys (c ++ (o + x) ∷ []),
        e,
        append_assoc c ((o + x) ∷ []) (stamp (o + 1) xs),
      )
      refl

pub crop_lem :
    (o : ℕ) (xs ys c : List ℕ)
    → take (length c + length xs) (c ++ stamp o (xs ++ ys)) ≡ c ++ stamp o xs
crop_lem o xs ys c =
    let e : length c + length xs ≡ length (c ++ stamp o xs) =
      omega (arith, length-append c (stamp o xs), length-stamp o xs) in
    rw (e, stamp-append o xs ys)
      (ap (take (length (c ++ stamp o xs)))
          (sym (append_assoc c (stamp o xs) (stamp (o + length xs) ys)))
        ∙ take-append_left (c ++ stamp o xs) (stamp (o + length xs) ys))

abbrev pub toy : Model
toy = record {
  Score = ℕ;
  negative = λ s. false;
  times = λ s. s * 2;
  divide = λ s. s / 2;
  argmax = argmax_from 0 0 0;
  Cache = List ℕ;
  seq_length = length;
  feed = λ o xs c. c ++ stamp o xs;
  logits = rows;
  crop = take;
  length-logits = length-rows;
  seq_length-feed = λ o xs c. omega (arith, length-append c (stamp o xs), length-stamp o xs);
  feed-append = λ o xs ys c.
      rw (stamp-append o xs ys) (sym (append_assoc c (stamp o xs) (stamp (o + length xs) ys)));
  logits-append = rows-append;
  crop-feed = crop_lem;
}
