-- ===== src/ExpertBank/Ranges.antt =====
-- The loop of `_read_range` of src/swlp/model/expert_bank.py, with any reads that `os.pread` may return.
use swlp.Prelude.{
  ℕ, zero, suc, ◌+◌, ◌-◌, ◌≤◌, ◌<◌, min, none, some, List, [], ◌∷◌, ◌++◌, ◌≡◌, refl, sym, ap, subst,
  ◌∙◌, Result, ok, err, ◌==◌, if◌then◌else◌, length, take, drop, arith, if-all, length-take,
  length-drop, drop-drop,
}
use swlp.ExpertBank.{BankError, short_pread}
use swlp.ExpertBank.Read.{with_data, read_from, read_range}

-- `file[offset : offset + n]`
abbrev pub range_of : List ℕ → ℕ → ℕ → List ℕ
range_of file offset n = take n (drop offset file)

-- What `os.pread` promises: the first bytes of the range, as many as the call chooses, and at least one
-- unless the range is empty or lies behind the end of the file.
pub record IsPread (pread : ℕ → ℕ → ℕ → List ℕ) (file : List ℕ) : Type 0 where
  pub count : ℕ → ℕ → ℕ → ℕ
  pub bytes : (call offset n : ℕ) → pread call offset n ≡ range_of file offset (count call offset n)
  pub within : (call offset n : ℕ) → count call offset n ≤ n
  pub some_bytes : (call offset n : ℕ) → 0 < n → 0 < count call offset n

pub take-add :
    (m n : ℕ) (xs : List ℕ) → m ≤ length xs → take m xs ++ take n (drop m xs) ≡ take (m + n) xs
take-add zero n xs h = let e : n ≡ 0 + n = omega arith in ap (λ k. take k xs) e
take-add (suc m) n [] h = absurd (omega arith)
take-add (suc m) n (x ∷ xs) h =
    let e : suc (m + n) ≡ suc m + n = omega arith in
    ap (◌∷◌ x) (take-add m n xs (omega arith)) ∙ ap (λ k. take k (x ∷ xs)) e

pub length-range_of :
    (file : List ℕ) (offset n : ℕ) → length (range_of file offset n) ≡ min n (length file - offset)
length-range_of file offset n =
    length-take n (drop offset file) ∙ ap (min n) (length-drop offset file)

-- What a read of the range gives: its bytes, or the error at the end of the file.
abbrev pub whole : List ℕ → ℕ → ℕ → Result BankError (List ℕ)
whole file offset n =
    let there = range_of file offset n in
    if length there == n
    then ok there
    else err (short_pread (offset + length there) (n - length there))

-- A range is its first part and the range after it.
pub range_of_append :
    (file : List ℕ) (offset g n : ℕ)
    → g ≤ length file - offset
    → g ≤ n
    → range_of file offset g ++ range_of file (offset + g) (n - g) ≡ range_of file offset n
range_of_append file offset g n inside within =
    let fits : g ≤ length (drop offset file) = omega (arith, length-drop offset file) in
    let all : g + (n - g) ≡ n = omega arith in
    ap (λ d. range_of file offset g ++ take (n - g) d) (sym (drop-drop g offset file))
    ∙ (take-add g (n - g) (drop offset file) fits ∙ ap (range_of file offset) all)

pub whole_true :
    (file : List ℕ) (offset n : ℕ)
    → length (range_of file offset n) ≡ n
    → whole file offset n ≡ ok (range_of file offset n)
whole_true file offset n e =
    let there = range_of file offset n in
    if-all (λ w. w ≡ ok there) (length there == n) (ok there)
      (err (short_pread (offset + length there) (n - length there))) (λ t. refl)
      (λ f. absurd (ground arith))

whole_false :
    (file : List ℕ) (offset n m : ℕ)
    → length (range_of file offset n) ≡ m
    → m < n
    → whole file offset n ≡ err (short_pread (offset + m) (n - m))
whole_false file offset n m e less =
    let there = range_of file offset n in
    if-all (λ w. w ≡ err (short_pread (offset + m) (n - m))) (length there == n) (ok there)
      (err (short_pread (offset + length there) (n - length there))) (λ t. absurd (ground arith))
      (λ f. ap (λ k. err (short_pread (offset + k) (n - k))) e)

whole_append :
    (file : List ℕ) (offset g n : ℕ)
    → g ≤ length file - offset
    → g ≤ n
    → with_data (range_of file offset g) (some (whole file (offset + g) (n - g)))
      ≡ some (whole file offset n)
whole_append file offset g n inside within =
    let later = range_of file (offset + g) (n - g) in
    let m = length later in
    let sizes : length (range_of file offset n) ≡ g + m =
      omega (arith, length-range_of file offset n, length-range_of file (offset + g) (n - g)) in
    if-all (λ w. with_data (range_of file offset g) (some w) ≡ some (whole file offset n))
      (m == n - g) (ok later) (err (short_pread (offset + g + m) (n - g - m)))
      (λ t.
        let full : length (range_of file offset n) ≡ n = ground arith in
        ap (λ r. some (ok r)) (range_of_append file offset g n inside within)
        ∙ ap some (sym (whole_true file offset n full)))
      (λ f.
        let less : g + m < n =
          let bound : m ≤ n - g = omega (arith, length-range_of file (offset + g) (n - g)) in
          ground arith in
        let at_end : offset + (g + m) ≡ offset + g + m = omega arith in
        let left : n - (g + m) ≡ n - g - m = omega arith in
        ap some (
          sym (
            whole_false file offset n (g + m) sizes less
            ∙ (ap (λ k. err (short_pread k (n - (g + m)))) at_end
                ∙ ap (λ k. err (short_pread (offset + g + m) k)) left))))

pub take-length : (n : ℕ) (xs : List ℕ) → take n xs ≡ take (length (take n xs)) xs
take-length zero xs = refl
take-length (suc n) [] = refl
take-length (suc n) (x ∷ xs) = ap (◌∷◌ x) (take-length n xs)

module _ (pread : ℕ → ℕ → ℕ → List ℕ) (file : List ℕ) (reads : IsPread pread file) where
  -- One round: the bytes that came, then the rest of the range.
  read_from_next :
      (call offset n : ℕ)
      → 0 < length (pread call offset n)
      → with_data (pread call offset n) (
          some
            (whole file (offset + length (pread call offset n)) (n - length (pread call offset n))))
        ≡ some (whole file offset n)
  read_from_next call offset n came =
      let c = reads.count call offset n in
      let g = length (range_of file offset c) in
      let limit = reads.within call offset n in
      let size : g ≡ min c (length file - offset) = length-range_of file offset c in
      let same : pread call offset n ≡ range_of file offset g =
        reads.bytes call offset n ∙ take-length c (drop offset file) in
      let sized : length (pread call offset n) ≡ g = ap length (reads.bytes call offset n) in
      subst
        (λ k.
          with_data (pread call offset n) (some (whole file (offset + k) (n - k)))
          ≡ some (whole file offset n))
        (sym sized)
        (subst
          (λ got.
            with_data got (some (whole file (offset + g) (n - g))) ≡ some (whole file offset n))
          (sym same) (whole_append file offset g n (omega arith) (omega arith)))

  -- A call returns nothing only at the end of the file.
  read_from_last :
      (call offset n : ℕ)
      → 0 < n
      → length (pread call offset n) ≡ 0
      → whole file offset n ≡ err (short_pread offset n)
  read_from_last call offset n some_left none_came =
      let c = reads.count call offset n in
      let asked = reads.some_bytes call offset n some_left in
      let sized : length (range_of file offset c) ≡ 0 =
        sym (ap length (reads.bytes call offset n)) ∙ none_came in
      let empty : length (range_of file offset n) ≡ 0 =
        omega (arith, length-range_of file offset n, length-range_of file offset c) in
      let here : offset + 0 ≡ offset = omega arith in
      let all : n - 0 ≡ n = omega arith in
      whole_false file offset n 0 empty some_left
      ∙ (ap (λ k. err (short_pread k (n - 0))) here ∙ ap (λ k. err (short_pread offset k)) all)

  whole_none_left : (offset n : ℕ) → n ≡ 0 → ok [] ≡ whole file offset n
  whole_none_left offset n e = subst (λ k. ok [] ≡ whole file offset k) (sym e) refl

  read_from-whole :
      (fuel call offset n : ℕ)
      → n ≤ fuel
      → read_from pread fuel call offset n ≡ some (whole file offset n)
  unfolding read_from
  read_from-whole zero call offset n enough =
      if-all (λ r. r ≡ some (whole file offset n)) (n == 0) (some (ok [])) none
        (λ t. ap some (whole_none_left offset n (ground arith))) (λ f. absurd (ground arith))
  read_from-whole (suc fuel) call offset n enough =
      let g = length (pread call offset n) in
      let rest = read_from pread fuel (suc call) (offset + g) (n - g) in
      let round =
        if g == 0
        then some (err (short_pread offset n))
        else with_data (pread call offset n) rest in
      if-all (λ r. r ≡ some (whole file offset n)) (n == 0) (some (ok [])) round
        (λ t. ap some (whole_none_left offset n (ground arith)))
        (λ f.
          let left : 0 < n = ground arith in
          if-all (λ r. r ≡ some (whole file offset n)) (g == 0) (some (err (short_pread offset n)))
            (with_data (pread call offset n) rest)
            (λ t.
              let nothing : g ≡ 0 = ground arith in
              ap some (sym (read_from_last call offset n left nothing)))
            (λ f.
              let came : 0 < g = ground arith in
              ap (with_data (pread call offset n))
                (read_from-whole fuel (suc call) (offset + g) (n - g) (omega arith))
              ∙ read_from_next call offset n came))

  -- If each `os.pread` returns the first bytes of its range, as many as it chooses, but one at least
  -- before the end of the file: `_read_range` ends. It returns exactly the bytes of the range if all
  -- of them lie in the file, or else raises the error that names where the file ends and how many
  -- bytes were left.
  pub read_range-whole :
      (offset nbytes : ℕ) → read_range pread 0 offset nbytes ≡ some (whole file offset nbytes)
  unfolding read_range
  read_range-whole offset nbytes = read_from-whole nbytes 0 offset nbytes (omega arith)
