-- ===== src/ExpertBank/Stacked.antt =====
-- The stacked layout of src/swlp/model/expert_bank.py, read back expert by expert.
use native.Mathlib.Nat.{mul-le-mul_right}
use swlp.Prelude.{
  ℕ, zero, suc, ◌+◌, ◌*◌, ◌/◌, ◌-◌, ◌≤◌, ◌<◌, some, List, [], ◌∷◌, ◌++◌, ◌≡◌, refl, sym, ap, ap₂,
  subst, ◌∙◌, ok, length, take, drop, get_elem?, arith, drop-drop, take-take, drop-take,
}
use swlp.ExpertBank.{Dtype, ExpertSlice, itemsize, each}
use swlp.ExpertBank.Read.{Torch, Out, with_range, read_range}
use swlp.ExpertBank.Ranges.{
  IsPread, range_of, length-range_of, range_of_append, whole_true, read_range-whole,
}

module _ {ℓ} {A : Type ℓ} where
  pub get_elem?-each :
      (start n : ℕ) (f : ℕ → A) (j : ℕ)
      → j < n
      → get_elem? (each start n f) j ≡ some (f (start + j))
  get_elem?-each start zero f j h = absurd (omega arith)
  get_elem?-each start (suc n) f zero h =
      let e : start ≡ start + 0 = omega arith in ap (λ k. some (f k)) e
  get_elem?-each start (suc n) f (suc j) h =
      let e : suc start + j ≡ start + suc j = omega arith in
      get_elem?-each (suc start) n f j (omega arith) ∙ ap (λ k. some (f k)) e

-- `tensor[j]`, as bytes, of a tensor whose rows have `step` bytes.
abbrev pub row_of : List ℕ → ℕ → ℕ → List ℕ
row_of tensor step j = range_of tensor (j * step) step

pub half_step : (i h s : ℕ) → (i * 2 * h * s) / 2 ≡ i * h * s
half_step i h s = omega arith

pub row_inside : (j e step : ℕ) → j < e → j * step + step ≤ e * step
row_inside j e step less =
    let next : suc j ≤ e = omega arith in omega (arith, mul-le-mul_right step next)

-- A range inside a range.
pub range_of-range_of :
    (file : List ℕ) (base size offset n : ℕ)
    → offset + n ≤ size
    → range_of (range_of file base size) offset n ≡ range_of file (base + offset) n
range_of-range_of file base size offset n inside =
    ap (take n) (drop-take offset size (drop base file))
    ∙ (take-take n (size - offset) (drop offset (drop base file)) (omega arith)
        ∙ ap (take n) (drop-drop offset base file))

-- `b"".join(parts)`
abbrev pub join_bytes : List (List ℕ) → List ℕ
join_bytes [] = []
join_bytes (part ∷ parts) = part ++ join_bytes parts

-- The rows from `start` on, one after the other, are the rest of the tensor.
pub join_bytes-each-row_of :
    (tensor : List ℕ) (step start n : ℕ)
    → (start + n) * step ≤ length tensor
    → join_bytes (each start n (row_of tensor step)) ≡ range_of tensor (start * step) (n * step)
join_bytes-each-row_of tensor step start zero inside =
    let e : 0 ≡ 0 * step = omega arith in ap (range_of tensor (start * step)) e
join_bytes-each-row_of tensor step start (suc n) inside =
    let next : suc start * step ≡ start * step + step = omega arith in
    let left : n * step ≡ suc n * step - step = omega arith in
    let total : (start + suc n) * step ≡ start * step + suc n * step = omega arith in
    let more : suc n * step ≡ n * step + step = omega arith in
    ap (λ r. row_of tensor step start ++ r)
      (join_bytes-each-row_of tensor step (suc start) n (
        let e : suc start + n ≡ start + suc n = omega arith in
        subst (λ k. k * step ≤ length tensor) (sym e) inside))
    ∙ (ap₂ (λ o k. row_of tensor step start ++ range_of tensor o k) next left
        ∙ range_of_append tensor (start * step) step (suc n * step) (omega arith) (omega arith))

pub each-ext :
    {A : Type 0} (start n : ℕ) (f g : ℕ → A)
    → ((j : ℕ) → j < start + n → f j ≡ g j)
    → each start n f ≡ each start n g
each-ext start zero f g same = refl
each-ext start (suc n) f g same =
    ap₂ ◌∷◌ (same start (omega arith)) (each-ext (suc start) n f g (λ j less. same j (omega arith)))

-- A view of bytes of the right size exists and holds them.
abbrev pub Views : (torch : Torch) → (torch.Tensor → List ℕ) → Type 0
Views torch bytes =
    (dt : Dtype) (size rows cols : ℕ) (raw : List ℕ)
    → itemsize dt ≡ some size
    → 0 < length raw
    → length raw ≡ rows * cols * size
    → (t : torch.Tensor) × (torch.frombuffer dt raw rows cols ≡ some t) × (bytes t ≡ raw)

module _ (torch : Torch) (bytes : torch.Tensor → List ℕ) (views : Views torch bytes)
    (preads : ℕ → ℕ → ℕ → ℕ → List ℕ) (file : List ℕ) (reads : (i : ℕ) → IsPread (preads i) file)
    (dt : Dtype) (size : ℕ) (sized : itemsize dt ≡ some size) where
  -- One slice inside the file.
  pub slice_read :
      (i : ℕ) (s : ExpertSlice)
      → s.offset + s.nbytes ≤ length file
      → 0 < s.nbytes
      → s.nbytes ≡ s.rows * s.cols * size
      → (t : torch.Tensor) × ((next : torch.Tensor → Out torch preads)
          → with_range torch preads dt s next (read_range (preads i) 0 s.offset s.nbytes) ≡ next t)
        × (bytes t ≡ range_of file s.offset s.nbytes)
  slice_read i s inside positive shaped =
      let raw = range_of file s.offset s.nbytes in
      let full : length raw ≡ s.nbytes = omega (arith, length-range_of file s.offset s.nbytes) in
      let got : read_range (preads i) 0 s.offset s.nbytes ≡ some (ok raw) =
        read_range-whole (preads i) file (reads i) s.offset s.nbytes
        ∙ ap some (whole_true file s.offset s.nbytes full) in
      let (t, made, same) = views dt size s.rows s.cols raw sized (omega arith) (full ∙ shaped) in
      (t, λ next. rw (got, made) refl, same)
