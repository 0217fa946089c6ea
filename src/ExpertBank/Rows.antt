-- ===== src/ExpertBank/Rows.antt =====
-- The stacked layouts of src/swlp/model/expert_bank.py, from the header's entries to the tensors that
-- `read_expert` returns.
use swlp.Prelude.{
  ℕ, zero, suc, ◌+◌, ◌*◌, ◌/◌, ◌%◌, ◌-◌, ◌≤◌, ◌<◌, some, List, [], ◌∷◌, ◌++◌, ◌≡◌, refl, sym, ap,
  ap₂, subst, ◌∙◌, ok, length, arith,
}
use swlp.ExpertBank.{
  gate, up, down, Dtype, f16, bf16, f32, f64, other_dtype, Stem, stem_gate_up, stem_down, Entry,
  ExpertSlice, itemsize, fused_expert, stem_entry,
}
use swlp.ExpertBank.Read.{Torch, Out, set_slot, read_slices}
use swlp.ExpertBank.Ranges.{IsPread, range_of, range_of_append}
use swlp.ExpertBank.Stacked.{row_of, half_step, row_inside, range_of-range_of, Views, slice_read}

-- A file whose header has the fused pair of one dtype: `gate_up_proj` with the shape (E, 2I, H), and
-- `down_proj` with the shape (E, H, I), each with as many bytes as its values take, inside the file.
pub record FusedBank (file : List ℕ) (data_start : ℕ) (entries : List (Stem × Entry)) : Type 0 where
  pub gu : Entry
  pub dn : Entry
  pub experts : ℕ
  pub rows2i : ℕ
  pub hidden : ℕ
  pub size : ℕ
  pub gu_found : stem_entry entries stem_gate_up ≡ some gu
  pub dn_found : stem_entry entries stem_down ≡ some dn
  pub sized : itemsize gu.dtype ≡ some size
  pub shaped : gu.shape ≡ experts ∷ rows2i ∷ hidden ∷ []
  pub dn_dtype : dn.dtype ≡ gu.dtype
  pub dn_shaped : dn.shape ≡ experts ∷ hidden ∷ rows2i / 2 ∷ []
  pub gu_stop : gu.stop ≡ gu.begin + experts * (rows2i * hidden * size)
  pub dn_stop : dn.stop ≡ dn.begin + experts * (hidden * (rows2i / 2) * size)
  pub even : rows2i % 2 ≡ 0
  pub rows_positive : 0 < rows2i
  pub hidden_positive : 0 < hidden
  pub gu_inside : data_start + gu.stop ≤ length file
  pub dn_inside : data_start + dn.stop ≤ length file

-- `read_expert` returns the three slots: the bytes of gate, then up, are one row of the first tensor,
-- those of down one row of the second.
abbrev pub ReadsRow :
    (torch : Torch)
    → (torch.Tensor → List ℕ)
    → (preads : ℕ → ℕ → ℕ → ℕ → List ℕ) → Out torch preads
    → List ℕ
    → List ℕ
    → Type 0
ReadsRow torch bytes preads out gate_up_row down_row =
    (g u d : torch.Tensor) × (out ≡ some (ok ((gate, g) ∷ (up, u) ∷ (down, d) ∷ [])))
    × (bytes g ++ bytes u ≡ gate_up_row)
    × (bytes d ≡ down_row)

itemsize_positive : (dt : Dtype) (size : ℕ) → itemsize dt ≡ some size → 0 < size
itemsize_positive f16 size e = ground arith
itemsize_positive bf16 size e = ground arith
itemsize_positive f32 size e = ground arith
itemsize_positive f64 size e = ground arith
itemsize_positive (other_dtype n) size e = absurd (ground arith)

half_even : (r h s : ℕ) → r % 2 ≡ 0 → (r * h * s) / 2 ≡ r / 2 * h * s
half_even r h s even =
    let e : r ≡ r / 2 * 2 = omega arith in ap (λ k. (k * h * s) / 2) e ∙ half_step (r / 2) h s

two_halves : (r h s : ℕ) → r % 2 ≡ 0 → r / 2 * h * s + r / 2 * h * s ≡ r * h * s
two_halves r h s even =
    let e : r / 2 * 2 ≡ r = omega arith in
    let double : r / 2 * h * s + r / 2 * h * s ≡ r / 2 * 2 * h * s = omega arith in
    double ∙ ap (λ k. k * h * s) e

product_positive : (a b c : ℕ) → 0 < a → 0 < b → 0 < c → 0 < a * b * c
product_positive zero b c pa pb pc = absurd (omega arith)
product_positive (suc a) zero c pa pb pc = absurd (omega arith)
product_positive (suc a) (suc b) zero pa pb pc = absurd (omega arith)
product_positive (suc a) (suc b) (suc c) pa pb pc = omega arith

module _ (torch : Torch) (bytes : torch.Tensor → List ℕ) (views : Views torch bytes)
    (preads : ℕ → ℕ → ℕ → ℕ → List ℕ) (file : List ℕ) (reads : (i : ℕ) → IsPread (preads i) file)
    (dt : Dtype) (size : ℕ) (sized : itemsize dt ≡ some size) where
  -- The three slices of an expert, each of its shape and inside the file.
  abbrev Fits : ExpertSlice → Type 0
  Fits s =
      (s.offset + s.nbytes ≤ length file) × (0 < s.nbytes) × (s.nbytes ≡ s.rows * s.cols * size)

  read_three :
      (s0 s1 s2 : ExpertSlice)
      → Fits s0
      → Fits s1
      → Fits s2
      → (t0 t1 t2 : torch.Tensor) × (read_slices torch preads dt 0 (s0 ∷ s1 ∷ s2 ∷ []) []
          ≡ some (ok (set_slot s2.slot t2 (set_slot s1.slot t1 (set_slot s0.slot t0 [])))))
        × (bytes t0 ≡ range_of file s0.offset s0.nbytes)
        × (bytes t1 ≡ range_of file s1.offset s1.nbytes)
        × (bytes t2 ≡ range_of file s2.offset s2.nbytes)
  unfolding read_slices
  read_three s0 s1 s2 f0 f1 f2 =
      let read = slice_read torch bytes views preads file reads dt size sized in
      let (t0, next0, b0) = read 0 s0 f0.0 f0.1 f0.2 in
      let (t1, next1, b1) = read 1 s1 f1.0 f1.1 f1.2 in
      let (t2, next2, b2) = read 2 s2 f2.0 f2.1 f2.2 in
      (t0, t1, t2, next0 _ ∙ (next1 _ ∙ next2 _), b0, b1, b2)

  -- Expert `j` of a fused pair at `gu0` and `dn0`.
  pub fused_expert-ReadsRow :
      (experts rows2i hidden gu0 dn0 j : ℕ)
      → rows2i % 2 ≡ 0
      → 0 < rows2i
      → 0 < hidden
      → gu0 + experts * (rows2i * hidden * size) ≤ length file
      → dn0 + experts * (hidden * (rows2i / 2) * size) ≤ length file
      → j < experts
      → ReadsRow torch bytes preads
          (read_slices torch preads dt 0 (fused_expert dt size rows2i hidden gu0 dn0 j) [])
          (row_of
            (range_of file gu0 (experts * (rows2i * hidden * size)))
            (rows2i * hidden * size)
            j)
          (row_of
            (range_of file dn0 (experts * (hidden * (rows2i / 2) * size)))
            (hidden * (rows2i / 2) * size)
            j)
  unfolding fused_expert
  fused_expert-ReadsRow experts rows2i hidden gu0 dn0 j even rows_pos hidden_pos gu_in dn_in less =
      let inner = rows2i / 2 in
      let gu_step = rows2i * hidden * size in
      let half = gu_step / 2 in
      let dn_step = hidden * inner * size in
      let base = gu0 + j * gu_step in
      let gate_slice : ExpertSlice = record {
        slot = gate;
        offset = base;
        nbytes = half;
        dtype = dt;
        rows = inner;
        cols = hidden;
      } in
      let up_slice : ExpertSlice = record {
        slot = up;
        offset = base + half;
        nbytes = half;
        dtype = dt;
        rows = inner;
        cols = hidden;
      } in
      let down_slice : ExpertSlice = record {
        slot = down;
        offset = dn0 + j * dn_step;
        nbytes = dn_step;
        dtype = dt;
        rows = hidden;
        cols = inner;
      } in
      let size_pos = itemsize_positive dt size sized in
      let inner_pos : 0 < inner = omega arith in
      let half_e : half ≡ inner * hidden * size = half_even rows2i hidden size even in
      let whole_e : half + half ≡ gu_step =
        ap₂ ◌+◌ half_e half_e ∙ two_halves rows2i hidden size even in
      let half_pos : 0 < half =
        subst (λ k. 0 < k) (sym half_e)
          (product_positive inner hidden size inner_pos hidden_pos size_pos) in
      let dn_pos : 0 < dn_step = product_positive hidden inner size hidden_pos inner_pos size_pos in
      let gu_row : j * gu_step + gu_step ≤ experts * gu_step = row_inside j experts gu_step less in
      let dn_row : j * dn_step + dn_step ≤ experts * dn_step = row_inside j experts dn_step less in
      let (g, u, d, out, gb, ub, db) =
        read_three gate_slice up_slice down_slice (omega arith, half_pos, half_e)
          (omega arith, half_pos, half_e) (omega arith, dn_pos, refl) in
      let rest : half ≡ gu_step - half = omega arith in
      let join_bytes : bytes g ++ bytes u ≡ range_of file base gu_step =
        ap₂ ◌++◌ gb ub
        ∙ (ap (λ k. range_of file base half ++ range_of file (base + half) k) rest
            ∙ range_of_append file base half gu_step (omega arith) (omega arith)) in
      (
        g,
        u,
        d,
        out,
        join_bytes
            ∙ sym (range_of-range_of file gu0 (experts * gu_step) (j * gu_step) gu_step gu_row),
        db ∙ sym (range_of-range_of file dn0 (experts * dn_step) (j * dn_step) dn_step dn_row),
      )
