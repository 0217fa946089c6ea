-- ===== src/ExpertBank/Whole.antt =====
-- The stacked layouts of src/swlp/model/expert_bank.py: `_stacked_slices`, then `read_expert` for every
-- expert.
use swlp.Prelude.{
  ℕ, ◌+◌, ◌*◌, ◌/◌, ◌-◌, ◌≤◌, ◌<◌, none, some, List, [], ◌∷◌, ◌++◌, ◌≡◌, sym, ap, ap₂, subst,
  take_of_length-le, ◌∙◌, Result, ok, err, ◌>>=◌, length, arith,
}
use swlp.ExpertBank.{
  Slot, Stem, Entry, LayerIndex, BankError, triple, each, fused_expert, fused_slices, fused_pair,
  stacked_from, stacked_slices, or_unsupported,
}
use swlp.ExpertBank.Read.{Torch, Out, read_slices, read_expert, of_slices}
use swlp.ExpertBank.Ranges.{IsPread, range_of, length-range_of}
use swlp.ExpertBank.Stacked.{
  get_elem?-each, row_of, join_bytes, join_bytes-each-row_of, each-ext, Views,
}
use swlp.ExpertBank.Rows.{FusedBank, ReadsRow, fused_expert-ReadsRow}

-- The index of a fused pair.
abbrev fused_layer : ℕ → Entry → Entry → ℕ → ℕ → ℕ → ℕ → LayerIndex
fused_layer data_start gu dn experts rows2i hidden size = record {
  num_experts = experts;
  slices =
      each 0 experts
        (fused_expert gu.dtype size rows2i hidden (data_start + gu.begin) (data_start + dn.begin));
  dtype = gu.dtype;
  hidden = hidden;
  intermediate = rows2i / 2;
}

-- The bytes that an expert's three slots hold: of gate, then up, and of down.
module _ (torch : Torch) (bytes : torch.Tensor → List ℕ) (preads : ℕ → ℕ → ℕ → ℕ → List ℕ) where
  abbrev pub slot_bytes : List (Slot × torch.Tensor) → List ℕ × List ℕ
  slot_bytes [] = ([], [])
  slot_bytes (a ∷ []) = ([], [])
  slot_bytes (a ∷ b ∷ []) = ([], [])
  slot_bytes ((s0, g) ∷ (s1, u) ∷ (s2, d) ∷ []) = (bytes g ++ bytes u, bytes d)
  slot_bytes (a ∷ b ∷ c ∷ d ∷ more) = ([], [])

  abbrev pub expert_slots : Out torch preads → List ℕ × List ℕ
  expert_slots none = ([], [])
  expert_slots (some (err e)) = ([], [])
  expert_slots (some (ok slots)) = slot_bytes slots

  -- `read_expert` of an index, or the error of the indexing.
  abbrev pub indexed_read : Result BankError LayerIndex → ℕ → Out torch preads
  indexed_read (ok index) j = read_expert torch preads index j
  indexed_read (err e) j = some (err e)

  expert_slots-ReadsRow :
      (out : Out torch preads) (gate_up_row down_row : List ℕ)
      → ReadsRow torch bytes preads out gate_up_row down_row
      → expert_slots out ≡ (gate_up_row, down_row)
  expert_slots-ReadsRow out gate_up_row down_row (g, u, d, e, gub, db) =
      ap expert_slots e ∙ ap₂ (λ x y. (x, y)) gub db

-- All rows of a tensor are the tensor.
join_bytes-each-all :
    (tensor : List ℕ) (n step : ℕ)
    → length tensor ≡ n * step
    → join_bytes (each 0 n (row_of tensor step)) ≡ tensor
join_bytes-each-all tensor n step e =
    let zero_e : 0 * step ≡ 0 = omega arith in
    let all_e : 0 + n ≡ n = omega arith in
    join_bytes-each-row_of tensor step 0 n
      (subst (λ k. k * step ≤ length tensor) (sym all_e) (omega arith))
    ∙ (ap (λ o. range_of tensor o (n * step)) zero_e
        ∙ take_of_length-le (n * step) tensor (omega arith))

module _ (file : List ℕ) (data_start : ℕ) (entries : List (Stem × Entry)) where
  module _ (bank : FusedBank file data_start entries) where
    open bank use {gu, dn, experts, rows2i, hidden, size}

    stacked_slices-fused :
        stacked_slices data_start entries
        ≡ ok (fused_layer data_start gu dn experts rows2i hidden size)
    unfolding stacked_slices fused_slices
    stacked_slices-fused =
        ap (stacked_from data_start entries) bank.gu_found
        ∙ (ap (fused_pair data_start gu) bank.dn_found
            ∙ (ap
                  (λ o. or_unsupported o >>= λ s. triple gu.shape >>= λ dims.
                    ok (fused_layer data_start gu dn dims.0 dims.1 dims.2 s))
                  bank.sized
                ∙ ap
                    (λ sh. triple sh >>= λ dims.
                      ok (fused_layer data_start gu dn dims.0 dims.1 dims.2 size))
                    bank.shaped))

    -- The bytes of a row of the two tensors, and of the tensors, from `begin` to `stop` of their entries.
    abbrev pub gu_step : ℕ
    gu_step = rows2i * hidden * size

    abbrev pub dn_step : ℕ
    dn_step = hidden * (rows2i / 2) * size

    abbrev pub gu_bytes : List ℕ
    gu_bytes = range_of file (data_start + gu.begin) (gu.stop - gu.begin)

    abbrev pub dn_bytes : List ℕ
    dn_bytes = range_of file (data_start + dn.begin) (dn.stop - dn.begin)

    gu_size : gu.stop - gu.begin ≡ experts * gu_step
    gu_size = let e = bank.gu_stop in omega arith

    dn_size : dn.stop - dn.begin ≡ experts * dn_step
    dn_size = let e = bank.dn_stop in omega arith

    gu_fits : data_start + gu.begin + experts * gu_step ≤ length file
    gu_fits = let e = bank.gu_stop in let inside = bank.gu_inside in omega arith

    dn_fits : data_start + dn.begin + experts * dn_step ≤ length file
    dn_fits = let e = bank.dn_stop in let inside = bank.dn_inside in omega arith

    module _ (torch : Torch) (bytes : torch.Tensor → List ℕ) (views : Views torch bytes)
        (preads : ℕ → ℕ → ℕ → ℕ → List ℕ) (reads : (i : ℕ) → IsPread (preads i) file) where
      -- Let the header have a fused pair of one supported dtype, `gate_up_proj` with a shape (E, 2I, H)
      -- of an even positive 2I and a positive H, `down_proj` with the shape (E, H, I), and let each have
      -- as many bytes as its values take, inside the file. Of each expert below E, `read_expert` of the
      -- index that `_stacked_slices` makes returns the three slots: the bytes of gate and up are the
      -- expert's row of `gate_up_proj`, those of down its row of `down_proj`. This holds if torch views
      -- any bytes of the right number, and however `os.pread` cuts the reads.
      pub read_expert-stacked_slices :
          (j : ℕ)
          → j < experts
          → ReadsRow torch bytes preads
              (indexed_read torch bytes preads (stacked_slices data_start entries) j)
              (row_of gu_bytes gu_step j)
              (row_of dn_bytes dn_step j)
      unfolding read_expert
      read_expert-stacked_slices j less =
          let expert =
            fused_expert gu.dtype size rows2i hidden (data_start + gu.begin)
              (data_start + dn.begin) in
          subst
            (λ r.
              ReadsRow torch bytes preads (indexed_read torch bytes preads r j)
                (row_of gu_bytes gu_step j) (row_of dn_bytes dn_step j))
            (sym stacked_slices-fused)
            (subst
              (λ o.
                ReadsRow torch bytes preads (of_slices torch preads gu.dtype o)
                  (row_of gu_bytes gu_step j) (row_of dn_bytes dn_step j))
              (sym (
                get_elem?-each 0 experts expert j less
                ∙ (let e : 0 + j ≡ j = omega arith in ap (λ k. some (expert k)) e)))
              (subst
                (λ n.
                  ReadsRow torch bytes preads (read_slices torch preads gu.dtype 0 (expert j) [])
                    (row_of (range_of file (data_start + gu.begin) n) gu_step j)
                    (row_of dn_bytes dn_step j))
                (sym gu_size)
                (subst
                  (λ n.
                    ReadsRow torch bytes preads (read_slices torch preads gu.dtype 0 (expert j) [])
                      (row_of (range_of file (data_start + gu.begin) (experts * gu_step)) gu_step j)
                      (row_of (range_of file (data_start + dn.begin) n) dn_step j))
                  (sym dn_size)
                  (fused_expert-ReadsRow torch bytes views preads file reads gu.dtype size
                    bank.sized experts rows2i hidden (data_start + gu.begin) (data_start + dn.begin)
                    j bank.even bank.rows_positive bank.hidden_positive gu_fits dn_fits less))))

      -- Under the same conditions: the gate and up slots of all experts in their order, as `read_expert`
      -- returns them, are the bytes of `gate_up_proj`, and the down slots are those of `down_proj`.
      pub join_bytes-read_expert :
          (join_bytes (
              each 0 experts (λ j.
                (expert_slots torch bytes preads
                  (indexed_read torch bytes preads (stacked_slices data_start entries) j)).0))
            ≡ gu_bytes)
          × (join_bytes (
                each 0 experts (λ j.
                  (expert_slots torch bytes preads
                    (indexed_read torch bytes preads (stacked_slices data_start entries) j)).1))
              ≡ dn_bytes)
      join_bytes-read_expert =
          let at_row = λ (j : ℕ) (less : j < 0 + experts).
            expert_slots-ReadsRow torch bytes preads
              (indexed_read torch bytes preads (stacked_slices data_start entries) j)
              (row_of gu_bytes gu_step j) (row_of dn_bytes dn_step j)
              (read_expert-stacked_slices j (omega arith)) in
          let gu_length : length gu_bytes ≡ experts * gu_step =
            let e = bank.gu_stop in
            let inside = bank.gu_inside in
            omega (arith, length-range_of file (data_start + gu.begin) (gu.stop - gu.begin)) in
          let dn_length : length dn_bytes ≡ experts * dn_step =
            let e = bank.dn_stop in
            let inside = bank.dn_inside in
            omega (arith, length-range_of file (data_start + dn.begin) (dn.stop - dn.begin)) in
          (
            ap join_bytes (
                  each-ext 0 experts _ (row_of gu_bytes gu_step)
                    (λ j less. ap (λ p. p.0) (at_row j less)))
                ∙ join_bytes-each-all gu_bytes experts gu_step gu_length,
            ap join_bytes (
                  each-ext 0 experts _ (row_of dn_bytes dn_step)
                    (λ j less. ap (λ p. p.1) (at_row j less)))
                ∙ join_bytes-each-all dn_bytes experts dn_step dn_length,
          )
