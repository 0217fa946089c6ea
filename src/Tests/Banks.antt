-- ===== src/Tests/Banks.antt =====
-- A bank of two experts, its fused pair in a file of twenty-two bytes, and reads that return one byte
-- first and one byte more with each call.
use swlp.Prelude.{
  ℕ, suc, ◌*◌, min, Option, none, some, List, [], ◌∷◌, ◌≡◌, refl, ap, ◌∙◌, ok, err, ◌==◌,
  if◌then◌else◌, length, arith, if-all,
}
use swlp.ExpertBank.{
  f16, Param, gate_proj, Stem, stem_gate_up, stem_down, short_pread, Entry, LayerIndex, itemsize,
  each, stacked_slices, fused_expert, fused_slices,
}
use swlp.ExpertBank.Read.{Torch, read_from, read_range}
use swlp.ExpertBank.Index.{
  Keys, Header, split_expert_tensors, index_header, build, index_safetensors, parse_header, collect,
  bank_file, source, scan_layer,
}
use swlp.ExpertBank.Ranges.{IsPread, range_of, whole, read_range-whole}
use swlp.ExpertBank.Stacked.{Views}
use swlp.ExpertBank.Rows.{FusedBank, ReadsRow}
use swlp.ExpertBank.Whole.{indexed_read, read_expert-stacked_slices}
use swlp.ExpertBank.Built.{IsBuilt, build-IsBuilt}

-- A header of two bytes, then the fused pair: two experts of four and of two bytes.
abbrev bank : List ℕ
bank =
    2 ∷ 0 ∷ 0 ∷ 0 ∷ 0 ∷ 0 ∷ 0 ∷ 0 ∷ 77 ∷ 78 ∷ 11 ∷ 12 ∷ 13 ∷ 14 ∷ 21 ∷ 22 ∷ 23 ∷ 24 ∷ 31 ∷ 32 ∷ 41
    ∷ 42 ∷ []

abbrev gate_up : Entry
gate_up = record { dtype = f16; shape = 2 ∷ 2 ∷ 1 ∷ []; begin = 0; stop = 8 }

abbrev downs : Entry
downs = record { dtype = f16; shape = 2 ∷ 1 ∷ 1 ∷ []; begin = 8; stop = 12 }

abbrev entries : List (Stem × Entry)
entries = (stem_down, downs) ∷ (stem_gate_up, gate_up) ∷ []

abbrev slow : ℕ → ℕ → ℕ → List ℕ
slow call offset n = range_of bank offset (min n (suc call))

slow-IsPread : IsPread slow bank
slow-IsPread = record {
  count = λ call offset n. min n (suc call);
  bytes = λ call offset n. refl;
  within = λ call offset n. omega arith;
  some_bytes = λ call offset n left. omega arith;
}

read_range-whole_example : read_range slow 0 10 8 ≡ some (whole bank 10 8)
read_range-whole_example = read_range-whole slow bank slow-IsPread 10 8

read_range_runs : read_range slow 0 10 8 ≡ some (ok (11 ∷ 12 ∷ 13 ∷ 14 ∷ 21 ∷ 22 ∷ 23 ∷ 24 ∷ []))
unfolding read_range read_from
read_range_runs = refl

-- The file ends after two of the five bytes.
read_range_short : read_range slow 0 20 5 ≡ some (err (short_pread 22 3))
unfolding read_range read_from
read_range_short = refl

abbrev fitting : Option ℕ → List ℕ → ℕ → ℕ → Option (List ℕ)
fitting none raw rows cols = none
fitting (some size) raw rows cols = if length raw == rows * cols * size then some raw else none

abbrev plain_torch : Torch
plain_torch = record {
  Tensor = List ℕ;
  frombuffer = λ dt raw rows cols. fitting (itemsize dt) raw rows cols;
}

plain_torch-Views : Views plain_torch (λ t. t)
plain_torch-Views dt size rows cols raw sized positive shaped = (
  raw,
  ap (λ o. fitting o raw rows cols) sized
      ∙ if-all (λ o. o ≡ some raw) (length raw == rows * cols * size) (some raw) none (λ t. refl)
          (λ f. absurd (ground arith)),
  refl,
)

abbrev fused_bank : FusedBank bank 10 entries
fused_bank = record {
  gu = gate_up;
  dn = downs;
  experts = 2;
  rows2i = 2;
  hidden = 1;
  size = 2;
  gu_found = refl;
  dn_found = refl;
  sized = refl;
  shaped = refl;
  dn_dtype = refl;
  dn_shaped = refl;
  gu_stop = refl;
  dn_stop = refl;
  even = refl;
  rows_positive = omega arith;
  hidden_positive = omega arith;
  gu_inside = omega arith;
  dn_inside = omega arith;
}

read_expert-stacked_slices_example :
    ReadsRow plain_torch
      (λ t. t)
      (λ i. slow)
      (indexed_read plain_torch (λ t. t) (λ i. slow) (stacked_slices 10 entries) 1)
      (21 ∷ 22 ∷ 23 ∷ 24 ∷ [])
      (41 ∷ 42 ∷ [])
read_expert-stacked_slices_example =
    read_expert-stacked_slices bank 10 entries fused_bank plain_torch (λ t. t) plain_torch-Views
      (λ i. slow) (λ i. slow-IsPread) 1 (omega arith)

abbrev layer : LayerIndex
layer = record {
  num_experts = 2;
  slices = each 0 2 (fused_expert f16 2 2 1 10 18);
  dtype = f16;
  hidden = 1;
  intermediate = 1;
}

layer_indexed : stacked_slices 10 entries ≡ ok layer
unfolding stacked_slices fused_slices
layer_indexed = refl

-- Keys by number: 0 and 1 are the fused pair, 2 is a dense tensor, 3 is a tensor of expert 5.
abbrev numbered_expert : ℕ → Option (ℕ × Param)
numbered_expert k = if k == 3 then some (5, gate_proj) else none

abbrev numbered_stem : ℕ → Option Stem
numbered_stem k = if k == 0 then some stem_gate_up else if k == 1 then some stem_down else none

abbrev numbered_header : List ℕ → Option (Header ℕ)
numbered_header bytes = some (record {
  quantized = length bytes == 3;
  tensors = (0, gate_up) ∷ (2, downs) ∷ (1, downs) ∷ [];
})

abbrev numbered : Keys
numbered = record {
  KeyName = ℕ;
  expert_key = numbered_expert;
  stacked_key = numbered_stem;
  loads = numbered_header;
}

abbrev state : List (ℕ × Entry)
state = (2, downs) ∷ (0, gate_up) ∷ (2, gate_up) ∷ (1, downs) ∷ []

split_expert_tensors_runs :
    split_expert_tensors numbered state
    ≡ ((2, downs) ∷ (2, gate_up) ∷ [], (0, gate_up) ∷ (1, downs) ∷ [])
unfolding split_expert_tensors
split_expert_tensors_runs = refl

-- Layer 1 has a bank, layer 2 a file that is too short for a header.
abbrev banks : ℕ → Option (List ℕ)
banks i = if i == 1 then some bank else none

abbrev layer_files : ℕ → Option (List ℕ)
layer_files i = if i == 2 then some (1 ∷ []) else none

build-IsBuilt_example :
    IsBuilt numbered banks layer_files 0 3 (λ i. none) (build numbered banks layer_files 3)
build-IsBuilt_example = build-IsBuilt numbered banks layer_files 3

scan_layer_runs :
    scan_layer numbered (source (banks 1) (layer_files 1)) ≡ ok (some (bank_file, layer))
unfolding index_safetensors index_header parse_header collect stacked_slices fused_slices
scan_layer_runs = refl

scan_layer_left_out : scan_layer numbered (source (banks 2) (layer_files 2)) ≡ ok none
unfolding index_safetensors parse_header
scan_layer_left_out = refl
