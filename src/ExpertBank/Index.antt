-- ===== src/ExpertBank/Index.antt =====
-- The header of a bank, `_index_safetensors`, `ExpertIndex.build`, `split_expert_tensors`, `expert_count`
-- and `file_has_expert_tensors` of src/swlp/model/expert_bank.py. A file is the list of its bytes. The
-- pattern of the keys of an expert's own tensors, the stems of the stacked ones and the JSON of the
-- header are read by `Keys`.
use swlp.Prelude.{
  ℕ, zero, suc, ◌+◌, max, Bool, true, false, ◌||◌, Option, none, some, List, [], ◌∷◌, Result, ok,
  err, ◌>>=◌, ltb, if◌then◌else◌, length, take, drop, put,
}
use swlp.Codec.{of_le}
use swlp.ExpertBank.{
  Param, Stem, BankError, quantized_bank, bad_header, is_bank_error, Entry, LayerIndex,
  stacked_slices,
}
use swlp.ExpertBank.Own.{set_expert, own_index}

-- The tensors of a header; `quantized` tells that its metadata name a quantisation.
pub record Header (KeyName : Type 0) : Type 0 where
  pub quantized : Bool
  pub tensors : List (KeyName × Entry)

-- What `re` and the methods of `str` find in a key, the number and the parameter of an expert's own
-- tensor (`_PER_EXPERT_KEY`) and the stem of a stacked tensor (a key with ".experts." in it), and
-- what `json.loads` finds in the bytes of a header.
pub record Keys : Type 1 where
  pub KeyName : Type 0
  pub expert_key : KeyName → Option (ℕ × Param)
  pub stacked_key : KeyName → Option Stem
  pub loads : List ℕ → Option (Header KeyName)

-- `bank_file` of an index.
pub data BankFile : Type 0 where
  bank_file layer_file : BankFile

-- The two dictionaries of `_index_safetensors`.
pub record Found : Type 0 where
  pub stacked : List (Stem × Entry)
  pub per_expert : List (ℕ × List (Param × Entry))

abbrev pub no_tensors : Found
no_tensors = record { stacked = []; per_expert = [] }

abbrev pub note_key : Option (ℕ × Param) → Option Stem → Entry → Found → Found
note_key (some (j, p)) stem entry found = record found {
  per_expert = set_expert j p entry found.per_expert;
}
note_key none (some stem) entry found = record found { stacked = (stem, entry) ∷ found.stacked }
note_key none none entry found = found

abbrev pub indexed :
    ℕ → List (Stem × Entry) → List (ℕ × List (Param × Entry)) → Result BankError (Option LayerIndex)
indexed data_start (s ∷ stacked) per_expert =
    stacked_slices data_start (s ∷ stacked) >>= λ index. ok (some index)
indexed data_start [] ((j, first) ∷ more) =
    own_index data_start first ((j, first) ∷ more) >>= λ index. ok (some index)
indexed data_start [] [] = ok none

-- The file that `build` indexes for a layer: its bank if it exists, or else the layer's own file.
abbrev pub source : Option (List ℕ) → Option (List ℕ) → Option (BankFile × List ℕ)
source (some bank) layer = some (bank_file, bank)
source none (some layer) = some (layer_file, layer)
source none none = none

-- What the body of the loop makes of the index: `ExpertBankError` is raised again, any other
-- exception leaves the layer out.
abbrev pub entered :
    BankFile
    → Result BankError (Option LayerIndex)
    → Result BankError (Option (BankFile × LayerIndex))
entered name (ok (some index)) = ok (some (name, index))
entered name (ok none) = ok none
entered name (err e) = if is_bank_error e then err e else ok none

module _ (keys : Keys) where
  open keys use {KeyName, expert_key, stacked_key, loads}

  unfoldable pub collect : List (KeyName × Entry) → Found → Found
  collect [] found = found
  collect ((key, entry) ∷ more) found =
      collect more (note_key (expert_key key) (stacked_key key) entry found)

  -- `struct.error`, and `JSONDecodeError`, which is a `ValueError`
  abbrev with_header : Option (Header KeyName) → ℕ → Result BankError (Header KeyName × ℕ)
  with_header none data_start = err bad_header
  with_header (some header) data_start = ok (header, data_start)

  unfoldable pub parse_header : List ℕ → Result BankError (Header KeyName × ℕ)
  parse_header file =
      let header_len = of_le (take 8 file) in
      if ltb (length file) 8
      then err bad_header
      else with_header (loads (take header_len (drop 8 file))) (8 + header_len)

  unfoldable pub index_header : Header KeyName → ℕ → Result BankError (Option LayerIndex)
  index_header header data_start =
      let found = collect header.tensors no_tensors in
      if header.quantized
      then err quantized_bank
      else indexed data_start found.stacked found.per_expert

  unfoldable pub index_safetensors : List ℕ → Result BankError (Option LayerIndex)
  index_safetensors file = parse_header file >>= λ h. index_header h.0 h.1

  abbrev pub in_bank : Option (ℕ × Param) → Option Stem → Bool
  in_bank (some m) stem = true
  in_bank none (some stem) = true
  in_bank none none = false

  -- The test of `split_expert_tensors` and of `file_has_expert_tensors`.
  abbrev pub is_expert : KeyName → Bool
  is_expert key = in_bank (expert_key key) (stacked_key key)

  unfoldable pub has_expert_tensors : List (KeyName × Entry) → Bool
  has_expert_tensors [] = false
  has_expert_tensors ((key, entry) ∷ more) = is_expert key || has_expert_tensors more

  module _ {ℓ} {V : Type ℓ} where
    -- `(dense, experts)`
    unfoldable pub split_expert_tensors :
        List (KeyName × V) → List (KeyName × V) × List (KeyName × V)
    split_expert_tensors [] = ([], [])
    split_expert_tensors ((key, value) ∷ more) =
        let (dense, experts) = split_expert_tensors more in
        if is_expert key then (dense, (key, value) ∷ experts) else ((key, value) ∷ dense, experts)

    module _ (leading : V → ℕ) where
      abbrev pub count_from : ℕ → Option (ℕ × Param) → Option Stem → V → (ℕ → ℕ) → ℕ
      count_from best (some (j, p)) stem value more = more (max best (j + 1))
      count_from best none (some stem) value more = leading value
      count_from best none none value more = more best

      -- The loop of `expert_count`; `leading` is `shape[0]`.
      unfoldable pub count_experts : List (KeyName × V) → ℕ → ℕ
      count_experts [] best = best
      count_experts ((key, value) ∷ more) best =
          count_from best (expert_key key) (stacked_key key) value (count_experts more)

      unfoldable pub expert_count : List (KeyName × V) → ℕ
      expert_count state = count_experts state 0

  -- `file_has_expert_tensors` of a path, where a file that cannot be read has none
  abbrev has_of : Result BankError (Header KeyName × ℕ) → Bool
  has_of (ok (header, data_start)) = has_expert_tensors header.tensors
  has_of (err e) = false

  unfoldable pub file_has_expert_tensors : List ℕ → Bool
  file_has_expert_tensors file = has_of (parse_header file)

  abbrev pub scan_layer :
      Option (BankFile × List ℕ) → Result BankError (Option (BankFile × LayerIndex))
  scan_layer none = ok none
  scan_layer (some (name, file)) = entered name (index_safetensors file)

  module _ (banks layers : ℕ → Option (List ℕ)) where
    -- The loop of `build`, over `n` layers from `i` on.
    unfoldable pub build_from :
        ℕ
        → ℕ
        → (ℕ → Option (BankFile × LayerIndex))
        → Result BankError (ℕ → Option (BankFile × LayerIndex))
    build_from i zero built = ok built
    build_from i (suc n) built =
        scan_layer (source (banks i) (layers i)) >>= λ here. build_from (suc i) n (put built i here)

    unfoldable pub build : ℕ → Result BankError (ℕ → Option (BankFile × LayerIndex))
    build num_layers = build_from 0 num_layers (λ i. none)
