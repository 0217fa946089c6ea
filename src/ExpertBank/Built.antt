-- ===== src/ExpertBank/Built.antt =====
-- `ExpertIndex.build` of src/swlp/model/expert_bank.py, against the indexing of one file.
use swlp.Prelude.{
  ℕ, zero, suc, ◌+◌, ◌≤◌, ◌<◌, true, false, Option, none, some, List, ◌≡◌, refl, sym, subst, ◌∙◌,
  ◌⊎◌, inl, inr, Result, ok, err, ◌>>=◌, arith, put, put_self, put_ne, ℕ_discrete, if◌then◌else◌,
}
use swlp.ExpertBank.{
  BankError, unsupported_dtype, gate_up_without_down, incomplete_stacked, quantized_bank,
  incomplete_expert, short_pread, bad_header, bad_shape, no_key, bad_tensor, is_bank_error,
  LayerIndex,
}
use swlp.ExpertBank.Index.{
  Keys, BankFile, bank_file, layer_file, source, index_safetensors, entered, scan_layer, build_from,
  build,
}

-- The errors that are an `ExpertBankError`.
pub data IsOwn : BankError → Type 0 where
  own_dtype : IsOwn unsupported_dtype
  own_pair : IsOwn gate_up_without_down
  own_stacked : IsOwn incomplete_stacked
  own_quantized : IsOwn quantized_bank
  own_expert : (j : ℕ) → IsOwn (incomplete_expert j)
  own_pread : (offset remaining : ℕ) → IsOwn (short_pread offset remaining)

-- The others: a header that is not one, a shape of other dimensions, a missing key or tensor.
pub data IsOther : BankError → Type 0 where
  other_header : IsOther bad_header
  other_shape : IsOther bad_shape
  other_key : IsOther no_key
  other_tensor : IsOther bad_tensor

IsOwn-or-IsOther :
    (e : BankError) → ((is_bank_error e ≡ true) × IsOwn e) ⊎ ((is_bank_error e ≡ false) × IsOther e)
IsOwn-or-IsOther unsupported_dtype = inl (refl, own_dtype)
IsOwn-or-IsOther gate_up_without_down = inl (refl, own_pair)
IsOwn-or-IsOther incomplete_stacked = inl (refl, own_stacked)
IsOwn-or-IsOther quantized_bank = inl (refl, own_quantized)
IsOwn-or-IsOther (incomplete_expert j) = inl (refl, own_expert j)
IsOwn-or-IsOther (short_pread offset remaining) = inl (refl, own_pread offset remaining)
IsOwn-or-IsOther bad_header = inr (refl, other_header)
IsOwn-or-IsOther bad_shape = inr (refl, other_shape)
IsOwn-or-IsOther no_key = inr (refl, other_key)
IsOwn-or-IsOther bad_tensor = inr (refl, other_tensor)

-- The entry of a layer whose file is indexed with the result `r`: the file's index, or none where the
-- file has no expert tensors or another error than an `ExpertBankError` is raised.
abbrev pub FileEntry :
    BankFile → Result BankError (Option LayerIndex) → Option (BankFile × LayerIndex) → Type 0
FileEntry name (ok (some index)) here = here ≡ some (name, index)
FileEntry name (ok none) here = here ≡ none
FileEntry name (err e) here = IsOther e × (here ≡ none)

module _ (keys : Keys) (banks layers : ℕ → Option (List ℕ)) where
  -- A layer with a bank is indexed from it, whether it has a file of its own or not; a layer without a
  -- bank from its own file; a layer without both has no entry.
  abbrev LayerEntry : Option (List ℕ) → Option (List ℕ) → Option (BankFile × LayerIndex) → Type 0
  LayerEntry (some bank) layer here = FileEntry bank_file (index_safetensors keys bank) here
  LayerEntry none (some layer) here = FileEntry layer_file (index_safetensors keys layer) here
  LayerEntry none none here = here ≡ none

  -- The file of a layer that is indexed, its bank if it has one.
  abbrev IsFile : Option (List ℕ) → Option (List ℕ) → List ℕ → Type 0
  IsFile (some bank) layer file = bank ≡ file
  IsFile none layer file = layer ≡ some file

  -- The indexing of the layer's file raises `e`, an `ExpertBankError`.
  abbrev Raises : ℕ → BankError → Type 0
  Raises j e =
      (file : List ℕ) × IsFile (banks j) (layers j) file
      × (index_safetensors keys file ≡ err e)
      × IsOwn e

  -- Of `n` layers from `i` on: each has its entry and the others keep theirs, or the first layer whose
  -- file raises an `ExpertBankError` ends the loop with it.
  abbrev pub IsBuilt :
      ℕ
      → ℕ
      → (ℕ → Option (BankFile × LayerIndex))
      → Result BankError (ℕ → Option (BankFile × LayerIndex))
      → Type 0
  IsBuilt i n built (ok f) =
      ((j : ℕ) → i ≤ j → j < i + n → LayerEntry (banks j) (layers j) (f j))
      × ((j : ℕ) → (j < i) ⊎ (i + n ≤ j) → f j ≡ built j)
  IsBuilt i n built (err e) =
      (j : ℕ) × (i ≤ j)
      × (j < i + n)
      × Raises j e
      × ((k : ℕ)
          → i ≤ k
          → k < j
          → (here : Option (BankFile × LayerIndex)) × LayerEntry (banks k) (layers k) here)

  -- The scan of a layer's file gives its entry, or raises an `ExpertBankError`.
  abbrev FileScan :
      BankFile
      → Result BankError (Option LayerIndex)
      → Result BankError (Option (BankFile × LayerIndex))
      → Type 0
  FileScan name r (ok here) = FileEntry name r here
  FileScan name r (err e) = (r ≡ err e) × IsOwn e

  entered-FileScan :
      (name : BankFile) (r : Result BankError (Option LayerIndex))
      → FileScan name r (entered name r)
  entered-FileScan name (ok (some index)) = refl
  entered-FileScan name (ok none) = refl
  entered-FileScan name (err e) = elim (IsOwn-or-IsOther e) [
    | inl (own, is_own) ↦
        subst (λ b. FileScan name (err e) (if b then err e else ok none)) (sym own) (refl, is_own)
    | inr (other, is_other) ↦
        subst (λ b. FileScan name (err e) (if b then err e else ok none)) (sym other)
          (is_other, refl)
  ]

  abbrev Scans :
      Option (List ℕ) → Option (List ℕ) → Result BankError (Option (BankFile × LayerIndex)) → Type 0
  Scans bank layer (ok here) = LayerEntry bank layer here
  Scans bank layer (err e) =
      (file : List ℕ) × IsFile bank layer file × (index_safetensors keys file ≡ err e) × IsOwn e

  FileScan-Scans :
      (bank layer : Option (List ℕ)) (name : BankFile) (file : List ℕ)
      (r : Result BankError (Option (BankFile × LayerIndex)))
      → IsFile bank layer file
      → ((here : Option (BankFile × LayerIndex))
          → FileEntry name (index_safetensors keys file) here
          → LayerEntry bank layer here)
      → FileScan name (index_safetensors keys file) r
      → Scans bank layer r
  FileScan-Scans bank layer name file (ok here) is_file entry h = entry here h
  FileScan-Scans bank layer name file (err e) is_file entry (raised, own) =
      (file, is_file, raised, own)

  scan_layer-Scans :
      (bank layer : Option (List ℕ)) → Scans bank layer (scan_layer keys (source bank layer))
  scan_layer-Scans (some bank) layer =
      FileScan-Scans (some bank) layer bank_file bank _ refl (λ here h. h)
        (entered-FileScan bank_file (index_safetensors keys bank))
  scan_layer-Scans none (some layer) =
      FileScan-Scans none (some layer) layer_file layer _ refl (λ here h. h)
        (entered-FileScan layer_file (index_safetensors keys layer))
  scan_layer-Scans none none = refl

  IsBuilt-next :
      (i n : ℕ) (built : ℕ → Option (BankFile × LayerIndex)) (here : Option (BankFile × LayerIndex))
      (r : Result BankError (ℕ → Option (BankFile × LayerIndex)))
      → LayerEntry (banks i) (layers i) here
      → IsBuilt (suc i) n (put built i here) r
      → IsBuilt i (suc n) built r
  IsBuilt-next i n built here (ok f) now (entries, keeps) = (
    λ j low high. elim (ℕ_discrete j i) [
      | yes same ↦
          let kept : f i ≡ here = keeps i (inl (omega arith)) ∙ put_self built i here in
          subst (λ k. LayerEntry (banks k) (layers k) (f k)) (sym same)
            (subst (LayerEntry (banks i) (layers i)) (sym kept) now)
      | no apart ↦ entries j (omega arith) (omega arith)
    ],
    λ j outside.
        keeps j (elim outside [ inl below ↦ inl (omega arith) | inr above ↦ inr (omega arith) ])
        ∙ put_ne built i here j
            (elim outside [ inl below ↦ λ same. omega arith | inr above ↦ λ same. omega arith ]),
  )
  IsBuilt-next i n built here (err e) now (j, low, high, raised, earlier) = (
    j,
    omega arith,
    omega arith,
    raised,
    λ k from before. elim (ℕ_discrete k i) [
      | yes same ↦ (here, subst (λ m. LayerEntry (banks m) (layers m) here) (sym same) now)
      | no apart ↦ earlier k (omega arith) before
    ],
  )

  build_from-IsBuilt :
      (i n : ℕ) (built : ℕ → Option (BankFile × LayerIndex))
      → IsBuilt i n built (build_from keys banks layers i n built)
  unfolding build_from
  build_from-IsBuilt i zero built = (λ j low high. absurd (omega arith), λ j outside. refl)
  build_from-IsBuilt i (suc n) built =
      step (scan_layer keys (source (banks i) (layers i))) (scan_layer-Scans (banks i) (layers i))
        (λ here. build_from-IsBuilt (suc i) n (put built i here))
    where
      step :
          (r : Result BankError (Option (BankFile × LayerIndex)))
          → Scans (banks i) (layers i) r
          → ((here : Option (BankFile × LayerIndex))
              → IsBuilt
                  (suc i)
                  n
                  (put built i here)
                  (build_from keys banks layers (suc i) n (put built i here)))
          → IsBuilt i
              (suc n)
              built
              (r >>= λ here. build_from keys banks layers (suc i) n (put built i here))
      step (ok here) e rest =
          IsBuilt-next i n built here (build_from keys banks layers (suc i) n (put built i here)) e
            (rest here)
      step (err x) e rest = (i, omega arith, omega arith, e, λ k from before. absurd (omega arith))

  -- For any files: each of the `num_layers` layers of the result of `build` has the index of its bank,
  -- or of its own file where it has no bank, and no entry where it has no file, where the file has no
  -- expert tensors, or where indexing it raises another error than an `ExpertBankError`; no other layer
  -- has an entry. Or `build` ends with the `ExpertBankError` of the first layer whose file raises one.
  -- No other error leaves `build`.
  pub build-IsBuilt :
      (num_layers : ℕ) → IsBuilt 0 num_layers (λ i. none) (build keys banks layers num_layers)
  unfolding build
  build-IsBuilt num_layers = build_from-IsBuilt 0 num_layers (λ i. none)
