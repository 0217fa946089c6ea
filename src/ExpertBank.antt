-- ===== src/ExpertBank.antt =====
-- src/swlp/model/expert_bank.py: the map of the byte ranges of the experts of a layer, built from the
-- header of a safetensors file, and the split of a layer into its dense part and its bank.
pub mod Own
pub mod Index
pub mod Read
pub mod Ranges
pub mod Stacked
pub mod Rows
pub mod Whole
pub mod Divided
pub mod Built
use swlp.Prelude.{
  ℕ, zero, suc, ◌+◌, ◌*◌, ◌/◌, ◌-◌, max, Bool, true, false, Option, none, some, List, [], ◌∷◌,
  Result, ok, err, ◌>>=◌, ◌==◌, ltb, if◌then◌else◌, length,
}

pub data Slot : Type 0 where
  gate up down : Slot

-- A safetensors dtype, by its string.
pub data Dtype : Type 0 where
  f16 bf16 f32 f64 : Dtype
  other_dtype : ℕ → Dtype

-- The last part of the key of an expert's own tensor, and of a stacked tensor (`_STACKED_STEMS`).
pub data Param : Type 0 where
  gate_proj up_proj down_proj w1 w2 w3 : Param

pub data Stem : Type 0 where
  stem_gate_up stem_down stem_w1 stem_w2 stem_w3 : Stem

pub data BankError : Type 0 where
  unsupported_dtype gate_up_without_down incomplete_stacked quantized_bank : BankError
  incomplete_expert : ℕ → BankError
  short_pread : ℕ → ℕ → BankError
  -- `struct.error`, `ValueError` and `KeyError`, which are no `ExpertBankError`
  bad_header bad_shape no_key bad_tensor : BankError

-- `except ExpertBankError`
abbrev pub is_bank_error : BankError → Bool
is_bank_error unsupported_dtype = true
is_bank_error gate_up_without_down = true
is_bank_error incomplete_stacked = true
is_bank_error quantized_bank = true
is_bank_error (incomplete_expert j) = true
is_bank_error (short_pread offset remaining) = true
is_bank_error bad_header = false
is_bank_error bad_shape = false
is_bank_error no_key = false
is_bank_error bad_tensor = false

-- The value of a header's key.
pub record Entry : Type 0 where
  pub dtype : Dtype
  pub shape : List ℕ
  pub begin : ℕ
  pub stop : ℕ

pub record ExpertSlice : Type 0 where
  pub slot : Slot
  pub offset : ℕ
  pub nbytes : ℕ
  pub dtype : Dtype
  pub rows : ℕ
  pub cols : ℕ

pub record LayerIndex : Type 0 where
  pub num_experts : ℕ
  pub slices : List (List ExpertSlice)
  pub dtype : Dtype
  pub hidden : ℕ
  pub intermediate : ℕ

abbrev total_bytes : List ExpertSlice → ℕ
total_bytes [] = 0
total_bytes (s ∷ ss) = s.nbytes + total_bytes ss

unfoldable pub expert_bytes : List (List ExpertSlice) → ℕ
expert_bytes [] = 0
expert_bytes (first ∷ more) = total_bytes first

-- `_ITEMSIZE`
abbrev pub itemsize : Dtype → Option ℕ
itemsize f16 = some 2
itemsize bf16 = some 2
itemsize f32 = some 4
itemsize f64 = some 8
itemsize (other_dtype n) = none

abbrev pub or_unsupported : Option ℕ → Result BankError ℕ
or_unsupported none = err unsupported_dtype
or_unsupported (some size) = ok size

-- `_check_dtype`, with the size that is looked up next.
abbrev pub check_dtype : Dtype → Result BankError ℕ
check_dtype dtype = or_unsupported (itemsize dtype)

abbrev pub triple : List ℕ → Result BankError (ℕ × ℕ × ℕ)
triple [] = err bad_shape
triple (a ∷ []) = err bad_shape
triple (a ∷ b ∷ []) = err bad_shape
triple (a ∷ b ∷ c ∷ []) = ok (a, b, c)
triple (a ∷ b ∷ c ∷ d ∷ more) = err bad_shape

abbrev pair : List ℕ → Result BankError (ℕ × ℕ)
pair [] = err bad_shape
pair (a ∷ []) = err bad_shape
pair (a ∷ b ∷ []) = ok (a, b)
pair (a ∷ b ∷ c ∷ more) = err bad_shape

-- A list comprehension over `range(n)`, from `start` on.
abbrev pub each {ℓ} : {A : Type ℓ} → ℕ → ℕ → (ℕ → A) → List A
each start zero f = []
each start (suc n) f = f start ∷ each (suc start) n f

-- The slots of expert `j` in the fused pair `gate_up_proj`, `down_proj`.
unfoldable pub fused_expert : Dtype → ℕ → ℕ → ℕ → ℕ → ℕ → ℕ → List ExpertSlice
fused_expert dt size rows2i hidden gu0 dn0 j =
    let intermediate = rows2i / 2 in
    let gu_step = rows2i * hidden * size in
    let down_step = hidden * intermediate * size in
    let base = gu0 + j * gu_step in
    let half = gu_step / 2 in
    record {
      slot = gate;
      offset = base;
      nbytes = half;
      dtype = dt;
      rows = intermediate;
      cols = hidden;
    }
    ∷ record {
      slot = up;
      offset = base + half;
      nbytes = half;
      dtype = dt;
      rows = intermediate;
      cols = hidden;
    }
    ∷ record {
      slot = down;
      offset = dn0 + j * down_step;
      nbytes = down_step;
      dtype = dt;
      rows = hidden;
      cols = intermediate;
    }
    ∷ []

-- A slot of expert `j` in a stack of `rows` times `cols` values at `base`.
abbrev pub stack_slot : Dtype → ℕ → ℕ → ℕ → ℕ → Slot → ℕ → ExpertSlice
stack_slot dt size rows cols j slot base = record {
  slot = slot;
  offset = base + j * (rows * cols * size);
  nbytes = rows * cols * size;
  dtype = dt;
  rows = rows;
  cols = cols;
}

-- The slots of expert `j` in the three stacks `w1`, `w3`, `w2`.
unfoldable pub split_expert : Dtype → ℕ → ℕ → ℕ → ℕ → ℕ → ℕ → ℕ → List ExpertSlice
split_expert dt size rows cols gate0 up0 down0 j =
    stack_slot dt size rows cols j gate gate0
    ∷ stack_slot dt size rows cols j up up0
    ∷ stack_slot dt size rows cols j down down0
    ∷ []

unfoldable pub fused_slices : ℕ → Entry → Entry → Result BankError LayerIndex
fused_slices data_start gu dn = check_dtype gu.dtype >>= λ size. triple gu.shape >>= λ dims.
    ok (record {
      num_experts = dims.0;
      slices = each 0 dims.0 (
          fused_expert gu.dtype size dims.1 dims.2 (data_start + gu.begin) (data_start + dn.begin));
      dtype = gu.dtype;
      hidden = dims.2;
      intermediate = dims.1 / 2;
    })

unfoldable pub split_slices : ℕ → Entry → Entry → Entry → Result BankError LayerIndex
split_slices data_start e1 e2 e3 = check_dtype e1.dtype >>= λ size. triple e1.shape >>= λ dims.
    ok (record {
      num_experts = dims.0;
      slices = each 0 dims.0 (
          split_expert e1.dtype size dims.1 dims.2 (data_start + e1.begin) (data_start + e3.begin)
            (data_start + e2.begin));
      dtype = e1.dtype;
      hidden = dims.1;
      intermediate = dims.2;
    })

-- `entries` of `_stacked_slices`: the latest entry of a stem.
abbrev pub same_stem : Stem → Stem → Bool
same_stem a b = stem_rank a == stem_rank b
  where
    stem_rank : Stem → ℕ
    stem_rank stem_gate_up = 0
    stem_rank stem_down = 1
    stem_rank stem_w1 = 2
    stem_rank stem_w2 = 3
    stem_rank stem_w3 = 4

abbrev pub stem_entry : List (Stem × Entry) → Stem → Option Entry
stem_entry [] stem = none
stem_entry ((s, entry) ∷ more) stem =
    let rest = stem_entry more stem in if same_stem s stem then some entry else rest

abbrev pub fused_pair : ℕ → Entry → Option Entry → Result BankError LayerIndex
fused_pair data_start gu none = err gate_up_without_down
fused_pair data_start gu (some dn) = fused_slices data_start gu dn

abbrev pub three_stacks :
    ℕ → Option Entry → Option Entry → Option Entry → Result BankError LayerIndex
three_stacks data_start (some e1) (some e2) (some e3) = split_slices data_start e1 e2 e3
three_stacks data_start (some e1) (some e2) none = err incomplete_stacked
three_stacks data_start (some e1) none e3 = err incomplete_stacked
three_stacks data_start none e2 e3 = err incomplete_stacked

abbrev pub stacked_from : ℕ → List (Stem × Entry) → Option Entry → Result BankError LayerIndex
stacked_from data_start entries (some gu) = fused_pair data_start gu (stem_entry entries stem_down)
stacked_from data_start entries none =
    three_stacks data_start (stem_entry entries stem_w1) (stem_entry entries stem_w2)
      (stem_entry entries stem_w3)

unfoldable pub stacked_slices : ℕ → List (Stem × Entry) → Result BankError LayerIndex
stacked_slices data_start entries =
    stacked_from data_start entries (stem_entry entries stem_gate_up)
