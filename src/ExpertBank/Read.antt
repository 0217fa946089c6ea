-- ===== src/ExpertBank/Read.antt =====
-- `_read_range` and `read_expert` of src/swlp/model/expert_bank.py. `pread` gives the bytes that the
-- `call`-th `os.pread` of a range returns for an offset and a length.
use swlp.Prelude.{
  ℕ, zero, suc, ◌+◌, ◌-◌, Bool, true, false, Option, none, some, List, [], ◌∷◌, ◌++◌, Result, ok,
  err, ◌==◌, if◌then◌else◌, length, get_elem?,
}
use swlp.ExpertBank.{
  Slot, gate, up, down, Dtype, BankError, short_pread, no_key, bad_tensor, ExpertSlice, LayerIndex,
}

abbrev pub with_data :
    List ℕ → Option (Result BankError (List ℕ)) → Option (Result BankError (List ℕ))
with_data got none = none
with_data got (some (ok more)) = some (ok (got ++ more))
with_data got (some (err e)) = some (err e)

-- The loop of `_read_range` on fuel; `none` means that the fuel ran out.
module _ (pread : ℕ → ℕ → ℕ → List ℕ) where
  unfoldable pub read_from : ℕ → ℕ → ℕ → ℕ → Option (Result BankError (List ℕ))
  read_from zero call offset remaining = if remaining == 0 then some (ok []) else none
  read_from (suc fuel) call offset remaining =
      let got = pread call offset remaining in
      let rest = read_from fuel (suc call) (offset + length got) (remaining - length got) in
      if remaining == 0
      then some (ok [])
      else if length got == 0
      then some (err (short_pread offset remaining))
      else with_data got rest

  -- Every call but the last returns at least one byte, so `nbytes` of them are enough.
  unfoldable pub read_range : ℕ → ℕ → ℕ → Option (Result BankError (List ℕ))
  read_range call offset nbytes = read_from nbytes call offset nbytes

-- `torch.frombuffer(raw, dtype).reshape(rows, cols)`; `none` is the error of either.
pub record Torch : Type 1 where
  pub Tensor : Type 0
  pub frombuffer : Dtype → List ℕ → ℕ → ℕ → Option Tensor

abbrev same_slot : Slot → Slot → Bool
same_slot gate gate = true
same_slot gate up = false
same_slot gate down = false
same_slot up gate = false
same_slot up up = true
same_slot up down = false
same_slot down gate = false
same_slot down up = false
same_slot down down = true

-- `out[slot] = tensor`
abbrev pub set_slot {ℓ} : {A : Type ℓ} → Slot → A → List (Slot × A) → List (Slot × A)
set_slot slot t [] = (slot, t) ∷ []
set_slot slot t ((s, old) ∷ more) =
    let rest = set_slot slot t more in
    if same_slot s slot then (slot, t) ∷ more else (s, old) ∷ rest

-- `preads` gives the `pread` of each slice of the loop.
module _ (torch : Torch) (preads : ℕ → ℕ → ℕ → ℕ → List ℕ) where
  open torch use {Tensor, frombuffer}

  abbrev or_bad_tensor : Option Tensor → Result BankError Tensor
  or_bad_tensor none = err bad_tensor
  or_bad_tensor (some t) = ok t

  abbrev pub viewed : Dtype → ExpertSlice → List ℕ → Result BankError Tensor
  viewed dt s raw = or_bad_tensor (frombuffer dt raw s.rows s.cols)

  abbrev pub Out : Type 0
  Out = Option (Result BankError (List (Slot × Tensor)))

  abbrev pub placed : (Tensor → Out) → Result BankError Tensor → Out
  placed next (err e) = some (err e)
  placed next (ok t) = next t

  abbrev pub with_range :
      Dtype → ExpertSlice → (Tensor → Out) → Option (Result BankError (List ℕ)) → Out
  with_range dt s next none = none
  with_range dt s next (some (err e)) = some (err e)
  with_range dt s next (some (ok raw)) = placed next (viewed dt s raw)

  -- The loop over the slices, the `i`-th of the expert first. Each slice is viewed with the dtype of
  -- the layer.
  unfoldable pub read_slices : Dtype → ℕ → List ExpertSlice → List (Slot × Tensor) → Out
  read_slices dt i [] out = some (ok out)
  read_slices dt i (s ∷ ss) out =
      with_range dt s (λ t. read_slices dt (suc i) ss (set_slot s.slot t out))
        (read_range (preads i) 0 s.offset s.nbytes)

  abbrev pub of_slices : Dtype → Option (List ExpertSlice) → Out
  of_slices dt none = some (err no_key)
  of_slices dt (some ss) = read_slices dt 0 ss []

  -- `layer_idx.slices[expert]` out of range is an `IndexError`.
  unfoldable pub read_expert : LayerIndex → ℕ → Out
  read_expert index expert = of_slices index.dtype (get_elem? index.slices expert)
