-- ===== src/ExpertBank/Own.antt =====
-- The layout of src/swlp/model/expert_bank.py in which each expert has its own tensors: the second half
-- of `_index_safetensors`.
use swlp.Prelude.{
  ℕ, zero, suc, ◌+◌, ◌-◌, max, Option, none, some, List, [], ◌∷◌, Result, ok, err, ◌>>=◌, ◌==◌, ltb,
  if◌then◌else◌, length,
}
use swlp.ExpertBank.{
  Slot, gate, up, down, Param, gate_proj, up_proj, down_proj, w1, w2, w3, BankError,
  incomplete_expert, no_key, Entry, ExpertSlice, LayerIndex, check_dtype, pair,
}

-- `_PER_EXPERT_PARAM_TO_SLOT`
abbrev pub param_slot : Param → Slot
param_slot gate_proj = gate
param_slot up_proj = up
param_slot down_proj = down
param_slot w1 = gate
param_slot w2 = down
param_slot w3 = up

abbrev param_rank : Param → ℕ
param_rank gate_proj = 0
param_rank up_proj = 1
param_rank down_proj = 2
param_rank w1 = 3
param_rank w2 = 4
param_rank w3 = 5

-- `params[param] = entry`
abbrev pub set_param : Param → Entry → List (Param × Entry) → List (Param × Entry)
set_param p e [] = (p, e) ∷ []
set_param p e ((q, old) ∷ more) =
    let rest = set_param p e more in
    if param_rank q == param_rank p then (q, e) ∷ more else (q, old) ∷ rest

-- `per_expert.setdefault(j, {})[param] = entry`
abbrev pub set_expert :
    ℕ → Param → Entry → List (ℕ × List (Param × Entry)) → List (ℕ × List (Param × Entry))
set_expert j p e [] = (j, (p, e) ∷ []) ∷ []
set_expert j p e ((k, params) ∷ more) =
    let rest = set_expert j p e more in
    if k == j then (k, set_param p e params) ∷ more else (k, params) ∷ rest

abbrev pub params_of : ℕ → List (ℕ × List (Param × Entry)) → Option (List (Param × Entry))
params_of j [] = none
params_of j ((k, params) ∷ more) =
    let rest = params_of j more in if k == j then some params else rest

abbrev pub most : List (ℕ × List (Param × Entry)) → ℕ
most [] = 0
most ((k, params) ∷ more) = max k (most more)

-- One slot of an expert with its own tensors.
unfoldable pub own_slice : ℕ → Param → Entry → Result BankError ExpertSlice
own_slice data_start p entry = pair entry.shape >>= λ dims. check_dtype entry.dtype >>= λ size.
    ok (record {
      slot = param_slot p;
      offset = data_start + entry.begin;
      nbytes = entry.stop - entry.begin;
      dtype = entry.dtype;
      rows = dims.0;
      cols = dims.1;
    })

-- The loop over `params.items()`.
unfoldable pub own_slices : ℕ → List (Param × Entry) → Result BankError (List ExpertSlice)
own_slices data_start [] = ok []
own_slices data_start ((p, entry) ∷ more) =
    own_slice data_start p entry >>= λ s. own_slices data_start more >>= λ ss. ok (s ∷ ss)

abbrev complete : ℕ → Option (List (Param × Entry)) → Result BankError (List (Param × Entry))
complete j none = err (incomplete_expert j)
complete j (some params) = if ltb (length params) 3 then err (incomplete_expert j) else ok params

-- The loop over the experts, `n` of them from `j` on.
unfoldable pub own_experts :
    ℕ → List (ℕ × List (Param × Entry)) → ℕ → ℕ → Result BankError (List (List ExpertSlice))
own_experts data_start per_expert j zero = ok []
own_experts data_start per_expert j (suc n) = complete j (params_of j per_expert) >>= λ params.
    own_slices data_start params >>= λ here.
    own_experts data_start per_expert (suc j) n >>= λ later. ok (here ∷ later)

-- `(intermediate, hidden)`: the rows and columns of the last gate that was seen.
abbrev last_gate : ℕ × ℕ → List ExpertSlice → ℕ × ℕ
last_gate seen [] = seen
last_gate seen (s ∷ ss) = last_gate (seen_slot s.slot s seen) ss
  where
    seen_slot : Slot → ExpertSlice → ℕ × ℕ → ℕ × ℕ
    seen_slot gate s before = (s.rows, s.cols)
    seen_slot up s before = before
    seen_slot down s before = before

abbrev last_gates : ℕ × ℕ → List (List ExpertSlice) → ℕ × ℕ
last_gates seen [] = seen
last_gates seen (ss ∷ more) = last_gates (last_gate seen ss) more

abbrev param_entry : Param → List (Param × Entry) → Option Entry
param_entry p [] = none
param_entry p ((q, entry) ∷ more) =
    let rest = param_entry p more in if param_rank q == param_rank p then some entry else rest

-- `first[probe_key]`
abbrev probed : Option Entry → Option Entry → Result BankError Entry
probed (some entry) other = ok entry
probed none (some entry) = ok entry
probed none none = err no_key

unfoldable pub own_index :
    ℕ → List (Param × Entry) → List (ℕ × List (Param × Entry)) → Result BankError LayerIndex
own_index data_start first per_expert =
    probed (param_entry gate_proj first) (param_entry w1 first) >>= λ probe.
    check_dtype probe.dtype >>= λ size.
    own_experts data_start per_expert 0 (most per_expert + 1) >>= λ slices. ok (record {
      num_experts = most per_expert + 1;
      slices = slices;
      dtype = probe.dtype;
      hidden = (last_gates (0, 0) slices).1;
      intermediate = (last_gates (0, 0) slices).0;
    })
