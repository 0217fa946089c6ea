-- ===== src/Rollback.antt =====
-- `rollback_hybrid_cache` of src/swlp/runner/hybrid_rollback.py, for caches with attention layers and
-- linear-attention layers. `chunk` and `recurrent` are the final states of the two kernels of
-- transformers; a layer is given by its positions, and a sweep by what it feeds to every layer.
pub mod Rewound
use swlp.Prelude.{
  ℕ, zero, suc, ◌+◌, ◌-◌, Bool, true, false, Option, none, some, List, [], ◌∷◌, ◌++◌, Result, ok,
  err, ◌==◌, leb, if◌then◌else◌, length, take, drop,
}

pub data RollbackError : Type 0 where
  keep_out_of_range not_recorded_whole : RollbackError

-- `P` are key/value positions, `X` columns of the convolution, `R` recurrent states, `D` positions of
-- the inputs of the delta rule.
pub data Layer (P X R : Type 0) : Type 0 where
  attention : List P → Layer P X R
  linear : List X → R → Layer P X R

pub data Fed (P X D : Type 0) : Type 0 where
  to_attention : List P → Fed P X D
  to_linear : List X → List D → Fed P X D

-- An entry of `conv_inputs` with its entry of `delta_calls`.
pub record Recorded (X R D : Type 0) : Type 0 where
  pub conv_input : List X
  pub delta_inputs : List D
  pub initial_state : R

module _ {P X R D : Type 0} (chunk recurrent : R → List D → R) where
  -- What a sweep of transformers does to a layer, as the module documents it: the convolution reads its
  -- old columns and the new ones, and keeps the last.
  abbrev pub swept : Layer P X R → Fed P X D → Layer P X R
  swept (attention kv) (to_attention new) = attention (kv ++ new)
  swept (attention kv) (to_linear xs ds) = attention kv
  swept (linear conv state) (to_attention new) = linear conv state
  swept (linear conv state) (to_linear xs ds) =
      linear (drop (length xs) (conv ++ xs)) (chunk state ds)

  abbrev pub sweep_layers : List (Layer P X R) → List (Fed P X D) → List (Layer P X R)
  sweep_layers [] inputs = []
  sweep_layers (l ∷ ls) [] = l ∷ ls
  sweep_layers (l ∷ ls) (i ∷ inputs) = swept l i ∷ sweep_layers ls inputs

  -- `conv_recorder` and `chunk_recorder`, in layer order.
  abbrev pub recorded : Layer P X R → Fed P X D → List (Recorded X R D) → List (Recorded X R D)
  recorded (attention kv) input rest = rest
  recorded (linear conv state) (to_attention new) rest = rest
  recorded (linear conv state) (to_linear xs ds) rest =
      record { conv_input = conv ++ xs; delta_inputs = ds; initial_state = state } ∷ rest

  abbrev pub record_sweep : List (Layer P X R) → List (Fed P X D) → List (Recorded X R D)
  record_sweep [] inputs = []
  record_sweep (l ∷ ls) [] = []
  record_sweep (l ∷ ls) (i ∷ inputs) = recorded l i (record_sweep ls inputs)

  abbrev pub linear_count : List (Layer P X R) → ℕ
  linear_count [] = 0
  linear_count (attention kv ∷ ls) = linear_count ls
  linear_count (linear conv state ∷ ls) = suc (linear_count ls)

  -- The two loops at the end: `crop(-remove)`, and the states computed anew.
  abbrev pub rewound : ℕ → ℕ → List (Layer P X R) → List (Recorded X R D) → List (Layer P X R)
  rewound keep remove [] records = []
  rewound keep remove (attention kv ∷ ls) records =
      attention (take (length kv - remove) kv) ∷ rewound keep remove ls records
  rewound keep remove (linear conv state ∷ ls) [] = linear conv state ∷ ls
  rewound keep remove (linear conv state ∷ ls) (r ∷ records) =
      linear (take (length conv) (drop keep r.conv_input))
        (recurrent r.initial_state (take keep r.delta_inputs))
      ∷ rewound keep remove ls records

  unfoldable pub rollback_hybrid_cache :
      List (Layer P X R) → List (Recorded X R D) → ℕ → ℕ → Result RollbackError (List (Layer P X R))
  rollback_hybrid_cache layers records keep fed =
      let remove = fed - keep in
      if remove == 0
      then ok layers
      else if keep == 0
      then err keep_out_of_range
      else if length records == linear_count layers
      then ok (rewound keep remove layers records)
      else err not_recorded_whole
