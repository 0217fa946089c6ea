-- ===== src/Routing.antt =====
-- `RoutingHistory` of src/swlp/core/moe_policy.py. A `frozenset` of expert ids is its increasing list.
pub mod Predicted
use swlp.Prelude.{
  ℕ, zero, suc, ◌+◌, ◌-◌, max, Bool, true, false, ◌&&◌, ◌||◌, List, [], ◌∷◌, ◌++◌, ◌==◌, ltb,
  if◌then◌else◌, put, length, take, drop,
}

pub record RoutingHistory : Type 0 where
  pub window : ℕ
  -- the deques, the oldest observation first
  pub layers : ℕ → List (List ℕ)
  pub last : ℕ → List ℕ

unfoldable pub new_history : ℕ → RoutingHistory
new_history window = record { window = max 1 window; layers = λ l. []; last = λ l. [] }

abbrev pub has_id : ℕ → List ℕ → Bool
has_id t [] = false
has_id t (u ∷ us) = u == t || has_id t us

abbrev pub insert_id : ℕ → List ℕ → List ℕ
insert_id x [] = x ∷ []
insert_id x (y ∷ ys) =
    let rest = insert_id x ys in if ltb x y then x ∷ y ∷ ys else if y == x then y ∷ ys else y ∷ rest

-- `frozenset(...)`
abbrev pub id_set : List ℕ → List ℕ
id_set [] = []
id_set (x ∷ xs) = insert_id x (id_set xs)

-- `append` of a deque with `maxlen`.
abbrev pub pushed : ℕ → List (List ℕ) → List ℕ → List (List ℕ)
pushed window dq ids = let all = dq ++ ids ∷ [] in drop (length all - window) all

unfoldable pub record_ids : RoutingHistory → ℕ → List ℕ → RoutingHistory
record_ids h layer expert_ids =
    let ids = id_set expert_ids in
    record h {
      layers = put h.layers layer (pushed h.window (h.layers layer) ids);
      last = put h.last layer ids;
    }

-- How many observations have the id, and the age of the newest that has it, from `age` on.
abbrev pub count_of : ℕ → List (List ℕ) → ℕ
count_of e [] = 0
count_of e (ids ∷ older) = (if has_id e ids then 1 else 0) + count_of e older

abbrev pub last_seen : ℕ → ℕ → List (List ℕ) → ℕ
last_seen e age [] = age
last_seen e age (ids ∷ older) = if has_id e ids then age else last_seen e (age + 1) older

-- `(-counts[e], last_seen[e], e)`, compared; `newest` are the observations, the newest first.
abbrev pub ranks_before : List (List ℕ) → ℕ → ℕ → Bool
ranks_before newest a b =
    ltb (count_of b newest) (count_of a newest)
    || (count_of a newest == count_of b newest
        && (ltb (last_seen a 0 newest) (last_seen b 0 newest)
            || (last_seen a 0 newest == last_seen b 0 newest && ltb a b)))

abbrev pub insert_ranked : List (List ℕ) → ℕ → List ℕ → List ℕ
insert_ranked newest e [] = e ∷ []
insert_ranked newest e (x ∷ xs) =
    let rest = insert_ranked newest e xs in if ranks_before newest e x then e ∷ x ∷ xs else x ∷ rest

abbrev pub ranked : List (List ℕ) → List ℕ → List ℕ
ranked newest [] = []
ranked newest (e ∷ es) = insert_ranked newest e (ranked newest es)

abbrev pub reversed : List (List ℕ) → List (List ℕ) → List (List ℕ)
reversed [] acc = acc
reversed (x ∷ xs) acc = reversed xs (x ∷ acc)

-- The keys of `counts`.
abbrev pub seen_ids : List (List ℕ) → List ℕ
seen_ids [] = []
seen_ids (ids ∷ older) = ids ++ seen_ids older

-- `dict.fromkeys`: the first occurrence of every id, of those that `seen` does not have.
abbrev pub first_keys : List ℕ → List ℕ → List ℕ
first_keys seen [] = []
first_keys seen (x ∷ xs) =
    let skip = first_keys seen xs in
    let keep = first_keys (x ∷ seen) xs in if has_id x seen then skip else x ∷ keep

abbrev pub predict_from : List ℕ → List (List ℕ) → ℕ → List ℕ
predict_from last [] n = []
predict_from last (ids ∷ older) n =
    let newest = reversed (ids ∷ older) [] in
    take n (first_keys [] (last ++ ranked newest (id_set (seen_ids newest))))

unfoldable pub predict : RoutingHistory → ℕ → ℕ → List ℕ
predict h layer n = if n == 0 then [] else predict_from (h.last layer) (h.layers layer) n

unfoldable pub reset_history : RoutingHistory → RoutingHistory
reset_history h = record h { layers = λ l. []; last = λ l. [] }
