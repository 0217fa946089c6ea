-- ===== src/ExpertBank/Divided.antt =====
-- `split_expert_tensors` of src/swlp/model/expert_bank.py, against the indexing of a header.
use swlp.Prelude.{
  ℕ, false, ◌||◌, Option, none, some, List, [], ◌∷◌, ◌≡◌, refl, sym, ap, ◌∙◌, ok, arith, if-all,
}
use swlp.ExpertBank.{Param, Stem, Entry}
use swlp.ExpertBank.Index.{
  Keys, Header, Found, indexed, index_header, no_tensors, note_key, collect, in_bank, is_expert,
  has_expert_tensors, split_expert_tensors, count_from, count_experts, expert_count,
}

module _ (keys : Keys) where
  open keys use {KeyName, expert_key, stacked_key}

  abbrev Parts : Type 0 → Type 0
  Parts V = List (KeyName × V) × List (KeyName × V)

  -- A header whose metadata name no quantisation.
  abbrev pub plain : List (KeyName × Entry) → Header KeyName
  plain tensors = record { quantized = false; tensors = tensors }

  -- A test value that `is_expert` gives decides what `note_key` does.
  note_dense :
      (m : Option (ℕ × Param)) (s : Option Stem) (entry : Entry) (found : Found)
      → in_bank keys m s ≡ false
      → note_key m s entry found ≡ found
  note_dense (some (j, p)) s entry found e = absurd (ground arith)
  note_dense none (some s) entry found e = absurd (ground arith)
  note_dense none none entry found e = refl

  collect_dense :
      (state : List (KeyName × Entry)) (found : Found)
      → collect keys (split_expert_tensors keys state).0 found ≡ found
  unfolding collect split_expert_tensors
  collect_dense [] found = refl
  collect_dense ((key, entry) ∷ more) found =
      let parts = split_expert_tensors keys more in
      if-all (λ (p : Parts Entry). collect keys p.0 found ≡ found) (is_expert keys key)
        (parts.0, (key, entry) ∷ parts.1) ((key, entry) ∷ parts.0, parts.1)
        (λ t. collect_dense more found)
        (λ f.
          ap (collect keys parts.0) (note_dense (expert_key key) (stacked_key key) entry found f)
          ∙ collect_dense more found)

  collect_experts :
      (state : List (KeyName × Entry)) (found : Found)
      → collect keys (split_expert_tensors keys state).1 found ≡ collect keys state found
  unfolding collect split_expert_tensors
  collect_experts [] found = refl
  collect_experts ((key, entry) ∷ more) found =
      let parts = split_expert_tensors keys more in
      let noted = note_key (expert_key key) (stacked_key key) entry found in
      if-all (λ (p : Parts Entry). collect keys p.1 found ≡ collect keys more noted)
        (is_expert keys key) (parts.0, (key, entry) ∷ parts.1) ((key, entry) ∷ parts.0, parts.1)
        (λ t. collect_experts more noted)
        (λ f.
          collect_experts more found
          ∙ ap (collect keys more)
              (sym (note_dense (expert_key key) (stacked_key key) entry found f)))

  has_expert_tensors_dense :
      (state : List (KeyName × Entry))
      → has_expert_tensors keys (split_expert_tensors keys state).0 ≡ false
  unfolding has_expert_tensors split_expert_tensors
  has_expert_tensors_dense [] = refl
  has_expert_tensors_dense ((key, entry) ∷ more) =
      let parts = split_expert_tensors keys more in
      if-all (λ (p : Parts Entry). has_expert_tensors keys p.0 ≡ false) (is_expert keys key)
        (parts.0, (key, entry) ∷ parts.1) ((key, entry) ∷ parts.0, parts.1)
        (λ t. has_expert_tensors_dense more)
        (λ f. ap (λ b. b || has_expert_tensors keys parts.0) f ∙ has_expert_tensors_dense more)

  module _ {V : Type 0} (leading : V → ℕ) where
    count_from_dense :
        (best : ℕ) (m : Option (ℕ × Param)) (s : Option Stem) (v : V) (more : ℕ → ℕ)
        → in_bank keys m s ≡ false
        → count_from keys leading best m s v more ≡ more best
    count_from_dense best (some (j, p)) s v more e = absurd (ground arith)
    count_from_dense best none (some s) v more e = absurd (ground arith)
    count_from_dense best none none v more e = refl

    count_dense :
        (state : List (KeyName × V)) (best : ℕ)
        → count_experts keys leading (split_expert_tensors keys state).0 best ≡ best
    unfolding count_experts split_expert_tensors
    count_dense [] best = refl
    count_dense ((key, v) ∷ more) best =
        let parts = split_expert_tensors keys more in
        if-all (λ (p : Parts V). count_experts keys leading p.0 best ≡ best) (is_expert keys key)
          (parts.0, (key, v) ∷ parts.1) ((key, v) ∷ parts.0, parts.1) (λ t. count_dense more best)
          (λ f.
            count_from_dense best (expert_key key) (stacked_key key) v
              (count_experts keys leading parts.0) f
            ∙ count_dense more best)

    count_from_ext :
        (best : ℕ) (m : Option (ℕ × Param)) (s : Option Stem) (v : V) (f g : ℕ → ℕ)
        → ((b : ℕ) → f b ≡ g b)
        → count_from keys leading best m s v f ≡ count_from keys leading best m s v g
    count_from_ext best (some (j, p)) s v f g same = same _
    count_from_ext best none (some s) v f g same = refl
    count_from_ext best none none v f g same = same best

    count_experts_lem :
        (state : List (KeyName × V)) (best : ℕ)
        → count_experts keys leading (split_expert_tensors keys state).1 best
          ≡ count_experts keys leading state best
    unfolding count_experts split_expert_tensors
    count_experts_lem [] best = refl
    count_experts_lem ((key, v) ∷ more) best =
        let parts = split_expert_tensors keys more in
        let m = expert_key key in
        let s = stacked_key key in
        if-all
          (λ (p : Parts V).
            count_experts keys leading p.1 best
            ≡ count_from keys leading best m s v (count_experts keys leading more))
          (is_expert keys key) (parts.0, (key, v) ∷ parts.1) ((key, v) ∷ parts.0, parts.1)
          (λ t.
            count_from_ext best m s v (count_experts keys leading parts.1)
              (count_experts keys leading more) (count_experts_lem more))
          (λ f.
            count_experts_lem more best
            ∙ sym (count_from_dense best m s v (count_experts keys leading more) f))

  -- Of every state dict: the dense part has no expert tensor, so a file of it has no bank and counts no
  -- experts; the other part has all of them, so a file of it is indexed as one of the whole dict
  -- would be, and counts as many experts.
  pub index_header-split_expert_tensors :
      (state : List (KeyName × Entry)) (leading : Entry → ℕ) (data_start : ℕ)
      → (has_expert_tensors keys (split_expert_tensors keys state).0 ≡ false)
        × (index_header keys (plain (split_expert_tensors keys state).0) data_start ≡ ok none)
        × (expert_count keys leading (split_expert_tensors keys state).0 ≡ 0)
        × (index_header keys (plain (split_expert_tensors keys state).1) data_start
            ≡ index_header keys (plain state) data_start)
        × (expert_count keys leading (split_expert_tensors keys state).1
            ≡ expert_count keys leading state)
  unfolding index_header expert_count
  index_header-split_expert_tensors state leading data_start = (
    has_expert_tensors_dense state,
    ap (λ f. indexed data_start f.stacked f.per_expert) (collect_dense state no_tensors),
    count_dense leading state 0,
    ap (λ f. indexed data_start f.stacked f.per_expert) (collect_experts state no_tensors),
    count_experts_lem leading state 0,
  )
