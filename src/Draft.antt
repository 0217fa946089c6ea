-- ===== src/Draft.antt =====
-- src/swlp/runner/draft.py: the adaptive draft length and the drafter backed by a resident model.
-- The draft model (transformers) is the parameter `Model`; its positions start at the cached length.
pub mod Adaptive
pub mod Resident
use swlp.Prelude.{
  ℕ, zero, suc, ◌+◌, ◌-◌, ◌*◌, ◌/◌, min, max, Bool, true, false, ◌||◌, Option, none, some, List, [],
  ◌∷◌, ◌++◌, ◌==◌, leb, ltb, if◌then◌else◌, length, get_or, take, drop,
}
use swlp.Model.{Model}

pub record AdaptiveDraftLength : Type 0 where
  pub max_k : ℕ
  pub k : ℕ

unfoldable pub init : ℕ → AdaptiveDraftLength
init max_draft = record { max_k = max_draft; k = max_draft }

pub observe : AdaptiveDraftLength → ℕ → ℕ → AdaptiveDraftLength
observe a proposed accepted =
    if leb proposed 0 || a.max_k == 0
    then a
    else if leb proposed accepted
    then record a { k = min (a.k * 2) a.max_k }
    else if leb proposed (accepted * 2)
    then record a { k = min (a.k + 1) a.max_k }
    else record a { k = max 1 (a.k / 2) }

-- How far two sequences agree, up to `limit`: the `while` loop of `_sync_cache`, counting the
-- rounds left.
pub common_prefix : ℕ → List ℕ → List ℕ → ℕ
common_prefix zero cached tokens = 0
common_prefix (suc limit) [] tokens = 0
common_prefix (suc limit) (x ∷ cached) [] = 0
common_prefix (suc limit) (x ∷ cached) (t ∷ tokens) =
    if x == t then suc (common_prefix limit cached tokens) else 0

-- `cache` is `None` before the first forward; `cached_ids` are the ids that it covers.
pub record DraftModelDrafter (Cache : Type 0) : Type 0 where
  pub adaptive : AdaptiveDraftLength
  pub cache : Option Cache
  pub cached_ids : List ℕ

-- `crops` says which crops of a cache succeed.
module _ (m : Model) (empty : m.Cache) (crops : ℕ → m.Cache → Bool) where
  open m use {Cache, seq_length, feed, logits, crop, argmax}

  pub reset : DraftModelDrafter Cache → DraftModelDrafter Cache
  reset d = record d { cache = none; cached_ids = [] }

  -- A crop that raises, as that of a cache that is not there, makes the handler reset.
  pub cropped : DraftModelDrafter Cache → ℕ → Option Cache → DraftModelDrafter Cache
  cropped d prefix none = reset d
  cropped d prefix (some c) =
      if crops prefix c
      then record d { cache = some (crop prefix c); cached_ids = take prefix d.cached_ids }
      else reset d

  pub sync_cache : DraftModelDrafter Cache → List ℕ → DraftModelDrafter Cache
  sync_cache d tokens =
      let limit = min (length d.cached_ids) (length tokens - 1) in
      let prefix = common_prefix limit d.cached_ids tokens in
      if prefix == length d.cached_ids
      then d
      else if prefix == 0
      then reset d
      else cropped d prefix d.cache

  -- A forward without a cache starts a new one.
  abbrev pub cache_of : Option Cache → Cache
  cache_of none = empty
  cache_of (some c) = c

  -- The `for` loop of `propose`, over the rounds left.
  pub draft_loop : ℕ → List ℕ → Cache → List ℕ × Cache
  draft_loop zero input_ids c = ([], c)
  draft_loop (suc rounds) input_ids c =
      let scores = logits (seq_length c) input_ids c in
      let next_id = argmax (get_or scores (length scores - 1) []) in
      let (drafted, c') = draft_loop rounds (next_id ∷ []) (feed (seq_length c) input_ids c) in
      (next_id ∷ drafted, c')

  pub propose : DraftModelDrafter Cache → List ℕ → List ℕ × DraftModelDrafter Cache
  propose d tokens =
      let d' = sync_cache d tokens in
      let delta = drop (length d'.cached_ids) tokens in
      let (drafted, c) = draft_loop d.adaptive.k delta (cache_of d'.cache) in
      if d.adaptive.k == 0 || length tokens == 0 then ([], d) else (
        drafted,
        record d' { cache = some c; cached_ids = tokens ++ take (length drafted - 1) drafted },
      )
