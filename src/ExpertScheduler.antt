-- ===== src/ExpertScheduler.antt =====
-- `ExpertScheduler` of src/swlp/runner/expert_scheduler.py: the slots of all layers with one recency
-- list, and the experts that the prefetch pool has staged. A read is a parameter that may fail at any
-- attempt. The statistics and the resizing of the slots are left out.
pub mod Staged
pub mod Served
pub mod Ensured
pub mod Routed
use swlp.Prelude.{
  ℕ, zero, suc, ◌+◌, ◌*◌, ◌<◌, max, Bool, true, false, not, ◌&&◌, ◌||◌, Option, none, some, List,
  [], ◌∷◌, ◌++◌, Result, ok, err, ◌==◌, ltb, if◌then◌else◌, put, length,
}
use swlp.Experts.{SlotError, SwlpCachedExperts, get, free_slots, fill, evict, evict_lru_local}

pub data EnsureError : Type 0 where
  key_error read_error no_free_slot : EnsureError

pub record ExpertScheduler (V : Type 0) : Type 0 where
  pub modules : ℕ → Option (SwlpCachedExperts V)
  pub lru : List (ℕ × ℕ)
  pub staging : ℕ → ℕ → Option V
  pub staging_order : List (ℕ × ℕ)
  pub inflight : ℕ → ℕ → Bool
  pub pool_open : Bool
  pub workers : ℕ
  pub attempts : ℕ
  pub hits : ℕ
  pub misses : ℕ
  pub prefetch_hits : ℕ
  pub evictions : ℕ

-- The entry `(layer, eid)` of a dictionary.
abbrev pub put_key {ℓ} : {A : Type ℓ} → (ℕ → ℕ → A) → ℕ → ℕ → A → ℕ → ℕ → A
put_key f layer eid a = put f layer (put (f layer) eid a)

abbrev pub same_pair : ℕ → ℕ → ℕ × ℕ → Bool
same_pair layer eid (l, e) = l == layer && e == eid

-- `deque.remove`, of a key that may be missing.
abbrev pub remove_key : ℕ → ℕ → List (ℕ × ℕ) → List (ℕ × ℕ)
remove_key layer eid [] = []
remove_key layer eid (k ∷ ks) = if same_pair layer eid k then ks else k ∷ remove_key layer eid ks

abbrev pub is_there {ℓ} : {A : Type ℓ} → Option A → Bool
is_there none = false
is_there (some a) = true

abbrev pub slot_or_zero : Option ℕ → ℕ
slot_or_zero none = 0
slot_or_zero (some slot) = slot

-- `load t layer eid` is what the read with the number `t` gives, nothing where it raises.
module _ {V : Type 0} (zeros : V) (load : ℕ → ℕ → ℕ → Option V) where
  unfoldable pub touch : ExpertScheduler V → ℕ → ℕ → ExpertScheduler V
  touch s layer eid = record s { lru = remove_key layer eid s.lru ++ (layer, eid) ∷ [] }

  -- The first key of the layer whose expert is in a slot.
  abbrev pub least_recent : ℕ → SwlpCachedExperts V → List (ℕ × ℕ) → Option ℕ
  least_recent layer m [] = none
  least_recent layer m ((lay, eid) ∷ ks) =
      if lay == layer && is_there (get eid m.slot_of) then some eid else least_recent layer m ks

  abbrev pub evict_chosen :
      ExpertScheduler V → ℕ → SwlpCachedExperts V → Option ℕ → ExpertScheduler V
  evict_chosen s layer m (some eid) = record s {
    modules = put s.modules layer (some (evict zeros m eid));
    lru = remove_key layer eid s.lru;
    evictions = s.evictions + 1;
  }
  evict_chosen s layer m none = record s {
    modules = put s.modules layer (some (evict_lru_local zeros m));
    evictions = s.evictions + 1;
  }

  -- `_evict_least_recent_in_layer`, of a layer that has a module.
  unfoldable pub evict_least_recent :
      ExpertScheduler V → ℕ → SwlpCachedExperts V → ExpertScheduler V
  evict_least_recent s layer m = evict_chosen s layer m (least_recent layer m s.lru)

  -- `while len(self._staging_order) > limit`.
  abbrev pub trimmed : ℕ → List (ℕ × ℕ) → (ℕ → ℕ → Option V) → List (ℕ × ℕ) × (ℕ → ℕ → Option V)
  trimmed limit [] staging = ([], staging)
  trimmed limit ((lay, eid) ∷ ks) staging =
      let rest = trimmed limit ks (put_key staging lay eid none) in
      if ltb limit (length ((lay, eid) ∷ ks)) then rest else ((lay, eid) ∷ ks, staging)

  unfoldable pub stage : ExpertScheduler V → ℕ → ℕ → V → ExpertScheduler V
  stage s layer eid v =
      let kept =
        trimmed (2 * max 1 s.workers) (s.staging_order ++ (layer, eid) ∷ [])
          (put_key s.staging layer eid (some v)) in
      record s {
        staging_order = kept.0;
        staging = kept.1;
        inflight = put_key s.inflight layer eid false;
      }

  abbrev pub prefetch_when :
      ExpertScheduler V → ℕ → ℕ → Option (SwlpCachedExperts V) → ExpertScheduler V
  prefetch_when s layer eid none = s
  prefetch_when s layer eid (some m) =
      if is_there (get eid m.slot_of) || is_there (s.staging layer eid) || s.inflight layer eid
      then s
      else if s.pool_open
      then record s { inflight = put_key s.inflight layer eid true }
      else s

  unfoldable pub prefetch : ExpertScheduler V → ℕ → ℕ → ExpertScheduler V
  prefetch s layer eid = prefetch_when s layer eid (s.modules layer)

  -- `for eid in set(...)`, when the mode is not "off".
  unfoldable pub prepare_set : ExpertScheduler V → ℕ → List ℕ → ExpertScheduler V
  prepare_set s layer [] = s
  prepare_set s layer (eid ∷ eids) = prepare_set (prefetch s layer eid) layer eids

  abbrev pub read_done : ExpertScheduler V → ℕ → ℕ → Option V → ExpertScheduler V
  read_done s layer eid none = record s { inflight = put_key s.inflight layer eid false }
  read_done s layer eid (some v) = stage s layer eid v

  -- `_job`, of a key that is in flight.
  unfoldable pub worker : ExpertScheduler V → ℕ → ℕ → ExpertScheduler V
  worker s layer eid =
      if s.inflight layer eid
      then read_done (record s { attempts = s.attempts + 1 }) layer eid (load s.attempts layer eid)
      else s

  -- `while module.free_slots() == 0`: one eviction makes room, or the loop is left.
  abbrev pub room_made : ExpertScheduler V → ℕ → SwlpCachedExperts V → ExpertScheduler V
  room_made s layer m = if free_slots zeros m == 0 then evict_least_recent s layer m else s

  abbrev pub put_in :
      ExpertScheduler V
      → ℕ
      → ℕ
      → Result SlotError (SwlpCachedExperts V)
      → Result EnsureError ℕ × ExpertScheduler V
  put_in s layer eid (err e) = (err no_free_slot, s)
  put_in s layer eid (ok m) = (
    ok (slot_or_zero (get eid m.slot_of)),
    touch (record s { modules = put s.modules layer (some m) }) layer eid,
  )

  abbrev pub fill_in :
      ExpertScheduler V
      → ℕ
      → ℕ
      → V
      → Option (SwlpCachedExperts V)
      → Result EnsureError ℕ × ExpertScheduler V
  fill_in s layer eid v none = (err key_error, s)
  fill_in s layer eid v (some m) = put_in s layer eid (fill zeros m eid v)

  abbrev pub place :
      ExpertScheduler V → ℕ → SwlpCachedExperts V → ℕ → V → Result EnsureError ℕ × ExpertScheduler V
  place s layer m eid v = let s1 = room_made s layer m in fill_in s1 layer eid v (s1.modules layer)

  abbrev pub loaded :
      ExpertScheduler V
      → ℕ
      → SwlpCachedExperts V
      → ℕ
      → Option V
      → Result EnsureError ℕ × ExpertScheduler V
  loaded s layer m eid none = (err read_error, s)
  loaded s layer m eid (some v) = place s layer m eid v

  abbrev pub staged :
      ExpertScheduler V
      → ℕ
      → SwlpCachedExperts V
      → ℕ
      → Option V
      → Result EnsureError ℕ × ExpertScheduler V
  staged s layer m eid (some v) =
      place (record s { prefetch_hits = s.prefetch_hits + 1 }) layer m eid v
  staged s layer m eid none =
      loaded (record s { attempts = s.attempts + 1 }) layer m eid (load s.attempts layer eid)

  -- The wait of `ensure` for a read in flight; `in_time` says whether it ends before the deadline.
  abbrev pub waited : ExpertScheduler V → ℕ → ℕ → Bool → ExpertScheduler V
  waited s layer eid true = worker s layer eid
  waited s layer eid false = s

  abbrev pub take_staged :
      ExpertScheduler V → ℕ → SwlpCachedExperts V → ℕ → Result EnsureError ℕ × ExpertScheduler V
  take_staged s layer m eid =
      staged (record s { staging = put_key s.staging layer eid none }) layer m eid
        (s.staging layer eid)

  abbrev pub missed :
      ExpertScheduler V
      → ℕ
      → SwlpCachedExperts V
      → ℕ
      → Bool
      → Bool
      → Result EnsureError ℕ × ExpertScheduler V
  missed s layer m eid in_time true = take_staged (waited s layer eid in_time) layer m eid
  missed s layer m eid in_time false = staged s layer m eid none

  abbrev pub ensure_slot :
      ExpertScheduler V
      → ℕ
      → SwlpCachedExperts V
      → ℕ
      → Bool
      → Option ℕ
      → Result EnsureError ℕ × ExpertScheduler V
  ensure_slot s layer m eid in_time (some slot) =
      (ok slot, touch (record s { hits = s.hits + 1 }) layer eid)
  ensure_slot s layer m eid in_time none =
      missed (record s { misses = s.misses + 1 }) layer m eid in_time (s.inflight layer eid)

  abbrev pub ensure_module :
      ExpertScheduler V
      → ℕ
      → ℕ
      → Bool
      → Option (SwlpCachedExperts V)
      → Result EnsureError ℕ × ExpertScheduler V
  ensure_module s layer eid in_time none = (err key_error, s)
  ensure_module s layer eid in_time (some m) = ensure_slot s layer m eid in_time (get eid m.slot_of)

  unfoldable pub ensure :
      ExpertScheduler V → ℕ → ℕ → Bool → Result EnsureError ℕ × ExpertScheduler V
  ensure s layer eid in_time = ensure_module s layer eid in_time (s.modules layer)
