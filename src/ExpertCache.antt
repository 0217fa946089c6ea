-- ===== src/ExpertCache.antt =====
-- `MlxExpertCache` of src/swlp/runner/mlx_expert_cache.py: the cache of routed experts under a byte
-- budget, which evicts the least frequently used expert. The reads and their conversion are a parameter,
-- `source`; `ready` says which futures are done.
pub mod Evict
pub mod Budget
pub mod Absorbed
pub mod Requests
pub mod Delivery
pub mod Least
pub mod Pushed
use swlp.Prelude.{
  ℕ, zero, suc, ◌+◌, ◌-◌, ◌*◌, Bool, true, false, not, ◌&&◌, ◌||◌, Option, none, some, List, [],
  ◌∷◌, ◌++◌, Result, ok, err, ◌>>=◌, ◌==◌, ltb, if◌then◌else◌, length,
}

pub record Key : Type 0 where
  pub layer : ℕ
  pub eid : ℕ

abbrev pub same_key : Key → Key → Bool
same_key k j = k.layer == j.layer && k.eid == j.eid

-- An entry of the heap, ordered by frequency, then by tick; ticks are unique.
pub record HeapEntry : Type 0 where
  pub freq : ℕ
  pub tick : ℕ
  pub key : Key

pub data ReadError : Type 0 where
  os_error conversion_error : ReadError

-- `result key` is what the future of `key` gives, nothing where it raises; `to_mx` makes it an expert and
-- `quantize` packs it, both with nothing where they raise. `quant` is the attribute of the cache of that
-- name, the group size and the bits, which is set when the cache is made and never again.
pub record ExpertSource (W : Type 0) : Type 1 where
  pub Raw : Type 0
  pub result : Key → Option Raw
  pub to_mx : Key → Raw → Option W
  pub has_gate : W → Bool
  pub quantize : ℕ × ℕ → W → Option W
  pub quant : Option (ℕ × ℕ)

module _ {W : Type 0} (source : ExpertSource W) where
  open source use {Raw, result, to_mx, has_gate, quantize}

  abbrev pub quantized_if : Option (ℕ × ℕ) → W → Option W
  quantized_if none w = some w
  quantized_if (some q) w = if has_gate w then quantize q w else some w

  abbrev pub quantized_from : Option W → Option W
  quantized_from none = none
  quantized_from (some w) = quantized_if source.quant w

  -- The expert that `_materialize` makes of what was read.
  abbrev pub converted : Key → Raw → Option W
  converted key raw = quantized_from (to_mx key raw)

  abbrev pub converted_from : Key → Option Raw → Option W
  converted_from key none = none
  converted_from key (some raw) = converted key raw

  -- The expert that the read of a key gives.
  abbrev pub own_read : Key → Option W
  own_read key = converted_from key (result key)

module _ {W : Type 0} (size : W → ℕ) (source : ExpertSource W) where
  open source use {Raw, result}

  pub record MlxExpertCache : Type 0 where
    pub budget_bytes : ℕ
    pub cache : List (Key × W)
    pub nbytes : ℕ
    pub freq : Key → ℕ
    pub last : Key → ℕ
    pub tick : ℕ
    pub heap : List HeapEntry
    pub inflight : List Key
    pub hits : ℕ
    pub prefetch_hits : ℕ
    pub misses : ℕ
    pub evictions : ℕ

  abbrev pub find : Key → List (Key × W) → Option W
  find k [] = none
  find k ((j, w) ∷ es) = if same_key j k then some w else find k es

  abbrev pub is_some : Option W → Bool
  is_some none = false
  is_some (some w) = true

  abbrev pub erase : Key → List (Key × W) → List (Key × W)
  erase k [] = []
  erase k ((j, w) ∷ es) = if same_key j k then es else (j, w) ∷ erase k es

  abbrev pub size_of : Option W → ℕ
  size_of none = 0
  size_of (some w) = size w

  abbrev pub is_in : Key → List Key → Bool
  is_in k [] = false
  is_in k (j ∷ js) = same_key j k || is_in k js

  abbrev pub without : Key → List Key → List Key
  without k [] = []
  without k (j ∷ js) = if same_key j k then js else j ∷ without k js

  -- `heapq.heappop`: the least entry, and the others.
  abbrev pub before : HeapEntry → HeapEntry → Bool
  before a b = ltb a.freq b.freq || (a.freq == b.freq && not (ltb b.tick a.tick))

  abbrev pub pop_least : HeapEntry → List HeapEntry → HeapEntry × List HeapEntry
  pop_least h [] = (h, [])
  pop_least h (g ∷ gs) =
      let (least, rest) = pop_least g gs in
      if before h least then (h, g ∷ gs) else (least, h ∷ rest)

  abbrev pub fresh_heap : (Key → ℕ) → (Key → ℕ) → List (Key × W) → List HeapEntry
  fresh_heap freq last [] = []
  fresh_heap freq last ((k, w) ∷ es) =
      record { freq = freq k; tick = last k; key = k } ∷ fresh_heap freq last es

  unfoldable pub rebuild_heap : MlxExpertCache → MlxExpertCache
  rebuild_heap c = record c { heap = fresh_heap c.freq c.last c.cache }

  unfoldable pub push : MlxExpertCache → Key → MlxExpertCache
  push c key =
      let tick = c.tick + 1 in
      let c' : MlxExpertCache = record c {
        tick = tick;
        last = λ k. if same_key key k then tick else c.last k;
        heap = record { freq = c.freq key; tick = tick; key = key } ∷ c.heap;
      } in
      if ltb (4 * length c'.cache + 4096) (length c'.heap) then rebuild_heap c' else c'

  unfoldable pub touch : MlxExpertCache → Key → MlxExpertCache
  touch c key =
      push (record c { freq = λ k. if same_key key k then c.freq key + 1 else c.freq k }) key

  abbrev pub evicted : MlxExpertCache → Key → List HeapEntry → MlxExpertCache
  evicted c key heap = record c {
    cache = erase key c.cache;
    nbytes = c.nbytes - size_of (find key c.cache);
    heap = heap;
    evictions = c.evictions + 1;
  }

  -- The loop of `_evict_one`, on a round for each entry of the heap: stale entries are dropped.
  unfoldable pub evict_from : ℕ → MlxExpertCache → List HeapEntry → Bool × MlxExpertCache
  evict_from zero c heap = (false, record c { heap = heap })
  evict_from (suc rounds) c [] = (false, record c { heap = [] })
  evict_from (suc rounds) c (h ∷ hs) =
      let (least, rest) = pop_least h hs in
      let go_on = evict_from rounds c rest in
      if is_some (find least.key c.cache) && least.tick == c.last least.key
      then (true, evicted c least.key rest)
      else go_on

  unfoldable pub evict_one : MlxExpertCache → Bool × MlxExpertCache
  evict_one c = evict_from (length c.heap) c c.heap

  -- One round of the eviction loop of `_materialize`: a rebuilt heap gets a second try.
  abbrev pub second_try : Bool × MlxExpertCache → Bool × MlxExpertCache
  second_try (true, c) = (true, c)
  second_try (false, c) = evict_one (rebuild_heap c)

  unfoldable pub shrink : ℕ → MlxExpertCache → MlxExpertCache
  shrink zero c = c
  shrink (suc rounds) c =
      let (done, c') = second_try (evict_one c) in
      let go_on = shrink rounds c' in
      if ltb c.budget_bytes c.nbytes && ltb 0 (length c.cache)
      then if done then go_on else c'
      else c

  abbrev pub inserted :
      MlxExpertCache → Key → Bool → Option W → Result ReadError (W × MlxExpertCache)
  inserted c key used none = err conversion_error
  inserted c key used (some w) =
      let c1 : MlxExpertCache = record c {
        cache = c.cache ++ (key, w) ∷ [];
        nbytes = c.nbytes + size w;
      } in
      let c2 = if used then touch c1 key else push c1 key in ok (w, shrink (length c2.cache) c2)

  abbrev pub materialized :
      MlxExpertCache → Key → Raw → Bool → Option W → Result ReadError (W × MlxExpertCache)
  materialized c key raw used (some old) = ok (old, c)
  materialized c key raw used none = inserted c key used (converted source key raw)

  unfoldable pub materialize :
      MlxExpertCache → Key → Raw → Bool → Result ReadError (W × MlxExpertCache)
  materialize c key raw used =
      materialized (record c { inflight = without key c.inflight }) key raw used (find key c.cache)

  -- A read that has raised is dropped, a conversion that raises ends `_absorb_finished`.
  abbrev pub absorb_key : MlxExpertCache → Key → Option Raw → Result ReadError MlxExpertCache
  absorb_key c key none = ok (record c { inflight = without key c.inflight })
  absorb_key c key (some raw) = materialize c key raw false >>= λ r. ok r.1

  abbrev pub absorb_ready : Bool → MlxExpertCache → Key → Result ReadError MlxExpertCache
  absorb_ready true c key = absorb_key c key (result key)
  absorb_ready false c key = ok c

  unfoldable pub absorb_loop :
      (Key → Bool) → MlxExpertCache → List Key → Result ReadError MlxExpertCache
  absorb_loop ready c [] = ok c
  absorb_loop ready c (k ∷ ks) = absorb_ready (ready k) c k >>= λ c'. absorb_loop ready c' ks

  unfoldable pub absorb_finished : (Key → Bool) → MlxExpertCache → Result ReadError MlxExpertCache
  absorb_finished ready c = absorb_loop ready c c.inflight

  abbrev pub note : Key → List Key → List Key
  note k pending = if is_in k pending then pending else pending ++ k ∷ []

  -- The first loop of `get_many`: what is cached is given out, the rest is pending.
  abbrev pub request :
      MlxExpertCache
      → Key
      → List Key
      → List (Key × W)
      → Option W
      → MlxExpertCache × List Key × List (Key × W)
  request c k pending out (some w) =
      let c' = touch c k in (record c' { hits = c'.hits + 1 }, pending, out ++ (k, w) ∷ [])
  request c k pending out none =
      if is_in k c.inflight
      then (record c { prefetch_hits = c.prefetch_hits + 1 }, note k pending, out)
      else (
        record c { misses = c.misses + 1; inflight = c.inflight ++ k ∷ [] },
        note k pending,
        out,
      )

  unfoldable pub request_loop :
      ℕ
      → MlxExpertCache
      → List ℕ
      → List Key
      → List (Key × W)
      → MlxExpertCache × List Key × List (Key × W)
  request_loop layer c [] pending out = (c, pending, out)
  request_loop layer c (eid ∷ eids) pending out =
      let k : Key = record { layer = layer; eid = eid } in
      let (c', pending', out') = request c k pending out (find k c.cache) in
      request_loop layer c' eids pending' out'

  -- `fut.result()` raises what the read raised.
  abbrev pub awaited : MlxExpertCache → Key → Option Raw → Result ReadError (W × MlxExpertCache)
  awaited c k none = err os_error
  awaited c k (some raw) = materialize c k raw true

  -- The second loop of `get_many`.
  unfoldable pub await_loop :
      MlxExpertCache
      → List Key
      → List (Key × W)
      → Result ReadError (List (Key × W) × MlxExpertCache)
  await_loop c [] out = ok (out, c)
  await_loop c (k ∷ ks) out =
      awaited c k (result k) >>= λ r. await_loop r.1 ks (out ++ (k, r.0) ∷ [])

  unfoldable pub get_many :
      (Key → Bool)
      → MlxExpertCache
      → ℕ
      → List ℕ
      → Result ReadError (List (Key × W) × MlxExpertCache)
  get_many ready c layer eids = absorb_finished ready c >>= λ c1.
      let r = request_loop layer c1 eids [] [] in await_loop r.0 r.1 r.2

  unfoldable pub prefetch : MlxExpertCache → ℕ → List ℕ → MlxExpertCache
  prefetch c layer [] = c
  prefetch c layer (eid ∷ eids) =
      let k : Key = record { layer = layer; eid = eid } in
      let c' : MlxExpertCache = record c { inflight = c.inflight ++ k ∷ [] } in
      prefetch (if is_some (find k c.cache) || is_in k c.inflight then c else c') layer eids

  unfoldable pub close : MlxExpertCache → MlxExpertCache
  close c = record c { inflight = []; cache = []; heap = []; nbytes = 0 }
