-- ===== src/PrefixCache.antt =====
-- `PrefixKVCache` of src/swlp/core/prefix_cache.py: snapshots of the key/value tensors of token
-- prefixes, bounded in number and in bytes. The clock is an argument (`now`).
pub mod Tensors
pub mod Bounded
pub mod Longest
pub mod Lossless
pub mod History
use swlp.Prelude.{
  ℕ, zero, suc, ◌+◌, ◌-◌, max, Bool, true, false, not, ◌&&◌, ◌||◌, Option, none, some, List, [],
  ◌∷◌, map, ◌==◌, leb, ltb, if◌then◌else◌, length, take, set,
}
use swlp.Speculative.{same_tokens}
use swlp.PrefixCache.Tensors.{Layers}

module _ (ly : Layers) where
  open ly use {Kv, seq_len, nbytes, prefix}

  pub record PrefixEntry : Type 0 where
    pub ids : List ℕ
    pub layer_kv : List Kv
    pub bytes : ℕ
    pub created : ℕ

  pub record PrefixKvCache : Type 0 where
    pub max_entries : ℕ
    pub snapshot_every : ℕ
    pub max_bytes : ℕ
    pub used_bytes : ℕ
    pub entries : List PrefixEntry
    pub hits : ℕ
    pub misses : ℕ
    pub stored : ℕ

  unfoldable pub new_cache : ℕ → ℕ → ℕ → PrefixKvCache
  new_cache max_entries snapshot_every max_bytes = record {
    max_entries = max 1 max_entries;
    snapshot_every = max 1 snapshot_every;
    max_bytes = max 1 max_bytes;
    used_bytes = 0;
    entries = [];
    hits = 0;
    misses = 0;
    stored = 0;
  }

  abbrev pub below : Option ℕ → ℕ → Bool
  below none n = true
  below (some max_length) n = ltb n max_length

  -- The tests on an entry in the loop of `lookup`, but for the comparison with `best`.
  unfoldable pub usable : List ℕ → Option ℕ → PrefixEntry → Bool
  usable tokens max_length e =
      let n = length e.ids in
      not (ltb (length tokens) n || n == 0)
      && below max_length n
      && same_tokens e.ids (take n tokens)

  abbrev pub better : PrefixEntry → Option (ℕ × PrefixEntry) → Bool
  better e none = true
  better e (some (i, best)) = ltb (length best.ids) (length e.ids)

  -- The loop of `lookup`; `i` is the entry's place in the list.
  unfoldable pub search_loop :
      List ℕ → Option ℕ → Option (ℕ × PrefixEntry) → ℕ → List PrefixEntry → Option (ℕ × PrefixEntry)
  search_loop tokens max_length best i [] = best
  search_loop tokens max_length best i (e ∷ es) =
      let best' = if usable tokens max_length e && better e best then some (i, e) else best in
      search_loop tokens max_length best' (i + 1) es

  abbrev pub at_least : ℕ → Option (ℕ × PrefixEntry) → Option (ℕ × PrefixEntry)
  at_least min_length none = none
  at_least min_length (some (i, best)) =
      if ltb (length best.ids) (max 1 min_length) then none else some (i, best)

  -- A hit renews the entry in its place.
  abbrev pub counted :
      PrefixKvCache → ℕ → Option (ℕ × PrefixEntry) → Option PrefixEntry × PrefixKvCache
  counted c now none = (none, record c { misses = c.misses + 1 })
  counted c now (some (i, best)) =
      let renewed = record best { created = now } in
      (some renewed, record c { entries = set c.entries i renewed; hits = c.hits + 1 })

  unfoldable pub lookup :
      PrefixKvCache → ℕ → List ℕ → ℕ → Option ℕ → Option PrefixEntry × PrefixKvCache
  lookup c now tokens min_length max_length =
      counted c now (at_least min_length (search_loop tokens max_length none 0 c.entries))

  abbrev pub sum_nbytes : List Kv → ℕ
  sum_nbytes [] = 0
  sum_nbytes (kv ∷ kvs) = nbytes kv + sum_nbytes kvs

  abbrev pub sum_bytes : List PrefixEntry → ℕ
  sum_bytes [] = 0
  sum_bytes (e ∷ es) = e.bytes + sum_bytes es

  -- The entries of the same ids, and the others.
  abbrev pub replaced : List ℕ → List PrefixEntry → List PrefixEntry
  replaced tokens [] = []
  replaced tokens (e ∷ es) =
      let rest = replaced tokens es in if same_tokens e.ids tokens then e ∷ rest else rest

  abbrev pub others : List ℕ → List PrefixEntry → List PrefixEntry
  others tokens [] = []
  others tokens (e ∷ es) =
      let rest = others tokens es in if same_tokens e.ids tokens then rest else e ∷ rest

  -- The stable sort by length.
  abbrev pub place : PrefixEntry → List PrefixEntry → List PrefixEntry
  place e [] = e ∷ []
  place e (f ∷ fs) = if leb (length e.ids) (length f.ids) then e ∷ f ∷ fs else f ∷ place e fs

  abbrev pub sort_by_length : List PrefixEntry → List PrefixEntry
  sort_by_length [] = []
  sort_by_length (e ∷ es) = place e (sort_by_length es)

  -- `min(entries, key=created)`, the first of the oldest, and the entries without it.
  abbrev pub pop_oldest : PrefixEntry → List PrefixEntry → PrefixEntry × List PrefixEntry
  pop_oldest e [] = (e, [])
  pop_oldest e (f ∷ fs) =
      let (victim, rest) = pop_oldest f fs in
      if leb e.created victim.created then (e, f ∷ fs) else (victim, e ∷ rest)

  -- The eviction loop, on as many rounds as there are entries.
  unfoldable pub evict_loop : ℕ → PrefixKvCache → List PrefixEntry → PrefixKvCache
  evict_loop zero c es = record c { entries = es }
  evict_loop (suc rounds) c [] = record c { entries = [] }
  evict_loop (suc rounds) c (e ∷ es) =
      let (victim, rest) = pop_oldest e es in
      let go_on = evict_loop rounds (record c { used_bytes = c.used_bytes - victim.bytes }) rest in
      if ltb c.max_entries (length (e ∷ es)) || ltb c.max_bytes c.used_bytes
      then go_on
      else record c { entries = e ∷ es }

  abbrev pub append_entry : List PrefixEntry → PrefixEntry → List PrefixEntry
  append_entry [] e = e ∷ []
  append_entry (f ∷ fs) e = f ∷ append_entry fs e

  unfoldable pub insert : PrefixKvCache → ℕ → List ℕ → List Kv → Bool × PrefixKvCache
  insert c now tokens layer_kv =
      let nbytes = sum_nbytes layer_kv in
      let e : PrefixEntry = record {
        ids = tokens;
        layer_kv = layer_kv;
        bytes = nbytes;
        created = now;
      } in
      let es = sort_by_length (append_entry (others tokens c.entries) e) in
      let used = c.used_bytes - sum_bytes (replaced tokens c.entries) + nbytes in
      if ltb c.max_bytes nbytes
      then (false, c)
      else (true, evict_loop (length es) (record c { used_bytes = used }) es)

  -- The one sequence length of the layers, if they agree.
  abbrev pub uniform_from : ℕ → List Kv → Option ℕ
  uniform_from n [] = some n
  uniform_from n (kv ∷ kvs) = if seq_len kv == n then uniform_from n kvs else none

  -- `sorted({top, *range(step, top, step)})`, from `at` on; on `top` rounds, for a positive
  -- step.
  abbrev pub marks : ℕ → ℕ → ℕ → ℕ → List ℕ
  marks zero at step top = top ∷ []
  marks (suc rounds) at step top =
      let rest = marks rounds (at + step) step top in if ltb at top then at ∷ rest else top ∷ []

  unfoldable pub snapshots : PrefixKvCache → ℕ → List ℕ → List Kv → ℕ → List ℕ → PrefixKvCache
  snapshots c now tokens layer_kv seq [] = c
  snapshots c now tokens layer_kv seq (n ∷ ns) =
      let (done, c') = insert c now (take n tokens) (map (prefix n) layer_kv) in
      let c'' = record c' { stored = if done then c'.stored + 1 else c'.stored } in
      let skipped = snapshots c now tokens layer_kv seq ns in
      let rest = snapshots c'' now tokens layer_kv seq ns in
      if leb n 0 || ltb seq n then skipped else rest

  abbrev pub store_uniform : PrefixKvCache → ℕ → List ℕ → List Kv → Option ℕ → PrefixKvCache
  store_uniform c now tokens layer_kv none = c
  store_uniform c now tokens layer_kv (some seq) =
      if ltb (length tokens) seq
      then c
      else snapshots c now (take seq tokens) layer_kv seq
          (marks seq c.snapshot_every c.snapshot_every seq)

  unfoldable pub store : PrefixKvCache → ℕ → List ℕ → List Kv → PrefixKvCache
  store c now [] layer_kv = c
  store c now (t ∷ ts) [] = c
  store c now (t ∷ ts) (kv ∷ kvs) =
      store_uniform c now (t ∷ ts) (kv ∷ kvs) (uniform_from (seq_len kv) kvs)

  unfoldable pub clear : PrefixKvCache → PrefixKvCache
  clear c = record c { entries = []; used_bytes = 0 }
