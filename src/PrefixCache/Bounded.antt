-- ===== src/PrefixCache/Bounded.antt =====
-- The prefix cache of src/swlp/core/prefix_cache.py stays within its two bounds, and its byte counter
-- is the sum over its entries.
use swlp.Prelude.{
  ℕ, zero, suc, ◌+◌, ◌-◌, ◌≤◌, ◌≡◌, refl, ◌∙◌, ◌||◌, Option, none, some, List, [], ◌∷◌, map, arith,
  leb, ltb, if◌then◌else◌, Bool-cases, inl, inr, length, take,
}
use swlp.Speculative.{same_tokens}
use swlp.PrefixCache.Tensors.{Layers}
use swlp.PrefixCache.{
  PrefixEntry, PrefixKvCache, sum_nbytes, sum_bytes, replaced, others, place, sort_by_length,
  pop_oldest, evict_loop, append_entry, insert, uniform_from, marks, snapshots, store_uniform,
  store,
}

module _ (ly : Layers) where
  open ly use {Kv}

  pub record IsBounded (c : PrefixKvCache ly) : Type 0 where
    pub exact : c.used_bytes ≡ sum_bytes ly c.entries
    pub few : length c.entries ≤ c.max_entries
    pub small : c.used_bytes ≤ c.max_bytes

  sum_others :
      (tokens : List ℕ) (es : List (PrefixEntry ly))
      → sum_bytes ly es ≡ sum_bytes ly (replaced ly tokens es) + sum_bytes ly (others ly tokens es)
  sum_others tokens [] = refl
  sum_others tokens (e ∷ es) = elim (Bool-cases (same_tokens e.ids tokens)) [
    | inl same ↦ rw same (omega (arith, sum_others tokens es))
    | inr other ↦ rw other (omega (arith, sum_others tokens es))
  ]

  sum_place :
      (e : PrefixEntry ly) (es : List (PrefixEntry ly))
      → sum_bytes ly (place ly e es) ≡ e.bytes + sum_bytes ly es
  sum_place e [] = refl
  sum_place e (f ∷ fs) = elim (Bool-cases (leb (length e.ids) (length f.ids))) [
    | inl before ↦ rw before refl
    | inr after ↦ rw after (omega (arith, sum_place e fs))
  ]

  sum_sort : (es : List (PrefixEntry ly)) → sum_bytes ly (sort_by_length ly es) ≡ sum_bytes ly es
  sum_sort [] = refl
  sum_sort (e ∷ es) = sum_place e (sort_by_length ly es) ∙ omega (arith, sum_sort es)

  sum_append_entry :
      (es : List (PrefixEntry ly)) (e : PrefixEntry ly)
      → sum_bytes ly (append_entry ly es e) ≡ sum_bytes ly es + e.bytes
  sum_append_entry [] e = omega arith
  sum_append_entry (f ∷ fs) e = omega (arith, sum_append_entry fs e)

  -- Taking the oldest out takes its bytes and one entry.
  pop_oldest_lem :
      (e : PrefixEntry ly) (es : List (PrefixEntry ly))
      → let (victim, rest) = pop_oldest ly e es in
        (victim.bytes + sum_bytes ly rest ≡ e.bytes + sum_bytes ly es) × (length rest ≡ length es)
  pop_oldest_lem e [] = (refl, refl)
  pop_oldest_lem e (f ∷ fs) =
      let (s, l) = pop_oldest_lem f fs in
      elim (Bool-cases (leb e.created (pop_oldest ly f fs).0.created)) [
        | inl older ↦ rw older (refl, refl)
        | inr newer ↦ rw newer (omega (arith, s), omega (arith, l))
      ]

  -- With a round for each entry the loop ends within the bounds.
  evict_loop-IsBounded :
      (rounds : ℕ) (c : PrefixKvCache ly) (es : List (PrefixEntry ly))
      → length es ≤ rounds
      → c.used_bytes ≡ sum_bytes ly es
      → IsBounded (evict_loop ly rounds c es)
  unfolding evict_loop
  evict_loop-IsBounded zero c [] enough exact = record {
    exact = exact;
    few = omega arith;
    small = omega (arith, exact);
  }
  evict_loop-IsBounded zero c (e ∷ es) enough exact = absurd (omega arith)
  evict_loop-IsBounded (suc rounds) c [] enough exact = record {
    exact = exact;
    few = omega arith;
    small = omega (arith, exact);
  }
  evict_loop-IsBounded (suc rounds) c (e ∷ es) enough exact =
      let victim = (pop_oldest ly e es).0 in
      let rest = (pop_oldest ly e es).1 in
      let (s, l) = pop_oldest_lem e es in
      elim (Bool-cases (ltb c.max_entries (length (e ∷ es)) || ltb c.max_bytes c.used_bytes)) [
        | inl over ↦
            let ih =
              evict_loop-IsBounded rounds (record c { used_bytes = c.used_bytes - victim.bytes })
                rest (omega (arith, l)) (omega (arith, s, exact)) in
            rw over ih
        | inr within ↦
            let few : length (e ∷ es) ≤ c.max_entries = ground arith in
            let small : c.used_bytes ≤ c.max_bytes = ground arith in
            rw within (record { exact = exact; few = few; small = small })
      ]

  insert-IsBounded :
      (c : PrefixKvCache ly) (now : ℕ) (tokens : List ℕ) (layer_kv : List Kv)
      → IsBounded c
      → IsBounded (insert ly c now tokens layer_kv).1
  unfolding insert
  insert-IsBounded c now tokens layer_kv h =
      elim (Bool-cases (ltb c.max_bytes (sum_nbytes ly layer_kv))) [
        | inl large ↦ rw large h
        | inr fits ↦
            let e : PrefixEntry ly = record {
              ids = tokens;
              layer_kv = layer_kv;
              bytes = sum_nbytes ly layer_kv;
              created = now;
            } in
            let es = append_entry ly (others ly tokens c.entries) e in
            let used : c.used_bytes
                  - sum_bytes ly (replaced ly tokens c.entries)
                  + sum_nbytes ly layer_kv
                ≡ sum_bytes ly (sort_by_length ly es) =
              omega (
                arith,
                h.exact,
                sum_others tokens c.entries,
                sum_sort es,
                sum_append_entry (others ly tokens c.entries) e,
              ) in
            rw fits (
              evict_loop-IsBounded (length (sort_by_length ly es)) _ (sort_by_length ly es)
                (omega arith) used)
      ]

  snapshots-IsBounded :
      (c : PrefixKvCache ly) (now : ℕ) (tokens : List ℕ) (layer_kv : List Kv) (seq : ℕ)
      (ns : List ℕ)
      → IsBounded c
      → IsBounded (snapshots ly c now tokens layer_kv seq ns)
  unfolding snapshots
  snapshots-IsBounded c now tokens layer_kv seq [] h = h
  snapshots-IsBounded c now tokens layer_kv seq (n ∷ ns) h =
      elim (Bool-cases (leb n 0 || ltb seq n)) [
        | inl skip ↦ rw skip (snapshots-IsBounded c now tokens layer_kv seq ns h)
        | inr go_on ↦
            let c' = (insert ly c now (take n tokens) (map (ly.prefix n) layer_kv)).1 in
            let h' = insert-IsBounded c now (take n tokens) (map (ly.prefix n) layer_kv) h in
            rw go_on (
              snapshots-IsBounded
                (record c' {
                  stored =
                      if (insert ly c now (take n tokens) (map (ly.prefix n) layer_kv)).0
                      then c'.stored + 1
                      else c'.stored;
                })
                now tokens layer_kv seq ns
                (record { exact = h'.exact; few = h'.few; small = h'.small }))
      ]

  -- After any store the cache holds at most `max_entries` snapshots and `max_bytes` bytes, and its
  -- byte counter is the sum of its entries' bytes, provided that this held before.
  pub store-IsBounded :
      (c : PrefixKvCache ly) (now : ℕ) (tokens : List ℕ) (layer_kv : List Kv)
      → IsBounded c
      → IsBounded (store ly c now tokens layer_kv)
  unfolding store
  store-IsBounded c now [] layer_kv h = h
  store-IsBounded c now (t ∷ ts) [] h = h
  store-IsBounded c now (t ∷ ts) (kv ∷ kvs) h = uniform (uniform_from ly (ly.seq_len kv) kvs)
    where
      uniform : (o : Option ℕ) → IsBounded (store_uniform ly c now (t ∷ ts) (kv ∷ kvs) o)
      uniform none = h
      uniform (some seq) = elim (Bool-cases (ltb (length (t ∷ ts)) seq)) [
        | inl long ↦ rw long h
        | inr covered ↦ rw covered (
            snapshots-IsBounded c now (take seq (t ∷ ts)) (kv ∷ kvs) seq
              (marks ly seq c.snapshot_every c.snapshot_every seq) h)
      ]
