-- ===== src/PrefixCache/Lossless.antt =====
-- A hit of src/swlp/core/prefix_cache.py returns the tensors that computing the prefix afresh would
-- give: `computed` stands for the deterministic prefill.
use swlp.Prelude.{
  ℕ, zero, suc, ◌+◌, ◌≤◌, ◌≡◌, refl, sym, ap, ◌∙◌, Bool, true, false, ◌&&◌, ◌||◌, not, Option, none,
  some, List, [], ◌∷◌, map, arith, leb, ltb, if◌then◌else◌, Bool-cases, inl, inr, length, take,
  get_elem?, ◌==◌, subst, length-take,
}
use swlp.Speculative.{same_tokens}
use swlp.Speculative.Ngram.{same_tokens_iff}
use swlp.PrefixCache.Tensors.{Layers}
use swlp.PrefixCache.{
  PrefixEntry, PrefixKvCache, usable, below, lookup, others, place, sort_by_length, pop_oldest,
  evict_loop, append_entry, insert, uniform_from, marks, snapshots, store_uniform, store,
  sum_nbytes,
}
use swlp.PrefixCache.Longest.{LookupAnswers, lookup-LookupAnswers}

module _ (ly : Layers) (computed : List ℕ → List ly.Kv) where
  open ly use {Kv, seq_len, prefix}

  abbrev pub Sound : List (PrefixEntry ly) → Type 0
  Sound [] = 0 ≤ 0
  Sound (e ∷ es) = (e.layer_kv ≡ computed e.ids) × Sound es

  pub get_elem?-Sound :
      (es : List (PrefixEntry ly)) (i : ℕ) (e : PrefixEntry ly)
      → Sound es
      → get_elem? es i ≡ some e
      → e.layer_kv ≡ computed e.ids
  get_elem?-Sound [] i e h at = ground arith
  get_elem?-Sound (f ∷ fs) zero e h at =
      let same : f ≡ e = ground arith in
      subst (λ (g : PrefixEntry ly). g.layer_kv ≡ computed g.ids) same h.0
  get_elem?-Sound (f ∷ fs) (suc i) e h at = get_elem?-Sound fs i e h.1 at

  if-Sound :
      (b : Bool) (xs ys : List (PrefixEntry ly))
      → Sound xs
      → Sound ys
      → Sound (if b then xs else ys)
  if-Sound true xs ys h h' = h
  if-Sound false xs ys h h' = h'

  others-Sound :
      (tokens : List ℕ) (es : List (PrefixEntry ly)) → Sound es → Sound (others ly tokens es)
  others-Sound tokens [] h = h
  others-Sound tokens (e ∷ es) h =
      let rest = others-Sound tokens es h.1 in
      if-Sound (same_tokens e.ids tokens) (others ly tokens es) (e ∷ others ly tokens es) rest
        (h.0, rest)

  append_entry-Sound :
      (es : List (PrefixEntry ly)) (e : PrefixEntry ly)
      → Sound es
      → e.layer_kv ≡ computed e.ids
      → Sound (append_entry ly es e)
  append_entry-Sound [] e h here = (here, h)
  append_entry-Sound (f ∷ fs) e h here = (h.0, append_entry-Sound fs e h.1 here)

  place-Sound :
      (e : PrefixEntry ly) (es : List (PrefixEntry ly))
      → e.layer_kv ≡ computed e.ids
      → Sound es
      → Sound (place ly e es)
  place-Sound e [] here h = (here, h)
  place-Sound e (f ∷ fs) here h =
      if-Sound (leb (length e.ids) (length f.ids)) (e ∷ f ∷ fs) (f ∷ place ly e fs) (here, h)
        (h.0, place-Sound e fs here h.1)

  sort-Sound : (es : List (PrefixEntry ly)) → Sound es → Sound (sort_by_length ly es)
  sort-Sound [] h = h
  sort-Sound (e ∷ es) h = place-Sound e (sort_by_length ly es) h.0 (sort-Sound es h.1)

  pop_oldest-Sound :
      (e : PrefixEntry ly) (es : List (PrefixEntry ly))
      → Sound (e ∷ es)
      → Sound (pop_oldest ly e es).1
  pop_oldest-Sound e [] h = h.1
  pop_oldest-Sound e (f ∷ fs) h = elim (Bool-cases (leb e.created (pop_oldest ly f fs).0.created)) [
    | inl older ↦ rw older h.1
    | inr newer ↦ rw newer (h.0, pop_oldest-Sound f fs h.1)
  ]

  evict_loop-Sound :
      (rounds : ℕ) (c : PrefixKvCache ly) (es : List (PrefixEntry ly))
      → Sound es
      → Sound (evict_loop ly rounds c es).entries
  unfolding evict_loop
  evict_loop-Sound zero c es h = h
  evict_loop-Sound (suc rounds) c [] h = h
  evict_loop-Sound (suc rounds) c (e ∷ es) h =
      elim (Bool-cases (ltb c.max_entries (length (e ∷ es)) || ltb c.max_bytes c.used_bytes)) [
        | inl over ↦
            rw over (evict_loop-Sound rounds _ (pop_oldest ly e es).1 (pop_oldest-Sound e es h))
        | inr within ↦ rw within h
      ]

  insert-Sound :
      (c : PrefixKvCache ly) (now : ℕ) (tokens : List ℕ) (layer_kv : List Kv)
      → Sound c.entries
      → layer_kv ≡ computed tokens
      → Sound (insert ly c now tokens layer_kv).1.entries
  unfolding insert
  insert-Sound c now tokens layer_kv h here =
      elim (Bool-cases (ltb c.max_bytes (sum_nbytes ly layer_kv))) [
        | inl large ↦ rw large h
        | inr fits ↦ rw fits (
            evict_loop-Sound _ _ _ (
              sort-Sound _ (
                append_entry-Sound (others ly tokens c.entries) _ (others-Sound tokens c.entries h)
                  here)))
      ]

  -- The prefill is causal: the tensors of a prefix are the prefixes of the tensors, and each layer
  -- covers all tokens.
  module _
      (restrict : (n : ℕ) (tokens : List ℕ)
        → n ≤ length tokens
        → map (prefix n) (computed tokens) ≡ computed (take n tokens))
      (covers : (tokens : List ℕ) (i : ℕ) (kv : Kv)
        → get_elem? (computed tokens) i ≡ some kv
        → seq_len kv ≡ length tokens) where
    snapshots-Sound :
        (c : PrefixKvCache ly) (now : ℕ) (tokens : List ℕ) (ns : List ℕ)
        → Sound c.entries
        → Sound (snapshots ly c now tokens (computed tokens) (length tokens) ns).entries
    unfolding snapshots
    snapshots-Sound c now tokens [] h = h
    snapshots-Sound c now tokens (n ∷ ns) h = elim (Bool-cases (leb n 0 || ltb (length tokens) n)) [
      | inl skip ↦ rw skip (snapshots-Sound c now tokens ns h)
      | inr go_on ↦
          let le : n ≤ length tokens = ground arith in
          let kvs = map (prefix n) (computed tokens) in
          let c' = (insert ly c now (take n tokens) kvs).1 in
          rw go_on (
            snapshots-Sound
              (record c' {
                stored =
                    if (insert ly c now (take n tokens) kvs).0 then c'.stored + 1 else c'.stored;
              })
              now tokens ns (insert-Sound c now (take n tokens) kvs h (restrict n tokens le)))
    ]

    uniform_from-head : (n : ℕ) (kvs : List Kv) (m : ℕ) → uniform_from ly n kvs ≡ some m → m ≡ n
    uniform_from-head n [] m h = ground arith
    uniform_from-head n (kv ∷ kvs) m h = ground (arith, uniform_from-head n kvs m)

    uniform-Sound :
        (c : PrefixKvCache ly) (now : ℕ) (tokens : List ℕ) (m n : ℕ) (kvs : List Kv)
        → m ≤ length tokens
        → Sound c.entries
        → kvs ≡ computed (take m tokens)
        → n ≡ m
        → Sound (store_uniform ly c now tokens kvs (some n)).entries
    uniform-Sound c now tokens m n kvs le h e same =
        subst (λ x. Sound (store_uniform ly c now tokens x (some n)).entries) (sym e)
          (subst
            (λ x. Sound (store_uniform ly c now tokens (computed (take m tokens)) (some x)).entries)
            (sym same) whole)
      where
        ns : List ℕ
        ns = marks ly m c.snapshot_every c.snapshot_every m

        seq : length (take m tokens) ≡ m
        seq = omega (arith, length-take m tokens, le)

        whole : Sound (store_uniform ly c now tokens (computed (take m tokens)) (some m)).entries
        whole =
            let short : ltb (length tokens) m ≡ false = ground arith in
            rw short (
              subst
                (λ x.
                  Sound
                    (snapshots ly c now (take m tokens) (computed (take m tokens)) x ns).entries)
                seq (snapshots-Sound c now (take m tokens) ns h))

    agreed-Sound :
        (c : PrefixKvCache ly) (now : ℕ) (tokens : List ℕ) (m n : ℕ) (kvs : List Kv) (o : Option ℕ)
        → m ≤ length tokens
        → Sound c.entries
        → kvs ≡ computed (take m tokens)
        → ((n' : ℕ) → o ≡ some n' → n' ≡ m)
        → Sound (store_uniform ly c now tokens kvs o).entries
    agreed-Sound c now tokens m n kvs none le h e at = h
    agreed-Sound c now tokens m n kvs (some n') le h e at =
        uniform-Sound c now tokens m n' kvs le h e (at n' refl)

    store_layers-Sound :
        (c : PrefixKvCache ly) (now : ℕ) (tokens : List ℕ) (m : ℕ) (kvs : List Kv)
        → m ≤ length tokens
        → Sound c.entries
        → kvs ≡ computed (take m tokens)
        → Sound (store ly c now tokens kvs).entries
    unfolding store
    store_layers-Sound c now [] m kvs le h e = h
    store_layers-Sound c now (t ∷ ts) m [] le h e = h
    store_layers-Sound c now (t ∷ ts) m (kv ∷ kvs) le h e =
        let head : seq_len kv ≡ length (take m (t ∷ ts)) =
          covers (take m (t ∷ ts)) 0 kv (ap (λ xs. get_elem? xs 0) (sym e)) in
        agreed-Sound c now (t ∷ ts) m m (kv ∷ kvs) (uniform_from ly (seq_len kv) kvs) le h e
          (λ n' at.
            uniform_from-head (seq_len kv) kvs n' at
            ∙ head
            ∙ omega (arith, length-take m (t ∷ ts), le))

    -- Storing the tensors that the first `m` tokens compute keeps every snapshot equal to what
    -- computing its ids gives, where the prefill is causal and each layer covers all tokens.
    pub store-Sound :
        (c : PrefixKvCache ly) (now : ℕ) (tokens : List ℕ) (m : ℕ)
        → m ≤ length tokens
        → Sound c.entries
        → Sound (store ly c now tokens (computed (take m tokens))).entries
    store-Sound c now tokens m le h =
        store_layers-Sound c now tokens m (computed (take m tokens)) le h refl

  usable-prefix :
      (tokens : List ℕ) (max_length : Option ℕ) (e : PrefixEntry ly)
      → usable ly tokens max_length e ≡ true
      → e.ids ≡ take (length e.ids) tokens
  unfolding usable
  usable-prefix tokens max_length e h = (same_tokens_iff e.ids (take (length e.ids) tokens)).0 (
      last (not (ltb (length tokens) (length e.ids) || length e.ids == 0))
        (below ly max_length (length e.ids)) _ h)
    where
      last : (a b c : Bool) → a && b && c ≡ true → c ≡ true
      last true true c h = h
      last true false c h = ground arith
      last false b c h = ground arith

  abbrev pub HitIsLossless : List ℕ → Option (PrefixEntry ly) → Type 0
  HitIsLossless tokens none = 0 ≤ 0
  HitIsLossless tokens (some hit) = hit.layer_kv ≡ computed (take (length hit.ids) tokens)

  -- What `lookup` returns from a sound cache is what the prefix of the given tokens computes.
  pub lookup-HitIsLossless :
      (c : PrefixKvCache ly) (now : ℕ) (tokens : List ℕ) (min_length : ℕ) (max_length : Option ℕ)
      → Sound c.entries
      → HitIsLossless tokens (lookup ly c now tokens min_length max_length).0
  lookup-HitIsLossless c now tokens min_length max_length h =
      from (lookup ly c now tokens min_length max_length).0
        (lookup-LookupAnswers ly c now tokens min_length max_length)
    where
      from :
          (o : Option (PrefixEntry ly))
          → LookupAnswers ly c now tokens min_length max_length o
          → HitIsLossless tokens o
      from none a = omega arith
      from (some hit) (i, best, found, ge, ids, kv) =
          kv
          ∙ get_elem?-Sound c.entries i best h found.stored
          ∙ ap computed (usable-prefix tokens max_length best found.fits)
          ∙ ap (λ xs. computed (take (length xs) tokens)) (sym ids)
