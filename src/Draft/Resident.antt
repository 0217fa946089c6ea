-- ===== src/Draft/Resident.antt =====
-- `DraftModelDrafter` of src/swlp/runner/draft.py heals itself: what it proposes, and what its cache
-- covers afterwards, do not depend on the proposals and rejections before.
use swlp.Prelude.{
  Bool, if-all, ℕ, zero, suc, ◌+◌, ◌-◌, ◌≤◌, ◌<◌, min, ◌≡◌, refl, sym, ap, subst, ◌∙◌, false,
  Option, none, some, List, [], ◌∷◌, ◌++◌, append-nil, append_assoc, ◌||◌, arith, ◌==◌, ==_iff,
  Bool-cases, inl, inr, length, last-append, get_or, take, drop, length-drop, length-take,
  take-append-drop, take_of_length-le,
}
use swlp.Model.{Model}
use swlp.Draft.{
  AdaptiveDraftLength, DraftModelDrafter, common_prefix, reset, cropped, sync_cache, cache_of,
  draft_loop, propose,
}

common_prefix_bounds :
    (limit : ℕ) (cached tokens : List ℕ)
    → (common_prefix limit cached tokens ≤ limit)
      × (common_prefix limit cached tokens ≤ length cached)
      × (common_prefix limit cached tokens ≤ length tokens)
unfolding common_prefix
common_prefix_bounds zero cached tokens = omega arith
common_prefix_bounds (suc limit) [] tokens = omega arith
common_prefix_bounds (suc limit) (x ∷ cached) [] = omega arith
common_prefix_bounds (suc limit) (x ∷ cached) (t ∷ tokens) =
    ground (arith, common_prefix_bounds limit cached tokens)

take-common_prefix :
    (limit : ℕ) (cached tokens : List ℕ)
    → take (common_prefix limit cached tokens) cached
      ≡ take (common_prefix limit cached tokens) tokens
unfolding common_prefix
take-common_prefix zero cached tokens = refl
take-common_prefix (suc limit) [] tokens = refl
take-common_prefix (suc limit) (x ∷ cached) [] = refl
take-common_prefix (suc limit) (x ∷ cached) (t ∷ tokens) =
    ground (arith, take-common_prefix limit cached tokens, ==_iff x t)

module _ (m : Model) (empty : m.Cache) (crops : ℕ → m.Cache → Bool)
    (fresh : m.seq_length empty ≡ 0) where
  open m use {Score, Cache, seq_length, feed, logits, crop, argmax}

  -- The cache is the one that feeding `cached_ids` to a new cache gives.
  abbrev CoversOpt : Option Cache → List ℕ → Type 0
  CoversOpt none ids = ids ≡ []
  CoversOpt (some c) ids = c ≡ feed 0 ids empty

  abbrev pub Covers : DraftModelDrafter Cache → Type 0
  Covers d = CoversOpt d.cache d.cached_ids

  -- After `_sync_cache` the cached ids are a proper prefix of the tokens.
  pub record IsSynced (d : DraftModelDrafter Cache) (tokens : List ℕ) : Type 0 where
    pub covers : Covers d
    pub prefix : d.cached_ids ≡ take (length d.cached_ids) tokens
    pub proper : length d.cached_ids < length tokens

  module _ (d : DraftModelDrafter Cache) (tokens : List ℕ) where
    cropped-IsSynced :
        (p : ℕ) (o : Option Cache)
        → CoversOpt o d.cached_ids
        → p ≤ length d.cached_ids
        → p < length tokens
        → take p d.cached_ids ≡ take p tokens
        → IsSynced (cropped m empty crops d p o) tokens
    unfolding cropped reset
    cropped-IsSynced p none covers le lt same = no_cache
      where
        no_cache : IsSynced (reset m empty crops d) tokens
        no_cache = record { covers = refl; prefix = refl; proper = omega arith }
    cropped-IsSynced p (some c) covers le lt same =
        if-all (λ d'. IsSynced d' tokens) (crops p c)
          (record d { cache = some (crop p c); cached_ids = take p d.cached_ids })
          (reset m empty crops d)
          (λ done. record {
            covers =
                ap (crop p)
                  (covers ∙ ap (λ xs. feed 0 xs empty) (sym (take-append-drop p d.cached_ids)))
                ∙ ap (λ k. crop k (feed 0 (take p d.cached_ids ++ drop p d.cached_ids) empty)) size
                ∙ m.crop-feed 0 (take p d.cached_ids) (drop p d.cached_ids) empty;
            prefix = rw whole same;
            proper = omega (arith, whole);
          })
          (λ failed. record { covers = refl; prefix = refl; proper = omega arith })
      where
        whole : length (take p d.cached_ids) ≡ p
        whole = omega (arith, length-take p d.cached_ids)

        size : p ≡ seq_length empty + length (take p d.cached_ids)
        size = omega (arith, fresh, length-take p d.cached_ids)

    sync_cache-IsSynced :
        Covers d → 0 < length tokens → IsSynced (sync_cache m empty crops d tokens) tokens
    unfolding sync_cache reset
    sync_cache-IsSynced covers pos = elim (Bool-cases (p == length d.cached_ids)) [
      | inl all ↦
          let e : p ≡ length d.cached_ids = (==_iff _ _).0 all in
          rw all (record {
            covers = covers;
            prefix =
                sym (take_of_length-le (length d.cached_ids) d.cached_ids (omega arith))
                ∙ subst (λ k. take k d.cached_ids ≡ take k tokens) e
                    (take-common_prefix limit d.cached_ids tokens);
            proper = omega (arith, bounds.0);
          })
      | inr some_ids ↦ elim (Bool-cases (p == 0)) [
        | inl nothing ↦
            rw (some_ids, nothing) (record { covers = refl; prefix = refl; proper = pos })
        | inr some_kept ↦
            rw (some_ids, some_kept)
              (cropped-IsSynced p d.cache covers bounds.1 (omega (arith, bounds.0))
                (take-common_prefix limit d.cached_ids tokens))
      ]
    ]
      where
        limit : ℕ
        limit = min (length d.cached_ids) (length tokens - 1)

        p : ℕ
        p = common_prefix limit d.cached_ids tokens

        bounds : (p ≤ limit) × (p ≤ length d.cached_ids) × (p ≤ length tokens)
        bounds = common_prefix_bounds limit d.cached_ids tokens

  forward_split :
      (ids delta : List ℕ)
      → 0 < length delta
      → (rounds : ℕ)
      → draft_loop m empty crops (suc rounds) delta (feed 0 ids empty)
        ≡ draft_loop m empty crops (suc rounds) (ids ++ delta) empty
  unfolding draft_loop
  forward_split ids delta pos rounds =
      let at : seq_length (feed 0 ids empty) ≡ 0 + length ids =
        omega (arith, m.seq_length-feed 0 ids empty, fresh) in
      let scored = logits (0 + length ids) delta (feed 0 ids empty) in
      let rows : 0 < length scored =
        omega (arith, m.length-logits (0 + length ids) delta (feed 0 ids empty)) in
      rw
        (
          at,
          fresh,
          m.logits-append 0 ids delta empty,
          m.feed-append 0 ids delta empty,
          last-append (logits 0 ids empty) scored [] rows,
        )
        refl

  -- The first forward of a synced drafter computes what a forward over all the tokens computes.
  first_forward :
      (d : DraftModelDrafter Cache) (tokens : List ℕ)
      → IsSynced d tokens
      → (rounds : ℕ)
      → draft_loop m empty crops
          (suc rounds)
          (drop (length d.cached_ids) tokens)
          (cache_of m empty crops d.cache)
        ≡ draft_loop m empty crops (suc rounds) tokens empty
  first_forward d tokens h rounds = go d.cache h.covers
    where
      ids : List ℕ
      ids = d.cached_ids

      delta : List ℕ
      delta = drop (length ids) tokens

      whole : ids ++ delta ≡ tokens
      whole = ap (λ xs. xs ++ delta) h.prefix ∙ take-append-drop (length ids) tokens

      go :
          (o : Option Cache)
          → CoversOpt o ids
          → draft_loop m empty crops (suc rounds) delta (cache_of m empty crops o)
            ≡ draft_loop m empty crops (suc rounds) tokens empty
      go none covers =
          ap (λ xs. draft_loop m empty crops (suc rounds) (drop (length xs) tokens) empty) covers
      go (some c) covers =
          ap (draft_loop m empty crops (suc rounds) delta) covers
          ∙ forward_split ids delta (omega (arith, h.proper, length-drop (length ids) tokens))
              rounds
          ∙ ap (λ xs. draft_loop m empty crops (suc rounds) xs empty) whole

  length-draft_loop :
      (rounds : ℕ) (xs : List ℕ) (c : Cache)
      → length (draft_loop m empty crops rounds xs c).0 ≡ rounds
  unfolding draft_loop
  length-draft_loop zero xs c = refl
  length-draft_loop (suc rounds) xs c = ap suc (length-draft_loop rounds _ _)

  -- The cache that the loop leaves covers all that was fed: every draft but the last.
  fed_by_loop :
      (rounds : ℕ) (ids xs : List ℕ) (c : Cache)
      → feed (seq_length c) xs c ≡ feed 0 ids empty
      → (draft_loop m empty crops (suc rounds) xs c).1
        ≡ feed 0 (ids ++ take rounds (draft_loop m empty crops (suc rounds) xs c).0) empty
  unfolding draft_loop
  fed_by_loop zero ids xs c e = e ∙ ap (λ ys. feed 0 ys empty) (sym (append-nil ids))
  fed_by_loop (suc rounds) ids xs c e =
      let next =
        argmax (get_or (logits (seq_length c) xs c) (length (logits (seq_length c) xs c) - 1) []) in
      let c' = feed (seq_length c) xs c in
      let at : seq_length c' ≡ 0 + length ids =
        omega (arith, ap seq_length e, m.seq_length-feed 0 ids empty, fresh) in
      let e' : feed (seq_length c') (next ∷ []) c' ≡ feed 0 (ids ++ next ∷ []) empty =
        ap (λ k. feed k (next ∷ []) c') at
        ∙ ap (feed (0 + length ids) (next ∷ [])) e
        ∙ sym (m.feed-append 0 ids (next ∷ []) empty) in
      fed_by_loop rounds (ids ++ next ∷ []) (next ∷ []) c' e'
      ∙ ap (λ ys. feed 0 ys empty) (append_assoc ids (next ∷ []) _)

  adaptive-sync_cache :
      (d : DraftModelDrafter Cache) (tokens : List ℕ)
      → (sync_cache m empty crops d tokens).adaptive ≡ d.adaptive
  unfolding sync_cache reset cropped
  adaptive-sync_cache d tokens = ground arith

  forwards_agree :
      (d : DraftModelDrafter Cache) (tokens : List ℕ) (rounds : ℕ)
      → IsSynced d tokens
      → 0 < rounds
      → draft_loop m empty crops rounds
          (drop (length d.cached_ids) tokens)
          (cache_of m empty crops d.cache)
        ≡ draft_loop m empty crops rounds tokens empty
  forwards_agree d tokens zero h pos = absurd (omega arith)
  forwards_agree d tokens (suc rounds) h pos = first_forward d tokens h rounds

  -- What a new drafter with this draft length proposes, and the state that it is left in.
  proposed : AdaptiveDraftLength → List ℕ → List ℕ × DraftModelDrafter Cache
  proposed adaptive tokens =
      let (drafted, c) = draft_loop m empty crops adaptive.k tokens empty in
      (
        drafted,
        record {
          adaptive = adaptive;
          cache = some c;
          cached_ids = tokens ++ take (length drafted - 1) drafted;
        },
      )

  propose-proposed :
      (d : DraftModelDrafter Cache) (tokens : List ℕ)
      → Covers d
      → 0 < length tokens
      → 0 < d.adaptive.k
      → propose m empty crops d tokens ≡ proposed d.adaptive tokens
  unfolding propose proposed
  propose-proposed d tokens covers pos drafts =
      let runs : (d.adaptive.k == 0 || length tokens == 0) ≡ false = ground arith in
      let synced = sync_cache-IsSynced d tokens covers pos in
      rw
        (
          runs,
          forwards_agree (sync_cache m empty crops d tokens) tokens d.adaptive.k synced drafts,
          adaptive-sync_cache d tokens,
        )
        refl

  proposed-Covers :
      (rounds : ℕ) (tokens : List ℕ)
      → 0 < rounds
      → let (drafted, c) = draft_loop m empty crops rounds tokens empty in
        c ≡ feed 0 (tokens ++ take (length drafted - 1) drafted) empty
  proposed-Covers zero tokens pos = absurd (omega arith)
  proposed-Covers (suc rounds) tokens pos =
      let size : length (draft_loop m empty crops (suc rounds) tokens empty).0 - 1 ≡ rounds =
        omega (arith, length-draft_loop (suc rounds) tokens empty) in
      rw size (fed_by_loop rounds tokens tokens empty (ap (λ k. feed k tokens empty) fresh))

  -- Whatever was proposed and rejected before, and whichever crops of the cache raise, a drafter whose
  -- cache covers its ids proposes what a new one proposes, and its cache covers its ids again.
  pub propose-reset :
      (d : DraftModelDrafter Cache) (tokens : List ℕ)
      → Covers d
      → 0 < length tokens
      → 0 < d.adaptive.k
      → (propose m empty crops d tokens ≡ propose m empty crops (reset m empty crops d) tokens)
        × Covers (propose m empty crops d tokens).1
  unfolding proposed reset
  propose-reset d tokens covers pos drafts =
      let same = propose-proposed d tokens covers pos drafts in
      (
        same ∙ sym (propose-proposed (reset m empty crops d) tokens refl pos drafts),
        subst (λ (r : List ℕ × DraftModelDrafter Cache). Covers r.1) (sym same)
            (proposed-Covers d.adaptive.k tokens drafts),
      )
