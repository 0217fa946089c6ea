-- ===== src/ExpertCache/Delivery.antt =====
-- The keys that the first loop of `get_many` of src/swlp/runner/mlx_expert_cache.py leaves pending.
use swlp.Prelude.{
  ℕ, ◌+◌, ◌≡◌, refl, sym, ap, subst, ◌∙◌, Bool, true, false, if-all, ◌||◌, Option, none, some, List,
  [], ◌∷◌, ◌++◌, arith, if◌then◌else◌, Bool-cases, inl, inr, ◌⊎◌,
}
use swlp.ExpertCache.{
  ExpertSource, Key, same_key, find, is_some, is_in, note, request, request_loop,
}
use swlp.ExpertCache.Evict.{Cache}
use swlp.ExpertCache.Budget.{same_key-eq}

-- The keys that are asked for.
abbrev pub requested : ℕ → List ℕ → List Key
requested layer [] = []
requested layer (eid ∷ eids) = record { layer = layer; eid = eid } ∷ requested layer eids

pub or_right : (a b : Bool) → b ≡ true → a || b ≡ true
or_right true b e = refl
or_right false b e = e

module _ {W : Type 0} (size : W → ℕ) (source : ExpertSource W) where
  abbrev pub Has : List (Key × W) → Key → Type 0
  Has out j = is_some size source (find size source j out) ≡ true

  abbrev pub In : List Key → Key → Type 0
  In ks j = is_in size source j ks ≡ true

  pub append-Has :
      (out : List (Key × W)) (k : Key) (w : W) (j : Key)
      → Has out j ⊎ (same_key k j ≡ true)
      → Has (out ++ (k, w) ∷ []) j
  append-Has [] k w j (inl h) = ground arith
  append-Has [] k w j (inr h) = rw h refl
  append-Has ((i, v) ∷ out) k w j h = elim (Bool-cases (same_key i j)) [
    | inl here ↦ rw here refl
    | inr there ↦ rw there (
        append-Has out k w j (elim h [
          | inl old ↦ inl (
              sym
                (ap (λ b. is_some size source (if b then some v else find size source j out)) there)
              ∙ old)
          | inr new ↦ inr new
        ]))
  ]

  append-In : (ks : List Key) (k j : Key) → In ks j ⊎ (same_key k j ≡ true) → In (ks ++ k ∷ []) j
  append-In [] k j (inl h) = ground arith
  append-In [] k j (inr h) = rw h refl
  append-In (i ∷ ks) k j h = elim (Bool-cases (same_key i j)) [
    | inl here ↦ rw here refl
    | inr there ↦ rw there (
        append-In ks k j (elim h [
          | inl old ↦ inl (sym (ap (λ b. b || is_in size source j ks) there) ∙ old)
          | inr new ↦ inr new
        ]))
  ]

  note-In :
      (k : Key) (ks : List Key) (j : Key)
      → In ks j ⊎ (same_key k j ≡ true)
      → In (note size source k ks) j
  note-In k ks j h = elim (Bool-cases (is_in size source k ks)) [
    | inl there ↦
        rw there (elim h [
          | inl old ↦ old
          | inr new ↦ subst (In ks) (same_key-eq size source k j new) there
        ])
    | inr missing ↦ rw missing (append-In ks k j h)
  ]

  -- A key is given out already, or waits for its read.
  abbrev Held : Cache size source × List Key × List (Key × W) → Key → Type 0
  Held (c, pending, out) j = Has out j ⊎ In pending j

  request-Held :
      (c : Cache size source) (k : Key) (pending : List Key) (out : List (Key × W)) (o : Option W)
      (j : Key)
      → (Has out j ⊎ In pending j) ⊎ (same_key k j ≡ true)
      → Held (request size source c k pending out o) j
  request-Held c k pending out (some w) j (inl (inl h)) = inl (append-Has out k w j (inl h))
  request-Held c k pending out (some w) j (inl (inr h)) = inr h
  request-Held c k pending out (some w) j (inr h) = inl (append-Has out k w j (inr h))
  request-Held c k pending out none j h = elim (Bool-cases (is_in size source k c.inflight)) [
    | inl flying ↦ rw flying noted
    | inr missing ↦ rw missing noted
  ]
    where
      noted : Has out j ⊎ In (note size source k pending) j
      noted = elim h [
        | inl (inl old) ↦ inl old
        | inl (inr old) ↦ inr (note-In k pending j (inl old))
        | inr new ↦ inr (note-In k pending j (inr new))
      ]

  pub request_loop-Held :
      (layer : ℕ) (c : Cache size source) (eids : List ℕ) (pending : List Key)
      (out : List (Key × W)) (j : Key)
      → (Has out j ⊎ In pending j) ⊎ In (requested layer eids) j
      → Held (request_loop size source layer c eids pending out) j
  unfolding request_loop
  request_loop-Held layer c [] pending out j (inl h) = h
  request_loop-Held layer c [] pending out j (inr h) = absurd (ground arith)
  request_loop-Held layer c (eid ∷ eids) pending out j h =
      let k : Key = record { layer = layer; eid = eid } in
      let r = request size source c k pending out (find size source k c.cache) in
      request_loop-Held layer r.0 eids r.1 r.2 j (next h)
    where
      step :
          (Has out j ⊎ In pending j) ⊎ (same_key (record { layer = layer; eid = eid }) j ≡ true)
          → Held
              (request size source c
                (record { layer = layer; eid = eid })
                pending
                out
                (find size source (record { layer = layer; eid = eid }) c.cache))
              j
      step = request-Held c (record { layer = layer; eid = eid }) pending out _ j

      next :
          (Has out j ⊎ In pending j) ⊎ In (requested layer (eid ∷ eids)) j
          → Held
              (request size source c
                (record { layer = layer; eid = eid })
                pending
                out
                (find size source (record { layer = layer; eid = eid }) c.cache))
              j
            ⊎ In (requested layer eids) j
      next (inl old) = inl (step (inl old))
      next (inr new) = elim (Bool-cases (same_key (record { layer = layer; eid = eid }) j)) [
        | inl here ↦ inl (step (inr here))
        | inr there ↦
            inr (sym (ap (λ b. b || is_in size source j (requested layer eids)) there) ∙ new)
      ]

  -- The other way round: what waits for its read is asked for.
  In-append : (ks : List Key) (k j : Key) → In (ks ++ k ∷ []) j → In ks j ⊎ (same_key k j ≡ true)
  In-append [] k j h = elim (Bool-cases (same_key k j)) [
    | inl here ↦ inr here
    | inr there ↦
        absurd (let clash : false ≡ true = sym (ap (λ b. b || false) there) ∙ h in ground arith)
  ]
  In-append (i ∷ ks) k j h = elim (Bool-cases (same_key i j)) [
    | inl here ↦ inl (ap (λ b. b || is_in size source j ks) here)
    | inr there ↦
        elim (In-append ks k j
          (sym (ap (λ b. b || is_in size source j (ks ++ k ∷ [])) there) ∙ h)) [
            | inl old ↦ inl (ap (λ b. b || is_in size source j ks) there ∙ old)
            | inr new ↦ inr new
          ]
  ]

  In-note :
      (k : Key) (ks : List Key) (j : Key)
      → In (note size source k ks) j
      → In ks j ⊎ (same_key k j ≡ true)
  In-note k ks j =
      if-all (λ ns. In ns j → In ks j ⊎ (same_key k j ≡ true)) (is_in size source k ks) ks
        (ks ++ k ∷ []) (λ there h. inl h) (λ missing h. In-append ks k j h)

  pub request_loop-In :
      (P : Key → Type 0) (layer : ℕ) (c : Cache size source) (eids : List ℕ) (pending : List Key)
      (out : List (Key × W))
      → ((j : Key) → In (requested layer eids) j → P j)
      → ((j : Key) → In pending j → P j)
      → (j : Key) → In (request_loop size source layer c eids pending out).1 j
      → P j
  unfolding request_loop
  request_loop-In P layer c [] pending out asked waiting j h = waiting j h
  request_loop-In P layer c (eid ∷ eids) pending out asked waiting j h =
      let k : Key = record { layer = layer; eid = eid } in
      let r = request size source c k pending out (find size source k c.cache) in
      request_loop-In P layer r.0 eids r.1 r.2
        (λ j h. asked j (or_right (same_key k j) (is_in size source j (requested layer eids)) h))
        (still (find size source k c.cache)) j h
    where
      k : Key
      k = record { layer = layer; eid = eid }

      noted : (j : Key) → In (note size source k pending) j → P j
      noted j h = elim (In-note k pending j h) [
        | inl old ↦ waiting j old
        | inr new ↦ asked j (ap (λ b. b || is_in size source j (requested layer eids)) new)
      ]

      still : (o : Option W) (j : Key) → In (request size source c k pending out o).1 j → P j
      still (some w) j h = waiting j h
      still none j h =
          if-all (λ (r : Cache size source × List Key × List (Key × W)). (j : Key) → In r.1 j → P j)
            (is_in size source k c.inflight)
            (record c { prefetch_hits = c.prefetch_hits + 1 }, note size source k pending, out)
            (
              record c { misses = c.misses + 1; inflight = c.inflight ++ k ∷ [] },
              note size source k pending,
              out,
            )
            (λ flying. noted) (λ missing. noted) j h
