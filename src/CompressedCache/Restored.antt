-- ===== src/CompressedCache/Restored.antt =====
-- The layers of src/swlp/core/compressed_cache.py over the KV manager: what the cache stands for.
use swlp.Prelude.{
  ℕ, ◌≡◌, ◌≢◌, refl, sym, ap, subst, ◌∙◌, Bool, true, false, Option, none, some, Result, ok, err,
  if◌then◌else◌, put, put_self, put-all_ne, arith,
}
use swlp.KvCache.Backend.{Storage}
use swlp.KvCache.{KvCacheManager}
use swlp.KvCache.Budget.{maybe_evict}
use swlp.KvCache.Access.{SetError, value_error, set_layer}
use swlp.KvCache.Kept.{Refines}
use swlp.KvCache.Refinement.{Stored, Refuses, update_here, update_apart}
use swlp.KvCache.Written.{Sets, set_layer-Refines}
use swlp.KvCache.Maintained.{maybe_evict-Refines}
use swlp.CompressedCache.{
  CompressedDynamicLayer, CompressedDynamicCache, kept_length, cold_layer, CompressError,
  set_raised, stored_cold, compressed, compress, restored, warm_layer,
}

module _ (st : Storage) where
  open st use {Tensors, seq_len, keep_last}

  -- What the layer stands for: its own tensors, or what the manager keeps for it.
  abbrev pub Stands :
      (ℕ → Option Tensors) → (ℕ → Option Tensors) → ℕ → CompressedDynamicLayer st → Type 0
  Stands A B i l = (if l.cold then A i else l.keys) ≡ B i

  -- The cache stands for the map `B` from layers to tensors; `A` is what the manager keeps.
  pub record StandsFor (c : CompressedDynamicCache st) (B : ℕ → Option Tensors) : Type 0 where
    pub kept : ℕ → Option Tensors
    pub refines : Refines st c.kv_manager kept
    pub stands : (i : ℕ) → Stands kept B i (c.layers i)
    pub bare : (i : ℕ) → (c.layers i).cold ≡ true → (c.layers i).keys ≡ none

  -- The one entry of a map that a compression or an update changes.
  abbrev pub with_layer : (ℕ → Option Tensors) → ℕ → Option Tensors → ℕ → Option Tensors
  with_layer B i o = swlp.KvCache.Refinement.update st B i o

  apart_in_map :
      (A B : ℕ → Option Tensors) (i j : ℕ) (v : Option Tensors) (l : CompressedDynamicLayer st)
      → j ≢ i
      → Stands A B j l
      → Stands A (with_layer B i v) j l
  apart_in_map A B i j v l differ h = h ∙ update_apart st B i j v (λ e. differ (sym e))

  -- A manager whose map differs at `i` only.
  apart_in_manager :
      (A B : ℕ → Option Tensors) (i j : ℕ) (v : Option Tensors) (l : CompressedDynamicLayer st)
      → j ≢ i
      → Stands A B j l
      → Stands (with_layer A i v) B j l
  apart_in_manager A B i j v l differ h =
      ap (λ a. if l.cold then a else l.keys) (sym (update_apart st A i j v (λ e. differ (sym e))))
      ∙ h

  -- A layer of the cache is changed to `l`.
  pub changed-StandsFor :
      (c : CompressedDynamicCache st) (B A : ℕ → Option Tensors) (i : ℕ)
      (l : CompressedDynamicLayer st) (s : KvCacheManager st) (v : Option Tensors)
      → Refines st s A
      → Stands A (with_layer B i v) i l
      → (l.cold ≡ true → l.keys ≡ none)
      → ((j : ℕ) → j ≢ i → Stands A B j (c.layers j))
      → StandsFor c B
      → StandsFor (record c { layers = put c.layers i l; kv_manager = s }) (with_layer B i v)
  changed-StandsFor c B A i l s v ref here bare others h = record {
    kept = A;
    refines = ref;
    stands =
        put-all_ne (Stands A (with_layer B i v)) c.layers i l here
          (λ j differ. apart_in_map A B i j v (c.layers j) differ (others j differ));
    bare =
        put-all_ne (λ j k. k.cold ≡ true → k.keys ≡ none) c.layers i l bare (λ j differ. h.bare j);
  }

  -- The cache stands for the same layers as before, this one with what a store makes of `t`; or INT4 is
  -- on and refuses `t`, and the layer is still warm with its tensors.
  abbrev pub Compresses :
      CompressedDynamicCache st
      → (ℕ → Option Tensors)
      → ℕ
      → Tensors
      → Result (CompressError st) (CompressedDynamicCache st)
      → Type 0
  Compresses c B i t (ok c') =
      (v : Option Tensors) × (n : ℕ) × Stored st c.kv_manager.int4 c.kv_manager.kv_window (some t) v
        n
      × StandsFor c' (with_layer B i v)
      × ((c'.layers i).cold ≡ true)
  Compresses c B i t (err (set_raised c')) =
      Refuses st c.kv_manager.int4 c.kv_manager.kv_window (some t)
      × ((c'.layers i).cold ≡ false)
      × ((c'.layers i).keys ≡ some t)

  stored_cold-Compresses :
      (c : CompressedDynamicCache st) (B : ℕ → Option Tensors) (i : ℕ) (t : Tensors)
      (r : Result (SetError st) (KvCacheManager st))
      → (c.layers i).cold ≡ false
      → (c.layers i).keys ≡ some t
      → (h : StandsFor c B) → Sets st c.kv_manager h.kept i (some t) r
      → Compresses c B i t (stored_cold st c i t r)
  stored_cold-Compresses c B i t (ok s) warm full h w =
      let v = w.value in
      let A = with_layer h.kept i v in
      let l = cold_layer st c.kv_manager.kv_window t in
      (
        v,
        w.bytes,
        w.stored,
        changed-StandsFor c B A i l (maybe_evict st s i) v (maybe_evict-Refines st s A i w.refines)
            (update_here st h.kept i v ∙ sym (update_here st B i v)) (λ e. refl)
            (λ j differ. apart_in_manager h.kept B i j v (c.layers j) differ (h.stands j)) h,
        ap (λ k. k.cold) (put_self c.layers i l),
      )
  stored_cold-Compresses c B i t (err (value_error s)) warm full h w =
      let l = record (c.layers i) { cold_seq_len = kept_length st c.kv_manager.kv_window t } in
      (
        w.refuses,
        ap (λ k. k.cold) (put_self c.layers i l) ∙ warm,
        ap (λ k. k.keys) (put_self c.layers i l) ∙ full,
      )

  -- Compressing a warm layer with tensors hands them to the manager: the layer is cold, and the cache
  -- stands for the same layers as before, this one with what a store makes of its tensors, that is with
  -- its last positions under a sliding window, and quantised with INT4; with neither, nothing changes.
  -- Or `compress` raises, because INT4 is on and refuses the tensors; the layer is then still warm and
  -- has its tensors.
  pub compress-StandsFor :
      (c : CompressedDynamicCache st) (B : ℕ → Option Tensors) (now i : ℕ) (on_device : Bool)
      (t : Tensors)
      → (c.layers i).cold ≡ false
      → (c.layers i).keys ≡ some t
      → StandsFor c B
      → Compresses c B i t (compress st c now i on_device)
  unfolding compress
  compress-StandsFor c B now i on_device t warm full h =
      subst (Compresses c B i t)
        (sym (
          ap (λ b. compressed st c now i on_device b (c.layers i).keys) warm
          ∙ ap (compressed st c now i on_device false) full))
        (stored_cold-Compresses c B i t (set_layer st c.kv_manager now i on_device (some t)) warm
          full h (set_layer-Refines st c.kv_manager h.kept now i on_device (some t) h.refines))

  pub same-StandsFor :
      (c : CompressedDynamicCache st) (B B' : ℕ → Option Tensors)
      → ((j : ℕ) → B j ≡ B' j)
      → StandsFor c B
      → StandsFor c B'
  same-StandsFor c B B' same h = record {
    kept = h.kept;
    refines = h.refines;
    stands = λ j. h.stands j ∙ same j;
    bare = h.bare;
  }

  -- What `decompress` of a cold layer makes of the answer `v` of the manager.
  pub record Warmed (c c' : CompressedDynamicCache st) (B : ℕ → Option Tensors) (i : ℕ)
      : Type 0 where
    pub warmed : (c'.layers i).cold ≡ false
    pub stands_for : StandsFor c' B

  pub restored-Warmed :
      (c : CompressedDynamicCache st) (B A : ℕ → Option Tensors) (i : ℕ) (v : Option Tensors)
      (s : KvCacheManager st)
      → (c.layers i).cold ≡ true
      → Refines st s A
      → ((j : ℕ) → Stands A B j (c.layers j))
      → StandsFor c B
      → (c' : CompressedDynamicCache st) × (restored st c i (ok (v, s)) ≡ ok c')
        × Warmed c c' (with_layer B i v) i
  restored-Warmed c B A i (some t) s cold ref stand h =
      let l = warm_layer st (c.layers i) (some t) in
      (
        record c { layers = put c.layers i l; kv_manager = s },
        refl,
        record {
          warmed = ap (λ k. k.cold) (put_self c.layers i l);
          stands_for =
              changed-StandsFor c B A i l s (some t) ref (sym (update_here st B i (some t)))
                (λ e. absurd (ground arith)) (λ j differ. stand j) h;
        },
      )
  restored-Warmed c B A i none s cold ref stand h =
      let l = warm_layer st (c.layers i) (c.layers i).keys in
      (
        record c { layers = put c.layers i l; kv_manager = s },
        refl,
        record {
          warmed = ap (λ k. k.cold) (put_self c.layers i l);
          stands_for =
              changed-StandsFor c B A i l s none ref (h.bare i cold ∙ sym (update_here st B i none))
                (λ e. h.bare i cold) (λ j differ. stand j) h;
        },
      )
