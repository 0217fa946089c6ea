-- ===== src/KvCache/Kept.antt =====
-- What the entries of src/swlp/core/kv_cache.py stand for, and that the tiers keep it: moving an
-- entry between device, host, compressed memory and disk loses no layer's tensors.
use swlp.Prelude.{
  ℕ, ◌≡◌, ◌≢◌, refl, sym, ap, ap₂, subst, ◌∙◌, Bool, true, false, ◌⊎◌, inl, inr, Option, none, some,
  List, ℕ_discrete, if◌then◌else◌,
}
use swlp.KvCache.Backend.{Storage}
use swlp.KvCache.{
  Location, device, host, compressed, disk, same_location, Usage, KvEntry, KvCacheManager, lookup,
  insert, add_usage, remove_usage, usage_of, replace, at_entry, on_entry,
}
use swlp.KvCache.Tiers.{offloaded, offload_to_host, compressed_from, compress_entry}
use swlp.KvCache.Accounting.{usage_of-insert, lookup-insert_self, lookup-insert_ne}

module _ (st : Storage) where
  open st use {Tensors, Bytes, Quantized}

  abbrev pub Warm : Location → Type 0
  Warm l = (l ≡ device) ⊎ (l ≡ host)

  -- The entry `e`, with the content of its spill file, stands for the value `o`. A spill file is
  -- there exactly for the entries on disk.
  pub data Holds (file : Option Bytes) (e : KvEntry st) (o : Option Tensors) : Type 0 where
    empty :
        o ≡ none
        → e.tensors ≡ none
        → e.packed ≡ none
        → e.quantized_tensors ≡ none
        → e.location ≡ host
        → e.has_path ≡ false
        → file ≡ none
        → Holds file e o
    held :
        (t : Tensors)
        → o ≡ some t
        → e.tensors ≡ some t
        → e.quantized_tensors ≡ none
        → Warm e.location
        → e.has_path ≡ false
        → file ≡ none
        → Holds file e o
    packed_in :
        (t : Tensors)
        → o ≡ some t
        → e.tensors ≡ none
        → e.packed ≡ some (st.compress (st.save t))
        → e.quantized_tensors ≡ none
        → e.location ≡ compressed
        → e.has_path ≡ false
        → file ≡ none
        → Holds file e o
    spilled :
        (t : Tensors) (raw : Bytes)
        → o ≡ some t
        → e.tensors ≡ none
        → e.quantized_tensors ≡ none
        → e.location ≡ disk
        → e.has_path ≡ true
        → file ≡ some raw
        → (raw ≡ st.save t) ⊎ (raw ≡ st.compress (st.save t))
        → Holds file e o
    quantised :
        (q : Quantized)
        → o ≡ some (st.dequantize q)
        → e.tensors ≡ none
        → e.quantized_tensors ≡ some q
        → e.location ≡ host
        → e.has_path ≡ false
        → file ≡ none
        → Holds file e o

  abbrev pub Kept : Option Bytes → Option (KvEntry st) → Option Tensors → Type 0
  Kept file none o = (o ≡ none) × (file ≡ none)
  Kept file (some e) o = Holds file e o

  pub record RefinesAt (es : List (ℕ × KvEntry st)) (u : Usage) (files : ℕ → Option Bytes)
      (A : ℕ → Option Tensors) : Type 0 where
    pub accounted : u ≡ usage_of st es
    pub kept : (k : ℕ) → Kept (files k) (lookup st k es) (A k)

  -- The manager implements the map `A` from layers to tensors, and its counters are the sums over
  -- its entries.
  abbrev pub Refines : KvCacheManager st → (ℕ → Option Tensors) → Type 0
  Refines s A = RefinesAt s.entries s.usage s.files A

  pub lookup-Holds :
      (s : KvCacheManager st) (A : ℕ → Option Tensors) (k : ℕ) (e : KvEntry st)
      → Refines s A
      → lookup st k s.entries ≡ some e
      → Holds (s.files k) e (A k)
  lookup-Holds s A k e h eq = subst (λ o. Kept (s.files k) o (A k)) eq (h.kept k)

  -- One entry changes, with its file and its value.
  pub change :
      (es : List (ℕ × KvEntry st)) (u : Usage) (files files' : ℕ → Option Bytes)
      (A B : ℕ → Option Tensors) (k : ℕ) (old new : KvEntry st)
      → RefinesAt es u files A
      → lookup st k es ≡ some old
      → Holds (files' k) new (B k)
      → ((j : ℕ) → k ≢ j → (files j ≡ files' j) × (A j ≡ B j))
      → RefinesAt (insert st k new es) (add_usage st new (remove_usage st old u)) files' B
  change es u files files' A B k old new h eq holds apart = record {
    accounted =
        ap (λ w. add_usage st new (remove_usage st old w)) h.accounted
        ∙ usage_of-insert st k es old new eq;
    kept = λ j. elim (ℕ_discrete k j) [
      | yes e ↦
          subst (λ i. Kept (files' i) (lookup st i (insert st k new es)) (B i)) e
            (subst (λ o. Kept (files' k) o (B k)) (sym (lookup-insert_self st k es new)) holds)
      | no ne ↦
          let (f, a) = apart j ne in
          subst (λ o. Kept (files' j) o (B j)) (sym (lookup-insert_ne st k j es new ne))
            (subst (λ c. Kept c (lookup st j es) (B j)) f
              (subst (λ v. Kept (files j) (lookup st j es) v) a (h.kept j)))
    ];
  }

  abbrev pub KeepsAt : (KvCacheManager st → ℕ → KvEntry st → KvCacheManager st) → Type 0
  KeepsAt step =
      (s : KvCacheManager st) (A : ℕ → Option Tensors) (k : ℕ) (e : KvEntry st)
      → Refines s A
      → lookup st k s.entries ≡ some e
      → Refines (step s k e) A

  pub at_entry-Refines :
      (step : KvCacheManager st → ℕ → KvEntry st → KvCacheManager st) (s : KvCacheManager st)
      (A : ℕ → Option Tensors) (k : ℕ)
      → KeepsAt step
      → Refines s A
      → Refines (at_entry st step s k) A
  at_entry-Refines step s A k keeps h = from (lookup st k s.entries) refl
    where
      from :
          (o : Option (KvEntry st)) → lookup st k s.entries ≡ o → Refines (on_entry st step s k o) A
      from none eq = h
      from (some e) eq = keeps s A k e h eq

  -- The two values that a step looks at.
  pub via₂ :
      {B C : Type 0} {b b' : B} {c c' : C} (f : B → C → KvCacheManager st) (A : ℕ → Option Tensors)
      → b ≡ b'
      → c ≡ c'
      → Refines (f b' c') A
      → Refines (f b c) A
  via₂ f A eb ec h = subst (λ s. Refines s A) (sym (ap₂ f eb ec)) h

  pub if-Refines :
      (b : Bool) (s s' : KvCacheManager st) (A : ℕ → Option Tensors)
      → (b ≡ true → Refines s A)
      → Refines s' A
      → Refines (if b then s else s') A
  if-Refines true s s' A h h' = h refl
  if-Refines false s s' A h h' = h'

  pub offload_to_host-Refines : KeepsAt (offload_to_host st)
  unfolding offload_to_host replace
  offload_to_host-Refines s A k e h eq = elim (lookup-Holds s A k e h eq) [
    | empty o et ep eq' el eh ef ↦ keep et
    | held t o et eq' (inl l) eh ef ↦
        via₂ (offloaded st s k e) A (ap (λ l. same_location l device) l) et (
          change s.entries s.usage s.files s.files A A k e (record e { location = host }) h eq
            (held t o et eq' (inr refl) eh ef) (λ j ne. (refl, refl)))
    | held t o et eq' (inr l) eh ef ↦
        via₂ (offloaded st s k e) A (ap (λ l. same_location l device) l) refl h
    | packed_in t o et ep eq' el eh ef ↦ keep et
    | spilled t raw o et eq' el eh ef er ↦ keep et
    | quantised q o et eq' el eh ef ↦ keep et
  ]
    where
      nothing : (b : Bool) → Refines (offloaded st s k e b none) A
      nothing true = h
      nothing false = h

      keep : e.tensors ≡ none → Refines (offload_to_host st s k e) A
      keep et = via₂ (offloaded st s k e) A refl et (nothing (same_location e.location device))

  pub compress_entry-Refines : KeepsAt (compress_entry st)
  unfolding compress_entry replace
  compress_entry-Refines s A k e h eq = elim (lookup-Holds s A k e h eq) [
    | empty o et ep eq' el eh ef ↦ via₂ (compressed_from st s k e) A eq' et h
    | held t o et eq' l eh ef ↦ via₂ (compressed_from st s k e) A eq' et (
        change s.entries s.usage s.files s.files A A k e _ h eq
          (packed_in t o refl refl eq' refl eh ef) (λ j ne. (refl, refl)))
    | packed_in t o et ep eq' el eh ef ↦ via₂ (compressed_from st s k e) A eq' et h
    | spilled t raw o et eq' el eh ef er ↦ via₂ (compressed_from st s k e) A eq' et h
    | quantised q o et eq' el eh ef ↦ via₂ (compressed_from st s k e) A eq' refl h
  ]
