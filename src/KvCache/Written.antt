-- ===== src/KvCache/Written.antt =====
-- `set` of src/swlp/core/kv_cache.py: the store of a layer's tensors, or the refusal of INT4.
use swlp.Prelude.{
  Result, ok, err, ℕ, ◌≡◌, ◌≢◌, refl, sym, ap, ◌∙◌, Bool, true, false, ◌&&◌, Option, none, some,
  arith, if◌then◌else◌,
}
use swlp.KvCache.Backend.{Storage}
use swlp.KvCache.{
  remove_usage, disk, same_location, KvEntry, KvCacheManager, lookup, replace, set_file,
  record_snapshot,
}
use swlp.KvCache.Budget.{enforce_device_budget}
use swlp.KvCache.Access.{
  fresh_entry, unlinked, released, store, is_some, value_error, SetError, enforced, set_entry,
  set_layer,
}
use swlp.KvCache.Refinement.{Stored, Refuses, update, Fresh, fresh_entry-Fresh, store-Refines}
use swlp.KvCache.Accounting.{lookup-insert_self}
use swlp.KvCache.Kept.{Refines}
use swlp.KvCache.Maintained.{
  record_snapshot-Refines, enforce_budget-Refines, enforce_device_budget-Refines,
}

module _ (st : Storage) where
  open st use {Tensors, Bytes}

  -- The layer is written: the manager with its new entry, which counts the bytes of what is stored and
  -- replaces the bytes of the previous one, and the manager after the budgets are enforced on that.
  pub record Written (s : KvCacheManager st) (A : ℕ → Option Tensors) (k : ℕ) (o : Option Tensors)
      (s' : KvCacheManager st) : Type 0 where
    pub value : Option Tensors
    pub bytes : ℕ
    pub stored : Stored st s.int4 s.kv_window o value bytes
    pub stored_state : KvCacheManager st
    pub new_entry : KvEntry st
    pub there : lookup st k stored_state.entries ≡ some new_entry
    pub counted : new_entry.uncompressed_bytes ≡ bytes
    pub refines_before : Refines st stored_state (update st A k value)
    pub after : s' ≡ enforced st (s.int4 && is_some st o) stored_state
    pub refines : Refines st s' (update st A k value)

  -- The quantiser has raised: the previous entry has given its bytes back and is still there.
  pub record Refused (s : KvCacheManager st) (k : ℕ) (o : Option Tensors) (s' : KvCacheManager st)
      : Type 0 where
    pub refuses : Refuses st s.int4 s.kv_window o
    pub same_entries : s'.entries ≡ s.entries
    pub bytes_gone :
        (prev : KvEntry st)
        → lookup st k s.entries ≡ some prev
        → s'.usage ≡ remove_usage st prev s.usage
    pub other_files : (j : ℕ) → k ≢ j → s'.files j ≡ s.files j

  abbrev pub Sets :
      KvCacheManager st
      → (ℕ → Option Tensors)
      → ℕ
      → Option Tensors
      → Result (SetError st) (KvCacheManager st)
      → Type 0
  Sets s A k o (ok s') = Written s A k o s'
  Sets s A k o (err (value_error s')) = Refused s k o s'

  store-lookup :
      (s : KvCacheManager st) (k : ℕ) (e : KvEntry st) (o : Option (KvEntry st))
      → lookup st k (store st s k e o).entries ≡ some e
  unfolding replace
  store-lookup s k e none = lookup-insert_self st k s.entries e
  store-lookup s k e (some prev) = lookup-insert_self st k (unlinked st s k prev).entries e

  enforced-Refines :
      (b : Bool) (s : KvCacheManager st) (A : ℕ → Option Tensors)
      → Refines st s A
      → Refines st (enforced st b s) A
  enforced-Refines true s A h = enforce_budget-Refines st s A h
  enforced-Refines false s A h =
      enforce_budget-Refines st (enforce_device_budget st s) A
        (enforce_device_budget-Refines st s A h)

  unlinked_files :
      (s : KvCacheManager st) (k j : ℕ) (b : Bool)
      → k ≢ j
      → (if b then set_file st s k none else s).files j ≡ s.files j
  unlinked_files s k j true ne = ground arith
  unlinked_files s k j false ne = refl

  if_entries :
      (s : KvCacheManager st) (k : ℕ) (b : Bool)
      → (if b then set_file st s k none else s).entries ≡ s.entries
  if_entries s k true = refl
  if_entries s k false = refl

  if_usage :
      (s : KvCacheManager st) (k : ℕ) (b : Bool)
      → (if b then set_file st s k none else s).usage ≡ s.usage
  if_usage s k true = refl
  if_usage s k false = refl

  released-Refused :
      (s : KvCacheManager st) (k : ℕ) (o : Option Tensors) (found : Option (KvEntry st))
      → lookup st k s.entries ≡ found
      → Refuses st s.int4 s.kv_window o
      → Refused s k o (released st s k found)
  released-Refused s k o none at refuses = record {
    refuses = refuses;
    same_entries = refl;
    bytes_gone = λ prev e. absurd (let clash : none ≡ some prev = sym at ∙ e in ground arith);
    other_files = λ j ne. refl;
  }
  released-Refused s k o (some prev) at refuses =
      let b = same_location prev.location disk && prev.has_path in
      record {
        refuses = refuses;
        same_entries = if_entries s k b;
        bytes_gone = λ old e.
            let same : some prev ≡ some old = sym at ∙ e in
            let eq : prev ≡ old = ground arith in
            ap (remove_usage st prev) (if_usage s k b) ∙ ap (λ p. remove_usage st p s.usage) eq;
        other_files = λ j ne. unlinked_files s k j b ne;
      }

  set_entry-Sets :
      (s : KvCacheManager st) (A : ℕ → Option Tensors) (k : ℕ) (o : Option Tensors)
      (e : Option (KvEntry st))
      → Refines st s A
      → Fresh st s.int4 s.kv_window o e
      → Sets s A k o (set_entry st s k (s.int4 && is_some st o) e)
  unfolding record_snapshot
  set_entry-Sets s A k o none h refuses =
      released-Refused s k o (lookup st k s.entries) refl refuses
  set_entry-Sets s A k o (some e) h (v, stored, holds) =
      let s1 = store st s k e (lookup st k s.entries) in
      let before = record_snapshot st s1 in
      let ref : Refines st before (update st A k v) =
        record_snapshot-Refines st s1 (update st A k v)
          (store-Refines st s A k e v h holds (lookup st k s.entries) refl) in
      record {
        value = v;
        bytes = e.uncompressed_bytes;
        stored = stored;
        stored_state = before;
        new_entry = e;
        there = store-lookup s k e (lookup st k s.entries);
        counted = refl;
        refines_before = ref;
        after = refl;
        refines = enforced-Refines (s.int4 && is_some st o) before (update st A k v) ref;
      }

  -- In a manager that implements a map, storing a layer's tensors writes that layer of the map, through
  -- the window and INT4 where they are on, and changes no other layer. The new entry counts the
  -- bytes of the stored tensors or of their quantised form, the counters are the sums over the entries,
  -- and they stay so while the budgets compress and spill. Or `set` raises: that is where INT4 is on
  -- and refuses the tensors. Then every entry is still there, without the bytes of the layer's
  -- previous entry in the counters, and the files of the other layers are kept.
  pub set_layer-Refines :
      (s : KvCacheManager st) (A : ℕ → Option Tensors) (now k : ℕ) (on_device : Bool)
      (o : Option Tensors)
      → Refines st s A
      → Sets s A k o (set_layer st s now k on_device o)
  unfolding set_layer
  set_layer-Refines s A now k on_device o h =
      set_entry-Sets s A k o (fresh_entry st s.int4 s.kv_window now on_device o) h
        (fresh_entry-Fresh st s.int4 s.kv_window now on_device o)
