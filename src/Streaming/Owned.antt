-- ===== src/Streaming/Owned.antt =====
-- Interleavings of the tasks of src/swlp/core/streaming.py over their read buffers: who owns a
-- buffer.
use swlp.Prelude.{
  ℕ, ◌+◌, ◌≤◌, ◌≢◌, Option, none, some, List, [], ◌∷◌, ◌++◌, ◌≡◌, refl, sym, ap, subst, ◌∙◌, length,
  take, arith, put, put_self, put_ne, put-all, put-all_ne,
}
use swlp.ShardIo.{Parser, read_header, parse_safetensors_views}
use swlp.Streaming.Buffers.{Task, idle, reading, parsed, Buffers, given_back}

abbrev pub NotIn : ℕ → List ℕ → Type 0
NotIn x [] = Unit
NotIn x (b ∷ bs) = (x ≢ b) × NotIn x bs

-- A buffer that no one has seen has the owner 0, one of the free-list 1, one of task `t` has t + 2.
abbrev pub Free : (ℕ → ℕ) → List ℕ → Type 0
Free owner [] = Unit
Free owner (b ∷ bs) = (owner b ≡ 1) × NotIn b bs × Free owner bs

abbrev pub TakenBy : (ℕ → ℕ) → ℕ → Option ℕ → Type 0
TakenBy owner t none = Unit
TakenBy owner t (some b) = owner b ≡ t + 2

pub Free-NotIn : (owner : ℕ → ℕ) (b : ℕ) (bs : List ℕ) → owner b ≢ 1 → Free owner bs → NotIn b bs
Free-NotIn owner b [] apart free = tt
Free-NotIn owner b (c ∷ bs) apart (one, alone, free) =
    (λ e. apart (ap owner e ∙ one), Free-NotIn owner b bs apart free)

pub Free-put :
    (owner : ℕ → ℕ) (b v : ℕ) (bs : List ℕ) → NotIn b bs → Free owner bs → Free (put owner b v) bs
Free-put owner b v [] out free = tt
Free-put owner b v (c ∷ bs) (apart, out) (one, alone, free) =
    (put_ne owner b v c (λ e. apart (sym e)) ∙ one, alone, Free-put owner b v bs out free)

NotIn-append : (x b : ℕ) (bs : List ℕ) → NotIn x bs → x ≢ b → NotIn x (bs ++ b ∷ [])
NotIn-append x b [] out apart = (apart, tt)
NotIn-append x b (c ∷ bs) (here, out) apart = (here, NotIn-append x b bs out apart)

Free-append :
    (owner : ℕ → ℕ) (b : ℕ) (bs : List ℕ)
    → NotIn b bs
    → owner b ≡ 1
    → Free owner bs
    → Free owner (bs ++ b ∷ [])
Free-append owner b [] out one free = (one, tt, tt)
Free-append owner b (c ∷ bs) (apart, out) one (own, alone, free) =
    (own, NotIn-append c b bs alone (λ e. apart (sym e)), Free-append owner b bs out one free)

pub TakenBy-frame :
    (owner after : ℕ → ℕ) (t : ℕ) (taken : Option ℕ)
    → ((x : ℕ) → owner x ≡ t + 2 → after x ≡ t + 2)
    → TakenBy owner t taken
    → TakenBy after t taken
TakenBy-frame owner after t none keep h = tt
TakenBy-frame owner after t (some b) keep h = keep b h

pub not_new : (owner : ℕ → ℕ) (b x v : ℕ) → owner b ≡ 0 → owner x ≡ v + 2 → x ≢ b
not_new owner b x v none_yet own same =
    let e : owner x ≡ 0 = ap owner same ∙ none_yet in omega arith

pub not_other : (owner : ℕ → ℕ) (b x t u : ℕ) → u ≢ t → owner b ≡ t + 2 → owner x ≡ u + 2 → x ≢ b
not_other owner b x t u apart own o same =
    let e : owner x ≡ t + 2 = ap owner same ∙ own in apart (omega arith)

module _ (parser : Parser) (files : ℕ → List ℕ) where
  -- The buffers of a task are its own, and they hold what it has read of its layer's file.
  abbrev pub Held : (ℕ → ℕ) → (ℕ → List ℕ) → ℕ → Task → Type 0
  Held owner memory t idle = Unit
  Held owner memory t (reading layer taken b got) =
      (owner b ≡ t + 2)
      × TakenBy owner t taken
      × (got ≤ length (files layer))
      × (length (files layer) ≤ length (memory b))
      × (take got (memory b) ≡ take got (files layer))
  Held owner memory t (parsed layer b header) =
      (owner b ≡ t + 2)
      × (take (length (files layer)) (memory b) ≡ files layer)
      × (header ≡ read_header parser (files layer) (length (files layer)))

  -- What the other tasks do to their own buffers.
  pub Held-frame :
      (owner after : ℕ → ℕ) (memory later : ℕ → List ℕ) (t : ℕ) (task : Task)
      → ((x : ℕ) → owner x ≡ t + 2 → (after x ≡ t + 2) × (later x ≡ memory x))
      → Held owner memory t task
      → Held after later t task
  Held-frame owner after memory later t idle keep h = tt
  Held-frame owner after memory later t (reading layer taken b got) keep (own, h, low, fits, same) =
      let same_b = (keep b own).1 in
      (
        (keep b own).0,
        TakenBy-frame owner after t taken (λ x o. (keep x o).0) h,
        low,
        subst (λ m. length (files layer) ≤ length m) (sym same_b) fits,
        ap (take got) same_b ∙ same,
      )
  Held-frame owner after memory later t (parsed layer b header) keep (own, holds, same) =
      ((keep b own).0, ap (take (length (files layer))) (keep b own).1 ∙ holds, same)

  -- The device has the tensors of the layer's own file.
  abbrev pub Exact : ℕ → Option (List (ℕ × parser.Tensor)) → Type 0
  Exact layer none = Unit
  Exact layer (some views) =
      parse_safetensors_views parser (files layer) (length (files layer)) ≡ some views

  pub record Inv (s : Buffers parser) : Type 0 where
    pub owner : ℕ → ℕ
    pub unused : (x : ℕ) → s.next ≤ x → owner x ≡ 0
    pub free : Free owner s.pool
    pub held : (t : ℕ) → Held owner s.memory t (s.tasks t)
    pub exact : (layer : ℕ) → Exact layer (s.device layer)

  pub given_back-Inv :
      (t : ℕ) (taken : Option ℕ) (s : Buffers parser) (inv : Inv s)
      → TakenBy inv.owner t taken
      → Inv (given_back parser t taken s)
  given_back-Inv t none s inv own = record {
    owner = inv.owner;
    unused = inv.unused;
    free = inv.free;
    held = put-all (λ u task. Held inv.owner s.memory u task) s.tasks t idle tt inv.held;
    exact = inv.exact;
  }
  given_back-Inv t (some b) s inv own =
      let after = put inv.owner b 1 in
      let out = Free-NotIn inv.owner b s.pool (λ e. omega arith) inv.free in
      record {
        owner = after;
        unused = λ x new.
            let e = inv.unused x new in
            put_ne inv.owner b 1 x
              (λ same. let f : inv.owner x ≡ t + 2 = ap inv.owner same ∙ own in omega arith)
            ∙ e;
        free =
            Free-append after b s.pool out (put_self inv.owner b 1)
              (Free-put inv.owner b 1 s.pool out inv.free);
        held =
            put-all_ne (λ u task. Held after s.memory u task) s.tasks t idle tt
              (λ u apart.
                Held-frame inv.owner after s.memory s.memory u (s.tasks u)
                  (λ x o.
                    (put_ne inv.owner b 1 x (not_other inv.owner b x t u apart own o) ∙ o, refl))
                  (inv.held u));
        exact = inv.exact;
      }
