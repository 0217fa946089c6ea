-- ===== src/Streaming/Untouched.antt =====
-- Interleavings of the tasks of src/swlp/core/streaming.py over their read buffers: who may write to a
-- buffer.
use swlp.Prelude.{
  ℕ, ◌+◌, ◌-◌, ◌≤◌, min, Option, none, some, List, [], ◌∷◌, ◌++◌, ◌≡◌, refl, ap, subst, ◌∙◌, ltb,
  length, take, drop, arith, put, put_self, put_ne, put-all, put-all_ne, if-all,
}
use swlp.ShardIo.{Parser, splice}
use swlp.ShardIo.Fill.{length-splice, take-splice}
use swlp.ExpertBank.Ranges.{range_of, length-range_of, take-add, take-length}
use swlp.Streaming.Owned.{
  Free, Free-NotIn, Free-put, TakenBy, TakenBy-frame, not_new, not_other, Held, Held-frame, Inv,
}
use swlp.Streaming.Buffers.{reading, Buffers, allocated, begun, delivered}

module _ (parser : Parser) (files : ℕ → List ℕ) where
  -- The first buffer of the free-list, taken by an idle task.
  taken-Inv :
      (t b : ℕ) (bs : List ℕ) (s : Buffers parser) (inv : Inv parser files s)
      → s.pool ≡ b ∷ bs
      → (i : Inv parser files (record s { pool = bs })) × (i.owner b ≡ t + 2)
  taken-Inv t b bs s inv e =
      let (one, out, free) = subst (Free inv.owner) e inv.free in
      let after = put inv.owner b (t + 2) in
      (
        record {
          owner = after;
          unused = λ x new.
              let f = inv.unused x new in
              put_ne inv.owner b (t + 2) x
                (λ same. let g : inv.owner x ≡ 1 = ap inv.owner same ∙ one in omega arith)
              ∙ f;
          free = Free-put inv.owner b (t + 2) bs out free;
          held = λ u.
              Held-frame parser files inv.owner after s.memory s.memory u (s.tasks u)
                (λ x o. (
                  put_ne inv.owner b (t + 2) x
                        (λ same. let g : inv.owner x ≡ 1 = ap inv.owner same ∙ one in omega arith)
                      ∙ o,
                  refl,
                ))
                (inv.held u);
          exact = inv.exact;
        },
        put_self inv.owner b (t + 2),
      )

  module _ (fresh : ℕ → List ℕ) (empty : (n : ℕ) → length (fresh n) ≡ n) where
    allocated-Inv :
        (t layer : ℕ) (taken : Option ℕ) (s : Buffers parser) (inv : Inv parser files s)
        → TakenBy inv.owner t taken
        → Inv parser files (allocated parser fresh files t layer taken s)
    allocated-Inv t layer taken s inv own =
        let b = s.next in
        let none_yet : inv.owner b ≡ 0 = inv.unused b (omega arith) in
        let after = put inv.owner b (t + 2) in
        let later = put s.memory b (fresh (length (files layer))) in
        let size =
          ap length (put_self s.memory b (fresh (length (files layer))))
          ∙ empty (length (files layer)) in
        record {
          owner = after;
          unused = λ x new.
              put_ne inv.owner b (t + 2) x (λ same. omega arith) ∙ inv.unused x (omega arith);
          free =
              Free-put inv.owner b (t + 2) s.pool
                (Free-NotIn inv.owner b s.pool (λ e. omega arith) inv.free) inv.free;
          held =
              put-all_ne (λ u task. Held parser files after later u task) s.tasks t
                (reading layer taken b 0)
                (
                  put_self inv.owner b (t + 2),
                  TakenBy-frame inv.owner after t taken
                      (λ x o. put_ne inv.owner b (t + 2) x (not_new inv.owner b x t none_yet o) ∙ o)
                      own,
                  omega arith,
                  omega arith,
                  refl,
                )
                (λ u apart.
                  Held-frame parser files inv.owner after s.memory later u (s.tasks u)
                    (λ x o. (
                      put_ne inv.owner b (t + 2) x (not_new inv.owner b x u none_yet o) ∙ o,
                      put_ne s.memory b (fresh (length (files layer))) x
                          (not_new inv.owner b x u none_yet o),
                    ))
                    (inv.held u));
          exact = inv.exact;
        }

    pub begun-Inv :
        (t layer : ℕ) (pool : List ℕ) (s : Buffers parser)
        → s.pool ≡ pool
        → Inv parser files s
        → Inv parser files (begun parser fresh files t layer pool s)
    begun-Inv t layer [] s e inv = allocated-Inv t layer none s inv tt
    begun-Inv t layer (b ∷ bs) s e inv =
        let (left, own) = taken-Inv t b bs s inv e in
        let rest : Buffers parser = record s { pool = bs } in
        if-all (Inv parser files) (ltb (length (s.memory b)) (length (files layer)))
          (allocated parser fresh files t layer (some b) rest)
          (record s { pool = bs; tasks = put s.tasks t (reading layer (some b) b 0) })
          (λ small. allocated-Inv t layer (some b) rest left own)
          (λ large.
            let fits : length (files layer) ≤ length (s.memory b) = ground arith in
            record {
              owner = left.owner;
              unused = left.unused;
              free = left.free;
              held =
                  put-all (λ u task. Held parser files left.owner s.memory u task) s.tasks t
                    (reading layer (some b) b 0) (own, own, omega arith, fits, refl) left.held;
              exact = left.exact;
            })

    -- A part of the file has come into the task's buffer.
    pub delivered-Inv :
        (t n layer : ℕ) (taken : Option ℕ) (b got : ℕ) (s : Buffers parser)
        (inv : Inv parser files s)
        → Held parser files inv.owner s.memory t (reading layer taken b got)
        → Inv parser files (delivered parser fresh files t n (reading layer taken b got) s)
    delivered-Inv t n layer taken b got s inv (own, tb, low, fits, same) =
        let file = files layer in
        let bytes = range_of file got n in
        let g = length bytes in
        let sizes : g ≡ min n (length file - got) = length-range_of file got n in
        let old = s.memory b in
        let new = splice old got bytes in
        let later = put s.memory b new in
        let here : later b ≡ new = put_self s.memory b new in
        let new_size : length (later b) ≡ length old =
          ap length here ∙ length-splice old got bytes (omega arith) in
        let content : take (got + g) (later b) ≡ take (got + g) file =
          ap (take (got + g)) here
          ∙ (take-splice old got bytes (omega arith)
              ∙ (ap (λ f. f ++ bytes) same
                  ∙ (ap (λ f. take got file ++ f) (take-length n (drop got file))
                      ∙ take-add got g file (omega arith)))) in
        record {
          owner = inv.owner;
          unused = inv.unused;
          free = inv.free;
          held =
              put-all_ne (λ u task. Held parser files inv.owner later u task) s.tasks t
                (reading layer taken b (got + g)) (own, tb, omega arith, omega arith, content)
                (λ u apart.
                  Held-frame parser files inv.owner inv.owner s.memory later u (s.tasks u)
                    (λ x o. (o, put_ne s.memory b new x (not_other inv.owner b x t u apart own o)))
                    (inv.held u));
          exact = inv.exact;
        }
