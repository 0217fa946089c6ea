-- ===== src/Tests/Decoding.antt =====
-- The decoding theorems at the toy model and at small token lists.
use swlp.Prelude.{
  Bool, ltb, ℕ, ◌+◌, ◌≡◌, refl, true, some, List, [], ◌∷◌, ◌++◌, ok, arith, replicate,
}
use swlp.Speculative.{NgramDrafter, verify_greedy}
use swlp.Speculative
use swlp.Speculative.Verify.{IsVerified, verify_greedy-IsVerified}
use swlp.Speculative.Ngram.{Drafted, propose-Drafted}
use swlp.Decode.{GenerationConfig, Drafter, greedy_loop, generate_greedy, generate_speculative}
use swlp.Decode.Lossless.{speculative-eq-greedy}
use swlp.Decode.Prealloc.{generate_prealloc, generate_prealloc-greedy}
use swlp.Draft
use swlp.Draft.{DraftModelDrafter, AdaptiveDraftLength, reset}
use swlp.Draft.Resident.{Covers, propose-reset}
use swlp.Tests.Toy.{toy}

abbrev cfg : GenerationConfig
cfg = record { penalty = true; eos_token_id = some 3; max_new_tokens = 6 }

abbrev ngrams : NgramDrafter
ngrams = record { n = 3; k = 4 }

-- A drafter that looks its drafts up in the text.
abbrev lookup_drafter : Drafter
lookup_drafter = record {
  State = ℕ;
  propose = λ s tokens. (Speculative.propose ngrams tokens, s);
  observe = λ s proposed accepted. s + accepted;
}

-- The text 1 2 1 2 with the cache of its first three tokens.
abbrev text : List ℕ
text = 1 ∷ 2 ∷ 1 ∷ []

abbrev cached : List ℕ
cached = toy.feed 0 text []

abbrev drafter : DraftModelDrafter (List ℕ)
drafter = record {
  adaptive = record { max_k = 2; k = 2 };
  cache = some (toy.feed 0 text []);
  cached_ids = text;
}

verify_greedy-IsVerified_example :
    (new : List ℕ) × (n : ℕ) × (verify_greedy (5 ∷ 6 ∷ 7 ∷ []) (5 ∷ 6 ∷ 8 ∷ 9 ∷ []) ≡ ok (new, n))
    × IsVerified (5 ∷ 6 ∷ 7 ∷ []) (5 ∷ 6 ∷ 8 ∷ 9 ∷ []) new n
verify_greedy-IsVerified_example =
    verify_greedy-IsVerified (5 ∷ 6 ∷ 7 ∷ []) (5 ∷ 6 ∷ 8 ∷ 9 ∷ []) refl

propose-Drafted_example :
    Drafted ngrams (text ++ 2 ∷ []) (omega arith) 3 (Speculative.propose ngrams (text ++ 2 ∷ []))
propose-Drafted_example = propose-Drafted ngrams (text ++ 2 ∷ []) (omega arith)

speculative-eq-greedy_example :
    generate_speculative toy cfg lookup_drafter 0 (text ++ 2 ∷ []) cached
    ≡ ok (generate_greedy toy cfg (text ++ 2 ∷ []) cached)
speculative-eq-greedy_example = speculative-eq-greedy toy cfg lookup_drafter 0 text 2 cached refl

-- A buffer of six places has room for two of the six tokens.
generate_prealloc-greedy_example :
    generate_prealloc toy cfg (record { buf = replicate 6 0; filled = 0 }) (text ++ 2 ∷ []) cached
    ≡ ok (greedy_loop toy cfg 2 (text ++ 2 ∷ []) cached)
generate_prealloc-greedy_example =
    generate_prealloc-greedy toy cfg (record { buf = replicate 6 0; filled = 0 }) (text ++ 2 ∷ [])
      cached

-- Only crops to fewer than two positions succeed.
abbrev crops_some : ℕ → List ℕ → Bool
crops_some keep c = ltb keep 2

propose-reset_example :
    (Draft.propose toy [] crops_some drafter (1 ∷ 2 ∷ 3 ∷ [])
      ≡ Draft.propose toy [] crops_some (reset toy [] crops_some drafter) (1 ∷ 2 ∷ 3 ∷ []))
    × Covers toy [] crops_some refl (Draft.propose toy [] crops_some drafter (1 ∷ 2 ∷ 3 ∷ [])).1
propose-reset_example =
    propose-reset toy [] crops_some refl drafter (1 ∷ 2 ∷ 3 ∷ []) refl (omega arith) (omega arith)
