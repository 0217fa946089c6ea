-- ===== src/Tests/Experts.antt =====
-- The expert cache's theorem with experts that are numbers, as large as their value.
use swlp.Prelude.{ℕ, ◌+◌, ◌*◌, ◌/◌, ◌≡◌, refl, true, some, List, [], ◌∷◌, ok, arith, ◌==◌}
use swlp.ExpertCache.{
  ExpertSource, Key, MlxExpertCache, get_many, touch, push, rebuild_heap, evict_one,
}
use swlp.ExpertCache.Least.{Live, is_cached, EvictsLeast, evict_one-EvictsLeast}
use swlp.ExpertCache.Pushed.{Ticking, rebuild_heap-Live, touch-Live}
use swlp.ExpertCache.Budget.{IsWithin}
use swlp.ExpertCache.Evict.{Faithful}
use swlp.ExpertCache.Delivery.{requested, Has, In}
use swlp.ExpertCache.Requests.{get_many-delivers}

-- A read gives the number of its expert, quantising halves it.
abbrev weights : ExpertSource ℕ
weights = record {
  Raw = ℕ;
  result = λ k. some (20 * k.layer + 2 * k.eid);
  to_mx = λ k raw. some raw;
  has_gate = λ w. true;
  quantize = λ q w. some (w / 2);
  quant = some (64, 4);
}

abbrev bytes : ℕ → ℕ
bytes w = w

-- Expert 3 of layer 1 is cached, expert 4 is being read.
abbrev experts : MlxExpertCache bytes weights
experts = record {
  budget_bytes = 20;
  cache = (record { layer = 1; eid = 3 }, 13) ∷ [];
  nbytes = 13;
  freq = λ k. 1;
  last = λ k. 1;
  tick = 1;
  heap = record { freq = 1; tick = 1; key = record { layer = 1; eid = 3 } } ∷ [];
  inflight = record { layer = 1; eid = 4 } ∷ [];
  hits = 0;
  prefetch_hits = 0;
  misses = 1;
  evictions = 0;
}

experts-IsWithin : IsWithin bytes weights experts
experts-IsWithin = record {
  kept = record { exact = refl; faithful = (refl, omega arith) };
  within = omega arith;
}

get_many-delivers_example :
    (out : List (Key × ℕ)) × (c' : MlxExpertCache bytes weights) × (get_many bytes weights
        (λ k. k.eid == 4)
        experts
        1
        (3 ∷ 4 ∷ 5 ∷ [])
      ≡ ok (out, c'))
    × (Faithful bytes weights out × IsWithin bytes weights c')
    × ((j : Key) → In bytes weights (requested 1 (3 ∷ 4 ∷ 5 ∷ [])) j → Has bytes weights out j)
get_many-delivers_example =
    get_many-delivers bytes weights (λ k. k.eid == 4) experts 1 (3 ∷ 4 ∷ 5 ∷ [])
      (λ k. ((20 * k.layer + 2 * k.eid) / 2, refl)) experts-IsWithin

-- Experts 3 and 4 of layer 1 with a new heap, then a use of expert 3, whose old entry is stale.
abbrev two_experts : MlxExpertCache bytes weights
two_experts = record experts {
  cache = (record { layer = 1; eid = 3 }, 13) ∷ (record { layer = 1; eid = 4 }, 14) ∷ [];
  nbytes = 27;
}

abbrev used_again : MlxExpertCache bytes weights
used_again =
    touch bytes weights (rebuild_heap bytes weights two_experts) (record { layer = 1; eid = 3 })

rebuilt-Ticking : Ticking bytes weights (rebuild_heap bytes weights two_experts)
unfolding rebuild_heap
rebuilt-Ticking = record { ticks = (omega arith, (omega arith, tt)); lasts = λ k. omega arith }

used_again-Live : Live bytes weights used_again used_again.heap
used_again-Live =
    touch-Live bytes weights (rebuild_heap bytes weights two_experts)
      (record { layer = 1; eid = 3 }) (rebuild_heap-Live bytes weights two_experts) rebuilt-Ticking

used_again_held : is_cached bytes weights used_again (record { layer = 1; eid = 4 }) ≡ true
unfolding touch push rebuild_heap
used_again_held = refl

evict_one-EvictsLeast_example :
    EvictsLeast bytes weights used_again (evict_one bytes weights used_again)
evict_one-EvictsLeast_example =
    evict_one-EvictsLeast bytes weights used_again (record { layer = 1; eid = 4 }) used_again_held
      used_again-Live
