-- ===== src/Tests/Routes.antt =====
-- A history of two observations of layer 1: expert 5 was routed twice, expert 2 and 9 once.
use swlp.Prelude.{◌≡◌, refl, [], ◌∷◌, put}
use swlp.Routing.{RoutingHistory, predict, new_history, record_ids}
use swlp.Routing.Predicted.{Predicted, predict-Predicted}

abbrev routes : RoutingHistory
routes = record {
  window = 2;
  layers = put (λ l. []) 1 ((2 ∷ 5 ∷ []) ∷ (5 ∷ 9 ∷ []) ∷ []);
  last = put (λ l. []) 1 (5 ∷ 9 ∷ []);
}

predicted_three : predict routes 1 3 ≡ 5 ∷ 9 ∷ 2 ∷ []
unfolding predict
predicted_three = refl

recorded_twice :
    predict (record_ids (record_ids (new_history 2) 1 (5 ∷ 2 ∷ [])) 1 (9 ∷ 5 ∷ 9 ∷ [])) 1 3
    ≡ 5 ∷ 9 ∷ 2 ∷ []
unfolding predict record_ids new_history
recorded_twice = refl

predict-Predicted_example : Predicted routes 1 2 (predict routes 1 2)
predict-Predicted_example = predict-Predicted routes 1 2
