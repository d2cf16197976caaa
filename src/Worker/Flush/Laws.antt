-- ===== src/Worker/Flush/Laws.antt =====
-- Proofs about the flush of a batch (src/serving/dispatch/worker.rs).
use muna_server.Base.{ℕ, ◌≡◌, refl, ap, some, List, [], ◌∷◌, map, Text, Map, All}
use muna_server.Values.{Value}
use muna_server.Merge.{merge_inputs}
use muna_server.Merge.Split.{Output, merged_output, own_output, FitsCounts, split_results-outputs}
use muna_server.Worker.{PredictItem}
use muna_server.Worker.Flush.{
  Prediction, MunaError, native, Outcome, ok, err, Answer, answer_splits, invoke,
}

module _ {J : Type 0} where
  abbrev pub callers : List (PredictItem J) → List ℕ
  callers batch = map (λ item. item.response_tx) batch

  abbrev counts : List (PredictItem J) → List ℕ
  counts batch = map (λ item. item.item_count) batch

  -- The answers to a batch, one for each request, out of what each request gets.
  abbrev pub answers_by : (PredictItem J → Outcome J) → List (PredictItem J) → List (Answer J)
  answers_by f batch = map (λ item. record { to = item.response_tx; outcome = f item }) batch

  answer_splits-map :
      (p : Prediction J) (f : PredictItem J → List (Value J)) (batch : List (PredictItem J))
      → answer_splits p batch (map f batch)
        ≡ answers_by (λ item. ok (record p { results = some (f item) })) batch
  unfolding answer_splits
  answer_splits-map p f [] = refl
  answer_splits-map p f (item ∷ batch) = rw (answer_splits-map p f batch) refl

module _ {J : Type 0} (to_string : MunaError → Text)
    (predict_fn : Map (Value J) → ℕ → Outcome J) where
  -- A request flushed alone gets the predictor's outcome untouched.
  -- A batch of two or more requests is one invocation on the merged inputs, with the first
  -- request's acceleration. If the predictor fails, each request gets the error, as text, once. If
  -- it answers with outputs that fit the requests' counts, each request gets, once and in order,
  -- the answer with its own share of every output.
  pub invoke-shares :
      (params : List Text) (first second : PredictItem J) (rest : List (PredictItem J))
      → (merged : Map (Value J))
      → merge_inputs (map (λ b. b.inputs) (first ∷ second ∷ rest)) params ≡ some merged
      → let batch = first ∷ second ∷ rest in
        (invoke to_string predict_fn params (first ∷ [])
          ≡ some (answers_by (λ item. predict_fn item.inputs item.acceleration) (first ∷ [])))
        × ((e : MunaError)
            → predict_fn merged first.acceleration ≡ err e
            → invoke to_string predict_fn params batch
              ≡ some (answers_by (λ _. err (native (to_string e))) batch))
        × ((p : Prediction J) (os : List (Output J (PredictItem J)))
            → predict_fn merged first.acceleration ≡ ok p
            → p.results ≡ some (map (merged_output (λ i. i.item_count) batch) os)
            → All (FitsCounts (λ i. i.item_count) batch) os
            → invoke to_string predict_fn params batch
              ≡ some (
                  answers_by
                    (λ i. ok (record p {
                      results = some (map (λ o. own_output (λ i. i.item_count) o i) os);
                    }))
                    batch))
  unfolding invoke
  invoke-shares params first second rest merged m = (
    refl,
    λ e failed. rw (m, failed) refl,
    λ p os answered results fit.
        rw (m, answered, results)
          (rw (split_results-outputs (λ i. i.item_count) os (first ∷ second ∷ rest) fit) (
            ap some (
              answer_splits-map p (λ i. map (λ o. own_output (λ i. i.item_count) o i) os)
                (first ∷ second ∷ rest)))),
  )
