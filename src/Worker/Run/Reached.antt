-- ===== src/Worker/Run/Reached.antt =====
-- Proofs that a flush answers every request of its batch (src/serving/dispatch/worker.rs).
use mathlib.Core.Option.{some-injective}
use muna_server.Base.{
  ℕ, suc, ◌≡◌, refl, sym, ap, ◌∙◌, inl, inr, none, some, List, [], ◌∷◌, map, Text, Map, length,
  arith, Option-cases,
}
use muna_server.Values.{Value}
use muna_server.Merge.{merge_inputs, split_results, split_loop, split_value, push_each}
use muna_server.Worker.{PredictItem}
use muna_server.Worker.Flush.{
  Prediction, MunaError, Outcome, ok, err, Answer, answer_splits, answer_batch, process_batch,
  invoke, results_or_empty,
}
use muna_server.Worker.Flush.Laws.{callers}

module _ {J : Type 0} where
  length-push_each :
      (splits : List (List (Value J))) (vs : List (Value J))
      → length (push_each splits vs) ≡ length splits
  unfolding push_each
  length-push_each [] vs = refl
  length-push_each (s ∷ splits) [] = refl
  length-push_each (s ∷ splits) (v ∷ vs) = ap suc (length-push_each splits vs)

  length-split_loop :
      (results : List (Value J)) (counts : List ℕ) (splits : List (List (Value J)))
      (r : List (List (Value J)))
      → split_loop results counts splits ≡ some r
      → length r ≡ length splits
  unfolding split_loop
  length-split_loop [] counts splits r e = ground arith
  length-split_loop (v ∷ results) counts splits r e = elim (Option-cases (split_value v counts)) [
    | inl panic ↦ let e' : none ≡ some r = rw panic at e in cc
    | inr (pieces, cut) ↦
        let e' : split_loop results counts (push_each splits pieces) ≡ some r = rw cut at e in
        length-split_loop results counts (push_each splits pieces) r e'
        ∙ length-push_each splits pieces
  ]

  -- The callers that a list of answers reaches.
  abbrev pub reached : List (Answer J) → List ℕ
  reached answers = map (λ a. a.to) answers

  answer_splits-reached :
      (p : Prediction J) (batch : List (PredictItem J)) (splits : List (List (Value J)))
      → length splits ≡ length batch
      → reached (answer_splits p batch splits) ≡ callers batch
  unfolding answer_splits
  answer_splits-reached p [] splits e = refl
  answer_splits-reached p (item ∷ batch) [] e = absurd (omega arith)
  answer_splits-reached p (item ∷ batch) (s ∷ splits) e =
      ap (λ r. item.response_tx ∷ r) (answer_splits-reached p batch splits (omega arith))

module _ {J : Type 0} (to_string : MunaError → Text)
    (predict_fn : Map (Value J) → ℕ → Outcome J) where
  map-map :
      (batch : List (PredictItem J)) (e : Outcome J)
      → reached (map (λ i. record { to = i.response_tx; outcome = e }) batch) ≡ callers batch
  map-map [] e = refl
  map-map (i ∷ batch) e = rw (map-map batch e) refl

  map-counts :
      (batch : List (PredictItem J))
      → length (map {B = List (Value J)} (λ _. []) (map (λ b. b.item_count) batch)) ≡ length batch
  map-counts [] = refl
  map-counts (i ∷ batch) = ap suc (map-counts batch)

  answer_batch-reached :
      (batch : List (PredictItem J)) (outcome : Outcome J) (answers : List (Answer J))
      → answer_batch to_string predict_fn batch outcome ≡ some answers
      → reached answers ≡ callers batch
  unfolding answer_batch split_results
  answer_batch-reached batch (err e) answers h =
      ap reached (sym (some-injective _ _ h)) ∙ map-map batch _
  answer_batch-reached batch (ok p) answers h = elim (Option-cases (split_results results counts)) [
    | inl panic ↦ let h' : none ≡ some answers = rw panic at h in cc
    | inr (splits, cut) ↦
        let h' : some (answer_splits p batch splits) ≡ some answers = rw cut at h in
        ap reached (sym (some-injective _ _ h'))
        ∙ answer_splits-reached p batch splits
            (length-split_loop results counts _ splits cut ∙ map-counts batch)
  ]
    where
      results : List (Value J)
      results = results_or_empty p.results

      counts : List ℕ
      counts = map (λ b. b.item_count) batch

  process_batch-nil :
      (params : List Text) (answers : List (Answer J))
      → process_batch to_string predict_fn params [] ≡ some answers
      → reached answers ≡ []
  unfolding process_batch merge_inputs
  process_batch-nil params answers h = cc

  process_batch-reached :
      (params : List Text) (batch : List (PredictItem J)) (answers : List (Answer J))
      → process_batch to_string predict_fn params batch ≡ some answers
      → reached answers ≡ callers batch
  unfolding process_batch
  process_batch-reached params [] answers h = process_batch-nil params answers h
  process_batch-reached params (i ∷ batch) answers h =
      elim (Option-cases (merge_inputs (map (λ b. b.inputs) (i ∷ batch)) params)) [
        | inl panic ↦ let h' : none ≡ some answers = rw panic at h in cc
        | inr (merged, m) ↦
            let h' : answer_batch to_string predict_fn (i ∷ batch)
                  (predict_fn merged i.acceleration)
                ≡ some answers =
              rw m at h in
            answer_batch-reached (i ∷ batch) (predict_fn merged i.acceleration) answers h'
      ]

  -- Whatever the predictor does, a flush that does not panic answers each request of the batch
  -- exactly once, in order.
  pub invoke-reached :
      (params : List Text) (batch : List (PredictItem J)) (answers : List (Answer J))
      → invoke to_string predict_fn params batch ≡ some answers
      → reached answers ≡ callers batch
  unfolding invoke
  invoke-reached params [] answers h = process_batch-reached params [] answers h
  invoke-reached params (i ∷ []) answers h = ap reached (sym (some-injective _ _ h))
  invoke-reached params (i ∷ j ∷ batch) answers h =
      process_batch-reached params (i ∷ j ∷ batch) answers h
