-- ===== src/Worker/Flush.antt =====
-- src/serving/dispatch/worker.rs: `process_batch` and `flush`. The predictor is a parameter: what it
-- answers to given inputs, in one invocation. `none` is a panic of the accumulator task.
pub mod Laws
use muna_server.Base.{ℕ, suc, ◌+◌, ◌-◌, Option, none, some, List, [], ◌∷◌, ◌++◌, map, Text, Map}
use muna_server.Values.{Value}
use muna_server.Merge.{◌>>=◌, merge_inputs, split_results}
use muna_server.Stats.{PredictionSample, unary, record_sample}
use muna_server.Worker.{PredictItem}

-- The parts of a `muna::types::Prediction` that the server reads; `rest` stands for the others.
pub record Prediction (J : Type 0) : Type 0 where
  pub results : Option (List (Value J))
  pub error : Option Text
  pub rest : ℕ

-- `muna::MunaError`.
pub data MunaError : Type 0 where
  native : Text → MunaError
  invalid_input : Text → MunaError
  prediction_error : Text → MunaError
  other_error : ℕ → MunaError

pub data Outcome (J : Type 0) : Type 0 where
  ok : Prediction J → Outcome J
  err : MunaError → Outcome J

-- What a caller is sent.
pub record Answer (J : Type 0) : Type 0 where
  pub to : ℕ
  pub outcome : Outcome J

module _ {J : Type 0} where
  abbrev pub results_or_empty : Option (List (Value J)) → List (Value J)
  results_or_empty none = []
  results_or_empty (some results) = results

  -- The loop over `batch.into_iter().zip(splits)`.
  unfoldable pub answer_splits :
      Prediction J → List (PredictItem J) → List (List (Value J)) → List (Answer J)
  answer_splits prediction (item ∷ batch) (split ∷ splits) =
      record { to = item.response_tx; outcome = ok (record prediction { results = some split }) }
      ∷ answer_splits prediction batch splits
  answer_splits prediction _ _ = []

  abbrev pub first_item : List (PredictItem J) → Option (PredictItem J)
  first_item [] = none
  first_item (item ∷ batch) = some item

-- `to_string` is the text of an error.
module _ {J : Type 0} (to_string : MunaError → Text)
    (predict_fn : Map (Value J) → ℕ → Outcome J) where
  unfoldable pub answer_batch : List (PredictItem J) → Outcome J → Option (List (Answer J))
  unfolding answer_splits
  answer_batch batch (ok prediction) =
      split_results (results_or_empty prediction.results) (map (λ b. b.item_count) batch)
      >>= λ splits. some (answer_splits prediction batch splits)
  answer_batch batch (err e) =
      some
        (map (λ item. record { to = item.response_tx; outcome = err (native (to_string e)) }) batch)

  unfoldable pub process_batch : List Text → List (PredictItem J) → Option (List (Answer J))
  unfolding answer_batch
  process_batch params batch = merge_inputs (map (λ b. b.inputs) batch) params >>= λ merged.
      first_item batch >>= λ first. answer_batch batch (predict_fn merged first.acceleration)

  unfoldable pub invoke : List Text → List (PredictItem J) → Option (List (Answer J))
  unfolding process_batch
  invoke params (item ∷ []) =
      some
        (record { to = item.response_tx; outcome = predict_fn item.inputs item.acceleration } ∷ [])
  invoke params batch = process_batch params batch

-- One sample for each request: `dispatched` is the time of the call, `done` that of its end.
module _ {J : Type 0} where
  unfoldable pub record_batch :
      List PredictionSample → List (PredictItem J) → ℕ → ℕ → List PredictionSample
  record_batch telemetry [] dispatched done = telemetry
  record_batch telemetry (item ∷ batch) dispatched done =
      record_batch
        (record_sample telemetry (record {
          at = done;
          queue_wait = dispatched - item.enqueued;
          latency = done - dispatched;
          detail = unary;
        }))
        batch dispatched done

  -- `flush`: the answers sent, and the sample window afterwards.
  unfoldable pub flush :
      (MunaError → Text)
      → (Map (Value J) → ℕ → Outcome J)
      → List Text
      → List PredictionSample
      → List (PredictItem J)
      → ℕ
      → ℕ
      → Option (List (Answer J) × List PredictionSample)
  unfolding invoke record_batch
  flush to_string predict_fn params telemetry batch dispatched done =
      invoke to_string predict_fn params batch >>= λ answers.
      some (answers, record_batch telemetry batch dispatched done)
