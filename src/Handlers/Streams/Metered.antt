-- ===== src/Handlers/Streams/Metered.antt =====
-- Proofs about what the meter of a raw prediction stream records (src/handlers/predictions.rs and
-- src/serving/stats.rs).
use muna_server.Base.{
  ℕ, ◌-◌, ◌≡◌, refl, sym, ap, ◌∙◌, true, Option, none, some, List, [], ◌∷◌, Text, ok, err,
  unwrap_or_else,
}
use muna_server.Worker.Flush.{MunaError, Prediction}
use muna_server.Stats.{PredictionSample, record_sample, stream}
use muna_server.Stats.Meter.{StreamMeter, raw_stream, new_meter, on_output, drop_meter}
use muna_server.Stats.Meter.Laws.{feed, first_content, last_frame, drop_meter-feed}
use muna_server.Handlers.Values.{Codec, RemotePrediction, to_remote_prediction, error_prediction}
use muna_server.Handlers.Streams.{Items, prediction_stream}
use muna_server.Handlers.Streams.Events.{prediction_frames, item_frames, unfold_items-feed}

-- The window after a raw stream of predictions was dropped: nothing is recorded of a stream without
-- a prediction, and else one sample, with the times of the first and of the last prediction.
abbrev pub first_item : {T : Type 0} → Items T → Option ℕ
first_item [] = none
first_item ((now, ok item) ∷ items) = some now
first_item ((now, err e) ∷ items) = first_item items

first_item-content :
    {J : Type 0} (items : Items (Prediction J))
    → first_content (item_frames prediction_frames items) ≡ first_item items
first_item-content [] = refl
first_item-content ((now, ok item) ∷ items) = refl
first_item-content ((now, err e) ∷ items) = first_item-content items

abbrev pub last_item : {T : Type 0} → Option ℕ → Items T → Option ℕ
last_item before [] = before
last_item before ((now, ok item) ∷ items) = last_item (some now) items
last_item before ((now, err e) ∷ items) = last_item before items

last_item-frame :
    {J : Type 0} (before : Option ℕ) (items : Items (Prediction J))
    → last_frame before (item_frames prediction_frames items) ≡ last_item before items
last_item-frame before [] = refl
last_item-frame before ((now, ok item) ∷ items) = last_item-frame (some now) items
last_item-frame before ((now, err e) ∷ items) = last_item-frame before items

prediction_stream-feed :
    {J : Type 0} (codec : Codec J) (display : MunaError → Text) (metadata : ℕ) (m : StreamMeter)
    (items : Items (Prediction J))
    → (prediction_stream codec display metadata m items).1
      ≡ feed m (item_frames prediction_frames items)
unfolding prediction_stream
prediction_stream-feed {J = J} codec display metadata m items =
    ap (λ p. p.1)
      (unfold_items-feed {T = Prediction J} {F = RemotePrediction}
        (λ meter prediction now. on_output meter true now) prediction_frames
        (λ prediction.
          unwrap_or_else (to_remote_prediction codec prediction)
            λ e. error_prediction metadata (display e))
        (λ e. error_prediction metadata (display e)) (λ meter prediction now. refl) m items)

-- A raw prediction stream and its telemetry. When the stream ends or its client leaves, a stream
-- that yielded no prediction records nothing; any other records one sample, whose first output is
-- at the first prediction and whose latency ends at the last, errors not counted.
pub prediction_stream-drop_meter :
    {J : Type 0} (codec : Codec J) (display : MunaError → Text) (metadata : ℕ)
    (queue_wait started now : ℕ) (items : Items (Prediction J)) (window : List PredictionSample)
    → (first_item items ≡ none
        → drop_meter
            (prediction_stream codec display metadata
              (new_meter raw_stream queue_wait started)
              items).1
            window
            now
          ≡ some window)
      × ((first : ℕ)
          → first_item items ≡ some first
          → (last : ℕ) × (last_item none items ≡ some last)
            × (drop_meter
                  (prediction_stream codec display metadata
                    (new_meter raw_stream queue_wait started)
                    items).1
                  window
                  now
                ≡ some (
                    record_sample window (record {
                      at = now;
                      queue_wait = queue_wait;
                      latency = last - started;
                      detail = stream (first - started);
                    }))))
prediction_stream-drop_meter codec display metadata queue_wait started now items window =
    let meter = new_meter raw_stream queue_wait started in
    let fed = prediction_stream-feed codec display metadata meter items in
    let laws =
      drop_meter-feed raw_stream queue_wait started now (item_frames prediction_frames items)
        window in
    (
      λ e. ap (λ m. drop_meter m window now) fed ∙ laws.0 (first_item-content items ∙ e),
      λ first e.
          let (last, at, dropped) = laws.1 first refl (first_item-content items ∙ e) in
          (
            last,
            sym (last_item-frame none items) ∙ at,
            ap (λ m. drop_meter m window now) fed ∙ dropped,
          ),
    )
