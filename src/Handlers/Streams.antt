-- ===== src/Handlers/Streams.antt =====
-- The streamed responses of src/handlers/openai/completions.rs, src/handlers/anthropic/messages.rs
-- and src/handlers/predictions.rs. A stream is the list of what its receiver gets, each item with
-- its time; `X` stands for what the code never reads. Of serde_json the model keeps the value that is
-- printed.
pub mod Events
pub mod Metered
use muna_server.Base.{
  ℕ, Bool, true, false, not, ◌||◌, Option, none, some, List, [], ◌∷◌, ◌++◌, Text, codes, ◌==◌,
  if◌then◌else◌, Result, ok, err, unwrap_or_else,
}
use muna_server.Worker.Flush.{MunaError, Prediction}
use muna_server.Stats.Meter.{StreamMeter, on_output, on_usage}
use muna_server.Errors.{
  AppError, ErrorBody, AnthropicBody, from_muna, internal, muna_error_value, anthropic_error_value,
}
use muna_server.Handlers.Values.{Codec, RemotePrediction, to_remote_prediction, error_prediction}

abbrev pub Items : Type 0 → Type 0
Items T = List (ℕ × Result T MunaError)

-- The lengths of a choice's texts and of its tool calls, where it has them.
pub record Delta : Type 0 where
  pub content : Option ℕ
  pub reasoning_content : Option ℕ
  pub tool_calls : Option ℕ

pub record ChatChunk (X : Type 0) : Type 0 where
  pub choices : List (Option Delta)
  pub usage : Option ℕ
  pub rest : X

-- `is_some_and(|c| !c.is_empty())`.
unfoldable pub is_filled : Option ℕ → Bool
is_filled none = false
is_filled (some length) = not (length == 0)

unfoldable pub has_text : List (Option Delta) → Bool
unfolding is_filled
has_text [] = false
has_text (none ∷ choices) = has_text choices
has_text (some delta ∷ choices) =
    (is_filled delta.content || is_filled delta.reasoning_content || is_filled delta.tool_calls)
    || has_text choices

abbrev pub is_some : Option ℕ → Bool
is_some none = false
is_some (some n) = true

abbrev pub note_usage : StreamMeter → Option ℕ → StreamMeter
note_usage meter none = meter
note_usage meter (some tokens) = on_usage meter tokens

unfoldable pub stamp_chunk : {X : Type 0} → StreamMeter → ChatChunk X → ℕ → StreamMeter
unfolding on_output on_usage has_text
stamp_chunk meter chunk now =
    on_output (note_usage meter chunk.usage) (has_text chunk.choices || is_some chunk.usage) now

-- `muna::beta::anthropic::RawMessageStreamEvent`.
pub data MessageEvent (X : Type 0) : Type 0 where
  content_block_delta : X → MessageEvent X
  message_delta : (output_tokens : ℕ) → X → MessageEvent X
  other_event : X → MessageEvent X

unfoldable pub stamp_event : {X : Type 0} → StreamMeter → MessageEvent X → ℕ → StreamMeter
unfolding on_output on_usage
stamp_event meter (content_block_delta x) now = on_output meter true now
stamp_event meter (message_delta output_tokens x) now =
    on_output (on_usage meter output_tokens) true now
stamp_event meter (other_event x) now = on_output meter false now

-- The closure of `unfold`, item by item: the events and the meter when the stream state drops.
unfoldable pub unfold_items :
    {T F : Type 0}
    → (StreamMeter → T → ℕ → StreamMeter)
    → (T → F)
    → (MunaError → F)
    → StreamMeter
    → Items T
    → List F × StreamMeter
unfold_items stamp frame failure meter [] = ([], meter)
unfold_items stamp frame failure meter ((now, ok item) ∷ items) =
    let rest = unfold_items stamp frame failure (stamp meter item now) items in
    (frame item ∷ rest.0, rest.1)
unfold_items stamp frame failure meter ((now, err e) ∷ items) =
    let rest = unfold_items stamp frame failure meter items in (failure e ∷ rest.0, rest.1)

-- The response commits on the first item: an error, or a stream that starts with it.
unfoldable pub commit :
    {T F : Type 0}
    → (MunaError → Text)
    → (Items T → List F × StreamMeter)
    → Items T
    → Result (List F × StreamMeter) AppError
unfolding from_muna internal
commit display stream [] = err (internal (codes "prediction stream ended before producing output"))
commit display stream ((now, err e) ∷ items) = err (from_muna display e)
commit display stream ((now, ok first) ∷ items) = ok (stream ((now, ok first) ∷ items))

-- The events of a chat stream.
pub data ChatFrame (X : Type 0) : Type 0 where
  chunk_frame : ChatChunk X → ChatFrame X
  error_frame : ErrorBody → ChatFrame X
  done_frame : ChatFrame X

unfoldable pub chat_stream :
    {X : Type 0}
    → (MunaError → Text)
    → StreamMeter
    → Items (ChatChunk X)
    → Result (List (ChatFrame X) × StreamMeter) AppError
unfolding commit unfold_items stamp_chunk muna_error_value
chat_stream display meter items =
    commit display
      (λ all.
        let events =
          unfold_items stamp_chunk (λ c. chunk_frame c)
            (λ e. error_frame (muna_error_value display e)) meter all in
        (events.0 ++ done_frame ∷ [], events.1))
      items

pub data MessageFrame (X : Type 0) : Type 0 where
  event_frame : MessageEvent X → MessageFrame X
  failure_frame : AnthropicBody → MessageFrame X

unfoldable pub message_stream :
    {X : Type 0}
    → (MunaError → Text)
    → StreamMeter
    → Items (MessageEvent X)
    → Result (List (MessageFrame X) × StreamMeter) AppError
unfolding commit unfold_items stamp_event anthropic_error_value
message_stream display meter items =
    commit display
      (unfold_items stamp_event (λ m. event_frame m)
        (λ e. failure_frame (anthropic_error_value display e)) meter)
      items

-- `metadata` stands for the id and the time of an error prediction.
unfoldable pub prediction_stream :
    {J : Type 0}
    → Codec J
    → (MunaError → Text)
    → ℕ
    → StreamMeter
    → Items (Prediction J)
    → List RemotePrediction × StreamMeter
unfolding unfold_items to_remote_prediction error_prediction on_output
prediction_stream codec display metadata meter items =
    unfold_items (λ m prediction now. on_output m true now)
      (λ prediction.
        unwrap_or_else (to_remote_prediction codec prediction)
          λ e. error_prediction metadata (display e))
      (λ e. error_prediction metadata (display e)) meter items
