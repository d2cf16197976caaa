-- ===== src/Handlers/Streams/Events.antt =====
-- Proofs about the events of a streamed response (src/handlers).
use muna_server.Base.{
  ℕ, ◌≡◌, refl, ap, ◌⊎◌, inl, inr, Bool, true, false, ◌||◌, Option, none, some, List, [], ◌∷◌, ◌++◌,
  map, Text, codes, Result, ok, err,
}
use muna_server.Worker.Flush.{MunaError, Prediction}
use muna_server.Stats.Meter.{StreamMeter, on_output, on_usage}
use muna_server.Stats.Meter.Laws.{Frame, output, usage, feed}
use muna_server.Errors.{AppError, from_muna, internal, muna_error_value, anthropic_error_value}
use muna_server.Handlers.Streams.{
  Items, ChatChunk, has_text, is_some, note_usage, stamp_chunk, MessageEvent, content_block_delta,
  message_delta, other_event, stamp_event, unfold_items, commit, ChatFrame, chunk_frame,
  error_frame, done_frame, chat_stream, MessageFrame, event_frame, failure_frame, message_stream,
}

-- What the meter is told of one item.
abbrev usage_frames : Option ℕ → List Frame
usage_frames none = []
usage_frames (some tokens) = usage tokens ∷ []

abbrev pub chunk_frames : {X : Type 0} → ℕ → ChatChunk X → List Frame
chunk_frames now chunk =
    usage_frames chunk.usage ++ output (has_text chunk.choices || is_some chunk.usage) now ∷ []

abbrev pub event_frames : {X : Type 0} → ℕ → MessageEvent X → List Frame
event_frames now (content_block_delta x) = output true now ∷ []
event_frames now (message_delta tokens x) = usage tokens ∷ output true now ∷ []
event_frames now (other_event x) = output false now ∷ []

abbrev pub prediction_frames : {J : Type 0} → ℕ → Prediction J → List Frame
prediction_frames now prediction = output true now ∷ []

-- Errors inside a stream are not stamped.
abbrev pub item_frames : {T : Type 0} → (ℕ → T → List Frame) → Items T → List Frame
item_frames frames [] = []
item_frames frames ((now, ok item) ∷ items) = frames now item ++ item_frames frames items
item_frames frames ((now, err e) ∷ items) = item_frames frames items

abbrev pub one_event : {T F : Type 0} → (T → F) → (MunaError → F) → ℕ × Result T MunaError → F
one_event frame failure (now, ok item) = frame item
one_event frame failure (now, err e) = failure e

feed-append : (m : StreamMeter) (fs gs : List Frame) → feed m (fs ++ gs) ≡ feed (feed m fs) gs
feed-append m [] gs = refl
feed-append m (output content now ∷ fs) gs = feed-append (on_output m content now) fs gs
feed-append m (usage tokens ∷ fs) gs = feed-append (on_usage m tokens) fs gs

-- One event for each item, in order, and the meter is fed with the frames of the items.
pub unfold_items-feed :
    {T F : Type 0} (stamp : StreamMeter → T → ℕ → StreamMeter) (frames : ℕ → T → List Frame)
    (frame : T → F) (failure : MunaError → F)
    → ((m : StreamMeter) (item : T) (now : ℕ) → stamp m item now ≡ feed m (frames now item))
    → (m : StreamMeter) (items : Items T)
    → unfold_items stamp frame failure m items
      ≡ (map (one_event frame failure) items, feed m (item_frames frames items))
unfolding unfold_items
unfold_items-feed stamp frames frame failure h m [] = refl
unfold_items-feed stamp frames frame failure h m ((now, ok item) ∷ items) =
    rw
      (
        unfold_items-feed stamp frames frame failure h (stamp m item now) items,
        feed-append m (frames now item) (item_frames frames items),
        h m item now,
      )
      refl
unfold_items-feed stamp frames frame failure h m ((now, err e) ∷ items) =
    rw (unfold_items-feed stamp frames frame failure h m items) refl

note_feed :
    (m : StreamMeter) (tokens : Option ℕ) (text : Bool) (now : ℕ)
    → on_output (note_usage m tokens) (text || is_some tokens) now
      ≡ feed m (usage_frames tokens ++ output (text || is_some tokens) now ∷ [])
note_feed m none text now = refl
note_feed m (some tokens) text now = refl

stamp_chunk-feed :
    {X : Type 0} (m : StreamMeter) (chunk : ChatChunk X) (now : ℕ)
    → stamp_chunk m chunk now ≡ feed m (chunk_frames now chunk)
unfolding stamp_chunk
stamp_chunk-feed m chunk now = note_feed m chunk.usage (has_text chunk.choices) now

stamp_event-feed :
    {X : Type 0} (m : StreamMeter) (event : MessageEvent X) (now : ℕ)
    → stamp_event m event now ≡ feed m (event_frames now event)
unfolding stamp_event
stamp_event-feed m (content_block_delta x) now = refl
stamp_event-feed m (message_delta tokens x) now = refl
stamp_event-feed m (other_event x) now = refl

-- What a streamed response does with the items of its stream: the events and the meter, or the error
-- before any event.
abbrev pub IsStreamed :
    {T F : Type 0}
    → (MunaError → Text)
    → (Items T → List F × StreamMeter)
    → Items T
    → Result (List F × StreamMeter) AppError
    → Type 0
IsStreamed {T = T} display expected items (ok response) =
    (response ≡ expected items)
    × (now : ℕ) × (first : T) × (later : Items T) × (items ≡ (now, ok first) ∷ later)
IsStreamed {T = T} display expected items (err e) =
    ((items ≡ []) × (e ≡ internal (codes "prediction stream ended before producing output")))
    ⊎ ((now : ℕ) × (m : MunaError) × (later : Items T) × (items ≡ (now, err m) ∷ later)
        × (e ≡ from_muna display m))

commit-IsStreamed :
    {T F : Type 0} (display : MunaError → Text) (events expected : Items T → List F × StreamMeter)
    → ((items : Items T) → events items ≡ expected items)
    → (items : Items T) → IsStreamed display expected items (commit display events items)
unfolding commit
commit-IsStreamed display events expected h [] = inl (refl, refl)
commit-IsStreamed display events expected h ((now, err e) ∷ items) = inr (now, e, items, refl, refl)
commit-IsStreamed display events expected h ((now, ok first) ∷ items) =
    (h ((now, ok first) ∷ items), now, first, items, refl)

abbrev pub chat_events :
    {X : Type 0}
    → (MunaError → Text)
    → StreamMeter
    → Items (ChatChunk X)
    → List (ChatFrame X) × StreamMeter
chat_events display meter items = (
  map (one_event (λ c. chunk_frame c) (λ e. error_frame (muna_error_value display e))) items
      ++ done_frame ∷ [],
  feed meter (item_frames chunk_frames items),
)

abbrev pub message_events :
    {X : Type 0}
    → (MunaError → Text)
    → StreamMeter
    → Items (MessageEvent X)
    → List (MessageFrame X) × StreamMeter
message_events display meter items = (
  map (one_event (λ m. event_frame m) (λ e. failure_frame (anthropic_error_value display e))) items,
  feed meter (item_frames event_frames items),
)

-- A streamed chat response of either protocol. If the predictor yields nothing, or an error first,
-- the response is that error and no stream. Else there is exactly one event for each item, in
-- order, an error item included, and in OpenAI's protocol the end mark after them; and the meter
-- has been told of each item that is not an error.
pub chat_stream-IsStreamed :
    {X Y : Type 0} (display : MunaError → Text) (meter : StreamMeter) (chunks : Items (ChatChunk X))
    (events : Items (MessageEvent Y))
    → IsStreamed display (chat_events display meter) chunks (chat_stream display meter chunks)
      × IsStreamed display
          (message_events display meter)
          events
          (message_stream display meter events)
unfolding chat_stream message_stream
chat_stream-IsStreamed {X = X} display meter chunks events = (
  commit-IsStreamed {T = ChatChunk X} display _ (chat_events {X = X} display meter)
      (λ items.
        ap (λ p. (p.0 ++ done_frame ∷ [], p.1))
          (unfold_items-feed {T = ChatChunk X} {F = ChatFrame X} stamp_chunk chunk_frames
            (λ c. chunk_frame c) (λ e. error_frame (muna_error_value display e)) stamp_chunk-feed
            meter items))
      chunks,
  commit-IsStreamed display _ (message_events display meter)
      (unfold_items-feed stamp_event event_frames (λ m. event_frame m)
        (λ e. failure_frame (anthropic_error_value display e)) stamp_event-feed meter)
      events,
)
