-- ===== src/Stats/Meter/Laws.antt =====
-- Proofs about the stream meter (src/serving/stats.rs).
use muna_server.Base.{
  ℕ, ◌+◌, ◌-◌, ◌*◌, ◌/◌, ◌%◌, ◌^◌, ◌≤◌, ◌<◌, ◌≡◌, ◌≢◌, refl, Bool, true, false, Option, none, some,
  List, [], ◌∷◌, arith,
}
use muna_server.Stats.{PredictionSample, stream, record_sample}
use muna_server.Stats.Meter.{
  StreamKind, raw_stream, StreamMeter, new_meter, on_output, on_usage, div_ceil, panicked, interval,
  normalize_interval, drop_meter,
}

div_ceil_bounds : (a b : ℕ) → 0 < b → (a ≤ div_ceil a b * b) × (div_ceil a b * b < a + b)
unfolding div_ceil
div_ceil_bounds a b pos = grind arith

div_bounds : (a b : ℕ) → 0 < b → (a / b * b ≤ a) × (a < (a / b + 1) * b)
div_bounds a b pos = grind arith

-- With two or more content-bearing chunks and fewer than 2^32 tokens the division never panics, and
-- an interval is the span shared out, rounded down, over the tokens after the mean first chunk.
pub normalize_interval_bounds :
    (span tokens chunks i : ℕ)
    → 2 ≤ chunks
    → tokens < 2 ^ 32
    → (normalize_interval span tokens chunks ≢ panicked)
      × (normalize_interval span tokens chunks ≡ interval i
          → let after_first = tokens - div_ceil tokens chunks in
            (0 < after_first) × (i * after_first ≤ span) × (span < (i + 1) * after_first))
unfolding normalize_interval
normalize_interval_bounds span tokens chunks i two small =
    let after = tokens - div_ceil tokens chunks in
    let low : after % 2 ^ 32 ≡ after = omega arith in
    (
      ground arith,
      λ e.
          let (below, above) = div_bounds span after (ground arith) in
          (ground arith, ground arith, ground arith),
    )

-- The frames and usage notes of a stream, with the time of each frame.
pub data Frame : Type 0 where
  output : (content : Bool) (now : ℕ) → Frame
  usage : (tokens : ℕ) → Frame

abbrev pub feed : StreamMeter → List Frame → StreamMeter
feed m [] = m
feed m (output content now ∷ fs) = feed (on_output m content now) fs
feed m (usage tokens ∷ fs) = feed (on_usage m tokens) fs

-- When the first content-bearing frame came.
abbrev pub first_content : List Frame → Option ℕ
first_content [] = none
first_content (output true now ∷ fs) = some now
first_content (output false now ∷ fs) = first_content fs
first_content (usage tokens ∷ fs) = first_content fs

-- When the last frame came, after `before`.
abbrev pub last_frame : Option ℕ → List Frame → Option ℕ
last_frame before [] = before
last_frame before (output content now ∷ fs) = last_frame (some now) fs
last_frame before (usage tokens ∷ fs) = last_frame before fs

feed-kept :
    (m : StreamMeter) (fs : List Frame)
    → ((feed m fs).queue_wait ≡ m.queue_wait)
      × ((feed m fs).started ≡ m.started)
      × ((feed m fs).kind ≡ m.kind)
      × ((feed m fs).last_output_at ≡ last_frame m.last_output_at fs)
unfolding on_output on_usage
feed-kept m [] = (refl, refl, refl, refl)
feed-kept m (output true now ∷ fs) = feed-kept (on_output m true now) fs
feed-kept m (output false now ∷ fs) = feed-kept (on_output m false now) fs
feed-kept m (usage tokens ∷ fs) = feed-kept (on_usage m tokens) fs

feed-first :
    (m : StreamMeter) (fs : List Frame)
    → ((feed m fs).first_content_at
        ≡ elim m.first_content_at [ none ↦ first_content fs | some at ↦ some at ])
unfolding on_output on_usage
feed-first m [] = ground arith
feed-first m (output true now ∷ fs) = ground (arith, feed-first (on_output m true now) fs)
feed-first m (output false now ∷ fs) = feed-first (on_output m false now) fs
feed-first m (usage tokens ∷ fs) = feed-first (on_usage m tokens) fs

last_frame-some :
    (fs : List Frame) (before now : ℕ) → (last : ℕ) × (last_frame (some before) fs ≡ some last)
last_frame-some [] before now = (before, refl)
last_frame-some (output content at ∷ fs) before now = last_frame-some fs at now
last_frame-some (usage tokens ∷ fs) before now = last_frame-some fs before now

first-last :
    (fs : List Frame) (before : Option ℕ) (first : ℕ)
    → first_content fs ≡ some first
    → (last : ℕ) × (last_frame before fs ≡ some last)
first-last [] before first h = cc
first-last (output true now ∷ fs) before first h = last_frame-some fs now now
first-last (output false now ∷ fs) before first h = first-last fs (some now) first h
first-last (usage tokens ∷ fs) before first h = first-last fs before first h

-- A stream without a content-bearing frame records nothing, whatever its kind. A raw stream with
-- one records exactly one sample: the time to its first content-bearing frame, and the time to its
-- last frame.
pub drop_meter-feed :
    (kind : StreamKind) (queue_wait started now : ℕ) (fs : List Frame)
    (window : List PredictionSample)
    → (first_content fs ≡ none
        → drop_meter (feed (new_meter kind queue_wait started) fs) window now ≡ some window)
      × ((first : ℕ)
          → kind ≡ raw_stream
          → first_content fs ≡ some first
          → (last : ℕ) × (last_frame none fs ≡ some last)
            × (drop_meter (feed (new_meter kind queue_wait started) fs) window now
                ≡ some (
                    record_sample window (record {
                      at = now;
                      queue_wait = queue_wait;
                      latency = last - started;
                      detail = stream (first - started);
                    }))))
unfolding drop_meter new_meter
drop_meter-feed kind queue_wait started now fs window =
    let m = new_meter kind queue_wait started in
    (
      λ e. ground (arith, feed-first m fs),
      λ first raw e.
          let (last, e') = first-last fs none first e in
          (last, e', ground (arith, feed-first m fs, feed-kept m fs)),
    )
