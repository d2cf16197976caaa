-- ===== src/Stats/Meter.antt =====
-- src/serving/stats.rs: `StreamMeter`, which records one sample when it is dropped, and
-- `normalize_interval`.
pub mod Laws
use muna_server.Base.{
  ℕ, zero, suc, ◌+◌, ◌-◌, ◌*◌, ◌/◌, ◌%◌, ◌^◌, Bool, true, false, Option, none, some, List, ltb, leb,
  ◌==◌, ◌||◌, if◌then◌else◌,
}
use muna_server.Stats.{SampleDetail, llm, stream, PredictionSample, record_sample}

pub data StreamKind : Type 0 where
  llm_stream raw_stream : StreamKind

pub record StreamMeter : Type 0 where
  pub kind : StreamKind
  pub queue_wait : ℕ
  pub started : ℕ
  pub first_content_at : Option ℕ
  pub last_output_at : Option ℕ
  pub content_chunks : ℕ
  pub completion_tokens : Option ℕ

-- `StreamMeter::new`
unfoldable pub new_meter : StreamKind → ℕ → ℕ → StreamMeter
new_meter kind queue_wait now = record {
  kind = kind;
  queue_wait = queue_wait;
  started = now;
  first_content_at = none;
  last_output_at = none;
  content_chunks = 0;
  completion_tokens = none;
}

abbrev pub first_time : Option ℕ → ℕ → Option ℕ
first_time none now = some now
first_time (some at) now = some at

unfoldable pub on_output : StreamMeter → Bool → ℕ → StreamMeter
on_output m content now =
    if content
    then record m {
      last_output_at = some now;
      content_chunks = m.content_chunks + 1;
      first_content_at = first_time m.first_content_at now;
    }
    else record m { last_output_at = some now }

unfoldable pub on_usage : StreamMeter → ℕ → StreamMeter
on_usage m tokens = record m { completion_tokens = some tokens }

-- `a.div_ceil(b)`
unfoldable pub div_ceil : ℕ → ℕ → ℕ
div_ceil a b = (a + b - 1) / b

-- What `normalize_interval` does: no interval, an interval, or a panic, since the division is by the
-- low 32 bits of the token count, which may be 0.
pub data Interval : Type 0 where
  absent panicked : Interval
  interval : ℕ → Interval

unfoldable pub normalize_interval : ℕ → ℕ → ℕ → Interval
unfolding div_ceil
normalize_interval span completion_tokens content_chunks =
    if ltb content_chunks 2 || completion_tokens == 0
    then absent
    else let after_first = completion_tokens - div_ceil completion_tokens content_chunks in
      if after_first == 0
      then absent
      else (if after_first % 2 ^ 32 == 0
          then panicked
          else interval (span / (after_first % 2 ^ 32)))

abbrev pub output_interval : Interval → Option (Option ℕ)
output_interval absent = some none
output_interval (interval i) = some (some i)
output_interval panicked = none

-- The detail of the sample; `none` for a panic.
unfoldable pub detail_of : StreamMeter → ℕ → ℕ → Option SampleDetail
unfolding normalize_interval
detail_of m first last = elim m.kind [
  | raw_stream ↦ some (stream (first - m.started))
  | llm_stream ↦ elim m.completion_tokens [
    | none ↦ some (llm (first - m.started) none)
    | some tokens ↦
        elim (output_interval (normalize_interval (last - first) tokens m.content_chunks)) [
          | none ↦ none
          | some i ↦ some (llm (first - m.started) i)
        ]
  ]
]

-- `Drop`: the window afterwards. Without a content-bearing frame nothing is recorded.
unfoldable pub drop_meter : StreamMeter → List PredictionSample → ℕ → Option (List PredictionSample)
unfolding detail_of
drop_meter m window now = elim m.first_content_at [
  | none ↦ some window
  | some first ↦ elim m.last_output_at [
    | none ↦ some window
    | some last ↦ elim (detail_of m first last) [
      | none ↦ none
      | some detail ↦ some (
          record_sample window (record {
            at = now;
            queue_wait = m.queue_wait;
            latency = last - m.started;
            detail = detail;
          }))
    ]
  ]
]
