-- ===== src/Stats.antt =====
-- src/serving/stats.rs: the counters of a model, the window of timing samples with its percentiles,
-- and the meter of a stream. A duration or an instant is a number of nanoseconds, and `now` is an
-- argument. The source's f64 milliseconds are the nanoseconds scaled, in the same order.
pub mod Window
pub mod Percentile
pub mod Meter
use muna_server.Base.{
  ℕ, zero, suc, ◌+◌, ◌-◌, ◌*◌, ◌/◌, ◌%◌, ◌^◌, Bool, true, false, Option, none, some, List, [], ◌∷◌,
  ◌++◌, map, length, drop, get_elem?, filterb, ltb, leb, ◌==◌, if◌then◌else◌,
}

pub data SampleDetail : Type 0 where
  llm : (first_output : ℕ) (output_interval : Option ℕ) → SampleDetail
  image : (images : ℕ) → SampleDetail
  stream : (first_output : ℕ) → SampleDetail
  unary : SampleDetail

pub record PredictionSample : Type 0 where
  pub at : ℕ
  pub queue_wait : ℕ
  pub latency : ℕ
  pub detail : SampleDetail

abbrev pub window_cap : ℕ
window_cap = 512

-- Five minutes.
abbrev pub window_horizon : ℕ
window_horizon = 300 * 10 ^ 9

abbrev pub min_samples : ℕ
min_samples = 5

-- `TelemetryWindow::record`; the head of the list is the oldest sample. `window_cap` is the
-- argument `cap`, so that the laws hold for every capacity.
unfoldable pub record_capped {ℓ} : {A : Type ℓ} → ℕ → List A → A → List A
record_capped cap samples sample =
    if length samples == cap then drop 1 samples ++ sample ∷ [] else samples ++ sample ∷ []

unfoldable pub record_sample : List PredictionSample → PredictionSample → List PredictionSample
unfolding record_capped
record_sample samples sample = record_capped window_cap samples sample

pub insert_value : ℕ → List ℕ → List ℕ
insert_value v [] = v ∷ []
insert_value v (w ∷ ws) = let rest = insert_value v ws in if leb v w then v ∷ w ∷ ws else w ∷ rest

unfoldable pub sort_values : List ℕ → List ℕ
unfolding insert_value
sort_values [] = []
sort_values (v ∷ vs) = insert_value v (sort_values vs)

-- `(n * p).round()` for `p` = `num` / 100, a half away from zero.
unfoldable pub rank : ℕ → ℕ → ℕ
rank n num = (2 * n * num + 100) / 200

-- An index out of range, where Rust panics, gives `none` too.
unfoldable pub percentile : List ℕ → ℕ → Option ℕ
unfolding rank sort_values
percentile values num =
    if ltb (length values) min_samples
    then none
    else get_elem? (sort_values values) (rank (length values - 1) num)

pub record TelemetrySummary : Type 0 where
  pub queue_wait_p95 : Option ℕ
  pub latency_p95 : Option ℕ
  pub first_output_p50 : Option ℕ
  pub first_output_p95 : Option ℕ
  pub output_interval_p50 : Option ℕ
  pub output_interval_p95 : Option ℕ

unfoldable pub is_recent : ℕ → PredictionSample → Bool
is_recent now sample = leb (now - sample.at) window_horizon

unfoldable pub first_output_of : SampleDetail → Option ℕ
first_output_of (llm first_output _) = some first_output
first_output_of (stream first_output) = some first_output
first_output_of (image _) = none
first_output_of unary = none

unfoldable pub output_interval_of : SampleDetail → Option ℕ
output_interval_of (llm _ output_interval) = output_interval
output_interval_of (stream _) = none
output_interval_of (image _) = none
output_interval_of unary = none

abbrev pub filter_map {ℓ κ} : {A : Type ℓ} {B : Type κ} → (A → Option B) → List A → List B
filter_map f [] = []
filter_map f (x ∷ xs) = let rest = filter_map f xs in elim (f x) [ none ↦ rest | some y ↦ y ∷ rest ]

abbrev pub first_outputs : List PredictionSample → List ℕ
first_outputs recent = filter_map (λ s. first_output_of s.detail) recent

abbrev pub output_intervals : List PredictionSample → List ℕ
output_intervals recent = filter_map (λ s. output_interval_of s.detail) recent

unfoldable pub summarize_recent : List PredictionSample → Option TelemetrySummary
unfolding percentile first_output_of output_interval_of
summarize_recent recent =
    if ltb (length recent) min_samples
    then none
    else some (record {
      queue_wait_p95 = percentile (map (λ s. s.queue_wait) recent) 95;
      latency_p95 = percentile (map (λ s. s.latency) recent) 95;
      first_output_p50 = percentile (first_outputs recent) 50;
      first_output_p95 = percentile (first_outputs recent) 95;
      output_interval_p50 = percentile (output_intervals recent) 50;
      output_interval_p95 = percentile (output_intervals recent) 95;
    })

unfoldable pub summarize : List PredictionSample → ℕ → Option TelemetrySummary
unfolding is_recent summarize_recent
summarize samples now = summarize_recent (filterb (is_recent now) samples)

-- The atomic counters wrap at their widths.
pub record ModelStats : Type 0 where
  pub total_predictions : ℕ
  pub queue_depth : ℕ
  pub telemetry : List PredictionSample
  pub load_time_us : ℕ
  pub download_time_ns : ℕ
  pub latency_sum_us : ℕ
  pub latency_count : ℕ
  pub vram_mb : ℕ

abbrev pub new_stats : ModelStats
new_stats = record {
  total_predictions = 0;
  queue_depth = 0;
  telemetry = [];
  load_time_us = 0;
  download_time_ns = 0;
  latency_sum_us = 0;
  latency_count = 0;
  vram_mb = 0;
}

unfoldable pub record_load_time : ModelStats → ℕ → ModelStats
record_load_time s elapsed = record s { load_time_us = elapsed / 1000 % 2 ^ 64 }

unfoldable pub record_download_time : ModelStats → ℕ → ModelStats
record_download_time s elapsed = record s { download_time_ns = elapsed % 2 ^ 64 }

unfoldable pub record_latency : ModelStats → ℕ → ModelStats
record_latency s elapsed = record s {
  latency_sum_us = (s.latency_sum_us + elapsed / 1000 % 2 ^ 64) % 2 ^ 64;
  latency_count = (s.latency_count + 1) % 2 ^ 64;
  total_predictions = (s.total_predictions + 1) % 2 ^ 64;
}

unfoldable pub record_vram : ModelStats → ℕ → ModelStats
record_vram s mb = record s { vram_mb = mb }

unfoldable pub vram_of : ModelStats → Option ℕ
vram_of s = if ltb 0 s.vram_mb then some s.vram_mb else none

-- `queue_depth.fetch_add(1)` and `queue_depth.fetch_sub(1)`.
unfoldable pub queue_up : ModelStats → ModelStats
queue_up s = record s { queue_depth = (s.queue_depth + 1) % 2 ^ 32 }

unfoldable pub queue_down : ModelStats → ModelStats
queue_down s = record s { queue_depth = (s.queue_depth + 2 ^ 32 - 1) % 2 ^ 32 }
