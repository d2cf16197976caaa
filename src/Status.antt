-- ===== src/Status.antt =====
-- src/control/protocol.rs: what a node reports of itself. The average latency is a fraction of
-- microseconds by predictions, the load time is in microseconds and the telemetry in nanoseconds,
-- where the source divides to milliseconds in floating point.
pub mod Merged
pub mod Shares
use muna_server.Base.{
  ℕ, ◌+◌, ◌%◌, ◌^◌, min, Bool, true, false, ◌||◌, ◌==◌, Option, none, some, List, [], ◌∷◌, ◌++◌,
  map, Text, text_eq, Map, get, insert, if◌then◌else◌,
}
use mathlib.Core.Option.{map as map_option}
use muna_server.Batch.{BatchPlan, sequential, buffered, continuous}
use muna_server.Stats.{ModelStats, TelemetrySummary, vram_of, summarize}
use muna_server.Registry.{
  Devices, ReadyModel, ModelState, loading, ready, failed, Registry, snapshot,
}
use muna_server.Cache.{CacheState, caching, cached, cache_failed, CacheTracker, cache_snapshot}
use muna_server.Lease.{RegistrantStats}
use muna_server.Node.{AppState, is_draining}

-- `Caching` to `Failed`.
pub data ModelLifecycle : Type 0 where
  is_caching is_cached is_loading is_ready is_failed : ModelLifecycle

pub data DispatchMode : Type 0 where
  one_at_a_time merged concurrent : DispatchMode

unfoldable pub mode_of : BatchPlan → DispatchMode
mode_of sequential = one_at_a_time
mode_of (buffered params capacity) = merged
mode_of continuous = concurrent

pub record ModelStatus : Type 0 where
  pub tag : Text
  pub state : ModelLifecycle
  pub error : Option Text
  pub batch_mode : Option DispatchMode
  pub progress_pct : Option ℕ
  pub queue_depth : ℕ
  pub total_predictions : ℕ
  pub avg_latency : ℕ × ℕ
  pub load_time_us : ℕ
  pub download_time_ns : Option ℕ
  pub vram_mb : Option ℕ
  pub lease_weight : Option ℕ
  pub lease_ns_held : Option ℕ
  pub lease_ns_waited : Option ℕ
  pub telemetry : TelemetrySummary
  pub device_ids : Devices
  pub build : Option Text

abbrev no_telemetry : TelemetrySummary
no_telemetry = record {
  queue_wait_p95 = none;
  latency_p95 = none;
  first_output_p50 = none;
  first_output_p95 = none;
  output_interval_p50 = none;
  output_interval_p95 = none;
}

unfoldable pub empty_status : Text → ModelLifecycle → Option Text → ModelStatus
empty_status tag state error = record {
  tag = tag;
  state = state;
  error = error;
  batch_mode = none;
  progress_pct = none;
  queue_depth = 0;
  total_predictions = 0;
  avg_latency = (0, 1);
  load_time_us = 0;
  download_time_ns = none;
  vram_mb = none;
  lease_weight = none;
  lease_ns_held = none;
  lease_ns_waited = none;
  telemetry = no_telemetry;
  device_ids = none;
  build = none;
}

unfoldable pub avg_latency_of : ModelStats → ℕ × ℕ
avg_latency_of s = if s.latency_count == 0 then (0, 1) else (s.latency_sum_us, s.latency_count)

abbrev pub telemetry_or_default : Option TelemetrySummary → TelemetrySummary
telemetry_or_default none = no_telemetry
telemetry_or_default (some summary) = summary

-- `and_modify`: counters of 64 bits add, the least weight stays, the other fields are the first's.
unfoldable pub add_rank : RegistrantStats → RegistrantStats → RegistrantStats
add_rank entry stats = record entry {
  weight = min entry.weight stats.weight;
  ns_held = (entry.ns_held + stats.ns_held) % 2 ^ 64;
  ns_waited = (entry.ns_waited + stats.ns_waited) % 2 ^ 64;
  yields = (entry.yields + stats.yields) % 2 ^ 64;
}

abbrev pub entry_of : Option RegistrantStats → RegistrantStats → RegistrantStats
entry_of none stats = stats
entry_of (some entry) stats = add_rank entry stats

-- The loop of `collect_lease_stats` over `state.lease.stats()`.
unfoldable pub collect_from : Map RegistrantStats → List RegistrantStats → Map RegistrantStats
unfolding add_rank
collect_from by_label [] = by_label
collect_from by_label (stats ∷ more) =
    collect_from (insert by_label stats.label (entry_of (get by_label stats.label) stats)) more

unfoldable pub collect_lease_stats : List RegistrantStats → Map RegistrantStats
unfolding collect_from
collect_lease_stats all = collect_from [] all

-- A status for an entry of the registry; `now` is the time of `summarize`.
unfoldable pub model_status : Map RegistrantStats → ℕ → Text × ModelState → ModelStatus
unfolding mode_of empty_status avg_latency_of vram_of summarize
model_status lease now (tag, loading since devices) = record (empty_status tag is_loading none) {
  device_ids = devices;
}
model_status lease now (tag, failed error at) = empty_status tag is_failed (some error)
model_status lease now (tag, ready model) = record {
  tag = tag;
  state = is_ready;
  error = none;
  batch_mode = some (mode_of model.plan);
  progress_pct = none;
  queue_depth = model.stats.queue_depth;
  total_predictions = model.stats.total_predictions;
  avg_latency = avg_latency_of model.stats;
  load_time_us = model.stats.load_time_us;
  download_time_ns = some model.stats.download_time_ns;
  vram_mb = vram_of model.stats;
  lease_weight = map_option (λ s. s.weight) (get lease tag);
  lease_ns_held = map_option (λ s. s.ns_held) (get lease tag);
  lease_ns_waited = map_option (λ s. s.ns_waited) (get lease tag);
  telemetry = telemetry_or_default (summarize model.stats.telemetry now);
  device_ids = model.devices;
  build = model.build;
}

unfoldable pub cache_status : Text → CacheState → ModelStatus
unfolding empty_status
cache_status tag caching = empty_status tag is_caching none
cache_status tag cached = empty_status tag is_cached none
cache_status tag (cache_failed error at) = empty_status tag is_failed (some error)

-- `statuses.iter().any(...)`.
unfoldable pub any_tag : List ModelStatus → Text → Bool
any_tag [] tag = false
any_tag (status ∷ statuses) tag = text_eq status.tag tag || any_tag statuses tag

-- The loop over `cache.snapshot()`.
unfoldable pub add_cached : List ModelStatus → List (Text × CacheState) → List ModelStatus
unfolding any_tag cache_status
add_cached statuses [] = statuses
add_cached statuses ((tag, state) ∷ more) =
    let pushed =
      if any_tag statuses tag then statuses else statuses ++ cache_status tag state ∷ [] in
    add_cached pushed more

unfoldable pub collect_model_status :
    Registry → CacheTracker → Map RegistrantStats → ℕ → List ModelStatus
unfolding model_status add_cached
collect_model_status registry cache lease now =
    add_cached (map (model_status lease now) (snapshot registry)) (cache_snapshot cache)
