-- ===== src/Lib.antt =====
-- A model of muna-server, the node server that loads compiled models and serves predictions.
--
-- The parts and how they meet. A request names a model tag. The registry
-- (src/serving/registry.rs) loads the model on first use and holds it ready until it is unloaded.
-- From the model's signature comes a batching plan (src/serving/batch.rs), by which the dispatcher
-- (src/serving/dispatch/mod.rs) routes its predictions. A model with a buffered plan has an
-- accumulator task (src/serving/dispatch/worker.rs) that files requests under a batch key, flushes
-- them as one invocation on merged inputs (src/serving/dispatch/merge.rs), and splits the results
-- again. The counters and the sample window (src/serving/stats.rs) are written by these parts. Load
-- tasks hold the download gate (src/serving/download_gate.rs) while they download, and prefetches of
-- the cache tracker (src/serving/cache.rs) wait for it. The control plane's goals reach the registry,
-- the tracker and the dispatcher through the heartbeat (src/control/heartbeat.rs), and a relay
-- (src/control/kv_relay.rs) carries a model's KV events to the plane.
--
-- The files.
-- - Base: strings as byte lists, hash maps as association lists, Boolean tests, sorting, integers.
-- - Values: the types of the `muna` crate that the server looks into; its JSON values stay a
--   parameter `J`.
-- - Batch: `BatchPlan::from_signature` and `item_count`; Batch/Key: `value_fingerprint` and
--   `compute_batch_key`, with the printer of serde_json as a parameter. Proofs in Batch/Plan and
--   Batch/Key/Laws.
-- - Merge: `merge_inputs`, `split_results` and `slice_tensor_data`, where `none` is a panic. Proofs
--   in Merge/Inputs, Merge/Pieces and Merge/Split.
-- - Stats: `ModelStats`, `TelemetryWindow` and `percentile`; Stats/Meter: `StreamMeter` and
--   `normalize_interval`. Proofs in Stats/Window, Stats/Percentile and Stats/Meter/Laws.
-- - Worker: `KeyQueue`, `file_item`, `take_flushable` and `earliest_deadline`; Worker/Flush:
--   `process_batch` and `flush`, with the predictor as a parameter; Worker/Run: the loop of `run` as a
--   step relation with the callers and the clock. Proofs in the other modules under Worker.
-- - Gate: the count of the download gate.
-- - Registry: `ensure_ready`, `warm`, `warm_reconcile`, `unload` and the readers of the map;
--   Registry/Tasks: the body of `spawn_load`, and the step relation of operations and load tasks.
--   Proofs in Registry/Flight (what each operation keeps), Registry/Single (the end of a load, and
--   every reachable registry), Registry/Handles, Registry/Outcomes and
--   Registry/Readers.
-- - Relay: one `relay_model` task of src/control/kv_relay.rs: `Continuity::admit`, the buffer,
--   `flush_pending` and `retry_delay`; Relay/Frames: `parse_message`; Relay/Run: the loop as a step
--   relation. Proofs in Relay/Run/Sound, Relay/Frames and Relay/Delay.
-- - Cache: the tracker of src/serving/cache.rs and its download tasks. Proofs in Cache/Single.
-- - Dispatch: entries, routes and locks of src/serving/dispatch/mod.rs. Proofs in Dispatch/Locks.
-- - Images: the address checks of src/serving/remote_images.rs; Images/Fetch: its URL checks, redirect
--   policy, resolver and fetches; Images/Inline: `inline_openai` and `inline_anthropic` as one walk.
--   Proofs in Images/Blocks, Images/Fetch/Reach, Images/Fetch/Collect and Images/Inline/Laws.
-- - Errors: the error responses of src/handlers/error.rs. Proofs in Errors/Statuses, with the outcomes
--   of the registry.
-- - Node: the drain flag and the check-ins of src/state.rs. Proofs in Node/Checkins.
-- - Executor: `run` and `stream` of src/serving/predict.rs and the ownership of the dispatch guard.
--   Proofs in Executor/Exclusive.
-- - Downloads: the locks of `ServerClient::download` of src/client.rs. Proofs in Downloads/Single.
-- - Handlers/Values: values on the wire and data URLs of src/handlers/predictions.rs. Proofs in
--   Handlers/Values/Roundtrip.
-- - Handlers/Admission: the checks of the handlers of src/handlers up to the dispatch. Proofs in
--   Handlers/Admission/Order.
-- - Relay/Supervisor: `run` and `discover_endpoint` of src/control/kv_relay.rs. Proofs in
--   Relay/Supervisor/Scan.
-- - Status: the model statuses and lease statistics of src/control/protocol.rs. Proofs in
--   Status/Merged and Status/Shares.
-- - Handlers/Streams: the streamed responses of src/handlers and the stamps of their meter. Proofs in
--   Handlers/Streams/Events and Handlers/Streams/Metered.
-- - Registry/Rounds: the loop of `ensure_ready` and its end, with its answers in Registry/Rounds/Answers.
-- - Registry/Unloads: proofs on an unload that overtakes a load.
-- - Lease: attachments, weights and counters of src/serving/lease.rs. Proofs in Lease/Weights.
-- - Heartbeat: `apply` of src/control/heartbeat.rs on the registry, the tracker and the dispatcher.
--   Proofs, on the models that a response names and on the others, in Heartbeat/Directed and
--   Heartbeat/Absent.
-- - Examples: each theorem at a concrete input.
--
-- Choices and bounds. Instants and durations are nanoseconds in ℕ, and each step is given the time it
-- runs at. Counters of 32 and 64 bits that can wrap or saturate write it out. The window has 512
-- samples and the accumulator's channel 1024 places, as in the source. No function needs fuel: each
-- loop of the source that is modelled as a function is structural, and the endless loops are step
-- relations. A step is atomic where the source holds the map's lock or does not await. `unload` looks at
-- the map twice and is two steps, so another thread may start a load in between, which `unload` then
-- drops: `lost` records it, and the theorems on loads are about the runs in which it does not happen.
-- The end of a load looks twice, too, and is one step: between its looks only such an `unload` could
-- change its slot. A heartbeat's `unload` and a check-in with the API run without interference.
--
-- Not modelled: the routes and the discovery of models in src/handlers, the process start-up, the
-- Muna client's requests and progress bars, the ZeroMQ and HTTP clients, the platform probes, the
-- loader's own body (a load task ends with any outcome at any time) and the weight solver of
-- src/serving/lease_weights.rs, which computes with floating point numbers. What the code takes from
-- other crates is a parameter: the URL parser, the HTTP client, base64, the serializers. A
-- percentile is taken on nanoseconds, in the order of the source's milliseconds.
pub mod Base
pub mod Batch
pub mod Cache
pub mod Dispatch
pub mod Downloads
pub mod Errors
pub mod Examples
pub mod Executor
pub mod Gate
pub mod Handlers
pub mod Heartbeat
pub mod Images
pub mod Lease
pub mod Merge
pub mod Node
pub mod Registry
pub mod Relay
pub mod Stats
pub mod Status
pub mod Values
pub mod Worker
