-- ===== src/Examples/Reports.antt =====
-- Concrete inputs for the theorems on src/control/protocol.rs, on src/client.rs and on the supervisor of
-- src/control/kv_relay.rs.
use muna_server.Base.{
  ℕ, ◌≢◌, refl, inl, inr, true, false, Option, none, some, List, [], ◌∷◌, Text, codes, get, insert,
  text_eq, ◌≤◌, if◌then◌else◌,
}
use muna_server.Batch.{contains}
use muna_server.Downloads.{
  Downloads, Call, take_lock, waiting, holding, holds, is_holding, Reach, here, next, enters,
  locks_it,
}
use muna_server.Downloads.Single.{writers, Reach-writers}
use muna_server.Cache.{CacheTracker, new_tracker, cached}
use muna_server.Registry.{Registry, new_registry, failed, loading}
use muna_server.Registry.Rounds.{Wait, ensure_ready, ensure_ready-Ends}
use muna_server.Lease.{RegistrantStats}
use muna_server.Status.{collect_model_status, collect_lease_stats}
use muna_server.Status.Merged.Lookup.{Says, report}
use muna_server.Status.Merged.{collect_model_status-Says}
use muna_server.Status.Shares.{IsReported, ranks_of, collect_lease_stats-IsReported}
use muna_server.Relay.Supervisor.{Supervisor, scan}
use muna_server.Relay.Supervisor.Scan.Steps.{kept_task}
use muna_server.Relay.Supervisor.Scan.{Cancelled, Watched, scan-Watched}

abbrev loaded_tag : Text
loaded_tag = codes "@a/loaded"

abbrev cached_tag : Text
cached_tag = codes "@a/cached"

-- A registry with a failed model, and a cache that has that model and another.
abbrev registry : Registry
registry = record (new_registry [] none) {
  models =
      (loaded_tag, record { state = failed (codes "out of memory") 5; unload_requested = false })
      ∷ [];
}

abbrev tracker : CacheTracker
tracker = record new_tracker { states = (loaded_tag, cached) ∷ (cached_tag, cached) ∷ [] }

collect_model_status-Says_example :
    Says
      (collect_model_status registry tracker [] 9)
      loaded_tag
      (report [] 9 loaded_tag (get registry.models loaded_tag) (get tracker.states loaded_tag))
unfolding new_registry get text_eq
collect_model_status-Says_example =
    collect_model_status-Says registry tracker [] 9 loaded_tag (refl, tt)

-- Two ranks of one engine on two devices.
abbrev rank : ℕ → ℕ → RegistrantStats
rank device weight = record {
  device = device;
  label = loaded_tag;
  weight = weight;
  slots_held = 1;
  ns_held = 10;
  ns_waited = 20;
  yields = 3;
}

collect_lease_stats-IsReported_example :
    IsReported
      (ranks_of loaded_tag (rank 0 7 ∷ rank 1 4 ∷ []))
      (get (collect_lease_stats (rank 0 7 ∷ rank 1 4 ∷ [])) loaded_tag)
collect_lease_stats-IsReported_example =
    collect_lease_stats-IsReported loaded_tag (rank 0 7 ∷ rank 1 4 ∷ [])

-- A supervisor with one task, of a model that is ready no more.
abbrev supervisor : Supervisor
supervisor = record {
  tasks = (loaded_tag, record { id = 0; endpoint = codes "ipc:///tmp/kv" }) ∷ [];
  not_kv_routed = [];
  spawned = 1;
  cancelled = [];
}

abbrev discover : Text → Option Text
discover tag = if text_eq tag cached_tag then some (codes "ipc:///tmp/other") else none

scan-Watched_example :
    Cancelled
      (cached_tag ∷ [])
      supervisor.tasks
      []
      (scan discover (λ task. false) supervisor (cached_tag ∷ [])).cancelled
    × Watched
        (contains (cached_tag ∷ []) cached_tag)
        (kept_task
          (contains (cached_tag ∷ []) cached_tag)
          (λ task. false)
          (get supervisor.tasks cached_tag))
        (contains supervisor.not_kv_routed cached_tag)
        (discover cached_tag)
        (scan discover (λ task. false) supervisor (cached_tag ∷ []))
        cached_tag
unfolding get
scan-Watched_example =
    scan-Watched discover (λ task. false) supervisor (cached_tag ∷ []) cached_tag (refl, tt)

-- A caller that times out once while its load goes on, after a first wait that ended with an unload.
abbrev loading_registry : Registry
loading_registry = record (new_registry [] none) {
  models = (loaded_tag, record { state = loading 3 none; unload_requested = false }) ∷ [];
}

abbrev two_waits : List Wait
two_waits =
    record { timed_out = false; registry = new_registry [] none; now = 6 }
    ∷ record { timed_out = true; registry = loading_registry; now = 20 }
    ∷ []

ensure_ready-Ends_example : ensure_ready (new_registry [] none) loaded_tag 10 4 two_waits ≢ none
unfolding new_registry get text_eq
ensure_ready-Ends_example =
    ensure_ready-Ends (new_registry [] none) loaded_tag 10 4 two_waits (inr (inl refl))

-- Two calls for one file, of which the second takes the lock.
abbrev entered : Downloads
entered =
    take_lock (take_lock (record { locks = []; created = 0; calls = []; files = [] }) loaded_tag)
      loaded_tag

abbrev first_call : Call
first_call = record { path = loaded_tag; lock = 0; stage = waiting }

entered-Reach : Reach entered
entered-Reach = next (next (here []) (enters loaded_tag)) (enters loaded_tag)

abbrev locked : Downloads
locked = record entered { calls = record first_call { stage = holding true } ∷ first_call ∷ [] }

locked-Reach : Reach locked
unfolding take_lock get insert text_eq holds is_holding
locked-Reach = next entered-Reach (locks_it [] (first_call ∷ []) first_call true refl refl refl)

Reach-writers_example : writers locked loaded_tag ≤ 1
Reach-writers_example = Reach-writers locked loaded_tag locked-Reach
