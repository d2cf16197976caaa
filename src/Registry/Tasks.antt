-- ===== src/Registry/Tasks.antt =====
-- src/serving/registry.rs: the body of the task that `spawn_load` spawns, and the steps in which the
-- registry's operations and its tasks interleave.
use muna_server.Base.{
  ℕ, ◌-◌, ◌/◌, ◌^◌, max, ◌≡◌, true, false, Option, none, some, List, ◌∷◌, ◌++◌, Text, Map, get,
  insert, remove, ltb, if◌then◌else◌,
}
use muna_server.Batch.{from_signature}
use muna_server.Stats.{ModelStats, new_stats, record_vram, record_download_time, record_load_time}
use muna_server.Gate.{drop_guard}
use muna_server.Registry.{
  Devices, ReadyModel, ModelState, ready, failed, Loaded, LoadOutcome, loaded, load_error, Task,
  Registry, new_registry, attempt, warm, warm_reconcile, begin_unload, end_unload,
}

-- The clock of one load task and what the platform measured around it.
pub record Measured : Type 0 where
  pub started : ℕ
  pub now : ℕ
  pub vram_before : Option ℕ
  pub vram_after : Option ℕ

unfoldable pub vram_stats : Measured → ModelStats
unfolding record_vram
vram_stats m = elim m.vram_before [
  | none ↦ new_stats
  | some before ↦ elim m.vram_after [
    | none ↦ new_stats
    | some after ↦ if ltb before after then record_vram new_stats (after - before) else new_stats
  ]
]

unfoldable pub ready_of : Loaded → Devices → Measured → ReadyModel
unfolding vram_stats record_download_time record_load_time from_signature
ready_of l devices m = record {
  muna = l.muna;
  loaded_at = m.now;
  signature = l.signature;
  plan = from_signature l.signature;
  stats = record_load_time (record_download_time (vram_stats m) l.download) l.load;
  devices = devices;
  build = l.build;
}

-- `state`, and the part of the registry that a success changes.
unfoldable pub state_of : LoadOutcome → Devices → Measured → ModelState
unfolding ready_of
state_of (loaded l) devices m = ready (ready_of l devices m)
state_of (load_error error) devices m = failed error m.now

unfoldable pub note_outcome : Registry → LoadOutcome → Measured → Registry
note_outcome r (loaded l) m = record r {
  last_load_secs = max ((m.now - m.started) / 10 ^ 9) 1;
  owned = l.muna ∷ r.owned;
}
note_outcome r (load_error error) m = r

abbrev pub delete_loaded : Registry → LoadOutcome → Registry
delete_loaded r (loaded l) = record r { deleted = l.muna ∷ r.deleted }
delete_loaded r (load_error error) = r

-- The write of the outcome into the slot, or the unload that was put off.
unfoldable pub settle : Registry → Text → Devices → LoadOutcome → Measured → Registry
unfolding state_of
settle r tag devices outcome m = elim (get r.models tag) [
  | none ↦ r
  | some slot ↦
      if slot.unload_requested
      then delete_loaded (record r { models = remove r.models tag }) outcome
      else record r {
        models = insert r.models tag (record slot { state = state_of outcome devices m });
      }
]

-- The loader gives its guard back when the resources are on disk, or when it fails.
unfoldable pub release : Registry → List Task → Task → List Task → Registry
unfolding drop_guard
release r before task after = record r {
  inflight = if task.holding then drop_guard r.inflight else r.inflight;
  tasks = before ++ record task { holding = false } ∷ after;
}

-- The end of a load task, which leaves `tasks`.
unfoldable pub finish : Registry → List Task → Task → List Task → LoadOutcome → Measured → Registry
unfolding settle note_outcome drop_guard
finish r before task after outcome m =
    let r1 = record r {
      inflight = if task.holding then drop_guard r.inflight else r.inflight;
      tasks = before ++ after;
    } in
    let r2 = settle (note_outcome r1 outcome m) task.tag task.devices outcome m in
    record r2 { notified = true }

pub data Step (r : Registry) : Registry → Type 0 where
  attempts : (tag : Text) (deadline now : ℕ) → Step r (attempt r tag deadline now).0
  warms : (tag : Text) (now : ℕ) → Step r (warm r tag now)
  reconciles : (tag : Text) (now : ℕ) → Step r (warm_reconcile r tag now)
  begins_unload : (tag : Text) → Step r (begin_unload r tag)
  ends_unload :
      (before : List Text) (tag : Text) (after : List Text)
      → r.unloading ≡ before ++ tag ∷ after
      → Step r (end_unload r before tag after)
  releases :
      (before : List Task) (task : Task) (after : List Task)
      → r.tasks ≡ before ++ task ∷ after
      → Step r (release r before task after)
  finishes :
      (before : List Task) (task : Task) (after : List Task) (outcome : LoadOutcome) (m : Measured)
      → r.tasks ≡ before ++ task ∷ after
      → Step r (finish r before task after outcome m)
  assigns : (device_store : Map (List ℕ)) → Step r (record r { device_store = device_store })
  notices : Step r (record r { notified = false })

pub data Reach (device_store : Map (List ℕ)) (pinned : Option (List Text)) : Registry → Type 0 where
  here : Reach device_store pinned (new_registry device_store pinned)
  next : {r s : Registry} → Reach device_store pinned r → Step r s → Reach device_store pinned s
