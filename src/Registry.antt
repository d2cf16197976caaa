-- ===== src/Registry.antt =====
-- src/serving/registry.rs: the load-state machine of the models. Every access to the map is one
-- step; a load task is an entry of `tasks` from `spawn_load` to the end of its body. Instants are
-- nanoseconds. The Muna client that owns a loaded engine is a number, its handle.
pub mod Tasks
pub mod Flight
pub mod Handles
pub mod Outcomes
pub mod Readers
pub mod Rounds
pub mod Unloads
pub mod Single
use muna_server.Base.{
  ℕ, suc, ◌+◌, ◌-◌, ◌/◌, ◌*◌, ◌^◌, max, Bool, true, false, Option, none, some, List, [], ◌∷◌, ◌++◌,
  map, Text, text_eq, Map, get, insert, remove, ltb, leb, if◌then◌else◌,
}
use muna_server.Values.{Signature}
use muna_server.Batch.{BatchPlan, from_signature, contains}
use muna_server.Stats.{ModelStats, new_stats, record_vram, record_download_time, record_load_time}
use muna_server.Gate.{enter_priority, drop_guard}

-- Ten seconds and one minute.
abbrev pub hold_threshold : ℕ
hold_threshold = 10 * 10 ^ 9

abbrev pub failed_retry_backoff : ℕ
failed_retry_backoff = 60 * 10 ^ 9

abbrev pub default_load_secs : ℕ
default_load_secs = 30

abbrev pub Devices : Type 0
Devices = Option (List ℕ)

pub record ReadyModel : Type 0 where
  pub muna : ℕ
  pub loaded_at : ℕ
  pub signature : Signature
  pub plan : BatchPlan
  pub stats : ModelStats
  pub devices : Devices
  pub build : Option Text

pub data ModelState : Type 0 where
  loading : (since : ℕ) (devices : Devices) → ModelState
  ready : ReadyModel → ModelState
  failed : (error : Text) (at : ℕ) → ModelState

pub record Slot : Type 0 where
  pub state : ModelState
  pub unload_requested : Bool

pub data RegistryError : Type 0 where
  still_loading : (retry_after : ℕ) → RegistryError
  load_failed : Text → RegistryError
  not_served : Text → RegistryError

-- What a loader brings back.
pub record Loaded : Type 0 where
  pub signature : Signature
  pub muna : ℕ
  pub download : ℕ
  pub load : ℕ
  pub build : Option Text

pub data LoadOutcome : Type 0 where
  loaded : Loaded → LoadOutcome
  load_error : Text → LoadOutcome

-- A load task; `holding` while the loader keeps the guard of the download gate.
pub record Task : Type 0 where
  pub tag : Text
  pub devices : Devices
  pub holding : Bool

-- `notified` is the permit that `status_changed` stores. `owned` and `deleted` are history: the
-- handles that loads have brought, and those that `delete_predictor` was called on. `unloading` are the
-- calls of `unload` between their two accesses to the map; `lost` is history, too: the tags whose
-- loading slot the second access of an `unload` has removed.
pub record Registry : Type 0 where
  pub models : Map Slot
  pub device_store : Map (List ℕ)
  pub pinned : Option (List Text)
  pub last_load_secs : ℕ
  pub notified : Bool
  pub inflight : ℕ
  pub tasks : List Task
  pub owned : List ℕ
  pub deleted : List ℕ
  pub unloading : List Text
  pub lost : List Text

-- `with_loader`
unfoldable pub new_registry : Map (List ℕ) → Option (List Text) → Registry
new_registry device_store pinned = record {
  models = [];
  device_store = device_store;
  pinned = pinned;
  last_load_secs = default_load_secs;
  notified = false;
  inflight = 0;
  tasks = [];
  owned = [];
  deleted = [];
  unloading = [];
  lost = [];
}

unfoldable pub serves : Registry → Text → Bool
unfolding contains
serves r tag = elim r.pinned [ none ↦ true | some tags ↦ contains tags tag ]

unfoldable pub assigned_devices : Registry → Text → Devices
assigned_devices r tag = get r.device_store tag

-- The branch of a vacant entry, in `ensure_ready` and `warm`, with the start of `spawn_load`.
unfoldable pub start_load : Registry → Text → ℕ → Registry
unfolding assigned_devices enter_priority
start_load r tag now = record r {
  models =
      insert r.models tag
        (record { state = loading now (assigned_devices r tag); unload_requested = false });
  notified = true;
  inflight = enter_priority r.inflight;
  tasks = record { tag = tag; devices = assigned_devices r tag; holding = true } ∷ r.tasks;
}

unfoldable pub retry_after : Registry → ℕ → ℕ → ℕ
retry_after r since now = max (r.last_load_secs - (now - since) / 10 ^ 9) 5

-- One round of the loop of `ensure_ready`: an answer, or a wait on the slot's channel.
pub data Attempt : Type 0 where
  answers : ReadyModel → Attempt
  fails : RegistryError → Attempt
  waits : Attempt

unfoldable pub attempt_state : Registry → Text → ℕ → ℕ → Option Slot → Registry × Attempt
unfolding start_load retry_after
attempt_state r tag deadline now none = (start_load r tag now, waits)
attempt_state r tag deadline now (some slot) = elim slot.state [
  | ready model ↦ (r, answers model)
  | failed error at ↦ (record r { models = remove r.models tag }, fails (load_failed error))
  | loading since devices ↦
      if leb deadline now then (r, fails (still_loading (retry_after r since now))) else (r, waits)
]

unfoldable pub attempt : Registry → Text → ℕ → ℕ → Registry × Attempt
unfolding attempt_state serves
attempt r tag deadline now =
    if serves r tag
    then attempt_state r tag deadline now (get r.models tag)
    else (r, fails (not_served tag))

-- The look at the slot after the wait timed out: `none` goes round the loop again.
unfoldable pub after_timeout : Registry → Text → ℕ → Option RegistryError
unfolding retry_after
after_timeout r tag now = elim (get r.models tag) [
  | none ↦ none
  | some slot ↦ elim slot.state [
    | loading since devices ↦ some (still_loading (retry_after r since now))
    | ready model ↦ none
    | failed error at ↦ none
  ]
]

unfoldable pub warm_state : Registry → Text → ℕ → Option Slot → Registry
unfolding start_load
warm_state r tag now none = start_load r tag now
warm_state r tag now (some slot) = elim slot.state [
  | failed error at ↦ start_load (record r { models = remove r.models tag }) tag now
  | loading since devices ↦ r
  | ready model ↦ r
]

-- `warm`. A failed entry is removed, and the call that `warm` then makes of itself finds it vacant.
unfoldable pub warm : Registry → Text → ℕ → Registry
unfolding warm_state serves
warm r tag now = if serves r tag then warm_state r tag now (get r.models tag) else r

unfoldable pub is_cooling : Option Slot → ℕ → Bool
is_cooling none now = false
is_cooling (some slot) now = elim slot.state [
  | failed error at ↦ ltb (now - at) failed_retry_backoff
  | loading since devices ↦ false
  | ready model ↦ false
]

unfoldable pub warm_reconcile : Registry → Text → ℕ → Registry
unfolding warm is_cooling
warm_reconcile r tag now = if is_cooling (get r.models tag) now then r else warm r tag now

unfoldable pub engine_devices : Registry → Text → Option Devices
engine_devices r tag = elim (get r.models tag) [
  | none ↦ none
  | some slot ↦ elim slot.state [
    | loading since devices ↦ some devices
    | ready model ↦ some model.devices
    | failed error at ↦ none
  ]
]

-- The first access of `unload` (`get_mut`), and whether it returns there.
unfoldable pub put_off_unload : Registry → Text → Registry × Bool
put_off_unload r tag = elim (get r.models tag) [
  | none ↦ (r, false)
  | some slot ↦ elim slot.state [
    | loading since devices ↦
        (record r { models = insert r.models tag (record slot { unload_requested = true }) }, true)
    | ready model ↦ (r, false)
    | failed error at ↦ (r, false)
  ]
]

-- The second access (`remove`), whatever the slot has become, with the handle that it deletes.
unfoldable pub remove_slot : Registry → Text → Registry
remove_slot r tag = elim (get r.models tag) [
  | none ↦ r
  | some slot ↦ elim slot.state [
    | loading since devices ↦ record r {
      models = remove r.models tag;
      notified = true;
      lost = tag ∷ r.lost;
    }
    | ready model ↦ record r {
      models = remove r.models tag;
      notified = true;
      deleted = model.muna ∷ r.deleted;
    }
    | failed error at ↦ record r { models = remove r.models tag; notified = true }
  ]
]

-- `unload` when nobody else changes the map between its two accesses.
unfoldable pub unload : Registry → Text → Registry
unfolding put_off_unload remove_slot
unload r tag =
    let first = put_off_unload r tag in
    let second = remove_slot first.0 tag in if first.1 then first.0 else second

-- An `unload` up to its second access, if it comes to one.
unfoldable pub begin_unload : Registry → Text → Registry
unfolding put_off_unload
begin_unload r tag =
    let first = put_off_unload r tag in
    record (first.0) { unloading = if first.1 then r.unloading else tag ∷ r.unloading }

unfoldable pub end_unload : Registry → List Text → Text → List Text → Registry
unfolding remove_slot
end_unload r before tag after = remove_slot (record r { unloading = before ++ after }) tag

unfoldable pub ready_model : Registry → Text → Option ReadyModel
ready_model r tag = elim (get r.models tag) [
  | none ↦ none
  | some slot ↦ elim slot.state [
    | ready model ↦ some model
    | loading since devices ↦ none
    | failed error at ↦ none
  ]
]

abbrev pub tags_in : Map Slot → List Text
tags_in [] = []
tags_in ((tag, slot) ∷ models) =
    let rest = tags_in models in
    elim slot.state [
      | ready model ↦ tag ∷ rest
      | loading since devices ↦ rest
      | failed error at ↦ rest
    ]

unfoldable pub ready_tags : Registry → List Text
ready_tags r = tags_in r.models

unfoldable pub snapshot : Registry → List (Text × ModelState)
snapshot r = map (λ e. (e.0, e.1.state)) r.models
