-- ===== src/Relay/Supervisor.antt =====
-- src/control/kv_relay.rs: the supervisor `run`, which keeps one relay task per ready model, and
-- `discover_endpoint`. The prediction of the sidecar is a parameter.
pub mod Scan
use muna_server.Base.{
  ℕ, suc, Bool, true, false, not, ◌&&◌, ◌||◌, Option, none, some, List, [], ◌∷◌, ◌++◌, Text, codes,
  text_eq, Map, get, insert, contains_key, filterb, if◌then◌else◌, Result, ok, err,
}
use muna_server.Batch.{contains}
use muna_server.Values.{Value, string}
use muna_server.Worker.Flush.{MunaError, Prediction}
use muna_server.Registry.{Registry, ready_model}

-- `into_iter().find_map(...)`: the first string.
unfoldable pub first_string : {J : Type 0} → List (Value J) → Option Text
first_string [] = none
first_string (value ∷ values) =
    let rest = first_string values in elim value [ string endpoint ↦ some endpoint | _ ↦ rest ]

-- `predict` stands for the prediction of a sidecar through a handle.
unfoldable pub discover_endpoint :
    {J : Type 0} → (ℕ → Text → Result (Prediction J) MunaError) → Registry → Text → Option Text
unfolding first_string
discover_endpoint predict registry tag = elim (ready_model registry tag) [
  | none ↦ none
  | some model ↦ elim (predict model.muna (tag ++ codes ":kv")) [
    | err e ↦ none
    | ok prediction ↦ elim prediction.error [
      | some error ↦ none
      | none ↦ elim prediction.results [ none ↦ none | some values ↦ first_string values ]
    ]
  ]
]

-- A spawned relay task, by the number of its spawn.
pub record RelayTask : Type 0 where
  pub id : ℕ
  pub endpoint : Text

-- `cancelled` is history: the tasks whose token was cancelled.
pub record Supervisor : Type 0 where
  pub tasks : Map RelayTask
  pub not_kv_routed : List Text
  pub spawned : ℕ
  pub cancelled : List RelayTask

abbrev pub new_supervisor : Supervisor
new_supervisor = record { tasks = []; not_kv_routed = []; spawned = 0; cancelled = [] }

-- The loop of `tasks.retain(...)`: what is kept and what is cancelled.
unfoldable pub retain_tasks :
    List Text → (RelayTask → Bool) → Map RelayTask → Map RelayTask × List RelayTask
unfolding contains
retain_tasks ready is_finished [] = ([], [])
retain_tasks ready is_finished ((tag, task) ∷ tasks) =
    let rest = retain_tasks ready is_finished tasks in
    if not (contains ready tag)
    then (rest.0, task ∷ rest.1)
    else if is_finished task
    then rest
    else ((tag, task) ∷ rest.0, rest.1)

-- The body of `for tag in &ready`.
unfoldable pub visit : (Text → Option Text) → Supervisor → Text → Supervisor
unfolding contains
visit discover s tag =
    if contains_key s.tasks tag || contains s.not_kv_routed tag then s else elim (discover tag) [
      | none ↦ record s { not_kv_routed = tag ∷ s.not_kv_routed }
      | some endpoint ↦ record s {
        tasks = insert s.tasks tag (record { id = s.spawned; endpoint = endpoint });
        spawned = suc s.spawned;
      }
    ]

unfoldable pub visit_all : (Text → Option Text) → Supervisor → List Text → Supervisor
unfolding visit
visit_all discover s [] = s
visit_all discover s (tag ∷ tags) = visit_all discover (visit discover s tag) tags

-- One round of the loop of `run`; `ready` is the set of ready tags, in any order.
unfoldable pub scan :
    (Text → Option Text) → (RelayTask → Bool) → Supervisor → List Text → Supervisor
unfolding retain_tasks visit_all contains
scan discover is_finished s ready =
    let retained = retain_tasks ready is_finished s.tasks in
    visit_all discover
      (record s {
        tasks = retained.0;
        cancelled = retained.1 ++ s.cancelled;
        not_kv_routed = filterb (contains ready) s.not_kv_routed;
      })
      ready
