-- ===== src/Examples/Loads.antt =====
-- Concrete inputs for the theorems on src/serving/registry.rs.
use muna_server.Base.{
  ◌+◌, ◌≡◌, refl, true, none, [], ◌∷◌, ◌++◌, ◌⊎◌, Text, text_eq, get, insert, sum_by,
}
use muna_server.Registry.{
  Loaded, loaded, Task, Registry, new_registry, start_load, attempt, attempt_state, serves,
  assigned_devices, put_off_unload, begin_unload,
}
use muna_server.Registry.Tasks.{
  Measured, finish, settle, note_outcome, Step, Reach, here, next, attempts, begins_unload,
  finishes,
}
use muna_server.Registry.Flight.{tasks_for, loading_in, IsPutOff}
use muna_server.Registry.Single.{Reach-single_flight}
use muna_server.Registry.Handles.{Reach-IsKept}
use muna_server.Registry.Handles.Weights.{weights}
use muna_server.Registry.Outcomes.{Outcome, attempt-Outcome}
use muna_server.Registry.Unloads.{IsAsked, IsUnloaded, unload-finish}

abbrev tag : Text
tag = b'a' ∷ []

-- A registry that was asked for a tag once.
abbrev asked : Registry
asked = (attempt (new_registry [] none) tag 10 3).0

asked-Reach : Reach [] none asked
asked-Reach = next here (attempts tag 10 3)

abbrev task : Task
task = record { tag = tag; devices = none; holding = true }

asked-tasks : asked.tasks ≡ [] ++ task ∷ []
unfolding attempt attempt_state serves start_load new_registry assigned_devices get
asked-tasks = refl

asked-lost : asked.lost ≡ []
unfolding attempt attempt_state serves start_load new_registry get
asked-lost = refl

abbrev engine : Loaded
engine = record {
  signature = record { inputs = [] };
  muna = 7;
  download = 1;
  load = 2;
  build = none;
}

abbrev measured : Measured
measured = record { started = 3; now = 9; vram_before = none; vram_after = none }

Reach-single_flight_example :
    (tasks_for tag asked.tasks ≡ loading_in (get asked.models tag))
    × IsPutOff (get asked.models tag)
Reach-single_flight_example = Reach-single_flight tag asked-Reach asked-lost

Reach-IsKept_example :
    sum_by (λ n. n) asked.owned ≡ sum_by (λ n. n) asked.deleted + weights (λ n. n) asked.models
Reach-IsKept_example = Reach-IsKept (λ n. n) asked-Reach asked-lost

attempt-Outcome_example :
    Outcome asked tag 10 20 (attempt asked tag 10 20).0 (attempt asked tag 10 20).1
attempt-Outcome_example = attempt-Outcome asked tag 10 20

-- The unload is put off, and then the load ends.
abbrev put_off : Registry
put_off = begin_unload asked tag

put_off-Reach : Reach [] none put_off
put_off-Reach = next asked-Reach (begins_unload tag)

abbrev ended : Registry
ended = finish put_off [] task [] (loaded engine) measured

ended-Step : Step put_off ended
unfolding begin_unload put_off_unload attempt attempt_state serves start_load new_registry
    assigned_devices get text_eq insert
ended-Step = finishes [] task [] (loaded engine) measured refl

ended-lost : ended.lost ≡ []
unfolding begin_unload put_off_unload attempt attempt_state serves start_load new_registry
    assigned_devices get text_eq insert finish settle note_outcome
ended-lost = refl

unload-finish_example :
    (loading_in (get put_off.models tag) ≡ 1
      → IsAsked (get (begin_unload put_off tag).models tag)
        × ((begin_unload put_off tag).unloading ≡ put_off.unloading))
    × (IsAsked (get put_off.models tag)
        → IsAsked (get ended.models tag) ⊎ IsUnloaded put_off tag ended)
unload-finish_example = unload-finish tag put_off-Reach ended-Step ended-lost
