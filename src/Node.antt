-- ===== src/Node.antt =====
-- src/state.rs: the drain flag and the check-in times, beside the registry. Instants of this file
-- are whole seconds. The Muna API is a parameter: what a check-in through a handle returns.
pub mod Checkins
use muna_server.Base.{
  ℕ, ◌+◌, ◌-◌, ◌*◌, ◌^◌, min, Bool, true, false, Option, none, some, List, [], ◌∷◌, Text, Map, get,
  insert, ltb, if◌then◌else◌,
}
use muna_server.Registry.{Registry, ReadyModel, ready_model}

abbrev pub checkin_interval_seconds : ℕ
checkin_interval_seconds = 12 * 60 * 60

abbrev pub checkin_retry_seconds : ℕ
checkin_retry_seconds = 60 * 60

-- The permit that `status_changed` stores is the field `notified` of the registry.
pub record AppState : Type 0 where
  pub registry : Registry
  pub draining : Bool
  pub runtime_checkins : Map ℕ

unfoldable pub is_draining : AppState → Bool
is_draining s = s.draining

unfoldable pub set_draining : AppState → Bool → AppState
set_draining s draining = record s {
  draining = draining;
  registry = record s.registry { notified = true };
}

-- On 64 bits.
unfoldable pub saturating_add : ℕ → ℕ → ℕ
saturating_add a b = min (a + b) (2 ^ 64 - 1)

-- The handle to check in through, when a check-in is due.
unfoldable pub due_checkin : AppState → Text → ℕ → Option ReadyModel
due_checkin s model now = elim (get s.runtime_checkins model) [
  | none ↦ none
  | some next_checkin ↦ if ltb now next_checkin then none else ready_model s.registry model
]

-- The write after the API answered.
unfoldable pub note_checkin : AppState → Text → ℕ → Bool → AppState
unfolding saturating_add
note_checkin s model now is_ok = record s {
  runtime_checkins =
      insert s.runtime_checkins model
        (saturating_add now (if is_ok then checkin_interval_seconds else checkin_retry_seconds));
}

-- `check_in_if_due` when no other access to the check-in times comes between its read and its write,
-- which the await of the API separates.
unfoldable pub check_in_if_due : (ℕ → Text → Bool) → AppState → Text → ℕ → AppState
unfolding due_checkin note_checkin
check_in_if_due api s model now = elim (due_checkin s model now) [
  | none ↦ s
  | some ready ↦ note_checkin s model now (api ready.muna model)
]

-- `entry(model).or_insert_with(...)`.
unfoldable pub mark_model_loaded : AppState → Text → ℕ → AppState
unfolding saturating_add
mark_model_loaded s model now = elim (get s.runtime_checkins model) [
  | some next_checkin ↦ s
  | none ↦ record s {
    runtime_checkins =
        insert s.runtime_checkins model (saturating_add now checkin_interval_seconds);
  }
]
