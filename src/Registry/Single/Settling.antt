-- ===== src/Registry/Single/Settling.antt =====
-- Proofs about the end of a load task (src/serving/registry.rs).
use muna_server.Base.{
  ◌≤◌, ◌≡◌, refl, ap, inl, inr, true, false, Option, none, some, List, ◌∷◌, ◌++◌, Text, text_eq,
  text_eq_iff, get, insert, remove, get-insert, get-remove, IsMap, insert-IsMap, remove-IsMap,
  arith, if◌then◌else◌, Bool-cases,
}
use muna_server.Gate.{drop_guard}
use muna_server.Registry.{Devices, Slot, LoadOutcome, loaded, load_error, Task, Registry}
use muna_server.Registry.Tasks.{Measured, state_of, note_outcome, settle, delete_loaded, release}
use muna_server.Registry.Flight.{
  tasks_for, holders, loading_in, IsPutOff, Inv, tasks_for-append, holders-append, ModelState-cases,
}

pub release-Inv :
    (r : Registry) (before : List Task) (task : Task) (after : List Task)
    → r.tasks ≡ before ++ task ∷ after
    → Inv r
    → Inv (release r before task after)
unfolding release drop_guard
release-Inv r before task after e v = record {
  single_flight = λ t. omega (
    arith,
    tasks_for-append t before (task ∷ after),
    tasks_for-append t before (record task { holding = false } ∷ after),
    ap (tasks_for t) e,
    v.single_flight t,
  );
  gate = ground (
    arith,
    holders-append before (task ∷ after),
    holders-append before (record task { holding = false } ∷ after),
    ap holders e,
    v.gate,
  );
  put_off = v.put_off;
  distinct = v.distinct;
}

-- What a task leaves behind when its slot comes to `o`.
pub leave-Inv :
    {r s : Registry} (before : List Task) (task : Task) (after : List Task) (o : Option Slot)
    → r.tasks ≡ before ++ task ∷ after
    → s.tasks ≡ before ++ after
    → s.inflight ≡ (if task.holding then drop_guard r.inflight else r.inflight)
    → ((t : Text) → get s.models t ≡ (if text_eq task.tag t then o else get r.models t))
    → loading_in (get r.models task.tag) ≡ 1
    → loading_in o ≡ 0
    → IsPutOff o
    → IsMap s.models
    → Inv r
    → Inv s
unfolding drop_guard
leave-Inv {r} {s} before task after o e e2 i g l0 l1 p m v = record {
  single_flight = λ t. ground (
    arith,
    tasks_for-append t before (task ∷ after),
    tasks_for-append t before after,
    ap (tasks_for t) e,
    ap (tasks_for t) e2,
    v.single_flight t,
    g t,
    text_eq_iff task.tag t,
  );
  gate = ground (
    arith,
    holders-append before (task ∷ after),
    holders-append before after,
    ap holders e,
    ap holders e2,
    v.gate,
  );
  put_off = λ t. ground (arith, g t, v.put_off t);
  distinct = m;
}

pub state_of-loading_in :
    (slot : Slot) (outcome : LoadOutcome) (devices : Devices) (m : Measured)
    → loading_in (some (record slot { state = state_of outcome devices m })) ≡ 0
unfolding state_of
state_of-loading_in slot (loaded l) devices m = refl
state_of-loading_in slot (load_error error) devices m = refl

pub loading_in_le : (o : Option Slot) → loading_in o ≤ 1
loading_in_le none = omega arith
loading_in_le (some slot) = elim (ModelState-cases slot.state) [
  | inl (since, devices, s) ↦ rw s (omega arith)
  | inr (inl (model, s)) ↦ rw s (omega arith)
  | inr (inr (error, at, s)) ↦ rw s (omega arith)
]

pub task-loading_in :
    (r : Registry) (before : List Task) (task : Task) (after : List Task)
    → r.tasks ≡ before ++ task ∷ after
    → Inv r
    → loading_in (get r.models task.tag) ≡ 1
task-loading_in r before task after e v = ground (
  arith,
  tasks_for-append task.tag before (task ∷ after),
  ap (tasks_for task.tag) e,
  v.single_flight task.tag,
  text_eq_iff task.tag task.tag,
  loading_in_le (get r.models task.tag),
)

-- The fields that settling a task leaves alone.
pub delete_loaded-same :
    (r : Registry) (outcome : LoadOutcome)
    → (delete_loaded r outcome).models ≡ r.models
      × (delete_loaded r outcome).tasks ≡ r.tasks
      × (delete_loaded r outcome).inflight ≡ r.inflight
delete_loaded-same r (loaded l) = (refl, refl, refl)
delete_loaded-same r (load_error error) = (refl, refl, refl)

pub note_outcome-same :
    (r : Registry) (outcome : LoadOutcome) (m : Measured)
    → (note_outcome r outcome m).models ≡ r.models
      × (note_outcome r outcome m).tasks ≡ r.tasks
      × (note_outcome r outcome m).inflight ≡ r.inflight
unfolding note_outcome
note_outcome-same r (loaded l) m = (refl, refl, refl)
note_outcome-same r (load_error error) m = (refl, refl, refl)

-- What settling a task leaves in its slot.
abbrev pub settled : Slot → Devices → LoadOutcome → Measured → Option Slot
settled slot devices outcome m =
    if slot.unload_requested
    then none
    else some (record slot { state = state_of outcome devices m })

pub settle-asked :
    (r : Registry) (tag : Text) (devices : Devices) (outcome : LoadOutcome) (m : Measured)
    (slot : Slot)
    → get r.models tag ≡ some slot
    → slot.unload_requested ≡ true
    → settle r tag devices outcome m
      ≡ delete_loaded (record r { models = remove r.models tag }) outcome
unfolding settle
settle-asked r tag devices outcome m slot e asked = rw (e, settle, asked) refl

pub settle-kept :
    (r : Registry) (tag : Text) (devices : Devices) (outcome : LoadOutcome) (m : Measured)
    (slot : Slot)
    → get r.models tag ≡ some slot
    → slot.unload_requested ≡ false
    → settle r tag devices outcome m ≡ record r {
      models = insert r.models tag (record slot { state = state_of outcome devices m });
    }
unfolding settle
settle-kept r tag devices outcome m slot e kept = rw (e, settle, kept) refl

pub settle-models :
    (r : Registry) (tag : Text) (devices : Devices) (outcome : LoadOutcome) (m : Measured)
    (slot : Slot)
    → get r.models tag ≡ some slot
    → ((t : Text)
        → get (settle r tag devices outcome m).models t
          ≡ (if text_eq tag t then settled slot devices outcome m else get r.models t))
      × (IsMap r.models → IsMap (settle r tag devices outcome m).models)
      × (settle r tag devices outcome m).tasks ≡ r.tasks
      × (settle r tag devices outcome m).inflight ≡ r.inflight
settle-models r tag devices outcome m slot e = elim (Bool-cases slot.unload_requested) [
  | inl asked ↦
      let (ms, ts, is) = delete_loaded-same (record r { models = remove r.models tag }) outcome in
      rw (settle-asked r tag devices outcome m slot e asked, ms, ts, is, asked)
        (λ t. get-remove r.models tag t, λ d. remove-IsMap r.models tag d, refl, refl)
  | inr kept ↦
      rw (settle-kept r tag devices outcome m slot e kept, kept)
        (λ t. get-insert r.models tag t _, λ d. insert-IsMap r.models tag _ d, refl, refl)
]

pub settled-loading_in :
    (slot : Slot) (devices : Devices) (outcome : LoadOutcome) (m : Measured)
    → loading_in (settled slot devices outcome m) ≡ 0 × IsPutOff (settled slot devices outcome m)
settled-loading_in slot devices outcome m =
    ground (arith, state_of-loading_in slot outcome devices m)

-- The registry when a task's outcome is known, before its slot is settled.
abbrev pub ended : Registry → List Task → Task → List Task → LoadOutcome → Measured → Registry
ended r before task after outcome m =
    note_outcome
      (record r {
        inflight = if task.holding then drop_guard r.inflight else r.inflight;
        tasks = before ++ after;
      })
      outcome m
