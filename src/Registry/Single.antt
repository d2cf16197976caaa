-- ===== src/Registry/Single.antt =====
-- Proofs that loads are single-flight through the end of a load task (src/serving/registry.rs).
pub mod Settling
use muna_server.Base.{
  ℕ, ◌≤◌, ◌≡◌, refl, sym, ap, subst, ◌∙◌, inl, inr, true, false, Option, none, some, List, [], ◌∷◌,
  ◌++◌, Text, text_eq, text_eq_iff, Map, get, insert, remove, get-insert, get-remove, All, ◌↔◌,
  IsMap, insert-IsMap, remove-IsMap, arith, if◌then◌else◌, Option-cases, Bool-cases,
}
use muna_server.Gate.{drop_guard, is_idle}
use muna_server.Registry.{
  Devices, Slot, LoadOutcome, loaded, load_error, Task, Registry, new_registry, start_load,
  attempt_state, attempt, warm_state, warm, warm_reconcile, put_off_unload, begin_unload,
  remove_slot, end_unload,
}
use muna_server.Registry.Tasks.{
  Measured, state_of, note_outcome, settle, delete_loaded, release, finish, Step, attempts, warms,
  reconciles, begins_unload, ends_unload, releases, finishes, assigns, notices, Reach, here, next,
}
use muna_server.Registry.Flight.{
  tasks_for, holders, loading_in, IsPutOff, Inv, tasks_for-append, holders-append, same-Inv,
  attempt-Inv, warm-Inv, warm_reconcile-Inv, begin_unload-Inv, remove_slot-Inv, ModelState-cases,
}
use muna_server.Registry.Single.Settling.{
  release-Inv, leave-Inv, state_of-loading_in, loading_in_le, task-loading_in, delete_loaded-same,
  note_outcome-same, settled, settle-asked, settle-kept, settle-models, settled-loading_in, ended,
}

pub finish-slot :
    (r : Registry) (before : List Task) (task : Task) (after : List Task)
    → r.tasks ≡ before ++ task ∷ after
    → Inv r
    → (slot : Slot) × (get r.models task.tag ≡ some slot)
finish-slot r before task after e v = elim (Option-cases (get r.models task.tag)) [
  | inl absent ↦
      absurd (omega (arith, ap loading_in absent, task-loading_in r before task after e v))
  | inr found ↦ found
]

finish-Inv :
    (r : Registry) (before : List Task) (task : Task) (after : List Task) (outcome : LoadOutcome)
    (m : Measured)
    → r.tasks ≡ before ++ task ∷ after
    → Inv r
    → Inv (finish r before task after outcome m)
unfolding finish
finish-Inv r before task after outcome m e v =
    let (slot, found) = finish-slot r before task after e v in
    let (ms, ts, is) =
      note_outcome-same
        (record r {
          inflight = if task.holding then drop_guard r.inflight else r.inflight;
          tasks = before ++ after;
        })
        outcome m in
    let (g, d, ts2, is2) =
      settle-models (ended r before task after outcome m) task.tag task.devices outcome m slot
        (ap (λ n. get n task.tag) ms ∙ found) in
    let (z, p) = settled-loading_in slot task.devices outcome m in
    leave-Inv before task after (settled slot task.devices outcome m) e (ts2 ∙ ts) (is2 ∙ is)
      (λ t.
        g t
        ∙ ap (λ n. if text_eq task.tag t then settled slot task.devices outcome m else get n t) ms)
      (task-loading_in r before task after e v) z p (d (subst IsMap (sym ms) v.distinct)) v

note_outcome-lost :
    (r : Registry) (outcome : LoadOutcome) (m : Measured) → (note_outcome r outcome m).lost ≡ r.lost
unfolding note_outcome
note_outcome-lost r (loaded l) m = refl
note_outcome-lost r (load_error error) m = refl

delete_loaded-lost :
    (r : Registry) (outcome : LoadOutcome) → (delete_loaded r outcome).lost ≡ r.lost
delete_loaded-lost r (loaded l) = refl
delete_loaded-lost r (load_error error) = refl

settle-lost :
    (r : Registry) (tag : Text) (devices : Devices) (outcome : LoadOutcome) (m : Measured)
    → (settle r tag devices outcome m).lost ≡ r.lost
unfolding settle
settle-lost r tag devices outcome m =
    ground (arith, delete_loaded-lost (record r { models = remove r.models tag }) outcome)

finish-lost :
    (r : Registry) (before : List Task) (task : Task) (after : List Task) (outcome : LoadOutcome)
    (m : Measured)
    → (finish r before task after outcome m).lost ≡ r.lost
unfolding finish
finish-lost r before task after outcome m =
    settle-lost (ended r before task after outcome m) task.tag task.devices outcome m
    ∙ note_outcome-lost
        (record r {
          inflight = if task.holding then drop_guard r.inflight else r.inflight;
          tasks = before ++ after;
        })
        outcome m

attempt-lost :
    (r : Registry) (tag : Text) (deadline now : ℕ) → (attempt r tag deadline now).0.lost ≡ r.lost
unfolding attempt attempt_state start_load
attempt-lost r tag deadline now = ground arith

warm-lost : (r : Registry) (tag : Text) (now : ℕ) → (warm r tag now).lost ≡ r.lost
unfolding warm warm_state start_load
warm-lost r tag now = ground arith

warm_reconcile-lost :
    (r : Registry) (tag : Text) (now : ℕ) → (warm_reconcile r tag now).lost ≡ r.lost
unfolding warm_reconcile
warm_reconcile-lost r tag now = ground (arith, warm-lost r tag now)

begin_unload-lost : (r : Registry) (tag : Text) → (begin_unload r tag).lost ≡ r.lost
unfolding begin_unload put_off_unload
begin_unload-lost r tag = ground arith

remove_slot-lost : (r : Registry) (tag : Text) → (remove_slot r tag).lost ≡ [] → r.lost ≡ []
unfolding remove_slot
remove_slot-lost r tag h = ground arith

-- What was lost stays on record.
pub Step-lost : {r s : Registry} → Step r s → s.lost ≡ [] → r.lost ≡ []
unfolding end_unload release
Step-lost {r} (attempts tag deadline now) h = sym (attempt-lost r tag deadline now) ∙ h
Step-lost {r} (warms tag now) h = sym (warm-lost r tag now) ∙ h
Step-lost {r} (reconciles tag now) h = sym (warm_reconcile-lost r tag now) ∙ h
Step-lost {r} (begins_unload tag) h = sym (begin_unload-lost r tag) ∙ h
Step-lost {r} (ends_unload before tag after e) h =
    remove_slot-lost (record r { unloading = before ++ after }) tag h
Step-lost {r} (releases before task after e) h = h
Step-lost {r} (finishes before task after outcome m e) h =
    sym (finish-lost r before task after outcome m) ∙ h
Step-lost (assigns device_store) h = h
Step-lost notices h = h

pub Step-IsSingle : {r : Registry} {s : Registry} → Step r s → s.lost ≡ [] → Inv r → Inv s
unfolding end_unload
Step-IsSingle {r} (attempts tag deadline now) h v = attempt-Inv r tag deadline now v
Step-IsSingle {r} (warms tag now) h v = warm-Inv r tag now v
Step-IsSingle {r} (reconciles tag now) h v = warm_reconcile-Inv r tag now v
Step-IsSingle {r} (begins_unload tag) h v = begin_unload-Inv r tag v
Step-IsSingle {r} (ends_unload before tag after e) h v =
    remove_slot-Inv (record r { unloading = before ++ after }) tag h (same-Inv v refl refl refl)
Step-IsSingle {r} (releases before task after e) h v = release-Inv r before task after e v
Step-IsSingle {r} (finishes before task after outcome m e) h v =
    finish-Inv r before task after outcome m e v
Step-IsSingle (assigns device_store) h v = same-Inv v refl refl refl
Step-IsSingle notices h v = same-Inv v refl refl refl

pub Reach-IsSingle :
    {device_store : Map (List ℕ)} {pinned : Option (List Text)} {r : Registry}
    → Reach device_store pinned r
    → r.lost ≡ []
    → Inv r
unfolding new_registry get
Reach-IsSingle here h = record {
  single_flight = λ tag. refl;
  gate = refl;
  put_off = λ tag. tt;
  distinct = tt;
}
Reach-IsSingle (next before step) h =
    Step-IsSingle step h (Reach-IsSingle before (Step-lost step h))

-- In every reachable registry, as long as no `unload` has removed a slot that came to load between
-- its two looks at the map: a tag has one load task while its slot is loading and none otherwise; and
-- an unload is put off only in a slot that is loading.
pub Reach-single_flight :
    {device_store : Map (List ℕ)} {pinned : Option (List Text)} {r : Registry} (tag : Text)
    → Reach device_store pinned r
    → r.lost ≡ []
    → tasks_for tag r.tasks ≡ loading_in (get r.models tag) × IsPutOff (get r.models tag)
Reach-single_flight tag v h =
    ((Reach-IsSingle v h).single_flight tag, (Reach-IsSingle v h).put_off tag)

is_idle-holders : (ts : List Task) → (is_idle (holders ts) ≡ true ↔ All (λ t. t.holding ≡ false) ts)
unfolding is_idle
is_idle-holders [] = (λ h. tt, λ h. refl)
is_idle-holders (t ∷ ts) = ground (arith, is_idle-holders ts)

-- In every reachable registry in which no `unload` has removed a loading slot, the download gate's
-- count is the number of load tasks that hold a guard, so the gate is idle exactly when no load is at
-- its download.
pub Reach-inflight :
    {device_store : Map (List ℕ)} {pinned : Option (List Text)} {r : Registry}
    → Reach device_store pinned r
    → r.lost ≡ []
    → r.inflight ≡ holders r.tasks
      × (is_idle r.inflight ≡ true ↔ (All (λ t. t.holding ≡ false) r.tasks))
Reach-inflight v h = ((Reach-IsSingle v h).gate, rw ((Reach-IsSingle v h).gate) (is_idle-holders _))
