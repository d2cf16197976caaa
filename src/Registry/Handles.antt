-- ===== src/Registry/Handles.antt =====
-- Proofs that no engine stays warm untracked: each handle that a load brought is held by a ready slot
-- or was deleted (src/serving/registry.rs).
pub mod Weights
use muna_server.Base.{
  ℕ, ◌+◌, ◌≡◌, refl, sym, ap, subst, ◌∙◌, inl, inr, true, false, Option, none, some, List, [], ◌∷◌,
  ◌++◌, Text, text_eq, text_eq_iff, Map, get, insert, remove, get-remove, text_eq_refl, IsMap,
  arith, leb, if◌then◌else◌, Option-cases, Bool-cases, sum_by,
}
use muna_server.Gate.{drop_guard}
use muna_server.Registry.{
  Devices, loading, ready, failed, Slot, LoadOutcome, loaded, load_error, Task, Registry,
  new_registry, serves, start_load, attempt_state, attempt, warm_state, warm, warm_reconcile,
  is_cooling, end_unload,
}
use muna_server.Registry.Tasks.{
  Measured, state_of, ready_of, note_outcome, settle, delete_loaded, release, finish, Step,
  attempts, warms, reconciles, begins_unload, ends_unload, releases, finishes, assigns, notices,
  Reach, here, next,
}
use muna_server.Registry.Flight.{Inv, ModelState-cases, loading_in}
use muna_server.Registry.Single.{Reach-IsSingle, Step-lost, finish-slot}
use muna_server.Registry.Single.Settling.{ended, task-loading_in, settle-asked, settle-kept}
use muna_server.Registry.Handles.Weights.{
  weight_of, weights, IsKept, weights-insert, weights-remove, start_load-IsKept, remove-IsKept,
  restart-IsKept, attempt_state-IsKept, attempt-IsKept, warm_state-IsKept, warm-IsKept,
  reconcile-IsKept, begin_unload-IsKept, remove_slot-IsKept,
}

-- The handle that an outcome brings.
abbrev brought : (ℕ → ℕ) → LoadOutcome → ℕ
brought g outcome = elim outcome [ loaded l ↦ g l.muna | load_error error ↦ 0 ]

weight_of-state_of :
    (g : ℕ → ℕ) (slot : Slot) (devices : Devices) (outcome : LoadOutcome) (m : Measured)
    → weight_of g (some (record slot { state = state_of outcome devices m })) ≡ brought g outcome
unfolding state_of ready_of
weight_of-state_of g slot devices (loaded l) m = refl
weight_of-state_of g slot devices (load_error error) m = refl

delete_loaded-IsKept :
    (g : ℕ → ℕ) (r : Registry) (outcome : LoadOutcome)
    → sum_by g r.owned ≡ sum_by g r.deleted + weights g r.models + brought g outcome
    → IsKept g (delete_loaded r outcome)
delete_loaded-IsKept g r (loaded l) h = omega arith
delete_loaded-IsKept g r (load_error error) h = omega arith

settle-IsKept :
    (g : ℕ → ℕ) (r : Registry) (tag : Text) (devices : Devices) (outcome : LoadOutcome)
    (m : Measured) (slot : Slot)
    → get r.models tag ≡ some slot
    → weight_of g (some slot) ≡ 0
    → IsMap r.models
    → sum_by g r.owned ≡ sum_by g r.deleted + weights g r.models + brought g outcome
    → IsKept g (settle r tag devices outcome m)
settle-IsKept g r tag devices outcome m slot e z d h = elim (Bool-cases slot.unload_requested) [
  | inl asked ↦ rw (settle-asked r tag devices outcome m slot e asked) (
      delete_loaded-IsKept g (record r { models = remove r.models tag }) outcome
        (omega (arith, weights-remove g r.models tag d, ap (weight_of g) e)))
  | inr kept ↦ rw (settle-kept r tag devices outcome m slot e kept) (
      omega (
        arith,
        weights-insert g r.models tag (record slot { state = state_of outcome devices m }),
        weight_of-state_of g slot devices outcome m,
        ap (weight_of g) e,
      ))
]

weight_of-loading :
    (g : ℕ → ℕ) (slot : Slot) → loading_in (some slot) ≡ 1 → weight_of g (some slot) ≡ 0
weight_of-loading g slot h = elim (ModelState-cases slot.state) [
  | inl (since, devices, s) ↦ rw s refl
  | inr (inl (model, s)) ↦ absurd (omega (arith, rw s at h))
  | inr (inr (error, at, s)) ↦ rw s refl
]

ended-brought :
    (g : ℕ → ℕ) (r : Registry) (outcome : LoadOutcome) (m : Measured)
    → IsKept g r
    → (let n = note_outcome r outcome m in
        n.models ≡ r.models
        × sum_by g n.owned ≡ sum_by g n.deleted + weights g r.models + brought g outcome)
unfolding note_outcome
ended-brought g r (loaded l) m v = (refl, omega arith)
ended-brought g r (load_error error) m v = (refl, omega arith)

finish-IsKept :
    (g : ℕ → ℕ) (r : Registry) (before : List Task) (task : Task) (after : List Task)
    (outcome : LoadOutcome) (m : Measured)
    → r.tasks ≡ before ++ task ∷ after
    → Inv r
    → IsKept g r
    → IsKept g (finish r before task after outcome m)
unfolding finish
finish-IsKept g r before task after outcome m e i v =
    let (slot, found) = finish-slot r before task after e i in
    let (ms, b) =
      ended-brought g
        (record r {
          inflight = if task.holding then drop_guard r.inflight else r.inflight;
          tasks = before ++ after;
        })
        outcome m v in
    settle-IsKept g (ended r before task after outcome m) task.tag task.devices outcome m slot
      (ap (λ n. get n task.tag) ms ∙ found)
      (weight_of-loading g slot
        (sym (ap loading_in found) ∙ task-loading_in r before task after e i))
      (subst IsMap (sym ms) i.distinct)
      (b
        ∙ ap
            (λ n.
              sum_by g (ended r before task after outcome m).deleted
              + weights g n
              + brought g outcome)
            (sym ms))

release-IsKept :
    (g : ℕ → ℕ) (r : Registry) (before : List Task) (task : Task) (after : List Task)
    → IsKept g r
    → IsKept g (release r before task after)
unfolding release
release-IsKept g r before task after v = v

Step-IsKept : (g : ℕ → ℕ) {r s : Registry} → Step r s → Inv r → IsKept g r → IsKept g s
unfolding end_unload
Step-IsKept g {r} (attempts tag deadline now) i v = attempt-IsKept g r tag deadline now i.distinct v
Step-IsKept g {r} (warms tag now) i v = warm-IsKept g r tag now i.distinct v
Step-IsKept g {r} (reconciles tag now) i v = reconcile-IsKept g r tag now i.distinct v
Step-IsKept g {r} (begins_unload tag) i v = begin_unload-IsKept g r tag i.distinct v
Step-IsKept g {r} (ends_unload before tag after e) i v =
    remove_slot-IsKept g (record r { unloading = before ++ after }) tag i.distinct v
Step-IsKept g {r} (releases before task after e) i v = release-IsKept g r before task after v
Step-IsKept g {r} (finishes before task after outcome m e) i v =
    finish-IsKept g r before task after outcome m e i v
Step-IsKept g (assigns device_store) i v = v
Step-IsKept g notices i v = v

-- In every reachable registry, as long as no `unload` has removed a slot that came to load between
-- its two looks at the map, no engine is warm untracked: each handle that a load brought is held by a
-- ready slot or was deleted, as often as it was brought. Stated for every weight `g` of handles.
pub Reach-IsKept :
    (g : ℕ → ℕ) {device_store : Map (List ℕ)} {pinned : Option (List Text)} {r : Registry}
    → Reach device_store pinned r
    → r.lost ≡ []
    → sum_by g r.owned ≡ sum_by g r.deleted + weights g r.models
unfolding new_registry
Reach-IsKept g here h = refl
Reach-IsKept g (next before step) h =
    let h' = Step-lost step h in
    Step-IsKept g step (Reach-IsSingle before h') (Reach-IsKept g before h')
