-- ===== src/Registry/Unloads/Ends.antt =====
-- Proofs about what the end of a load leaves (src/serving/registry.rs).
use muna_server.Base.{
  ℕ, ◌≡◌, refl, ap, ◌∙◌, [], true, false, Option, none, some, List, ◌∷◌, ◌++◌, Text, Map, get,
  get-insert_self, get-remove_self, if◌then◌else◌,
}
use muna_server.Gate.{drop_guard}
use muna_server.Registry.{
  failed, Slot, LoadOutcome, loaded, load_error, Task, Registry, ready_model,
}
use muna_server.Registry.Tasks.{Measured, ready_of, state_of, note_outcome, settle, finish, Reach}
use muna_server.Registry.Single.{Reach-IsSingle, finish-slot}
use muna_server.Registry.Single.Settling.{ended, settle-asked, settle-kept}

-- What the end of a load leaves of its tag.
abbrev pub Settled : Registry → Slot → Task → LoadOutcome → Measured → Registry → Type 0
Settled r slot task (loaded l) m s =
    (slot.unload_requested ≡ true
      → (get s.models task.tag ≡ none) × (s.deleted ≡ l.muna ∷ r.deleted))
    × (slot.unload_requested ≡ false
        → (ready_model s task.tag ≡ some (ready_of l task.devices m)) × s.deleted ≡ r.deleted)
Settled r slot task (load_error error) m s =
    (slot.unload_requested ≡ true → (get s.models task.tag ≡ none) × (s.deleted ≡ r.deleted))
    × (slot.unload_requested ≡ false
        → get s.models task.tag
          ≡ some (record { state = failed error m.now; unload_requested = false }))

pub note_outcome-kept :
    (r : Registry) (outcome : LoadOutcome) (m : Measured)
    → ((note_outcome r outcome m).models ≡ r.models)
      × ((note_outcome r outcome m).deleted ≡ r.deleted)
unfolding note_outcome
note_outcome-kept r (loaded l) m = (refl, refl)
note_outcome-kept r (load_error error) m = (refl, refl)

settle-Settled :
    (r q : Registry) (task : Task) (outcome : LoadOutcome) (m : Measured) (slot : Slot)
    → get q.models task.tag ≡ some slot
    → q.deleted ≡ r.deleted
    → Settled r slot task outcome m
        (record (settle q task.tag task.devices outcome m) { notified = true })
unfolding state_of ready_model
settle-Settled r q task (loaded l) m slot e d = (
  λ asked.
      rw (settle-asked q task.tag task.devices (loaded l) m slot e asked, d)
        (get-remove_self q.models task.tag, refl),
  λ kept.
      rw (settle-kept q task.tag task.devices (loaded l) m slot e kept, d)
        (rw (get-insert_self q.models task.tag _, ready_model) (refl, refl)),
)
settle-Settled r q task (load_error error) m slot e d = (
  λ asked.
      rw (settle-asked q task.tag task.devices (load_error error) m slot e asked, d)
        (get-remove_self q.models task.tag, refl),
  λ kept.
      rw (settle-kept q task.tag task.devices (load_error error) m slot e kept)
        (get-insert_self q.models task.tag _ ∙ rw kept refl),
)

-- The end of a load whose slot is kept leaves the outcome in the slot: a ready model with what the
-- loader brought, or the error; the end of one whose unload was put off leaves no slot, and deletes
-- the handle that the loader brought. `slot` is the task's slot at that moment.
pub finish-Settled :
    {device_store : Map (List ℕ)} {pinned : Option (List Text)} {r : Registry} (before : List Task)
    (task : Task) (after : List Task) (outcome : LoadOutcome) (m : Measured)
    → Reach device_store pinned r
    → r.lost ≡ []
    → r.tasks ≡ before ++ task ∷ after
    → (slot : Slot) × ((get r.models task.tag ≡ some slot)
        × Settled r slot task outcome m (finish r before task after outcome m))
unfolding finish
finish-Settled {r = r} before task after outcome m v h e =
    let (slot, found) = finish-slot r before task after e (Reach-IsSingle v h) in
    let (ms, ds) =
      note_outcome-kept
        (record r {
          inflight = if task.holding then drop_guard r.inflight else r.inflight;
          tasks = before ++ after;
        })
        outcome m in
    (
      slot,
      (
        found,
        settle-Settled r (ended r before task after outcome m) task outcome m slot
            (ap (λ n. get n task.tag) ms ∙ found) ds,
      ),
    )
