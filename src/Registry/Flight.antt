-- ===== src/Registry/Flight.antt =====
-- Proofs that loads are single-flight, and about the download gate (src/serving/registry.rs).
use muna_server.Base.{
  ℕ, ◌+◌, ◌≡◌, refl, ◌⊎◌, inl, inr, true, false, Option, none, some, List, [], ◌∷◌, ◌++◌, Text,
  text_eq, text_eq_iff, get, insert, remove, get-insert, get-remove, IsMap, insert-IsMap,
  remove-IsMap, arith, leb, if◌then◌else◌, Option-cases, Bool-cases,
}
use muna_server.Registry.{
  Devices, ReadyModel, ModelState, loading, ready, failed, Slot, Task, Registry, serves, start_load,
  attempt_state, attempt, warm_state, warm, warm_reconcile, is_cooling, put_off_unload,
  begin_unload, remove_slot,
}

-- The load tasks of a tag, and the tasks that hold the gate.
abbrev pub tasks_for : Text → List Task → ℕ
tasks_for tag [] = 0
tasks_for tag (t ∷ ts) = (if text_eq t.tag tag then 1 else 0) + tasks_for tag ts

abbrev pub holders : List Task → ℕ
holders [] = 0
holders (t ∷ ts) = (if t.holding then 1 else 0) + holders ts

abbrev pub loading_in : Option Slot → ℕ
loading_in none = 0
loading_in (some slot) = elim slot.state [
  | loading since devices ↦ 1
  | ready model ↦ 0
  | failed error at ↦ 0
]

-- An unload is put off only while the load runs.
abbrev pub IsPutOff : Option Slot → Type 0
IsPutOff none = Unit
IsPutOff (some slot) = slot.unload_requested ≡ true → loading_in (some slot) ≡ 1

pub record Inv (r : Registry) : Type 0 where
  pub single_flight : (tag : Text) → tasks_for tag r.tasks ≡ loading_in (get r.models tag)
  pub gate : r.inflight ≡ holders r.tasks
  pub put_off : (tag : Text) → IsPutOff (get r.models tag)
  pub distinct : IsMap r.models

pub tasks_for-append :
    (tag : Text) (xs ys : List Task)
    → tasks_for tag (xs ++ ys) ≡ tasks_for tag xs + tasks_for tag ys
tasks_for-append tag [] ys = omega arith
tasks_for-append tag (x ∷ xs) ys = omega (arith, tasks_for-append tag xs ys)

pub holders-append : (xs ys : List Task) → holders (xs ++ ys) ≡ holders xs + holders ys
holders-append [] ys = omega arith
holders-append (x ∷ xs) ys = omega (arith, holders-append xs ys)

start_load-Inv :
    (r : Registry) (tag : Text) (now : ℕ)
    → get r.models tag ≡ none
    → Inv r
    → Inv (start_load r tag now)
unfolding start_load
start_load-Inv r tag now e v = record {
  single_flight = λ t. ground (
    arith,
    get-insert r.models tag t
        (record { state = loading now (get r.device_store tag); unload_requested = false }),
    text_eq_iff tag t,
    v.single_flight t,
    v.single_flight tag,
  );
  gate = omega (arith, v.gate);
  put_off = λ t. ground (
    arith,
    get-insert r.models tag t
        (record { state = loading now (get r.device_store tag); unload_requested = false }),
    v.put_off t,
  );
  distinct = insert-IsMap r.models tag _ v.distinct;
}

-- Dropping the slot of a tag that has no load running.
remove-Inv :
    (r : Registry) (tag : Text)
    → loading_in (get r.models tag) ≡ 0
    → Inv r
    → Inv (record r { models = remove r.models tag })
remove-Inv r tag e v = record {
  single_flight = λ t.
      ground (
        arith,
        get-remove r.models tag t,
        text_eq_iff tag t,
        v.single_flight t,
        v.single_flight tag,
      );
  gate = v.gate;
  put_off = λ t. ground (arith, get-remove r.models tag t, v.put_off t);
  distinct = remove-IsMap r.models tag v.distinct;
}

get-remove_self : (r : Registry) (tag : Text) → get (remove r.models tag) tag ≡ none
get-remove_self r tag = ground (arith, get-remove r.models tag tag, text_eq_iff tag tag)

pub ModelState-cases :
    (s : ModelState)
    → ((since : ℕ) × (devices : Devices) × (s ≡ loading since devices))
      ⊎ (((model : ReadyModel) × (s ≡ ready model))
          ⊎ ((error : Text) × (at : ℕ) × (s ≡ failed error at)))
ModelState-cases (loading since devices) = inl (since, devices, refl)
ModelState-cases (ready model) = inr (inl (model, refl))
ModelState-cases (failed error at) = inr (inr (error, at, refl))

-- A slot whose load has failed is dropped for a new load.
restart-Inv :
    (r : Registry) (tag : Text) (now : ℕ) (slot : Slot) (error : Text) (at : ℕ)
    → get r.models tag ≡ some slot
    → slot.state ≡ failed error at
    → Inv r
    → Inv (start_load (record r { models = remove r.models tag }) tag now)
restart-Inv r tag now slot error at e s v =
    start_load-Inv (record r { models = remove r.models tag }) tag now (get-remove_self r tag)
      (remove-Inv r tag (rw e (rw s refl)) v)

attempt_state-Inv :
    (r : Registry) (tag : Text) (deadline now : ℕ) (o : Option Slot)
    → get r.models tag ≡ o
    → Inv r
    → Inv (attempt_state r tag deadline now o).0
unfolding attempt_state
attempt_state-Inv r tag deadline now none e v = start_load-Inv r tag now e v
attempt_state-Inv r tag deadline now (some slot) e v = elim (ModelState-cases slot.state) [
  | inl (since, devices, s) ↦ elim (Bool-cases (leb deadline now)) [
    | inl late ↦ rw (s, late) v
    | inr early ↦ rw (s, early) v
  ]
  | inr (inl (model, s)) ↦ rw s v
  | inr (inr (error, at, s)) ↦ rw s (remove-Inv r tag (rw e (rw s refl)) v)
]

pub attempt-Inv :
    (r : Registry) (tag : Text) (deadline now : ℕ) → Inv r → Inv (attempt r tag deadline now).0
unfolding attempt
attempt-Inv r tag deadline now v = elim (Bool-cases (serves r tag)) [
  | inl yes_ ↦ rw yes_ (attempt_state-Inv r tag deadline now (get r.models tag) refl v)
  | inr no_ ↦ rw no_ v
]

warm_state-Inv :
    (r : Registry) (tag : Text) (now : ℕ) (o : Option Slot)
    → get r.models tag ≡ o
    → Inv r
    → Inv (warm_state r tag now o)
unfolding warm_state
warm_state-Inv r tag now none e v = start_load-Inv r tag now e v
warm_state-Inv r tag now (some slot) e v = elim (ModelState-cases slot.state) [
  | inl (since, devices, s) ↦ rw s v
  | inr (inl (model, s)) ↦ rw s v
  | inr (inr (error, at, s)) ↦ rw s (restart-Inv r tag now slot error at e s v)
]

pub warm-Inv : (r : Registry) (tag : Text) (now : ℕ) → Inv r → Inv (warm r tag now)
unfolding warm
warm-Inv r tag now v = elim (Bool-cases (serves r tag)) [
  | inl yes_ ↦ rw yes_ (warm_state-Inv r tag now (get r.models tag) refl v)
  | inr no_ ↦ rw no_ v
]

pub warm_reconcile-Inv :
    (r : Registry) (tag : Text) (now : ℕ) → Inv r → Inv (warm_reconcile r tag now)
unfolding warm_reconcile
warm_reconcile-Inv r tag now v = elim (Bool-cases (is_cooling (get r.models tag) now)) [
  | inl cooling ↦ rw cooling v
  | inr ripe ↦ rw ripe (warm-Inv r tag now v)
]

-- Asking for the unload of a tag whose load runs.
put_off-Inv :
    (r : Registry) (tag : Text) (slot : Slot)
    → get r.models tag ≡ some slot
    → loading_in (some slot) ≡ 1
    → Inv r
    → Inv (record r { models = insert r.models tag (record slot { unload_requested = true }) })
put_off-Inv r tag slot e l v = record {
  single_flight = λ t. ground (
    arith,
    get-insert r.models tag t (record slot { unload_requested = true }),
    text_eq_iff tag t,
    v.single_flight t,
    v.single_flight tag,
  );
  gate = v.gate;
  put_off = λ t. ground (
    arith,
    get-insert r.models tag t (record slot { unload_requested = true }),
    text_eq_iff tag t,
    v.put_off t,
  );
  distinct = insert-IsMap r.models tag _ v.distinct;
}

-- The invariant reads three fields.
pub same-Inv :
    {r s : Registry}
    → Inv r
    → s.models ≡ r.models
    → s.tasks ≡ r.tasks
    → s.inflight ≡ r.inflight
    → Inv s
same-Inv {r} {s} v m t i = record {
  single_flight = λ tag. rw (m, t) (v.single_flight tag);
  gate = rw (t, i) v.gate;
  put_off = λ tag. rw m (v.put_off tag);
  distinct = rw m v.distinct;
}

pub begin_unload-Inv : (r : Registry) (tag : Text) → Inv r → Inv (begin_unload r tag)
unfolding begin_unload put_off_unload
begin_unload-Inv r tag v = elim (Option-cases (get r.models tag)) [
  | inl absent ↦ rw (absent, begin_unload, put_off_unload) (same-Inv v refl refl refl)
  | inr (slot, e) ↦ elim (ModelState-cases slot.state) [
    | inl (since, devices, s) ↦
        rw (e, begin_unload, put_off_unload, s)
          (same-Inv (put_off-Inv r tag slot e (rw s refl) v) refl refl refl)
    | inr (inl (model, s)) ↦ rw (e, begin_unload, put_off_unload, s) (same-Inv v refl refl refl)
    | inr (inr (error, at, s)) ↦ rw (e, begin_unload, put_off_unload, s) (same-Inv v refl refl refl)
  ]
]

-- The second access of an unload, on a slot that is not loading.
pub remove_slot-Inv :
    (r : Registry) (tag : Text) → (remove_slot r tag).lost ≡ [] → Inv r → Inv (remove_slot r tag)
unfolding remove_slot
remove_slot-Inv r tag h v = elim (Option-cases (get r.models tag)) [
  | inl absent ↦ rw (absent, remove_slot) v
  | inr (slot, e) ↦ elim (ModelState-cases slot.state) [
    | inl (since, devices, s) ↦
        let h' : tag ∷ r.lost ≡ [] = rw (e, remove_slot, s) at h in absurd (cc)
    | inr (inl (model, s)) ↦
        rw (e, remove_slot, s) (same-Inv (remove-Inv r tag (rw e (rw s refl)) v) refl refl refl)
    | inr (inr (error, at, s)) ↦
        rw (e, remove_slot, s) (same-Inv (remove-Inv r tag (rw e (rw s refl)) v) refl refl refl)
  ]
]
