-- ===== src/Registry/Unloads.antt =====
-- Proofs about an unload that overtakes a load (src/serving/registry.rs).
pub mod Ends
use mathlib.Core.Option.{some-injective}
use muna_server.Base.{
  ℕ, ◌≡◌, refl, sym, ap, subst, ◌∙◌, inl, inr, ◌⊎◌, [], text_eq, text_eq_iff, get-insert,
  get-remove, remove, Option-cases, true, false, Option, none, some, List, ◌∷◌, ◌++◌, Text, Map,
  get, get-insert_self, get-remove_self, arith, if◌then◌else◌, Bool-cases,
}
use muna_server.Gate.{drop_guard}
use muna_server.Registry.{
  failed, Slot, LoadOutcome, loaded, load_error, Task, Registry, start_load, attempt_state, attempt,
  warm, warm_state, warm_reconcile, put_off_unload, begin_unload, remove_slot, end_unload,
  ready_model, assigned_devices, Devices, loading,
}
use muna_server.Registry.Tasks.{
  Measured, ready_of, state_of, note_outcome, settle, finish, Step, attempts, warms, reconciles,
  begins_unload, ends_unload, releases, finishes, assigns, notices, release, Reach,
}
use muna_server.Registry.Flight.{ModelState-cases, loading_in, Inv}
use muna_server.Registry.Single.{Reach-IsSingle, Step-lost, finish-slot}
use muna_server.Registry.Single.Settling.{ended, settle-asked, settle-kept, settle-models}
use muna_server.Registry.Unloads.Ends.{Settled, note_outcome-kept, finish-Settled}

-- A slot that is loading and whose unload was put off.
abbrev pub IsAsked : Option Slot → Type 0
IsAsked none = ⊥
IsAsked (some slot) = (loading_in (some slot) ≡ 1) × (slot.unload_requested ≡ true)

unload-IsAsked :
    (r : Registry) (tag : Text)
    → loading_in (get r.models tag) ≡ 1
    → IsAsked (get (begin_unload r tag).models tag) × ((begin_unload r tag).unloading ≡ r.unloading)
unfolding begin_unload put_off_unload
unload-IsAsked r tag l = elim (Option-cases (get r.models tag)) [
  | inl absent ↦ absurd (omega (arith, rw absent at l))
  | inr (slot, e) ↦ elim (ModelState-cases slot.state) [
    | inl (since, devices, s) ↦
        rw (e, begin_unload, put_off_unload, s)
          (
            rw (get-insert_self r.models tag (record slot { unload_requested = true }))
                (rw s refl, refl),
            refl,
          )
    | inr (inl (model, s)) ↦ absurd (omega (arith, rw (e, s) at l))
    | inr (inr (error, at, s)) ↦ absurd (omega (arith, rw (e, s) at l))
  ]
]

module _ (r : Registry) (tag : Text) (slot : Slot) (since : ℕ) (devices : Devices)
    (found : get r.models tag ≡ some slot) (state : slot.state ≡ loading since devices) where
  attempt-kept :
      (k : Text) (deadline now : ℕ) → get (attempt r k deadline now).0.models tag ≡ some slot
  unfolding attempt attempt_state start_load
  attempt-kept k deadline now = ground (
    arith,
    text_eq_iff k tag,
    get-remove r.models k tag,
    get-insert r.models k tag
        (record { state = loading now (assigned_devices r k); unload_requested = false }),
  )

  warm-kept : (k : Text) (now : ℕ) → get (warm r k now).models tag ≡ some slot
  unfolding warm warm_state start_load
  warm-kept k now = ground (
    arith,
    text_eq_iff k tag,
    get-remove r.models k tag,
    get-insert r.models k tag
        (record { state = loading now (assigned_devices r k); unload_requested = false }),
    get-insert (remove r.models k) k tag
        (record { state = loading now (assigned_devices r k); unload_requested = false }),
  )

  reconcile-kept : (k : Text) (now : ℕ) → get (warm_reconcile r k now).models tag ≡ some slot
  unfolding warm_reconcile
  reconcile-kept k now = ground (arith, warm-kept k now)

  slot-IsAsked : slot.unload_requested ≡ true → IsAsked (some slot)
  slot-IsAsked asked = (rw state refl, asked)

  begin_unload-other :
      (k : Text) → text_eq k tag ≡ false → get (begin_unload r k).models tag ≡ some slot
  unfolding begin_unload put_off_unload
  begin_unload-other k other = elim (Option-cases (get r.models k)) [
    | inl absent ↦ rw (absent, begin_unload, put_off_unload) found
    | inr (q, e) ↦ elim (ModelState-cases q.state) [
      | inl (started, on, s) ↦
          rw (e, begin_unload, put_off_unload, s) (get-insert r.models k tag _ ∙ rw other found)
      | inr (inl (model, s)) ↦ rw (e, begin_unload, put_off_unload, s) found
      | inr (inr (error, at, s)) ↦ rw (e, begin_unload, put_off_unload, s) found
    ]
  ]

  begin_unload-kept :
      (k : Text) → slot.unload_requested ≡ true → IsAsked (get (begin_unload r k).models tag)
  begin_unload-kept k asked = elim (Bool-cases (text_eq k tag)) [
    | inl same ↦
        subst (λ j. IsAsked (get (begin_unload r j).models tag)) (sym ((text_eq_iff k tag).0 same))
          (unload-IsAsked r tag (rw found (rw state refl))).0
    | inr other ↦ subst IsAsked (sym (begin_unload-other k other)) (slot-IsAsked asked)
  ]

  remove_slot-kept :
      (k : Text) → (remove_slot r k).lost ≡ [] → get (remove_slot r k).models tag ≡ some slot
  unfolding remove_slot
  remove_slot-kept k h = ground (arith, text_eq_iff k tag, get-remove r.models k tag)

-- The handles that a load brought.
abbrev pub handles : LoadOutcome → List ℕ
handles (loaded l) = l.muna ∷ []
handles (load_error error) = []

-- The load of a slot whose unload was put off has ended.
abbrev pub IsUnloaded : Registry → Text → Registry → Type 0
IsUnloaded r tag s =
    (before : List Task) × (task : Task) × (after : List Task) × (outcome : LoadOutcome)
    × (m : Measured) × (r.tasks ≡ before ++ task ∷ after)
    × (task.tag ≡ tag)
    × (s ≡ finish r before task after outcome m)
    × (get s.models tag ≡ none)
    × (s.deleted ≡ handles outcome ++ r.deleted)

finish-other :
    (r : Registry) (before : List Task) (task : Task) (after : List Task) (outcome : LoadOutcome)
    (m : Measured) (tag : Text)
    → Inv r
    → r.tasks ≡ before ++ task ∷ after
    → text_eq task.tag tag ≡ false
    → get (finish r before task after outcome m).models tag ≡ get r.models tag
unfolding finish
finish-other r before task after outcome m tag v e other =
    let (slot, found) = finish-slot r before task after e v in
    let (ms, ds) =
      note_outcome-kept
        (record r {
          inflight = if task.holding then drop_guard r.inflight else r.inflight;
          tasks = before ++ after;
        })
        outcome m in
    (settle-models (ended r before task after outcome m) task.tag task.devices outcome m slot
        (ap (λ n. get n task.tag) ms ∙ found)).0
      tag
    ∙ rw other (ap (λ n. get n tag) ms)

kept_end :
    (r s : Registry) (slot : Slot) (task : Task) (outcome : LoadOutcome) (m : Measured)
    → slot.unload_requested ≡ true
    → Settled r slot task outcome m s
    → (get s.models task.tag ≡ none) × (s.deleted ≡ handles outcome ++ r.deleted)
kept_end r s slot task (loaded l) m asked h = h.0 asked
kept_end r s slot task (load_error error) m asked h = h.0 asked

finish-IsAsked :
    {device_store : Map (List ℕ)} {pinned : Option (List Text)} (r : Registry) (tag : Text)
    (slot : Slot) (before : List Task) (task : Task) (after : List Task) (outcome : LoadOutcome)
    (m : Measured)
    → Reach device_store pinned r
    → r.lost ≡ []
    → get r.models tag ≡ some slot
    → IsAsked (some slot)
    → r.tasks ≡ before ++ task ∷ after
    → IsAsked (get (finish r before task after outcome m).models tag)
      ⊎ IsUnloaded r tag (finish r before task after outcome m)
finish-IsAsked r tag slot before task after outcome m v h found asked e =
    elim (Bool-cases (text_eq task.tag tag)) [
      | inr other ↦ inl (
          subst IsAsked
            (sym
              (finish-other r before task after outcome m tag (Reach-IsSingle v h) e other ∙ found))
            asked)
      | inl same ↦
          let at : task.tag ≡ tag = (text_eq_iff task.tag tag).0 same in
          let (slot2, (found2, settled_)) = finish-Settled before task after outcome m v h e in
          let flag : slot2.unload_requested ≡ true =
            ap (λ q. q.unload_requested)
              (some-injective slot2 slot (sym found2 ∙ ap (λ t. get r.models t) at ∙ found))
            ∙ asked.1 in
          let end =
            kept_end r (finish r before task after outcome m) slot2 task outcome m flag settled_ in
          inr (
            before,
            task,
            after,
            outcome,
            m,
            e,
            at,
            refl,
            ap (λ t. get (finish r before task after outcome m).models t) (sym at) ∙ end.0,
            end.1,
          )
    ]

Step-slot_kept :
    {device_store : Map (List ℕ)} {pinned : Option (List Text)} {r s : Registry} (tag : Text)
    (slot : Slot) (since : ℕ) (devices : Devices)
    → Reach device_store pinned r
    → Step r s
    → s.lost ≡ []
    → get r.models tag ≡ some slot
    → slot.state ≡ loading since devices
    → slot.unload_requested ≡ true
    → IsAsked (get s.models tag) ⊎ IsUnloaded r tag s
unfolding end_unload release
Step-slot_kept {r = r} tag slot since devices v (attempts k deadline now) h found state asked =
    inl (
      subst IsAsked (sym (attempt-kept r tag slot since devices found state k deadline now))
        (slot-IsAsked r tag slot since devices found state asked))
Step-slot_kept {r = r} tag slot since devices v (warms k now) h found state asked = inl (
    subst IsAsked (sym (warm-kept r tag slot since devices found state k now))
      (slot-IsAsked r tag slot since devices found state asked))
Step-slot_kept {r = r} tag slot since devices v (reconciles k now) h found state asked = inl (
    subst IsAsked (sym (reconcile-kept r tag slot since devices found state k now))
      (slot-IsAsked r tag slot since devices found state asked))
Step-slot_kept {r = r} tag slot since devices v (begins_unload k) h found state asked =
    inl (begin_unload-kept r tag slot since devices found state k asked)
Step-slot_kept {r = r} tag slot since devices v (ends_unload before k after e) h found state asked =
    inl (
      subst IsAsked
        (sym (
          remove_slot-kept (record r { unloading = before ++ after }) tag slot since devices found
            state k h))
        (slot-IsAsked r tag slot since devices found state asked))
Step-slot_kept {r = r} tag slot since devices v (releases before task after e) h found state asked =
    inl (subst IsAsked (sym found) (slot-IsAsked r tag slot since devices found state asked))
Step-slot_kept {r = r} tag slot since devices v (finishes before task after outcome m e) h found
      state asked =
    finish-IsAsked r tag slot before task after outcome m v
      (Step-lost (finishes before task after outcome m e) h) found
      (slot-IsAsked r tag slot since devices found state asked) e
Step-slot_kept {r = r} tag slot since devices v (assigns device_store) h found state asked =
    inl (subst IsAsked (sym found) (slot-IsAsked r tag slot since devices found state asked))
Step-slot_kept {r = r} tag slot since devices v notices h found state asked =
    inl (subst IsAsked (sym found) (slot-IsAsked r tag slot since devices found state asked))

Step-slot :
    {device_store : Map (List ℕ)} {pinned : Option (List Text)} {r s : Registry} (tag : Text)
    → Reach device_store pinned r
    → Step r s
    → s.lost ≡ []
    → IsAsked (get r.models tag)
    → IsAsked (get s.models tag) ⊎ IsUnloaded r tag s
Step-slot {r = r} tag v step h asked = elim (Option-cases (get r.models tag)) [
  | inl absent ↦ absurd (subst IsAsked absent asked)
  | inr (slot, found) ↦
      let a : IsAsked (some slot) = subst IsAsked found asked in
      elim (ModelState-cases slot.state) [
        | inl (since, devices, s) ↦ Step-slot_kept tag slot since devices v step h found s a.1
        | inr (inl (model, s)) ↦ absurd (omega (arith, rw s at a.0))
        | inr (inr (error, at, s)) ↦ absurd (omega (arith, rw s at a.0))
      ]
]

-- An unload of a loading tag is put off at its first look at the map and does not come to a second
-- one, and it is never forgotten: whatever step follows, as long as no other `unload` has removed a
-- loading slot, the slot stays loading with its unload put off, or its load has ended. At that end,
-- with an engine or an error, the tag has no slot, and what the load brought is deleted.
pub unload-finish :
    {device_store : Map (List ℕ)} {pinned : Option (List Text)} {r s : Registry} (tag : Text)
    → Reach device_store pinned r
    → Step r s
    → s.lost ≡ []
    → (loading_in (get r.models tag) ≡ 1
        → IsAsked (get (begin_unload r tag).models tag)
          × ((begin_unload r tag).unloading ≡ r.unloading))
      × (IsAsked (get r.models tag) → IsAsked (get s.models tag) ⊎ IsUnloaded r tag s)
unload-finish {r = r} tag v step h = (unload-IsAsked r tag, Step-slot tag v step h)
