-- ===== src/Heartbeat/Directed.antt =====
-- Proofs about what a heartbeat makes of the models that it names (src/control/heartbeat.rs).
use muna_server.Base.{
  ℕ, ◌≡◌, refl, sym, subst, ◌∙◌, inl, inr, true, Option, none, some, List, [], ◌∷◌, Text, get,
  remove, get-insert_self, get-remove_self, if◌then◌else◌, arith, Bool-cases, Option-cases,
}
use muna_server.Dispatch.{remove_entry}
use muna_server.Registry.{
  Registry, Devices, Slot, loading, ready, failed, serves, start_load, warm_state, warm, is_cooling,
  warm_reconcile, engine_devices, put_off_unload, remove_slot, unload,
}
use muna_server.Registry.Flight.{ModelState-cases, loading_in}
use muna_server.Heartbeat.{
  Residency, process, disk, no_residency, ModelDescriptor, HeartbeatResponse, Node, store_one,
  store, process_first, same_devices, evict, move_engine, direct_to, apply_goals, apply, same_flag,
  set_draining_to,
}
use muna_server.Heartbeat.Absent.{IsUntouched, apply_goals-IsUntouched}
use muna_server.Heartbeat.Once.{NamesOnce, process_first-NamesOnce}

-- A slot without an engine of its own: there is none, or its load ends in an unload.
abbrev pub IsOut : Option Slot → Type 0
IsOut none = Unit
IsOut (some slot) = (loading_in (some slot) ≡ 1) × (slot.unload_requested ≡ true)

-- A slot that has an engine, is loading one or has failed to, and no engine on other devices.
abbrev pub IsIn : Devices → Option Slot → Type 0
IsIn devices none = ⊥
IsIn devices (some slot) = elim slot.state [
  | loading since on ↦ Unit
  | ready model ↦ same_devices model.devices devices ≡ true
  | failed error at ↦ Unit
]

-- A slot that `warm_reconcile` may keep.
abbrev IsFit : Devices → Option Slot → Type 0
IsFit devices none = Unit
IsFit devices (some slot) = IsIn devices (some slot)

unload-IsOut : (r : Registry) (tag : Text) → IsOut (get (unload r tag).models tag)
unfolding unload put_off_unload remove_slot
unload-IsOut r tag = elim (Option-cases (get r.models tag)) [
  | inl absent ↦
      let gone : get (unload r tag).models tag ≡ none = ground arith in subst IsOut (sym gone) tt
  | inr (slot, e) ↦ elim (ModelState-cases slot.state) [
    | inl (since, devices, s) ↦
        let kept : get (unload r tag).models tag ≡ some (record slot { unload_requested = true }) =
          ground (arith, get-insert_self r.models tag (record slot { unload_requested = true })) in
        subst IsOut (sym kept) (rw s refl, refl)
    | inr (inl (model, s)) ↦
        let gone : get (unload r tag).models tag ≡ none =
          ground (arith, get-remove_self r.models tag) in
        subst IsOut (sym gone) tt
    | inr (inr (error, at, s)) ↦
        let gone : get (unload r tag).models tag ≡ none =
          ground (arith, get-remove_self r.models tag) in
        subst IsOut (sym gone) tt
  ]
]

IsOut-IsFit : (devices : Devices) (o : Option Slot) → IsOut o → IsFit devices o
IsOut-IsFit devices none h = tt
IsOut-IsFit devices (some slot) h = elim (ModelState-cases slot.state) [
  | inl (since, on, s) ↦ rw s tt
  | inr (inl (model, s)) ↦ absurd (omega (arith, rw s at h.0))
  | inr (inr (error, at, s)) ↦ rw s tt
]

start_load-IsIn :
    (devices : Devices) (r : Registry) (tag : Text) (now : ℕ)
    → IsIn devices (get (start_load r tag now).models tag)
unfolding start_load
start_load-IsIn devices r tag now = subst (IsIn devices) (sym (get-insert_self r.models tag _)) tt

warm_state-IsIn :
    (devices : Devices) (r : Registry) (tag : Text) (now : ℕ) (o : Option Slot)
    → get r.models tag ≡ o
    → IsFit devices o
    → IsIn devices (get (warm_state r tag now o).models tag)
unfolding warm_state
warm_state-IsIn devices r tag now none e h = start_load-IsIn devices r tag now
warm_state-IsIn devices r tag now (some slot) e h = elim (ModelState-cases slot.state) [
  | inl (since, on, s) ↦ rw s (subst (IsIn devices) (sym e) h)
  | inr (inl (model, s)) ↦ rw s (subst (IsIn devices) (sym e) h)
  | inr (inr (error, at, s)) ↦
      rw s (start_load-IsIn devices (record r { models = remove r.models tag }) tag now)
]

cooling-IsIn :
    (devices : Devices) (o : Option Slot) (now : ℕ)
    → is_cooling o now ≡ true
    → IsFit devices o
    → IsIn devices o
unfolding is_cooling
cooling-IsIn devices none now e h = absurd (cc)
cooling-IsIn devices (some slot) now e h = h

warm_reconcile-IsIn :
    (devices : Devices) (r : Registry) (tag : Text) (now : ℕ)
    → serves r tag ≡ true
    → IsFit devices (get r.models tag)
    → IsIn devices (get (warm_reconcile r tag now).models tag)
unfolding warm_reconcile warm
warm_reconcile-IsIn devices r tag now served h =
    elim (Bool-cases (is_cooling (get r.models tag) now)) [
      | inl cooling ↦ rw cooling (cooling-IsIn devices (get r.models tag) now cooling h)
      | inr ripe ↦ rw (ripe, served) (warm_state-IsIn devices r tag now (get r.models tag) refl h)
    ]

-- What a goal makes of the slot and the dispatch entry of its model.
abbrev pub IsDirected : Residency → ModelDescriptor → Node → Type 0
IsDirected process d n = IsIn d.devices (get n.registry.models d.tag)
IsDirected disk d n = IsOut (get n.registry.models d.tag) × (get n.dispatcher.entries d.tag ≡ none)
IsDirected no_residency d n =
    IsOut (get n.registry.models d.tag) × (get n.dispatcher.entries d.tag ≡ none)

move_engine-IsFit :
    (n : Node) (d : ModelDescriptor) → IsFit d.devices (get (move_engine n d).registry.models d.tag)
unfolding move_engine engine_devices
move_engine-IsFit n d = elim (Option-cases (get n.registry.models d.tag)) [
  | inl absent ↦ at n (ground arith) (rw absent tt)
  | inr (slot, e) ↦ elim (ModelState-cases slot.state) [
    | inl (since, on, s) ↦ elim (Bool-cases (same_devices on d.devices)) [
      | inl same ↦ at n (ground arith) (rw e (rw s tt))
      | inr moved ↦ at (evict n d.tag) (ground arith) out
    ]
    | inr (inl (model, s)) ↦ elim (Bool-cases (same_devices model.devices d.devices)) [
      | inl same ↦ at n (ground arith) (rw e (rw s same))
      | inr moved ↦ at (evict n d.tag) (ground arith) out
    ]
    | inr (inr (error, on, s)) ↦ at n (ground arith) (rw e (rw s tt))
  ]
]
  where
    at :
        (m : Node)
        → move_engine n d ≡ m
        → IsFit d.devices (get m.registry.models d.tag)
        → IsFit d.devices (get (move_engine n d).registry.models d.tag)
    at m e h = subst (λ q. IsFit d.devices (get q.registry.models d.tag)) (sym e) h

    out : IsFit d.devices (get (evict n d.tag).registry.models d.tag)
    out =
        IsOut-IsFit d.devices (get (unload n.registry d.tag).models d.tag)
          (unload-IsOut n.registry d.tag)

serves-pinned : (r s : Registry) (tag : Text) → s.pinned ≡ r.pinned → serves s tag ≡ serves r tag
unfolding serves
serves-pinned r s tag e = ground (arith, e)

unload-pinned : (r : Registry) (tag : Text) → (unload r tag).pinned ≡ r.pinned
unfolding unload put_off_unload remove_slot
unload-pinned r tag = ground arith

warm-pinned : (r : Registry) (tag : Text) (now : ℕ) → (warm r tag now).pinned ≡ r.pinned
unfolding warm warm_state start_load
warm-pinned r tag now = ground arith

reconcile-pinned :
    (r : Registry) (tag : Text) (now : ℕ) → (warm_reconcile r tag now).pinned ≡ r.pinned
unfolding warm_reconcile
reconcile-pinned r tag now = ground (arith, warm-pinned r tag now)

move_engine-pinned :
    (n : Node) (d : ModelDescriptor) → (move_engine n d).registry.pinned ≡ n.registry.pinned
unfolding move_engine
move_engine-pinned n d = ground (arith, unload-pinned n.registry d.tag)

direct_to-pinned :
    (n : Node) (d : ModelDescriptor) (now : ℕ) (r : Residency)
    → (direct_to n d now r).registry.pinned ≡ n.registry.pinned
unfolding direct_to
direct_to-pinned n d now process =
    reconcile-pinned (move_engine n d).registry d.tag now ∙ move_engine-pinned n d
direct_to-pinned n d now disk = unload-pinned n.registry d.tag
direct_to-pinned n d now no_residency = unload-pinned n.registry d.tag

direct_to-IsDirected :
    (n : Node) (d : ModelDescriptor) (now : ℕ) (r : Residency)
    → serves n.registry d.tag ≡ true
    → IsDirected r d (direct_to n d now r)
unfolding direct_to remove_entry
direct_to-IsDirected n d now process served =
    warm_reconcile-IsIn d.devices (move_engine n d).registry d.tag now
      (serves-pinned n.registry (move_engine n d).registry d.tag (move_engine-pinned n d) ∙ served)
      (move_engine-IsFit n d)
direct_to-IsDirected n d now disk served =
    (unload-IsOut n.registry d.tag, get-remove_self n.dispatcher.entries d.tag)
direct_to-IsDirected n d now no_residency served =
    (unload-IsOut n.registry d.tag, get-remove_self n.dispatcher.entries d.tag)

IsDirected-same :
    (r : Residency) (d : ModelDescriptor) (n m : Node)
    → IsUntouched d.tag n m
    → IsDirected r d n
    → IsDirected r d m
IsDirected-same process d n m (a, b, c) h = subst (IsIn d.devices) (sym a) h
IsDirected-same disk d n m (a, b, c) (out, absent) = (subst IsOut (sym a) out, c ∙ absent)
IsDirected-same no_residency d n m (a, b, c) (out, absent) = (subst IsOut (sym a) out, c ∙ absent)

apply_goals-IsDirected :
    (n : Node) (ds : List ModelDescriptor) (now : ℕ) (d : ModelDescriptor)
    → NamesOnce d ds
    → serves n.registry d.tag ≡ true
    → IsDirected d.residency d (apply_goals n ds now)
unfolding apply_goals
apply_goals-IsDirected n [] now d h served = absurd h
apply_goals-IsDirected n (x ∷ xs) now d (inl (e, others)) served =
    let m = direct_to n d now d.residency in
    subst
      (λ y.
        IsDirected d.residency d (
          apply_goals (if serves n.registry y.tag then direct_to n y now y.residency else n) xs
            now))
      (sym e)
      (rw served (
        IsDirected-same d.residency d m (apply_goals m xs now)
          (apply_goals-IsUntouched d.tag m xs now others)
          (direct_to-IsDirected n d now d.residency served)))
apply_goals-IsDirected n (x ∷ xs) now d (inr (other, later)) served =
    elim (Bool-cases (serves n.registry x.tag)) [
      | inl yes_ ↦ rw yes_ (
          apply_goals-IsDirected (direct_to n x now x.residency) xs now d later (
            serves-pinned n.registry (direct_to n x now x.residency).registry d.tag
              (direct_to-pinned n x now x.residency)
            ∙ served))
      | inr no_ ↦ rw no_ (apply_goals-IsDirected n xs now d later served)
    ]

store-pinned :
    (n : Node) (ds : List ModelDescriptor) → (store n ds).registry.pinned ≡ n.registry.pinned
unfolding store
store-pinned n [] = refl
store-pinned n (d ∷ ds) = store-pinned (store_one n d) ds

-- What a heartbeat response makes of a served model that it names once, whatever else it names and in
-- whatever order. For residency `process` the model's slot is loading, failed, or ready on the
-- devices that the response assigns; for `disk` and for no residency the model has no dispatch entry
-- and no slot but one that is loading and whose unload is put off. The drain flag is the response's,
-- whatever the node's was.
pub apply-IsDirected :
    (n : Node) (response : HeartbeatResponse) (now : ℕ) (d : ModelDescriptor)
    → NamesOnce d response.models
    → serves n.registry d.tag ≡ true
    → IsDirected d.residency d (apply n response now)
      × ((apply n response now).draining ≡ response.drain)
unfolding apply
apply-IsDirected n response now d h served =
    let m = apply_goals (store n response.models) (process_first response.models) now in
    let there : IsDirected d.residency d m =
      apply_goals-IsDirected (store n response.models) (process_first response.models) now d
        (process_first-NamesOnce d response.models h)
        (serves-pinned n.registry (store n response.models).registry d.tag
            (store-pinned n response.models)
          ∙ served) in
    elim (Bool-cases (same_flag response.drain m.draining)) [
      | inl same ↦ rw same (there, ground arith)
      | inr changed ↦ rw changed (
        IsDirected-same d.residency d m (set_draining_to m response.drain) (refl, refl, refl) there,
        refl,
      )
    ]
