-- ===== src/Registry/Handles/Weights.antt =====
-- Proofs about the operations of the registry: no handle of an engine is lost (src/serving/registry.rs).
use muna_server.Base.{
  ℕ, ◌+◌, ◌≡◌, refl, subst, inl, inr, true, false, Option, none, some, [], ◌∷◌, Text, text_eq,
  text_eq_iff, Map, get, insert, remove, get-remove, text_eq_refl, IsMap, arith, leb, Option-cases,
  Bool-cases, sum_by,
}
use muna_server.Registry.{
  loading, ready, failed, Slot, Registry, serves, start_load, attempt_state, attempt, warm_state,
  warm, warm_reconcile, is_cooling, put_off_unload, begin_unload, remove_slot,
}
use muna_server.Registry.Flight.{ModelState-cases}

-- The handle that a slot holds, weighed, and those of a map of slots.
abbrev pub weight_of : (ℕ → ℕ) → Option Slot → ℕ
weight_of g none = 0
weight_of g (some slot) = elim slot.state [
  | ready model ↦ g model.muna
  | loading since devices ↦ 0
  | failed error at ↦ 0
]

abbrev pub weights : (ℕ → ℕ) → Map Slot → ℕ
weights g [] = 0
weights g ((tag, slot) ∷ models) = weight_of g (some slot) + weights g models

abbrev pub IsKept : (ℕ → ℕ) → Registry → Type 0
IsKept g r = sum_by g r.owned ≡ sum_by g r.deleted + weights g r.models

pub weights-insert :
    (g : ℕ → ℕ) (models : Map Slot) (tag : Text) (slot : Slot)
    → weights g (insert models tag slot) + weight_of g (get models tag)
      ≡ weights g models + weight_of g (some slot)
unfolding insert get
weights-insert g [] tag slot = omega arith
weights-insert g ((k, p) ∷ models) tag slot = elim (Bool-cases (text_eq k tag)) [
  | inl same ↦ rw same (omega arith)
  | inr other ↦ rw other (omega (arith, weights-insert g models tag slot))
]

pub weights-remove :
    (g : ℕ → ℕ) (models : Map Slot) (tag : Text)
    → IsMap models
    → weights g (remove models tag) + weight_of g (get models tag) ≡ weights g models
unfolding remove get
weights-remove g [] tag h = omega arith
weights-remove g ((k, p) ∷ models) tag h = elim (Bool-cases (text_eq k tag)) [
  | inl same ↦
      let absent : get models tag ≡ none =
        subst (λ j. get models j ≡ none) ((text_eq_iff k tag).0 same) h.0 in
      let ih : weights g (remove models tag) + weight_of g none ≡ weights g models =
        rw absent at (weights-remove g models tag h.1) in
      rw same (omega arith)
  | inr other ↦ rw other (omega (arith, weights-remove g models tag h.1))
]

pub start_load-IsKept :
    (g : ℕ → ℕ) (r : Registry) (tag : Text) (now : ℕ)
    → weight_of g (get r.models tag) ≡ 0
    → IsKept g r
    → IsKept g (start_load r tag now)
unfolding start_load
start_load-IsKept g r tag now e v = omega (
  arith,
  weights-insert g r.models tag
      (record { state = loading now (get r.device_store tag); unload_requested = false }),
)

pub remove-IsKept :
    (g : ℕ → ℕ) (r : Registry) (tag : Text)
    → IsMap r.models
    → weight_of g (get r.models tag) ≡ 0
    → IsKept g r
    → IsKept g (record r { models = remove r.models tag })
remove-IsKept g r tag d e v = omega (arith, weights-remove g r.models tag d)

pub restart-IsKept :
    (g : ℕ → ℕ) (r : Registry) (tag : Text) (now : ℕ)
    → IsMap r.models
    → weight_of g (get r.models tag) ≡ 0
    → IsKept g r
    → IsKept g (start_load (record r { models = remove r.models tag }) tag now)
restart-IsKept g r tag now d e v =
    start_load-IsKept g (record r { models = remove r.models tag }) tag now
      (ground (arith, get-remove r.models tag tag, text_eq_refl tag)) (remove-IsKept g r tag d e v)

pub attempt_state-IsKept :
    (g : ℕ → ℕ) (r : Registry) (tag : Text) (deadline now : ℕ) (o : Option Slot)
    → get r.models tag ≡ o
    → IsMap r.models
    → IsKept g r
    → IsKept g (attempt_state r tag deadline now o).0
unfolding attempt_state
attempt_state-IsKept g r tag deadline now none e d v = start_load-IsKept g r tag now (rw e refl) v
attempt_state-IsKept g r tag deadline now (some slot) e d v = elim (ModelState-cases slot.state) [
  | inl (since, devices, s) ↦ elim (Bool-cases (leb deadline now)) [
    | inl late ↦ rw (s, late) v
    | inr early ↦ rw (s, early) v
  ]
  | inr (inl (model, s)) ↦ rw s v
  | inr (inr (error, at, s)) ↦ rw s (remove-IsKept g r tag d (rw e (rw s refl)) v)
]

pub attempt-IsKept :
    (g : ℕ → ℕ) (r : Registry) (tag : Text) (deadline now : ℕ)
    → IsMap r.models
    → IsKept g r
    → IsKept g (attempt r tag deadline now).0
unfolding attempt
attempt-IsKept g r tag deadline now d v = elim (Bool-cases (serves r tag)) [
  | inl yes_ ↦ rw yes_ (attempt_state-IsKept g r tag deadline now (get r.models tag) refl d v)
  | inr no_ ↦ rw no_ v
]

pub warm_state-IsKept :
    (g : ℕ → ℕ) (r : Registry) (tag : Text) (now : ℕ) (o : Option Slot)
    → get r.models tag ≡ o
    → IsMap r.models
    → IsKept g r
    → IsKept g (warm_state r tag now o)
unfolding warm_state
warm_state-IsKept g r tag now none e d v = start_load-IsKept g r tag now (rw e refl) v
warm_state-IsKept g r tag now (some slot) e d v = elim (ModelState-cases slot.state) [
  | inl (since, devices, s) ↦ rw s v
  | inr (inl (model, s)) ↦ rw s v
  | inr (inr (error, at, s)) ↦ rw s (restart-IsKept g r tag now d (rw e (rw s refl)) v)
]

pub warm-IsKept :
    (g : ℕ → ℕ) (r : Registry) (tag : Text) (now : ℕ)
    → IsMap r.models
    → IsKept g r
    → IsKept g (warm r tag now)
unfolding warm
warm-IsKept g r tag now d v = elim (Bool-cases (serves r tag)) [
  | inl yes_ ↦ rw yes_ (warm_state-IsKept g r tag now (get r.models tag) refl d v)
  | inr no_ ↦ rw no_ v
]

pub reconcile-IsKept :
    (g : ℕ → ℕ) (r : Registry) (tag : Text) (now : ℕ)
    → IsMap r.models
    → IsKept g r
    → IsKept g (warm_reconcile r tag now)
unfolding warm_reconcile
reconcile-IsKept g r tag now d v = elim (Bool-cases (is_cooling (get r.models tag) now)) [
  | inl cooling ↦ rw cooling v
  | inr ripe ↦ rw ripe (warm-IsKept g r tag now d v)
]

pub begin_unload-IsKept :
    (g : ℕ → ℕ) (r : Registry) (tag : Text)
    → IsMap r.models
    → IsKept g r
    → IsKept g (begin_unload r tag)
unfolding begin_unload put_off_unload
begin_unload-IsKept g r tag d v = elim (Option-cases (get r.models tag)) [
  | inl absent ↦ rw (absent, begin_unload, put_off_unload) v
  | inr (slot, e) ↦ elim (ModelState-cases slot.state) [
    | inl (since, devices, s) ↦
        let w0 : weight_of g (get r.models tag) ≡ 0 = rw e (rw s refl) in
        let w1 : weight_of g (some (record slot { unload_requested = true })) ≡ 0 = rw s refl in
        rw (e, begin_unload, put_off_unload, s)
          (omega (arith, weights-insert g r.models tag (record slot { unload_requested = true })))
    | inr (inl (model, s)) ↦ rw (e, begin_unload, put_off_unload, s) v
    | inr (inr (error, at, s)) ↦ rw (e, begin_unload, put_off_unload, s) v
  ]
]

pub remove_slot-IsKept :
    (g : ℕ → ℕ) (r : Registry) (tag : Text)
    → IsMap r.models
    → IsKept g r
    → IsKept g (remove_slot r tag)
unfolding remove_slot
remove_slot-IsKept g r tag d v = elim (Option-cases (get r.models tag)) [
  | inl absent ↦ rw (absent, remove_slot) v
  | inr (slot, e) ↦ elim (ModelState-cases slot.state) [
    | inl (since, devices, s) ↦
        rw (e, remove_slot, s) (remove-IsKept g r tag d (rw e (rw s refl)) v)
    | inr (inl (model, s)) ↦
        let h = rw (e, s) at (weights-remove g r.models tag d) in
        rw (e, remove_slot, s) (omega arith)
    | inr (inr (error, at, s)) ↦
        rw (e, remove_slot, s) (remove-IsKept g r tag d (rw e (rw s refl)) v)
  ]
]
