-- ===== src/Registry/Readers.antt =====
-- Proofs about the readers of the registry's map (src/serving/registry.rs).
use muna_server.Base.{
  ℕ, ◌≡◌, refl, ap, ◌∙◌, subst, inl, inr, Bool, true, false, Option, none, some, List, [], ◌∷◌,
  Text, text_eq, text_eq_iff, Map, get, IsMap, Bool-cases, Option-cases,
}
use muna_server.Batch.{contains}
use muna_server.Registry.{
  ReadyModel, loading, ready, failed, Slot, Registry, tags_in, ready_tags, ready_model,
}
use muna_server.Registry.Tasks.{Reach}
use muna_server.Registry.Flight.{ModelState-cases}
use muna_server.Registry.Single.{Reach-IsSingle}

-- Whether the slot holds a ready model.
abbrev pub is_ready : Option Slot → Bool
is_ready none = false
is_ready (some slot) = elim slot.state [
  | ready model ↦ true
  | loading since devices ↦ false
  | failed error at ↦ false
]

contains-tags_in :
    (models : Map Slot) (tag : Text)
    → IsMap models
    → contains (tags_in models) tag ≡ is_ready (get models tag)
unfolding contains get
contains-tags_in [] tag h = refl
contains-tags_in ((k, slot) ∷ models) tag h =
    let ih = contains-tags_in models tag h.1 in
    elim (Bool-cases (text_eq k tag)) [
      | inl same ↦
          let absent : get models tag ≡ none =
            subst (λ j. get models j ≡ none) ((text_eq_iff k tag).0 same) h.0 in
          let z : contains (tags_in models) tag ≡ false = ih ∙ ap is_ready absent in
          elim (ModelState-cases slot.state) [
            | inl (since, devices, s) ↦ rw (same, s) z
            | inr (inl (model, s)) ↦ rw (same, s, same) refl
            | inr (inr (error, at, s)) ↦ rw (same, s) z
          ]
      | inr other_ ↦ elim (ModelState-cases slot.state) [
        | inl (since, devices, s) ↦ rw (other_, s) ih
        | inr (inl (model, s)) ↦ rw (other_, s, other_) ih
        | inr (inr (error, at, s)) ↦ rw (other_, s) ih
      ]
    ]

abbrev pub is_some : Option ReadyModel → Bool
is_some none = false
is_some (some model) = true

is_some-ready_model :
    (r : Registry) (tag : Text) → is_ready (get r.models tag) ≡ is_some (ready_model r tag)
unfolding ready_model
is_some-ready_model r tag = elim (Option-cases (get r.models tag)) [
  | inl absent ↦ rw (absent, ready_model) refl
  | inr (slot, e) ↦ elim (ModelState-cases slot.state) [
    | inl (since, devices, s) ↦ rw (e, ready_model, s) refl
    | inr (inl (model, s)) ↦ rw (e, ready_model, s) refl
    | inr (inr (error, at, s)) ↦ rw (e, ready_model, s) refl
  ]
]

-- In every reachable registry in which no `unload` has removed a loading slot, `ready_tags` names a tag exactly when `ready` returns a model for it.
pub ready_tags-ready_model :
    {device_store : Map (List ℕ)} {pinned : Option (List Text)} {r : Registry} (tag : Text)
    → Reach device_store pinned r
    → r.lost ≡ []
    → contains (ready_tags r) tag ≡ is_some (ready_model r tag)
unfolding ready_tags
ready_tags-ready_model {r = r} tag v h =
    contains-tags_in r.models tag (Reach-IsSingle v h).distinct ∙ is_some-ready_model r tag
