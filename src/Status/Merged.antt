-- ===== src/Status/Merged.antt =====
-- Proofs about the model statuses that a node reports (src/control/protocol.rs).
pub mod Lookup
use muna_server.Base.{
  ℕ, suc, ◌+◌, ◌≤◌, ◌≡◌, refl, sym, ap, ◌∙◌, inl, inr, Bool, true, false, ◌||◌, Option, none, some,
  List, [], ◌∷◌, ◌++◌, map, append-nil, Text, text_eq, text_eq_iff, text_eq_refl, Map, get,
  if◌then◌else◌, IsMap, sum_by, sum_by-append, Bool-cases, Option-cases, arith, subst,
}
use muna_server.Registry.{Slot, ModelState, loading, ready, failed, Registry, snapshot}
use muna_server.Cache.{CacheState, caching, cached, cache_failed, CacheTracker, cache_snapshot}
use muna_server.Lease.{RegistrantStats}
use muna_server.Status.{
  ModelStatus, model_status, cache_status, empty_status, any_tag, add_cached, collect_model_status,
}
use muna_server.Status.Merged.Lookup.{
  find_status, count_tag, cache_report, report, model_status-tag, cache_status-tag, Says,
  Says-other, Says-first, find_status-append, any_tag-Says, find_status-append_other, Says-same,
  Says-append_other, Says-last,
}

abbrev registry_report : Map RegistrantStats → ℕ → Text → Option Slot → Option ModelStatus
registry_report lease now tag none = none
registry_report lease now tag (some slot) = some (model_status lease now (tag, slot.state))

abbrev registry_list : Map RegistrantStats → ℕ → Map Slot → List ModelStatus
registry_list lease now models = map (model_status lease now) (map (λ e. (e.0, e.1.state)) models)

registry_statuses :
    (lease : Map RegistrantStats) (now : ℕ) (models : Map Slot) (tag : Text)
    → IsMap models
    → Says (registry_list lease now models) tag (registry_report lease now tag (get models tag))
unfolding get
registry_statuses lease now [] tag h = (refl, refl)
registry_statuses lease now ((k, slot) ∷ models) tag (fresh, h) =
    elim (Bool-cases (text_eq k tag)) [
      | inr other ↦ rw other (
          Says-other (model_status lease now (k, slot.state)) (registry_list lease now models) tag
            (registry_report lease now tag (get models tag))
            (rw (model_status-tag lease now k slot.state) other)
            (registry_statuses lease now models tag h))
      | inl same ↦
          let absent : get models tag ≡ none =
            subst (λ j. get models j ≡ none) ((text_eq_iff k tag).0 same) fresh in
          let none_later =
            subst (λ o. Says (registry_list lease now models) tag (registry_report lease now tag o))
              absent (registry_statuses lease now models tag h) in
          let at_key =
            Says-first (model_status lease now (k, slot.state)) (registry_list lease now models) tag
              (rw (model_status-tag lease now k slot.state) same) none_later in
          rw same (
            subst
              (λ j.
                Says (registry_list lease now ((k, slot) ∷ models)) tag
                  (some (model_status lease now (j, slot.state))))
              ((text_eq_iff k tag).0 same) at_key)
    ]

-- What stays of a report when the cache's entries are added.
abbrev or_cached : Option ModelStatus → Text → Option CacheState → Option ModelStatus
or_cached none tag cache_entry = cache_report tag cache_entry
or_cached (some status) tag cache_entry = some status

or_cached-twice :
    (o : Option ModelStatus) (tag : Text) (state : CacheState) (p : Option CacheState)
    → or_cached (or_cached o tag (some state)) tag p ≡ or_cached o tag (some state)
or_cached-twice none tag state p = refl
or_cached-twice (some s) tag state p = refl

abbrev push : List ModelStatus → Text → CacheState → List ModelStatus
push statuses k state =
    if any_tag statuses k then statuses else statuses ++ cache_status k state ∷ []

push-other :
    (statuses : List ModelStatus) (k tag : Text) (state : CacheState) (o : Option ModelStatus)
    → text_eq k tag ≡ false
    → Says statuses tag o
    → Says (push statuses k state) tag o
push-other statuses k tag state o other h = elim (Bool-cases (any_tag statuses k)) [
  | inl there ↦ rw there h
  | inr new ↦ rw new (
      Says-append_other (cache_status k state) statuses tag o (rw (cache_status-tag k state) other)
        h)
]

push-same :
    (statuses : List ModelStatus) (tag : Text) (state : CacheState) (o : Option ModelStatus)
    → Says statuses tag o
    → Says (push statuses tag state) tag (or_cached o tag (some state))
push-same statuses tag state none h = rw (any_tag-Says statuses tag none h) (
    Says-last (cache_status tag state) statuses tag
      (rw (cache_status-tag tag state) (text_eq_refl tag)) h)
push-same statuses tag state (some s) h = rw (any_tag-Says statuses tag (some s) h) h

add_cached-Says :
    (statuses : List ModelStatus) (states : Map CacheState) (tag : Text) (o : Option ModelStatus)
    → Says statuses tag o
    → Says (add_cached statuses states) tag (or_cached o tag (get states tag))
unfolding add_cached get
add_cached-Says statuses [] tag none h = h
add_cached-Says statuses [] tag (some s) h = h
add_cached-Says statuses ((k, state) ∷ states) tag o h = elim (Bool-cases (text_eq k tag)) [
  | inr other ↦ rw other (
      add_cached-Says (push statuses k state) states tag o
        (push-other statuses k tag state o other h))
  | inl same ↦ rw same (
      subst
        (λ j. Says (add_cached (push statuses j state) states) tag (or_cached o tag (some state)))
        (sym ((text_eq_iff k tag).0 same))
        (subst (λ r. Says (add_cached (push statuses tag state) states) tag r)
          (or_cached-twice o tag state (get states tag))
          (add_cached-Says (push statuses tag state) states tag (or_cached o tag (some state))
            (push-same statuses tag state o h))))
]

registry_first :
    (lease : Map RegistrantStats) (now : ℕ) (tag : Text) (o : Option Slot) (p : Option CacheState)
    → or_cached (registry_report lease now tag o) tag p ≡ report lease now tag o p
registry_first lease now tag none p = refl
registry_first lease now tag (some slot) p = refl

-- The models that a node reports, over any registry in which no tag stands twice: for every tag
-- there is one status if the registry or the cache knows the tag, and none otherwise, and the
-- status is the registry's where both know it.
pub collect_model_status-Says :
    (registry : Registry) (cache : CacheTracker) (lease : Map RegistrantStats) (now : ℕ)
    (tag : Text)
    → IsMap registry.models
    → Says
        (collect_model_status registry cache lease now)
        tag
        (report lease now tag (get registry.models tag) (get cache.states tag))
unfolding collect_model_status snapshot cache_snapshot
collect_model_status-Says registry cache lease now tag h =
    subst (λ r. Says (collect_model_status registry cache lease now) tag r)
      (registry_first lease now tag (get registry.models tag) (get cache.states tag))
      (add_cached-Says (registry_list lease now registry.models) cache.states tag
        (registry_report lease now tag (get registry.models tag))
        (registry_statuses lease now registry.models tag h))
