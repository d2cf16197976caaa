-- ===== src/Status/Merged/Lookup.antt =====
-- Lookup and count in a list of model statuses (src/control/protocol.rs).
use muna_server.Base.{
  ℕ, ◌≡◌, refl, ◌∙◌, inl, inr, true, false, Option, none, some, List, [], ◌∷◌, ◌++◌, Text, text_eq,
  Map, if◌then◌else◌, sum_by, sum_by-append, Bool-cases, arith,
}
use muna_server.Registry.{Slot, ModelState, loading, ready, failed}
use muna_server.Cache.{CacheState, caching, cached, cache_failed}
use muna_server.Lease.{RegistrantStats}
use muna_server.Status.{ModelStatus, model_status, cache_status, empty_status, any_tag}

-- The first status of a tag, and how many there are.
abbrev pub find_status : List ModelStatus → Text → Option ModelStatus
find_status [] tag = none
find_status (status ∷ statuses) tag =
    let rest = find_status statuses tag in if text_eq status.tag tag then some status else rest

abbrev pub count_tag : List ModelStatus → Text → ℕ
count_tag statuses tag = sum_by (λ status. if text_eq status.tag tag then 1 else 0) statuses

-- What is to be reported of a tag: the registry's entry, else the cache's, else nothing.
abbrev pub cache_report : Text → Option CacheState → Option ModelStatus
cache_report tag none = none
cache_report tag (some state) = some (cache_status tag state)

abbrev pub report :
    Map RegistrantStats → ℕ → Text → Option Slot → Option CacheState → Option ModelStatus
report lease now tag none cache_entry = cache_report tag cache_entry
report lease now tag (some slot) cache_entry = some (model_status lease now (tag, slot.state))

pub model_status-tag :
    (lease : Map RegistrantStats) (now : ℕ) (tag : Text) (state : ModelState)
    → (model_status lease now (tag, state)).tag ≡ tag
unfolding model_status empty_status
model_status-tag lease now tag (loading since devices) = refl
model_status-tag lease now tag (ready model) = refl
model_status-tag lease now tag (failed error at) = refl

pub cache_status-tag : (tag : Text) (state : CacheState) → (cache_status tag state).tag ≡ tag
unfolding cache_status empty_status
cache_status-tag tag caching = refl
cache_status-tag tag cached = refl
cache_status-tag tag (cache_failed error at) = refl

-- The lookup and the count of what the list of statuses says of a tag.
abbrev pub Says : List ModelStatus → Text → Option ModelStatus → Type 0
Says statuses tag none = (find_status statuses tag ≡ none) × (count_tag statuses tag ≡ 0)
Says statuses tag (some status) =
    (find_status statuses tag ≡ some status) × (count_tag statuses tag ≡ 1)

pub Says-other :
    (status : ModelStatus) (statuses : List ModelStatus) (tag : Text) (o : Option ModelStatus)
    → text_eq status.tag tag ≡ false
    → Says statuses tag o
    → Says (status ∷ statuses) tag o
Says-other status statuses tag none other h = ground (arith, h.0, h.1)
Says-other status statuses tag (some s) other h = ground (arith, h.0, h.1)

pub Says-first :
    (status : ModelStatus) (statuses : List ModelStatus) (tag : Text)
    → text_eq status.tag tag ≡ true
    → Says statuses tag none
    → Says (status ∷ statuses) tag (some status)
Says-first status statuses tag same h = ground (arith, h.1)

pub find_status-append :
    (statuses later : List ModelStatus) (tag : Text)
    → find_status (statuses ++ later) tag
      ≡ (if any_tag statuses tag then find_status statuses tag else find_status later tag)
unfolding any_tag
find_status-append [] later tag = refl
find_status-append (status ∷ statuses) later tag =
    ground (arith, find_status-append statuses later tag)

pub any_tag-Says :
    (statuses : List ModelStatus) (tag : Text) (o : Option ModelStatus)
    → Says statuses tag o
    → any_tag statuses tag ≡ elim o [ none ↦ false | some s ↦ true ]
unfolding any_tag
any_tag-Says [] tag none h = refl
any_tag-Says [] tag (some s) h = cc
any_tag-Says (status ∷ statuses) tag none h =
    ground (arith, any_tag-Says statuses tag none, h.1, h.0)
any_tag-Says (status ∷ statuses) tag (some s) h = elim (Bool-cases (text_eq status.tag tag)) [
  | inl same ↦ ground arith
  | inr other ↦ ground (arith, any_tag-Says statuses tag (some s), h.0, h.1)
]

pub find_status-append_other :
    (status : ModelStatus) (statuses : List ModelStatus) (tag : Text)
    → text_eq status.tag tag ≡ false
    → find_status (statuses ++ status ∷ []) tag ≡ find_status statuses tag
find_status-append_other status [] tag other = rw other refl
find_status-append_other status (first ∷ statuses) tag other =
    ground (arith, find_status-append_other status statuses tag other)

pub Says-same :
    (statuses later : List ModelStatus) (tag : Text) (o : Option ModelStatus)
    → find_status later tag ≡ find_status statuses tag
    → count_tag later tag ≡ count_tag statuses tag
    → Says statuses tag o
    → Says later tag o
Says-same statuses later tag none e f h = (e ∙ h.0, f ∙ h.1)
Says-same statuses later tag (some s) e f h = (e ∙ h.0, f ∙ h.1)

pub Says-append_other :
    (status : ModelStatus) (statuses : List ModelStatus) (tag : Text) (o : Option ModelStatus)
    → text_eq status.tag tag ≡ false
    → Says statuses tag o
    → Says (statuses ++ status ∷ []) tag o
Says-append_other status statuses tag o other h =
    let found = find_status-append_other status statuses tag other in
    let counted = sum_by-append (λ x. if text_eq x.tag tag then 1 else 0) statuses (status ∷ []) in
    Says-same statuses (statuses ++ status ∷ []) tag o found (ground (arith, counted)) h

pub Says-last :
    (status : ModelStatus) (statuses : List ModelStatus) (tag : Text)
    → text_eq status.tag tag ≡ true
    → Says statuses tag none
    → Says (statuses ++ status ∷ []) tag (some status)
Says-last status statuses tag same h = (
  rw (find_status-append statuses (status ∷ []) tag, any_tag-Says statuses tag none h, same) refl,
  ground (arith, sum_by-append (λ x. if text_eq x.tag tag then 1 else 0) statuses (status ∷ [])),
)
