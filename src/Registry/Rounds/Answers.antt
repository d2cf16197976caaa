-- ===== src/Registry/Rounds/Answers.antt =====
-- Proofs about the answers of `ensure_ready` (src/serving/registry.rs).
use muna_server.Base.{
  ℕ, ◌≤◌, ◌≡◌, ◌⊎◌, max, inl, inr, true, false, Option, none, some, List, [], ◌∷◌, Text, get,
  remove, if◌then◌else◌, Option-cases, Bool-cases, Any, Result, ok, err, subst, sym, ap, refl, ◌∙◌,
}
use muna_server.Registry.{
  Registry, ReadyModel, failed, Slot, RegistryError, still_loading, load_failed, not_served,
  Attempt, answers, fails, waits, serves, ready_model, attempt, after_timeout,
}
use muna_server.Registry.Flight.{ModelState-cases, loading_in}
use muna_server.Registry.Outcomes.{Outcome, attempt-Outcome, retry_after-bounds}
use muna_server.Registry.Rounds.{Wait, ensure_ready}

-- The caller is past its deadline.
abbrev pub IsLate : ℕ → ℕ → List Wait → Type 0
IsLate deadline now waits_ =
    (deadline ≤ now) ⊎ Any (λ w. (w.timed_out ≡ true) ⊎ (deadline ≤ w.now)) waits_

-- What an answer of `ensure_ready` says of the registry at that time; `late` is said of an answer
-- that a load is in progress.
abbrev pub Told : Text → Type 0 → Registry → Result ReadyModel RegistryError → Type 0
Told tag late s (ok model) = (serves s tag ≡ true) × (ready_model s tag ≡ some model)
Told tag late s (err error) = elim error [
  | still_loading seconds ↦
      late
      × (5 ≤ seconds)
      × (seconds ≤ max s.last_load_secs 5)
      × (loading_in (get s.models tag) ≡ 1)
  | load_failed message ↦
      (q : Registry) × (slot : Slot) × (at : ℕ) × (serves q tag ≡ true)
      × (get q.models tag ≡ some slot)
      × (slot.state ≡ failed message at)
      × s ≡ record q { models = remove q.models tag }
  | not_served name ↦ (serves s tag ≡ false) × (name ≡ tag)
]

abbrev pub IsTold : Text → Type 0 → Option (Registry × Result ReadyModel RegistryError) → Type 0
IsTold tag late none = Unit
IsTold tag late (some (s, result)) = Told tag late s result

Told-later :
    (tag : Text) (early late : Type 0) (s : Registry) (result : Result ReadyModel RegistryError)
    → (early → late)
    → Told tag early s result
    → Told tag late s result
Told-later tag early late s (ok model) f h = h
Told-later tag early late s (err (still_loading seconds)) f (l, least, most, held) =
    (f l, least, most, held)
Told-later tag early late s (err (load_failed message)) f h = h
Told-later tag early late s (err (not_served name)) f h = h

IsTold-later :
    (tag : Text) (early late : Type 0) (o : Option (Registry × Result ReadyModel RegistryError))
    → (early → late)
    → IsTold tag early o
    → IsTold tag late o
IsTold-later tag early late none f h = tt
IsTold-later tag early late (some (s, result)) f h = Told-later tag early late s result f h

round_answer :
    (r : Registry) (tag : Text) (deadline now : ℕ) (late : Type 0) (s : Registry) (a : Attempt)
    (more : Option (Registry × Result ReadyModel RegistryError))
    → (deadline ≤ now → late)
    → Outcome r tag deadline now s a
    → IsTold tag late more
    → IsTold tag late (elim a [
      | answers model ↦ some (s, ok model)
      | fails error ↦ some (s, err error)
      | waits ↦ more
    ])
round_answer r tag deadline now late s (answers model) more l (served, found, same) t =
    subst (λ q. (serves q tag ≡ true) × (ready_model q tag ≡ some model)) (sym same) (served, found)
round_answer r tag deadline now late s (fails (still_loading seconds)) more l
      (served, least, most, past, held, same) t =
    subst
      (λ q.
        late
        × (5 ≤ seconds)
        × (seconds ≤ max q.last_load_secs 5)
        × (loading_in (get q.models tag) ≡ 1))
      (sym same) (l past, least, most, held)
round_answer r tag deadline now late s (fails (load_failed message)) more l
      (served, slot, at, found, state, same) t =
    (r, slot, at, served, found, state, same)
round_answer r tag deadline now late s (fails (not_served name)) more l (served, named, same) t =
    (ap (λ q. serves q tag) same ∙ served, named)
round_answer r tag deadline now late s waits more l h t = t

wait_answer :
    (wait : Wait) (tag : Text) (late : Type 0)
    (again : Option (Registry × Result ReadyModel RegistryError))
    → (wait.timed_out ≡ true → late)
    → IsTold tag late again
    → IsTold tag late (
        if wait.timed_out
        then elim (after_timeout wait.registry tag wait.now) [
          | some error ↦ some (wait.registry, err error)
          | none ↦ again
        ]
        else again)
unfolding after_timeout
wait_answer wait tag late again l t = elim (Bool-cases wait.timed_out) [
  | inr early ↦ rw early t
  | inl past ↦ elim (Option-cases (get wait.registry.models tag)) [
    | inl absent ↦ rw (past, after_timeout, absent) t
    | inr (slot, e) ↦ elim (ModelState-cases slot.state) [
      | inl (since, devices, s) ↦
          let bounds = retry_after-bounds wait.registry since wait.now in
          rw (past, after_timeout, e, s) (l past, bounds.0, bounds.1, rw e (rw s refl))
      | inr (inl (model, s)) ↦ rw (past, after_timeout, e, s) t
      | inr (inr (error, at, s)) ↦ rw (past, after_timeout, e, s) t
    ]
  ]
]

-- Whatever other tasks do between the rounds, an answer of `ensure_ready` is true of the registry at
-- that time: a ready model is the tag's, which is served; a load in progress is reported only to a
-- caller that is past its deadline, while the tag's slot is loading, with a retry time from 5 seconds
-- to the last load's time; a failure is that of the tag's slot, which the answer clears; and a tag is
-- refused only if it is not served.
pub ensure_ready-IsTold :
    (r : Registry) (tag : Text) (deadline now : ℕ) (waits_ : List Wait)
    → IsTold tag (IsLate deadline now waits_) (ensure_ready r tag deadline now waits_)
unfolding ensure_ready
ensure_ready-IsTold r tag deadline now [] =
    round_answer r tag deadline now (IsLate deadline now []) (attempt r tag deadline now).0
      (attempt r tag deadline now).1 none (λ l. inl l) (attempt-Outcome r tag deadline now) tt
ensure_ready-IsTold r tag deadline now (wait ∷ more) =
    let again = ensure_ready wait.registry tag deadline wait.now more in
    let late = IsLate deadline now (wait ∷ more) in
    round_answer r tag deadline now late (attempt r tag deadline now).0
      (attempt r tag deadline now).1
      (if wait.timed_out
        then elim (after_timeout wait.registry tag wait.now) [
          | some error ↦ some (wait.registry, err error)
          | none ↦ again
        ]
        else again)
      (λ l. inl l) (attempt-Outcome r tag deadline now)
      (wait_answer wait tag late again (λ past. inr (inl (inl past)))
        (IsTold-later tag (IsLate deadline wait.now more) late again
          (λ l. elim l [ inl now_ ↦ inr (inl (inr now_)) | inr later ↦ inr (inr later) ])
          (ensure_ready-IsTold wait.registry tag deadline wait.now more)))
