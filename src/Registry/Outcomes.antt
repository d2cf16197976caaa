-- ===== src/Registry/Outcomes.antt =====
-- Proofs about what callers of `ensure_ready` are told (src/serving/registry.rs).
use muna_server.Base.{
  ℕ, ◌≤◌, max, ◌≡◌, refl, inl, inr, ◌⊎◌, ◌<◌, remove, true, false, Option, none, some, Text, get,
  leb→le, arith, leb, Bool-cases,
}
use muna_server.Registry.{
  failed, Slot, still_loading, load_failed, not_served, Registry, Attempt, answers, fails, waits,
  serves, retry_after, start_load, attempt_state, attempt, ready_model,
}
use muna_server.Registry.Flight.{ModelState-cases, loading_in}

-- What each result of a round of `ensure_ready` says of the registry before and after it.
abbrev pub Outcome : Registry → Text → ℕ → ℕ → Registry → Attempt → Type 0
Outcome r tag deadline now s (answers model) =
    (serves r tag ≡ true) × (ready_model r tag ≡ some model) × s ≡ r
Outcome r tag deadline now s (fails error) = elim error [
  | still_loading seconds ↦
      (serves r tag ≡ true)
      × (5 ≤ seconds)
      × (seconds ≤ max r.last_load_secs 5)
      × (deadline ≤ now)
      × (loading_in (get r.models tag) ≡ 1)
      × s ≡ r
  | load_failed message ↦
      (serves r tag ≡ true)
      × (slot : Slot) × (at : ℕ) × (get r.models tag ≡ some slot)
      × (slot.state ≡ failed message at)
      × s ≡ record r { models = remove r.models tag }
  | not_served name ↦ (serves r tag ≡ false) × (name ≡ tag) × s ≡ r
]
Outcome r tag deadline now s waits =
    (serves r tag ≡ true)
    × (((get r.models tag ≡ none) × s ≡ start_load r tag now)
        ⊎ ((loading_in (get r.models tag) ≡ 1) × (now < deadline) × s ≡ r))

pub retry_after-bounds :
    (r : Registry) (since now : ℕ)
    → (5 ≤ retry_after r since now) × (retry_after r since now ≤ max r.last_load_secs 5)
unfolding retry_after
retry_after-bounds r since now = (omega arith, omega arith)

attempt_state-Outcome :
    (r : Registry) (tag : Text) (deadline now : ℕ) (o : Option Slot)
    → get r.models tag ≡ o
    → serves r tag ≡ true
    → Outcome r tag deadline now
        (attempt_state r tag deadline now o).0
        (attempt_state r tag deadline now o).1
unfolding attempt_state start_load ready_model
attempt_state-Outcome r tag deadline now none e v = (v, inl (e, refl))
attempt_state-Outcome r tag deadline now (some slot) e v = elim (ModelState-cases slot.state) [
  | inl (since, devices, s) ↦ elim (Bool-cases (leb deadline now)) [
    | inl late ↦
        rw (s, late)
          (
            v,
            (retry_after-bounds r since now).0,
            (retry_after-bounds r since now).1,
            leb→le deadline now late,
            rw e (rw s refl),
            refl,
          )
    | inr early ↦ rw (s, early) (v, inr (rw e (rw s refl), ground arith, refl))
  ]
  | inr (inl (model, s)) ↦ rw s (v, rw (e, ready_model, s) refl, refl)
  | inr (inr (error, at, s)) ↦ rw s (v, slot, at, e, s, refl)
]

-- Each round of `ensure_ready` tells the truth, and it refuses a tag exactly if the tag is not served.
-- For a served tag it answers with the ready model of the tag; it reports a load in progress only
-- past the deadline, with a retry time from 5 seconds to the last load's time; it reports a failure
-- with the message that the tag's failed slot has, and clears that slot; and it waits only when it
-- has found no slot and started a load, or has found a load in progress before the deadline.
-- Nothing else changes the registry.
pub attempt-Outcome :
    (r : Registry) (tag : Text) (deadline now : ℕ)
    → Outcome r tag deadline now (attempt r tag deadline now).0 (attempt r tag deadline now).1
unfolding attempt
attempt-Outcome r tag deadline now = elim (Bool-cases (serves r tag)) [
  | inl yes_ ↦ rw yes_ (attempt_state-Outcome r tag deadline now (get r.models tag) refl yes_)
  | inr no_ ↦ rw no_ (no_, refl, refl)
]
