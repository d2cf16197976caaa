-- ===== src/Registry/Rounds.antt =====
-- The loop of `ensure_ready` (src/serving/registry.rs): its rounds, with what each wait ends in, and
-- the proof that it ends.
pub mod Answers
use muna_server.Base.{
  ℕ, ◌≡◌, ◌≢◌, sym, inl, inr, Bool, true, Option, none, some, List, [], ◌∷◌, Text, get,
  if◌then◌else◌, subst, Option-cases, Any, Result, ok, err, arith,
}
use muna_server.Registry.Flight.{ModelState-cases}
use muna_server.Registry.{
  Registry, ReadyModel, ModelState, loading, ready, failed, Slot, RegistryError, answers, fails,
  waits, attempt, attempt_state, after_timeout,
}

-- The end of one `timeout(remaining, waiter.changed())`: whether it timed out, and the registry and
-- the time at which the caller goes on. Other tasks may have changed the registry in any way.
pub record Wait : Type 0 where
  pub timed_out : Bool
  pub registry : Registry
  pub now : ℕ

-- The loop, over the ends of its waits: `none` if the caller waits once more than listed; else the
-- registry at the answer, and the answer.
unfoldable pub ensure_ready :
    Registry → Text → ℕ → ℕ → List Wait → Option (Registry × Result ReadyModel RegistryError)
unfolding attempt after_timeout
ensure_ready r tag deadline now [] =
    let round = attempt r tag deadline now in
    elim round.1 [
      | answers model ↦ some (round.0, ok model)
      | fails error ↦ some (round.0, err error)
      | waits ↦ none
    ]
ensure_ready r tag deadline now (wait ∷ more) =
    let again = ensure_ready wait.registry tag deadline wait.now more in
    let round = attempt r tag deadline now in
    elim round.1 [
      | answers model ↦ some (round.0, ok model)
      | fails error ↦ some (round.0, err error)
      | waits ↦
          if wait.timed_out
          then elim (after_timeout wait.registry tag wait.now) [
            | some error ↦ some (wait.registry, err error)
            | none ↦ again
          ]
          else again
    ]

abbrev IsEndState : Bool → ModelState → Type 0
IsEndState timed_out (loading since devices) = timed_out ≡ true
IsEndState timed_out (ready model) = Unit
IsEndState timed_out (failed error at) = Unit

-- The slot that the caller finds after a wait: its load has ended and the slot is still there, or
-- it is loading and the wait timed out.
abbrev IsEnd : Bool → Option Slot → Type 0
IsEnd timed_out none = ⊥
IsEnd timed_out (some slot) = IsEndState timed_out slot.state

abbrev pub Ends : Text → Wait → Type 0
Ends tag wait = IsEnd wait.timed_out (get wait.registry.models tag)

ensure_ready-ended :
    (r : Registry) (tag : Text) (deadline now : ℕ) (more : List Wait)
    → (attempt r tag deadline now).1 ≢ waits
    → ensure_ready r tag deadline now more ≢ none
unfolding ensure_ready
ensure_ready-ended r tag deadline now [] h = ground arith
ensure_ready-ended r tag deadline now (wait ∷ more) h = ground arith

-- The slot's load has ended.
abbrev IsSettled : ModelState → Type 0
IsSettled (loading since devices) = ⊥
IsSettled (ready model) = Unit
IsSettled (failed error at) = Unit

attempt-IsSettled :
    (r : Registry) (tag : Text) (deadline now : ℕ) (slot : Slot)
    → get r.models tag ≡ some slot
    → IsSettled slot.state
    → (attempt r tag deadline now).1 ≢ waits
unfolding attempt attempt_state
attempt-IsSettled r tag deadline now slot e h w = elim (ModelState-cases slot.state) [
  | inl (since, devices, s) ↦ absurd (subst IsSettled s h)
  | inr (inl (model, s)) ↦ ground arith
  | inr (inr (error, at, s)) ↦ ground arith
]

-- A wait that ends so: the loop goes on to an answer, or the timeout gives one.
after_wait :
    (wait : Wait) (tag : Text) (again : Option (Registry × Result ReadyModel RegistryError))
    (slot : Slot)
    → get wait.registry.models tag ≡ some slot
    → IsEnd wait.timed_out (some slot)
    → (IsSettled slot.state → again ≢ none)
    → (if wait.timed_out
        then elim (after_timeout wait.registry tag wait.now) [
          | some error ↦ some (wait.registry, err error)
          | none ↦ again
        ]
        else again)
      ≢ none
unfolding after_timeout
after_wait wait tag again slot e end go w = elim (ModelState-cases slot.state) [
  | inl (since, devices, s) ↦
      let late : wait.timed_out ≡ true = subst (IsEndState wait.timed_out) s end in ground arith
  | inr (inl (model, s)) ↦ let more = go (subst IsSettled (sym s) tt) in ground (arith, more)
  | inr (inr (error, at, s)) ↦ let more = go (subst IsSettled (sym s) tt) in ground (arith, more)
]

-- The rounds of `ensure_ready` end: whatever other tasks do to the registry, a caller gets an answer
-- at the latest at the first wait that leaves the tag a slot whose load has ended, or that times
-- out while the slot is loading.
pub ensure_ready-Ends :
    (r : Registry) (tag : Text) (deadline now : ℕ) (waits_ : List Wait)
    → Any (Ends tag) waits_
    → ensure_ready r tag deadline now waits_ ≢ none
unfolding ensure_ready
ensure_ready-Ends r tag deadline now [] h = absurd h
ensure_ready-Ends r tag deadline now (wait ∷ more) (inr later) =
    ground (arith, ensure_ready-Ends wait.registry tag deadline wait.now more later)
ensure_ready-Ends r tag deadline now (wait ∷ more) (inl end) =
    elim (Option-cases (get wait.registry.models tag)) [
      | inl e ↦ absurd (subst (IsEnd wait.timed_out) e end)
      | inr (slot, e) ↦
          let go =
            after_wait wait tag (ensure_ready wait.registry tag deadline wait.now more) slot e
              (subst (IsEnd wait.timed_out) e end)
              (λ h.
                ensure_ready-ended wait.registry tag deadline wait.now more
                  (attempt-IsSettled wait.registry tag deadline wait.now slot e h)) in
          ground (arith, go)
    ]
