-- ===== src/Executor/Exclusive.antt =====
-- Proofs about the dispatch guard (src/serving/predict.rs).
use muna_server.Base.{
  All, All-append, All-append_left, All-append_right, subst, ℕ, ◌≤◌, ◌≡◌, refl, ap, Bool, true,
  ◌&&◌, false, none, some, List, [], ◌∷◌, sum_by, sum_by-removed, sum_by-replaced, ==_iff,
  if◌then◌else◌, arith,
}
use muna_server.Executor.{
  Phase, invoking, producing, returned, BlockingTask, Native, spawn, manage, advance, Pool, owns,
  owners, can_acquire, Step, acquires, spawns, drops, manages, advances, releases, Reach, here,
  next,
}

abbrev is_running : Phase → Bool
is_running invoking = true
is_running producing = true
is_running returned = false

-- The native calls of handlers that run with the model of a lock.
abbrev calls_of : ℕ → BlockingTask → ℕ
calls_of lock task = if is_running task.phase && task.predicts then owns lock task.called else 0

abbrev pub native_calls : ℕ → Pool → ℕ
native_calls lock p = sum_by (calls_of lock) p.tasks

advance-guard :
    (task : BlockingTask) (alive : Bool) (event : Native)
    → (advance task alive event).guard ≡ task.guard
unfolding advance
advance-guard task alive event = ground arith

Step-owners : (lock : ℕ) (p q : Pool) → Step p q → owners lock p ≤ 1 → owners lock q ≤ 1
unfolding owners owns can_acquire spawn manage
Step-owners lock p q (acquires none e) h = omega arith
Step-owners lock p q (acquires (some other) e) h = ground (arith, ==_iff (owners other p) 0)
Step-owners lock p q (spawns before after guard streams e) h =
    omega (arith, sum_by-removed (owns lock) p.handlers before after guard e)
Step-owners lock p q (drops before after guard e) h =
    omega (arith, sum_by-removed (owns lock) p.handlers before after guard e)
Step-owners lock p q (manages called) h = omega arith
Step-owners lock p q (advances before after task alive event e) h = omega (
  arith,
  sum_by-replaced (λ t. owns lock t.guard) p.tasks before after task (advance task alive event) e
      (ap (owns lock) (advance-guard task alive event)),
)
Step-owners lock p q (releases before after task e f) h =
    omega (arith, sum_by-removed (λ t. owns lock t.guard) p.tasks before after task e)

owners_le : (lock : ℕ) (p : Pool) → Reach p → owners lock p ≤ 1
unfolding owners
owners_le lock p here = omega arith
owners_le lock p (next r s) = Step-owners lock _ p s (owners_le lock _ r)

-- The closure of a prediction owns the guard of the model that it invokes.
abbrev OwnsCalled : BlockingTask → Type 0
OwnsCalled task = task.predicts ≡ true → task.called ≡ task.guard

advance-OwnsCalled :
    (task : BlockingTask) (alive : Bool) (event : Native)
    → OwnsCalled task
    → OwnsCalled (advance task alive event)
unfolding advance
advance-OwnsCalled task alive event h = ground arith

Step-OwnsCalled : (p q : Pool) → Step p q → All OwnsCalled p.tasks → All OwnsCalled q.tasks
unfolding spawn manage
Step-OwnsCalled p q (acquires guard e) h = h
Step-OwnsCalled p q (spawns before after guard streams e) h = (λ yes_. refl, h)
Step-OwnsCalled p q (manages called) h = ((λ yes_. absurd (cc)), h)
Step-OwnsCalled p q (drops before after guard e) h = h
Step-OwnsCalled p q (advances before after task alive event e) h =
    let there = subst (All OwnsCalled) e h in
    let later = All-append_right OwnsCalled before (task ∷ after) there in
    All-append OwnsCalled before (advance task alive event ∷ after)
      (All-append_left OwnsCalled before (task ∷ after) there)
      (advance-OwnsCalled task alive event later.0, later.1)
Step-OwnsCalled p q (releases before after task e f) h =
    let there = subst (All OwnsCalled) e h in
    All-append OwnsCalled before after (All-append_left OwnsCalled before (task ∷ after) there)
      (All-append_right OwnsCalled before (task ∷ after) there).1

Reach-OwnsCalled : (p : Pool) → Reach p → All OwnsCalled p.tasks
Reach-OwnsCalled p here = tt
Reach-OwnsCalled p (next r s) = Step-OwnsCalled _ p s (Reach-OwnsCalled _ r)

calls_le :
    (lock : ℕ) (tasks : List BlockingTask)
    → All OwnsCalled tasks
    → sum_by (calls_of lock) tasks ≤ sum_by (λ t. owns lock t.guard) tasks
calls_le lock [] h = omega arith
calls_le lock (task ∷ tasks) h =
    ground
      (arith, calls_le lock tasks h.1, λ (yes_ : task.predicts ≡ true). ap (owns lock) (h.0 yes_))

-- In every order of acquisitions, calls, lost clients, native events and releases: of the predictions
-- that handlers make natively with the model of one lock there is at most one, also when its caller is
-- gone, and while it runs no other handler can acquire the lock.
pub Reach-native_calls :
    (p : Pool) (lock : ℕ)
    → Reach p
    → (native_calls lock p ≤ 1) × (native_calls lock p ≡ 1 → can_acquire p (some lock) ≡ false)
unfolding owners can_acquire
Reach-native_calls p lock r =
    let below = calls_le lock p.tasks (Reach-OwnsCalled p r) in
    (omega (arith, below, owners_le lock p r), λ running. ground (arith, below))
