-- ===== src/Executor.antt =====
-- src/serving/predict.rs: `run` and `stream`, and who owns a model's dispatch guard. A guard is the
-- number of the model's lock, `none` for a continuous model.
pub mod Exclusive
use muna_server.Base.{
  ℕ, zero, suc, ◌+◌, ◌≡◌, Bool, true, false, not, ◌&&◌, Option, none, some, List, [], ◌∷◌, ◌++◌,
  Text, codes, sum_by, ◌==◌, if◌then◌else◌, Result, ok, err,
}
use muna_server.Worker.Flush.{MunaError, native}

abbrev pub Guard : Type 0
Guard = Option ℕ

-- What `run` returns to a caller that still waits: the task's result, or its panic.
unfoldable pub joined : {T : Type 0} → Result (Result T MunaError) Text → Result T MunaError
joined (ok result) = result
joined (err e) = err (native (codes "prediction task panicked: " ++ e))

-- The loop of `stream` over the items: `alive` sends succeed before the receiver is dropped.
unfoldable pub send_items : {T : Type 0} → List (Result T MunaError) → ℕ → List (Result T MunaError)
send_items [] alive = []
send_items (item ∷ items) zero = []
send_items (item ∷ items) (suc alive) = item ∷ send_items items alive

-- The messages that the receiver of `stream` gets from what the delegate returned.
unfoldable pub stream_messages :
    {T : Type 0} → Result (List (Result T MunaError)) MunaError → ℕ → List (Result T MunaError)
unfolding send_items
stream_messages (ok items) alive = send_items items alive
stream_messages (err e) zero = []
stream_messages (err e) (suc alive) = err e ∷ []

-- Where the closure on the blocking thread is. `invoking` is `block_on(op())` of `run`, and of
-- `stream` up to its stream; `producing` the loop of `stream`; `returned` the time between the end
-- of the native call and `drop(guard)`.
pub data Phase : Type 0 where
  invoking producing returned : Phase

-- `called` is the lock of the model that the closure invokes natively, `guard` what the closure owns;
-- `predicts` tells the predictions of the handlers from the registry's own calls of `run`, which warm,
-- look up and delete a model without a guard.
pub record BlockingTask : Type 0 where
  pub called : Guard
  pub guard : Guard
  pub predicts : Bool
  pub streams : Bool
  pub phase : Phase

-- What the native call does next: it returns a value (`run`) or a stream, it fails, it yields an
-- item, its stream ends.
pub data Native : Type 0 where
  returns fails yields ends : Native

unfoldable pub spawn : Guard → Bool → BlockingTask
spawn guard streams = record {
  called = guard;
  guard = guard;
  predicts = true;
  streams = streams;
  phase = invoking;
}

-- `run(None, ...)` of the registry, on the model of a lock.
unfoldable pub manage : Guard → BlockingTask
manage called = record {
  called = called;
  guard = none;
  predicts = false;
  streams = false;
  phase = invoking;
}

unfoldable pub advance : BlockingTask → Bool → Native → BlockingTask
advance task alive event = elim task.phase [
  | invoking ↦ elim event [
    | returns ↦ record task { phase = if task.streams then producing else returned }
    | fails ↦ record task { phase = returned }
    | yields ↦ task
    | ends ↦ task
  ]
  | producing ↦ elim event [
    | yields ↦ record task { phase = if alive then producing else returned }
    | ends ↦ record task { phase = returned }
    | returns ↦ task
    | fails ↦ task
  ]
  | returned ↦ task
]

-- `handlers` holds the guards of the handler futures that have acquired and not yet handed over.
pub record Pool : Type 0 where
  pub handlers : List Guard
  pub tasks : List BlockingTask

unfoldable pub owns : ℕ → Guard → ℕ
owns lock none = 0
owns lock (some other) = if other == lock then 1 else 0

unfoldable pub owners : ℕ → Pool → ℕ
unfolding owns
owners lock p = sum_by (owns lock) p.handlers + sum_by (λ t. owns lock t.guard) p.tasks

-- An `OwnedMutexGuard` is given out when no one else owns it; a continuous model needs none.
unfoldable pub can_acquire : Pool → Guard → Bool
unfolding owners
can_acquire p none = true
can_acquire p (some lock) = owners lock p == 0

pub data Step (p : Pool) : Pool → Type 0 where
  -- `Dispatcher::acquire` returns to a handler.
  acquires :
      (guard : Guard)
      → can_acquire p guard ≡ true
      → Step p (record p { handlers = guard ∷ p.handlers })
  -- The handler calls `run` or `stream`, which moves the guard into the closure.
  spawns :
      (before after : List Guard) (guard : Guard) (streams : Bool)
      → p.handlers ≡ before ++ guard ∷ after
      → Step p (record { handlers = before ++ after; tasks = spawn guard streams ∷ p.tasks })
  -- The client disconnects and the handler future is dropped, with the guard it still owns.
  drops :
      (before after : List Guard) (guard : Guard)
      → p.handlers ≡ before ++ guard ∷ after
      → Step p (record p { handlers = before ++ after })
  -- The registry calls `run` without a guard.
  manages : (called : Guard) → Step p (record p { tasks = manage called ∷ p.tasks })
  -- The blocking thread goes on; `alive` says whether the receiver still exists.
  advances :
      (before after : List BlockingTask) (task : BlockingTask) (alive : Bool) (event : Native)
      → p.tasks ≡ before ++ task ∷ after
      → Step p (record p { tasks = before ++ advance task alive event ∷ after })
  -- `drop(guard)` on the blocking thread.
  releases :
      (before after : List BlockingTask) (task : BlockingTask)
      → p.tasks ≡ before ++ task ∷ after
      → task.phase ≡ returned
      → Step p (record p { tasks = before ++ after })

pub data Reach : Pool → Type 0 where
  here : Reach (record { handlers = []; tasks = [] })
  next : {p q : Pool} → Reach p → Step p q → Reach q
