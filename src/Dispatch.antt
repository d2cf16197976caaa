-- ===== src/Dispatch.antt =====
-- src/serving/dispatch/mod.rs: the routing of predictions through each model's batch plan. A lock is
-- known by its number; an accumulator is known by the lock that it takes around each flush.
pub mod Locks
use muna_server.Base.{
  ℕ, ◌+◌, Bool, true, false, Option, none, some, List, [], ◌∷◌, Text, Map, get, insert, remove,
  contains_key, if◌then◌else◌,
}
use muna_server.Batch.{BatchPlan, sequential, buffered, continuous}

pub data Entry : Type 0 where
  sequential_entry : (lock : ℕ) → Entry
  buffered_entry : (lock : ℕ) → Entry
  continuous_entry : Entry

-- `fresh` is the number of the next lock.
pub record Dispatcher : Type 0 where
  pub entries : Map Entry
  pub fresh : ℕ

abbrev pub new_dispatcher : Dispatcher
new_dispatcher = record { entries = []; fresh = 0 }

unfoldable pub new_entry : BatchPlan → ℕ → Entry
new_entry sequential lock = sequential_entry lock
new_entry (buffered params capacity) lock = buffered_entry lock
new_entry continuous lock = continuous_entry

unfoldable pub ensure_entry : Dispatcher → Text → BatchPlan → Dispatcher
unfolding new_entry contains_key
ensure_entry d tag plan =
    if contains_key d.entries tag
    then d
    else record { entries = insert d.entries tag (new_entry plan d.fresh); fresh = d.fresh + 1 }

-- How `create` runs a prediction; `no_entry` is the panic of its `expect`.
pub data Route : Type 0 where
  direct : Route
  locked : (lock : ℕ) → Route
  queued : (accumulator : ℕ) → Route
  no_entry : Route

abbrev pub route_of : Option Entry → Route
route_of none = no_entry
route_of (some (sequential_entry lock)) = locked lock
route_of (some (buffered_entry lock)) = queued lock
route_of (some continuous_entry) = direct

-- `create`, up to the choice of the route.
unfoldable pub create : Dispatcher → Text → BatchPlan → Dispatcher × Route
unfolding ensure_entry
create d tag plan = let e = ensure_entry d tag plan in (e, route_of (get e.entries tag))

abbrev pub lock_of : Option Entry → Option ℕ
lock_of none = none
lock_of (some (sequential_entry lock)) = some lock
lock_of (some (buffered_entry lock)) = some lock
lock_of (some continuous_entry) = none

-- `acquire`, up to the wait for the lock.
unfoldable pub acquire : Dispatcher → Text → BatchPlan → Dispatcher × Option ℕ
unfolding ensure_entry
acquire d tag plan = let e = ensure_entry d tag plan in (e, lock_of (get e.entries tag))

unfoldable pub remove_entry : Dispatcher → Text → Dispatcher
remove_entry d tag = record d { entries = remove d.entries tag }

pub data Step (d : Dispatcher) : Dispatcher → Type 0 where
  creates : (tag : Text) (plan : BatchPlan) → Step d (create d tag plan).0
  acquires : (tag : Text) (plan : BatchPlan) → Step d (acquire d tag plan).0
  removes : (tag : Text) → Step d (remove_entry d tag)

pub data Reach : Dispatcher → Type 0 where
  here : Reach new_dispatcher
  next : {d e : Dispatcher} → Reach d → Step d e → Reach e
