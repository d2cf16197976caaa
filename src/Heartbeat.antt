-- ===== src/Heartbeat.antt =====
-- src/control/heartbeat.rs: `apply`, which turns the goals of one heartbeat response into calls of the
-- registry, the dispatcher and the cache tracker. The calls of one pass run one after the other at the
-- time `now`; an `unload` is awaited, and no other task changes the registry's map inside it. A policy and a key are numbers and texts of no further meaning.
pub mod Absent
pub mod Directed
pub mod Once
use muna_server.Base.{
  ℕ, ◌+◌, Bool, true, false, not, Option, none, some, List, [], ◌∷◌, ◌++◌, Text, text_eq, Map, get,
  insert, remove, filterb, ◌&&◌, ◌==◌, if◌then◌else◌,
}
use muna_server.Dispatch.{Dispatcher, remove_entry}
use muna_server.Cache.{CacheTracker, immediate, prefetch, ensure_cached, forget_failed}
use muna_server.Registry.{Devices, Registry, serves, engine_devices, unload, warm_reconcile}

pub data Residency : Type 0 where
  process disk no_residency : Residency

pub record ModelDescriptor : Type 0 where
  pub tag : Text
  pub residency : Residency
  pub key : Option Text
  pub devices : Option (List ℕ)
  pub policy : Option ℕ

pub record HeartbeatResponse : Type 0 where
  pub models : List ModelDescriptor
  pub drain : Bool

-- The state that a heartbeat acts on; the device assignments are those that the registry reads.
pub record Node : Type 0 where
  pub registry : Registry
  pub cache : CacheTracker
  pub dispatcher : Dispatcher
  pub keys : Map Text
  pub policies : Map ℕ
  pub draining : Bool

abbrev pub set_or_keep {ℓ} : {V : Type ℓ} → Map V → Text → Option V → Map V
set_or_keep m tag none = m
set_or_keep m tag (some v) = insert m tag v

abbrev pub set_or_remove {ℓ} : {V : Type ℓ} → Map V → Text → Option V → Map V
set_or_remove m tag none = remove m tag
set_or_remove m tag (some v) = insert m tag v

abbrev pub store_one : Node → ModelDescriptor → Node
store_one n d = record n {
  keys = set_or_keep n.keys d.tag d.key;
  registry = record (n.registry) {
    device_store = set_or_remove n.registry.device_store d.tag d.devices;
  };
  policies = set_or_remove n.policies d.tag d.policy;
}

-- The first loop of `apply`.
unfoldable pub store : Node → List ModelDescriptor → Node
store n [] = n
store n (d ∷ ds) = store (store_one n d) ds

abbrev pub is_process : ModelDescriptor → Bool
is_process d = elim d.residency [ process ↦ true | disk ↦ false | no_residency ↦ false ]

-- `process_first`
unfoldable pub process_first : List ModelDescriptor → List ModelDescriptor
process_first models = filterb is_process models ++ filterb (λ d. not (is_process d)) models

abbrev pub same_list : List ℕ → List ℕ → Bool
same_list [] [] = true
same_list [] (y ∷ ys) = false
same_list (x ∷ xs) [] = false
same_list (x ∷ xs) (y ∷ ys) = (x == y) && same_list xs ys

abbrev pub same_devices : Devices → Devices → Bool
same_devices none none = true
same_devices none (some ys) = false
same_devices (some xs) none = false
same_devices (some xs) (some ys) = same_list xs ys

abbrev pub evict : Node → Text → Node
evict n tag = record n {
  dispatcher = remove_entry n.dispatcher tag;
  registry = unload n.registry tag;
}

-- The engine is dropped when its devices are not the assigned ones.
unfoldable pub move_engine : Node → ModelDescriptor → Node
unfolding engine_devices unload remove_entry
move_engine n d = elim (engine_devices n.registry d.tag) [
  | none ↦ n
  | some current ↦ if same_devices current d.devices then n else evict n d.tag
]

unfoldable pub direct_to : Node → ModelDescriptor → ℕ → Residency → Node
unfolding move_engine warm_reconcile ensure_cached forget_failed unload remove_entry
direct_to n d now process =
    let m = move_engine n d in
    record m {
      registry = warm_reconcile m.registry d.tag now;
      cache = ensure_cached m.cache d.tag immediate now;
    }
direct_to n d now disk =
    let m = evict n d.tag in record m { cache = ensure_cached m.cache d.tag prefetch now }
direct_to n d now no_residency =
    let m = evict n d.tag in record m { cache = forget_failed m.cache d.tag }

-- The second loop of `apply`.
unfoldable pub apply_goals : Node → List ModelDescriptor → ℕ → Node
unfolding direct_to serves
apply_goals n [] now = n
apply_goals n (d ∷ ds) now =
    let m = if serves n.registry d.tag then direct_to n d now d.residency else n in
    apply_goals m ds now

abbrev pub same_flag : Bool → Bool → Bool
same_flag true b = b
same_flag false b = not b

-- `set_draining`, with its `status_changed`.
abbrev pub set_draining_to : Node → Bool → Node
set_draining_to n draining = record n {
  draining = draining;
  registry = record (n.registry) { notified = true };
}

unfoldable pub apply : Node → HeartbeatResponse → ℕ → Node
unfolding store apply_goals process_first
apply n response now =
    let m = apply_goals (store n response.models) (process_first response.models) now in
    if same_flag response.drain m.draining then m else set_draining_to m response.drain
