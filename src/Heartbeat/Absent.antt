-- ===== src/Heartbeat/Absent.antt =====
-- Proofs that a heartbeat leaves alone every model that it does not name (src/control/heartbeat.rs).
use muna_server.Base.{
  ℕ, ◌≡◌, refl, ◌∙◌, inl, inr, Bool, true, false, Option, none, some, List, [], ◌∷◌, Text, text_eq,
  Map, get, insert, remove, get-insert, get-remove, All, if◌then◌else◌, arith, Bool-cases,
  Option-cases,
}
use muna_server.Cache.{
  CacheTracker, CacheState, caching, cached, cache_failed, CachePriority, start_download,
  cached_state, ensure_cached, forget_failed, immediate, prefetch,
}
use muna_server.Dispatch.{remove_entry}
use muna_server.Registry.{
  Registry, Slot, serves, start_load, warm_state, warm, is_cooling, warm_reconcile, engine_devices,
  unload, put_off_unload, remove_slot,
}
use muna_server.Registry.Flight.{ModelState-cases}
use muna_server.Heartbeat.{
  Residency, process, disk, no_residency, ModelDescriptor, Node, same_devices, evict, move_engine,
  direct_to, apply_goals,
}

-- Operations on the tag `k` leave the slot of another tag `t` alone.
module _ (k t : Text) (ne : text_eq k t ≡ false) where
  start_load-other : (r : Registry) (now : ℕ) → get (start_load r k now).models t ≡ get r.models t
  unfolding start_load
  start_load-other r now = get-insert r.models k t _ ∙ rw ne refl

  remove-other : {V : Type 0} (m : Map V) → get (remove m k) t ≡ get m t
  remove-other m = get-remove m k t ∙ rw ne refl

  insert-other : {V : Type 0} (m : Map V) (v : V) → get (insert m k v) t ≡ get m t
  insert-other m v = get-insert m k t v ∙ rw ne refl

  put_off_unload-other : (r : Registry) → get (put_off_unload r k).0.models t ≡ get r.models t
  unfolding put_off_unload
  put_off_unload-other r = elim (Option-cases (get r.models k)) [
    | inl absent ↦ rw (absent, put_off_unload) refl
    | inr (slot, e) ↦ elim (ModelState-cases slot.state) [
      | inl (since, devices, s) ↦ rw (e, put_off_unload, s) (insert-other r.models _)
      | inr (inl (model, s)) ↦ rw (e, put_off_unload, s) refl
      | inr (inr (error, at, s)) ↦ rw (e, put_off_unload, s) refl
    ]
  ]

  remove_slot-other : (r : Registry) → get (remove_slot r k).models t ≡ get r.models t
  unfolding remove_slot
  remove_slot-other r = elim (Option-cases (get r.models k)) [
    | inl absent ↦ rw (absent, remove_slot) refl
    | inr (slot, e) ↦ elim (ModelState-cases slot.state) [
      | inl (since, devices, s) ↦ rw (e, remove_slot, s) (remove-other r.models)
      | inr (inl (model, s)) ↦ rw (e, remove_slot, s) (remove-other r.models)
      | inr (inr (error, at, s)) ↦ rw (e, remove_slot, s) (remove-other r.models)
    ]
  ]

  unload-other : (r : Registry) → get (unload r k).models t ≡ get r.models t
  unfolding unload
  unload-other r = ground (arith, put_off_unload-other r, remove_slot-other (put_off_unload r k).0)

  warm_state-other :
      (r : Registry) (now : ℕ) (o : Option Slot)
      → get (warm_state r k now o).models t ≡ get r.models t
  unfolding warm_state
  warm_state-other r now none = start_load-other r now
  warm_state-other r now (some slot) = elim (ModelState-cases slot.state) [
    | inl (since, devices, s) ↦ rw s refl
    | inr (inl (model, s)) ↦ rw s refl
    | inr (inr (error, at, s)) ↦
        rw s
          (start_load-other (record r { models = remove r.models k }) now ∙ remove-other r.models)
  ]

  warm_reconcile-other :
      (r : Registry) (now : ℕ) → get (warm_reconcile r k now).models t ≡ get r.models t
  unfolding warm_reconcile warm
  warm_reconcile-other r now = elim (Bool-cases (is_cooling (get r.models k) now)) [
    | inl cooling ↦ rw cooling refl
    | inr ripe ↦ elim (Bool-cases (serves r k)) [
      | inl yes_ ↦ rw (ripe, yes_) (warm_state-other r now (get r.models k))
      | inr no_ ↦ rw (ripe, no_) refl
    ]
  ]

  cached_state-other :
      (c : CacheTracker) (p : CachePriority) (now : ℕ) (o : Option CacheState)
      → get (cached_state c k p now o).states t ≡ get c.states t
  unfolding start_download
  cached_state-other c p now none = insert-other c.states caching
  cached_state-other c p now (some caching) = refl
  cached_state-other c p now (some cached) = refl
  cached_state-other c p now (some (cache_failed error at)) =
      ground (arith, insert-other c.states caching)

  forget_failed-other :
      (c : CacheTracker) (o : Option CacheState)
      → get c.states k ≡ o
      → get (forget_failed c k).states t ≡ get c.states t
  unfolding forget_failed
  forget_failed-other c none e = rw (e, forget_failed) refl
  forget_failed-other c (some caching) e = rw (e, forget_failed) refl
  forget_failed-other c (some cached) e = rw (e, forget_failed) refl
  forget_failed-other c (some (cache_failed error at)) e =
      rw (e, forget_failed) (remove-other c.states)

-- The tag `t` has the same slot, the same disk state and the same dispatch entry in both nodes.
abbrev pub IsUntouched : Text → Node → Node → Type 0
IsUntouched t n m =
    (get m.registry.models t ≡ get n.registry.models t)
    × (get m.cache.states t ≡ get n.cache.states t)
    × (get m.dispatcher.entries t ≡ get n.dispatcher.entries t)

IsUntouched-trans :
    (t : Text) (l m n : Node) → IsUntouched t l m → IsUntouched t m n → IsUntouched t l n
IsUntouched-trans t l m n (a, b, c) (d, e, f) = (d ∙ a, e ∙ b, f ∙ c)

if-IsUntouched :
    (t : Text) (l m n : Node) (b : Bool)
    → IsUntouched t l m
    → IsUntouched t l n
    → IsUntouched t l (if b then m else n)
if-IsUntouched t l m n true v w = v
if-IsUntouched t l m n false v w = w

module _ (t : Text) where
  evict-IsUntouched : (n : Node) (k : Text) → text_eq k t ≡ false → IsUntouched t n (evict n k)
  unfolding remove_entry
  evict-IsUntouched n k ne =
      (unload-other k t ne n.registry, refl, remove-other k t ne n.dispatcher.entries)

  move_engine-IsUntouched :
      (n : Node) (d : ModelDescriptor) → text_eq d.tag t ≡ false → IsUntouched t n (move_engine n d)
  unfolding move_engine
  move_engine-IsUntouched n d ne = elim (Option-cases (engine_devices n.registry d.tag)) [
    | inl absent ↦ rw (absent, move_engine) (refl, refl, refl)
    | inr (current, e) ↦
        rw (e, move_engine)
          (if-IsUntouched t n n (evict n d.tag) (same_devices current d.devices) (refl, refl, refl)
            (evict-IsUntouched n d.tag ne))
  ]

  direct_to-IsUntouched :
      (n : Node) (d : ModelDescriptor) (now : ℕ) (r : Residency)
      → text_eq d.tag t ≡ false
      → IsUntouched t n (direct_to n d now r)
  unfolding direct_to ensure_cached
  direct_to-IsUntouched n d now process ne =
      let m = move_engine n d in
      let (a, b, c) = move_engine-IsUntouched n d ne in
      (
        warm_reconcile-other d.tag t ne m.registry now ∙ a,
        cached_state-other d.tag t ne m.cache immediate now (get m.cache.states d.tag) ∙ b,
        c,
      )
  direct_to-IsUntouched n d now disk ne =
      let m = evict n d.tag in
      let (a, b, c) = evict-IsUntouched n d.tag ne in
      (a, cached_state-other d.tag t ne m.cache prefetch now (get m.cache.states d.tag) ∙ b, c)
  direct_to-IsUntouched n d now no_residency ne =
      let m = evict n d.tag in
      let (a, b, c) = evict-IsUntouched n d.tag ne in
      (a, forget_failed-other d.tag t ne m.cache (get m.cache.states d.tag) refl ∙ b, c)

  pub apply_goals-IsUntouched :
      (n : Node) (ds : List ModelDescriptor) (now : ℕ)
      → All (λ d. text_eq d.tag t ≡ false) ds
      → IsUntouched t n (apply_goals n ds now)
  unfolding apply_goals
  apply_goals-IsUntouched n [] now h = (refl, refl, refl)
  apply_goals-IsUntouched n (d ∷ ds) now h =
      IsUntouched-trans t n (if serves n.registry d.tag then direct_to n d now d.residency else n)
        (apply_goals (if serves n.registry d.tag then direct_to n d now d.residency else n) ds now)
        (if-IsUntouched t n (direct_to n d now d.residency) n (serves n.registry d.tag)
          (direct_to-IsUntouched n d now d.residency h.0) (refl, refl, refl))
        (apply_goals-IsUntouched
          (if serves n.registry d.tag then direct_to n d now d.residency else n) ds now h.1)
