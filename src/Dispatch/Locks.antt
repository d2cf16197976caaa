-- ===== src/Dispatch/Locks.antt =====
-- Proofs about the invocation locks of the dispatcher (src/serving/dispatch/mod.rs).
use muna_server.Base.{
  ℕ, ◌+◌, ◌<◌, ◌≡◌, ◌≢◌, refl, sym, ap, ◌∙◌, ◌⊎◌, inl, inr, Option, none, some, Text, text_eq_iff,
  get, insert, contains_key, get-insert, get-insert_self, get-remove, arith, Option-cases,
}
use muna_server.Batch.{BatchPlan, sequential, buffered, continuous}
use muna_server.Dispatch.{
  Entry, sequential_entry, buffered_entry, continuous_entry, Dispatcher, new_entry, ensure_entry,
  Route, direct, locked, queued, no_entry, route_of, create, lock_of, acquire, remove_entry, Step,
  creates, acquires, removes, Reach, here, next,
}

-- What a plan asks for: no lock, the model's lock, or its accumulator, which takes the lock.
abbrev pub Agrees : Route → Option ℕ → Type 0
Agrees direct lock = lock ≡ none
Agrees (locked l) lock = lock ≡ some l
Agrees (queued l) lock = lock ≡ some l
Agrees no_entry lock = ⊥

route_of-lock_of : (o : Option Entry) → o ≢ none → Agrees (route_of o) (lock_of o)
route_of-lock_of none h = h refl
route_of-lock_of (some (sequential_entry l)) h = refl
route_of-lock_of (some (buffered_entry l)) h = refl
route_of-lock_of (some continuous_entry) h = refl

ensure_entry-cases :
    (d : Dispatcher) (tag : Text) (plan : BatchPlan)
    → ((get d.entries tag ≢ none) × (ensure_entry d tag plan ≡ d))
      ⊎ ((get d.entries tag ≡ none)
          × (ensure_entry d tag plan ≡ record {
            entries = insert d.entries tag (new_entry plan d.fresh);
            fresh = d.fresh + 1;
          }))
unfolding ensure_entry contains_key
ensure_entry-cases d tag plan = elim (Option-cases (get d.entries tag)) [
  | inl absent ↦ inr (absent, rw (absent, ensure_entry, contains_key) refl)
  | inr (e, found) ↦ inl (
    λ z. let w : some e ≡ none = sym found ∙ z in cc,
    rw (found, ensure_entry, contains_key) refl,
  )
]

ensure_entry-some :
    (d : Dispatcher) (tag : Text) (plan : BatchPlan)
    → get (ensure_entry d tag plan).entries tag ≢ none
ensure_entry-some d tag plan h = elim (ensure_entry-cases d tag plan) [
  | inl (found, e) ↦ found (sym (ap (λ x. get x.entries tag) e) ∙ h)
  | inr (absent, e) ↦
      let z : some (new_entry plan d.fresh) ≡ none =
        sym (get-insert_self d.entries tag _) ∙ (sym (ap (λ x. get x.entries tag) e) ∙ h) in
      cc
]

-- Once a model has an entry, `ensure_entry` changes nothing, whatever plan it is given.
ensure_entry-twice :
    (d : Dispatcher) (tag : Text) (plan again : BatchPlan)
    → ensure_entry (ensure_entry d tag plan) tag again ≡ ensure_entry d tag plan
ensure_entry-twice d tag plan again =
    elim (ensure_entry-cases (ensure_entry d tag plan) tag again) [
      | inl (found, e) ↦ e
      | inr (absent, e) ↦ absurd (ensure_entry-some d tag plan absent)
    ]

-- `create` never panics, and its route agrees with the lock that a later `acquire` of the same model
-- hands out: the same lock for a sequential plan, the lock that the accumulator takes for a buffered
-- one, and none for a continuous one.
pub create-acquire :
    (d : Dispatcher) (tag : Text) (plan again : BatchPlan)
    → Agrees (create d tag plan).1 (acquire (create d tag plan).0 tag again).1
unfolding create acquire
create-acquire d tag plan again =
    rw (ensure_entry-twice d tag plan again)
      (route_of-lock_of (get (ensure_entry d tag plan).entries tag) (ensure_entry-some d tag plan))

pub record Inv (d : Dispatcher) : Type 0 where
  pub below : (tag : Text) (l : ℕ) → lock_of (get d.entries tag) ≡ some l → l < d.fresh
  pub apart :
      (tag other_tag : Text) (l : ℕ)
      → lock_of (get d.entries tag) ≡ some l
      → lock_of (get d.entries other_tag) ≡ some l
      → tag ≡ other_tag

new_entry-lock_of :
    (plan : BatchPlan) (n l : ℕ) → lock_of (some (new_entry plan n)) ≡ some l → l ≡ n
unfolding new_entry
new_entry-lock_of sequential n l h = ground arith
new_entry-lock_of (buffered params capacity) n l h = ground arith
new_entry-lock_of continuous n l h = cc

ensure_entry-Inv :
    (d : Dispatcher) (tag : Text) (plan : BatchPlan) → Inv d → Inv (ensure_entry d tag plan)
ensure_entry-Inv d tag plan v = elim (ensure_entry-cases d tag plan) [
  | inl (found, e) ↦ rw e v
  | inr (absent, e) ↦ rw e (record {
    below = λ t l h. ground (
      arith,
      get-insert d.entries tag t (new_entry plan d.fresh),
      new_entry-lock_of plan d.fresh l,
      v.below t l,
    );
    apart = λ t u l h k. ground (
      arith,
      get-insert d.entries tag t (new_entry plan d.fresh),
      get-insert d.entries tag u (new_entry plan d.fresh),
      new_entry-lock_of plan d.fresh l,
      v.below t l,
      v.below u l,
      v.apart t u l,
      text_eq_iff tag t,
      text_eq_iff tag u,
    );
  })
]

remove_entry-Inv : (d : Dispatcher) (tag : Text) → Inv d → Inv (remove_entry d tag)
unfolding remove_entry
remove_entry-Inv d tag v = record {
  below = λ t l h. ground (arith, get-remove d.entries tag t, v.below t l);
  apart = λ t u l h k.
      ground (arith, get-remove d.entries tag t, get-remove d.entries tag u, v.apart t u l);
}

Step-Inv_locks : {d e : Dispatcher} → Step d e → Inv d → Inv e
unfolding create acquire
Step-Inv_locks {d} (creates tag plan) v = ensure_entry-Inv d tag plan v
Step-Inv_locks {d} (acquires tag plan) v = ensure_entry-Inv d tag plan v
Step-Inv_locks {d} (removes tag) v = remove_entry-Inv d tag v

Reach-Inv_locks : {d : Dispatcher} → Reach d → Inv d
unfolding get
Reach-Inv_locks here = record { below = λ tag l h. cc; apart = λ tag u l h k. cc }
Reach-Inv_locks (next before step) = Step-Inv_locks step (Reach-Inv_locks before)

-- In every reachable dispatcher, no two models share a lock, so one model never waits for another.
pub Reach-apart :
    {d : Dispatcher} (tag other_tag : Text) (l : ℕ)
    → Reach d
    → lock_of (get d.entries tag) ≡ some l
    → lock_of (get d.entries other_tag) ≡ some l
    → tag ≡ other_tag
Reach-apart tag other_tag l r h k = (Reach-Inv_locks r).apart tag other_tag l h k
