-- ===== src/Relay/Supervisor/Scan/Steps.antt =====
-- Proofs about the retained tasks and one visit of a tag (src/control/kv_relay.rs).
use muna_server.Base.{
  suc, ◌≡◌, refl, ap, ◌∙◌, subst, inl, inr, Bool, true, false, not, ◌&&◌, ◌||◌, Option, none, some,
  List, [], ◌∷◌, Text, text_eq, text_eq_iff, text_eq_refl, Map, get, insert, get-insert,
  get-insert_self, contains_key, filterb, IsMap, if◌then◌else◌, Bool-cases, Option-cases, arith,
}
use muna_server.Batch.{contains}
use muna_server.Relay.Supervisor.{RelayTask, Supervisor, retain_tasks, visit}

-- What a scan keeps of the task of a tag.
abbrev pub kept_task : Bool → (RelayTask → Bool) → Option RelayTask → Option RelayTask
kept_task is_ready is_finished none = none
kept_task is_ready is_finished (some task) =
    if is_ready && not (is_finished task) then some task else none

pub retain_tasks-get :
    (ready : List Text) (is_finished : RelayTask → Bool) (tasks : Map RelayTask) (tag : Text)
    → IsMap tasks
    → get (retain_tasks ready is_finished tasks).0 tag
      ≡ kept_task (contains ready tag) is_finished (get tasks tag)
unfolding retain_tasks get
retain_tasks-get ready is_finished [] tag h = refl
retain_tasks-get ready is_finished ((k, task) ∷ tasks) tag (fresh, h) =
    elim (Bool-cases (text_eq k tag)) [
      | inr other ↦ ground (arith, retain_tasks-get ready is_finished tasks tag h)
      | inl same ↦
          let at_key : k ≡ tag = (text_eq_iff k tag).0 same in
          let absent : get (retain_tasks ready is_finished tasks).0 tag ≡ none =
            retain_tasks-get ready is_finished tasks tag h
            ∙ ap (kept_task (contains ready tag) is_finished)
                (subst (λ j. get tasks j ≡ none) at_key fresh) in
          ground (arith, absent, ap (contains ready) at_key)
    ]

pub filterb-contains :
    (ready tags : List Text) (tag : Text)
    → contains (filterb (contains ready) tags) tag ≡ (contains ready tag && contains tags tag)
unfolding contains
filterb-contains ready [] tag = ground arith
filterb-contains ready (t ∷ tags) tag = ground (
  arith,
  filterb-contains ready tags tag,
  λ (same : text_eq t tag ≡ true). ap (contains ready) ((text_eq_iff t tag).0 same),
)

-- A tag that a scan has nothing to do for: it has a task, or it is known not to be routed.
abbrev pub is_settled : Supervisor → Text → Bool
is_settled s tag = contains_key s.tasks tag || contains s.not_kv_routed tag

abbrev pub Same : Supervisor → Supervisor → Text → Type 0
Same s s' tag =
    (get s'.tasks tag ≡ get s.tasks tag)
    × (contains s'.not_kv_routed tag ≡ contains s.not_kv_routed tag)

abbrev pub Decided : Bool → Option Text → Supervisor → Supervisor → Text → Type 0
Decided true found s s' tag = Same s s' tag
Decided false none s s' tag = (get s'.tasks tag ≡ none) × (contains s'.not_kv_routed tag ≡ true)
Decided false (some endpoint) s s' tag =
    (task : RelayTask) × (get s'.tasks tag ≡ some task)
    × (task.endpoint ≡ endpoint)
    × (contains s'.not_kv_routed tag ≡ false)

-- What `visit` makes of a tag that is not settled.
abbrev pub unrouted : Supervisor → Text → Supervisor
unrouted s tag = record s { not_kv_routed = tag ∷ s.not_kv_routed }

abbrev pub task_for : Supervisor → Text → RelayTask
task_for s endpoint = record { id = s.spawned; endpoint = endpoint }

abbrev pub attached : Supervisor → Text → Text → Supervisor
attached s tag endpoint = record s {
  tasks = insert s.tasks tag (task_for s endpoint);
  spawned = suc s.spawned;
}

pub visit-settled :
    (discover : Text → Option Text) (s : Supervisor) (tag : Text)
    → is_settled s tag ≡ true
    → visit discover s tag ≡ s
unfolding visit
visit-settled discover s tag settled = rw (visit, settled) refl

pub visit-unrouted :
    (discover : Text → Option Text) (s : Supervisor) (tag : Text)
    → is_settled s tag ≡ false
    → discover tag ≡ none
    → visit discover s tag ≡ unrouted s tag
unfolding visit
visit-unrouted discover s tag new e = rw (visit, new, e) refl

pub visit-attached :
    (discover : Text → Option Text) (s : Supervisor) (tag endpoint : Text)
    → is_settled s tag ≡ false
    → discover tag ≡ some endpoint
    → visit discover s tag ≡ attached s tag endpoint
unfolding visit
visit-attached discover s tag endpoint new e = rw (visit, new, e) refl

pub Same-refl : (s s' : Supervisor) (tag : Text) → s' ≡ s → Same s s' tag
Same-refl s s' tag e = (ap (λ q. get q.tasks tag) e, ap (λ q. contains q.not_kv_routed tag) e)

pub visit-other :
    (discover : Text → Option Text) (s : Supervisor) (k tag : Text)
    → text_eq k tag ≡ false
    → Same s (visit discover s k) tag
unfolding contains
visit-other discover s k tag other = elim (Bool-cases (is_settled s k)) [
  | inl settled ↦ Same-refl s (visit discover s k) tag (visit-settled discover s k settled)
  | inr new ↦ elim (Option-cases (discover k)) [
    | inl e ↦
        let same =
          Same-refl (unrouted s k) (visit discover s k) tag (visit-unrouted discover s k new e) in
        (same.0, same.1 ∙ rw other refl)
    | inr (endpoint, e) ↦
        let same =
          Same-refl (attached s k endpoint) (visit discover s k) tag
            (visit-attached discover s k endpoint new e) in
        (same.0 ∙ get-insert s.tasks k tag (task_for s endpoint) ∙ rw other refl, same.1)
  ]
]

pub no_task :
    (s : Supervisor) (tag : Text)
    → is_settled s tag ≡ false
    → (get s.tasks tag ≡ none) × (contains s.not_kv_routed tag ≡ false)
unfolding contains_key
no_task s tag new = ground arith

pub visit-new :
    (discover : Text → Option Text) (s : Supervisor) (tag : Text)
    → is_settled s tag ≡ false
    → Decided false (discover tag) s (visit discover s tag) tag
      × (is_settled (visit discover s tag) tag ≡ true)
unfolding contains contains_key
visit-new discover s tag new = elim (Option-cases (discover tag)) [
  | inl e ↦
      let same =
        Same-refl (unrouted s tag) (visit discover s tag) tag
          (visit-unrouted discover s tag new e) in
      let noted : contains (visit discover s tag).not_kv_routed tag ≡ true =
        same.1 ∙ rw (text_eq_refl tag) refl in
      (rw e (same.0 ∙ (no_task s tag new).0, noted), ground arith)
  | inr (endpoint, e) ↦
      let same =
        Same-refl (attached s tag endpoint) (visit discover s tag) tag
          (visit-attached discover s tag endpoint new e) in
      let spawned = same.0 ∙ get-insert_self s.tasks tag (task_for s endpoint) in
      (rw e (task_for s endpoint, spawned, refl, same.1 ∙ (no_task s tag new).1), ground arith)
]
