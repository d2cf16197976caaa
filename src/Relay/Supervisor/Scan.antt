-- ===== src/Relay/Supervisor/Scan.antt =====
-- Proofs about a scan of the relay supervisor (src/control/kv_relay.rs).
pub mod Steps
pub mod Visits
use muna_server.Base.{
  ℕ, suc, ◌≡◌, refl, sym, ap, ◌∙◌, subst, inl, inr, Bool, true, false, not, ◌&&◌, ◌||◌, Option,
  none, some, List, [], ◌∷◌, ◌++◌, Text, text_eq, text_eq_iff, text_eq_refl, Map, get, insert,
  get-insert, get-insert_self, contains_key, filterb, Any, ◌↔◌, IsMap, if◌then◌else◌, Bool-cases,
  Option-cases, arith,
}
use muna_server.Batch.{contains}
use muna_server.Relay.Supervisor.{RelayTask, Supervisor, retain_tasks, visit, visit_all, scan}
use muna_server.Relay.Supervisor.Scan.Steps.{
  kept_task, retain_tasks-get, filterb-contains, is_settled, Same, Decided, unrouted, task_for,
  attached, visit-settled, visit-unrouted, visit-attached, Same-refl, visit-other, no_task,
  visit-new,
}
use muna_server.Relay.Supervisor.Scan.Visits.{
  Same-trans, Same-settled, visit_all-settled, Decided-Same, Decided-before, visit_all-Decided,
  visit_all-absent,
}

-- What a scan leaves of a tag: whether it is ready, the task that is kept of it, whether it was
-- known not to be routed, and the endpoint that its sidecar gives.
abbrev pub Watched : Bool → Option RelayTask → Bool → Option Text → Supervisor → Text → Type 0
Watched false kept unrouted found s' tag =
    (get s'.tasks tag ≡ none) × (contains s'.not_kv_routed tag ≡ false)
Watched true (some task) unrouted found s' tag =
    (get s'.tasks tag ≡ some task) × (contains s'.not_kv_routed tag ≡ unrouted)
Watched true none true found s' tag =
    (get s'.tasks tag ≡ none) × (contains s'.not_kv_routed tag ≡ true)
Watched true none false none s' tag =
    (get s'.tasks tag ≡ none) × (contains s'.not_kv_routed tag ≡ true)
Watched true none false (some endpoint) s' tag =
    (task : RelayTask) × (get s'.tasks tag ≡ some task)
    × (task.endpoint ≡ endpoint)
    × (contains s'.not_kv_routed tag ≡ false)

ready_Watched :
    (discover : Text → Option Text) (s : Supervisor) (tags : List Text) (tag : Text)
    (kept : Option RelayTask) (unrouted : Bool) (found : Option Text)
    → get s.tasks tag ≡ kept
    → contains s.not_kv_routed tag ≡ unrouted
    → discover tag ≡ found
    → contains tags tag ≡ true
    → Watched true kept unrouted found (visit_all discover s tags) tag
unfolding contains_key
ready_Watched discover s tags tag (some task) unrouted found e f g h =
    let same = visit_all-settled discover s tags tag (ground arith) in (same.0 ∙ e, same.1 ∙ f)
ready_Watched discover s tags tag none true found e f g h =
    let same = visit_all-settled discover s tags tag (ground arith) in (same.0 ∙ e, same.1 ∙ f)
ready_Watched discover s tags tag none false none e f g h =
    subst (λ o. Decided false o s (visit_all discover s tags) tag) g
      (visit_all-Decided discover s tags tag (ground arith) h)
ready_Watched discover s tags tag none false (some endpoint) e f g h =
    subst (λ o. Decided false o s (visit_all discover s tags) tag) g
      (visit_all-Decided discover s tags tag (ground arith) h)

none_kept :
    (is_finished : RelayTask → Bool) (o : Option RelayTask) (b : Bool)
    → b ≡ false
    → kept_task b is_finished o ≡ none
none_kept is_finished none b e = refl
none_kept is_finished (some task) b e = rw e refl

scan_each :
    (discover : Text → Option Text) (is_finished : RelayTask → Bool) (s : Supervisor)
    (ready : List Text) (tag : Text)
    → IsMap s.tasks
    → Watched
        (contains ready tag)
        (kept_task (contains ready tag) is_finished (get s.tasks tag))
        (contains s.not_kv_routed tag)
        (discover tag)
        (scan discover is_finished s ready)
        tag
unfolding scan
scan_each discover is_finished s ready tag h =
    let retained = retain_tasks ready is_finished s.tasks in
    let start = record s {
      tasks = retained.0;
      cancelled = retained.1 ++ s.cancelled;
      not_kv_routed = filterb (contains ready) s.not_kv_routed;
    } in
    let kept = retain_tasks-get ready is_finished s.tasks tag h in
    let known = filterb-contains ready s.not_kv_routed tag in
    elim (Bool-cases (contains ready tag)) [
      | inl live ↦
          subst
            (λ b.
              Watched b (kept_task b is_finished (get s.tasks tag)) (contains s.not_kv_routed tag)
                (discover tag) (visit_all discover start ready) tag)
            (sym live)
            (ready_Watched discover start ready tag (kept_task true is_finished (get s.tasks tag))
              (contains s.not_kv_routed tag) (discover tag) (rw live at kept) (known ∙ rw live refl)
              refl live)
      | inr gone ↦
          let same = visit_all-absent discover start ready tag gone in
          subst
            (λ b.
              Watched b (kept_task b is_finished (get s.tasks tag)) (contains s.not_kv_routed tag)
                (discover tag) (visit_all discover start ready) tag)
            (sym gone)
            (
              same.0 ∙ kept ∙ none_kept is_finished (get s.tasks tag) (contains ready tag) gone,
              same.1 ∙ known ∙ rw gone refl,
            )
    ]

-- What a scan cancels.
abbrev pub Cancelled : List Text → Map RelayTask → List RelayTask → List RelayTask → Type 0
Cancelled ready tasks before after =
    (cancelled : List RelayTask) × (after ≡ cancelled ++ before)
    × ((task : RelayTask)
        → Any (λ t. t ≡ task) cancelled
          ↔ Any (λ e. (contains ready e.0 ≡ false) × (e.1 ≡ task)) tasks)

retain_tasks-cancelled :
    (ready : List Text) (is_finished : RelayTask → Bool) (tasks : Map RelayTask) (task : RelayTask)
    → Any (λ t. t ≡ task) (retain_tasks ready is_finished tasks).1
      ↔ Any (λ e. (contains ready e.0 ≡ false) × (e.1 ≡ task)) tasks
unfolding retain_tasks
retain_tasks-cancelled ready is_finished [] task = (λ h. h, λ h. h)
retain_tasks-cancelled ready is_finished ((tag, t) ∷ tasks) task =
    let rest = retain_tasks-cancelled ready is_finished tasks task in
    elim (Bool-cases (contains ready tag)) [
      | inr gone ↦ rw gone (
        (λ h. elim h [ inl e ↦ inl (refl, e) | inr later ↦ inr (rest.0 later) ]),
        (λ h. elim h [ inl e ↦ inl e.1 | inr later ↦ inr (rest.1 later) ]),
      )
      | inl live ↦ elim (Bool-cases (is_finished t)) [
        | inl over ↦
            rw (live, over)
              (
                (λ h. inr (rest.0 h)),
                (λ h. elim h [ inl e ↦ absurd (cc) | inr later ↦ rest.1 later ]),
              )
        | inr runs ↦
            rw (live, runs)
              (
                (λ h. inr (rest.0 h)),
                (λ h. elim h [ inl e ↦ absurd (cc) | inr later ↦ rest.1 later ]),
              )
      ]
    ]

visit_all-cancelled :
    (discover : Text → Option Text) (s : Supervisor) (tags : List Text)
    → (visit_all discover s tags).cancelled ≡ s.cancelled
unfolding visit_all visit
visit_all-cancelled discover s [] = refl
visit_all-cancelled discover s (tag ∷ tags) =
    visit_all-cancelled discover (visit discover s tag) tags ∙ ground arith

-- One scan, whatever the order in which it visits the ready tags. The tasks whose tag is not ready,
-- and no others, are cancelled. A tag that is not ready has no relay task afterwards and is forgotten
-- as not routed. A ready tag keeps its task while that runs; else, unless it is known not to be routed,
-- its sidecar is asked: an endpoint gives a task for that endpoint, and none marks the tag as not
-- routed.
pub scan-Watched :
    (discover : Text → Option Text) (is_finished : RelayTask → Bool) (s : Supervisor)
    (ready : List Text) (tag : Text)
    → IsMap s.tasks
    → Cancelled ready s.tasks s.cancelled (scan discover is_finished s ready).cancelled
      × Watched
          (contains ready tag)
          (kept_task (contains ready tag) is_finished (get s.tasks tag))
          (contains s.not_kv_routed tag)
          (discover tag)
          (scan discover is_finished s ready)
          tag
unfolding scan
scan-Watched discover is_finished s ready tag h =
    let retained = retain_tasks ready is_finished s.tasks in
    (
      (
        retained.1,
        visit_all-cancelled discover
            (record s {
              tasks = retained.0;
              cancelled = retained.1 ++ s.cancelled;
              not_kv_routed = filterb (contains ready) s.not_kv_routed;
            })
            ready,
        retain_tasks-cancelled ready is_finished s.tasks,
      ),
      scan_each discover is_finished s ready tag h,
    )
