-- ===== src/Relay/Supervisor/Scan/Visits.antt =====
-- Proofs about the loops of a scan of the relay supervisor (src/control/kv_relay.rs).
use muna_server.Base.{
  ◌≡◌, refl, sym, ◌∙◌, subst, inl, inr, Bool, true, false, Option, none, some, List, [], ◌∷◌, Text,
  text_eq, text_eq_iff, contains_key, Bool-cases, arith,
}
use muna_server.Batch.{contains}
use muna_server.Relay.Supervisor.{Supervisor, visit, visit_all}
use muna_server.Relay.Supervisor.Scan.Steps.{
  is_settled, Same, Decided, visit-settled, visit-other, visit-new,
}

pub Same-trans :
    (s s' s'' : Supervisor) (tag : Text) → Same s s' tag → Same s' s'' tag → Same s s'' tag
Same-trans s s' s'' tag h k = (k.0 ∙ h.0, k.1 ∙ h.1)

pub Same-settled :
    (s s' : Supervisor) (tag : Text) → Same s s' tag → is_settled s' tag ≡ is_settled s tag
unfolding contains_key
Same-settled s s' tag h = ground (arith, h.0, h.1)

pub visit_all-settled :
    (discover : Text → Option Text) (s : Supervisor) (tags : List Text) (tag : Text)
    → is_settled s tag ≡ true
    → Same s (visit_all discover s tags) tag
unfolding visit_all
visit_all-settled discover s [] tag settled = (refl, refl)
visit_all-settled discover s (k ∷ tags) tag settled = elim (Bool-cases (text_eq k tag)) [
  | inr other ↦
      let step = visit-other discover s k tag other in
      Same-trans s (visit discover s k) (visit_all discover (visit discover s k) tags) tag step (
        visit_all-settled discover (visit discover s k) tags tag
          (Same-settled s (visit discover s k) tag step ∙ settled))
  | inl same ↦
      let at_key : k ≡ tag = (text_eq_iff k tag).0 same in
      let idle =
        visit-settled discover s k (subst (λ j. is_settled s j ≡ true) (sym at_key) settled) in
      subst (λ q. Same s (visit_all discover q tags) tag) (sym idle)
        (visit_all-settled discover s tags tag settled)
]

pub Decided-Same :
    (b : Bool) (found : Option Text) (s s' s'' : Supervisor) (tag : Text)
    → Decided b found s s' tag
    → Same s' s'' tag
    → Decided b found s s'' tag
Decided-Same true found s s' s'' tag h k = Same-trans s s' s'' tag h k
Decided-Same false none s s' s'' tag h k = (k.0 ∙ h.0, k.1 ∙ h.1)
Decided-Same false (some endpoint) s s' s'' tag (task, e, f, g) k = (task, k.0 ∙ e, f, k.1 ∙ g)

pub Decided-before :
    (found : Option Text) (s s' s'' : Supervisor) (tag : Text)
    → Same s s' tag
    → Decided false found s' s'' tag
    → Decided false found s s'' tag
Decided-before none s s' s'' tag k h = h
Decided-before (some endpoint) s s' s'' tag k h = h

-- The tag is visited, whatever comes before and after it.
pub visit_all-Decided :
    (discover : Text → Option Text) (s : Supervisor) (tags : List Text) (tag : Text)
    → is_settled s tag ≡ false
    → contains tags tag ≡ true
    → Decided false (discover tag) s (visit_all discover s tags) tag
unfolding visit_all contains
visit_all-Decided discover s [] tag new h = cc
visit_all-Decided discover s (k ∷ tags) tag new h = elim (Bool-cases (text_eq k tag)) [
  | inr other ↦
      let step = visit-other discover s k tag other in
      Decided-before (discover tag) s (visit discover s k)
        (visit_all discover (visit discover s k) tags) tag step
        (visit_all-Decided discover (visit discover s k) tags tag
          (Same-settled s (visit discover s k) tag step ∙ new) (ground arith))
  | inl same ↦
      let decided = visit-new discover s tag new in
      subst (λ j. Decided false (discover tag) s (visit_all discover (visit discover s j) tags) tag)
        (sym ((text_eq_iff k tag).0 same))
        (Decided-Same false (discover tag) s (visit discover s tag)
          (visit_all discover (visit discover s tag) tags) tag decided.0
          (visit_all-settled discover (visit discover s tag) tags tag decided.1))
]

pub visit_all-absent :
    (discover : Text → Option Text) (s : Supervisor) (tags : List Text) (tag : Text)
    → contains tags tag ≡ false
    → Same s (visit_all discover s tags) tag
unfolding visit_all contains
visit_all-absent discover s [] tag h = (refl, refl)
visit_all-absent discover s (k ∷ tags) tag h =
    let other : text_eq k tag ≡ false = ground arith in
    Same-trans s (visit discover s k) (visit_all discover (visit discover s k) tags) tag
      (visit-other discover s k tag other)
      (visit_all-absent discover (visit discover s k) tags tag (ground arith))
