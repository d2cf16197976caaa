-- ===== src/Node/Checkins.antt =====
-- Proofs about the check-ins with the Muna API (src/state.rs).
pub mod Due
use muna_server.Base.{
  ℕ, ◌+◌, ◌^◌, ◌≤◌, ◌<◌, ◌≡◌, refl, sym, ap, inl, inr, Bool, false, Option, none, some, List, [],
  ◌∷◌, Text, get, insert, text_eq, text_eq_refl, subst, text_eq_iff, get-insert, get-insert_self,
  ltb, if◌then◌else◌, ◌≢◌, ◌∙◌, arith, Bool-cases, Option-cases,
}
use muna_server.Registry.{Registry, ReadyModel}
use muna_server.Node.{
  AppState, checkin_interval_seconds, checkin_retry_seconds, saturating_add, due_checkin,
  note_checkin, check_in_if_due, mark_model_loaded,
}
use muna_server.Node.Checkins.Due.{
  after_ready, Arrival, api_calls, AreTimes, AreSpaced, none-ne-some, mark_other, check_in_other,
  mark_same, Quiet, IsQuiet, due_next,
}

-- A request of the model calls the API or not; either way the next call is an hour or more away
-- from the last.
abbrev Served : (ℕ → Text → Bool) → AppState → Registry → Text → ℕ → ℕ → Option ReadyModel → Type 0
Served api s r tag earliest now none = IsQuiet (after_ready api s r tag now) tag earliest now
Served api s r tag earliest now (some ready) =
    (earliest ≤ now) × IsQuiet (after_ready api s r tag now) tag (now + checkin_retry_seconds) now

no_call :
    (api : ℕ → Text → Bool) (s : AppState) (tag : Text) (now : ℕ)
    → due_checkin s tag now ≡ none
    → check_in_if_due api s tag now ≡ s
unfolding check_in_if_due
no_call api s tag now due = rw (check_in_if_due, due) refl

mark_first :
    (s : AppState) (tag : Text) (now : ℕ)
    → get s.runtime_checkins tag ≡ none
    → get (mark_model_loaded s tag now).runtime_checkins tag
      ≡ some (saturating_add now checkin_interval_seconds)
unfolding mark_model_loaded
mark_first s tag now e =
    rw (mark_model_loaded, e)
      (get-insert_self s.runtime_checkins tag (saturating_add now checkin_interval_seconds))

next_first :
    (api : ℕ → Text → Bool) (s : AppState) (r : Registry) (tag : Text) (now : ℕ)
    → due_checkin (record s { registry = r }) tag now ≡ none
    → get s.runtime_checkins tag ≡ none
    → get (after_ready api s r tag now).runtime_checkins tag
      ≡ some (saturating_add now checkin_interval_seconds)
next_first api s r tag now due e =
    let s' = record s { registry = r } in
    ap (λ q. get (mark_model_loaded q tag now).runtime_checkins tag) (no_call api s' tag now due)
    ∙ mark_first s' tag now e

next_idle :
    (api : ℕ → Text → Bool) (s : AppState) (r : Registry) (tag : Text) (now next : ℕ)
    → due_checkin (record s { registry = r }) tag now ≡ none
    → get s.runtime_checkins tag ≡ some next
    → get (after_ready api s r tag now).runtime_checkins tag ≡ some next
next_idle api s r tag now next due e =
    let s' = record s { registry = r } in
    ap (λ q. get (mark_model_loaded q tag now).runtime_checkins tag) (no_call api s' tag now due)
    ∙ ap (λ q. get q.runtime_checkins tag) (mark_same s' tag now next e)
    ∙ e

next_called :
    (api : ℕ → Text → Bool) (s : AppState) (r : Registry) (tag : Text) (now : ℕ)
    (ready : ReadyModel)
    → due_checkin (record s { registry = r }) tag now ≡ some ready
    → (delay : ℕ) × (checkin_retry_seconds ≤ delay)
      × (delay ≤ checkin_interval_seconds)
      × (get (after_ready api s r tag now).runtime_checkins tag ≡ some (saturating_add now delay))
unfolding check_in_if_due note_checkin
next_called api s r tag now ready due =
    let delay = if api ready.muna tag then checkin_interval_seconds else checkin_retry_seconds in
    let noted : get (insert s.runtime_checkins tag (saturating_add now delay)) tag
        ≡ some (saturating_add now delay) =
      get-insert_self s.runtime_checkins tag (saturating_add now delay) in
    (
      delay,
      ground arith,
      ground arith,
      rw (check_in_if_due, due)
          (rw
            (mark_same (note_checkin (record s { registry = r }) tag now (api ready.muna tag)) tag
              now (saturating_add now delay) noted)
            noted),
    )

called_late :
    (s : AppState) (r : Registry) (tag : Text) (earliest from now : ℕ) (ready : ReadyModel)
    → IsQuiet s tag earliest from
    → due_checkin (record s { registry = r }) tag now ≡ some ready
    → earliest ≤ now
unfolding due_checkin
called_late s r tag earliest from now ready quiet due =
    elim (Option-cases (get s.runtime_checkins tag)) [
      | inl e ↦ absurd (
          none-ne-some (due_checkin (record s { registry = r }) tag now) ready
            (rw (due_checkin, e) refl) due)
      | inr (next, e) ↦
          let late : earliest ≤ next = subst (λ o. Quiet o earliest from) e quiet in
          omega (arith, due_next (record s { registry = r }) tag now next ready e due)
    ]

after_own :
    (api : ℕ → Text → Bool) (s : AppState) (r : Registry) (tag : Text) (earliest from now : ℕ)
    (o : Option ReadyModel)
    → IsQuiet s tag earliest from
    → from ≤ now
    → now + checkin_interval_seconds < 2 ^ 64
    → due_checkin (record s { registry = r }) tag now ≡ o
    → Served api s r tag earliest now o
unfolding saturating_add
after_own api s r tag earliest from now none quiet le bound due =
    elim (Option-cases (get s.runtime_checkins tag)) [
      | inl e ↦
          let late : earliest ≤ from = subst (λ o. Quiet o earliest from) e quiet in
          subst (λ o. Quiet o earliest now) (sym (next_first api s r tag now due e)) (omega arith)
      | inr (next, e) ↦
          let late : earliest ≤ next = subst (λ o. Quiet o earliest from) e quiet in
          subst (λ o. Quiet o earliest now) (sym (next_idle api s r tag now next due e)) late
    ]
after_own api s r tag earliest from now (some ready) quiet le bound due =
    let (delay, least, most, noted) = next_called api s r tag now ready due in
    (
      called_late s r tag earliest from now ready quiet due,
      subst (λ o. Quiet o (now + checkin_retry_seconds) now) (sym noted) (omega arith),
    )

Quiet-later :
    (o : Option ℕ) (earliest from now : ℕ)
    → from ≤ now
    → Quiet o earliest from
    → Quiet o earliest now
Quiet-later none earliest from now le quiet = omega arith
Quiet-later (some next) earliest from now le quiet = quiet

Quiet-start : (o : Option ℕ) → Quiet o 0 0
Quiet-start none = omega arith
Quiet-start (some next) = omega arith

IsQuiet-other :
    (api : ℕ → Text → Bool) (s : AppState) (r : Registry) (model tag : Text) (earliest from now : ℕ)
    → text_eq model tag ≡ false
    → from ≤ now
    → IsQuiet s tag earliest from
    → IsQuiet (after_ready api s r model now) tag earliest now
IsQuiet-other api s r model tag earliest from now other le quiet =
    let kept =
      mark_other (check_in_if_due api (record s { registry = r }) model now) model tag now other
      ∙ check_in_other api (record s { registry = r }) model tag now other in
    subst (λ o. Quiet o earliest now) (sym kept)
      (Quiet-later (get s.runtime_checkins tag) earliest from now le quiet)

calls_spaced :
    (api : ℕ → Text → Bool) (s : AppState) (tag : Text) (earliest from : ℕ)
    (arrivals : List Arrival)
    → IsQuiet s tag earliest from
    → AreTimes from arrivals
    → AreSpaced earliest (api_calls api s tag arrivals)
calls_spaced api s tag earliest from [] quiet h = tt
calls_spaced api s tag earliest from ((r, model, now) ∷ later) quiet (le, bound, h) =
    elim (Bool-cases (text_eq model tag)) [
      | inr other ↦ rw other (
          calls_spaced api (after_ready api s r model now) tag earliest now later
            (IsQuiet-other api s r model tag earliest from now other le quiet) h)
      | inl same ↦
          subst (λ m. AreSpaced earliest (api_calls api s tag ((r, m, now) ∷ later)))
            (sym ((text_eq_iff model tag).0 same))
            (elim (Option-cases (due_checkin (record s { registry = r }) tag now)) [
              | inl idle ↦
                  rw (text_eq_refl tag, idle)
                    (calls_spaced api (after_ready api s r tag now) tag earliest now later
                      (after_own api s r tag earliest from now none quiet le bound idle) h)
              | inr (ready, due) ↦
                  let own =
                    after_own api s r tag earliest from now (some ready) quiet le bound due in
                  rw (text_eq_refl tag, due)
                    (
                      own.0,
                      calls_spaced api (after_ready api s r tag now) tag
                          (now + checkin_retry_seconds) now later own.1 h,
                    )
            ])
    ]

-- Of requests that come one after the other, so that no check-in of one overlaps the next request
-- (two that overlap may both find the check-in due and both call): whatever the API answers and
-- however the registry changes between them, the requests that the handlers serve for a model call the
-- API for it, through a loaded engine, never twice within an hour, as long as the clock does not go
-- back and is 12 hours short of 2^64 seconds.
pub api_calls-AreSpaced :
    (api : ℕ → Text → Bool) (s : AppState) (tag : Text) (arrivals : List Arrival)
    → AreTimes 0 arrivals
    → AreSpaced 0 (api_calls api s tag arrivals)
api_calls-AreSpaced api s tag arrivals h =
    calls_spaced api s tag 0 0 arrivals (Quiet-start (get s.runtime_checkins tag)) h
