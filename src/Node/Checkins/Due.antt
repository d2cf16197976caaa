-- ===== src/Node/Checkins/Due.antt =====
-- Proofs about the calls of one request on the check-in times (src/state.rs).
use muna_server.Base.{
  ℕ, ◌+◌, ◌^◌, ◌≤◌, ◌<◌, ◌≡◌, refl, inl, inr, Bool, false, Option, none, some, List, [], ◌∷◌, Text,
  get, text_eq, get-insert, ltb, if◌then◌else◌, ◌≢◌, ◌∙◌, arith, Bool-cases, Option-cases,
}
use muna_server.Registry.{Registry, ReadyModel}
use muna_server.Node.{
  AppState, checkin_interval_seconds, checkin_retry_seconds, saturating_add, due_checkin,
  note_checkin, check_in_if_due, mark_model_loaded,
}

-- The two calls that every handler makes once its model is ready. The registry may have changed
-- between two requests; the calls only read it.
abbrev pub after_ready : (ℕ → Text → Bool) → AppState → Registry → Text → ℕ → AppState
after_ready api s r model now =
    mark_model_loaded (check_in_if_due api (record s { registry = r }) model now) model now

-- A request: the registry that it finds, its model, its time.
abbrev pub Arrival : Type 0
Arrival = Registry × Text × ℕ

-- The times at which the API was called for a model, in the order of the requests.
abbrev pub api_calls : (ℕ → Text → Bool) → AppState → Text → List Arrival → List ℕ
api_calls api s tag [] = []
api_calls api s tag ((r, model, now) ∷ later) =
    let rest = api_calls api (after_ready api s r model now) tag later in
    if text_eq model tag
    then elim (due_checkin (record s { registry = r }) model now) [
      | none ↦ rest
      | some ready ↦ now ∷ rest
    ]
    else rest

-- Times never go back, and the clock has not reached the last hour of 64 bits.
abbrev pub AreTimes : ℕ → List Arrival → Type 0
AreTimes from [] = Unit
AreTimes from ((r, model, now) ∷ later) =
    (from ≤ now) × (now + checkin_interval_seconds < 2 ^ 64) × AreTimes now later

-- Each call comes an hour or more after the one before it.
abbrev pub AreSpaced : ℕ → List ℕ → Type 0
AreSpaced earliest [] = Unit
AreSpaced earliest (t ∷ ts) = (earliest ≤ t) × AreSpaced (t + checkin_retry_seconds) ts

pub none-ne-some : (o : Option ReadyModel) (ready : ReadyModel) → o ≡ none → o ≢ some ready
none-ne-some o ready e f = cc

pub mark_other :
    (s : AppState) (model tag : Text) (now : ℕ)
    → text_eq model tag ≡ false
    → get (mark_model_loaded s model now).runtime_checkins tag ≡ get s.runtime_checkins tag
unfolding mark_model_loaded
mark_other s model tag now other = elim (Option-cases (get s.runtime_checkins model)) [
  | inr (next, e) ↦ rw (mark_model_loaded, e) refl
  | inl e ↦
      rw
        (
          mark_model_loaded,
          e,
          get-insert s.runtime_checkins model tag (saturating_add now checkin_interval_seconds),
          other,
        )
        refl
]

pub check_in_other :
    (api : ℕ → Text → Bool) (s : AppState) (model tag : Text) (now : ℕ)
    → text_eq model tag ≡ false
    → get (check_in_if_due api s model now).runtime_checkins tag ≡ get s.runtime_checkins tag
unfolding check_in_if_due note_checkin
check_in_other api s model tag now other = elim (Option-cases (due_checkin s model now)) [
  | inl e ↦ rw (check_in_if_due, e) refl
  | inr (ready, e) ↦
      rw (check_in_if_due, e) (get-insert s.runtime_checkins model tag _ ∙ rw other refl)
]

pub mark_same :
    (s : AppState) (tag : Text) (now next : ℕ)
    → get s.runtime_checkins tag ≡ some next
    → mark_model_loaded s tag now ≡ s
unfolding mark_model_loaded
mark_same s tag now next e = rw (mark_model_loaded, e) refl

-- No check-in before `earliest`: none is due, or there is none yet and the clock is past it.
abbrev pub Quiet : Option ℕ → ℕ → ℕ → Type 0
Quiet none earliest from = earliest ≤ from
Quiet (some next) earliest from = earliest ≤ next

abbrev pub IsQuiet : AppState → Text → ℕ → ℕ → Type 0
IsQuiet s tag earliest from = Quiet (get s.runtime_checkins tag) earliest from

pub due_next :
    (s : AppState) (tag : Text) (now next : ℕ) (ready : ReadyModel)
    → get s.runtime_checkins tag ≡ some next
    → due_checkin s tag now ≡ some ready
    → next ≤ now
unfolding due_checkin
due_next s tag now next ready e due = elim (Bool-cases (ltb now next)) [
  | inl early ↦
      absurd (none-ne-some (due_checkin s tag now) ready (rw (due_checkin, e, early) refl) due)
  | inr late ↦ ground arith
]
