-- ===== src/Handlers/Admission/Order.antt =====
-- Proofs about the order of the checks in the inference handlers (src/handlers).
use muna_server.Base.{
  ℕ, ◌≡◌, refl, sym, ap, ◌∙◌, ◌⊎◌, inl, inr, Bool, true, false, Option, none, some, List, [], Text,
  get, get-insert_self, if◌then◌else◌, Result, ok, err, Option-cases, Result-cases,
}
use muna_server.Worker.Flush.{MunaError}
use muna_server.Registry.{Registry, ReadyModel, RegistryError, ready_model}
use muna_server.Registry.Rounds.{ensure_ready}
use muna_server.Registry.Rounds.Answers.{IsLate, IsTold, ensure_ready-IsTold}
use muna_server.Errors.{AppError, from_registry}
use muna_server.Node.{
  AppState, is_draining, due_checkin, check_in_if_due, note_checkin, mark_model_loaded,
  saturating_add, checkin_interval_seconds,
}
use muna_server.Images.Fetch.{Web, ImageFetcher}
use muna_server.Images.Inline.{
  ChatMessage, BlockMessage, inline_openai, inline_anthropic, openai, anthropic, targets, Walk,
}
use muna_server.Images.Inline.Laws.{inline_openai-IsInlined, IsInlined}
use muna_server.Handlers.Admission.{
  Entry, responds, waiting, proceeds, Clock, enter, draining_error, checked, with_images,
  chat_completions, messages,
}

-- The answer of `ensure_ready` to a request.
abbrev pub answer_of : Clock → AppState → Text → Option (Registry × Result ReadyModel RegistryError)
answer_of clock s tag = ensure_ready s.registry tag clock.deadline clock.now clock.waits

-- What a request that ends in an entry has done to the node.
abbrev pub IsAdmitted :
    {A : Type 0} → Clock → AppState → Text → Result A AppError → AppState × Entry A → Type 0
IsAdmitted clock s tag request (s', responds e) =
    ((is_draining s ≡ true) × (s' ≡ s) × (e ≡ draining_error))
    ⊎ ((is_draining s ≡ false) × (s' ≡ s) × (request ≡ err e))
    ⊎ ((is_draining s ≡ false)
        × (r : Registry) × (error : RegistryError) × (answer_of clock s tag ≡ some (r, err error))
        × (s' ≡ record (clock.meanwhile s) { registry = r })
        × (e ≡ from_registry error))
IsAdmitted clock s tag request (s', waiting) =
    (is_draining s ≡ false) × (s' ≡ clock.meanwhile s) × (answer_of clock s tag ≡ none)
IsAdmitted clock s tag request (s', proceeds model parsed) =
    (is_draining s ≡ false)
    × (request ≡ ok parsed)
    × (answer_of clock s tag ≡ some (s'.registry, ok model))
    × (ready_model s'.registry tag ≡ some model)
    × (next : ℕ) × (get s'.runtime_checkins tag ≡ some next)

check_in-registry :
    (api : ℕ → Text → Bool) (s : AppState) (tag : Text) (now : ℕ)
    → (check_in_if_due api s tag now).registry ≡ s.registry
unfolding check_in_if_due note_checkin
check_in-registry api s tag now = elim (Option-cases (due_checkin s tag now)) [
  | inl e ↦ rw (check_in_if_due, e) refl
  | inr (ready, e) ↦ rw (check_in_if_due, e) refl
]

mark-registry :
    (s : AppState) (tag : Text) (now : ℕ)
    → ((mark_model_loaded s tag now).registry ≡ s.registry)
      × (next : ℕ) × (get (mark_model_loaded s tag now).runtime_checkins tag ≡ some next)
unfolding mark_model_loaded
mark-registry s tag now = elim (Option-cases (get s.runtime_checkins tag)) [
  | inl e ↦
      let next = saturating_add now checkin_interval_seconds in
      (
        rw (mark_model_loaded, e) refl,
        next,
        rw (mark_model_loaded, e) (get-insert_self s.runtime_checkins tag next),
      )
  | inr (next, e) ↦ (rw (mark_model_loaded, e) refl, next, rw (mark_model_loaded, e) e)
]

enter_cases :
    {A : Type 0} (clock : Clock) (s : AppState) (tag : Text) (parsed : A)
    (o : Option (Registry × Result ReadyModel RegistryError)) (late : Type 0)
    → is_draining s ≡ false
    → answer_of clock s tag ≡ o
    → IsTold tag late o
    → IsAdmitted clock s tag (ok parsed) (enter clock s tag parsed)
unfolding enter
enter_cases clock s tag parsed none late d e h = rw (enter, e) (d, refl, e)
enter_cases clock s tag parsed (some (r, err error)) late d e h =
    rw (enter, e) (inr (inr (d, r, error, e, refl, refl)))
enter_cases clock s tag parsed (some (r, ok model)) late d e h =
    let entered = record (clock.meanwhile s) { registry = r } in
    let marked = mark-registry (check_in_if_due clock.api entered tag clock.unix) tag clock.unix in
    let kept : (mark_model_loaded (check_in_if_due clock.api entered tag clock.unix) tag
          clock.unix).registry
        ≡ r =
      marked.0 ∙ check_in-registry clock.api entered tag clock.unix in
    rw (enter, e)
      (
        d,
        refl,
        e ∙ ap (λ q. some (q, ok model)) (sym kept),
        ap (λ q. ready_model q tag) kept ∙ h.1,
        marked.1,
        marked.2,
      )

enter-IsAdmitted :
    {A : Type 0} (clock : Clock) (s : AppState) (tag : Text) (parsed : A)
    → is_draining s ≡ false
    → IsAdmitted clock s tag (ok parsed) (enter clock s tag parsed)
enter-IsAdmitted clock s tag parsed d =
    enter_cases clock s tag parsed (answer_of clock s tag)
      (IsLate clock.deadline clock.now clock.waits) d refl
      (ensure_ready-IsTold s.registry tag clock.deadline clock.now clock.waits)

checked_at :
    {A : Type 0} (clock : Clock) (s : AppState) (tag : Text) (request : Result A AppError)
    (b : Bool)
    → is_draining s ≡ b
    → IsAdmitted clock s tag request (
        if b
        then (s, responds draining_error)
        else elim request [ err e ↦ (s, responds e) | ok parsed ↦ enter clock s tag parsed ])
checked_at clock s tag request true d = inl (d, refl, refl)
checked_at clock s tag (err e) false d = inr (inl (d, refl, refl))
checked_at clock s tag (ok parsed) false d = enter-IsAdmitted clock s tag parsed d

-- The checks of every inference handler. The drain flag is read once: while the node drains, the
-- answer is the 503 with 30 seconds, and a request with a bad part is answered with its own error;
-- either way the node is as it was: no load starts and no check-in is made. Otherwise the request has
-- the answer that `ensure_ready` gives over all its rounds and waits, timeouts included: an error of it
-- is answered, with no check-in, and a request goes on only with its ready model, which is the tag's at
-- that time, and the model's next check-in is then scheduled.
pub checked-IsAdmitted :
    {A : Type 0} (clock : Clock) (s : AppState) (tag : Text) (request : Result A AppError)
    → IsAdmitted clock s tag request (checked clock s tag request)
unfolding checked
checked-IsAdmitted clock s tag request = checked_at clock s tag request (is_draining s) refl

-- A request that goes on to the predictor.
abbrev pub Carries : {A : Type 0} → (A → Type 0) → Entry A → Type 0
Carries P (responds e) = Unit
Carries P waiting = Unit
Carries P (proceeds model request) = P request

inlined_targets :
    {M P U : Type 0} (walk : Walk M P) (web : Web U) (fetcher : ImageFetcher) (before : List M)
    (result : List M × Result {0, 0} Unit Text) (u : Unit)
    → IsInlined walk web fetcher before result
    → result.1 ≡ ok u
    → targets walk result.0 ≡ []
inlined_targets walk web fetcher before (after, ok v) u h e = h.1
inlined_targets walk web fetcher before (after, err m) u h e = absurd (cc)

with_images_inlined :
    {M P U : Type 0} (walk : Walk M P) (web : Web U) (display : MunaError → Text)
    (fetcher : ImageFetcher) (inline : List M → List M × Result {0, 0} Unit Text)
    → ((before : List M) → IsInlined walk web fetcher before (inline before))
    → (round : AppState × Entry (List M))
    → Carries (λ after. targets walk after ≡ []) (with_images display inline round).1
unfolding with_images
with_images_inlined walk web display fetcher inline h (s, responds e) = tt
with_images_inlined walk web display fetcher inline h (s, waiting) = tt
with_images_inlined walk web display fetcher inline h (s, proceeds model messages) =
    elim (Result-cases (inline messages).1) [
      | inr (message, e) ↦ rw (with_images, e) tt
      | inl (u, e) ↦
          rw (with_images, e)
            (inlined_targets walk web fetcher messages (inline messages) u (h messages) e)
    ]

-- A chat request of either protocol that goes on to the dispatch guard and the predictor holds no
-- remote image any more: the images were fetched and written into it, or the request was answered.
pub chat_completions-targets :
    {U X : Type 0} (web : Web U) (encode : Text → Text) (display : MunaError → Text)
    (fetcher : ImageFetcher) (clock : Clock) (s : AppState) (tag : Text)
    (chat : List (ChatMessage X)) (blocks : List (BlockMessage X))
    → Carries
        (λ after. targets (openai encode) after ≡ [])
        (chat_completions web encode display fetcher clock s tag chat).1
      × Carries
          (λ after. targets (anthropic encode) after ≡ [])
          (messages web encode display fetcher clock s tag blocks).1
unfolding chat_completions messages
chat_completions-targets web encode display fetcher clock s tag chat blocks = (
  with_images_inlined (openai encode) web display fetcher (inline_openai web encode fetcher)
      (λ before. (inline_openai-IsInlined web encode fetcher before []).0)
      (checked clock s tag (ok chat)),
  with_images_inlined (anthropic encode) web display fetcher (inline_anthropic web encode fetcher)
      (λ before. (inline_openai-IsInlined web encode fetcher [] before).1)
      (checked clock s tag (ok blocks)),
)
