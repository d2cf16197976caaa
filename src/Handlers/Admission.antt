-- ===== src/Handlers/Admission.antt =====
-- src/handlers/predictions.rs and src/handlers/openai, src/handlers/anthropic: what the inference
-- handlers do up to the dispatch: the checks, the whole of `ensure_ready`, and the check-in. Times:
-- `now` and `deadline` in nanoseconds for the registry, `unix` in seconds for the check-ins.
pub mod Order
use muna_server.Base.{
  ℕ, Bool, true, false, Option, none, some, List, [], ◌∷◌, ◌++◌, Text, codes, text_eq, Map, get,
  insert, if◌then◌else◌, Result, ok, err, and_then,
}
use muna_server.Values.{Value}
use muna_server.Worker.Flush.{MunaError, invalid_input}
use muna_server.Registry.{Registry, ReadyModel}
use muna_server.Registry.Rounds.{Wait, ensure_ready}
use muna_server.Errors.{
  ErrorBody, HttpResponse, AppError, bad_request, unavailable, into_response, AnthropicBody,
  into_anthropic, from_muna, from_registry,
}
use muna_server.Node.{AppState, is_draining, check_in_if_due, mark_model_loaded}
use muna_server.Handlers.Values.{RemoteValue, Codec, parse_remote_value}
use muna_server.Images.Fetch.{Web, ImageFetcher}
use muna_server.Images.Inline.{ChatMessage, BlockMessage, inline_openai, inline_anthropic}

-- Where a request stands: answered with an error, still waiting for the load when the listed waits
-- are over, or past the checks with the ready model and what the request asks of it.
pub data Entry (A : Type 0) : Type 0 where
  responds : AppError → Entry A
  waiting : Entry A
  proceeds : ReadyModel → A → Entry A

-- The clock of a request, the ends of its waits in `ensure_ready`, what other tasks do meanwhile to
-- the parts of the node beside the registry, and whether a check-in with the API succeeds.
pub record Clock : Type 0 where
  pub deadline : ℕ
  pub now : ℕ
  pub waits : List Wait
  pub meanwhile : AppState → AppState
  pub unix : ℕ
  pub api : ℕ → Text → Bool

-- `ensure_ready`, `check_in_if_due` and `mark_model_loaded`, in the order of every handler.
unfoldable pub enter : {A : Type 0} → Clock → AppState → Text → A → AppState × Entry A
unfolding ensure_ready check_in_if_due mark_model_loaded
enter clock s tag request =
    elim (ensure_ready s.registry tag clock.deadline clock.now clock.waits) [
      | none ↦ (clock.meanwhile s, waiting)
      | some (r, result) ↦
          let s' = record (clock.meanwhile s) { registry = r } in
          elim result [
            | err e ↦ (s', responds (from_registry e))
            | ok model ↦ (
              mark_model_loaded (check_in_if_due clock.api s' tag clock.unix) tag clock.unix,
              proceeds model request,
            )
          ]
    ]

abbrev pub draining_error : AppError
draining_error = unavailable (codes "node is draining") 30

-- The checks before `ensure_ready`: the drain flag, then the parts of the request.
unfoldable pub checked :
    {A : Type 0} → Clock → AppState → Text → Result A AppError → AppState × Entry A
unfolding is_draining enter
checked clock s tag request =
    if is_draining s
    then (s, responds draining_error)
    else elim request [ err e ↦ (s, responds e) | ok parsed ↦ enter clock s tag parsed ]

module _ {J : Type 0} (codec : Codec J) where
  -- The loop over `req.inputs`.
  unfoldable pub parse_inputs : Map (Value J) → Map RemoteValue → Result (Map (Value J)) MunaError
  unfolding parse_remote_value
  parse_inputs inputs [] = ok inputs
  parse_inputs inputs ((name, remote) ∷ remotes) =
      and_then (parse_remote_value codec remote)
        λ value. parse_inputs (insert inputs name value) remotes

-- `predictions`.
unfoldable pub predictions :
    {J : Type 0}
    → Codec J
    → (MunaError → Text)
    → Clock
    → AppState
    → Text
    → Map RemoteValue
    → AppState × Entry (Map (Value J))
unfolding checked parse_inputs
predictions codec display clock s tag inputs =
    checked clock s tag (elim (parse_inputs codec [] inputs) [
      | ok parsed ↦ ok parsed
      | err e ↦ err (from_muna display e)
    ])

pub data EncodingFormat : Type 0 where
  float_format base64_format : EncodingFormat

unfoldable pub parse_encoding_format : Option Text → Result (Option EncodingFormat) AppError
parse_encoding_format none = ok none
parse_encoding_format (some value) =
    if text_eq value (codes "float")
    then ok (some float_format)
    else if text_eq value (codes "base64")
    then ok (some base64_format)
    else err (bad_request (codes "unsupported encoding_format `" ++ value ++ codes "`"))

pub data EmbeddingsInput : Type 0 where
  one_string : Text → EmbeddingsInput
  many_strings : List Text → EmbeddingsInput

unfoldable pub into_vec : EmbeddingsInput → List Text
into_vec (one_string input) = input ∷ []
into_vec (many_strings input) = input

-- `embeddings`.
unfoldable pub embeddings :
    Clock
    → AppState
    → Text
    → EmbeddingsInput
    → Option Text
    → AppState × Entry (List Text × Option EncodingFormat)
unfolding checked into_vec parse_encoding_format
embeddings clock s tag input format =
    checked clock s tag (and_then (parse_encoding_format format) λ f. ok (into_vec input, f))

-- Width and height.
abbrev pub ImageSize : Type 0
ImageSize = ℕ × ℕ

-- The table of `parse_size`.
abbrev pub sizes : Map ImageSize
sizes =
    (codes "256x256", (256, 256))
    ∷ (codes "512x512", (512, 512))
    ∷ (codes "1024x1024", (1024, 1024))
    ∷ (codes "1536x1024", (1536, 1024))
    ∷ (codes "1024x1536", (1024, 1536))
    ∷ (codes "1792x1024", (1792, 1024))
    ∷ (codes "1024x1792", (1024, 1792))
    ∷ []

unfoldable pub parse_size : Option Text → Result (Option ImageSize) AppError
unfolding get
parse_size none = ok none
parse_size (some value) = if text_eq value (codes "auto") then ok none else elim (get sizes value) [
  | some size ↦ ok (some size)
  | none ↦ err (bad_request (codes "unsupported size `" ++ value ++ codes "`"))
]

-- `image_generations`.
unfoldable pub image_generations :
    Clock → AppState → Text → Option Text → AppState × Entry (Option ImageSize)
unfolding checked parse_size
image_generations clock s tag size = checked clock s tag (parse_size size)

-- The images of a chat request are fetched once the model is ready, before the dispatch guard.
unfoldable pub with_images :
    {M : Type 0}
    → (MunaError → Text)
    → (List M → List M × Result {0, 0} Unit Text)
    → AppState × Entry (List M)
    → AppState × Entry (List M)
unfolding from_muna
with_images display inline (s, responds e) = (s, responds e)
with_images display inline (s, waiting) = (s, waiting)
with_images display inline (s, proceeds model messages) = elim (inline messages).1 [
  | ok u ↦ (s, proceeds model (inline messages).0)
  | err message ↦ (s, responds (from_muna display (invalid_input message)))
]

-- `chat_completions`.
unfoldable pub chat_completions :
    {U X : Type 0}
    → Web U
    → (Text → Text)
    → (MunaError → Text)
    → ImageFetcher
    → Clock
    → AppState
    → Text
    → List (ChatMessage X)
    → AppState × Entry (List (ChatMessage X))
unfolding with_images checked inline_openai
chat_completions web encode display fetcher clock s tag messages =
    with_images display (inline_openai web encode fetcher) (checked clock s tag (ok messages))

-- `messages`.
unfoldable pub messages :
    {U X : Type 0}
    → Web U
    → (Text → Text)
    → (MunaError → Text)
    → ImageFetcher
    → Clock
    → AppState
    → Text
    → List (BlockMessage X)
    → AppState × Entry (List (BlockMessage X))
unfolding with_images checked inline_anthropic
messages web encode display fetcher clock s tag chat =
    with_images display (inline_anthropic web encode fetcher) (checked clock s tag (ok chat))
