-- ===== src/Errors/Statuses.antt =====
-- Proofs about the answers of a handler whose model is not ready (src/handlers/error.rs and
-- src/serving/registry.rs).
use muna_server.Base.{
  ℕ, ◌≤◌, ◌≡◌, ◌⊎◌, max, true, false, none, some, Text, decimal, codes, ◌++◌, get, Option, Result,
  ok, err, remove,
}
use muna_server.Registry.{Registry, ReadyModel, RegistryError, Slot, failed, serves, ready_model}
use muna_server.Registry.Flight.{loading_in}
use muna_server.Errors.{
  HttpResponse, ErrorBody, AnthropicBody, into_response, into_anthropic, from_registry,
  anthropic_error_type,
}

-- A client that speaks either protocol sees the same status, message and retry time, with the
-- error type that its protocol has for the status.
abbrev pub AreAlike : HttpResponse ErrorBody → HttpResponse AnthropicBody → Type 0
AreAlike r s =
    (r.status ≡ s.status)
    × (r.header ≡ s.header)
    × (r.body.message ≡ s.body.message)
    × (s.body.kind ≡ anthropic_error_type r.status)

-- What the response to an answer of `ensure_ready` says of the registry at that time.
abbrev pub Reported : Text → Type 0 → Option (Registry × Result ReadyModel RegistryError) → Type 0
Reported tag late none = Unit
Reported tag late (some (s, ok model)) = (serves s tag ≡ true) × (ready_model s tag ≡ some model)
Reported tag late (some (s, err error)) =
    let response = into_response (from_registry error) in
    AreAlike response (into_anthropic (from_registry error))
    × (((response.status ≡ 429)
          × late
          × (loading_in (get s.models tag) ≡ 1)
          × (seconds : ℕ) × (5 ≤ seconds)
          × (seconds ≤ max s.last_load_secs 5)
          × (response.header ≡ some (decimal seconds)))
        ⊎ ((response.status ≡ 500)
            × (response.header ≡ none)
            × (q : Registry) × (slot : Slot) × (message : Text) × (at : ℕ) × (get q.models tag
                ≡ some slot)
            × (slot.state ≡ failed message at)
            × (s ≡ record q { models = remove q.models tag })
            × (response.body.message ≡ codes "model failed to load: " ++ message))
        ⊎ ((response.status ≡ 404) × (response.header ≡ none) × (serves s tag ≡ false)))
