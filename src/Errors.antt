-- ===== src/Errors.antt =====
-- src/handlers/error.rs: the errors of the HTTP handlers, in the shape of OpenAI and in that of
-- Anthropic. A JSON object is modelled by its fields; `display` is `to_string` of a Muna error.
pub mod Statuses
use muna_server.Base.{
  ℕ, ◌*◌, ◌/◌, Bool, Option, none, some, List, [], ◌∷◌, ◌++◌, Text, codes, decimal, ◌==◌, not,
  if◌then◌else◌,
}
use muna_server.Worker.Flush.{MunaError, native, invalid_input, prediction_error, other_error}
use muna_server.Registry.{RegistryError, still_loading, load_failed, not_served}

-- `MAX_REQUEST_BYTES` of src/handlers/mod.rs.
abbrev pub max_request_bytes : ℕ
max_request_bytes = 64 * 1024 * 1024

-- The object under "error": `kind` is its "type".
pub record ErrorBody : Type 0 where
  pub message : Text
  pub kind : Text
  pub code : Option Text

pub record AppError : Type 0 where
  pub status : ℕ
  pub body : ErrorBody
  pub retry_after : Option ℕ

unfoldable pub bad_request : Text → AppError
bad_request message = record {
  status = 400;
  body = record { message = message; kind = codes "invalid_request_error"; code = none };
  retry_after = none;
}

-- `rejection.status()` and `rejection.body_text()`.
pub record JsonRejection : Type 0 where
  pub status : ℕ
  pub body_text : Text

unfoldable pub rejected : JsonRejection → AppError
unfolding bad_request
rejected rejection =
    if not (rejection.status == 413) then bad_request rejection.body_text else record {
      status = 413;
      body = record {
        message =
            codes "The request body exceeds the "
            ++ decimal (max_request_bytes / (1024 * 1024))
            ++ codes " MB limit.";
        kind = codes "invalid_request_error";
        code = some (codes "request_too_large");
      };
      retry_after = none;
    }

unfoldable pub unavailable : Text → ℕ → AppError
unavailable message retry_after = record {
  status = 503;
  body = record { message = message; kind = codes "unavailable_error"; code = none };
  retry_after = some retry_after;
}

unfoldable pub retry_later : Text → ℕ → AppError
retry_later message retry_after = record {
  status = 429;
  body = record { message = message; kind = codes "rate_limit_error"; code = none };
  retry_after = some retry_after;
}

unfoldable pub model_not_found : Text → AppError
model_not_found model = record {
  status = 404;
  body = record {
    message = codes "model '" ++ model ++ codes "' is not served by this deployment";
    kind = codes "invalid_request_error";
    code = some (codes "model_not_found");
  };
  retry_after = none;
}

unfoldable pub internal : Text → AppError
internal message = record {
  status = 500;
  body = record { message = message; kind = codes "muna_error"; code = none };
  retry_after = none;
}

-- A response without its content type: `header` is the `Retry-After` header.
pub record HttpResponse (B : Type 0) : Type 0 where
  pub status : ℕ
  pub header : Option Text
  pub body : B

-- Decimal digits always parse as a header value.
unfoldable pub retry_header : Option ℕ → Option Text
retry_header none = none
retry_header (some seconds) = some (decimal seconds)

unfoldable pub into_response : AppError → HttpResponse ErrorBody
unfolding retry_header
into_response e = record { status = e.status; header = retry_header e.retry_after; body = e.body }

-- `From<MunaError>`.
unfoldable pub from_muna : (MunaError → Text) → MunaError → AppError
unfolding bad_request internal
from_muna display (native message) = internal (display (native message))
from_muna display (invalid_input message) = bad_request message
from_muna display (prediction_error message) = internal (display (prediction_error message))
from_muna display (other_error e) = internal (display (other_error e))

-- `From<RegistryError>`.
unfoldable pub from_registry : RegistryError → AppError
unfolding retry_later internal model_not_found
from_registry (still_loading retry_after) = retry_later (codes "model is loading") retry_after
from_registry (load_failed error) = internal (codes "model failed to load: " ++ error)
from_registry (not_served model) = model_not_found model

unfoldable pub anthropic_error_type : ℕ → Text
anthropic_error_type status =
    if status == 400
    then codes "invalid_request_error"
    else if status == 404
    then codes "not_found_error"
    else if status == 413
    then codes "request_too_large"
    else if status == 429
    then codes "rate_limit_error"
    else if status == 503
    then codes "overloaded_error"
    else codes "api_error"

-- The Anthropic envelope around "type" and "message".
pub record AnthropicBody : Type 0 where
  pub kind : Text
  pub message : Text

-- `body["error"]["message"]` is always there: every `AppError` has an `ErrorBody`.
unfoldable pub into_anthropic : AppError → HttpResponse AnthropicBody
unfolding retry_header anthropic_error_type
into_anthropic e = record {
  status = e.status;
  header = retry_header e.retry_after;
  body = record { kind = anthropic_error_type e.status; message = e.body.message };
}

-- The payload of an error inside a stream.
unfoldable pub muna_error_value : (MunaError → Text) → MunaError → ErrorBody
muna_error_value display e = record { message = display e; kind = codes "muna_error"; code = none }

unfoldable pub anthropic_error_value : (MunaError → Text) → MunaError → AnthropicBody
anthropic_error_value display e = record { kind = codes "api_error"; message = display e }
