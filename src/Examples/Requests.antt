-- ===== src/Examples/Requests.antt =====
-- Concrete inputs for the theorems on src/state.rs, src/serving/predict.rs and src/handlers.
use muna_server.Base.{
  ℕ, ◌*◌, ◌/◌, ◌-◌, ◌^◌, ℤ, ap, ◌≤◌, ◌≡◌, refl, true, false, none, some, List, [], ◌∷◌, ◌++◌, Text,
  codes, Result, ok, err, arith,
}
use muna_server.Values.{TensorData, Value, double, tensor, float32}
use muna_server.Worker.Flush.{MunaError, native, Prediction}
use muna_server.Registry.{Registry, new_registry}
use muna_server.Errors.{bad_request}
use muna_server.Registry.{loading}
use muna_server.Registry.Rounds.{Wait}
use muna_server.Node.{AppState}
use muna_server.Node.Checkins.Due.{AreSpaced, api_calls}
use muna_server.Node.Checkins.{api_calls-AreSpaced}
use muna_server.Executor.{Pool, can_acquire, spawn, acquires, spawns, Reach, here, next}
use muna_server.Executor.Exclusive.{native_calls, Reach-native_calls}
use muna_server.Handlers.Values.{
  Codec, RemoteValue, float32_type, is_tensor_dtype, encode_data_url, create_remote_value,
  parse_remote_value,
}
use muna_server.Handlers.Values.Roundtrip.{IsCodec, arrives, create_remote_value-parse}
use muna_server.Handlers.Admission.{Clock, checked, chat_completions, messages}
use muna_server.Handlers.Admission.Order.{
  IsAdmitted, checked-IsAdmitted, Carries, chat_completions-targets,
}
use muna_server.Images.Inline.{targets, openai, anthropic}
use muna_server.Images.Fetch.{new_fetcher}
use muna_server.Stats.{record_sample, stream}
use muna_server.Stats.Meter.{StreamMeter, raw_stream, new_meter, drop_meter}
use muna_server.Handlers.Streams.{
  Items, ChatChunk, MessageEvent, chat_stream, message_stream, prediction_stream,
}
use muna_server.Handlers.Streams.Events.{
  IsStreamed, chat_events, message_events, chat_stream-IsStreamed,
}
use muna_server.Handlers.Streams.Metered.{first_item, last_item, prediction_stream-drop_meter}
use muna_server.Examples.Web.{web, encode, chat, blocks}

abbrev tag : Text
tag = codes "@owner/model"

abbrev empty_registry : Registry
empty_registry = new_registry [] none

-- A wait that times out while the load goes on.
abbrev loading_registry : Registry
loading_registry = record empty_registry {
  models = (tag, record { state = loading 3 none; unload_requested = false }) ∷ [];
}

abbrev timeout : Wait
timeout = record { timed_out = true; registry = loading_registry; now = 20 }

-- A node that is due for a check-in of the tag, and two requests a second apart.
abbrev node : AppState
node = record { registry = empty_registry; draining = false; runtime_checkins = (tag, 100) ∷ [] }

api_calls-AreSpaced_example : AreSpaced 0 (
    api_calls
      (λ muna model. false)
      node
      tag
      ((empty_registry, tag, 200) ∷ (empty_registry, tag, 201) ∷ []))
api_calls-AreSpaced_example =
    api_calls-AreSpaced (λ muna model. false) node tag
      ((empty_registry, tag, 200) ∷ (empty_registry, tag, 201) ∷ [])
      (omega arith, omega arith, (omega arith, omega arith, tt))

-- One handler has acquired lock 4 and called the predictor.
abbrev pool : Pool
pool = record { handlers = []; tasks = spawn (some 4) false ∷ [] }

pool-Reach : Reach pool
unfolding can_acquire
pool-Reach = next (next here (acquires (some 4) refl)) (spawns [] [] (some 4) false refl)

Reach-native_calls_example :
    (native_calls 4 pool ≤ 1) × (native_calls 4 pool ≡ 1 → can_acquire pool (some 4) ≡ false)
Reach-native_calls_example = Reach-native_calls pool 4 pool-Reach

-- A codec that writes single-precision tensors without dimensions as their bits; the other
-- serializers fail.
abbrev no_writer : MunaError
no_writer = native (codes "no writer")

abbrev write_tensor : TensorData → List ℤ → Result (List ℕ) MunaError
write_tensor elements shape = elim elements [
  | float32 bits ↦ elim shape [ [] ↦ ok bits | d ∷ dims ↦ err no_writer ]
  | _ ↦ err no_writer
]

abbrev write : Value ℕ → Result (List ℕ) MunaError
write value = elim value [ tensor t ↦ write_tensor t.elements t.shape | _ ↦ err no_writer ]

abbrev read : List ℕ → Value ℕ
read bits = tensor (record { elements = float32 bits; shape = [] })

abbrev codec : Codec ℕ
codec = record {
  from_bytes = λ b mime. ok (read b);
  serialize = write;
  dtype_of = λ elements. float32_type;
  show_dtype = λ dtype. codes "Dtype";
  from_utf8 = λ b. ok b;
  list_from_str = λ s. ok [];
  dict_from_str = λ s. ok 0;
  list_to_string = λ v. err no_writer;
  dict_to_string = λ v. err no_writer;
  encode = λ b. b;
  decode = λ s. ok s;
  narrow = λ v. v / 2 ^ 32;
}

write-read :
    (elements : TensorData) (shape : List ℤ) (b : List ℕ)
    → write_tensor elements shape ≡ ok b
    → read b ≡ tensor (record { elements = elements; shape = shape })
write-read elements shape b e = ground arith

codec-IsCodec : IsCodec codec
unfolding is_tensor_dtype
codec-IsCodec = record {
  base64 = λ b. refl;
  tensor_type = λ elements. refl;
  tensors = λ t b e. ap (λ v. ok v) (write-read t.elements t.shape b e);
  images = λ n b e. absurd (cc);
  array_lists = λ n b e. absurd (cc);
  lists = λ v s e. absurd (cc);
  dicts = λ v s e. absurd (cc);
}

-- A double arrives as a single-precision tensor of one element.
abbrev sent : RemoteValue
sent = record {
  url = some (codes "data:application/octet-stream;base64," ++ (7 ∷ []));
  dtype = float32_type;
}

create_remote_value-parse_example :
    parse_remote_value codec sent ≡ ok (arrives codec (double (7 * 2 ^ 32)))
unfolding create_remote_value encode_data_url
create_remote_value-parse_example =
    create_remote_value-parse codec codec-IsCodec (double (7 * 2 ^ 32)) sent tt refl

abbrev clock : Clock
clock = record {
  deadline = 15;
  now = 9;
  waits = timeout ∷ [];
  meanwhile = λ s. s;
  unix = 200;
  api = λ muna model. true;
}

-- A malformed request to a node that does not drain.
checked-IsAdmitted_example :
    IsAdmitted {A = ℕ} clock node tag
      (err (bad_request (codes "unsupported size `3x3`")))
      (checked clock node tag (err (bad_request (codes "unsupported size `3x3`"))))
checked-IsAdmitted_example =
    checked-IsAdmitted clock node tag (err (bad_request (codes "unsupported size `3x3`")))

abbrev display : MunaError → Text
display e = codes "error"

chat_completions-targets_example :
    Carries
      (λ after. targets (openai encode) after ≡ [])
      (chat_completions web encode display new_fetcher clock node tag chat).1
    × Carries
        (λ after. targets (anthropic encode) after ≡ [])
        (messages web encode display new_fetcher clock node tag blocks).1
chat_completions-targets_example =
    chat_completions-targets web encode display new_fetcher clock node tag chat blocks

-- A chat stream of one chunk and one error, and an empty one of the other protocol.
abbrev meter : StreamMeter
meter = new_meter raw_stream 0 100

abbrev chunk : ChatChunk ℕ
chunk = record { choices = []; usage = some 5; rest = 1 }

abbrev chunks : Items (ChatChunk ℕ)
chunks = (120, ok chunk) ∷ (130, err no_writer) ∷ []

abbrev no_events : Items (MessageEvent ℕ)
no_events = []

chat_stream-IsStreamed_example :
    IsStreamed display (chat_events display meter) chunks (chat_stream display meter chunks)
    × IsStreamed display
        (message_events display meter)
        no_events
        (message_stream display meter no_events)
chat_stream-IsStreamed_example = chat_stream-IsStreamed display meter chunks no_events

-- A stream of one prediction and one error.
abbrev predicted : Items (Prediction ℕ)
predicted =
    (120, ok (record { results = none; error = none; rest = 0 })) ∷ (130, err no_writer) ∷ []

prediction_stream-drop_meter_example :
    (first_item predicted ≡ none
      → drop_meter
          (prediction_stream codec display 0 (new_meter raw_stream 3 100) predicted).1
          []
          140
        ≡ some [])
    × ((first : ℕ)
        → first_item predicted ≡ some first
        → (last : ℕ) × (last_item none predicted ≡ some last)
          × (drop_meter
                (prediction_stream codec display 0 (new_meter raw_stream 3 100) predicted).1
                []
                140
              ≡ some (
                  record_sample [] (record {
                    at = 140;
                    queue_wait = 3;
                    latency = last - 100;
                    detail = stream (first - 100);
                  }))))
prediction_stream-drop_meter_example =
    prediction_stream-drop_meter codec display 0 3 100 140 predicted []
