-- ===== src/Handlers/Values.antt =====
-- src/handlers/predictions.rs: values of the Muna crate to and from their form on the wire, a type
-- and a data URL. The crate's serializers, serde_json and base64 are parameters, the fields of `Codec`.
pub mod Roundtrip
use muna_server.Base.{
  ℕ, zero, suc, ◌-◌, ◌^◌, Bool, true, false, ◌&&◌, Option, none, some, List, [], ◌∷◌, ◌++◌, Text,
  codes, starts_with, text_eq, drop, length, ℤ, pos, negsuc, if◌then◌else◌, Result, ok, err,
  and_then, map_err, map,
}
use muna_server.Values.{
  TensorData, float32, int32, int64, bools, Tensor, Value, null, string, float, double, int, long,
  bool, list, dict, tensor, image, array_list, image_list, binary,
}
use muna_server.Worker.Flush.{MunaError, prediction_error, Prediction}

-- `muna::types::Dtype`. `unsupported` stands for the types that `parse_remote_value` does not name.
pub data Dtype : Type 0 where
  null_type : Dtype
  bfloat16_type float16_type float32_type float64_type : Dtype
  int8_type int16_type int32_type int64_type : Dtype
  uint8_type uint16_type uint32_type uint64_type : Dtype
  complex64_type complex128_type bool_type : Dtype
  string_type list_type dict_type image_type array_list_type image_list_type binary_type : Dtype
  unsupported : ℕ → Dtype

unfoldable pub is_tensor_dtype : Dtype → Bool
is_tensor_dtype bfloat16_type = true
is_tensor_dtype float16_type = true
is_tensor_dtype float32_type = true
is_tensor_dtype float64_type = true
is_tensor_dtype int8_type = true
is_tensor_dtype int16_type = true
is_tensor_dtype int32_type = true
is_tensor_dtype int64_type = true
is_tensor_dtype uint8_type = true
is_tensor_dtype uint16_type = true
is_tensor_dtype uint32_type = true
is_tensor_dtype uint64_type = true
is_tensor_dtype complex64_type = true
is_tensor_dtype complex128_type = true
is_tensor_dtype bool_type = true
is_tensor_dtype null_type = false
is_tensor_dtype string_type = false
is_tensor_dtype list_type = false
is_tensor_dtype dict_type = false
is_tensor_dtype image_type = false
is_tensor_dtype array_list_type = false
is_tensor_dtype image_list_type = false
is_tensor_dtype binary_type = false
is_tensor_dtype (unsupported n) = false

-- `url` is the field `data`.
pub record RemoteValue : Type 0 where
  pub url : Option Text
  pub dtype : Dtype

-- `from_bytes` includes `to_object`, and `serialize` the `from_object` before it. `narrow` is the
-- cast of a `f64` to a `f32`, on bits.
pub record Codec (J : Type 0) : Type 0 where
  pub from_bytes : List ℕ → Text → Result (Value J) MunaError
  pub serialize : Value J → Result (List ℕ) MunaError
  pub dtype_of : TensorData → Dtype
  pub show_dtype : Dtype → Text
  pub from_utf8 : List ℕ → Result Text Text
  pub list_from_str : Text → Result (List J) MunaError
  pub dict_from_str : Text → Result J MunaError
  pub list_to_string : List J → Result Text MunaError
  pub dict_to_string : J → Result Text MunaError
  pub encode : List ℕ → Text
  pub decode : Text → Result (List ℕ) Text
  pub narrow : ℕ → ℕ

-- `str::split_once`: what stands before and after the first place where the separator does.
unfoldable pub split_once : Text → Text → Option (Text × Text)
split_once separator [] = if starts_with [] separator then some ([], []) else none
split_once separator (c ∷ s) =
    let rest = split_once separator s in
    if starts_with (c ∷ s) separator
    then some ([], drop (length separator) (c ∷ s))
    else elim rest [ none ↦ none | some (before, after) ↦ some (c ∷ before, after) ]

-- `str::strip_prefix`.
unfoldable pub strip_prefix : Text → Text → Option Text
strip_prefix p s = if starts_with s p then some (drop (length p) s) else none

module _ {J : Type 0} (codec : Codec J) where
  unfoldable pub encode_data_url : List ℕ → Text → Text
  encode_data_url buffer mime = codes "data:" ++ mime ++ codes ";base64," ++ codec.encode buffer

  abbrev pub unsupported_url : MunaError
  unsupported_url =
      prediction_error
        (codes "Unsupported value data URL; only inline base64 `data:` URLs are supported")

  -- What `decode_data_url` does with the pieces of the URL.
  abbrev pub decode_pieces : Option (Text × Text) → Result (List ℕ) MunaError
  decode_pieces none = err unsupported_url
  decode_pieces (some (mime, encoded)) =
      map_err (λ e. prediction_error (codes "Base64 decode error: " ++ e)) (codec.decode encoded)

  unfoldable pub decode_data_url : Text → Result (List ℕ) MunaError
  unfolding strip_prefix split_once
  decode_data_url url = elim (strip_prefix (codes "data:") url) [
    | none ↦ err unsupported_url
    | some rest ↦ decode_pieces (split_once (codes ";base64,") rest)
  ]

  unfoldable pub utf8_of : List ℕ → Result Text MunaError
  utf8_of buffer =
      map_err (λ e. prediction_error (codes "UTF-8 decode error: " ++ e)) (codec.from_utf8 buffer)

  -- The match of `parse_remote_value` on the type.
  unfoldable pub parse_buffer : Dtype → List ℕ → Result (Value J) MunaError
  unfolding utf8_of is_tensor_dtype
  parse_buffer dtype buffer =
      if is_tensor_dtype dtype
      then codec.from_bytes buffer (codes "application/vnd.muna.tensor")
      else elim dtype [
        | null_type ↦ ok null
        | string_type ↦ and_then (utf8_of buffer) λ s. ok (string s)
        | list_type ↦
            and_then (utf8_of buffer) λ s. and_then (codec.list_from_str s) λ v. ok (list v)
        | dict_type ↦
            and_then (utf8_of buffer) λ s. and_then (codec.dict_from_str s) λ v. ok (dict v)
        | image_type ↦ codec.from_bytes buffer (codes "image/*")
        | array_list_type ↦ codec.from_bytes buffer (codes "application/x-npz")
        | image_list_type ↦ codec.from_bytes buffer (codes "image/avif")
        | binary_type ↦ ok (binary buffer)
        | other ↦ err (
            prediction_error (
              codes "Cannot deserialize remote value with type `"
              ++ codec.show_dtype other
              ++ codes "`"))
      ]

  abbrev pub is_null_type : Dtype → Bool
  is_null_type dtype = elim dtype [ null_type ↦ true | _ ↦ false ]

  unfoldable pub parse_remote_value : RemoteValue → Result (Value J) MunaError
  unfolding decode_data_url parse_buffer
  parse_remote_value remote = if is_null_type remote.dtype then ok null else elim remote.url [
    | none ↦ err (prediction_error (codes "Remote value has no data URL"))
    | some url ↦ and_then (decode_data_url url) (parse_buffer remote.dtype)
  ]

  -- The bits of a signed integer of a width, in two's complement.
  abbrev pub to_bits : ℕ → ℤ → ℕ
  to_bits w (pos n) = n
  to_bits w (negsuc n) = 2 ^ w - suc n

  unfoldable pub remote_of : Dtype → Text → Result (List ℕ) MunaError → Result RemoteValue MunaError
  unfolding encode_data_url
  remote_of dtype mime buffer =
      and_then buffer λ b. ok (record { url = some (encode_data_url b mime); dtype = dtype })

  unfoldable pub create_tensor : Tensor → Result RemoteValue MunaError
  unfolding remote_of
  create_tensor t =
      remote_of (codec.dtype_of t.elements) (codes "application/octet-stream")
        (codec.serialize (tensor t))

  -- A number goes as a tensor without dimensions.
  abbrev pub scalar : TensorData → Tensor
  scalar elements = record { elements = elements; shape = [] }

  abbrev pub bit_of : Bool → ℕ
  bit_of true = 1
  bit_of false = 0

  unfoldable pub create_remote_value : Value J → Result RemoteValue MunaError
  unfolding create_tensor remote_of
  create_remote_value null = ok (record { url = none; dtype = null_type })
  create_remote_value (float v) = create_tensor (scalar (float32 (v ∷ [])))
  create_remote_value (double v) = create_tensor (scalar (float32 (codec.narrow v ∷ [])))
  create_remote_value (int v) = create_tensor (scalar (int32 (to_bits 32 v ∷ [])))
  create_remote_value (long v) = create_tensor (scalar (int64 (to_bits 64 v ∷ [])))
  create_remote_value (bool v) = create_tensor (scalar (bools (bit_of v ∷ [])))
  create_remote_value (tensor t) = create_tensor t
  create_remote_value (string s) = remote_of string_type (codes "text/plain") (ok s)
  create_remote_value (list v) =
      remote_of list_type (codes "application/json") (codec.list_to_string v)
  create_remote_value (dict v) =
      remote_of dict_type (codes "application/json") (codec.dict_to_string v)
  create_remote_value (image n) =
      remote_of image_type (codes "image/png") (codec.serialize (image n))
  create_remote_value (array_list n) =
      remote_of array_list_type (codes "application/x-npz") (codec.serialize (array_list n))
  create_remote_value (image_list n) =
      remote_of image_list_type (codes "image/avif") (codec.serialize (image_list n))
  create_remote_value (binary bytes) =
      remote_of binary_type (codes "application/octet-stream") (ok bytes)

  unfoldable create_all : List (Value J) → Result (List RemoteValue) MunaError
  unfolding create_remote_value
  create_all [] = ok []
  create_all (value ∷ values) =
      let rest = create_all values in
      and_then (create_remote_value value) λ remote. and_then rest λ remotes. ok (remote ∷ remotes)

-- `rest` stands for the other fields, which are copied.
pub record RemotePrediction : Type 0 where
  pub results : Option (List RemoteValue)
  pub error : Option Text
  pub rest : ℕ

unfoldable pub to_remote_prediction :
    {J : Type 0} → Codec J → Prediction J → Result RemotePrediction MunaError
unfolding create_all
to_remote_prediction codec prediction =
    and_then
      (elim prediction.results [
        | none ↦ ok none
        | some values ↦ and_then (create_all codec values) λ remotes. ok (some remotes)
      ])
      λ results. ok (record { results = results; error = prediction.error; rest = prediction.rest })

-- `metadata` stands for the id, the tag and the time.
unfoldable pub error_prediction : ℕ → Text → RemotePrediction
error_prediction metadata message = record { results = none; error = some message; rest = metadata }

pub data Acceleration : Type 0 where
  local_cpu local_gpu remote_cpu : Acceleration
  adaptive : Text → Acceleration
  other_acceleration : ℕ → Acceleration

unfoldable pub local_acceleration : Option Acceleration → Acceleration
local_acceleration none = local_gpu
local_acceleration (some remote_cpu) = local_cpu
local_acceleration (some (adaptive s)) =
    if text_eq s (codes "remote_cpu") then local_cpu else local_gpu
local_acceleration (some local_cpu) = local_gpu
local_acceleration (some local_gpu) = local_gpu
local_acceleration (some (other_acceleration n)) = local_gpu
