-- ===== src/Handlers/Values/Roundtrip.antt =====
-- Proofs about data URLs and the values on the wire (src/handlers/predictions.rs).
use muna_server.Base.{
  ℕ, ◌≡◌, refl, sym, ap, subst, Bool, true, false, ◌||◌, none, some, List, [], ◌∷◌, ◌++◌, Text,
  codes, ◌==◌, Result, ok, err, arith,
}
use muna_server.Values.{
  TensorData, float32, int32, int64, bools, Tensor, Value, null, string, float, double, int, long,
  bool, list, dict, tensor, image, array_list, image_list, binary,
}
use muna_server.Worker.Flush.{MunaError}
use muna_server.Handlers.Values.{
  Dtype, is_tensor_dtype, RemoteValue, Codec, split_once, strip_prefix, encode_data_url,
  decode_data_url, utf8_of, parse_buffer, parse_remote_value, to_bits, remote_of, create_tensor,
  scalar, bit_of, create_remote_value, string_type, list_type, dict_type, image_type,
  array_list_type, binary_type, null_type, is_null_type,
}

abbrev has_semicolon : Text → Bool
has_semicolon [] = false
has_semicolon (c ∷ s) = (c == b';') || has_semicolon s

-- The separator starts with a semicolon, so it stands nowhere in a text without one.
split_once-mime :
    (mime encoded : Text)
    → has_semicolon mime ≡ false
    → split_once (codes ";base64,") (mime ++ codes ";base64," ++ encoded) ≡ some (mime, encoded)
unfolding split_once
split_once-mime [] encoded h = refl
split_once-mime (c ∷ mime) encoded h =
    let differs : (c == b';') ≡ false = ground arith in
    let rest : has_semicolon mime ≡ false = ground arith in
    rw (differs, split_once-mime mime encoded rest) refl

ok-injective : {A E : Type 0} (a b : A) (r : Result A E) → r ≡ ok a → r ≡ ok b → a ≡ b
ok-injective a b r e f = cc

module _ {J : Type 0} (codec : Codec J) where
  -- What the code relies on: base64 decodes what it encodes, the serializers of tensors, images and
  -- maps of arrays read what they wrote, and serde_json reads its own output, which is UTF-8.
  pub record IsCodec : Type 0 where
    pub base64 : (b : List ℕ) → codec.decode (codec.encode b) ≡ ok b
    pub tensor_type : (elements : TensorData) → is_tensor_dtype (codec.dtype_of elements) ≡ true
    pub tensors :
        (t : Tensor) (b : List ℕ)
        → codec.serialize (tensor t) ≡ ok b
        → codec.from_bytes b (codes "application/vnd.muna.tensor") ≡ ok (tensor t)
    pub images :
        (n : ℕ) (b : List ℕ)
        → codec.serialize (image n) ≡ ok b
        → codec.from_bytes b (codes "image/*") ≡ ok (image n)
    pub array_lists :
        (n : ℕ) (b : List ℕ)
        → codec.serialize (array_list n) ≡ ok b
        → codec.from_bytes b (codes "application/x-npz") ≡ ok (array_list n)
    pub lists :
        (v : List J) (s : Text)
        → codec.list_to_string v ≡ ok s
        → (codec.from_utf8 s ≡ ok s) × (codec.list_from_str s ≡ ok v)
    pub dicts :
        (v : J) (s : Text)
        → codec.dict_to_string v ≡ ok s
        → (codec.from_utf8 s ≡ ok s) × (codec.dict_from_str s ≡ ok v)

  -- A string is UTF-8. A list of images goes as AVIF, which may lose detail.
  abbrev pub IsFaithful : Value J → Type 0
  IsFaithful value = elim value [
    | string s ↦ codec.from_utf8 s ≡ ok s
    | image_list n ↦ ⊥
    | _ ↦ Unit
  ]

  -- The value that the other side gets: numbers arrive as tensors, and a `f64` as a `f32`.
  abbrev pub arrives : Value J → Value J
  arrives value = elim value [
    | float v ↦ tensor (scalar codec (float32 (v ∷ [])))
    | double v ↦ tensor (scalar codec (float32 (codec.narrow v ∷ [])))
    | int v ↦ tensor (scalar codec (int32 (to_bits codec 32 v ∷ [])))
    | long v ↦ tensor (scalar codec (int64 (to_bits codec 64 v ∷ [])))
    | bool v ↦ tensor (scalar codec (bools (bit_of codec v ∷ [])))
    | other ↦ other
  ]

  tensor-not_null :
      (dtype : Dtype) → is_tensor_dtype dtype ≡ true → is_null_type codec dtype ≡ false
  unfolding is_tensor_dtype
  tensor-not_null dtype h = ground arith

  decode-encode :
      IsCodec
      → (b : List ℕ) (mime : Text) → has_semicolon mime ≡ false
      → decode_data_url codec (encode_data_url codec b mime) ≡ ok b
  unfolding decode_data_url encode_data_url strip_prefix
  decode-encode laws b mime h = rw (split_once-mime mime (codec.encode b) h, laws.base64 b) refl

  remote_of-ok :
      (dtype : Dtype) (mime : Text) (buffer : Result (List ℕ) MunaError) (r : RemoteValue)
      → remote_of codec dtype mime buffer ≡ ok r
      → (b : List ℕ) × (buffer ≡ ok b)
        × (r ≡ record { url = some (encode_data_url codec b mime); dtype = dtype })
  unfolding remote_of
  remote_of-ok dtype mime (ok b) r e = (b, refl, cc)
  remote_of-ok dtype mime (err m) r e = absurd (cc)

  parse-url :
      IsCodec
      → (dtype : Dtype) (mime : Text) (buffer : Result (List ℕ) MunaError) (r : RemoteValue)
      → (out : Value J) → is_null_type codec dtype ≡ false
      → has_semicolon mime ≡ false
      → ((b : List ℕ) → buffer ≡ ok b → parse_buffer codec dtype b ≡ ok out)
      → remote_of codec dtype mime buffer ≡ ok r
      → parse_remote_value codec r ≡ ok out
  unfolding parse_remote_value
  parse-url laws dtype mime buffer r out n h parse e =
      let (b, f, g) = remote_of-ok dtype mime buffer r e in
      subst (λ q. parse_remote_value codec q ≡ ok out) (sym g)
        (rw (n, decode-encode laws b mime h, parse b f) refl)

  tensor_arrives :
      IsCodec
      → (t : Tensor) (r : RemoteValue) → create_tensor codec t ≡ ok r
      → parse_remote_value codec r ≡ ok (tensor t)
  unfolding create_tensor parse_buffer
  tensor_arrives laws t r e =
      parse-url laws (codec.dtype_of t.elements) (codes "application/octet-stream")
        (codec.serialize (tensor t)) r (tensor t)
        (tensor-not_null (codec.dtype_of t.elements) (laws.tensor_type t.elements)) refl
        (λ b f. rw (laws.tensor_type t.elements, laws.tensors t b f) refl) e

  -- A value that is sent and received arrives as `arrives` says, and no error comes between: null,
  -- strings, lists, dictionaries, tensors, images, maps of arrays and bytes arrive as they were, and
  -- numbers and Booleans as tensors of one element, where a 64-bit float arrives narrowed to 32
  -- bits. The serializers are taken to read what they write; lists of images are left out.
  pub create_remote_value-parse :
      IsCodec
      → (value : Value J) (remote : RemoteValue) → IsFaithful value
      → create_remote_value codec value ≡ ok remote
      → parse_remote_value codec remote ≡ ok (arrives value)
  unfolding create_remote_value parse_buffer utf8_of parse_remote_value
  create_remote_value-parse laws null remote h e =
      subst (λ q. parse_remote_value codec q ≡ ok null)
        (ok-injective (record { url = none; dtype = null_type }) remote
          (create_remote_value codec null) refl e)
        refl
  create_remote_value-parse laws (string s) remote h e =
      parse-url laws string_type (codes "text/plain") (ok s) remote (string s) refl refl
        (λ b f.
          subst (λ t. parse_buffer codec string_type t ≡ ok (string s))
            (ok-injective {E = MunaError} s b (ok s) refl f) (rw h refl))
        e
  create_remote_value-parse laws (float v) remote h e = tensor_arrives laws _ remote e
  create_remote_value-parse laws (double v) remote h e = tensor_arrives laws _ remote e
  create_remote_value-parse laws (int v) remote h e = tensor_arrives laws _ remote e
  create_remote_value-parse laws (long v) remote h e = tensor_arrives laws _ remote e
  create_remote_value-parse laws (bool v) remote h e = tensor_arrives laws _ remote e
  create_remote_value-parse laws (tensor t) remote h e = tensor_arrives laws t remote e
  create_remote_value-parse laws (list v) remote h e =
      parse-url laws list_type (codes "application/json") (codec.list_to_string v) remote (list v)
        refl refl (λ b f. rw ((laws.lists v b f).0, (laws.lists v b f).1) refl) e
  create_remote_value-parse laws (dict v) remote h e =
      parse-url laws dict_type (codes "application/json") (codec.dict_to_string v) remote (dict v)
        refl refl (λ b f. rw ((laws.dicts v b f).0, (laws.dicts v b f).1) refl) e
  create_remote_value-parse laws (image n) remote h e =
      parse-url laws image_type (codes "image/png") (codec.serialize (image n)) remote (image n)
        refl refl (λ b f. laws.images n b f) e
  create_remote_value-parse laws (array_list n) remote h e =
      parse-url laws array_list_type (codes "application/x-npz") (codec.serialize (array_list n))
        remote (array_list n) refl refl (λ b f. laws.array_lists n b f) e
  create_remote_value-parse laws (image_list n) remote h e = absurd h
  create_remote_value-parse laws (binary bytes) remote h e =
      parse-url laws binary_type (codes "application/octet-stream") (ok bytes) remote (binary bytes)
        refl refl
        (λ b f.
          ap (λ x. ok (binary x)) (sym (ok-injective {E = MunaError} bytes b (ok bytes) refl f)))
        e
