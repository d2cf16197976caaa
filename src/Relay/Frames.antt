-- ===== src/Relay/Frames.antt =====
-- src/control/kv_relay.rs: `parse_message`, which decodes the three frames of one message. The JSON
-- parser is a parameter.
use muna_server.Base.{
  ℕ, ◌+◌, ◌*◌, ◌/◌, ◌%◌, ◌^◌, ◌<◌, ◌≡◌, ap, Option, none, some, List, [], ◌∷◌, Text, text_eq,
  length, ◌==◌, ◌&&◌, if◌then◌else◌, arith,
}

-- "kv"
abbrev pub kv_topic : Text
kv_topic = b'k' ∷ b'v' ∷ []

-- `u64::from_be_bytes`
abbrev pub from_be_bytes : ℕ → List ℕ → ℕ
from_be_bytes acc [] = acc
from_be_bytes acc (b ∷ bytes) = from_be_bytes (acc * 256 + b) bytes

module _ {J : Type 0} (from_slice : Text → Option J) where
  unfoldable pub parse_message : List Text → Option (ℕ × J)
  parse_message (topic ∷ seq_bytes ∷ payload ∷ []) =
      if text_eq topic kv_topic && (length seq_bytes == 8)
      then elim (from_slice payload) [ none ↦ none | some v ↦ some (from_be_bytes 0 seq_bytes, v) ]
      else none
  parse_message _ = none

-- The number as eight bytes, the highest first.
abbrev pub to_be_bytes : ℕ → List ℕ
to_be_bytes n =
    n / 2 ^ 56 % 256
    ∷ n / 2 ^ 48 % 256
    ∷ n / 2 ^ 40 % 256
    ∷ n / 2 ^ 32 % 256
    ∷ n / 2 ^ 24 % 256
    ∷ n / 2 ^ 16 % 256
    ∷ n / 2 ^ 8 % 256
    ∷ n % 256
    ∷ []

from_be_bytes-to_be_bytes : (n : ℕ) → n < 2 ^ 64 → from_be_bytes 0 (to_be_bytes n) ≡ n
from_be_bytes-to_be_bytes n h = omega arith

module _ {J : Type 0} (from_slice : Text → Option J) where
  -- A message with a 64-bit number written as eight bytes, the highest first, is decoded to this number
  -- and the parsed payload, and to nothing if the payload does not parse.
  pub parse_message-to_be_bytes :
      (n : ℕ) (payload : Text)
      → n < 2 ^ 64
      → parse_message from_slice (kv_topic ∷ to_be_bytes n ∷ payload ∷ [])
        ≡ elim (from_slice payload) [ none ↦ none | some v ↦ some (n, v) ]
  unfolding parse_message text_eq
  parse_message-to_be_bytes n payload h =
      ap (λ k. elim (from_slice payload) [ none ↦ none | some v ↦ some (k, v) ])
        (from_be_bytes-to_be_bytes n h)
