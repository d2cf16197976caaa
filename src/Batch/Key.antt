-- ===== src/Batch/Key.antt =====
-- src/serving/batch.rs: `value_fingerprint` and `compute_batch_key`. The process-wide counter of
-- `value_fingerprint` is passed along; the JSON printer of serde_json is a parameter, with `none`
-- for an error.
pub mod Laws
use muna_server.Base.{
  ℕ, suc, ◌%◌, ◌^◌, Bool, true, false, not, Option, none, some, List, [], ◌∷◌, ◌++◌, Text, decimal,
  format_int, Map, filterb, sort,
}
use muna_server.Values.{
  Value, null, string, float, double, int, long, bool, list, dict, tensor, image, array_list,
  image_list, binary,
}
use muna_server.Batch.{contains}

-- `serde_json::to_string` on the crate's lists and dictionaries of JSON values.
pub record Printer (J : Type 0) : Type 0 where
  pub list_to_string : List J → Option Text
  pub dict_to_string : J → Option Text

abbrev pub unwrap_or_default : Option Text → Text
unwrap_or_default none = []
unwrap_or_default (some t) = t

abbrev pub format_bool : Bool → Text
format_bool true = b't' ∷ b'r' ∷ b'u' ∷ b'e' ∷ []
format_bool false = b'f' ∷ b'a' ∷ b'l' ∷ b's' ∷ b'e' ∷ []

-- "null", "list:", "dict:", "__opaque_", "__"
abbrev pub null_text : Text
null_text = b'n' ∷ b'u' ∷ b'l' ∷ b'l' ∷ []

abbrev pub list_text : Text
list_text = b'l' ∷ b'i' ∷ b's' ∷ b't' ∷ b':' ∷ []

abbrev pub dict_text : Text
dict_text = b'd' ∷ b'i' ∷ b'c' ∷ b't' ∷ b':' ∷ []

abbrev pub opaque_text : Text
opaque_text = b'_' ∷ b'_' ∷ b'o' ∷ b'p' ∷ b'a' ∷ b'q' ∷ b'u' ∷ b'e' ∷ b'_' ∷ []

-- The fingerprint of a value that has no identity of its own. `fetch_add` on an `AtomicU64` wraps.
unfoldable pub opaque : ℕ → Text × ℕ
opaque counter = (opaque_text ++ (decimal counter ++ (b'_' ∷ b'_' ∷ [])), suc counter % 2 ^ 64)

abbrev pub joined : Text → List Text → Text
joined t [] = t
joined t (u ∷ us) = t ++ (b'&' ∷ joined u us)

-- `join("&")`
abbrev pub join : List Text → Text
join [] = []
join (t ∷ ts) = joined t ts

-- "{name}={fingerprint}"
abbrev pub key_part : Text → Text → Text
key_part name fingerprint = name ++ (b'=' ∷ fingerprint)

module _ {J : Type 0} (printer : Printer J) where
  unfoldable pub value_fingerprint : Value J → ℕ → Text × ℕ
  unfolding opaque
  value_fingerprint null c = (null_text, c)
  value_fingerprint (string s) c = (b's' ∷ b':' ∷ s, c)
  value_fingerprint (float f) c = (b'f' ∷ b':' ∷ decimal f, c)
  value_fingerprint (double d) c = (b'd' ∷ b':' ∷ decimal d, c)
  value_fingerprint (int i) c = (b'i' ∷ b':' ∷ format_int i, c)
  value_fingerprint (long l) c = (b'l' ∷ b':' ∷ format_int l, c)
  value_fingerprint (bool b) c = (b'b' ∷ b':' ∷ format_bool b, c)
  value_fingerprint (list l) c = (list_text ++ unwrap_or_default (printer.list_to_string l), c)
  value_fingerprint (dict d) c = (dict_text ++ unwrap_or_default (printer.dict_to_string d), c)
  value_fingerprint (tensor t) c = opaque c
  value_fingerprint (image n) c = opaque c
  value_fingerprint (array_list n) c = opaque c
  value_fingerprint (image_list n) c = opaque c
  value_fingerprint (binary b) c = opaque c

  -- The parts of the key, in the order in which the map is walked.
  unfoldable pub key_parts : Map (Value J) → ℕ → List Text × ℕ
  unfolding value_fingerprint
  key_parts [] c = ([], c)
  key_parts ((name, value) ∷ inputs) c =
      let (fingerprint, c1) = value_fingerprint value c in
      let (parts, c2) = key_parts inputs c1 in (key_part name fingerprint ∷ parts, c2)

  -- The key, and the counter afterwards.
  unfoldable pub compute_batch_key : Map (Value J) → List Text → ℕ → Text × ℕ
  unfolding key_parts contains
  compute_batch_key inputs batch_params c =
      let (parts, c') = key_parts (filterb (λ e. not (contains batch_params e.0)) inputs) c in
      (join (sort parts), c')
