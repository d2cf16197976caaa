-- ===== src/Merge.antt =====
-- src/serving/dispatch/merge.rs: one input map for a batch, and its results split per request.
-- A function that can panic in Rust returns `none` there.
pub mod Inputs
pub mod Pieces
pub mod Split
use muna_server.Base.{
  ℕ, suc, ◌+◌, ◌-◌, ◌*◌, ◌%◌, ◌^◌, max, Bool, true, false, not, Option, none, some, List, [], ◌∷◌,
  ◌++◌, map, Text, Map, get, insert, filterb, length, take, drop, ltb, leb, ◌==◌, ℤ, pos, negsuc,
  if◌then◌else◌,
}
use muna_server.Values.{
  TensorData, float32, float64, int8, int16, int32, int64, uint8, uint16, uint32, uint64, complex64,
  complex128, bools, Tensor, Value, list, tensor,
}
use muna_server.Batch.{contains}

infixl 5 ◌>>=◌
abbrev pub ◌>>=◌ {ℓ κ} : {A : Type ℓ} {B : Type κ} → Option A → (A → Option B) → Option B
none >>= f = none
some a >>= f = f a

module _ {J : Type 0} where
  -- The items of a parameter that holds a list. Any other value gives none.
  unfoldable pub list_items : Option (Value J) → List J
  list_items (some (list items)) = items
  list_items _ = []

  -- `combined`: the items of one batch parameter, in request order.
  unfoldable pub combine : List (Map (Value J)) → Text → List J
  unfolding list_items
  combine [] name = []
  combine (inputs ∷ batch) name = list_items (get inputs name) ++ combine batch name

  unfoldable pub insert_combined : List (Map (Value J)) → List Text → Map (Value J) → Map (Value J)
  unfolding combine
  insert_combined batch [] merged = merged
  insert_combined batch (name ∷ names) merged =
      insert_combined batch names (insert merged name (list (combine batch name)))

  unfoldable pub insert_broadcast : Map (Value J) → List Text → Map (Value J) → Map (Value J)
  insert_broadcast [] batch_params merged = merged
  insert_broadcast ((key, value) ∷ inputs) batch_params merged =
      insert_broadcast inputs batch_params
        (if contains batch_params key then merged else insert merged key value)

  unfoldable pub merge_inputs : List (Map (Value J)) → List Text → Option (Map (Value J))
  unfolding insert_broadcast insert_combined
  merge_inputs [] batch_params = none
  merge_inputs (first ∷ []) batch_params = some first
  merge_inputs (first ∷ second ∷ rest) batch_params = some (
      insert_combined (first ∷ second ∷ rest) batch_params (insert_broadcast first batch_params []))

-- `&v[start..end]`, which panics out of range.
unfoldable pub slice {ℓ} : {A : Type ℓ} → List A → ℕ → ℕ → Option (List A)
slice v start end =
    if leb start end
    then (if leb end (length v) then some (take (end - start) (drop start v)) else none)
    else none

unfoldable pub slice_tensor_data : TensorData → ℕ → ℕ → Option TensorData
unfolding slice
slice_tensor_data (float32 v) start end = slice v start end >>= λ w. some (float32 w)
slice_tensor_data (float64 v) start end = slice v start end >>= λ w. some (float64 w)
slice_tensor_data (int8 v) start end = slice v start end >>= λ w. some (int8 w)
slice_tensor_data (int16 v) start end = slice v start end >>= λ w. some (int16 w)
slice_tensor_data (int32 v) start end = slice v start end >>= λ w. some (int32 w)
slice_tensor_data (int64 v) start end = slice v start end >>= λ w. some (int64 w)
slice_tensor_data (uint8 v) start end = slice v start end >>= λ w. some (uint8 w)
slice_tensor_data (uint16 v) start end = slice v start end >>= λ w. some (uint16 w)
slice_tensor_data (uint32 v) start end = slice v start end >>= λ w. some (uint32 w)
slice_tensor_data (uint64 v) start end = slice v start end >>= λ w. some (uint64 w)
slice_tensor_data (complex64 v) start end = slice v start end >>= λ w. some (complex64 w)
slice_tensor_data (complex128 v) start end = slice v start end >>= λ w. some (complex128 w)
slice_tensor_data (bools v) start end = slice v start end >>= λ w. some (bools w)

-- `i as usize` of an `i32`: sign extension to 64 bits.
unfoldable pub as_usize : ℤ → ℕ
as_usize (pos n) = n
as_usize (negsuc n) = 2 ^ 64 - suc n

-- `n as i32` of a `usize`: the low 32 bits.
unfoldable pub as_i32 : ℕ → ℤ
as_i32 n = let low = n % 2 ^ 32 in if ltb low (2 ^ 31) then pos low else negsuc (2 ^ 32 - 1 - low)

-- The product of the dimensions after the first, in `usize`.
unfoldable pub product : List ℤ → ℕ
unfolding as_usize
product [] = 1
product (d ∷ ds) = as_usize d * product ds % 2 ^ 64

-- The pieces of a list, one for each count.
unfoldable pub split_list {ℓ} : {A : Type ℓ} → List A → ℕ → List ℕ → Option (List (List A))
unfolding slice
split_list items offset [] = some []
split_list items offset (count ∷ counts) = slice items offset (offset + count) >>= λ piece.
    split_list items (offset + count) counts >>= λ pieces. some (piece ∷ pieces)

-- The pieces of a tensor along its first dimension; `dims` are the other dimensions.
unfoldable pub split_tensor : TensorData → List ℤ → ℕ → ℕ → List ℕ → Option (List Tensor)
unfolding slice_tensor_data as_i32
split_tensor elements dims inner offset [] = some []
split_tensor elements dims inner offset (count ∷ counts) =
    slice_tensor_data elements (offset * inner % 2 ^ 64) ((offset + count) * inner % 2 ^ 64)
    >>= λ piece. split_tensor elements dims inner (offset + count) counts >>= λ pieces.
        some (record { elements = piece; shape = as_i32 count ∷ dims } ∷ pieces)

abbrev pub sum : List ℕ → ℕ
sum [] = 0
sum (n ∷ ns) = n + sum ns

module _ {J : Type 0} where
  abbrev pub repeat : Value J → List ℕ → List (Value J)
  repeat v [] = []
  repeat v (n ∷ ns) = v ∷ repeat v ns

  unfoldable pub split_shaped : Tensor → List ℤ → List ℕ → Option (List (Value J))
  unfolding as_usize product split_tensor
  split_shaped t [] counts = some (repeat (tensor t) counts)
  split_shaped t (d ∷ dims) counts =
      if as_usize d == sum counts
      then (split_tensor t.elements dims (max (product dims) 1) 0 counts >>= λ ts.
          some (map tensor ts))
      else some (repeat (tensor t) counts)

  -- One value per request out of one result of the merged invocation.
  unfoldable pub split_value : Value J → List ℕ → Option (List (Value J))
  unfolding split_list split_shaped
  split_value (tensor t) counts = split_shaped t t.shape counts
  split_value (list items) counts =
      if length items == sum counts
      then (split_list items 0 counts >>= λ pieces. some (map list pieces))
      else some (repeat (list items) counts)
  split_value value counts = some (repeat value counts)

  -- `splits[i].push(..)` for every request `i`.
  unfoldable pub push_each : List (List (Value J)) → List (Value J) → List (List (Value J))
  push_each (s ∷ splits) (v ∷ vs) = (s ++ v ∷ []) ∷ push_each splits vs
  push_each splits vs = splits

  unfoldable pub split_loop :
      List (Value J) → List ℕ → List (List (Value J)) → Option (List (List (Value J)))
  unfolding split_value push_each
  split_loop [] counts splits = some splits
  split_loop (value ∷ results) counts splits =
      split_value value counts >>= λ pieces. split_loop results counts (push_each splits pieces)

  unfoldable pub split_results : List (Value J) → List ℕ → Option (List (List (Value J)))
  unfolding split_loop
  split_results results counts = split_loop results counts (map (λ _. []) counts)
