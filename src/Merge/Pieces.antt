-- ===== src/Merge/Pieces.antt =====
-- Proofs about `split_list` and `split_tensor` (the slicing loops of `split_results`,
-- src/serving/dispatch/merge.rs): the pieces they cut, and one merged list or tensor cut up again.
use muna_server.Base.{
  ℕ, ◌+◌, ◌*◌, ◌%◌, ◌^◌, ◌≤◌, ◌<◌, max, ◌≡◌, refl, ap, some, List, [], ◌∷◌, map, length, take, drop,
  flatten, All, length-append, take-append, drop-append, drop-drop, arith, le→leb, ==_iff, ℤ,
}
use muna_server.Values.{
  Value, list, tensor, Tensor, TensorData, float32, float64, int8, int16, int32, int64, uint8,
  uint16, uint32, uint64, complex64, complex128, bools,
}
use muna_server.Merge.{
  ◌>>=◌, slice, slice_tensor_data, as_i32, as_usize, product, sum, split_list, split_tensor,
  split_shaped, split_value,
}

pub slice-ok {ℓ} :
    {A : Type ℓ} (xs : List A) (start count : ℕ)
    → start + count ≤ length xs
    → slice xs start (start + count) ≡ some (take count (drop start xs))
unfolding slice
slice-ok xs start count h =
    rw (le→leb start (start + count) (omega arith), le→leb (start + count) (length xs) h)
      (ap (λ n. some (take n (drop start xs))) (omega arith))

-- The pieces of a list, each cut off the front of what is left.
abbrev pub pieces {ℓ} : {A : Type ℓ} → List A → List ℕ → List (List A)
pieces xs [] = []
pieces xs (n ∷ ns) = take n xs ∷ pieces (drop n xs) ns

split_list-pieces {ℓ} :
    {A : Type ℓ} (xs : List A) (offset : ℕ) (counts : List ℕ)
    → offset + sum counts ≤ length xs
    → split_list xs offset counts ≡ some (pieces (drop offset xs) counts)
unfolding split_list
split_list-pieces xs offset [] h = refl
split_list-pieces xs offset (n ∷ ns) h =
    rw
      (
        slice-ok xs offset n (omega arith),
        split_list-pieces xs (offset + n) ns (omega arith),
        drop-drop offset n xs,
      )
      refl

pieces-flatten {ℓ} :
    {A : Type ℓ} (xss : List (List A)) → pieces (flatten xss) (map length xss) ≡ xss
pieces-flatten [] = refl
pieces-flatten (xs ∷ xss) =
    rw (take-append xs (flatten xss), drop-append xs (flatten xss), pieces-flatten xss) refl

length-flatten {ℓ} :
    {A : Type ℓ} (xss : List (List A)) → length (flatten xss) ≡ sum (map length xss)
length-flatten [] = refl
length-flatten (xs ∷ xss) = omega (arith, length-append xs (flatten xss), length-flatten xss)

module _ {J : Type 0} where
  split_value-flatten :
      (lists : List (List J))
      → split_value (list (flatten lists)) (map length lists) ≡ some (map list lists)
  unfolding split_value
  split_value-flatten lists =
      rw
        (
          length-flatten lists,
          (==_iff (sum (map length lists)) (sum (map length lists))).1 refl,
          split_list-pieces (flatten lists) 0 (map length lists)
              (omega (arith, length-flatten lists)),
          pieces-flatten lists,
        )
        refl

  pub split_value_lists {κ} :
      {X : Type κ} (count : X → ℕ) (f : X → List J) (xs : List X)
      → All (λ x. length (f x) ≡ count x) xs
      → split_value (list (flatten (map f xs))) (map count xs) ≡ some (map (λ x. list (f x)) xs)
  split_value_lists {X} count f xs h =
      rw (← counts xs h, split_value-flatten (map f xs)) (ap some (map-map xs))
    where
      counts :
          (ys : List X)
          → All (λ x. length (f x) ≡ count x) ys
          → map length (map f ys) ≡ map count ys
      counts [] h = refl
      counts (y ∷ ys) h = rw (h.0, counts ys h.1) refl

      map-map : (ys : List X) → map list (map f ys) ≡ map (λ x. list (f x)) ys
      map-map [] = refl
      map-map (y ∷ ys) = rw (map-map ys) refl

-- The elements of a tensor, and the same type of tensor with others.
abbrev pub elements_of : TensorData → List ℕ
elements_of (float32 v) = v
elements_of (float64 v) = v
elements_of (int8 v) = v
elements_of (int16 v) = v
elements_of (int32 v) = v
elements_of (int64 v) = v
elements_of (uint8 v) = v
elements_of (uint16 v) = v
elements_of (uint32 v) = v
elements_of (uint64 v) = v
elements_of (complex64 v) = v
elements_of (complex128 v) = v
elements_of (bools v) = v

abbrev pub with_elements : TensorData → List ℕ → TensorData
with_elements (float32 _) w = float32 w
with_elements (float64 _) w = float64 w
with_elements (int8 _) w = int8 w
with_elements (int16 _) w = int16 w
with_elements (int32 _) w = int32 w
with_elements (int64 _) w = int64 w
with_elements (uint8 _) w = uint8 w
with_elements (uint16 _) w = uint16 w
with_elements (uint32 _) w = uint32 w
with_elements (uint64 _) w = uint64 w
with_elements (complex64 _) w = complex64 w
with_elements (complex128 _) w = complex128 w
with_elements (bools _) w = bools w

elements_of-with_elements : (d : TensorData) (w : List ℕ) → elements_of (with_elements d w) ≡ w
elements_of-with_elements (float32 v) w = refl
elements_of-with_elements _ w = refl

with_elements-with_elements :
    (d : TensorData) (v w : List ℕ) → with_elements (with_elements d v) w ≡ with_elements d w
with_elements-with_elements (float32 u) v w = refl
with_elements-with_elements _ v w = refl

slice_tensor_data-elements :
    (d : TensorData) (start end : ℕ)
    → slice_tensor_data d start end
      ≡ (slice (elements_of d) start end >>= λ w. some (with_elements d w))
unfolding slice_tensor_data
slice_tensor_data-elements (float32 v) start end = refl
slice_tensor_data-elements _ start end = refl

abbrev pub tensors : TensorData → List ℤ → ℕ → List ℕ → List ℕ → List Tensor
tensors d dims inner xs [] = []
tensors d dims inner xs (n ∷ ns) =
    record { elements = with_elements d (take (n * inner) xs); shape = as_i32 n ∷ dims }
    ∷ tensors d dims inner (drop (n * inner) xs) ns

split_tensor-pieces :
    (d : TensorData) (dims : List ℤ) (inner offset : ℕ) (counts : List ℕ)
    → (offset + sum counts) * inner ≤ length (elements_of d)
    → length (elements_of d) < 2 ^ 64
    → split_tensor d dims inner offset counts
      ≡ some (tensors d dims inner (drop (offset * inner) (elements_of d)) counts)
unfolding split_tensor
split_tensor-pieces d dims inner offset [] h fits = refl
split_tensor-pieces d dims inner offset (n ∷ ns) h fits =
    rw
      (
        start,
        end,
        slice_tensor_data-elements d (offset * inner) (offset * inner + n * inner),
        slice-ok (elements_of d) (offset * inner) (n * inner) (omega arith),
        split_tensor-pieces d dims inner (offset + n) ns (omega arith) fits,
        next,
      )
      refl
  where
    start : offset * inner % 2 ^ 64 ≡ offset * inner
    start = omega arith

    end : (offset + n) * inner % 2 ^ 64 ≡ offset * inner + n * inner
    end = omega arith

    next :
        drop ((offset + n) * inner) (elements_of d)
        ≡ drop (n * inner) (drop (offset * inner) (elements_of d))
    next =
        rw (drop-drop (offset * inner) (n * inner) (elements_of d))
          (ap (λ m. drop m (elements_of d)) (omega arith))

tensors-with_elements :
    (d : TensorData) (v : List ℕ) (dims : List ℤ) (inner : ℕ) (xs : List ℕ) (ns : List ℕ)
    → tensors (with_elements d v) dims inner xs ns ≡ tensors d dims inner xs ns
tensors-with_elements d v dims inner xs [] = refl
tensors-with_elements d v dims inner xs (n ∷ ns) =
    rw
      (
        with_elements-with_elements d v (take (n * inner) xs),
        tensors-with_elements d v dims inner (drop (n * inner) xs) ns,
      )
      refl

-- A tensor whose first dimension is `total`, and the other dimensions of it.
abbrev pub tensor_of : TensorData → List ℤ → ℕ → List ℕ → Tensor
tensor_of d dims n xs = record { elements = with_elements d xs; shape = as_i32 n ∷ dims }

tensors-flatten {κ} :
    {X : Type κ} (d : TensorData) (dims : List ℤ) (inner : ℕ) (count : X → ℕ) (f : X → List ℕ)
    (xs : List X)
    → All (λ x. length (f x) ≡ count x * inner) xs
    → tensors d dims inner (flatten (map f xs)) (map count xs)
      ≡ map (λ x. tensor_of d dims (count x) (f x)) xs
tensors-flatten d dims inner count f [] h = refl
tensors-flatten d dims inner count f (x ∷ xs) h =
    rw
      (
        ← h.0,
        take-append (f x) (flatten (map f xs)),
        drop-append (f x) (flatten (map f xs)),
        tensors-flatten d dims inner count f xs h.1,
      )
      refl

length-flatten_rows {κ} :
    {X : Type κ} (inner : ℕ) (count : X → ℕ) (f : X → List ℕ) (xs : List X)
    → All (λ x. length (f x) ≡ count x * inner) xs
    → length (flatten (map f xs)) ≡ sum (map count xs) * inner
length-flatten_rows inner count f [] h = omega arith
length-flatten_rows inner count f (x ∷ xs) h =
    omega (
      arith,
      h.0,
      length-flatten_rows inner count f xs h.1,
      length-append (f x) (flatten (map f xs)),
    )

as_usize-as_i32 : (n : ℕ) → n < 2 ^ 31 → as_usize (as_i32 n) ≡ n
unfolding as_usize as_i32
as_usize-as_i32 n h = ground arith

module _ {J : Type 0} where
  pub split_value_rows {κ} :
      {X : Type κ} (d : TensorData) (dims : List ℤ) (count : X → ℕ) (f : X → List ℕ) (xs : List X)
      → All (λ x. length (f x) ≡ count x * max (product dims) 1) xs
      → sum (map count xs) < 2 ^ 31
      → sum (map count xs) * max (product dims) 1 < 2 ^ 64
      → split_value {J = J}
          (tensor (tensor_of d dims (sum (map count xs)) (flatten (map f xs))))
          (map count xs)
        ≡ some (map (λ x. tensor (tensor_of d dims (count x) (f x))) xs)
  unfolding split_value split_shaped
  split_value_rows {X} d dims count f xs h small fits =
      rw
        (
          as_usize-as_i32 (sum (map count xs)) small,
          (==_iff (sum (map count xs)) (sum (map count xs))).1 refl,
          split_tensor-pieces whole dims inner 0 (map count xs) (rw elements (omega (arith, rows)))
              (rw elements (omega (arith, rows))),
        )
        (rw
          (
            none_dropped,
            elements,
            tensors-with_elements d (flatten (map f xs)) dims inner (flatten (map f xs))
                (map count xs),
            tensors-flatten d dims inner count f xs h,
          )
          (ap some (map-map xs)))
    where
      none_dropped : 0 * max (product dims) 1 ≡ 0
      none_dropped = omega arith

      map-map :
          (ys : List X)
          → map {B = Value J} (λ t. tensor t) (map (λ x. tensor_of d dims (count x) (f x)) ys)
            ≡ map (λ x. tensor (tensor_of d dims (count x) (f x))) ys
      map-map [] = refl
      map-map (y ∷ ys) = ap (λ r. tensor (tensor_of d dims (count y) (f y)) ∷ r) (map-map ys)

      inner : ℕ
      inner = max (product dims) 1

      whole : TensorData
      whole = with_elements d (flatten (map f xs))

      elements : elements_of whole ≡ flatten (map f xs)
      elements = elements_of-with_elements d (flatten (map f xs))

      rows : length (flatten (map f xs)) ≡ sum (map count xs) * inner
      rows = length-flatten_rows inner count f xs h
