-- ===== src/Merge/Split.antt =====
-- Proofs about `split_results` (src/serving/dispatch/merge.rs).
use muna_server.Base.{
  ℕ, ◌*◌, ◌^◌, ◌<◌, max, ◌≡◌, ◌≢◌, refl, sym, ◌∙◌, ap, some, List, [], ◌∷◌, ◌++◌, map, length,
  flatten, All, append-nil, append_assoc, arith, ℤ,
}
use mathlib.Core.Path.{fun_ext}
use muna_server.Values.{Value, list, tensor, Tensor, TensorData}
use muna_server.Merge.{
  as_usize, product, sum, split_shaped, split_value, push_each, split_loop, split_results, repeat,
}
use muna_server.Merge.Pieces.{tensor_of, split_value_lists, split_value_rows}

-- What one output of a model holds for each request: a list of items, rows of a tensor, or a value
-- that all requests share.
pub data Output {κ} (J : Type 0) (X : Type κ) : Type κ where
  per_item : (X → List J) → Output J X
  per_row : TensorData → List ℤ → (X → List ℕ) → Output J X
  shared : Value J → Output J X

-- A value that is neither a list nor a tensor of `total` entries.
abbrev pub IsWholeShape : List ℤ → ℕ → Type 0
IsWholeShape [] total = Unit
IsWholeShape (d ∷ dims) total = as_usize d ≢ total

module _ {J : Type 0} where
  abbrev pub IsWhole : Value J → ℕ → Type 0
  IsWhole (list items) total = length items ≢ total
  IsWhole (tensor t) total = IsWholeShape t.shape total
  IsWhole _ total = Unit

  split_shaped-IsWhole :
      (t : Tensor) (shape : List ℤ) (counts : List ℕ)
      → IsWholeShape shape (sum counts)
      → split_shaped {J = J} t shape counts ≡ some (repeat (tensor t) counts)
  unfolding split_shaped
  split_shaped-IsWhole t [] counts h = refl
  split_shaped-IsWhole t (d ∷ dims) counts h = ground arith

  split_value-IsWhole :
      (v : Value J) (counts : List ℕ)
      → IsWhole v (sum counts)
      → split_value v counts ≡ some (repeat v counts)
  unfolding split_value
  split_value-IsWhole (list items) counts h = ground arith
  split_value-IsWhole (tensor t) counts h = split_shaped-IsWhole t t.shape counts h
  split_value-IsWhole _ counts h = refl

module _ {κ} {J : Type 0} {X : Type κ} (count : X → ℕ) (xs : List X) where
  -- The output of one invocation for all of the requests.
  abbrev pub merged_output : Output J X → Value J
  merged_output (per_item f) = list (flatten (map f xs))
  merged_output (per_row d dims f) =
      tensor (tensor_of d dims (sum (map count xs)) (flatten (map f xs)))
  merged_output (shared v) = v

  -- The output is as long as the requests' counts say, and a shared value is none that the split
  -- would cut up.
  abbrev pub FitsCounts : Output J X → Type 0
  FitsCounts (per_item f) = All (λ x. length (f x) ≡ count x) xs
  FitsCounts (per_row d dims f) =
      All (λ x. length (f x) ≡ count x * max (product dims) 1) xs
      × (sum (map count xs) < 2 ^ 31)
      × (sum (map count xs) * max (product dims) 1 < 2 ^ 64)
  FitsCounts (shared v) = IsWhole v (sum (map count xs))

module _ {κ} {J : Type 0} {X : Type κ} (count : X → ℕ) where
  -- The output of an invocation for one request alone.
  abbrev pub own_output : Output J X → X → Value J
  own_output (per_item f) x = list (f x)
  own_output (per_row d dims f) x = tensor (tensor_of d dims (count x) (f x))
  own_output (shared v) x = v

  repeat-map : (v : Value J) (xs : List X) → repeat v (map count xs) ≡ map (λ x. v) xs
  repeat-map v [] = refl
  repeat-map v (x ∷ xs) = rw (repeat-map v xs) refl

  split_value-merged_output :
      (o : Output J X) (xs : List X)
      → FitsCounts count xs o
      → split_value (merged_output count xs o) (map count xs) ≡ some (map (own_output o) xs)
  split_value-merged_output (per_item f) xs h = split_value_lists count f xs h
  split_value-merged_output (per_row d dims f) xs h = split_value_rows d dims count f xs h.0 h.1 h.2
  split_value-merged_output (shared v) xs h =
      split_value-IsWhole v (map count xs) h ∙ ap some (repeat-map v xs)

  push_each-map :
      (g : X → List (Value J)) (h : X → Value J) (xs : List X)
      → push_each (map g xs) (map h xs) ≡ map (λ x. g x ++ h x ∷ []) xs
  unfolding push_each
  push_each-map g h [] = refl
  push_each-map g h (x ∷ xs) = rw (push_each-map g h xs) refl

  split_loop-outputs :
      (os : List (Output J X)) (xs : List X) (g : X → List (Value J))
      → All (FitsCounts count xs) os
      → split_loop (map (merged_output count xs) os) (map count xs) (map g xs)
        ≡ some (map (λ x. g x ++ map (λ o. own_output o x) os) xs)
  unfolding split_loop
  split_loop-outputs [] xs g h =
      ap some (ap (λ k. map k xs) (fun_ext (λ x. sym (append-nil (g x)))))
  split_loop-outputs (o ∷ os) xs g h =
      rw
        (
          split_value-merged_output o xs h.0,
          push_each-map g (own_output o) xs,
          split_loop-outputs os xs (λ x. g x ++ own_output o x ∷ []) h.1,
        )
        (ap some (
          ap (λ k. map k xs)
            (fun_ext
              (λ x. append_assoc (g x) (own_output o x ∷ []) (map (λ p. own_output p x) os)))))

  map-nil : (xs : List X) → map (λ _. []) (map count xs) ≡ map {B = List (Value J)} (λ _. []) xs
  map-nil [] = refl
  map-nil (x ∷ xs) = rw (map-nil xs) refl

  -- Splitting the results of one invocation for all requests gives every request, in order, what
  -- an invocation for it alone would have given: its own items of each list, its own rows of each
  -- tensor, and each shared value. This asks that each output fits the counts.
  pub split_results-outputs :
      (os : List (Output J X)) (xs : List X)
      → All (FitsCounts count xs) os
      → split_results (map (merged_output count xs) os) (map count xs)
        ≡ some (map (λ x. map (λ o. own_output o x) os) xs)
  unfolding split_results
  split_results-outputs os xs h = rw (map-nil xs) (split_loop-outputs os xs (λ _. []) h)
