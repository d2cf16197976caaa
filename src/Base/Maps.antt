-- ===== src/Base/Maps.antt =====
-- Rust's hash maps with string keys as association lists. The order of the list is the iteration
-- order, which Rust leaves open: a statement about every list holds for every order.
use mathlib.Core.Path.{◌≡◌, refl, subst, sym}
use mathlib.Core.Logic.{inl, inr}
use muna_server.Base.Lists.{All}
use mathlib.Core.Bool.{Bool, true, false}
use mathlib.Core.List.{List, [], ◌∷◌}
use mathlib.Core.Option.{Option, none, some}
use native.Mathlib.Omega.{arith}
use muna_server.Base.Tests.{if◌then◌else◌, Bool-cases}
use muna_server.Base.Texts.{Text, text_eq, text_eq_iff}

abbrev pub Map {ℓ} : Type ℓ → Type ℓ
Map V = List (Text × V)

module _ {ℓ} {V : Type ℓ} where
  unfoldable pub get : Map V → Text → Option V
  get [] k = none
  get ((j, v) ∷ m) k = if text_eq j k then some v else get m k

  -- A new key goes to the end, an old one keeps its place.
  unfoldable pub insert : Map V → Text → V → Map V
  insert [] k v = (k, v) ∷ []
  insert ((j, w) ∷ m) k v =
      let rest = insert m k v in if text_eq j k then (j, v) ∷ m else (j, w) ∷ rest

  unfoldable pub remove : Map V → Text → Map V
  remove [] k = []
  remove ((j, w) ∷ m) k = let rest = remove m k in if text_eq j k then rest else (j, w) ∷ rest

  unfoldable pub contains_key : Map V → Text → Bool
  unfolding get
  contains_key m k = elim (get m k) [ none ↦ false | some v ↦ true ]

module _ {ℓ} {V : Type ℓ} where
  pub get-insert :
      (m : Map V) (k j : Text) (v : V)
      → get (insert m k v) j ≡ (if text_eq k j then some v else get m j)
  unfolding get insert
  get-insert [] k j v = refl
  get-insert ((i, w) ∷ m) k j v =
      ground (arith, get-insert m k j v, text_eq_iff i k, text_eq_iff i j, text_eq_iff k j)

  pub get-insert_self : (m : Map V) (k : Text) (v : V) → get (insert m k v) k ≡ some v
  get-insert_self m k v = ground (arith, get-insert m k k v, text_eq_iff k k)

  pub get-remove :
      (m : Map V) (k j : Text) → get (remove m k) j ≡ (if text_eq k j then none else get m j)
  unfolding get remove
  get-remove [] k j = ground arith
  get-remove ((i, w) ∷ m) k j =
      ground (arith, get-remove m k j, text_eq_iff i k, text_eq_iff i j, text_eq_iff k j)

  pub get-remove_self : (m : Map V) (k : Text) → get (remove m k) k ≡ none
  get-remove_self m k = ground (arith, get-remove m k k, text_eq_iff k k)

module _ {ℓ} {V : Type ℓ} where
  -- No key stands twice, as in every hash map.
  abbrev pub IsMap : Map V → Type ℓ
  IsMap [] = Unit
  IsMap ((k, v) ∷ m) = (get m k ≡ none) × IsMap m

  pub insert-IsMap : (m : Map V) (k : Text) (v : V) → IsMap m → IsMap (insert m k v)
  unfolding insert get
  insert-IsMap [] k v h = (refl, tt)
  insert-IsMap ((j, w) ∷ m) k v h =
      ground (arith, insert-IsMap m k v, get-insert m k j v, text_eq_iff j k, text_eq_iff k j)

  pub remove-IsMap : (m : Map V) (k : Text) → IsMap m → IsMap (remove m k)
  unfolding remove get
  remove-IsMap [] k h = tt
  remove-IsMap ((j, w) ∷ m) k h =
      ground (arith, remove-IsMap m k, get-remove m k j, text_eq_iff j k, text_eq_iff k j)

module _ {ℓ κ} {V : Type ℓ} (P : Text × V → Type κ) where
  pub All-insert : (m : Map V) (k : Text) (v : V) → P (k, v) → All P m → All P (insert m k v)
  unfolding insert
  All-insert [] k v p h = (p, tt)
  All-insert ((j, w) ∷ m) k v p h = elim (Bool-cases (text_eq j k)) [
    | inl same ↦ rw same (subst (λ i. P (i, v)) (sym ((text_eq_iff j k).0 same)) p, h.1)
    | inr other ↦ rw other (h.0, All-insert m k v p h.1)
  ]

  pub All-remove : (m : Map V) (k : Text) → All P m → All P (remove m k)
  unfolding remove
  All-remove [] k h = tt
  All-remove ((j, w) ∷ m) k h = elim (Bool-cases (text_eq j k)) [
    | inl same ↦ rw same (All-remove m k h.1)
    | inr other ↦ rw other (h.0, All-remove m k h.1)
  ]

  pub All-get : (m : Map V) (k : Text) (v : V) → All P m → get m k ≡ some v → P (k, v)
  unfolding get
  All-get [] k v h e = cc
  All-get ((j, w) ∷ m) k v h e = elim (Bool-cases (text_eq j k)) [
    | inl same ↦
        let at : P (k, w) = subst (λ i. P (i, w)) ((text_eq_iff j k).0 same) h.0 in
        subst (λ u. P (k, u)) (ground arith) at
    | inr other ↦ All-get m k v h.1 (ground arith)
  ]
