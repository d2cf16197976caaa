-- ===== src/Batch/Key/Laws.antt =====
-- Proofs about the batch key (src/serving/batch.rs).
use mathlib.Core.List.{Permᴰ}
use muna_server.Base.{
  ℕ, true, not, List, [], ◌∷◌, ◌++◌, ◌≡◌, refl, sym, ap, Text, Map, filterb, sort, sort-Permᴰ, All,
  append_assoc, subst, text_leb,
}
use muna_server.Values.{Value, null, string, tensor, image, array_list, image_list, binary}
use muna_server.Batch.{contains}
use muna_server.Batch.Key.{Printer, join, key_part, value_fingerprint, key_parts, compute_batch_key}

-- The values whose fingerprint is not taken from the counter.
module _ {J : Type 0} where
  -- The values that have a fingerprint of their own.
  abbrev pub IsTransparent : Value J → Type 0
  IsTransparent (tensor t) = ⊥
  IsTransparent (image n) = ⊥
  IsTransparent (array_list n) = ⊥
  IsTransparent (image_list n) = ⊥
  IsTransparent (binary b) = ⊥
  IsTransparent _ = Unit

  abbrev pub broadcast : List Text → Map (Value J) → Map (Value J)
  broadcast params = filterb (λ e. not (contains params e.0))

module _ {J : Type 0} (printer : Printer J) where
  value_fingerprint-IsTransparent :
      (v : Value J) (c : ℕ)
      → IsTransparent v
      → value_fingerprint printer v c ≡ ((value_fingerprint printer v 0).0, c)
  unfolding value_fingerprint
  value_fingerprint-IsTransparent null c h = refl
  value_fingerprint-IsTransparent (tensor t) c h = absurd h
  value_fingerprint-IsTransparent (image n) c h = absurd h
  value_fingerprint-IsTransparent (array_list n) c h = absurd h
  value_fingerprint-IsTransparent (image_list n) c h = absurd h
  value_fingerprint-IsTransparent (binary b) c h = absurd h
  value_fingerprint-IsTransparent _ c h = refl

  abbrev plain_parts : Map (Value J) → List Text
  plain_parts [] = []
  plain_parts ((name, v) ∷ inputs) =
      key_part name (value_fingerprint printer v 0).0 ∷ plain_parts inputs

  key_parts-plain :
      (inputs : Map (Value J)) (c : ℕ)
      → All (λ e. IsTransparent e.1) inputs
      → key_parts printer inputs c ≡ (plain_parts inputs, c)
  unfolding key_parts
  key_parts-plain [] c h = refl
  key_parts-plain ((name, v) ∷ inputs) c h =
      rw (value_fingerprint-IsTransparent v c h.0, key_parts-plain inputs c h.1) refl

  plain_parts-Permᴰ :
      {xs ys : Map (Value J)} → Permᴰ xs ys → Permᴰ (plain_parts xs) (plain_parts ys)
  plain_parts-Permᴰ Permᴰ.nil = Permᴰ.nil
  plain_parts-Permᴰ (Permᴰ.cons e d) =
      Permᴰ.cons (ap (λ e. key_part e.0 (value_fingerprint printer e.1 0).0) e)
        (plain_parts-Permᴰ d)
  plain_parts-Permᴰ (Permᴰ.swap e f) =
      Permᴰ.swap (ap (λ e. key_part e.0 (value_fingerprint printer e.1 0).0) e)
        (ap (λ e. key_part e.0 (value_fingerprint printer e.1 0).0) f)
  plain_parts-Permᴰ (Permᴰ.trans d e) = Permᴰ.trans (plain_parts-Permᴰ d) (plain_parts-Permᴰ e)

All-Permᴰ {ℓ κ} : {A : Type ℓ} (P : A → Type κ) {xs ys : List A} → Permᴰ xs ys → All P xs → All P ys
All-Permᴰ P Permᴰ.nil h = h
All-Permᴰ P (Permᴰ.cons e d) h = (subst P e h.0, All-Permᴰ P d h.1)
All-Permᴰ P (Permᴰ.swap e f) h = (subst P f h.1.0, (subst P e h.0, h.1.1))
All-Permᴰ P (Permᴰ.trans d e) h = All-Permᴰ P e (All-Permᴰ P d h)

module _ {J : Type 0} (printer : Printer J) where
  compute_batch_key-plain :
      (inputs : Map (Value J)) (params : List Text) (c : ℕ)
      → All (λ e. IsTransparent e.1) (broadcast params inputs)
      → compute_batch_key printer inputs params c
        ≡ (join (sort (plain_parts printer (broadcast params inputs))), c)
  unfolding compute_batch_key
  compute_batch_key-plain inputs params c h =
      rw (key_parts-plain printer (broadcast params inputs) c h) refl

  -- The key does not depend on the order in which the hash map is walked, nor on the values of the
  -- batch parameters, and leaves the counter alone, as long as every broadcast value has a
  -- fingerprint of its own.
  pub compute_batch_key-order :
      (xs ys : Map (Value J)) (params : List Text) (c : ℕ)
      → Permᴰ (broadcast params xs) (broadcast params ys)
      → All (λ e. IsTransparent e.1) (broadcast params xs)
      → (compute_batch_key printer xs params c ≡ compute_batch_key printer ys params c)
        × ((compute_batch_key printer xs params c).1 ≡ c)
  compute_batch_key-order xs ys params c d h =
      rw
        (
          compute_batch_key-plain xs params c h,
          compute_batch_key-plain ys params c (All-Permᴰ (λ e. IsTransparent e.1) d h),
        )
        (ap (λ ts. (join ts, c)) (sort-Permᴰ (plain_parts-Permᴰ printer d)), refl)

  -- Two requests with different inputs get one key: a string value that spells out the separator
  -- and another parameter, and a request that has that parameter.
  pub compute_batch_key-collision :
      (a b s t : Text) (c : ℕ)
      → text_leb (key_part a (b's' ∷ b':' ∷ s)) (key_part b (b's' ∷ b':' ∷ t)) ≡ true
      → (compute_batch_key printer
            ((a, string (s ++ (b'&' ∷ key_part b (b's' ∷ b':' ∷ t)))) ∷ [])
            []
            c
          ≡ compute_batch_key printer ((a, string s) ∷ (b, string t) ∷ []) [] c)
  unfolding compute_batch_key sort text_leb
  compute_batch_key-collision a b s t c le = rw le (
      ap (λ u. (u, c))
        (sym (append_assoc a (b'=' ∷ b's' ∷ b':' ∷ s) (b'&' ∷ key_part b (b's' ∷ b':' ∷ t)))))
