-- ===== src/Images/Inline/Laws/Walks.antt =====
-- Proofs about the walk over the parts of a request (src/serving/remote_images.rs).
use muna_server.Base.{
  ◌≡◌, refl, inl, inr, Option, none, some, List, [], ◌∷◌, ◌++◌, map, Text, Result, ok, err,
  Option-cases,
}
use muna_server.Images.Fetch.{FetchedImage}
use muna_server.Images.Inline.{Walk, part_targets, targets, fill_parts, fill}

-- The reference: every part with a remote image gets the image that its own URL yields, and every
-- other part stays as it is.
-- A part that got its image holds no remote image any more, and the parts that are put back into a
-- message are its parts.
abbrev pub IsLawful : {M P : Type 0} → Walk M P → Type 0
IsLawful {M = M} {P = P} walk =
    ((p : P) (image : FetchedImage) → walk.target (walk.write p image) ≡ none)
    × ((m : M) (f : P → P)
        → walk.parts (walk.with_parts m (map f (walk.parts m))) ≡ map f (walk.parts m))
    × ((m : M) → walk.with_parts m (walk.parts m) ≡ m)

module _ {M P : Type 0} (walk : Walk M P) (image_at : Text → Result FetchedImage Text) where
  abbrev pub own_image : P → Result FetchedImage Text → P
  own_image p (ok image) = walk.write p image
  own_image p (err e) = p

  abbrev pub own_part : P → Option Text → P
  own_part p none = p
  own_part p (some url) = own_image p (image_at url)

  abbrev pub inlined : List M → List M
  inlined messages =
      map (λ m. walk.with_parts m (map (λ p. own_part p (walk.target p)) (walk.parts m))) messages

module _ {M P : Type 0} (walk : Walk M P) (lawful : IsLawful walk)
    (image_at : Text → Result FetchedImage Text) where
  image_split :
      (images : List FetchedImage) (r : Result FetchedImage Text)
      (rs : List (Result FetchedImage Text))
      → (r ∷ rs) ≡ map ok images
      → (image : FetchedImage) × (later : List FetchedImage) × (images ≡ image ∷ later)
        × (r ≡ ok image)
        × (rs ≡ map ok later)
  image_split [] r rs e = absurd (cc)
  image_split (image ∷ later) r rs e = (image, later, refl, cc, cc)

  fill_parts-own :
      (ps : List P) (later : List Text) (images : List FetchedImage)
      → map image_at (part_targets walk ps ++ later) ≡ map ok images
      → (rest : List FetchedImage) × (fill_parts walk ps images
          ≡ (map (λ p. own_part walk image_at p (walk.target p)) ps, rest))
        × (map image_at later ≡ map ok rest)
        × (part_targets walk (map (λ p. own_part walk image_at p (walk.target p)) ps) ≡ [])
  unfolding part_targets fill_parts
  fill_parts-own [] later images e = (images, refl, e, refl)
  fill_parts-own (p ∷ ps) later images e = elim (Option-cases (walk.target p)) [
    | inl t ↦
        let own = fill_parts-own ps later images (rw (part_targets, t) at e) in
        (own.0, rw (fill_parts, t, own.1) refl, own.2, rw (t, t, own.3) refl)
    | inr (url, t) ↦
        let (image, images', s, f, g) =
          image_split images (image_at url) (map image_at (part_targets walk ps ++ later))
            (rw (part_targets, t) at e) in
        let own = fill_parts-own ps later images' g in
        (
          own.0,
          rw (fill_parts, t, s, own.1, f) refl,
          own.2,
          rw (t, f, lawful.0 p image, own.3) refl,
        )
  ]

  pub fill-inlined :
      (messages : List M) (images : List FetchedImage)
      → map image_at (targets walk messages) ≡ map ok images
      → ((fill walk messages images).0 ≡ inlined walk image_at messages)
        × (targets walk (inlined walk image_at messages) ≡ [])
  unfolding targets fill
  fill-inlined [] images e = (refl, refl)
  fill-inlined (m ∷ ms) images e =
      let own = fill_parts-own (walk.parts m) (targets walk ms) images e in
      let rest = fill-inlined ms own.0 own.2 in
      (
        rw (own.1, rest.0) refl,
        rw (lawful.1 m (λ p. own_part walk image_at p (walk.target p)), own.3, rest.1) refl,
      )
