-- ===== src/Images/Inline/Laws.antt =====
-- Proofs about the inlining of remote images (src/serving/remote_images.rs).
pub mod Walks
use muna_server.Base.{
  ◌≡◌, refl, sym, ap, ◌⊎◌, inl, inr, Option, none, some, List, [], ◌∷◌, ◌++◌, map, Text, Result, ok,
  err, map_err, Result-cases, Option-cases,
}
use muna_server.Images.Fetch.{Web, ImageFetcher, FetchedImage, fetch, fetch_failure, fetch_all}
use muna_server.Images.Fetch.Collect.{fetch_all-Taken, Taken}
use muna_server.Images.Inline.{
  Walk, part_targets, targets, fill_parts, fill, inline, ChatMessage, data_url, openai, anthropic,
  BlockMessage, ContentPart, image_url, other_part, ChatContent, text_content, part_content,
  chat_parts, set_chat_parts, chat_target, chat_write, ContentBlock, image_block, other_block,
  BlockContent, plain_text, block_content, blocks_of, set_blocks, block_target, block_write,
  inline_openai, inline_anthropic,
}
use muna_server.Images.Inline.Laws.Walks.{IsLawful, own_part, inlined, fill-inlined}

nonempty : {A : Type 0} {x : A} {xs : List A} → ¬ (x ∷ xs ≡ [])
nonempty e = cc

List-cases : {A : Type 0} (xs : List A) → (xs ≡ []) ⊎ ((x : A) × (rest : List A) × (xs ≡ x ∷ rest))
List-cases [] = inl refl
List-cases (x ∷ rest) = inr (x, rest, refl)

-- What `fetch_all` is given for a URL.
abbrev pub image_of : {U : Type 0} → Web U → ImageFetcher → Text → Result FetchedImage Text
image_of web fetcher url = map_err (fetch_failure url) (fetch web fetcher url).1

-- What each result of the inlining says of the messages before and after it.
abbrev pub IsInlined :
    {M P U : Type 0}
    → Walk M P
    → Web U
    → ImageFetcher
    → List M
    → List M × Result {0, 0} Unit Text
    → Type 0
IsInlined walk web fetcher before (after, ok u) =
    (after ≡ inlined walk (image_of web fetcher) before) × (targets walk after ≡ [])
IsInlined walk web fetcher before (after, err e) =
    (after ≡ before) × (fetch_all web fetcher (targets walk before) ≡ err e)

module _ {M P : Type 0} (walk : Walk M P) (lawful : IsLawful walk)
    (image_at : Text → Result FetchedImage Text) where
  parts_untouched :
      (ps : List P) (later : List Text)
      → part_targets walk ps ++ later ≡ []
      → (map (λ p. own_part walk image_at p (walk.target p)) ps ≡ ps) × (later ≡ [])
  unfolding part_targets
  parts_untouched [] later e = (refl, e)
  parts_untouched (p ∷ ps) later e = elim (Option-cases (walk.target p)) [
    | inl t ↦
        let rest = parts_untouched ps later (rw (part_targets, t) at e) in
        (rw (t, rest.0) refl, rest.1)
    | inr (url, t) ↦ absurd (nonempty (rw (part_targets, t) at e))
  ]

  messages_untouched :
      (messages : List M) → targets walk messages ≡ [] → inlined walk image_at messages ≡ messages
  unfolding targets
  messages_untouched [] e = refl
  messages_untouched (m ∷ ms) e =
      let (same, rest) = parts_untouched (walk.parts m) (targets walk ms) e in
      rw (same, lawful.2 m, messages_untouched ms rest) refl

module _ {M P U : Type 0} (walk : Walk M P) (lawful : IsLawful walk) (web : Web U) where
  all_aligned :
      (fetcher : ImageFetcher) (urls : List Text) (images : List FetchedImage)
      → fetch_all web fetcher urls ≡ ok images
      → map (image_of web fetcher) urls ≡ map ok images
  all_aligned fetcher urls images e =
      let taken : Taken 0 (map (image_of web fetcher) urls) (fetch_all web fetcher urls) =
        fetch_all-Taken web fetcher urls in
      (rw e at taken).0

  inline-IsInlined :
      (fetcher : ImageFetcher) (messages : List M)
      → IsInlined walk web fetcher messages (inline walk web fetcher messages)
  unfolding inline
  inline-IsInlined fetcher messages = elim (List-cases (targets walk messages)) [
    | inl empty ↦
        rw (inline, empty)
          (sym (messages_untouched walk lawful (image_of web fetcher) messages empty), empty)
    | inr (url, urls, e) ↦ elim (Result-cases (fetch_all web fetcher (url ∷ urls))) [
      | inl (images, f) ↦
          let aligned = all_aligned fetcher (url ∷ urls) images f in
          let own =
            fill-inlined walk lawful (image_of web fetcher) messages images (rw e aligned) in
          rw (inline, e, f) (own.0, rw own.0 own.1)
      | inr (reason, f) ↦ rw (inline, e, f) (refl, rw e f)
    ]
  ]

module _ {X : Type 0} (encode : Text → Text) where
  chat_write-target :
      (p : ContentPart X) (image : FetchedImage) → chat_target (chat_write encode p image) ≡ none
  unfolding data_url
  chat_write-target (image_url url rest) image = refl
  chat_write-target (other_part x) image = refl

  set_chat_parts-map :
      (c : Option (ChatContent X)) (f : ContentPart X → ContentPart X)
      → chat_parts (set_chat_parts c (map f (chat_parts c))) ≡ map f (chat_parts c)
  set_chat_parts-map none f = refl
  set_chat_parts-map (some (text_content s)) f = refl
  set_chat_parts-map (some (part_content ps)) f = refl

  set_chat_parts-same : (c : Option (ChatContent X)) → set_chat_parts c (chat_parts c) ≡ c
  set_chat_parts-same none = refl
  set_chat_parts-same (some (text_content s)) = refl
  set_chat_parts-same (some (part_content ps)) = refl

  openai-IsLawful : IsLawful (openai {X = X} encode)
  unfolding openai
  openai-IsLawful = (
    chat_write-target,
    λ m f. set_chat_parts-map m.content f,
    λ m. ap (λ c. record m { content = c }) (set_chat_parts-same m.content),
  )

  block_write-target :
      (b : ContentBlock X) (image : FetchedImage) → block_target (block_write encode b image) ≡ none
  block_write-target (image_block source rest) image = refl
  block_write-target (other_block x) image = refl

  set_blocks-map :
      (c : BlockContent X) (f : ContentBlock X → ContentBlock X)
      → blocks_of (set_blocks c (map f (blocks_of c))) ≡ map f (blocks_of c)
  set_blocks-map (plain_text s) f = refl
  set_blocks-map (block_content bs) f = refl

  set_blocks-same : (c : BlockContent X) → set_blocks c (blocks_of c) ≡ c
  set_blocks-same (plain_text s) = refl
  set_blocks-same (block_content bs) = refl

  anthropic-IsLawful : IsLawful (anthropic {X = X} encode)
  unfolding anthropic
  anthropic-IsLawful = (
    block_write-target,
    λ m f. set_blocks-map m.content f,
    λ m. ap (λ c. record m { content = c }) (set_blocks-same m.content),
  )

-- Both inlinings end in one of two ways. Either they succeed: every part with a remote image holds
-- the image that its own URL yields, every other part and message is as it was, and no remote
-- image is left. Or fetching the remote images fails: the error is that of `fetch_all`, and the
-- messages are as they were.
pub inline_openai-IsInlined :
    {U X : Type 0} (web : Web U) (encode : Text → Text) (fetcher : ImageFetcher)
    (chat : List (ChatMessage X)) (messages : List (BlockMessage X))
    → IsInlined (openai encode) web fetcher chat (inline_openai web encode fetcher chat)
      × IsInlined
          (anthropic encode)
          web
          fetcher
          messages
          (inline_anthropic web encode fetcher messages)
unfolding inline_openai inline_anthropic
inline_openai-IsInlined web encode fetcher chat messages = (
  inline-IsInlined (openai encode) (openai-IsLawful encode) web fetcher chat,
  inline-IsInlined (anthropic encode) (anthropic-IsLawful encode) web fetcher messages,
)
