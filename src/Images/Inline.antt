-- ===== src/Images/Inline.antt =====
-- src/serving/remote_images.rs: `inline_openai` and `inline_anthropic`. Both collect mutable
-- references to the images of a request, fetch them all and write through the references; the
-- common walk is written once, over the messages' parts. `X` stands for what the code never reads.
pub mod Laws
use muna_server.Base.{
  ℕ, ◌≡◌, Bool, true, false, Option, none, some, List, [], ◌∷◌, ◌++◌, map, Text, codes, starts_with,
  if◌then◌else◌, Result, ok, err,
}
use muna_server.Images.Fetch.{Web, ImageFetcher, FetchedImage, fetch_all}

-- A request type: its messages' parts, which of them hold a remote image, and how an image is
-- written into a part.
pub record Walk (M P : Type 0) : Type 0 where
  pub parts : M → List P
  pub with_parts : M → List P → M
  pub target : P → Option Text
  pub write : P → FetchedImage → P

module _ {M P : Type 0} (walk : Walk M P) where
  abbrev pub part_target : Option Text → List Text
  part_target none = []
  part_target (some url) = url ∷ []

  unfoldable pub part_targets : List P → List Text
  part_targets [] = []
  part_targets (p ∷ ps) = part_target (walk.target p) ++ part_targets ps

  -- The URLs behind `targets`, in the order of the messages and their parts.
  unfoldable pub targets : List M → List Text
  unfolding part_targets
  targets [] = []
  targets (m ∷ ms) = part_targets (walk.parts m) ++ targets ms

  -- The loop over `targets.iter_mut().zip(images)`, part by part: each target takes the next image.
  unfoldable pub fill_parts : List P → List FetchedImage → List P × List FetchedImage
  fill_parts [] images = ([], images)
  fill_parts (p ∷ ps) images = elim (walk.target p) [
    | none ↦ let rest = fill_parts ps images in (p ∷ rest.0, rest.1)
    | some url ↦ elim images [
      | [] ↦ (p ∷ ps, [])
      | image ∷ later ↦ let rest = fill_parts ps later in (walk.write p image ∷ rest.0, rest.1)
    ]
  ]

  unfoldable pub fill : List M → List FetchedImage → List M × List FetchedImage
  unfolding fill_parts
  fill [] images = ([], images)
  fill (m ∷ ms) images =
      let filled = fill_parts (walk.parts m) images in
      let rest = fill ms filled.1 in (walk.with_parts m filled.0 ∷ rest.0, rest.1)

  -- The messages after the call, and what it returned.
  unfoldable pub inline :
      {U : Type 0} → Web U → ImageFetcher → List M → List M × Result {0, 0} Unit Text
  unfolding targets fill
  inline web fetcher messages = elim (targets messages) [
    | [] ↦ (messages, ok tt)
    | url ∷ urls ↦ elim (fetch_all web fetcher (url ∷ urls)) [
      | err e ↦ (messages, err e)
      | ok images ↦ ((fill messages images).0, ok tt)
    ]
  ]

-- The request types of `muna::beta::openai`.
pub data ContentPart (X : Type 0) : Type 0 where
  image_url : (url : Text) (rest : X) → ContentPart X
  other_part : X → ContentPart X

pub data ChatContent (X : Type 0) : Type 0 where
  text_content : Text → ChatContent X
  part_content : List (ContentPart X) → ChatContent X

pub record ChatMessage (X : Type 0) : Type 0 where
  pub content : Option (ChatContent X)
  pub rest : X

unfoldable pub data_url : (Text → Text) → FetchedImage → Text
data_url encode image = codes "data:" ++ image.mime ++ codes ";base64," ++ encode image.bytes

module _ {X : Type 0} where
  abbrev pub chat_parts : Option (ChatContent X) → List (ContentPart X)
  chat_parts none = []
  chat_parts (some (text_content s)) = []
  chat_parts (some (part_content ps)) = ps

  abbrev pub set_chat_parts : Option (ChatContent X) → List (ContentPart X) → Option (ChatContent X)
  set_chat_parts none ps = none
  set_chat_parts (some (text_content s)) ps = some (text_content s)
  set_chat_parts (some (part_content qs)) ps = some (part_content ps)

  abbrev pub chat_target : ContentPart X → Option Text
  chat_target (image_url url rest) = if starts_with url (codes "data:") then none else some url
  chat_target (other_part x) = none

  abbrev pub chat_write : (Text → Text) → ContentPart X → FetchedImage → ContentPart X
  chat_write encode (image_url url rest) image = image_url (data_url encode image) rest
  chat_write encode (other_part x) image = other_part x

  -- `encode` is the standard base64 encoding.
  unfoldable pub openai : (Text → Text) → Walk (ChatMessage X) (ContentPart X)
  openai encode = record {
    parts = λ m. chat_parts m.content;
    with_parts = λ m ps. record m { content = set_chat_parts m.content ps };
    target = chat_target;
    write = chat_write encode;
  }

-- The request types of `muna::beta::anthropic`.
pub data ImageSource (X : Type 0) : Type 0 where
  url_source : Text → ImageSource X
  base64_source : (media_type encoded : Text) → ImageSource X
  other_source : X → ImageSource X

pub data ContentBlock (X : Type 0) : Type 0 where
  image_block : ImageSource X → X → ContentBlock X
  other_block : X → ContentBlock X

pub data BlockContent (X : Type 0) : Type 0 where
  plain_text : Text → BlockContent X
  block_content : List (ContentBlock X) → BlockContent X

pub record BlockMessage (X : Type 0) : Type 0 where
  pub content : BlockContent X
  pub rest : X

module _ {X : Type 0} where
  abbrev pub blocks_of : BlockContent X → List (ContentBlock X)
  blocks_of (plain_text s) = []
  blocks_of (block_content bs) = bs

  abbrev pub set_blocks : BlockContent X → List (ContentBlock X) → BlockContent X
  set_blocks (plain_text s) bs = plain_text s
  set_blocks (block_content cs) bs = block_content bs

  abbrev pub block_target : ContentBlock X → Option Text
  block_target (image_block (url_source url) rest) = some url
  block_target (image_block (base64_source media_type encoded) rest) = none
  block_target (image_block (other_source x) rest) = none
  block_target (other_block x) = none

  abbrev pub block_write : (Text → Text) → ContentBlock X → FetchedImage → ContentBlock X
  block_write encode (image_block source rest) image =
      image_block (base64_source image.mime (encode image.bytes)) rest
  block_write encode (other_block x) image = other_block x

  unfoldable pub anthropic : (Text → Text) → Walk (BlockMessage X) (ContentBlock X)
  anthropic encode = record {
    parts = λ m. blocks_of m.content;
    with_parts = λ m bs. record m { content = set_blocks m.content bs };
    target = block_target;
    write = block_write encode;
  }

unfoldable pub inline_openai :
    {U X : Type 0}
    → Web U
    → (Text → Text)
    → ImageFetcher
    → List (ChatMessage X)
    → List (ChatMessage X) × Result {0, 0} Unit Text
unfolding inline openai
inline_openai web encode fetcher messages = inline (openai encode) web fetcher messages

unfoldable pub inline_anthropic :
    {U X : Type 0}
    → Web U
    → (Text → Text)
    → ImageFetcher
    → List (BlockMessage X)
    → List (BlockMessage X) × Result {0, 0} Unit Text
unfolding inline anthropic
inline_anthropic web encode fetcher messages = inline (anthropic encode) web fetcher messages
