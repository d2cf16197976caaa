-- ===== src/Images/Fetch/Collect.antt =====
-- Proofs about the body of one image and the images of one request
-- (src/serving/remote_images.rs).
use mathlib.Core.List.{append-nil, append_assoc}
use muna_server.Base.{
  ℕ, ◌+◌, ◌≤◌, ◌<◌, ◌≡◌, refl, sym, ap, ◌∙◌, ◌⊎◌, inl, inr, Bool, true, false, not, List, [], ◌∷◌,
  ◌++◌, map, flatten, Text, codes, Option, none, some, subst, starts_with, length, length-append,
  sum_by, ltb, if◌then◌else◌, Result, ok, err, and_then, map_err, arith, Bool-cases,
}
use muna_server.Images.Fetch.{
  Response, Web, ImageFetcher, FetchedImage, max_total_bytes, mime_of, too_large, read_chunks,
  is_over, read_response, fetch, fetch_failure, over_budget, take_images, fetch_all,
}

-- What each result of reading a body says of the chunks.
abbrev Read : ImageFetcher → List ℕ → List (Result (List ℕ) Text) → Result (List ℕ) Text → Type 0
Read fetcher body chunks (ok whole) =
    (read : List (List ℕ)) × (chunks ≡ map ok read)
    × (whole ≡ body ++ flatten read)
    × (length whole ≤ fetcher.max_bytes)
Read fetcher body chunks (err e) =
    ((read : List (List ℕ)) × (rest : List (Result (List ℕ) Text)) × (chunks ≡ map ok read ++ rest)
      × (fetcher.max_bytes < length (body ++ flatten read))
      × (e ≡ too_large fetcher))
    ⊎ ((read : List (List ℕ)) × (rest : List (Result (List ℕ) Text)) × (chunks
          ≡ map ok read ++ err e ∷ rest)
        × (length (body ++ flatten read) ≤ fetcher.max_bytes))

Read-more :
    (fetcher : ImageFetcher) (body chunk : List ℕ) (chunks : List (Result (List ℕ) Text))
    (r : Result (List ℕ) Text)
    → Read fetcher (body ++ chunk) chunks r
    → Read fetcher body (ok chunk ∷ chunks) r
Read-more fetcher body chunk chunks (ok whole) (read, e, w, h) =
    (chunk ∷ read, ap (λ cs. ok chunk ∷ cs) e, w ∙ append_assoc body chunk (flatten read), h)
Read-more fetcher body chunk chunks (err e) (inl (read, rest, cs, over, m)) = inl (
  chunk ∷ read,
  rest,
  ap (λ l. ok chunk ∷ l) cs,
  subst (λ b. fetcher.max_bytes < length b) (append_assoc body chunk (flatten read)) over,
  m,
)
Read-more fetcher body chunk chunks (err e) (inr (read, rest, cs, fits)) = inr (
  chunk ∷ read,
  rest,
  ap (λ l. ok chunk ∷ l) cs,
  subst (λ b. length b ≤ fetcher.max_bytes) (append_assoc body chunk (flatten read)) fits,
)

read_chunks-Read :
    (fetcher : ImageFetcher) (body : List ℕ) (chunks : List (Result (List ℕ) Text))
    → length body ≤ fetcher.max_bytes
    → Read fetcher body chunks (read_chunks fetcher body chunks)
unfolding read_chunks
read_chunks-Read fetcher body [] h = ([], refl, sym (append-nil body), h)
read_chunks-Read fetcher body (err e ∷ chunks) h =
    inr ([], chunks, refl, subst (λ b. length b ≤ fetcher.max_bytes) (sym (append-nil body)) h)
read_chunks-Read fetcher body (ok chunk ∷ chunks) h =
    elim (Bool-cases (ltb fetcher.max_bytes (length body + length chunk))) [
      | inl over ↦ rw over (
          inl (
            chunk ∷ [],
            chunks,
            refl,
            subst (λ c. fetcher.max_bytes < length (body ++ c)) (sym (append-nil chunk))
                (ground (arith, length-append body chunk)),
            refl,
          ))
      | inr fits ↦
          let rest =
            read_chunks-Read fetcher (body ++ chunk) chunks
              (ground (arith, length-append body chunk)) in
          rw fits
            (Read-more fetcher body chunk chunks (read_chunks fetcher (body ++ chunk) chunks) rest)
    ]

-- What each result of reading a response says of the response. The branches of a failure exclude
-- each other, in the order of the checks.
abbrev pub IsDelivered : ImageFetcher → Response → Result FetchedImage Text → Type 0
IsDelivered fetcher response (ok image) =
    (response.is_success ≡ true)
    × (image.mime ≡ mime_of response)
    × (starts_with image.mime (codes "image/") ≡ true)
    × ((declared : ℕ) → response.content_length ≡ some declared → declared ≤ fetcher.max_bytes)
    × Read fetcher [] response.chunks (ok image.bytes)
IsDelivered fetcher response (err e) =
    ((response.is_success ≡ false) × (e ≡ codes "server responded with " ++ response.status))
    ⊎ ((response.is_success ≡ true)
        × (starts_with (mime_of response) (codes "image/") ≡ false)
        × (e ≡ codes "content type `" ++ mime_of response ++ codes "` is not an image"))
    ⊎ ((response.is_success ≡ true)
        × (starts_with (mime_of response) (codes "image/") ≡ true)
        × (((declared : ℕ) × (response.content_length ≡ some declared)
              × (fetcher.max_bytes < declared)
              × (e ≡ too_large fetcher))
            ⊎ (((declared : ℕ)
                  → response.content_length ≡ some declared
                  → declared ≤ fetcher.max_bytes)
                × Read fetcher [] response.chunks (err e))))

over_declared :
    (fetcher : ImageFetcher) (o : Option ℕ)
    → is_over fetcher o ≡ true
    → (declared : ℕ) × (o ≡ some declared) × (fetcher.max_bytes < declared)
unfolding is_over
over_declared fetcher none e = absurd (cc)
over_declared fetcher (some n) e = (n, refl, ground arith)

fits_declared :
    (fetcher : ImageFetcher) (o : Option ℕ)
    → is_over fetcher o ≡ false
    → (declared : ℕ) → o ≡ some declared
    → declared ≤ fetcher.max_bytes
unfolding is_over
fits_declared fetcher o e declared f = ground (arith, f)

deliver :
    (fetcher : ImageFetcher) (response : Response) (r : Result (List ℕ) Text)
    → response.is_success ≡ true
    → starts_with (mime_of response) (codes "image/") ≡ true
    → is_over fetcher response.content_length ≡ false
    → Read fetcher [] response.chunks r
    → IsDelivered fetcher response
        (and_then r λ body. ok (record { bytes = body; mime = mime_of response }))
deliver fetcher response (ok whole) good image fits h =
    (good, refl, image, fits_declared fetcher response.content_length fits, h)
deliver fetcher response (err e) good image fits h =
    inr (inr (good, image, inr (fits_declared fetcher response.content_length fits, h)))

deliver_checked :
    (fetcher : ImageFetcher) (response : Response) (good image over : Bool)
    → response.is_success ≡ good
    → starts_with (mime_of response) (codes "image/") ≡ image
    → is_over fetcher response.content_length ≡ over
    → IsDelivered fetcher response (
        if not good
        then err (codes "server responded with " ++ response.status)
        else if not image
        then err (codes "content type `" ++ mime_of response ++ codes "` is not an image")
        else if over
        then err (too_large fetcher)
        else and_then
            (read_chunks fetcher [] response.chunks)
            λ body. ok (record { bytes = body; mime = mime_of response }))
deliver_checked fetcher response false image over e f o = inl (e, refl)
deliver_checked fetcher response true false over e f o = inr (inl (e, f, refl))
deliver_checked fetcher response true true true e f o =
    let (declared, d, m) = over_declared fetcher response.content_length o in
    inr (inr (e, f, inl (declared, d, m, refl)))
deliver_checked fetcher response true true false e f o =
    deliver fetcher response (read_chunks fetcher [] response.chunks) e f o
      (read_chunks-Read fetcher [] response.chunks (omega arith))

-- Reading a response yields an image exactly when the status is a success, the content type is an
-- image's, no length above the limit is declared, and all chunks of the body come and together
-- stay within the limit: the image then has all their bytes in order and that content type. Else
-- it fails with the message of the first of these that does not hold, an error of the body with its
-- own message.
pub read_response-IsDelivered :
    (fetcher : ImageFetcher) (response : Response)
    → IsDelivered fetcher response (read_response fetcher response)
unfolding read_response
read_response-IsDelivered fetcher response =
    deliver_checked fetcher response response.is_success
      (starts_with (mime_of response) (codes "image/")) (is_over fetcher response.content_length)
      refl refl refl

abbrev pub total_bytes : List FetchedImage → ℕ
total_bytes images = sum_by (λ image. length image.bytes) images

-- What each result of `take_images` says of the results it was given.
abbrev pub Taken : ℕ → List (Result FetchedImage Text) → Result (List FetchedImage) Text → Type 0
Taken total results (ok images) =
    (results ≡ map ok images) × (total + total_bytes images ≤ max_total_bytes)
Taken total results (err e) =
    (images : List FetchedImage) × (rest : List (Result FetchedImage Text)) × (total
        + total_bytes images
      ≤ max_total_bytes)
    × ((results ≡ map ok images ++ err e ∷ rest)
        ⊎ ((image : FetchedImage) × (results ≡ map ok images ++ ok image ∷ rest)
            × (max_total_bytes < total + total_bytes images + length image.bytes)
            × e ≡ over_budget))

take_more :
    (total : ℕ) (image : FetchedImage) (results : List (Result FetchedImage Text))
    (r : Result (List FetchedImage) Text)
    → Taken (total + length image.bytes) results r
    → Taken total (ok image ∷ results) (and_then r λ images. ok (image ∷ images))
take_more total image results (ok images) (e, h) = (ap (λ rs. ok image ∷ rs) e, omega arith)
take_more total image results (err e) (images, rest, h, inl failed) =
    (image ∷ images, rest, omega arith, inl (ap (λ rs. ok image ∷ rs) failed))
take_more total image results (err e) (images, rest, h, inr (last, s, over, m)) =
    (image ∷ images, rest, omega arith, inr (last, ap (λ rs. ok image ∷ rs) s, omega arith, m))

take_images-Taken :
    (total : ℕ) (results : List (Result FetchedImage Text))
    → total ≤ max_total_bytes
    → Taken total results (take_images total results)
unfolding take_images
take_images-Taken total [] h = (refl, omega arith)
take_images-Taken total (err e ∷ results) h = ([], results, omega arith, inl refl)
take_images-Taken total (ok image ∷ results) h =
    elim (Bool-cases (ltb max_total_bytes (total + length image.bytes))) [
      | inl over ↦ rw over ([], results, omega arith, inr (image, refl, ground arith, refl))
      | inr fits ↦ rw fits (
          take_more total image results (take_images (total + length image.bytes) results)
            (take_images-Taken (total + length image.bytes) results (ground arith)))
    ]

-- `fetch_all` returns the images of all URLs in the order of the URLs, with at most 64 MB
-- together, or it fails at the first URL, in that order, whose fetch fails or whose image brings
-- the total above 64 MB, with the message of that failure; the images before it fit the total.
pub fetch_all-Taken :
    {U : Type 0} (web : Web U) (fetcher : ImageFetcher) (urls : List Text)
    → Taken 0
        (map (λ url. map_err (fetch_failure url) (fetch web fetcher url).1) urls)
        (fetch_all web fetcher urls)
unfolding fetch_all
fetch_all-Taken web fetcher urls =
    take_images-Taken 0 (map (λ url. map_err (fetch_failure url) (fetch web fetcher url).1) urls)
      (omega arith)
