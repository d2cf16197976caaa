-- ===== src/Images/Fetch.antt =====
-- src/serving/remote_images.rs: one fetch, and the fetches of one request. URL parsing, the
-- lookup of names and the HTTP client are parameters, the fields of `Web`; a fetch keeps the log
-- of the connections that its client made, the last first.
pub mod Reach
pub mod Collect
use muna_server.Base.{
  ℕ, zero, suc, ◌+◌, ◌*◌, ◌/◌, ◌-◌, ◌≡◌, Bool, true, false, not, ◌&&◌, ◌||◌, Option, none, some,
  List, [], ◌∷◌, ◌++◌, map, Text, codes, starts_with, text_eq, decimal, length, filterb, ltb, leb,
  ◌==◌, if◌then◌else◌, Result, ok, err, and_then, map_err, All, Any,
}
use muna_server.Images.{IpAddr, is_public_ip}

abbrev pub max_image_bytes : ℕ
max_image_bytes = 20 * 1024 * 1024

abbrev pub max_total_bytes : ℕ
max_total_bytes = 64 * 1024 * 1024

abbrev pub max_redirects : ℕ
max_redirects = 3

-- `chunks` is what the body's stream yields, up to its end or its first error.
pub record Response : Type 0 where
  pub is_success : Bool
  pub status : Text
  pub content_type : Option Text
  pub content_length : Option ℕ
  pub chunks : List (Result (List ℕ) Text)

pub record Sent (U : Type 0) : Type 0 where
  pub log : List (U × IpAddr)
  pub outcome : Result Response Text

-- What the code takes from the standard library and from `reqwest`. `send` is the client's.
pub record Web (U : Type 0) : Type 0 where
  pub parse_url : Text → Result U Text
  pub scheme : U → Text
  pub host_str : U → Option Text
  pub parse_ip : Text → Option IpAddr
  pub show_ip : IpAddr → Text
  pub lookup_host : Text → Result (List IpAddr) Text
  pub send : U → Sent U

pub record ImageFetcher : Type 0 where
  pub max_bytes : ℕ
  pub allow_private : Bool

pub record FetchedImage : Type 0 where
  pub bytes : List ℕ
  pub mime : Text

unfoldable pub new_fetcher : ImageFetcher
new_fetcher = record { max_bytes = max_image_bytes; allow_private = false }

-- `str::trim_start_matches` and `str::trim_end_matches`.
unfoldable trim_start_matches : (ℕ → Bool) → Text → Text
trim_start_matches p [] = []
trim_start_matches p (c ∷ s) = let rest = trim_start_matches p s in if p c then rest else c ∷ s

unfoldable trim_end_matches : (ℕ → Bool) → Text → Text
trim_end_matches p [] = []
trim_end_matches p (c ∷ s) = elim (trim_end_matches p s) [
  | [] ↦ if p c then [] else c ∷ []
  | d ∷ t ↦ c ∷ d ∷ t
]

-- The address that a host spells, if it spells one.
unfoldable pub literal_of : {U : Type 0} → Web U → Text → Option IpAddr
unfolding trim_start_matches trim_end_matches
literal_of web host =
    web.parse_ip (trim_end_matches (λ c. c == b']') (trim_start_matches (λ c. c == b'[') host))

unfoldable pub is_refused : Bool → Option IpAddr → Option IpAddr
is_refused allow_private none = none
is_refused allow_private (some ip) =
    if not allow_private && not (is_public_ip ip) then some ip else none

unfoldable pub check_url : {U : Type 0} → Web U → U → Bool → Result {0, 0} Unit Text
unfolding literal_of is_refused
check_url web url allow_private =
    if not (text_eq (web.scheme url) (codes "http") || text_eq (web.scheme url) (codes "https"))
    then err (codes "unsupported URL scheme `" ++ web.scheme url ++ codes "`")
    else elim (web.host_str url) [
      | none ↦ err (codes "URL has no host")
      | some host ↦ elim (is_refused allow_private (literal_of web host)) [
        | some ip ↦ err (web.show_ip ip ++ codes " is not a public address")
        | none ↦ ok tt
      ]
    ]

pub data Action : Type 0 where
  follow : Action
  refuse : Text → Action

-- The redirect policy of `build`. `previous` holds every URL requested so far, the first included.
unfoldable pub redirect_policy : {U : Type 0} → Web U → Bool → List U → U → Action
unfolding check_url
redirect_policy web allow_private previous url =
    if leb max_redirects (length previous)
    then refuse (codes "more than " ++ decimal max_redirects ++ codes " redirects")
    else elim (check_url web url allow_private) [ ok u ↦ follow | err reason ↦ refuse reason ]

-- `PublicResolver::resolve`.
unfoldable pub resolve : {U : Type 0} → Web U → Text → Result (List IpAddr) Text
resolve web name = and_then (web.lookup_host name) λ found. elim (filterb is_public_ip found) [
  | [] ↦ err (name ++ codes " does not resolve to a public address")
  | ip ∷ ips ↦ ok (ip ∷ ips)
]

-- The resolver that `build` gives to the client.
unfoldable pub resolver : {U : Type 0} → Web U → Bool → Text → Result (List IpAddr) Text
unfolding resolve
resolver web allow_private name = if allow_private then web.lookup_host name else resolve web name

-- `value.split(';').next()`.
unfoldable before_semicolon : Text → Text
before_semicolon [] = []
before_semicolon (c ∷ s) = let rest = before_semicolon s in if c == b';' then [] else c ∷ rest

-- A header value holds printable ASCII and tabs, so `trim` drops spaces and tabs.
unfoldable trim : Text → Text
unfolding trim_start_matches trim_end_matches
trim s =
    let is_blank : ℕ → Bool = λ c. (c == b' ') || (c == 9) in
    trim_end_matches is_blank (trim_start_matches is_blank s)

unfoldable to_ascii_lowercase : Text → Text
to_ascii_lowercase s = map (λ c. if leb b'A' c && leb c b'Z' then c + 32 else c) s

unfoldable pub mime_of : Response → Text
unfolding before_semicolon trim to_ascii_lowercase
mime_of response = elim response.content_type [
  | none ↦ []
  | some value ↦ to_ascii_lowercase (trim (before_semicolon value))
]

unfoldable pub too_large : ImageFetcher → Text
too_large fetcher =
    codes "image exceeds the " ++ decimal (fetcher.max_bytes / (1024 * 1024)) ++ codes " MB limit"

-- The loop over `response.chunk()`.
unfoldable pub read_chunks :
    ImageFetcher → List ℕ → List (Result (List ℕ) Text) → Result (List ℕ) Text
read_chunks fetcher body [] = ok body
read_chunks fetcher body (err e ∷ chunks) = err e
read_chunks fetcher body (ok chunk ∷ chunks) =
    let rest = read_chunks fetcher (body ++ chunk) chunks in
    if ltb fetcher.max_bytes (length body + length chunk) then err (too_large fetcher) else rest

unfoldable pub is_over : ImageFetcher → Option ℕ → Bool
is_over fetcher none = false
is_over fetcher (some length) = ltb fetcher.max_bytes length

-- `fetch` from the response on.
unfoldable pub read_response : ImageFetcher → Response → Result FetchedImage Text
unfolding mime_of read_chunks is_over
read_response fetcher response =
    if not response.is_success
    then err (codes "server responded with " ++ response.status)
    else if not (starts_with (mime_of response) (codes "image/"))
    then err (codes "content type `" ++ mime_of response ++ codes "` is not an image")
    else if is_over fetcher response.content_length
    then err (too_large fetcher)
    else and_then (read_chunks fetcher [] response.chunks)
        λ body. ok (record { bytes = body; mime = mime_of response })

-- The connections that a fetch made, and what it returned.
unfoldable pub fetch :
    {U : Type 0} → Web U → ImageFetcher → Text → List (U × IpAddr) × Result FetchedImage Text
unfolding check_url read_response
fetch web fetcher text = elim (web.parse_url text) [
  | err e ↦ ([], err (codes "invalid URL (" ++ e ++ codes ")"))
  | ok url ↦ elim (check_url web url fetcher.allow_private) [
    | err reason ↦ ([], err reason)
    | ok u ↦ let sent = web.send url in (sent.log, and_then sent.outcome (read_response fetcher))
  ]
]

unfoldable pub fetch_failure : Text → Text → Text
fetch_failure url reason = codes "Failed to fetch image at " ++ url ++ codes ": " ++ reason

unfoldable pub over_budget : Text
over_budget =
    codes "Remote images exceed the "
    ++ decimal (max_total_bytes / (1024 * 1024))
    ++ codes " MB total limit per request."

-- The loop of `fetch_all` over the results, which come in the order of the URLs.
unfoldable pub take_images : ℕ → List (Result FetchedImage Text) → Result (List FetchedImage) Text
unfolding over_budget
take_images total [] = ok []
take_images total (err e ∷ results) = err e
take_images total (ok image ∷ results) =
    let rest = take_images (total + length image.bytes) results in
    if ltb max_total_bytes (total + length image.bytes)
    then err over_budget
    else and_then rest λ images. ok (image ∷ images)

-- A failure is the message of a `MunaError::InvalidInput`.
unfoldable pub fetch_all :
    {U : Type 0} → Web U → ImageFetcher → List Text → Result (List FetchedImage) Text
unfolding take_images fetch fetch_failure
fetch_all web fetcher urls =
    take_images 0 (map (λ url. map_err (fetch_failure url) (fetch web fetcher url).1) urls)
