-- ===== src/Images/Fetch/Reach.antt =====
-- Proofs about the addresses that a fetch reaches (src/serving/remote_images.rs). What the code
-- relies on of the HTTP client, which it only calls, is the predicate `IsChain`.
use muna_server.Base.{
  suc, ◌≤◌, ◌≡◌, subst, ◌⊎◌, inl, inr, Bool, true, false, none, some, List, [], ◌∷◌, Text, codes,
  ◌++◌, length, filterb, Result, ok, err, All, Any, length-map, map, arith, Bool-cases,
  Option-cases, Result-cases, text_eq_iff,
}
use muna_server.Images.{IpAddr, is_public_ip}
use muna_server.Images.Fetch.{
  Web, ImageFetcher, literal_of, is_refused, check_url, follow, redirect_policy, max_redirects,
  resolve, resolver, fetch,
}

abbrev pub IsAmong : IpAddr → Result (List IpAddr) Text → Type 0
IsAmong ip (ok ips) = Any (λ other. ip ≡ other) ips
IsAmong ip (err e) = ⊥

module _ {U : Type 0} (web : Web U) where
  -- The client connects to the address that the host spells, or to one that the resolver gave.
  abbrev pub Connects : Bool → U → IpAddr → Type 0
  Connects allow_private url ip = elim (web.host_str url) [
    | none ↦ ⊥
    | some host ↦ elim (literal_of web host) [
      | some literal ↦ ip ≡ literal
      | none ↦ IsAmong ip (resolver web allow_private host)
    ]
  ]

  -- The requests of one `send`, the last first: the given URL, then URLs that the policy let pass
  -- when it was asked with all the URLs before them.
  abbrev pub IsChain : Bool → U → List (U × IpAddr) → Type 0
  IsChain allow_private first [] = Unit
  IsChain allow_private first ((url, ip) ∷ []) = (url ≡ first) × Connects allow_private url ip
  IsChain allow_private first ((url, ip) ∷ before ∷ log) =
      (redirect_policy web allow_private (map (λ r. r.0) (before ∷ log)) url ≡ follow)
      × Connects allow_private url ip
      × IsChain allow_private first (before ∷ log)

  -- The scheme is http or https, and the address is public.
  abbrev pub IsPublic : U × IpAddr → Type 0
  IsPublic (url, ip) =
      ((web.scheme url ≡ codes "http") ⊎ (web.scheme url ≡ codes "https")) × is_public_ip ip ≡ true

  check_url-scheme :
      (url : U)
      → check_url web url false ≡ ok tt
      → (web.scheme url ≡ codes "http") ⊎ (web.scheme url ≡ codes "https")
  unfolding check_url
  check_url-scheme url e = ground (
    arith,
    text_eq_iff (web.scheme url) (codes "http"),
    text_eq_iff (web.scheme url) (codes "https"),
  )

  check_url-literal :
      (url : U) (host : Text) (ip : IpAddr)
      → check_url web url false ≡ ok tt
      → web.host_str url ≡ some host
      → literal_of web host ≡ some ip
      → is_public_ip ip ≡ true
  unfolding check_url is_refused
  check_url-literal url host ip e h l = ground arith

  Any-public :
      (ip : IpAddr) (ips : List IpAddr)
      → Any (λ other. ip ≡ other) (filterb is_public_ip ips)
      → is_public_ip ip ≡ true
  Any-public ip [] h = absurd h
  Any-public ip (other ∷ ips) h = elim (Bool-cases (is_public_ip other)) [
    | inl good ↦ elim (rw good at h) [ inl e ↦ rw e good | inr later ↦ Any-public ip ips later ]
    | inr bad ↦ Any-public ip ips (rw bad at h)
  ]

  kept_among :
      (name : Text) (ip : IpAddr) (kept : List IpAddr)
      → IsAmong ip (elim kept [
        | [] ↦ err (name ++ codes " does not resolve to a public address")
        | x ∷ xs ↦ ok (x ∷ xs)
      ])
      → Any (λ other. ip ≡ other) kept
  kept_among name ip [] h = absurd h
  kept_among name ip (x ∷ xs) h = h

  resolve_public :
      (name : Text) (ip : IpAddr) → IsAmong ip (resolve web name) → is_public_ip ip ≡ true
  unfolding resolve
  resolve_public name ip c = elim (Result-cases (web.lookup_host name)) [
    | inr (e, f) ↦ absurd (rw f at c)
    | inl (ips, f) ↦ Any-public ip ips (kept_among name ip (filterb is_public_ip ips) (rw f at c))
  ]

  follow-checked :
      (previous : List U) (url : U)
      → redirect_policy web false previous url ≡ follow
      → (check_url web url false ≡ ok tt) × (suc (length previous) ≤ max_redirects)
  unfolding redirect_policy
  follow-checked previous url e = ground arith

  Connects-public :
      (url : U) (ip : IpAddr)
      → check_url web url false ≡ ok tt
      → Connects false url ip
      → is_public_ip ip ≡ true
  unfolding resolver
  Connects-public url ip e c = elim (Option-cases (web.host_str url)) [
    | inl h ↦ absurd (rw (Connects, h) at c)
    | inr (host, h) ↦ elim (Option-cases (literal_of web host)) [
      | inr (literal, l) ↦ rw (rw (Connects, h, l) at c) (check_url-literal url host literal e h l)
      | inl l ↦ resolve_public host ip (rw (Connects, h, l) at c)
    ]
  ]

  IsChain-length :
      (first url : U) (ip : IpAddr) (log : List (U × IpAddr))
      → check_url web first false ≡ ok tt
      → IsChain false first ((url, ip) ∷ log)
      → (suc (length log) ≤ max_redirects) × All IsPublic ((url, ip) ∷ log)
  IsChain-length first url ip [] e h =
      (omega arith, ((check_url-scheme url (rw h.0 e), Connects-public url ip (rw h.0 e) h.1), tt))
  IsChain-length first url ip ((url', ip') ∷ log) e h =
      let checked = follow-checked (map (λ r. r.0) ((url', ip') ∷ log)) url h.0 in
      let earlier = IsChain-length first url' ip' log e h.2 in
      (
        omega (arith, length-map {A = U × IpAddr} (λ r. r.0) ((url', ip') ∷ log), checked.1),
        ((check_url-scheme url checked.0, Connects-public url ip checked.0 h.1), earlier.1),
      )

  log-IsPublic :
      (first : U) (log : List (U × IpAddr))
      → check_url web first false ≡ ok tt
      → IsChain false first log
      → (length log ≤ max_redirects) × All IsPublic log
  log-IsPublic first [] e h = (omega arith, tt)
  log-IsPublic first ((url, ip) ∷ log) e h = IsChain-length first url ip log e h

  -- Let the HTTP client follow only the redirects that the policy lets pass and connect only to the
  -- literal of a host or to an address that the resolver returned. Then a fetch of the fetcher that
  -- refuses private addresses makes at most three requests, whatever servers and name servers
  -- answer; each of them has the scheme http or https, and each goes to a public address.
  pub fetch-IsPublic :
      (fetcher : ImageFetcher) (text : Text)
      → fetcher.allow_private ≡ false
      → ((url : U) → IsChain false url (web.send url).log)
      → (length (fetch web fetcher text).0 ≤ max_redirects)
        × All IsPublic (fetch web fetcher text).0
  unfolding fetch
  fetch-IsPublic fetcher text p client = elim (Result-cases (web.parse_url text)) [
    | inr (e, parsed) ↦ rw (fetch, parsed) (omega arith, tt)
    | inl (url, parsed) ↦ elim (Result-cases (check_url web url fetcher.allow_private)) [
      | inr (reason, refused) ↦ rw (fetch, parsed, refused) (omega arith, tt)
      | inl (u, checked) ↦
          rw (fetch, parsed, checked)
            (log-IsPublic url (web.send url).log
              (subst (λ b. check_url web url b ≡ ok tt) p checked) (client url))
    ]
  ]
