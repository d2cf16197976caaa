-- ===== src/Cache/Single.antt =====
-- Proofs that downloads are single-flight and that a cached model stays cached (src/serving/cache.rs).
use muna_server.Base.{
  ℕ, ◌+◌, ◌-◌, ◌≡◌, refl, sym, ap, ◌∙◌, ◌⊎◌, inl, inr, true, false, Option, none, some, List, [],
  ◌∷◌, ◌++◌, Text, text_eq, text_eq_iff, text_eq_refl, get, remove, get-insert, get-remove, ltb,
  if◌then◌else◌, arith, Bool-cases,
}
use muna_server.Cache.{
  cache_retry_backoff, CacheState, caching, cached, cache_failed, CachePriority, Download,
  CacheTracker, start_download, cached_state, ensure_cached, forget_failed, state_after,
  end_download, Step, ensures, forgets, starts, ends, notices, Reach, here, next,
}

abbrev pub downloads_for : Text → List Download → ℕ
downloads_for tag [] = 0
downloads_for tag (t ∷ ts) = (if text_eq t.tag tag then 1 else 0) + downloads_for tag ts

abbrev pub caching_in : Option CacheState → ℕ
caching_in none = 0
caching_in (some state) = elim state [ caching ↦ 1 | cached ↦ 0 | cache_failed error at ↦ 0 ]

-- A download runs for a tag exactly while its state is `caching`.
abbrev pub IsSingle : CacheTracker → Type 0
IsSingle c = (tag : Text) → downloads_for tag c.downloads ≡ caching_in (get c.states tag)

downloads_for-append :
    (tag : Text) (xs ys : List Download)
    → downloads_for tag (xs ++ ys) ≡ downloads_for tag xs + downloads_for tag ys
downloads_for-append tag [] ys = omega arith
downloads_for-append tag (x ∷ xs) ys = omega (arith, downloads_for-append tag xs ys)

caching_in-le : (o : Option CacheState) → (caching_in o ≡ 0) ⊎ (o ≡ some caching)
caching_in-le none = inl refl
caching_in-le (some caching) = inr refl
caching_in-le (some cached) = inl refl
caching_in-le (some (cache_failed error at)) = inl refl

-- A tag whose state is `cached` keeps it.
abbrev pub Keeps : CacheTracker → CacheTracker → Type 0
Keeps c d = (tag : Text) → get c.states tag ≡ some cached → get d.states tag ≡ some cached

start_download-IsSingle :
    (c : CacheTracker) (tag : Text) (priority : CachePriority)
    → caching_in (get c.states tag) ≡ 0
    → IsSingle c
    → IsSingle (start_download c tag priority)
unfolding start_download
start_download-IsSingle c tag priority e v t =
    ground (arith, get-insert c.states tag t caching, text_eq_iff tag t, v t, v tag)

start_download-Keeps :
    (c : CacheTracker) (tag : Text) (priority : CachePriority) (o : Option CacheState)
    → get c.states tag ≡ o
    → ((o ≡ some cached) → ⊥)
    → Keeps c (start_download c tag priority)
unfolding start_download
start_download-Keeps c tag priority o e n t h = elim (Bool-cases (text_eq tag t)) [
  | inl same ↦ absurd (n (sym e ∙ (ap (get c.states) ((text_eq_iff tag t).0 same) ∙ h)))
  | inr other_ ↦ get-insert c.states tag t caching ∙ rw other_ h
]

cached_state-IsSingle :
    (c : CacheTracker) (tag : Text) (priority : CachePriority) (now : ℕ) (o : Option CacheState)
    → get c.states tag ≡ o
    → IsSingle c
    → IsSingle (cached_state c tag priority now o) × Keeps c (cached_state c tag priority now o)
cached_state-IsSingle c tag priority now none e v = (
  start_download-IsSingle c tag priority (ap caching_in e) v,
  start_download-Keeps c tag priority none e (λ h. cc),
)
cached_state-IsSingle c tag priority now (some caching) e v = (v, λ t h. h)
cached_state-IsSingle c tag priority now (some cached) e v = (v, λ t h. h)
cached_state-IsSingle c tag priority now (some (cache_failed error at)) e v =
    elim (Bool-cases (ltb (now - at) cache_retry_backoff)) [
      | inl early ↦ rw early (v, λ t h. h)
      | inr ripe ↦ rw ripe (
        start_download-IsSingle c tag priority (ap caching_in e) v,
        start_download-Keeps c tag priority (some (cache_failed error at)) e (λ h. cc),
      )
    ]

ensure_cached-IsSingle :
    (c : CacheTracker) (tag : Text) (priority : CachePriority) (now : ℕ)
    → IsSingle c
    → IsSingle (ensure_cached c tag priority now) × Keeps c (ensure_cached c tag priority now)
unfolding ensure_cached
ensure_cached-IsSingle c tag priority now v =
    cached_state-IsSingle c tag priority now (get c.states tag) refl v

remove-IsSingle :
    (c : CacheTracker) (tag : Text)
    → (caching_in (get c.states tag) ≡ 0)
    → ((get c.states tag ≡ some cached) → ⊥)
    → IsSingle c
    → IsSingle (record c { states = remove c.states tag; notified = true })
      × Keeps c (record c { states = remove c.states tag; notified = true })
remove-IsSingle c tag e n v = (
  λ t. ground (arith, get-remove c.states tag t, text_eq_iff tag t, v t, v tag),
  λ t h. elim (Bool-cases (text_eq tag t)) [
    | inl same ↦ absurd (n (ap (get c.states) ((text_eq_iff tag t).0 same) ∙ h))
    | inr other_ ↦ get-remove c.states tag t ∙ rw other_ h
  ],
)

forget_state-IsSingle :
    (c : CacheTracker) (tag : Text) (o : Option CacheState)
    → get c.states tag ≡ o
    → IsSingle c
    → IsSingle (forget_failed c tag) × Keeps c (forget_failed c tag)
unfolding forget_failed
forget_state-IsSingle c tag none e v = rw (e, forget_failed) (v, λ t h. h)
forget_state-IsSingle c tag (some caching) e v = rw (e, forget_failed) (v, λ t h. h)
forget_state-IsSingle c tag (some cached) e v = rw (e, forget_failed) (v, λ t h. h)
forget_state-IsSingle c tag (some (cache_failed error at)) e v =
    rw (e, forget_failed) (remove-IsSingle c tag (ap caching_in e) (λ h. cc) v)

-- The tag of a running download has the state `caching`.
download-caching :
    (c : CacheTracker) (before : List Download) (task : Download) (after : List Download)
    → c.downloads ≡ before ++ task ∷ after
    → IsSingle c
    → get c.states task.tag ≡ some caching
download-caching c before task after e v = elim (caching_in-le (get c.states task.tag)) [
  | inl idle ↦ absurd (
      ground (
        arith,
        downloads_for-append task.tag before (task ∷ after),
        ap (downloads_for task.tag) e,
        v task.tag,
        text_eq_refl task.tag,
      ))
  | inr busy ↦ busy
]

state_after-caching_in :
    (error : Option Text) (now : ℕ) → caching_in (some (state_after error now)) ≡ 0
state_after-caching_in none now = refl
state_after-caching_in (some error) now = refl

end_download-IsSingle :
    (c : CacheTracker) (before : List Download) (task : Download) (after : List Download)
    (error : Option Text) (now : ℕ)
    → c.downloads ≡ before ++ task ∷ after
    → IsSingle c
    → IsSingle (end_download c before task after error now)
      × Keeps c (end_download c before task after error now)
unfolding end_download
end_download-IsSingle c before task after error now e v =
    let busy = download-caching c before task after e v in
    (
      λ t. ground (
        arith,
        downloads_for-append t before (task ∷ after),
        downloads_for-append t before after,
        ap (downloads_for t) e,
        v t,
        v task.tag,
        get-insert c.states task.tag t (state_after error now),
        text_eq_iff task.tag t,
        ap caching_in busy,
        state_after-caching_in error now,
      ),
      λ t h. elim (Bool-cases (text_eq task.tag t)) [
        | inl same ↦
            let z : some caching ≡ some cached =
              sym busy ∙ (ap (get c.states) ((text_eq_iff task.tag t).0 same) ∙ h) in
            cc
        | inr other_ ↦ get-insert c.states task.tag t (state_after error now) ∙ rw other_ h
      ],
    )

Step-IsSingle_cache : {c d : CacheTracker} → Step c d → IsSingle c → IsSingle d × Keeps c d
Step-IsSingle_cache {c} (ensures tag priority now) v = ensure_cached-IsSingle c tag priority now v
Step-IsSingle_cache {c} (forgets tag) v = forget_state-IsSingle c tag (get c.states tag) refl v
Step-IsSingle_cache {c} (starts before task after inflight e idle) v = (
  λ t. omega (
    arith,
    downloads_for-append t before (task ∷ after),
    downloads_for-append t before (record task { waiting = false } ∷ after),
    ap (downloads_for t) e,
    v t,
  ),
  λ t h. h,
)
Step-IsSingle_cache {c} (ends before task after error now e ready) v =
    end_download-IsSingle c before task after error now e v
Step-IsSingle_cache notices v = (v, λ t h. h)

Reach-IsSingle_cache : {c : CacheTracker} → Reach c → IsSingle c
unfolding get
Reach-IsSingle_cache here = λ t. refl
Reach-IsSingle_cache (next before step) = (Step-IsSingle_cache step (Reach-IsSingle_cache before)).0

-- In every reachable tracker, a tag has one download task while its state is `caching`, and none
-- otherwise; and a tag that is `cached` stays so in the next step, whatever that is.
pub Reach-downloads :
    {c d : CacheTracker}
    → Reach c
    → Step c d
    → ((tag : Text) → downloads_for tag c.downloads ≡ caching_in (get c.states tag))
      × ((tag : Text) → get c.states tag ≡ some cached → get d.states tag ≡ some cached)
Reach-downloads r step =
    (Reach-IsSingle_cache r, (Step-IsSingle_cache step (Reach-IsSingle_cache r)).1)
