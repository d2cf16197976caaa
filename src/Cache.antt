-- ===== src/Cache.antt =====
-- src/serving/cache.rs: the tracker of which models have their resources on disk, and its download
-- tasks. The downloader is open: a task ends with any outcome at any time. Instants are nanoseconds.
pub mod Single
use muna_server.Base.{
  ℕ, ◌+◌, ◌-◌, ◌*◌, ◌^◌, ◌≡◌, Bool, true, false, Option, none, some, List, [], ◌∷◌, ◌++◌, map, Text,
  Map, get, insert, remove, ltb, if◌then◌else◌,
}
use muna_server.Gate.{is_idle}

-- One minute.
abbrev pub cache_retry_backoff : ℕ
cache_retry_backoff = 60 * 10 ^ 9

pub data CacheState : Type 0 where
  caching cached : CacheState
  cache_failed : (error : Text) (at : ℕ) → CacheState

pub data CachePriority : Type 0 where
  immediate prefetch : CachePriority

-- A download task; `waiting` until its wait for the download gate is over.
pub record Download : Type 0 where
  pub tag : Text
  pub waiting : Bool

-- `notified` is the permit that `status_changed` stores.
pub record CacheTracker : Type 0 where
  pub states : Map CacheState
  pub notified : Bool
  pub downloads : List Download

abbrev pub new_tracker : CacheTracker
new_tracker = record { states = []; notified = false; downloads = [] }

abbrev pub is_prefetch : CachePriority → Bool
is_prefetch immediate = false
is_prefetch prefetch = true

-- The entry set to `Caching`, and `spawn_download`.
unfoldable pub start_download : CacheTracker → Text → CachePriority → CacheTracker
start_download c tag priority = record {
  states = insert c.states tag caching;
  notified = true;
  downloads = record { tag = tag; waiting = is_prefetch priority } ∷ c.downloads;
}

abbrev pub cached_state : CacheTracker → Text → CachePriority → ℕ → Option CacheState → CacheTracker
cached_state c tag priority now none = start_download c tag priority
cached_state c tag priority now (some state) = elim state [
  | caching ↦ c
  | cached ↦ c
  | cache_failed error at ↦
      if ltb (now - at) cache_retry_backoff then c else start_download c tag priority
]

unfoldable pub ensure_cached : CacheTracker → Text → CachePriority → ℕ → CacheTracker
unfolding start_download
ensure_cached c tag priority now = cached_state c tag priority now (get c.states tag)

unfoldable pub forget_failed : CacheTracker → Text → CacheTracker
forget_failed c tag = elim (get c.states tag) [
  | none ↦ c
  | some state ↦ elim state [
    | caching ↦ c
    | cached ↦ c
    | cache_failed error at ↦ record c { states = remove c.states tag; notified = true }
  ]
]

unfoldable pub cache_snapshot : CacheTracker → List (Text × CacheState)
cache_snapshot c = c.states

-- The outcome of a download: `none`, or the error.
abbrev pub state_after : Option Text → ℕ → CacheState
state_after none now = cached
state_after (some error) now = cache_failed error now

-- The end of a download task.
unfoldable pub end_download :
    CacheTracker → List Download → Download → List Download → Option Text → ℕ → CacheTracker
end_download c before task after error now = record {
  states = insert c.states task.tag (state_after error now);
  notified = true;
  downloads = before ++ after;
}

-- `inflight` is the count of the download gate.
pub data Step (c : CacheTracker) : CacheTracker → Type 0 where
  ensures :
      (tag : Text) (priority : CachePriority) (now : ℕ) → Step c (ensure_cached c tag priority now)
  forgets : (tag : Text) → Step c (forget_failed c tag)
  starts :
      (before : List Download) (task : Download) (after : List Download) (inflight : ℕ)
      → c.downloads ≡ before ++ task ∷ after
      → is_idle inflight ≡ true
      → Step c (record c { downloads = before ++ record task { waiting = false } ∷ after })
  ends :
      (before : List Download) (task : Download) (after : List Download) (error : Option Text)
      (now : ℕ)
      → c.downloads ≡ before ++ task ∷ after
      → task.waiting ≡ false
      → Step c (end_download c before task after error now)
  notices : Step c (record c { notified = false })

pub data Reach : CacheTracker → Type 0 where
  here : Reach new_tracker
  next : {c d : CacheTracker} → Reach c → Step c d → Reach d
