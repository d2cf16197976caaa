-- ===== src/Downloads.antt =====
-- src/client.rs: the locks of `ServerClient::download`, keyed by destination path and shared by all
-- clients of the process. The download itself is open: it succeeds or fails at any time.
pub mod Single
use muna_server.Base.{
  ℕ, suc, ◌+◌, ◌≡◌, Bool, true, false, not, ◌&&◌, Option, none, some, List, [], ◌∷◌, ◌++◌, Text,
  Map, get, insert, remove, sum_by, ◌==◌, leb, if◌then◌else◌,
}

-- Where a call is: before the lock, in the block that holds the guard, after it, or after the cleanup.
-- `holding` says whether it writes the file or has found it in place.
pub data Stage : Type 0 where
  waiting : Stage
  holding : (writes : Bool) → Stage
  released : Stage
  cleaned : Stage

-- A call and its clone of the lock.
pub record Call : Type 0 where
  pub path : Text
  pub lock : ℕ
  pub stage : Stage

-- `locks` is the map of `download_locks`, `created` numbers the locks, `files` holds the paths that
-- exist.
pub record Downloads : Type 0 where
  pub locks : Map ℕ
  pub created : ℕ
  pub calls : List Call
  pub files : List Text

unfoldable pub is_holding : Stage → Bool
is_holding waiting = false
is_holding (holding writes) = true
is_holding released = false
is_holding cleaned = false

-- `entry(path).or_insert_with(...).clone()`.
unfoldable pub take_lock : Downloads → Text → Downloads
take_lock d path = elim (get d.locks path) [
  | some lock ↦ record d { calls = record { path = path; lock = lock; stage = waiting } ∷ d.calls }
  | none ↦ record d {
    locks = insert d.locks path d.created;
    created = suc d.created;
    calls = record { path = path; lock = d.created; stage = waiting } ∷ d.calls;
  }
]

unfoldable pub holds : ℕ → Call → ℕ
unfolding is_holding
holds lock call = if is_holding call.stage && (call.lock == lock) then 1 else 0

unfoldable pub shares : ℕ → Call → ℕ
shares lock call = if call.lock == lock then 1 else 0

-- `Arc::strong_count`: the map's clone and those of the calls.
unfoldable pub strong_count : Downloads → ℕ → ℕ
unfolding shares
strong_count d lock = suc (sum_by (shares lock) d.calls)

-- `remove_if`, on the lock that the map has for the path.
unfoldable pub clean_up : Downloads → Text → Map ℕ
unfolding strong_count
clean_up d path = elim (get d.locks path) [
  | none ↦ d.locks
  | some lock ↦ if leb (strong_count d lock) 2 then remove d.locks path else d.locks
]

pub data Step (d : Downloads) : Downloads → Type 0 where
  enters : (path : Text) → Step d (take_lock d path)
  -- `lock.lock().await` returns: no call holds the guard of the lock.
  locks_it :
      (before after : List Call) (call : Call) (writes : Bool)
      → d.calls ≡ before ++ call ∷ after
      → call.stage ≡ waiting
      → sum_by (holds call.lock) d.calls ≡ 0
      → Step d (record d { calls = before ++ record call { stage = holding writes } ∷ after })
  -- The end of the block drops the guard; a download that succeeded has put the file in place.
  releases :
      (before after : List Call) (call : Call) (files : List Text)
      → d.calls ≡ before ++ call ∷ after
      → is_holding call.stage ≡ true
      → Step d
          (record d { calls = before ++ record call { stage = released } ∷ after; files = files })
  cleans_up :
      (before after : List Call) (call : Call)
      → d.calls ≡ before ++ call ∷ after
      → call.stage ≡ released
      → Step d (record d {
        locks = clean_up d call.path;
        calls = before ++ record call { stage = cleaned } ∷ after;
      })
  -- The call returns, or its caller is gone: its guard and its clone are dropped.
  drops :
      (before after : List Call) (call : Call)
      → d.calls ≡ before ++ call ∷ after
      → Step d (record d { calls = before ++ after })

pub data Reach : Downloads → Type 0 where
  here : (files : List Text) → Reach (record { locks = []; created = 0; calls = []; files = files })
  next : {d e : Downloads} → Reach d → Step d e → Reach e
