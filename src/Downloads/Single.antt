-- ===== src/Downloads/Single.antt =====
-- Proofs about the download locks (src/client.rs).
use muna_server.Base.{
  All, All-removed, All-inserted, All-mono, Bool-cases, subst, sym, ◌⊎◌, inl, inr, ℕ, suc, ◌≤◌, ◌≡◌,
  refl, true, ◌&&◌, leb, Option, none, some, List, [], ◌∷◌, ◌++◌, Text, text_eq, text_eq_iff, Map,
  get, insert, remove, get-insert, get-remove, get-insert_self, sum_by, sum_by-removed, ==_iff,
  if◌then◌else◌, arith,
}
use muna_server.Downloads.{
  waiting, holding, released, cleaned, Call, Downloads, is_holding, take_lock, holds, shares,
  strong_count, clean_up, Step, enters, locks_it, releases, cleans_up, drops, Reach, here, next,
}

-- The calls for a path that are in the guarded block.
abbrev holds_path : Text → Call → ℕ
holds_path path call = if is_holding call.stage && text_eq call.path path then 1 else 0

abbrev pub writers : Downloads → Text → ℕ
writers d path = sum_by (holds_path path) d.calls

take_lock-holds :
    (d : Downloads) (path : Text) (lock : ℕ)
    → sum_by (holds lock) (take_lock d path).calls ≡ sum_by (holds lock) d.calls
unfolding take_lock holds is_holding
take_lock-holds d path lock = ground arith

Step-holds :
    (lock : ℕ) (d e : Downloads)
    → Step d e
    → sum_by (holds lock) d.calls ≤ 1
    → sum_by (holds lock) e.calls ≤ 1
unfolding holds is_holding
Step-holds lock d e (enters path) h = omega (arith, take_lock-holds d path lock)
Step-holds lock d e (locks_it before after call writes eq stage free) h =
    let moved = record call { stage = holding writes } in
    ground (
      arith,
      ==_iff call.lock lock,
      sum_by-removed (holds lock) d.calls before after call eq,
      sum_by-removed (holds call.lock) d.calls before after call eq,
      sum_by-removed (holds lock) (before ++ moved ∷ after) before after moved refl,
    )
Step-holds lock d e (releases before after call files eq stage) h =
    let moved = record call { stage = released } in
    omega (
      arith,
      sum_by-removed (holds lock) d.calls before after call eq,
      sum_by-removed (holds lock) (before ++ moved ∷ after) before after moved refl,
    )
Step-holds lock d e (cleans_up before after call eq stage) h =
    let moved = record call { stage = cleaned } in
    omega (
      arith,
      sum_by-removed (holds lock) d.calls before after call eq,
      sum_by-removed (holds lock) (before ++ moved ∷ after) before after moved refl,
    )
Step-holds lock d e (drops before after call eq) h =
    omega (arith, sum_by-removed (holds lock) d.calls before after call eq)

-- A call before its cleanup has the lock that the map has for its path.
abbrev Keeps : Map ℕ → Call → Type 0
Keeps locks call = (call.stage ≡ cleaned) ⊎ (get locks call.path ≡ some call.lock)

Keeps-insert :
    (locks : Map ℕ) (path : Text) (lock : ℕ) (call : Call)
    → get locks path ≡ none
    → Keeps locks call
    → Keeps (insert locks path lock) call
Keeps-insert locks path lock call e (inl done) = inl done
Keeps-insert locks path lock call e (inr found) =
    inr (ground (arith, get-insert locks path call.path lock, text_eq_iff path call.path))

-- A lock that no call shares can go.
Keeps-remove :
    (locks : Map ℕ) (path : Text) (lock : ℕ)
    → get locks path ≡ some lock
    → (calls : List Call) → sum_by (shares lock) calls ≡ 0
    → All (Keeps locks) calls
    → All (Keeps (remove locks path)) calls
unfolding shares
Keeps-remove locks path lock e [] none_shares h = tt
Keeps-remove locks path lock e (call ∷ calls) none_shares h = (
  elim h.0 [
    | inl done ↦ inl done
    | inr found ↦ inr (
        ground (
          arith,
          get-remove locks path call.path,
          text_eq_iff path call.path,
          ==_iff call.lock lock,
        ))
  ],
  Keeps-remove locks path lock e calls (ground arith) h.1,
)

take_lock-new :
    (d : Downloads) (path : Text)
    → get d.locks path ≡ none
    → take_lock d path ≡ record d {
      locks = insert d.locks path d.created;
      created = suc d.created;
      calls = record { path = path; lock = d.created; stage = waiting } ∷ d.calls;
    }
unfolding take_lock
take_lock-new d path e = rw (e, take_lock) refl

take_lock-found :
    (d : Downloads) (path : Text) (lock : ℕ)
    → get d.locks path ≡ some lock
    → take_lock d path
      ≡ record d { calls = record { path = path; lock = lock; stage = waiting } ∷ d.calls }
unfolding take_lock
take_lock-found d path lock e = rw (e, take_lock) refl

abbrev AllKeep : Downloads → Type 0
AllKeep d = All (Keeps d.locks) d.calls

take_lock-Keeps :
    (d : Downloads) (path : Text) (found : Option ℕ)
    → get d.locks path ≡ found
    → AllKeep d
    → AllKeep (take_lock d path)
take_lock-Keeps d path (some lock) e h =
    subst AllKeep (sym (take_lock-found d path lock e)) (inr e, h)
take_lock-Keeps d path none e h = subst AllKeep (sym (take_lock-new d path e)) (
  inr (get-insert_self d.locks path d.created),
  All-mono (Keeps d.locks) (Keeps (insert d.locks path d.created))
      (λ call k. Keeps-insert d.locks path d.created call e k) d.calls h,
)

-- The cleanup takes a lock away when the call that cleans up is the last that shares it.
clean_up-Keeps :
    (d : Downloads) (path : Text) (calls : List Call) (found : Option ℕ)
    → get d.locks path ≡ found
    → ((lock : ℕ)
        → found ≡ some lock
        → leb (strong_count d lock) 2 ≡ true
        → sum_by (shares lock) calls ≡ 0)
    → All (Keeps d.locks) calls
    → All (Keeps (clean_up d path)) calls
unfolding clean_up
clean_up-Keeps d path calls none e last h =
    subst (λ locks. All (Keeps locks) calls) (sym (ground arith)) h
clean_up-Keeps d path calls (some lock) e last h = elim (Bool-cases (leb (strong_count d lock) 2)) [
  | inl few ↦
      subst (λ locks. All (Keeps locks) calls) (sym (ground arith))
        (Keeps-remove d.locks path lock e calls (last lock refl few) h)
  | inr many ↦ subst (λ locks. All (Keeps locks) calls) (sym (ground arith)) h
]

last_share :
    (d : Downloads) (before after : List Call) (call : Call) (lock : ℕ)
    → d.calls ≡ before ++ call ∷ after
    → call.stage ≡ released
    → Keeps d.locks call
    → get d.locks call.path ≡ some lock
    → leb (strong_count d lock) 2 ≡ true
    → sum_by (shares lock) (before ++ after) ≡ 0
unfolding strong_count shares
last_share d before after call lock eq stage (inl done) e few = cc
last_share d before after call lock eq stage (inr found) e few =
    ground (arith, ==_iff call.lock lock, sum_by-removed (shares lock) d.calls before after call eq)

Step-Keeps :
    (d e : Downloads) → Step d e → All (Keeps d.locks) d.calls → All (Keeps e.locks) e.calls
unfolding is_holding
Step-Keeps d e (enters path) h = take_lock-Keeps d path (get d.locks path) refl h
Step-Keeps d e (locks_it before after call writes eq stage free) h =
    let rest = All-removed (Keeps d.locks) before after call (subst (All (Keeps d.locks)) eq h) in
    All-inserted (Keeps d.locks) before after (record call { stage = holding writes })
      (elim rest.0 [ inl done ↦ inl cc | inr found ↦ inr found ]) rest.1
Step-Keeps d e (releases before after call files eq stage) h =
    let rest = All-removed (Keeps d.locks) before after call (subst (All (Keeps d.locks)) eq h) in
    All-inserted (Keeps d.locks) before after (record call { stage = released })
      (elim rest.0 [ inl done ↦ inl (ground arith) | inr found ↦ inr found ]) rest.1
Step-Keeps d e (cleans_up before after call eq stage) h =
    let rest = All-removed (Keeps d.locks) before after call (subst (All (Keeps d.locks)) eq h) in
    All-inserted (Keeps (clean_up d call.path)) before after (record call { stage = cleaned })
      (inl refl)
      (clean_up-Keeps d call.path (before ++ after) (get d.locks call.path) refl
        (λ lock e few. last_share d before after call lock eq stage rest.0 e few) rest.1)
Step-Keeps d e (drops before after call eq) h =
    (All-removed (Keeps d.locks) before after call (subst (All (Keeps d.locks)) eq h)).1

Reach-invariant :
    (d : Downloads)
    → Reach d
    → ((lock : ℕ) → sum_by (holds lock) d.calls ≤ 1) × All (Keeps d.locks) d.calls
Reach-invariant d (here files) = (λ lock. omega arith, tt)
Reach-invariant d (next r s) =
    let before = Reach-invariant _ r in
    (λ lock. Step-holds lock _ d s (before.0 lock), Step-Keeps _ d s before.1)

writers_le :
    (locks : Map ℕ) (path : Text) (lock : ℕ)
    → get locks path ≡ some lock
    → (calls : List Call) → All (Keeps locks) calls
    → sum_by (holds_path path) calls ≤ sum_by (holds lock) calls
unfolding holds is_holding
writers_le locks path lock e [] h = omega arith
writers_le locks path lock e (call ∷ calls) h = ground (
  arith,
  writers_le locks path lock e calls h.1,
  text_eq_iff call.path path,
  ==_iff call.lock lock,
)

writers_none :
    (locks : Map ℕ) (path : Text)
    → get locks path ≡ none
    → (calls : List Call) → All (Keeps locks) calls
    → sum_by (holds_path path) calls ≡ 0
unfolding is_holding
writers_none locks path e [] h = omega arith
writers_none locks path e (call ∷ calls) h =
    ground (arith, writers_none locks path e calls h.1, text_eq_iff call.path path)

-- In every order of calls, lock acquisitions, ends of downloads, cleanups and lost callers: at most
-- one of the calls for a path is in the block that looks for the file and writes it, also when the
-- map's entry for the path goes and a later call makes a new lock.
pub Reach-writers : (d : Downloads) (path : Text) → Reach d → writers d path ≤ 1
Reach-writers d path r = go (get d.locks path) refl
  where
    go : (found : Option ℕ) → get d.locks path ≡ found → writers d path ≤ 1
    go (some lock) e = omega (
      arith,
      writers_le d.locks path lock e d.calls (Reach-invariant d r).1,
      (Reach-invariant d r).0 lock,
    )
    go none e = omega (arith, writers_none d.locks path e d.calls (Reach-invariant d r).1)
