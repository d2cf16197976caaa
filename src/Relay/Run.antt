-- ===== src/Relay/Run.antt =====
-- src/control/kv_relay.rs: the loop of `relay_model` as steps, and what its history should look like.
pub mod Sound
use mathlib.Core.Option.{some-injective}
use muna_server.Base.{
  ℕ, ◌+◌, ◌%◌, ◌^◌, ◌<◌, ◌≡◌, refl, sym, ap, ◌∙◌, ◌⊎◌, inl, inr, Bool, true, false, Option, none,
  some, List, [], ◌∷◌, ◌++◌, Text, text_eq, text_eq_iff, All, ltb, ◌&&◌, ◌==◌, not, arith,
  Bool-cases, Option-cases, if◌then◌else◌, append-nil,
}
use muna_server.Relay.{
  Message, Pending, Continuity, Admit, admit_snapshot, delta, gap, EdgeState, RelayBatch, Reply,
  accepted, not_found, rejected, unreachable, no_continuity, no_pending, is_none_or_epoch,
  is_none_or_next, admit, extend_range, Relay, new_relay, connect, leave_session, admitted, receive,
  edge_after, wants_reconnect, post, flush_open, flush_pending,
}

module _ {J : Type 0} where
  pub data Step (r : Relay J) : Relay J → Type 0 where
    connects : (subscribed : Bool) → r.connected ≡ false → Step r (connect r subscribed)
    receives : (m : Message J) → r.connected ≡ true → Step r (receive r m)
    flushes :
        (now later : ℕ) (reply : Reply)
        → r.connected ≡ true
        → Step r (flush_pending r now later reply)
    breaks : r.connected ≡ true → Step r (leave_session r)

  pub data Reach : Relay J → Type 0 where
    here : Reach new_relay
    next : {r s : Relay J} → Reach r → Step r s → Reach s

  -- A run of messages, newest first: one epoch, each number the next one after its predecessor's, and
  -- no snapshot but the oldest.
  abbrev pub IsRun : Message J → List (Message J) → Type 0
  IsRun m [] = Unit
  IsRun m (n ∷ ms) =
      (m.epoch ≡ n.epoch) × (m.seq ≡ (n.seq + 1) % 2 ^ 64) × (m.snapshot ≡ false) × IsRun n ms

  abbrev pub oldest : Message J → List (Message J) → Message J
  oldest m [] = m
  oldest m (n ∷ ms) = oldest n ms

  abbrev pub events_of : List (Message J) → List J
  events_of [] = []
  events_of (m ∷ ms) = events_of ms ++ m.events

  -- What is buffered is made of the messages since the last flush.
  abbrev pub IsHeld : Continuity → Pending J → List (Message J) → Type 0
  IsHeld c p [] = p ≡ no_pending
  IsHeld c p (m ∷ ms) =
      IsRun m ms
      × (c ≡ record { epoch = some m.epoch; last_seq = some m.seq })
      × (p ≡ record {
        events = events_of (m ∷ ms);
        seq_range = some ((oldest m ms).seq, m.seq);
        snapshot = (oldest m ms).snapshot;
      })

  -- Each batch, newest first, holds the events of a run among the messages that were admitted, newest
  -- first; the runs of two batches do not overlap and stand in the order of the batches.
  abbrev pub AreCut : List (RelayBatch J × Reply) → List (Message J) → Type 0
  AreCut [] taken = Unit
  AreCut ((b, reply) ∷ posts) taken =
      (newer : List (Message J)) × (m : Message J) × (ms : List (Message J)) × (older : List
        (Message J))
      × (taken ≡ newer ++ (m ∷ (ms ++ older)))
      × IsRun m ms
      × (b ≡ record {
        epoch = m.epoch;
        seq_range = ((oldest m ms).seq, m.seq);
        snapshot = (oldest m ms).snapshot;
        events = events_of (m ∷ ms);
      })
      × AreCut posts older

  -- Whether the plane awaits a snapshot after the posts: it does before the first one, after a reply
  -- that asks for one, and after a 404 or 410; a post that fails otherwise changes nothing.
  abbrev pub awaits_snapshot : List (RelayBatch J × Reply) → Bool
  awaits_snapshot [] = true
  awaits_snapshot ((b, accepted need) ∷ posts) = need
  awaits_snapshot ((b, not_found) ∷ posts) = true
  awaits_snapshot ((b, rejected) ∷ posts) = awaits_snapshot posts
  awaits_snapshot ((b, unreachable) ∷ posts) = awaits_snapshot posts

  abbrev pub AreBased : List (RelayBatch J × Reply) → Type 0
  AreBased [] = Unit
  AreBased ((b, reply) ∷ posts) =
      (awaits_snapshot posts ≡ true → b.snapshot ≡ true) × AreBased posts
