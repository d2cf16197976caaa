-- ===== src/Relay.antt =====
-- src/control/kv_relay.rs: the relay of one model's KV events to the control plane. `J` is the type of
-- an event. Instants are nanoseconds, each step is given the time it runs at.
pub mod Frames
pub mod Run
pub mod Supervisor
pub mod Delay
use muna_server.Base.{
  ℕ, suc, ◌+◌, ◌-◌, ◌*◌, ◌%◌, ◌^◌, min, Bool, true, false, Option, none, some, List, [], ◌∷◌, ◌++◌,
  Text, text_eq, ltb, ◌&&◌, ◌==◌, if◌then◌else◌, not,
}

-- Five seconds, five minutes and one minute.
abbrev pub retry_delay_first : ℕ
retry_delay_first = 5 * 10 ^ 9

abbrev pub retry_delay_max : ℕ
retry_delay_max = 300 * 10 ^ 9

abbrev pub not_found_backoff : ℕ
not_found_backoff = 60 * 10 ^ 9

-- The backoff after a number of failed connects. 2 ^ 16 fits in 32 bits, so neither saturation
-- of the source takes effect.
unfoldable pub retry_delay : ℕ → ℕ
retry_delay consecutive_failures =
    min (retry_delay_first * 2 ^ min consecutive_failures 16) retry_delay_max

-- One decoded message of the engine.
pub record Message (J : Type 0) : Type 0 where
  pub epoch : Text
  pub seq : ℕ
  pub snapshot : Bool
  pub events : List J

pub record Pending (J : Type 0) : Type 0 where
  pub events : List J
  pub seq_range : Option (ℕ × ℕ)
  pub snapshot : Bool

pub record Continuity : Type 0 where
  pub epoch : Option Text
  pub last_seq : Option ℕ

pub data Admit : Type 0 where
  admit_snapshot delta gap : Admit

pub record EdgeState : Type 0 where
  pub needs_snapshot : Bool
  pub backoff_until : Option ℕ

pub record RelayBatch (J : Type 0) : Type 0 where
  pub epoch : Text
  pub seq_range : ℕ × ℕ
  pub snapshot : Bool
  pub events : List J

-- How the control plane answers a batch: success with its `need_snapshot`, 404 or 410, another
-- status, or no response.
pub data Reply : Type 0 where
  accepted : (need_snapshot : Bool) → Reply
  not_found rejected unreachable : Reply

abbrev pub no_continuity : Continuity
no_continuity = record { epoch = none; last_seq = none }

module _ {J : Type 0} where
  abbrev pub no_pending : Pending J
  no_pending = record { events = []; seq_range = none; snapshot = false }

unfoldable pub is_none_or_epoch : Option Text → Text → Bool
is_none_or_epoch none epoch = true
is_none_or_epoch (some e) epoch = text_eq e epoch

-- `last + 1` of a `u64`.
unfoldable pub is_none_or_next : Option ℕ → ℕ → Bool
is_none_or_next none seq = true
is_none_or_next (some last) seq = seq == (last + 1) % 2 ^ 64

unfoldable pub admit : Continuity → Text → ℕ → Bool → Continuity × Admit
unfolding is_none_or_epoch is_none_or_next
admit c epoch seq snapshot =
    if snapshot
    then (record { epoch = some epoch; last_seq = some seq }, admit_snapshot)
    else (if is_none_or_epoch c.epoch epoch && is_none_or_next c.last_seq seq
        then (record { epoch = some epoch; last_seq = some seq }, delta)
        else (c, gap))

abbrev pub extend_range : Option (ℕ × ℕ) → ℕ → ℕ × ℕ
extend_range none seq = (seq, seq)
extend_range (some (lo, hi)) seq = (lo, seq)

-- The plane's reply to a batch, at the time `later`.
unfoldable pub edge_after : EdgeState → ℕ → Reply → EdgeState
edge_after edge later (accepted need_snapshot) = record edge { needs_snapshot = need_snapshot }
edge_after edge later not_found = record {
  needs_snapshot = true;
  backoff_until = some (later + not_found_backoff);
}
edge_after edge later rejected = edge
edge_after edge later unreachable = edge

abbrev pub wants_reconnect : Reply → Bool
wants_reconnect (accepted need_snapshot) = need_snapshot
wants_reconnect _ = false

-- One `relay_model` task. `connected` is false from the start of a session to its subscription.
-- `window`, `taken` and `posts` are history: the messages that `pending` was made of, all messages
-- that were admitted, and the batches posted with their replies, each newest first.
pub record Relay (J : Type 0) : Type 0 where
  pub connected : Bool
  pub consecutive_failures : ℕ
  pub continuity : Continuity
  pub pending : Pending J
  pub edge : EdgeState
  pub window : List (Message J)
  pub taken : List (Message J)
  pub posts : List (RelayBatch J × Reply)

module _ {J : Type 0} where
  unfoldable pub new_relay : Relay J
  new_relay = record {
    connected = false;
    consecutive_failures = 0;
    continuity = no_continuity;
    pending = no_pending;
    edge = record { needs_snapshot = true; backoff_until = none };
    window = [];
    taken = [];
    posts = [];
  }

  -- The result of `connect_subscribe`. `saturating_add` of a `u32`.
  unfoldable pub connect : Relay J → Bool → Relay J
  connect r true = record r {
    connected = true;
    consecutive_failures = 0;
    continuity = no_continuity;
    pending = no_pending;
    window = [];
  }
  connect r false = record r {
    consecutive_failures = min (r.consecutive_failures + 1) (2 ^ 32 - 1);
  }

  -- `continue 'session`
  abbrev pub leave_session : Relay J → Relay J
  leave_session r = record r { connected = false }

  abbrev pub admitted : Relay J → Message J → Continuity × Admit → Relay J
  admitted r m (c, a) = elim a [
    | admit_snapshot ↦ record r {
      continuity = c;
      pending = record { events = m.events; seq_range = some (m.seq, m.seq); snapshot = true };
      window = m ∷ [];
      taken = m ∷ r.taken;
    }
    | delta ↦ record r {
      continuity = c;
      pending = record (r.pending) {
        events = r.pending.events ++ m.events;
        seq_range = some (extend_range r.pending.seq_range m.seq);
      };
      window = m ∷ r.window;
      taken = m ∷ r.taken;
    }
    | gap ↦ leave_session r
  ]

  -- A message received.
  unfoldable pub receive : Relay J → Message J → Relay J
  unfolding admit
  receive r m = admitted r m (admit r.continuity m.epoch m.seq m.snapshot)

  -- The POST of a batch, with `pending` emptied after it.
  abbrev pub post : Relay J → Text → ℕ × ℕ → ℕ → Reply → Relay J
  post r epoch range later reply = record r {
    connected = not (wants_reconnect reply);
    pending = no_pending;
    edge = edge_after r.edge later reply;
    window = [];
    posts =
        (
          record {
            epoch = epoch;
            seq_range = range;
            snapshot = r.pending.snapshot;
            events = r.pending.events;
          },
          reply,
        )
        ∷ r.posts;
  }

  -- `flush_pending` after the check of the backoff.
  unfoldable pub flush_open : Relay J → ℕ → Reply → Relay J
  unfolding edge_after
  flush_open r later reply = elim r.continuity.epoch [
    | none ↦ r
    | some epoch ↦ elim r.pending.seq_range [
      | none ↦ if r.edge.needs_snapshot then leave_session r else r
      | some range ↦
          if r.edge.needs_snapshot && not r.pending.snapshot
          then leave_session r
          else post r epoch range later reply
    ]
  ]

  unfoldable pub flush_pending : Relay J → ℕ → ℕ → Reply → Relay J
  unfolding flush_open
  flush_pending r now later reply = elim r.edge.backoff_until [
    | none ↦ flush_open r later reply
    | some until ↦
        if ltb now until
        then record r {
          pending = no_pending;
          edge = record (r.edge) { needs_snapshot = true };
          window = [];
        }
        else flush_open (record r { edge = record (r.edge) { backoff_until = none } }) later reply
  ]
