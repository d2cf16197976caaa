-- ===== src/Examples/Control.antt =====
-- Concrete inputs for the theorems on src/control/kv_relay.rs, src/control/heartbeat.rs,
-- src/serving/cache.rs and src/serving/dispatch/mod.rs.
use muna_server.Base.{
  inl, ℕ, ◌≡◌, refl, true, false, none, some, List, [], ◌∷◌, Text, text_eq, get, arith,
}
use muna_server.Batch.{sequential}
use muna_server.Registry.{new_registry, serves}
use muna_server.Cache.{
  new_tracker, prefetch, ensure_cached, cached, ensures, forgets, forget_failed,
}
use muna_server.Cache.Single.{downloads_for, caching_in, Reach-downloads}
use muna_server.Cache
use muna_server.Dispatch.{Dispatcher, new_dispatcher, create}
use muna_server.Heartbeat.{process, disk, ModelDescriptor, HeartbeatResponse, Node, apply}
use muna_server.Heartbeat.Directed.{IsDirected, apply-IsDirected}
use muna_server.Relay.{Message, Relay, accepted, new_relay, connect, receive, flush_pending}
use muna_server.Relay.Frames.{kv_topic, to_be_bytes, parse_message, parse_message-to_be_bytes}
use muna_server.Relay.Run.{connects, receives, flushes, Reach, here, next, AreCut, AreBased}
use muna_server.Relay.Run.Sound.{Reach-posts, Reach-based}

abbrev tag : Text
tag = b'a' ∷ []

parse_message-to_be_bytes_example :
    parse_message (λ t. some t) (kv_topic ∷ to_be_bytes 513 ∷ tag ∷ []) ≡ some (513, tag)
parse_message-to_be_bytes_example = parse_message-to_be_bytes (λ t. some t) 513 tag (omega arith)

-- A relay that got a snapshot and a delta and posted them as one batch.
abbrev message : ℕ → Message ℕ
message n = record { epoch = tag; seq = n; snapshot = false; events = n ∷ [] }

abbrev first_relay : Relay ℕ
first_relay = receive (connect new_relay true) (record (message 4) { snapshot = true })

abbrev posted : Relay ℕ
posted = flush_pending (receive first_relay (message 5)) 1 2 (accepted false)

posted-Reach : Reach posted
unfolding new_relay connect receive text_eq
posted-Reach =
    next
      (next
        (next (next here (connects true refl))
          (receives (record (message 4) { snapshot = true }) refl))
        (receives (message 5) refl))
      (flushes 1 2 (accepted false) refl)

Reach-posts_example : AreCut posted.posts posted.taken
Reach-posts_example = Reach-posts posted-Reach

Reach-based_example : AreBased posted.posts
Reach-based_example = Reach-based posted-Reach

Reach-downloads_example :
    ((t : Text)
      → downloads_for t (ensure_cached new_tracker tag prefetch 3).downloads
        ≡ caching_in (get (ensure_cached new_tracker tag prefetch 3).states t))
    × ((t : Text)
        → get (ensure_cached new_tracker tag prefetch 3).states t ≡ some cached
        → get (forget_failed (ensure_cached new_tracker tag prefetch 3) tag).states t ≡ some cached)
Reach-downloads_example =
    Reach-downloads (muna_server.Cache.next muna_server.Cache.here (ensures tag prefetch 3))
      (forgets tag)

abbrev one_entry : Dispatcher
one_entry = (create new_dispatcher tag sequential).0

abbrev node : Node
node = record {
  registry = new_registry [] none;
  cache = new_tracker;
  dispatcher = new_dispatcher;
  keys = [];
  policies = [];
  draining = false;
}

abbrev goals : List ModelDescriptor
goals =
    record { tag = b'b' ∷ []; residency = disk; key = none; devices = none; policy = none }
    ∷ record {
      tag = tag;
      residency = process;
      key = none;
      devices = some (0 ∷ []);
      policy = some 2;
    }
    ∷ []

abbrev response : HeartbeatResponse
response = record { models = goals; drain = true }

-- The goal that takes a model out of the process, and another one beside it.
abbrev demotion : ModelDescriptor
demotion = record { tag = b'b' ∷ []; residency = disk; key = none; devices = none; policy = none }

apply-IsDirected_example :
    IsDirected disk demotion (apply node response 9)
    × ((apply node response 9).draining ≡ response.drain)
unfolding text_eq serves new_registry
apply-IsDirected_example = apply-IsDirected node response 9 demotion (inl (refl, (refl, tt))) refl
