-- ===== src/Worker/Run.antt =====
-- src/serving/dispatch/worker.rs: the loop of the accumulator task, as steps of a system in which
-- callers send requests and drop the channel, and time passes. One step `turn` is the part of the
-- loop up to its wait: it files what is in the channel and flushes at most one batch. The end of the
-- wait is a step of its own. A request is announced by `queue_depth.fetch_add` before its `send`, which
-- waits for room in the channel and may never come about.
pub mod Reached
pub mod Safety
use muna_server.Base.{
  ℕ, suc, ◌+◌, ◌-◌, ◌≤◌, ◌<◌, ◌%◌, ◌^◌, ◌≡◌, Bool, true, false, Option, none, some, List, [], ◌∷◌,
  ◌++◌, map, Text, Map, length,
}
use muna_server.Values.{Value}
use muna_server.Merge.{◌>>=◌}
use muna_server.Stats.{ModelStats, new_stats, queue_up, queue_down}
use muna_server.Worker.{PredictItem, KeyQueue, file_item, take_flushable, earliest_deadline}
use muna_server.Worker.Flush.{MunaError, Outcome, Answer, flush}

-- `CHANNEL_BUFFER`
abbrev pub channel_buffer : ℕ
channel_buffer = 1024

-- `sending` are the requests that were announced and wait in `tx.send(item).await`. `asked`,
-- `abandoned` and `answers` are the history: who has sent a request, how many requests were announced
-- and then not sent, and what was answered.
pub record System (J : Type 0) : Type 0 where
  pub sending : List (PredictItem J)
  pub channel : List (PredictItem J)
  pub closed : Bool
  pub queues : Map (KeyQueue J)
  pub stats : ModelStats
  pub stopped : Bool
  pub asked : List ℕ
  pub abandoned : ℕ
  pub answers : List (Answer J)

-- What ends the wait of the accumulator.
pub data Wake (J : Type 0) : Type 0 where
  received : PredictItem J → Wake J
  all_senders_dropped : Wake J
  timed_out : Wake J

module _ {J : Type 0} where
  abbrev pub start : System J
  start = record {
    sending = [];
    channel = [];
    closed = false;
    queues = [];
    stats = new_stats;
    stopped = false;
    asked = [];
    abandoned = 0;
    answers = [];
  }

  -- `queue_depth.fetch_add(1)`, before the send.
  unfoldable pub announce : System J → PredictItem J → System J
  unfolding queue_up
  announce s item = record s { sending = item ∷ s.sending; stats = queue_up s.stats }

  -- The send comes about.
  abbrev pub send :
      System J → List (PredictItem J) → PredictItem J → List (PredictItem J) → System J
  send s before item after = record s {
    sending = before ++ after;
    channel = s.channel ++ item ∷ [];
    asked = s.asked ++ item.response_tx ∷ [];
  }

  -- The caller is gone, or the receiver: nothing takes the announcement back.
  abbrev pub abandon : System J → List (PredictItem J) → List (PredictItem J) → System J
  abandon s before after = record s { sending = before ++ after; abandoned = s.abandoned + 1 }

  -- `while let Ok(item) = self.rx.try_recv()`
  unfoldable pub drain :
      List (PredictItem J) → Map (KeyQueue J) → ModelStats → Map (KeyQueue J) × ModelStats
  unfolding file_item queue_down
  drain [] queues stats = (queues, stats)
  drain (item ∷ channel) queues stats = drain channel (file_item queues item) (queue_down stats)

  unfoldable pub drained : System J → System J
  unfolding drain
  drained s = record s {
    channel = [];
    queues = (drain s.channel s.queues s.stats).0;
    stats = (drain s.channel s.queues s.stats).1;
  }

  -- The state in which the loop goes on after its wait.
  unfoldable pub wake : System J → Wake J → System J
  unfolding file_item queue_down
  wake s (received item) = record s { queues = file_item s.queues item; stats = queue_down s.stats }
  wake s all_senders_dropped = record s { stopped = true }
  wake s timed_out = s

module _ {J : Type 0} (to_string : MunaError → Text) (params : List Text) (capacity : ℕ) where
  -- Flush a batch whose requests have left the queues; `none` is a panic.
  unfoldable pub flush_batch :
      System J
      → List (PredictItem J)
      → Map (KeyQueue J)
      → (Map (Value J) → ℕ → Outcome J)
      → ℕ
      → ℕ
      → Option (System J)
  unfolding flush
  flush_batch s batch queues predict_fn dispatched done =
      flush to_string predict_fn params s.stats.telemetry batch dispatched done >>= λ r.
      some (record s {
        queues = queues;
        stats = record (s.stats) { telemetry = r.1 };
        answers = s.answers ++ r.0;
      })

  -- One turn of the loop up to its wait, if any: the system, and whether the loop waits.
  unfoldable pub turn :
      System J → ℕ → ℕ → (Map (Value J) → ℕ → Outcome J) → Option (System J × Bool)
  unfolding drained flush_batch
  turn s now done predict_fn = elim (take_flushable (drained s).queues capacity now) [
    | none ↦ some (drained s, true)
    | some (batch, queues) ↦
        flush_batch (drained s) batch queues predict_fn now done >>= λ t. some (t, false)
  ]

  pub data Step (s : System J) : System J → Type 0 where
    announces : (item : PredictItem J) → s.closed ≡ false → Step s (announce s item)
    sends :
        (before : List (PredictItem J)) (item : PredictItem J) (after : List (PredictItem J))
        → s.sending ≡ before ++ item ∷ after
        → length s.channel < channel_buffer
        → Step s (send s before item after)
    abandons :
        (before : List (PredictItem J)) (item : PredictItem J) (after : List (PredictItem J))
        → s.sending ≡ before ++ item ∷ after
        → Step s (abandon s before after)
    -- A caller in `send` still has a sender.
    closes : s.sending ≡ [] → Step s (record s { closed = true })
    turns :
        (now done : ℕ) (predict_fn : Map (Value J) → ℕ → Outcome J) (t : System J) (waits : Bool)
        → s.stopped ≡ false
        → turn s now done predict_fn ≡ some (t, waits)
        → Step s t
    receives :
        (item : PredictItem J) (rest : List (PredictItem J))
        → s.stopped ≡ false
        → s.channel ≡ item ∷ rest
        → Step s (wake (record s { channel = rest }) (received item))
    stops :
        s.stopped ≡ false → s.channel ≡ [] → s.closed ≡ true → Step s (wake s all_senders_dropped)
    expires :
        (deadline now : ℕ)
        → s.stopped ≡ false
        → earliest_deadline s.queues ≡ some deadline
        → deadline ≤ now
        → Step s (wake s timed_out)

  pub data Reach : System J → Type 0 where
    here : Reach start
    next : {s t : System J} → Reach s → Step s t → Reach t
