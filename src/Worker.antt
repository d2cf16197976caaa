-- ===== src/Worker.antt =====
-- src/serving/dispatch/worker.rs: the accumulator of a buffered model. Instants are nanoseconds,
-- and each step is given the time it runs at. `response_tx` is the number of the caller that waits
-- on the other end of the channel.
pub mod Queue
pub mod Select
pub mod Conserve
pub mod Progress
pub mod Flush
pub mod Run
use muna_server.Base.{
  ℕ, suc, ◌+◌, ◌-◌, ◌*◌, ◌^◌, Bool, true, false, Option, none, some, List, [], ◌∷◌, ◌++◌, Text, Map,
  get, insert, remove, ltb, leb, ◌||◌, ◌&&◌, if◌then◌else◌,
}
use muna_server.Values.{Value}

-- 100 ms.
abbrev pub flush_deadline : ℕ
flush_deadline = 100 * 10 ^ 6

pub record PredictItem (J : Type 0) : Type 0 where
  pub inputs : Map (Value J)
  pub acceleration : ℕ
  pub item_count : ℕ
  pub batch_key : Text
  pub enqueued : ℕ
  pub response_tx : ℕ

pub record KeyQueue (J : Type 0) : Type 0 where
  pub items : List (PredictItem J)
  pub total_items : ℕ

module _ {J : Type 0} where
  abbrev pub front_time : List (PredictItem J) → ℕ
  front_time [] = 0
  front_time (front ∷ rest) = front.enqueued

  -- A queue with no item, where Rust panics, reads as due since the start: `IsOpen` rules it out.
  unfoldable pub deadline : KeyQueue J → ℕ
  deadline q = front_time q.items + flush_deadline

  -- The loop of `take_batch`: the batch, and the items that stay. `some_taken` is
  -- `!batch.is_empty()`.
  unfoldable pub take_loop :
      ℕ → ℕ → Bool → List (PredictItem J) → List (PredictItem J) × List (PredictItem J)
  take_loop capacity total some_taken [] = ([], [])
  take_loop capacity total some_taken (front ∷ rest) =
      let more = take_loop capacity (total + front.item_count) true rest in
      if some_taken && ltb capacity (total + front.item_count)
      then ([], front ∷ rest)
      else (if leb capacity (total + front.item_count)
          then (front ∷ [], rest)
          else (front ∷ more.0, more.1))

  abbrev pub items_of : List (PredictItem J) → ℕ
  items_of [] = 0
  items_of (i ∷ is) = i.item_count + items_of is

  -- The batch, and the queue afterwards.
  unfoldable pub take_batch : KeyQueue J → ℕ → List (PredictItem J) × KeyQueue J
  unfolding take_loop
  take_batch q capacity =
      let (batch, rest) = take_loop capacity 0 false q.items in
      (batch, record { items = rest; total_items = q.total_items - items_of batch })

  abbrev pub or_new : Option (KeyQueue J) → KeyQueue J
  or_new none = record { items = []; total_items = 0 }
  or_new (some q) = q

  unfoldable pub file_item : Map (KeyQueue J) → PredictItem J → Map (KeyQueue J)
  file_item queues item =
      let queue = or_new (get queues item.batch_key) in
      insert queues item.batch_key (record {
        items = queue.items ++ item ∷ [];
        total_items = queue.total_items + item.item_count;
      })

  unfoldable pub is_flushable : ℕ → ℕ → KeyQueue J → Bool
  unfolding deadline
  is_flushable capacity now q = leb capacity q.total_items || leb (deadline q) now

  -- `min_by_key`: the first of the entries with the least deadline.
  abbrev pub earlier : Text × KeyQueue J → Option (Text × KeyQueue J) → Text × KeyQueue J
  earlier e none = e
  earlier e (some f) = if leb (deadline e.1) (deadline f.1) then e else f

  unfoldable pub select : ℕ → ℕ → Map (KeyQueue J) → Option (Text × KeyQueue J)
  unfolding is_flushable
  select capacity now [] = none
  select capacity now ((key, q) ∷ queues) =
      let rest = select capacity now queues in
      if is_flushable capacity now q then some (earlier (key, q) rest) else rest

  -- The batch to flush, and the queues afterwards.
  unfoldable pub take_flushable :
      Map (KeyQueue J) → ℕ → ℕ → Option (List (PredictItem J) × Map (KeyQueue J))
  unfolding select take_batch
  take_flushable queues capacity now = elim (select capacity now queues) [
    | none ↦ none
    | some (key, q) ↦ some (
      (take_batch q capacity).0,
      elim (take_batch q capacity).1.items [
        | [] ↦ remove queues key
        | i ∷ is ↦ insert queues key (take_batch q capacity).1
      ],
    )
  ]

  unfoldable pub earliest_deadline : Map (KeyQueue J) → Option ℕ
  unfolding deadline
  earliest_deadline [] = none
  earliest_deadline ((key, q) ∷ queues) =
      let rest = earliest_deadline queues in
      elim rest [
        | none ↦ some (deadline q)
        | some d ↦ if leb d (deadline q) then some d else some (deadline q)
      ]
