-- ===== src/Examples/Accumulator.antt =====
-- Concrete inputs for the theorems on src/serving/dispatch/worker.rs.
use muna_server.Base.{
  ℕ, ◌≡◌, refl, some, List, [], ◌∷◌, Text, text_eq, Map, get, insert, remove, arith,
}
use muna_server.Values.{Value, list}
use muna_server.Batch.{contains}
use muna_server.Merge.{merge_inputs}
use muna_server.Worker.{
  PredictItem, KeyQueue, deadline, take_batch, is_flushable, select, take_flushable,
  earliest_deadline, take_loop,
}
use muna_server.Worker.Queue.{IsOpen}
use muna_server.Worker.Select.{AreOpen}
use muna_server.Worker.Conserve.{Flushed, take_flushable-Flushed}
use muna_server.Worker.Progress.{take_flushable-earliest_deadline}
use muna_server.Worker.Flush.{MunaError, native, Outcome, err, Answer, invoke}
use muna_server.Worker.Flush.Laws.{answers_by, callers, invoke-shares}
use muna_server.Stats.{new_stats}
use muna_server.Worker.Run.{drain, System, start, announce, send, announces, sends, here, next}
use muna_server.Worker.Run.Reached.{reached, invoke-reached}
use muna_server.Worker.Run.Safety.{Inv, Reach-Inv}

abbrev key : Text
key = b'k' ∷ []

abbrev item : ℕ → PredictItem ℕ
item n = record {
  inputs = (key, list (n ∷ [])) ∷ [];
  acceleration = 0;
  item_count = 1;
  batch_key = key;
  enqueued = 5;
  response_tx = n;
}

abbrev queue : KeyQueue ℕ
queue = record { items = item 1 ∷ item 2 ∷ []; total_items = 2 }

queue-IsOpen : IsOpen key queue
queue-IsOpen = record { nonempty = tt; counted = refl; keyed = (refl, (refl, tt)) }

abbrev queues : Map (KeyQueue ℕ)
queues = (key, queue) ∷ []

queues-AreOpen : AreOpen queues
unfolding get
queues-AreOpen = record { distinct = (refl, tt); each = (queue-IsOpen, tt) }

take_flushable-Flushed_example : Flushed queues 2 0 (item 1 ∷ item 2 ∷ []) []
unfolding take_flushable take_batch take_loop select is_flushable deadline remove text_eq insert
take_flushable-Flushed_example =
    (take_flushable-Flushed queues 2 0 queues-AreOpen).1 (item 1 ∷ item 2 ∷ []) [] refl

take_flushable-earliest_deadline_example :
    (r : List (PredictItem ℕ) × Map (KeyQueue ℕ)) × (take_flushable
        (drain (item 3 ∷ []) queues new_stats).0
        9
        100000005
      ≡ some r)
unfolding earliest_deadline deadline
take_flushable-earliest_deadline_example =
    take_flushable-earliest_deadline queues (item 3 ∷ []) new_stats 9 100000005 100000005
      queues-AreOpen refl (omega arith)

abbrev to_string : MunaError → Text
to_string e = key

abbrev failing : Map (Value ℕ) → ℕ → Outcome ℕ
failing inputs acceleration = err (native [])

abbrev pair : List (PredictItem ℕ)
pair = item 1 ∷ item 2 ∷ []

invoke-shares_example :
    invoke to_string failing (key ∷ []) pair ≡ some (answers_by (λ i. err (native key)) pair)
unfolding merge_inputs insert contains text_eq get
invoke-shares_example =
    (invoke-shares to_string failing (key ∷ []) (item 1) (item 2) [] ((key, list (1 ∷ 2 ∷ [])) ∷ [])
        refl).1
      (native []) refl

abbrev errors : List (Answer ℕ)
errors =
    record { to = 1; outcome = err (native key) }
    ∷ record { to = 2; outcome = err (native key) }
    ∷ []

invoke-reached_example : reached errors ≡ callers pair
unfolding invoke merge_inputs
invoke-reached_example = invoke-reached to_string failing (key ∷ []) pair errors refl

abbrev announced : System ℕ
announced = announce start (item 1)

Reach-Inv_example : Inv (send announced [] (item 1) [])
unfolding announce
Reach-Inv_example =
    Reach-Inv to_string (key ∷ []) 2
      (next (next here (announces (item 1) refl)) (sends [] (item 1) [] refl (omega arith)))
