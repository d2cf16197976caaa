-- ===== src/Worker/Run/Safety.antt =====
-- Proofs about every reachable state of the accumulator: nothing is lost, and the queues stay
-- well-formed.
use mathlib.Core.Option.{some-injective}
use muna_server.Base.{
  ℕ, suc, ◌+◌, ◌≤◌, ◌<◌, ◌%◌, ◌^◌, ◌≡◌, refl, ap, subst, inl, inr, Bool, true, false, Option, none,
  some, List, [], ◌∷◌, ◌++◌, Text, Map, length, length-append, arith, Option-cases, sum_by,
  sum_by-append,
}
use muna_server.Values.{Value}
use muna_server.Stats.{ModelStats, queue_down}
use muna_server.Worker.{PredictItem, KeyQueue, deadline, file_item, take_flushable}
use muna_server.Worker.Select.{AreOpen, file_item-AreOpen}
use muna_server.Worker.Conserve.{weigh_all, weigh-file_item, Flushed, take_flushable-Flushed}
use muna_server.Worker.Flush.{MunaError, Outcome, Answer, record_batch, invoke}
use muna_server.Worker.Flush.Laws.{callers}
use muna_server.Worker.Run.Reached.{reached, invoke-reached}
use muna_server.Worker.Run.{
  System, start, announce, send, abandon, drain, drained, received, all_senders_dropped, timed_out,
  wake, flush_batch, turn, Step, announces, sends, abandons, closes, turns, receives, stops,
  expires, Reach, here, next, channel_buffer,
}

module _ {J : Type 0} where
  -- The weight of a request by its caller.
  abbrev by_caller : (ℕ → ℕ) → PredictItem J → ℕ
  by_caller g i = g i.response_tx

  pub record Inv (s : System J) : Type 0 where
    pub open_queues : AreOpen s.queues
    pub depth : s.stats.queue_depth ≡ (length s.channel + length s.sending + s.abandoned) % 2 ^ 32
    pub room : length s.channel ≤ channel_buffer
    pub conserved :
        (g : ℕ → ℕ)
        → sum_by g s.asked
          ≡ sum_by (by_caller g) s.channel
            + weigh_all (by_caller g) s.queues
            + sum_by g (reached s.answers)

  pub drain-AreOpen :
      (channel : List (PredictItem J)) (queues : Map (KeyQueue J)) (stats : ModelStats)
      → AreOpen queues
      → AreOpen (drain channel queues stats).0
  unfolding drain
  drain-AreOpen [] queues stats v = v
  drain-AreOpen (i ∷ channel) queues stats v =
      drain-AreOpen channel (file_item queues i) (queue_down stats) (file_item-AreOpen queues i v)

  drain-depth :
      (channel : List (PredictItem J)) (queues : Map (KeyQueue J)) (stats : ModelStats) (rest : ℕ)
      → stats.queue_depth ≡ (length channel + rest) % 2 ^ 32
      → (drain channel queues stats).1.queue_depth ≡ rest % 2 ^ 32
  unfolding drain
  drain-depth [] queues stats rest e = omega (arith, e)
  drain-depth (i ∷ channel) queues stats rest e =
      drain-depth channel (file_item queues i) (queue_down stats) rest (omega arith)

  drain-weigh :
      (f : PredictItem J → ℕ) (channel : List (PredictItem J)) (queues : Map (KeyQueue J))
      (stats : ModelStats)
      → weigh_all f (drain channel queues stats).0 ≡ weigh_all f queues + sum_by f channel
  unfolding drain
  drain-weigh f [] queues stats = omega arith
  drain-weigh f (i ∷ channel) queues stats = omega (
    arith,
    drain-weigh f channel (file_item queues i) (queue_down stats),
    weigh-file_item f queues i,
  )

  start-Inv : Inv start
  start-Inv = record {
    open_queues = record { distinct = tt; each = tt };
    depth = refl;
    room = omega arith;
    conserved = λ g. omega arith;
  }

  announce-Inv : (s : System J) (item : PredictItem J) → Inv s → Inv (announce s item)
  unfolding announce
  announce-Inv s item v = record {
    open_queues = v.open_queues;
    depth = omega (arith, v.depth);
    room = v.room;
    conserved = v.conserved;
  }

  -- A request leaves `sending`.
  length-sent :
      (all before after : List (PredictItem J)) (item : PredictItem J)
      → all ≡ before ++ item ∷ after
      → length all ≡ suc (length (before ++ after))
  length-sent all before after item e =
      omega (arith, ap length e, length-append before (item ∷ after), length-append before after)

  send-Inv :
      (s : System J) (before : List (PredictItem J)) (item : PredictItem J)
      (after : List (PredictItem J))
      → s.sending ≡ before ++ item ∷ after
      → length s.channel < channel_buffer
      → Inv s
      → Inv (send s before item after)
  send-Inv s before item after e h v = record {
    open_queues = v.open_queues;
    depth = omega (
      arith,
      v.depth,
      length-append s.channel (item ∷ []),
      length-sent s.sending before after item e,
    );
    room = omega (arith, length-append s.channel (item ∷ []));
    conserved = λ g. omega (
      arith,
      v.conserved g,
      sum_by-append g s.asked (item.response_tx ∷ []),
      sum_by-append (by_caller g) s.channel (item ∷ []),
    );
  }

  abandon-Inv :
      (s : System J) (before : List (PredictItem J)) (item : PredictItem J)
      (after : List (PredictItem J))
      → s.sending ≡ before ++ item ∷ after
      → Inv s
      → Inv (abandon s before after)
  abandon-Inv s before item after e v = record {
    open_queues = v.open_queues;
    depth = omega (arith, v.depth, length-sent s.sending before after item e);
    room = v.room;
    conserved = v.conserved;
  }

  drained-Inv : (s : System J) → Inv s → Inv (drained s)
  unfolding drained
  drained-Inv s v = record {
    open_queues = drain-AreOpen s.channel s.queues s.stats v.open_queues;
    depth = omega (
      arith,
      drain-depth s.channel s.queues s.stats (length s.sending + s.abandoned)
          (omega (arith, v.depth)),
    );
    room = omega arith;
    conserved =
        λ g. omega (arith, v.conserved g, drain-weigh (by_caller g) s.channel s.queues s.stats);
  }

  receive-Inv :
      (s : System J) (item : PredictItem J) (rest : List (PredictItem J))
      → s.channel ≡ item ∷ rest
      → Inv s
      → Inv (wake (record s { channel = rest }) (received item))
  unfolding wake
  receive-Inv s item rest e v =
      let n : length s.channel ≡ suc (length rest) = ap length e in
      record {
        open_queues = file_item-AreOpen s.queues item v.open_queues;
        depth = omega (arith, v.depth, v.room);
        room = omega (arith, v.room);
        conserved = λ g.
            let c : sum_by (by_caller g) s.channel
                ≡ g item.response_tx + sum_by (by_caller g) rest =
              ap (sum_by (by_caller g)) e in
            omega (arith, v.conserved g, weigh-file_item (by_caller g) s.queues item);
      }

  stop-Inv : (s : System J) → Inv s → Inv (wake s all_senders_dropped)
  unfolding wake
  stop-Inv s v = record {
    open_queues = v.open_queues;
    depth = v.depth;
    room = v.room;
    conserved = v.conserved;
  }

  expire-Inv : (s : System J) → Inv s → Inv (wake s timed_out)
  unfolding wake
  expire-Inv s v = v

  sum-callers :
      (g : ℕ → ℕ) (batch : List (PredictItem J))
      → sum_by g (callers batch) ≡ sum_by (by_caller g) batch
  sum-callers g [] = refl
  sum-callers g (i ∷ batch) = omega (arith, sum-callers g batch)

  sum-reached :
      (g : ℕ → ℕ) (xs ys : List (Answer J))
      → sum_by g (reached (xs ++ ys)) ≡ sum_by g (reached xs) + sum_by g (reached ys)
  sum-reached g [] ys = omega arith
  sum-reached g (x ∷ xs) ys = omega (arith, sum-reached g xs ys)

module _ {J : Type 0} (to_string : MunaError → Text) (params : List Text) (capacity : ℕ) where
  flush_batch-Inv :
      (s t : System J) (batch : List (PredictItem J)) (queues : Map (KeyQueue J))
      (predict_fn : Map (Value J) → ℕ → Outcome J) (now done : ℕ)
      → Inv s
      → Flushed s.queues capacity now batch queues
      → flush_batch to_string params capacity s batch queues predict_fn now done ≡ some t
      → Inv t
  unfolding flush_batch
  flush_batch-Inv s t batch queues predict_fn now done v f h =
      elim (Option-cases (invoke to_string predict_fn params batch)) [
        | inl panic ↦ let h' : none ≡ some t = rw panic at h in cc
        | inr (answers, ok_) ↦
            let h' : some (after answers) ≡ some t = rw ok_ at h in
            subst Inv (some-injective _ _ h')
              (flushed answers (invoke-reached to_string predict_fn params batch answers ok_))
      ]
    where
      after : List (Answer J) → System J
      after answers = record s {
        queues = queues;
        stats = record (s.stats) { telemetry = record_batch s.stats.telemetry batch now done };
        answers = s.answers ++ answers;
      }

      flushed : (answers : List (Answer J)) → reached answers ≡ callers batch → Inv (after answers)
      flushed answers e = record {
        open_queues = f.open_after;
        depth = v.depth;
        room = v.room;
        conserved = λ g. omega (
          arith,
          v.conserved g,
          f.conserved (by_caller g),
          sum-reached g s.answers answers,
          ap (sum_by g) e,
          sum-callers g batch,
        );
      }

  turn-Inv :
      (s t : System J) (now done : ℕ) (predict_fn : Map (Value J) → ℕ → Outcome J) (waits : Bool)
      → Inv s
      → turn to_string params capacity s now done predict_fn ≡ some (t, waits)
      → Inv t
  unfolding turn
  turn-Inv s t now done predict_fn waits v h =
      elim (Option-cases (take_flushable (drained s).queues capacity now)) [
        | inl nothing ↦
            let h' : some (drained s, true) ≡ some (t, waits) = rw (nothing, turn) at h in
            subst Inv (ap (λ (r : System J × Bool). r.0) (some-injective _ _ h')) (drained-Inv s v)
        | inr ((batch, queues), some_batch) ↦
            let d = drained-Inv s v in
            let f =
              (take_flushable-Flushed (drained s).queues capacity now d.open_queues).1 batch queues
                some_batch in
            elim (Option-cases (
              flush_batch to_string params capacity (drained s) batch queues predict_fn now done)) [
                | inl panic ↦
                    let h' : ◌≡◌ {A = Option (System J × Bool)} none (some (t, waits)) =
                      rw (some_batch, turn, panic) at h in
                    cc
                | inr (u, flushed) ↦
                    let h' : some (u, false) ≡ some (t, waits) =
                      rw (some_batch, turn, flushed) at h in
                    subst Inv (ap (λ (r : System J × Bool). r.0) (some-injective _ _ h'))
                      (flush_batch-Inv (drained s) u batch queues predict_fn now done d f flushed)
              ]
      ]

  -- Every step keeps the queues well-formed, the queue depth as `Inv` says, and the number of times that each caller stands in the channel, in a queue or among
  -- the answered callers equal to the number of its requests.
  pub Step-Inv : {s t : System J} → Step to_string params capacity s t → Inv s → Inv t
  Step-Inv {s} (announces item opened) v = announce-Inv s item v
  Step-Inv {s} (sends before item after e room) v = send-Inv s before item after e room v
  Step-Inv {s} (abandons before item after e) v = abandon-Inv s before item after e v
  Step-Inv (closes none_left) v = record {
    open_queues = v.open_queues;
    depth = v.depth;
    room = v.room;
    conserved = v.conserved;
  }
  Step-Inv {s} (turns now done predict_fn t waits running e) v =
      turn-Inv s t now done predict_fn waits v e
  Step-Inv {s} (receives item rest running e) v = receive-Inv s item rest e v
  Step-Inv {s} (stops running empty closed) v = stop-Inv s v
  Step-Inv {s} (expires deadline now running e le) v = expire-Inv s v

  -- In every reachable state of the accumulator the queues are well-formed; the queue depth is, modulo
  -- 2^32, the number of requests in the channel, of those that wait to be sent, and of those that were
  -- announced and then abandoned; the channel is within its buffer; and each caller stands in the
  -- channel, in a queue or among the answered callers exactly as often as it has sent a request.
  pub Reach-Inv : {s : System J} → Reach to_string params capacity s → Inv s
  Reach-Inv here = start-Inv
  Reach-Inv (next r st) = Step-Inv st (Reach-Inv r)
