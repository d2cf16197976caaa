-- ===== src/Worker/Progress.antt =====
-- Proofs that the accumulator makes progress (src/serving/dispatch/worker.rs).
use muna_server.Base.{
  ℕ, ◌+◌, ◌≤◌, ◌<◌, ◌≡◌, refl, sym, subst, inl, inr, false, some, List, [], ◌∷◌, ◌++◌, Text,
  text_eq, Map, get, insert, All, All-get, Any, leb, arith, Option-cases, Bool-cases,
}
use muna_server.Stats.{ModelStats, queue_down}
use muna_server.Worker.{
  PredictItem, KeyQueue, front_time, flush_deadline, deadline, or_new, file_item, is_flushable,
  take_flushable, earliest_deadline,
}
use muna_server.Worker.Queue.{IsOpen, IsNonempty}
use muna_server.Worker.Run.{drain}
use muna_server.Worker.Run.Safety.{drain-AreOpen}
use muna_server.Worker.Select.{AreOpen, file_item-AreOpen}
use muna_server.Worker.Conserve.{take_flushable-Flushed}

module _ {J : Type 0} where
  idle-earliest_deadline :
      (queues : Map (KeyQueue J)) (capacity now d : ℕ)
      → All (λ e. is_flushable capacity now e.1 ≡ false) queues
      → earliest_deadline queues ≡ some d
      → now < d
  unfolding earliest_deadline is_flushable
  idle-earliest_deadline [] capacity now d h e = cc
  idle-earliest_deadline ((key, q) ∷ queues) capacity now d h e =
      elim (Option-cases (earliest_deadline queues)) [
        | inl last ↦ ground arith
        | inr (d', more) ↦
            let ih = idle-earliest_deadline queues capacity now d' h.1 more in ground arith
      ]

  take_due :
      (queues : Map (KeyQueue J)) (capacity now d : ℕ)
      → AreOpen queues
      → earliest_deadline queues ≡ some d
      → d ≤ now
      → (r : List (PredictItem J) × Map (KeyQueue J)) × (take_flushable queues capacity now
          ≡ some r)
  take_due queues capacity now d v e le = elim (Option-cases (take_flushable queues capacity now)) [
    | inl nothing ↦
        let late =
          idle-earliest_deadline queues capacity now d
            ((take_flushable-Flushed queues capacity now v).0 nothing) e in
        absurd (omega arith)
    | inr found ↦ found
  ]

  -- A queue with the deadline `d` or an earlier one.
  abbrev HasDue : ℕ → Map (KeyQueue J) → Type 0
  HasDue d queues = Any (λ e. deadline e.1 ≤ d) queues

  earliest-HasDue :
      (queues : Map (KeyQueue J)) (d : ℕ) → earliest_deadline queues ≡ some d → HasDue d queues
  unfolding earliest_deadline
  earliest-HasDue [] d e = absurd (cc)
  earliest-HasDue ((key, q) ∷ queues) d e = elim (Option-cases (earliest_deadline queues)) [
    | inl last ↦ inl (ground arith)
    | inr (d', more) ↦ elim (Bool-cases (leb d' (deadline q))) [
      | inl rest ↦ inr (earliest-HasDue queues d (ground arith))
      | inr first ↦ inl (ground arith)
    ]
  ]

  HasDue-earliest :
      (queues : Map (KeyQueue J)) (d : ℕ)
      → HasDue d queues
      → (d' : ℕ) × (earliest_deadline queues ≡ some d') × (d' ≤ d)
  unfolding earliest_deadline
  HasDue-earliest [] d h = absurd h
  HasDue-earliest ((key, q) ∷ queues) d (inl h) = elim (Option-cases (earliest_deadline queues)) [
    | inl last ↦ (deadline q, ground arith, h)
    | inr (d', more) ↦ elim (Bool-cases (leb d' (deadline q))) [
      | inl rest ↦ (d', ground arith, ground arith)
      | inr first ↦ (deadline q, ground arith, h)
    ]
  ]
  HasDue-earliest ((key, q) ∷ queues) d (inr h) =
      let (d', more, le) = HasDue-earliest queues d h in
      elim (Bool-cases (leb d' (deadline q))) [
        | inl rest ↦ (d', ground arith, le)
        | inr first ↦ (deadline q, ground arith, ground arith)
      ]

  Any-insert :
      (P : KeyQueue J → Type 0) (queues : Map (KeyQueue J)) (key : Text) (q : KeyQueue J)
      → ((old : KeyQueue J) → get queues key ≡ some old → P old → P q)
      → Any (λ e. P e.1) queues
      → Any (λ e. P e.1) (insert queues key q)
  unfolding insert get
  Any-insert P [] key q f h = absurd h
  Any-insert P ((j, old) ∷ queues) key q f h = elim (Bool-cases (text_eq j key)) [
    | inl same ↦ rw same (elim h [ inl p ↦ inl (f old (rw same refl) p) | inr later ↦ inr later ])
    | inr other ↦ rw other (elim h [
      | inl p ↦ inl p
      | inr later ↦ inr (Any-insert P queues key q (λ w e p. f w (rw other e) p) later)
    ])
  ]

  -- A request goes to the end of its queue.
  deadline-push :
      (q : KeyQueue J) (item : PredictItem J) (total : ℕ)
      → IsNonempty q.items
      → deadline (record { items = q.items ++ item ∷ []; total_items = total }) ≡ deadline q
  unfolding deadline
  deadline-push q item total h = go q.items h
    where
      go :
          (items : List (PredictItem J))
          → IsNonempty items
          → front_time (items ++ item ∷ []) + flush_deadline ≡ front_time items + flush_deadline
      go [] n = absurd n
      go (i ∷ items) n = refl

  insert-HasDue :
      (queues : Map (KeyQueue J)) (item : PredictItem J) (d : ℕ)
      → AreOpen queues
      → HasDue d queues
      → HasDue d (file_item queues item)
  unfolding file_item
  insert-HasDue queues item d v h =
      Any-insert (λ q. deadline q ≤ d) queues item.batch_key
        (record {
          items = (or_new (get queues item.batch_key)).items ++ item ∷ [];
          total_items = (or_new (get queues item.batch_key)).total_items + item.item_count;
        })
        (λ old e due.
          let open_ = All-get (λ x. IsOpen x.0 x.1) queues item.batch_key old v.each e in
          rw e (
            subst (λ t. t ≤ d)
              (sym (deadline-push old item (old.total_items + item.item_count) open_.nonempty))
              due))
        h

  drain-HasDue :
      (channel : List (PredictItem J)) (queues : Map (KeyQueue J)) (stats : ModelStats) (d : ℕ)
      → AreOpen queues
      → HasDue d queues
      → HasDue d (drain channel queues stats).0
  unfolding drain
  drain-HasDue [] queues stats d v h = h
  drain-HasDue (i ∷ channel) queues stats d v h =
      drain-HasDue channel (file_item queues i) (queue_down stats) d (file_item-AreOpen queues i v)
        (insert-HasDue queues i d v h)

  -- The wait of the accumulator that ends by its timeout is always followed by a flush: once the
  -- earliest deadline of the queues is past, whatever requests have come into the channel by then and
  -- are filed first, the look for a batch finds one.
  pub take_flushable-earliest_deadline :
      (queues : Map (KeyQueue J)) (channel : List (PredictItem J)) (stats : ModelStats)
      (capacity now d : ℕ)
      → AreOpen queues
      → earliest_deadline queues ≡ some d
      → d ≤ now
      → (r : List (PredictItem J) × Map (KeyQueue J)) × (take_flushable
            (drain channel queues stats).0
            capacity
            now
          ≡ some r)
  take_flushable-earliest_deadline queues channel stats capacity now d v e le =
      let filed = drain channel queues stats in
      let (d', first, earlier) =
        HasDue-earliest filed.0 d
          (drain-HasDue channel queues stats d v (earliest-HasDue queues d e)) in
      take_due filed.0 capacity now d' (drain-AreOpen channel queues stats v) first (omega arith)
