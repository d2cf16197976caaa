-- ===== src/Worker/Conserve.antt =====
-- Proofs about `take_flushable`: the batch is the most urgent one, and no request is lost.
use mathlib.Core.Option.{some-injective}
use muna_server.Base.{
  ℕ, ◌+◌, ◌≡◌, refl, sym, ap, subst, ◌∙◌, inl, inr, false, none, some, List, [], ◌∷◌, ◌++◌, Text,
  text_eq, text_eq_iff, Map, get, insert, remove, IsMap, insert-IsMap, remove-IsMap, All,
  All-append_left, All-append_right, All-insert, All-remove, All-get, arith, Option-cases,
  Bool-cases, sum_by, sum_by-append,
}
use muna_server.Worker.{
  PredictItem, KeyQueue, items_of, take_batch, or_new, file_item, is_flushable, select,
  take_flushable,
}
use muna_server.Worker.Queue.{IsOpen, IsNonempty, FitsOrAlone, Stops, take_batch-prefix}
use muna_server.Worker.Select.{AreOpen, Picked, select-none, select-some}

module _ {J : Type 0} where
  -- The queues after a batch is taken from the queue `q` of `key`.
  abbrev left : Map (KeyQueue J) → Text → KeyQueue J → List (PredictItem J) → Map (KeyQueue J)
  left queues key rest is = elim is [ [] ↦ remove queues key | i ∷ is ↦ insert queues key rest ]

  take_flushable-some :
      (queues : Map (KeyQueue J)) (capacity now : ℕ) (key : Text) (q : KeyQueue J)
      → select capacity now queues ≡ some (key, q)
      → take_flushable queues capacity now
        ≡ some (
          (take_batch q capacity).0,
          left queues key (take_batch q capacity).1 (take_batch q capacity).1.items,
        )
  unfolding take_flushable
  take_flushable-some queues capacity now key q e = rw (e, take_flushable) refl

  take_flushable-none :
      (queues : Map (KeyQueue J)) (capacity now : ℕ)
      → select capacity now queues ≡ none
      → take_flushable queues capacity now ≡ none
  unfolding take_flushable
  take_flushable-none queues capacity now e = rw (e, take_flushable) refl

  left-AreOpen :
      (queues : Map (KeyQueue J)) (key : Text) (rest : KeyQueue J) (is : List (PredictItem J))
      → AreOpen queues
      → rest.items ≡ is
      → rest.total_items ≡ items_of rest.items
      → All (λ i. i.batch_key ≡ key) rest.items
      → AreOpen (left queues key rest is)
  left-AreOpen queues key rest [] v e c k = record {
    distinct = remove-IsMap queues key v.distinct;
    each = All-remove (λ e. IsOpen e.0 e.1) queues key v.each;
  }
  left-AreOpen queues key rest (i ∷ is) v e c k = record {
    distinct = insert-IsMap queues key rest v.distinct;
    each =
        All-insert (λ e. IsOpen e.0 e.1) queues key rest
          (record { nonempty = rw e tt; counted = c; keyed = k }) v.each;
  }

  -- The weight of a list of requests, and of all that are queued.
  abbrev pub weigh : (PredictItem J → ℕ) → List (PredictItem J) → ℕ
  weigh f is = sum_by f is

  abbrev pub weigh_all : (PredictItem J → ℕ) → Map (KeyQueue J) → ℕ
  weigh_all f [] = 0
  weigh_all f ((key, q) ∷ queues) = sum_by f q.items + weigh_all f queues

  weigh-insert :
      (f : PredictItem J → ℕ) (queues : Map (KeyQueue J)) (key : Text) (q : KeyQueue J)
      → weigh_all f (insert queues key q) + weigh f (or_new (get queues key)).items
        ≡ weigh_all f queues + weigh f q.items
  unfolding insert get
  weigh-insert f [] key q = omega arith
  weigh-insert f ((k, p) ∷ queues) key q = ground (arith, weigh-insert f queues key q)

  weigh-remove :
      (f : PredictItem J → ℕ) (queues : Map (KeyQueue J)) (key : Text)
      → IsMap queues
      → weigh_all f (remove queues key) + weigh f (or_new (get queues key)).items
        ≡ weigh_all f queues
  unfolding remove get
  weigh-remove f [] key h = omega arith
  weigh-remove f ((k, p) ∷ queues) key h = elim (Bool-cases (text_eq k key)) [
    | inl same ↦
        let absent : get queues key ≡ none =
          subst (λ j. get queues j ≡ none) ((text_eq_iff k key).0 same) h.0 in
        let ih : weigh_all f (remove queues key) + weigh f (or_new {J = J} none).items
            ≡ weigh_all f queues =
          rw absent at (weigh-remove f queues key h.1) in
        rw same (omega arith)
    | inr other ↦ rw other (omega (arith, weigh-remove f queues key h.1))
  ]

  -- No request is lost or made up when one is filed: for any weight of requests, such as how often
  -- one caller's request stands there, the weights add up.
  pub weigh-file_item :
      (f : PredictItem J → ℕ) (queues : Map (KeyQueue J)) (item : PredictItem J)
      → weigh_all f (file_item queues item) ≡ weigh_all f queues + f item
  unfolding file_item
  weigh-file_item f queues item = omega (
    arith,
    weigh-insert f queues item.batch_key _,
    sum_by-append f (or_new (get queues item.batch_key)).items (item ∷ []),
  )

  weigh-left :
      (f : PredictItem J → ℕ) (queues : Map (KeyQueue J)) (key : Text) (q rest : KeyQueue J)
      (is : List (PredictItem J))
      → IsMap queues
      → get queues key ≡ some q
      → rest.items ≡ is
      → weigh_all f (left queues key rest is) + weigh f q.items ≡ weigh_all f queues + weigh f is
  weigh-left f queues key q rest [] m e r =
      let h = weigh-remove f queues key m in
      let h' : weigh_all f (remove queues key) + weigh f q.items ≡ weigh_all f queues = rw e at h in
      omega arith
  weigh-left f queues key q rest (i ∷ is) m e r =
      let h = weigh-insert f queues key rest in
      let h' : weigh_all f (insert queues key rest) + weigh f q.items
          ≡ weigh_all f queues + weigh f rest.items =
        rw e at h in
      let w : weigh f rest.items ≡ weigh f (i ∷ is) = ap (sum_by f) r in omega arith

  -- What `take_flushable` hands out: the queue it comes from, the batch, and the queues left.
  pub record Flushed (queues : Map (KeyQueue J)) (capacity now : ℕ) (batch : List (PredictItem J))
      (after : Map (KeyQueue J)) : Type 0 where
    pub key : Text
    pub queue : KeyQueue J
    pub picked : Picked capacity now queues key queue
    pub prefixed :
        (rest : List (PredictItem J)) × (batch ++ rest ≡ queue.items)
        × Stops capacity (items_of batch) rest
    pub one_key : All (λ i. i.batch_key ≡ key) batch
    pub nonempty : IsNonempty batch
    pub fits : FitsOrAlone capacity batch
    pub open_after : AreOpen after
    pub conserved : (f : PredictItem J → ℕ) → weigh f batch + weigh_all f after ≡ weigh_all f queues

  at-Flushed :
      (queues : Map (KeyQueue J)) (capacity now : ℕ) (key : Text) (q : KeyQueue J)
      → AreOpen queues
      → Picked capacity now queues key q
      → Flushed queues capacity now
          (take_batch q capacity).0
          (left queues key (take_batch q capacity).1 (take_batch q capacity).1.items)
  at-Flushed queues capacity now key q v p =
      let o = All-get (λ e. IsOpen e.0 e.1) queues key q v.each p.stored in
      let (same, nonempty, fits, stops, counted, total) = take_batch-prefix key q capacity o in
      let r = take_batch q capacity in
      let keyed : All (λ i. i.batch_key ≡ key) (r.0 ++ r.1.items) =
        subst (All (λ i. i.batch_key ≡ key)) (sym same) o.keyed in
      record {
        key = key;
        queue = q;
        picked = p;
        prefixed = (r.1.items, same, stops);
        one_key = All-append_left (λ i. i.batch_key ≡ key) r.0 r.1.items keyed;
        nonempty = nonempty;
        fits = fits;
        open_after =
            left-AreOpen queues key r.1 r.1.items v refl counted
              (All-append_right (λ i. i.batch_key ≡ key) r.0 r.1.items keyed);
        conserved = λ f.
            let h = weigh-left f queues key q r.1 r.1.items v.distinct p.stored refl in
            let s = sum_by-append f r.0 r.1.items in
            let t : sum_by f (r.0 ++ r.1.items) ≡ sum_by f q.items = ap (sum_by f) same in
            omega arith;
      }

  -- `take_flushable` on well-formed queues. It gives no batch exactly when no queue is full or due.
  -- A batch it gives is a nonempty prefix, in arrival order, of the full or due queue with the
  -- earliest deadline; it holds requests of one key only, keeps within the capacity unless it is
  -- one oversized request, could not be longer, and together with the queues left, which are
  -- well-formed again, holds every request exactly as often as before.
  pub take_flushable-Flushed :
      (queues : Map (KeyQueue J)) (capacity now : ℕ)
      → AreOpen queues
      → (take_flushable queues capacity now ≡ none
          → All (λ e. is_flushable capacity now e.1 ≡ false) queues)
        × ((batch : List (PredictItem J)) (after : Map (KeyQueue J))
            → take_flushable queues capacity now ≡ some (batch, after)
            → Flushed queues capacity now batch after)
  take_flushable-Flushed queues capacity now v = elim (Option-cases (select capacity now queues)) [
    | inl nothing ↦ (
      λ _. select-none capacity now queues nothing,
      λ batch after e. let e' = take_flushable-none queues capacity now nothing in cc,
    )
    | inr ((key, q), e) ↦
        let f =
          at-Flushed queues capacity now key q v
            (select-some capacity now queues (key, q) v.distinct e) in
        (
          λ e'. let e'' = take_flushable-some queues capacity now key q e in cc,
          λ batch after e'.
              subst {A = List (PredictItem J) × Map (KeyQueue J)}
                (λ r. Flushed queues capacity now r.0 r.1)
                (some-injective _ _ (sym (take_flushable-some queues capacity now key q e) ∙ e')) f,
        )
  ]
