-- ===== src/Worker/Select.antt =====
-- Proofs about the map of queues: `file_item` and `take_flushable`.
use muna_server.Base.{
  ℕ, ◌+◌, ◌≤◌, ◌≡◌, refl, subst, inl, inr, true, false, none, some, List, [], ◌∷◌, ◌++◌, Text,
  text_eq, text_eq_iff, text_eq_refl, Map, get, IsMap, insert-IsMap, All, All-mono, All-append,
  All-insert, All-get, arith, leb, Option-cases, Bool-cases,
}
use muna_server.Worker.{PredictItem, KeyQueue, deadline, or_new, file_item, is_flushable, select}
use muna_server.Worker.Queue.{IsOpen, IsNonempty, items_of-append}

module _ {J : Type 0} where
  -- The invariant of the map of queues.
  pub record AreOpen (queues : Map (KeyQueue J)) : Type 0 where
    pub distinct : IsMap queues
    pub each : All (λ e. IsOpen e.0 e.1) queues

  new-IsOpen :
      (item : PredictItem J)
      → IsOpen item.batch_key
          (record { items = [] ++ item ∷ []; total_items = 0 + item.item_count })
  new-IsOpen item = record { nonempty = tt; counted = omega arith; keyed = (refl, tt) }

  push-IsOpen :
      (q : KeyQueue J) (item : PredictItem J)
      → IsOpen item.batch_key q
      → IsOpen item.batch_key
          (record { items = q.items ++ item ∷ []; total_items = q.total_items + item.item_count })
  push-IsOpen q item v = record {
    nonempty = append-IsNonempty q.items v.nonempty;
    counted = omega (arith, v.counted, items_of-append q.items (item ∷ []));
    keyed = All-append (λ i. i.batch_key ≡ item.batch_key) q.items (item ∷ []) v.keyed (refl, tt);
  }
    where
      append-IsNonempty : (is : List (PredictItem J)) → IsNonempty is → IsNonempty (is ++ item ∷ [])
      append-IsNonempty [] n = tt
      append-IsNonempty (i ∷ is) n = tt

  -- Filing a request keeps every queue nonempty, rightly counted and under its own key.
  pub file_item-AreOpen :
      (queues : Map (KeyQueue J)) (item : PredictItem J)
      → AreOpen queues
      → AreOpen (file_item queues item)
  unfolding file_item
  file_item-AreOpen queues item v = record {
    distinct = insert-IsMap queues item.batch_key _ v.distinct;
    each = All-insert (λ e. IsOpen e.0 e.1) queues item.batch_key _ filed v.each;
  }
    where
      filed :
          let q = or_new (get queues item.batch_key) in
          IsOpen item.batch_key
            (record { items = q.items ++ item ∷ []; total_items = q.total_items + item.item_count })
      filed = elim (Option-cases (get queues item.batch_key)) [
        | inl absent ↦ rw absent (new-IsOpen item)
        | inr (q, present) ↦ rw present (
            push-IsOpen q item
              (All-get (λ e. IsOpen e.0 e.1) queues item.batch_key q v.each present))
      ]

  -- The entry that `select` picks: due or full, and no other due or full queue has an earlier
  -- deadline.
  pub record Picked (capacity now : ℕ) (queues : Map (KeyQueue J)) (key : Text) (q : KeyQueue J)
      : Type 0 where
    pub stored : get queues key ≡ some q
    pub flushable : is_flushable capacity now q ≡ true
    pub earliest :
        All (λ e. is_flushable capacity now e.1 ≡ true → deadline q ≤ deadline e.1) queues

  pub select-none :
      (capacity now : ℕ) (queues : Map (KeyQueue J))
      → select capacity now queues ≡ none
      → All (λ e. is_flushable capacity now e.1 ≡ false) queues
  unfolding select
  select-none capacity now [] h = tt
  select-none capacity now ((key, q) ∷ queues) h = ground (arith, select-none capacity now queues)

  absent_ne :
      (queues : Map (KeyQueue J)) (k j : Text) (q : KeyQueue J)
      → get queues k ≡ none
      → get queues j ≡ some q
      → text_eq k j ≡ false
  absent_ne queues k j q a b = ground (arith, text_eq_iff k j)

  Picked-here :
      (capacity now : ℕ) (queues : Map (KeyQueue J)) (key : Text) (q : KeyQueue J)
      → is_flushable capacity now q ≡ true
      → All (λ e. is_flushable capacity now e.1 ≡ true → deadline q ≤ deadline e.1) queues
      → Picked capacity now ((key, q) ∷ queues) key q
  unfolding get
  Picked-here capacity now queues key q f h = record {
    stored = rw (text_eq_refl key) refl;
    flushable = f;
    earliest = (λ _. omega arith, h);
  }

  Picked-there :
      (capacity now : ℕ) (queues : Map (KeyQueue J)) (k key : Text) (p q : KeyQueue J)
      → get queues k ≡ none
      → (is_flushable capacity now p ≡ true → deadline q ≤ deadline p)
      → Picked capacity now queues key q
      → Picked capacity now ((k, p) ∷ queues) key q
  unfolding get
  Picked-there capacity now queues k key p q absent later v = record {
    stored = rw (absent_ne queues k key q absent v.stored) v.stored;
    flushable = v.flushable;
    earliest = (later, v.earliest);
  }

  pub select-some :
      (capacity now : ℕ) (queues : Map (KeyQueue J)) (e : Text × KeyQueue J)
      → IsMap queues
      → select capacity now queues ≡ some e
      → Picked capacity now queues e.0 e.1
  unfolding select
  select-some capacity now [] e m h = cc
  select-some capacity now ((k, p) ∷ queues) e m h =
      elim (Bool-cases (is_flushable capacity now p)) [
        | inr idle ↦
            Picked-there capacity now queues k e.0 p e.1 m.0 (λ f. cc)
              (select-some capacity now queues e m.1 (ground arith))
        | inl due ↦ elim (Option-cases (select capacity now queues)) [
          | inl last ↦
              let here = Picked-here capacity now queues k p due (
                All-mono (λ e. is_flushable capacity now e.1 ≡ false)
                  (λ e. is_flushable capacity now e.1 ≡ true → deadline p ≤ deadline e.1)
                  (λ e a b. cc) queues (select-none capacity now queues last)) in
              subst {A = Text × KeyQueue J} (λ e. Picked capacity now ((k, p) ∷ queues) e.0 e.1)
                (ground arith) here
          | inr (f, more) ↦
              let ih = select-some capacity now queues f m.1 more in
              elim (Bool-cases (leb (deadline p) (deadline f.1))) [
                | inl first ↦
                    let here = Picked-here capacity now queues k p due (
                      All-mono
                        (λ e. is_flushable capacity now e.1 ≡ true → deadline f.1 ≤ deadline e.1)
                        (λ e. is_flushable capacity now e.1 ≡ true → deadline p ≤ deadline e.1)
                        (λ e a b. let le = a b in ground arith) queues ih.earliest) in
                    subst {A = Text × KeyQueue J}
                      (λ e. Picked capacity now ((k, p) ∷ queues) e.0 e.1) (ground arith) here
                | inr second ↦
                    let there =
                      Picked-there capacity now queues k f.0 p f.1 m.0 (λ _. ground arith) ih in
                    subst {A = Text × KeyQueue J}
                      (λ e. Picked capacity now ((k, p) ∷ queues) e.0 e.1) (ground arith) there
              ]
        ]
      ]
