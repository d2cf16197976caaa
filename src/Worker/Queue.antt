-- ===== src/Worker/Queue.antt =====
-- Proofs about the queues of the accumulator: `take_batch`, `file_item` and `take_flushable`.
use Prim.Native.Nat.add
use native.Mathlib.Decide.{dec_lt}
use muna_server.Base.{
  ℕ, subst, Bool-cases, ltb, ◌&&◌, ◌+◌, ◌≤◌, ◌<◌, ◌≡◌, refl, sym, ap, ◌∙◌, ◌⊎◌, inl, inr, Bool,
  true, false, List, [], ◌∷◌, ◌++◌, Text, All, arith, leb,
}
use muna_server.Worker.{PredictItem, KeyQueue, take_loop, items_of, take_batch}

module _ {J : Type 0} where
  pub items_of-append :
      (xs ys : List (PredictItem J)) → items_of (xs ++ ys) ≡ items_of xs + items_of ys
  items_of-append [] ys = omega arith
  items_of-append (x ∷ xs) ys = omega (arith, items_of-append xs ys)

  -- What a batch leaves behind: nothing, or a batch that is full, or a next item that does not fit.
  abbrev pub Stops : ℕ → ℕ → List (PredictItem J) → Type 0
  Stops capacity total [] = Unit
  Stops capacity total (next ∷ rest) = (capacity ≤ total) ⊎ (capacity < total + next.item_count)

  full-Stops :
      (capacity total : ℕ) (rest : List (PredictItem J))
      → capacity ≤ total
      → Stops capacity total rest
  full-Stops capacity total [] h = tt
  full-Stops capacity total (next ∷ rest) h = inl h

  take_loop-Stops :
      (capacity total : ℕ) (some_taken : Bool) (items : List (PredictItem J))
      → Stops capacity
          (total + items_of (take_loop capacity total some_taken items).0)
          (take_loop capacity total some_taken items).1
  unfolding take_loop
  take_loop-Stops capacity total b [] = tt
  take_loop-Stops capacity total b (front ∷ rest) =
      let stops = take_loop-Stops capacity (total + front.item_count) true rest in
      let n = items_of (take_loop capacity (total + front.item_count) true rest).0 in
      elim (Bool-cases (b && ltb capacity (total + front.item_count))) [
        | inl stop ↦ rw stop (inr (ground arith))
        | inr go ↦ elim (Bool-cases (leb capacity (total + front.item_count))) [
          | inl full ↦
              rw (go, full)
                (full-Stops capacity (total + (front.item_count + 0)) rest (ground arith))
          | inr room ↦
              rw (go, room)
                (subst
                  (λ m.
                    Stops capacity m (take_loop capacity (total + front.item_count) true rest).1)
                  (omega arith) stops)
        ]
      ]

  take_loop_lem :
      (capacity total : ℕ) (some_taken : Bool) (items : List (PredictItem J))
      → let r = take_loop capacity total some_taken items in
        (r.0 ++ r.1 ≡ items)
        × (some_taken ≡ true → total ≤ capacity → total + items_of r.0 ≤ capacity)
  unfolding take_loop
  take_loop_lem capacity total b [] = (refl, λ _ h. omega arith)
  take_loop_lem capacity total b (front ∷ rest) =
      let (same, fits) = take_loop_lem capacity (total + front.item_count) true rest in
      (ground arith, ground arith)

  abbrev pub IsNonempty : List (PredictItem J) → Type 0
  IsNonempty [] = ⊥
  IsNonempty (i ∷ is) = Unit

  -- A queue of the map: not empty, its count right, and all of its items under its key.
  pub record IsOpen (key : Text) (q : KeyQueue J) : Type 0 where
    pub nonempty : IsNonempty q.items
    pub counted : q.total_items ≡ items_of q.items
    pub keyed : All (λ i. i.batch_key ≡ key) q.items

  abbrev pub FitsOrAlone : ℕ → List (PredictItem J) → Type 0
  FitsOrAlone capacity batch =
      (items_of batch ≤ capacity)
      ⊎ ((front : PredictItem J) × (batch ≡ front ∷ []) × (capacity < front.item_count))

  take_loop-prefix :
      (capacity : ℕ) (items : List (PredictItem J))
      → IsNonempty items
      → let r = take_loop capacity 0 false items in
        (r.0 ++ r.1 ≡ items)
        × IsNonempty r.0
        × FitsOrAlone capacity r.0
        × Stops capacity (items_of r.0) r.1
  unfolding take_loop
  take_loop-prefix capacity [] n = absurd n
  take_loop-prefix capacity (front ∷ rest) n =
      let (same, fits) = take_loop_lem capacity (0 + front.item_count) true rest in
      (
        ground arith,
        ground arith,
        elim (dec_lt capacity front.item_count) [
          | yes big ↦ inr (front, ground arith, big)
          | no small ↦ inl (ground arith)
        ],
        subst (λ m. Stops capacity m (take_loop capacity 0 false (front ∷ rest)).1) (add.zero _)
            (take_loop-Stops capacity 0 false (front ∷ rest)),
      )

  -- `take_batch` on a queue of the map takes a nonempty prefix of it that keeps within the capacity,
  -- unless its first item alone does not, and that cannot be made longer: what is left starts with
  -- an item that does not fit, or the batch is full. The count of the queue is that of the items
  -- left, and the subtraction on the way does not underflow.
  pub take_batch-prefix :
      (key : Text) (q : KeyQueue J) (capacity : ℕ)
      → IsOpen key q
      → let r = take_batch q capacity in
        (r.0 ++ r.1.items ≡ q.items)
        × IsNonempty r.0
        × FitsOrAlone capacity r.0
        × Stops capacity (items_of r.0) r.1.items
        × (r.1.total_items ≡ items_of r.1.items)
        × (r.1.total_items + items_of r.0 ≡ q.total_items)
  unfolding take_batch
  take_batch-prefix key q capacity v =
      let (same, nonempty, fits, stops) = take_loop-prefix capacity q.items v.nonempty in
      let r = take_loop capacity 0 false q.items in
      let total : items_of q.items ≡ items_of r.0 + items_of r.1 =
        ap items_of (sym same) ∙ items_of-append r.0 r.1 in
      (same, nonempty, fits, stops, omega (arith, v.counted), omega (arith, v.counted))
