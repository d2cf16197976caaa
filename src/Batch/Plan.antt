-- ===== src/Batch/Plan.antt =====
-- Proofs about the plan of a signature (src/serving/batch.rs) and the item count of a request.
use muna_server.Base.{
  ℕ, ◌≤◌, ◌≡◌, refl, sym, ◌∙◌, ◌↔◌, ◌⊎◌, inl, inr, min, max, Bool, true, false, Option, none, some,
  List, [], ◌∷◌, map, Text, text_eq, Map, get, filterb, All, Any, arith, Bool-cases, Option-cases,
  text_eq_iff,
}
use muna_server.Values.{Value, Parameter, Signature}
use muna_server.Batch.{
  sequential, buffered, continuous, contains, is_batched, is_continuous, any_continuous,
  capacity_of, min_capacity, unwrap_or, plan_of, from_signature, value_items, max_items, item_count,
}

plan_of-sequential : (ps : List Parameter) → plan_of ps ≡ sequential → ps ≡ []
unfolding plan_of
plan_of-sequential [] h = refl
plan_of-sequential (p ∷ ps) h = ground arith

plan_of-continuous : (ps : List Parameter) → (plan_of ps ≡ continuous) ↔ (any_continuous ps ≡ true)
unfolding plan_of any_continuous
plan_of-continuous [] = ground arith
plan_of-continuous (p ∷ ps) = ground arith

filterb-nil {ℓ} :
    {A : Type ℓ} (p : A → Bool) (xs : List A) → (filterb p xs ≡ []) ↔ All (λ x. p x ≡ false) xs
filterb-nil p [] = (λ _. tt, λ _. refl)
filterb-nil p (x ∷ xs) = elim (Bool-cases (p x)) [
  | inl e ↦ rw e (λ h. cc, λ h. cc (h.0))
  | inr e ↦ rw e (λ h. (refl, (filterb-nil p xs).0 h), λ h. (filterb-nil p xs).1 h.1)
]

any_continuous-filterb :
    (ps : List Parameter) → any_continuous (filterb is_batched ps) ≡ any_continuous ps
unfolding any_continuous is_batched
any_continuous-filterb [] = refl
any_continuous-filterb (p ∷ ps) = ground (arith, any_continuous-filterb ps)

any_continuous_iff :
    (ps : List Parameter) → (any_continuous ps ≡ true) ↔ Any (λ p. is_continuous p ≡ true) ps
unfolding any_continuous
any_continuous_iff [] = (λ h. cc, λ h. absurd h)
any_continuous_iff (p ∷ ps) = ground (arith, any_continuous_iff ps)

-- A signature with no batched input is served one prediction at a time, and only such a one; a
-- signature is continuous exactly when one of its inputs is.
pub from_signature-kind :
    (s : Signature)
    → ((from_signature s ≡ sequential) ↔ All (λ p. is_batched p ≡ false) s.inputs)
      × ((from_signature s ≡ continuous) ↔ Any (λ p. is_continuous p ≡ true) s.inputs)
unfolding from_signature
from_signature-kind s = (
  (
    λ h. (filterb-nil is_batched s.inputs).0 (plan_of-sequential _ h),
    λ h. rw ((filterb-nil is_batched s.inputs).1 h, plan_of),
  ),
  (
    λ h. (any_continuous_iff s.inputs).0 (
        sym (any_continuous-filterb s.inputs)
        ∙ (plan_of-continuous (filterb is_batched s.inputs)).0 h),
    λ h.
        (plan_of-continuous (filterb is_batched s.inputs)).1
          (any_continuous-filterb s.inputs ∙ (any_continuous_iff s.inputs).1 h),
  ),
)

min_capacity-filterb :
    (ps : List Parameter) → min_capacity (filterb is_batched ps) ≡ min_capacity ps
unfolding min_capacity is_batched
min_capacity-filterb [] = refl
min_capacity-filterb (p ∷ ps) = ground (arith, min_capacity-filterb ps)

min_capacity-le :
    (ps : List Parameter) (c : ℕ)
    → Any (λ p. capacity_of p ≡ some c) ps
    → (d : ℕ) × (min_capacity ps ≡ some d) × (d ≤ c)
unfolding min_capacity
min_capacity-le [] c h = absurd h
min_capacity-le (p ∷ ps) c (inl e) = elim (Option-cases (min_capacity ps)) [
  | inl none_left ↦ (c, ground arith, ground arith)
  | inr (d, e') ↦ (min c d, ground arith, ground arith)
]
min_capacity-le (p ∷ ps) c (inr h) = elim (Option-cases (capacity_of p)) [
  | inl none_here ↦ let (d, e, le) = min_capacity-le ps c h in (d, ground arith, le)
  | inr (b, e') ↦ let (d, e, le) = min_capacity-le ps c h in (min b d, ground arith, omega arith)
]

min_capacity-some :
    (ps : List Parameter) (d : ℕ) → min_capacity ps ≡ some d → Any (λ p. capacity_of p ≡ some d) ps
unfolding min_capacity
min_capacity-some [] d h = cc
min_capacity-some (p ∷ ps) d h = ground (arith, min_capacity-some ps d)

min_capacity-none :
    (ps : List Parameter) → min_capacity ps ≡ none → All (λ p. capacity_of p ≡ none) ps
unfolding min_capacity
min_capacity-none [] h = tt
min_capacity-none (p ∷ ps) h = ground (arith, min_capacity-none ps)

contains_names :
    (ps : List Parameter) (t : Text)
    → (contains (map (λ q. q.name) (filterb is_batched ps)) t ≡ true)
      ↔ Any (λ p. (is_batched p ≡ true) × (p.name ≡ t)) ps
unfolding contains
contains_names [] t = (λ h. cc, λ h. absurd h)
contains_names (p ∷ ps) t = ground (arith, contains_names ps t, text_eq_iff p.name t)

plan_of-buffered :
    (ps : List Parameter) (params : List Text) (capacity : ℕ)
    → plan_of ps ≡ buffered params capacity
    → (params ≡ map (λ q. q.name) ps) × (capacity ≡ unwrap_or (min_capacity ps) 1)
unfolding plan_of
plan_of-buffered [] params capacity h = cc
plan_of-buffered (p ∷ ps) params capacity h = ground arith

-- A buffered plan merges exactly the batched inputs, up to the least capacity that they give, or
-- one item at a time if none gives a capacity.
pub from_signature-buffered :
    (s : Signature) (params : List Text) (capacity : ℕ)
    → from_signature s ≡ buffered params capacity
    → ((t : Text)
        → (contains params t ≡ true) ↔ Any (λ p. (is_batched p ≡ true) × (p.name ≡ t)) s.inputs)
      × ((c : ℕ) → Any (λ p. capacity_of p ≡ some c) s.inputs → capacity ≤ c)
      × (Any (λ p. capacity_of p ≡ some capacity) s.inputs
          ⊎ (All (λ p. capacity_of p ≡ none) s.inputs × (capacity ≡ 1)))
unfolding from_signature
from_signature-buffered s params capacity h = (
  λ t. rw names (contains_names s.inputs t),
  λ c a. let (d, e', le) = min_capacity-le s.inputs c a in ground (arith, least),
  elim (Option-cases (min_capacity s.inputs)) [
    | inl e' ↦ inr (min_capacity-none s.inputs e', ground (arith, least))
    | inr (d, e') ↦ inl (rw least (rw e' (min_capacity-some s.inputs d e')))
  ],
)
  where
    names : params ≡ map (λ q. q.name) (filterb is_batched s.inputs)
    names = (plan_of-buffered (filterb is_batched s.inputs) params capacity h).0

    least : capacity ≡ unwrap_or (min_capacity s.inputs) 1
    least =
        rw (← min_capacity-filterb s.inputs)
          ((plan_of-buffered (filterb is_batched s.inputs) params capacity h).1)

max_option : ℕ → Option ℕ → ℕ
max_option n none = n
max_option n (some m) = max n m

module _ {J : Type 0} where
  max_items-le :
      (inputs : Map (Value J)) (params : List Text) (name : Text) (v : Value J)
      → contains params name ≡ true
      → get inputs name ≡ some v
      → (n : ℕ) × (max_items inputs params ≡ some n) × (value_items v ≤ n)
  unfolding max_items contains max_option
  max_items-le inputs [] name v h e = cc
  max_items-le inputs (p ∷ ps) name v h e = elim (Bool-cases (text_eq p name)) [
    | inl same ↦
        let here : get inputs p ≡ some v = rw ((text_eq_iff p name).0 same) e in
        (max_option (value_items v) (max_items inputs ps), ground arith, ground arith)
    | inr other_name ↦
        let (n, e', le) = max_items-le inputs ps name v (ground arith) e in
        elim (Option-cases (get inputs p)) [
          | inl absent ↦ (n, ground arith, le)
          | inr (w, present) ↦ (max (value_items w) n, ground arith, omega arith)
        ]
  ]

  max_items-least :
      (inputs : Map (Value J)) (params : List Text) (n : ℕ)
      → ((name : Text) (v : Value J)
          → contains params name ≡ true
          → get inputs name ≡ some v
          → value_items v ≤ n)
      → 1 ≤ n
      → unwrap_or (max_items inputs params) 1 ≤ n
  unfolding max_items contains max_option
  max_items-least inputs [] n below h = h
  max_items-least inputs (p ∷ ps) n below h =
      let ih = max_items-least inputs ps n (λ name v c. below name v (ground arith)) h in
      elim (Option-cases (get inputs p)) [
        | inl absent ↦ ground arith
        | inr (w, present) ↦
            let le = below p w (ground (arith, text_eq_iff p p)) present in ground arith
      ]

  -- The item count is the least number that is at least one and at least the size of every batch
  -- parameter that the request carries.
  pub item_count-least :
      (inputs : Map (Value J)) (params : List Text)
      → (1 ≤ item_count inputs params)
        × ((name : Text) (v : Value J)
            → contains params name ≡ true
            → get inputs name ≡ some v
            → value_items v ≤ item_count inputs params)
        × ((n : ℕ)
            → 1 ≤ n
            → ((name : Text) (v : Value J)
                → contains params name ≡ true
                → get inputs name ≡ some v
                → value_items v ≤ n)
            → item_count inputs params ≤ n)
  unfolding item_count
  item_count-least inputs params = (
    omega arith,
    λ name v h e. let (n, e', le) = max_items-le inputs params name v h e in ground arith,
    λ n pos below. omega (arith, max_items-least inputs params n below pos),
  )
