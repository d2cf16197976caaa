-- ===== src/Batch.antt =====
-- src/serving/batch.rs: the batching plan of a model, the batch key and the item count of a request.
pub mod Key
pub mod Plan
use muna_server.Base.{
  ℕ, suc, ◌+◌, ◌%◌, ◌^◌, max, min, Bool, true, false, not, Option, none, some, List, [], ◌∷◌, ◌++◌,
  map, Text, text_eq, decimal, format_int, Map, get, filterb, length, sort, if◌then◌else◌,
}
use muna_server.Values.{
  Value, null, string, float, double, int, long, bool, list, dict, tensor, image, array_list,
  image_list, binary, BatchMode, static_batch, dynamic_batch, continuous_batch, BatchConfig,
  Parameter, Signature,
}

-- `params` is a hash set: only membership in it counts.
pub data BatchPlan : Type 0 where
  sequential : BatchPlan
  buffered : (params : List Text) (capacity : ℕ) → BatchPlan
  continuous : BatchPlan

unfoldable pub contains : List Text → Text → Bool
contains [] t = false
contains (s ∷ ss) t = let rest = contains ss t in if text_eq s t then true else rest

unfoldable pub is_batched : Parameter → Bool
is_batched p = elim p.batch [ none ↦ false | some b ↦ true ]

unfoldable pub is_continuous : Parameter → Bool
is_continuous p = elim p.batch [
  | none ↦ false
  | some b ↦ elim b.mode [ continuous_batch ↦ true | _ ↦ false ]
]

unfoldable pub any_continuous : List Parameter → Bool
unfolding is_continuous
any_continuous [] = false
any_continuous (p ∷ ps) = let rest = any_continuous ps in if is_continuous p then true else rest

unfoldable pub capacity_of : Parameter → Option ℕ
capacity_of p = elim p.batch [ none ↦ none | some b ↦ b.capacity ]

-- The least of the capacities that are given.
unfoldable pub min_capacity : List Parameter → Option ℕ
unfolding capacity_of
min_capacity [] = none
min_capacity (p ∷ ps) =
    let rest = min_capacity ps in
    elim (capacity_of p) [
      | none ↦ rest
      | some c ↦ elim rest [ none ↦ some c | some d ↦ some (min c d) ]
    ]

abbrev pub unwrap_or : Option ℕ → ℕ → ℕ
unwrap_or none d = d
unwrap_or (some c) d = c

-- `batched` of `from_signature`, looked at in the order of its tests.
unfoldable pub plan_of : List Parameter → BatchPlan
unfolding any_continuous min_capacity
plan_of [] = sequential
plan_of (p ∷ ps) =
    if any_continuous (p ∷ ps)
    then continuous
    else buffered (map (λ q. q.name) (p ∷ ps)) (unwrap_or (min_capacity (p ∷ ps)) 1)

unfoldable pub from_signature : Signature → BatchPlan
unfolding is_batched plan_of
from_signature s = plan_of (filterb is_batched s.inputs)

-- The number of items in one batch parameter's value.
module _ {J : Type 0} where
  unfoldable pub value_items : Value J → ℕ
  value_items (list items) = length items
  value_items null = 1
  value_items (string _) = 1
  value_items (float _) = 1
  value_items (double _) = 1
  value_items (int _) = 1
  value_items (long _) = 1
  value_items (bool _) = 1
  value_items (dict _) = 1
  value_items (tensor _) = 1
  value_items (image _) = 1
  value_items (array_list _) = 1
  value_items (image_list _) = 1
  value_items (binary _) = 1

  -- The largest count over the batch parameters that the request carries.
  unfoldable pub max_items : Map (Value J) → List Text → Option ℕ
  unfolding value_items
  max_items inputs [] = none
  max_items inputs (name ∷ names) =
      let rest = max_items inputs names in
      elim (get inputs name) [
        | none ↦ rest
        | some v ↦ elim rest [ none ↦ some (value_items v) | some n ↦ some (max (value_items v) n) ]
      ]

  unfoldable pub item_count : Map (Value J) → List Text → ℕ
  unfolding max_items
  item_count inputs params = max (unwrap_or (max_items inputs params) 1) 1
