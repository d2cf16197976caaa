-- ===== src/Examples/Batching.antt =====
-- Concrete inputs for the theorems on src/serving/batch.rs, src/serving/dispatch/merge.rs and
-- src/serving/stats.rs.
use mathlib.Core.List.{Permᴰ}
use muna_server.Base.{
  ℕ, zero, suc, ◌+◌, ◌-◌, ◌≤◌, ◌<◌, ◌≡◌, refl, true, false, none, some, List, [], ◌∷◌, ◌++◌, map,
  Text, text_eq, text_leb, Map, get, arith, leb, if◌then◌else◌, length, flatten, pos,
}
use muna_server.Values.{Value, null, string, int, list, Signature, dynamic_batch}
use muna_server.Batch.{contains}
use muna_server.Batch.Key.{Printer, key_part, compute_batch_key}
use muna_server.Batch.Key.Laws.{compute_batch_key-order, compute_batch_key-collision}
use muna_server.Merge.{merge_inputs, list_items, split_results}
use muna_server.Merge.Inputs.{merge_inputs-get}
use muna_server.Merge.Split.{Output, per_item, shared, split_results-outputs}
use muna_server.Stats.{PredictionSample, unary, window_cap, record_sample, percentile}
use muna_server.Stats.Window.{last, record_sample-last}
use muna_server.Stats.Percentile.{IsNearest, count_if, percentile-rank}
use muna_server.Stats.Meter.Laws.{Frame, output, usage}

-- "x", "y"
abbrev x : Text
x = b'x' ∷ []

abbrev y : Text
y = b'y' ∷ []

abbrev plain_signature : Signature
plain_signature = record { inputs = record { name = x; batch = none } ∷ [] }

abbrev batched_signature : Signature
batched_signature = record {
  inputs =
      record { name = x; batch = some (record { mode = dynamic_batch; capacity = some 8 }) }
      ∷ record { name = y; batch = none }
      ∷ [];
}

abbrev three_items : Map (Value ℕ)
three_items = (x, list (1 ∷ 2 ∷ 3 ∷ [])) ∷ (y, string y) ∷ []

abbrev silent : Printer ℕ
silent = record { list_to_string = λ l. none; dict_to_string = λ d. none }

abbrev two_params : Map (Value ℕ)
two_params = (x, string x) ∷ (y, int (pos 1)) ∷ []

abbrev swapped_params : Map (Value ℕ)
swapped_params = (y, int (pos 1)) ∷ (x, string x) ∷ []

compute_batch_key-order_example :
    compute_batch_key silent two_params [] 0 ≡ compute_batch_key silent swapped_params [] 0
unfolding contains
compute_batch_key-order_example =
    (compute_batch_key-order silent two_params swapped_params [] 0 (Permᴰ.swap refl refl)
      (tt, (tt, tt))).0

compute_batch_key-collision_example :
    compute_batch_key silent ((x, string (x ++ (b'&' ∷ key_part y (b's' ∷ b':' ∷ y)))) ∷ []) [] 0
    ≡ compute_batch_key silent ((x, string x) ∷ (y, string y) ∷ []) [] 0
unfolding text_leb
compute_batch_key-collision_example = compute_batch_key-collision silent x y x y 0 refl

abbrev one : Map (Value ℕ)
one = (x, list (1 ∷ [])) ∷ (y, string y) ∷ []

abbrev two : Map (Value ℕ)
two = (y, string y) ∷ (x, list (2 ∷ 3 ∷ [])) ∷ []

merge_inputs-get_example :
    (merged : Map (Value ℕ)) × (merge_inputs (one ∷ two ∷ []) (x ∷ []) ≡ some merged)
    × ((key : Text)
        → get merged key ≡ (
            if contains (x ∷ []) key
            then some
                (list (flatten (map (λ inputs. list_items (get inputs key)) (one ∷ two ∷ []))))
            else get one key))
unfolding get text_eq
merge_inputs-get_example = merge_inputs-get one two [] (x ∷ []) (refl, (refl, tt))

abbrev copies : ℕ → List ℕ
copies zero = []
copies (suc n) = 7 ∷ copies n

abbrev outputs : List (Output ℕ ℕ)
outputs = per_item copies ∷ shared null ∷ []

split_results-outputs_example :
    split_results {J = ℕ} (list (7 ∷ 7 ∷ 7 ∷ []) ∷ null ∷ []) (1 ∷ 2 ∷ [])
    ≡ some ((list (7 ∷ []) ∷ null ∷ []) ∷ (list (7 ∷ 7 ∷ []) ∷ null ∷ []) ∷ [])
split_results-outputs_example =
    split_results-outputs {J = ℕ} (λ n. n) outputs (1 ∷ 2 ∷ []) ((refl, (refl, tt)), (tt, tt))

abbrev sample : PredictionSample
sample = record { at = 1; queue_wait = 2; latency = 3; detail = unary }

record_sample-last_example :
    (record_sample (last window_cap (sample ∷ [])) sample ≡ last window_cap (sample ∷ sample ∷ []))
    × (length (record_sample (last window_cap (sample ∷ [])) sample) ≤ window_cap)
record_sample-last_example = record_sample-last (sample ∷ []) sample

abbrev five : List ℕ
five = 5 ∷ 1 ∷ 4 ∷ 2 ∷ 3 ∷ []

percentile-rank_example :
    (v : ℕ) × (r : ℕ) × (percentile five 50 ≡ some v)
    × IsNearest (length five - 1) 50 r
    × (r < count_if (λ w. leb w v) five)
    × (length five ≤ r + count_if (λ w. leb v w) five)
percentile-rank_example = (percentile-rank five 50 (omega arith)).1 (omega arith)

abbrev frames : List Frame
frames = output false 4 ∷ output true 5 ∷ usage 9 ∷ output true 8 ∷ []
