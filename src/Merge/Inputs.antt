-- ===== src/Merge/Inputs.antt =====
-- Proofs about `merge_inputs` (src/serving/dispatch/merge.rs).
use muna_server.Base.{
  ◌≡◌, refl, ◌∙◌, ap, Option, none, some, List, [], ◌∷◌, ◌++◌, map, Text, text_eq_iff, Map, get,
  insert, get-insert, IsMap, flatten, arith, if◌then◌else◌,
}
use muna_server.Values.{Value, list}
use muna_server.Batch.{contains}
use muna_server.Merge.{list_items, combine, insert_combined, insert_broadcast, merge_inputs}

module _ {J : Type 0} where
  get-insert_combined :
      (batch : List (Map (Value J))) (names : List Text) (merged : Map (Value J)) (key : Text)
      → get (insert_combined batch names merged) key
        ≡ (if contains names key then some (list (combine batch key)) else get merged key)
  unfolding insert_combined contains
  get-insert_combined batch [] merged key = refl
  get-insert_combined batch (name ∷ names) merged key = ground (
    arith,
    get-insert_combined batch names (insert merged name (list (combine batch name))) key,
    get-insert merged name key (list (combine batch name)),
    text_eq_iff name key,
  )

  abbrev or_else : Option (Value J) → Option (Value J) → Option (Value J)
  or_else none o = o
  or_else (some v) o = some v

  get-insert_broadcast :
      (inputs : Map (Value J)) (params : List Text) (merged : Map (Value J)) (key : Text)
      → IsMap inputs
      → get (insert_broadcast inputs params merged) key ≡ (
          if contains params key then get merged key else or_else (get inputs key) (get merged key))
  unfolding insert_broadcast get
  get-insert_broadcast [] params merged key h = ground arith
  get-insert_broadcast ((name, v) ∷ inputs) params merged key h = ground (
    arith,
    get-insert_broadcast inputs params
        (if contains params name then merged else insert merged name v) key h.1,
    get-insert merged name key v,
    text_eq_iff name key,
  )

  combine-flatten :
      (batch : List (Map (Value J))) (name : Text)
      → combine batch name ≡ flatten (map (λ inputs. list_items (get inputs name)) batch)
  unfolding combine
  combine-flatten [] name = refl
  combine-flatten (inputs ∷ batch) name =
      ap (λ r. list_items (get inputs name) ++ r) (combine-flatten batch name)

  -- Merging two or more requests never fails. A batch parameter of the merged inputs holds the
  -- requests' lists one after the other, and every other parameter is the first request's.
  pub merge_inputs-get :
      (first second : Map (Value J)) (rest : List (Map (Value J))) (params : List Text)
      → IsMap first
      → (merged : Map (Value J)) × (merge_inputs (first ∷ second ∷ rest) params ≡ some merged)
        × ((key : Text)
            → get merged key ≡ (
                if contains params key
                then some (
                    list (
                      flatten
                        (map (λ inputs. list_items (get inputs key)) (first ∷ second ∷ rest))))
                else get first key))
  unfolding merge_inputs get combine
  merge_inputs-get first second rest params h = (
    _,
    refl,
    λ key.
        get-insert_combined (first ∷ second ∷ rest) params (insert_broadcast first params []) key
        ∙ ground (arith, combine-flatten rest key, get-insert_broadcast first params [] key h),
  )
