-- ===== src/Query/Order/WithBudget.antt =====
-- internal/engine/query_order_budget.go, `compareOrderValuesWithBudget`.
use latticedb_go.Base.{Bool, length, ℕ, ◌+◌, ◌*◌, ◌%◌, List, [], ◌∷◌, ◌==◌, if◌then◌else◌}
use latticedb_go.Base.Int.{ℤ, pos}
use latticedb_go.Query.Budget.{
  Budgeted, ◌>>=◌, ◌>>◌, return, check_present, charge_temporary, releasing,
}
use latticedb_go.Query.Order.{
  cmp_compare, return_unless_equal, compare_in_chunks, compare_order_string,
}
use latticedb_go.Payload.Values.{same_bytes}
use latticedb_go.Query.Order.Sorting.{SliceSort, is_negative}
use latticedb_go.Query.Order.Values.{
  OrderValue, null, unbound, number, boolean, text, bytes, vector, list, map, bound, entity,
  OrderItems, nil, cons, OrderFields, end, field, order_comparable, order_value_rank, item_count,
  field_count, compare_bools,
}

abbrev pub query_order_map_key_bytes : ℕ
query_order_map_key_bytes = 16

abbrev pub field_keys : {N F : Type 0} → OrderFields N F → List (List ℕ)
field_keys end = []
field_keys (field k v m) = k ∷ field_keys m

-- `for key := range values`, with `index` for `len(keys)`.
unfoldable pub check_keys : ℕ → List (List ℕ) → Budgeted (Unit {0})
check_keys index [] = return tt
check_keys index (k ∷ keys) =
    let rest = check_keys (index + 1) keys in
    if (index % 64) == 0 then (check_present 1 0 >> rest) else rest

-- The comparison that `sort.Slice` is given; its panic is the error that `recover` returns.
unfoldable pub key_less : List ℕ → List ℕ → Budgeted Bool
key_less k j = compare_order_string k j >>= λ comparison. return (is_negative comparison)

-- `values[key]`, which is nil for a missing key.
abbrev pub field_value : {N F : Type 0} → OrderFields N F → List ℕ → OrderValue N F
field_value end j = null
field_value (field k v m) j = let rest = field_value m j in if same_bytes k j then v else rest

-- `listing` is the order in which `range` yields the keys of a map, `sort` is `sort.Slice`.
module _ {N F : Type 0} (numbers : N → N → ℤ) (floats : F → F → ℤ)
    (listing : List (List ℕ) → List (List ℕ)) (sort : SliceSort) where
  -- `sortedOrderMapKeys`
  unfoldable pub sorted_order_map_keys : List (List ℕ) → Budgeted (List (List ℕ))
  unfolding check_keys key_less
  sorted_order_map_keys keys = check_keys 0 (listing keys) >> sort key_less (listing keys)

  abbrev pub scalars_with_budget : OrderValue N F → OrderValue N F → Budgeted ℤ
  scalars_with_budget (number n) (number m) = return (numbers n m)
  scalars_with_budget (boolean a) (boolean b) = return (compare_bools a b)
  scalars_with_budget (text s) (text t) = compare_order_string s t
  scalars_with_budget (bytes s) (bytes t) = compare_order_string s t
  scalars_with_budget (vector s) (vector t) = compare_in_chunks floats s t
  scalars_with_budget l r = return (pos 0)

  abbrev pub by_rank_with_budget : ℕ → OrderValue N F → Budgeted ℤ → Budgeted ℤ
  by_rank_with_budget rank r same =
      if rank == order_value_rank r then same else return (cmp_compare rank (order_value_rank r))

  -- The values of the left map under their keys, each as the comparison with it.
  abbrev pub Comparers : Type 0
  Comparers = List (List ℕ × (OrderValue N F → Budgeted ℤ))

  -- `left[key]`, nil for a missing key.
  abbrev pub comparer_at : Comparers → List ℕ → OrderValue N F → Budgeted ℤ
  comparer_at [] j r = by_rank_with_budget 7 r (return (pos 0))
  comparer_at ((k, compare) ∷ entries) j r =
      let rest = comparer_at entries j r in if same_bytes k j then compare r else rest

  -- The loop of `compareOrderMapWithBudget` over both lists of keys; `lengths` is its last comparison.
  unfoldable pub fields_with_budget :
      Comparers → OrderFields N F → List (List ℕ) → List (List ℕ) → ℤ → Budgeted ℤ
  fields_with_budget left right [] js lengths = return lengths
  fields_with_budget left right (k ∷ ks) [] lengths = return lengths
  fields_with_budget left right (k ∷ ks) (j ∷ js) lengths = compare_order_string k j >>= λ keys.
      return_unless_equal keys (
        (check_present 1 0 >> comparer_at left k (order_comparable (field_value right j)))
        >>= λ first. return_unless_equal first (fields_with_budget left right ks js lengths))

  -- `compareOrderMapWithBudget`, after the charge.
  abbrev pub sorted_fields : OrderFields N F → OrderFields N F → Comparers → Budgeted ℤ
  sorted_fields m n left = do
    left_keys ← sorted_order_map_keys (field_keys m)
    right_keys ← sorted_order_map_keys (field_keys n)
    fields_with_budget left n left_keys right_keys
        (cmp_compare (length left_keys) (length right_keys))

  -- `compareOrderMapWithBudget`
  abbrev pub compare_order_map : OrderFields N F → OrderFields N F → Comparers → Budgeted ℤ
  compare_order_map m n left b =
      let key_bytes = (field_count m + field_count n) * query_order_map_key_bytes in
      (charge_temporary key_bytes >>= λ _ b. releasing key_bytes (sorted_fields m n left b)) b

  unfoldable mutual
    unfolding sorted_order_map_keys fields_with_budget

    -- `compareOrderValuesWithBudget`, after its check and with both sides unwrapped; the right one is.
    pub comparable_with_budget : OrderValue N F → OrderValue N F → Budgeted ℤ
    comparable_with_budget (bound l) r = comparable_with_budget l r
    comparable_with_budget (entity n) r = by_rank_with_budget 0 r (scalars_with_budget (number n) r)
    comparable_with_budget unbound r = by_rank_with_budget 7 r (return (pos 0))
    comparable_with_budget null r = by_rank_with_budget 7 r (return (pos 0))
    comparable_with_budget (number n) r = by_rank_with_budget 0 r (scalars_with_budget (number n) r)
    comparable_with_budget (boolean b) r =
        by_rank_with_budget 1 r (scalars_with_budget (boolean b) r)
    comparable_with_budget (text s) r = by_rank_with_budget 2 r (scalars_with_budget (text s) r)
    comparable_with_budget (bytes s) r = by_rank_with_budget 3 r (scalars_with_budget (bytes s) r)
    comparable_with_budget (vector s) r = by_rank_with_budget 4 r (scalars_with_budget (vector s) r)
    comparable_with_budget (list xs) r = by_rank_with_budget 5 r (elim r [
      | list ys ↦ items_with_budget xs ys (cmp_compare (item_count xs) (item_count ys))
      | _ ↦ return (pos 0)
    ])
    comparable_with_budget (map m) r =
        by_rank_with_budget 6 r
          (elim r [ map n ↦ compare_order_map m n (comparers m) | _ ↦ return (pos 0) ])

    -- `compareOrderListWithBudget`; `lengths` is its last comparison.
    pub items_with_budget : OrderItems N F → OrderItems N F → ℤ → Budgeted ℤ
    items_with_budget nil ys lengths = return lengths
    items_with_budget (cons v xs) nil lengths = return lengths
    items_with_budget (cons v xs) (cons w ys) lengths =
        (check_present 1 0 >> comparable_with_budget v (order_comparable w)) >>= λ first.
        return_unless_equal first (items_with_budget xs ys lengths)

    pub comparers : OrderFields N F → Comparers
    comparers end = []
    comparers (field k v m) = (k, λ r. comparable_with_budget v r) ∷ comparers m

  -- `compareOrderValuesWithBudget`
  unfoldable pub compare_order_values_with_budget : OrderValue N F → OrderValue N F → Budgeted ℤ
  unfolding comparable_with_budget
  compare_order_values_with_budget left right =
      check_present 1 0 >> comparable_with_budget left (order_comparable right)
