-- ===== src/Query/Order/Tests.antt =====
-- internal/engine: runs of the comparisons, and their theorems at concrete inputs.
use latticedb_go.Base.{Option, ℕ, ◌≡◌, refl, none, some, List, [], ◌∷◌, true, reverse}
use latticedb_go.Base.Int.{ℤ, negsuc}
use latticedb_go.Query.Budget.{
  Outcome, QueryBudget, failed, done, check_present, nil_pointer, charge_temporary,
}
use latticedb_go.Payload.Values.{same_bytes}
use latticedb_go.Query.Limits.{Returns}
use latticedb_go.Query.Order.{cmp_compare, compare_bytes, compare_order_string, compare_chunks}
use latticedb_go.Query.Order.Chunks.{compare_order_string-compare_bytes}
use latticedb_go.Query.Order.Values.{
  OrderValue, null, number, boolean, list, map, bound, entity, nil, cons, end, field,
  compare_order_values,
}
use latticedb_go.Query.Order.WithBudget.{sorted_order_map_keys, compare_order_values_with_budget}
use latticedb_go.Query.Order.Normal.{IsNormal}
use latticedb_go.Query.Order.Insertion.{insertion_sort, insertion_sort-Sorts}
use mathlib.Core.List.{reverse_perm}
use latticedb_go.Query.Order.Agreement.{compare_order_values_with_budget-Returns}

abbrev budget_of : ℕ → QueryBudget
budget_of work = record {
  ctx = none;
  polls = 0;
  max_rows = 10;
  max_work = work;
  max_bytes = 4096;
  work = 0;
  bytes = 0;
  source_bytes = 0;
}

-- "ab" and "abc"
abbrev ab : List ℕ
ab = b'a' ∷ b'b' ∷ []

abbrev abc : List ℕ
abc = b'a' ∷ b'b' ∷ b'c' ∷ []

compare_runs :
    compare_order_string ab abc (some (budget_of 5))
    ≡ done (negsuc 0) (some (record (budget_of 5) { work = 1 }))
unfolding compare_order_string compare_chunks check_present
compare_runs = refl

-- Without a budget two texts that are not empty end the comparison with a panic.
nil_runs : compare_order_string ab abc none ≡ failed nil_pointer none
unfolding compare_order_string compare_chunks check_present
nil_runs = refl

compare_order_string-compare_bytes_example :
    Returns (compare_bytes ab abc) true (compare_order_string ab abc (some (budget_of 5)))
compare_order_string-compare_bytes_example = compare_order_string-compare_bytes ab abc (budget_of 5)

-- { ab: 1, abc: [true] } and { ab: 1, abc: [true, null] }, the first under a variable.
abbrev small_map : OrderValue ℕ ℕ
small_map = bound (map (field ab (number 1) (field abc (list (cons (boolean true) nil)) end)))

abbrev large_map : OrderValue ℕ ℕ
large_map = map (field ab (entity 1) (field abc (list (cons (boolean true) (cons null nil))) end))

maps_run : compare_order_values cmp_compare cmp_compare small_map large_map ≡ negsuc 0
unfolding compare_order_values compare_bytes
maps_run = refl

-- The keys of a map are yielded from the last to the first, and sorted.
keys_run :
    sorted_order_map_keys cmp_compare cmp_compare reverse insertion_sort
      (ab ∷ (abc ∷ []))
      (some (budget_of 50))
    ≡ done (ab ∷ (abc ∷ [])) (some (record (budget_of 50) { work = 2 }))
unfolding sorted_order_map_keys insertion_sort compare_order_string check_present compare_chunks
keys_run = refl

abbrev returned : Outcome ℤ → Option ℤ
returned (failed e b) = none
returned (done c b) = some c

maps_run_with_budget :
    returned (
      compare_order_values_with_budget cmp_compare cmp_compare reverse insertion_sort small_map
        large_map
        (some (budget_of 50)))
    ≡ some (negsuc 0)
unfolding compare_order_values_with_budget insertion_sort compare_order_string check_present
    compare_chunks charge_temporary same_bytes
maps_run_with_budget = refl

small_map-IsNormal : IsNormal small_map
unfolding compare_bytes
small_map-IsNormal = ((refl, tt), tt, (tt, (tt, tt), tt))

large_map-IsNormal : IsNormal large_map
unfolding compare_bytes
large_map-IsNormal = ((refl, tt), tt, (tt, (tt, (tt, tt)), tt))

compare_order_values_with_budget-Returns_example :
    Returns (compare_order_values cmp_compare cmp_compare small_map large_map) true (
      compare_order_values_with_budget cmp_compare cmp_compare reverse insertion_sort small_map
        large_map
        (some (budget_of 50)))
compare_order_values_with_budget-Returns_example =
    compare_order_values_with_budget-Returns cmp_compare cmp_compare reverse insertion_sort
      reverse_perm insertion_sort-Sorts small_map large_map (budget_of 50) small_map-IsNormal
      large_map-IsNormal
