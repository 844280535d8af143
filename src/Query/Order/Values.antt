-- ===== src/Query/Order/Values.antt =====
-- internal/engine/query.go, `compareOrderValues`, and query_order_budget.go,
-- `compareOrderValuesWithBudget`.
use latticedb_go.Base.{ℕ, suc, Bool, true, false, List, ◌==◌, if◌then◌else◌}
use latticedb_go.Base.Int.{ℤ, pos, negsuc}
use latticedb_go.Query.Order.{cmp_compare, is_zero, compare_list, compare_bytes}

-- A normalized value. `N` holds `int64` and `float64`, `F` the elements of a vector. A map is listed by
-- ascending keys. `bound` is a variable with a value, `entity` a node, an edge or a variable for one, by
-- its id, and `unbound` a variable without a value or an id.
mutual
  pub data OrderValue (N F : Type 0) : Type 0 where
    null : OrderValue N F
    unbound : OrderValue N F
    number : N → OrderValue N F
    boolean : Bool → OrderValue N F
    text : List ℕ → OrderValue N F
    bytes : List ℕ → OrderValue N F
    vector : List F → OrderValue N F
    list : OrderItems N F → OrderValue N F
    map : OrderFields N F → OrderValue N F
    bound : OrderValue N F → OrderValue N F
    entity : N → OrderValue N F

  pub data OrderItems (N F : Type 0) : Type 0 where
    nil : OrderItems N F
    cons : OrderValue N F → OrderItems N F → OrderItems N F

  pub data OrderFields (N F : Type 0) : Type 0 where
    end : OrderFields N F
    field : List ℕ → OrderValue N F → OrderFields N F → OrderFields N F

module _ {N F : Type 0} where
  abbrev pub order_comparable : OrderValue N F → OrderValue N F
  order_comparable (bound v) = order_comparable v
  order_comparable (entity n) = number n
  order_comparable unbound = null
  order_comparable v = v

  -- `orderValueRank`, of what `orderComparable` returns.
  abbrev pub order_value_rank : OrderValue N F → ℕ
  order_value_rank (number n) = 0
  order_value_rank (boolean b) = 1
  order_value_rank (text s) = 2
  order_value_rank (bytes s) = 3
  order_value_rank (vector s) = 4
  order_value_rank (list xs) = 5
  order_value_rank (map m) = 6
  order_value_rank v = 7

  abbrev pub item_count : OrderItems N F → ℕ
  item_count nil = 0
  item_count (cons v xs) = suc (item_count xs)

  abbrev pub field_count : OrderFields N F → ℕ
  field_count end = 0
  field_count (field k v m) = suc (field_count m)

abbrev pub compare_bools : Bool → Bool → ℤ
compare_bools true true = pos 0
compare_bools false false = pos 0
compare_bools false true = negsuc 0
compare_bools true false = pos 1

-- `compareOrderNumbers` and the order of vector elements are parameters.
module _ {N F : Type 0} (numbers : N → N → ℤ) (floats : F → F → ℤ) where
  -- The cases of the switch without lists and maps.
  abbrev pub compare_scalars : OrderValue N F → OrderValue N F → ℤ
  compare_scalars (number n) (number m) = numbers n m
  compare_scalars (boolean a) (boolean b) = compare_bools a b
  compare_scalars (text s) (text t) = compare_bytes s t
  compare_scalars (bytes s) (bytes t) = compare_bytes s t
  compare_scalars (vector s) (vector t) = compare_list floats s t
  compare_scalars l r = pos 0

  abbrev pub by_rank : ℕ → OrderValue N F → ℤ → ℤ
  by_rank rank r same =
      if rank == order_value_rank r then same else cmp_compare rank (order_value_rank r)

  unfoldable mutual
    -- `compareOrderValues`, after both sides are unwrapped; the right one is.
    pub compare_comparable : OrderValue N F → OrderValue N F → ℤ
    compare_comparable (bound l) r = compare_comparable l r
    compare_comparable (entity n) r = by_rank 0 r (compare_scalars (number n) r)
    compare_comparable unbound r = by_rank 7 r (pos 0)
    compare_comparable null r = by_rank 7 r (pos 0)
    compare_comparable (number n) r = by_rank 0 r (compare_scalars (number n) r)
    compare_comparable (boolean b) r = by_rank 1 r (compare_scalars (boolean b) r)
    compare_comparable (text s) r = by_rank 2 r (compare_scalars (text s) r)
    compare_comparable (bytes s) r = by_rank 3 r (compare_scalars (bytes s) r)
    compare_comparable (vector s) r = by_rank 4 r (compare_scalars (vector s) r)
    compare_comparable (list xs) r =
        by_rank 5 r (elim r [ list ys ↦ compare_items xs ys | _ ↦ pos 0 ])
    compare_comparable (map m) r = by_rank 6 r (elim r [
      | map n ↦ compare_fields m n (cmp_compare (field_count m) (field_count n))
      | _ ↦ pos 0
    ])

    -- `slices.CompareFunc`
    pub compare_items : OrderItems N F → OrderItems N F → ℤ
    compare_items nil nil = pos 0
    compare_items nil (cons w ys) = negsuc 0
    compare_items (cons v xs) nil = pos 1
    compare_items (cons v xs) (cons w ys) =
        let first = compare_comparable v (order_comparable w) in
        let rest = compare_items xs ys in if is_zero first then rest else first

    -- `compareOrderMap`; `lengths` is its last comparison.
    pub compare_fields : OrderFields N F → OrderFields N F → ℤ → ℤ
    compare_fields end n lengths = lengths
    compare_fields (field k v m) end lengths = lengths
    compare_fields (field k v m) (field j w n) lengths =
        let keys = compare_bytes k j in
        let first = compare_comparable v (order_comparable w) in
        let rest = compare_fields m n lengths in
        if is_zero keys then (if is_zero first then rest else first) else keys

  -- `compareOrderValues`
  unfoldable pub compare_order_values : OrderValue N F → OrderValue N F → ℤ
  unfolding compare_comparable
  compare_order_values left right = compare_comparable left (order_comparable right)
