-- ===== src/Query/Order/Agreement.antt =====
-- internal/engine/query_order_budget.go against query.go: the order under a budget is the order.
use latticedb_go.Base.{
  true, some, ℕ, suc, ◌≡◌, refl, ◌∙◌, Bool, Bool-cases, inl, inr, Option, List, ◌==◌, if◌then◌else◌,
  arith,
}
use latticedb_go.Base.Int.{ℤ, pos, negsuc}
use latticedb_go.Query.Budget.{QueryBudget, Outcome, then_call, Budgeted, return, check_present}
use latticedb_go.Query.Limits.{
  is_present, ensured, Ensures-then, Returns, passed_then, check_present-Passes,
}
use latticedb_go.Query.Order.{cmp_compare, is_zero, return_unless_equal, compare_bytes}
use latticedb_go.Query.Order.Chunks.{compare_in_chunks-compare_list}
use latticedb_go.Query.Order.Values.{
  OrderValue, null, unbound, number, boolean, text, bytes, vector, list, map, bound, entity,
  OrderItems, nil, cons, OrderFields, end, field, order_comparable, order_value_rank, item_count,
  field_count, compare_scalars, by_rank, compare_comparable, compare_items, compare_fields,
  compare_order_values,
}
use latticedb_go.Query.Order.WithBudget.{
  field_keys, Comparers, comparers, compare_order_map, scalars_with_budget, by_rank_with_budget,
  comparable_with_budget, items_with_budget, fields_with_budget, compare_order_values_with_budget,
}
use latticedb_go.Query.Order.Sorting.{SliceSort, Sorts}
use latticedb_go.Query.Order.Normal.{
  IsNormal, AreNormal, IsListed, order_comparable-IsNormal, Finds, all-Finds, Serves,
  comparers-Serves,
}
use mathlib.Core.List.{Perm}
use latticedb_go.Query.Order.Keys.{compare_texts, with_map-Returns}

-- A comparison, and the rest where it finds no difference.
compare_then :
    {present : Bool} (c rest : ℤ) (o : Outcome ℤ) (next : Budgeted ℤ)
    → Returns c present o
    → ((b : Option QueryBudget) → is_present b ≡ present → Returns rest present (next b))
    → Returns
        (if is_zero c then rest else c)
        present
        (then_call o (λ first. return_unless_equal first next))
compare_then {present} c rest o next h k = Ensures-then o _ h (λ v b e s.
    rw e (elim (Bool-cases (is_zero c)) [ inl z ↦ rw z (k b s) | inr z ↦ rw z (ensured refl s) ]))

items_end : (n : ℕ) → cmp_compare 0 (suc n) ≡ negsuc 0
items_end n = ground arith

items_longer : (n : ℕ) → cmp_compare (suc n) 0 ≡ pos 1
items_longer n = ground arith

items_next : (m n : ℕ) → cmp_compare (suc m) (suc n) ≡ cmp_compare m n
items_next m n = ground arith

module _ {N F : Type 0} (numbers : N → N → ℤ) (floats : F → F → ℤ)
    (listing : List (List ℕ) → List (List ℕ)) (sort : SliceSort)
    (listing_perm : (keys : List (List ℕ)) → Perm (listing keys) keys) (sorts : Sorts sort) where
  by_rank-Returns :
      (rank : ℕ) (r : OrderValue N F) (c : ℤ) (same : Budgeted ℤ) (b : Option QueryBudget)
      → is_present b ≡ true
      → Returns c true (same b)
      → Returns
          (by_rank numbers floats rank r c)
          true
          (by_rank_with_budget numbers floats listing sort rank r same b)
  by_rank-Returns rank r c same b s h = elim (Bool-cases (rank == order_value_rank r)) [
    | inl e ↦ rw e h
    | inr e ↦ rw e (ensured refl s)
  ]

  scalars-Returns :
      (l r : OrderValue N F) (b : Option QueryBudget)
      → is_present b ≡ true
      → Returns
          (compare_scalars numbers floats l r)
          true
          (scalars_with_budget numbers floats listing sort l r b)
  scalars-Returns (number n) (number m) b s = ensured refl s
  scalars-Returns (boolean x) (boolean y) b s = ensured refl s
  scalars-Returns (text u) (text t) b s = compare_texts u t b s
  scalars-Returns (bytes u) (bytes t) b s = compare_texts u t b s
  scalars-Returns (vector u) (vector t) b s = compare_in_chunks-compare_list floats u t b s
  scalars-Returns l r b s = ensured refl s

  mutual
    unfolding comparable_with_budget compare_comparable fields_with_budget

    comparable-Returns :
        (l r : OrderValue N F) (b : Option QueryBudget)
        → is_present b ≡ true
        → IsNormal l
        → IsNormal r
        → Returns
            (compare_comparable numbers floats l r)
            true
            (comparable_with_budget numbers floats listing sort l r b)
    comparable-Returns (bound l) r b s hl hr = comparable-Returns l r b s hl hr
    comparable-Returns (entity n) r b s hl hr =
        by_rank-Returns 0 r _ _ b s (scalars-Returns (number n) r b s)
    comparable-Returns unbound r b s hl hr =
        by_rank-Returns 7 r (pos 0) (return (pos 0)) b s (ensured refl s)
    comparable-Returns null r b s hl hr =
        by_rank-Returns 7 r (pos 0) (return (pos 0)) b s (ensured refl s)
    comparable-Returns (number n) r b s hl hr =
        by_rank-Returns 0 r _ _ b s (scalars-Returns (number n) r b s)
    comparable-Returns (boolean x) r b s hl hr =
        by_rank-Returns 1 r _ _ b s (scalars-Returns (boolean x) r b s)
    comparable-Returns (text t) r b s hl hr =
        by_rank-Returns 2 r _ _ b s (scalars-Returns (text t) r b s)
    comparable-Returns (bytes t) r b s hl hr =
        by_rank-Returns 3 r _ _ b s (scalars-Returns (bytes t) r b s)
    comparable-Returns (vector t) r b s hl hr =
        by_rank-Returns 4 r _ _ b s (scalars-Returns (vector t) r b s)
    comparable-Returns (list xs) (list ys) b s hl hr =
        by_rank-Returns 5 (list ys) (compare_items numbers floats xs ys)
          (items_with_budget numbers floats listing sort xs ys
            (cmp_compare (item_count xs) (item_count ys)))
          b s (items-Returns xs ys (cmp_compare (item_count xs) (item_count ys)) b s refl hl hr)
    comparable-Returns (list xs) r b s hl hr =
        by_rank-Returns 5 r (pos 0) (return (pos 0)) b s (ensured refl s)
    comparable-Returns (map m) (map n) b s hl hr =
        by_rank-Returns 6 (map n)
          (compare_fields numbers floats m n (cmp_compare (field_count m) (field_count n)))
          (compare_order_map numbers floats listing sort m n
            (comparers numbers floats listing sort m))
          b s
          (with_map-Returns numbers floats listing sort listing_perm sorts m n
            (comparers numbers floats listing sort m) b s hl hr
            (λ b' s'.
              fields-Returns (comparers numbers floats listing sort m) n m n
                (cmp_compare (field_count m) (field_count n)) b' s'
                (comparers-Serves numbers floats listing sort m hl) (all-Finds n hr) hl hr))
    comparable-Returns (map m) r b s hl hr =
        by_rank-Returns 6 r (pos 0) (return (pos 0)) b s (ensured refl s)

    items-Returns :
        (xs ys : OrderItems N F) (lengths : ℤ) (b : Option QueryBudget)
        → is_present b ≡ true
        → lengths ≡ cmp_compare (item_count xs) (item_count ys)
        → AreNormal xs
        → AreNormal ys
        → Returns
            (compare_items numbers floats xs ys)
            true
            (items_with_budget numbers floats listing sort xs ys lengths b)
    items-Returns nil nil lengths b s e hx hy = ensured e s
    items-Returns nil (cons w ys) lengths b s e hx hy = ensured (e ∙ items_end (item_count ys)) s
    items-Returns (cons v xs) nil lengths b s e hx hy = ensured (e ∙ items_longer (item_count xs)) s
    items-Returns (cons v xs) (cons w ys) lengths b s e hx hy =
        compare_then (compare_comparable numbers floats v (order_comparable w))
          (compare_items numbers floats xs ys) _ _
          (passed_then (check_present 1 0 b) _ (check_present-Passes 1 0 b s) (λ b' s'.
            comparable-Returns v (order_comparable w) b' s' hx.0
              (order_comparable-IsNormal w hy.0)))
          (λ b' s'.
            items-Returns xs ys lengths b' s' (e ∙ items_next (item_count xs) (item_count ys)) hx.1
              hy.1)

    fields-Returns :
        (left : Comparers numbers floats listing sort) (right m n : OrderFields N F) (lengths : ℤ)
        (b : Option QueryBudget)
        → is_present b ≡ true
        → Serves numbers floats listing sort left m
        → Finds right n
        → IsListed m
        → IsListed n
        → Returns (compare_fields numbers floats m n lengths) true (
            fields_with_budget numbers floats listing sort left right
              (field_keys m)
              (field_keys n)
              lengths
              b)
    fields-Returns left right end n lengths b s serves finds hm hn = ensured refl s
    fields-Returns left right (field k v m) end lengths b s serves finds hm hn = ensured refl s
    fields-Returns left right (field k v m) (field j w n) lengths b s serves finds hm hn =
        compare_then (compare_bytes k j) _ _ _ (compare_texts k j b s) (λ b1 s1.
          compare_then (compare_comparable numbers floats v (order_comparable w))
            (compare_fields numbers floats m n lengths) _ _
            (passed_then (check_present 1 0 b1) _ (check_present-Passes 1 0 b1 s1) (λ b' s'.
              rw (finds.0, serves.0 (order_comparable w))
                (comparable-Returns v (order_comparable w) b' s' hm.1
                  (order_comparable-IsNormal w hn.1))))
            (λ b' s'. fields-Returns left right m n lengths b' s' serves.1 finds.1 hm.2 hn.2))

  -- Under every budget the comparison of two query values ends, and returns what the comparison without
  -- one returns, unless the budget stops it: values of different kinds, unwrapped variables, and lists
  -- and maps of any depth included, in whatever order `range` yields the keys of a map. `sort.Slice` keeps
  -- its promise, and the maps of the values are listed by ascending keys.
  pub compare_order_values_with_budget-Returns :
      (left right : OrderValue N F) (b : QueryBudget)
      → IsNormal left
      → IsNormal right
      → Returns
          (compare_order_values numbers floats left right)
          true
          (compare_order_values_with_budget numbers floats listing sort left right (some b))
  unfolding compare_order_values compare_order_values_with_budget
  compare_order_values_with_budget-Returns left right b hl hr =
      passed_then (check_present 1 0 (some b)) _ (check_present-Passes 1 0 (some b) refl) (λ b' s.
        comparable-Returns left (order_comparable right) b' s hl
          (order_comparable-IsNormal right hr))
