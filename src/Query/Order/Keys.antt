-- ===== src/Query/Order/Keys.antt =====
-- internal/engine/query_order_budget.go, `compareOrderMapWithBudget`: the sorted keys, and the charges round
-- the loop.
use latticedb_go.Base.{
  ap, true, ℕ, ◌+◌, ◌*◌, ◌%◌, ◌≡◌, Bool-cases, inl, inr, Option, List, [], ◌∷◌, ◌==◌,
}
use latticedb_go.Base.Int.{ℤ}
use latticedb_go.Query.Budget.{QueryBudget, Outcome, check_present, charge_temporary}
use latticedb_go.Query.Limits.{
  is_present, Ensures, ensured, Ensures-then, Returns, charge_temporary-Ensures, releasing-Returns,
  passed_then, check_present-Passes, halted,
}
use latticedb_go.Query.Order.{cmp_compare, compare_bytes, compare_order_string}
use latticedb_go.Query.Order.Chunks.{compare_in_chunks-compare_list}
use latticedb_go.Query.Order.Values.{OrderFields, field_count}
use latticedb_go.Query.Order.WithBudget.{
  field_keys, check_keys, key_less, sorted_order_map_keys, Comparers, compare_order_map,
  fields_with_budget, query_order_map_key_bytes,
}
use latticedb_go.Query.Order.Sorting.{
  SliceSort, Sorts, IsSorted, IsAscending, comes_before, is_negative, comes_before-IsStrictWeak,
  sorted_unique,
}
use latticedb_go.Query.Order.Normal.{IsListed, length-field_keys, field_keys-IsAscending}
use mathlib.Core.List.{Perm}
use mathlib.Core.List.Perm

abbrev Done : Outcome (Unit {0}) → Type 0
Done = Ensures (λ (_ : Unit {0}). Unit {0}) true

check_keys-Done :
    (index : ℕ) (keys : List (List ℕ)) (b : Option QueryBudget)
    → is_present b ≡ true
    → Done (check_keys index keys b)
unfolding check_keys
check_keys-Done index [] b s = ensured tt s
check_keys-Done index (k ∷ keys) b s = elim (Bool-cases ((index % 64) == 0)) [
  | inl e ↦ rw e (
      passed_then (check_present 1 0 b) _ (check_present-Passes 1 0 b s)
        (check_keys-Done (index + 1) keys))
  | inr e ↦ rw e (check_keys-Done (index + 1) keys b s)
]

pub compare_texts :
    (k j : List ℕ) (b : Option QueryBudget)
    → is_present b ≡ true
    → Returns (compare_bytes k j) true (compare_order_string k j b)
unfolding compare_bytes compare_order_string
compare_texts k j b s = compare_in_chunks-compare_list cmp_compare k j b s

key_less-Returns :
    (k j : List ℕ) (b : Option QueryBudget)
    → is_present b ≡ true
    → Returns (comes_before k j) true (key_less k j b)
unfolding key_less
key_less-Returns k j b s =
    Ensures-then (compare_order_string k j b) _ (compare_texts k j b s)
      (λ v b' e s'. ensured (ap is_negative e) s')

module _ {N F : Type 0} (numbers : N → N → ℤ) (floats : F → F → ℤ)
    (listing : List (List ℕ) → List (List ℕ)) (sort : SliceSort)
    (listing_perm : (keys : List (List ℕ)) → Perm (listing keys) keys) (sorts : Sorts sort) where
  -- Keys that ascend come out as they are, however `range` yields them.
  sorted_order_map_keys-Returns :
      (keys : List (List ℕ)) (b : Option QueryBudget)
      → is_present b ≡ true
      → IsAscending keys
      → Returns keys true (sorted_order_map_keys numbers floats listing sort keys b)
  unfolding sorted_order_map_keys
  sorted_order_map_keys-Returns keys b s up =
      Ensures-then (check_keys 0 (listing keys) b) _ (check_keys-Done 0 (listing keys) b s)
        (λ _ b1 _ s1. sorted_all (
          sorts comes_before key_less comes_before-IsStrictWeak key_less-Returns (listing keys) b1
            s1))
    where
      sorted_all :
          {o : Outcome (List (List ℕ))}
          → Ensures (λ out. Perm out (listing keys) × IsSorted comes_before out) true o
          → Returns keys true o
      sorted_all (ensured {v} p same) =
          ensured (sorted_unique v keys (Perm.trans p.0 (listing_perm keys)) up p.1) same
      sorted_all (halted p l) = halted p l

  -- A map of normal values, in which the loop finds what the keys of the rest stand for.
  pub with_map-Returns :
      {c : ℤ} (m n : OrderFields N F) (left : Comparers numbers floats listing sort)
      (b : Option QueryBudget)
      → is_present b ≡ true
      → IsListed m
      → IsListed n
      → ((b' : Option QueryBudget)
          → is_present b' ≡ true
          → Returns c true (
              fields_with_budget numbers floats listing sort left n
                (field_keys m)
                (field_keys n)
                (cmp_compare (field_count m) (field_count n))
                b'))
      → Returns c true (compare_order_map numbers floats listing sort m n left b)
  with_map-Returns {c} m n left b s hm hn h =
      let amount = (field_count m + field_count n) * query_order_map_key_bytes in
      Ensures-then (charge_temporary amount b) _ (charge_temporary-Ensures amount b s) (λ _ b1 _ s1.
        releasing-Returns amount _ (
          Ensures-then (sorted_order_map_keys numbers floats listing sort (field_keys m) b1) _
            (sorted_order_map_keys-Returns (field_keys m) b1 s1 (field_keys-IsAscending m hm))
            (λ ls b2 e s2.
              Ensures-then (sorted_order_map_keys numbers floats listing sort (field_keys n) b2) _
                (sorted_order_map_keys-Returns (field_keys n) b2 s2 (field_keys-IsAscending n hn))
                (λ rs b3 e' s3. rw (e, e', length-field_keys m, length-field_keys n) (h b3 s3)))))
