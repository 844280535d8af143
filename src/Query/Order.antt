-- ===== src/Query/Order.antt =====
-- internal/engine/query_order_budget.go: the order of query values under a budget.
pub mod Chunks
pub mod Insertion
mod Tests
pub mod Sorting
pub mod Normal
pub mod WithBudget
pub mod Keys
pub mod Agreement
pub mod Values
use latticedb_go.Base.{
  ℕ, zero, suc, ◌+◌, ◌-◌, ◌/◌, Bool, true, false, List, [], ◌∷◌, min, ltb, ◌==◌, if◌then◌else◌,
  length,
}
use latticedb_go.Base.Int.{ℤ, pos, negsuc}
use latticedb_go.Query.Budget.{rounds_exceeded, Budgeted, ◌>>◌, fail, return, check_present}
use latticedb_go.Query.Strings.{query_order_comparison_chunk, slice}

-- `cmp.Compare` on numbers.
abbrev pub cmp_compare : ℕ → ℕ → ℤ
cmp_compare a b = if ltb a b then negsuc 0 else if ltb b a then pos 1 else pos 0

abbrev pub is_zero : ℤ → Bool
is_zero (pos n) = n == 0
is_zero (negsuc n) = false

-- `if comparison != 0 { return comparison, nil }`, and the next round.
abbrev pub return_unless_equal : ℤ → Budgeted ℤ → Budgeted ℤ
return_unless_equal comparison rest = if is_zero comparison then rest else return comparison

abbrev pub shared_length : {A : Type 0} → List A → List A → ℕ
shared_length left right = min (length left) (length right)

abbrev pub chunk_end : {A : Type 0} → ℕ → List A → List A → ℕ
chunk_end start left right = min (start + query_order_comparison_chunk) (shared_length left right)

-- The order of the elements is a parameter: of bytes in `strings.Compare`, of floats in a vector.
module _ {A : Type 0} (cmp : A → A → ℤ) where
  -- `slices.Compare` and `slices.CompareFunc`: the first difference decides, then the length.
  unfoldable pub compare_list : List A → List A → ℤ
  compare_list [] [] = pos 0
  compare_list [] (y ∷ ys) = negsuc 0
  compare_list (x ∷ xs) [] = pos 1
  compare_list (x ∷ xs) (y ∷ ys) =
      let rest = compare_list xs ys in if is_zero (cmp x y) then rest else cmp x y

  -- One chunk: `strings.Compare` of two slices, or the loop over `index`, which ends at the first
  -- difference of slices that have one length.
  abbrev pub compare_slices : ℕ → ℕ → List A → List A → ℤ
  compare_slices start end left right = compare_list (slice start end left) (slice start end right)

  -- The loop over `start`, on fuel.
  unfoldable pub compare_chunks : ℕ → ℕ → List A → List A → Budgeted ℤ
  unfolding compare_list
  compare_chunks zero start left right = fail rounds_exceeded
  compare_chunks (suc fuel) start left right =
      let rest = compare_chunks fuel (start + query_order_comparison_chunk) left right in
      if ltb start (shared_length left right)
      then (check_present ((chunk_end start left right - start + 63) / 64) 0
          >> return_unless_equal (compare_slices start (chunk_end start left right) left right)
              rest)
      else return (cmp_compare (length left) (length right))

  -- Each round covers at least one element.
  unfoldable pub compare_in_chunks : List A → List A → Budgeted ℤ
  compare_in_chunks left right = compare_chunks (length left + 1) 0 left right

-- `compareOrderStringWithBudget`, `compareOrderBytesWithBudget`
unfoldable pub compare_order_string : List ℕ → List ℕ → Budgeted ℤ
unfolding compare_in_chunks
compare_order_string = compare_in_chunks cmp_compare

-- `strings.Compare`, `bytes.Compare`
unfoldable pub compare_bytes : List ℕ → List ℕ → ℤ
unfolding compare_list
compare_bytes = compare_list cmp_compare
