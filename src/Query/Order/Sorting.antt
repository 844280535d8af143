-- ===== src/Query/Order/Sorting.antt =====
-- internal/engine/query_order_budget.go: what `sortedOrderMapKeys` asks of `sort.Slice`, which is a
-- parameter of the model.
use latticedb_go.Base.{ℕ, ◌≡◌, refl, subst, Bool, true, false, Option, List, [], ◌∷◌, arith}
use latticedb_go.Base.Int.{ℤ, pos, negsuc}
use latticedb_go.Query.Budget.{QueryBudget, Budgeted}
use latticedb_go.Query.Limits.{is_present, Ensures, Returns}
use latticedb_go.Query.Order.{compare_bytes, compare_list}
use mathlib.Core.List.{Mem, Perm, mem-cons_self, eq-or-mem_of_mem-cons, not-mem-nil}
use mathlib.Core.List.Perm
use mathlib.Core.Logic.Or

-- `comparison < 0`
abbrev pub is_negative : ℤ → Bool
is_negative (pos n) = false
is_negative (negsuc n) = true

-- The order of keys.
abbrev pub comes_before : List ℕ → List ℕ → Bool
comes_before k j = is_negative (compare_bytes k j)

-- `sort.Slice` of keys, whose `less` may end the call.
abbrev pub SliceSort : Type 0
SliceSort = (List ℕ → List ℕ → Budgeted Bool) → List (List ℕ) → Budgeted (List (List ℕ))

-- A strict weak order, which `sort.Slice` wants of `less`.
pub record IsStrictWeak (before : List ℕ → List ℕ → Bool) : Type 0 where
  pub irreflexive : (x : List ℕ) → before x x ≡ false
  pub transitive : (x y z : List ℕ) → before x y ≡ true → before y z ≡ true → before x z ≡ true
  pub not_before : (x y z : List ℕ) → before x y ≡ false → before y z ≡ false → before x z ≡ false

-- No key comes before one that stands in front of it.
abbrev pub IsSorted : (List ℕ → List ℕ → Bool) → List (List ℕ) → Type 0
IsSorted before [] = Unit
IsSorted before (x ∷ xs) = ((y : List ℕ) → Mem y xs → before y x ≡ false) × IsSorted before xs

-- What the documentation of `sort.Slice` promises: the same elements, sorted, if `less` is a strict weak
-- order. A `less` that a limit ends, ends it.
abbrev pub Sorts : SliceSort → Type 0
Sorts sort =
    (before : List ℕ → List ℕ → Bool) (less : List ℕ → List ℕ → Budgeted Bool)
    → IsStrictWeak before
    → ((x y : List ℕ) (b : Option QueryBudget)
        → is_present b ≡ true
        → Returns (before x y) true (less x y b))
    → (keys : List (List ℕ)) (b : Option QueryBudget) → is_present b ≡ true
    → Ensures (λ out. Perm out keys × IsSorted before out) true (sort less keys b)

irreflexive : (x : List ℕ) → comes_before x x ≡ false
unfolding compare_bytes compare_list
irreflexive [] = refl
irreflexive (a ∷ x) = ground (arith, irreflexive x)

transitive :
    (x y z : List ℕ) → comes_before x y ≡ true → comes_before y z ≡ true → comes_before x z ≡ true
unfolding compare_bytes compare_list
transitive [] [] z h k = cc
transitive [] (d ∷ y) [] h k = cc
transitive (a ∷ x) [] [] h k = cc
transitive (a ∷ x) (d ∷ y) [] h k = cc
transitive [] (d ∷ y) (c ∷ z) h k = refl
transitive (a ∷ x) [] (c ∷ z) h k = cc
transitive (a ∷ x) (d ∷ y) (c ∷ z) h k = ground (arith, transitive x y z)

not_before :
    (x y z : List ℕ)
    → comes_before x y ≡ false
    → comes_before y z ≡ false
    → comes_before x z ≡ false
unfolding compare_bytes compare_list
not_before [] [] [] h k = refl
not_before [] [] (c ∷ z) h k = cc
not_before [] (d ∷ y) z h k = cc
not_before (a ∷ x) y [] h k = refl
not_before (a ∷ x) [] (c ∷ z) h k = cc
not_before (a ∷ x) (d ∷ y) (c ∷ z) h k = ground (arith, not_before x y z)

pub comes_before-IsStrictWeak : IsStrictWeak comes_before
comes_before-IsStrictWeak = record {
  irreflexive = irreflexive;
  transitive = transitive;
  not_before = not_before;
}

-- Every key comes before those behind it.
abbrev pub IsAscending : List (List ℕ) → Type 0
IsAscending [] = Unit
IsAscending (x ∷ xs) = ((y : List ℕ) → Mem y xs → comes_before x y ≡ true) × IsAscending xs

IsSet-keys : IsSet (List ℕ)
IsSet-keys = hlevel

IsSet-tests : IsSet Bool
IsSet-tests = hlevel

first_same :
    (y x : List ℕ) (ys xs : List (List ℕ))
    → Perm (y ∷ ys) (x ∷ xs)
    → IsAscending (x ∷ xs)
    → IsSorted comes_before (y ∷ ys)
    → y ≡ x
first_same y x ys xs p up sorted =
    let not_smaller : comes_before x y ≡ false =
      Or.elim (IsSet-tests _ _) (eq-or-mem_of_mem-cons ((Perm.mem_iff p).1 mem-cons_self))
        (λ e. rw e (irreflexive y)) (sorted.0 x) in
    Or.elim (IsSet-keys y x) (eq-or-mem_of_mem-cons ((Perm.mem_iff p).0 mem-cons_self)) (λ e. e)
      (λ m. let smaller = up.0 y m in cc)

-- Keys that ascend have one sorted permutation.
pub sorted_unique :
    (out keys : List (List ℕ))
    → Perm out keys
    → IsAscending keys
    → IsSorted comes_before out
    → out ≡ keys
sorted_unique [] [] p up sorted = refl
sorted_unique [] (x ∷ xs) p up sorted = absurd (not-mem-nil ((Perm.mem_iff p).1 mem-cons_self))
sorted_unique (y ∷ ys) [] p up sorted = absurd (not-mem-nil ((Perm.mem_iff p).0 mem-cons_self))
sorted_unique (y ∷ ys) (x ∷ xs) p up sorted =
    let e : y ≡ x = first_same y x ys xs p up sorted in
    let p' : Perm (x ∷ ys) (x ∷ xs) = subst (λ z. Perm (z ∷ ys) (x ∷ xs)) e p in
    let rest : ys ≡ xs = sorted_unique ys xs (Perm.cons_inv p') up.1 sorted.1 in cc
