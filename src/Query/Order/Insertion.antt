-- ===== src/Query/Order/Insertion.antt =====
-- An insertion sort that does what internal/engine/query_order_budget.go expects of `sort.Slice`: the
-- instance at which the tests apply the theorems.
use latticedb_go.Base.{
  ℕ, ◌≡◌, Bool, true, false, Bool-cases, inl, inr, Option, List, [], ◌∷◌, if◌then◌else◌,
}
use latticedb_go.Query.Budget.{QueryBudget, Outcome, Budgeted, ◌>>=◌, return}
use latticedb_go.Query.Limits.{is_present, Ensures, ensured, halted, Returns, Ensures-then}
use latticedb_go.Query.Order.Sorting.{SliceSort, Sorts, IsSorted, IsStrictWeak}
use mathlib.Core.List.{Perm, eq-or-mem_of_mem-cons, not-mem-nil}
use mathlib.Core.List.Perm
use mathlib.Core.Logic.Or

unfoldable insert :
    (List ℕ → List ℕ → Budgeted Bool) → List ℕ → List (List ℕ) → Budgeted (List (List ℕ))
insert less x [] = return (x ∷ [])
insert less x (y ∷ ys) = less y x >>= λ first.
    if first then (insert less x ys >>= λ out. return (y ∷ out)) else return (x ∷ y ∷ ys)

unfoldable pub insertion_sort : SliceSort
unfolding insert
insertion_sort less [] = return []
insertion_sort less (x ∷ xs) = insertion_sort less xs >>= insert less x

IsSet-tests : IsSet Bool
IsSet-tests = hlevel

module _ (before : List ℕ → List ℕ → Bool) (less : List ℕ → List ℕ → Budgeted Bool)
    (weak : IsStrictWeak before)
    (less_is : (x y : List ℕ) (b : Option QueryBudget)
      → is_present b ≡ true
      → Returns (before x y) true (less x y b)) where
  abbrev Sorted : List (List ℕ) → List (List ℕ) → Type 0
  Sorted keys out = Perm out keys × IsSorted before out

  front-IsSorted :
      (x y : List ℕ) (ys : List (List ℕ))
      → before y x ≡ false
      → IsSorted before (y ∷ ys)
      → IsSorted before (x ∷ y ∷ ys)
  front-IsSorted x y ys e s = (
    (λ z m.
        Or.elim (IsSet-tests _ _) (eq-or-mem_of_mem-cons m) (λ same. rw same e)
          (λ i. weak.not_before z y x (s.0 z i) e)),
    s,
  )

  behind :
      (x y : List ℕ) (ys out : List (List ℕ))
      → before y x ≡ true
      → IsSorted before (y ∷ ys)
      → Sorted (x ∷ ys) out
      → Sorted (x ∷ y ∷ ys) (y ∷ out)
  behind x y ys out e s r = (
    Perm.trans (Perm.cons y r.0) (Perm.swap x y ys),
    (
      (λ z m.
          Or.elim (IsSet-tests _ _) (eq-or-mem_of_mem-cons ((Perm.mem_iff r.0).0 m))
            (λ same. rw same (not_after x y e)) (s.0 z)),
      r.1,
    ),
  )
    where
      not_after : (x y : List ℕ) → before y x ≡ true → before x y ≡ false
      not_after x y e = elim (Bool-cases (before x y)) [
        | inr h ↦ h
        | inl h ↦ let round = weak.transitive x y x h e in let never = weak.irreflexive x in cc
      ]

  insert-Sorted :
      (x : List ℕ) (l : List (List ℕ)) (b : Option QueryBudget)
      → is_present b ≡ true
      → IsSorted before l
      → Ensures (Sorted (x ∷ l)) true (insert less x l b)
  unfolding insert
  insert-Sorted x [] b s h = ensured (Perm.refl (x ∷ []), ((λ y m. absurd (not-mem-nil m)), tt)) s
  insert-Sorted x (y ∷ ys) b s h = Ensures-then (less y x b) _ (less_is y x b s) (λ first b' e s'.
      rw e (elim (Bool-cases (before y x)) [
        | inl smaller ↦ rw smaller (
            Ensures-then (insert less x ys b') _ (insert-Sorted x ys b' s' h.1)
              (λ out b'' r s''. ensured (behind x y ys out smaller h r) s''))
        | inr larger ↦
            rw larger (ensured (Perm.refl (x ∷ y ∷ ys), front-IsSorted x y ys larger h) s')
      ]))

  with_front :
      (x : List ℕ) (xs out : List (List ℕ)) {o : Outcome (List (List ℕ))}
      → Perm out xs
      → Ensures (Sorted (x ∷ out)) true o
      → Ensures (Sorted (x ∷ xs)) true o
  with_front x xs out p (ensured r s) = ensured (Perm.trans r.0 (Perm.cons x p), r.1) s
  with_front x xs out p (halted q l) = halted q l

  sort-Sorted :
      (keys : List (List ℕ)) (b : Option QueryBudget)
      → is_present b ≡ true
      → Ensures (Sorted keys) true (insertion_sort less keys b)
  unfolding insertion_sort
  sort-Sorted [] b s = ensured (Perm.refl [], tt) s
  sort-Sorted (x ∷ xs) b s =
      Ensures-then (insertion_sort less xs b) _ (sort-Sorted xs b s)
        (λ out b' r s'. with_front x xs out r.0 (insert-Sorted x out b' s' r.1))

pub insertion_sort-Sorts : Sorts insertion_sort
insertion_sort-Sorts = sort-Sorted
