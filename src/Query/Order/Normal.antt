-- ===== src/Query/Order/Normal.antt =====
-- internal/engine/query_order_budget.go: maps that are listed by ascending keys, and what the keys find.
use latticedb_go.Base.{ℕ, ◌≡◌, refl, Bool, true, false, List, ◌∷◌, Bool-cases, inl, inr, length}
use latticedb_go.Base.Int.{ℤ}
use latticedb_go.Query.Budget.{Budgeted}
use latticedb_go.Payload.Values.{same_bytes}
use latticedb_go.Stream.NameMap.{same_bytes_self, same_bytes_eq}
use latticedb_go.Query.Order.Values.{
  OrderValue, null, unbound, number, boolean, text, bytes, vector, list, map, bound, entity,
  OrderItems, nil, cons, OrderFields, end, field, order_comparable, field_count,
}
use latticedb_go.Query.Order.WithBudget.{
  field_keys, field_value, Comparers, comparer_at, comparers, comparable_with_budget,
}
use latticedb_go.Query.Order.Sorting.{
  SliceSort, comes_before, IsAscending, comes_before-IsStrictWeak,
}
use mathlib.Core.List.{Mem, eq-or-mem_of_mem-cons, not-mem-nil}
use mathlib.Core.Logic.Or

IsSet-tests : IsSet Bool
IsSet-tests = hlevel

-- Keys that are before one another differ.
before-differs : (k j : List ℕ) → comes_before k j ≡ true → same_bytes k j ≡ false
before-differs k j h = elim (Bool-cases (same_bytes k j)) [
  | inr e ↦ e
  | inl e ↦
      let same : k ≡ j = same_bytes_eq k j e in
      let never = comes_before-IsStrictWeak.irreflexive j in
      let h' : comes_before j j ≡ true = rw same at h in cc
]

module _ {N F : Type 0} where
  -- The key comes before all keys of the map.
  abbrev pub IsBefore : List ℕ → OrderFields N F → Type 0
  IsBefore k end = Unit
  IsBefore k (field j v m) = (comes_before k j ≡ true) × IsBefore k m

  abbrev mutual
    -- Every map in a value is listed by ascending keys.
    pub IsNormal : OrderValue N F → Type 0
    IsNormal (list xs) = AreNormal xs
    IsNormal (map m) = IsListed m
    IsNormal (bound v) = IsNormal v
    IsNormal v = Unit

    pub AreNormal : OrderItems N F → Type 0
    AreNormal nil = Unit
    AreNormal (cons v xs) = IsNormal v × AreNormal xs

    pub IsListed : OrderFields N F → Type 0
    IsListed end = Unit
    IsListed (field k v m) = IsBefore k m × IsNormal v × IsListed m

  pub order_comparable-IsNormal : (v : OrderValue N F) → IsNormal v → IsNormal (order_comparable v)
  order_comparable-IsNormal (bound v) h = order_comparable-IsNormal v h
  order_comparable-IsNormal (entity n) h = tt
  order_comparable-IsNormal unbound h = tt
  order_comparable-IsNormal null h = tt
  order_comparable-IsNormal (number n) h = tt
  order_comparable-IsNormal (boolean b) h = tt
  order_comparable-IsNormal (text s) h = tt
  order_comparable-IsNormal (bytes s) h = tt
  order_comparable-IsNormal (vector s) h = tt
  order_comparable-IsNormal (list xs) h = h
  order_comparable-IsNormal (map m) h = h

  pub length-field_keys : (m : OrderFields N F) → length (field_keys m) ≡ field_count m
  length-field_keys end = refl
  length-field_keys (field k v m) = rw (length-field_keys m)

  before-mem :
      (k y : List ℕ) (m : OrderFields N F)
      → IsBefore k m
      → Mem y (field_keys m)
      → comes_before k y ≡ true
  before-mem k y end h i = absurd (not-mem-nil i)
  before-mem k y (field j v m) h i =
      Or.elim (IsSet-tests _ _) (eq-or-mem_of_mem-cons i) (λ e. rw e h.0) (before-mem k y m h.1)

  pub field_keys-IsAscending : (m : OrderFields N F) → IsListed m → IsAscending (field_keys m)
  field_keys-IsAscending end h = tt
  field_keys-IsAscending (field k v m) h =
      ((λ y i. before-mem k y m h.0 i), field_keys-IsAscending m h.2)

  -- The keys of a part of the map find their values in the map.
  abbrev pub Finds : OrderFields N F → OrderFields N F → Type 0
  Finds n end = Unit
  Finds n (field j w rest) = (field_value n j ≡ w) × Finds n rest

  later-Finds :
      (k : List ℕ) (v : OrderValue N F) (n rest : OrderFields N F)
      → IsBefore k rest
      → Finds n rest
      → Finds (field k v n) rest
  later-Finds k v n end h f = tt
  later-Finds k v n (field j w rest) h f =
      (rw (before-differs k j h.0) f.0, later-Finds k v n rest h.1 f.1)

  pub all-Finds : (n : OrderFields N F) → IsListed n → Finds n n
  all-Finds end h = tt
  all-Finds (field k v n) h =
      (rw (same_bytes_self k) refl, later-Finds k v n n h.0 (all-Finds n h.2))

module _ {N F : Type 0} (numbers : N → N → ℤ) (floats : F → F → ℤ)
    (listing : List (List ℕ) → List (List ℕ)) (sort : SliceSort) where
  -- The keys of a part of the map find the comparisons with their values.
  abbrev pub Serves : Comparers numbers floats listing sort → OrderFields N F → Type 0
  Serves left end = Unit
  Serves left (field k v rest) =
      ((r : OrderValue N F)
        → comparer_at numbers floats listing sort left k r
          ≡ comparable_with_budget numbers floats listing sort v r)
      × Serves left rest

  later-Serves :
      (k : List ℕ) (compare : OrderValue N F → Budgeted ℤ)
      (left : Comparers numbers floats listing sort) (rest : OrderFields N F)
      → IsBefore k rest
      → Serves left rest
      → Serves ((k, compare) ∷ left) rest
  later-Serves k compare left end h f = tt
  later-Serves k compare left (field j w rest) h f =
      ((λ r. rw (before-differs k j h.0) (f.0 r)), later-Serves k compare left rest h.1 f.1)

  pub comparers-Serves :
      (m : OrderFields N F) → IsListed m → Serves (comparers numbers floats listing sort m) m
  unfolding comparers
  comparers-Serves end h = tt
  comparers-Serves (field k v m) h =
      ((λ r. rw (same_bytes_self k) refl), later-Serves k _ _ m h.0 (comparers-Serves m h.2))
