-- ===== src/Adjacency/Remove.antt =====
-- The operations of an edge list, seen as operations of the list of its ids.
use latticedb_go.Base.{
  ℕ, ◌-◌, ◌≤◌, ◌≡◌, refl, sym, ap, subst, ◌∙◌, Bool, true, false, not, ◌&&◌, ◌||◌, List, [], ◌∷◌,
  ◌++◌, Option, none, some, append_assoc, append-nil, arith, length, ◌==◌, Bool-cases, inl, inr,
}
use latticedb_go.PagedMap.{has, set}
use latticedb_go.PagedMap.Lookup.{has-new, has-set, length-set}
use latticedb_go.Adjacency.{
  EdgeList, empty_list, live_count, is_removed, no_chunks, ids, keep, mem, remove_first, append_to,
  append, append_each, compact, compact_due, remove_inline, after_removal, mark_removed,
  remove_known, remove,
}
use latticedb_go.Adjacency.Pieces.{
  keep-append, keep-keep, keep_same, keep_every, keep_absent, mem-keep, mem-append, Distinct,
  Distinct-keep, remove_first-keep, length-keep_other,
}
use latticedb_go.Adjacency.Layout.{IsEdgeList, live_ids, ids_lem, mem_chunks-list_chunks}
use latticedb_go.Adjacency.Append.{append_to-IsEdgeList}

-- The list yields the ids `ys`, in this order.
abbrev pub Represents : Option EdgeList → List ℕ → Type 0
Represents none ys = ys ≡ []
Represents (some l) ys = (xs : List ℕ) × IsEdgeList l xs × (live_ids l xs ≡ ys)

pub ids-Represents : (list : Option EdgeList) (ys : List ℕ) → Represents list ys → ids list ≡ ys
unfolding ids
ids-Represents none ys h = sym h
ids-Represents (some l) ys (xs, h, e) = ids_lem l xs h ∙ e

pub live_count-Represents :
    (list : Option EdgeList) (ys : List ℕ) → Represents list ys → live_count list ≡ length ys
live_count-Represents none ys h = rw (h)
live_count-Represents (some l) ys (xs, h, e) = h.count ∙ ap length e

-- A list that stands for `ys` yields exactly `ys`, in that order, and its length is the stored count.
pub observe-Represents :
    (list : Option EdgeList) (ys : List ℕ)
    → Represents list ys
    → (ids list ≡ ys) × (live_count list ≡ length ys)
observe-Represents list ys h = (ids-Represents list ys h, live_count-Represents list ys h)

pub empty_list-IsEdgeList : IsEdgeList empty_list []
empty_list-IsEdgeList = record {
  total = refl;
  inline = λ _. (refl, omega arith);
  unmarked = λ _ id. has-new (Unit {0}) id;
  chunked = λ n. absurd cc;
  marks = λ id m. let never : true ≡ false = sym m ∙ has-new (Unit {0}) id in absurd cc;
  distinct = tt;
  count = refl;
}

pub removed-append_to : (l : EdgeList) (id : ℕ) → (append_to l id).removed ≡ l.removed
unfolding append_to
removed-append_to l id = ground arith

-- A live id of the list is in what it stands for.
fresh_id :
    (l : EdgeList) (xs ys : List ℕ) (id : ℕ)
    → live_ids l xs ≡ ys
    → has l.removed id ≡ false
    → mem id xs ≡ mem id ys
fresh_id l xs ys id e unmarked =
    sym (rw (sym e, mem-keep id (λ x. not (has l.removed x)) xs, unmarked) (ground arith))

append_to-Represents :
    (l : EdgeList) (xs ys : List ℕ) (id : ℕ)
    → IsEdgeList l xs
    → live_ids l xs ≡ ys
    → has l.removed id ≡ false
    → mem id ys ≡ false
    → Represents (some (append_to l id)) (ys ++ id ∷ [])
append_to-Represents l xs ys id h e unmarked fresh = (
  xs ++ id ∷ [],
  append_to-IsEdgeList l xs id h unmarked (fresh_id l xs ys id e unmarked ∙ fresh),
  rw (removed-append_to l id, keep-append (λ x. not (has l.removed x)) xs (id ∷ []), unmarked, e),
)

-- Appending an id that the list neither yields nor has removed puts it behind the others: inline, at
-- the change to chunks at the 64th id, and in chunks.
pub append-Represents :
    (list : Option EdgeList) (ys : List ℕ) (id : ℕ)
    → Represents list ys
    → is_removed id list ≡ false
    → mem id ys ≡ false
    → Represents (append list id) (ys ++ id ∷ [])
unfolding append
append-Represents none ys id h unmarked fresh =
    append_to-Represents empty_list [] ys id empty_list-IsEdgeList (sym h) (has-new (Unit {0}) id)
      fresh
append-Represents (some l) ys id (xs, h, e) unmarked fresh =
    append_to-Represents l xs ys id h e unmarked fresh

append-clean :
    (list : Option EdgeList) (z : ℕ)
    → ((id : ℕ) → is_removed id list ≡ false)
    → (id : ℕ) → is_removed id (append list z) ≡ false
unfolding append
append-clean none z clean id =
    ap (λ r. has r id) (removed-append_to empty_list z) ∙ has-new (Unit {0}) id
append-clean (some l) z clean id = ap (λ r. has r id) (removed-append_to l z) ∙ clean id

Distinct-front : (z : ℕ) (ys zs : List ℕ) → Distinct (ys ++ z ∷ zs) → mem z ys ≡ false
Distinct-front z [] zs d = refl
Distinct-front z (y ∷ ys) zs (dy, d) =
    let rest = Distinct-front z ys zs d in
    let apart = mem-append y ys (z ∷ zs) in ground (arith, rest, apart, dy)

pub append_each-Represents :
    (list : Option EdgeList) (ys zs : List ℕ)
    → Represents list ys
    → ((id : ℕ) → is_removed id list ≡ false)
    → Distinct (ys ++ zs)
    → Represents (append_each list zs) (ys ++ zs)
append_each-Represents list ys [] h clean d = rw (append-nil ys) h
append_each-Represents list ys (z ∷ zs) h clean d =
    let next = append-Represents list ys z h (clean z) (Distinct-front z ys zs d) in
    subst (λ t. Represents (append_each list (z ∷ zs)) t) (append_assoc ys (z ∷ []) zs)
      (append_each-Represents (append list z) (ys ++ z ∷ []) zs next (append-clean list z clean)
        (subst Distinct (sym (append_assoc ys (z ∷ []) zs)) d))

-- The list that compaction appends anew yields the same ids, in the same order.
pub compact-Represents :
    (l : EdgeList) (ys : List ℕ) → Represents (some l) ys → Represents (compact (some l)) ys
unfolding compact
compact-Represents l ys (xs, h, e) =
    let distinct : Distinct ys =
      subst Distinct e (Distinct-keep (λ x. not (has l.removed x)) xs h.distinct) in
    subst (λ t. Represents (append_each none t) ys) (sym (ids_lem l xs h ∙ e))
      (append_each-Represents none [] ys refl (λ id. refl) distinct)

pub after_removal-Represents :
    (l : EdgeList) (ys : List ℕ) → Represents (some l) ys → Represents (after_removal l) ys
unfolding after_removal
after_removal-Represents l ys h = elim (Bool-cases (compact_due l)) [
  | inl due ↦ rw (due) (compact-Represents l ys h)
  | inr early ↦ rw (early) h
]

unmarked_other : (a b : Bool) → not (a || b) ≡ (not b && not a)
unmarked_other true true = refl
unmarked_other true false = refl
unmarked_other false true = refl
unmarked_other false false = refl

-- One more mark, on a live id.
pub marked :
    (l : EdgeList) (xs ys : List ℕ) (id : ℕ)
    → IsEdgeList l xs
    → live_ids l xs ≡ ys
    → no_chunks l.chunks ≡ false
    → has l.removed id ≡ false
    → mem id ys ≡ true
    → Represents
        (some (record l { removed = set l.removed id tt; count = l.count - 1 }))
        (keep (λ x. not (x == id)) ys)
marked l xs ys id h e n unmarked here =
    let same : keep (λ x. not (has (set l.removed id tt) x)) xs ≡ keep (λ x. not (x == id)) ys =
      keep_same (λ x. not (has (set l.removed id tt) x))
        (λ x. not (has l.removed x) && not (x == id)) xs
        (λ x _. rw (has-set l.removed id x tt) (unmarked_other (x == id) (has l.removed x)))
      ∙ sym (keep-keep (λ x. not (x == id)) (λ x. not (has l.removed x)) xs)
      ∙ ap (keep (λ x. not (x == id))) e in
    (
      xs,
      record {
        total = h.total;
        inline = λ i. let never : true ≡ false = sym i ∙ n in absurd cc;
        unmarked = λ i. let never : true ≡ false = sym i ∙ n in absurd cc;
        chunked = h.chunked;
        marks = λ x m. rw (length-set l.removed id tt, unmarked) (omega arith);
        distinct = h.distinct;
        count =
            let distinct : Distinct ys =
              subst Distinct e (Distinct-keep (λ x. not (has l.removed x)) xs h.distinct) in
            omega
              (arith, h.count, ap length e, ap length same, length-keep_other id ys distinct here);
      },
      same,
    )

pub keep_live :
    (l : EdgeList) (zs : List ℕ) → ((id : ℕ) → has l.removed id ≡ false) → live_ids l zs ≡ zs
keep_live l zs unmarked =
    keep_same (λ x. not (has l.removed x)) (λ x. true) zs (λ x _. rw (unmarked x)) ∙ keep_every zs

-- An inline list of other ids.
pub inlined :
    (l : EdgeList) (zs : List ℕ) (count total : ℕ)
    → no_chunks l.chunks ≡ true
    → ((id : ℕ) → has l.removed id ≡ false)
    → Distinct zs
    → length zs ≤ 63
    → count ≡ length zs
    → total ≡ length zs
    → Represents (some (record l { small = zs; count = count; total = total })) zs
inlined l zs count total n unmarked distinct most c t = (
  zs,
  record {
    total = t;
    inline = λ _. (refl, most);
    unmarked = λ _. unmarked;
    chunked = λ f. let never : true ≡ false = sym n ∙ f in absurd cc;
    marks = λ id m. let never : true ≡ false = sym m ∙ unmarked id in absurd cc;
    distinct = distinct;
    count = c ∙ ap length (sym (keep_live l zs unmarked));
  },
  keep_live l zs unmarked,
)

-- An inline list without the id.
shortened :
    (l : EdgeList) (xs ys : List ℕ) (id : ℕ)
    → IsEdgeList l xs
    → live_ids l xs ≡ ys
    → no_chunks l.chunks ≡ true
    → Represents (some (remove_inline l id)) (keep (λ x. not (x == id)) ys)
unfolding remove_inline
shortened l xs ys id h e n =
    let (same, most) = h.inline n in
    let all_live : xs ≡ ys = sym (keep_live l xs (h.unmarked n)) ∙ e in
    elim (Bool-cases (mem id l.small)) [
      | inr absent ↦
          let gone : mem id ys ≡ false = rw (sym all_live, sym same) absent in
          rw (absent, keep_absent id ys gone) (xs, h, e)
      | inl here ↦
          let cut : remove_first id l.small ≡ keep (λ x. not (x == id)) xs =
            ap (remove_first id) same ∙ remove_first-keep id xs h.distinct in
          let there : mem id xs ≡ true = sym (ap (mem id) same) ∙ here in
          let less = length-keep_other id xs h.distinct there in
          rw (here, sym all_live, sym cut)
            (inlined l (remove_first id l.small) (l.count - 1) (l.total - 1) n (h.unmarked n)
              (subst Distinct (sym cut) (Distinct-keep (λ x. not (x == id)) xs h.distinct))
              (omega (arith, most, less, ap length cut))
              (omega
                (arith, h.count, ap length (keep_live l xs (h.unmarked n)), less, ap length cut))
              (omega (arith, h.total, less, ap length cut)))
    ]

-- A marked id is not live.
pub gone :
    (l : EdgeList) (xs ys : List ℕ) (id : ℕ)
    → live_ids l xs ≡ ys
    → has l.removed id ≡ true
    → mem id ys ≡ false
gone l xs ys id e m =
    rw (sym e, mem-keep id (λ x. not (has l.removed x)) xs, m) (and_false (mem id xs))
  where
    and_false : (b : Bool) → (b && false) ≡ false
    and_false true = refl
    and_false false = refl

-- Removing an id that the list yields, as known, leaves the others in their order, whether the list is
-- inline, keeps the removed id in its chunks, or is compacted.
pub remove_known-Represents :
    (list : Option EdgeList) (ys : List ℕ) (id : ℕ)
    → Represents list ys
    → mem id ys ≡ true
    → Represents (remove_known list id) (keep (λ x. not (x == id)) ys)
unfolding remove_known mark_removed
remove_known-Represents none ys id h here = rw (h) refl
remove_known-Represents (some l) ys id (xs, h, e) here = elim (Bool-cases (no_chunks l.chunks)) [
  | inl n ↦ rw (n) (shortened l xs ys id h e n)
  | inr n ↦ elim (Bool-cases (has l.removed id)) [
    | inl m ↦ let never : true ≡ false = sym here ∙ gone l xs ys id e m in absurd cc
    | inr m ↦
        rw (n, m)
          (after_removal-Represents
            (record l { removed = set l.removed id tt; count = l.count - 1 })
            (keep (λ x. not (x == id)) ys) (marked l xs ys id h e n m here))
  ]
]

-- Removing any id leaves the other ids that the list yields, in their order; an id that it does not
-- yield leaves the list as it is.
pub remove-Represents :
    (list : Option EdgeList) (ys : List ℕ) (id : ℕ)
    → Represents list ys
    → Represents (remove list id) (keep (λ x. not (x == id)) ys)
unfolding remove
remove-Represents none ys id h = rw (h) refl
remove-Represents (some l) ys id (xs, h, e) = elim (Bool-cases (no_chunks l.chunks)) [
  | inl n ↦ rw (n) (shortened l xs ys id h e n)
  | inr n ↦ elim (Bool-cases (has l.removed id)) [
    | inl m ↦ rw (n, m, keep_absent id ys (gone l xs ys id e m)) (xs, h, e)
    | inr m ↦
        let found = mem_chunks-list_chunks id l xs h n ∙ fresh_id l xs ys id e m in
        elim (Bool-cases (mem id ys)) [
          | inl here ↦
              rw (n, m, found, here) (remove_known-Represents (some l) ys id (xs, h, e) here)
          | inr absent ↦ rw (n, m, found, absent, keep_absent id ys absent) (xs, h, e)
        ]
  ]
]
