-- ===== src/Adjacency/Batch.antt =====
-- RemoveKnownBatch, seen as an operation of the list of ids.
use latticedb_go.Base.{
  ℕ, suc, ◌-◌, ◌≤◌, ◌≡◌, ◌⊎◌, refl, sym, ap, subst, ◌∙◌, Bool, true, false, not, ◌&&◌, ◌||◌, List,
  [], ◌∷◌, Option, none, some, arith, length, ◌==◌, Bool-cases, inl, inr, ==_iff,
}
use latticedb_go.PagedMap.{PagedMap, has, set}
use latticedb_go.PagedMap.Lookup.{has-set}
use latticedb_go.Adjacency.{
  EdgeList, no_chunks, keep, mem, mark_each, count_new, batch_inline, batch_chunks,
  remove_known_batch,
}
use latticedb_go.Adjacency.Pieces.{
  Distinct, keep-keep, keep_same, keep_every, keep_absent, mem-keep, Distinct-keep,
}
use latticedb_go.Adjacency.Layout.{IsEdgeList, live_ids}
use latticedb_go.Adjacency.Remove.{
  Represents, keep_live, inlined, marked, gone, after_removal-Represents,
}

==_comm : (a b : ℕ) → (a == b) ≡ (b == a)
==_comm a b = ground arith

abbrev pub without : List ℕ → List ℕ → List ℕ
without gone ys = keep (λ x. not (mem x gone)) ys

other_or : (a b : Bool) → (not a && not b) ≡ not (a || b)
other_or true true = refl
other_or true false = refl
other_or false true = refl
other_or false false = refl

without-cons :
    (id : ℕ) (ids ys : List ℕ) → without ids (keep (λ x. not (x == id)) ys) ≡ without (id ∷ ids) ys
without-cons id ids ys =
    keep-keep (λ x. not (mem x ids)) (λ x. not (x == id)) ys
    ∙ keep_same (λ x. not (x == id) && not (mem x ids)) (λ x. not (mem x (id ∷ ids))) ys
        (λ x _. rw (==_comm x id) (other_or (id == x) (mem x ids)))

-- Every id of the batch is in the list or removed from it already.
abbrev Known : EdgeList → List ℕ → List ℕ → Type 0
Known l ys ids = (x : ℕ) → mem x ids ≡ true → (mem x ys ≡ true) ⊎ (has l.removed x ≡ true)

still-Known :
    (l : EdgeList) (ys : List ℕ) (id : ℕ) (ids : List ℕ)
    → Known l ys (id ∷ ids)
    → Known
        (record l { removed = set l.removed id tt; count = l.count - 1 })
        (keep (λ x. not (x == id)) ys)
        ids
still-Known l ys id ids known x k = elim (Bool-cases (x == id)) [
  | inl same ↦ inr (has-set l.removed id x tt ∙ rw (same))
  | inr other ↦ elim (known x (ground (arith, k))) [
    | inl here ↦ inl (mem-keep x (λ x. not (x == id)) ys ∙ rw (here, other))
    | inr m ↦ inr (has-set l.removed id x tt ∙ rw (other, m))
  ]
]

marked_each :
    (l : EdgeList) (ys ids : List ℕ)
    → no_chunks l.chunks ≡ false
    → Represents (some l) ys
    → Known l ys ids
    → Represents
        (some (record l {
          removed = mark_each l.removed ids;
          count = l.count - count_new l.removed ids;
        }))
        (without ids ys)
marked_each l ys [] n (xs, h, e) known =
    let zero_less : l.count - 0 ≡ l.count = omega arith in rw (zero_less, keep_every ys) (xs, h, e)
marked_each l ys (id ∷ ids) n (xs, h, e) known = elim (Bool-cases (has l.removed id)) [
  | inl m ↦
      let absent = gone l xs ys id e m in
      rw (m, sym (without-cons id ids ys), keep_absent id ys absent)
        (marked_each l ys ids n (xs, h, e) (λ x k. known x (ground (arith, k))))
  | inr m ↦
      let here : mem id ys ≡ true = elim (known id (ground arith)) [
        | inl k ↦ k
        | inr k ↦ let never : true ≡ false = sym k ∙ m in absurd cc
      ] in
      let less : l.count - suc (count_new (set l.removed id tt) ids)
          ≡ l.count - 1 - count_new (set l.removed id tt) ids =
        omega arith in
      rw (m, less, sym (without-cons id ids ys))
        (marked_each (record l { removed = set l.removed id tt; count = l.count - 1 })
          (keep (λ x. not (x == id)) ys) ids n (marked l xs ys id h e n m here)
          (still-Known l ys id ids known))
]

mark_each-none :
    (removed : PagedMap (Unit {0})) (ids : List ℕ)
    → count_new removed ids ≡ 0
    → mark_each removed ids ≡ removed
mark_each-none removed [] h = refl
mark_each-none removed (id ∷ ids) h = elim (Bool-cases (has removed id)) [
  | inl m ↦ rw (m) (mark_each-none removed ids (rw (m) at h))
  | inr m ↦
      let never : suc (count_new (set removed id tt) ids) ≡ 0 = rw (m) at h in
      absurd (ground (arith, never))
]

length-keep : (live : ℕ → Bool) (xs : List ℕ) → length (keep live xs) ≤ length xs
length-keep live [] = omega arith
length-keep live (x ∷ xs) = ground (arith, length-keep live xs)

-- A list that loses no id is the same.
keep_full : (live : ℕ → Bool) (xs : List ℕ) → length (keep live xs) ≡ length xs → keep live xs ≡ xs
keep_full live [] h = refl
keep_full live (x ∷ xs) h = elim (Bool-cases (live x)) [
  | inl k ↦
      let rest : suc (length (keep live xs)) ≡ suc (length xs) = rw (k) at h in
      rw (k) (ap (λ t. x ∷ t) (keep_full live xs (omega (arith, rest))))
  | inr k ↦
      let rest : length (keep live xs) ≡ suc (length xs) = rw (k) at h in
      absurd (omega (arith, rest, length-keep live xs))
]

inline-Represents :
    (l : EdgeList) (xs ys ids : List ℕ)
    → IsEdgeList l xs
    → live_ids l xs ≡ ys
    → no_chunks l.chunks ≡ true
    → Represents (some (batch_inline l ids)) (without ids ys)
inline-Represents l xs ys ids h e n =
    let (same, most) = h.inline n in
    let all_live : l.small ≡ ys = same ∙ sym (keep_live l xs (h.unmarked n)) ∙ e in
    let values = without ids l.small in
    elim (Bool-cases (length values == length l.small)) [
      | inl full ↦
          rw (full, sym all_live, keep_full (λ x. not (mem x ids)) l.small ((==_iff _ _).0 full))
            (xs, h, e ∙ sym all_live)
      | inr fewer ↦
          rw (fewer, sym all_live)
            (inlined l values (length values) (length values) n (h.unmarked n)
              (Distinct-keep (λ x. not (mem x ids)) l.small (subst Distinct (sym same) h.distinct))
              (omega (arith, most, ap length same, length-keep (λ x. not (mem x ids)) l.small)) refl
              refl)
    ]

chunks-Represents :
    (l : EdgeList) (ys ids : List ℕ)
    → no_chunks l.chunks ≡ false
    → Represents (some l) ys
    → Known l ys ids
    → Represents (batch_chunks l ids) (without ids ys)
chunks-Represents l ys ids n h known =
    let after = marked_each l ys ids n h known in
    elim (Bool-cases (count_new l.removed ids == 0)) [
      | inl none_new ↦
          let zero_new : count_new l.removed ids ≡ 0 = (==_iff _ _).0 none_new in
          let same_count : l.count - 0 ≡ l.count = omega arith in
          rw (none_new) (rw (mark_each-none l.removed ids zero_new, zero_new, same_count) at after)
      | inr some_new ↦ rw (some_new) (
          after_removal-Represents
            (record l {
              removed = mark_each l.removed ids;
              count = l.count - count_new l.removed ids;
            })
            (without ids ys) after)
    ]

-- Removing a batch of ids that the list yields, some of them perhaps named twice, leaves the others in
-- their order, whether the list is inline, keeps them in its chunks, or is compacted.
pub remove_known_batch-Represents :
    (list : Option EdgeList) (ys ids : List ℕ)
    → Represents list ys
    → ((x : ℕ) → mem x ids ≡ true → mem x ys ≡ true)
    → Represents (remove_known_batch list ids) (without ids ys)
unfolding remove_known_batch
remove_known_batch-Represents none ys ids h known = rw (h) refl
remove_known_batch-Represents (some l) ys [] h known = rw (keep_every ys) h
remove_known_batch-Represents (some l) ys (id ∷ ids) (xs, h, e) known =
    let more : (suc (length ids) == 0) ≡ false = ground arith in
    elim (Bool-cases (no_chunks l.chunks)) [
      | inl n ↦ rw (more, n) (inline-Represents l xs ys (id ∷ ids) h e n)
      | inr n ↦
          rw (more, n) (chunks-Represents l ys (id ∷ ids) n (xs, h, e) (λ x k. inl (known x k)))
    ]
