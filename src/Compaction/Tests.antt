-- ===== src/Compaction/Tests.antt =====
-- The compaction theorem at a list of 257 ids with 65 of them removed, stepped with three budgets.
use latticedb_go.Base.{
  ℕ, zero, suc, ◌+◌, ◌*◌, ◌≤◌, ◌<◌, ◌≡◌, ◌≢◌, refl, sym, ap, ◌∙◌, Bool, true, false, not, ◌||◌,
  none, some, List, [], ◌∷◌, ◌++◌, arith, length, ◌==◌, Bool-cases, ltb, ltb→lt, ltb→le, inl, inr,
  ==_iff,
}
use latticedb_go.PagedMap
use latticedb_go.PagedMap.{PagedMap, new_paged_map, get, has, set}
use latticedb_go.PagedMap.Lookup.{get-set, get-new, has-new, has-set, set-rooted, ==→ne}
use latticedb_go.Adjacency.{EdgeList, slice_or_nil, chunk_at, keep, mem, mark_each, empty_list}
use latticedb_go.Adjacency.Pieces.{piece, piece_short, keep-append, keep_same, keep_every, Distinct}
use latticedb_go.Adjacency.Remove.{Represents}
use latticedb_go.Compaction.{AdjacencyCompactor, start_on, select_list, new_adjacency_compactor}
use latticedb_go.Compaction.Steps.{Completes, compaction-done}

abbrev count_up : ℕ → ℕ → List ℕ
count_up zero from = []
count_up (suc n) from = from ∷ count_up n (from + 1)

low : (x n from : ℕ) → x < from → mem x (count_up n from) ≡ false
low x zero from h = refl
low x (suc n) from h = ground (arith, low x n (from + 1) (omega arith))

high : (x n from : ℕ) → from + n ≤ x → mem x (count_up n from) ≡ false
high x zero from h = refl
high x (suc n) from h = ground (arith, high x n (from + 1) (omega arith))

from_count_up : (x n from : ℕ) → mem x (count_up n from) ≡ true → from ≤ x
from_count_up x zero from h = absurd cc
from_count_up x (suc n) from h = elim (Bool-cases (from == x)) [
  | inl s ↦ omega (arith, (==_iff from x).0 s)
  | inr d ↦ omega (arith, from_count_up x n (from + 1) (rw (d) at h))
]

count_up-Distinct : (n from : ℕ) → Distinct (count_up n from)
count_up-Distinct zero from = tt
count_up-Distinct (suc n) from =
    (low from n (from + 1) (omega arith), count_up-Distinct n (from + 1))

abbrev all_ids : List ℕ
all_ids = count_up 65 1 ++ count_up 192 66

-- The chunks of a list, written one after another.
abbrev fill : ℕ → List ℕ → PagedMap (List ℕ)
fill zero xs = new_paged_map
fill (suc k) xs = set (fill k xs) k (piece k xs)

fill_above : (k : ℕ) (xs : List ℕ) (c : ℕ) → k ≤ c → chunk_at (fill k xs) c ≡ []
fill_above zero xs c h = ap slice_or_nil (get-new (List ℕ) c)
fill_above (suc k) xs c h =
    let other : (c == k) ≡ false = ground arith in
    ap slice_or_nil (get-set (fill k xs) k c (piece k xs))
    ∙ rw (other) (fill_above k xs c (omega arith))

fill_below : (k : ℕ) (xs : List ℕ) (c : ℕ) → c < k → chunk_at (fill k xs) c ≡ piece c xs
fill_below zero xs c h = absurd (omega arith)
fill_below (suc k) xs c h =
    ap slice_or_nil (get-set (fill k xs) k c (piece k xs)) ∙ elim (Bool-cases (c == k)) [
      | inl s ↦ rw (s, (==_iff c k).0 s)
      | inr d ↦ let other : c ≢ k = ==→ne c k d in rw (d) (fill_below k xs c (omega (arith, other)))
    ]

filled : (xs : List ℕ) (k : ℕ) → length xs ≤ k * 64 → (c : ℕ) → chunk_at (fill k xs) c ≡ piece c xs
filled xs k h c = elim (Bool-cases (ltb c k)) [
  | inl less ↦ fill_below k xs c (ltb→lt c k less)
  | inr more ↦
      fill_above k xs c (ltb→le c k more) ∙ sym (piece_short c xs (omega (arith, ltb→le c k more)))
]

abbrev whole : EdgeList
whole = record {
  small = [];
  chunks = fill 5 (count_up 257 1);
  removed = new_paged_map;
  count = 257;
  total = 257;
}

whole_live :
    keep (λ x. not (has (new_paged_map {V = Unit {0}}) x)) (count_up 257 1) ≡ count_up 257 1
whole_live =
    keep_same (λ x. not (has (new_paged_map {V = Unit {0}}) x)) (λ x. true) (count_up 257 1)
      (λ x _. rw (has-new (Unit {0}) x))
    ∙ keep_every (count_up 257 1)

whole-Represents : Represents (some whole) (count_up 257 1)
whole-Represents =
    let rooted = set-rooted (fill 4 (count_up 257 1)) 4 (piece 4 (count_up 257 1)) in
    (
      count_up 257 1,
      record {
        total = refl;
        inline = λ i. let never : true ≡ false = sym i ∙ rooted in absurd cc;
        unmarked = λ _. has-new (Unit {0});
        chunked = λ _. filled (count_up 257 1) 5 (omega arith);
        marks = λ x m. let never : true ≡ false = sym m ∙ has-new (Unit {0}) x in absurd cc;
        distinct = count_up-Distinct 257 1;
        count = sym (ap length whole_live);
      },
      whole_live,
    )

abbrev sparse : EdgeList
sparse = record whole { removed = mark_each new_paged_map (count_up 65 1); count = 192 }

sparse_length : sparse.removed.length ≡ 65
unfolding has set get PagedMap.page_by_key PagedMap.find_high PagedMap.store_page
    PagedMap.store_high
sparse_length = refl

or_true : (a : Bool) → (a || true) ≡ true
or_true true = refl
or_true false = refl

has-mark_each :
    (removed : PagedMap (Unit {0})) (ids : List ℕ) (x : ℕ)
    → has (mark_each removed ids) x ≡ (mem x ids || has removed x)
has-mark_each removed [] x = refl
has-mark_each removed (id ∷ ids) x = elim (Bool-cases (has removed id)) [
  | inl m ↦ rw (m) (
      has-mark_each removed ids x ∙ elim (Bool-cases (id == x)) [
        | inl s ↦ rw (s, sym ((==_iff id x).0 s), m) (or_true (mem id ids))
        | inr d ↦ rw (d)
      ])
  | inr m ↦ rw (m) (
      has-mark_each (set removed id tt) ids x ∙ elim (Bool-cases (id == x)) [
        | inl s ↦
            let back : (x == id) ≡ true = ground arith in
            rw (s, has-set removed id x tt, back) (or_true (mem x ids))
        | inr d ↦
            let back : (x == id) ≡ false = ground arith in rw (d, has-set removed id x tt, back)
      ])
]

or_false : (a : Bool) → (a || false) ≡ a
or_false true = refl
or_false false = refl

sparse-has : (x : ℕ) → has sparse.removed x ≡ mem x (count_up 65 1)
sparse-has x =
    has-mark_each new_paged_map (count_up 65 1) x
    ∙ rw (has-new (Unit {0}) x) (or_false (mem x (count_up 65 1)))

keep_none : (xs : List ℕ) → keep (λ x. false) xs ≡ []
keep_none [] = refl
keep_none (x ∷ xs) = keep_none xs

sparse_live : keep (λ x. not (has sparse.removed x)) (count_up 257 1) ≡ count_up 192 66
sparse_live =
    let live : ℕ → Bool = λ x. not (has sparse.removed x) in
    keep-append live (count_up 65 1) (count_up 192 66)
    ∙ rw (
      keep_same live (λ x. false) (count_up 65 1) (λ x m. ap not (sparse-has x ∙ m))
          ∙ keep_none (count_up 65 1),
      keep_same live (λ x. true) (count_up 192 66)
            (λ x m. ap not (sparse-has x ∙ high x 65 1 (from_count_up x 192 66 m)))
          ∙ keep_every (count_up 192 66),
    )

sparse-Represents : Represents (some sparse) (count_up 192 66)
sparse-Represents =
    let rooted = set-rooted (fill 4 (count_up 257 1)) 4 (piece 4 (count_up 257 1)) in
    (
      count_up 257 1,
      record {
        total = refl;
        inline = λ i. let never : true ≡ false = sym i ∙ rooted in absurd cc;
        unmarked = λ i. let never : true ≡ false = sym i ∙ rooted in absurd cc;
        chunked = λ _. filled (count_up 257 1) 5 (omega arith);
        marks = λ x m. omega (arith, sparse_length);
        distinct = count_up-Distinct 257 1;
        count = sym (ap length sparse_live);
      },
      sparse_live,
    )

-- The node 5 has the list; the node 6 another.
abbrev lists : PagedMap EdgeList
lists = set (set new_paged_map 6 empty_list) 5 sparse

abbrev started_compactor : AdjacencyCompactor
started_compactor = record {
  lists = lists;
  result = none;
  node_id = 5;
  chunk = 0;
  list = sparse;
  builder_chunks = new_paged_map;
  builder_tail = [];
  builder_chunk = 0;
  builder_count = 0;
}

listed : get lists 5 ≡ some sparse
listed = get-set (set new_paged_map 6 empty_list) 5 5 sparse

started_run : new_adjacency_compactor lists 5 ≡ some started_compactor
unfolding new_adjacency_compactor
started_run =
    ap (λ o. start_on lists 5 (select_list o)) listed
    ∙ rw (set-rooted (fill 4 (count_up 257 1)) 4 (piece 4 (count_up 257 1)), sparse_length)

compaction-done_example : Completes lists 5 (count_up 192 66) (2 ∷ 1 ∷ 4 ∷ []) started_compactor
compaction-done_example =
    compaction-done lists 5 (count_up 192 66) (2 ∷ 1 ∷ 4 ∷ []) started_compactor
      (rw (listed) sparse-Represents) started_run (omega arith, (omega arith, (omega arith, tt)))
      (omega arith)
