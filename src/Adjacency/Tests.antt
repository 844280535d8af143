-- ===== src/Adjacency/Tests.antt =====
-- Runs of the edge list, and the theorems at concrete lists.
use latticedb_go.Base.{
  ℕ, suc, zero, ◌+◌, ◌≡◌, ◌<◌, ◌==◌, not, refl, true, false, Option, none, List, [], ◌∷◌, ◌++◌,
  arith,
}
use latticedb_go.PagedMap
use latticedb_go.Adjacency.{
  EdgeList, ids, append, append_each, append_to, remove, remove_known, remove_known_batch,
  mark_removed, after_removal, list_chunks, keep, mem, is_inline, is_removed, live_count,
}
use latticedb_go.Adjacency.Pieces.{Distinct}
use latticedb_go.Adjacency.Remove.{
  Represents, observe-Represents, append-Represents, remove-Represents, remove_known-Represents,
  append_each-Represents,
}
use latticedb_go.Adjacency.Batch.{without, remove_known_batch-Represents}

abbrev count_up : ℕ → ℕ → List ℕ
count_up zero from = []
count_up (suc n) from = from ∷ count_up n (from + 1)

-- 66 ids lie in two chunks.
long_run : is_inline (append_each none (count_up 66 1)) ≡ false
unfolding append append_to PagedMap.set PagedMap.fork_set PagedMap.get PagedMap.page_by_key
    PagedMap.find_high PagedMap.store_page PagedMap.store_high
long_run = refl

removal_run : ids (remove (append_each none (count_up 66 1)) 65) ≡ count_up 64 1 ++ 66 ∷ []
unfolding ids remove remove_known mark_removed after_removal list_chunks append append_to
    PagedMap.has PagedMap.set PagedMap.fork_set PagedMap.get PagedMap.page_by_key PagedMap.find_high
    PagedMap.store_page PagedMap.store_high
removal_run = refl

low : (x n from : ℕ) → x < from → mem x (count_up n from) ≡ false
low x zero from h = refl
low x (suc n) from h = ground (arith, low x n (from + 1) (omega arith))

count_up-Distinct : (n from : ℕ) → Distinct (count_up n from)
count_up-Distinct zero from = tt
count_up-Distinct (suc n) from =
    (low from n (from + 1) (omega arith), count_up-Distinct n (from + 1))

abbrev long : Option EdgeList
long = append_each none (count_up 66 1)

long-Represents : Represents long (count_up 66 1)
long-Represents =
    append_each-Represents none [] (count_up 66 1) refl (λ id. refl) (count_up-Distinct 66 1)

observe-Represents_example : (ids long ≡ count_up 66 1) × (live_count long ≡ 66)
observe-Represents_example = observe-Represents long (count_up 66 1) long-Represents

not_removed : is_removed 67 long ≡ false
unfolding append append_to PagedMap.has PagedMap.set PagedMap.fork_set PagedMap.get
    PagedMap.page_by_key PagedMap.find_high PagedMap.store_page PagedMap.store_high
not_removed = refl

append-Represents_example : Represents (append long 67) (count_up 66 1 ++ 67 ∷ [])
append-Represents_example =
    append-Represents long (count_up 66 1) 67 long-Represents not_removed refl

remove-Represents_example : Represents (remove long 65) (keep (λ x. not (x == 65)) (count_up 66 1))
remove-Represents_example = remove-Represents long (count_up 66 1) 65 long-Represents

remove_known-Represents_example :
    Represents (remove_known long 65) (keep (λ x. not (x == 65)) (count_up 66 1))
remove_known-Represents_example =
    remove_known-Represents long (count_up 66 1) 65 long-Represents refl

present : (x : ℕ) → mem x (1 ∷ 65 ∷ 1 ∷ []) ≡ true → mem x (count_up 66 1) ≡ true
present x h = ground arith

remove_known_batch-Represents_example :
    Represents
      (remove_known_batch long (1 ∷ 65 ∷ 1 ∷ []))
      (without (1 ∷ 65 ∷ 1 ∷ []) (count_up 66 1))
remove_known_batch-Represents_example =
    remove_known_batch-Represents long (count_up 66 1) (1 ∷ 65 ∷ 1 ∷ []) long-Represents present
