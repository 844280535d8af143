-- ===== src/PagedMap/Delete.antt =====
-- internal/store/paged_map.go: Delete, with the pointers that it clears.
use latticedb_go.Base.{
  ℕ, Bool, true, false, zero, suc, ◌+◌, ◌-◌, ◌*◌, Option, none, some, List, [], ◌∷◌, ◌++◌, ltb,
  ◌==◌, if◌then◌else◌, length,
}
use latticedb_go.PagedMap.{
  ValuePage, PageBucket, PageRoot, PagedMap, array_or_new, store_at, find_high, store_high,
  drop_root, entries_of, empty_below, paged_map_fanout, paged_map_slots, high_of, bucket_of,
  shard_of, key_of, slot_of, page_by_key, store_page,
}

-- `removeActive`
abbrev pub remove_key : ℕ → List ℕ → List ℕ
remove_key key [] = []
remove_key key (k ∷ keys) = let rest = remove_key key keys in if k == key then keys else k ∷ rest

abbrev pub remove_active : ℕ → Option (List ℕ) → Option (List ℕ)
remove_active key none = none
remove_active key (some keys) = some (remove_key key keys)

module _ {V : Type 0} where
  -- `root[bucket][shard] = nil`, and the bucket and the root when that leaves them empty.
  unfoldable pub drop_high : PagedMap V → ℕ → PagedMap V
  drop_high m high =
      if high == 0
      then record m { root0 = none }
      else record m { roots = some (drop_root high (entries_of m.roots)) }

  unfoldable pub drop_page : PagedMap V → ℕ → PagedMap V
  unfolding find_high store_high drop_high
  drop_page m key =
      let root = array_or_new (find_high m (high_of key)) in
      let bucket = store_at (array_or_new (root (bucket_of key))) (shard_of key) none in
      let kept = if empty_below paged_map_fanout bucket then none else some bucket in
      let root = store_at root (bucket_of key) kept in
      if empty_below paged_map_fanout root
      then drop_high m (high_of key)
      else store_high m (high_of key) root

  -- The keys of a root's pages, by ascending bucket and shard.
  abbrev pub keys_of_bucket : ℕ → ℕ → PageBucket V → List ℕ
  keys_of_bucket base zero pages = []
  keys_of_bucket base (suc n) pages =
      let rest = keys_of_bucket base n pages in
      elim (pages n) [ none ↦ rest | some page ↦ rest ++ (base * 128 + n) ∷ [] ]

  abbrev pub keys_of_root : ℕ → ℕ → PageRoot V → List ℕ
  keys_of_root high zero root = []
  keys_of_root high (suc n) root =
      let rest = keys_of_root high n root in
      elim (root n) [
        | none ↦ rest
        | some pages ↦ rest ++ keys_of_bucket (high * 128 + n) paged_map_fanout pages
      ]

  abbrev pub keys_of_roots : List (ℕ × PageRoot V) → List ℕ
  keys_of_roots [] = []
  keys_of_roots ((high, root) ∷ roots) =
      keys_of_root high paged_map_fanout root ++ keys_of_roots roots

  abbrev pub page_keys : PagedMap V → List ℕ
  page_keys m =
      elim m.root0 [ none ↦ [] | some root ↦ keys_of_root 0 paged_map_fanout root ]
      ++ keys_of_roots (entries_of m.roots)

-- `if count == len(active) && active[1] < active[0]`, after a scan that found at most two pages.
abbrev pub sort_active : List ℕ → List ℕ
sort_active (a ∷ b ∷ []) = if ltb b a then b ∷ a ∷ [] else a ∷ b ∷ []
sort_active keys = keys

-- The pages' keys once more, when there are at most two of them.
abbrev pub restored_active : ℕ → List ℕ → Option (List ℕ) → Option (List ℕ)
restored_active count keys (some active) = some active
restored_active count keys none =
    if ltb (2 * paged_map_slots) count
    then none
    else if ltb 2 (length keys)
    then none
    else some (sort_active keys)

module _ {V : Type 0} where
  -- `restoreSmallActive`
  unfoldable pub restore_small_active : PagedMap V → PagedMap V
  restore_small_active m = record m {
    small_active = restored_active m.length (page_keys m) m.small_active;
  }

  -- What follows `page.occupied &^= mask`, by what is left of the page.
  abbrev pub store_rest : PagedMap V → ℕ → ValuePage V → Bool → PagedMap V
  store_rest m key page false = store_page m key page
  store_rest m key page true =
      restore_small_active
        (drop_page (record m { small_active = remove_active key m.small_active }) key)

  abbrev pub clear_slot : PagedMap V → ℕ → ValuePage V → Option V → PagedMap V
  clear_slot m id page none = m
  clear_slot m id page (some value) =
      let page = store_at page (slot_of id) none in
      store_rest (record m { length = m.length - 1 }) (key_of id) page
        (empty_below paged_map_slots page)

  abbrev pub delete_found : PagedMap V → ℕ → Option (ValuePage V) → PagedMap V
  delete_found m id none = m
  delete_found m id (some page) = clear_slot m id page (page (slot_of id))

  unfoldable pub delete : PagedMap V → ℕ → PagedMap V
  delete m id = delete_found m id (page_by_key m (key_of id))
