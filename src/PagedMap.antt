-- ===== src/PagedMap.antt =====
-- internal/store/paged_map.go: the radix table for 64-bit ids. A fixed-size array is a function of its
-- index, a Go map the list of its entries; a slot that is not occupied holds `none`. Maps are values
-- here: what Fork and CloneShardOnce share and copy is not seen, and both leave the entries alone.
pub mod Delete
pub mod Lookup
pub mod Removal
pub mod Full
mod Tests
use latticedb_go.Base.{
  ℕ, zero, suc, ◌+◌, ◌-◌, ◌*◌, ◌/◌, ◌%◌, ◌&&◌, ◌||◌, Bool, true, false, not, Option, none, some,
  List, [], ◌∷◌, ◌++◌, ltb, ◌==◌, if◌then◌else◌, length,
}

abbrev pub paged_map_fanout : ℕ
paged_map_fanout = 128

abbrev pub paged_map_slots : ℕ
paged_map_slots = 64

-- An array of pointers or of slots.
abbrev pub Array : Type 0 → Type 0
Array A = ℕ → Option A

abbrev pub new_array : {A : Type 0} → Array A
new_array index = none

-- `new(T)` for a nil pointer.
abbrev pub array_or_new : {A : Type 0} → Option (Array A) → Array A
array_or_new none = new_array
array_or_new (some array) = array

abbrev pub is_nil : {A : Type 0} → Option A → Bool
is_nil none = true
is_nil (some x) = false

abbrev pub store_at : {A : Type 0} → Array A → ℕ → Option A → Array A
store_at array index x i = if i == index then x else array i

abbrev pub chain : {A B : Type 0} → Option A → (A → Option B) → Option B
chain none next = none
chain (some x) next = next x

abbrev pub ValuePage : Type 0 → Type 0
ValuePage V = Array V

abbrev pub PageBucket : Type 0 → Type 0
PageBucket V = Array (ValuePage V)

abbrev pub PageRoot : Type 0 → Type 0
PageRoot V = Array (PageBucket V)

-- `small_active` is the part of the array below `smallActiveLen`; `none` is `pagedMapActiveOverflow`.
-- `roots` is `none` when the Go map is nil.
pub record PagedMap (V : Type 0) : Type 0 where
  pub root0 : Option (PageRoot V)
  pub roots : Option (List (ℕ × PageRoot V))
  pub length : ℕ
  pub small_active : Option (List ℕ)

module _ {V : Type 0} where
  abbrev pub new_paged_map : PagedMap V
  new_paged_map = record { root0 = none; roots = none; length = 0; small_active = some [] }

  abbrev pub find_root : ℕ → List (ℕ × PageRoot V) → Option (PageRoot V)
  find_root high [] = none
  find_root high ((h, root) ∷ roots) = if h == high then some root else find_root high roots

  abbrev pub store_root : ℕ → PageRoot V → List (ℕ × PageRoot V) → List (ℕ × PageRoot V)
  store_root high root [] = (high, root) ∷ []
  store_root high root ((h, r) ∷ roots) =
      if h == high then (high, root) ∷ roots else (h, r) ∷ store_root high root roots

  abbrev pub drop_root : ℕ → List (ℕ × PageRoot V) → List (ℕ × PageRoot V)
  drop_root high [] = []
  drop_root high ((h, r) ∷ roots) =
      if h == high then drop_root high roots else (h, r) ∷ drop_root high roots

  abbrev pub entries_of : Option (List (ℕ × PageRoot V)) → List (ℕ × PageRoot V)
  entries_of none = []
  entries_of (some roots) = roots

-- `pageIndexes`
abbrev pub high_of : ℕ → ℕ
high_of key = key / 16384

abbrev pub bucket_of : ℕ → ℕ
bucket_of key = key / 128 % 256 % 128

abbrev pub shard_of : ℕ → ℕ
shard_of key = key % 256 % 128

abbrev pub key_of : ℕ → ℕ
key_of id = id / 64

abbrev pub slot_of : ℕ → ℕ
slot_of id = id % 64

-- `for ... range array { if x != nil { return false } }; return true`
abbrev pub empty_below : {A : Type 0} → ℕ → Array A → Bool
empty_below zero array = true
empty_below (suc n) array =
    let rest = empty_below n array in elim (array n) [ none ↦ rest | some x ↦ false ]

-- `addActive`
abbrev pub add_active : ℕ → Option (List ℕ) → Option (List ℕ)
add_active key none = none
add_active key (some keys) = if ltb (length keys) 2 then some (keys ++ key ∷ []) else none

module _ {V : Type 0} where
  unfoldable pub find_high : PagedMap V → ℕ → Option (PageRoot V)
  find_high m high = if high == 0 then m.root0 else find_root high (entries_of m.roots)

  unfoldable pub page_by_key : PagedMap V → ℕ → Option (ValuePage V)
  page_by_key m key =
      chain (chain (find_high m (high_of key)) (λ root. root (bucket_of key)))
        (λ bucket. bucket (shard_of key))

  -- `Get`, and `Has` as whether there is a value.
  unfoldable pub get : PagedMap V → ℕ → Option V
  get m id = chain (page_by_key m (key_of id)) (λ page. page (slot_of id))

  unfoldable pub has : PagedMap V → ℕ → Bool
  has m id = not (is_nil (get m id))

  unfoldable pub store_high : PagedMap V → ℕ → PageRoot V → PagedMap V
  store_high m high root =
      if high == 0
      then record m { root0 = some root }
      else record m { roots = some (store_root high root (entries_of m.roots)) }

  -- The page's pointers, created where they are nil.
  unfoldable pub store_page : PagedMap V → ℕ → ValuePage V → PagedMap V
  unfolding find_high store_high
  store_page m key page =
      let root = array_or_new (find_high m (high_of key)) in
      let bucket = array_or_new (root (bucket_of key)) in
      store_high m (high_of key)
        (store_at root (bucket_of key) (some (store_at bucket (shard_of key) (some page))))

  abbrev pub active_once : Option (ValuePage V) → ℕ → Option (List ℕ) → Option (List ℕ)
  active_once none key active = add_active key active
  active_once (some page) key active = active

  -- The count of entries when one more slot is written.
  abbrev pub longer : Option V → ℕ → ℕ
  longer none n = n + 1
  longer (some x) n = n

  unfoldable pub set : PagedMap V → ℕ → V → PagedMap V
  unfolding page_by_key store_page
  set m id value =
      let found = page_by_key m (key_of id) in
      let page = array_or_new found in
      let stored = store_page m (key_of id) (store_at page (slot_of id) (some value)) in
      record stored {
        length = longer (page (slot_of id)) m.length;
        small_active = active_once found (key_of id) m.small_active;
      }

  -- `if page.occupied == 0 { result.addActive(key) }`, in a slot that was empty.
  abbrev pub active_if_empty : ValuePage V → Option V → ℕ → Option (List ℕ) → Option (List ℕ)
  active_if_empty page none key active =
      if empty_below paged_map_slots page then add_active key active else active
  active_if_empty page (some x) key active = active

  unfoldable pub fork_set : PagedMap V → ℕ → V → PagedMap V
  unfolding page_by_key store_page
  fork_set m id value =
      let page = array_or_new (page_by_key m (key_of id)) in
      let stored = store_page m (key_of id) (store_at page (slot_of id) (some value)) in
      record stored {
        length = longer (page (slot_of id)) m.length;
        small_active = active_if_empty page (page (slot_of id)) (key_of id) m.small_active;
      }
