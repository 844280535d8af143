-- ===== src/RecordCache.antt =====
-- internal/pagestore/cache.go: the cache of records, and the reads through it in pagestore.go and
-- get_bounded.go. A Go map is a function; an element of the list is named by the key of its record, since
-- a key has one element at most. Locks have no counterpart, and a clone is the value.
pub mod Elements
pub mod Evict
pub mod Laws
pub mod Reads
mod Tests
use latticedb_go.Base.{
  ℕ, zero, suc, ◌+◌, ◌-◌, Bool, true, false, not, ◌&&◌, ◌||◌, Option, none, some, List, [], ◌∷◌,
  ltb, ◌==◌, if◌then◌else◌, length,
}
use latticedb_go.Payload.Values.{Bytes, same_bytes}

pub record RecordCacheKey : Type 0 where
  pub generation : ℕ
  pub bucket : Bytes
  pub key : Bytes

abbrev pub same_key : RecordCacheKey → RecordCacheKey → Bool
same_key k j =
    k.generation == j.generation && (same_bytes k.bucket j.bucket && same_bytes k.key j.key)

pub record CachedRecord : Type 0 where
  pub key : RecordCacheKey
  pub value : Bytes
  pub size : ℕ

pub record RecordCache : Type 0 where
  pub limit : ℕ
  pub used : ℕ
  pub entries : RecordCacheKey → Option CachedRecord
  -- Front first.
  pub lru : List CachedRecord

-- `list.Element` of a key, `lru.Back()` and `lru.Remove(e)`.
unfoldable pub find : RecordCacheKey → List CachedRecord → Option CachedRecord
find k [] = none
find k (r ∷ lru) = let rest = find k lru in if same_key r.key k then some r else rest

unfoldable pub back : List CachedRecord → Option CachedRecord
back [] = none
back (r ∷ []) = some r
back (r ∷ (s ∷ lru)) = back (s ∷ lru)

unfoldable pub remove_element : RecordCacheKey → List CachedRecord → List CachedRecord
remove_element k [] = []
remove_element k (r ∷ lru) =
    let rest = remove_element k lru in if same_key r.key k then lru else r ∷ rest

-- `get`
abbrev pub hit : RecordCache → CachedRecord → Option Bytes × RecordCache
hit c r = (some r.value, record c { lru = r ∷ remove_element r.key c.lru })

unfoldable pub get : RecordCache → RecordCacheKey → Option Bytes × RecordCache
unfolding remove_element
get c k =
    if c.limit == 0 then (none, c) else elim (c.entries k) [ none ↦ (none, c) | some r ↦ hit c r ]

-- `delete(c.entries, r.key)`, `c.used -= r.size`, `c.lru.Remove(e)`
abbrev pub evict : RecordCache → CachedRecord → RecordCache
evict c r = record c {
  entries = λ j. if same_key r.key j then none else c.entries j;
  used = c.used - r.size;
  lru = remove_element r.key c.lru;
}

-- `for c.used > c.limit-size`, on fuel; `none` is the fault of an element that is not there.
unfoldable pub make_room : ℕ → ℕ → RecordCache → Option RecordCache
unfolding back remove_element
make_room zero room c = if ltb room c.used then none else some c
make_room (suc fuel) room c =
    let rest : Option RecordCache = elim (back c.lru) [
      | none ↦ none
      | some r ↦ make_room fuel room (evict c r)
    ] in
    if ltb room c.used then rest else some c

abbrev pub entry_size : RecordCacheKey → Bytes → ℕ
entry_size k value = length k.bucket + length k.key + length value + 192

abbrev pub insert : RecordCacheKey → Bytes → ℕ → RecordCache → RecordCache
insert k value size c =
    let r : CachedRecord = record { key = k; value = value; size = size } in
    record c {
      entries = λ j. if same_key k j then some r else c.entries j;
      lru = r ∷ c.lru;
      used = c.used + size;
    }

abbrev pub put_sized : RecordCache → RecordCacheKey → Bytes → ℕ → Option RecordCache
put_sized c k value size = if ltb c.limit size then some c else elim (c.entries k) [
  | some r ↦ some c
  | none ↦ elim (make_room (length c.lru) (c.limit - size) c) [
    | none ↦ none
    | some c' ↦ some (insert k value size c')
  ]
]

-- `put`, of a value that is not nil.
unfoldable pub put : RecordCache → RecordCacheKey → Bytes → Option RecordCache
unfolding make_room
put c k value = if c.limit == 0 then some c else put_sized c k value (entry_size k value)

-- `clear`
abbrev pub clear : RecordCache → RecordCache
clear c = record c { entries = λ j. none; lru = []; used = 0 }

-- `recordCache{limit: opts.CacheBytes}`
abbrev pub new_cache : ℕ → RecordCache
new_cache limit = record { limit = limit; used = 0; entries = λ j. none; lru = [] }

-- What a read returns: nil for a missing bucket or key, a copy of the value, or an error. The charge of
-- a size is a callback, which accepts it or does not.
pub data ReadResult : Type 0 where
  value : Option Bytes → ReadResult
  too_large charge_refused fault : ReadResult

abbrev pub put_then : Option RecordCache → RecordCache → Bytes → ReadResult × RecordCache
put_then none c v = (fault, c)
put_then (some c') c v = (value (some v), c')

-- The last statements of `GetBoundedWithCharge`, on a value that is admitted.
abbrev pub after_get :
    RecordCacheKey → Bytes → Option Bytes × RecordCache → ReadResult × RecordCache
after_get k v (none, c) = put_then (put c k v) c v
after_get k v (some w, c) = (value (some w), c)

abbrev pub through_cache : RecordCache → RecordCacheKey → Bytes → ReadResult × RecordCache
through_cache c k v = after_get k v (get c k)

-- The last statements of `Get`, where a missing value is nil.
abbrev pub put_stored : RecordCacheKey → Option Bytes → RecordCache → ReadResult × RecordCache
put_stored k none c = (value none, c)
put_stored k (some v) c = put_then (put c k v) c v

-- The calls that read through a cache; `clear` returns nothing.
pub data CacheCall : Type 0 where
  read : Bool → RecordCacheKey → CacheCall
  read_bounded : (ℕ → Bool) → Bool → ℕ → RecordCacheKey → CacheCall
  drop_all : CacheCall

module _ (stored : RecordCacheKey → Option Bytes) where
  -- `GetBoundedWithCharge`, on an open transaction.
  unfoldable pub get_bounded :
      (ℕ → Bool) → Bool → ℕ → RecordCacheKey → RecordCache → ReadResult × RecordCache
  unfolding get put
  get_bounded charge writable max_bytes k c = elim (stored k) [
    | none ↦ (value none, c)
    | some v ↦
        if ltb max_bytes (length v)
        then (too_large, c)
        else if not (charge (length v))
        then (charge_refused, c)
        else if not writable && not (c.limit == 0)
        then through_cache c k v
        else (value (some v), c)
  ]

  -- `Get`, on an open transaction.
  abbrev pub then_stored : RecordCacheKey → Option Bytes × RecordCache → ReadResult × RecordCache
  then_stored k (some w, c) = (value (some w), c)
  then_stored k (none, c) = put_stored k (stored k) c

  unfoldable pub get_value : Bool → RecordCacheKey → RecordCache → ReadResult × RecordCache
  unfolding get put
  get_value writable k c =
      if not writable && not (c.limit == 0) then then_stored k (get c k) else (value (stored k), c)

  abbrev pub call : CacheCall → RecordCache → Option ReadResult × RecordCache
  call (read writable k) c = let (r, c') = get_value writable k c in (some r, c')
  call (read_bounded charge writable max_bytes k) c =
      let (r, c') = get_bounded charge writable max_bytes k c in (some r, c')
  call drop_all c = (none, clear c)

  unfoldable pub session : List CacheCall → RecordCache → List (Option ReadResult)
  session [] c = []
  session (q ∷ qs) c = let (r, c') = call q c in r ∷ session qs c'
