-- ===== src/RecordCache/Laws.antt =====
-- internal/pagestore/cache.go: the state of the cache, through `get`, `put` and `clear`.
use latticedb_go.Base.{
  ℕ, ◌+◌, ◌-◌, ◌≤◌, ◌≡◌, refl, sym, ap, ◌∙◌, true, false, Option, none, some, List, ◌∷◌, Bool-cases,
  Option-cases, inl, inr, ◌⊎◌, ◌==◌, ==_iff, ltb, ltb→lt, ltb→le, length, arith,
}
use latticedb_go.Payload.Values.{Bytes}
use latticedb_go.RecordCache.{
  RecordCacheKey, same_key, CachedRecord, RecordCache, find, hit, get, entry_size, insert,
  put_sized, put, clear,
}
use latticedb_go.RecordCache.Elements.{same_key_self, same_key_eq, find-key}
use latticedb_go.RecordCache.Evict.{IsValid, hit-IsValid, make_room-Room}

find_insert :
    (r s : CachedRecord) (j : RecordCacheKey) (lru : List CachedRecord)
    → find j (r ∷ lru) ≡ some s
    → ((same_key r.key j ≡ true) × (r ≡ s)) ⊎ (find j lru ≡ some s)
unfolding find
find_insert r s j lru h = elim (Bool-cases (same_key r.key j)) [
  | inl e ↦ let same : some r ≡ some s = rw e at h in inl (e, cc)
  | inr e ↦ inr (rw e at h)
]

insert-IsValid :
    {stored : RecordCacheKey → Option Bytes} (k : RecordCacheKey) (value : Bytes) (size : ℕ)
    (c : RecordCache)
    → IsValid stored c
    → c.entries k ≡ none
    → c.used + size ≤ c.limit
    → stored k ≡ some value
    → IsValid stored (insert k value size c)
unfolding find
insert-IsValid {stored} k value size c v free fits there = record {
  agrees = λ j. rw (v.agrees j);
  distinct = (sym (v.agrees k) ∙ free, v.distinct);
  used_total = omega (arith, v.used_total);
  within = fits;
  coherent = λ j s e.
      elim (find_insert (record { key = k; value = value; size = size }) s j c.lru e) [
        | inl (same, r) ↦
            ap stored (sym (same_key_eq k j same))
            ∙ there
            ∙ ap (λ (x : CachedRecord). some x.value) r
        | inr old ↦ v.coherent j s old
      ];
}

get_found :
    (c : RecordCache) (k : RecordCacheKey) (r : CachedRecord)
    → 1 ≤ c.limit
    → c.entries k ≡ some r
    → get c k ≡ hit c r
unfolding get
get_found c k r h e = let positive : (c.limit == 0) ≡ false = ground arith in rw (positive, e)

get_missing : (c : RecordCache) (k : RecordCacheKey) → c.entries k ≡ none → get c k ≡ (none, c)
unfolding get
get_missing c k e = elim (Bool-cases (c.limit == 0)) [ inl z ↦ rw z | inr z ↦ rw (z, e) ]

get_off : (c : RecordCache) (k : RecordCacheKey) → (c.limit == 0) ≡ true → get c k ≡ (none, c)
unfolding get
get_off c k e = rw e

-- What a lookup returns: nothing, and the cache as it was; or the value that is stored, and a cache that is
-- still valid.
pub data Looked (stored : RecordCacheKey → Option Bytes) (k : RecordCacheKey) (c : RecordCache)
    : Option Bytes × RecordCache → Type 0 where
  missed : {o : Option Bytes × RecordCache} → o ≡ (none, c) → Looked stored k c o
  found :
      {o : Option Bytes × RecordCache} (w : Bytes) (c' : RecordCache)
      → o ≡ (some w, c')
      → stored k ≡ some w
      → IsValid stored c'
      → Looked stored k c o

pub get-Looked :
    {stored : RecordCacheKey → Option Bytes} (c : RecordCache) (k : RecordCacheKey)
    → IsValid stored c
    → Looked stored k c (get c k)
get-Looked {stored} c k v = elim (Bool-cases (c.limit == 0)) [
  | inl z ↦ missed (get_off c k z)
  | inr z ↦ elim (Option-cases (c.entries k)) [
    | inl e ↦ missed (get_missing c k e)
    | inr (r, e) ↦
        let there : find k c.lru ≡ some r = sym (v.agrees k) ∙ e in
        let named : find r.key c.lru ≡ some r =
          ap (λ j. find j c.lru) (find-key k c.lru r there) ∙ there in
        found r.value (hit c r).1 (get_found c k r (ground arith) e) (v.coherent k r there)
          (hit-IsValid stored c v r named)
  ]
]

-- What a write leaves: a valid cache that, where the record fits into its limit, has the value.
pub record Put (stored : RecordCacheKey → Option Bytes) (k : RecordCacheKey) (value : Bytes)
    (c : RecordCache) (o : Option RecordCache) : Type 0 where
  pub state : RecordCache
  pub runs : o ≡ some state
  pub valid : IsValid stored state
  pub cached : entry_size k value ≤ c.limit → (get state k).0 ≡ some value

write_unchanged :
    {stored : RecordCacheKey → Option Bytes} (k : RecordCacheKey) (value : Bytes) (c : RecordCache)
    → IsValid stored c
    → (entry_size k value ≤ c.limit → (get c k).0 ≡ some value)
    → Put stored k value c (some c)
write_unchanged k value c v h = record { state = c; runs = refl; valid = v; cached = h }

inserted :
    {stored : RecordCacheKey → Option Bytes} (k : RecordCacheKey) (value : Bytes)
    (c state : RecordCache)
    → IsValid stored state
    → state.entries k ≡ none
    → state.used + entry_size k value ≤ state.limit
    → state.limit ≡ c.limit
    → stored k ≡ some value
    → Put stored k value c (some (insert k value (entry_size k value) state))
inserted k value c state v free fits same h = record {
  state = insert k value (entry_size k value) state;
  runs = refl;
  valid = insert-IsValid k value (entry_size k value) state v free fits h;
  cached = λ l.
      ap (λ (o : Option Bytes × RecordCache). o.0)
        (get_found (insert k value (entry_size k value) state) k
          (record { key = k; value = value; size = entry_size k value }) (omega (arith, l, same))
          (rw (same_key_self k)));
}

put_sized-Put :
    {stored : RecordCacheKey → Option Bytes} (c : RecordCache) (k : RecordCacheKey) (value : Bytes)
    → IsValid stored c
    → stored k ≡ some value
    → Put stored k value c (put_sized c k value (entry_size k value))
put_sized-Put {stored} c k value v h = elim (Bool-cases (ltb c.limit (entry_size k value))) [
  | inl large ↦
      rw large (write_unchanged k value c v (λ l. absurd (omega (arith, ltb→lt _ _ large))))
  | inr small ↦ elim (Option-cases (c.entries k)) [
    | inr (r, e) ↦
        rw (small, e)
          (write_unchanged k value c v (λ l.
            ap (λ (o : Option Bytes × RecordCache). o.0) (get_found c k r (omega (arith, l)) e)
            ∙ sym (v.coherent k r (sym (v.agrees k) ∙ e))
            ∙ h))
    | inl e ↦
        let m = make_room-Room (length c.lru) (c.limit - entry_size k value) c (omega arith) v in
        rw (small, e, m.runs)
          (inserted k value c m.state m.valid (m.absent k e)
            (omega (arith, m.fits, m.same_limit, ltb→le _ _ small)) (m.same_limit) h)
  ]
]

-- A write of the value that is stored under a key never meets an element that is not there. It leaves a
-- valid cache, and where the record fits into the limit, the next lookup returns the value.
pub put-Put :
    {stored : RecordCacheKey → Option Bytes} (c : RecordCache) (k : RecordCacheKey) (value : Bytes)
    → IsValid stored c
    → stored k ≡ some value
    → Put stored k value c (put c k value)
unfolding put
put-Put c k value v h = elim (Bool-cases (c.limit == 0)) [
  | inl z ↦
      rw z (write_unchanged k value c v (λ l. absurd (omega (arith, l, (==_iff c.limit 0).0 z))))
  | inr z ↦ rw z (put_sized-Put c k value v h)
]

pub clear-IsValid :
    {stored : RecordCacheKey → Option Bytes} (c : RecordCache) → IsValid stored (clear c)
unfolding find
clear-IsValid c = record {
  agrees = λ j. refl;
  distinct = tt;
  used_total = refl;
  within = omega arith;
  coherent = λ j r h. cc;
}
