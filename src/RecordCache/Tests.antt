-- ===== src/RecordCache/Tests.antt =====
-- internal/pagestore/cache.go, internal/pagestore/get_bounded.go: runs, and the theorems at a cache that
-- holds one record and has room for one.
use latticedb_go.Base.{
  ℕ, arith, ◌≡◌, refl, sym, true, false, Option, none, some, List, [], ◌∷◌, Bool-cases, inl, inr,
  ltb,
}
use latticedb_go.Payload.Values.{Bytes, same_bytes}
use latticedb_go.RecordCache.{
  RecordCacheKey, same_key, CachedRecord, RecordCache, value, too_large, charge_refused, find, put,
  get_bounded, session, read, read_bounded, new_cache,
}
use latticedb_go.RecordCache.Elements.{total, same_key_eq}
use latticedb_go.RecordCache.Evict.{IsValid}
use latticedb_go.RecordCache.Laws.{Put, put-Put}
use latticedb_go.RecordCache.Reads.{session-uncached_call}

abbrev test_key : ℕ → RecordCacheKey
test_key n = record { generation = 4; bucket = 110 ∷ []; key = n ∷ [] }

-- Under each key the bytes of the key are stored.
abbrev own_key : RecordCacheKey → Option Bytes
own_key k = some k.key

abbrev record_of : ℕ → CachedRecord
record_of n = record { key = test_key n; value = n ∷ []; size = 195 }

abbrev cache_of : List CachedRecord → RecordCache
cache_of lru = record { limit = 300; used = total lru; entries = λ j. find j lru; lru = lru }

abbrev one_record : RecordCache
one_record = cache_of (record_of 1 ∷ [])

only_own :
    (j : RecordCacheKey) (r : CachedRecord)
    → find j (record_of 1 ∷ []) ≡ some r
    → own_key j ≡ some r.value
unfolding find
only_own j r = elim (Bool-cases (same_key (test_key 1) j)) [
  | inl e ↦ rw e (λ h.
      let same : record_of 1 ≡ r = cc in rw (sym (same_key_eq (test_key 1) j e), sym same) refl)
  | inr e ↦ rw e (λ h. cc)
]

one_record-IsValid : IsValid own_key one_record
unfolding find
one_record-IsValid = record {
  agrees = λ j. refl;
  distinct = (refl, tt);
  used_total = refl;
  within = omega arith;
  coherent = only_own;
}

abbrev held : Option RecordCache → List CachedRecord
held none = []
held (some c) = c.lru

least_recent_leaves : held (put one_record (test_key 2) (2 ∷ [])) ≡ record_of 2 ∷ []
unfolding put find same_bytes
least_recent_leaves = refl

larger_than_the_limit :
    held (put (record one_record { limit = 196 }) (test_key 2) (2 ∷ (0 ∷ (0 ∷ []))))
    ≡ record_of 1 ∷ []
unfolding put find same_bytes
larger_than_the_limit = refl

hit_is_returned :
    (get_bounded own_key (λ n. true) false 10 (test_key 1) one_record).0 ≡ value (some (1 ∷ []))
unfolding get_bounded find same_bytes
hit_is_returned = refl

bound_of_a_hit : (get_bounded own_key (λ n. true) false 0 (test_key 1) one_record).0 ≡ too_large
unfolding get_bounded
bound_of_a_hit = refl

refused_charge :
    (get_bounded own_key (λ n. ltb n 1) false 10 (test_key 1) one_record).0 ≡ charge_refused
unfolding get_bounded
refused_charge = refl

put-Put_example :
    Put own_key (test_key 2) (2 ∷ []) one_record (put one_record (test_key 2) (2 ∷ []))
put-Put_example = put-Put one_record (test_key 2) (2 ∷ []) one_record-IsValid refl

session-uncached_call_example :
    session own_key
      (read false (test_key 1)
        ∷ (read_bounded (λ n. true) false 0 (test_key 1) ∷ (read false (test_key 2) ∷ [])))
      (new_cache 300)
    ≡ some (value (some (1 ∷ []))) ∷ (some too_large ∷ (some (value (some (2 ∷ []))) ∷ []))
session-uncached_call_example = session-uncached_call own_key 300 (
    read false (test_key 1)
    ∷ (read_bounded (λ n. true) false 0 (test_key 1) ∷ (read false (test_key 2) ∷ [])))
