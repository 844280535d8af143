-- ===== src/RecordCache/Reads.antt =====
-- internal/pagestore/get_bounded.go: a read through the cache against one of the store alone.
use latticedb_go.Base.{
  ℕ, ◌≡◌, refl, ap, ◌∙◌, sym, Bool, not, ◌&&◌, Option, none, some, Bool-cases, Option-cases, inl,
  inr, ltb, length, ◌==◌, map, List, [], ◌∷◌, if◌then◌else◌,
}
use latticedb_go.Payload.Values.{Bytes}
use latticedb_go.RecordCache.{
  RecordCacheKey, RecordCache, ReadResult, value, too_large, charge_refused, put, put_then,
  through_cache, get_bounded, get_value, CacheCall, read, read_bounded, drop_all, call, session,
  new_cache,
}
use latticedb_go.RecordCache.Evict.{IsValid}
use latticedb_go.RecordCache.Laws.{missed, found, get-Looked, Put, put-Put, clear-IsValid}

module _ (stored : RecordCacheKey → Option Bytes) (charge : ℕ → Bool) where
  -- A read that knows no cache.
  abbrev pub uncached : ℕ → RecordCacheKey → ReadResult
  uncached max_bytes k = elim (stored k) [
    | none ↦ value none
    | some v ↦
        if ltb max_bytes (length v)
        then too_large
        else if charge (length v)
        then value (some v)
        else charge_refused
  ]

-- The result, and a cache that is valid.
pub record Reads (stored : RecordCacheKey → Option Bytes) (expected : ReadResult)
    (o : ReadResult × RecordCache) : Type 0 where
  pub same : o.0 ≡ expected
  pub valid : IsValid stored o.1

put_then-Reads :
    {stored : RecordCacheKey → Option Bytes} {k : RecordCacheKey} (v : Bytes) (c : RecordCache)
    (o : Option RecordCache)
    → Put stored k v c o
    → Reads stored (value (some v)) (put_then o c v)
put_then-Reads v c o p = rw p.runs (record { same = refl; valid = p.valid })

through_cache-Reads :
    {stored : RecordCacheKey → Option Bytes} (c : RecordCache) (k : RecordCacheKey) (v : Bytes)
    → IsValid stored c
    → stored k ≡ some v
    → Reads stored (value (some v)) (through_cache c k v)
through_cache-Reads {stored} c k v ok h = elim (get-Looked c k ok) [
  | missed e ↦ rw e (put_then-Reads v c (put c k v) (put-Put c k v ok h))
  | found w c' e there ok' ↦
      let agreed : some w ≡ some v = sym there ∙ h in
      rw e (record { same = ap value agreed; valid = ok' })
]

-- Whatever is cached, a bounded read returns what a read of the store alone returns: nil for a missing
-- key, the errors of the bound and of the charge, the stored bytes; and the cache stays valid.
pub get_bounded-Reads :
    (stored : RecordCacheKey → Option Bytes) (charge : ℕ → Bool) (writable : Bool) (max_bytes : ℕ)
    (k : RecordCacheKey) (c : RecordCache)
    → IsValid stored c
    → Reads stored
        (uncached stored charge max_bytes k)
        (get_bounded stored charge writable max_bytes k c)
unfolding get_bounded
get_bounded-Reads stored charge writable max_bytes k c ok = elim (Option-cases (stored k)) [
  | inl e ↦ rw (e, get_bounded, uncached) (record { same = refl; valid = ok })
  | inr (v, e) ↦
      rw (e, get_bounded, uncached)
        (elim (Bool-cases (ltb max_bytes (length v))) [
          | inl large ↦ rw large (record { same = refl; valid = ok })
          | inr fits ↦ rw fits (elim (Bool-cases (charge (length v))) [
            | inr refused ↦ rw refused (record { same = refl; valid = ok })
            | inl admitted ↦ rw admitted (elim (Bool-cases (not writable && not (c.limit == 0))) [
              | inl cached ↦ rw cached (through_cache-Reads c k v ok e)
              | inr direct ↦ rw direct (record { same = refl; valid = ok })
            ])
          ])
        ])
]

get_value-Reads :
    (stored : RecordCacheKey → Option Bytes) (writable : Bool) (k : RecordCacheKey)
    (c : RecordCache)
    → IsValid stored c
    → Reads stored (value (stored k)) (get_value stored writable k c)
unfolding get_value
get_value-Reads stored writable k c ok = elim (Bool-cases (not writable && not (c.limit == 0))) [
  | inr direct ↦ rw direct (record { same = refl; valid = ok })
  | inl cached ↦ rw cached (elim (get-Looked c k ok) [
    | found w c' e there ok' ↦ rw e (record { same = ap value (sym there); valid = ok' })
    | missed e ↦ rw e (elim (Option-cases (stored k)) [
      | inl absent ↦ rw absent (record { same = refl; valid = ok })
      | inr (v, h) ↦ rw h (put_then-Reads v c (put c k v) (put-Put c k v ok h))
    ])
  ])
]

-- Calls that know no cache.
abbrev pub uncached_call : (RecordCacheKey → Option Bytes) → CacheCall → Option ReadResult
uncached_call stored (read writable k) = some (value (stored k))
uncached_call stored (read_bounded charge writable max_bytes k) =
    some (uncached stored charge max_bytes k)
uncached_call stored drop_all = none

call-Reads :
    (stored : RecordCacheKey → Option Bytes) (q : CacheCall) (c : RecordCache)
    → IsValid stored c
    → ((call stored q c).0 ≡ uncached_call stored q) × IsValid stored (call stored q c).1
call-Reads stored (read writable k) c ok =
    let r = get_value-Reads stored writable k c ok in (ap some r.same, r.valid)
call-Reads stored (read_bounded charge writable max_bytes k) c ok =
    let r = get_bounded-Reads stored charge writable max_bytes k c ok in (ap some r.same, r.valid)
call-Reads stored drop_all c ok = (refl, clear-IsValid c)

session-from_valid :
    (stored : RecordCacheKey → Option Bytes) (qs : List CacheCall) (c : RecordCache)
    → IsValid stored c
    → session stored qs c ≡ map (uncached_call stored) qs
unfolding session
session-from_valid stored [] c ok = refl
session-from_valid stored (q ∷ qs) c ok =
    let (same, ok') = call-Reads stored q c ok in
    rw (same, session-from_valid stored qs (call stored q c).1 ok') refl

-- While each generation keeps what it stores, any reads and clears, in any order, on a cache of any limit
-- that starts empty, return what they return without a cache: nil for a missing key, the errors of the bound
-- and of the charge, the stored bytes; none meets a missing element.
pub session-uncached_call :
    (stored : RecordCacheKey → Option Bytes) (limit : ℕ) (qs : List CacheCall)
    → session stored qs (new_cache limit) ≡ map (uncached_call stored) qs
session-uncached_call stored limit qs =
    session-from_valid stored qs (new_cache limit) (clear-IsValid (new_cache limit))
