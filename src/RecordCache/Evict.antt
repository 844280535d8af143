-- ===== src/RecordCache/Evict.antt =====
-- internal/pagestore/cache.go: a valid cache, and what a lookup and the eviction of records do to it.
use latticedb_go.Base.{
  ℕ, zero, suc, ◌≤◌, ◌≡◌, refl, sym, ap, ◌∙◌, Option, none, some, List, [], ◌∷◌, Bool-cases,
  Option-cases, inl, inr, ltb, ltb→lt, ltb→le, if◌then◌else◌, length, arith,
}
use latticedb_go.Payload.Values.{Bytes}
use latticedb_go.RecordCache.{
  RecordCacheKey, same_key, CachedRecord, RecordCache, find, back, remove_element, hit, evict,
  make_room,
}
use latticedb_go.RecordCache.Elements.{
  Distinct, total, same_key_self, same_key_eq, find-remove, remove-Distinct, total-remove,
  length-remove, find-back, back-none,
}

module _ (stored : RecordCacheKey → Option Bytes) where
  -- The map and the list hold the same records, each key once, of which `used` is the size, within the
  -- limit; and each record is the one that is stored.
  pub record IsValid (c : RecordCache) : Type 0 where
    pub agrees : (j : RecordCacheKey) → c.entries j ≡ find j c.lru
    pub distinct : Distinct c.lru
    pub used_total : c.used ≡ total c.lru
    pub within : c.used ≤ c.limit
    pub coherent :
        (j : RecordCacheKey) (r : CachedRecord) → find j c.lru ≡ some r → stored j ≡ some r.value

find-front :
    (r : CachedRecord) (j : RecordCacheKey) (lru : List CachedRecord)
    → Distinct lru
    → find r.key lru ≡ some r
    → find j (r ∷ remove_element r.key lru) ≡ find j lru
unfolding find
find-front r j lru d h = elim (Bool-cases (same_key r.key j)) [
  | inl e ↦ rw e (sym h ∙ ap (λ k. find k lru) (same_key_eq r.key j e))
  | inr e ↦ rw e (find-remove r.key j lru d ∙ rw e)
]

removed_self :
    (k : RecordCacheKey) (lru : List CachedRecord)
    → Distinct lru
    → find k (remove_element k lru) ≡ none
removed_self k lru d = find-remove k k lru d ∙ rw (same_key_self k)

removed_some :
    (k j : RecordCacheKey) (lru : List CachedRecord) (s : CachedRecord)
    → Distinct lru
    → find j (remove_element k lru) ≡ some s
    → find j lru ≡ some s
removed_some k j lru s d h =
    let h' : (if same_key k j then none else find j lru) ≡ some s =
      sym (find-remove k j lru d) ∙ h in
    elim (Bool-cases (same_key k j)) [
      | inl e ↦ let e' : none ≡ some s = rw e at h' in cc
      | inr e ↦ rw e at h'
    ]

module _ (stored : RecordCacheKey → Option Bytes) (c : RecordCache) (v : IsValid stored c) where
  pub hit-IsValid : (r : CachedRecord) → find r.key c.lru ≡ some r → IsValid stored (hit c r).1
  hit-IsValid r h = record {
    agrees = λ j. v.agrees j ∙ sym (find-front r j c.lru v.distinct h);
    distinct = (removed_self r.key c.lru v.distinct, remove-Distinct r.key c.lru v.distinct);
    used_total = omega (arith, v.used_total, total-remove r.key c.lru r h);
    within = v.within;
    coherent = λ j s e. v.coherent j s (sym (find-front r j c.lru v.distinct h) ∙ e);
  }

  evict-IsValid : (r : CachedRecord) → find r.key c.lru ≡ some r → IsValid stored (evict c r)
  evict-IsValid r h = record {
    agrees = λ j. rw (v.agrees j) (sym (find-remove r.key j c.lru v.distinct));
    distinct = remove-Distinct r.key c.lru v.distinct;
    used_total = omega (arith, v.used_total, total-remove r.key c.lru r h);
    within = omega (arith, v.within);
    coherent = λ j s e. v.coherent j s (removed_some r.key j c.lru s v.distinct e);
  }

-- What the eviction loop leaves.
pub record Room (stored : RecordCacheKey → Option Bytes) (room : ℕ) (c : RecordCache)
    (o : Option RecordCache) : Type 0 where
  pub state : RecordCache
  pub runs : o ≡ some state
  pub valid : IsValid stored state
  pub fits : state.used ≤ room
  pub same_limit : state.limit ≡ c.limit
  pub absent : (j : RecordCacheKey) → c.entries j ≡ none → state.entries j ≡ none

already :
    {stored : RecordCacheKey → Option Bytes} (room : ℕ) (c : RecordCache)
    → IsValid stored c
    → c.used ≤ room
    → Room stored room c (some c)
already room c v l = record {
  state = c;
  runs = refl;
  valid = v;
  fits = l;
  same_limit = refl;
  absent = λ j h. h;
}

absent-evict :
    (c : RecordCache) (r : CachedRecord) (j : RecordCacheKey)
    → c.entries j ≡ none
    → (evict c r).entries j ≡ none
absent-evict c r j h = elim (Bool-cases (same_key r.key j)) [ inl e ↦ rw e | inr e ↦ rw e h ]

after_evict :
    {stored : RecordCacheKey → Option Bytes} (room : ℕ) (c : RecordCache) (r : CachedRecord)
    (o : Option RecordCache)
    → Room stored room (evict c r) o
    → Room stored room c o
after_evict room c r o m = record {
  state = m.state;
  runs = m.runs;
  valid = m.valid;
  fits = m.fits;
  same_limit = m.same_limit;
  absent = λ j h. m.absent j (absent-evict c r j h);
}

total_of_empty : (lru : List CachedRecord) → length lru ≤ 0 → total lru ≡ 0
total_of_empty [] h = refl
total_of_empty (r ∷ lru) h = absurd (omega arith)

pub make_room-Room :
    {stored : RecordCacheKey → Option Bytes} (fuel room : ℕ) (c : RecordCache)
    → length c.lru ≤ fuel
    → IsValid stored c
    → Room stored room c (make_room fuel room c)
unfolding make_room
make_room-Room zero room c h v = elim (Bool-cases (ltb room c.used)) [
  | inl more ↦ absurd (omega (arith, v.used_total, total_of_empty c.lru h, ltb→lt _ _ more))
  | inr enough ↦ rw enough (already room c v (ltb→le _ _ enough))
]
make_room-Room (suc fuel) room c h v = elim (Bool-cases (ltb room c.used)) [
  | inl more ↦ elim (Option-cases (back c.lru)) [
    | inl e ↦
        let nothing : total c.lru ≡ 0 = ap total (back-none c.lru e) in
        absurd (omega (arith, v.used_total, nothing, ltb→lt _ _ more))
    | inr (r, e) ↦
        let there : find r.key c.lru ≡ some r = find-back c.lru r v.distinct e in
        rw (more, e)
          (after_evict room c r _ (
            make_room-Room fuel room (evict c r) (omega (arith, length-remove r.key c.lru r there))
              (evict-IsValid _ c v r there)))
  ]
  | inr enough ↦ rw enough (already room c v (ltb→le _ _ enough))
]
