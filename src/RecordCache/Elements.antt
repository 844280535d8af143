-- ===== src/RecordCache/Elements.antt =====
-- internal/pagestore/cache.go: the list of elements, each key once.
use latticedb_go.Base.{
  ℕ, ◌+◌, ◌≡◌, refl, sym, ap, ◌∙◌, Bool, true, false, ◌&&◌, none, some, List, [], ◌∷◌, Bool-cases,
  inl, inr, ==_iff, ==_self, if◌then◌else◌, length, arith,
}
use latticedb_go.Stream.NameMap.{same_bytes_self, same_bytes_eq}
use latticedb_go.RecordCache.{RecordCacheKey, same_key, CachedRecord, find, back, remove_element}

pub same_key_self : (k : RecordCacheKey) → same_key k k ≡ true
same_key_self k = rw (==_self k.generation, same_bytes_self k.bucket, same_bytes_self k.key)

and_true : (a b : Bool) → (a && b) ≡ true → (a ≡ true) × (b ≡ true)
and_true true true h = (refl, refl)
and_true true false h = cc
and_true false b h = cc

pub same_key_eq : (k j : RecordCacheKey) → same_key k j ≡ true → k ≡ j
same_key_eq k j h =
    let (g, rest) = and_true _ _ h in
    let (b, n) = and_true _ _ rest in
    let g' : k.generation ≡ j.generation = (==_iff _ _).0 g in
    let b' : k.bucket ≡ j.bucket = same_bytes_eq _ _ b in
    let n' : k.key ≡ j.key = same_bytes_eq _ _ n in cc

abbrev pub Distinct : List CachedRecord → Type 0
Distinct [] = Unit
Distinct (r ∷ lru) = (find r.key lru ≡ none) × Distinct lru

abbrev pub total : List CachedRecord → ℕ
total [] = 0
total (r ∷ lru) = r.size + total lru

pub find-key :
    (k : RecordCacheKey) (lru : List CachedRecord) (r : CachedRecord)
    → find k lru ≡ some r
    → r.key ≡ k
unfolding find
find-key k [] r h = cc
find-key k (s ∷ lru) r h = elim (Bool-cases (same_key s.key k)) [
  | inl e ↦ let same : some s ≡ some r = rw e at h in cc (same_key_eq s.key k e, same)
  | inr e ↦ find-key k lru r (rw e at h)
]

-- Two keys that equal a third are the same.
same_both :
    (a b c : RecordCacheKey) → same_key a c ≡ true → same_key b c ≡ true → same_key a b ≡ true
same_both a b c h k = rw (same_key_eq a c h, same_key_eq b c k) (same_key_self c)

pub find-remove :
    (k j : RecordCacheKey) (lru : List CachedRecord)
    → Distinct lru
    → find j (remove_element k lru) ≡ (if same_key k j then none else find j lru)
unfolding find remove_element
find-remove k j [] d = elim (Bool-cases (same_key k j)) [ inl e ↦ rw e | inr e ↦ rw e ]
find-remove k j (r ∷ lru) d = elim (Bool-cases (same_key r.key k)) [
  | inl e ↦
      rw (e, ap (λ t. same_key t j) (same_key_eq r.key k e))
        (elim (Bool-cases (same_key k j)) [
          | inl f ↦
              rw f (ap (λ t. find t lru) (sym (same_key_eq r.key k e ∙ same_key_eq k j f)) ∙ d.0)
          | inr f ↦ rw f
        ])
  | inr e ↦ rw e (elim (Bool-cases (same_key r.key j)) [
    | inl f ↦ rw f (elim (Bool-cases (same_key k j)) [
      | inl g ↦ cc (e, same_both r.key k j f g)
      | inr g ↦ rw g
    ])
    | inr f ↦ rw f (find-remove k j lru d.1)
  ])
]

remove-Distinct-none :
    (k j : RecordCacheKey) (lru : List CachedRecord)
    → Distinct lru
    → find j lru ≡ none
    → find j (remove_element k lru) ≡ none
remove-Distinct-none k j lru d h =
    rw (find-remove k j lru d, h) (elim (Bool-cases (same_key k j)) [ inl e ↦ rw e | inr e ↦ rw e ])

pub remove-Distinct :
    (k : RecordCacheKey) (lru : List CachedRecord) → Distinct lru → Distinct (remove_element k lru)
unfolding remove_element
remove-Distinct k [] d = tt
remove-Distinct k (r ∷ lru) d = elim (Bool-cases (same_key r.key k)) [
  | inl e ↦ rw e d.1
  | inr e ↦ rw e (remove-Distinct-none k r.key lru d.1 d.0, remove-Distinct k lru d.1)
]

pub total-remove :
    (k : RecordCacheKey) (lru : List CachedRecord) (r : CachedRecord)
    → find k lru ≡ some r
    → total (remove_element k lru) + r.size ≡ total lru
unfolding find remove_element
total-remove k [] r h = cc
total-remove k (s ∷ lru) r h = elim (Bool-cases (same_key s.key k)) [
  | inl e ↦
      let same : some s ≡ some r = rw e at h in
      let same' : s ≡ r = cc in rw (e, same') (omega arith)
  | inr e ↦ rw e (omega (arith, total-remove k lru r (rw e at h)))
]

pub length-remove :
    (k : RecordCacheKey) (lru : List CachedRecord) (r : CachedRecord)
    → find k lru ≡ some r
    → length (remove_element k lru) + 1 ≡ length lru
unfolding find remove_element
length-remove k [] r h = cc
length-remove k (s ∷ lru) r h = elim (Bool-cases (same_key s.key k)) [
  | inl e ↦ rw e (omega arith)
  | inr e ↦ rw e (omega (arith, length-remove k lru r (rw e at h)))
]

-- The last element is found under its key.
pub find-back :
    (lru : List CachedRecord) (r : CachedRecord)
    → Distinct lru
    → back lru ≡ some r
    → find r.key lru ≡ some r
unfolding find back
find-back [] r d h = cc
find-back (s ∷ []) r d h = let e : s ≡ r = cc in rw (e, same_key_self r.key)
find-back (s ∷ (t ∷ lru)) r d h =
    let ih : find r.key (t ∷ lru) ≡ some r = find-back (t ∷ lru) r d.1 h in
    elim (Bool-cases (same_key s.key r.key)) [
      | inl e ↦
          let none_there : find r.key (t ∷ lru) ≡ none =
            ap (λ k. find k (t ∷ lru)) (sym (same_key_eq s.key r.key e)) ∙ d.0 in
          cc (ih, none_there)
      | inr e ↦ rw e ih
    ]

pub back-none : (lru : List CachedRecord) → back lru ≡ none → lru ≡ []
unfolding back
back-none [] h = refl
back-none (r ∷ []) h = cc
back-none (r ∷ (s ∷ lru)) h = let e : s ∷ lru ≡ [] = back-none (s ∷ lru) h in cc
