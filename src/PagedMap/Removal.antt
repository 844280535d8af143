-- ===== src/PagedMap/Removal.antt =====
-- What the table holds after a deletion.
use latticedb_go.Base.{
  ℕ, zero, suc, ◌-◌, ◌<◌, ◌≡◌, refl, ap, ◌∙◌, Bool, true, false, Option, none, some, List, [], ◌∷◌,
  arith, ◌==◌, if◌then◌else◌, ==_self, ==_iff, Bool-cases, Option-cases, inl, inr,
}
use latticedb_go.PagedMap.{
  Array, ValuePage, PageBucket, PageRoot, PagedMap, array_or_new, store_at, chain, find_root,
  find_high, store_high, drop_root, entries_of, empty_below, high_of, bucket_of, shard_of, key_of,
  slot_of, page_by_key, get,
}
use latticedb_go.PagedMap.Delete.{
  drop_high, drop_page, restore_small_active, store_rest, clear_slot, delete_found, delete,
  remove_active,
}
use latticedb_go.PagedMap.Lookup.{
  path, array_or_new_at, by_high, find_high-store_high, get-store_page, id_parts, ne→==, ==→ne,
}

pub empty_below-none :
    {A : Type 0} (n i : ℕ) (array : Array A) → empty_below n array ≡ true → i < n → array i ≡ none
empty_below-none zero i array h l = absurd (ground arith)
empty_below-none (suc n) i array h l = elim (Option-cases (array n)) [
  | inr (x, e) ↦ let never : false ≡ true = rw (e, empty_below) at h in absurd cc
  | inl e ↦ elim (Bool-cases (i == n)) [
    | inl s ↦ rw ((==_iff i n).0 s, e)
    | inr d ↦ empty_below-none n i array (rw (e, empty_below) at h) (omega (arith, ==→ne i n d))
  ]
]

module _ {V : Type 0} where
  find_root-drop_root :
      (high h : ℕ) (roots : List (ℕ × PageRoot V))
      → find_root h (drop_root high roots) ≡ (if h == high then none else find_root h roots)
  find_root-drop_root high h [] = ground arith
  find_root-drop_root high h ((k, r) ∷ roots) = grind (arith, find_root-drop_root high h roots)

  find_high-drop_high :
      (m : PagedMap V) (high h : ℕ)
      → find_high (drop_high m high) h ≡ (if h == high then none else find_high m h)
  unfolding find_high drop_high
  find_high-drop_high m high h = ground (arith, find_root-drop_root high h (entries_of m.roots))

  -- A root or a bucket that is left empty is dropped, which loses no page.
  bucket_kept :
      (bucket : PageBucket V) (s : ℕ)
      → s < 128
      → chain (if empty_below 128 bucket then none else some bucket) (λ b. b s) ≡ bucket s
  bucket_kept bucket s h = elim (Bool-cases (empty_below 128 bucket)) [
    | inl e ↦ rw (e, empty_below-none 128 s bucket e h)
    | inr e ↦ rw (e)
  ]

  root_kept :
      (root : PageRoot V) (b s : ℕ)
      → b < 128
      → path (if empty_below 128 root then none else some root) b s ≡ path (some root) b s
  root_kept root b s h = elim (Bool-cases (empty_below 128 root)) [
    | inl e ↦ rw (e, empty_below-none 128 b root e h)
    | inr e ↦ rw (e)
  ]

  bucket_cut :
      (bucket : PageBucket V) (s s' : ℕ)
      → s' < 128
      → (let cut = store_at bucket s none in
          chain (if empty_below 128 cut then none else some cut) (λ b. b s'))
        ≡ (if s' == s then none else bucket s')
  bucket_cut bucket s s' h = bucket_kept (store_at bucket s none) s' h

  path_cut :
      (o : Option (PageRoot V)) (b s b' s' : ℕ)
      → b' < 128
      → s' < 128
      → (let root = array_or_new o in
          let bucket = store_at (array_or_new (root b)) s none in
          let kept = if empty_below 128 bucket then none else some bucket in
          let root' = store_at root b kept in
          path (if empty_below 128 root' then none else some root') b' s')
        ≡ (if b' == b then (if s' == s then none else path o b' s') else path o b' s')
  path_cut o b s b' s' hb hs =
      let root = array_or_new o in
      let bucket = store_at (array_or_new (root b)) s none in
      let kept = if empty_below 128 bucket then none else some bucket in
      root_kept (store_at root b kept) b' s' hb ∙ elim (Bool-cases (b' == b)) [
        | inr d ↦ rw (d, array_or_new_at o b')
        | inl e ↦
            let same : b' ≡ b = (==_iff b' b).0 e in
            rw (
              e,
              bucket_cut (array_or_new (root b)) s s' hs,
              array_or_new_at (root b) s',
              array_or_new_at o b,
              same,
            )
      ]

  find_high-cut :
      (m : PagedMap V) (high h : ℕ) (root : PageRoot V)
      → find_high (if empty_below 128 root then drop_high m high else store_high m high root) h
        ≡ (if h == high then (if empty_below 128 root then none else some root) else find_high m h)
  find_high-cut m high h root = elim (Bool-cases (empty_below 128 root)) [
    | inl e ↦ rw (e, find_high-drop_high m high h)
    | inr e ↦ rw (e, find_high-store_high m high h root)
  ]

  pub page_by_key-drop_page :
      (m : PagedMap V) (k l : ℕ)
      → page_by_key (drop_page m k) l ≡ (if l == k then none else page_by_key m l)
  unfolding page_by_key drop_page
  page_by_key-drop_page m k l = rw (find_high-cut m (high_of k) (high_of l) _) (
      by_high m k l _ none (
        path_cut (find_high m (high_of k)) (bucket_of k) (shard_of k) (bucket_of l) (shard_of l)
          (omega arith) (omega arith)))

  -- A page that is empty once the slot is cleared held nothing else.
  only_slot :
      (page : ValuePage V) (i j : ℕ)
      → empty_below 64 (store_at page (slot_of i) none) ≡ true
      → (slot_of j == slot_of i) ≡ false
      → page (slot_of j) ≡ none
  only_slot page i j h d =
      let none_at =
        empty_below-none 64 (slot_of j) (store_at page (slot_of i) none) h (omega arith) in
      rw (d) at none_at

  pub restored : (m : PagedMap V) (k : ℕ) → page_by_key (restore_small_active m) k ≡ page_by_key m k
  unfolding restore_small_active page_by_key find_high
  restored m k = refl

  pub counted :
      (m : PagedMap V) (active : Option (List ℕ)) (n k : ℕ)
      → page_by_key (record m { length = n; small_active = active }) k ≡ page_by_key m k
  unfolding page_by_key find_high
  counted m active n k = refl

  get-drop_page :
      (m : PagedMap V) (active : Option (List ℕ)) (i j : ℕ) (page : ValuePage V)
      → page_by_key m (key_of i) ≡ some page
      → empty_below 64 (store_at page (slot_of i) none) ≡ true
      → get (restore_small_active (drop_page (record m { small_active = active }) (key_of i))) j
        ≡ (if j == i then none else get m j)
  unfolding get
  get-drop_page m active i j page found h =
      rw
        (
          restored (drop_page (record m { small_active = active }) (key_of i)) (key_of j),
          page_by_key-drop_page (record m { small_active = active }) (key_of i) (key_of j),
          counted m active m.length (key_of j),
        )
        (elim (Bool-cases (key_of j == key_of i)) [
          | inr differs ↦
              let d : (j == i) ≡ false = ne→== j i (λ e. ==→ne _ _ differs (ap key_of e)) in
              rw (differs, d)
          | inl same ↦
              let e : key_of j ≡ key_of i = (==_iff _ _).0 same in
              rw (same) (elim (Bool-cases (slot_of j == slot_of i)) [
                | inl s ↦ let t : j ≡ i = id_parts j i e ((==_iff _ _).0 s) in rw (t, ==_self i)
                | inr s ↦
                    let d : (j == i) ≡ false = ne→== j i (λ t. ==→ne _ _ s (ap slot_of t)) in
                    rw (d, e, found, only_slot page i j h s)
              ])
        ])

  get-store_rest :
      (m : PagedMap V) (i j : ℕ) (page : ValuePage V) (left : Bool)
      → page_by_key m (key_of i) ≡ some page
      → empty_below 64 (store_at page (slot_of i) none) ≡ left
      → get (store_rest m (key_of i) (store_at page (slot_of i) none) left) j
        ≡ (if j == i then none else get m j)
  unfolding get
  get-store_rest m i j page false found h = rw (found) at (get-store_page m i j none)
  get-store_rest m i j page true found h =
      get-drop_page m (remove_active (key_of i) m.small_active) i j page found h

  unchanged :
      (m : PagedMap V) (i j : ℕ) → get m i ≡ none → get m j ≡ (if j == i then none else get m j)
  unchanged m i j h = elim (Bool-cases (j == i)) [
    | inl s ↦ rw ((==_iff j i).0 s, ==_self i, h)
    | inr d ↦ rw (d)
  ]

  get-clear_slot :
      (m : PagedMap V) (i j : ℕ) (page : ValuePage V) (slot : Option V)
      → page_by_key m (key_of i) ≡ some page
      → page (slot_of i) ≡ slot
      → get (clear_slot m i page slot) j ≡ (if j == i then none else get m j)
  unfolding get
  get-clear_slot m i j page none found e = unchanged m i j (rw (found, e))
  get-clear_slot m i j page (some v) found e =
      let shorter = record m { length = m.length - 1 } in
      get-store_rest shorter i j page (empty_below 64 (store_at page (slot_of i) none))
        (counted m m.small_active (m.length - 1) (key_of i) ∙ found) refl
      ∙ ap (λ p. if j == i then none else chain p (λ page. page (slot_of j)))
          (counted m m.small_active (m.length - 1) (key_of j))

  get-delete_found :
      (m : PagedMap V) (i j : ℕ) (found : Option (ValuePage V))
      → page_by_key m (key_of i) ≡ found
      → get (delete_found m i found) j ≡ (if j == i then none else get m j)
  unfolding get
  get-delete_found m i j none e = unchanged m i j (rw (e))
  get-delete_found m i j (some page) e = get-clear_slot m i j page (page (slot_of i)) e refl

  -- After a deletion the id is absent and every other id has the value that it had, whichever page,
  -- bucket and root the deletion dropped.
  pub get-delete :
      (m : PagedMap V) (i j : ℕ) → get (delete m i) j ≡ (if j == i then none else get m j)
  unfolding delete
  get-delete m i j = get-delete_found m i j (page_by_key m (key_of i)) refl
