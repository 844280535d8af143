-- ===== src/PagedMap/Lookup.antt =====
-- What the table holds after a write: the pages first, then the entries.
use latticedb_go.Base.{
  ℕ, ◌+◌, ◌≡◌, ◌≢◌, refl, ap, ◌∙◌, false, Option, none, some, List, [], ◌∷◌, arith, ◌==◌, ◌&&◌,
  ◌||◌, not, if◌then◌else◌, ==_self, ==_iff, Bool-cases, inl, inr,
}
use latticedb_go.PagedMap.{
  Array, ValuePage, PageRoot, PagedMap, array_or_new, store_at, chain, find_root, store_root,
  find_high, store_high, entries_of, high_of, bucket_of, shard_of, key_of, slot_of, page_by_key,
  store_page, new_paged_map, is_nil, get, has, set, fork_set, longer,
}

pub ne→== : (a b : ℕ) → a ≢ b → (a == b) ≡ false
ne→== a b h = ground arith

module _ {V : Type 0} where
  find_root-store_root :
      (high h : ℕ) (root : PageRoot V) (roots : List (ℕ × PageRoot V))
      → find_root h (store_root high root roots)
        ≡ (if h == high then some root else find_root h roots)
  find_root-store_root high h root [] = ground arith
  find_root-store_root high h root ((k, r) ∷ roots) =
      grind (arith, find_root-store_root high h root roots)

  pub find_high-store_high :
      (m : PagedMap V) (high h : ℕ) (root : PageRoot V)
      → find_high (store_high m high root) h ≡ (if h == high then some root else find_high m h)
  unfolding find_high store_high
  find_high-store_high m high h root =
      ground (arith, find_root-store_root high h root (entries_of m.roots))

pub key_parts :
    (k l : ℕ) → high_of k ≡ high_of l → bucket_of k ≡ bucket_of l → shard_of k ≡ shard_of l → k ≡ l
key_parts k l h b s = omega arith

pub id_parts : (i j : ℕ) → key_of i ≡ key_of j → slot_of i ≡ slot_of j → i ≡ j
id_parts i j k s = omega arith

pub array_or_new_at :
    {A : Type 0} (o : Option (Array A)) (i : ℕ) → array_or_new o i ≡ chain o (λ a. a i)
array_or_new_at none i = refl
array_or_new_at (some a) i = refl

abbrev pub path : {V : Type 0} → Option (PageRoot V) → ℕ → ℕ → Option (ValuePage V)
path root b s = chain (chain root (λ root. root b)) (λ bucket. bucket s)

-- One path through the arrays is replaced.
path-store_at :
    {V : Type 0} (o : Option (PageRoot V)) (b s b' s' : ℕ) (page : ValuePage V)
    → (let root = array_or_new o in
        path (some (store_at root b (some (store_at (array_or_new (root b)) s (some page))))) b' s')
      ≡ (if b' == b then (if s' == s then some page else path o b' s') else path o b' s')
path-store_at none b s b' s' page = ground arith
path-store_at (some root) b s b' s' page = ground (arith, array_or_new_at (root b) s')

if_parts :
    {A : Type 0} (k l : ℕ) (x y : A)
    → high_of l ≡ high_of k
    → (if bucket_of l == bucket_of k then (if shard_of l == shard_of k then x else y) else y)
      ≡ (if l == k then x else y)
if_parts k l x y h = elim (Bool-cases (l == k)) [
  | inl same ↦
      let e : l ≡ k = (==_iff l k).0 same in
      rw (e, ==_self k, ==_self (bucket_of k), ==_self (shard_of k))
  | inr differs ↦ elim (Bool-cases (bucket_of l == bucket_of k)) [
    | inr b ↦ rw (differs, b)
    | inl b ↦ elim (Bool-cases (shard_of l == shard_of k)) [
      | inr s ↦ rw (differs, b, s)
      | inl s ↦ absurd (other l k differs (key_parts l k h ((==_iff _ _).0 b) ((==_iff _ _).0 s)))
    ]
  ]
]
  where
    other : (l k : ℕ) → (l == k) ≡ false → l ≢ k
    other l k h e = ground arith

pub ==→ne : (a b : ℕ) → (a == b) ≡ false → a ≢ b
==→ne a b h e = ground arith

module _ {V : Type 0} where
  -- `x` at one path of the root that a write or a deletion replaces.
  abbrev pub AtPath : PagedMap V → ℕ → Option (PageRoot V) → Option (ValuePage V) → ℕ → Type 0
  AtPath m k new x l = path new (bucket_of l) (shard_of l) ≡ (
      if bucket_of l == bucket_of k
      then (if shard_of l == shard_of k
          then x
          else path (find_high m (high_of k)) (bucket_of l) (shard_of l))
      else path (find_high m (high_of k)) (bucket_of l) (shard_of l))

  pub by_high :
      (m : PagedMap V) (k l : ℕ) (new : Option (PageRoot V)) (x : Option (ValuePage V))
      → AtPath m k new x l
      → path
          (if high_of l == high_of k then new else find_high m (high_of l))
          (bucket_of l)
          (shard_of l)
        ≡ (if l == k then x else path (find_high m (high_of l)) (bucket_of l) (shard_of l))
  by_high m k l new x h = elim (Bool-cases (high_of l == high_of k)) [
    | inl same ↦
        let e : high_of l ≡ high_of k = (==_iff _ _).0 same in
        rw (same) (
          h ∙ if_parts k l x (path (find_high m (high_of k)) (bucket_of l) (shard_of l)) e ∙ rw (e))
    | inr differs ↦
        let d : (l == k) ≡ false = ne→== l k (λ e. ==→ne _ _ differs (ap high_of e)) in
        rw (differs, d)
  ]

  pub page_by_key-store_page :
      (m : PagedMap V) (k l : ℕ) (page : ValuePage V)
      → page_by_key (store_page m k page) l ≡ (if l == k then some page else page_by_key m l)
  unfolding page_by_key store_page
  page_by_key-store_page m k l page = rw (find_high-store_high m (high_of k) (high_of l) _) (
      by_high m k l _ (some page) (
        path-store_at (find_high m (high_of k)) (bucket_of k) (shard_of k) (bucket_of l)
          (shard_of l) page))

  -- A slot of a page that is found or new.
  slot_or_new :
      (m : PagedMap V) (i j : ℕ)
      → key_of j ≡ key_of i
      → array_or_new (page_by_key m (key_of i)) (slot_of j) ≡ get m j
  unfolding get
  slot_or_new m i j e = array_or_new_at (page_by_key m (key_of i)) (slot_of j) ∙ rw (e)

  pub get-store_page :
      (m : PagedMap V) (i j : ℕ) (x : Option V)
      → get
          (store_page m
            (key_of i)
            (store_at (array_or_new (page_by_key m (key_of i))) (slot_of i) x))
          j
        ≡ (if j == i then x else get m j)
  unfolding get
  get-store_page m i j x = elim (Bool-cases (key_of j == key_of i)) [
    | inr differs ↦
        let d : (j == i) ≡ false = ne→== j i (λ e. ==→ne _ _ differs (ap key_of e)) in
        rw (page_by_key-store_page m (key_of i) (key_of j) _, differs, d)
    | inl same ↦
        let e : key_of j ≡ key_of i = (==_iff _ _).0 same in
        rw (page_by_key-store_page m (key_of i) (key_of j) _, same, slot_or_new m i j e)
          (elim (Bool-cases (slot_of j == slot_of i)) [
            | inl s ↦ let t : j ≡ i = id_parts j i e ((==_iff _ _).0 s) in rw (s, t, ==_self i)
            | inr s ↦
                let d : (j == i) ≡ false = ne→== j i (λ t. ==→ne _ _ s (ap slot_of t)) in rw (s, d)
          ])
  ]

  -- After a write the id has the new value and every other id has the value that it had, in the root,
  -- bucket and page that its bits select.
  pub get-set :
      (m : PagedMap V) (i j : ℕ) (v : V) → get (set m i v) j ≡ (if j == i then some v else get m j)
  unfolding set get page_by_key find_high
  get-set m i j v = get-store_page m i j (some v)

  pub get-fork_set :
      (m : PagedMap V) (i j : ℕ) (v : V)
      → get (fork_set m i v) j ≡ (if j == i then some v else get m j)
  unfolding fork_set get page_by_key find_high
  get-fork_set m i j v = get-store_page m i j (some v)

  -- An entry is counted when it is new.
  pub length-set :
      (m : PagedMap V) (i : ℕ) (v : V)
      → (set m i v).length ≡ (if has m i then m.length else m.length + 1)
  unfolding set has get
  length-set m i v = counted_at (page_by_key m (key_of i)) i m.length
    where
      counted_at :
          (found : Option (ValuePage V)) (i n : ℕ)
          → longer (array_or_new found (slot_of i)) n
            ≡ (if not (is_nil (chain found (λ page. page (slot_of i)))) then n else n + 1)
      counted_at none i n = refl
      counted_at (some page) i n = ground arith

  pub has-set : (m : PagedMap V) (i j : ℕ) (v : V) → has (set m i v) j ≡ (j == i || has m j)
  unfolding has
  has-set m i j v =
      ap (λ o. not (is_nil o)) (get-set m i j v)
      ∙ elim (Bool-cases (j == i)) [ inl h ↦ rw (h) | inr h ↦ rw (h) ]

  -- A table that was written has a root.
  pub store_page-rooted :
      (m : PagedMap V) (k : ℕ) (page : ValuePage V)
      → (is_nil (store_page m k page).root0 && is_nil (store_page m k page).roots) ≡ false
  unfolding store_page store_high
  store_page-rooted m k page = ground arith

  pub set-rooted :
      (m : PagedMap V) (i : ℕ) (v : V)
      → (is_nil (set m i v).root0 && is_nil (set m i v).roots) ≡ false
  unfolding set
  set-rooted m i v = store_page-rooted m (key_of i) _

  pub fork_set-rooted :
      (m : PagedMap V) (i : ℕ) (v : V)
      → (is_nil (fork_set m i v).root0 && is_nil (fork_set m i v).roots) ≡ false
  unfolding fork_set
  fork_set-rooted m i v = store_page-rooted m (key_of i) _

pub get-new : (V : Type 0) (i : ℕ) → get {V = V} new_paged_map i ≡ none
unfolding get page_by_key find_high
get-new V i = ground arith

pub has-new : (V : Type 0) (i : ℕ) → has {V = V} new_paged_map i ≡ false
unfolding has
has-new V i = ap (λ o. not (is_nil o)) (get-new V i)
