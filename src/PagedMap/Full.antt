-- ===== src/PagedMap/Full.antt =====
-- No page of the table is empty, so ForkSet lists the active pages as Set does.
use latticedb_go.Base.{
  ℕ, ◌-◌, ◌≡◌, refl, sym, ap, ◌∙◌, Bool, true, false, Option, none, some, arith, ◌==◌, List,
  ==_self, Bool-cases, inl, inr,
}
use latticedb_go.PagedMap.{
  ValuePage, PagedMap, array_or_new, store_at, empty_below, slot_of, key_of, page_by_key,
  store_page, new_paged_map, find_high, set, fork_set, active_once, active_if_empty, longer,
}
use latticedb_go.PagedMap.Delete.{
  drop_page, remove_active, store_rest, clear_slot, delete_found, delete,
}
use latticedb_go.PagedMap.Lookup.{page_by_key-store_page}
use latticedb_go.PagedMap.Removal.{empty_below-none, page_by_key-drop_page, restored, counted}

module _ {V : Type 0} where
  abbrev pub IsFull : PagedMap V → Type 0
  IsFull m =
      (key : ℕ) (page : ValuePage V) → page_by_key m key ≡ some page → empty_below 64 page ≡ false

  written_page :
      (page : ValuePage V) (id : ℕ) (v : V)
      → empty_below 64 (store_at page (slot_of id) (some v)) ≡ false
  written_page page id v =
      elim (Bool-cases (empty_below 64 (store_at page (slot_of id) (some v)))) [
        | inr h ↦ h
        | inl h ↦
            let at_slot =
              empty_below-none 64 (slot_of id) (store_at page (slot_of id) (some v)) h
                (omega arith) in
            let never : some v ≡ none = rw (==_self (slot_of id)) at at_slot in absurd cc
      ]

  -- The page under `key` is replaced by one that is not empty.
  replaced :
      (m : PagedMap V) (key : ℕ) (page : ValuePage V)
      → IsFull m
      → empty_below 64 page ≡ false
      → IsFull (store_page m key page)
  replaced m key page full h k p e = elim (Bool-cases (k == key)) [
    | inl s ↦
        let same : some page ≡ some p = rw (page_by_key-store_page m key k page, s) at e in
        ap (λ o. empty_below 64 (array_or_new o)) (sym same) ∙ h
    | inr d ↦ full k p (rw (page_by_key-store_page m key k page, d) at e)
  ]

  same_pages :
      (m m' : PagedMap V) → ((k : ℕ) → page_by_key m' k ≡ page_by_key m k) → IsFull m → IsFull m'
  same_pages m m' same full k p e = full k p (sym (same k) ∙ e)

  -- No page of the table is empty after a write when none was before it.
  pub set-IsFull : (m : PagedMap V) (id : ℕ) (v : V) → IsFull m → IsFull (set m id v)
  unfolding set
  set-IsFull m id v full =
      let found = page_by_key m (key_of id) in
      let page = store_at (array_or_new found) (slot_of id) (some v) in
      let stored = store_page m (key_of id) page in
      same_pages stored (set m id v)
        (counted stored (active_once found (key_of id) m.small_active)
          (longer (array_or_new found (slot_of id)) m.length))
        (replaced m (key_of id) page full (written_page (array_or_new found) id v))

  dropped : (m : PagedMap V) (key : ℕ) → IsFull m → IsFull (drop_page m key)
  dropped m key full k p e = elim (Bool-cases (k == key)) [
    | inl s ↦ let never : none ≡ some p = rw (page_by_key-drop_page m key k, s) at e in absurd cc
    | inr d ↦ full k p (rw (page_by_key-drop_page m key k, d) at e)
  ]

  store_rest-IsFull :
      (m : PagedMap V) (key : ℕ) (page : ValuePage V) (left : Bool)
      → IsFull m
      → empty_below 64 page ≡ left
      → IsFull (store_rest m key page left)
  store_rest-IsFull m key page false full h = replaced m key page full h
  store_rest-IsFull m key page true full h =
      let active = remove_active key m.small_active in
      let marked = record m { small_active = active } in
      same_pages (drop_page marked key) (store_rest m key page true)
        (restored (drop_page marked key))
        (dropped marked key (same_pages m marked (counted m active m.length) full))

  clear_slot-IsFull :
      (m : PagedMap V) (id : ℕ) (page : ValuePage V) (slot : Option V)
      → IsFull m
      → IsFull (clear_slot m id page slot)
  clear_slot-IsFull m id page none full = full
  clear_slot-IsFull m id page (some v) full =
      store_rest-IsFull (record m { length = m.length - 1 }) (key_of id)
        (store_at page (slot_of id) none) (empty_below 64 (store_at page (slot_of id) none))
        (same_pages m (record m { length = m.length - 1 }) (counted m m.small_active (m.length - 1))
          full)
        refl

  delete_found-IsFull :
      (m : PagedMap V) (id : ℕ) (found : Option (ValuePage V))
      → IsFull m
      → IsFull (delete_found m id found)
  delete_found-IsFull m id none full = full
  delete_found-IsFull m id (some page) full = clear_slot-IsFull m id page (page (slot_of id)) full

  -- Nor after a deletion.
  pub delete-IsFull : (m : PagedMap V) (id : ℕ) → IsFull m → IsFull (delete m id)
  unfolding delete
  delete-IsFull m id full = delete_found-IsFull m id (page_by_key m (key_of id)) full

  same_active :
      (page : ValuePage V) (slot : Option V) (key : ℕ) (active : Option (List ℕ))
      → empty_below 64 page ≡ false
      → active_if_empty page slot key active ≡ active
  same_active page none key active h = rw (h)
  same_active page (some v) key active h = refl

  listed :
      (m : PagedMap V) (id : ℕ) (found : Option (ValuePage V))
      → IsFull m
      → page_by_key m (key_of id) ≡ found
      → (let page = array_or_new found in
          active_if_empty page (page (slot_of id)) (key_of id) m.small_active)
        ≡ active_once found (key_of id) m.small_active
  listed m id none full e = refl
  listed m id (some page) full e =
      same_active page (page (slot_of id)) (key_of id) m.small_active (full (key_of id) page e)

  -- In a table without empty pages, which holds of every table that Set and Delete made, ForkSet builds
  -- the table that Set leaves: the same entries, length and list of active pages.
  pub fork_set-set : (m : PagedMap V) (id : ℕ) (v : V) → IsFull m → fork_set m id v ≡ set m id v
  unfolding set fork_set
  fork_set-set m id v full =
      let found = page_by_key m (key_of id) in
      let page = array_or_new found in
      let stored = store_page m (key_of id) (store_at page (slot_of id) (some v)) in
      ap
        (λ active. record stored {
          length = longer (page (slot_of id)) m.length;
          small_active = active;
        })
        (listed m id found full refl)

  pub new-IsFull : IsFull (new_paged_map {V = V})
  unfolding page_by_key find_high
  new-IsFull key page e = absurd (ground arith)
