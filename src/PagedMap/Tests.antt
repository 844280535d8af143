-- ===== src/PagedMap/Tests.antt =====
-- Runs of the paged map, and the theorems at concrete tables.
use latticedb_go.Base.{ℕ, ◌≡◌, refl, none, some, ◌==◌, ◌+◌, ◌*◌, if◌then◌else◌}
use latticedb_go.PagedMap.{
  PagedMap, new_paged_map, get, set, fork_set, page_by_key, find_high, store_page, store_high,
}
use latticedb_go.PagedMap.Delete.{delete}
use latticedb_go.PagedMap.Lookup.{get-set}
use latticedb_go.PagedMap.Removal.{get-delete}
use latticedb_go.PagedMap.Full.{IsFull, new-IsFull, set-IsFull, delete-IsFull, fork_set-set}

-- Two ids of one page, one of another, one under a high root.
abbrev table : PagedMap ℕ
table = set (set (set (set new_paged_map 1 10) 63 20) 64 30) (64 * 16384 * 5 + 7) 40

length_run : table.length ≡ 4
unfolding set page_by_key find_high store_page store_high
length_run = refl

-- The third page is one too many for the list of active pages.
active_run : table.small_active ≡ none
unfolding set page_by_key find_high store_page store_high
active_run = refl

high_run : get table (64 * 16384 * 5 + 7) ≡ some 40
unfolding get set page_by_key find_high store_page store_high
high_run = refl

table-IsFull : IsFull table
table-IsFull =
    set-IsFull _ (64 * 16384 * 5 + 7) 40
      (set-IsFull _ 64 30 (set-IsFull _ 63 20 (set-IsFull _ 1 10 new-IsFull)))

get-set_example : get (set table 64 31) 1 ≡ (if 1 == 64 then some 31 else get table 1)
get-set_example = get-set table 64 1 31

get-delete_example : get (delete table 64) 64 ≡ (if 64 == 64 then none else get table 64)
get-delete_example = get-delete table 64 64

delete-IsFull_example : IsFull (delete table 64)
delete-IsFull_example = delete-IsFull table 64 table-IsFull

fork_set-set_example : fork_set table 128 50 ≡ set table 128 50
fork_set-set_example = fork_set-set table 128 50 table-IsFull
