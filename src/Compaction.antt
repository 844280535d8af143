-- ===== src/Compaction.antt =====
-- internal/store/adjacency_compaction.go: the rebuilding of one adjacency list, some chunks at a time.
-- Of the graph only the lists of the compacted direction are kept: `lists` is the source's table and
-- `result` that of the copy, once there is one.
pub mod Builder
pub mod Copying
pub mod Steps
mod Tests
use latticedb_go.Base.{
  ℕ, zero, suc, ◌+◌, ◌*◌, ◌/◌, ◌&&◌, ◌||◌, Bool, true, false, not, Option, none, some, List, [],
  ◌∷◌, ◌++◌, ltb, leb, ◌==◌, if◌then◌else◌, length,
}
use latticedb_go.PagedMap.{PagedMap, new_paged_map, get, has, set, fork_set}
use latticedb_go.PagedMap.Delete.{delete}
use latticedb_go.Adjacency.{
  EdgeList, adjacency_chunk_size, adjacency_sync_compact_limit, no_chunks, chunk_at,
}

abbrev pub adjacency_background_min_tombstones : ℕ
adjacency_background_min_tombstones = 64

pub record AdjacencyCompactor : Type 0 where
  pub lists : PagedMap EdgeList
  pub result : Option (PagedMap EdgeList)
  pub node_id : ℕ
  pub chunk : ℕ
  pub list : EdgeList
  pub builder_chunks : PagedMap (List ℕ)
  pub builder_tail : List ℕ
  pub builder_chunk : ℕ
  pub builder_count : ℕ

-- `selectList`, on what the table holds for the node.
abbrev pub select_list : Option EdgeList → Option EdgeList
select_list none = none
select_list (some l) =
    if no_chunks l.chunks
      || leb l.removed.length adjacency_background_min_tombstones
      || leb l.total adjacency_sync_compact_limit
    then none
    else some l

abbrev pub start_on : PagedMap EdgeList → ℕ → Option EdgeList → Option AdjacencyCompactor
start_on lists node none = none
start_on lists node (some l) = some (record {
  lists = lists;
  result = none;
  node_id = node;
  chunk = 0;
  list = l;
  builder_chunks = new_paged_map;
  builder_tail = [];
  builder_chunk = 0;
  builder_count = 0;
})

-- `NewAdjacencyCompactor`
unfoldable pub new_adjacency_compactor : PagedMap EdgeList → ℕ → Option AdjacencyCompactor
new_adjacency_compactor lists node = start_on lists node (select_list (get lists node))

-- `AdjacencyNeedsCompaction`
abbrev pub needs_compaction : Option EdgeList → Bool
needs_compaction none = false
needs_compaction (some l) =
    not (no_chunks l.chunks)
    && ltb adjacency_sync_compact_limit l.total
    && ltb adjacency_background_min_tombstones l.removed.length

unfoldable pub adjacency_needs_compaction : PagedMap EdgeList → ℕ → Bool
adjacency_needs_compaction lists node = needs_compaction (get lists node)

-- A full tail is stored before the next id starts another.
abbrev pub flush_full : AdjacencyCompactor → AdjacencyCompactor
flush_full c =
    if length c.builder_tail == adjacency_chunk_size
    then record c {
      builder_chunks = set c.builder_chunks c.builder_chunk c.builder_tail;
      builder_chunk = c.builder_chunk + 1;
      builder_tail = [];
    }
    else c

-- `appendLive`
unfoldable pub append_live : AdjacencyCompactor → ℕ → AdjacencyCompactor
append_live c id =
    let c = flush_full c in
    record c { builder_tail = c.builder_tail ++ id ∷ []; builder_count = c.builder_count + 1 }

abbrev pub append_ids : AdjacencyCompactor → List ℕ → AdjacencyCompactor
append_ids c [] = c
append_ids c (id ∷ ids) = append_ids (if has c.list.removed id then c else append_live c id) ids

abbrev pub chunk_count : AdjacencyCompactor → ℕ
chunk_count c = (c.list.total + 63) / 64

-- `for c.chunk < count && maxChunks > 0`
abbrev pub copy_chunks : ℕ → AdjacencyCompactor → AdjacencyCompactor
copy_chunks zero c = c
copy_chunks (suc budget) c =
    let copied = append_ids c (chunk_at c.list.chunks c.chunk) in
    let rest = copy_chunks budget (record copied { chunk = c.chunk + 1 }) in
    if ltb c.chunk (chunk_count c) then rest else c

-- `if len(c.builderTail) != 0 { c.builderChunks.Set(...) }`
abbrev pub flush_tail : AdjacencyCompactor → PagedMap (List ℕ)
flush_tail c =
    if length c.builder_tail == 0
    then c.builder_chunks
    else set c.builder_chunks c.builder_chunk c.builder_tail

-- `finishBuilder`
unfoldable pub finish_builder : AdjacencyCompactor → Option EdgeList
finish_builder c =
    if c.builder_count == 0
    then none
    else some (record {
      small = [];
      chunks = flush_tail c;
      removed = new_paged_map;
      count = c.builder_count;
      total = c.builder_count;
    })

-- `replaceAdjacency`
abbrev pub replace_adjacency : PagedMap EdgeList → ℕ → Option EdgeList → PagedMap EdgeList
replace_adjacency lists node none = delete lists node
replace_adjacency lists node (some l) = fork_set lists node l

abbrev pub result_or_source : PagedMap EdgeList → Option (PagedMap EdgeList) → PagedMap EdgeList
result_or_source lists none = lists
result_or_source lists (some result) = result

unfoldable pub finish : AdjacencyCompactor → AdjacencyCompactor
finish c = record c {
  builder_chunks = flush_tail c;
  result =
      some (replace_adjacency (result_or_source c.lists c.result) c.node_id (finish_builder c));
}

-- `Step`: whether the list is rebuilt, whether there is a change, and the compactor.
unfoldable pub step : ℕ → AdjacencyCompactor → Bool × Bool × AdjacencyCompactor
step max_chunks c =
    let copied = copy_chunks max_chunks c in
    if max_chunks == 0
    then (true, false, c)
    else if copied.chunk == chunk_count c
    then (true, true, finish copied)
    else (false, false, copied)

-- Steps with these budgets, up to the one that is done.
abbrev pub step_until_done : List ℕ → AdjacencyCompactor → Bool × AdjacencyCompactor
step_until_done [] c = (false, c)
step_until_done (budget ∷ budgets) c =
    let (done, changed, next) = step budget c in
    let rest = step_until_done budgets next in if done then (true, next) else rest
