-- ===== src/Adjacency.antt =====
-- internal/store/adjacency.go: EdgeList, the ids of a node's edges. A pointer to a list is an option;
-- lists are never changed once built. The chunks and the removed ids are tables of PagedMap.
pub mod Pieces
pub mod Layout
pub mod Append
pub mod Remove
pub mod Batch
mod Tests
use latticedb_go.Base.{
  ℕ, zero, suc, ◌+◌, ◌-◌, ◌*◌, ◌/◌, ◌&&◌, ◌||◌, Bool, true, false, not, Option, none, some, List,
  [], ◌∷◌, ◌++◌, ltb, leb, ◌==◌, if◌then◌else◌, length, take, drop,
}
use latticedb_go.PagedMap.{PagedMap, new_paged_map, is_nil, get, has, set, fork_set}

abbrev pub adjacency_chunk_size : ℕ
adjacency_chunk_size = 64

abbrev pub adjacency_sync_compact_limit : ℕ
adjacency_sync_compact_limit = 256

abbrev pub adjacency_inline_limit : ℕ
adjacency_inline_limit = 63

pub record EdgeList : Type 0 where
  pub small : List ℕ
  pub chunks : PagedMap (List ℕ)
  pub removed : PagedMap (Unit {0})
  pub count : ℕ
  pub total : ℕ

-- `EdgeList{}`
abbrev pub empty_list : EdgeList
empty_list = record {
  small = [];
  chunks = new_paged_map;
  removed = new_paged_map;
  count = 0;
  total = 0;
}

-- `result := EdgeList{}; if list != nil { result = *list }`
abbrev pub list_or_empty : Option EdgeList → EdgeList
list_or_empty none = empty_list
list_or_empty (some l) = l

-- `Len`
abbrev pub live_count : Option EdgeList → ℕ
live_count none = 0
live_count (some l) = l.count

-- `list.chunks.root0 == nil && list.chunks.roots == nil`
abbrev pub no_chunks : PagedMap (List ℕ) → Bool
no_chunks chunks = is_nil chunks.root0 && is_nil chunks.roots

-- `IsInline`, `InlineIDs`, `HasRemovals`, `IsRemoved`
abbrev pub is_inline : Option EdgeList → Bool
is_inline none = true
is_inline (some l) = no_chunks l.chunks

abbrev pub inline_ids : Option EdgeList → List ℕ
inline_ids none = []
inline_ids (some l) = l.small

abbrev pub has_removals : Option EdgeList → Bool
has_removals none = false
has_removals (some l) = not (l.removed.length == 0)

abbrev pub is_removed : ℕ → Option EdgeList → Bool
is_removed id none = false
is_removed id (some l) = has l.removed id

-- `list.chunks.Get`: a missing chunk is a nil slice.
abbrev pub slice_or_nil : Option (List ℕ) → List ℕ
slice_or_nil none = []
slice_or_nil (some ids) = ids

abbrev pub chunk_at : PagedMap (List ℕ) → ℕ → List ℕ
chunk_at chunks index = slice_or_nil (get chunks index)

-- `for index := 0; index*adjacencyChunkSize < list.total; index++`: `total` rounds are enough.
abbrev pub chunks_from : ℕ → EdgeList → ℕ → List (List ℕ)
chunks_from zero l index = []
chunks_from (suc rounds) l index =
    let rest = chunks_from rounds l (index + 1) in
    if ltb (index * adjacency_chunk_size) l.total then chunk_at l.chunks index ∷ rest else []

-- `Chunks`
unfoldable pub list_chunks : EdgeList → List (List ℕ)
list_chunks l =
    if no_chunks l.chunks
    then (if length l.small == 0 then [] else l.small ∷ [])
    else chunks_from l.total l 0

-- `for start := 0; start < len(result.small); start += adjacencyChunkSize`
abbrev pub split_small : ℕ → ℕ → List ℕ → PagedMap (List ℕ) → PagedMap (List ℕ)
split_small zero start small chunks = chunks
split_small (suc rounds) start small chunks =
    let piece = take adjacency_chunk_size (drop start small) in
    let rest =
      split_small rounds (start + adjacency_chunk_size) small
        (set chunks (start / adjacency_chunk_size) piece) in
    if ltb start (length small) then rest else chunks

-- `Append`, where the last chunk grows; `owned` tells whether the chunks are this list's alone.
abbrev pub grow_chunk : Bool → EdgeList → ℕ → EdgeList
grow_chunk owned l id =
    let chunk = l.total / adjacency_chunk_size in
    let updated = chunk_at l.chunks chunk ++ id ∷ [] in
    record l {
      chunks = if owned then set l.chunks chunk updated else fork_set l.chunks chunk updated;
      count = l.count + 1;
      total = l.total + 1;
    }

-- The inline ids become the first chunks.
abbrev pub to_chunks : EdgeList → EdgeList
to_chunks l = record l {
  small = [];
  chunks = split_small (length l.small) 0 l.small new_paged_map;
  total = length l.small;
}

unfoldable pub append_to : EdgeList → ℕ → EdgeList
append_to l id =
    if no_chunks l.chunks && ltb (length l.small) adjacency_inline_limit
    then record l { small = l.small ++ id ∷ []; count = l.count + 1; total = l.total + 1 }
    else if no_chunks l.chunks
    then grow_chunk true (to_chunks l) id
    else grow_chunk false l id

unfoldable pub append : Option EdgeList → ℕ → Option EdgeList
append list id = some (append_to (list_or_empty list) id)

-- `All`, yielded to its end; `IDs` collects it.
abbrev pub keep : (ℕ → Bool) → List ℕ → List ℕ
keep live [] = []
keep live (id ∷ ids) = let rest = keep live ids in if live id then id ∷ rest else rest

abbrev pub keep_all : (ℕ → Bool) → List (List ℕ) → List ℕ
keep_all live [] = []
keep_all live (chunk ∷ chunks) = keep live chunk ++ keep_all live chunks

unfoldable pub ids : Option EdgeList → List ℕ
ids none = []
ids (some l) =
    if no_chunks l.chunks
    then l.small
    else keep_all (λ id. l.removed.length == 0 || not (has l.removed id)) (list_chunks l)

-- `compact`
abbrev pub append_each : Option EdgeList → List ℕ → Option EdgeList
append_each list [] = list
append_each list (id ∷ ids) = append_each (append list id) ids

unfoldable pub compact : Option EdgeList → Option EdgeList
compact list = append_each none (ids list)

abbrev pub mem : ℕ → List ℕ → Bool
mem id [] = false
mem id (x ∷ xs) = x == id || mem id xs

abbrev pub mem_chunks : ℕ → List (List ℕ) → Bool
mem_chunks id [] = false
mem_chunks id (chunk ∷ chunks) = mem id chunk || mem_chunks id chunks

-- `append(slices.Clone(result.small[:index]), result.small[index+1:]...)` at the first match.
abbrev pub remove_first : ℕ → List ℕ → List ℕ
remove_first id [] = []
remove_first id (x ∷ xs) = let rest = remove_first id xs in if x == id then xs else x ∷ rest

-- The inline case of `Remove`. The counts of a valid list are not 0 where an id is found.
unfoldable pub remove_inline : EdgeList → ℕ → EdgeList
remove_inline l id =
    if mem id l.small
    then record l { small = remove_first id l.small; count = l.count - 1; total = l.total - 1 }
    else l

-- The test behind every removal from chunks.
abbrev pub compact_due : EdgeList → Bool
compact_due l =
    leb l.total adjacency_sync_compact_limit
    && ltb adjacency_chunk_size l.removed.length
    && ltb l.count l.removed.length

unfoldable pub after_removal : EdgeList → Option EdgeList
after_removal l = if compact_due l then compact (some l) else some l

-- `RemoveKnown` past its inline case.
unfoldable pub mark_removed : EdgeList → ℕ → Option EdgeList
mark_removed l id =
    if has l.removed id
    then some l
    else after_removal (record l { removed = set l.removed id tt; count = l.count - 1 })

unfoldable pub remove_known : Option EdgeList → ℕ → Option EdgeList
remove_known none id = none
remove_known (some l) id =
    if no_chunks l.chunks then some (remove_inline l id) else mark_removed l id

unfoldable pub remove : Option EdgeList → ℕ → Option EdgeList
remove none id = none
remove (some l) id =
    if no_chunks l.chunks
    then some (remove_inline l id)
    else if has l.removed id
    then some l
    else if mem_chunks id (list_chunks l)
    then remove_known (some l) id
    else some l

-- `RemoveKnownBatch`: the loop over the ids marks each that is not marked yet.
abbrev pub mark_each : PagedMap (Unit {0}) → List ℕ → PagedMap (Unit {0})
mark_each removed [] = removed
mark_each removed (id ∷ ids) = mark_each (if has removed id then removed else set removed id tt) ids

abbrev pub count_new : PagedMap (Unit {0}) → List ℕ → ℕ
count_new removed [] = 0
count_new removed (id ∷ ids) =
    let rest = count_new (if has removed id then removed else set removed id tt) ids in
    if has removed id then rest else suc rest

abbrev pub batch_inline : EdgeList → List ℕ → EdgeList
batch_inline l gone =
    let values = keep (λ id. not (mem id gone)) l.small in
    if length values == length l.small
    then l
    else record l { small = values; count = length values; total = length values }

abbrev pub batch_chunks : EdgeList → List ℕ → Option EdgeList
batch_chunks l gone =
    let fresh = count_new l.removed gone in
    if fresh == 0
    then some l
    else after_removal (record l { removed = mark_each l.removed gone; count = l.count - fresh })

unfoldable pub remove_known_batch : Option EdgeList → List ℕ → Option EdgeList
remove_known_batch none gone = none
remove_known_batch (some l) gone =
    if length gone == 0
    then some l
    else if no_chunks l.chunks
    then some (batch_inline l gone)
    else batch_chunks l gone
