-- ===== src/Stream/Log/Trim.antt =====
-- internal/store/stream.go, `Trim` on a store in memory: the removal of the oldest records of a
-- stream, with the recount of all bytes once a total has been saturated.
use latticedb_go.Base.{
  ℕ, ◌/◌, true, false, reverse, ◌+◌, ◌-◌, ◌%◌, ◌^◌, List, [], ◌∷◌, ◌++◌, Bool, not, ltb, leb, ◌==◌,
  if◌then◌else◌, length, ◌||◌, ◌&&◌, min,
}
use latticedb_go.Payload.Values.{Bytes}
use latticedb_go.Stream.Value.{snapshot_add, max_u64}
use latticedb_go.Stream.NameMap.{assign}
use latticedb_go.Stream.Chunk.{
  StreamRecord, Chain, chain_bytes, chain_snapshot_bytes, stream_record_bytes,
  stream_record_snapshot_bytes, new_stream_chunk, last_sequence, chunk,
}
use latticedb_go.Stream.Log.{
  StreamLog, StreamStore, log_of, ensure_stream, stream_snapshot_bytes,
  stream_offset_snapshot_bytes,
}

-- `left - right` on uint64.
abbrev pub minus64 : ℕ → ℕ → ℕ
minus64 left right = (left + (2 ^ 64 - right)) % 2 ^ 64

-- `streamChunkBytesThrough`: the totals up to a sequence number.
unfoldable pub add_through : (StreamRecord → ℕ) → ℕ → List StreamRecord → ℕ → ℕ
add_through size total [] sequence = total
add_through size total (r ∷ rs) sequence =
    let more = add_through size (snapshot_add total (size r)) rs sequence in
    if ltb sequence r.sequence then total else more

unfoldable pub bytes_through : Chain → ℕ → ℕ × ℕ
unfolding add_through
bytes_through [] sequence = (0, 0)
bytes_through (c ∷ previous) sequence = (
  add_through stream_record_bytes (chain_bytes previous) c.records sequence,
  add_through stream_record_snapshot_bytes (chain_snapshot_bytes previous) c.records sequence,
)

-- What is left of a chunk's records.
unfoldable pub drop_before : ℕ → List StreamRecord → List StreamRecord
drop_before first [] = []
drop_before first (r ∷ rs) =
    let rest = drop_before first rs in if ltb r.sequence first then rest else r ∷ rs

-- The records that a recount does not skip.
unfoldable pub keep_from : ℕ → List StreamRecord → List StreamRecord
keep_from first [] = []
keep_from first (r ∷ rs) =
    let rest = keep_from first rs in if ltb r.sequence first then rest else r ∷ rest

-- The compaction: new chunks, oldest first, from what is retained.
unfoldable pub rebuild : ℕ → Chain → Chain
unfolding drop_before
rebuild first [] = []
rebuild first (c ∷ previous) =
    let older = rebuild first previous in
    let kept = drop_before first c.records in
    if leb first (last_sequence c.records)
    then if length kept == 0 then older else new_stream_chunk older kept
    else []

-- The records of a log that a recount visits.
unfoldable pub retained : ℕ → Chain → List StreamRecord
unfolding keep_from
retained first [] = []
retained first (c ∷ previous) =
    let older = retained first previous in
    if leb first (last_sequence c.records) then keep_from first c.records ++ older else []

unfoldable pub add_sizes : (StreamRecord → ℕ) → ℕ → List StreamRecord → ℕ
add_sizes size total [] = total
add_sizes size total (r ∷ rs) = add_sizes size (snapshot_add total (size r)) rs

-- `for name := range store.next`; the sums do not depend on the order of a map.
unfoldable pub add_streams :
    StreamStore → (Bytes → ℕ) → (StreamRecord → ℕ) → ℕ → List (Bytes × ℕ) → ℕ
unfolding retained add_sizes
add_streams store named size total [] = total
add_streams store named size total ((name, next) ∷ entries) =
    let log = log_of store name in
    add_streams store named size
      (add_sizes size (snapshot_add total (named name)) (retained log.first log.tail)) entries

unfoldable pub add_consumers : (Bytes → ℕ) → ℕ → List (Bytes × ℕ) → ℕ
add_consumers size total [] = total
add_consumers size total ((consumer, offset) ∷ consumers) =
    add_consumers size (snapshot_add total (size consumer)) consumers

unfoldable pub add_offsets : (Bytes → Bytes → ℕ) → ℕ → List (Bytes × List (Bytes × ℕ)) → ℕ
unfolding add_consumers
add_offsets size total [] = total
add_offsets size total ((stream, consumers) ∷ streams) =
    add_offsets size (add_consumers (size stream) total consumers) streams

unfoldable pub calculate_stream_store_bytes : StreamStore → ℕ
unfolding add_streams add_offsets
calculate_stream_store_bytes store =
    add_offsets (λ stream consumer. length stream + length consumer + 48)
      (add_streams store (λ name. length name + 64) stream_record_bytes 0 store.next) store.offsets

unfoldable pub calculate_stream_store_snapshot_bytes : StreamStore → ℕ
unfolding add_streams add_offsets
calculate_stream_store_snapshot_bytes store =
    add_offsets stream_offset_snapshot_bytes
      (add_streams store stream_snapshot_bytes stream_record_snapshot_bytes 0 store.next)
      store.offsets

-- The log without the records through `trimmed`; `removed` are their bytes.
unfoldable pub trim_window : Bool → StreamLog → ℕ → ℕ × ℕ → StreamLog
trim_window saturated log trimmed (removed, removed_snapshot) =
    let count = minus64 log.count ((trimmed - log.first + 1) % 2 ^ 64) in
    if count == 0
    then record { tail = []; first = 0; count = 0; bytes = 0; snapshot_bytes = 0 }
    else record {
      tail = log.tail;
      first = (trimmed + 1) % 2 ^ 64;
      count = count;
      bytes = if saturated then log.bytes else log.bytes - removed;
      snapshot_bytes =
          if saturated then log.snapshot_bytes else log.snapshot_bytes - removed_snapshot;
    }

-- Once hidden bytes reach visible bytes, the chunks are built again.
unfoldable pub compact : Bool → StreamLog → StreamLog
unfolding rebuild
compact saturated log =
    let tail = rebuild log.first log.tail in
    if not (log.count == 0)
      && (saturated || leb log.bytes (minus64 (chain_bytes log.tail) log.bytes))
    then record {
      tail = tail;
      first = log.first;
      count = log.count;
      bytes = chain_bytes tail;
      snapshot_bytes = chain_snapshot_bytes tail;
    }
    else log

-- A total that is saturated, or smaller than what is taken from it.
abbrev pub is_saturated : StreamStore → StreamLog → ℕ × ℕ → ℕ × ℕ → ℕ × ℕ → Bool
is_saturated store log (start, start_snapshot) (end, end_snapshot) (removed, removed_snapshot) =
    chain_bytes log.tail == max_u64
    || chain_snapshot_bytes log.tail == max_u64
    || start == max_u64
    || end == max_u64
    || start_snapshot == max_u64
    || end_snapshot == max_u64
    || log.bytes == max_u64
    || log.snapshot_bytes == max_u64
    || ltb log.bytes removed
    || ltb log.snapshot_bytes removed_snapshot
    || store.logical_bytes == max_u64
    || store.snapshot_bytes == max_u64
    || ltb store.logical_bytes removed
    || ltb store.snapshot_bytes removed_snapshot

-- `Trim` behind its early return.
unfoldable pub trim_log : StreamStore → Bytes → StreamLog → ℕ → StreamStore
unfolding bytes_through trim_window compact calculate_stream_store_bytes
    calculate_stream_store_snapshot_bytes
trim_log store name log trimmed =
    let start = bytes_through (chunk log.tail log.count log.first log.first) (log.first - 1) in
    let end = bytes_through (chunk log.tail log.count log.first trimmed) trimmed in
    let removed : ℕ × ℕ = (minus64 end.0 start.0, minus64 end.1 start.1) in
    let saturated = is_saturated store log start end removed in
    let trimmed_log = compact saturated (trim_window saturated log trimmed removed) in
    let next : StreamStore = record {
      streams = assign store.streams name trimmed_log;
      next = store.next;
      offsets = store.offsets;
      logical_bytes = store.logical_bytes - removed.0;
      snapshot_bytes = store.snapshot_bytes - removed.1;
    } in
    if saturated
    then record {
      streams = next.streams;
      next = next.next;
      offsets = next.offsets;
      logical_bytes = calculate_stream_store_bytes next;
      snapshot_bytes = calculate_stream_store_snapshot_bytes next;
    }
    else next

unfoldable pub trim : StreamStore → Bytes → ℕ → StreamStore
unfolding trim_log ensure_stream
trim store name through =
    let named = ensure_stream store name in
    let log = log_of named name in
    let trimmed = trim_log named name log (min through ((log.first + log.count - 1) % 2 ^ 64)) in
    if log.count == 0 || ltb through log.first then named else trimmed

-- The records that `TrimToBytes` visits, newest first.
unfoldable pub newest_first : ℕ → Chain → List StreamRecord
unfolding keep_from
newest_first first [] = []
newest_first first (c ∷ previous) =
    let older = newest_first first previous in
    if leb first (last_sequence c.records) then reverse (keep_from first c.records) ++ older else []

-- The sequence number to trim through, and whether a record was met that exceeds the target.
unfoldable pub cut_point : ℕ → ℕ → ℕ → List StreamRecord → Bool × ℕ
cut_point target held through [] = (false, through)
cut_point target held through (r ∷ rs) =
    let more = snapshot_add held (stream_record_bytes r) in
    let rest = cut_point target more (minus64 r.sequence 1) rs in
    if ltb target more then (true, r.sequence) else rest

unfoldable pub trim_to_bytes : StreamStore → Bytes → ℕ → (ℕ × Bool) × StreamStore
unfolding trim newest_first cut_point
trim_to_bytes store name max_bytes =
    let log = log_of store name in
    let cut = cut_point (max_bytes / 2) 0 (minus64 log.first 1) (newest_first log.first log.tail) in
    if leb log.bytes max_bytes || log.count == 0
    then ((0, false), store)
    else if cut.0 || leb log.first cut.1
    then ((cut.1, true), trim store name cut.1)
    else ((0, false), store)
