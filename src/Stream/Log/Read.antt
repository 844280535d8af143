-- ===== src/Stream/Log/Read.antt =====
-- internal/store/stream.go, `readBoundedTraverse` on a store in memory: a bounded read of a stream,
-- without a read budget in the context. Payloads are values, so cloning one changes nothing.
use latticedb_go.Base.{
  ℕ, ◌+◌, ◌-◌, ◌%◌, ◌/◌, ◌^◌, List, [], ◌∷◌, ◌++◌, Bool, true, false, not, ltb, leb, ◌==◌,
  if◌then◌else◌, take, drop, reverse, ◌||◌, ◌&&◌, min,
}
use latticedb_go.Payload.Values.{Bytes}
use latticedb_go.Stream.Value.{snapshot_add}
use latticedb_go.Stream.Chunk.{
  StreamRecord, Chain, stream_record_bytes, chunk, first_sequence, last_sequence,
}
use latticedb_go.Stream.Log.{StreamLog, StreamStore, log_of}

pub record StreamReadResult : Type 0 where
  pub records : List StreamRecord
  pub last_sequence : ℕ
  pub byte_limited : Bool
  pub bytes : ℕ

abbrev pub no_records : StreamReadResult
no_records = record { records = []; last_sequence = 0; byte_limited = false; bytes = 0 }

unfoldable pub append_bounded : StreamReadResult → StreamRecord → ℕ → StreamReadResult
append_bounded result r max_bytes =
    let bytes = stream_record_bytes r in
    if not (max_bytes == 0) && (ltb max_bytes bytes || ltb (max_bytes - bytes) result.bytes)
    then record {
      records = result.records;
      last_sequence = result.last_sequence;
      byte_limited = true;
      bytes = result.bytes;
    }
    else record {
      records = result.records ++ r ∷ [];
      last_sequence = r.sequence;
      byte_limited = result.byte_limited;
      bytes = snapshot_add result.bytes bytes;
    }

-- Both loops over records: the first record that does not fit ends the read.
unfoldable pub append_all : StreamReadResult → List StreamRecord → ℕ → StreamReadResult
append_all result [] max_bytes = result
append_all result (r ∷ rs) max_bytes =
    let next = append_bounded result r max_bytes in
    let rest = append_all next rs max_bytes in if next.byte_limited then next else rest

-- `record.Sequence >= sequence && record.Sequence <= end`
unfoldable pub in_range : ℕ → ℕ → List StreamRecord → List StreamRecord
in_range sequence last [] = []
in_range sequence last (r ∷ rs) =
    let rest = in_range sequence last rs in
    if leb sequence r.sequence && leb r.sequence last then r ∷ rest else rest

-- The chunks that end at `sequence` or later, newest first.
unfoldable pub chunks_from : ℕ → Chain → List (List StreamRecord)
chunks_from sequence [] = []
chunks_from sequence (c ∷ previous) =
    let rest = chunks_from sequence previous in
    if leb sequence (last_sequence c.records) then c.records ∷ rest else []

unfoldable pub append_chunks :
    StreamReadResult → ℕ → ℕ → List (List StreamRecord) → ℕ → StreamReadResult
append_chunks result sequence last [] max_bytes = result
append_chunks result sequence last (records ∷ chunks) max_bytes =
    let next = append_all result (in_range sequence last records) max_bytes in
    let rest = append_chunks next sequence last chunks max_bytes in
    if next.byte_limited then next else rest

-- The first sequence number that is read.
abbrev pub read_from : StreamLog → ℕ → ℕ
read_from log after =
    let sequence = (after + 1) % 2 ^ 64 in if ltb sequence log.first then log.first else sequence

-- How many records are read at most: a record takes 48 bytes or more.
abbrev pub read_count : StreamLog → ℕ → ℕ → ℕ → ℕ
read_count log sequence limit max_bytes =
    let available =
      if ltb log.first sequence
      then log.count - min log.count (sequence - log.first)
      else log.count in
    let wanted = min limit available in
    if not (max_bytes == 0) && ltb (max_bytes / 48) wanted then max_bytes / 48 + 1 else wanted

-- From the chunk that holds the last record on: inside it, or over several chunks.
unfoldable pub read_chunks : Chain → ℕ → ℕ → ℕ → StreamReadResult
read_chunks [] sequence count max_bytes = no_records
read_chunks (c ∷ previous) sequence count max_bytes =
    let last = (sequence + count - 1) % 2 ^ 64 in
    let start = sequence - first_sequence c.records in
    if leb (first_sequence c.records) sequence
    then append_all no_records (take count (drop start c.records)) max_bytes
    else append_chunks no_records sequence last (reverse (chunks_from sequence (c ∷ previous)))
        max_bytes

unfoldable pub read_log : StreamLog → ℕ → ℕ → ℕ → StreamReadResult
read_log log after limit max_bytes =
    let sequence = read_from log after in
    let count = read_count log sequence limit max_bytes in
    let last = (sequence + count - 1) % 2 ^ 64 in
    if limit == 0 || log.count == 0 || leb ((log.first + log.count - 1) % 2 ^ 64) after
    then no_records
    else read_chunks (chunk log.tail log.count log.first last) sequence count max_bytes

unfoldable pub read_bounded : StreamStore → Bytes → ℕ → ℕ → ℕ → StreamReadResult
read_bounded store name after limit max_bytes = read_log (log_of store name) after limit max_bytes
