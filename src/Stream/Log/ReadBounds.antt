-- ===== src/Stream/Log/ReadBounds.antt =====
-- A bounded read keeps its byte limit and reports the bytes of what it returns.
use latticedb_go.Base.{
  ℕ, ◌+◌, ◌-◌, ◌%◌, ◌^◌, ◌≤◌, ◌≡◌, refl, sym, ap, ◌∙◌, List, [], ◌∷◌, ◌++◌, Bool, Bool-cases, inl,
  inr, true, false, not, ltb, leb, ◌==◌, if◌then◌else◌, take, drop, reverse, ◌||◌, ◌&&◌, arith,
}
use latticedb_go.Payload.Values.{Bytes}
use latticedb_go.Stream.Value.{snapshot_add}
use latticedb_go.Stream.Chunk.{
  StreamRecord, Chain, stream_record_bytes, add_bytes, chunk, first_sequence,
}
use latticedb_go.Stream.Log.{StreamStore, log_of}
use latticedb_go.Stream.Log.Read.{
  StreamReadResult, no_records, append_bounded, append_all, in_range, chunks_from, append_chunks,
  read_chunks, read_log, read_bounded, read_from, read_count,
}

-- The total is the saturated sum over the records, and within a limit that is not zero.
abbrev pub IsWithin : ℕ → StreamReadResult → Type 0
IsWithin max_bytes result =
    (result.bytes ≡ add_bytes 0 result.records) × (1 ≤ max_bytes → result.bytes ≤ max_bytes)

add_bytes-append :
    (total : ℕ) (rs : List StreamRecord) (r : StreamRecord)
    → add_bytes total (rs ++ r ∷ []) ≡ snapshot_add (add_bytes total rs) (stream_record_bytes r)
unfolding add_bytes
add_bytes-append total [] r = refl
add_bytes-append total (x ∷ rs) r =
    add_bytes-append (snapshot_add total (stream_record_bytes x)) rs r

fits-bytes :
    (max_bytes bytes held : ℕ)
    → (not (max_bytes == 0) && (ltb max_bytes bytes || ltb (max_bytes - bytes) held)) ≡ false
    → 1 ≤ max_bytes
    → held + bytes ≤ max_bytes
fits-bytes max_bytes bytes held fits limited = ground arith

snapshot_add-le : (left right : ℕ) → snapshot_add left right ≤ left + right
unfolding snapshot_add
snapshot_add-le left right = ground arith

append_bounded-IsWithin :
    (result : StreamReadResult) (r : StreamRecord) (max_bytes : ℕ)
    → IsWithin max_bytes result
    → IsWithin max_bytes (append_bounded result r max_bytes)
unfolding append_bounded
append_bounded-IsWithin result r max_bytes (summed, limited) =
    elim (Bool-cases (
      not (max_bytes == 0)
      && (ltb max_bytes (stream_record_bytes r)
          || ltb (max_bytes - stream_record_bytes r) result.bytes))) [
            | inl full ↦ rw full (summed, limited)
            | inr fits ↦ rw fits (
              ap (λ (n : ℕ). snapshot_add n (stream_record_bytes r)) summed
                  ∙ sym (add_bytes-append 0 result.records r),
              λ positive.
                  let room =
                    fits-bytes max_bytes (stream_record_bytes r) result.bytes fits positive in
                  omega (arith, snapshot_add-le result.bytes (stream_record_bytes r)),
            )
          ]

if-IsWithin :
    (max_bytes : ℕ) (b : Bool) (x y : StreamReadResult)
    → IsWithin max_bytes x
    → IsWithin max_bytes y
    → IsWithin max_bytes (if b then x else y)
if-IsWithin max_bytes true x y hx hy = hx
if-IsWithin max_bytes false x y hx hy = hy

append_all-IsWithin :
    (result : StreamReadResult) (rs : List StreamRecord) (max_bytes : ℕ)
    → IsWithin max_bytes result
    → IsWithin max_bytes (append_all result rs max_bytes)
unfolding append_all
append_all-IsWithin result [] max_bytes h = h
append_all-IsWithin result (r ∷ rs) max_bytes h =
    let next = append_bounded result r max_bytes in
    let kept = append_bounded-IsWithin result r max_bytes h in
    if-IsWithin max_bytes next.byte_limited next (append_all next rs max_bytes) kept
      (append_all-IsWithin next rs max_bytes kept)

append_chunks-IsWithin :
    (result : StreamReadResult) (sequence last : ℕ) (chunks : List (List StreamRecord))
    (max_bytes : ℕ)
    → IsWithin max_bytes result
    → IsWithin max_bytes (append_chunks result sequence last chunks max_bytes)
unfolding append_chunks
append_chunks-IsWithin result sequence last [] max_bytes h = h
append_chunks-IsWithin result sequence last (records ∷ chunks) max_bytes h =
    let next = append_all result (in_range sequence last records) max_bytes in
    let kept = append_all-IsWithin result (in_range sequence last records) max_bytes h in
    if-IsWithin max_bytes next.byte_limited next (append_chunks next sequence last chunks max_bytes)
      kept (append_chunks-IsWithin next sequence last chunks max_bytes kept)

no_records-IsWithin : (max_bytes : ℕ) → IsWithin max_bytes no_records
unfolding add_bytes
no_records-IsWithin max_bytes = (refl, λ positive. omega arith)

read_chunks-IsWithin :
    (chain : Chain) (sequence count max_bytes : ℕ)
    → IsWithin max_bytes (read_chunks chain sequence count max_bytes)
unfolding read_chunks
read_chunks-IsWithin [] sequence count max_bytes = no_records-IsWithin max_bytes
read_chunks-IsWithin (c ∷ previous) sequence count max_bytes =
    let start = sequence - first_sequence c.records in
    let last = (sequence + count - 1) % 2 ^ 64 in
    let chunks = reverse (chunks_from sequence (c ∷ previous)) in
    if-IsWithin max_bytes (leb (first_sequence c.records) sequence)
      (append_all no_records (take count (drop start c.records)) max_bytes)
      (append_chunks no_records sequence last chunks max_bytes)
      (append_all-IsWithin no_records (take count (drop start c.records)) max_bytes
        (no_records-IsWithin max_bytes))
      (append_chunks-IsWithin no_records sequence last chunks max_bytes
        (no_records-IsWithin max_bytes))

-- A bounded read reports the saturated byte total of the records that it returns, and the total is
-- within the limit unless the limit is zero, which stands for none.
pub read_bounded-IsWithin :
    (store : StreamStore) (name : Bytes) (after limit max_bytes : ℕ)
    → IsWithin max_bytes (read_bounded store name after limit max_bytes)
unfolding read_bounded read_log
read_bounded-IsWithin store name after limit max_bytes =
    let log = log_of store name in
    let sequence = read_from log after in
    let count = read_count log sequence limit max_bytes in
    let found = chunk log.tail log.count log.first ((sequence + count - 1) % 2 ^ 64) in
    if-IsWithin max_bytes
      (limit == 0 || log.count == 0 || leb ((log.first + log.count - 1) % 2 ^ 64) after) no_records
      (read_chunks found sequence count max_bytes) (no_records-IsWithin max_bytes)
      (read_chunks-IsWithin found sequence count max_bytes)
