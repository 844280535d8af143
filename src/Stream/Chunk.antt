-- ===== src/Stream/Chunk.antt =====
-- internal/store/stream.go, `streamChunk`: the chunks of a log, newest first. A pointer to an older
-- chunk is the number of `previous` steps that lead to it.
pub mod Links
pub mod Search
use latticedb_go.Base.{
  ℕ, zero, suc, ◌+◌, ◌-◌, List, [], ◌∷◌, ◌++◌, none, some, ltb, leb, ◌==◌, if◌then◌else◌, length,
  get_elem?, drop, ◌||◌, Option,
}
use latticedb_go.Payload.Values.{Bytes}
use latticedb_go.Stream.Value.{Value, snapshot_add, snapshot_mul, estimate_value_bytes}

pub record StreamRecord : Type 0 where
  pub sequence : ℕ
  pub kind : Bytes
  pub payload : Value

-- Byte totals include the preceding chunks.
pub record StreamChunk : Type 0 where
  pub skips : List ℕ
  pub records : List StreamRecord
  pub bytes : ℕ
  pub snapshot_bytes : ℕ

-- `log.tail` with everything that it leads to.
abbrev pub Chain : Type 0
Chain = List StreamChunk

abbrev pub stream_chunk_size : ℕ
stream_chunk_size = 64

unfoldable pub stream_record_bytes : StreamRecord → ℕ
stream_record_bytes r = snapshot_add (length r.kind + 48) (estimate_value_bytes r.payload)

unfoldable pub stream_record_snapshot_bytes : StreamRecord → ℕ
stream_record_snapshot_bytes r =
    snapshot_add (snapshot_mul (length r.kind) 6) (snapshot_add 48 (estimate_value_bytes r.payload))

-- `for _, record := range records`: the running totals.
unfoldable pub add_bytes : ℕ → List StreamRecord → ℕ
add_bytes total [] = total
add_bytes total (r ∷ rs) = add_bytes (snapshot_add total (stream_record_bytes r)) rs

unfoldable pub add_snapshot_bytes : ℕ → List StreamRecord → ℕ
add_snapshot_bytes total [] = total
add_snapshot_bytes total (r ∷ rs) =
    add_snapshot_bytes (snapshot_add total (stream_record_snapshot_bytes r)) rs

abbrev pub chain_bytes : Chain → ℕ
chain_bytes [] = 0
chain_bytes (c ∷ previous) = c.bytes

abbrev pub chain_snapshot_bytes : Chain → ℕ
chain_snapshot_bytes [] = 0
chain_snapshot_bytes (c ∷ previous) = c.snapshot_bytes

-- The skip at `level` of the chunk `steps` steps behind the new chunk; `none` is past its last skip.
unfoldable pub ancestor_skip : Chain → ℕ → ℕ → Option ℕ
ancestor_skip previous zero level = none
ancestor_skip previous (suc behind) level = elim (drop behind previous) [
  | [] ↦ none
  | c ∷ rest ↦ get_elem? c.skips level
]

-- `for level := 1; ; level++`: `below` is `level-1`, `last` is `chunk.skips[level-1]`. Each round
-- steps further back, so the length of the chain is enough fuel.
unfoldable pub link_skips : ℕ → Chain → ℕ → ℕ → List ℕ
unfolding ancestor_skip
link_skips zero previous below last = []
link_skips (suc fuel) previous below last = elim (ancestor_skip previous last below) [
  | none ↦ []
  | some s ↦ (last + s) ∷ link_skips fuel previous (suc below) (last + s)
]

unfoldable pub new_skips : Chain → List ℕ
unfolding link_skips
new_skips [] = []
new_skips (c ∷ older) = 1 ∷ link_skips (length (c ∷ older)) (c ∷ older) 0 1

-- `newStreamChunk`, linked in front of its predecessor.
unfoldable pub new_stream_chunk : Chain → List StreamRecord → Chain
unfolding new_skips
new_stream_chunk previous records =
    record {
      skips = new_skips previous;
      records = records;
      bytes = add_bytes (chain_bytes previous) records;
      snapshot_bytes = add_snapshot_bytes (chain_snapshot_bytes previous) records;
    }
    ∷ previous

-- `chunk.records[0].Sequence`, and that of the last record; a chunk holds at least one.
abbrev pub first_sequence : List StreamRecord → ℕ
first_sequence [] = 0
first_sequence (r ∷ rs) = r.sequence

abbrev pub last_sequence : List StreamRecord → ℕ
last_sequence [] = 0
last_sequence (r ∷ []) = r.sequence
last_sequence (r ∷ (s ∷ rs)) = last_sequence (s ∷ rs)

abbrev pub chain_last : Chain → ℕ
chain_last [] = 0
chain_last (c ∷ previous) = last_sequence c.records

-- The loop over the levels in `streamLog.chunk`: `level` counts the levels that are left.
unfoldable pub descend : ℕ → ℕ → Chain → Chain
descend zero sequence chain = chain
descend (suc level) sequence [] = []
descend (suc level) sequence (c ∷ previous) =
    let chain = c ∷ previous in
    descend level sequence (elim (get_elem? c.skips level) [
      | none ↦ chain
      | some steps ↦
          if leb sequence (chain_last (drop steps chain)) then drop steps chain else chain
    ])

abbrev pub chain_levels : Chain → ℕ
chain_levels [] = 0
chain_levels (c ∷ previous) = length c.skips

abbrev pub chain_first : Chain → ℕ
chain_first [] = 0
chain_first (c ∷ previous) = first_sequence c.records

-- `streamLog.chunk`: the chunk that holds a sequence number, and what lies behind it; `[]` is nil.
unfoldable pub chunk : Chain → ℕ → ℕ → ℕ → Chain
unfolding descend
chunk tail count first sequence =
    let found = descend (chain_levels tail) sequence tail in
    if length tail == 0 || count == 0 || ltb sequence first || ltb (chain_last tail) sequence
    then []
    else if ltb sequence (chain_first found)
    then []
    else found
