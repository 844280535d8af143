-- ===== src/Stream/Log.antt =====
-- internal/store/stream.go, `StreamStore`: the logs of a store and the operations on them. The
-- fields that serve a page source, and the marks of copied maps, are left out.
pub mod Valid
pub mod Find
pub mod Publish
pub mod Stores
pub mod Read
pub mod ReadBounds
pub mod Trim
pub mod Rebuild
use latticedb_go.Base.{
  ℕ, suc, zero, ◌+◌, ◌-◌, ◌%◌, ◌/◌, ◌^◌, List, [], ◌∷◌, ◌++◌, Option, none, some, Bool, true, false,
  not, ltb, leb, ◌==◌, if◌then◌else◌, length, take, drop, ◌||◌, ◌&&◌, min,
}
use latticedb_go.Payload.Values.{Bytes}
use latticedb_go.Stream.Value.{Value, snapshot_add, snapshot_mul}
use latticedb_go.Stream.NameMap.{lookup, assign}
use latticedb_go.Stream.Chunk.{
  StreamRecord, StreamChunk, Chain, stream_chunk_size, stream_record_bytes,
  stream_record_snapshot_bytes, new_stream_chunk, chain_last, chunk, first_sequence,
}

pub record StreamLog : Type 0 where
  pub tail : Chain
  pub first : ℕ
  pub count : ℕ
  pub bytes : ℕ
  pub snapshot_bytes : ℕ

abbrev pub empty_log : StreamLog
empty_log = record { tail = []; first = 0; count = 0; bytes = 0; snapshot_bytes = 0 }

pub record StreamStore : Type 0 where
  pub streams : List (Bytes × StreamLog)
  pub next : List (Bytes × ℕ)
  pub offsets : List (Bytes × List (Bytes × ℕ))
  pub logical_bytes : ℕ
  pub snapshot_bytes : ℕ

abbrev pub new_stream_store : StreamStore
new_stream_store = record {
  streams = [];
  next = [];
  offsets = [];
  logical_bytes = 0;
  snapshot_bytes = 0;
}

-- A map's value, or the zero value.
abbrev pub or_zero : Option ℕ → ℕ
or_zero none = 0
or_zero (some n) = n

abbrev pub or_empty_log : Option StreamLog → StreamLog
or_empty_log none = empty_log
or_empty_log (some log) = log

abbrev pub or_empty : Option (List (Bytes × ℕ)) → List (Bytes × ℕ)
or_empty none = []
or_empty (some offsets) = offsets

abbrev pub log_of : StreamStore → Bytes → StreamLog
log_of store name = or_empty_log (lookup store.streams name)

abbrev pub next_of : StreamStore → Bytes → ℕ
next_of store name = or_zero (lookup store.next name)

unfoldable pub next_sequence : StreamStore → Bytes → ℕ
next_sequence store name = if next_of store name == 0 then 1 else next_of store name

unfoldable pub get_offset : StreamStore → Bytes → Bytes → Option ℕ
get_offset store name consumer = lookup (or_empty (lookup store.offsets name)) consumer

abbrev pub stream_snapshot_bytes : Bytes → ℕ
stream_snapshot_bytes name = snapshot_add (snapshot_mul (length name) 6) 64

abbrev pub stream_offset_snapshot_bytes : Bytes → Bytes → ℕ
stream_offset_snapshot_bytes stream consumer =
    snapshot_add (snapshot_add (snapshot_mul (length stream) 6) (snapshot_mul (length consumer) 6))
      48

-- The tail with a record behind its last: a new chunk, or a copy of the last chunk that is longer.
unfoldable pub append_record : Chain → StreamRecord → Chain
append_record [] r = new_stream_chunk [] (r ∷ [])
append_record (c ∷ previous) r =
    if length c.records == stream_chunk_size
    then new_stream_chunk (c ∷ previous) (r ∷ [])
    else record {
      skips = c.skips;
      records = c.records ++ r ∷ [];
      bytes = snapshot_add c.bytes (stream_record_bytes r);
      snapshot_bytes = snapshot_add c.snapshot_bytes (stream_record_snapshot_bytes r);
    }
      ∷ previous

-- `Publish`'s update of the log that it publishes to.
unfoldable pub publish_log : StreamLog → StreamRecord → StreamLog
publish_log log r = record {
  tail = append_record log.tail r;
  first = if log.count == 0 then r.sequence else log.first;
  count = (log.count + 1) % 2 ^ 64;
  bytes = snapshot_add log.bytes (stream_record_bytes r);
  snapshot_bytes = snapshot_add log.snapshot_bytes (stream_record_snapshot_bytes r);
}

-- The charge for the name of a stream that had no entry in `next`.
abbrev pub charge : Bool → ℕ → ℕ → ℕ
charge new total bytes = if new then snapshot_add total bytes else total

unfoldable pub publish : StreamStore → Bytes → Bytes → Value → ℕ × StreamStore
unfolding publish_log next_sequence
publish store name kind payload =
    let new_stream = next_of store name == 0 in
    let sequence = next_sequence store name in
    let r : StreamRecord = record { sequence = sequence; kind = kind; payload = payload } in
    (
      sequence,
      record {
        streams = assign store.streams name (publish_log (log_of store name) r);
        next = assign store.next name ((sequence + 1) % 2 ^ 64);
        offsets = store.offsets;
        logical_bytes =
            charge new_stream (snapshot_add store.logical_bytes (stream_record_bytes r))
              (length name + 64);
        snapshot_bytes =
            charge new_stream (snapshot_add store.snapshot_bytes (stream_record_snapshot_bytes r))
              (stream_snapshot_bytes name);
      },
    )

-- An entry in `next` for a stream that has none.
unfoldable pub ensure_stream : StreamStore → Bytes → StreamStore
ensure_stream store name =
    if next_of store name == 0
    then record {
      streams = store.streams;
      next = assign store.next name 1;
      offsets = store.offsets;
      logical_bytes = snapshot_add store.logical_bytes (length name + 64);
      snapshot_bytes = snapshot_add store.snapshot_bytes (stream_snapshot_bytes name);
    }
    else store

unfoldable pub set_offset : StreamStore → Bytes → Bytes → ℕ → StreamStore
unfolding ensure_stream get_offset
set_offset store name consumer sequence =
    let named = ensure_stream store name in
    let consumers = or_empty (lookup named.offsets name) in
    let new : Bool = elim (lookup consumers consumer) [ none ↦ true | some old ↦ false ] in
    record {
      streams = named.streams;
      next = named.next;
      offsets = assign named.offsets name (assign consumers consumer sequence);
      logical_bytes = charge new named.logical_bytes (length name + length consumer + 48);
      snapshot_bytes = charge new named.snapshot_bytes (stream_offset_snapshot_bytes name consumer);
    }
