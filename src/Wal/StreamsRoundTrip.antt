-- ===== src/Wal/StreamsRoundTrip.antt =====
-- Streams, offsets and stream operations come back as they were written, payloads in canonical form.
use latticedb_go.Base.{refl, Option, List, arith}
use latticedb_go.Base.Int.{IsU64}
use latticedb_go.Payload.Wire.{IsText}
use latticedb_go.Payload.Wire.Canonical.{IsStored, canonical}
use latticedb_go.Payload.Mirrors.{
  Restores, Restores-bind, Restores-last, u-Restores, str-Restores, slice-Restores, same-Restores,
  AllOption, map_slice,
}
use latticedb_go.Payload.Records.Restores.{value-Restores}
use latticedb_go.Wal.Streams.{
  PersistedStreamRecord, PersistedStream, PersistedStreamOffset, PersistedStreams,
  PersistedStreamOperation, encode_stream_record, encode_stream, encode_offset, encode_streams,
  encode_stream_operation, encode_stream_operations, decode_stream_record, decode_stream,
  decode_offset, decode_streams, decode_stream_operation, decode_stream_operations,
}

abbrev pub IsStreamRecord : PersistedStreamRecord → Type 0
IsStreamRecord r = IsU64 r.sequence × IsText r.kind × IsStored r.payload

abbrev pub canonical_stream_record : PersistedStreamRecord → PersistedStreamRecord
canonical_stream_record r = record r { payload = canonical r.payload }

record_element :
    (r : PersistedStreamRecord)
    → IsStreamRecord r
    → Restores (encode_stream_record r) decode_stream_record (canonical_stream_record r)
unfolding encode_stream_record decode_stream_record
record_element r (hs, hk, hp) = Restores-bind _ (u-Restores r.sequence hs) (
    Restores-bind _ (str-Restores r.kind hk)
      (Restores-last _ (canonical_stream_record r) (value-Restores r.payload hp) (λ d. refl)))

abbrev pub IsStream : PersistedStream → Type 0
IsStream s = IsText s.name × IsU64 s.next × AllOption IsStreamRecord s.records

abbrev pub canonical_stream : PersistedStream → PersistedStream
canonical_stream s = record s { records = map_slice canonical_stream_record s.records }

stream_element :
    (s : PersistedStream)
    → IsStream s
    → Restores (encode_stream s) decode_stream (canonical_stream s)
unfolding encode_stream decode_stream
stream_element s (hn, hx, hr) = Restores-bind _ (str-Restores s.name hn) (
    Restores-bind _ (u-Restores s.next hx) (
      Restores-last _ (canonical_stream s)
        (slice-Restores encode_stream_record decode_stream_record canonical_stream_record
          IsStreamRecord record_element 160 s.records (omega arith) (omega arith) hr)
        (λ d. refl)))

abbrev pub IsOffset : PersistedStreamOffset → Type 0
IsOffset o = IsText o.stream × IsText o.consumer × IsU64 o.sequence

offset_element :
    (o : PersistedStreamOffset) → IsOffset o → Restores (encode_offset o) decode_offset o
unfolding encode_offset decode_offset
offset_element o (hs, hc, hq) = Restores-bind _ (str-Restores o.stream hs) (
    Restores-bind _ (str-Restores o.consumer hc)
      (Restores-last _ o (u-Restores o.sequence hq) (λ d. refl)))

abbrev pub AreStreams : PersistedStreams → Type 0
AreStreams state = AllOption IsStream state.streams × AllOption IsOffset state.offsets

abbrev pub canonical_streams : PersistedStreams → PersistedStreams
canonical_streams state = record state { streams = map_slice canonical_stream state.streams }

pub streams-Restores :
    (state : PersistedStreams)
    → AreStreams state
    → Restores (encode_streams state) decode_streams (canonical_streams state)
unfolding encode_streams decode_streams
streams-Restores state (hs, ho) =
    Restores-bind _
      (slice-Restores encode_stream decode_stream canonical_stream IsStream stream_element 48
        state.streams (omega arith) (omega arith) hs)
      (Restores-last _ (canonical_streams state)
        (same-Restores encode_offset decode_offset IsOffset offset_element 40 state.offsets
          (omega arith) (omega arith) ho)
        (λ d. refl))

abbrev pub IsStreamOperation : PersistedStreamOperation → Type 0
IsStreamOperation op =
    IsText op.op_type
    × IsText op.stream
    × IsText op.consumer
    × IsU64 op.sequence
    × IsText op.kind
    × IsStored op.payload

abbrev pub canonical_operation : PersistedStreamOperation → PersistedStreamOperation
canonical_operation op = record op { payload = canonical op.payload }

operation_element :
    (op : PersistedStreamOperation)
    → IsStreamOperation op
    → Restores (encode_stream_operation op) decode_stream_operation (canonical_operation op)
unfolding encode_stream_operation decode_stream_operation
operation_element op (ht, hs, hc, hq, hk, hp) = Restores-bind _ (str-Restores op.op_type ht) (
    Restores-bind _ (str-Restores op.stream hs) (
      Restores-bind _ (str-Restores op.consumer hc) (
        Restores-bind _ (u-Restores op.sequence hq) (
          Restores-bind _ (str-Restores op.kind hk) (
            Restores-last _ (canonical_operation op) (value-Restores op.payload hp) (λ d. refl))))))

pub operations-Restores :
    (ops : Option (List PersistedStreamOperation))
    → AllOption IsStreamOperation ops
    → Restores
        (encode_stream_operations ops)
        decode_stream_operations
        (map_slice canonical_operation ops)
unfolding encode_stream_operations decode_stream_operations
operations-Restores ops h =
    slice-Restores encode_stream_operation decode_stream_operation canonical_operation
      IsStreamOperation operation_element 208 ops (omega arith) (omega arith) h
