-- ===== src/Wal/Streams.antt =====
-- internal/store/binary_streams.go: persisted streams, offsets and stream operations (stream.go).
use latticedb_go.Base.{ℕ, Option, List, Result, ok, ◌>>=◌}
use latticedb_go.Payload.Values.{Bytes, PersistedValue}
use latticedb_go.Payload.Encoder
use latticedb_go.Payload.Encoder.{Encoder}
use latticedb_go.Payload.Decoder
use latticedb_go.Payload.Decoder.{Decode}

pub record PersistedStreamRecord : Type 0 where
  pub sequence : ℕ
  pub kind : Bytes
  pub payload : PersistedValue

pub record PersistedStream : Type 0 where
  pub name : Bytes
  pub next : ℕ
  pub records : Option (List PersistedStreamRecord)

pub record PersistedStreamOffset : Type 0 where
  pub stream : Bytes
  pub consumer : Bytes
  pub sequence : ℕ

pub record PersistedStreams : Type 0 where
  pub streams : Option (List PersistedStream)
  pub offsets : Option (List PersistedStreamOffset)

pub record PersistedStreamOperation : Type 0 where
  pub op_type : Bytes
  pub stream : Bytes
  pub consumer : Bytes
  pub sequence : ℕ
  pub kind : Bytes
  pub payload : PersistedValue

unfoldable pub encode_stream_record : PersistedStreamRecord → Encoder → Result Encoder
encode_stream_record r e = do
  e ← Encoder.u r.sequence e
  e ← Encoder.str r.kind e
  Encoder.value r.payload 0 e

unfoldable pub encode_stream : PersistedStream → Encoder → Result Encoder
encode_stream s e = do
  e ← Encoder.str s.name e
  e ← Encoder.u s.next e
  Encoder.encode_binary_slice encode_stream_record s.records e

unfoldable pub encode_offset : PersistedStreamOffset → Encoder → Result Encoder
encode_offset o e = do
  e ← Encoder.str o.stream e
  e ← Encoder.str o.consumer e
  Encoder.u o.sequence e

unfoldable pub encode_streams : PersistedStreams → Encoder → Result Encoder
encode_streams state e = do
  e ← Encoder.encode_binary_slice encode_stream state.streams e
  Encoder.encode_binary_slice encode_offset state.offsets e

unfoldable pub encode_stream_operation : PersistedStreamOperation → Encoder → Result Encoder
encode_stream_operation op e = do
  e ← Encoder.str op.op_type e
  e ← Encoder.str op.stream e
  e ← Encoder.str op.consumer e
  e ← Encoder.u op.sequence e
  e ← Encoder.str op.kind e
  Encoder.value op.payload 0 e

unfoldable pub encode_stream_operations :
    Option (List PersistedStreamOperation) → Encoder → Result Encoder
encode_stream_operations operations e =
    Encoder.encode_binary_slice encode_stream_operation operations e

unfoldable pub decode_stream_record : Decode PersistedStreamRecord
decode_stream_record d = do
  (sequence, d) ← Decoder.u d
  (kind, d) ← Decoder.str d
  (payload, d) ← Decoder.value 0 d
  ok (record { sequence = sequence; kind = kind; payload = payload }, d)

unfoldable pub decode_stream : Decode PersistedStream
decode_stream d = do
  (name, d) ← Decoder.str d
  (next, d) ← Decoder.u d
  (records, d) ← Decoder.decode_binary_slice 160 decode_stream_record d
  ok (record { name = name; next = next; records = records }, d)

unfoldable pub decode_offset : Decode PersistedStreamOffset
decode_offset d = do
  (stream, d) ← Decoder.str d
  (consumer, d) ← Decoder.str d
  (sequence, d) ← Decoder.u d
  ok (record { stream = stream; consumer = consumer; sequence = sequence }, d)

unfoldable pub decode_streams : Decode PersistedStreams
decode_streams d = do
  (streams, d) ← Decoder.decode_binary_slice 48 decode_stream d
  (offsets, d) ← Decoder.decode_binary_slice 40 decode_offset d
  ok (record { streams = streams; offsets = offsets }, d)

unfoldable pub decode_stream_operation : Decode PersistedStreamOperation
decode_stream_operation d = do
  (op_type, d) ← Decoder.str d
  (stream, d) ← Decoder.str d
  (consumer, d) ← Decoder.str d
  (sequence, d) ← Decoder.u d
  (kind, d) ← Decoder.str d
  (payload, d) ← Decoder.value 0 d
  ok (
    record {
      op_type = op_type;
      stream = stream;
      consumer = consumer;
      sequence = sequence;
      kind = kind;
      payload = payload;
    },
    d,
  )

unfoldable pub decode_stream_operations : Decode (Option (List PersistedStreamOperation))
decode_stream_operations d = Decoder.decode_binary_slice 208 decode_stream_operation d
