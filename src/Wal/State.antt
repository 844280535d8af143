-- ===== src/Wal/State.antt =====
-- internal/store/binary_state.go: whole states, and the payload of a log record. The reader of
-- `decodeBinaryWALPayload` is the list of the bytes that it yields.
use latticedb_go.Base.{
  ℕ, Option, none, some, List, [], ltb, ◌==◌, if◌then◌else◌, Result, ok, err, ◌>>=◌, ◌>>◌, refuse,
  dimensions_overflow, missing_snapshot, missing_delta, unknown_wal_kind, unknown_wal_tag,
}
use latticedb_go.Payload.Values.{Bytes}
use latticedb_go.Payload.Encoder
use latticedb_go.Payload.Encoder.{Encoder}
use latticedb_go.Payload.Decoder
use latticedb_go.Payload.Decoder.{Decode, Decoder, new_binary_decoder_bytes, finish}
use latticedb_go.Payload.Records.{
  PersistedNode, PersistedEdge, PersistedFts, PersistedPropertyIndexDefinition,
  PersistedAppMetadata, encode_node, encode_edge, encode_fts, encode_indexes, encode_metadata,
  decode_node, decode_edge, decode_fts, decode_indexes, decode_metadata,
}
use latticedb_go.Wal.Streams.{PersistedStreams, encode_streams, decode_streams}
use latticedb_go.Wal.Delta.{PersistedDelta, encode_delta, decode_delta}

pub record PersistedState : Type 0 where
  pub database_id : Bytes
  pub vector_dimensions : ℕ
  pub commit_id : ℕ
  pub next_node_id : ℕ
  pub next_edge_id : ℕ
  pub app_metadata : Option (List PersistedAppMetadata)
  pub nodes : Option (List PersistedNode)
  pub edges : Option (List PersistedEdge)
  pub fts : Option (List PersistedFts)
  pub node_indexes : Option (List PersistedPropertyIndexDefinition)
  pub edge_indexes : Option (List PersistedPropertyIndexDefinition)
  pub streams : PersistedStreams

unfoldable pub encode_state : PersistedState → Encoder → Result Encoder
encode_state s e = do
  e ← Encoder.str s.database_id e
  e ← Encoder.u s.vector_dimensions e
  e ← Encoder.u s.commit_id e
  e ← Encoder.u s.next_node_id e
  e ← Encoder.u s.next_edge_id e
  e ← encode_metadata s.app_metadata e
  e ← Encoder.encode_binary_slice encode_node s.nodes e
  e ← Encoder.encode_binary_slice encode_edge s.edges e
  e ← Encoder.encode_binary_slice encode_fts s.fts e
  e ← encode_indexes s.node_indexes e
  e ← encode_indexes s.edge_indexes e
  encode_streams s.streams e

-- `dimensions := d.u()` and its test.
unfoldable pub decode_dimensions : Decode ℕ
decode_dimensions d = do
  (dimensions, d) ← Decoder.u d
  refuse (ltb 65535 dimensions) dimensions_overflow
  ok (dimensions, d)

unfoldable pub decode_state : Decode PersistedState
decode_state d = do
  (database_id, d) ← Decoder.str d
  (vector_dimensions, d) ← decode_dimensions d
  (commit_id, d) ← Decoder.u d
  (next_node_id, d) ← Decoder.u d
  (next_edge_id, d) ← Decoder.u d
  (app_metadata, d) ← decode_metadata d
  (nodes, d) ← Decoder.decode_binary_slice 40 decode_node d
  (edges, d) ← Decoder.decode_binary_slice 48 decode_edge d
  (fts, d) ← Decoder.decode_binary_slice 24 decode_fts d
  (node_indexes, d) ← decode_indexes d
  (edge_indexes, d) ← decode_indexes d
  (streams, d) ← decode_streams d
  ok (
    record {
      database_id = database_id;
      vector_dimensions = vector_dimensions;
      commit_id = commit_id;
      next_node_id = next_node_id;
      next_edge_id = next_edge_id;
      app_metadata = app_metadata;
      nodes = nodes;
      edges = edges;
      fts = fts;
      node_indexes = node_indexes;
      edge_indexes = edge_indexes;
      streams = streams;
    },
    d,
  )

-- The strings that `Kind` is compared with, and any other.
pub data WalKind : Type 0 where
  checkpoint snapshot delta property_delta : WalKind
  other : Bytes → WalKind

pub record WalPayload : Type 0 where
  pub kind : WalKind
  pub snapshot_of : Option PersistedState
  pub delta_of : Option PersistedDelta

abbrev pub encode_wal_snapshot : Option PersistedState → Encoder → Result Encoder
encode_wal_snapshot none e = err missing_snapshot
encode_wal_snapshot (some state) e = do e ← Encoder.tag 1 e; encode_state state e

abbrev pub encode_wal_delta : ℕ → Option PersistedDelta → Encoder → Result Encoder
encode_wal_delta tag none e = err missing_delta
encode_wal_delta tag (some changes) e = do e ← Encoder.tag tag e; encode_delta changes e

-- `writeBinaryWALPayload`
unfoldable pub encode_wal_payload : WalPayload → Encoder → Result Encoder
encode_wal_payload value e = elim (value.kind) [
  | checkpoint ↦ Encoder.tag 0 e
  | snapshot ↦ encode_wal_snapshot value.snapshot_of e
  | delta ↦ encode_wal_delta 2 value.delta_of e
  | property_delta ↦ encode_wal_delta 3 value.delta_of e
  | other name ↦ err unknown_wal_kind
]

abbrev pub unlimited : Encoder
unlimited = record { out = []; allocation_limit = 0; allocation_bytes = 0 }

unfoldable pub encode_binary_wal_payload : WalPayload → Result Bytes
encode_binary_wal_payload value = do e ← encode_wal_payload value unlimited; ok e.out

-- `binaryEncoder.state` on an empty buffer.
unfoldable pub encode_binary_state : PersistedState → Result Bytes
encode_binary_state state = do e ← encode_state state unlimited; ok e.out

abbrev pub of_checkpoint : WalPayload
of_checkpoint = record { kind = checkpoint; snapshot_of = none; delta_of = none }

abbrev pub of_snapshot : PersistedState → WalPayload
of_snapshot state = record { kind = snapshot; snapshot_of = some state; delta_of = none }

abbrev pub of_delta : WalKind → PersistedDelta → WalPayload
of_delta kind changes = record { kind = kind; snapshot_of = none; delta_of = some changes }

-- The `switch` on the tag.
unfoldable pub decode_wal_tagged : ℕ → Decode WalPayload
decode_wal_tagged tag d =
    if tag == 0
    then ok (of_checkpoint, d)
    else if tag == 1
    then (do (state, d) ← decode_state d; ok (of_snapshot state, d))
    else if tag == 2
    then (do (changes, d) ← decode_delta d; ok (of_delta delta changes, d))
    else if tag == 3
    then (do (changes, d) ← decode_delta d; ok (of_delta property_delta changes, d))
    else err unknown_wal_tag

unfoldable pub decode_wal_payload : Decode WalPayload
unfolding decode_wal_tagged
decode_wal_payload d = do (tag, d) ← Decoder.read_byte d; decode_wal_tagged tag d

unfoldable pub decode_binary_wal_payload : Bytes → ℕ → Result WalPayload
unfolding decode_wal_payload
decode_binary_wal_payload payload max_bytes = do
  (value, d) ← decode_wal_payload (new_binary_decoder_bytes payload max_bytes)
  finish d
  ok value

-- A checkpoint file's payload.
unfoldable pub decode_binary_state_payload : Bytes → ℕ → Result PersistedState
decode_binary_state_payload payload max_bytes = do
  (state, d) ← decode_state (new_binary_decoder_bytes payload max_bytes)
  finish d
  ok state
