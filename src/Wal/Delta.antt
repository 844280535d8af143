-- ===== src/Wal/Delta.antt =====
-- internal/store/binary_delta.go: the changes of one commit (store.go, `persistedDelta`).
use latticedb_go.Base.{
  ℕ, Option, none, some, Bool, true, false, List, ltb, ◌==◌, if◌then◌else◌, Result, ok, ◌>>=◌, ◌>>◌,
  refuse, invalid_delete_flag, invalid_presence_flag,
}
use latticedb_go.Payload.Values.{Bytes, Fields}
use latticedb_go.Payload.Encoder
use latticedb_go.Payload.Encoder.{Encoder}
use latticedb_go.Payload.Decoder
use latticedb_go.Payload.Decoder.{Decode, Decoder}
use latticedb_go.Payload.Records.{
  PersistedNode, PersistedEdge, PersistedFts, PersistedPropertyIndexDefinition, encode_node,
  encode_edge, encode_fts, encode_indexes, decode_node, decode_edge, decode_fts, decode_indexes,
}
use latticedb_go.Wal.Streams.{
  PersistedStreams, PersistedStreamOperation, encode_streams, encode_stream_operations,
  decode_streams, decode_stream_operations,
}

pub record PersistedAppMetadataChange : Type 0 where
  pub key : Option Bytes
  pub value : Option Bytes
  pub delete : Bool

pub record PersistedPropertyChange : Type 0 where
  pub id : ℕ
  pub set : Option Fields
  pub remove : Option (List Bytes)

pub record PersistedDelta : Type 0 where
  pub database_id : Bytes
  pub commit_id : ℕ
  pub next_node_id : ℕ
  pub next_edge_id : ℕ
  pub upsert_nodes : Option (List PersistedNode)
  pub delete_nodes : Option (List ℕ)
  pub upsert_edges : Option (List PersistedEdge)
  pub delete_edges : Option (List ℕ)
  pub upsert_fts : Option (List PersistedFts)
  pub delete_fts : Option (List ℕ)
  pub app_metadata : Option (List PersistedAppMetadataChange)
  pub streams : Option PersistedStreams
  pub stream_operations : Option (List PersistedStreamOperation)
  pub create_node_indexes : Option (List PersistedPropertyIndexDefinition)
  pub drop_node_indexes : Option (List PersistedPropertyIndexDefinition)
  pub create_edge_indexes : Option (List PersistedPropertyIndexDefinition)
  pub drop_edge_indexes : Option (List PersistedPropertyIndexDefinition)
  pub node_property_changes : Option (List PersistedPropertyChange)
  pub edge_property_changes : Option (List PersistedPropertyChange)

unfoldable pub encode_metadata_change : PersistedAppMetadataChange → Encoder → Result Encoder
encode_metadata_change am e = do
  e ← Encoder.write_bytes am.key e
  e ← Encoder.write_bytes am.value e
  Encoder.tag (if am.delete then 1 else 0) e

unfoldable pub encode_property_change : PersistedPropertyChange → Encoder → Result Encoder
encode_property_change pc e = do
  e ← Encoder.u pc.id e
  e ← Encoder.properties pc.set 0 e
  Encoder.strings pc.remove e

-- `if d.Streams == nil`
unfoldable pub encode_optional_streams : Option PersistedStreams → Encoder → Result Encoder
encode_optional_streams none e = Encoder.tag 0 e
encode_optional_streams (some state) e = do e ← Encoder.tag 1 e; encode_streams state e

unfoldable pub encode_delta : PersistedDelta → Encoder → Result Encoder
encode_delta d e = do
  e ← Encoder.str d.database_id e
  e ← Encoder.u d.commit_id e
  e ← Encoder.u d.next_node_id e
  e ← Encoder.u d.next_edge_id e
  e ← Encoder.encode_binary_slice encode_node d.upsert_nodes e
  e ← Encoder.ids d.delete_nodes e
  e ← Encoder.encode_binary_slice encode_edge d.upsert_edges e
  e ← Encoder.ids d.delete_edges e
  e ← Encoder.encode_binary_slice encode_fts d.upsert_fts e
  e ← Encoder.ids d.delete_fts e
  e ← Encoder.encode_binary_slice encode_metadata_change d.app_metadata e
  e ← encode_optional_streams d.streams e
  e ← encode_stream_operations d.stream_operations e
  e ← encode_indexes d.create_node_indexes e
  e ← encode_indexes d.drop_node_indexes e
  e ← encode_indexes d.create_edge_indexes e
  e ← encode_indexes d.drop_edge_indexes e
  e ← Encoder.encode_binary_slice encode_property_change d.node_property_changes e
  Encoder.encode_binary_slice encode_property_change d.edge_property_changes e

unfoldable pub decode_metadata_change : Decode PersistedAppMetadataChange
decode_metadata_change d = do
  (key, d) ← Decoder.read_bytes d
  (value, d) ← Decoder.read_bytes d
  (tag, d) ← Decoder.read_byte d
  refuse (ltb 1 tag) invalid_delete_flag
  ok (record { key = key; value = value; delete = tag == 1 }, d)

unfoldable pub decode_property_change : Decode PersistedPropertyChange
decode_property_change d = do
  (id, d) ← Decoder.u d
  (set, d) ← Decoder.properties 0 d
  (remove, d) ← Decoder.strings d
  ok (record { id = id; set = set; remove = remove }, d)

abbrev pub when_present : Bool → Decode (Option PersistedStreams)
when_present false d = ok (none, d)
when_present true d = do (state, d) ← decode_streams d; ok (some state, d)

unfoldable pub decode_optional_streams : Decode (Option PersistedStreams)
decode_optional_streams d = do
  (presence, d) ← Decoder.read_byte d
  refuse (ltb 1 presence) invalid_presence_flag
  when_present (presence == 1) d

unfoldable pub decode_delta : Decode PersistedDelta
decode_delta d = do
  (database_id, d) ← Decoder.str d
  (commit_id, d) ← Decoder.u d
  (next_node_id, d) ← Decoder.u d
  (next_edge_id, d) ← Decoder.u d
  (upsert_nodes, d) ← Decoder.decode_binary_slice 40 decode_node d
  (delete_nodes, d) ← Decoder.ids d
  (upsert_edges, d) ← Decoder.decode_binary_slice 48 decode_edge d
  (delete_edges, d) ← Decoder.ids d
  (upsert_fts, d) ← Decoder.decode_binary_slice 24 decode_fts d
  (delete_fts, d) ← Decoder.ids d
  (app_metadata, d) ← Decoder.decode_binary_slice 56 decode_metadata_change d
  (streams, d) ← decode_optional_streams d
  (stream_operations, d) ← decode_stream_operations d
  (create_node_indexes, d) ← decode_indexes d
  (drop_node_indexes, d) ← decode_indexes d
  (create_edge_indexes, d) ← decode_indexes d
  (drop_edge_indexes, d) ← decode_indexes d
  (node_property_changes, d) ← Decoder.decode_binary_slice 40 decode_property_change d
  (edge_property_changes, d) ← Decoder.decode_binary_slice 40 decode_property_change d
  ok (
    record {
      database_id = database_id;
      commit_id = commit_id;
      next_node_id = next_node_id;
      next_edge_id = next_edge_id;
      upsert_nodes = upsert_nodes;
      delete_nodes = delete_nodes;
      upsert_edges = upsert_edges;
      delete_edges = delete_edges;
      upsert_fts = upsert_fts;
      delete_fts = delete_fts;
      app_metadata = app_metadata;
      streams = streams;
      stream_operations = stream_operations;
      create_node_indexes = create_node_indexes;
      drop_node_indexes = drop_node_indexes;
      create_edge_indexes = create_edge_indexes;
      drop_edge_indexes = drop_edge_indexes;
      node_property_changes = node_property_changes;
      edge_property_changes = edge_property_changes;
    },
    d,
  )
