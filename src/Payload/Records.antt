-- ===== src/Payload/Records.antt =====
-- internal/store/binary_records.go: the persisted record types, field by field in the order of their
-- Go declarations (store.go).
pub mod Parts
pub mod RoundTrip
pub mod Restores
use latticedb_go.Base.{ℕ, Option, List, Result, ok, ◌>>=◌, ◌>>◌}
use latticedb_go.Payload.Values.{Bytes, Fields}
use latticedb_go.Payload.Encoder
use latticedb_go.Payload.Encoder.{Encoder}
use latticedb_go.Payload.Decoder
use latticedb_go.Payload.Decoder.{Decode}

pub record PersistedNode : Type 0 where
  pub id : ℕ
  pub labels : Option (List Bytes)
  pub properties : Option Fields

pub record PersistedEdge : Type 0 where
  pub id : ℕ
  pub source_id : ℕ
  pub target_id : ℕ
  pub edge_type : Bytes
  pub properties : Option Fields

pub record PersistedFts : Type 0 where
  pub node_id : ℕ
  pub text : Bytes

pub record PersistedPropertyIndexDefinition : Type 0 where
  pub scope : Bytes
  pub property : Bytes

pub record PersistedAppMetadata : Type 0 where
  pub key : Option Bytes
  pub value : Option Bytes

unfoldable pub encode_node : PersistedNode → Encoder → Result Encoder
encode_node n e = do
  e ← Encoder.u n.id e
  e ← Encoder.strings n.labels e
  Encoder.properties n.properties 0 e

unfoldable pub encode_edge : PersistedEdge → Encoder → Result Encoder
encode_edge ed e = do
  e ← Encoder.u ed.id e
  e ← Encoder.u ed.source_id e
  e ← Encoder.u ed.target_id e
  e ← Encoder.str ed.edge_type e
  Encoder.properties ed.properties 0 e

unfoldable pub encode_fts : PersistedFts → Encoder → Result Encoder
encode_fts f e = do e ← Encoder.u f.node_id e; Encoder.str f.text e

unfoldable pub encode_index : PersistedPropertyIndexDefinition → Encoder → Result Encoder
encode_index def e = do e ← Encoder.str def.scope e; Encoder.str def.property e

unfoldable pub encode_indexes :
    Option (List PersistedPropertyIndexDefinition) → Encoder → Result Encoder
encode_indexes = Encoder.encode_binary_slice encode_index

unfoldable pub encode_metadata_entry : PersistedAppMetadata → Encoder → Result Encoder
encode_metadata_entry m e = do e ← Encoder.write_bytes m.key e; Encoder.write_bytes m.value e

unfoldable pub encode_metadata : Option (List PersistedAppMetadata) → Encoder → Result Encoder
encode_metadata = Encoder.encode_binary_slice encode_metadata_entry

unfoldable pub decode_node : Decode PersistedNode
decode_node d = do
  (id, d) ← Decoder.u d
  (labels, d) ← Decoder.strings d
  (properties, d) ← Decoder.properties 0 d
  ok (record { id = id; labels = labels; properties = properties }, d)

unfoldable pub decode_edge : Decode PersistedEdge
decode_edge d = do
  (id, d) ← Decoder.u d
  (source, d) ← Decoder.u d
  (target, d) ← Decoder.u d
  (kind, d) ← Decoder.str d
  (properties, d) ← Decoder.properties 0 d
  ok (
    record {
      id = id;
      source_id = source;
      target_id = target;
      edge_type = kind;
      properties = properties;
    },
    d,
  )

unfoldable pub decode_fts : Decode PersistedFts
decode_fts d = do
  (id, d) ← Decoder.u d
  (text, d) ← Decoder.str d
  ok (record { node_id = id; text = text }, d)

unfoldable pub decode_index : Decode PersistedPropertyIndexDefinition
decode_index d = do
  (scope, d) ← Decoder.str d
  (property, d) ← Decoder.str d
  ok (record { scope = scope; property = property }, d)

unfoldable pub decode_indexes : Decode (Option (List PersistedPropertyIndexDefinition))
decode_indexes = Decoder.decode_binary_slice 32 decode_index

unfoldable pub decode_metadata_entry : Decode PersistedAppMetadata
decode_metadata_entry d = do
  (key, d) ← Decoder.read_bytes d
  (value, d) ← Decoder.read_bytes d
  ok (record { key = key; value = value }, d)

unfoldable pub decode_metadata : Decode (Option (List PersistedAppMetadata))
decode_metadata = Decoder.decode_binary_slice 32 decode_metadata_entry
