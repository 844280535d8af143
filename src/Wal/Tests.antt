-- ===== src/Wal/Tests.antt =====
-- Runs of the log record codec, and the theorems at concrete payloads.
use latticedb_go.Base.{
  ◌++◌, ◌≡◌, refl, true, none, some, [], ◌∷◌, arith, ok, err, missing_snapshot, missing_delta,
  unknown_wal_tag, trailing_data,
}
use latticedb_go.Base.Int.{pos, negsuc}
use latticedb_go.Payload.Values.{Bytes, int, string, null, list, item, no_items, field, no_fields}
use latticedb_go.Payload.Values
use latticedb_go.Payload.Varint
use latticedb_go.Payload.Encoder
use latticedb_go.Payload.Decoder
use latticedb_go.Payload.Wire.Primitives.{at_bytes}
use latticedb_go.Payload.Streamed.{u-read_uvarint}
use latticedb_go.Payload.Records.{
  encode_node, encode_edge, encode_fts, encode_index, encode_indexes, encode_metadata,
}
use latticedb_go.Wal.Streams
use latticedb_go.Wal.Streams.{encode_streams}
use latticedb_go.Wal.Delta.{
  PersistedDelta, encode_delta, encode_metadata_change, encode_property_change,
  encode_optional_streams,
}
use latticedb_go.Wal.DeltaRoundTrip.{IsDelta}
use latticedb_go.Wal.State.{
  PersistedState, snapshot, delta, property_delta, encode_state, encode_wal_payload,
  encode_binary_wal_payload, encode_binary_state, decode_wal_tagged, decode_wal_payload,
  decode_binary_wal_payload, decode_binary_state_payload, of_delta,
}
use latticedb_go.Wal.RoundTrip.{
  IsState, canonical_state, canonical_payload, decode_binary_wal_payload-encode,
  decode_binary_wal_payload-trailing, decode_binary_state_payload-encode,
}

-- One node with two properties out of order, one edge, one stream with a record and an offset.
abbrev state : PersistedState
state = record {
  database_id = b'd' ∷ [];
  vector_dimensions = 3;
  commit_id = 300;
  next_node_id = 2;
  next_edge_id = 1;
  app_metadata = none;
  nodes = some (
      record {
        id = 1;
        labels = some ((b'P' ∷ []) ∷ []);
        properties = some (field (b'z' ∷ []) (int (negsuc 6)) (field (b'a' ∷ []) null no_fields));
      }
      ∷ []);
  edges = none;
  fts = some (record { node_id = 1; text = b't' ∷ [] } ∷ []);
  node_indexes = some (record { scope = b'P' ∷ []; property = b'a' ∷ [] } ∷ []);
  edge_indexes = none;
  streams = record {
    streams = some (
        record {
          name = b's' ∷ [];
          next = 2;
          records = some (record { sequence = 1; kind = b'k' ∷ []; payload = int (pos 5) } ∷ []);
        }
        ∷ []);
    offsets = some (record { stream = b's' ∷ []; consumer = b'c' ∷ []; sequence = 1 } ∷ []);
  };
}

abbrev state_bytes : Bytes
state_bytes =
    1 ∷ 100 ∷ 3 ∷ 172 ∷ 2 ∷ 2 ∷ 1 ∷ 0 ∷ 2 ∷ 1 ∷ 2 ∷ 1 ∷ 80 ∷ 3 ∷ 1 ∷ 97 ∷ 1 ∷ 1 ∷ 122 ∷ 3 ∷ 13 ∷ 0
    ∷ 2 ∷ 1 ∷ 1 ∷ 116 ∷ 2 ∷ 1 ∷ 80 ∷ 1 ∷ 97 ∷ 0 ∷ 2 ∷ 1 ∷ 115 ∷ 2 ∷ 2 ∷ 1 ∷ 1 ∷ 107 ∷ 3 ∷ 10 ∷ 2 ∷ 1
    ∷ 115 ∷ 1 ∷ 99 ∷ 1 ∷ []

state_run : encode_binary_state state ≡ ok state_bytes
unfolding encode_binary_state encode_state encode_node encode_edge encode_fts encode_indexes
    encode_metadata encode_streams Streams.encode_stream Streams.encode_stream_record
    Streams.encode_offset Encoder.u Encoder.i Encoder.tag Encoder.strings Encoder.str
    Encoder.admit_decoded Encoder.properties Encoder.multiply_saturated Values.utf8_valid
    Values.bytes_less Varint.put_uvarint Varint.zigzag Encoder.encode_binary_slice encode_index
state_run = refl

-- A node's property changed and removed, metadata deleted, another edge.
abbrev changes : PersistedDelta
changes = record {
  database_id = b'd' ∷ [];
  commit_id = 301;
  next_node_id = 2;
  next_edge_id = 2;
  upsert_nodes = none;
  delete_nodes = some (7 ∷ []);
  upsert_edges = some (
      record { id = 1; source_id = 1; target_id = 1; edge_type = b'K' ∷ []; properties = none }
      ∷ []);
  delete_edges = none;
  upsert_fts = none;
  delete_fts = none;
  app_metadata = some (record { key = some (b'm' ∷ []); value = none; delete = true } ∷ []);
  streams = none;
  stream_operations = none;
  create_node_indexes = none;
  drop_node_indexes = none;
  create_edge_indexes = none;
  drop_edge_indexes = none;
  node_property_changes = some (
      record {
        id = 1;
        set = some (field (b'a' ∷ []) null no_fields);
        remove = some ((b'z' ∷ []) ∷ []);
      }
      ∷ []);
  edge_property_changes = none;
}

abbrev delta_bytes : Bytes
delta_bytes =
    2 ∷ 1 ∷ 100 ∷ 173 ∷ 2 ∷ 2 ∷ 2 ∷ 0 ∷ 2 ∷ 7 ∷ 2 ∷ 1 ∷ 1 ∷ 1 ∷ 1 ∷ 75 ∷ 0 ∷ 0 ∷ 0 ∷ 0 ∷ 2 ∷ 2 ∷ 109
    ∷ 0 ∷ 1 ∷ 0 ∷ 0 ∷ 0 ∷ 0 ∷ 0 ∷ 0 ∷ 2 ∷ 1 ∷ 2 ∷ 1 ∷ 97 ∷ 1 ∷ 2 ∷ 1 ∷ 122 ∷ 0 ∷ []

delta_run : encode_binary_wal_payload (of_delta delta changes) ≡ ok delta_bytes
unfolding encode_binary_wal_payload encode_wal_payload encode_delta encode_edge
    encode_metadata_change encode_property_change encode_optional_streams encode_indexes Encoder.u
    Encoder.tag Encoder.strings Encoder.str Encoder.ids Encoder.write_bytes Encoder.admit_decoded
    Encoder.properties Encoder.multiply_saturated Values.utf8_valid Values.bytes_less
    Varint.put_uvarint Encoder.encode_binary_slice Streams.encode_stream_operations
delta_run = refl

-- The writer refuses a payload without the field that its kind selects; the reader, an unknown tag.
snapshot_missing :
    encode_binary_wal_payload
      (record { kind = snapshot; snapshot_of = none; delta_of = some changes })
    ≡ err missing_snapshot
unfolding encode_binary_wal_payload encode_wal_payload
snapshot_missing = refl

delta_missing :
    encode_binary_wal_payload
      (record { kind = property_delta; snapshot_of = some state; delta_of = none })
    ≡ err missing_delta
unfolding encode_binary_wal_payload encode_wal_payload
delta_missing = refl

tag_unknown : decode_binary_wal_payload (4 ∷ []) 64 ≡ err unknown_wal_tag
unfolding decode_binary_wal_payload decode_wal_payload decode_wal_tagged Decoder.read_byte
    Decoder.new_binary_decoder_bytes
tag_unknown = refl

state_valid : IsState state
unfolding Values.utf8_valid Values.same_bytes
state_valid = record {
  database_id = (omega arith, refl);
  vector_dimensions = omega arith;
  commit_id = omega arith;
  next_node_id = omega arith;
  next_edge_id = omega arith;
  app_metadata = tt;
  nodes = ground arith;
  edges = tt;
  fts = ground arith;
  node_indexes = ground arith;
  edge_indexes = tt;
  streams = ground arith;
}

changes_valid : IsDelta changes
unfolding Values.utf8_valid Values.same_bytes
changes_valid = record {
  database_id = (omega arith, refl);
  commit_id = omega arith;
  next_node_id = omega arith;
  next_edge_id = omega arith;
  upsert_nodes = tt;
  delete_nodes = ground arith;
  upsert_edges = ground arith;
  delete_edges = tt;
  upsert_fts = tt;
  delete_fts = tt;
  app_metadata = ground arith;
  streams = tt;
  stream_operations = tt;
  create_node_indexes = tt;
  drop_node_indexes = tt;
  create_edge_indexes = tt;
  drop_edge_indexes = tt;
  node_property_changes = ground arith;
  edge_property_changes = tt;
}

decode_binary_wal_payload-encode_example :
    decode_binary_wal_payload delta_bytes 8192 ≡ ok (canonical_payload (of_delta delta changes))
decode_binary_wal_payload-encode_example =
    decode_binary_wal_payload-encode (of_delta delta changes) delta_bytes 8192 (tt, changes_valid)
      delta_run (omega arith) (omega arith)

decode_binary_wal_payload-trailing_example :
    decode_binary_wal_payload (delta_bytes ++ 0 ∷ []) 8192 ≡ err trailing_data
decode_binary_wal_payload-trailing_example =
    decode_binary_wal_payload-trailing (of_delta delta changes) delta_bytes 0 [] 8192
      (tt, changes_valid) delta_run (omega arith) (omega arith)

decode_binary_state_payload-encode_example :
    decode_binary_state_payload state_bytes 8192 ≡ ok (canonical_state state)
decode_binary_state_payload-encode_example =
    decode_binary_state_payload-encode state state_bytes 8192 state_valid state_run (omega arith)
      (omega arith)

u-read_uvarint_example :
    Decoder.u (at_bytes (0xac ∷ 2 ∷ 9 ∷ []) 64)
    ≡ Decoder.read_uvarint 10 0 0 0 (at_bytes (0xac ∷ 2 ∷ 9 ∷ []) 64)
u-read_uvarint_example = u-read_uvarint (at_bytes (0xac ∷ 2 ∷ 9 ∷ []) 64) refl
