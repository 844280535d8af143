-- ===== src/PageRecords/Tests.antt =====
-- Runs of the page records, and the theorems at concrete records.
use latticedb_go.Base.{◌%◌, ◌<◌, ◌^◌, ◌≡◌, refl, true, some, [], ◌∷◌, arith, ok, err, length}
use latticedb_go.Base.{load_resource_limit, checksum_mismatch}
use latticedb_go.Base.Int.{negsuc}
use latticedb_go.Payload.Values.{
  Bytes, Fields, bool, int, float, string, vector, list, nil_map, map, no_items, item, no_fields,
  field,
}
use latticedb_go.Payload.Values
use latticedb_go.Payload.Varint
use latticedb_go.Payload.Encoder
use latticedb_go.Payload.Records.{PersistedNode, PersistedEdge, encode_node, encode_edge}
use latticedb_go.Payload.Records.RoundTrip.{IsNode, IsEdge, canonical_node, canonical_edge}
use latticedb_go.PageRecords.{
  Checksum, encode_page_node_bounded, encode_page_edge_bounded, decode_page_node, decode_page_edge,
  validate_entity_id, validate_create_labels, validate_edge_type, encode_page_record,
  decode_page_record,
}
use latticedb_go.PageRecords.RoundTrip.{decode_page_node-encode, decode_page_edge-encode}

-- A checksum to run with: the number of bytes.
length_checksum : (bs : Bytes) → length bs % 2 ^ 32 < 2 ^ 32
length_checksum bs = omega arith

abbrev counting : Checksum
counting = record { checksum = λ bs. length bs % 2 ^ 32; checksum_range = length_checksum }

-- Keys out of order, a nested list and a float.
abbrev fields : Fields
fields =
    field (b'z' ∷ []) (list (item (int (negsuc 6)) (item (bool true) no_items)))
      (field (b'a' ∷ []) (float 0x3ff0_0000_0000_0000) no_fields)

abbrev node : PersistedNode
node = record { id = 300; labels = some ((b'P' ∷ []) ∷ []); properties = some fields }

abbrev edge : PersistedEdge
edge = record {
  id = 1;
  source_id = 300;
  target_id = 301;
  edge_type = b'K' ∷ [];
  properties = some (field (b'k' ∷ []) nil_map no_fields);
}

abbrev node_page : Bytes
node_page =
    1 ∷ 1 ∷ 0 ∷ 0 ∷ 0 ∷ 25 ∷ 0xac ∷ 2 ∷ 2 ∷ 1 ∷ b'P' ∷ 3 ∷ 1 ∷ b'a' ∷ 4 ∷ 0x3f ∷ 0xf0 ∷ 0 ∷ 0 ∷ 0
    ∷ 0 ∷ 0 ∷ 0 ∷ 1 ∷ b'z' ∷ 8 ∷ 3 ∷ 3 ∷ 13 ∷ 2 ∷ 1 ∷ []

abbrev edge_page : Bytes
edge_page = 1 ∷ 2 ∷ 0 ∷ 0 ∷ 0 ∷ 12 ∷ 1 ∷ 0xac ∷ 2 ∷ 0xad ∷ 2 ∷ 1 ∷ b'K' ∷ 2 ∷ 1 ∷ b'k' ∷ 9 ∷ 0 ∷ []

encode_node_run : encode_page_node_bounded counting node 4096 ≡ ok node_page
unfolding encode_page_node_bounded validate_entity_id validate_create_labels encode_page_record
    encode_node Encoder.u Encoder.i Encoder.tag Encoder.strings Encoder.str Encoder.admit_decoded
    Encoder.properties Encoder.multiply_saturated Values.utf8_valid Values.bytes_less
    Values.non_finite64 Varint.put_uvarint Varint.put_big_endian Varint.zigzag
encode_node_run = refl

encode_edge_run : encode_page_edge_bounded counting edge 4096 ≡ ok edge_page
unfolding encode_page_edge_bounded validate_entity_id validate_edge_type encode_page_record
    encode_edge Encoder.u Encoder.i Encoder.tag Encoder.strings Encoder.str Encoder.admit_decoded
    Encoder.properties Encoder.multiply_saturated Values.utf8_valid Values.bytes_less
    Values.non_finite64 Varint.put_uvarint Varint.put_big_endian Varint.zigzag
encode_edge_run = refl

-- The decoder's memory is charged before the size of the page is tested.
encode_node_limit : encode_page_node_bounded counting node 300 ≡ err load_resource_limit
unfolding encode_page_node_bounded validate_entity_id validate_create_labels encode_page_record
    encode_node Encoder.u Encoder.i Encoder.tag Encoder.strings Encoder.str Encoder.admit_decoded
    Encoder.properties Encoder.multiply_saturated Values.utf8_valid Values.bytes_less
    Values.non_finite64 Varint.put_uvarint Varint.put_big_endian Varint.zigzag
encode_node_limit = refl

-- A payload that was cut is refused by its checksum.
decode_cut :
    decode_page_node counting (1 ∷ 1 ∷ 0 ∷ 0 ∷ 0 ∷ 25 ∷ 0xac ∷ []) 300 4096 ≡ err checksum_mismatch
unfolding decode_page_node decode_page_record Varint.big_endian
decode_cut = refl

node_stored : IsNode node
unfolding Values.utf8_valid Values.same_bytes
node_stored = (omega arith, ground arith, ground arith)

edge_stored : IsEdge edge
unfolding Values.utf8_valid
edge_stored = ground arith

decode_page_node-encode_example :
    decode_page_node counting node_page 300 4096 ≡ ok (canonical_node node)
decode_page_node-encode_example =
    decode_page_node-encode counting node 4096 node_page node_stored encode_node_run

decode_page_edge-encode_example :
    decode_page_edge counting edge_page 1 4096 ≡ ok (canonical_edge edge)
decode_page_edge-encode_example =
    decode_page_edge-encode counting edge 4096 edge_page edge_stored encode_edge_run
