-- ===== src/PageRecords.antt =====
-- internal/store/page_records.go: nodes and edges as page records, a header of version, kind and
-- checksum before the payload. The checksum of hash/crc32 is a parameter of the model.
pub mod RoundTrip
mod Tests
use latticedb_go.Base.{
  ℕ, ◌+◌, ◌-◌, ◌^◌, ◌<◌, ◌≡◌, Bool, true, false, not, ◌&&◌, ◌||◌, none, some, Option, List, [], ◌∷◌,
  ◌++◌, ltb, ◌==◌, length, take, drop, Result, ok, err, ◌>>=◌, ◌>>◌, refuse, load_resource_limit,
  invalid_header, checksum_mismatch, key_mismatch, invalid_entity_id, invalid_label,
  invalid_edge_type, if◌then◌else◌,
}
use latticedb_go.Payload.Values.{Bytes, same_bytes, utf8_valid}
use latticedb_go.Payload.Varint.{put_big_endian, big_endian}
use latticedb_go.Payload.Encoder.{Encoder, multiply_saturated}
use latticedb_go.Payload.Decoder.{Decoder, Decode, new_binary_decoder_bytes, finish}
use latticedb_go.Payload.Records.{
  PersistedNode, PersistedEdge, encode_node, encode_edge, decode_node, decode_edge,
}

-- hash/crc32, `ChecksumIEEE`: a uint32.
pub record Checksum : Type 0 where
  pub checksum : Bytes → ℕ
  pub checksum_range : (bs : Bytes) → checksum bs < 2 ^ 32

abbrev pub page_record_version : ℕ
page_record_version = 1

abbrev pub page_node_record : ℕ
page_node_record = 1

abbrev pub page_edge_record : ℕ
page_edge_record = 2

-- internal/store/entity_id.go: 1 to MaxInt64.
unfoldable pub validate_entity_id : ℕ → Result (Unit {0})
validate_entity_id id = refuse (id == 0 || ltb (2 ^ 63 - 1) id) invalid_entity_id

unfoldable pub seen_label : Bytes → List Bytes → Bool
seen_label l [] = false
seen_label l (s ∷ seen) = same_bytes l s || seen_label l seen

-- internal/store/store.go, `ValidateCreateLabels`: the loop over the labels.
unfoldable pub validate_labels : List Bytes → List Bytes → Result (Unit {0})
unfolding seen_label
validate_labels seen [] = ok tt
validate_labels seen (l ∷ labels) = do
  refuse (length l == 0) invalid_label
  refuse (not (utf8_valid l)) invalid_label
  refuse (seen_label l seen) invalid_label
  validate_labels (l ∷ seen) labels

unfoldable pub validate_create_labels : Option (List Bytes) → Result (Unit {0})
unfolding validate_labels
validate_create_labels none = ok tt
validate_create_labels (some labels) = validate_labels [] labels

unfoldable pub validate_edge_type : Bytes → Result (Unit {0})
validate_edge_type t = do
  refuse (length t == 0) invalid_edge_type
  refuse (not (utf8_valid t)) invalid_edge_type

module _ (crc : Checksum) where
  -- `binary.BigEndian.PutUint32(data[2:6], crc32.ChecksumIEEE(data[6:]))`
  unfoldable pub seal : Bytes → Bytes
  seal bs = take 2 bs ++ (put_big_endian 4 (crc.checksum (drop 6 bs)) ++ drop 6 bs)

  unfoldable pub encode_page_record : ℕ → ℕ → (Encoder → Result Encoder) → Result Bytes
  unfolding seal
  encode_page_record kind max_bytes encode = do
    e ← encode (record {
      out = page_record_version ∷ kind ∷ 0 ∷ 0 ∷ 0 ∷ 0 ∷ [];
      allocation_limit = multiply_saturated max_bytes 2;
      allocation_bytes = 0;
    })
    refuse (ltb max_bytes (length e.out)) load_resource_limit
    ok (seal e.out)

  unfoldable pub decode_page_record_payload : Bytes → ℕ → ℕ → Result Bytes
  decode_page_record_payload bs kind max_bytes = do
    refuse (ltb max_bytes (length bs)) load_resource_limit
    refuse
        (ltb (length bs) 6
          || not (big_endian (take 1 bs) == page_record_version)
          || not (big_endian (take 1 (drop 1 bs)) == kind))
        invalid_header
    refuse (not (big_endian (take 4 (drop 2 bs)) == crc.checksum (drop 6 bs))) checksum_mismatch
    ok (drop 6 bs)

  unfoldable pub decode_page_record : Bytes → ℕ → ℕ → Result Decoder
  unfolding decode_page_record_payload
  decode_page_record bs kind max_bytes = do
    payload ← decode_page_record_payload bs kind max_bytes
    ok (new_binary_decoder_bytes payload max_bytes)

  -- The record, with the properties in their persisted form.
  unfoldable pub encode_page_node_bounded : PersistedNode → ℕ → Result Bytes
  encode_page_node_bounded n max_bytes = do
    validate_entity_id n.id
    validate_create_labels n.labels
    encode_page_record page_node_record max_bytes (encode_node n)

  unfoldable pub encode_page_edge_bounded : PersistedEdge → ℕ → Result Bytes
  encode_page_edge_bounded ed max_bytes = do
    validate_entity_id ed.id
    validate_entity_id ed.source_id
    validate_entity_id ed.target_id
    validate_edge_type ed.edge_type
    encode_page_record page_edge_record max_bytes (encode_edge ed)

  unfoldable pub decode_page_node : Bytes → ℕ → ℕ → Result PersistedNode
  decode_page_node bs id max_bytes = do
    d ← decode_page_record bs page_node_record max_bytes
    (n, d) ← decode_node d
    finish d
    refuse (not (n.id == id)) key_mismatch
    validate_entity_id id
    validate_create_labels n.labels
    ok n

  unfoldable pub decode_page_edge : Bytes → ℕ → ℕ → Result PersistedEdge
  decode_page_edge bs id max_bytes = do
    d ← decode_page_record bs page_edge_record max_bytes
    (ed, d) ← decode_edge d
    finish d
    refuse (not (ed.id == id)) key_mismatch
    validate_entity_id ed.id
    validate_entity_id ed.source_id
    validate_entity_id ed.target_id
    validate_edge_type ed.edge_type
    ok ed
