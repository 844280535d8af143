-- ===== src/Wal/DeltaRoundTrip.antt =====
-- The changes of a commit come back as they were written, property maps in key order.
use latticedb_go.Base.{
  ◌≡◌, refl, Option, none, some, List, Bool, true, false, if◌then◌else◌, arith, ltb, ◌==◌, Result,
  ok, ◌>>◌, refuse, invalid_delete_flag,
}
use latticedb_go.Base.Int.{IsU64}
use latticedb_go.Payload.Values.{Bytes}
use latticedb_go.Payload.Encoder
use latticedb_go.Payload.Decoder
use latticedb_go.Payload.Wire.{IsText}
use latticedb_go.Payload.Mirrors.{
  Restores, Restores-bind, Restores-last, u-Restores, str-Restores, tag-Restores, slice-Restores,
  same-Restores, AllOption, map_slice,
}
use latticedb_go.Payload.Records.{
  encode_node, encode_edge, encode_fts, decode_node, decode_edge, decode_fts,
}
use latticedb_go.Payload.Records.Parts.{AreTexts, canonical_properties, IsPropertyMap}
use latticedb_go.Payload.Records.RoundTrip.{IsNode, IsEdge, canonical_node, canonical_edge}
use latticedb_go.Payload.Records.Restores.{
  properties-Restores, strings-Restores, bytes-Restores, ids-Restores, IsBlob, AreIds, node-element,
  edge-element, fts-element, IsFts, IsIndex, indexes-Restores,
}
use latticedb_go.Wal.Streams.{PersistedStreams}
use latticedb_go.Wal.StreamsRoundTrip.{
  AreStreams, canonical_streams, streams-Restores, IsStreamOperation, canonical_operation,
  operations-Restores,
}
use latticedb_go.Wal.Delta.{
  PersistedAppMetadataChange, PersistedPropertyChange, PersistedDelta, encode_metadata_change,
  decode_metadata_change, encode_property_change, decode_property_change, encode_optional_streams,
  decode_optional_streams, encode_delta, decode_delta,
}

abbrev pub IsMetadataChange : PersistedAppMetadataChange → Type 0
IsMetadataChange am = IsBlob am.key × IsBlob am.value

abbrev read_change :
    Option Bytes
    → Option Bytes
    → Bool
    → Decoder.Decoder
    → Result (PersistedAppMetadataChange × Decoder.Decoder)
read_change key value delete d = ok (record { key = key; value = value; delete = delete }, d)

delete_flag :
    (b : Bool) (key value : Option Bytes) (d : Decoder.Decoder)
    → (refuse (ltb 1 (if b then 1 else 0)) invalid_delete_flag
        >> read_change key value ((if b then 1 else 0) == 1) d)
      ≡ read_change key value b d
delete_flag true key value d = refl
delete_flag false key value d = refl

metadata_change_element :
    (am : PersistedAppMetadataChange)
    → IsMetadataChange am
    → Restores (encode_metadata_change am) decode_metadata_change am
unfolding encode_metadata_change decode_metadata_change
metadata_change_element am (hk, hv) = Restores-bind _ (bytes-Restores am.key hk) (
    Restores-bind _ (bytes-Restores am.value hv) (
      Restores-last _ am (tag-Restores (if am.delete then 1 else 0))
        (delete_flag am.delete am.key am.value)))

abbrev pub IsPropertyChange : PersistedPropertyChange → Type 0
IsPropertyChange pc = IsU64 pc.id × IsPropertyMap pc.set × AreTexts pc.remove

abbrev pub canonical_change : PersistedPropertyChange → PersistedPropertyChange
canonical_change pc = record pc { set = canonical_properties pc.set }

property_change_element :
    (pc : PersistedPropertyChange)
    → IsPropertyChange pc
    → Restores (encode_property_change pc) decode_property_change (canonical_change pc)
unfolding encode_property_change decode_property_change
property_change_element pc (hi, hp, hr) = Restores-bind _ (u-Restores pc.id hi) (
    Restores-bind _ (properties-Restores pc.set hp)
      (Restores-last _ (canonical_change pc) (strings-Restores pc.remove hr) (λ d. refl)))

abbrev pub AreOptionalStreams : Option PersistedStreams → Type 0
AreOptionalStreams none = Unit {0}
AreOptionalStreams (some state) = AreStreams state

abbrev pub canonical_optional : Option PersistedStreams → Option PersistedStreams
canonical_optional none = none
canonical_optional (some state) = some (canonical_streams state)

optional-Restores :
    (streams : Option PersistedStreams)
    → AreOptionalStreams streams
    → Restores
        (encode_optional_streams streams)
        decode_optional_streams
        (canonical_optional streams)
unfolding encode_optional_streams decode_optional_streams
optional-Restores none h = Restores-last _ none (tag-Restores 0) (λ d. refl)
optional-Restores (some state) h =
    Restores-bind _ (tag-Restores 1)
      (Restores-last _ (some (canonical_streams state)) (streams-Restores state h) (λ d. refl))

pub record IsDelta (d : PersistedDelta) : Type 0 where
  pub database_id : IsText d.database_id
  pub commit_id : IsU64 d.commit_id
  pub next_node_id : IsU64 d.next_node_id
  pub next_edge_id : IsU64 d.next_edge_id
  pub upsert_nodes : AllOption IsNode d.upsert_nodes
  pub delete_nodes : AreIds d.delete_nodes
  pub upsert_edges : AllOption IsEdge d.upsert_edges
  pub delete_edges : AreIds d.delete_edges
  pub upsert_fts : AllOption IsFts d.upsert_fts
  pub delete_fts : AreIds d.delete_fts
  pub app_metadata : AllOption IsMetadataChange d.app_metadata
  pub streams : AreOptionalStreams d.streams
  pub stream_operations : AllOption IsStreamOperation d.stream_operations
  pub create_node_indexes : AllOption IsIndex d.create_node_indexes
  pub drop_node_indexes : AllOption IsIndex d.drop_node_indexes
  pub create_edge_indexes : AllOption IsIndex d.create_edge_indexes
  pub drop_edge_indexes : AllOption IsIndex d.drop_edge_indexes
  pub node_property_changes : AllOption IsPropertyChange d.node_property_changes
  pub edge_property_changes : AllOption IsPropertyChange d.edge_property_changes

abbrev pub canonical_delta : PersistedDelta → PersistedDelta
canonical_delta d = record d {
  upsert_nodes = map_slice canonical_node d.upsert_nodes;
  upsert_edges = map_slice canonical_edge d.upsert_edges;
  streams = canonical_optional d.streams;
  stream_operations = map_slice canonical_operation d.stream_operations;
  node_property_changes = map_slice canonical_change d.node_property_changes;
  edge_property_changes = map_slice canonical_change d.edge_property_changes;
}

changes-Restores :
    (pcs : Option (List PersistedPropertyChange))
    → AllOption IsPropertyChange pcs
    → Restores
        (Encoder.encode_binary_slice encode_property_change pcs)
        (Decoder.decode_binary_slice 40 decode_property_change)
        (map_slice canonical_change pcs)
changes-Restores pcs h =
    slice-Restores encode_property_change decode_property_change canonical_change IsPropertyChange
      property_change_element 40 pcs (omega arith) (omega arith) h

pub delta-Restores :
    (d : PersistedDelta) → IsDelta d → Restores (encode_delta d) decode_delta (canonical_delta d)
unfolding encode_delta decode_delta
delta-Restores d h = Restores-bind _ (str-Restores d.database_id h.database_id) (
    Restores-bind _ (u-Restores d.commit_id h.commit_id) (
      Restores-bind _ (u-Restores d.next_node_id h.next_node_id) (
        Restores-bind _ (u-Restores d.next_edge_id h.next_edge_id) (
          Restores-bind _
            (slice-Restores encode_node decode_node canonical_node IsNode node-element 40
              d.upsert_nodes (omega arith) (omega arith) h.upsert_nodes)
            (Restores-bind _ (ids-Restores d.delete_nodes h.delete_nodes) (
              Restores-bind _
                (slice-Restores encode_edge decode_edge canonical_edge IsEdge edge-element 48
                  d.upsert_edges (omega arith) (omega arith) h.upsert_edges)
                (Restores-bind _ (ids-Restores d.delete_edges h.delete_edges) (
                  Restores-bind _
                    (same-Restores encode_fts decode_fts IsFts fts-element 24 d.upsert_fts
                      (omega arith) (omega arith) h.upsert_fts)
                    (Restores-bind _ (ids-Restores d.delete_fts h.delete_fts) (
                      Restores-bind _
                        (same-Restores encode_metadata_change decode_metadata_change
                          IsMetadataChange metadata_change_element 56 d.app_metadata (omega arith)
                          (omega arith) h.app_metadata)
                        (Restores-bind _ (optional-Restores d.streams h.streams) (
                          Restores-bind _
                            (operations-Restores d.stream_operations h.stream_operations)
                            (Restores-bind _
                              (indexes-Restores d.create_node_indexes h.create_node_indexes)
                              (Restores-bind _
                                (indexes-Restores d.drop_node_indexes h.drop_node_indexes)
                                (Restores-bind _
                                  (indexes-Restores d.create_edge_indexes h.create_edge_indexes)
                                  (Restores-bind _
                                    (indexes-Restores d.drop_edge_indexes h.drop_edge_indexes)
                                    (Restores-bind _
                                      (changes-Restores d.node_property_changes
                                        h.node_property_changes)
                                      (Restores-last _ (canonical_delta d)
                                        (changes-Restores d.edge_property_changes
                                          h.edge_property_changes)
                                        (λ d. refl)))))))))))))))))))
