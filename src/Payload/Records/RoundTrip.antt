-- ===== src/Payload/Records/RoundTrip.antt =====
-- A record that was encoded is decoded to its canonical form, at exactly the memory charged for it.
use latticedb_go.Base.{◌+◌, ◌*◌, refl, ◌++◌, append_assoc, arith, length}
use latticedb_go.Base.Int.{IsU64}
use latticedb_go.Payload.Varint.{put_uvarint}
use latticedb_go.Payload.Wire.{wire_str, IsText}
use latticedb_go.Payload.Wire.Primitives.{u_front, str_front}
use latticedb_go.Payload.Wire.Writes.{Writes-then, Writes-map, u-Writes, str-Writes}
use latticedb_go.Payload.Mirrors.{Mirrors}
use latticedb_go.Payload.Records.{
  PersistedNode, PersistedEdge, PersistedFts, encode_node, encode_edge, encode_fts, decode_node,
  decode_edge, decode_fts,
}
use latticedb_go.Payload.Records.Parts.{
  wire_strings, cost_strings, AreTexts, strings-Reads, strings-Writes, canonical_properties,
  IsPropertyMap, wire_properties, cost_properties, Checked, properties_front, properties_written,
}

abbrev pub IsNode : PersistedNode → Type 0
IsNode n = IsU64 n.id × AreTexts n.labels × IsPropertyMap n.properties

abbrev pub IsEdge : PersistedEdge → Type 0
IsEdge e =
    IsU64 e.id
    × IsU64 e.source_id
    × IsU64 e.target_id
    × IsText e.edge_type
    × IsPropertyMap e.properties

abbrev pub canonical_node : PersistedNode → PersistedNode
canonical_node n = record n { properties = canonical_properties n.properties }

abbrev pub canonical_edge : PersistedEdge → PersistedEdge
canonical_edge e = record e { properties = canonical_properties e.properties }

unfoldable pub node-Mirrors :
    (n : PersistedNode) → IsNode n → Mirrors (encode_node n) decode_node (canonical_node n)
unfolding encode_node decode_node
node-Mirrors n (hi, hl, hp) =
    let ps = canonical_properties n.properties in
    record {
      wire = put_uvarint n.id ++ (wire_strings n.labels ++ wire_properties ps);
      cost = cost_strings n.labels + cost_properties ps;
      Passed = Checked ps;
      writes =
          Writes-map
            (Writes-then (u-Writes n.id) (λ _.
              Writes-then (strings-Writes n.labels hl) (λ _. properties_written n.properties hp)))
            refl (omega arith) (λ r. r.1.1);
      reads = λ passed rest a b e. rw (
        append_assoc (put_uvarint n.id) (wire_strings n.labels ++ wire_properties ps) rest,
        u_front n.id ((wire_strings n.labels ++ wire_properties ps) ++ rest) a hi,
        append_assoc (wire_strings n.labels) (wire_properties ps) rest,
        strings-Reads n.labels hl (wire_properties ps ++ rest) a (cost_properties ps + b)
            (omega (arith, e)),
        properties_front ps passed rest (cost_properties ps + b) b refl,
      );
    }

unfoldable pub edge-Mirrors :
    (ed : PersistedEdge) → IsEdge ed → Mirrors (encode_edge ed) decode_edge (canonical_edge ed)
unfolding encode_edge decode_edge
edge-Mirrors ed (hi, hs, ht, hk, hp) =
    let ps = canonical_properties ed.properties in
    let tail = wire_str ed.edge_type ++ wire_properties ps in
    record {
      wire = put_uvarint ed.id ++ (put_uvarint ed.source_id ++ (put_uvarint ed.target_id ++ tail));
      cost = length ed.edge_type * 2 + cost_properties ps;
      Passed = Checked ps;
      writes =
          Writes-map
            (Writes-then (u-Writes ed.id) (λ _. Writes-then (u-Writes ed.source_id) (λ _.
              Writes-then (u-Writes ed.target_id) (λ _.
                Writes-then (str-Writes ed.edge_type hk)
                  (λ _. properties_written ed.properties hp)))))
            refl (omega arith) (λ r. r.1.1.1.1);
      reads = λ passed rest a b e. rw (
        append_assoc (put_uvarint ed.id)
            (put_uvarint ed.source_id ++ (put_uvarint ed.target_id ++ tail)) rest,
        u_front ed.id ((put_uvarint ed.source_id ++ (put_uvarint ed.target_id ++ tail)) ++ rest) a
            hi,
        append_assoc (put_uvarint ed.source_id) (put_uvarint ed.target_id ++ tail) rest,
        u_front ed.source_id ((put_uvarint ed.target_id ++ tail) ++ rest) a hs,
        append_assoc (put_uvarint ed.target_id) tail rest,
        u_front ed.target_id (tail ++ rest) a ht,
        append_assoc (wire_str ed.edge_type) (wire_properties ps) rest,
        str_front ed.edge_type hk (wire_properties ps ++ rest) a (cost_properties ps + b)
            (omega (arith, e)),
        properties_front ps passed rest (cost_properties ps + b) b refl,
      );
    }

unfoldable pub fts-Mirrors :
    (f : PersistedFts) → IsU64 f.node_id → IsText f.text → Mirrors (encode_fts f) decode_fts f
unfolding encode_fts decode_fts
fts-Mirrors f hi ht = record {
  wire = put_uvarint f.node_id ++ wire_str f.text;
  cost = length f.text * 2;
  Passed = Unit {0};
  writes =
      Writes-map (Writes-then (u-Writes f.node_id) (λ _. str-Writes f.text ht)) refl (omega arith)
        (λ _. tt);
  reads = λ passed rest a b e. rw (
    append_assoc (put_uvarint f.node_id) (wire_str f.text) rest,
    u_front f.node_id (wire_str f.text ++ rest) a hi,
    str_front f.text ht rest a b e,
  );
}
