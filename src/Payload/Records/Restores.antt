-- ===== src/Payload/Records/Restores.antt =====
-- The fields of records, as parts of a round trip: values, property maps, byte slices, collections.
use latticedb_go.Base.{
  ℕ, ◌+◌, ◌*◌, ◌≤◌, ◌<◌, refl, ◌∙◌, Option, none, some, List, [], ◌∷◌, ◌++◌, arith, length,
  length-append, All,
}
use latticedb_go.Base.Int.{IsU64}
use latticedb_go.Payload.Values.{Bytes, PersistedValue, Fields, count_fields}
use latticedb_go.Payload.Varint.{put_uvarint}
use latticedb_go.Payload.Varint.RoundTrip.{length-put_uvarint}
use latticedb_go.Payload.Encoder
use latticedb_go.Payload.Encoder.{Encoder, write_all}
use latticedb_go.Payload.Decoder
use latticedb_go.Payload.Decoder.{Decode, read_all, sized}
use latticedb_go.Payload.Wire.{
  wire, wire_str, wire_fields, cost, cost_fields, IsText, IsStorable, max_length,
}
use latticedb_go.Payload.Wire.Paid.{
  Paid, Paid-append, Paid-uvarint, Paid-str, Paid-sized, Paid-behind, Paid-value, Paid-fields,
}
use latticedb_go.Payload.Wire.Primitives.{Reads, u_front, read_bytes-none, read_bytes-some}
use latticedb_go.Payload.Wire.Decode.{value-Reads}
use latticedb_go.Payload.Wire.Canonical.{IsStored, canonical}
use latticedb_go.Payload.Wire.Writes.{
  Writes, Writes-then, Writes-map, admit_decoded-Writes, u-Writes,
}
use latticedb_go.Payload.Wire.Encode.{value-Writes, write_bytes-Writes, write_bytes_none-Writes}
use latticedb_go.Payload.Wire.Lists.{concat, total, sized-Reads, sized_nil-Reads, write_all-Writes}
use latticedb_go.Payload.Records.{
  PersistedNode, PersistedEdge, PersistedFts, PersistedPropertyIndexDefinition,
  PersistedAppMetadata, encode_node, encode_edge, encode_fts, decode_node, decode_edge, decode_fts,
  encode_index, decode_index, encode_indexes, decode_indexes, encode_metadata_entry,
  decode_metadata_entry, encode_metadata, decode_metadata,
}
use latticedb_go.Payload.Mirrors.{
  Restores, Mirrors-Restores, Restores-bind, Restores-last, Reads-ok, str-Restores, same-Restores,
  AllOption,
}
use latticedb_go.Payload.Records.Parts.{
  text_cost, wire_strings, cost_strings, AreTexts, strings-Reads, strings-Writes,
  canonical_properties, IsPropertyMap, wire_properties, cost_properties, Checked, properties_front,
  properties_written,
}
use latticedb_go.Payload.Records.RoundTrip.{
  IsNode, IsEdge, canonical_node, canonical_edge, node-Mirrors, edge-Mirrors, fts-Mirrors,
}

Paid-properties : (ps : Option Fields) → Checked ps → Paid (cost_properties ps) (wire_properties ps)
Paid-properties none h = Paid-uvarint 0
Paid-properties (some fs) (_, _, h) =
    Paid-sized (count_fields fs + 1) (count_fields fs * 208 + cost_fields fs) (wire_fields fs)
      (omega (arith, Paid-fields 0 fs h))

-- Elements of one size, each with what it is charged.
Paid-total :
    {A : Type 0} (w : A → Bytes) (c : A → ℕ) (xs : List A)
    → ((x : A) → Paid (c x) (w x))
    → total c xs + length xs * 208 ≤ 208 * length (concat w xs)
Paid-total w c [] h = omega arith
Paid-total w c (x ∷ xs) h =
    omega (arith, length-append (w x) (concat w xs), h x, Paid-total w c xs h)

Paid-strings : (ss : Option (List Bytes)) → Paid (cost_strings ss) (wire_strings ss)
Paid-strings none = Paid-uvarint 0
Paid-strings (some ss) =
    Paid-sized (length ss + 1) (length ss * 16 + total text_cost ss) (concat wire_str ss)
      (omega (arith, Paid-total wire_str text_cost ss Paid-str))

pub value-Restores :
    (v : PersistedValue) → IsStored v → Restores (Encoder.value v 0) (Decoder.value 0) (canonical v)
value-Restores v h = record {
  part = record {
    wire = wire (canonical v);
    charge = cost (canonical v);
    cost = cost (canonical v);
    Passed = IsStorable 0 (canonical v);
    writes = value-Writes v 0 h;
    reads = λ passed. value-Reads (canonical v) 0 passed;
  };
  paid = λ passed. Paid-value 0 (canonical v) passed;
}

pub properties-Restores :
    (ps : Option Fields)
    → IsPropertyMap ps
    → Restores (Encoder.properties ps 0) (Decoder.properties 0) (canonical_properties ps)
properties-Restores ps h = record {
  part = record {
    wire = wire_properties (canonical_properties ps);
    charge = cost_properties (canonical_properties ps);
    cost = cost_properties (canonical_properties ps);
    Passed = Checked (canonical_properties ps);
    writes = properties_written ps h;
    reads = λ passed. properties_front (canonical_properties ps) passed;
  };
  paid = Paid-properties (canonical_properties ps);
}

pub strings-Restores :
    (ss : Option (List Bytes)) → AreTexts ss → Restores (Encoder.strings ss) Decoder.strings ss
strings-Restores ss h = record {
  part = record {
    wire = wire_strings ss;
    charge = cost_strings ss;
    cost = cost_strings ss;
    Passed = Unit {0};
    writes = strings-Writes ss h;
    reads = λ _. strings-Reads ss h;
  };
  paid = λ _. Paid-strings ss;
}

abbrev pub IsBlob : Option Bytes → Type 0
IsBlob none = Unit {0}
IsBlob (some b) = length b < max_length

pub bytes-Restores :
    (b : Option Bytes) → IsBlob b → Restores (Encoder.write_bytes b) Decoder.read_bytes b
bytes-Restores none h = record {
  part = record {
    wire = put_uvarint 0;
    charge = 0;
    cost = 0;
    Passed = Unit {0};
    writes = write_bytes_none-Writes;
    reads = λ _. read_bytes-none;
  };
  paid = λ _. Paid-uvarint 0;
}
bytes-Restores (some b) h = record {
  part = record {
    wire = put_uvarint (length b + 1) ++ b;
    charge = length b * 1;
    cost = length b * 1;
    Passed = Unit {0};
    writes = write_bytes-Writes b h;
    reads = λ _. read_bytes-some b h;
  };
  paid = λ _. Paid-sized (length b + 1) (length b * 1) b (omega arith);
}

abbrev pub AreIds : Option (List ℕ) → Type 0
AreIds none = Unit {0}
AreIds (some xs) = (length xs < max_length) × All IsU64 xs

ids_front : (xs : List ℕ) → All IsU64 xs → All (λ x. Reads Decoder.u (put_uvarint x) 0 x) xs
ids_front [] h = tt
ids_front (x ∷ xs) (h, hs) =
    ((λ rest a b e. u_front x rest a h ∙ Reads-ok x rest a b e), ids_front xs hs)

ids_written : (xs : List ℕ) → All (λ x. Writes (Encoder.u x) (put_uvarint x) 0 (Unit {0})) xs
ids_written [] = tt
ids_written (x ∷ xs) = (u-Writes x, ids_written xs)

pub ids-Restores : (xs : Option (List ℕ)) → AreIds xs → Restores (Encoder.ids xs) Decoder.ids xs
unfolding Encoder.ids Decoder.ids
ids-Restores none h = record {
  part = record {
    wire = put_uvarint 0;
    charge = 0;
    cost = 0;
    Passed = Unit {0};
    writes =
        Writes-map (Writes-then (admit_decoded-Writes 0 8 (omega arith)) (λ _. u-Writes 0)) refl
          (omega arith) (λ _. tt);
    reads = λ _. sized_nil-Reads 8 Decoder.u;
  };
  paid = λ _. Paid-uvarint 0;
}
ids-Restores (some xs) (h, hs) = record {
  part = record {
    wire = put_uvarint (length xs + 1) ++ concat put_uvarint xs;
    charge = length xs * 8 + total (λ _. 0) xs;
    cost = length xs * 8 + total (λ _. 0) xs;
    Passed = Unit {0};
    writes =
        Writes-map
          (Writes-then (admit_decoded-Writes (length xs) 8 (omega arith)) (λ _.
            Writes-then (u-Writes (length xs + 1))
              (λ _. write_all-Writes Encoder.u put_uvarint (λ _. 0) xs (ids_written xs))))
          refl (omega arith) (λ _. tt);
    reads = λ _.
        sized-Reads 8 Decoder.u put_uvarint (λ _. 0) xs (omega arith) h
          (λ x. (length-put_uvarint x).0) (ids_front xs hs);
  };
  paid = λ _.
      Paid-sized (length xs + 1) (length xs * 8 + total (λ _. 0) xs) (concat put_uvarint xs)
        (omega (arith, Paid-total put_uvarint (λ _. 0) xs Paid-uvarint));
}

pub node-element :
    (n : PersistedNode) → IsNode n → Restores (encode_node n) decode_node (canonical_node n)
unfolding node-Mirrors
node-element n h =
    let ps = canonical_properties n.properties in
    Mirrors-Restores (node-Mirrors n h) (λ passed.
      Paid-behind n.id (cost_strings n.labels + cost_properties ps)
        (wire_strings n.labels ++ wire_properties ps)
        (Paid-append (cost_strings n.labels) (cost_properties ps) (wire_strings n.labels)
          (wire_properties ps) (Paid-strings n.labels) (Paid-properties ps passed)))

pub edge-element :
    (ed : PersistedEdge) → IsEdge ed → Restores (encode_edge ed) decode_edge (canonical_edge ed)
unfolding edge-Mirrors
edge-element ed h =
    let ps = canonical_properties ed.properties in
    let tail = wire_str ed.edge_type ++ wire_properties ps in
    let spent = length ed.edge_type * 2 + cost_properties ps in
    Mirrors-Restores (edge-Mirrors ed h) (λ passed.
      Paid-behind ed.id spent (put_uvarint ed.source_id ++ (put_uvarint ed.target_id ++ tail)) (
        Paid-behind ed.source_id spent (put_uvarint ed.target_id ++ tail) (
          Paid-behind ed.target_id spent tail (
            Paid-append (length ed.edge_type * 2) (cost_properties ps) (wire_str ed.edge_type)
              (wire_properties ps) (Paid-str ed.edge_type) (Paid-properties ps passed)))))

abbrev pub IsFts : PersistedFts → Type 0
IsFts f = IsU64 f.node_id × IsText f.text

pub fts-element : (f : PersistedFts) → IsFts f → Restores (encode_fts f) decode_fts f
unfolding fts-Mirrors
fts-element f (h, t) =
    Mirrors-Restores (fts-Mirrors f h t)
      (λ _. Paid-behind f.node_id (length f.text * 2) (wire_str f.text) (Paid-str f.text))

abbrev pub IsIndex : PersistedPropertyIndexDefinition → Type 0
IsIndex def = IsText def.scope × IsText def.property

index-element :
    (def : PersistedPropertyIndexDefinition)
    → IsIndex def
    → Restores (encode_index def) decode_index def
unfolding encode_index decode_index
index-element def (hs, hp) =
    Restores-bind _ (str-Restores def.scope hs)
      (Restores-last _ def (str-Restores def.property hp) (λ d. refl))

pub indexes-Restores :
    (defs : Option (List PersistedPropertyIndexDefinition))
    → AllOption IsIndex defs
    → Restores (encode_indexes defs) decode_indexes defs
unfolding encode_indexes decode_indexes
indexes-Restores defs h =
    same-Restores encode_index decode_index IsIndex index-element 32 defs (omega arith)
      (omega arith) h

abbrev pub IsMetadata : PersistedAppMetadata → Type 0
IsMetadata m = IsBlob m.key × IsBlob m.value

metadata-element :
    (m : PersistedAppMetadata)
    → IsMetadata m
    → Restores (encode_metadata_entry m) decode_metadata_entry m
unfolding encode_metadata_entry decode_metadata_entry
metadata-element m (hk, hv) =
    Restores-bind _ (bytes-Restores m.key hk)
      (Restores-last _ m (bytes-Restores m.value hv) (λ d. refl))

pub metadata-Restores :
    (ms : Option (List PersistedAppMetadata))
    → AllOption IsMetadata ms
    → Restores (encode_metadata ms) decode_metadata ms
unfolding encode_metadata decode_metadata
metadata-Restores ms h =
    same-Restores encode_metadata_entry decode_metadata_entry IsMetadata metadata-element 32 ms
      (omega arith) (omega arith) h
