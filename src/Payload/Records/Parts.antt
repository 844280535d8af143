-- ===== src/Payload/Records/Parts.antt =====
-- The parts of a record: label lists and property maps, absent ones included.
use latticedb_go.Base.{
  ℕ, ◌+◌, ◌*◌, ◌≤◌, ◌<◌, refl, Option, none, some, List, [], ◌∷◌, ◌++◌, arith, length,
  length-append, All,
}
use latticedb_go.Payload.Values.{Bytes, Fields, map, count_fields}
use latticedb_go.Payload.Varint.{put_uvarint}
use latticedb_go.Payload.Varint.RoundTrip.{length-put_uvarint}
use latticedb_go.Payload.Encoder
use latticedb_go.Payload.Decoder
use latticedb_go.Payload.Wire.{
  wire_str, wire_fields, cost_fields, IsText, max_length, Distinct, AreStorableFields,
}
use latticedb_go.Payload.Wire.Primitives.{Reads, str_front}
use latticedb_go.Payload.Wire.Decode.{properties-Reads, properties_nil-Reads}
use latticedb_go.Payload.Wire.Canonical.{IsStored, canonical_fields}
use latticedb_go.Payload.Wire.Writes.{
  Writes, Writes-then, Writes-map, admit_decoded-Writes, u-Writes, str-Writes,
}
use latticedb_go.Payload.Wire.Encode.{properties-Writes, write_properties_nil-Writes}
use latticedb_go.Payload.Wire.Lists.{concat, total, sized-Reads, sized_nil-Reads, write_all-Writes}

abbrev pub text_cost : Bytes → ℕ
text_cost s = length s * 2

abbrev pub wire_strings : Option (List Bytes) → Bytes
wire_strings none = put_uvarint 0
wire_strings (some ss) = put_uvarint (length ss + 1) ++ concat wire_str ss

abbrev pub cost_strings : Option (List Bytes) → ℕ
cost_strings none = 0
cost_strings (some ss) = length ss * 16 + total text_cost ss

abbrev pub AreTexts : Option (List Bytes) → Type 0
AreTexts none = Unit {0}
AreTexts (some ss) = (length ss < max_length) × All IsText ss

pub length-wire_str : (s : Bytes) → 1 ≤ length (wire_str s)
length-wire_str s =
    omega (arith, length-append (put_uvarint (length s)) s, length-put_uvarint (length s))

pub texts_front :
    (ss : List Bytes) → All IsText ss → All (λ s. Reads Decoder.str (wire_str s) (text_cost s) s) ss
texts_front [] h = tt
texts_front (s ∷ ss) (h, hs) = (str_front s h, texts_front ss hs)

pub texts-Writes :
    (ss : List Bytes)
    → All IsText ss
    → All (λ s. Writes (Encoder.str s) (wire_str s) (text_cost s) (Unit {0})) ss
texts-Writes [] h = tt
texts-Writes (s ∷ ss) (h, hs) = (str-Writes s h, texts-Writes ss hs)

pub strings-Reads :
    (ss : Option (List Bytes))
    → AreTexts ss
    → Reads Decoder.strings (wire_strings ss) (cost_strings ss) ss
unfolding Decoder.strings
strings-Reads none h = sized_nil-Reads 16 Decoder.str
strings-Reads (some ss) (h, hs) =
    sized-Reads 16 Decoder.str wire_str text_cost ss (omega arith) h length-wire_str
      (texts_front ss hs)

pub strings-Writes :
    (ss : Option (List Bytes))
    → AreTexts ss
    → Writes (Encoder.strings ss) (wire_strings ss) (cost_strings ss) (Unit {0})
unfolding Encoder.strings
strings-Writes none h =
    Writes-map (Writes-then (admit_decoded-Writes 0 16 (omega arith)) (λ _. u-Writes 0)) refl
      (omega arith) (λ _. tt)
strings-Writes (some ss) (h, hs) =
    Writes-map
      (Writes-then (admit_decoded-Writes (length ss) 16 (omega arith)) (λ _.
        Writes-then (u-Writes (length ss + 1))
          (λ _. write_all-Writes Encoder.str wire_str text_cost ss (texts-Writes ss hs))))
      refl (omega arith) (λ _. tt)

-- The properties as they come back.
abbrev pub canonical_properties : Option Fields → Option Fields
canonical_properties none = none
canonical_properties (some fs) = some (canonical_fields fs)

abbrev pub IsPropertyMap : Option Fields → Type 0
IsPropertyMap none = Unit {0}
IsPropertyMap (some fs) = IsStored (map fs)

abbrev pub wire_properties : Option Fields → Bytes
wire_properties none = put_uvarint 0
wire_properties (some fs) = put_uvarint (count_fields fs + 1) ++ wire_fields fs

abbrev pub cost_properties : Option Fields → ℕ
cost_properties none = 0
cost_properties (some fs) = count_fields fs * 208 + cost_fields fs

-- What the encoder has checked of the properties that it wrote.
abbrev pub Checked : Option Fields → Type 0
Checked none = Unit {0}
Checked (some fs) = (count_fields fs < max_length) × Distinct fs × AreStorableFields 0 fs

pub properties_front :
    (ps : Option Fields)
    → Checked ps
    → Reads (Decoder.properties 0) (wire_properties ps) (cost_properties ps) ps
properties_front none h = properties_nil-Reads 0 (omega arith)
properties_front (some fs) (h, d, s) = properties-Reads fs 0 (omega arith) h d s

pub properties_written :
    (ps : Option Fields)
    → IsPropertyMap ps
    → Writes
        (Encoder.properties ps 0)
        (wire_properties (canonical_properties ps))
        (cost_properties (canonical_properties ps))
        (Checked (canonical_properties ps))
properties_written none h =
    unfold Encoder.properties in Writes-map (write_properties_nil-Writes 0) refl refl (λ _. tt)
properties_written (some fs) h =
    Writes-map (properties-Writes fs 0 h) refl refl (λ (_, l, d, s). (l, d, s))
