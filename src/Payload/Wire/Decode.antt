-- ===== src/Payload/Wire/Decode.antt =====
-- The decoder reads every storable value off its bytes, and charges exactly its cost.
use latticedb_go.Base.{
  ℕ, ◌+◌, ◌-◌, ◌*◌, ◌≤◌, ◌<◌, ◌≡◌, refl, none, some, List, [], ◌∷◌, ◌++◌, append_assoc, append-nil,
  arith, length, le→ltb, if◌then◌else◌, ◌<◌,
}
use latticedb_go.Payload.Values.{
  Bytes, PersistedValue, Items, Fields, empty, null, bool, int, float, string, bytes, vector,
  nil_list, list, nil_map, map, unknown, no_items, item, no_fields, field, count_items,
  count_fields,
}
use latticedb_go.Payload.Varint.{put_uvarint, zigzag, put_big_endian}
use latticedb_go.Payload.Encoder.{check_depth}
use latticedb_go.Payload.Decoder.{
  value, properties, value_within, read_tagged, read_all, read_entries, read_vector, read_list,
  read_map, read_properties,
}
use latticedb_go.Payload.Wire.{
  wire, wire_items, wire_fields, wire_str, wire_floats, cost, cost_items, cost_fields, IsStorable,
  AreStorable, AreStorableFields, Distinct, max_length,
}
use latticedb_go.Payload.Wire.Primitives.{
  Reads, i_front, str_front, read_bytes-none, read_bytes-some, decode_length-none,
}
use latticedb_go.Payload.Wire.Collections.{
  from_items, from_fields, Unseen, Unseen-nil, Unseen-snoc, value_step, free, bool_front,
  float_front, vector_front, list_front, properties_front, IsStorable-depth,
}

-- The values, the elements of a list and the entries of a map, each with what follows.
mutual
  unfolding wire cost read_tagged read_vector read_list read_map read_all read_entries

  value_front :
      (v : PersistedValue) (levels depth : ℕ)
      → levels + depth ≡ 66
      → IsStorable depth v
      → Reads (value_within levels depth) (wire v) (cost v) v
  value_front empty levels depth e s rest a b ea =
      rw (value_step levels depth 0 rest a e s) (free empty rest a b ea)
  value_front null levels depth e s rest a b ea =
      rw (value_step levels depth 1 rest a e s) (free null rest a b ea)
  value_front (bool x) levels depth e s rest a b ea =
      rw (value_step levels depth 2 ((if x then 1 else 0) ∷ rest) a e s, bool_front x rest a)
        (free (bool x) rest a b ea)
  value_front (int z) levels depth e (s, hz) rest a b ea =
      rw (value_step levels depth 3 (put_uvarint (zigzag z) ++ rest) a e s, i_front z rest a hz)
        (free (int z) rest a b ea)
  value_front (float bits) levels depth e (s, hb, hf) rest a b ea =
      rw
        (
          value_step levels depth 4 (put_big_endian 8 bits ++ rest) a e s,
          float_front bits rest a hb hf,
        )
        (free (float bits) rest a b ea)
  value_front (string t) levels depth e (s, ht) rest a b ea =
      rw (value_step levels depth 5 (wire_str t ++ rest) a e s, str_front t ht rest a b ea)
  value_front (bytes none) levels depth e s rest a b ea =
      rw (value_step levels depth 6 (put_uvarint 0 ++ rest) a e s, read_bytes-none rest a b ea)
  value_front (bytes (some t)) levels depth e (s, ht) rest a b ea = rw (
    value_step levels depth 6 ((put_uvarint (length t + 1) ++ t) ++ rest) a e s,
    read_bytes-some t ht rest a b ea,
  )
  value_front (vector none) levels depth e s rest a b ea =
      rw (value_step levels depth 7 (put_uvarint 0 ++ rest) a e s, decode_length-none 4 rest a)
        (free (vector none) rest a b ea)
  value_front (vector (some fs)) levels depth e (s, hl, hf) rest a b ea = rw (
    value_step levels depth 7 ((put_uvarint (length fs + 1) ++ wire_floats fs) ++ rest) a e s,
    vector_front fs rest a b hl hf ea,
  )
  value_front nil_list levels depth e s rest a b ea =
      rw (value_step levels depth 8 (put_uvarint 0 ++ rest) a e s, decode_length-none 136 rest a)
        (free nil_list rest a b ea)
  value_front (list vs) levels depth e (s, hl, hs) rest a b ea = rw (
    value_step levels depth 8 ((put_uvarint (count_items vs + 1) ++ wire_items vs) ++ rest) a e s,
    list_front (value_within (levels - 1) (depth + 1)) vs (depth + 1) rest a b hl hs
        (items_front vs (levels - 1) (depth + 1) (omega arith) hs) ea,
  )
  value_front nil_map levels depth e s rest a b ea =
      rw
        (
          value_step levels depth 9 (put_uvarint 0 ++ rest) a e (omega arith),
          le→ltb 65 (depth + 1) s,
          decode_length-none 208 rest a,
        )
        (free nil_map rest a b ea)
  value_front (map fs) levels depth e (s, hl, hd, hs) rest a b ea = rw (
    value_step levels depth 9 ((put_uvarint (count_fields fs + 1) ++ wire_fields fs) ++ rest) a e
        (omega arith),
    properties_front (value_within (levels - 1) (depth + 1)) fs (depth + 1) rest a b s hl
        (fields_front fs (levels - 1) (depth + 1) [] (omega arith) hs hd (Unseen-nil fs)) ea,
  )
  value_front (unknown kind) levels depth e s rest a b ea = absurd s

  items_front :
      (vs : Items) (levels depth : ℕ)
      → levels + depth ≡ 66
      → AreStorable depth vs
      → Reads
          (read_all (count_items vs) (value_within levels depth))
          (wire_items vs)
          (cost_items vs)
          (from_items vs)
  items_front no_items levels depth e s rest a b ea = free [] rest a b ea
  items_front (item v vs) levels depth e (s, hs) rest a b ea = rw (
    append_assoc (wire v) (wire_items vs) rest,
    value_front v levels depth e s (wire_items vs ++ rest) a (cost_items vs + b)
        (omega (arith, ea)),
    items_front vs levels depth e hs rest (cost_items vs + b) b refl,
  )

  fields_front :
      (fs : Fields) (levels depth : ℕ) (seen : List (Bytes × PersistedValue))
      → levels + depth ≡ 66
      → AreStorableFields depth fs
      → Distinct fs
      → Unseen seen fs
      → Reads
          (read_entries (count_fields fs) (value_within levels depth) seen)
          (wire_fields fs)
          (cost_fields fs)
          (seen ++ from_fields fs)
  fields_front no_fields levels depth seen e s d n rest a b ea =
      rw (append-nil seen) (free seen rest a b ea)
  fields_front (field k v fs) levels depth seen e (ht, hv, hs) (f, d) (n, ns) rest a b ea = rw (
    append_assoc (wire_str k) (wire v ++ wire_fields fs) rest,
    str_front k ht ((wire v ++ wire_fields fs) ++ rest) a (cost v + cost_fields fs + b)
        (omega (arith, ea)),
    append_assoc (wire v) (wire_fields fs) rest,
    value_front v levels depth e hv (wire_fields fs ++ rest) (cost v + cost_fields fs + b)
        (cost_fields fs + b) (omega arith),
    n,
    fields_front fs levels depth (seen ++ (k, v) ∷ []) e hs d (Unseen-snoc k v seen fs ns f) rest
        (cost_fields fs + b) b refl,
    append_assoc seen ((k, v) ∷ []) (from_fields fs),
  )

-- `value` at any depth down to the limit.
pub value-Reads :
    (v : PersistedValue) (depth : ℕ) → IsStorable depth v → Reads (value depth) (wire v) (cost v) v
unfolding value
value-Reads v depth s =
    value_front v (66 - depth) depth (omega (arith, IsStorable-depth depth v s)) s

-- `properties` of a node or an edge: a map at a depth.
pub properties-Reads :
    (fs : Fields) (depth : ℕ)
    → depth ≤ 65
    → count_fields fs < max_length
    → Distinct fs
    → AreStorableFields depth fs
    → Reads
        (properties depth)
        (put_uvarint (count_fields fs + 1) ++ wire_fields fs)
        (count_fields fs * 208 + cost_fields fs)
        (some fs)
unfolding properties value
properties-Reads fs depth hd hl d s rest a b e =
    properties_front (value_within (66 - depth) depth) fs depth rest a b hd hl
      (fields_front fs (66 - depth) depth [] (omega arith) s d (Unseen-nil fs)) e

pub properties_nil-Reads :
    (depth : ℕ) → depth ≤ 65 → Reads (properties depth) (put_uvarint 0) 0 none
unfolding properties read_properties check_depth
properties_nil-Reads depth hd rest a b e =
    rw (le→ltb 65 depth hd, decode_length-none 208 rest a) (free none rest a b e)
