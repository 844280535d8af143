-- ===== src/Payload/Encoder.antt =====
-- internal/store/binary_payload.go, `binaryEncoder`. The writer is a buffer that takes every byte;
-- the sticky `err` field is a result: after the first error nothing more is written. A map's
-- entries are written in the order of its keys, so `properties` sorts one action for each entry.
use latticedb_go.Base.{
  ℕ, ◌+◌, ◌-◌, ◌*◌, ◌/◌, ◌%◌, ◌^◌, not, ◌&&◌, Option, none, some, List, [], ◌∷◌, ◌++◌, ltb, ◌==◌,
  if◌then◌else◌, length, Result, ok, err, ◌>>=◌, ◌>>◌, refuse, load_resource_limit, value_limit,
  non_finite, unknown_kind,
}
use latticedb_go.Base.Int.{ℤ}
use latticedb_go.Payload.Values.{
  Bytes, PersistedValue, Items, Fields, empty, null, bool, int, float, string, bytes, vector,
  nil_list, list, nil_map, map, unknown, no_items, item, no_fields, field, count_items,
  non_finite64, non_finite32, bytes_less,
}
use latticedb_go.Payload.Varint.{put_uvarint, zigzag, put_big_endian}

-- `maxValueDepth + 1`
abbrev pub max_binary_value_depth : ℕ
max_binary_value_depth = 65

-- internal/store/recovery.go, `multiplySaturated`
unfoldable pub multiply_saturated : ℕ → ℕ → ℕ
multiply_saturated left right =
    if not (left == 0) && ltb ((2 ^ 64 - 1) / left) right then 2 ^ 64 - 1 else left * right % 2 ^ 64

pub record Encoder : Type 0 where
  pub out : Bytes
  pub allocation_limit : ℕ
  pub allocation_bytes : ℕ

unfoldable pub admit_decoded : ℕ → ℕ → Encoder → Result Encoder
admit_decoded count size e =
    let bytes' = multiply_saturated count size in
    if e.allocation_limit == 0
    then ok e
    else if ltb (e.allocation_limit - e.allocation_bytes) bytes'
    then err load_resource_limit
    else ok (record e { allocation_bytes = e.allocation_bytes + bytes' })

unfoldable pub write : Bytes → Encoder → Result Encoder
write bs e = ok (record e { out = e.out ++ bs })

unfoldable pub u : ℕ → Encoder → Result Encoder
unfolding write
u value = write (put_uvarint value)

unfoldable pub i : ℤ → Encoder → Result Encoder
unfolding write
i value = write (put_uvarint (zigzag value))

unfoldable pub tag : ℕ → Encoder → Result Encoder
unfolding write
tag value = write (value ∷ [])

unfoldable pub str : Bytes → Encoder → Result Encoder
str value e = do e ← admit_decoded (length value) 2 e; e ← u (length value) e; write value e

unfoldable pub write_bytes : Option Bytes → Encoder → Result Encoder
write_bytes none e = do e ← admit_decoded 0 1 e; u 0 e
write_bytes (some value) e = do
  e ← admit_decoded (length value) 1 e
  e ← u (length value + 1) e
  write value e

-- `for _, value := range values { write(value) }`
unfoldable pub write_all {ℓ} :
    {A : Type ℓ} → (A → Encoder → Result Encoder) → List A → Encoder → Result Encoder
write_all f [] e = ok e
write_all f (x ∷ xs) e = do e ← f x e; write_all f xs e

-- `encodeBinarySlice`
unfoldable pub encode_binary_slice {ℓ} :
    {A : Type ℓ} → (A → Encoder → Result Encoder) → Option (List A) → Encoder → Result Encoder
unfolding write_all
encode_binary_slice f none e = u 0 e
encode_binary_slice f (some xs) e = do e ← u (length xs + 1) e; write_all f xs e

unfoldable pub strings : Option (List Bytes) → Encoder → Result Encoder
unfolding write_all
strings none e = do e ← admit_decoded 0 16 e; u 0 e
strings (some values) e = do
  e ← admit_decoded (length values) 16 e
  e ← u (length values + 1) e
  write_all str values e

unfoldable pub ids : Option (List ℕ) → Encoder → Result Encoder
unfolding write_all
ids none e = do e ← admit_decoded 0 8 e; u 0 e
ids (some values) e = do
  e ← admit_decoded (length values) 8 e
  e ← u (length values + 1) e
  write_all u values e

-- One float32 of a vector.
unfoldable pub vector_item : ℕ → Encoder → Result Encoder
vector_item bits e = do refuse (non_finite32 bits) non_finite; write (put_big_endian 4 bits) e

-- How an entry's value is written at a depth.
abbrev pub Action : Type 0
Action = ℕ → Encoder → Result Encoder

-- `slices.Sort(keys)`, each key with the action for its value.
unfoldable pub insert_entry : Bytes → Action → List (Bytes × Action) → List (Bytes × Action)
insert_entry k a [] = (k, a) ∷ []
insert_entry k a ((j, b) ∷ rest) =
    if bytes_less j k then (j, b) ∷ insert_entry k a rest else (k, a) ∷ (j, b) ∷ rest

unfoldable pub sort_entries : List (Bytes × Action) → List (Bytes × Action)
unfolding insert_entry
sort_entries [] = []
sort_entries ((k, a) ∷ rest) = insert_entry k a (sort_entries rest)

unfoldable pub write_entries : List (Bytes × Action) → ℕ → Encoder → Result Encoder
write_entries [] depth e = ok e
write_entries ((k, a) ∷ rest) depth e = do e ← str k e; e ← a depth e; write_entries rest depth e

-- `if depth > maxBinaryValueDepth`
unfoldable pub check_depth : ℕ → Result (Unit {0})
check_depth depth = refuse (ltb max_binary_value_depth depth) value_limit

-- `properties`, over the actions that write the values of the map.
unfoldable pub write_properties : Option (List (Bytes × Action)) → ℕ → Encoder → Result Encoder
unfolding sort_entries write_entries check_depth
write_properties none depth e = do e ← admit_decoded 0 208 e; check_depth depth; u 0 e
write_properties (some entries) depth e = do
  e ← admit_decoded (length entries) 208 e
  check_depth depth
  e ← u (length entries + 1) e
  write_entries (sort_entries entries) depth e

unfoldable mutual
  unfolding write_properties

  pub value : PersistedValue → ℕ → Encoder → Result Encoder
  value empty depth e = do check_depth depth; tag 0 e
  value null depth e = do check_depth depth; tag 1 e
  value (bool b) depth e = do check_depth depth; e ← tag 2 e; tag (if b then 1 else 0) e
  value (int z) depth e = do check_depth depth; e ← tag 3 e; i z e
  value (float bits) depth e = do
    check_depth depth
    refuse (non_finite64 bits) non_finite
    e ← tag 4 e
    write (put_big_endian 8 bits) e
  value (string s) depth e = do check_depth depth; e ← tag 5 e; str s e
  value (bytes b) depth e = do check_depth depth; e ← tag 6 e; write_bytes b e
  value (vector none) depth e = do check_depth depth; e ← admit_decoded 0 4 e; e ← tag 7 e; u 0 e
  value (vector (some fs)) depth e = do
    check_depth depth
    e ← admit_decoded (length fs) 4 e
    e ← tag 7 e
    e ← u (length fs + 1) e
    write_all vector_item fs e
  value nil_list depth e = do check_depth depth; e ← admit_decoded 0 136 e; e ← tag 8 e; u 0 e
  value (list vs) depth e = do
    check_depth depth
    e ← admit_decoded (count_items vs) 136 e
    e ← tag 8 e
    e ← u (count_items vs + 1) e
    write_items vs (depth + 1) e
  value nil_map depth e = do check_depth depth; e ← tag 9 e; write_properties none (depth + 1) e
  value (map fs) depth e = do
    check_depth depth
    e ← tag 9 e
    write_properties (some (actions fs)) (depth + 1) e
  value (unknown kind) depth e = do check_depth depth; err unknown_kind

  pub write_items : Items → ℕ → Encoder → Result Encoder
  write_items no_items depth e = ok e
  write_items (item v vs) depth e = do e ← value v depth e; write_items vs depth e

  pub actions : Fields → List (Bytes × Action)
  actions no_fields = []
  actions (field k v fs) = (k, value v) ∷ actions fs

unfoldable pub properties : Option Fields → ℕ → Encoder → Result Encoder
unfolding value
properties none = write_properties none
properties (some fs) = write_properties (some (actions fs))
