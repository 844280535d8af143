-- ===== src/Payload/Decoder.antt =====
-- internal/store/binary_payload.go, `binaryDecoder` over a byte slice (`newBinaryDecoderBytes`), with
-- no `admitAllocation` callback. The sticky `err` field is a result: what Go decodes after the first
-- error is discarded by `finish`. The float32 loop of a vector reads before it tests, as here.
use latticedb_go.Base.{
  ℕ, zero, suc, ◌+◌, ◌-◌, ◌*◌, ◌/◌, ◌%◌, ◌^◌, Bool, false, not, ◌&&◌, ◌||◌, Option, none, some,
  List, [], ◌∷◌, ◌++◌, ltb, ◌==◌, if◌then◌else◌, length, take, drop, Result, ok, err, ◌>>=◌, ◌>>◌,
  refuse, unexpected_eof, varint_overflow, load_resource_limit, value_limit, non_finite,
  invalid_utf8, duplicate_key, invalid_bool, unknown_tag, trailing_data,
}
use latticedb_go.Base.Int.{ℤ}
use latticedb_go.Payload.Values.{
  Bytes, PersistedValue, Fields, empty, null, bool, int, float, string, bytes, vector, nil_list,
  list, nil_map, map, to_items, to_fields, non_finite64, non_finite32, same_bytes, utf8_valid,
}
use latticedb_go.Payload.Varint.{uvarint, unzigzag, big_endian}
use latticedb_go.Payload.Encoder.{max_binary_value_depth, multiply_saturated, check_depth}

pub record Decoder : Type 0 where
  pub input : Bytes
  pub remaining : ℕ
  pub allocation_left : ℕ

-- A decoding method: the value it returns, and the decoder behind it.
abbrev pub Decode {ℓ} : Type ℓ → Type ℓ
Decode A = Decoder → Result (A × Decoder)

unfoldable pub new_binary_decoder_bytes : Bytes → ℕ → Decoder
unfolding multiply_saturated
new_binary_decoder_bytes bs max_bytes = record {
  input = bs;
  remaining = length bs;
  allocation_left = multiply_saturated max_bytes 2;
}

unfoldable pub read : ℕ → Decode Bytes
read n d =
    if ltb d.remaining n
    then err unexpected_eof
    else ok (take n d.input, record d { input = drop n d.input; remaining = d.remaining - n })

unfoldable pub read_byte : Decode ℕ
read_byte d = elim d.input [
  | [] ↦ err unexpected_eof
  | b ∷ rest ↦
      if d.remaining == 0
      then err unexpected_eof
      else ok (b, record d { input = rest; remaining = d.remaining - 1 })
]

-- `binary.ReadUvarint`, over `ReadByte`: at most ten rounds.
unfoldable pub read_uvarint : ℕ → ℕ → ℕ → ℕ → Decode ℕ
unfolding read_byte
read_uvarint zero round x s d = err varint_overflow
read_uvarint (suc k) round x s d = do
  (b, d) ← read_byte d
  let more = read_uvarint k (round + 1) (x + b % 128 * 2 ^ s) (s + 7) d
  let last : Result (ℕ × Decoder) =
      if round == 9 && ltb 1 b then err varint_overflow else ok (x + b * 2 ^ s, d)
  if ltb b 0x80 then last else more

-- The fast path over the slice, and the byte-wise path that reports its error.
unfoldable pub u : Decode ℕ
unfolding read_uvarint
u d = elim (uvarint d.input) [
  | some (value, n) ↦ ok (value, record d { input = drop n d.input; remaining = d.remaining - n })
  | none ↦ read_uvarint 10 0 0 0 d
]

unfoldable pub i : Decode ℤ
i d = do (ux, d) ← u d; ok (unzigzag ux, d)

unfoldable pub reserve : ℕ → ℕ → Decoder → Result Decoder
reserve count size d =
    if not (size == 0) && ltb (d.allocation_left / size) count
    then err load_resource_limit
    else ok (record d { allocation_left = d.allocation_left - count * size })

-- `length` once the header is read: the -1 of a nil collection is `none`.
unfoldable pub admit_length : ℕ → ℕ → Decode (Option ℕ)
unfolding reserve
admit_length element_bytes zero d = ok (none, d)
admit_length element_bytes (suc count) d = do
  refuse (ltb d.remaining count || ltb (2 ^ 63 - 1) count) load_resource_limit
  d ← reserve count element_bytes d
  ok (some count, d)

unfoldable pub decode_length : ℕ → Decode (Option ℕ)
unfolding admit_length
decode_length element_bytes d = do (encoded, d) ← u d; admit_length element_bytes encoded d

unfoldable pub str : Decode Bytes
str d = do
  (size, d) ← u d
  refuse (ltb d.remaining size || ltb (2 ^ 63 - 1) size) load_resource_limit
  d ← reserve size 2 d
  (bs, d) ← read size d
  refuse (not (utf8_valid bs)) invalid_utf8
  ok (bs, d)

-- `for i := range values { values[i] = read(); if d.err != nil { break } }`
unfoldable pub read_all {ℓ} : {A : Type ℓ} → ℕ → Decode A → Decode (List A)
read_all zero f d = ok ([], d)
read_all (suc n) f d = do (x, d) ← f d; (xs, d) ← read_all n f d; ok (x ∷ xs, d)

-- A collection: its length, then its elements.
unfoldable pub sized {ℓ} : {A : Type ℓ} → Option ℕ → Decode A → Decode (Option (List A))
unfolding read_all
sized none f d = ok (none, d)
sized (some n) f d = do (xs, d) ← read_all n f d; ok (some xs, d)

unfoldable pub read_bytes : Decode (Option Bytes)
read_bytes d = do
  (n, d) ← decode_length 1 d
  elim n [ none ↦ ok (none, d) | some n ↦ do (bs, d) ← read n d; ok (some bs, d) ]

unfoldable pub strings : Decode (Option (List Bytes))
unfolding sized
strings d = do (n, d) ← decode_length 16 d; sized n str d

unfoldable pub ids : Decode (Option (List ℕ))
unfolding sized
ids d = do (n, d) ← decode_length 8 d; sized n u d

-- `decodeBinarySlice`
unfoldable pub decode_binary_slice {ℓ} : {A : Type ℓ} → ℕ → Decode A → Decode (Option (List A))
unfolding sized
decode_binary_slice element_bytes f d = do (n, d) ← decode_length element_bytes d; sized n f d

unfoldable pub vector_item : Decode ℕ
vector_item d = do
  (bs, d) ← read 4 d
  refuse (non_finite32 (big_endian bs)) non_finite
  ok (big_endian bs, d)

unfoldable pub has_key : Bytes → List (Bytes × PersistedValue) → Bool
has_key k [] = false
has_key k ((j, v) ∷ es) = same_bytes k j || has_key k es

-- The loop of `properties`; `seen` are the entries of the map so far.
unfoldable pub read_entries :
    ℕ
    → Decode PersistedValue
    → List (Bytes × PersistedValue)
    → Decode (List (Bytes × PersistedValue))
unfolding has_key
read_entries zero f seen d = ok (seen, d)
read_entries (suc n) f seen d = do
  (k, d) ← str d
  (v, d) ← f d
  refuse (has_key k seen) duplicate_key
  read_entries n f (seen ++ (k, v) ∷ []) d

-- `properties`, over the decoder of the values at its depth.
unfoldable pub read_properties : Decode PersistedValue → ℕ → Decode (Option Fields)
unfolding read_entries check_depth
read_properties f depth d = do
  check_depth depth
  (n, d) ← decode_length 208 d
  elim n [
    | none ↦ ok (none, d)
    | some n ↦ do (es, d) ← read_entries n f [] d; ok (some (to_fields es), d)
  ]

unfoldable pub read_vector : Decode PersistedValue
unfolding read_all vector_item
read_vector d = do
  (n, d) ← decode_length 4 d
  elim n [
    | none ↦ ok (vector none, d)
    | some n ↦ do
      refuse (ltb (d.remaining / 4) n) unexpected_eof
      (fs, d) ← read_all n vector_item d
      ok (vector (some fs), d)
  ]

unfoldable pub read_list : Decode PersistedValue → Decode PersistedValue
unfolding read_all
read_list f d = do
  (n, d) ← decode_length 136 d
  elim n [
    | none ↦ ok (nil_list, d)
    | some n ↦ do (vs, d) ← read_all n f d; ok (list (to_items vs), d)
  ]

unfoldable pub read_map : Decode PersistedValue → ℕ → Decode PersistedValue
unfolding read_properties
read_map f depth d = do
  (fs, d) ← read_properties f depth d
  ok (elim fs [ none ↦ nil_map | some fs ↦ map fs ], d)

unfoldable pub read_bool : Decode PersistedValue
read_bool d = do (flag, d) ← read_byte d; refuse (ltb 1 flag) invalid_bool; ok (bool (flag == 1), d)

unfoldable pub read_float : Decode PersistedValue
read_float d = do
  (bs, d) ← read 8 d
  refuse (non_finite64 (big_endian bs)) non_finite
  ok (float (big_endian bs), d)

-- The `switch` on the tag; `f` decodes a value one level down.
unfoldable pub read_tagged : Decode PersistedValue → ℕ → ℕ → Decode PersistedValue
unfolding read_bool read_float read_vector read_list read_map
read_tagged f depth t d =
    if t == 0
    then ok (empty, d)
    else if t == 1
    then ok (null, d)
    else if t == 2
    then read_bool d
    else if t == 3
    then (do (z, d) ← i d; ok (int z, d))
    else if t == 4
    then read_float d
    else if t == 5
    then (do (s, d) ← str d; ok (string s, d))
    else if t == 6
    then (do (b, d) ← read_bytes d; ok (bytes b, d))
    else if t == 7
    then read_vector d
    else if t == 8
    then read_list f d
    else if t == 9
    then read_map f (depth + 1) d
    else err unknown_tag

-- `value`, with the levels that are left below the depth limit; none are left past it.
unfoldable pub value_within : ℕ → ℕ → Decode PersistedValue
unfolding read_tagged check_depth
value_within zero depth d = err value_limit
value_within (suc levels) depth d = do
  check_depth depth
  (t, d) ← read_byte d
  read_tagged (value_within levels (depth + 1)) depth t d

unfoldable pub value : ℕ → Decode PersistedValue
unfolding value_within
value depth = value_within (max_binary_value_depth + 1 - depth) depth

unfoldable pub properties : ℕ → Decode (Option Fields)
unfolding value read_properties
properties depth = read_properties (value depth) depth

unfoldable pub finish : Decoder → Result (Unit {0})
finish d = refuse (not (d.remaining == 0)) trailing_data
