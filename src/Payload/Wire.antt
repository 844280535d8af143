-- ===== src/Payload/Wire.antt =====
-- The format that binary_payload.go describes by its encoder and its decoder, written down once: the
-- bytes of a value, the memory that its decoding is charged for, and the values that can be stored.
pub mod Primitives
pub mod Collections
pub mod Decode
pub mod Canonical
pub mod Writes
pub mod Encode
pub mod Lists
pub mod Paid
use latticedb_go.Base.{
  ℕ, ◌+◌, ◌*◌, ◌≤◌, ◌<◌, ◌^◌, ◌≡◌, Bool, true, false, none, some, List, [], ◌∷◌, ◌++◌, length, All,
  if◌then◌else◌,
}
use latticedb_go.Base.Int.{IsI64, IsU64}
use latticedb_go.Payload.Values.{
  Bytes, PersistedValue, Items, Fields, empty, null, bool, int, float, string, bytes, vector,
  nil_list, list, nil_map, map, unknown, no_items, item, no_fields, field, count_items,
  count_fields, non_finite64, non_finite32, same_bytes, bytes_less, utf8_valid,
}
use latticedb_go.Payload.Varint.{put_uvarint, zigzag, put_big_endian}

-- What fits an address space of 2^48 bytes; the length of every Go string and slice does.
abbrev pub max_length : ℕ
max_length = 2 ^ 48

abbrev pub IsText : Bytes → Type 0
IsText s = (length s < max_length) × (utf8_valid s ≡ true)

abbrev pub IsFloat32 : ℕ → Type 0
IsFloat32 bits = (bits < 2 ^ 32) × (non_finite32 bits ≡ false)

abbrev pub wire_str : Bytes → Bytes
wire_str s = put_uvarint (length s) ++ s

abbrev pub wire_floats : List ℕ → Bytes
wire_floats [] = []
wire_floats (f ∷ fs) = put_big_endian 4 f ++ wire_floats fs

unfoldable mutual
  pub wire : PersistedValue → Bytes
  wire empty = 0 ∷ []
  wire null = 1 ∷ []
  wire (bool b) = 2 ∷ (if b then 1 else 0) ∷ []
  wire (int z) = 3 ∷ put_uvarint (zigzag z)
  wire (float bits) = 4 ∷ put_big_endian 8 bits
  wire (string s) = 5 ∷ wire_str s
  wire (bytes none) = 6 ∷ put_uvarint 0
  wire (bytes (some b)) = 6 ∷ put_uvarint (length b + 1) ++ b
  wire (vector none) = 7 ∷ put_uvarint 0
  wire (vector (some fs)) = 7 ∷ put_uvarint (length fs + 1) ++ wire_floats fs
  wire nil_list = 8 ∷ put_uvarint 0
  wire (list vs) = 8 ∷ put_uvarint (count_items vs + 1) ++ wire_items vs
  wire nil_map = 9 ∷ put_uvarint 0
  wire (map fs) = 9 ∷ put_uvarint (count_fields fs + 1) ++ wire_fields fs
  wire (unknown kind) = []

  pub wire_items : Items → Bytes
  wire_items no_items = []
  wire_items (item v vs) = wire v ++ wire_items vs

  pub wire_fields : Fields → Bytes
  wire_fields no_fields = []
  wire_fields (field k v fs) = wire_str k ++ (wire v ++ wire_fields fs)

-- Decoded memory, as `reserve` and `admitDecoded` charge it.
unfoldable mutual
  pub cost : PersistedValue → ℕ
  cost (string s) = length s * 2
  cost (bytes (some b)) = length b * 1
  cost (vector (some fs)) = length fs * 4
  cost (list vs) = count_items vs * 136 + cost_items vs
  cost (map fs) = count_fields fs * 208 + cost_fields fs
  cost _ = 0

  pub cost_items : Items → ℕ
  cost_items no_items = 0
  cost_items (item v vs) = cost v + cost_items vs

  pub cost_fields : Fields → ℕ
  cost_fields no_fields = 0
  cost_fields (field k v fs) = length k * 2 + (cost v + cost_fields fs)

-- `k` is no key of the entries.
abbrev pub Fresh : Bytes → Fields → Type 0
Fresh k no_fields = Unit {0}
Fresh k (field j v fs) = (same_bytes k j ≡ false) × Fresh k fs

abbrev pub Distinct : Fields → Type 0
Distinct no_fields = Unit {0}
Distinct (field k v fs) = Fresh k fs × Distinct fs

-- What the wire can hold at a depth: the depth limit, finite floats, valid text, distinct keys.
abbrev mutual
  pub IsStorable : ℕ → PersistedValue → Type 0
  IsStorable d empty = d ≤ 65
  IsStorable d null = d ≤ 65
  IsStorable d (bool b) = d ≤ 65
  IsStorable d (int z) = (d ≤ 65) × IsI64 z
  IsStorable d (float bits) = (d ≤ 65) × (bits < 2 ^ 64) × (non_finite64 bits ≡ false)
  IsStorable d (string s) = (d ≤ 65) × IsText s
  IsStorable d (bytes none) = d ≤ 65
  IsStorable d (bytes (some b)) = (d ≤ 65) × (length b < max_length)
  IsStorable d (vector none) = d ≤ 65
  IsStorable d (vector (some fs)) = (d ≤ 65) × (length fs < max_length) × All IsFloat32 fs
  IsStorable d nil_list = d ≤ 65
  IsStorable d (list vs) = (d ≤ 65) × (count_items vs < max_length) × AreStorable (d + 1) vs
  IsStorable d nil_map = d + 1 ≤ 65
  IsStorable d (map fs) =
      (d + 1 ≤ 65) × (count_fields fs < max_length) × Distinct fs × AreStorableFields (d + 1) fs
  IsStorable d (unknown kind) = ⊥

  pub AreStorable : ℕ → Items → Type 0
  AreStorable d no_items = Unit {0}
  AreStorable d (item v vs) = IsStorable d v × AreStorable d vs

  pub AreStorableFields : ℕ → Fields → Type 0
  AreStorableFields d no_fields = Unit {0}
  AreStorableFields d (field k v fs) = IsText k × IsStorable d v × AreStorableFields d fs
