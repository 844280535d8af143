-- ===== src/Payload/Wire/Canonical.antt =====
-- The values that a caller of the encoder holds, and the order that the encoder gives to a map.
use latticedb_go.Base.{suc, ◌<◌, ◌^◌, ◌≡◌, refl, false, some, length, All, arith, if◌then◌else◌}
use latticedb_go.Base.Int.{IsI64}
use latticedb_go.Payload.Values.{
  Bytes, PersistedValue, Items, Fields, int, float, string, bytes, vector, list, map, no_items,
  item, no_fields, field, count_items, count_fields, same_bytes, bytes_less, empty,
}
use latticedb_go.Payload.Wire.{max_length, IsText, Fresh, Distinct}
use latticedb_go.Payload.Wire.Collections.{same_bytes_comm}

-- A Go value in memory: integers and float patterns in range, lengths that fit the address space,
-- valid text, and no key twice in a map.
abbrev mutual
  pub IsStored : PersistedValue → Type 0
  IsStored (int z) = IsI64 z
  IsStored (float bits) = bits < 2 ^ 64
  IsStored (string s) = IsText s
  IsStored (bytes (some b)) = length b < max_length
  IsStored (vector (some fs)) = (length fs < max_length) × All (λ f. f < 2 ^ 32) fs
  IsStored (list vs) = (count_items vs < max_length) × AreStored vs
  IsStored (map fs) = (count_fields fs < max_length) × Distinct fs × AreStoredFields fs
  IsStored _ = Unit {0}

  pub AreStored : Items → Type 0
  AreStored no_items = Unit {0}
  AreStored (item v vs) = IsStored v × AreStored vs

  pub AreStoredFields : Fields → Type 0
  AreStoredFields no_fields = Unit {0}
  AreStoredFields (field k v fs) = IsText k × IsStored v × AreStoredFields fs

unfoldable pub insert_field : Bytes → PersistedValue → Fields → Fields
insert_field k v no_fields = field k v no_fields
insert_field k v (field j w fs) =
    if bytes_less j k then field j w (insert_field k v fs) else field k v (field j w fs)

-- The same value with the entries of every map in the order of their keys.
unfoldable mutual
  unfolding insert_field

  pub canonical : PersistedValue → PersistedValue
  canonical empty = empty
  canonical (list vs) = list (canonical_items vs)
  canonical (map fs) = map (canonical_fields fs)
  canonical v = v

  pub canonical_items : Items → Items
  canonical_items no_items = no_items
  canonical_items (item v vs) = item (canonical v) (canonical_items vs)

  pub canonical_fields : Fields → Fields
  canonical_fields no_fields = no_fields
  canonical_fields (field k v fs) = insert_field k (canonical v) (canonical_fields fs)

count_fields-insert_field :
    (k : Bytes) (v : PersistedValue) (fs : Fields)
    → count_fields (insert_field k v fs) ≡ suc (count_fields fs)
unfolding insert_field
count_fields-insert_field k v no_fields = refl
count_fields-insert_field k v (field j w fs) = ground (arith, count_fields-insert_field k v fs)

pub count_fields-canonical : (fs : Fields) → count_fields (canonical_fields fs) ≡ count_fields fs
unfolding canonical
count_fields-canonical no_fields = refl
count_fields-canonical (field k v fs) = omega (
  arith,
  count_fields-insert_field k (canonical v) (canonical_fields fs),
  count_fields-canonical fs,
)

pub count_items-canonical : (vs : Items) → count_items (canonical_items vs) ≡ count_items vs
unfolding canonical
count_items-canonical no_items = refl
count_items-canonical (item v vs) = omega (arith, count_items-canonical vs)

Fresh-insert_field :
    (j k : Bytes) (v : PersistedValue) (fs : Fields)
    → same_bytes j k ≡ false
    → Fresh j fs
    → Fresh j (insert_field k v fs)
unfolding insert_field
Fresh-insert_field j k v no_fields e f = (e, tt)
Fresh-insert_field j k v (field i w fs) e (f, fr) = ground (arith, Fresh-insert_field j k v fs e fr)

Distinct-insert_field :
    (k : Bytes) (v : PersistedValue) (fs : Fields)
    → Fresh k fs
    → Distinct fs
    → Distinct (insert_field k v fs)
unfolding insert_field
Distinct-insert_field k v no_fields f d = (tt, tt)
Distinct-insert_field k v (field j w fs) (f, fr) (g, d) =
    ground
      (arith, same_bytes_comm k j, Fresh-insert_field j k v fs, Distinct-insert_field k v fs fr d)

Fresh-canonical : (k : Bytes) (fs : Fields) → Fresh k fs → Fresh k (canonical_fields fs)
unfolding canonical
Fresh-canonical k no_fields f = tt
Fresh-canonical k (field j v fs) (f, fr) =
    Fresh-insert_field k j (canonical v) (canonical_fields fs) f (Fresh-canonical k fs fr)

-- Sorting keeps the keys distinct.
pub Distinct-canonical : (fs : Fields) → Distinct fs → Distinct (canonical_fields fs)
unfolding canonical
Distinct-canonical no_fields d = tt
Distinct-canonical (field k v fs) (f, d) =
    Distinct-insert_field k (canonical v) (canonical_fields fs) (Fresh-canonical k fs f)
      (Distinct-canonical fs d)
