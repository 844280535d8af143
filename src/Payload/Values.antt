-- ===== src/Payload/Values.antt =====
-- internal/store/store.go, `persistedValue`: a value as it is stored. `Kind` and the one field that
-- it selects are a constructor; a Go `string` or `[]byte` is a list of byte values, and a float is
-- its bit pattern (`math.Float64bits`, `math.Float32bits`).
use latticedb_go.Base.{
  ℕ, ◌/◌, ◌%◌, ◌^◌, Bool, true, false, not, ◌&&◌, ◌||◌, Option, List, [], ◌∷◌, ◌==◌, leb, ltb,
  if◌then◌else◌, zero, suc,
}
use latticedb_go.Base.Int.{ℤ}

abbrev pub Bytes : Type 0
Bytes = List ℕ

-- A Go map is its entries; `absent` kinds are nil slices and maps, which the format keeps apart
-- from empty ones.
mutual
  pub data PersistedValue : Type 0 where
    empty null : PersistedValue
    bool : Bool → PersistedValue
    int : ℤ → PersistedValue
    float : ℕ → PersistedValue
    string : Bytes → PersistedValue
    bytes : Option Bytes → PersistedValue
    vector : Option (List ℕ) → PersistedValue
    nil_list : PersistedValue
    list : Items → PersistedValue
    nil_map : PersistedValue
    map : Fields → PersistedValue
    unknown : Bytes → PersistedValue

  pub data Items : Type 0 where
    no_items : Items
    item : PersistedValue → Items → Items

  pub data Fields : Type 0 where
    no_fields : Fields
    field : Bytes → PersistedValue → Fields → Fields

abbrev pub to_items : List PersistedValue → Items
to_items [] = no_items
to_items (v ∷ vs) = item v (to_items vs)

abbrev pub to_fields : List (Bytes × PersistedValue) → Fields
to_fields [] = no_fields
to_fields ((k, v) ∷ es) = field k v (to_fields es)

abbrev pub count_items : Items → ℕ
count_items no_items = 0
count_items (item v vs) = suc (count_items vs)

abbrev pub count_fields : Fields → ℕ
count_fields no_fields = 0
count_fields (field k v fs) = suc (count_fields fs)

-- `math.IsNaN(f) || math.IsInf(f, 0)`: the exponent bits are all ones.
unfoldable pub non_finite64 : ℕ → Bool
non_finite64 bits = bits / 2 ^ 52 % 2 ^ 11 == 2047

unfoldable pub non_finite32 : ℕ → Bool
non_finite32 bits = bits / 2 ^ 23 % 2 ^ 8 == 255

-- `==` and `<` on Go strings: bytewise, a proper prefix first.
unfoldable pub same_bytes : Bytes → Bytes → Bool
same_bytes [] [] = true
same_bytes [] (c ∷ t) = false
same_bytes (b ∷ s) [] = false
same_bytes (b ∷ s) (c ∷ t) = b == c && same_bytes s t

unfoldable pub bytes_less : Bytes → Bytes → Bool
bytes_less [] [] = false
bytes_less [] (c ∷ t) = true
bytes_less (b ∷ s) [] = false
bytes_less (b ∷ s) (c ∷ t) = ltb b c || b == c && bytes_less s t

-- The continuation count of a UTF-8 lead byte, and the bounds of its first continuation.
utf8_lead : ℕ → ℕ × ℕ × ℕ
utf8_lead b =
    if leb 0xc2 b && leb b 0xdf
    then (1, 0x80, 0xbf)
    else if b == 0xe0
    then (2, 0xa0, 0xbf)
    else if b == 0xed
    then (2, 0x80, 0x9f)
    else if leb 0xe1 b && leb b 0xef
    then (2, 0x80, 0xbf)
    else if b == 0xf0
    then (3, 0x90, 0xbf)
    else if leb 0xf1 b && leb b 0xf3
    then (3, 0x80, 0xbf)
    else if b == 0xf4
    then (3, 0x80, 0x8f)
    else (0, 0x80, 0xbf)

-- `utf8.Valid`: `need` continuation bytes are due, the first of them between `lo` and `hi`.
utf8_scan : ℕ → ℕ → ℕ → Bytes → Bool
unfolding utf8_lead
utf8_scan need lo hi [] = need == 0
utf8_scan (suc need) lo hi (b ∷ s) = leb lo b && leb b hi && utf8_scan need 0x80 0xbf s
utf8_scan zero lo hi (b ∷ s) =
    let ascii = utf8_scan 0 0x80 0xbf s in
    let (need, lo', hi') = utf8_lead b in
    let wide = not (need == 0) && utf8_scan need lo' hi' s in if ltb b 0x80 then ascii else wide

unfoldable pub utf8_valid : Bytes → Bool
unfolding utf8_scan
utf8_valid s = utf8_scan 0 0x80 0xbf s
