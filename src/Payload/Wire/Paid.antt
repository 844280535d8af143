-- ===== src/Payload/Wire/Paid.antt =====
-- The memory that a decoding is charged for, in proportion to the bytes that it reads: no element is
-- charged more than 208 bytes, and each has a byte of its own.
use latticedb_go.Base.{
  ℕ, ◌+◌, ◌*◌, ◌≤◌, true, false, none, some, List, [], ◌∷◌, ◌++◌, arith, length, length-append,
}
use latticedb_go.Payload.Values.{
  Bytes, PersistedValue, Items, Fields, empty, null, bool, int, float, string, bytes, vector,
  nil_list, list, nil_map, map, unknown, no_items, item, no_fields, field, count_items,
  count_fields,
}
use latticedb_go.Payload.Varint.{put_uvarint, put_big_endian}
use latticedb_go.Payload.Varint.RoundTrip.{length-put_uvarint, length-put_big_endian}
use latticedb_go.Payload.Wire.{
  wire_str, wire_floats, wire, wire_items, wire_fields, cost, cost_items, cost_fields, IsStorable,
  AreStorable, AreStorableFields,
}

abbrev pub Paid : ℕ → Bytes → Type 0
Paid c w = c + 208 ≤ 208 * length w

pub Paid-append : (c d : ℕ) (w x : Bytes) → Paid c w → Paid d x → Paid (c + d) (w ++ x)
Paid-append c d w x p q = omega (arith, length-append w x)

pub Paid-uvarint : (n : ℕ) → Paid 0 (put_uvarint n)
Paid-uvarint n = omega (arith, length-put_uvarint n)

pub Paid-behind : (n c : ℕ) (w : Bytes) → Paid c w → Paid c (put_uvarint n ++ w)
Paid-behind n c w h = omega (arith, length-append (put_uvarint n) w)

-- Bytes behind a length.
pub Paid-sized : (n c : ℕ) (s : Bytes) → c ≤ 208 * length s → Paid c (put_uvarint n ++ s)
Paid-sized n c s h = omega (arith, length-append (put_uvarint n) s, length-put_uvarint n)

pub Paid-str : (s : Bytes) → Paid (length s * 2) (wire_str s)
Paid-str s = Paid-sized (length s) (length s * 2) s (omega arith)

length-wire_floats : (fs : List ℕ) → length fs * 4 ≤ length (wire_floats fs)
length-wire_floats [] = omega arith
length-wire_floats (f ∷ fs) = omega (
  arith,
  length-append (put_big_endian 4 f) (wire_floats fs),
  length-put_big_endian 4 f,
  length-wire_floats fs,
)

mutual
  unfolding wire wire_items wire_fields cost cost_items cost_fields

  pub Paid-value : (d : ℕ) (v : PersistedValue) → IsStorable d v → Paid (cost v) (wire v)
  Paid-value d empty h = omega arith
  Paid-value d null h = omega arith
  Paid-value d (bool true) h = omega arith
  Paid-value d (bool false) h = omega arith
  Paid-value d (int z) h = omega arith
  Paid-value d (float bits) h = omega arith
  Paid-value d (string s) h = omega (arith, Paid-str s)
  Paid-value d (bytes none) h = omega arith
  Paid-value d (bytes (some b)) h =
      omega (arith, Paid-sized (length b + 1) (length b * 1) b (omega arith))
  Paid-value d (vector none) h = omega arith
  Paid-value d (vector (some fs)) h = omega (
    arith,
    Paid-sized (length fs + 1) (length fs * 4) (wire_floats fs)
        (omega (arith, length-wire_floats fs)),
  )
  Paid-value d nil_list h = omega arith
  Paid-value d (list vs) (h0, h1, h) = omega (
    arith,
    Paid-sized (count_items vs + 1) (count_items vs * 136 + cost_items vs) (wire_items vs)
        (omega (arith, Paid-items (d + 1) vs h)),
  )
  Paid-value d nil_map h = omega arith
  Paid-value d (map fs) (h0, h1, h2, h) = omega (
    arith,
    Paid-sized (count_fields fs + 1) (count_fields fs * 208 + cost_fields fs) (wire_fields fs)
        (omega (arith, Paid-fields (d + 1) fs h)),
  )
  Paid-value d (unknown kind) h = absurd h

  Paid-items :
      (d : ℕ) (vs : Items)
      → AreStorable d vs
      → cost_items vs + count_items vs * 208 ≤ 208 * length (wire_items vs)
  Paid-items d no_items h = omega arith
  Paid-items d (item v vs) (h, hs) =
      omega (arith, length-append (wire v) (wire_items vs), Paid-value d v h, Paid-items d vs hs)

  pub Paid-fields :
      (d : ℕ) (fs : Fields)
      → AreStorableFields d fs
      → cost_fields fs + count_fields fs * 208 ≤ 208 * length (wire_fields fs)
  Paid-fields d no_fields h = omega arith
  Paid-fields d (field k v fs) (hk, h, hs) = omega (
    arith,
    length-append (wire_str k) (wire v ++ wire_fields fs),
    length-append (wire v) (wire_fields fs),
    Paid-str k,
    Paid-value d v h,
    Paid-fields d fs hs,
  )
