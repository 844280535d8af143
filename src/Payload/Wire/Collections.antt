-- ===== src/Payload/Wire/Collections.antt =====
-- Collections on the wire: a list or a map is read once its elements are.
use latticedb_go.Base.{
  ℕ, zero, suc, ◌+◌, ◌-◌, ◌*◌, ◌≤◌, ◌<◌, ◌≡◌, refl, sym, ap, Bool, true, false, ◌||◌, none, some,
  List, [], ◌∷◌, ◌++◌, append_assoc, arith, length, length-append, Result, ok, le→ltb, All,
  if◌then◌else◌, ◌<◌, ◌^◌, ◌/◌,
}
use latticedb_go.Payload.Values.{
  Bytes, PersistedValue, Items, Fields, empty, bool, float, bytes, vector, list, unknown, no_items,
  item, no_fields, field, count_items, count_fields, to_items, to_fields, same_bytes, non_finite64,
}
use latticedb_go.Payload.Varint.{put_uvarint, put_big_endian}
use latticedb_go.Payload.Varint.RoundTrip.{
  length-put_uvarint, length-put_big_endian, big_endian-put_big_endian,
}
use latticedb_go.Payload.Encoder.{check_depth}
use latticedb_go.Payload.Decoder.{
  Decoder, Decode, value_within, read_tagged, read_all, read_entries, has_key, read_bool,
  read_float, read_vector, read_list, read_properties,
}
use latticedb_go.Payload.Wire.{
  wire, wire_items, wire_fields, wire_str, wire_floats, cost_items, cost_fields, IsStorable,
  AreStorable, Fresh, max_length, IsFloat32,
}
use latticedb_go.Payload.Wire.Primitives.{
  at_bytes, Reads, read_byte_front, read_front, decode_length-some, floats_front,
  length-wire_floats,
}

abbrev pub from_items : Items → List PersistedValue
from_items no_items = []
from_items (item v vs) = v ∷ from_items vs

abbrev pub from_fields : Fields → List (Bytes × PersistedValue)
from_fields no_fields = []
from_fields (field k v fs) = (k, v) ∷ from_fields fs

pub to_items-from_items : (vs : Items) → to_items (from_items vs) ≡ vs
to_items-from_items no_items = refl
to_items-from_items (item v vs) = ap (item v) (to_items-from_items vs)

pub to_fields-from_fields : (fs : Fields) → to_fields (from_fields fs) ≡ fs
to_fields-from_fields no_fields = refl
to_fields-from_fields (field k v fs) = ap (field k v) (to_fields-from_fields fs)

pub same_bytes_comm : (s t : Bytes) → same_bytes s t ≡ same_bytes t s
unfolding same_bytes
same_bytes_comm [] [] = refl
same_bytes_comm [] (c ∷ t) = refl
same_bytes_comm (b ∷ s) [] = refl
same_bytes_comm (b ∷ s) (c ∷ t) = ground (arith, same_bytes_comm s t)

-- No key of `fs` is among the entries that are already read.
abbrev pub Unseen : List (Bytes × PersistedValue) → Fields → Type 0
Unseen seen no_fields = Unit {0}
Unseen seen (field k v fs) = (has_key k seen ≡ false) × Unseen seen fs

pub Unseen-nil : (fs : Fields) → Unseen [] fs
unfolding has_key
Unseen-nil no_fields = tt
Unseen-nil (field k v fs) = (refl, Unseen-nil fs)

pub has_key-snoc :
    (j k : Bytes) (v : PersistedValue) (seen : List (Bytes × PersistedValue))
    → has_key j (seen ++ (k, v) ∷ []) ≡ (has_key j seen || same_bytes j k)
unfolding has_key
has_key-snoc j k v [] = ground arith
has_key-snoc j k v ((i, w) ∷ seen) = ground (arith, has_key-snoc j k v seen)

pub Unseen-snoc :
    (k : Bytes) (v : PersistedValue) (seen : List (Bytes × PersistedValue)) (fs : Fields)
    → Unseen seen fs
    → Fresh k fs
    → Unseen (seen ++ (k, v) ∷ []) fs
Unseen-snoc k v seen no_fields h f = tt
Unseen-snoc k v seen (field j w fs) (h, hs) (f, fr) =
    (rw (has_key-snoc j k v seen, h, same_bytes_comm j k) f, Unseen-snoc k v seen fs hs fr)

pub IsStorable-depth : (d : ℕ) (v : PersistedValue) → IsStorable d v → d ≤ 65
IsStorable-depth d empty h = h
IsStorable-depth d (bytes none) h = h
IsStorable-depth d (bytes (some b)) h = h.0
IsStorable-depth d (vector none) h = h
IsStorable-depth d (vector (some b)) h = h.0
IsStorable-depth d (unknown k) h = absurd h
IsStorable-depth d _ h = omega arith

-- One level of `value`: the depth test and the tag.
pub value_step :
    (levels depth t : ℕ) (bs : Bytes) (a : ℕ)
    → levels + depth ≡ 66
    → depth ≤ 65
    → value_within levels depth (at_bytes (t ∷ bs) a)
      ≡ read_tagged (value_within (levels - 1) (depth + 1)) depth t (at_bytes bs a)
unfolding value_within check_depth
value_step zero depth t bs a e h = absurd (omega arith)
value_step (suc levels) depth t bs a e h =
    rw (le→ltb 65 depth h, read_byte_front t bs a)
      (ap (λ (n : ℕ). read_tagged (value_within n (depth + 1)) depth t (at_bytes bs a))
        (let e' : levels ≡ suc levels - 1 = omega arith in e'))

pub length-wire : (v : PersistedValue) (d : ℕ) → IsStorable d v → 1 ≤ length (wire v)
unfolding wire
length-wire empty d h = omega arith
length-wire (bytes none) d h = omega arith
length-wire (bytes (some b)) d h = omega arith
length-wire (vector none) d h = omega arith
length-wire (vector (some b)) d h = omega arith
length-wire (unknown k) d h = absurd h
length-wire _ d h = omega arith

pub length-wire_items :
    (vs : Items) (d : ℕ) → AreStorable d vs → count_items vs ≤ length (wire_items vs)
unfolding wire
length-wire_items no_items d h = omega arith
length-wire_items (item v vs) d (h, hs) =
    omega
      (arith, length-append (wire v) (wire_items vs), length-wire v d h, length-wire_items vs d hs)

pub length-wire_fields : (fs : Fields) → count_fields fs ≤ length (wire_fields fs)
unfolding wire
length-wire_fields no_fields = omega arith
length-wire_fields (field k v fs) = omega (
  arith,
  length-append (wire_str k) (wire v ++ wire_fields fs),
  length-append (put_uvarint (length k)) k,
  length-put_uvarint (length k),
  length-append (wire v) (wire_fields fs),
  length-wire_fields fs,
)

-- Nothing was charged.
pub free {ℓ} :
    {A : Type ℓ} (x : A) (rest : Bytes) (a b : ℕ)
    → a ≡ 0 + b
    → ◌≡◌ {A = Result (A × Decoder)} (ok (x, at_bytes rest a)) (ok (x, at_bytes rest b))
free {A} x rest a b e =
    let e' : a ≡ b = omega arith in
    ap {B = Result (A × Decoder)} (λ (n : ℕ). ok (x, at_bytes rest n)) e'

pub bool_front :
    (x : Bool) (rest : Bytes) (a : ℕ)
    → read_bool (at_bytes ((if x then 1 else 0) ∷ rest) a) ≡ ok (bool x, at_bytes rest a)
unfolding read_bool
bool_front true rest a = rw (read_byte_front 1 rest a)
bool_front false rest a = rw (read_byte_front 0 rest a)

pub float_front :
    (bits : ℕ) (rest : Bytes) (a : ℕ)
    → bits < 2 ^ 64
    → non_finite64 bits ≡ false
    → read_float (at_bytes (put_big_endian 8 bits ++ rest) a) ≡ ok (float bits, at_bytes rest a)
unfolding read_float
float_front bits rest a h f = rw (
  read_front (put_big_endian 8 bits) rest 8 a (sym (length-put_big_endian 8 bits)),
  big_endian-put_big_endian 8 bits (omega arith),
  f,
)

pub vector_front :
    (fs : List ℕ) (rest : Bytes) (a b : ℕ)
    → length fs < max_length
    → All IsFloat32 fs
    → a ≡ length fs * 4 + b
    → read_vector (at_bytes ((put_uvarint (length fs + 1) ++ wire_floats fs) ++ rest) a)
      ≡ ok (vector (some fs), at_bytes rest b)
unfolding read_vector
vector_front fs rest a b h hf e = rw (
  append_assoc (put_uvarint (length fs + 1)) (wire_floats fs) rest,
  decode_length-some 4 (length fs) (wire_floats fs ++ rest) a b (omega arith) h
      (omega (arith, length-append (wire_floats fs) rest, length-wire_floats fs)) e,
  le→ltb (length (wire_floats fs ++ rest) / 4) (length fs)
      (omega (arith, length-append (wire_floats fs) rest, length-wire_floats fs)),
  floats_front fs rest b hf,
)

-- Given the elements, the collection.
pub list_front :
    (f : Decode PersistedValue) (vs : Items) (d : ℕ) (rest : Bytes) (a b : ℕ)
    → count_items vs < max_length
    → AreStorable d vs
    → Reads (read_all (count_items vs) f) (wire_items vs) (cost_items vs) (from_items vs)
    → a ≡ count_items vs * 136 + cost_items vs + b
    → read_list f (at_bytes ((put_uvarint (count_items vs + 1) ++ wire_items vs) ++ rest) a)
      ≡ ok (list vs, at_bytes rest b)
unfolding read_list
list_front f vs d rest a b h hs reads e = rw (
  append_assoc (put_uvarint (count_items vs + 1)) (wire_items vs) rest,
  decode_length-some 136 (count_items vs) (wire_items vs ++ rest) a (cost_items vs + b)
      (omega arith) h (omega (arith, length-append (wire_items vs) rest, length-wire_items vs d hs))
      (omega (arith, e)),
  reads rest (cost_items vs + b) b refl,
  to_items-from_items vs,
)

pub properties_front :
    (f : Decode PersistedValue) (fs : Fields) (d : ℕ) (rest : Bytes) (a b : ℕ)
    → d ≤ 65
    → count_fields fs < max_length
    → Reads (read_entries (count_fields fs) f []) (wire_fields fs) (cost_fields fs) (from_fields fs)
    → a ≡ count_fields fs * 208 + cost_fields fs + b
    → read_properties f d
        (at_bytes ((put_uvarint (count_fields fs + 1) ++ wire_fields fs) ++ rest) a)
      ≡ ok (some fs, at_bytes rest b)
unfolding read_properties check_depth
properties_front f fs d rest a b hd h reads e = rw (
  le→ltb 65 d hd,
  append_assoc (put_uvarint (count_fields fs + 1)) (wire_fields fs) rest,
  decode_length-some 208 (count_fields fs) (wire_fields fs ++ rest) a (cost_fields fs + b)
      (omega arith) h (omega (arith, length-append (wire_fields fs) rest, length-wire_fields fs))
      (omega (arith, e)),
  reads rest (cost_fields fs + b) b refl,
  to_fields-from_fields fs,
)
