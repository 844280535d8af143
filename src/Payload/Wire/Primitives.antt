-- ===== src/Payload/Wire/Primitives.antt =====
-- The decoder's primitives read what the format says, and leave the bytes that follow.
use latticedb_go.Base.{
  ℕ, suc, ◌+◌, ◌-◌, ◌*◌, ◌≤◌, ◌<◌, ◌^◌, ◌≡◌, refl, sym, none, some, List, [], ◌∷◌, ◌++◌,
  append_assoc, arith, length, length-append, take-append_length, drop-append_length, ok, le→ltb,
  All,
}
use latticedb_go.Base.Int.{ℤ, IsU64, IsI64}
use latticedb_go.Payload.Values.{Bytes}
use latticedb_go.Payload.Varint.{put_uvarint, zigzag, put_big_endian}
use latticedb_go.Payload.Varint.RoundTrip.{
  uvarint-put_uvarint, unzigzag-zigzag, zigzag-IsU64, length-put_big_endian,
  big_endian-put_big_endian,
}
use latticedb_go.Payload.Decoder.{
  Decoder, Decode, read, read_byte, u, i, reserve, admit_length, decode_length, str, read_all,
  read_bytes, vector_item,
}
use latticedb_go.Payload.Wire.{max_length, IsText, IsFloat32, wire_str, wire_floats}
use native.Mathlib.Nat.{le-div_iff_mul-le}

-- A decoder at the front of `bs`, with `a` bytes of memory left to allocate.
abbrev pub at_bytes : Bytes → ℕ → Decoder
at_bytes bs a = record { input = bs; remaining = length bs; allocation_left = a }

-- `f` reads `x` off `w` and is charged `c`.
abbrev pub Reads {ℓ} : {A : Type ℓ} → Decode A → Bytes → ℕ → A → Type ℓ
Reads f w c x =
    (rest : Bytes) (a b : ℕ) → a ≡ c + b → f (at_bytes (w ++ rest) a) ≡ ok (x, at_bytes rest b)

length-append_sub : (w rest : Bytes) → length (w ++ rest) - length w ≡ length rest
length-append_sub w rest = omega (arith, length-append w rest)

-- Taking the front of the input.
pub read_front :
    (w rest : Bytes) (n a : ℕ)
    → n ≡ length w
    → read n (at_bytes (w ++ rest) a) ≡ ok (w, at_bytes rest a)
unfolding read
read_front w rest n a e = rw (
  e,
  le→ltb (length (w ++ rest)) (length w) (omega (arith, length-append w rest)),
  take-append_length w rest,
  drop-append_length w rest,
  length-append_sub w rest,
)

pub read_byte_front :
    (t : ℕ) (rest : Bytes) (a : ℕ) → read_byte (at_bytes (t ∷ rest) a) ≡ ok (t, at_bytes rest a)
unfolding read_byte
read_byte_front t rest a = ground arith

pub u_front :
    (n : ℕ) (rest : Bytes) (a : ℕ)
    → IsU64 n
    → u (at_bytes (put_uvarint n ++ rest) a) ≡ ok (n, at_bytes rest a)
unfolding u
u_front n rest a h =
    rw (uvarint-put_uvarint n rest h, u)
      (rw (drop-append_length (put_uvarint n) rest, length-append_sub (put_uvarint n) rest))

pub i_front :
    (z : ℤ) (rest : Bytes) (a : ℕ)
    → IsI64 z
    → i (at_bytes (put_uvarint (zigzag z) ++ rest) a) ≡ ok (z, at_bytes rest a)
unfolding i
i_front z rest a h = rw (u_front (zigzag z) rest a (zigzag-IsU64 z h), unzigzag-zigzag z h)

-- A reservation within the allowance is charged.
pub reserve_within :
    (count size : ℕ) (bs : Bytes) (a b : ℕ)
    → 0 < size
    → a ≡ count * size + b
    → reserve count size (at_bytes bs a) ≡ ok (at_bytes bs b)
unfolding reserve
reserve_within count size bs a b hs e =
    ground (arith, (le-div_iff_mul-le {x = count} {y = a} hs).1 (omega arith))

pub decode_length-none :
    (size : ℕ) (rest : Bytes) (a : ℕ)
    → decode_length size (at_bytes (put_uvarint 0 ++ rest) a) ≡ ok (none, at_bytes rest a)
unfolding decode_length admit_length
decode_length-none size rest a = rw (u_front 0 rest a (omega arith))

pub decode_length-some :
    (size count : ℕ) (rest : Bytes) (a b : ℕ)
    → 0 < size
    → count < max_length
    → count ≤ length rest
    → a ≡ count * size + b
    → decode_length size (at_bytes (put_uvarint (count + 1) ++ rest) a)
      ≡ ok (some count, at_bytes rest b)
unfolding decode_length admit_length
decode_length-some size count rest a b hs hc hr e = rw (u_front (count + 1) rest a (omega arith)) (
    let e' : count + 1 ≡ suc count = omega arith in
    rw (
      e',
      le→ltb (length rest) count hr,
      le→ltb (2 ^ 63 - 1) count (omega arith),
      reserve_within count size rest a b hs e,
    ))

pub str_front : (s : Bytes) → IsText s → Reads str (wire_str s) (length s * 2) s
unfolding str
str_front s (hl, hu) rest a b e = rw (
  append_assoc (put_uvarint (length s)) s rest,
  u_front (length s) (s ++ rest) a (omega arith),
  le→ltb (length (s ++ rest)) (length s) (omega (arith, length-append s rest)),
  le→ltb (2 ^ 63 - 1) (length s) (omega arith),
  reserve_within (length s) 2 (s ++ rest) a b (omega arith) e,
  read_front s rest (length s) b refl,
  hu,
)

pub read_bytes-none : Reads read_bytes (put_uvarint 0) 0 none
unfolding read_bytes
read_bytes-none rest a b e = rw (decode_length-none 1 rest a, omega_eq a b e)
  where
    omega_eq : (a b : ℕ) → a ≡ 0 + b → a ≡ b
    omega_eq a b e = omega arith

pub read_bytes-some :
    (s : Bytes)
    → length s < max_length
    → Reads read_bytes (put_uvarint (length s + 1) ++ s) (length s * 1) (some s)
unfolding read_bytes
read_bytes-some s h rest a b e = rw (
  append_assoc (put_uvarint (length s + 1)) s rest,
  decode_length-some 1 (length s) (s ++ rest) a b (omega arith) h
      (omega (arith, length-append s rest)) e,
  read_front s rest (length s) b refl,
)

vector_item_front :
    (f : ℕ) (rest : Bytes) (a : ℕ)
    → IsFloat32 f
    → vector_item (at_bytes (put_big_endian 4 f ++ rest) a) ≡ ok (f, at_bytes rest a)
unfolding vector_item
vector_item_front f rest a (hf, hn) = rw (
  read_front (put_big_endian 4 f) rest 4 a (sym (length-put_big_endian 4 f)),
  big_endian-put_big_endian 4 f (omega arith),
  hn,
)

pub floats_front :
    (fs : List ℕ) (rest : Bytes) (a : ℕ)
    → All IsFloat32 fs
    → read_all (length fs) vector_item (at_bytes (wire_floats fs ++ rest) a)
      ≡ ok (fs, at_bytes rest a)
unfolding read_all
floats_front [] rest a h = refl
floats_front (f ∷ fs) rest a (hf, hfs) = rw (
  append_assoc (put_big_endian 4 f) (wire_floats fs) rest,
  vector_item_front f (wire_floats fs ++ rest) a hf,
  floats_front fs rest a hfs,
)

pub length-wire_floats : (fs : List ℕ) → length (wire_floats fs) ≡ length fs * 4
length-wire_floats [] = refl
length-wire_floats (f ∷ fs) = omega (
  arith,
  length-append (put_big_endian 4 f) (wire_floats fs),
  length-put_big_endian 4 f,
  length-wire_floats fs,
)
