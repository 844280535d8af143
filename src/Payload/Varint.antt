-- ===== src/Payload/Varint.antt =====
-- encoding/binary as binary_payload.go calls it: integers of one to ten bytes, seven bits a byte and
-- the lowest first, and fixed-width integers, the highest byte first.
pub mod RoundTrip
use latticedb_go.Base.{
  ℕ, zero, suc, ◌+◌, ◌-◌, ◌*◌, ◌/◌, ◌%◌, ◌^◌, ◌&&◌, Option, none, some, [], ◌∷◌, ◌++◌, ltb, ◌==◌,
  if◌then◌else◌,
}
use latticedb_go.Base.Int.{ℤ, pos, negsuc}
use latticedb_go.Payload.Values.{Bytes}
use mathlib.Core.List.{foldl}

-- `for x >= 0x80 { buf[i] = byte(x) | 0x80; x >>= 7 }; buf[i] = byte(x)`. A uint64 has ten groups.
put_groups : ℕ → ℕ → Bytes
put_groups zero x = x ∷ []
put_groups (suc k) x =
    let rest = put_groups k (x / 128) in if ltb x 128 then x ∷ [] else (x % 128 + 128) ∷ rest

unfoldable pub put_uvarint : ℕ → Bytes
unfolding put_groups
put_uvarint x = put_groups 9 x

-- `binary.Uvarint`: the value and the bytes read; `none` is its n <= 0, a short or too long input.
-- The groups are disjoint bits, so `x | uint64(b)<<s` is a sum.
unfoldable pub uvarint_from : ℕ → ℕ → ℕ → Bytes → Option (ℕ × ℕ)
uvarint_from i x s [] = none
uvarint_from i x s (b ∷ rest) =
    let more = uvarint_from (i + 1) (x + b % 128 * 2 ^ s) (s + 7) rest in
    if i == 10
    then none
    else if ltb b 0x80
    then (if i == 9 && ltb 1 b then none else some (x + b * 2 ^ s, i + 1))
    else more

unfoldable pub uvarint : Bytes → Option (ℕ × ℕ)
unfolding uvarint_from
uvarint buf = uvarint_from 0 0 0 buf

-- `ux := uint64(x) << 1; if x < 0 { ux = ^ux }`
unfoldable pub zigzag : ℤ → ℕ
zigzag (pos n) = n * 2 % 2 ^ 64
zigzag (negsuc n) = 2 ^ 64 - 1 - (2 ^ 64 - 1 - n) * 2 % 2 ^ 64

-- `x := int64(ux >> 1); if ux&1 != 0 { x = ^x }`
unfoldable pub unzigzag : ℕ → ℤ
unzigzag ux = if ux % 2 == 0 then pos (ux / 2) else negsuc (ux / 2)

-- `binary.BigEndian.PutUint32`, `PutUint64` for `k` = 4, 8, and the readers.
unfoldable pub put_big_endian : ℕ → ℕ → Bytes
put_big_endian zero x = []
put_big_endian (suc k) x = put_big_endian k (x / 256) ++ (x % 256) ∷ []

unfoldable pub big_endian : Bytes → ℕ
big_endian = foldl (λ acc b. acc * 256 + b) 0
