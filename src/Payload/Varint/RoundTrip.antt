-- ===== src/Payload/Varint/RoundTrip.antt =====
-- encoding/binary: what the writers of integers put down is read back.
use latticedb_go.Base.{
  ℕ, zero, suc, ◌+◌, ◌*◌, ◌/◌, ◌%◌, ◌^◌, ◌≤◌, ◌<◌, ◌≡◌, refl, ap, ◌∙◌, some, [], ◌∷◌, ◌++◌, arith,
  length, length-append,
}
use latticedb_go.Base.Int.{ℤ, pos, negsuc, IsU64, IsI64}
use latticedb_go.Payload.Values.{Bytes}
use latticedb_go.Payload.Varint.{
  put_groups, put_uvarint, uvarint_from, uvarint, zigzag, unzigzag, put_big_endian, big_endian,
}
use mathlib.Core.List.{foldl-append}
use native.Mathlib.Nat.{div-add-mod}
use native.Mathlib.Numerals.{towards_suc}

-- A number at bit `s` is its low seven bits there and its other bits seven places up.
split_group : (w s : ℕ) → w % 128 * 2 ^ s + w / 128 * 2 ^ (s + 7) ≡ w * 2 ^ s
split_group w s =
    let place : 2 ^ (s + 7) ≡ 2 ^ s * 128 = simp towards_suc (omega arith) in
    let whole = ap (λ (n : ℕ). 2 ^ s * n) (div-add-mod w 128) in
    let high = ap (λ (n : ℕ). n * (w / 128)) place in omega (arith, whole, high)

last_group :
    (i x s w : ℕ) (rest : Bytes)
    → i ≤ 9
    → w < 128
    → (i ≡ 9 → w < 2)
    → uvarint_from i x s (w ∷ rest) ≡ some (x + w * 2 ^ s, i + 1)
unfolding uvarint_from
last_group i x s w rest hi hw h9 = ground arith

inner_group :
    (i x s w : ℕ) (rest : Bytes)
    → i ≤ 8
    → w < 128
    → uvarint_from i x s ((w + 128) ∷ rest) ≡ uvarint_from (i + 1) (x + w * 2 ^ s) (s + 7) rest
unfolding uvarint_from
inner_group i x s w rest hi hw = ground arith

-- `w` is what is still to be read, in `k + 1` groups at most.
uvarint_from-put_groups :
    (k i x s w : ℕ) (rest : Bytes)
    → i + k ≡ 9
    → w < 2 * 128 ^ k
    → uvarint_from i x s (put_groups k w ++ rest)
      ≡ some (x + w * 2 ^ s, i + length (put_groups k w))
unfolding put_groups
uvarint_from-put_groups zero i x s w rest hi hw =
    ground (arith, last_group i x s w rest (omega arith) (omega arith) (λ e. omega arith))
uvarint_from-put_groups (suc k) i x s w rest hi hw = ground (
  arith,
  last_group i x s w rest,
  split_group w s,
  inner_group i x s (w % 128) (put_groups k (w / 128) ++ rest),
  uvarint_from-put_groups k (i + 1) (x + w % 128 * 2 ^ s) (s + 7) (w / 128) rest (omega arith)
      (omega arith),
)

-- `binary.Uvarint` reads what `binary.PutUvarint` wrote, whatever follows it.
pub uvarint-put_uvarint :
    (x : ℕ) (rest : Bytes)
    → IsU64 x
    → uvarint (put_uvarint x ++ rest) ≡ some (x, length (put_uvarint x))
unfolding uvarint put_uvarint
uvarint-put_uvarint x rest h = ground (arith, uvarint_from-put_groups 9 0 0 0 x rest)

length-put_groups : (k x : ℕ) → (1 ≤ length (put_groups k x)) × (length (put_groups k x) ≤ k + 1)
unfolding put_groups
length-put_groups zero x = omega arith
length-put_groups (suc k) x = ground (arith, length-put_groups k (x / 128))

-- An encoded integer takes one to ten bytes.
pub length-put_uvarint : (x : ℕ) → (1 ≤ length (put_uvarint x)) × (length (put_uvarint x) ≤ 10)
unfolding put_uvarint
length-put_uvarint x = length-put_groups 9 x

pub unzigzag-zigzag : (z : ℤ) → IsI64 z → unzigzag (zigzag z) ≡ z
unfolding unzigzag zigzag
unzigzag-zigzag (pos n) h = ground arith
unzigzag-zigzag (negsuc n) h = ground arith

pub zigzag-IsU64 : (z : ℤ) → IsI64 z → IsU64 (zigzag z)
unfolding zigzag
zigzag-IsU64 (pos n) h = omega arith
zigzag-IsU64 (negsuc n) h = omega arith

pub length-put_big_endian : (k x : ℕ) → length (put_big_endian k x) ≡ k
unfolding put_big_endian
length-put_big_endian zero x = refl
length-put_big_endian (suc k) x =
    length-append (put_big_endian k (x / 256)) ((x % 256) ∷ [])
    ∙ omega (arith, length-put_big_endian k (x / 256))

pub big_endian-put_big_endian : (k x : ℕ) → x < 256 ^ k → big_endian (put_big_endian k x) ≡ x
unfolding put_big_endian big_endian
big_endian-put_big_endian zero x h = omega arith
big_endian-put_big_endian (suc k) x h =
    rw foldl-append (omega (arith, big_endian-put_big_endian k (x / 256) (omega arith)))
