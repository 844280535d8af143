-- ===== src/Payload/Streamed.antt =====
-- The decoder over a reader has only the byte-wise path of `u`: it reads what the path over a slice
-- reads.
use latticedb_go.Base.{
  ℕ, zero, suc, ◌+◌, ◌-◌, ◌*◌, ◌^◌, ◌%◌, ◌≡◌, refl, sym, ap, subst, ◌∙◌, Bool, true, false, Option,
  none, some, [], ◌∷◌, arith, length, drop, ltb, ◌==◌, ◌&&◌, if◌then◌else◌, Result, ok, err,
  varint_overflow,
}
use latticedb_go.Payload.Values.{Bytes}
use latticedb_go.Payload.Varint.{uvarint_from, uvarint}
use latticedb_go.Payload.Decoder
use latticedb_go.Payload.Decoder.{Decoder, read_byte, read_uvarint}
use latticedb_go.Payload.Wire.Primitives.{at_bytes, read_byte_front}

abbrev behind : ℕ → Bytes → ℕ → Decoder
behind n bs a = record { input = drop n bs; remaining = length bs - n; allocation_left = a }

-- The integer ends after `i` bytes and one or more of `bs`.
abbrev Ends : ℕ → ℕ → Bytes → ℕ → ℕ → Result (ℕ × Decoder) → Type 0
Ends i a bs v n r = (m : ℕ) × (n ≡ i + suc m) × (r ≡ ok (v, behind (suc m) bs a))

-- One byte, which is the last or not.
Ends-byte :
    (last bad : Bool) (i a b v n x : ℕ) (rest : Bytes) (slice : Option (ℕ × ℕ))
    (bytes : Result (ℕ × Decoder))
    → (slice ≡ some (v, n) → Ends (i + 1) a rest v n bytes)
    → (if last then (if bad then none else some (x, i + 1)) else slice) ≡ some (v, n)
    → Ends i a
        (b ∷ rest)
        v
        n
        (if last then (if bad then err varint_overflow else ok (x, at_bytes rest a)) else bytes)
Ends-byte true true i a b v n x rest slice bytes more h = absurd cc
Ends-byte true false i a b v n x rest slice bytes more h =
    let same : (x ≡ v) × (i + 1 ≡ n) = ground arith in
    let one : length rest ≡ suc (length rest) - 1 = omega arith in
    (
      0,
      omega (arith, same.1),
      rw (same.0)
          (ap (λ n. ok (v, record { input = rest; remaining = n; allocation_left = a })) one),
    )
Ends-byte false bad i a b v n x rest slice bytes more h =
    let (m, e, r) = more h in
    (
      suc m,
      omega (arith, e),
      r ∙ rw (let l : length rest - suc m ≡ suc (length rest) - suc (suc m) = omega arith in l),
    )

read_uvarint-uvarint_from :
    (k i x s a : ℕ) (bs : Bytes) (v n : ℕ)
    → i + k ≡ 10
    → uvarint_from i x s bs ≡ some (v, n)
    → Ends i a bs v n (read_uvarint k i x s (at_bytes bs a))
unfolding uvarint_from read_uvarint
read_uvarint-uvarint_from zero i x s a [] v n e h = absurd cc
read_uvarint-uvarint_from zero i x s a (b ∷ rest) v n e h =
    let ten : (i == 10) ≡ true = ground arith in
    let short : none ≡ some (v, n) = rw (ten) at h in absurd cc
read_uvarint-uvarint_from (suc k) i x s a [] v n e h = absurd cc
read_uvarint-uvarint_from (suc k) i x s a (b ∷ rest) v n e h =
    let ten : (i == 10) ≡ false = ground arith in
    rw (read_byte_front b rest a) (
      Ends-byte (ltb b 128) (i == 9 && ltb 1 b) i a b v n (x + b * 2 ^ s) rest _ _
        (read_uvarint-uvarint_from k (i + 1) (x + b % 128 * 2 ^ s) (s + 7) a rest v n (omega arith))
        (rw (ten) at h))

u_both :
    (bs : Bytes) (a : ℕ) (o : Option (ℕ × ℕ))
    → uvarint bs ≡ o
    → (elim o [
      | some (value, n) ↦ ok (value, behind n bs a)
      | none ↦ read_uvarint 10 0 0 0 (at_bytes bs a)
    ])
      ≡ read_uvarint 10 0 0 0 (at_bytes bs a)
unfolding uvarint
u_both bs a none e = refl
u_both bs a (some (v, n)) e =
    let (m, same, r) = read_uvarint-uvarint_from 10 0 0 0 a bs v n refl e in
    let m_eq : n ≡ suc m = omega (arith, same) in rw (m_eq) (sym r)

-- On a decoder whose count of remaining bytes is that of its input, the method with the path over the
-- slice has the outcome of the byte-wise path alone, which is all that a decoder over a reader has:
-- the same value and the same decoder behind it, or the same error.
pub u-read_uvarint :
    (d : Decoder) → d.remaining ≡ length d.input → Decoder.u d ≡ read_uvarint 10 0 0 0 d
unfolding Decoder.u
u-read_uvarint d e =
    let same : at_bytes d.input d.allocation_left ≡ d =
      ap (λ n. record d { remaining = n }) (sym e) in
    subst (λ d. Decoder.u d ≡ read_uvarint 10 0 0 0 d) same
      (u_both d.input d.allocation_left (uvarint d.input) refl)
