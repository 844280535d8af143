-- ===== src/Base/Signed.antt =====
-- Sums, products and powers of integers, and which of them are an `int64`.
use Prim.Native.Nat.{ℕ, zero, suc, ◌+◌, ◌-◌, ◌*◌, ◌≤◌, ◌<◌, ◌^◌}
use mathlib.Core.Path.{◌≡◌, refl, ap}
use mathlib.Core.Bool.{Bool, false}
use mathlib.Core.Logic.{◌≢◌, inl, inr}
use native.Mathlib.Nat.{mul_assoc, le_trans, mul-le-mul}
use native.Mathlib.Decide.{dec_lt}
use native.Mathlib.Omega.{arith}
use latticedb_go.Base.Tests.{ltb, leb, ◌==◌, if◌then◌else◌, Bool-cases, ==_iff, le→ltb, ltb→le}
use latticedb_go.Base.Int.{ℤ, pos, negsuc}

-- -n, and a - b.
abbrev pub neg : ℕ → ℤ
neg n = if n == 0 then pos 0 else negsuc (n - 1)

abbrev pub sub_ℕ : ℕ → ℕ → ℤ
sub_ℕ a b = if leb b a then pos (a - b) else negsuc (b - a - 1)

infixl 65 ◌+ℤ◌ ◌-ℤ◌
infixl 70 ◌*ℤ◌
unfoldable pub ◌+ℤ◌ : ℤ → ℤ → ℤ
pos a +ℤ pos b = pos (a + b)
pos a +ℤ negsuc b = sub_ℕ a (b + 1)
negsuc a +ℤ pos b = sub_ℕ b (a + 1)
negsuc a +ℤ negsuc b = negsuc (a + b + 1)

abbrev pub neg_ℤ : ℤ → ℤ
neg_ℤ (pos n) = neg n
neg_ℤ (negsuc n) = pos (n + 1)

unfoldable pub ◌-ℤ◌ : ℤ → ℤ → ℤ
unfolding ◌+ℤ◌
a -ℤ b = a +ℤ neg_ℤ b

unfoldable pub ◌*ℤ◌ : ℤ → ℤ → ℤ
pos a *ℤ pos b = pos (a * b)
pos a *ℤ negsuc b = neg (a * (b + 1))
negsuc a *ℤ pos b = neg ((a + 1) * b)
negsuc a *ℤ negsuc b = pos ((a + 1) * (b + 1))

unfoldable pub pow_ℤ : ℤ → ℕ → ℤ
pow_ℤ z zero = pos 1
pow_ℤ z (suc n) = z *ℤ pow_ℤ z n

abbrev pub in_i64 : ℤ → Bool
in_i64 (pos n) = ltb n (2 ^ 63)
in_i64 (negsuc n) = ltb n (2 ^ 63)

-- A product by the sign of its parts.
pub pos-*-neg : (a b : ℕ) → pos a *ℤ neg b ≡ neg (a * b)
unfolding ◌*ℤ◌
pos-*-neg a zero = grind arith
pos-*-neg a (suc b) = grind arith

pub neg-*-pos : (a b : ℕ) → neg a *ℤ pos b ≡ neg (a * b)
unfolding ◌*ℤ◌
neg-*-pos zero b = grind arith
neg-*-pos (suc a) b = grind arith

pub neg-*-neg : (a b : ℕ) → neg a *ℤ neg b ≡ pos (a * b)
unfolding ◌*ℤ◌
neg-*-neg zero zero = grind arith
neg-*-neg (suc a) zero = grind arith
neg-*-neg zero (suc b) = grind arith
neg-*-neg (suc a) (suc b) = grind arith

neg-*-negsuc : (a b : ℕ) → neg a *ℤ negsuc b ≡ pos (a * (b + 1))
unfolding ◌*ℤ◌
neg-*-negsuc zero b = grind arith
neg-*-negsuc (suc a) b = grind arith

negsuc-*-neg : (a b : ℕ) → negsuc a *ℤ neg b ≡ pos ((a + 1) * b)
unfolding ◌*ℤ◌
negsuc-*-neg a zero = grind arith
negsuc-*-neg a (suc b) = grind arith

pub *ℤ_assoc : (a b c : ℤ) → a *ℤ b *ℤ c ≡ a *ℤ (b *ℤ c)
unfolding ◌*ℤ◌
*ℤ_assoc (pos a) (pos b) (pos c) = ap pos (mul_assoc a b c)
*ℤ_assoc (pos a) (pos b) (negsuc c) = rw (pos-*-neg, mul_assoc a b (c + 1))
*ℤ_assoc (pos a) (negsuc b) (pos c) = rw (neg-*-pos, pos-*-neg, mul_assoc a (b + 1) c)
*ℤ_assoc (pos a) (negsuc b) (negsuc c) = rw (neg-*-negsuc, mul_assoc a (b + 1) (c + 1))
*ℤ_assoc (negsuc a) (pos b) (pos c) = rw (neg-*-pos, mul_assoc (a + 1) b c)
*ℤ_assoc (negsuc a) (pos b) (negsuc c) =
    rw (neg-*-negsuc, negsuc-*-neg, mul_assoc (a + 1) b (c + 1))
*ℤ_assoc (negsuc a) (negsuc b) (pos c) = rw (negsuc-*-neg, mul_assoc (a + 1) (b + 1) c)
*ℤ_assoc (negsuc a) (negsuc b) (negsuc c) = ap neg (mul_assoc (a + 1) (b + 1) (c + 1))

pub *ℤ-one : (z : ℤ) → z *ℤ pos 1 ≡ z
unfolding ◌*ℤ◌
*ℤ-one (pos a) = grind arith
*ℤ-one (negsuc a) = grind arith

pub *ℤ-zero : (z : ℤ) → z *ℤ pos 0 ≡ pos 0
unfolding ◌*ℤ◌
*ℤ-zero (pos a) = grind arith
*ℤ-zero (negsuc a) = grind arith

pub one-*ℤ : (z : ℤ) → pos 1 *ℤ z ≡ z
unfolding ◌*ℤ◌
one-*ℤ (pos a) = grind arith
one-*ℤ (negsuc a) = grind arith

pub square : (z : ℤ) → (m : ℕ) × (z *ℤ z ≡ pos (m * m)) × (z ≢ pos 0 → 1 ≤ m)
unfolding ◌*ℤ◌
square (pos a) = (
  a,
  refl,
  λ h. elim (Bool-cases (a == 0)) [
    | inl e ↦ absurd (h (ap pos ((==_iff a 0).0 e)))
    | inr e ↦ ground arith
  ],
)
square (negsuc a) = (a + 1, refl, λ h. omega arith)

pub pow_ℤ-square : (z : ℤ) (n : ℕ) → pow_ℤ z (n + n) ≡ pow_ℤ (z *ℤ z) n
unfolding pow_ℤ
pow_ℤ-square z zero = refl
pow_ℤ-square z (suc n) =
    let two : suc n + suc n ≡ suc (suc (n + n)) = omega arith in
    rw (two, pow_ℤ-square z n, *ℤ_assoc)

pub pow_ℤ-pos : (m n : ℕ) → 1 ≤ m → (k : ℕ) × (pow_ℤ (pos m) n ≡ pos k) × (1 ≤ k) × (1 ≤ n → m ≤ k)
unfolding pow_ℤ ◌*ℤ◌
pow_ℤ-pos m zero h = (1, refl, omega arith, λ h. omega arith)
pow_ℤ-pos m (suc n) h =
    let (k, e, l, _) = pow_ℤ-pos m n h in (m * k, rw e, grind arith, λ _. grind arith)

le-mul : (n k : ℕ) → 1 ≤ k → n ≤ n * k
le-mul n k h = grind arith

lt-mul : (n k b : ℕ) → 1 ≤ n → b < k → b < n * k
lt-mul n k b h l = grind arith

out_of_range-neg : (m : ℕ) → 2 ^ 63 < m → in_i64 (neg m) ≡ false
out_of_range-neg m h = ground arith

pub pos-nonzero : (n : ℕ) → pos n ≢ pos 0 → 1 ≤ n
pos-nonzero zero h = absurd (h refl)
pos-nonzero (suc n) h = omega arith

-- A factor that leaves the range is not brought back by a positive one.
pub out_of_range-*-pos : (z : ℤ) (k : ℕ) → in_i64 z ≡ false → 1 ≤ k → in_i64 (z *ℤ pos k) ≡ false
unfolding ◌*ℤ◌
out_of_range-*-pos (pos n) k h l = le→ltb _ _ (le_trans (ltb→le _ _ h) (le-mul n k l))
out_of_range-*-pos (negsuc n) k h l =
    out_of_range-neg ((n + 1) * k) (omega (arith, ltb→le _ _ h, le-mul (n + 1) k l))

pub *-big-out_of_range : (z : ℤ) (k : ℕ) → z ≢ pos 0 → 2 ^ 63 < k → in_i64 (z *ℤ pos k) ≡ false
unfolding ◌*ℤ◌
*-big-out_of_range (pos n) k h l =
    le→ltb _ _ (omega (arith, lt-mul n k (2 ^ 63) (pos-nonzero n h) l))
*-big-out_of_range (negsuc n) k h l = out_of_range-neg _ (lt-mul (n + 1) k (2 ^ 63) (omega arith) l)

-- 2^63 is no square.
pub square_out_of_range : (m : ℕ) → in_i64 (pos (m * m)) ≡ false → 2 ^ 63 < m * m
square_out_of_range m h = elim (dec_lt m 3_037_000_500) [
  | yes small ↦ omega (arith, ltb→le _ _ h, mul-le-mul (below small) (below small))
  | no large ↦ omega (arith, mul-le-mul (above large) (above large))
]
  where
    below : m < 3_037_000_500 → m ≤ 3_037_000_499
    below h = omega arith

    above : ¬ (m < 3_037_000_500) → 3_037_000_500 ≤ m
    above h = omega arith

pub le-square : (m : ℕ) → 1 ≤ m → 1 ≤ m * m
le-square m h = le_trans h (le-mul m m h)

one-le-mul : (a b : ℕ) → 1 ≤ a → 1 ≤ b → 1 ≤ a * b
one-le-mul a b h k = le_trans h (le-mul a b k)

abbrev size : ℤ → ℕ
size (pos n) = n
size (negsuc n) = n + 1

size-neg : (n : ℕ) → size (neg n) ≡ n
size-neg n = ground arith

pub *ℤ_nonzero : (a b : ℤ) → a ≢ pos 0 → b ≢ pos 0 → a *ℤ b ≢ pos 0
unfolding ◌*ℤ◌
*ℤ_nonzero (pos a) (pos b) h k e =
    omega (arith, one-le-mul a b (pos-nonzero a h) (pos-nonzero b k), ap size e)
*ℤ_nonzero (pos a) (negsuc b) h k e =
    omega (
      arith,
      one-le-mul a (b + 1) (pos-nonzero a h) (omega arith),
      size-neg (a * (b + 1)),
      ap size e,
    )
*ℤ_nonzero (negsuc a) (pos b) h k e =
    omega (
      arith,
      one-le-mul (a + 1) b (omega arith) (pos-nonzero b k),
      size-neg ((a + 1) * b),
      ap size e,
    )
*ℤ_nonzero (negsuc a) (negsuc b) h k e =
    omega (arith, one-le-mul (a + 1) (b + 1) (omega arith) (omega arith), ap size e)
