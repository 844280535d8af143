-- ===== src/Query/Arithmetic/Remainder.antt =====
-- internal/engine/query_arithmetic.go, `%` on two integers.
use latticedb_go.Base.{
  ℕ, zero, suc, ◌+◌, ◌*◌, ◌/◌, ◌%◌, ◌<◌, ◌≡◌, ◌≢◌, refl, true, false, ◌&&◌, arith, Bool-cases, inl,
  inr, ◌⊎◌, Option, ltb,
}
use native.Mathlib.Nat.{div-add-mod'}
use latticedb_go.Base.Int.{ℤ, pos, negsuc}
use latticedb_go.Base.Signed.{neg, ◌+ℤ◌, ◌*ℤ◌, neg-*-pos}
use latticedb_go.Query.Budget.{QueryBudget, done}
use latticedb_go.Query.Arithmetic.{
  checked_integer_remainder, rem_i64, magnitude, ltb_ℤ, eq_ℤ, min_i64,
}

-- The remainder of a division that rounds towards zero: it is smaller than the divisor, and it has the
-- sign of the dividend or is 0.
pub record IsRemainder (left right m : ℤ) : Type 0 where
  pub quotient : ℤ
  pub divides : left ≡ quotient *ℤ right +ℤ m
  pub smaller : magnitude m < magnitude right
  pub signed : (m ≡ pos 0) ⊎ (ltb_ℤ m (pos 0) ≡ ltb_ℤ left (pos 0))

neg-+-neg : (a b : ℕ) → neg a +ℤ neg b ≡ neg (a + b)
unfolding ◌+ℤ◌
neg-+-neg zero zero = ground arith
neg-+-neg zero (suc b) = ground arith
neg-+-neg (suc a) zero = ground arith
neg-+-neg (suc a) (suc b) = ground arith

neg-*-negsuc : (a b : ℕ) → neg a *ℤ negsuc b ≡ pos (a * (b + 1))
unfolding ◌*ℤ◌
neg-*-negsuc zero b = grind arith
neg-*-negsuc (suc a) b = grind arith

pos-*-negsuc : (a b : ℕ) → pos a *ℤ negsuc b ≡ neg (a * (b + 1))
unfolding ◌*ℤ◌
pos-*-negsuc a b = refl

pos-*-pos : (a b : ℕ) → pos a *ℤ pos b ≡ pos (a * b)
unfolding ◌*ℤ◌
pos-*-pos a b = refl

pos-+-pos : (a b : ℕ) → pos a +ℤ pos b ≡ pos (a + b)
unfolding ◌+ℤ◌
pos-+-pos a b = refl

magnitude-neg : (n : ℕ) → magnitude (neg n) ≡ n
magnitude-neg n = ground arith

neg_sign : (n : ℕ) → (neg n ≡ pos 0) ⊎ (ltb_ℤ (neg n) (pos 0) ≡ true)
neg_sign zero = inl refl
neg_sign (suc n) = inr (ground arith)

neg-suc : (n : ℕ) → neg (n + 1) ≡ negsuc n
neg-suc n = ground arith

not_less : (a b : ℕ) → ltb b 0 ≡ ltb a 0
not_less a b = ground arith

rem_i64-IsRemainder : (left right : ℤ) → right ≢ pos 0 → IsRemainder left right (rem_i64 left right)
unfolding rem_i64
rem_i64-IsRemainder (pos a) (pos zero) h = absurd (h refl)
rem_i64-IsRemainder (pos a) (pos (suc r)) h = record {
  quotient = pos (a / suc r);
  divides = rw (pos-*-pos, pos-+-pos, div-add-mod' a (suc r));
  smaller = omega arith;
  signed = inr (not_less a (a % suc r));
}
rem_i64-IsRemainder (pos a) (negsuc r) h = record {
  quotient = neg (a / (r + 1));
  divides = rw (neg-*-negsuc, pos-+-pos, div-add-mod' a (r + 1));
  smaller = omega arith;
  signed = inr (not_less a (a % (r + 1)));
}
rem_i64-IsRemainder (negsuc a) (pos zero) h = absurd (h refl)
rem_i64-IsRemainder (negsuc a) (pos (suc r)) h = record {
  quotient = neg ((a + 1) / suc r);
  divides = rw (neg-*-pos, neg-+-neg, div-add-mod' (a + 1) (suc r), neg-suc);
  smaller = rw (magnitude-neg) (omega arith);
  signed = neg_sign ((a + 1) % suc r);
}
rem_i64-IsRemainder (negsuc a) (negsuc r) h = record {
  quotient = pos ((a + 1) / (r + 1));
  divides = rw (pos-*-negsuc, neg-+-neg, div-add-mod' (a + 1) (r + 1), neg-suc);
  smaller = rw (magnitude-neg) (omega arith);
  signed = neg_sign ((a + 1) % (r + 1));
}

-- -2^63 % -1 is 0, the result that the code returns without a division.
rem-min :
    (left right : ℤ)
    → (eq_ℤ left min_i64 && eq_ℤ right (negsuc 0)) ≡ true
    → rem_i64 left right ≡ pos 0
unfolding rem_i64
rem-min (pos a) right h = cc
rem-min (negsuc a) (pos r) h = ground arith
rem-min (negsuc a) (negsuc zero) h = ground arith
rem-min (negsuc a) (negsuc (suc r)) h = ground arith

eq_zero : (z : ℤ) → z ≢ pos 0 → eq_ℤ z (pos 0) ≡ false
eq_zero (pos zero) h = absurd (h refl)
eq_zero (pos (suc n)) h = ground arith
eq_zero (negsuc n) h = refl

remainder_runs :
    (left right : ℤ) (b : Option QueryBudget)
    → right ≢ pos 0
    → checked_integer_remainder left right b ≡ done (rem_i64 left right) b
unfolding checked_integer_remainder
remainder_runs left right b h = elim (Bool-cases (eq_ℤ left min_i64 && eq_ℤ right (negsuc 0))) [
  | inl e ↦ rw (eq_zero right h, e, rem-min left right e)
  | inr e ↦ rw (eq_zero right h, e)
]

-- For a divisor other than 0 the operator returns, under every budget, the remainder of a division that
-- rounds towards zero: dividend = quotient * divisor + remainder, smaller than the divisor, and 0 or
-- with the sign of the dividend.
pub checked_integer_remainder-IsRemainder :
    (left right : ℤ) (b : Option QueryBudget)
    → right ≢ pos 0
    → (m : ℤ) × (checked_integer_remainder left right b ≡ done m b) × IsRemainder left right m
checked_integer_remainder-IsRemainder left right b h =
    (rem_i64 left right, remainder_runs left right b h, rem_i64-IsRemainder left right h)
