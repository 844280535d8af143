-- ===== src/Query/Arithmetic/Power.antt =====
-- internal/engine/query_arithmetic.go, `integerPower`: the loop over the bits of the exponent.
use latticedb_go.Base.{
  ℕ, zero, suc, ◌+◌, ◌*◌, ◌/◌, ◌%◌, ◌^◌, ◌≤◌, ◌<◌, ◌≡◌, ◌≢◌, refl, sym, ap, ◌∙◌, Bool, true, false,
  arith, Bool-cases, inl, inr, Option, ◌==◌, ==_iff,
}
use native.Mathlib.Nat.{two-pow-succ}
use latticedb_go.Base.Int.{ℤ, pos}
use latticedb_go.Base.Signed.{
  in_i64, ◌*ℤ◌, pow_ℤ, *ℤ_assoc, *ℤ-one, *ℤ-zero, square, pow_ℤ-square, pow_ℤ-pos,
  out_of_range-*-pos, *-big-out_of_range, square_out_of_range, le-square, *ℤ_nonzero,
}
use latticedb_go.Query.Budget.{
  QueryBudget, QueryError, integer_overflow, Outcome, failed, done, Budgeted, ◌>>=◌, check,
  then_call,
}
use latticedb_go.Query.Limits.{IsLimit, is_present, Passes, passed, stopped, check-Passes}
use latticedb_go.Query.Arithmetic.{checked_integer_product, take_factor, next_square, power_rounds}
use latticedb_go.Query.Arithmetic.Checked.{exact, checked_integer_product-exact}

-- An integer is the result where it is an `int64`, overflow is reported where it is none, and a limit
-- only where there is a budget.
pub data Agrees (z : ℤ) (present : Bool) : Outcome ℤ → Type 0 where
  result :
      {v : ℤ} {b : Option QueryBudget}
      → v ≡ z
      → in_i64 z ≡ true
      → is_present b ≡ present
      → Agrees z present (done v b)
  overflow :
      {b : Option QueryBudget} → in_i64 z ≡ false → Agrees z present (failed integer_overflow b)
  limit :
      {e : QueryError} {b : Option QueryBudget}
      → present ≡ true
      → IsLimit e
      → Agrees z present (failed e b)

module _ (z left right : ℤ) (next : ℤ → Budgeted ℤ) {present : Bool}
    (out : in_i64 (left *ℤ right) ≡ false → in_i64 z ≡ false)
    (inside : in_i64 (left *ℤ right) ≡ true
      → (b : Option QueryBudget) → is_present b ≡ present
      → Agrees z present (next (left *ℤ right) b)) where
  exact-Agrees :
      (b : Option QueryBudget)
      → is_present b ≡ present
      → Agrees z present (then_call (exact (left *ℤ right) b) next)
  exact-Agrees b same = elim (Bool-cases (in_i64 (left *ℤ right))) [
    | inl e ↦ rw e (inside e b same)
    | inr e ↦ rw e (overflow (out e))
  ]

  checked-Agrees :
      (o : Outcome (Unit {0}))
      → in_i64 left ≡ true
      → in_i64 right ≡ true
      → Passes present o
      → Agrees z present (then_call (then_call o (λ _. checked_integer_product left right)) next)
  checked-Agrees _ h k (passed {b} same) =
      rw (checked_integer_product-exact left right b h k) (exact-Agrees b same)
  checked-Agrees _ h k (stopped p l) = limit p l

abbrev pub Sound : ℕ → Type 0
Sound fuel =
    (value base : ℤ) (exponent : ℕ) (b : Option QueryBudget)
    → in_i64 value ≡ true
    → in_i64 base ≡ true
    → (base ≢ pos 0 → value ≢ pos 0)
    → exponent < 2 ^ fuel
    → Agrees (value *ℤ pow_ℤ base exponent) (is_present b)
        (power_rounds (suc fuel) value base exponent b)

pow_at_zero : (a b : ℤ) (n : ℕ) → n ≡ 0 → pow_ℤ a n ≡ pow_ℤ b n
unfolding pow_ℤ
pow_at_zero a b zero e = refl
pow_at_zero a b (suc n) e = absurd (omega arith)

pos_of_test : (n : ℕ) → (n == 0) ≡ false → 1 ≤ n
pos_of_test n h = ground arith

square-zero : (z : ℤ) → z ≡ pos 0 → z *ℤ z ≡ pos 0
unfolding ◌*ℤ◌
square-zero z e = rw e

out_of_range-nonzero : (z : ℤ) → in_i64 (z *ℤ z) ≡ false → z ≢ pos 0
out_of_range-nonzero z out e = cc (ap in_i64 (sym (square-zero z e)) ∙ out)

right-nonzero : (a b : ℤ) → in_i64 (a *ℤ b) ≡ false → b ≢ pos 0
right-nonzero a b out e =
    let zero_product : a *ℤ b ≡ pos 0 = rw e (*ℤ-zero a) in cc (ap in_i64 (sym zero_product) ∙ out)

-- A square that is no `int64` is a factor of the power, which is then none either.
big_square :
    (value base : ℤ) (half : ℕ)
    → (base ≢ pos 0 → value ≢ pos 0)
    → 1 ≤ half
    → in_i64 (base *ℤ base) ≡ false
    → in_i64 (value *ℤ pow_ℤ (base *ℤ base) half) ≡ false
big_square value base half nz l out =
    let (m, e, _) = square base in
    let big : 2 ^ 63 < m * m = square_out_of_range m (ap in_i64 (sym e) ∙ out) in
    let (k, f, _, g) = pow_ℤ-pos (m * m) half (omega arith) in
    rw (e, f) (*-big-out_of_range value k (nz (out_of_range-nonzero base out)) (omega (arith, g l)))

-- What follows `exponent >>= 1`.
second_half :
    (fuel : ℕ) (value base : ℤ) (half : ℕ) (b : Option QueryBudget)
    → Sound fuel
    → in_i64 value ≡ true
    → in_i64 base ≡ true
    → (base ≢ pos 0 → value ≢ pos 0)
    → half < 2 ^ fuel
    → Agrees
        (value *ℤ pow_ℤ (base *ℤ base) half)
        (is_present b)
        ((next_square half base >>= λ base. power_rounds (suc fuel) value base half) b)
second_half fuel value base half b ih h k nz l = elim (Bool-cases (half == 0)) [
  | inl last ↦
      rw (last, pow_at_zero (base *ℤ base) base half ((==_iff half 0).0 last))
        (ih value base half b h k nz l)
  | inr more ↦ rw more (
      checked-Agrees (value *ℤ pow_ℤ (base *ℤ base) half) base base
        (λ base. power_rounds (suc fuel) value base half)
        (big_square value base half nz (pos_of_test half more))
        (λ inside b' same.
          rw (← same)
            (ih value (base *ℤ base) half b' h inside (λ h. nz (λ e. h (square-zero base e))) l))
        (check 1 0 b) k k (check-Passes 1 0 b))
]

-- A factor that leaves the range leaves the power out of it.
big_factor :
    (value base : ℤ) (half : ℕ)
    → base ≢ pos 0
    → in_i64 (value *ℤ base) ≡ false
    → in_i64 (value *ℤ base *ℤ pow_ℤ (base *ℤ base) half) ≡ false
big_factor value base half nz out =
    let (m, e, f) = square base in
    let (k, g, l, _) = pow_ℤ-pos (m * m) half (le-square m (f nz)) in
    rw (e, g) (out_of_range-*-pos (value *ℤ base) k out l)

below : (fuel n : ℕ) → n < 2 ^ suc fuel → n / 2 < 2 ^ fuel
below fuel n l = omega (arith, two-pow-succ fuel)

pow_even : (z : ℤ) (n : ℕ) → n % 2 ≡ 0 → pow_ℤ z n ≡ pow_ℤ (z *ℤ z) (n / 2)
pow_even z n h =
    let two : n ≡ n / 2 + n / 2 = omega arith in ap (pow_ℤ z) two ∙ pow_ℤ-square z (n / 2)

pow_odd : (z : ℤ) (n : ℕ) → n % 2 ≢ 0 → pow_ℤ z n ≡ z *ℤ pow_ℤ (z *ℤ z) (n / 2)
unfolding pow_ℤ
pow_odd z n h =
    let two : n ≡ suc (n / 2 + n / 2) = omega arith in
    ap (pow_ℤ z) two ∙ ap (λ w. z *ℤ w) (pow_ℤ-square z (n / 2))

power_rounds-last :
    (fuel : ℕ) (value base : ℤ) (exponent : ℕ) (b : Option QueryBudget)
    → in_i64 value ≡ true
    → exponent ≡ 0
    → Agrees
        (value *ℤ pow_ℤ base exponent)
        (is_present b)
        (power_rounds (suc fuel) value base exponent b)
unfolding power_rounds pow_ℤ
power_rounds-last fuel value base zero b h e =
    result (sym (*ℤ-one value)) (ap in_i64 (*ℤ-one value) ∙ h) refl
power_rounds-last fuel value base (suc n) b h e = absurd (omega arith)

power_rounds-next :
    (fuel : ℕ) (value base : ℤ) (exponent : ℕ) (b : Option QueryBudget)
    → (exponent == 0) ≡ false
    → power_rounds (suc fuel) value base exponent b
      ≡ then_call (take_factor exponent value base b) (λ value.
        next_square (exponent / 2) base >>= λ base. power_rounds fuel value base (exponent / 2))
unfolding power_rounds
power_rounds-next fuel value base exponent b e = rw e

-- The loop ends, and it multiplies `value` by the power.
pub power_rounds-Sound : (fuel : ℕ) → Sound fuel
power_rounds-Sound zero value base exponent b h k nz l =
    power_rounds-last zero value base exponent b h (omega arith)
power_rounds-Sound (suc fuel) value base exponent b h k nz l = elim (Bool-cases (exponent == 0)) [
  | inl e ↦ power_rounds-last (suc fuel) value base exponent b h ((==_iff exponent 0).0 e)
  | inr e ↦
      rw (power_rounds-next (suc fuel) value base exponent b e)
        (elim (Bool-cases ((exponent % 2) == 0)) [
          | inl even ↦
              rw (even, pow_even base exponent ((==_iff (exponent % 2) 0).0 even))
                (second_half fuel value base (exponent / 2) b (power_rounds-Sound fuel) h k nz
                  (below fuel exponent l))
          | inr odd ↦
              rw (odd, pow_odd base exponent (λ e. cc (odd, (==_iff (exponent % 2) 0).1 e)))
                (rw (← *ℤ_assoc value base (pow_ℤ (base *ℤ base) (exponent / 2))) (
                  checked-Agrees (value *ℤ base *ℤ pow_ℤ (base *ℤ base) (exponent / 2)) value base
                    (λ value. next_square (exponent / 2) base >>= λ base.
                      power_rounds (suc fuel) value base (exponent / 2))
                    (λ out. big_factor value base (exponent / 2) (right-nonzero value base out) out)
                    (λ inside b' same. rw (← same) (
                      second_half fuel (value *ℤ base) base (exponent / 2) b'
                        (power_rounds-Sound fuel) inside k
                        (λ nonzero. *ℤ_nonzero value base (nz nonzero) nonzero)
                        (below fuel exponent l)))
                    (check 1 0 b) h k (check-Passes 1 0 b)))
        ])
]
