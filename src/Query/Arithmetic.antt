-- ===== src/Query/Arithmetic.antt =====
-- internal/engine/query_arithmetic.go: arithmetic on the values of a query. Floating-point operations
-- are a parameter; an `int64` is an integer, and its operations wrap around.
pub mod Checked
pub mod Types
pub mod Expressions
pub mod Remainder
pub mod Values
pub mod Power
use latticedb_go.Base.{
  ℕ, zero, suc, ◌+◌, ◌-◌, ◌/◌, ◌%◌, ◌^◌, Bool, true, false, not, ◌&&◌, ◌||◌, Option, ltb, ◌==◌,
  if◌then◌else◌,
}
use latticedb_go.Base.Int.{ℤ, pos, negsuc}
use latticedb_go.Base.Signed.{neg, neg_ℤ, ◌+ℤ◌, ◌-ℤ◌, ◌*ℤ◌}
use latticedb_go.Query.Budget.{
  QueryError, integer_overflow, division_by_zero, not_finite, needs_finite, needs_numbers,
  unsupported_operator, rounds_exceeded, Budgeted, ◌>>=◌, ◌>>◌, fail, return, check,
  reserve_expression,
}

abbrev pub max_i64 : ℤ
max_i64 = pos (2 ^ 63 - 1)

abbrev pub min_i64 : ℤ
min_i64 = negsuc (2 ^ 63 - 1)

-- `int64(bits)`
abbrev pub of_bits : ℕ → ℤ
of_bits bits = if ltb bits (2 ^ 63) then pos bits else negsuc (2 ^ 64 - 1 - bits)

unfoldable pub wrap_i64 : ℤ → ℤ
wrap_i64 (pos n) = of_bits (n % 2 ^ 64)
wrap_i64 (negsuc n) = of_bits (2 ^ 64 - 1 - n % 2 ^ 64)

abbrev pub ltb_ℤ : ℤ → ℤ → Bool
ltb_ℤ (pos a) (pos b) = ltb a b
ltb_ℤ (pos a) (negsuc b) = false
ltb_ℤ (negsuc a) (pos b) = true
ltb_ℤ (negsuc a) (negsuc b) = ltb b a

abbrev pub eq_ℤ : ℤ → ℤ → Bool
eq_ℤ (pos a) (pos b) = a == b
eq_ℤ (pos a) (negsuc b) = false
eq_ℤ (negsuc a) (pos b) = false
eq_ℤ (negsuc a) (negsuc b) = a == b

-- Go's `/` and `%` round towards zero.
unfoldable pub quot_i64 : ℤ → ℤ → ℤ
quot_i64 (pos a) (pos b) = pos (a / b)
quot_i64 (pos a) (negsuc b) = neg (a / (b + 1))
quot_i64 (negsuc a) (pos b) = neg ((a + 1) / b)
quot_i64 (negsuc a) (negsuc b) = wrap_i64 (pos ((a + 1) / (b + 1)))

abbrev pub magnitude : ℤ → ℕ
magnitude (pos n) = n
magnitude (negsuc n) = n + 1

unfoldable pub rem_i64 : ℤ → ℤ → ℤ
rem_i64 (pos a) right = pos (a % magnitude right)
rem_i64 (negsuc a) right = neg ((a + 1) % magnitude right)

unfoldable pub checked_integer_product : ℤ → ℤ → Budgeted ℤ
unfolding ◌*ℤ◌ wrap_i64 quot_i64
checked_integer_product left right =
    if eq_ℤ left min_i64 && eq_ℤ right (negsuc 0) || eq_ℤ right min_i64 && eq_ℤ left (negsuc 0)
    then fail integer_overflow
    else let value = wrap_i64 (left *ℤ right) in
      if not (eq_ℤ left (pos 0)) && not (eq_ℤ (quot_i64 value left) right)
      then fail integer_overflow
      else return value

-- `rightInt > 0 && leftInt > math.MaxInt64-rightInt || rightInt < 0 && ...`
abbrev pub sum_overflows : ℤ → ℤ → Bool
sum_overflows left right =
    ltb_ℤ (pos 0) right && ltb_ℤ (wrap_i64 (max_i64 -ℤ right)) left
    || ltb_ℤ right (pos 0) && ltb_ℤ left (wrap_i64 (min_i64 -ℤ right))

abbrev pub difference_overflows : ℤ → ℤ → Bool
difference_overflows left right =
    ltb_ℤ right (pos 0) && ltb_ℤ (wrap_i64 (max_i64 +ℤ right)) left
    || ltb_ℤ (pos 0) right && ltb_ℤ left (wrap_i64 (min_i64 +ℤ right))

unfoldable pub checked_integer_sum : ℤ → ℤ → Budgeted ℤ
unfolding ◌+ℤ◌ ◌-ℤ◌ wrap_i64
checked_integer_sum left right =
    if sum_overflows left right then fail integer_overflow else return (wrap_i64 (left +ℤ right))

unfoldable pub checked_integer_difference : ℤ → ℤ → Budgeted ℤ
unfolding ◌+ℤ◌ ◌-ℤ◌ wrap_i64
checked_integer_difference left right =
    if difference_overflows left right
    then fail integer_overflow
    else return (wrap_i64 (left -ℤ right))

unfoldable pub checked_integer_remainder : ℤ → ℤ → Budgeted ℤ
unfolding rem_i64
checked_integer_remainder left right =
    if eq_ℤ right (pos 0)
    then fail division_by_zero
    else if eq_ℤ left min_i64 && eq_ℤ right (negsuc 0)
    then return (pos 0)
    else return (rem_i64 left right)

-- `if exponent&1 != 0 { ... }`
abbrev pub take_factor : ℕ → ℤ → ℤ → Budgeted ℤ
take_factor exponent value base =
    if exponent % 2 == 0 then return value else (check 1 0 >> checked_integer_product value base)

-- `if exponent != 0 { ... }`
abbrev pub next_square : ℕ → ℤ → Budgeted ℤ
next_square exponent base =
    if exponent == 0 then return base else (check 1 0 >> checked_integer_product base base)

-- `for exponent != 0`, on fuel: 64 rounds are enough for an `int64`.
unfoldable pub power_rounds : ℕ → ℤ → ℤ → ℕ → Budgeted ℤ
power_rounds zero value base exponent = fail rounds_exceeded
power_rounds (suc fuel) value base exponent =
    let rest = λ (value base : ℤ). power_rounds fuel value base (exponent / 2) in
    if exponent == 0 then return value else do
      value ← take_factor exponent value base
      base ← next_square (exponent / 2) base
      rest value base

-- The operations of `float64` that the code calls.
pub record FloatOps (F : Type 0) : Type 0 where
  pub of_int : ℤ → F
  pub negate : F → F
  pub add : F → F → F
  pub sub : F → F → F
  pub mul : F → F → F
  pub div : F → F → F
  pub fmod : F → F → F
  pub pow : F → F → F
  pub is_zero : F → Bool
  -- `!math.IsNaN(value) && !math.IsInf(value, 0)`
  pub is_finite : F → Bool

-- A value of a query: an `int64`, a `float64`, or one that is no number.
pub data QueryValue (F : Type 0) : Type 0 where
  integer : ℤ → QueryValue F
  floating : F → QueryValue F
  other : QueryValue F

-- `(int64, float64, bool)` of `arithmeticValue`.
pub data Numeric (F : Type 0) : Type 0 where
  int_number : ℤ → Numeric F
  float_number : F → Numeric F

-- `queryValueBytes` of an `int64`.
abbrev pub int_value_bytes : ℕ
int_value_bytes = 8

-- `literalExpr.eval` of an `int64`.
unfoldable pub eval_int_literal : {F : Type 0} → ℤ → Budgeted (QueryValue F)
unfolding reserve_expression
eval_int_literal n = reserve_expression int_value_bytes >> return (integer n)

-- An arithmetic expression of a row and its parameters; an operand is any other expression,
-- given by its evaluation.
pub data ArithmeticExpr (F : Type 0) : Type 0 where
  operand : Budgeted (QueryValue F) → ArithmeticExpr F
  unary : ℕ → ArithmeticExpr F → ArithmeticExpr F
  binary : ℕ → ArithmeticExpr F → ArithmeticExpr F → ArithmeticExpr F

module _ {F : Type 0} (ops : FloatOps F) where
  unfoldable pub arithmetic_value : QueryValue F → Budgeted (Numeric F)
  arithmetic_value (integer n) = return (int_number n)
  arithmetic_value (floating x) =
      if ops.is_finite x then return (float_number x) else fail needs_finite
  arithmetic_value other = fail needs_numbers

  abbrev pub finite_or_fail : F → Budgeted (QueryValue F)
  finite_or_fail x = if ops.is_finite x then return (floating x) else fail not_finite

  unfoldable pub integer_power : ℤ → ℤ → Budgeted (QueryValue F)
  integer_power base (negsuc n) = finite_or_fail (ops.pow (ops.of_int base) (ops.of_int (negsuc n)))
  integer_power base (pos n) = do value ← power_rounds 64 (pos 1) base n; return (integer value)

  abbrev pub is_float : Numeric F → Bool
  is_float (int_number n) = false
  is_float (float_number x) = true

  abbrev pub int_part : Numeric F → ℤ
  int_part (int_number n) = n
  int_part (float_number x) = pos 0

  abbrev pub to_float : Numeric F → F
  to_float (int_number n) = ops.of_int n
  to_float (float_number x) = x

  -- The first switch: without a case for the operator `value` stays 0.
  unfoldable pub float_arithmetic : ℕ → F → F → Budgeted (QueryValue F)
  float_arithmetic op left right =
      if op == b'+'
      then finite_or_fail (ops.add left right)
      else if op == b'-'
      then finite_or_fail (ops.sub left right)
      else if op == b'*'
      then finite_or_fail (ops.mul left right)
      else if op == b'/'
      then (if ops.is_zero right
          then fail division_by_zero
          else finite_or_fail (ops.div left right))
      else if op == b'%'
      then (if ops.is_zero right
          then fail division_by_zero
          else finite_or_fail (ops.fmod left right))
      else if op == b'^'
      then finite_or_fail (ops.pow left right)
      else finite_or_fail (ops.of_int (pos 0))

  -- The second switch.
  unfoldable pub int_arithmetic : ℕ → ℤ → ℤ → Budgeted (QueryValue F)
  unfolding checked_integer_sum checked_integer_difference checked_integer_product
      checked_integer_remainder integer_power
  int_arithmetic op left right =
      let wrapped : Budgeted ℤ → Budgeted (QueryValue F) =
        λ call. call >>= λ n. return (integer n) in
      if op == b'+'
      then wrapped (checked_integer_sum left right)
      else if op == b'-'
      then wrapped (checked_integer_difference left right)
      else if op == b'*'
      then wrapped (checked_integer_product left right)
      else if op == b'%'
      then wrapped (checked_integer_remainder left right)
      else if op == b'^'
      then integer_power left right
      else fail unsupported_operator

  abbrev pub takes_floats : ℕ → Numeric F → Numeric F → Bool
  takes_floats op left right =
      is_float left || is_float right || op == b'/' || op == b'^' && ltb_ℤ (int_part right) (pos 0)

  abbrev pub number_arithmetic : ℕ → Numeric F → Numeric F → Budgeted (QueryValue F)
  number_arithmetic op left right =
      if takes_floats op left right
      then float_arithmetic op (to_float left) (to_float right)
      else int_arithmetic op (int_part left) (int_part right)

  unfoldable pub eval_arithmetic : ℕ → QueryValue F → QueryValue F → Budgeted (QueryValue F)
  unfolding arithmetic_value float_arithmetic int_arithmetic
  eval_arithmetic op left right = do
    left ← arithmetic_value left
    right ← arithmetic_value right
    number_arithmetic op left right

  -- `eval`, after the operand of a unary operator.
  unfoldable pub eval_unary : ℕ → Numeric F → Budgeted (QueryValue F)
  eval_unary op (int_number n) =
      if op == b'+'
      then return (integer n)
      else if eq_ℤ n min_i64
      then fail integer_overflow
      else return (integer (neg_ℤ n))
  eval_unary op (float_number x) =
      if op == b'+' then return (floating x) else return (floating (ops.negate x))

  unfoldable pub eval : ArithmeticExpr F → Budgeted (QueryValue F)
  unfolding check arithmetic_value eval_unary eval_arithmetic
  eval (operand call) = call
  eval (unary op right) = do
    check 1 0
    value ← eval right
    number ← arithmetic_value value
    eval_unary op number
  eval (binary op left right) = do
    check 1 0
    left ← eval left
    right ← eval right
    eval_arithmetic op left right
