-- ===== src/Query/Tests.antt =====
-- internal/engine: runs of the modelled functions, and the theorems at concrete inputs.
use latticedb_go.Base.{arith, ℕ, ◌-◌, ◌^◌, ◌≡◌, refl, true, false, none, some, ◌==◌}
use latticedb_go.Base.Int.{ℤ, pos, negsuc}
use latticedb_go.Base.Signed.{◌-ℤ◌, ◌*ℤ◌, pow_ℤ}
use latticedb_go.Query.Budget.{
  QueryBudget, failed, done, check, integer_overflow, work_exceeded, bytes_exceeded,
  charge_temporary, release_temporary,
}
use latticedb_go.Query.Limits.Within.{Keeps, Leaves, budget-Keeps}
use latticedb_go.Query.Arithmetic.{
  FloatOps, integer, ArithmeticExpr, operand, unary, binary, eval, eval_int_literal,
  eval_arithmetic, power_rounds, checked_integer_remainder,
}
use latticedb_go.Query.Arithmetic.Remainder.{IsRemainder, checked_integer_remainder-IsRemainder}
use latticedb_go.Query.Arithmetic.Values.{ValueAgrees, eval_arithmetic-Agrees, power-Agrees}
use latticedb_go.Query.Arithmetic.Power.{Agrees}
use latticedb_go.Query.Arithmetic.Types.{ReturnsNumber, eval_arithmetic-ReturnsNumber}
use latticedb_go.Query.Arithmetic.Expressions.{
  Means, literal, minus, combine, OutOfRange, Evaluates, eval-Means,
}

-- Floats that are integers, for runs that do not reach them.
abbrev whole_floats : FloatOps ℤ
whole_floats = record {
  of_int = λ n. n;
  negate = λ n. n;
  add = λ a b. a;
  sub = λ a b. a;
  mul = λ a b. a;
  div = λ a b. a;
  fmod = λ a b. a;
  pow = λ a b. a;
  is_zero = λ n. elim n [ pos k ↦ k == 0 | negsuc k ↦ false ];
  is_finite = λ n. true;
}

abbrev budget_of : ℕ → QueryBudget
budget_of work = record {
  ctx = none;
  polls = 0;
  max_rows = 10;
  max_work = work;
  max_bytes = 4096;
  work = 0;
  bytes = 0;
  source_bytes = 0;
}

abbrev literal_of : ℤ → ArithmeticExpr ℤ
literal_of n = operand (eval_int_literal n)

-- 7 - 10
abbrev small_difference : ArithmeticExpr ℤ
small_difference = binary b'-' (literal_of (pos 7)) (literal_of (pos 10))

-- -(7 - 10) ^ 3
abbrev negated_cube : ArithmeticExpr ℤ
negated_cube = unary b'-' (binary b'^' small_difference (literal_of (pos 3)))

cube_runs : eval whole_floats negated_cube none ≡ done (integer (pos 27)) none
unfolding eval power_rounds eval_int_literal
cube_runs = refl

-- With a budget the three literals charge 24 bytes.
cube_is_charged :
    eval whole_floats negated_cube (some (budget_of 20))
    ≡ done (integer (pos 27)) (some (record (budget_of 20) { work = 6; bytes = 24 }))
unfolding eval power_rounds eval_int_literal
cube_is_charged = refl

-- Without room for the second literal.
literal_is_refused :
    eval whole_floats negated_cube (some (record (budget_of 20) { max_bytes = 15 }))
    ≡ failed bytes_exceeded (some (record (budget_of 20) { max_bytes = 15; work = 3; bytes = 8 }))
unfolding eval power_rounds eval_int_literal
literal_is_refused = refl

least_power_runs :
    eval_arithmetic whole_floats b'^' (integer (negsuc 1)) (integer (pos 63)) none
    ≡ done (integer (negsuc (2 ^ 63 - 1))) none
unfolding eval_arithmetic power_rounds check
least_power_runs = refl

overflow_runs :
    eval_arithmetic whole_floats b'^' (integer (pos 2)) (integer (pos 63)) none
    ≡ failed integer_overflow none
unfolding eval_arithmetic power_rounds check
overflow_runs = refl

product_runs :
    eval_arithmetic whole_floats b'*' (integer (negsuc (2 ^ 63 - 1))) (integer (negsuc 0)) none
    ≡ failed integer_overflow none
unfolding eval_arithmetic
product_runs = refl

limit_runs : check 3 0 (some (budget_of 2)) ≡ failed work_exceeded (some (budget_of 2))
unfolding check
limit_runs = refl

eval_arithmetic-Agrees_example :
    ValueAgrees (negsuc (2 ^ 63 - 1)) true (
      eval_arithmetic whole_floats b'^'
        (integer (negsuc 1))
        (integer (pos 63))
        (some (budget_of 9)))
unfolding pow_ℤ ◌*ℤ◌
eval_arithmetic-Agrees_example =
    eval_arithmetic-Agrees whole_floats b'^' (negsuc 1) (pos 63) (negsuc (2 ^ 63 - 1))
      (some (budget_of 9)) refl refl refl

power-Agrees_example :
    Agrees (pow_ℤ (pos 3) 40) true (power_rounds 64 (pos 1) (pos 3) 40 (some (budget_of 5)))
power-Agrees_example = power-Agrees (pos 3) 40 (some (budget_of 5)) refl refl

checked_integer_remainder-IsRemainder_example :
    (m : ℤ) × (checked_integer_remainder (negsuc 6) (pos 3) none ≡ done m none)
    × IsRemainder (negsuc 6) (pos 3) m
checked_integer_remainder-IsRemainder_example =
    checked_integer_remainder-IsRemainder (negsuc 6) (pos 3) none (λ e. cc)

negated_cube-Means : Means negated_cube (pos 27)
unfolding pow_ℤ ◌*ℤ◌ ◌-ℤ◌
negated_cube-Means = minus refl (
    combine refl (combine refl (literal (pos 7) refl) (literal (pos 10) refl))
      (literal (pos 3) refl))

eval-Means_example :
    Evaluates
      (pos 27)
      (OutOfRange negated_cube)
      true
      (eval whole_floats negated_cube (some (budget_of 20)))
eval-Means_example = eval-Means whole_floats negated_cube (some (budget_of 20)) negated_cube-Means

eval_arithmetic-ReturnsNumber_example :
    ReturnsNumber whole_floats
      (eval_arithmetic whole_floats b'/' (integer (pos 9)) (integer (negsuc 1)) none)
eval_arithmetic-ReturnsNumber_example =
    eval_arithmetic-ReturnsNumber whole_floats b'/' (integer (pos 9)) (integer (negsuc 1)) none refl
      refl

budget-Keeps_example :
    Keeps (budget_of 9) (check 64 2 (some (budget_of 9)))
    × Keeps (budget_of 9) (charge_temporary 64 (some (budget_of 9)))
    × Leaves (budget_of 9) (release_temporary 64 (some (budget_of 9)))
budget-Keeps_example = budget-Keeps (budget_of 9) 64 2 (omega arith)
