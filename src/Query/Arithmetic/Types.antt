-- ===== src/Query/Arithmetic/Types.antt =====
-- internal/engine/query_arithmetic.go, `evalArithmetic`: the type of what it returns.
use latticedb_go.Base.{
  ℕ, zero, suc, ◌<◌, ◌≡◌, refl, Bool, true, false, Bool-cases, inl, inr, Option, ◌==◌, arith,
  if◌then◌else◌,
}
use latticedb_go.Base.Int.{ℤ, pos, negsuc}
use latticedb_go.Base.Signed.{in_i64, ◌+ℤ◌, ◌-ℤ◌, ◌*ℤ◌}
use latticedb_go.Query.Budget.{
  QueryBudget, QueryError, Outcome, failed, done, Budgeted, then_call, return,
}
use latticedb_go.Query.Arithmetic.{
  FloatOps, QueryValue, integer, floating, other, Numeric, int_number, float_number,
  eval_arithmetic, arithmetic_value, number_arithmetic, takes_floats, float_arithmetic,
  int_arithmetic, integer_power, power_rounds, finite_or_fail, to_float, int_part,
  checked_integer_sum, checked_integer_difference, checked_integer_product,
  checked_integer_remainder, magnitude,
}
use latticedb_go.Query.Arithmetic.Checked.{
  exact, checked_integer_sum-exact, checked_integer_difference-exact, checked_integer_product-exact,
}
use latticedb_go.Query.Arithmetic.Remainder.{checked_integer_remainder-IsRemainder}
use latticedb_go.Query.Arithmetic.Power.{Agrees}
use latticedb_go.Query.Arithmetic.Values.{power-Agrees}

module _ {F : Type 0} (ops : FloatOps F) where
  -- An integer in the range of `int64`, or a float that is neither infinite nor NaN.
  abbrev pub IsNumber : QueryValue F → Type 0
  IsNumber (integer n) = in_i64 n ≡ true
  IsNumber (floating x) = ops.is_finite x ≡ true
  IsNumber other = ⊥

  -- An integer among the inputs is an `int64`.
  abbrev pub IsI64Value : QueryValue F → Type 0
  IsI64Value (integer n) = in_i64 n ≡ true
  IsI64Value v = Unit

  pub data ReturnsNumber : Outcome (QueryValue F) → Type 0 where
    a_number : {v : QueryValue F} {b : Option QueryBudget} → IsNumber v → ReturnsNumber (done v b)
    an_error : {e : QueryError} {b : Option QueryBudget} → ReturnsNumber (failed e b)

  finite-ReturnsNumber : (x : F) (b : Option QueryBudget) → ReturnsNumber (finite_or_fail ops x b)
  finite-ReturnsNumber x b = elim (Bool-cases (ops.is_finite x)) [
    | inl e ↦ rw e (a_number e)
    | inr e ↦ rw e an_error
  ]

  -- A choice between two calls.
  either_call :
      (test : Bool) (yes_call no_call : Budgeted (QueryValue F)) (b : Option QueryBudget)
      → ReturnsNumber (yes_call b)
      → ReturnsNumber (no_call b)
      → ReturnsNumber ((if test then yes_call else no_call) b)
  either_call true p q b h k = h
  either_call false p q b h k = k

  float-ReturnsNumber :
      (op : ℕ) (l r : F) (b : Option QueryBudget) → ReturnsNumber (float_arithmetic ops op l r b)
  unfolding float_arithmetic
  float-ReturnsNumber op l r b = either_call (op == b'+') _ _ b (finite-ReturnsNumber _ b) (
      either_call (op == b'-') _ _ b (finite-ReturnsNumber _ b) (
        either_call (op == b'*') _ _ b (finite-ReturnsNumber _ b) (
          either_call (op == b'/') _ _ b
            (either_call (ops.is_zero r) _ _ b an_error (finite-ReturnsNumber _ b))
            (either_call (op == b'%') _ _ b
              (either_call (ops.is_zero r) _ _ b an_error (finite-ReturnsNumber _ b))
              (either_call (op == b'^') _ _ b (finite-ReturnsNumber _ b)
                (finite-ReturnsNumber _ b))))))

  -- `return integer, nil` behind a checked operation.
  wrapped-ReturnsNumber :
      (z : ℤ) (b : Option QueryBudget) (o : Outcome ℤ)
      → o ≡ exact z b
      → ReturnsNumber (then_call o (λ n. return (integer n)))
  wrapped-ReturnsNumber z b o e =
      rw e (elim (Bool-cases (in_i64 z)) [ inl i ↦ rw i (a_number i) | inr i ↦ rw i an_error ])

  smaller-in_i64 :
      (m right : ℤ) → in_i64 right ≡ true → magnitude m < magnitude right → in_i64 m ≡ true
  smaller-in_i64 (pos m) (pos r) h l = ground arith
  smaller-in_i64 (pos m) (negsuc r) h l = ground arith
  smaller-in_i64 (negsuc m) (pos r) h l = ground arith
  smaller-in_i64 (negsuc m) (negsuc r) h l = ground arith

  remainder-ReturnsNumber :
      (l r : ℤ) (b : Option QueryBudget)
      → in_i64 r ≡ true
      → ReturnsNumber (then_call (checked_integer_remainder l r b) (λ n. return (integer n)))
  unfolding checked_integer_remainder
  remainder-ReturnsNumber l (pos zero) b h = an_error
  remainder-ReturnsNumber l (pos (suc r)) b h =
      let (m, e, rest) = checked_integer_remainder-IsRemainder l (pos (suc r)) b (λ e. cc) in
      rw e (a_number (smaller-in_i64 m (pos (suc r)) h rest.smaller))
  remainder-ReturnsNumber l (negsuc r) b h =
      let (m, e, rest) = checked_integer_remainder-IsRemainder l (negsuc r) b (λ e. cc) in
      rw e (a_number (smaller-in_i64 m (negsuc r) h rest.smaller))

  Agrees-ReturnsNumber :
      {z : ℤ} {present : Bool} (o : Outcome ℤ)
      → Agrees z present o
      → ReturnsNumber (then_call o (λ n. return (integer n)))
  Agrees-ReturnsNumber _ (Agrees.result e i s) = a_number (rw e i)
  Agrees-ReturnsNumber _ (Agrees.overflow o) = an_error
  Agrees-ReturnsNumber _ (Agrees.limit p l) = an_error

  power-ReturnsNumber :
      (l r : ℤ) (b : Option QueryBudget)
      → in_i64 l ≡ true
      → in_i64 r ≡ true
      → ReturnsNumber (integer_power ops l r b)
  unfolding integer_power
  power-ReturnsNumber l (pos n) b h k =
      Agrees-ReturnsNumber (power_rounds 64 (pos 1) l n b) (power-Agrees l n b h k)
  power-ReturnsNumber l (negsuc n) b h k = finite-ReturnsNumber _ b

  int-ReturnsNumber :
      (op : ℕ) (l r : ℤ) (b : Option QueryBudget)
      → in_i64 l ≡ true
      → in_i64 r ≡ true
      → ReturnsNumber (int_arithmetic ops op l r b)
  unfolding int_arithmetic
  int-ReturnsNumber op l r b h k =
      either_call (op == b'+') _ _ b
        (wrapped-ReturnsNumber (l +ℤ r) b (checked_integer_sum l r b)
          (checked_integer_sum-exact l r b h k))
        (either_call (op == b'-') _ _ b
          (wrapped-ReturnsNumber (l -ℤ r) b (checked_integer_difference l r b)
            (checked_integer_difference-exact l r b h k))
          (either_call (op == b'*') _ _ b
            (wrapped-ReturnsNumber (l *ℤ r) b (checked_integer_product l r b)
              (checked_integer_product-exact l r b h k))
            (either_call (op == b'%') _ _ b (remainder-ReturnsNumber l r b k)
              (either_call (op == b'^') _ _ b (power-ReturnsNumber l r b h k) an_error))))

  number-ReturnsNumber :
      (op : ℕ) (l r : Numeric F) (b : Option QueryBudget)
      → in_i64 (int_part ops l) ≡ true
      → in_i64 (int_part ops r) ≡ true
      → ReturnsNumber (number_arithmetic ops op l r b)
  number-ReturnsNumber op l r b h k =
      either_call (takes_floats ops op l r)
        (float_arithmetic ops op (to_float ops l) (to_float ops r))
        (int_arithmetic ops op (int_part ops l) (int_part ops r)) b (float-ReturnsNumber op _ _ b)
        (int-ReturnsNumber op _ _ b h k)

  -- The values of a query that pass as numbers.
  passes :
      (v : QueryValue F) (b : Option QueryBudget) (next : Numeric F → Budgeted (QueryValue F))
      → IsI64Value v
      → ((n : Numeric F) → in_i64 (int_part ops n) ≡ true → ReturnsNumber (next n b))
      → ReturnsNumber (then_call (arithmetic_value ops v b) next)
  unfolding arithmetic_value
  passes (integer n) b next h k = k (int_number n) h
  passes (floating x) b next h k = elim (Bool-cases (ops.is_finite x)) [
    | inl e ↦ rw e (k (float_number x) refl)
    | inr e ↦ rw e an_error
  ]
  passes other b next h k = an_error

  -- Whatever the operator and the values, of which the integers are in range, a result is an `int64` or a
  -- float that is finite, never a value that is no number.
  pub eval_arithmetic-ReturnsNumber :
      (op : ℕ) (left right : QueryValue F) (b : Option QueryBudget)
      → IsI64Value left
      → IsI64Value right
      → ReturnsNumber (eval_arithmetic ops op left right b)
  unfolding eval_arithmetic
  eval_arithmetic-ReturnsNumber op left right b h k =
      passes left b _ h (λ l i. passes right b _ k (λ r j. number-ReturnsNumber op l r b i j))
