-- ===== src/Query/Arithmetic/Expressions.antt =====
-- internal/engine/query_arithmetic.go, `arithmeticExpr.eval`: whole expressions over integers.
use latticedb_go.Base.{
  ℕ, ◌≡◌, refl, sym, subst, Bool, true, false, Bool-cases, inl, inr, Option, some, arith,
}
use latticedb_go.Base.Int.{ℤ, pos, negsuc}
use latticedb_go.Base.Signed.{in_i64, neg_ℤ}
use latticedb_go.Query.Budget.{
  QueryBudget, QueryError, integer_overflow, Outcome, failed, done, then_call, return, Budgeted,
  check, reserve_expression,
}
use latticedb_go.Query.Arithmetic.{
  FloatOps, QueryValue, integer, ArithmeticExpr, operand, unary, binary, eval, eval_unary,
  int_number, eq_ℤ, min_i64, eval_int_literal, int_value_bytes,
}
use latticedb_go.Query.Limits.{
  IsLimit, is_present, Passes, passed, stopped, check-Passes, Ensures, ensured, halted,
  reserve_expression-Ensures,
}
use latticedb_go.Query.Arithmetic.Values.{ValueAgrees, integer_meaning, eval_arithmetic-Agrees}

module _ {F : Type 0} where
  -- The integer that an expression over `int64` literals stands for.
  pub data Means : ArithmeticExpr F → ℤ → Type 0 where
    literal : (n : ℤ) → in_i64 n ≡ true → Means (operand (eval_int_literal n)) n
    plus : {op : ℕ} {e : ArithmeticExpr F} {z : ℤ} → op ≡ b'+' → Means e z → Means (unary op e) z
    minus :
        {op : ℕ} {e : ArithmeticExpr F} {z : ℤ}
        → op ≡ b'-'
        → Means e z
        → Means (unary op e) (neg_ℤ z)
    combine :
        {op : ℕ} {l r : ArithmeticExpr F} {x y z : ℤ}
        → integer_meaning op x y ≡ some z
        → Means l x
        → Means r y
        → Means (binary op l r) z

  -- A part of an expression, or all of it, stands for an integer that is no `int64`.
  pub data OutOfRange : ArithmeticExpr F → Type 0 where
    here : {e : ArithmeticExpr F} (z : ℤ) → Means e z → in_i64 z ≡ false → OutOfRange e
    in_operand : {op : ℕ} {e : ArithmeticExpr F} → OutOfRange e → OutOfRange (unary op e)
    in_left : {op : ℕ} {l r : ArithmeticExpr F} → OutOfRange l → OutOfRange (binary op l r)
    in_right : {op : ℕ} {l r : ArithmeticExpr F} → OutOfRange r → OutOfRange (binary op l r)

  -- The exact value, an `int64`; or overflow, for a reason; or a limit, where there is a budget.
  pub data Evaluates (z : ℤ) (Reason : Type 0) (present : Bool)
      : Outcome (QueryValue F) → Type 0 where
    value :
        {v : QueryValue F} {b : Option QueryBudget}
        → v ≡ integer z
        → in_i64 z ≡ true
        → is_present b ≡ present
        → Evaluates z Reason present (done v b)
    overflows :
        {b : Option QueryBudget} → Reason → Evaluates z Reason present (failed integer_overflow b)
    stops :
        {e : QueryError} {b : Option QueryBudget}
        → present ≡ true
        → IsLimit e
        → Evaluates z Reason present (failed e b)

  of_agrees :
      {z : ℤ} {Reason : Type 0} {present : Bool} (o : Outcome (QueryValue F))
      → (in_i64 z ≡ false → Reason)
      → ValueAgrees z present o
      → Evaluates z Reason present o
  of_agrees _ out (ValueAgrees.result e i p) = value e i p
  of_agrees _ out (ValueAgrees.overflow o) = overflows (out o)
  of_agrees _ out (ValueAgrees.limit p l) = stops p l

  -- A call, and what follows it on the value that it stands for.
  chain :
      {z w : ℤ} {Part Reason : Type 0} {present : Bool} (o : Outcome (QueryValue F))
      (next : QueryValue F → Budgeted (QueryValue F))
      → (Part → Reason)
      → Evaluates z Part present o
      → ((b : Option QueryBudget)
          → in_i64 z ≡ true
          → is_present b ≡ present
          → Evaluates w Reason present (next (integer z) b))
      → Evaluates w Reason present (then_call o next)
  chain {w} {Reason} {present} _ next out (value {b} e i p) rest =
      subst (λ v. Evaluates w Reason present (next v b)) (sym e) (rest b i p)
  chain _ next out (overflows part) rest = overflows (out part)
  chain _ next out (stops p l) rest = stops p l

  after_check :
      {w : ℤ} {Reason : Type 0} {present : Bool} (o : Outcome (Unit {0}))
      (next : Budgeted (QueryValue F))
      → Passes present o
      → ((b : Option QueryBudget) → is_present b ≡ present → Evaluates w Reason present (next b))
      → Evaluates w Reason present (then_call o (λ _. next))
  after_check _ next (passed {b} same) rest = rest b same
  after_check _ next (stopped p l) rest = stops p l

neg-in_i64 : (z : ℤ) → in_i64 z ≡ true → eq_ℤ z min_i64 ≡ false → in_i64 (neg_ℤ z) ≡ true
neg-in_i64 (pos n) h e = ground arith
neg-in_i64 (negsuc n) h e = ground arith

neg-min : (z : ℤ) → eq_ℤ z min_i64 ≡ true → in_i64 (neg_ℤ z) ≡ false
neg-min (pos n) e = cc
neg-min (negsuc n) e = ground arith

module _ {F : Type 0} (ops : FloatOps F) where
  negated :
      {Reason : Type 0} (z : ℤ) (b : Option QueryBudget)
      → in_i64 z ≡ true
      → (in_i64 (neg_ℤ z) ≡ false → Reason)
      → Evaluates (neg_ℤ z) Reason (is_present b) (eval_unary ops b'-' (int_number z) b)
  unfolding eval_unary
  negated z b h out = elim (Bool-cases (eq_ℤ z min_i64)) [
    | inl e ↦ rw e (overflows (out (neg-min z e)))
    | inr e ↦ rw e (value refl (neg-in_i64 z h e) refl)
  ]

  reserved :
      {z : ℤ} {Reason : Type 0} {present : Bool} (o : Outcome (Unit {0}))
      → in_i64 z ≡ true
      → Ensures (λ (_ : Unit {0}). Unit {0}) present o
      → Evaluates {F = F} z Reason present (then_call o (λ _. return (integer z)))
  reserved _ h (ensured _ s) = value refl h s
  reserved _ h (halted p l) = stops p l

  literal_value :
      {Reason : Type 0} (n : ℤ) (b : Option QueryBudget)
      → in_i64 n ≡ true
      → Evaluates {F = F} n Reason (is_present b) (eval_int_literal n b)
  unfolding eval_int_literal
  literal_value n b h =
      reserved (reserve_expression int_value_bytes b) h
        (reserve_expression-Ensures int_value_bytes b)

  -- An expression of `int64` literals with + - * ^, exponents from 0 on, evaluates to the integer that it
  -- stands for, an `int64`; or it reports overflow, and a part of it stands for an integer out of range;
  -- or an error of the budget ends it, where there is one.
  pub eval-Means :
      (e : ArithmeticExpr F) {z : ℤ} (b : Option QueryBudget)
      → Means e z
      → Evaluates z (OutOfRange e) (is_present b) (eval ops e b)
  unfolding eval
  eval-Means _ b (literal n h) = literal_value n b h
  eval-Means _ b (plus {e} {z} p m) = after_check (check 1 0 b) _ (check-Passes 1 0 b) (λ b' s.
      chain {z = z} (eval ops e b') _ in_operand (rw (← s) (eval-Means e b' m))
        (λ b'' i s'. rw p (value refl i s')))
  eval-Means _ b (minus {op} {e} {z} p m) =
      after_check (check 1 0 b) _ (check-Passes 1 0 b) (λ b' s.
        chain {z = z} (eval ops e b') _ in_operand (rw (← s) (eval-Means e b' m))
          (λ b'' i s'. minus_step op e z p m b'' i s'))
    where
      minus_step :
          (op : ℕ) (e : ArithmeticExpr F) (z : ℤ)
          → op ≡ b'-'
          → Means e z
          → (b' : Option QueryBudget) → in_i64 z ≡ true
          → is_present b' ≡ is_present b
          → Evaluates
              (neg_ℤ z)
              (OutOfRange (unary op e))
              (is_present b)
              (eval_unary ops op (int_number z) b')
      minus_step op e z p m b' i s =
          rw p (rw (← s) (negated z b' i (λ out. here (neg_ℤ z) (minus refl m) out)))
  eval-Means _ b (combine {op} {l} {r} {x} {y} {z} p m n) =
      after_check (check 1 0 b) _ (check-Passes 1 0 b) (λ b' s.
        chain {z = x} (eval ops l b') _ in_left (rw (← s) (eval-Means l b' m)) (λ b'' i s'.
          chain {z = y} (eval ops r b'') _ in_right (rw (← s') (eval-Means r b'' n)) (λ b3 j s''.
            rw (← s'') (
              of_agrees _ (here z (combine p m n))
                (eval_arithmetic-Agrees ops op x y z b3 i j p)))))
