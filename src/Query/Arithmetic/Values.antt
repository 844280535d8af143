-- ===== src/Query/Arithmetic/Values.antt =====
-- internal/engine/query_arithmetic.go, `evalArithmetic` on two integers.
use latticedb_go.Base.{
  ℕ, ◌≡◌, refl, ap, sym, subst, Bool, true, false, if◌then◌else◌, Bool-cases, inl, inr, Option,
  none, some, ◌==◌, ltb, ==_iff, ltb→lt, arith,
}
use latticedb_go.Base.Int.{ℤ, pos, negsuc}
use latticedb_go.Base.Signed.{in_i64, ◌+ℤ◌, ◌-ℤ◌, ◌*ℤ◌, pow_ℤ, one-*ℤ}
use latticedb_go.Query.Budget.{
  QueryBudget, QueryError, integer_overflow, Outcome, failed, done, then_call, return,
}
use latticedb_go.Query.Arithmetic.{
  FloatOps, QueryValue, integer, eval_arithmetic, power_rounds, checked_integer_product,
  checked_integer_sum, checked_integer_difference,
}
use latticedb_go.Query.Arithmetic.Checked.{
  exact, checked_integer_product-exact, checked_integer_sum-exact, checked_integer_difference-exact,
}
use latticedb_go.Query.Limits.{IsLimit, is_present}
use latticedb_go.Query.Arithmetic.Power.{Agrees, power_rounds-Sound}

some-injective : {a b : ℤ} → some a ≡ some b → a ≡ b
some-injective e = cc

-- The integer that an operator stands for; `^` has one for exponents from 0 on.
abbrev pub integer_meaning : ℕ → ℤ → ℤ → Option ℤ
integer_meaning op left right =
    if op == b'+'
    then some (left +ℤ right)
    else if op == b'-'
    then some (left -ℤ right)
    else if op == b'*'
    then some (left *ℤ right)
    else if op == b'^'
    then elim right [ pos n ↦ some (pow_ℤ left n) | negsuc n ↦ none ]
    else none

module _ {F : Type 0} where
  -- As `Agrees`, for a value of a query.
  pub data ValueAgrees (z : ℤ) (present : Bool) : Outcome (QueryValue F) → Type 0 where
    result :
        {v : QueryValue F} {b : Option QueryBudget}
        → v ≡ integer z
        → in_i64 z ≡ true
        → is_present b ≡ present
        → ValueAgrees z present (done v b)
    overflow :
        {b : Option QueryBudget}
        → in_i64 z ≡ false
        → ValueAgrees z present (failed integer_overflow b)
    limit :
        {e : QueryError} {b : Option QueryBudget}
        → present ≡ true
        → IsLimit e
        → ValueAgrees z present (failed e b)

  wrapped :
      {z : ℤ} {present : Bool} (o : Outcome ℤ)
      → Agrees z present o
      → ValueAgrees z present (then_call o (λ n. return (integer n)))
  wrapped _ (Agrees.result e i p) = result (ap integer e) i p
  wrapped _ (Agrees.overflow o) = overflow o
  wrapped _ (Agrees.limit p l) = limit p l

exact-Agrees : (z : ℤ) (b : Option QueryBudget) → Agrees z (is_present b) (exact z b)
exact-Agrees z b = elim (Bool-cases (in_i64 z)) [
  | inl e ↦ rw e (Agrees.result refl e refl)
  | inr e ↦ rw e (Agrees.overflow e)
]

not-negative : (n : ℕ) → ltb n 0 ≡ false
not-negative n = ground arith

-- The loop ends within its rounds: with the power where it is an `int64`, with overflow where it is
-- none, or with an error of the budget, where there is one.
pub power-Agrees :
    (base : ℤ) (n : ℕ) (b : Option QueryBudget)
    → in_i64 base ≡ true
    → in_i64 (pos n) ≡ true
    → Agrees (pow_ℤ base n) (is_present b) (power_rounds 64 (pos 1) base n b)
power-Agrees base n b h k =
    rw (one-*ℤ (pow_ℤ base n)) at
      (power_rounds-Sound 63 (pos 1) base n b refl h (λ _ e. cc) (ltb→lt _ _ k))

Correct-exact :
    {F : Type 0} (b : Option QueryBudget) (meaning z : ℤ) (o : Outcome ℤ)
    → o ≡ exact meaning b
    → some meaning ≡ some z
    → ValueAgrees {F = F} z (is_present b) (then_call o (λ n. return (integer n)))
Correct-exact b meaning z o e same = wrapped o (rw (e, some-injective same) (exact-Agrees z b))

module _ {F : Type 0} (ops : FloatOps F) (left right : ℤ) (b : Option QueryBudget) where
  -- What the theorem says of one operator.
  abbrev Correct : ℕ → Type 0
  Correct op =
      (z : ℤ)
      → integer_meaning op left right ≡ some z
      → ValueAgrees z (is_present b) (eval_arithmetic ops op (integer left) (integer right) b)

module _ {F : Type 0} (ops : FloatOps F) (left right : ℤ) (b : Option QueryBudget)
    (h : in_i64 left ≡ true) (k : in_i64 right ≡ true) where
  Correct-sum : Correct ops left right b b'+'
  unfolding eval_arithmetic
  Correct-sum z e =
      Correct-exact b (left +ℤ right) z (checked_integer_sum left right b)
        (checked_integer_sum-exact left right b h k) e

  Correct-difference : Correct ops left right b b'-'
  unfolding eval_arithmetic
  Correct-difference z e =
      Correct-exact b (left -ℤ right) z (checked_integer_difference left right b)
        (checked_integer_difference-exact left right b h k) e

  Correct-product : Correct ops left right b b'*'
  unfolding eval_arithmetic
  Correct-product z e =
      Correct-exact b (left *ℤ right) z (checked_integer_product left right b)
        (checked_integer_product-exact left right b h k) e

module _ {F : Type 0} (ops : FloatOps F) where
  Correct-power :
      (left right : ℤ) (b : Option QueryBudget)
      → in_i64 left ≡ true
      → in_i64 right ≡ true
      → Correct ops left right b b'^'
  unfolding eval_arithmetic
  Correct-power left (pos n) b h k z e =
      rw (← some-injective e, not-negative n)
        (wrapped (power_rounds 64 (pos 1) left n b) (power-Agrees left n b h k))
  Correct-power left (negsuc n) b h k z e = cc

  -- Of two integers in range the sum, difference, product, or power to an exponent from 0 on is exact: the
  -- result where it is an `int64`, the overflow error where it is none; a budget, where there is one,
  -- may stop the power.
  pub eval_arithmetic-Agrees :
      (op : ℕ) (left right z : ℤ) (b : Option QueryBudget)
      → in_i64 left ≡ true
      → in_i64 right ≡ true
      → integer_meaning op left right ≡ some z
      → ValueAgrees z (is_present b) (eval_arithmetic ops op (integer left) (integer right) b)
  eval_arithmetic-Agrees op left right z b h k e = elim (Bool-cases (op == b'+')) [
    | inl p ↦ at_op b'+' p (Correct-sum ops left right b h k)
    | inr p ↦ elim (Bool-cases (op == b'-')) [
      | inl q ↦ at_op b'-' q (Correct-difference ops left right b h k)
      | inr q ↦ elim (Bool-cases (op == b'*')) [
        | inl r ↦ at_op b'*' r (Correct-product ops left right b h k)
        | inr r ↦ elim (Bool-cases (op == b'^')) [
          | inl s ↦ at_op b'^' s (Correct-power left right b h k)
          | inr s ↦ cc (rw (p, q, r, s) at e)
        ]
      ]
    ]
  ]
    where
      at_op :
          (literal : ℕ)
          → (op == literal) ≡ true
          → Correct ops left right b literal
          → ValueAgrees z (is_present b) (eval_arithmetic ops op (integer left) (integer right) b)
      at_op literal p correct =
          subst (Correct ops left right b) (sym ((==_iff op literal).0 p)) correct z e
