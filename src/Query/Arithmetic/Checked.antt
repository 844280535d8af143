-- ===== src/Query/Arithmetic/Checked.antt =====
-- internal/engine/query_arithmetic.go: the checked operations on `int64` against integers.
use latticedb_go.Base.{
  ℕ, zero, suc, ◌+◌, ◌-◌, ◌*◌, ◌/◌, ◌%◌, ◌^◌, ◌≤◌, ◌<◌, ◌≡◌, true, if◌then◌else◌, arith, Bool-cases,
  inl, inr, ltb→lt, Option, ◌==◌, ==_iff, ==_self, ap,
}
use native.Mathlib.Nat.{mul-div_cancel_left, mul-div-le}
use latticedb_go.Base.Int.{ℤ, pos, negsuc}
use latticedb_go.Base.Signed.{in_i64, ◌+ℤ◌, ◌-ℤ◌, ◌*ℤ◌}
use latticedb_go.Query.Budget.{QueryBudget, integer_overflow, fail, return, Budgeted}
use latticedb_go.Query.Arithmetic.{
  checked_integer_product, checked_integer_sum, checked_integer_difference,
}

-- The exact result where it is an `int64`, and the overflow error where it is none.
abbrev pub exact : ℤ → Budgeted ℤ
exact z = if in_i64 z then return z else fail integer_overflow

pub checked_integer_sum-exact :
    (left right : ℤ) (b : Option QueryBudget)
    → in_i64 left ≡ true
    → in_i64 right ≡ true
    → checked_integer_sum left right b ≡ exact (left +ℤ right) b
unfolding checked_integer_sum
checked_integer_sum-exact (pos l) (pos r) b h k = ground arith
checked_integer_sum-exact (pos l) (negsuc r) b h k = ground arith
checked_integer_sum-exact (negsuc l) (pos r) b h k = ground arith
checked_integer_sum-exact (negsuc l) (negsuc r) b h k = ground arith

pub checked_integer_difference-exact :
    (left right : ℤ) (b : Option QueryBudget)
    → in_i64 left ≡ true
    → in_i64 right ≡ true
    → checked_integer_difference left right b ≡ exact (left -ℤ right) b
unfolding checked_integer_difference
checked_integer_difference-exact (pos l) (pos r) b h k = ground arith
checked_integer_difference-exact (pos l) (negsuc r) b h k = ground arith
checked_integer_difference-exact (negsuc l) (pos r) b h k = ground arith
checked_integer_difference-exact (negsuc l) (negsuc r) b h k = ground arith

-- Division undoes a product that wrapping has not changed, and no other.
div-wrapped : (a b v : ℕ) → 1 ≤ a → v ≤ a * b → ((v / a) == b) ≡ (v == a * b)
div-wrapped a b v h l = elim (Bool-cases (v == a * b)) [
  | inl same ↦
      rw ((==_iff v (a * b)).0 same, mul-div_cancel_left b h) (rw (==_self b, ==_self (a * b)))
  | inr other ↦ rw other (elim (Bool-cases ((v / a) == b)) [
    | inl e ↦
        let e' : v / a ≡ b = (==_iff _ _).0 e in
        cc (
          other,
          let m : v ≡ a * b = omega (arith, l, ap (λ (t : ℕ). a * t) e', mul-div-le v a) in
              (==_iff v (a * b)).1 m,
        )
    | inr e ↦ e
  ])
]

product-positive : (a b : ℕ) → 1 ≤ suc a * (b + 1)
product-positive a b = grind arith

product_pos_pos :
    (a b : ℕ) (budget : Option QueryBudget)
    → a < 2 ^ 63
    → b < 2 ^ 63
    → checked_integer_product (pos a) (pos b) budget ≡ exact (pos a *ℤ pos b) budget
unfolding checked_integer_product
product_pos_pos zero b budget h k = ground arith
product_pos_pos (suc a) b budget h k = ground (arith, div-wrapped (suc a) b (suc a * b % 2 ^ 64))

product_pos_neg :
    (a b : ℕ) (budget : Option QueryBudget)
    → a < 2 ^ 63
    → b < 2 ^ 63
    → checked_integer_product (pos a) (negsuc b) budget ≡ exact (pos a *ℤ negsuc b) budget
unfolding checked_integer_product
product_pos_neg zero b budget h k = ground arith
product_pos_neg (suc a) b budget h k =
    ground (
      arith,
      product-positive a b,
      div-wrapped (suc a) (b + 1) ((suc a * (b + 1) - 1) % 2 ^ 64 + 1),
    )

product_neg_pos :
    (a b : ℕ) (budget : Option QueryBudget)
    → a < 2 ^ 63
    → b < 2 ^ 63
    → checked_integer_product (negsuc a) (pos b) budget ≡ exact (negsuc a *ℤ pos b) budget
unfolding checked_integer_product
product_neg_pos a zero budget h k = ground arith
product_neg_pos a (suc b) budget h k =
    ground (
      arith,
      product-positive b a,
      div-wrapped (a + 1) (suc b) (((a + 1) * suc b - 1) % 2 ^ 64 + 1),
    )

product_neg_neg :
    (a b : ℕ) (budget : Option QueryBudget)
    → a < 2 ^ 63
    → b < 2 ^ 63
    → checked_integer_product (negsuc a) (negsuc b) budget ≡ exact (negsuc a *ℤ negsuc b) budget
unfolding checked_integer_product
product_neg_neg a b budget h k =
    ground (arith, product-positive a b, div-wrapped (a + 1) (b + 1) ((a + 1) * (b + 1) % 2 ^ 64))

pub checked_integer_product-exact :
    (left right : ℤ) (b : Option QueryBudget)
    → in_i64 left ≡ true
    → in_i64 right ≡ true
    → checked_integer_product left right b ≡ exact (left *ℤ right) b
checked_integer_product-exact (pos l) (pos r) b h k =
    product_pos_pos l r b (ltb→lt _ _ h) (ltb→lt _ _ k)
checked_integer_product-exact (pos l) (negsuc r) b h k =
    product_pos_neg l r b (ltb→lt _ _ h) (ltb→lt _ _ k)
checked_integer_product-exact (negsuc l) (pos r) b h k =
    product_neg_pos l r b (ltb→lt _ _ h) (ltb→lt _ _ k)
checked_integer_product-exact (negsuc l) (negsuc r) b h k =
    product_neg_neg l r b (ltb→lt _ _ h) (ltb→lt _ _ k)
