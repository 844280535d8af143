-- ===== src/Query/Budget.antt =====
-- internal/engine/query.go and query_source.go: the limits of a query. A budget that the code holds by
-- a pointer is passed on from call to call; a context is asked for its error, and `polls` counts these
-- questions. Counters are natural numbers: `check` keeps `work`, and `charge_bytes` keeps `bytes`, below
-- the 32-bit limits that they are compared with.
use latticedb_go.Base.{ℕ, ◌+◌, ◌-◌, ◌/◌, min, Bool, false, Option, none, some, ltb, if◌then◌else◌}

-- One constructor for each error that the modelled parts of the engine create.
pub data QueryError : Type 0 where
  cancelled work_exceeded rows_exceeded bytes_exceeded : QueryError
  integer_overflow division_by_zero not_finite needs_finite needs_numbers : QueryError
  unsupported_operator rounds_exceeded : QueryError
  -- The panic of a call of `check` or `chargeBytes` on nil.
  nil_pointer : QueryError

pub record QueryBudget : Type 0 where
  -- `ctx.Err() != nil`, at the n-th question.
  pub ctx : Option (ℕ → Bool)
  pub polls : ℕ
  pub max_rows : ℕ
  pub max_work : ℕ
  pub max_bytes : ℕ
  pub work : ℕ
  pub bytes : ℕ
  pub source_bytes : ℕ

-- What a call returns, and the budget that it leaves.
pub data Outcome {ℓ} (A : Type ℓ) : Type ℓ where
  failed : QueryError → Option QueryBudget → Outcome A
  done : A → Option QueryBudget → Outcome A

-- A call that is given a budget, or nil.
abbrev pub Budgeted {ℓ} : Type ℓ → Type ℓ
Budgeted A = Option QueryBudget → Outcome A

abbrev pub then_call {ℓ κ} : {A : Type ℓ} {B : Type κ} → Outcome A → (A → Budgeted B) → Outcome B
then_call (failed e b) next = failed e b
then_call (done a b) next = next a b

-- `if err != nil { return err }` between two calls.
infixl 5 ◌>>=◌ ◌>>◌
abbrev pub ◌>>=◌ {ℓ κ} : {A : Type ℓ} {B : Type κ} → Budgeted A → (A → Budgeted B) → Budgeted B
◌>>=◌ call next b = then_call (call b) next

abbrev pub ◌>>◌ {ℓ κ} : {A : Type ℓ} {B : Type κ} → Budgeted A → Budgeted B → Budgeted B
◌>>◌ call next b = then_call (call b) (λ _. next)

abbrev pub fail {ℓ} : {A : Type ℓ} → QueryError → Budgeted A
fail e b = failed e b

abbrev pub return {ℓ} : {A : Type ℓ} → A → Budgeted A
return a b = done a b

-- `RemainingPageReadBytes`
abbrev pub remaining_page_read_bytes : QueryBudget → ℕ
remaining_page_read_bytes b = b.max_bytes - min (b.bytes + b.source_bytes) b.max_bytes

abbrev pub query_row_bytes : ℕ
query_row_bytes = 128

-- `if budget.ctx != nil { if err := budget.ctx.Err(); err != nil { return err } }`
abbrev pub asked : QueryBudget → QueryBudget
asked b = elim b.ctx [ none ↦ b | some answers ↦ record b { polls = b.polls + 1 } ]

abbrev pub is_cancelled : QueryBudget → Bool
is_cancelled b = elim b.ctx [ none ↦ false | some answers ↦ answers b.polls ]

-- `check`, on a budget that is there.
unfoldable pub check_budget : ℕ → ℕ → QueryBudget → Outcome (Unit {0})
check_budget work rows b =
    if is_cancelled b
    then failed cancelled (some (asked b))
    else if ltb (b.max_work - b.work) work
    then failed work_exceeded (some (asked b))
    else let spent = record (asked b) { work = b.work + work } in
      if ltb b.max_rows rows
      then failed rows_exceeded (some spent)
      else if ltb (remaining_page_read_bytes b / query_row_bytes) rows
      then failed bytes_exceeded (some spent)
      else done tt (some spent)

-- `if budget != nil { if err := budget.check(work, rows); err != nil { return err } }`
unfoldable pub check : ℕ → ℕ → Budgeted (Unit {0})
unfolding check_budget
check work rows none = done tt none
check work rows (some b) = check_budget work rows b

-- `if err := budget.check(work, rows); err != nil { return err }`, without a test for nil.
unfoldable pub check_present : ℕ → ℕ → Budgeted (Unit {0})
unfolding check_budget
check_present work rows none = failed nil_pointer none
check_present work rows (some b) = check_budget work rows b

-- `chargeBytes`, for both kinds.
abbrev pub charge_budget : ℕ → QueryBudget → Outcome (Unit {0})
charge_budget bytes b =
    if ltb (remaining_page_read_bytes b) bytes
    then failed bytes_exceeded (some b)
    else done tt (some (record b { bytes = b.bytes + bytes }))

-- `chargeTemporary` and `chargeResult`.
unfoldable pub charge_temporary : ℕ → Budgeted (Unit {0})
charge_temporary bytes none = failed nil_pointer none
charge_temporary bytes (some b) = charge_budget bytes b

-- `reserveExpression`
unfoldable pub reserve_expression : ℕ → Budgeted (Unit {0})
unfolding check_present charge_temporary
reserve_expression bytes none = done tt none
reserve_expression bytes (some b) = (check_present 0 0 >> charge_temporary bytes) (some b)

-- `releaseTemporary`, which follows a charge, so that the budget is not nil.
abbrev pub release_temporary : ℕ → Option QueryBudget → Option QueryBudget
release_temporary bytes none = none
release_temporary bytes (some b) = some (record b { bytes = b.bytes - min bytes b.bytes })

-- `defer budget.releaseTemporary(bytes)`
abbrev pub releasing {ℓ} : {A : Type ℓ} → ℕ → Outcome A → Outcome A
releasing bytes (failed e b) = failed e (release_temporary bytes b)
releasing bytes (done a b) = done a (release_temporary bytes b)
