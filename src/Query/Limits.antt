-- ===== src/Query/Limits.antt =====
-- internal/engine/query.go, `check`: a call under a budget returns its value, or the budget stops it.
pub mod Within
use latticedb_go.Base.{
  ℕ, ◌-◌, ◌/◌, ◌≡◌, refl, ◌∙◌, Bool, true, false, Bool-cases, inl, inr, Option, none, some, ltb,
}
use latticedb_go.Query.Budget.{
  QueryBudget, QueryError, cancelled, work_exceeded, rows_exceeded, bytes_exceeded, Outcome, failed,
  done, Budgeted, then_call, check, is_cancelled, remaining_page_read_bytes, query_row_bytes,
  charge_temporary, release_temporary, releasing, check_present, reserve_expression,
}

-- The errors of a budget's check.
abbrev pub IsLimit : QueryError → Type 0
IsLimit cancelled = Unit
IsLimit work_exceeded = Unit
IsLimit rows_exceeded = Unit
IsLimit bytes_exceeded = Unit
IsLimit e = ⊥

abbrev pub is_present : Option QueryBudget → Bool
is_present none = false
is_present (some b) = true

-- A check leaves a budget where there was one.
pub data Passes (present : Bool) : Outcome (Unit {0}) → Type 0 where
  passed : {b : Option QueryBudget} → is_present b ≡ present → Passes present (done tt b)
  stopped :
      {e : QueryError} {b : Option QueryBudget}
      → present ≡ true
      → IsLimit e
      → Passes present (failed e b)

pub check-Passes :
    (work rows : ℕ) (b : Option QueryBudget) → Passes (is_present b) (check work rows b)
unfolding check
check-Passes work rows none = passed refl
check-Passes work rows (some b) = elim (Bool-cases (is_cancelled b)) [
  | inl e ↦ rw e (stopped refl tt)
  | inr e ↦ rw e (elim (Bool-cases (ltb (b.max_work - b.work) work)) [
    | inl f ↦ rw f (stopped refl tt)
    | inr f ↦ rw f (elim (Bool-cases (ltb b.max_rows rows)) [
      | inl g ↦ rw g (stopped refl tt)
      | inr g ↦ rw g (elim (Bool-cases (ltb (remaining_page_read_bytes b / query_row_bytes) rows)) [
        | inl h ↦ rw h (stopped refl tt)
        | inr h ↦ rw h (passed refl)
      ])
    ])
  ])
]

pub check_present-Passes :
    (work rows : ℕ) (b : Option QueryBudget)
    → is_present b ≡ true
    → Passes true (check_present work rows b)
unfolding check check_present
check_present-Passes work rows none s = cc
check_present-Passes work rows (some b) s = check-Passes work rows (some b)

-- A call returns a value with a property, or a limit stops it, where there is a budget.
pub data Ensures {ℓ κ} {A : Type ℓ} (P : A → Type κ) (present : Bool)
    : Outcome A → Type (ℓ ⊔ κ) where
  ensured :
      {v : A} {b : Option QueryBudget} → P v → is_present b ≡ present → Ensures P present (done v b)
  halted :
      {e : QueryError} {b : Option QueryBudget}
      → present ≡ true
      → IsLimit e
      → Ensures P present (failed e b)

pub Ensures-then {ℓ κ} :
    {A B : Type ℓ} {P : A → Type κ} {Q : B → Type κ} {present : Bool} (o : Outcome A)
    (next : A → Budgeted B)
    → Ensures P present o
    → ((v : A) (b : Option QueryBudget)
        → P v
        → is_present b ≡ present
        → Ensures Q present (next v b))
    → Ensures Q present (then_call o next)
Ensures-then _ next (ensured {v} {b} p same) rest = rest v b p same
Ensures-then _ next (halted p l) rest = halted p l

-- A call returns this value, or a limit stops it.
abbrev pub Returns {ℓ} : {A : Type ℓ} → A → Bool → Outcome A → Type ℓ
Returns a = Ensures (λ v. v ≡ a)

-- A check, and what follows it.
pub passed_then {ℓ κ} :
    {A : Type ℓ} {P : A → Type κ} {present : Bool} (o : Outcome (Unit {0})) (next : Budgeted A)
    → Passes present o
    → ((b : Option QueryBudget) → is_present b ≡ present → Ensures P present (next b))
    → Ensures P present (then_call o (λ _. next))
passed_then _ next (passed {b} same) rest = rest b same
passed_then _ next (stopped p l) rest = halted p l

pub charge_temporary-Ensures :
    (bytes : ℕ) (b : Option QueryBudget)
    → is_present b ≡ true
    → Ensures (λ (_ : Unit {0}). Unit {0}) true (charge_temporary bytes b)
unfolding charge_temporary
charge_temporary-Ensures bytes none s = cc
charge_temporary-Ensures bytes (some b) s =
    elim (Bool-cases (ltb (remaining_page_read_bytes b) bytes)) [
      | inl e ↦ rw e (halted refl tt)
      | inr e ↦ rw e (ensured tt refl)
    ]

pub reserve_expression-Ensures :
    (bytes : ℕ) (b : Option QueryBudget)
    → Ensures (λ (_ : Unit {0}). Unit {0}) (is_present b) (reserve_expression bytes b)
unfolding reserve_expression
reserve_expression-Ensures bytes none = ensured tt refl
reserve_expression-Ensures bytes (some b) =
    passed_then (check_present 0 0 (some b)) _ (check_present-Passes 0 0 (some b) refl)
      (charge_temporary-Ensures bytes)

pub release-is_present :
    (bytes : ℕ) (b : Option QueryBudget) → is_present (release_temporary bytes b) ≡ is_present b
release-is_present bytes none = refl
release-is_present bytes (some b) = refl

pub releasing-Returns :
    {A : Type 0} {c : A} {present : Bool} (bytes : ℕ) (o : Outcome A)
    → Returns c present o
    → Returns c present (releasing bytes o)
releasing-Returns bytes _ (ensured {b} e s) = ensured e (release-is_present bytes b ∙ s)
releasing-Returns bytes _ (halted p l) = halted p l
