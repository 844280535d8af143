-- ===== src/Query/Limits/Within.antt =====
-- internal/engine/query.go: the counters of a query's budget stay below its limits.
use latticedb_go.Base.{
  ℕ, ◌+◌, ◌-◌, ◌/◌, ◌≤◌, ◌<◌, ◌^◌, ◌≡◌, refl, false, Bool-cases, inl, inr, Option, none, some, ltb,
  ltb→le, arith,
}
use latticedb_go.Query.Budget.{
  QueryBudget, Outcome, failed, done, check, charge_temporary, release_temporary, is_cancelled,
  remaining_page_read_bytes, query_row_bytes, asked,
}

-- The counters of a budget whose limits are 32-bit numbers: none of them wraps around.
pub record IsWithin (b : QueryBudget) : Type 0 where
  pub work_below : b.work ≤ b.max_work
  pub bytes_below : b.bytes + b.source_bytes ≤ b.max_bytes
  pub work_limit : b.max_work < 2 ^ 32
  pub bytes_limit : b.max_bytes < 2 ^ 32

-- The budget that a call leaves, whether it fails or not, is within its limits, and these are the same.
pub record Within (b b' : QueryBudget) : Type 0 where
  pub within : IsWithin b'
  pub same_rows : b'.max_rows ≡ b.max_rows
  pub same_work : b'.max_work ≡ b.max_work
  pub same_bytes : b'.max_bytes ≡ b.max_bytes

abbrev pub Leaves : QueryBudget → Option QueryBudget → Type 0
Leaves b none = ⊥
Leaves b (some b') = Within b b'

abbrev pub Keeps {ℓ} : {A : Type ℓ} → QueryBudget → Outcome A → Type 0
Keeps b (failed e b') = Leaves b b'
Keeps b (done a b') = Leaves b b'

asked-Within : (b : QueryBudget) → IsWithin b → Within b (asked b)
asked-Within b w = ground arith

spent-Within :
    (work : ℕ) (b : QueryBudget)
    → IsWithin b
    → ltb (b.max_work - b.work) work ≡ false
    → Within b (record (asked b) { work = b.work + work })
spent-Within work b w h = ground arith

check-Keeps : (work rows : ℕ) (b : QueryBudget) → IsWithin b → Keeps b (check work rows (some b))
unfolding check
check-Keeps work rows b w = elim (Bool-cases (is_cancelled b)) [
  | inl e ↦ rw e (asked-Within b w)
  | inr e ↦ rw e (elim (Bool-cases (ltb (b.max_work - b.work) work)) [
    | inl f ↦ rw f (asked-Within b w)
    | inr f ↦ rw f (elim (Bool-cases (ltb b.max_rows rows)) [
      | inl g ↦ rw g (spent-Within work b w f)
      | inr g ↦ rw g (elim (Bool-cases (ltb (remaining_page_read_bytes b / query_row_bytes) rows)) [
        | inl h ↦ rw h (spent-Within work b w f)
        | inr h ↦ rw h (spent-Within work b w f)
      ])
    ])
  ])
]

charge-Keeps :
    (bytes : ℕ) (b : QueryBudget) → IsWithin b → Keeps b (charge_temporary bytes (some b))
unfolding charge_temporary
charge-Keeps bytes b w = elim (Bool-cases (ltb (remaining_page_read_bytes b) bytes)) [
  | inl e ↦ rw e (record { within = w; same_rows = refl; same_work = refl; same_bytes = refl })
  | inr e ↦ rw e (charged e)
]
  where
    charged :
        ltb (remaining_page_read_bytes b) bytes ≡ false
        → Within b (record b { bytes = b.bytes + bytes })
    charged e =
        omega (arith, ltb→le _ _ e, w.bytes_below, w.work_below, w.work_limit, w.bytes_limit)

-- A check, a charge of bytes, and a release, whether they succeed or not, leave the counters within the
-- limits of the budget, which they leave alone.
pub budget-Keeps :
    (b : QueryBudget) (amount rows : ℕ)
    → IsWithin b
    → Keeps b (check amount rows (some b))
      × Keeps b (charge_temporary amount (some b))
      × Leaves b (release_temporary amount (some b))
budget-Keeps b amount rows w = (check-Keeps amount rows b w, charge-Keeps amount b w, ground arith)
