-- ===== src/Query/Strings/Write.antt =====
-- internal/engine/query_string_budget.go: what `writeQueryString` writes, and the work that it is charged.
use latticedb_go.Base.{
  ℕ, zero, suc, ◌+◌, ◌-◌, ◌*◌, ◌/◌, ◌≤◌, ◌≡◌, refl, sym, ap, ◌∙◌, Option, some, List, [], ◌∷◌, ◌++◌,
  Bool-cases, inl, inr, ltb, ◌==◌, length, length-drop, take, drop, arith, le→ltb, ==_iff,
  append_assoc, append-nil,
}
use latticedb_go.Query.Budget.{
  QueryBudget, QueryError, Outcome, failed, done, return, check, then_call, is_cancelled,
  query_row_bytes, remaining_page_read_bytes,
}
use latticedb_go.Query.Limits.{IsLimit}
use latticedb_go.Query.Strings.{
  query_order_comparison_chunk, QueryStringScan, scan_step, scan_spent, piece_length, write_pieces,
  write_query_string,
}

-- A check that passes is charged, and leaves the budget there.
data Charged (work : ℕ) (b : QueryBudget) : Outcome (Unit {0}) → Type 0 where
  charged : {b' : QueryBudget} → b'.work ≡ b.work + work → Charged work b (done tt (some b'))
  refused : {e : QueryError} {b' : Option QueryBudget} → IsLimit e → Charged work b (failed e b')

check-Charged : (work : ℕ) (b : QueryBudget) → Charged work b (check work 0 (some b))
unfolding check
check-Charged work b = elim (Bool-cases (is_cancelled b)) [
  | inl e ↦ rw e (refused tt)
  | inr e ↦ rw e (elim (Bool-cases (ltb (b.max_work - b.work) work)) [
    | inl f ↦ rw f (refused tt)
    | inr f ↦
        rw
          (
            f,
            le→ltb b.max_rows 0 (omega arith),
            le→ltb (remaining_page_read_bytes b / query_row_bytes) 0 (omega arith),
          )
          (charged refl)
  ])
]

-- Bytes that are scanned: each charge of 64 pays for 4096.
pub record Pays (scanned before after : ℕ) (b b' : QueryBudget) : Type 0 where
  pub charges : ℕ
  pub worked : b'.work ≡ b.work + 64 * charges
  pub paid : 4096 * charges + before ≡ scanned + after

data Stepped (scan : QueryStringScan) (b : QueryBudget) : Outcome QueryStringScan → Type 0 where
  stepped :
      {scan' : QueryStringScan} {b' : QueryBudget}
      → Pays 1 scan.remaining scan'.remaining b b'
      → Stepped scan b (done scan' (some b'))
  halted : {e : QueryError} {b' : Option QueryBudget} → IsLimit e → Stepped scan b (failed e b')

refilled :
    (scan : QueryStringScan) (b : QueryBudget) (o : Outcome (Unit {0}))
    → scan.remaining ≡ 0
    → Charged 64 b o
    → Stepped scan b (
        then_call o
          (λ _. return (scan_spent (record { remaining = query_order_comparison_chunk }))))
refilled scan b _ e (charged w) =
    stepped (record { charges = 1; worked = omega arith; paid = omega arith })
refilled scan b _ e (refused l) = halted l

scan_step-Stepped :
    (scan : QueryStringScan) (b : QueryBudget) → Stepped scan b (scan_step scan (some b))
unfolding scan_step
scan_step-Stepped scan b = elim (Bool-cases (scan.remaining == 0)) [
  | inl e ↦
      rw e
        (refilled scan b (check 64 0 (some b)) ((==_iff scan.remaining 0).0 e) (check-Charged 64 b))
  | inr e ↦ rw e (stepped (record { charges = 0; worked = omega arith; paid = ground arith }))
]

-- The text is written whole, and paid for; or a limit stops the writing.
pub data Wrote (written : List ℕ) (scanned : ℕ) (scan : QueryStringScan) (b : QueryBudget)
    : Outcome (List ℕ × QueryStringScan) → Type 0 where
  wrote :
      {out : List ℕ} {scan' : QueryStringScan} {b' : QueryBudget}
      → out ≡ written
      → Pays scanned scan.remaining scan'.remaining b b'
      → Wrote written scanned scan b (done (out, scan') (some b'))
  stopped :
      {e : QueryError} {b' : Option QueryBudget}
      → IsLimit e
      → Wrote written scanned scan b (failed e b')

pay_nothing : (r : ℕ) (b : QueryBudget) → Pays 0 r r b b
pay_nothing r b = record { charges = 0; worked = omega arith; paid = omega arith }

take-++-drop : (n : ℕ) (l : List ℕ) → take n l ++ drop n l ≡ l
take-++-drop zero l = refl
take-++-drop (suc n) [] = refl
take-++-drop (suc n) (x ∷ l) = ap (λ t. x ∷ t) (take-++-drop n l)

-- A step pays for the bytes of a piece, and the rest of the text follows.
piece_then :
    (out text : List ℕ) (n : ℕ) (scan scan' : QueryStringScan) (b b' : QueryBudget)
    (o : Outcome (List ℕ × QueryStringScan))
    → 1 ≤ n
    → n ≤ length text
    → n ≤ scan'.remaining + 1
    → Pays 1 scan.remaining scan'.remaining b b'
    → Wrote
        ((out ++ take n text) ++ drop n text)
        (length (drop n text))
        (record { remaining = scan'.remaining - (n - 1) })
        b'
        o
    → Wrote (out ++ text) (length text) scan b o
piece_then out text n scan scan' b b' _ h k l p (wrote e q) =
    wrote
      (e ∙ append_assoc out (take n text) (drop n text) ∙ ap (λ t. out ++ t) (take-++-drop n text))
      (record {
        charges = p.charges + q.charges;
        worked = omega (arith, p.worked, q.worked);
        paid = omega (arith, p.paid, q.paid, length-drop n text);
      })
piece_then out text n scan scan' b b' _ h k l p (stopped e) = stopped e

module _ (fuel : ℕ) (out : List ℕ) (c : ℕ) (text : List ℕ)
    (rest : (out text : List ℕ) (scan : QueryStringScan) (b : QueryBudget)
      → length text ≤ fuel
      → Wrote (out ++ text) (length text) scan b (write_pieces fuel out text scan (some b)))
    (h : length (c ∷ text) ≤ suc fuel) where
  after_step :
      (scan : QueryStringScan) (b : QueryBudget) (o : Outcome QueryStringScan)
      → Stepped scan b o
      → Wrote (out ++ c ∷ text) (length (c ∷ text)) scan b (
          then_call o (λ scan.
            write_pieces fuel
              (out ++ take (piece_length (c ∷ text) scan) (c ∷ text))
              (drop (piece_length (c ∷ text) scan) (c ∷ text))
              (record { remaining = scan.remaining - (piece_length (c ∷ text) scan - 1) })))
  after_step scan b _ (stepped {scan'} {b'} p) =
      piece_then out (c ∷ text) (piece_length (c ∷ text) scan') scan scan' b b' _ (omega arith)
        (omega arith) (omega arith) p
        (rest _ _ _ b' (omega (arith, length-drop (piece_length (c ∷ text) scan') (c ∷ text))))
  after_step scan b _ (halted l) = stopped l

write_pieces-Wrote :
    (fuel : ℕ) (out text : List ℕ) (scan : QueryStringScan) (b : QueryBudget)
    → length text ≤ fuel
    → Wrote (out ++ text) (length text) scan b (write_pieces fuel out text scan (some b))
unfolding write_pieces
write_pieces-Wrote zero out [] scan b h =
    wrote (sym (append-nil out)) (pay_nothing scan.remaining b)
write_pieces-Wrote (suc fuel) out [] scan b h =
    wrote (sym (append-nil out)) (pay_nothing scan.remaining b)
write_pieces-Wrote zero out (c ∷ text) scan b h = absurd (omega arith)
write_pieces-Wrote (suc fuel) out (c ∷ text) scan b h =
    after_step fuel out c text (write_pieces-Wrote fuel) h scan b (scan_step scan (some b))
      (scan_step-Stepped scan b)

-- Under a budget the whole text is appended to what was written, for 64 units of work at every 4096 bytes,
-- the bytes that an earlier charge has paid for first; or a limit of the budget stops the writing.
pub write_query_string-Wrote :
    (out text : List ℕ) (scan : QueryStringScan) (b : QueryBudget)
    → Wrote (out ++ text) (length text) scan b (write_query_string out text scan (some b))
unfolding write_query_string
write_query_string-Wrote out text scan b =
    write_pieces-Wrote (length text) out text scan b (omega arith)
