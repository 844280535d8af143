-- ===== src/Query/Strings.antt =====
-- internal/engine/query_string_budget.go: scans of texts under a budget. A text
-- is a list of bytes.
mod Tests
pub mod Trim
pub mod Write
use latticedb_go.Base.{
  ℕ, zero, suc, ◌+◌, ◌-◌, ◌/◌, Bool, true, false, not, ◌&&◌, ◌||◌, Option, none, some, List, [],
  ◌∷◌, ◌++◌, min, reverse, ltb, leb, ◌==◌, if◌then◌else◌, length, take, drop, get_elem?,
}
use latticedb_go.Base.Int.{ℤ, pos, negsuc}
use latticedb_go.Query.Budget.{
  QueryBudget, rounds_exceeded, Outcome, done, Budgeted, ◌>>=◌, ◌>>◌, fail, return, check,
}

abbrev pub query_order_comparison_chunk : ℕ
query_order_comparison_chunk = 4096

-- `text[start:end]`
abbrev pub slice : {A : Type 0} → ℕ → ℕ → List A → List A
slice start end text = take (end - start) (drop start text)

-- `queryStringScan`; its budget is the one that the calls pass on.
pub record QueryStringScan : Type 0 where
  pub remaining : ℕ

abbrev pub scan_spent : QueryStringScan → QueryStringScan
scan_spent scan = record { remaining = scan.remaining - 1 }

-- `step`
unfoldable pub scan_step : QueryStringScan → Budgeted QueryStringScan
scan_step scan none = done scan none
scan_step scan (some b) =
    if scan.remaining == 0
    then (check (query_order_comparison_chunk / 64) 0
          >> return (scan_spent (record { remaining = query_order_comparison_chunk })))
        (some b)
    else done (scan_spent scan) (some b)

-- `n := min(len(text), scan.remaining+1)`
abbrev pub piece_length : List ℕ → QueryStringScan → ℕ
piece_length text scan = min (length text) (scan.remaining + 1)

-- `for len(text) != 0`, on fuel: a round takes a byte at least.
unfoldable pub write_pieces :
    ℕ → List ℕ → List ℕ → QueryStringScan → Budgeted (List ℕ × QueryStringScan)
unfolding scan_step
write_pieces fuel out [] scan = return (out, scan)
write_pieces zero out (c ∷ text) scan = fail rounds_exceeded
write_pieces (suc fuel) out (c ∷ text) scan = do
  scan ← scan_step scan
  let n = piece_length (c ∷ text) scan
  write_pieces fuel (out ++ take n (c ∷ text)) (drop n (c ∷ text))
      (record { remaining = scan.remaining - (n - 1) })

-- `writeQueryString`: the text that the builder holds, and the scan.
unfoldable pub write_query_string :
    List ℕ → List ℕ → QueryStringScan → Budgeted (List ℕ × QueryStringScan)
unfolding write_pieces
write_query_string out text scan none = done (out ++ text, scan) none
write_query_string out text scan (some b) = write_pieces (length text) out text scan (some b)

-- `isSpace`
abbrev pub is_space : ℕ → Bool
is_space c = c == b' ' || c == 9 || c == 10 || c == 13

-- `strings.Trim` with these four bytes.
unfoldable pub trim_left : List ℕ → List ℕ
trim_left [] = []
trim_left (c ∷ text) = if is_space c then trim_left text else c ∷ text

abbrev pub trim_right : List ℕ → List ℕ
trim_right text = reverse (trim_left (reverse text))

abbrev pub trim : List ℕ → List ℕ
trim text = trim_right (trim_left text)

-- `text[index]`, which the loops call in range only.
abbrev pub byte_at : List ℕ → ℕ → ℕ
byte_at text index = elim (get_elem? text index) [ none ↦ 0 | some c ↦ c ]

-- `for start < end`, on fuel.
unfoldable pub trim_front : ℕ → ℕ → ℕ → List ℕ → QueryStringScan → Budgeted (ℕ × QueryStringScan)
unfolding scan_step
trim_front zero start end text scan = fail rounds_exceeded
trim_front (suc fuel) start end text scan =
    let rest = λ (scan : QueryStringScan). trim_front fuel (start + 1) end text scan in
    if ltb start end
    then (scan_step scan >>= λ scan.
        if is_space (byte_at text start) then rest scan else return (start, scan))
    else return (start, scan)

-- `for end > start`, on fuel.
unfoldable pub trim_back : ℕ → ℕ → ℕ → List ℕ → QueryStringScan → Budgeted ℕ
unfolding scan_step
trim_back zero start end text scan = fail rounds_exceeded
trim_back (suc fuel) start end text scan =
    let rest = λ (scan : QueryStringScan). trim_back fuel start (end - 1) text scan in
    if ltb start end
    then (scan_step scan >>= λ scan.
        if is_space (byte_at text (end - 1)) then rest scan else return end)
    else return end

unfoldable pub trim_scan : List ℕ → Budgeted (List ℕ)
unfolding trim_front trim_back
trim_scan text = do
  (start, scan) ← trim_front (length text + 1) 0 (length text) text (record { remaining = 0 })
  end ← trim_back (length text + 1) start (length text) text scan
  return (slice start end text)

-- `trimQueryString`
unfoldable pub trim_query_string : List ℕ → Budgeted (List ℕ)
unfolding trim_left trim_scan
trim_query_string text none = done (trim text) none
trim_query_string text (some b) =
    if leb (length text) query_order_comparison_chunk
    then (check ((length text + 63) / 64) 0 >> return (trim text)) (some b)
    else trim_scan text (some b)
