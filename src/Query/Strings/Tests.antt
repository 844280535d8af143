-- ===== src/Query/Strings/Tests.antt =====
-- internal/engine: runs of the text scans, and their theorems at concrete inputs.
use latticedb_go.Base.{ℕ, ◌≡◌, refl, none, some, List, [], ◌∷◌, ◌++◌, true}
use latticedb_go.Query.Budget.{QueryBudget, failed, done, work_exceeded, check}
use latticedb_go.Query.Limits.{Returns}
use latticedb_go.Query.Strings.{
  QueryStringScan, write_query_string, trim, trim_query_string, trim_scan,
}
use latticedb_go.Query.Strings.Write.{Wrote, write_query_string-Wrote}
use latticedb_go.Query.Strings.Trim.{trim_query_string-trim}

abbrev budget_of : ℕ → QueryBudget
budget_of work = record {
  ctx = none;
  polls = 0;
  max_rows = 10;
  max_work = work;
  max_bytes = 4096;
  work = 0;
  bytes = 0;
  source_bytes = 0;
}

abbrev fresh_scan : QueryStringScan
fresh_scan = record { remaining = 0 }

-- "ab", "abc" and " a b\t"
abbrev ab : List ℕ
ab = b'a' ∷ b'b' ∷ []

abbrev abc : List ℕ
abc = b'a' ∷ b'b' ∷ b'c' ∷ []

abbrev padded : List ℕ
padded = b' ' ∷ b'a' ∷ b' ' ∷ b'b' ∷ 9 ∷ []

trim_runs : trim_scan padded none ≡ done (b'a' ∷ b' ' ∷ b'b' ∷ []) none
unfolding trim_scan
trim_runs = refl

write_stops :
    write_query_string ab abc fresh_scan (some (budget_of 63))
    ≡ failed work_exceeded (some (budget_of 63))
unfolding write_query_string check
write_stops = refl

write_query_string-Wrote_example :
    Wrote
      (ab ++ abc)
      3
      fresh_scan
      (budget_of 64)
      (write_query_string ab abc fresh_scan (some (budget_of 64)))
write_query_string-Wrote_example = write_query_string-Wrote ab abc fresh_scan (budget_of 64)

trim_query_string-trim_example :
    Returns (trim padded) true (trim_query_string padded (some (budget_of 5)))
trim_query_string-trim_example = trim_query_string-trim padded (some (budget_of 5))
