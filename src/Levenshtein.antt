-- ===== src/Levenshtein.antt =====
-- internal/search/search.go, `levenshteinDistance`: the edit distance of two words, row by row. A word
-- is a list of runes; the conversion from a string is Go's.
pub mod Distance
mod Tests
use latticedb_go.Base.{
  ℕ, zero, suc, ◌+◌, List, [], ◌∷◌, Option, none, some, ltb, ◌==◌, if◌then◌else◌, length, get_elem?,
}

-- `minInt` of three values.
abbrev pub min_int : ℕ → ℕ → ℕ → ℕ
min_int a b c = let best = if ltb b a then b else a in if ltb c best then c else best

abbrev pub cost : ℕ → ℕ → ℕ
cost left_rune right_rune = if left_rune == right_rune then 0 else 1

-- `prev[j] = j`, from an index on.
unfoldable pub first_row : ℕ → List ℕ → List ℕ
first_row j [] = []
first_row j (y ∷ ys) = (j + 1) ∷ first_row (j + 1) ys

-- `curr[1:]`: `curr` is the value to the left, `prev` the row above from the same column on.
unfoldable pub fill_row : ℕ → ℕ → List ℕ → List ℕ → List ℕ
fill_row x curr prev [] = []
fill_row x curr [] (y ∷ ys) = []
fill_row x curr (p ∷ []) (y ∷ ys) = []
fill_row x curr (p ∷ (q ∷ prev)) (y ∷ ys) =
    let value = min_int (q + 1) (curr + 1) (p + cost x y) in value ∷ fill_row x value (q ∷ prev) ys

-- `for i, leftRune := range leftRunes`
unfoldable pub fill_rows : ℕ → List ℕ → List ℕ → List ℕ → List ℕ
fill_rows i prev [] right = prev
fill_rows i prev (x ∷ left) right =
    fill_rows (i + 1) ((i + 1) ∷ fill_row x (i + 1) prev right) left right

abbrev pub value_at : List ℕ → ℕ → ℕ
value_at row j = elim (get_elem? row j) [ none ↦ 0 | some value ↦ value ]

unfoldable pub levenshtein_distance : List ℕ → List ℕ → ℕ
levenshtein_distance left right =
    if length left == 0
    then length right
    else if length right == 0
    then length left
    else value_at (fill_rows 0 (0 ∷ first_row 0 right) left right) (length right)
