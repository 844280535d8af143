-- ===== src/Levenshtein/Distance.antt =====
-- The rows hold the distances of the words' beginnings.
use latticedb_go.Base.{
  ℕ, suc, ◌+◌, ◌≡◌, refl, sym, ap, ◌∙◌, List, [], ◌∷◌, ◌==◌, arith, length, min, false,
}
use latticedb_go.Levenshtein.{
  min_int, cost, first_row, fill_row, fill_rows, value_at, levenshtein_distance,
}

-- The least number of insertions, deletions and substitutions between two words that are written
-- last rune first, by what happens to the last runes.
unfoldable pub edits : List ℕ → List ℕ → ℕ
edits [] v = length v
edits (x ∷ u) [] = suc (length u)
edits (x ∷ u) (y ∷ v) = min (min (edits u (y ∷ v) + 1) (edits (x ∷ u) v + 1)) (edits u v + cost x y)

abbrev pub reverse_onto : List ℕ → List ℕ → List ℕ
reverse_onto [] v = v
reverse_onto (x ∷ u) v = reverse_onto u (x ∷ v)

-- A row behind its first value.
abbrev row : List ℕ → List ℕ → List ℕ → List ℕ
row u v [] = []
row u v (y ∷ right) = edits u (y ∷ v) ∷ row u (y ∷ v) right

min_int-eq : (a b c : ℕ) → min_int a b c ≡ min (min a b) c
min_int-eq a b c = ground arith

first_row-row : (j : ℕ) (v right : List ℕ) → length v ≡ j → first_row j right ≡ row [] v right
unfolding first_row edits
first_row-row j v [] e = refl
first_row-row j v (y ∷ right) e =
    let next : suc (length v) ≡ j + 1 = omega arith in
    ap (λ (n : ℕ). n ∷ first_row (j + 1) right) (sym next)
    ∙ ap (λ (t : List ℕ). suc (length v) ∷ t) (first_row-row (j + 1) (y ∷ v) right next)

fill_row-row :
    (x : ℕ) (u v right : List ℕ)
    → fill_row x (edits (x ∷ u) v) (edits u v ∷ row u v right) right ≡ row (x ∷ u) v right
unfolding fill_row edits
fill_row-row x u v [] = refl
fill_row-row x u v (y ∷ right) =
    let least = min_int-eq (edits u (y ∷ v) + 1) (edits (x ∷ u) v + 1) (edits u v + cost x y) in
    ap (λ (n : ℕ). n ∷ fill_row x n (edits u (y ∷ v) ∷ row u (y ∷ v) right) right) least
    ∙ ap (λ (t : List ℕ). edits (x ∷ u) (y ∷ v) ∷ t) (fill_row-row x u (y ∷ v) right)

-- The row of a word's beginning against the other word.
abbrev full_row : List ℕ → List ℕ → List ℕ
full_row u right = length u ∷ row u [] right

edits-empty : (u : List ℕ) → edits u [] ≡ length u
unfolding edits
edits-empty [] = refl
edits-empty (x ∷ u) = refl

next_row :
    (i x : ℕ) (u right : List ℕ)
    → length u ≡ i
    → (i + 1) ∷ fill_row x (i + 1) (full_row u right) right ≡ full_row (x ∷ u) right
unfolding edits
next_row i x u right e =
    let next : i + 1 ≡ suc (length u) = omega arith in
    ap (λ (n : ℕ). n ∷ fill_row x n (full_row u right) right) next
    ∙ ap (λ (n : ℕ). suc (length u) ∷ fill_row x (suc (length u)) (n ∷ row u [] right) right)
        (sym (edits-empty u))
    ∙ ap (λ (t : List ℕ). suc (length u) ∷ t) (fill_row-row x u [] right)

fill_rows-full_row :
    (i : ℕ) (u left right : List ℕ)
    → length u ≡ i
    → fill_rows i (full_row u right) left right ≡ full_row (reverse_onto left u) right
unfolding fill_rows
fill_rows-full_row i u [] right e = refl
fill_rows-full_row i u (x ∷ left) right e =
    ap (λ (t : List ℕ). fill_rows (i + 1) t left right) (next_row i x u right e)
    ∙ fill_rows-full_row (i + 1) (x ∷ u) left right (omega arith)

value_at-row :
    (n : ℕ) (u v right : List ℕ)
    → n ≡ edits u v
    → value_at (n ∷ row u v right) (length right) ≡ edits u (reverse_onto right v)
value_at-row n u v [] e = e
value_at-row n u v (y ∷ right) e = value_at-row (edits u (y ∷ v)) u (y ∷ v) right refl

length-reverse_onto : (u v : List ℕ) → length (reverse_onto u v) ≡ length u + length v
length-reverse_onto [] v = omega arith
length-reverse_onto (x ∷ u) v = omega (arith, length-reverse_onto u (x ∷ v))

rows-edits :
    (left right : List ℕ)
    → value_at (fill_rows 0 (0 ∷ first_row 0 right) left right) (length right)
      ≡ edits (reverse_onto left []) (reverse_onto right [])
rows-edits left right =
    ap (λ (t : List ℕ). value_at (fill_rows 0 (0 ∷ t) left right) (length right))
      (first_row-row 0 [] right refl)
    ∙ ap (λ (t : List ℕ). value_at t (length right)) (fill_rows-full_row 0 [] left right refl)
    ∙ value_at-row (length (reverse_onto left [])) (reverse_onto left []) [] right
        (sym (edits-empty (reverse_onto left [])))

suc_test : (n : ℕ) → (suc n == 0) ≡ false
suc_test n = ground arith

-- The row-by-row computation returns the edit distance of every two words: the least number of
-- insertions, deletions and substitutions, defined by recursion on the words' last runes.
pub levenshtein_distance-edits :
    (left right : List ℕ)
    → levenshtein_distance left right ≡ edits (reverse_onto left []) (reverse_onto right [])
unfolding levenshtein_distance edits
levenshtein_distance-edits [] right =
    let e : length right ≡ length (reverse_onto right []) =
      omega (arith, length-reverse_onto right []) in
    e
levenshtein_distance-edits (x ∷ left) [] =
    let e : suc (length left) ≡ length (reverse_onto (x ∷ left) []) =
      omega (arith, length-reverse_onto (x ∷ left) []) in
    rw (suc_test (length left)) (e ∙ sym (edits-empty (reverse_onto (x ∷ left) [])))
levenshtein_distance-edits (x ∷ left) (y ∷ right) =
    rw (suc_test (length left), suc_test (length right)) (rows-edits (x ∷ left) (y ∷ right))
