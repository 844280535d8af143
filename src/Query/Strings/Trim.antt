-- ===== src/Query/Strings/Trim.antt =====
-- internal/engine/query_string_budget.go: the scan of `trimQueryString` against `strings.Trim`.
use latticedb_go.Base.{
  ℕ, zero, suc, ◌+◌, ◌-◌, ◌/◌, ◌≤◌, ◌<◌, ◌≡◌, refl, ap, ◌∙◌, Option, none, some, List, [], ◌∷◌,
  ◌++◌, Bool-cases, inl, inr, ltb, leb, ◌==◌, if◌then◌else◌, length, length-drop, take, drop, arith,
  ltb→lt, ltb→le, reverse,
}
use mathlib.Core.List.{reverse-append, reverse-cons, reverse-reverse}
use latticedb_go.Query.Budget.{QueryBudget, check}
use latticedb_go.Query.Limits.{
  is_present, check-Passes, Ensures, Returns, ensured, Ensures-then, passed_then,
}
use latticedb_go.Query.Strings.{
  query_order_comparison_chunk, QueryStringScan, scan_step, is_space, trim_left, trim_right, trim,
  byte_at, slice, trim_front, trim_back, trim_scan, trim_query_string,
}

scan_step-Ensures :
    (scan : QueryStringScan) (b : Option QueryBudget)
    → Ensures (λ (_ : QueryStringScan). Unit {0}) (is_present b) (scan_step scan b)
unfolding scan_step
scan_step-Ensures scan none = ensured tt refl
scan_step-Ensures scan (some b) = elim (Bool-cases (scan.remaining == 0)) [
  | inl e ↦
      rw e (passed_then (check 64 0 (some b)) _ (check-Passes 64 0 (some b)) (λ b' s. ensured tt s))
  | inr e ↦ rw e (ensured tt refl)
]

drop_at :
    (start : ℕ) (text : List ℕ)
    → start < length text
    → drop start text ≡ byte_at text start ∷ drop (start + 1) text
drop_at start [] h = absurd (omega arith)
drop_at zero (c ∷ text) h = refl
drop_at (suc start) (c ∷ text) h =
    let e : suc start + 1 ≡ suc (start + 1) = omega arith in rw e (drop_at start text (omega arith))

drop_end : (start : ℕ) (text : List ℕ) → length text ≤ start → drop start text ≡ []
drop_end zero [] h = refl
drop_end (suc start) [] h = refl
drop_end zero (c ∷ text) h = absurd (omega arith)
drop_end (suc start) (c ∷ text) h = drop_end start text (omega arith)

byte_at-drop :
    (start n : ℕ) (text : List ℕ) → byte_at (drop start text) n ≡ byte_at text (start + n)
byte_at-drop zero n text = let e : 0 + n ≡ n = omega arith in rw e
byte_at-drop (suc start) n [] = refl
byte_at-drop (suc start) n (c ∷ text) =
    let e : suc start + n ≡ suc (start + n) = omega arith in rw e (byte_at-drop start n text)

take_snoc : (n : ℕ) (l : List ℕ) → n < length l → take (suc n) l ≡ take n l ++ byte_at l n ∷ []
take_snoc n [] h = absurd (omega arith)
take_snoc zero (x ∷ l) h = refl
take_snoc (suc n) (x ∷ l) h = ap (λ t. x ∷ t) (take_snoc n l (omega arith))

slice_snoc :
    (start end : ℕ) (text : List ℕ)
    → start < end
    → end ≤ length text
    → slice start end text ≡ slice start (end - 1) text ++ byte_at text (end - 1) ∷ []
slice_snoc start end text h k =
    let n = end - 1 - start in
    let size : end - start ≡ suc n = omega arith in
    let place : start + n ≡ end - 1 = omega arith in
    rw size (
      take_snoc n (drop start text) (omega (arith, length-drop start text))
      ∙ ap (λ c. take n (drop start text) ++ c ∷ [])
          (byte_at-drop start n text ∙ ap (byte_at text) place))

trim_right_snoc :
    (l : List ℕ) (c : ℕ)
    → trim_right (l ++ c ∷ []) ≡ (if is_space c then trim_right l else l ++ c ∷ [])
unfolding trim_left
trim_right_snoc l c = rw (reverse-append l (c ∷ [])) (elim (Bool-cases (is_space c)) [
  | inl e ↦ rw e
  | inr e ↦ rw e (reverse-cons c (reverse l) ∙ ap (λ t. t ++ c ∷ []) (reverse-reverse l))
])

empty_front :
    (start : ℕ) (text : List ℕ)
    → length text ≤ start
    → drop start text ≡ trim_left (drop start text)
unfolding trim_left
empty_front start text h = rw (drop_end start text h)

trim_left_at :
    (start : ℕ) (text : List ℕ)
    → start < length text
    → trim_left (drop start text) ≡ (
        if is_space (byte_at text start)
        then trim_left (drop (start + 1) text)
        else drop start text)
unfolding trim_left
trim_left_at start text h = rw (drop_at start text h)

trim_right_at :
    (start end : ℕ) (text : List ℕ)
    → start < end
    → end ≤ length text
    → trim_right (slice start end text) ≡ (
        if is_space (byte_at text (end - 1))
        then trim_right (slice start (end - 1) text)
        else slice start end text)
trim_right_at start end text h k =
    rw (slice_snoc start end text h k)
      (trim_right_snoc (slice start (end - 1) text) (byte_at text (end - 1)))

trim_right_empty :
    (start end : ℕ) (text : List ℕ)
    → end ≤ start
    → slice start end text ≡ trim_right (slice start end text)
unfolding trim_left
trim_right_empty start end text h = let e : end - start ≡ 0 = omega arith in rw e

abbrev FrontEnds : List ℕ → List ℕ → ℕ × QueryStringScan → Type 0
FrontEnds target text (first, scan) = drop first text ≡ target

trim_front-Ensures :
    (fuel start : ℕ) (text : List ℕ) (scan : QueryStringScan) (b : Option QueryBudget)
    → length text < start + fuel
    → start ≤ length text
    → Ensures
        (FrontEnds (trim_left (drop start text)) text)
        (is_present b)
        (trim_front fuel start (length text) text scan b)
unfolding trim_front
trim_front-Ensures zero start text scan b h k = absurd (omega arith)
trim_front-Ensures (suc fuel) start text scan b h k = elim (Bool-cases (ltb start (length text))) [
  | inl more ↦
      rw (more, trim_left_at start text (ltb→lt _ _ more))
        (Ensures-then (scan_step scan b) _ (scan_step-Ensures scan b) (λ scan' b' _ s.
          elim (Bool-cases (is_space (byte_at text start))) [
            | inl space ↦
                rw (space, ← s)
                  (trim_front-Ensures fuel (start + 1) text scan' b' (omega arith)
                    (omega (arith, ltb→lt _ _ more)))
            | inr letter ↦ rw letter (ensured refl s)
          ]))
  | inr over ↦ rw over (ensured (empty_front start text (ltb→le _ _ over)) refl)
]

abbrev BackEnds : ℕ → List ℕ → List ℕ → ℕ → Type 0
BackEnds start target text last = slice start last text ≡ target

trim_back-Ensures :
    (fuel start end : ℕ) (text : List ℕ) (scan : QueryStringScan) (b : Option QueryBudget)
    → end < fuel
    → end ≤ length text
    → Ensures
        (BackEnds start (trim_right (slice start end text)) text)
        (is_present b)
        (trim_back fuel start end text scan b)
unfolding trim_back
trim_back-Ensures zero start end text scan b h k = absurd (omega arith)
trim_back-Ensures (suc fuel) start end text scan b h k = elim (Bool-cases (ltb start end)) [
  | inl more ↦
      rw (more, trim_right_at start end text (ltb→lt _ _ more) k)
        (Ensures-then (scan_step scan b) _ (scan_step-Ensures scan b) (λ scan' b' _ s.
          elim (Bool-cases (is_space (byte_at text (end - 1)))) [
            | inl space ↦
                rw (space, ← s)
                  (trim_back-Ensures fuel start (end - 1) text scan' b'
                    (omega (arith, ltb→lt _ _ more)) (omega arith))
            | inr letter ↦ rw letter (ensured refl s)
          ]))
  | inr over ↦ rw over (ensured (trim_right_empty start end text (ltb→le _ _ over)) refl)
]

take_all : (n : ℕ) (l : List ℕ) → length l ≤ n → take n l ≡ l
take_all zero [] h = refl
take_all (suc n) [] h = refl
take_all zero (x ∷ l) h = absurd (omega arith)
take_all (suc n) (x ∷ l) h = ap (λ t. x ∷ t) (take_all n l (omega arith))

slice_to_end : (start : ℕ) (text : List ℕ) → slice start (length text) text ≡ drop start text
slice_to_end start text =
    take_all (length text - start) (drop start text) (omega (arith, length-drop start text))

trim_scan-Ensures :
    (text : List ℕ) (b : Option QueryBudget) → Returns (trim text) (is_present b) (trim_scan text b)
unfolding trim_scan
trim_scan-Ensures text b =
    Ensures-then (trim_front (length text + 1) 0 (length text) text _ b) _
      (trim_front-Ensures (length text + 1) 0 text _ b (omega arith) (omega arith))
      (λ (start, scan) b' front s.
        Ensures-then (trim_back (length text + 1) start (length text) text scan b') _
          (rw (← s) (
            trim_back-Ensures (length text + 1) start (length text) text scan b' (omega arith)
              (omega arith)))
          (λ end b'' back s'. ensured (back ∙ ap trim_right (slice_to_end start text ∙ front)) s'))

-- Under every budget, and under none, a text is trimmed as `strings.Trim` does it, whether it is longer than
-- 4096 bytes or not, unless the budget stops the scan; the scan ends.
pub trim_query_string-trim :
    (text : List ℕ) (b : Option QueryBudget)
    → Returns (trim text) (is_present b) (trim_query_string text b)
unfolding trim_query_string
trim_query_string-trim text none = ensured refl refl
trim_query_string-trim text (some b) =
    elim (Bool-cases (leb (length text) query_order_comparison_chunk)) [
      | inl short ↦ rw short (
          passed_then (check ((length text + 63) / 64) 0 (some b)) _ (check-Passes _ 0 (some b))
            (λ b' s. ensured refl s))
      | inr long ↦ rw long (trim_scan-Ensures text (some b))
    ]
