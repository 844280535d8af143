-- ===== src/Query/Order/Chunks.antt =====
-- internal/engine/query_order_budget.go: a comparison in chunks against one of whole texts.
use latticedb_go.Base.{
  ℕ, zero, suc, ◌+◌, ◌-◌, ◌/◌, ◌≤◌, ◌<◌, ◌≡◌, refl, sym, subst, Bool, true, false, Option, some,
  List, [], ◌∷◌, min, Bool-cases, inl, inr, ltb, if◌then◌else◌, length, length-drop, ◌⊎◌, take,
  drop, arith, ltb→lt, ltb→le,
}
use latticedb_go.Base.Int.{ℤ}
use latticedb_go.Query.Budget.{QueryBudget, Budgeted, check_present}
use latticedb_go.Query.Limits.{is_present, Returns, ensured, check_present-Passes, passed_then}
use latticedb_go.Query.Strings.{query_order_comparison_chunk}
use latticedb_go.Query.Order.{
  cmp_compare, compare_bytes, compare_list, compare_in_chunks, is_zero, shared_length, chunk_end,
  compare_slices, return_unless_equal, compare_chunks, compare_order_string,
}

module _ (a : ℤ) {present : Bool} (c rest : ℤ) (next : Budgeted ℤ) (b : Option QueryBudget) where
  unless_equal :
      a ≡ (if is_zero c then rest else c)
      → is_present b ≡ present
      → Returns rest present (next b)
      → Returns a present (return_unless_equal c next b)
  unless_equal e s ih = elim (Bool-cases (is_zero c)) [
    | inl z ↦ let e' : a ≡ rest = rw z at e in rw (z, e') ih
    | inr z ↦ let e' : a ≡ c = rw z at e in rw z (ensured (sym e') s)
  ]

module _ {A : Type 0} (cmp : A → A → ℤ) where
  -- The comparison after a prefix of both.
  compare_prefix :
      (n : ℕ) (l r : List A)
      → n ≤ length l
      → n ≤ length r
      → compare_list cmp l r ≡ (
          if is_zero (compare_list cmp (take n l) (take n r))
          then compare_list cmp (drop n l) (drop n r)
          else compare_list cmp (take n l) (take n r))
  unfolding compare_list
  compare_prefix zero l r h k = refl
  compare_prefix (suc n) [] r h k = absurd (omega arith)
  compare_prefix (suc n) (x ∷ l) [] h k = absurd (omega arith)
  compare_prefix (suc n) (x ∷ l) (y ∷ r) h k = ground (arith, compare_prefix n l r)

  -- The end of the shorter text decides.
  compare_rest :
      (k : ℕ) (l r : List A)
      → k ≤ length l
      → k ≤ length r
      → (length l ≤ k) ⊎ (length r ≤ k)
      → compare_list cmp (drop k l) (drop k r) ≡ cmp_compare (length l) (length r)
  unfolding compare_list
  compare_rest zero [] [] h i e = refl
  compare_rest zero [] (y ∷ r) h i e = ground arith
  compare_rest zero (x ∷ l) [] h i e = ground arith
  compare_rest zero (x ∷ l) (y ∷ r) h i e = absurd (omega arith)
  compare_rest (suc k) [] r h i e = absurd (omega arith)
  compare_rest (suc k) (x ∷ l) [] h i e = absurd (omega arith)
  compare_rest (suc k) (x ∷ l) (y ∷ r) h i e = ground (arith, compare_rest k l r)

  drop-drop : (a b : ℕ) (l : List A) → drop a (drop b l) ≡ drop (b + a) l
  drop-drop a zero l = let e : 0 + a ≡ a = omega arith in rw e
  drop-drop zero (suc b) [] = let e : suc b + 0 ≡ suc b = omega arith in rw e
  drop-drop (suc a) (suc b) [] = let e : suc b + suc a ≡ suc (b + suc a) = omega arith in rw e
  drop-drop a (suc b) (x ∷ l) =
      let e : suc b + a ≡ suc (b + a) = omega arith in rw e (drop-drop a b l)

  -- A chunk from `start` on, and the rest behind it.
  compare_chunk :
      (start end : ℕ) (l r : List A)
      → start ≤ end
      → end ≤ length l
      → end ≤ length r
      → compare_list cmp (drop start l) (drop start r) ≡ (
          if is_zero (compare_slices cmp start end l r)
          then compare_list cmp (drop end l) (drop end r)
          else compare_slices cmp start end l r)
  compare_chunk start end l r h i k =
      let span : start + (end - start) ≡ end = omega arith in
      subst
        (λ m. compare_list cmp (drop start l) (drop start r) ≡ (
          if is_zero (compare_slices cmp start end l r)
          then compare_list cmp (drop m l) (drop m r)
          else compare_slices cmp start end l r))
        span
        (rw (← drop-drop (end - start) start l, ← drop-drop (end - start) start r)
          (compare_prefix (end - start) (drop start l) (drop start r)
            (omega (arith, length-drop start l)) (omega (arith, length-drop start r))))

  -- The texts from `start` on, or from the end of the shorter one.
  abbrev from : ℕ → List A → List A → ℤ
  from start l r =
      compare_list cmp (drop (min start (shared_length l r)) l)
        (drop (min start (shared_length l r)) r)

  from-end :
      (start : ℕ) (l r : List A)
      → ltb start (shared_length l r) ≡ false
      → from start l r ≡ cmp_compare (length l) (length r)
  from-end start l r over =
      compare_rest (min start (shared_length l r)) l r (omega arith) (omega arith)
        (omega (arith, ltb→le _ _ over))

  from-chunk :
      (start : ℕ) (l r : List A)
      → ltb start (shared_length l r) ≡ true
      → from start l r ≡ (
          if is_zero (compare_slices cmp start (chunk_end start l r) l r)
          then from (start + query_order_comparison_chunk) l r
          else compare_slices cmp start (chunk_end start l r) l r)
  from-chunk start l r more =
      let first : min start (shared_length l r) ≡ start = omega (arith, ltb→lt _ _ more) in
      rw first (
        compare_chunk start (chunk_end start l r) l r (omega (arith, ltb→lt _ _ more)) (omega arith)
          (omega arith))

  -- What a loop that starts at `start` compares.
  compare_chunks-Returns :
      (fuel start : ℕ) (l r : List A) (b : Option QueryBudget)
      → is_present b ≡ true
      → shared_length l r < min start (shared_length l r) + fuel
      → Returns (from start l r) true (compare_chunks cmp fuel start l r b)
  unfolding compare_chunks
  compare_chunks-Returns zero start l r b s h = absurd (omega arith)
  compare_chunks-Returns (suc fuel) start l r b s h =
      elim (Bool-cases (ltb start (shared_length l r))) [
        | inl more ↦ rw more (
            passed_then (check_present ((chunk_end start l r - start + 63) / 64) 0 b) _
              (check_present-Passes _ 0 b s)
              (λ b' s'.
                unless_equal (from start l r) (compare_slices cmp start (chunk_end start l r) l r)
                  (from (start + query_order_comparison_chunk) l r)
                  (compare_chunks cmp fuel (start + query_order_comparison_chunk) l r) b'
                  (from-chunk start l r more) s'
                  (compare_chunks-Returns fuel (start + query_order_comparison_chunk) l r b' s'
                    (omega (arith, ltb→lt _ _ more)))))
        | inr over ↦ rw over (ensured (sym (from-end start l r over)) s)
      ]

  -- The loop over chunks ends, and returns what the comparison of the whole lists returns.
  pub compare_in_chunks-compare_list :
      (left right : List A) (b : Option QueryBudget)
      → is_present b ≡ true
      → Returns (compare_list cmp left right) true (compare_in_chunks cmp left right b)
  unfolding compare_in_chunks
  compare_in_chunks-compare_list left right b s =
      let start : min 0 (shared_length left right) ≡ 0 = omega arith in
      subst
        (λ m.
          Returns (compare_list cmp (drop m left) (drop m right)) true
            (compare_chunks cmp (length left + 1) 0 left right b))
        start (compare_chunks-Returns (length left + 1) 0 left right b s (omega arith))

-- A comparison of texts by chunks of 4096 bytes ends, and returns what the byte by byte comparison of the
-- whole texts returns, unless the budget, which is not nil, stops it.
pub compare_order_string-compare_bytes :
    (left right : List ℕ) (b : QueryBudget)
    → Returns (compare_bytes left right) true (compare_order_string left right (some b))
unfolding compare_order_string compare_bytes
compare_order_string-compare_bytes left right b =
    compare_in_chunks-compare_list cmp_compare left right (some b) refl
