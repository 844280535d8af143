-- ===== src/Adjacency/Pieces.antt =====
-- Lists cut into chunks of 64, and the ids kept of a list.
use latticedb_go.Base.{
  ℕ, zero, suc, ◌+◌, ◌-◌, ◌*◌, ◌/◌, ◌≤◌, ◌<◌, ◌≡◌, ◌≢◌, ◌⊎◌, refl, sym, ap, ◌∙◌, Bool, true, false,
  not, ◌&&◌, ◌||◌, List, [], ◌∷◌, ◌++◌, append-nil, arith, length, length-append, length-drop, take,
  drop, ◌==◌, Bool-cases, inl, inr, ==_iff, ==_self,
}
use latticedb_go.Adjacency.{keep, mem, remove_first}

module _ {A : Type 0} where
  pub drop-append :
      (n : ℕ) (xs ys : List A) → drop n (xs ++ ys) ≡ drop n xs ++ drop (n - length xs) ys
  drop-append zero xs ys = rw (let e : 0 - length xs ≡ 0 = omega arith in e)
  drop-append (suc n) [] ys = rw (let e : suc n - 0 ≡ suc n = omega arith in e)
  drop-append (suc n) (x ∷ xs) ys =
      let e : suc n - suc (length xs) ≡ n - length xs = omega arith in drop-append n xs ys ∙ rw (e)

  take-append : (n : ℕ) (xs ys : List A) → take n (xs ++ ys) ≡ take n xs ++ take (n - length xs) ys
  take-append zero xs ys = rw (let e : 0 - length xs ≡ 0 = omega arith in e)
  take-append (suc n) [] ys = rw (let e : suc n - 0 ≡ suc n = omega arith in e)
  take-append (suc n) (x ∷ xs) ys =
      let e : suc n - suc (length xs) ≡ n - length xs = omega arith in
      ap (λ t. x ∷ t) (take-append n xs ys) ∙ rw (e)

  pub take-drop_append : (n : ℕ) (xs : List A) → take n xs ++ drop n xs ≡ xs
  take-drop_append zero xs = refl
  take-drop_append (suc n) [] = refl
  take-drop_append (suc n) (x ∷ xs) = ap (λ t. x ∷ t) (take-drop_append n xs)

  pub drop_short : (n : ℕ) (xs : List A) → length xs ≤ n → drop n xs ≡ []
  drop_short zero [] h = refl
  drop_short zero (x ∷ xs) h = absurd (omega arith)
  drop_short (suc n) [] h = refl
  drop_short (suc n) (x ∷ xs) h = drop_short n xs (omega arith)

  pub take_long : (n : ℕ) (xs : List A) → length xs ≤ n → take n xs ≡ xs
  take_long zero [] h = refl
  take_long zero (x ∷ xs) h = absurd (omega arith)
  take_long (suc n) [] h = refl
  take_long (suc n) (x ∷ xs) h = ap (λ t. x ∷ t) (take_long n xs (omega arith))

  pub drop-drop : (m n : ℕ) (xs : List A) → drop m (drop n xs) ≡ drop (n + m) xs
  drop-drop m zero xs = rw (let e : 0 + m ≡ m = omega arith in e)
  drop-drop zero (suc n) [] = rw (let e : suc n + 0 ≡ suc n = omega arith in e)
  drop-drop (suc m) (suc n) [] = rw (let e : suc n + suc m ≡ suc (n + suc m) = omega arith in e)
  drop-drop m (suc n) (x ∷ xs) =
      drop-drop m n xs ∙ rw (let e : suc n + m ≡ suc (n + m) = omega arith in e)

  -- The ids of one chunk.
  abbrev pub piece : ℕ → List A → List A
  piece c xs = take 64 (drop (c * 64) xs)

  pub piece_short : (c : ℕ) (xs : List A) → length xs ≤ c * 64 → piece c xs ≡ []
  piece_short c xs h = rw (drop_short (c * 64) xs h)

  -- Another id goes to the last chunk, and to no other.
  pub piece-append_last :
      (c : ℕ) (xs ys : List A)
      → c * 64 ≤ length xs
      → length xs + length ys ≤ c * 64 + 64
      → piece c (xs ++ ys) ≡ piece c xs ++ ys
  piece-append_last c xs ys h l =
      let front : c * 64 - length xs ≡ 0 = omega arith in
      let rest : length (drop (c * 64) xs) ≡ length xs - c * 64 = length-drop (c * 64) xs in
      rw (
        drop-append (c * 64) xs ys,
        front,
        take_long 64 (drop (c * 64) xs ++ ys)
            (omega (arith, length-append (drop (c * 64) xs) ys, rest)),
        take_long 64 (drop (c * 64) xs) (omega (arith, rest)),
      )

  pub piece-append_other :
      (c : ℕ) (xs : List A) (x : A) → c ≢ length xs / 64 → piece c (xs ++ x ∷ []) ≡ piece c xs
  piece-append_other c xs x h = elim (≤-or-< (c * 64 + 64) (length xs)) [
    | inl below ↦
        let front : c * 64 - length xs ≡ 0 = omega arith in
        let none : 64 - length (drop (c * 64) xs) ≡ 0 = omega (arith, length-drop (c * 64) xs) in
        rw (
          drop-append (c * 64) xs (x ∷ []),
          front,
          take-append 64 (drop (c * 64) xs) (x ∷ []),
          none,
          append-nil (take 64 (drop (c * 64) xs)),
        )
    | inr above ↦
        let past : length xs < c * 64 = omega (arith, h) in
        rw (
          drop_short (c * 64) (xs ++ x ∷ []) (omega (arith, length-append xs (x ∷ []))),
          drop_short (c * 64) xs (omega arith),
        )
  ]
    where
      ≤-or-< : (m n : ℕ) → (m ≤ n) ⊎ (n < m)
      ≤-or-< m n = ground arith

-- Tests on the ids of a list.
pub keep-append :
    (live : ℕ → Bool) (xs ys : List ℕ) → keep live (xs ++ ys) ≡ keep live xs ++ keep live ys
keep-append live [] ys = refl
keep-append live (x ∷ xs) ys = elim (Bool-cases (live x)) [
  | inl h ↦ rw (h) (ap (λ t. x ∷ t) (keep-append live xs ys))
  | inr h ↦ rw (h) (keep-append live xs ys)
]

pub keep_same :
    (live live' : ℕ → Bool) (xs : List ℕ)
    → ((x : ℕ) → mem x xs ≡ true → live x ≡ live' x)
    → keep live xs ≡ keep live' xs
keep_same live live' [] h = refl
keep_same live live' (x ∷ xs) h =
    rw (h x (rw (==_self x)), keep_same live live' xs (λ y k. h y (behind y k)))
  where
    behind : (y : ℕ) → mem y xs ≡ true → mem y (x ∷ xs) ≡ true
    behind y k = ground arith

pub keep_every : (xs : List ℕ) → keep (λ x. true) xs ≡ xs
keep_every [] = refl
keep_every (x ∷ xs) = ap (λ t. x ∷ t) (keep_every xs)

pub keep-keep : (p q : ℕ → Bool) (xs : List ℕ) → keep p (keep q xs) ≡ keep (λ x. q x && p x) xs
keep-keep p q [] = refl
keep-keep p q (x ∷ xs) = elim (Bool-cases (q x)) [
  | inl h ↦ rw (h, keep-keep p q xs)
  | inr h ↦ rw (h, keep-keep p q xs)
]

pub mem-append : (id : ℕ) (xs ys : List ℕ) → mem id (xs ++ ys) ≡ (mem id xs || mem id ys)
mem-append id [] ys = refl
mem-append id (x ∷ xs) ys = ground (arith, mem-append id xs ys)

pub mem-keep :
    (id : ℕ) (live : ℕ → Bool) (xs : List ℕ) → mem id (keep live xs) ≡ (mem id xs && live id)
mem-keep id live [] = refl
mem-keep id live (x ∷ xs) = grind (arith, mem-keep id live xs)

abbrev pub Distinct : List ℕ → Type 0
Distinct [] = Unit {0}
Distinct (x ∷ xs) = (mem x xs ≡ false) × Distinct xs

pub Distinct-append :
    (id : ℕ) (xs : List ℕ) → Distinct xs → mem id xs ≡ false → Distinct (xs ++ id ∷ [])
Distinct-append id [] h k = (refl, tt)
Distinct-append id (x ∷ xs) (hx, h) k =
    let others : mem id xs ≡ false = ground arith in
    ((mem-append x xs (id ∷ []) ∙ ground (arith, hx)), Distinct-append id xs h others)

pub Distinct-keep : (live : ℕ → Bool) (xs : List ℕ) → Distinct xs → Distinct (keep live xs)
Distinct-keep live [] h = tt
Distinct-keep live (x ∷ xs) (hx, h) = elim (Bool-cases (live x)) [
  | inl l ↦ rw (l) (mem-keep x live xs ∙ rw (hx), Distinct-keep live xs h)
  | inr l ↦ rw (l) (Distinct-keep live xs h)
]

pub keep_absent : (id : ℕ) (xs : List ℕ) → mem id xs ≡ false → keep (λ x. not (x == id)) xs ≡ xs
keep_absent id [] h = refl
keep_absent id (x ∷ xs) h =
    let here : (x == id) ≡ false = ground arith in
    let there : mem id xs ≡ false = ground arith in
    rw (here) (ap (λ t. x ∷ t) (keep_absent id xs there))

pub remove_first-keep :
    (id : ℕ) (xs : List ℕ) → Distinct xs → remove_first id xs ≡ keep (λ x. not (x == id)) xs
remove_first-keep id [] h = refl
remove_first-keep id (x ∷ xs) (hx, h) = elim (Bool-cases (x == id)) [
  | inl e ↦
      let absent : mem id xs ≡ false = rw (sym ((==_iff x id).0 e)) hx in
      rw (e) (sym (keep_absent id xs absent))
  | inr e ↦ rw (e) (ap (λ t. x ∷ t) (remove_first-keep id xs h))
]

-- One id less.
pub length-keep_other :
    (id : ℕ) (xs : List ℕ)
    → Distinct xs
    → mem id xs ≡ true
    → length (keep (λ x. not (x == id)) xs) + 1 ≡ length xs
length-keep_other id [] h m = absurd cc
length-keep_other id (x ∷ xs) (hx, h) m = elim (Bool-cases (x == id)) [
  | inl e ↦
      let absent : mem id xs ≡ false = rw (sym ((==_iff x id).0 e)) hx in
      rw (e, keep_absent id xs absent) (omega arith)
  | inr e ↦
      let there : mem id xs ≡ true = rw (e) at m in
      rw (e) (omega (arith, length-keep_other id xs h there))
]
