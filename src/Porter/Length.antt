-- ===== src/Porter/Length.antt =====
-- No step of the stemmer lengthens a word.
use latticedb_go.Base.{
  ℕ, ◌+◌, ◌-◌, ◌≤◌, ◌≡◌, refl, ap, List, [], ◌∷◌, ◌++◌, none, some, Bool, Option, true, false, not,
  ltb, leb, ◌||◌, ◌&&◌, if◌then◌else◌, arith, length, length-append, length-take, take, drop, All,
  ltb→le, leb→le,
}
use latticedb_go.Payload.Values.{Bytes, same_bytes}
use latticedb_go.Porter.{
  Rules, porter_suffix, step1a, rules1a, porter_step1a, restore, remove_past, porter_step1b,
  porter_step1c, porter_replace, porter_step2, porter_step3, porter_step4_apply, porter_step4,
  remove_e, shorten_l, porter_step5, stem_english_porter, porter_ascii_word, porter_flags, wants_e,
  doubled_consonant, short_stem, final_y, porter_has_vowel, porter_measure,
}

some-none : (stem : Bytes) → ¬ (none ≡ some stem)
some-none stem e = cc

some_injective : (s t : Bytes) → some s ≡ some t → s ≡ t
some_injective s t e = cc

or_false : (a b : Bool) → (a || b) ≡ false → a ≡ false
or_false true b e = e
or_false false b e = refl

if-none :
    (b : Bool) (s stem : Bytes)
    → (if b then none else some s) ≡ some stem
    → (b ≡ false) × (s ≡ stem)
if-none true s stem e = absurd (some-none stem e)
if-none false s stem e = (refl, some_injective s stem e)

pub porter_suffix-length :
    (word suffix stem : Bytes)
    → porter_suffix word suffix ≡ some stem
    → length stem + length suffix ≡ length word
unfolding porter_suffix
porter_suffix-length word suffix stem e =
    let cut = length-take (length word - length suffix) word in
    let (ends, same) =
      if-none
        (ltb (length word) (length suffix)
          || not (same_bytes (drop (length word - length suffix) word) suffix))
        (take (length word - length suffix) word) stem e in
    let fits = ltb→le (length word) (length suffix) (
      or_false (ltb (length word) (length suffix))
        (not (same_bytes (drop (length word - length suffix) word) suffix)) ends) in
    let measured : length (take (length word - length suffix) word) ≡ length stem =
      ap (λ (t : Bytes). length t) same in
    omega arith

-- The two outcomes of a test for a suffix.
suffix_cases-length :
    (found : Option Bytes) (keep : Bytes → Bytes) (rest : Bytes) (n : ℕ)
    → ((stem : Bytes) → found ≡ some stem → length (keep stem) ≤ n)
    → length rest ≤ n
    → length (elim found as (λ o. Bytes) [ some stem ↦ keep stem | none ↦ rest ]) ≤ n
suffix_cases-length none keep rest n hit miss = miss
suffix_cases-length (some stem) keep rest n hit miss = hit stem refl

-- Every replacement is at most as long as its suffix.
abbrev Shortens : Rules → Type 0
Shortens rules = All (λ (rule : Bytes × Bytes). length rule.1 ≤ length rule.0) rules

stem-replacement :
    (word suffix stem replacement : Bytes)
    → porter_suffix word suffix ≡ some stem
    → length replacement ≤ length suffix
    → length (stem ++ replacement) ≤ length word
stem-replacement word suffix stem replacement found h =
    omega (arith, length-append stem replacement, porter_suffix-length word suffix stem found)

stem-length :
    (word suffix stem : Bytes) → porter_suffix word suffix ≡ some stem → length stem ≤ length word
stem-length word suffix stem found = omega (arith, porter_suffix-length word suffix stem found)

self-length : (word : Bytes) → length word ≤ length word
self-length word = omega arith

step1a-length :
    (rules : Rules) (word : Bytes) → Shortens rules → length (step1a rules word) ≤ length word
unfolding step1a
step1a-length [] word h = self-length word
step1a-length ((suffix, replacement) ∷ rules) word (h, hs) =
    suffix_cases-length (porter_suffix word suffix) (λ (stem : Bytes). stem ++ replacement)
      (step1a rules word) (length word)
      (λ stem found. stem-replacement word suffix stem replacement found h)
      (step1a-length rules word hs)

if-length :
    (b : Bool) (s t : Bytes) (n : ℕ) → length s ≤ n → length t ≤ n → length (if b then s else t) ≤ n
if-length true s t n hs ht = hs
if-length false s t n hs ht = ht

porter_replace-length :
    (rules : Rules) (word : Bytes) (flags : List Bool)
    → Shortens rules
    → length (porter_replace rules word flags) ≤ length word
unfolding porter_replace
porter_replace-length [] word flags h = self-length word
porter_replace-length ((suffix, replacement) ∷ rules) word flags (h, hs) =
    suffix_cases-length (porter_suffix word suffix) _ _ (length word)
      (λ stem found.
        if-length (ltb 0 (porter_measure (take (length stem) flags))) (stem ++ replacement) word
          (length word) (stem-replacement word suffix stem replacement found h) (self-length word))
      (porter_replace-length rules word flags hs)

porter_step4_apply-length :
    (suffixes : List Bytes) (word : Bytes) (flags : List Bool)
    → length (porter_step4_apply suffixes word flags) ≤ length word
unfolding porter_step4_apply
porter_step4_apply-length [] word flags = self-length word
porter_step4_apply-length (suffix ∷ suffixes) word flags =
    suffix_cases-length (porter_suffix word suffix) _ _ (length word)
      (λ stem found. if-length _ word _ (length word) (self-length word) (
        if-length (ltb 1 (porter_measure (take (length stem) flags))) stem word (length word)
          (stem-length word suffix stem found) (self-length word)))
      (porter_step4_apply-length suffixes word flags)

restore-length : (word : Bytes) (flags : List Bool) → length (restore word flags) ≤ length word + 1
unfolding restore
restore-length word flags =
    let longer : length (word ++ 101 ∷ []) ≤ length word + 1 =
      omega (arith, length-append word (101 ∷ [])) in
    let shorter : length (take (length word - 1) word) ≤ length word + 1 =
      omega (arith, length-take (length word - 1) word) in
    let same : length word ≤ length word + 1 = omega arith in
    if-length (wants_e word) (word ++ 101 ∷ [])
      (if doubled_consonant word flags
        then take (length word - 1) word
        else if short_stem word flags
        then word ++ 101 ∷ []
        else word)
      (length word + 1) longer
      (if-length (doubled_consonant word flags) (take (length word - 1) word)
        (if short_stem word flags then word ++ 101 ∷ [] else word) (length word + 1) shorter
        (if-length (short_stem word flags) (word ++ 101 ∷ []) word (length word + 1) longer same))

remove_past-length :
    (suffixes : List Bytes) (word : Bytes) (flags : List Bool)
    → All (λ (suffix : Bytes). 1 ≤ length suffix) suffixes
    → length (remove_past suffixes word flags) ≤ length word
unfolding remove_past
remove_past-length [] word flags h = self-length word
remove_past-length (suffix ∷ suffixes) word flags (h, hs) =
    suffix_cases-length (porter_suffix word suffix) _ _ (length word)
      (λ stem found.
        let restored : length (restore stem flags) ≤ length word =
          omega (arith, restore-length stem flags, porter_suffix-length word suffix stem found) in
        if-length (porter_has_vowel (take (length stem) flags)) (restore stem flags)
          (remove_past suffixes word flags) (length word) restored
          (remove_past-length suffixes word flags hs))
      (remove_past-length suffixes word flags hs)

porter_step1b-length :
    (word : Bytes) (flags : List Bool) → length (porter_step1b word flags) ≤ length word
unfolding porter_step1b
porter_step1b-length word flags =
    suffix_cases-length (porter_suffix word (101 ∷ 101 ∷ 100 ∷ [])) _ _ (length word)
      (λ stem found.
        if-length (ltb 0 (porter_measure (take (length stem) flags))) (stem ++ 101 ∷ 101 ∷ []) word
          (length word)
          (stem-replacement word (101 ∷ 101 ∷ 100 ∷ []) stem (101 ∷ 101 ∷ []) found (omega arith))
          (self-length word))
      (remove_past-length ((101 ∷ 100 ∷ []) ∷ (105 ∷ 110 ∷ 103 ∷ []) ∷ []) word flags
        (omega arith, (omega arith, tt)))

last_replaced :
    (word : Bytes) (letter : ℕ)
    → 1 ≤ length word
    → length (take (length word - 1) word ++ letter ∷ []) ≤ length word
last_replaced word letter h = omega (
  arith,
  length-append (take (length word - 1) word) (letter ∷ []),
  length-take (length word - 1) word,
)

last_dropped : (word : Bytes) → length (take (length word - 1) word) ≤ length word
last_dropped word = omega (arith, length-take (length word - 1) word)

porter_step1c-length :
    (word : Bytes) (flags : List Bool) → length (porter_step1c word flags) ≤ length word
unfolding porter_step1c
porter_step1c-length [] flags = self-length []
porter_step1c-length (letter ∷ word) flags =
    if-length (final_y (letter ∷ word) flags)
      (take (length (letter ∷ word) - 1) (letter ∷ word) ++ 105 ∷ []) (letter ∷ word)
      (length (letter ∷ word)) (last_replaced (letter ∷ word) 105 (omega arith))
      (self-length (letter ∷ word))

remove_e-length : (word : Bytes) (flags : List Bool) → length (remove_e word flags) ≤ length word
unfolding remove_e
remove_e-length word flags =
    suffix_cases-length (porter_suffix word (101 ∷ [])) _ _ (length word)
      (λ stem found.
        if-length _ stem word (length word) (stem-length word (101 ∷ []) stem found)
          (self-length word))
      (self-length word)

shorten_l-length : (word : Bytes) (flags : List Bool) → length (shorten_l word flags) ≤ length word
unfolding shorten_l
shorten_l-length word flags = if-length _ _ _ (length word) (last_dropped word) (self-length word)

all_shorten : Rules → Bool
all_shorten [] = true
all_shorten ((suffix, replacement) ∷ rules) =
    leb (length replacement) (length suffix) && all_shorten rules

and_true : (a b : Bool) → (a && b) ≡ true → (a ≡ true) × (b ≡ true)
and_true true b e = (refl, e)
and_true false b e = absurd (let never : false ≡ true = e in cc)

all_shorten-Shortens : (rules : Rules) → all_shorten rules ≡ true → Shortens rules
unfolding all_shorten
all_shorten-Shortens [] e = tt
all_shorten-Shortens ((suffix, replacement) ∷ rules) e =
    let (here, there) = and_true (leb (length replacement) (length suffix)) (all_shorten rules) e in
    (leb→le (length replacement) (length suffix) here, all_shorten-Shortens rules there)

step1a-Shortens : Shortens rules1a
unfolding all_shorten
step1a-Shortens = all_shorten-Shortens rules1a refl

step2-Shortens : Shortens porter_step2
unfolding all_shorten
step2-Shortens = all_shorten-Shortens porter_step2 refl

step3-Shortens : Shortens porter_step3
unfolding all_shorten
step3-Shortens = all_shorten-Shortens porter_step3 refl

eight_steps :
    {a b c d e f g h k : ℕ} → a ≤ b → b ≤ c → c ≤ d → d ≤ e → e ≤ f → f ≤ g → g ≤ h → h ≤ k → a ≤ k
eight_steps p q r s t u v w = omega arith

-- The stem of a token is never longer than the token.
pub stem_english_porter-length : (token : Bytes) → length (stem_english_porter token) ≤ length token
unfolding stem_english_porter
stem_english_porter-length token =
    let w1 = porter_step1a token in
    let w2 = porter_step1b w1 (porter_flags w1) in
    let w3 = porter_step1c w2 (porter_flags w2) in
    let w4 = porter_replace porter_step2 w3 (porter_flags w3) in
    let w5 = porter_replace porter_step3 w4 (porter_flags w4) in
    let w6 = porter_step4_apply porter_step4 w5 (porter_flags w5) in
    let w7 = remove_e w6 (porter_flags w6) in
    if-length (ltb (length token) 3 || not (porter_ascii_word token)) token
      (porter_step5 w6 (porter_flags w6)) (length token) (self-length token)
      (eight_steps (shorten_l-length w7 (porter_flags w6)) (remove_e-length w6 (porter_flags w6))
        (porter_step4_apply-length porter_step4 w5 (porter_flags w5))
        (porter_replace-length porter_step3 w4 (porter_flags w4) step3-Shortens)
        (porter_replace-length porter_step2 w3 (porter_flags w3) step2-Shortens)
        (porter_step1c-length w2 (porter_flags w2)) (porter_step1b-length w1 (porter_flags w1))
        (step1a-length rules1a token step1a-Shortens))
