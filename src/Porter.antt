-- ===== src/Porter.antt =====
-- internal/search/porter.go: the English Porter stemmer on a token's bytes. The context is never
-- cancelled. Letters are their ASCII codes.
pub mod Length
mod Tests
use latticedb_go.Base.{
  ℕ, zero, suc, ◌+◌, ◌-◌, ◌≤◌, List, [], ◌∷◌, ◌++◌, Option, none, some, Bool, true, false, not, ltb,
  leb, ◌==◌, if◌then◌else◌, length, take, drop, get_elem?, ◌||◌, ◌&&◌,
}
use latticedb_go.Payload.Values.{Bytes, same_bytes}

unfoldable pub porter_ascii_word : Bytes → Bool
porter_ascii_word [] = true
porter_ascii_word (letter ∷ word) = not (ltb letter 97 || ltb 122 letter) && porter_ascii_word word

-- `consonant` says whether the letter before is one; in front of the first letter it is false, so
-- that a leading y is a consonant.
unfoldable pub flags_from : Bool → Bytes → List Bool
flags_from consonant [] = []
flags_from consonant (letter ∷ word) =
    let flag =
      if letter == 97 || letter == 101 || letter == 105 || letter == 111 || letter == 117
      then false
      else if letter == 121
      then not consonant
      else true in
    flag ∷ flags_from flag word

abbrev pub porter_flags : Bytes → List Bool
porter_flags word = flags_from false word

unfoldable pub measure_from : ℕ → Bool → List Bool → ℕ
measure_from measure vowel [] = measure
measure_from measure true (true ∷ flags) = measure_from (measure + 1) false flags
measure_from measure false (true ∷ flags) = measure_from measure false flags
measure_from measure vowel (false ∷ flags) = measure_from measure true flags

abbrev pub porter_measure : List Bool → ℕ
porter_measure flags = measure_from 0 false flags

unfoldable pub porter_has_vowel : List Bool → Bool
porter_has_vowel [] = false
porter_has_vowel (consonant ∷ flags) = not consonant || porter_has_vowel flags

-- `flags[i]` and `word[i]` at an index in range.
abbrev pub flag_at : List Bool → ℕ → Bool
flag_at flags i = elim (get_elem? flags i) [ none ↦ false | some flag ↦ flag ]

abbrev pub letter_at : Bytes → ℕ → ℕ
letter_at word i = elim (get_elem? word i) [ none ↦ 0 | some letter ↦ letter ]

unfoldable pub porter_cvc : Bytes → List Bool → Bool
porter_cvc word flags =
    let i = length word - 1 in
    not (ltb (length word) 3)
    && flag_at flags i
    && not (flag_at flags (i - 1))
    && flag_at flags (i - 2)
    && not (letter_at word i == 119)
    && not (letter_at word i == 120)
    && not (letter_at word i == 121)

-- The stem in front of a suffix; `none` when the word does not end in it.
unfoldable pub porter_suffix : Bytes → Bytes → Option Bytes
porter_suffix word suffix =
    let stem = take (length word - length suffix) word in
    if ltb (length word) (length suffix)
      || not (same_bytes (drop (length word - length suffix) word) suffix)
    then none
    else some stem

abbrev pub has_suffix : Bytes → Bytes → Bool
has_suffix word suffix = elim (porter_suffix word suffix) [ none ↦ false | some stem ↦ true ]

-- Suffixes and what replaces them.
abbrev pub Rules : Type 0
Rules = List (Bytes × Bytes)

-- sses → ss, ies → i, ss → ss, s →
abbrev pub rules1a : Rules
rules1a =
    (115 ∷ 115 ∷ 101 ∷ 115 ∷ [], 115 ∷ 115 ∷ [])
    ∷ (105 ∷ 101 ∷ 115 ∷ [], 105 ∷ [])
    ∷ (115 ∷ 115 ∷ [], 115 ∷ 115 ∷ [])
    ∷ (115 ∷ [], [])
    ∷ []

-- `for _, rule := range ...` in `porterStep1a`.
unfoldable pub step1a : Rules → Bytes → Bytes
step1a [] word = word
step1a ((suffix, replacement) ∷ rules) word = elim (porter_suffix word suffix) [
  | some stem ↦ stem ++ replacement
  | none ↦ step1a rules word
]

abbrev pub porter_step1a : Bytes → Bytes
porter_step1a word = step1a rules1a word

-- at, bl, iz
abbrev pub wants_e : Bytes → Bool
wants_e word =
    has_suffix word (97 ∷ 116 ∷ [])
    || has_suffix word (98 ∷ 108 ∷ [])
    || has_suffix word (105 ∷ 122 ∷ [])

-- A double consonant other than ll, ss and zz.
abbrev pub doubled_consonant : Bytes → List Bool → Bool
doubled_consonant word flags =
    let last = letter_at word (length word - 1) in
    leb 2 (length word)
    && last == letter_at word (length word - 2)
    && flag_at flags (length word - 1)
    && not (last == 108)
    && not (last == 115)
    && not (last == 122)

abbrev pub short_stem : Bytes → List Bool → Bool
short_stem word flags =
    porter_measure (take (length word) flags) == 1 && porter_cvc word (take (length word) flags)

-- What follows the removal of -ed or -ing.
unfoldable pub restore : Bytes → List Bool → Bytes
restore word flags =
    if wants_e word
    then word ++ 101 ∷ []
    else if doubled_consonant word flags
    then take (length word - 1) word
    else if short_stem word flags
    then word ++ 101 ∷ []
    else word

unfoldable pub remove_past : List Bytes → Bytes → List Bool → Bytes
remove_past [] word flags = word
remove_past (suffix ∷ suffixes) word flags = elim (porter_suffix word suffix) [
  | none ↦ remove_past suffixes word flags
  | some stem ↦
      if porter_has_vowel (take (length stem) flags)
      then restore stem flags
      else remove_past suffixes word flags
]

-- eed, then ed and ing.
unfoldable pub porter_step1b : Bytes → List Bool → Bytes
porter_step1b word flags = elim (porter_suffix word (101 ∷ 101 ∷ 100 ∷ [])) [
  | some stem ↦
      if ltb 0 (porter_measure (take (length stem) flags)) then stem ++ 101 ∷ 101 ∷ [] else word
  | none ↦ remove_past ((101 ∷ 100 ∷ []) ∷ (105 ∷ 110 ∷ 103 ∷ []) ∷ []) word flags
]

abbrev pub final_y : Bytes → List Bool → Bool
final_y word flags =
    ltb 1 (length word)
    && letter_at word (length word - 1) == 121
    && porter_has_vowel (take (length word - 1) flags)

unfoldable pub porter_step1c : Bytes → List Bool → Bytes
porter_step1c word flags =
    if final_y word flags then take (length word - 1) word ++ 105 ∷ [] else word

-- ational → ate, tional → tion, enci → ence, anci → ance, izer → ize, abli → able, alli → al,
-- entli → ent, eli → e, ousli → ous, ization → ize, ation → ate, ator → ate, alism → al,
-- iveness → ive, fulness → ful, ousness → ous, aliti → al, iviti → ive, biliti → ble
abbrev pub porter_step2 : Rules
porter_step2 =
    (97 ∷ 116 ∷ 105 ∷ 111 ∷ 110 ∷ 97 ∷ 108 ∷ [], 97 ∷ 116 ∷ 101 ∷ [])
    ∷ (116 ∷ 105 ∷ 111 ∷ 110 ∷ 97 ∷ 108 ∷ [], 116 ∷ 105 ∷ 111 ∷ 110 ∷ [])
    ∷ (101 ∷ 110 ∷ 99 ∷ 105 ∷ [], 101 ∷ 110 ∷ 99 ∷ 101 ∷ [])
    ∷ (97 ∷ 110 ∷ 99 ∷ 105 ∷ [], 97 ∷ 110 ∷ 99 ∷ 101 ∷ [])
    ∷ (105 ∷ 122 ∷ 101 ∷ 114 ∷ [], 105 ∷ 122 ∷ 101 ∷ [])
    ∷ (97 ∷ 98 ∷ 108 ∷ 105 ∷ [], 97 ∷ 98 ∷ 108 ∷ 101 ∷ [])
    ∷ (97 ∷ 108 ∷ 108 ∷ 105 ∷ [], 97 ∷ 108 ∷ [])
    ∷ (101 ∷ 110 ∷ 116 ∷ 108 ∷ 105 ∷ [], 101 ∷ 110 ∷ 116 ∷ [])
    ∷ (101 ∷ 108 ∷ 105 ∷ [], 101 ∷ [])
    ∷ (111 ∷ 117 ∷ 115 ∷ 108 ∷ 105 ∷ [], 111 ∷ 117 ∷ 115 ∷ [])
    ∷ (105 ∷ 122 ∷ 97 ∷ 116 ∷ 105 ∷ 111 ∷ 110 ∷ [], 105 ∷ 122 ∷ 101 ∷ [])
    ∷ (97 ∷ 116 ∷ 105 ∷ 111 ∷ 110 ∷ [], 97 ∷ 116 ∷ 101 ∷ [])
    ∷ (97 ∷ 116 ∷ 111 ∷ 114 ∷ [], 97 ∷ 116 ∷ 101 ∷ [])
    ∷ (97 ∷ 108 ∷ 105 ∷ 115 ∷ 109 ∷ [], 97 ∷ 108 ∷ [])
    ∷ (105 ∷ 118 ∷ 101 ∷ 110 ∷ 101 ∷ 115 ∷ 115 ∷ [], 105 ∷ 118 ∷ 101 ∷ [])
    ∷ (102 ∷ 117 ∷ 108 ∷ 110 ∷ 101 ∷ 115 ∷ 115 ∷ [], 102 ∷ 117 ∷ 108 ∷ [])
    ∷ (111 ∷ 117 ∷ 115 ∷ 110 ∷ 101 ∷ 115 ∷ 115 ∷ [], 111 ∷ 117 ∷ 115 ∷ [])
    ∷ (97 ∷ 108 ∷ 105 ∷ 116 ∷ 105 ∷ [], 97 ∷ 108 ∷ [])
    ∷ (105 ∷ 118 ∷ 105 ∷ 116 ∷ 105 ∷ [], 105 ∷ 118 ∷ 101 ∷ [])
    ∷ (98 ∷ 105 ∷ 108 ∷ 105 ∷ 116 ∷ 105 ∷ [], 98 ∷ 108 ∷ 101 ∷ [])
    ∷ []

-- icate → ic, ative →, alize → al, iciti → ic, ical → ic, ful →, ness →
abbrev pub porter_step3 : Rules
porter_step3 =
    (105 ∷ 99 ∷ 97 ∷ 116 ∷ 101 ∷ [], 105 ∷ 99 ∷ [])
    ∷ (97 ∷ 116 ∷ 105 ∷ 118 ∷ 101 ∷ [], [])
    ∷ (97 ∷ 108 ∷ 105 ∷ 122 ∷ 101 ∷ [], 97 ∷ 108 ∷ [])
    ∷ (105 ∷ 99 ∷ 105 ∷ 116 ∷ 105 ∷ [], 105 ∷ 99 ∷ [])
    ∷ (105 ∷ 99 ∷ 97 ∷ 108 ∷ [], 105 ∷ 99 ∷ [])
    ∷ (102 ∷ 117 ∷ 108 ∷ [], [])
    ∷ (110 ∷ 101 ∷ 115 ∷ 115 ∷ [], [])
    ∷ []

-- al, ance, ence, er, ic, able, ible, ant, ement, ment, ent, ion, ou, ism, ate, iti, ous, ive, ize
abbrev pub porter_step4 : List Bytes
porter_step4 =
    (97 ∷ 108 ∷ [])
    ∷ (97 ∷ 110 ∷ 99 ∷ 101 ∷ [])
    ∷ (101 ∷ 110 ∷ 99 ∷ 101 ∷ [])
    ∷ (101 ∷ 114 ∷ [])
    ∷ (105 ∷ 99 ∷ [])
    ∷ (97 ∷ 98 ∷ 108 ∷ 101 ∷ [])
    ∷ (105 ∷ 98 ∷ 108 ∷ 101 ∷ [])
    ∷ (97 ∷ 110 ∷ 116 ∷ [])
    ∷ (101 ∷ 109 ∷ 101 ∷ 110 ∷ 116 ∷ [])
    ∷ (109 ∷ 101 ∷ 110 ∷ 116 ∷ [])
    ∷ (101 ∷ 110 ∷ 116 ∷ [])
    ∷ (105 ∷ 111 ∷ 110 ∷ [])
    ∷ (111 ∷ 117 ∷ [])
    ∷ (105 ∷ 115 ∷ 109 ∷ [])
    ∷ (97 ∷ 116 ∷ 101 ∷ [])
    ∷ (105 ∷ 116 ∷ 105 ∷ [])
    ∷ (111 ∷ 117 ∷ 115 ∷ [])
    ∷ (105 ∷ 118 ∷ 101 ∷ [])
    ∷ (105 ∷ 122 ∷ 101 ∷ [])
    ∷ []

unfoldable pub porter_replace : Rules → Bytes → List Bool → Bytes
porter_replace [] word flags = word
porter_replace ((suffix, replacement) ∷ rules) word flags = elim (porter_suffix word suffix) [
  | some stem ↦
      if ltb 0 (porter_measure (take (length stem) flags)) then stem ++ replacement else word
  | none ↦ porter_replace rules word flags
]

unfoldable pub porter_step4_apply : List Bytes → Bytes → List Bool → Bytes
porter_step4_apply [] word flags = word
porter_step4_apply (suffix ∷ suffixes) word flags = elim (porter_suffix word suffix) [
  | some stem ↦
      let last = letter_at stem (length stem - 1) in
      if same_bytes suffix (105 ∷ 111 ∷ 110 ∷ [])
        && (length stem == 0 || not (last == 115) && not (last == 116))
      then word
      else if ltb 1 (porter_measure (take (length stem) flags))
      then stem
      else word
  | none ↦ porter_step4_apply suffixes word flags
]

-- The removal of a final e.
unfoldable pub remove_e : Bytes → List Bool → Bytes
remove_e word flags = elim (porter_suffix word (101 ∷ [])) [
  | some stem ↦
      let measure = porter_measure (take (length stem) flags) in
      if ltb 1 measure || measure == 1 && not (porter_cvc stem (take (length stem) flags))
      then stem
      else word
  | none ↦ word
]

-- The shortening of a final ll.
unfoldable pub shorten_l : Bytes → List Bool → Bytes
shorten_l word flags =
    if leb 2 (length word)
      && has_suffix word (108 ∷ 108 ∷ [])
      && ltb 1 (porter_measure (take (length word) flags))
    then take (length word - 1) word
    else word

abbrev pub porter_step5 : Bytes → List Bool → Bytes
porter_step5 word flags = shorten_l (remove_e word flags) flags

unfoldable pub stem_english_porter : Bytes → Bytes
stem_english_porter token =
    if ltb (length token) 3 || not (porter_ascii_word token)
    then token
    else let w1 = porter_step1a token in
      let w2 = porter_step1b w1 (porter_flags w1) in
      let w3 = porter_step1c w2 (porter_flags w2) in
      let w4 = porter_replace porter_step2 w3 (porter_flags w3) in
      let w5 = porter_replace porter_step3 w4 (porter_flags w4) in
      let w6 = porter_step4_apply porter_step4 w5 (porter_flags w5) in
      porter_step5 w6 (porter_flags w6)
