-- ===== src/Porter/Tests.antt =====
-- Words and their stems, and the theorem at a word.
use latticedb_go.Base.{◌≡◌, ◌≤◌, length, refl, [], ◌∷◌}
use latticedb_go.Porter.{
  stem_english_porter, porter_ascii_word, flags_from, measure_from, porter_has_vowel, porter_cvc,
  porter_suffix, step1a, restore, remove_past, porter_step1b, porter_step1c, porter_replace,
  porter_step4_apply, remove_e, shorten_l,
}
use latticedb_go.Porter.Length.{stem_english_porter-length}
use latticedb_go.Payload.Values.{Bytes, same_bytes}

stem_caresses :
    stem_english_porter (99 ∷ 97 ∷ 114 ∷ 101 ∷ 115 ∷ 115 ∷ 101 ∷ 115 ∷ [])
    ≡ 99 ∷ 97 ∷ 114 ∷ 101 ∷ 115 ∷ 115 ∷ []
unfolding stem_english_porter porter_ascii_word flags_from measure_from porter_has_vowel porter_cvc
    porter_suffix step1a restore remove_past porter_step1b porter_step1c porter_replace
    porter_step4_apply remove_e shorten_l same_bytes
stem_caresses = refl

stem_ponies :
    stem_english_porter (112 ∷ 111 ∷ 110 ∷ 105 ∷ 101 ∷ 115 ∷ []) ≡ 112 ∷ 111 ∷ 110 ∷ 105 ∷ []
unfolding stem_english_porter porter_ascii_word flags_from measure_from porter_has_vowel porter_cvc
    porter_suffix step1a restore remove_past porter_step1b porter_step1c porter_replace
    porter_step4_apply remove_e shorten_l same_bytes
stem_ponies = refl

stem_hopping :
    stem_english_porter (104 ∷ 111 ∷ 112 ∷ 112 ∷ 105 ∷ 110 ∷ 103 ∷ []) ≡ 104 ∷ 111 ∷ 112 ∷ []
unfolding stem_english_porter porter_ascii_word flags_from measure_from porter_has_vowel porter_cvc
    porter_suffix step1a restore remove_past porter_step1b porter_step1c porter_replace
    porter_step4_apply remove_e shorten_l same_bytes
stem_hopping = refl

stem_relational :
    stem_english_porter (114 ∷ 101 ∷ 108 ∷ 97 ∷ 116 ∷ 105 ∷ 111 ∷ 110 ∷ 97 ∷ 108 ∷ [])
    ≡ 114 ∷ 101 ∷ 108 ∷ 97 ∷ 116 ∷ []
unfolding stem_english_porter porter_ascii_word flags_from measure_from porter_has_vowel porter_cvc
    porter_suffix step1a restore remove_past porter_step1b porter_step1c porter_replace
    porter_step4_apply remove_e shorten_l same_bytes
stem_relational = refl

stem_controll :
    stem_english_porter (99 ∷ 111 ∷ 110 ∷ 116 ∷ 114 ∷ 111 ∷ 108 ∷ 108 ∷ [])
    ≡ 99 ∷ 111 ∷ 110 ∷ 116 ∷ 114 ∷ 111 ∷ 108 ∷ []
unfolding stem_english_porter porter_ascii_word flags_from measure_from porter_has_vowel porter_cvc
    porter_suffix step1a restore remove_past porter_step1b porter_step1c porter_replace
    porter_step4_apply remove_e shorten_l same_bytes
stem_controll = refl

stem_happy : stem_english_porter (104 ∷ 97 ∷ 112 ∷ 112 ∷ 121 ∷ []) ≡ 104 ∷ 97 ∷ 112 ∷ 112 ∷ 105 ∷ []
unfolding stem_english_porter porter_ascii_word flags_from measure_from porter_has_vowel porter_cvc
    porter_suffix step1a restore remove_past porter_step1b porter_step1c porter_replace
    porter_step4_apply remove_e shorten_l same_bytes
stem_happy = refl

abbrev rating : Bytes
rating = 114 ∷ 97 ∷ 116 ∷ 105 ∷ 110 ∷ 103 ∷ []

stem_english_porter-length_example : length (stem_english_porter rating) ≤ length rating
stem_english_porter-length_example = stem_english_porter-length rating
