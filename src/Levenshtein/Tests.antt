-- ===== src/Levenshtein/Tests.antt =====
-- A known distance, and the theorem at it.
use latticedb_go.Base.{ℕ, ◌≡◌, refl, List, [], ◌∷◌}
use latticedb_go.Levenshtein.{levenshtein_distance, first_row, fill_row, fill_rows}
use latticedb_go.Levenshtein.Distance.{edits, reverse_onto, levenshtein_distance-edits}

abbrev kitten : List ℕ
kitten = 107 ∷ 105 ∷ 116 ∷ 116 ∷ 101 ∷ 110 ∷ []

abbrev sitting : List ℕ
sitting = 115 ∷ 105 ∷ 116 ∷ 116 ∷ 105 ∷ 110 ∷ 103 ∷ []

known_distance : levenshtein_distance kitten sitting ≡ 3
unfolding levenshtein_distance first_row fill_row fill_rows
known_distance = refl

levenshtein_distance-edits_example :
    levenshtein_distance kitten sitting ≡ edits (reverse_onto kitten []) (reverse_onto sitting [])
levenshtein_distance-edits_example = levenshtein_distance-edits kitten sitting
