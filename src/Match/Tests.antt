-- ===== src/Match/Tests.antt =====
-- Two spellings of one title.
use kuro.Base.{List, [], ◌∷◌, any, ◌≤◌, ◌<◌, ◌≡◌, refl, Text, text, text_eq}
use kuro.Match.Dice.{bigram, bigrams, shared, dice}
use kuro.Match.Shared.{occurs}
use kuro.Match.Index.{new_index, add_entries, candidates, is_at}
use kuro.Match.Scan.{reaches, entry_at, added, candidates-scan}
use kuro.Match.Bounds.{Meets, dice_lem, shared-Meets}

abbrev shounen : Text
shounen = text "shounen"

abbrev shonen : Text
shonen = text "shonen"

dice_test : dice shounen shonen ≡ (8, 11)
unfolding dice bigram text_eq
dice_test = refl

dice_lem_example :
    (dice shounen shonen ≡ dice shonen shounen)
    × (0 < (dice shounen shonen).1)
    × ((dice shounen shonen).0 ≤ (dice shounen shonen).1)
dice_lem_example = dice_lem shounen shonen

shared-Meets_example :
    Meets (λ j. occurs j (bigrams shounen)) (bigrams shonen) (shared shounen shonen)
shared-Meets_example = shared-Meets shounen shonen

-- A show with two titles, one without any, and one with a single word.
abbrev shows : List (List (List Text))
shows =
    ((text "re" ∷ text "zero" ∷ text "kara" ∷ []) ∷ (text "rezero" ∷ []) ∷ [])
    ∷ []
    ∷ ((text "frieren" ∷ []) ∷ [])
    ∷ []

candidates_test :
    candidates (add_entries shows new_index) (text "zerokara" ∷ text "frieren" ∷ []) ≡ 0 ∷ 1 ∷ []
unfolding candidates add_entries new_index
candidates_test = refl

candidates-scan_example :
    is_at 1 (candidates (add_entries shows new_index) (text "frieren" ∷ []))
    ≡ any (λ t. reaches t (entry_at 1 (added shows))) (text "frieren" ∷ [])
candidates-scan_example = candidates-scan shows (text "frieren" ∷ []) 1
