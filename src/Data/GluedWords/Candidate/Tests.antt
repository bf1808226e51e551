-- ===== src/Data/GluedWords/Candidate/Tests.antt =====
-- The theorem on candidates at the word "elagua", with "agua" three times in the corpus.
use es_kaq_translator_v.Base.{ℕ, ◌≤◌, ◌≡◌, true, some, List, [], ◌∷◌, length, elem}
use es_kaq_translator_v.Base.Dict.{Dict}
use es_kaq_translator_v.Text.{Text, text, text_eq}
use es_kaq_translator_v.Data.GluedWords.{count_of, Thresholds, is_glue, find_glued_word_candidate}
use es_kaq_translator_v.Data.GluedWords.Candidate.{find_glued_word_candidate_lem}

abbrev thresholds : Thresholds
thresholds = record { max_word_frequency = 1; min_suffix_frequency = 3; min_suffix_length = 4 }

abbrev frequencies : Dict Text ℕ
frequencies = (text "agua", 3) ∷ (text "elagua", 1) ∷ []

abbrev prefixes : List Text
prefixes = text "e" ∷ text "el" ∷ text "la" ∷ []

find_glued_word_candidate_lem_example :
    let found =
      find_glued_word_candidate (λ w. w) thresholds frequencies prefixes (text "elagua") in
    let rare = count_of (text "elagua") frequencies ≤ 1 in
    let fits = λ (p : Text). is_glue thresholds frequencies (text "elagua") p ≡ true in
    ((p : Text)
      → found ≡ some p
      → rare
        × (elem p prefixes ≡ true)
        × fits p
        × ((q : Text) → elem q prefixes ≡ true → fits q → length q ≤ length p))
    × ((q : Text) → rare → elem q prefixes ≡ true → fits q → (p : Text) × (found ≡ some p))
find_glued_word_candidate_lem_example =
    find_glued_word_candidate_lem (λ w. w) thresholds frequencies prefixes (text "elagua")
