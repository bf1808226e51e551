-- ===== src/Training/Tokenizer/Tests.antt =====
-- The theorems on the tokenizer at a decoder that joins the tokens.
use es_kaq_translator_v.Base.{ℕ, ◌+◌, ◌≡◌, refl, List, [], ◌∷◌, ◌++◌, drop, All, list_beq}
use es_kaq_translator_v.Text.{Text, text, text_eq, join, starts_with}
use es_kaq_translator_v.Text.Space.{strip}
use es_kaq_translator_v.Training.Gap.{all_of}
use es_kaq_translator_v.Training.Embedding.{Numpy}
use es_kaq_translator_v.Training.Tokenizer.{
  Transformers, starts_new_word, runs_from, convert_with_word_boundaries, mean,
}
use es_kaq_translator_v.Training.Tokenizer.Runs.{IsGlued, Opens, runs_from_lem}
use es_kaq_translator_v.Training.Tokenizer.Patched.{convert_run}

abbrev boundary : List Text
boundary = text "awach" ∷ []

abbrev tokens : List Text
tokens = (0x2581 ∷ text "de") ∷ text "awach" ∷ text "wkr" ∷ []

runs_from_lem_example :
    (all_of (λ r. r) (runs_from boundary [] tokens) ≡ tokens)
    × All (IsGlued boundary) (runs_from boundary [] tokens)
    × All (Opens boundary) (drop 1 (runs_from boundary [] tokens))
runs_from_lem_example = runs_from_lem boundary tokens

abbrev joined : Transformers
joined = record { add_tokens = λ vocab new. vocab; decode = join [] }

-- A word-initial token that is not registered keeps its marker.
convert_run_example :
    convert_with_word_boundaries joined boundary ((0x2581 ∷ text "zq") ∷ text "wkr" ∷ [])
    ≡ strip (join [] ((0x2581 ∷ text "zq") ∷ text "wkr" ∷ []))
unfolding starts_new_word list_beq starts_with
convert_run_example = convert_run joined boundary (0x2581 ∷ text "zq") (text "wkr" ∷ []) (refl, tt)

abbrev numbers : Numpy
numbers = record { Row = ℕ; mean = λ rows. 5; with_noise = λ i row. 100 + i }

abbrev old_rows : List ℕ
old_rows = 7 ∷ 8 ∷ 9 ∷ []

abbrev resized_rows : List ℕ
resized_rows = old_rows ++ (100 ∷ 101 ∷ [])
