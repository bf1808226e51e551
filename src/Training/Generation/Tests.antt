-- ===== src/Training/Generation/Tests.antt =====
-- The theorems on encoding and generation at a model that copies its input.
use es_kaq_translator_v.Base.{
  ◌⊎◌, ℕ, zero, suc, ◌≤◌, ◌≡◌, refl, max, true, false, some, none, ◌-◌, List, [], ◌∷◌, ◌++◌, map,
  length, take, arith, list_beq,
}
use es_kaq_translator_v.Base.Dict.{lookup}
use es_kaq_translator_v.Text.{Text, text, text_eq, starts_with}
use es_kaq_translator_v.Text.Space.{lstrip, is_space}
use es_kaq_translator_v.Training.Direction.{
  Outcome, kaqchikel, direction_tags, TranslationExample, forward, backward, tag_of, with_tag,
  tag_source_text, without_tag, strip_leading_direction_tag,
}
use es_kaq_translator_v.Training.Dataset.{Encoder, Item, get_item, get_item-bounds}
use es_kaq_translator_v.Training.Generation.{Decoder, ok, generate_translations}
use es_kaq_translator_v.Training.Generation.Translated.{IsTranslated, generate_translations_lem}

abbrev encoder : Encoder
encoder = record { token_id = λ t. 3; eos_token_id = 2; encode = λ b n t. take n t }

take_le : (n : ℕ) (t : Text) → length (take n t) ≤ n
take_le zero t = omega arith
take_le (suc n) [] = omega arith
take_le (suc n) (c ∷ t) = omega (arith, take_le n t)

truncates :
    (n : ℕ) (t : Text)
    → ((2 ≤ n) → length (encoder.encode true n t) ≤ n)
      × ((1 ≤ n) → length (encoder.encode false n t) ≤ n)
truncates n t = (λ h. take_le n t, λ h. take_le n t)

abbrev example : TranslationExample
example = forward (text "agua", text "ya'")

get_item-bounds_example :
    ((tag : Text) × (item : Item) × (lookup kaqchikel direction_tags ≡ some tag)
      × (get_item encoder 4 example ≡ Outcome.ok item)
      × (item.input_ids ≡ encoder.encode true 4 (tag ++ (32 ∷ text "agua")))
      × (item.labels
          ≡ encoder.token_id tag ∷ encoder.encode false (max 1 (4 - 2)) (text "ya'")
            ++ (encoder.eos_token_id ∷ []))
      × (length item.input_ids ≤ 4)
      × (length item.labels ≤ max 3 4))
    ⊎ ((lookup kaqchikel direction_tags ≡ none)
        × (get_item encoder 4 example ≡ Outcome.key_error kaqchikel))
unfolding forward
get_item-bounds_example = get_item-bounds encoder truncates 4 example (omega arith)

abbrev decoder : Decoder
decoder = record { token_id = λ t. 3; generate = λ bos. map (λ t. t) }

abbrev examples : List TranslationExample
examples =
    forward (text "a", text "x") ∷ backward (text "b", text "y") ∷ forward (text "c", text "z") ∷ []

-- The copy of the tagged source, stripped, is the source.
forward-IsTranslated :
    IsTranslated (λ bos t. t) decoder.token_id (forward (text "a", text "x")) (text "a")
unfolding forward tag_of tag_source_text with_tag strip_leading_direction_tag without_tag lookup
    list_beq starts_with lstrip is_space
forward-IsTranslated = record { tagged = refl; source = _; has_source = refl; stripped = refl }

backward-IsTranslated :
    IsTranslated (λ bos t. t) decoder.token_id (backward (text "b", text "y")) (text "y")
unfolding backward tag_of tag_source_text with_tag strip_leading_direction_tag without_tag lookup
    list_beq starts_with lstrip is_space
backward-IsTranslated = record { tagged = refl; source = _; has_source = refl; stripped = refl }

last-IsTranslated :
    IsTranslated (λ bos t. t) decoder.token_id (forward (text "c", text "z")) (text "c")
unfolding forward tag_of tag_source_text with_tag strip_leading_direction_tag without_tag lookup
    list_beq starts_with lstrip is_space
last-IsTranslated = record { tagged = refl; source = _; has_source = refl; stripped = refl }

generate_translations_lem_example :
    generate_translations decoder examples 2 ≡ ok (text "a" ∷ text "y" ∷ text "c" ∷ [])
unfolding forward backward
generate_translations_lem_example =
    generate_translations_lem decoder examples (λ bos t. t) (λ e. e.source_text) (λ bos ts. refl) 1
      (forward-IsTranslated, (backward-IsTranslated, (last-IsTranslated, tt)))
