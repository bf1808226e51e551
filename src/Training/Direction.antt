-- ===== src/Training/Direction.antt =====
-- ml/training/direction.py: a direction tag stands before each source text.
pub mod Tags
pub mod Examples
use es_kaq_translator_v.Base.{
  ℕ, ◌≡◌, Bool, true, false, Option, none, some, List, [], ◌∷◌, ◌++◌, map, length, drop, elem,
  if◌then◌else◌, ◌=?◌, ◌||◌,
}
use es_kaq_translator_v.Base.Dict.{Dict, lookup}
use es_kaq_translator_v.Text.{Text, text, text_eq, starts_with}
use es_kaq_translator_v.Text.Space.{lstrip}
use es_kaq_translator_v.Data.Normalize.{SentencePair}

abbrev pub spanish : Text
spanish = text "es"

abbrev pub kaqchikel : Text
kaqchikel = text "cak"

abbrev pub direction_tags : Dict Text Text
direction_tags = (spanish, text "__es__") ∷ (kaqchikel, text "__cak__") ∷ []

abbrev pub direction_choices : List Text
direction_choices = text "es->cak" ∷ text "cak->es" ∷ text "both" ∷ []

pub record TranslationExample : Type 0 where
  pub source_text : Text
  pub target_text : Text
  pub source_lang : Text
  pub target_lang : Text

-- `KeyError` for a language without a tag, `ValueError` for an unknown direction.
pub data Outcome (A : Type 0) : Type 0 where
  ok : A → Outcome A
  key_error : Text → Outcome A
  value_error : Text → Outcome A

-- `DIRECTION_TAGS[target_lang]`
unfoldable pub tag_of : Text → Outcome Text
tag_of target_lang = elim (lookup target_lang direction_tags) [
  | none ↦ key_error target_lang
  | some tag ↦ ok tag
]

unfoldable pub with_tag : Text → Outcome Text → Outcome Text
with_tag source_text (ok tag) = ok (tag ++ (32 ∷ source_text))
with_tag source_text (key_error k) = key_error k
with_tag source_text (value_error v) = value_error v

unfoldable pub tag_source_text : (source_text target_lang : Text) → Outcome Text
tag_source_text source_text target_lang = with_tag source_text (tag_of target_lang)

unfoldable pub without_tag : Text → Outcome Text → Outcome Text
without_tag t (ok tag) = if starts_with t tag then ok (lstrip (drop (length tag) t)) else ok t
without_tag t (key_error k) = key_error k
without_tag t (value_error v) = value_error v

unfoldable pub strip_leading_direction_tag : (t target_lang : Text) → Outcome Text
strip_leading_direction_tag t target_lang = without_tag t (tag_of target_lang)

unfoldable pub forward : SentencePair → TranslationExample
forward (es, cak) = record {
  source_text = es;
  target_text = cak;
  source_lang = spanish;
  target_lang = kaqchikel;
}

unfoldable pub backward : SentencePair → TranslationExample
backward (es, cak) = record {
  source_text = cak;
  target_text = es;
  source_lang = kaqchikel;
  target_lang = spanish;
}

-- The two `extend` calls on the list of examples.
unfoldable pub examples_of : List SentencePair → Text → List TranslationExample
examples_of pairs direction =
    (if elem direction (text "es->cak" ∷ text "both" ∷ []) then map forward pairs else [])
    ++ (if elem direction (text "cak->es" ∷ text "both" ∷ []) then map backward pairs else [])

unfoldable pub build_direction_examples :
    List SentencePair → Text → Outcome (List TranslationExample)
build_direction_examples pairs direction =
    if elem direction direction_choices
    then ok (examples_of pairs direction)
    else value_error direction

unfoldable pub collect_texts_for_language : List TranslationExample → Text → List Text
collect_texts_for_language [] language = []
collect_texts_for_language (example ∷ examples) language =
    (if example.source_lang =? language then example.source_text ∷ [] else [])
    ++ ((if example.target_lang =? language then example.target_text ∷ [] else [])
        ++ collect_texts_for_language examples language)

abbrev pub all_direction_tag_tokens : List Text
all_direction_tag_tokens = map (λ p. p.1) direction_tags
