-- ===== src/Deployment/Inference.antt =====
-- ml/deployment/inference.py: the hooks that serve one translation request.
pub mod Contract
pub mod Client
mod Tests
use es_kaq_translator_v.Base.{
  ℕ, Bool, true, false, Option, none, some, List, [], ◌∷◌, ◌=?◌, ◌||◌, if◌then◌else◌, elem,
}
use es_kaq_translator_v.Text.{Text, text, text_eq, starts_with}
use es_kaq_translator_v.Text.Space.{strip}
use es_kaq_translator_v.Api.Json.{Json, Items, Fields, end, field, get_field}
use es_kaq_translator_v.Api.Json
use es_kaq_translator_v.Training.Direction.{
  spanish, kaqchikel, Outcome, tag_of, tag_source_text, strip_leading_direction_tag,
}
use es_kaq_translator_v.Training.Direction

abbrev pub content_type_json : Text
content_type_json = text "application/json"

abbrev pub supported_langs : List Text
supported_langs = spanish ∷ kaqchikel ∷ []

abbrev pub default_max_length : ℕ
default_max_length = 128

abbrev pub default_num_beams : ℕ
default_num_beams = 5

pub record InferenceRequest : Type 0 where
  pub source_lang : Text
  pub target_lang : Text
  pub text : Text

-- What makes a `ValueError`, by its message.
pub data Reason : Type 0 where
  missing_field : Text → Reason
  unsupported_source unsupported_target same_language not_a_string empty_text : Reason
  unsupported_content_type invalid_json unsupported_accept_type : Reason

pub data Served (A : Type 0) : Type 0 where
  ok : A → Served A
  value_error : Reason → Served A
  type_error : Served A
  key_error : Text → Served A
  index_error : Served A

-- `lang in SUPPORTED_LANGS`, with the language as a string
unfoldable pub supported : Json → Option Text
supported (Json.str lang) = if elem lang supported_langs then some lang else none
supported _ = none

-- The checks of the text, after those of the languages.
unfoldable pub with_text : (source_lang target_lang : Text) → Json → Served InferenceRequest
with_text source_lang target_lang (Json.str t) = elim (strip t) [
  | [] ↦ value_error empty_text
  | c ∷ s ↦ ok (record { source_lang = source_lang; target_lang = target_lang; text = c ∷ s })
]
with_text source_lang target_lang _ = value_error not_a_string

unfoldable pub check_fields : (source_lang target_lang t : Json) → Served InferenceRequest
check_fields source_lang target_lang t = elim (supported source_lang) [
  | none ↦ value_error unsupported_source
  | some source ↦ elim (supported target_lang) [
    | none ↦ value_error unsupported_target
    | some target ↦
        if source =? target then value_error same_language else with_text source target t
  ]
]

-- A request body that is an object.
unfoldable pub parse_request : Fields → Served InferenceRequest
parse_request payload = elim (get_field (text "source_lang") payload) [
  | none ↦ value_error (missing_field (text "source_lang"))
  | some source_lang ↦ elim (get_field (text "target_lang") payload) [
    | none ↦ value_error (missing_field (text "target_lang"))
    | some target_lang ↦ elim (get_field (text "text") payload) [
      | none ↦ value_error (missing_field (text "text"))
      | some t ↦ check_fields source_lang target_lang t
    ]
  ]
]

-- `key in items` for a list, and for a string
unfoldable pub has_item : Text → Items → Bool
has_item k Items.nil = false
has_item k (Items.cons (Json.str t) items) = t =? k || has_item k items
has_item k (Items.cons _ items) = has_item k items

unfoldable pub has_part : Text → Text → Bool
has_part k [] = starts_with [] k
has_part k (c ∷ t) = starts_with (c ∷ t) k || has_part k t

-- A list or a string that holds the three keys fails at the first subscript.
unfoldable pub not_an_object : (has_source has_target has_text : Bool) → Served InferenceRequest
not_an_object false b c = value_error (missing_field (text "source_lang"))
not_an_object true false c = value_error (missing_field (text "target_lang"))
not_an_object true true false = value_error (missing_field (text "text"))
not_an_object true true true = type_error

-- A request body of any form.
unfoldable pub parse_json : Json → Served InferenceRequest
parse_json (Json.obj payload) = parse_request payload
parse_json (Json.arr items) =
    not_an_object (has_item (text "source_lang") items) (has_item (text "target_lang") items)
      (has_item (text "text") items)
parse_json (Json.str t) =
    not_an_object (has_part (text "source_lang") t) (has_part (text "target_lang") t)
      (has_part (text "text") t)
parse_json _ = type_error

-- The tokenizer and the model; moving the batch to the model's device changes no value.
pub record Checkpoint : Type 1 where
  pub Encoded : Type 0
  pub Ids : Type 0
  pub convert_tokens_to_ids : Text → ℕ
  -- the texts and `max_length`
  pub encode : List Text → ℕ → Encoded
  -- the batch, `forced_bos_token_id`, `max_length` and `num_beams`
  pub generate : Encoded → ℕ → ℕ → ℕ → Ids
  pub batch_decode : Ids → List Text

-- An error of the direction tags.
unfoldable pub served : {A : Type 0} → Outcome A → Served A
served (Direction.ok a) = ok a
served (Direction.key_error k) = key_error k
served (Direction.value_error v) = key_error v

-- `decoded[0]`, and the tag taken off it
unfoldable pub first_decoded : Text → List Text → Served Text
first_decoded target_lang [] = index_error
first_decoded target_lang (t ∷ decoded) = served (strip_leading_direction_tag t target_lang)

unfoldable pub on_ok : {A B : Type 0} → Served A → (A → Served B) → Served B
on_ok (ok a) f = f a
on_ok (value_error r) f = value_error r
on_ok type_error f = type_error
on_ok (key_error k) f = key_error k
on_ok index_error f = index_error

module _ (ch : Checkpoint) where
  unfoldable pub translate : InferenceRequest → (max_length num_beams : ℕ) → Served Text
  translate request max_length num_beams =
      on_ok (served (tag_source_text request.text request.target_lang)) (λ tagged_text.
        on_ok (served (tag_of request.target_lang)) (λ tag.
          let encoded = ch.encode (tagged_text ∷ []) max_length in
          let forced_bos_token_id = ch.convert_tokens_to_ids tag in
          let generated_ids = ch.generate encoded forced_bos_token_id max_length num_beams in
          first_decoded request.target_lang (ch.batch_decode generated_ids)))

  unfoldable pub predict_fn : InferenceRequest → Served Json
  predict_fn request =
      on_ok (translate request default_max_length default_num_beams)
        (λ t. ok (Json.obj (field (text "translated_text") (Json.str t) end)))

-- `json.loads` and `json.dumps` are parameters.
module _ (loads : Text → Option Json) (dumps : Json → Text) where
  unfoldable pub input_fn : (request_body content_type : Text) → Served InferenceRequest
  input_fn request_body content_type =
      if content_type =? content_type_json
      then elim (loads request_body) [
        | none ↦ value_error invalid_json
        | some payload ↦ parse_json payload
      ]
      else value_error unsupported_content_type

  unfoldable pub output_fn : Json → (accept : Text) → Served Text
  output_fn prediction accept =
      if accept =? content_type_json
      then ok (dumps prediction)
      else value_error unsupported_accept_type
