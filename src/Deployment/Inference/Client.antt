-- ===== src/Deployment/Inference/Client.antt =====
-- The endpoint, together with its client in apps/api/app/translation.py.
use es_kaq_translator_v.Base.{
  ℕ, ◌≡◌, refl, ◌∙◌, Option, some, List, [], ◌∷◌, ◌++◌, if◌then◌else◌, list_beq, ◌≢◌, ◌⊎◌, inl, inr,
  Bool-cases, length, drop,
}
use es_kaq_translator_v.Base.Dict.{lookup}
use es_kaq_translator_v.Text.{Text, text, text_eq, starts_with}
use es_kaq_translator_v.Text.Space.{strip, lstrip}
use es_kaq_translator_v.Api.Json.{Json, end, field, get_field}
use es_kaq_translator_v.Api.Models.{Direction, es_to_cak, cak_to_es, TranslateRequest}
use es_kaq_translator_v.Api.Result.{Result}
use es_kaq_translator_v.Api.World.{Services}
use es_kaq_translator_v.Api.Translation.{
  endpoint_langs, payload, read_body, translated_text, unless_key_error, make_response,
}
use es_kaq_translator_v.Training.Direction.{
  Outcome, tag_of, with_tag, tag_source_text, strip_leading_direction_tag, without_tag,
}
use es_kaq_translator_v.Training.Direction
use es_kaq_translator_v.Deployment.Inference.Contract.{Text-cases}
use es_kaq_translator_v.Deployment.Inference.{
  InferenceRequest, Served, ok, value_error, empty_text, on_ok, served, supported, with_text,
  check_fields, parse_request, parse_json, Checkpoint, translate, predict_fn, input_fn, output_fn,
  first_decoded, content_type_json, default_max_length, default_num_beams,
}

-- What the endpoint makes of a request of the client.
unfoldable pub received : TranslateRequest → InferenceRequest
received r =
    let (source, target) = endpoint_langs r.direction in
    record { source_lang = source; target_lang = target; text = strip r.text }

-- The serving of one request, as the toolkit calls the hooks.
unfoldable pub respond : (Text → Option Json) → (Json → Text) → Checkpoint → Text → Served Text
respond loads dumps ch request_body =
    on_ok (input_fn loads dumps request_body content_type_json) (λ request.
      on_ok (predict_fn ch request)
        (λ prediction. output_fn loads dumps prediction content_type_json))

languages_parsed :
    (t : Text) (d : Direction)
    → parse_json (payload (record { text = t; direction = d }))
      ≡ with_text (endpoint_langs d).0 (endpoint_langs d).1 (Json.str t)
unfolding payload parse_json parse_request get_field check_fields supported list_beq
languages_parsed t es_to_cak = refl
languages_parsed t cak_to_es = refl

-- Every request of the client is parsed to its languages and its stripped text, unless that text
-- is empty: then, and only then, the endpoint refuses it.
pub parse-payload :
    (r : TranslateRequest)
    → ((strip r.text ≡ []) × (parse_json (payload r) ≡ value_error empty_text))
      ⊎ ((strip r.text ≢ []) × (parse_json (payload r) ≡ ok (received r)))
unfolding with_text received
parse-payload r = elim (Text-cases (strip r.text)) [
  | inl no_text ↦ inl (no_text, languages_parsed r.text r.direction ∙ rw (no_text, with_text) refl)
  | inr (c, s, e) ↦
      inr ((λ no_text. cc), languages_parsed r.text r.direction ∙ rw (e, with_text) refl)
]

-- A language of the client has a tag.
client_tag : (d : Direction) → (tag : Text) × (tag_of (endpoint_langs d).1 ≡ Direction.ok tag)
unfolding tag_of lookup list_beq
client_tag es_to_cak = (_, refl)
client_tag cak_to_es = (_, refl)

-- A decoded text without the tag at its start.
unfoldable pub untagged : (tag t : Text) → Text
untagged tag t = if starts_with t tag then lstrip (drop (length tag) t) else t

first_decoded-untagged :
    (language tag t : Text) (ts : List Text)
    → tag_of language ≡ Direction.ok tag
    → first_decoded language (t ∷ ts) ≡ ok (untagged tag t)
unfolding first_decoded served strip_leading_direction_tag without_tag untagged
first_decoded-untagged language tag t ts e = elim (Bool-cases (starts_with t tag)) [
  | inl tagged ↦ rw (e, tagged) refl
  | inr bare ↦ rw (e, bare) refl
]

translate-received :
    (ch : Checkpoint) (r : TranslateRequest) (max_length num_beams : ℕ)
    → ((e : ch.Encoded) (bos : ℕ)
        → (t : Text) × (ts : List Text) × (ch.batch_decode (ch.generate e bos max_length num_beams)
            ≡ t ∷ ts))
    → (t : Text) × (translate ch (received r) max_length num_beams ≡ ok t)
unfolding translate received tag_source_text with_tag served on_ok
translate-received ch r max_length num_beams h =
    let (tag, e) = client_tag r.direction in
    let (t, ts, decoded) =
      h (ch.encode ((tag ++ (32 ∷ strip r.text)) ∷ []) max_length) (ch.convert_tokens_to_ids tag) in
    (untagged tag t, rw (e, decoded) (first_decoded-untagged _ tag t ts e))

-- The body that answers with a translation.
abbrev pub answer : Text → Json
answer t = Json.obj (field (text "translated_text") (Json.str t) end)

read_body-answer :
    (s : Services) (b t : Text)
    → s.loads b ≡ some (answer t)
    → read_body s b ≡ Result.ok (record { translation = t })
unfolding read_body translated_text get_field unless_key_error make_response list_beq
read_body-answer s b t h = rw (h, read_body) refl

-- A request of the client whose text is more than white space is served from end to end: if the
-- JSON of the request and that of every answer read back as they were written, and the model decodes
-- to at least one text, then the endpoint answers with a body that the client reads as the
-- translation made by `translate` of the request's languages and stripped text.
pub respond-read_body :
    (s : Services) (ch : Checkpoint) (r : TranslateRequest)
    → strip r.text ≢ []
    → s.loads (s.dumps (payload r)) ≡ some (payload r)
    → ((t : Text) → s.loads (s.dumps (answer t)) ≡ some (answer t))
    → ((e : ch.Encoded) (bos max_length num_beams : ℕ)
        → (t : Text) × (ts : List Text) × (ch.batch_decode (ch.generate e bos max_length num_beams)
            ≡ t ∷ ts))
    → (t : Text) × (b : Text) × (translate ch (received r) default_max_length default_num_beams
        ≡ ok t)
      × (respond s.loads s.dumps ch (s.dumps (payload r)) ≡ ok b)
      × (read_body s b ≡ Result.ok (record { translation = t }))
unfolding respond input_fn output_fn predict_fn on_ok list_beq
respond-read_body s ch r visible reads_request reads_answer decodes =
    let (t, translated) = translate-received ch r _ _ (λ e bos. decodes e bos _ _) in
    elim (parse-payload r) [
      | inl (no_text, refused) ↦ elim (visible no_text) [ ]
      | inr (some_text, parsed) ↦ (
        t,
        s.dumps (answer t),
        translated,
        rw (reads_request, parsed, translated) refl,
        read_body-answer s _ t (reads_answer t),
      )
    ]
