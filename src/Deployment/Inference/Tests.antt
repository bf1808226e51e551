-- ===== src/Deployment/Inference/Tests.antt =====
-- The theorems on the endpoint at a checkpoint that repeats its input, and runs of the hooks.
use es_kaq_translator_v.Base.{◌≡◌, refl, Option, some, List, [], ◌∷◌, ◌↔◌, ◌⊎◌, ◌≢◌, list_beq}
use es_kaq_translator_v.Text.{Text, text, text_eq, starts_with}
use es_kaq_translator_v.Text.Space.{strip, lstrip, rstrip, rstrip_cons, is_space}
use es_kaq_translator_v.Api.Json.{Json, Fields, end, field}
use es_kaq_translator_v.Api.Models.{TranslateRequest, es_to_cak}
use es_kaq_translator_v.Api.Result.{Result}
use es_kaq_translator_v.Api.World.{Services}
use es_kaq_translator_v.Api.Translation.{payload, read_body}
use es_kaq_translator_v.Api.Fake.{fake_services}
use es_kaq_translator_v.Base.Dict.{lookup}
use es_kaq_translator_v.Training.Direction.{
  tag_source_text, strip_leading_direction_tag, with_tag, without_tag, tag_of,
}
use es_kaq_translator_v.Deployment.Inference.{
  InferenceRequest, ok, value_error, empty_text, parse_request, parse_json, Checkpoint, translate,
  default_max_length, default_num_beams, served, on_ok, first_decoded,
}
use es_kaq_translator_v.Deployment.Inference.Contract.{IsRequest, parse_request_iff}
use es_kaq_translator_v.Deployment.Inference.Client.{
  received, respond, answer, parse-payload, respond-read_body,
}

abbrev request : TranslateRequest
request = record { text = text " Buenos días "; direction = es_to_cak }

abbrev fields : Fields
fields = field (text "source_lang") (Json.str (text "es")) (
    field (text "target_lang") (Json.str (text "cak"))
      (field (text "text") (Json.str (text "sol")) end))

abbrev parsed : InferenceRequest
parsed = record { source_lang = text "es"; target_lang = text "cak"; text = text "sol" }

parse_request_iff_example : (parse_request fields ≡ ok parsed) ↔ IsRequest fields parsed
parse_request_iff_example = parse_request_iff fields parsed

parse-payload_example :
    ((strip request.text ≡ []) × (parse_json (payload request) ≡ value_error empty_text))
    ⊎ ((strip request.text ≢ []) × (parse_json (payload request) ≡ ok (received request)))
parse-payload_example = parse-payload request

-- Its texts come back as they were encoded.
abbrev echo : Checkpoint
echo = record {
  Encoded = List Text;
  Ids = List Text;
  convert_tokens_to_ids = λ tag. 0;
  encode = λ texts n. texts;
  generate = λ batch bos n beams. text "__cak__ q'ij" ∷ batch;
  batch_decode = λ ids. ids;
}

-- The JSON of an answer is told from that of the request by being not empty.
unfoldable written : Json → Text
written (Json.obj (field k (Json.str t) end)) = 0 ∷ t
written _ = []

unfoldable read : Text → Option Json
read [] = some (payload request)
read (c ∷ t) = some (answer t)

abbrev services : Services
services = record fake_services { dumps = written; loads = read }

visible : strip request.text ≢ []
unfolding strip lstrip rstrip rstrip_cons is_space
visible = λ e. cc

respond-read_body_example :
    (t : Text) × (b : Text) × (translate echo
        (received request)
        default_max_length
        default_num_beams
      ≡ ok t)
    × (respond read written echo (written (payload request)) ≡ ok b)
    × (read_body services b ≡ Result.ok (record { translation = t }))
unfolding written read payload
respond-read_body_example =
    respond-read_body services echo request visible refl (λ t. refl) (λ e bos n beams. (_, e, refl))

program : Unit {0}
unfolding translate received tag_source_text strip_leading_direction_tag with_tag without_tag tag_of
    lookup served on_ok first_decoded list_beq starts_with lstrip is_space
program = let translated : translate echo (received request) 128 5 ≡ ok (text "q'ij") = refl in tt
