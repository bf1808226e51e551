-- ===== src/Api/Translation.antt =====
-- apps/api/app/translation.py: the call of the SageMaker endpoint.
use es_kaq_translator_v.Base.{◌+◌, none, some, ◌=?◌, if◌then◌else◌}
use es_kaq_translator_v.Text.{Text, text, text_eq}
use es_kaq_translator_v.Api.Result.{
  Result, ok, raise, Exec, lift, ◌>>=◌, key_error, type_error, validation_error,
  translation_service_error,
}
use es_kaq_translator_v.Api.Models.{
  Direction, es_to_cak, cak_to_es, TranslateRequest, TranslateResponse,
}
use es_kaq_translator_v.Api.Json.{Json, end, field, get_field}
use es_kaq_translator_v.Api.World.{
  Services, World, EndpointReply, body, client_failure, botocore_failure, required_name,
}

-- `_ENDPOINT_LANGS`
abbrev pub endpoint_langs : Direction → Text × Text
endpoint_langs es_to_cak = (text "es", text "cak")
endpoint_langs cak_to_es = (text "cak", text "es")

abbrev pub invalid_input_message : Text
invalid_input_message =
    text "No se pudo traducir el texto enviado. Verifica el contenido e inténtalo de nuevo."

abbrev pub unavailable_message : Text
unavailable_message =
    text "El servicio de traducción no está disponible en este momento. Inténtalo más tarde."

abbrev pub timeout_message : Text
timeout_message = text "El servicio de traducción tardó demasiado en responder. Inténtalo de nuevo."

-- The request body, before `json.dumps`.
unfoldable pub payload : TranslateRequest → Json
payload request =
    let (source_lang, target_lang) = endpoint_langs request.direction in
    Json.obj (
      field (text "source_lang") (Json.str source_lang) (
        field (text "target_lang") (Json.str target_lang)
          (field (text "text") (Json.str request.text) end)))

-- The two `except` clauses round the call.
unfoldable pub reply_body : EndpointReply → Result Text
reply_body (body b) = ok b
reply_body (client_failure code) =
    if code =? text "ModelError"
    then raise (translation_service_error 400 invalid_input_message)
    else raise (translation_service_error 502 unavailable_message)
reply_body botocore_failure = raise (translation_service_error 504 timeout_message)

-- `body["translated_text"]`: only an object can be read by a key
unfoldable pub translated_text : Json → Result Json
translated_text (Json.obj fields) = elim (get_field (text "translated_text") fields) [
  | none ↦ raise (key_error (text "translated_text"))
  | some v ↦ ok v
]
translated_text _ = raise type_error

-- `except (json.JSONDecodeError, KeyError)`
unfoldable pub unless_key_error : Result Json → Result Json
unless_key_error (ok v) = ok v
unless_key_error (raise (key_error k)) = raise (translation_service_error 502 unavailable_message)
unless_key_error (raise e) = raise e

-- `TranslateResponse(translation=translation)`
unfoldable pub make_response : Json → Result TranslateResponse
make_response (Json.str t) = ok (record { translation = t })
make_response _ = raise validation_error

module _ (s : Services) where
  -- What follows the call: the body is parsed, read and checked.
  unfoldable pub read_body : Text → Result TranslateResponse
  read_body b = elim (s.loads b) [
    | none ↦ raise (translation_service_error 502 unavailable_message)
    | some json ↦ elim (unless_key_error (translated_text json)) [
      | raise e ↦ raise e
      | ok v ↦ make_response v
    ]
  ]

  -- `client.invoke_endpoint(...)`
  unfoldable pub invoke_endpoint : Text → Json → Exec (World s.dynamo) EndpointReply
  invoke_endpoint name request w = (
    ok (s.invoke_endpoint w.endpoint_calls name (s.dumps request)),
    record w { endpoint_calls = w.endpoint_calls + 1 },
  )

  unfoldable pub translate_via_sagemaker :
      TranslateRequest → Exec (World s.dynamo) TranslateResponse
  translate_via_sagemaker request = do
    name ← λ w. (required_name w.environ.endpoint_name, w)
    response ← invoke_endpoint name (payload request)
    b ← lift (reply_body response)
    lift (read_body b)
