-- ===== src/Api/Main.antt =====
-- apps/api/app/main.py: the two routes, and the handlers of their exceptions.
use es_kaq_translator_v.Base.{ℕ, none, some, List, ◌=?◌, if◌then◌else◌}
use es_kaq_translator_v.Text.{Text, text, text_eq}
use es_kaq_translator_v.Api.Result.{Result, ok, raise, Exec, pure, lift, ◌>>=◌, ◌>>◌}
use es_kaq_translator_v.Api.Models.{
  TranslateRequest, pending, succeeded, failed, status_value, JobCreatedResponse, JobStatusResponse,
  ErrorResponse,
}
use es_kaq_translator_v.Api.Dynamo.{Item}
use es_kaq_translator_v.Api.World.{Services, World}
use es_kaq_translator_v.Api.Jobs.{
  create_job, get_job, invoke_worker, attr, as_text, string_of, to_int,
}
use es_kaq_translator_v.Api.Validation.{ErrorDetail, validation_error_message}

abbrev pub invalid_job_id_message : Text
invalid_job_id_message = text "El identificador del trabajo no es válido."

abbrev pub job_not_found_message : Text
job_not_found_message =
    text "No se encontró esa traducción. Puede que el enlace sea incorrecto o que haya expirado."

abbrev pub unexpected_error_message : Text
unexpected_error_message = text "Ocurrió un error inesperado."

-- A response: the status code of the route with its model, or a `JSONResponse` with an error body.
pub data Response (A : Type 0) : Type 0 where
  reply : (code : ℕ) → A → Response A
  error_reply : (code : ℕ) → ErrorResponse → Response A

-- `validation_exception_handler`
unfoldable pub validation_exception_handler : {A : Type 0} → List ErrorDetail → Response A
validation_exception_handler errors =
    error_reply 422 (record { error = validation_error_message errors })

-- `unhandled_exception_handler`: whatever a route raises becomes a 500
unfoldable pub unhandled_exception_handler : {A : Type 0} → Result (Response A) → Response A
unhandled_exception_handler (ok r) = r
unhandled_exception_handler (raise e) =
    error_reply 500 (record { error = unexpected_error_message })

module _ (s : Services) where
  unfoldable pub create_translate_job :
      TranslateRequest → Exec (World s.dynamo) (Response JobCreatedResponse)
  create_translate_job request = do
    job_id ← create_job s request
    invoke_worker s job_id
    pure (reply 202 (record { job_id = job_id }))

  -- `JobStatusResponse(status=SUCCEEDED, translation=job["translation"])`
  unfoldable pub succeeded_response : Item → Result JobStatusResponse
  succeeded_response job = elim (attr (text "translation") job) [
    | raise e ↦ raise e
    | ok v ↦ elim (as_text v) [
      | raise e ↦ raise e
      | ok t ↦
          ok (record { status = succeeded; translation = some t; status_code = none; error = none })
    ]
  ]

  -- `JobStatusResponse(status=FAILED, status_code=int(job["status_code"]), error=job["error"])`
  unfoldable pub failed_response : Item → Result JobStatusResponse
  failed_response job = elim (attr (text "status_code") job) [
    | raise e ↦ raise e
    | ok c ↦ elim (to_int s c) [
      | raise e ↦ raise e
      | ok code ↦ elim (attr (text "error") job) [
        | raise e ↦ raise e
        | ok m ↦ elim (as_text m) [
          | raise e ↦ raise e
          | ok message ↦ ok (record {
            status = failed;
            translation = none;
            status_code = some code;
            error = some message;
          })
        ]
      ]
    ]
  ]

  abbrev pub pending_response : JobStatusResponse
  pending_response = record {
    status = pending;
    translation = none;
    status_code = none;
    error = none;
  }

  -- The body of the route below the two early returns.
  unfoldable pub status_response : Item → Result JobStatusResponse
  status_response job = elim (attr (text "status") job) [
    | raise e ↦ raise e
    | ok v ↦
        if string_of v =? status_value succeeded
        then succeeded_response job
        else if string_of v =? status_value failed
        then failed_response job
        else ok pending_response
  ]

  unfoldable pub get_translate_job : Text → Exec (World s.dynamo) (Response JobStatusResponse)
  get_translate_job job_id =
      if s.is_uuid job_id
      then (do
        job ← get_job s job_id
        elim job [
          | none ↦ pure (error_reply 404 (record { error = job_not_found_message }))
          | some item ↦ do answer ← lift (status_response item); pure (reply 200 answer)
        ])
      else pure (error_reply 400 (record { error = invalid_job_id_message }))
