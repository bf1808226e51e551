-- ===== src/Api/Worker.antt =====
-- apps/api/app/worker_handler.py: the Worker Lambda.
use es_kaq_translator_v.Base.{ℕ, Option, none, some, length}
use es_kaq_translator_v.Base.Dict.{Dict, lookup}
use es_kaq_translator_v.Text.{Text, text, text_eq}
use es_kaq_translator_v.Api.Result.{
  Result, ok, raise, Exec, pure, throw, or_throw, ◌>>=◌, ◌>>◌, key_error, translation_service_error,
}
use es_kaq_translator_v.Api.Models.{TranslateRequest, TranslateResponse, direction_value}
use es_kaq_translator_v.Api.Dynamo.{str}
use es_kaq_translator_v.Api.World.{Services, World}
use es_kaq_translator_v.Api.Jobs.{get_job_input, mark_failed, mark_succeeded}
use es_kaq_translator_v.Api.Translation.{translate_via_sagemaker}
use es_kaq_translator_v.Api.Observability.{log_job_resolution}

-- `type(error).__name__`
abbrev pub error_name : Text
error_name = text "TranslationServiceError"

module _ (s : Services) where
  -- The last step, from what `translate_via_sagemaker` returned or raised: only its own error is
  -- caught.
  unfoldable pub resolve :
      Text → TranslateRequest → ℕ → Result TranslateResponse → Exec (World s.dynamo) (Unit {0})
  resolve job_id request latency (ok result) = do
    mark_succeeded s job_id result.translation
    log_job_resolution job_id (some (str (direction_value request.direction)))
        (some (length request.text)) (some latency) 200 none
  resolve job_id request latency (raise (translation_service_error status_code message)) = do
    mark_failed s job_id status_code message
    log_job_resolution job_id (some (str (direction_value request.direction)))
        (some (length request.text)) (some latency) status_code (some error_name)
  resolve job_id request latency (raise e) = throw e

  -- The `try` round the translation.
  unfoldable pub run_job : Text → TranslateRequest → Exec (World s.dynamo) (Unit {0})
  run_job job_id request w =
      let (result, w') = translate_via_sagemaker s request w in
      resolve job_id request (s.latency_ms w.endpoint_calls) result w'

  unfoldable pub work : Text → Option TranslateRequest → Exec (World s.dynamo) (Unit {0})
  work job_id none = pure tt
  work job_id (some request) = run_job job_id request

  unfoldable pub handler : Dict Text Text → Exec (World s.dynamo) (Unit {0})
  handler event = do
    job_id ← or_throw (lookup (text "job_id") event) (key_error (text "job_id"))
    request ← get_job_input s job_id
    work job_id request
