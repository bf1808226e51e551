-- ===== src/Api/Failure.antt =====
-- apps/api/app/failure_handler.py: the `onFailure` destination of the Worker Lambda.
use es_kaq_translator_v.Base.{ℕ, Option, none, some, length}
use es_kaq_translator_v.Base.Dict.{Dict, lookup}
use es_kaq_translator_v.Text.{Text, text, text_eq}
use es_kaq_translator_v.Api.Result.{
  Result, ok, raise, Exec, lift, or_throw, ◌>>=◌, ◌>>◌, key_error, type_error,
}
use es_kaq_translator_v.Api.Dynamo.{Value, str, num, Item}
use es_kaq_translator_v.Api.World.{Services, World}
use es_kaq_translator_v.Api.Jobs.{get_job, mark_failed}
use es_kaq_translator_v.Api.Observability.{log_job_resolution}

abbrev pub worker_failure_status_code : ℕ
worker_failure_status_code = 504

abbrev pub worker_failure_message : Text
worker_failure_message =
    text "El servicio de traducción tardó demasiado en responder. Inténtalo de nuevo."

abbrev pub worker_failure_error_type : Text
worker_failure_error_type = text "WorkerTimeoutOrCrash"

-- `job.get("direction") if job else None`
unfoldable pub logged_direction : Option Item → Option Value
logged_direction none = none
logged_direction (some job) = lookup (text "direction") job

-- `len(value)`
unfoldable pub value_length : Value → Result ℕ
value_length (str s) = ok (length s)
value_length (num n) = raise type_error

-- `len(job["text"]) if job and "text" in job else None`
unfoldable pub logged_length : Option Item → Result (Option ℕ)
logged_length none = ok none
logged_length (some job) = elim (lookup (text "text") job) [
  | none ↦ ok none
  | some v ↦ elim (value_length v) [ raise e ↦ raise e | ok n ↦ ok (some n) ]
]

module _ (s : Services) where
  -- What follows the write: the job is read back, for the log line.
  unfoldable pub log_failure : Text → Exec (World s.dynamo) (Unit {0})
  log_failure job_id = do
    job ← get_job s job_id
    input_length ← lift (logged_length job)
    log_job_resolution job_id (logged_direction job) input_length none worker_failure_status_code
        (some worker_failure_error_type)

  -- The destination's event is the envelope with the worker's own event under `requestPayload`.
  unfoldable pub handler : Dict Text (Dict Text Text) → Exec (World s.dynamo) (Unit {0})
  handler event = do
    request ← or_throw (lookup (text "requestPayload") event) (key_error (text "requestPayload"))
    job_id ← or_throw (lookup (text "job_id") request) (key_error (text "job_id"))
    mark_failed s job_id worker_failure_status_code worker_failure_message
    log_failure job_id
