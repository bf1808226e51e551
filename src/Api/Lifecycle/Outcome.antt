-- ===== src/Api/Lifecycle/Outcome.antt =====
-- What one run of the Worker Lambda does to an open job, on every answer of the endpoint.
use es_kaq_translator_v.Base.{
  ℕ, ◌+◌, ◌≡◌, refl, true, Option, none, some, List, [], ◌∷◌, ◌++◌, ◌∙◌, length, list_beq,
}
use es_kaq_translator_v.Base.Dict.{Dict, lookup}
use es_kaq_translator_v.Text.{Text, text, text_eq}
use es_kaq_translator_v.Api.Result.{Result, ok, raise, continue, translation_service_error}
use es_kaq_translator_v.Api.Models.{TranslateRequest, TranslateResponse, direction_value}
use es_kaq_translator_v.Api.Dynamo.{Item, str}
use es_kaq_translator_v.Api.World.{Services, World, LogLine, required_name}
use es_kaq_translator_v.Api.Jobs.{request_of}
use es_kaq_translator_v.Api.Jobs.Record.{is_open, with_success, with_failure}
use es_kaq_translator_v.Api.Jobs.Guard.{stored, IsFresh, IsHealthy}
use es_kaq_translator_v.Api.Translation.{payload}
use es_kaq_translator_v.Api.Observability.{log_job_resolution, level_of}
use es_kaq_translator_v.Api.Lifecycle.Calls.{
  answered, get_job_input-stored, mark_succeeded-open, mark_failed-open, translate-answered,
}
use es_kaq_translator_v.Api.Worker

-- The invocation's event.
abbrev pub event_of : Text → Dict Text Text
event_of k = (text "job_id", k) ∷ []

-- How the run ends, and what it leaves of the job: a caught error is recorded as a failure, and any
-- other leaves the job open.
abbrev pub outcome : Result TranslateResponse → Item → Result (Unit {0}) × Item
outcome (ok r) item = (ok tt, with_success r.translation item)
outcome (raise (translation_service_error c m)) item = (ok tt, with_failure c m item)
outcome (raise e) item = (raise e, item)

-- The line that the run logs, if it logs one.
abbrev pub lines : Text → TranslateRequest → ℕ → Result TranslateResponse → List LogLine
lines k request n answer =
    let line : ℕ → Option Text → LogLine = λ code error. record {
      level = level_of error;
      job_id = k;
      direction = some (str (direction_value request.direction));
      input_length = some (length request.text);
      latency_ms = some n;
      status_code = code;
      error_type = error;
    } in
    elim answer [
      | ok r ↦ line 200 none ∷ []
      | raise (translation_service_error c m) ↦ line c (some Worker.error_name) ∷ []
      | raise e ↦ []
    ]

module _ (s : Services) (healthy : IsHealthy s) (k : Text) (request : TranslateRequest)
    (item : Item) (o : is_open item ≡ true) where
  abbrev Resolves :
      World s.dynamo → ℕ → Result TranslateResponse → Result (Unit {0}) × World s.dynamo → Type 0
  Resolves w n answer (r, w') =
      (r ≡ (outcome answer item).0)
      × (stored s w' k ≡ some (outcome answer item).1)
      × (w'.log ≡ lines k request n answer ++ w.log)
      × (w'.endpoint_calls ≡ w.endpoint_calls)

  resolve-outcome :
      (w : World s.dynamo) (n : ℕ) {name : Text}
      → required_name w.environ.table_name ≡ ok name
      → stored s w k ≡ some item
      → (answer : Result TranslateResponse)
      → Resolves w n answer (Worker.resolve s k request n answer w)
  unfolding Worker.resolve log_job_resolution
  resolve-outcome w n named e (ok result) =
      let (done, at, log, calls) = mark_succeeded-open s healthy w named k result.translation e o in
      (
        rw (done, continue) refl,
        rw (done, continue) at,
        rw (done, continue) (rw log refl),
        rw (done, continue) calls,
      )
  resolve-outcome w n named e (raise (translation_service_error c m)) =
      let (done, at, log, calls) = mark_failed-open s healthy w named k c m (rw e o) in
      (
        rw (done, continue) refl,
        rw (done, continue) (at ∙ rw e refl),
        rw (done, continue) (rw log refl),
        rw (done, continue) calls,
      )
  resolve-outcome w n named e (raise _) = (refl, e, refl, refl)

-- One run of the worker on an open job that holds a valid request: the endpoint is called once, and
-- its answer decides the rest. A translation is recorded as a success and logged with status 200; a
-- `TranslationServiceError` is recorded as a failure with its status code and message, and logged
-- with that code; any other exception ends the run, leaves the item as it is and logs nothing. The
-- table is healthy, the worker's read is up to date, and the names of the table and of the endpoint
-- are configured.
pub handler-outcome :
    (s : Services) (k : Text) (request : TranslateRequest) (item : Item) (w : World s.dynamo)
    {table endpoint : Text}
    → IsHealthy s
    → required_name w.environ.table_name ≡ ok table
    → required_name w.environ.endpoint_name ≡ ok endpoint
    → IsFresh s w k
    → stored s w k ≡ some item
    → is_open item ≡ true
    → request_of item ≡ ok request
    → let answer =
        answered s (s.invoke_endpoint w.endpoint_calls endpoint (s.dumps (payload request))) in
      let (r, w') = Worker.handler s (event_of k) w in
      (r ≡ (outcome answer item).0)
      × (stored s w' k ≡ some (outcome answer item).1)
      × (w'.log ≡ lines k request (s.latency_ms w.endpoint_calls) answer ++ w.log)
      × (w'.endpoint_calls ≡ w.endpoint_calls + 1)
unfolding Worker.handler Worker.work Worker.run_job lookup list_beq
handler-outcome s k request item w {table} {endpoint} healthy named at_endpoint fresh e o valid =
    rw (get_job_input-stored s w named k fresh e valid, translate-answered s request w at_endpoint)
      (resolve-outcome s healthy k request item o
        (record w { endpoint_calls = w.endpoint_calls + 1 }) _ named e
        (answered s (s.invoke_endpoint w.endpoint_calls endpoint (s.dumps (payload request)))))
