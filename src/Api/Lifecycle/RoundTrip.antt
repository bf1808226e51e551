-- ===== src/Api/Lifecycle/RoundTrip.antt =====
-- From the submission of a request to the poll that reads its translation, or its failure.
use es_kaq_translator_v.Base.{
  ℕ, ◌+◌, ◌≤◌, ◌≡◌, refl, true, false, Option, none, some, ◌∷◌, ◌∙◌, ap, length, list_beq, arith,
  beq_refl, subst,
}
use es_kaq_translator_v.Base.Dict.{lookup, insert}
use es_kaq_translator_v.Text.{Text, text, text_eq}
use es_kaq_translator_v.Api.Result.{Result, ok, raise, translation_service_error}
use es_kaq_translator_v.Api.Models.{
  TranslateRequest, TranslateResponse, JobStatusResponse, succeeded, failed,
}
use es_kaq_translator_v.Api.Dynamo.{Item, str, returned, value_eq}
use es_kaq_translator_v.Api.World.{Services, World, required_name}
use es_kaq_translator_v.Api.Jobs.{
  create_job, put_item, new_item, uuid4, table_name, invoke_worker, note_invocation,
  worker_function_name, worker_payload, unexpired, to_int, attr, as_text, string_of,
}
use es_kaq_translator_v.Api.Jobs.Record.{is_open, with_success, with_failure, request_of-new_item}
use es_kaq_translator_v.Api.Jobs.Guard.{stored, IsFresh, IsHealthy}
use es_kaq_translator_v.Api.Translation.{payload}
use es_kaq_translator_v.Api.Main.{
  reply, create_translate_job, get_translate_job, status_response, succeeded_response,
  failed_response,
}
use es_kaq_translator_v.Api.Lifecycle.{Reach}
use es_kaq_translator_v.Api.Lifecycle.Final.{Reach-keeps_terminal}
use es_kaq_translator_v.Api.Lifecycle.Calls.{answered, poll-stored}
use es_kaq_translator_v.Api.Lifecycle.Outcome.{event_of, outcome, handler-outcome}
use es_kaq_translator_v.Api.Worker

-- What a poll tells of an answer that is recorded.
abbrev pub report : Result TranslateResponse → Option JobStatusResponse
report (ok r) = some (record {
  status = succeeded;
  translation = some r.translation;
  status_code = none;
  error = none;
})
report (raise (translation_service_error c m)) =
    some (record { status = failed; translation = none; status_code = some c; error = some m })
report (raise e) = none

module _ (s : Services) (healthy : IsHealthy s) (w : World s.dynamo)
    (request : TranslateRequest) where
  abbrev job : Text
  job = s.new_uuid w.uuids

  -- The table after the put.
  abbrev put_table : s.dynamo.Table
  put_table = (s.dynamo.put_item w.table (new_item job w.now request)).1

  abbrev created : World s.dynamo
  created = record w { uuids = w.uuids + 1; table = put_table }

  new_item-job : lookup (text "job_id") (new_item job w.now request) ≡ some (str job)
  unfolding new_item lookup list_beq
  new_item-job = refl

  stored-created : stored s created job ≡ some (new_item job w.now request)
  stored-created =
      s.dynamo.put_returned w.table (new_item job w.now request) job new_item-job (healthy.puts _ _)
        job
      ∙ rw (beq_refl job) refl

  create_job-created :
      {table : Text}
      → required_name w.environ.table_name ≡ ok table
      → create_job s request w ≡ (ok job, created)
  unfolding create_job uuid4 table_name put_item
  create_job-created t = rw (t, healthy.puts w.table (new_item job w.now request)) refl

  abbrev submitted : Text → World s.dynamo
  submitted worker = record created {
    invoke_calls = w.invoke_calls + 1;
    invocations = (worker, worker_payload s job) ∷ w.invocations;
  }

  -- The answer to the submission, and the world that it leaves.
  pub submit-submitted :
      {table worker : Text}
      → required_name w.environ.table_name ≡ ok table
      → required_name w.environ.worker_function_name ≡ ok worker
      → s.invoke w.invoke_calls ≡ returned tt
      → create_translate_job s request w
        ≡ (ok (reply 202 (record { job_id = job })), submitted worker)
  unfolding create_translate_job invoke_worker worker_function_name note_invocation
  submit-submitted t f i = rw (create_job-created t, f, i) refl

open_new : (j : Text) (now : ℕ) (r : TranslateRequest) → is_open (new_item j now r) ≡ true
unfolding is_open new_item lookup list_beq value_eq
open_new j now r = refl

-- An answer that is recorded closes the job.
closed_outcome :
    (j : Text) (now : ℕ) (r : TranslateRequest) (answer : Result TranslateResponse)
    {model : JobStatusResponse}
    → report answer ≡ some model
    → is_open (outcome answer (new_item j now r)).1 ≡ false
unfolding is_open new_item lookup insert list_beq value_eq with_success with_failure
closed_outcome j now r (ok a) h = refl
closed_outcome j now r (raise (translation_service_error c m)) h = refl
closed_outcome j now r (raise _) h = cc

returned_outcome :
    (answer : Result TranslateResponse) (item : Item) {model : JobStatusResponse}
    → report answer ≡ some model
    → (outcome answer item).0 ≡ ok tt
returned_outcome (ok a) item h = refl
returned_outcome (raise (translation_service_error c m)) item h = refl
returned_outcome (raise _) item h = cc

module _ (s : Services) (j : Text) (now : ℕ) (r : TranslateRequest) where
  unexpired-outcome :
      (later : ℕ) (answer : Result TranslateResponse)
      → later ≤ now + 3600
      → let item = (outcome answer (new_item j now r)).1 in unexpired s later item ≡ ok (some item)
  unfolding unexpired attr to_int new_item lookup insert list_beq with_success with_failure
  unexpired-outcome later (ok a) h = ground arith
  unexpired-outcome later (raise (translation_service_error c m)) h = ground arith
  unexpired-outcome later (raise _) h = ground arith

  status_response-outcome :
      (answer : Result TranslateResponse) {model : JobStatusResponse}
      → report answer ≡ some model
      → status_response s (outcome answer (new_item j now r)).1 ≡ ok model
  unfolding status_response succeeded_response failed_response as_text string_of attr to_int
      new_item lookup insert list_beq with_success with_failure
  status_response-outcome (ok a) h = cc
  status_response-outcome (raise (translation_service_error c m)) h = cc
  status_response-outcome (raise _) h = cc

-- A valid request is submitted, its job is run by the worker, and the endpoint's answer is one that
-- is recorded. Then the submission answers 202 with the job's identifier, the run returns, and any
-- poll within the hour, after whatever other handlers ran in between, answers 200 with the
-- translation or with the failure's status code and message. This holds where the worker's read of
-- the new item and that poll's read are up to date, which `GetItem` as the code calls it does not
-- promise, and where none of the submissions in between draws an identifier that is in the table.
-- The table is healthy, the environment is configured, Lambda accepts the invocation, and
-- `uuid.UUID` accepts what `uuid4` returned.
pub submit-work-poll :
    (s : Services) (w w' : World s.dynamo) (request : TranslateRequest) (model : JobStatusResponse)
    {table worker endpoint table' : Text}
    → IsHealthy s
    → required_name w.environ.table_name ≡ ok table
    → required_name w.environ.worker_function_name ≡ ok worker
    → required_name w.environ.endpoint_name ≡ ok endpoint
    → s.invoke w.invoke_calls ≡ returned tt
    → 1 ≤ length request.text
    → length request.text ≤ 2000
    → report (answered s (s.invoke_endpoint w.endpoint_calls endpoint (s.dumps (payload request))))
      ≡ some model
    → let j = s.new_uuid w.uuids in
      let (submission, w1) = create_translate_job s request w in
      let (run, w2) = Worker.handler s (event_of j) w1 in
      IsFresh s w1 j
      → Reach s w2 w'
      → IsFresh s w' j
      → required_name w'.environ.table_name ≡ ok table'
      → s.is_uuid j ≡ true
      → w'.now ≤ w.now + 3600
      → (submission ≡ ok (reply 202 (record { job_id = j })))
        × (run ≡ ok tt)
        × ((get_translate_job s j w').0 ≡ ok (reply 200 model))
submit-work-poll s w w' request model {worker} {endpoint} healthy t f p i lo hi recorded read reach
      polled_read t' u live =
    let j : Text = s.new_uuid w.uuids in
    let new : Item = new_item j w.now request in
    let w1 : World s.dynamo = submitted s healthy w request worker in
    let answer : Result TranslateResponse =
      answered s (s.invoke_endpoint w.endpoint_calls endpoint (s.dumps (payload request))) in
    let sub : create_translate_job s request w ≡ (ok (reply 202 (record { job_id = j })), w1) =
      submit-submitted s healthy w request t f i in
    let (ran, at, _, _) =
      handler-outcome s j request new w1 healthy t p (subst (λ x. IsFresh s x.1 j) sub read)
        (stored-created s healthy w request) (open_new j w.now request)
        (request_of-new_item j w.now request lo hi) in
    let last : stored s w' j ≡ some (outcome answer new).1 =
      Reach-keeps_terminal s j (outcome answer new).1
        (closed_outcome j w.now request answer recorded) at
        (subst (λ x. Reach s (Worker.handler s (event_of j) x.1).1 w') sub reach) in
    let polled =
      poll-stored s w' t' j polled_read u last
        (unexpired-outcome s j w.now request w'.now answer live)
        (status_response-outcome s j w.now request answer recorded) in
    (
      ap (λ x. x.0) sub,
      ap (λ x. (Worker.handler s (event_of j) x.1).0) sub
          ∙ ran
          ∙ returned_outcome answer new recorded,
      ap (λ x. x.0) polled,
    )
