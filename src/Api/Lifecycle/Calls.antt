-- ===== src/Api/Lifecycle/Calls.antt =====
-- What the reads, the endpoint call and the terminal writes compute on a healthy table.
use es_kaq_translator_v.Base.{ℕ, ◌+◌, ◌≡◌, refl, true, some, ◌∙◌, ap, beq_refl}
use es_kaq_translator_v.Text.{Text, text_eq}
use es_kaq_translator_v.Api.Result.{Result, ok, and_then, lift-lift}
use es_kaq_translator_v.Api.Models.{TranslateRequest, TranslateResponse, JobStatusResponse}
use es_kaq_translator_v.Api.Dynamo.{Item, attributes, upserted}
use es_kaq_translator_v.Api.World.{Services, World, EndpointReply, required_name}
use es_kaq_translator_v.Api.Jobs.{
  table_name, read_item, get_job, get_job_input, request_of, unexpired, mark_succeeded, mark_failed,
  succeeded_fields, failed_fields,
}
use es_kaq_translator_v.Api.Jobs.Record.{
  is_open, with_success, with_failure, assign-succeeded, assign-failed,
}
use es_kaq_translator_v.Api.Jobs.Guard.{
  stored, IsFresh, IsHealthy, conditional_update_open, log-conditional_update,
  endpoint_calls-conditional_update,
}
use es_kaq_translator_v.Api.Translation.{
  payload, reply_body, read_body, invoke_endpoint, translate_via_sagemaker,
}
use es_kaq_translator_v.Api.Main.{reply, status_response, get_translate_job}

-- What the endpoint's reply means for the request: a translation, or the exception that is raised.
abbrev pub answered : (s : Services) → EndpointReply → Result TranslateResponse
answered s r = and_then (reply_body r) (read_body s)

module _ (s : Services) (w : World s.dynamo) {name : Text}
    (named : required_name w.environ.table_name ≡ ok name) (k : Text) (fresh : IsFresh s w k) where
  pub read_item-stored : read_item s k w ≡ (ok (stored s w k), w)
  unfolding read_item table_name
  read_item-stored = rw (named, fresh) refl

  pub get_job_input-stored :
      {item : Item} {request : TranslateRequest}
      → stored s w k ≡ some item
      → request_of item ≡ ok request
      → get_job_input s k w ≡ (ok (some request), w)
  unfolding get_job_input
  get_job_input-stored e r = rw (read_item-stored, e, r) refl

  pub get_job-stored :
      {item : Item} → stored s w k ≡ some item → get_job s k w ≡ (unexpired s w.now item, w)
  unfolding get_job
  get_job-stored e = rw (read_item-stored, e) refl

  pub poll-stored :
      {item : Item} {answer : JobStatusResponse}
      → s.is_uuid k ≡ true
      → stored s w k ≡ some item
      → unexpired s w.now item ≡ ok (some item)
      → status_response s item ≡ ok answer
      → get_translate_job s k w ≡ (ok (reply 200 answer), w)
  unfolding get_translate_job
  poll-stored u e live a = rw (u, get_job-stored e, live, a) refl

module _ (s : Services) (healthy : IsHealthy s) (w : World s.dynamo) {name : Text}
    (named : required_name w.environ.table_name ≡ ok name) (k : Text) where
  -- A success is written on an open job.
  pub mark_succeeded-open :
      (t : Text) {item : Item}
      → stored s w k ≡ some item
      → is_open item ≡ true
      → ((mark_succeeded s k t w).0 ≡ ok tt)
        × (stored s (mark_succeeded s k t w).1 k ≡ some (with_success t item))
        × ((mark_succeeded s k t w).1.log ≡ w.log)
        × ((mark_succeeded s k t w).1.endpoint_calls ≡ w.endpoint_calls)
  unfolding mark_succeeded
  mark_succeeded-open t {item} e o =
      let (done, at) = conditional_update_open s k (succeeded_fields t) w healthy named (rw e o) in
      (
        done,
        at k ∙ rw (beq_refl k, e) (ap some (assign-succeeded k t item)),
        log-conditional_update s k (succeeded_fields t) w,
        endpoint_calls-conditional_update s k (succeeded_fields t) w,
      )

  -- A failure is written on an open job, or on a new record if there is none.
  pub mark_failed-open :
      (c : ℕ) (m : Text)
      → is_open (attributes (stored s w k)) ≡ true
      → ((mark_failed s k c m w).0 ≡ ok tt)
        × (stored s (mark_failed s k c m w).1 k
            ≡ some (with_failure c m (upserted k (stored s w k))))
        × ((mark_failed s k c m w).1.log ≡ w.log)
        × ((mark_failed s k c m w).1.endpoint_calls ≡ w.endpoint_calls)
  unfolding mark_failed
  mark_failed-open c m o =
      let (done, at) = conditional_update_open s k (failed_fields c m) w healthy named o in
      (
        done,
        at k ∙ rw (beq_refl k) (ap some (assign-failed k c m _)),
        log-conditional_update s k (failed_fields c m) w,
        endpoint_calls-conditional_update s k (failed_fields c m) w,
      )

pub translate-answered :
    (s : Services) (request : TranslateRequest) (w : World s.dynamo) {name : Text}
    → required_name w.environ.endpoint_name ≡ ok name
    → translate_via_sagemaker s request w ≡ (
      answered s (s.invoke_endpoint w.endpoint_calls name (s.dumps (payload request))),
      record w { endpoint_calls = w.endpoint_calls + 1 },
    )
unfolding translate_via_sagemaker invoke_endpoint
translate-answered s request w {name} named = rw named (lift-lift (reply_body _) (read_body s) _)
