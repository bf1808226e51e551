-- ===== src/Api/Lifecycle/Tests.antt =====
-- The theorems on the life of a job at the table in memory, and runs of the handlers there.
use es_kaq_translator_v.Base.{◌≡◌, refl, none, some, [], ◌∷◌, ◌++◌, length, arith, list_beq}
use es_kaq_translator_v.Base.Dict.{lookup, insert}
use es_kaq_translator_v.Text.{Text, text, text_eq}
use es_kaq_translator_v.Api.Result.{ok, raise, key_error}
use es_kaq_translator_v.Api.Models.{
  TranslateRequest, es_to_cak, JobStatusResponse, succeeded, parse_direction, make_request,
}
use es_kaq_translator_v.Api.Dynamo.{Item, value_eq, holds, assign}
use es_kaq_translator_v.Api.World.{World, Services, required_name}
use es_kaq_translator_v.Api.Fake.{
  fake_dynamo, fake_services, fake-IsHealthy, world_of, update_item, key_of,
}
use es_kaq_translator_v.Api.Jobs.{
  new_item, request_of, attr, as_text, string_of, terminal_update, succeeded_fields, failed_fields,
  table_name, worker_function_name, uuid4, put_item, read_item, create_job, to_int, unexpired,
  get_job, get_job_input, try_update, conditional_update, mark_succeeded, mark_failed,
  worker_payload, note_invocation, invoke_worker,
}
use es_kaq_translator_v.Api.Observability.{level_of, log_job_resolution}
use es_kaq_translator_v.Api.Jobs.Record.{is_open, with_success}
use es_kaq_translator_v.Api.Jobs.Guard.{stored}
use es_kaq_translator_v.Api.Translation.{
  payload, invoke_endpoint, translate_via_sagemaker, reply_body, read_body, translated_text,
  unless_key_error, make_response,
}
use es_kaq_translator_v.Api.Json.{get_field}
use es_kaq_translator_v.Api.Main.{
  reply, create_translate_job, get_translate_job, unhandled_exception_handler, error_reply,
  unexpected_error_message,
}
use es_kaq_translator_v.Api.Lifecycle.{here, next, work, fail}
use es_kaq_translator_v.Api.Lifecycle.Calls.{answered}
use es_kaq_translator_v.Api.Lifecycle.Final.{Reach-keeps_terminal}
use es_kaq_translator_v.Api.Lifecycle.Outcome.{event_of, outcome, lines, handler-outcome}
use es_kaq_translator_v.Api.Lifecycle.RoundTrip.{submit-work-poll}
use es_kaq_translator_v.Api.Lifecycle.Failed.{
  envelope_of, after_failure, failure_line, remnant, handler-failed, handler-swept,
}
use es_kaq_translator_v.Api.Worker
use es_kaq_translator_v.Api.Failure

abbrev s : Services
s = fake_services

abbrev request : TranslateRequest
request = record { text = text "Buenos días"; direction = es_to_cak }

abbrev job : Text
job = text "job-1"

abbrev open_item : Item
open_item = new_item job 1000 request

abbrev done_item : Item
done_item = with_success (text "utz") open_item

abbrev open_world : World fake_dynamo
open_world = world_of ((job, open_item) ∷ [])

abbrev done_world : World fake_dynamo
done_world = world_of ((job, done_item) ∷ [])

-- The failure destination, a second run and a poll after a success.
Reach-keeps_terminal_example :
    stored s
      (Failure.handler s (envelope_of job) (Worker.handler s (event_of job) done_world).1).1
      job
    ≡ some done_item
unfolding is_open with_success new_item insert lookup list_beq value_eq
Reach-keeps_terminal_example =
    Reach-keeps_terminal s job done_item {w = done_world} refl refl
      (next (next here (work done_world (event_of job))) (fail _ (envelope_of job)))

handler-outcome_example :
    let answer = answered s (s.invoke_endpoint 0 (text "translator") (s.dumps (payload request))) in
    let (r, w') = Worker.handler s (event_of job) open_world in
    (r ≡ (outcome answer open_item).0)
    × (stored s w' job ≡ some (outcome answer open_item).1)
    × (w'.log ≡ lines job request 120 answer ++ [])
    × (w'.endpoint_calls ≡ 1)
unfolding is_open new_item lookup list_beq value_eq required_name request_of attr as_text string_of
    parse_direction make_request
handler-outcome_example =
    handler-outcome s job request open_item open_world fake-IsHealthy refl refl refl refl refl refl

abbrev translated : JobStatusResponse
translated = record {
  status = succeeded;
  translation = some (text "utz sq'ij");
  status_code = none;
  error = none;
}

-- All that the handlers compute with.
program : Unit {0}
unfolding required_name reply_body read_body translated_text unless_key_error make_response
    get_field list_beq lookup insert value_eq holds assign update_item key_of new_item request_of
    attr as_text string_of parse_direction make_request terminal_update succeeded_fields
    failed_fields table_name worker_function_name uuid4 put_item read_item create_job to_int
    unexpired get_job get_job_input try_update conditional_update mark_succeeded mark_failed
    worker_payload note_invocation invoke_worker payload invoke_endpoint translate_via_sagemaker
    Worker.resolve Worker.run_job Worker.work Worker.handler create_translate_job level_of
    log_job_resolution
program = tt

abbrev run_world : World fake_dynamo
run_world =
    (Worker.handler s (event_of (b'j' ∷ 7 ∷ [])) (create_translate_job s request (world_of [])).1).1

run_now : run_world.now ≡ 1000
unfolding program
run_now = refl

submit-work-poll_example :
    let (submission, w1) = create_translate_job s request (world_of []) in
    let (run, w2) = Worker.handler s (event_of (b'j' ∷ 7 ∷ [])) w1 in
    (submission ≡ ok (reply 202 (record { job_id = b'j' ∷ 7 ∷ [] })))
    × (run ≡ ok tt)
    × ((get_translate_job s (b'j' ∷ 7 ∷ []) w2).0 ≡ ok (reply 200 translated))
unfolding program
submit-work-poll_example =
    submit-work-poll s (world_of []) run_world request translated fake-IsHealthy refl refl refl refl
      (omega arith) (omega arith) refl refl here refl refl refl (omega (arith, run_now))

handler-failed_example :
    let (r, w') = Failure.handler s (envelope_of job) open_world in
    (r ≡ ok tt)
    × (stored s w' job ≡ some (after_failure open_item))
    × (w'.log
        ≡ failure_line job (lookup (text "direction") open_item) (length (text "Buenos días")) ∷ [])
unfolding required_name new_item lookup list_beq
handler-failed_example =
    handler-failed s open_world job (text "Buenos días") open_item 4600 fake-IsHealthy refl refl
      refl (omega arith) refl refl

-- What the failure destination leaves of the empty table.
abbrev swept_world : World fake_dynamo
swept_world = (Failure.handler s (envelope_of job) (world_of [])).1

swept_named : required_name swept_world.environ.table_name ≡ ok (text "jobs")
unfolding program Failure.handler Failure.log_failure
swept_named = refl

handler-swept_example :
    let (r, w') = Failure.handler s (envelope_of job) (world_of []) in
    (r ≡ raise (key_error (text "ttl")))
    × (stored s w' job ≡ some (remnant job))
    × (w'.log ≡ [])
    × (unhandled_exception_handler (get_translate_job s job swept_world).0
        ≡ error_reply 500 (record { error = unexpected_error_message }))
unfolding required_name lookup
handler-swept_example =
    handler-swept s (world_of []) swept_world job fake-IsHealthy refl refl refl refl here
      swept_named refl
