-- ===== src/Api/Lifecycle/Final.antt =====
-- apps/api, all handlers: items with a terminal status along any sequence of steps.
use es_kaq_translator_v.Base.{
  ◌+◌, ◌≡◌, refl, false, Option, none, some, inl, inr, Bool-cases, ◌∙◌, ◌≢◌, ap, beq-false_of_ne,
  list_beq,
}
use es_kaq_translator_v.Base.Dict.{Dict, lookup}
use es_kaq_translator_v.Text.{Text, text, text_eq}
use es_kaq_translator_v.Api.Result.{
  Result, Result-cases, ok, raise, continue-pure, translation_service_error,
}
use es_kaq_translator_v.Api.Models.{TranslateRequest, TranslateResponse}
use es_kaq_translator_v.Api.Dynamo.{str, Item, Reply, returned, refused}
use es_kaq_translator_v.Api.World.{Services, World, required_name}
use es_kaq_translator_v.Api.Jobs.{
  mark_failed, mark_succeeded, table_name, read_item, get_job, get_job_input, create_job, put_item,
  new_item, invoke_worker, note_invocation, worker_payload, worker_function_name, uuid4,
}
use es_kaq_translator_v.Api.Jobs.Record.{is_open}
use es_kaq_translator_v.Api.Jobs.Guard.{stored, Reply-cases}
use es_kaq_translator_v.Api.Translation.{
  translate_via_sagemaker, invoke_endpoint, reply_body, payload,
}
use es_kaq_translator_v.Api.Observability.{log_job_resolution}
use es_kaq_translator_v.Api.Main.{create_translate_job, get_translate_job}
use es_kaq_translator_v.Api.Lifecycle.{Step, submit, work, fail, poll, pass, Reach, here, next}
use es_kaq_translator_v.Api.Lifecycle.Keeps.{
  Keeps, continue-Keeps, Keeps-of_table, >>=-Keeps, lift-Keeps, pure-Keeps, or_throw-Keeps,
  conditional_update-Keeps,
}
use es_kaq_translator_v.Api.Worker
use es_kaq_translator_v.Api.Failure

module _ (s : Services) (k : Text) (item : Item) (closed : is_open item ≡ false) where
  read_item-Keeps : (j : Text) → Keeps s k item (read_item s j)
  unfolding read_item table_name
  read_item-Keeps j = Keeps-of_table s k item (read_item s j) λ w.
      elim (Result-cases (required_name w.environ.table_name)) [
        | inl (n, e) ↦ rw e refl
        | inr (x, e) ↦ rw e refl
      ]

  get_job-Keeps : (j : Text) → Keeps s k item (get_job s j)
  unfolding get_job
  get_job-Keeps j =
      >>=-Keeps s k item (read_item s j) _ (read_item-Keeps j)
        (elim [ none ↦ pure-Keeps s k item none | some i ↦ record { at = λ w h. h } ])

  get_job_input-Keeps : (j : Text) → Keeps s k item (get_job_input s j)
  unfolding get_job_input
  get_job_input-Keeps j = >>=-Keeps s k item (read_item s j) _ (read_item-Keeps j) (elim [
    | none ↦ pure-Keeps s k item none
    | some i ↦ >>=-Keeps s k item _ _ (lift-Keeps s k item _) (λ a. pure-Keeps s k item _)
  ])

  mark_succeeded-Keeps : (j t : Text) → Keeps s k item (mark_succeeded s j t)
  unfolding mark_succeeded
  mark_succeeded-Keeps j t = conditional_update-Keeps s k item closed j _

  mark_failed-Keeps : (j : Text) (c : _) (m : Text) → Keeps s k item (mark_failed s j c m)
  unfolding mark_failed
  mark_failed-Keeps j c m = conditional_update-Keeps s k item closed j _

  log-Keeps :
      (j : Text) (d : _) (l t : _) (c : _) (e : _) → Keeps s k item (log_job_resolution j d l t c e)
  unfolding log_job_resolution
  log-Keeps j d l t c e = record { at = λ w h. h }

  resolve-Keeps :
      (j : Text) (r : TranslateRequest) (n : _) (result : Result TranslateResponse)
      → Keeps s k item (Worker.resolve s j r n result)
  unfolding Worker.resolve
  resolve-Keeps j r n (ok result) =
      >>=-Keeps s k item _ _ (mark_succeeded-Keeps j _) (λ u. log-Keeps j _ _ _ _ _)
  resolve-Keeps j r n (raise (translation_service_error c m)) =
      >>=-Keeps s k item _ _ (mark_failed-Keeps j c m) (λ u. log-Keeps j _ _ _ _ _)
  resolve-Keeps j r n (raise _) = record { at = λ w h. h }

  translate-Keeps : (r : TranslateRequest) → Keeps s k item (translate_via_sagemaker s r)
  unfolding translate_via_sagemaker invoke_endpoint
  translate-Keeps r = record {
    at = λ w h. elim (Result-cases (required_name w.environ.endpoint_name)) [
      | inl (n, e) ↦
          rw e
            (elim (Result-cases
              (reply_body (s.invoke_endpoint w.endpoint_calls n (s.dumps (payload r))))) [
                | inl (b, f) ↦ rw f h
                | inr (x, f) ↦ rw f h
              ])
      | inr (x, e) ↦ rw e h
    ];
  }

  work-Keeps : (j : Text) (o : Option TranslateRequest) → Keeps s k item (Worker.work s j o)
  unfolding Worker.work Worker.run_job
  work-Keeps j none = pure-Keeps s k item tt
  work-Keeps j (some r) = record {
    at = λ w h.
        (resolve-Keeps j r _ (translate_via_sagemaker s r w).0).at _ ((translate-Keeps r).at w h);
  }

  worker-Keeps : (event : Dict Text Text) → Keeps s k item (Worker.handler s event)
  unfolding Worker.handler
  worker-Keeps event =
      >>=-Keeps s k item _ _ (or_throw-Keeps s k item (lookup (text "job_id") event) _)
        λ j. >>=-Keeps s k item _ _ (get_job_input-Keeps j) λ o. work-Keeps j o

  failure-Keeps : (event : Dict Text (Dict Text Text)) → Keeps s k item (Failure.handler s event)
  unfolding Failure.handler Failure.log_failure
  failure-Keeps event =
      >>=-Keeps s k item _ _ (or_throw-Keeps s k item (lookup (text "requestPayload") event) _) λ r.
        >>=-Keeps s k item _ _ (or_throw-Keeps s k item (lookup (text "job_id") r) _) λ j.
          >>=-Keeps s k item _ _ (mark_failed-Keeps j _ _) λ u.
            >>=-Keeps s k item _ _ (get_job-Keeps j)
              λ job. >>=-Keeps s k item _ _ (lift-Keeps s k item _) λ n. log-Keeps j _ _ _ _ _

  poll-Keeps : (j : Text) → Keeps s k item (get_translate_job s j)
  unfolding get_translate_job
  poll-Keeps j = elim (Bool-cases (s.is_uuid j)) [
    | inl e ↦ rw e (
        >>=-Keeps s k item _ _ (get_job-Keeps j) (elim [
          | none ↦ pure-Keeps s k item _
          | some i ↦ >>=-Keeps s k item _ _ (lift-Keeps s k item _) λ a. pure-Keeps s k item _
        ]))
    | inr e ↦ rw e (pure-Keeps s k item _)
  ]

  -- A put under another key.
  put-other :
      (w : World s.dynamo) (j : Text) (i : Item)
      → lookup (text "job_id") i ≡ some (str j)
      → j ≢ k
      → stored s (put_item s i w).1 k ≡ stored s w k
  unfolding put_item
  put-other w j i named other = elim (Reply-cases (s.dynamo.put_item w.table i).0) [
    | inl e ↦ s.dynamo.put_returned w.table i j named e k ∙ rw (beq-false_of_ne j k other) refl
    | inr (c, e) ↦ s.dynamo.put_refused w.table i c e k
  ]

  note_invocation-Keeps :
      (n p : Text) (answer : Reply (Unit {0})) → Keeps s k item (note_invocation s n p answer)
  unfolding note_invocation
  note_invocation-Keeps n p (returned u) = record { at = λ w h. h }
  note_invocation-Keeps n p (refused c) = record { at = λ w h. h }

  invoke_worker-Keeps : (j : Text) → Keeps s k item (invoke_worker s j)
  unfolding invoke_worker worker_function_name
  invoke_worker-Keeps j = record {
    at = λ w h. elim (Result-cases (required_name w.environ.worker_function_name)) [
      | inl (n, e) ↦
          rw e ((note_invocation-Keeps n (worker_payload s j) (s.invoke w.invoke_calls)).at w h)
      | inr (x, e) ↦ rw e h
    ];
  }

  named :
      (j : Text) (r : TranslateRequest) (now : _)
      → lookup (text "job_id") (new_item j now r) ≡ some (str j)
  unfolding new_item lookup list_beq
  named j r now = refl

  create_job-keeps :
      (w : World s.dynamo) (r : TranslateRequest)
      → stored s w (s.new_uuid w.uuids) ≡ none
      → stored s w k ≡ some item
      → stored s (create_job s r w).1 k ≡ some item
  unfolding create_job uuid4 table_name
  create_job-keeps w r fresh h = elim (Result-cases (required_name w.environ.table_name)) [
    | inl (n, e) ↦
        let w1 = record w { uuids = w.uuids + 1 } in
        let j = s.new_uuid w.uuids in
        let i = new_item j w.now r in
        rw e (
          ap (λ (x : World s.dynamo). stored s x k)
            (continue-pure (put_item s i w1).0 j (put_item s i w1).1)
          ∙ put-other w1 j i (named j r w.now) (λ same. cc (ap (stored s w) same))
          ∙ h)
    | inr (x, e) ↦ rw e h
  ]

  submit-keeps :
      (w : World s.dynamo) (r : TranslateRequest)
      → stored s w (s.new_uuid w.uuids) ≡ none
      → stored s w k ≡ some item
      → stored s (create_translate_job s r w).1 k ≡ some item
  unfolding create_translate_job
  submit-keeps w r fresh h =
      (continue-Keeps s k item (create_job s r w).0 _ λ j.
          >>=-Keeps s k item (invoke_worker s j) _ (invoke_worker-Keeps j)
            λ u. pure-Keeps s k item _).at
        (create_job s r w).1 (create_job-keeps w r fresh h)

  Step-keeps :
      {w w' : World s.dynamo} → Step s w w' → stored s w k ≡ some item → stored s w' k ≡ some item
  Step-keeps (submit w r fresh) h = submit-keeps w r fresh h
  Step-keeps (work w event) h = (worker-Keeps event).at w h
  Step-keeps (fail w event) h = (failure-Keeps event).at w h
  Step-keeps (poll w j) h = (poll-Keeps j).at w h
  Step-keeps (pass w n) h = h

-- Once an item has a terminal status, every later sequence of submissions, worker runs, failure
-- destinations, polls and waits leaves exactly that item under its key, provided that `uuid4` draws
-- no identifier that is in the table.
pub Reach-keeps_terminal :
    (s : Services) (k : Text) (item : Item) {w w' : World s.dynamo}
    → is_open item ≡ false
    → stored s w k ≡ some item
    → Reach s w w'
    → stored s w' k ≡ some item
Reach-keeps_terminal s k item closed h here = h
Reach-keeps_terminal s k item closed h (next r step) =
    Step-keeps s k item closed step (Reach-keeps_terminal s k item closed h r)
