-- ===== src/Api/Jobs.antt =====
-- apps/api/app/jobs.py: the store of translate jobs.
pub mod Guard
pub mod Record
use es_kaq_translator_v.Base.{
  ℕ, ◌+◌, ◌*◌, ◌≡◌, Bool, true, false, Option, none, some, List, [], ◌∷◌, ◌++◌, map, if◌then◌else◌,
  ◌=?◌, ltb,
}
use es_kaq_translator_v.Base.Dict.{Dict, lookup, insert}
use es_kaq_translator_v.Text.{Text, text, text_eq}
use es_kaq_translator_v.Api.Result.{
  Result, ok, raise, Exec, pure, throw, lift, gets, modify, or_throw, ◌>>=◌, ◌>>◌, runtime_error,
  client_error, key_error, value_error, validation_error,
}
use es_kaq_translator_v.Api.Models.{
  Direction, direction_value, parse_direction, TranslateRequest, make_request, JobStatus, pending,
  succeeded, failed, status_value,
}
use es_kaq_translator_v.Api.Json.{Json, end, field}
use es_kaq_translator_v.Api.Json
use es_kaq_translator_v.Api.Dynamo.{
  Dynamo, Reply, returned, refused, Value, str, num, Item, UpdateRequest, attribute_not_exists,
  equals, either, conditional_check_failed,
}
use es_kaq_translator_v.Api.World.{Services, World, required_name}

abbrev pub job_ttl_seconds : ℕ
job_ttl_seconds = 60 * 60

-- The value of an attribute that has to be a string, or a number.
unfoldable pub as_text : Value → Result Text
as_text (str s) = ok s
as_text (num n) = raise validation_error

-- The string of an attribute; no status or direction has the value of a number.
unfoldable pub string_of : Value → Text
string_of (str s) = s
string_of (num n) = []

-- `item[key]`
unfoldable pub attr : Text → Item → Result Value
attr key item = elim (lookup key item) [ none ↦ raise (key_error key) | some v ↦ ok v ]

-- The record that `create_job` puts.
unfoldable pub new_item : Text → ℕ → TranslateRequest → Item
new_item job_id now request =
    (text "job_id", str job_id)
    ∷ (text "status", str (status_value pending))
    ∷ (text "text", str request.text)
    ∷ (text "direction", str (direction_value request.direction))
    ∷ (text "ttl", num (now + job_ttl_seconds))
    ∷ []

-- The placeholders `#key` and `:key`.
abbrev pub name_placeholder : Text → Text
name_placeholder key = b'#' ∷ key

abbrev pub value_placeholder : Text → Text
value_placeholder key = b':' ∷ key

-- The arguments of the guarded update: `fields` in order, and the condition's own placeholders.
unfoldable pub terminal_update : Text → Dict Text Value → UpdateRequest
terminal_update job_id fields = record {
  key = job_id;
  sets = map (λ f. (name_placeholder f.0, value_placeholder f.0)) fields;
  names =
      insert (name_placeholder (text "status")) (text "status")
        (map (λ f. (name_placeholder f.0, f.0)) fields);
  values =
      insert (text ":pending_status") (str (status_value pending))
        (map (λ f. (value_placeholder f.0, f.1)) fields);
  condition =
      either (attribute_not_exists (name_placeholder (text "status")))
        (equals (name_placeholder (text "status")) (text ":pending_status"));
}

unfoldable pub succeeded_fields : Text → Dict Text Value
succeeded_fields translation =
    (text "status", str (status_value succeeded)) ∷ (text "translation", str translation) ∷ []

unfoldable pub failed_fields : ℕ → Text → Dict Text Value
failed_fields status_code error =
    (text "status", str (status_value failed))
    ∷ (text "status_code", num status_code)
    ∷ (text "error", str error)
    ∷ []

-- `TranslateRequest(text=item["text"], direction=Direction(item["direction"]))`
unfoldable pub request_of : Item → Result TranslateRequest
request_of item = elim (attr (text "text") item) [
  | raise e ↦ raise e
  | ok t ↦ elim (attr (text "direction") item) [
    | raise e ↦ raise e
    | ok d ↦ elim (parse_direction (string_of d)) [
      | raise e ↦ raise e
      | ok direction ↦ elim (as_text t) [
        | raise e ↦ raise e
        | ok words ↦ make_request words direction
      ]
    ]
  ]
]

module _ (s : Services) where
  -- `_table_name()`, which every access to the table evaluates first
  unfoldable pub table_name : Exec (World s.dynamo) Text
  table_name w = (required_name w.environ.table_name, w)

  unfoldable pub worker_function_name : Exec (World s.dynamo) Text
  worker_function_name w = (required_name w.environ.worker_function_name, w)

  unfoldable pub uuid4 : Exec (World s.dynamo) Text
  uuid4 w = (ok (s.new_uuid w.uuids), record w { uuids = w.uuids + 1 })

  abbrev of_reply : {A : Type 0} → Reply A → Result A
  of_reply (returned a) = ok a
  of_reply (refused code) = raise (client_error code)

  unfoldable pub put_item : Item → Exec (World s.dynamo) (Unit {0})
  put_item item w =
      let (r, t) = s.dynamo.put_item w.table item in (of_reply r, record w { table = t })

  unfoldable pub read_item : Text → Exec (World s.dynamo) (Option Item)
  read_item job_id = do table_name; λ w. (of_reply (s.dynamo.get_item w.table w.now job_id), w)

  unfoldable pub create_job : TranslateRequest → Exec (World s.dynamo) Text
  create_job request = do
    job_id ← uuid4
    now ← gets (λ w. w.now)
    table_name
    put_item (new_item job_id now request)
    pure job_id

  -- `int(value)`
  unfoldable pub to_int : Value → Result ℕ
  to_int (num n) = ok n
  to_int (str t) = elim (s.int_of t) [ none ↦ raise value_error | some n ↦ ok n ]

  unfoldable pub unexpired : ℕ → Item → Result (Option Item)
  unexpired now item = elim (attr (text "ttl") item) [
    | raise e ↦ raise e
    | ok v ↦ elim (to_int v) [
      | raise e ↦ raise e
      | ok ttl ↦ ok (if ltb ttl now then none else some item)
    ]
  ]

  unfoldable pub get_job : Text → Exec (World s.dynamo) (Option Item)
  get_job job_id = do
    item ← read_item job_id
    elim item [ none ↦ pure none | some i ↦ λ w. (unexpired w.now i, w) ]

  unfoldable pub get_job_input : Text → Exec (World s.dynamo) (Option TranslateRequest)
  get_job_input job_id = do
    item ← read_item job_id
    elim item [ none ↦ pure none | some i ↦ do request ← lift (request_of i); pure (some request) ]

  -- `except ClientError`: a failed condition is passed over, any other error is raised again
  abbrev unless_check_failed : Reply (Unit {0}) → Result (Unit {0})
  unless_check_failed (returned u) = ok u
  unless_check_failed (refused code) =
      if code =? conditional_check_failed then ok tt else raise (client_error code)

  unfoldable pub try_update : UpdateRequest → Exec (World s.dynamo) (Unit {0})
  try_update r w =
      let (answer, t) = s.dynamo.update_item w.table r in
      (unless_check_failed answer, record w { table = t })

  unfoldable pub conditional_update : Text → Dict Text Value → Exec (World s.dynamo) (Unit {0})
  conditional_update job_id fields = do table_name; try_update (terminal_update job_id fields)

  unfoldable pub mark_succeeded : Text → Text → Exec (World s.dynamo) (Unit {0})
  mark_succeeded job_id translation = conditional_update job_id (succeeded_fields translation)

  unfoldable pub mark_failed : Text → ℕ → Text → Exec (World s.dynamo) (Unit {0})
  mark_failed job_id status_code error = conditional_update job_id (failed_fields status_code error)

  -- The payload `{"job_id": job_id}`, encoded.
  unfoldable pub worker_payload : Text → Text
  worker_payload job_id = s.dumps (Json.obj (field (text "job_id") (Json.str job_id) end))

  -- What the asynchronous invocation leaves behind.
  unfoldable pub note_invocation : Text → Text → Reply (Unit {0}) → Exec (World s.dynamo) (Unit {0})
  note_invocation name payload (returned u) w = (
    ok tt,
    record w { invoke_calls = w.invoke_calls + 1; invocations = (name, payload) ∷ w.invocations },
  )
  note_invocation name payload (refused code) w =
      (raise (client_error code), record w { invoke_calls = w.invoke_calls + 1 })

  unfoldable pub invoke_worker : Text → Exec (World s.dynamo) (Unit {0})
  invoke_worker job_id = do
    name ← worker_function_name
    λ w. note_invocation name (worker_payload job_id) (s.invoke w.invoke_calls) w
