-- ===== src/Api/World.antt =====
-- What a Lambda invocation of apps/api acts on: the table, the clock, the environment, the queue of
-- worker invocations and the log; and the services that the program calls, as parameters.
use es_kaq_translator_v.Base.{ℕ, Bool, Option, none, some, List, [], ◌∷◌}
use es_kaq_translator_v.Text.{Text}
use es_kaq_translator_v.Api.Result.{Result, ok, raise, runtime_error}
use es_kaq_translator_v.Api.Json.{Json}
use es_kaq_translator_v.Api.Dynamo.{Dynamo, Reply, Value}

-- What `invoke_endpoint` does: the body of its response, a `ClientError` with its code, or a
-- `BotoCoreError`.
pub data EndpointReply : Type 0 where
  body : Text → EndpointReply
  client_failure : Text → EndpointReply
  botocore_failure : EndpointReply

-- AWS and the Python libraries.
pub record Services : Type 1 where
  pub dynamo : Dynamo
  -- the n-th `str(uuid.uuid4())`, and what `uuid.UUID` accepts
  pub new_uuid : ℕ → Text
  pub is_uuid : Text → Bool
  -- `int(s)` of a string
  pub int_of : Text → Option ℕ
  pub dumps : Json → Text
  pub loads : Text → Option Json
  -- the n-th call of the endpoint of that name, with that body, and its measured duration
  pub invoke_endpoint : ℕ → Text → Text → EndpointReply
  pub latency_ms : ℕ → ℕ
  -- the n-th asynchronous invocation of a Lambda function
  pub invoke : ℕ → Reply (Unit {0})

pub data Level : Type 0 where
  info warning : Level

-- The line that `log_job_resolution` writes.
pub record LogLine : Type 0 where
  pub level : Level
  pub job_id : Text
  pub direction : Option Value
  pub input_length : Option ℕ
  pub latency_ms : Option ℕ
  pub status_code : ℕ
  pub error_type : Option Text

-- The environment variables.
pub record Environ : Type 0 where
  pub table_name : Option Text
  pub worker_function_name : Option Text
  pub endpoint_name : Option Text

pub record World (d : Dynamo) : Type 0 where
  pub table : d.Table
  -- `int(time.time())`
  pub now : ℕ
  pub environ : Environ
  -- how many identifiers were drawn, and how often the endpoint and Lambda were called
  pub uuids : ℕ
  pub endpoint_calls : ℕ
  pub invoke_calls : ℕ
  -- the function and the payload of each invocation that Lambda accepted, the last one first
  pub invocations : List (Text × Text)
  pub log : List LogLine

-- `if not name: raise RuntimeError(...)`
unfoldable pub required_name : Option Text → Result Text
required_name none = raise runtime_error
required_name (some []) = raise runtime_error
required_name (some (c ∷ name)) = ok (c ∷ name)
