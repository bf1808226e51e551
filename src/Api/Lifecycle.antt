-- ===== src/Api/Lifecycle.antt =====
-- The life of a job across the Lambda handlers of apps/api, which run in any order on one table:
-- submissions, worker runs, failure destinations and polls, with time passing between them. The
-- table's own deletion of expired items is not a step.
mod Keeps
pub mod Final
pub mod Calls
pub mod Outcome
pub mod RoundTrip
pub mod Failed
mod Tests
use es_kaq_translator_v.Base.{ℕ, ◌+◌, ◌≡◌, none}
use es_kaq_translator_v.Base.Dict.{Dict}
use es_kaq_translator_v.Text.{Text}
use es_kaq_translator_v.Api.Models.{TranslateRequest}
use es_kaq_translator_v.Api.World.{Services, World}
use es_kaq_translator_v.Api.Jobs.Guard.{stored}
use es_kaq_translator_v.Api.Main.{create_translate_job, get_translate_job}
use es_kaq_translator_v.Api.Worker
use es_kaq_translator_v.Api.Failure

-- One invocation of a handler, whether it returns or raises. An identifier that `uuid4` draws is
-- not in the table yet.
pub data Step (s : Services) : World s.dynamo → World s.dynamo → Type 0 where
  submit :
      (w : World s.dynamo) (request : TranslateRequest)
      → stored s w (s.new_uuid w.uuids) ≡ none
      → Step s w (create_translate_job s request w).1
  work : (w : World s.dynamo) (event : Dict Text Text) → Step s w (Worker.handler s event w).1
  fail :
      (w : World s.dynamo) (event : Dict Text (Dict Text Text))
      → Step s w (Failure.handler s event w).1
  poll : (w : World s.dynamo) (job_id : Text) → Step s w (get_translate_job s job_id w).1
  pass : (w : World s.dynamo) (seconds : ℕ) → Step s w (record w { now = w.now + seconds })

pub data Reach (s : Services) (w : World s.dynamo) : World s.dynamo → Type 0 where
  here : Reach s w w
  next : {u v : World s.dynamo} → Reach s w u → Step s u v → Reach s w v
