-- ===== src/Api/Observability.antt =====
-- apps/api/app/observability.py: the log line of a resolved job.
use es_kaq_translator_v.Base.{ℕ, Option, none, some, ◌∷◌}
use es_kaq_translator_v.Text.{Text}
use es_kaq_translator_v.Api.Result.{Exec, modify}
use es_kaq_translator_v.Api.Dynamo.{Dynamo, Value}
use es_kaq_translator_v.Api.World.{World, Level, info, warning}

-- `logging.INFO if error_type is None else logging.WARNING`
unfoldable pub level_of : Option Text → Level
level_of none = info
level_of (some name) = warning

unfoldable pub log_job_resolution :
    {d : Dynamo}
    → Text
    → Option Value
    → Option ℕ
    → Option ℕ
    → ℕ
    → Option Text
    → Exec (World d) (Unit {0})
log_job_resolution job_id direction input_length latency_ms status_code error_type = modify (λ w.
    record w {
      log =
          record {
            level = level_of error_type;
            job_id = job_id;
            direction = direction;
            input_length = input_length;
            latency_ms = latency_ms;
            status_code = status_code;
            error_type = error_type;
          }
          ∷ w.log;
    })
