-- ===== src/Api/Models.antt =====
-- apps/api/app/models.py: the request and response models, and the enumerations with their values.
use es_kaq_translator_v.Base.{ℕ, Option, ◌=?◌, if◌then◌else◌, length, leb, ◌&&◌}
use es_kaq_translator_v.Text.{Text, text_eq, text}
use es_kaq_translator_v.Api.Result.{Result, ok, raise, value_error, validation_error}

pub data Direction : Type 0 where
  es_to_cak cak_to_es : Direction

-- `direction.value`
abbrev pub direction_value : Direction → Text
direction_value es_to_cak = text "es-to-cak"
direction_value cak_to_es = text "cak-to-es"

-- `Direction(value)`
unfoldable pub parse_direction : Text → Result Direction
parse_direction value =
    if value =? text "es-to-cak"
    then ok es_to_cak
    else if value =? text "cak-to-es"
    then ok cak_to_es
    else raise value_error

pub record TranslateRequest : Type 0 where
  pub text : Text
  pub direction : Direction

-- `Field(min_length=1, max_length=2000)`
abbrev pub min_length : ℕ
min_length = 1

abbrev pub max_length : ℕ
max_length = 2000

-- `TranslateRequest(text=..., direction=...)`, with the checks of its fields.
unfoldable pub make_request : Text → Direction → Result TranslateRequest
make_request t d =
    if leb min_length (length t) && leb (length t) max_length
    then ok (record { text = t; direction = d })
    else raise validation_error

pub record TranslateResponse : Type 0 where
  pub translation : Text

pub data JobStatus : Type 0 where
  pending succeeded failed : JobStatus

-- `status.value`
abbrev pub status_value : JobStatus → Text
status_value pending = text "pending"
status_value succeeded = text "succeeded"
status_value failed = text "failed"

pub record JobCreatedResponse : Type 0 where
  pub job_id : Text

pub record JobStatusResponse : Type 0 where
  pub status : JobStatus
  pub translation : Option Text
  pub status_code : Option ℕ
  pub error : Option Text

-- `ErrorResponse`, the body `{"error": message}`
pub record ErrorResponse : Type 0 where
  pub error : Text
