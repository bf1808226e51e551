-- ===== src/Deployment/Aws.antt =====
-- What promote_model.py and deploy.py of ml/deployment and submit_job.py of ml/training send to AWS and
-- receive; AWS is a parameter.
use es_kaq_translator_v.Base.{ℕ, Bool, Option, List}
use es_kaq_translator_v.Base.Dict.{Dict}
use es_kaq_translator_v.Text.{Text}
use es_kaq_translator_v.Api.Result.{Result}

abbrev pub Metadata : Type 0
Metadata = Dict Text Text

pub record Container : Type 0 where
  pub image : Option Text
  pub model_data_url : Option Text

-- What `describe_model_package` returns, of what is read of it.
pub record Description : Type 0 where
  pub model_approval_status : Option Text
  pub model_package_arn : Option Text
  pub containers : List Container
  pub customer_metadata : Option Metadata

-- What `extract_source_artifact_info` returns.
pub record Info : Type 0 where
  pub image_uri : Text
  pub model_data_url : Text
  pub customer_metadata : Metadata
  pub model_package_arn : Text

-- The arguments of `create_model_package` that differ from run to run.
pub record Package : Type 0 where
  pub model_package_group_name : Text
  pub approval_status : Text
  pub image_uri : Text
  pub model_data_url : Text
  pub customer_metadata : Metadata

-- A call of AWS, with the profile of the session that makes it.
pub data Call : Type 0 where
  get_caller_identity : (profile : Text) → Call
  describe_model_package : (profile arn : Text) → Call
  describe_stacks : (profile stack_name : Text) → Call
  download_file : (profile bucket key : Text) → Call
  upload_file : (profile bucket key : Text) → Call
  create_model_package_group : (profile group_name : Text) → Call
  create_model_package : (profile : Text) → Package → Call
  simulate_principal_policy : (role : Text) → Call
  create_training_job :
      (base_job_name : Text) → (input_data_config : Dict Text Text) → (wait : Bool) → Call
  describe_training_job : (job_name : Text) → Call

pub data GroupReply : Type 0 where
  created resource_in_use : GroupReply
  refused : (code message : Text) → GroupReply

-- AWS, and what of Python is not modelled: `str` of an integer and `str.capitalize`.
pub record Aws : Type 0 where
  pub region_name : (profile : Text) → Option Text
  pub account : (profile : Text) → Result Text
  pub description : (profile arn : Text) → Result Description
  -- the outputs of the first stack of that name, if there is one
  pub stack : (profile stack_name : Text) → Result (Option (Dict Text Text))
  pub downloaded : (profile bucket key : Text) → Result (Unit {0})
  pub uploaded : (profile bucket key : Text) → Result (Unit {0})
  pub group : (profile group_name : Text) → GroupReply
  pub registered : (profile : Text) → Package → Result Text
  pub str_of : ℕ → Text
  pub capitalize : Text → Text

pub record Args : Type 0 where
  pub source_environment : Text
  pub source_model_package_version : ℕ
  pub target_environment : Text
  pub source_profile : Option Text
  pub target_profile : Option Text
  pub model_package_group_name : Text
