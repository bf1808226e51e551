-- ===== src/Deployment/PromoteModel.antt =====
-- ml/deployment/promote_model.py: an approved model package is copied into another account. With
-- it, resolve_stack_outputs of ml/training/submit_job.py and ensure_model_package_group of
-- ml/training/model_registry.py, which it calls.
pub mod Guard
pub mod Success
mod Tests
use es_kaq_translator_v.Base.{
  ℕ, Bool, true, false, Option, none, some, List, [], ◌∷◌, ◌++◌, ◌=?◌, ◌&&◌, not, if◌then◌else◌,
  length, drop, elem, all_b,
}
use es_kaq_translator_v.Base.Dict.{Dict, lookup, insert, has_key}
use es_kaq_translator_v.Text.{Text, text, text_eq, starts_with}
use es_kaq_translator_v.Text.Split.{partition}
use es_kaq_translator_v.Api.Result.{
  Result, ok, raise, Exec, pure, lift, ◌>>=◌, ◌>>◌, key_error, value_error, client_error, Exn,
}
use es_kaq_translator_v.Deployment.Aws.{
  Metadata, Container, Description, Info, Package, Call, get_caller_identity,
  describe_model_package, describe_stacks, download_file, upload_file, create_model_package_group,
  create_model_package, GroupReply, created, resource_in_use, refused, Aws, Args,
}
use es_kaq_translator_v.Deployment.Inference.{has_part}

-- `a or b`, for a string that may be `None`
unfoldable pub or_else : Option Text → Text → Text
or_else none b = b
or_else (some []) b = b
or_else (some (c ∷ a)) b = c ∷ a

unfoldable pub build_profile_name : Text → Text
build_profile_name environment = text "translator-" ++ environment

unfoldable pub source_profile_of : Args → Text
source_profile_of args = or_else args.source_profile (build_profile_name args.source_environment)

unfoldable pub target_profile_of : Args → Text
target_profile_of args = or_else args.target_profile (build_profile_name args.target_environment)

abbrev pub approved : Text
approved = text "Approved"

-- Whether `ensure_approved` returns.
unfoldable pub ensure_approved : Description → Bool
ensure_approved d = elim d.model_approval_status [ none ↦ false | some status ↦ status =? approved ]

unfoldable pub or_key_error : {A : Type 0} → Text → Option A → Result A
or_key_error k none = raise (key_error k)
or_key_error k (some a) = ok a

unfoldable pub or_empty : Option Metadata → Metadata
or_empty none = []
or_empty (some m) = m

unfoldable pub info_of : Option Metadata → Option Text → Option Text → Option Text → Result Info
info_of metadata none url arn = raise (key_error (text "Image"))
info_of metadata (some image) none arn = raise (key_error (text "ModelDataUrl"))
info_of metadata (some image) (some url) none = raise (key_error (text "ModelPackageArn"))
info_of metadata (some image) (some url) (some arn) = ok (record {
  image_uri = image;
  model_data_url = url;
  customer_metadata = or_empty metadata;
  model_package_arn = arn;
})

-- An empty list of containers is an `IndexError`, which is told apart from no other here.
unfoldable pub extract_from : Description → List Container → Result Info
extract_from d [] = raise (key_error (text "Containers"))
extract_from d (container ∷ containers) =
    info_of d.customer_metadata container.image container.model_data_url d.model_package_arn

unfoldable pub extract_source_artifact_info : Description → Result Info
extract_source_artifact_info d = extract_from d d.containers

unfoldable pub build_promoted_artifact_key : Text → Text
build_promoted_artifact_key run_id = text "promoted-artifacts/" ++ (run_id ++ text "/model.tar.gz")

unfoldable pub with_key : Text × Text → Result (Text × Text)
with_key (bucket, []) = raise value_error
with_key (bucket, c ∷ key) = ok (bucket, c ∷ key)

unfoldable pub parse_s3_uri : Text → Result (Text × Text)
parse_s3_uri uri =
    if starts_with uri (text "s3://")
    then with_key (partition b'/' (drop (length (text "s3://")) uri))
    else raise value_error

unfoldable pub s3_uri : (bucket key : Text) → Text
s3_uri bucket key = text "s3://" ++ (bucket ++ (b'/' ∷ key))

unfoldable pub build_target_customer_metadata :
    Metadata → (source_environment source_arn : Text) → Metadata
build_target_customer_metadata metadata source_environment source_arn =
    insert (text "promoted_from_model_package_arn") source_arn
      (insert (text "promoted_from_environment") source_environment metadata)

abbrev pub required_stack_outputs : List Text
required_stack_outputs = text "TrainingDataBucketName" ∷ text "SageMakerExecutionRoleArn" ∷ []

-- The checks on what `describe_stacks` returned.
unfoldable pub checked_outputs : Text → Option (Dict Text Text) → Result (Dict Text Text)
checked_outputs stack_name none = raise value_error
checked_outputs stack_name (some outputs) =
    if all_b (λ k. has_key k outputs) required_stack_outputs
    then ok outputs
    else raise (key_error stack_name)

unfoldable pub group_result : GroupReply → Result (Unit {0})
group_result created = ok tt
group_result resource_in_use = ok tt
group_result (refused code message) =
    if code =? text "ValidationException" && has_part (text "already exists") message
    then ok tt
    else raise (client_error code)

-- A call is noted, whether it succeeds or not.
unfoldable pub call : {A : Type 0} → Call → Result A → Exec (List Call) A
call c r calls = (r, calls ++ (c ∷ []))

module _ (aws : Aws) where
  unfoldable pub build_model_package_arn : (region account_id group_name : Text) → ℕ → Text
  build_model_package_arn region account_id group_name version =
      text "arn:aws:sagemaker:"
      ++ (region
          ++ (text ":"
              ++ (account_id
                  ++ (text ":model-package/" ++ (group_name ++ (text "/" ++ aws.str_of version))))))

  unfoldable pub resolve_stack_outputs :
      (profile environment : Text) → Exec (List Call) (Dict Text Text)
  resolve_stack_outputs profile environment = do
    let stack_name = aws.capitalize environment ++ text "-Data"
    outputs ← call (describe_stacks profile stack_name) (aws.stack profile stack_name)
    lift (checked_outputs stack_name outputs)

  unfoldable pub download_source_artifact :
      (profile source_model_data_url : Text) → Exec (List Call) (Unit {0})
  download_source_artifact profile url = do
    (bucket, key) ← lift (parse_s3_uri url)
    call (download_file profile bucket key) (aws.downloaded profile bucket key)

  unfoldable pub upload_promoted_artifact : (profile bucket key : Text) → Exec (List Call) Text
  upload_promoted_artifact profile bucket key = do
    call (upload_file profile bucket key) (aws.uploaded profile bucket key)
    pure (s3_uri bucket key)

  unfoldable pub ensure_model_package_group :
      (profile group_name : Text) → Exec (List Call) (Unit {0})
  ensure_model_package_group profile group_name =
      call (create_model_package_group profile group_name)
        (group_result (aws.group profile group_name))

  unfoldable pub register_promoted_model : Text → Package → Exec (List Call) Text
  register_promoted_model profile p = do
    ensure_model_package_group profile p.model_package_group_name
    call (create_model_package profile p) (aws.registered profile p)

  abbrev pub run_id_of : Info → Text
  run_id_of info = elim (lookup (text "run_id") info.customer_metadata) [
    | none ↦ text "unknown-run"
    | some run_id ↦ run_id
  ]

  unfoldable pub package_of : Args → Info → (model_data_url : Text) → Package
  package_of args info model_data_url = record {
    model_package_group_name = args.model_package_group_name;
    approval_status = approved;
    image_uri = info.image_uri;
    model_data_url = model_data_url;
    customer_metadata =
        build_target_customer_metadata info.customer_metadata args.source_environment
          info.model_package_arn;
  }

  -- What follows the download.
  unfoldable pub copy_and_register : Args → Info → (target_bucket : Text) → Exec (List Call) ℕ
  copy_and_register args info target_bucket = do
    let target = target_profile_of args
    let target_key = build_promoted_artifact_key (run_id_of info)
    model_data_url ← upload_promoted_artifact target target_bucket target_key
    register_promoted_model target (package_of args info model_data_url)
    pure 0

  -- What follows the guard.
  unfoldable pub promote : Args → Description → Exec (List Call) ℕ
  promote args description = do
    let source = source_profile_of args
    let target = target_profile_of args
    info ← lift (extract_source_artifact_info description)
    outputs ← resolve_stack_outputs target args.target_environment
    bucket ← lift (
        or_key_error (text "TrainingDataBucketName")
          (lookup (text "TrainingDataBucketName") outputs))
    download_source_artifact source info.model_data_url
    copy_and_register args info bucket

  unfoldable pub describe_source : Args → Text → Exec (List Call) Description
  describe_source args account_id =
      let source = source_profile_of args in
      let region = or_else (aws.region_name source) (text "us-east-1") in
      let arn =
        build_model_package_arn region account_id args.model_package_group_name
          args.source_model_package_version in
      call (describe_model_package source arn) (aws.description source arn)

  unfoldable pub main : Args → Exec (List Call) ℕ
  main args = do
    let source = source_profile_of args
    account_id ← call (get_caller_identity source) (aws.account source)
    description ← describe_source args account_id
    if ensure_approved description then promote args description else pure 1
