-- ===== src/Deployment/PromoteModel/Tests.antt =====
-- The theorems on promotion at an account that answers every call.
use es_kaq_translator_v.Base.{
  ◌≡◌, refl, ◌=?◌, if◌then◌else◌, none, some, [], ◌∷◌, ◌++◌, ◌⊎◌, ◌≢◌, All, list_beq,
}
use es_kaq_translator_v.Base.Dict.{Dict, lookup}
use es_kaq_translator_v.Text.{Text, text, text_eq, starts_with}
use es_kaq_translator_v.Text.Split.{partition}
use es_kaq_translator_v.Api.Result.{ok}
use es_kaq_translator_v.Deployment.Aws.{
  get_caller_identity, describe_model_package, describe_stacks, download_file, upload_file,
  create_model_package_group, create_model_package, Aws, Args, Description, Info, Package, created,
}
use es_kaq_translator_v.Deployment.PromoteModel.{
  main, source_profile_of, target_profile_of, describe_source, approved, parse_s3_uri,
  ensure_approved, extract_source_artifact_info, extract_from, info_of, or_empty, checked_outputs,
  with_key, group_result,
}
use es_kaq_translator_v.Deployment.PromoteModel.Guard.{IsOwn, IsLook, main-guard}
use es_kaq_translator_v.Deployment.PromoteModel.Success.{source_arn, IsWilling, main-success}

abbrev args : Args
args = record {
  source_environment = text "dev";
  source_model_package_version = 19;
  target_environment = text "qa";
  source_profile = none;
  target_profile = some (text "q");
  model_package_group_name = text "g";
}

abbrev package_19 : Description
package_19 = record {
  model_approval_status = some approved;
  model_package_arn = some (text "arn");
  containers = record { image = some (text "i"); model_data_url = some (text "s3://b/k") } ∷ [];
  customer_metadata = some ((text "run_id", text "r7") ∷ []);
}

abbrev outputs : Dict Text Text
outputs =
    (text "TrainingDataBucketName", text "t") ∷ (text "SageMakerExecutionRoleArn", text "x") ∷ []

abbrev aws : Aws
aws = record {
  region_name = λ p. none;
  account = λ p. ok (text "1");
  description = λ p arn. ok package_19;
  stack = λ p name. ok (some outputs);
  downloaded = λ p bucket key. ok tt;
  uploaded = λ p bucket key. ok tt;
  group = λ p name. created;
  registered = λ p q. ok (text "new");
  str_of = λ n. n ∷ [];
  capitalize = λ t. t;
}

abbrev info : Info
info = record {
  image_uri = text "i";
  model_data_url = text "s3://b/k";
  customer_metadata = (text "run_id", text "r7") ∷ [];
  model_package_arn = text "arn";
}

main-guard_example :
    let (r, calls) = main aws args [] in
    All (IsOwn (source_profile_of args) (target_profile_of args)) calls
    × ((All IsLook calls × (r ≢ ok 0))
        ⊎ ((id : Text) × (d : Description) × (aws.account (source_profile_of args) ≡ ok id)
            × ((describe_source aws args id []).0 ≡ ok d)
            × (d.model_approval_status ≡ some approved)))
main-guard_example = main-guard aws args

willing :
    IsWilling aws args
      (text "1")
      (text "t")
      (text "b")
      (text "k")
      (text "new")
      package_19
      info
      outputs
unfolding ensure_approved extract_source_artifact_info extract_from info_of or_empty checked_outputs
    lookup list_beq parse_s3_uri starts_with partition with_key group_result
willing = record {
  account = refl;
  described = refl;
  is_approved = refl;
  extracted = refl;
  stack = refl;
  checked = refl;
  has_bucket = refl;
  url = refl;
  downloaded = refl;
  uploaded = refl;
  group = refl;
  registered = refl;
}

main-success_example :
    let key = text "promoted-artifacts/r7/model.tar.gz" in
    (p : Package) × (main aws args [] ≡ (
      ok 0,
      get_caller_identity (source_profile_of args)
          ∷ describe_model_package (source_profile_of args) (source_arn aws args (text "1"))
          ∷ describe_stacks (target_profile_of args) (text "qa" ++ text "-Data")
          ∷ download_file (source_profile_of args) (text "b") (text "k")
          ∷ upload_file (target_profile_of args) (text "t") key
          ∷ create_model_package_group (target_profile_of args) (text "g")
          ∷ create_model_package (target_profile_of args) p
          ∷ [],
    ))
    × (p.model_package_group_name ≡ text "g")
    × (p.approval_status ≡ text "Approved")
    × (p.image_uri ≡ info.image_uri)
    × (p.model_data_url ≡ text "s3://" ++ (text "t" ++ (b'/' ∷ key)))
    × ((k : Text)
        → lookup k p.customer_metadata ≡ (
            if text "promoted_from_model_package_arn" =? k
            then some info.model_package_arn
            else (if text "promoted_from_environment" =? k
                then some args.source_environment
                else lookup k info.customer_metadata)))
unfolding lookup list_beq
main-success_example = main-success aws args willing
