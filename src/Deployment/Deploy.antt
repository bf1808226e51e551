-- ===== src/Deployment/Deploy.antt =====
-- ml/deployment/deploy.py: a training run's model is repackaged, uploaded and registered for
-- inference.
pub mod Run
mod Tests
use es_kaq_translator_v.Base.{
  Bool, true, false, Option, none, some, List, [], ◌∷◌, ◌++◌, ◌=?◌, if◌then◌else◌, ℕ,
}
use es_kaq_translator_v.Base.Dict.{Dict, lookup, insert}
use es_kaq_translator_v.Text.{Text, text, text_eq}
use es_kaq_translator_v.Api.Result.{
  Result, ok, raise, Exec, pure, lift, ◌>>=◌, ◌>>◌, key_error, os_error,
}
use es_kaq_translator_v.Deployment.Aws.{
  Metadata, Package, Call, download_file, upload_file, create_model_package, Aws,
}
use es_kaq_translator_v.Deployment.PromoteModel.{
  call, or_key_error, resolve_stack_outputs, ensure_model_package_group, s3_uri,
}
use es_kaq_translator_v.Deployment.S3Uri.{parse_s3_uri}
use es_kaq_translator_v.Deployment.Package.{
  Archive, Tree, build_inference_code_dir, repackage_model_artifact,
}
use es_kaq_translator_v.Evaluation.ModelCard.{
  parse_model_card_metrics, parse_model_card_run_metadata,
}

pub record Args : Type 0 where
  pub source_model_data_url : Text
  pub environment : Text
  pub region : Text
  pub model_package_group_name : Text
  pub approval_status : Text
  pub dry_run : Bool

-- What is not AWS's bookkeeping: the contents of files and objects, UTF-8, and the look-up of the
-- container image by the SageMaker SDK.
pub record Host : Type 1 where
  pub Content : Type 0
  pub object : (bucket key : Text) → Archive Content
  -- where `tarfile` extracts a member of that name
  pub placed : (name : Text) → Result Text
  -- the files below `ml/`
  pub ml_root : Tree Content
  pub decode : Content → Result Text
  pub retrieve_image_uri : (region : Text) → Result Text
  -- what S3 makes of the upload of an archive with these files
  pub upload : Tree Content → (bucket key : Text) → Result (Unit {0})

-- Every session is the default one.
abbrev pub default_profile : Text
default_profile = []

unfoldable pub build_inference_artifact_key : Text → Text
build_inference_artifact_key run_id =
    text "inference-artifacts/" ++ (run_id ++ text "/model.tar.gz")

-- `d.update(e)`
unfoldable pub update : Metadata → Metadata → Metadata
update d [] = d
update d ((k, v) ∷ e) = update (insert k v d) e

unfoldable pub build_inference_customer_metadata :
    (run_metadata metrics : Metadata) → (source_model_data_url : Text) → Metadata
build_inference_customer_metadata run_metadata metrics url =
    let metadata =
      (text "artifact_type", text "inference") ∷ (text "source_model_data_url", url) ∷ [] in
    update (update metadata run_metadata) metrics

-- `tar.extractfile(name)` reads the last member of that name.
unfoldable pub last_member : {C : Type 0} → Text → Archive C → Option (Option C) → Option (Option C)
last_member name [] found = found
last_member name ((n, content) ∷ members) found =
    last_member name members (if n =? name then some content else found)

unfoldable pub run_id_of : Metadata → Text
run_id_of run_metadata = elim (lookup (text "run_id") run_metadata) [
  | none ↦ text "unknown-run"
  | some run_id ↦ run_id
]

module _ (aws : Aws) (host : Host) where
  unfoldable pub read_model_card_from_local_tar : Archive host.Content → Result Text
  read_model_card_from_local_tar tar = elim (last_member (text "model_card.md") tar none) [
    | none ↦ raise (key_error (text "model_card.md"))
    | some none ↦ raise os_error
    | some (some content) ↦ host.decode content
  ]

  unfoldable pub download_model_artifact : Text → Exec (List Call) (Archive host.Content)
  download_model_artifact source_model_data_url = do
    (bucket, key) ← lift (parse_s3_uri source_model_data_url)
    call (download_file default_profile bucket key) (aws.downloaded default_profile bucket key)
    pure (host.object bucket key)

  unfoldable pub upload_inference_artifact :
      Tree host.Content → (bucket key : Text) → Exec (List Call) Text
  upload_inference_artifact tree bucket key = do
    call (upload_file default_profile bucket key) (host.upload tree bucket key)
    pure (s3_uri bucket key)

  unfoldable pub package_of :
      Args → (model_data_url image_uri : Text) → (run_metadata metrics : Metadata) → Package
  package_of args model_data_url image_uri run_metadata metrics = record {
    model_package_group_name = args.model_package_group_name;
    approval_status = args.approval_status;
    image_uri = image_uri;
    model_data_url = model_data_url;
    customer_metadata =
        build_inference_customer_metadata run_metadata metrics args.source_model_data_url;
  }

  unfoldable pub register_inference_model : Package → Exec (List Call) Text
  register_inference_model p = do
    ensure_model_package_group aws default_profile p.model_package_group_name
    call (create_model_package default_profile p) (aws.registered default_profile p)

  -- What follows the dry run's return.
  unfoldable pub deploy : Args → (bucket image_uri : Text) → Exec (List Call) ℕ
  deploy args bucket image_uri = do
    tar ← download_model_artifact args.source_model_data_url
    model_card_text ← lift (read_model_card_from_local_tar tar)
    let metrics = parse_model_card_metrics model_card_text
    let run_metadata = parse_model_card_run_metadata model_card_text
    code ← lift (build_inference_code_dir host.Content host.ml_root)
    output ← lift (repackage_model_artifact host.Content host.placed tar code)
    let output_key = build_inference_artifact_key (run_id_of run_metadata)
    model_data_url ← upload_inference_artifact output bucket output_key
    register_inference_model (package_of args model_data_url image_uri run_metadata metrics)
    pure 0

  unfoldable pub main : Args → Exec (List Call) ℕ
  main args = do
    outputs ← resolve_stack_outputs aws default_profile args.environment
    bucket ← lift (
        or_key_error (text "TrainingDataBucketName")
          (lookup (text "TrainingDataBucketName") outputs))
    image_uri ← lift (host.retrieve_image_uri args.region)
    if args.dry_run then pure 0 else deploy args bucket image_uri
