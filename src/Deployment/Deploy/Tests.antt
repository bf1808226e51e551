-- ===== src/Deployment/Deploy/Tests.antt =====
-- The theorems on repackaging and deployment at an account that answers every call.
use es_kaq_translator_v.Base.{
  ◌≡◌, refl, ◌++◌, ◌=?◌, Bool, false, none, some, [], ◌∷◌, if◌then◌else◌, list_beq,
}
use es_kaq_translator_v.Base.Dict.{Dict, lookup, insert}
use es_kaq_translator_v.Text.{Text, text, text_eq, starts_with}
use es_kaq_translator_v.Text.Split.{partition}
use es_kaq_translator_v.Api.Result.{ok}
use es_kaq_translator_v.Deployment.Aws.{
  Package, describe_stacks, download_file, upload_file, create_model_package_group,
  create_model_package, Aws, created,
}
use es_kaq_translator_v.Deployment.PromoteModel.{checked_outputs, group_result}
use es_kaq_translator_v.Deployment.S3Uri.{parse_s3_uri, match_s3_uri, bucket_and_key, key_from}
use es_kaq_translator_v.Deployment.Package.{
  Archive, Tree, is_under, kept_members, placed_members, packaged, extract_all, copy_tree, copy2,
  build_inference_code_dir, repackage_model_artifact,
}
use es_kaq_translator_v.Deployment.Package.Contents.{
  code_file, last_file, repackage_model_artifact_lem,
}
use es_kaq_translator_v.Text.Space.{lstrip, is_space}
use es_kaq_translator_v.Evaluation.ModelCard.{
  insert_found, search_field, match_field, label, search_title, is_ink, parse_model_card_metrics,
  parse_model_card_run_metadata,
}
use es_kaq_translator_v.Deployment.Deploy.{
  Args, Host, default_profile, last_member, read_model_card_from_local_tar, main,
}
use es_kaq_translator_v.Deployment.Deploy.Run.{last_value, IsWilling, main-deploys}

abbrev archive : Archive Text
archive =
    (text "model_card.md", some (text "# Model card: r7"))
    ∷ (text "checkpoints/9/w", some (text "big"))
    ∷ (text "w", some (text "weights"))
    ∷ []

abbrev code : Tree Text
code = (text "inference.py", text "def") ∷ []

repackage_model_artifact_lem_example :
    (tree : Tree Text) × (repackage_model_artifact Text ok archive code ≡ ok tree)
    × ((name : Text)
        → lookup name tree ≡ (
            if is_under (text "checkpoints") name
            then none
            else code_file Text name code (last_file Text name archive none)))
unfolding is_under starts_with list_beq
repackage_model_artifact_lem_example =
    repackage_model_artifact_lem Text ok archive code (refl, (refl, (refl, tt))) refl

abbrev ml_root : Tree Text
ml_root =
    (text "deployment/inference.py", text "i")
    ∷ (text "deployment/requirements.txt", text "r")
    ∷ (text "training/__init__.py", text "")
    ∷ (text "training/direction.py", text "d")
    ∷ []

abbrev outputs : Dict Text Text
outputs =
    (text "TrainingDataBucketName", text "t") ∷ (text "SageMakerExecutionRoleArn", text "x") ∷ []

abbrev aws : Aws
aws = record {
  region_name = λ p. none;
  account = λ p. ok (text "1");
  description = λ p arn. ok (record {
    model_approval_status = none;
    model_package_arn = none;
    containers = [];
    customer_metadata = none;
  });
  stack = λ p name. ok (some outputs);
  downloaded = λ p bucket key. ok tt;
  uploaded = λ p bucket key. ok tt;
  group = λ p name. created;
  registered = λ p q. ok (text "new");
  str_of = λ n. n ∷ [];
  capitalize = λ t. t;
}

abbrev host : Host
host = record {
  Content = Text;
  object = λ bucket key. archive;
  placed = ok;
  ml_root = ml_root;
  decode = ok;
  retrieve_image_uri = λ region. ok (text "image");
  upload = λ tree bucket key. ok tt;
}

abbrev args : Bool → Args
args dry_run = record {
  source_model_data_url = text "s3://b/k";
  environment = text "dev";
  region = text "us-east-1";
  model_package_group_name = text "g";
  approval_status = text "Approved";
  dry_run = dry_run;
}

abbrev card : Text
card = text "# Model card: r7"

code_files : Tree Text
code_files =
    (text "inference.py", text "i")
    ∷ (text "requirements.txt", text "r")
    ∷ (text "training/__init__.py", text "")
    ∷ (text "training/direction.py", text "d")
    ∷ []

tree : Tree Text
unfolding code_files copy_tree
tree = copy_tree Text code_files ((text "model_card.md", card) ∷ (text "w", text "weights") ∷ [])

willing :
    IsWilling aws host
      (args false)
      (text "b")
      (text "k")
      (text "t")
      (text "image")
      card
      (text "new")
      outputs
      code_files
      tree
unfolding checked_outputs lookup parse_s3_uri match_s3_uri starts_with partition bucket_and_key
    key_from read_model_card_from_local_tar last_member build_inference_code_dir copy2 insert
    repackage_model_artifact packaged placed_members kept_members is_under extract_all copy_tree
    group_result list_beq code_files tree
willing = record {
  live = refl;
  stack = refl;
  checked = refl;
  has_bucket = refl;
  image = refl;
  url = refl;
  downloaded = refl;
  has_card = refl;
  has_code = refl;
  repackaged = refl;
  uploaded = refl;
  group = refl;
  registered = λ p. refl;
}

main-deploys_example :
    let run = parse_model_card_run_metadata card in
    let key = text "inference-artifacts/r7/model.tar.gz" in
    (p : Package) × (main aws host (args false) [] ≡ (
      ok 0,
      describe_stacks default_profile (text "dev-Data")
          ∷ download_file default_profile (text "b") (text "k")
          ∷ upload_file default_profile (text "t") key
          ∷ create_model_package_group default_profile (text "g")
          ∷ create_model_package default_profile p
          ∷ [],
    ))
    × (p.model_package_group_name ≡ text "g")
    × (p.approval_status ≡ text "Approved")
    × (p.image_uri ≡ text "image")
    × (p.model_data_url ≡ text "s3://" ++ (text "t" ++ (b'/' ∷ key)))
    × ((k : Text)
        → lookup k p.customer_metadata
          ≡ last_value k (parse_model_card_metrics card) (
              last_value k run (
                if text "artifact_type" =? k
                then some (text "inference")
                else (if text "source_model_data_url" =? k then some (text "s3://b/k") else none))))
unfolding lookup parse_model_card_run_metadata insert_found search_field match_field starts_with
    label search_title lstrip is_space is_ink insert list_beq
main-deploys_example = main-deploys aws host (args false) willing
