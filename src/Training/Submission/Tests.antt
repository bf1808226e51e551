-- ===== src/Training/Submission/Tests.antt =====
-- The theorem on registration at one run, with the number n written as n code points.
use es_kaq_translator_v.Base.{ℕ, ◌≡◌, refl, true, false, none, some, [], ◌∷◌, ◌++◌, list_beq}
use es_kaq_translator_v.Base.Dict.{Dict, lookup}
use es_kaq_translator_v.Text.{Text, text, text_eq, starts_with}
use es_kaq_translator_v.Text.Split.{partition}
use es_kaq_translator_v.Api.Result.{ok}
use es_kaq_translator_v.Deployment.Aws.{
  describe_stacks, simulate_principal_policy, create_training_job, describe_training_job, Aws,
  created,
}
use es_kaq_translator_v.Deployment.PromoteModel.{or_else, checked_outputs, group_result}
use es_kaq_translator_v.Deployment.S3Uri.{parse_s3_uri, match_s3_uri, bucket_and_key, key_from}
use es_kaq_translator_v.Deployment.Deploy.{default_profile, last_member}
use es_kaq_translator_v.Training.Submission.{Args, truthy, build_channel_uris}
use es_kaq_translator_v.Training.Submission.Registration.{Sdk, model_card_of, main}
use es_kaq_translator_v.Training.Submission.Agreement.{
  registration, IsRegistrable, IsTrained, description_of, main-existing,
}

abbrev outputs : Dict Text Text
outputs =
    (text "TrainingDataBucketName", text "t") ∷ (text "SageMakerExecutionRoleArn", text "x") ∷ []

abbrev aws : Aws
aws = record {
  region_name = λ p. none;
  account = λ p. ok (text "1");
  description = λ p arn. ok (record {
    model_approval_status = none;
    model_package_arn = none;
    containers = [];
    customer_metadata = none;
  });
  stack = λ p name. ok (some outputs);
  downloaded = λ p bucket key. ok tt;
  uploaded = λ p bucket key. ok tt;
  group = λ p name. created;
  registered = λ p q. ok (text "new");
  str_of = λ n. n ∷ [];
  capitalize = λ t. t;
}

abbrev args : Args ℕ
args = record {
  environment = text "dev";
  region = text "us-east-1";
  instance_type = text "ml.g4dn.xlarge";
  max_run = 10800;
  corpus_version = text "almg-v1";
  corpus_prefix = none;
  direction = text "both";
  run_id = none;
  base_model = text "m2m";
  init_model_s3_uri = some (text "s3://b/old/model.tar.gz");
  epochs = 3;
  batch_size = 8;
  learning_rate = 5;
  max_length = 128;
  seed = 42;
  warmup_ratio = 5;
  weight_decay = 1;
  label_smoothing = 0;
  gradient_accumulation_steps = 4;
  subword_vocab_size = 2000;
  dropout = some 1;
  bpe_dropout_alpha = none;
  embedding_init_strategy = text "mean";
  model_package_group_name = text "g";
  approval_status = text "PendingManualApproval";
  dry_run = false;
  no_wait = false;
  no_logs = false;
  no_register = false;
  register_existing = none;
}

abbrev artifacts : Text
artifacts = text "s3://t/out/model.tar.gz"

abbrev described : Text → Sdk
described image = record {
  Number = ℕ;
  str_of = λ n. n ∷ [];
  generated_run_id = text "run-1";
  retrieve_image_uri = λ region instance_type. ok image;
  source_bundle = ok (text "/tmp/b");
  validated = λ role. ok tt;
  trained = λ config inputs wait logs. ok artifacts;
  training_job = λ job_name.
      ok
        (record { s3_model_artifacts = artifacts; training_image = image; hyperparameters = none });
  Content = Text;
  object = λ bucket key. (text "model_card.md", some (text "**BLEU**: 12.5")) ∷ [];
  decode = ok;
}

abbrev image_uri : Text
image_uri = text "image"

abbrev sdk : Sdk
sdk = record (described image_uri) {
  training_job = λ job_name. ok (description_of aws (described image_uri) args artifacts image_uri);
}

abbrev later : Args ℕ
later = record args { register_existing = some (text "job") }

IsTrained-args :
    IsTrained aws sdk args (text "t") (text "x") image_uri (text "/tmp/b") artifacts outputs
unfolding checked_outputs lookup truthy list_beq
IsTrained-args = record {
  fresh = refl;
  live = refl;
  waited = refl;
  registers = refl;
  stack = refl;
  checked = refl;
  has_bucket = refl;
  has_role = refl;
  image = refl;
  bundle = refl;
  validated = refl;
  trained = refl;
}

IsRegistrable-args :
    IsRegistrable aws sdk args
      (text "t")
      (text "out/model.tar.gz")
      artifacts
      (text "**BLEU**: 12.5")
      (text "new")
unfolding parse_s3_uri match_s3_uri starts_with partition bucket_and_key key_from model_card_of
    last_member group_result list_beq
IsRegistrable-args = record {
  url = refl;
  downloaded = refl;
  has_card = refl;
  group = refl;
  registered = λ p. refl;
}

main-existing_example :
    let calls =
      registration aws sdk args
        (text "t")
        (text "out/model.tar.gz")
        artifacts
        image_uri
        (text "**BLEU**: 12.5") in
    (main aws sdk args [] ≡ (
      ok 0,
      describe_stacks default_profile (text "dev-Data")
          ∷ simulate_principal_policy (text "x")
          ∷ create_training_job
              (text "traductor-kaqchikel-" ++ or_else none (text "run-1"))
              (build_channel_uris (text "t") none (some (text "s3://b/old/model.tar.gz")))
              true
          ∷ calls,
    ))
    × (main aws sdk later [] ≡ (ok 0, describe_training_job (text "job") ∷ calls))
unfolding truthy
main-existing_example =
    main-existing aws sdk args later (text "job") IsTrained-args IsRegistrable-args refl refl refl
      refl
