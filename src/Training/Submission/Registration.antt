-- ===== src/Training/Submission/Registration.antt =====
-- ml/training/submit_job.py and ml/training/model_registry.py: a job is submitted, and its model is
-- registered, at once or afterwards by the job's name.
use es_kaq_translator_v.Base.{
  ℕ, Bool, Option, none, some, List, [], ◌∷◌, ◌++◌, map, elem, filter_b, not, ◌||◌, ◌==◌, nat_eq,
  if◌then◌else◌,
}
use es_kaq_translator_v.Base.Dict.{Dict, lookup, insert}
use es_kaq_translator_v.Text.{Text, text, text_eq}
use es_kaq_translator_v.Api.Result.{
  Result, ok, raise, Exec, pure, lift, ◌>>=◌, ◌>>◌, key_error, os_error, and_then,
}
use es_kaq_translator_v.Deployment.Aws.{
  Metadata, Package, Call, download_file, create_model_package, simulate_principal_policy,
  create_training_job, describe_training_job, Aws,
}
use es_kaq_translator_v.Deployment.PromoteModel.{
  call, or_key_error, resolve_stack_outputs, ensure_model_package_group,
}
use es_kaq_translator_v.Deployment.S3Uri.{parse_s3_uri}
use es_kaq_translator_v.Deployment.Package.{Archive}
use es_kaq_translator_v.Deployment.Deploy.{default_profile, update, last_member}
use es_kaq_translator_v.Evaluation.ModelCard.{parse_model_card_metrics}
use es_kaq_translator_v.Training.Submission.{
  Value, string, number, Args, truthy, set_some, build_channel_uris, JobConfig, build_job_config,
}

pub record RunMetadata (V : Type 0) : Type 0 where
  pub corpus_version : V
  pub direction : V
  pub run_id : V
  pub hyperparameters : Dict Text V

-- `metadata[f"hp_{key}"] = str(value)` for each item
unfoldable pub put_hyperparameters :
    {V : Type 0} → (str : V → Text) → Dict Text V → Metadata → Metadata
put_hyperparameters str [] metadata = metadata
put_hyperparameters str ((key, v) ∷ items) metadata =
    put_hyperparameters str items (insert (text "hp_" ++ key) (str v) metadata)

unfoldable pub build_customer_metadata :
    {V : Type 0} → (str : V → Text) → RunMetadata V → (metrics : Metadata) → Metadata
build_customer_metadata str run metrics =
    let metadata =
      (text "corpus_version", str run.corpus_version)
      ∷ (text "direction", str run.direction)
      ∷ (text "run_id", str run.run_id)
      ∷ [] in
    update (put_hyperparameters str run.hyperparameters metadata) metrics

-- `key.replace("-", "_")`
unfoldable pub underscored : Text → Text
underscored = map (λ c. if c == b'-' then b'_' else c)

abbrev pub excluded : List Text
excluded =
    text "train"
    ∷ text "validation"
    ∷ text "corpus-version"
    ∷ text "direction"
    ∷ text "run-id"
    ∷ text "output-path"
    ∷ text "training-image"
    ∷ text "region"
    ∷ text "register-model"
    ∷ text "model-package-group-name"
    ∷ text "approval-status"
    ∷ text "init-model"
    ∷ text "base-model"
    ∷ []

-- `d.get(k, "unknown")`
unfoldable pub or_unknown : Option Text → Text
or_unknown none = text "unknown"
or_unknown (some v) = v

unfoldable pub reconstruct_run_metadata : Dict Text Text → RunMetadata Text
reconstruct_run_metadata hyperparameters =
    let kept = filter_b (λ p. not (elem p.0 excluded)) hyperparameters in
    record {
      corpus_version = or_unknown (lookup (text "corpus-version") hyperparameters);
      direction = or_unknown (lookup (text "direction") hyperparameters);
      run_id = or_unknown (lookup (text "run-id") hyperparameters);
      hyperparameters = map (λ p. (underscored p.0, p.1)) kept;
    }

-- What `main` copies from the job's hyperparameters, under the keys of the second column.
abbrev pub submitted_keys : List (Text × Text)
submitted_keys =
    (text "epochs", text "epochs")
    ∷ (text "batch_size", text "batch-size")
    ∷ (text "learning_rate", text "learning-rate")
    ∷ (text "max_length", text "max-length")
    ∷ (text "seed", text "seed")
    ∷ (text "warmup_ratio", text "warmup-ratio")
    ∷ (text "weight_decay", text "weight-decay")
    ∷ (text "label_smoothing", text "label-smoothing")
    ∷ (text "gradient_accumulation_steps", text "gradient-accumulation-steps")
    ∷ (text "subword_vocab_size", text "subword-vocab-size")
    ∷ (text "embedding_init_strategy", text "embedding-init-strategy")
    ∷ []

-- A dict display whose values are `d[key]`.
unfoldable pub copied : {V : Type 0} → List (Text × Text) → Dict Text V → Result (Dict Text V)
copied [] d = ok []
copied ((name, key) ∷ keys) d =
    and_then (or_key_error key (lookup key d))
      (λ v. and_then (copied keys d) (λ rest. ok ((name, v) ∷ rest)))

-- The run's metadata that `main` builds from `config["hyperparameters"]`.
unfoldable pub submitted_run_metadata : {V : Type 0} → Dict Text V → Result (RunMetadata V)
submitted_run_metadata d = and_then (copied submitted_keys d) (λ items.
    let with_dropout = set_some (text "dropout") (lookup (text "dropout") d) items in
    let with_alpha =
      set_some (text "bpe_dropout_alpha") (lookup (text "bpe-dropout-alpha") d) with_dropout in
    and_then (or_key_error (text "corpus-version") (lookup (text "corpus-version") d)) (λ corpus.
      and_then (or_key_error (text "direction") (lookup (text "direction") d)) (λ direction.
        and_then (or_key_error (text "run-id") (lookup (text "run-id") d)) (λ run_id. ok (record {
          corpus_version = corpus;
          direction = direction;
          run_id = run_id;
          hyperparameters = with_alpha;
        })))))

-- What `describe_training_job` returns, of what is read of it; `HyperParameters` may be absent.
pub record JobDescription : Type 0 where
  pub s3_model_artifacts : Text
  pub training_image : Text
  pub hyperparameters : Option (Dict Text Text)

-- Python's numbers and `str` of one, the clock, the SageMaker SDK, the files below `ml/` and the
-- artifacts in S3.
pub record Sdk : Type 1 where
  pub Number : Type 0
  pub str_of : Number → Text
  pub generated_run_id : Text
  pub retrieve_image_uri : (region instance_type : Text) → Result Text
  -- `build_source_bundle`, with the directory that it makes
  pub source_bundle : Result Text
  -- the check of the role when `ModelTrainer` is constructed
  pub validated : (role : Text) → Result (Unit {0})
  -- `train`, with the artifacts of the job once it is waited for
  pub trained : JobConfig Number → (inputs : Dict Text Text) → (wait logs : Bool) → Result Text
  pub training_job : (job_name : Text) → Result JobDescription
  pub Content : Type 0
  pub object : (bucket key : Text) → Archive Content
  pub decode : Content → Result Text

unfoldable pub str_value : {Number : Type 0} → (Number → Text) → Value Number → Text
str_value str_of (string t) = t
str_value str_of (number n) = str_of n

module _ (aws : Aws) (sdk : Sdk) where
  unfoldable pub model_card_of : Archive sdk.Content → Result Text
  model_card_of tar = elim (last_member (text "model_card.md") tar none) [
    | none ↦ raise (key_error (text "model_card.md"))
    | some none ↦ raise os_error
    | some (some content) ↦ sdk.decode content
  ]

  unfoldable pub fetch_model_card_from_artifact : Text → Exec (List Call) Text
  fetch_model_card_from_artifact model_data_url = do
    (bucket, key) ← lift (parse_s3_uri model_data_url)
    call (download_file default_profile bucket key) (aws.downloaded default_profile bucket key)
    lift (model_card_of (sdk.object bucket key))

  unfoldable pub register_model_package : Package → Exec (List Call) Text
  register_model_package p = do
    ensure_model_package_group aws default_profile p.model_package_group_name
    call (create_model_package default_profile p) (aws.registered default_profile p)

  unfoldable pub register_model :
      {V : Type 0}
      → (str : V → Text) → (group_name approval_status model_data_url image_uri : Text)
      → RunMetadata V
      → Exec (List Call) Text
  register_model str group_name approval_status model_data_url image_uri run = do
    card ← fetch_model_card_from_artifact model_data_url
    register_model_package (record {
      model_package_group_name = group_name;
      approval_status = approval_status;
      image_uri = image_uri;
      model_data_url = model_data_url;
      customer_metadata = build_customer_metadata str run (parse_model_card_metrics card);
    })

  unfoldable pub or_no_items : Option (Dict Text Text) → Dict Text Text
  or_no_items none = []
  or_no_items (some d) = d

  unfoldable pub register_existing_job :
      (job_name group_name approval_status : Text) → Exec (List Call) Text
  register_existing_job job_name group_name approval_status = do
    description ← call (describe_training_job job_name) (sdk.training_job job_name)
    let run = reconstruct_run_metadata (or_no_items description.hyperparameters)
    register_model (λ t. t) group_name approval_status description.s3_model_artifacts
        description.training_image run

  -- What follows the job's submission.
  unfoldable pub register_submitted :
      Args sdk.Number → JobConfig sdk.Number → (model_data_url : Text) → Exec (List Call) ℕ
  register_submitted args config model_data_url = do
    run ← lift (submitted_run_metadata config.hyperparameters)
    register_model (str_value sdk.str_of) args.model_package_group_name args.approval_status
        model_data_url config.training_image run
    pure 0

  -- What follows the dry run's return; `finally` removes only the bundle.
  unfoldable pub submit :
      Args sdk.Number → (bucket : Text) → JobConfig sdk.Number → Exec (List Call) ℕ
  submit args bucket config = do
    call (simulate_principal_policy config.role) (sdk.validated config.role)
    let inputs = build_channel_uris bucket args.corpus_prefix args.init_model_s3_uri
    model_data_url ←
        call (create_training_job config.base_job_name inputs (not args.no_wait))
          (sdk.trained config inputs (not args.no_wait) (not args.no_logs))
    if args.no_wait || args.no_register
        then pure 0
        else register_submitted args config model_data_url

  unfoldable pub submit_new : Args sdk.Number → Exec (List Call) ℕ
  submit_new args = do
    outputs ← resolve_stack_outputs aws default_profile args.environment
    bucket ← lift (
        or_key_error (text "TrainingDataBucketName")
          (lookup (text "TrainingDataBucketName") outputs))
    role ← lift (
        or_key_error (text "SageMakerExecutionRoleArn")
          (lookup (text "SageMakerExecutionRoleArn") outputs))
    training_image ← lift (sdk.retrieve_image_uri args.region args.instance_type)
    source_dir ← lift sdk.source_bundle
    let config = build_job_config sdk.generated_run_id bucket role args source_dir training_image
    if args.dry_run then pure 0 else submit args bucket config

  unfoldable pub register_named : Args sdk.Number → (job_name : Text) → Exec (List Call) ℕ
  register_named args job_name = do
    register_existing_job job_name args.model_package_group_name args.approval_status
    pure 0

  -- Whether `--register-existing` names a job.
  unfoldable pub dispatch : Args sdk.Number → Option Text → Exec (List Call) ℕ
  dispatch args none = submit_new args
  dispatch args (some job_name) = register_named args job_name

  unfoldable pub main : Args sdk.Number → Exec (List Call) ℕ
  main args = dispatch args (truthy args.register_existing)
