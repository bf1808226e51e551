-- ===== src/Training/Submission.antt =====
-- ml/training/submit_job.py: the configuration of a training job.
pub mod Registration
pub mod Recorded
pub mod Agreement
mod Tests
use es_kaq_translator_v.Base.{
  ℕ, Bool, true, false, Option, none, some, List, [], ◌∷◌, ◌++◌, elem, ◌==◌, nat_eq, ◌=?◌,
  if◌then◌else◌,
}
use es_kaq_translator_v.Base.Dict.{Dict, lookup, insert}
use es_kaq_translator_v.Text.{Text, text, text_eq}
use es_kaq_translator_v.Deployment.PromoteModel.{or_else}

-- What a dict of hyperparameters holds: a string, or an integer or a float of Python's.
pub data Value (Number : Type 0) : Type 0 where
  string : Text → Value Number
  number : Number → Value Number

pub record Args (Number : Type 0) : Type 0 where
  pub environment : Text
  pub region : Text
  pub instance_type : Text
  pub max_run : Number
  pub corpus_version : Text
  pub corpus_prefix : Option Text
  pub direction : Text
  pub run_id : Option Text
  pub base_model : Text
  pub init_model_s3_uri : Option Text
  pub epochs : Number
  pub batch_size : Number
  pub learning_rate : Number
  pub max_length : Number
  pub seed : Number
  pub warmup_ratio : Number
  pub weight_decay : Number
  pub label_smoothing : Number
  pub gradient_accumulation_steps : Number
  pub subword_vocab_size : Number
  pub dropout : Option Number
  pub bpe_dropout_alpha : Option Number
  pub embedding_init_strategy : Text
  pub model_package_group_name : Text
  pub approval_status : Text
  pub dry_run : Bool
  pub no_wait : Bool
  pub no_logs : Bool
  pub no_register : Bool
  pub register_existing : Option Text

-- Whether `if s:` holds of a string that may be `None`, and then the string.
unfoldable pub truthy : Option Text → Option Text
truthy none = none
truthy (some []) = none
truthy (some (c ∷ s)) = some (c ∷ s)

-- `d[k] = v`, where there is a value
unfoldable pub set_some : {V : Type 0} → Text → Option V → Dict Text V → Dict Text V
set_some k none d = d
set_some k (some v) d = insert k v d

abbrev pub init_model_channel_name : Text
init_model_channel_name = text "init-model"

-- `uri.rsplit("/", 1)[-1]`
unfoldable pub basename : Text → Text
basename [] = []
basename (c ∷ s) =
    let rest = basename s in if elem b'/' s then rest else (if c == b'/' then s else c ∷ s)

unfoldable pub init_model_container_path : Text → Text
init_model_container_path uri =
    text "/opt/ml/input/data/" ++ (init_model_channel_name ++ (b'/' ∷ basename uri))

unfoldable pub build_channel_uris :
    (bucket : Text) → (corpus_prefix init_model_s3_uri : Option Text) → Dict Text Text
build_channel_uris bucket corpus_prefix init_model_s3_uri =
    let prefix = or_else corpus_prefix (text "corpus/almg/v1") in
    let under = λ (name : Text). text "s3://" ++ (bucket ++ (b'/' ∷ (prefix ++ name))) in
    let channels =
      (text "train", under (text "/train.tsv"))
      ∷ (text "validation", under (text "/val.tsv"))
      ∷ [] in
    set_some init_model_channel_name (truthy init_model_s3_uri) channels

unfoldable pub build_checkpoint_s3_uri : (bucket run_id : Text) → Text
build_checkpoint_s3_uri bucket run_id =
    text "s3://" ++ (bucket ++ (text "/model-checkpoints/" ++ (run_id ++ text "/")))

-- `f(x)`, where there is an x
unfoldable pub option_map : {A B : Type 0} → (A → B) → Option A → Option B
option_map f none = none
option_map f (some a) = some (f a)

-- `generated` is what `_generate_run_id` returns, which reads the clock.
unfoldable pub build_hyperparameters :
    {Number : Type 0} → (generated : Text) → Args Number → Dict Text (Value Number)
build_hyperparameters generated args =
    let hyperparameters =
      (text "train", string (text "/opt/ml/input/data/train/train.tsv"))
      ∷ (text "validation", string (text "/opt/ml/input/data/validation/val.tsv"))
      ∷ (text "corpus-version", string args.corpus_version)
      ∷ (text "base-model", string args.base_model)
      ∷ (text "direction", string args.direction)
      ∷ (text "run-id", string (or_else args.run_id generated))
      ∷ (text "epochs", number args.epochs)
      ∷ (text "batch-size", number args.batch_size)
      ∷ (text "learning-rate", number args.learning_rate)
      ∷ (text "max-length", number args.max_length)
      ∷ (text "seed", number args.seed)
      ∷ (text "warmup-ratio", number args.warmup_ratio)
      ∷ (text "weight-decay", number args.weight_decay)
      ∷ (text "label-smoothing", number args.label_smoothing)
      ∷ (text "gradient-accumulation-steps", number args.gradient_accumulation_steps)
      ∷ (text "subword-vocab-size", number args.subword_vocab_size)
      ∷ (text "embedding-init-strategy", string args.embedding_init_strategy)
      ∷ [] in
    let with_init_model =
      set_some (text "init-model")
        (option_map (λ uri. string (init_model_container_path uri)) (truthy args.init_model_s3_uri))
        hyperparameters in
    let with_dropout =
      set_some (text "dropout") (option_map (λ n. number n) args.dropout) with_init_model in
    set_some (text "bpe-dropout-alpha") (option_map (λ n. number n) args.bpe_dropout_alpha)
      with_dropout

-- Of the dict, what the run uses; the versions and the entry point are constants of the file.
pub record JobConfig (Number : Type 0) : Type 0 where
  pub role : Text
  pub instance_type : Text
  pub max_run : Number
  pub output_path : Text
  pub checkpoint_s3_uri : Text
  pub training_image : Text
  pub hyperparameters : Dict Text (Value Number)
  pub base_job_name : Text
  pub channels : Dict Text Text
  pub model_package_group_name : Text
  pub approval_status : Text
  pub source_dir : Text

-- `hyperparameters["run-id"]` is the argument or the generated name.
unfoldable pub build_job_config :
    {Number : Type 0}
    → (generated bucket role : Text) → Args Number
    → (source_dir training_image : Text) → JobConfig Number
build_job_config generated bucket role args source_dir training_image =
    let run_id = or_else args.run_id generated in
    record {
      role = role;
      instance_type = args.instance_type;
      max_run = args.max_run;
      output_path = text "s3://" ++ (bucket ++ text "/model-artifacts/");
      checkpoint_s3_uri = build_checkpoint_s3_uri bucket run_id;
      training_image = training_image;
      hyperparameters = build_hyperparameters generated args;
      base_job_name = text "traductor-kaqchikel-" ++ run_id;
      channels = build_channel_uris bucket args.corpus_prefix args.init_model_s3_uri;
      model_package_group_name = args.model_package_group_name;
      approval_status = args.approval_status;
      source_dir = source_dir;
    }
