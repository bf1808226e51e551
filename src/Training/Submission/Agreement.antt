-- ===== src/Training/Submission/Agreement.antt =====
-- ml/training/submit_job.py: the two ways to register a run's model.
use es_kaq_translator_v.Base.{◌≡◌, refl, true, false, none, some, List, [], ◌∷◌, ◌++◌, not}
use es_kaq_translator_v.Base.Dict.{Dict, lookup}
use es_kaq_translator_v.Text.{Text, text, text_eq}
use es_kaq_translator_v.Api.Result.{ok}
use es_kaq_translator_v.Deployment.Aws.{
  Package, Call, describe_stacks, download_file, create_model_package_group, create_model_package,
  simulate_principal_policy, create_training_job, describe_training_job, Aws,
}
use es_kaq_translator_v.Deployment.PromoteModel.{
  call, or_else, or_key_error, resolve_stack_outputs, ensure_model_package_group, checked_outputs,
  group_result,
}
use es_kaq_translator_v.Deployment.S3Uri.{parse_s3_uri}
use es_kaq_translator_v.Deployment.Deploy.{default_profile, update}
use es_kaq_translator_v.Evaluation.ModelCard.{parse_model_card_metrics}
use es_kaq_translator_v.Training.Submission.{
  Args, truthy, build_channel_uris, build_checkpoint_s3_uri, build_hyperparameters,
  build_job_config,
}
use es_kaq_translator_v.Training.Submission.Registration.{
  JobDescription, Sdk, model_card_of, fetch_model_card_from_artifact, register_model_package,
  register_model, or_no_items, register_existing_job, register_named, register_submitted, submit,
  submit_new, dispatch, main,
}
use es_kaq_translator_v.Training.Submission.Recorded.{
  recorded, as_strings, reconstructed_lem, submitted_found,
}

module _ (aws : Aws) (sdk : Sdk) where
  -- The calls that register a model, and the package that they make.
  abbrev pub registration :
      (args : Args sdk.Number) (bucket key model_data_url image_uri card : Text) → List Call
  registration args bucket key model_data_url image_uri card =
      download_file default_profile bucket key
      ∷ create_model_package_group default_profile args.model_package_group_name
      ∷ create_model_package default_profile (record {
        model_package_group_name = args.model_package_group_name;
        approval_status = args.approval_status;
        image_uri = image_uri;
        model_data_url = model_data_url;
        customer_metadata =
            update (recorded sdk.str_of (or_else args.run_id sdk.generated_run_id) args)
              (parse_model_card_metrics card);
      })
      ∷ []

  -- The artifact is there, and the registry answers.
  pub record IsRegistrable (args : Args sdk.Number)
      (source_bucket key model_data_url card arn : Text) : Type 0 where
    pub url : parse_s3_uri model_data_url ≡ ok (source_bucket, key)
    pub downloaded : aws.downloaded default_profile source_bucket key ≡ ok tt
    pub has_card : model_card_of aws sdk (sdk.object source_bucket key) ≡ ok card
    pub group : group_result (aws.group default_profile args.model_package_group_name) ≡ ok tt
    pub registered : (p : Package) → aws.registered default_profile p ≡ ok arn

  -- A job is submitted under this configuration, waited for, and ends with these artifacts.
  pub record IsTrained (args : Args sdk.Number)
      (bucket role image_uri source_dir model_data_url : Text) (outputs : Dict Text Text)
      : Type 0 where
    pub fresh : truthy args.register_existing ≡ none
    pub live : args.dry_run ≡ false
    pub waited : args.no_wait ≡ false
    pub registers : args.no_register ≡ false
    pub stack :
        aws.stack default_profile (aws.capitalize args.environment ++ text "-Data")
        ≡ ok (some outputs)
    pub checked :
        checked_outputs (aws.capitalize args.environment ++ text "-Data") (some outputs)
        ≡ ok outputs
    pub has_bucket : lookup (text "TrainingDataBucketName") outputs ≡ some bucket
    pub has_role : lookup (text "SageMakerExecutionRoleArn") outputs ≡ some role
    pub image : sdk.retrieve_image_uri args.region args.instance_type ≡ ok image_uri
    pub bundle : sdk.source_bundle ≡ ok source_dir
    pub validated : sdk.validated role ≡ ok tt
    pub trained :
        sdk.trained
          (build_job_config sdk.generated_run_id bucket role args source_dir image_uri)
          (build_channel_uris bucket args.corpus_prefix args.init_model_s3_uri)
          true
          (not args.no_logs)
        ≡ ok model_data_url

  -- The description of that job, whose hyperparameters come back as strings.
  abbrev pub description_of :
      (args : Args sdk.Number) (model_data_url image_uri : Text) → JobDescription
  description_of args model_data_url image_uri = record {
    s3_model_artifacts = model_data_url;
    training_image = image_uri;
    hyperparameters = some (as_strings sdk.str_of sdk.generated_run_id args);
  }

  -- A run that trains and waits registers its model, and a later run with `--register-existing`, the
  -- same group and the same approval status registers the same job's model by its name: both end with
  -- status 0 and make the same package, with the same metadata, in that group and with that status,
  -- provided that the job's description returns the submitted hyperparameters as strings.
  pub main-existing :
      (args later : Args sdk.Number)
      {bucket role image_uri source_dir model_data_url source_bucket key card arn : Text}
      {outputs : Dict Text Text} (job_name : Text)
      → IsTrained args bucket role image_uri source_dir model_data_url outputs
      → IsRegistrable args source_bucket key model_data_url card arn
      → sdk.training_job job_name ≡ ok (description_of args model_data_url image_uri)
      → truthy later.register_existing ≡ some job_name
      → later.model_package_group_name ≡ args.model_package_group_name
      → later.approval_status ≡ args.approval_status
      → (main aws sdk args [] ≡ (
        ok 0,
        describe_stacks default_profile (aws.capitalize args.environment ++ text "-Data")
            ∷ simulate_principal_policy role
            ∷ create_training_job
                (text "traductor-kaqchikel-" ++ or_else args.run_id sdk.generated_run_id)
                (build_channel_uris bucket args.corpus_prefix args.init_model_s3_uri)
                true
            ∷ registration args source_bucket key model_data_url image_uri card,
      ))
        × (main aws sdk later [] ≡ (
          ok 0,
          describe_training_job job_name
              ∷ registration args source_bucket key model_data_url image_uri card,
        ))
  unfolding main dispatch register_named submit_new resolve_stack_outputs call or_key_error submit
      register_submitted register_model fetch_model_card_from_artifact register_model_package
      ensure_model_package_group register_existing_job or_no_items build_job_config
      build_checkpoint_s3_uri build_hyperparameters or_else model_card_of build_channel_uris update
  main-existing args later {card = card} job_name t r d named same_group same_status =
      let (run, found, built) = submitted_found sdk.str_of sdk.generated_run_id args in
      let m = parse_model_card_metrics card in
      (
        rw
            (
              t.fresh,
              t.stack,
              t.checked,
              t.has_bucket,
              t.has_role,
              t.image,
              t.bundle,
              t.live,
              t.validated,
              t.waited,
              t.trained,
              t.registers,
              found,
              r.url,
              r.downloaded,
              r.has_card,
              r.group,
              r.registered _,
              built m,
            )
            refl,
        rw
            (
              named,
              same_group,
              same_status,
              d,
              r.url,
              r.downloaded,
              r.has_card,
              r.group,
              r.registered _,
              reconstructed_lem sdk.str_of sdk.generated_run_id args m,
            )
            refl,
      )
