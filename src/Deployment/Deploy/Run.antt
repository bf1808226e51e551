-- ===== src/Deployment/Deploy/Run.antt =====
-- ml/deployment/deploy.py: the calls of a run.
use es_kaq_translator_v.Base.{
  ◌≡◌, refl, true, false, Option, none, some, ap, ◌∙◌, ◌=?◌, if◌then◌else◌, List, [], ◌∷◌, ◌++◌,
  inl, inr,
}
use es_kaq_translator_v.Base.Dict.{Dict, lookup, insert, lookup-insert}
use es_kaq_translator_v.Text.{Text, text, text_eq}
use es_kaq_translator_v.Api.Result.{Result, ok, raise, Exec, continue, Result-cases}
use es_kaq_translator_v.Deployment.Aws.{
  Metadata, Package, Call, describe_stacks, download_file, upload_file, create_model_package_group,
  create_model_package, Aws,
}
use es_kaq_translator_v.Deployment.PromoteModel.{
  call, or_key_error, resolve_stack_outputs, ensure_model_package_group, s3_uri, checked_outputs,
  group_result,
}
use es_kaq_translator_v.Deployment.S3Uri.{parse_s3_uri}
use es_kaq_translator_v.Deployment.Package.{
  Tree, build_inference_code_dir, repackage_model_artifact,
}
use es_kaq_translator_v.Evaluation.ModelCard.{
  parse_model_card_metrics, parse_model_card_run_metadata,
}
use es_kaq_translator_v.Deployment.Deploy.{
  Args, Host, default_profile, build_inference_artifact_key, build_inference_customer_metadata,
  update, run_id_of, read_model_card_from_local_tar, download_model_artifact,
  upload_inference_artifact, package_of, register_inference_model, deploy, main,
}

-- A method that leaves the calls as they are.
continue_kept :
    {A B : Type 0} (r : Result A) (f : A → Exec (List Call) B) (calls : List Call)
    → ((a : A) → (f a calls).1 ≡ calls)
    → (continue r f calls).1 ≡ calls
continue_kept (ok a) f calls h = h a
continue_kept (raise e) f calls h = refl

-- The value of the last entry of that key, or what was there.
abbrev pub last_value : Text → Metadata → Option Text → Option Text
last_value k [] before = before
last_value k ((j, v) ∷ e) before = last_value k e (if j =? k then some v else before)

lookup-update : (k : Text) (e d : Metadata) → lookup k (update d e) ≡ last_value k e (lookup k d)
unfolding update
lookup-update k [] d = refl
lookup-update k ((j, v) ∷ e) d =
    lookup-update k e (insert j v d) ∙ ap (last_value k e) (lookup-insert j k v d)

module _ (aws : Aws) (host : Host) (args : Args) where
  abbrev pub stack_name : Text
  stack_name = aws.capitalize args.environment ++ text "-Data"

  -- A dry run makes one call, whatever AWS answers: it looks up the stack's outputs. Nothing is
  -- downloaded, uploaded or registered.
  pub main-dry_run :
      args.dry_run ≡ true
      → (main aws host args []).1 ≡ describe_stacks default_profile stack_name ∷ []
  unfolding main resolve_stack_outputs call
  main-dry_run dry =
      let name = text "TrainingDataBucketName" in
      elim (Result-cases (aws.stack default_profile stack_name)) [
        | inr (e, out) ↦ rw out refl
        | inl (outputs, found) ↦
            rw found (elim (Result-cases (checked_outputs stack_name outputs)) [
              | inr (e, out) ↦ rw out refl
              | inl (o, good) ↦ rw good (
                  continue_kept (or_key_error name (lookup name o)) _ _ (λ bucket.
                    continue_kept (host.retrieve_image_uri args.region) _ _
                      (λ image_uri. rw dry refl)))
            ])
      ]

  -- What a run needs of AWS and of the host to succeed.
  pub record IsWilling (source_bucket source_key bucket image_uri card arn : Text)
      (outputs : Dict Text Text) (code tree : Tree host.Content) : Type 0 where
    pub live : args.dry_run ≡ false
    pub stack : aws.stack default_profile stack_name ≡ ok (some outputs)
    pub checked : checked_outputs stack_name (some outputs) ≡ ok outputs
    pub has_bucket : lookup (text "TrainingDataBucketName") outputs ≡ some bucket
    pub image : host.retrieve_image_uri args.region ≡ ok image_uri
    pub url : parse_s3_uri args.source_model_data_url ≡ ok (source_bucket, source_key)
    pub downloaded : aws.downloaded default_profile source_bucket source_key ≡ ok tt
    pub has_card :
        read_model_card_from_local_tar aws host (host.object source_bucket source_key) ≡ ok card
    pub has_code : build_inference_code_dir host.Content host.ml_root ≡ ok code
    pub repackaged :
        repackage_model_artifact host.Content host.placed
          (host.object source_bucket source_key)
          code
        ≡ ok tree
    pub uploaded :
        host.upload tree bucket
          (build_inference_artifact_key (run_id_of (parse_model_card_run_metadata card)))
        ≡ ok tt
    pub group : group_result (aws.group default_profile args.model_package_group_name) ≡ ok tt
    pub registered : (p : Package) → aws.registered default_profile p ≡ ok arn

  -- A run in which each step succeeds ends with status 0 after exactly these calls, in this order:
  -- the stack is looked up, the source is downloaded, the repackaged archive is uploaded under the
  -- key of the run that the card in the source names, and then the group and a package are created.
  -- The package is in that group with the given approval status, points at that upload and at the
  -- inference image, and its metadata are the card's metrics and identifiers, behind them the kind
  -- of the artifact and the source's URL, and nothing else.
  pub main-deploys :
      {source_bucket source_key bucket image_uri card arn : Text} {outputs : Dict Text Text}
      {code tree : Tree host.Content}
      → IsWilling source_bucket source_key bucket image_uri card arn outputs code tree
      → let run = parse_model_card_run_metadata card in
        let run_id = elim (lookup (text "run_id") run) as (λ o. Text) [
          | none ↦ text "unknown-run"
          | some name ↦ name
        ] in
        let key = text "inference-artifacts/" ++ (run_id ++ text "/model.tar.gz") in
        (p : Package) × (main aws host args [] ≡ (
          ok 0,
          describe_stacks default_profile stack_name
              ∷ download_file default_profile source_bucket source_key
              ∷ upload_file default_profile bucket key
              ∷ create_model_package_group default_profile args.model_package_group_name
              ∷ create_model_package default_profile p
              ∷ [],
        ))
        × (p.model_package_group_name ≡ args.model_package_group_name)
        × (p.approval_status ≡ args.approval_status)
        × (p.image_uri ≡ image_uri)
        × (p.model_data_url ≡ text "s3://" ++ (bucket ++ (b'/' ∷ key)))
        × ((k : Text)
            → lookup k p.customer_metadata
              ≡ last_value k (parse_model_card_metrics card) (
                  last_value k run (
                    if text "artifact_type" =? k
                    then some (text "inference")
                    else (if text "source_model_data_url" =? k
                        then some args.source_model_data_url
                        else none))))
  unfolding main resolve_stack_outputs call or_key_error deploy download_model_artifact
      upload_inference_artifact register_inference_model ensure_model_package_group package_of
      build_inference_artifact_key run_id_of s3_uri build_inference_customer_metadata lookup
  main-deploys {bucket = bucket} {image_uri = image_uri} {card = card} h =
      let run = parse_model_card_run_metadata card in
      let metrics = parse_model_card_metrics card in
      let base =
        (text "artifact_type", text "inference")
        ∷ (text "source_model_data_url", args.source_model_data_url)
        ∷ [] in
      (
        package_of aws host args (s3_uri bucket (build_inference_artifact_key (run_id_of run)))
            image_uri run metrics,
        rw
            (
              h.stack,
              h.checked,
              h.has_bucket,
              h.image,
              h.live,
              h.url,
              h.downloaded,
              h.has_card,
              h.has_code,
              h.repackaged,
              h.uploaded,
              h.group,
              h.registered _,
            )
            refl,
        refl,
        refl,
        refl,
        refl,
        λ k.
            lookup-update k metrics (update base run)
            ∙ ap (last_value k metrics) (lookup-update k run base),
      )
