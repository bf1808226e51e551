-- ===== src/Deployment/PromoteModel/Success.antt =====
-- ml/deployment/promote_model.py: runs in which every call succeeds, and what they write.
use es_kaq_translator_v.Base.{
  ℕ, ◌≡◌, refl, ap, ◌∙◌, true, false, none, some, [], ◌∷◌, ◌++◌, ◌=?◌, if◌then◌else◌, elem, arith,
  nat_eq, ◌≢◌,
}
use es_kaq_translator_v.Base.Dict.{Dict, lookup, insert, lookup-insert}
use es_kaq_translator_v.Text.{Text, text, text_eq, starts_with}
use es_kaq_translator_v.Text.Split.{partition}
use es_kaq_translator_v.Api.Result.{ok}
use es_kaq_translator_v.Deployment.Aws.{
  get_caller_identity, describe_model_package, describe_stacks, download_file, upload_file,
  create_model_package_group, create_model_package, Aws, Args, Description, Info, Metadata, Package,
}
use es_kaq_translator_v.Deployment.PromoteModel.{
  call, source_profile_of, target_profile_of, ensure_approved, promote, describe_source, main,
  package_of, resolve_stack_outputs, download_source_artifact, upload_promoted_artifact,
  register_promoted_model, ensure_model_package_group, extract_source_artifact_info, or_key_error,
  parse_s3_uri, checked_outputs, group_result, s3_uri, copy_and_register,
  build_promoted_artifact_key, run_id_of, with_key, build_target_customer_metadata,
  build_model_package_arn, or_else,
}

partition-append :
    (sep : ℕ) (s rest : Text) → elem sep s ≡ false → partition sep (s ++ (sep ∷ rest)) ≡ (s, rest)
unfolding partition
partition-append sep [] rest h = ground arith
partition-append sep (c ∷ s) rest h = ground (arith, partition-append sep s rest)

-- The URI of an object is parsed back to its bucket and its key, for a bucket without a slash and a
-- key that is not empty.
pub parse_s3_uri-s3_uri :
    (bucket key : Text)
    → elem b'/' bucket ≡ false
    → key ≢ []
    → parse_s3_uri (s3_uri bucket key) ≡ ok (bucket, key)
unfolding parse_s3_uri s3_uri starts_with
parse_s3_uri-s3_uri bucket [] h n = elim (n refl) [ ]
parse_s3_uri-s3_uri bucket (c ∷ key) h n =
    rw (partition-append b'/' bucket (c ∷ key) h) (unfold with_key in refl)

-- The metadata of the target has the two fields of provenance, and is that of the source in every
-- other field.
pub build_target_customer_metadata_lem :
    (metadata : Metadata) (environment arn k : Text)
    → lookup k (build_target_customer_metadata metadata environment arn) ≡ (
        if text "promoted_from_model_package_arn" =? k
        then some arn
        else if text "promoted_from_environment" =? k
        then some environment
        else lookup k metadata)
unfolding build_target_customer_metadata
build_target_customer_metadata_lem metadata environment arn k =
    lookup-insert (text "promoted_from_model_package_arn") k arn _
    ∙ rw (lookup-insert (text "promoted_from_environment") k environment metadata) refl

module _ (aws : Aws) (args : Args) where
  abbrev source : Text
  source = source_profile_of args

  abbrev target : Text
  target = target_profile_of args

  abbrev stack_name : Text
  stack_name = aws.capitalize args.target_environment ++ text "-Data"

  -- The ARN of the package that is to be promoted.
  abbrev pub source_arn : (id : Text) → Text
  source_arn id =
      build_model_package_arn aws (or_else (aws.region_name source) (text "us-east-1")) id
        args.model_package_group_name args.source_model_package_version

  -- What a run needs of AWS to succeed.
  pub record IsWilling (id bucket source_bucket source_key arn : Text) (d : Description)
      (info : Info) (outputs : Dict Text Text) : Type 0 where
    pub account : aws.account source ≡ ok id
    pub described : aws.description source (source_arn id) ≡ ok d
    pub is_approved : ensure_approved d ≡ true
    pub extracted : extract_source_artifact_info d ≡ ok info
    pub stack : aws.stack target stack_name ≡ ok (some outputs)
    pub checked : checked_outputs stack_name (some outputs) ≡ ok outputs
    pub has_bucket : lookup (text "TrainingDataBucketName") outputs ≡ some bucket
    pub url : parse_s3_uri info.model_data_url ≡ ok (source_bucket, source_key)
    pub downloaded : aws.downloaded source source_bucket source_key ≡ ok tt
    pub uploaded :
        aws.uploaded target bucket (build_promoted_artifact_key (run_id_of aws info)) ≡ ok tt
    pub group : group_result (aws.group target args.model_package_group_name) ≡ ok tt
    pub registered :
        aws.registered target (
          package_of aws args info
            (s3_uri bucket (build_promoted_artifact_key (run_id_of aws info))))
        ≡ ok arn

  -- A run in which each call succeeds ends with status 0 after exactly these calls, in this order:
  -- the source package is looked up in the source account and the stack in the target account, the
  -- artifact is downloaded from the source and uploaded under its new key, and then the group and
  -- a package are created in the target account. The package is in that group, approved, with the
  -- source's image; it points at that upload, and its metadata are the source's with the
  -- environment and the package that it was promoted from.
  pub main-success :
      {id bucket source_bucket source_key arn : Text} {d : Description} {info : Info}
      {outputs : Dict Text Text}
      → IsWilling id bucket source_bucket source_key arn d info outputs
      → let run_id = elim (lookup (text "run_id") info.customer_metadata) as (λ o. Text) [
        | none ↦ text "unknown-run"
        | some name ↦ name
      ] in
        let key = text "promoted-artifacts/" ++ (run_id ++ text "/model.tar.gz") in
        (p : Package) × (main aws args [] ≡ (
          ok 0,
          get_caller_identity source
              ∷ describe_model_package source (source_arn id)
              ∷ describe_stacks target stack_name
              ∷ download_file source source_bucket source_key
              ∷ upload_file target bucket key
              ∷ create_model_package_group target args.model_package_group_name
              ∷ create_model_package target p
              ∷ [],
        ))
        × (p.model_package_group_name ≡ args.model_package_group_name)
        × (p.approval_status ≡ text "Approved")
        × (p.image_uri ≡ info.image_uri)
        × (p.model_data_url ≡ text "s3://" ++ (bucket ++ (b'/' ∷ key)))
        × ((k : Text)
            → lookup k p.customer_metadata ≡ (
                if text "promoted_from_model_package_arn" =? k
                then some info.model_package_arn
                else (if text "promoted_from_environment" =? k
                    then some args.source_environment
                    else lookup k info.customer_metadata)))
  unfolding main describe_source promote resolve_stack_outputs download_source_artifact
      copy_and_register upload_promoted_artifact register_promoted_model ensure_model_package_group
      call or_key_error package_of build_promoted_artifact_key s3_uri build_target_customer_metadata
  main-success {bucket = bucket} {info = info} h =
      let from = text "promoted_from_environment" in
      let with_environment = insert from args.source_environment info.customer_metadata in
      (
        package_of aws args info (s3_uri bucket (build_promoted_artifact_key (run_id_of aws info))),
        rw
            (
              h.account, h.described, h.is_approved, h.extracted, h.stack, h.checked, h.has_bucket,
              h.url, h.downloaded, h.uploaded, h.group, h.registered,
            )
            refl,
        refl,
        refl,
        refl,
        refl,
        λ k.
            let arn_key = text "promoted_from_model_package_arn" in
            lookup-insert arn_key k info.model_package_arn with_environment
            ∙ ap (λ rest. if arn_key =? k then some info.model_package_arn else rest)
                (lookup-insert from k args.source_environment info.customer_metadata),
      )
