-- ===== src/Deployment/PromoteModel/Guard.antt =====
-- ml/deployment/promote_model.py: the calls of a run, and the approval that it looks for.
use es_kaq_translator_v.Base.{
  ◌≡◌, refl, ap, ◌∙◌, true, some, List, [], ◌∷◌, ◌++◌, ◌⊎◌, inl, inr, ◌≢◌, All, All-append,
  Bool-cases, Option-cases,
}
use es_kaq_translator_v.Base.Dict.{lookup}
use es_kaq_translator_v.Text.{Text, text, text_eq}
use es_kaq_translator_v.Api.Result.{
  Result, ok, raise, Exec, pure, lift, continue, ◌>>=◌, Result-cases,
}
use es_kaq_translator_v.Deployment.Aws.{
  Call, get_caller_identity, describe_model_package, describe_stacks, download_file, upload_file,
  create_model_package_group, simulate_principal_policy, create_training_job, describe_training_job,
  create_model_package, Aws, Args, Description, Info, Package,
}
use es_kaq_translator_v.Deployment.PromoteModel.{
  approved, call, source_profile_of, target_profile_of, ensure_approved, promote, describe_source,
  main, package_of, resolve_stack_outputs, download_source_artifact, upload_promoted_artifact,
  register_promoted_model, ensure_model_package_group, extract_source_artifact_info, or_key_error,
  parse_s3_uri, checked_outputs, group_result, s3_uri, copy_and_register,
  build_promoted_artifact_key, run_id_of,
}

-- The account that a call may be made in; a registration is approved.
abbrev pub IsOwn : (source target : Text) → Call → Type 0
IsOwn source target (get_caller_identity p) = p ≡ source
IsOwn source target (describe_model_package p arn) = p ≡ source
IsOwn source target (describe_stacks p name) = p ≡ target
IsOwn source target (download_file p bucket key) = p ≡ source
IsOwn source target (upload_file p bucket key) = p ≡ target
IsOwn source target (create_model_package_group p name) = p ≡ target
IsOwn source target (create_model_package p q) = (p ≡ target) × (q.approval_status ≡ approved)
IsOwn source target (simulate_principal_policy role) = ⊥
IsOwn source target (create_training_job name inputs wait) = ⊥
IsOwn source target (describe_training_job name) = ⊥

-- A call that neither copies nor changes anything.
abbrev pub IsLook : Call → Type 0
IsLook (get_caller_identity p) = Unit
IsLook (describe_model_package p arn) = Unit
IsLook (describe_stacks p name) = Unit
IsLook (download_file p bucket key) = ⊥
IsLook (upload_file p bucket key) = ⊥
IsLook (create_model_package_group p name) = ⊥
IsLook (create_model_package p q) = ⊥
IsLook (simulate_principal_policy role) = ⊥
IsLook (create_training_job name inputs wait) = ⊥
IsLook (describe_training_job name) = ⊥

-- All calls that a method adds satisfy `P`.
Adds : {A : Type 0} → (Call → Type 0) → Exec (List Call) A → Type 0
Adds P m = (calls : List Call) → All P calls → All P (m calls).1

module _ (P : Call → Type 0) where
  Adds-call : {A : Type 0} (c : Call) (r : Result A) → P c → Adds P (call c r)
  unfolding Adds call
  Adds-call c r h calls k = All-append P calls (c ∷ []) k (h, tt)

  Adds-lift : {A : Type 0} (r : Result A) → Adds P (lift r)
  unfolding Adds
  Adds-lift r calls k = k

  Adds-pure : {A : Type 0} (a : A) → Adds P (pure a)
  unfolding Adds
  Adds-pure a calls k = k

  Adds-continue :
      {A B : Type 0} (r : Result A) (f : A → Exec (List Call) B)
      → ((a : A) → Adds P (f a))
      → Adds P (continue r f)
  unfolding Adds
  Adds-continue (ok a) f h calls k = h a calls k
  Adds-continue (raise e) f h calls k = k

  Adds-bind :
      {A B : Type 0} (m : Exec (List Call) A) (f : A → Exec (List Call) B)
      → Adds P m
      → ((a : A) → Adds P (f a))
      → Adds P (m >>= f)
  Adds-bind m f h k =
      unfold Adds in λ calls c. Adds-continue (m calls).0 f k (m calls).1 (h calls c)

module _ (aws : Aws) (args : Args) where
  Own : Call → Type 0
  Own = IsOwn (source_profile_of args) (target_profile_of args)

  resolve-Own :
      (environment : Text)
      → Adds Own (resolve_stack_outputs aws (target_profile_of args) environment)
  unfolding resolve_stack_outputs Own
  resolve-Own environment =
      let target = target_profile_of args in
      let name = aws.capitalize environment ++ text "-Data" in
      Adds-bind Own (call (describe_stacks target name) (aws.stack target name)) _
        (Adds-call Own (describe_stacks target name) (aws.stack target name) refl)
        (λ outputs. Adds-lift Own (checked_outputs name outputs))

  download-Own : (url : Text) → Adds Own (download_source_artifact aws (source_profile_of args) url)
  unfolding download_source_artifact Own
  download-Own url =
      let source = source_profile_of args in
      Adds-bind Own (lift (parse_s3_uri url)) _ (Adds-lift Own (parse_s3_uri url)) (λ place.
        Adds-call Own (download_file source place.0 place.1) (aws.downloaded source place.0 place.1)
          refl)

  upload-Own :
      (bucket key : Text)
      → Adds Own (upload_promoted_artifact aws (target_profile_of args) bucket key)
  unfolding upload_promoted_artifact Own
  upload-Own bucket key =
      let target = target_profile_of args in
      Adds-bind Own (call (upload_file target bucket key) (aws.uploaded target bucket key)) _
        (Adds-call Own (upload_file target bucket key) (aws.uploaded target bucket key) refl)
        (λ done. Adds-pure Own (s3_uri bucket key))

  register-Own :
      (p : Package)
      → p.approval_status ≡ approved
      → Adds Own (register_promoted_model aws (target_profile_of args) p)
  unfolding register_promoted_model ensure_model_package_group Own
  register-Own p h =
      let target = target_profile_of args in
      let name = p.model_package_group_name in
      Adds-bind Own
        (call (create_model_package_group target name) (group_result (aws.group target name))) _
        (Adds-call Own (create_model_package_group target name)
          (group_result (aws.group target name)) refl)
        (λ done. Adds-call Own (create_model_package target p) (aws.registered target p) (refl, h))

  package_of-approved :
      (info : Info) (url : Text) → (package_of aws args info url).approval_status ≡ approved
  unfolding package_of
  package_of-approved info url = refl

  placed : (info : Info) (bucket : Text) → Adds Own (copy_and_register aws args info bucket)
  unfolding copy_and_register
  placed info bucket =
      let target = target_profile_of args in
      let key = build_promoted_artifact_key (run_id_of aws info) in
      Adds-bind Own (upload_promoted_artifact aws target bucket key) _ (upload-Own bucket key)
        (λ url.
          Adds-bind Own (register_promoted_model aws target (package_of aws args info url)) _
            (register-Own (package_of aws args info url) (package_of-approved info url))
            (λ arn. Adds-pure Own 0))

  promote-Own : (d : Description) → Adds Own (promote aws args d)
  unfolding promote
  promote-Own d =
      let source = source_profile_of args in
      let target = target_profile_of args in
      let bucket_name = text "TrainingDataBucketName" in
      Adds-bind Own (lift (extract_source_artifact_info d)) _
        (Adds-lift Own (extract_source_artifact_info d))
        (λ info.
          Adds-bind Own (resolve_stack_outputs aws target args.target_environment) _
            (resolve-Own args.target_environment)
            (λ outputs.
              Adds-bind Own (lift (or_key_error bucket_name (lookup bucket_name outputs))) _
                (Adds-lift Own (or_key_error bucket_name (lookup bucket_name outputs)))
                (λ bucket.
                  Adds-bind Own (download_source_artifact aws source info.model_data_url) _
                    (download-Own info.model_data_url) (λ done. placed info bucket))))

  approved_of :
      (d : Description) → ensure_approved d ≡ true → d.model_approval_status ≡ some approved
  unfolding ensure_approved
  approved_of d h = elim (Option-cases d.model_approval_status) [
    | inl absent ↦ cc (rw (absent, ensure_approved) at h)
    | inr (status, e) ↦
        e ∙ ap some ((text_eq.beq_iff status approved).0 (rw (e, ensure_approved) at h))
  ]

  -- Every call is made in the right account: what is read of the source there, and what is written
  -- in the target account alone, as approved; none is about a training job. Besides, either the run
  -- looks at things only and does not end with status 0, or the source package was described as
  -- approved.
  pub main-guard :
      let (r, calls) = main aws args [] in
      All (IsOwn (source_profile_of args) (target_profile_of args)) calls
      × ((All IsLook calls × (r ≢ ok 0))
          ⊎ ((id : Text) × (d : Description) × (aws.account (source_profile_of args) ≡ ok id)
              × ((describe_source aws args id []).0 ≡ ok d)
              × (d.model_approval_status ≡ some approved)))
  unfolding main describe_source call Adds Own
  main-guard = elim (Result-cases (aws.account (source_profile_of args))) [
    | inr (e, failed) ↦ rw failed ((refl, tt), inl ((tt, tt), λ q. cc))
    | inl (id, found) ↦ elim (Result-cases (describe_source aws args id []).0) [
      | inr (e, refused) ↦ rw (found, refused) ((refl, (refl, tt)), inl ((tt, (tt, tt)), λ q. cc))
      | inl (d, described) ↦ elim (Bool-cases (ensure_approved d)) [
        | inl passed ↦
            rw (found, described, passed)
              (
                promote-Own d _ (refl, (refl, tt)),
                inr (id, d, refl, described, approved_of d passed),
              )
        | inr stopped ↦
            rw (found, described, stopped) ((refl, (refl, tt)), inl ((tt, (tt, tt)), λ q. cc))
      ]
    ]
  ]
