-- ===== src/Training/Submission/Recorded.antt =====
-- ml/training/submit_job.py and ml/training/model_registry.py: what is registered of a run.
use es_kaq_translator_v.Base.{◌≡◌, refl, Option, none, some, inl, inr, [], ◌∷◌, ◌++◌, map, list_beq}
use es_kaq_translator_v.Base.Dict.{Dict, lookup, insert}
use es_kaq_translator_v.Text.{Text, text, text_eq}
use es_kaq_translator_v.Api.Result.{ok, and_then, Result-cases}
use es_kaq_translator_v.Deployment.Aws.{Metadata}
use es_kaq_translator_v.Deployment.PromoteModel.{or_else, or_key_error}
use es_kaq_translator_v.Deployment.Deploy.{update}
use es_kaq_translator_v.Training.Submission.{
  Args, truthy, set_some, option_map, build_hyperparameters, Value,
}
use es_kaq_translator_v.Training.Submission.Registration.{
  RunMetadata, put_hyperparameters, build_customer_metadata, reconstruct_run_metadata, or_unknown,
  underscored, copied, submitted_run_metadata, str_value,
}

abbrev pub entry : {N : Type 0} → (N → Text) → Text → Option N → Metadata
entry str_of key none = []
entry str_of key (some n) = (key, str_of n) ∷ []

-- What the registry is meant to record of a run, besides the metrics of its card.
abbrev pub recorded : {N : Type 0} → (N → Text) → (run_id : Text) → Args N → Metadata
recorded str_of run_id args =
    (text "corpus_version", args.corpus_version)
    ∷ (text "direction", args.direction)
    ∷ (text "run_id", run_id)
    ∷ (text "hp_epochs", str_of args.epochs)
    ∷ (text "hp_batch_size", str_of args.batch_size)
    ∷ (text "hp_learning_rate", str_of args.learning_rate)
    ∷ (text "hp_max_length", str_of args.max_length)
    ∷ (text "hp_seed", str_of args.seed)
    ∷ (text "hp_warmup_ratio", str_of args.warmup_ratio)
    ∷ (text "hp_weight_decay", str_of args.weight_decay)
    ∷ (text "hp_label_smoothing", str_of args.label_smoothing)
    ∷ (text "hp_gradient_accumulation_steps", str_of args.gradient_accumulation_steps)
    ∷ (text "hp_subword_vocab_size", str_of args.subword_vocab_size)
    ∷ (text "hp_embedding_init_strategy", args.embedding_init_strategy)
    ∷ (entry str_of (text "hp_dropout") args.dropout
        ++ entry str_of (text "hp_bpe_dropout_alpha") args.bpe_dropout_alpha)

module _ {N : Type 0} (str_of : N → Text) (generated : Text) where
  -- The hyperparameters of the job, each as a string.
  abbrev pub as_strings : Args N → Dict Text Text
  as_strings args = map (λ p. (p.0, str_value str_of p.1)) (build_hyperparameters generated args)

  reconstructed_cases :
      (args : Args N) (metrics : Metadata) (init_model : Option Text) (dropout alpha : Option N)
      → truthy args.init_model_s3_uri ≡ init_model
      → args.dropout ≡ dropout
      → args.bpe_dropout_alpha ≡ alpha
      → build_customer_metadata (λ t. t) (reconstruct_run_metadata (as_strings args)) metrics
        ≡ update (recorded str_of (or_else args.run_id generated) args) metrics
  unfolding build_customer_metadata reconstruct_run_metadata or_unknown underscored
      put_hyperparameters build_hyperparameters str_value set_some option_map lookup insert list_beq
  reconstructed_cases args metrics none none none i d a = rw (i, d, a) refl
  reconstructed_cases args metrics none none (some _) i d a = rw (i, d, a) refl
  reconstructed_cases args metrics none (some _) none i d a = rw (i, d, a) refl
  reconstructed_cases args metrics none (some _) (some _) i d a = rw (i, d, a) refl
  reconstructed_cases args metrics (some _) none none i d a = rw (i, d, a) refl
  reconstructed_cases args metrics (some _) none (some _) i d a = rw (i, d, a) refl
  reconstructed_cases args metrics (some _) (some _) none i d a = rw (i, d, a) refl
  reconstructed_cases args metrics (some _) (some _) (some _) i d a = rw (i, d, a) refl

  submitted_cases :
      (args : Args N) (metrics : Metadata) (init_model : Option Text) (dropout alpha : Option N)
      → truthy args.init_model_s3_uri ≡ init_model
      → args.dropout ≡ dropout
      → args.bpe_dropout_alpha ≡ alpha
      → and_then
          (submitted_run_metadata (build_hyperparameters generated args))
          (λ run. ok (build_customer_metadata (str_value str_of) run metrics))
        ≡ ok (update (recorded str_of (or_else args.run_id generated) args) metrics)
  unfolding build_customer_metadata submitted_run_metadata copied or_key_error put_hyperparameters
      build_hyperparameters str_value set_some option_map lookup insert list_beq
  submitted_cases args metrics none none none i d a = rw (i, d, a) refl
  submitted_cases args metrics none none (some _) i d a = rw (i, d, a) refl
  submitted_cases args metrics none (some _) none i d a = rw (i, d, a) refl
  submitted_cases args metrics none (some _) (some _) i d a = rw (i, d, a) refl
  submitted_cases args metrics (some _) none none i d a = rw (i, d, a) refl
  submitted_cases args metrics (some _) none (some _) i d a = rw (i, d, a) refl
  submitted_cases args metrics (some _) (some _) none i d a = rw (i, d, a) refl
  submitted_cases args metrics (some _) (some _) (some _) i d a = rw (i, d, a) refl

  -- What is registered of a job by its name, from its hyperparameters as strings.
  pub reconstructed_lem :
      (args : Args N) (metrics : Metadata)
      → build_customer_metadata (λ t. t) (reconstruct_run_metadata (as_strings args)) metrics
        ≡ update (recorded str_of (or_else args.run_id generated) args) metrics
  reconstructed_lem args metrics = reconstructed_cases args metrics _ _ _ refl refl refl

  -- What is registered of a job that was waited for.
  pub submitted_lem :
      (args : Args N) (metrics : Metadata)
      → and_then
          (submitted_run_metadata (build_hyperparameters generated args))
          (λ run. ok (build_customer_metadata (str_value str_of) run metrics))
        ≡ ok (update (recorded str_of (or_else args.run_id generated) args) metrics)
  submitted_lem args metrics = submitted_cases args metrics _ _ _ refl refl refl

  -- `main` finds every key that it copies.
  pub submitted_found :
      (args : Args N)
      → (run : RunMetadata (Value N)) × (submitted_run_metadata
            (build_hyperparameters generated args)
          ≡ ok run)
        × ((metrics : Metadata)
            → build_customer_metadata (str_value str_of) run metrics
              ≡ update (recorded str_of (or_else args.run_id generated) args) metrics)
  submitted_found args =
      elim (Result-cases (submitted_run_metadata (build_hyperparameters generated args))) [
        | inl (run, found) ↦ (run, found, λ metrics. let h = submitted_lem args metrics in cc)
        | inr (e, out) ↦ let h = submitted_lem args [] in absurd cc
      ]
