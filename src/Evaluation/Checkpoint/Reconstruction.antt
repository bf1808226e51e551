-- ===== src/Evaluation/Checkpoint/Reconstruction.antt =====
-- ml/evaluation/evaluate_checkpoint.py: the reconstructed boundary tokens of a checkpoint, against the
-- tokenizer that ml/training/train.py extended.
use es_kaq_translator_v.Base.{
  ℕ, ◌≡◌, refl, ap, ◌∙◌, true, false, some, List, ◌++◌, map, elem, Bool-cases, inl, inr, arith,
  elem-append, ◌=?◌, list_beq,
}
use es_kaq_translator_v.Base.Dict.{Dict}
use es_kaq_translator_v.Text.{Text, text, text_eq}
use es_kaq_translator_v.Data.Normalize.{SentencePair}
use es_kaq_translator_v.Training.Direction.{
  ok, TranslationExample, direction_choices, build_direction_examples, all_direction_tag_tokens,
  forward, backward,
}
use es_kaq_translator_v.Training.Direction.Examples.{build-collect}
use es_kaq_translator_v.Training.Extension.{training_sample_texts, kaqchikel_only}
use es_kaq_translator_v.Training.Extension.Texts.{SameSet, compute_new_tokens-same}
use es_kaq_translator_v.Training.Tokenizer.{
  Transformers, extend_tokenizer_vocab, patch_word_boundary_decoding_for_checkpoint,
  mark_word_boundary_tokens, select_whole_word_tokens, reconstruct_whole_word_boundary_tokens,
}
use es_kaq_translator_v.Training.Tokenizer.Patched.{loaded, patch-extend}
use es_kaq_translator_v.Evaluation.Checkpoint.{build_train_sample_texts}

-- The Kaqchikel texts of a corpus, with the tags.
scoped : List SentencePair → List Text
scoped pairs = (build_train_sample_texts pairs (some kaqchikel_only)).0

scoped_lem :
    (pairs : List SentencePair) → scoped pairs ≡ map (λ p. p.1) pairs ++ all_direction_tag_tokens
unfolding scoped build_train_sample_texts list_beq
scoped_lem pairs = refl

texts-same :
    (pairs : List SentencePair) (direction : Text)
    → elem direction direction_choices ≡ true
    → (examples : List TranslationExample) × (build_direction_examples pairs direction
        ≡ ok examples)
      × SameSet (scoped pairs) (training_sample_texts examples)
unfolding training_sample_texts
texts-same pairs direction chosen =
    let (to_cak, to_es, twice, other) = build-collect pairs direction in
    let cak = map (λ p. p.1) pairs in
    let tags = all_direction_tag_tokens in
    elim (Bool-cases (text "es->cak" =? direction)) [
      | inl e ↦
          let d = (text_eq.beq_iff (text "es->cak") direction).0 e in
          (map forward pairs, rw (← d) to_cak.0, λ a. rw (scoped_lem pairs, to_cak.1.1) refl)
      | inr n1 ↦ elim (Bool-cases (text "cak->es" =? direction)) [
        | inl e ↦
            let d = (text_eq.beq_iff (text "cak->es") direction).0 e in
            (map backward pairs, rw (← d) to_es.0, λ a. rw (scoped_lem pairs, to_es.1.1) refl)
        | inr n2 ↦ elim (Bool-cases (text "both" =? direction)) [
          | inl e ↦
              let d = (text_eq.beq_iff (text "both") direction).0 e in
              (
                map forward pairs ++ map backward pairs,
                rw (← d) twice.0,
                λ a.
                    rw (scoped_lem pairs, twice.1.1)
                      (elem-append a cak tags
                        ∙ (let e1 = elem-append a (cak ++ cak) tags in
                            let e2 = elem-append a cak cak in ground arith)),
              )
          | inr n3 ↦
              absurd
                (let no : elem direction direction_choices ≡ false = rw (n1, n2, n3) refl in cc)
        ]
      ]
    ]

-- A corpus is read for training in any of the three directions, a fresh tokenizer is extended with
-- its texts, saved and loaded again: patching it for evaluation, from the corpus, the base
-- vocabulary and the recorded scope, gives that same tokenizer back.
pub patch-train :
    (hf : Transformers) (base : Dict Text ℕ) (pairs : List SentencePair) (direction : Text)
    → elem direction direction_choices ≡ true
    → (examples : List TranslationExample) × (build_direction_examples pairs direction
        ≡ ok examples)
      × (let live =
            (extend_tokenizer_vocab hf (loaded hf base) (training_sample_texts examples)).1 in
          let texts = (build_train_sample_texts pairs (some kaqchikel_only)).0 in
          (patch_word_boundary_decoding_for_checkpoint (loaded hf live.vocab) base texts).1 ≡ live)
unfolding patch_word_boundary_decoding_for_checkpoint reconstruct_whole_word_boundary_tokens scoped
patch-train hf base pairs direction chosen =
    let (examples, built, same) = texts-same pairs direction chosen in
    let live = (extend_tokenizer_vocab hf (loaded hf base) (training_sample_texts examples)).1 in
    (
      examples,
      built,
      ap (λ ts. mark_word_boundary_tokens (loaded hf live.vocab) (select_whole_word_tokens ts))
            (compute_new_tokens-same (scoped pairs) (training_sample_texts examples) base same)
          ∙ patch-extend hf base (training_sample_texts examples),
    )
