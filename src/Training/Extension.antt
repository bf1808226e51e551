-- ===== src/Training/Extension.antt =====
-- ml/training/train.py: the vocabulary extension of a training run, and what its model card records
-- of the scope of it.
pub mod Texts
use es_kaq_translator_v.Base.{
  ℕ, zero, suc, Bool, true, false, Option, none, some, List, [], ◌∷◌, ◌++◌, length, if◌then◌else◌,
  ◌=?◌,
}
use es_kaq_translator_v.Base.Dict.{Dict}
use es_kaq_translator_v.Text.{Text, text, text_eq}
use es_kaq_translator_v.Training.Direction.{
  TranslationExample, kaqchikel, collect_texts_for_language, all_direction_tag_tokens,
}
use es_kaq_translator_v.Training.Pieces.{count_decomposable_tokens}
use es_kaq_translator_v.Training.Subwords.{SentencePiece, default_min_subword_length}
use es_kaq_translator_v.Training.Embedding.{Numpy}
use es_kaq_translator_v.Training.Tokenizer.{
  Transformers, Tokenizer, extend_tokenizer_vocab, extend_tokenizer_vocab_with_subwords, Strategy,
  mean, compositional, unknown, Resized, ok, value_error, index_error,
  resize_embeddings_for_new_tokens,
}

unfoldable pub is_compositional : Strategy → Bool
is_compositional mean = false
is_compositional compositional = true
is_compositional unknown = false

-- The texts that the first step is computed from.
unfoldable pub training_sample_texts : List TranslationExample → List Text
training_sample_texts examples =
    collect_texts_for_language examples kaqchikel ++ all_direction_tag_tokens

-- The tokenizer and the tokens it got, after both steps. Without Kaqchikel texts there is no second.
unfoldable pub extended_by_both :
    Transformers
    → SentencePiece
    → (model_type : Text) → (kaqchikel_texts : List Text) → (subword_vocab_size : ℕ)
    → List Text × Tokenizer
    → Option (List Text × Tokenizer)
extended_by_both hf sp model_type [] size first = some first
extended_by_both hf sp model_type (t ∷ texts) size (added, tokenizer) =
    elim (extend_tokenizer_vocab_with_subwords hf sp tokenizer (t ∷ texts) size model_type
      default_min_subword_length) [
        | none ↦ none
        | some (subwords, tokenizer') ↦ some (added ++ subwords, tokenizer')
      ]

-- What the caller gets, with the tokenizer and the matrix as they are left.
pub record Extended (Row : Type 0) : Type 0 where
  pub tokenizer : Tokenizer
  pub weights : List Row
  pub added_tokens : List Text
  pub compositional_coverage : Option ℕ

unfoldable pub extend_vocabulary_for_examples :
    Transformers
    → SentencePiece
    → (np : Numpy) → (model_type : Text) → Tokenizer
    → List np.Row
    → List TranslationExample
    → (subword_vocab_size : ℕ) → Strategy
    → Resized (Extended np.Row)
extend_vocabulary_for_examples hf sp np model_type tokenizer weights examples size strategy =
    let base_vocab = tokenizer.vocab in
    let first = extend_tokenizer_vocab hf tokenizer (training_sample_texts examples) in
    let texts = collect_texts_for_language examples kaqchikel in
    elim (extended_by_both hf sp model_type texts size first) [
      | none ↦ value_error
      | some (added, tokenizer') ↦
          let given = is_compositional strategy in
          elim (resize_embeddings_for_new_tokens np weights (length added) strategy
            (if given then some added else none) (if given then some base_vocab else none)) [
              | ok weights' ↦ ok (record {
                tokenizer = tokenizer';
                weights = weights';
                added_tokens = added;
                compositional_coverage =
                    if given then some (count_decomposable_tokens added base_vocab) else none;
              })
              | value_error ↦ value_error
              | index_error ↦ index_error
            ]
    ]

abbrev pub kaqchikel_only : Text
kaqchikel_only = text "kaqchikel_only"

-- What a run's own card records, from what its ancestor's card says, if it has an ancestor.
unfoldable pub resolve_vocab_extension_scoping :
    (init_model : Option Text) → (ancestor_scoping : Option Text) → Option Text
resolve_vocab_extension_scoping none ancestor = some kaqchikel_only
resolve_vocab_extension_scoping (some []) ancestor = some kaqchikel_only
resolve_vocab_extension_scoping (some (c ∷ init_model)) none = none
resolve_vocab_extension_scoping (some (c ∷ init_model)) (some scoping) =
    if scoping =? kaqchikel_only then some kaqchikel_only else none
