-- ===== src/Evaluation/Checkpoint.antt =====
-- ml/evaluation/evaluate_checkpoint.py: what is read from a checkpoint, and the reconstruction of its
-- word-boundary tokens.
pub mod Reconstruction
pub mod Diagnosis
use es_kaq_translator_v.Base.{
  ℕ, zero, suc, ◌+◌, ◌*◌, ◌-◌, Bool, true, false, Option, none, some, List, [], ◌∷◌, ◌++◌, map,
  length, drop, leb, ltb, elem, filter_b, not, ◌&&◌, ◌==◌, nat_eq, ◌=?◌, if◌then◌else◌,
}
use es_kaq_translator_v.Base.Dict.{Dict, has_key}
use es_kaq_translator_v.Text.{Text, text, text_eq, starts_with}
use es_kaq_translator_v.Text.Space.{lstrip}
use es_kaq_translator_v.Api.Result.{Result, ok, raise, value_error}
use es_kaq_translator_v.Data.Normalize.{SentencePair}
use es_kaq_translator_v.Deployment.S3Uri.{match_s3_uri}
use es_kaq_translator_v.Evaluation.ModelCard.{is_ink, match_field, label}
use es_kaq_translator_v.Training.Averaging.{Digits}
use es_kaq_translator_v.Training.Direction.{all_direction_tag_tokens}
use es_kaq_translator_v.Training.Extension.{kaqchikel_only}
use es_kaq_translator_v.Training.Subwords.{word_boundary_marker}
use es_kaq_translator_v.Training.Vocab.{sorted_set}

-- What reading a path gives: no regular file, an `OSError`, or its text.
pub data Read : Type 0 where
  no_file os_error : Read
  content : Text → Read

-- The text of `model_card.md` in the checkpoint's directory.
unfoldable pub read_checkpoint_model_card_text : (model_card : Read) → Option Text
read_checkpoint_model_card_text no_file = none
read_checkpoint_model_card_text os_error = none
read_checkpoint_model_card_text (content t) = some t

-- `re.compile(r"-\s*" + label + r"\s*([class]+)").search(card)`, the group
unfoldable pub search_item : (label : Text) → (ℕ → Bool) → Text → Option Text
search_item label p [] = none
search_item label p (c ∷ s) =
    let later = search_item label p s in
    let here = if c == 45 then match_field label p (lstrip s) else none in
    elim here [ some v ↦ some v | none ↦ later ]

-- `int(s)`, for a text of digits
unfoldable pub int_of : Digits → ℕ → Text → ℕ
int_of digits n [] = n
int_of digits n (c ∷ s) = int_of digits (n * 10 + digits.digit_value c) s

unfoldable pub extract_new_tokens_added : Digits → Option Text → Option ℕ
extract_new_tokens_added digits none = none
extract_new_tokens_added digits (some card) =
    elim (search_item (label (text "new_tokens_added")) digits.is_digit card) [
      | none ↦ none
      | some group ↦ some (int_of digits 0 group)
    ]

unfoldable pub extract_vocab_extension_scoping : Option Text → Option Text
extract_vocab_extension_scoping none = none
extract_vocab_extension_scoping (some card) =
    search_item (label (text "vocab_extension_scoping")) is_ink card

-- The warning about an unknown scope is a Boolean beside the texts.
unfoldable pub build_train_sample_texts :
    List SentencePair → (vocab_extension_scoping : Option Text) → List Text × Bool
build_train_sample_texts pairs none =
    ((map (λ p. p.0) pairs ++ map (λ p. p.1) pairs) ++ all_direction_tag_tokens, false)
build_train_sample_texts pairs (some scoping) =
    if scoping =? kaqchikel_only
    then (map (λ p. p.1) pairs ++ all_direction_tag_tokens, false)
    else ((map (λ p. p.0) pairs ++ map (λ p. p.1) pairs) ++ all_direction_tag_tokens, true)

-- What is reported to stderr.
pub data Report : Type 0 where
  over_reconstructed : List Text → Report
  not_cross_checked : (count : ℕ) → Report
  under_reconstructed : List Text → (new_tokens_added : ℕ) → Report

-- An added token of several code points without a marker.
unfoldable pub is_ambiguous : (base_vocab : Dict Text ℕ) → Text → Bool
is_ambiguous base_vocab token =
    not (has_key token base_vocab)
    && ltb 1 (length token)
    && not (starts_with token word_boundary_marker)

-- `sorted(ambiguous_checkpoint_tokens - boundary_token_set)`
unfoldable pub unaccounted_tokens :
    (boundary_tokens : List Text) → (checkpoint_vocab base_vocab : Dict Text ℕ) → List Text
unaccounted_tokens boundary checkpoint_vocab base_vocab = sorted_set (
    filter_b (λ token. is_ambiguous base_vocab token && not (elem token boundary))
      (map (λ p. p.0) checkpoint_vocab))

unfoldable pub report_over : List Text → List Report
report_over [] = []
report_over (t ∷ tokens) = over_reconstructed (t ∷ tokens) ∷ []

unfoldable pub report_unaccounted : List Text → (new_tokens_added : Option ℕ) → List Report
report_unaccounted [] added = []
report_unaccounted (t ∷ tokens) none = not_cross_checked (length (t ∷ tokens)) ∷ []
report_unaccounted (t ∷ tokens) (some added) =
    if ltb added (length (t ∷ tokens)) then under_reconstructed (t ∷ tokens) added ∷ [] else []

-- For a tokenizer that has `get_vocab`.
unfoldable pub diagnose_word_boundary_reconstruction :
    (boundary_tokens : List Text)
    → (checkpoint_vocab base_vocab : Dict Text ℕ) → (new_tokens_added : Option ℕ) → List Report
diagnose_word_boundary_reconstruction boundary checkpoint_vocab base_vocab added =
    report_over (sorted_set (filter_b (λ token. not (has_key token checkpoint_vocab)) boundary))
    ++ report_unaccounted (unaccounted_tokens boundary checkpoint_vocab base_vocab) added

-- The path that is loaded: that of a temporary file for a URI, whose bucket and key are downloaded.
unfoldable pub resolve_checkpoint_source :
    (downloaded : (bucket key : Text) → Result Text)
    → (resolve_model_source : Text → Result Text) → Text
    → Result Text
resolve_checkpoint_source downloaded resolve source =
    if starts_with source (text "s3://")
    then elim (match_s3_uri source) [
      | none ↦ raise value_error
      | some (bucket, key) ↦ elim (downloaded bucket key) [
        | raise e ↦ raise e
        | ok path ↦ resolve path
      ]
    ]
    else resolve source

-- What ml/training/train.py reads of the card of the run that it continues.
unfoldable pub read_ancestor_vocab_extension_scoping : (model_card : Read) → Option Text
read_ancestor_vocab_extension_scoping card =
    extract_vocab_extension_scoping (read_checkpoint_model_card_text card)
