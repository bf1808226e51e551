-- ===== src/Evaluation/Tests.antt =====
-- The theorems on evaluation at small corpora and cards.
use es_kaq_translator_v.Base.{
  ℕ, ◌≡◌, refl, true, false, none, some, List, [], ◌∷◌, ◌++◌, map, length, elem, ◌==◌, nat_eq, ◌=?◌,
  ◌&&◌, if◌then◌else◌, list_beq, any_b, arith, Bool-cases, inl, inr,
}
use es_kaq_translator_v.Base.Dict.{Dict, lookup}
use es_kaq_translator_v.Text.{Text, text, text_eq}
use es_kaq_translator_v.Text.Space.{strip, is_space}
use es_kaq_translator_v.Text.Lines.{is_break}
use es_kaq_translator_v.Api.Result.{ok, raise, value_error, and_then}
use es_kaq_translator_v.Evaluation.Metrics.{Sacrebleu, zip3, compute_metrics_by_direction}
use es_kaq_translator_v.Evaluation.Metrics.Buckets.{
  firsts, scores_of, scored, compute_metrics_by_direction_lem,
}
use es_kaq_translator_v.Evaluation.ModelCard.{
  Format, ModelCardData, render_model_card, parse_model_card_metrics, parse_model_card_run_metadata,
  is_ink, is_metric_char,
}
use es_kaq_translator_v.Evaluation.ModelCard.Others.{IsReadable}
use es_kaq_translator_v.Evaluation.ModelCard.RoundTrip.{parse-render}
use es_kaq_translator_v.Evaluation.Run.{lines_file, RunMetadata, card_data, run_evaluation}
use es_kaq_translator_v.Evaluation.Run.Aligned.{IsUnbroken}
use es_kaq_translator_v.Evaluation.Run.Report.{
  recorded, run_evaluation-written, run_evaluation-broken,
}
use es_kaq_translator_v.Evaluation.Checkpoint.{
  diagnose_word_boundary_reconstruction, is_ambiguous, build_train_sample_texts,
}
use es_kaq_translator_v.Evaluation.Checkpoint.Diagnosis.{IsComplete, diagnose-IsComplete}
use es_kaq_translator_v.Evaluation.Checkpoint.Reconstruction.{patch-train}
use es_kaq_translator_v.Training.Direction.{
  ok as built, TranslationExample, build_direction_examples,
}
use es_kaq_translator_v.Training.Extension.{training_sample_texts, kaqchikel_only}
use es_kaq_translator_v.Training.Tokenizer.{
  Transformers, extend_tokenizer_vocab, patch_word_boundary_decoding_for_checkpoint,
}
use es_kaq_translator_v.Training.Tokenizer.Patched.{loaded}
use es_kaq_translator_v.Text.{join}

-- The score of a corpus is its size, behind a 7.
abbrev sizes : Sacrebleu
sizes = record {
  Score = ℕ;
  corpus_bleu = λ hs rs. ok (length hs);
  corpus_chrf = λ hs rs. ok (length hs);
}

abbrev format : Format ℕ
format = record {
  Value = Text;
  one_decimal = λ n. text "7.5";
  grouped = λ n. text "3";
  show = λ t. t;
}

abbrev run : RunMetadata sizes format
run = record {
  run_id = text "run-1";
  timestamp = text "now";
  base_model = text "m2m";
  direction = text "both";
  corpus_version = text "v1";
  train_sentence_count = 2;
  hyperparameters = (text "epochs", text "10") ∷ [];
  notes = some (text "**BLEU**: 9");
}

abbrev hs : List Text
hs = text "utz" ∷ text " a b" ∷ text "" ∷ []

abbrev rs : List Text
rs = text "x" ∷ text "y" ∷ text "z" ∷ []

abbrev ds : List Text
ds = text "es->cak" ∷ text "cak->es" ∷ text "es->cak" ∷ []

compute_metrics_by_direction_lem_example : compute_metrics_by_direction sizes hs rs ds ≡ (
    if length hs == length rs && length rs == length ds
    then scored sizes (zip3 hs rs ds) (firsts ds)
    else raise value_error)
compute_metrics_by_direction_lem_example = compute_metrics_by_direction_lem sizes hs rs ds

unbroken : (l : Text) → any_b is_break l ≡ false → IsUnbroken l
unbroken [] h = tt
unbroken (c ∷ l) h = (ground arith, unbroken l (ground arith))

run_evaluation-written_example :
    run_evaluation sizes format (lines_file hs) (lines_file rs) run (some (lines_file ds))
    ≡ and_then (scores_of sizes (map strip hs) (map strip rs)) (λ m.
      and_then
        (scored sizes (zip3 (map strip hs) (map strip rs) (map strip ds)) (firsts (map strip ds)))
        (λ scores. ok (m, render_model_card format (recorded sizes format run 3 m scores))))
unfolding is_break
run_evaluation-written_example =
    run_evaluation-written sizes format run hs rs ds (λ e. cc) refl refl
      (unbroken (text "utz") refl, (unbroken (text " a b") refl, (tt, tt)))
      (unbroken (text "x") refl, (unbroken (text "y") refl, (unbroken (text "z") refl, tt)))
      (
        unbroken (text "es->cak") refl,
        (unbroken (text "cak->es") refl, (unbroken (text "es->cak") refl, tt)),
      )

run_evaluation-broken_example :
    run_evaluation sizes format
      (lines_file ([] ++ ((text "a" ++ (8232 ∷ text "b")) ∷ [])))
      (lines_file (text "x" ∷ []))
      run
      none
    ≡ raise value_error
unfolding is_break
run_evaluation-broken_example =
    run_evaluation-broken sizes format run [] [] (text "x" ∷ []) (text "a") (text "b") 8232 none tt
      tt ((refl, tt), tt) (refl, tt) (refl, tt) refl refl refl

abbrev card : ModelCardData format
card = card_data sizes format run rs (record { bleu = 3; chrf = 4; num_sentences = 3 }) none

card-IsReadable : IsReadable format card
unfolding is_ink is_space is_metric_char card_data list_beq
card-IsReadable = record {
  run_id = (refl, refl);
  timestamp = refl;
  base_model = (refl, refl);
  direction = (refl, refl);
  corpus_version = (refl, refl);
  counts = λ n. refl;
  hyperparameters = ((refl, refl, refl, refl, refl), tt);
  bleu = refl;
  chrf = refl;
}

parse-render_example :
    (parse_model_card_metrics (render_model_card format card)
      ≡ (text "bleu", text "7.5") ∷ (text "chrf", text "7.5") ∷ [])
    × (parse_model_card_run_metadata (render_model_card format card)
        ≡ (text "run_id", card.run_id)
          ∷ (text "base_model", card.base_model)
          ∷ (text "direction", card.direction)
          ∷ (text "corpus_version", card.corpus_version)
          ∷ [])
parse-render_example = parse-render format card card-IsReadable

abbrev base : Dict Text ℕ
base = (text "a", 0) ∷ []

abbrev hf : Transformers
hf = record { add_tokens = λ vocab tokens. vocab ++ map (λ t. (t, 9)) tokens; decode = join [] }

foreign_bc :
    (t : Text)
    → elem t (text "a" ∷ text "bc" ∷ []) ≡ true
    → is_ambiguous base t ≡ true
    → elem t [] ≡ false
    → elem t (text "bc" ∷ []) ≡ true
unfolding is_ambiguous lookup list_beq
foreign_bc t m amb b = elim (Bool-cases (text "a" =? t)) [
  | inl e ↦ absurd (let no : false ≡ true = rw e at amb in cc)
  | inr other ↦ rw other at m
]

diagnose-IsComplete_example : IsComplete (
    diagnose_word_boundary_reconstruction []
      ((text "a", 0) ∷ (text "bc", 1) ∷ [])
      base
      (some (length (text "bc" ∷ []))))
unfolding is_ambiguous
diagnose-IsComplete_example =
    diagnose-IsComplete [] (text "bc" ∷ []) ((text "a", 0) ∷ (text "bc", 1) ∷ []) base foreign_bc

patch-train_example :
    (examples : List TranslationExample) × (build_direction_examples
        ((text "si", text "ja") ∷ [])
        (text "both")
      ≡ built examples)
    × (let live = (extend_tokenizer_vocab hf (loaded hf base) (training_sample_texts examples)).1 in
        let texts =
          (build_train_sample_texts ((text "si", text "ja") ∷ []) (some kaqchikel_only)).0 in
        (patch_word_boundary_decoding_for_checkpoint (loaded hf live.vocab) base texts).1 ≡ live)
unfolding list_beq
patch-train_example = patch-train hf base ((text "si", text "ja") ∷ []) (text "both") refl
