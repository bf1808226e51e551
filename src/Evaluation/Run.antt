-- ===== src/Evaluation/Run.antt =====
-- ml/evaluation/run.py: the report of a run from its files of hypotheses, references and directions,
-- as ml/training/train.py and ml/evaluation/evaluate_checkpoint.py write them.
pub mod Aligned
pub mod Report
use es_kaq_translator_v.Base.{ℕ, Option, none, some, List, [], ◌∷◌, ◌++◌, map, length}
use es_kaq_translator_v.Base.Dict.{Dict}
use es_kaq_translator_v.Text.{Text, join}
use es_kaq_translator_v.Text.Space.{strip}
use es_kaq_translator_v.Text.Lines.{splitlines, universal_newlines}
use es_kaq_translator_v.Api.Result.{Result, ok, raise}
use es_kaq_translator_v.Evaluation.Metrics.{
  Sacrebleu, MetricsResult, compute_metrics, compute_metrics_by_direction,
}
use es_kaq_translator_v.Evaluation.ModelCard.{Format, ModelCardData, render_model_card}

-- `"\n".join(lines) + "\n"`, what is written to each of the files.
unfoldable pub lines_file : List Text → Text
lines_file ls = join (10 ∷ []) ls ++ (10 ∷ [])

-- The lines of a file with this text.
unfoldable pub read_lines : Text → List Text
read_lines content = map strip (splitlines (universal_newlines content))

module _ (sacrebleu : Sacrebleu) (format : Format sacrebleu.Score) where
  -- The keys of the dict that the callers pass.
  pub record RunMetadata : Type 0 where
    pub run_id : Text
    pub timestamp : Text
    pub base_model : Text
    pub direction : Text
    pub corpus_version : Text
    pub train_sentence_count : ℕ
    pub hyperparameters : Dict Text format.Value
    pub notes : Option Text

  unfoldable pub scores_by_direction :
      Option (List Text)
      → (hypotheses references : List Text)
      → Result (Option (Dict Text (MetricsResult sacrebleu.Score)))
  scores_by_direction none hypotheses references = ok none
  scores_by_direction (some directions) hypotheses references =
      elim (compute_metrics_by_direction sacrebleu hypotheses references directions) [
        | raise e ↦ raise e
        | ok scores ↦ ok (some scores)
      ]

  unfoldable pub card_data :
      RunMetadata
      → (references : List Text) → MetricsResult sacrebleu.Score
      → Option (Dict Text (MetricsResult sacrebleu.Score))
      → ModelCardData format
  card_data run references metrics by_direction = record {
    run_id = run.run_id;
    timestamp = run.timestamp;
    base_model = run.base_model;
    direction = run.direction;
    corpus_version = run.corpus_version;
    train_sentence_count = run.train_sentence_count;
    validation_sentence_count = length references;
    hyperparameters = run.hyperparameters;
    metrics = metrics;
    notes = run.notes;
    per_direction_metrics = by_direction;
  }

  -- The metrics and the text of the card, from the lines of the files.
  unfoldable pub report :
      (hypotheses references : List Text)
      → RunMetadata
      → (directions : Option (List Text)) → Result (MetricsResult sacrebleu.Score × Text)
  report hs rs run directions = elim (compute_metrics sacrebleu hs rs) [
    | raise e ↦ raise e
    | ok metrics ↦ elim (scores_by_direction directions hs rs) [
      | raise e ↦ raise e
      | ok scores ↦ ok (metrics, render_model_card format (card_data run rs metrics scores))
    ]
  ]

  -- The same from the texts of the files; the card is what is written to `output_path`.
  unfoldable pub run_evaluation :
      (predictions references : Text)
      → RunMetadata
      → (directions : Option Text) → Result (MetricsResult sacrebleu.Score × Text)
  run_evaluation predictions references run none =
      report (read_lines predictions) (read_lines references) run none
  run_evaluation predictions references run (some directions) =
      report (read_lines predictions) (read_lines references) run (some (read_lines directions))
