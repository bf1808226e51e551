-- ===== src/Evaluation/Run/Report.antt =====
-- ml/evaluation/run.py: the report of a run whose files ml/training/train.py and
-- ml/evaluation/evaluate_checkpoint.py wrote.
use es_kaq_translator_v.Base.{
  ℕ, ◌≡◌, ◌≢◌, refl, sym, true, false, Option, none, some, List, [], ◌∷◌, ◌++◌, map, length, ◌==◌,
  nat_eq, arith, inl, inr, All, length-map, length-append,
}
use es_kaq_translator_v.Base.Dict.{Dict}
use es_kaq_translator_v.Text.{Text}
use es_kaq_translator_v.Text.Space.{strip}
use es_kaq_translator_v.Text.Lines.{is_break, universal_newlines_id}
use es_kaq_translator_v.Api.Result.{ok, raise, value_error, and_then, Result-cases}
use es_kaq_translator_v.Evaluation.Metrics.{Sacrebleu, MetricsResult, zip3, compute_metrics}
use es_kaq_translator_v.Evaluation.Metrics.Buckets.{
  firsts, scores_of, scored, compute_metrics-scores_of, compute_metrics_by_direction_lem,
}
use es_kaq_translator_v.Evaluation.ModelCard.{Format, ModelCardData, render_model_card}
use es_kaq_translator_v.Evaluation.ModelCard.Search.{ended}
use es_kaq_translator_v.Evaluation.Run.{
  lines_file, read_lines, RunMetadata, scores_by_direction, card_data, report, run_evaluation,
}
use es_kaq_translator_v.Evaluation.Run.Aligned.{
  IsUnbroken, read-lines_file, lines_file-ended, broken, broken-no_return, splitlines-broken,
}

ne_nil-same : (xs ys : List Text) → length xs ≡ length ys → xs ≢ [] → ys ≢ []
ne_nil-same [] ys e ne = absurd (ne refl)
ne_nil-same (x ∷ xs) [] e ne = absurd (omega arith)
ne_nil-same (x ∷ xs) (y ∷ ys) e ne = λ z. cc

append-ne_nil : (xs : List Text) (y : Text) (ys : List Text) → (xs ++ (y ∷ ys)) ≢ []
append-ne_nil [] y ys = λ z. cc
append-ne_nil (x ∷ xs) y ys = λ z. cc

equal-lengths :
    (xs ys : List Text)
    → length xs ≡ length ys
    → (length (map strip xs) == length (map strip ys)) ≡ true
equal-lengths xs ys e = ground (arith, length-map strip xs, length-map strip ys)

module _ (sacrebleu : Sacrebleu) (format : Format sacrebleu.Score)
    (run : RunMetadata sacrebleu format) where
  -- What the card records: the run's own data, the number of references, and the scores.
  abbrev pub recorded :
      (references : ℕ)
      → MetricsResult sacrebleu.Score
      → Dict Text (MetricsResult sacrebleu.Score)
      → ModelCardData format
  recorded references metrics scores = record {
    run_id = run.run_id;
    timestamp = run.timestamp;
    base_model = run.base_model;
    direction = run.direction;
    corpus_version = run.corpus_version;
    train_sentence_count = run.train_sentence_count;
    validation_sentence_count = references;
    hyperparameters = run.hyperparameters;
    metrics = metrics;
    notes = run.notes;
    per_direction_metrics = some scores;
  }

  report_lem :
      (hs rs ds : List Text)
      → (length hs == length rs) ≡ true
      → (length rs == length ds) ≡ true
      → report sacrebleu format hs rs run (some ds)
        ≡ and_then (scores_of sacrebleu hs rs) (λ m.
          and_then
            (scored sacrebleu (zip3 hs rs ds) (firsts ds))
            (λ scores. ok (m, render_model_card format (recorded (length rs) m scores))))
  unfolding report scores_by_direction card_data
  report_lem hs rs ds e f =
      let directed = compute_metrics_by_direction_lem sacrebleu hs rs ds in
      let whole = compute_metrics-scores_of sacrebleu hs rs e in
      elim (Result-cases (scores_of sacrebleu hs rs)) [
        | inr (x, out) ↦ rw (report, whole, out) refl
        | inl (m, found) ↦ elim (Result-cases (scored sacrebleu (zip3 hs rs ds) (firsts ds))) [
          | inr (x, out) ↦ rw (report, whole, found, directed, e, f, out) refl
          | inl (scores, done) ↦ rw (report, whole, found, directed, e, f, done) refl
        ]
      ]

  report-apart :
      (hs rs : List Text) (directions : Option (List Text))
      → (length hs == length rs) ≡ false
      → report sacrebleu format hs rs run directions ≡ raise value_error
  unfolding report compute_metrics
  report-apart hs rs directions e =
      let out : compute_metrics sacrebleu hs rs ≡ raise value_error =
        rw (e, compute_metrics) refl in
      rw (report, out) refl

  run_evaluation-apart :
      (predictions references : Text) (directions : Option Text)
      → (length (read_lines predictions) == length (read_lines references)) ≡ false
      → run_evaluation sacrebleu format predictions references run directions ≡ raise value_error
  unfolding run_evaluation
  run_evaluation-apart predictions references none e =
      report-apart (read_lines predictions) (read_lines references) none e
  run_evaluation-apart predictions references (some ds) e =
      report-apart (read_lines predictions) (read_lines references) (some (read_lines ds)) e

  -- When the three files were written from lists of one positive length whose lines hold no line
  -- break, the report is that of the stripped lines themselves, each in its place: BLEU and chrF are
  -- those of the corpus as a whole, each direction has those of exactly its own lines, and the card
  -- records both, the number of references and the run's own data; an error is one of sacrebleu's.
  pub run_evaluation-written :
      (hs rs ds : List Text)
      → hs ≢ []
      → length hs ≡ length rs
      → length rs ≡ length ds
      → All IsUnbroken hs
      → All IsUnbroken rs
      → All IsUnbroken ds
      → run_evaluation sacrebleu format (lines_file hs) (lines_file rs) run (some (lines_file ds))
        ≡ and_then (scores_of sacrebleu (map strip hs) (map strip rs)) (λ m.
          and_then
            (scored sacrebleu
              (zip3 (map strip hs) (map strip rs) (map strip ds))
              (firsts (map strip ds)))
            (λ scores.
              ok (m, render_model_card format (recorded (length (map strip rs)) m scores))))
  unfolding run_evaluation
  run_evaluation-written hs rs ds ne e f h k l =
      let rs_ne = ne_nil-same hs rs e ne in
      rw
        (
          read-lines_file hs ne h,
          read-lines_file rs rs_ne k,
          read-lines_file ds (ne_nil-same rs ds f rs_ne) l,
        )
        (report_lem (map strip hs) (map strip rs) (map strip ds) (equal-lengths hs rs e)
          (equal-lengths rs ds f))

  -- A hypothesis that holds a code point at which `str.splitlines` ends a line, other than a
  -- carriage return, is read back as two lines: with as many references as hypotheses, all other
  -- lines unbroken, the report raises `ValueError`.
  pub run_evaluation-broken :
      (before after rs : List Text) (a c : Text) (b : ℕ) (directions : Option Text)
      → All IsUnbroken before
      → All IsUnbroken after
      → All IsUnbroken rs
      → IsUnbroken a
      → IsUnbroken c
      → is_break b ≡ true
      → (b == 13) ≡ false
      → length rs ≡ length (before ++ ((a ++ (b ∷ c)) ∷ after))
      → run_evaluation sacrebleu format
          (lines_file (before ++ ((a ++ (b ∷ c)) ∷ after)))
          (lines_file rs)
          run
          directions
        ≡ raise value_error
  unfolding read_lines broken
  run_evaluation-broken before after rs a c b directions h k l left right e f same =
      let hs = before ++ ((a ++ (b ∷ c)) ∷ after) in
      let hs_ne : hs ≢ [] = append-ne_nil before (a ++ (b ∷ c)) after in
      let read : read_lines (lines_file hs) ≡ map strip (before ++ (a ∷ c ∷ after)) =
        rw
          (
            lines_file-ended hs hs_ne,
            universal_newlines_id (ended hs)
                (broken-no_return before after a c b h k left right e f),
            splitlines-broken before after a c b h k left right e f,
          )
          refl in
      let apart : (length (map strip (before ++ (a ∷ c ∷ after))) == length (map strip rs))
          ≡ false =
        ground (
          arith,
          length-map strip (before ++ (a ∷ c ∷ after)),
          length-map strip rs,
          length-append before (a ∷ c ∷ after),
          length-append before ((a ++ (b ∷ c)) ∷ after),
        ) in
      run_evaluation-apart (lines_file hs) (lines_file rs) directions
        (rw (read, read-lines_file rs (ne_nil-same hs rs (sym same) hs_ne) l) apart)
