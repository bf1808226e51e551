-- ===== src/Evaluation/ModelCard/RoundTrip.antt =====
-- ml/evaluation/model_card.py and ml/deployment/deploy.py: a card that is rendered and parsed again.
use es_kaq_translator_v.Base.{
  ℕ, ◌≡◌, refl, ap, ◌∙◌, true, some, [], ◌∷◌, ◌++◌, drop, take, nat_eq, list_beq,
}
use es_kaq_translator_v.Base.Dict.{insert}
use es_kaq_translator_v.Text.{Text, text, text_eq}
use es_kaq_translator_v.Text.Space.{is_space}
use es_kaq_translator_v.Evaluation.ModelCard.{
  Format, ModelCardData, field_line, metrics_lines, head_lines, card_lines, render_model_card,
  is_metric_char, is_ink, match_field, search_field, search_title, label, insert_found,
  parse_model_card_metrics, parse_model_card_run_metadata,
}
use es_kaq_translator_v.Evaluation.ModelCard.Search.{
  ended, match_field-hit, IsName, plain, search-field, search-below,
}
use es_kaq_translator_v.Evaluation.ModelCard.Others.{
  skips_field, metric_char-ink, ink-ink, word-no_star, IsReadable, render-ended, head-IsOther,
  metrics_and_below, skip-to_metrics,
}

title-hit :
    (c : ℕ) (s v : Text)
    → match_field (text "# Model card:") is_ink (c ∷ s) ≡ some v
    → search_title true (c ∷ s) ≡ some v
unfolding search_title
title-hit c s v e = rw (search_title, e) refl

module _ {Score : Type 0} (format : Format Score) where
  open format use {Value, one_decimal, grouped, show}

  bleu_named : IsName 66 (text "LEU")
  bleu_named = record { head_ne_colon = refl; starless = refl }

  chrf_named : IsName 99 (text "hrF")
  chrf_named = record { head_ne_colon = refl; starless = refl }

  base_named : IsName 66 (text "ase model")
  base_named = record { head_ne_colon = refl; starless = refl }

  direction_named : IsName 68 (text "irection")
  direction_named = record { head_ne_colon = refl; starless = refl }

  corpus_named : IsName 67 (text "orpus version")
  corpus_named = record { head_ne_colon = refl; starless = refl }

  module _ (card : ModelCardData format) (h : IsReadable format card) where
    search-bleu :
        search_field (label (text "BLEU")) is_metric_char (render_model_card format card)
        ≡ some (one_decimal card.metrics.bleu)
    unfolding metrics_lines list_beq is_metric_char
    search-bleu =
        let ls = text "LEU" in
        skip-to_metrics format card h 66 ls bleu_named is_metric_char
          (head-IsOther format card h 66 ls bleu_named is_metric_char refl refl refl refl refl refl)
          (λ key v q. q.2)
        ∙ search-field 66 ls bleu_named is_metric_char (one_decimal card.metrics.bleu) _ h.bleu
            metric_char-ink refl

    search-chrf :
        search_field (label (text "chrF")) is_metric_char (render_model_card format card)
        ≡ some (one_decimal card.metrics.chrf)
    unfolding metrics_lines list_beq is_metric_char
    search-chrf =
        let ls = text "hrF" in
        let bleu = one_decimal card.metrics.bleu in
        skip-to_metrics format card h 99 ls chrf_named is_metric_char
          (head-IsOther format card h 99 ls chrf_named is_metric_char refl refl refl refl refl refl)
          (λ key v q. q.3)
        ∙ search-below 99 ls chrf_named is_metric_char (field_line (text "BLEU") bleu ∷ [])
            (one_decimal card.metrics.chrf)
            (drop 2 (metrics_and_below format card h 99 ls chrf_named))
            (
              skips_field 99 ls chrf_named is_metric_char (text "BLEU") bleu refl refl refl
                  (word-no_star bleu h.bleu),
              tt,
            )
            h.chrf metric_char-ink refl

    parse_metrics-render :
        parse_model_card_metrics (render_model_card format card)
        ≡ (text "bleu", one_decimal card.metrics.bleu)
          ∷ (text "chrf", one_decimal card.metrics.chrf)
          ∷ []
    unfolding parse_model_card_metrics insert_found insert list_beq
    parse_metrics-render = rw (search-bleu, search-chrf) refl

    search-run_id : search_title true (render_model_card format card) ≡ some card.run_id
    unfolding card_lines head_lines is_ink is_space
    search-run_id =
        let rest = ended (drop 1 (card_lines format card)) in
        ap (search_title true) (render-ended format card)
        ∙ title-hit 35 (text " Model card: " ++ (card.run_id ++ (10 ∷ rest))) card.run_id
            (match_field-hit (text "# Model card:") card.run_id rest is_ink h.run_id.0 ink-ink refl)

    search-base_model :
        search_field (label (text "Base model")) is_ink (render_model_card format card)
        ≡ some card.base_model
    unfolding card_lines head_lines list_beq is_ink is_space
    search-base_model =
        let ls = text "ase model" in
        let other = skips_field 66 ls base_named is_ink in
        let lines = card_lines format card in
        ap (search_field (label (text "Base model")) is_ink) (render-ended format card)
        ∙ search-below 66 ls base_named is_ink (take 3 lines) card.base_model (drop 4 lines)
            (
              plain _ h.run_id.1,
              (plain _ refl, (other (text "Timestamp") _ refl refl refl h.timestamp, tt)),
            )
            h.base_model.0 ink-ink refl

    search-direction :
        search_field (label (text "Direction")) is_ink (render_model_card format card)
        ≡ some card.direction
    unfolding card_lines head_lines list_beq is_ink is_space
    search-direction =
        let ls = text "irection" in
        let other = skips_field 68 ls direction_named is_ink in
        let lines = card_lines format card in
        ap (search_field (label (text "Direction")) is_ink) (render-ended format card)
        ∙ search-below 68 ls direction_named is_ink (take 4 lines) card.direction (drop 5 lines)
            (
              plain _ h.run_id.1,
              (
                plain _ refl,
                (
                  other (text "Timestamp") _ refl refl refl h.timestamp,
                  (other (text "Base model") _ refl refl refl h.base_model.1, tt),
                ),
              ),
            )
            h.direction.0 ink-ink refl

    search-corpus_version :
        search_field (label (text "Corpus version")) is_ink (render_model_card format card)
        ≡ some card.corpus_version
    unfolding card_lines head_lines list_beq is_ink is_space
    search-corpus_version =
        let ls = text "orpus version" in
        let other = skips_field 67 ls corpus_named is_ink in
        let lines = card_lines format card in
        ap (search_field (label (text "Corpus version")) is_ink) (render-ended format card)
        ∙ search-below 67 ls corpus_named is_ink (take 5 lines) card.corpus_version (drop 6 lines)
            (
              plain _ h.run_id.1,
              (
                plain _ refl,
                (
                  other (text "Timestamp") _ refl refl refl h.timestamp,
                  (
                    other (text "Base model") _ refl refl refl h.base_model.1,
                    (other (text "Direction") _ refl refl refl h.direction.1, tt),
                  ),
                ),
              ),
            )
            h.corpus_version.0 ink-ink refl

    parse_run_metadata-render :
        parse_model_card_run_metadata (render_model_card format card)
        ≡ (text "run_id", card.run_id)
          ∷ (text "base_model", card.base_model)
          ∷ (text "direction", card.direction)
          ∷ (text "corpus_version", card.corpus_version)
          ∷ []
    unfolding parse_model_card_run_metadata insert_found insert list_beq
    parse_run_metadata-render =
        rw (search-run_id, search-base_model, search-direction, search-corpus_version) refl

    -- For a card whose run id, base model, direction and corpus version are not empty and without
    -- white space, whose free texts and hyperparameters hold no star, whose hyperparameters' names
    -- are not empty and not those of the metrics, and whose scores are formatted as digits and dots:
    -- the metrics parsed from the rendered card are exactly the formatted BLEU and chrF of the whole
    -- set, and the identifiers parsed from it are exactly these four, whatever the sections by
    -- direction and the notes hold.
    pub parse-render :
        (parse_model_card_metrics (render_model_card format card)
          ≡ (text "bleu", one_decimal card.metrics.bleu)
            ∷ (text "chrf", one_decimal card.metrics.chrf)
            ∷ [])
        × (parse_model_card_run_metadata (render_model_card format card)
            ≡ (text "run_id", card.run_id)
              ∷ (text "base_model", card.base_model)
              ∷ (text "direction", card.direction)
              ∷ (text "corpus_version", card.corpus_version)
              ∷ [])
    parse-render = (parse_metrics-render, parse_run_metadata-render)
