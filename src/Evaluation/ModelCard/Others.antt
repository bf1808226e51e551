-- ===== src/Evaluation/ModelCard/Others.antt =====
-- ml/evaluation/model_card.py: the lines of a card that a search for a field passes over.
use es_kaq_translator_v.Base.{
  ℕ, ◌≡◌, refl, ap, ◌∙◌, Bool, true, false, List, [], ◌∷◌, ◌++◌, nat_eq, ◌=?◌, arith, All, all_b,
  list_beq,
}
use es_kaq_translator_v.Base.Dict.{Dict}
use es_kaq_translator_v.Text.{Text, text, text_eq}
use es_kaq_translator_v.Text.Space.{is_space}
use es_kaq_translator_v.Evaluation.ModelCard.{
  Format, ModelCardData, field_line, metrics_lines, per_direction_lines, notes_lines, head_lines,
  hyperparameter_lines, card_lines, render_model_card, is_metric_char, is_ink, search_field, label,
}
use es_kaq_translator_v.Evaluation.ModelCard.Search.{
  no_star, IsWord, ended, join-ended, IsName, IsOther, plain, field, skip-lines,
}

pub skips_field :
    (l : ℕ) (ls : Text) (named : IsName l ls) (p : ℕ → Bool) (name v : Text)
    → (name =? []) ≡ false
    → no_star name ≡ true
    → (name =? (l ∷ ls)) ≡ false
    → no_star v ≡ true
    → IsOther l ls named p (field_line name v)
unfolding list_beq
skips_field l ls named p [] v e s o t = cc
skips_field l ls named p (c ∷ n) v e s o t = field c n v s o t

pub metric_char-ink : (c : ℕ) → is_metric_char c ≡ true → is_space c ≡ false
unfolding is_metric_char is_space
metric_char-ink c h = ground arith

pub ink-ink : (c : ℕ) → is_ink c ≡ true → is_space c ≡ false
unfolding is_ink
ink-ink c h = ground arith

metric-no_star : (s : Text) → all_b is_metric_char s ≡ true → no_star s ≡ true
unfolding is_metric_char
metric-no_star [] h = refl
metric-no_star (c ∷ s) h = ground (arith, metric-no_star s (ground arith))

pub word-no_star : (s : Text) → IsWord is_metric_char s → no_star s ≡ true
word-no_star [] w = absurd w
word-no_star (c ∷ s) w = metric-no_star (c ∷ s) w

-- An identifier: no white space, no star, not empty.
abbrev pub IsIdentifier : Text → Type 0
IsIdentifier s = IsWord is_ink s × (no_star s ≡ true)

-- A hyperparameter: a key that is no metric's name, and no star in it or in its value.
abbrev pub IsHyperparameter : Text → Text → Type 0
IsHyperparameter key v =
    ((key =? []) ≡ false)
    × (no_star key ≡ true)
    × ((key =? text "BLEU") ≡ false)
    × ((key =? text "chrF") ≡ false)
    × (no_star v ≡ true)

module _ {Score : Type 0} (format : Format Score) where
  open format use {Value, one_decimal, grouped, show}

  pub record IsReadable (card : ModelCardData format) : Type 0 where
    pub run_id : IsIdentifier card.run_id
    pub timestamp : no_star card.timestamp ≡ true
    pub base_model : IsIdentifier card.base_model
    pub direction : IsIdentifier card.direction
    pub corpus_version : IsIdentifier card.corpus_version
    pub counts : (n : ℕ) → no_star (grouped n) ≡ true
    pub hyperparameters : All (λ p. IsHyperparameter p.0 (show p.1)) card.hyperparameters
    pub bleu : IsWord is_metric_char (one_decimal card.metrics.bleu)
    pub chrf : IsWord is_metric_char (one_decimal card.metrics.chrf)

  pub render-ended :
      (card : ModelCardData format) → render_model_card format card ≡ ended (card_lines format card)
  unfolding render_model_card card_lines head_lines
  render-ended card = join-ended _ _

  module _ (card : ModelCardData format) (h : IsReadable card) (l : ℕ) (ls : Text)
      (named : IsName l ls) where
    pub head-IsOther :
        (p : ℕ → Bool)
        → (text "Timestamp" =? (l ∷ ls)) ≡ false
        → (text "Base model" =? (l ∷ ls)) ≡ false
        → (text "Direction" =? (l ∷ ls)) ≡ false
        → (text "Corpus version" =? (l ∷ ls)) ≡ false
        → (text "Training sentences" =? (l ∷ ls)) ≡ false
        → (text "Validation sentences" =? (l ∷ ls)) ≡ false
        → All (IsOther l ls named p) (head_lines format card)
    unfolding head_lines list_beq
    head-IsOther p e1 e2 e3 e4 e5 e6 =
        let other = skips_field l ls named p in
        (
          plain _ h.run_id.1,
          (
            plain _ refl,
            (
              other (text "Timestamp") _ refl refl e1 h.timestamp,
              (
                other (text "Base model") _ refl refl e2 h.base_model.1,
                (
                  other (text "Direction") _ refl refl e3 h.direction.1,
                  (
                    other (text "Corpus version") _ refl refl e4 h.corpus_version.1,
                    (
                      other (text "Training sentences") _ refl refl e5
                          (h.counts card.train_sentence_count),
                      (
                        other (text "Validation sentences") _ refl refl e6
                            (h.counts card.validation_sentence_count),
                        (plain _ refl, (plain _ refl, (plain _ refl, tt))),
                      ),
                    ),
                  ),
                ),
              ),
            ),
          ),
        )

    hyperparameters-IsOther :
        (p : ℕ → Bool) (hs : Dict Text Value)
        → All (λ q. IsHyperparameter q.0 (show q.1)) hs
        → ((key : Text) (v : Text) → IsHyperparameter key v → (key =? (l ∷ ls)) ≡ false)
        → All (IsOther l ls named p) (hyperparameter_lines format hs)
    unfolding hyperparameter_lines
    hyperparameters-IsOther p [] a e = tt
    hyperparameters-IsOther p ((key, v) ∷ hs) a e = (
      skips_field l ls named p key (show v) a.0.0 a.0.1 (e key (show v) a.0) a.0.4,
      hyperparameters-IsOther p hs a.1 e,
    )

    -- What stands behind the heading of the metrics.
    abbrev pub metrics_and_below : List Text
    metrics_and_below =
        metrics_lines format card.metrics
        ++ (per_direction_lines format card.per_direction_metrics ++ notes_lines card.notes)

    pub skip-to_metrics :
        (p : ℕ → Bool)
        → All (IsOther l ls named p) (head_lines format card)
        → ((key : Text) (v : Text) → IsHyperparameter key v → (key =? (l ∷ ls)) ≡ false)
        → search_field (label (l ∷ ls)) p (render_model_card format card)
          ≡ search_field (label (l ∷ ls)) p (ended metrics_and_below)
    unfolding card_lines
    skip-to_metrics p head e =
        ap (search_field (label (l ∷ ls)) p) (render-ended card)
        ∙ skip-lines l ls named p (head_lines format card) _ head
        ∙ skip-lines l ls named p (hyperparameter_lines format card.hyperparameters) _
            (hyperparameters-IsOther p card.hyperparameters h.hyperparameters e)
        ∙ skip-lines l ls named p ([] ∷ text "## Metrics (validation set)" ∷ [] ∷ []) _
            (plain _ refl, (plain _ refl, (plain _ refl, tt)))
