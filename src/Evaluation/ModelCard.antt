-- ===== src/Evaluation/ModelCard.antt =====
-- ml/evaluation/model_card.py: the text of a model card, and the metrics parsed back from it;
-- ml/deployment/deploy.py: the run's identifiers parsed from it.
pub mod Search
pub mod Others
pub mod RoundTrip
use es_kaq_translator_v.Base.{
  ℕ, Bool, true, false, Option, none, some, List, [], ◌∷◌, ◌++◌, map, length, drop, ◌==◌, ◌||◌,
  ◌&&◌, not, leb, if◌then◌else◌,
}
use es_kaq_translator_v.Base.Dict.{Dict, insert, lookup}
use es_kaq_translator_v.Text.{Text, text, text_eq, starts_with, join}
use es_kaq_translator_v.Text.Space.{is_space, lstrip}
use es_kaq_translator_v.Evaluation.Metrics.{MetricsResult}

-- Python's formatting: `f"{score:.1f}"`, `f"{count:,}"` and `str(value)`.
pub record Format (Score : Type 0) : Type 1 where
  pub Value : Type 0
  pub one_decimal : Score → Text
  pub grouped : ℕ → Text
  pub show : Value → Text

-- `f"- **{name}**: {value}"`
unfoldable pub field_line : (name value : Text) → Text
field_line name value = text "- **" ++ (name ++ (text "**: " ++ value))

-- `lines.pop()`
unfoldable pub drop_last : List Text → List Text
drop_last [] = []
drop_last (x ∷ []) = []
drop_last (x ∷ y ∷ xs) = x ∷ drop_last (y ∷ xs)

unfoldable pub notes_lines : Option Text → List Text
notes_lines none = []
notes_lines (some []) = []
notes_lines (some (c ∷ notes)) = [] ∷ text "## Notes" ∷ [] ∷ (c ∷ notes) ∷ []

module _ {Score : Type 0} (format : Format Score) where
  open format use {Value, one_decimal, grouped, show}

  pub record ModelCardData : Type 0 where
    pub run_id : Text
    pub timestamp : Text
    pub base_model : Text
    pub direction : Text
    pub corpus_version : Text
    pub train_sentence_count : ℕ
    pub validation_sentence_count : ℕ
    pub hyperparameters : Dict Text Value
    pub metrics : MetricsResult Score
    pub notes : Option Text
    pub per_direction_metrics : Option (Dict Text (MetricsResult Score))

  unfoldable pub metrics_lines : MetricsResult Score → List Text
  metrics_lines m =
      field_line (text "BLEU") (one_decimal m.bleu)
      ∷ field_line (text "chrF") (one_decimal m.chrf)
      ∷ field_line (text "Sentences evaluated") (grouped m.num_sentences)
      ∷ []

  unfoldable pub direction_lines : Dict Text (MetricsResult Score) → List Text
  direction_lines [] = []
  direction_lines ((direction, m) ∷ ds) =
      (text "### " ++ direction) ∷ [] ∷ (metrics_lines m ++ ([] ∷ direction_lines ds))

  unfoldable pub per_direction_lines : Option (Dict Text (MetricsResult Score)) → List Text
  per_direction_lines none = []
  per_direction_lines (some []) = []
  per_direction_lines (some (d ∷ ds)) =
      drop_last ([] ∷ text "## Metrics by direction" ∷ [] ∷ direction_lines (d ∷ ds))

  unfoldable pub head_lines : ModelCardData → List Text
  head_lines card =
      (text "# Model card: " ++ card.run_id)
      ∷ []
      ∷ field_line (text "Timestamp") card.timestamp
      ∷ field_line (text "Base model") card.base_model
      ∷ field_line (text "Direction") card.direction
      ∷ field_line (text "Corpus version") card.corpus_version
      ∷ field_line (text "Training sentences") (grouped card.train_sentence_count)
      ∷ field_line (text "Validation sentences") (grouped card.validation_sentence_count)
      ∷ []
      ∷ text "## Hyperparameters"
      ∷ []
      ∷ []

  unfoldable pub hyperparameter_lines : Dict Text Value → List Text
  hyperparameter_lines = map (λ p. field_line p.0 (show p.1))

  unfoldable pub card_lines : ModelCardData → List Text
  card_lines card =
      head_lines card
      ++ (hyperparameter_lines card.hyperparameters
          ++ (([] ∷ text "## Metrics (validation set)" ∷ [] ∷ metrics_lines card.metrics)
              ++ (per_direction_lines card.per_direction_metrics ++ notes_lines card.notes)))

  unfoldable pub render_model_card : ModelCardData → Text
  render_model_card card = join (10 ∷ []) (card_lines card) ++ (10 ∷ [])

-- `[0-9.]` and `\S`
unfoldable pub is_metric_char : ℕ → Bool
is_metric_char c = (leb 48 c && leb c 57) || c == 46

unfoldable pub is_ink : ℕ → Bool
is_ink c = not (is_space c)

-- The longest prefix of code points of one class.
unfoldable pub take_class : (ℕ → Bool) → Text → Text
take_class p [] = []
take_class p (c ∷ s) = let rest = take_class p s in if p c then c ∷ rest else []

unfoldable pub unless_empty : Text → Option Text
unless_empty [] = none
unless_empty (c ∷ s) = some (c ∷ s)

-- `re.compile(label + r"\s*([class]+)").match(s)`, the group. No code point of the class is white
-- space, so the match never backtracks.
unfoldable pub match_field : (label : Text) → (ℕ → Bool) → Text → Option Text
unfolding unless_empty take_class
match_field label p s =
    if starts_with s label
    then unless_empty (take_class p (lstrip (drop (length label) s)))
    else none

-- `search`: the first position that matches.
unfoldable pub search_field : (label : Text) → (ℕ → Bool) → Text → Option Text
search_field label p [] = none
search_field label p (c ∷ s) =
    let later = search_field label p s in
    elim (match_field label p (c ∷ s)) [ some v ↦ some v | none ↦ later ]

-- `**name**:`
unfoldable pub label : Text → Text
label name = text "**" ++ (name ++ text "**:")

-- `if match: metrics[name] = match.group(1)`
unfoldable pub insert_found : Text → Option Text → Dict Text Text → Dict Text Text
insert_found name none d = d
insert_found name (some v) d = insert name v d

unfoldable pub parse_model_card_metrics : Text → Dict Text Text
parse_model_card_metrics card =
    let found =
      insert_found (text "bleu") (search_field (label (text "BLEU")) is_metric_char card) [] in
    insert_found (text "chrf") (search_field (label (text "chrF")) is_metric_char card) found

-- `re.compile(r"^# Model card:\s*(\S+)", re.MULTILINE).search`: only at the start of a line.
unfoldable pub search_title : (at_line_start : Bool) → Text → Option Text
search_title at_line_start [] = none
search_title at_line_start (c ∷ s) =
    let later = search_title (c == 10) s in
    let here = if at_line_start then match_field (text "# Model card:") is_ink (c ∷ s) else none in
    elim here [ some v ↦ some v | none ↦ later ]

unfoldable pub parse_model_card_run_metadata : Text → Dict Text Text
parse_model_card_run_metadata card =
    let m0 = insert_found (text "run_id") (search_title true card) [] in
    let m1 =
      insert_found (text "base_model") (search_field (label (text "Base model")) is_ink card) m0 in
    let m2 =
      insert_found (text "direction") (search_field (label (text "Direction")) is_ink card) m1 in
    insert_found (text "corpus_version") (search_field (label (text "Corpus version")) is_ink card)
      m2
