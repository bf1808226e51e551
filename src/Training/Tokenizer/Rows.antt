-- ===== src/Training/Tokenizer/Rows.antt =====
-- ml/training/tokenizer_extension.py: which row of the resized matrix a new token's id points at.
use es_kaq_translator_v.Base.{ℕ, ◌<◌, ◌≡◌, Option, none, some, List, [], map, nat_eq}
use es_kaq_translator_v.Base.Dict.{Dict, lookup}
use es_kaq_translator_v.Text.{Text}
use es_kaq_translator_v.Training.Embedding.{Numpy, at, resolve_all, Progress}
use es_kaq_translator_v.Training.Pieces.{processing_order}
use es_kaq_translator_v.Training.Tokenizer.{Strategy, mean, compositional, unknown}

module _ (np : Numpy) where
  open np use {Row}

  -- The state in which the compositional loop starts.
  abbrev start : Dict Text ℕ → Progress np
  start base = record {
    available_pieces = map (λ p. (p.0, some p.1)) base;
    resolved_centers = [];
    centers = [];
  }

  -- The row from which the strategy makes that of new token `i`, before noise: the mean row, or the
  -- centre that the loop over the added tokens resolves under the index `i`.
  abbrev pub IsCenter :
      (weights : List Row)
      → Strategy
      → (added : Option (List Text)) → (base : Option (Dict Text ℕ)) → ℕ
      → Row
      → Type 0
  IsCenter weights mean added base i c = c ≡ np.mean weights
  IsCenter weights compositional none base i c = ⊥
  IsCenter weights compositional (some a) none i c = ⊥
  IsCenter weights compositional (some a) (some b) i c =
      (done : Progress np) × (resolve_all np (start b) weights (processing_order a) ≡ some done)
      × (lookup i done.centers ≡ some c)
  IsCenter weights unknown added base i c = ⊥

  abbrev pub IsMade :
      (weights : List Row)
      → Strategy
      → (added : Option (List Text)) → (base : Option (Dict Text ℕ)) → ℕ
      → List Row
      → Type 0
  IsMade weights strategy added base n rows =
      (j : ℕ)
      → j < n
      → (c : Row) × IsCenter weights strategy added base j c
        × (at j rows ≡ some (np.with_noise j c))
