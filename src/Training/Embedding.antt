-- ===== src/Training/Embedding.antt =====
-- ml/training/vocab_extension.py: the rows that new tokens add to the embedding matrix.
pub mod Single
use es_kaq_translator_v.Base.{
  ℕ, zero, suc, ◌+◌, ◌-◌, Bool, true, false, Option, none, some, List, [], ◌∷◌, ◌++◌, map, length,
  ◌==◌, nat_eq, if◌then◌else◌,
}
use es_kaq_translator_v.Base.Dict.{Dict, lookup, insert, has_key}
use es_kaq_translator_v.Text.{Text, text_eq}
use es_kaq_translator_v.Training.Pieces.{
  decompose_token_into_known_pieces, processing_order, made_available,
}

-- NumPy: the mean of some rows, and a row with the noise of its position added.
pub record Numpy : Type 1 where
  pub Row : Type 0
  pub mean : List Row → Row
  pub with_noise : ℕ → Row → Row

-- `xs[i]`; an index out of range raises `IndexError`.
unfoldable pub at : {A : Type 0} → ℕ → List A → Option A
at i [] = none
at i (x ∷ xs) = let rest = at (i - 1) xs in if i == 0 then some x else rest

unfoldable pub each : {A B : Type 0} → (A → Option B) → List A → Option (List B)
each f [] = some []
each f (x ∷ xs) =
    let rest = each f xs in
    elim (f x) [ none ↦ none | some y ↦ elim rest [ none ↦ none | some ys ↦ some (y ∷ ys) ] ]

module _ (np : Numpy) where
  open np use {Row, mean, with_noise}

  -- The rows from `i` on that the mean row gives, with their noise.
  unfoldable pub mean_rows : Row → (i count : ℕ) → List Row
  mean_rows center i zero = []
  mean_rows center i (suc count) = with_noise i center ∷ mean_rows center (i + 1) count

  unfoldable pub resize_embedding_matrix : List Row → (num_new_tokens : ℕ) → List Row
  resize_embedding_matrix embeddings n = embeddings ++ mean_rows (mean embeddings) 0 n

  -- `embeddings[vocab[piece]]`
  unfoldable pub row_of_piece : Dict Text ℕ → List Row → Text → Option Row
  row_of_piece vocab embeddings piece = elim (lookup piece vocab) [
    | none ↦ none
    | some id ↦ at id embeddings
  ]

  -- An error, or the row, if the token has pieces.
  unfoldable pub compositional_row_for_token : Text → Dict Text ℕ → List Row → Option (Option Row)
  compositional_row_for_token token vocab embeddings =
      elim (decompose_token_into_known_pieces token vocab) [
        | none ↦ some none
        | some pieces ↦ elim (each (row_of_piece vocab embeddings) pieces) [
          | none ↦ none
          | some rows ↦ some (some (mean rows))
        ]
      ]

  -- What the loop keeps: `None` stands for the id of a new token.
  pub record Progress : Type 0 where
    pub available_pieces : Dict Text (Option ℕ)
    pub resolved_centers : Dict Text Row
    pub centers : Dict ℕ Row

  unfoldable pub row_of_known : Option (Option ℕ) → List Row → Option Row
  row_of_known none embeddings = none
  row_of_known (some none) embeddings = none
  row_of_known (some (some id)) embeddings = at id embeddings

  unfoldable pub piece_row : Progress → List Row → Text → Option Row
  piece_row st embeddings piece = elim (lookup piece st.resolved_centers) [
    | some center ↦ some center
    | none ↦ row_of_known (lookup piece st.available_pieces) embeddings
  ]

  unfoldable pub center_of : Progress → List Row → Text → Option Row
  center_of st embeddings token =
      elim (decompose_token_into_known_pieces token st.available_pieces) [
        | none ↦ some (mean embeddings)
        | some pieces ↦ elim (each (piece_row st embeddings) pieces) [
          | none ↦ none
          | some rows ↦ some (mean rows)
        ]
      ]

  unfoldable pub resolved : Progress → ℕ → Text → Row → Progress
  resolved st index token center = record {
    available_pieces = made_available token none st.available_pieces;
    resolved_centers =
        if has_key token st.available_pieces
        then st.resolved_centers
        else insert token center st.resolved_centers;
    centers = insert index center st.centers;
  }

  unfoldable pub resolve_all : Progress → List Row → List (ℕ × Text) → Option Progress
  resolve_all st embeddings [] = some st
  resolve_all st embeddings ((index, token) ∷ order) = elim (center_of st embeddings token) [
    | none ↦ none
    | some center ↦ resolve_all (resolved st index token center) embeddings order
  ]

  -- The new rows from position `i` on.
  unfoldable pub rows_from : Dict ℕ Row → (i count : ℕ) → Option (List Row)
  rows_from centers i zero = some []
  rows_from centers i (suc count) =
      let rest = rows_from centers (i + 1) count in
      elim (lookup i centers) [
        | none ↦ none
        | some center ↦ elim rest [ none ↦ none | some rows ↦ some (with_noise i center ∷ rows) ]
      ]

  unfoldable pub resized : List Row → (count : ℕ) → Option Progress → Option (List Row)
  resized embeddings n none = none
  resized embeddings n (some st) = elim (rows_from st.centers 0 n) [
    | none ↦ none
    | some rows ↦ some (embeddings ++ rows)
  ]

  unfoldable pub resize_embedding_matrix_compositional :
      List Row → List Text → Dict Text ℕ → Option (List Row)
  resize_embedding_matrix_compositional embeddings new_tokens base_vocab =
      let start : Progress = record {
        available_pieces = map (λ p. (p.0, some p.1)) base_vocab;
        resolved_centers = [];
        centers = [];
      } in
      resized embeddings (length new_tokens)
        (resolve_all start embeddings (processing_order new_tokens))
