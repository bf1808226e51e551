-- ===== src/Training/Embedding/Single.antt =====
-- ml/training/vocab_extension.py: the compositional resizing of one new token, against the row for a single token.
use es_kaq_translator_v.Base.{
  ℕ, zero, suc, ◌≡◌, refl, ap, ap₂, Bool, Option, none, some, List, [], ◌∷◌, ◌++◌, map, length,
  drop, take, if◌then◌else◌, Option-cases, inl, inr, nat_eq, ◌=?◌, Bool-cases,
}
use es_kaq_translator_v.Base.Dict.{Dict, lookup, insert, has_key}
use es_kaq_translator_v.Text.{Text, text_eq}
use es_kaq_translator_v.Training.Pieces.{
  longest_prefix, with_piece, pieces_from, decompose_token_into_known_pieces, processing_order,
  by_length, put_by_length, numbered,
}
use es_kaq_translator_v.Training.Embedding.{
  Numpy, each, row_of_piece, compositional_row_for_token, Progress, row_of_known, piece_row,
  center_of, resolved, resolve_all, rows_from, resized, resize_embedding_matrix_compositional,
}

module _ {V W : Type 0} (v : Dict Text V) (w : Dict Text W)
    (same : (k : Text) → has_key k v ≡ has_key k w) where
  longest_prefix-same : (n : ℕ) (s : Text) → longest_prefix v n s ≡ longest_prefix w n s
  unfolding longest_prefix
  longest_prefix-same zero s = refl
  longest_prefix-same (suc n) s =
      ap₂ (λ (b : Bool) (o : Option Text). if b then some (take (suc n) s) else o)
        (same (take (suc n) s)) (longest_prefix-same n s)

  pieces_from-same : (fuel : ℕ) (s : Text) → pieces_from fuel v s ≡ pieces_from fuel w s
  unfolding pieces_from
  pieces_from-same fuel [] = refl
  pieces_from-same zero (c ∷ s) = refl
  pieces_from-same (suc fuel) (c ∷ s) =
      elim (Option-cases (longest_prefix w (length (c ∷ s)) (c ∷ s))) [
        | inl absent ↦ rw (longest_prefix-same (length (c ∷ s)) (c ∷ s), absent, pieces_from) refl
        | inr (p, found) ↦
            rw (longest_prefix-same (length (c ∷ s)) (c ∷ s), found, pieces_from)
              (ap (with_piece p) (pieces_from-same fuel (drop (length p) (c ∷ s))))
      ]

  -- Only the keys of a vocabulary matter for the pieces of a token.
  pub decompose-same :
      (token : Text)
      → decompose_token_into_known_pieces token v ≡ decompose_token_into_known_pieces token w
  unfolding decompose_token_into_known_pieces
  decompose-same [] = refl
  decompose-same (c ∷ token) = pieces_from-same (length (c ∷ token)) (c ∷ token)

lookup-marked :
    (k : Text) (vocab : Dict Text ℕ)
    → lookup k (map (λ p. (p.0, some p.1)) vocab)
      ≡ elim (lookup k vocab) as (λ o. Option (Option ℕ)) [ none ↦ none | some n ↦ some (some n) ]
unfolding lookup
lookup-marked k [] = refl
lookup-marked k ((j, n) ∷ vocab) = elim (Bool-cases (j =? k)) [
  | inl here ↦ rw here refl
  | inr later ↦ rw later (lookup-marked k vocab)
]

abbrev marked : Dict Text ℕ → Dict Text (Option ℕ)
marked = map (λ p. (p.0, some p.1))

has_key-marked : (vocab : Dict Text ℕ) (k : Text) → has_key k (marked vocab) ≡ has_key k vocab
has_key-marked vocab k = elim (Option-cases (lookup k vocab)) [
  | inl absent ↦ rw (lookup-marked k vocab, absent, has_key) refl
  | inr (n, present) ↦ rw (lookup-marked k vocab, present, has_key) refl
]

each-same :
    {A B : Type 0} (f g : A → Option B)
    → ((x : A) → f x ≡ g x)
    → (xs : List A) → each f xs ≡ each g xs
unfolding each
each-same f g h [] = refl
each-same f g h (x ∷ xs) = elim (Option-cases (g x)) [
  | inl out ↦ rw (h x, each, out) refl
  | inr (y, inside) ↦ rw (h x, each, inside, each-same f g h xs) refl
]

module _ (np : Numpy) (vocab : Dict Text ℕ) (embeddings : List np.Row) where
  start : Progress np
  start = record { available_pieces = marked vocab; resolved_centers = []; centers = [] }

  piece_row-start :
      (p : Text) → piece_row np start embeddings p ≡ row_of_piece np vocab embeddings p
  unfolding piece_row row_of_piece row_of_known start lookup
  piece_row-start p = elim (Option-cases (lookup p vocab)) [
    | inl absent ↦ rw (lookup-marked p vocab, absent, row_of_piece) refl
    | inr (n, present) ↦ rw (lookup-marked p vocab, present, row_of_piece) refl
  ]

  -- The row that the token has by itself, or else the mean row.
  unfoldable pub row_or_mean : Option (Option np.Row) → Option np.Row
  row_or_mean none = none
  row_or_mean (some none) = some (np.mean embeddings)
  row_or_mean (some (some row)) = some row

  center-start :
      (token : Text)
      → center_of np start embeddings token
        ≡ row_or_mean (compositional_row_for_token np token vocab embeddings)
  unfolding center_of compositional_row_for_token row_or_mean start
  center-start token =
      let same = decompose-same (marked vocab) vocab (has_key-marked vocab) token in
      elim (Option-cases (decompose_token_into_known_pieces token vocab)) [
        | inl absent ↦ rw (same, center_of, absent, compositional_row_for_token) refl
        | inr (pieces, found) ↦
            let rows =
              each-same (piece_row np start embeddings) (row_of_piece np vocab embeddings)
                piece_row-start pieces in
            elim (Option-cases (each (row_of_piece np vocab embeddings) pieces)) [
              | inl out ↦ rw (same, center_of, found, rows, compositional_row_for_token, out) refl
              | inr (rs, inside) ↦
                  rw (same, center_of, found, rows, compositional_row_for_token, inside) refl
            ]
      ]

  -- One new token by itself adds exactly one row: that of `compositional_row_for_token`, or the mean
  -- row where the token has no pieces, with the noise of the first position. An id out of range
  -- fails in both.
  pub resize-single :
      (token : Text)
      → resize_embedding_matrix_compositional np embeddings (token ∷ []) vocab
        ≡ elim (row_or_mean (compositional_row_for_token np token vocab embeddings))
            as (λ o. Option (List np.Row)) [
              | none ↦ none
              | some row ↦ some (embeddings ++ (np.with_noise 0 row ∷ []))
            ]
  unfolding resize_embedding_matrix_compositional processing_order by_length put_by_length numbered
      resolve_all resized rows_from resolved lookup insert start
  resize-single token =
      elim (Option-cases (row_or_mean (compositional_row_for_token np token vocab embeddings))) [
        | inl out ↦ rw (center-start token, resolve_all, out) refl
        | inr (row, e) ↦ rw (center-start token, resolve_all, e) refl
      ]
