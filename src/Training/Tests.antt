-- ===== src/Training/Tests.antt =====
-- The theorems on directions and vocabularies at small inputs, and runs of the definitions.
use es_kaq_translator_v.Base.{
  ℕ, ◌+◌, ◌<◌, ◌≤◌, ◌≡◌, refl, Option, none, some, List, [], ◌∷◌, ◌++◌, length, elem, IsDistinct,
  not, ◌&&◌, ◌⊎◌, arith, list_beq, pair_eq, nat_eq,
}
use es_kaq_translator_v.Base.Dict.{Dict, lookup, insert, has_key}
use es_kaq_translator_v.Text.{Text, text, text_eq}
use es_kaq_translator_v.Text.Space.{lstrip}
use es_kaq_translator_v.Data.Normalize.{SentencePair}
use es_kaq_translator_v.Training.Direction.{
  ok, kaqchikel, tag_source_text, strip_leading_direction_tag,
}
use es_kaq_translator_v.Training.Direction.Tags.{strip-tag}
use es_kaq_translator_v.Training.Vocab.{
  next_id, select_new_tokens, extend_vocab, assign_ids, sorted_set, put, before,
}
use es_kaq_translator_v.Training.Vocab.Order.{IsSorted, select_new_tokens_lem}
use es_kaq_translator_v.Training.Vocab.Ids.{IsInjective, extend_vocab-injective}
use es_kaq_translator_v.Training.Pieces.{
  decompose_token_into_known_pieces, pieces_from, longest_prefix, with_piece,
  count_decomposable_tokens, count_from, processing_order, by_length, numbered, put_by_length,
  made_available, bit,
}
use es_kaq_translator_v.Training.Pieces.Greedy.{
  concat, IsGreedy, IsStuck, decompose-IsGreedy, decompose-none,
}
use es_kaq_translator_v.Training.Subwords.{SentencePiece}
use es_kaq_translator_v.Training.Embedding.{
  Numpy, resize_embedding_matrix_compositional, compositional_row_for_token,
}
use es_kaq_translator_v.Training.Embedding.Single.{row_or_mean, resize-single}

strip-tag_example :
    (tag_source_text (text "q'ij") kaqchikel ≡ ok (text "__cak__ q'ij"))
    × (strip_leading_direction_tag (text "__cak__ q'ij") kaqchikel ≡ ok (lstrip (text "q'ij")))
unfolding list_beq
strip-tag_example = strip-tag (text "q'ij") kaqchikel

abbrev pairs : List SentencePair
pairs = (text "sol", text "q'ij") ∷ (text "perro", text "tz'i'") ∷ []

abbrev vocab : Dict Text ℕ
vocab = (text "a", 0) ∷ (text "b", 4) ∷ (text "ab", 2) ∷ []

abbrev tokens : List Text
tokens = text "q" ∷ text "ab" ∷ text "c" ∷ text "q" ∷ []

select_new_tokens_lem_example :
    ((t : Text)
      → elem t (select_new_tokens tokens vocab) ≡ (not (has_key t vocab) && elem t tokens))
    × IsSorted (select_new_tokens tokens vocab)
    × IsDistinct (select_new_tokens tokens vocab)
select_new_tokens_lem_example = select_new_tokens_lem tokens vocab

abbrev one : Dict Text ℕ
one = (text "a", 0) ∷ []

one-IsInjective : IsInjective one
unfolding lookup
one-IsInjective s t n h k =
    ground (arith, text_eq.beq_iff (text "a") s, text_eq.beq_iff (text "a") t)

extend_vocab-injective_example :
    (text "q" ≡ text "q") × (3 < next_id one + length (select_new_tokens tokens one))
unfolding extend_vocab assign_ids select_new_tokens sorted_set put before next_id insert lookup
    list_beq
extend_vocab-injective_example =
    extend_vocab-injective one tokens (text "q") (text "q") 3 one-IsInjective refl refl

decompose-IsGreedy_example :
    IsGreedy vocab (text "abb") (text "ab" ∷ text "b" ∷ [])
    × (concat (text "ab" ∷ text "b" ∷ []) ≡ text "abb")
    × (1 ≤ length (text "abb"))
unfolding decompose_token_into_known_pieces pieces_from longest_prefix with_piece lookup list_beq
decompose-IsGreedy_example = decompose-IsGreedy vocab (text "abb") (text "ab" ∷ text "b" ∷ []) refl

decompose-none_example : (text "bq" ≡ []) ⊎ ((done : List Text) × IsStuck vocab (text "bq") done)
unfolding decompose_token_into_known_pieces pieces_from longest_prefix with_piece lookup list_beq
decompose-none_example = decompose-none vocab (text "bq") refl

-- A model that holds its texts as its pieces.
abbrev whole_texts : SentencePiece
whole_texts = record {
  Model = List Text;
  train = λ texts size kind. texts;
  pieces = λ model. model;
}

-- Rows of sums, and noise that adds the position.
abbrev sums : Numpy
sums = record { Row = ℕ; mean = λ rows. length rows; with_noise = λ i row. i + row }

resize-single_example :
    resize_embedding_matrix_compositional sums (10 ∷ 11 ∷ 12 ∷ 13 ∷ 14 ∷ []) (text "ba" ∷ []) vocab
    ≡ elim (row_or_mean sums vocab
          (10 ∷ 11 ∷ 12 ∷ 13 ∷ 14 ∷ [])
          (compositional_row_for_token sums (text "ba") vocab (10 ∷ 11 ∷ 12 ∷ 13 ∷ 14 ∷ [])))
        as (λ o. Option (List ℕ)) [
          | none ↦ none
          | some row ↦ some ((10 ∷ 11 ∷ 12 ∷ 13 ∷ 14 ∷ []) ++ ((0 + row) ∷ []))
        ]
resize-single_example = resize-single sums vocab (10 ∷ 11 ∷ 12 ∷ 13 ∷ 14 ∷ []) (text "ba")

-- New tokens get the ids from 5 on, in order; a word that a new character occurs in is counted.
program : Unit {0}
unfolding extend_vocab assign_ids select_new_tokens sorted_set put before next_id insert lookup
    list_beq decompose_token_into_known_pieces pieces_from longest_prefix with_piece
    count_decomposable_tokens count_from processing_order by_length numbered put_by_length
    made_available bit
program =
    let extended : extend_vocab vocab tokens ≡ vocab ++ ((text "c", 5) ∷ (text "q", 6) ∷ []) =
      refl in
    let counted : count_decomposable_tokens (text "qa" ∷ text "q" ∷ text "x" ∷ []) vocab ≡ 1 =
      refl in
    tt
