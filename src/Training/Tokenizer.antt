-- ===== src/Training/Tokenizer.antt =====
-- ml/training/tokenizer_extension.py: new tokens for a tokenizer, the spaces before them when text is
-- decoded, and the rows that they add to the model's embedding matrix.
pub mod Runs
mod Tests
pub mod Patched
pub mod Rows
use es_kaq_translator_v.Base.{
  ℕ, zero, suc, ◌+◌, Bool, true, false, Option, none, some, List, [], ◌∷◌, ◌++◌, map, length, drop,
  elem, filter_b, not, ◌||◌, ◌&&◌, ltb, ◌==◌, nat_eq, if◌then◌else◌, ◌=?◌,
}
use es_kaq_translator_v.Base.Dict.{Dict, has_key}
use es_kaq_translator_v.Text.{Text, text, text_eq, starts_with, join, remove_prefix}
use es_kaq_translator_v.Text.Space.{strip}
use es_kaq_translator_v.Training.Gap.{find_missing_characters, find_missing_words}
use es_kaq_translator_v.Training.Vocab.{select_new_tokens}
use es_kaq_translator_v.Training.Subwords.{
  SentencePiece, word_boundary_marker, compute_new_subword_tokens,
}
use es_kaq_translator_v.Training.Embedding.{
  Numpy, resize_embedding_matrix, resize_embedding_matrix_compositional,
}

-- transformers: `add_tokens`, and the tokenizer's own `convert_tokens_to_string`.
pub record Transformers : Type 0 where
  pub add_tokens : Dict Text ℕ → List Text → Dict Text ℕ
  pub decode : List Text → Text

-- A tokenizer's vocabulary, and the set that its patched decoding looks up, once there is one.
pub record Tokenizer : Type 0 where
  pub vocab : Dict Text ℕ
  pub boundary_tokens : Option (List Text)

unfoldable pub starts_new_word : (boundary_tokens : List Text) → Text → Bool
starts_new_word boundary token = elem token boundary || starts_with token word_boundary_marker

-- The loop over the tokens, with the current run.
unfoldable pub runs_from : (boundary_tokens current : List Text) → List Text → List (List Text)
runs_from boundary [] [] = []
runs_from boundary (c ∷ current) [] = (c ∷ current) ∷ []
runs_from boundary [] (token ∷ tokens) = runs_from boundary (token ∷ []) tokens
runs_from boundary (c ∷ current) (token ∷ tokens) =
    let split = runs_from boundary (token ∷ []) tokens in
    let glued = runs_from boundary (c ∷ current ++ (token ∷ [])) tokens in
    if starts_new_word boundary token then (c ∷ current) ∷ split else glued

unfoldable pub without_marker : (boundary_tokens run : List Text) → List Text
without_marker boundary [] = []
without_marker boundary (t ∷ run) =
    if elem t boundary then remove_prefix t word_boundary_marker ∷ run else t ∷ run

unfoldable pub is_part : Text → Bool
is_part [] = false
is_part (c ∷ s) = true

module _ (hf : Transformers) where
  unfoldable pub convert_with_word_boundaries : (boundary_tokens : List Text) → List Text → Text
  convert_with_word_boundaries boundary tokens = strip (
      join (text " ") (
        filter_b is_part
          (map (λ run. hf.decode (without_marker boundary run)) (runs_from boundary [] tokens))))

  unfoldable pub convert_tokens_to_string : Tokenizer → List Text → Text
  convert_tokens_to_string tokenizer tokens = elim tokenizer.boundary_tokens [
    | none ↦ hf.decode tokens
    | some boundary ↦ convert_with_word_boundaries boundary tokens
  ]

unfoldable pub with_boundary : Option (List Text) → List Text → Option (List Text)
with_boundary none tokens = some tokens
with_boundary (some boundary) tokens = some (boundary ++ tokens)

-- For a tokenizer that decodes.
unfoldable pub mark_word_boundary_tokens : Tokenizer → List Text → Tokenizer
mark_word_boundary_tokens tokenizer [] = tokenizer
mark_word_boundary_tokens tokenizer (t ∷ tokens) = record tokenizer {
  boundary_tokens = with_boundary tokenizer.boundary_tokens (t ∷ tokens);
}

unfoldable pub select_whole_word_tokens : List Text → List Text
select_whole_word_tokens = filter_b (λ token. ltb 1 (length token))

-- The tokens of one code point.
unfoldable pub single_characters : List Text → List ℕ
single_characters [] = []
single_characters ([] ∷ tokens) = single_characters tokens
single_characters ((c ∷ []) ∷ tokens) = c ∷ single_characters tokens
single_characters ((c ∷ d ∷ s) ∷ tokens) = single_characters tokens

unfoldable pub compute_new_tokens_for_texts : List Text → Dict Text ℕ → List Text
compute_new_tokens_for_texts sample_texts base_vocab =
    let vocab_tokens = map (λ p. p.0) base_vocab in
    let characters = find_missing_characters sample_texts (single_characters vocab_tokens) in
    select_new_tokens (map (λ c. c ∷ []) characters ++ find_missing_words sample_texts vocab_tokens)
      base_vocab

unfoldable pub reconstruct_whole_word_boundary_tokens : Dict Text ℕ → List Text → List Text
reconstruct_whole_word_boundary_tokens base_vocab sample_texts =
    select_whole_word_tokens (compute_new_tokens_for_texts sample_texts base_vocab)

unfoldable pub patch_word_boundary_decoding_for_checkpoint :
    Tokenizer → Dict Text ℕ → List Text → List Text × Tokenizer
patch_word_boundary_decoding_for_checkpoint tokenizer base_vocab sample_texts =
    let boundary = reconstruct_whole_word_boundary_tokens base_vocab sample_texts in
    (boundary, mark_word_boundary_tokens tokenizer boundary)

module _ (hf : Transformers) where
  -- `if new_tokens:` the tokens are added, and some of them are marked.
  unfoldable pub with_new_tokens : Tokenizer → (new_tokens marked : List Text) → Tokenizer
  with_new_tokens tokenizer [] marked = tokenizer
  with_new_tokens tokenizer (t ∷ new_tokens) marked =
      mark_word_boundary_tokens
        (record tokenizer { vocab = hf.add_tokens tokenizer.vocab (t ∷ new_tokens) }) marked

  unfoldable pub extend_tokenizer_vocab : Tokenizer → List Text → List Text × Tokenizer
  extend_tokenizer_vocab tokenizer sample_texts =
      let new_tokens = compute_new_tokens_for_texts sample_texts tokenizer.vocab in
      (new_tokens, with_new_tokens tokenizer new_tokens (select_whole_word_tokens new_tokens))

  -- `None` stands for the `ValueError` of training on no texts.
  unfoldable pub extend_tokenizer_vocab_with_subwords :
      SentencePiece
      → Tokenizer
      → List Text
      → (vocab_size : ℕ) → (model_type : Text) → (min_subword_length : ℕ)
      → Option (List Text × Tokenizer)
  extend_tokenizer_vocab_with_subwords sp tokenizer texts vocab_size model_type min_length =
      elim (compute_new_subword_tokens sp texts tokenizer.vocab vocab_size model_type min_length) [
        | none ↦ none
        | some new_tokens ↦ some (
          new_tokens,
          with_new_tokens tokenizer new_tokens
              (filter_b (λ token. starts_with token word_boundary_marker) new_tokens),
        )
      ]

pub data Strategy : Type 0 where
  mean compositional unknown : Strategy

pub data Resized (A : Type 0) : Type 0 where
  ok : A → Resized A
  value_error index_error : Resized A

unfoldable pub ok_or_index_error : {A : Type 0} → Option A → Resized A
ok_or_index_error none = index_error
ok_or_index_error (some a) = ok a

-- The rows of the model's matrix. `resize_token_embeddings` keeps the old rows, and the new ones are
-- then all overwritten with those of the resized copy.
unfoldable pub resize_embeddings_for_new_tokens :
    (np : Numpy)
    → List np.Row
    → (num_new_tokens : ℕ) → Strategy
    → (added_tokens : Option (List Text)) → (base_vocab : Option (Dict Text ℕ))
    → Resized (List np.Row)
resize_embeddings_for_new_tokens np weights zero strategy added_tokens base_vocab = ok weights
resize_embeddings_for_new_tokens np weights (suc n) mean added_tokens base_vocab =
    ok (resize_embedding_matrix np weights (suc n))
resize_embeddings_for_new_tokens np weights (suc n) compositional none base_vocab = value_error
resize_embeddings_for_new_tokens np weights (suc n) compositional (some added) none = value_error
resize_embeddings_for_new_tokens np weights (suc n) compositional (some added) (some base_vocab) =
    if not (length added == suc n)
    then value_error
    else ok_or_index_error (resize_embedding_matrix_compositional np weights added base_vocab)
resize_embeddings_for_new_tokens np weights (suc n) unknown added_tokens base_vocab = value_error
