-- ===== src/Training/Subwords.antt =====
-- ml/training/subword_vocab.py: new tokens from a subword model of the Kaqchikel texts.
use es_kaq_translator_v.Base.{
  ℕ, ◌≡◌, refl, ap, ◌∙◌, Bool, Option, none, some, List, [], ◌∷◌, not, ◌&&◌, elem, filter_b, length,
  leb, elem-filter, IsDistinct,
}
use es_kaq_translator_v.Base.Dict.{Dict, has_key}
use es_kaq_translator_v.Text.{Text, text, text_eq, remove_prefix}
use es_kaq_translator_v.Training.Vocab.{select_new_tokens}
use es_kaq_translator_v.Training.Vocab.Order.{IsSorted, select_new_tokens_lem}

abbrev pub default_min_subword_length : ℕ
default_min_subword_length = 2

-- U+2581
abbrev pub word_boundary_marker : Text
word_boundary_marker = 0x2581 ∷ []

abbrev pub special_pieces : List Text
special_pieces = text "<unk>" ∷ text "<s>" ∷ text "</s>" ∷ text "<pad>" ∷ []

-- SentencePiece: what training on some texts gives, and the pieces of a model by their ids.
pub record SentencePiece : Type 1 where
  pub Model : Type 0
  pub train : (texts : List Text) → (vocab_size : ℕ) → (model_type : Text) → Model
  pub pieces : Model → List Text

unfoldable pub is_high_value : ℕ → Text → Bool
is_high_value min_subword_length piece =
    leb min_subword_length (length (remove_prefix piece word_boundary_marker))

unfoldable pub select_high_value_subwords : List Text → (min_subword_length : ℕ) → List Text
select_high_value_subwords pieces min_subword_length =
    filter_b (is_high_value min_subword_length) pieces

module _ (sp : SentencePiece) where
  -- No model for no texts: a `ValueError`.
  unfoldable pub train_subword_model :
      List Text → (vocab_size : ℕ) → (model_type : Text) → Option sp.Model
  train_subword_model [] vocab_size model_type = none
  train_subword_model (t ∷ texts) vocab_size model_type =
      some (sp.train (t ∷ texts) vocab_size model_type)

  unfoldable pub extract_vocab_pieces : sp.Model → List Text
  extract_vocab_pieces model = filter_b (λ piece. not (elem piece special_pieces)) (sp.pieces model)

  unfoldable pub compute_new_subword_tokens :
      List Text
      → Dict Text ℕ
      → (vocab_size : ℕ) → (model_type : Text) → (min_subword_length : ℕ) → Option (List Text)
  compute_new_subword_tokens texts base_vocab vocab_size model_type min_subword_length =
      elim (train_subword_model texts vocab_size model_type) [
        | none ↦ none
        | some model ↦ some (
            select_new_tokens
              (select_high_value_subwords (extract_vocab_pieces model) min_subword_length)
              base_vocab)
      ]

  -- From at least one text there are new tokens: in order and without repetitions, exactly those
  -- pieces of the trained model that are not special, are long enough without the marker of a
  -- word's start, and are not in the base vocabulary.
  pub compute_new_subword_tokens_lem :
      (t : Text) (texts : List Text) (vocab : Dict Text ℕ) (size : ℕ) (model_type : Text) (n : ℕ)
      → (tokens : List Text) × (compute_new_subword_tokens (t ∷ texts) vocab size model_type n
          ≡ some tokens)
        × ((p : Text)
            → elem p tokens ≡ (
                not (has_key p vocab)
                && (is_high_value n p
                    && (not (elem p special_pieces)
                        && elem p (sp.pieces (sp.train (t ∷ texts) size model_type))))))
        × IsSorted tokens
        × IsDistinct tokens
  unfolding compute_new_subword_tokens train_subword_model extract_vocab_pieces
      select_high_value_subwords
  compute_new_subword_tokens_lem t texts vocab size model_type n =
      let pieces = extract_vocab_pieces (sp.train (t ∷ texts) size model_type) in
      let (members, sorted, distinct) =
        select_new_tokens_lem (select_high_value_subwords pieces n) vocab in
      (
        _,
        refl,
        λ p.
            members p
            ∙ ap (◌&&◌ (not (has_key p vocab))) (
                elem-filter (is_high_value n) p pieces
                ∙ ap (◌&&◌ (is_high_value n p)) (
                    elem-filter (λ piece. not (elem piece special_pieces)) p
                      (sp.pieces (sp.train (t ∷ texts) size model_type)))),
        sorted,
        distinct,
      )
