-- ===== src/Training/Dataset.antt =====
-- ml/training/train.py: the encoded examples of a training run.
use es_kaq_translator_v.Base.{
  ℕ, ◌-◌, ◌≤◌, ◌≡◌, refl, max, Bool, true, false, Option, none, some, List, [], ◌∷◌, ◌++◌, length,
  length-append, arith, ◌⊎◌, inl, inr, Option-cases,
}
use es_kaq_translator_v.Base.Dict.{Dict, lookup, insert}
use es_kaq_translator_v.Text.{Text, text, text_eq}
use es_kaq_translator_v.Training.Direction.{
  Outcome, ok, key_error, value_error, TranslationExample, direction_tags, tag_of, with_tag,
  tag_source_text,
}

-- The tokenizer's call on one text, with truncation to `max_length`. Sampling, when it is on, makes it
-- another function.
pub record Encoder : Type 0 where
  pub token_id : Text → ℕ
  pub eos_token_id : ℕ
  pub encode : (add_special_tokens : Bool) → (max_length : ℕ) → Text → List ℕ

pub record Item : Type 0 where
  pub input_ids : List ℕ
  pub labels : List ℕ

-- `max(1, max_length - 2)`
unfoldable pub target_budget : ℕ → ℕ
target_budget max_length = max 1 (max_length - 2)

unfoldable pub item_of :
    Encoder → (max_length : ℕ) → (target_text : Text) → (tag tagged_source : Text) → Item
item_of enc max_length target_text tag tagged_source = record {
  input_ids = enc.encode true max_length tagged_source;
  labels =
      enc.token_id tag ∷ enc.encode false (target_budget max_length) target_text
      ++ (enc.eos_token_id ∷ []);
}

-- `__getitem__` of an example in range
unfoldable pub get_item : Encoder → (max_length : ℕ) → TranslationExample → Outcome Item
get_item enc max_length example = elim (tag_source_text example.source_text example.target_lang) [
  | key_error k ↦ key_error k
  | value_error v ↦ value_error v
  | ok tagged_source ↦ elim (tag_of example.target_lang) [
    | key_error k ↦ key_error k
    | value_error v ↦ value_error v
    | ok tag ↦ ok (item_of enc max_length example.target_text tag tagged_source)
  ]
]

-- `batch.get("labels")` decides; `shift` is transformers' `shift_tokens_right`.
unfoldable pub attach_decoder_input_ids :
    {Tensor : Type 0}
    → (shift : Tensor → (pad_token_id decoder_start_token_id : ℕ) → Tensor)
    → Dict Text (Option Tensor)
    → (pad_token_id decoder_start_token_id : ℕ) → Dict Text (Option Tensor)
attach_decoder_input_ids shift batch pad start = elim (lookup (text "labels") batch) [
  | none ↦ batch
  | some none ↦ batch
  | some (some labels) ↦ insert (text "decoder_input_ids") (some (shift labels pad start)) batch
]

module _ (enc : Encoder)
    (truncates : (n : ℕ) (t : Text)
      → ((2 ≤ n) → length (enc.encode true n t) ≤ n)
        × ((1 ≤ n) → length (enc.encode false n t) ≤ n)) where
  -- An example into Kaqchikel or Spanish is encoded when at least the two special tokens fit: the input
  -- ids are those of the tagged source, at most `max_length`, and the labels are the id of the
  -- language's tag, the ids of the target in what is left of `max_length` or in one, and the end of the
  -- sentence, together at most `max_length` or three. An example into any other language raises
  -- `KeyError`. The tokenizer truncates to `max_length` where its special tokens fit.
  pub get_item-bounds :
      (max_length : ℕ) (example : TranslationExample)
      → 2 ≤ max_length
      → let language = example.target_lang in
        let budget = max 1 (max_length - 2) in
        ((tag : Text) × (item : Item) × (lookup language direction_tags ≡ some tag)
          × (get_item enc max_length example ≡ ok item)
          × (item.input_ids ≡ enc.encode true max_length (tag ++ (32 ∷ example.source_text)))
          × (item.labels
              ≡ enc.token_id tag ∷ enc.encode false budget example.target_text
                ++ (enc.eos_token_id ∷ []))
          × (length item.input_ids ≤ max_length)
          × (length item.labels ≤ max 3 max_length))
        ⊎ ((lookup language direction_tags ≡ none)
            × (get_item enc max_length example ≡ key_error language))
  unfolding get_item tag_of tag_source_text with_tag item_of target_budget
  get_item-bounds max_length example two =
      elim (Option-cases (lookup example.target_lang direction_tags)) [
        | inl absent ↦ inr (absent, rw (get_item, absent) refl)
        | inr (tag, found) ↦
            let tagged = tag ++ (32 ∷ example.source_text) in
            let budget = target_budget max_length in
            let ids = enc.encode false budget example.target_text in
            inl (
              tag,
              item_of enc max_length example.target_text tag tagged,
              found,
              rw (get_item, found, found) refl,
              refl,
              refl,
              (truncates max_length tagged).0 two,
              let l = length-append ids (enc.eos_token_id ∷ []) in
                  let one : 1 ≤ budget = omega arith in
                  let t = (truncates budget example.target_text).1 one in omega arith,
            )
      ]
