-- ===== src/Training/Generation.antt =====
-- ml/training/train.py: generate_translations, batch by batch for each target language.
pub mod Slots
mod Tests
pub mod Groups
pub mod Translated
use es_kaq_translator_v.Base.{
  ℕ, zero, suc, ◌+◌, Bool, true, false, Option, none, some, List, [], ◌∷◌, ◌++◌, length, get_elem?,
  take, drop, if◌then◌else◌, ◌=?◌,
}
use es_kaq_translator_v.Base.Dict.{Dict}
use es_kaq_translator_v.Text.{Text, text_eq}
use es_kaq_translator_v.Training.Direction.{
  Outcome, TranslationExample, tag_of, tag_source_text, strip_leading_direction_tag,
}

pub data Generated (A : Type 0) : Type 0 where
  ok : A → Generated A
  key_error : Text → Generated A
  value_error index_error assertion_error : Generated A

abbrev pub then_ : {A B : Type 0} → Generated A → (A → Generated B) → Generated B
then_ (ok a) f = f a
then_ (key_error k) f = key_error k
then_ value_error f = value_error
then_ index_error f = index_error
then_ assertion_error f = assertion_error

abbrev pub of_outcome : {A : Type 0} → Outcome A → Generated A
of_outcome (Outcome.ok a) = ok a
of_outcome (Outcome.key_error k) = key_error k
of_outcome (Outcome.value_error v) = value_error

abbrev pub of_index : {A : Type 0} → Option A → Generated A
of_index none = index_error
of_index (some a) = ok a

-- The tokenizer and the model: encoding a batch of texts, generating with the first token forced, and
-- decoding without special tokens, under one decoding configuration.
pub record Decoder : Type 0 where
  pub token_id : Text → ℕ
  pub generate : (forced_bos_token_id : ℕ) → List Text → List Text

-- `indices_by_target_lang.setdefault(language, []).append(index)`
unfoldable pub append_index : Text → ℕ → Dict Text (List ℕ) → Dict Text (List ℕ)
append_index language i [] = (language, i ∷ []) ∷ []
append_index language i ((k, indices) ∷ groups) =
    let rest = append_index language i groups in
    if k =? language then (k, indices ++ (i ∷ [])) ∷ groups else (k, indices) ∷ rest

unfoldable pub grouped : Dict Text (List ℕ) → ℕ → List TranslationExample → Dict Text (List ℕ)
grouped groups i [] = groups
grouped groups i (example ∷ examples) =
    grouped (append_index example.target_lang i groups) (i + 1) examples

-- `hypotheses[i] = text`
unfoldable pub set_slot : ℕ → Text → List (Option Text) → List (Option Text)
set_slot i t [] = []
set_slot zero t (slot ∷ slots) = some t ∷ slots
set_slot (suc i) t (slot ∷ slots) = slot ∷ set_slot i t slots

-- The loop over `zip(batch_indices, decoded, strict=True)`
unfoldable pub fill :
    Text → List ℕ → List Text → List (Option Text) → Generated (List (Option Text))
fill language [] [] slots = ok slots
fill language [] (t ∷ decoded) slots = value_error
fill language (i ∷ indices) [] slots = value_error
fill language (i ∷ indices) (t ∷ decoded) slots =
    then_ (of_outcome (strip_leading_direction_tag t language))
      (λ stripped. fill language indices decoded (set_slot i stripped slots))

-- The texts of a batch, each behind its tag.
unfoldable pub batch_texts : List TranslationExample → Text → List ℕ → Generated (List Text)
batch_texts examples language [] = ok []
batch_texts examples language (i ∷ indices) = then_ (of_index (get_elem? examples i)) (λ example.
    then_ (of_outcome (tag_source_text example.source_text language))
      (λ tagged. then_ (batch_texts examples language indices) (λ texts. ok (tagged ∷ texts))))

unfoldable pub empty_slots : {A : Type 0} → List A → List (Option Text)
empty_slots [] = []
empty_slots (x ∷ xs) = none ∷ empty_slots xs

-- `assert all(h is not None for h in hypotheses)`
unfoldable pub all_filled : List (Option Text) → Generated (List Text)
all_filled [] = ok []
all_filled (none ∷ slots) = assertion_error
all_filled (some t ∷ slots) = then_ (all_filled slots) (λ ts. ok (t ∷ ts))

module _ (decoder : Decoder) (examples : List TranslationExample) (batch_size : ℕ) where
  unfoldable pub run_batch :
      Text → (bos : ℕ) → List ℕ → List (Option Text) → Generated (List (Option Text))
  run_batch language bos indices slots =
      then_ (batch_texts examples language indices)
        (λ texts. fill language indices (decoder.generate bos texts) slots)

  -- The batches of one language. Each takes at least one index, so as much fuel as indices is enough.
  unfoldable pub run_batches :
      (fuel : ℕ) → Text → (bos : ℕ) → List ℕ → List (Option Text) → Generated (List (Option Text))
  run_batches fuel language bos [] slots = ok slots
  run_batches zero language bos (i ∷ indices) slots = ok slots
  run_batches (suc fuel) language bos (i ∷ indices) slots =
      then_ (run_batch language bos (take batch_size (i ∷ indices)) slots)
        (run_batches fuel language bos (drop batch_size (i ∷ indices)))

  unfoldable pub run_languages :
      Dict Text (List ℕ) → List (Option Text) → Generated (List (Option Text))
  run_languages [] slots = ok slots
  run_languages ((language, indices) ∷ groups) slots = then_ (of_outcome (tag_of language)) (λ tag.
      -- `range` refuses a step of zero
      elim batch_size [
        | zero ↦ value_error
        | suc n ↦
            then_ (run_batches (length indices) language (decoder.token_id tag) indices slots)
              (run_languages groups)
      ])

  unfoldable pub generate_translations : Generated (List Text)
  generate_translations =
      then_ (run_languages (grouped [] 0 examples) (empty_slots examples)) all_filled
