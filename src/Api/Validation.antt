-- ===== src/Api/Validation.antt =====
-- apps/api/app/validation.py: the message for a request that fails its validation.
pub mod First
use es_kaq_translator_v.Base.{Option, none, some, List, [], ◌∷◌, pair_eq}
use es_kaq_translator_v.Base.Dict.{Dict, lookup}
use es_kaq_translator_v.Text.{Text, text, text_eq}

-- The two entries of an error that are read; `loc` is empty where the error has none.
pub record ErrorDetail : Type 0 where
  pub loc : List Text
  pub kind : Option Text

unfoldable pub field_messages : Dict (Text × Text) Text
field_messages =
    ((text "text", text "string_too_short"), text "El texto no puede estar vacío.")
    ∷ (
      (text "text", text "string_too_long"),
      text "El texto no puede tener más de 2000 caracteres.",
    )
    ∷ ((text "direction", text "enum"), text "La dirección debe ser 'es-to-cak' o 'cak-to-es'.")
    ∷ []

abbrev pub fallback_message : Text
fallback_message = text "Los datos enviados no son válidos."

-- `loc[-1] if loc else None`
unfoldable pub last_of : List Text → Option Text
last_of [] = none
last_of (f ∷ []) = some f
last_of (f ∷ g ∷ loc) = last_of (g ∷ loc)

-- `_FIELD_MESSAGES.get((field, type))`; no message is empty.
unfoldable pub message_of : ErrorDetail → Option Text
message_of e = elim (last_of e.loc) [
  | none ↦ none
  | some f ↦ elim e.kind [ none ↦ none | some k ↦ lookup (f, k) field_messages ]
]

unfoldable pub validation_error_message : List ErrorDetail → Text
validation_error_message [] = fallback_message
validation_error_message (e ∷ errors) = elim (message_of e) [
  | some message ↦ message
  | none ↦ validation_error_message errors
]
