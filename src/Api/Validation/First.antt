-- ===== src/Api/Validation/First.antt =====
-- apps/api/app/validation.py: the error that the message is about.
use es_kaq_translator_v.Base.{
  ◌≡◌, refl, ap, none, some, List, [], ◌∷◌, ◌++◌, All, ◌⊎◌, inl, inr, Option-cases,
}
use es_kaq_translator_v.Api.Validation.{
  ErrorDetail, message_of, validation_error_message, fallback_message,
}

-- The message is that of the first error that is recognised, or, where none is, the general one.
pub validation_error_message_lem :
    (errors : List ErrorDetail)
    → ((earlier : List ErrorDetail) × (e : ErrorDetail) × (later : List ErrorDetail) × (errors
          ≡ earlier ++ (e ∷ later))
        × All (λ d. message_of d ≡ none) earlier
        × (message_of e ≡ some (validation_error_message errors)))
      ⊎ (All (λ d. message_of d ≡ none) errors
          × (validation_error_message errors ≡ fallback_message))
unfolding validation_error_message
validation_error_message_lem [] = inr (tt, refl)
validation_error_message_lem (e ∷ errors) = elim (Option-cases (message_of e)) [
  | inr (message, known) ↦ inl ([], e, errors, refl, tt, rw (known, validation_error_message) refl)
  | inl unknown ↦ elim (validation_error_message_lem errors) [
    | inl (earlier, d, later, whole, none_known, found) ↦ inl (
      e ∷ earlier,
      d,
      later,
      ap (◌∷◌ e) whole,
      (unknown, none_known),
      rw (unknown, validation_error_message) found,
    )
    | inr (none_known, general) ↦
        inr ((unknown, none_known), rw (unknown, validation_error_message) general)
  ]
]
